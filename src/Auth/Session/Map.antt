-- ===== src/Auth/Session/Map.antt =====
-- Sequences of additions and deletions of sessions, as a subscriber makes them.
use fast_cfs.Base.{ℕ, sym, subst, ◌≡◌, Option, none, some, List, [], ◌∷◌, refl, ap, ◌∙◌, Memᴰ, head}
use mathlib.Core.Path.{fun_ext}
use fast_cfs.Auth.Session.{
  SessionId, HashEntry, Sessions, find_session, set_bucket, insert_found, session_htable_insert,
  alloc_entry, entry_of, add_func, add_existing, get_found, get_fields, delete,
}
use fast_cfs.Auth.Session.Chain.{same_id_refl}
use fast_cfs.Auth.Session.Table.{TableInv, alloc-Inv, overwrite-find}
use fast_cfs.Auth.Session.Lookup.{assign, delete-lookup}
use fast_cfs.Auth.Session.Owned.{IsOwned, add_existing-Owned, delete-Owned}
use fast_cfs.Auth.Session.Added.{add_existing-lookup}

pub data Change (F : Type 0) : Type 0 where
  put : SessionId → F → Change F
  take : SessionId → Change F

-- The map after a change.
abbrev pub effect : {F : Type 0} → Change F → (SessionId → Option F) → SessionId → Option F
effect (put id fields) m = assign id (some fields) m
effect (take id) m = assign id none m

module _ {F : Type 0} where
  unfoldable pub change : Change F → Sessions F → Sessions F
  unfolding add_existing delete
  change (put id fields) t = add_existing t id fields
  change (take id) t = (delete t id).1

  unfoldable pub changes : List (Change F) → Sessions F → Sessions F
  unfolding change
  changes [] t = t
  changes (c ∷ cs) t = changes cs (change c t)

  unfoldable pub effects : List (Change F) → (SessionId → Option F) → SessionId → Option F
  effects [] m = m
  effects (c ∷ cs) m = effects cs (effect c m)

  -- Sessions are added under ids only that have none at the time.
  unfoldable pub AddsNew : List (Change F) → (SessionId → Option F) → Type 0
  AddsNew [] m = Unit
  AddsNew (put id fields ∷ cs) m = (m id ≡ none) × AddsNew cs (effect (put id fields) m)
  AddsNew (take id ∷ cs) m = AddsNew cs (effect (take id) m)

  not_found : (memory : ℕ → F) (o : Option HashEntry) → get_found memory o ≡ none → o ≡ none
  unfolding get_found
  not_found memory none h = refl
  not_found memory (some e) h = cc

  absent : (t : Sessions F) (id : SessionId) → get_fields t id ≡ none → find_session t id ≡ none
  unfolding get_fields
  absent t id h = not_found t.memory (find_session t id) h

  -- The table after the changes: its chains are sorted, its lookups those of the map, and what is
  -- found lies in objects that are not free.
  pub record Refines (t : Sessions F) (m : SessionId → Option F) : Type 0 where
    pub inv : TableInv t
    pub lookup : get_fields t ≡ m
    pub owned : IsOwned t

  next_map :
      (cs : List (Change F)) (t t' : Sessions F) (c : Change F)
      → ((j : SessionId) → get_fields t' j ≡ effect c (get_fields t) j)
      → AddsNew cs (effect c (get_fields t))
      → AddsNew cs (get_fields t')
  next_map cs t t' c e new = subst (AddsNew cs) (sym (fun_ext e)) new

  -- Whatever sessions are added, under given ids that have no session at the time, and deleted, in
  -- any order, an id has the fields that were added last, or none if it was deleted since; every
  -- chain stays sorted; and the fields of every session that is found lie in its own object, which
  -- no other session uses and which is not free, so that the allocator may hand out a freed one
  -- again.
  pub changes-effects :
      (cs : List (Change F)) (t : Sessions F)
      → TableInv t
      → IsOwned t
      → AddsNew cs (get_fields t)
      → Refines (changes cs t) (effects cs (get_fields t))
  unfolding changes effects AddsNew change
  changes-effects [] t v w new = record { inv = v; lookup = refl; owned = w }
  changes-effects (put id fields ∷ cs) t v w new =
      let (x, e) = add_existing-lookup t v id fields in
      let r =
        changes-effects cs (add_existing t id fields) x
          (add_existing-Owned t v w id fields (absent t id new.0))
          (next_map cs t (add_existing t id fields) (put id fields) e new.1) in
      record { inv = r.inv; lookup = r.lookup ∙ ap (effects cs) (fun_ext e); owned = r.owned }
  changes-effects (take id ∷ cs) t v w new =
      let (x, e) = delete-lookup t v id in
      let r =
        changes-effects cs (delete t id).1 x (delete-Owned t v w id)
          (next_map cs t (delete t id).1 (take id) e new) in
      record { inv = r.inv; lookup = r.lookup ∙ ap (effects cs) (fun_ext e); owned = r.owned }

  -- The entry of the id after the branch that replaces.
  replaced-entry :
      (t : Sessions F) (v : TableInv t) (id : SessionId) (fields : F) (found : HashEntry)
      → find_session t id ≡ some found
      → find_session (add_existing t id fields) id
        ≡ some (record found { id = id; fields = t.next_object })
  unfolding add_existing session_htable_insert insert_found add_func alloc_entry find_session
      set_bucket
  replaced-entry t v id fields found h = rw h (
      overwrite-find (alloc_entry t fields) (alloc-Inv t v fields) (entry_of t id) found h id
      ∙ rw (same_id_refl id))

  replaced-freed :
      (t : Sessions F) (id : SessionId) (fields : F) (found : HashEntry)
      → find_session t id ≡ some found
      → Memᴰ t.next_object (add_existing t id fields).freed
  unfolding add_existing session_htable_insert insert_found add_func alloc_entry find_session
  replaced-freed t id fields found h = rw h (head refl)

  -- When a session is added under an id that is in the table, the entry of that id then refers to
  -- fields that lie in the new object, which has just been freed.
  pub add_existing-Dangling :
      (t : Sessions F) (id : SessionId) (fields : F) (found : HashEntry)
      → TableInv t
      → find_session t id ≡ some found
      → (e : HashEntry) × (find_session (add_existing t id fields) id ≡ some e)
        × Memᴰ e.fields (add_existing t id fields).freed
  add_existing-Dangling t id fields found v h = (
    record found { id = id; fields = t.next_object },
    replaced-entry t v id fields found h,
    replaced-freed t id fields found h,
  )
