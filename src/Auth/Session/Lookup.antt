-- ===== src/Auth/Session/Lookup.antt =====
-- The operations on the sessions, against a map from ids to fields.
use fast_cfs.Base.{
  ℕ, ◌<◌, ◌≡◌, true, false, Option, none, some, List, [], ◌∷◌, if◌then◌else◌, refl, ap, ◌∙◌, sym,
  arith, Bool-cases, inl, inr, All, subst,
}
use fast_cfs.Auth.Session.{
  SessionId, HashEntry, Sessions, same_id, find, unlink, bucket_of, set_bucket, find_session,
  alloc_entry, add_func, get_found, get_fields, free_hash_entry, delete_found, delete,
}
use fast_cfs.Auth.Session.Chain.{same_id→eq, unlink-All, unlink-Sorted}
use fast_cfs.Auth.Session.Table.{TableInv, set_bucket-Inv, unlink-find}

found_head :
    (id : SessionId) (x : HashEntry) (xs : List HashEntry) (e : HashEntry)
    → same_id x.id id ≡ true
    → find id (x ∷ xs) ≡ some e
    → x ≡ e
unfolding find
found_head id x xs e k h = ground arith

found_tail :
    (id : SessionId) (x : HashEntry) (xs : List HashEntry) (e : HashEntry)
    → same_id x.id id ≡ false
    → find id (x ∷ xs) ≡ some e
    → find id xs ≡ some e
unfolding find
found_tail id x xs e k h = ground arith

find-All :
    (P : HashEntry → Type 0) (id : SessionId) (es : List HashEntry) (e : HashEntry)
    → find id es ≡ some e
    → All P es
    → P e
unfolding find
find-All P id [] e h a = cc
find-All P id (x ∷ xs) e h a = elim (Bool-cases (same_id x.id id)) [
  | inl k ↦ subst P (found_head id x xs e k h) a.0
  | inr k ↦ find-All P id xs e (found_tail id x xs e k h) a.1
]

freed-Inv :
    {F : Type 0} (t : Sessions F) (e : HashEntry) → TableInv t → TableInv (free_hash_entry e t)
unfolding free_hash_entry
freed-Inv t e v = record { sorted = v.sorted; below = v.below }

added-Inv : {F : Type 0} (t : Sessions F) (e : HashEntry) → TableInv t → TableInv (add_func e t)
unfolding add_func
added-Inv t e v = record { sorted = v.sorted; below = v.below }

-- The map after an operation that sets the fields of one id, or takes the id away.
abbrev pub assign :
    {F : Type 0} → SessionId → Option F → (SessionId → Option F) → SessionId → Option F
assign id new m j = if same_id id j then new else m j

module _ {F : Type 0} (t : Sessions F) (v : TableInv t) where
  -- What the entries that are found refer to is not changed by a new object.
  pub memory-kept :
      (fields : F) (o : Option HashEntry)
      → ((e : HashEntry) → o ≡ some e → e.fields < t.next_object)
      → get_found (alloc_entry t fields).memory o ≡ get_found t.memory o
  unfolding get_found alloc_entry
  memory-kept fields none h = refl
  memory-kept fields (some e) h = ground (arith, h e refl)

  pub found-below :
      (id : SessionId) (e : HashEntry) → find_session t id ≡ some e → e.fields < t.next_object
  unfolding find_session
  found-below id e h =
      find-All (λ x. x.fields < t.next_object) id (t.buckets (bucket_of t id)) e h
        (v.below (bucket_of t id))

  -- Nothing is found, or the entry is taken out.
  no-entry :
      (id j : SessionId) → find_session t id ≡ none → same_id id j ≡ true → get_fields t j ≡ none
  unfolding get_fields get_found
  no-entry id j e h = rw (ap (find_session t) (sym (same_id→eq id j h)) ∙ e) refl

  pub assign-found :
      (id j : SessionId) (memory : ℕ → F) (o : Option HashEntry)
      → get_found memory (if same_id id j then o else find_session t j)
        ≡ (if same_id id j then get_found memory o else get_found memory (find_session t j))
  assign-found id j memory o = ground arith

  delete_none :
      (id : SessionId)
      → find_session t id ≡ none
      → (j : SessionId) → get_fields t j ≡ assign id none (get_fields t) j
  delete_none id e j = elim (Bool-cases (same_id id j)) [
    | inl h ↦ rw h (no-entry id j e h)
    | inr h ↦ rw h refl
  ]

  delete_some :
      (id : SessionId) (x : HashEntry) (j : SessionId)
      → get_fields
          (free_hash_entry x
            (set_bucket t (bucket_of t id) (unlink id (t.buckets (bucket_of t id)))))
          j
        ≡ assign id none (get_fields t) j
  unfolding free_hash_entry get_fields get_found set_bucket find_session
  delete_some id x j =
      ap (get_found t.memory) (unlink-find t v id j) ∙ assign-found id j t.memory none

  delete_found-lookup :
      (id : SessionId) (o : Option HashEntry)
      → find_session t id ≡ o
      → let (r, t') = delete_found t id o in
        TableInv t' × ((j : SessionId) → get_fields t' j ≡ assign id none (get_fields t) j)
  unfolding delete_found
  delete_found-lookup id none e = (v, delete_none id e)
  delete_found-lookup id (some x) e = (
    freed-Inv _ x (
        set_bucket-Inv t v (bucket_of t id) (unlink id (t.buckets (bucket_of t id)))
          (unlink-Sorted id _ (v.sorted (bucket_of t id)))
          (unlink-All (λ e. e.fields < t.next_object) id _ (v.below (bucket_of t id)))),
    delete_some id x,
  )

  -- `server_session_delete` takes exactly its id away.
  pub delete-lookup :
      (id : SessionId)
      → let (r, t') = delete t id in
        TableInv t' × ((j : SessionId) → get_fields t' j ≡ assign id none (get_fields t) j)
  unfolding delete
  delete-lookup id = delete_found-lookup id (find_session t id) refl
