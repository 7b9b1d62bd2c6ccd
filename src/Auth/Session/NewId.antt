-- ===== src/Auth/Session/NewId.antt =====
-- The creation of a session under a new id, and the bits of an id.
use fast_cfs.Base.{
  ◌≡◌, Bool, true, false, Option, none, some, List, [], ◌∷◌, refl, ap, ◌∙◌, sym, arith, Memᴰ, head,
  tail, Option-cases, inl, inr,
}
use fast_cfs.Auth.Session.{
  SessionId, Draw, new_id, is_publish, is_persistent, HashEntry, Sessions, find_session,
  insert_found, session_htable_insert, alloc_entry, entry_of, add_func, get_fields, get_found,
  draw_id, drawn, add_drawn, add_new, set_bucket, bucket_of, link,
}
use fast_cfs.Auth.Session.Table.{TableInv}
use fast_cfs.Auth.Session.Lookup.{assign}
use fast_cfs.Auth.Session.Added.{linked-lookup, linked-Inv}

-- The id keeps the two flags, whatever is drawn.
pub new_id-flags :
    (publish persistent : Bool) (d : Draw)
    → (is_publish (new_id publish persistent d) ≡ publish)
      × (is_persistent (new_id publish persistent d) ≡ persistent)
unfolding new_id is_publish is_persistent
new_id-flags true true d = (ground arith, ground arith)
new_id-flags true false d = (ground arith, ground arith)
new_id-flags false true d = (ground arith, ground arith)
new_id-flags false false d = (ground arith, ground arith)

-- The session `id` is new in `t'`, with the flags and the fields that were asked for.
pub record Fresh {F : Type 0} (t : Sessions F) (publish persistent : Bool) (fields : F)
    (id : SessionId) (t' : Sessions F) : Type 0 where
  pub inv : TableInv t'
  pub unused : get_fields t id ≡ none
  pub publishes : is_publish id ≡ publish
  pub persists : is_persistent id ≡ persistent
  pub lookup : (j : SessionId) → get_fields t' j ≡ assign id (some fields) (get_fields t) j

none-ne-some : {A : Type 0} (x : A) → ◌≡◌ {A = Option A} none (some x) → ⊥
none-ne-some x h = ground (arith, h)

module _ {F : Type 0} (t : Sessions F) (v : TableInv t) (publish persistent : Bool)
    (fields : F) where
  abbrev found_id : List Draw → Option (SessionId × Sessions F)
  found_id draws = draw_id publish persistent (alloc_entry t fields) t.next_object draws

  -- the table with the session of a draw
  abbrev placed : Draw → Sessions F
  placed d =
      let id = new_id publish persistent d in
      set_bucket (alloc_entry t fields) (bucket_of t id)
        (link (entry_of t id) (t.buckets (bucket_of t id)))

  abbrev turn : Draw → Option (SessionId × Sessions F) → Option (SessionId × Sessions F)
  turn d rest =
      let id = new_id publish persistent d in
      drawn id (session_htable_insert (alloc_entry t fields) (entry_of t id) false) rest

  drawn_new :
      (d : Draw) (rest : Option (SessionId × Sessions F))
      → find_session t (new_id publish persistent d) ≡ none
      → turn d rest ≡ some (new_id publish persistent d, placed d)
  unfolding session_htable_insert insert_found alloc_entry find_session drawn
  drawn_new d rest h = rw h refl

  drawn_old :
      (d : Draw) (rest : Option (SessionId × Sessions F)) (x : HashEntry)
      → find_session t (new_id publish persistent d) ≡ some x
      → turn d rest ≡ rest
  unfolding session_htable_insert insert_found alloc_entry find_session drawn
  drawn_old d rest x h = rw h refl

  later :
      (c d : Draw) (cs : List Draw) (x : HashEntry)
      → Memᴰ d (c ∷ cs)
      → find_session t (new_id publish persistent d) ≡ none
      → find_session t (new_id publish persistent c) ≡ some x
      → Memᴰ d cs
  later c d cs x (head e) h k =
      let both = sym h ∙ ap (λ y. find_session t (new_id publish persistent y)) e ∙ k in
      absurd (none-ne-some x both)
  later c d cs x (tail m) h k = m

  linked-Fresh :
      (d : Draw)
      → find_session t (new_id publish persistent d) ≡ none
      → let id = new_id publish persistent d in
        Fresh t publish persistent fields id (
          set_bucket
            (alloc_entry t fields)
            (bucket_of t id)
            (link (entry_of t id) (t.buckets (bucket_of t id))))
  unfolding get_fields get_found
  linked-Fresh d h =
      let id = new_id publish persistent d in
      record {
        inv = linked-Inv t v id fields h;
        unused = ap (get_found t.memory) h ∙ refl;
        publishes = (new_id-flags publish persistent d).0;
        persists = (new_id-flags publish persistent d).1;
        lookup = linked-lookup t v id fields h;
      }

  draw_id-Fresh :
      (draws : List Draw) (d : Draw)
      → Memᴰ d draws
      → find_session t (new_id publish persistent d) ≡ none
      → (x : SessionId × Sessions F) × (found_id draws ≡ some x)
        × Fresh t publish persistent fields x.0 x.1
  unfolding draw_id
  draw_id-Fresh [] d m h = elim m [ ]
  draw_id-Fresh (c ∷ cs) d m h =
      elim (Option-cases (find_session t (new_id publish persistent c))) [
        | inl k ↦
            ((new_id publish persistent c, placed c), drawn_new c (found_id cs) k, linked-Fresh c k)
        | inr (x, k) ↦
            let (y, e, f) = draw_id-Fresh cs d (later c d cs x m h k) h in
            (y, drawn_old c (found_id cs) x k ∙ e, f)
      ]

  -- If one of the draws gives an id that no session has, the creation ends, with a session under an
  -- id that no session had, which carries the two flags; it is found with its fields, and every
  -- other id finds what it found before.
  pub add_new-Fresh :
      (draws : List Draw) (d : Draw)
      → Memᴰ d draws
      → find_session t (new_id publish persistent d) ≡ none
      → (x : SessionId × Sessions F) × (add_new t publish persistent fields draws ≡ some x)
        × Fresh t publish persistent fields x.0 x.1
  unfolding add_new add_drawn add_func get_fields find_session
  add_new-Fresh draws d m h =
      let (y, e, f) = draw_id-Fresh draws d m h in
      let inv = f.inv in
      (
        (y.0, add_func (entry_of t y.0) y.1),
        ap (add_drawn t.next_object) e,
        record {
          inv = record { sorted = inv.sorted; below = inv.below };
          unused = f.unused;
          publishes = f.publishes;
          persists = f.persists;
          lookup = f.lookup;
        },
      )
