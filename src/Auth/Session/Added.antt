-- ===== src/Auth/Session/Added.antt =====
-- The table after a session has been added.
use fast_cfs.Base.{
  suc, ◌<◌, ◌≡◌, true, Option, none, some, if◌then◌else◌, refl, ap, ◌∙◌, arith, Bool-cases, inl,
  inr,
}
use fast_cfs.Auth.Session.{
  SessionId, HashEntry, Sessions, same_id, link, overwrite, bucket_of, set_bucket, find_session,
  insert_found, session_htable_insert, alloc_entry, entry_of, add_func, add_existing, get_found,
  get_fields,
}
use fast_cfs.Auth.Session.Chain.{link-All, overwrite-below, link-Sorted, overwrite-Sorted}
use fast_cfs.Auth.Session.Table.{
  TableInv, alloc-Inv, set_bucket-Inv, member-none, link-find, overwrite-find,
}
use fast_cfs.Auth.Session.Lookup.{assign, memory-kept, found-below, assign-found}

module _ {F : Type 0} (t : Sessions F) (v : TableInv t) where
  new_at :
      (fields : F) (e : HashEntry)
      → e.fields ≡ t.next_object
      → get_found (alloc_entry t fields).memory (some e) ≡ some fields
  unfolding get_found alloc_entry
  new_at fields e at = ground arith

  placed-lookup :
      (id j : SessionId) (fields : F) (e : HashEntry)
      → e.fields ≡ t.next_object
      → get_found (alloc_entry t fields).memory (if same_id id j then some e else find_session t j)
        ≡ assign id (some fields) (get_fields t) j
  unfolding get_fields
  placed-lookup id j fields e at =
      assign-found t v id j (alloc_entry t fields).memory (some e)
      ∙ elim (Bool-cases (same_id id j)) [
        | inl h ↦ rw h (new_at fields e at)
        | inr h ↦ rw h (memory-kept t v fields (find_session t j) (found-below t v j))
      ]

  pub linked-lookup :
      (id : SessionId) (fields : F)
      → find_session t id ≡ none
      → (j : SessionId)
      → get_fields
          (set_bucket
            (alloc_entry t fields)
            (bucket_of t id)
            (link (entry_of t id) (t.buckets (bucket_of t id))))
          j
        ≡ assign id (some fields) (get_fields t) j
  unfolding get_fields get_found set_bucket find_session alloc_entry
  linked-lookup id fields h j =
      ap (get_found (alloc_entry t fields).memory)
        (link-find (alloc_entry t fields) (alloc-Inv t v fields) (entry_of t id) h j)
      ∙ placed-lookup id j fields (entry_of t id) refl

  pub linked-Inv :
      (id : SessionId) (fields : F)
      → find_session t id ≡ none
      → TableInv (
          set_bucket
            (alloc_entry t fields)
            (bucket_of t id)
            (link (entry_of t id) (t.buckets (bucket_of t id))))
  unfolding alloc_entry
  linked-Inv id fields h =
      let es = t.buckets (bucket_of t id) in
      let v1 = alloc-Inv t v fields in
      set_bucket-Inv (alloc_entry t fields) v1 (bucket_of t id) (link (entry_of t id) es)
        (link-Sorted (entry_of t id) es (v.sorted (bucket_of t id)) (member-none t v id h))
        (link-All (λ e. e.fields < suc t.next_object) (entry_of t id) es (omega arith)
          (v1.below (bucket_of t id)))

  over-lookup :
      (id : SessionId) (fields : F) (x : HashEntry)
      → find_session t id ≡ some x
      → (j : SessionId)
      → get_fields
          (set_bucket
            (alloc_entry t fields)
            (bucket_of t id)
            (overwrite (entry_of t id) (t.buckets (bucket_of t id))))
          j
        ≡ assign id (some fields) (get_fields t) j
  unfolding get_fields get_found set_bucket find_session alloc_entry
  over-lookup id fields x h j =
      ap (get_found (alloc_entry t fields).memory)
        (overwrite-find (alloc_entry t fields) (alloc-Inv t v fields) (entry_of t id) x h j)
      ∙ placed-lookup id j fields (record x { id = id; fields = t.next_object }) refl

  over-Inv :
      (id : SessionId) (fields : F)
      → TableInv (
          set_bucket
            (alloc_entry t fields)
            (bucket_of t id)
            (overwrite (entry_of t id) (t.buckets (bucket_of t id))))
  unfolding alloc_entry
  over-Inv id fields =
      let es = t.buckets (bucket_of t id) in
      let v1 = alloc-Inv t v fields in
      set_bucket-Inv (alloc_entry t fields) v1 (bucket_of t id) (overwrite (entry_of t id) es)
        (overwrite-Sorted (entry_of t id) es (v.sorted (bucket_of t id)))
        (overwrite-below (suc t.next_object) (entry_of t id) es (omega arith)
          (v1.below (bucket_of t id)))

  insert-lookup :
      (id : SessionId) (fields : F) (o : Option HashEntry)
      → find_session t id ≡ o
      → let t' =
          add_func (entry_of t id) (insert_found (alloc_entry t fields) (entry_of t id) true o).1 in
        TableInv t' × ((j : SessionId) → get_fields t' j ≡ assign id (some fields) (get_fields t) j)
  unfolding insert_found add_func get_fields find_session alloc_entry
  insert-lookup id fields none h =
      let inv = linked-Inv id fields h in
      (record { sorted = inv.sorted; below = inv.below }, linked-lookup id fields h)
  insert-lookup id fields (some x) h =
      let inv = over-Inv id fields in
      (record { sorted = inv.sorted; below = inv.below }, over-lookup id fields x h)

  -- `server_session_add_ex` with an id sets the fields of exactly that id.
  pub add_existing-lookup :
      (id : SessionId) (fields : F)
      → let t' = add_existing t id fields in
        TableInv t' × ((j : SessionId) → get_fields t' j ≡ assign id (some fields) (get_fields t) j)
  unfolding add_existing session_htable_insert alloc_entry find_session
  add_existing-lookup id fields = insert-lookup id fields (find_session t id) refl
