-- ===== src/Auth/Session/Table.antt =====
-- The hash table of the sessions, against a map from ids to fields.
use fast_cfs.Base.{
  ==→eq, ℕ, ◌<◌, ◌≡◌, Bool, true, false, Option, none, some, List, if◌then◌else◌, ◌==◌, refl, ap,
  ◌∙◌, sym, arith, Bool-cases, inl, inr, All, All-map,
}
use fast_cfs.Auth.Session.{
  SessionId, HashEntry, Sessions, same_id, find, link, overwrite, unlink, bucket_of, set_bucket,
  find_session, alloc_entry,
}
use fast_cfs.Auth.Session.Chain.{
  Sorted, member, find-member, link-Sorted, member-link, overwrite-Sorted, member-overwrite,
  unlink-Sorted, member-unlink, same_id→eq,
}

-- Every chain is sorted, and the fields of its entries lie in objects that have been made.
pub record TableInv {F : Type 0} (t : Sessions F) : Type 0 where
  pub sorted : (i : ℕ) → Sorted (t.buckets i)
  pub below : (i : ℕ) → All (λ e. e.fields < t.next_object) (t.buckets i)

module _ {F : Type 0} (t : Sessions F) (v : TableInv t) (id : SessionId) (es : List HashEntry)
    (o : Option HashEntry) (sorted : Sorted es)
    (spec : (j : SessionId)
      → member j es ≡ (if same_id id j then o else member j (t.buckets (bucket_of t id)))) where
  apart : (j : SessionId) → id ≡ j → (bucket_of t j == bucket_of t id) ≡ false → ⊥
  apart j e h =
      let k : (bucket_of t j == bucket_of t j) ≡ false =
        ap (λ i. bucket_of t j == bucket_of t i) (sym e) ∙ h in
      ground arith

  at_bucket :
      (j : SessionId) (b : Bool)
      → (bucket_of t j == bucket_of t id) ≡ b
      → find j (if b then es else t.buckets (bucket_of t j))
        ≡ (if same_id id j then o else find_session t j)
  unfolding find_session
  at_bucket j true h =
      find-member j es sorted
      ∙ spec j
      ∙ ap (λ x. if same_id id j then o else x)
          (ap (λ i. member j (t.buckets i)) (sym (==→eq _ _ h))
            ∙ sym (find-member j (t.buckets (bucket_of t j)) (v.sorted (bucket_of t j))))
  at_bucket j false h = elim (Bool-cases (same_id id j)) [
    | inl e ↦ absurd (apart j (same_id→eq id j e) h)
    | inr e ↦ rw e refl
  ]

  -- The lookups after a chain has been changed at one id.
  pub set_bucket-find :
      (j : SessionId)
      → find_session (set_bucket t (bucket_of t id) es) j
        ≡ (if same_id id j then o else find_session t j)
  unfolding find_session set_bucket
  set_bucket-find j = at_bucket j (bucket_of t j == bucket_of t id) refl

module _ {F : Type 0} (t : Sessions F) (v : TableInv t) where
  pub alloc-Inv : (fields : F) → TableInv (alloc_entry t fields)
  unfolding alloc_entry
  alloc-Inv fields = record {
    sorted = v.sorted;
    below = λ i. All-map (λ e h. omega arith) (t.buckets i) (v.below i);
  }

  pub member-none :
      (id : SessionId) → find_session t id ≡ none → member id (t.buckets (bucket_of t id)) ≡ none
  unfolding find_session
  member-none id h = sym (find-member id _ (v.sorted (bucket_of t id))) ∙ h

  member-some :
      (id : SessionId) (e : HashEntry)
      → find_session t id ≡ some e
      → member id (t.buckets (bucket_of t id)) ≡ some e
  unfolding find_session
  member-some id e h = sym (find-member id _ (v.sorted (bucket_of t id))) ∙ h

  pub set_bucket-Inv :
      (i : ℕ) (es : List HashEntry)
      → Sorted es
      → All (λ e. e.fields < t.next_object) es
      → TableInv (set_bucket t i es)
  unfolding set_bucket
  set_bucket-Inv i es s b = record {
    sorted = λ j. elim (Bool-cases (j == i)) [ inl h ↦ rw h s | inr h ↦ rw h (v.sorted j) ];
    below = λ j. elim (Bool-cases (j == i)) [ inl h ↦ rw h b | inr h ↦ rw h (v.below j) ];
  }

  -- A new entry.
  pub link-find :
      (se : HashEntry)
      → find_session t se.id ≡ none
      → (j : SessionId)
      → find_session (set_bucket t (bucket_of t se.id) (link se (t.buckets (bucket_of t se.id)))) j
        ≡ (if same_id se.id j then some se else find_session t j)
  link-find se h j =
      let es = t.buckets (bucket_of t se.id) in
      set_bucket-find t v se.id (link se es) (some se)
        (link-Sorted se es (v.sorted (bucket_of t se.id)) (member-none se.id h))
        (λ i. member-link i se es (member-none se.id h)) j

  pub overwrite-find :
      (se found : HashEntry)
      → find_session t se.id ≡ some found
      → (j : SessionId)
      → find_session
          (set_bucket t (bucket_of t se.id) (overwrite se (t.buckets (bucket_of t se.id))))
          j
        ≡ (if same_id se.id j
            then some (record found { id = se.id; fields = se.fields })
            else find_session t j)
  overwrite-find se found h j =
      let es = t.buckets (bucket_of t se.id) in
      set_bucket-find t v se.id (overwrite se es)
        (some (record found { id = se.id; fields = se.fields }))
        (overwrite-Sorted se es (v.sorted (bucket_of t se.id)))
        (λ i. member-overwrite i se found es (member-some se.id found h)) j

  pub unlink-find :
      (id j : SessionId)
      → find_session (set_bucket t (bucket_of t id) (unlink id (t.buckets (bucket_of t id)))) j
        ≡ (if same_id id j then none else find_session t j)
  unlink-find id j =
      let es = t.buckets (bucket_of t id) in
      set_bucket-find t v id (unlink id es) none (unlink-Sorted id es (v.sorted (bucket_of t id)))
        (λ i. member-unlink i id es (v.sorted (bucket_of t id))) j
