-- ===== src/Auth/Session/Clear.antt =====
-- src/auth/common/server_session.c: `server_session_clear`, which keeps the persistent sessions.
use fast_cfs.Base.{
  ==→eq, ℕ, suc, zero, ◌+◌, ◌<◌, ◌≡◌, ◌%◌, true, ◌&&◌, none, List, [], ◌∷◌, ◌++◌, if◌then◌else◌,
  ◌==◌, ltb, leb, refl, ap, ap₂, ◌∙◌, sym, arith, Bool-cases, inl, inr, All, append-nil,
  append_assoc,
}
use fast_cfs.Auth.Session.{
  SessionId, HashEntry, Sessions, same_id, before_id, is_persistent, set_bucket, free_hash_entry,
  find_session, get_fields, get_found, find, bucket_of,
}
use fast_cfs.Auth.Session.Chain.{Sorted, member, find-member, same_id→eq}
use fast_cfs.Auth.Session.Table.{TableInv}

-- The walk through a chain, which appends each entry to `keep` or to `remove`.
unfoldable pub split :
    List HashEntry → List HashEntry → List HashEntry → List HashEntry × List HashEntry
split [] keep remove = (keep, remove)
split (e ∷ es) keep remove =
    let kept = split es (keep ++ e ∷ []) remove in
    let gone = split es keep (remove ++ e ∷ []) in if is_persistent e.id then kept else gone

module _ {F : Type 0} where
  unfoldable pub free_chain : List HashEntry → Sessions F → Sessions F
  unfolding free_hash_entry
  free_chain [] t = t
  free_chain (e ∷ es) t = free_chain es (free_hash_entry e t)

  unfoldable pub clear_bucket : ℕ → Sessions F → Sessions F
  unfolding split free_chain set_bucket
  clear_bucket i t =
      let (keep, remove) = split (t.buckets i) [] [] in free_chain remove (set_bucket t i keep)

  -- The loop over the buckets: those left, and the next one.
  unfoldable pub clear_from : ℕ → ℕ → Sessions F → Sessions F
  unfolding clear_bucket
  clear_from zero i t = t
  clear_from (suc n) i t = clear_from n (suc i) (clear_bucket i t)

  unfoldable pub server_session_clear : Sessions F → Sessions F
  unfolding clear_from
  server_session_clear t = clear_from t.capacity 0 t

-- The entries that are kept.
kept : List HashEntry → List HashEntry
kept [] = []
kept (e ∷ es) = if is_persistent e.id then e ∷ kept es else kept es

split-kept : (es keep remove : List HashEntry) → (split es keep remove).0 ≡ keep ++ kept es
unfolding split kept
split-kept [] keep remove = sym (append-nil keep)
split-kept (e ∷ es) keep remove = elim (Bool-cases (is_persistent e.id)) [
  | inl h ↦ rw h (split-kept es (keep ++ e ∷ []) remove ∙ append_assoc keep (e ∷ []) (kept es))
  | inr h ↦ rw h (split-kept es keep (remove ++ e ∷ []))
]

kept-All : (P : HashEntry → Type 0) (es : List HashEntry) → All P es → All P (kept es)
unfolding kept
kept-All P [] h = tt
kept-All P (e ∷ es) h = elim (Bool-cases (is_persistent e.id)) [
  | inl k ↦ rw k (h.0, kept-All P es h.1)
  | inr k ↦ rw k (kept-All P es h.1)
]

kept-Sorted : (es : List HashEntry) → Sorted es → Sorted (kept es)
unfolding kept Sorted
kept-Sorted [] s = tt
kept-Sorted (e ∷ es) s = elim (Bool-cases (is_persistent e.id)) [
  | inl k ↦ rw k (kept-All (λ x. before_id e.id x.id ≡ true) es s.0, kept-Sorted es s.1)
  | inr k ↦ rw k (kept-Sorted es s.1)
]

member-kept :
    (id : SessionId) (es : List HashEntry)
    → member id (kept es) ≡ (if is_persistent id then member id es else none)
unfolding kept member
member-kept id [] = ground arith
member-kept id (e ∷ es) = elim (Bool-cases (same_id e.id id)) [
  | inl s ↦ ground (arith, member-kept id es, ap is_persistent (same_id→eq e.id id s))
  | inr s ↦ ground (arith, member-kept id es)
]

find_kept :
    (id : SessionId) (es : List HashEntry)
    → Sorted es
    → find id (kept es) ≡ (if is_persistent id then find id es else none)
find_kept id es s =
    find-member id (kept es) (kept-Sorted es s)
    ∙ member-kept id es
    ∙ ap (λ x. if is_persistent id then x else none) (sym (find-member id es s))

module _ {F : Type 0} where
  -- Freeing writes the events and the free list.
  record Same (t t' : Sessions F) : Type 0 where
    capacity : t'.capacity ≡ t.capacity
    memory : t'.memory ≡ t.memory
    next : t'.next_object ≡ t.next_object
    buckets : t'.buckets ≡ t.buckets

  free_chain-Same : (es : List HashEntry) (t : Sessions F) → Same t (free_chain es t)
  unfolding free_chain free_hash_entry
  free_chain-Same [] t = record { capacity = refl; memory = refl; next = refl; buckets = refl }
  free_chain-Same (e ∷ es) t =
      let s = free_chain-Same es (free_hash_entry e t) in
      record { capacity = s.capacity; memory = s.memory; next = s.next; buckets = s.buckets }

  -- After the buckets from `i` on, `n` of them, have been cleared.
  record Cleared (i n : ℕ) (t t' : Sessions F) : Type 0 where
    capacity : t'.capacity ≡ t.capacity
    memory : t'.memory ≡ t.memory
    next : t'.next_object ≡ t.next_object
    buckets :
        (j : ℕ)
        → t'.buckets j ≡ (if leb i j && ltb j (i + n) then kept (t.buckets j) else t.buckets j)

  clear_bucket-buckets :
      (i j : ℕ) (t : Sessions F)
      → (clear_bucket i t).buckets j ≡ (if j == i then kept (t.buckets j) else t.buckets j)
  unfolding clear_bucket set_bucket
  clear_bucket-buckets i j t =
      let s =
        free_chain-Same (split (t.buckets i) [] []).1
          (set_bucket t i (split (t.buckets i) [] []).0) in
      ap (λ b. b j) s.buckets ∙ elim (Bool-cases (j == i)) [
        | inl h ↦
            rw h (split-kept (t.buckets i) [] [] ∙ ap (λ k. kept (t.buckets k)) (sym (==→eq j i h)))
        | inr h ↦ rw h refl
      ]

  clear_bucket-Same :
      (i : ℕ) (t : Sessions F)
      → Same (set_bucket t i (split (t.buckets i) [] []).0) (clear_bucket i t)
  unfolding clear_bucket
  clear_bucket-Same i t =
      free_chain-Same (split (t.buckets i) [] []).1 (set_bucket t i (split (t.buckets i) [] []).0)

  clear_from-Cleared : (n i : ℕ) (t : Sessions F) → Cleared i n t (clear_from n i t)
  unfolding clear_from set_bucket
  clear_from-Cleared zero i t = record {
    capacity = refl;
    memory = refl;
    next = refl;
    buckets = λ j. ground arith;
  }
  clear_from-Cleared (suc n) i t =
      let c = clear_from-Cleared n (suc i) (clear_bucket i t) in
      let s = clear_bucket-Same i t in
      record {
        capacity = c.capacity ∙ s.capacity;
        memory = c.memory ∙ s.memory;
        next = c.next ∙ s.next;
        buckets = λ j. ground (arith, c.buckets j, clear_bucket-buckets i j t);
      }

  kept-buckets :
      (t : Sessions F) (j : ℕ)
      → j < t.capacity
      → (server_session_clear t).buckets j ≡ kept (t.buckets j)
  unfolding server_session_clear
  kept-buckets t j h = let c = clear_from-Cleared t.capacity 0 t in ground (arith, c.buckets j)

  find-clear :
      (t : Sessions F) (id : SessionId)
      → TableInv t
      → 0 < t.capacity
      → find_session (server_session_clear t) id
        ≡ (if is_persistent id then find_session t id else none)
  unfolding find_session server_session_clear
  find-clear t id v h =
      let c = clear_from-Cleared t.capacity 0 t in
      ap (λ k. find id ((server_session_clear t).buckets (id.id1 % k))) c.capacity
      ∙ ap (find id) (kept-buckets t (bucket_of t id) (grind arith))
      ∙ find_kept id (t.buckets (bucket_of t id)) (v.sorted (bucket_of t id))

  memory-clear : (t : Sessions F) → (server_session_clear t).memory ≡ t.memory
  unfolding server_session_clear
  memory-clear t = let c = clear_from-Cleared t.capacity 0 t in c.memory

  -- `server_session_clear` keeps exactly the persistent sessions: each of their ids has the fields
  -- that it had, and no other id has any.
  pub server_session_clear-fields :
      (t : Sessions F) (id : SessionId)
      → TableInv t
      → 0 < t.capacity
      → get_fields (server_session_clear t) id
        ≡ (if is_persistent id then get_fields t id else none)
  unfolding get_fields get_found
  server_session_clear-fields t id v h =
      ap₂ get_found (memory-clear t) (find-clear t id v h)
      ∙ elim (Bool-cases (is_persistent id)) [ inl k ↦ rw k refl | inr k ↦ rw k refl ]
