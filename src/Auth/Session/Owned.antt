-- ===== src/Auth/Session/Owned.antt =====
-- The objects that the entries found refer to, against those that have been freed.
use fast_cfs.Base.{
  ℕ, suc, ◌<◌, ◌≡◌, true, false, Option, none, some, List, ◌∷◌, refl, ap, ◌∙◌, sym, subst, arith,
  Bool-cases, inl, inr, All, All-map, if◌then◌else◌, ◌==◌, ==→eq,
}
use fast_cfs.Auth.Session.{
  SessionId, HashEntry, Sessions, same_id, find_session, set_bucket, insert_found,
  session_htable_insert, alloc_entry, entry_of, add_func, add_existing, delete_found, delete,
  free_hash_entry,
}
use fast_cfs.Auth.Session.Chain.{same_id→eq}
use fast_cfs.Auth.Session.Table.{TableInv, alloc-Inv, link-find, unlink-find}

-- The object with the fields is not free.
abbrev pub InUse : List ℕ → ℕ → Type 0
InUse freed o = All (λ x. (x == o) ≡ false) freed

-- An entry has its fields in its own object, which has been made and is not free.
pub record OwnsFields (freed : List ℕ) (next : ℕ) (e : HashEntry) : Type 0 where
  pub own : e.object ≡ e.fields
  pub made : e.fields < next
  pub used : InUse freed e.fields

-- The entries that are found own their fields, each for one id, and what is free has been made.
pub record Owned (found : SessionId → Option HashEntry) (freed : List ℕ) (next : ℕ) : Type 0 where
  pub owns : (id : SessionId) (e : HashEntry) → found id ≡ some e → OwnsFields freed next e
  pub apart :
      (i j : SessionId) (e f : HashEntry)
      → found i ≡ some e
      → found j ≡ some f
      → e.fields ≡ f.fields
      → same_id i j ≡ true
  pub below : All (λ o. o < next) freed

abbrev pub IsOwned : {F : Type 0} → Sessions F → Type 0
IsOwned t = Owned (find_session t) t.freed t.next_object

some_inj : (a b : HashEntry) → some a ≡ some b → a ≡ b
some_inj a b h = cc

none-some : (b : HashEntry) → ◌≡◌ {A = Option HashEntry} none (some b) → ⊥
none-some b h = ground (arith, h)

fresh-InUse : (freed : List ℕ) (n : ℕ) → All (λ o. o < n) freed → InUse freed n
fresh-InUse freed n h = All-map (λ o lt. ground (arith, lt)) freed h

same-both : (id i j : SessionId) → same_id id i ≡ true → same_id id j ≡ true → same_id i j ≡ true
same-both id i j h k = subst (λ x. same_id x j ≡ true) (same_id→eq id i h) k

module _ (found after : SessionId → Option HashEntry) (freed : List ℕ) (n : ℕ)
    (v : Owned found freed n) (id : SessionId) where
  module _ (new : HashEntry) (object : new.object ≡ n) (fields : new.fields ≡ n)
      (spec : (j : SessionId) → after j ≡ (if same_id id j then some new else found j)) where
    new_at : (j : SessionId) (e : HashEntry) → same_id id j ≡ true → after j ≡ some e → new ≡ e
    new_at j e k h = some_inj new e (sym (spec j ∙ rw k refl) ∙ h)

    old_at :
        (j : SessionId) (e : HashEntry) → same_id id j ≡ false → after j ≡ some e → found j ≡ some e
    old_at j e k h = sym (spec j ∙ rw k refl) ∙ h

    put-owns : (j : SessionId) (e : HashEntry) → after j ≡ some e → OwnsFields freed (suc n) e
    put-owns j e h = elim (Bool-cases (same_id id j)) [
      | inl k ↦ subst (OwnsFields freed (suc n)) (new_at j e k h) (record {
        own = object ∙ sym fields;
        made = omega (arith, fields);
        used = subst (InUse freed) (sym fields) (fresh-InUse freed n v.below);
      })
      | inr k ↦
          let o = v.owns j e (old_at j e k h) in
          record { own = o.own; made = omega (arith, o.made); used = o.used }
    ]

    new_apart :
        (i j : SessionId) (e f : HashEntry)
        → same_id id i ≡ true
        → same_id id j ≡ false
        → after i ≡ some e
        → after j ≡ some f
        → e.fields ≡ f.fields
        → ⊥
    new_apart i j e f ki kj hi hj same =
        let o = v.owns j f (old_at j f kj hj) in
        omega (arith, o.made, fields, same, ap (λ x. x.fields) (new_at i e ki hi))

    put-apart :
        (i j : SessionId) (e f : HashEntry)
        → after i ≡ some e
        → after j ≡ some f
        → e.fields ≡ f.fields
        → same_id i j ≡ true
    put-apart i j e f hi hj same = elim (Bool-cases (same_id id i)) [
      | inl ki ↦ elim (Bool-cases (same_id id j)) [
        | inl kj ↦ same-both id i j ki kj
        | inr kj ↦ absurd (new_apart i j e f ki kj hi hj same)
      ]
      | inr ki ↦ elim (Bool-cases (same_id id j)) [
        | inl kj ↦ absurd (new_apart j i f e kj ki hj hi (sym same))
        | inr kj ↦ v.apart i j e f (old_at i e ki hi) (old_at j f kj hj) same
      ]
    ]

    pub put-Owned : Owned after freed (suc n)
    put-Owned = record {
      owns = put-owns;
      apart = put-apart;
      below = All-map (λ o lt. omega (arith, lt)) freed v.below;
    }

  module _ (gone : HashEntry) (here : found id ≡ some gone)
      (spec : (j : SessionId) → after j ≡ (if same_id id j then none else found j)) where
    left_at :
        (j : SessionId) (e : HashEntry)
        → after j ≡ some e
        → (same_id id j ≡ false) × (found j ≡ some e)
    left_at j e h = elim (Bool-cases (same_id id j)) [
      | inl k ↦ absurd (none-some e (sym (spec j ∙ rw k refl) ∙ h))
      | inr k ↦ (k, sym (spec j ∙ rw k refl) ∙ h)
    ]

    not_gone :
        (j : SessionId) (e : HashEntry) → after j ≡ some e → (gone.object == e.fields) ≡ false
    not_gone j e h =
        let (k, at) = left_at j e h in
        let o = v.owns id gone here in
        elim (Bool-cases (gone.object == e.fields)) [
          | inr apart ↦ apart
          | inl eq ↦
              let same = v.apart id j gone e here at (sym o.own ∙ ==→eq _ _ eq) in
              absurd (ground (arith, k, same))
        ]

    pub take-Owned : Owned after (gone.object ∷ freed) n
    take-Owned = record {
      owns = λ j e h.
          let o = v.owns j e (left_at j e h).1 in
          record { own = o.own; made = o.made; used = (not_gone j e h, o.used) };
      apart = λ i j e f hi hj same. v.apart i j e f (left_at i e hi).1 (left_at j f hj).1 same;
      below = let o = v.owns id gone here in (subst (λ x. x < n) (sym o.own) o.made, v.below);
    }

module _ {F : Type 0} (t : Sessions F) (v : TableInv t) (w : IsOwned t) (id : SessionId) where
  -- A session under an id that is not in the table.
  pub add_existing-Owned :
      (fields : F) → find_session t id ≡ none → IsOwned (add_existing t id fields)
  unfolding add_existing session_htable_insert insert_found add_func alloc_entry find_session
      set_bucket
  add_existing-Owned fields h = rw h (
      put-Owned (find_session t) _ t.freed t.next_object w id (entry_of t id) refl refl
        (link-find (alloc_entry t fields) (alloc-Inv t v fields) (entry_of t id) h))

  delete_found-Owned :
      (o : Option HashEntry) → find_session t id ≡ o → IsOwned (delete_found t id o).1
  unfolding delete_found free_hash_entry find_session set_bucket
  delete_found-Owned none h = w
  delete_found-Owned (some x) h =
      take-Owned (find_session t) _ t.freed t.next_object w id x h (unlink-find t v id)

  pub delete-Owned : IsOwned (delete t id).1
  unfolding delete find_session
  delete-Owned = delete_found-Owned (find_session t id) refl
