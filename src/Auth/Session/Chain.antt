-- ===== src/Auth/Session/Chain.antt =====
-- The sorted chains of sessions.
use fast_cfs.Base.{
  ◌<◌, subst, ℕ, ◌≡◌, true, false, Option, none, some, List, [], ◌∷◌, if◌then◌else◌, refl, ap, ◌∙◌,
  sym, arith, Bool-cases, inl, inr, All, All-map,
}
use fast_cfs.Auth.Session.{SessionId, HashEntry, same_id, before_id, find, link, overwrite, unlink}

pub same_id→eq : (a b : SessionId) → same_id a b ≡ true → a ≡ b
unfolding same_id
same_id→eq a b h = ground arith

pub same_id_refl : (a : SessionId) → same_id a a ≡ true
unfolding same_id
same_id_refl a = ground arith

pub before-ne : (a b : SessionId) → before_id a b ≡ true → same_id a b ≡ false
unfolding same_id before_id
before-ne a b h = ground arith

pub before_trans :
    (a b c : SessionId) → before_id a b ≡ true → before_id b c ≡ true → before_id a c ≡ true
unfolding before_id
before_trans a b c h k = ground arith

pub before_total :
    (a b : SessionId) → before_id a b ≡ false → same_id a b ≡ false → before_id b a ≡ true
unfolding before_id same_id
before_total a b h k = ground arith

pub same_id_sym : (a b : SessionId) → same_id a b ≡ same_id b a
unfolding same_id
same_id_sym a b = ground arith

pub same_as : (a b c : SessionId) → same_id a b ≡ true → same_id a c ≡ same_id b c
same_as a b c h = ap (λ i. same_id i c) (same_id→eq a b h)

pub other_than :
    (a b c : SessionId) → same_id a c ≡ true → same_id a b ≡ false → same_id b c ≡ false
other_than a b c h k = subst (λ i. same_id b i ≡ false) (same_id→eq a c h) (same_id_sym b a ∙ k)

-- The ids of a chain ascend.
unfoldable pub Sorted : List HashEntry → Type 0
Sorted [] = Unit
Sorted (e ∷ es) = All (λ x. before_id e.id x.id ≡ true) es × Sorted es

-- The entry of an id in a chain, wherever it stands.
unfoldable pub member : SessionId → List HashEntry → Option HashEntry
member id [] = none
member id (e ∷ es) = if same_id e.id id then some e else member id es

member-none :
    (id : SessionId) (es : List HashEntry)
    → All (λ x. before_id id x.id ≡ true) es
    → member id es ≡ none
unfolding member
member-none id [] h = refl
member-none id (e ∷ es) h =
    rw (same_id_sym e.id id) (rw (before-ne id e.id h.0) (member-none id es h.1))

-- The early end of the walk loses no entry.
pub find-member : (id : SessionId) (es : List HashEntry) → Sorted es → find id es ≡ member id es
unfolding find member Sorted
find-member id [] s = refl
find-member id (e ∷ es) s = elim (Bool-cases (before_id id e.id)) [
  | inl h ↦ rw h (
      ap (λ x. if same_id e.id id then some e else x)
        (sym (member-none id es (All-map (λ x k. before_trans id e.id x.id h k) es s.0))))
  | inr h ↦ rw h (ap (λ x. if same_id e.id id then some e else x) (find-member id es s.1))
]

pub link-All :
    (P : HashEntry → Type 0) (new : HashEntry) (es : List HashEntry)
    → P new
    → All P es
    → All P (link new es)
unfolding link
link-All P new [] p h = (p, tt)
link-All P new (e ∷ es) p h = elim (Bool-cases (before_id new.id e.id)) [
  | inl k ↦ rw k (p, h)
  | inr k ↦ rw k (h.0, link-All P new es p h.1)
]

pub link-Sorted :
    (new : HashEntry) (es : List HashEntry)
    → Sorted es
    → member new.id es ≡ none
    → Sorted (link new es)
unfolding link Sorted member
link-Sorted new [] s h = (tt, tt)
link-Sorted new (e ∷ es) s h = elim (Bool-cases (before_id new.id e.id)) [
  | inl k ↦ rw k ((k, All-map (λ x l. before_trans new.id e.id x.id k l) es s.0), s)
  | inr k ↦ rw k (
    link-All (λ x. before_id e.id x.id ≡ true) new es
        (before_total new.id e.id k (ground (arith, same_id_sym e.id new.id))) s.0,
    link-Sorted new es s.1 (ground arith),
  )
]

-- Entries with one id.
member-same :
    (id : SessionId) (e : HashEntry) (es : List HashEntry) (new : HashEntry)
    → same_id e.id id ≡ true
    → member new.id (e ∷ es) ≡ none
    → same_id new.id id ≡ false
unfolding member
member-same id e es new h k = other_than e.id new.id id h (ground arith)

pub member-link :
    (id : SessionId) (new : HashEntry) (es : List HashEntry)
    → member new.id es ≡ none
    → member id (link new es) ≡ (if same_id new.id id then some new else member id es)
unfolding link member
member-link id new [] h = refl
member-link id new (e ∷ es) h = elim (Bool-cases (before_id new.id e.id)) [
  | inl k ↦ rw k refl
  | inr k ↦ rw k (elim (Bool-cases (same_id e.id id)) [
    | inl a ↦ rw (a, member-same id e es new a h) refl
    | inr a ↦ rw a (member-link id new es (ground arith))
  ])
]

-- Overwriting keeps the ids.
overwrite-All :
    (P : SessionId → Type 0) (new : HashEntry) (es : List HashEntry)
    → All (λ x. P x.id) es
    → All (λ x. P x.id) (overwrite new es)
unfolding overwrite
overwrite-All P new [] h = tt
overwrite-All P new (e ∷ es) h = elim (Bool-cases (same_id e.id new.id)) [
  | inl k ↦ rw k (subst P (same_id→eq e.id new.id k) h.0, h.1)
  | inr k ↦ rw k (h.0, overwrite-All P new es h.1)
]

-- Overwriting keeps a bound on the pointers.
pub overwrite-below :
    (n : ℕ) (new : HashEntry) (es : List HashEntry)
    → new.fields < n
    → All (λ x. x.fields < n) es
    → All (λ x. x.fields < n) (overwrite new es)
unfolding overwrite
overwrite-below n new [] p h = tt
overwrite-below n new (e ∷ es) p h = elim (Bool-cases (same_id e.id new.id)) [
  | inl k ↦ rw k (p, h.1)
  | inr k ↦ rw k (h.0, overwrite-below n new es p h.1)
]

pub overwrite-Sorted :
    (new : HashEntry) (es : List HashEntry) → Sorted es → Sorted (overwrite new es)
unfolding overwrite Sorted
overwrite-Sorted new [] s = tt
overwrite-Sorted new (e ∷ es) s = elim (Bool-cases (same_id e.id new.id)) [
  | inl k ↦
      rw k (subst (λ i. All (λ x. before_id i x.id ≡ true) es) (same_id→eq e.id new.id k) s.0, s.1)
  | inr k ↦
      rw k (overwrite-All (λ i. before_id e.id i ≡ true) new es s.0, overwrite-Sorted new es s.1)
]

pub member-overwrite :
    (id : SessionId) (new found : HashEntry) (es : List HashEntry)
    → member new.id es ≡ some found
    → member id (overwrite new es) ≡ (
        if same_id new.id id
        then some (record found { id = new.id; fields = new.fields })
        else member id es)
unfolding overwrite member
member-overwrite id new found [] h = cc
member-overwrite id new found (e ∷ es) h = elim (Bool-cases (same_id e.id new.id)) [
  | inl k ↦ rw k (elim (Bool-cases (same_id new.id id)) [
    | inl a ↦ rw a (ground arith)
    | inr a ↦ rw (a, same_as e.id new.id id k ∙ a) refl
  ])
  | inr k ↦ rw k (elim (Bool-cases (same_id e.id id)) [
    | inl a ↦ rw (a, other_than e.id new.id id a k) refl
    | inr a ↦ rw a (member-overwrite id new found es (ground arith))
  ])
]

pub unlink-All :
    (P : HashEntry → Type 0) (id : SessionId) (es : List HashEntry)
    → All P es
    → All P (unlink id es)
unfolding unlink
unlink-All P id [] h = tt
unlink-All P id (e ∷ es) h = elim (Bool-cases (same_id e.id id)) [
  | inl k ↦ rw k h.1
  | inr k ↦ rw k (h.0, unlink-All P id es h.1)
]

pub unlink-Sorted : (id : SessionId) (es : List HashEntry) → Sorted es → Sorted (unlink id es)
unfolding unlink Sorted
unlink-Sorted id [] s = tt
unlink-Sorted id (e ∷ es) s = elim (Bool-cases (same_id e.id id)) [
  | inl k ↦ rw k s.1
  | inr k ↦ rw k (unlink-All (λ x. before_id e.id x.id ≡ true) id es s.0, unlink-Sorted id es s.1)
]

pub member-unlink :
    (id gone : SessionId) (es : List HashEntry)
    → Sorted es
    → member id (unlink gone es) ≡ (if same_id gone id then none else member id es)
unfolding unlink member Sorted
member-unlink id gone [] s = ground arith
member-unlink id gone (e ∷ es) s = elim (Bool-cases (same_id e.id gone)) [
  | inl k ↦ rw k (elim (Bool-cases (same_id gone id)) [
    | inl a ↦ rw a (
        member-none id es (
          subst (λ i. All (λ x. before_id i x.id ≡ true) es)
            (same_id→eq e.id gone k ∙ same_id→eq gone id a) s.0))
    | inr a ↦ rw (a, same_as e.id gone id k ∙ a) refl
  ])
  | inr k ↦ rw k (elim (Bool-cases (same_id e.id id)) [
    | inl a ↦ rw (a, other_than e.id gone id a k) refl
    | inr a ↦ rw a (member-unlink id gone es s.1)
  ])
]
