-- ===== src/Base/Sort.antt =====
-- The standard library's `qsort`, as an insertion sort: `le a b` is `cmp(a, b) <= 0`.
use mathlib.Core.Path.{refl, sym, subst}
use mathlib.Core.Logic.{inl, inr}
use mathlib.Core.Bool.{Bool}
use mathlib.Core.List.{List, [], ◌∷◌, Memᴰ}
use mathlib.Core.List.Memᴰ.{head, tail}
use fast_cfs.Base.Tests.{if◌then◌else◌, Bool-cases}
use fast_cfs.Base.Lists.{All}

module _ {ℓ} {A : Type ℓ} (le : A → A → Bool) where
  unfoldable pub insert : A → List A → List A
  insert a [] = a ∷ []
  insert a (b ∷ bs) = if le a b then a ∷ b ∷ bs else b ∷ insert a bs

  unfoldable pub qsort : List A → List A
  unfolding insert
  qsort [] = []
  qsort (a ∷ rest) = insert a (qsort rest)

  pub insert-All {κ} : (P : A → Type κ) (a : A) (l : List A) → P a → All P l → All P (insert a l)
  unfolding insert
  insert-All P a [] p h = (p, tt)
  insert-All P a (b ∷ rest) p h = elim (Bool-cases (le a b)) [
    | inl before ↦ rw before (p, h)
    | inr after ↦ rw after (h.0, insert-All P a rest p h.1)
  ]

  -- What holds of all elements of a list holds of all elements of the sorted list.
  pub qsort-All {κ} : (P : A → Type κ) (l : List A) → All P l → All P (qsort l)
  unfolding qsort
  qsort-All P [] h = tt
  qsort-All P (a ∷ rest) h = insert-All P a (qsort rest) h.0 (qsort-All P rest h.1)

  insert-Memᴰ-head : (a : A) (l : List A) → Memᴰ a (insert a l)
  unfolding insert
  insert-Memᴰ-head a [] = head refl
  insert-Memᴰ-head a (b ∷ rest) = elim (Bool-cases (le a b)) [
    | inl before ↦ rw before (head refl)
    | inr after ↦ rw after (tail (insert-Memᴰ-head a rest))
  ]

  behind : {x b : A} {l l' : List A} → (Memᴰ x l → Memᴰ x l') → Memᴰ x (b ∷ l) → Memᴰ x (b ∷ l')
  behind f (head e) = head e
  behind f (tail m) = tail (f m)

  insert-Memᴰ : (a x : A) (l : List A) → Memᴰ x l → Memᴰ x (insert a l)
  unfolding insert
  insert-Memᴰ a x [] h = elim h [ ]
  insert-Memᴰ a x (b ∷ rest) h = elim (Bool-cases (le a b)) [
    | inl before ↦ rw before (tail h)
    | inr after ↦ rw after (behind (insert-Memᴰ a x rest) h)
  ]

  pub qsort-Memᴰ : (x : A) (l : List A) → Memᴰ x l → Memᴰ x (qsort l)
  unfolding qsort
  qsort-Memᴰ x [] h = elim h [ ]
  qsort-Memᴰ x (a ∷ rest) (head e) =
      subst (λ y. Memᴰ y (insert a (qsort rest))) (sym e) (insert-Memᴰ-head a (qsort rest))
  qsort-Memᴰ x (a ∷ rest) (tail m) = insert-Memᴰ a x (qsort rest) (qsort-Memᴰ x rest m)
