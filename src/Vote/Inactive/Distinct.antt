-- ===== src/Vote/Inactive/Distinct.antt =====
-- The array of inactive servers holds every server at most once.
use fast_cfs.Base.{
  ℕ, ◌+◌, ◌≤◌, ◌<◌, ◌≡◌, ◌≢◌, refl, sym, false, not, ◌||◌, ◌&&◌, List, [], ◌∷◌, ◌++◌, All,
  All-append, Bool-cases, inl, inr, ltb, ◌==◌, length, length-append, arith,
}
use fast_cfs.Vote.Election.{Detect, init_inactive}
use fast_cfs.Vote.Inactive.{
  is_inactive, add_to_inactive, remove_from_inactive, Change, add, remove, init, change,
}

abbrev pub Distinct : List Detect → Type 0
Distinct [] = Unit
Distinct (d ∷ ds) = All (λ x. x.cs ≢ d.cs) ds × Distinct ds

abbrev pub DistinctIds : List ℕ → Type 0
DistinctIds [] = Unit
DistinctIds (c ∷ cs) = All (λ x. x ≢ c) cs × DistinctIds cs

-- At most one entry for a server, and no more than `room` entries.
pub record WellFormed (room : ℕ) (l : List Detect) : Type 0 where
  pub distinct : Distinct l
  pub fits : length l ≤ room

absent : (c : ℕ) (l : List Detect) → is_inactive c l ≡ false → All (λ x. x.cs ≢ c) l
unfolding is_inactive
absent c [] h = tt
absent c (d ∷ ds) h = (λ e. ground arith, absent c ds (ground arith))

absent-is_inactive : (c : ℕ) (l : List Detect) → All (λ x. x.cs ≢ c) l → is_inactive c l ≡ false
unfolding is_inactive
absent-is_inactive c [] h = refl
absent-is_inactive c (d ∷ ds) h = ground (arith, h.0, absent-is_inactive c ds h.1)

Distinct-append :
    (l : List Detect) (d : Detect)
    → Distinct l
    → All (λ x. x.cs ≢ d.cs) l
    → Distinct (l ++ (d ∷ []))
Distinct-append [] d h k = (tt, tt)
Distinct-append (x ∷ xs) d h k = (
  All-append (λ y. y.cs ≢ x.cs) xs (d ∷ []) h.0 ((λ e. k.0 (sym e)), tt),
  Distinct-append xs d h.1 k.1,
)

remove-All :
    (P : Detect → Type 0) (c : ℕ) (l : List Detect) → All P l → All P (remove_from_inactive c l)
unfolding remove_from_inactive
remove-All P c [] h = tt
remove-All P c (d ∷ ds) h = elim (Bool-cases (d.cs == c)) [
  | inl here ↦ rw here h.1
  | inr other ↦ rw other (h.0, remove-All P c ds h.1)
]

remove-Distinct : (c : ℕ) (l : List Detect) → Distinct l → Distinct (remove_from_inactive c l)
unfolding remove_from_inactive
remove-Distinct c [] h = tt
remove-Distinct c (d ∷ ds) h = elim (Bool-cases (d.cs == c)) [
  | inl here ↦ rw here h.1
  | inr other ↦ rw other (remove-All (λ x. x.cs ≢ d.cs) c ds h.0, remove-Distinct c ds h.1)
]

length-remove : (c : ℕ) (l : List Detect) → length (remove_from_inactive c l) ≤ length l
unfolding remove_from_inactive
length-remove c [] = omega arith
length-remove c (d ∷ ds) = ground (arith, length-remove c ds)

init-All :
    (now myself c : ℕ) (cs : List ℕ)
    → All (λ x. x ≢ c) cs
    → All (λ x. x.cs ≢ c) (init_inactive now myself cs)
unfolding init_inactive
init-All now myself c [] h = tt
init-All now myself c (x ∷ xs) h = elim (Bool-cases (x == myself)) [
  | inl here ↦ rw here (init-All now myself c xs h.1)
  | inr other ↦ rw other (h.0, init-All now myself c xs h.1)
]

init-WellFormed :
    (now myself : ℕ) (cs : List ℕ)
    → DistinctIds cs
    → WellFormed (length cs) (init_inactive now myself cs)
unfolding init_inactive
init-WellFormed now myself [] h = record { distinct = tt; fits = omega arith }
init-WellFormed now myself (c ∷ cs) h =
    let w = init-WellFormed now myself cs h.1 in
    elim (Bool-cases (c == myself)) [
      | inl here ↦ rw here (record { distinct = w.distinct; fits = omega (arith, w.fits) })
      | inr other ↦ rw other (record {
        distinct = (init-All now myself c cs h.0, w.distinct);
        fits = omega (arith, w.fits);
      })
    ]

add-WellFormed :
    (now room c : ℕ) (l : List Detect)
    → WellFormed room l
    → WellFormed room (add_to_inactive now room c l)
unfolding add_to_inactive
add-WellFormed now room c l w = elim (Bool-cases (is_inactive c l)) [
  | inl there ↦ rw there w
  | inr new ↦ elim (Bool-cases (ltb (length l) room)) [
    | inl free ↦
        rw (new, free)
          (record {
            distinct = Distinct-append l _ w.distinct (absent c l new);
            fits = ground (arith, length-append l (record { cs = c; next_time = now + 1 } ∷ []));
          })
    | inr full ↦ rw (new, full) w
  ]
]

-- If the ids of the servers differ, every change of an array of inactive servers that has at most
-- one entry for a server and stays within its room leaves such an array, also its filling when the
-- node becomes a candidate.
pub change-WellFormed :
    (servers : List ℕ) (c : Change) (l : List Detect)
    → DistinctIds servers
    → WellFormed (length servers) l
    → WellFormed (length servers) (change servers c l)
unfolding change
change-WellFormed servers (add now c) l ids w = add-WellFormed now (length servers) c l w
change-WellFormed servers (remove now c) l ids w = record {
  distinct = remove-Distinct c l w.distinct;
  fits = omega (arith, w.fits, length-remove c l);
}
change-WellFormed servers (init now myself) l ids w = init-WellFormed now myself servers ids

is_inactive-append :
    (j : ℕ) (l : List Detect) (d : Detect)
    → is_inactive j (l ++ (d ∷ [])) ≡ (d.cs == j || is_inactive j l)
unfolding is_inactive
is_inactive-append j [] d = refl
is_inactive-append j (x ∷ xs) d = ground (arith, is_inactive-append j xs d)

is_inactive-remove :
    (j c : ℕ) (l : List Detect)
    → Distinct l
    → is_inactive j (remove_from_inactive c l) ≡ (not (c == j) && is_inactive j l)
unfolding is_inactive remove_from_inactive
is_inactive-remove j c [] h = ground arith
is_inactive-remove j c (d ∷ ds) h =
    ground (arith, is_inactive-remove j c ds h.1, absent-is_inactive d.cs ds h.0)

-- In an array of inactive servers with at most one entry for a server and room for one more, an
-- addition makes exactly its server inactive, and a removal makes exactly its server active; the
-- others stay as they are.
pub is_inactive-change :
    (now room c j : ℕ) (l : List Detect)
    → WellFormed room l
    → length l < room
    → (is_inactive j (add_to_inactive now room c l) ≡ (c == j || is_inactive j l))
      × (is_inactive j (remove_from_inactive c l) ≡ (not (c == j) && is_inactive j l))
unfolding add_to_inactive
is_inactive-change now room c j l w free = (
  ground (arith, is_inactive-append j l (record { cs = c; next_time = now + 1 })),
  is_inactive-remove j c l w.distinct,
)
