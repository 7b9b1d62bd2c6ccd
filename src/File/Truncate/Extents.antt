-- ===== src/File/Truncate/Extents.antt =====
-- The loops of `do_truncate` and `do_allocate` go over their range once, in order, and end.
use fast_cfs.Base.{
  ◌+ℤ◌, false, ℕ, zero, suc, ℤ, ◌+◌, ◌-◌, ◌≤◌, ◌<◌, ◌≡◌, refl, subst, some, List, [], ◌∷◌, ◌++◌,
  Status, ok, Status-cases, Bool-cases, inl, inr, arith, if◌then◌else◌, ltb, leb, ◌==◌, min, max,
}
use fast_cfs.File.Types.{SliceKey, Slicing, IsSlicing, Fits, start}
use fast_cfs.File.Services.{Store}
use fast_cfs.File.Truncate.{Extent, Walked, walk, nothing, truncate_op, do_truncate, do_allocate}

-- The extents fill the file from `p` to `q`.
abbrev pub Covers : ℕ → List Extent → ℕ → Type 0
Covers p [] q = p ≡ q
Covers p (x ∷ xs) q = (x.offset ≡ p) × Covers (p + x.length) xs q

Covers-append :
    (p : ℕ) (xs : List Extent) (x : Extent) (q : ℕ)
    → Covers p xs q
    → x.offset ≡ q
    → Covers p (xs ++ (x ∷ [])) (q + x.length)
Covers-append p [] x q h e = ground arith
Covers-append p (y ∷ xs) x q h e = (h.0, Covers-append (p + y.length) xs x q h.1 e)

-- The calls went from `first` on without a gap, to `last` if all of them succeeded.
pub record Went {S : Type 0} (first last : ℕ) (w : Walked S) : Type 0 where
  pub reached : ℕ
  pub cover : Covers first w.extents reached
  pub within : reached ≤ last
  pub complete : w.status ≡ ok → reached ≡ last

module _ {S : Type 0} (slicing : Slicing) (laws : IsSlicing slicing)
    (op : S → SliceKey → Status × ℤ × S) where
  walk-Went :
      (fuel first position remain last : ℕ) (k : SliceKey) (w : Walked S)
      → Fits slicing.block_size k position remain
      → Covers first w.extents position
      → position + remain ≡ last
      → remain < fuel
      → (w' : Walked S) × (walk slicing op fuel k remain w ≡ some w') × Went first last w'
  unfolding walk
  walk-Went zero first position remain last k w f c e lt = absurd (omega arith)
  walk-Went (suc fuel) first position remain last k w f c e lt = elim (Status-cases r) [
    | inr bad ↦ (
      record w { status = r; ext = (op w.ext k).2 },
      rw bad,
      record {
        reached = position;
        cover = c;
        within = omega arith;
        complete = λ h. absurd (ground arith);
      },
    )
    | inl good ↦ elim (Bool-cases (left == 0)) [
      | inl last_one ↦ (
        w',
        rw (good, last_one),
        record {
          reached = position + k.slice_length;
          cover = covered;
          within = omega arith;
          complete = λ h. ground arith;
        },
      )
      | inr more ↦
          let (x, eq, went) =
            walk-Went fuel first (position + k.slice_length) left last
              (slicing.next_block_slice_key k left) w' (next more) covered (ground arith)
              (omega arith) in
          (x, rw (good, more) eq, went)
    ]
  ]
    where
      r : Status
      r = (op w.ext k).0

      left : ℕ
      left = remain - k.slice_length

      w' : Walked S
      w' = record w {
        status = ok;
        total = w.total +ℤ (op w.ext k).1;
        ext = (op w.ext k).2;
        extents = w.extents ++ (record { offset = start k; length = k.slice_length } ∷ []);
      }

      covered : Covers first w'.extents (position + k.slice_length)
      covered = Covers-append first w.extents _ position c f.begins

      next :
          (left == 0) ≡ false
          → Fits slicing.block_size
              (slicing.next_block_slice_key k left)
              (position + k.slice_length)
              left
      next more =
          subst (λ p. Fits slicing.block_size (slicing.next_block_slice_key k left) p left)
            (omega arith) (laws.next_fits k left (f.whole (ground arith)) (ground arith))

module _ {S : Type 0} (store : Store S) (slicing : Slicing) (laws : IsSlicing slicing) where
  -- With slices as `IsSlicing` says, `do_truncate` for at least one byte ends; its calls go over
  -- the range from `offset` on without a gap and, if it succeeds, up to the end of the range or to
  -- the old space end, whichever comes first.
  pub do_truncate-Went :
      (oid old_space_end offset length : ℕ) (s : S)
      → 0 < length
      → (w : Walked S) × (do_truncate store slicing oid old_space_end offset length s ≡ some w)
        × Went offset (max offset (min (offset + length) old_space_end)) w
  unfolding do_truncate
  do_truncate-Went oid old_space_end offset length s lt =
      elim (Bool-cases (leb old_space_end offset)) [
        | inl past ↦ (
          nothing s,
          rw past,
          record {
            reached = offset;
            cover = refl;
            within = omega arith;
            complete = λ h. ground arith;
          },
        )
        | inr more ↦
            let (w, e, went) =
              walk-Went slicing laws (truncate_op store slicing) (suc remain) offset offset remain
                (max offset (min (offset + length) old_space_end)) _ (nothing s)
                (laws.set_fits oid offset remain (ground arith)) refl (ground arith)
                (omega arith) in
            (w, rw (more, e), went)
      ]
    where
      remain : ℕ
      remain = if ltb old_space_end (offset + length) then old_space_end - offset else length

  -- With slices as `IsSlicing` says, `do_allocate` ends; its calls go from `offset` on without a
  -- gap and not past the end of the range, and if it succeeds up to its end.
  pub do_allocate-Went :
      (oid offset length : ℕ) (s : S)
      → (w : Walked S) × (do_allocate store slicing oid offset length s ≡ some w)
        × Went offset (offset + length) w
  unfolding do_allocate
  do_allocate-Went oid offset length s = elim (Bool-cases (length == 0)) [
    | inl none_left ↦ (
      nothing s,
      rw none_left,
      record { reached = offset; cover = refl; within = omega arith; complete = λ h. ground arith },
    )
    | inr more ↦
        let (w, e, went) =
          walk-Went slicing laws store.slice_allocate (suc length) offset offset length
            (offset + length) _ (nothing s) (laws.set_fits oid offset length (ground arith)) refl
            refl (omega arith) in
        (w, rw (more, e), went)
  ]
