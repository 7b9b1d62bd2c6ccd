-- ===== src/File/Truncate/Total.antt =====
-- `file_truncate` always returns.
use fast_cfs.Base.{
  [], ℕ, ℤ, pos, negsuc, ◌-◌, ◌≡◌, refl, some, Status-cases, Bool-cases, inl, inr, arith,
  if◌then◌else◌, ltb,
}
use fast_cfs.File.Types.{Context, Slicing, IsSlicing}
use fast_cfs.File.Services.{Services, Reader, Store, World}
use fast_cfs.File.Truncate.{
  Walked, Truncated, nothing, do_truncate, check_and_sys_lock, finish_truncate, file_truncate,
}
use fast_cfs.File.Truncate.Extents.{do_truncate-Went}

module _ {S : Type 0} (api : Services S) (reader : Reader S) (store : Store S)
    (slicing : Slicing) where
  cut_returns :
      (oid new_size old_size space_end : ℕ) (s : S)
      → IsSlicing slicing
      → (c : Walked S) × ((if ltb new_size old_size
            then do_truncate store slicing oid space_end new_size (old_size - new_size) s
            else some (nothing s))
          ≡ some c)
  cut_returns oid new_size old_size space_end s laws = elim (Bool-cases (ltb new_size old_size)) [
    | inl shrinks ↦
        let (c, e, went) =
          do_truncate-Went store slicing laws oid space_end new_size (old_size - new_size) s
            (ground arith) in
        (c, rw (shrinks, e))
    | inr grows ↦ (nothing s, rw grows)
  ]

  -- With slices as `IsSlicing` says, a truncation to any size, with reports queued or not, under
  -- the lock or not, returns.
  pub file_truncate_returns :
      (ctx : Context) (w : World S) (oid : ℕ) (new_size : ℤ)
      → IsSlicing slicing
      → (t : Truncated S) × (file_truncate api reader store slicing ctx w oid new_size ≡ some t)
  unfolding file_truncate
  file_truncate_returns ctx w oid (negsuc n) laws = (_, refl)
  file_truncate_returns ctx w oid (pos n) laws =
      let (r, old_size, space_end, s) = check_and_sys_lock api reader store slicing ctx w.ext oid in
      elim (Status-cases r) [
        | inl good ↦
            let (c, e) = cut_returns oid n old_size space_end s laws in
            (
              finish_truncate api reader store slicing ctx (record w { ext = s }) oid n old_size
                  space_end c,
              rw (good, e),
            )
        | inr bad ↦ (record { status = r; world = record w { ext = s }; extents = [] }, rw bad)
      ]
