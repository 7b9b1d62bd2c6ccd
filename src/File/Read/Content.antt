-- ===== src/File/Read/Content.antt =====
-- What `do_pread` returns of a file whose size the client knows: the bytes of the file, with
-- zeros where the store holds none, and no byte past the end.
use fast_cfs.Base.{
  ℕ, zero, suc, pos, ◌-◌, ◌<◌, ◌≡◌, inl, inr, refl, ap, subst₂, Status-cases, some, List, [], ◌++◌,
  ok, Bool-cases, arith, min, length,
}
use fast_cfs.File.Types.{FileInfo, SliceKey, Slicing, IsSlicing, Fits}
use fast_cfs.File.Services.{Reader}
use fast_cfs.File.Read.{SliceRead, read_status, read_loop, do_pread}
use fast_cfs.File.Write.{check_readable}
use fast_cfs.File.Read.Window.{window}
use fast_cfs.File.Read.Hole.{Holds, read_status-ok}
use fast_cfs.File.Read.Round.{
  Reading, ReadsAll, turn, stop, turn-Round, turn_fine, last_round, next_round, next_round-lt,
}

module _ {S : Type 0} (api : Reader S) (content : ℕ → ℕ) (size : ℕ) where
  read_loop-ReadsAll :
      (slicing : Slicing) (oid total offset fuel : ℕ) (fi : FileInfo) (s : S) (k : SliceKey)
      (out : List ℕ) (laws : IsSlicing slicing) (held : Holds S api oid content size)
      (i : Reading api content size slicing oid total offset fi k out)
      → total - i.got < fuel
      → (d : SliceRead S) × (read_loop api slicing total offset fuel fi s k out ≡ some d)
        × ReadsAll api content size total offset d
  unfolding read_loop
  read_loop-ReadsAll slicing oid total offset zero fi s k out laws held i lt = absurd (omega arith)
  read_loop-ReadsAll slicing oid total offset (suc fuel) fi s k out laws held i lt =
      elim (Status-cases (read_status (api.slice_read s k).0)) [
        | inr bad ↦ (
          record {
            status = (api.slice_read s k).0;
            bytes = out;
            fi = fi;
            ext = (api.slice_read s k).2;
          },
          rw bad,
          λ fine.
              absurd (ground (arith, read_status-ok api content size (api.slice_read s k).0 fine)),
        )
        | inl good ↦ elim (Bool-cases (stop laws held i s)) [
          | inl last ↦ (
            record (turn laws held i s) { bytes = out ++ (turn laws held i s).bytes },
            rw (good, last),
            λ fine. last_round laws held i s (turn-Round laws held i s fine) last,
          )
          | inr cont ↦
              let c = turn-Round laws held i s (turn_fine laws held i s cont) in
              let (x, e, all) =
                read_loop-ReadsAll slicing oid total offset fuel (turn laws held i s).fi
                  (turn laws held i s).ext
                  (slicing.next_block_slice_key k
                    (total - length (out ++ (turn laws held i s).bytes)))
                  (out ++ (turn laws held i s).bytes) laws held (next_round laws held i s c cont)
                  (omega (arith, next_round-lt laws held i s c cont)) in
              (x, rw (good, cont) e, all)
        ]
      ]

  -- From a store that holds `content` as `Holds` says, a read of a readable file whose size the
  -- client knows ends, and if it succeeds it returns exactly the bytes of the file from `offset`
  -- on, at most `total` of them and none past the end of the file, with zeros for what the store
  -- leaves out; one of no byte returns none.
  pub do_pread-ReadsAll :
      (slicing : Slicing) (fi : FileInfo) (s : S) (total offset : ℕ)
      → IsSlicing slicing
      → Holds S api fi.dentry.inode content size
      → fi.dentry.size ≡ size
      → check_readable fi ≡ ok
      → (d : SliceRead S) × (do_pread api slicing fi s (pos total) offset ≡ some d)
        × ReadsAll api content size total offset d
  unfolding do_pread
  do_pread-ReadsAll slicing fi s zero offset laws held known fine = (
    record { status = ok; bytes = []; fi = fi; ext = s },
    refl,
    λ e.
        let none_left : 0 ≡ min 0 (size - offset) = omega arith in
        ap (window content offset) none_left,
  )
  do_pread-ReadsAll slicing fi s (suc n) offset laws held known fine =
      let (d, e, all) =
        read_loop-ReadsAll slicing fi.dentry.inode (suc n) offset (suc (suc n)) fi s
          (slicing.set_block_slice fi.dentry.inode offset (suc n)) [] laws held
          (record {
            got = 0;
            known = known;
            inode = refl;
            key_oid = laws.set_oid _ _ _;
            bytes = refl;
            fits =
                subst₂
                  (Fits slicing.block_size (slicing.set_block_slice fi.dentry.inode offset (suc n)))
                  (omega arith) (omega arith)
                  (laws.set_fits fi.dentry.inode offset (suc n) (omega arith));
            more = omega arith;
            inside = λ lt. absurd (omega arith);
          })
          (omega arith) in
      (d, rw fine e, all)
