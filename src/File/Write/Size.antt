-- ===== src/File/Write/Size.antt =====
-- The size that the client keeps of a file while it writes, with reports queued
-- (`async_report.enabled`), as `fcfs_api_file_report_size_and_time` updates it.
use fast_cfs.Base.{
  ℕ, ◌+◌, ◌≤◌, ◌<◌, ◌≡◌, ◌⊎◌, inl, inr, true, some, refl, subst, arith, if◌then◌else◌, ltb, max, ok,
  err, eio, is_zero, false,
}
use fast_cfs.File.Types.{Dentry, FileInfo, SliceKey, Slicing, IsSlicing, start}
use fast_cfs.File.Services.{Services, IsWriter, WriteReply, World}
use fast_cfs.File.Write.{Progress, file_report, account, advance, init_progress, do_pwrite}
use fast_cfs.File.Write.Cover.{do_pwrite-Stored}

-- A write that ends at `end_offset` leaves the size and the space end at or past it, and moves
-- neither past both its old value and `end_offset`.
pub record Grows (e : Dentry) (end_offset : ℕ) (e' : Dentry) : Type 0 where
  pub size_covers : end_offset ≤ e'.size
  pub space_covers : end_offset ≤ e'.space_end
  pub size_bounded : e'.size ≤ max e.size end_offset
  pub space_bounded : e'.space_end ≤ max e.space_end end_offset

Grows-trans : (a b c : Dentry) (m n : ℕ) → m ≤ n → Grows a m b → Grows b n c → Grows a n c
Grows-trans a b c m n le g h = omega arith

module _ {S : Type 0} (api : Services S) where
  -- With reports queued, one report of a slice, whichever flags it has, leaves a cached size and a
  -- cached space end at or past the end of the slice, neither past both its old value and that
  -- end.
  pub file_report-Grows :
      (w : World S) (fi : FileInfo) (k : SliceKey) (r : WriteReply)
      → fi.ctx.async_report ≡ true
      → Grows fi.dentry (start k + r.write_bytes) (file_report api w fi k r).1
  unfolding file_report
  file_report-Grows w fi k r on = ground arith

  -- With reports queued, the report of a slice makes the cached size smaller exactly when the slice
  -- allocates blocks, ends below the cached size and not past the cached space end; and then both
  -- become the end of the slice, and the time of the modification stays.
  pub file_report_shrinks :
      (w : World S) (fi : FileInfo) (k : SliceKey) (r : WriteReply)
      → fi.ctx.async_report ≡ true
      → let end_offset = start k + r.write_bytes in
        let e = (file_report api w fi k r).1 in
        (e.size < fi.dentry.size
          → (is_zero r.inc_alloc ≡ false)
            × (end_offset < fi.dentry.size)
            × (end_offset ≤ fi.dentry.space_end))
        × (is_zero r.inc_alloc ≡ false
            → end_offset < fi.dentry.size
            → end_offset ≤ fi.dentry.space_end
            → (e.size < fi.dentry.size)
              × (e.size ≡ end_offset)
              × (e.space_end ≡ end_offset)
              × (e.mtime ≡ fi.dentry.mtime))
  unfolding file_report
  file_report_shrinks w fi k r on = (λ lt. ground arith, λ inc lt le. ground arith)

-- The cached entry between two rounds, and after a store, beginning from `e`.
record Tracks {S : Type 0} (e : Dentry) (p : Progress S) : Type 0 where
  async : p.fi.ctx.async_report ≡ true
  state : ((p.written_bytes ≡ 0) × (p.fi.dentry ≡ e)) ⊎ Grows e p.new_offset p.fi.dentry

record Grown {S : Type 0} (e : Dentry) (p : Progress S) : Type 0 where
  async : p.fi.ctx.async_report ≡ true
  grows : Grows e p.new_offset p.fi.dentry

Tracks-Grown :
    {S : Type 0} (e : Dentry) (p : Progress S)
    → Tracks e p ⊎ Grown e p
    → 0 < p.written_bytes
    → Grows e p.new_offset p.fi.dentry
Tracks-Grown e p (inr g) lt = g.grows
Tracks-Grown e p (inl t) lt = elim t.state [ inl start ↦ absurd (omega arith) | inr g ↦ g ]

Grows-join :
    (e a b : Dentry) (w m n : ℕ)
    → m ≤ n
    → ((w ≡ 0) × (a ≡ e)) ⊎ Grows e m a
    → Grows a n b
    → Grows e n b
Grows-join e a b w m n le (inl h) g = subst (λ x. Grows x n b) h.1 g
Grows-join e a b w m n le (inr h) g = Grows-trans e a b m n le h g

module _ {S : Type 0} (api : Services S) where
  account-Grown :
      (e : Dentry) (r : WriteReply) (p : Progress S)
      → start p.key ≡ p.new_offset
      → Tracks e p
      → Grown e (account api true r p)
  unfolding account
  account-Grown e r p at t = record {
    async = t.async;
    grows =
        Grows-join e p.fi.dentry _ p.written_bytes p.new_offset (p.new_offset + r.write_bytes)
          (omega arith) t.state
          (subst
            (λ x. Grows p.fi.dentry (x + r.write_bytes) (file_report api p.world p.fi p.key r).1) at
            (file_report-Grows api p.world p.fi p.key r t.async));
  }

  advance-Tracks :
      (s : Slicing) (e : Dentry) (r : WriteReply) (remain : ℕ) (p : Progress S)
      → Grown e p
      → Tracks e (advance s remain r p)
  unfolding advance
  advance-Tracks s e r remain p g = record { async = g.async; state = inr g.grows }

  -- With slices as `IsSlicing` says and a store as `IsWriter` says, a write of at least one byte
  -- that succeeds, with its reports queued, ends with a cached size and a cached space end that
  -- cover the bytes written, and neither goes past both its old value and the end of the write.
  pub do_pwrite-Grows :
      (s : Slicing) (world : World S) (fi : FileInfo) (size offset : ℕ)
      → IsSlicing s
      → IsWriter api
      → fi.ctx.async_report ≡ true
      → 0 < size
      → (p : Progress S) × (do_pwrite api s true world fi size offset
          ≡ some (if ltb 0 p.written_bytes then ok else err eio, p))
        × (0 < p.written_bytes → Grows fi.dentry (offset + p.written_bytes) p.fi.dentry)
  unfolding init_progress
  do_pwrite-Grows s world fi size offset laws w on lt =
      let (p, e, st, t) =
        do_pwrite-Stored api s laws w true (Tracks fi.dentry) (Grown fi.dentry)
          (λ p x t. record { async = t.async; state = t.state })
          (λ r p at le pos t. account-Grown fi.dentry r p at t)
          (λ r remain p g. advance-Tracks s fi.dentry r remain p g) world fi size offset lt
          (record { async = on; state = inl (refl, refl) }) in
      (
        p,
        e,
        λ more.
            subst (λ x. Grows fi.dentry x p.fi.dentry) st.place (Tracks-Grown fi.dentry p t more),
      )
