-- ===== src/File/Write/Cover.antt =====
-- What the loop of `do_pwrite` stores, whatever the sizes of the single writes: the bytes from
-- the given offset on, in order, with no gap.
use fast_cfs.Base.{
  ℕ, zero, suc, ◌+◌, ◌-◌, ◌≤◌, ◌<◌, ◌≡◌, refl, Bool, false, some, List, [], ◌∷◌, ◌++◌, ok, err, eio,
  is_ok, Bool-cases, leb-false, not, ◌&&◌, inl, inr, ◌⊎◌, subst, arith, if◌then◌else◌, ltb, leb,
  ◌==◌,
}
use fast_cfs.File.Types.{FileInfo, SliceKey, Slicing, IsSlicing, Fits, start}
use fast_cfs.File.Services.{Services, IsWriter, WriteReply, World}
use fast_cfs.File.Write.{Chunk, Progress, account, advance, write_loop, init_progress, do_pwrite}

-- The chunks fill the file from `p` to `q`.
abbrev pub Covers : ℕ → List Chunk → ℕ → Type 0
Covers p [] q = p ≡ q
Covers p (c ∷ cs) q = (c.offset ≡ p) × Covers (p + c.bytes) cs q

pub Covers-append :
    (p : ℕ) (cs : List Chunk) (c : Chunk) (q : ℕ)
    → Covers p cs q
    → c.offset ≡ q
    → Covers p (cs ++ (c ∷ [])) (q + c.bytes)
Covers-append p [] c q h e = ground arith
Covers-append p (d ∷ cs) c q h e = (h.0, Covers-append (p + d.bytes) cs c q h.1 e)

-- The loop's invariant before a round.
pub record Ready (block_size size offset : ℕ) {S : Type 0} (p : Progress S) : Type 0 where
  pub fits : Fits block_size p.key p.new_offset (size - p.written_bytes)
  pub place : p.new_offset ≡ offset + p.written_bytes
  pub more : p.written_bytes < size
  pub cover : Covers offset p.chunks p.new_offset

-- What holds when it stops.
pub record Stored (size offset : ℕ) {S : Type 0} (p : Progress S) : Type 0 where
  pub cover : Covers offset p.chunks (offset + p.written_bytes)
  pub within : p.written_bytes ≤ size
  pub place : p.new_offset ≡ offset + p.written_bytes

module _ {S : Type 0} (api : Services S) (s : Slicing) (laws : IsSlicing s) (w : IsWriter api) where
  account-cover :
      (need : Bool) (r : WriteReply) (size offset : ℕ) (p : Progress S)
      → Ready s.block_size size offset p
      → Covers offset (account api need r p).chunks (p.new_offset + r.write_bytes)
  unfolding account
  account-cover need r size offset p h =
      Covers-append offset p.chunks _ p.new_offset h.cover h.fits.begins

  -- The key of the next round, in both cases.
  key-Fits :
      (k : SliceKey) (position bytes rest : ℕ)
      → Fits s.block_size k position (bytes + rest)
      → bytes ≤ k.slice_length
      → 0 < rest
      → Fits s.block_size
          (if bytes == k.slice_length
            then s.next_block_slice_key k rest
            else s.set_slice_size k (position + bytes) rest)
          (position + bytes)
          rest
  key-Fits k position bytes rest h le lt =
      ground (arith, laws.next_fits k rest, laws.size_fits k (position + bytes) rest)

  advance-Ready :
      (need : Bool) (r : WriteReply) (size offset : ℕ) (p : Progress S)
      → Ready s.block_size size offset p
      → r.write_bytes ≤ p.key.slice_length
      → p.written_bytes + r.write_bytes < size
      → Ready s.block_size size offset
          (advance s (size - (p.written_bytes + r.write_bytes)) r (account api need r p))
  unfolding account advance
  advance-Ready need r size offset p h le lt = record {
    fits =
        key-Fits p.key p.new_offset r.write_bytes (size - (p.written_bytes + r.write_bytes))
          (subst (Fits s.block_size p.key p.new_offset) (omega arith) h.fits) le (omega arith);
    place = omega arith;
    more = lt;
    cover = account-cover need r size offset p h;
  }

  -- The rule for the loop: `P` holds before each round, `Q` after each store.
  module _ (need : Bool) (P Q : Progress S → Type 0)
      (call : (p : Progress S) (x : S) → P p → P (record p { world = record p.world { ext = x } }))
      (keep : (r : WriteReply) (p : Progress S)
        → start p.key ≡ p.new_offset
        → r.write_bytes ≤ p.key.slice_length
        → 0 < r.write_bytes
        → P p
        → Q (account api need r p))
      (carry : (r : WriteReply) (remain : ℕ) (p : Progress S)
        → Q p
        → P (advance s remain r p)) where
    loop-Stored :
        (size offset fuel : ℕ) (p : Progress S)
        → Ready s.block_size size offset p
        → P p
        → size - p.written_bytes < fuel
        → (q : Progress S) × (write_loop api s need size fuel p ≡ some q)
          × Stored size offset q
          × (P q ⊎ Q q)
    unfolding write_loop
    loop-Stored size offset zero p h i lt = absurd (omega arith)
    loop-Stored size offset (suc fuel) p h i lt = elim (Bool-cases stop) [
      | inl broke ↦ (
        q,
        rw broke,
        record { cover = rw (← h.place) h.cover; within = omega arith; place = h.place },
        inl (call p reply.1 i),
      )
      | inr kept ↦ elim (Bool-cases (leb size (p.written_bytes + r.write_bytes))) [
        | inl full ↦ (
          account api need r q,
          rw (kept, full),
          record {
            cover =
                subst (Covers offset (account api need r q).chunks) (omega arith)
                  (account-cover need r size offset q ready);
            within = omega arith;
            place = omega arith;
          },
          inr (keep r q h.fits.begins le (moved kept) (call p reply.1 i)),
        )
        | inr more ↦
            let (z, e, st, i') =
              loop-Stored size offset fuel
                (advance s (size - (p.written_bytes + r.write_bytes)) r (account api need r q))
                (advance-Ready need r size offset q ready le (leb-false _ _ more))
                (carry r _ _ (keep r q h.fits.begins le (moved kept) (call p reply.1 i)))
                (omega (arith, leb-false _ _ more, moved kept)) in
            (z, rw (kept, more) e, st, i')
      ]
    ]
      where
        reply : WriteReply × S
        reply = api.slice_write p.world.ext p.key p.buff

        r : WriteReply
        r = reply.0

        stop : Bool
        stop = not (is_ok r.status) && (r.write_bytes == 0)

        q : Progress S
        q = record p { world = record p.world { ext = reply.1 } }

        ready : Ready s.block_size size offset q
        ready = record { fits = h.fits; place = h.place; more = h.more; cover = h.cover }

        le : r.write_bytes ≤ p.key.slice_length
        le = w.written_le p.world.ext p.key p.buff

        moved : stop ≡ false → 0 < r.write_bytes
        moved kept = ground (arith, w.written_pos p.world.ext p.key p.buff)

    pub do_pwrite-Stored :
        (world : World S) (fi : FileInfo) (size offset : ℕ)
        → 0 < size
        → P (init_progress s world fi size offset)
        → (p : Progress S) × (do_pwrite api s need world fi size offset
            ≡ some (if ltb 0 p.written_bytes then ok else err eio, p))
          × Stored size offset p
          × (P p ⊎ Q p)
    unfolding do_pwrite
    do_pwrite-Stored world fi size offset lt i =
        let (p, e, st, i') =
          loop-Stored size offset (suc size) (init_progress s world fi size offset)
            (record {
              fits =
                  subst (Fits s.block_size (s.set_block_slice fi.dentry.inode offset size) offset)
                    (omega arith) (laws.set_fits fi.dentry.inode offset size lt);
              place = omega arith;
              more = lt;
              cover = refl;
            })
            i (omega arith) in
        (p, rw (e, do_pwrite), st, i')

  -- With slices as `IsSlicing` says and a store as `IsWriter` says, a write of at least one byte
  -- ends, and stores the bytes from `offset` on, in order and with no gap, as many as it reports
  -- and no more than asked for; it succeeds exactly when it stored some, and fails with EIO if
  -- not.
  pub do_pwrite-Covers :
      (need : Bool) (world : World S) (fi : FileInfo) (size offset : ℕ)
      → 0 < size
      → (p : Progress S) × (do_pwrite api s need world fi size offset
          ≡ some (if ltb 0 p.written_bytes then ok else err eio, p))
        × Covers offset p.chunks (offset + p.written_bytes)
        × (p.written_bytes ≤ size)
  do_pwrite-Covers need world fi size offset lt =
      let (p, e, st, i) =
        do_pwrite-Stored need (λ p. Unit {0}) (λ p. Unit {0}) (λ p x i. tt) (λ r p at le pos i. tt)
          (λ r remain p i. tt) world fi size offset lt tt in
      (p, e, st.cover, st.within)
