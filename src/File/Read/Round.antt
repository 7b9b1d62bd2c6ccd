-- ===== src/File/Read/Round.antt =====
-- One round of the loop of `do_pread`, from the invariant of the loop.
use fast_cfs.Base.{
  ℕ, ◌+◌, ◌-◌, ◌≤◌, ◌<◌, ◌≡◌, inl, inr, sym, ap, ap₂, ◌∙◌, subst, Bool, true, false, ◌||◌,
  Status-cases, is_ok→ok, List, ◌++◌, Status, ok, arith, ltb, leb, min, length,
}
use fast_cfs.File.Types.{FileInfo, SliceKey, Slicing, IsSlicing, Fits, start}
use fast_cfs.File.Services.{Reader}
use fast_cfs.File.Read.{SliceRead, deal_hole}
use fast_cfs.File.Read.Window.{window, length-window, window-append}
use fast_cfs.File.Read.Hole.{Holds, Round, deal_hole-Round, deal_hole_failed}

module _ {S : Type 0} (api : Reader S) (content : ℕ → ℕ) (size : ℕ) where
  -- The loop's invariant: the buffer holds the file's bytes from `offset` on.
  pub record Reading (slicing : Slicing) (oid total offset : ℕ) (fi : FileInfo) (k : SliceKey)
      (out : List ℕ) : Type 0 where
    pub got : ℕ
    pub known : fi.dentry.size ≡ size
    pub inode : fi.dentry.inode ≡ oid
    pub key_oid : k.oid ≡ oid
    pub bytes : out ≡ window content offset got
    pub fits : Fits slicing.block_size k (offset + got) (total - got)
    pub more : got < total
    pub inside : 0 < got → offset + got ≤ size

  abbrev pub ReadsAll : (total offset : ℕ) → SliceRead S → Type 0
  ReadsAll total offset d =
      d.status ≡ ok → d.bytes ≡ window content offset (min total (size - offset))

-- One round of the loop, from the invariant.
module _ {S : Type 0} {api : Reader S} {content : ℕ → ℕ} {size : ℕ} {slicing : Slicing}
    {oid total offset : ℕ} {fi : FileInfo} {k : SliceKey} {out : List ℕ} (laws : IsSlicing slicing)
    (held : Holds S api oid content size)
    (i : Reading api content size slicing oid total offset fi k out) (s : S) where
  abbrev pub turn : SliceRead S
  turn = deal_hole api fi (api.slice_read s k).2 k (offset + length out) (api.slice_read s k).1

  abbrev pub stop : Bool
  stop = leb total (length (out ++ turn.bytes)) || ltb (length turn.bytes) k.slice_length

  got-length : length out ≡ i.got
  got-length = ap length i.bytes ∙ length-window content offset i.got

  pub turn-Round : turn.status ≡ ok → Round api content size fi k (offset + length out) turn
  turn-Round =
      deal_hole-Round api content size fi reply.2 k (offset + length out) reply.1 i.known
        (subst (λ o. (api.stat reply.2 o).0 ≡ ok → (api.stat reply.2 o).1.size ≡ size) (sym i.inode)
          (held.stat_size reply.2))
        (subst (λ p. reply.1 ≡ window content p (length reply.1)) at (held.bytes_eq s k i.key_oid))
        (held.bytes_le s k i.key_oid) (λ more. omega (arith, held.bytes_end s k i.key_oid more, at))
        (λ j le lt'. held.holes s k j i.key_oid (omega (arith, at)) (omega (arith, at)))
    where
      reply : Status × List ℕ × S
      reply = api.slice_read s k

      at : start k ≡ offset + length out
      at = omega (arith, i.fits.begins, got-length)

  pub turn_fine : stop ≡ false → turn.status ≡ ok
  turn_fine cont = elim (Status-cases turn.status) [
    | inl fine ↦ is_ok→ok _ fine
    | inr bad ↦ absurd (
        ground (
          arith,
          deal_hole_failed api content size fi (api.slice_read s k).2 k (offset + length out)
              (api.slice_read s k).1 bad,
        ))
  ]

  module _ (c : Round api content size fi k (offset + length out) turn) where
    joined : out ++ turn.bytes ≡ window content offset (i.got + c.count)
    joined =
        ap₂ ◌++◌ i.bytes (c.bytes ∙ ap (λ p. window content (offset + p) c.count) got-length)
        ∙ window-append content offset i.got c.count

    length-joined : length (out ++ turn.bytes) ≡ i.got + c.count
    length-joined = ap length joined ∙ length-window content offset (i.got + c.count)

    length-turn : length turn.bytes ≡ c.count
    length-turn = ap length c.bytes ∙ length-window content (offset + length out) c.count

    pub last_round :
        stop ≡ true → out ++ turn.bytes ≡ window content offset (min total (size - offset))
    last_round last =
        joined ∙ ap (window content offset) (ground (arith, length-joined, length-turn, got-length))

    count_whole : stop ≡ false → c.count ≡ k.slice_length
    count_whole cont = ground (arith, length-turn, c.filled)

    next_fits_lem :
        stop ≡ false
        → Fits slicing.block_size
            (slicing.next_block_slice_key k (total - length (out ++ turn.bytes)))
            (offset + (i.got + c.count))
            (total - (i.got + c.count))
    next_fits_lem cont =
        subst (λ p. Fits slicing.block_size key p (total - (i.got + c.count)))
          (omega (arith, count_whole cont, i.fits.begins))
          (subst (λ q. Fits slicing.block_size key (start k + k.slice_length) q)
            (omega (arith, length-joined))
            (laws.next_fits k _ (ground (arith, length-joined, count_whole cont))
              (ground (arith, length-joined))))
      where
        key : SliceKey
        key = slicing.next_block_slice_key k (total - length (out ++ turn.bytes))

    pub next_round :
        stop ≡ false
        → Reading api content size slicing oid total offset turn.fi
            (slicing.next_block_slice_key k (total - length (out ++ turn.bytes)))
            (out ++ turn.bytes)
    next_round cont = record {
      got = i.got + c.count;
      known = ap (λ f. f.dentry.size) (c.same (count_whole cont)) ∙ i.known;
      inode = ap (λ f. f.dentry.inode) (c.same (count_whole cont)) ∙ i.inode;
      key_oid = laws.next_oid k _ ∙ i.key_oid;
      bytes = joined;
      fits = next_fits_lem cont;
      more = ground (arith, length-joined);
      inside = ground (arith, got-length);
    }

    pub next_round-lt : (cont : stop ≡ false) → total - (next_round cont).got < total - i.got
    unfolding next_round
    next_round-lt cont = omega (arith, count_whole cont, i.fits.nonempty)
