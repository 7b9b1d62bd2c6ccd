-- ===== src/File/Read/Hole.antt =====
-- One slice of a read: what the store returns, and the zeros of `deal_hole`.
use fast_cfs.Base.{
  ℕ, ◌+◌, ◌-◌, ◌≤◌, ◌<◌, ◌≡◌, inl, inr, refl, ap, ap₂, ◌∙◌, Bool, true, false, ◌||◌, Status-cases,
  is_ok→ok, List, ◌++◌, Status, ok, is_ok, Bool-cases, arith, if◌then◌else◌, ltb, leb, ◌==◌, min,
  length, replicate,
}
use fast_cfs.File.Types.{FileInfo, SliceKey, start}
use fast_cfs.File.Services.{Reader}
use fast_cfs.File.Read.{SliceRead, read_status, fill_hole, deal_hole}
use fast_cfs.File.Read.Window.{window, window-append, window-zeros}

-- The store holds `content` under `oid`, a file of `size` bytes: of a slice it returns the first
-- bytes, none past the end of the file, and what it leaves out reads as zero.
pub record Holds (S : Type 0) (api : Reader S) (oid : ℕ) (content : ℕ → ℕ) (size : ℕ) : Type 0 where
  pub bytes_le :
      (s : S) (k : SliceKey) → k.oid ≡ oid → length (api.slice_read s k).1 ≤ k.slice_length
  pub bytes_eq :
      (s : S) (k : SliceKey)
      → k.oid ≡ oid
      → (api.slice_read s k).1 ≡ window content (start k) (length (api.slice_read s k).1)
  pub bytes_end :
      (s : S) (k : SliceKey)
      → k.oid ≡ oid
      → 0 < length (api.slice_read s k).1
      → start k + length (api.slice_read s k).1 ≤ size
  pub holes :
      (s : S) (k : SliceKey) (i : ℕ)
      → k.oid ≡ oid
      → start k + length (api.slice_read s k).1 ≤ i
      → i < start k + k.slice_length
      → content i ≡ 0
  pub stat_size : (s : S) → (api.stat s oid).0 ≡ ok → (api.stat s oid).1.size ≡ size

-- `n` bytes are what a slice of `room` bytes at `p` holds of a file of `size` bytes.
pub record Filled (p room size n : ℕ) : Type 0 where
  pub fits : n ≤ room
  pub inside : 0 < n → p + n ≤ size
  pub ends : n < room → size ≤ p + n

fill_hole-window :
    {S : Type 0} (api : Reader S) (content : ℕ → ℕ) (size p room : ℕ)
    → ((i : ℕ) → p ≤ i → i < p + room → content i ≡ 0)
    → fill_hole api size p room ≡ window content p (min room (size - p))
unfolding fill_hole
fill_hole-window api content size p room h =
    ap (λ n. replicate n 0) least
    ∙ window-zeros content p (min room (size - p)) (λ i le lt. h i le (omega arith))
  where
    least : (if ltb room (size - p) then room else size - p) ≡ min room (size - p)
    least = ground arith

module _ {S : Type 0} (api : Reader S) (content : ℕ → ℕ) (size : ℕ) where
  -- One round: the bytes read, completed by zeros.
  pub record Round (fi : FileInfo) (k : SliceKey) (position : ℕ) (d : SliceRead S) : Type 0 where
    pub count : ℕ
    pub bytes : d.bytes ≡ window content position count
    pub filled : Filled position k.slice_length size count
    pub same : count ≡ k.slice_length → d.fi ≡ fi

  pub deal_hole-Round :
      (fi : FileInfo) (s : S) (k : SliceKey) (position : ℕ) (bytes : List ℕ)
      → fi.dentry.size ≡ size
      → ((api.stat s fi.dentry.inode).0 ≡ ok → (api.stat s fi.dentry.inode).1.size ≡ size)
      → bytes ≡ window content position (length bytes)
      → length bytes ≤ k.slice_length
      → (0 < length bytes → position + length bytes ≤ size)
      → ((i : ℕ) → position + length bytes ≤ i → i < position + k.slice_length → content i ≡ 0)
      → (deal_hole api fi s k position bytes).status ≡ ok
      → Round fi k position (deal_hole api fi s k position bytes)
  unfolding deal_hole
  deal_hole-Round fi s k position bytes known stat eq le inside holes fine =
      elim (Bool-cases done) [
        | inl yes' ↦
            rw yes'
              (record { count = length bytes; bytes = eq; filled = ground arith; same = λ e. refl })
        | inr more ↦ elim (Bool-cases (ltb fi.dentry.size (position + length bytes))) [
          | inl past ↦ elim (Status-cases (api.stat s fi.dentry.inode).0) [
            | inl good ↦
                rw (more, past, good)
                  (record {
                    count = total;
                    bytes = rw (stat (is_ok→ok _ good)) joined;
                    filled = ground arith;
                    same = λ e. absurd (ground arith);
                  })
            | inr bad ↦ absurd (ground arith)
          ]
          | inr hole ↦
              rw (more, hole)
                (record {
                  count = total;
                  bytes = rw known joined;
                  filled = ground arith;
                  same = λ e. refl;
                })
        ]
      ]
    where
      done : Bool
      done = leb k.slice_length (length bytes) || (position + length bytes == fi.dentry.size)

      room : ℕ
      room = k.slice_length - length bytes

      total : ℕ
      total = length bytes + min room (size - (position + length bytes))

      joined :
          bytes ++ fill_hole api size (position + length bytes) room ≡ window content position total
      joined =
          ap₂ ◌++◌ eq (
            fill_hole-window api content size (position + length bytes) room
              (λ i le' lt. holes i le' (omega arith)))
          ∙ window-append content position (length bytes) _

  pub read_status-ok : (r : Status) → r ≡ ok → is_ok (read_status r) ≡ true
  unfolding read_status
  read_status-ok r e = rw e

  -- A round whose `stat` fails has not filled its slice.
  pub deal_hole_failed :
      (fi : FileInfo) (s : S) (k : SliceKey) (position : ℕ) (bytes : List ℕ)
      → is_ok (deal_hole api fi s k position bytes).status ≡ false
      → length (deal_hole api fi s k position bytes).bytes < k.slice_length
  unfolding deal_hole
  deal_hole_failed fi s k position bytes h = ground arith
