-- ===== src/File/Write/Source.antt =====
-- From where in the caller's buffer the loop of `do_pwrite` takes the bytes of each chunk: the
-- pointer moves by `wbuffer->buff += *written_bytes`, the total so far, not the last chunk's.
use fast_cfs.Base.{
  ℕ, ◌+◌, ◌<◌, ◌≡◌, ◌⊎◌, inl, inr, Bool, List, [], ◌∷◌, ◌++◌, some, refl, arith, if◌then◌else◌, ltb,
  ok, err, eio,
}
use fast_cfs.File.Types.{FileInfo, Slicing, IsSlicing}
use fast_cfs.File.Services.{Services, IsWriter, WriteReply, World}
use fast_cfs.File.Write.{Chunk, Progress, account, advance, init_progress, do_pwrite}
use fast_cfs.File.Write.Cover.{Covers, do_pwrite-Stored}

-- The chunks, with the pointer at `b` and `w` bytes written before them, and at `b'` and `w'` after.
abbrev Sources : ℕ → ℕ → List Chunk → ℕ → ℕ → Type 0
Sources b w [] b' w' = (b ≡ b') × (w ≡ w')
Sources b w (c ∷ cs) b' w' = (c.buff ≡ b) × Sources (b + (w + c.bytes)) (w + c.bytes) cs b' w'

Sources-append :
    (b w : ℕ) (cs : List Chunk) (c : Chunk) (b' w' : ℕ)
    → Sources b w cs b' w'
    → c.buff ≡ b'
    → Sources b w (cs ++ (c ∷ [])) (b' + (w' + c.bytes)) (w' + c.bytes)
Sources-append b w [] c b' w' h e = ground arith
Sources-append b w (d ∷ cs) c b' w' h e =
    (h.0, Sources-append (b + (w + d.bytes)) (w + d.bytes) cs c b' w' h.1 e)

-- The chunk's bytes are those that belong at its place in the file.
abbrev pub IsAligned : ℕ → Chunk → Type 0
IsAligned offset c = offset + c.buff ≡ c.offset

-- What the pointer's rule makes of the first three chunks.
abbrev pub FirstThree : ℕ → List Chunk → Type 0
FirstThree offset [] = Unit
FirstThree offset (a ∷ []) = IsAligned offset a
FirstThree offset (a ∷ b ∷ []) = IsAligned offset a × IsAligned offset b
FirstThree offset (a ∷ b ∷ c ∷ cs) =
    IsAligned offset a × IsAligned offset b × (offset + c.buff ≡ c.offset + a.bytes)

Sources-FirstThree :
    (offset : ℕ) (cs : List Chunk) (b' w' q : ℕ)
    → Sources 0 0 cs b' w'
    → Covers offset cs q
    → FirstThree offset cs
Sources-FirstThree offset [] b' w' q h k = tt
Sources-FirstThree offset (a ∷ []) b' w' q h k = omega arith
Sources-FirstThree offset (a ∷ b ∷ []) b' w' q h k = omega arith
Sources-FirstThree offset (a ∷ b ∷ c ∷ cs) b' w' q h k =
    (omega arith, omega arith, omega (arith, h.1.1.0, k.1.1.0))

module _ {S : Type 0} (api : Services S) where
  abbrev Before : Progress S → Type 0
  Before p = Sources 0 0 p.chunks p.buff p.written_bytes

  abbrev After : Progress S → Type 0
  After p = Sources 0 0 p.chunks (p.buff + p.written_bytes) p.written_bytes

  account-After :
      (need : Bool) (r : WriteReply) (p : Progress S) → Before p → After (account api need r p)
  unfolding account
  account-After need r p h = Sources-append 0 0 p.chunks _ p.buff p.written_bytes h refl

  advance-Before :
      (s : Slicing) (r : WriteReply) (remain : ℕ) (p : Progress S)
      → After p
      → Before (advance s remain r p)
  unfolding advance
  advance-Before s r remain p h = h

  After-FirstThree :
      (offset q : ℕ) (p : Progress S)
      → Before p ⊎ After p
      → Covers offset p.chunks q
      → FirstThree offset p.chunks
  After-FirstThree offset q p (inl h) k = Sources-FirstThree offset p.chunks _ _ q h k
  After-FirstThree offset q p (inr h) k = Sources-FirstThree offset p.chunks _ _ q h k

  -- With slices as `IsSlicing` says and a store as `IsWriter` says, a write that takes one or two
  -- chunks takes each chunk's bytes from where they belong; where it takes a third chunk, that
  -- one's bytes come from too far on, by the length of the first.
  pub do_pwrite-FirstThree :
      (s : Slicing) (need : Bool) (world : World S) (fi : FileInfo) (size offset : ℕ)
      → IsSlicing s
      → IsWriter api
      → 0 < size
      → (p : Progress S) × (do_pwrite api s need world fi size offset
          ≡ some (if ltb 0 p.written_bytes then ok else err eio, p))
        × FirstThree offset p.chunks
  unfolding init_progress
  do_pwrite-FirstThree s need world fi size offset laws w lt =
      let (p, e, st, i) =
        do_pwrite-Stored api s laws w need Before After (λ p x h. h)
          (λ r p at le pos h. account-After need r p h)
          (λ r remain p h. advance-Before s r remain p h) world fi size offset lt (refl, refl) in
      (p, e, After-FirstThree offset (offset + p.written_bytes) p i st.cover)
