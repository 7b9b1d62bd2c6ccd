-- ===== src/Report/Extent.antt =====
-- What a sequence of reports means for a file.
use fast_cfs.Base.{
  ℕ, ℤ, ◌+ℤ◌, ◌≡◌, refl, sym, ap, ◌∙◌, Bool, false, not, ◌||◌, Option, none, some, List, [], ◌∷◌,
  ◌++◌, Bool-cases, inl, inr, if◌then◌else◌, leb, ◌==◌, max, ◌⊎◌,
}
use fast_cfs.File.Types.{DentrySize}
use fast_cfs.Report.{Event, is_notify}

-- The size and the space end of a file, the sum of the bytes allocated for it, and whether its
-- time of modification was set.
pub record Extent : Type 0 where
  pub size : ℕ
  pub space_end : ℕ
  pub alloc : ℤ
  pub touched : Bool

-- A report that sets the space end alone does not end past the size that the file has.
abbrev pub fits : Extent → DentrySize → Bool
fits x d = d.force || not d.flags.space_end || d.flags.file_size || leb d.file_size x.size

-- What a report does to the field that its flag names: a forced one sets it, another extends it.
abbrev pub field : Bool → Bool → ℕ → ℕ → ℕ
field flag force old end_offset =
    if flag then (if force then end_offset else max old end_offset) else old

abbrev pub extended : Extent → DentrySize → Extent
extended x d = record {
  size = field d.flags.file_size d.force x.size d.file_size;
  space_end = field d.flags.space_end d.force x.space_end d.file_size;
  alloc = if d.flags.inc_alloc then x.alloc +ℤ d.inc_alloc else x.alloc;
  touched = x.touched || d.flags.mtime;
}

-- A report to the file `inode`; `none` once one did not fit.
abbrev pub apply : ℕ → DentrySize → Option Extent → Option Extent
apply inode d none = none
apply inode d (some x) =
    if d.inode == inode then (if fits x d then some (extended x d) else none) else some x

-- All reports among the events, in their order.
abbrev pub replay : ℕ → Option Extent → List Event → Option Extent
replay inode x [] = x
replay inode x (e ∷ es) = replay inode (if is_notify e then x else apply inode e.dsize x) es

-- The same, where the second is there at all.
abbrev pub Agrees : Option Extent → Option Extent → Type 0
Agrees a b = (b ≡ none) ⊎ (a ≡ b)

pub Agrees-trans : (a b c : Option Extent) → Agrees a b → Agrees b c → Agrees a c
Agrees-trans a b c h (inl k) = inl k
Agrees-trans a b c (inl h) (inr k) = inl (sym k ∙ h)
Agrees-trans a b c (inr h) (inr k) = inr (h ∙ k)

replay-none : (i : ℕ) (es : List Event) → replay i none es ≡ none
replay-none i [] = refl
replay-none i (e ∷ es) = elim (Bool-cases (is_notify e)) [
  | inl h ↦ rw h (replay-none i es)
  | inr h ↦ rw h (replay-none i es)
]

pub replay-Agrees :
    (i : ℕ) (es : List Event) (a b : Option Extent)
    → Agrees a b
    → Agrees (replay i a es) (replay i b es)
replay-Agrees i es a b (inl h) = inl (ap (λ x. replay i x es) h ∙ replay-none i es)
replay-Agrees i es a b (inr h) = inr (ap (λ x. replay i x es) h)

pub replay-append :
    (i : ℕ) (es fs : List Event) (x : Option Extent)
    → replay i x (es ++ fs) ≡ replay i (replay i x es) fs
replay-append i [] fs x = refl
replay-append i (e ∷ es) fs x = replay-append i es fs _

pub apply-other :
    (i : ℕ) (d : DentrySize) (x : Option Extent) → (d.inode == i) ≡ false → apply i d x ≡ x
apply-other i d none h = refl
apply-other i d (some x) h = rw h refl
