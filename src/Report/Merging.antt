-- ===== src/Report/Merging.antt =====
-- Two reports of a file, one after the other or merged.
use fast_cfs.Base.{
  ℕ, ℤ, pos, ◌+ℤ◌, ◌≡◌, refl, sym, ap, ◌∙◌, Bool, true, false, not, ◌&&◌, ◌||◌, Option, none, some,
  List, [], ◌∷◌, Bool-cases, inl, inr, if◌then◌else◌, ltb, leb, ◌==◌, max, arith, int_laws,
}
use fast_cfs.File.Types.{DentrySize}
use fast_cfs.Report.{Event, is_notify, merge_event}
use fast_cfs.Report.Extent.{Extent, field, apply, Agrees, apply-other}

-- A report without the flag of the allocated bytes allocates none, and one that is not forced and
-- has the flag of the size has that of the space end, as `fcfs_api_file_report_size_and_time` sets them.
pub record IsReport (e : Event) : Type 0 where
  pub unflagged : is_notify e ≡ false → e.dsize.flags.inc_alloc ≡ false → e.dsize.inc_alloc ≡ pos 0
  pub both : e.dsize.force ≡ false → e.dsize.flags.file_size ≡ true → e.dsize.flags.space_end ≡ true

-- An event that the inner loop merges into.
pub record IsOpen (e : Event) : Type 0 where
  pub type : is_notify e ≡ false
  pub free : e.dsize.force ≡ false
  pub clean : IsReport e

abbrev pub IsOpenOption : Option Event → Type 0
IsOpenOption none = Unit
IsOpenOption (some e) = IsOpen e

abbrev pub pending : Option Event → List Event
pending none = []
pending (some e) = e ∷ []

+ℤ-assoc : (a b c : ℤ) → (a +ℤ b) +ℤ c ≡ a +ℤ (b +ℤ c)
+ℤ-assoc a b c = omega int_laws

+ℤ-zero : (a : ℤ) → a +ℤ pos 0 ≡ a
+ℤ-zero a = omega int_laws

zero-+ℤ : (a : ℤ) → pos 0 +ℤ a ≡ a
zero-+ℤ a = omega int_laws

pub merge_event-IsOpen :
    (c t : Event)
    → IsOpen c
    → IsReport t
    → is_notify t ≡ false
    → t.dsize.force ≡ false
    → IsOpen (merge_event c t)
unfolding merge_event
merge_event-IsOpen c t o r e f = record {
  type = o.type;
  free = o.free;
  clean = record {
    unflagged = λ h k. ground (arith, o.clean.unflagged, r.unflagged);
    both = λ g h. ground (arith, o.clean.both o.free, r.both f);
  };
}

-- The end that the merged report has.
abbrev end_of : Bool → Bool → ℕ → ℕ → ℕ
end_of flagged flagged' a b = if flagged' && (not flagged || ltb a b) then b else a

-- The first report, then the second, against the merged one: `af` and `bf` are the flags of the
-- size, `as'` and `bs` those of the space end.
fits-merge :
    (x a b : ℕ) (af as' bf bs : Bool)
    → (not as' || af || leb a x) ≡ true
    → (not bs || bf || leb b (if af then max x a else x)) ≡ true
    → (not (as' || bs) || (af || bf) || leb (end_of (af || as') (bf || bs) a b) x) ≡ true
fits-merge x a b af as' bf bs h k = ground arith

size-merge :
    (x a b : ℕ) (af as' bf bs : Bool)
    → (not as' || af || leb a x) ≡ true
    → (not bs || bf || leb b (if af then max x a else x)) ≡ true
    → (if af || bf then max x (end_of (af || as') (bf || bs) a b) else x)
      ≡ (let y : ℕ = if af then max x a else x in if bf then max y b else y)
size-merge x a b af as' bf bs h k = ground arith

space-merge :
    (x a b : ℕ) (af as' bf bs : Bool)
    → (af ≡ true → as' ≡ true)
    → (bf ≡ true → bs ≡ true)
    → (if as' || bs then max x (end_of (af || as') (bf || bs) a b) else x)
      ≡ (let y : ℕ = if as' then max x a else x in if bs then max y b else y)
space-merge x a b af as' bf bs h k = ground arith

alloc-merge :
    (x a b : ℤ) (fa fb : Bool)
    → (fa ≡ false → a ≡ pos 0)
    → (if fa || fb then x +ℤ (if fb then a +ℤ b else a) else x)
      ≡ (let y : ℤ = if fa then x +ℤ a else x in if fb then y +ℤ b else y)
alloc-merge x a b true true h = sym (+ℤ-assoc x a b)
alloc-merge x a b true false h = refl
alloc-merge x a b false true h = ap (λ z. x +ℤ (z +ℤ b)) (h refl) ∙ ap (λ z. x +ℤ z) (zero-+ℤ b)
alloc-merge x a b false false h = refl

abbrev made : ℕ → ℕ → ℤ → Bool → Extent
made a b c t = record { size = a; space_end = b; alloc = c; touched = t }

made_eq :
    (a a' b b' : ℕ) (c c' : ℤ) (t t' : Bool)
    → a ≡ a'
    → b ≡ b'
    → c ≡ c'
    → t ≡ t'
    → made a b c t ≡ made a' b' c' t'
made_eq a a' b b' c c' t t' p q r u = cc

or_assoc : (a b c : Bool) → (a || (b || c)) ≡ ((a || b) || c)
or_assoc true b c = refl
or_assoc false b c = refl

-- Whether a report that is not forced fits.
abbrev fits_free : Extent → DentrySize → Bool
fits_free x d = not d.flags.space_end || d.flags.file_size || leb d.file_size x.size

abbrev extended_free : Extent → DentrySize → Extent
extended_free x d = record {
  size = field d.flags.file_size false x.size d.file_size;
  space_end = field d.flags.space_end false x.space_end d.file_size;
  alloc = if d.flags.inc_alloc then x.alloc +ℤ d.inc_alloc else x.alloc;
  touched = x.touched || d.flags.mtime;
}

apply_free :
    (i : ℕ) (d : DentrySize) (x : Extent)
    → d.force ≡ false
    → (d.inode == i) ≡ true
    → apply i d (some x) ≡ (if fits_free x d then some (extended_free x d) else none)
apply_free i d x f here = rw (f, here) refl

merged_extended :
    (x : Extent) (c t : Event)
    → IsOpen c
    → IsReport t
    → t.dsize.force ≡ false
    → fits_free x c.dsize ≡ true
    → fits_free (extended_free x c.dsize) t.dsize ≡ true
    → extended_free x (merge_event c t).dsize ≡ extended_free (extended_free x c.dsize) t.dsize
unfolding merge_event
merged_extended x c t o r n h k =
    made_eq _ _ _ _ _ _ _ _
      (size-merge x.size c.dsize.file_size t.dsize.file_size c.dsize.flags.file_size
        c.dsize.flags.space_end t.dsize.flags.file_size t.dsize.flags.space_end h k)
      (space-merge x.space_end c.dsize.file_size t.dsize.file_size c.dsize.flags.file_size
        c.dsize.flags.space_end t.dsize.flags.file_size t.dsize.flags.space_end
        (o.clean.both o.free) (r.both n))
      (alloc-merge x.alloc c.dsize.inc_alloc t.dsize.inc_alloc c.dsize.flags.inc_alloc
        t.dsize.flags.inc_alloc (o.clean.unflagged o.type))
      (or_assoc x.touched c.dsize.flags.mtime t.dsize.flags.mtime)

merged_fits :
    (x : Extent) (c t : Event)
    → fits_free x c.dsize ≡ true
    → fits_free (extended_free x c.dsize) t.dsize ≡ true
    → fits_free x (merge_event c t).dsize ≡ true
unfolding merge_event
merged_fits x c t h k =
    fits-merge x.size c.dsize.file_size t.dsize.file_size c.dsize.flags.file_size
      c.dsize.flags.space_end t.dsize.flags.file_size t.dsize.flags.space_end h k

if_true : (b : Bool) (y z : Option Extent) → b ≡ true → (if b then y else z) ≡ y
if_true b y z h = rw h refl

if_false : (b : Bool) (y z : Option Extent) → b ≡ false → (if b then y else z) ≡ z
if_false b y z h = rw h refl

merge_event-inode : (c t : Event) → (merge_event c t).dsize.inode ≡ c.dsize.inode
unfolding merge_event
merge_event-inode c t = refl

merge_event-force : (c t : Event) → (merge_event c t).dsize.force ≡ c.dsize.force
unfolding merge_event
merge_event-force c t = refl

-- Two reports of a file that are not forced, one after the other or merged.
pub merge_event-apply :
    (i : ℕ) (x : Option Extent) (c t : Event)
    → IsOpen c
    → IsReport t
    → is_notify t ≡ false
    → t.dsize.force ≡ false
    → t.dsize.inode ≡ c.dsize.inode
    → Agrees (apply i (merge_event c t).dsize x) (apply i t.dsize (apply i c.dsize x))
merge_event-apply i none c t o r n f e = inr refl
merge_event-apply i (some x) c t o r n f e = elim (Bool-cases (c.dsize.inode == i)) [
  | inr other ↦ inr (
      apply-other i (merge_event c t).dsize (some x)
        (ap (λ k. k == i) (merge_event-inode c t) ∙ other)
      ∙ sym (apply-other i c.dsize (some x) other)
      ∙ sym (apply-other i t.dsize _ (ap (λ k. k == i) e ∙ other)))
  | inl here ↦
      let one = apply_free i c.dsize x o.free here in
      let there : (t.dsize.inode == i) ≡ true = ap (λ k. k == i) e ∙ here in
      elim (Bool-cases (fits_free x c.dsize)) [
        | inr no_fit ↦ inl (ap (apply i t.dsize) (one ∙ if_false _ _ _ no_fit))
        | inl fit ↦
            let two =
              ap (apply i t.dsize) (one ∙ if_true _ _ _ fit)
              ∙ apply_free i t.dsize (extended_free x c.dsize) f there in
            elim (Bool-cases (fits_free (extended_free x c.dsize) t.dsize)) [
              | inr no_fit ↦ inl (two ∙ if_false _ _ _ no_fit)
              | inl fit' ↦ inr (
                  apply_free i (merge_event c t).dsize x (merge_event-force c t ∙ o.free)
                    (ap (λ k. k == i) (merge_event-inode c t) ∙ here)
                  ∙ if_true _ _ _ (merged_fits x c t fit fit')
                  ∙ ap some (merged_extended x c t o r f fit fit')
                  ∙ sym (if_true _ _ _ fit')
                  ∙ sym two)
            ]
      ]
]
