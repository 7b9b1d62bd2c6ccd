-- ===== src/Report/Replay.antt =====
-- Merging the reports, in their sorted order, keeps what they mean.
use fast_cfs.Base.{
  ℕ, ◌≡◌, refl, false, not, ◌&&◌, Option, none, some, List, [], ◌∷◌, All, All-append, Bool-cases,
  inl, inr, ◌==◌, arith,
}
use fast_cfs.Report.{Event, is_notify, begin, next, merge_loop}
use fast_cfs.Report.Extent.{Extent, replay, Agrees, Agrees-trans, replay-Agrees, replay-append}
use fast_cfs.Report.Merging.{IsReport, IsOpenOption, pending, merge_event-IsOpen, merge_event-apply}

-- One event in either loop: what is given out and what is kept mean the same as before.
record Keeps (current : Option Event) (t : Event) (r : List Event × Option Event) : Type 0 where
  kept : IsOpenOption r.1
  out : All (λ e. is_notify e ≡ false) r.0
  same :
      (i : ℕ) (x : Option Extent)
      → Agrees
          (replay i (replay i x r.0) (pending r.1))
          (replay i (replay i x (pending current)) (t ∷ []))

begin-Keeps : (t : Event) → IsReport t → Keeps none t (begin t)
unfolding begin
begin-Keeps t r = elim (Bool-cases (is_notify t)) [
  | inl told ↦ rw told (record { kept = tt; out = tt; same = λ i x. rw told (inr refl) })
  | inr reports ↦ elim (Bool-cases t.dsize.force) [
    | inl forced ↦
        rw (reports, forced) (record { kept = tt; out = (reports, tt); same = λ i x. inr refl })
    | inr free ↦
        simp (reports, free)
          (record {
            kept = record { type = reports; free = free; clean = r };
            out = tt;
            same = λ i x. inr refl;
          })
  ]
]

next-Keeps :
    (current : Option Event) (t : Event)
    → IsOpenOption current
    → IsReport t
    → Keeps current t (next current t)
unfolding next
next-Keeps none t o r = begin-Keeps t r
next-Keeps (some c) t o r =
    elim (Bool-cases (not t.dsize.force && (t.dsize.inode == c.dsize.inode))) [
      | inr apart ↦
          let k = begin-Keeps t r in
          rw apart (record {
            kept = k.kept;
            out = (o.type, k.out);
            same = λ i x. k.same i (replay i x (c ∷ []));
          })
      | inl together ↦ elim (Bool-cases (is_notify t)) [
        | inl told ↦
            rw (together, told)
              (record { kept = o; out = tt; same = λ i x. rw (o.type, told) (inr refl) })
        | inr reports ↦
            rw (together, reports)
              (record {
                kept = merge_event-IsOpen c t o r reports (ground arith);
                out = tt;
                same = λ i x.
                    rw (o.type, reports)
                      (merge_event-apply i x c t o r reports (ground arith) (ground arith));
              })
      ]
    ]

pub merge_loop-replay :
    (i : ℕ) (es : List Event) (current : Option Event) (x : Option Extent)
    → IsOpenOption current
    → All IsReport es
    → Agrees (replay i x (merge_loop current es)) (replay i (replay i x (pending current)) es)
unfolding merge_loop
merge_loop-replay i [] none x o r = inr refl
merge_loop-replay i [] (some c) x o r = inr refl
merge_loop-replay i (t ∷ ts) current x o r =
    let k = next-Keeps current t o r.0 in
    Agrees-trans _ _ _
      (inr (replay-append i (next current t).0 (merge_loop (next current t).1 ts) x))
      (Agrees-trans _ _ _ (merge_loop-replay i ts (next current t).1 _ k.kept r.1)
        (replay-Agrees i ts _ _ (k.same i x)))

pub merge_loop-reports :
    (es : List Event) (current : Option Event)
    → IsOpenOption current
    → All IsReport es
    → All (λ e. is_notify e ≡ false) (merge_loop current es)
unfolding merge_loop
merge_loop-reports [] none o r = tt
merge_loop-reports [] (some c) o r = (o.type, tt)
merge_loop-reports (t ∷ ts) current o r =
    let k = next-Keeps current t o r.0 in
    All-append (λ e. is_notify e ≡ false) (next current t).0 (merge_loop (next current t).1 ts)
      k.out (merge_loop-reports ts (next current t).1 k.kept r.1)
