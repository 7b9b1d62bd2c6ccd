-- ===== src/Report/Order.antt =====
-- Sorting the events keeps the order of the reports of each file, and so what they mean.
use fast_cfs.Base.{
  ℕ, ◌+◌, ◌<◌, ◌≡◌, refl, sym, ap, ◌∙◌, Bool, true, false, Option, none, some, subst, List, [], ◌∷◌,
  All, All-map, Bool-cases, inl, inr, if◌then◌else◌, ◌==◌, arith, insert, qsort, qsort-All,
}
use fast_cfs.Report.{
  Event, is_notify, to_event_ptr_array, compare_event_ptr, merge_events, merge_loop, merge_into,
  merge_sorted, sorted_events, Memory, Arrays, merged,
}
use fast_cfs.Report.Extent.{Extent, Agrees, apply, apply-other, replay}
use fast_cfs.Report.Merging.{IsReport}
use fast_cfs.Report.Replay.{merge_loop-replay, merge_loop-reports}

-- The events are numbered after `n`.
abbrev NumberedAfter : ℕ → Event → Type 0
NumberedAfter n e = n < e.id

number-after : (n : ℕ) (l : List Event) → All (NumberedAfter n) (to_event_ptr_array n l)
unfolding to_event_ptr_array
number-after n [] = tt
number-after n (e ∷ es) = (
  omega arith,
  All-map (λ x h. omega arith) (to_event_ptr_array (n + 1) es) (number-after (n + 1) es),
)

number-replay :
    (i n : ℕ) (l : List Event) (x : Option Extent)
    → replay i x (to_event_ptr_array n l) ≡ replay i x l
unfolding to_event_ptr_array
number-replay i n [] x = refl
number-replay i n (e ∷ es) x = number-replay i (n + 1) es _

number-IsReport : (n : ℕ) (l : List Event) → All IsReport l → All IsReport (to_event_ptr_array n l)
unfolding to_event_ptr_array
number-IsReport n [] h = tt
number-IsReport n (e ∷ es) h =
    (record { unflagged = h.0.unflagged; both = h.0.both }, number-IsReport (n + 1) es h.1)

abbrev apply_event : ℕ → Option Extent → Event → Option Extent
apply_event i x e = if is_notify e then x else apply i e.dsize x

apply_event-other :
    (i : ℕ) (x : Option Extent) (e : Event) → (e.dsize.inode == i) ≡ false → apply_event i x e ≡ x
apply_event-other i x e other = elim (Bool-cases (is_notify e)) [
  | inl told ↦ rw told refl
  | inr reports ↦ rw reports (apply-other i e.dsize x other)
]

agrees :
    {b : Option Extent} → (a : Option Extent) (y : Extent) → Agrees a b → b ≡ some y → a ≡ some y
agrees a y (inl h) k = cc
agrees a y (inr h) k = h ∙ k

-- Reports of different files do not depend on each other's order.
apply_comm :
    (i : ℕ) (x : Option Extent) (a b : Event)
    → (a.dsize.inode == b.dsize.inode) ≡ false
    → apply_event i (apply_event i x a) b ≡ apply_event i (apply_event i x b) a
apply_comm i x a b ne = elim (Bool-cases (a.dsize.inode == i)) [
  | inl here ↦
      let other : (b.dsize.inode == i) ≡ false = ground arith in
      apply_event-other i (apply_event i x a) b other
      ∙ ap (λ y. apply_event i y a) (sym (apply_event-other i x b other))
  | inr other ↦
      ap (λ y. apply_event i y b) (apply_event-other i x a other)
      ∙ sym (apply_event-other i (apply_event i x b) a other)
]

insert-replay :
    (i : ℕ) (a : Event) (l : List Event) (x : Option Extent)
    → All (NumberedAfter a.id) l
    → replay i x (insert compare_event_ptr a l) ≡ replay i x (a ∷ l)
unfolding insert compare_event_ptr
insert-replay i a [] x h = refl
insert-replay i a (b ∷ bs) x h = elim (Bool-cases (compare_event_ptr a b)) [
  | inl before ↦ rw before refl
  | inr after ↦ rw after (
      insert-replay i a bs (apply_event i x b) h.1
      ∙ ap (λ y. replay i y bs) (sym (apply_comm i x a b (ground arith))))
]

qsort-replay :
    (i n : ℕ) (l : List Event) (x : Option Extent)
    → replay i x (qsort compare_event_ptr (to_event_ptr_array n l)) ≡ replay i x l
unfolding qsort to_event_ptr_array
qsort-replay i n [] x = refl
qsort-replay i n (e ∷ es) x =
    insert-replay i (record e { id = n + 1 })
      (qsort compare_event_ptr (to_event_ptr_array (n + 1) es)) x
      (qsort-All compare_event_ptr (NumberedAfter (n + 1)) (to_event_ptr_array (n + 1) es)
        (number-after (n + 1) es))
    ∙ qsort-replay i (n + 1) es _

queue-reports :
    (queue : List Event)
    → All IsReport queue
    → All IsReport (qsort compare_event_ptr (to_event_ptr_array 0 queue))
queue-reports queue reports =
    qsort-All compare_event_ptr IsReport (to_event_ptr_array 0 queue)
      (number-IsReport 0 queue reports)

-- The array of the loops of `merge_events`.
abbrev pub out_of : List Event → List Event
out_of queue = merge_loop none (sorted_events queue)

-- The merged events are reports, no notifications.
pub merge_loop-queue :
    (queue : List Event) → All IsReport queue → All (λ e. is_notify e ≡ false) (out_of queue)
merge_loop-queue queue reports = merge_loop-reports _ none tt (queue-reports queue reports)

pub out_of-replay :
    (queue : List Event) (inode : ℕ) (x y : Extent)
    → All IsReport queue
    → replay inode (some x) queue ≡ some y
    → replay inode (some x) (out_of queue) ≡ some y
out_of-replay queue inode x y reports means =
    agrees _ y
      (merge_loop-replay inode (sorted_events queue) none (some x) tt (queue-reports queue reports))
      (qsort-replay inode 0 queue (some x) ∙ means)

-- What a merge that succeeds gives.
merge_into-out :
    (n : ℕ) (fits : Bool × ℕ) (out es : List Event)
    → (merge_into n fits out).1 ≡ merged es
    → out ≡ es
unfolding merge_into
merge_into-out n (true, a) out es h = cc
merge_into-out n (false, a) out es h = cc

pub merge_sorted-out :
    (mem : Memory) (arrays : Arrays) (fits : Bool × ℕ) (queue es : List Event)
    → (merge_sorted mem arrays fits queue).1 ≡ merged es
    → out_of queue ≡ es
unfolding merge_sorted
merge_sorted-out mem arrays (false, a) queue es h = cc
merge_sorted-out mem arrays (true, a) queue es h = merge_into-out a _ (out_of queue) es h

-- If the reports of the queue carry the flags as `IsReport` says and each of them that sets the
-- space end of a file alone ends within the size that the file then has, the merged reports, when
-- there is memory for them, bring the file from the same state to the same size, space end and
-- number of bytes allocated, and set its time of modification if the reports of the queue do.
pub merge_events-replay :
    (mem : Memory) (arrays : Arrays) (queue es : List Event) (inode : ℕ) (x y : Extent)
    → All IsReport queue
    → replay inode (some x) queue ≡ some y
    → (merge_events mem arrays queue).1 ≡ merged es
    → replay inode (some x) es ≡ some y
unfolding merge_events
merge_events-replay mem arrays queue es inode x y reports means done =
    subst (λ l. replay inode (some x) l ≡ some y) (merge_sorted-out mem arrays _ queue es done)
      (out_of-replay queue inode x y reports means)
