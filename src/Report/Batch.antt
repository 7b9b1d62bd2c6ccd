-- ===== src/Report/Batch.antt =====
-- The batches of reports that `deal_events` sends.
use fast_cfs.Base.{
  ℕ, ◌≤◌, ◌<◌, ◌≡◌, refl, sym, ap, subst, ◌∙◌, Bool, true, false, Option, none, some, ok, err,
  enomem, ◌⊎◌, List, [], ◌∷◌, ◌++◌, append_assoc, All, Bool-cases, inl, inr, ◌==◌, length,
  length-append, arith,
}
use fast_cfs.File.Types.{DentrySize}
use fast_cfs.Report.Extent.{Extent, apply, replay}
use fast_cfs.Report.Merging.{IsReport}
use fast_cfs.Report.Order.{out_of, out_of-replay, merge_loop-queue}
use fast_cfs.Report.{
  Event, is_notify, batches, dsizes_of, merge_events, deal_events, deal_merge, merge_into,
  merge_sorted, Dealt, Memory, Arrays, room,
}

abbrev pub concat : List (List DentrySize) → List DentrySize
concat [] = []
concat (l ∷ ls) = l ++ concat ls

-- The batches are those of the reports: none is empty or too long, and none is left out.
pub record Splits (max : ℕ) (l : List DentrySize) (b : List (List DentrySize)) : Type 0 where
  pub all : concat b ≡ l
  pub sizes : All (λ x. (0 < length x) × (length x ≤ max)) b

batches-Splits :
    (max : ℕ) (es dsizes : List DentrySize)
    → length dsizes < max
    → Splits max (dsizes ++ es) (batches max dsizes es)
unfolding batches
batches-Splits max [] [] lt = record { all = refl; sizes = tt }
batches-Splits max [] (d ∷ ds) lt = record { all = refl; sizes = ((omega arith, omega arith), tt) }
batches-Splits max (e ∷ es) dsizes lt =
    let len = length-append dsizes (e ∷ []) in
    elim (Bool-cases (length (dsizes ++ (e ∷ [])) == max)) [
      | inl full ↦
          let w = batches-Splits max es [] (omega arith) in
          rw full (record {
            all = ap (λ r. (dsizes ++ (e ∷ [])) ++ r) w.all ∙ append_assoc dsizes (e ∷ []) es;
            sizes = ((omega (arith, len), ground (arith, len)), w.sizes);
          })
      | inr more ↦
          let w = batches-Splits max es (dsizes ++ (e ∷ [])) (ground (arith, len)) in
          rw more (
            subst (λ l. Splits max l (batches max (dsizes ++ (e ∷ [])) es))
              (append_assoc dsizes (e ∷ []) es) w)
    ]

-- The effect of the sizes sent, in their order.
abbrev pub replay_sizes : ℕ → Option Extent → List DentrySize → Option Extent
replay_sizes inode x [] = x
replay_sizes inode x (d ∷ ds) = replay_sizes inode (apply inode d x) ds

replay-dsizes_of :
    (inode : ℕ) (es : List Event) (x : Option Extent)
    → All (λ e. is_notify e ≡ false) es
    → replay inode x es ≡ replay_sizes inode x (dsizes_of es)
replay-dsizes_of inode [] x h = refl
replay-dsizes_of inode (e ∷ es) x h = rw h.0 (replay-dsizes_of inode es (apply inode e.dsize x) h.1)

-- The batches sent have one report at least and `max` at most, and mean for every file what the
-- reports of the queue mean, where these fit.
pub record Sends (max : ℕ) (queue : List Event) (d : Dealt) : Type 0 where
  pub fine : d.status ≡ ok
  pub sizes : All (λ b. (0 < length b) × (length b ≤ max)) d.sent
  pub means :
      (inode : ℕ) (x y : Extent)
      → replay inode (some x) queue ≡ some y
      → replay_sizes inode (some x) (concat d.sent) ≡ some y

-- Nothing is sent.
pub record Refuses (waiting_count : ℕ) (d : Dealt) : Type 0 where
  pub fails : d.status ≡ err enomem
  pub nothing : d.sent ≡ []
  pub waits : d.waiting_count ≡ waiting_count

module _ (mem : Memory) (arrays : Arrays) (max waiting_count : ℕ) (queue : List Event) where
  -- Whether the pointers of the queue, and those of the merged events, have room.
  abbrev pub has_sorted : Bool
  has_sorted = (room mem.sorted 0 (length queue) arrays.sorted_alloc).0

  abbrev pub has_merged : Bool
  has_merged = (room mem.merged 0 (length (out_of queue)) arrays.merged_alloc).0

  -- With room for both arrays the batches are right; without room for the first nothing is sent;
  -- and without room for the second alone the code goes on with a corrupt array.
  abbrev pub Deals : Option Dealt → Type 0
  Deals none = (has_sorted ≡ true) × (has_merged ≡ false)
  Deals (some d) =
      ((has_sorted ≡ true) × (has_merged ≡ true) × Sends max queue d)
      ⊎ ((has_sorted ≡ false) × Refuses waiting_count d)

  dealt-Sends :
      0 < max
      → All IsReport queue
      → (n : ℕ)
      → Sends max queue (record {
        status = ok;
        sent = batches max [] (dsizes_of (out_of queue));
        waiting_count = n;
      })
  dealt-Sends lt reports n =
      let w = batches-Splits max (dsizes_of (out_of queue)) [] lt in
      record {
        fine = refl;
        sizes = w.sizes;
        means = λ inode x y h.
            ap (replay_sizes inode (some x)) w.all
            ∙ sym (replay-dsizes_of inode (out_of queue) (some x) (merge_loop-queue queue reports))
            ∙ out_of-replay queue inode x y reports h;
      }

  into-Deals :
      0 < max
      → All IsReport queue
      → has_sorted ≡ true
      → (n : ℕ) (fits : Bool × ℕ) → has_merged ≡ fits.0
      → Deals (deal_merge max waiting_count queue (merge_into n fits (out_of queue)).1)
  unfolding merge_into deal_merge
  into-Deals lt reports has n (true, a) e = inl (has, e, dealt-Sends lt reports _)
  into-Deals lt reports has n (false, a) e = (has, e)

  sorted-Deals :
      0 < max
      → All IsReport queue
      → (fits : Bool × ℕ) → has_sorted ≡ fits.0
      → Deals (deal_merge max waiting_count queue (merge_sorted mem arrays fits queue).1)
  unfolding merge_sorted deal_merge
  sorted-Deals lt reports (true, a) e = into-Deals lt reports e a _ refl
  sorted-Deals lt reports (false, a) e =
      inr (e, record { fails = refl; nothing = refl; waits = refl })

  -- Let batches of at least one report be allowed, and the reports of the queue carry the flags as
  -- `IsReport` says. With memory for both arrays, the reporter sends batches that are not empty and
  -- hold at most `max` reports, and for every file, from every state from which each report of the
  -- queue that sets the space end alone ends within the size, they bring the file to the same
  -- size, space end and number of bytes allocated as the reports of the queue, one after the other,
  -- and set its time of modification if they do. Without memory for the queue it sends nothing
  -- and fails with ENOMEM; without memory for the merged array alone it goes on with a corrupt one.
  pub deal_events-Sends :
      0 < max → All IsReport queue → Deals (deal_events mem arrays max waiting_count queue)
  unfolding deal_events merge_events
  deal_events-Sends lt reports = sorted-Deals lt reports _ refl
