-- ===== src/Report/Tests.antt =====
-- Runs of the reporter, and its theorems at concrete inputs.
use fast_cfs.Base.{
  ℕ, ℤ, pos, ◌≡◌, refl, Bool, true, false, List, [], ◌∷◌, All, Option, none, some, ok, err, eio,
  if◌then◌else◌, ltb, arith, qsort, insert, ◌+ℤ◌,
}
use fast_cfs.File.Example.{slicing, slicing-IsSlicing, services, services-IsWriter, world, file}
use fast_cfs.File.Write.{Progress, do_pwrite}
use fast_cfs.Report.{
  Memory, Arrays, Merge, merged, refused, corrupt, merge_sorted, merge_into, room,
  realloc_event_ptrs, merge_loop, next, begin, merge_event, to_event_ptr_array, compare_event_ptr,
  Event, report, notify, merge_events, deal_events,
}
use fast_cfs.Report.Extent.{Extent, replay}
use fast_cfs.Report.Merging.{IsReport}
use fast_cfs.Report.Order.{merge_events-replay}
use fast_cfs.Report.Batch.{Deals, deal_events-Sends}
use fast_cfs.Report.Sources.{Clean, do_pwrite-Clean}

-- A report for the file `inode` that ends at `end` and allocates `inc` bytes.
abbrev extend : ℕ → ℕ → ℕ → Bool → Event
extend inode end_offset inc force = record {
  type = report;
  id = 0;
  dsize = record {
    inode = inode;
    file_size = end_offset;
    inc_alloc = pos inc;
    force = force;
    flags = record { file_size = true; space_end = true; inc_alloc = true; mtime = false };
  };
}

abbrev wait : ℕ → Event
wait inode = record (extend inode 0 0 false) { type = notify }

-- Two writes to the file 7 around one to the file 9, a truncation of the file 7, and a write
-- after it.
abbrev queue : List Event
queue =
    extend 7 30 10 false
    ∷ extend 9 5 5 false
    ∷ extend 7 20 4 false
    ∷ wait 7
    ∷ extend 7 0 0 true
    ∷ extend 7 12 12 false
    ∷ []

unfoldable ends : List Event → List (ℕ × ℕ × ℤ)
ends [] = []
ends (e ∷ es) = (e.dsize.inode, e.dsize.file_size, e.dsize.inc_alloc) ∷ ends es

-- Arrays that must grow once, and memory for it.
abbrev granted : Memory
granted = record { sorted = λ n. true; merged = λ n. true }

abbrev small : Arrays
small = record { sorted_alloc = 4; merged_alloc = 2 }

unfoldable shown : Merge → Option (List (ℕ × ℕ × ℤ))
unfolding ends
shown (merged es) = some (ends es)
shown refused = none
shown corrupt = none

four_merged :
    shown (merge_events granted small queue).1
    ≡ some ((7, 30, pos 14) ∷ (7, 0, pos 0) ∷ (7, 12, pos 12) ∷ (9, 5, pos 5) ∷ [])
unfolding shown ends merge_events merge_sorted merge_into room realloc_event_ptrs merge_loop next
    begin merge_event qsort insert to_event_ptr_array compare_event_ptr ◌+ℤ◌
four_merged = refl

queue-IsReport : All IsReport queue
queue-IsReport = (
  record { unflagged = λ e h. cc; both = λ f h. cc },
  (
    record { unflagged = λ e h. cc; both = λ f h. cc },
    (
      record { unflagged = λ e h. cc; both = λ f h. cc },
      (
        record { unflagged = λ e h. cc; both = λ f h. cc },
        (
          record { unflagged = λ e h. cc; both = λ f h. cc },
          (record { unflagged = λ e h. cc; both = λ f h. cc }, tt),
        ),
      ),
    ),
  ),
)

abbrev extent : ℕ → ℕ → Extent
extent end_offset alloc = record {
  size = end_offset;
  space_end = end_offset;
  alloc = pos alloc;
  touched = false;
}

abbrev four : List Event
four =
    record (extend 7 30 14 false) { id = 1 }
    ∷ record (extend 7 0 0 true) { id = 5 }
    ∷ record (extend 7 12 12 false) { id = 6 }
    ∷ record (extend 9 5 5 false) { id = 2 }
    ∷ []

four_done : (merge_events granted small queue).1 ≡ merged four
unfolding merge_events merge_sorted merge_into room realloc_event_ptrs merge_loop next begin
    merge_event qsort insert to_event_ptr_array compare_event_ptr ◌+ℤ◌
four_done = refl

merge_events-replay_example : replay 7 (some (extent 8 16)) four ≡ some (extent 12 42)
unfolding ◌+ℤ◌
merge_events-replay_example =
    merge_events-replay granted small queue four 7 (extent 8 16) (extent 12 42) queue-IsReport refl
      four_done

deal_events-Sends_example : Deals granted small 3 6 queue (deal_events granted small 3 6 queue)
deal_events-Sends_example = deal_events-Sends granted small 3 6 queue (omega arith) queue-IsReport

do_pwrite-Clean_example :
    (p : Progress ℕ) × (do_pwrite services slicing true world file 40 8
      ≡ some (if ltb 0 p.written_bytes then ok else err eio, p))
    × All Clean p.world.queue
do_pwrite-Clean_example =
    do_pwrite-Clean services slicing true world file 40 8 slicing-IsSlicing services-IsWriter
      (omega arith) tt
