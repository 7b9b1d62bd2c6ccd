-- ===== src/Report.antt =====
-- src/api/async_reporter.c: the thread that sends the queued reports of the file operations. It
-- takes the whole queue, sorts it by inode, merges reports of one inode, and sends the rest in
-- batches.
pub mod Order
pub mod Extent
pub mod Merging
pub mod Replay
pub mod Batch
pub mod Sources
mod Tests
use fast_cfs.Base.{
  ℕ, zero, suc, ◌+◌, ◌-◌, ◌*◌, Status, ok, err, enomem, ◌+ℤ◌, Bool, true, false, not, ◌&&◌, ◌||◌,
  Option, none, some, List, [], ◌∷◌, ◌++◌, if◌then◌else◌, ltb, leb, ◌==◌, length, qsort,
}
use fast_cfs.File.Types.{DentrySize, Modified}

-- `FCFSAPIEventType`
pub data EventType : Type 0 where
  report notify : EventType

-- `FCFSAPIAsyncReportEvent`
pub record Event : Type 0 where
  pub type : EventType
  pub id : ℕ
  pub dsize : DentrySize

abbrev pub is_notify : Event → Bool
is_notify e = elim e.type [ report ↦ false | notify ↦ true ]

-- `to_event_ptr_array` numbers the events from 1 on; `n` of them are numbered already.
unfoldable pub to_event_ptr_array : ℕ → List Event → List Event
to_event_ptr_array n [] = []
to_event_ptr_array n (e ∷ es) = record e { id = n + 1 } ∷ to_event_ptr_array (n + 1) es

-- `compare_event_ptr`, as the test for "not after".
unfoldable pub compare_event_ptr : Event → Event → Bool
compare_event_ptr a b =
    if a.dsize.inode == b.dsize.inode then leb a.id b.id else ltb a.dsize.inode b.dsize.inode

abbrev pub size_flags : DentrySize → Bool
size_flags d = d.flags.file_size || d.flags.space_end

-- `merge_event`
unfoldable pub merge_event : Event → Event → Event
merge_event dest src =
    let d : DentrySize = dest.dsize in
    let s : DentrySize = src.dsize in
    record dest {
      dsize = record d {
        file_size =
            if size_flags s && (not (size_flags d) || ltb d.file_size s.file_size)
            then s.file_size
            else d.file_size;
        inc_alloc = if s.flags.inc_alloc then d.inc_alloc +ℤ s.inc_alloc else d.inc_alloc;
        flags = record {
          file_size = d.flags.file_size || s.flags.file_size;
          space_end = d.flags.space_end || s.flags.space_end;
          inc_alloc = d.flags.inc_alloc || s.flags.inc_alloc;
          mtime = d.flags.mtime || s.flags.mtime;
        };
      };
    }

-- The outer loop of `merge_events` at an event: what goes to the merged array at once, and the
-- event that the inner loop merges the next ones into.
unfoldable pub begin : Event → List Event × Option Event
begin t = if is_notify t then ([], none) else if t.dsize.force then (t ∷ [], none) else ([], some t)

-- One event for either loop; `current` is there while the inner loop runs.
unfoldable pub next : Option Event → Event → List Event × Option Event
unfolding begin merge_event
next none t = begin t
next (some current) t =
    let (out, after) = begin t in
    if not t.dsize.force && (t.dsize.inode == current.dsize.inode)
    then ([], some (if is_notify t then current else merge_event current t))
    else (current ∷ out, after)

-- The loops of `merge_events`, which give the merged array.
unfoldable pub merge_loop : Option Event → List Event → List Event
unfolding next
merge_loop none [] = []
merge_loop (some current) [] = current ∷ []
merge_loop current (t ∷ ts) = let (out, after) = next current t in out ++ merge_loop after ts

-- Whether `fc_malloc` gives a new array of so many pointers, for either array.
pub record Memory : Type 0 where
  pub sorted : ℕ → Bool
  pub merged : ℕ → Bool

-- `alloc` of SORTED_EVENT_PTR_ARRAY and of MERGED_EVENT_PTR_ARRAY
pub record Arrays : Type 0 where
  pub sorted_alloc : ℕ
  pub merged_alloc : ℕ

-- `realloc_event_ptrs`, where the array is full: whether there is room, and `alloc`.
unfoldable pub realloc_event_ptrs : (ℕ → Bool) → ℕ → ℕ → Bool × ℕ
realloc_event_ptrs malloc alloc count =
    if leb alloc count
    then (if malloc (alloc * 2) then (true, alloc * 2) else (false, alloc))
    else (true, alloc)

abbrev when_room : (ℕ → Bool × ℕ) → Bool × ℕ → Bool × ℕ
when_room rest (true, alloc) = rest alloc
when_room rest (false, alloc) = (false, alloc)

-- Room for so many more pointers, one after the other, after `count` of them.
unfoldable pub room : (ℕ → Bool) → ℕ → ℕ → ℕ → Bool × ℕ
unfolding realloc_event_ptrs
room malloc count zero alloc = (true, alloc)
room malloc count (suc more) alloc =
    when_room (room malloc (count + 1) more) (realloc_event_ptrs malloc alloc count)

-- How `merge_events` ends: with ENOMEM; with a count that it computed from the pointer NULL,
-- after the merged array could not grow; or with the merged array.
pub data Merge : Type 0 where
  refused corrupt : Merge
  merged : List Event → Merge

abbrev pub sorted_events : List Event → List Event
sorted_events queue = qsort compare_event_ptr (to_event_ptr_array 0 queue)

unfoldable pub merge_into : ℕ → Bool × ℕ → List Event → Arrays × Merge
merge_into sorted_alloc (true, alloc) out =
    (record { sorted_alloc = sorted_alloc; merged_alloc = alloc }, merged out)
merge_into sorted_alloc (false, alloc) out =
    (record { sorted_alloc = sorted_alloc; merged_alloc = alloc }, corrupt)

unfoldable pub merge_sorted : Memory → Arrays → Bool × ℕ → List Event → Arrays × Merge
unfolding merge_into merge_loop room
merge_sorted mem arrays (false, alloc) queue = (record arrays { sorted_alloc = alloc }, refused)
merge_sorted mem arrays (true, alloc) queue =
    let out = merge_loop none (sorted_events queue) in
    merge_into alloc (room mem.merged 0 (length out) arrays.merged_alloc) out

-- `merge_events`
unfoldable pub merge_events : Memory → Arrays → List Event → Arrays × Merge
unfolding to_event_ptr_array merge_sorted room
merge_events mem arrays queue =
    merge_sorted mem arrays (room mem.sorted 0 (length queue) arrays.sorted_alloc) queue

-- NOTIFY_EVENT_COUNT
unfoldable pub notify_count : List Event → ℕ
notify_count [] = 0
notify_count (e ∷ es) = let rest = notify_count es in if is_notify e then suc rest else rest

-- The batches that `deal_events` sends, of at most `max` reports; `dsizes` is what it has
-- collected for the next one.
unfoldable pub batches : ℕ → List DentrySize → List DentrySize → List (List DentrySize)
batches max [] [] = []
batches max (d ∷ ds) [] = (d ∷ ds) ∷ []
batches max dsizes (e ∷ es) =
    let dsizes' = dsizes ++ (e ∷ []) in
    let full = batches max [] es in
    let more = batches max dsizes' es in if length dsizes' == max then dsizes' ∷ full else more

abbrev pub dsizes_of : List Event → List DentrySize
dsizes_of [] = []
dsizes_of (e ∷ es) = e.dsize ∷ dsizes_of es

-- The result of `deal_events`, the batches that it sends, and `waiting_count` afterwards.
pub record Dealt : Type 0 where
  pub status : Status
  pub sent : List (List DentrySize)
  pub waiting_count : ℕ

-- `none`: the merged array is corrupt, and the code goes on with it.
unfoldable pub deal_merge : ℕ → ℕ → List Event → Merge → Option Dealt
unfolding batches notify_count
deal_merge max waiting_count queue refused =
    some (record { status = err enomem; sent = []; waiting_count = waiting_count })
deal_merge max waiting_count queue corrupt = none
deal_merge max waiting_count queue (merged out) = some (record {
  status = ok;
  sent = batches max [] (dsizes_of out);
  waiting_count = waiting_count - (length queue - notify_count queue);
})

unfoldable pub deal_events : Memory → Arrays → ℕ → ℕ → List Event → Option Dealt
unfolding merge_events deal_merge
deal_events mem arrays max waiting_count queue =
    deal_merge max waiting_count queue (merge_events mem arrays queue).1
