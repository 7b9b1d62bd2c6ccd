-- ===== src/Vote/Groups.antt =====
-- src/vote/server/service_group_htable.c: the groups of all services, in a chained hash table.
pub mod Lookup
use fast_cfs.Base.{
  ℕ, zero, suc, ◌+◌, ◌*◌, ◌^◌, ◌%◌, Bool, true, false, not, ◌&&◌, Option, none, some, List, [], ◌∷◌,
  ◌++◌, Status, ok, err, enomem, leader_inconsistent, is_ok, if◌then◌else◌, ltb, ◌==◌,
}

-- `FCFSVoteServiceGroupInfo`. A task is known by a number; 0 is "no leader".
pub record Group : Type 0 where
  pub hash_code : ℕ
  pub service_id : ℕ
  pub response_size : ℕ
  pub group_id : ℕ
  pub next_leader : ℕ
  pub leader_id : ℕ
  pub task : Option ℕ

-- The buckets; the pointer to a group is its hash code.
pub record Table : Type 0 where
  pub capacity : ℕ
  pub buckets : ℕ → List Group

-- `(service_id << 32) | group_id`, for a group id of 32 bits that is not negative.
abbrev pub hash_code_of : ℕ → ℕ → ℕ
hash_code_of service_id group_id = service_id * 2 ^ 32 + group_id

-- The walk through a chain.
unfoldable pub find : ℕ → List Group → Option Group
find h [] = none
find h (g ∷ gs) = if h == g.hash_code then some g else find h gs

-- A write to the group of the chain that `find` returns.
unfoldable pub modify : ℕ → (Group → Group) → List Group → List Group
modify h f [] = []
modify h f (g ∷ gs) = if h == g.hash_code then f g ∷ gs else g ∷ modify h f gs

abbrev pub set_bucket : Table → ℕ → List Group → Table
set_bucket t i gs = record t { buckets = λ j. if j == i then gs else t.buckets j }

unfoldable pub lookup : Table → ℕ → Option Group
lookup t h = find h (t.buckets (h % t.capacity))

unfoldable pub modify_group : Table → ℕ → (Group → Group) → Table
modify_group t h f = set_bucket t (h % t.capacity) (modify h f (t.buckets (h % t.capacity)))

-- The new value of `leader_id`, or the refusal. Nobody else writes it between the read and the
-- compare-and-swap.
unfoldable pub claim : ℕ → Group → Status × Group
claim leader_id g =
    if g.leader_id == 0
    then (ok, record g { leader_id = leader_id })
    else (if g.leader_id == leader_id then ok else err leader_inconsistent, g)

abbrev pub same_task : Option ℕ → Option ℕ → Bool
same_task none none = true
same_task none (some b) = false
same_task (some a) none = false
same_task (some a) (some b) = a == b

abbrev pub to_list : Option ℕ → List ℕ
to_list none = []
to_list (some a) = a ∷ []

-- The new task of a group and the tasks that are told to close.
unfoldable pub take_over : Option ℕ → Group → Group × List ℕ
take_over none g = (g, [])
take_over (some t) g =
    if same_task (some t) g.task then (g, []) else (record g { task = some t }, to_list g.task)

-- What `service_group_htable_get` does to a group that exists.
unfoldable pub enter : ℕ → Option ℕ → Group → Status × Group × List ℕ
unfolding claim take_over
enter leader_id task g =
    let (r, g') = claim leader_id g in
    let (g'', closed) = take_over task g' in
    if ltb 0 leader_id then (if is_ok r then (ok, g'', closed) else (r, g', [])) else (ok, g, [])

unfoldable pub new_group : ℕ → ℕ → ℕ → ℕ → Option ℕ → Group
new_group service_id group_id leader_id response_size task = record {
  hash_code = hash_code_of service_id group_id;
  service_id = service_id;
  response_size = response_size;
  group_id = group_id;
  next_leader = 0;
  leader_id = leader_id;
  task = if ltb 0 leader_id then task else none;
}

-- The result code, the group found or made, the table and the closed tasks.
pub record Entered : Type 0 where
  pub status : Status
  pub group : Option Group
  pub table : Table
  pub closed : List ℕ

-- The two branches of `service_group_htable_get`, with the hash code, the group to add and what
-- the walk has found. `alloc` says whether the allocator has an object; it hands it out cleared,
-- so that `next_leader` begins as 0.
unfoldable pub get_with : Bool → Table → ℕ → Group → ℕ → Option ℕ → Option Group → Entered
get_with alloc t h new leader_id task none =
    if alloc
    then record {
      status = ok;
      group = some new;
      table = set_bucket t (h % t.capacity) (new ∷ t.buckets (h % t.capacity));
      closed = [];
    }
    else record { status = err enomem; group = none; table = t; closed = [] }
get_with alloc t h new leader_id task (some g) =
    let (r, g', closed) = enter leader_id task g in
    record { status = r; group = some g'; table = modify_group t h (λ old. g'); closed = closed }

-- `service_group_htable_get`.
unfoldable pub get : Bool → Table → ℕ → ℕ → ℕ → ℕ → Option ℕ → Entered
get alloc t service_id group_id leader_id response_size task =
    let h = hash_code_of service_id group_id in
    get_with alloc t h (new_group service_id group_id leader_id response_size task) leader_id task
      (lookup t h)

-- `service_group_htable_unset_task`
unfoldable pub unset_task : Table → ℕ → Table
unset_task t h = modify_group t h (λ g. record g { task = none })

-- The tasks of one chain that `service_group_htable_clear_tasks` closes.
unfoldable pub chain_tasks : List Group → List ℕ
chain_tasks [] = []
chain_tasks (g ∷ gs) = to_list g.task ++ chain_tasks gs

-- The tasks of the buckets from `i` on, `n` of them.
unfoldable pub bucket_tasks : Table → ℕ → ℕ → List ℕ
unfolding chain_tasks
bucket_tasks t i zero = []
bucket_tasks t i (suc n) = chain_tasks (t.buckets i) ++ bucket_tasks t (i + 1) n

-- `service_group_htable_clear_tasks`; it leaves the table as it is.
unfoldable pub clear_tasks : Table → List ℕ
unfolding bucket_tasks
clear_tasks t = bucket_tasks t 0 t.capacity
