-- ===== src/Vote/Election.antt =====
-- src/vote/server/cluster_relationship.c: the state of a node of the vote cluster, and the steps that
-- set and give up its master. A server is known by its id in place of the pointer.
use fast_cfs.Base.{
  ℕ, ◌+◌, Bool, false, Option, none, some, List, [], ◌∷◌, ◌++◌, Status, ok, err, eexist, ebusy,
  if◌then◌else◌, ◌==◌,
}
use fast_cfs.Vote.Groups.{Table, clear_tasks}

-- `FCFSVoteClusterServerDetectEntry`
pub record Detect : Type 0 where
  pub cs : ℕ
  pub next_time : ℕ

-- CLUSTER_SERVER_ARRAY, CLUSTER_MYSELF_PTR, CLUSTER_MASTER_PTR, CLUSTER_NEXT_MASTER and
-- INACTIVE_SERVER_ARRAY; `closed` are the tasks that were told to close.
pub record Node : Type 0 where
  pub servers : List ℕ
  pub myself : ℕ
  pub master : Option ℕ
  pub next_master : Option ℕ
  pub inactive : List Detect
  pub table : Table
  pub closed : List ℕ

-- `FCFSVoteClusterServerStatus`
pub record ServerStatus : Type 0 where
  pub cs : ℕ
  pub is_master : Bool
  pub server_id : ℕ

-- The calls to the other servers: asking for the status, connecting, and the two notifications
-- (server, new master) over a connection.
pub record Net (S : Type 0) : Type 0 where
  pub now : S → ℕ
  pub malloc : S → Bool
  pub server_status : S → ℕ → Status × ServerStatus × S
  pub connect : S → ℕ → Status × S
  pub pre_set_next : S → ℕ → ℕ → Status × S
  pub commit_next : S → ℕ → ℕ → Status × S

abbrev pub is_server : Option ℕ → ℕ → Bool
is_server none c = false
is_server (some a) c = a == c

-- `MYSELF_IS_MASTER`
abbrev pub myself_is_master : Node → Bool
myself_is_master n = is_server n.master n.myself

-- `init_inactive_server_array`: every other server, to be detected a second later.
unfoldable pub init_inactive : ℕ → ℕ → List ℕ → List Detect
init_inactive now myself [] = []
init_inactive now myself (c ∷ cs) =
    let rest = init_inactive now myself cs in
    if c == myself then rest else record { cs = c; next_time = now + 1 } ∷ rest

-- `cluster_relationship_pre_set_master`
unfoldable pub pre_set_master : ℕ → Option ℕ → Status × Option ℕ
pre_set_master m none = (ok, some m)
pre_set_master m (some a) = if a == m then (ok, some a) else (err eexist, none)

-- `cluster_relationship_set_master`
unfoldable pub set_master : ℕ → Node → Node
set_master m n = if is_server n.master m then n else record n { master = some m }

-- `cluster_relationship_commit_master`, by what the next master is.
unfoldable pub commit_master : ℕ → Node → Option ℕ → Status × Node
unfolding set_master
commit_master m n none = (err ebusy, n)
commit_master m n (some a) =
    if a == m
    then (ok, record (set_master m n) { next_master = none })
    else (err ebusy, record n { next_master = none })

-- `cluster_relationship_trigger_reselect_master`, with `cluster_unset_master`
unfoldable pub trigger_reselect_master : Node → Node
unfolding clear_tasks
trigger_reselect_master n =
    if myself_is_master n
    then record n { master = none; closed = n.closed ++ clear_tasks n.table }
    else n
