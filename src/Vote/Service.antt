-- ===== src/Vote/Service.antt =====
-- src/vote/server/service_handler.c: the requests of the nodes that ask for the server's vote, and
-- the end of a connection. Requests are handled one after another; a task is the number of its
-- connection.
pub mod Leader
pub mod Reconnect
use fast_cfs.Base.{
  ℕ, zero, suc, ℤ, pos, negsuc, ◌+◌, pos_part, leb_ℤ, ltb_ℤ, Bool, true, false, not, ◌&&◌, ◌||◌,
  Option, none, some, List, [], Status, ok, err, einval, minus_einval, eexist, eperm, efault,
  leader_inconsistent, not_master, is_ok, if◌then◌else◌, ltb, ◌==◌,
}
use fast_cfs.Vote.Groups.{
  Group, Table, Entered, hash_code_of, lookup, modify_group, get, unset_task,
}

-- `SERVICE_PEER` of a connection; `group` holds the hash code in place of the pointer, and is
-- set exactly while the task's type is VOTE_NODE.
pub record Peer : Type 0 where
  pub group : Option ℕ
  pub server_id : ℕ
  pub persistent : Bool

abbrev pub no_peer : Peer
no_peer = record { group = none; server_id = 0; persistent = false }

pub record Server : Type 0 where
  pub is_master : Bool
  pub send_size : ℤ
  pub table : Table
  pub peers : ℕ → Peer

-- `FCFSVoteProtoClientJoinReq`, with the outcome of the tests of its length and signature.
pub record JoinReq : Type 0 where
  pub length_ok : Bool
  pub sign_ok : Bool
  pub service_id : ℕ
  pub group_id : ℕ
  pub server_id : ℤ
  pub response_size : ℤ
  pub is_leader : Bool
  pub persistent : Bool

-- The result code, the server, and the connections that are told to close.
pub record Reply : Type 0 where
  pub status : Status
  pub server : Server
  pub closed : List ℕ

abbrev pub reply : Status → Server → Reply
reply r s = record { status = r; server = s; closed = [] }

abbrev pub set_peer : Server → ℕ → Peer → Server
set_peer s c p = record s { peers = λ j. if j == c then p else s.peers j }

-- FAUTH, FDIR and FSTORE: 'A', 'D' and 'S'.
abbrev pub known_service : ℕ → Bool
known_service id = id == 65 || id == 68 || id == 83

-- The checks of `service_deal_client_join` before it enters the group.
unfoldable pub check_join : Server → Peer → JoinReq → Status
check_join s p q =
    if not q.length_ok
    then err einval
    else if not (known_service q.service_id)
    then err minus_einval
    else if leb_ℤ q.server_id (pos 0)
    then err minus_einval
    else if leb_ℤ q.response_size (pos 0) || ltb_ℤ s.send_size q.response_size
    then err minus_einval
    else if q.persistent && not q.is_leader
    then err minus_einval
    else if not q.sign_ok
    then err efault
    else elim p.group [ none ↦ ok | some h ↦ err eexist ]

abbrev pub leader_of_request : JoinReq → ℕ
leader_of_request q = if q.persistent && q.is_leader then pos_part q.server_id else 0

-- `service_deal_client_join`. `alloc` says whether a new group can be allocated.
unfoldable pub client_join : Bool → Server → ℕ → JoinReq → Reply
unfolding check_join
client_join alloc s c q =
    let e =
      get alloc s.table q.service_id q.group_id (leader_of_request q) (pos_part q.response_size)
        (if q.persistent then some c else none) in
    let p : Peer = record {
      group = some (hash_code_of q.service_id q.group_id);
      server_id = pos_part q.server_id;
      persistent = q.persistent;
    } in
    if is_ok (check_join s (s.peers c) q)
    then (if is_ok e.status
        then record {
          status = ok;
          server = set_peer (record s { table = e.table }) c p;
          closed = e.closed;
        }
        else record { status = e.status; server = record s { table = e.table }; closed = e.closed })
    else reply (check_join s (s.peers c) q) s

-- What FCFS_VOTE_SERVICE_PROTO_PRE_SET_NEXT_LEADER does to a group without a leader.
unfoldable pub pre_set : ℕ → Group → Status × Group
pre_set me g =
    if g.next_leader == 0
    then (ok, record g { next_leader = me })
    else if g.next_leader == me
    then (ok, g)
    else (err leader_inconsistent, record g { next_leader = 0 })

-- What FCFS_VOTE_SERVICE_PROTO_COMMIT_NEXT_LEADER does to a group without a leader.
unfoldable pub commit : ℕ → Group → Status × Group
commit me g =
    if g.next_leader == me
    then (ok, record g { next_leader = 0; leader_id = me })
    else (err leader_inconsistent, record g { next_leader = 0 })

-- The group's part of `service_deal_next_leader`.
unfoldable pub next_leader : Bool → ℕ → Group → Status × Group
unfolding pre_set commit
next_leader is_commit me g =
    if g.leader_id == 0
    then (if is_commit then commit me g else pre_set me g)
    else if g.leader_id == me
    then (ok, g)
    else (err leader_inconsistent, g)

-- A change of the group of a connection that has joined one; a group that was made stays.
unfoldable pub change : Server → ℕ → (Group → Status × Group) → Option Group → Reply
change s h f none = reply (err einval) s
change s h f (some g) = reply (f g).0 (record s { table = modify_group s.table h (λ old. (f g).1) })

unfoldable pub at_group : Server → ℕ → (Group → Status × Group) → Reply
unfolding change
at_group s h f = change s h f (lookup s.table h)

-- The checks of the length and of `service_check_login`, and then the change.
unfoldable pub for_member : Server → Bool → Option ℕ → (Group → Status × Group) → Reply
unfolding at_group
for_member s false joined f = reply (err einval) s
for_member s true none f = reply (err eperm) s
for_member s true (some h) f = at_group s h f

-- `service_deal_next_leader`.
unfoldable pub deal_next_leader : Server → ℕ → Bool → Bool → Reply
unfolding for_member next_leader
deal_next_leader s c length_ok is_commit =
    for_member s length_ok (s.peers c).group (next_leader is_commit (s.peers c).server_id)

-- The group's part of `service_deal_active_check`, which changes nothing.
unfoldable pub is_leader_still : ℕ → Group → Status × Group
is_leader_still me g = (if g.leader_id == me then ok else err leader_inconsistent, g)

-- `service_deal_active_check`.
unfoldable pub active_check : Server → ℕ → Bool → Reply
unfolding for_member is_leader_still
active_check s c length_ok =
    for_member s length_ok (s.peers c).group (is_leader_still (s.peers c).server_id)

-- `service_deal_get_vote`: the answer holds no more than the group's `response_size` zeros.
unfoldable pub get_vote : Server → ℕ → Bool → Reply
unfolding for_member
get_vote s c length_ok = for_member s length_ok (s.peers c).group (λ g. (ok, g))

-- What the end of a connection does to its group.
unfoldable pub leave_group : Peer → Group → Group
leave_group p g =
    if g.leader_id == p.server_id
    then record g { leader_id = 0; task = if p.persistent then none else g.task }
    else g

-- The group's part of the cleanup, and the peer's.
unfoldable pub leave : Server → ℕ → Option ℕ → Server
unfolding leave_group
leave s c none = s
leave s c (some h) =
    set_peer (record s { table = modify_group s.table h (leave_group (s.peers c)) }) c no_peer

-- `service_task_finish_cleanup`.
unfoldable pub finish_cleanup : Server → ℕ → Server
unfolding leave
finish_cleanup s c = leave s c (s.peers c).group

pub data Event : Type 0 where
  join : Bool → ℕ → JoinReq → Event
  set_next : ℕ → Bool → Event
  commit_next : ℕ → Bool → Event
  vote : ℕ → Bool → Event
  check : ℕ → Bool → Event
  unknown : ℕ → Event
  finish : ℕ → Event

-- One request, as `service_process` hands it on, or the end of a connection.
unfoldable pub step : Server → Event → Reply
unfolding client_join deal_next_leader get_vote active_check finish_cleanup
step s (finish c) = reply ok (finish_cleanup s c)
step s (join alloc c q) = if s.is_master then client_join alloc s c q else reply (err not_master) s
step s (set_next c ok_length) =
    if s.is_master then deal_next_leader s c ok_length false else reply (err not_master) s
step s (commit_next c ok_length) =
    if s.is_master then deal_next_leader s c ok_length true else reply (err not_master) s
step s (vote c ok_length) = if s.is_master then get_vote s c ok_length else reply (err not_master) s
step s (unknown c) = reply (if s.is_master then err minus_einval else err not_master) s
step s (check c ok_length) =
    if s.is_master then active_check s c ok_length else reply (err not_master) s
