-- ===== src/Vote/Service/Reconnect.antt =====
-- A leader that joins again over a new connection, and the end of its old connection.
use fast_cfs.Base.{ℕ, ◌≡◌, ◌≢◌, true, none, some, arith}
use fast_cfs.Vote.Groups.{Group, lookup}
use fast_cfs.Vote.Groups.Lookup.{lookup-modify_group}
use fast_cfs.Vote.Service.{Server, leave_group, leave, finish_cleanup}

-- Two connections of one server have joined the same group as its leader, and the group's task
-- is the new one.
pub record Rejoined (s : Server) (h old new : ℕ) (g : Group) : Type 0 where
  pub differ : old ≢ new
  pub found : lookup s.table h ≡ some g
  pub leads : g.leader_id ≡ (s.peers new).server_id
  pub same : (s.peers old).server_id ≡ (s.peers new).server_id
  pub old_joined : (s.peers old).group ≡ some h
  pub new_joined : (s.peers new).group ≡ some h
  pub old_persistent : (s.peers old).persistent ≡ true
  pub task : g.task ≡ some new

-- When two connections of one server have joined a group as its leader, and the new one is the
-- group's task, the end of the old one takes the leader and the task from the group, though the
-- new connection is still joined as it was.
pub finish_cleanup-Rejoined :
    (s : Server) (h old new : ℕ) (g : Group)
    → Rejoined s h old new g
    → let s' = finish_cleanup s old in
      (lookup s'.table h ≡ some (record g { leader_id = 0; task = none }))
      × (s'.peers new ≡ s.peers new)
unfolding finish_cleanup leave leave_group
finish_cleanup-Rejoined s h old new g r = rw (r.old_joined) (
    ground (
      arith,
      r.differ,
      r.found,
      r.leads,
      r.same,
      r.old_persistent,
      lookup-modify_group s.table h h (leave_group (s.peers old)) (λ x e. ground arith),
    ))
