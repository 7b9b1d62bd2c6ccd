-- ===== src/Vote/Tests.antt =====
-- Runs of the vote server, and its theorems at concrete inputs.
use fast_cfs.Base.{
  pos, ◌≡◌, ◌≢◌, ◌↔◌, refl, true, false, none, some, [], ◌∷◌, ok, err, arith, leader_inconsistent,
  if◌then◌else◌, ◌==◌, ◌%◌,
}
use fast_cfs.Vote.Groups.{
  Group, Table, hash_code_of, lookup, new_group, get, get_with, enter, claim, take_over, find,
  modify_group, modify,
}
use fast_cfs.Vote.Groups.Lookup.{after_get, lookup-get}
use fast_cfs.Vote.Service.{
  Server, Peer, no_peer, client_join, check_join, leave, leave_group, JoinReq, join, finish, step,
  next_leader, finish_cleanup,
}
use fast_cfs.Vote.Service.Leader.{Turns, leader, step-Turns, next_leader-commit, pre_set_conflict}
use fast_cfs.Vote.Service.Reconnect.{Rejoined, finish_cleanup-Rejoined}

-- Group 2 of the service 65, led by the server 5 over the task 12.
abbrev group : Group
group = record {
  hash_code = hash_code_of 65 2;
  service_id = 65;
  response_size = 64;
  group_id = 2;
  next_leader = 0;
  leader_id = 5;
  task = some 12;
}

abbrev table : Table
table = record {
  capacity = 4;
  buckets = λ i. if i == hash_code_of 65 2 % 4 then group ∷ [] else [];
}

-- The server 5 has joined over the connections 11 and 12.
abbrev peer : Peer
peer = record { group = some (hash_code_of 65 2); server_id = 5; persistent = true }

abbrev server : Server
server = record {
  is_master = true;
  send_size = pos 1024;
  table = table;
  peers = λ c. if c == 11 then peer else if c == 12 then peer else no_peer;
}

abbrev request : JoinReq
request = record {
  length_ok = true;
  sign_ok = true;
  service_id = 65;
  group_id = 2;
  server_id = pos 6;
  response_size = pos 64;
  is_leader = true;
  persistent = true;
}

-- Another server is refused as the leader.
refused : (step server (join true 13 request)).status ≡ err leader_inconsistent
unfolding step client_join check_join get get_with enter claim take_over lookup find new_group
refused = refl

-- The end of the connection 12 leaves the group without a leader.
left : leader (step server (finish 12)).server (hash_code_of 65 2) ≡ 0
unfolding step finish_cleanup leave leave_group modify_group modify lookup find
left = refl

lookup-get_example :
    lookup (get true table 65 2 5 64 (some 11)).table (hash_code_of 65 2)
    ≡ after_get true (lookup table (hash_code_of 65 2)) (new_group 65 2 5 64 (some 11)) 5 (some 11)
lookup-get_example = lookup-get true table 65 2 5 64 (hash_code_of 65 2) (some 11)

step-Turns_example :
    Turns
      (leader server (hash_code_of 65 2))
      (leader (step server (join true 13 request)).server (hash_code_of 65 2))
step-Turns_example = step-Turns server (join true 13 request) (hash_code_of 65 2)

-- A group without a leader, for which the server 6 is to be the next.
abbrev waiting : Group
waiting = record group { leader_id = 0; next_leader = 6; task = none }

next_leader-commit_example :
    let (r, g') = next_leader true 6 waiting in
    ((r ≡ ok) ↔ (waiting.next_leader ≡ 6))
    × (r ≡ ok → g'.leader_id ≡ 6)
    × (r ≢ ok → g'.leader_id ≡ 0)
    × (g'.next_leader ≡ 0)
next_leader-commit_example = next_leader-commit 6 waiting refl

pre_set_conflict_example :
    let (r, g') = next_leader false 6 (record group { leader_id = 0 }) in
    let (q, g'') = next_leader false 7 g' in
    (r ≡ ok)
    × (q ≡ err leader_inconsistent)
    × ((next_leader true 6 g'').0 ≡ err leader_inconsistent)
    × ((next_leader true 7 g'').0 ≡ err leader_inconsistent)
pre_set_conflict_example =
    pre_set_conflict 6 7 (record group { leader_id = 0 }) refl refl (omega arith) (omega arith)
      (omega arith)

rejoined : Rejoined server (hash_code_of 65 2) 11 12 group
unfolding lookup find
rejoined = record {
  differ = omega arith;
  found = refl;
  leads = refl;
  same = refl;
  old_joined = refl;
  new_joined = refl;
  old_persistent = refl;
  task = refl;
}

finish_cleanup-Rejoined_example :
    let s' = finish_cleanup server 11 in
    (lookup s'.table (hash_code_of 65 2) ≡ some (record group { leader_id = 0; task = none }))
    × (s'.peers 12 ≡ peer)
finish_cleanup-Rejoined_example =
    finish_cleanup-Rejoined server (hash_code_of 65 2) 11 12 group rejoined
