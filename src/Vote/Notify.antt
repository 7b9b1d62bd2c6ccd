-- ===== src/Vote/Notify.antt =====
-- src/vote/server/cluster_relationship.c: the two rounds in which a candidate is made the master,
-- `notify_next_master` and `cluster_notify_master_changed`.
pub mod Master
pub mod Refused
use fast_cfs.Base.{
  ℕ, suc, Bool, true, false, not, Option, none, some, List, [], ◌∷◌, Status, ok, err, enoent,
  eagain, is_ok, if◌then◌else◌, ◌==◌, length,
}
use fast_cfs.Vote.Election.{
  Node, Net, init_inactive, pre_set_master, set_master, commit_master, trigger_reselect_master,
}

-- The result of one notification, `*bConnectFail` after it, and what it changed.
pub record Told (S : Type 0) : Type 0 where
  pub status : Status
  pub connect_fail : Bool
  pub node : Node
  pub ext : S

-- The result of a round.
pub record Round (S : Type 0) : Type 0 where
  pub status : Status
  pub success_count : ℕ
  pub node : Node
  pub ext : S

module _ {S : Type 0} (net : Net S) (quorum : ℕ → ℕ → Bool) where
  -- `do_notify_master_changed`, with the call over the connection.
  unfoldable pub do_notify : (S → ℕ → ℕ → Status × S) → Node → S → ℕ → ℕ → Told S
  do_notify send n s c m =
      let (r, s') = net.connect s c in
      let (q, s'') = send s' c m in
      if is_ok r
      then record { status = q; connect_fail = false; node = n; ext = s'' }
      else record { status = r; connect_fail = true; node = n; ext = s' }

  -- `cluster_notify_next_master`; `fail` is what `*bConnectFail` holds before.
  unfoldable pub notify_pre_set : ℕ → Node → S → Bool → ℕ → Told S
  unfolding do_notify
  notify_pre_set m n s fail c =
      let (r, next) = pre_set_master m n.next_master in
      let n' = record n { next_master = next } in
      if c == n.myself
      then record {
        status = r;
        connect_fail = fail;
        node =
            if is_ok r
            then record n' { inactive = init_inactive (net.now s) n.myself n.servers }
            else n';
        ext = s;
      }
      else do_notify net.pre_set_next n s c m

  -- `cluster_commit_next_master`
  unfoldable pub notify_commit : ℕ → Node → S → Bool → ℕ → Told S
  unfolding do_notify
  notify_commit m n s fail c =
      let (r, n') = commit_master m n n.next_master in
      if c == n.myself
      then record { status = r; connect_fail = fail; node = n'; ext = s }
      else do_notify net.commit_next n s c m

  -- The loop of `notify_next_master` over the servers that are left, and the quorum check after
  -- it; `count` servers have accepted. `bConnectFail` is not initialised: `fail` is its value.
  unfoldable pub notify_loop :
      (Node → S → Bool → ℕ → Told S) → ℕ → List ℕ → ℕ → Bool → Node → S → Round S
  notify_loop f total [] count fail n s = record {
    status = if quorum total count then ok else err eagain;
    success_count = count;
    node = n;
    ext = s;
  }
  notify_loop f total (c ∷ cs) count fail n s =
      let t = f n s fail c in
      let accepted = notify_loop f total cs (suc count) t.connect_fail t.node t.ext in
      let skipped = notify_loop f total cs count t.connect_fail t.node t.ext in
      if is_ok t.status
      then accepted
      else if t.connect_fail
      then skipped
      else record { status = t.status; success_count = count; node = t.node; ext = t.ext }

  unfoldable pub notify_next_master : (Node → S → Bool → ℕ → Told S) → Bool → Node → S → Round S
  unfolding notify_loop
  notify_next_master f fail n s = notify_loop f (length n.servers) n.servers 0 fail n s

  -- `cluster_notify_master_changed`; `fail` and `fail'` are the two uninitialised flags.
  unfoldable pub notify_master_changed : ℕ → Bool → Bool → Node → S → Round S
  unfolding notify_next_master notify_pre_set notify_commit trigger_reselect_master
  notify_master_changed m fail fail' n s =
      let a = notify_next_master (notify_pre_set m) fail n s in
      let b = notify_next_master (notify_commit m) fail' a.node a.ext in
      if not (is_ok a.status)
      then a
      else if is_ok b.status
      then b
      else record b { node = trigger_reselect_master b.node }
