-- ===== src/Vote/Check.antt =====
-- src/vote/server/cluster_relationship.c: what a master does once a second, `master_check`, and the
-- search for a second master in it.
pub mod StepDown
use fast_cfs.Base.{
  ℕ, zero, suc, ◌+◌, ◌-◌, Bool, true, false, not, Option, some, List, [], ◌∷◌, Status, ok, err,
  eexist, ebusy, is_ok, if◌then◌else◌, ltb, ◌==◌, length,
}
use fast_cfs.Vote.Election.{Node, Net, ServerStatus, Detect, trigger_reselect_master}
use fast_cfs.Vote.Choice.{get_server_status}

-- The result code, the number of servers still inactive, the entries, and the node afterwards.
pub record Checked (S : Type 0) : Type 0 where
  pub status : Status
  pub inactive_count : ℕ
  pub entries : List Detect
  pub node : Node
  pub ext : S

module _ {S : Type 0} (net : Net S) where
  -- `do_check_brainsplit`
  unfoldable pub do_check_brainsplit : Node → S → ℕ → Status × Node × S
  unfolding get_server_status trigger_reselect_master
  do_check_brainsplit n s c =
      let (r, x, s') = get_server_status net n s c in
      if is_ok r
      then (if x.is_master then (err eexist, trigger_reselect_master n, s') else (ok, n, s'))
      else (r, n, s')

  -- One entry whose time has come, with the result for it; the loop goes on unless there is a
  -- second master.
  abbrev pub is_eexist : Status → Bool
  is_eexist (err eexist) = true
  is_eexist _ = false

  -- `cluster_check_brainsplit` for the entries that are left.
  unfoldable pub check_brainsplit : Node → S → ℕ → List Detect → Checked S
  unfolding do_check_brainsplit
  check_brainsplit n s count [] = record {
    status = ok;
    inactive_count = count;
    entries = [];
    node = n;
    ext = s;
  }
  check_brainsplit n s count (d ∷ ds) =
      let (r, n', s') = do_check_brainsplit n s d.cs in
      let waiting = check_brainsplit n s count ds in
      let next = check_brainsplit n' s' (if is_ok r then count - 1 else count) ds in
      if ltb (net.now s) d.next_time
      then record waiting { entries = d ∷ waiting.entries }
      else if is_eexist r
      then record {
        status = err eexist;
        inactive_count = count;
        entries = d ∷ ds;
        node = n';
        ext = s';
      }
      else record next { entries = record d { next_time = net.now s' + 1 } ∷ next.entries }

  module _ (quorum : ℕ → ℕ → Bool) where
    -- `master_check` from the quorum check on.
    unfoldable pub check_quorum : ℕ → Checked S → Status × Node × S
    unfolding trigger_reselect_master
    check_quorum total c =
        let n = record c.node { inactive = c.entries } in
        if not (is_ok c.status)
        then (c.status, n, c.ext)
        else if quorum total (total - c.inactive_count)
        then (ok, n, c.ext)
        else (err ebusy, trigger_reselect_master n, c.ext)

    -- `master_check`
    unfoldable pub master_check : Node → S → Status × Node × S
    unfolding check_brainsplit check_quorum
    master_check n s =
        if length n.inactive == 0
        then (ok, n, s)
        else check_quorum (length n.servers) (check_brainsplit n s (length n.inactive) n.inactive)
