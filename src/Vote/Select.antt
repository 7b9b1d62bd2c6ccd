-- ===== src/Vote/Select.antt =====
-- src/vote/server/cluster_relationship.c: `cluster_select_master`, the loop in which a node without a
-- master waits for enough servers, and what it does with the server chosen.
pub mod Rounds
pub mod Elected
use mathlib.Core.Option
use fast_cfs.Base.{
  ℕ, zero, suc, ◌+◌, ◌-◌, ◌*◌, ◌%◌, min, Bool, true, false, not, ◌&&◌, ◌||◌, Option, none, some,
  List, Status, ok, err, enoent, is_ok, if◌then◌else◌, ltb, leb, ◌==◌, length,
}
use fast_cfs.Vote.Election.{Node, Net, ServerStatus, set_master}
use fast_cfs.Vote.Choice.{Chosen, get_master}
use fast_cfs.Vote.Notify.{Round, notify_master_changed}

-- `sleep`; meanwhile another thread may set the node's master.
pub record Clock (S : Type 0) : Type 0 where
  pub sleep : ℕ → Node → S → Node × S

-- How the loop is left: with an error, since a master is there, or with a server chosen.
pub data Exit : Type 0 where
  failed : Status → Exit
  has_master : Exit
  elected : ServerStatus → Exit

-- What a round does: leave the loop, or sleep before the next one.
pub data Outcome (S : Type 0) : Type 0 where
  leave : Exit → S → Outcome S
  pause : ℕ → S → Outcome S

pub record Left (S : Type 0) : Type 0 where
  pub exit : Exit
  pub node : Node
  pub ext : S

pub record Selected (S : Type 0) : Type 0 where
  pub status : Status
  pub node : Node
  pub ext : S

module _ {S : Type 0} (net : Net S) (clock : Clock S) (quorum : ℕ → ℕ → Bool)
    (max_wait_time : ℕ) where
  -- How long to sleep before the next round, if there is one; `elapsed` is the time since the
  -- start. The last test is that the remaining time is not positive.
  unfoldable pub sleep_time : ℕ → ℕ → Bool → ℕ → ℕ → Option ℕ
  sleep_time total active is_master elapsed max_sleep_secs =
      if not (quorum total active)
      then some 1
      else if active == total || (leb 2 active && is_master)
      then none
      else if leb max_wait_time elapsed
      then none
      else some (min (max_wait_time - elapsed) max_sleep_secs)

  -- `max_sleep_secs` after the `i`th round; a round without a quorum leaves it.
  unfoldable pub next_max_sleep : Bool → ℕ → ℕ → ℕ
  next_max_sleep agreed i max_sleep_secs =
      if agreed && (i % 2 == 0) && ltb max_sleep_secs 8 then max_sleep_secs * 2 else max_sleep_secs

  -- The end of a round that has chosen `x`, by the time to sleep.
  unfoldable pub after_test : S → ServerStatus → Option ℕ → Outcome S
  after_test s x none = leave (elected x) s
  after_test s x (some secs) = pause secs s

  -- A round after the servers have been asked.
  unfoldable pub after_poll : ℕ → ℕ → Node → Chosen S → Option ServerStatus → Outcome S
  unfolding after_test sleep_time
  after_poll start_time max_sleep_secs n c none = leave (failed c.status) c.ext
  after_poll start_time max_sleep_secs n c (some x) = after_test c.ext x (
      sleep_time (length n.servers) c.active_count x.is_master (net.now c.ext - start_time)
        max_sleep_secs)

  -- One round of the loop, by the node's master.
  unfoldable pub round : ℕ → ℕ → Node → S → Option ℕ → Outcome S
  unfolding after_poll
  round start_time max_sleep_secs n s none =
      after_poll start_time max_sleep_secs n (get_master net n s) (get_master net n s).server
  round start_time max_sleep_secs n s (some m) = leave has_master s

  unfoldable pub proceed : Node → (ℕ → S → Option (Left S)) → Outcome S → Option (Left S)
  proceed n again (leave e s) = some (record { exit = e; node = n; ext = s })
  proceed n again (pause secs s) = again secs s

  -- The loop. `none`: still selecting after all the rounds of fuel.
  unfoldable pub select_loop : ℕ → ℕ → ℕ → ℕ → Node → S → Option (Left S)
  unfolding round proceed next_max_sleep
  select_loop start_time zero i max_sleep_secs n s = none
  select_loop start_time (suc fuel) i max_sleep_secs n s =
      let agreed = quorum (length n.servers) (get_master net n s).active_count in
      proceed n
        (λ secs s'.
          select_loop start_time fuel (i + 1) (next_max_sleep agreed (i + 1) max_sleep_secs)
            (clock.sleep secs n s').0 (clock.sleep secs n s').1)
        (round start_time max_sleep_secs n s n.master)

  -- What follows the loop; `fail` and `fail'` are the uninitialised flags of the two rounds of
  -- the notification.
  unfoldable pub finish_select : Bool → Bool → Node → S → Exit → Selected S
  unfolding set_master
  finish_select fail fail' n s (failed r) = record { status = r; node = n; ext = s }
  finish_select fail fail' n s has_master = record { status = ok; node = n; ext = s }
  finish_select fail fail' n s (elected x) =
      let r = notify_master_changed net quorum x.cs fail fail' n s in
      if x.cs == n.myself
      then record { status = r.status; node = r.node; ext = r.ext }
      else if x.is_master
      then record { status = ok; node = set_master x.cs n; ext = s }
      else record { status = err enoent; node = n; ext = s }

  -- `cluster_select_master`
  unfoldable pub select_master : ℕ → Bool → Bool → Node → S → Option (Selected S)
  unfolding select_loop finish_select
  select_master fuel fail fail' n s =
      Option.map (λ l. finish_select fail fail' l.node l.ext l.exit)
        (select_loop (net.now s) fuel 0 1 n s)
