-- ===== src/Vote/ElectionTests.antt =====
-- Runs of an election among three servers, and its theorems at concrete inputs.
use fast_cfs.Base.{
  ℕ, suc, ◌≡◌, ◌⊎◌, ◌<◌, ◌≤◌, List, Option, enomem, sym, ap₂, subst, refl, ◌+◌, Bool, true, false,
  not, ◌||◌, ◌&&◌, none, some, [], ◌∷◌, Memᴰ, head, tail, ok, err, enoent, eagain, if◌then◌else◌,
  ltb, ◌==◌, length, ◌*◌, arith,
}
use fast_cfs.Vote.Groups.{Table}
use fast_cfs.Vote.Election.{
  pre_set_master, commit_master, set_master, Node, Net, ServerStatus, Detect,
}
use fast_cfs.Vote.Choice.{poll, get_master, get_server_status}
use fast_cfs.Vote.Choice.Greatest.{own, IsGreatest, get_master-IsGreatest}
use fast_cfs.Vote.Notify.{
  do_notify, notify_pre_set, notify_commit, notify_loop, notify_next_master, notify_master_changed,
}
use fast_cfs.Vote.Notify.Master.{notify_master_changed-Done}
use fast_cfs.Vote.Notify.Refused.{notify_loop_refused}
use fast_cfs.Vote.Select.{Clock, Selected, select_master}
use fast_cfs.Vote.Select.Elected.{select_master-HasMaster}
use fast_cfs.Vote.Select.Rounds.{IsClock}
use fast_cfs.Vote.Inactive.{is_inactive, add_to_inactive, remove_from_inactive, add, change}
use fast_cfs.Vote.Inactive.Distinct.{WellFormed, change-WellFormed, is_inactive-change}
use fast_cfs.Vote.Check.{master_check}
use fast_cfs.Vote.Check.StepDown.{StepsDown, master_check-StepsDown}

-- The server 2 of the servers 1, 2 and 3, with no groups.
abbrev node : Node
node = record {
  servers = 1 ∷ 2 ∷ 3 ∷ [];
  myself = 2;
  master = none;
  next_master = none;
  inactive = [];
  table = record { capacity = 4; buckets = λ i. [] };
  closed = [];
}

-- All servers can be reached, but the server 3 gives no status; the state counts the calls.
abbrev net : Net ℕ
net = record {
  now = λ s. s;
  malloc = λ s. true;
  server_status = λ s c. (
    if c == 3 then err enoent else ok,
    record { cs = c; is_master = false; server_id = c },
    suc s,
  );
  connect = λ s c. (ok, suc s);
  pre_set_next = λ s c m. (ok, suc s);
  commit_next = λ s c m. (ok, suc s);
}

-- The server 1 cannot be reached.
abbrev broken : Net ℕ
broken = record net { connect = λ s c. (if c == 1 then err eagain else ok, suc s) }

abbrev majority : ℕ → ℕ → Bool
majority total active = ltb total (active * 2)

get_master-IsGreatest_example :
    let l = (poll net node (1 ∷ 2 ∷ 3 ∷ []) 0 ok).statuses in
    let c = get_master net node 0 in
    (((3 < 8) ⊎ (true ≡ true))
      × ((b : ServerStatus) × (c.status ≡ ok)
          × (c.server ≡ some b)
          × (c.active_count ≡ length l)
          × Memᴰ (own net node) l
          × IsGreatest l b))
    ⊎ ((8 ≤ 3) × (true ≡ false) × (c.status ≡ err enomem) × (c.server ≡ none) × (c.ext ≡ 0))
get_master-IsGreatest_example = get_master-IsGreatest net node 0 (tail (head refl))

notify_master_changed-Done_example :
    let r = notify_master_changed net majority 2 false false node 0 in
    (r.node.master ≡ some 2) × (r.success_count ≡ 3) × (majority 3 r.success_count ≡ true)
unfolding notify_master_changed notify_next_master notify_loop notify_pre_set notify_commit
    do_notify pre_set_master commit_master set_master
notify_master_changed-Done_example =
    notify_master_changed-Done net majority (λ s c. refl) 2 node 0 (tail (head refl)) refl

notify_loop_refused_example :
    notify_loop broken majority
      (notify_pre_set broken majority 2)
      3
      (1 ∷ 2 ∷ 3 ∷ [])
      0
      false
      (record node { next_master = some 3 })
      0
    ≡ notify_loop broken majority (notify_pre_set broken majority 2) 3 (3 ∷ []) 0 true node 1
notify_loop_refused_example =
    notify_loop_refused broken majority 2 3 3 0 1 (3 ∷ []) false
      (record node { next_master = some 3 }) 0 (omega arith) refl refl (omega arith)

abbrev entry : Detect
entry = record { cs = 3; next_time = 0 }

one_entry : WellFormed 3 (entry ∷ [])
one_entry = record { distinct = (tt, tt); fits = omega arith }

change-WellFormed_example : WellFormed 3 (change (1 ∷ 2 ∷ 3 ∷ []) (add 5 1) (entry ∷ []))
change-WellFormed_example =
    change-WellFormed (1 ∷ 2 ∷ 3 ∷ []) (add 5 1) (entry ∷ [])
      (((λ e. omega arith), ((λ e. omega arith), tt)), (((λ e. omega arith), tt), (tt, tt)))
      one_entry

is_inactive-change_example :
    (is_inactive 1 (add_to_inactive 5 3 1 (entry ∷ [])) ≡ (true || is_inactive 1 (entry ∷ [])))
    × (is_inactive 1 (remove_from_inactive 1 (entry ∷ []))
        ≡ (not true && is_inactive 1 (entry ∷ [])))
is_inactive-change_example = is_inactive-change 5 3 1 1 (entry ∷ []) one_entry (omega arith)

-- A master of which one other server has not been heard.
abbrev leading : Node
leading = record node { master = some 2; inactive = entry ∷ [] }

master_check-StepsDown_example : StepsDown leading (master_check net majority leading 9)
master_check-StepsDown_example =
    master_check-StepsDown net (λ s c e. ground arith) majority leading 9 refl

-- A clock that advances as long as a thread sleeps.
abbrev clock : Clock ℕ
clock = record { sleep = λ secs n s. (n, s + secs) }

clock-IsClock : IsClock net clock
clock-IsClock = record {
  sleeps = λ secs n s. omega arith;
  asks = λ s c. omega arith;
  myself = λ secs n s. refl;
  servers = λ secs n s. refl;
}

-- Two of the three servers answer, which is a majority, so that the election waits for the third
-- one until its time is over.
two_answer :
    (a b : Option ℕ) (l : List Detect) (t : Table) (closed : List ℕ) (s : ℕ)
    → (get_master net
        (record {
          servers = 1 ∷ 2 ∷ 3 ∷ [];
          myself = 2;
          master = a;
          next_master = b;
          inactive = l;
          table = t;
          closed = closed;
        })
        s).active_count
      ≡ 2
unfolding get_master poll get_server_status
two_answer a b l t closed s = refl

majority_answers :
    (n : Node) (s : ℕ)
    → n.myself ≡ 2
    → n.servers ≡ 1 ∷ 2 ∷ 3 ∷ []
    → (get_master net n s).status ≡ ok
    → majority (length n.servers) (get_master net n s).active_count ≡ true
majority_answers n s me all fine =
    subst (λ k. majority (length k.servers) (get_master net k s).active_count ≡ true)
      (ap₂ (λ l m. record n { servers = l; myself = m }) (sym all) (sym me))
      (rw (two_answer n.master n.next_master n.inactive n.table n.closed s) refl)

select_master-HasMaster_example :
    (r : Selected ℕ) × (select_master net clock majority 30 31 false false node 0 ≡ some r)
    × (r.status ≡ ok → (m : ℕ) × (r.node.master ≡ some m))
select_master-HasMaster_example =
    select_master-HasMaster net clock majority 30 (λ s c. refl) node 0 clock-IsClock
      majority_answers (tail (head refl))
