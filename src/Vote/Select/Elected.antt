-- ===== src/Vote/Select/Elected.antt =====
-- When and with what `cluster_select_master` returns.
use fast_cfs.Base.{
  ℕ, suc, ◌≡◌, inl, inr, refl, Bool, true, false, some, Memᴰ, ok, is_ok, Bool-cases, arith, ◌==◌,
}
use fast_cfs.Vote.Election.{Node, Net, set_master, is_server}
use fast_cfs.Vote.Notify.Master.{notify_master_changed-Done}
use fast_cfs.Vote.Select.{
  Clock, Exit, failed, has_master, elected, Selected, finish_select, select_master,
}
use fast_cfs.Vote.Select.Rounds.{IsClock, HasMaster, Leaves, AlwaysQuorum, select_loop-Leaves}

module _ {S : Type 0} (net : Net S) (clock : Clock S) (quorum : ℕ → ℕ → Bool)
    (max_wait_time : ℕ) where
  module _ (connects : (s : S) (c : ℕ) → is_ok (net.connect s c).0 ≡ true) where
    set_master-HasMaster : (m : ℕ) (n : Node) → HasMaster (set_master m n)
    unfolding set_master
    set_master-HasMaster m n = elim (Bool-cases (is_server n.master m)) [
      | inl same ↦ rw same (m, ground arith)
      | inr other ↦ rw other (m, refl)
    ]

    finish_select-HasMaster :
        (n : Node) (s : S) (e : Exit)
        → Leaves e n
        → (finish_select net clock quorum max_wait_time false false n s e).status ≡ ok
        → HasMaster (finish_select net clock quorum max_wait_time false false n s e).node
    unfolding finish_select
    finish_select-HasMaster n s (failed r) bad = λ fine. absurd (bad fine)
    finish_select-HasMaster n s has_master there = λ fine. there
    finish_select-HasMaster n s (elected x) mem = elim (Bool-cases (x.cs == n.myself)) [
      | inl me ↦
          simp me
            (λ fine. (x.cs, (notify_master_changed-Done net quorum connects x.cs n s mem fine).0))
      | inr other ↦ elim (Bool-cases x.is_master) [
        | inl master ↦ simp (other, master) (λ fine. set_master-HasMaster x.cs n)
        | inr candidate ↦ simp (other, candidate) (λ fine. cc)
      ]
    ]

    -- If the clock is as `IsClock` says and enough of its servers for a quorum answer each time that
    -- the node asks them, an election by a node in its list of servers ends within as many rounds as the longest time to
    -- wait has seconds and one more; and if every connection is made and the flags of a failed one
    -- are not set at the start, the node has a master when it returns 0.
    pub select_master-HasMaster :
        (n : Node) (s : S)
        → IsClock net clock
        → AlwaysQuorum net clock quorum max_wait_time n
        → Memᴰ n.myself n.servers
        → (r : Selected S) × (select_master net clock quorum max_wait_time
              (suc max_wait_time)
              false
              false
              n
              s
            ≡ some r)
          × (r.status ≡ ok → HasMaster r.node)
    unfolding select_master
    select_master-HasMaster n s laws enough mem =
        let (l, e, right) =
          select_loop-Leaves net clock quorum max_wait_time laws n enough (net.now s)
            (suc max_wait_time) 0 1 n s refl refl mem (omega arith) (omega arith) (omega arith) in
        (
          finish_select net clock quorum max_wait_time false false l.node l.ext l.exit,
          simp e refl,
          finish_select-HasMaster l.node l.ext l.exit right,
        )
