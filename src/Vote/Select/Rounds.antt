-- ===== src/Vote/Select/Rounds.antt =====
-- The rounds of the loop of `cluster_select_master`, and how it is left.
use fast_cfs.Base.{
  ℕ, zero, suc, ◌+◌, ◌-◌, ◌≤◌, ◌<◌, ◌≡◌, ◌≢◌, inl, inr, refl, ◌∙◌, sym, subst, subst₂, Bool, true,
  false, Option, none, some, List, [], ◌∷◌, Memᴰ, Status, ok, Status-cases, Bool-cases, arith, ◌==◌,
  length,
}
use fast_cfs.Vote.Election.{Node, Net, ServerStatus}
use fast_cfs.Vote.Choice.{
  Chosen, Polled, choose, poll_result, poll, get_server_status, get_master, with_room,
}
use fast_cfs.Vote.Select.{
  Clock, Exit, failed, has_master, elected, Left, Outcome, leave, pause, after_test, after_poll,
  proceed, sleep_time, next_max_sleep, round, select_loop,
}

-- What is relied on of the time and of the other threads: neither a sleep nor a request turns the
-- clock back, a sleep lasts as long as it was asked to, and the servers stay.
pub record IsClock {S : Type 0} (net : Net S) (clock : Clock S) : Type 0 where
  pub sleeps : (secs : ℕ) (n : Node) (s : S) → net.now s + secs ≤ net.now (clock.sleep secs n s).1
  pub asks : (s : S) (c : ℕ) → net.now s ≤ net.now (net.server_status s c).2
  pub myself : (secs : ℕ) (n : Node) (s : S) → (clock.sleep secs n s).0.myself ≡ n.myself
  pub servers : (secs : ℕ) (n : Node) (s : S) → (clock.sleep secs n s).0.servers ≡ n.servers

abbrev pub HasMaster : Node → Type 0
HasMaster n = (m : ℕ) × (n.master ≡ some m)

-- What holds when the loop is left.
abbrev pub Leaves : Exit → Node → Type 0
Leaves (failed r) n = r ≢ ok
Leaves has_master n = HasMaster n
Leaves (elected x) n = Memᴰ n.myself n.servers

choose-failed :
    {S : Type 0} (p : Polled S) (l : List ServerStatus)
    → (choose p l).server ≡ none
    → (choose p l).status ≢ ok
unfolding choose
choose-failed p [] e h = ground arith
choose-failed p (a ∷ l) e h = cc

module _ {S : Type 0} (net : Net S) (clock : Clock S) (quorum : ℕ → ℕ → Bool)
    (max_wait_time : ℕ) where
  next_max_sleep-pos :
      (agreed : Bool) (i k : ℕ)
      → 0 < k
      → 0 < next_max_sleep net clock quorum max_wait_time agreed i k
  unfolding next_max_sleep
  next_max_sleep-pos agreed i k lt = ground arith

  get_server_status-now :
      (laws : IsClock net clock) (n : Node) (s : S) (c : ℕ)
      → net.now s ≤ net.now (get_server_status net n s c).2
  unfolding get_server_status
  get_server_status-now laws n s c = elim (Bool-cases (c == n.myself)) [
    | inl own ↦ rw own (omega arith)
    | inr other ↦ rw other (laws.asks s c)
  ]

  poll-now :
      (laws : IsClock net clock) (n : Node) (cs : List ℕ) (s : S) (old : Status)
      → net.now s ≤ net.now (poll net n cs s old).ext
  unfolding poll
  poll-now laws n [] s old = omega arith
  poll-now laws n (c ∷ cs) s old =
      let (r, x, s') = get_server_status net n s c in
      let first = get_server_status-now laws n s c in
      let rest = poll-now laws n cs s' (poll_result r old) in
      elim (Status-cases r) [
        | inl good ↦ rw good (omega (arith, first, rest))
        | inr bad ↦ rw bad (omega (arith, first, rest))
      ]

  choose-ext : (p : Polled S) (l : List ServerStatus) → (choose p l).ext ≡ p.ext
  unfolding choose
  choose-ext p [] = refl
  choose-ext p (a ∷ l) = refl

  with_room-failed :
      (b : Bool) (s : S) (p : Polled S)
      → (with_room b s p).server ≡ none
      → (with_room b s p).status ≢ ok
  unfolding with_room
  with_room-failed true s p e = choose-failed p p.statuses e
  with_room-failed false s p e = λ h. cc

  with_room-now :
      (b : Bool) (s : S) (p : Polled S)
      → net.now s ≤ net.now p.ext
      → net.now s ≤ net.now (with_room b s p).ext
  unfolding with_room
  with_room-now true s p le = subst (λ x. net.now s ≤ net.now x) (sym (choose-ext p p.statuses)) le
  with_room-now false s p le = omega arith

  choose-chosen :
      (p : Polled S) (l : List ServerStatus) (x : ServerStatus)
      → (choose p l).server ≡ some x
      → (choose p l).status ≡ ok
  unfolding choose
  choose-chosen p [] x e = cc
  choose-chosen p (a ∷ l) x e = refl

  with_room-chosen :
      (b : Bool) (s : S) (p : Polled S) (x : ServerStatus)
      → (with_room b s p).server ≡ some x
      → (with_room b s p).status ≡ ok
  unfolding with_room
  with_room-chosen true s p x e = choose-chosen p p.statuses x e
  with_room-chosen false s p x e = cc

  get_master-chosen :
      (n : Node) (s : S) (x : ServerStatus)
      → (get_master net n s).server ≡ some x
      → (get_master net n s).status ≡ ok
  unfolding get_master
  get_master-chosen n s x e = with_room-chosen _ s (poll net n n.servers s ok) x e

  get_master-failed :
      (n : Node) (s : S) → (get_master net n s).server ≡ none → (get_master net n s).status ≢ ok
  unfolding get_master
  get_master-failed n s e = with_room-failed _ s (poll net n n.servers s ok) e

  get_master-now :
      (laws : IsClock net clock) (n : Node) (s : S) → net.now s ≤ net.now (get_master net n s).ext
  unfolding get_master
  get_master-now laws n s =
      with_room-now _ s (poll net n n.servers s ok) (poll-now laws n n.servers s ok)

  sleep_time-less :
      (total active elapsed k secs : ℕ) (m : Bool)
      → quorum total active ≡ true
      → 0 < k
      → sleep_time net clock quorum max_wait_time total active m elapsed k ≡ some secs
      → (elapsed < max_wait_time) × (0 < secs)
  unfolding sleep_time
  sleep_time-less total active elapsed k secs m q lt e = ground arith

  -- Each time that the node asks its servers, enough of them answer, unless there is no memory
  -- for their statuses.
  abbrev pub AlwaysQuorum : Node → Type 0
  AlwaysQuorum start =
      (n : Node) (s : S)
      → n.myself ≡ start.myself
      → n.servers ≡ start.servers
      → (get_master net n s).status ≡ ok
      → quorum (length n.servers) (get_master net n s).active_count ≡ true

  -- A round leaves the loop rightly, or sleeps for a while before the time is over.
  data Goes (start_time : ℕ) (n : Node) (s : S) (o : Outcome S) : Type 0 where
    leaves : (e : Exit) (s' : S) → o ≡ leave e s' → Leaves e n → Goes start_time n s o
    pauses :
        (secs : ℕ) (s' : S)
        → o ≡ pause secs s'
        → net.now s ≤ net.now s'
        → net.now s' - start_time < max_wait_time
        → 0 < secs
        → Goes start_time n s o

  after_test-Goes :
      (start_time active k : ℕ) (n : Node) (s s' : S) (x : ServerStatus) (t : Option ℕ)
      → quorum (length n.servers) active ≡ true
      → 0 < k
      → Memᴰ n.myself n.servers
      → net.now s ≤ net.now s'
      → sleep_time net clock quorum max_wait_time
          (length n.servers)
          active
          x.is_master
          (net.now s' - start_time)
          k
        ≡ t
      → Goes start_time n s (after_test net clock quorum max_wait_time s' x t)
  unfolding after_test
  after_test-Goes start_time active k n s s' x none q lt mem le e = leaves (elected x) s' refl mem
  after_test-Goes start_time active k n s s' x (some secs) q lt mem le e =
      let h =
        sleep_time-less (length n.servers) active (net.now s' - start_time) k secs x.is_master q lt
          e in
      pauses secs s' refl le h.0 h.1

  after_poll-Goes :
      (start_time k : ℕ) (n : Node) (s : S) (c : Chosen S) (b : Option ServerStatus)
      → ((x : ServerStatus) → b ≡ some x → quorum (length n.servers) c.active_count ≡ true)
      → 0 < k
      → Memᴰ n.myself n.servers
      → net.now s ≤ net.now c.ext
      → (b ≡ none → c.status ≢ ok)
      → Goes start_time n s (after_poll net clock quorum max_wait_time start_time k n c b)
  unfolding after_poll
  after_poll-Goes start_time k n s c none q lt mem le bad =
      leaves (failed c.status) c.ext refl (bad refl)
  after_poll-Goes start_time k n s c (some x) q lt mem le bad =
      after_test-Goes start_time c.active_count k n s c.ext x _ (q x refl) lt mem le refl

  round-Goes :
      (laws : IsClock net clock) (start : Node) (enough : AlwaysQuorum start) (start_time k : ℕ)
      (n : Node) (s : S) (m : Option ℕ)
      → n.myself ≡ start.myself
      → n.servers ≡ start.servers
      → n.master ≡ m
      → 0 < k
      → Memᴰ n.myself n.servers
      → Goes start_time n s (round net clock quorum max_wait_time start_time k n s m)
  unfolding round
  round-Goes laws start enough start_time k n s none me all e lt mem =
      after_poll-Goes start_time k n s (get_master net n s) (get_master net n s).server
        (λ x h. enough n s me all (get_master-chosen n s x h)) lt mem (get_master-now laws n s)
        (get_master-failed n s)
  round-Goes laws start enough start_time k n s (some m) me all e lt mem =
      leaves has_master s refl (m, e)

  pub select_loop-Leaves :
      (laws : IsClock net clock) (start : Node) (enough : AlwaysQuorum start)
      (start_time fuel i k : ℕ) (n : Node) (s : S)
      → n.myself ≡ start.myself
      → n.servers ≡ start.servers
      → Memᴰ n.myself n.servers
      → 0 < k
      → start_time ≤ net.now s
      → max_wait_time - (net.now s - start_time) < fuel
      → (l : Left S) × (select_loop net clock quorum max_wait_time start_time fuel i k n s ≡ some l)
        × Leaves l.exit l.node
  unfolding select_loop proceed
  select_loop-Leaves laws start enough start_time zero i k n s me all mem pos_k from lt =
      absurd (omega arith)
  select_loop-Leaves laws start enough start_time (suc fuel) i k n s me all mem pos_k from lt =
      elim (round-Goes laws start enough start_time k n s n.master me all refl pos_k mem) [
        | leaves e s' eq ok_exit ↦ (record { exit = e; node = n; ext = s' }, simp eq refl, ok_exit)
        | pauses secs s' eq le early some_time ↦
            let agreed = quorum (length n.servers) (get_master net n s).active_count in
            let n' = (clock.sleep secs n s').0 in
            let (l, e, right) =
              select_loop-Leaves laws start enough start_time fuel (i + 1) _ n'
                (clock.sleep secs n s').1 (laws.myself secs n s' ∙ me)
                (laws.servers secs n s' ∙ all)
                (subst₂ Memᴰ (sym (laws.myself secs n s')) (sym (laws.servers secs n s')) mem)
                (next_max_sleep-pos agreed (i + 1) k pos_k) (omega (arith, laws.sleeps secs n s'))
                (omega (arith, laws.sleeps secs n s')) in
            (l, simp eq e, right)
      ]
