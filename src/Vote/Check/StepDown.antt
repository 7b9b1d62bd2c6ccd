-- ===== src/Vote/Check/StepDown.antt =====
-- A master whose check fails gives up being the master.
use fast_cfs.Base.{
  ℕ, ◌-◌, ◌≡◌, ◌≢◌, refl, sym, subst, Bool, true, false, none, List, [], ◌∷◌, ◌++◌, Status, ok, err,
  eexist, is_ok, is_ok→ok, Status-cases, Bool-cases, inl, inr, arith, if◌then◌else◌, ltb, ◌==◌,
  length,
}
use fast_cfs.Vote.Groups.{clear_tasks}
use fast_cfs.Vote.Election.{Node, Net, Detect, myself_is_master, trigger_reselect_master}
use fast_cfs.Vote.Choice.{get_server_status}
use fast_cfs.Vote.Check.{
  Checked, do_check_brainsplit, is_eexist, check_brainsplit, check_quorum, master_check,
}

-- The master of `n` has been given up, and the tasks of the groups told to close.
pub record GaveUp (n n' : Node) : Type 0 where
  pub no_master : n'.master ≡ none
  pub closed : n'.closed ≡ n.closed ++ clear_tasks n.table
  pub same_table : n'.table ≡ n.table

trigger-GaveUp : (n : Node) → myself_is_master n ≡ true → GaveUp n (trigger_reselect_master n)
unfolding trigger_reselect_master
trigger-GaveUp n h = record {
  no_master = ground arith;
  closed = ground arith;
  same_table = ground arith;
}

trigger_inactive-GaveUp :
    (n : Node) (l : List Detect)
    → myself_is_master n ≡ true
    → GaveUp n (trigger_reselect_master (record n { inactive = l }))
trigger_inactive-GaveUp n l m =
    let g = trigger-GaveUp (record n { inactive = l }) m in
    record { no_master = g.no_master; closed = g.closed; same_table = g.same_table }

inactive-GaveUp :
    (n n' : Node) (l : List Detect) → GaveUp n n' → GaveUp n (record n' { inactive = l })
inactive-GaveUp n n' l g = record {
  no_master = g.no_master;
  closed = g.closed;
  same_table = g.same_table;
}

-- A success keeps the master, and a failure gives it up.
pub record StepsDown {S : Type 0} (n : Node) (r : Status × Node × S) : Type 0 where
  pub stays : r.0 ≡ ok → r.1.master ≡ n.master
  pub gives_up : r.0 ≢ ok → GaveUp n r.1

module _ {S : Type 0} (net : Net S) where
  -- The outcome of the search: no second master and nothing changed, or the master given up.
  record Searched (n : Node) (c : Checked S) : Type 0 where
    clear : c.status ≡ ok → c.node ≡ n
    split : c.status ≢ ok → GaveUp n c.node

  do_check_brainsplit-clear :
      (n : Node) (s : S) (c : ℕ)
      → is_eexist net (do_check_brainsplit net n s c).0 ≡ false
      → (do_check_brainsplit net n s c).1 ≡ n
  unfolding do_check_brainsplit
  do_check_brainsplit-clear n s c h = ground arith

  module _ (no_eexist : (s : S) (c : ℕ) → (net.server_status s c).0 ≢ err eexist) where
    get_server_status-ne : (n : Node) (s : S) (c : ℕ) → (get_server_status net n s c).0 ≢ err eexist
    unfolding get_server_status
    get_server_status-ne n s c e = ground (arith, no_eexist s c)

    do_check_brainsplit-split :
        (n : Node) (s : S) (c : ℕ)
        → is_eexist net (do_check_brainsplit net n s c).0 ≡ true
        → (do_check_brainsplit net n s c).1 ≡ trigger_reselect_master n
    unfolding do_check_brainsplit
    do_check_brainsplit-split n s c h = ground (arith, get_server_status-ne n s c)

    check_brainsplit-Searched :
        (n : Node) (s : S) (count : ℕ) (l : List Detect)
        → myself_is_master n ≡ true
        → Searched n (check_brainsplit net n s count l)
    unfolding check_brainsplit
    check_brainsplit-Searched n s count [] m = record {
      clear = λ e. refl;
      split = λ ne. absurd (ne refl);
    }
    check_brainsplit-Searched n s count (d ∷ ds) m =
        let (r, n', s') = do_check_brainsplit net n s d.cs in
        elim (Bool-cases (ltb (net.now s) d.next_time)) [
          | inl early ↦
              let w = check_brainsplit-Searched n s count ds m in
              rw early (record { clear = w.clear; split = w.split })
          | inr due ↦ elim (Bool-cases (is_eexist net r)) [
            | inl second ↦
                rw (due, second)
                  (record {
                    clear = λ e. absurd (ground arith);
                    split = λ ne.
                        subst (GaveUp n) (sym (do_check_brainsplit-split n s d.cs second))
                          (trigger-GaveUp n m);
                  })
            | inr alone ↦
                let same = do_check_brainsplit-clear n s d.cs alone in
                let w =
                  check_brainsplit-Searched n s' (if is_ok r then count - 1 else count) ds m in
                rw (due, alone, same) (record { clear = w.clear; split = w.split })
          ]
        ]

    check_quorum-StepsDown :
        (quorum : ℕ → ℕ → Bool) (n : Node) (total : ℕ) (c : Checked S)
        → myself_is_master n ≡ true
        → Searched n c
        → StepsDown n (check_quorum net quorum total c)
    unfolding check_quorum
    check_quorum-StepsDown quorum n total c m w = elim (Status-cases c.status) [
      | inr bad ↦ rw bad (record {
        stays = λ e. absurd (ground arith);
        gives_up = λ ne. inactive-GaveUp n c.node c.entries (w.split ne);
      })
      | inl good ↦
          let same = w.clear (is_ok→ok c.status good) in
          elim (Bool-cases (quorum total (total - c.inactive_count))) [
            | inl many ↦
                rw (good, many, same)
                  (record { stays = λ e. refl; gives_up = λ ne. absurd (ne refl) })
            | inr few ↦
                rw (good, few, same)
                  (record {
                    stays = λ e. absurd (ground arith);
                    gives_up = λ ne. trigger_inactive-GaveUp n c.entries m;
                  })
          ]
    ]

    -- The check of a master, where no request for a status is answered with EEXIST: if it succeeds
    -- the node has the master that it had; if it fails, the node has no master any more, and the
    -- tasks of all groups of the table have been told to close.
    pub master_check-StepsDown :
        (quorum : ℕ → ℕ → Bool) (n : Node) (s : S)
        → myself_is_master n ≡ true
        → StepsDown n (master_check net quorum n s)
    unfolding master_check
    master_check-StepsDown quorum n s m = elim (Bool-cases (length n.inactive == 0)) [
      | inl nobody ↦ rw nobody (record { stays = λ e. refl; gives_up = λ ne. absurd (ne refl) })
      | inr some_inactive ↦ rw some_inactive (
          check_quorum-StepsDown quorum n (length n.servers) _ m
            (check_brainsplit-Searched n s (length n.inactive) n.inactive m))
    ]
