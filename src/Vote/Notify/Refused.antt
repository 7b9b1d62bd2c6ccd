-- ===== src/Vote/Notify/Refused.antt =====
-- A refusal of the candidate by the node that runs the election itself.
use fast_cfs.Base.{
  ℕ, ◌≡◌, refl, ◌≢◌, Bool, true, false, none, some, List, ◌∷◌, err, is_ok, arith, eexist,
}
use fast_cfs.Vote.Election.{Node, Net, pre_set_master}
use fast_cfs.Vote.Notify.{do_notify, notify_pre_set, notify_loop}

module _ {S : Type 0} (net : Net S) (quorum : ℕ → ℕ → Bool) where
  notify_pre_set_lost :
      (m c : ℕ) (fail : Bool) (n : Node) (s : S)
      → c ≢ n.myself
      → is_ok (net.connect s c).0 ≡ false
      → notify_pre_set net quorum m n s fail c ≡ record {
        status = (net.connect s c).0;
        connect_fail = true;
        node = n;
        ext = (net.connect s c).1;
      }
  unfolding notify_pre_set do_notify
  notify_pre_set_lost m c fail n s other lost = ground arith

  notify_pre_set_refused :
      (m a : ℕ) (n : Node) (s : S)
      → n.next_master ≡ some a
      → a ≢ m
      → notify_pre_set net quorum m n s true n.myself ≡ record {
        status = err eexist;
        connect_fail = true;
        node = record n { next_master = none };
        ext = s;
      }
  unfolding notify_pre_set pre_set_master
  notify_pre_set_refused m a n s next ne = ground arith

  -- After a failed connection to another server just before the node in the list, the node's own
  -- refusal of the candidate, since another one is to be its next master, is taken for a failed
  -- connection: the first round goes on with the servers after it, and the node forgets its next
  -- master.
  pub notify_loop_refused :
      (m a total count c : ℕ) (rest : List ℕ) (fail : Bool) (n : Node) (s : S)
      → c ≢ n.myself
      → is_ok (net.connect s c).0 ≡ false
      → n.next_master ≡ some a
      → a ≢ m
      → notify_loop net quorum
          (notify_pre_set net quorum m)
          total
          (c ∷ n.myself ∷ rest)
          count
          fail
          n
          s
        ≡ notify_loop net quorum
            (notify_pre_set net quorum m)
            total
            rest
            count
            true
            (record n { next_master = none })
            (net.connect s c).1
  unfolding notify_loop
  notify_loop_refused m a total count c rest fail n s other lost next ne =
      rw
        (
          notify_pre_set_lost m c fail n s other lost,
          lost,
          notify_pre_set_refused m a n (net.connect s c).1 next ne,
        )
        refl
