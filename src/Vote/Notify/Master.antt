-- ===== src/Vote/Notify/Master.antt =====
-- What the two rounds of an election leave in the node that runs them.
use fast_cfs.Base.{
  Memᴰ, head, tail, sym, subst, ◌+◌, ℕ, suc, ◌≡◌, refl, ◌⊎◌, inl, inr, ap, Bool, true, false, some,
  List, [], ◌∷◌, ok, is_ok, is_ok→ok, Status-cases, arith, length,
}
use fast_cfs.Vote.Election.{Node, Net, pre_set_master, set_master, commit_master}
use fast_cfs.Vote.Notify.{
  Told, Round, do_notify, notify_pre_set, notify_commit, notify_loop, notify_next_master,
  notify_master_changed,
}

-- The node and the servers that it knows.
abbrev Kept : ℕ → List ℕ → Node → Type 0
Kept me all n = (n.myself ≡ me) × (n.servers ≡ all)

-- A notification that, when it succeeds at the node itself, makes `P` hold of the node, and
-- whose success never ends it; without failures to connect.
record Marks {S : Type 0} (me : ℕ) (all : List ℕ) (P : Node → Type 0)
    (f : Node → S → Bool → ℕ → Told S) : Type 0 where
  self :
      (n : Node) (s : S) (c : ℕ)
      → Kept me all n
      → c ≡ me
      → is_ok (f n s false c).status ≡ true
      → P (f n s false c).node
  keeps :
      (n : Node) (s : S) (c : ℕ)
      → Kept me all n
      → P n
      → is_ok (f n s false c).status ≡ true
      → P (f n s false c).node
  stays : (n : Node) (s : S) (c : ℕ) → Kept me all n → Kept me all (f n s false c).node
  connects : (n : Node) (s : S) (c : ℕ) → (f n s false c).connect_fail ≡ false

-- What a successful round leaves: all of the `k` servers left have accepted.
record Done {S : Type 0} (me : ℕ) (all : List ℕ) (P : Node → Type 0) (quorum : ℕ → ℕ → Bool)
    (total n : ℕ) (r : Round S) : Type 0 where
  kept : Kept me all r.node
  marked : P r.node
  count : r.success_count ≡ n
  agreed : quorum total r.success_count ≡ true

after_one :
    {S : Type 0} {me : ℕ} {all : List ℕ} {P : Node → Type 0} {f : Node → S → Bool → ℕ → Told S}
    → Marks me all P f
    → (n : Node) (s : S) (c : ℕ) (cs : List ℕ) → Kept me all n
    → P n ⊎ Memᴰ me (c ∷ cs)
    → is_ok (f n s false c).status ≡ true
    → P (f n s false c).node ⊎ Memᴰ me cs
after_one k n s c cs e (inl p) good = inl (k.keeps n s c e p good)
after_one k n s c cs e (inr (head eq)) good = inl (k.self n s c e (sym eq) good)
after_one k n s c cs e (inr (tail mem)) good = inr mem

marked_at_end : {P : Type 0} {me : ℕ} → P ⊎ Memᴰ me [] → P
marked_at_end (inl p) = p
marked_at_end (inr none_left) = elim none_left [ ]

module _ {S : Type 0} (net : Net S) (quorum : ℕ → ℕ → Bool) where
  notify_loop-Done :
      {me : ℕ} {all : List ℕ} {P : Node → Type 0} {f : Node → S → Bool → ℕ → Told S}
      → Marks me all P f
      → (total : ℕ) (cs : List ℕ) (count : ℕ) (n : Node) (s : S) → Kept me all n
      → P n ⊎ Memᴰ me cs
      → (notify_loop net quorum f total cs count false n s).status ≡ ok
      → Done me all P quorum total
          (count + length cs)
          (notify_loop net quorum f total cs count false n s)
  unfolding notify_loop
  notify_loop-Done k total [] count n s e at = λ fine. record {
    kept = e;
    marked = marked_at_end at;
    count = omega arith;
    agreed = ground arith;
  }
  notify_loop-Done {me = me} {all = all} {P = P} {f = f} k total (c ∷ cs) count n s e at =
      let t = f n s false c in
      elim (Status-cases t.status) [
        | inl good ↦
            rw (good, k.connects n s c)
              (λ fine.
                let d =
                  notify_loop-Done k total cs (suc count) t.node t.ext (k.stays n s c e)
                    (after_one k n s c cs e at good) fine in
                subst
                  (λ x.
                    Done me all P quorum total x
                      (notify_loop net quorum f total cs (suc count) false t.node t.ext))
                  (omega arith) d)
        | inr bad ↦ rw (bad, k.connects n s c) (λ fine. absurd (ground arith))
      ]

  module _ (connects : (s : S) (c : ℕ) → is_ok (net.connect s c).0 ≡ true) where
    notify_pre_set-Marks :
        (m me : ℕ) (all : List ℕ)
        → Marks me all (λ n. n.next_master ≡ some m) (notify_pre_set net quorum m)
    unfolding notify_pre_set do_notify pre_set_master
    notify_pre_set-Marks m me all = record {
      self = λ n s c e eq good. ground arith;
      keeps = λ n s c e p good. ground arith;
      stays = λ n s c e. ground arith;
      connects = λ n s c. ground (arith, connects s c);
    }

    notify_commit-Marks :
        (m me : ℕ) (all : List ℕ)
        → Marks me all (λ n. n.master ≡ some m) (notify_commit net quorum m)
    unfolding notify_commit do_notify commit_master set_master
    notify_commit-Marks m me all = record {
      self = λ n s c e eq good. ground arith;
      keeps = λ n s c e p good. ground arith;
      stays = λ n s c e. ground arith;
      connects = λ n s c. ground (arith, connects s c);
    }

    second_round :
        (m me : ℕ) (n : Node) (s : S) (all : List ℕ)
        → Memᴰ me all
        → Kept me all n
        → let r = notify_next_master net quorum (notify_commit net quorum m) false n s in
          r.status ≡ ok
          → (r.node.master ≡ some m)
            × (r.success_count ≡ length all)
            × (quorum (length all) r.success_count ≡ true)
    unfolding notify_next_master
    second_round m me n s all mem kept fine =
        let d =
          notify_loop-Done (notify_commit-Marks m me all) (length n.servers) n.servers 0 n s kept
            (inr (subst (Memᴰ me) (sym kept.1) mem)) fine in
        (
          d.marked,
          omega (arith, d.count, ap length kept.1),
          subst
              (λ l.
                quorum (length l)
                  (notify_next_master net quorum (notify_commit net quorum m) false n
                    s).success_count
                ≡ true)
              kept.1 d.agreed,
        )

    -- If an election over a list of servers that contains the node itself succeeds, where every
    -- connection is made and the flag of a failed one is not set at the start of either round, the
    -- candidate is the node's master; all servers have accepted, and they are a quorum.
    pub notify_master_changed-Done :
        (m : ℕ) (n : Node) (s : S)
        → Memᴰ n.myself n.servers
        → let r = notify_master_changed net quorum m false false n s in
          r.status ≡ ok
          → (r.node.master ≡ some m)
            × (r.success_count ≡ length n.servers)
            × (quorum (length n.servers) r.success_count ≡ true)
    unfolding notify_master_changed notify_next_master
    notify_master_changed-Done m n s mem =
        let k = notify_pre_set-Marks m n.myself n.servers in
        let a = notify_next_master net quorum (notify_pre_set net quorum m) false n s in
        elim (Status-cases a.status) [
          | inr bad ↦ rw bad (λ fine. absurd (ground arith))
          | inl good ↦
              let d =
                notify_loop-Done k (length n.servers) n.servers 0 n s (refl, refl) (inr mem)
                  (is_ok→ok a.status good) in
              let b =
                notify_next_master net quorum (notify_commit net quorum m) false a.node a.ext in
              let agreed = second_round m n.myself a.node a.ext n.servers mem d.kept in
              elim (Status-cases b.status) [
                | inl good' ↦ rw (good, good') (λ fine. agreed (is_ok→ok b.status good'))
                | inr bad ↦ rw (good, bad) (λ fine. absurd (ground arith))
              ]
        ]
