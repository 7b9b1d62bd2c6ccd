-- ===== src/Vote/Choice/Greatest.antt =====
-- The server that `cluster_get_master` chooses among those that answer.
use fast_cfs.Base.{
  insert, insert-All, qsort, qsort-All, qsort-Memᴰ, ℕ, pos, ◌-ℤ◌, ◌≤◌, ◌<◌, ◌≡◌, ◌⊎◌, ltb, inl, inr,
  refl, sym, leb_ℤ, true, false, none, some, err, enomem, List, [], ◌∷◌, Memᴰ, head, tail, All,
  All-map, All-member, All-from, Status, ok, Status-cases, Bool-cases, length, arith,
}
use fast_cfs.Vote.Election.{Node, Net, ServerStatus, myself_is_master}
use fast_cfs.Vote.Choice.{
  not_after, cmp_server_status, last, Polled, poll_result, choose, get_server_status, poll,
  get_master, with_room,
}

-- A master comes after a server that is none, and otherwise the greater id comes after.
pub record Below (a b : ServerStatus) : Type 0 where
  pub master : a.is_master ≡ true → b.is_master ≡ true
  pub id : a.is_master ≡ b.is_master → a.server_id ≤ b.server_id

sub_le : (a b : ℕ) → leb_ℤ (pos a -ℤ pos b) (pos 0) ≡ true → a ≤ b
unfolding ◌-ℤ◌
sub_le a b h = ground arith

sub_gt : (a b : ℕ) → leb_ℤ (pos a -ℤ pos b) (pos 0) ≡ false → b ≤ a
unfolding ◌-ℤ◌
sub_gt a b h = ground arith

cmp-Below : (a b : ServerStatus) → leb_ℤ (cmp_server_status a b) (pos 0) ≡ true → Below a b
unfolding cmp_server_status ◌-ℤ◌
cmp-Below a b h = record { master = λ e. ground arith; id = λ e. ground arith }

cmp-Above : (a b : ServerStatus) → leb_ℤ (cmp_server_status a b) (pos 0) ≡ false → Below b a
unfolding cmp_server_status ◌-ℤ◌
cmp-Above a b h = record { master = λ e. ground arith; id = λ e. ground arith }

Below-refl : (a : ServerStatus) → Below a a
Below-refl a = record { master = λ e. e; id = λ e. omega arith }

Below-trans : (a b c : ServerStatus) → Below a b → Below b c → Below a c
Below-trans a b c h k = record {
  master = λ e. k.master (h.master e);
  id = λ e. ground (arith, h.master, k.master, h.id, k.id);
}

abbrev AllBelow : List ServerStatus → ServerStatus → Type 0
AllBelow l b = All (λ a. Below a b) l

abbrev Sorted : List ServerStatus → Type 0
Sorted [] = Unit
Sorted (a ∷ rest) = All (Below a) rest × Sorted rest

insert-Sorted :
    (a : ServerStatus) (l : List ServerStatus) → Sorted l → Sorted (insert not_after a l)
unfolding insert
insert-Sorted a [] h = (tt, tt)
insert-Sorted a (b ∷ rest) h = elim (Bool-cases (leb_ℤ (cmp_server_status a b) (pos 0))) [
  | inl le ↦
      rw le
        ((cmp-Below a b le, All-map (λ x k. Below-trans a b x (cmp-Below a b le) k) rest h.0), h)
  | inr gt ↦
      rw gt (insert-All not_after (Below b) a rest (cmp-Above a b gt) h.0, insert-Sorted a rest h.1)
]

qsort-Sorted : (l : List ServerStatus) → Sorted (qsort not_after l)
unfolding qsort
qsort-Sorted [] = tt
qsort-Sorted (a ∷ rest) = insert-Sorted a (qsort not_after rest) (qsort-Sorted rest)

last-Below :
    (a : ServerStatus) (l : List ServerStatus) → Sorted (a ∷ l) → AllBelow (a ∷ l) (last a l)
unfolding last
last-Below a [] h = (Below-refl a, tt)
last-Below a (b ∷ rest) h =
    let k = last-Below b rest h.1 in (Below-trans a b (last b rest) h.0.0 k.0, k)

last-All :
    (P : ServerStatus → Type 0) (a : ServerStatus) (l : List ServerStatus)
    → P a
    → All P l
    → P (last a l)
unfolding last
last-All P a [] p h = p
last-All P a (b ∷ rest) p h = last-All P b rest h.0 h.1

Sorted-last : (a : ServerStatus) (l : List ServerStatus) → Sorted l → AllBelow l (last a l)
unfolding last
Sorted-last a [] h = tt
Sorted-last a (b ∷ rest) h = last-Below b rest h

-- One of the statuses, and the greatest of them.
pub record IsGreatest (l : List ServerStatus) (b : ServerStatus) : Type 0 where
  pub received : Memᴰ b l
  pub greatest : (x : ServerStatus) → Memᴰ x l → Below x b

chosen-IsGreatest :
    (a : ServerStatus) (rest : List ServerStatus)
    → IsGreatest (a ∷ rest) (last a (qsort not_after (a ∷ rest)))
chosen-IsGreatest a rest =
    let l = a ∷ rest in
    record {
      received =
          last-All (λ x. Memᴰ x l) a (qsort not_after l) (head refl)
            (qsort-All not_after (λ x. Memᴰ x l) l (All-from (λ x. Memᴰ x l) l (λ x m. m)));
      greatest = λ x m.
          All-member (λ y. Below y (last a (qsort not_after l))) x (qsort not_after l)
            (Sorted-last a (qsort not_after l) (qsort-Sorted l)) (qsort-Memᴰ not_after x l m);
    }

module _ {S : Type 0} (net : Net S) where
  -- The status that a node has of itself.
  abbrev pub own : Node → ServerStatus
  own n = record { cs = n.myself; is_master = myself_is_master n; server_id = n.myself }

  get_server_status-own :
      (n : Node) (s : S) (c : ℕ) → c ≡ n.myself → get_server_status net n s c ≡ (ok, own n, s)
  unfolding get_server_status
  get_server_status-own n s c e = ground arith

  poll-own :
      (n : Node) (cs : List ℕ) (s : S) (old : Status)
      → Memᴰ n.myself cs
      → Memᴰ (own n) (poll net n cs s old).statuses
  unfolding poll
  poll-own n [] s old mem = elim mem [ ]
  poll-own n (c ∷ cs) s old (head e) = rw (get_server_status-own n s c (sym e)) (head refl)
  poll-own n (c ∷ cs) s old (tail mem) =
      let (r, x, s') = get_server_status net n s c in
      let rest = poll-own n cs s' (poll_result r old) mem in
      elim (Status-cases r) [ inl good ↦ rw good (tail rest) | inr bad ↦ rw bad rest ]

  choose-IsGreatest :
      (p : Polled S) (l : List ServerStatus) (x : ServerStatus)
      → Memᴰ x l
      → (b : ServerStatus) × ((choose p l).status ≡ ok)
        × ((choose p l).server ≡ some b)
        × ((choose p l).active_count ≡ length l)
        × IsGreatest l b
  unfolding choose
  choose-IsGreatest p [] x m = elim m [ ]
  choose-IsGreatest p (a ∷ rest) x m = (_, refl, refl, refl, chosen-IsGreatest a rest)

  -- A node that is in its own list of servers, with fewer than 8 of them or with memory for their
  -- statuses, always finds a master to choose: a server that has answered, after which no other
  -- server that has answered comes, where a server that is master comes after those that are not,
  -- and otherwise a greater id comes after. It counts the servers that have answered, itself
  -- among them. With 8 servers or more and no memory it fails with ENOMEM and asks none of them.
  pub get_master-IsGreatest :
      (n : Node) (s : S)
      → Memᴰ n.myself n.servers
      → let l = (poll net n n.servers s ok).statuses in
        let c = get_master net n s in
        (((length n.servers < 8) ⊎ (net.malloc s ≡ true))
          × ((b : ServerStatus) × (c.status ≡ ok)
              × (c.server ≡ some b)
              × (c.active_count ≡ length l)
              × Memᴰ (own n) l
              × IsGreatest l b))
        ⊎ ((8 ≤ length n.servers)
            × (net.malloc s ≡ false)
            × (c.status ≡ err enomem)
            × (c.server ≡ none)
            × (c.ext ≡ s))
  unfolding get_master with_room
  get_master-IsGreatest n s mem =
      let m = poll-own n n.servers s ok mem in
      let (b, fine, e, count, great) = choose-IsGreatest (poll net n n.servers s ok) _ (own n) m in
      elim (Bool-cases (ltb (length n.servers) 8)) [
        | inl few ↦ simp few (inl (inl (ground arith), (b, fine, e, count, m, great)))
        | inr many ↦ elim (Bool-cases (net.malloc s)) [
          | inl got ↦ simp (many, got) (inl (inr refl, (b, fine, e, count, m, great)))
          | inr full ↦ simp (many, full) (inr (ground arith, refl, refl, refl, refl))
        ]
      ]
