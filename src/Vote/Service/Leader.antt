-- ===== src/Vote/Service/Leader.antt =====
-- How the leader of a group changes.
use fast_cfs.Base.{
  ℕ, ◌≡◌, ◌⊎◌, ◌↔◌, ◌≢◌, refl, ◌∙◌, subst, pos_part, Bool, true, false, Option, none, some, Status,
  ok, err, not_master, leader_inconsistent, Option-cases, inl, inr, arith, if◌then◌else◌,
}
use fast_cfs.Vote.Groups.{Group, Table, hash_code_of, lookup, modify_group, enter, new_group, get}
use fast_cfs.Vote.Groups.Lookup.{KeepsHash, lookup-hash, lookup-modify_group, after_get, lookup-get}
use fast_cfs.Vote.Service.{
  Server, JoinReq, Reply, Event, join, set_next, commit_next, check, vote, unknown, finish, reply,
  client_join, next_leader, change, for_member, at_group, is_leader_still, leave, leave_group, step,
  leader_of_request,
}

-- The leader of a group, 0 for none and for a group that was never made.
abbrev pub leader_of : Option Group → ℕ
leader_of none = 0
leader_of (some g) = g.leader_id

abbrev pub leader : Server → ℕ → ℕ
leader s h = leader_of (lookup s.table h)

-- The leader stays, is set where there was none, or is given up.
abbrev pub Turns : ℕ → ℕ → Type 0
Turns before after = (after ≡ before) ⊎ (before ≡ 0) ⊎ (after ≡ 0)

enter-Turns :
    (leader_id : ℕ) (task : Option ℕ) (g : Group)
    → Turns g.leader_id (enter leader_id task g).1.leader_id
unfolding enter
enter-Turns leader_id none g = ground arith
enter-Turns leader_id (some t) g = ground arith

after_get-Turns :
    (alloc : Bool) (old : Option Group) (new : Group) (leader_id : ℕ) (task : Option ℕ)
    → Turns (leader_of old) (leader_of (after_get alloc old new leader_id task))
after_get-Turns alloc none new leader_id task = inr (inl refl)
after_get-Turns alloc (some g) new leader_id task = enter-Turns leader_id task g

get-Turns :
    (alloc : Bool) (t : Table) (service_id group_id leader_id response_size j : ℕ) (task : Option ℕ)
    → Turns
        (leader_of (lookup t j))
        (leader_of (lookup (get alloc t service_id group_id leader_id response_size task).table j))
get-Turns alloc t service_id group_id leader_id response_size j task = ground (
  arith,
  lookup-get alloc t service_id group_id leader_id response_size j task,
  after_get-Turns alloc (lookup t (hash_code_of service_id group_id))
      (new_group service_id group_id leader_id response_size task) leader_id task,
)

modify_group-Turns :
    (t : Table) (h j : ℕ) (f : Group → Group)
    → KeepsHash h f
    → ((g : Group) → lookup t h ≡ some g → Turns g.leader_id (f g).leader_id)
    → Turns (leader_of (lookup t j)) (leader_of (lookup (modify_group t h f) j))
modify_group-Turns t h j f k turn = elim (Option-cases (lookup t h)) [
  | inl absent ↦ ground (arith, lookup-modify_group t h j f k)
  | inr (g, found) ↦ ground (arith, lookup-modify_group t h j f k, turn g found)
]

-- A change of a group that turns its leader and keeps its hash code.
record TurnsGroup (f : Group → Status × Group) : Type 0 where
  hash : (g : Group) → (f g).1.hash_code ≡ g.hash_code
  turns : (g : Group) → Turns g.leader_id (f g).1.leader_id

change-Turns :
    (s : Server) (h j : ℕ) (f : Group → Status × Group) (old : Option Group)
    → TurnsGroup f
    → lookup s.table h ≡ old
    → Turns (leader s j) (leader (change s h f old).server j)
unfolding change
change-Turns s h j f none t e = inl refl
change-Turns s h j f (some g) t e =
    modify_group-Turns s.table h j (λ old. (f g).1)
      (λ old same. t.hash g ∙ lookup-hash s.table h g e)
      (λ old found. subst (λ x. Turns x (f g).1.leader_id) (cc) (t.turns g))

for_member-Turns :
    (s : Server) (length_ok : Bool) (joined : Option ℕ) (j : ℕ) (f : Group → Status × Group)
    → TurnsGroup f
    → Turns (leader s j) (leader (for_member s length_ok joined f).server j)
unfolding for_member at_group
for_member-Turns s false joined j f t = inl refl
for_member-Turns s true none j f t = inl refl
for_member-Turns s true (some h) j f t = change-Turns s h j f (lookup s.table h) t refl

next_leader-TurnsGroup : (is_commit : Bool) (me : ℕ) → TurnsGroup (next_leader is_commit me)
unfolding next_leader
next_leader-TurnsGroup is_commit me = record { hash = λ g. ground arith; turns = λ g. ground arith }

is_leader_still-TurnsGroup : (me : ℕ) → TurnsGroup (is_leader_still me)
unfolding is_leader_still
is_leader_still-TurnsGroup me = record { hash = λ g. refl; turns = λ g. inl refl }

leave-Turns :
    (s : Server) (c j : ℕ) (joined : Option ℕ) → Turns (leader s j) (leader (leave s c joined) j)
unfolding leave
leave-Turns s c j none = inl refl
leave-Turns s c j (some h) =
    modify_group-Turns s.table h j (leave_group (s.peers c)) (λ g e. ground arith)
      (λ g found. ground arith)

client_join-Turns :
    (alloc : Bool) (s : Server) (c j : ℕ) (q : JoinReq)
    → Turns (leader s j) (leader (client_join alloc s c q).server j)
unfolding client_join
client_join-Turns alloc s c j q = ground (
  arith,
  get-Turns alloc s.table q.service_id q.group_id (leader_of_request q) (pos_part q.response_size) j
      (if q.persistent then some c else none),
)

guard-Turns :
    (b : Bool) (r : Reply) (s : Server) (j : ℕ)
    → Turns (leader s j) (leader r.server j)
    → Turns (leader s j) (leader (if b then r else reply (err not_master) s).server j)
guard-Turns true r s j h = h
guard-Turns false r s j h = inl refl

-- No request and no end of a connection passes a group directly from one leader to another: the
-- leader stays, is set where there was none, or is given up.
pub step-Turns : (s : Server) (e : Event) (j : ℕ) → Turns (leader s j) (leader (step s e).server j)
unfolding step
step-Turns s (finish c) j = leave-Turns s c j (s.peers c).group
step-Turns s (join alloc c q) j = guard-Turns s.is_master _ s j (client_join-Turns alloc s c j q)
step-Turns s (set_next c b) j = guard-Turns s.is_master _ s j (
    for_member-Turns s b (s.peers c).group j _ (next_leader-TurnsGroup false (s.peers c).server_id))
step-Turns s (commit_next c b) j =
    guard-Turns s.is_master _ s j (
      for_member-Turns s b (s.peers c).group j _
        (next_leader-TurnsGroup true (s.peers c).server_id))
step-Turns s (vote c b) j = guard-Turns s.is_master _ s j (
    for_member-Turns s b (s.peers c).group j _ (record { hash = λ g. refl; turns = λ g. inl refl }))
step-Turns s (unknown c) j = inl refl
step-Turns s (check c b) j =
    guard-Turns s.is_master _ s j (
      for_member-Turns s b (s.peers c).group j _ (is_leader_still-TurnsGroup (s.peers c).server_id))

-- In a group without a leader a commit succeeds exactly if the server that asks for it is the one
-- set as the next leader; it makes that server the leader, and a refusal leaves the group without
-- one. Whether it succeeds or not, no next leader is left.
pub next_leader-commit :
    (me : ℕ) (g : Group)
    → g.leader_id ≡ 0
    → let (r, g') = next_leader true me g in
      ((r ≡ ok) ↔ (g.next_leader ≡ me))
      × (r ≡ ok → g'.leader_id ≡ me)
      × (r ≢ ok → g'.leader_id ≡ 0)
      × (g'.next_leader ≡ 0)
unfolding next_leader
next_leader-commit me g free =
    (((λ e. ground arith), (λ e. ground arith)), ground arith, ground arith, ground arith)

-- If two different servers, neither of them 0, both ask to be the next leader of a group that
-- has neither a leader nor a next leader, the second is refused, and neither can commit then.
pub pre_set_conflict :
    (a b : ℕ) (g : Group)
    → g.leader_id ≡ 0
    → g.next_leader ≡ 0
    → a ≢ 0
    → b ≢ 0
    → a ≢ b
    → let (r, g') = next_leader false a g in
      let (q, g'') = next_leader false b g' in
      (r ≡ ok)
      × (q ≡ err leader_inconsistent)
      × ((next_leader true a g'').0 ≡ err leader_inconsistent)
      × ((next_leader true b g'').0 ≡ err leader_inconsistent)
unfolding next_leader
pre_set_conflict a b g free none_next na nb ne = ground arith
