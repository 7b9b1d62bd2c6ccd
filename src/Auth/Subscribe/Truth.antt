-- ===== src/Auth/Subscribe/Truth.antt =====
-- What the published sessions should tell: the users, the pools and the privileges granted, and
-- how a call of the database changes them.
use fast_cfs.Base.{
  ℕ, ◌≡◌, Bool, true, false, ◌&&◌, Option, none, some, List, [], ◌∷◌, ◌++◌, refl, ap, ap₂, ◌∙◌, sym,
  arith, Bool-cases, inl, inr, All, All-append, if◌then◌else◌, ◌==◌,
}
use fast_cfs.Auth.Types.{
  Privileges, UserInfo, PoolInfo, is_available, Callback, user_priv_changed, pool_priv_changed,
  pool_quota_avail_changed,
}
use fast_cfs.Auth.Subscribe.{
  Published, Synced, Rows, Context, MatchParam, pool_fields, synced, pool_matches, matches,
  with_privs, param_of, publish_walk, publish_matched_server_sessions, change_callback, is_empty,
}

-- The rows of the database, and the privileges that the user of an id has in the pool of an id.
pub record Truth : Type 0 where
  pub rows : Rows
  pub granted : ℕ → ℕ → Privileges

-- A session in a pool has the privileges of its user in that pool.
abbrev pub HoldsIn : Truth → Published → Option ℕ → Type 0
HoldsIn t s none = Unit
HoldsIn t s (some p) = s.pool_privs ≡ t.granted (t.rows.user s.dbuser).id (t.rows.pool p).id

abbrev pub Holds : Truth → Published → Type 0
Holds t s = HoldsIn t s s.dbpool

abbrev pub with_priv : ℕ → ℕ → UserInfo → UserInfo
with_priv user_id priv u = if u.id == user_id then record u { priv = priv } else u

abbrev pub with_user : Truth → (ℕ → UserInfo) → Truth
with_user t user = record t { rows = record t.rows { user = user } }

abbrev pub with_pool : Truth → (ℕ → PoolInfo) → Truth
with_pool t pool = record t { rows = record t.rows { pool = pool } }

-- The change that a call tells of: the privileges of the users of an id; those of a user in a
-- pool; or whether the pools of an id have space, where all other pools have it as before.
pub data Changed : Callback → Truth → Truth → Type 0 where
  user_priv :
      {t : Truth} (user_id priv : ℕ)
      → (user_id == 0) ≡ false
      → Changed
          (user_priv_changed user_id priv)
          t
          (with_user t (λ u. with_priv user_id priv (t.rows.user u)))
  pool_priv :
      {t : Truth} (user_id pool_id : ℕ) (privs : Privileges)
      → (user_id == 0) ≡ false
      → (pool_id == 0) ≡ false
      → Changed (pool_priv_changed user_id pool_id privs) t (record t {
        granted = λ u p. if (u == user_id) && (p == pool_id) then privs else t.granted u p;
      })
  quota_avail :
      {t : Truth} (pool_id : ℕ) (available : Bool) (pool : ℕ → PoolInfo)
      → (pool_id == 0) ≡ false
      → ((p : ℕ) → (pool p).id ≡ (t.rows.pool p).id)
      → ((p : ℕ)
          → is_available (pool p)
            ≡ (if (pool p).id == pool_id then available else is_available (t.rows.pool p)))
      → Changed (pool_quota_avail_changed pool_id available) t (with_pool t pool)

with_priv-id : (i v : ℕ) (u : UserInfo) → (with_priv i v u).id ≡ u.id
with_priv-id i v u = ground arith

with_priv-other : (i v : ℕ) (u : UserInfo) → (u.id == i) ≡ false → with_priv i v u ≡ u
with_priv-other i v u h = rw h refl

user-same :
    (t : Truth) (user : ℕ → UserInfo) (s : Published) (o : Option ℕ)
    → user s.dbuser ≡ t.rows.user s.dbuser
    → pool_fields (with_user t user).rows s o ≡ pool_fields t.rows s o
unfolding pool_fields
user-same t user s none h = cc
user-same t user s (some p) h = cc

pool-same :
    (t : Truth) (pool : ℕ → PoolInfo) (s : Published) (o : Option ℕ) (pool_id : ℕ)
    → (pool_id == 0) ≡ false
    → ((p : ℕ) → (pool p).id ≡ (t.rows.pool p).id)
    → ((p : ℕ)
        → ((pool p).id == pool_id) ≡ false
        → is_available (pool p) ≡ is_available (t.rows.pool p))
    → pool_matches (with_pool t pool).rows pool_id o ≡ false
    → pool_fields (with_pool t pool).rows s o ≡ pool_fields t.rows s o
unfolding pool_fields pool_matches
pool-same t pool s none i pos_i ids same h = refl
pool-same t pool s (some p) i pos_i ids same h =
    ap₂
      (λ x y.
        let r : Synced = record {
          user_id = (t.rows.user s.dbuser).id;
          user_priv = (t.rows.user s.dbuser).priv;
          pool_id = x;
          available = y;
          privs = s.pool_privs;
        } in
        r)
      (ids p) (same p h)

abbrev pub Unmatched : Callback → Truth → Truth → Published → Type 0
Unmatched call t t' s =
    matches t'.rows (param_of call) s ≡ false → synced t'.rows s ≡ synced t.rows s

-- A session that the call does not match tells the same as before.
pub Changed-Unmatched :
    (call : Callback) (t t' : Truth) (s : Published) → Changed call t t' → Unmatched call t t' s
unfolding matches synced
Changed-Unmatched _ t _ s (user_priv i v h) = λ far.
    user-same t (λ u. with_priv i v (t.rows.user u)) s s.dbpool
      (with_priv-other i v (t.rows.user s.dbuser)
        (ground (arith, with_priv-id i v (t.rows.user s.dbuser))))
Changed-Unmatched _ t _ s (pool_priv i j v h k) = λ far. refl
Changed-Unmatched _ t _ s (quota_avail i b pool h ids avail) =
    λ far. pool-same t pool s s.dbpool i h ids (λ p e. ground (arith, avail p)) (ground arith)

-- What the walk keeps of the sessions.
module _ (P : Published → Type 0) (rows : Rows) (m : MatchParam) where
  Keeps : Published → Type 0
  Keeps s =
      (matches rows m s ≡ true → P (with_privs m.pool_privs s)) × (matches rows m s ≡ false → P s)

  walk-All :
      (before rest : List Published) (c : Context)
      → All P before
      → All Keeps rest
      → All P (publish_walk rows m before rest c).sessions
  unfolding publish_walk Keeps
  walk-All before [] c b r = b
  walk-All before (s ∷ ss) c b r =
      let r0 = r.0 in
      elim (Bool-cases (matches rows m s)) [
        | inl h ↦ simp h (
            walk-All (before ++ with_privs m.pool_privs s ∷ []) ss _
              (All-append P before (with_privs m.pool_privs s ∷ []) b (r0.0 h, tt)) r.1)
        | inr h ↦
            simp h
              (walk-All (before ++ s ∷ []) ss c (All-append P before (s ∷ []) b (r0.1 h, tt)) r.1)
      ]

  matched-All :
      (c : Context)
      → (is_empty c.subscribers ≡ true → All P c.sessions)
      → All Keeps c.sessions
      → All P (publish_matched_server_sessions rows m c).sessions
  unfolding publish_matched_server_sessions
  matched-All c e k = elim (Bool-cases (is_empty c.subscribers)) [
    | inl h ↦ simp h (e h)
    | inr h ↦ simp h (walk-All [] c.sessions c tt k)
  ]

user-HoldsIn :
    (t : Truth) (i v : ℕ) (s : Published) (o : Option ℕ)
    → HoldsIn t s o
    → HoldsIn (with_user t (λ u. with_priv i v (t.rows.user u))) s o
user-HoldsIn t i v s none h = tt
user-HoldsIn t i v s (some p) h =
    h ∙ ap (λ x. t.granted x (t.rows.pool p).id) (sym (with_priv-id i v (t.rows.user s.dbuser)))

pool-HoldsIn :
    (t : Truth) (pool : ℕ → PoolInfo) (s : Published) (o : Option ℕ)
    → ((p : ℕ) → (pool p).id ≡ (t.rows.pool p).id)
    → HoldsIn t s o
    → HoldsIn (with_pool t pool) s o
pool-HoldsIn t pool s none ids h = tt
pool-HoldsIn t pool s (some p) ids h =
    h ∙ ap (λ x. t.granted (t.rows.user s.dbuser).id x) (sym (ids p))

abbrev with_grant : Truth → ℕ → ℕ → Privileges → Truth
with_grant t i j privs = record t {
  granted = λ u p. if (u == i) && (p == j) then privs else t.granted u p;
}

-- The test of a session against the ids of a user and a pool.
abbrev both_match : Truth → ℕ → ℕ → Published → Option ℕ → Bool
both_match t i j s o = ((t.rows.user s.dbuser).id == i) && pool_matches t.rows j o

grant-matched :
    (t : Truth) (i j : ℕ) (privs : Privileges) (s : Published) (o : Option ℕ)
    → both_match t i j s o ≡ true
    → HoldsIn (with_grant t i j privs) (record s { pool_privs = privs }) o
unfolding pool_matches
grant-matched t i j privs s none h = tt
grant-matched t i j privs s (some p) h = rw h refl

grant-unmatched :
    (t : Truth) (i j : ℕ) (privs : Privileges) (s : Published) (o : Option ℕ)
    → both_match t i j s o ≡ false
    → HoldsIn t s o
    → HoldsIn (with_grant t i j privs) s o
unfolding pool_matches
grant-unmatched t i j privs s none h k = tt
grant-unmatched t i j privs s (some p) h k = rw h k

matches-both :
    (t : Truth) (i j : ℕ) (privs : Option Privileges) (s : Published)
    → (i == 0) ≡ false
    → (j == 0) ≡ false
    → matches t.rows (record { user_id = i; pool_id = j; pool_privs = privs }) s
      ≡ both_match t i j s s.dbpool
unfolding matches
matches-both t i j privs s h k = rw (h, k) refl

-- Whether the call has a subscriber to tell, where it stores privileges in the sessions.
abbrev pub HasSubscriber : Callback → Context → Type 0
HasSubscriber (pool_priv_changed i j privs) c = is_empty c.subscribers ≡ false
HasSubscriber _ c = Unit

All-imp :
    (P Q : Published → Type 0) (l : List Published)
    → ((s : Published) → P s → Q s)
    → All P l
    → All Q l
All-imp P Q [] f h = tt
All-imp P Q (s ∷ ss) f h = (f s h.0, All-imp P Q ss f h.1)

-- After the call every session in a pool still has the privileges of its user in that pool.
pub change-Holds :
    (call : Callback) (t t' : Truth) (c : Context)
    → Changed call t t'
    → HasSubscriber call c
    → All (Holds t) c.sessions
    → All (Holds t') (change_callback t'.rows call c).sessions
unfolding change_callback Keeps
change-Holds _ t _ c (user_priv i v h) some_one all =
    let t' = with_user t (λ u. with_priv i v (t.rows.user u)) in
    let m : MatchParam = record { user_id = i; pool_id = 0; pool_privs = none } in
    let f : (s : Published) → Holds t s → Holds t' s = λ s k. user-HoldsIn t i v s s.dbpool k in
    matched-All (Holds t') t'.rows m c (λ e. All-imp (Holds t) (Holds t') c.sessions f all)
      (All-imp (Holds t) (Keeps (Holds t') t'.rows m) c.sessions (λ s k. (λ x. f s k, λ x. f s k))
        all)
change-Holds _ t _ c (pool_priv i j privs h k) some_one all =
    let t' = with_grant t i j privs in
    let m : MatchParam = record { user_id = i; pool_id = j; pool_privs = some privs } in
    matched-All (Holds t') t.rows m c (λ e. absurd (ground arith))
      (All-imp (Holds t) (Keeps (Holds t') t.rows m) c.sessions
        (λ s x. (
          λ near.
              grant-matched t i j privs s s.dbpool
                (sym (matches-both t i j (some privs) s h k) ∙ near),
          λ far.
              grant-unmatched t i j privs s s.dbpool
                (sym (matches-both t i j (some privs) s h k) ∙ far) x,
        ))
        all)
change-Holds _ t _ c (quota_avail i b pool h ids avail) some_one all =
    let t' = with_pool t pool in
    let m : MatchParam = record { user_id = 0; pool_id = i; pool_privs = none } in
    let f : (s : Published) → Holds t s → Holds t' s =
      λ s k. pool-HoldsIn t pool s s.dbpool ids k in
    matched-All (Holds t') t'.rows m c (λ e. All-imp (Holds t) (Holds t') c.sessions f all)
      (All-imp (Holds t) (Keeps (Holds t') t'.rows m) c.sessions (λ s k. (λ x. f s k, λ x. f s k))
        all)
