-- ===== src/Auth/Subscribe.antt =====
-- src/auth/server/session_subscribe.c: the published sessions, and the subscribers that are told
-- of their changes. A list is locked while it is walked, so that each call is one step, but
-- for a registration, which takes the two locks one after the other.
pub mod Replay
pub mod Mirror
pub mod Walk
pub mod Truth
pub mod Steps
use fast_cfs.Base.{
  ℕ, zero, suc, ◌≡◌, Bool, true, false, not, ◌&&◌, ◌||◌, Option, none, some, List, [], ◌∷◌, ◌++◌,
  Status, ok, err, enomem, if◌then◌else◌, ◌==◌,
}
use fast_cfs.Auth.Types.{
  Privileges, DbUser, DbSpool, UserInfo, PoolInfo, is_available, Callback, user_priv_changed,
  pool_priv_changed, pool_quota_avail_changed,
}
use fast_cfs.Auth.Session.{SessionId, same_id, is_publish}

-- A session of the list `sessions`: its id, and what `ServerSessionFields` points to.
pub record Published : Type 0 where
  pub id : SessionId
  pub dbuser : ℕ
  pub dbpool : Option ℕ
  pub pool_privs : Privileges

-- `SessionSyncedFields`
pub record Synced : Type 0 where
  pub user_id : ℕ
  pub user_priv : ℕ
  pub pool_id : ℕ
  pub available : Bool
  pub privs : Privileges

-- `ServerSessionSubscribeEntry`
pub data Entry : Type 0 where
  created : SessionId → Synced → Entry
  removed : SessionId → Entry

-- The objects of the database that the sessions point to.
pub record Rows : Type 0 where
  pub user : ℕ → UserInfo
  pub pool : ℕ → PoolInfo

-- A subscriber is known by a number; `queue` has the oldest entry first.
pub record Subscriber : Type 0 where
  pub name : ℕ
  pub queue : List Entry

-- `subscribe_ctx`; `free` counts the entries that the allocator can still hand out, or is `none`
-- for an allocator without a limit.
pub record Context : Type 0 where
  pub subscribers : List Subscriber
  pub sessions : List Published
  pub free : Option ℕ

unfoldable pub pool_fields : Rows → Published → Option ℕ → Synced
pool_fields rows s none = record {
  user_id = (rows.user s.dbuser).id;
  user_priv = (rows.user s.dbuser).priv;
  pool_id = 0;
  available = false;
  privs = record { fdir = 0; fstore = 0 };
}
pool_fields rows s (some p) = record {
  user_id = (rows.user s.dbuser).id;
  user_priv = (rows.user s.dbuser).priv;
  pool_id = (rows.pool p).id;
  available = is_available (rows.pool p);
  privs = s.pool_privs;
}

unfoldable pub synced : Rows → Published → Synced
unfolding pool_fields
synced rows s = pool_fields rows s s.dbpool

-- `set_session_subscribe_entry`
unfoldable pub subscribe_entry : Rows → Published → Entry
unfolding synced
subscribe_entry rows s = created s.id (synced rows s)

-- `fast_mblock_alloc_object`
unfoldable pub take_entry : Option ℕ → Option (Option ℕ)
take_entry none = some none
take_entry (some zero) = none
take_entry (some (suc n)) = some (some n)

abbrev pub push : Entry → Subscriber → Subscriber
push e s = record s { queue = s.queue ++ e ∷ [] }

-- The walk of `publish_entry_to_all_subscribers`, which ends when no entry is left.
abbrev publish_next :
    Entry
    → Subscriber
    → List Subscriber
    → (Option ℕ → Status × List Subscriber × Option ℕ)
    → Option (Option ℕ)
    → Status × List Subscriber × Option ℕ
publish_next e s ss rest none = (err enomem, s ∷ ss, some 0)
publish_next e s ss rest (some free) = let (r, told, left) = rest free in (r, push e s ∷ told, left)

unfoldable pub publish_to : Entry → List Subscriber → Option ℕ → Status × List Subscriber × Option ℕ
unfolding take_entry
publish_to e [] free = (ok, [], free)
publish_to e (s ∷ ss) free = publish_next e s ss (publish_to e ss) (take_entry free)

unfoldable pub publish_entry : Entry → Context → Context
unfolding publish_to
publish_entry e c =
    let (r, ss, free) = publish_to e c.subscribers c.free in
    record c { subscribers = ss; free = free }

-- `server_session_add_callback`
unfoldable pub add_callback : Rows → Bool → Published → Context → Context
unfolding publish_entry subscribe_entry
add_callback rows publish s c =
    if publish
    then publish_entry (subscribe_entry rows s) (record c { sessions = c.sessions ++ s ∷ [] })
    else c

-- `locked_list_del` of the session with the id
unfoldable pub take_session : SessionId → List Published → List Published
take_session id [] = []
take_session id (s ∷ ss) = if same_id s.id id then ss else s ∷ take_session id ss

-- `server_session_del_callback`
unfoldable pub del_callback : Bool → Bool → SessionId → Context → Context
unfolding publish_entry take_session
del_callback publish is_master id c =
    if publish && is_master
    then publish_entry (removed id) (record c { sessions = take_session id c.sessions })
    else c

-- `ServerSessionMatchParam`; an id of 0 matches every session.
pub record MatchParam : Type 0 where
  pub user_id : ℕ
  pub pool_id : ℕ
  pub pool_privs : Option Privileges

unfoldable pub pool_matches : Rows → ℕ → Option ℕ → Bool
pool_matches rows pool_id none = false
pool_matches rows pool_id (some p) = (rows.pool p).id == pool_id

unfoldable pub matches : Rows → MatchParam → Published → Bool
unfolding pool_matches
matches rows m s =
    ((m.user_id == 0) || ((rows.user s.dbuser).id == m.user_id))
    && ((m.pool_id == 0) || pool_matches rows m.pool_id s.dbpool)

abbrev pub with_privs : Option Privileges → Published → Published
with_privs none s = s
with_privs (some privs) s = record s { pool_privs = privs }

-- The walk of `publish_matched_server_sessions`: the sessions before the place, and the rest.
unfoldable pub publish_walk :
    Rows → MatchParam → List Published → List Published → Context → Context
unfolding matches publish_entry subscribe_entry
publish_walk rows m before [] c = record c { sessions = before }
publish_walk rows m before (s ∷ ss) c =
    let s' = with_privs m.pool_privs s in
    let told =
      publish_walk rows m (before ++ s' ∷ []) ss (publish_entry (subscribe_entry rows s') c) in
    let passed = publish_walk rows m (before ++ s ∷ []) ss c in
    if matches rows m s then told else passed

abbrev pub is_empty {ℓ} : {A : Type ℓ} → List A → Bool
is_empty [] = true
is_empty (x ∷ xs) = false

unfoldable pub publish_matched_server_sessions : Rows → MatchParam → Context → Context
unfolding publish_walk
publish_matched_server_sessions rows m c =
    if is_empty c.subscribers then c else publish_walk rows m [] c.sessions c

abbrev pub param_of : Callback → MatchParam
param_of (user_priv_changed user_id priv) = record {
  user_id = user_id;
  pool_id = 0;
  pool_privs = none;
}
param_of (pool_priv_changed user_id pool_id privs) = record {
  user_id = user_id;
  pool_id = pool_id;
  pool_privs = some privs;
}
param_of (pool_quota_avail_changed pool_id available) = record {
  user_id = 0;
  pool_id = pool_id;
  pool_privs = none;
}

-- `g_db_priv_change_callbacks`
unfoldable pub change_callback : Rows → Callback → Context → Context
unfolding publish_matched_server_sessions
change_callback rows call c = publish_matched_server_sessions rows (param_of call) c

-- The entries of `push_all_sessions_to_queue`; `none` when one could not be allocated.
abbrev with_entry : Entry → Option (List Entry) → Option (List Entry)
with_entry e none = none
with_entry e (some es) = some (e ∷ es)

abbrev entries_from :
    Entry
    → (Option ℕ → Option (List Entry) × Option ℕ)
    → Option (Option ℕ)
    → Option (List Entry) × Option ℕ
entries_from e rest none = (none, some 0)
entries_from e rest (some free) = let (es, left) = rest free in (with_entry e es, left)

unfoldable pub all_entries : Rows → List Published → Option ℕ → Option (List Entry) × Option ℕ
unfolding subscribe_entry take_entry
all_entries rows [] free = (some [], free)
all_entries rows (s ∷ ss) free =
    let rest = all_entries rows ss in
    if is_publish s.id
    then entries_from (subscribe_entry rows s) rest (take_entry free)
    else rest free

abbrev pub or_nothing : Option (List Entry) → List Entry
or_nothing none = []
or_nothing (some es) = es

-- `push_all_sessions_to_queue` of a subscriber with an empty queue, under the lock of the sessions
unfoldable pub push_all_sessions_to_queue : Rows → ℕ → Context → Subscriber × Context
unfolding all_entries
push_all_sessions_to_queue rows name c =
    let (es, free) = all_entries rows c.sessions c.free in
    (record { name = name; queue = or_nothing es }, record c { free = free })

-- `locked_list_add_tail`, under the lock of the subscribers
unfoldable pub join : Subscriber × Context → Context
join (s, c) = record c { subscribers = c.subscribers ++ s ∷ [] }

-- `session_subscribe_register`, when nothing happens between its two parts
unfoldable pub register : Rows → ℕ → Context → Context
unfolding push_all_sessions_to_queue join
register rows name c = join (push_all_sessions_to_queue rows name c)

-- `locked_list_del` of the subscriber with the name
unfoldable pub take_subscriber : ℕ → List Subscriber → List Subscriber
take_subscriber name [] = []
take_subscriber name (s ∷ ss) = if s.name == name then ss else s ∷ take_subscriber name ss

-- `session_subscribe_unregister`
unfoldable pub unregister : ℕ → Context → Context
unfolding take_subscriber
unregister name c = record c { subscribers = take_subscriber name c.subscribers }
