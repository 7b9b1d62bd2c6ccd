-- ===== src/Auth/ServiceTests.antt =====
-- The theorems on requests and on the publication of sessions at concrete inputs.
use fast_cfs.Base.{
  ℕ, ◌^◌, pos, ◌≡◌, refl, true, false, none, some, [], ok, err, eperm, ◌⊎◌, ◌&&◌, ◌==◌,
  if◌then◌else◌,
}
use fast_cfs.Auth.Types.{
  Privileges, normal, access_none, pool_quota_avail_changed, pool_priv_changed, is_available,
}
use fast_cfs.Auth.Session.{Sessions, is_publish}
use fast_cfs.Auth.Service.{
  SessionFields, Task, Server, user_remove, service_deal_task, has_privilege, check_user_priv,
  check_need, need_of, when_ok,
}
use fast_cfs.Auth.Service.Guarded.{Permitted, KeepsDb, service_deal_task-Guarded}
use fast_cfs.Auth.Subscribe.{
  Published, Rows, Context, add_callback, del_callback, register, unregister, change_callback,
}
use fast_cfs.Auth.Subscribe.Replay.{current, Distinct}
use fast_cfs.Auth.Subscribe.Steps.{
  stay, go, adds, deletes, begins, joins, leaves, changes, Told, Steps-Told,
}
use fast_cfs.Auth.Subscribe.Truth.{Truth, HasSubscriber, pool_priv, quota_avail}
use fast_cfs.Auth.Example.{pairs, Pairs, service, db}

abbrev no_sessions : Sessions SessionFields
no_sessions = record {
  capacity = 4;
  buckets = λ i. [];
  memory = λ o. record { publish = false; dbuser = 0; dbpool = none; pool_privs = access_none };
  next_object = 0;
  freed = [];
  events = [];
}

abbrev master : Server ℕ Pairs
master = record { db = db; sessions = no_sessions; is_master = true }

-- The guest has logged in, without the privilege to manage users.
abbrev as_guest : Task
as_guest = record { session = some (record { id1 = 8; id2 = 1 }, 1); is_session = true }

service_deal_task-Guarded_example :
    Permitted db (some (record { id1 = 8; id2 = 1 }, 1)) (some 0)
    ⊎ KeepsDb db (service_deal_task service pairs as_guest master ok (user_remove 7))
service_deal_task-Guarded_example =
    service_deal_task-Guarded service pairs as_guest master ok (user_remove 7)

guest_refused :
    service_deal_task service pairs as_guest master ok (user_remove 7)
    ≡ some (err eperm, as_guest, master)
unfolding service_deal_task check_user_priv check_need has_privilege need_of when_ok
guest_refused = refl

-- A user and a pool with space, and the same with the quota used up.
abbrev rows : Rows
rows = record {
  user = λ u. record { id = 2; name = 9; passwd = some 90; priv = 0; status = normal };
  pool = λ p. record { id = 3; name = 5; quota = pos 100; used = pos 40; status = normal };
}

abbrev full : Rows
full = record rows {
  pool = λ p. record { id = 3; name = 5; quota = pos 100; used = pos 100; status = normal };
}

abbrev one : Published
one = record {
  id = record { id1 = 2 ^ 32; id2 = 1 };
  dbuser = 1;
  dbpool = some 0;
  pool_privs = record { fdir = 4; fstore = 4 };
}

abbrev empty : Context
empty = record { subscribers = []; sessions = []; free = none }

-- The pool is granted with the privileges 4, at first.
abbrev before : Truth
before = record { rows = rows; granted = λ u p. record { fdir = 4; fstore = 4 } }

abbrev more : Privileges
more = record { fdir = 6; fstore = 6 }

abbrev regranted : Truth
regranted = record before {
  granted = λ u p. if (u == 2) && (p == 3) then more else record { fdir = 4; fstore = 4 };
}

abbrev after : Truth
after = record regranted { rows = full }

empty-Told : Told before empty none
unfolding Distinct
empty-Told = record {
  mirrored = record { unlimited = refl; distinct = tt; flagged = tt; known = tt };
  holds = tt;
  waits = tt;
}

abbrev c1 : Context
c1 = register rows 0 empty

abbrev c2 : Context
c2 = add_callback rows true one c1

abbrev c3 : Context
c3 = register rows 1 c2

abbrev c4 : Context
c4 = change_callback rows (pool_priv_changed 2 3 more) c3

abbrev c5 : Context
c5 = change_callback full (pool_quota_avail_changed 3 false) c4

new_to_c1 : current rows c1.sessions one.id ≡ none
unfolding current register
new_to_c1 = refl

one-publish : is_publish one.id ≡ true
unfolding is_publish
one-publish = refl

full_avail : is_available (full.pool 0) ≡ false
unfolding is_available
full_avail = refl

two_subscribers : HasSubscriber (pool_priv_changed 2 3 more) c3
unfolding register add_callback
two_subscribers = refl

Steps-Told_example : Told after (unregister 0 (del_callback true true one.id c5)) none
unfolding register
Steps-Told_example =
    Steps-Told
      (go (begins 0) (
        go (joins _) (
          go (adds one new_to_c1 one-publish refl) (
            go (begins 1) (
              go (joins _) (
                go
                  (changes (pool_priv_changed 2 3 more) (pool_priv 2 3 more refl refl)
                    two_subscribers)
                  (go
                    (changes (pool_quota_avail_changed 3 false)
                      (quota_avail 3 false full.pool refl (λ p. refl) (λ p. full_avail)) tt)
                    (go (deletes one.id) (go (leaves 0) stay)))))))))
      empty-Told
