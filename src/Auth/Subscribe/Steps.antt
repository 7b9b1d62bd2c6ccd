-- ===== src/Auth/Subscribe/Steps.antt =====
-- The steps of the subscriptions, in any order.
use fast_cfs.Base.{ℕ, ◌≡◌, true, Option, none, some, List, [], ◌∷◌, All, All-append}
use fast_cfs.Auth.Types.{Callback}
use fast_cfs.Auth.Session.{SessionId, is_publish}
use fast_cfs.Auth.Subscribe.{
  Rows, Published, Context, add_callback, del_callback, change_callback, unregister,
  push_all_sessions_to_queue, join, Subscriber, publish_entry,
}
use fast_cfs.Auth.Subscribe.Replay.{current}
use fast_cfs.Auth.Subscribe.Truth.{
  Truth, Holds, Changed, HasSubscriber, Changed-Unmatched, change-Holds, Unmatched,
}
use fast_cfs.Auth.Subscribe.Mirror.{
  Mirrored, add-Mirrored, delete-Mirrored, push_all_sessions-Knows, join-Mirrored, Knows,
  unregister-Mirrored, take-All,
}
use fast_cfs.Auth.Subscribe.Walk.{change-Mirrored}

-- A step from the truth, the context and the subscriber that is registering, if any, to those
-- afterwards. A registration gives the subscriber all sessions, and lets it join the others later.
-- While none is registering: a session with a new id, the publish flag and the privileges granted
-- is added; a session is deleted by the master; or the database changes and its callback tells of
-- it, to a subscriber at least when the privileges in a pool change. A subscriber leaves at any
-- time.
pub data Step
    : Truth → Context → Option Subscriber → Truth → Context → Option Subscriber → Type 0 where
  adds :
      {t : Truth} {c : Context} (s : Published)
      → current t.rows c.sessions s.id ≡ none
      → is_publish s.id ≡ true
      → Holds t s
      → Step t c none t (add_callback t.rows true s c) none
  deletes :
      {t : Truth} {c : Context} (id : SessionId)
      → Step t c none t (del_callback true true id c) none
  begins :
      {t : Truth} {c : Context} (name : ℕ)
      → Step t c none t
          (push_all_sessions_to_queue t.rows name c).1
          (some (push_all_sessions_to_queue t.rows name c).0)
  joins : {t : Truth} {c : Context} (s : Subscriber) → Step t c (some s) t (join (s, c)) none
  leaves :
      {t : Truth} {c : Context} {w : Option Subscriber} (name : ℕ)
      → Step t c w t (unregister name c) w
  changes :
      {t t' : Truth} {c : Context} (call : Callback)
      → Changed call t t'
      → HasSubscriber call c
      → Step t c none t' (change_callback t'.rows call c) none

pub data Steps
    : Truth → Context → Option Subscriber → Truth → Context → Option Subscriber → Type 0 where
  stay : {t : Truth} {c : Context} {w : Option Subscriber} → Steps t c w t c w
  go :
      {t t' t'' : Truth} {c c' c'' : Context} {w w' w'' : Option Subscriber}
      → Step t c w t' c' w'
      → Steps t' c' w' t'' c'' w''
      → Steps t c w t'' c'' w''

abbrev Waits : Rows → Context → Option Subscriber → Type 0
Waits rows c none = Unit
Waits rows c (some s) = Knows (current rows c.sessions) s

-- The subscribers know the sessions, the one that is registering too, and the sessions have the
-- privileges granted.
pub record Told (t : Truth) (c : Context) (w : Option Subscriber) : Type 0 where
  pub mirrored : Mirrored t.rows c
  pub holds : All (Holds t) c.sessions
  pub waits : Waits t.rows c w

add-Holds :
    (t : Truth) (c : Context) (s : Published)
    → Holds t s
    → All (Holds t) c.sessions
    → All (Holds t) (add_callback t.rows true s c).sessions
unfolding add_callback publish_entry
add-Holds t c s h all = All-append (Holds t) c.sessions (s ∷ []) all (h, tt)

delete-Holds :
    (t : Truth) (c : Context) (id : SessionId)
    → All (Holds t) c.sessions
    → All (Holds t) (del_callback true true id c).sessions
unfolding del_callback publish_entry
delete-Holds t c id all = take-All (Holds t) id c.sessions all

begin-Holds :
    (t : Truth) (c : Context) (name : ℕ)
    → All (Holds t) c.sessions
    → All (Holds t) (push_all_sessions_to_queue t.rows name c).1.sessions
unfolding push_all_sessions_to_queue
begin-Holds t c name all = all

begin-Waits :
    (t : Truth) (c : Context) (name : ℕ)
    → Knows (current t.rows c.sessions) (push_all_sessions_to_queue t.rows name c).0
    → Waits t.rows
        (push_all_sessions_to_queue t.rows name c).1
        (some (push_all_sessions_to_queue t.rows name c).0)
unfolding push_all_sessions_to_queue
begin-Waits t c name k = k

join-Holds :
    (t : Truth) (c : Context) (s : Subscriber)
    → All (Holds t) c.sessions
    → All (Holds t) (join (s, c)).sessions
unfolding join
join-Holds t c s all = all

unregister-Waits :
    (rows : Rows) (c : Context) (name : ℕ) (w : Option Subscriber)
    → Waits rows c w
    → Waits rows (unregister name c) w
unfolding unregister
unregister-Waits rows c name none h = tt
unregister-Waits rows c name (some s) h = h

unregister-Holds :
    (t : Truth) (c : Context) (name : ℕ)
    → All (Holds t) c.sessions
    → All (Holds t) (unregister name c).sessions
unfolding unregister
unregister-Holds t c name all = all

All-Unmatched :
    (call : Callback) (t t' : Truth) (l : List Published)
    → Changed call t t'
    → All (Unmatched call t t') l
All-Unmatched call t t' [] h = tt
All-Unmatched call t t' (s ∷ ss) h = (Changed-Unmatched call t t' s h, All-Unmatched call t t' ss h)

Step-Told :
    (t t' : Truth) (c c' : Context) (w w' : Option Subscriber)
    → Step t c w t' c' w'
    → Told t c w
    → Told t' c' w'
Step-Told t _ c _ _ _ (adds s new flag h) v = record {
  mirrored = add-Mirrored t.rows c v.mirrored s new flag;
  holds = add-Holds t c s h v.holds;
  waits = tt;
}
Step-Told t _ c _ _ _ (deletes id) v = record {
  mirrored = delete-Mirrored t.rows c v.mirrored id;
  holds = delete-Holds t c id v.holds;
  waits = tt;
}
Step-Told t _ c _ _ _ (begins name) v =
    let (m, k) = push_all_sessions-Knows t.rows c v.mirrored name in
    record { mirrored = m; holds = begin-Holds t c name v.holds; waits = begin-Waits t c name k }
Step-Told t _ c _ _ _ (joins s) v = record {
  mirrored = join-Mirrored t.rows c v.mirrored s v.waits;
  holds = join-Holds t c s v.holds;
  waits = tt;
}
Step-Told t _ c _ w _ (leaves name) v = record {
  mirrored = unregister-Mirrored t.rows c v.mirrored name;
  holds = unregister-Holds t c name v.holds;
  waits = unregister-Waits t.rows c name w v.waits;
}
Step-Told t t' c _ _ _ (changes call changed some_one) v = record {
  mirrored =
      change-Mirrored t.rows t'.rows call c v.mirrored (All-Unmatched call t t' c.sessions changed);
  holds = change-Holds call t t' c changed some_one v.holds;
  waits = tt;
}

-- Let subscribers register, in two parts, and leave; and, while none is between the two parts of a
-- registration, let sessions with new ids, the publish flag and the privileges granted be added,
-- sessions be deleted by the master, and the privileges of users, those granted in a pool and the
-- space of pools change and be told, to a subscriber at least for the privileges in a pool; all in
-- any order. Then every subscriber can read off its queue exactly the published sessions, with the
-- privileges of their users, the availability of their pools and the privileges that their users
-- have in these, given that the allocator of entries has no limit and it was so before.
pub Steps-Told :
    {t t' : Truth} {c c' : Context} {w w' : Option Subscriber}
    → Steps t c w t' c' w'
    → Told t c w
    → Told t' c' w'
Steps-Told stay v = v
Steps-Told (go s ss) v = Steps-Told ss (Step-Told _ _ _ _ _ _ s v)
