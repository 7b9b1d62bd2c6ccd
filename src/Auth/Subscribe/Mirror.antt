-- ===== src/Auth/Subscribe/Mirror.antt =====
-- Every subscriber knows the published sessions, whatever happens.
use fast_cfs.Base.{
  ◌==◌, ℕ, ◌≡◌, true, false, Option, none, some, List, [], ◌∷◌, ◌++◌, map, Status, refl, ap, ◌∙◌,
  sym, Bool-cases, inl, inr, All, All-append, subst,
}
use mathlib.Core.Path.{fun_ext}
use fast_cfs.Auth.Session.{SessionId, same_id, is_publish}
use fast_cfs.Auth.Session.Chain.{same_id_sym}
use fast_cfs.Auth.Session.Lookup.{assign}
use fast_cfs.Auth.Subscribe.{
  Published, Synced, Entry, removed, Rows, Subscriber, Context, synced, subscribe_entry, push,
  publish_to, publish_entry, take_session, add_callback, del_callback, push_all_sessions_to_queue,
  join, take_subscriber, unregister, all_entries, or_nothing,
}
use fast_cfs.Auth.Subscribe.Replay.{
  Known, learn, replay, nothing, current, Distinct, or_else, replay-push, current-append,
  current-none, none-absent, absent-same, current-take, replay-entries, publish_to_all,
  all_entries_unlimited,
}

-- A subscriber's queue tells it the map `m`.
abbrev pub Knows : Known → Subscriber → Type 0
Knows m s = replay s.queue nothing ≡ m

-- The allocator has no limit; the sessions have distinct ids with the publish flag; and every
-- subscriber knows them.
pub record Mirrored (rows : Rows) (c : Context) : Type 0 where
  pub unlimited : c.free ≡ none
  pub distinct : Distinct c.sessions
  pub flagged : All (λ s. is_publish s.id ≡ true) c.sessions
  pub known : All (Knows (current rows c.sessions)) c.subscribers

pub or_else-none : (o : Option Synced) → or_else o none ≡ o
or_else-none none = refl
or_else-none (some x) = refl

pub push-Knows :
    (e : Entry) (m : Known) (ss : List Subscriber)
    → All (Knows m) ss
    → All (Knows (learn e m)) (map (push e) ss)
push-Knows e m [] h = tt
push-Knows e m (s ∷ ss) h =
    (replay-push s.queue e nothing ∙ ap (learn e) h.0, push-Knows e m ss h.1)

-- What an entry for all does to the context.
pub publish_entry_all :
    (e : Entry) (c : Context)
    → c.free ≡ none
    → publish_entry e c ≡ record c { subscribers = map (push e) c.subscribers }
unfolding publish_entry
publish_entry_all e c h =
    let set : Status × List Subscriber × Option ℕ → Context =
      λ x. record c { subscribers = x.1; free = x.2 } in
    ap set (ap (publish_to e c.subscribers) h ∙ publish_to_all e c.subscribers)
    ∙ ap (λ f. record c { subscribers = map (push e) c.subscribers; free = f }) (sym h)

pub Distinct-end :
    (ss : List Published) (s : Published)
    → Distinct ss
    → All (λ x. same_id x.id s.id ≡ false) ss
    → Distinct (ss ++ s ∷ [])
unfolding Distinct
Distinct-end [] s d h = (tt, tt)
Distinct-end (x ∷ ss) s d h = (
  All-append (λ y. same_id y.id x.id ≡ false) ss (s ∷ []) d.0 (same_id_sym s.id x.id ∙ h.0, tt),
  Distinct-end ss s d.1 h.1,
)

pub take-All :
    (P : Published → Type 0) (id : SessionId) (ss : List Published)
    → All P ss
    → All P (take_session id ss)
unfolding take_session
take-All P id [] h = tt
take-All P id (s ∷ ss) h = elim (Bool-cases (same_id s.id id)) [
  | inl k ↦ rw k h.1
  | inr k ↦ rw k (h.0, take-All P id ss h.1)
]

take-Distinct : (id : SessionId) (ss : List Published) → Distinct ss → Distinct (take_session id ss)
unfolding take_session Distinct
take-Distinct id [] d = tt
take-Distinct id (s ∷ ss) d = elim (Bool-cases (same_id s.id id)) [
  | inl k ↦ rw k d.1
  | inr k ↦ rw k (take-All (λ x. same_id x.id s.id ≡ false) id ss d.0, take-Distinct id ss d.1)
]

module _ (rows : Rows) (c : Context) (v : Mirrored rows c) where
  -- An entry for all, which tells of the change of the sessions.
  told-Mirrored :
      (e : Entry) (ss : List Published)
      → Distinct ss
      → All (λ s. is_publish s.id ≡ true) ss
      → current rows ss ≡ learn e (current rows c.sessions)
      → Mirrored rows (publish_entry e (record c { sessions = ss }))
  told-Mirrored e ss d f same =
      subst (Mirrored rows) (sym (publish_entry_all e (record c { sessions = ss }) v.unlimited))
        (record {
          unlimited = v.unlimited;
          distinct = d;
          flagged = f;
          known =
              subst (λ m. All (Knows m) (map (push e) c.subscribers)) (sym same)
                (push-Knows e (current rows c.sessions) c.subscribers v.known);
        })

  current-end :
      (s : Published) (id : SessionId)
      → current rows c.sessions s.id ≡ none
      → current rows (c.sessions ++ s ∷ []) id
        ≡ assign s.id (some (synced rows s)) (current rows c.sessions) id
  unfolding current
  current-end s id new =
      current-append rows c.sessions (s ∷ []) id ∙ elim (Bool-cases (same_id s.id id)) [
        | inl h ↦
            rw
              (
                h,
                current-none rows c.sessions id
                    (absent-same c.sessions s.id id h (none-absent rows c.sessions s.id new)),
              )
              refl
        | inr h ↦ rw h (or_else-none (current rows c.sessions id))
      ]

  pub add-Mirrored :
      (s : Published)
      → current rows c.sessions s.id ≡ none
      → is_publish s.id ≡ true
      → Mirrored rows (add_callback rows true s c)
  unfolding add_callback subscribe_entry
  add-Mirrored s new flag =
      told-Mirrored (subscribe_entry rows s) (c.sessions ++ s ∷ [])
        (Distinct-end c.sessions s v.distinct (none-absent rows c.sessions s.id new))
        (All-append (λ x. is_publish x.id ≡ true) c.sessions (s ∷ []) v.flagged (flag, tt))
        (fun_ext λ id. current-end s id new)

  pub delete-Mirrored : (id : SessionId) → Mirrored rows (del_callback true true id c)
  unfolding del_callback
  delete-Mirrored id =
      told-Mirrored (removed id) (take_session id c.sessions)
        (take-Distinct id c.sessions v.distinct)
        (take-All (λ x. is_publish x.id ≡ true) id c.sessions v.flagged)
        (fun_ext λ j. current-take rows c.sessions id j v.distinct)

  -- A subscriber that has been given all sessions, but has not joined the others, knows them.
  pub push_all_sessions-Knows :
      (name : ℕ)
      → let (s, c') = push_all_sessions_to_queue rows name c in
        Mirrored rows c' × Knows (current rows c.sessions) s
  unfolding push_all_sessions_to_queue
  push_all_sessions-Knows name =
      let queue_of : Option (List Entry) × Option ℕ → Subscriber =
        λ x. record { name = name; queue = or_nothing x.0 } in
      let set : Option (List Entry) × Option ℕ → Context = λ x. record c { free = x.1 } in
      subst (λ x. Mirrored rows (set x) × Knows (current rows c.sessions) (queue_of x))
        (sym (
          ap (all_entries rows c.sessions) v.unlimited
          ∙ all_entries_unlimited rows c.sessions v.flagged))
        (
          record { unlimited = refl; distinct = v.distinct; flagged = v.flagged; known = v.known },
          fun_ext λ id.
              replay-entries rows c.sessions nothing id v.distinct
              ∙ or_else-none (current rows c.sessions id),
        )

  pub join-Mirrored :
      (s : Subscriber) → Knows (current rows c.sessions) s → Mirrored rows (join (s, c))
  unfolding join
  join-Mirrored s k = record {
    unlimited = v.unlimited;
    distinct = v.distinct;
    flagged = v.flagged;
    known = All-append (Knows (current rows c.sessions)) c.subscribers (s ∷ []) v.known (k, tt);
  }

  take-Knows :
      (m : Known) (name : ℕ) (ss : List Subscriber)
      → All (Knows m) ss
      → All (Knows m) (take_subscriber name ss)
  unfolding take_subscriber
  take-Knows m name [] h = tt
  take-Knows m name (s ∷ ss) h = elim (Bool-cases (s.name == name)) [
    | inl k ↦ rw k h.1
    | inr k ↦ rw k (h.0, take-Knows m name ss h.1)
  ]

  pub unregister-Mirrored : (name : ℕ) → Mirrored rows (unregister name c)
  unfolding unregister
  unregister-Mirrored name = record {
    unlimited = v.unlimited;
    distinct = v.distinct;
    flagged = v.flagged;
    known = take-Knows (current rows c.sessions) name c.subscribers v.known;
  }
