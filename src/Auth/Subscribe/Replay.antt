-- ===== src/Auth/Subscribe/Replay.antt =====
-- What a subscriber knows from its queue, and what the published sessions are.
use fast_cfs.Base.{
  ◌≡◌, true, false, Option, none, some, List, [], ◌∷◌, ◌++◌, map, ok, if◌then◌else◌, refl, ◌∙◌,
  arith, Bool-cases, inl, inr, All, subst,
}
use fast_cfs.Auth.Session.{SessionId, same_id, is_publish}
use fast_cfs.Auth.Session.Chain.{same_id→eq, same_as, other_than}
use fast_cfs.Auth.Session.Lookup.{assign}
use fast_cfs.Auth.Subscribe.{
  Published, Synced, Entry, created, removed, Rows, Subscriber, synced, subscribe_entry, take_entry,
  push, publish_to, take_session, all_entries,
}

abbrev pub Known : Type 0
Known = SessionId → Option Synced

-- What an entry tells.
abbrev pub learn : Entry → Known → Known
learn (created id fields) m = assign id (some fields) m
learn (removed id) m = assign id none m

unfoldable pub replay : List Entry → Known → Known
replay [] m = m
replay (e ∷ es) m = replay es (learn e m)

abbrev pub nothing : Known
nothing id = none

-- The published sessions, as a map.
unfoldable pub current : Rows → List Published → Known
current rows [] id = none
current rows (s ∷ ss) id = if same_id s.id id then some (synced rows s) else current rows ss id

-- No two sessions have one id.
unfoldable pub Distinct : List Published → Type 0
Distinct [] = Unit
Distinct (s ∷ ss) = All (λ x. same_id x.id s.id ≡ false) ss × Distinct ss

abbrev pub or_else : Option Synced → Option Synced → Option Synced
or_else none y = y
or_else (some x) y = some x

pub replay-push :
    (q : List Entry) (e : Entry) (m : Known) → replay (q ++ e ∷ []) m ≡ learn e (replay q m)
unfolding replay
replay-push [] e m = refl
replay-push (x ∷ q) e m = replay-push q e (learn x m)

pub current-append :
    (rows : Rows) (xs ys : List Published) (id : SessionId)
    → current rows (xs ++ ys) id ≡ or_else (current rows xs id) (current rows ys id)
unfolding current
current-append rows [] ys id = refl
current-append rows (s ∷ ss) ys id = ground (arith, current-append rows ss ys id)

pub current-none :
    (rows : Rows) (ss : List Published) (id : SessionId)
    → All (λ x. same_id x.id id ≡ false) ss
    → current rows ss id ≡ none
unfolding current
current-none rows [] id h = refl
current-none rows (s ∷ ss) id h = rw h.0 (current-none rows ss id h.1)

pub none-absent :
    (rows : Rows) (ss : List Published) (id : SessionId)
    → current rows ss id ≡ none
    → All (λ x. same_id x.id id ≡ false) ss
unfolding current
none-absent rows [] id h = tt
none-absent rows (s ∷ ss) id h = (ground arith, none-absent rows ss id (ground arith))

-- The id of a session that has the id of another one.
pub absent-same :
    (ss : List Published) (a b : SessionId)
    → same_id a b ≡ true
    → All (λ x. same_id x.id a ≡ false) ss
    → All (λ x. same_id x.id b ≡ false) ss
absent-same ss a b h = subst (λ i. All (λ x. same_id x.id i ≡ false) ss) (same_id→eq a b h)

pub current-take :
    (rows : Rows) (ss : List Published) (gone id : SessionId)
    → Distinct ss
    → current rows (take_session gone ss) id ≡ assign gone none (current rows ss) id
unfolding current take_session Distinct
current-take rows [] gone id d = ground arith
current-take rows (s ∷ ss) gone id d = elim (Bool-cases (same_id s.id gone)) [
  | inl h ↦ rw h (elim (Bool-cases (same_id gone id)) [
    | inl k ↦
        rw k (current-none rows ss id (absent-same ss s.id id (same_as s.id gone id h ∙ k) d.0))
    | inr k ↦ rw (k, same_as s.id gone id h ∙ k) refl
  ])
  | inr h ↦ rw h (elim (Bool-cases (same_id s.id id)) [
    | inl k ↦ rw (k, other_than s.id gone id k h) refl
    | inr k ↦ rw k (current-take rows ss gone id d.1)
  ])
]

-- Entries for all of the sessions, in their order.
pub replay-entries :
    (rows : Rows) (ss : List Published) (m : Known) (id : SessionId)
    → Distinct ss
    → replay (map (subscribe_entry rows) ss) m id ≡ or_else (current rows ss id) (m id)
unfolding replay current Distinct subscribe_entry
replay-entries rows [] m id d = refl
replay-entries rows (s ∷ ss) m id d =
    replay-entries rows ss (assign s.id (some (synced rows s)) m) id d.1
    ∙ elim (Bool-cases (same_id s.id id)) [
      | inl h ↦ rw (h, current-none rows ss id (absent-same ss s.id id h d.0)) refl
      | inr h ↦ rw h refl
    ]

pub publish_to_all :
    (e : Entry) (ss : List Subscriber) → publish_to e ss none ≡ (ok, map (push e) ss, none)
unfolding publish_to take_entry
publish_to_all e [] = refl
publish_to_all e (s ∷ ss) = rw (publish_to_all e ss) refl

pub all_entries_unlimited :
    (rows : Rows) (ss : List Published)
    → All (λ s. is_publish s.id ≡ true) ss
    → all_entries rows ss none ≡ (some (map (subscribe_entry rows) ss), none)
unfolding all_entries take_entry
all_entries_unlimited rows [] h = refl
all_entries_unlimited rows (s ∷ ss) h = rw (h.0, all_entries_unlimited rows ss h.1) refl
