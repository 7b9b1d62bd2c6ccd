-- ===== src/Auth/SessionTests.antt =====
-- The theorems on sessions at concrete inputs.
use fast_cfs.Base.{
  All, Bool-cases, inl, inr, ℕ, ◌<◌, ◌^◌, ◌≡◌, refl, true, false, none, some, List, [], ◌∷◌, arith,
  if◌then◌else◌, ◌==◌, Memᴰ, head,
}
use fast_cfs.Auth.Session.{
  SessionId, HashEntry, Sessions, Draw, find_session, find, get_fields, get_found, add_existing,
  add_new, new_id, is_persistent, same_id, before_id,
}
use fast_cfs.Auth.Session.Chain.{Sorted}
use fast_cfs.Auth.Session.Table.{TableInv}
use fast_cfs.Auth.Session.Map.{
  Change, put, take, changes, effects, changes-effects, Refines, AddsNew, add_existing-Dangling,
}
use fast_cfs.Auth.Session.Owned.{IsOwned}
use fast_cfs.Auth.Session.NewId.{Fresh, add_new-Fresh}
use fast_cfs.Auth.Session.Clear.{server_session_clear, server_session_clear-fields}

-- Two sessions in one chain, the second one persistent, and nothing else.
abbrev first : HashEntry
first = record { object = 0; id = record { id1 = 4; id2 = 1 }; fields = 0 }

abbrev second : HashEntry
second = record { object = 1; id = record { id1 = 2 ^ 33; id2 = 7 }; fields = 1 }

abbrev table : Sessions ℕ
table = record {
  capacity = 4;
  buckets = λ i. if i == 0 then first ∷ second ∷ [] else [];
  memory = λ o. if o == 0 then 40 else 50;
  next_object = 2;
  freed = [];
  events = [];
}

chain-Sorted : Sorted (first ∷ second ∷ [])
unfolding Sorted before_id
chain-Sorted = ((refl, tt), (tt, tt))

abbrev chain_at : ℕ → List HashEntry
chain_at i = if i == 0 then first ∷ second ∷ [] else []

empty-Sorted : Sorted []
unfolding Sorted
empty-Sorted = tt

below_at : (i : ℕ) → All (λ e. e.fields < 2) (chain_at i)
below_at i = elim (Bool-cases (i == 0)) [
  | inl h ↦ rw h (omega arith, (omega arith, tt))
  | inr h ↦ rw h tt
]

chain_at-Sorted : (i : ℕ) → Sorted (chain_at i)
chain_at-Sorted i = elim (Bool-cases (i == 0)) [
  | inl h ↦ rw h chain-Sorted
  | inr h ↦ rw h empty-Sorted
]

table-Inv : TableInv table
table-Inv = record { sorted = chain_at-Sorted; below = below_at }

abbrev no_sessions : Sessions ℕ
no_sessions = record {
  capacity = 4;
  buckets = λ i. [];
  memory = λ o. 0;
  next_object = 0;
  freed = [];
  events = [];
}

no_sessions-Inv : TableInv no_sessions
no_sessions-Inv = record { sorted = λ i. empty-Sorted; below = λ i. tt }

no_sessions-Owned : IsOwned no_sessions
unfolding find_session find
no_sessions-Owned = record { owns = λ id e h. cc; apart = λ i j e f h k same. cc; below = tt }

-- Two sessions, the first of which ends and comes again.
abbrev cs : List (Change ℕ)
cs = put first.id 41 ∷ put second.id 42 ∷ take first.id ∷ put first.id 43 ∷ []

cs-AddsNew : AddsNew cs (get_fields no_sessions)
unfolding AddsNew get_fields get_found find_session find same_id
cs-AddsNew = (refl, (refl, (refl, tt)))

changes-effects_example : Refines (changes cs no_sessions) (effects cs (get_fields no_sessions))
changes-effects_example =
    changes-effects cs no_sessions no_sessions-Inv no_sessions-Owned cs-AddsNew

add_existing-Dangling_example :
    (e : HashEntry) × (find_session (add_existing table first.id 41) first.id ≡ some e)
    × Memᴰ e.fields (add_existing table first.id 41).freed
unfolding find_session find same_id
add_existing-Dangling_example = add_existing-Dangling table first.id 41 first table-Inv refl

abbrev draw : Draw
draw = record { time = 8; rand = 3; sn = 9; id2 = 11 }

add_new-Fresh_example :
    (x : SessionId × Sessions ℕ) × (add_new table true false 60 (draw ∷ []) ≡ some x)
    × Fresh table true false 60 x.0 x.1
unfolding find_session find same_id before_id new_id
add_new-Fresh_example =
    add_new-Fresh table table-Inv true false 60 (draw ∷ []) draw (head refl) refl

server_session_clear-fields_example : get_fields (server_session_clear table) first.id ≡ none
unfolding is_persistent
server_session_clear-fields_example =
    server_session_clear-fields table first.id table-Inv (omega arith)
