-- ===== src/Vote/Groups/Lookup.antt =====
-- The hash table as a map from hash codes to groups.
use fast_cfs.Base.{
  ℕ, ◌%◌, ◌≡◌, refl, ◌∙◌, Bool, true, false, Option, none, some, List, [], ◌∷◌, arith,
  if◌then◌else◌, ◌==◌,
}
use fast_cfs.Vote.Groups.{
  Group, Table, hash_code_of, find, modify, lookup, modify_group, enter, new_group, get_with, get,
  set_bucket,
}

-- A write that keeps the hash code.
abbrev pub KeepsHash : ℕ → (Group → Group) → Type 0
KeepsHash h f = (g : Group) → g.hash_code ≡ h → (f g).hash_code ≡ h

abbrev pub map_option : {A B : Type 0} → (A → B) → Option A → Option B
map_option f none = none
map_option f (some a) = some (f a)

find-hash : (h : ℕ) (gs : List Group) (g : Group) → find h gs ≡ some g → g.hash_code ≡ h
unfolding find
find-hash h [] g e = cc
find-hash h (x ∷ gs) g e = ground (arith, find-hash h gs g)

find-modify :
    (h j : ℕ) (f : Group → Group) (gs : List Group)
    → KeepsHash h f
    → find j (modify h f gs) ≡ (if j == h then map_option f (find j gs) else find j gs)
unfolding find modify
find-modify h j f [] k = ground arith
find-modify h j f (g ∷ gs) k = ground (arith, find-modify h j f gs k, k g)

find-cons :
    (h j : ℕ) (g : Group) (gs : List Group)
    → g.hash_code ≡ h
    → find j (g ∷ gs) ≡ (if j == h then some g else find j gs)
unfolding find
find-cons h j g gs e = ground arith

pub lookup-hash : (t : Table) (h : ℕ) (g : Group) → lookup t h ≡ some g → g.hash_code ≡ h
unfolding lookup
lookup-hash t h g e = find-hash h _ g e

pub lookup-modify_group :
    (t : Table) (h j : ℕ) (f : Group → Group)
    → KeepsHash h f
    → lookup (modify_group t h f) j ≡ (if j == h then map_option f (lookup t j) else lookup t j)
unfolding lookup modify_group
lookup-modify_group t h j f k = ground (arith, find-modify h j f (t.buckets (h % t.capacity)) k)

-- What `get` puts at the hash code of its group.
abbrev pub after_get : Bool → Option Group → Group → ℕ → Option ℕ → Option Group
after_get alloc none new leader_id task = if alloc then some new else none
after_get alloc (some g) new leader_id task = some (enter leader_id task g).1

enter-hash :
    (leader_id : ℕ) (task : Option ℕ) (g : Group)
    → (enter leader_id task g).1.hash_code ≡ g.hash_code
unfolding enter
enter-hash leader_id none g = ground arith
enter-hash leader_id (some t) g = ground arith

lookup-set_bucket :
    (t : Table) (new : Group) (h j : ℕ)
    → new.hash_code ≡ h
    → lookup (set_bucket t (h % t.capacity) (new ∷ t.buckets (h % t.capacity))) j
      ≡ (if j == h then some new else lookup t j)
unfolding lookup
lookup-set_bucket t new h j e = ground (arith, find-cons h j new (t.buckets (h % t.capacity)) e)

get_with_lem :
    (alloc : Bool) (t : Table) (h : ℕ) (new : Group) (leader_id : ℕ) (task : Option ℕ)
    (old : Option Group) (j : ℕ)
    → new.hash_code ≡ h
    → lookup t h ≡ old
    → lookup (get_with alloc t h new leader_id task old).table j
      ≡ (if j == h then after_get alloc old new leader_id task else lookup t j)
unfolding get_with
get_with_lem true t h new leader_id task none j e found = lookup-set_bucket t new h j e
get_with_lem false t h new leader_id task none j e found = ground arith
get_with_lem alloc t h new leader_id task (some g) j e found = ground (
  arith,
  lookup-modify_group t h j (λ (old : Group). (enter leader_id task g).1)
      (λ old same. enter-hash leader_id task g ∙ lookup-hash t h g found),
)

-- `service_group_htable_get` changes the table at the hash code of its group only: there it adds
-- the new group if there was none and one could be allocated, or enters the leader and the task
-- into the old one.
pub lookup-get :
    (alloc : Bool) (t : Table) (service_id group_id leader_id response_size j : ℕ) (task : Option ℕ)
    → let h = hash_code_of service_id group_id in
      lookup (get alloc t service_id group_id leader_id response_size task).table j ≡ (
        if j == h
        then after_get alloc
            (lookup t h)
            (new_group service_id group_id leader_id response_size task)
            leader_id
            task
        else lookup t j)
unfolding get new_group
lookup-get alloc t service_id group_id leader_id response_size j task =
    get_with_lem alloc t (hash_code_of service_id group_id)
      (new_group service_id group_id leader_id response_size task) leader_id task _ j refl refl
