-- ===== src/Vote/Inactive.antt =====
-- src/vote/server/cluster_relationship.c: the array of the servers that the master does not hear of.
pub mod Distinct
use fast_cfs.Base.{
  ℕ, ◌+◌, Bool, true, false, ◌||◌, List, [], ◌∷◌, ◌++◌, if◌then◌else◌, ltb, ◌==◌, length,
}
use fast_cfs.Vote.Election.{Detect, init_inactive}

unfoldable pub is_inactive : ℕ → List Detect → Bool
is_inactive c [] = false
is_inactive c (d ∷ ds) = d.cs == c || is_inactive c ds

-- `cluster_relationship_add_to_inactive_sarray`, with room for `alloc` entries.
unfoldable pub add_to_inactive : ℕ → ℕ → ℕ → List Detect → List Detect
unfolding is_inactive
add_to_inactive now alloc c l =
    if is_inactive c l
    then l
    else if ltb (length l) alloc
    then l ++ (record { cs = c; next_time = now + 1 } ∷ [])
    else l

-- `cluster_relationship_remove_from_inactive_sarray`
unfoldable pub remove_from_inactive : ℕ → List Detect → List Detect
remove_from_inactive c [] = []
remove_from_inactive c (d ∷ ds) = if d.cs == c then ds else d ∷ remove_from_inactive c ds

-- What happens to the array.
pub data Change : Type 0 where
  add remove : ℕ → ℕ → Change
  init : ℕ → ℕ → Change

-- `servers` is the list of all servers, for which the array has room.
unfoldable pub change : List ℕ → Change → List Detect → List Detect
unfolding add_to_inactive remove_from_inactive
change servers (add now c) l = add_to_inactive now (length servers) c l
change servers (remove now c) l = remove_from_inactive c l
change servers (init now myself) l = init_inactive now myself servers
