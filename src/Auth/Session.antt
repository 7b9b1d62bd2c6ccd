-- ===== src/Auth/Session.antt =====
-- src/auth/common/server_session.c: the sessions, in a hash table whose chains are sorted by the
-- session id. An object of the allocator is known by a number; the pointer `fields` of its entry
-- is set when the object is made, to the memory behind it, and an object is never made twice.
pub mod Chain
pub mod Table
pub mod Lookup
pub mod Added
pub mod Owned
pub mod Map
pub mod NewId
pub mod Clear
use fast_cfs.Base.{
  ℕ, suc, ◌+◌, ◌*◌, ◌/◌, ◌%◌, ◌^◌, Bool, true, false, ◌&&◌, Option, none, some, List, [], ◌∷◌, ◌++◌,
  Status, ok, err, eexist, enoent, eperm, if◌then◌else◌, ltb, ◌==◌,
}

-- `ServerSessionIdInfo`: `id1` is the number of `part1.id`, and `id2` that of `part2.id` in the
-- order of `fc_compare_int64`.
pub record SessionId : Type 0 where
  pub id1 : ℕ
  pub id2 : ℕ

-- `compare_session_id`: whether the result is 0, and whether it is below 0.
unfoldable pub same_id : SessionId → SessionId → Bool
same_id a b = (a.id1 == b.id1) && (a.id2 == b.id2)

unfoldable pub before_id : SessionId → SessionId → Bool
before_id a b = if ltb a.id1 b.id1 then true else if a.id1 == b.id1 then ltb a.id2 b.id2 else false

-- What `server_session_add_ex` draws for a new id.
pub record Draw : Type 0 where
  pub time : ℕ
  pub rand : ℕ
  pub sn : ℕ
  pub id2 : ℕ

abbrev bit : Bool → ℕ
bit true = 1
bit false = 0

-- The layout of `part1.fields`, in the low bits first: `ts`, `publish`, `persistent`, `rn`, `sn`.
unfoldable pub new_id : Bool → Bool → Draw → SessionId
new_id publish persistent draw = record {
  id1 =
      draw.time % 2 ^ 32
      + bit publish * 2 ^ 32
      + bit persistent * 2 ^ 33
      + draw.rand % 2 ^ 14 * 2 ^ 34
      + draw.sn % 2 ^ 16 * 2 ^ 48;
  id2 = draw.id2;
}

-- `part1.fields.publish` and `part1.fields.persistent`
unfoldable pub is_publish : SessionId → Bool
is_publish id = id.id1 / 2 ^ 32 % 2 == 1

unfoldable pub is_persistent : SessionId → Bool
is_persistent id = id.id1 / 2 ^ 33 % 2 == 1

-- `ServerSessionHashEntry`; `fields` is the object behind which the fields lie.
pub record HashEntry : Type 0 where
  pub object : ℕ
  pub id : SessionId
  pub fields : ℕ

-- The calls of `add_func` and `del_func`, with the entry that they are given.
pub data Event : Type 0 where
  added removed : HashEntry → Event

-- `session_ctx`; the events are the newest first.
pub record Sessions (F : Type 0) : Type 0 where
  pub capacity : ℕ
  pub buckets : ℕ → List HashEntry
  pub memory : ℕ → F
  pub next_object : ℕ
  pub freed : List ℕ
  pub events : List Event

-- `session_htable_find`. The chain is sorted, so the walk may end early.
unfoldable pub find : SessionId → List HashEntry → Option HashEntry
find id [] = none
find id (e ∷ es) =
    if same_id e.id id then some e else if before_id id e.id then none else find id es

-- The chain with a new entry after the one at which the walk ends.
unfoldable pub link : HashEntry → List HashEntry → List HashEntry
link new [] = new ∷ []
link new (e ∷ es) = if before_id new.id e.id then new ∷ e ∷ es else e ∷ link new es

-- `found->entry = se->entry`
unfoldable pub overwrite : HashEntry → List HashEntry → List HashEntry
overwrite new [] = []
overwrite new (e ∷ es) =
    if same_id e.id new.id
    then record e { id = new.id; fields = new.fields } ∷ es
    else e ∷ overwrite new es

-- The chain without the entry found.
unfoldable pub unlink : SessionId → List HashEntry → List HashEntry
unlink id [] = []
unlink id (e ∷ es) = if same_id e.id id then es else e ∷ unlink id es

module _ {F : Type 0} where
  abbrev pub bucket_of : Sessions F → SessionId → ℕ
  bucket_of t id = id.id1 % t.capacity

  unfoldable pub set_bucket : Sessions F → ℕ → List HashEntry → Sessions F
  set_bucket t i es = record t { buckets = λ j. if j == i then es else t.buckets j }

  unfoldable pub find_session : Sessions F → SessionId → Option HashEntry
  find_session t id = find id (t.buckets (bucket_of t id))

  pub insert_found : Sessions F → HashEntry → Bool → Option HashEntry → Status × Sessions F
  unfolding set_bucket
  insert_found t se replace none =
      (ok, set_bucket t (bucket_of t se.id) (link se (t.buckets (bucket_of t se.id))))
  insert_found t se replace (some found) =
      if replace
      then (
        ok,
        record (set_bucket t (bucket_of t se.id) (overwrite se (t.buckets (bucket_of t se.id)))) {
          freed = se.object ∷ t.freed;
        },
      )
      else (err eexist, t)

  unfoldable pub session_htable_insert : Sessions F → HashEntry → Bool → Status × Sessions F
  unfolding insert_found find_session
  session_htable_insert t se replace = insert_found t se replace (find_session t se.id)

  -- `fast_mblock_alloc_object` and the copy of the fields. The object is a new one, where the
  -- allocator may also hand out one that was freed; the difference shows only once an entry refers
  -- to a freed object, as after a replacement.
  unfoldable pub alloc_entry : Sessions F → F → Sessions F
  alloc_entry t fields = record t {
    memory = λ o. if o == t.next_object then fields else t.memory o;
    next_object = suc t.next_object;
  }

  abbrev pub entry_of : Sessions F → SessionId → HashEntry
  entry_of t id = record { object = t.next_object; id = id; fields = t.next_object }

  unfoldable pub add_func : HashEntry → Sessions F → Sessions F
  add_func e t = record t { events = added e ∷ t.events }

  -- `server_session_add_ex` with an id, as a subscriber calls it
  unfoldable pub add_existing : Sessions F → SessionId → F → Sessions F
  unfolding session_htable_insert add_func alloc_entry
  add_existing t id fields =
      let se = entry_of t id in add_func se (session_htable_insert (alloc_entry t fields) se true).1

  -- One turn of that loop: the id if the insertion took it, and the rest of the loop if not.
  pub drawn :
      SessionId
      → Status × Sessions F
      → Option (SessionId × Sessions F)
      → Option (SessionId × Sessions F)
  drawn id (ok, t) rest = some (id, t)
  drawn id (err e, t) rest = rest

  pub add_drawn : ℕ → Option (SessionId × Sessions F) → Option (SessionId × Sessions F)
  unfolding add_func
  add_drawn object none = none
  add_drawn object (some (id, t)) =
      some (id, add_func (record { object = object; id = id; fields = object }) t)

  -- the loop that draws an id until it is new; `none` when the draws end before
  pub draw_id : Bool → Bool → Sessions F → ℕ → List Draw → Option (SessionId × Sessions F)
  unfolding session_htable_insert drawn new_id
  draw_id publish persistent t object [] = none
  draw_id publish persistent t object (d ∷ ds) =
      let id = new_id publish persistent d in
      let rest = draw_id publish persistent t object ds in
      drawn id
        (session_htable_insert t (record { object = object; id = id; fields = object }) false) rest

  unfoldable pub add_new :
      Sessions F → Bool → Bool → F → List Draw → Option (SessionId × Sessions F)
  unfolding draw_id add_drawn alloc_entry
  add_new t publish persistent fields draws =
      add_drawn t.next_object
        (draw_id publish persistent (alloc_entry t fields) t.next_object draws)

  unfoldable pub get_found : (ℕ → F) → Option HashEntry → Option F
  get_found memory none = none
  get_found memory (some e) = some (memory e.fields)

  -- `server_session_get_fields`
  unfoldable pub get_fields : Sessions F → SessionId → Option F
  unfolding get_found find_session
  get_fields t id = get_found t.memory (find_session t id)

  unfoldable pub free_hash_entry : HashEntry → Sessions F → Sessions F
  free_hash_entry e t = record t { events = removed e ∷ t.events; freed = e.object ∷ t.freed }

  pub delete_found : Sessions F → SessionId → Option HashEntry → Status × Sessions F
  unfolding set_bucket free_hash_entry
  delete_found t id none = (err enoent, t)
  delete_found t id (some e) = (
    ok,
    free_hash_entry e (set_bucket t (bucket_of t id) (unlink id (t.buckets (bucket_of t id)))),
  )

  -- `server_session_delete`
  unfoldable pub delete : Sessions F → SessionId → Status × Sessions F
  unfolding delete_found find_session
  delete t id = delete_found t id (find_session t id)
