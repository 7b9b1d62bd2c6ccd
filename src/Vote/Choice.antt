-- ===== src/Vote/Choice.antt =====
-- src/vote/server/cluster_relationship.c: `cluster_get_master`, which asks every server for its status
-- and chooses the greatest.
pub mod Greatest
use fast_cfs.Base.{
  ℕ, ℤ, pos, ◌-ℤ◌, leb_ℤ, qsort, is_zero, Bool, true, false, Option, none, some, List, [], ◌∷◌,
  ◌++◌, Status, ok, err, enoent, enomem, is_ok, ◌||◌, ltb, if◌then◌else◌, ◌==◌, length,
}
use fast_cfs.Vote.Election.{Node, Net, ServerStatus, myself_is_master}

abbrev pub to_int : Bool → ℤ
to_int true = pos 1
to_int false = pos 0

-- `cluster_cmp_server_status`
unfoldable pub cmp_server_status : ServerStatus → ServerStatus → ℤ
cmp_server_status a b =
    let sub : ℤ = to_int a.is_master -ℤ to_int b.is_master in
    if is_zero sub then pos a.server_id -ℤ pos b.server_id else sub

-- The order that `qsort` is given: the comparison's result is not positive.
abbrev pub not_after : ServerStatus → ServerStatus → Bool
not_after a b = leb_ℤ (cmp_server_status a b) (pos 0)

-- The element at `active_count - 1`.
unfoldable pub last : ServerStatus → List ServerStatus → ServerStatus
last a [] = a
last a (b ∷ bs) = last b bs

-- The statuses received, the last error other than ENOENT, and the services afterwards.
pub record Polled (S : Type 0) : Type 0 where
  pub statuses : List ServerStatus
  pub result : Status
  pub ext : S

-- The result code, the server chosen, and how many servers answered.
pub record Chosen (S : Type 0) : Type 0 where
  pub status : Status
  pub server : Option ServerStatus
  pub active_count : ℕ
  pub ext : S

-- `result` after a failure.
unfoldable pub poll_result : Status → Status → Status
poll_result ok old = old
poll_result (err enoent) old = old
poll_result (err e) old = err e

-- What is done with the statuses.
unfoldable pub choose : {S : Type 0} → Polled S → List ServerStatus → Chosen S
choose p [] = record {
  status = if is_ok p.result then err enoent else p.result;
  server = none;
  active_count = 0;
  ext = p.ext;
}
choose p (a ∷ rest) = record {
  status = ok;
  server = some (last a (qsort not_after (a ∷ rest)));
  active_count = length (a ∷ rest);
  ext = p.ext;
}

-- Without memory for the statuses, no server is asked and `*active_count` is not set.
unfoldable pub with_room : {S : Type 0} → Bool → S → Polled S → Chosen S
unfolding choose
with_room true s p = choose p p.statuses
with_room false s p = record { status = err enomem; server = none; active_count = 0; ext = s }

module _ {S : Type 0} (net : Net S) where
  -- `cluster_get_server_status_ex`
  unfoldable pub get_server_status : Node → S → ℕ → Status × ServerStatus × S
  get_server_status n s c =
      if c == n.myself
      then (ok, record { cs = c; is_master = myself_is_master n; server_id = n.myself }, s)
      else (let (r, x, s') = net.server_status s c in (r, record x { cs = c }, s'))

  -- The loop over the servers.
  unfoldable pub poll : Node → List ℕ → S → Status → Polled S
  unfolding get_server_status poll_result
  poll n [] s old = record { statuses = []; result = old; ext = s }
  poll n (c ∷ cs) s old =
      let (r, x, s') = get_server_status n s c in
      let p = poll n cs s' (poll_result r old) in
      if is_ok r then record p { statuses = x ∷ p.statuses } else p

  -- Fewer servers than STATUS_ARRAY_FIXED_COUNT need no memory for their statuses.
  abbrev pub has_room : Node → S → Bool
  has_room n s = ltb (length n.servers) 8 || net.malloc s

  -- `cluster_get_master`
  unfoldable pub get_master : Node → S → Chosen S
  unfolding poll with_room
  get_master n s = with_room (has_room n s) s (poll n n.servers s ok)
