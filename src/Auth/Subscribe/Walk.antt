-- ===== src/Auth/Subscribe/Walk.antt =====
-- The walk over the published sessions after a change of the database.
use fast_cfs.Base.{
  ◌≡◌, true, false, Option, none, some, List, [], ◌∷◌, ◌++◌, map, refl, ap, ◌∙◌, sym, arith,
  Bool-cases, inl, inr, All, All-append, subst,
}
use mathlib.Core.Path.{fun_ext}
use fast_cfs.Auth.Types.{Privileges, Callback}
use fast_cfs.Auth.Session.{SessionId, same_id, is_publish}
use fast_cfs.Auth.Session.Chain.{same_id_sym}
use fast_cfs.Auth.Session.Lookup.{assign}
use fast_cfs.Auth.Subscribe.{
  Published, created, Rows, Subscriber, Context, MatchParam, synced, subscribe_entry, push,
  publish_entry, matches, with_privs, publish_walk, publish_matched_server_sessions, param_of,
  change_callback, is_empty,
}
use fast_cfs.Auth.Subscribe.Replay.{
  Known, learn, current, Distinct, or_else, current-append, current-none, absent-same,
}
use fast_cfs.Auth.Subscribe.Mirror.{
  Knows, Mirrored, or_else-none, push-Knows, publish_entry_all, Distinct-end,
}

with_privs-id : (p : Option Privileges) (s : Published) → (with_privs p s).id ≡ s.id
with_privs-id none s = refl
with_privs-id (some privs) s = refl

module _ (rows rows' : Rows) where
  -- The sessions before the place have their new fields, the others the old ones.
  mixed : List Published → List Published → Known
  mixed before rest id = or_else (current rows' before id) (current rows rest id)

  -- The place in the walk.
  record At (m : MatchParam) (before rest : List Published) (c : Context) : Type 0 where
    unlimited : c.free ≡ none
    distinct_before : Distinct before
    distinct_rest : Distinct rest
    apart : All (λ s. All (λ b. same_id b.id s.id ≡ false) before) rest
    flagged_before : All (λ s. is_publish s.id ≡ true) before
    flagged_rest : All (λ s. is_publish s.id ≡ true) rest
    unmatched : All (λ s. matches rows' m s ≡ false → synced rows' s ≡ synced rows s) rest
    known : All (Knows (mixed before rest)) c.subscribers

  mixed-told :
      (before ss : List Published) (s s' : Published) (id : SessionId)
      → s'.id ≡ s.id
      → All (λ b. same_id b.id s.id ≡ false) before
      → mixed (before ++ s' ∷ []) ss id
        ≡ assign s.id (some (synced rows' s')) (mixed before (s ∷ ss)) id
  unfolding mixed current
  mixed-told before ss s s' id same apart = elim (Bool-cases (same_id s.id id)) [
    | inl h ↦
        let gone = current-none rows' before id (absent-same before s.id id h apart) in
        ground (arith, current-append rows' before (s' ∷ []) id, gone, ap (λ i. same_id i id) same)
    | inr h ↦ ground (
      arith,
      current-append rows' before (s' ∷ []) id,
      ap (λ i. same_id i id) same,
      or_else-none (current rows' before id),
    )
  ]

  mixed-passed :
      (before ss : List Published) (s : Published) (id : SessionId)
      → All (λ b. same_id b.id s.id ≡ false) before
      → synced rows' s ≡ synced rows s
      → mixed (before ++ s ∷ []) ss id ≡ mixed before (s ∷ ss) id
  unfolding mixed current
  mixed-passed before ss s id apart same = elim (Bool-cases (same_id s.id id)) [
    | inl h ↦
        let gone = current-none rows' before id (absent-same before s.id id h apart) in
        ground (arith, current-append rows' before (s ∷ []) id, gone)
    | inr h ↦
        ground
          (arith, current-append rows' before (s ∷ []) id, or_else-none (current rows' before id))
  ]

  apart-end :
      (before : List Published) (s' : Published) (ss : List Published)
      → All (λ x. All (λ b. same_id b.id x.id ≡ false) before) ss
      → All (λ x. same_id x.id s'.id ≡ false) ss
      → All (λ x. All (λ b. same_id b.id x.id ≡ false) (before ++ s' ∷ [])) ss
  apart-end before s' [] h k = tt
  apart-end before s' (x ∷ ss) h k = (
    All-append (λ b. same_id b.id x.id ≡ false) before (s' ∷ []) h.0
        (same_id_sym s'.id x.id ∙ k.0, tt),
    apart-end before s' ss h.1 k.1,
  )

  -- One session further.
  next-At :
      (m : MatchParam) (before ss : List Published) (s s' : Published) (c c' : Context)
      → At m before (s ∷ ss) c
      → s'.id ≡ s.id
      → c'.free ≡ none
      → All (Knows (mixed (before ++ s' ∷ []) ss)) c'.subscribers
      → At m (before ++ s' ∷ []) ss c'
  unfolding Distinct
  next-At m before ss s s' c c' a same unlimited known =
      let d = a.distinct_rest in
      let ap0 = a.apart in
      let fl = a.flagged_rest in
      let un = a.unmatched in
      record {
        unlimited = unlimited;
        distinct_before =
            Distinct-end before s' a.distinct_before
              (subst (λ i. All (λ b. same_id b.id i ≡ false) before) (sym same) ap0.0);
        distinct_rest = d.1;
        apart =
            apart-end before s' ss ap0.1
              (subst (λ i. All (λ x. same_id x.id i ≡ false) ss) (sym same) d.0);
        flagged_before =
            All-append (λ x. is_publish x.id ≡ true) before (s' ∷ []) a.flagged_before
              (ap is_publish same ∙ fl.0, tt);
        flagged_rest = fl.1;
        unmatched = un.1;
        known = known;
      }

  mixed-end : (before : List Published) → mixed before [] ≡ current rows' before
  unfolding mixed current
  mixed-end before = fun_ext λ id. or_else-none (current rows' before id)

  told-At :
      (m : MatchParam) (before ss : List Published) (s : Published) (c : Context)
      → At m before (s ∷ ss) c
      → let s' = with_privs m.pool_privs s in
        At m (before ++ s' ∷ []) ss (publish_entry (subscribe_entry rows' s') c)
  unfolding subscribe_entry
  told-At m before ss s c a =
      let s' = with_privs m.pool_privs s in
      let e = created s'.id (synced rows' s') in
      let far = a.apart in
      let same : mixed (before ++ s' ∷ []) ss ≡ learn e (mixed before (s ∷ ss)) =
        fun_ext (λ id. mixed-told before ss s s' id (with_privs-id m.pool_privs s) far.0)
        ∙ ap (λ i. assign i (some (synced rows' s')) (mixed before (s ∷ ss)))
            (sym (with_privs-id m.pool_privs s)) in
      subst (At m (before ++ s' ∷ []) ss) (sym (publish_entry_all e c a.unlimited)) (
        next-At m before ss s s' c (record c { subscribers = map (push e) c.subscribers }) a
          (with_privs-id m.pool_privs s) a.unlimited
          (subst (λ x. All (Knows x) (map (push e) c.subscribers)) (sym same)
            (push-Knows e (mixed before (s ∷ ss)) c.subscribers a.known)))

  passed-At :
      (m : MatchParam) (before ss : List Published) (s : Published) (c : Context)
      → At m before (s ∷ ss) c
      → matches rows' m s ≡ false
      → At m (before ++ s ∷ []) ss c
  passed-At m before ss s c a h =
      let far = a.apart in
      let un = a.unmatched in
      next-At m before ss s s c c a refl a.unlimited (
        subst (λ x. All (Knows x) c.subscribers)
          (sym (fun_ext λ id. mixed-passed before ss s id far.0 (un.0 h))) a.known)

  walk-Mirrored :
      (m : MatchParam) (before rest : List Published) (c : Context)
      → At m before rest c
      → Mirrored rows' (publish_walk rows' m before rest c)
  unfolding publish_walk subscribe_entry
  walk-Mirrored m before [] c a = record {
    unlimited = a.unlimited;
    distinct = a.distinct_before;
    flagged = a.flagged_before;
    known = subst (λ x. All (Knows x) c.subscribers) (mixed-end before) a.known;
  }
  walk-Mirrored m before (s ∷ ss) c a = elim (Bool-cases (matches rows' m s)) [
    | inl h ↦
        let s' = with_privs m.pool_privs s in
        rw h (
          walk-Mirrored m (before ++ s' ∷ []) ss (publish_entry (subscribe_entry rows' s') c)
            (told-At m before ss s c a))
    | inr h ↦ rw h (walk-Mirrored m (before ++ s ∷ []) ss c (passed-At m before ss s c a h))
  ]

  All-none :
      (ss : List Published)
      → All {A = Published} (λ s. All {A = Published} (λ b. same_id b.id s.id ≡ false) []) ss
  All-none [] = tt
  All-none (s ∷ ss) = (tt, All-none ss)

  no-Knows :
      (c : Context) (ss : List Subscriber) (m : Known) → is_empty ss ≡ true → All (Knows m) ss
  no-Knows c [] m h = tt
  no-Knows c (s ∷ ss) m h = cc

  start-At :
      (m : MatchParam) (c : Context)
      → Mirrored rows c
      → All (λ s. matches rows' m s ≡ false → synced rows' s ≡ synced rows s) c.sessions
      → At m [] c.sessions c
  unfolding Distinct mixed current
  start-At m c v unmatched = record {
    unlimited = v.unlimited;
    distinct_before = tt;
    distinct_rest = v.distinct;
    apart = All-none c.sessions;
    flagged_before = tt;
    flagged_rest = v.flagged;
    unmatched = unmatched;
    known = v.known;
  }

  matched-Mirrored :
      (m : MatchParam) (c : Context)
      → Mirrored rows c
      → All (λ s. matches rows' m s ≡ false → synced rows' s ≡ synced rows s) c.sessions
      → Mirrored rows' (publish_matched_server_sessions rows' m c)
  unfolding publish_matched_server_sessions
  matched-Mirrored m c v unmatched = elim (Bool-cases (is_empty c.subscribers)) [
    | inl h ↦ rw h (record {
      unlimited = v.unlimited;
      distinct = v.distinct;
      flagged = v.flagged;
      known = no-Knows c c.subscribers (current rows' c.sessions) h;
    })
    | inr h ↦ rw h (walk-Mirrored m [] c.sessions c (start-At m c v unmatched))
  ]

  -- A change of the database that the callback tells of.
  pub change-Mirrored :
      (call : Callback) (c : Context)
      → Mirrored rows c
      → All
          (λ s. matches rows' (param_of call) s ≡ false → synced rows' s ≡ synced rows s)
          c.sessions
      → Mirrored rows' (change_callback rows' call c)
  unfolding change_callback
  change-Mirrored call c v unmatched = matched-Mirrored (param_of call) c v unmatched
