-- ===== src/Auth/Users/Refine.antt =====
-- The operations on the users, against the map that a client sees.
use fast_cfs.Base.{
  ◌⊎◌, ℕ, ◌<◌, ◌≤◌, ◌≡◌, Option, none, some, if◌then◌else◌, ◌==◌, refl, ap, ◌∙◌, sym, arith,
  Bool-cases, inl, inr,
}
use fast_cfs.Auth.Types.{UserInfo}
use fast_cfs.Auth.Backend.{Skiplist, IsSkiplist}
use fast_cfs.Auth.Db.{Db, user_get}
use fast_cfs.Auth.Users.View.{account_of, account_at, view, UserInv, Draft}

module _ {S T : Type 0} (sl : Skiplist T) (db0 db : Db S T) (p k : ℕ) (info : UserInfo)
    (v : UserInv sl db0) (d : Draft db0 db p k info) where
  row-draft : (q : ℕ) → (db.users q).user ≡ (if q == p then info else (db0.users q).user)
  row-draft q = elim (Bool-cases (q == p)) [
    | inl same ↦ ground (arith, d.at)
    | inr other ↦ ground (arith, d.others q)
  ]

  module _ (list : db.user_list ≡ db0.user_list) where
    found_before : (j q : ℕ) → user_get sl db j ≡ some q → user_get sl db0 j ≡ some q
    found_before j q e = ap (λ t. sl.find t j) (sym list) ∙ e

    module _ (n : ℕ) (found : user_get sl db0 n ≡ some p) where
      account-draft :
          (j : ℕ) (o : Option ℕ)
          → user_get sl db0 j ≡ o
          → account_at db o ≡ (if j == n then account_of info else account_at db0 o)
      unfolding account_at
      account-draft j none e = ground arith
      account-draft j (some q) e =
          rw (row-draft q) (ground (arith, v.named j q e, v.named n p found))

      -- A row that is linked already.
      pub view-changed :
          (j : ℕ) → view sl db j ≡ (if j == n then account_of info else view sl db0 j)
      unfolding view
      view-changed j =
          ap (λ t. account_at db (sl.find t j)) list ∙ account-draft j (user_get sl db0 j) refl

      pub inv-changed : info.name ≡ n → db0.next_user ≤ k → UserInv sl db
      inv-changed same le = record {
        named = λ j q e.
            ground (arith, row-draft q, v.named j q (found_before j q e), v.named n p found);
        below = λ j q e. ground (arith, d.next, v.below j q (found_before j q e));
      }

    module _ (fresh : db0.next_user ≤ p) where
      account-fresh :
          (j : ℕ) (o : Option ℕ) → user_get sl db0 j ≡ o → account_at db o ≡ account_at db0 o
      unfolding account_at
      account-fresh j none e = refl
      account-fresh j (some q) e = rw (row-draft q) (ground (arith, v.below j q e))

      -- A row that no list has.
      pub view-fresh : (j : ℕ) → view sl db j ≡ view sl db0 j
      unfolding view
      view-fresh j =
          ap (λ t. account_at db (sl.find t j)) list ∙ account-fresh j (user_get sl db0 j) refl

      pub inv-fresh : db0.next_user ≤ k → UserInv sl db
      inv-fresh le = record {
        named = λ j q e. ground (
          arith,
          row-draft q,
          v.named j q (found_before j q e),
          v.below j q (found_before j q e),
        );
        below = λ j q e. ground (arith, d.next, v.below j q (found_before j q e));
      }

  module _ (laws : IsSkiplist sl) (n : ℕ) (missing : user_get sl db0 n ≡ none)
      (list : db.user_list ≡ (sl.insert db0.user_list n p).1) (fresh : db0.next_user ≤ p) where
    found_after : (j : ℕ) → user_get sl db j ≡ (if j == n then some p else user_get sl db0 j)
    found_after j = ap (λ t. sl.find t j) list ∙ laws.find-insert db0.user_list n p j missing

    account-linked :
        (j : ℕ) (o : Option ℕ)
        → user_get sl db0 j ≡ o
        → account_at db (if j == n then some p else o)
          ≡ (if j == n then account_of info else account_at db0 o)
    unfolding account_at
    account-linked j none e = elim (Bool-cases (j == n)) [
      | inl h ↦ simp (h, row-draft p) (ground arith)
      | inr h ↦ rw h
    ]
    account-linked j (some q) e = elim (Bool-cases (j == n)) [
      | inl h ↦ simp (h, row-draft p) (ground arith)
      | inr h ↦ simp (h, row-draft q) (ground (arith, v.below j q e))
    ]

    -- A new row, and its place in the list.
    pub view-linked : (j : ℕ) → view sl db j ≡ (if j == n then account_of info else view sl db0 j)
    unfolding view
    view-linked j = ap (account_at db) (found_after j) ∙ account-linked j (user_get sl db0 j) refl

    linked_cases :
        (j q : ℕ) → user_get sl db j ≡ some q → ((j ≡ n) × (q ≡ p)) ⊎ (user_get sl db0 j ≡ some q)
    linked_cases j q e = elim (Bool-cases (j == n)) [
      | inl h ↦ inl (ground arith, ground (arith, found_after j))
      | inr h ↦ inr (ground (arith, found_after j))
    ]

    pub inv-linked : info.name ≡ n → p < k → UserInv sl db
    inv-linked same le = record {
      named = λ j q e. elim (linked_cases j q e) [
        | inl h ↦ ground (arith, row-draft q)
        | inr h ↦ ground (arith, row-draft q, v.named j q h, v.below j q h)
      ];
      below = λ j q e. elim (linked_cases j q e) [
        | inl h ↦ ground (arith, d.next)
        | inr h ↦ ground (arith, d.next, v.below j q h)
      ];
    }
