-- ===== src/Manager/Chain/Fuel.antt =====
-- The loop of receiptChainValid (src/manager/lifecycle.ts) ends: each round sees a new receipt.
use dsh_runtime_kit.Base.{
  ℕ, zero, suc, ◌≤◌, ◌<◌, ◌≡◌, ◌≢◌, inl, inr, String, false, List, [], ◌∷◌, elem, eq_iff,
  if◌then◌else◌, Option, none, some, Table, lookup, length, arith, Bool-cases, Option-cases,
}
use dsh_runtime_kit.Manager.Value.{Identity}
use dsh_runtime_kit.Manager.States.{State}
use dsh_runtime_kit.Manager.Receipts.{Receipt, receipt_prior, receipt_source}
use dsh_runtime_kit.Manager.Chain.{walk_chain, chain_fuel, receipt_chain_valid}

-- The entries of the table whose keys are not among those seen.
unseen : List String → Table Receipt → ℕ
unseen seen [] = 0
unseen seen ((k, r) ∷ m) = if elem k seen then unseen seen m else suc (unseen seen m)

unseen-le :
    (d : String) (seen : List String) (m : Table Receipt) → unseen (d ∷ seen) m ≤ unseen seen m
unfolding unseen
unseen-le d seen [] = omega arith
unseen-le d seen ((k, r) ∷ m) = ground (arith, unseen-le d seen m)

unseen-lt :
    (d : String) (seen : List String) (m : Table Receipt) (r : Receipt)
    → elem d seen ≡ false
    → lookup d m ≡ some r
    → unseen (d ∷ seen) m < unseen seen m
unfolding unseen lookup
unseen-lt d seen [] r fresh found = cc
unseen-lt d seen ((k, q) ∷ m) r fresh found =
    ground (arith, unseen-lt d seen m r, unseen-le d seen m, eq_iff k d)

unseen-le-length : (seen : List String) (m : Table Receipt) → unseen seen m ≤ length m
unfolding unseen
unseen-le-length seen [] = omega arith
unseen-le-length seen ((k, r) ∷ m) = ground (arith, unseen-le-length seen m)

module _ (sha : Receipt → String) (receipts : Table Receipt) (identity : Identity) where
  walk_chain-total :
      (fuel : ℕ) (next : Option String) (seen : List String) (required : Option State)
      → unseen seen receipts < fuel
      → walk_chain sha receipts identity fuel next seen required ≢ none
  unfolding walk_chain
  walk_chain-total zero next seen required h = elim h [ ]
  walk_chain-total (suc fuel) none seen required h = λ e. cc
  walk_chain-total (suc fuel) (some d) seen required h = elim (Bool-cases (elem d seen)) [
    | inl old ↦ rw old (λ e. cc)
    | inr new ↦ elim (Option-cases (lookup d receipts)) [
      | inl missing ↦ rw (new, missing) (λ e. cc)
      | inr (r, found) ↦
          let less : unseen (d ∷ seen) receipts < unseen seen receipts =
            unseen-lt d seen receipts r new found in
          let rest =
            walk_chain-total fuel (receipt_prior r) (d ∷ seen) (some (receipt_source r))
              (omega arith) in
          rw (new, found) (ground (arith, rest))
    ]
  ]

  -- The check of a receipt chain always gives an answer: its fuel, one more than the receipts of the
  -- store, is enough from every head, whatever the store holds.
  pub receipt_chain_valid-total :
      (head : Option String) → receipt_chain_valid sha receipts identity head ≢ none
  unfolding receipt_chain_valid chain_fuel
  receipt_chain_valid-total head =
      walk_chain-total (suc (length receipts)) head [] none
        (omega (arith, unseen-le-length [] receipts))
