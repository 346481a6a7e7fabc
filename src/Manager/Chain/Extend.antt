-- ===== src/Manager/Chain/Extend.antt =====
-- A receipt that names a valid chain's head extends the chain, and no other chain loses a link:
-- receiptChainValid of src/manager/lifecycle.ts behind `store.receipts.set`.
use dsh_runtime_kit.Base.{
  ℕ, suc, ◌+◌, ◌≡◌, refl, sym, ap, subst, ◌∙◌, inl, inr, String, true, false, [], ◌∷◌, str_eq,
  eq_iff, eq_refl, Option, none, some, Table, lookup, insert, lookup-insert, length, arith,
  Bool-cases, Option-cases, and-eq-true, true_of_and, some_inj,
}
use dsh_runtime_kit.Manager.Value.{Identity}
use dsh_runtime_kit.Manager.States.{State, absent, same_state}
use dsh_runtime_kit.Manager.Receipts.{
  Receipt, lifecycle, quarantine, receipt_prior, receipt_source, receipt_observed, receipt_digest,
  validate_runtime_receipt, compute_manager_document_digest,
}
use dsh_runtime_kit.Manager.Chain.{link_valid, walk_chain, receipt_chain_valid, chain_fuel}
use dsh_runtime_kit.Manager.Chain.Fuel.{receipt_chain_valid-total}
use dsh_runtime_kit.Manager.Chain.Walks.{
  Keeps, walk_behind, walk_kept, walk_more, walk_on, walk_seen_prior, walk_step,
}

validated-digest :
    (sha : Receipt → String) (r : Receipt)
    → validate_runtime_receipt sha r ≡ true
    → compute_manager_document_digest sha r ≡ receipt_digest r
unfolding validate_runtime_receipt
validated-digest sha (lifecycle r) h = (eq_iff _ _).0 (and-eq-true _ _ (and-eq-true _ _ h).0).1
validated-digest sha (quarantine r) h = (eq_iff _ _).0 (and-eq-true _ _ (and-eq-true _ _ h).0).1

-- What the tests on a link say of the document.
pub link_facts :
    (sha : Receipt → String) (identity : Identity) (k : String) (required : Option State)
    (r : Receipt)
    → link_valid sha identity k required r ≡ true
    → (compute_manager_document_digest sha r ≡ k) × (receipt_digest r ≡ k)
unfolding link_valid
link_facts sha identity k required r h =
    let validated : validate_runtime_receipt sha r ≡ true = ground arith in
    let named : str_eq (receipt_digest r) k ≡ true = ground arith in
    (validated-digest sha r validated ∙ (eq_iff _ _).0 named, (eq_iff _ _).0 named)

-- Whatever is stored under n already, and has n for its computed digest, is the new receipt: storing
-- it under n overwrites no other document of the same SHA-256.
abbrev pub Unclashed : (Receipt → String) → Table Receipt → String → Receipt → Type 0
Unclashed sha m n new =
    (old : Receipt)
    → lookup n m ≡ some old
    → compute_manager_document_digest sha old ≡ n
    → old ≡ new

-- No receipt of the first table gave way, in the second, to another one of the same digest.
abbrev pub NoCollision : (Receipt → String) → Table Receipt → Table Receipt → Type 0
NoCollision sha before after =
    (n : String) (old new : Receipt)
    → lookup n before ≡ some old
    → lookup n after ≡ some new
    → compute_manager_document_digest sha old ≡ n
    → compute_manager_document_digest sha new ≡ n
    → old ≡ new

pub NoCollision-Unclashed :
    (sha : Receipt → String) (m : Table Receipt) (n : String) (new : Receipt)
    → NoCollision sha m (insert n new m)
    → compute_manager_document_digest sha new ≡ n
    → Unclashed sha m n new
NoCollision-Unclashed sha m n new none_lost made old found computed =
    none_lost n old new found (rw (lookup-insert n n new m, eq_refl n)) computed made

module _ (sha : Receipt → String) where
  -- A receipt put under its own digest takes no link from any chain.
  pub insert-Keeps :
      (m : Table Receipt) (identity : Identity) (n : String) (new : Receipt)
      → Unclashed sha m n new
      → Keeps sha identity m (insert n new m)
  insert-Keeps m identity n new unclashed k required r found valid =
      elim (Bool-cases (str_eq n k)) [
        | inl same ↦
            let (computed, digest) = link_facts sha identity k required r valid in
            let at_k : n ≡ k = (eq_iff n k).0 same in
            let one : r ≡ new =
              unclashed r (subst (λ x. lookup x m ≡ some r) (sym at_k) found)
                (computed ∙ sym at_k) in
            rw (lookup-insert n k new m, same) (ap some (sym one))
        | inr other ↦ rw (lookup-insert n k new m, other) found
      ]

-- A link that is valid with no demand on its state is valid under one that its state meets.
relink :
    (sha : Receipt → String) (identity : Identity) (k : String) (r : Receipt) (required : State)
    → link_valid sha identity k none r ≡ true
    → same_state (receipt_observed r) required ≡ true
    → link_valid sha identity k (some required) r ≡ true
unfolding link_valid
relink sha identity k r required h e = true_of_and _ _ (and-eq-true _ _ h).0 e

-- A walk that ends well under some fuel ends well under the fuel of `receipt_chain_valid`.
chain_of_walk :
    (sha : Receipt → String) (m : Table Receipt) (identity : Identity) (head : Option String)
    (fuel : ℕ)
    → walk_chain sha m identity fuel head [] none ≡ some true
    → receipt_chain_valid sha m identity head ≡ some true
unfolding receipt_chain_valid
chain_of_walk sha m identity head fuel h =
    elim (Option-cases (receipt_chain_valid sha m identity head)) [
      | inl stopped ↦ absurd (receipt_chain_valid-total sha m identity head stopped)
      | inr (verdict, found) ↦
          let enough = chain_fuel sha m identity in
          let wide =
            walk_more sha identity m fuel (fuel + enough) head [] none true (omega arith) h in
          let same =
            walk_more sha identity m enough (fuel + enough) head [] none verdict (omega arith)
              found in
          found ∙ sym same ∙ wide
    ]

module _ (sha : Receipt → String) where
  -- No chain that was valid is broken by a new receipt, whatever instance the chain belongs to.
  -- Condition: no other receipt of the digest that it is stored under is stored there.
  pub insert-chain_valid :
      (m : Table Receipt) (identity : Identity) (head : Option String) (n : String) (new : Receipt)
      → Unclashed sha m n new
      → receipt_chain_valid sha m identity head ≡ some true
      → receipt_chain_valid sha (insert n new m) identity head ≡ some true
  unfolding receipt_chain_valid
  insert-chain_valid m identity head n new unclashed h =
      chain_of_walk sha (insert n new m) identity head (chain_fuel sha m identity) (
        walk_kept sha identity m (insert n new m) (insert-Keeps sha m identity n new unclashed)
          (chain_fuel sha m identity) head [] none h)

  -- Whatever is linked under the new receipt's digest is the new receipt.
  behind :
      (m : Table Receipt) (identity : Identity) (d n : String) (new : Receipt)
      → Unclashed sha m n new
      → receipt_prior new ≡ some d
      → (required : Option State) (r : Receipt) → lookup n m ≡ some r
      → link_valid sha identity n required r ≡ true
      → receipt_prior r ≡ some d
  behind m identity d n new unclashed prior required r found valid =
      let (computed, digest) = link_facts sha identity n required r valid in
      ap receipt_prior (unclashed r found computed) ∙ prior

  -- A valid chain grows by a receipt that names its head, carries its own digest and the chain's
  -- identity, and starts from the state that the head's receipt observed. Condition: no other receipt
  -- of its digest is stored under that digest.
  pub extend-chain_valid :
      (m : Table Receipt) (identity : Identity) (d n : String) (last new : Receipt)
      → receipt_chain_valid sha m identity (some d) ≡ some true
      → lookup d m ≡ some last
      → same_state (receipt_observed last) (receipt_source new) ≡ true
      → link_valid sha identity n none new ≡ true
      → receipt_prior new ≡ some d
      → Unclashed sha m n new
      → receipt_chain_valid sha (insert n new m) identity (some n) ≡ some true
  unfolding receipt_chain_valid chain_fuel
  extend-chain_valid m identity d n last new h at_d joins valid prior unclashed =
      let keeps = insert-Keeps sha m identity n new unclashed in
      let (r, fresh, found, linked, rest) = walk_step sha identity m (length m) d [] none h in
      let back = behind m identity d n new unclashed prior in
      let apart : str_eq d n ≡ false = elim (Bool-cases (str_eq d n)) [
        | inl same ↦
            let at_n = (eq_iff d n).0 same in
            absurd (
              walk_seen_prior sha identity m (length m) d (d ∷ []) (some (receipt_source r))
                (ground (arith, eq_refl d))
                (rw
                  (back none r (subst (λ k. lookup k m ≡ some r) at_n found)
                    (subst (λ k. link_valid sha identity k none r ≡ true) at_n linked))
                  at rest))
        | inr other ↦ other
      ] in
      let one : last ≡ r = some_inj (sym at_d ∙ found) in
      chain_of_walk sha (insert n new m) identity (some n) (suc (suc (length m))) (
        walk_on sha identity (insert n new m) (suc (length m)) n [] none new refl
          (rw (lookup-insert n n new m, eq_refl n)) valid
          (rw prior (
            walk_on sha identity (insert n new m) (length m) d (n ∷ []) (some (receipt_source new))
              r (rw apart) (keeps d none r found linked)
              (relink sha identity d r (receipt_source new) linked (
                subst (λ l. same_state (receipt_observed l) (receipt_source new) ≡ true) one joins))
              (walk_behind sha identity m (insert n new m) n d keeps back (length m)
                (receipt_prior r) (d ∷ []) (some (receipt_source r)) (ground (arith, eq_refl d))
                rest))))

  -- A receipt that starts from `Absent` and names no receipt before it is a valid chain alone.
  pub start-chain_valid :
      (m : Table Receipt) (identity : Identity) (n : String) (new : Receipt)
      → link_valid sha identity n none new ≡ true
      → receipt_prior new ≡ none
      → receipt_source new ≡ absent
      → receipt_chain_valid sha (insert n new m) identity (some n) ≡ some true
  unfolding walk_chain
  start-chain_valid m identity n new valid first begins =
      chain_of_walk sha (insert n new m) identity (some n) 2 (
        walk_on sha identity (insert n new m) 1 n [] none new refl
          (rw (lookup-insert n n new m, eq_refl n)) valid alone)
    where
      alone :
          walk_chain sha
            (insert n new m)
            identity
            1
            (receipt_prior new)
            (n ∷ [])
            (some (receipt_source new))
          ≡ some true
      alone = rw (first, begins) refl
