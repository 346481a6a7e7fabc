-- ===== src/Manager/Soundness.antt =====
-- The invariant of src/manager/lifecycle.ts: every instance of the store heads a valid receipt
-- chain, and the receipt at its head fits the instance as `status` demands.
pub mod Launch
pub mod Commit
pub mod Mutate
pub mod Lock
pub mod Query
pub mod Reached
pub mod Reports
pub mod Status
use dsh_runtime_kit.Base.{
  ℕ, ◌≡◌, refl, sym, ap, subst, ◌∙◌, inl, inr, String, Bool, true, false, ◌&&◌, ◌||◌, List, [], ◌∷◌,
  str_eq, eq_iff, eq_refl, if◌then◌else◌, Option, none, some, Table, lookup, insert, lookup-insert,
  arith, Bool-cases, Option-cases, and-eq-true, true_of_and, some_inj,
}
use dsh_runtime_kit.Manager.Value.{Identity, canonical_identity}
use dsh_runtime_kit.Manager.States.{
  State, Operation, same_state, includes, lifecycle_transition, transient_receipt_sources,
}
use dsh_runtime_kit.Manager.Receipts.{
  Receipt, receipt_digest, receipt_identity, receipt_observed, validate_runtime_receipt,
  compute_manager_document_digest,
}
use dsh_runtime_kit.Manager.Store.{Instance, Store}
use dsh_runtime_kit.Manager.Chain.{receipt_chain_valid, receipt_head_valid, head_fits, link_valid}
use dsh_runtime_kit.Manager.Chain.Extend.{Unclashed, insert-Keeps, insert-chain_valid}

link_of :
    (sha : Receipt → String) (identity : Identity) (d : String) (r : Receipt)
    → (validate_runtime_receipt sha r
        && str_eq (receipt_digest r) d
        && str_eq (canonical_identity (receipt_identity r)) (canonical_identity identity))
      ≡ true
    → link_valid sha identity d none r ≡ true
unfolding link_valid
link_of sha identity d r h = true_of_and _ _ h refl

tests_of :
    (sha : Receipt → String) (identity : Identity) (d : String) (r : Receipt)
    → link_valid sha identity d none r ≡ true
    → (validate_runtime_receipt sha r
        && str_eq (receipt_digest r) d
        && str_eq (canonical_identity (receipt_identity r)) (canonical_identity identity))
      ≡ true
unfolding link_valid
tests_of sha identity d r h = (and-eq-true _ _ h).0

module _ (sha : Receipt → String) where
  pub record InstanceSound (receipts : Table Receipt) (i : Instance) : Type 0 where
    pub chained : receipt_chain_valid sha receipts i.identity i.receipt_head ≡ some true
    pub headed : receipt_head_valid sha receipts i ≡ true

  abbrev pub TablesSound : Table Instance → Table Receipt → Type 0
  TablesSound instances receipts =
      (namespace : String) (i : Instance)
      → lookup namespace instances ≡ some i
      → InstanceSound receipts i

  abbrev pub Sound : Store → Type 0
  Sound s = TablesSound s.instances s.receipts

  -- The receipt at the head of a sound instance.
  pub record Head (receipts : Table Receipt) (i : Instance) : Type 0 where
    pub digest : String
    pub document : Receipt
    pub is_head : i.receipt_head ≡ some digest
    pub stored : lookup digest receipts ≡ some document
    pub linked : link_valid sha i.identity digest none document ≡ true
    pub fits : head_fits i document ≡ true

  split :
      (receipts : Table Receipt) (i : Instance) (d : String) (document : Receipt)
      → i.receipt_head ≡ some d
      → lookup d receipts ≡ some document
      → (validate_runtime_receipt sha document
          && str_eq (receipt_digest document) d
          && str_eq (canonical_identity (receipt_identity document)) (canonical_identity i.identity)
          && head_fits i document)
        ≡ true
      → Head receipts i
  split receipts i d document is_head stored tests = record {
    digest = d;
    document = document;
    is_head = is_head;
    stored = stored;
    linked = link_of sha i.identity d document (and-eq-true _ _ tests).0;
    fits = (and-eq-true _ _ tests).1;
  }

  pub head_of :
      (receipts : Table Receipt) (i : Instance)
      → receipt_head_valid sha receipts i ≡ true
      → Head receipts i
  unfolding receipt_head_valid
  head_of receipts i h = elim (Option-cases i.receipt_head) [
    | inl missing ↦ absurd (clash (rw (missing, receipt_head_valid) at h))
    | inr (d, is_head) ↦ elim (Option-cases (lookup d receipts)) [
      | inl missing ↦ absurd (clash (rw (is_head, missing, receipt_head_valid) at h))
      | inr (document, stored) ↦
          split receipts i d document is_head stored (rw (is_head, stored, receipt_head_valid) at h)
    ]
  ]
    where
      clash : false ≡ true → ⊥
      clash e = cc

  pub head_valid_of :
      (receipts : Table Receipt) (i : Instance)
      → Head receipts i
      → receipt_head_valid sha receipts i ≡ true
  unfolding receipt_head_valid
  head_valid_of receipts i head =
      rw (head.is_head, head.stored, receipt_head_valid)
        (true_of_and _ _ (tests_of sha i.identity head.digest head.document head.linked) head.fits)

  -- A new receipt under its own digest leaves every instance sound.
  pub receipts-grow :
      (instances : Table Instance) (m : Table Receipt) (n : String) (new : Receipt)
      → Unclashed sha m n new
      → TablesSound instances m
      → TablesSound instances (insert n new m)
  receipts-grow instances m n new unclashed sound namespace i found =
      let one = sound namespace i found in
      let head = head_of m i one.headed in
      record {
        chained = insert-chain_valid sha m i.identity i.receipt_head n new unclashed one.chained;
        headed = head_valid_of (insert n new m) i (record {
          digest = head.digest;
          document = head.document;
          is_head = head.is_head;
          stored =
              insert-Keeps sha m i.identity n new unclashed head.digest none head.document
                head.stored head.linked;
          linked = head.linked;
          fits = head.fits;
        });
      }

  -- A sound instance may take any place.
  pub insert-TablesSound :
      (instances : Table Instance) (m : Table Receipt) (namespace : String) (new : Instance)
      → TablesSound instances m
      → InstanceSound m new
      → TablesSound (insert namespace new instances) m
  insert-TablesSound instances m namespace new sound one other i found =
      elim (Bool-cases (str_eq namespace other)) [
        | inl same ↦
            subst (InstanceSound m)
              (some_inj (rw (lookup-insert namespace other new instances, same) at found)) one
        | inr apart ↦
            sound other i (rw (lookup-insert namespace other new instances, apart) at found)
      ]
