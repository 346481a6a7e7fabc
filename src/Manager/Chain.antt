-- ===== src/Manager/Chain.antt =====
-- receiptChainValid and receiptHeadValid of src/manager/lifecycle.ts.
pub mod Fuel
pub mod Walks
pub mod Extend
use dsh_runtime_kit.Base.{
  ℕ, zero, suc, ◌+◌, String, Bool, true, false, ◌&&◌, ◌||◌, List, [], ◌∷◌, elem, str_eq,
  if◌then◌else◌, Option, none, some, Table, lookup, length,
}
use dsh_runtime_kit.Manager.Value.{Identity, canonical_identity}
use dsh_runtime_kit.Manager.States.{
  State, absent, quarantined, same_state, includes, transient_receipt_sources,
}
use dsh_runtime_kit.Manager.Receipts.{
  LifecycleReceipt, Receipt, lifecycle, quarantine, receipt_digest, receipt_identity,
  receipt_observed, receipt_prior, receipt_source, validate_runtime_receipt,
}
use dsh_runtime_kit.Manager.Store.{Instance}

-- `===` on a digest or `null`.
abbrev pub same_option : Option String → Option String → Bool
same_option none none = true
same_option none (some t) = false
same_option (some s) none = false
same_option (some s) (some t) = str_eq s t

-- `required !== null && state !== required` is the fault.
abbrev pub meets : Option State → State → Bool
meets none s = true
meets (some required) s = same_state s required

abbrev pub is_nonempty : List String → Bool
is_nonempty [] = false
is_nonempty (x ∷ xs) = true

-- The test at the end of the chain: `seen.size > 0 && requiredObservedState === 'Absent'`.
abbrev pub ends_chain : List String → Option State → Bool
ends_chain seen none = false
ends_chain seen (some required) = is_nonempty seen && same_state required absent

-- The tests on the document that a digest names.
unfoldable pub link_valid : (Receipt → String) → Identity → String → Option State → Receipt → Bool
link_valid sha identity next required document =
    validate_runtime_receipt sha document
    && str_eq (receipt_digest document) next
    && str_eq (canonical_identity (receipt_identity document)) (canonical_identity identity)
    && meets required (receipt_observed document)

module _ (sha : Receipt → String) (receipts : Table Receipt) (identity : Identity) where
  -- The loop, with fuel; `none` means that the fuel ran out.
  unfoldable pub walk_chain : ℕ → Option String → List String → Option State → Option Bool
  walk_chain zero next seen required = none
  walk_chain (suc fuel) none seen required = some (ends_chain seen required)
  walk_chain (suc fuel) (some next) seen required =
      if elem next seen then some false else elim (lookup next receipts) [
        | none ↦ some false
        | some document ↦
            let rest =
              walk_chain fuel (receipt_prior document) (next ∷ seen)
                (some (receipt_source document)) in
            if link_valid sha identity next required document then rest else some false
      ]

  -- No chain has more links than the store has receipts.
  unfoldable pub chain_fuel : ℕ
  chain_fuel = suc (length receipts)

  unfoldable pub receipt_chain_valid : Option String → Option Bool
  receipt_chain_valid head = walk_chain chain_fuel head [] none

-- `instance.pendingSourceReceiptHead === instance.receiptHead`
abbrev pub is_pending : Option (Option String) → Option String → Bool
is_pending none head = false
is_pending (some p) head = same_option p head

-- The session and the digests of a receipt are the instance's.
unfoldable pub carries : LifecycleReceipt → Instance → Bool
carries r i =
    same_option r.session_identity i.session_identity
    && str_eq r.composition_lock_receipt_digest i.composition_lock_receipt_digest
    && str_eq r.resolved_composition_digest i.resolved_composition_digest
    && str_eq r.admission_seal_digest i.admission_seal_digest

-- The document at the head of an instance's chain fits the instance.
unfoldable pub head_fits : Instance → Receipt → Bool
unfolding carries
head_fits i (quarantine r) =
    same_state i.state quarantined && same_state r.observed_state quarantined
head_fits i (lifecycle r) =
    (same_state r.observed_state i.state
      || (is_pending i.pending_source_receipt_head i.receipt_head
          && includes (transient_receipt_sources i.state) r.observed_state))
    && carries r i

module _ (sha : Receipt → String) (receipts : Table Receipt) where
  unfoldable pub receipt_head_valid : Instance → Bool
  unfolding head_fits
  receipt_head_valid i = elim i.receipt_head [
    | none ↦ false
    | some head ↦ elim (lookup head receipts) [
      | none ↦ false
      | some document ↦
          validate_runtime_receipt sha document
          && str_eq (receipt_digest document) head
          && str_eq (canonical_identity (receipt_identity document)) (canonical_identity i.identity)
          && head_fits i document
    ]
  ]
