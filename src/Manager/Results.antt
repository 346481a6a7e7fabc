-- ===== src/Manager/Results.antt =====
-- The control protocol's results: the branches of validateManagerResult of src/manager/contracts.ts
-- that `Failures` and `Replays` leave, validateStatusFailure, and correlateManagerResult.
use dsh_runtime_kit.Base.{
  String, Bool, false, not, ◌&&◌, ◌||◌, List, [], ◌∷◌, ◌++◌, leb, elem, all, length, str_eq, Option,
  none, some,
}
use dsh_runtime_kit.Manager.Value.{is_text, is_digest, is_identity, identity_texts, same_identity}
use dsh_runtime_kit.Manager.States.{
  Operation, State, lock, start, resume, interrupt, stop, quarantined, same_operation, same_state,
  includes, mutation_transition, is_instance_state,
}
use dsh_runtime_kit.Manager.Receipts.{
  LifecycleReceipt, QuarantineReceipt, quarantine_texts, none_or, present, secret_free,
  validate_quarantine_receipt, Receipt,
}
use dsh_runtime_kit.Manager.Failures.{FailureDoc, validate_failure}
use dsh_runtime_kit.Manager.Requests.{Request, LockDocuments}
use dsh_runtime_kit.Manager.Store.{IndeterminateDoc, StatusDoc, DoctorDoc, ReconcileDoc, SuccessDoc}
use dsh_runtime_kit.Manager.Chain.{same_option}

-- `boundedStrings`
abbrev pub bounded_strings : List String → Bool
bounded_strings texts = leb (length texts) 1024 && all (is_text 256) texts

unfoldable pub validate_indeterminate : IndeterminateDoc → Bool
validate_indeterminate doc =
    is_text 256 doc.request_id
    && is_text 256 doc.idempotency_key
    && is_identity doc.identity
    && is_transient (mutation_transition doc.operation).transient
    && none_or is_digest doc.receipt_digest
    && secret_free (
        doc.request_id ∷ doc.idempotency_key ∷ identity_texts doc.identity
        ++ present doc.receipt_digest)
  where
    is_transient : Option State → Bool
    is_transient none = false
    is_transient (some s) = same_state doc.last_observed_state s

unfoldable pub validate_status_success : StatusDoc → Bool
validate_status_success doc =
    is_text 256 doc.request_id
    && is_identity doc.identity
    && is_instance_state doc.observed_state
    && none_or (is_text 256) doc.session_identity
    && none_or is_digest doc.receipt_chain_head
    && bounded_strings doc.health_required
    && bounded_strings doc.health_optional
    && secret_free (
        doc.request_id ∷ identity_texts doc.identity
        ++ present doc.session_identity
        ++ present doc.receipt_chain_head
        ++ doc.health_required
        ++ doc.health_optional
        ++ doc.resource_classes)

unfoldable pub validate_doctor_success : DoctorDoc → Bool
validate_doctor_success doc =
    is_text 256 doc.request_id
    && is_identity doc.identity
    && is_instance_state doc.observed_state
    && elem doc.recovery_recommendation ("none" ∷ "reconcile" ∷ [])
    && secret_free (doc.request_id ∷ identity_texts doc.identity)

-- What the three settled results of `reconcile` share; its request's own id is read beside it.
unfoldable pub validate_reconcile_fields : String → ReconcileDoc → Bool
validate_reconcile_fields request_id doc =
    is_text 256 request_id
    && is_identity doc.identity
    && is_text 256 doc.original_idempotency_key
    && is_digest doc.original_request_digest
    && secret_free (
        request_id
        ∷ doc.original_idempotency_key
        ∷ doc.original_request_digest
        ∷ identity_texts doc.identity)

unfoldable pub validate_proved_terminal : String → ReconcileDoc → Bool
validate_proved_terminal request_id doc =
    validate_reconcile_fields request_id doc
    && same_state doc.observed_state (mutation_transition doc.original_operation).terminal

unfoldable pub validate_proved_source : String → ReconcileDoc → Bool
validate_proved_source request_id doc =
    validate_reconcile_fields request_id doc
    && includes (mutation_transition doc.original_operation).sources doc.observed_state

unfoldable pub validate_quarantined :
    (Receipt → String) → String → ReconcileDoc → QuarantineReceipt → Bool
validate_quarantined sha request_id doc receipt =
    validate_reconcile_fields request_id doc
    && same_state doc.observed_state quarantined
    && validate_quarantine_receipt sha receipt
    && same_identity receipt.identity doc.identity
    && same_operation receipt.original_operation doc.original_operation
    && str_eq receipt.original_idempotency_key doc.original_idempotency_key
    && str_eq receipt.original_request_digest doc.original_request_digest
    && secret_free (quarantine_texts receipt)

-- `validateStatusFailure`: a failure of `status` under the four codes that it may have.
unfoldable pub validate_status_failure : FailureDoc → Bool
validate_status_failure doc =
    elem doc.code
      ("invalid-request" ∷ "not-found" ∷ "receipt-chain-invalid" ∷ "runtime-unavailable" ∷ [])
    && validate_failure doc

abbrev lock_matches : Option LockDocuments → LifecycleReceipt → Bool
lock_matches none receipt = false
lock_matches (some d) receipt =
    str_eq receipt.composition_lock_receipt_digest d.lock_receipt_digest
    && str_eq receipt.resolved_composition_digest d.composition.digest

-- The receipt of a result against its request, by the request's kind.
unfoldable pub receipt_matches : Request → LifecycleReceipt → Bool
receipt_matches r receipt =
    same_operation receipt.operation r.operation
    && str_eq receipt.request_digest r.request_digest
    && same_state receipt.source_state r.expected_state
    && (not (same_operation r.operation lock)
        || (same_option receipt.prior_receipt_digest none && lock_matches r.lock_documents receipt))
    && (not (is_sealed r.operation)
        || same_option (some receipt.admission_seal_digest) r.admission_seal_digest)
    && (not (is_resumed r.operation)
        || same_option receipt.prior_receipt_digest r.prior_receipt_digest)
    && (not (same_operation r.operation interrupt)
        || same_option receipt.session_identity r.run_identity)
    && (not (same_operation r.operation stop)
        || same_option receipt.prior_receipt_digest r.receipt_chain_head)
  where
    is_resumed : Operation → Bool
    is_resumed op = same_operation op start || same_operation op resume

    is_sealed : Operation → Bool
    is_sealed op = same_operation op lock || is_resumed op

-- `correlateManagerResult`, for a mutation that succeeded.
unfoldable pub correlate_manager_result : Request → SuccessDoc → Bool
correlate_manager_result r doc =
    str_eq doc.request_id r.request_id
    && same_identity doc.identity r.identity
    && str_eq doc.idempotency_key r.idempotency_key
    && receipt_matches r doc.receipt
