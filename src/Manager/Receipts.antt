-- ===== src/Manager/Receipts.antt =====
-- The receipts that the manager writes, and their validation: validateLifecycleReceipt,
-- validateQuarantineReceipt and validateRuntimeReceipt of src/manager/contracts.ts. A receipt is a
-- typed document here: its `apiVersion` and its `kind`, which are fixed by its constructor and its
-- operation, are left out, and so is the test that it has no other field.
use dsh_runtime_kit.Base.{
  String, Bool, true, false, not, ◌&&◌, List, [], ◌∷◌, ◌++◌, elem, all, str_eq, Option, none, some,
}
use dsh_runtime_kit.Manager.Value.{Identity, is_text, is_digest, is_identity, identity_texts}
use dsh_runtime_kit.Manager.Secrets.{is_secret, is_utc}
use dsh_runtime_kit.Manager.States.{
  Operation, State, same_state, includes, mutation_transition, quarantined,
}

pub record LifecycleReceipt : Type 0 where
  pub digest : String
  pub operation : Operation
  pub identity : Identity
  pub idempotency_key : String
  pub source_state : State
  pub observed_state : State
  pub composition_lock_receipt_digest : String
  pub resolved_composition_digest : String
  pub admission_seal_digest : String
  pub request_digest : String
  pub prior_receipt_digest : Option String
  pub seal_trust_acceptance_receipt_digest : Option String
  pub assertion_trust_acceptance_receipt_digest : Option String
  pub session_identity : Option String
  pub effect_summary_digest : Option String
  pub timestamp : String

pub record QuarantineReceipt : Type 0 where
  pub digest : String
  pub original_operation : Operation
  pub original_idempotency_key : String
  pub original_request_digest : String
  pub identity : Identity
  pub source_state : State
  pub last_observed_state : State
  pub journal_evidence_digest : String
  pub dsh_evidence_digest : String
  pub prior_receipt_digest : Option String
  pub reason_code : String
  pub observed_state : State

pub data Receipt : Type 0 where
  lifecycle : LifecycleReceipt → Receipt
  quarantine : QuarantineReceipt → Receipt

-- The fields that the two kinds share, as the manager reads them.
abbrev pub receipt_digest : Receipt → String
receipt_digest (lifecycle r) = r.digest
receipt_digest (quarantine r) = r.digest

abbrev pub receipt_identity : Receipt → Identity
receipt_identity (lifecycle r) = r.identity
receipt_identity (quarantine r) = r.identity

abbrev pub receipt_source : Receipt → State
receipt_source (lifecycle r) = r.source_state
receipt_source (quarantine r) = r.source_state

abbrev pub receipt_observed : Receipt → State
receipt_observed (lifecycle r) = r.observed_state
receipt_observed (quarantine r) = r.observed_state

abbrev pub receipt_prior : Receipt → Option String
receipt_prior (lifecycle r) = r.prior_receipt_digest
receipt_prior (quarantine r) = r.prior_receipt_digest

abbrev pub zero_digest : String
zero_digest = "sha256:0000000000000000000000000000000000000000000000000000000000000000"

abbrev pub set_digest : String → Receipt → Receipt
set_digest d (lifecycle r) = lifecycle (record r { digest = d })
set_digest d (quarantine r) = quarantine (record r { digest = d })

-- `if (field !== null) test(field)`
abbrev pub none_or : (String → Bool) → Option String → Bool
none_or test none = true
none_or test (some s) = test s

abbrev pub is_some : Option String → Bool
is_some none = false
is_some (some s) = true

abbrev pub present : Option String → List String
present none = []
present (some s) = s ∷ []

-- Whether the receipt's trust evidence is what its operation wants.
unfoldable pub has_evidence : Operation → Bool → Bool → Bool
has_evidence Operation.lock seal assertion = seal && assertion
has_evidence Operation.start seal assertion = not seal && assertion
has_evidence Operation.resume seal assertion = not seal && assertion
has_evidence _ seal assertion = not seal && not assertion

-- `lock` has no session; every other operation names one.
unfoldable pub has_session : Operation → Option String → Bool
has_session Operation.lock none = true
has_session Operation.lock (some s) = false
has_session _ none = false
has_session _ (some s) = is_text 256 s

-- The texts of a receipt that no pattern above binds to a digest or a time.
abbrev pub lifecycle_texts : LifecycleReceipt → List String
lifecycle_texts r =
    identity_texts r.identity
    ++ r.idempotency_key
      ∷ r.digest
      ∷ r.composition_lock_receipt_digest
      ∷ r.resolved_composition_digest
      ∷ r.admission_seal_digest
      ∷ r.request_digest
      ∷ r.timestamp
      ∷ present r.prior_receipt_digest
    ++ present r.seal_trust_acceptance_receipt_digest
    ++ present r.assertion_trust_acceptance_receipt_digest
    ++ present r.session_identity
    ++ present r.effect_summary_digest

abbrev pub quarantine_texts : QuarantineReceipt → List String
quarantine_texts r =
    identity_texts r.identity
    ++ r.original_idempotency_key
      ∷ r.digest
      ∷ r.original_request_digest
      ∷ r.journal_evidence_digest
      ∷ r.dsh_evidence_digest
      ∷ r.reason_code
      ∷ present r.prior_receipt_digest

abbrev pub secret_free : List String → Bool
secret_free texts = all (λ s. not (is_secret s)) texts

-- The tests of `validateLifecycleReceipt` that read one or two fields.
unfoldable pub has_lifecycle_fields : LifecycleReceipt → Bool
unfolding has_evidence has_session
has_lifecycle_fields r =
    is_digest r.digest
    && is_identity r.identity
    && is_text 256 r.idempotency_key
    && includes (mutation_transition r.operation).sources r.source_state
    && same_state r.observed_state (mutation_transition r.operation).terminal
    && is_digest r.composition_lock_receipt_digest
    && is_digest r.resolved_composition_digest
    && is_digest r.admission_seal_digest
    && is_digest r.request_digest
    && none_or is_digest r.prior_receipt_digest
    && none_or is_digest r.seal_trust_acceptance_receipt_digest
    && none_or is_digest r.assertion_trust_acceptance_receipt_digest
    && none_or is_digest r.effect_summary_digest
    && has_evidence r.operation (is_some r.seal_trust_acceptance_receipt_digest)
        (is_some r.assertion_trust_acceptance_receipt_digest)
    && has_session r.operation r.session_identity
    && is_utc r.timestamp

-- The same for `validateQuarantineReceipt`.
unfoldable pub has_quarantine_fields : QuarantineReceipt → Bool
has_quarantine_fields r =
    includes (mutation_transition r.original_operation).sources r.source_state
    && elem r.reason_code ("authoritative-truth-unavailable" ∷ "stable-conflict" ∷ [])
    && same_state r.observed_state quarantined
    && is_digest r.digest
    && is_text 256 r.original_idempotency_key
    && is_identity r.identity
    && is_digest r.original_request_digest
    && is_digest r.journal_evidence_digest
    && is_digest r.dsh_evidence_digest
    && none_or is_digest r.prior_receipt_digest

-- `sha` is the SHA-256 digest of a receipt's canonical text under its kind's domain tag.
module _ (sha : Receipt → String) where
  -- `computeManagerDocumentDigest`: `digestProjection` leaves the digest itself out.
  unfoldable pub compute_manager_document_digest : Receipt → String
  compute_manager_document_digest r = sha (set_digest zero_digest r)

  unfoldable pub validate_lifecycle_receipt : LifecycleReceipt → Bool
  unfolding compute_manager_document_digest
  validate_lifecycle_receipt r =
      has_lifecycle_fields r
      && str_eq (compute_manager_document_digest (lifecycle r)) r.digest
      && secret_free (lifecycle_texts r)

  unfoldable pub validate_quarantine_receipt : QuarantineReceipt → Bool
  unfolding compute_manager_document_digest
  validate_quarantine_receipt r =
      has_quarantine_fields r
      && str_eq (compute_manager_document_digest (quarantine r)) r.digest
      && secret_free (quarantine_texts r)

  unfoldable pub validate_runtime_receipt : Receipt → Bool
  unfolding validate_lifecycle_receipt validate_quarantine_receipt
  validate_runtime_receipt (lifecycle r) = validate_lifecycle_receipt r
  validate_runtime_receipt (quarantine r) = validate_quarantine_receipt r
