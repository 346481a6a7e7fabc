-- ===== src/Manager/Requests.antt =====
-- The mutation requests: validateCommonMutation, validateLockRequest, validateAssertionMutation and
-- validateUnauthenticatedMutation of src/manager/lifecycle.ts. A request that passes is read into
-- one record; a field that its operation has not is `none`.
use dsh_runtime_kit.Base.{
  String, Bool, true, false, not, ◌&&◌, List, [], ◌∷◌, ◌++◌, str_eq, if◌then◌else◌, Option, none,
  some, Check, ok, err, ◌>>=◌, ◌>>◌, require,
}
use dsh_runtime_kit.Manager.Value.{
  Value, null, undefined, Fields, Identity, get, get?, plain_record, exact_keys, is_same_text,
  identity, text, digest, uint64,
}
use dsh_runtime_kit.Manager.States.{
  Operation, State, absent, locked, running, drained, interrupted, stopped, state_name, lock, start,
  resume, interrupt, drain, stop,
}

-- What a lock takes from the resolved composition that its request carries.
pub record Composition : Type 0 where
  pub digest : String
  pub scope_class : String
  pub health_required : List String
  pub health_optional : List String
  pub resource_classes : List String

pub record LockDocuments : Type 0 where
  pub composition : Composition
  pub lock_receipt_digest : String
  pub admission_seal : Value

pub record Request : Type 0 where
  pub source : Fields
  pub operation : Operation
  pub request_id : String
  pub idempotency_key : String
  pub request_digest : String
  pub identity : Identity
  pub expected_state : State
  pub admission_seal_digest : Option String
  pub prior_receipt_digest : Option String
  pub run_identity : Option String
  pub receipt_chain_head : Option String
  pub runtime_assertion : Value
  pub lock_documents : Option LockDocuments

-- The validators of src/composition and the digest of src/manager/contracts.ts that parsing calls.
pub record Documents : Type 0 where
  pub compute_semantic_request_digest : Fields → String
  pub validate_resolved_composition : Value → Check Composition
  pub validate_composition_lock_receipt : Value → Composition → Check String

abbrev pub api_version : String
api_version = "runtime.sympoies.dev/v1"

-- MUTATION_KINDS
abbrev pub mutation_kind : Operation → String
mutation_kind lock = "LockInstanceRequest"
mutation_kind start = "StartInstanceRequest"
mutation_kind resume = "ResumeInstanceRequest"
mutation_kind interrupt = "InterruptInstanceRequest"
mutation_kind drain = "DrainInstanceRequest"
mutation_kind stop = "StopInstanceRequest"

abbrev common_keys : List String
common_keys =
    "apiVersion" ∷ "kind" ∷ "requestId" ∷ "idempotencyKey" ∷ "requestDigest" ∷ "identity"
    ∷ "expectedState" ∷ []

abbrev assertion_keys : List String
assertion_keys =
    "priorReceiptDigest" ∷ "admissionSealDigest" ∷ "runtimeAssertion" ∷ "runtimeAssertionDigest"
    ∷ []

abbrev lock_keys : List String
lock_keys =
    "resolvedComposition" ∷ "resolvedCompositionDigest" ∷ "compositionLockReceipt" ∷ "admissionSeal"
    ∷ "admissionSealDigest" ∷ "runtimeAssertion" ∷ "runtimeAssertionDigest" ∷ []

-- `request.expectedState`, which must name one of the states.
unfoldable pub expected_state : List State → Value → Check State
expected_state [] v = err "invalid-request"
expected_state (s ∷ ss) v = if is_same_text v (state_name s) then ok s else expected_state ss v

abbrev pub is_null : Value → Bool
is_null null = true
is_null _ = false

-- `value?.metadata?.digest`
abbrev pub metadata_digest : Value → Value
metadata_digest v = get? "digest" (get? "metadata" v)

module _ (d : Documents) where
  unfoldable pub validate_common_mutation : Operation → Fields → Check Request
  unfolding get is_same_text
  validate_common_mutation op fs = do
    require
        (is_same_text (get "apiVersion" fs) api_version
          && is_same_text (get "kind" fs) (mutation_kind op))
        "invalid-request"
    request_id ← text 256 (get "requestId" fs)
    key ← text 256 (get "idempotencyKey" fs)
    request_digest ← digest (get "requestDigest" fs)
    i ← identity (get "identity" fs)
    require (str_eq (d.compute_semantic_request_digest fs) request_digest) "invalid-request"
    ok (record {
      source = fs;
      operation = op;
      request_id = request_id;
      idempotency_key = key;
      request_digest = request_digest;
      identity = i;
      expected_state = absent;
      admission_seal_digest = none;
      prior_receipt_digest = none;
      run_identity = none;
      receipt_chain_head = none;
      runtime_assertion = undefined;
      lock_documents = none;
    })

  unfoldable pub validate_lock_request : Value → Check Request
  unfolding validate_common_mutation plain_record exact_keys expected_state
  validate_lock_request value = do
    fs ← plain_record value
    exact_keys fs (common_keys ++ lock_keys) []
    request ← validate_common_mutation lock fs
    expected ← expected_state (absent ∷ []) (get "expectedState" fs)
    composition ← d.validate_resolved_composition (get "resolvedComposition" fs)
    receipt ← d.validate_composition_lock_receipt (get "compositionLockReceipt" fs) composition
    require (is_same_text (get "resolvedCompositionDigest" fs) composition.digest)
        "stale-resolution"
    seal_digest ← digest (get "admissionSealDigest" fs)
    require (is_same_text (metadata_digest (get "admissionSeal" fs)) seal_digest) "seal-invalid"
    require
        (not (is_null (get "runtimeAssertion" fs))
          && not (is_null (get "runtimeAssertionDigest" fs)))
        "assertion-invalid"
    digest (get "runtimeAssertionDigest" fs)
    ok (record request {
      expected_state = expected;
      admission_seal_digest = some seal_digest;
      runtime_assertion = get "runtimeAssertion" fs;
      lock_documents = some (record {
        composition = composition;
        lock_receipt_digest = receipt;
        admission_seal = get "admissionSeal" fs;
      });
    })

  -- `start` and `resume`
  unfoldable pub validate_assertion_mutation : Operation → List State → Value → Check Request
  unfolding validate_common_mutation plain_record exact_keys expected_state
  validate_assertion_mutation op states value = do
    fs ← plain_record value
    exact_keys fs (common_keys ++ assertion_keys) []
    request ← validate_common_mutation op fs
    prior ← digest (get "priorReceiptDigest" fs)
    seal_digest ← digest (get "admissionSealDigest" fs)
    assertion_digest ← digest (get "runtimeAssertionDigest" fs)
    require (is_same_text (metadata_digest (get "runtimeAssertion" fs)) assertion_digest)
        "assertion-invalid"
    expected ← expected_state states (get "expectedState" fs)
    ok (record request {
      expected_state = expected;
      admission_seal_digest = some seal_digest;
      prior_receipt_digest = some prior;
      runtime_assertion = get "runtimeAssertion" fs;
    })

  unfoldable pub validate_interrupt_request : Value → Check Request
  unfolding validate_common_mutation plain_record exact_keys expected_state
  validate_interrupt_request value = do
    fs ← plain_record value
    exact_keys fs (common_keys ++ "runIdentity" ∷ []) []
    request ← validate_common_mutation interrupt fs
    expected ← expected_state (running ∷ []) (get "expectedState" fs)
    run ← text 256 (get "runIdentity" fs)
    ok (record request { expected_state = expected; run_identity = some run })

  -- `if (request.publisherEpoch !== null) uint64(...)`
  unfoldable pub publisher_epoch : Value → Check (Unit {0})
  publisher_epoch v = if is_null v then ok tt else uint64 v >> ok tt

  unfoldable pub validate_drain_request : Value → Check Request
  unfolding validate_common_mutation plain_record exact_keys expected_state publisher_epoch
  validate_drain_request value = do
    fs ← plain_record value
    exact_keys fs
        (common_keys ++ "triggerFenceDigest" ∷ "publisherEpoch" ∷ "deadlinePolicyDigest" ∷ []) []
    request ← validate_common_mutation drain fs
    expected ← expected_state (running ∷ interrupted ∷ []) (get "expectedState" fs)
    digest (get "triggerFenceDigest" fs)
    publisher_epoch (get "publisherEpoch" fs)
    digest (get "deadlinePolicyDigest" fs)
    ok (record request { expected_state = expected })

  unfoldable pub validate_stop_request : Value → Check Request
  unfolding validate_common_mutation plain_record exact_keys expected_state
  validate_stop_request value = do
    fs ← plain_record value
    exact_keys fs (common_keys ++ "receiptChainHead" ∷ []) []
    request ← validate_common_mutation stop fs
    expected ← expected_state (drained ∷ []) (get "expectedState" fs)
    head ← digest (get "receiptChainHead" fs)
    ok (record request { expected_state = expected; receipt_chain_head = some head })

  -- The validator of each operation, as `lock` and `mutate` choose it.
  unfoldable pub validate_mutation : Operation → Value → Check Request
  unfolding validate_lock_request validate_assertion_mutation validate_interrupt_request
      validate_drain_request validate_stop_request
  validate_mutation lock v = validate_lock_request v
  validate_mutation start v = validate_assertion_mutation start (locked ∷ []) v
  validate_mutation resume v = validate_assertion_mutation resume (interrupted ∷ stopped ∷ []) v
  validate_mutation interrupt v = validate_interrupt_request v
  validate_mutation drain v = validate_drain_request v
  validate_mutation stop v = validate_stop_request v
