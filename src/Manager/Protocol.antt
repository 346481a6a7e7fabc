-- ===== src/Manager/Protocol.antt =====
-- The control protocol's requests: REQUEST_KEYS, validateStatusRequest, validateKnownRequest and
-- assertSecretFree of src/manager/contracts.ts.
use dsh_runtime_kit.Base.{
  ℕ, ◌+◌, String, Bool, false, not, ◌&&◌, ◌||◌, List, [], ◌∷◌, ltb, if◌then◌else◌, Check, ok, err,
  ◌>>=◌, ◌>>◌, require, str_eq,
}
use dsh_runtime_kit.Manager.Value.{
  Value, str, arr, obj, Items, nil, cons, Fields, end, field, Identity, get, exact_keys, text,
  digest, identity, is_same_text,
}
use dsh_runtime_kit.Manager.Secrets.{is_secret}
use dsh_runtime_kit.Manager.States.{
  Operation, State, lock, start, resume, interrupt, drain, stop, mutation_transition, state_name,
}
use dsh_runtime_kit.Manager.Requests.{
  api_version, metadata_digest, publisher_epoch, mutation_kind, is_null,
}
use dsh_runtime_kit.Manager.Store.{Host}
use dsh_runtime_kit.Manager.Query.{null_or_digest}
use dsh_runtime_kit.Manager.Reconcile.{operation_of}

-- `walk` of assertSecretFree; the keys of an object are not searched.
unfoldable mutual
  pub walk_value : ℕ → Value → Check (Unit {0})
  walk_value depth (str s) = require (not (is_secret s)) "secret-shaped-value"
  walk_value depth (arr items) = walk_items (depth + 1) items
  walk_value depth (obj fs) = walk_fields (depth + 1) fs
  walk_value depth _ = ok tt

  pub walk_items : ℕ → Items → Check (Unit {0})
  walk_items depth nil = ok tt
  walk_items depth (cons v items) =
      (if ltb 64 depth then err "schema-invalid" else walk_value depth v) >> walk_items depth items

  pub walk_fields : ℕ → Fields → Check (Unit {0})
  walk_fields depth end = ok tt
  walk_fields depth (field k v fs) =
      (if ltb 64 depth then err "schema-invalid" else walk_value depth v) >> walk_fields depth fs

-- `assertSecretFree`
unfoldable pub assert_secret_free : Value → Check (Unit {0})
assert_secret_free v = walk_value 0 v

pub data RequestKind : Type 0 where
  validate_composition resolve_composition status doctor reconcile : RequestKind
  mutation : Operation → RequestKind

abbrev pub request_kind_name : RequestKind → String
request_kind_name validate_composition = "ValidateCompositionRequest"
request_kind_name resolve_composition = "ResolveCompositionRequest"
request_kind_name status = "StatusInstanceRequest"
request_kind_name doctor = "DoctorInstanceRequest"
request_kind_name reconcile = "ReconcileInstanceRequest"
request_kind_name (mutation op) = mutation_kind op

abbrev mutation_keys : List String → List String
mutation_keys more =
    "apiVersion" ∷ "kind" ∷ "requestId" ∷ "idempotencyKey" ∷ "requestDigest" ∷ "identity"
    ∷ "expectedState" ∷ more

abbrev assertion_keys : List String
assertion_keys =
    "priorReceiptDigest" ∷ "admissionSealDigest" ∷ "runtimeAssertion" ∷ "runtimeAssertionDigest"
    ∷ []

-- REQUEST_KEYS
abbrev pub request_keys : RequestKind → List String
request_keys validate_composition =
    "apiVersion" ∷ "kind" ∷ "requestId" ∷ "descriptors" ∷ "profile" ∷ "readerSchemas" ∷ "runtime"
    ∷ []
request_keys resolve_composition =
    "apiVersion" ∷ "kind" ∷ "requestId" ∷ "validatedDocumentDigests" ∷ "catalogSnapshotDigest"
    ∷ "runtime" ∷ "publicPolicyCeilingDigest" ∷ []
request_keys status = "apiVersion" ∷ "kind" ∷ "requestId" ∷ "identity" ∷ "receiptChainHead" ∷ []
request_keys doctor =
    "apiVersion" ∷ "kind" ∷ "requestId" ∷ "identity" ∷ "expectedCompositionLockReceiptDigest"
    ∷ "expectedAdmissionSealDigest" ∷ "expectedReceiptChainHead" ∷ []
request_keys reconcile =
    "apiVersion" ∷ "kind" ∷ "requestId" ∷ "originalOperation" ∷ "originalIdempotencyKey"
    ∷ "originalRequestDigest" ∷ "identity" ∷ "journalEvidenceDigest" ∷ "dshEvidenceDigest"
    ∷ "expectedSourceStates" ∷ "expectedTerminalState" ∷ []
request_keys (mutation lock) = mutation_keys (
    "resolvedComposition" ∷ "resolvedCompositionDigest" ∷ "compositionLockReceipt" ∷ "admissionSeal"
    ∷ "admissionSealDigest" ∷ "runtimeAssertion" ∷ "runtimeAssertionDigest" ∷ [])
request_keys (mutation start) = mutation_keys assertion_keys
request_keys (mutation resume) = mutation_keys assertion_keys
request_keys (mutation interrupt) = mutation_keys ("runIdentity" ∷ [])
request_keys (mutation drain) =
    mutation_keys ("triggerFenceDigest" ∷ "publisherEpoch" ∷ "deadlinePolicyDigest" ∷ [])
request_keys (mutation stop) = mutation_keys ("receiptChainHead" ∷ [])

-- `REQUEST_KEYS[payload.kind]`, by the kinds of a list.
unfoldable pub kind_of : List RequestKind → Value → Check RequestKind
kind_of [] v = err "unsupported-kind"
kind_of (k ∷ ks) v = if is_same_text v (request_kind_name k) then ok k else kind_of ks v

abbrev pub request_kinds : List RequestKind
request_kinds =
    validate_composition
    ∷ resolve_composition
    ∷ mutation lock
    ∷ mutation start
    ∷ mutation resume
    ∷ status
    ∷ mutation interrupt
    ∷ mutation drain
    ∷ mutation stop
    ∷ doctor
    ∷ reconcile
    ∷ []

-- Whether a value names one of the states.
unfoldable pub names_state : List State → Value → Bool
names_state [] v = false
names_state (s ∷ ss) v = is_same_text v (state_name s) || names_state ss v

-- `boundedStrings(…, 2)`, each a text that names a source of the operation.
unfoldable pub source_states : List State → Value → Check (Unit {0})
source_states sources (arr (cons a nil)) = do
  text 256 a
  require (names_state sources a) "invalid-request"
source_states sources (arr (cons a (cons b nil))) = do
  text 256 a
  text 256 b
  require (names_state sources a && names_state sources b) "invalid-request"
source_states sources (arr nil) = err "invalid-request"
source_states sources _ = err "schema-invalid"

unfoldable pub known_reconcile : Fields → Check (Unit {0})
known_reconcile fs = do
  op ←
      operation_of (lock ∷ start ∷ resume ∷ interrupt ∷ drain ∷ stop ∷ [])
        (get "originalOperation" fs)
  text 256 (get "originalIdempotencyKey" fs)
  digest (get "originalRequestDigest" fs)
  digest (get "journalEvidenceDigest" fs)
  digest (get "dshEvidenceDigest" fs)
  source_states (mutation_transition op).sources (get "expectedSourceStates" fs)
  require
      (is_same_text (get "expectedTerminalState" fs) (state_name (mutation_transition op).terminal))
      "invalid-request"

unfoldable pub known_doctor : Fields → Check (Unit {0})
known_doctor fs = do
  digest (get "expectedCompositionLockReceiptDigest" fs)
  digest (get "expectedAdmissionSealDigest" fs)
  digest (get "expectedReceiptChainHead" fs)
  ok tt

module _ (h : Host) (validate_composition_protocol_request : Fields → Check (Unit {0})) where
  unfoldable pub known_assertion : Operation → Identity → String → Fields → Check (Unit {0})
  known_assertion op i request_digest fs = do
    seal_digest ← digest (get "admissionSealDigest" fs)
    assertion_digest ← digest (get "runtimeAssertionDigest" fs)
    require (is_same_text (metadata_digest (get "runtimeAssertion" fs)) assertion_digest)
        "assertion-invalid"
    h.validate_runtime_assertion (get "runtimeAssertion" fs) seal_digest i (protocol_operation op)
        request_digest
    where
      protocol_operation : Operation → String
      protocol_operation lock = "instance.lock"
      protocol_operation start = "instance.start"
      protocol_operation _ = "instance.resume"

  unfoldable pub known_lock : Identity → String → Fields → Check (Unit {0})
  known_lock i request_digest fs = do
    require (names_state (mutation_transition lock).sources (get "expectedState" fs))
        "invalid-request"
    composition ← h.documents.validate_resolved_composition (get "resolvedComposition" fs)
    receipt ←
        h.documents.validate_composition_lock_receipt (get "compositionLockReceipt" fs) composition
    require (is_same_text (get "resolvedCompositionDigest" fs) composition.digest)
        "stale-resolution"
    seal_digest ← digest (get "admissionSealDigest" fs)
    require (is_same_text (metadata_digest (get "admissionSeal" fs)) seal_digest) "seal-invalid"
    h.validate_admission_seal (get "admissionSeal" fs) composition receipt i
    require
        (not (is_null (get "runtimeAssertion" fs))
          && not (is_null (get "runtimeAssertionDigest" fs)))
        "assertion-invalid"
    known_assertion lock i request_digest fs

  -- The fields of each mutation beside those that all have.
  unfoldable pub known_mutation : Operation → Identity → String → Fields → Check (Unit {0})
  known_mutation lock i request_digest fs = known_lock i request_digest fs
  known_mutation start i request_digest fs = do
    require (names_state (mutation_transition start).sources (get "expectedState" fs))
        "invalid-request"
    digest (get "priorReceiptDigest" fs)
    known_assertion start i request_digest fs
  known_mutation resume i request_digest fs = do
    require (names_state (mutation_transition resume).sources (get "expectedState" fs))
        "invalid-request"
    digest (get "priorReceiptDigest" fs)
    known_assertion resume i request_digest fs
  known_mutation interrupt i request_digest fs = do
    require (names_state (mutation_transition interrupt).sources (get "expectedState" fs))
        "invalid-request"
    text 256 (get "runIdentity" fs)
    ok tt
  known_mutation drain i request_digest fs = do
    require (names_state (mutation_transition drain).sources (get "expectedState" fs))
        "invalid-request"
    digest (get "triggerFenceDigest" fs)
    publisher_epoch h.documents (get "publisherEpoch" fs)
    digest (get "deadlinePolicyDigest" fs)
    ok tt
  known_mutation stop i request_digest fs = do
    require (names_state (mutation_transition stop).sources (get "expectedState" fs))
        "invalid-request"
    digest (get "receiptChainHead" fs)
    ok tt

  unfoldable pub known_fields : RequestKind → Fields → Check (Unit {0})
  known_fields validate_composition fs = validate_composition_protocol_request fs
  known_fields resolve_composition fs = validate_composition_protocol_request fs
  known_fields status fs = do
    identity (get "identity" fs)
    null_or_digest (get "receiptChainHead" fs)
    ok tt
  known_fields doctor fs = identity (get "identity" fs) >> known_doctor fs
  known_fields reconcile fs = identity (get "identity" fs) >> known_reconcile fs
  known_fields (mutation op) fs = do
    i ← identity (get "identity" fs)
    text 256 (get "idempotencyKey" fs)
    request_digest ← digest (get "requestDigest" fs)
    require (str_eq (h.documents.compute_semantic_request_digest fs) request_digest)
        "invalid-request"
    known_mutation op i request_digest fs
    assert_secret_free (obj fs)

  -- `validateKnownRequest`
  unfoldable pub validate_known_request : Fields → Check (Unit {0})
  validate_known_request fs = do
    kind ← kind_of request_kinds (get "kind" fs)
    exact_keys fs (request_keys kind) []
    require (is_same_text (get "apiVersion" fs) api_version) "unsupported-api-version"
    text 256 (get "requestId" fs)
    known_fields kind fs
