-- ===== src/Manager/Reconcile.antt =====
-- `reconcile` of src/manager/lifecycle.ts: its request and what it rebuilds. An operation whose effect
-- is not known is settled by evidence.
pub mod Evidence
pub mod Handler
use dsh_runtime_kit.Base.{
  String, Bool, true, false, not, ◌&&◌, ◌||◌, List, [], ◌∷◌, str_eq, if◌then◌else◌, Option, none,
  some, Table, lookup, insert, erase, Check, ok, err, ◌>>=◌, ◌>>◌, require,
}
use dsh_runtime_kit.Manager.Value.{
  Value, undefined, null, bool, num, str, arr, obj, Items, nil, cons, Fields, Identity, get,
  plain_record, exact_keys, text, digest, identity, is_same_text, canonical_identity, ◌+++◌,
}
use dsh_runtime_kit.Manager.States.{
  Operation, State, absent, locked, quarantined, lock, start, resume, interrupt, drain, stop,
  same_operation, includes, lifecycle_transition, state_name, operation_code,
}
use dsh_runtime_kit.Manager.Codes.{mutation, reconcile}
use dsh_runtime_kit.Manager.Receipts.{
  LifecycleReceipt, QuarantineReceipt, Receipt, lifecycle, quarantine, zero_digest, is_some,
  compute_manager_document_digest, validate_lifecycle_receipt, validate_quarantine_receipt,
}
use dsh_runtime_kit.Manager.Failures.{no_details, safe_session_identity}
use dsh_runtime_kit.Manager.Requests.{Request, LockDocuments, api_version}
use dsh_runtime_kit.Manager.Store.{
  Instance, SuccessDoc, ReconcileDoc, Payload, succeeded, proved_terminal, proved_source,
  evidence_unavailable, Reply, reply, thrown, Journal, JournalStatus, Store, Host,
}
use dsh_runtime_kit.Manager.Chain.{same_option}
use dsh_runtime_kit.Manager.Journals.{journal_key, candidate, failure, build_receipt, is_asserted}
use dsh_runtime_kit.Manager.Runs.{or_else, transient_or}

-- Array.prototype.join, and the text of an item.
unfoldable mutual
  pub item_text : Value → String
  item_text undefined = ""
  item_text null = ""
  item_text (bool true) = "true"
  item_text (bool false) = "false"
  item_text (num s) = s
  item_text (str s) = s
  item_text (arr items) = joined "," items
  item_text (obj _) = "[object Object]"

  pub joined : String → Items → String
  joined sep nil = ""
  joined sep (cons v items) = item_text v +++ joined_rest sep items

  pub joined_rest : String → Items → String
  joined_rest sep nil = ""
  joined_rest sep (cons v items) = sep +++ item_text v +++ joined_rest sep items

pub record ReconcileRequest : Type 0 where
  pub source : Fields
  pub original_operation : Operation
  pub original_idempotency_key : String
  pub original_request_digest : String
  pub identity : Identity
  pub journal_evidence_digest : String
  pub dsh_evidence_digest : String
  pub expected_source_states : Items
  pub expected_terminal_state : Value

-- The caller's context: its authority, and the status and session that the evidence shows.
pub record Context : Type 0 where
  pub authorized : Bool
  pub evidence_status : Option String
  pub evidence_session : Option String

unfoldable pub operation_of : List Operation → Value → Check Operation
operation_of [] v = err "invalid-request"
operation_of (op ∷ ops) v = if is_same_text v (operation_code op) then ok op else operation_of ops v

unfoldable pub items_of : Value → Check Items
items_of (arr items) = ok items
items_of _ = err "invalid-request"

unfoldable pub validate_reconcile_request : Value → Check ReconcileRequest
validate_reconcile_request value = do
  fs ← plain_record value
  exact_keys fs
      ("apiVersion" ∷ "kind" ∷ "requestId" ∷ "originalOperation" ∷ "originalIdempotencyKey"
        ∷ "originalRequestDigest" ∷ "identity" ∷ "journalEvidenceDigest" ∷ "dshEvidenceDigest"
        ∷ "expectedSourceStates" ∷ "expectedTerminalState" ∷ [])
      []
  require
      (is_same_text (get "apiVersion" fs) api_version
        && is_same_text (get "kind" fs) "ReconcileInstanceRequest")
      "invalid-request"
  op ←
      operation_of (lock ∷ start ∷ resume ∷ interrupt ∷ drain ∷ stop ∷ [])
        (get "originalOperation" fs)
  key ← text 256 (get "originalIdempotencyKey" fs)
  request_digest ← digest (get "originalRequestDigest" fs)
  i ← identity (get "identity" fs)
  journal_evidence ← digest (get "journalEvidenceDigest" fs)
  dsh_evidence ← digest (get "dshEvidenceDigest" fs)
  states ← items_of (get "expectedSourceStates" fs)
  ok (record {
    source = fs;
    original_operation = op;
    original_idempotency_key = key;
    original_request_digest = request_digest;
    identity = i;
    journal_evidence_digest = journal_evidence;
    dsh_evidence_digest = dsh_evidence;
    expected_source_states = states;
    expected_terminal_state = get "expectedTerminalState" fs;
  })

-- `reconcileFailure`
unfoldable pub reconcile_failure : Fields → String → Reply
reconcile_failure source code = failure reconcile source code none no_details none

unfoldable pub reconcile_doc : ReconcileRequest → State → ReconcileDoc
reconcile_doc r observed = record {
  request_id = get "requestId" r.source;
  identity = r.identity;
  observed_state = observed;
  original_operation = r.original_operation;
  original_idempotency_key = r.original_idempotency_key;
  original_request_digest = r.original_request_digest;
}

-- The instance that an unsettled lock left no record of.
unfoldable pub recovered_instance : ReconcileRequest → State → Request → LockDocuments → Instance
recovered_instance r state original d = record {
  identity = r.identity;
  state = state;
  composition_lock_receipt_digest = d.lock_receipt_digest;
  resolved_composition_digest = d.composition.digest;
  admission_seal_digest = or_else original.admission_seal_digest "";
  scope_class = d.composition.scope_class;
  degraded_health = [];
  receipt_head = none;
  session_identity = none;
  health_required = d.composition.health_required;
  health_optional = d.composition.health_optional;
  resource_classes = d.composition.resource_classes;
  pending_source_receipt_head = none;
}

unfoldable pub original_key : ReconcileRequest → String
original_key r = journal_key r.original_operation r.identity.namespace r.original_idempotency_key

unfoldable pub reconciliation_key : ReconcileRequest → String
reconciliation_key r =
    original_key r +++ "\0" +++ r.journal_evidence_digest +++ "\0" +++ r.dsh_evidence_digest

-- A stored receipt of the original request, in the order of the store.
unfoldable pub retained_receipt :
    ReconcileRequest → String → Table Receipt → Option LifecycleReceipt
unfolding canonical_identity
retained_receipt r request_digest [] = none
retained_receipt r request_digest ((key, quarantine _) ∷ rest) =
    retained_receipt r request_digest rest
retained_receipt r request_digest ((key, lifecycle c) ∷ rest) =
    if same_operation c.operation r.original_operation
      && str_eq c.request_digest request_digest
      && str_eq (canonical_identity c.identity) (canonical_identity r.identity)
    then some c
    else retained_receipt r request_digest rest

-- The session of an operation that is proved to have happened; `none` is evidence that does not fit.
unfoldable pub reconciled_session : Operation → Context → Instance → Option (Option String)
reconciled_session op context i =
    if same_operation op start
    then fits (safe_session_identity context.evidence_session)
    else if same_operation op resume
    then (if is_some context.evidence_session
          && not (
              is_some (safe_session_identity context.evidence_session)
              && same_option context.evidence_session (safe_session_identity i.session_identity))
        then none
        else fits (safe_session_identity i.session_identity))
    else some none
  where
    fits : Option String → Option (Option String)
    fits none = none
    fits (some session) = some (some session)

abbrev pub replaced : Option String → Option String → Option String
replaced none old = old
replaced (some new) old = some new

-- The instance of an operation that is proved to have happened, before its receipt.
unfoldable pub terminal_instance : Operation → Option String → Instance → Instance
terminal_instance op session i = record i {
  state = (lifecycle_transition op).terminal;
  session_identity = replaced session i.session_identity;
  pending_source_receipt_head = none;
}

unfoldable pub original_success :
    ReconcileRequest → Request → Instance → LifecycleReceipt → SuccessDoc
original_success r original i receipt = record {
  operation = op;
  request_id = original.request_id;
  idempotency_key = original.idempotency_key;
  identity = r.identity;
  observed_state = (lifecycle_transition op).terminal;
  receipt = receipt;
  session_identity = if is_asserted op then i.session_identity else none;
  retained_state_digest = if same_operation op interrupt then some r.dsh_evidence_digest else none;
  reconciled_effect_summary_digest =
      if same_operation op drain then some r.dsh_evidence_digest else none;
  retained_state_disposition = if same_operation op stop then some "retained" else none;
}
  where
    open r use {original_operation as op}
