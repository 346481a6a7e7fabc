-- ===== src/Manager/Store.antt =====
-- The manager's store (createMemoryRuntimeStore), what it keeps, and what the manager answers:
-- src/manager/lifecycle.ts.
use dsh_runtime_kit.Base.{ℕ, String, Bool, List, [], Option, Table, Check}
use dsh_runtime_kit.Manager.Value.{Value, Identity}
use dsh_runtime_kit.Manager.States.{Operation, State}
use dsh_runtime_kit.Manager.Receipts.{LifecycleReceipt, QuarantineReceipt, Receipt}
use dsh_runtime_kit.Manager.Failures.{FailureDoc}
use dsh_runtime_kit.Manager.Requests.{Composition, Documents, Request}

pub record Instance : Type 0 where
  pub identity : Identity
  pub state : State
  pub composition_lock_receipt_digest : String
  pub resolved_composition_digest : String
  pub admission_seal_digest : String
  pub scope_class : String
  pub degraded_health : List String
  pub receipt_head : Option String
  pub session_identity : Option String
  pub health_required : List String
  pub health_optional : List String
  pub resource_classes : List String
  -- `none` where the property is absent
  pub pending_source_receipt_head : Option (Option String)

pub record IndeterminateDoc : Type 0 where
  pub operation : Operation
  pub request_id : String
  pub idempotency_key : String
  pub last_observed_state : State
  pub identity : Identity
  pub receipt_digest : Option String

pub record SuccessDoc : Type 0 where
  pub operation : Operation
  pub request_id : String
  pub idempotency_key : String
  pub identity : Identity
  pub observed_state : State
  pub receipt : LifecycleReceipt
  pub session_identity : Option String
  pub retained_state_digest : Option String
  pub reconciled_effect_summary_digest : Option String
  pub retained_state_disposition : Option String

pub record StatusDoc : Type 0 where
  pub request_id : String
  pub identity : Identity
  pub observed_state : State
  pub session_identity : Option String
  pub receipt_chain_head : Option String
  pub health_required : List String
  pub health_optional : List String
  pub resource_classes : List String

pub record DoctorDoc : Type 0 where
  pub request_id : String
  pub identity : Identity
  pub observed_state : State
  pub composition_lock : Bool
  pub admission_seal : Bool
  pub receipt_chain : Bool
  pub recovery_recommendation : String
  pub receipt_chain_verified : Bool

pub record ReconcileDoc : Type 0 where
  pub request_id : Value
  pub identity : Identity
  pub observed_state : State
  pub original_operation : Operation
  pub original_idempotency_key : String
  pub original_request_digest : String

pub data Payload : Type 0 where
  failed : FailureDoc → Payload
  indeterminate : IndeterminateDoc → Payload
  succeeded : SuccessDoc → Payload
  status_succeeded : StatusDoc → Payload
  doctor_succeeded : DoctorDoc → Payload
  proved_terminal : ReconcileDoc → Payload
  proved_source : ReconcileDoc → Payload
  quarantined : ReconcileDoc → QuarantineReceipt → Payload
  evidence_unavailable : ReconcileDoc → Payload

-- A call resolves to a payload or rejects with an exception.
pub data Reply : Type 0 where
  reply : Payload → Reply
  thrown : Reply

pub data JournalStatus : Type 0 where
  pending failed indeterminate succeeded : JournalStatus

pub record Journal : Type 0 where
  pub operation : Operation
  pub source_state : State
  pub request_digest : String
  pub revision : ℕ
  pub status : JournalStatus
  pub result : Option Payload
  pub indeterminate : Option Payload
  pub request : Request
  pub seal_acceptance_digest : Option String
  pub assertion_acceptance_digest : Option String
  pub replay_assertion_acceptance_digest : Option String

pub record Store : Type 0 where
  pub instances : Table Instance
  pub namespaces : Table String
  pub journals : Table Journal
  pub reconciliations : Table Payload
  pub receipts : Table Receipt

abbrev pub create_memory_runtime_store : Store
create_memory_runtime_store = record {
  instances = [];
  namespaces = [];
  journals = [];
  reconciliations = [];
  receipts = [];
}

-- What the manager hands to the trust verifier.
pub data AcceptanceKind : Type 0 where
  seal assertion : AcceptanceKind

pub record Acceptance : Type 0 where
  pub namespace : String
  pub acceptance_kind : AcceptanceKind
  pub signed_document : Value
  pub operation : String
  pub semantic_request_digest : String
  pub expected_effect_journal_revision : ℕ

-- What the trust verifier or an assertion's validation throws: a `RuntimeManagerError`, with the
-- two details that are read, or anything else.
pub data TrustError : Type 0 where
  manager_error : String → Option String → Option String → TrustError
  other_error : TrustError

pub data Accepted : Type 0 where
  accepted : String → Accepted
  rejected : TrustError → Accepted

-- What an effect handler answers; `unknown` is any other status, and an exception.
pub data EffectStatus : Type 0 where
  succeeded : EffectStatus
  failed : Option String → EffectStatus
  unknown : EffectStatus

-- `session_identity` is `none` where the property is absent or null, and `session_null` tells the two
-- apart.
pub record Effect : Type 0 where
  pub status : EffectStatus
  pub session_identity : Option String
  pub session_null : Bool
  pub effect_summary_digest : Option String
  pub retained_state_digest : Option String
  pub retained_state_disposition : Option String

-- What a call of the manager finds: what the manager is built with, and what the clock, the probes,
-- the trust verifier and the handlers answer while the call runs. A probe's health is the state that it reports; `none` is an
-- exception. `effects op` is `none` where no handler is given.
pub record Host : Type 0 where
  pub documents : Documents
  pub sha : Receipt → String
  pub validate_admission_seal : Value → Composition → String → Identity → Check (Unit {0})
  pub validate_runtime_assertion : Value → String → Identity → String → String → Check (Unit {0})
  pub accept_signed_document : Acceptance → Accepted
  pub health : String → String → Option String
  pub effects : Operation → Option (Request → Instance → Effect)
  pub timestamp : String
