-- ===== src/Manager/Runs.antt =====
-- What `mutate` of src/manager/lifecycle.ts builds on its way: the instance in flight, the instance
-- that a success commits, its receipt and its document.
use dsh_runtime_kit.Base.{String, Bool, true, ◌&&◌, ◌||◌, List, if◌then◌else◌, Option, none, some}
use dsh_runtime_kit.Manager.States.{
  Operation, State, start, resume, interrupt, drain, stop, same_operation, lifecycle_transition,
}
use dsh_runtime_kit.Manager.Receipts.{LifecycleReceipt, is_some}
use dsh_runtime_kit.Manager.Failures.{safe_session_identity}
use dsh_runtime_kit.Manager.Requests.{Request}
use dsh_runtime_kit.Manager.Store.{Instance, SuccessDoc, Journal, JournalStatus, Effect, Host}
use dsh_runtime_kit.Manager.Chain.{same_option}
use dsh_runtime_kit.Manager.Journals.{build_receipt}

-- The request, its journal under its key, and the instance as it was when the request came in.
pub record Run : Type 0 where
  pub operation : Operation
  pub request : Request
  pub key : String
  pub journal : Journal
  pub instance : Instance
  pub degraded_health : Option (List String)

abbrev pub namespace_of : Run → String
namespace_of run = run.request.identity.namespace

abbrev pub keep_or : Option (List String) → List String → List String
keep_or none old = old
keep_or (some new) old = new

abbrev pub or_else : Option String → String → String
or_else none d = d
or_else (some s) d = s

-- `transition.transient`, with the state itself where there is none.
abbrev pub transient_or : Option State → State → State
transient_or none s = s
transient_or (some t) s = t

-- The instance while its effect runs.
unfoldable pub in_flight : Operation → Instance → Instance
in_flight op i = record i {
  state = transient_or (lifecycle_transition op).transient i.state;
  pending_source_receipt_head = some i.receipt_head;
}

-- The instance that a success commits.
unfoldable pub committed : Run → Effect → LifecycleReceipt → Instance
committed run effect receipt = record i {
  state = (lifecycle_transition run.operation).terminal;
  session_identity =
      if same_operation run.operation start then effect.session_identity else i.session_identity;
  degraded_health = keep_or run.degraded_health i.degraded_health;
  receipt_head = some receipt.digest;
  pending_source_receipt_head = none;
}
  where
    open run use {instance as i}

-- The receipt of a success.
unfoldable pub success_receipt : Host → Run → Effect → LifecycleReceipt
unfolding lifecycle_transition build_receipt
success_receipt h run effect =
    build_receipt h.sha run.request prospective run.instance.state
      (lifecycle_transition run.operation).terminal effect.session_identity
      effect.effect_summary_digest none run.journal.assertion_acceptance_digest h.timestamp
  where
    prospective : Instance
    prospective = record run.instance {
      session_identity =
          if same_operation run.operation start
          then effect.session_identity
          else run.instance.session_identity;
    }

unfoldable pub success_doc : Run → Effect → LifecycleReceipt → SuccessDoc
success_doc run effect receipt = record {
  operation = op;
  request_id = run.request.request_id;
  idempotency_key = run.request.idempotency_key;
  identity = run.request.identity;
  observed_state = (lifecycle_transition op).terminal;
  receipt = receipt;
  session_identity =
      if same_operation op start
      then effect.session_identity
      else if same_operation op resume
      then run.instance.session_identity
      else none;
  retained_state_digest =
      if same_operation op interrupt then effect.retained_state_digest else none;
  reconciled_effect_summary_digest =
      if same_operation op drain then effect.effect_summary_digest else none;
  retained_state_disposition =
      if same_operation op stop
      then some (or_else effect.retained_state_disposition "retained")
      else none;
}
  where
    open run use {operation as op}

-- Whether the effect names a session that its operation may have.
unfoldable pub session_settled : Operation → Effect → Instance → Bool
unfolding safe_session_identity
session_settled op effect i =
    if same_operation op start
    then is_some (safe_session_identity effect.session_identity)
    else if same_operation op resume && (is_some effect.session_identity || effect.session_null)
    then is_some (safe_session_identity effect.session_identity)
      && same_option effect.session_identity i.session_identity
    else true

abbrev pub new_journal : Operation → Request → State → Journal
new_journal op r source = record {
  operation = op;
  source_state = source;
  request_digest = r.request_digest;
  revision = 0;
  status = JournalStatus.pending;
  result = none;
  indeterminate = none;
  request = r;
  seal_acceptance_digest = none;
  assertion_acceptance_digest = none;
  replay_assertion_acceptance_digest = none;
}
