-- ===== src/Manager/Mutate.antt =====
-- `mutate` of src/manager/lifecycle.ts: start, resume, interrupt, drain and stop. Each stage is a
-- function; they stand in the order in which the source runs them, last first.
pub mod Cases
pub mod Moves
pub mod Answers
pub mod Replay
pub mod Correlate
pub mod Failed
pub mod Harmless
use dsh_runtime_kit.Base.{
  String, Bool, true, false, not, ◌&&◌, ◌||◌, List, str_eq, if◌then◌else◌, Option, none, some,
  lookup, insert, Check, ok, err, ◌>>◌, require,
}
use dsh_runtime_kit.Manager.Value.{Value, canonical_identity}
use dsh_runtime_kit.Manager.States.{
  Operation, State, start, resume, interrupt, drain, stop, same_operation, same_state, includes,
  lifecycle_transition,
}
use dsh_runtime_kit.Manager.Codes.{mutation}
use dsh_runtime_kit.Manager.Receipts.{
  LifecycleReceipt, lifecycle, validate_lifecycle_receipt, is_some,
}
use dsh_runtime_kit.Manager.Failures.{no_details, probe, safe_session_identity}
use dsh_runtime_kit.Manager.Requests.{Request, validate_mutation}
use dsh_runtime_kit.Manager.Store.{
  Instance, SuccessDoc, Payload, succeeded, Reply, reply, Journal, JournalStatus, Store, accepted,
  rejected, Effect, EffectStatus, Host,
}
use dsh_runtime_kit.Manager.Chain.{same_option, receipt_chain_valid}
use dsh_runtime_kit.Manager.Journals.{
  journal_identity, candidate, failure, is_asserted, replay_or_conflict, trust_failure_evidence,
  settle_failed, settle_indeterminate, build_receipt,
}
use dsh_runtime_kit.Manager.Replays.{
  accept_assertion, blocked_probe, degraded_probes, authorize_terminal_replay, validate_success,
}
use dsh_runtime_kit.Manager.Runs.{
  transient_or, or_else, keep_or, in_flight, success_receipt, Run, session_settled, committed,
  new_journal, success_doc, namespace_of,
}

module _ (h : Host) where
  unfoldable pub commit : Run → Effect → LifecycleReceipt → Store → Reply × Store
  commit run effect receipt s =
      let result : Payload = succeeded (success_doc run effect receipt) in
      (
        reply result,
        record s {
          instances = insert (namespace_of run) (committed run effect receipt) s.instances;
          receipts = insert receipt.digest (lifecycle receipt) s.receipts;
          journals =
              insert run.key
                (record run.journal { status = JournalStatus.succeeded; result = some result })
                s.journals;
        },
      )

  -- The effect is not known to have happened: the instance stays in its transient state.
  unfoldable pub leave_unknown : Run → Store → Reply × Store
  leave_unknown run s =
      settle_indeterminate run.key run.journal run.operation run.request
        (in_flight run.operation run.instance) s

  -- Behind the effect: `s` holds the instance in flight.
  unfoldable pub settle : Run → Effect → Store → Reply × Store
  settle run effect s = elim effect.status [
    | EffectStatus.failed code ↦
        settle_failed run.key run.journal
          (failure (mutation run.operation) run.request.source (or_else code "runtime-unavailable")
            (some run.instance.state) no_details none)
          (record s {
            instances =
                insert (namespace_of run)
                  (record run.instance { pending_source_receipt_head = none }) s.instances;
          })
    | EffectStatus.unknown ↦ leave_unknown run s
    | EffectStatus.succeeded ↦
        let receipt = success_receipt h run effect in
        if not (session_settled run.operation effect run.instance)
        then leave_unknown run s
        else if validate_lifecycle_receipt h.sha receipt
            && validate_success h (success_doc run effect receipt)
        then commit run effect receipt s
        else leave_unknown run s
  ]

  abbrev default_effect : Effect
  default_effect = record {
    status = EffectStatus.succeeded;
    session_identity = none;
    session_null = false;
    effect_summary_digest = none;
    retained_state_digest = none;
    retained_state_disposition = none;
  }

  -- What the handler answers, on the instance in flight.
  unfoldable pub run_effect : Run → Effect
  run_effect run = elim (h.effects run.operation) [
    | none ↦ default_effect
    | some handler ↦ handler run.request (in_flight run.operation run.instance)
  ]

  -- The store while the effect runs.
  unfoldable pub launch : Run → Store → Store
  launch run s = record s {
    instances = insert (namespace_of run) (in_flight run.operation run.instance) s.instances;
  }

  unfoldable pub perform : Run → Store → Reply × Store
  perform run s = settle run (run_effect run) (launch run s)

  -- `start` asks for health again; `resume` does not.
  unfoldable pub check_health : Run → Store → Reply × Store
  check_health run s =
      if same_operation run.operation start
      then elim (blocked_probe h (namespace_of run) run.instance.health_required) [
        | some blocked ↦
            settle_failed run.key run.journal
              (failure (mutation run.operation) run.request.source "required-health-failed"
                (some run.instance.state) (probe blocked) none)
              s
        | none ↦
            perform
              (record run {
                degraded_health =
                    some (degraded_probes h (namespace_of run) run.instance.health_optional);
              })
              s
      ]
      else perform run s

  unfoldable pub authorize : Run → Store → Reply × Store
  authorize run s =
      if is_asserted run.operation
      then elim (accept_assertion h run.request run.instance.admission_seal_digest run.operation
          run.journal.revision) [
            | rejected error ↦
                let (code, digest) = trust_failure_evidence (mutation run.operation) error in
                settle_failed run.key run.journal
                  (failure (mutation run.operation) run.request.source code
                    (some run.instance.state) no_details digest)
                  s
            | accepted digest ↦
                let j = record run.journal {
                  assertion_acceptance_digest = some digest;
                  revision = 1;
                } in
                check_health (record run { journal = j })
                  (record s { journals = insert run.key j s.journals })
          ]
      else perform run s

  -- The conditions on the instance, in the order of the source.
  unfoldable pub guards : Operation → Request → Instance → Store → Check (Unit {0})
  guards op r i s = do
    require
        (includes (lifecycle_transition op).sources i.state && same_state r.expected_state i.state)
        "state-conflict"
    require (not (same_operation op stop) || same_option r.receipt_chain_head i.receipt_head)
        "receipt-chain-invalid"
    require (not (same_operation op stop) || is_chain_valid i s) "receipt-chain-invalid"
    require
        (not (is_asserted op) || same_option r.admission_seal_digest (some i.admission_seal_digest))
        "seal-invalid"
    require (not (same_operation op start) || same_option r.prior_receipt_digest i.receipt_head)
        "lock-invalid"
    require (not (same_operation op resume) || same_option r.prior_receipt_digest i.receipt_head)
        "receipt-chain-invalid"
    require (not (same_operation op resume) || has_session i) "retained-state-missing"
    require (is_asserted op || has_session i) "state-conflict"
    require (not (same_operation op interrupt) || same_option r.run_identity i.session_identity)
        "cancellation-identity-mismatch"
    where
      has_session : Instance → Bool
      has_session i = is_some (safe_session_identity i.session_identity)

      is_chain_valid : Instance → Store → Bool
      is_chain_valid i s = elim (receipt_chain_valid h.sha s.receipts i.identity i.receipt_head) [
        | some valid ↦ valid
        | none ↦ false
      ]

  unfoldable pub begin : Operation → Request → Instance → Store → Reply × Store
  begin op r i s =
      let j = new_journal op r i.state in
      authorize
        (record {
          operation = op;
          request = r;
          key = journal_identity r;
          journal = j;
          instance = i;
          degraded_health = none;
        })
        (record s { journals = insert (journal_identity r) j s.journals })

  unfoldable pub admit : Operation → Request → Store → Reply × Store
  admit op r s = elim (lookup r.identity.namespace s.instances) [
    | none ↦ (failure (mutation op) r.source "state-conflict" none no_details none, s)
    | some i ↦
        if str_eq (canonical_identity i.identity) (canonical_identity r.identity)
        then elim (guards op r i s) [
          | err code ↦ (failure (mutation op) r.source code (some i.state) no_details none, s)
          | ok _ ↦ begin op r i s
        ]
        else (failure (mutation op) r.source "state-conflict" none no_details none, s)
  ]

  unfoldable pub mutate_request : Operation → Request → Store → Reply × Store
  mutate_request op r s = elim (replay_or_conflict op r s) [
    | some replay ↦ authorize_terminal_replay h op r replay s
    | none ↦ admit op r s
  ]

  unfoldable pub mutate : Operation → Value → Store → Reply × Store
  mutate op value s = elim (validate_mutation h.documents op value) [
    | err _ ↦ (failure (mutation op) (candidate value) "invalid-request" none no_details none, s)
    | ok r ↦ mutate_request op r s
  ]
