-- ===== src/Manager/Lock.antt =====
-- `lock` of src/manager/lifecycle.ts, stage by stage, the last stage first.
use dsh_runtime_kit.Base.{
  String, Bool, false, not, str_eq, if◌then◌else◌, Option, none, some, lookup, insert, ok, err,
}
use dsh_runtime_kit.Manager.Value.{Value, canonical_identity}
use dsh_runtime_kit.Manager.States.{State, absent, locked, lock}
use dsh_runtime_kit.Manager.Codes.{mutation}
use dsh_runtime_kit.Manager.Receipts.{LifecycleReceipt, lifecycle, validate_lifecycle_receipt}
use dsh_runtime_kit.Manager.Failures.{no_details}
use dsh_runtime_kit.Manager.Requests.{Request, LockDocuments, validate_mutation}
use dsh_runtime_kit.Manager.Store.{
  Instance, SuccessDoc, succeeded, Reply, reply, thrown, Journal, JournalStatus, Store,
  AcceptanceKind, accepted, rejected, Host,
}
use dsh_runtime_kit.Manager.Journals.{
  journal_identity, candidate, failure, replay_or_conflict, trust_failure_evidence, settle_failed,
  build_receipt,
}
use dsh_runtime_kit.Manager.Replays.{accept_assertion, degraded_probes, authorize_terminal_replay}
use dsh_runtime_kit.Manager.Runs.{new_journal, or_else}

-- The state that a value is in when its `state` is read for a failure.
abbrev observed_state : Instance → Option State
observed_state i = some i.state

module _ (h : Host) where
  -- The new instance, before it has a receipt.
  unfoldable pub locked_instance : Request → LockDocuments → Instance
  locked_instance r d = record {
    identity = r.identity;
    state = locked;
    composition_lock_receipt_digest = d.lock_receipt_digest;
    resolved_composition_digest = d.composition.digest;
    admission_seal_digest = or_else r.admission_seal_digest "";
    scope_class = d.composition.scope_class;
    degraded_health = degraded_probes h r.identity.namespace d.composition.health_optional;
    receipt_head = none;
    session_identity = none;
    health_required = d.composition.health_required;
    health_optional = d.composition.health_optional;
    resource_classes = d.composition.resource_classes;
    pending_source_receipt_head = none;
  }

  -- The receipt of a lock, under the digests of the two acceptances.
  unfoldable pub lock_receipt : Request → LockDocuments → String → String → LifecycleReceipt
  lock_receipt r d seal assertion =
      build_receipt h.sha r (locked_instance r d) absent locked none none (some seal)
        (some assertion) h.timestamp

  unfoldable pub lock_success : Request → LifecycleReceipt → SuccessDoc
  lock_success r receipt = record {
    operation = lock;
    request_id = r.request_id;
    idempotency_key = r.idempotency_key;
    identity = r.identity;
    observed_state = locked;
    receipt = receipt;
    session_identity = none;
    retained_state_digest = none;
    reconciled_effect_summary_digest = none;
    retained_state_disposition = none;
  }

  -- Behind both acceptances: a receipt that does not validate throws, and leaves the journal pending.
  unfoldable pub lock_commit :
      Request → LockDocuments → Journal → String → String → Store → Reply × Store
  lock_commit r d j seal assertion s =
      let receipt = lock_receipt r d seal assertion in
      if validate_lifecycle_receipt h.sha receipt
      then (
        reply (succeeded (lock_success r receipt)),
        record s {
          receipts = insert receipt.digest (lifecycle receipt) s.receipts;
          instances =
              insert r.identity.namespace
                (record (locked_instance r d) { receipt_head = some receipt.digest }) s.instances;
          namespaces = insert r.identity.namespace (canonical_identity r.identity) s.namespaces;
          journals =
              insert (journal_identity r)
                (record j {
                  status = JournalStatus.succeeded;
                  result = some (succeeded (lock_success r receipt));
                })
                s.journals;
        },
      )
      else (thrown, s)

  -- The two acceptances, each of which advances the journal's revision.
  unfoldable pub lock_accept : Request → LockDocuments → Store → Reply × Store
  lock_accept r d s =
      let key = journal_identity r in
      let opened = record s { journals = insert key (new_journal lock r absent) s.journals } in
      elim (h.accept_signed_document (record {
        namespace = r.identity.deployment_id;
        acceptance_kind = AcceptanceKind.seal;
        signed_document = d.admission_seal;
        operation = "instance.lock";
        semantic_request_digest = r.request_digest;
        expected_effect_journal_revision = 0;
      })) [
        | rejected error ↦
            let (code, digest) = trust_failure_evidence (mutation lock) error in
            settle_failed key (new_journal lock r absent)
              (failure (mutation lock) r.source code none no_details digest) opened
        | accepted seal ↦
            let j = record (new_journal lock r absent) {
              seal_acceptance_digest = some seal;
              revision = 1;
            } in
            let sealed = record s { journals = insert key j s.journals } in
            elim (accept_assertion h r (or_else r.admission_seal_digest "") lock 1) [
              | rejected error ↦
                  let (code, digest) = trust_failure_evidence (mutation lock) error in
                  settle_failed key j (failure (mutation lock) r.source code none no_details digest)
                    sealed
              | accepted assertion ↦
                  let j' = record j {
                    assertion_acceptance_digest = some assertion;
                    revision = 2;
                  } in
                  lock_commit r d j' seal assertion
                    (record s { journals = insert key j' s.journals })
            ]
      ]

  -- Whether another identity owns the namespace.
  abbrev pub is_owned_by_other : Option String → String → Bool
  is_owned_by_other none id = false
  is_owned_by_other (some owner) id = not (str_eq owner id)

  unfoldable pub lock_admit : Request → LockDocuments → Store → Reply × Store
  lock_admit r d s = elim (lookup r.identity.namespace s.instances) [
    | some i ↦ (failure (mutation lock) r.source "state-conflict" (some i.state) no_details none, s)
    | none ↦
        if is_owned_by_other (lookup r.identity.namespace s.namespaces)
          (canonical_identity r.identity)
        then (failure (mutation lock) r.source "namespace-conflict" none no_details none, s)
        else elim (h.validate_admission_seal d.admission_seal d.composition d.lock_receipt_digest
            r.identity) [
              | err code ↦ (failure (mutation lock) r.source code none no_details none, s)
              | ok _ ↦ lock_accept r d s
            ]
  ]

  unfoldable pub lock_request : Request → LockDocuments → Store → Reply × Store
  lock_request r d s = elim (replay_or_conflict lock r s) [
    | some replay ↦ authorize_terminal_replay h lock r replay s
    | none ↦ lock_admit r d s
  ]

  unfoldable pub lock_instance : Value → Store → Reply × Store
  lock_instance value s = elim (validate_mutation h.documents lock value) [
    | err _ ↦ (failure (mutation lock) (candidate value) "invalid-request" none no_details none, s)
    | ok r ↦ elim r.lock_documents [ some d ↦ lock_request r d s | none ↦ (thrown, s) ]
  ]
