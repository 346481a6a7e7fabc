-- ===== src/Manager/Reconcile/Evidence.antt =====
-- `reconcile` of src/manager/lifecycle.ts: what each kind of evidence does, the last write first.
use dsh_runtime_kit.Base.{String, if◌then◌else◌, Option, none, some, insert, erase}
use dsh_runtime_kit.Manager.Value.{canonical_identity}
use dsh_runtime_kit.Manager.States.{State, absent, locked, quarantined, lock, lifecycle_transition}
use dsh_runtime_kit.Manager.Codes.{mutation}
use dsh_runtime_kit.Manager.Receipts.{
  LifecycleReceipt, QuarantineReceipt, lifecycle, quarantine, zero_digest,
  compute_manager_document_digest, validate_lifecycle_receipt, validate_quarantine_receipt,
}
use dsh_runtime_kit.Manager.Failures.{no_details}
use dsh_runtime_kit.Manager.Store.{
  Instance, Payload, succeeded, proved_terminal, proved_source, evidence_unavailable, Reply, reply,
  thrown, Journal, JournalStatus, Store, Host,
}
use dsh_runtime_kit.Manager.Chain.{same_option}
use dsh_runtime_kit.Manager.Journals.{failure, build_receipt, is_asserted}
use dsh_runtime_kit.Manager.Reconcile.{
  Context, ReconcileRequest, original_key, original_success, reconcile_doc, reconcile_failure,
  reconciled_session, reconciliation_key, recovered_instance, retained_receipt, terminal_instance,
}

module _ (h : Host) where
  unfoldable pub recovered_receipt :
      ReconcileRequest → Journal → Option String → Instance → LifecycleReceipt
  recovered_receipt r j session i =
      build_receipt h.sha (record j.request { operation = r.original_operation }) i j.source_state
        (lifecycle_transition r.original_operation).terminal
        (if is_asserted r.original_operation then session else none) (some r.dsh_evidence_digest)
        j.seal_acceptance_digest j.assertion_acceptance_digest h.timestamp

  -- The last writes of a proof that the operation happened.
  unfoldable pub record_terminal :
      ReconcileRequest → Journal → Instance → LifecycleReceipt → Store → Reply × Store
  record_terminal r j i receipt s =
      let result : Payload =
        proved_terminal (reconcile_doc r (lifecycle_transition r.original_operation).terminal) in
      (
        reply result,
        record s {
          instances =
              insert r.identity.namespace (record i { receipt_head = some receipt.digest })
                s.instances;
          receipts = insert receipt.digest (lifecycle receipt) s.receipts;
          journals =
              insert (original_key r)
                (record j {
                  status = JournalStatus.succeeded;
                  result = some (succeeded (original_success r j.request i receipt));
                })
                s.journals;
          reconciliations = insert (reconciliation_key r) result s.reconciliations;
        },
      )

  -- The instance is changed before its receipt is built, so a receipt that does not validate
  -- throws with the change made.
  unfoldable pub prove_terminal :
      ReconcileRequest → Journal → Option String → Instance → Store → Reply × Store
  prove_terminal r j session i s =
      let i' = terminal_instance r.original_operation session i in
      let changed = record s { instances = insert r.identity.namespace i' s.instances } in
      elim (retained_receipt r j.request.request_digest s.receipts) [
        | some receipt ↦ record_terminal r j i' receipt changed
        | none ↦
            if validate_lifecycle_receipt h.sha (recovered_receipt r j session i')
            then record_terminal r j i' (recovered_receipt r j session i') changed
            else (thrown, changed)
      ]

  unfoldable pub reconcile_committed :
      ReconcileRequest → Context → Journal → Option Instance → Store → Reply × Store
  reconcile_committed r context j found s = elim found [
    | some i ↦ elim (reconciled_session r.original_operation context i) [
      | none ↦ (reconcile_failure r.source "evidence-digest-invalid", s)
      | some session ↦ prove_terminal r j session i s
    ]
    | none ↦ elim j.request.lock_documents [
      | none ↦ (thrown, s)
      | some d ↦
          let i = recovered_instance r locked j.request d in
          prove_terminal r j none i (record s {
            instances = insert r.identity.namespace i s.instances;
            namespaces = insert r.identity.namespace (canonical_identity r.identity) s.namespaces;
          })
    ]
  ]

  -- The instance goes back to the state that it had; a lock leaves nothing behind.
  unfoldable pub restored : ReconcileRequest → Journal → Option Instance → Store → Store
  restored r j found s = elim r.original_operation [
    | lock ↦ record s {
      instances = erase r.identity.namespace s.instances;
      namespaces = erase r.identity.namespace s.namespaces;
    }
    | _ ↦ elim found [
      | none ↦ s
      | some i ↦ record s {
        instances =
            insert r.identity.namespace
              (record i { state = j.source_state; pending_source_receipt_head = none }) s.instances;
      }
    ]
  ]

  unfoldable pub reconcile_not_committed :
      ReconcileRequest → Journal → Option Instance → Store → Reply × Store
  reconcile_not_committed r j found s =
      let back = restored r j found s in
      let result : Payload = proved_source (reconcile_doc r j.source_state) in
      elim (failure (mutation r.original_operation) j.request.source "runtime-unavailable"
        (some j.source_state) no_details none) [
          | thrown ↦ (
            thrown,
            record back {
              journals =
                  insert (original_key r) (record j { status = JournalStatus.failed })
                    back.journals;
            },
          )
          | reply p ↦ (
            reply result,
            record back {
              journals =
                  insert (original_key r)
                    (record j { status = JournalStatus.failed; result = some p }) back.journals;
              reconciliations = insert (reconciliation_key r) result back.reconciliations;
            },
          )
        ]

  unfoldable pub quarantine_receipt :
      ReconcileRequest → Context → Journal → State → Option String → QuarantineReceipt
  quarantine_receipt r context j current prior = record value {
    digest = compute_manager_document_digest h.sha (quarantine value);
  }
    where
      value : QuarantineReceipt
      value = record {
        digest = zero_digest;
        original_operation = r.original_operation;
        original_idempotency_key = r.original_idempotency_key;
        original_request_digest = r.original_request_digest;
        identity = r.identity;
        source_state = j.source_state;
        last_observed_state = current;
        journal_evidence_digest = r.journal_evidence_digest;
        dsh_evidence_digest = r.dsh_evidence_digest;
        prior_receipt_digest = prior;
        reason_code =
            if same_option context.evidence_status (some "authority-unavailable")
            then "authoritative-truth-unavailable"
            else "stable-conflict";
        observed_state = quarantined;
      }

  unfoldable pub record_quarantine :
      ReconcileRequest → Instance → QuarantineReceipt → Store → Reply × Store
  record_quarantine r i receipt s =
      let result : Payload = Payload.quarantined (reconcile_doc r quarantined) receipt in
      (
        reply result,
        record s {
          instances =
              insert r.identity.namespace
                (record i {
                  state = quarantined;
                  receipt_head = some receipt.digest;
                  pending_source_receipt_head = none;
                })
                s.instances;
          receipts = insert receipt.digest (quarantine receipt) s.receipts;
          reconciliations = insert (reconciliation_key r) result s.reconciliations;
        },
      )

  unfoldable pub reconcile_quarantine :
      ReconcileRequest → Context → Journal → Option Instance → Store → Reply × Store
  reconcile_quarantine r context j found s = elim found [
    | some i ↦
        let receipt = quarantine_receipt r context j i.state i.receipt_head in
        if validate_quarantine_receipt h.sha receipt
        then record_quarantine r i receipt s
        else (thrown, s)
    | none ↦
        let receipt = quarantine_receipt r context j absent none in
        if validate_quarantine_receipt h.sha receipt
        then elim j.request.lock_documents [
          | none ↦ (thrown, s)
          | some d ↦
              record_quarantine r (recovered_instance r quarantined j.request d) receipt (record s {
                namespaces =
                    insert r.identity.namespace (canonical_identity r.identity) s.namespaces;
              })
        ]
        else (thrown, s)
  ]

  -- What the evidence decides.
  unfoldable pub reconcile_by_evidence :
      ReconcileRequest → Context → Journal → Option Instance → State → Store → Reply × Store
  reconcile_by_evidence r context j found current s =
      if same_option context.evidence_status (some "temporary-unavailable")
      then (
        reply (evidence_unavailable (reconcile_doc r current)),
        record s {
          reconciliations =
              insert (reconciliation_key r) (evidence_unavailable (reconcile_doc r current))
                s.reconciliations;
        },
      )
      else if same_option context.evidence_status (some "committed")
      then reconcile_committed r context j found s
      else if same_option context.evidence_status (some "not-committed")
      then reconcile_not_committed r j found s
      else reconcile_quarantine r context j found s
