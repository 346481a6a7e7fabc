-- ===== src/Manager/Reconcile/Handler.antt =====
-- `reconcile` of src/manager/lifecycle.ts: its guards, stage by stage, the last stage first.
use dsh_runtime_kit.Base.{
  Bool, true, false, not, ◌&&◌, ◌||◌, [], ◌∷◌, str_eq, if◌then◌else◌, Option, none, some, lookup,
  ok, err,
}
use dsh_runtime_kit.Manager.Value.{Value, Identity, is_same_text, canonical_identity}
use dsh_runtime_kit.Manager.States.{
  State, absent, lock, same_operation, includes, lifecycle_transition, state_name,
}
use dsh_runtime_kit.Manager.Store.{Instance, Reply, reply, Journal, JournalStatus, Store, Host}
use dsh_runtime_kit.Manager.Journals.{candidate}
use dsh_runtime_kit.Manager.Runs.{transient_or}
use dsh_runtime_kit.Manager.Reconcile.{
  Context, ReconcileRequest, joined, original_key, reconcile_failure, reconciliation_key,
  validate_reconcile_request,
}
use dsh_runtime_kit.Manager.Reconcile.Evidence.{reconcile_by_evidence}

module _ (h : Host) where
  abbrev pub has_other_identity : Option Instance → Identity → Bool
  has_other_identity none id = false
  has_other_identity (some i) id =
      not (str_eq (canonical_identity i.identity) (canonical_identity id))

  abbrev pub current_state : Option Instance → State
  current_state none = absent
  current_state (some i) = i.state

  abbrev pub is_missing : Option Instance → Bool
  is_missing none = true
  is_missing (some i) = false

  abbrev pub is_indeterminate : JournalStatus → Bool
  is_indeterminate JournalStatus.indeterminate = true
  is_indeterminate _ = false

  -- Whether the current state is one that the operation may have left, as the request expects.
  unfoldable pub is_candidate : ReconcileRequest → Journal → State → Bool
  is_candidate r j current =
      includes
        (j.source_state
          ∷ transient_or (lifecycle_transition r.original_operation).transient j.source_state
          ∷ (lifecycle_transition r.original_operation).terminal
          ∷ [])
        current
      && is_same_text r.expected_terminal_state
          (state_name (lifecycle_transition r.original_operation).terminal)
      && str_eq (joined "\0" r.expected_source_states) (state_name j.source_state)

  unfoldable pub reconcile_journal :
      ReconcileRequest → Context → Journal → Option Instance → Store → Reply × Store
  reconcile_journal r context j found s =
      if not (str_eq (canonical_identity j.request.identity) (canonical_identity r.identity))
        || has_other_identity found r.identity
      then (reconcile_failure r.source "state-conflict", s)
      else if not (str_eq j.request_digest r.original_request_digest)
      then (reconcile_failure r.source "idempotency-conflict", s)
      else elim (lookup (reconciliation_key r) s.reconciliations) [
        | some existing ↦ (reply existing, s)
        | none ↦
            if is_indeterminate j.status
              && (not (is_missing found) || same_operation r.original_operation lock)
              && is_candidate r j (current_state found)
            then reconcile_by_evidence h r context j found (current_state found) s
            else (reconcile_failure r.source "state-conflict", s)
      ]

  unfoldable pub reconcile_request : ReconcileRequest → Context → Store → Reply × Store
  reconcile_request r context s =
      if context.authorized
      then elim (lookup (original_key r) s.journals) [
        | none ↦ (reconcile_failure r.source "not-found", s)
        | some j ↦ reconcile_journal r context j (lookup r.identity.namespace s.instances) s
      ]
      else (reconcile_failure r.source "unauthorized-state-mutation", s)

  unfoldable pub reconcile_instance : Value → Context → Store → Reply × Store
  reconcile_instance value context s = elim (validate_reconcile_request value) [
    | err code ↦ (reconcile_failure (candidate value) code, s)
    | ok r ↦ reconcile_request r context s
  ]
