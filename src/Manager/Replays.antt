-- ===== src/Manager/Replays.antt =====
-- What every handler of src/manager/lifecycle.ts asks of its host: an accepted assertion, health, and
-- the replay of a terminal answer under a new assertion; and the check of a success document.
use dsh_runtime_kit.Base.{
  ℕ, ◌+◌, String, Bool, false, not, ◌&&◌, ◌||◌, List, [], ◌∷◌, ◌++◌, str_eq, if◌then◌else◌, Option,
  none, some, lookup, insert, ok, err,
}
use dsh_runtime_kit.Manager.Value.{
  ◌+++◌, is_text, is_digest, is_identity, identity_texts, same_identity,
}
use dsh_runtime_kit.Manager.States.{
  Operation, State, interrupt, drain, stop, same_operation, same_state, mutation_transition,
  operation_code,
}
use dsh_runtime_kit.Manager.Codes.{mutation}
use dsh_runtime_kit.Manager.Receipts.{
  validate_lifecycle_receipt, none_or, present, secret_free, lifecycle_texts,
}
use dsh_runtime_kit.Manager.Failures.{no_details}
use dsh_runtime_kit.Manager.Requests.{Request}
use dsh_runtime_kit.Manager.Store.{
  Instance, SuccessDoc, Payload, Reply, reply, thrown, Journal, Store, AcceptanceKind,
  manager_error, Accepted, accepted, rejected, Host,
}
use dsh_runtime_kit.Manager.Chain.{same_option}
use dsh_runtime_kit.Manager.Journals.{
  is_replay_authorized, trust_failure_evidence, failure, journal_identity, is_asserted,
  payload_code,
}

module _ (h : Host) where
  -- `acceptAssertion`
  unfoldable pub accept_assertion : Request → String → Operation → ℕ → Accepted
  accept_assertion r seal_digest op revision =
      let protocol_operation = "instance." +++ operation_code op in
      elim (h.validate_runtime_assertion r.runtime_assertion seal_digest r.identity
        protocol_operation r.request_digest) [
          | err code ↦ rejected (manager_error code none none)
          | ok _ ↦ h.accept_signed_document (record {
            namespace = r.identity.deployment_id;
            acceptance_kind = AcceptanceKind.assertion;
            signed_document = r.runtime_assertion;
            operation = protocol_operation;
            semantic_request_digest = r.request_digest;
            expected_effect_journal_revision = revision;
          })
        ]

  abbrev is_ready : Option String → Bool
  is_ready none = false
  is_ready (some state) = str_eq state "ready"

  -- The first required probe that is not ready.
  unfoldable pub blocked_probe : String → List String → Option String
  blocked_probe namespace [] = none
  blocked_probe namespace (probe ∷ probes) =
      if is_ready (h.health probe namespace) then blocked_probe namespace probes else some probe

  -- The optional probes that are not ready.
  unfoldable pub degraded_probes : String → List String → List String
  degraded_probes namespace [] = []
  degraded_probes namespace (probe ∷ probes) =
      let rest = degraded_probes namespace probes in
      if is_ready (h.health probe namespace) then rest else probe ∷ rest

  abbrev seal_digest_of : Option Instance → Request → String
  seal_digest_of (some i) r = i.admission_seal_digest
  seal_digest_of none r = elim r.admission_seal_digest [ some d ↦ d | none ↦ "" ]

  abbrev state_of : Option Instance → Option State
  state_of (some i) = some i.state
  state_of none = none

  unfoldable pub replay_terminal : Operation → Request → Payload → Journal → Store → Reply × Store
  unfolding trust_failure_evidence failure accept_assertion journal_identity
  replay_terminal op r replay j s =
      let instance_found = lookup r.identity.namespace s.instances in
      elim (accept_assertion r (seal_digest_of instance_found r) op j.revision) [
        | accepted digest ↦ (
          reply replay,
          record s {
            journals =
                insert (journal_identity r)
                  (record j {
                    revision = j.revision + 1;
                    replay_assertion_acceptance_digest = some digest;
                  })
                  s.journals;
          },
        )
        | rejected error ↦
            let (code, digest) = trust_failure_evidence (mutation op) error in
            (failure (mutation op) r.source code (state_of instance_found) no_details digest, s)
      ]

  -- `authorizeTerminalReplay`
  unfoldable pub authorize_terminal_replay : Operation → Request → Reply → Store → Reply × Store
  unfolding replay_terminal journal_identity
  authorize_terminal_replay op r thrown s = (thrown, s)
  authorize_terminal_replay op r (reply replay) s =
      if not (is_replay_authorized op) || str_eq (payload_code replay) "idempotency-conflict"
      then (reply replay, s)
      else elim (lookup (journal_identity r) s.journals) [
        | none ↦ (reply replay, s)
        | some j ↦ elim j.result [
          | none ↦ (reply replay, s)
          | some _ ↦
              if str_eq j.request_digest r.request_digest
              then replay_terminal op r replay j s
              else (reply replay, s)
        ]
      ]

  abbrev is_session : Option String → Bool
  is_session none = false
  is_session (some session) = is_text 256 session

  -- The branch of `validateManagerResult` for a mutation that succeeded.
  unfoldable pub validate_success : SuccessDoc → Bool
  validate_success doc =
      is_text 256 doc.request_id
      && is_identity doc.identity
      && same_state doc.observed_state (mutation_transition doc.operation).terminal
      && is_text 256 doc.idempotency_key
      && validate_lifecycle_receipt h.sha doc.receipt
      && same_operation doc.receipt.operation doc.operation
      && str_eq doc.receipt.idempotency_key doc.idempotency_key
      && same_identity doc.receipt.identity doc.identity
      && same_state doc.receipt.observed_state doc.observed_state
      && (not (is_asserted doc.operation)
          || (is_session doc.session_identity
              && same_option doc.session_identity doc.receipt.session_identity))
      && (not (same_operation doc.operation interrupt)
          || none_or is_digest doc.retained_state_digest)
      && (not (same_operation doc.operation drain)
          || none_or is_digest doc.reconciled_effect_summary_digest)
      && (not (same_operation doc.operation stop)
          || same_option doc.retained_state_disposition (some "retained"))
      && secret_free (
          doc.request_id ∷ doc.idempotency_key ∷ identity_texts doc.identity
          ++ present doc.session_identity
          ++ present doc.retained_state_digest
          ++ present doc.reconciled_effect_summary_digest
          ++ lifecycle_texts doc.receipt)
