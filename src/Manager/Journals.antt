-- ===== src/Manager/Journals.antt =====
-- What every handler of src/manager/lifecycle.ts shares: the journal's key, failures, replays,
-- the trust verifier's errors, receipts.
use dsh_runtime_kit.Base.{
  String, Bool, true, false, ◌&&◌, str_eq, if◌then◌else◌, Option, none, some, lookup, insert,
}
use dsh_runtime_kit.Manager.Value.{Value, obj, end, Fields, ◌+++◌}
use dsh_runtime_kit.Manager.States.{Operation, State, lock, start, resume}
use dsh_runtime_kit.Manager.Codes.{
  Command, mutation, is_manager_failure_code, map_trust_authority_failure_code,
  requires_trust_acceptance_failure_digest,
}
use dsh_runtime_kit.Manager.Receipts.{
  LifecycleReceipt, Receipt, lifecycle, zero_digest, compute_manager_document_digest,
}
use dsh_runtime_kit.Manager.Failures.{Details, no_details, failure_doc, validate_failure}
use dsh_runtime_kit.Manager.Requests.{Request, mutation_kind}
use dsh_runtime_kit.Manager.Store.{
  Instance, IndeterminateDoc, Payload, failed, indeterminate, Reply, reply, thrown, Journal,
  JournalStatus, Store, TrustError, manager_error, other_error,
}
use dsh_runtime_kit.Manager.Chain.{same_option}

-- `journalIdentity`, and `originalKey` of `reconcile`.
unfoldable pub journal_key : Operation → String → String → String
journal_key op namespace key = mutation_kind op +++ "\0" +++ namespace +++ "\0" +++ key

unfoldable pub journal_identity : Request → String
unfolding journal_key
journal_identity r = journal_key r.operation r.identity.namespace r.idempotency_key

-- The fields of a request that may be no object.
unfoldable pub candidate : Value → Fields
candidate (obj fs) = fs
candidate _ = end

-- `failure`, which validates the document that it built.
unfoldable pub failure : Command → Fields → String → Option State → Details → Option String → Reply
unfolding failure_doc validate_failure
failure command request code state details digest =
    let doc = failure_doc command request code state details digest in
    if validate_failure doc then reply (failed doc) else thrown

unfoldable pub indeterminate_doc : Operation → Request → State → Option String → IndeterminateDoc
indeterminate_doc op r state digest = record {
  operation = op;
  request_id = r.request_id;
  idempotency_key = r.idempotency_key;
  last_observed_state = state;
  identity = r.identity;
  receipt_digest = digest;
}

-- `['lock', 'start', 'resume'].includes(operation)`, and the same with no lock.
abbrev pub is_asserted : Operation → Bool
is_asserted start = true
is_asserted resume = true
is_asserted _ = false

abbrev pub is_replay_authorized : Operation → Bool
is_replay_authorized lock = true
is_replay_authorized op = is_asserted op

unfoldable pub replay_or_conflict : Operation → Request → Store → Option Reply
unfolding journal_identity failure
replay_or_conflict op r s = elim (lookup (journal_identity r) s.journals) [
  | none ↦ none
  | some existing ↦
      if str_eq existing.request_digest r.request_digest
      then elim existing.result [
        | some result ↦ some (reply result)
        | none ↦ elim existing.indeterminate [ some i ↦ some (reply i) | none ↦ none ]
      ]
      else some (
          failure (mutation op) r.source "idempotency-conflict" (some existing.source_state)
            no_details none)
]

-- `trustFailureEvidence`: the code, and the digest of an authenticated failure.
unfoldable pub trust_failure_evidence : Command → TrustError → String × Option String
unfolding map_trust_authority_failure_code
trust_failure_evidence command error = elim error [
  | manager_error code kind digest ↦
      let mapped = map_trust_authority_failure_code code in
      if same_option kind (some "DshTrustAcceptanceFailed")
        && is_manager_failure_code command mapped
      then elim digest [ some d ↦ (mapped, some d) | none ↦ (local_code mapped, none) ]
      else (local_code mapped, none)
  | other_error ↦ (local_code (map_trust_authority_failure_code "authority-unavailable"), none)
]
  where
    without_digest : String → String
    without_digest mapped =
        if requires_trust_acceptance_failure_digest mapped
        then "trust-authority-unavailable"
        else mapped

    local_code : String → String
    local_code mapped =
        if is_manager_failure_code command (without_digest mapped)
        then without_digest mapped
        else "trust-authority-unavailable"

-- The code of a payload, for the one test that reads it.
abbrev pub payload_code : Payload → String
payload_code (failed doc) = doc.code
payload_code _ = ""

-- Puts a failure in the journal, unless building it threw.
unfoldable pub settle_failed : String → Journal → Reply → Store → Reply × Store
settle_failed key j thrown s = (thrown, s)
settle_failed key j (reply p) s = (
  reply p,
  record s {
    journals = insert key (record j { status = JournalStatus.failed; result = some p }) s.journals;
  },
)

unfoldable pub settle_indeterminate :
    String → Journal → Operation → Request → Instance → Store → Reply × Store
unfolding indeterminate_doc
settle_indeterminate key j op r i s =
    let p : Payload = indeterminate (indeterminate_doc op r i.state i.receipt_head) in
    (
      reply p,
      record s {
        journals =
            insert key (record j { status = JournalStatus.indeterminate; indeterminate = some p })
              s.journals;
      },
    )

-- `a ?? b`
abbrev pub first_of_two : Option String → Option String → Option String
first_of_two none b = b
first_of_two (some a) b = some a

-- `receipt`: the new receipt, before its validation.
unfoldable pub build_receipt :
    (Receipt → String)
    → Request
    → Instance
    → State
    → State
    → Option String
    → Option String
    → Option String
    → Option String
    → String
    → LifecycleReceipt
build_receipt sha r i source observed session summary seal_acceptance assertion_acceptance time =
    record value { digest = compute_manager_document_digest sha (lifecycle value) }
  where
    value : LifecycleReceipt
    value = record {
      digest = zero_digest;
      operation = r.operation;
      identity = r.identity;
      idempotency_key = r.idempotency_key;
      source_state = source;
      observed_state = observed;
      composition_lock_receipt_digest = i.composition_lock_receipt_digest;
      resolved_composition_digest = i.resolved_composition_digest;
      admission_seal_digest = i.admission_seal_digest;
      request_digest = r.request_digest;
      prior_receipt_digest = i.receipt_head;
      seal_trust_acceptance_receipt_digest = seal_acceptance;
      assertion_trust_acceptance_receipt_digest = assertion_acceptance;
      session_identity = first_of_two session i.session_identity;
      effect_summary_digest = summary;
      timestamp = time;
    }
