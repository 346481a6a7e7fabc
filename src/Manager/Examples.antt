-- ===== src/Manager/Examples.antt =====
-- Test data: a store with one running instance, requests on it, and hosts with concrete digests,
-- trust verifiers and effect handlers.
use dsh_runtime_kit.Base.{false, String, [], ◌∷◌, none, some, Table, ok}
use dsh_runtime_kit.Manager.Value.{Value, str, obj, Fields, end, field, Identity}
use dsh_runtime_kit.Manager.States.{
  Operation, absent, locked, running, interrupted, lock, start, interrupt,
}
use dsh_runtime_kit.Manager.Receipts.{LifecycleReceipt, Receipt, lifecycle, quarantine}
use dsh_runtime_kit.Manager.Requests.{Documents, Request}
use dsh_runtime_kit.Manager.Query.{StatusRequest, DoctorRequest}
use dsh_runtime_kit.Manager.Store.{
  Instance, Store, Effect, EffectStatus, Host, accepted, create_memory_runtime_store,
}

abbrev pub digest_one : String
digest_one = "sha256:1111111111111111111111111111111111111111111111111111111111111111"

abbrev pub digest_two : String
digest_two = "sha256:2222222222222222222222222222222222222222222222222222222222222222"

abbrev pub digest_three : String
digest_three = "sha256:3333333333333333333333333333333333333333333333333333333333333333"

abbrev pub digest_four : String
digest_four = "sha256:4444444444444444444444444444444444444444444444444444444444444444"

-- A digest that tells the operations of the examples apart.
abbrev sha_of_operation : Operation → String
sha_of_operation lock = digest_one
sha_of_operation start = digest_two
sha_of_operation interrupt = digest_three
sha_of_operation _ = digest_four

abbrev pub toy_sha : Receipt → String
toy_sha (lifecycle r) = sha_of_operation r.operation
toy_sha (quarantine r) = digest_four

abbrev pub agent : Identity
agent = record {
  deployment_id = "d";
  profile_id = "p";
  generation_id = "g";
  instance_id = "i";
  namespace = "d/p/g/i";
}

abbrev pub lock_receipt_one : LifecycleReceipt
lock_receipt_one = record {
  digest = digest_one;
  operation = lock;
  identity = agent;
  idempotency_key = "lock-1";
  source_state = absent;
  observed_state = locked;
  composition_lock_receipt_digest = digest_four;
  resolved_composition_digest = digest_four;
  admission_seal_digest = digest_four;
  request_digest = digest_four;
  prior_receipt_digest = none;
  seal_trust_acceptance_receipt_digest = some digest_four;
  assertion_trust_acceptance_receipt_digest = some digest_four;
  session_identity = none;
  effect_summary_digest = none;
  timestamp = "2026-01-02T03:04:05Z";
}

abbrev pub start_receipt : LifecycleReceipt
start_receipt = record lock_receipt_one {
  digest = digest_two;
  operation = start;
  idempotency_key = "start-1";
  source_state = locked;
  observed_state = running;
  prior_receipt_digest = some digest_one;
  seal_trust_acceptance_receipt_digest = none;
  session_identity = some "s1";
}

abbrev pub interrupt_receipt : LifecycleReceipt
interrupt_receipt = record lock_receipt_one {
  digest = digest_three;
  operation = interrupt;
  idempotency_key = "int-1";
  source_state = running;
  observed_state = interrupted;
  prior_receipt_digest = some digest_two;
  seal_trust_acceptance_receipt_digest = none;
  assertion_trust_acceptance_receipt_digest = none;
  session_identity = some "s1";
}

abbrev pub running_instance : Instance
running_instance = record {
  identity = agent;
  state = running;
  composition_lock_receipt_digest = digest_four;
  resolved_composition_digest = digest_four;
  admission_seal_digest = digest_four;
  scope_class = "single";
  degraded_health = [];
  receipt_head = some digest_two;
  session_identity = some "s1";
  health_required = [];
  health_optional = [];
  resource_classes = [];
  pending_source_receipt_head = none;
}

abbrev pub two_receipts : Table Receipt
two_receipts = (digest_one, lifecycle lock_receipt_one) ∷ (digest_two, lifecycle start_receipt) ∷ []

abbrev pub running_store : Store
running_store = record create_memory_runtime_store {
  instances = ("d/p/g/i", running_instance) ∷ [];
  namespaces = ("d/p/g/i", "d\0p\0g\0i\0d/p/g/i") ∷ [];
  receipts = two_receipts;
}

abbrev toy_documents : Documents
toy_documents = record {
  compute_semantic_request_digest = λ fs. digest_four;
  validate_resolved_composition = λ v. ok (record {
    digest = digest_four;
    scope_class = "single";
    health_required = [];
    health_optional = [];
    resource_classes = [];
  });
  validate_composition_lock_receipt = λ v c. ok digest_four;
}

-- A handler that answers that it did what it was asked.
abbrev pub obedient : Request → Instance → Effect
obedient r i = record {
  status = EffectStatus.succeeded;
  session_identity = i.session_identity;
  session_null = false;
  effect_summary_digest = none;
  retained_state_digest = none;
  retained_state_disposition = none;
}

abbrev pub toy_host : Host
toy_host = record {
  documents = toy_documents;
  sha = toy_sha;
  validate_admission_seal = λ seal c d i. ok tt;
  validate_runtime_assertion = λ v d i o q. ok tt;
  accept_signed_document = λ a. accepted digest_four;
  health = λ probe namespace. some "ready";
  effects = λ op. some obedient;
  timestamp = "2026-01-02T03:04:05Z";
}

abbrev agent_value : Value
agent_value = obj (
    field "deploymentId" (str "d") (
      field "profileId" (str "p") (
        field "generationId" (str "g")
          (field "instanceId" (str "i") (field "namespace" (str "d/p/g/i") end)))))

abbrev pub interrupt_fields : Fields
interrupt_fields = field "apiVersion" (str "runtime.sympoies.dev/v1") (
    field "kind" (str "InterruptInstanceRequest") (
      field "requestId" (str "r1") (
        field "idempotencyKey" (str "int-1") (
          field "requestDigest" (str digest_four) (
            field "identity" agent_value
              (field "expectedState" (str "Running") (field "runIdentity" (str "s1") end)))))))

abbrev pub interrupt_value : Value
interrupt_value = obj interrupt_fields

abbrev sealed_value : Value
sealed_value = obj (field "metadata" (obj (field "digest" (str digest_four) end)) end)

abbrev pub lock_value : Value
lock_value = obj (
    field "apiVersion" (str "runtime.sympoies.dev/v1") (
      field "kind" (str "LockInstanceRequest") (
        field "requestId" (str "r0") (
          field "idempotencyKey" (str "lock-1") (
            field "requestDigest" (str digest_four) (
              field "identity" agent_value (
                field "expectedState" (str "Absent") (
                  field "resolvedComposition" (obj end) (
                    field "resolvedCompositionDigest" (str digest_four) (
                      field "compositionLockReceipt" (obj end) (
                        field "admissionSeal" sealed_value (
                          field "admissionSealDigest" (str digest_four) (
                            field "runtimeAssertion" sealed_value
                              (field "runtimeAssertionDigest" (str digest_four) end))))))))))))))

abbrev pub status_one : StatusRequest
status_one = record { request_id = "r2"; identity = agent; receipt_chain_head = some digest_two }

abbrev pub doctor_one : DoctorRequest
doctor_one = record {
  request_id = "r3";
  identity = agent;
  expected_composition_lock_receipt_digest = digest_four;
  expected_admission_seal_digest = digest_four;
  expected_receipt_chain_head = digest_two;
}

-- What the fields of the interrupt are read into.
abbrev pub interrupt_request : Request
interrupt_request = record {
  source = interrupt_fields;
  operation = interrupt;
  request_id = "r1";
  idempotency_key = "int-1";
  request_digest = digest_four;
  identity = agent;
  expected_state = running;
  admission_seal_digest = none;
  prior_receipt_digest = none;
  run_identity = some "s1";
  receipt_chain_head = none;
  runtime_assertion = Value.undefined;
  lock_documents = none;
}

abbrev pub status_value : Value
status_value = obj (
    field "apiVersion" (str "runtime.sympoies.dev/v1") (
      field "kind" (str "StatusInstanceRequest") (
        field "requestId" (str "r2")
          (field "identity" agent_value (field "receiptChainHead" (str digest_two) end)))))
