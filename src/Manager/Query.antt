-- ===== src/Manager/Query.antt =====
-- `status` and `doctor` of src/manager/lifecycle.ts, which read the store and change nothing.
use dsh_runtime_kit.Base.{
  String, Bool, false, not, ◌&&◌, [], ◌∷◌, str_eq, if◌then◌else◌, Option, none, some, lookup, Check,
  ok, err, ◌>>=◌, ◌>>◌, require,
}
use dsh_runtime_kit.Manager.Value.{
  Value, null, Fields, Identity, get, plain_record, exact_keys, text, digest, identity,
  is_same_text, canonical_identity,
}
use dsh_runtime_kit.Manager.Codes.{status, doctor}
use dsh_runtime_kit.Manager.Failures.{no_details}
use dsh_runtime_kit.Manager.Requests.{api_version}
use dsh_runtime_kit.Manager.Store.{
  Instance, StatusDoc, DoctorDoc, status_succeeded, doctor_succeeded, Reply, reply, Store, Host,
}
use dsh_runtime_kit.Manager.Chain.{same_option, receipt_chain_valid, receipt_head_valid}
use dsh_runtime_kit.Manager.Journals.{candidate, failure}

pub record StatusRequest : Type 0 where
  pub request_id : String
  pub identity : Identity
  pub receipt_chain_head : Option String

pub record DoctorRequest : Type 0 where
  pub request_id : String
  pub identity : Identity
  pub expected_composition_lock_receipt_digest : String
  pub expected_admission_seal_digest : String
  pub expected_receipt_chain_head : String

-- `if (request.receiptChainHead !== null) digest(...)`
unfoldable pub null_or_digest : Value → Check (Option String)
null_or_digest null = ok none
null_or_digest v = do d ← digest v; ok (some d)

unfoldable pub validate_status_request : Value → Check StatusRequest
validate_status_request value = do
  fs ← plain_record value
  exact_keys fs ("apiVersion" ∷ "kind" ∷ "requestId" ∷ "identity" ∷ "receiptChainHead" ∷ []) []
  require
      (is_same_text (get "apiVersion" fs) api_version
        && is_same_text (get "kind" fs) "StatusInstanceRequest")
      "invalid-request"
  request_id ← text 256 (get "requestId" fs)
  i ← identity (get "identity" fs)
  head ← null_or_digest (get "receiptChainHead" fs)
  ok (record { request_id = request_id; identity = i; receipt_chain_head = head })

unfoldable pub validate_doctor_request : Value → Check DoctorRequest
validate_doctor_request value = do
  fs ← plain_record value
  exact_keys fs
      ("apiVersion" ∷ "kind" ∷ "requestId" ∷ "identity" ∷ "expectedCompositionLockReceiptDigest"
        ∷ "expectedAdmissionSealDigest" ∷ "expectedReceiptChainHead" ∷ [])
      []
  require
      (is_same_text (get "apiVersion" fs) api_version
        && is_same_text (get "kind" fs) "DoctorInstanceRequest")
      "invalid-request"
  request_id ← text 256 (get "requestId" fs)
  i ← identity (get "identity" fs)
  lock_digest ← digest (get "expectedCompositionLockReceiptDigest" fs)
  seal_digest ← digest (get "expectedAdmissionSealDigest" fs)
  head ← digest (get "expectedReceiptChainHead" fs)
  ok (record {
    request_id = request_id;
    identity = i;
    expected_composition_lock_receipt_digest = lock_digest;
    expected_admission_seal_digest = seal_digest;
    expected_receipt_chain_head = head;
  })

-- The instance under a namespace, if it has the identity that is asked for.
unfoldable pub find_instance : Identity → Store → Option Instance
find_instance identity s = elim (lookup identity.namespace s.instances) [
  | none ↦ none
  | some i ↦
      if str_eq (canonical_identity i.identity) (canonical_identity identity) then some i else none
]

-- `request.receiptChainHead !== null && request.receiptChainHead !== instance.receiptHead`
abbrev pub names_other_head : Option String → Option String → Bool
names_other_head none head = false
names_other_head (some d) head = not (same_option (some d) head)

module _ (h : Host) where
  unfoldable pub status_of : StatusRequest → Instance → StatusDoc
  status_of r i = record {
    request_id = r.request_id;
    identity = i.identity;
    observed_state = i.state;
    session_identity = i.session_identity;
    receipt_chain_head = i.receipt_head;
    health_required = i.health_required;
    health_optional = i.degraded_health;
    resource_classes = i.resource_classes;
  }

  unfoldable pub status_request : Fields → StatusRequest → Store → Reply
  status_request source r s = elim (find_instance r.identity s) [
    | none ↦ failure status source "not-found" none no_details none
    | some i ↦
        if not (receipt_head_valid h.sha s.receipts i)
        then failure status source "receipt-chain-invalid" (some i.state) no_details none
        else if names_other_head r.receipt_chain_head i.receipt_head
        then failure status source "receipt-chain-invalid" (some i.state) no_details none
        else reply (status_succeeded (status_of r i))
  ]

  unfoldable pub status_instance : Value → Store → Reply
  status_instance value s = elim (validate_status_request value) [
    | err _ ↦ failure status (candidate value) "invalid-request" none no_details none
    | ok r ↦ status_request (candidate value) r s
  ]

  abbrev is_chain_valid : Instance → Store → Bool
  is_chain_valid i s = elim (receipt_chain_valid h.sha s.receipts i.identity i.receipt_head) [
    | some valid ↦ valid
    | none ↦ false
  ]

  unfoldable pub doctor_of : DoctorRequest → Instance → Store → DoctorDoc
  doctor_of r i s =
      let lock_ok =
        str_eq r.expected_composition_lock_receipt_digest i.composition_lock_receipt_digest in
      let seal_ok = str_eq r.expected_admission_seal_digest i.admission_seal_digest in
      let chain_ok =
        same_option (some r.expected_receipt_chain_head) i.receipt_head
        && receipt_head_valid h.sha s.receipts i
        && is_chain_valid i s in
      record {
        request_id = r.request_id;
        identity = i.identity;
        observed_state = i.state;
        composition_lock = lock_ok;
        admission_seal = seal_ok;
        receipt_chain = chain_ok;
        recovery_recommendation = if lock_ok && seal_ok && chain_ok then "none" else "reconcile";
        receipt_chain_verified = chain_ok;
      }

  unfoldable pub doctor_instance : Value → Store → Reply
  doctor_instance value s = elim (validate_doctor_request value) [
    | err _ ↦ failure doctor (candidate value) "invalid-request" none no_details none
    | ok r ↦ elim (find_instance r.identity s) [
      | none ↦ failure doctor (candidate value) "not-found" none no_details none
      | some i ↦ reply (doctor_succeeded (doctor_of r i s))
    ]
  ]
