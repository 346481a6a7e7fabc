-- ===== src/Manager/Failures.antt =====
-- The failure documents of src/manager/lifecycle.ts (`failure` and the functions that keep a
-- request's texts out of it) and their validation in src/manager/contracts.ts.
use dsh_runtime_kit.Base.{
  String, Bool, true, false, not, ◌&&◌, str_eq, if◌then◌else◌, Option, none, some, ok, err,
}
use dsh_runtime_kit.Manager.Value.{
  Value, str, Fields, Identity, get, is_text, is_digest, is_identity, identity, identity_texts,
}
use dsh_runtime_kit.Manager.Secrets.{is_secret}
use dsh_runtime_kit.Manager.States.{State, is_instance_state}
use dsh_runtime_kit.Manager.Codes.{
  Command, is_manager_failure_code, requires_trust_acceptance_failure_digest, is_retryable,
  is_authenticated, is_trust_failure_code,
}
use dsh_runtime_kit.Manager.Receipts.{none_or, is_some, secret_free}

-- The `details` of a failure: `{}` or `{ probe }`.
pub data Details : Type 0 where
  no_details : Details
  probe : String → Details

pub record FailureDoc : Type 0 where
  pub command : Command
  pub request_id : Option String
  pub code : String
  pub retryable : Bool
  pub observed_state : Option State
  pub identity : Option Identity
  pub details : Details
  pub trust_acceptance_failure_digest : Option String

unfoldable pub safe_text : String → Option String
safe_text s = if is_text 256 s && not (is_secret s) then some s else none

-- `safeFailureRequestId`, and `safeSessionIdentity` on a value.
unfoldable pub safe_failure_request_id : Value → Option String
unfolding safe_text
safe_failure_request_id (str s) = safe_text s
safe_failure_request_id _ = none

unfoldable pub safe_failure_identity : Value → Option Identity
safe_failure_identity v = elim (identity v) [
  | ok i ↦ if secret_free (identity_texts i) then some i else none
  | err _ ↦ none
]

-- `safeSessionIdentity`; `none` stands for `null` and for `undefined`.
unfoldable pub safe_session_identity : Option String → Option String
unfolding safe_text
safe_session_identity none = none
safe_session_identity (some s) = safe_text s

-- The code that a failure ends up with.
unfoldable pub admitted_code : Command → String → String
admitted_code command code =
    if is_manager_failure_code command code then code else "invalid-request"

unfoldable pub failure_code : Command → String → Option String → String
unfolding admitted_code
failure_code command code digest =
    let admitted = admitted_code command code in
    if requires_trust_acceptance_failure_digest admitted && not (is_some digest)
    then admitted_code command "trust-authority-unavailable"
    else admitted

-- `state === 'Absent' ? null : state`
abbrev pub observed : Option State → Option State
observed none = none
observed (some s) = if is_instance_state s then some s else none

unfoldable pub failure_doc :
    Command → Fields → String → Option State → Details → Option String → FailureDoc
unfolding failure_code
failure_doc command request code state details digest = record {
  command = command;
  request_id = safe_failure_request_id (get "requestId" request);
  code = failure_code command code digest;
  retryable = is_retryable (failure_code command code digest);
  observed_state = observed state;
  identity = safe_failure_identity (get "identity" request);
  details = details;
  trust_acceptance_failure_digest = if is_authenticated command then digest else none;
}

-- `validateFailureDetails`; a text of 256 bytes stays below the bound on the details' bytes.
unfoldable pub validate_failure_details : Details → String → Bool
validate_failure_details no_details code = not (str_eq code "required-health-failed")
validate_failure_details (probe p) code =
    str_eq code "required-health-failed" && is_text 256 p && not (is_secret p)

abbrev none_or_identity : Option Identity → Bool
none_or_identity none = true
none_or_identity (some i) = is_identity i && secret_free (identity_texts i)

abbrev none_or_state : Option State → Bool
none_or_state none = true
none_or_state (some s) = is_instance_state s

abbrev same_truth : Bool → Bool → Bool
same_truth true b = b
same_truth false b = not b

-- The `Failed` branch of `validateManagerResult`, and `validateStatusFailure`.
unfoldable pub validate_failure : FailureDoc → Bool
unfolding validate_failure_details
validate_failure doc =
    is_manager_failure_code doc.command doc.code
    && same_truth doc.retryable (is_retryable doc.code)
    && none_or (λ s. is_text 256 s && not (is_secret s)) doc.request_id
    && none_or_identity doc.identity
    && none_or_state doc.observed_state
    && none_or (λ d. is_digest d && is_trust_failure_code doc.code && not (is_secret d))
        doc.trust_acceptance_failure_digest
    && not (
        is_authenticated doc.command
        && requires_trust_acceptance_failure_digest doc.code
        && not (is_some doc.trust_acceptance_failure_digest))
    && validate_failure_details doc.details doc.code
