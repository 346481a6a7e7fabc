-- ===== src/Manager/Codes.antt =====
-- The error codes of src/manager/contracts.ts: TRUST_FAILURE_CODE_MAP, the codes that want an
-- authenticated failure digest, and MANAGER_FAILURE_CODES_BY_KIND.
use dsh_runtime_kit.Base.{
  String, Bool, true, false, List, [], ◌∷◌, ◌++◌, elem, Table, lookup, none, some, map,
}
use dsh_runtime_kit.Manager.States.{Operation}

-- What answers a request: a lifecycle operation, or one of the other three.
pub data Command : Type 0 where
  mutation : Operation → Command
  status doctor reconcile : Command

unfoldable pub trust_failure_code_map : Table String
trust_failure_code_map =
    ("invalid-request", "invalid-request")
    ∷ ("unauthenticated", "trust-acceptance-unauthenticated")
    ∷ ("unauthorized", "trust-acceptance-unauthorized")
    ∷ ("namespace-not-found", "trust-namespace-not-found")
    ∷ ("stale-expected-head", "trust-head-stale")
    ∷ ("time-revision-conflict", "time-revision-conflict")
    ∷ ("time-revision-exhausted", "time-revision-exhausted")
    ∷ ("bundle-unreachable", "trust-bundle-unreachable")
    ∷ ("signature-unsupported", "signature-unsupported")
    ∷ ("signature-trust-unapproved", "signature-trust-unapproved")
    ∷ ("signature-key-unknown", "signature-key-unknown")
    ∷ ("signature-key-revoked", "signature-key-revoked")
    ∷ ("signature-key-use-invalid", "signature-key-use-invalid")
    ∷ ("signature-invalid", "signature-invalid")
    ∷ ("assertion-expired", "assertion-expired")
    ∷ ("assertion-stale", "assertion-stale")
    ∷ ("assertion-revoked", "assertion-revoked")
    ∷ ("acceptance-conflict", "trust-acceptance-conflict")
    ∷ ("replayed-nonce", "trust-acceptance-replay")
    ∷ ("authority-clock-unavailable", "trust-authority-clock-unavailable")
    ∷ ("authority-unavailable", "trust-authority-unavailable")
    ∷ []

-- `TRUST_FAILURE_CODE_MAP[code] ?? code`
unfoldable pub map_trust_authority_failure_code : String → String
unfolding trust_failure_code_map lookup
map_trust_authority_failure_code code = elim (lookup code trust_failure_code_map) [
  | some mapped ↦ mapped
  | none ↦ code
]

-- `Object.values(TRUST_FAILURE_CODE_MAP).includes(code)`
unfoldable pub is_trust_failure_code : String → Bool
unfolding trust_failure_code_map
is_trust_failure_code code = elem code (map (λ e. e.1) trust_failure_code_map)

abbrev pub digest_required_codes : List String
digest_required_codes =
    "trust-acceptance-unauthenticated" ∷ "trust-acceptance-unauthorized"
    ∷ "trust-namespace-not-found" ∷ "trust-head-stale" ∷ "trust-bundle-unreachable"
    ∷ "trust-acceptance-conflict" ∷ "trust-acceptance-replay" ∷ "time-revision-exhausted" ∷ []

unfoldable pub requires_trust_acceptance_failure_digest : String → Bool
requires_trust_acceptance_failure_digest code = elem code digest_required_codes

-- MANAGER_RETRYABLE_FAILURE_CODES, and the list in `failure`.
unfoldable pub is_retryable : String → Bool
is_retryable code = elem code (
    "runtime-unavailable" ∷ "cas-conflict" ∷ "trust-head-stale" ∷ "time-revision-conflict"
    ∷ "trust-authority-clock-unavailable" ∷ "trust-authority-unavailable" ∷ [])

abbrev pub authenticated_lifecycle_failure_codes : List String
authenticated_lifecycle_failure_codes =
    "assertion-invalid" ∷ "assertion-expired" ∷ "assertion-stale" ∷ "assertion-revoked"
    ∷ "signature-unsupported" ∷ "signature-trust-unapproved" ∷ "signature-key-unknown"
    ∷ "signature-key-revoked" ∷ "signature-invalid" ∷ "signature-key-use-invalid"
    ∷ "trust-acceptance-unauthenticated" ∷ "trust-acceptance-unauthorized"
    ∷ "trust-namespace-not-found" ∷ "trust-head-stale" ∷ "trust-bundle-unreachable"
    ∷ "trust-acceptance-conflict" ∷ "trust-acceptance-replay" ∷ "trust-authority-clock-unavailable"
    ∷ "trust-authority-unavailable" ∷ "time-revision-conflict" ∷ "time-revision-exhausted" ∷ []

-- MANAGER_FAILURE_CODES_BY_KIND, by the command whose failure it is.
unfoldable pub failure_codes : Command → List String
failure_codes (mutation Operation.lock) =
    ("invalid-request" ∷ "identity-conflict" ∷ "state-conflict" ∷ "stale-resolution"
      ∷ "seal-invalid" ∷ "authority-widening" ∷ "namespace-conflict" ∷ "cas-conflict"
      ∷ "receipt-chain-invalid" ∷ "idempotency-conflict" ∷ [])
    ++ authenticated_lifecycle_failure_codes
failure_codes (mutation Operation.start) =
    ("invalid-request" ∷ "state-conflict" ∷ "lock-invalid" ∷ "seal-invalid"
      ∷ "required-health-failed" ∷ "namespace-conflict" ∷ "runtime-unavailable" ∷ "cas-conflict"
      ∷ "idempotency-conflict" ∷ [])
    ++ authenticated_lifecycle_failure_codes
failure_codes (mutation Operation.resume) =
    ("invalid-request" ∷ "state-conflict" ∷ "identity-mismatch" ∷ "seal-invalid"
      ∷ "retained-state-missing" ∷ "receipt-chain-invalid" ∷ "runtime-unavailable" ∷ "cas-conflict"
      ∷ "idempotency-conflict" ∷ [])
    ++ authenticated_lifecycle_failure_codes
failure_codes (mutation Operation.interrupt) =
    "invalid-request" ∷ "state-conflict" ∷ "cancellation-identity-mismatch" ∷ "runtime-unavailable"
    ∷ "cas-conflict" ∷ "idempotency-conflict" ∷ []
failure_codes (mutation Operation.drain) =
    "invalid-request" ∷ "state-conflict" ∷ "trigger-fence-invalid" ∷ "publisher-epoch-stale"
    ∷ "inflight-timeout" ∷ "ambiguous-external-write" ∷ "receipt-chain-invalid" ∷ "cas-conflict"
    ∷ "idempotency-conflict" ∷ []
failure_codes (mutation Operation.stop) =
    "invalid-request" ∷ "state-conflict" ∷ "active-publisher" ∷ "unreconciled-work"
    ∷ "receipt-chain-invalid" ∷ "runtime-unavailable" ∷ "cas-conflict" ∷ "idempotency-conflict" ∷ []
failure_codes status =
    "invalid-request" ∷ "not-found" ∷ "receipt-chain-invalid" ∷ "runtime-unavailable" ∷ []
failure_codes doctor =
    "invalid-request" ∷ "not-found" ∷ "lock-invalid" ∷ "seal-invalid" ∷ "receipt-chain-invalid"
    ∷ "runtime-unavailable" ∷ []
failure_codes reconcile =
    "invalid-request" ∷ "not-found" ∷ "state-conflict" ∷ "evidence-digest-invalid"
    ∷ "receipt-chain-invalid" ∷ "idempotency-conflict" ∷ "unauthorized-state-mutation" ∷ []

unfoldable pub is_manager_failure_code : Command → String → Bool
unfolding failure_codes
is_manager_failure_code command code = elem code (failure_codes command)

-- The `authenticated` commands of `validateManagerResult`: `['lock', 'start', 'resume']`.
unfoldable pub is_authenticated : Command → Bool
is_authenticated (mutation Operation.lock) = true
is_authenticated (mutation Operation.start) = true
is_authenticated (mutation Operation.resume) = true
is_authenticated _ = false
