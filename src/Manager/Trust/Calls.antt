-- ===== src/Manager/Trust/Calls.antt =====
-- readCurrent and acceptSignedDocument of src/manager/trust.ts, and sequences of such calls.
use dsh_runtime_kit.Base.{
  ℕ, suc, String, Bool, ◌&&◌, List, [], ◌∷◌, leb, ◌==◌, Option, none, some, Check, ok, err, ◌>>=◌,
  ◌>>◌, require, lookup,
}
use dsh_runtime_kit.Manager.Trust.{TrustBundle, TrustTransition}
use dsh_runtime_kit.Manager.Trust.Pages.{LineageReply, TrustState, equal, same_option}
use dsh_runtime_kit.Manager.Trust.Refresh.{refresh_current}

-- The times of a response that accepts a signed document.
pub record AcceptanceTimes : Type 0 where
  pub accepted_authority_time : ℕ
  pub accepted_prior_authority_time : Option ℕ
  pub accepted_time_revision : ℕ
  pub accepted_prior_time_revision : Option ℕ

unfoldable pub times_fit : TrustState → AcceptanceTimes → Bool
unfolding same_option
times_fit snapshot response =
    equal response.accepted_prior_authority_time (some snapshot.state_authority_time)
    && (equal response.accepted_prior_time_revision (some snapshot.state_time_revision)
        && (response.accepted_time_revision == suc snapshot.state_time_revision
            && leb snapshot.state_authority_time response.accepted_authority_time))

abbrev pub accepted_state : TrustState → AcceptanceTimes → TrustState
accepted_state snapshot response = record snapshot {
  state_time_revision = response.accepted_time_revision;
  state_authority_time = response.accepted_authority_time;
}

-- The end of `acceptSignedDocument`: the state behind an acceptance.
unfoldable pub accept_times : TrustState → AcceptanceTimes → Check TrustState
unfolding times_fit
accept_times snapshot response = do
  require (times_fit snapshot response) "time-revision-conflict"
  ok (accepted_state snapshot response)

-- What a call leaves: the state of its snapshot, or the one that was accepted.
unfoldable pub accepted_or : TrustState → Check TrustState → Option TrustState × Check (Unit {0})
accepted_or snapshot (ok accepted) = (some accepted, ok tt)
accepted_or snapshot (err code) = (some snapshot, err code)

-- The document's bundle, its signature and the response of the authority.
unfoldable pub accepted_under :
    TrustState
    → Option TrustBundle
    → (TrustBundle → Check (Unit {0}))
    → Check AcceptanceTimes
    → Check TrustState
unfolding accept_times
accepted_under snapshot none verify_document response = err "bundle-unreachable"
accepted_under snapshot (some bundle) verify_document response = do
  signed ← verify_document bundle
  times ← response
  accept_times snapshot times

-- `snapshot.bundles.get(bundleDigest)`
abbrev pub bundle_of : TrustState → String → Option TrustBundle
bundle_of snapshot bundle_digest = elim snapshot.state_lineage [
  | none ↦ none
  | some lineage ↦ lookup bundle_digest lineage.state_bundles
]

-- `acceptSignedDocument` behind its refresh: the state, which a failure leaves as refreshed.
unfoldable pub accept_under :
    TrustState
    → String
    → (TrustBundle → Check (Unit {0}))
    → Check AcceptanceTimes
    → Option TrustState × Check (Unit {0})
unfolding accepted_or accepted_under
accept_under snapshot bundle_digest verify_document response =
    accepted_or snapshot
      (accepted_under snapshot (bundle_of snapshot bundle_digest) verify_document response)

-- A call of the verifier, with what the authority answers while it runs: the replies to readLineage,
-- the bundles that it hands out, and to an acceptance the response of `accept`, if the authority has
-- one. A bundle is checked against the digest that names it, and a bundle read that fails ends its
-- call, so within one call the answers to readBundle are a function.
pub data TrustCall : Type 0 where
  read_call : (String → Check TrustBundle) → List LineageReply → TrustCall
  accept_call :
      (String → Check TrustBundle)
      → List LineageReply
      → String
      → (TrustBundle → Check (Unit {0}))
      → Option (Check AcceptanceTimes)
      → TrustCall

-- A call behind its refresh; a refresh that failed has changed nothing.
unfoldable pub behind_refresh :
    Option TrustState
    → Check TrustState
    → (TrustState → Option TrustState × Check (Unit {0}))
    → Option TrustState × Check (Unit {0})
behind_refresh retained (err code) next = (retained, err code)
behind_refresh retained (ok snapshot) next = next snapshot

module _ (genesis : String) (verify : TrustTransition → TrustBundle → Check (Unit {0}))
    (read_bundle : String → Check TrustBundle) where
  -- `acceptSignedDocument` with the digest of the document's bundle, the check of its signature, and
  -- the response of the authority's `accept`. An authority that has no `accept` is not asked at all.
  unfoldable pub accept_signed_document :
      Option TrustState
      → List LineageReply
      → String
      → (TrustBundle → Check (Unit {0}))
      → Option (Check AcceptanceTimes)
      → Option TrustState × Check (Unit {0})
  unfolding refresh_current behind_refresh accept_under
  accept_signed_document retained replies bundle_digest verify_document none =
      (retained, err "trust-authority-unavailable")
  accept_signed_document retained replies bundle_digest verify_document (some response) =
      behind_refresh retained (refresh_current genesis read_bundle verify retained replies)
        (λ snapshot. accept_under snapshot bundle_digest verify_document response)

  unfoldable pub read_current :
      Option TrustState → List LineageReply → Option TrustState × Check (Unit {0})
  unfolding refresh_current behind_refresh
  read_current retained replies =
      behind_refresh retained (refresh_current genesis read_bundle verify retained replies)
        (λ snapshot. (some snapshot, ok tt))

module _ (genesis : String) (verify : TrustTransition → TrustBundle → Check (Unit {0})) where
  unfoldable pub trust_call : Option TrustState → TrustCall → Option TrustState × Check (Unit {0})
  unfolding read_current accept_signed_document
  trust_call retained (read_call read_bundle replies) =
      read_current genesis verify read_bundle retained replies
  trust_call retained (accept_call read_bundle replies bundle_digest verify_document response) =
      accept_signed_document genesis verify read_bundle retained replies bundle_digest
        verify_document response

  -- What is retained behind a sequence of calls, whether they succeed or fail.
  unfoldable pub trust_calls : Option TrustState → List TrustCall → Option TrustState
  unfolding trust_call
  trust_calls retained [] = retained
  trust_calls retained (call ∷ calls) = trust_calls (trust_call retained call).0 calls
