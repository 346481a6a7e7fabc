-- ===== src/Manager/Trust/CallTimes.antt =====
-- Over the calls of the verifier in src/manager/trust.ts the time of the authority never goes back.
use dsh_runtime_kit.Base.{
  after_bind, after_require, ok_inj, suc, ◌≤◌, ◌<◌, ◌≡◌, refl, subst, ap, ◌∙◌, String, true, List,
  [], ◌∷◌, Option, none, some, Check, ok, err, arith,
}
use dsh_runtime_kit.Manager.Trust.{TrustBundle, TrustTransition}
use dsh_runtime_kit.Manager.Trust.Calls.{
  AcceptanceTimes, TrustCall, accept_call, accept_signed_document, accept_times, accept_under,
  accepted_or, accepted_state, accepted_under, behind_refresh, bundle_of, read_call, read_current,
  times_fit, trust_call, trust_calls,
}
use dsh_runtime_kit.Manager.Trust.Pages.{TrustState}
use dsh_runtime_kit.Manager.Trust.Refresh.{refresh_current}
use dsh_runtime_kit.Manager.Trust.Times.{Advanced, refresh_current-times, refused}

-- The state behind a call: not earlier than it was, and later where the call succeeded.
abbrev Behind : TrustState → Option TrustState × Check (Unit {0}) → Type 0
Behind r (none, reply) = ⊥
Behind r (some s, ok done) = Advanced r s
Behind r (some s, err code) =
    (r.state_time_revision ≤ s.state_time_revision)
    × (r.state_authority_time ≤ s.state_authority_time)

times_fit-facts :
    (snapshot : TrustState) (response : AcceptanceTimes)
    → times_fit snapshot response ≡ true
    → (response.accepted_time_revision ≡ suc snapshot.state_time_revision)
      × (snapshot.state_authority_time ≤ response.accepted_authority_time)
unfolding times_fit
times_fit-facts snapshot response e = (ground arith, ground arith)

accept_times-Behind :
    (r snapshot s : TrustState) (response : AcceptanceTimes)
    → Advanced r snapshot
    → accept_times snapshot response ≡ ok s
    → Advanced r s
unfolding accept_times
accept_times-Behind r snapshot s response later e =
    let (test, last) =
      after_require (times_fit snapshot response) "time-revision-conflict"
        (ok (accepted_state snapshot response)) e in
    let (next, after) = times_fit-facts snapshot response test in
    let (ahead, since) = later in
    subst (Advanced r) {x = accepted_state snapshot response} (ok_inj last)
      (omega arith, omega arith)

accepted_under-Behind :
    (r snapshot s : TrustState) (bundle : Option TrustBundle)
    (verify_document : TrustBundle → Check (Unit {0})) (response : Check AcceptanceTimes)
    → Advanced r snapshot
    → accepted_under snapshot bundle verify_document response ≡ ok s
    → Advanced r s
unfolding accepted_under
accepted_under-Behind r snapshot s none verify_document response later e = cc
accepted_under-Behind r snapshot s (some bundle) verify_document response later e =
    let (signed, verified, e1) = after_bind (verify_document bundle) _ e in
    let (times, answered, e2) = after_bind response _ e1 in
    accept_times-Behind r snapshot s times later e2

accepted_or-Behind :
    (r snapshot : TrustState) (c : Check TrustState)
    → Advanced r snapshot
    → ((s : TrustState) → c ≡ ok s → Advanced r s)
    → Behind r (accepted_or snapshot c)
unfolding accepted_or
accepted_or-Behind r snapshot (ok s) later next = next s refl
accepted_or-Behind r snapshot (err code) (revision, time) next = (omega arith, time)

accept_under-Behind :
    (r snapshot : TrustState) (bundle_digest : String)
    (verify_document : TrustBundle → Check (Unit {0})) (response : Check AcceptanceTimes)
    → Advanced r snapshot
    → Behind r (accept_under snapshot bundle_digest verify_document response)
unfolding accept_under
accept_under-Behind r snapshot bundle_digest verify_document response later =
    accepted_or-Behind r snapshot _ later (λ s e.
      accepted_under-Behind r snapshot s (bundle_of snapshot bundle_digest) verify_document response
        later e)

Behind-refresh :
    (r : TrustState) (c : Check TrustState)
    (next : TrustState → Option TrustState × Check (Unit {0}))
    → ((s : TrustState) → c ≡ ok s → Advanced r s)
    → ((s : TrustState) → Advanced r s → Behind r (next s))
    → Behind r (behind_refresh (some r) c next)
unfolding behind_refresh
Behind-refresh r (ok s) next times step = step s (times s refl)
Behind-refresh r (err code) next times step = (omega arith, omega arith)

Behind-facts :
    (r : TrustState) (result : Option TrustState × Check (Unit {0}))
    → Behind r result
    → (s : TrustState) × (result.0 ≡ some s)
      × (r.state_time_revision ≤ s.state_time_revision)
      × (r.state_authority_time ≤ s.state_authority_time)
      × (result.1 ≡ ok tt → r.state_time_revision < s.state_time_revision)
Behind-facts r (none, reply) h = absurd h
Behind-facts r (some s, ok done) (revision, time) = (s, refl, omega arith, time, λ e. revision)
Behind-facts r (some s, err code) (revision, time) =
    (s, refl, revision, time, λ e. absurd (refused e))

module _ (genesis : String) (verify : TrustTransition → TrustBundle → Check (Unit {0})) where
  trust_call-Behind :
      (r : TrustState) (call : TrustCall) → Behind r (trust_call genesis verify (some r) call)
  unfolding trust_call read_current accept_signed_document
  trust_call-Behind r (read_call read_bundle replies) =
      Behind-refresh r (refresh_current genesis read_bundle verify (some r) replies) _
        (refresh_current-times genesis read_bundle verify r replies) (λ snapshot later. later)
  trust_call-Behind r (accept_call read_bundle replies bundle_digest verify_document none) =
      (omega arith, omega arith)
  trust_call-Behind r
        (accept_call read_bundle replies bundle_digest verify_document (some response)) =
      Behind-refresh r (refresh_current genesis read_bundle verify (some r) replies) _
        (refresh_current-times genesis read_bundle verify r replies)
        (λ snapshot later.
          accept_under-Behind r snapshot bundle_digest verify_document response later)

  -- Whatever the authority answers, a call of the verifier on a retained namespace leaves a state
  -- whose time revision and authority time are not earlier than before, and a call that succeeds
  -- leaves one of a strictly later revision.
  pub trust_call-times :
      (r : TrustState) (call : TrustCall)
      → (s : TrustState) × ((trust_call genesis verify (some r) call).0 ≡ some s)
        × (r.state_time_revision ≤ s.state_time_revision)
        × (r.state_authority_time ≤ s.state_authority_time)
        × ((trust_call genesis verify (some r) call).1 ≡ ok tt
            → r.state_time_revision < s.state_time_revision)
  trust_call-times r call =
      Behind-facts r (trust_call genesis verify (some r) call) (trust_call-Behind r call)

  -- Over any sequence of calls, failing ones included, each with its own answers of the authority, the retained time revision and the retained
  -- authority time never go back.
  pub trust_calls-times :
      (r : TrustState) (calls : List TrustCall)
      → (s : TrustState) × (trust_calls genesis verify (some r) calls ≡ some s)
        × (r.state_time_revision ≤ s.state_time_revision)
        × (r.state_authority_time ≤ s.state_authority_time)
  unfolding trust_calls
  trust_calls-times r [] = (r, refl, omega arith, omega arith)
  trust_calls-times r (call ∷ calls) =
      let (next, e, revision, time, strict) = trust_call-times r call in
      let (s, e2, revision2, time2) = trust_calls-times next calls in
      (s, ap (λ o. trust_calls genesis verify o calls) e ∙ e2, omega arith, omega arith)
