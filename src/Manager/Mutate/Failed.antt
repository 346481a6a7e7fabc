-- ===== src/Manager/Mutate/Failed.antt =====
-- What a failure of `mutate` of src/manager/lifecycle.ts leaves.
use dsh_runtime_kit.Base.{
  ◌≡◌, refl, inl, inr, str_eq, lookup, Bool-cases, Option-cases, Check-cases,
}
use dsh_runtime_kit.Manager.Value.{Value, canonical_identity}
use dsh_runtime_kit.Manager.States.{Operation, start, same_operation}
use dsh_runtime_kit.Manager.Receipts.{validate_lifecycle_receipt}
use dsh_runtime_kit.Manager.Failures.{FailureDoc}
use dsh_runtime_kit.Manager.Requests.{Request, validate_mutation}
use dsh_runtime_kit.Manager.Store.{Host, Store, Reply, reply, failed, succeeded, SuccessDoc}
use dsh_runtime_kit.Manager.Journals.{is_asserted, replay_or_conflict}
use dsh_runtime_kit.Manager.Replays.{
  accept_assertion, authorize_terminal_replay, blocked_probe, validate_success,
}
use dsh_runtime_kit.Manager.Runs.{Run, success_receipt, success_doc, session_settled, namespace_of}
use dsh_runtime_kit.Manager.Mutate.{
  commit, settle, run_effect, launch, perform, check_health, authorize, guards, begin, admit,
  mutate_request, mutate,
}
use dsh_runtime_kit.Manager.Mutate.Cases.{Status-cases, Accepted-cases, replay_same_tables}
use dsh_runtime_kit.Manager.Mutate.Harmless.{
  Unharmed, Spares, same_tables-Unharmed, settle_failed-Spares, leave_unknown-Spares, Stands,
  Harmless-same, restored-Harmless,
}

module _ (h : Host) where
  settle-Spares :
      (run : Run) (before s : Store)
      → s.instances ≡ before.instances
      → s.receipts ≡ before.receipts
      → Stands run s
      → Spares before (settle h run (run_effect h run) (launch h run s))
  unfolding settle launch commit
  settle-Spares run before s instances receipts stands =
      let effect = run_effect h run in
      let receipt = success_receipt h run effect in
      let flying = launch h run s in
      elim (Status-cases effect.status) [
        | inl (code, e) ↦
            rw (e, settle)
              (settle_failed-Spares run.key run.journal _ before _
                (receipts, Harmless-same _ _ _ instances (restored-Harmless run s stands)))
        | inr (inl e) ↦ rw (e, settle) (leave_unknown-Spares h run before flying)
        | inr (inr e) ↦ elim (Bool-cases (session_settled run.operation effect run.instance)) [
          | inr loose ↦ rw (e, loose, settle) (leave_unknown-Spares h run before flying)
          | inl settled ↦ elim (Bool-cases (validate_lifecycle_receipt h.sha receipt)) [
            | inr invalid ↦
                rw (e, settled, invalid, settle) (leave_unknown-Spares h run before flying)
            | inl valid ↦ elim (Bool-cases (validate_success h (success_doc run effect receipt))) [
              | inr invalid ↦
                  rw (e, settled, valid, invalid, settle) (leave_unknown-Spares h run before flying)
              | inl documented ↦
                  rw (e, settled, valid, documented, settle) (λ doc same. absurd (clash doc same))
            ]
          ]
        ]
      ]
    where
      clash : {p : SuccessDoc} (doc : FailureDoc) → reply (succeeded p) ≡ reply (failed doc) → ⊥
      clash doc e = cc

  check_health-Spares :
      (run : Run) (before s : Store)
      → s.instances ≡ before.instances
      → s.receipts ≡ before.receipts
      → Stands run s
      → Spares before (check_health h run s)
  unfolding check_health perform
  check_health-Spares run before s instances receipts stands =
      elim (Bool-cases (same_operation run.operation start)) [
        | inr other ↦
            rw (other, check_health) (settle-Spares run before s instances receipts stands)
        | inl starts ↦
            elim (Option-cases (blocked_probe h (namespace_of run) run.instance.health_required)) [
              | inl ready ↦
                  rw (starts, ready, check_health)
                    (settle-Spares _ before s instances receipts stands)
              | inr (blocked, found) ↦
                  rw (starts, found, check_health)
                    (settle_failed-Spares run.key run.journal _ before s
                      (same_tables-Unharmed before s instances receipts))
            ]
      ]

  authorize-Spares :
      (run : Run) (before s : Store)
      → s.instances ≡ before.instances
      → s.receipts ≡ before.receipts
      → Stands run s
      → Spares before (authorize h run s)
  unfolding authorize perform
  authorize-Spares run before s instances receipts stands =
      elim (Bool-cases (is_asserted run.operation)) [
        | inr other ↦ rw (other, authorize) (settle-Spares run before s instances receipts stands)
        | inl asserted ↦
            elim (Accepted-cases (
              accept_assertion h run.request run.instance.admission_seal_digest run.operation
                run.journal.revision)) [
                  | inl (d, e) ↦
                      rw (asserted, e, authorize)
                        (check_health-Spares _ before _ instances receipts stands)
                  | inr (error, e) ↦
                      rw (asserted, e, authorize)
                        (settle_failed-Spares run.key run.journal _ before s
                          (same_tables-Unharmed before s instances receipts))
                ]
      ]

  refused-Spares : (s : Store) (answer : Reply) → Spares s (answer, s)
  refused-Spares s answer doc e = same_tables-Unharmed s s refl refl

  admit-Spares : (op : Operation) (r : Request) (s : Store) → Spares s (admit h op r s)
  unfolding admit begin
  admit-Spares op r s = elim (Option-cases (lookup r.identity.namespace s.instances)) [
    | inl missing ↦ rw (missing, admit) (refused-Spares s _)
    | inr (i, found) ↦
        elim (Bool-cases (str_eq (canonical_identity i.identity) (canonical_identity r.identity))) [
          | inr foreign ↦ rw (found, foreign, admit) (refused-Spares s _)
          | inl owned ↦ elim (Check-cases (guards h op r i s)) [
            | inr (code, refused) ↦ rw (found, owned, refused, admit) (refused-Spares s _)
            | inl (u, passed) ↦
                rw (found, owned, passed, admit) (authorize-Spares _ s _ refl refl found)
          ]
        ]
  ]

  request-Spares : (op : Operation) (r : Request) (s : Store) → Spares s (mutate_request h op r s)
  unfolding mutate_request
  request-Spares op r s = elim (Option-cases (replay_or_conflict op r s)) [
    | inl new ↦ rw (new, mutate_request) (admit-Spares op r s)
    | inr (replay, old) ↦
        rw (old, mutate_request)
          (λ doc e.
            let (instances, receipts) = replay_same_tables h op r replay s in
            same_tables-Unharmed s (authorize_terminal_replay h op r replay s).1 instances receipts)
  ]

  -- A start, resume, interrupt, drain or stop that answers with a failure has harmed nothing: the
  -- receipts are the same, and each instance is as it was, but that it may no longer wait for a
  -- receipt. So it is for a request that is refused, for a replay, for an assertion or a health probe
  -- that fails, and for an effect that fails while its instance is in the transient state.
  pub mutate-failed :
      (op : Operation) (value : Value) (s : Store) (doc : FailureDoc)
      → (mutate h op value s).0 ≡ reply (failed doc)
      → Unharmed s (mutate h op value s).1
  unfolding mutate
  mutate-failed op value s = elim (Check-cases (validate_mutation h.documents op value)) [
    | inr (code, bad) ↦ rw (bad, mutate) (refused-Spares s _)
    | inl (r, good) ↦ rw (good, mutate) (request-Spares op r s)
  ]
