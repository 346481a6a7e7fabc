-- ===== src/Manager/Soundness/Reports.antt =====
-- What `status` of src/manager/lifecycle.ts reports behind a success of `mutate`.
use dsh_runtime_kit.Base.{
  ◌≡◌, refl, subst, inl, inr, String, true, if◌then◌else◌, str_eq, eq_refl, Option, none, some,
  lookup, lookup-insert, Bool-cases, Option-cases, Check-cases,
}
use dsh_runtime_kit.Manager.Value.{Fields, canonical_identity}
use dsh_runtime_kit.Manager.States.{Operation, State, start, resume, same_operation}
use dsh_runtime_kit.Manager.Codes.{Command}
use dsh_runtime_kit.Manager.Failures.{FailureDoc, Details, validate_failure, failure_doc}
use dsh_runtime_kit.Manager.Receipts.{LifecycleReceipt, validate_lifecycle_receipt}
use dsh_runtime_kit.Manager.Requests.{Request}
use dsh_runtime_kit.Manager.Store.{
  Instance, SuccessDoc, Effect, Host, Store, Journal, Reply, reply, thrown, succeeded, failed,
}
use dsh_runtime_kit.Manager.Journals.{failure, settle_failed, settle_indeterminate, is_asserted}
use dsh_runtime_kit.Manager.Replays.{accept_assertion, blocked_probe, validate_success}
use dsh_runtime_kit.Manager.Runs.{
  Run, committed, success_receipt, success_doc, session_settled, namespace_of,
}
use dsh_runtime_kit.Manager.Mutate.{
  commit, leave_unknown, settle, run_effect, launch, perform, check_health, authorize, guards,
  begin, admit,
}
use dsh_runtime_kit.Manager.Mutate.Cases.{Status-cases, Accepted-cases}

-- An instance as a success document tells it.
pub record Told (r : Request) (doc : SuccessDoc) (i : Instance) : Type 0 where
  pub stands : i.state ≡ doc.observed_state
  pub heads : i.receipt_head ≡ some doc.receipt.digest
  pub named :
      (if is_asserted doc.operation then i.session_identity else none) ≡ doc.session_identity
  pub owned : str_eq (canonical_identity i.identity) (canonical_identity r.identity) ≡ true

-- If the call succeeded, the store holds an instance as the document tells it.
abbrev pub Tells : Request → Reply × Store → Type 0
Tells r answer =
    (doc : SuccessDoc)
    → answer.0 ≡ reply (succeeded doc)
    → (i : Instance) × (lookup r.identity.namespace answer.1.instances ≡ some i) × Told r doc i

-- A reply that is no success.
abbrev Fails : Reply → Type 0
Fails answer = (doc : SuccessDoc) → answer ≡ reply (succeeded doc) → ⊥

thrown-Fails : Fails thrown
thrown-Fails doc e = cc

failed-Fails : (d : FailureDoc) → Fails (reply (failed d))
failed-Fails d doc e = cc

failure-Fails :
    (command : Command) (source : Fields) (code : String) (state : Option State) (details : Details)
    (digest : Option String)
    → Fails (failure command source code state details digest)
unfolding failure
failure-Fails command source code state details digest =
    elim (Bool-cases (validate_failure (failure_doc command source code state details digest))) [
      | inl valid ↦
          rw (valid, failure) (failed-Fails (failure_doc command source code state details digest))
      | inr invalid ↦ rw (invalid, failure) thrown-Fails
    ]

settle_failed-Fails :
    (key : String) (j : Journal) (answer : Reply) (s : Store)
    → Fails answer
    → Fails (settle_failed key j answer s).0
unfolding settle_failed
settle_failed-Fails key j thrown s fails = fails
settle_failed-Fails key j (reply p) s fails = fails

leave_unknown-Fails : (h : Host) (run : Run) (s : Store) → Fails (leave_unknown h run s).0
unfolding leave_unknown settle_indeterminate
leave_unknown-Fails h run s doc e = cc

refused-Tells : (r : Request) (answer : Reply) (s : Store) → Fails answer → Tells r (answer, s)
refused-Tells r answer s fails doc e = absurd (fails doc e)

failed-Tells :
    (r : Request) (key : String) (j : Journal) (answer : Reply) (s : Store)
    → Fails answer
    → Tells r (settle_failed key j answer s)
failed-Tells r key j answer s fails doc e = absurd (settle_failed-Fails key j answer s fails doc e)

unknown-Tells : (h : Host) (r : Request) (run : Run) (s : Store) → Tells r (leave_unknown h run s)
unknown-Tells h r run s doc e = absurd (leave_unknown-Fails h run s doc e)

doc_inj : {a b : SuccessDoc} → reply (succeeded a) ≡ reply (succeeded b) → a ≡ b
doc_inj e = cc

session_told :
    (op : Operation) (given kept : Option String)
    → (if is_asserted op then (if same_operation op start then given else kept) else none)
      ≡ (if same_operation op start then given else if same_operation op resume then kept else none)
session_told start given kept = refl
session_told resume given kept = refl
session_told _ given kept = refl

-- The instance in the run is the one that the request names.
abbrev Owns : Run → Type 0
Owns run =
    str_eq (canonical_identity run.instance.identity) (canonical_identity run.request.identity)
    ≡ true

module _ (h : Host) where
  commit-Tells :
      (run : Run) (effect : Effect) (receipt : LifecycleReceipt) (s : Store)
      → Owns run
      → Tells run.request (commit h run effect receipt s)
  unfolding commit
  commit-Tells run effect receipt s owns doc e = (
    committed run effect receipt,
    rw
        (
          lookup-insert (namespace_of run) (namespace_of run) (committed run effect receipt)
              s.instances,
          eq_refl (namespace_of run),
        )
        refl,
    subst (λ d. Told run.request d (committed run effect receipt)) (doc_inj e)
        (told run effect receipt owns),
  )
    where
      told :
          (run : Run) (effect : Effect) (receipt : LifecycleReceipt)
          → Owns run
          → Told run.request (success_doc run effect receipt) (committed run effect receipt)
      told run effect receipt owns =
          unfold committed success_doc in
          record {
            stands = refl;
            heads = refl;
            named =
                session_told run.operation effect.session_identity run.instance.session_identity;
            owned = owns;
          }

  settle-Tells :
      (run : Run) (s : Store) → Owns run → Tells run.request (settle h run (run_effect h run) s)
  unfolding settle
  settle-Tells run s owns =
      let effect = run_effect h run in
      let receipt = success_receipt h run effect in
      elim (Status-cases effect.status) [
        | inl (code, e) ↦
            rw (e, settle)
              (failed-Tells run.request run.key run.journal _ _ (failure-Fails _ _ _ _ _ _))
        | inr (inl e) ↦ rw (e, settle) (unknown-Tells h run.request run s)
        | inr (inr e) ↦ elim (Bool-cases (session_settled run.operation effect run.instance)) [
          | inr loose ↦ rw (e, loose, settle) (unknown-Tells h run.request run s)
          | inl settled ↦ elim (Bool-cases (validate_lifecycle_receipt h.sha receipt)) [
            | inr invalid ↦ rw (e, settled, invalid, settle) (unknown-Tells h run.request run s)
            | inl valid ↦ elim (Bool-cases (validate_success h (success_doc run effect receipt))) [
              | inr invalid ↦
                  rw (e, settled, valid, invalid, settle) (unknown-Tells h run.request run s)
              | inl documented ↦
                  rw (e, settled, valid, documented, settle)
                    (commit-Tells run effect receipt s owns)
            ]
          ]
        ]
      ]

  check_health-Tells : (run : Run) (s : Store) → Owns run → Tells run.request (check_health h run s)
  unfolding check_health perform
  check_health-Tells run s owns = elim (Bool-cases (same_operation run.operation start)) [
    | inr other ↦ rw (other, check_health) (settle-Tells run (launch h run s) owns)
    | inl starts ↦
        elim (Option-cases (blocked_probe h (namespace_of run) run.instance.health_required)) [
          | inl ready ↦ rw (starts, ready, check_health) (settle-Tells _ _ owns)
          | inr (blocked, found) ↦
              rw (starts, found, check_health)
                (failed-Tells run.request run.key run.journal _ s (failure-Fails _ _ _ _ _ _))
        ]
  ]

  authorize-Tells : (run : Run) (s : Store) → Owns run → Tells run.request (authorize h run s)
  unfolding authorize perform
  authorize-Tells run s owns = elim (Bool-cases (is_asserted run.operation)) [
    | inr other ↦ rw (other, authorize) (settle-Tells run (launch h run s) owns)
    | inl asserted ↦
        elim (Accepted-cases (
          accept_assertion h run.request run.instance.admission_seal_digest run.operation
            run.journal.revision)) [
              | inl (d, e) ↦ rw (asserted, e, authorize) (check_health-Tells _ _ owns)
              | inr (error, e) ↦
                  rw (asserted, e, authorize)
                    (failed-Tells run.request run.key run.journal _ s (failure-Fails _ _ _ _ _ _))
            ]
  ]

  -- The answer to a new request.
  pub admit-Tells : (op : Operation) (r : Request) (s : Store) → Tells r (admit h op r s)
  unfolding admit begin
  admit-Tells op r s = elim (Option-cases (lookup r.identity.namespace s.instances)) [
    | inl missing ↦ rw (missing, admit) (refused-Tells r _ s (failure-Fails _ _ _ _ _ _))
    | inr (i, found) ↦
        elim (Bool-cases (str_eq (canonical_identity i.identity) (canonical_identity r.identity))) [
          | inr foreign ↦
              rw (found, foreign, admit) (refused-Tells r _ s (failure-Fails _ _ _ _ _ _))
          | inl owned ↦ elim (Check-cases (guards h op r i s)) [
            | inr (code, refused) ↦
                rw (found, owned, refused, admit) (refused-Tells r _ s (failure-Fails _ _ _ _ _ _))
            | inl (u, passed) ↦ rw (found, owned, passed, admit) (authorize-Tells _ _ owned)
          ]
        ]
  ]
