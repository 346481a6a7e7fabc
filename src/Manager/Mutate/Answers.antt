-- ===== src/Manager/Mutate/Answers.antt =====
-- The journal of src/manager/lifecycle.ts holds what `mutate` answered.
use dsh_runtime_kit.Base.{
  ◌≡◌, refl, ap, ◌⊎◌, inl, inr, String, true, str_eq, eq_refl, none, some, lookup, insert,
  lookup-insert, Bool-cases, Option-cases,
}
use dsh_runtime_kit.Manager.States.{Operation, start, same_operation}
use dsh_runtime_kit.Manager.Receipts.{validate_lifecycle_receipt}
use dsh_runtime_kit.Manager.Requests.{Request}
use dsh_runtime_kit.Manager.Store.{
  Instance, Host, Store, Journal, JournalStatus, Payload, Reply, reply, thrown,
}
use dsh_runtime_kit.Manager.Journals.{
  journal_identity, settle_failed, settle_indeterminate, replay_or_conflict, is_asserted,
}
use dsh_runtime_kit.Manager.Replays.{accept_assertion, blocked_probe, validate_success}
use dsh_runtime_kit.Manager.Mutate.{
  commit, leave_unknown, settle, run_effect, launch, perform, check_health, authorize, begin,
}
use dsh_runtime_kit.Manager.Runs.{Run, success_receipt, success_doc, session_settled, namespace_of}
use dsh_runtime_kit.Manager.Mutate.Cases.{Status-cases, Accepted-cases}

-- The journal holds the answer to a request.
pub record Answered (r : Request) (p : Payload) (s : Store) : Type 0 where
  pub journal : Journal
  pub stored : lookup (journal_identity r) s.journals ≡ some journal
  pub same : str_eq journal.request_digest r.request_digest ≡ true
  pub kept :
      (journal.result ≡ some p) ⊎ ((journal.result ≡ none) × (journal.indeterminate ≡ some p))

-- If the call answered, the journal holds the answer.
abbrev pub Keeps : Request → Reply × Store → Type 0
Keeps r answer = (p : Payload) → answer.0 ≡ reply p → Answered r p answer.1

pub Answered-replay :
    (op : Operation) (r : Request) (p : Payload) (s : Store)
    → Answered r p s
    → replay_or_conflict op r s ≡ some (reply p)
unfolding replay_or_conflict
Answered-replay op r p s a = elim a.kept [
  | inl result ↦ rw (a.stored, a.same, result, replay_or_conflict) refl
  | inr (open_result, unknown) ↦
      rw (a.stored, a.same, open_result, unknown, replay_or_conflict) refl
]

reply_inj : {p q : Payload} → reply p ≡ reply q → p ≡ q
reply_inj e = cc

-- A run of a request under the request's own journal.
pub record Journaled (r : Request) (run : Run) : Type 0 where
  pub keyed : run.key ≡ journal_identity r
  pub digested : run.journal.request_digest ≡ r.request_digest
  pub open_result : run.journal.result ≡ none

put :
    (r : Request) (key : String) (j : Journal) (p : Payload) (s : Store)
    → key ≡ journal_identity r
    → j.request_digest ≡ r.request_digest
    → (j.result ≡ some p) ⊎ ((j.result ≡ none) × (j.indeterminate ≡ some p))
    → Answered r p (record s { journals = insert key j s.journals })
put r key j p s keyed digested kept = record {
  journal = j;
  stored =
      rw
        (
          keyed,
          lookup-insert (journal_identity r) (journal_identity r) j s.journals,
          eq_refl (journal_identity r),
        )
        refl;
  same = rw (digested, eq_refl r.request_digest) refl;
  kept = kept;
}

pub settle_failed-Keeps :
    (r : Request) (key : String) (j : Journal) (answer : Reply) (s : Store)
    → key ≡ journal_identity r
    → j.request_digest ≡ r.request_digest
    → Keeps r (settle_failed key j answer s)
unfolding settle_failed
settle_failed-Keeps r key j thrown s keyed digested p e = cc
settle_failed-Keeps r key j (reply q) s keyed digested p e =
    put r key (record j { status = JournalStatus.failed; result = some q }) p s keyed digested
      (inl (ap some (reply_inj e)))

module _ (h : Host) (r : Request) where
  leave_unknown-Keeps : (run : Run) (s : Store) → Journaled r run → Keeps r (leave_unknown h run s)
  unfolding leave_unknown settle_indeterminate
  leave_unknown-Keeps run s n p e =
      put r run.key _ p s n.keyed n.digested (inr (n.open_result, ap some (reply_inj e)))

  settle-Keeps :
      (run : Run) (s : Store) → Journaled r run → Keeps r (settle h run (run_effect h run) s)
  unfolding settle commit
  settle-Keeps run s n =
      let effect = run_effect h run in
      let receipt = success_receipt h run effect in
      elim (Status-cases effect.status) [
        | inl (code, e) ↦
            rw (e, settle) (settle_failed-Keeps r run.key run.journal _ _ n.keyed n.digested)
        | inr (inl e) ↦ rw (e, settle) (leave_unknown-Keeps run s n)
        | inr (inr e) ↦ elim (Bool-cases (session_settled run.operation effect run.instance)) [
          | inr loose ↦ rw (e, loose, settle) (leave_unknown-Keeps run s n)
          | inl settled ↦ elim (Bool-cases (validate_lifecycle_receipt h.sha receipt)) [
            | inr invalid ↦ rw (e, settled, invalid, settle) (leave_unknown-Keeps run s n)
            | inl valid ↦ elim (Bool-cases (validate_success h (success_doc run effect receipt))) [
              | inr invalid ↦ rw (e, settled, valid, invalid, settle) (leave_unknown-Keeps run s n)
              | inl documented ↦
                  rw (e, settled, valid, documented, settle)
                    (λ p same.
                      put r run.key _ p (record s { instances = _; receipts = _ }) n.keyed
                        n.digested (inl (ap some (reply_inj same))))
            ]
          ]
        ]
      ]

  check_health-Keeps : (run : Run) (s : Store) → Journaled r run → Keeps r (check_health h run s)
  unfolding check_health perform
  check_health-Keeps run s n = elim (Bool-cases (same_operation run.operation start)) [
    | inr other ↦ rw (other, check_health) (settle-Keeps run (launch h run s) n)
    | inl starts ↦
        elim (Option-cases (blocked_probe h (namespace_of run) run.instance.health_required)) [
          | inl ready ↦
              rw (starts, ready, check_health)
                (settle-Keeps _ _
                  (record { keyed = n.keyed; digested = n.digested; open_result = n.open_result }))
          | inr (blocked, found) ↦
              rw (starts, found, check_health)
                (settle_failed-Keeps r run.key run.journal _ s n.keyed n.digested)
        ]
  ]

  authorize-Keeps : (run : Run) (s : Store) → Journaled r run → Keeps r (authorize h run s)
  unfolding authorize perform
  authorize-Keeps run s n = elim (Bool-cases (is_asserted run.operation)) [
    | inr other ↦ rw (other, authorize) (settle-Keeps run (launch h run s) n)
    | inl asserted ↦
        elim (Accepted-cases (
          accept_assertion h run.request run.instance.admission_seal_digest run.operation
            run.journal.revision)) [
              | inl (d, e) ↦
                  rw (asserted, e, authorize)
                    (check_health-Keeps _ _ (record {
                      keyed = n.keyed;
                      digested = n.digested;
                      open_result = n.open_result;
                    }))
              | inr (error, e) ↦
                  rw (asserted, e, authorize)
                    (settle_failed-Keeps r run.key run.journal _ s n.keyed n.digested)
            ]
  ]

  -- Once the guards have passed, an answer is in the journal.
  pub begin-Keeps : (op : Operation) (i : Instance) (s : Store) → Keeps r (begin h op r i s)
  unfolding begin
  begin-Keeps op i s =
      authorize-Keeps _ _ (record { keyed = refl; digested = refl; open_result = refl })
