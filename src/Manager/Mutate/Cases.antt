-- ===== src/Manager/Mutate/Cases.antt =====
-- The outcomes of `mutate` of src/manager/lifecycle.ts on the instances and the receipts: a rule by
-- which a property of the two tables is proved of every branch.
use dsh_runtime_kit.Base.{
  ◌≡◌, refl, ◌⊎◌, inl, inr, String, true, List, str_eq, Option, none, some, Table, lookup, insert,
  arith, Bool-cases, Option-cases, and-eq-true, Check-cases, ok, test_of_require,
}
use dsh_runtime_kit.Manager.Value.{Value, canonical_identity}
use dsh_runtime_kit.Manager.States.{
  Operation, start, same_operation, includes, lifecycle_transition,
}
use dsh_runtime_kit.Manager.Receipts.{Receipt, lifecycle, validate_lifecycle_receipt}
use dsh_runtime_kit.Manager.Requests.{Request, validate_mutation}
use dsh_runtime_kit.Manager.Store.{
  Instance, EffectStatus, Host, Store, Journal, Reply, reply, thrown, Accepted, accepted, rejected,
}
use dsh_runtime_kit.Manager.Journals.{
  settle_failed, settle_indeterminate, is_asserted, replay_or_conflict, journal_identity,
}
use dsh_runtime_kit.Manager.Replays.{
  validate_success, accept_assertion, blocked_probe, authorize_terminal_replay, replay_terminal,
}
use dsh_runtime_kit.Manager.Mutate.{
  commit, leave_unknown, settle, run_effect, launch, perform, check_health, authorize, guards,
  begin, admit, mutate_request, mutate,
}
use dsh_runtime_kit.Manager.Runs.{
  Run, committed, success_receipt, success_doc, session_settled, in_flight, namespace_of,
  new_journal,
}
use dsh_runtime_kit.Manager.Receipts.{Receipt}

pub Status-cases :
    (e : EffectStatus)
    → ((code : Option String) × (e ≡ EffectStatus.failed code))
      ⊎ ((e ≡ EffectStatus.unknown) ⊎ (e ≡ EffectStatus.succeeded))
Status-cases EffectStatus.succeeded = inr (inr refl)
Status-cases (EffectStatus.failed code) = inl (code, refl)
Status-cases EffectStatus.unknown = inr (inl refl)

pub Accepted-cases :
    (a : Accepted) → ((d : String) × (a ≡ accepted d)) ⊎ ((e : _) × (a ≡ rejected e))
Accepted-cases (accepted d) = inl (d, refl)
Accepted-cases (rejected e) = inr (e, refl)

pub guards_source :
    (h : Host) (op : Operation) (r : Request) (i : Instance) (s : Store)
    → guards h op r i s ≡ ok tt
    → includes (lifecycle_transition op).sources i.state ≡ true
unfolding guards
guards_source h op r i s e = (and-eq-true _ _ (test_of_require _ _ _ e)).0

-- A lookup of the request's namespace, and the guards, have let the instance in.
pub record Admitted (h : Host) (op : Operation) (r : Request) (i : Instance) (s : Store)
    : Type 0 where
  pub found : lookup r.identity.namespace s.instances ≡ some i
  pub owned : str_eq (canonical_identity i.identity) (canonical_identity r.identity) ≡ true
  pub guarded : guards h op r i s ≡ ok tt

-- An authorized replay writes to the journals alone.
pub replay_same_tables :
    (h : Host) (op : Operation) (r : Request) (replay : Reply) (s : Store)
    → ((authorize_terminal_replay h op r replay s).1.instances ≡ s.instances)
      × ((authorize_terminal_replay h op r replay s).1.receipts ≡ s.receipts)
unfolding authorize_terminal_replay replay_terminal
replay_same_tables h op r thrown s = (refl, refl)
replay_same_tables h op r (reply p) s = ground arith

-- The run of an admitted request.
abbrev pub run_of : Operation → Request → Instance → Run
run_of op r i = record {
  operation = op;
  request = r;
  key = journal_identity r;
  journal = new_journal op r i.state;
  instance = i;
  degraded_health = none;
}

module _ (h : Host) (Q : Table Instance → Table Receipt → Type 0) where
  -- What has to be shown of a run for each way in which it may end.
  pub record Outcomes (run : Run) (instances : Table Instance) (receipts : Table Receipt)
      : Type 0 where
    pub unchanged : Q instances receipts
    pub unknown :
        Q (insert (namespace_of run) (in_flight run.operation run.instance) instances) receipts
    pub failed :
        Q
          (insert
            (namespace_of run)
            (record run.instance { pending_source_receipt_head = none })
            (insert (namespace_of run) (in_flight run.operation run.instance) instances))
          receipts
    pub done :
        (j : Journal) (degraded : Option (List String))
        → let run' = record run { journal = j; degraded_health = degraded } in
          let effect = run_effect h run' in
          let receipt = success_receipt h run' effect in
          session_settled run.operation effect run.instance ≡ true
          → validate_lifecycle_receipt h.sha receipt ≡ true
          → Q
              (insert
                (namespace_of run)
                (committed run' effect receipt)
                (insert (namespace_of run) (in_flight run.operation run.instance) instances))
              (insert receipt.digest (lifecycle receipt) receipts)

  abbrev Tables : Store → Type 0
  Tables s = Q s.instances s.receipts

  settle_failed-Tables :
      (key : String) (j : Journal) (r : Reply) (s : Store)
      → Tables s
      → Tables (settle_failed key j r s).1
  unfolding settle_failed
  settle_failed-Tables key j thrown s q = q
  settle_failed-Tables key j (reply p) s q = q

  leave_unknown-Tables : (run : Run) (s : Store) → Tables s → Tables (leave_unknown h run s).1
  unfolding leave_unknown settle_indeterminate
  leave_unknown-Tables run s q = q

  settle-Tables :
      (run : Run) (s : Store)
      → Outcomes run s.instances s.receipts
      → Tables (settle h run (run_effect h run) (launch h run s)).1
  unfolding settle launch commit
  settle-Tables run s o =
      let effect = run_effect h run in
      let receipt = success_receipt h run effect in
      elim (Status-cases effect.status) [
        | inl (code, e) ↦ rw (e, settle) (settle_failed-Tables run.key run.journal _ _ o.failed)
        | inr (inl e) ↦ rw (e, settle) (leave_unknown-Tables run (launch h run s) o.unknown)
        | inr (inr e) ↦ elim (Bool-cases (session_settled run.operation effect run.instance)) [
          | inr loose ↦ rw (e, loose, settle) (leave_unknown-Tables run (launch h run s) o.unknown)
          | inl settled ↦ elim (Bool-cases (validate_lifecycle_receipt h.sha receipt)) [
            | inr invalid ↦
                rw (e, settled, invalid, settle)
                  (leave_unknown-Tables run (launch h run s) o.unknown)
            | inl valid ↦ elim (Bool-cases (validate_success h (success_doc run effect receipt))) [
              | inr invalid ↦
                  rw (e, settled, valid, invalid, settle)
                    (leave_unknown-Tables run (launch h run s) o.unknown)
              | inl documented ↦
                  rw (e, settled, valid, documented, settle)
                    (o.done run.journal run.degraded_health settled valid)
            ]
          ]
        ]
      ]

  check_health-Tables :
      (run : Run) (s : Store)
      → Outcomes run s.instances s.receipts
      → Tables (check_health h run s).1
  unfolding check_health perform
  check_health-Tables run s o = elim (Bool-cases (same_operation run.operation start)) [
    | inr other ↦ rw (other, check_health) (settle-Tables run s o)
    | inl starts ↦
        elim (Option-cases (blocked_probe h (namespace_of run) run.instance.health_required)) [
          | inl ready ↦
              rw (starts, ready, check_health)
                (settle-Tables _ s (record {
                  unchanged = o.unchanged;
                  unknown = o.unknown;
                  failed = o.failed;
                  done = o.done;
                }))
          | inr (blocked, found) ↦
              rw (starts, found, check_health)
                (settle_failed-Tables run.key run.journal _ s o.unchanged)
        ]
  ]

  authorize-Tables :
      (run : Run) (s : Store) → Outcomes run s.instances s.receipts → Tables (authorize h run s).1
  unfolding authorize perform
  authorize-Tables run s o = elim (Bool-cases (is_asserted run.operation)) [
    | inr free_of ↦ rw (free_of, authorize) (settle-Tables run s o)
    | inl asserted ↦
        elim (Accepted-cases (
          accept_assertion h run.request run.instance.admission_seal_digest run.operation
            run.journal.revision)) [
              | inl (d, e) ↦
                  rw (asserted, e, authorize)
                    (check_health-Tables _ _ (record {
                      unchanged = o.unchanged;
                      unknown = o.unknown;
                      failed = o.failed;
                      done = o.done;
                    }))
              | inr (error, e) ↦
                  rw (asserted, e, authorize)
                    (settle_failed-Tables run.key run.journal _ s o.unchanged)
            ]
  ]

  admit-Tables :
      (op : Operation) (r : Request) (s : Store)
      → Tables s
      → ((i : Instance) → Admitted h op r i s → Outcomes (run_of op r i) s.instances s.receipts)
      → Tables (admit h op r s).1
  unfolding admit begin
  admit-Tables op r s q o = elim (Option-cases (lookup r.identity.namespace s.instances)) [
    | inl missing ↦ rw (missing, admit) q
    | inr (i, found) ↦
        elim (Bool-cases (str_eq (canonical_identity i.identity) (canonical_identity r.identity))) [
          | inr foreign ↦ rw (found, foreign, admit) q
          | inl owned ↦ elim (Check-cases (guards h op r i s)) [
            | inr (code, e) ↦ rw (found, owned, e, admit) q
            | inl (tt, e) ↦
                let out = o i (record { found = found; owned = owned; guarded = e }) in
                rw (found, owned, e, admit)
                  (authorize-Tables _ _ (record {
                    unchanged = out.unchanged;
                    unknown = out.unknown;
                    failed = out.failed;
                    done = out.done;
                  }))
          ]
        ]
  ]

  replay-Tables :
      (op : Operation) (r : Request) (replay : Reply) (s : Store)
      → Tables s
      → Tables (authorize_terminal_replay h op r replay s).1
  replay-Tables op r replay s q =
      let (instances, receipts) = replay_same_tables h op r replay s in rw (instances, receipts) q

  -- A property of the two tables holds behind `mutate` if it holds before, and if each way to end
  -- keeps it for every request and instance that the guards admit.
  pub mutate-Tables :
      (op : Operation) (value : Value) (s : Store)
      → Q s.instances s.receipts
      → ((r : Request) (i : Instance)
          → Admitted h op r i s
          → Outcomes (run_of op r i) s.instances s.receipts)
      → Q (mutate h op value s).1.instances (mutate h op value s).1.receipts
  unfolding mutate mutate_request
  mutate-Tables op value s q o = elim (Check-cases (validate_mutation h.documents op value)) [
    | inr (code, e) ↦ rw (e, mutate) q
    | inl (r, e) ↦ elim (Option-cases (replay_or_conflict op r s)) [
      | inl new ↦ rw (e, new, mutate, mutate_request) (admit-Tables op r s q (o r))
      | inr (replay, old) ↦ rw (e, old, mutate, mutate_request) (replay-Tables op r replay s q)
    ]
  ]
