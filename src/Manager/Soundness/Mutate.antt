-- ===== src/Manager/Soundness/Mutate.antt =====
-- `mutate` of src/manager/lifecycle.ts keeps every instance sound, on every branch.
use dsh_runtime_kit.Base.{
  ◌≡◌, inl, inr, Bool, true, ◌||◌, none, some, Table, insert, arith, Option-cases,
}
use dsh_runtime_kit.Manager.Value.{Value}
use dsh_runtime_kit.Manager.States.{Operation}
use dsh_runtime_kit.Manager.Receipts.{Receipt, lifecycle}
use dsh_runtime_kit.Manager.Requests.{Request}
use dsh_runtime_kit.Manager.Store.{Instance, Effect, Host, Store}
use dsh_runtime_kit.Manager.Chain.Extend.{NoCollision, NoCollision-Unclashed, link_facts}
use dsh_runtime_kit.Manager.Journals.{is_asserted}
use dsh_runtime_kit.Manager.Mutate.{run_effect, mutate}
use dsh_runtime_kit.Manager.Runs.{Run, committed, success_receipt, in_flight, namespace_of}
use dsh_runtime_kit.Manager.Mutate.Cases.{Admitted, Outcomes, run_of, guards_source, mutate-Tables}
use dsh_runtime_kit.Manager.Soundness.{
  InstanceSound, TablesSound, Sound, insert-TablesSound, receipts-grow,
}
use dsh_runtime_kit.Manager.Soundness.Launch.{in_flight-Sound, restored-Sound}
use dsh_runtime_kit.Manager.Soundness.Commit.{
  keeps_session, Committing, committed-Sound, receipt_linked,
}

-- What the manager relies on of the handlers it is given: one that interrupts, drains or stops an
-- instance names no session but the instance's.
abbrev pub HandlersKeepSession : Host → Type 0
HandlersKeepSession h =
    (op : Operation) (handler : Request → Instance → Effect) (r : Request) (i : Instance)
    → h.effects op ≡ some handler
    → keeps_session op (handler r i) i ≡ true

run_effect_keeps :
    (h : Host)
    → HandlersKeepSession h
    → (run : Run) → keeps_session run.operation (run_effect h run) run.instance ≡ true
unfolding run_effect
run_effect_keeps h handlers run = elim (Option-cases (h.effects run.operation)) [
  | inl missing ↦ rw (missing, run_effect) (no_session (is_asserted run.operation) _)
  | inr (handler, found) ↦ rw (found, run_effect) (handler_keeps handler found)
]
  where
    no_session : (a b : Bool) → (a || true || b) ≡ true
    no_session a b = ground arith

    handler_keeps :
        (handler : Request → Instance → Effect)
        → h.effects run.operation ≡ some handler
        → keeps_session run.operation
            (handler run.request (in_flight run.operation run.instance))
            run.instance
          ≡ true
    handler_keeps handler found =
        unfold in_flight in
        handlers run.operation handler run.request (in_flight run.operation run.instance) found

module _ (h : Host) (handlers : HandlersKeepSession h) where
  commit-Sound :
      (run : Run) (instances : Table Instance) (receipts : Table Receipt)
      → Committing h run (run_effect h run)
      → InstanceSound h.sha receipts run.instance
      → TablesSound h.sha instances receipts
      → let receipt = success_receipt h run (run_effect h run) in
        NoCollision h.sha receipts (insert receipt.digest (lifecycle receipt) receipts)
        → TablesSound h.sha
            (insert (namespace_of run) (committed run (run_effect h run) receipt) instances)
            (insert receipt.digest (lifecycle receipt) receipts)
  commit-Sound run instances receipts c one sound kept =
      let effect = run_effect h run in
      let receipt = success_receipt h run effect in
      let linked = receipt_linked h run effect c in
      let (made, _) =
        link_facts h.sha run.instance.identity receipt.digest none (lifecycle receipt) linked in
      let unclashed =
        NoCollision-Unclashed h.sha receipts receipt.digest (lifecycle receipt) kept made in
      insert-TablesSound h.sha instances (insert receipt.digest (lifecycle receipt) receipts)
        (namespace_of run) (committed run effect receipt)
        (receipts-grow h.sha instances receipts receipt.digest (lifecycle receipt) unclashed sound)
        (committed-Sound h run effect receipts c unclashed one)

  Outcomes-Sound :
      (op : Operation) (r : Request) (i : Instance) (s : Store)
      → Sound h.sha s
      → Admitted h op r i s
      → Outcomes h
          (λ instances receipts.
            NoCollision h.sha s.receipts receipts → TablesSound h.sha instances receipts)
          (run_of op r i)
          s.instances
          s.receipts
  Outcomes-Sound op r i s sound a =
      let ns = r.identity.namespace in
      let one = sound ns i a.found in
      let source = guards_source h op r i s a.guarded in
      let flying =
        insert-TablesSound h.sha s.instances s.receipts ns (in_flight op i) sound
          (in_flight-Sound h.sha s.receipts op i source one) in
      record {
        unchanged = λ kept. sound;
        unknown = λ kept. flying;
        failed = λ kept.
            insert-TablesSound h.sha (insert ns (in_flight op i) s.instances) s.receipts ns _ flying
              (restored-Sound h.sha s.receipts op i source one);
        done = λ j degraded settled valid.
            commit-Sound (record (run_of op r i) { journal = j; degraded_health = degraded }) _ _
              (record {
                source = source;
                owned = a.owned;
                settled = settled;
                keeps = run_effect_keeps h handlers _;
                valid = valid;
              })
              one flying;
      }

  -- `mutate` keeps the store sound: whatever the request, the replay, the evidence of the trust
  -- verifier and the answer of the effect handler, behind the call every instance heads a valid
  -- receipt chain whose newest receipt fits its state, its session and its digests. Conditions: the
  -- store was sound, no handler of interrupt, drain or stop names a session other than the instance's,
  -- and the call has not overwritten a stored receipt by another one of the same SHA-256 digest.
  pub mutate-Sound :
      (op : Operation) (value : Value) (s : Store)
      → Sound h.sha s
      → NoCollision h.sha s.receipts (mutate h op value s).1.receipts
      → Sound h.sha (mutate h op value s).1
  mutate-Sound op value s sound =
      mutate-Tables h
        (λ instances receipts.
          NoCollision h.sha s.receipts receipts → TablesSound h.sha instances receipts)
        op value s (λ kept. sound) (λ r i a. Outcomes-Sound op r i s sound a)
