-- ===== src/Manager/Witnesses.antt =====
-- The theorems at concrete inputs: an interrupt of a running instance, on a store with two receipts.
use dsh_runtime_kit.Base.{
  ◌≡◌, refl, String, true, [], ◌∷◌, Option, none, some, lookup, insert, lookup-insert, arith, ◌≢◌,
  sym, ◌∙◌, subst, str_eq, eq_iff, Bool-cases, inl, inr, Table, some_inj,
}
use dsh_runtime_kit.Manager.Value.{
  is_digest, same_identity, get?, is_identity, canonical_identity, identity, digest, text,
}
use dsh_runtime_kit.Manager.Secrets.{is_secret, is_utc}
use dsh_runtime_kit.Manager.States.{
  mutation_transition, lifecycle_transition, interrupt, interrupted,
}
use dsh_runtime_kit.Manager.Receipts.{
  has_lifecycle_fields, validate_lifecycle_receipt, Receipt, lifecycle, validate_runtime_receipt,
  compute_manager_document_digest,
}
use dsh_runtime_kit.Manager.Requests.{Request, validate_mutation}
use dsh_runtime_kit.Manager.Chain.{
  receipt_chain_valid, receipt_head_valid, chain_fuel, walk_chain, link_valid, head_fits,
}
use dsh_runtime_kit.Manager.Journals.{journal_identity, replay_or_conflict, build_receipt}
use dsh_runtime_kit.Manager.Replays.{authorize_terminal_replay, validate_success}
use dsh_runtime_kit.Manager.Mutate.{
  commit, settle, run_effect, launch, perform, check_health, authorize, guards, begin, admit,
  mutate_request, mutate,
}
use dsh_runtime_kit.Manager.Runs.{
  in_flight, committed, success_receipt, success_doc, session_settled,
}
use dsh_runtime_kit.Manager.Store.{
  Instance, SuccessDoc, succeeded, failed, reply, status_succeeded, create_memory_runtime_store,
}
use dsh_runtime_kit.Manager.Chain.Fuel.{receipt_chain_valid-total}
use dsh_runtime_kit.Manager.Chain.Extend.{
  Unclashed, NoCollision, insert-chain_valid, extend-chain_valid,
}
use dsh_runtime_kit.Manager.Mutate.Moves.{TableMoves, mutate-Moves}
use dsh_runtime_kit.Manager.Soundness.{Sound, insert-TablesSound}
use dsh_runtime_kit.Manager.Soundness.Launch.{same_option_refl}
use dsh_runtime_kit.Manager.Soundness.Commit.{keeps_session}
use dsh_runtime_kit.Manager.Soundness.Mutate.{HandlersKeepSession, mutate-Sound}
use dsh_runtime_kit.Manager.Lock.{
  lock_instance, lock_request, lock_admit, lock_accept, lock_commit, lock_receipt, locked_instance,
}
use dsh_runtime_kit.Manager.Query.{StatusRequest, find_instance, status_request}
use dsh_runtime_kit.Manager.Mutate.Replay.{mutate-idempotent}
use dsh_runtime_kit.Manager.Mutate.Harmless.{Unharmed}
use dsh_runtime_kit.Manager.Mutate.Failed.{mutate-failed}
use dsh_runtime_kit.Manager.Failures.{
  FailureDoc, failure_doc, no_details, validate_failure, safe_failure_request_id,
  safe_failure_identity,
}
use dsh_runtime_kit.Manager.Journals.{failure, settle_failed}
use dsh_runtime_kit.Manager.Codes.{
  Command, is_manager_failure_code, requires_trust_acceptance_failure_digest, is_retryable,
  is_authenticated,
}
use dsh_runtime_kit.Manager.Soundness.Lock.{lock_instance-Sound}
use dsh_runtime_kit.Manager.Soundness.Status.{Agrees, status_request-mutate}
use dsh_runtime_kit.Base.{ok}
use dsh_runtime_kit.Manager.States.{running, Operation, is_instance_state}
use dsh_runtime_kit.Manager.Results.{receipt_matches}
use dsh_runtime_kit.Manager.Runs.{new_journal}
use dsh_runtime_kit.Manager.Mutate.Cases.{run_of}
use dsh_runtime_kit.Manager.Mutate.Correlate.{success-matches}
use dsh_runtime_kit.Manager.States.{lock}
use dsh_runtime_kit.Manager.Store.{Store, Host, StatusDoc, EffectStatus}
use dsh_runtime_kit.Manager.Calls.{handle, mutation, status}
use dsh_runtime_kit.Manager.Soundness.Reached.{Reached, Reached-Sound, begun, mutated, asked_status}
use dsh_runtime_kit.Manager.Examples.{status_value}
use dsh_runtime_kit.Manager.Examples.{interrupt_request}
use dsh_runtime_kit.Manager.Examples.{
  interrupt_fields, lock_value, lock_receipt_one, digest_one, status_one, obedient, two_receipts,
  toy_sha, agent, start_receipt, interrupt_receipt, digest_two, digest_three, toy_host,
  interrupt_value, running_store, running_instance,
}

unfoldable computes : Unit {0}
unfolding lock_instance lock_request lock_admit lock_accept lock_commit lock_receipt locked_instance
    find_instance lookup insert is_digest is_identity canonical_identity identity digest text
    is_secret is_utc mutation_transition lifecycle_transition has_lifecycle_fields
    validate_lifecycle_receipt validate_runtime_receipt compute_manager_document_digest
    validate_mutation receipt_chain_valid receipt_head_valid chain_fuel walk_chain link_valid
    head_fits journal_identity replay_or_conflict build_receipt authorize_terminal_replay
    validate_success get? same_identity in_flight committed success_receipt success_doc
    session_settled commit settle run_effect launch perform check_health authorize guards begin
    admit mutate_request mutate
computes = tt

chain_test : receipt_chain_valid toy_sha two_receipts agent (some digest_two) ≡ some true
unfolding computes
chain_test = refl

head_test : receipt_head_valid toy_sha two_receipts running_instance ≡ true
unfolding computes
head_test = refl

fresh_test : lookup digest_three two_receipts ≡ none
unfolding lookup
fresh_test = refl

start_test : lookup digest_two two_receipts ≡ some (lifecycle start_receipt)
unfolding lookup
start_test = refl

link_test : link_valid toy_sha agent digest_three none (lifecycle interrupt_receipt) ≡ true
unfolding computes
link_test = refl

unclashed : Unclashed toy_sha two_receipts digest_three (lifecycle interrupt_receipt)
unclashed old found _ = absurd (clash (sym fresh_test ∙ found))
  where
    clash : none ≡ some old → ⊥
    clash e = cc

interrupt_test :
    (mutate toy_host interrupt interrupt_value running_store).1.receipts
    ≡ insert digest_three (lifecycle interrupt_receipt) two_receipts
unfolding computes
interrupt_test = refl

abbrev interrupted_doc : SuccessDoc
interrupted_doc = record {
  operation = interrupt;
  request_id = "r1";
  idempotency_key = "int-1";
  identity = agent;
  observed_state = interrupted;
  receipt = interrupt_receipt;
  session_identity = none;
  retained_state_digest = none;
  reconciled_effect_summary_digest = none;
  retained_state_disposition = none;
}

interrupt_reply_test :
    (mutate toy_host interrupt interrupt_value running_store).0 ≡ reply (succeeded interrupted_doc)
unfolding computes
interrupt_reply_test = refl

lock_test :
    (lock_instance toy_host lock_value create_memory_runtime_store).1.receipts
    ≡ (digest_one, lifecycle lock_receipt_one) ∷ []
unfolding computes
lock_test = refl

found_test : find_instance agent running_store ≡ some running_instance
unfolding computes
found_test = refl

nothing : (k : String) (r : Receipt) → lookup k [] ≡ some r → ⊥
unfolding lookup
nothing k r e = cc

-- A receipt under a digest that the table has not collides with none.
fresh-NoCollision :
    (sha : Receipt → String) (m : Table Receipt) (n : String) (new : Receipt)
    → lookup n m ≡ none
    → NoCollision sha m (insert n new m)
fresh-NoCollision sha m n new fresh k old other found found' _ _ = elim (Bool-cases (str_eq n k)) [
  | inl same ↦
      absurd (clash (sym (subst (λ x. lookup x m ≡ none) ((eq_iff n k).0 same) fresh) ∙ found))
  | inr apart ↦ some_inj (sym found ∙ (rw (lookup-insert n k new m, apart) at found'))
]
  where
    clash : none ≡ some old → ⊥
    clash e = cc

running-Sound : Sound toy_sha running_store
unfolding lookup insert
running-Sound =
    insert-TablesSound toy_sha [] two_receipts "d/p/g/i" running_instance
      (λ namespace i found. absurd (nothing namespace i found))
      (record { chained = chain_test; headed = head_test })
  where
    nothing : (namespace : String) (i : Instance) → lookup namespace [] ≡ some i → ⊥
    nothing namespace i e = cc

-- An effect with the instance's session, whatever its status.
own_session :
    (op : Operation) (r : Request) (i : Instance) (outcome : EffectStatus) (o : Option String)
    → keeps_session op
        (record (obedient r i) { session_identity = o; status = outcome })
        (record i { session_identity = o })
      ≡ true
own_session op r i outcome o = ground (arith, same_option_refl o)

obedient-keeps : HandlersKeepSession toy_host
obedient-keeps op handler r i found =
    subst (λ f. keeps_session op (f r i) i ≡ true) (some_inj found)
      (own_session op r i EffectStatus.succeeded i.session_identity)

interrupt_apart :
    NoCollision toy_sha two_receipts
      (mutate toy_host interrupt interrupt_value running_store).1.receipts
interrupt_apart =
    subst (NoCollision toy_sha two_receipts) (sym interrupt_test)
      (fresh-NoCollision toy_sha two_receipts digest_three (lifecycle interrupt_receipt) fresh_test)

mutate-Sound_example : Sound toy_sha (mutate toy_host interrupt interrupt_value running_store).1
mutate-Sound_example =
    mutate-Sound toy_host obedient-keeps interrupt interrupt_value running_store running-Sound
      interrupt_apart

mutate-Moves_example :
    TableMoves interrupt running_store.instances
      (mutate toy_host interrupt interrupt_value running_store).1.instances
mutate-Moves_example = mutate-Moves toy_host interrupt interrupt_value running_store

extend-chain_valid_example :
    receipt_chain_valid toy_sha
      (insert digest_three (lifecycle interrupt_receipt) two_receipts)
      agent
      (some digest_three)
    ≡ some true
extend-chain_valid_example =
    extend-chain_valid toy_sha two_receipts agent digest_two digest_three (lifecycle start_receipt)
      (lifecycle interrupt_receipt) chain_test start_test refl link_test refl unclashed

insert-chain_valid_example :
    receipt_chain_valid toy_sha
      (insert digest_three (lifecycle interrupt_receipt) two_receipts)
      agent
      (some digest_two)
    ≡ some true
insert-chain_valid_example =
    insert-chain_valid toy_sha two_receipts agent (some digest_two) digest_three
      (lifecycle interrupt_receipt) unclashed chain_test

receipt_chain_valid-total_example :
    receipt_chain_valid toy_sha two_receipts agent (some digest_two) ≢ none
receipt_chain_valid-total_example =
    receipt_chain_valid-total toy_sha two_receipts agent (some digest_two)

empty-Sound : (sha : Receipt → String) → Sound sha create_memory_runtime_store
unfolding lookup
empty-Sound sha namespace i e = cc

lock_instance-Sound_example :
    Sound toy_sha (lock_instance toy_host lock_value create_memory_runtime_store).1
lock_instance-Sound_example =
    lock_instance-Sound toy_host lock_value create_memory_runtime_store (empty-Sound toy_sha)
      nothing_lost
  where
    nothing_lost :
        NoCollision toy_sha []
          (lock_instance toy_host lock_value create_memory_runtime_store).1.receipts
    nothing_lost n old new found _ _ _ = absurd (nothing n old found)

-- A later call: another time, and handlers that fail.
abbrev later_host : Host
later_host = record toy_host {
  timestamp = "2026-01-01T00:00:09Z";
  effects = λ op. some (λ r i. record (obedient r i) { status = EffectStatus.failed none });
}

mutate-idempotent_example :
    mutate later_host interrupt interrupt_value
      (mutate toy_host interrupt interrupt_value running_store).1
    ≡ (
      reply (succeeded interrupted_doc),
      (mutate toy_host interrupt interrupt_value running_store).1,
    )
mutate-idempotent_example =
    mutate-idempotent toy_host later_host interrupt interrupt_value running_store
      (succeeded interrupted_doc) refl refl refl interrupt_reply_test

parse_test : validate_mutation toy_host.documents interrupt interrupt_value ≡ ok interrupt_request
unfolding computes
parse_test = refl

guards_test : guards toy_host interrupt interrupt_request running_instance running_store ≡ ok tt
unfolding computes
guards_test = refl

success-matches_example :
    receipt_matches interrupt_request (
      success_receipt toy_host
        (record (run_of interrupt interrupt_request running_instance) {
          journal = new_journal interrupt interrupt_request running;
          degraded_health = none;
        })
        (obedient interrupt_request running_instance))
    ≡ true
success-matches_example =
    success-matches toy_host interrupt interrupt_request running_instance running_store
      (new_journal interrupt interrupt_request running) none
      (obedient interrupt_request running_instance) refl refl guards_test refl

abbrev locked_store : Store
locked_store = (handle toy_host (mutation lock lock_value) create_memory_runtime_store).1

-- The same lock again, at a later time.
abbrev replayed_store : Store
replayed_store = (handle later_host (mutation lock lock_value) locked_store).1

replayed_test : replayed_store.receipts ≡ locked_store.receipts
unfolding computes handle
replayed_test = refl

same-NoCollision : (m : Table Receipt) → NoCollision toy_sha m m
same-NoCollision m n old new found found' _ _ = some_inj (sym found ∙ found')

obedient-later : HandlersKeepSession later_host
obedient-later op handler r i found =
    subst (λ f. keeps_session op (f r i) i ≡ true) (some_inj found)
      (own_session op r i (EffectStatus.failed none) i.session_identity)

locked_run : Reached toy_sha (handle later_host (status status_value) replayed_store).1
locked_run = asked_status later_host replayed_store status_value (
    mutated later_host locked_store lock lock_value refl obedient-later
      (mutated toy_host create_memory_runtime_store lock lock_value refl obedient-keeps begun
        nothing_lost)
      (subst (NoCollision toy_sha locked_store.receipts) (sym replayed_test)
        (same-NoCollision locked_store.receipts)))
  where
    nothing_lost :
        NoCollision toy_sha []
          (handle toy_host (mutation lock lock_value) create_memory_runtime_store).1.receipts
    nothing_lost n old new found _ _ _ = absurd (nothing n old found)

Reached-Sound_example : Sound toy_sha (handle later_host (status status_value) replayed_store).1
Reached-Sound_example =
    Reached-Sound toy_sha (handle later_host (status status_value) replayed_store).1 locked_run

abbrev status_three : StatusRequest
status_three = record status_one { receipt_chain_head = some digest_three }

new_test : replay_or_conflict interrupt interrupt_request running_store ≡ none
unfolding computes
new_test = refl

status_request-mutate_example :
    (d : StatusDoc) × (status_request toy_host interrupt_fields status_three
        (mutate toy_host interrupt interrupt_value running_store).1
      ≡ reply (status_succeeded d))
    × Agrees status_three interrupted_doc d
status_request-mutate_example =
    status_request-mutate toy_host obedient-keeps interrupt interrupt_value interrupt_request
      running_store interrupted_doc interrupt_fields status_three running-Sound interrupt_apart
      parse_test new_test interrupt_reply_test refl refl

-- The interrupt at a host whose handlers fail.
abbrev declined_doc : FailureDoc
declined_doc =
    failure_doc (Command.mutation interrupt) interrupt_request.source "runtime-unavailable"
      (some running) no_details none

failed_test :
    (mutate later_host interrupt interrupt_value running_store).0 ≡ reply (failed declined_doc)
unfolding computes failure settle_failed failure_doc validate_failure is_manager_failure_code
    requires_trust_acceptance_failure_digest is_retryable safe_failure_request_id
    safe_failure_identity is_instance_state is_authenticated
failed_test = refl

mutate-failed_example :
    Unharmed running_store (mutate later_host interrupt interrupt_value running_store).1
mutate-failed_example =
    mutate-failed later_host interrupt interrupt_value running_store declined_doc failed_test
