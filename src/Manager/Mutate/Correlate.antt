-- ===== src/Manager/Mutate/Correlate.antt =====
-- A success of `mutate` of src/manager/lifecycle.ts against correlateManagerResult of
-- src/manager/contracts.ts, which the caller's side of the control protocol applies.
use dsh_runtime_kit.Base.{
  ◌≡◌, refl, sym, ap, String, Bool, true, false, not, ◌&&◌, ◌||◌, List, eq_iff, eq_refl, str_eq,
  Option, none, some, ok, ◌>>◌, require, and-eq-true, true_of_and,
}
use dsh_runtime_kit.Manager.States.{
  Operation, State, lock, start, resume, interrupt, drain, stop, same_operation, same_state,
  same_state_iff, includes, lifecycle_transition,
}
use dsh_runtime_kit.Manager.Receipts.{is_some}
use dsh_runtime_kit.Manager.Failures.{safe_session_identity}
use dsh_runtime_kit.Manager.Requests.{Request}
use dsh_runtime_kit.Manager.Store.{Instance, Host, Store, Journal, Effect}
use dsh_runtime_kit.Manager.Chain.{same_option, receipt_chain_valid}
use dsh_runtime_kit.Manager.Journals.{is_asserted, build_receipt, first_of_two}
use dsh_runtime_kit.Manager.Runs.{success_receipt}
use dsh_runtime_kit.Manager.Mutate.{guards}
use dsh_runtime_kit.Manager.Mutate.Cases.{run_of}
use dsh_runtime_kit.Manager.Results.{receipt_matches}
use dsh_runtime_kit.Manager.Soundness.Commit.{keeps_session}

-- What the guards have compared between a request and an instance.
pub record Granted (op : Operation) (r : Request) (i : Instance) : Type 0 where
  pub expected : same_state r.expected_state i.state ≡ true
  pub head :
      (not (same_operation op stop) || same_option r.receipt_chain_head i.receipt_head) ≡ true
  pub seal :
      (not (is_asserted op) || same_option r.admission_seal_digest (some i.admission_seal_digest))
      ≡ true
  pub locked :
      (not (same_operation op start) || same_option r.prior_receipt_digest i.receipt_head) ≡ true
  pub resumed :
      (not (same_operation op resume) || same_option r.prior_receipt_digest i.receipt_head) ≡ true
  pub session :
      (not (same_operation op interrupt) || same_option r.run_identity i.session_identity) ≡ true

-- A chain of nine tests that returned has passed each of them.
all_of_require :
    (a b c d e f g i j : Bool) (k l m n o p q r s : String)
    → (require a k
        >> (require b l
            >> (require c m
                >> (require d n
                    >> (require e o
                        >> (require f p >> (require g q >> (require i r >> require j s))))))))
      ≡ ok tt
    → (a && (b && (d && (e && (f && j))))) ≡ true
all_of_require true true true true true true true true true k l m n o p q r s h = refl
all_of_require false b c d e f g i j k l m n o p q r s h = cc
all_of_require true false c d e f g i j k l m n o p q r s h = cc
all_of_require true true false d e f g i j k l m n o p q r s h = cc
all_of_require true true true false e f g i j k l m n o p q r s h = cc
all_of_require true true true true false f g i j k l m n o p q r s h = cc
all_of_require true true true true true false g i j k l m n o p q r s h = cc
all_of_require true true true true true true false i j k l m n o p q r s h = cc
all_of_require true true true true true true true false j k l m n o p q r s h = cc
all_of_require true true true true true true true true false k l m n o p q r s h = cc

guards-Granted :
    (h : Host) (op : Operation) (r : Request) (i : Instance) (s : Store)
    → guards h op r i s ≡ ok tt
    → Granted op r i
unfolding guards
guards-Granted h op r i s e =
    let passed =
      all_of_require
        (includes (lifecycle_transition op).sources i.state && same_state r.expected_state i.state)
        (not (same_operation op stop) || same_option r.receipt_chain_head i.receipt_head)
        (not (same_operation op stop)
          || elim (receipt_chain_valid h.sha s.receipts i.identity i.receipt_head) [
            | some valid ↦ valid
            | none ↦ false
          ])
        (not (is_asserted op) || same_option r.admission_seal_digest (some i.admission_seal_digest))
        (not (same_operation op start) || same_option r.prior_receipt_digest i.receipt_head)
        (not (same_operation op resume) || same_option r.prior_receipt_digest i.receipt_head)
        (not (same_operation op resume) || is_some (safe_session_identity i.session_identity))
        (is_asserted op || is_some (safe_session_identity i.session_identity))
        (not (same_operation op interrupt) || same_option r.run_identity i.session_identity)
        "state-conflict" "receipt-chain-invalid" "receipt-chain-invalid" "seal-invalid"
        "lock-invalid" "receipt-chain-invalid" "retained-state-missing" "state-conflict"
        "cancellation-identity-mismatch" e in
    let after_one = (and-eq-true _ _ passed).1 in
    let after_two = (and-eq-true _ _ after_one).1 in
    let after_three = (and-eq-true _ _ after_two).1 in
    let after_four = (and-eq-true _ _ after_three).1 in
    record {
      expected = (and-eq-true _ _ (and-eq-true _ _ passed).0).1;
      head = (and-eq-true _ _ after_one).0;
      seal = (and-eq-true _ _ after_two).0;
      locked = (and-eq-true _ _ after_three).0;
      resumed = (and-eq-true _ _ after_four).0;
      session = (and-eq-true _ _ after_four).1;
    }

same_option-sym : (a b : Option String) → same_option a b ≡ true → same_option b a ≡ true
same_option-sym none none e = refl
same_option-sym none (some t) e = cc
same_option-sym (some s) none e = cc
same_option-sym (some s) (some t) e = (eq_iff t s).1 (sym ((eq_iff s t).0 e))

-- The session of an interrupt's receipt is the one that its request names.
session-kept :
    (asked said own : Option String)
    → same_option asked own ≡ true
    → (not (is_some said) || same_option said own) ≡ true
    → same_option (first_of_two said own) asked ≡ true
session-kept asked none own e k = same_option-sym asked own e
session-kept asked (some t) own e k =
    same_option-sym asked (some t) (rw (option_of (some t) own k) e)
  where
    option_of : (a b : Option String) → same_option a b ≡ true → a ≡ b
    option_of none none e = refl
    option_of none (some t) e = cc
    option_of (some s) none e = cc
    option_of (some s) (some t) e = ap some ((eq_iff s t).0 e)

same_state-sym : (a b : State) → same_state a b ≡ true → same_state b a ≡ true
same_state-sym a b e = (same_state_iff b a).1 (sym ((same_state_iff a b).0 e))

-- The receipt of every operation that `mutate` commits matches its request as the caller's check
-- demands: operation, request digest and source state, for a start or a resume the prior receipt and
-- the seal, for an interrupt the session, for a stop the chain's head. Conditions: the guards have let
-- the instance in, the request is one of the operation, and the effect of an interrupt, a drain or a
-- stop names no session but the instance's.
pub success-matches :
    (h : Host) (op : Operation) (r : Request) (i : Instance) (s : Store) (j : Journal)
    (degraded : Option (List String)) (effect : Effect)
    → r.operation ≡ op
    → same_operation op lock ≡ false
    → guards h op r i s ≡ ok tt
    → keeps_session op effect i ≡ true
    → receipt_matches r (
        success_receipt h
          (record (run_of op r i) { journal = j; degraded_health = degraded })
          effect)
      ≡ true
unfolding receipt_matches success_receipt build_receipt lifecycle_transition
success-matches h op r i s j degraded effect of_op no_lock passed keeps =
    matches op of_op no_lock (guards-Granted h op r i s passed) keeps
  where
    shared :
        (op : Operation)
        → same_operation op op ≡ true
        → same_state r.expected_state i.state ≡ true
        → (same_operation op op
            && str_eq r.request_digest r.request_digest
            && same_state i.state r.expected_state)
          ≡ true
    shared op same expected =
        true_of_and _ _ (true_of_and _ _ same (eq_refl r.request_digest))
          (same_state-sym r.expected_state i.state expected)

    matches :
        (op : Operation)
        → r.operation ≡ op
        → same_operation op lock ≡ false
        → Granted op r i
        → keeps_session op effect i ≡ true
        → receipt_matches r (
            success_receipt h
              (record (run_of op r i) { journal = j; degraded_health = degraded })
              effect)
          ≡ true
    matches lock e no_lock g k = cc
    matches start e no_lock g k = rw e (
        true_of_and _ _
          (true_of_and _ _
            (true_of_and _ _
              (true_of_and _ _ (true_of_and _ _ (shared start refl g.expected) refl)
                (same_option-sym r.admission_seal_digest (some i.admission_seal_digest) g.seal))
              (same_option-sym r.prior_receipt_digest i.receipt_head g.locked))
            refl)
          refl)
    matches resume e no_lock g k = rw e (
        true_of_and _ _
          (true_of_and _ _
            (true_of_and _ _
              (true_of_and _ _ (true_of_and _ _ (shared resume refl g.expected) refl)
                (same_option-sym r.admission_seal_digest (some i.admission_seal_digest) g.seal))
              (same_option-sym r.prior_receipt_digest i.receipt_head g.resumed))
            refl)
          refl)
    matches interrupt e no_lock g k = rw e (
        true_of_and _ _
          (true_of_and _ _
            (true_of_and _ _
              (true_of_and _ _ (true_of_and _ _ (shared interrupt refl g.expected) refl) refl) refl)
            (session-kept r.run_identity effect.session_identity i.session_identity g.session k))
          refl)
    matches drain e no_lock g k = rw e (
        true_of_and _ _
          (true_of_and _ _
            (true_of_and _ _
              (true_of_and _ _ (true_of_and _ _ (shared drain refl g.expected) refl) refl) refl)
            refl)
          refl)
    matches stop e no_lock g k = rw e (
        true_of_and _ _
          (true_of_and _ _
            (true_of_and _ _
              (true_of_and _ _ (true_of_and _ _ (shared stop refl g.expected) refl) refl) refl)
            refl)
          (same_option-sym r.receipt_chain_head i.receipt_head g.head))
