-- ===== src/Manager/Mutate/Replay.antt =====
-- The journal of src/manager/lifecycle.ts makes `mutate` idempotent.
use dsh_runtime_kit.Base.{
  ◌≡◌, refl, sym, ap, subst, ◌∙◌, inl, inr, String, true, false, str_eq, none, some, lookup,
  Bool-cases, Option-cases, Check-cases, ok, err,
}
use dsh_runtime_kit.Manager.Value.{Value, canonical_identity}
use dsh_runtime_kit.Manager.States.{Operation}
use dsh_runtime_kit.Manager.Requests.{Request, validate_mutation}
use dsh_runtime_kit.Manager.Store.{Instance, Host, Store, Payload, Reply, reply, thrown}
use dsh_runtime_kit.Manager.Journals.{replay_or_conflict, is_replay_authorized, failure, candidate}
use dsh_runtime_kit.Manager.Replays.{authorize_terminal_replay}
use dsh_runtime_kit.Manager.Mutate.{guards, admit, mutate_request, mutate}
use dsh_runtime_kit.Manager.Codes.{mutation}
use dsh_runtime_kit.Manager.Failures.{no_details}
use dsh_runtime_kit.Manager.Mutate.Answers.{Answered-replay, begin-Keeps}

module _ (h : Host) (r : Request) where
  pub request_fresh :
      (op : Operation) (s : Store)
      → replay_or_conflict op r s ≡ none
      → mutate_request h op r s ≡ admit h op r s
  unfolding mutate_request
  request_fresh op s new = rw (new, mutate_request) refl

  request_replayed :
      (op : Operation) (s : Store) (answer : Reply)
      → replay_or_conflict op r s ≡ some answer
      → is_replay_authorized op ≡ false
      → mutate_request h op r s ≡ (answer, s)
  unfolding mutate_request authorize_terminal_replay
  request_replayed op s thrown old plain = rw (old, mutate_request) refl
  request_replayed op s (reply q) old plain =
      rw (old, plain, mutate_request, authorize_terminal_replay) refl

guards-sha :
    (h again : Host) (op : Operation) (r : Request) (i : Instance) (s : Store)
    → again.sha ≡ h.sha
    → guards again op r i s ≡ guards h op r i s
unfolding guards
guards-sha h again op r i s same = rw same refl

-- A repeat may meet another host: another time, and other answers of the verifier, the probes and the
-- handlers. The digest of receipts is the same.
module _ (h again : Host) (r : Request) (same_sha : again.sha ≡ h.sha) where
  -- The same request again.
  abbrev Again : Operation → Reply × Store → Type 0
  Again op answer =
      (p : Payload) → answer.0 ≡ reply p → mutate_request again op r answer.1 ≡ (reply p, answer.1)

  replay-Again :
      (op : Operation) (p : Payload) (s : Store)
      → is_replay_authorized op ≡ false
      → replay_or_conflict op r s ≡ some (reply p)
      → mutate_request again op r s ≡ (reply p, s)
  unfolding mutate_request authorize_terminal_replay
  replay-Again op p s plain old = rw (old, plain, mutate_request, authorize_terminal_replay) refl

  -- A request that the guards refuse is refused again.
  refused-Again :
      (op : Operation) (i : Instance) (s : Store) (code : String)
      → replay_or_conflict op r s ≡ none
      → lookup r.identity.namespace s.instances ≡ some i
      → str_eq (canonical_identity i.identity) (canonical_identity r.identity) ≡ true
      → guards h op r i s ≡ err code
      → mutate_request again op r s
        ≡ (failure (mutation op) r.source code (some i.state) no_details none, s)
  unfolding admit mutate_request
  refused-Again op i s code new found owned refused =
      rw (new, found, owned, guards-sha h again op r i s same_sha ∙ refused, mutate_request, admit)
        refl

  admit-Again :
      (op : Operation) (s : Store)
      → is_replay_authorized op ≡ false
      → replay_or_conflict op r s ≡ none
      → Again op (admit h op r s)
  unfolding admit mutate_request
  admit-Again op s plain new = elim (Option-cases (lookup r.identity.namespace s.instances)) [
    | inl missing ↦
        rw (missing, admit) (λ p e. rw (new, missing, mutate_request, admit) (ap (λ x. (x, s)) e))
    | inr (i, found) ↦
        elim (Bool-cases (str_eq (canonical_identity i.identity) (canonical_identity r.identity))) [
          | inr foreign ↦
              rw (found, foreign, admit)
                (λ p e. rw (new, found, foreign, mutate_request, admit) (ap (λ x. (x, s)) e))
          | inl owned ↦ elim (Check-cases (guards h op r i s)) [
            | inr (code, refused) ↦
                rw (found, owned, refused, admit)
                  (λ p e. refused-Again op i s code new found owned refused ∙ ap (λ x. (x, s)) e)
            | inl (u, passed) ↦
                rw (found, owned, passed, admit)
                  (λ p e.
                    replay-Again op p _ plain
                      (Answered-replay op r p _ (begin-Keeps h r op i s p e)))
          ]
        ]
  ]

  request-Again :
      (op : Operation) (s : Store)
      → is_replay_authorized op ≡ false
      → Again op (mutate_request h op r s)
  request-Again op s plain = elim (Option-cases (replay_or_conflict op r s)) [
    | inl new ↦ subst (Again op) (sym (request_fresh h r op s new)) (admit-Again op s plain new)
    | inr (thrown, old) ↦
        subst (Again op) (sym (request_replayed h r op s thrown old plain))
          (λ p e. absurd (clash p e))
    | inr (reply q, old) ↦
        subst (Again op) (sym (request_replayed h r op s (reply q) old plain))
          (λ p e. replay-Again op p s plain (old ∙ ap some e))
  ]
    where
      clash : (p : Payload) → thrown ≡ reply p → ⊥
      clash p e = cc

pub parsed :
    (h : Host) (op : Operation) (value : Value) (r : Request) (s : Store)
    → validate_mutation h.documents op value ≡ ok r
    → mutate h op value s ≡ mutate_request h op r s
unfolding mutate
parsed h op value r s good = rw (good, mutate) refl

-- `interrupt`, `drain` and `stop` are idempotent: once a call has answered, whatever it answered, the
-- same call again gives the same answer and changes nothing in the store, whatever the time, the
-- verifier, the probes and the handlers are by then, so it does not depend on what an effect does.
-- Conditions: the first call answered and did not throw, and the digest of receipts and the validators
-- of documents are the same for both calls.
pub mutate-idempotent :
    (h again : Host) (op : Operation) (value : Value) (s : Store) (p : Payload)
    → again.sha ≡ h.sha
    → again.documents ≡ h.documents
    → is_replay_authorized op ≡ false
    → (mutate h op value s).0 ≡ reply p
    → mutate again op value (mutate h op value s).1 ≡ (reply p, (mutate h op value s).1)
unfolding mutate
mutate-idempotent h again op value s p same_sha same_documents plain e =
    elim (Check-cases (validate_mutation h.documents op value)) [
      | inr (code, bad) ↦
          subst (λ x. mutate again op value x.1 ≡ (reply p, x.1)) (sym (rejected h code bad))
            (rejected again code (bad_again code bad)
              ∙ ap (λ x. (x, s)) (ap (λ x. x.0) (sym (rejected h code bad)) ∙ e))
      | inl (r, good) ↦
          let one = parsed h op value r s good in
          subst (λ x. mutate again op value x.1 ≡ (reply p, x.1)) (sym one)
            (parsed again op value r (mutate_request h op r s).1 (good_again r good)
              ∙ request-Again h again r same_sha op s plain p (ap (λ x. x.0) (sym one) ∙ e))
    ]
  where
    rejected :
        (k : Host) (code : String)
        → validate_mutation k.documents op value ≡ err code
        → mutate k op value s
          ≡ (failure (mutation op) (candidate value) "invalid-request" none no_details none, s)
    rejected k code bad = rw (bad, mutate) refl

    bad_again :
        (code : String)
        → validate_mutation h.documents op value ≡ err code
        → validate_mutation again.documents op value ≡ err code
    bad_again code bad = ap (λ d. validate_mutation d op value) same_documents ∙ bad

    good_again :
        (r : Request)
        → validate_mutation h.documents op value ≡ ok r
        → validate_mutation again.documents op value ≡ ok r
    good_again r good = ap (λ d. validate_mutation d op value) same_documents ∙ good
