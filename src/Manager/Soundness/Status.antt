-- ===== src/Manager/Soundness/Status.antt =====
-- `status` of src/manager/lifecycle.ts behind a success of `mutate`.
use dsh_runtime_kit.Base.{
  ◌≡◌, refl, sym, ap, subst, ◌∙◌, true, false, if◌then◌else◌, str_eq, eq_iff, none, some, lookup,
  ok,
}
use dsh_runtime_kit.Manager.Value.{Value, Fields, Identity, canonical_identity}
use dsh_runtime_kit.Manager.States.{Operation}
use dsh_runtime_kit.Manager.Requests.{Request, validate_mutation}
use dsh_runtime_kit.Manager.Store.{
  Instance, SuccessDoc, StatusDoc, Host, Store, reply, succeeded, status_succeeded,
}
use dsh_runtime_kit.Manager.Chain.{receipt_head_valid}
use dsh_runtime_kit.Manager.Chain.Extend.{NoCollision}
use dsh_runtime_kit.Manager.Journals.{is_asserted, replay_or_conflict}
use dsh_runtime_kit.Manager.Mutate.{mutate, admit}
use dsh_runtime_kit.Manager.Mutate.Replay.{parsed, request_fresh}
use dsh_runtime_kit.Manager.Query.{
  StatusRequest, find_instance, names_other_head, status_of, status_request,
}
use dsh_runtime_kit.Manager.Soundness.{Sound}
use dsh_runtime_kit.Manager.Soundness.Mutate.{HandlersKeepSession, mutate-Sound}
use dsh_runtime_kit.Manager.Soundness.Reports.{Told, Tells, admit-Tells}

find_instance-stored :
    (identity : Identity) (s : Store) (i : Instance)
    → lookup identity.namespace s.instances ≡ some i
    → str_eq (canonical_identity i.identity) (canonical_identity identity) ≡ true
    → find_instance identity s ≡ some i
unfolding find_instance
find_instance-stored identity s i found owned = rw (found, owned, find_instance) refl

status_request-found :
    (h : Host) (source : Fields) (q : StatusRequest) (s : Store) (i : Instance)
    → find_instance q.identity s ≡ some i
    → receipt_head_valid h.sha s.receipts i ≡ true
    → names_other_head q.receipt_chain_head i.receipt_head ≡ false
    → status_request h source q s ≡ reply (status_succeeded (status_of h q i))
unfolding status_request
status_request-found h source q s i found headed named =
    rw (found, headed, named, status_request) refl

-- A status answer that agrees with a success document.
abbrev pub Agrees : StatusRequest → SuccessDoc → StatusDoc → Type 0
Agrees q doc d =
    (d.request_id ≡ q.request_id)
    × (canonical_identity d.identity ≡ canonical_identity q.identity)
    × (d.observed_state ≡ doc.observed_state)
    × (d.receipt_chain_head ≡ some doc.receipt.digest)
    × ((if is_asserted doc.operation then d.session_identity else none) ≡ doc.session_identity)

status_of-Agrees :
    (h : Host) (q : StatusRequest) (r : Request) (doc : SuccessDoc) (i : Instance)
    → q.identity ≡ r.identity
    → Told r doc i
    → Agrees q doc (status_of h q i)
unfolding status_of
status_of-Agrees h q r doc i same told = (
  refl,
  (eq_iff _ _).0 told.owned ∙ ap canonical_identity (sym same),
  told.stands,
  told.heads,
  told.named,
)

-- Once start, resume, interrupt, drain or stop has succeeded, status of the instance succeeds and
-- tells what the success told: the state, the new receipt as the head of the chain and, of a start or
-- a resume, the session. Conditions: the store was sound, no handler of interrupt, drain or stop names
-- a session other than the instance's, the call overwrote no stored receipt by another one of the same
-- digest, its request was not in the journal before, and the status request names the same instance
-- and no other head than the new receipt.
pub status_request-mutate :
    (h : Host) (handlers : HandlersKeepSession h) (op : Operation) (value : Value) (r : Request)
    (s : Store) (doc : SuccessDoc) (source : Fields) (q : StatusRequest)
    → Sound h.sha s
    → NoCollision h.sha s.receipts (mutate h op value s).1.receipts
    → validate_mutation h.documents op value ≡ ok r
    → replay_or_conflict op r s ≡ none
    → (mutate h op value s).0 ≡ reply (succeeded doc)
    → q.identity ≡ r.identity
    → names_other_head q.receipt_chain_head (some doc.receipt.digest) ≡ false
    → (d : StatusDoc) × (status_request h source q (mutate h op value s).1
        ≡ reply (status_succeeded d))
      × Agrees q doc d
status_request-mutate h handlers op value r s doc source q sound kept good new success same named =
    let answer = mutate h op value s in
    let one : answer ≡ admit h op r s = parsed h op value r s good ∙ request_fresh h r op s new in
    let (i, found, told) = subst (Tells r) (sym one) (admit-Tells h op r s) doc success in
    let after = mutate-Sound h handlers op value s sound kept in
    (
      status_of h q i,
      status_request-found h source q answer.1 i
          (find_instance-stored q.identity answer.1 i
            (ap (λ (x : Identity). lookup x.namespace answer.1.instances) same ∙ found)
            (ap (λ x. str_eq (canonical_identity i.identity) (canonical_identity x)) same
              ∙ told.owned))
          (after r.identity.namespace i found).headed
          (ap (names_other_head q.receipt_chain_head) told.heads ∙ named),
      status_of-Agrees h q r doc i same told,
    )
