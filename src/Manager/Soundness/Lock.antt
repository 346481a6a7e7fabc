-- ===== src/Manager/Soundness/Lock.antt =====
-- `lock` of src/manager/lifecycle.ts keeps every instance sound, on every branch.
use dsh_runtime_kit.Base.{
  ◌≡◌, refl, inl, inr, String, true, eq_refl, none, some, Table, lookup, insert, lookup-insert,
  Bool-cases, Option-cases, true_of_and, Check-cases,
}
use dsh_runtime_kit.Manager.Value.{Value, canonical_identity}
use dsh_runtime_kit.Manager.States.{lock}
use dsh_runtime_kit.Manager.Receipts.{
  Receipt, lifecycle, validate_lifecycle_receipt, validate_runtime_receipt,
}
use dsh_runtime_kit.Manager.Requests.{Request, LockDocuments, validate_mutation}
use dsh_runtime_kit.Manager.Store.{Host, Store, Journal, Reply, reply, thrown, AcceptanceKind}
use dsh_runtime_kit.Manager.Chain.{link_valid, head_fits}
use dsh_runtime_kit.Manager.Chain.Extend.{
  NoCollision, NoCollision-Unclashed, link_facts, start-chain_valid,
}
use dsh_runtime_kit.Manager.Journals.{build_receipt, settle_failed, replay_or_conflict}
use dsh_runtime_kit.Manager.Replays.{accept_assertion}
use dsh_runtime_kit.Manager.Runs.{or_else}
use dsh_runtime_kit.Manager.Mutate.Cases.{Accepted-cases, replay_same_tables}
use dsh_runtime_kit.Manager.Lock.{
  is_owned_by_other, locked_instance, lock_receipt, lock_commit, lock_accept, lock_admit,
  lock_request, lock_instance,
}
use dsh_runtime_kit.Manager.Soundness.{
  InstanceSound, Sound, head_valid_of, insert-TablesSound, receipts-grow,
}

module _ (h : Host) where
  lock_linked :
      (r : Request) (d : LockDocuments) (seal assertion : String)
      → validate_lifecycle_receipt h.sha (lock_receipt h r d seal assertion) ≡ true
      → let receipt = lock_receipt h r d seal assertion in
        link_valid h.sha r.identity receipt.digest none (lifecycle receipt) ≡ true
  unfolding link_valid lock_receipt locked_instance build_receipt validate_runtime_receipt
  lock_linked r d seal assertion valid =
      true_of_and _ _ (true_of_and _ _ (true_of_and _ _ valid (eq_refl _)) (eq_refl _)) refl

  -- A new instance and its first receipt, once the receipt is stored.
  locked-Sound :
      (r : Request) (d : LockDocuments) (seal assertion : String) (m : Table Receipt)
      → validate_lifecycle_receipt h.sha (lock_receipt h r d seal assertion) ≡ true
      → let receipt = lock_receipt h r d seal assertion in
        InstanceSound h.sha
          (insert receipt.digest (lifecycle receipt) m)
          (record (locked_instance h r d) { receipt_head = some receipt.digest })
  unfolding lock_receipt locked_instance build_receipt head_fits
  locked-Sound r d seal assertion m valid =
      let receipt = lock_receipt h r d seal assertion in
      let linked = lock_linked r d seal assertion valid in
      record {
        chained =
            start-chain_valid h.sha m r.identity receipt.digest (lifecycle receipt) linked refl
              refl;
        headed =
            head_valid_of h.sha (insert receipt.digest (lifecycle receipt) m)
              (record (locked_instance h r d) { receipt_head = some receipt.digest })
              (record {
                digest = receipt.digest;
                document = lifecycle receipt;
                is_head = refl;
                stored = rw (
                  lookup-insert receipt.digest receipt.digest (lifecycle receipt) m,
                  eq_refl receipt.digest,
                );
                linked = linked;
                fits = true_of_and _ _ refl (
                    true_of_and _ _
                      (true_of_and _ _ (true_of_and _ _ refl (eq_refl d.lock_receipt_digest))
                        (eq_refl d.composition.digest))
                      (eq_refl (or_else r.admission_seal_digest "")));
              });
      }

  abbrev Kept : Store → Reply × Store → Type 0
  Kept s after = NoCollision h.sha s.receipts after.1.receipts → Sound h.sha after.1

  commit-Kept :
      (r : Request) (d : LockDocuments) (j : Journal) (seal assertion : String) (s : Store)
      → Sound h.sha s
      → Kept s (lock_commit h r d j seal assertion s)
  unfolding lock_commit
  commit-Kept r d j seal assertion s sound =
      let receipt = lock_receipt h r d seal assertion in
      elim (Bool-cases (validate_lifecycle_receipt h.sha receipt)) [
        | inr invalid ↦ rw (invalid, lock_commit) (λ kept. sound)
        | inl valid ↦
            let (made, named) =
              link_facts h.sha r.identity receipt.digest none (lifecycle receipt)
                (lock_linked r d seal assertion valid) in
            rw (valid, lock_commit)
              (λ kept.
                insert-TablesSound h.sha s.instances
                  (insert receipt.digest (lifecycle receipt) s.receipts) r.identity.namespace _
                  (receipts-grow h.sha s.instances s.receipts receipt.digest (lifecycle receipt)
                    (NoCollision-Unclashed h.sha s.receipts receipt.digest (lifecycle receipt) kept
                      made)
                    sound)
                  (locked-Sound r d seal assertion s.receipts valid))
      ]

  settle_failed-Kept :
      (key : String) (j : Journal) (answer : Reply) (s : Store)
      → Sound h.sha s
      → Kept s (settle_failed key j answer s)
  unfolding settle_failed
  settle_failed-Kept key j thrown s sound kept = sound
  settle_failed-Kept key j (reply p) s sound kept = sound

  accept-Kept :
      (r : Request) (d : LockDocuments) (s : Store) → Sound h.sha s → Kept s (lock_accept h r d s)
  unfolding lock_accept
  accept-Kept r d s sound =
      elim (Accepted-cases (
        h.accept_signed_document (record {
          namespace = r.identity.deployment_id;
          acceptance_kind = AcceptanceKind.seal;
          signed_document = d.admission_seal;
          operation = "instance.lock";
          semantic_request_digest = r.request_digest;
          expected_effect_journal_revision = 0;
        }))) [
          | inr (error, e) ↦
              rw (e, lock_accept) (settle_failed-Kept _ _ _ (record s { journals = _ }) sound)
          | inl (seal, e) ↦
              elim (Accepted-cases
                (accept_assertion h r (or_else r.admission_seal_digest "") lock 1)) [
                  | inr (error, f) ↦
                      rw (e, f, lock_accept)
                        (settle_failed-Kept _ _ _ (record s { journals = _ }) sound)
                  | inl (assertion, f) ↦
                      rw (e, f, lock_accept)
                        (commit-Kept r d _ seal assertion (record s { journals = _ }) sound)
                ]
        ]

  admit-Kept :
      (r : Request) (d : LockDocuments) (s : Store) → Sound h.sha s → Kept s (lock_admit h r d s)
  unfolding lock_admit
  admit-Kept r d s sound = elim (Option-cases (lookup r.identity.namespace s.instances)) [
    | inr (i, found) ↦ rw (found, lock_admit) (λ kept. sound)
    | inl missing ↦
        elim (Bool-cases (
          is_owned_by_other h (lookup r.identity.namespace s.namespaces)
            (canonical_identity r.identity))) [
              | inl foreign ↦ rw (missing, foreign, lock_admit) (λ kept. sound)
              | inr free ↦
                  elim (Check-cases (
                    h.validate_admission_seal d.admission_seal d.composition d.lock_receipt_digest
                      r.identity)) [
                        | inr (code, e) ↦ rw (missing, free, e, lock_admit) (λ kept. sound)
                        | inl (u, e) ↦ rw (missing, free, e, lock_admit) (accept-Kept r d s sound)
                      ]
            ]
  ]

  request-Kept :
      (r : Request) (d : LockDocuments) (s : Store) → Sound h.sha s → Kept s (lock_request h r d s)
  unfolding lock_request
  request-Kept r d s sound = elim (Option-cases (replay_or_conflict lock r s)) [
    | inl new ↦ rw (new, lock_request) (admit-Kept r d s sound)
    | inr (answer, old) ↦
        let (instances, receipts) = replay_same_tables h lock r answer s in
        rw (old, lock_request) (λ kept. rw (instances, receipts) sound)
  ]

  -- `lock` keeps the store sound: whatever the request, the replay and the evidence of the trust
  -- verifier, behind the call every instance heads a valid receipt chain whose newest receipt fits
  -- it. Conditions: the store was sound, and the call has not overwritten a stored receipt by
  -- another one of the same SHA-256 digest.
  pub lock_instance-Sound :
      (value : Value) (s : Store)
      → Sound h.sha s
      → NoCollision h.sha s.receipts (lock_instance h value s).1.receipts
      → Sound h.sha (lock_instance h value s).1
  unfolding lock_instance
  lock_instance-Sound value s sound =
      elim (Check-cases (validate_mutation h.documents lock value)) [
        | inr (code, e) ↦ rw (e, lock_instance) (λ kept. sound)
        | inl (r, e) ↦ elim (Option-cases r.lock_documents) [
          | inl missing ↦ rw (e, missing, lock_instance) (λ kept. sound)
          | inr (d, found) ↦ rw (e, found, lock_instance) (request-Kept r d s sound)
        ]
      ]
