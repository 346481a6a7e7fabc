-- ===== src/Manager/Soundness/Commit.antt =====
-- A success commits a sound instance: `mutate` of src/manager/lifecycle.ts behind its receipt.
use dsh_runtime_kit.Base.{
  ◌≡◌, refl, sym, ap, subst, ◌∙◌, String, Bool, true, not, ◌||◌, str_eq, eq_iff, eq_refl,
  if◌then◌else◌, none, some, Table, insert, lookup-insert, arith, true_of_and,
}
use dsh_runtime_kit.Manager.Value.{canonical_identity}
use dsh_runtime_kit.Manager.States.{
  State, Operation, start, resume, same_operation, same_state, same_state_iff, lifecycle_transition,
}
use dsh_runtime_kit.Manager.Receipts.{
  Receipt, lifecycle, receipt_observed, receipt_source, receipt_prior, validate_lifecycle_receipt,
  validate_runtime_receipt, is_some,
}
use dsh_runtime_kit.Manager.Store.{Instance, Effect, Host}
use dsh_runtime_kit.Manager.Chain.{head_fits, same_option, link_valid, receipt_chain_valid}
use dsh_runtime_kit.Manager.Chain.Extend.{Unclashed, extend-chain_valid}
use dsh_runtime_kit.Manager.Journals.{build_receipt, is_asserted, first_of_two}
use dsh_runtime_kit.Manager.Runs.{Run, committed, success_receipt, session_settled}
use dsh_runtime_kit.Manager.Soundness.{InstanceSound, head_of, head_valid_of}
use dsh_runtime_kit.Manager.Soundness.Launch.{IsSource, stable_fits, same_option_refl}

-- An effect that is no start names no session but the instance's.
abbrev pub keeps_session : Operation → Effect → Instance → Bool
keeps_session op effect i =
    is_asserted op
    || not (is_some effect.session_identity)
    || same_option effect.session_identity i.session_identity

session_carried :
    (op : Operation) (effect : Effect) (i : Instance)
    → session_settled op effect i ≡ true
    → keeps_session op effect i ≡ true
    → same_option
        (first_of_two effect.session_identity
          (if same_operation op start then effect.session_identity else i.session_identity))
        (if same_operation op start then effect.session_identity else i.session_identity)
      ≡ true
unfolding session_settled
session_carried start effect i settled keeps =
    ground (arith, same_option_refl effect.session_identity)
session_carried resume effect i settled keeps = ground (arith, same_option_refl i.session_identity)
session_carried _ effect i settled keeps = ground (arith, same_option_refl i.session_identity)

module _ (h : Host) (run : Run) (effect : Effect) where
  open run use {instance as i, operation as op}

  -- What `settle` has tested when it commits.
  pub record Committing : Type 0 where
    pub source : IsSource op i.state
    pub owned :
        str_eq (canonical_identity i.identity) (canonical_identity run.request.identity) ≡ true
    pub settled : session_settled op effect i ≡ true
    pub keeps : keeps_session op effect i ≡ true
    pub valid : validate_lifecycle_receipt h.sha (success_receipt h run effect) ≡ true

  pub receipt_linked :
      Committing
      → link_valid h.sha i.identity
          (success_receipt h run effect).digest
          none
          (lifecycle (success_receipt h run effect))
        ≡ true
  unfolding link_valid success_receipt build_receipt validate_runtime_receipt
  receipt_linked c =
      true_of_and _ _
        (true_of_and _ _ (true_of_and _ _ c.valid (eq_refl _))
          ((eq_iff _ _).1 (sym ((eq_iff _ _).0 c.owned))))
        refl

  receipt_prior_head :
      (d : String)
      → i.receipt_head ≡ some d
      → receipt_prior (lifecycle (success_receipt h run effect)) ≡ some d
  unfolding success_receipt
  receipt_prior_head d e = e

  receipt_source_state :
      (s : State)
      → s ≡ i.state
      → same_state s (receipt_source (lifecycle (success_receipt h run effect))) ≡ true
  unfolding success_receipt
  receipt_source_state s e = (same_state_iff s i.state).1 e

  committed_fits :
      Committing
      → head_fits
          (committed run effect (success_receipt h run effect))
          (lifecycle (success_receipt h run effect))
        ≡ true
  unfolding head_fits committed success_receipt lifecycle_transition
  committed_fits c = true_of_and _ _ (rw ((same_state_iff _ _).1 refl)) (
      true_of_and _ _
        (true_of_and _ _
          (true_of_and _ _ (session_carried op effect i c.settled c.keeps) (eq_refl _)) (eq_refl _))
        (eq_refl _))

  -- The committed instance is sound under the receipts that hold its new head.
  pub committed-Sound :
      (m : Table Receipt)
      → Committing
      → Unclashed h.sha m
          (success_receipt h run effect).digest
          (lifecycle (success_receipt h run effect))
      → InstanceSound h.sha m i
      → InstanceSound h.sha
          (insert
            (success_receipt h run effect).digest
            (lifecycle (success_receipt h run effect))
            m)
          (committed run effect (success_receipt h run effect))
  unfolding committed
  committed-Sound m c unclashed sound =
      let receipt = success_receipt h run effect in
      let head = head_of h.sha m i sound.headed in
      let (r, is_r, shown, fits) = stable_fits op i head.document c.source head.fits in
      let linked = receipt_linked c in
      record {
        chained =
            extend-chain_valid h.sha m i.identity head.digest receipt.digest head.document
              (lifecycle receipt)
              (subst (λ o. receipt_chain_valid h.sha m i.identity o ≡ some true) head.is_head
                sound.chained)
              head.stored
              (receipt_source_state (receipt_observed head.document)
                (ap receipt_observed is_r ∙ shown))
              linked (receipt_prior_head head.digest head.is_head) unclashed;
        headed =
            head_valid_of h.sha (insert receipt.digest (lifecycle receipt) m)
              (committed run effect receipt)
              (record {
                digest = receipt.digest;
                document = lifecycle receipt;
                is_head = refl;
                stored = rw (
                  lookup-insert receipt.digest receipt.digest (lifecycle receipt) m,
                  eq_refl receipt.digest,
                );
                linked = linked;
                fits = committed_fits c;
              });
      }
