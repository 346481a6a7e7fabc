-- ===== src/Manager/Soundness/Launch.antt =====
-- An instance whose effect runs, and one that went back to its source state, stay sound.
use dsh_runtime_kit.Base.{
  ◌≡◌, refl, String, true, false, ◌&&◌, ◌||◌, [], eq_refl, Option, none, some, Table, arith,
  and-eq-true, true_of_and,
}
use dsh_runtime_kit.Manager.States.{
  State, absent, quarantined, Operation, lock, same_state, same_state_iff, includes,
  lifecycle_transition, transient_receipt_sources,
}
use dsh_runtime_kit.Manager.Receipts.{Receipt, LifecycleReceipt, lifecycle, quarantine}
use dsh_runtime_kit.Manager.Store.{Instance}
use dsh_runtime_kit.Manager.Chain.{head_fits, same_option, carries, is_pending}
use dsh_runtime_kit.Manager.Runs.{in_flight, transient_or}
use dsh_runtime_kit.Manager.Soundness.{InstanceSound, head_of, head_valid_of}

abbrev pub IsSource : Operation → State → Type 0
IsSource op s = includes (lifecycle_transition op).sources s ≡ true

-- A source state has no transient receipts, and is not `Quarantined`.
source_stable : (op : Operation) (s : State) → IsSource op s → transient_receipt_sources s ≡ []
unfolding lifecycle_transition transient_receipt_sources
source_stable lock absent h = refl
source_stable _ _ h = ground arith

source_kept : (op : Operation) (s : State) → IsSource op s → same_state s quarantined ≡ false
unfolding lifecycle_transition
source_kept lock absent h = refl
source_kept _ _ h = ground arith

-- The states that an operation starts from are those that a receipt may show while it runs.
source_pending :
    (op : Operation) (s : State)
    → IsSource op s
    → (same_state s (transient_or (lifecycle_transition op).transient s)
        || includes
            (transient_receipt_sources (transient_or (lifecycle_transition op).transient s))
            s)
      ≡ true
unfolding lifecycle_transition transient_receipt_sources
source_pending lock absent h = refl
source_pending _ _ h = ground arith

pub same_option_refl : (o : Option String) → same_option o o ≡ true
same_option_refl none = refl
same_option_refl (some s) = eq_refl s

-- The head of a sound instance in a source state shows that state.
pub stable_fits :
    (op : Operation) (i : Instance) (document : Receipt)
    → IsSource op i.state
    → head_fits i document ≡ true
    → (r : LifecycleReceipt) × (document ≡ lifecycle r)
      × (r.observed_state ≡ i.state)
      × (carries r i ≡ true)
unfolding head_fits
stable_fits op i (quarantine r) source fits = absurd (clash (source_kept op i.state source) fits)
  where
    clash :
        same_state i.state quarantined ≡ false
        → (same_state i.state quarantined && same_state r.observed_state quarantined) ≡ true
        → ⊥
    clash kept h = ground arith
stable_fits op i (lifecycle r) source fits =
    (r, refl, (same_state_iff _ _).0 (shown (and-eq-true _ _ fits).0), (and-eq-true _ _ fits).1)
  where
    shown :
        (same_state r.observed_state i.state
            || (is_pending i.pending_source_receipt_head i.receipt_head
                && includes (transient_receipt_sources i.state) r.observed_state))
          ≡ true
        → same_state r.observed_state i.state ≡ true
    shown h = ground (arith, source_stable op i.state source)

-- While its effect runs, an instance is as sound as it was: the chain's head is the pending source.
pub in_flight-Sound :
    (sha : Receipt → String) (m : Table Receipt) (op : Operation) (i : Instance)
    → IsSource op i.state
    → InstanceSound sha m i
    → InstanceSound sha m (in_flight op i)
unfolding in_flight head_fits carries
in_flight-Sound sha m op i source sound =
    let head = head_of sha m i sound.headed in
    let (r, is_r, shown, fits) = stable_fits op i head.document source head.fits in
    record {
      chained = sound.chained;
      headed = head_valid_of sha m (in_flight op i) (record {
        digest = head.digest;
        document = head.document;
        is_head = head.is_head;
        stored = head.stored;
        linked = head.linked;
        fits = rw is_r (
            true_of_and _ _
              (rw (shown, same_option_refl i.receipt_head) (source_pending op i.state source))
              fits);
      });
    }

-- So is one whose effect failed: its state is the source, and nothing is pending.
pub restored-Sound :
    (sha : Receipt → String) (m : Table Receipt) (op : Operation) (i : Instance)
    → IsSource op i.state
    → InstanceSound sha m i
    → InstanceSound sha m (record i { pending_source_receipt_head = none })
unfolding head_fits carries
restored-Sound sha m op i source sound =
    let head = head_of sha m i sound.headed in
    let (r, is_r, shown, fits) = stable_fits op i head.document source head.fits in
    record {
      chained = sound.chained;
      headed =
          head_valid_of sha m (record i { pending_source_receipt_head = none })
            (record {
              digest = head.digest;
              document = head.document;
              is_head = head.is_head;
              stored = head.stored;
              linked = head.linked;
              fits =
                  rw is_r
                    (true_of_and _ _ (rw (shown, (same_state_iff i.state i.state).1 refl)) fits);
            });
    }
