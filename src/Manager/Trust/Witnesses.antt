-- ===== src/Manager/Trust/Witnesses.antt =====
-- A lineage of two bundles at concrete inputs: a key is retired, the verifier follows, and what it
-- refuses.
use dsh_runtime_kit.Base.{
  ℕ, ◌≤◌, ◌<◌, ◌≡◌, refl, String, true, false, [], ◌∷◌, Option, none, some, Check, ok, err, lookup,
  insert, str_eq, if◌then◌else◌,
}
use dsh_runtime_kit.Manager.Trust.{
  KeyState, TrustBundle, TrustKey, TrustTransition, active, assertion, distinct_ids, key_table,
  keys_of, may_become, place_id, retired, same_ids, same_key_state, same_option_state, same_use,
  sort_ids, table_ids, trust_transition,
}
use dsh_runtime_kit.Manager.Trust.CallTimes.{trust_call-times, trust_calls-times}
use dsh_runtime_kit.Manager.Trust.Calls.{
  TrustCall, accept_call, accept_signed_document, accept_times, accept_under, accepted_or,
  accepted_under, behind_refresh, read_call, read_current, times_fit, trust_call, trust_calls,
}
use dsh_runtime_kit.Manager.Trust.Edge.{
  change, edge_changes, edge_guard, exact_lists, expected_changes, is_active_signer, key_change,
  required_overlaps, same_changes, state_change, validate_transition_edge,
}
use dsh_runtime_kit.Manager.Trust.Levels.{level}
use dsh_runtime_kit.Manager.Trust.Lineage.{walk_transitions-level}
use dsh_runtime_kit.Manager.Trust.Pages.{
  LineageHead, LineagePage, TrustState, advances, first_sequence, from_genesis, last_sequence_of,
  next_cursor, observed, page_bounds, page_read, resumed, same_option, started,
}
use dsh_runtime_kit.Manager.Trust.Refresh.{
  lineage_loop, prior_of, reaches_head, refresh_current, settle_lineage, starts_again, walk_page,
}
use dsh_runtime_kit.Manager.Trust.Walk.{Walk, next_in_line, walk_transition, walk_transitions}

abbrev signer_key : TrustKey
signer_key = record {
  key_id = "a";
  algorithm = "Ed25519";
  key_use = trust_transition;
  raw_public_key_hex = "00";
  state = active;
}

abbrev worker_key : KeyState → TrustKey
worker_key state = record {
  key_id = "b";
  algorithm = "Ed25519";
  key_use = assertion;
  raw_public_key_hex = "01";
  state = state;
}

abbrev first_bundle : TrustBundle
first_bundle = record {
  bundle_digest = "d0";
  namespace = "n";
  keys = signer_key ∷ worker_key active ∷ [];
}

abbrev second_bundle : TrustBundle
second_bundle = record {
  bundle_digest = "d1";
  namespace = "n";
  keys = signer_key ∷ worker_key retired ∷ [];
}

abbrev retirement : TrustTransition
retirement = record {
  transition_digest = "t1";
  prior_bundle_digest = "d0";
  next_bundle_digest = "d1";
  sequence = 1;
  effective_at = 10;
  key_state_changes = change "b" (some active) (some retired) ∷ [];
  overlap_ids = "b" ∷ [];
  signer_key_id = "a";
}

abbrev bundles : String → Check TrustBundle
bundles digest = ok second_bundle

abbrev verified : TrustTransition → TrustBundle → Check (Unit {0})
verified transition bundle = ok tt

abbrev at_first : Walk
at_first = record {
  expected_bundle = "d0";
  prior_bundle = first_bundle;
  last_sequence = 0;
  last_transition_digest = none;
  transition_count = 0;
  bundles = [];
  tombstones = [];
}

abbrev at_second : Walk
at_second = record {
  expected_bundle = "d1";
  prior_bundle = second_bundle;
  last_sequence = 1;
  last_transition_digest = some "t1";
  transition_count = 1;
  bundles = insert "d1" second_bundle [];
  tombstones = [];
}

abbrev head_at : ℕ → String → String → Option String → LineageHead
head_at sequence digest bundle transition = record {
  head_digest = digest;
  genesis_bundle_digest = "d0";
  head_sequence = sequence;
  head_bundle_digest = bundle;
  head_transition_digest = transition;
}

abbrev retained : TrustState
retained = record {
  state_time_revision = 5;
  state_authority_time = 20;
  state_observation = "o5";
  state_lineage = some (record {
    state_head = head_at 0 "h0" "d0" none;
    state_bundles = insert "d0" first_bundle [];
    state_tombstones = [];
  });
}

abbrev page : LineagePage
page = record {
  page_head = head_at 1 "h1" "d1" (some "t1");
  observation_digest = "o6";
  page_start_sequence = some 1;
  page_end_sequence = some 1;
  next_after_sequence = none;
  complete = true;
  transitions = retirement ∷ [];
  authority_time = 30;
  prior_authority_time = some 20;
  time_revision = 6;
  prior_time_revision = some 5;
}

unfoldable computes : Unit {0}
unfolding same_use same_key_state same_option_state key_table table_ids distinct_ids place_id
    sort_ids same_ids may_become state_change key_change expected_changes same_changes
    required_overlaps is_active_signer exact_lists edge_changes edge_guard validate_transition_edge
    next_in_line walk_transition walk_transitions same_option first_sequence last_sequence_of
    resumed started from_genesis advances observed page_bounds next_cursor prior_of walk_page
    reaches_head settle_lineage starts_again lineage_loop refresh_current times_fit accept_times
    accepted_or accepted_under accept_under behind_refresh read_current accept_signed_document
    trust_call trust_calls lookup insert
computes = tt

walk_test : walk_transitions bundles verified 30 (retirement ∷ []) at_first ≡ ok at_second
unfolding computes
walk_test = refl

-- A transition that lists no change is refused.
unlisted_test :
    walk_transitions bundles verified 30
      ((record retirement { key_state_changes = [] }) ∷ [])
      at_first
    ≡ err "lineage-invalid"
unfolding computes
unlisted_test = refl

-- So is one that lists it with its properties in another order.
reordered_test :
    walk_transitions bundles verified 30
      ((record retirement {
        key_state_changes =
            (record (change "b" (some active) (some retired)) { in_order = false }) ∷ [];
      })
        ∷ [])
      at_first
    ≡ err "lineage-invalid"
unfolding computes
reordered_test = refl

read_test : (read_current "d0" verified bundles (some retained) (page_read page ∷ [])).1 ≡ ok tt
unfolding computes
read_test = refl

abbrev declined : TrustCall
declined =
    accept_call bundles (page_read page ∷ []) "d0" (λ bundle. ok tt) (some (err "replayed-nonce"))

declined_test :
    (accept_signed_document "d0" verified bundles
      (some retained)
      (page_read page ∷ [])
      "d0"
      (λ bundle. ok tt)
      (some (err "replayed-nonce"))).1
    ≡ err "replayed-nonce"
unfolding computes
declined_test = refl

walk_transitions-level_example :
    level "b" (keys_of first_bundle) [] ≤ level "b" (keys_of second_bundle) []
walk_transitions-level_example =
    walk_transitions-level bundles verified 30 (retirement ∷ []) at_first at_second "b" walk_test

trust_call-times_example :
    (s : TrustState) × ((trust_call "d0" verified
        (some retained)
        (read_call bundles (page_read page ∷ []))).0
      ≡ some s)
    × (5 ≤ s.state_time_revision)
    × (20 ≤ s.state_authority_time)
    × ((trust_call "d0" verified (some retained) (read_call bundles (page_read page ∷ []))).1
          ≡ ok tt
        → 5 < s.state_time_revision)
trust_call-times_example =
    trust_call-times "d0" verified retained (read_call bundles (page_read page ∷ []))

-- The authority does not hand out a bundle, and then does.
abbrev withheld : TrustCall
withheld = read_call (λ digest. err "trust-authority-unavailable") (page_read page ∷ [])

withheld_test :
    trust_call "d0" verified (some retained) withheld
    ≡ (some retained, err "trust-authority-unavailable")
unfolding computes
withheld_test = refl

abbrev both_bundles : String → Check TrustBundle
both_bundles digest = if str_eq digest "d0" then ok first_bundle else ok second_bundle

-- A state without its bundles is not reused: the reading begins at the pinned bundle.
bare_test :
    (read_current "d0" verified both_bundles
      (some (record retained { state_lineage = none }))
      (page_read page ∷ [])).1
    ≡ ok tt
unfolding computes
bare_test = refl

-- Without `accept` the lineage is not read, and nothing changes.
unavailable_test :
    accept_signed_document "d0" verified bundles
      (some retained)
      (page_read page ∷ [])
      "d0"
      (λ bundle. ok tt)
      none
    ≡ (some retained, err "trust-authority-unavailable")
unfolding computes
unavailable_test = refl

trust_calls-times_example :
    (s : TrustState) × (trust_calls "d0" verified
        (some retained)
        (withheld ∷ read_call bundles (page_read page ∷ []) ∷ declined ∷ [])
      ≡ some s)
    × (5 ≤ s.state_time_revision)
    × (20 ≤ s.state_authority_time)
trust_calls-times_example =
    trust_calls-times "d0" verified retained
      (withheld ∷ read_call bundles (page_read page ∷ []) ∷ declined ∷ [])
