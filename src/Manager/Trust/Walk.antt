-- ===== src/Manager/Trust/Walk.antt =====
-- The loop of refreshCurrent in src/manager/trust.ts over the transitions of a page.
use dsh_runtime_kit.Base.{
  ℕ, suc, String, List, [], ◌∷◌, ◌==◌, str_eq, Option, some, Check, ok, ◌>>=◌, ◌>>◌, require, Table,
  insert,
}
use dsh_runtime_kit.Manager.Trust.{TrustBundle, TrustTransition}
use dsh_runtime_kit.Manager.Trust.Edge.{validate_transition_edge}

-- What the loop over the transitions of `refreshCurrent` carries. `tombstones` holds the retained and
-- the staged ones; `bundles` the staged bundles.
pub record Walk : Type 0 where
  pub expected_bundle : String
  pub prior_bundle : TrustBundle
  pub last_sequence : ℕ
  pub last_transition_digest : Option String
  pub transition_count : ℕ
  pub bundles : Table TrustBundle
  pub tombstones : List String

unfoldable pub next_in_line : TrustTransition → Walk → Check (Unit {0})
next_in_line transition walk = do
  require (transition.sequence == suc walk.last_sequence) "lineage-invalid"
  require (str_eq transition.prior_bundle_digest walk.expected_bundle) "lineage-invalid"

-- The authority's bundles and the signatures are parameters: `read_bundle` is `readBundle` of a digest
-- under the page's head and observation, and `verify` is `verifyProtocolSignature` of a transition.
module _ (read_bundle : String → Check TrustBundle)
    (verify : TrustTransition → TrustBundle → Check (Unit {0})) (authority_time : ℕ) where
  unfoldable pub walk_transition : TrustTransition → Walk → Check Walk
  unfolding validate_transition_edge next_in_line
  walk_transition transition walk = do
    contiguous ← next_in_line transition walk
    next ← read_bundle transition.next_bundle_digest
    tombstones ←
        validate_transition_edge transition walk.prior_bundle next authority_time walk.tombstones
    signed ← verify transition walk.prior_bundle
    ok (record {
      expected_bundle = transition.next_bundle_digest;
      prior_bundle = next;
      last_sequence = transition.sequence;
      last_transition_digest = some transition.transition_digest;
      transition_count = suc walk.transition_count;
      bundles = insert transition.next_bundle_digest next walk.bundles;
      tombstones = tombstones;
    })

  unfoldable pub walk_transitions : List TrustTransition → Walk → Check Walk
  unfolding walk_transition
  walk_transitions [] walk = ok walk
  walk_transitions (transition ∷ transitions) walk = do
    next ← walk_transition transition walk
    walk_transitions transitions next
