-- ===== src/Manager/Trust/Refresh.antt =====
-- refreshCurrent of src/manager/trust.ts, one reply of the authority a round.
use dsh_runtime_kit.Base.{
  ◌+◌, String, Bool, false, ◌&&◌, ◌||◌, List, [], ◌∷◌, ◌==◌, str_eq, if◌then◌else◌, Option, none,
  some, Check, ok, err, ◌>>=◌, ◌>>◌, require, lookup, insert,
}
use dsh_runtime_kit.Manager.Trust.{TrustBundle, TrustTransition}
use dsh_runtime_kit.Manager.Trust.Pages.{
  LineageHead, LineagePage, LineageReply, Progress, TrustState, equal, from_genesis, next_cursor,
  observed, page_bounds, page_read, read_failed, same_option, started,
}
use dsh_runtime_kit.Manager.Trust.Walk.{walk_transitions}

-- The checks behind the loop: the transitions reach the head.
unfoldable pub reaches_head : LineageHead → Progress → Check (Unit {0})
reaches_head head progress = do
  require (head.head_sequence == progress.starting_sequence + progress.count) "lineage-invalid"
  require
      (progress.count == 0 || (elim head.head_transition_digest [
        | none ↦ false
        | some named ↦ (elim progress.last_digest [ none ↦ false | some d ↦ str_eq named d ])
      ]))
      "lineage-invalid"
  require (str_eq progress.expected head.head_bundle_digest) "lineage-invalid"

-- What is retained from now on.
abbrev pub retained_from : LineagePage → LineageHead → Progress → TrustState
retained_from first head progress = record {
  state_time_revision = first.time_revision;
  state_authority_time = first.authority_time;
  state_observation = first.observation_digest;
  state_lineage = some (record {
    state_head = head;
    state_bundles = progress.known_bundles;
    state_tombstones = progress.known_tombstones;
  });
}

unfoldable pub settle_lineage : LineagePage → LineageHead → Progress → Check TrustState
unfolding reaches_head
settle_lineage first head progress = do
  reached ← reaches_head head progress
  ok (retained_from first head progress)

-- Whether a failed read starts the loop again from the pinned bundle.
unfoldable pub starts_again : Progress → String → Bool
starts_again progress code = elim progress.first_response [
  | some first ↦ false
  | none ↦ progress.reuse_cached && str_eq code "stale-expected-head"
]

module _ (genesis : String) (read_bundle : String → Check TrustBundle)
    (verify : TrustTransition → TrustBundle → Check (Unit {0})) where
  -- `priorBundle`, read where neither the retained nor the staged bundles have it.
  unfoldable pub prior_of : Progress → Check TrustBundle
  prior_of progress = elim progress.prior [
    | some bundle ↦ ok bundle
    | none ↦ elim (lookup progress.expected progress.known_bundles) [
      | some bundle ↦ ok bundle
      | none ↦ read_bundle progress.expected
    ]
  ]

  unfoldable pub walk_page : LineagePage → LineagePage → Progress → Check Progress
  unfolding prior_of
  walk_page first page progress = do
    prior ← prior_of progress
    walked ← walk_transitions read_bundle verify first.authority_time page.transitions (record {
      expected_bundle = progress.expected;
      prior_bundle = prior;
      last_sequence = progress.last;
      last_transition_digest = progress.last_digest;
      transition_count = progress.count;
      bundles = insert progress.expected prior progress.known_bundles;
      tombstones = progress.known_tombstones;
    })
    ok (record progress {
      first_response = some first;
      expected = walked.expected_bundle;
      prior = some walked.prior_bundle;
      last = walked.last_sequence;
      last_digest = walked.last_transition_digest;
      count = walked.transition_count;
      known_bundles = walked.bundles;
      known_tombstones = walked.tombstones;
    })

  -- The loop, one reply a round.
  unfoldable pub lineage_loop : Option TrustState → List LineageReply → Progress → Check TrustState
  unfolding same_option starts_again observed page_bounds next_cursor walk_page settle_lineage
      from_genesis
  lineage_loop retained [] progress = err "no-reply"
  lineage_loop retained (read_failed code ∷ replies) progress =
      let again = lineage_loop retained replies (from_genesis genesis) in
      if starts_again progress code then again else err code
  lineage_loop retained (page_read page ∷ replies) progress = do
    first ← observed genesis retained progress.first_response page
    bounded ← page_bounds progress.after_sequence page
    walked ← walk_page first page progress
    if page.complete
        then (require (equal page.next_after_sequence none) "lineage-invalid"
            >> settle_lineage first first.page_head walked)
        else (next_cursor progress.after_sequence page.next_after_sequence >>= λ next.
            lineage_loop retained replies (record walked { after_sequence = next }))

  -- `refreshCurrent`: what is retained from now on.
  unfoldable pub refresh_current : Option TrustState → List LineageReply → Check TrustState
  unfolding lineage_loop started
  refresh_current none replies = lineage_loop none replies (started genesis none)
  refresh_current (some retained) replies =
      lineage_loop (some retained) replies (started genesis retained.state_lineage)
