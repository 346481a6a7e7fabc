-- ===== src/Manager/Trust/Lineage.antt =====
-- The life of a trust key along a lineage of src/manager/trust.ts: it enters active, and from then on
-- its level never falls.
use dsh_runtime_kit.Base.{
  after_bind, ok_inj, ℕ, ◌≤◌, ◌≡◌, subst, sym, ◌∙◌, ◌⊎◌, String, Bool, true, false, ◌||◌, List, [],
  ◌∷◌, ◌++◌, elem, none, Option-cases, Check, ok, Table, lookup, Bool-cases, inl, inr, arith,
}
use dsh_runtime_kit.Manager.Trust.{
  TrustBundle, TrustKey, TrustTransition, distinct_ids, keys_of, table_ids,
}
use dsh_runtime_kit.Manager.Trust.Edge.{
  edge_changes, edge_guard, edge_ids, exact_lists, expected_changes, validate_transition_edge,
}
use dsh_runtime_kit.Manager.Trust.Keeps.{
  expected_changes-Keeps, expected_changes-level, key_level-more, level_transitive,
}
use dsh_runtime_kit.Manager.Trust.Levels.{
  Keeps, elem-append, elem-distinct_ids, elem-sort_ids, elem-table_ids, key_level, level,
}
use dsh_runtime_kit.Manager.Trust.Walk.{Walk, next_in_line, walk_transition, walk_transitions}

apart : (a b : Bool) → (a || b) ≡ false → (a ≡ true) ⊎ (b ≡ true) → ⊥
apart true b e h = cc
apart false true e h = cc
apart false false e (inl h) = cc
apart false false e (inr h) = cc

-- A key that is in neither bundle keeps its level but for tombstones.
absent-level :
    (prior next : Table TrustKey) (tombs tombs' : List String) (id : String)
    → elem id (table_ids prior ++ table_ids next) ≡ false
    → Keeps tombs tombs'
    → key_level (lookup id prior) (elem id tombs) ≤ key_level (lookup id next) (elem id tombs')
absent-level prior next tombs tombs' id away kept = elim (Option-cases (lookup id prior)) [
  | inr (key, e) ↦ absurd (
      apart (elem id (table_ids prior)) (elem id (table_ids next))
        (sym (elem-append id (table_ids prior) (table_ids next)) ∙ away)
        (inl (elem-table_ids id prior key e)))
  | inl gone ↦ elim (Option-cases (lookup id next)) [
    | inr (key, e) ↦ absurd (
        apart (elem id (table_ids prior)) (elem id (table_ids next))
          (sym (elem-append id (table_ids prior) (table_ids next)) ∙ away)
          (inr (elem-table_ids id next key e)))
    | inl missing ↦
        rw (gone, missing) (key_level-more none (elem id tombs) (elem id tombs') (kept id))
  ]
]

pub edge_changes-level :
    (transition : TrustTransition) (prior next : TrustBundle) (tombs tombs' : List String)
    (id : String)
    → edge_changes transition prior next tombs ≡ ok tombs'
    → level id (keys_of prior) tombs ≤ level id (keys_of next) tombs'
unfolding edge_changes level
edge_changes-level transition prior next tombs tombs' id e =
    let (expected, found, later) =
      after_bind (expected_changes (keys_of prior) (keys_of next) (edge_ids prior next) tombs) _
        e in
    let (exact, checked, last) = after_bind (exact_lists transition prior expected.0) _ later in
    let same : expected.1 ≡ tombs' = ok_inj last in
    let ids : List String = table_ids (keys_of prior) ++ table_ids (keys_of next) in
    let among : elem id (edge_ids prior next) ≡ elem id ids =
      elem-sort_ids id (distinct_ids ids) ∙ elem-distinct_ids id ids in
    subst
      (λ ts.
        key_level (lookup id (keys_of prior)) (elem id tombs)
        ≤ key_level (lookup id (keys_of next)) (elem id ts))
      same
      (elim (Bool-cases (elem id ids)) [
        | inl here ↦
            expected_changes-level (keys_of prior) (keys_of next) (edge_ids prior next) tombs
              expected id found (among ∙ here)
        | inr away ↦ absent-level (keys_of prior) (keys_of next) tombs expected.1 id away (
            expected_changes-Keeps (keys_of prior) (keys_of next) (edge_ids prior next) tombs
              expected found)
      ])

module _ (read_bundle : String → Check TrustBundle)
    (verify : TrustTransition → TrustBundle → Check (Unit {0})) (authority_time : ℕ) where
  walk_transition-level :
      (transition : TrustTransition) (walk result : Walk) (id : String)
      → walk_transition read_bundle verify authority_time transition walk ≡ ok result
      → level id (keys_of walk.prior_bundle) walk.tombstones
        ≤ level id (keys_of result.prior_bundle) result.tombstones
  unfolding walk_transition validate_transition_edge
  walk_transition-level transition walk result id e =
      let (contiguous, in_line, e1) = after_bind (next_in_line transition walk) _ e in
      let (next, found, e2) = after_bind (read_bundle transition.next_bundle_digest) _ e1 in
      let (tombs, edge, e3) =
        after_bind
          (validate_transition_edge transition walk.prior_bundle next authority_time
            walk.tombstones)
          _ e2 in
      let (guarded, passed, changes) =
        after_bind (edge_guard transition walk.prior_bundle next authority_time) _ edge in
      let (signed, verified, last) = after_bind (verify transition walk.prior_bundle) _ e3 in
      subst
        (λ (w : Walk).
          level id (keys_of walk.prior_bundle) walk.tombstones
          ≤ level id (keys_of w.prior_bundle) w.tombstones)
        (ok_inj last)
        (edge_changes-level transition walk.prior_bundle next walk.tombstones tombs id changes)

  -- Along the transitions of a lineage that are accepted no key falls: one that was retired is not
  -- active again, one that was revoked is neither active nor retired again, and one that was removed
  -- does not come back, whatever the authority sends.
  pub walk_transitions-level :
      (transitions : List TrustTransition) (walk result : Walk) (id : String)
      → walk_transitions read_bundle verify authority_time transitions walk ≡ ok result
      → level id (keys_of walk.prior_bundle) walk.tombstones
        ≤ level id (keys_of result.prior_bundle) result.tombstones
  unfolding walk_transitions
  walk_transitions-level [] walk result id e =
      subst
        (λ (w : Walk).
          level id (keys_of walk.prior_bundle) walk.tombstones
          ≤ level id (keys_of w.prior_bundle) w.tombstones)
        (ok_inj e) (omega arith)
  walk_transitions-level (transition ∷ transitions) walk result id e =
      let (next, stepped, rest) =
        after_bind (walk_transition read_bundle verify authority_time transition walk) _ e in
      level_transitive _ _ _ (walk_transition-level transition walk next id stepped)
        (walk_transitions-level transitions next result id rest)
