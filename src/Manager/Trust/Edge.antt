-- ===== src/Manager/Trust/Edge.antt =====
-- validateTransitionEdge of src/manager/trust.ts.
use dsh_runtime_kit.Base.{
  ℕ, String, Bool, true, false, not, ◌&&◌, List, [], ◌∷◌, ◌++◌, map, leb, str_eq, if◌then◌else◌,
  elem, Option, none, some, Check, ok, err, ◌>>=◌, ◌>>◌, require, Table, lookup,
}
use dsh_runtime_kit.Manager.Trust.{
  KeyState, KeyStateChange, TrustBundle, TrustKey, TrustTransition, active, assertion, distinct_ids,
  key_table, keys_of, may_become, retired, revoked, same_ids, same_key_state, same_option_state,
  same_use, sort_ids, table_ids, trust_transition,
}

abbrev pub change : String → Option KeyState → Option KeyState → KeyStateChange
change id before after = record {
  key_id = id;
  prior_state = before;
  next_state = after;
  in_order = true;
}

-- The end of that body, for a key that stands in both bundles.
unfoldable pub state_change :
    String → List String → KeyState → KeyState → Check (List KeyStateChange × List String)
unfolding may_become same_key_state
state_change id tombstones before after =
    if same_key_state before after
    then ok ([], tombstones)
    else (require (may_become before after) "lineage-invalid"
        >> ok (change id (some before) (some after) ∷ [], tombstones))

-- The body of the loop over the key ids: the changes that it expects, and the tombstones.
unfoldable pub key_change :
    String
    → List String
    → Option TrustKey
    → Option TrustKey
    → Check (List KeyStateChange × List String)
unfolding state_change same_key_state same_use
key_change id tombstones none none = err "type-error"
key_change id tombstones none (some after) = do
  require (not (elem id tombstones) && same_key_state after.state active) "lineage-invalid"
  ok (change id none (some active) ∷ [], tombstones)
key_change id tombstones (some before) none = do
  require (same_key_state before.state revoked) "lineage-invalid"
  ok (change id (some revoked) none ∷ [], id ∷ tombstones)
key_change id tombstones (some before) (some after) = do
  require
      (str_eq before.algorithm after.algorithm
        && (same_use before.key_use after.key_use
            && str_eq before.raw_public_key_hex after.raw_public_key_hex))
      "lineage-invalid"
  state_change id tombstones before.state after.state

unfoldable pub expected_changes :
    Table TrustKey
    → Table TrustKey
    → List String
    → List String
    → Check (List KeyStateChange × List String)
unfolding key_change
expected_changes prior next [] tombstones = ok ([], tombstones)
expected_changes prior next (id ∷ ids) tombstones = do
  first ← key_change id tombstones (lookup id prior) (lookup id next)
  rest ← expected_changes prior next ids first.1
  ok (first.0 ++ rest.0, rest.1)

unfoldable pub same_changes : List KeyStateChange → List KeyStateChange → Bool
unfolding same_option_state
same_changes [] [] = true
same_changes (a ∷ as') (b ∷ bs) =
    str_eq a.key_id b.key_id
    && (same_option_state a.prior_state b.prior_state
        && (same_option_state a.next_state b.next_state && (a.in_order && same_changes as' bs)))
same_changes as' bs = false

-- The key ids whose retirement must name its overlap.
unfoldable pub required_overlaps : Table TrustKey → List KeyStateChange → List String
unfolding same_option_state same_use
required_overlaps prior [] = []
required_overlaps prior (c ∷ cs) =
    let rest = required_overlaps prior cs in
    if same_option_state c.prior_state (some active)
      && (same_option_state c.next_state (some retired) && (elim (lookup c.key_id prior) [
        | none ↦ false
        | some key ↦ same_use key.key_use assertion
      ]))
    then c.key_id ∷ rest
    else rest

unfoldable pub is_active_signer : Option TrustKey → Bool
unfolding same_use same_key_state
is_active_signer none = false
is_active_signer (some key) =
    same_use key.key_use trust_transition && same_key_state key.state active

abbrev pub edge_ids : TrustBundle → TrustBundle → List String
edge_ids prior next =
    sort_ids (distinct_ids (table_ids (keys_of prior) ++ table_ids (keys_of next)))

-- The end of `validateTransitionEdge`: the changes and the overlaps are exactly the expected ones.
unfoldable pub exact_lists : TrustTransition → TrustBundle → List KeyStateChange → Check (Unit {0})
unfolding key_table sort_ids same_changes same_ids required_overlaps
exact_lists transition prior expected = do
  let listed = map (λ (c : KeyStateChange). c.key_id) transition.key_state_changes
  require (same_ids listed (sort_ids listed) && same_changes transition.key_state_changes expected)
      "lineage-invalid"
  require
      (same_ids transition.overlap_ids (sort_ids transition.overlap_ids)
        && same_ids transition.overlap_ids (required_overlaps (keys_of prior) expected))
      "lineage-invalid"

-- Its middle: the expected changes by key.
unfoldable pub edge_changes :
    TrustTransition → TrustBundle → TrustBundle → List String → Check (List String)
unfolding key_table table_ids distinct_ids sort_ids expected_changes exact_lists
edge_changes transition prior next tombstones = do
  expected ← expected_changes (keys_of prior) (keys_of next) (edge_ids prior next) tombstones
  exact ← exact_lists transition prior expected.0
  ok expected.1

-- Its beginning: identities, the time and the signer.
unfoldable pub edge_guard : TrustTransition → TrustBundle → TrustBundle → ℕ → Check (Unit {0})
unfolding key_table is_active_signer
edge_guard transition prior next authority_time = do
  require
      (str_eq prior.namespace next.namespace
        && (str_eq transition.prior_bundle_digest prior.bundle_digest
            && str_eq transition.next_bundle_digest next.bundle_digest))
      "lineage-invalid"
  require (leb transition.effective_at authority_time) "lineage-invalid"
  require (is_active_signer (lookup transition.signer_key_id (keys_of prior)))
      "signature-trust-unapproved"

-- `validateTransitionEdge`; it gives the tombstones with those that it added.
unfoldable pub validate_transition_edge :
    TrustTransition → TrustBundle → TrustBundle → ℕ → List String → Check (List String)
unfolding edge_guard edge_changes
validate_transition_edge transition prior next authority_time tombstones = do
  guarded ← edge_guard transition prior next authority_time
  edge_changes transition prior next tombstones
