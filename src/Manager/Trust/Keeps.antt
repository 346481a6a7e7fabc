-- ===== src/Manager/Trust/Keeps.antt =====
-- The loop of validateTransitionEdge in src/manager/trust.ts over the key ids lowers no level.
use dsh_runtime_kit.Base.{
  after_bind, after_require, ℕ, ◌≤◌, ◌≡◌, refl, subst, ap, sym, ◌∙◌, String, Bool, true, false,
  List, [], ◌∷◌, str_eq, elem, Option, none, some, ok, Table, lookup, Bool-cases, inl, inr, arith,
  eq_iff, eq_refl,
}
use dsh_runtime_kit.Manager.Trust.{KeyState, KeyStateChange, TrustKey, may_become, same_key_state}
use dsh_runtime_kit.Manager.Trust.Edge.{change, expected_changes, key_change, state_change}
use dsh_runtime_kit.Manager.Trust.Levels.{
  Keeps, key_level, rank, rank-may_become, rank-same, rank_small, tombstones_of,
}
use dsh_runtime_kit.Manager.Trust.Pages.{equal}

state_change-Keeps :
    (id : String) (tombs : List String) (before after : KeyState)
    (r : List KeyStateChange × List String)
    → state_change id tombs before after ≡ ok r
    → (Keeps tombs r.1) × (rank before ≤ rank after)
unfolding state_change
state_change-Keeps id tombs before after r e = elim (Bool-cases (same_key_state before after)) [
  | inl equal ↦
      let same = tombstones_of [] tombs r (rw equal at e) in
      ((λ other held. ap (elem other) (sym same) ∙ held), rank-same before after equal)
  | inr differ ↦
      let (allowed, last) =
        after_require (may_become before after) "lineage-invalid"
          (ok (change id (some before) (some after) ∷ [], tombs)) (rw differ at e) in
      let same = tombstones_of _ tombs r last in
      ((λ other held. ap (elem other) (sym same) ∙ held), rank-may_become before after allowed)
]

key_change-Keeps :
    (id : String) (tombs : List String) (before after : Option TrustKey)
    (r : List KeyStateChange × List String)
    → key_change id tombs before after ≡ ok r
    → (Keeps tombs r.1) × (key_level before (elem id tombs) ≤ key_level after (elem id r.1))
unfolding key_change
key_change-Keeps id tombs none none r e = cc
key_change-Keeps id tombs none (some after) r e =
    let (test, rest) = after_require _ _ _ e in
    let same = tombstones_of _ tombs r rest in
    let absent : elem id tombs ≡ false = ground arith in
    ((λ other held. ap (elem other) (sym same) ∙ held), rw absent (omega arith))
key_change-Keeps id tombs (some before) none r e =
    let (test, rest) = after_require _ _ _ e in
    let same = tombstones_of _ (id ∷ tombs) r rest in
    let here : elem id r.1 ≡ true = ap (elem id) (sym same) ∙ ground (arith, eq_refl id) in
    ((λ other held. ap (elem other) (sym same) ∙ ground arith), rw here (rank_small before.state))
key_change-Keeps id tombs (some before) (some after) r e =
    let (material, rest) = after_require _ _ _ e in
    state_change-Keeps id tombs before.state after.state r rest

pub expected_changes-Keeps :
    (prior next : Table TrustKey) (ids tombs : List String) (r : List KeyStateChange × List String)
    → expected_changes prior next ids tombs ≡ ok r
    → Keeps tombs r.1
unfolding expected_changes
expected_changes-Keeps prior next [] tombs r e =
    λ other held. ap (elem other) (sym (tombstones_of _ tombs r e)) ∙ held
expected_changes-Keeps prior next (id ∷ ids) tombs r e =
    let (first, found, later) =
      after_bind (key_change id tombs (lookup id prior) (lookup id next)) _ e in
    let (rest, followed, last) = after_bind (expected_changes prior next ids first.1) _ later in
    λ other held.
      ap (elem other) (sym (tombstones_of _ rest.1 r last))
      ∙ expected_changes-Keeps prior next ids first.1 rest followed other
          ((key_change-Keeps id tombs (lookup id prior) (lookup id next) first found).0 other held)

-- More tombstones do not lower a level.
pub key_level-more :
    (key : Option TrustKey) (a b : Bool) → (a ≡ true → b ≡ true) → key_level key a ≤ key_level key b
key_level-more (some key) a b h = omega arith
key_level-more none false b h = omega arith
key_level-more none true b h = rw (h refl) (omega arith)

pub level_transitive : (k m n : ℕ) → k ≤ m → m ≤ n → k ≤ n
level_transitive k m n p q = omega arith

-- A key among the ids does not fall.
pub expected_changes-level :
    (prior next : Table TrustKey) (ids tombs : List String) (r : List KeyStateChange × List String)
    (id : String)
    → expected_changes prior next ids tombs ≡ ok r
    → elem id ids ≡ true
    → key_level (lookup id prior) (elem id tombs) ≤ key_level (lookup id next) (elem id r.1)
unfolding expected_changes
expected_changes-level prior next [] tombs r id e here = cc
expected_changes-level prior next (first_id ∷ ids) tombs r id e here =
    let (first, found, later) =
      after_bind (key_change first_id tombs (lookup first_id prior) (lookup first_id next)) _ e in
    let (rest, followed, last) = after_bind (expected_changes prior next ids first.1) _ later in
    let same = tombstones_of _ rest.1 r last in
    let kept =
      key_change-Keeps first_id tombs (lookup first_id prior) (lookup first_id next) first found in
    let more = expected_changes-Keeps prior next ids first.1 rest followed in
    elim (Bool-cases (str_eq id first_id)) [
      | inl equal ↦
          let p : first_id ≡ id = sym ((eq_iff id first_id).0 equal) in
          subst
            (λ x.
              key_level (lookup x prior) (elem x tombs) ≤ key_level (lookup x next) (elem x r.1))
            p
            (level_transitive _ _ _ kept.1 (
              key_level-more (lookup first_id next) (elem first_id first.1) (elem first_id r.1)
                (λ held. ap (elem first_id) (sym same) ∙ more first_id held)))
      | inr other ↦
          let later_id : elem id ids ≡ true = ground arith in
          level_transitive _ _ _
            (key_level-more (lookup id prior) (elem id tombs) (elem id first.1) (kept.0 id))
            (subst
              (λ ts.
                key_level (lookup id prior) (elem id first.1)
                ≤ key_level (lookup id next) (elem id ts))
              same (expected_changes-level prior next ids first.1 rest id followed later_id))
    ]
