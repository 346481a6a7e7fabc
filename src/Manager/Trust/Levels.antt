-- ===== src/Manager/Trust/Levels.antt =====
-- The life of a trust key in src/manager/trust.ts: its levels, the ids of the keys, and lemmas on
-- checks that passed.
use dsh_runtime_kit.Base.{
  ℕ, ◌≤◌, ◌≡◌, refl, ap, ◌∙◌, String, Bool, true, ◌||◌, List, [], ◌∷◌, ◌++◌, str_eq, if◌then◌else◌,
  elem, Option, none, some, Check, ok, Table, lookup, arith, eq_iff,
}
use dsh_runtime_kit.Manager.Trust.{
  KeyState, KeyStateChange, TrustKey, active, distinct_ids, may_become, place_id, retired, revoked,
  same_key_state, sort_ids, table_ids,
}

-- The level of a state, of a key that is there, and of one that is not.
abbrev pub rank : KeyState → ℕ
rank active = 1
rank retired = 2
rank revoked = 3

abbrev pub key_level : Option TrustKey → Bool → ℕ
key_level none removed = if removed then 4 else 0
key_level (some key) removed = rank key.state

-- A key's level under the keys of a bundle and the tombstones: 0 where it never was, 1 to 3 where it
-- is active, retired or revoked, and 4 where it was removed.
unfoldable pub level : String → Table TrustKey → List String → ℕ
level id keys tombstones = key_level (lookup id keys) (elem id tombstones)

pub elem-append :
    (id : String) (as' bs : List String) → elem id (as' ++ bs) ≡ (elem id as' || elem id bs)
elem-append id [] bs = refl
elem-append id (a ∷ as') bs = ground (arith, elem-append id as' bs)

elem-place_id :
    (id first : String) (ids : List String)
    → elem id (place_id first ids) ≡ (str_eq id first || elem id ids)
unfolding place_id
elem-place_id id first [] = refl
elem-place_id id first (a ∷ ids) = ground (arith, elem-place_id id first ids)

pub elem-sort_ids : (id : String) (ids : List String) → elem id (sort_ids ids) ≡ elem id ids
unfolding sort_ids
elem-sort_ids id [] = refl
elem-sort_ids id (a ∷ ids) =
    elem-place_id id a (sort_ids ids) ∙ ap (λ b. str_eq id a || b) (elem-sort_ids id ids)

pub elem-distinct_ids : (id : String) (ids : List String) → elem id (distinct_ids ids) ≡ elem id ids
unfolding distinct_ids
elem-distinct_ids id [] = refl
elem-distinct_ids id (a ∷ ids) =
    ground (arith, elem-distinct_ids id ids, elem-distinct_ids a ids, eq_iff id a)

-- A key that is found is among the ids.
pub elem-table_ids :
    (id : String) (keys : Table TrustKey) (key : TrustKey)
    → lookup id keys ≡ some key
    → elem id (table_ids keys) ≡ true
unfolding table_ids lookup
elem-table_ids id [] key e = cc
elem-table_ids id ((stored, k) ∷ keys) key e =
    ground (arith, elem-table_ids id keys key, eq_iff id stored, eq_iff stored id)

-- Tombstones are only added.
abbrev pub Keeps : List String → List String → Type 0
Keeps tombs tombs' = (id : String) → elem id tombs ≡ true → elem id tombs' ≡ true

-- A test that a chain passed, and what the chain went on to.
pub tombstones_of :
    (cs : List KeyStateChange) (tombs : List String) (r : List KeyStateChange × List String)
    → ◌≡◌ {A = Check (List KeyStateChange × List String)} (ok (cs, tombs)) (ok r)
    → tombs ≡ r.1
tombstones_of cs tombs r e = cc

pub rank-same : (s t : KeyState) → same_key_state s t ≡ true → rank s ≤ rank t
unfolding same_key_state
rank-same active active e = omega arith
rank-same active retired e = cc
rank-same active revoked e = cc
rank-same retired active e = cc
rank-same retired retired e = omega arith
rank-same retired revoked e = cc
rank-same revoked active e = cc
rank-same revoked retired e = cc
rank-same revoked revoked e = omega arith

pub rank-may_become : (s t : KeyState) → may_become s t ≡ true → rank s ≤ rank t
unfolding may_become
rank-may_become active retired e = omega arith
rank-may_become active revoked e = omega arith
rank-may_become retired revoked e = omega arith
rank-may_become active active e = cc
rank-may_become retired active e = cc
rank-may_become retired retired e = cc
rank-may_become revoked active e = cc
rank-may_become revoked retired e = cc
rank-may_become revoked revoked e = cc

pub rank_small : (s : KeyState) → rank s ≤ 4
rank_small active = omega arith
rank_small retired = omega arith
rank_small revoked = omega arith
