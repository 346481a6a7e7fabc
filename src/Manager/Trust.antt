-- ===== src/Manager/Trust.antt =====
-- Documents of src/manager/trust.ts that were read: bundles of keys, and transitions between them. An
-- instant is the number that `Date.parse` gives, and a sequence number is the number that its text
-- denotes.
pub mod CallTimes
pub mod Calls
pub mod Edge
pub mod Keeps
pub mod Levels
pub mod Lineage
pub mod Pages
pub mod Refresh
pub mod Times
pub mod Walk
pub mod Witnesses
use dsh_runtime_kit.Base.{
  ℕ, suc, String, Bool, true, false, not, ◌&&◌, List, [], ◌∷◌, ◌++◌, map, leb, ◌==◌, str_eq,
  if◌then◌else◌, elem, Option, none, some, Check, ok, err, ◌>>=◌, ◌>>◌, require, Table, lookup,
  insert,
}
use Prim.Native.Nat.{Ordering}
use Prim.Native.String.{compare}

pub data KeyUse : Type 0 where
  seal : KeyUse
  assertion : KeyUse
  trust_transition : KeyUse

pub data KeyState : Type 0 where
  active : KeyState
  retired : KeyState
  revoked : KeyState

pub record TrustKey : Type 0 where
  pub key_id : String
  pub algorithm : String
  pub key_use : KeyUse
  pub raw_public_key_hex : String
  pub state : KeyState

pub record TrustBundle : Type 0 where
  pub bundle_digest : String
  pub namespace : String
  pub keys : List TrustKey

-- One entry of `keyStateChanges`. The prior state `none` is null, the next state `none` is "removed".
-- `in_order` says that its properties stand in the order keyId, priorState, nextState, which the
-- comparison of JSON texts sees.
pub record KeyStateChange : Type 0 where
  pub key_id : String
  pub prior_state : Option KeyState
  pub next_state : Option KeyState
  pub in_order : Bool

pub record TrustTransition : Type 0 where
  pub transition_digest : String
  pub prior_bundle_digest : String
  pub next_bundle_digest : String
  pub sequence : ℕ
  pub effective_at : ℕ
  pub key_state_changes : List KeyStateChange
  -- The key ids of `retirementOverlapEnds`.
  pub overlap_ids : List String
  pub signer_key_id : String

unfoldable pub same_use : KeyUse → KeyUse → Bool
same_use seal seal = true
same_use assertion assertion = true
same_use trust_transition trust_transition = true
same_use u v = false

unfoldable pub same_key_state : KeyState → KeyState → Bool
same_key_state active active = true
same_key_state retired retired = true
same_key_state revoked revoked = true
same_key_state s t = false

unfoldable pub same_option_state : Option KeyState → Option KeyState → Bool
unfolding same_key_state
same_option_state none none = true
same_option_state (some s) (some t) = same_key_state s t
same_option_state a b = false

-- `new Map(keys.map(key => [key.keyId, key]))`
unfoldable pub key_table : List TrustKey → Table TrustKey → Table TrustKey
key_table [] table = table
key_table (key ∷ keys) table = key_table keys (insert key.key_id key table)

abbrev pub keys_of : TrustBundle → Table TrustKey
keys_of bundle = key_table bundle.keys []

unfoldable pub table_ids : Table TrustKey → List String
table_ids [] = []
table_ids ((id, key) ∷ rest) = id ∷ table_ids rest

-- `new Set(ids)`
unfoldable pub distinct_ids : List String → List String
distinct_ids [] = []
distinct_ids (id ∷ ids) = let rest = distinct_ids ids in if elem id rest then rest else id ∷ rest

unfoldable pub place_id : String → List String → List String
place_id id [] = id ∷ []
place_id id (first ∷ ids) =
    let rest = place_id id ids in
    elim (compare id first) [ Ordering.gt ↦ first ∷ rest | _ ↦ id ∷ first ∷ ids ]

-- `ids.sort()`
unfoldable pub sort_ids : List String → List String
unfolding place_id
sort_ids [] = []
sort_ids (id ∷ ids) = place_id id (sort_ids ids)

unfoldable pub same_ids : List String → List String → Bool
same_ids [] [] = true
same_ids (a ∷ as') (b ∷ bs) = str_eq a b && same_ids as' bs
same_ids as' bs = false

-- `allowed.includes(after.state)`
unfoldable pub may_become : KeyState → KeyState → Bool
may_become active retired = true
may_become active revoked = true
may_become retired revoked = true
may_become s t = false
