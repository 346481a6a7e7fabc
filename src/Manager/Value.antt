-- ===== src/Manager/Value.antt =====
-- The plain data that a request carries, and the field validators of src/manager/contracts.ts.
use dsh_runtime_kit.Base.{
  ℕ, ◌+◌, ◌*◌, ◌-◌, ◌^◌, String, Bool, false, not, ◌&&◌, ◌||◌, List, [], ◌∷◌, ◌++◌, ltb, leb, ◌==◌,
  str_eq, if◌then◌else◌, elem, any, all, length, Check, ok, err, ◌>>=◌, ◌>>◌, require, codes,
  is_digit, is_lower, is_hex, after_prefix, is_run,
}
use Prim.Native.String.{len}
use Prim.Native.String

-- A JavaScript value that holds data only; `num` keeps a number's canonical text.
mutual
  -- The fields of an object, in the order of their insertion.
  pub data Fields : Type 0 where
    field : String → Value → Fields → Fields
    end : Fields

  pub data Value : Type 0 where
    obj : Fields → Value
    str : String → Value
    arr : Items → Value
    num : String → Value
    bool : Bool → Value
    null : Value
    undefined : Value

  -- The items of an array.
  pub data Items : Type 0 where
    cons : Value → Items → Items
    nil : Items

-- `record[key]`
unfoldable pub get : String → Fields → Value
get k end = undefined
get k (field j v fs) = if str_eq j k then v else get k fs

-- `Object.keys(record)`
unfoldable pub keys : Fields → List String
keys end = []
keys (field k v fs) = k ∷ keys fs

-- `value?.key`
unfoldable pub get? : String → Value → Value
unfolding get
get? k (obj fs) = get k fs
get? k _ = undefined

unfoldable pub plain_record : Value → Check Fields
plain_record (obj fs) = ok fs
plain_record _ = err "schema-invalid"

unfoldable pub exact_keys : Fields → List String → List String → Check (Unit {0})
unfolding keys
exact_keys fs required optional = do
  require (all (λ k. elem k (required ++ optional)) (keys fs)) "unknown-field"
  require (all (λ k. elem k (keys fs)) required) "schema-invalid"

-- The test of `text`, on a text.
unfoldable pub is_text : ℕ → String → Bool
is_text maximum s = ltb 0 (len s) && leb (len s) maximum && not (any (λ c. c == 0) (codes s))

unfoldable pub text : ℕ → Value → Check String
unfolding is_text
text maximum (str s) = if is_text maximum s then ok s else err "schema-invalid"
text maximum _ = err "schema-invalid"

-- DIGEST_PATTERN
unfoldable pub is_digest : String → Bool
unfolding after_prefix is_run is_hex
is_digest s = after_prefix (codes "sha256:") (codes s) (is_run 64 is_hex)

unfoldable pub digest : Value → Check String
unfolding is_digest
digest (str s) = if is_digest s then ok s else err "digest-invalid"
digest _ = err "digest-invalid"

-- `BigInt(text)` of a text of decimal digits.
unfoldable pub decimal : ℕ → List ℕ → ℕ
decimal n [] = n
decimal n (c ∷ s) = decimal (n * 10 + (c - b'0')) s

-- UINT64_PATTERN
unfoldable pub is_uint64_text : List ℕ → Bool
unfolding is_digit
is_uint64_text [] = false
is_uint64_text (c ∷ s) =
    is_digit c && all is_digit s && leb (length s) 19 && (not (c == b'0') || length s == 0)

abbrev pub uint64_mod : ℕ
uint64_mod = 2 ^ 64

unfoldable pub is_uint64 : String → Bool
unfolding decimal is_uint64_text
is_uint64 s = is_uint64_text (codes s) && ltb (decimal 0 (codes s)) uint64_mod

unfoldable pub uint64 : Value → Check String
unfolding is_uint64
uint64 (str s) = if is_uint64 s then ok s else err "schema-invalid"
uint64 _ = err "schema-invalid"

-- ID_PATTERN, after its first character.
unfoldable pub is_id_part : ℕ → Bool
unfolding is_lower is_digit
is_id_part c = is_lower c || is_digit c || c == b'.' || c == b'_' || c == b'-'

unfoldable pub is_id_text : List ℕ → Bool
unfolding is_lower is_digit is_id_part
is_id_text [] = false
is_id_text (c ∷ s) = (is_lower c || is_digit c) && all is_id_part s && leb (length s) 127

pub record Identity : Type 0 where
  pub deployment_id : String
  pub profile_id : String
  pub generation_id : String
  pub instance_id : String
  pub namespace : String

unfoldable pub id_field : String → Fields → Check String
unfolding is_id_text text get
id_field k fs = do s ← text 128 (get k fs); require (is_id_text (codes s)) "schema-invalid"; ok s

infixr 65 ◌+++◌
abbrev pub ◌+++◌ : String → String → String
s +++ t = String.◌++◌ s t

abbrev pub canonical_namespace : String → String → String → String → String
canonical_namespace d p g i = d +++ "/" +++ p +++ "/" +++ g +++ "/" +++ i

unfoldable pub is_same_text : Value → String → Bool
is_same_text (str s) t = str_eq s t
is_same_text _ t = false

unfoldable pub identity : Value → Check Identity
unfolding plain_record exact_keys id_field get is_same_text
identity value = do
  fs ← plain_record value
  exact_keys fs ("deploymentId" ∷ "profileId" ∷ "generationId" ∷ "instanceId" ∷ "namespace" ∷ []) []
  d ← id_field "deploymentId" fs
  p ← id_field "profileId" fs
  g ← id_field "generationId" fs
  i ← id_field "instanceId" fs
  let namespace = canonical_namespace d p g i
  require (is_same_text (get "namespace" fs) namespace) "schema-invalid"
  ok (record {
    deployment_id = d;
    profile_id = p;
    generation_id = g;
    instance_id = i;
    namespace = namespace;
  })

-- The tests of `identity`, on an identity that was read.
unfoldable pub is_id : String → Bool
unfolding is_id_text is_text
is_id s = is_text 128 s && is_id_text (codes s)

unfoldable pub is_identity : Identity → Bool
unfolding is_id
is_identity i =
    is_id i.deployment_id
    && is_id i.profile_id
    && is_id i.generation_id
    && is_id i.instance_id
    && str_eq i.namespace
        (canonical_namespace i.deployment_id i.profile_id i.generation_id i.instance_id)

abbrev pub identity_texts : Identity → List String
identity_texts i =
    i.deployment_id ∷ i.profile_id ∷ i.generation_id ∷ i.instance_id ∷ i.namespace ∷ []

-- `canonicalIdentity` of src/manager/lifecycle.ts.
unfoldable pub canonical_identity : Identity → String
canonical_identity i =
    i.deployment_id +++ "\0" +++ i.profile_id +++ "\0" +++ i.generation_id +++ "\0"
    +++ i.instance_id +++ "\0" +++ i.namespace

-- `sameIdentity`, on identities that were read.
unfoldable pub same_identity : Identity → Identity → Bool
same_identity a b =
    str_eq a.deployment_id b.deployment_id
    && str_eq a.profile_id b.profile_id
    && str_eq a.generation_id b.generation_id
    && str_eq a.instance_id b.instance_id
    && str_eq a.namespace b.namespace
