-- ===== src/Composition/Json.antt =====
-- canonicalJson and assertCanonicalByteLimit of src/composition/index.ts. A text is the list of its
-- UTF-16 code units. The source's `depth` is 65 less `room`, the levels left: a value at no room
-- stands deeper than MAX_JSON_DEPTH. The counters are passed along.
pub mod Digests
pub mod Joins
pub mod Keys
pub mod Limits
pub mod Measures
pub mod Outcomes
pub mod Parser
pub mod Readable
pub mod Reordered
pub mod Literals
pub mod Loops
pub mod RoundTrip
pub mod Shrinks
pub mod Sorted
pub mod Termination
pub mod Steps
pub mod Tokens
pub mod Witnesses
use dsh_runtime_kit.Base.{
  ℕ, zero, suc, ◌+◌, ◌/◌, ◌%◌, String, Bool, true, false, not, ◌&&◌, ◌||◌, List, [], ◌∷◌, ◌++◌, ltb,
  leb, ◌==◌, if◌then◌else◌, length, Check, ok, err, ◌>>=◌, ◌>>◌, require, codes,
}
use Prim.Native.Nat.{Ordering}
use dsh_runtime_kit.Composition.Versions.{Text, compare_texts}

abbrev pub max_json_depth : ℕ
max_json_depth = 64

abbrev pub max_json_nodes : ℕ
max_json_nodes = 100000

-- A JavaScript value that holds data. A number is finite and not -0, and is kept as the text that
-- `JSON.stringify` gives for it; `no_number` is a number of another kind. `foreign` is any other
-- value: undefined, a function, or an object whose prototype is not that of a plain object.
mutual
  pub data Json : Type 0 where
    null : Json
    boolean : Bool → Json
    number : Text → Json
    no_number : Json
    string : Text → Json
    array : Items → Json
    object : Members → Json
    foreign : Json

  pub data Items : Type 0 where
    no_items : Items
    item : Json → Items → Items

  -- The properties of a plain object in the order of `Object.keys`.
  pub data Members : Type 0 where
    empty_object : Members
    member : Text → Json → Members → Members

unfoldable pub items_of : Items → List Json
items_of no_items = []
items_of (item v rest) = v ∷ items_of rest

abbrev pub Entries {ℓ} : Type ℓ → Type ℓ
Entries V = List (Text × V)

unfoldable pub entries_of : Members → Entries Json
entries_of empty_object = []
entries_of (member key v rest) = (key, v) ∷ entries_of rest

module _ {ℓ} {V : Type ℓ} where
  -- An entry at its place in a sorted list.
  unfoldable pub place : Text → V → Entries V → Entries V
  place key v [] = (key, v) ∷ []
  place key v ((stored, old) ∷ rest) =
      let later = place key v rest in
      elim (compare_texts key stored) [
        | Ordering.gt ↦ (stored, old) ∷ later
        | _ ↦ (key, v) ∷ (stored, old) ∷ rest
      ]

  -- `Object.keys(value).sort()`, each key with its value.
  unfoldable pub sort : Entries V → Entries V
  sort [] = []
  sort ((key, v) ∷ rest) = place key v (sort rest)

-- The surrogates of UTF-16.
unfoldable pub is_high : ℕ → Bool
is_high c = leb 55296 c && leb c 56319

unfoldable pub is_low : ℕ → Bool
is_low c = leb 56320 c && leb c 57343

-- `assertUnicodeScalarString` returns; the flag says that a high surrogate stands before.
unfoldable pub is_scalar_behind : Bool → Text → Bool
is_scalar_behind paired [] = not paired
is_scalar_behind paired (c ∷ s) =
    let rest = is_scalar_behind (not paired && is_high c) s in
    (if paired then is_low c else not (is_low c)) && rest

abbrev pub is_scalar : Text → Bool
is_scalar s = is_scalar_behind false s

-- A hexadecimal digit in lower case.
unfoldable pub hex_digit : ℕ → ℕ
hex_digit n = if ltb n 10 then n + b'0' else n + 87

-- What `JSON.stringify` writes for one code unit of a text without unpaired surrogates.
unfoldable pub escape_unit : ℕ → Text
escape_unit c =
    if c == 34
    then 92 ∷ 34 ∷ []
    else if c == 92
    then 92 ∷ 92 ∷ []
    else if c == 8
    then 92 ∷ b'b' ∷ []
    else if c == 9
    then 92 ∷ b't' ∷ []
    else if c == 10
    then 92 ∷ b'n' ∷ []
    else if c == 12
    then 92 ∷ b'f' ∷ []
    else if c == 13
    then 92 ∷ b'r' ∷ []
    else if ltb c 32
    then 92 ∷ b'u' ∷ b'0' ∷ b'0' ∷ hex_digit (c / 16) ∷ hex_digit (c % 16) ∷ []
    else c ∷ []

unfoldable pub escape : Text → Text
escape [] = []
escape (c ∷ s) = escape_unit c ++ escape s

-- `JSON.stringify(text)`
abbrev pub stringify : Text → Text
stringify s = 34 ∷ (escape s ++ (34 ∷ []))

-- `texts.join(',')`, and its part behind the first text.
unfoldable pub join_more : List Text → Text
join_more [] = []
join_more (t ∷ ts) = b',' ∷ (t ++ join_more ts)

unfoldable pub join : List Text → Text
unfolding join_more
join [] = []
join (t ∷ ts) = t ++ join_more ts

-- `traversalGuard` at a depth within the limit: the counter with one more node.
unfoldable pub traversal_guard : ℕ → String → Check ℕ
traversal_guard nodes code = if ltb max_json_nodes (suc nodes) then err code else ok (suc nodes)

-- What a call of `canonicalValue` on a value and a counter gives: the text and the counter.
abbrev pub Canonical : Type 0
Canonical = Json → ℕ → Check (Text × ℕ)

unfoldable pub canonical_items : Canonical → List Json → ℕ → Check (List Text × ℕ)
canonical_items f [] nodes = ok ([], nodes)
canonical_items f (v ∷ vs) nodes = do
  first ← f v nodes
  rest ← canonical_items f vs first.1
  ok (first.0 ∷ rest.0, rest.1)

unfoldable pub canonical_entries : Canonical → Entries Json → ℕ → Check (List Text × ℕ)
canonical_entries f [] nodes = ok ([], nodes)
canonical_entries f ((key, v) ∷ entries) nodes = do
  require (is_scalar key) "canonical-string-invalid"
  first ← f v nodes
  rest ← canonical_entries f entries first.1
  ok ((stringify key ++ (b':' ∷ first.0)) ∷ rest.0, rest.1)

-- `canonicalValue` behind its guard; the calls one level down are the first argument.
unfoldable pub canonical_shape : Canonical → Canonical
canonical_shape f null nodes = ok (codes "null", nodes)
canonical_shape f (boolean true) nodes = ok (codes "true", nodes)
canonical_shape f (boolean false) nodes = ok (codes "false", nodes)
canonical_shape f (number t) nodes = ok (t, nodes)
canonical_shape f no_number nodes = err "canonical-number-invalid"
canonical_shape f (string s) nodes = do
  require (is_scalar s) "canonical-string-invalid"
  ok (stringify s, nodes)
canonical_shape f (array items) nodes = do
  values ← canonical_items f (items_of items) nodes
  ok (b'[' ∷ (join values.0 ++ (b']' ∷ [])), values.1)
canonical_shape f (object members) nodes = do
  entries ← canonical_entries f (sort (entries_of members)) nodes
  ok (b'{' ∷ (join entries.0 ++ (b'}' ∷ [])), entries.1)
canonical_shape f foreign nodes = err "canonical-value-invalid"

unfoldable pub canonical_value : ℕ → Canonical
canonical_value zero v nodes = err "canonical-value-invalid"
canonical_value (suc room) v nodes = do
  counted ← traversal_guard nodes "canonical-value-invalid"
  canonical_shape (canonical_value room) v counted

unfoldable pub canonical_json : Json → Check Text
canonical_json v = do result ← canonical_value (suc max_json_depth) v 0; ok result.0
