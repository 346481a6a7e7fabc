-- ===== src/Composition/Json/Parser.antt =====
-- DuplicateSafeJsonParser and parseCanonicalJsonText of src/composition/index.ts. `Number` is a
-- parameter: `read_number` gives the text that `JSON.stringify` writes for the number that a literal
-- denotes, and none where it is not finite or -0. A loop runs on the length of the text that is
-- left, which each round shortens; the error `loop-limit` stands for no fuel left.
use dsh_runtime_kit.Base.{
  ℕ, zero, suc, ◌-◌, ◌*◌, ◌^◌, Bool, true, false, not, ◌&&◌, ◌||◌, List, [], ◌∷◌, ltb, leb, ◌==◌,
  all, if◌then◌else◌, length, Option, none, some, Check, ok, err, ◌>>=◌, ◌>>◌, require, codes,
  is_digit,
}
use dsh_runtime_kit.Manager.Value.{decimal}
use dsh_runtime_kit.Composition.Versions.{Text, same_text, is_empty, starts_with_zero}
use dsh_runtime_kit.Composition.Json.{
  Json, null, boolean, number, string, array, object, foreign, Items, no_items, item, Members,
  empty_object, member, max_json_nodes, max_json_depth, canonical_json,
}
use dsh_runtime_kit.Composition.Json.Limits.Utf8.{utf8_bytes}
use dsh_runtime_kit.Composition.Json.Tokens.{skip_space, quoted, match_number}

-- Whether a key is an array index, which `Object.keys` puts first, by its number.
unfoldable pub is_index : Text → Bool
is_index key =
    not (is_empty key)
    && all is_digit key
    && (not (starts_with_zero key) || length key == 1)
    && ltb (decimal 0 key) (2 ^ 32 - 1)

-- A new property of an object, at its place in the order of `Object.keys`.
unfoldable pub place_index : Text → Json → Members → Members
place_index key v empty_object = member key v empty_object
place_index key v (member stored old rest) =
    if is_index stored && ltb (decimal 0 stored) (decimal 0 key)
    then member stored old (place_index key v rest)
    else member key v (member stored old rest)

unfoldable pub place_last : Text → Json → Members → Members
place_last key v empty_object = member key v empty_object
place_last key v (member stored old rest) = member stored old (place_last key v rest)

unfoldable pub define_member : Text → Json → Members → Members
unfolding is_index place_index place_last
define_member key v members =
    if is_index key then place_index key v members else place_last key v members

-- An object under construction, and whether its prototype was replaced by an object.
pub record Built : Type 0 where
  pub members : Members
  pub replaced : Bool

unfoldable pub is_object : Json → Bool
is_object (array items) = true
is_object (object members) = true
is_object foreign = true
is_object v = false

-- `output[key] = value` for a new key: `__proto__` is the setter of the prototype, which takes an
-- object or null and passes over any other value.
unfoldable pub assign : Text → Json → Built → Built
unfolding define_member is_object
assign key v output =
    if same_text key (codes "__proto__")
    then record { members = output.members; replaced = output.replaced || is_object v }
    else record { members = define_member key v output.members; replaced = output.replaced }

unfoldable pub built : Built → Json
built output = if output.replaced then foreign else object output.members

unfoldable pub has_key : Text → List Text → Bool
has_key key [] = false
has_key key (k ∷ ks) = same_text key k || has_key key ks

-- What is parsed, the text that is left, and the counter of nodes.
abbrev pub Parse : Type 0 → Type 0
Parse A = Text → ℕ → Check (A × (Text × ℕ))

-- The text behind a token that must stand at the head.
unfoldable pub expect : ℕ → Text → Check Text
expect token [] = err "json-invalid"
expect token (c ∷ s) = if c == token then ok s else err "json-invalid"

unfoldable pub next_is : ℕ → Text → Bool
next_is token [] = false
next_is token (c ∷ s) = c == token

-- The loop of `list`, at an item.
unfoldable pub list_loop : Parse Json → ℕ → Parse Items
list_loop f zero s nodes = err "loop-limit"
list_loop f (suc fuel) s nodes = do
  first ← f s nodes
  let t = skip_space first.1.0
  if next_is b']' t
      then (expect b']' t >>= λ rest. ok (item first.0 no_items, (rest, first.1.1)))
      else (expect b',' t >>= λ behind. list_loop f fuel (skip_space behind) first.1.1 >>= λ more.
          ok (item first.0 more.0, more.1))

-- `list`, behind its bracket.
unfoldable pub list : Parse Json → Parse Json
unfolding list_loop
list f s nodes =
    let t = skip_space s in
    if next_is b']' t
    then (expect b']' t >>= λ rest. ok (array no_items, (rest, nodes)))
    else (list_loop f (suc (length t)) t nodes >>= λ items. ok (array items.0, items.1))

-- The loop of `object`, at a key.
unfoldable pub object_loop : Parse Json → ℕ → List Text → Built → Parse Json
object_loop f zero keys output s nodes = err "loop-limit"
object_loop f (suc fuel) keys output s nodes = do
  opened ← expect 34 s
  key ← quoted opened
  require (not (has_key key.0 keys)) "duplicate-json-key"
  behind ← expect b':' (skip_space key.1)
  v ← f (skip_space behind) nodes
  let next = assign key.0 v.0 output
  let t = skip_space v.1.0
  if next_is b'}' t
      then (expect b'}' t >>= λ rest. ok (built next, (rest, v.1.1)))
      else (expect b',' t >>= λ further.
          object_loop f fuel (key.0 ∷ keys) next (skip_space further) v.1.1)

abbrev pub no_output : Built
no_output = record { members = empty_object; replaced = false }

-- `object`, behind its brace.
unfoldable pub object_text : Parse Json → Parse Json
unfolding object_loop
object_text f s nodes =
    let t = skip_space s in
    if next_is b'}' t
    then (expect b'}' t >>= λ rest. ok (built no_output, (rest, nodes)))
    else object_loop f (suc (length t)) [] no_output t nodes

-- The text behind a literal that stands at the head.
unfoldable pub behind_literal : Text → Text → Option Text
behind_literal [] s = some s
behind_literal (p ∷ ps) [] = none
behind_literal (p ∷ ps) (c ∷ s) = if c == p then behind_literal ps s else none

unfoldable pub read_literal : Option Text → Text → ℕ → Check (Json × (Text × ℕ))
read_literal none rest nodes = err "canonical-number-invalid"
read_literal (some t) rest nodes = ok (number t, (rest, nodes))

unfoldable pub matched_number :
    (Text → Option Text) → Option (Text × Text) → ℕ → Check (Json × (Text × ℕ))
unfolding read_literal
matched_number read_number none nodes = err "json-invalid"
matched_number read_number (some (literal, rest)) nodes =
    read_literal (read_number literal) rest nodes

module _ (read_number : Text → Option Text) where
  -- The number at the head, or no value.
  unfoldable pub number_text : Parse Json
  unfolding matched_number
  number_text s nodes = matched_number read_number (match_number s) nodes

  -- The literals in the source's order, then a number.
  unfoldable pub plain_text : Parse Json
  plain_text s nodes = elim (behind_literal (codes "true") s) [
    | some rest ↦ ok (boolean true, (rest, nodes))
    | none ↦ elim (behind_literal (codes "false") s) [
      | some rest ↦ ok (boolean false, (rest, nodes))
      | none ↦ elim (behind_literal (codes "null") s) [
        | some rest ↦ ok (null, (rest, nodes))
        | none ↦ number_text s nodes
      ]
    ]
  ]

  -- `value` behind its limits; the calls one level down are the first argument.
  unfoldable pub value_shape : Parse Json → Parse Json
  value_shape f [] nodes = err "json-invalid"
  value_shape f (c ∷ s) nodes =
      if c == b'{'
      then object_text f s nodes
      else if c == b'['
      then list f s nodes
      else if c == 34
      then (quoted s >>= λ text. ok (string text.0, (text.1, nodes)))
      else plain_text (c ∷ s) nodes

  -- `value`, with `room` levels left.
  unfoldable pub parse_value : ℕ → Parse Json
  parse_value zero s nodes = err "json-invalid"
  parse_value (suc room) s nodes =
      if ltb max_json_nodes (suc nodes)
      then err "json-invalid"
      else value_shape (parse_value room) s (suc nodes)

  -- `parse`
  unfoldable pub parse : Text → Check Json
  parse source = do
    v ← parse_value (suc max_json_depth) (skip_space source) 0
    require (is_empty (skip_space v.1.0)) "json-invalid"
    ok v.0

  unfoldable pub parse_canonical_json_text : Text → Check Json
  parse_canonical_json_text source = do
    require (leb (utf8_bytes source) (8 * 1024 * 1024)) "json-invalid"
    v ← parse source
    canonical ← canonical_json v
    ok v
