-- ===== src/Composition/Json/Limits.antt =====
-- assertCanonicalByteLimit of src/composition/index.ts: the canonical bytes counted without the text.
pub mod Agreement
pub mod Bytes
pub mod Outcomes
pub mod Sums
pub mod Utf8
use dsh_runtime_kit.Base.{
  ℕ, zero, suc, ◌+◌, String, Bool, true, false, ◌||◌, List, [], ◌∷◌, ltb, leb, ◌==◌, if◌then◌else◌,
  length, Check, ok, err, ◌>>=◌, ◌>>◌, require,
}
use dsh_runtime_kit.Composition.Versions.{Text}
use dsh_runtime_kit.Composition.Json.{
  Json, null, boolean, number, no_number, string, array, object, foreign, items_of, entries_of,
  Entries, max_json_depth, is_high, is_scalar, traversal_guard,
}

-- `consumeCanonicalBytes`
unfoldable pub consume : ℕ → ℕ → ℕ → Check ℕ
consume maximum amount bytes =
    if ltb maximum (bytes + amount) then err "schema-invalid" else ok (bytes + amount)

-- The bytes that one code unit takes in `consumeCanonicalStringBytes`; a high surrogate takes those
-- of its pair.
unfoldable pub canonical_unit_bytes : ℕ → ℕ
canonical_unit_bytes c =
    if c == 34 || c == 92 || c == 8 || c == 9 || c == 10 || c == 12 || c == 13
    then 2
    else if leb c 31
    then 6
    else if leb c 127
    then 1
    else if leb c 2047
    then 2
    else if is_high c
    then 4
    else 3

-- The loop of `consumeCanonicalStringBytes`; the flag passes over the second half of a pair.
unfoldable pub consume_units : ℕ → Bool → Text → ℕ → Check ℕ
consume_units maximum skipped [] bytes = ok bytes
consume_units maximum true (c ∷ s) bytes = consume_units maximum false s bytes
consume_units maximum false (c ∷ s) bytes = do
  counted ← consume maximum (canonical_unit_bytes c) bytes
  consume_units maximum (is_high c) s counted

unfoldable pub consume_string : ℕ → Text → ℕ → Check ℕ
consume_string maximum s bytes = do
  require (is_scalar s) "canonical-string-invalid"
  quoted ← consume maximum 2 bytes
  consume_units maximum false s quoted

-- A call of `assertCanonicalByteLimit` on a value: the counters of nodes and of bytes, passed along.
abbrev pub Limiter : Type 0
Limiter = Json → ℕ → ℕ → Check (ℕ × ℕ)

-- The comma in front of every member but the first.
unfoldable pub consume_comma : ℕ → Bool → ℕ → Check ℕ
consume_comma maximum first bytes = if first then ok bytes else consume maximum 1 bytes

unfoldable pub limit_items : ℕ → Limiter → Bool → List Json → ℕ → ℕ → Check (ℕ × ℕ)
limit_items maximum f first [] nodes bytes = ok (nodes, bytes)
limit_items maximum f first (v ∷ vs) nodes bytes = do
  behind_comma ← consume_comma maximum first bytes
  counted ← f v nodes behind_comma
  limit_items maximum f false vs counted.0 counted.1

unfoldable pub limit_entries : ℕ → Limiter → Bool → Entries Json → ℕ → ℕ → Check (ℕ × ℕ)
limit_entries maximum f first [] nodes bytes = ok (nodes, bytes)
limit_entries maximum f first ((key, v) ∷ entries) nodes bytes = do
  require (leb (bytes + (length key + 3)) maximum) "schema-invalid"
  behind_comma ← consume_comma maximum first bytes
  behind_key ← consume_string maximum key behind_comma
  behind_colon ← consume maximum 1 behind_key
  counted ← f v nodes behind_colon
  limit_entries maximum f false entries counted.0 counted.1

-- `assertCanonicalByteLimit` behind its guard; the calls one level down are an argument.
unfoldable pub limit_shape : ℕ → Limiter → Limiter
limit_shape maximum f null nodes bytes = do counted ← consume maximum 4 bytes; ok (nodes, counted)
limit_shape maximum f (boolean b) nodes bytes = do
  counted ← consume maximum (if b then 4 else 5) bytes
  ok (nodes, counted)
limit_shape maximum f (number t) nodes bytes = do
  counted ← consume maximum (length t) bytes
  ok (nodes, counted)
limit_shape maximum f no_number nodes bytes = err "canonical-number-invalid"
limit_shape maximum f (string s) nodes bytes = do
  require (leb (bytes + (length s + 2)) maximum) "schema-invalid"
  counted ← consume_string maximum s bytes
  ok (nodes, counted)
limit_shape maximum f (array items) nodes bytes = do
  brackets ← consume maximum 2 bytes
  limit_items maximum f true (items_of items) nodes brackets
limit_shape maximum f (object members) nodes bytes = do
  brackets ← consume maximum 2 bytes
  limit_entries maximum f true (entries_of members) nodes brackets
limit_shape maximum f foreign nodes bytes = err "schema-invalid"

unfoldable pub canonical_byte_limit : ℕ → ℕ → Limiter
canonical_byte_limit maximum zero v nodes bytes = err "schema-invalid"
canonical_byte_limit maximum (suc room) v nodes bytes = do
  counted ← traversal_guard nodes "schema-invalid"
  limit_shape maximum (canonical_byte_limit maximum room) v counted bytes

unfoldable pub assert_canonical_byte_limit : Json → ℕ → Check (Unit {0})
assert_canonical_byte_limit v maximum = do
  counted ← canonical_byte_limit maximum (suc max_json_depth) v 0 0
  ok tt
