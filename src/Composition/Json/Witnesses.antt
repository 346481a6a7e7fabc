-- ===== src/Composition/Json/Witnesses.antt =====
-- Canonical JSON at concrete inputs: a document in two orders, its text, its digest's input, and
-- texts that the parser refuses or changes.
use dsh_runtime_kit.Base.{
  ◌≡◌, ◌≢◌, ◌↔◌, ◌≤◌, refl, true, ◌∷◌, ◌++◌, codes, some, ok, err, leb, ◌*◌, is_digit,
}
use dsh_runtime_kit.Manager.Value.{decimal}
use dsh_runtime_kit.Composition.Versions.{Text, compare_texts, same_text}
use dsh_runtime_kit.Composition.Json.{
  Json, null, boolean, number, string, array, object, no_items, item, empty_object, member,
  items_of, entries_of, place, sort, is_high, is_low, is_scalar_behind, hex_digit, escape_unit,
  escape, join_more, join, traversal_guard, canonical_items, canonical_entries, canonical_shape,
  canonical_value, canonical_json,
}
use dsh_runtime_kit.Composition.Json.Limits.{
  consume, canonical_unit_bytes, consume_units, consume_string, consume_comma, limit_items,
  limit_entries, limit_shape, canonical_byte_limit, assert_canonical_byte_limit,
}
use dsh_runtime_kit.Composition.Json.Limits.Utf8.{
  unit_bytes, utf8_bytes_behind, utf8_bytes, is_ascii,
}
use dsh_runtime_kit.Composition.Json.Limits.Agreement.{
  numbers_hold, assert_canonical_byte_limit-exact,
}
use dsh_runtime_kit.Composition.Json.Tokens.{
  is_space, skip_space, scan_quoted, hex_value, unescape_letter, unescape_unit, unescape, decoded,
  quoted, span_digits, match_sign, match_integer, match_fraction, match_exponent, match_parts,
  match_number,
}
use dsh_runtime_kit.Composition.Json.Parser.{
  is_index, place_index, place_last, define_member, is_object, assign, built, has_key, expect,
  next_is, list_loop, list, object_loop, object_text, behind_literal, read_literal, matched_number,
  number_text, plain_text, value_shape, parse_value, parse, parse_canonical_json_text,
}
use dsh_runtime_kit.Composition.Json.Keys.{distinct}
use dsh_runtime_kit.Composition.Json.Readable.{readable}
use dsh_runtime_kit.Composition.Json.Reordered.{items_from, define_all, reordered_shape, reordered}
use dsh_runtime_kit.Composition.Json.Literals.{reads_as, reads_itself}
use dsh_runtime_kit.Composition.Json.RoundTrip.{parse_canonical_json_text-canonical_json}
use dsh_runtime_kit.Composition.Json.Termination.{parse-ends}
use dsh_runtime_kit.Composition.Json.Digests.{is_visible, digest_input, digest_input-determines}

abbrev items : Json
items = array (item (number (codes "12")) (item (string (codes "a\"\n")) (item null no_items)))

abbrev document : Json
document =
    object (member (codes "state") (boolean true) (member (codes "items") items empty_object))

-- The same data, defined in the other order.
abbrev other_document : Json
other_document =
    object (member (codes "items") items (member (codes "state") (boolean true) empty_object))

abbrev document_text : Text
document_text = codes "{\"items\":[12,\"a\\\"\\n\",null],\"state\":true}"

unfoldable computes : Unit {0}
unfolding compare_texts same_text items_of entries_of place sort is_high is_low is_scalar_behind
    hex_digit escape_unit escape join_more join traversal_guard canonical_items canonical_entries
    canonical_shape canonical_value canonical_json consume canonical_unit_bytes consume_units
    consume_string consume_comma limit_items limit_entries limit_shape canonical_byte_limit
    assert_canonical_byte_limit unit_bytes utf8_bytes_behind numbers_hold is_space skip_space
    scan_quoted hex_value unescape_letter unescape_unit unescape decoded quoted span_digits
    match_sign match_integer match_fraction match_exponent match_parts match_number is_index
    place_index place_last define_member is_object assign built has_key expect next_is list_loop
    list object_loop object_text behind_literal read_literal matched_number number_text plain_text
    value_shape parse_value parse parse_canonical_json_text distinct readable items_from define_all
    reordered_shape reordered reads_as reads_itself is_visible digest_input is_digit decimal
computes = tt

canonical_test : canonical_json document ≡ ok document_text
unfolding computes
canonical_test = refl

other_canonical_test : canonical_json other_document ≡ ok document_text
unfolding computes
other_canonical_test = refl

limit_test : assert_canonical_byte_limit document 40 ≡ ok tt
unfolding computes
limit_test = refl

limit_below_test : assert_canonical_byte_limit document 39 ≡ err "schema-invalid"
unfolding computes
limit_below_test = refl

parse_test : parse_canonical_json_text some document_text ≡ ok other_document
unfolding computes
parse_test = refl

duplicate_test : parse some (codes "{\"a\":1, \"\\u0061\":2}") ≡ err "duplicate-json-key"
unfolding computes
duplicate_test = refl

surrogate_test : parse some (codes "[\"\\ud800\"]") ≡ err "canonical-string-invalid"
unfolding computes
surrogate_test = refl

trailing_test : parse some (codes "[1,]") ≡ err "json-invalid"
unfolding computes
trailing_test = refl

-- An array index stands first among the keys.
index_test :
    parse some (codes "{\"b\":1,\"2\":null}")
    ≡ ok (object (member (codes "2") null (member (codes "b") (number (codes "1")) empty_object)))
unfolding computes
index_test = refl

-- A member `__proto__` that is a text is lost.
setter_test :
    parse_canonical_json_text some (codes "{\"__proto__\":\"x\"}") ≡ ok (object empty_object)
unfolding computes
setter_test = refl

-- One that is an object replaces the prototype, and the text is refused behind the parser.
setter_object_test :
    parse_canonical_json_text some (codes "{\"__proto__\":{}}") ≡ err "canonical-value-invalid"
unfolding computes
setter_object_test = refl

numbers-ascii : numbers_hold is_ascii document ≡ true
unfolding computes
numbers-ascii = refl

document-readable : readable (reads_itself some) document ≡ true
unfolding computes
document-readable = refl

other-readable : readable (reads_itself some) other_document ≡ true
unfolding computes
other-readable = refl

document-short : leb (utf8_bytes document_text) (8 * 1024 * 1024) ≡ true
unfolding computes
document-short = refl

abbrev tag : Text
tag = codes "agent-runtime/lock/v1"

input_test : digest_input tag document ≡ ok (tag ++ (0 ∷ document_text))
unfolding computes
input_test = refl

other_input_test : digest_input tag other_document ≡ ok (tag ++ (0 ∷ document_text))
unfolding computes
other_input_test = refl

assert_canonical_byte_limit-exact_example :
    (assert_canonical_byte_limit document 40 ≡ ok tt)
    ↔ ((text : Text) × (canonical_json document ≡ ok text) × (utf8_bytes text ≤ 40))
assert_canonical_byte_limit-exact_example =
    assert_canonical_byte_limit-exact document 40 numbers-ascii

parse_canonical_json_text-canonical_json_example :
    (parse_canonical_json_text some document_text ≡ ok (reordered 65 document))
    × (canonical_json (reordered 65 document) ≡ ok document_text)
parse_canonical_json_text-canonical_json_example =
    parse_canonical_json_text-canonical_json some document document_text canonical_test
      document-readable document-short

digest_input-determines_example :
    (tag ≡ tag) × (reordered 65 document ≡ reordered 65 other_document)
digest_input-determines_example =
    digest_input-determines some tag tag document other_document (tag ++ (0 ∷ document_text))
      document-readable other-readable input_test other_input_test

parse-ends_example : parse some (codes "[[1,") ≢ err "loop-limit"
parse-ends_example = parse-ends some (codes "[[1,")
