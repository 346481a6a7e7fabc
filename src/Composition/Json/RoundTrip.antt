-- ===== src/Composition/Json/RoundTrip.antt =====
-- parseCanonicalJsonText of src/composition/index.ts reads back what canonicalJson writes.
use dsh_runtime_kit.Base.{
  ℕ, zero, suc, ◌+◌, ◌*◌, ◌≡◌, refl, ap, sym, ◌∙◌, Bool, true, false, ◌&&◌, [], ◌∷◌, ◌++◌, map, all,
  leb, ltb, arith, and-eq-true, true_of_and, ok, Option,
}
use mathlib.Core.List.{append_assoc, append-nil}
use dsh_runtime_kit.Composition.Versions.{Text}
use dsh_runtime_kit.Composition.Json.{
  Json, null, boolean, number, no_number, string, array, object, foreign, empty_object, items_of,
  entries_of, Entries, sort, is_scalar, escape, join, max_json_nodes, canonical_json,
}
use dsh_runtime_kit.Composition.Json.Measures.{
  test_of_returned, entry_fits, entry_size, entry_print, fits_shape, fits, size_shape, size,
  print_shape, print,
}
use dsh_runtime_kit.Composition.Json.Tokens.{is_space, skip_space}
use dsh_runtime_kit.Composition.Json.Tokens.Reads.{quoted-escape}
use dsh_runtime_kit.Composition.Json.Tokens.Numbers.{ends_number}
use dsh_runtime_kit.Composition.Json.Sorted.{all-and, all-sort, total-sort}
use dsh_runtime_kit.Composition.Json.Keys.{distinct, distinct-sort}
use dsh_runtime_kit.Composition.Json.Reordered.{define_all, with_value, reordered_shape, reordered}
use dsh_runtime_kit.Composition.Json.Readable.{
  is_plain_key, readable, items_readable, members_readable, items_readable-all,
  members_readable-all, canonical_value-reordered,
}
use dsh_runtime_kit.Composition.Json.Parser.{
  Parse, list, object_text, behind_literal, plain_text, value_shape, parse_value, parse,
  parse_canonical_json_text,
}
use dsh_runtime_kit.Composition.Json.Steps.{opens, skip_space-opens}
use dsh_runtime_kit.Composition.Json.Literals.{reads_itself, value_shape-text, opens-number}
use dsh_runtime_kit.Composition.Json.Limits.Utf8.{utf8_bytes}
use dsh_runtime_kit.Composition.Json.Limits.Agreement.{Yields-canonical_json}
use dsh_runtime_kit.Composition.Json.Joins.{list-join, object-join}

module _ (read_number : Text → Option Text) (f : Parse Json) (fit : Json → Bool)
    (size_of : Json → ℕ) (text_of : Json → Text) (g : Json → Json)
    (openings : (v : Json)
      → (fit v && readable (reads_itself read_number) v) ≡ true
      → opens (text_of v) ≡ true)
    (below : (v : Json) (rest : Text) (n : ℕ)
      → (fit v && readable (reads_itself read_number) v) ≡ true
      → ends_number rest ≡ true
      → leb (n + size_of v) max_json_nodes ≡ true
      → f (text_of v ++ rest) n ≡ ok (g v, (rest, n + size_of v))) where
  abbrev test : Text → Bool
  test = reads_itself read_number

  abbrev good : Json → Bool
  good v = fit v && readable test v

  abbrev good_entry : Text × Json → Bool
  good_entry (key, v) = is_scalar key && good v

  all-entries :
      (es : Entries Json)
      → all (entry_fits fit) es ≡ true
      → all (λ e. readable test e.1) es ≡ true
      → all good_entry es ≡ true
  all-entries [] fitting values = refl
  all-entries ((key, v) ∷ es) fitting values = ground (arith, all-entries es)

  value_shape-print :
      (v : Json) (rest : Text) (n : ℕ)
      → (fits_shape fit v && readable test v) ≡ true
      → ends_number rest ≡ true
      → leb (n + size_shape size_of v) max_json_nodes ≡ true
      → value_shape read_number f (print_shape text_of v ++ rest) n
        ≡ ok (reordered_shape g v, (rest, n + size_shape size_of v))
  unfolding value_shape plain_text behind_literal print_shape size_shape reordered_shape fits_shape
      readable
  value_shape-print null rest n good ends few = ap (λ k. ok (null, (rest, k))) (omega arith)
  value_shape-print (boolean true) rest n good ends few =
      ap (λ k. ok (boolean true, (rest, k))) (omega arith)
  value_shape-print (boolean false) rest n good ends few =
      ap (λ k. ok (boolean false, (rest, k))) (omega arith)
  value_shape-print (number t) rest n good ends few =
      value_shape-text read_number f t rest n good ends
      ∙ ap (λ k. ok (number t, (rest, k))) (omega arith)
  value_shape-print no_number rest n good ends few = cc
  value_shape-print (string s) rest n good ends few =
      rw
        (
          append_assoc (escape s) (34 ∷ []) rest,
          quoted-escape s rest (and-eq-true (is_scalar s) true good).0,
        )
        (ap (λ k. ok (string s, (rest, k))) (omega arith))
  value_shape-print (array items) rest n good ends few =
      let split = and-eq-true (all fit (items_of items)) (items_readable test items) good in
      let goods =
        all-and fit (readable test) (items_of items) split.0
          (sym (items_readable-all test items) ∙ split.1) in
      ap (λ u. list f u n) (append_assoc (join (map text_of (items_of items))) (b']' ∷ []) rest)
      ∙ list-join read_number f fit size_of text_of g openings below (items_of items) rest n goods
          few
  value_shape-print (object members) rest n good ends few =
      let es : Entries Json = entries_of members in
      let split =
        and-eq-true (all (entry_fits fit) es)
          (distinct es && (all (λ e. is_plain_key e.0) es && members_readable test members)) good in
      let (d, others) =
        and-eq-true (distinct es) (all (λ e. is_plain_key e.0) es && members_readable test members)
          split.1 in
      let (plain, values) =
        and-eq-true (all (λ e. is_plain_key e.0) es) (members_readable test members) others in
      let goods : all good_entry es ≡ true =
        all-entries es split.0 (sym (members_readable-all test members) ∙ values) in
      ap (λ u. object_text f u n)
        (append_assoc (join (map (entry_print text_of) (sort es))) (b'}' ∷ []) rest)
      ∙ (object-join read_number f fit size_of text_of g openings below (sort es) rest n
            (all-sort good_entry es ∙ goods) (all-sort (λ e. is_plain_key e.0) es ∙ plain)
            (distinct-sort es ∙ d)
            (ap (λ k. leb (n + k) max_json_nodes) (total-sort (entry_size size_of) es) ∙ few)
          ∙ ap
              (λ k.
                ok (object (define_all (map (with_value g) (sort es)) empty_object), (rest, n + k)))
              (total-sort (entry_size size_of) es))
  value_shape-print foreign rest n good ends few = cc

skip_space-nil : skip_space [] ≡ []
unfolding skip_space
skip_space-nil = refl

pub ends_number-nil : ends_number [] ≡ true
unfolding ends_number
ends_number-nil = refl

canonical_json-reordered :
    (test : Text → Bool) (v : Json)
    → readable test v ≡ true
    → canonical_json (reordered 65 v) ≡ canonical_json v
unfolding canonical_json
canonical_json-reordered test v good = rw (canonical_value-reordered test 65 v 0 good) refl

-- A canonical text begins like a value.
opens-print :
    (read_number : Text → Option Text) (room : ℕ) (v : Json)
    → (fits room v && readable (reads_itself read_number) v) ≡ true
    → opens (print room v) ≡ true
unfolding fits fits_shape print print_shape readable is_space
opens-print read_number zero v good = cc
opens-print read_number (suc room) null good = refl
opens-print read_number (suc room) (boolean true) good = refl
opens-print read_number (suc room) (boolean false) good = refl
opens-print read_number (suc room) (number t) good = opens-number read_number t good
opens-print read_number (suc room) no_number good = cc
opens-print read_number (suc room) (string s) good = refl
opens-print read_number (suc room) (array items) good = refl
opens-print read_number (suc room) (object members) good = refl
opens-print read_number (suc room) foreign good = cc

pub parse_value-print :
    (read_number : Text → Option Text) (room : ℕ) (v : Json) (rest : Text) (n : ℕ)
    → (fits room v && readable (reads_itself read_number) v) ≡ true
    → ends_number rest ≡ true
    → leb (n + size room v) max_json_nodes ≡ true
    → parse_value read_number room (print room v ++ rest) n
      ≡ ok (reordered room v, (rest, n + size room v))
unfolding parse_value fits print size reordered
parse_value-print read_number zero v rest n good ends few = cc
parse_value-print read_number (suc room) v rest n good ends few =
    let counted : ltb max_json_nodes (suc n) ≡ false = ground arith in
    rw counted (
      value_shape-print read_number (parse_value read_number room) (fits room) (size room)
        (print room) (reordered room) (opens-print read_number room)
        (parse_value-print read_number room) v rest (suc n) good ends (ground arith)
      ∙ ap (λ k. ok (reordered_shape (reordered room) v, (rest, k))) (omega arith))

-- Where canonicalJson gives a text for data whose keys are distinct and none of them `__proto__`,
-- and whose numbers read back as they are written, a text within the protocol's bytes parses: to the
-- data with each object's properties defined in the order of their sorted keys. What is parsed has
-- the same canonical text again.
pub parse_canonical_json_text-canonical_json :
    (read_number : Text → Option Text) (v : Json) (text : Text)
    → canonical_json v ≡ ok text
    → readable (reads_itself read_number) v ≡ true
    → leb (utf8_bytes text) (8 * 1024 * 1024) ≡ true
    → (parse_canonical_json_text read_number text ≡ ok (reordered 65 v))
      × (canonical_json (reordered 65 v) ≡ ok text)
unfolding parse_canonical_json_text parse
parse_canonical_json_text-canonical_json read_number v text e good short = (parsed, again)
  where
    again : canonical_json (reordered 65 v) ≡ ok text
    again = canonical_json-reordered (reads_itself read_number) v good ∙ e

    parsed : parse_canonical_json_text read_number text ≡ ok (reordered 65 v)
    parsed =
        let (holds, same) = test_of_returned (Yields-canonical_json v) e in
        let (fit, few) = and-eq-true (fits 65 v) (leb (0 + size 65 v) max_json_nodes) holds in
        let fine = true_of_and _ _ fit good in
        let opened = skip_space-opens (print 65 v) [] (opens-print read_number 65 v fine) in
        let bare : skip_space text ≡ print 65 v ++ [] =
          ap skip_space (sym same ∙ sym (append-nil (print 65 v))) ∙ opened in
        let read =
          ap (λ u. parse_value read_number 65 u 0) bare
          ∙ parse_value-print read_number 65 v [] 0 fine ends_number-nil few in
        rw (short, read, skip_space-nil, again) refl
