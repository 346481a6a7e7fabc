-- ===== src/Composition/Json/Limits/Agreement.antt =====
-- The bytes that assertCanonicalByteLimit of src/composition/index.ts counts are those of the text
-- that canonicalJson gives.
use dsh_runtime_kit.Base.{
  ℕ, zero, suc, ◌+◌, ◌≤◌, ◌≡◌, refl, sym, ap, ◌∙◌, Bool, true, false, ◌&&◌, List, [], ◌∷◌, ◌++◌,
  map, leb, all, arith, ok, ◌↔◌, and-eq-true, true_of_and,
}
use dsh_runtime_kit.Composition.Versions.{Text}
use dsh_runtime_kit.Composition.Json.{
  Json, null, boolean, number, no_number, string, array, object, foreign, items_of, entries_of,
  Items, no_items, item, Members, empty_object, member, Entries, max_json_nodes, is_scalar, is_high,
  is_low, escape, stringify, join, join_more, sort, canonical_json,
}
use dsh_runtime_kit.Composition.Json.Limits.{assert_canonical_byte_limit}
use dsh_runtime_kit.Composition.Json.Limits.Bytes.{
  string_bytes, entry_bytes, separated, bytes_shape, bytes,
}
use dsh_runtime_kit.Composition.Json.Limits.Outcomes.{Yields-limit}
use dsh_runtime_kit.Composition.Json.Outcomes.{Yields-canonical}
use dsh_runtime_kit.Composition.Json.Sorted.{all-and, all-sort, total-sort}
use dsh_runtime_kit.Composition.Json.Measures.{
  Yields, Yields-map, test_of_returned, returned, total, entry_fits, entry_print, fits_shape, fits,
  size, print_shape, print,
}
use dsh_runtime_kit.Composition.Json.Limits.Utf8.{
  utf8_bytes, is_ascii, utf8_bytes_behind, utf8_bytes-ascii, utf8_bytes-escape, unit_bytes,
}
use mathlib.Core.List.{append_assoc, append-nil}

utf8_bytes-nil : utf8_bytes [] ≡ 0
unfolding utf8_bytes_behind
utf8_bytes-nil = refl

-- Every number of the value satisfies a test.
unfoldable mutual
  pub numbers_hold : (Text → Bool) → Json → Bool
  numbers_hold test (number t) = test t
  numbers_hold test (array items) = items_hold test items
  numbers_hold test (object members) = members_hold test members
  numbers_hold test v = true

  pub items_hold : (Text → Bool) → Items → Bool
  items_hold test no_items = true
  items_hold test (item v rest) = numbers_hold test v && items_hold test rest

  pub members_hold : (Text → Bool) → Members → Bool
  members_hold test empty_object = true
  members_hold test (member key v rest) = numbers_hold test v && members_hold test rest

items_hold-all :
    (test : Text → Bool) (items : Items)
    → items_hold test items ≡ all (numbers_hold test) (items_of items)
unfolding numbers_hold items_of
items_hold-all test no_items = refl
items_hold-all test (item v rest) = ap (λ b. numbers_hold test v && b) (items_hold-all test rest)

members_hold-all :
    (test : Text → Bool) (members : Members)
    → members_hold test members ≡ all (λ e. numbers_hold test e.1) (entries_of members)
unfolding numbers_hold entries_of
members_hold-all test empty_object = refl
members_hold-all test (member key v rest) =
    ap (λ b. numbers_hold test v && b) (members_hold-all test rest)

-- Texts with a comma between them, when each text takes the bytes that are counted for it.
module _ {A : Type 0} (text_of : A → Text) (bytes_of : A → ℕ) (good : A → Bool)
    (each : (x : A) (t : Text)
      → good x ≡ true
      → utf8_bytes (text_of x ++ t) ≡ bytes_of x + utf8_bytes t) where
  utf8_bytes-join_more :
      (xs : List A) (t : Text)
      → all good xs ≡ true
      → utf8_bytes (join_more (map text_of xs) ++ t)
        ≡ total (λ x. suc (bytes_of x)) xs + utf8_bytes t
  unfolding join_more utf8_bytes_behind unit_bytes is_high is_low
  utf8_bytes-join_more [] t goods = omega arith
  utf8_bytes-join_more (x ∷ xs) t goods = ground (
    arith,
    append_assoc (text_of x) (join_more (map text_of xs)) t,
    each x (join_more (map text_of xs) ++ t),
    utf8_bytes-join_more xs t,
  )

  utf8_bytes-join :
      (xs : List A) (t : Text)
      → all good xs ≡ true
      → utf8_bytes (join (map text_of xs) ++ t) ≡ separated bytes_of xs + utf8_bytes t
  unfolding join
  utf8_bytes-join [] t goods = omega arith
  utf8_bytes-join (x ∷ xs) t goods = ground (
    arith,
    append_assoc (text_of x) (join_more (map text_of xs)) t,
    each x (join_more (map text_of xs) ++ t),
    utf8_bytes-join_more xs t,
  )

utf8_bytes-stringify :
    (s t : Text)
    → is_scalar s ≡ true
    → utf8_bytes (stringify s ++ t) ≡ string_bytes s + utf8_bytes t
unfolding utf8_bytes_behind unit_bytes is_high is_low
utf8_bytes-stringify s t scalar =
    ground (arith, append_assoc (escape s) (34 ∷ []) t, utf8_bytes-escape s t false)

abbrev good_below : (Json → Bool) → Json → Bool
good_below fit v = fit v && numbers_hold is_ascii v

abbrev good_entry : (Json → Bool) → Text × Json → Bool
good_entry fit e = entry_fits fit e && numbers_hold is_ascii e.1

module _ (text_of : Json → Text) (bytes_of : Json → ℕ) (fit : Json → Bool)
    (below : (v : Json) (t : Text)
      → good_below fit v ≡ true
      → utf8_bytes (text_of v ++ t) ≡ bytes_of v + utf8_bytes t) where
  utf8_bytes-entry :
      (e : Text × Json) (t : Text)
      → good_entry fit e ≡ true
      → utf8_bytes (entry_print text_of e ++ t) ≡ entry_bytes bytes_of e + utf8_bytes t
  unfolding utf8_bytes_behind unit_bytes is_high is_low
  utf8_bytes-entry (key, v) t good = ground (
    arith,
    append_assoc (stringify key) (58 ∷ text_of v) t,
    utf8_bytes-stringify key (58 ∷ (text_of v ++ t)),
    below v t,
  )

  utf8_bytes-shape :
      (v : Json) (t : Text)
      → good_below (fits_shape fit) v ≡ true
      → utf8_bytes (print_shape text_of v ++ t) ≡ bytes_shape bytes_of v + utf8_bytes t
  unfolding print_shape bytes_shape fits_shape utf8_bytes_behind unit_bytes is_high is_low
      numbers_hold
  utf8_bytes-shape null t good = omega arith
  utf8_bytes-shape (boolean true) t good = omega arith
  utf8_bytes-shape (boolean false) t good = omega arith
  utf8_bytes-shape (number s) t good = utf8_bytes-ascii s t good
  utf8_bytes-shape no_number t good = cc
  utf8_bytes-shape (string s) t good = utf8_bytes-stringify s t (and-eq-true _ _ good).0
  utf8_bytes-shape (array items) t good =
      let goods =
        all-and fit (numbers_hold is_ascii) (items_of items) (and-eq-true _ _ good).0
          (sym (items_hold-all is_ascii items) ∙ (and-eq-true _ _ good).1) in
      ground (
        arith,
        append_assoc (join (map text_of (items_of items))) (93 ∷ []) t,
        utf8_bytes-join text_of bytes_of (good_below fit) below (items_of items) (93 ∷ t) goods,
      )
  utf8_bytes-shape (object members) t good =
      let es : Entries Json = entries_of members in
      let goods : all (good_entry fit) es ≡ true =
        all-and (entry_fits fit) (λ e. numbers_hold is_ascii e.1) es (and-eq-true _ _ good).0
          (sym (members_hold-all is_ascii members) ∙ (and-eq-true _ _ good).1) in
      ground (
        arith,
        append_assoc (join (map (entry_print text_of) (sort es))) (125 ∷ []) t,
        total-sort (λ e. suc (entry_bytes bytes_of e)) es,
        utf8_bytes-join (entry_print text_of) (entry_bytes bytes_of) (good_entry fit)
            utf8_bytes-entry (sort es) (125 ∷ t) (all-sort (good_entry fit) es ∙ goods),
      )
  utf8_bytes-shape foreign t good = cc

utf8_bytes-print :
    (room : ℕ) (v : Json) (t : Text)
    → good_below (fits room) v ≡ true
    → utf8_bytes (print room v ++ t) ≡ bytes room v + utf8_bytes t
unfolding print bytes fits
utf8_bytes-print zero v t good = cc
utf8_bytes-print (suc room) v t good =
    utf8_bytes-shape (print room) (bytes room) (fits room) (utf8_bytes-print room) v t good

pub Yields-canonical_json :
    (v : Json)
    → Yields (canonical_json v) (fits 65 v && leb (0 + size 65 v) max_json_nodes) (print 65 v)
unfolding canonical_json
Yields-canonical_json v = Yields-map (λ result. result.0) (Yields-canonical 65 v 0)

Yields-assert :
    (v : Json) (maximum : ℕ)
    → Yields
        (assert_canonical_byte_limit v maximum)
        (fits 65 v && (leb (0 + size 65 v) max_json_nodes && leb (0 + bytes 65 v) maximum))
        tt
unfolding assert_canonical_byte_limit
Yields-assert v maximum = Yields-map (λ counted. tt) (Yields-limit maximum 65 v 0 0)

-- On data whose numbers print as ASCII text, the byte limit passes exactly when canonicalJson
-- returns and its text has at most so many bytes in UTF-8: the count without the text, in the order
-- of the properties, agrees with the text, whose keys are sorted.
pub assert_canonical_byte_limit-exact :
    (v : Json) (maximum : ℕ)
    → numbers_hold is_ascii v ≡ true
    → (assert_canonical_byte_limit v maximum ≡ ok tt)
      ↔ ((text : Text) × (canonical_json v ≡ ok text) × (utf8_bytes text ≤ maximum))
assert_canonical_byte_limit-exact v maximum ascii = (accepted, fitting)
  where
    length_of : fits 65 v ≡ true → utf8_bytes (print 65 v) ≡ bytes 65 v
    length_of fit = omega (
      arith,
      ap utf8_bytes (append-nil (print 65 v)),
      utf8_bytes-print 65 v [] (true_of_and _ _ fit ascii),
      utf8_bytes-nil,
    )

    accepted :
        assert_canonical_byte_limit v maximum ≡ ok tt
        → (text : Text) × (canonical_json v ≡ ok text) × (utf8_bytes text ≤ maximum)
    accepted e =
        let test = (test_of_returned (Yields-assert v maximum) e).0 in
        let (fit, within) = and-eq-true _ _ test in
        let (few, short) = and-eq-true _ _ within in
        (
          print 65 v,
          returned (Yields-canonical_json v) (true_of_and _ _ fit few),
          ground (arith, length_of fit),
        )

    fitting :
        (text : Text) × (canonical_json v ≡ ok text) × (utf8_bytes text ≤ maximum)
        → assert_canonical_byte_limit v maximum ≡ ok tt
    fitting (text, e, short) =
        let (test, same) = test_of_returned (Yields-canonical_json v) e in
        let (fit, few) = and-eq-true _ _ test in
        returned (Yields-assert v maximum) (ground (arith, length_of fit, ap utf8_bytes same))
