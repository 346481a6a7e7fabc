-- ===== src/Composition/Json/Readable.antt =====
-- The data that the parser of src/composition/index.ts gives back as it was: distinct keys, none of
-- them `__proto__`, and numbers that read back as they are written. A value built anew in the order
-- of its keys has the canonical text of the first.
use dsh_runtime_kit.Base.{
  ℕ, zero, suc, ◌≡◌, refl, ap, sym, ◌∙◌, Bool, true, not, ◌&&◌, List, [], ◌∷◌, map, all, arith,
  and-eq-true, codes, Check-cases, inl, inr,
}
use dsh_runtime_kit.Composition.Versions.{Text, same_text}
use dsh_runtime_kit.Composition.Json.{
  Json, null, boolean, number, no_number, string, array, object, foreign, Items, no_items, item,
  Members, empty_object, member, items_of, entries_of, Entries, place, sort, Canonical,
  canonical_items, canonical_entries, canonical_shape, canonical_value, traversal_guard,
}
use dsh_runtime_kit.Composition.Json.Sorted.{all-sort}
use dsh_runtime_kit.Composition.Json.Keys.{is_fresh, distinct, onto-nil, sort-sort, distinct-sort}
use dsh_runtime_kit.Composition.Json.Reordered.{
  define_all, with_value, reordered_shape, reordered, items_of-from, sort-define_all,
}

abbrev pub is_plain_key : Text → Bool
is_plain_key key = not (same_text key (codes "__proto__"))

unfoldable mutual
  unfolding distinct entries_of

  pub readable : (Text → Bool) → Json → Bool
  readable test (number t) = test t
  readable test (array items) = items_readable test items
  readable test (object members) =
      distinct (entries_of members)
      && (all (λ e. is_plain_key e.0) (entries_of members) && members_readable test members)
  readable test v = true

  pub items_readable : (Text → Bool) → Items → Bool
  items_readable test no_items = true
  items_readable test (item v rest) = readable test v && items_readable test rest

  pub members_readable : (Text → Bool) → Members → Bool
  members_readable test empty_object = true
  members_readable test (member key v rest) = readable test v && members_readable test rest

pub items_readable-all :
    (test : Text → Bool) (items : Items)
    → items_readable test items ≡ all (readable test) (items_of items)
unfolding readable items_of
items_readable-all test no_items = refl
items_readable-all test (item v rest) =
    ap (λ b. readable test v && b) (items_readable-all test rest)

pub members_readable-all :
    (test : Text → Bool) (members : Members)
    → members_readable test members ≡ all (λ e. readable test e.1) (entries_of members)
unfolding readable entries_of
members_readable-all test empty_object = refl
members_readable-all test (member key v rest) =
    ap (λ b. readable test v && b) (members_readable-all test rest)

module _ (g : Json → Json) where
  all-with_value :
      (p : Text × Json → Bool) (q : Text × Json → Bool) (es : Entries Json)
      → ((e : Text × Json) → p (with_value g e) ≡ q e)
      → all p (map (with_value g) es) ≡ all q es
  all-with_value p q [] same = refl
  all-with_value p q (e ∷ es) same = ground (arith, same e, all-with_value p q es same)

  pub distinct-with_value : (es : Entries Json) → distinct (map (with_value g) es) ≡ distinct es
  unfolding distinct
  distinct-with_value [] = refl
  distinct-with_value ((key, v) ∷ es) =
      rw
        (
          all-with_value (λ e. not (same_text key e.0)) (λ e. not (same_text key e.0)) es
              (λ e. refl),
          distinct-with_value es,
        )
        refl

  place-with_value :
      (key : Text) (v : Json) (es : Entries Json)
      → place key (g v) (map (with_value g) es) ≡ map (with_value g) (place key v es)
  unfolding place
  place-with_value key v [] = refl
  place-with_value key v ((m, o) ∷ es) = ground (arith, place-with_value key v es)

  sort-with_value :
      (es : Entries Json) → sort (map (with_value g) es) ≡ map (with_value g) (sort es)
  unfolding sort
  sort-with_value [] = refl
  sort-with_value ((key, v) ∷ es) = rw (sort-with_value es) (place-with_value key v (sort es))

  all_fresh-nil : (es : Entries Json) → all (λ e. is_fresh e.0 (entries_of empty_object)) es ≡ true
  unfolding entries_of
  all_fresh-nil [] = refl
  all_fresh-nil (e ∷ es) = all_fresh-nil es

  sort-reordered :
      (es : Entries Json)
      → distinct es ≡ true
      → sort (entries_of (define_all (map (with_value g) (sort es)) empty_object))
        ≡ map (with_value g) (sort es)
  unfolding entries_of sort
  sort-reordered es d =
      let built : Entries Json = map (with_value g) (sort es) in
      sort-define_all built empty_object (distinct-with_value (sort es) ∙ (distinct-sort es ∙ d))
        (all_fresh-nil built)
      ∙ (onto-nil built ∙ (sort-with_value (sort es) ∙ ap (map (with_value g)) (sort-sort es d)))

  module _ (test : Text → Bool) (f : Canonical)
      (below : (v : Json) (n : ℕ) → readable test v ≡ true → f (g v) n ≡ f v n) where
    canonical_items-map :
        (vs : List Json) (n : ℕ)
        → all (readable test) vs ≡ true
        → canonical_items f (map g vs) n ≡ canonical_items f vs n
    unfolding canonical_items
    canonical_items-map [] n goods = refl
    canonical_items-map (v ∷ vs) n goods =
        let split = and-eq-true (readable test v) (all (readable test) vs) goods in
        elim (Check-cases (f v n)) [
          | inl (first, e) ↦ rw (below v n split.0, e, canonical_items-map vs first.1 split.1) refl
          | inr (x, e) ↦ rw (below v n split.0, e) refl
        ]

    canonical_entries-map :
        (es : Entries Json) (n : ℕ)
        → all (λ e. readable test e.1) es ≡ true
        → canonical_entries f (map (with_value g) es) n ≡ canonical_entries f es n
    unfolding canonical_entries
    canonical_entries-map [] n goods = refl
    canonical_entries-map ((key, v) ∷ es) n goods =
        let split = and-eq-true (readable test v) (all (λ e. readable test e.1) es) goods in
        elim (Check-cases (f v n)) [
          | inl (first, e) ↦
              rw (below v n split.0, e, canonical_entries-map es first.1 split.1) refl
          | inr (x, e) ↦ rw (below v n split.0, e) refl
        ]

    canonical_shape-map :
        (v : Json) (n : ℕ)
        → readable test v ≡ true
        → canonical_shape f (reordered_shape g v) n ≡ canonical_shape f v n
    unfolding canonical_shape reordered_shape readable
    canonical_shape-map (array items) n good =
        rw
          (
            items_of-from (map g (items_of items)),
            canonical_items-map (items_of items) n (sym (items_readable-all test items) ∙ good),
          )
          refl
    canonical_shape-map (object members) n good =
        let (d, other) = and-eq-true _ _ good in
        let goods = (and-eq-true _ _ other).1 in
        rw
          (
            sort-reordered (entries_of members) d,
            canonical_entries-map (sort (entries_of members)) n (
                all-sort (λ e. readable test e.1) (entries_of members)
                ∙ (sym (members_readable-all test members) ∙ goods)),
          )
          refl
    canonical_shape-map null n good = refl
    canonical_shape-map (boolean b) n good = refl
    canonical_shape-map (number t) n good = refl
    canonical_shape-map no_number n good = refl
    canonical_shape-map (string s) n good = refl
    canonical_shape-map foreign n good = refl

pub canonical_value-reordered :
    (test : Text → Bool) (room : ℕ) (v : Json) (n : ℕ)
    → readable test v ≡ true
    → canonical_value room (reordered room v) n ≡ canonical_value room v n
unfolding canonical_value reordered
canonical_value-reordered test zero v n good = refl
canonical_value-reordered test (suc room) v n good =
    elim (Check-cases (traversal_guard n "canonical-value-invalid")) [
      | inl (counted, e) ↦ rw e (
          canonical_shape-map (reordered room) test (canonical_value room)
            (canonical_value-reordered test room) v counted good)
      | inr (x, e) ↦ rw e refl
    ]
