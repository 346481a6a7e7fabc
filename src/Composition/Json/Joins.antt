-- ===== src/Composition/Json/Joins.antt =====
-- The joined members that canonicalJson of src/composition/index.ts writes, read back.
use dsh_runtime_kit.Base.{
  ℕ, suc, ◌+◌, ◌≤◌, ◌≡◌, refl, ap, ◌∙◌, Bool, true, ◌&&◌, List, [], ◌∷◌, ◌++◌, map, all, length,
  length-append, leb, arith, and-eq-true, ok, Option,
}
use mathlib.Core.List.{append_assoc}
use dsh_runtime_kit.Composition.Versions.{Text}
use dsh_runtime_kit.Composition.Json.{
  Json, array, object, no_items, empty_object, Entries, is_scalar, escape, join, join_more,
  max_json_nodes,
}
use dsh_runtime_kit.Composition.Json.Measures.{total, entry_size, entry_print}
use dsh_runtime_kit.Composition.Json.Tokens.Numbers.{ends_number}
use dsh_runtime_kit.Composition.Json.Keys.{distinct}
use dsh_runtime_kit.Composition.Json.Reordered.{items_from, define_all, with_value}
use dsh_runtime_kit.Composition.Json.Readable.{is_plain_key, readable}
use dsh_runtime_kit.Composition.Json.Parser.{has_key, Parse, list, object_text}
use dsh_runtime_kit.Composition.Json.Steps.{
  opens, skip_space-opens, next_is-opens, list-items, list-nil, object_text-members,
  object_text-nil,
}
use dsh_runtime_kit.Composition.Json.Loops.{list_loop-join, object_loop-join, unseen}
use dsh_runtime_kit.Composition.Json.Literals.{reads_itself}

length-join_more :
    {A : Type 0} (text_of : A → Text) (xs : List A)
    → length xs ≤ length (join_more (map text_of xs))
unfolding join_more
length-join_more text_of [] = omega arith
length-join_more text_of (x ∷ xs) =
    omega (
      arith,
      length-append {0} (text_of x) (join_more (map text_of xs)),
      length-join_more text_of xs,
    )

module _ (read_number : Text → Option Text) (f : Parse Json) (fit : Json → Bool)
    (size_of : Json → ℕ) (text_of : Json → Text) (g : Json → Json)
    (openings : (v : Json)
      → (fit v && readable (reads_itself read_number) v) ≡ true
      → opens (text_of v) ≡ true)
    (below : (v : Json) (rest : Text) (n : ℕ)
      → (fit v && readable (reads_itself read_number) v) ≡ true
      → ends_number rest ≡ true
      → leb (n + size_of v) max_json_nodes ≡ true
      → f (text_of v ++ rest) n ≡ ok (g v, (rest, n + size_of v))) where
  abbrev test : Text → Bool
  test = reads_itself read_number

  abbrev good : Json → Bool
  good v = fit v && readable test v

  abbrev good_entry : Text × Json → Bool
  good_entry (key, v) = is_scalar key && good v

  pub list-join :
      (vs : List Json) (rest : Text) (n : ℕ)
      → all good vs ≡ true
      → leb (n + total size_of vs) max_json_nodes ≡ true
      → list f (join (map text_of vs) ++ (b']' ∷ rest)) n
        ≡ ok (array (items_from (map g vs)), (rest, n + total size_of vs))
  unfolding join items_from
  list-join [] rest n goods few =
      list-nil f n rest ∙ ap (λ k. ok (array no_items, (rest, k))) (omega arith)
  list-join (x ∷ xs) rest n goods few =
      let later : Text = join_more (map text_of xs) ++ (b']' ∷ rest) in
      let whole : Text = text_of x ++ later in
      let opened = openings x (and-eq-true (good x) (all good xs) goods).0 in
      let enough : length xs ≤ length whole = omega (
        arith,
        length-append {0} (text_of x) later,
        length-append {0} (join_more (map text_of xs)) (b']' ∷ rest),
        length-join_more text_of xs,
      ) in
      ap (λ u. list f u n) (append_assoc (text_of x) (join_more (map text_of xs)) (b']' ∷ rest))
      ∙ list-items f n whole (items_from (map g (x ∷ xs))) (rest, n + total size_of (x ∷ xs))
          (skip_space-opens (text_of x) later opened) (next_is-opens (text_of x) later opened)
          (list_loop-join test f fit size_of text_of g openings below x xs rest n (length whole)
            goods enough few)

  unseen-nil : (es : Entries Json) → unseen [] es ≡ true
  unfolding has_key
  unseen-nil [] = refl
  unseen-nil (e ∷ es) = unseen-nil es

  pub object-join :
      (es : Entries Json) (rest : Text) (n : ℕ)
      → all good_entry es ≡ true
      → all (λ e. is_plain_key e.0) es ≡ true
      → distinct es ≡ true
      → leb (n + total (entry_size size_of) es) max_json_nodes ≡ true
      → object_text f (join (map (entry_print text_of) es) ++ (b'}' ∷ rest)) n
        ≡ ok (
          object (define_all (map (with_value g) es) empty_object),
          (rest, n + total (entry_size size_of) es),
        )
  unfolding join define_all
  object-join [] rest n goods plain d few =
      object_text-nil f n rest ∙ ap (λ k. ok (object empty_object, (rest, k))) (omega arith)
  object-join ((key, v) ∷ es) rest n goods plain d few =
      let later : Text = join_more (map (entry_print text_of) es) ++ (b'}' ∷ rest) in
      let inner : Text = (escape key ++ (34 ∷ [])) ++ (b':' ∷ text_of v) in
      let enough : length es ≤ suc (length (inner ++ later)) = omega (
        arith,
        length-append {0} inner later,
        length-append {0} (join_more (map (entry_print text_of) es)) (b'}' ∷ rest),
        length-join_more (entry_print text_of) es,
      ) in
      ap (λ u. object_text f u n)
        (append_assoc (entry_print text_of (key, v)) (join_more (map (entry_print text_of) es))
          (b'}' ∷ rest))
      ∙ object_text-members f n (inner ++ later)
          (
            object (define_all (map (with_value g) ((key, v) ∷ es)) empty_object),
            (rest, n + total (entry_size size_of) ((key, v) ∷ es)),
          )
          (object_loop-join test f fit size_of text_of g openings below key v es [] empty_object
            rest n (suc (length (inner ++ later))) goods plain d (unseen-nil ((key, v) ∷ es)) enough
            few)
