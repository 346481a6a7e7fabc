-- ===== src/Composition/Json/Loops.antt =====
-- The loops of the parser of src/composition/index.ts over the members that canonicalJson writes.
use dsh_runtime_kit.Base.{
  ℕ, zero, suc, ◌+◌, ◌≤◌, ◌≡◌, refl, ap, ◌∙◌, Bool, true, false, not, ◌&&◌, List, [], ◌∷◌, ◌++◌,
  map, all, length, leb, arith, and-eq-true, ok, is_digit,
}
use mathlib.Core.List.{append_assoc}
use dsh_runtime_kit.Composition.Versions.{Text}
use dsh_runtime_kit.Composition.Json.{
  Json, object, no_items, item, Members, Entries, is_scalar, escape, join_more, max_json_nodes,
}
use dsh_runtime_kit.Composition.Json.Measures.{total, entry_size, entry_print}
use dsh_runtime_kit.Composition.Json.Tokens.{is_space}
use dsh_runtime_kit.Composition.Json.Tokens.Reads.{quoted-escape}
use dsh_runtime_kit.Composition.Json.Tokens.Numbers.{is_outside_number, ends_number}
use dsh_runtime_kit.Composition.Json.Keys.{is_fresh, distinct, same_text-sym}
use dsh_runtime_kit.Composition.Json.Reordered.{items_from, define_all, with_value}
use dsh_runtime_kit.Composition.Json.Readable.{is_plain_key, readable}
use dsh_runtime_kit.Composition.Json.Parser.{define_member, has_key, Parse, list_loop, object_loop}
use dsh_runtime_kit.Composition.Json.Steps.{
  opens, skip_space-opens, list_loop-last, list_loop-more, object_loop-last, object_loop-more,
}

abbrev pub unseen : List Text → Entries Json → Bool
unseen keys es = all (λ e. not (has_key e.0 keys)) es

unseen-more :
    (key : Text) (keys : List Text) (es : Entries Json)
    → is_fresh key es ≡ true
    → unseen keys es ≡ true
    → unseen (key ∷ keys) es ≡ true
unfolding has_key
unseen-more key keys [] fresh new = refl
unseen-more key keys ((k, v) ∷ es) fresh new =
    ground (arith, same_text-sym key k, unseen-more key keys es)

pub quote_opens : (s : Text) → opens (34 ∷ s) ≡ true
unfolding is_space
quote_opens s = refl

module _ (test : Text → Bool) (f : Parse Json) (fit : Json → Bool) (size_of : Json → ℕ)
    (text_of : Json → Text) (g : Json → Json)
    (openings : (v : Json) → (fit v && readable test v) ≡ true → opens (text_of v) ≡ true)
    (below : (v : Json) (rest : Text) (n : ℕ)
      → (fit v && readable test v) ≡ true
      → ends_number rest ≡ true
      → leb (n + size_of v) max_json_nodes ≡ true
      → f (text_of v ++ rest) n ≡ ok (g v, (rest, n + size_of v))) where
  abbrev pub good : Json → Bool
  good v = fit v && readable test v

  ends_number-more :
      (xs : List Json) (rest : Text)
      → ends_number (join_more (map text_of xs) ++ (b']' ∷ rest)) ≡ true
  unfolding ends_number is_outside_number join_more is_digit
  ends_number-more [] rest = refl
  ends_number-more (x ∷ xs) rest = refl

  pub list_loop-join :
      (x : Json) (xs : List Json) (rest : Text) (n fuel : ℕ)
      → all good (x ∷ xs) ≡ true
      → length xs ≤ fuel
      → leb (n + total size_of (x ∷ xs)) max_json_nodes ≡ true
      → list_loop f (suc fuel) (text_of x ++ (join_more (map text_of xs) ++ (b']' ∷ rest))) n
        ≡ ok (items_from (map g (x ∷ xs)), (rest, n + total size_of (x ∷ xs)))
  unfolding join_more items_from
  list_loop-join x [] rest n fuel goods le few =
      list_loop-last f fuel n (n + size_of x) (text_of x ++ (b']' ∷ rest)) rest (g x) (
        below x (b']' ∷ rest) n (and-eq-true (good x) true goods).0 (ends_number-more [] rest)
          (ground arith))
      ∙ ap (λ k. ok (item (g x) no_items, (rest, k))) (omega arith)
  list_loop-join x (y ∷ ys) rest n zero goods le few = absurd (omega arith)
  list_loop-join x (y ∷ ys) rest n (suc fuel) goods le few =
      let split = and-eq-true (good x) (all good (y ∷ ys)) goods in
      let more : Text = text_of y ++ (join_more (map text_of ys) ++ (b']' ∷ rest)) in
      let shaped : join_more (map text_of (y ∷ ys)) ++ (b']' ∷ rest) ≡ b',' ∷ more =
        ap (λ u. b',' ∷ u) (append_assoc (text_of y) (join_more (map text_of ys)) (b']' ∷ rest)) in
      let opened =
        skip_space-opens (text_of y) (join_more (map text_of ys) ++ (b']' ∷ rest))
          (openings y (and-eq-true (good y) (all good ys) split.1).0) in
      list_loop-more f (suc fuel) n (n + size_of x)
        (text_of x ++ (join_more (map text_of (y ∷ ys)) ++ (b']' ∷ rest))) more (g x)
        (items_from (map g (y ∷ ys))) (rest, n + size_of x + total size_of (y ∷ ys))
        (below x (join_more (map text_of (y ∷ ys)) ++ (b']' ∷ rest)) n split.0
            (ends_number-more (y ∷ ys) rest) (ground arith)
          ∙ ap (λ u. ok (g x, (u, n + size_of x))) shaped)
        (ap (λ u. list_loop f (suc fuel) u (n + size_of x)) opened
          ∙ list_loop-join y ys rest (n + size_of x) fuel split.1 (omega arith) (ground arith))
      ∙ ap (λ k. ok (items_from (map g (x ∷ y ∷ ys)), (rest, k))) (omega arith)

  abbrev pub good_entry : Text × Json → Bool
  good_entry (key, v) = is_scalar key && good v

  pub entry_text :
      (key : Text) (v : Json) (s : Text)
      → entry_print text_of (key, v) ++ s ≡ 34 ∷ (escape key ++ (34 ∷ (b':' ∷ (text_of v ++ s))))
  entry_text key v s = simp append_assoc refl

  ends_number-entries :
      (es : Entries Json) (rest : Text)
      → ends_number (join_more (map (entry_print text_of) es) ++ (b'}' ∷ rest)) ≡ true
  unfolding ends_number is_outside_number join_more is_digit
  ends_number-entries [] rest = refl
  ends_number-entries (e ∷ es) rest = refl

  pub object_loop-join :
      (key : Text) (v : Json) (es : Entries Json) (keys : List Text) (members : Members)
      (rest : Text) (n fuel : ℕ)
      → all good_entry ((key, v) ∷ es) ≡ true
      → all (λ e. is_plain_key e.0) ((key, v) ∷ es) ≡ true
      → distinct ((key, v) ∷ es) ≡ true
      → unseen keys ((key, v) ∷ es) ≡ true
      → length es ≤ fuel
      → leb (n + total (entry_size size_of) ((key, v) ∷ es)) max_json_nodes ≡ true
      → object_loop f
          (suc fuel)
          keys
          (record { members = members; replaced = false })
          (entry_print text_of (key, v)
            ++ (join_more (map (entry_print text_of) es) ++ (b'}' ∷ rest)))
          n
        ≡ ok (
          object (define_all (map (with_value g) ((key, v) ∷ es)) members),
          (rest, n + total (entry_size size_of) ((key, v) ∷ es)),
        )
  unfolding join_more define_all distinct
  object_loop-join key v [] keys members rest n fuel goods plain d new le few =
      let split = and-eq-true (is_scalar key && good v) true goods in
      let part = and-eq-true (is_scalar key) (good v) split.0 in
      let tail : Text = b'}' ∷ rest in
      let opened = skip_space-opens (text_of v) tail (openings v part.1) in
      ap (λ u. object_loop f (suc fuel) keys (record { members = members; replaced = false }) u n)
        (entry_text key v tail)
      ∙ (object_loop-last f fuel n (n + size_of v) keys members
            (escape key ++ (34 ∷ (b':' ∷ (text_of v ++ tail)))) (text_of v ++ tail) rest key (g v)
            (quoted-escape key (b':' ∷ (text_of v ++ tail)) part.0) (ground arith) (ground arith)
            (ap (λ u. f u n) opened
              ∙ below v tail n part.1 (ends_number-entries [] rest) (ground arith))
          ∙ ap (λ k. ok (object (define_member key (g v) members), (rest, k))) (omega arith))
  object_loop-join key v ((k, w) ∷ es) keys members rest n zero goods plain d new le few =
      absurd (omega arith)
  object_loop-join key v ((k, w) ∷ es) keys members rest n (suc fuel) goods plain d new le few =
      let split = and-eq-true (is_scalar key && good v) (all good_entry ((k, w) ∷ es)) goods in
      let part = and-eq-true (is_scalar key) (good v) split.0 in
      let plains =
        and-eq-true (is_plain_key key) (all (λ e. is_plain_key e.0) ((k, w) ∷ es)) plain in
      let news = and-eq-true (not (has_key key keys)) (unseen keys ((k, w) ∷ es)) new in
      let fresh = and-eq-true (is_fresh key ((k, w) ∷ es)) (distinct ((k, w) ∷ es)) d in
      let later : Text = join_more (map (entry_print text_of) es) ++ (b'}' ∷ rest) in
      let more : Text = entry_print text_of (k, w) ++ later in
      let tail : Text = join_more (map (entry_print text_of) ((k, w) ∷ es)) ++ (b'}' ∷ rest) in
      let shaped : tail ≡ b',' ∷ more =
        ap (λ u. b',' ∷ u)
          (append_assoc (entry_print text_of (k, w)) (join_more (map (entry_print text_of) es))
            (b'}' ∷ rest)) in
      let opened = skip_space-opens (text_of v) tail (openings v part.1) in
      let opened' =
        skip_space-opens (entry_print text_of (k, w)) later
          (quote_opens (escape k ++ (34 ∷ []) ++ (b':' ∷ text_of w))) in
      ap
        (λ u.
          object_loop f (suc (suc fuel)) keys (record { members = members; replaced = false }) u n)
        (entry_text key v tail)
      ∙ (object_loop-more f (suc fuel) n (n + size_of v) keys members
            (escape key ++ (34 ∷ (b':' ∷ (text_of v ++ tail)))) (text_of v ++ tail) more key (g v)
            (
              object (define_all (map (with_value g) ((key, v) ∷ (k, w) ∷ es)) members),
              (rest, n + size_of v + total (entry_size size_of) ((k, w) ∷ es)),
            )
            (quoted-escape key (b':' ∷ (text_of v ++ tail)) part.0) (ground arith) plains.0
            (ap (λ u. f u n) opened
              ∙ (below v tail n part.1 (ends_number-entries ((k, w) ∷ es) rest) (ground arith)
                  ∙ ap (λ u. ok (g v, (u, n + size_of v))) shaped))
            (ap
                (λ u.
                  object_loop f (suc fuel) (key ∷ keys)
                    (record { members = define_member key (g v) members; replaced = false }) u
                    (n + size_of v))
                opened'
              ∙ object_loop-join k w es (key ∷ keys) (define_member key (g v) members) rest
                  (n + size_of v) fuel split.1 plains.1 fresh.1
                  (unseen-more key keys ((k, w) ∷ es) fresh.0 news.1) (omega arith) (ground arith))
          ∙ ap
              (λ j. ok (
                object (define_all (map (with_value g) ((key, v) ∷ (k, w) ∷ es)) members),
                (rest, j),
              ))
              (omega arith))
