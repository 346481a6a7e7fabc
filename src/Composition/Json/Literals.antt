-- ===== src/Composition/Json/Literals.antt =====
-- Numbers of src/composition/index.ts whose text reads back.
use dsh_runtime_kit.Base.{
  ℕ, ◌≡◌, refl, ap, sym, ◌∙◌, Bool, true, false, ◌&&◌, ◌||◌, [], ◌∷◌, ◌++◌, ◌==◌, arith,
  and-eq-true, ok, Option, none, some, is_digit,
}
use dsh_runtime_kit.Composition.Versions.{Text, same_text, is_empty}
use dsh_runtime_kit.Composition.Json.{Json, number}
use dsh_runtime_kit.Composition.Json.Tokens.{
  is_space, match_number, match_sign, match_integer, match_parts,
}
use dsh_runtime_kit.Composition.Json.Tokens.Numbers.{ends_number, match_number-behind}
use dsh_runtime_kit.Composition.Json.Parser.{
  read_literal, matched_number, Parse, behind_literal, number_text, plain_text, value_shape,
}
use dsh_runtime_kit.Composition.Json.Steps.{opens}

pub same_text-eq : (s t : Text) → same_text s t ≡ true → s ≡ t
unfolding same_text
same_text-eq [] [] e = refl
same_text-eq [] (d ∷ t) e = cc
same_text-eq (c ∷ s) [] e = cc
same_text-eq (c ∷ s) (d ∷ t) e = ground (arith, same_text-eq s t)

unfoldable pub reads_as : Text → Option (Text × Text) → Option Text → Bool
reads_as t none read = false
reads_as t (some (literal, rest)) none = false
reads_as t (some (literal, rest)) (some written) =
    same_text literal t && (is_empty rest && same_text written t)

-- A number's text that the regular expression matches as a whole, and that reads as the number.
unfoldable pub reads_itself : (Text → Option Text) → Text → Bool
unfolding reads_as
reads_itself read_number t = reads_as t (match_number t) (read_number t)

reads_as-facts :
    (t : Text) (matched : Option (Text × Text)) (read : Option Text)
    → reads_as t matched read ≡ true
    → (matched ≡ some (t, [])) × (read ≡ some t)
unfolding reads_as
reads_as-facts t none read e = cc
reads_as-facts t (some (literal, rest)) none e = cc
reads_as-facts t (some (literal, [])) (some written) e =
    let (same, other) = and-eq-true (same_text literal t) (same_text written t) e in
    (ap (λ u. some (u, [])) (same_text-eq literal t same), ap some (same_text-eq written t other))
reads_as-facts t (some (literal, c ∷ rest)) (some written) e = ground arith

reads_itself-facts :
    (read_number : Text → Option Text) (t : Text)
    → reads_itself read_number t ≡ true
    → (match_number t ≡ some (t, [])) × (read_number t ≡ some t)
unfolding reads_itself
reads_itself-facts read_number t e = reads_as-facts t (match_number t) (read_number t) e

none-some : {A : Type 0} {a : A} → none ≡ some a → ⊥
none-some e = cc

match_number-nil : match_number [] ≡ none
unfolding match_number match_sign match_integer match_parts
match_number-nil = refl

number_head :
    (c : ℕ) (s : Text) (r : Text × Text)
    → match_number (c ∷ s) ≡ some r
    → (c == b'-' || is_digit c) ≡ true
unfolding match_number match_sign match_integer match_parts is_digit
number_head c s r e = ground arith

opens-digit : (c : ℕ) (s : Text) → (c == b'-' || is_digit c) ≡ true → opens (c ∷ s) ≡ true
unfolding is_digit is_space
opens-digit c s head = ground arith

pub opens-number :
    (read_number : Text → Option Text) (t : Text)
    → reads_itself read_number t ≡ true
    → opens t ≡ true
opens-number read_number [] good =
    absurd (none-some (sym match_number-nil ∙ (reads_itself-facts read_number [] good).0))
opens-number read_number (c ∷ t) good =
    opens-digit c t (number_head c t ((c ∷ t), []) (reads_itself-facts read_number (c ∷ t) good).0)

module _ (read_number : Text → Option Text) where
  number_text-append :
      (t rest : Text) (n : ℕ)
      → reads_itself read_number t ≡ true
      → ends_number rest ≡ true
      → number_text read_number (t ++ rest) n ≡ ok (number t, (rest, n))
  unfolding number_text matched_number read_literal
  number_text-append t rest n good ends =
      let (matched, read) = reads_itself-facts read_number t good in
      rw (match_number-behind rest ends t, matched, read) refl

  plain_text-number :
      (c : ℕ) (s : Text) (n : ℕ)
      → (c == b'-' || is_digit c) ≡ true
      → plain_text read_number (c ∷ s) n ≡ number_text read_number (c ∷ s) n
  unfolding plain_text behind_literal is_digit
  plain_text-number c s n head = ground arith

  value_shape-number :
      (f : Parse Json) (c : ℕ) (s : Text) (n : ℕ)
      → (c == b'-' || is_digit c) ≡ true
      → value_shape read_number f (c ∷ s) n ≡ plain_text read_number (c ∷ s) n
  unfolding value_shape is_digit
  value_shape-number f c s n head = ground arith

  pub value_shape-text :
      (f : Parse Json) (t rest : Text) (n : ℕ)
      → reads_itself read_number t ≡ true
      → ends_number rest ≡ true
      → value_shape read_number f (t ++ rest) n ≡ ok (number t, (rest, n))
  value_shape-text f [] rest n good ends =
      absurd (none-some (sym match_number-nil ∙ (reads_itself-facts read_number [] good).0))
  value_shape-text f (c ∷ t) rest n good ends =
      let head = number_head c t ((c ∷ t), []) (reads_itself-facts read_number (c ∷ t) good).0 in
      value_shape-number f c (t ++ rest) n head
      ∙ (plain_text-number c (t ++ rest) n head ∙ number_text-append (c ∷ t) rest n good ends)
