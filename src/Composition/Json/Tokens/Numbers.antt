-- ===== src/Composition/Json/Tokens/Numbers.antt =====
-- The regular expression of numbers in src/composition/index.ts, in front of what ends a number.
use dsh_runtime_kit.Base.{
  ℕ, ◌≡◌, refl, Bool, true, false, not, ◌&&◌, ◌||◌, [], ◌∷◌, ◌++◌, ◌==◌, if◌then◌else◌, Option,
  none, some, is_digit, arith,
}
use dsh_runtime_kit.Composition.Versions.{Text, is_empty}
use dsh_runtime_kit.Composition.Json.Tokens.{
  span_digits, match_sign, match_integer, match_fraction, match_exponent, match_parts, match_number,
}

-- A unit that no part of a number begins with.
unfoldable pub is_outside_number : ℕ → Bool
is_outside_number c =
    not (is_digit c || c == b'.' || c == b'e' || c == b'E' || c == b'+' || c == b'-')

unfoldable pub ends_number : Text → Bool
ends_number [] = true
ends_number (c ∷ s) = is_outside_number c

abbrev behind : Text → Text × Text → Text × Text
behind rest (t, u) = (t, u ++ rest)

abbrev behind? : Text → Option (Text × Text) → Option (Text × Text)
behind? rest none = none
behind? rest (some r) = some (behind rest r)

module _ (rest : Text) (ends : ends_number rest ≡ true) where
  if-behind :
      (b : Bool) (x y : Text × Text)
      → (if b then behind rest x else behind rest y) ≡ behind rest (if b then x else y)
  if-behind true x y = refl
  if-behind false x y = refl

  span_digits-behind : (s : Text) → span_digits (s ++ rest) ≡ behind rest (span_digits s)
  unfolding span_digits ends_number is_outside_number
  span_digits-behind [] =
      elim rest as (λ r. ends_number r ≡ true → span_digits r ≡ ([], r)) [
        | [] ↦ λ _. refl
        | c ∷ t ↦ λ e. ground arith
      ]
        ends
  span_digits-behind (c ∷ s) = ground (arith, span_digits-behind s)

  match_sign-behind :
      (is_sign : ℕ → Bool) (s : Text)
      → ((c : ℕ) → is_outside_number c ≡ true → is_sign c ≡ false)
      → match_sign is_sign (s ++ rest) ≡ behind rest (match_sign is_sign s)
  unfolding match_sign ends_number
  match_sign-behind is_sign [] signs =
      elim rest as (λ r. ends_number r ≡ true → match_sign is_sign r ≡ ([], r)) [
        | [] ↦ λ _. refl
        | c ∷ t ↦ λ e. ground (arith, signs c)
      ]
        ends
  match_sign-behind is_sign (c ∷ s) signs = ground arith

  match_integer-behind : (s : Text) → match_integer (s ++ rest) ≡ behind? rest (match_integer s)
  unfolding match_integer ends_number is_outside_number is_digit
  match_integer-behind [] =
      elim rest as (λ r. ends_number r ≡ true → match_integer r ≡ none) [
        | [] ↦ λ _. refl
        | c ∷ t ↦ λ e. ground arith
      ]
        ends
  match_integer-behind (c ∷ s) = ground (arith, span_digits-behind s)

  match_fraction-behind : (s : Text) → match_fraction (s ++ rest) ≡ behind rest (match_fraction s)
  unfolding match_fraction ends_number is_outside_number
  match_fraction-behind [] =
      elim rest as (λ r. ends_number r ≡ true → match_fraction r ≡ ([], r)) [
        | [] ↦ λ _. refl
        | c ∷ t ↦ λ e. ground arith
      ]
        ends
  match_fraction-behind (c ∷ s) = ground (arith, span_digits-behind s)

  exponent_sign : (c : ℕ) → is_outside_number c ≡ true → (c == b'+' || c == b'-') ≡ false
  unfolding is_outside_number
  exponent_sign c e = ground arith

  number_sign : (c : ℕ) → is_outside_number c ≡ true → (c == b'-') ≡ false
  unfolding is_outside_number
  number_sign c e = ground arith

  match_exponent-behind : (s : Text) → match_exponent (s ++ rest) ≡ behind rest (match_exponent s)
  unfolding match_exponent ends_number is_outside_number
  match_exponent-behind [] =
      elim rest as (λ r. ends_number r ≡ true → match_exponent r ≡ ([], r)) [
        | [] ↦ λ _. refl
        | c ∷ t ↦ λ e. ground arith
      ]
        ends
  match_exponent-behind (c ∷ s) =
      let signed : Text × Text = match_sign (λ d. d == b'+' || d == b'-') s in
      let span : Text × Text = span_digits signed.1 in
      rw
        (
          match_sign-behind (λ d. d == b'+' || d == b'-') s exponent_sign,
          span_digits-behind signed.1,
        )
        (if-behind ((c == b'e' || c == b'E') && not (is_empty span.0))
          (c ∷ (signed.0 ++ span.0), span.1) ([], c ∷ s))

  match_parts-behind :
      (sign : Text) (o : Option (Text × Text))
      → match_parts sign (behind? rest o) ≡ behind? rest (match_parts sign o)
  unfolding match_parts
  match_parts-behind sign none = refl
  match_parts-behind sign (some (integer, s)) =
      rw (match_fraction-behind s, match_exponent-behind (match_fraction s).1) refl

  pub match_number-behind : (s : Text) → match_number (s ++ rest) ≡ behind? rest (match_number s)
  unfolding match_number
  match_number-behind s =
      rw
        (
          match_sign-behind (λ c. c == b'-') s number_sign,
          match_integer-behind (match_sign (λ c. c == b'-') s).1,
        )
        (match_parts-behind _ _)
