-- ===== src/Composition/Json/Shrinks.antt =====
-- Each call of the parser of src/composition/index.ts takes something off the text, so that no loop
-- reaches its limit.
use dsh_runtime_kit.Base.{
  String, ℕ, suc, ◌≤◌, ◌≡◌, refl, Bool, true, false, not, ◌&&◌, ◌||◌, is_digit, [], ◌∷◌, length,
  ltb, ◌==◌, Check, ok, err, ◌>>=◌, ◌>>◌, require, arith, Bool-cases, inl, inr, Option, none, some,
  Option-cases, str_eq,
}
use dsh_runtime_kit.Composition.Versions.{Text}
use dsh_runtime_kit.Composition.Json.{is_scalar}
use dsh_runtime_kit.Composition.Json.Tokens.{
  skip_space, scan_quoted, unescape, outside, decoded, quoted, span_digits, match_sign,
  match_integer, match_fraction, match_exponent, match_parts, match_number,
}
use dsh_runtime_kit.Composition.Json.Parser.{expect, number_text, read_literal, matched_number}

-- The error of a loop that ran out, which the source does not have.
abbrev pub is_limit : String → Bool
is_limit e = str_eq e "loop-limit"

-- A result that leaves at most so many units, or an error other than the limit's.
abbrev pub Leaves {ℓ} : {A : Type ℓ} → ℕ → (A → Text) → Check A → Type 0
Leaves n rest (ok a) = length (rest a) ≤ n
Leaves n rest (err e) = is_limit e ≡ false

abbrev pub left {ℓ} : {A : Type ℓ} → A × (Text × ℕ) → Text
left r = r.1.0

pub Leaves-bind {ℓ κ} :
    {A : Type ℓ} {B : Type κ} (m n : ℕ) (rest : A → Text) (rest' : B → Text) (c : Check A)
    (k : A → Check B)
    → Leaves m rest c
    → ((a : A) → length (rest a) ≤ m → Leaves n rest' (k a))
    → Leaves n rest' (c >>= k)
Leaves-bind m n rest rest' (ok a) k h next = next a h
Leaves-bind m n rest rest' (err e) k h next = h

pub Leaves-require {ℓ} :
    {B : Type ℓ} (n : ℕ) (rest : B → Text) (test : Bool) (code : String) (c : Check B)
    → is_limit code ≡ false
    → Leaves n rest c
    → Leaves n rest (require test code >> c)
Leaves-require n rest true code c other h = h
Leaves-require n rest false code c other h = other

pub length-skip_space : (s : Text) → length (skip_space s) ≤ length s
unfolding skip_space
length-skip_space [] = omega arith
length-skip_space (c ∷ s) = ground (arith, length-skip_space s)

-- The text with the token that was taken off it.
pub Leaves-expect :
    (token : ℕ) (s : Text) (n : ℕ) → length s ≤ n → Leaves n (λ t. token ∷ t) (expect token s)
unfolding expect
Leaves-expect token [] n short = refl
Leaves-expect token (c ∷ s) n short = elim (Bool-cases (c == token)) [
  | inl e ↦ rw e (omega arith)
  | inr e ↦ rw e refl
]

abbrev pub after : Text × Text → Text
after r = r.1

Leaves-scan : (escaped : Bool) (s : Text) → Leaves (length s) after (scan_quoted escaped s)
unfolding scan_quoted
Leaves-scan escaped [] = refl
Leaves-scan escaped (c ∷ s) = elim (Bool-cases (not escaped && c == 34)) [
  | inl e ↦ rw e (omega arith)
  | inr e ↦ elim (Bool-cases (not escaped && ltb c 32)) [
    | inl d ↦ rw (e, d) refl
    | inr d ↦
        rw (e, d)
          (Leaves-bind (length s) (suc (length s)) after after
            (scan_quoted (not escaped && c == 92) s) (λ r. ok (c ∷ r.0, r.1))
            (Leaves-scan (not escaped && c == 92) s) (λ a h. omega arith))
  ]
]

pub Leaves-quoted : (s : Text) → Leaves (length s) after (quoted s)
unfolding quoted decoded
Leaves-quoted s =
    Leaves-bind (length s) (length s) after after (scan_quoted false s) _ (Leaves-scan false s)
      λ scanned h. elim (Option-cases (unescape outside scanned.0)) [
        | inl e ↦ rw e refl
        | inr (text, e) ↦ rw e (
            Leaves-require (length s) after (is_scalar text) "canonical-string-invalid"
              (ok (text, scanned.1)) refl h)
      ]

length-span_digits : (s : Text) → length (span_digits s).1 ≤ length s
unfolding span_digits
length-span_digits [] = omega arith
length-span_digits (c ∷ s) = ground (arith, length-span_digits s)

length-match_sign : (is_sign : ℕ → Bool) (s : Text) → length (match_sign is_sign s).1 ≤ length s
unfolding match_sign
length-match_sign is_sign [] = omega arith
length-match_sign is_sign (c ∷ s) = ground arith

length-match_fraction : (s : Text) → length (match_fraction s).1 ≤ length s
unfolding match_fraction
length-match_fraction [] = omega arith
length-match_fraction (c ∷ s) = ground (arith, length-span_digits s)

length-match_exponent : (s : Text) → length (match_exponent s).1 ≤ length s
unfolding match_exponent
length-match_exponent [] = omega arith
length-match_exponent (c ∷ s) =
    let signed : Text × Text = match_sign (λ d. d == b'+' || d == b'-') s in
    ground (arith, length-match_sign (λ d. d == b'+' || d == b'-') s, length-span_digits signed.1)

-- A match, if there is one, leaves at most so many units.
abbrev Matched : ℕ → Option (Text × Text) → Type 0
Matched n none = Unit {0}
Matched n (some r) = length r.1 ≤ n

Matched-integer : (s : Text) → Matched (length s) (match_integer s)
unfolding match_integer
Matched-integer [] = tt
Matched-integer (c ∷ s) = elim (Bool-cases (c == b'0')) [
  | inl e ↦ rw e (omega arith)
  | inr e ↦ elim (Bool-cases (is_digit c)) [
    | inl d ↦ rw (e, d) (omega (arith, length-span_digits s))
    | inr d ↦ rw (e, d) tt
  ]
]

Matched-parts :
    (n : ℕ) (sign : Text) (o : Option (Text × Text)) → Matched n o → Matched n (match_parts sign o)
unfolding match_parts
Matched-parts n sign none h = tt
Matched-parts n sign (some (integer, s)) h =
    omega (arith, length-match_fraction s, length-match_exponent (match_fraction s).1)

Matched-longer : (m n : ℕ) (o : Option (Text × Text)) → m ≤ n → Matched m o → Matched n o
Matched-longer m n none le h = tt
Matched-longer m n (some r) le h = omega arith

Matched-number : (s : Text) → Matched (length s) (match_number s)
unfolding match_number
Matched-number s =
    let t : Text = (match_sign (λ c. c == b'-') s).1 in
    Matched-parts (length s) _ (match_integer t) (
      Matched-longer (length t) (length s) (match_integer t) (length-match_sign (λ c. c == b'-') s)
        (Matched-integer t))

Leaves-literal :
    (n nodes : ℕ) (o : Option Text) (rest : Text)
    → length rest ≤ n
    → Leaves n left (read_literal o rest nodes)
unfolding read_literal
Leaves-literal n nodes none rest h = refl
Leaves-literal n nodes (some t) rest h = h

Leaves-Matched :
    (read_number : Text → Option Text) (n nodes : ℕ) (o : Option (Text × Text))
    → Matched n o
    → Leaves n left (matched_number read_number o nodes)
unfolding matched_number
Leaves-Matched read_number n nodes none h = refl
Leaves-Matched read_number n nodes (some (literal, rest)) h =
    Leaves-literal n nodes (read_number literal) rest h

pub Leaves-number :
    (read_number : Text → Option Text) (s : Text) (nodes : ℕ)
    → Leaves (length s) left (number_text read_number s nodes)
unfolding number_text
Leaves-number read_number s nodes =
    Leaves-Matched read_number (length s) nodes (match_number s) (Matched-number s)
