-- ===== src/Composition/Json/Tokens.antt =====
-- The tokens of DuplicateSafeJsonParser in src/composition/index.ts: white space, quoted texts as
-- `JSON.parse` reads them, and the regular expression of numbers. The source's offset is here the
-- text that is left.
pub mod Numbers
pub mod Reads
use dsh_runtime_kit.Base.{
  ℕ, zero, suc, ◌+◌, ◌-◌, ◌*◌, Bool, true, false, not, ◌&&◌, ◌||◌, List, [], ◌∷◌, ◌++◌, ltb, leb,
  ◌==◌, if◌then◌else◌, Option, none, some, Check, ok, err, ◌>>=◌, ◌>>◌, require, is_digit,
}
use dsh_runtime_kit.Composition.Versions.{Text, is_empty}
use dsh_runtime_kit.Composition.Json.{is_scalar}

unfoldable pub is_space : ℕ → Bool
is_space c = c == 9 || c == 10 || c == 13 || c == 32

-- `whitespace`
unfoldable pub skip_space : Text → Text
skip_space [] = []
skip_space (c ∷ s) = if is_space c then skip_space s else c ∷ s

-- The loop of `quoted`, behind the opening quote: the text up to the closing one, and what follows.
unfoldable pub scan_quoted : Bool → Text → Check (Text × Text)
scan_quoted escaped [] = err "json-invalid"
scan_quoted escaped (c ∷ s) =
    let rest = scan_quoted (not escaped && c == 92) s in
    if not escaped && c == 34
    then ok ([], s)
    else if not escaped && ltb c 32
    then err "json-invalid"
    else (rest >>= λ r. ok (c ∷ r.0, r.1))

-- Where `JSON.parse` stands in a quoted text: outside an escape, behind a backslash, or behind
-- digits of `\u` with a number of digits left.
pub data Escape : Type 0 where
  outside : Escape
  backslash : Escape
  digits : ℕ → ℕ → Escape

unfoldable pub hex_value : ℕ → Option ℕ
hex_value c =
    if is_digit c
    then some (c - b'0')
    else if leb b'a' c && leb c b'f'
    then some (c - 87)
    else if leb b'A' c && leb c b'F'
    then some (c - 55)
    else none

-- The letter behind a backslash.
unfoldable pub unescape_letter : ℕ → Option (Escape × Text)
unescape_letter c =
    if c == 34 || c == 92 || c == b'/'
    then some (outside, c ∷ [])
    else if c == b'b'
    then some (outside, 8 ∷ [])
    else if c == b't'
    then some (outside, 9 ∷ [])
    else if c == b'n'
    then some (outside, 10 ∷ [])
    else if c == b'f'
    then some (outside, 12 ∷ [])
    else if c == b'r'
    then some (outside, 13 ∷ [])
    else if c == b'u'
    then some (digits 3 0, [])
    else none

-- One code unit: the next place, and what it adds to the decoded text.
unfoldable pub unescape_unit : Escape → ℕ → Option (Escape × Text)
unescape_unit outside c =
    if c == 92 then some (backslash, []) else if ltb c 32 then none else some (outside, c ∷ [])
unescape_unit backslash c = unescape_letter c
unescape_unit (digits left number) c = elim (hex_value c) [
  | none ↦ none
  | some d ↦ elim left [
    | zero ↦ some (outside, (number * 16 + d) ∷ [])
    | suc less ↦ some (digits less (number * 16 + d), [])
  ]
]

abbrev prepend : Text → Option Text → Option Text
prepend s none = none
prepend s (some t) = some (s ++ t)

-- `JSON.parse` of a quoted text, between its quotes.
unfoldable pub unescape : Escape → Text → Option Text
unescape outside [] = some []
unescape backslash [] = none
unescape (digits left number) [] = none
unescape place (c ∷ s) = elim (unescape_unit place c) [
  | none ↦ none
  | some (next, written) ↦ prepend written (unescape next s)
]

unfoldable pub decoded : Option Text → Check Text
decoded none = err "json-invalid"
decoded (some s) = ok s

-- `quoted`, behind the opening quote.
unfoldable pub quoted : Text → Check (Text × Text)
unfolding scan_quoted unescape decoded
quoted s = do
  scanned ← scan_quoted false s
  text ← decoded (unescape outside scanned.0)
  require (is_scalar text) "canonical-string-invalid"
  ok (text, scanned.1)

-- The digits at the head, and what follows.
unfoldable pub span_digits : Text → Text × Text
span_digits [] = ([], [])
span_digits (c ∷ s) =
    let (ds, rest) = span_digits s in if is_digit c then (c ∷ ds, rest) else ([], c ∷ s)

-- `-?`, or `[+-]?`: a sign at the head.
unfoldable pub match_sign : (ℕ → Bool) → Text → Text × Text
match_sign is_sign [] = ([], [])
match_sign is_sign (c ∷ s) = if is_sign c then (c ∷ [], s) else ([], c ∷ s)

-- `0|[1-9]\d*`
unfoldable pub match_integer : Text → Option (Text × Text)
match_integer [] = none
match_integer (c ∷ s) =
    let (ds, rest) = span_digits s in
    if c == b'0' then some (c ∷ [], s) else if is_digit c then some (c ∷ ds, rest) else none

-- `(?:\.\d+)?`
unfoldable pub match_fraction : Text → Text × Text
match_fraction [] = ([], [])
match_fraction (c ∷ s) =
    let (ds, rest) = span_digits s in
    if c == b'.' && not (is_empty ds) then (c ∷ ds, rest) else ([], c ∷ s)

-- `(?:[eE][+-]?\d+)?`
unfoldable pub match_exponent : Text → Text × Text
match_exponent [] = ([], [])
match_exponent (c ∷ s) =
    let (sign, t) = match_sign (λ d. d == b'+' || d == b'-') s in
    let (ds, rest) = span_digits t in
    if (c == b'e' || c == b'E') && not (is_empty ds) then (c ∷ (sign ++ ds), rest) else ([], c ∷ s)

-- What the regular expression of `value` matches behind a sign and an integer.
unfoldable pub match_parts : Text → Option (Text × Text) → Option (Text × Text)
match_parts sign none = none
match_parts sign (some (integer, s)) =
    let (fraction, t) = match_fraction s in
    let (exponent, rest) = match_exponent t in
    some (sign ++ (integer ++ (fraction ++ exponent)), rest)

-- The regular expression of `value`: what it matches at the head, and what follows.
unfoldable pub match_number : Text → Option (Text × Text)
unfolding match_parts
match_number s = let (sign, t) = match_sign (λ c. c == b'-') s in match_parts sign (match_integer t)
