-- ===== src/Composition/Json/Tokens/Reads.antt =====
-- The tokens of DuplicateSafeJsonParser in src/composition/index.ts read back what canonicalJson
-- writes.
use dsh_runtime_kit.Base.{
  ℕ, ◌+◌, ◌*◌, ◌/◌, ◌%◌, ◌≡◌, ◌≤◌, ◌<◌, refl, ap, ◌∙◌, Bool, true, false, not, ◌||◌, [], ◌∷◌, ◌++◌,
  ltb, ◌==◌, if◌then◌else◌, Option, none, some, Check, Check-cases, ok, err, ◌>>=◌, is_digit, arith,
  inl, inr,
}
use dsh_runtime_kit.Composition.Versions.{Text}
use dsh_runtime_kit.Composition.Json.{is_scalar, escape_unit, escape, hex_digit}
use dsh_runtime_kit.Composition.Json.Tokens.{
  scan_quoted, outside, hex_value, unescape_letter, unescape_unit, unescape, prepend, decoded,
  quoted,
}
use mathlib.Core.List.{append_assoc}

-- A unit that stands for itself in a quoted text.
abbrev stands_for_itself : ℕ → Bool
stands_for_itself c = not (c == 34 || c == 92 || ltb c 32)

-- How a unit is escaped: not, by a letter, or by its number.
data Escaped (c : ℕ) : Text → Type 0 where
  itself : stands_for_itself c ≡ true → Escaped c (c ∷ [])
  by_letter :
      (x : ℕ) → unescape_letter x ≡ some (outside, c ∷ []) → 32 ≤ x → Escaped c (92 ∷ x ∷ [])
  by_number :
      c < 32 → Escaped c (92 ∷ b'u' ∷ b'0' ∷ b'0' ∷ hex_digit (c / 16) ∷ hex_digit (c % 16) ∷ [])

Escaped-if :
    (c : ℕ) (test : Bool) (u v : Text)
    → (test ≡ true → Escaped c u)
    → (test ≡ false → Escaped c v)
    → Escaped c (if test then u else v)
Escaped-if c true u v yes_case no_case = yes_case refl
Escaped-if c false u v yes_case no_case = no_case refl

Escaped-unit : (c : ℕ) → Escaped c (escape_unit c)
unfolding escape_unit unescape_letter
Escaped-unit c =
    Escaped-if c (c == 34) _ _ (λ e. by_letter 34 (ground arith) (omega arith))
      λ quote.
        Escaped-if c (c == 92) _ _ (λ e. by_letter 92 (ground arith) (omega arith))
          λ slash.
            Escaped-if c (c == 8) _ _ (λ e. by_letter b'b' (ground arith) (omega arith))
              λ _.
                Escaped-if c (c == 9) _ _ (λ e. by_letter b't' (ground arith) (omega arith))
                  λ _.
                    Escaped-if c (c == 10) _ _ (λ e. by_letter b'n' (ground arith) (omega arith))
                      λ _.
                        Escaped-if c (c == 12) _ _
                          (λ e. by_letter b'f' (ground arith) (omega arith))
                          λ _.
                            Escaped-if c (c == 13) _ _
                              (λ e. by_letter b'r' (ground arith) (omega arith))
                              λ _.
                                Escaped-if c (ltb c 32) _ _ (λ e. by_number (ground arith))
                                  λ large. itself (ground arith)

hex_value-digit : (n : ℕ) → n < 16 → (hex_value (hex_digit n) ≡ some n)
unfolding hex_value hex_digit is_digit
hex_value-digit n small = ground arith

hex_digit-plain : (n : ℕ) → n < 16 → stands_for_itself (hex_digit n) ≡ true
unfolding hex_digit
hex_digit-plain n small = ground arith

abbrev put : Text → Check (Text × Text) → Check (Text × Text)
put u c = c >>= λ r. ok (u ++ r.0, r.1)

scan_quoted-end : (rest : Text) → scan_quoted false (34 ∷ rest) ≡ ok ([], rest)
unfolding scan_quoted
scan_quoted-end rest = refl

scan_quoted-itself :
    (c : ℕ) (t : Text)
    → stands_for_itself c ≡ true
    → scan_quoted false (c ∷ t) ≡ put (c ∷ []) (scan_quoted false t)
unfolding scan_quoted
scan_quoted-itself c t plain = ground arith

scan_quoted-opening :
    (t : Text)
    → scan_quoted false (92 ∷ b'u' ∷ b'0' ∷ b'0' ∷ t)
      ≡ put (92 ∷ b'u' ∷ b'0' ∷ b'0' ∷ []) (scan_quoted false t)
unfolding scan_quoted
scan_quoted-opening t = elim (Check-cases (scan_quoted false t)) [
  | inl (r, e) ↦ rw e refl
  | inr (e, f) ↦ rw f refl
]

scan_quoted-digits :
    (h l : ℕ) (t : Text)
    → stands_for_itself h ≡ true
    → stands_for_itself l ≡ true
    → scan_quoted false (92 ∷ b'u' ∷ b'0' ∷ b'0' ∷ h ∷ l ∷ t)
      ≡ put (92 ∷ b'u' ∷ b'0' ∷ b'0' ∷ h ∷ l ∷ []) (scan_quoted false t)
scan_quoted-digits h l t hp lp =
    scan_quoted-opening (h ∷ l ∷ t)
    ∙ rw (scan_quoted-itself h (l ∷ t) hp, scan_quoted-itself l t lp)
        (gathered (scan_quoted false t))
  where
    gathered :
        (r : Check (Text × Text))
        → put (92 ∷ b'u' ∷ b'0' ∷ b'0' ∷ []) (put (h ∷ []) (put (l ∷ []) r))
          ≡ put (92 ∷ b'u' ∷ b'0' ∷ b'0' ∷ h ∷ l ∷ []) r
    gathered (ok r) = refl
    gathered (err e) = refl

scan_quoted-unit :
    (c : ℕ) (u t : Text) → Escaped c u → scan_quoted false (u ++ t) ≡ put u (scan_quoted false t)
unfolding scan_quoted
scan_quoted-unit c u t (itself plain) = ground arith
scan_quoted-unit c u t (by_letter x reads large) = elim (Check-cases (scan_quoted false t)) [
  | inl (r, e) ↦ rw (e) refl
  | inr (e, f) ↦ rw f refl
]
scan_quoted-unit c u t (by_number small) =
    scan_quoted-digits (hex_digit (c / 16)) (hex_digit (c % 16)) t (hex_digit-plain _ (omega arith))
      (hex_digit-plain _ (omega arith))

prepend-nil : (o : Option Text) → prepend [] o ≡ o
prepend-nil none = refl
prepend-nil (some t) = refl

unescape-digits :
    (h l m n : ℕ) (t : Text)
    → hex_value h ≡ some m
    → hex_value l ≡ some n
    → unescape outside (92 ∷ b'u' ∷ b'0' ∷ b'0' ∷ h ∷ l ∷ t)
      ≡ prepend ((m * 16 + n) ∷ []) (unescape outside t)
unfolding unescape unescape_unit unescape_letter hex_value is_digit
unescape-digits h l m n t hm hn =
    rw (hm, hn) (simp prepend-nil (ap (λ d. prepend (d ∷ []) (unescape outside t)) (omega arith)))

unescape-unit_lem :
    (c : ℕ) (u t : Text)
    → Escaped c u
    → unescape outside (u ++ t) ≡ prepend (c ∷ []) (unescape outside t)
unfolding unescape unescape_unit
unescape-unit_lem c u t (itself plain) = ground arith
unescape-unit_lem c u t (by_letter x reads large) =
    rw reads (prepend-nil (prepend (c ∷ []) (unescape outside t)))
unescape-unit_lem c u t (by_number small) =
    unescape-digits _ _ (c / 16) (c % 16) t (hex_value-digit (c / 16) (omega arith))
      (hex_value-digit (c % 16) (omega arith))
    ∙ ap (λ d. prepend (d ∷ []) (unescape outside t)) (omega arith)

-- What canonicalJson writes for a text reads back as the text, up to its closing quote.
scan_quoted-escape :
    (s rest : Text) → scan_quoted false (escape s ++ (34 ∷ rest)) ≡ ok (escape s, rest)
unfolding escape
scan_quoted-escape [] rest = scan_quoted-end rest
scan_quoted-escape (c ∷ s) rest =
    rw
      (
        append_assoc (escape_unit c) (escape s) (34 ∷ rest),
        scan_quoted-unit c (escape_unit c) (escape s ++ (34 ∷ rest)) (Escaped-unit c),
        scan_quoted-escape s rest,
      )
      refl

unescape-end : unescape outside [] ≡ some []
unfolding unescape
unescape-end = refl

unescape-escape : (s : Text) → unescape outside (escape s) ≡ some s
unfolding escape
unescape-escape [] = unescape-end
unescape-escape (c ∷ s) =
    rw (unescape-unit_lem c (escape_unit c) (escape s) (Escaped-unit c), unescape-escape s) refl

pub quoted-escape :
    (s rest : Text) → is_scalar s ≡ true → quoted (escape s ++ (34 ∷ rest)) ≡ ok (s, rest)
unfolding quoted decoded
quoted-escape s rest scalar = rw (scan_quoted-escape s rest, unescape-escape s, scalar) refl
