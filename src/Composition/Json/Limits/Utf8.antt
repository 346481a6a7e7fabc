-- ===== src/Composition/Json/Limits/Utf8.antt =====
-- UTF-8 lengths of the texts that canonicalJson of src/composition/index.ts writes.
use dsh_runtime_kit.Base.{
  ℕ, suc, ◌+◌, ◌/◌, ◌%◌, ◌≤◌, ◌≡◌, Bool, true, false, ◌&&◌, [], ◌∷◌, ◌++◌, ltb, all, arith,
  if◌then◌else◌, length,
}
use dsh_runtime_kit.Composition.Versions.{Text}
use dsh_runtime_kit.Composition.Json.{
  is_scalar_behind, is_high, is_low, hex_digit, escape_unit, escape,
}
use dsh_runtime_kit.Composition.Json.Limits.{canonical_unit_bytes}
use dsh_runtime_kit.Composition.Json.Limits.Bytes.{units_bytes}
use mathlib.Core.List.{append_assoc}

-- The bytes of a code unit in UTF-8; behind a high surrogate the low one completes four bytes, and
-- an unpaired surrogate becomes U+FFFD.
unfoldable pub unit_bytes : Bool → ℕ → ℕ
unit_bytes paired c =
    if paired && is_low c then 1 else if ltb c 128 then 1 else if ltb c 2048 then 2 else 3

-- `Buffer.byteLength(text, 'utf8')`
unfoldable pub utf8_bytes_behind : Bool → Text → ℕ
utf8_bytes_behind paired [] = 0
utf8_bytes_behind paired (c ∷ s) = unit_bytes paired c + utf8_bytes_behind (is_high c) s

abbrev pub utf8_bytes : Text → ℕ
utf8_bytes s = utf8_bytes_behind false s

abbrev pub is_ascii : Text → Bool
is_ascii s = all (λ c. ltb c 128) s

pub utf8_bytes-ascii :
    (s t : Text) → is_ascii s ≡ true → utf8_bytes (s ++ t) ≡ length s + utf8_bytes t
unfolding utf8_bytes_behind unit_bytes is_high is_low
utf8_bytes-ascii [] t ascii = omega arith
utf8_bytes-ascii (c ∷ s) t ascii = ground (arith, utf8_bytes-ascii s t)

escape_unit-low : (c : ℕ) → is_low c ≡ true → escape_unit c ≡ c ∷ []
unfolding is_low escape_unit
escape_unit-low c low = ground arith

hex_digit-ascii : (n : ℕ) → n ≤ 15 → hex_digit n ≤ 102
unfolding hex_digit
hex_digit-ascii n small = ground arith

-- What the escape of a unit that is no low surrogate takes.
utf8_bytes-escape_unit :
    (c : ℕ) (t : Text)
    → is_low c ≡ false
    → utf8_bytes (escape_unit c ++ t)
      ≡ (if is_high c then 3 else canonical_unit_bytes c) + utf8_bytes_behind (is_high c) t
unfolding utf8_bytes_behind unit_bytes is_high is_low canonical_unit_bytes escape_unit
utf8_bytes-escape_unit c t low = ground (arith, hex_digit-ascii (c / 16), hex_digit-ascii (c % 16))

canonical_unit_bytes-high : (c : ℕ) → is_high c ≡ true → canonical_unit_bytes c ≡ 4
unfolding canonical_unit_bytes is_high
canonical_unit_bytes-high c high = ground arith

-- A text without unpaired surrogates, quoted, takes the bytes that are counted.
pub utf8_bytes-escape :
    (s t : Text) (paired : Bool)
    → is_scalar_behind paired s ≡ true
    → utf8_bytes_behind paired (escape s ++ (34 ∷ t))
      ≡ (if paired then 1 else 0) + units_bytes paired s + suc (utf8_bytes t)
unfolding utf8_bytes_behind unit_bytes is_high is_low units_bytes escape is_scalar_behind
utf8_bytes-escape [] t paired scalar = ground arith
utf8_bytes-escape (c ∷ s) t true scalar =
    ground (arith, escape_unit-low c, utf8_bytes-escape s t false)
utf8_bytes-escape (c ∷ s) t false scalar = ground (
  arith,
  append_assoc (escape_unit c) (escape s) (34 ∷ t),
  utf8_bytes-escape_unit c (escape s ++ (34 ∷ t)),
  canonical_unit_bytes-high c,
  utf8_bytes-escape s t (is_high c),
)
