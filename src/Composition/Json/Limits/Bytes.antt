-- ===== src/Composition/Json/Limits/Bytes.antt =====
-- The bytes that assertCanonicalByteLimit of src/composition/index.ts counts, for texts and values.
use dsh_runtime_kit.Base.{
  ℕ, zero, suc, ◌+◌, ◌-◌, ◌≤◌, ◌≡◌, refl, Bool, true, false, ◌&&◌, List, [], ◌∷◌, leb, ltb, arith,
  ok, err, sym, subst, if◌then◌else◌, Bool-cases, inl, inr, length,
}
use dsh_runtime_kit.Composition.Versions.{Text}
use dsh_runtime_kit.Composition.Json.{
  Json, null, boolean, number, string, array, object, items_of, entries_of, is_scalar, is_high,
}
use dsh_runtime_kit.Composition.Json.Limits.{
  consume, canonical_unit_bytes, consume_units, consume_string, consume_comma,
}
use dsh_runtime_kit.Composition.Json.Measures.{
  Yields, returns, fails, Yields-as, Yields-bind, Yields-then, total,
}

-- The bytes of the units, with a flag for a unit that its pair has counted.
unfoldable pub units_bytes : Bool → Text → ℕ
units_bytes skipped [] = 0
units_bytes true (c ∷ s) = units_bytes false s
units_bytes false (c ∷ s) = canonical_unit_bytes c + units_bytes (is_high c) s

abbrev pub string_bytes : Text → ℕ
string_bytes s = 2 + units_bytes false s

abbrev pub entry_bytes : (Json → ℕ) → Text × Json → ℕ
entry_bytes bytes (key, v) = string_bytes key + 1 + bytes v

-- The members' bytes with one comma for each but the first.
abbrev pub separated {ℓ} : {A : Type ℓ} → (A → ℕ) → List A → ℕ
separated bytes xs = total (λ x. suc (bytes x)) xs - 1

unfoldable pub bytes_shape : (Json → ℕ) → Json → ℕ
bytes_shape bytes null = 4
bytes_shape bytes (boolean b) = if b then 4 else 5
bytes_shape bytes (number t) = length t
bytes_shape bytes (string s) = string_bytes s
bytes_shape bytes (array items) = 2 + separated bytes (items_of items)
bytes_shape bytes (object members) = 2 + separated (entry_bytes bytes) (entries_of members)
bytes_shape bytes v = 0

-- The canonical bytes of the value.
unfoldable pub bytes : ℕ → Json → ℕ
unfolding bytes_shape
bytes zero v = 0
bytes (suc room) v = bytes_shape (bytes room) v

pub Yields-consume :
    (maximum amount b : ℕ)
    → Yields (consume maximum amount b) (leb (b + amount) maximum) (b + amount)
unfolding consume
Yields-consume maximum amount b = elim (Bool-cases (ltb maximum (b + amount))) [
  | inl more ↦
      Yields-as
        (subst
          (λ t. Yields (if t then err "schema-invalid" else ok (b + amount)) false (b + amount))
          (sym more) (fails "schema-invalid" (b + amount)))
        (ground arith) refl
  | inr few ↦
      Yields-as
        (subst (λ t. Yields (if t then err "schema-invalid" else ok (b + amount)) true (b + amount))
          (sym few) (returns (b + amount)))
        (ground arith) refl
]

pub Yields-units :
    (maximum : ℕ) (skipped : Bool) (s : Text) (b : ℕ)
    → leb b maximum ≡ true
    → Yields
        (consume_units maximum skipped s b)
        (leb (b + units_bytes skipped s) maximum)
        (b + units_bytes skipped s)
unfolding consume_units units_bytes
Yields-units maximum skipped [] b le = Yields-as (returns b) (ground arith) (omega arith)
Yields-units maximum true (c ∷ s) b le = Yields-units maximum false s b le
Yields-units maximum false (c ∷ s) b le =
    Yields-as
      (Yields-bind (consume_units maximum (is_high c) s)
        (Yields-consume maximum (canonical_unit_bytes c) b)
        λ w. Yields-units maximum (is_high c) s (b + canonical_unit_bytes c) w)
      (ground arith) (omega arith)

pub Yields-string :
    (maximum : ℕ) (s : Text) (b : ℕ)
    → Yields
        (consume_string maximum s b)
        (is_scalar s && leb (b + string_bytes s) maximum)
        (b + string_bytes s)
unfolding consume_string
Yields-string maximum s b =
    Yields-as
      (Yields-then (is_scalar s) "canonical-string-invalid" λ _.
        Yields-bind (consume_units maximum false s) (Yields-consume maximum 2 b)
          λ w. Yields-units maximum false s (b + 2) w)
      (ground arith) (omega arith)

-- No unit takes less than a byte.
pub length-units_bytes :
    (skipped : Bool) (s : Text) → length s ≤ (if skipped then 1 else 0) + units_bytes skipped s
unfolding units_bytes canonical_unit_bytes is_high
length-units_bytes true [] = omega arith
length-units_bytes false [] = omega arith
length-units_bytes true (c ∷ s) = omega (arith, length-units_bytes false s)
length-units_bytes false (c ∷ s) = ground (arith, length-units_bytes (is_high c) s)

pub Yields-comma :
    (maximum : ℕ) (first : Bool) (b : ℕ)
    → leb b maximum ≡ true
    → Yields
        (consume_comma maximum first b)
        (leb (b + (if first then 0 else 1)) maximum)
        (b + (if first then 0 else 1))
unfolding consume_comma
Yields-comma maximum true b le = Yields-as (returns b) (ground arith) (omega arith)
Yields-comma maximum false b le = Yields-consume maximum 1 b
