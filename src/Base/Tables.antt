-- ===== src/Base/Tables.antt =====
-- A JavaScript `Map` with text keys as an association list in insertion order.
use Prim.Native.String.{String}
use mathlib.Core.Path.{◌≡◌, refl}
use mathlib.Core.Option.{Option, none, some}
use mathlib.Core.List.{List, [], ◌∷◌}
use native.Mathlib.Omega.{arith}
use text.Mathlib.Text.{◌==◌}
use text.Mathlib.TextEquality.{eq_iff}
use dsh_runtime_kit.Base.Tests.{if◌then◌else◌}

abbrev pub Table {ℓ} : Type ℓ → Type ℓ
Table V = List (String × V)

module _ {ℓ} {V : Type ℓ} where
  -- `map.get(key)`; `none` is `undefined`.
  unfoldable pub lookup : String → Table V → Option V
  lookup key [] = none
  lookup key ((stored, value) ∷ rest) = if stored == key then some value else lookup key rest

  -- `map.set(key, value)`: a key that is present keeps its place.
  unfoldable pub insert : String → V → Table V → Table V
  insert key value [] = (key, value) ∷ []
  insert key value ((stored, old) ∷ rest) =
      if stored == key then (key, value) ∷ rest else (stored, old) ∷ insert key value rest

  -- `map.delete(key)`
  unfoldable pub erase : String → Table V → Table V
  erase key [] = []
  erase key ((stored, old) ∷ rest) =
      if stored == key then erase key rest else (stored, old) ∷ erase key rest

  pub lookup-insert :
      (key other : String) (value : V) (table : Table V)
      → lookup other (insert key value table)
        ≡ (if key == other then some value else lookup other table)
  unfolding lookup insert
  lookup-insert key other value [] = refl
  lookup-insert key other value ((stored, old) ∷ rest) = ground (
    arith,
    eq_iff key other,
    eq_iff stored key,
    eq_iff stored other,
    lookup-insert key other value rest,
  )

  pub lookup-erase :
      (key other : String) (table : Table V)
      → lookup other (erase key table) ≡ (if key == other then none else lookup other table)
  unfolding lookup erase
  lookup-erase key other [] = ground arith
  lookup-erase key other ((stored, old) ∷ rest) =
      ground (
        arith,
        eq_iff key other,
        eq_iff stored key,
        eq_iff stored other,
        lookup-erase key other rest,
      )
