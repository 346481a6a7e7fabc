-- ===== src/Composition/Json/Sorted.antt =====
-- `Object.keys(value).sort()` of src/composition/index.ts keeps what the entries hold.
use dsh_runtime_kit.Base.{true, ℕ, ◌+◌, ◌≡◌, refl, Bool, ◌&&◌, List, [], ◌∷◌, all, arith}
use dsh_runtime_kit.Composition.Versions.{Text}
use dsh_runtime_kit.Composition.Json.{Entries, place, sort}
use dsh_runtime_kit.Composition.Json.Measures.{total}

pub all-and :
    {A : Type 0} (p q : A → Bool) (xs : List A)
    → all p xs ≡ true
    → all q xs ≡ true
    → all (λ x. p x && q x) xs ≡ true
all-and p q [] hp hq = refl
all-and p q (x ∷ xs) hp hq = ground (arith, all-and p q xs)

module _ {ℓ} {V : Type ℓ} where
  pub all-place :
      (p : Text × V → Bool) (key : Text) (v : V) (es : Entries V)
      → all p (place key v es) ≡ (p (key, v) && all p es)
  unfolding place
  all-place p key v [] = refl
  all-place p key v ((stored, old) ∷ rest) = ground (arith, all-place p key v rest)

  pub all-sort : (p : Text × V → Bool) (es : Entries V) → all p (sort es) ≡ all p es
  unfolding sort
  all-sort p [] = refl
  all-sort p ((key, v) ∷ rest) = rw (all-place p key v (sort rest), all-sort p rest) refl

  total-place :
      (size : Text × V → ℕ) (key : Text) (v : V) (es : Entries V)
      → total size (place key v es) ≡ size (key, v) + total size es
  unfolding place
  total-place size key v [] = refl
  total-place size key v ((stored, old) ∷ rest) = ground (arith, total-place size key v rest)

  pub total-sort : (size : Text × V → ℕ) (es : Entries V) → total size (sort es) ≡ total size es
  unfolding sort
  total-sort size [] = refl
  total-sort size ((key, v) ∷ rest) =
      rw (total-place size key v (sort rest), total-sort size rest) refl
