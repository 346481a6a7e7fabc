-- ===== src/Composition/Json/Measures.antt =====
-- What the traversals of src/composition/index.ts come to: when they return, and what they count.
use dsh_runtime_kit.Base.{
  ℕ, zero, suc, ◌+◌, ◌≡◌, refl, Bool, true, false, ◌&&◌, List, [], ◌∷◌, ◌++◌, map, all, String,
  subst, Check, ok, err, ◌>>=◌, ◌>>◌, require, codes,
}
use dsh_runtime_kit.Composition.Versions.{Text}
use dsh_runtime_kit.Composition.Json.{
  Json, null, boolean, number, no_number, string, array, object, foreign, items_of, entries_of,
  is_scalar, stringify, join, sort,
}

-- The check returns the value when the test holds, and fails when it does not.
pub data Yields {ℓ} {A : Type ℓ} : Check A → Bool → A → Type ℓ where
  returns : (a : A) → Yields (ok a) true a
  fails : (e : String) (a : A) → Yields (err e) false a

pub Yields-as {ℓ} :
    {A : Type ℓ} {c : Check A} {p q : Bool} {a b : A} → Yields c p a → p ≡ q → a ≡ b → Yields c q b
Yields-as {A} {c} {p} {q} {a} {b} y e d =
    subst (λ r. Yields c r b) e (subst (λ x. Yields c p x) d y)

pub Yields-bind {ℓ κ} :
    {A : Type ℓ} {B : Type κ} {c : Check A} {p q : Bool} {a : A} {b : B} (f : A → Check B)
    → Yields c p a
    → (p ≡ true → Yields (f a) q b)
    → Yields (c >>= f) (p && q) b
Yields-bind f (returns a) next = next refl
Yields-bind {A} {B} {c} {p} {q} {a} {b} f (fails e x) next = fails e b

pub Yields-map {ℓ κ} :
    {A : Type ℓ} {B : Type κ} {c : Check A} {p : Bool} {a : A} (g : A → B)
    → Yields c p a
    → Yields (c >>= λ x. ok (g x)) p (g a)
Yields-map g (returns a) = returns (g a)
Yields-map g (fails e a) = fails e (g a)

pub Yields-then {ℓ} :
    {B : Type ℓ} {c : Check B} {q : Bool} {b : B} (test : Bool) (code : String)
    → (test ≡ true → Yields c q b)
    → Yields (require test code >> c) (test && q) b
Yields-then true code next = next refl
Yields-then {B} {c} {q} {b} false code next = fails code b

pub returned {ℓ} :
    {A : Type ℓ} {c : Check A} {p : Bool} {a : A} → Yields c p a → p ≡ true → c ≡ ok a
returned (returns a) e = refl
returned (fails x a) e = cc

pub test_of_returned {ℓ} :
    {A : Type ℓ} {c : Check A} {p : Bool} {a b : A} → Yields c p a → c ≡ ok b → (p ≡ true) × (a ≡ b)
test_of_returned (returns a) e = (refl, cc)
test_of_returned (fails x a) e = cc

module _ {ℓ} {A : Type ℓ} where
  abbrev pub total : (A → ℕ) → List A → ℕ
  total size [] = 0
  total size (x ∷ xs) = size x + total size xs

-- The calls one level down, when they return and what they return.
abbrev pub entry_fits : (Json → Bool) → Text × Json → Bool
entry_fits fit (key, v) = is_scalar key && fit v

abbrev pub entry_size : (Json → ℕ) → Text × Json → ℕ
entry_size size (key, v) = size v

abbrev pub entry_print : (Json → Text) → Text × Json → Text
entry_print print (key, v) = stringify key ++ (b':' ∷ print v)

unfoldable pub fits_shape : (Json → Bool) → Json → Bool
fits_shape fit no_number = false
fits_shape fit foreign = false
fits_shape fit (string s) = is_scalar s
fits_shape fit (array items) = all fit (items_of items)
fits_shape fit (object members) = all (entry_fits fit) (entries_of members)
fits_shape fit v = true

-- The value is canonical data, at most so many levels deep.
unfoldable pub fits : ℕ → Json → Bool
unfolding fits_shape
fits zero v = false
fits (suc room) v = fits_shape (fits room) v

unfoldable pub size_shape : (Json → ℕ) → Json → ℕ
size_shape size (array items) = total size (items_of items)
size_shape size (object members) = total (entry_size size) (entries_of members)
size_shape size v = 0

-- The nodes of the value.
unfoldable pub size : ℕ → Json → ℕ
unfolding size_shape
size zero v = 1
size (suc room) v = suc (size_shape (size room) v)

unfoldable pub print_shape : (Json → Text) → Json → Text
unfolding join
print_shape print null = codes "null"
print_shape print (boolean true) = codes "true"
print_shape print (boolean false) = codes "false"
print_shape print (number t) = t
print_shape print (string s) = stringify s
print_shape print (array items) = b'[' ∷ (join (map print (items_of items)) ++ (b']' ∷ []))
print_shape print (object members) =
    b'{' ∷ (join (map (entry_print print) (sort (entries_of members))) ++ (b'}' ∷ []))
print_shape print v = []

-- The canonical text of the value.
unfoldable pub print : ℕ → Json → Text
unfolding print_shape
print zero v = []
print (suc room) v = print_shape (print room) v
