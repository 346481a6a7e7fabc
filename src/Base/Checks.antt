-- ===== src/Base/Checks.antt =====
-- A validator either returns its value or throws an error that carries a code.
use Prim.Native.String.{String}
use mathlib.Core.Bool.{Bool, true, false}
use mathlib.Core.Logic.{◌⊎◌, inl, inr}
use mathlib.Core.Path.{◌≡◌, refl}

pub data Check {ℓ} (A : Type ℓ) : Type ℓ where
  ok : A → Check A
  err : String → Check A

infixl 5 ◌>>=◌ ◌>>◌
abbrev pub ◌>>=◌ {ℓ κ} : {A : Type ℓ} {B : Type κ} → Check A → (A → Check B) → Check B
ok a >>= f = f a
err e >>= f = err e

abbrev pub ◌>>◌ {ℓ κ} : {A : Type ℓ} {B : Type κ} → Check A → Check B → Check B
ok a >> k = k
err e >> k = err e

-- `if (!test) fail(code)`
abbrev pub require : Bool → String → Check (Unit {0})
require true e = ok tt
require false e = err e

-- Whether the validator returned.
abbrev pub passes {ℓ} : {A : Type ℓ} → Check A → Bool
passes (ok a) = true
passes (err e) = false

pub Check-cases {ℓ} :
    {A : Type ℓ} (c : Check A) → ((a : A) × (c ≡ ok a)) ⊎ ((e : String) × (c ≡ err e))
Check-cases (ok a) = inl (a, refl)
Check-cases (err e) = inr (e, refl)

-- A chain of tests that returned has passed its first test.
pub test_of_require {ℓ} :
    {A : Type ℓ} (test : Bool) (code : String) (rest : Check A) {a : A}
    → (require test code >> rest) ≡ ok a
    → test ≡ true
test_of_require true code rest e = refl
test_of_require false code rest e = cc

-- What a chain that returned says of its first link, and of the rest.
pub after_require {ℓ} :
    {A : Type ℓ} (test : Bool) (code : String) (rest : Check A) {a : A}
    → (require test code >> rest) ≡ ok a
    → (test ≡ true) × (rest ≡ ok a)
after_require true code rest e = (refl, e)
after_require false code rest e = cc

pub after_bind {ℓ κ} :
    {A : Type ℓ} {B : Type κ} (c : Check A) (k : A → Check B) {b : B}
    → (c >>= k) ≡ ok b
    → (a : A) × (c ≡ ok a) × (k a ≡ ok b)
after_bind (ok a) k e = (a, refl, e)
after_bind (err x) k e = cc

pub ok_inj {ℓ} : {A : Type ℓ} {a b : A} → ok a ≡ ok b → a ≡ b
ok_inj e = cc
