-- ===== src/Composition/Versions/Transitive.antt =====
-- The order of versions in src/composition/index.ts over three versions.
use dsh_runtime_kit.Base.{
  ℕ, ◌≡◌, ◌≢◌, refl, sym, subst, ◌∙◌, Bool, true, false, not, ◌&&◌, all, is_digit, if◌then◌else◌,
  List, [], ◌∷◌, length, arith,
}
use Prim.Native.Nat.{compare, Ordering}
use dsh_runtime_kit.Composition.Versions.{
  Text, ParsedSemver, is_empty, then_by, compare_texts, numeric_identifier_compare,
  compare_identifier, compare_identifiers, compare_prereleases, compare_semver,
}

-- What the first and the second comparison of three values in line leave of the comparison of the
-- first value with the third.
abbrev pub Follows : Ordering → Ordering → Ordering → Type 0
Follows Ordering.lt Ordering.lt r = r ≡ Ordering.lt
Follows Ordering.lt Ordering.eq r = r ≡ Ordering.lt
Follows Ordering.lt Ordering.gt r = Unit {0}
Follows Ordering.eq q r = r ≡ q
Follows Ordering.gt Ordering.lt r = Unit {0}
Follows Ordering.gt Ordering.eq r = r ≡ Ordering.gt
Follows Ordering.gt Ordering.gt r = r ≡ Ordering.gt

kept : (r r' : Ordering) → r ≡ Ordering.lt → then_by r r' ≡ Ordering.lt
kept r r' f = subst (λ x. then_by x r' ≡ Ordering.lt) (sym f) refl

kept_more : (r r' : Ordering) → r ≡ Ordering.gt → then_by r r' ≡ Ordering.gt
kept_more r r' f = subst (λ x. then_by x r' ≡ Ordering.gt) (sym f) refl

pub then_by-Follows :
    (p q r p' q' r' : Ordering)
    → Follows p q r
    → Follows p' q' r'
    → Follows (then_by p p') (then_by q q') (then_by r r')
then_by-Follows Ordering.lt Ordering.lt r p' q' r' f g = kept r r' f
then_by-Follows Ordering.lt Ordering.eq r p' Ordering.lt r' f g = kept r r' f
then_by-Follows Ordering.lt Ordering.eq r p' Ordering.eq r' f g = kept r r' f
then_by-Follows Ordering.lt Ordering.eq r p' Ordering.gt r' f g = tt
then_by-Follows Ordering.lt Ordering.gt r p' q' r' f g = tt
then_by-Follows Ordering.eq Ordering.lt r Ordering.lt q' r' f g = kept r r' f
then_by-Follows Ordering.eq Ordering.lt r Ordering.eq q' r' f g = kept r r' f
then_by-Follows Ordering.eq Ordering.lt r Ordering.gt q' r' f g = tt
then_by-Follows Ordering.eq Ordering.eq r p' q' r' f g =
    subst (λ x. Follows p' q' (then_by x r')) (sym f) g
then_by-Follows Ordering.eq Ordering.gt r Ordering.lt q' r' f g = tt
then_by-Follows Ordering.eq Ordering.gt r Ordering.eq q' r' f g = kept_more r r' f
then_by-Follows Ordering.eq Ordering.gt r Ordering.gt q' r' f g = kept_more r r' f
then_by-Follows Ordering.gt Ordering.lt r p' q' r' f g = tt
then_by-Follows Ordering.gt Ordering.eq r p' Ordering.lt r' f g = tt
then_by-Follows Ordering.gt Ordering.eq r p' Ordering.eq r' f g = kept_more r r' f
then_by-Follows Ordering.gt Ordering.eq r p' Ordering.gt r' f g = kept_more r r' f
then_by-Follows Ordering.gt Ordering.gt r p' q' r' f g = kept_more r r' f

pub compare-Follows : (a b c : ℕ) → Follows (compare a b) (compare b c) (compare a c)
compare-Follows a b c = ground arith

-- A first value below both others, and a last value below both others.
lt-Follows : (q : Ordering) → Follows Ordering.lt q Ordering.lt
lt-Follows Ordering.lt = refl
lt-Follows Ordering.eq = refl
lt-Follows Ordering.gt = tt

Follows-lt : (p : Ordering) → Follows p Ordering.lt Ordering.lt
Follows-lt Ordering.lt = refl
Follows-lt Ordering.eq = refl
Follows-lt Ordering.gt = tt

gt-Follows : (q : Ordering) → Follows Ordering.gt q Ordering.gt
gt-Follows Ordering.lt = tt
gt-Follows Ordering.eq = refl
gt-Follows Ordering.gt = refl

Follows-gt : (p : Ordering) → Follows p Ordering.gt Ordering.gt
Follows-gt Ordering.lt = tt
Follows-gt Ordering.eq = refl
Follows-gt Ordering.gt = refl

step_of :
    (p r : Ordering)
    → elim p [ Ordering.lt ↦ Ordering.lt | Ordering.eq ↦ r | Ordering.gt ↦ Ordering.gt ]
      ≡ then_by p r
step_of Ordering.lt r = refl
step_of Ordering.eq r = refl
step_of Ordering.gt r = refl

texts-then_by :
    (c d : ℕ) (s t : Text)
    → compare_texts (c ∷ s) (d ∷ t) ≡ then_by (compare c d) (compare_texts s t)
unfolding compare_texts
texts-then_by c d s t = step_of (compare c d) (compare_texts s t)

compare_texts-Follows :
    (s t u : Text) → Follows (compare_texts s t) (compare_texts t u) (compare_texts s u)
unfolding compare_texts
compare_texts-Follows [] [] [] = refl
compare_texts-Follows [] [] (e ∷ u) = refl
compare_texts-Follows [] (d ∷ t) [] = tt
compare_texts-Follows [] (d ∷ t) (e ∷ u) = lt-Follows (compare_texts (d ∷ t) (e ∷ u))
compare_texts-Follows (c ∷ s) [] [] = refl
compare_texts-Follows (c ∷ s) [] (e ∷ u) = tt
compare_texts-Follows (c ∷ s) (d ∷ t) [] = Follows-gt (compare_texts (c ∷ s) (d ∷ t))
compare_texts-Follows (c ∷ s) (d ∷ t) (e ∷ u) =
    rw (texts-then_by c d s t, texts-then_by d e t u, texts-then_by c e s u)
      (then_by-Follows (compare c d) (compare d e) (compare c e) (compare_texts s t)
        (compare_texts t u) (compare_texts s u) (compare-Follows c d e)
        (compare_texts-Follows s t u))

numeric-Follows :
    (s t u : Text)
    → Follows
        (numeric_identifier_compare s t)
        (numeric_identifier_compare t u)
        (numeric_identifier_compare s u)
unfolding numeric_identifier_compare
numeric-Follows s t u =
    then_by-Follows _ _ _ _ _ _ (compare-Follows (length s) (length t) (length u))
      (compare_texts-Follows s t u)

-- The comparison of two identifiers, from whether each is numeric and from both comparisons.
abbrev by_kind : Bool → Bool → Ordering → Ordering → Ordering
by_kind an bn numbers texts =
    if an && bn then numbers else if an then Ordering.lt else if bn then Ordering.gt else texts

by_kind-Follows :
    (x y z : Bool) (n n' n'' t t' t'' : Ordering)
    → Follows n n' n''
    → Follows t t' t''
    → Follows (by_kind x y n t) (by_kind y z n' t') (by_kind x z n'' t'')
by_kind-Follows true true true n n' n'' t t' t'' f g = f
by_kind-Follows true true false n n' n'' t t' t'' f g = Follows-lt n
by_kind-Follows true false true n n' n'' t t' t'' f g = tt
by_kind-Follows true false false n n' n'' t t' t'' f g = lt-Follows t'
by_kind-Follows false true true n n' n'' t t' t'' f g = gt-Follows n'
by_kind-Follows false true false n n' n'' t t' t'' f g = tt
by_kind-Follows false false true n n' n'' t t' t'' f g = Follows-gt t
by_kind-Follows false false false n n' n'' t t' t'' f g = g

identifier-Follows :
    (s t u : Text)
    → Follows (compare_identifier s t) (compare_identifier t u) (compare_identifier s u)
unfolding compare_identifier
identifier-Follows s t u =
    by_kind-Follows (not (is_empty s) && all is_digit s) (not (is_empty t) && all is_digit t)
      (not (is_empty u) && all is_digit u) _ _ _ _ _ _ (numeric-Follows s t u)
      (compare_texts-Follows s t u)

identifiers-Follows :
    (s t u : List Text)
    → Follows (compare_identifiers s t) (compare_identifiers t u) (compare_identifiers s u)
unfolding compare_identifiers
identifiers-Follows [] [] [] = refl
identifiers-Follows [] [] (c ∷ cs) = refl
identifiers-Follows [] (b ∷ bs) [] = tt
identifiers-Follows [] (b ∷ bs) (c ∷ cs) = lt-Follows (compare_identifiers (b ∷ bs) (c ∷ cs))
identifiers-Follows (a ∷ as') [] [] = refl
identifiers-Follows (a ∷ as') [] (c ∷ cs) = tt
identifiers-Follows (a ∷ as') (b ∷ bs) [] = Follows-gt (compare_identifiers (a ∷ as') (b ∷ bs))
identifiers-Follows (a ∷ as') (b ∷ bs) (c ∷ cs) =
    then_by-Follows _ _ _ _ _ _ (identifier-Follows a b c) (identifiers-Follows as' bs cs)

prereleases-Follows :
    (s t u : List Text)
    → Follows (compare_prereleases s t) (compare_prereleases t u) (compare_prereleases s u)
unfolding compare_prereleases
prereleases-Follows [] [] [] = refl
prereleases-Follows [] [] (c ∷ cs) = refl
prereleases-Follows [] (b ∷ bs) [] = tt
prereleases-Follows [] (b ∷ bs) (c ∷ cs) = gt-Follows (compare_prereleases (b ∷ bs) (c ∷ cs))
prereleases-Follows (a ∷ as') [] [] = refl
prereleases-Follows (a ∷ as') [] (c ∷ cs) = tt
prereleases-Follows (a ∷ as') (b ∷ bs) [] = Follows-lt (compare_prereleases (a ∷ as') (b ∷ bs))
prereleases-Follows (a ∷ as') (b ∷ bs) (c ∷ cs) = identifiers-Follows (a ∷ as') (b ∷ bs) (c ∷ cs)

pub semver-Follows :
    (a b c : ParsedSemver) → Follows (compare_semver a b) (compare_semver b c) (compare_semver a c)
unfolding compare_semver
semver-Follows a b c = then_by-Follows _ _ _ _ _ _ (numeric-Follows a.major b.major c.major) (
    then_by-Follows _ _ _ _ _ _ (numeric-Follows a.minor b.minor c.minor) (
      then_by-Follows _ _ _ _ _ _ (numeric-Follows a.patch b.patch c.patch)
        (prereleases-Follows a.prerelease b.prerelease c.prerelease)))

-- What the comparisons leave when neither of the first two is `gt`.
not_above : (p q r : Ordering) → Follows p q r → p ≢ Ordering.gt → q ≢ Ordering.gt → r ≢ Ordering.gt
not_above Ordering.lt Ordering.lt r f low high = λ e. cc
not_above Ordering.lt Ordering.eq r f low high = λ e. cc
not_above Ordering.lt Ordering.gt r f low high = absurd (high refl)
not_above Ordering.eq q r f low high = λ e. high (sym f ∙ e)
not_above Ordering.gt q r f low high = absurd (low refl)

-- compareSemver is transitive: a version that does not stand above a second one, which does not stand
-- above a third one, does not stand above the third.
pub compare_semver_trans :
    (a b c : ParsedSemver)
    → compare_semver a b ≢ Ordering.gt
    → compare_semver b c ≢ Ordering.gt
    → compare_semver a c ≢ Ordering.gt
compare_semver_trans a b c = not_above _ _ _ (semver-Follows a b c)
