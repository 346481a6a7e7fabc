-- ===== src/Composition/Versions/Order.antt =====
-- The order of versions: compareSemver and numericIdentifierCompare of src/composition/index.ts.
use dsh_runtime_kit.Base.{
  ℕ, suc, ◌-◌, ◌+◌, ◌*◌, ◌≤◌, ◌<◌, ◌≡◌, refl, sym, ap, subst, ◌∙◌, true, false, ◌&&◌, List, [], ◌∷◌,
  ltb, leb, ◌==◌, all, length, arith, is_digit, and-eq-true, Bool-cases, ◌⊎◌, inl, inr,
}
use Prim.Native.Nat.{compare, Ordering}
use dsh_runtime_kit.Manager.Value.{decimal}
use dsh_runtime_kit.Composition.Versions.{
  Text, ParsedSemver, then_by, compare_texts, is_empty, starts_with_zero, is_valid_core_identifier,
  numeric_identifier_compare, compare_identifier, compare_identifiers, compare_prereleases,
  compare_semver,
}

abbrev pub flip : Ordering → Ordering
flip Ordering.lt = Ordering.gt
flip Ordering.eq = Ordering.eq
flip Ordering.gt = Ordering.lt

pub flip-then_by : (a b : Ordering) → then_by (flip a) (flip b) ≡ flip (then_by a b)
flip-then_by Ordering.lt b = refl
flip-then_by Ordering.eq b = refl
flip-then_by Ordering.gt b = refl

pub flip-compare : (m n : ℕ) → compare n m ≡ flip (compare m n)
flip-compare m n = ground arith

compare-cases :
    (m n : ℕ)
    → ((m < n) × (compare m n ≡ Ordering.lt))
      ⊎ (((m ≡ n) × (compare m n ≡ Ordering.eq)) ⊎ ((n < m) × (compare m n ≡ Ordering.gt)))
compare-cases m n = ground arith

compare-less : {m n : ℕ} → m < n → compare m n ≡ Ordering.lt
compare-less less = ground arith

compare-more : {m n : ℕ} → n < m → compare m n ≡ Ordering.gt
compare-more more = ground arith

-- A larger number at the head stays larger, whatever digits follow.
decimal-less :
    (s t : Text) (m n : ℕ)
    → all is_digit s ≡ true
    → all is_digit t ≡ true
    → length s ≤ length t
    → m < n
    → decimal m s < decimal n t
unfolding decimal is_digit
decimal-less [] [] m n ds dt le lt = lt
decimal-less [] (d ∷ t) m n ds dt le lt =
    decimal-less [] t m (n * 10 + (d - b'0')) ds (and-eq-true _ _ dt).1 (omega arith) (omega arith)
decimal-less (c ∷ s) [] m n ds dt le lt = absurd (omega arith)
decimal-less (c ∷ s) (d ∷ t) m n ds dt le lt = elim (Bool-cases (leb (suc (length s)) (length t))) [
  | inl shorter ↦
      decimal-less (c ∷ s) t m (n * 10 + (d - b'0')) ds (and-eq-true _ _ dt).1 (ground arith)
        (omega arith)
  | inr equal ↦
      decimal-less s t (m * 10 + (c - b'0')) (n * 10 + (d - b'0')) (and-eq-true _ _ ds).1
        (and-eq-true _ _ dt).1 (omega arith) (next (and-eq-true _ _ ds).0)
]
  where
    next : is_digit c ≡ true → m * 10 + (c - b'0') < n * 10 + (d - b'0')
    next digit = ground arith

-- Digits of one length are compared as the numbers that they denote.
decimal-compare :
    (s t : Text) (m : ℕ)
    → all is_digit s ≡ true
    → all is_digit t ≡ true
    → length s ≡ length t
    → compare_texts s t ≡ compare (decimal m s) (decimal m t)
unfolding decimal is_digit compare_texts
decimal-compare [] [] m ds dt same = ground arith
decimal-compare [] (d ∷ t) m ds dt same = absurd (omega arith)
decimal-compare (c ∷ s) [] m ds dt same = absurd (omega arith)
decimal-compare (c ∷ s) (d ∷ t) m ds dt same = elim (compare-cases c d) [
  | inl (less, e) ↦
      rw (e, compare_texts)
        (sym (
          compare-less (
            decimal-less s t (m * 10 + (c - b'0')) (m * 10 + (d - b'0')) (and-eq-true _ _ ds).1
              (and-eq-true _ _ dt).1 (omega arith) (steps c d less (and-eq-true _ _ ds).0))))
  | inr (inl (same_digit, e)) ↦
      rw (e, compare_texts)
        (subst
          (λ x.
            compare_texts s t
            ≡ compare (decimal (m * 10 + (c - b'0')) s) (decimal (m * 10 + (x - b'0')) t))
          same_digit
          (decimal-compare s t (m * 10 + (c - b'0')) (and-eq-true _ _ ds).1 (and-eq-true _ _ dt).1
            (omega arith)))
  | inr (inr (more, e)) ↦
      rw (e, compare_texts)
        (sym (
          compare-more (
            decimal-less t s (m * 10 + (d - b'0')) (m * 10 + (c - b'0')) (and-eq-true _ _ dt).1
              (and-eq-true _ _ ds).1 (omega arith) (steps d c more (and-eq-true _ _ dt).0))))
]
  where
    steps : (c d : ℕ) → c < d → is_digit c ≡ true → m * 10 + (c - b'0') < m * 10 + (d - b'0')
    steps c d less digit = ground arith

core-facts :
    (s : Text)
    → is_valid_core_identifier s ≡ true
    → (all is_digit s ≡ true)
      × ((ltb 1 (length s) && starts_with_zero s) ≡ false)
      × (is_empty s ≡ false)
unfolding is_valid_core_identifier
core-facts s valid = ((and-eq-true _ _ valid).1, ground arith, ground arith)

-- A longer number without a leading zero is the larger.
decimal-longer :
    (s t : Text)
    → is_valid_core_identifier s ≡ true
    → is_valid_core_identifier t ≡ true
    → length s < length t
    → decimal 0 s < decimal 0 t
unfolding decimal is_digit is_valid_core_identifier
decimal-longer s [] vs vt less = absurd (omega arith)
decimal-longer [] (d ∷ t) vs vt less = cc
decimal-longer (c ∷ s) (d ∷ t) vs vt less =
    let (ds, s_zero_free, s_filled) = core-facts (c ∷ s) vs in
    let (dt, zero_free, filled) = core-facts (d ∷ t) vt in
    decimal-less (c ∷ s) t 0 (0 + (d - b'0')) ds (and-eq-true _ _ dt).1 (omega arith)
      (head (and-eq-true _ _ dt).0 zero_free)
  where
    head : is_digit d ≡ true → (ltb 1 (length (d ∷ t)) && d == b'0') ≡ false → 0 < 0 + (d - b'0')
    head digit zero_free = ground arith

-- Two numeric identifiers that the parser admits are compared as the numbers that they denote, of
-- whatever length.
pub numeric_identifier_compare-decimal :
    (s t : Text)
    → is_valid_core_identifier s ≡ true
    → is_valid_core_identifier t ≡ true
    → numeric_identifier_compare s t ≡ compare (decimal 0 s) (decimal 0 t)
unfolding numeric_identifier_compare
numeric_identifier_compare-decimal s t vs vt = elim (compare-cases (length s) (length t)) [
  | inl (less, e) ↦ rw e (sym (compare-less (decimal-longer s t vs vt less)))
  | inr (inl (same, e)) ↦ rw e (decimal-compare s t 0 (core-facts s vs).0 (core-facts t vt).0 same)
  | inr (inr (more, e)) ↦ rw e (sym (compare-more (decimal-longer t s vt vs more)))
]

compare_texts-flip : (s t : Text) → compare_texts t s ≡ flip (compare_texts s t)
unfolding compare_texts
compare_texts-flip [] [] = refl
compare_texts-flip [] (d ∷ t) = refl
compare_texts-flip (c ∷ s) [] = refl
compare_texts-flip (c ∷ s) (d ∷ t) = ground (arith, compare_texts-flip s t)

numeric-flip : (s t : Text) → numeric_identifier_compare t s ≡ flip (numeric_identifier_compare s t)
unfolding numeric_identifier_compare
numeric-flip s t =
    rw (flip-compare (length s) (length t), compare_texts-flip s t) (flip-then_by _ _)

identifier-flip : (s t : Text) → compare_identifier t s ≡ flip (compare_identifier s t)
unfolding compare_identifier
identifier-flip s t = ground (arith, numeric-flip s t, compare_texts-flip s t)

identifiers-flip : (s t : List Text) → compare_identifiers t s ≡ flip (compare_identifiers s t)
unfolding compare_identifiers
identifiers-flip [] [] = refl
identifiers-flip [] (b ∷ bs) = refl
identifiers-flip (a ∷ as') [] = refl
identifiers-flip (a ∷ as') (b ∷ bs) =
    rw (identifier-flip a b, identifiers-flip as' bs) (flip-then_by _ _)

prereleases-flip : (s t : List Text) → compare_prereleases t s ≡ flip (compare_prereleases s t)
unfolding compare_prereleases
prereleases-flip [] [] = refl
prereleases-flip [] (b ∷ bs) = refl
prereleases-flip (a ∷ as') [] = refl
prereleases-flip (a ∷ as') (b ∷ bs) = identifiers-flip (a ∷ as') (b ∷ bs)

-- Versions in the other order compare the other way round, on every branch of the comparison.
pub compare_semver-flip : (a b : ParsedSemver) → compare_semver b a ≡ flip (compare_semver a b)
unfolding compare_semver
compare_semver-flip a b =
    rw
      (
        numeric-flip a.major b.major,
        numeric-flip a.minor b.minor,
        numeric-flip a.patch b.patch,
        prereleases-flip a.prerelease b.prerelease,
      )
      (lexicographic (numeric_identifier_compare a.major b.major)
        (numeric_identifier_compare a.minor b.minor) (numeric_identifier_compare a.patch b.patch)
        (compare_prereleases a.prerelease b.prerelease))
  where
    lexicographic :
        (a b c d : Ordering)
        → then_by (flip a) (then_by (flip b) (then_by (flip c) (flip d)))
          ≡ flip (then_by a (then_by b (then_by c d)))
    lexicographic a b c d =
        ap (then_by (flip a))
          (ap (then_by (flip b)) (flip-then_by c d) ∙ flip-then_by b (then_by c d))
        ∙ flip-then_by a (then_by b (then_by c d))
