-- ===== src/Composition/Versions/Sets.antt =====
-- The comparators of a set that parseVersionRange of src/composition/index.ts reads.
use dsh_runtime_kit.Base.{
  ℕ, ◌≡◌, ◌≢◌, refl, sym, subst, ap, ◌∙◌, true, false, ◌&&◌, ◌==◌, List, [], ◌∷◌, arith, Bool-cases,
  inl, inr, ok, after_require, after_bind, ok_inj, not, any, codes,
}
use Prim.Native.Nat.{compare, Ordering}
use dsh_runtime_kit.Composition.Versions.{Text, is_empty, split, then_by, compare_semver}
use dsh_runtime_kit.Composition.Versions.Order.{
  flip, flip-compare, flip-then_by, compare_semver-flip,
}
use dsh_runtime_kit.Composition.Versions.Transitive.{
  Follows, then_by-Follows, compare-Follows, semver-Follows,
}
use dsh_runtime_kit.Composition.Versions.Ranges.{
  map_check, parse_comparator, VersionComparator, operator_order, is_eq, is_after, is_repeated,
  drop_repeated, without_repeats, compare_comparators, insert_comparator, sort_comparators,
  parse_set,
}

-- The order of two comparators without the text that they were written as.
abbrev pub rank : VersionComparator → VersionComparator → Ordering
rank x y =
    then_by (compare_semver x.version y.version)
      (compare (operator_order x.operator) (operator_order y.operator))

rank-flip : (x y : VersionComparator) → rank y x ≡ flip (rank x y)
rank-flip x y =
    rw
      (
        compare_semver-flip x.version y.version,
        flip-compare (operator_order x.operator) (operator_order y.operator),
      )
      (flip-then_by _ _)

rank-Follows : (x y z : VersionComparator) → Follows (rank x y) (rank y z) (rank x z)
rank-Follows x y z = then_by-Follows _ _ _ _ _ _ (semver-Follows x.version y.version z.version) (
    compare-Follows (operator_order x.operator) (operator_order y.operator)
      (operator_order z.operator))

own_flip : (p : Ordering) → p ≡ flip p → p ≡ Ordering.eq
own_flip Ordering.lt e = cc
own_flip Ordering.eq e = refl
own_flip Ordering.gt e = cc

rank-same : (x : VersionComparator) → rank x x ≡ Ordering.eq
rank-same x = own_flip (rank x x) (rank-flip x x)

below : (p : Ordering) → p ≢ Ordering.lt → flip p ≢ Ordering.gt
below Ordering.lt high = λ e. high refl
below Ordering.eq high = λ e. cc
below Ordering.gt high = λ e. cc

after_false :
    (a b l : Ordering) → is_after (then_by a (then_by b l)) ≡ false → then_by a b ≢ Ordering.gt
after_false Ordering.lt b l h = λ e. cc
after_false Ordering.eq Ordering.lt l h = λ e. cc
after_false Ordering.eq Ordering.eq l h = λ e. cc
after_false Ordering.eq Ordering.gt l h = λ e. cc
after_false Ordering.gt b l h = λ e. cc

after_true :
    (a b l : Ordering) → is_after (then_by a (then_by b l)) ≡ true → then_by a b ≢ Ordering.lt
after_true Ordering.lt b l h = λ e. cc
after_true Ordering.eq Ordering.lt l h = λ e. cc
after_true Ordering.eq Ordering.eq l h = λ e. cc
after_true Ordering.eq Ordering.gt l h = λ e. cc
after_true Ordering.gt b l h = λ e. cc

repeated-eq :
    (m n : ℕ) (o : Ordering) → (m == n && is_eq o) ≡ true → then_by o (compare m n) ≡ Ordering.eq
repeated-eq m n Ordering.lt h = absurd (ground arith)
repeated-eq m n Ordering.eq h = ground arith
repeated-eq m n Ordering.gt h = absurd (ground arith)

eq-repeated :
    (m n : ℕ) (o : Ordering) → then_by o (compare m n) ≡ Ordering.eq → (m == n && is_eq o) ≡ true
eq-repeated m n Ordering.lt h = cc
eq-repeated m n Ordering.eq h = ground arith
eq-repeated m n Ordering.gt h = cc

-- Each comparator stands not above the next one, from one in front of the list.
abbrev Weak : VersionComparator → List VersionComparator → Type 0
Weak x [] = Unit {0}
Weak x (y ∷ ys) = (rank x y ≢ Ordering.gt) × Weak y ys

abbrev WeakList : List VersionComparator → Type 0
WeakList [] = Unit {0}
WeakList (x ∷ xs) = Weak x xs

-- Each comparator stands strictly below the next one, by version and then by operator.
abbrev Strict : VersionComparator → List VersionComparator → Type 0
Strict x [] = Unit {0}
Strict x (y ∷ ys) = (rank x y ≡ Ordering.lt) × Strict y ys

abbrev pub Ascending : List VersionComparator → Type 0
Ascending [] = Unit {0}
Ascending (x ∷ xs) = Strict x xs

after-rank :
    (locale_compare : Text → Text → Ordering) (x y : VersionComparator)
    → is_after (compare_comparators locale_compare x y) ≡ true
    → rank y x ≢ Ordering.gt
unfolding compare_comparators
after-rank locale_compare x y after =
    subst (λ p. p ≢ Ordering.gt) (sym (rank-flip x y))
      (below (rank x y) (after_true (compare_semver x.version y.version) _ _ after))

before-rank :
    (locale_compare : Text → Text → Ordering) (x y : VersionComparator)
    → is_after (compare_comparators locale_compare x y) ≡ false
    → rank x y ≢ Ordering.gt
unfolding compare_comparators
before-rank locale_compare x y before = after_false (compare_semver x.version y.version) _ _ before

insert-behind :
    (locale_compare : Text → Text → Ordering) (b x : VersionComparator)
    (ys : List VersionComparator)
    → rank b x ≢ Ordering.gt
    → Weak b ys
    → Weak b (insert_comparator locale_compare x ys)
unfolding insert_comparator
insert-behind locale_compare b x [] low w = (low, tt)
insert-behind locale_compare b x (y ∷ ys) low w =
    elim (Bool-cases (is_after (compare_comparators locale_compare x y))) [
      | inl after ↦
          rw after
            (w.0, insert-behind locale_compare y x ys (after-rank locale_compare x y after) w.1)
      | inr before ↦ rw before (low, (before-rank locale_compare x y before, w.1))
    ]

insert-Weak :
    (locale_compare : Text → Text → Ordering) (x : VersionComparator) (ys : List VersionComparator)
    → WeakList ys
    → WeakList (insert_comparator locale_compare x ys)
unfolding insert_comparator
insert-Weak locale_compare x [] w = tt
insert-Weak locale_compare x (y ∷ ys) w =
    elim (Bool-cases (is_after (compare_comparators locale_compare x y))) [
      | inl after ↦
          rw after (insert-behind locale_compare y x ys (after-rank locale_compare x y after) w)
      | inr before ↦ rw before (before-rank locale_compare x y before, w)
    ]

sort-Weak :
    (locale_compare : Text → Text → Ordering) (xs : List VersionComparator)
    → WeakList (sort_comparators locale_compare xs)
unfolding sort_comparators
sort-Weak locale_compare [] = tt
sort-Weak locale_compare (x ∷ xs) =
    insert-Weak locale_compare x (sort_comparators locale_compare xs) (sort-Weak locale_compare xs)

left_lt : (p : Ordering) → p ≢ Ordering.gt → p ≢ Ordering.eq → p ≡ Ordering.lt
left_lt Ordering.lt high same = refl
left_lt Ordering.eq high same = absurd (same refl)
left_lt Ordering.gt high same = absurd (high refl)

repeated-rank : (b y : VersionComparator) → is_repeated y b ≡ true → rank b y ≡ Ordering.eq
unfolding is_repeated
repeated-rank b y h =
    rank-flip y b
    ∙ ap flip (
        repeated-eq (operator_order y.operator) (operator_order b.operator)
          (compare_semver y.version b.version) h)

new-rank : (b y : VersionComparator) → is_repeated y b ≡ false → rank b y ≢ Ordering.eq
unfolding is_repeated
new-rank b y h e = clash (
    sym h
    ∙ eq-repeated (operator_order y.operator) (operator_order b.operator)
        (compare_semver y.version b.version) (rank-flip b y ∙ ap flip e))
  where
    clash : false ≡ true → ⊥
    clash c = cc

through : (p q r : Ordering) → p ≡ Ordering.eq → Follows p q r → r ≡ q
through Ordering.lt q r e f = cc
through Ordering.eq q r e f = f
through Ordering.gt q r e f = cc

drop-Strict :
    (k b : VersionComparator) (ys : List VersionComparator)
    → rank k b ≡ Ordering.eq
    → Weak b ys
    → Strict k (drop_repeated b ys)
unfolding drop_repeated
drop-Strict k b [] same w = tt
drop-Strict k b (y ∷ ys) same w = elim (Bool-cases (is_repeated y b)) [
  | inl again ↦ rw again (drop-Strict k y ys (step ∙ repeated-rank b y again) w.1)
  | inr fresh ↦
      rw fresh
        (step ∙ left_lt (rank b y) w.0 (new-rank b y fresh), drop-Strict y y ys (rank-same y) w.1)
]
  where
    step : rank k y ≡ rank b y
    step = through (rank k b) (rank b y) (rank k y) same (rank-Follows k b y)

without_repeats-Ascending :
    (xs : List VersionComparator) → WeakList xs → Ascending (without_repeats xs)
unfolding without_repeats
without_repeats-Ascending [] w = tt
without_repeats-Ascending (x ∷ xs) w = drop-Strict x x xs (rank-same x) w

-- Each comparator of a set that is read stands strictly below the next one, by version and then by
-- operator, whatever order the text has and whatever localeCompare is.
pub parse_set-Ascending :
    (locale_compare : Text → Text → Ordering) (set : Text) (comparators : List VersionComparator)
    → parse_set locale_compare set ≡ ok comparators
    → Ascending comparators
unfolding parse_set
parse_set-Ascending locale_compare set comparators e =
    let tokens = split (codes " ") 0 set in
    let (filled, e1) = after_require (not (is_empty set)) "version-invalid" _ e in
    let (full, e2) = after_require (not (any is_empty tokens)) "version-invalid" _ e1 in
    let (read, reads, e3) =
      after_bind (map_check parse_comparator tokens)
        (λ items. ok (without_repeats (sort_comparators locale_compare items))) e2 in
    subst Ascending (ok_inj e3) (
      without_repeats-Ascending (sort_comparators locale_compare read)
        (sort-Weak locale_compare read))
