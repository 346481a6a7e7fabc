-- ===== src/Composition/Versions/Ranges.antt =====
-- parseVersionRange and versionSatisfies of src/composition/index.ts. `localeCompare`, which a locale
-- decides, is a parameter.
use dsh_runtime_kit.Base.{
  ℕ, Bool, true, false, not, ◌&&◌, ◌||◌, List, [], ◌∷◌, ◌++◌, map, ◌==◌, if◌then◌else◌, all, any,
  Check, ok, err, ◌>>=◌, ◌>>◌, require, codes,
}
use Prim.Native.Nat.{compare, Ordering}
use dsh_runtime_kit.Composition.Versions.{
  Text, ParsedSemver, parse_semver, compare_semver, then_by, is_empty, same_text, split,
}

pub data SemverOperator : Type 0 where
  less at_most equal at_least more : SemverOperator

-- OPERATOR_ORDER
abbrev pub operator_order : SemverOperator → ℕ
operator_order less = 0
operator_order at_most = 1
operator_order equal = 2
operator_order at_least = 3
operator_order more = 4

pub record VersionComparator : Type 0 where
  pub operator : SemverOperator
  pub version : ParsedSemver

-- `sets` is empty for `*`.
pub record ParsedVersionRange : Type 0 where
  pub source : Text
  pub normalized : Text
  pub sets : List (List VersionComparator)

abbrev operator_text : SemverOperator → Text
operator_text less = codes "<"
operator_text at_most = codes "<="
operator_text equal = codes "="
operator_text at_least = codes ">="
operator_text more = codes ">"

abbrev with_operator : SemverOperator → Check ParsedSemver → Check VersionComparator
with_operator op (err code) = err code
with_operator op (ok v) = ok (record { operator = op; version = v })

-- `/^(<=|>=|=|<|>)(.+)$/` and the version behind the operator.
unfoldable pub parse_comparator : Text → Check VersionComparator
parse_comparator token = elim token [
  | [] ↦ err "version-invalid"
  | c ∷ s ↦
      if c == b'='
      then with_operator equal (parse_semver s)
      else if c == b'<'
      then or_equal at_most less s
      else if c == b'>'
      then or_equal at_least more s
      else err "version-invalid"
]
  where
    or_equal : SemverOperator → SemverOperator → Text → Check VersionComparator
    or_equal wide narrow [] = err "version-invalid"
    or_equal wide narrow (c ∷ s) =
        if c == b'='
        then with_operator wide (parse_semver s)
        else with_operator narrow (parse_semver (c ∷ s))

-- `array.map(f)` where `f` may throw.
unfoldable pub map_check {ℓ κ} : {A : Type ℓ} {B : Type κ} → (A → Check B) → List A → Check (List B)
map_check f [] = ok []
map_check f (x ∷ xs) = do y ← f x; ys ← map_check f xs; ok (y ∷ ys)

-- `texts.join(separator)`
unfoldable pub join : Text → List Text → Text
join sep [] = []
join sep (t ∷ []) = t
join sep (t ∷ u ∷ us) = t ++ sep ++ join sep (u ∷ us)

unfoldable pub comparator_text : VersionComparator → Text
comparator_text c = operator_text c.operator ++ c.version.source

abbrev pub is_eq : Ordering → Bool
is_eq Ordering.eq = true
is_eq _ = false

abbrev pub is_after : Ordering → Bool
is_after Ordering.gt = true
is_after _ = false

-- A comparator that repeats the one before it goes.
unfoldable pub is_repeated : VersionComparator → VersionComparator → Bool
is_repeated item before =
    operator_order item.operator == operator_order before.operator
    && is_eq (compare_semver item.version before.version)

unfoldable pub drop_repeated : VersionComparator → List VersionComparator → List VersionComparator
drop_repeated before [] = []
drop_repeated before (item ∷ items) =
    let rest = drop_repeated item items in if is_repeated item before then rest else item ∷ rest

unfoldable pub without_repeats : List VersionComparator → List VersionComparator
without_repeats [] = []
without_repeats (item ∷ items) = item ∷ drop_repeated item items

module _ (locale_compare : Text → Text → Ordering) where
  unfoldable pub compare_comparators : VersionComparator → VersionComparator → Ordering
  compare_comparators left right = then_by (compare_semver left.version right.version) (
      then_by (compare (operator_order left.operator) (operator_order right.operator))
        (locale_compare left.version.source right.version.source))

  -- `sort`, which is stable: an item goes before the first item that is not greater in turn.
  unfoldable pub insert_comparator :
      VersionComparator → List VersionComparator → List VersionComparator
  insert_comparator x [] = x ∷ []
  insert_comparator x (y ∷ ys) =
      let rest = insert_comparator x ys in
      if is_after (compare_comparators x y) then y ∷ rest else x ∷ y ∷ ys

  unfoldable pub sort_comparators : List VersionComparator → List VersionComparator
  sort_comparators [] = []
  sort_comparators (x ∷ xs) = insert_comparator x (sort_comparators xs)

  -- The source compares `tokens.join(' ')` with the text that it split, and the two are the same.
  unfoldable pub parse_set : Text → Check (List VersionComparator)
  parse_set set = do
    let tokens = split (codes " ") 0 set
    require (not (is_empty set)) "version-invalid"
    require (not (any is_empty tokens)) "version-invalid"
    comparators ← map_check parse_comparator tokens
    ok (without_repeats (sort_comparators comparators))

  unfoldable pub parse_version_range : Text → Check ParsedVersionRange
  parse_version_range value =
      if same_text value (codes "*")
      then ok (record { source = value; normalized = value; sets = [] })
      else do
        require (not (is_empty value)) "version-invalid"
        sets ← map_check parse_set (split (codes " || ") 0 value)
        ok (record {
          source = value;
          normalized =
              join (codes " || ") (map (λ set. join (codes " ") (map comparator_text set)) sets);
          sets = sets;
        })

unfoldable pub comparator_matches : ParsedSemver → VersionComparator → Bool
comparator_matches candidate comparator =
    admits comparator.operator (compare_semver candidate comparator.version)
  where
    admits : SemverOperator → Ordering → Bool
    admits equal Ordering.eq = true
    admits less Ordering.lt = true
    admits at_most Ordering.lt = true
    admits at_most Ordering.eq = true
    admits more Ordering.gt = true
    admits at_least Ordering.gt = true
    admits at_least Ordering.eq = true
    admits _ _ = false

abbrev pub has_prerelease : ParsedSemver → Bool
has_prerelease v = elim v.prerelease [ [] ↦ false | p ∷ ps ↦ true ]

-- A comparator that names a prerelease of the candidate's own core version.
unfoldable pub admits_prerelease : ParsedSemver → VersionComparator → Bool
admits_prerelease candidate comparator =
    has_prerelease comparator.version
    && same_text comparator.version.major candidate.major
    && same_text comparator.version.minor candidate.minor
    && same_text comparator.version.patch candidate.patch

-- `versionSatisfies`, on a candidate and a range that were parsed.
unfoldable pub version_satisfies : ParsedSemver → ParsedVersionRange → Bool
version_satisfies candidate range =
    if same_text range.normalized (codes "*")
    then not (has_prerelease candidate)
    else any
        (λ set.
          (not (has_prerelease candidate) || any (admits_prerelease candidate) set)
          && all (comparator_matches candidate) set)
        range.sets

-- `normalizedVersionRange`, on a text: a range whose comparators stand in another order is refused.
unfoldable pub normalized_version_range : (Text → Text → Ordering) → Text → Check ParsedVersionRange
normalized_version_range locale_compare source = do
  parsed ← parse_version_range locale_compare source
  require (same_text parsed.normalized source) "version-invalid"
  ok parsed
