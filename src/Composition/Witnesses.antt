-- ===== src/Composition/Witnesses.antt =====
-- The order of versions at concrete inputs, and runs of the range parser.
use dsh_runtime_kit.Base.{◌≡◌, ◌≢◌, refl, Bool, true, false, List, [], ◌∷◌, codes, Check, ok, err}
use Prim.Native.Nat.{compare, Ordering}
use dsh_runtime_kit.Manager.Value.{decimal}
use dsh_runtime_kit.Composition.Versions.{
  Text, ParsedSemver, numeric_identifier_compare, compare_semver, parse_semver, cut_at, split,
  has_prefix, same_text, is_valid_core_identifier, is_valid_prerelease_identifier,
  is_valid_build_identifier, compare_texts, compare_identifier, compare_identifiers,
  compare_prereleases,
}
use dsh_runtime_kit.Composition.Versions.Order.{
  flip, numeric_identifier_compare-decimal, compare_semver-flip,
}
use dsh_runtime_kit.Composition.Versions.Transitive.{compare_semver_trans}
use dsh_runtime_kit.Composition.Versions.Sets.{Ascending, parse_set-Ascending}
use dsh_runtime_kit.Composition.Versions.Ranges.{
  VersionComparator, at_least, less, parse_version_range, version_satisfies, parse_comparator,
  map_check, join, comparator_text, is_repeated, drop_repeated, without_repeats,
  compare_comparators, insert_comparator, sort_comparators, parse_set, comparator_matches,
  admits_prerelease,
}
use dsh_runtime_kit.Base.{is_digit, is_letter}

abbrev release : ParsedSemver
release = record {
  source = codes "1.10.0";
  major = codes "1";
  minor = codes "10";
  patch = codes "0";
  prerelease = [];
  build = [];
}

abbrev candidate : ParsedSemver
candidate = record {
  source = codes "1.10.0-rc.7";
  major = codes "1";
  minor = codes "10";
  patch = codes "0";
  prerelease = codes "rc" ∷ codes "7" ∷ [];
  build = [];
}

unfoldable computes : Unit {0}
unfolding numeric_identifier_compare compare_semver parse_semver cut_at split has_prefix same_text
    is_valid_core_identifier is_valid_prerelease_identifier is_valid_build_identifier compare_texts
    compare_identifier compare_identifiers compare_prereleases parse_version_range version_satisfies
    parse_comparator map_check join comparator_text is_repeated drop_repeated without_repeats
    compare_comparators insert_comparator sort_comparators parse_set comparator_matches
    admits_prerelease is_digit is_letter
computes = tt

parse_test : parse_semver (codes "1.10.0-rc.7") ≡ ok candidate
unfolding computes
parse_test = refl

parse_zero_test : parse_semver (codes "1.010.0") ≡ err "version-invalid"
unfolding computes
parse_zero_test = refl

abbrev satisfied : Text → Text → Check Bool
satisfied version range = elim (parse_semver version) [
  | err code ↦ err code
  | ok v ↦ elim (parse_version_range compare_texts range) [
    | err code ↦ err code
    | ok r ↦ ok (version_satisfies v r)
  ]
]

range_test : satisfied (codes "1.9.0") (codes ">=1.10.0 || <1.0.0 || =1.9.0") ≡ ok true
unfolding computes
range_test = refl

prerelease_test : satisfied (codes "1.10.0-rc.7") (codes ">=1.9.0 <2.0.0") ≡ ok false
unfolding computes
prerelease_test = refl

prerelease_named_test : satisfied (codes "1.10.0-rc.7") (codes "<2.0.0 >=1.10.0-rc.1") ≡ ok true
unfolding computes
prerelease_named_test = refl

ten_test : is_valid_core_identifier (codes "10") ≡ true
unfolding computes
ten_test = refl

nine_test : is_valid_core_identifier (codes "9") ≡ true
unfolding computes
nine_test = refl

numeric_identifier_compare-decimal_example :
    numeric_identifier_compare (codes "10") (codes "9")
    ≡ compare (decimal 0 (codes "10")) (decimal 0 (codes "9"))
numeric_identifier_compare-decimal_example =
    numeric_identifier_compare-decimal (codes "10") (codes "9") ten_test nine_test

compare_semver-flip_example :
    compare_semver candidate release ≡ flip (compare_semver release candidate)
compare_semver-flip_example = compare_semver-flip release candidate

abbrev earlier : ParsedSemver
earlier = record {
  source = codes "1.9.0";
  major = codes "1";
  minor = codes "9";
  patch = codes "0";
  prerelease = [];
  build = [];
}

earlier_test : compare_semver earlier candidate ≢ Ordering.gt
unfolding computes
earlier_test e = cc

candidate_test : compare_semver candidate release ≢ Ordering.gt
unfolding computes
candidate_test e = cc

compare_semver_trans_example : compare_semver earlier release ≢ Ordering.gt
compare_semver_trans_example =
    compare_semver_trans earlier candidate release earlier_test candidate_test

abbrev read_set : List VersionComparator
read_set =
    record { operator = at_least; version = candidate }
    ∷ record { operator = less; version = release }
    ∷ []

read_set_test : parse_set compare_texts (codes "<1.10.0 >=1.10.0-rc.7 <1.10.0") ≡ ok read_set
unfolding computes
read_set_test = refl

parse_set-Ascending_example : Ascending read_set
parse_set-Ascending_example =
    parse_set-Ascending compare_texts (codes "<1.10.0 >=1.10.0-rc.7 <1.10.0") read_set read_set_test
