-- ===== src/Composition/Versions.antt =====
-- parseSemver and compareSemver of src/composition/index.ts. A
-- text is the list of its code units.
pub mod Order
pub mod Ranges
pub mod Sets
pub mod Transitive
use dsh_runtime_kit.Base.{
  ℕ, zero, suc, ◌-◌, String, Bool, true, false, not, ◌&&◌, ◌||◌, List, [], ◌∷◌, ◌++◌, map, ltb, leb,
  ◌==◌, if◌then◌else◌, all, any, length, Option, none, some, Check, ok, err, ◌>>=◌, ◌>>◌, require,
  codes, is_digit, is_letter,
}
use Prim.Native.Nat.{compare, Ordering}

abbrev pub Text : Type 0
Text = List ℕ

unfoldable pub same_text : Text → Text → Bool
same_text [] [] = true
same_text [] (d ∷ t) = false
same_text (c ∷ s) [] = false
same_text (c ∷ s) (d ∷ t) = c == d && same_text s t

-- `left < right ? -1 : 1` of two texts, with 0 for equal ones.
unfoldable pub compare_texts : Text → Text → Ordering
compare_texts [] [] = Ordering.eq
compare_texts [] (d ∷ t) = Ordering.lt
compare_texts (c ∷ s) [] = Ordering.gt
compare_texts (c ∷ s) (d ∷ t) =
    let rest = compare_texts s t in
    elim (compare c d) [
      | Ordering.lt ↦ Ordering.lt
      | Ordering.eq ↦ rest
      | Ordering.gt ↦ Ordering.gt
    ]

-- `compared !== 0 ? compared : next`
abbrev pub then_by : Ordering → Ordering → Ordering
then_by Ordering.lt next = Ordering.lt
then_by Ordering.eq next = next
then_by Ordering.gt next = Ordering.gt

abbrev pub starts_with_zero : Text → Bool
starts_with_zero [] = false
starts_with_zero (c ∷ s) = c == b'0'

abbrev pub is_empty : Text → Bool
is_empty [] = true
is_empty (c ∷ s) = false

unfoldable pub is_valid_core_identifier : Text → Bool
is_valid_core_identifier s =
    not (is_empty s || (ltb 1 (length s) && starts_with_zero s)) && all is_digit s

abbrev pub is_identifier_part : ℕ → Bool
is_identifier_part c = is_digit c || c == b'-' || is_letter c

unfoldable pub is_valid_prerelease_identifier : Text → Bool
is_valid_prerelease_identifier s =
    not (is_empty s)
    && all is_identifier_part s
    && (not (all is_digit s) || same_text s (codes "0") || not (starts_with_zero s))

unfoldable pub is_valid_build_identifier : Text → Bool
is_valid_build_identifier s = not (is_empty s) && all is_identifier_part s

unfoldable pub numeric_identifier_compare : Text → Text → Ordering
numeric_identifier_compare left right =
    then_by (compare (length left) (length right)) (compare_texts left right)

-- Whether a text has a prefix.
unfoldable pub has_prefix : Text → Text → Bool
has_prefix [] s = true
has_prefix (p ∷ ps) [] = false
has_prefix (p ∷ ps) (c ∷ s) = p == c && has_prefix ps s

abbrev pub cons_head : ℕ → List Text → List Text
cons_head c [] = []
cons_head c (t ∷ ts) = (c ∷ t) ∷ ts

-- `value.split(separator)`; the first number counts what is left of a separator to pass over.
unfoldable pub split : Text → ℕ → Text → List Text
split sep k [] = [] ∷ []
split sep (suc k) (c ∷ s) = split sep k s
split sep zero (c ∷ s) = elim (has_prefix sep (c ∷ s)) [
  | true ↦ [] ∷ split sep (length sep - 1) s
  | false ↦ cons_head c (split sep zero s)
]

-- The text before the first `marker`, and the text behind it, if there is one.
unfoldable pub cut_at : ℕ → Text → Text × Option Text
cut_at marker [] = ([], none)
cut_at marker (c ∷ s) =
    let (before, behind) = cut_at marker s in
    if c == marker then ([], some s) else (c ∷ before, behind)

pub record ParsedSemver : Type 0 where
  pub source : Text
  pub major : Text
  pub minor : Text
  pub patch : Text
  pub prerelease : List Text
  pub build : List Text

abbrev pub identifiers : Option Text → List Text
identifiers none = []
identifiers (some s) = split (codes ".") 0 s

unfoldable pub parse_semver : Text → Check ParsedSemver
parse_semver value =
    let (version_and_prerelease, build_text) = cut_at b'+' value in
    let (core_text, prerelease_text) = cut_at b'-' version_and_prerelease in
    let prerelease = identifiers prerelease_text in
    let build = identifiers build_text in
    elim (split (codes ".") 0 core_text) [
      | major ∷ minor ∷ patch ∷ [] ↦
          if all is_valid_core_identifier (major ∷ minor ∷ patch ∷ [])
            && all is_valid_prerelease_identifier prerelease
            && all is_valid_build_identifier build
          then ok (record {
            source = value;
            major = major;
            minor = minor;
            patch = patch;
            prerelease = prerelease;
            build = build;
          })
          else err "version-invalid"
      | _ ↦ err "version-invalid"
    ]

-- One step of the loop over the prerelease identifiers: `/^\d+$/` on either side, then the texts.
unfoldable pub compare_identifier : Text → Text → Ordering
compare_identifier ai bi =
    let an = not (is_empty ai) && all is_digit ai in
    let bn = not (is_empty bi) && all is_digit bi in
    if an && bn
    then numeric_identifier_compare ai bi
    else if an
    then Ordering.lt
    else if bn
    then Ordering.gt
    else compare_texts ai bi

-- The loop itself: a list that ends first is the lesser.
unfoldable pub compare_identifiers : List Text → List Text → Ordering
compare_identifiers [] [] = Ordering.eq
compare_identifiers [] (b ∷ bs) = Ordering.lt
compare_identifiers (a ∷ as') [] = Ordering.gt
compare_identifiers (a ∷ as') (b ∷ bs) =
    then_by (compare_identifier a b) (compare_identifiers as' bs)

-- A version without prerelease identifiers stands above one that has them.
unfoldable pub compare_prereleases : List Text → List Text → Ordering
compare_prereleases [] [] = Ordering.eq
compare_prereleases [] (b ∷ bs) = Ordering.gt
compare_prereleases (a ∷ as') [] = Ordering.lt
compare_prereleases (a ∷ as') (b ∷ bs) = compare_identifiers (a ∷ as') (b ∷ bs)

unfoldable pub compare_semver : ParsedSemver → ParsedSemver → Ordering
compare_semver a b = then_by (numeric_identifier_compare a.major b.major) (
    then_by (numeric_identifier_compare a.minor b.minor) (
      then_by (numeric_identifier_compare a.patch b.patch)
        (compare_prereleases a.prerelease b.prerelease)))
