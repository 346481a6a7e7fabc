-- ===== src/Composition/Json/Reordered.antt =====
-- The value that the parser of src/composition/index.ts builds from a canonical text: each object's
-- properties are defined in the order of their sorted keys.
use dsh_runtime_kit.Base.{
  ℕ, zero, suc, ◌≡◌, refl, ap, ◌∙◌, Bool, true, not, ◌&&◌, List, [], ◌∷◌, map, all, arith,
  and-eq-true,
}
use dsh_runtime_kit.Composition.Versions.{Text, same_text}
use dsh_runtime_kit.Composition.Json.{
  Json, array, object, Items, no_items, item, Members, empty_object, member, items_of, entries_of,
  Entries, place, sort,
}
use dsh_runtime_kit.Composition.Json.Parser.{place_index, place_last, define_member}
use dsh_runtime_kit.Composition.Json.Keys.{
  is_fresh, distinct, place-place, onto, onto-place, same_text-sym,
}

unfoldable pub items_from : List Json → Items
items_from [] = no_items
items_from (v ∷ vs) = item v (items_from vs)

unfoldable pub define_all : Entries Json → Members → Members
define_all [] members = members
define_all ((key, v) ∷ es) members = define_all es (define_member key v members)

abbrev pub with_value : (Json → Json) → Text × Json → Text × Json
with_value f (key, v) = (key, f v)

unfoldable pub reordered_shape : (Json → Json) → Json → Json
unfolding items_from define_all
reordered_shape f (array items) = array (items_from (map f (items_of items)))
reordered_shape f (object members) =
    object (define_all (map (with_value f) (sort (entries_of members))) empty_object)
reordered_shape f v = v

-- The value with its objects built anew, down to a number of levels.
unfoldable pub reordered : ℕ → Json → Json
unfolding reordered_shape
reordered zero v = v
reordered (suc room) v = reordered_shape (reordered room) v

pub items_of-from : (vs : List Json) → items_of (items_from vs) ≡ vs
unfolding items_of items_from
items_of-from [] = refl
items_of-from (v ∷ vs) = ap (λ xs. v ∷ xs) (items_of-from vs)

all-place_index :
    (p : Text × Json → Bool) (key : Text) (v : Json) (members : Members)
    → all p (entries_of (place_index key v members)) ≡ (p (key, v) && all p (entries_of members))
unfolding place_index entries_of
all-place_index p key v empty_object = refl
all-place_index p key v (member stored old rest) = ground (arith, all-place_index p key v rest)

all-place_last :
    (p : Text × Json → Bool) (key : Text) (v : Json) (members : Members)
    → all p (entries_of (place_last key v members)) ≡ (p (key, v) && all p (entries_of members))
unfolding place_last entries_of
all-place_last p key v empty_object = refl
all-place_last p key v (member stored old rest) = ground (arith, all-place_last p key v rest)

all-define :
    (p : Text × Json → Bool) (key : Text) (v : Json) (members : Members)
    → all p (entries_of (define_member key v members)) ≡ (p (key, v) && all p (entries_of members))
unfolding define_member
all-define p key v members =
    ground (arith, all-place_index p key v members, all-place_last p key v members)

sort-place_index :
    (key : Text) (v : Json) (members : Members)
    → is_fresh key (entries_of members) ≡ true
    → sort (entries_of (place_index key v members)) ≡ place key v (sort (entries_of members))
unfolding place_index entries_of sort
sort-place_index key v empty_object fresh = refl
sort-place_index key v (member stored old rest) fresh =
    ground
      (arith, sort-place_index key v rest, place-place key stored v old (sort (entries_of rest)))

sort-place_last :
    (key : Text) (v : Json) (members : Members)
    → is_fresh key (entries_of members) ≡ true
    → sort (entries_of (place_last key v members)) ≡ place key v (sort (entries_of members))
unfolding place_last entries_of sort
sort-place_last key v empty_object fresh = refl
sort-place_last key v (member stored old rest) fresh =
    ground
      (arith, sort-place_last key v rest, place-place key stored v old (sort (entries_of rest)))

-- Wherever a new property stands, the sorted entries have it at its place.
sort-define :
    (key : Text) (v : Json) (members : Members)
    → is_fresh key (entries_of members) ≡ true
    → sort (entries_of (define_member key v members)) ≡ place key v (sort (entries_of members))
unfolding define_member
sort-define key v members fresh =
    ground (arith, sort-place_index key v members, sort-place_last key v members)

abbrev all_fresh : Entries Json → Members → Bool
all_fresh es members = all (λ e. is_fresh e.0 (entries_of members)) es

all_fresh-define :
    (key : Text) (v : Json) (es : Entries Json) (members : Members)
    → is_fresh key es ≡ true
    → all_fresh es members ≡ true
    → all_fresh es (define_member key v members) ≡ true
all_fresh-define key v [] members fresh others = refl
all_fresh-define key v ((k, w) ∷ es) members fresh others = ground (
  arith,
  all-define (λ e. not (same_text k e.0)) key v members,
  same_text-sym key k,
  all_fresh-define key v es members,
)

pub sort-define_all :
    (es : Entries Json) (members : Members)
    → distinct es ≡ true
    → all_fresh es members ≡ true
    → sort (entries_of (define_all es members)) ≡ onto es (sort (entries_of members))
unfolding define_all distinct onto
sort-define_all [] members d others = refl
sort-define_all ((key, v) ∷ es) members d others =
    let (fresh, rest) = and-eq-true _ _ d in
    let (new, olds) = and-eq-true _ _ others in
    sort-define_all es (define_member key v members) rest
      (all_fresh-define key v es members fresh olds)
    ∙ (ap (onto es) (sort-define key v members new)
        ∙ onto-place key v es (sort (entries_of members)) fresh)
