-- ===== src/Composition/Json/Digests.antt =====
-- domainSeparatedDigest of src/composition/index.ts. The hash of node's crypto module is a parameter:
-- `sha256` gives the digest's hexadecimal text for what was hashed, a text by its code units.
use dsh_runtime_kit.Base.{
  ◌+◌, ◌≡◌, refl, ap, sym, ◌∙◌, Bool, true, false, not, ◌&&◌, [], ◌∷◌, ◌++◌, leb, all, codes, Check,
  ok, err, ◌>>=◌, ◌>>◌, require, arith, and-eq-true, true_of_and, Option,
}
use dsh_runtime_kit.Composition.Versions.{Text, is_empty}
use dsh_runtime_kit.Composition.Json.{Json, canonical_json, max_json_nodes}
use dsh_runtime_kit.Composition.Json.Measures.{test_of_returned, fits, size}
use dsh_runtime_kit.Composition.Json.Limits.Agreement.{Yields-canonical_json}
use dsh_runtime_kit.Composition.Json.Literals.{reads_itself}
use dsh_runtime_kit.Composition.Json.Readable.{readable}
use dsh_runtime_kit.Composition.Json.Reordered.{reordered}
use dsh_runtime_kit.Composition.Json.Parser.{parse_value}
use dsh_runtime_kit.Composition.Json.RoundTrip.{parse_value-print, ends_number-nil}

-- `/^[\x21-\x7e]+$/u`
unfoldable pub is_visible : Text → Bool
is_visible tag = not (is_empty tag) && all (λ c. leb 33 c && leb c 126) tag

-- What `hash.update` is given, one after another.
unfoldable pub digest_input : Text → Json → Check Text
unfolding is_visible
digest_input tag document = do
  require (is_visible tag) "digest-domain-invalid"
  text ← canonical_json document
  ok (tag ++ (0 ∷ text))

module _ (sha256 : Text → Text) where
  unfoldable pub domain_separated_digest : Text → Json → Check Text
  unfolding digest_input
  domain_separated_digest tag document = do
    input ← digest_input tag document
    ok (codes "sha256:" ++ sha256 input)

-- The texts in front of the first zero, and behind it, are those that were put there.
zero-separates :
    (s t u v : Text)
    → all (λ c. leb 33 c && leb c 126) s ≡ true
    → all (λ c. leb 33 c && leb c 126) t ≡ true
    → s ++ (0 ∷ u) ≡ t ++ (0 ∷ v)
    → (s ≡ t) × (u ≡ v)
zero-separates [] [] u v vs vt e = (refl, cc)
zero-separates [] (d ∷ t) u v vs vt e = ground arith
zero-separates (c ∷ s) [] u v vs vt e = ground arith
zero-separates (c ∷ s) (d ∷ t) u v vs vt e =
    let same =
      zero-separates s t u v (and-eq-true (leb 33 c && leb c 126) _ vs).1
        (and-eq-true (leb 33 d && leb d 126) _ vt).1 cc in
    (ground (arith, same.0), same.1)

hashed_parts :
    (tag : Text) (visible : Bool) (c : Check Text) (input : Text)
    → (require visible "digest-domain-invalid" >> (c >>= λ text. ok (tag ++ (0 ∷ text)))) ≡ ok input
    → (text : Text) × (visible ≡ true) × (c ≡ ok text) × (input ≡ tag ++ (0 ∷ text))
hashed_parts tag true (ok text) input e = (text, refl, refl, cc)
hashed_parts tag true (err x) input e = cc
hashed_parts tag false c input e = cc

digest_input-parts :
    (tag : Text) (v : Json) (input : Text)
    → digest_input tag v ≡ ok input
    → (text : Text) × (is_visible tag ≡ true)
      × (canonical_json v ≡ ok text)
      × (input ≡ tag ++ (0 ∷ text))
unfolding digest_input
digest_input-parts tag v input e = hashed_parts tag (is_visible tag) (canonical_json v) input e

visible_units : (tag : Text) → is_visible tag ≡ true → all (λ c. leb 33 c && leb c 126) tag ≡ true
unfolding is_visible
visible_units tag visible = (and-eq-true _ _ visible).1

reads_back :
    (read_number : Text → Option Text) (v : Json) (text : Text)
    → readable (reads_itself read_number) v ≡ true
    → canonical_json v ≡ ok text
    → parse_value read_number 65 (text ++ []) 0 ≡ ok (reordered 65 v, ([], 0 + size 65 v))
reads_back read_number v text good e =
    let (holds, same) = test_of_returned (Yields-canonical_json v) e in
    let (fit, few) = and-eq-true (fits 65 v) (leb (0 + size 65 v) max_json_nodes) holds in
    ap (λ t. parse_value read_number 65 (t ++ []) 0) (sym same)
    ∙ parse_value-print read_number 65 v [] 0 (true_of_and _ _ fit good) ends_number-nil few

same_value :
    {A : Type 0} {a b : Json} {r s : A} → ◌≡◌ {A = Check (Json × A)} (ok (a, r)) (ok (b, s)) → a ≡ b
same_value e = cc

-- Two documents that are hashed as one input stand under one domain tag, and hold one data: they
-- are the same but for the order in which an object's properties were defined. The documents have
-- distinct keys other than `__proto__`, and numbers that read back as they are written.
pub digest_input-determines :
    (read_number : Text → Option Text) (tag other : Text) (v w : Json) (input : Text)
    → readable (reads_itself read_number) v ≡ true
    → readable (reads_itself read_number) w ≡ true
    → digest_input tag v ≡ ok input
    → digest_input other w ≡ ok input
    → (tag ≡ other) × (reordered 65 v ≡ reordered 65 w)
digest_input-determines read_number tag other v w input good good' ev ew =
    let (text, visible, found, shape) = digest_input-parts tag v input ev in
    let (text', visible', found', shape') = digest_input-parts other w input ew in
    let (tags, texts) =
      zero-separates tag other text text' (visible_units tag visible) (visible_units other visible')
        (sym shape ∙ shape') in
    let found'' : canonical_json w ≡ ok text = found' ∙ ap ok (sym texts) in
    (
      tags,
      same_value (
          sym (reads_back read_number v text good found)
          ∙ reads_back read_number w text good' found''),
    )
