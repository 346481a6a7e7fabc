-- ===== src/Composition/Json/Keys.antt =====
-- The keys of objects in src/composition/index.ts: distinct ones, sorted from whatever order.
use dsh_runtime_kit.Base.{
  ◌≡◌, refl, ap, ◌∙◌, Bool, true, false, not, ◌&&◌, [], ◌∷◌, all, arith, and-eq-true, if◌then◌else◌,
}
use Prim.Native.Nat.{Ordering}
use dsh_runtime_kit.Composition.Versions.{Text, compare_texts, same_text}
use dsh_runtime_kit.Composition.Json.{Entries, place, sort}
use dsh_runtime_kit.Composition.Json.Sorted.{all-sort, all-place}

-- Whether a text stands behind another in the order of code units.
abbrev pub is_after : Text → Text → Bool
is_after s t = elim (compare_texts s t) [ Ordering.gt ↦ true | _ ↦ false ]

is_after-not : (s t : Text) → same_text s t ≡ false → is_after t s ≡ not (is_after s t)
unfolding compare_texts same_text
is_after-not [] [] e = cc
is_after-not [] (d ∷ t) e = refl
is_after-not (c ∷ s) [] e = refl
is_after-not (c ∷ s) (d ∷ t) e = ground (arith, is_after-not s t)

is_after_trans : (s t u : Text) → is_after s u ≡ true → is_after t u ≡ false → is_after s t ≡ true
unfolding compare_texts
is_after_trans [] t [] e f = cc
is_after_trans [] t (d ∷ u) e f = cc
is_after_trans (c ∷ s) [] u e f = refl
is_after_trans (c ∷ s) (d ∷ t) [] e f = cc
is_after_trans (c ∷ s) (d ∷ t) (k ∷ u) e f = ground (arith, is_after_trans s t u)

pub same_text-sym : (s t : Text) → same_text s t ≡ same_text t s
unfolding same_text
same_text-sym [] [] = refl
same_text-sym [] (d ∷ t) = refl
same_text-sym (c ∷ s) [] = refl
same_text-sym (c ∷ s) (d ∷ t) = ground (arith, same_text-sym s t)

module _ {ℓ} {V : Type ℓ} where
  -- No entry has the key.
  abbrev pub is_fresh : Text → Entries V → Bool
  is_fresh key es = all (λ e. not (same_text key e.0)) es

  unfoldable pub distinct : Entries V → Bool
  distinct [] = true
  distinct ((key, v) ∷ es) = is_fresh key es && distinct es

  place-if :
      (key stored : Text) (v old : V) (es : Entries V)
      → place key v ((stored, old) ∷ es) ≡ (
          if is_after key stored
          then (stored, old) ∷ place key v es
          else (key, v) ∷ (stored, old) ∷ es)
  unfolding place
  place-if key stored v old es = ground arith

  place-nil : (key : Text) (v : V) → place key v [] ≡ (key, v) ∷ []
  unfolding place
  place-nil key v = refl

  pub place-place :
      (a b : Text) (v w : V) (es : Entries V)
      → same_text a b ≡ false
      → place a v (place b w es) ≡ place b w (place a v es)
  place-place a b v w [] differ = ground (
    arith,
    place-nil a v,
    place-nil b w,
    place-if a b v w [],
    place-if b a w v [],
    is_after-not a b,
  )
  place-place a b v w ((m, o) ∷ es) differ = ground (
    arith,
    place-if a m v o es,
    place-if b m w o es,
    place-if a b v w ((m, o) ∷ es),
    place-if b a w v ((m, o) ∷ es),
    place-if a m v o (place b w es),
    place-if b m w o (place a v es),
    place-place a b v w es,
    is_after-not a b,
    is_after_trans a b m,
    is_after_trans b a m,
  )

  distinct-place :
      (key : Text) (v : V) (es : Entries V)
      → distinct (place key v es) ≡ (is_fresh key es && distinct es)
  unfolding place distinct
  distinct-place key v [] = refl
  distinct-place key v ((m, o) ∷ es) = ground (
    arith,
    all-place (λ e. not (same_text m e.0)) key v es,
    distinct-place key v es,
    same_text-sym key m,
  )

  pub distinct-sort : (es : Entries V) → distinct (sort es) ≡ distinct es
  unfolding sort distinct
  distinct-sort [] = refl
  distinct-sort ((key, v) ∷ es) =
      rw
        (
          distinct-place key v (sort es),
          all-sort (λ e. not (same_text key e.0)) es,
          distinct-sort es,
        )
        refl

  sort-place :
      (key : Text) (v : V) (es : Entries V)
      → is_fresh key es ≡ true
      → sort (place key v es) ≡ place key v (sort es)
  unfolding sort place
  sort-place key v [] fresh = refl
  sort-place key v ((m, o) ∷ es) fresh =
      ground (arith, sort-place key v es, place-place key m v o (sort es))

  pub sort-sort : (es : Entries V) → distinct es ≡ true → sort (sort es) ≡ sort es
  unfolding sort distinct
  sort-sort [] d = refl
  sort-sort ((key, v) ∷ es) d =
      let (fresh, rest) = and-eq-true _ _ d in
      sort-place key v (sort es) (all-sort (λ e. not (same_text key e.0)) es ∙ fresh)
      ∙ ap (place key v) (sort-sort es rest)

  -- The entries put into a sorted list one by one.
  unfoldable pub onto : Entries V → Entries V → Entries V
  onto [] es = es
  onto ((key, v) ∷ more) es = place key v (onto more es)

  pub onto-nil : (es : Entries V) → onto es [] ≡ sort es
  unfolding onto sort
  onto-nil [] = refl
  onto-nil ((key, v) ∷ es) = ap (place key v) (onto-nil es)

  pub onto-place :
      (key : Text) (v : V) (more es : Entries V)
      → is_fresh key more ≡ true
      → onto more (place key v es) ≡ place key v (onto more es)
  unfolding onto
  onto-place key v [] es fresh = refl
  onto-place key v ((m, o) ∷ more) es fresh =
      ground
        (arith, onto-place key v more es, place-place key m v o (onto more es), same_text-sym key m)
