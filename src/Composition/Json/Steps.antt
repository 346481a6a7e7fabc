-- ===== src/Composition/Json/Steps.antt =====
-- One round of the loops of DuplicateSafeJsonParser in src/composition/index.ts.
use dsh_runtime_kit.Base.{
  ℕ, suc, ◌≡◌, refl, Bool, true, false, not, ◌&&◌, List, [], ◌∷◌, ◌++◌, length, ◌==◌, arith, codes,
  ok,
}
use dsh_runtime_kit.Composition.Versions.{Text, same_text}
use dsh_runtime_kit.Composition.Json.{
  Json, array, object, Items, no_items, item, Members, empty_object,
}
use dsh_runtime_kit.Composition.Json.Tokens.{is_space, skip_space, quoted}
use dsh_runtime_kit.Composition.Json.Readable.{is_plain_key}
use dsh_runtime_kit.Composition.Json.Parser.{
  define_member, assign, built, has_key, Parse, expect, next_is, list_loop, list, object_loop,
  no_output, object_text,
}

-- A text that begins with no white space and no bracket that ends a list.
abbrev pub opens : Text → Bool
opens [] = false
opens (c ∷ s) = not (is_space c) && not (c == b']')

pub skip_space-opens : (t s : Text) → opens t ≡ true → skip_space (t ++ s) ≡ t ++ s
unfolding skip_space
skip_space-opens [] s o = cc
skip_space-opens (c ∷ t) s o = ground arith

pub next_is-opens : (t s : Text) → opens t ≡ true → next_is b']' (t ++ s) ≡ false
unfolding next_is
next_is-opens [] s o = cc
next_is-opens (c ∷ t) s o = ground arith

module _ (f : Parse Json) where
  pub list_loop-last :
      (fuel n m : ℕ) (s rest : Text) (v : Json)
      → f s n ≡ ok (v, (b']' ∷ rest, m))
      → list_loop f (suc fuel) s n ≡ ok (item v no_items, (rest, m))
  unfolding list_loop skip_space next_is expect is_space
  list_loop-last fuel n m s rest v e = rw e refl

  pub list_loop-more :
      (fuel n m : ℕ) (s t : Text) (v : Json) (items : Items) (r : Text × ℕ)
      → f s n ≡ ok (v, (b',' ∷ t, m))
      → list_loop f fuel (skip_space t) m ≡ ok (items, r)
      → list_loop f (suc fuel) s n ≡ ok (item v items, r)
  unfolding list_loop skip_space next_is expect is_space
  list_loop-more fuel n m s t v items r e h = rw (e, h) refl

  pub object_loop-last :
      (fuel n m : ℕ) (keys : List Text) (members : Members) (s t rest key : Text) (v : Json)
      → quoted s ≡ ok (key, b':' ∷ t)
      → has_key key keys ≡ false
      → is_plain_key key ≡ true
      → f (skip_space t) n ≡ ok (v, (b'}' ∷ rest, m))
      → object_loop f (suc fuel) keys (record { members = members; replaced = false }) (34 ∷ s) n
        ≡ ok (object (define_member key v members), (rest, m))
  unfolding object_loop skip_space next_is expect is_space assign built
  object_loop-last fuel n m keys members s t rest key v q new plain e =
      let other : same_text key (codes "__proto__") ≡ false = ground arith in
      rw (q, new, e, other) refl

  pub object_loop-more :
      (fuel n m : ℕ) (keys : List Text) (members : Members) (s t u key : Text) (v : Json)
      (r : Json × (Text × ℕ))
      → quoted s ≡ ok (key, b':' ∷ t)
      → has_key key keys ≡ false
      → is_plain_key key ≡ true
      → f (skip_space t) n ≡ ok (v, (b',' ∷ u, m))
      → object_loop f fuel
          (key ∷ keys)
          (record { members = define_member key v members; replaced = false })
          (skip_space u)
          m
        ≡ ok r
      → object_loop f (suc fuel) keys (record { members = members; replaced = false }) (34 ∷ s) n
        ≡ ok r
  unfolding object_loop skip_space next_is expect is_space assign built
  object_loop-more fuel n m keys members s t u key v r q new plain e h =
      let other : same_text key (codes "__proto__") ≡ false = ground arith in
      rw (q, new, e, other) h

  pub list-items :
      (n : ℕ) (s : Text) (items : Items) (r : Text × ℕ)
      → skip_space s ≡ s
      → next_is b']' s ≡ false
      → list_loop f (suc (length s)) s n ≡ ok (items, r)
      → list f s n ≡ ok (array items, r)
  unfolding list
  list-items n s items r bare other e = rw (bare, other, e) refl

  pub object_text-members :
      (n : ℕ) (s : Text) (r : Json × (Text × ℕ))
      → object_loop f (suc (suc (length s))) [] no_output (34 ∷ s) n ≡ ok r
      → object_text f (34 ∷ s) n ≡ ok r
  unfolding object_text skip_space next_is is_space
  object_text-members n s r e = e

  pub list-nil : (n : ℕ) (rest : Text) → list f (b']' ∷ rest) n ≡ ok (array no_items, (rest, n))
  unfolding list skip_space next_is is_space expect
  list-nil n rest = refl

  pub object_text-nil :
      (n : ℕ) (rest : Text) → object_text f (b'}' ∷ rest) n ≡ ok (object empty_object, (rest, n))
  unfolding object_text skip_space next_is is_space expect built
  object_text-nil n rest = refl
