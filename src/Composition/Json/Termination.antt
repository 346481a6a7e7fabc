-- ===== src/Composition/Json/Termination.antt =====
-- The parser of src/composition/index.ts ends on every text: no loop reaches its limit.
use dsh_runtime_kit.Base.{
  String, ℕ, zero, suc, ◌≤◌, ◌<◌, ◌≡◌, ◌≢◌, refl, ap, false, not, some_inj, List, [], ◌∷◌, length,
  ltb, ◌==◌, codes, Check, ok, err, ◌>>=◌, arith, Bool-cases, inl, inr, Option, some, Option-cases,
}
use dsh_runtime_kit.Composition.Versions.{Text, is_empty}
use dsh_runtime_kit.Composition.Json.{item, Json, max_json_nodes}
use dsh_runtime_kit.Composition.Json.Tokens.{skip_space, quoted}
use dsh_runtime_kit.Composition.Json.Parser.{
  Built, assign, has_key, Parse, expect, next_is, list_loop, list, object_loop, no_output,
  object_text, behind_literal, plain_text, value_shape, parse_value, parse,
}
use dsh_runtime_kit.Composition.Json.Shrinks.{
  is_limit, Leaves, left, after, Leaves-bind, Leaves-require, length-skip_space, Leaves-expect,
  Leaves-quoted, Leaves-number,
}

Leaves-longer :
    (m n : ℕ) (c : Check (Json × (Text × ℕ))) → m ≤ n → Leaves m left c → Leaves n left c
Leaves-longer m n (ok r) le h = omega arith
Leaves-longer m n (err e) le h = h

module _ (f : Parse Json)
    (below : (s : Text) (nodes : ℕ) → Leaves (length s) left (f s nodes)) where
  Leaves-list_loop :
      (fuel : ℕ) (s : Text) (nodes n : ℕ)
      → length s < fuel
      → length s ≤ n
      → Leaves n left (list_loop f fuel s nodes)
  unfolding list_loop
  Leaves-list_loop zero s nodes n enough le = absurd (omega arith)
  Leaves-list_loop (suc fuel) s nodes n enough le =
      Leaves-bind (length s) n left left (f s nodes) _ (below s nodes) λ first h.
        let t : Text = skip_space first.1.0 in
        let short : length t ≤ length s = omega (arith, length-skip_space first.1.0) in
        elim (Bool-cases (next_is b']' t)) [
          | inl e ↦ rw e (
              Leaves-bind n n (λ u. b']' ∷ u) left (expect b']' t) _
                (Leaves-expect b']' t n (omega arith)) λ rest k. omega arith)
          | inr e ↦ rw e (
              Leaves-bind (length s) n (λ u. b',' ∷ u) left (expect b',' t) _
                (Leaves-expect b',' t (length s) short)
                λ behind k.
                  Leaves-bind n n left left (list_loop f fuel (skip_space behind) first.1.1)
                    (λ more. ok (item first.0 more.0, more.1))
                    (Leaves-list_loop fuel (skip_space behind) first.1.1 n
                      (omega (arith, length-skip_space behind))
                      (omega (arith, length-skip_space behind)))
                    λ more j. j)
        ]

  -- A value behind white space, and what is made of it.
  Leaves-below :
      {B : Type 0} (behind : Text) (nodes m : ℕ)
      → length behind < m
      → (n : ℕ) (rest' : B → Text) (k : Json × (Text × ℕ) → Check B)
      → ((v : Json × (Text × ℕ)) → length (left v) < m → Leaves n rest' (k v))
      → Leaves n rest' (f (skip_space behind) nodes >>= k)
  Leaves-below behind nodes m short n rest' k next =
      Leaves-bind (length (skip_space behind)) n left rest' (f (skip_space behind) nodes) k
        (below (skip_space behind) nodes) λ v h. next v (omega (arith, length-skip_space behind))

  Leaves-object_loop :
      (fuel : ℕ) (keys : List Text) (output : Built) (s : Text) (nodes n : ℕ)
      → length s < fuel
      → length s ≤ n
      → Leaves n left (object_loop f fuel keys output s nodes)
  unfolding object_loop
  Leaves-object_loop zero keys output s nodes n enough le = absurd (omega arith)
  Leaves-object_loop (suc fuel) keys output s nodes n enough le =
      Leaves-bind (length s) n (λ u. 34 ∷ u) left (expect 34 s) _
        (Leaves-expect 34 s (length s) (omega arith))
        λ opened h.
          Leaves-bind (length opened) n after left (quoted opened) _ (Leaves-quoted opened) λ key k.
            Leaves-require n left (not (has_key key.0 keys)) "duplicate-json-key" _ refl (
              Leaves-bind (length s) n (λ u. b':' ∷ u) left (expect b':' (skip_space key.1)) _
                (Leaves-expect b':' (skip_space key.1) (length s)
                  (omega (arith, length-skip_space key.1)))
                λ behind b.
                  Leaves-below behind nodes (length s) (omega (arith, length-skip_space key.1)) n
                    left _
                    λ v c.
                      let u : Text = skip_space v.1.0 in
                      let short : length u ≤ length s = omega (arith, length-skip_space v.1.0) in
                      elim (Bool-cases (next_is b'}' u)) [
                        | inl e ↦ rw e (
                            Leaves-bind n n (λ w. b'}' ∷ w) left (expect b'}' u) _
                              (Leaves-expect b'}' u n (omega arith)) λ rest j. omega arith)
                        | inr e ↦ rw e (
                            Leaves-bind (length s) n (λ w. b',' ∷ w) left (expect b',' u) _
                              (Leaves-expect b',' u (length s) short)
                              λ further j.
                                Leaves-object_loop fuel (key.0 ∷ keys) (assign key.0 v.0 output)
                                  (skip_space further) v.1.1 n
                                  (omega (arith, length-skip_space further))
                                  (omega (arith, length-skip_space further)))
                      ])

  Leaves-list : (s : Text) (nodes : ℕ) → Leaves (length s) left (list f s nodes)
  unfolding list
  Leaves-list s nodes =
      let t : Text = skip_space s in
      let short : length t ≤ length s = length-skip_space s in
      elim (Bool-cases (next_is b']' t)) [
        | inl e ↦ rw e (
            Leaves-bind (length s) (length s) (λ u. b']' ∷ u) left (expect b']' t) _
              (Leaves-expect b']' t (length s) short) λ rest k. omega arith)
        | inr e ↦ rw e (
            Leaves-bind (length s) (length s) left left (list_loop f (suc (length t)) t nodes) _
              (Leaves-list_loop (suc (length t)) t nodes (length s) (omega arith) short)
              λ items k. k)
      ]

  Leaves-object_text : (s : Text) (nodes : ℕ) → Leaves (length s) left (object_text f s nodes)
  unfolding object_text
  Leaves-object_text s nodes =
      let t : Text = skip_space s in
      let short : length t ≤ length s = length-skip_space s in
      elim (Bool-cases (next_is b'}' t)) [
        | inl e ↦ rw e (
            Leaves-bind (length s) (length s) (λ u. b'}' ∷ u) left (expect b'}' t) _
              (Leaves-expect b'}' t (length s) short) λ rest k. omega arith)
        | inr e ↦ rw e (
            Leaves-object_loop (suc (length t)) [] no_output t nodes (length s) (omega arith) short)
      ]

-- The literal, if it stands there, leaves at most so many units.
length-behind_literal : (p s rest : Text) → behind_literal p s ≡ some rest → length rest ≤ length s
unfolding behind_literal
length-behind_literal [] s rest e = omega (arith, ap length (some_inj e))
length-behind_literal (c ∷ p) [] rest e = cc
length-behind_literal (c ∷ p) (d ∷ s) rest e = elim (Bool-cases (d == c)) [
  | inl same ↦ omega (arith, length-behind_literal p s rest (ground arith))
  | inr other ↦ ground arith
]

module _ (read_number : Text → Option Text) where
  Leaves-plain : (s : Text) (nodes : ℕ) → Leaves (length s) left (plain_text read_number s nodes)
  unfolding plain_text behind_literal
  Leaves-plain s nodes = elim (Option-cases (behind_literal (codes "true") s)) [
    | inr (rest, e) ↦ rw e (length-behind_literal (codes "true") s rest e)
    | inl e ↦ elim (Option-cases (behind_literal (codes "false") s)) [
      | inr (rest, d) ↦ rw (e, d) (length-behind_literal (codes "false") s rest d)
      | inl d ↦ elim (Option-cases (behind_literal (codes "null") s)) [
        | inr (rest, c) ↦ rw (e, d, c) (length-behind_literal (codes "null") s rest c)
        | inl c ↦ rw (e, d, c) (Leaves-number read_number s nodes)
      ]
    ]
  ]

  Leaves-shape :
      (f : Parse Json) (below : (s : Text) (nodes : ℕ) → Leaves (length s) left (f s nodes))
      (s : Text) (nodes : ℕ)
      → Leaves (length s) left (value_shape read_number f s nodes)
  unfolding value_shape
  Leaves-shape f below [] nodes = refl
  Leaves-shape f below (c ∷ s) nodes = elim (Bool-cases (c == b'{')) [
    | inl e ↦ rw e (
        Leaves-longer (length s) (suc (length s)) (object_text f s nodes) (omega arith)
          (Leaves-object_text f below s nodes))
    | inr e ↦ elim (Bool-cases (c == b'[')) [
      | inl d ↦
          rw (e, d)
            (Leaves-longer (length s) (suc (length s)) (list f s nodes) (omega arith)
              (Leaves-list f below s nodes))
      | inr d ↦ elim (Bool-cases (c == 34)) [
        | inl b ↦
            rw (e, d, b)
              (Leaves-bind (length s) (suc (length s)) after left (quoted s) _ (Leaves-quoted s)
                λ text k. omega arith)
        | inr b ↦ rw (e, d, b) (Leaves-plain (c ∷ s) nodes)
      ]
    ]
  ]

  Leaves-value :
      (room : ℕ) (s : Text) (nodes : ℕ)
      → Leaves (length s) left (parse_value read_number room s nodes)
  unfolding parse_value
  Leaves-value zero s nodes = refl
  Leaves-value (suc room) s nodes = elim (Bool-cases (ltb max_json_nodes (suc nodes))) [
    | inl e ↦ rw e refl
    | inr e ↦ rw e (Leaves-shape (parse_value read_number room) (Leaves-value room) s (suc nodes))
  ]

limit-error {ℓ} :
    {A : Type ℓ} (n : ℕ) (rest : A → Text) (c : Check A) → Leaves n rest c → c ≢ err "loop-limit"
limit-error n rest (ok a) h e = cc
limit-error n rest (err x) h e = go x h cc
  where
    go : (x : String) → is_limit x ≡ false → x ≡ "loop-limit" → ⊥
    go x h same = cc

-- The parser ends on every text, whatever its numbers read as: no loop runs out of the rounds that
-- the length of the text gives it, so each text is parsed to a value or refused with an error of the
-- source.
pub parse-ends :
    (read_number : Text → Option Text) (source : Text) → parse read_number source ≢ err "loop-limit"
unfolding parse
parse-ends read_number source =
    limit-error 0 (λ v. []) (parse read_number source)
      (Leaves-bind (length (skip_space source)) 0 left (λ v. [])
        (parse_value read_number 65 (skip_space source) 0) _
        (Leaves-value read_number 65 (skip_space source) 0)
        λ v h.
          Leaves-require 0 (λ u. []) (is_empty (skip_space v.1.0)) "json-invalid" (ok v.0) refl
            (omega arith))
