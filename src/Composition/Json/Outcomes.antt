-- ===== src/Composition/Json/Outcomes.antt =====
-- canonicalValue of src/composition/index.ts returns exactly for canonical data within the limits.
use dsh_runtime_kit.Base.{
  String, ℕ, zero, suc, ◌+◌, ◌≡◌, refl, ap, Bool, true, false, ◌&&◌, List, [], ◌∷◌, ◌++◌, map, leb,
  ltb, all, arith, ok, err, ◌>>=◌, sym, subst, if◌then◌else◌, codes, Bool-cases, inl, inr,
  and-eq-true,
}
use dsh_runtime_kit.Composition.Versions.{Text}
use dsh_runtime_kit.Composition.Json.{
  Json, null, boolean, number, no_number, string, array, object, foreign, items_of, entries_of,
  Entries, Canonical, max_json_nodes, is_scalar, stringify, join, sort, traversal_guard,
  canonical_items, canonical_entries, canonical_shape, canonical_value,
}
use dsh_runtime_kit.Composition.Json.Measures.{
  Yields, returns, fails, Yields-as, Yields-bind, Yields-map, Yields-then, total, entry_fits,
  entry_size, entry_print, fits_shape, fits, size_shape, size, print_shape, print,
}
use dsh_runtime_kit.Composition.Json.Sorted.{all-sort, total-sort}

-- A sum of nodes within the limit has its first part within the limit.
both-within :
    (a b : Bool) (m n k : ℕ)
    → ((a && leb (m + n) max_json_nodes) && (b && leb (m + n + k) max_json_nodes))
      ≡ ((a && b) && leb (m + (n + k)) max_json_nodes)
both-within a b m n k = ground arith

pub Yields-guard :
    (nodes : ℕ) (code : String)
    → Yields (traversal_guard nodes code) (leb (suc nodes) max_json_nodes) (suc nodes)
unfolding traversal_guard
Yields-guard nodes code = elim (Bool-cases (ltb max_json_nodes (suc nodes))) [
  | inl more ↦
      Yields-as
        (subst (λ b. Yields (if b then err code else ok (suc nodes)) false (suc nodes)) (sym more)
          (fails code (suc nodes)))
        (ground arith) refl
  | inr few ↦
      Yields-as
        (subst (λ b. Yields (if b then err code else ok (suc nodes)) true (suc nodes)) (sym few)
          (returns (suc nodes)))
        (ground arith) refl
]

module _ (f : Canonical) (fit : Json → Bool) (size_of : Json → ℕ) (text_of : Json → Text)
    (below : (v : Json) (n : ℕ)
      → Yields
          (f v n)
          (fit v && leb (n + size_of v) max_json_nodes)
          (text_of v, n + size_of v)) where
  Yields-items :
      (vs : List Json) (n : ℕ)
      → leb n max_json_nodes ≡ true
      → Yields
          (canonical_items f vs n)
          (all fit vs && leb (n + total size_of vs) max_json_nodes)
          (map text_of vs, n + total size_of vs)
  unfolding canonical_items
  Yields-items [] n le = Yields-as (returns ([], n)) (ground arith) (ground arith)
  Yields-items (v ∷ vs) n le =
      Yields-as
        (Yields-bind
          (λ first. canonical_items f vs first.1 >>= λ rest. ok (first.0 ∷ rest.0, rest.1))
          (below v n)
          λ w.
            Yields-map (λ rest. (text_of v ∷ rest.0, rest.1))
              (Yields-items vs (n + size_of v) (and-eq-true _ _ w).1))
        (both-within (fit v) (all fit vs) n (size_of v) (total size_of vs))
        (ap (λ k. (text_of v ∷ map text_of vs, k)) (omega arith))

  Yields-entries :
      (es : Entries Json) (n : ℕ)
      → leb n max_json_nodes ≡ true
      → Yields
          (canonical_entries f es n)
          (all (entry_fits fit) es && leb (n + total (entry_size size_of) es) max_json_nodes)
          (map (entry_print text_of) es, n + total (entry_size size_of) es)
  unfolding canonical_entries
  Yields-entries [] n le = Yields-as (returns ([], n)) (ground arith) (ground arith)
  Yields-entries ((key, v) ∷ es) n le =
      Yields-as
        (Yields-then (is_scalar key) "canonical-string-invalid" λ k.
          Yields-bind
            (λ first. canonical_entries f es first.1 >>= λ rest.
              ok ((stringify key ++ (b':' ∷ first.0)) ∷ rest.0, rest.1))
            (below v n)
            λ w.
              Yields-map (λ rest. ((stringify key ++ (b':' ∷ text_of v)) ∷ rest.0, rest.1))
                (Yields-entries es (n + size_of v) (and-eq-true _ _ w).1))
        (ground (
          arith,
          both-within (fit v) (all (entry_fits fit) es) n (size_of v)
              (total (entry_size size_of) es),
        ))
        (ap (λ k. ((stringify key ++ (b':' ∷ text_of v)) ∷ map (entry_print text_of) es, k))
          (omega arith))

  Yields-shape :
      (v : Json) (n : ℕ)
      → leb n max_json_nodes ≡ true
      → Yields
          (canonical_shape f v n)
          (fits_shape fit v && leb (n + size_shape size_of v) max_json_nodes)
          (print_shape text_of v, n + size_shape size_of v)
  unfolding canonical_shape fits_shape size_shape print_shape
  Yields-shape null n le = Yields-as (returns (codes "null", n)) (ground arith) (ground arith)
  Yields-shape (boolean true) n le =
      Yields-as (returns (codes "true", n)) (ground arith) (ground arith)
  Yields-shape (boolean false) n le =
      Yields-as (returns (codes "false", n)) (ground arith) (ground arith)
  Yields-shape (number t) n le = Yields-as (returns (t, n)) (ground arith) (ground arith)
  Yields-shape no_number n le = fails _ _
  Yields-shape (string s) n le =
      Yields-as (Yields-then (is_scalar s) "canonical-string-invalid" λ _. returns (stringify s, n))
        (ground arith) (ground arith)
  Yields-shape (array items) n le =
      Yields-map (λ values. (b'[' ∷ (join values.0 ++ (b']' ∷ [])), values.1))
        (Yields-items (items_of items) n le)
  Yields-shape (object members) n le =
      Yields-as
        (Yields-map (λ entries. (b'{' ∷ (join entries.0 ++ (b'}' ∷ [])), entries.1))
          (Yields-entries (sort (entries_of members)) n le))
        (rw
          (
            all-sort (entry_fits fit) (entries_of members),
            total-sort (entry_size size_of) (entries_of members),
          )
          refl)
        (rw (total-sort (entry_size size_of) (entries_of members)) refl)
  Yields-shape foreign n le = fails _ _

pub Yields-canonical :
    (room : ℕ) (v : Json) (n : ℕ)
    → Yields
        (canonical_value room v n)
        (fits room v && leb (n + size room v) max_json_nodes)
        (print room v, n + size room v)
unfolding canonical_value fits size print
Yields-canonical zero v n = fails _ _
Yields-canonical (suc room) v n =
    Yields-as
      (Yields-bind (canonical_shape (canonical_value room) v)
        (Yields-guard n "canonical-value-invalid")
        λ le.
          Yields-shape (canonical_value room) (fits room) (size room) (print room)
            (Yields-canonical room) v (suc n) le)
      (ground arith) (ap (λ k. (print_shape (print room) v, k)) (omega arith))
