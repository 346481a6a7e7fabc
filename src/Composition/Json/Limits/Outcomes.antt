-- ===== src/Composition/Json/Limits/Outcomes.antt =====
-- assertCanonicalByteLimit of src/composition/index.ts returns exactly for canonical data within the
-- limits of nodes and of bytes.
use dsh_runtime_kit.Base.{
  ℕ, zero, suc, ◌+◌, ◌≡◌, ap, Bool, true, false, ◌&&◌, List, [], ◌∷◌, leb, all, arith, ok, ◌>>=◌,
  sym, if◌then◌else◌, ◌∙◌, and-eq-true, length,
}
use dsh_runtime_kit.Composition.Json.{
  Json, null, boolean, number, no_number, string, array, object, foreign, items_of, entries_of,
  Entries, max_json_nodes, is_scalar,
}
use dsh_runtime_kit.Composition.Json.Limits.{
  consume, consume_string, Limiter, limit_items, limit_entries, limit_shape, canonical_byte_limit,
}
use dsh_runtime_kit.Composition.Json.Measures.{
  Yields, returns, fails, Yields-as, Yields-bind, Yields-map, Yields-then, total, entry_fits,
  entry_size, fits_shape, fits, size_shape, size,
}
use dsh_runtime_kit.Composition.Json.Outcomes.{Yields-guard}
use dsh_runtime_kit.Composition.Json.Limits.Bytes.{
  units_bytes, string_bytes, entry_bytes, bytes_shape, bytes, Yields-consume, Yields-string,
  Yields-comma, length-units_bytes,
}
use dsh_runtime_kit.Composition.Json.Limits.Sums.{
  loop_bytes, loop-step, chain, entry-chain, string-chain, bracketed,
}

module _ (maximum : ℕ) (f : Limiter) (fit : Json → Bool) (size_of bytes_of : Json → ℕ)
    (below : (v : Json) (n b : ℕ)
      → Yields
          (f v n b)
          (fit v && (leb (n + size_of v) max_json_nodes && leb (b + bytes_of v) maximum))
          (n + size_of v, b + bytes_of v)) where
  Yields-items :
      (first : Bool) (vs : List Json) (n b : ℕ)
      → leb n max_json_nodes ≡ true
      → leb b maximum ≡ true
      → Yields
          (limit_items maximum f first vs n b)
          (all fit vs
            && (leb (n + total size_of vs) max_json_nodes
                && leb (b + loop_bytes first bytes_of vs) maximum))
          (n + total size_of vs, b + loop_bytes first bytes_of vs)
  unfolding limit_items
  Yields-items true [] n b ln lb = Yields-as (returns (n, b)) (ground arith) (ground arith)
  Yields-items false [] n b ln lb = Yields-as (returns (n, b)) (ground arith) (ground arith)
  Yields-items first (v ∷ vs) n b ln lb =
      let c : ℕ = if first then 0 else 1 in
      Yields-as
        (Yields-bind
          (λ behind. f v n behind >>= λ counted. limit_items maximum f false vs counted.0 counted.1)
          (Yields-comma maximum first b lb)
          λ _.
            Yields-bind (λ counted. limit_items maximum f false vs counted.0 counted.1)
              (below v n (b + c))
              λ w.
                Yields-items false vs (n + size_of v) (b + c + bytes_of v)
                  (and-eq-true _ _ (and-eq-true _ _ w).1).0
                  (and-eq-true _ _ (and-eq-true _ _ w).1).1)
        (chain (fit v) (all fit vs) n (size_of v) (total size_of vs) b c (bytes_of v)
            (loop_bytes false bytes_of vs) maximum
          ∙ ap
              (λ k.
                (fit v && all fit vs)
                && (leb (n + (size_of v + total size_of vs)) max_json_nodes && leb (b + k) maximum))
              (sym (loop-step first bytes_of v vs)))
        (λ i. (e i, d i))
    where
      e : n + size_of v + total size_of vs ≡ n + (size_of v + total size_of vs)
      e = omega arith

      d :
          b + (if first then 0 else 1) + bytes_of v + loop_bytes false bytes_of vs
          ≡ b + loop_bytes first bytes_of (v ∷ vs)
      d = omega (arith, loop-step first bytes_of v vs)

  Yields-entries :
      (first : Bool) (es : Entries Json) (n b : ℕ)
      → leb n max_json_nodes ≡ true
      → leb b maximum ≡ true
      → Yields
          (limit_entries maximum f first es n b)
          (all (entry_fits fit) es
            && (leb (n + total (entry_size size_of) es) max_json_nodes
                && leb (b + loop_bytes first (entry_bytes bytes_of) es) maximum))
          (n + total (entry_size size_of) es, b + loop_bytes first (entry_bytes bytes_of) es)
  unfolding limit_entries
  Yields-entries true [] n b ln lb = Yields-as (returns (n, b)) (ground arith) (ground arith)
  Yields-entries false [] n b ln lb = Yields-as (returns (n, b)) (ground arith) (ground arith)
  Yields-entries first ((key, v) ∷ es) n b ln lb =
      let c : ℕ = if first then 0 else 1 in
      let k : ℕ = string_bytes key in
      Yields-as
        (Yields-then (leb (b + (length key + 3)) maximum) "schema-invalid" λ _.
          Yields-bind
            (λ behind. consume_string maximum key behind >>= λ quoted.
              consume maximum 1 quoted >>= λ colon.
              f v n colon >>= λ counted. limit_entries maximum f false es counted.0 counted.1)
            (Yields-comma maximum first b lb)
            λ _.
              Yields-bind
                (λ quoted. consume maximum 1 quoted >>= λ colon.
                  f v n colon >>= λ counted. limit_entries maximum f false es counted.0 counted.1)
                (Yields-string maximum key (b + c))
                λ _.
                  Yields-bind
                    (λ colon. f v n colon >>= λ counted.
                      limit_entries maximum f false es counted.0 counted.1)
                    (Yields-consume maximum 1 (b + c + k))
                    λ _.
                      Yields-bind (λ counted. limit_entries maximum f false es counted.0 counted.1)
                        (below v n (b + c + k + 1))
                        λ w.
                          Yields-entries false es (n + size_of v) (b + c + k + 1 + bytes_of v)
                            (and-eq-true _ _ (and-eq-true _ _ w).1).0
                            (and-eq-true _ _ (and-eq-true _ _ w).1).1)
        (entry-chain (is_scalar key) (fit v) (all (entry_fits fit) es) n (size_of v)
            (total (entry_size size_of) es) b c k (length key) (bytes_of v)
            (loop_bytes false (entry_bytes bytes_of) es) maximum
            (omega (arith, length-units_bytes false key))
          ∙ ap
              (λ k.
                ((is_scalar key && fit v) && all (entry_fits fit) es)
                && (leb (n + (size_of v + total (entry_size size_of) es)) max_json_nodes
                    && leb (b + k) maximum))
              (sym (loop-step first (entry_bytes bytes_of) (key, v) es)))
        (λ i. (e i, d i))
    where
      e :
          n + size_of v + total (entry_size size_of) es
          ≡ n + (size_of v + total (entry_size size_of) es)
      e = omega arith

      d :
          b
            + (if first then 0 else 1)
            + string_bytes key
            + 1
            + bytes_of v
            + loop_bytes false (entry_bytes bytes_of) es
          ≡ b + loop_bytes first (entry_bytes bytes_of) ((key, v) ∷ es)
      d = omega (arith, loop-step first (entry_bytes bytes_of) (key, v) es)

  Yields-plain :
      (amount n b : ℕ)
      → leb n max_json_nodes ≡ true
      → Yields {A = ℕ × ℕ}
          (consume maximum amount b >>= λ counted. ok (n, counted))
          (leb (n + 0) max_json_nodes && leb (b + amount) maximum)
          (n + 0, b + amount)
  Yields-plain amount n b ln =
      Yields-as (Yields-map (λ counted. (n, counted)) (Yields-consume maximum amount b))
        (ground arith) (ap (λ k. (k, b + amount)) (omega arith))

  Yields-shape :
      (v : Json) (n b : ℕ)
      → leb n max_json_nodes ≡ true
      → Yields
          (limit_shape maximum f v n b)
          (fits_shape fit v
            && (leb (n + size_shape size_of v) max_json_nodes
                && leb (b + bytes_shape bytes_of v) maximum))
          (n + size_shape size_of v, b + bytes_shape bytes_of v)
  unfolding limit_shape fits_shape size_shape bytes_shape
  Yields-shape null n b ln = Yields-plain 4 n b ln
  Yields-shape (boolean x) n b ln = Yields-plain (if x then 4 else 5) n b ln
  Yields-shape (number t) n b ln = Yields-plain (length t) n b ln
  Yields-shape no_number n b ln = fails _ _
  Yields-shape (string s) n b ln =
      Yields-as
        (Yields-then (leb (b + (length s + 2)) maximum) "schema-invalid"
          λ _. Yields-map (λ counted. (n, counted)) (Yields-string maximum s b))
        (string-chain (is_scalar s) n b (length s) (units_bytes false s) maximum ln
          (omega (arith, length-units_bytes false s)))
        (ap (λ k. (k, b + string_bytes s)) (omega arith))
  Yields-shape (array items) n b ln =
      Yields-as
        (Yields-bind (λ c. limit_items maximum f true (items_of items) n c)
          (Yields-consume maximum 2 b) λ w. Yields-items true (items_of items) n (b + 2) ln w)
        (bracketed maximum (all fit (items_of items)) (n + total size_of (items_of items)) b
          (loop_bytes true bytes_of (items_of items)))
        (ap (λ k. (n + total size_of (items_of items), k)) (omega arith))
  Yields-shape (object members) n b ln =
      Yields-as
        (Yields-bind (λ c. limit_entries maximum f true (entries_of members) n c)
          (Yields-consume maximum 2 b) λ w. Yields-entries true (entries_of members) n (b + 2) ln w)
        (bracketed maximum (all (entry_fits fit) (entries_of members))
          (n + total (entry_size size_of) (entries_of members)) b
          (loop_bytes true (entry_bytes bytes_of) (entries_of members)))
        (ap (λ k. (n + total (entry_size size_of) (entries_of members), k)) (omega arith))
  Yields-shape foreign n b ln = fails _ _

pub Yields-limit :
    (maximum room : ℕ) (v : Json) (n b : ℕ)
    → Yields
        (canonical_byte_limit maximum room v n b)
        (fits room v && (leb (n + size room v) max_json_nodes && leb (b + bytes room v) maximum))
        (n + size room v, b + bytes room v)
unfolding canonical_byte_limit fits size bytes
Yields-limit maximum zero v n b = fails _ _
Yields-limit maximum (suc room) v n b =
    Yields-as
      (Yields-bind (λ counted. limit_shape maximum (canonical_byte_limit maximum room) v counted b)
        (Yields-guard n "schema-invalid")
        λ le.
          Yields-shape maximum (canonical_byte_limit maximum room) (fits room) (size room)
            (bytes room) (Yields-limit maximum room) v (suc n) b le)
      (ground arith) (ap (λ k. (k, b + bytes_shape (bytes room) v)) (omega arith))
