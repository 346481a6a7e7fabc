-- ===== src/Composition/Json/Limits/Sums.antt =====
-- Sums of nodes and bytes within the limits, for assertCanonicalByteLimit of
-- src/composition/index.ts.
use dsh_runtime_kit.Base.{
  ℕ, suc, ◌+◌, ◌≤◌, ◌≡◌, Bool, true, false, ◌&&◌, List, ◌∷◌, leb, arith, if◌then◌else◌,
}
use dsh_runtime_kit.Composition.Json.{max_json_nodes}
use dsh_runtime_kit.Composition.Json.Measures.{total}
use dsh_runtime_kit.Composition.Json.Limits.Bytes.{separated}

-- What a loop over members adds to the bytes, its first comma counted where there is one.
abbrev pub loop_bytes {ℓ} : {A : Type ℓ} → Bool → (A → ℕ) → List A → ℕ
loop_bytes first of_member xs =
    if first then separated of_member xs else total (λ x. suc (of_member x)) xs

pub loop-step {ℓ} :
    {A : Type ℓ} (first : Bool) (of_member : A → ℕ) (x : A) (xs : List A)
    → loop_bytes first of_member (x ∷ xs)
      ≡ (if first then 0 else 1) + of_member x + loop_bytes false of_member xs
loop-step true of_member x xs = omega arith
loop-step false of_member x xs = omega arith

-- Three counts in a row are within the limits when the last is.
pub chain :
    (a b : Bool) (n m k p c q r maximum : ℕ)
    → (leb (p + c) maximum
        && ((a && (leb (n + m) max_json_nodes && leb (p + c + q) maximum))
            && (b && (leb (n + m + k) max_json_nodes && leb (p + c + q + r) maximum))))
      ≡ ((a && b) && (leb (n + (m + k)) max_json_nodes && leb (p + (c + q + r)) maximum))
chain a b n m k p c q r maximum = ground arith

pub entry-chain :
    (s a rest : Bool) (n m j p c k l q r maximum : ℕ)
    → 2 + l ≤ k
    → (leb (p + (l + 3)) maximum
        && (leb (p + c) maximum
            && ((s && leb (p + c + k) maximum)
                && (leb (p + c + k + 1) maximum
                    && ((a && (leb (n + m) max_json_nodes && leb (p + c + k + 1 + q) maximum))
                        && (rest
                            && (leb (n + m + j) max_json_nodes
                                && leb (p + c + k + 1 + q + r) maximum)))))))
      ≡ (((s && a) && rest)
          && (leb (n + (m + j)) max_json_nodes && leb (p + (c + (k + 1 + q) + r)) maximum))
entry-chain s a rest n m j p c k l q r maximum short = ground arith

pub string-chain :
    (s : Bool) (n b l k maximum : ℕ)
    → leb n max_json_nodes ≡ true
    → l ≤ k
    → (leb (b + (l + 2)) maximum && (s && leb (b + (2 + k)) maximum))
      ≡ (s && (leb (n + 0) max_json_nodes && leb (b + (2 + k)) maximum))
string-chain s n b l k maximum ln short = ground arith

-- A bracket, a loop of members, and a bracket.
pub bracketed :
    (maximum : ℕ) (a : Bool) (n p q : ℕ)
    → (leb (p + 2) maximum && (a && (leb n max_json_nodes && leb (p + 2 + q) maximum)))
      ≡ (a && (leb n max_json_nodes && leb (p + (2 + q)) maximum))
bracketed maximum a n p q = ground arith
