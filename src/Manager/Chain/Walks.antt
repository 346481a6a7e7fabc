-- ===== src/Manager/Chain/Walks.antt =====
-- Walks along receipt chains under different fuels and over different tables: the loop of
-- receiptChainValid of src/manager/lifecycle.ts.
use dsh_runtime_kit.Base.{
  ℕ, zero, suc, ◌≤◌, ◌≡◌, refl, ◌≢◌, inl, inr, String, Bool, true, false, ◌||◌, List, [], ◌∷◌, ◌++◌,
  elem, str_eq, eq_iff, Option, none, some, Table, lookup, arith, Bool-cases, Option-cases,
}
use dsh_runtime_kit.Manager.Value.{Identity}
use dsh_runtime_kit.Manager.States.{State}
use dsh_runtime_kit.Manager.Receipts.{Receipt, receipt_prior, receipt_source}
use dsh_runtime_kit.Manager.Chain.{link_valid, walk_chain, is_nonempty}

pub elem-append :
    (y n : String) (seen : List String) → elem y (seen ++ n ∷ []) ≡ (elem y seen || str_eq y n)
elem-append y n [] = ground arith
elem-append y n (x ∷ seen) = ground (arith, elem-append y n seen)

pub nonempty-append : (n : String) (seen : List String) → is_nonempty (seen ++ n ∷ []) ≡ true
nonempty-append n [] = refl
nonempty-append n (x ∷ seen) = refl

module _ (sha : Receipt → String) (identity : Identity) where
  -- What a step of a walk that succeeds has seen.
  pub walk_step :
      (m : Table Receipt) (fuel : ℕ) (next : String) (seen : List String) (required : Option State)
      → walk_chain sha m identity (suc fuel) (some next) seen required ≡ some true
      → (r : Receipt) × (elem next seen ≡ false)
        × (lookup next m ≡ some r)
        × (link_valid sha identity next required r ≡ true)
        × (walk_chain sha m identity fuel (receipt_prior r) (next ∷ seen) (some (receipt_source r))
            ≡ some true)
  unfolding walk_chain
  walk_step m fuel next seen required h = elim (Bool-cases (elem next seen)) [
    | inl old ↦ absurd (clash (rw (old, walk_chain) at h))
    | inr new ↦ elim (Option-cases (lookup next m)) [
      | inl missing ↦ absurd (clash (rw (new, missing, walk_chain) at h))
      | inr (r, found) ↦ elim (Bool-cases (link_valid sha identity next required r)) [
        | inl valid ↦ (r, new, found, valid, rw (new, found, valid, walk_chain) at h)
        | inr broken ↦ absurd (clash (rw (new, found, broken, walk_chain) at h))
      ]
    ]
  ]
    where
      clash : some false ≡ some true → ⊥
      clash e = cc

  pub walk_on :
      (m : Table Receipt) (fuel : ℕ) (next : String) (seen : List String) (required : Option State)
      (r : Receipt)
      → elem next seen ≡ false
      → lookup next m ≡ some r
      → link_valid sha identity next required r ≡ true
      → walk_chain sha m identity fuel (receipt_prior r) (next ∷ seen) (some (receipt_source r))
        ≡ some true
      → walk_chain sha m identity (suc fuel) (some next) seen required ≡ some true
  unfolding walk_chain
  walk_on m fuel next seen required r new found valid rest = rw (new, found, valid, walk_chain) rest

  -- More fuel changes no verdict.
  pub walk_more :
      (m : Table Receipt) (f g : ℕ) (next : Option String) (seen : List String)
      (required : Option State) (b : Bool)
      → f ≤ g
      → walk_chain sha m identity f next seen required ≡ some b
      → walk_chain sha m identity g next seen required ≡ some b
  unfolding walk_chain
  walk_more m zero g next seen required b le h = cc
  walk_more m (suc f) zero next seen required b le h = absurd (omega arith)
  walk_more m (suc f) (suc g) none seen required b le h = h
  walk_more m (suc f) (suc g) (some d) seen required b le h = elim (Bool-cases (elem d seen)) [
    | inl old ↦ rw (old, walk_chain) (rw (old, walk_chain) at h)
    | inr new ↦ elim (Option-cases (lookup d m)) [
      | inl missing ↦ rw (new, missing, walk_chain) (rw (new, missing, walk_chain) at h)
      | inr (r, found) ↦ elim (Bool-cases (link_valid sha identity d required r)) [
        | inl valid ↦
            rw (new, found, valid, walk_chain)
              (walk_more m f g (receipt_prior r) (d ∷ seen) (some (receipt_source r)) b
                (omega arith) (rw (new, found, valid, walk_chain) at h))
        | inr broken ↦
            rw (new, found, broken, walk_chain) (rw (new, found, broken, walk_chain) at h)
      ]
    ]
  ]

  -- Every link that a walk over `m` accepts is there in `m'` too.
  abbrev pub Keeps : Table Receipt → Table Receipt → Type 0
  Keeps m m' =
      (k : String) (required : Option State) (r : Receipt)
      → lookup k m ≡ some r
      → link_valid sha identity k required r ≡ true
      → lookup k m' ≡ some r

  pub walk_kept :
      (m m' : Table Receipt)
      → Keeps m m'
      → (fuel : ℕ) (next : Option String) (seen : List String) (required : Option State)
      → walk_chain sha m identity fuel next seen required ≡ some true
      → walk_chain sha m' identity fuel next seen required ≡ some true
  unfolding walk_chain
  walk_kept m m' kept zero next seen required h = cc
  walk_kept m m' kept (suc f) none seen required h = h
  walk_kept m m' kept (suc f) (some d) seen required h =
      let (r, new, found, valid, rest) = walk_step m f d seen required h in
      walk_on m' f d seen required r new (kept d required r found valid) valid
        (walk_kept m m' kept f (receipt_prior r) (d ∷ seen) (some (receipt_source r)) rest)

  -- A walk that has seen d already cannot go by a receipt behind which d stands.
  pub walk_seen_prior :
      (m : Table Receipt) (fuel : ℕ) (d : String) (seen : List String) (required : Option State)
      → elem d seen ≡ true
      → walk_chain sha m identity fuel (some d) seen required ≢ some true
  unfolding walk_chain
  walk_seen_prior m zero d seen required old = λ e. cc
  walk_seen_prior m (suc f) d seen required old = rw (old, walk_chain) (λ e. cc)

  -- The walk goes on as before when a digest n was seen first, if whatever stands under n leads
  -- back to d, which the walk has seen.
  pub walk_behind :
      (m m' : Table Receipt) (n d : String)
      → Keeps m m'
      → ((required : Option State) (r : Receipt)
          → lookup n m ≡ some r
          → link_valid sha identity n required r ≡ true
          → receipt_prior r ≡ some d)
      → (fuel : ℕ) (next : Option String) (seen : List String) (required : Option State)
      → elem d seen ≡ true
      → walk_chain sha m identity fuel next seen required ≡ some true
      → walk_chain sha m' identity fuel next (seen ++ n ∷ []) required ≡ some true
  unfolding walk_chain
  walk_behind m m' n d kept back zero next seen required past h = cc
  walk_behind m m' n d kept back (suc f) none seen none past h = cc
  walk_behind m m' n d kept back (suc f) none seen (some s) past h =
      ground (arith, h, nonempty-append n seen)
  walk_behind m m' n d kept back (suc f) (some x) seen required past h =
      let (r, new, found, valid, rest) = walk_step m f x seen required h in
      elim (Bool-cases (str_eq x n)) [
        | inl same ↦
            let at_n : x ≡ n = (eq_iff x n).0 same in
            let prior : receipt_prior r ≡ some d =
              back required r (rw at_n at found) (rw at_n at valid) in
            absurd (
              walk_seen_prior m f d (x ∷ seen) (some (receipt_source r)) (ground (arith, past))
                (rw prior at rest))
        | inr other ↦
            walk_on m' f x (seen ++ n ∷ []) required r (rw (elem-append x n seen, new) other)
              (kept x required r found valid) valid
              (walk_behind m m' n d kept back f (receipt_prior r) (x ∷ seen)
                (some (receipt_source r)) (ground (arith, past)) rest)
      ]
