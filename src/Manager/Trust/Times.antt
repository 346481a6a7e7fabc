-- ===== src/Manager/Trust/Times.antt =====
-- The time of the trust authority, as refreshCurrent of src/manager/trust.ts retains it, advances.
use dsh_runtime_kit.Base.{
  after_bind, after_require, ok_inj, ℕ, ◌≤◌, ◌<◌, ◌≡◌, refl, subst, sym, String, Bool, true, false,
  ◌&&◌, List, [], ◌∷◌, ltb, leb, str_eq, and-eq-true, if◌then◌else◌, Option, none, some, Check, ok,
  err, Bool-cases, ◌⊎◌, inl, inr, arith,
}
use dsh_runtime_kit.Manager.Trust.{TrustBundle, TrustTransition}
use dsh_runtime_kit.Manager.Trust.Pages.{
  LineageHead, LineagePage, LineageReply, Progress, TrustState, advances, equal, from_genesis,
  next_cursor, observed, page_bounds, page_read, read_failed, resumed, started, TrustLineage,
}
use dsh_runtime_kit.Manager.Trust.Refresh.{
  lineage_loop, prior_of, reaches_head, refresh_current, settle_lineage, starts_again, walk_page,
}
use dsh_runtime_kit.Manager.Trust.Walk.{walk_transitions}

-- The page is later than what is retained.
abbrev Later : TrustState → LineagePage → Type 0
Later r page =
    (r.state_time_revision < page.time_revision) × (r.state_authority_time ≤ page.authority_time)

-- So is the first page, if there is one.
abbrev LaterFirst : TrustState → Option LineagePage → Type 0
LaterFirst r none = Unit {0}
LaterFirst r (some first) = Later r first

less_of : (m n : ℕ) → ltb m n ≡ true → m < n
less_of m n e = ground arith

least_of : (m n : ℕ) → leb m n ≡ true → m ≤ n
least_of m n e = ground arith

advances-Later :
    (r : TrustState) (page : LineagePage) (u : Unit {0})
    → advances (some r) page ≡ ok u
    → Later r page
unfolding advances
advances-Later r page u e =
    let (test, rest) =
      after_require
        (ltb r.state_time_revision page.time_revision
          && leb r.state_authority_time page.authority_time)
        "time-revision-conflict" _ e in
    let (before, after) =
      and-eq-true (ltb r.state_time_revision page.time_revision)
        (leb r.state_authority_time page.authority_time) test in
    (less_of _ _ before, least_of _ _ after)

observed-Later :
    (genesis : String) (r : TrustState) (o : Option LineagePage) (page first : LineagePage)
    → LaterFirst r o
    → observed genesis (some r) o page ≡ ok first
    → Later r first
unfolding observed
observed-Later genesis r none page first later e =
    let (test, rest) =
      after_require (str_eq page.page_head.genesis_bundle_digest genesis)
        "signature-trust-unapproved" _ e in
    let (u, advanced, last) = after_bind (advances (some r) page) _ rest in
    subst (Later r) (ok_inj last) (advances-Later r page u advanced)
observed-Later genesis r (some known) page first later e =
    let (test, rest) = after_require _ "lineage-invalid" _ e in subst (Later r) (ok_inj rest) later

-- The state is later than what was retained.
abbrev pub Advanced : TrustState → TrustState → Type 0
Advanced r s =
    (r.state_time_revision < s.state_time_revision)
    × (r.state_authority_time ≤ s.state_authority_time)

settle_lineage-times :
    (r : TrustState) (first : LineagePage) (head : LineageHead) (progress : Progress)
    (s : TrustState)
    → Later r first
    → settle_lineage first head progress ≡ ok s
    → Advanced r s
unfolding settle_lineage
settle_lineage-times r first head progress s later e =
    let (reached, checked, last) = after_bind (reaches_head head progress) _ e in
    subst (Advanced r) (ok_inj last) later

either :
    {A : Type 0} (test : Bool) (x y : Check A) {a : A}
    → (if test then x else y) ≡ ok a
    → (x ≡ ok a) ⊎ (y ≡ ok a)
either true x y e = inl e
either false x y e = inr e

started-first :
    (genesis : String) (r : TrustState) (lineage : Option TrustLineage)
    → LaterFirst r (started genesis lineage).first_response
unfolding started from_genesis resumed
started-first genesis r none = tt
started-first genesis r (some lineage) = tt

pub refused : {A : Type 0} {a : A} {code : String} → err code ≡ ok a → ⊥
refused e = cc

module _ (genesis : String) (read_bundle : String → Check TrustBundle)
    (verify : TrustTransition → TrustBundle → Check (Unit {0})) where
  walk_page-first :
      (first page : LineagePage) (progress walked : Progress)
      → walk_page genesis read_bundle verify first page progress ≡ ok walked
      → walked.first_response ≡ some first
  unfolding walk_page
  walk_page-first first page progress walked e =
      let (prior, found, e1) = after_bind (prior_of genesis read_bundle verify progress) _ e in
      let (walk, went, e2) =
        after_bind (walk_transitions read_bundle verify first.authority_time page.transitions _) _
          e1 in
      subst (λ (p : Progress). p.first_response ≡ some first) (ok_inj e2) refl

  lineage_loop-times :
      (r : TrustState) (replies : List LineageReply) (progress : Progress) (s : TrustState)
      → LaterFirst r progress.first_response
      → lineage_loop genesis read_bundle verify (some r) replies progress ≡ ok s
      → Advanced r s
  unfolding lineage_loop from_genesis
  lineage_loop-times r [] progress s later e = cc
  lineage_loop-times r (read_failed code ∷ replies) progress s later e =
      elim (Bool-cases (starts_again progress code)) [
        | inl again ↦ lineage_loop-times r replies (from_genesis genesis) s tt (rw again at e)
        | inr other ↦ absurd (refused (rw other at e))
      ]
  lineage_loop-times r (page_read page ∷ replies) progress s later e =
      let (first, observing, e1) =
        after_bind (observed genesis (some r) progress.first_response page) _ e in
      let (bounded, within, e2) = after_bind (page_bounds progress.after_sequence page) _ e1 in
      let (walked, walking, e3) =
        after_bind (walk_page genesis read_bundle verify first page progress) _ e2 in
      let later_first =
        observed-Later genesis r progress.first_response page first later observing in
      elim (either page.complete _ _ e3) [
        | inl last ↦
            let (named, e4) =
              after_require (equal page.next_after_sequence none) "lineage-invalid" _ last in
            settle_lineage-times r first first.page_head walked s later_first e4
        | inr more ↦
            let (next, moved, e4) =
              after_bind (next_cursor progress.after_sequence page.next_after_sequence) _ more in
            lineage_loop-times r replies (record walked { after_sequence = next }) s
              (subst (LaterFirst r) (sym (walk_page-first first page progress walked walking))
                later_first)
              e4
      ]

  pub refresh_current-times :
      (r : TrustState) (replies : List LineageReply) (s : TrustState)
      → refresh_current genesis read_bundle verify (some r) replies ≡ ok s
      → Advanced r s
  unfolding refresh_current
  refresh_current-times r replies s e =
      lineage_loop-times r replies (started genesis r.state_lineage) s
        (started-first genesis r r.state_lineage) e
