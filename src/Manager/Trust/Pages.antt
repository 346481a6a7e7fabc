-- ===== src/Manager/Trust/Pages.antt =====
-- The pages of a lineage in src/manager/trust.ts, and the checks of one against what was seen before.
-- The authority's replies to readLineage are an explicit sequence, each one read and correlated with
-- its request.
use dsh_runtime_kit.Base.{
  ℕ, suc, String, Bool, true, false, not, ◌&&◌, List, [], ◌∷◌, ltb, leb, ◌==◌, str_eq,
  if◌then◌else◌, Option, none, some, Check, ok, err, ◌>>=◌, ◌>>◌, require, Table, lookup,
}
use dsh_runtime_kit.Manager.Trust.{TrustBundle, TrustTransition}

pub record LineageHead : Type 0 where
  pub head_digest : String
  pub genesis_bundle_digest : String
  pub head_sequence : ℕ
  pub head_bundle_digest : String
  pub head_transition_digest : Option String

-- A page that `validateLineageSuccess` returned.
pub record LineagePage : Type 0 where
  pub page_head : LineageHead
  pub observation_digest : String
  pub page_start_sequence : Option ℕ
  pub page_end_sequence : Option ℕ
  pub next_after_sequence : Option ℕ
  pub complete : Bool
  pub transitions : List TrustTransition
  pub authority_time : ℕ
  pub prior_authority_time : Option ℕ
  pub time_revision : ℕ
  pub prior_time_revision : Option ℕ

-- A page, or a failure that `validateAuthorityFailure` returned, with its code.
pub data LineageReply : Type 0 where
  page_read : LineagePage → LineageReply
  read_failed : String → LineageReply

-- The lineage that a retained state holds.
pub record TrustLineage : Type 0 where
  pub state_head : LineageHead
  pub state_bundles : Table TrustBundle
  pub state_tombstones : List String

-- What the verifier retains of a namespace. A state that was handed in may lack its head or its
-- bundles, and then has no lineage to reuse.
pub record TrustState : Type 0 where
  pub state_time_revision : ℕ
  pub state_authority_time : ℕ
  pub state_observation : String
  pub state_lineage : Option TrustLineage

-- The variables of the loop. `prior` is `priorBundle`; `last` is `lastSequence ?? startingSequence`.
pub record Progress : Type 0 where
  pub reuse_cached : Bool
  pub after_sequence : ℕ
  pub starting_sequence : ℕ
  pub first_response : Option LineagePage
  pub expected : String
  pub prior : Option TrustBundle
  pub last : ℕ
  pub last_digest : Option String
  pub count : ℕ
  pub known_bundles : Table TrustBundle
  pub known_tombstones : List String

unfoldable pub same_option : (ℕ → ℕ → Bool) → Option ℕ → Option ℕ → Bool
same_option same none none = true
same_option same (some m) (some n) = same m n
same_option same m n = false

abbrev pub equal : Option ℕ → Option ℕ → Bool
equal = same_option (λ m n. m == n)

-- The sequence numbers of the first and the last transition of a page.
unfoldable pub first_sequence : List TrustTransition → Option ℕ
first_sequence [] = none
first_sequence (t ∷ ts) = some t.sequence

unfoldable pub last_sequence_of : List TrustTransition → Option ℕ
last_sequence_of [] = none
last_sequence_of (t ∷ []) = some t.sequence
last_sequence_of (t ∷ u ∷ ts) = last_sequence_of (u ∷ ts)

-- The loop's variables when the retained lineage is reused.
unfoldable pub resumed : TrustLineage → Progress
resumed retained = record {
  reuse_cached = true;
  after_sequence = retained.state_head.head_sequence;
  starting_sequence = retained.state_head.head_sequence;
  first_response = none;
  expected = retained.state_head.head_bundle_digest;
  prior = lookup retained.state_head.head_bundle_digest retained.state_bundles;
  last = retained.state_head.head_sequence;
  last_digest = none;
  count = 0;
  known_bundles = retained.state_bundles;
  known_tombstones = retained.state_tombstones;
}

-- The loop's variables from the pinned bundle on.
unfoldable pub from_genesis : String → Progress
from_genesis genesis = record {
  reuse_cached = false;
  after_sequence = 0;
  starting_sequence = 0;
  first_response = none;
  expected = genesis;
  prior = none;
  last = 0;
  last_digest = none;
  count = 0;
  known_bundles = [];
  known_tombstones = [];
}

-- The loop's variables on a retained state, which has a lineage to reuse or has none.
unfoldable pub started : String → Option TrustLineage → Progress
unfolding resumed from_genesis
started genesis none = from_genesis genesis
started genesis (some lineage) = resumed lineage

-- A first page against what is retained.
unfoldable pub advances : Option TrustState → LineagePage → Check (Unit {0})
unfolding same_option
advances none page = ok tt
advances (some retained) page = do
  require
      (ltb retained.state_time_revision page.time_revision
        && leb retained.state_authority_time page.authority_time)
      "time-revision-conflict"
  require
      (equal page.prior_time_revision (some retained.state_time_revision)
        && equal page.prior_authority_time (some retained.state_authority_time))
      "time-revision-conflict"

-- The first page of the loop, and the checks of a page against it.
unfoldable pub observed :
    String → Option TrustState → Option LineagePage → LineagePage → Check LineagePage
unfolding advances
observed genesis retained none page = do
  require (str_eq page.page_head.genesis_bundle_digest genesis) "signature-trust-unapproved"
  later ← advances retained page
  ok page
observed genesis retained (some first) page = do
  require
      (str_eq page.page_head.head_digest first.page_head.head_digest
        && (str_eq page.observation_digest first.observation_digest
            && (page.time_revision == first.time_revision
                && page.authority_time == first.authority_time)))
      "lineage-invalid"
  ok first

-- The bounds and the cursor of a page behind a sequence number.
unfoldable pub page_bounds : ℕ → LineagePage → Check (Unit {0})
unfolding same_option first_sequence last_sequence_of
page_bounds after page = elim page.transitions [
  | [] ↦
      require
        (page.complete
          && (equal page.page_start_sequence none
              && (equal page.page_end_sequence none && after == page.page_head.head_sequence)))
        "lineage-invalid"
  | t ∷ ts ↦
      (require (t.sequence == suc after) "lineage-invalid"
        >> require
            (equal page.page_start_sequence (first_sequence (t ∷ ts))
              && equal page.page_end_sequence (last_sequence_of (t ∷ ts)))
            "lineage-invalid"
        >> (if page.complete
            then require
                (equal page.next_after_sequence none
                  && equal (last_sequence_of (t ∷ ts)) (some page.page_head.head_sequence))
                "lineage-invalid"
            else require
                (equal page.next_after_sequence (last_sequence_of (t ∷ ts))
                  && not (
                      same_option leb (some page.page_head.head_sequence)
                        (last_sequence_of (t ∷ ts))))
                "lineage-invalid"))
]

-- The cursor of a page that is not the last.
unfoldable pub next_cursor : ℕ → Option ℕ → Check ℕ
next_cursor after none = err "lineage-invalid"
next_cursor after (some next) = require (ltb after next) "lineage-invalid" >> ok next
