-- ===== src/Manager/States.antt =====
-- The lifecycle's operations and states: LIFECYCLE_TRANSITIONS, RECONCILIATION_MATRIX and
-- TRANSIENT_RECEIPT_SOURCES of src/manager/lifecycle.ts, MUTATION_TRANSITIONS of
-- src/manager/contracts.ts.
use dsh_runtime_kit.Base.{
  ℕ, ◌==◌, ◌≡◌, refl, sym, ap, ◌∙◌, not, ◌↔◌, String, Bool, true, false, List, [], ◌∷◌, Option,
  none, some, ◌||◌, arith, if◌then◌else◌,
}

pub data Operation : Type 0 where
  lock start resume interrupt drain stop : Operation

pub data State : Type 0 where
  absent locked starting running interrupting interrupted : State
  draining drained stopping stopped quarantined : State

abbrev pub operation_code : Operation → String
operation_code lock = "lock"
operation_code start = "start"
operation_code resume = "resume"
operation_code interrupt = "interrupt"
operation_code drain = "drain"
operation_code stop = "stop"

abbrev pub state_name : State → String
state_name absent = "Absent"
state_name locked = "Locked"
state_name starting = "Starting"
state_name running = "Running"
state_name interrupting = "Interrupting"
state_name interrupted = "Interrupted"
state_name draining = "Draining"
state_name drained = "Drained"
state_name stopping = "Stopping"
state_name stopped = "Stopped"
state_name quarantined = "Quarantined"

abbrev pub operation_rank : Operation → ℕ
operation_rank lock = 0
operation_rank start = 1
operation_rank resume = 2
operation_rank interrupt = 3
operation_rank drain = 4
operation_rank stop = 5

abbrev pub state_rank : State → ℕ
state_rank absent = 0
state_rank locked = 1
state_rank starting = 2
state_rank running = 3
state_rank interrupting = 4
state_rank interrupted = 5
state_rank draining = 6
state_rank drained = 7
state_rank stopping = 8
state_rank stopped = 9
state_rank quarantined = 10

-- `===` on operations, and on states.
abbrev pub same_operation : Operation → Operation → Bool
same_operation a b = operation_rank a == operation_rank b

abbrev pub same_state : State → State → Bool
same_state a b = state_rank a == state_rank b

==_lem : (m n : ℕ) → (m == n) ≡ true → m ≡ n
==_lem m n h = ground arith

==_refl : (n : ℕ) → (n == n) ≡ true
==_refl n = ground arith

pub same_operation_iff : (a b : Operation) → (same_operation a b ≡ true) ↔ (a ≡ b)
same_operation_iff a b = (
  λ h. sym (back a) ∙ ap of_rank (==_lem (operation_rank a) (operation_rank b) h) ∙ back b,
  λ e. rw e (==_refl (operation_rank b)),
)
  where
    of_rank : ℕ → Operation
    of_rank n =
        if n == 0
        then lock
        else if n == 1
        then start
        else if n == 2
        then resume
        else if n == 3
        then interrupt
        else if n == 4
        then drain
        else stop

    back : (o : Operation) → of_rank (operation_rank o) ≡ o
    back lock = refl
    back start = refl
    back resume = refl
    back interrupt = refl
    back drain = refl
    back stop = refl

pub same_state_iff : (a b : State) → (same_state a b ≡ true) ↔ (a ≡ b)
same_state_iff a b = (
  λ h. sym (back a) ∙ ap of_rank (==_lem (state_rank a) (state_rank b) h) ∙ back b,
  λ e. rw e (==_refl (state_rank b)),
)
  where
    of_rank : ℕ → State
    of_rank n =
        if n == 0
        then absent
        else if n == 1
        then locked
        else if n == 2
        then starting
        else if n == 3
        then running
        else if n == 4
        then interrupting
        else if n == 5
        then interrupted
        else if n == 6
        then draining
        else if n == 7
        then drained
        else if n == 8
        then stopping
        else if n == 9
        then stopped
        else quarantined

    back : (s : State) → of_rank (state_rank s) ≡ s
    back absent = refl
    back locked = refl
    back starting = refl
    back running = refl
    back interrupting = refl
    back interrupted = refl
    back draining = refl
    back drained = refl
    back stopping = refl
    back stopped = refl
    back quarantined = refl

-- `states.includes(state)`
abbrev pub includes : List State → State → Bool
includes [] s = false
includes (x ∷ xs) s = same_state x s || includes xs s

pub record Transition : Type 0 where
  pub sources : List State
  pub transient : Option State
  pub terminal : State

-- LIFECYCLE_TRANSITIONS
unfoldable pub lifecycle_transition : Operation → Transition
lifecycle_transition lock = record { sources = absent ∷ []; transient = none; terminal = locked }
lifecycle_transition start = record {
  sources = locked ∷ [];
  transient = some starting;
  terminal = running;
}
lifecycle_transition resume = record {
  sources = interrupted ∷ stopped ∷ [];
  transient = some starting;
  terminal = running;
}
lifecycle_transition interrupt = record {
  sources = running ∷ [];
  transient = some interrupting;
  terminal = interrupted;
}
lifecycle_transition drain = record {
  sources = running ∷ interrupted ∷ [];
  transient = some draining;
  terminal = drained;
}
lifecycle_transition stop = record {
  sources = drained ∷ [];
  transient = some stopping;
  terminal = stopped;
}

-- MUTATION_TRANSITIONS, whose `lock` has `Locked` for its transient state.
unfoldable pub mutation_transition : Operation → Transition
mutation_transition lock = record {
  sources = absent ∷ [];
  transient = some locked;
  terminal = locked;
}
mutation_transition start = record {
  sources = locked ∷ [];
  transient = some starting;
  terminal = running;
}
mutation_transition resume = record {
  sources = interrupted ∷ stopped ∷ [];
  transient = some starting;
  terminal = running;
}
mutation_transition interrupt = record {
  sources = running ∷ [];
  transient = some interrupting;
  terminal = interrupted;
}
mutation_transition drain = record {
  sources = running ∷ interrupted ∷ [];
  transient = some draining;
  terminal = drained;
}
mutation_transition stop = record {
  sources = drained ∷ [];
  transient = some stopping;
  terminal = stopped;
}

-- RECONCILIATION_MATRIX: the states that an unsettled operation may have left, by operation.
unfoldable pub matrix_candidates : Operation → List State
matrix_candidates lock = absent ∷ locked ∷ []
matrix_candidates start = locked ∷ starting ∷ running ∷ []
matrix_candidates resume = interrupted ∷ stopped ∷ starting ∷ running ∷ []
matrix_candidates interrupt = running ∷ interrupting ∷ interrupted ∷ []
matrix_candidates drain = running ∷ interrupted ∷ draining ∷ drained ∷ []
matrix_candidates stop = drained ∷ stopping ∷ stopped ∷ []

-- TRANSIENT_RECEIPT_SOURCES; no entry reads as no source.
unfoldable pub transient_receipt_sources : State → List State
transient_receipt_sources starting = locked ∷ interrupted ∷ stopped ∷ []
transient_receipt_sources interrupting = running ∷ []
transient_receipt_sources draining = running ∷ interrupted ∷ []
transient_receipt_sources stopping = drained ∷ []
transient_receipt_sources _ = []

-- INSTANCE_STATES: every state but `Absent`.
unfoldable pub is_instance_state : State → Bool
is_instance_state s = not (same_state s absent)
