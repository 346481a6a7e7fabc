-- ===== src/Manager/Mutate/Harmless.antt =====
-- What it is that a failure of `mutate` of src/manager/lifecycle.ts harms no instance.
use dsh_runtime_kit.Base.{
  ◌≡◌, refl, ap, subst, ◌⊎◌, inl, inr, String, str_eq, eq_iff, none, some, Table, lookup, insert,
  lookup-insert, Bool-cases,
}
use dsh_runtime_kit.Manager.Failures.{FailureDoc}
use dsh_runtime_kit.Manager.Store.{Instance, Host, Store, Journal, Reply, reply, thrown, failed}
use dsh_runtime_kit.Manager.Journals.{settle_failed, settle_indeterminate}
use dsh_runtime_kit.Manager.Runs.{Run, namespace_of, in_flight}
use dsh_runtime_kit.Manager.Mutate.{leave_unknown}

-- An instance is as it was, but that it waits for no receipt.
pub record Restored (before after : Table Instance) (namespace : String) : Type 0 where
  pub instance : Instance
  pub was : lookup namespace before ≡ some instance
  pub is_now :
      lookup namespace after ≡ some (record instance { pending_source_receipt_head = none })

-- Each instance is as it was, but that it may no longer wait for a receipt.
abbrev pub Harmless : Table Instance → Table Instance → Type 0
Harmless before after =
    (namespace : String)
    → (lookup namespace after ≡ lookup namespace before) ⊎ Restored before after namespace

-- So it is, and the receipts are the same.
abbrev pub Unharmed : Store → Store → Type 0
Unharmed before after =
    (after.receipts ≡ before.receipts) × Harmless before.instances after.instances

-- If the answer is a failure, the store is unharmed.
abbrev pub Spares : Store → Reply × Store → Type 0
Spares s answer = (doc : FailureDoc) → answer.0 ≡ reply (failed doc) → Unharmed s answer.1

pub same_tables-Unharmed :
    (before after : Store)
    → after.instances ≡ before.instances
    → after.receipts ≡ before.receipts
    → Unharmed before after
same_tables-Unharmed before after instances receipts =
    (receipts, λ namespace. inl (ap (lookup namespace) instances))

pub settle_failed-Spares :
    (key : String) (j : Journal) (answer : Reply) (before s : Store)
    → Unharmed before s
    → Spares before (settle_failed key j answer s)
unfolding settle_failed
settle_failed-Spares key j thrown before s unharmed doc e = unharmed
settle_failed-Spares key j (reply p) before s unharmed doc e = unharmed

pub leave_unknown-Spares :
    (h : Host) (run : Run) (before s : Store) → Spares before (leave_unknown h run s)
unfolding leave_unknown settle_indeterminate
leave_unknown-Spares h run before s doc e = cc

pub Harmless-same :
    (before other after : Table Instance)
    → before ≡ other
    → Harmless before after
    → Harmless other after
Harmless-same before other after same = subst (λ t. Harmless t after) same

-- The run's instance is the stored one.
abbrev pub Stands : Run → Store → Type 0
Stands run s = lookup (namespace_of run) s.instances ≡ some run.instance

-- The instance that goes back to its source state, over the one in flight.
pub restored-Harmless :
    (run : Run) (s : Store)
    → Stands run s
    → Harmless s.instances (
        insert
          (namespace_of run)
          (record run.instance { pending_source_receipt_head = none })
          (insert (namespace_of run) (in_flight run.operation run.instance) s.instances))
restored-Harmless run s stands = at
  where
    back : Instance
    back = record run.instance { pending_source_receipt_head = none }

    flown : Table Instance
    flown = insert (namespace_of run) (in_flight run.operation run.instance) s.instances

    at :
        (namespace : String)
        → (lookup namespace (insert (namespace_of run) back flown) ≡ lookup namespace s.instances)
          ⊎ Restored s.instances (insert (namespace_of run) back flown) namespace
    at namespace = elim (Bool-cases (str_eq (namespace_of run) namespace)) [
      | inl same ↦ inr (record {
        instance = run.instance;
        was = subst (λ n. lookup n s.instances ≡ some run.instance) ((eq_iff _ _).0 same) stands;
        is_now = rw (lookup-insert (namespace_of run) namespace back flown, same) refl;
      })
      | inr apart ↦ inl (
          rw
            (
              lookup-insert (namespace_of run) namespace back flown,
              apart,
              lookup-insert (namespace_of run) namespace (in_flight run.operation run.instance)
                  s.instances,
              apart,
            )
            refl)
    ]
