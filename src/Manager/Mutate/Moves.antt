-- ===== src/Manager/Mutate/Moves.antt =====
-- The lifecycle's state machine: which states `mutate` of src/manager/lifecycle.ts may leave.
use dsh_runtime_kit.Base.{
  ◌≡◌, refl, subst, ◌⊎◌, inl, inr, String, true, str_eq, eq_iff, none, some, Table, lookup, insert,
  lookup-insert, Bool-cases, some_inj,
}
use dsh_runtime_kit.Manager.Value.{Value}
use dsh_runtime_kit.Manager.States.{Operation, includes, lifecycle_transition}
use dsh_runtime_kit.Manager.Store.{Instance, Host, Store}
use dsh_runtime_kit.Manager.Mutate.{mutate}
use dsh_runtime_kit.Manager.Runs.{committed, in_flight, transient_or}
use dsh_runtime_kit.Manager.Mutate.Cases.{guards_source, mutate-Tables}

-- One operation on an instance: the instance itself, or from a source of the operation its transient
-- or its terminal state. The identity and the digests that the lock fixed stay.
pub record Moves (op : Operation) (i i' : Instance) : Type 0 where
  pub same_identity : i'.identity ≡ i.identity
  pub same_lock : i'.composition_lock_receipt_digest ≡ i.composition_lock_receipt_digest
  pub same_composition : i'.resolved_composition_digest ≡ i.resolved_composition_digest
  pub same_seal : i'.admission_seal_digest ≡ i.admission_seal_digest
  pub moved :
      (i'.state ≡ i.state)
      ⊎ ((includes (lifecycle_transition op).sources i.state ≡ true)
          × ((i'.state ≡ (lifecycle_transition op).terminal)
              ⊎ (i'.state ≡ transient_or (lifecycle_transition op).transient i.state)))

-- Every instance behind the call comes from one before it under the same namespace.
abbrev pub TableMoves : Operation → Table Instance → Table Instance → Type 0
TableMoves op before after =
    (namespace : String) (i' : Instance)
    → lookup namespace after ≡ some i'
    → (i : Instance) × (lookup namespace before ≡ some i) × Moves op i i'

insert-TableMoves :
    (op : Operation) (before after : Table Instance) (namespace : String) (i new : Instance)
    → TableMoves op before after
    → lookup namespace before ≡ some i
    → Moves op i new
    → TableMoves op before (insert namespace new after)
insert-TableMoves op before after namespace i new moves found move other i' at =
    elim (Bool-cases (str_eq namespace other)) [
      | inl same ↦ (
        i,
        subst (λ k. lookup k before ≡ some i) ((eq_iff namespace other).0 same) found,
        subst (Moves op i) (some_inj (rw (lookup-insert namespace other new after, same) at at))
            move,
      )
      | inr apart ↦ moves other i' (rw (lookup-insert namespace other new after, apart) at at)
    ]

-- `mutate` makes no instance and loses none of its identity, and moves a state only from a source of
-- its operation to the operation's transient or terminal state.
pub mutate-Moves :
    (h : Host) (op : Operation) (value : Value) (s : Store)
    → TableMoves op s.instances (mutate h op value s).1.instances
unfolding in_flight committed
mutate-Moves h op value s =
    mutate-Tables h (λ instances receipts. TableMoves op s.instances instances) op value s
      (λ namespace i found. (i, found, stay op i))
      λ r i a.
        let ns = r.identity.namespace in
        let source = guards_source h op r i s a.guarded in
        let still : TableMoves op s.instances s.instances =
          λ namespace i found. (i, found, stay op i) in
        let flying =
          insert-TableMoves op s.instances s.instances ns i (in_flight op i) still a.found (record {
            same_identity = refl;
            same_lock = refl;
            same_composition = refl;
            same_seal = refl;
            moved = inr (source, inr refl);
          }) in
        record {
          unchanged = still;
          unknown = flying;
          failed =
              insert-TableMoves op s.instances _ ns i
                (record i { pending_source_receipt_head = none }) flying a.found
                (record {
                  same_identity = refl;
                  same_lock = refl;
                  same_composition = refl;
                  same_seal = refl;
                  moved = inl refl;
                });
          done = λ j degraded settled valid.
              insert-TableMoves op s.instances _ ns i _ flying a.found (record {
                same_identity = refl;
                same_lock = refl;
                same_composition = refl;
                same_seal = refl;
                moved = inr (source, inl refl);
              });
        }
  where
    stay : (op : Operation) (i : Instance) → Moves op i i
    stay op i = record {
      same_identity = refl;
      same_lock = refl;
      same_composition = refl;
      same_seal = refl;
      moved = inl refl;
    }
