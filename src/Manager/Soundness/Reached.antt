-- ===== src/Manager/Soundness/Reached.antt =====
-- The stores that calls of the manager of src/manager/lifecycle.ts lead to, one call after the other.
use dsh_runtime_kit.Manager.Value.{Value}
use dsh_runtime_kit.Manager.States.{Operation}
use dsh_runtime_kit.Manager.Store.{Host, Store, create_memory_runtime_store}
use dsh_runtime_kit.Manager.Calls.{handle, mutation, status, doctor}
use dsh_runtime_kit.Manager.Chain.Extend.{NoCollision}
use dsh_runtime_kit.Manager.States.{lock, start, resume, interrupt, drain, stop}
use dsh_runtime_kit.Base.{lookup, ◌≡◌, String, subst}
use dsh_runtime_kit.Manager.Receipts.{Receipt}
use dsh_runtime_kit.Manager.Soundness.{Sound}
use dsh_runtime_kit.Manager.Soundness.Mutate.{HandlersKeepSession, mutate-Sound}
use dsh_runtime_kit.Manager.Soundness.Lock.{lock_instance-Sound}

-- A run of the manager from the empty store. Each call meets a host of its own: another time, and
-- other answers of the verifier, the probes and the handlers; only the digest of receipts is the same
-- throughout. No handler of interrupt, drain or stop names a session other than the instance's, and no
-- call overwrites a stored receipt by another one of the same digest. A run may hold every call but a
-- reconciliation.
pub data Reached (sha : Receipt → String) : Store → Type 0 where
  begun : Reached sha create_memory_runtime_store
  mutated :
      (h : Host) (s : Store) (op : Operation) (value : Value)
      → h.sha ≡ sha
      → HandlersKeepSession h
      → Reached sha s
      → NoCollision sha s.receipts (handle h (mutation op value) s).1.receipts
      → Reached sha (handle h (mutation op value) s).1
  asked_status :
      (h : Host) (s : Store) (value : Value)
      → Reached sha s
      → Reached sha (handle h (status value) s).1
  asked_doctor :
      (h : Host) (s : Store) (value : Value)
      → Reached sha s
      → Reached sha (handle h (doctor value) s).1

module _ (h : Host) (handlers : HandlersKeepSession h) where
  handled-Sound :
      (op : Operation) (value : Value) (s : Store)
      → Sound h.sha s
      → NoCollision h.sha s.receipts (handle h (mutation op value) s).1.receipts
      → Sound h.sha (handle h (mutation op value) s).1
  unfolding handle
  handled-Sound lock value s = lock_instance-Sound h value s
  handled-Sound start value s = mutate-Sound h handlers start value s
  handled-Sound resume value s = mutate-Sound h handlers resume value s
  handled-Sound interrupt value s = mutate-Sound h handlers interrupt value s
  handled-Sound drain value s = mutate-Sound h handlers drain value s
  handled-Sound stop value s = mutate-Sound h handlers stop value s

step-Sound :
    (sha : Receipt → String) (h : Host) (op : Operation) (value : Value) (s : Store)
    → h.sha ≡ sha
    → HandlersKeepSession h
    → Sound sha s
    → NoCollision sha s.receipts (handle h (mutation op value) s).1.receipts
    → Sound sha (handle h (mutation op value) s).1
step-Sound sha h op value s same handlers =
    subst
      (λ f.
        Sound f s
        → NoCollision f s.receipts (handle h (mutation op value) s).1.receipts
        → Sound f (handle h (mutation op value) s).1)
      same (handled-Sound h handlers op value s)

-- Whatever sequence of calls the manager has answered, each at its own time and with its own answers
-- of the verifier, the probes and the handlers, every instance of the store heads a valid receipt
-- chain whose newest receipt fits it. Conditions: the run began with the empty store, no call was a
-- reconciliation, none overwrote a stored receipt by another one of the same digest, and no handler of
-- interrupt, drain or stop names a session other than the instance's.
pub Reached-Sound : (sha : Receipt → String) (s : Store) → Reached sha s → Sound sha s
unfolding handle lookup
Reached-Sound sha _ begun = empty
  where
    empty : Sound sha create_memory_runtime_store
    empty namespace i e = cc
Reached-Sound sha _ (mutated h s op value same handlers run kept) =
    step-Sound sha h op value s same handlers (Reached-Sound sha s run) kept
Reached-Sound sha _ (asked_status h s value run) = Reached-Sound sha s run
Reached-Sound sha _ (asked_doctor h s value run) = Reached-Sound sha s run
