-- ===== src/Manager/Calls.antt =====
-- The object that createWorkloadManager of src/manager/lifecycle.ts returns: one handler per call.
use dsh_runtime_kit.Manager.Value.{Value}
use dsh_runtime_kit.Manager.States.{Operation, lock}
use dsh_runtime_kit.Manager.Store.{Host, Reply, Store}
use dsh_runtime_kit.Manager.Lock.{lock_instance}
use dsh_runtime_kit.Manager.Mutate.{mutate}
use dsh_runtime_kit.Manager.Query.{status_instance, doctor_instance}
use dsh_runtime_kit.Manager.Reconcile.{Context}
use dsh_runtime_kit.Manager.Reconcile.Handler.{reconcile_instance}

pub data Call : Type 0 where
  mutation : Operation → Value → Call
  status doctor : Value → Call
  reconcile : Value → Context → Call

-- The calls of one namespace run one after the other (`serialize`), so each is a step of the store.
unfoldable pub handle : Host → Call → Store → Reply × Store
handle h (mutation lock value) s = lock_instance h value s
handle h (mutation op value) s = mutate h op value s
handle h (status value) s = (status_instance h value s, s)
handle h (doctor value) s = (doctor_instance h value s, s)
handle h (reconcile value context) s = reconcile_instance h value context s
