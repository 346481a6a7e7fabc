-- ===== src/Manager/Soundness/Query.antt =====
-- What `doctor` of src/manager/lifecycle.ts finds on any store.
use dsh_runtime_kit.Base.{String, Bool, Option, if◌then◌else◌, false, ◌&&◌, str_eq, none, some}
use dsh_runtime_kit.Manager.Chain.{same_option, receipt_chain_valid, receipt_head_valid}
use dsh_runtime_kit.Manager.Store.{Instance, Host, Store}
use dsh_runtime_kit.Manager.Query.{DoctorRequest}

abbrev recommend : Bool → String
recommend b = if b then "none" else "reconcile"

abbrev walked : Option Bool → Bool
walked (some valid) = valid
walked none = false

abbrev chain_tests : Host → DoctorRequest → Store → Instance → Bool
chain_tests h r s i =
    same_option (some r.expected_receipt_chain_head) i.receipt_head
    && receipt_head_valid h.sha s.receipts i
    && walked (receipt_chain_valid h.sha s.receipts i.identity i.receipt_head)

abbrev tests : Host → DoctorRequest → Store → Instance → Bool
tests h r s i =
    str_eq r.expected_composition_lock_receipt_digest i.composition_lock_receipt_digest
    && str_eq r.expected_admission_seal_digest i.admission_seal_digest
    && chain_tests h r s i
