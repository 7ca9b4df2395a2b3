-- ===== src/Execution/Failures.antt =====
-- What `Vm::execute` of crates/pevm/src/vm.rs answers when a run of revm fails.
use pevm.Base.{suc, ◌≡◌, ◌≢◌, ◌⊎◌}
use pevm.Types.{TxIdx}
use pevm.VmDb.{
  ReadError, blocking, inconsistent_read, self_destructed_account, retry, fallback_to_sequential,
  blocked_by, execution_error,
}
use pevm.Execution.{
  EvmError, database, lack_of_fund_for_max_fee, nonce_too_high, other, Failure, vm_error, failed,
}

-- The errors of a read that end the block's execution.
abbrev pub IsFatal : ReadError → Type 0
IsFatal r = (r ≢ inconsistent_read) × (r ≢ self_destructed_account) × ((b : TxIdx) → r ≢ blocking b)

-- What a transaction before this one may still mend.
abbrev pub IsEarly : EvmError → Type 0
IsEarly e = (e ≡ lack_of_fund_for_max_fee) ⊎ (e ≡ nonce_too_high)

-- Which errors are answered so.
abbrev pub IsAnswerTo : TxIdx → EvmError → Failure → Type 0
IsAnswerTo i e (vm_error retry) = e ≡ database inconsistent_read
IsAnswerTo i e (vm_error fallback_to_sequential) = e ≡ database self_destructed_account
IsAnswerTo i e (vm_error (blocked_by b)) = (e ≡ database (blocking b)) ⊎ ((suc b ≡ i) × IsEarly e)
IsAnswerTo i e (vm_error (execution_error r)) = (e ≡ database r) × IsFatal r
IsAnswerTo i e (failed x) = (x ≡ e) × ((e ≡ other) ⊎ ((i ≡ 0) × IsEarly e))
