-- ===== src/Driver/Tests.antt =====
-- Small blocks, executed one transaction after another or rejected.
use pevm.Base.{ℕ, ◌+◌, ◌≡◌, refl, true, false, List, [], ◌∷◌, ltb, if◌then◌else◌}
use pevm.Types.{Address}
use pevm.Execution.{Account, ExecutionResult, receipt_from_revm, state_transitions}
use pevm.Driver.{
  PevmError, invalid_transaction, Ran, returned, raised, PevmTxExecutionResult, run_sequential,
  full, execute,
}
use pevm.Driver.Sequential.{ComesFrom, run_sequential-ComesFrom}
use pevm.Driver.Rejected.{execute_rejects}

-- A transaction is the gas it uses; the machine counts what it committed.
abbrev transact : ℕ → ℕ → Ran ℕ (ExecutionResult ℕ × List (Address × Account ℕ)) × ℕ
transact evm gas =
    (returned (record { is_success = true; tx_gas_used = gas; logs = evm ∷ [] }, []), evm)

abbrev commit : List (Address × Account ℕ) → ℕ → ℕ
commit state evm = evm + 1

abbrev result : ℕ → ℕ → PevmTxExecutionResult ℕ ℕ
result gas log = record {
  receipt = record { status = true; cumulative_gas_used = gas; logs = log ∷ [] };
  state = [];
}

run_sequential-ComesFrom_example :
    ComesFrom transact commit
      (λ (c : ℕ). c)
      (λ (e : ℕ). e)
      true
      0
      0
      (30 ∷ 12 ∷ [])
      (result 30 0 ∷ result 42 1 ∷ [])
unfolding run_sequential receipt_from_revm state_transitions
run_sequential-ComesFrom_example =
    run_sequential-ComesFrom transact commit (λ (c : ℕ). c) (λ (e : ℕ). e) true {SpecError = ℕ}
      {TxError = ℕ} (30 ∷ 12 ∷ []) 0 0 (result 30 0 ∷ result 42 1 ∷ []) refl

-- A transaction of 9 or more is invalid.
abbrev get_tx_env : ℕ → Ran ℕ ℕ
get_tx_env tx = if ltb tx 9 then returned tx else raised tx

abbrev run_none : ℕ → ℕ → List ℕ → Ran (PevmError ℕ ℕ ℕ) ℕ
run_none spec_id block_env txs = returned 0

execute_rejects_example :
    execute
      (λ (h : ℕ). returned 1)
      (λ h s. h)
      get_tx_env
      (λ h. 0)
      run_none
      run_none
      5
      (full (3 ∷ 11 ∷ 20 ∷ []))
      4
      false
    ≡ raised (invalid_transaction 11)
execute_rejects_example =
    execute_rejects (λ (h : ℕ). returned 1) (λ h s. h) get_tx_env (λ h. 0) run_none run_none 5 1
      (3 ∷ []) 11 (20 ∷ []) 11 4 false refl ((3, refl), tt) refl
