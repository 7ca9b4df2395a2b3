-- ===== src/Driver.antt =====
-- `Pevm::execute` and `execute_revm_sequential` of crates/pevm/src/pevm.rs. The chain, revm and the
-- parallel execution are parameters.
pub mod Sequential
pub mod Rejected
mod Tests
use Prim.Native.String.{String}
use mathlib.Core.Option
use pevm.Base.{
  ℕ, ◌+◌, ◌^◌, min, Bool, true, false, ◌||◌, Option, none, some, List, [], ◌∷◌, length, ltb,
  if◌then◌else◌,
}
use pevm.Types.{TxIdx, Address}
use pevm.Storage.{EvmAccount}
use pevm.Block.{u64_max}
use pevm.Execution.{Account, ExecutionResult, Receipt, receipt_from_revm, state_transitions}

pub data PevmError (SpecError TxError ExecutionError : Type 0) : Type 0 where
  block_spec_error : SpecError → PevmError SpecError TxError ExecutionError
  missing_transaction_data : PevmError SpecError TxError ExecutionError
  invalid_transaction : TxError → PevmError SpecError TxError ExecutionError
  nonce_mismatch :
      (tx_idx : TxIdx) (tx_nonce executed_nonce : ℕ) → PevmError SpecError TxError ExecutionError
  storage_error : String → PevmError SpecError TxError ExecutionError
  execution_error : ExecutionError → PevmError SpecError TxError ExecutionError
  unreachable_error : PevmError SpecError TxError ExecutionError

-- A result, or the panic of an `unwrap`.
pub data Ran (E A : Type 0) : Type 0 where
  returned : A → Ran E A
  raised : E → Ran E A
  panicked : Ran E A

infixl 5 ◌>>=◌
abbrev pub ◌>>=◌ : {E A B : Type 0} → Ran E A → (A → Ran E B) → Ran E B
returned a >>= f = f a
raised e >>= f = raised e
panicked >>= f = panicked

abbrev pub map_error : {E F A : Type 0} → (E → F) → Ran E A → Ran F A
map_error f (returned a) = returned a
map_error f (raised e) = raised (f e)
map_error f panicked = panicked

abbrev pub or_panic : {E A : Type 0} → Option A → Ran E A
or_panic none = panicked
or_panic (some a) = returned a

-- `collect::<Result<Vec<_>, _>>()`
unfoldable pub collect : {E A B : Type 0} → (A → Ran E B) → List A → Ran E (List B)
collect f [] = returned []
collect f (a ∷ as') = do b ← f a; bs ← collect f as'; returned (b ∷ bs)

-- `BlockTransactions`: only full ones can be executed.
pub data BlockTransactions (Tx : Type 0) : Type 0 where
  full : List Tx → BlockTransactions Tx
  hashes : BlockTransactions Tx
  uncle : BlockTransactions Tx

pub record PevmTxExecutionResult (Log Code : Type 0) : Type 0 where
  pub receipt : Receipt Log
  pub state : List (Address × Option (EvmAccount Code))

module _ {Evm Tx Log Bytecode Code VmError SpecError TxError ExecutionError : Type 0}
    (transact : Evm
      → Tx
      → Ran VmError (ExecutionResult Log × List (Address × Account Bytecode)) × Evm)
    (commit : List (Address × Account Bytecode) → Evm → Evm) (into_code : Bytecode → Code)
    (custom : VmError → ExecutionError) where
  abbrev pub transitions_of :
      Bool
      → List (Address × Account Bytecode)
      → Ran (PevmError SpecError TxError ExecutionError) (List (Address × Option (EvmAccount Code)))
  transitions_of eip state = or_panic (state_transitions into_code eip state)

  -- The loop over the transactions; `total` is the gas used so far and `custom` makes revm's error
  -- `ExecutionError::Custom` of its text.
  unfoldable pub run_sequential :
      Bool
      → ℕ
      → Evm
      → List Tx
      → Ran (PevmError SpecError TxError ExecutionError) (List (PevmTxExecutionResult Log Code))
  unfolding state_transitions
  run_sequential eip total evm [] = returned []
  run_sequential eip total evm (tx ∷ txs) = do
    let (ran, evm') = transact evm tx
    (result, state) ← map_error (λ err. execution_error (custom err)) ran
    let receipt = receipt_from_revm result
    let total' = min (total + receipt.cumulative_gas_used) u64_max
    ts ← transitions_of eip state
    rest ← run_sequential eip total' (commit state evm') txs
    returned
        (record { receipt = record receipt { cumulative_gas_used = total' }; state = ts } ∷ rest)

module _ {Header SpecId BlockEnv RpcTx Tx Out SpecError TxError ExecutionError : Type 0}
    (get_block_spec : Header → Ran SpecError SpecId) (get_block_env : Header → SpecId → BlockEnv)
    (get_tx_env : RpcTx → Ran TxError Tx) (gas_used : Header → ℕ)
    (execute_revm_sequential execute_revm_parallel : SpecId
      → BlockEnv
      → List Tx
      → Ran (PevmError SpecError TxError ExecutionError) Out) where
  abbrev pub tx_envs :
      BlockTransactions RpcTx → Ran (PevmError SpecError TxError ExecutionError) (List Tx)
  tx_envs (full txs) = map_error invalid_transaction (collect get_tx_env txs)
  tx_envs _ = raised missing_transaction_data

  -- `Pevm::execute`
  unfoldable pub execute :
      Header
      → BlockTransactions RpcTx
      → ℕ
      → Bool
      → Ran (PevmError SpecError TxError ExecutionError) Out
  unfolding collect
  execute header transactions concurrency_level force_sequential = do
    spec_id ← map_error block_spec_error (get_block_spec header)
    let block_env = get_block_env header spec_id
    txs ← tx_envs transactions
    if force_sequential || (ltb (length txs) concurrency_level || ltb (gas_used header) 4000000)
        then execute_revm_sequential spec_id block_env txs
        else execute_revm_parallel spec_id block_env txs
