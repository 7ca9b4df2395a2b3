-- ===== src/Driver/Rejected.antt =====
-- Blocks that `Pevm::execute` of crates/pevm/src/pevm.rs rejects before it executes anything.
use pevm.Base.{ℕ, ◌≡◌, refl, Bool, List, [], ◌∷◌, ◌++◌, All}
use pevm.Driver.{PevmError, invalid_transaction, Ran, returned, raised, collect, full, execute}

-- The environment of a transaction was made.
abbrev pub IsValid : {E A B : Type 0} → (A → Ran E B) → A → Type 0
IsValid {B} f a = (b : B) × (f a ≡ returned b)

collect-raised :
    {E A B : Type 0} (f : A → Ran E B) (valid : List A) (a : A) (rest : List A) (e : E)
    → All (IsValid f) valid
    → f a ≡ raised e
    → collect f (valid ++ a ∷ rest) ≡ raised e
unfolding collect
collect-raised f [] a rest e v q = rw (q, collect) refl
collect-raised f (x ∷ valid) a rest e v q =
    rw (v.0.1, collect-raised f valid a rest e v.1 q, collect) refl

module _ {Header SpecId BlockEnv RpcTx Tx Out SpecError TxError ExecutionError : Type 0}
    (get_block_spec : Header → Ran SpecError SpecId) (get_block_env : Header → SpecId → BlockEnv)
    (get_tx_env : RpcTx → Ran TxError Tx) (gas_used : Header → ℕ)
    (execute_revm_sequential execute_revm_parallel : SpecId
      → BlockEnv
      → List Tx
      → Ran (PevmError SpecError TxError ExecutionError) Out) where
  -- A block of a known spec is rejected with the error of its first invalid transaction, whatever the
  -- transactions behind it, the concurrency level and the mode are.
  pub execute_rejects :
      (header : Header) (spec_id : SpecId) (valid : List RpcTx) (tx : RpcTx) (rest : List RpcTx)
      (e : TxError) (concurrency_level : ℕ) (force_sequential : Bool)
      → get_block_spec header ≡ returned spec_id
      → All (IsValid get_tx_env) valid
      → get_tx_env tx ≡ raised e
      → execute get_block_spec get_block_env get_tx_env gas_used execute_revm_sequential
          execute_revm_parallel header
          (full (valid ++ tx ∷ rest))
          concurrency_level
          force_sequential
        ≡ raised (invalid_transaction e)
  unfolding execute
  execute_rejects header spec_id valid tx rest e concurrency_level force_sequential s v q =
      rw (s, collect-raised get_tx_env valid tx rest e v q) refl
