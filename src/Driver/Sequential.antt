-- ===== src/Driver/Sequential.antt =====
-- The sequential execution of a block in crates/pevm/src/pevm.rs.

use pevm.Base.{
  ℕ, ◌+◌, ◌≡◌, refl, sym, ap, ◌∙◌, subst, min, Bool, Option, none, some, List, [], ◌∷◌, map,
}
use pevm.Types.{Address}
use pevm.Storage.{EvmAccount}
use pevm.Block.{cumulative_gas, u64_max}
use pevm.Execution.{Account, ExecutionResult, receipt_from_revm, state_transitions}
use pevm.Driver.{
  execution_error, Ran, returned, raised, panicked, map_error, ◌>>=◌, PevmTxExecutionResult,
  run_sequential, transitions_of, or_panic,
}

bind-returned :
    {E A B : Type 0} (r : Ran E A) (f : A → Ran E B) (b : B)
    → (r >>= f) ≡ returned b
    → (a : A) × (r ≡ returned a) × (f a ≡ returned b)
bind-returned (returned a) f b e = (a, refl, e)
bind-returned (raised x) f b e = cc
bind-returned panicked f b e = cc

value_or : {E A : Type 0} → A → Ran E A → A
value_or a (returned b) = b
value_or a r = a

returned_injective : {E A : Type 0} (a b : A) → ◌≡◌ {A = Ran E A} (returned a) (returned b) → a ≡ b
unfolding value_or
returned_injective a b e = ap (value_or a) e

map_error-returned :
    {E F A : Type 0} (g : E → F) (r : Ran E A) (a : A) → map_error g r ≡ returned a → r ≡ returned a
map_error-returned g (returned b) a e = ap returned (returned_injective b a e)
map_error-returned g (raised x) a e = cc
map_error-returned g panicked a e = cc

or_panic-returned :
    {E A : Type 0} (o : Option A) (a : A) → or_panic {E = E} o ≡ returned a → o ≡ some a
or_panic-returned none a e = cc
or_panic-returned (some b) a e = ap some (returned_injective b a e)

module _ {Evm Tx Log Bytecode Code VmError ExecutionError : Type 0}
    (transact : Evm
      → Tx
      → Ran VmError (ExecutionResult Log × List (Address × Account Bytecode)) × Evm)
    (commit : List (Address × Account Bytecode) → Evm → Evm) (into_code : Bytecode → Code)
    (custom : VmError → ExecutionError) (eip : Bool) where
  -- Each transaction runs on what the committed states before it leave.
  abbrev pub Outcomes :
      Evm → List Tx → List (ExecutionResult Log × List (Address × Account Bytecode)) → Type 0
  Outcomes evm [] [] = Unit
  Outcomes evm (tx ∷ txs) (o ∷ os) =
      ((transact evm tx).0 ≡ returned o) × Outcomes (commit o.1 (transact evm tx).1) txs os
  Outcomes evm _ _ = ⊥

  -- The runs that a list of results comes from.
  abbrev pub ComesFrom : ℕ → Evm → List Tx → List (PevmTxExecutionResult Log Code) → Type 0
  ComesFrom total evm txs rs =
      (os : List (ExecutionResult Log × List (Address × Account Bytecode))) × Outcomes evm txs os
      × (map (λ r. r.receipt.cumulative_gas_used) rs
          ≡ cumulative_gas total (map (λ o. o.0.tx_gas_used) os))
      × (map (λ r. some r.state) rs ≡ map (λ o. state_transitions into_code eip o.1) os)

  one_more :
      (total : ℕ) (evm : Evm) (tx : Tx) (txs : List Tx) (result : ExecutionResult Log)
      (state : List (Address × Account Bytecode)) (ts : List (Address × Option (EvmAccount Code)))
      (rest : List (PevmTxExecutionResult Log Code))
      → (transact evm tx).0 ≡ returned (result, state)
      → state_transitions into_code eip state ≡ some ts
      → ComesFrom
          (min (total + result.tx_gas_used) u64_max)
          (commit state (transact evm tx).1)
          txs
          rest
      → ComesFrom total evm (tx ∷ txs) (
          record {
            receipt = record {
              status = result.is_success;
              cumulative_gas_used = min (total + result.tx_gas_used) u64_max;
              logs = result.logs;
            };
            state = ts;
          }
          ∷ rest)
  unfolding cumulative_gas
  one_more total evm tx txs result state ts rest ran t (os, outs, gas, states) = (
    (result, state) ∷ os,
    (ran, outs),
    ap (λ x. min (total + result.tx_gas_used) u64_max ∷ x) gas,
    ap (λ x. some ts ∷ x) states
        ∙ ap (λ x. x ∷ map (λ o. state_transitions into_code eip o.1) os) (sym t),
  )

  -- A sequential execution that returns has run every transaction, each on what the committed states
  -- of those before it leave; each result has the state transitions of its run, and the gas of the
  -- receipts is that of the runs, summed up to it.
  pub run_sequential-ComesFrom :
      {SpecError TxError : Type 0} (txs : List Tx) (total : ℕ) (evm : Evm)
      (rs : List (PevmTxExecutionResult Log Code))
      → run_sequential {SpecError = SpecError} {TxError = TxError} transact commit into_code custom
          eip total evm txs
        ≡ returned rs
      → ComesFrom total evm txs rs
  unfolding run_sequential receipt_from_revm cumulative_gas
  run_sequential-ComesFrom [] total evm rs e =
      subst (ComesFrom total evm []) (returned_injective [] rs e) ([], tt, refl, refl)
  run_sequential-ComesFrom {SpecError} {TxError} (tx ∷ txs) total evm rs e =
      let ((result, state), ran, e₁) =
        bind-returned (map_error (λ err. execution_error (custom err)) (transact evm tx).0) _ rs
          e in
      let (ts, t, e₂) =
        bind-returned
          (transitions_of {SpecError = SpecError} {TxError = TxError} transact commit into_code
            custom eip state)
          _ rs e₁ in
      let (rest, again, e₃) = bind-returned _ _ rs e₂ in
      subst (ComesFrom total evm (tx ∷ txs)) (returned_injective _ rs e₃) (
        one_more total evm tx txs result state ts rest
          (map_error-returned (λ err. execution_error (custom err)) (transact evm tx).0
            (result, state) ran)
          (or_panic-returned (state_transitions into_code eip state) ts t)
          (run_sequential-ComesFrom txs (min (total + result.tx_gas_used) u64_max)
            (commit state (transact evm tx).1) rest again))
