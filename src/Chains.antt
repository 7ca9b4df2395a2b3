-- ===== src/Chains.antt =====
-- What crates/pevm/src/chain/ethereum.rs and chain/rise.rs make of transactions and receipts, besides
-- the rewards: prices of gas, RISE's initial memory, and the roots of the receipts.
-- Encodings, the sorting of the entries and the trie belong to other libraries: they are parameters.
pub mod Estimates
pub mod Roots
pub mod Specs
mod Tests
use Prim.Native.String.{String}
use mathlib.Core.Option
use pevm.Base.{
  ℕ, zero, suc, ◌+◌, ◌-◌, ◌%◌, ◌^◌, Bool, true, false, Option, none, some, List, [], ◌∷◌, ◌++◌,
  length, ◌==◌, if◌then◌else◌,
}
use pevm.Types.{TxIdx, Address, MemoryLocationHash, B256}
use pevm.MvMemory.{MvMemory, new}
use pevm.Storage.{EvmAccount, lookup}
use pevm.Rewards.{FeeRecipients}
use pevm.Execution.{Receipt}
use pevm.Driver.{PevmTxExecutionResult}

-- alloy's `TxType` and op-alloy's `OpTxType`, in one.
pub data TxType : Type 0 where
  legacy eip2930 eip1559 eip4844 eip7702 deposit post_exec : TxType

-- What is read of an envelope.
pub record Envelope : Type 0 where
  pub tx_type : TxType
  pub gas_price : Option ℕ
  pub max_fee_per_gas : ℕ

-- `get_ethereum_gas_price` and RISE's `get_gas_price`; `none` is `MissingGasPrice`. Ethereum has no
-- transaction of the last two types, RISE none of type EIP-4844.
unfoldable pub get_gas_price : Envelope → Option ℕ
get_gas_price tx = elim tx.tx_type [
  | legacy ↦ tx.gas_price
  | eip2930 ↦ tx.gas_price
  | eip1559 ↦ some tx.max_fee_per_gas
  | eip4844 ↦ some tx.max_fee_per_gas
  | eip7702 ↦ some tx.max_fee_per_gas
  | deposit ↦ some 0
  | post_exec ↦ some 0
]

-- `entry(location).or_insert_with(…).push(index)`
unfoldable pub push_index :
    TxIdx
    → MemoryLocationHash
    → List (MemoryLocationHash × List TxIdx)
    → List (MemoryLocationHash × List TxIdx)
push_index i l [] = (l, i ∷ []) ∷ []
push_index i l ((k, js) ∷ m) = if k == l then (k, js ++ i ∷ []) ∷ m else (k, js) ∷ push_index i l m

module _ (fees : FeeRecipients) (beneficiary : MemoryLocationHash) where
  -- The loop over the transactions, each given by `is_deposit()`.
  unfoldable pub estimated_locations :
      TxIdx
      → List Bool
      → List (MemoryLocationHash × List TxIdx)
      → List (MemoryLocationHash × List TxIdx)
  unfolding push_index
  estimated_locations i [] m = m
  estimated_locations i (true ∷ txs) m = estimated_locations (suc i) txs m
  estimated_locations i (false ∷ txs) m = estimated_locations (suc i) txs (
      push_index i fees.operator_fee
        (push_index i fees.l1_fee (push_index i fees.base_fee (push_index i beneficiary m))))

  -- `PevmRise::build_mv_memory`; the addresses are the beneficiary's and the fee recipients'.
  unfoldable pub rise_memory : {Bytecode : Type 0} → List Address → List Bool → MvMemory Bytecode
  unfolding estimated_locations
  rise_memory addresses txs = new (length txs) (estimated_locations 0 txs []) addresses

pub data CalculateReceiptRootError : Type 0 where
  unsupported : CalculateReceiptRootError
  invalid_tx_type : ℕ → CalculateReceiptRootError
  custom : String → CalculateReceiptRootError
  op_deposit_missing_sender : CalculateReceiptRootError

-- A result, or the panic of a subtraction below zero.
pub data Rooted {ℓ} (A : Type ℓ) : Type ℓ where
  ok : A → Rooted A
  failed : CalculateReceiptRootError → Rooted A
  panicked : Rooted A

infixl 5 ◌>>=◌
abbrev pub ◌>>=◌ {ℓ κ} : {A : Type ℓ} {B : Type κ} → Rooted A → (A → Rooted B) → Rooted B
ok a >>= f = f a
failed e >>= f = failed e
panicked >>= f = panicked

-- `txns().zip(tx_results)`
abbrev pub zip : {A B : Type 0} → List A → List B → List (A × B)
zip (a ∷ as') (b ∷ bs) = (a, b) ∷ zip as' bs
zip _ _ = []

-- `nonce - 1` on a `u64`, in a build that checks it.
abbrev pub checked_dec : ℕ → Rooted ℕ
checked_dec zero = panicked
checked_dec (suc n) = ok n

module _ {Log Code Key Bytes : Type 0} (encode_index : ℕ → Key)
    (encode : TxType → Receipt Log → Bytes) (encode_deposit : Receipt Log → ℕ → Bytes)
    (sort : List (Key × Bytes) → List (Key × Bytes)) (root : List (Key × Bytes) → B256) where
  abbrev pub ethereum_entries :
      ℕ → List (TxType × PevmTxExecutionResult Log Code) → List (Key × Bytes)
  ethereum_entries i [] = []
  ethereum_entries i ((tx_type, result) ∷ rest) =
      (encode_index i, encode tx_type result.receipt) ∷ ethereum_entries (suc i) rest

  -- `PevmEthereum::calculate_receipt_root`; the test is `spec_id < SpecId::BYZANTIUM`.
  unfoldable pub ethereum_receipt_root :
      Bool → List TxType → List (PevmTxExecutionResult Log Code) → Rooted B256
  ethereum_receipt_root before_byzantium txs results =
      if before_byzantium
      then failed unsupported
      else ok (root (sort (ethereum_entries 0 (zip txs results))))

  -- The account of the sender behind a deposit.
  abbrev pub sender_of : Option (Option (EvmAccount Code)) → Rooted (EvmAccount Code)
  sender_of (some (some account)) = ok account
  sender_of _ = failed op_deposit_missing_sender

  abbrev pub rise_receipt : TxType × Address → PevmTxExecutionResult Log Code → Rooted Bytes
  rise_receipt (deposit, signer) result = do
    account ← sender_of (lookup result.state signer)
    deposit_nonce ← checked_dec account.nonce
    ok (encode_deposit result.receipt deposit_nonce)
  rise_receipt (tx_type, signer) result = ok (encode tx_type result.receipt)

  unfoldable pub rise_entries :
      ℕ → List ((TxType × Address) × PevmTxExecutionResult Log Code) → Rooted (List (Key × Bytes))
  rise_entries i [] = ok []
  rise_entries i ((tx, result) ∷ rest) = do
    bytes ← rise_receipt tx result
    entries ← rise_entries (suc i) rest
    ok ((encode_index i, bytes) ∷ entries)

  -- `PevmRise::calculate_receipt_root`; a transaction is its type and its signer.
  unfoldable pub rise_receipt_root :
      List (TxType × Address) → List (PevmTxExecutionResult Log Code) → Rooted B256
  unfolding rise_entries
  rise_receipt_root txs results = do
    entries ← rise_entries 0 (zip txs results)
    ok (root (sort entries))
