-- ===== src/Block.antt =====
-- crates/pevm/src/pevm.rs behind the parallel run of a block: cumulative gas, and the evaluation of
-- the addresses that were updated lazily, from the lowest write up.
-- The code of an account belongs to another library and is a parameter.
pub mod Gas
pub mod History
pub mod Agreement
pub mod Start
mod Tests
use mathlib.Core.Option
use pevm.Base.{
  ℕ, zero, suc, ◌+◌, ◌-◌, ◌*◌, ◌%◌, ◌^◌, min, Bool, true, false, ◌&&◌, Option, none, some, List, [],
  ◌∷◌, ◌++◌, ltb, ◌==◌, if◌then◌else◌, update,
}
use pevm.Types.{
  TxIdx, Address, U256, B256, AccountBasic, MemoryValue, basic, lazy_recipient, lazy_sender,
  MemoryEntry, data_entry, estimate,
}
use pevm.MvMemory.{Written}
use pevm.Storage.{EvmAccount, Fetched, ok, failed}
use pevm.VmDb.Basic.{saturating_add, u256_max}

abbrev pub u64_max : ℕ
u64_max = 2 ^ 64 - 1

-- The receipts' gas becomes cumulative: `total` is the sum so far, and addition saturates.
unfoldable pub cumulative_gas : ℕ → List ℕ → List ℕ
cumulative_gas total [] = []
cumulative_gas total (gas ∷ rest) =
    let total' = min (total + gas) u64_max in total' ∷ cumulative_gas total' rest

-- What the evaluation uses of revm's `TxEnv`; `blob_gas` is `total_blob_gas()`.
pub record TxFees : Type 0 where
  pub caller : Address
  pub nonce : ℕ
  pub value : U256
  pub gas_limit : ℕ
  pub gas_price : ℕ
  pub blob_gas : ℕ
  pub max_fee_per_blob_gas : ℕ

abbrev saturating_mul : U256 → U256 → U256
saturating_mul a b = min (a * b) u256_max

pub max_fee : TxFees → U256
max_fee tx =
    saturating_add (saturating_add (saturating_mul tx.gas_limit tx.gas_price) tx.value)
      (saturating_mul tx.blob_gas tx.max_fee_per_blob_gas)

-- How the evaluation fails: `LackOfFundForMaxFee`, `UnreachableError`, `NonceMismatch`, the
-- `unreachable!` of an entry that is no balance, and the debug assertion on an empty account.
pub data BlockError : Type 0 where
  lack_of_fund : U256 → U256 → BlockError
  unreachable_nonce : BlockError
  nonce_mismatch : TxIdx → ℕ → ℕ → BlockError
  unreachable_entry : BlockError
  empty_account : BlockError

pub data Outcome {ℓ} (A : Type ℓ) : Type ℓ where
  done : A → Outcome A
  error : BlockError → Outcome A

infixl 5 ◌>>=◌ ◌>>◌
abbrev pub ◌>>=◌ {ℓ κ} : {A : Type ℓ} {B : Type κ} → Outcome A → (A → Outcome B) → Outcome B
done a >>= f = f a
error e >>= f = error e

abbrev ◌>>◌ {ℓ} : {B : Type ℓ} → Outcome (Unit {0}) → Outcome B → Outcome B
m >> k = m >>= λ _. k

-- `MemoryEntry` against the account so far; `tx` is the writer.
pub apply_entry : TxFees → MemoryEntry → AccountBasic → Outcome AccountBasic
apply_entry tx (data_entry k (basic info)) account =
    if (info.balance == 0) && (info.nonce == 0) then error empty_account else done info
apply_entry tx (data_entry k (lazy_recipient addition)) account =
    done (record account { balance = saturating_add account.balance addition })
apply_entry tx (data_entry k (lazy_sender subtraction)) account =
    if ltb account.balance (max_fee tx)
    then error (lack_of_fund account.balance (max_fee tx))
    else done
        (record { balance = account.balance - subtraction; nonce = (account.nonce + 1) % 2 ^ 64 })
apply_entry tx _ account = error unreachable_entry

-- The nonce behind the entry of a transaction that the address calls.
pub check_nonce : Address → TxIdx → TxFees → AccountBasic → Outcome (Unit {0})
check_nonce address i tx account =
    if tx.caller == address
    then (if account.nonce == 0
        then error unreachable_nonce
        else if tx.nonce == account.nonce - 1
        then done tt
        else error (nonce_mismatch i tx.nonce (account.nonce - 1)))
    else done tt

abbrev pub is_none {ℓ} : {A : Type ℓ} → Option A → Bool
is_none none = true
is_none (some a) = false

-- One transaction's `state`: an address without a key, a cleared account, or an account.
abbrev pub TxState : Type 0 → Type 0
TxState Code = Address → Option (Option (EvmAccount Code))

-- What the loop over an address's writes is given.
pub record Evaluation (Code : Type 0) : Type 0 where
  pub txs : TxIdx → TxFees
  pub address : Address
  pub eip_161 : Bool
  pub code_hash : Option B256
  pub code : Option Code

module _ {Code : Type 0} where
  -- `state.entry(address).or_default()`
  abbrev pub or_none : Option (Option (EvmAccount Code)) → Option (EvmAccount Code)
  or_none none = none
  or_none (some a) = a

  abbrev overwrite :
      Option B256 → Option Code → AccountBasic → Option (EvmAccount Code) → EvmAccount Code
  overwrite code_hash code account (some a) = record a {
    balance = account.balance;
    nonce = account.nonce;
  }
  overwrite code_hash code account none = record {
    balance = account.balance;
    nonce = account.nonce;
    code_hash = code_hash;
    code = code;
    slots = [];
  }

  -- The account that a transaction's result has for the address.
  pub settle_account :
      Bool
      → Option B256
      → Option Code
      → AccountBasic
      → Option (EvmAccount Code)
      → Option (EvmAccount Code)
  settle_account eip_161 code_hash code account old =
      if eip_161 && is_none code_hash && (account.nonce == 0) && (account.balance == 0)
      then none
      else some (overwrite code_hash code account old)

  -- The body of the loop over an address's writes.
  pub evaluate_entry :
      Evaluation Code
      → TxIdx × MemoryEntry
      → AccountBasic × (TxIdx → TxState Code)
      → Outcome (AccountBasic × (TxIdx → TxState Code))
  unfolding apply_entry check_nonce settle_account
  evaluate_entry ev (i, entry) (account, results) = do
    account' ← apply_entry (ev.txs i) entry account
    check_nonce ev.address i (ev.txs i) account'
    done (
      account',
      update results i (
          update (results i) ev.address (
            some (
              settle_account ev.eip_161 ev.code_hash ev.code account'
                (or_none (results i ev.address))))),
    )

  -- The loop, over the writes from the lowest up, below `n`.
  unfoldable pub evaluate_history :
      Evaluation Code
      → ℕ
      → Written
      → AccountBasic × (TxIdx → TxState Code)
      → Outcome (AccountBasic × (TxIdx → TxState Code))
  evaluate_history ev zero m s = done s
  evaluate_history ev (suc n) m s = evaluate_history ev n m s >>= λ t. elim (m n) [
    | none ↦ done t
    | some e ↦ evaluate_entry ev (n, e) t
  ]

-- `!matches!(first entry, Some(Basic))` decides whether the storage is read.
abbrev pub starts_absolute : Option MemoryEntry → Bool
starts_absolute (some (data_entry k (basic info))) = true
starts_absolute _ = false

-- The entry of the lowest transaction.
pub first_entry : ℕ → Written → Option MemoryEntry
first_entry zero m = none
first_entry (suc n) m = elim (first_entry n m) [ none ↦ m n | some e ↦ some e ]

abbrev or_zero_account : Fetched (Option AccountBasic) → AccountBasic
or_zero_account (ok (some account)) = account
or_zero_account _ = record { balance = 0; nonce = 0 }

-- The account that the loop starts from; a storage error counts as no account.
pub start_account : ℕ → Written → Fetched (Option AccountBasic) → AccountBasic
unfolding first_entry
start_account n m stored =
    if starts_absolute (first_entry n m)
    then record { balance = 0; nonce = 0 }
    else or_zero_account stored
