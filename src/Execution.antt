-- ===== src/Execution.antt =====
-- `Vm::execute` of crates/pevm/src/vm.rs behind a run of revm: the write set from the accounts of the
-- final state, the receipt and the state transitions; and what a failed run is answered with.
-- revm's run, its journal and the methods of its accounts are not modelled: an account is what is
-- read of it.
pub mod Writes
pub mod Reached
pub mod Transitions
pub mod Failures
mod Tests
use mathlib.Core.Option
use pevm.Base.{
  ℕ, zero, suc, ◌+◌, ◌-◌, Bool, true, false, ◌&&◌, ◌||◌, not, Option, none, some, List, [], ◌∷◌,
  ◌++◌, ltb, ◌==◌, if◌then◌else◌, update,
}
use pevm.Types.{
  TxIdx, Address, U256, B256, MemoryLocation, basic_location, code_hash_location, storage_location,
  MemoryLocationHash, AccountBasic, MemoryValue, basic, code_hash, storage, lazy_recipient,
  lazy_sender, self_destructed, WriteSet,
}
use pevm.MvMemory.{MvMemory}
use pevm.Storage.{EvmAccount}
use pevm.VmDb.{VmDb, ReadError, VmExecutionError, blocked_by, execution_error, from_read_error}
use pevm.VmDb.Basic.{u256_max}

-- What is read of revm's `Account`; the slots are the new values.
pub record Account (Bytecode : Type 0) : Type 0 where
  pub balance : U256
  pub nonce : ℕ
  pub code_hash : B256
  pub code : Option Bytecode
  pub is_empty_code_hash : Bool  -- `info.is_empty_code_hash()`
  pub is_empty : Bool
  pub is_touched : Bool
  pub is_selfdestructed : Bool
  pub slots : List (U256 × U256)  -- the field `storage`
  pub changed_storage_slots : List (U256 × U256)

-- `Account` into `EvmAccount`; `none` is `unwrap` of a code that is not there.
module _ {Bytecode Code : Type 0} (into_code : Bytecode → Code) where
  abbrev pub with_code : Account Bytecode → Option Bytecode → Option (EvmAccount Code)
  with_code account none = none
  with_code account (some code) = some (record {
    balance = account.balance;
    nonce = account.nonce;
    code_hash = some account.code_hash;
    code = some (into_code code);
    slots = account.slots;
  })

  unfoldable pub from_account : Account Bytecode → Option (EvmAccount Code)
  from_account account =
      if account.is_empty_code_hash
      then some (record {
        balance = account.balance;
        nonce = account.nonce;
        code_hash = none;
        code = none;
        slots = account.slots;
      })
      else with_code account account.code

  -- What a touched account becomes: `none` of the inner option is a cleared account.
  unfoldable pub transition : Bool → Account Bytecode → Option (Option (EvmAccount Code))
  unfolding from_account
  transition is_eip_161_enabled account =
      if account.is_selfdestructed || (account.is_empty && is_eip_161_enabled)
      then some none
      else Option.map some (from_account account)

  abbrev pub cons_transition :
      Address
      → Option (Option (EvmAccount Code))
      → Option (List (Address × Option (EvmAccount Code)))
      → Option (List (Address × Option (EvmAccount Code)))
  cons_transition a (some t) (some ts) = some ((a, t) ∷ ts)
  cons_transition a _ _ = none

  -- `state_transitions_from_revm`, collected.
  unfoldable pub state_transitions :
      Bool → List (Address × Account Bytecode) → Option (List (Address × Option (EvmAccount Code)))
  unfolding transition
  state_transitions is_eip_161_enabled [] = some []
  state_transitions is_eip_161_enabled ((a, account) ∷ state) =
      let rest = state_transitions is_eip_161_enabled state in
      if account.is_touched
      then cons_transition a (transition is_eip_161_enabled account) rest
      else rest

-- revm's result of a run, as far as a receipt needs it.
pub record ExecutionResult (Log : Type 0) : Type 0 where
  pub is_success : Bool
  pub tx_gas_used : ℕ
  pub logs : List Log

pub record Receipt (Log : Type 0) : Type 0 where
  pub status : Bool
  pub cumulative_gas_used : ℕ
  pub logs : List Log

unfoldable pub receipt_from_revm : {Log : Type 0} → ExecutionResult Log → Receipt Log
receipt_from_revm result = record {
  status = result.is_success;
  cumulative_gas_used = result.tx_gas_used;
  logs = result.logs;
}

-- What the write set depends on besides the state: of the `Vm`, its database and the transaction.
pub record Env : Type 0 where
  pub is_eip_161_enabled : Bool
  pub is_lazy : Bool
  pub from_hash : MemoryLocationHash
  pub to_hash : Option MemoryLocationHash
  pub value : U256
  pub read_accounts : MemoryLocationHash → Option (AccountBasic × Option B256)

abbrev pub has_no_code : Option (AccountBasic × Option B256) → Bool
has_no_code none = true
has_no_code (some (b, none)) = true
has_no_code (some (b, some h)) = false

abbrev pub is_new_code :
    {Bytecode : Type 0} → Option (AccountBasic × Option B256) → Account Bytecode → Bool
is_new_code read account = not account.is_empty_code_hash && has_no_code read

abbrev pub differs :
    {Bytecode : Type 0} → Option (AccountBasic × Option B256) → Account Bytecode → Bool
differs none account = true
differs (some (b, h)) account = not (b.nonce == account.nonce) || not (b.balance == account.balance)

abbrev pub is_location : MemoryLocationHash → Option MemoryLocationHash → Bool
is_location l none = false
is_location l (some k) = l == k

abbrev pub slot_writes :
    (MemoryLocation → MemoryLocationHash) → Address → List (U256 × U256) → WriteSet
slot_writes hash a [] = []
slot_writes hash a ((slot, value) ∷ slots) =
    (hash (storage_location a slot), storage value) ∷ slot_writes hash a slots

abbrev pub and_then {ℓ κ} : {A : Type ℓ} {B : Type κ} → Option A → (A → Option B) → Option B
and_then none f = none
and_then (some a) f = f a

module _ {Bytecode : Type 0} (hash : MemoryLocation → MemoryLocationHash) (env : Env) where
  abbrev pub lazy_write : MemoryLocationHash → Account Bytecode → WriteSet
  lazy_write l account =
      if l == env.from_hash
      then (l, lazy_sender (u256_max - account.balance)) ∷ []
      else if is_location l env.to_hash
      then (l, lazy_recipient env.value) ∷ []
      else []

  abbrev pub basic_write : MemoryLocationHash → Account Bytecode → WriteSet
  basic_write l account =
      if env.is_lazy
      then lazy_write l account
      else if not env.is_eip_161_enabled || not account.is_empty
      then (l, basic (record { balance = account.balance; nonce = account.nonce })) ∷ []
      else []

  abbrev pub info_writes :
      MemoryLocationHash → Option (AccountBasic × Option B256) → Account Bytecode → WriteSet
  info_writes l read account =
      if is_new_code read account || differs read account then basic_write l account else []

  abbrev pub code_writes :
      Address → Option (AccountBasic × Option B256) → Account Bytecode → WriteSet
  code_writes a read account =
      if is_new_code read account
      then (hash (code_hash_location a), MemoryValue.code_hash account.code_hash) ∷ []
      else []

  abbrev pub touched_writes : Address → Account Bytecode → WriteSet
  touched_writes a account =
      let l = hash (basic_location a) in
      let read = env.read_accounts l in
      if account.is_touched then info_writes l read account ++ code_writes a read account else []

  -- The body of the loop over the final state.
  abbrev pub account_writes : Address → Account Bytecode → WriteSet
  account_writes a account =
      if account.is_selfdestructed
      then (hash (code_hash_location a), self_destructed) ∷ []
      else touched_writes a account ++ slot_writes hash a account.changed_storage_slots

  -- The write set before the rewards.
  unfoldable pub state_writes : List (Address × Account Bytecode) → WriteSet
  state_writes [] = []
  state_writes ((a, account) ∷ state) = account_writes a account ++ state_writes state

  abbrev insert_code :
      B256 → Option Bytecode → Option Bytecode → MvMemory Bytecode → Option (MvMemory Bytecode)
  insert_code h (some there) code mem = some mem
  insert_code h none none mem = none
  insert_code h none (some code) mem =
      some (record mem { new_bytecodes = λ k. if h == k then some code else mem.new_bytecodes k })

  -- `new_bytecodes.entry(…).or_insert_with(…)`; `none` is `unwrap` of a code that is not there.
  abbrev pub register_code :
      Address → Account Bytecode → MvMemory Bytecode → Option (MvMemory Bytecode)
  register_code a account mem =
      if not account.is_selfdestructed
        && account.is_touched
        && is_new_code (env.read_accounts (hash (basic_location a))) account
      then insert_code account.code_hash (mem.new_bytecodes account.code_hash) account.code mem
      else some mem

  unfoldable pub register_codes :
      List (Address × Account Bytecode) → MvMemory Bytecode → Option (MvMemory Bytecode)
  register_codes [] mem = some mem
  register_codes ((a, account) ∷ state) mem =
      and_then (register_code a account mem) (register_codes state)

-- revm's error of a run: of the database, or of its own kind.
pub data EvmError : Type 0 where
  database : ReadError → EvmError
  lack_of_fund_for_max_fee : EvmError
  nonce_too_high : EvmError
  other : EvmError

-- How `execute` answers an error: `failed` is `ExecutionError` of an error of revm.
pub data Failure : Type 0 where
  vm_error : VmExecutionError → Failure
  failed : EvmError → Failure

abbrev pub is_retried : EvmError → Bool
is_retried lack_of_fund_for_max_fee = true
is_retried nonce_too_high = true
is_retried _ = false

unfoldable pub failure_of : TxIdx → EvmError → Failure
failure_of i (database e) = vm_error (from_read_error e)
failure_of i e = if ltb 0 i && is_retried e then vm_error (blocked_by (i - 1)) else failed e
