-- ===== src/Rewards.antt =====
-- The rewards of a transaction: `get_rewards` of crates/pevm/src/chain/ethereum.rs and
-- chain/rise.rs, and their merge into the write set in `Vm::execute` of crates/pevm/src/vm.rs.
pub mod Credit
pub mod Estimated
pub mod Conclude
mod Tests
use mathlib.Core.Option
use pevm.Base.{
  ℕ, zero, suc, ◌+◌, ◌-◌, ◌*◌, ◌^◌, min, Bool, true, false, ◌&&◌, not, Option, none, some, List, [],
  ◌∷◌, ◌++◌, length, ◌==◌, if◌then◌else◌,
}
use pevm.Types.{
  TxIdx, TxVersion, Address, U256, AccountBasic, MemoryLocationHash, MemoryValue, basic, code_hash,
  storage, lazy_recipient, lazy_sender, self_destructed, WriteSet, ReadSet, FinishExecFlags,
}
use pevm.MvMemory.{MvMemory, new, record_sets, add_lazy_addresses}
use pevm.VmDb.{VmExecutionError, from_read_error, invalid_memory_value_type}
use pevm.VmDb.Basic.{saturating_add, u256_max}

abbrev pub saturating_mul : U256 → U256 → U256
saturating_mul a b = min (a * b) u256_max

abbrev pub u128_max : ℕ
u128_max = 2 ^ 128 - 1

abbrev effective_price : ℕ → ℕ → Option ℕ → ℕ
effective_price basefee gas_price none = gas_price
effective_price basefee gas_price (some fee) = min gas_price (min (fee + basefee) u128_max)

-- The price of gas that the rewards are computed with.
pub reward_gas_price : Bool → ℕ → ℕ → Option ℕ → ℕ
reward_gas_price eip_161 basefee gas_price priority_fee =
    let price = effective_price basefee gas_price priority_fee in
    if eip_161 then price - basefee else price

abbrev pub Rewards : Type 0
Rewards = List (MemoryLocationHash × U256)

-- `PevmEthereum::get_rewards`
pub ethereum_rewards : MemoryLocationHash → U256 → U256 → Rewards
ethereum_rewards beneficiary gas_used gas_price =
    (beneficiary, saturating_mul gas_price gas_used) ∷ []

-- The locations of the fee recipients of the OP stack: constants of the chain.
pub record FeeRecipients : Type 0 where
  pub base_fee : MemoryLocationHash
  pub l1_fee : MemoryLocationHash
  pub operator_fee : MemoryLocationHash

-- `PevmRise::get_rewards`
pub rise_rewards : FeeRecipients → MemoryLocationHash → U256 → U256 → ℕ → Bool → Rewards
rise_rewards fees beneficiary gas_used gas_price basefee is_deposit =
    if is_deposit
    then []
    else (beneficiary, saturating_mul gas_price gas_used)
      ∷ (fees.base_fee, saturating_mul basefee gas_used)
      ∷ (fees.l1_fee, 0)
      ∷ (fees.operator_fee, 0)
      ∷ []

-- A reward on a value that is written already; `none` is `InvalidMemoryValueType`.
pub credit : U256 → MemoryValue → Option MemoryValue
credit amount (basic account) =
    some (basic (record account { balance = saturating_add account.balance amount }))
credit amount (lazy_sender subtraction) = some (lazy_sender (subtraction - amount))
credit amount (lazy_recipient addition) = some (lazy_recipient (saturating_add addition amount))
credit amount _ = none

abbrev cons_to : MemoryLocationHash × MemoryValue → Option WriteSet → Option WriteSet
cons_to w = Option.map (λ ws. w ∷ ws)

-- `iter_mut().find(…)`, else `push`.
pub apply_reward : MemoryLocationHash × U256 → WriteSet → Option WriteSet
unfolding credit
apply_reward (l, amount) [] = some ((l, lazy_recipient amount) ∷ [])
apply_reward (l, amount) ((k, value) ∷ ws) =
    if k == l
    then Option.map (λ v. (k, v) ∷ ws) (credit amount value)
    else cons_to (k, value) (apply_reward (l, amount) ws)

abbrev and_then {ℓ κ} : {A : Type ℓ} {B : Type κ} → Option A → (A → Option B) → Option B
and_then none f = none
and_then (some a) f = f a

pub apply_rewards : Rewards → WriteSet → Option WriteSet
unfolding apply_reward
apply_rewards [] ws = some ws
apply_rewards (r ∷ rs) ws = and_then (apply_reward r ws) (apply_rewards rs)

-- `PevmEthereum::build_mv_memory`: the beneficiary is estimated to be written by every transaction.
abbrev pub indices : ℕ → List TxIdx
indices zero = []
indices (suc n) = indices n ++ n ∷ []

pub ethereum_memory : {Bytecode : Type 0} → Address → MemoryLocationHash → ℕ → MvMemory Bytecode
ethereum_memory beneficiary location block_size =
    new block_size ((location, indices block_size) ∷ []) (beneficiary ∷ [])

abbrev pub need_validation : TxIdx → Bool → Bool
need_validation i is_lazy = not (i == 0) && not is_lazy

abbrev flags_of : TxIdx → Bool → Bool → FinishExecFlags
flags_of i is_lazy wrote_new = record {
  need_validation = need_validation i is_lazy;
  wrote_new_location = wrote_new;
}

-- The addresses that a lazy transaction adds; `none` is `unwrap` of no target.
abbrev pub register_lazy :
    {Bytecode : Type 0}
    → Bool
    → Address
    → Option Address
    → MvMemory Bytecode
    → Option (MvMemory Bytecode)
register_lazy false caller to mem = some mem
register_lazy true caller none mem = none
register_lazy true caller (some to) mem = some (add_lazy_addresses (caller ∷ to ∷ []) mem)

-- `Vm::execute` behind the rewards: lazy addresses, `record` and the flags.
pub conclude_execution :
    {Bytecode : Type 0}
    → TxVersion
    → Bool
    → Address
    → Option Address
    → ReadSet
    → WriteSet
    → MvMemory Bytecode
    → Option (FinishExecFlags × MvMemory Bytecode)
conclude_execution v is_lazy caller to read_set write_set mem =
    and_then (register_lazy is_lazy caller to mem) λ mem'.
      Option.map (λ r. (flags_of v.tx_idx is_lazy r.0, r.1)) (record_sets v read_set write_set mem')
