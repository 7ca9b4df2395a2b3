-- ===== src/Types.antt =====
-- The data of crates/pevm/src/lib.rs: statuses, versions, tasks, memory values and origins.
-- Indices and incarnations are `usize`; hashes are `u64`; balances are `U256`; all are numbers here.
use pevm.Base.{ℕ, List, Bool, true, false, ◌+◌, ◌%◌, ◌^◌}

abbrev pub TxIdx : Type 0
TxIdx = ℕ

abbrev pub TxIncarnation : Type 0
TxIncarnation = ℕ

pub data IncarnationStatus : Type 0 where
  ready_to_execute executing executed validated aborting : IncarnationStatus

pub record TxStatus : Type 0 where
  pub incarnation : TxIncarnation
  pub status : IncarnationStatus

pub record TxVersion : Type 0 where
  pub tx_idx : TxIdx
  pub tx_incarnation : TxIncarnation

pub data Task : Type 0 where
  execution : TxVersion → Task
  validation : TxVersion → Task

-- The two bits of `FinishExecFlags`.
pub record FinishExecFlags : Type 0 where
  pub need_validation : Bool
  pub wrote_new_location : Bool

-- `tx.status == IncarnationStatus::ReadyToExecute`
abbrev pub is_ready_to_execute : IncarnationStatus → Bool
is_ready_to_execute IncarnationStatus.ready_to_execute = true
is_ready_to_execute _ = false

-- `matches!(tx.status, Executed | Validated)`
abbrev pub is_executed_or_validated : IncarnationStatus → Bool
is_executed_or_validated IncarnationStatus.executed = true
is_executed_or_validated IncarnationStatus.validated = true
is_executed_or_validated _ = false

abbrev pub is_executing : IncarnationStatus → Bool
is_executing IncarnationStatus.executing = true
is_executing _ = false

abbrev pub is_executed : IncarnationStatus → Bool
is_executed IncarnationStatus.executed = true
is_executed _ = false

abbrev pub is_validated : IncarnationStatus → Bool
is_validated IncarnationStatus.validated = true
is_validated _ = false

abbrev pub is_aborting : IncarnationStatus → Bool
is_aborting IncarnationStatus.aborting = true
is_aborting _ = false

-- One more and one less, on a `usize`: both wrap around.
abbrev pub usize_mod : ℕ
usize_mod = 2 ^ 64

abbrev pub wrapping_inc : ℕ → ℕ
wrapping_inc n = (n + 1) % usize_mod

-- Addresses, 256-bit words and hashes are numbers.
abbrev pub Address : Type 0
Address = ℕ

abbrev pub U256 : Type 0
U256 = ℕ

abbrev pub B256 : Type 0
B256 = ℕ

abbrev pub MemoryLocationHash : Type 0
MemoryLocationHash = ℕ

pub data MemoryLocation : Type 0 where
  basic_location : Address → MemoryLocation
  code_hash_location : Address → MemoryLocation
  storage_location : Address → U256 → MemoryLocation

pub record AccountBasic : Type 0 where
  pub balance : U256
  pub nonce : ℕ

pub data MemoryValue : Type 0 where
  basic : AccountBasic → MemoryValue
  code_hash : B256 → MemoryValue
  storage : U256 → MemoryValue
  lazy_recipient : U256 → MemoryValue
  lazy_sender : U256 → MemoryValue
  self_destructed : MemoryValue

-- `MemoryEntry::Data` and `MemoryEntry::Estimate`.
pub data MemoryEntry : Type 0 where
  data_entry : TxIncarnation → MemoryValue → MemoryEntry
  estimate : MemoryEntry

-- `ReadOrigin::MvMemory` and `ReadOrigin::Storage`.
pub data ReadOrigin : Type 0 where
  from_mv_memory : TxVersion → ReadOrigin
  from_storage : ReadOrigin

abbrev pub ReadOrigins : Type 0
ReadOrigins = List ReadOrigin

abbrev pub ReadSet : Type 0
ReadSet = List (MemoryLocationHash × ReadOrigins)

abbrev pub WriteSet : Type 0
WriteSet = List (MemoryLocationHash × MemoryValue)
