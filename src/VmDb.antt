-- ===== src/VmDb.antt =====
-- `VmDb` of crates/pevm/src/vm.rs: the reads of one executing transaction, from the multi-version
-- memory or else from the storage, with the origins of what was read.
-- The location hash is rustc_hash's, codes are revm's: they are parameters.
pub mod Slots
pub mod SlotReads
pub mod Undisturbed
pub mod Programs
pub mod Agreeing
pub mod Reexecution
pub mod Serial
pub mod Basic
pub mod Lazy
mod Tests
use Prim.Native.String.{String}
use mathlib.Core.Option
use pevm.Base.{
  ℕ, zero, suc, ◌+◌, ◌-◌, ◌^◌, ◌%◌, min, Bool, true, false, ◌&&◌, ◌||◌, not, Option, none, some,
  List, [], ◌∷◌, ◌++◌, ltb, leb, ◌==◌, if◌then◌else◌, update, length,
}
use pevm.Types.{
  TxIdx, TxVersion, Address, U256, B256, MemoryLocationHash, MemoryLocation, basic_location,
  code_hash_location, storage_location, AccountBasic, MemoryValue, MemoryEntry, data_entry,
  estimate, ReadOrigin, from_mv_memory, from_storage, ReadOrigins, ReadSet,
}
use pevm.MvMemory.{MvMemory, Written, Entries, range_back}
use pevm.Storage.{Storage, Fetched, ok, failed, AccountInfo, lookup, unwrap_hash}

pub data ReadError : Type 0 where
  storage_error : String → ReadError
  blocking : TxIdx → ReadError
  inconsistent_read : ReadError
  invalid_nonce : TxIdx → ReadError
  self_destructed_account : ReadError
  invalid_memory_value_type : ReadError

pub data VmExecutionError : Type 0 where
  retry : VmExecutionError
  fallback_to_sequential : VmExecutionError
  blocked_by : TxIdx → VmExecutionError
  execution_error : ReadError → VmExecutionError

-- `impl From<ReadError> for VmExecutionError`
unfoldable pub from_read_error : ReadError → VmExecutionError
from_read_error inconsistent_read = retry
from_read_error self_destructed_account = fallback_to_sequential
from_read_error (blocking i) = blocked_by i
from_read_error err = execution_error err

-- What the reads use of revm's `TxEnv`; `to` is the target of a call.
pub record TxEnv : Type 0 where
  pub caller : Address
  pub to : Option Address
  pub nonce : ℕ
  pub value : U256

-- `mv_memory` is a reference to the memory that all threads share: the field is what it is at the
-- moment of a call, and between calls it changes (VmDb.Programs.move_to).
pub record VmDb (Code Bytecode : Type 0) : Type 0 where
  pub storage : Storage Code
  pub mv_memory : MvMemory Bytecode
  pub tx_idx : TxIdx
  pub tx : TxEnv
  pub from_hash : MemoryLocationHash
  pub to_hash : Option MemoryLocationHash
  pub to_code_hash : Option B256
  pub is_lazy : Bool
  pub has_nonce : Bool
  pub read_set : ReadSet
  pub read_accounts : MemoryLocationHash → Option (AccountBasic × Option B256)

pub data Read {ℓ} (A : Type ℓ) : Type ℓ where
  got : A → Read A
  refused : ReadError → Read A

abbrev pub from_fetched {ℓ} : {A : Type ℓ} → Fetched A → Read A
from_fetched (ok a) = got a
from_fetched (failed e) = refused (storage_error e)

abbrev pub origin_eq : ReadOrigin → ReadOrigin → Bool
origin_eq from_storage from_storage = true
origin_eq (from_mv_memory v) (from_mv_memory w) =
    (v.tx_idx == w.tx_idx) && (v.tx_incarnation == w.tx_incarnation)
origin_eq _ _ = false

abbrev pub last_origin : ReadOrigins → Option ReadOrigin
last_origin [] = none
last_origin (o ∷ []) = some o
last_origin (o ∷ p ∷ os) = last_origin (p ∷ os)

abbrev pub version_of : TxIdx → ℕ → ReadOrigin
version_of i k = from_mv_memory (record { tx_idx = i; tx_incarnation = k })

-- `none` is `InconsistentRead`.
abbrev pub push_onto : ReadOrigins → ReadOrigin → Option ReadOrigin → Option ReadOrigins
push_onto os o none = some (os ++ o ∷ [])
push_onto os o (some prev) = if origin_eq prev o then some os else none

pub push_origin : ReadOrigins → ReadOrigin → Option ReadOrigins
push_origin os o = push_onto os o (last_origin os)

abbrev pub or_empty : Option ReadOrigins → ReadOrigins
or_empty none = []
or_empty (some os) = os

abbrev pub origins_at : ReadSet → MemoryLocationHash → ReadOrigins
origins_at rs l = or_empty (lookup rs l)

pub set_origins : ReadSet → MemoryLocationHash → ReadOrigins → ReadSet
set_origins [] l os = (l, os) ∷ []
set_origins ((k, ps) ∷ rs) l os = if k == l then (k, os) ∷ rs else (k, ps) ∷ set_origins rs l os

abbrev pub head_of : List (TxIdx × MemoryEntry) → Option (TxIdx × MemoryEntry)
head_of [] = none
head_of (e ∷ es) = some e

abbrev pub closest_of : TxIdx → Option Written → Option (TxIdx × MemoryEntry)
closest_of n none = none
closest_of n (some m) = head_of (range_back n m)

-- `data.get(&location)`, then `range(..tx_idx).next_back()`.
abbrev pub closest : TxIdx → Entries → MemoryLocationHash → Option (TxIdx × MemoryEntry)
closest n d l = closest_of n (d l)

module _ {Code Bytecode : Type 0} where
  -- `read_set.entry(location).or_default()`
  abbrev pub touch : MemoryLocationHash → VmDb Code Bytecode → VmDb Code Bytecode
  touch l db = record db { read_set = set_origins db.read_set l (origins_at db.read_set l) }

  abbrev pub after_push {ℓ} :
      {A : Type ℓ}
      → MemoryLocationHash
      → VmDb Code Bytecode
      → Read A
      → Option ReadOrigins
      → Read A × VmDb Code Bytecode
  after_push l db r none = (refused inconsistent_read, db)
  after_push l db r (some os) = (r, record db { read_set = set_origins db.read_set l os })

  -- Push an origin; only a consistent one leads to the answer `r`.
  abbrev pub push_then {ℓ} :
      {A : Type ℓ}
      → MemoryLocationHash
      → ReadOrigin
      → Read A
      → VmDb Code Bytecode
      → Read A × VmDb Code Bytecode
  push_then l o r db = after_push l db r (push_origin (origins_at db.read_set l) o)

module _ {Code Bytecode : Type 0} where
  -- `VmDb::get_code_hash`, behind the lookup of the closest lower entry.
  abbrev code_hash_from :
      MemoryLocationHash
      → Address
      → VmDb Code Bytecode
      → Option (TxIdx × MemoryEntry)
      → Read (Option B256) × VmDb Code Bytecode
  code_hash_from l a db (some (i, data_entry k MemoryValue.self_destructed)) =
      (refused self_destructed_account, db)
  code_hash_from l a db (some (i, data_entry k (MemoryValue.code_hash h))) =
      push_then l (version_of i k) (got (some h)) db
  code_hash_from l a db _ = push_then l from_storage (from_fetched (db.storage.code_hash a)) db

  -- `Database::storage`, behind the lookup of the closest lower entry.
  abbrev pub slot_from :
      MemoryLocationHash
      → Address
      → U256
      → VmDb Code Bytecode
      → Option (TxIdx × MemoryEntry)
      → Read U256 × VmDb Code Bytecode
  slot_from l a index db none =
      push_then l from_storage (from_fetched (db.storage.storage a index)) db
  slot_from l a index db (some (i, data_entry k (MemoryValue.storage v))) =
      push_then l (version_of i k) (got v) db
  slot_from l a index db (some (i, estimate)) = (refused (blocking i), db)
  slot_from l a index db (some (i, data_entry k _)) = (refused invalid_memory_value_type, db)

abbrev called_without_code : Option B256 → Bool
called_without_code none = true
called_without_code (some h) = false

abbrev is_target : Address → Option Address → Bool
is_target a none = false
is_target a (some to) = to == a

module _ {Code Bytecode : Type 0} (hash : MemoryLocation → MemoryLocationHash) where
  pub get_code_hash : Address → VmDb Code Bytecode → Read (Option B256) × VmDb Code Bytecode
  unfolding push_origin set_origins
  get_code_hash a db =
      let l = hash (code_hash_location a) in
      code_hash_from l a (touch l db) (closest db.tx_idx db.mv_memory.entries l)

  pub read_storage : Address → U256 → VmDb Code Bytecode → Read U256 × VmDb Code Bytecode
  unfolding push_origin set_origins
  read_storage a index db =
      let l = hash (storage_location a index) in
      slot_from l a index (touch l db)
        (if ltb 0 db.tx_idx then closest db.tx_idx db.mv_memory.entries l else none)

  -- `Database::code_by_hash`, with revm's `Bytecode::from` and default code.
  pub read_code_by_hash :
      (Code → Bytecode) → Bytecode → B256 → VmDb Code Bytecode → Read Bytecode × VmDb Code Bytecode
  read_code_by_hash from_code default_code h db = (
    elim (db.storage.code_by_hash h) [
      | ok none ↦ got default_code
      | ok (some code) ↦ got (from_code code)
      | failed e ↦ refused (storage_error e)
    ],
    db,
  )

  pub read_block_hash : ℕ → VmDb Code Bytecode → Read B256 × VmDb Code Bytecode
  read_block_hash number db = (from_fetched (db.storage.block_hash number), db)

  -- `none` is a call whose `to_hash` is not set: `unwrap` panics.
  pub hash_basic : Address → VmDb Code Bytecode → Option MemoryLocationHash
  hash_basic a db =
      if a == db.tx.caller
      then some db.from_hash
      else if is_target a db.tx.to
      then db.to_hash
      else some (hash (basic_location a))

  abbrev has_entries : VmDb Code Bytecode → MemoryLocationHash → Bool
  has_entries db l = elim (db.mv_memory.entries l) [ none ↦ false | some m ↦ true ]

  abbrev set_target :
      Option MemoryLocationHash
      → Read (Option B256) × VmDb Code Bytecode
      → Option (Read (Unit {0}) × VmDb Code Bytecode)
  set_target t (refused e, db) = some (refused e, db)
  set_target none (got c, db) =
      if called_without_code c && not (has_entries db db.from_hash)
      then none
      else some (got tt, record db { to_code_hash = c; is_lazy = called_without_code c })
  set_target (some t) (got c, db) = some (
    got tt,
    record db {
      to_code_hash = c;
      is_lazy = called_without_code c && (has_entries db db.from_hash || has_entries db t);
    },
  )

  -- The fields that are reset for a transaction.
  abbrev reset :
      TxIdx
      → TxEnv
      → MemoryLocationHash
      → Option MemoryLocationHash
      → Bool
      → VmDb Code Bytecode
      → VmDb Code Bytecode
  reset tx_idx tx from_hash to_hash has_nonce db = record db {
    tx_idx = tx_idx;
    tx = tx;
    from_hash = from_hash;
    to_hash = to_hash;
    to_code_hash = none;
    is_lazy = false;
    has_nonce = has_nonce;
    read_set = [];
    read_accounts = λ _. none;
  }

  abbrev call_target :
      Option Address
      → Option MemoryLocationHash
      → VmDb Code Bytecode
      → Option (Read (Unit {0}) × VmDb Code Bytecode)
  call_target none t db = some (got tt, db)
  call_target (some to) t db = set_target t (get_code_hash to db)

  -- `VmDb::set_tx`; the outer `none` is `to_hash.unwrap()` of nothing.
  pub set_tx :
      TxIdx
      → TxEnv
      → MemoryLocationHash
      → Option MemoryLocationHash
      → Bool
      → VmDb Code Bytecode
      → Option (Read (Unit {0}) × VmDb Code Bytecode)
  unfolding get_code_hash
  set_tx tx_idx tx from_hash to_hash has_nonce db =
      call_target tx.to to_hash (reset tx_idx tx from_hash to_hash has_nonce db)
