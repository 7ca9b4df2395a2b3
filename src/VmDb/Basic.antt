-- ===== src/VmDb/Basic.antt =====
-- `Database::basic` of `VmDb` in crates/pevm/src/vm.rs: an account's balance and nonce, with the
-- lazy updates of lower transactions Yields.
pub mod Blocking
use Prim.Native.String.{String}
use mathlib.Core.Option
use pevm.Base.{
  ℕ, zero, suc, ◌+◌, ◌-◌, ◌^◌, ◌%◌, min, Bool, true, false, ◌&&◌, ◌||◌, not, Option, none, some,
  List, [], ◌∷◌, ◌++◌, ltb, leb, ◌==◌, if◌then◌else◌, update, length,
}
use pevm.Types.{
  TxIdx, TxVersion, Address, U256, B256, MemoryLocationHash, MemoryLocation, AccountBasic,
  MemoryValue, basic, lazy_recipient, lazy_sender, MemoryEntry, data_entry, estimate, ReadOrigin,
  from_storage, ReadOrigins,
}
use pevm.MvMemory.{MvMemory, Written, Entries, range_back}
use pevm.Storage.{Storage, Fetched, ok, failed, AccountInfo, unwrap_hash}
use pevm.VmDb.{
  VmDb, ReadError, blocking, inconsistent_read, invalid_nonce, invalid_memory_value_type,
  storage_error, Read, got, refused, from_fetched, origin_eq, last_origin, origins_at, set_origins,
  touch, version_of, get_code_hash, hash_basic,
}

abbrev pub u256_max : ℕ
u256_max = 2 ^ 256 - 1

abbrev pub saturating_add : U256 → U256 → U256
saturating_add a b = min (a + b) u256_max

abbrev pub abs_diff : U256 → U256 → U256
abs_diff a b = if leb b a then a - b else b - a

-- The variables of the loop over the lower writes.
pub record Lazy : Type 0 where
  pub new_origins : ReadOrigins
  pub balance_addition : U256
  pub positive_addition : Bool
  pub nonce_addition : ℕ

abbrev pub start_lazy : Lazy
start_lazy = record {
  new_origins = [];
  balance_addition = 0;
  positive_addition = true;
  nonce_addition = 0;
}

abbrev pub add_recipient : U256 → Lazy → Lazy
add_recipient addition z =
    if z.positive_addition
    then record z { balance_addition = saturating_add z.balance_addition addition }
    else record z {
      positive_addition = leb z.balance_addition addition;
      balance_addition = abs_diff z.balance_addition addition;
    }

abbrev pub add_sender : U256 → Lazy → Lazy
add_sender subtraction z =
    if z.positive_addition
    then record z {
      positive_addition = leb subtraction z.balance_addition;
      balance_addition = abs_diff z.balance_addition subtraction;
      nonce_addition = z.nonce_addition + 1;
    }
    else record z {
      balance_addition = saturating_add z.balance_addition subtraction;
      nonce_addition = z.nonce_addition + 1;
    }

abbrev nth : ReadOrigins → ℕ → Option ReadOrigin
nth [] i = none
nth (o ∷ os) zero = some o
nth (o ∷ os) (suc i) = nth os i

abbrev is_at : Option ReadOrigin → ReadOrigin → Bool
is_at none o = false
is_at (some p) o = origin_eq p o

abbrev pub has_origins : ReadOrigins → Bool
has_origins [] = false
has_origins (o ∷ os) = true

-- Neither longer than the previous origins nor different from them, on a second read.
abbrev pub is_consistent : ReadOrigins → Lazy → ReadOrigin → Bool
is_consistent prev z o = not (has_origins prev) || is_at (nth prev (length z.new_origins)) o

abbrev pub push_new : ReadOrigin → Lazy → Lazy
push_new o z = record z { new_origins = z.new_origins ++ o ∷ [] }

-- How the loop ends: by an error, at an absolute value, or past the lowest write.
pub data Evaluated : Type 0 where
  stuck : ReadError → Evaluated
  absolute : AccountBasic → Lazy → Evaluated
  relative : Lazy → Evaluated

-- The loop, over the lower entries from the highest down.
unfoldable pub evaluate : ReadOrigins → Lazy → List (TxIdx × MemoryEntry) → Evaluated
evaluate prev z [] = relative z
evaluate prev z ((i, estimate) ∷ es) = stuck (blocking i)
evaluate prev z ((i, data_entry k value) ∷ es) =
    let z' = push_new (version_of i k) z in
    elim (is_consistent prev z (version_of i k)) [
      | false ↦ stuck inconsistent_read
      | true ↦ elim value [
        | basic account ↦ absolute account z'
        | lazy_recipient addition ↦ evaluate prev (add_recipient addition z') es
        | lazy_sender subtraction ↦ evaluate prev (add_sender subtraction z') es
        | _ ↦ stuck invalid_memory_value_type
      ]
    ]

-- The last origins of a read that falls back to the storage; `none` is `InconsistentRead`.
abbrev pub storage_origins : ReadOrigins → Lazy → Option ReadOrigins
storage_origins prev z =
    if not (has_origins prev)
    then some (z.new_origins ++ from_storage ∷ [])
    else if (length prev == length z.new_origins + 1) && is_at (last_origin prev) from_storage
    then some z.new_origins
    else none

abbrev default_account : AccountBasic
default_account = record { balance = 0; nonce = 0 }

abbrev or_default_if : Bool → Option AccountBasic → Option AccountBasic
or_default_if positive (some account) = some account
or_default_if positive none = if positive then some default_account else none

-- `account` with the lazy updates: the nonce is a `u64`, the balance saturates.
abbrev pub apply_lazy : Lazy → AccountBasic → AccountBasic
apply_lazy z account = record {
  balance =
      if z.positive_addition
      then saturating_add account.balance z.balance_addition
      else account.balance - z.balance_addition;
  nonce = (account.nonce + z.nonce_addition) % 2 ^ 64;
}

abbrev map_read : {A B : Type 0} → (A → B) → Read A → Read B
map_read f (got a) = got (f a)
map_read f (refused e) = refused e

module _ {Code Bytecode : Type 0} (hash : MemoryLocation → MemoryLocationHash) (keccak_empty : B256)
    (from_code : Code → Bytecode) where
  abbrev Answer : Type 0
  Answer = Read (Option (AccountInfo Bytecode)) × VmDb Code Bytecode

  abbrev or_stored : VmDb Code Bytecode → B256 → Option Bytecode → Read (Option Bytecode)
  or_stored db h (some code) = got (some code)
  or_stored db h none = map_read (Option.map from_code) (from_fetched (db.storage.code_by_hash h))

  abbrev code_at : VmDb Code Bytecode → Option B256 → Read (Option Bytecode)
  code_at db none = got none
  code_at db (some h) = or_stored db h (db.mv_memory.new_bytecodes h)

  abbrev registered :
      MemoryLocationHash
      → AccountBasic
      → Option B256
      → Read (Option Bytecode)
      → VmDb Code Bytecode
      → Answer
  registered l account code_hash (refused e) db = (refused e, db)
  registered l account code_hash (got code) db = (
    got (
        some (record {
          balance = account.balance;
          nonce = account.nonce;
          code_hash = unwrap_hash keccak_empty code_hash;
          code = code;
        })),
    record db { read_accounts = update db.read_accounts l (some (account, code_hash)) },
  )

  abbrev with_code :
      MemoryLocationHash → AccountBasic → Read (Option B256) × VmDb Code Bytecode → Answer
  with_code l account (refused e, db) = (refused e, db)
  with_code l account (got code_hash, db) = registered l account code_hash (code_at db code_hash) db

  abbrev is_to : MemoryLocationHash → Option MemoryLocationHash → Bool
  is_to l none = false
  is_to l (some t) = l == t

  -- The nonce of the sender is checked before the balance is Yields.
  abbrev checked : Address → MemoryLocationHash → AccountBasic → VmDb Code Bytecode → Answer
  checked a l account db =
      if db.has_nonce && (l == db.from_hash) && not (db.tx.nonce == account.nonce)
      then (
        refused (if ltb 0 db.tx_idx then blocking (db.tx_idx - 1) else invalid_nonce db.tx_idx),
        db,
      )
      else with_code l account
          (if is_to l db.to_hash then (got db.to_code_hash, db) else get_code_hash hash a db)

  abbrev finished :
      Address → MemoryLocationHash → Lazy → Option AccountBasic → VmDb Code Bytecode → Answer
  finished a l z none db = (got none, db)
  finished a l z (some account) db = checked a l (apply_lazy z account) db

  -- The origins are kept on the first read; a later one has found the same.
  abbrev keep_origins : MemoryLocationHash → ReadOrigins → VmDb Code Bytecode → VmDb Code Bytecode
  keep_origins l os db =
      if has_origins (origins_at db.read_set l)
      then db
      else record db { read_set = set_origins db.read_set l os }

  abbrev stored :
      Address
      → MemoryLocationHash
      → Lazy
      → ReadOrigins
      → Fetched (Option AccountBasic)
      → VmDb Code Bytecode
      → Answer
  stored a l z os (failed e) db = (refused (storage_error e), db)
  stored a l z os (ok account) db =
      finished a l z (or_default_if (ltb 0 z.balance_addition) account) (keep_origins l os db)

  abbrev from_storage_with :
      Address → MemoryLocationHash → Lazy → Option ReadOrigins → VmDb Code Bytecode → Answer
  from_storage_with a l z none db = (refused inconsistent_read, db)
  from_storage_with a l z (some os) db = stored a l z os (db.storage.basic a) db

  abbrev answer : Address → MemoryLocationHash → Evaluated → VmDb Code Bytecode → Answer
  answer a l (stuck e) db = (refused e, db)
  answer a l (absolute account z) db =
      finished a l z (some account) (keep_origins l z.new_origins db)
  answer a l (relative z) db =
      from_storage_with a l z (storage_origins (origins_at db.read_set l) z) db

  abbrev entries_below : VmDb Code Bytecode → MemoryLocationHash → List (TxIdx × MemoryEntry)
  entries_below db l = elim (db.mv_memory.entries l) [ none ↦ [] | some m ↦ range_back db.tx_idx m ]

  -- The mock of a lazily updated sender.
  abbrev mock_sender : VmDb Code Bytecode → AccountInfo Bytecode
  mock_sender db = record {
    balance = u256_max;
    nonce = db.tx.nonce;
    code_hash = keccak_empty;
    code = none;
  }

  abbrev read_location : Address → MemoryLocationHash → VmDb Code Bytecode → Answer
  read_location a l db =
      answer a l (evaluate (origins_at db.read_set l) start_lazy (entries_below db l)) (touch l db)

  abbrev at_location : Address → MemoryLocationHash → VmDb Code Bytecode → Answer
  at_location a l db =
      if db.is_lazy && (l == db.from_hash)
      then (got (some (mock_sender db)), db)
      else if db.is_lazy && is_to l db.to_hash
      then (got none, db)
      else read_location a l db

  -- `Database::basic`; the outer `none` is the panic of `hash_basic`.
  pub read_basic : Address → VmDb Code Bytecode → Option Answer
  unfolding evaluate set_origins hash_basic get_code_hash
  read_basic a db = Option.map (λ l. at_location a l db) (hash_basic hash a db)
