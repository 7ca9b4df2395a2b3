-- ===== src/Storage.antt =====
-- crates/pevm/src/storage.rs and storage/in_memory.rs: the interface to the chain's state before
-- the block, its in-memory implementation, and the wrapper that revm reads it through.
-- Codes, and the hash of a block number, belong to other libraries: they are parameters.
use Prim.Native.String.{String}
use mathlib.Core.Option
use pevm.Base.{ℕ, Bool, true, false, Option, none, some, List, [], ◌∷◌, if◌then◌else◌, ◌==◌}
use pevm.Types.{Address, U256, B256, AccountBasic}

-- The result of a read; the error is shown as a text.
pub data Fetched {ℓ} (A : Type ℓ) : Type ℓ where
  ok : A → Fetched A
  failed : String → Fetched A

infixl 5 ◌>>=◌
abbrev pub ◌>>=◌ {ℓ κ} : {A : Type ℓ} {B : Type κ} → Fetched A → (A → Fetched B) → Fetched B
ok a >>= f = f a
failed e >>= f = failed e

-- The trait `Storage`.
pub record Storage (Code : Type 0) : Type 0 where
  pub basic : Address → Fetched (Option AccountBasic)
  pub code_hash : Address → Fetched (Option B256)
  pub code_by_hash : B256 → Fetched (Option Code)
  pub has_storage : Address → Fetched Bool
  pub storage : Address → U256 → Fetched U256
  pub block_hash : ℕ → Fetched B256

pub record EvmAccount (Code : Type 0) : Type 0 where
  pub balance : U256
  pub nonce : ℕ
  pub code_hash : Option B256
  pub code : Option Code
  pub slots : List (U256 × U256)  -- the field `storage`

-- `HashMap::get`, over an association list.
module _ {ℓ} {V : Type ℓ} where
  abbrev pub lookup : List (ℕ × V) → ℕ → Option V
  lookup [] k = none
  lookup ((j, v) ∷ m) k = if j == k then some v else lookup m k

pub record InMemoryStorage (Code : Type 0) : Type 0 where
  pub accounts : List (Address × EvmAccount Code)
  pub bytecodes : List (B256 × Code)
  pub block_hashes : List (ℕ × B256)

-- `unwrap_or_default` of a word, and `Option::and_then`.
abbrev or_zero : Option U256 → U256
or_zero none = 0
or_zero (some v) = v

abbrev and_then {ℓ κ} : {A : Type ℓ} {B : Type κ} → Option A → (A → Option B) → Option B
and_then none f = none
and_then (some a) f = f a

abbrev has_slots : {Code : Type 0} → Option (EvmAccount Code) → Bool
has_slots none = false
has_slots (some a) = elim a.slots [ [] ↦ false | _ ∷ _ ↦ true ]

abbrev hash_or : (ℕ → B256) → ℕ → Option B256 → B256
hash_or hash_number n none = hash_number n
hash_or hash_number n (some h) = h

module _ {Code : Type 0} (hash_number : ℕ → B256) where
  -- `impl Storage for InMemoryStorage`. `hash_number` is `keccak256` of the number's digits.
  pub in_memory : InMemoryStorage Code → Storage Code
  in_memory m = record {
    basic = λ address. ok (
        Option.map (λ a. record { balance = a.balance; nonce = a.nonce })
          (lookup m.accounts address));
    code_hash = λ address. ok (and_then (lookup m.accounts address) (λ a. a.code_hash));
    code_by_hash = λ hash. ok (lookup m.bytecodes hash);
    has_storage = λ address. ok (has_slots (lookup m.accounts address));
    storage = λ address index.
        ok (or_zero (and_then (lookup m.accounts address) (λ a. lookup a.slots index)));
    block_hash = λ number. ok (hash_or hash_number number (lookup m.block_hashes number));
  }

-- revm's `AccountInfo`.
pub record AccountInfo (Bytecode : Type 0) : Type 0 where
  pub balance : U256
  pub nonce : ℕ
  pub code_hash : B256
  pub code : Option Bytecode

abbrev pub unwrap_hash : B256 → Option B256 → B256
unwrap_hash keccak_empty none = keccak_empty
unwrap_hash keccak_empty (some h) = h

-- `impl DatabaseRef for StorageWrapper`. `keccak_empty`, `from_code` (`Bytecode::from`) and the
-- default code are revm's.
module _ {Code Bytecode : Type 0} (keccak_empty : B256) (from_code : Code → Bytecode)
    (default_code : Bytecode) (s : Storage Code) where
  pub code_of : Option B256 → Fetched (Option Bytecode)
  code_of none = ok none
  code_of (some hash) = do code ← s.code_by_hash hash; ok (Option.map from_code code)

  pub info_of : Address → Option AccountBasic → Fetched (Option (AccountInfo Bytecode))
  unfolding code_of
  info_of address none = ok none
  info_of address (some basic) = do
    code_hash ← s.code_hash address
    code ← code_of code_hash
    ok (
        some (record {
          balance = basic.balance;
          nonce = basic.nonce;
          code_hash = unwrap_hash keccak_empty code_hash;
          code = code;
        }))

  pub basic_ref : Address → Fetched (Option (AccountInfo Bytecode))
  unfolding info_of
  basic_ref address = do basic ← s.basic address; info_of address basic

  pub code_by_hash_ref : B256 → Fetched Bytecode
  code_by_hash_ref hash = do
    code ← s.code_by_hash hash
    ok (elim code [ none ↦ default_code | some c ↦ from_code c ])

  pub storage_ref : Address → U256 → Fetched U256
  storage_ref address index = s.storage address index

  pub block_hash_ref : ℕ → Fetched B256
  block_hash_ref number = s.block_hash number
