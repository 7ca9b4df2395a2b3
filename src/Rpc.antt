-- ===== src/Rpc.antt =====
-- crates/pevm/src/storage/rpc.rs: the storage that asks a node over RPC and keeps what it was told.
-- The node, the precompiles and revm's code type are parameters; `block_on` is the call itself, and
-- the three requests that `tokio::join!` interleaves are made one after another.
pub mod Fetch
pub mod Caches
pub mod Refines
pub mod Answers
mod Tests
use mathlib.Core.Option
use pevm.Base.{
  ℕ, zero, suc, ◌+◌, ◌*◌, Bool, true, false, ◌&&◌, not, Option, none, some, List, [], ◌∷◌, ◌==◌,
  if◌then◌else◌,
}
use pevm.Types.{Address, U256, B256, AccountBasic}
use pevm.Storage.{Fetched, ok, failed, EvmAccount, lookup}

-- The node, at a fixed block. What it answers may depend on the requests made before.
pub record Provider (Bytes : Type 0) : Type 0 where
  pub get_transaction_count : ℕ → Address → Fetched ℕ
  pub get_balance : ℕ → Address → Fetched U256
  pub get_code_at : ℕ → Address → Fetched Bytes
  pub get_storage_at : ℕ → Address → U256 → Fetched U256
  pub get_proof : ℕ → Address → Fetched B256  -- its `storage_hash`
  pub get_block_by_number : ℕ → ℕ → Fetched (Option B256)  -- the hash of its header

-- What is used of the raw code, of revm's `Bytecode` made of it, and of its conversion.
pub record Codes (Bytes Code : Type 0) : Type 0 where
  pub is_empty : Bytes → Bool
  pub raw_is_empty : Bytes → Bool  -- `Bytecode::new_raw(code).is_empty()`
  pub hash_slow : Bytes → B256
  pub into_code : Bytes → Code

-- The requests made and the milliseconds slept.
pub record Traffic : Type 0 where
  pub requests : ℕ
  pub slept : ℕ

abbrev pub asked : Traffic → Traffic
asked t = record t { requests = suc t.requests }

abbrev pub slept_for : ℕ → Traffic → Traffic
slept_for delay t = record t { slept = t.slept + delay }

abbrev pub retry_limit : ℕ
retry_limit = 8

abbrev pub initial_delay_millis : ℕ
initial_delay_millis = 125

-- The loop of `fetch`: with lives left, an error is answered by another request.
unfoldable pub fetch_loop {ℓ} :
    {A : Type ℓ} → ℕ → ℕ → (ℕ → Fetched A) → Traffic → Fetched A × Traffic
fetch_loop zero delay request t = (request t.requests, asked t)
fetch_loop (suc lives) delay request t = elim (request t.requests) [
  | ok a ↦ (ok a, asked t)
  | failed e ↦ fetch_loop lives (2 * delay) request (slept_for delay (asked t))
]

unfoldable pub fetch {ℓ} : {A : Type ℓ} → (ℕ → Fetched A) → Traffic → Fetched A × Traffic
unfolding fetch_loop
fetch = fetch_loop retry_limit initial_delay_millis

-- `RpcStorage` besides the parameters: what was asked, and its three caches.
pub record RpcStorage (Code : Type 0) : Type 0 where
  pub traffic : Traffic
  pub cache_accounts : List (Address × EvmAccount Code)
  pub cache_bytecodes : List (B256 × Code)
  pub cache_block_hashes : List (ℕ × B256)

unfoldable pub new : {Code : Type 0} → RpcStorage Code
new = record {
  traffic = record { requests = 0; slept = 0 };
  cache_accounts = [];
  cache_bytecodes = [];
  cache_block_hashes = [];
}

pub into_snapshot :
    {Code : Type 0}
    → RpcStorage Code
    → List (Address × EvmAccount Code) × List (B256 × Code) × List (ℕ × B256)
into_snapshot s = (s.cache_accounts, s.cache_bytecodes, s.cache_block_hashes)

-- `HashMap::insert`, over an association list.
unfoldable pub insert {ℓ} : {V : Type ℓ} → ℕ → V → List (ℕ × V) → List (ℕ × V)
insert k v [] = (k, v) ∷ []
insert k v ((j, w) ∷ m) = if j == k then (j, v) ∷ m else (j, w) ∷ insert k v m

abbrev pub and_then {ℓ κ} : {A : Type ℓ} {B : Type κ} → Option A → (A → Option B) → Option B
and_then none f = none
and_then (some a) f = f a

abbrev pub basic_of : {Code : Type 0} → EvmAccount Code → AccountBasic
basic_of account = record { balance = account.balance; nonce = account.nonce }

module _ {Bytes Code : Type 0} (provider : Provider Bytes) (codes : Codes Bytes Code)
    (is_precompile : Address → Bool) (empty_root_hash : B256) where
  abbrev pub is_absent : Address → ℕ → U256 → Bytes → Bool
  is_absent a nonce balance code =
      not (is_precompile a) && (balance == 0) && (nonce == 0) && codes.is_empty code

  abbrev pub hash_of : Bytes → Option B256
  hash_of code = if codes.raw_is_empty code then none else some (codes.hash_slow code)

  abbrev pub cache_code : Bytes → RpcStorage Code → RpcStorage Code
  cache_code code s = if codes.raw_is_empty code then s else record s {
    cache_bytecodes = insert (codes.hash_slow code) (codes.into_code code) s.cache_bytecodes;
  }

  abbrev pub account_of : ℕ → U256 → Bytes → EvmAccount Code
  account_of nonce balance code = record {
    balance = balance;
    nonce = nonce;
    code_hash = hash_of code;
    code = none;
    slots = [];
  }

  abbrev pub cache_account : Address → EvmAccount Code → RpcStorage Code → RpcStorage Code
  cache_account a account s = record s { cache_accounts = insert a account s.cache_accounts }

  -- `basic` behind the three answers.
  abbrev pub store :
      Address
      → Fetched ℕ
      → Fetched U256
      → Fetched Bytes
      → RpcStorage Code
      → Fetched (Option AccountBasic) × RpcStorage Code
  store a (failed e) balance code s = (failed e, s)
  store a (ok nonce) (failed e) code s = (failed e, s)
  store a (ok nonce) (ok balance) (failed e) s = (failed e, s)
  store a (ok nonce) (ok balance) (ok code) s =
      if is_absent a nonce balance code then (ok none, s) else (
        ok (some (record { balance = balance; nonce = nonce })),
        cache_account a (account_of nonce balance code) (cache_code code s),
      )

  abbrev pub fetch_basic :
      Address → RpcStorage Code → Fetched (Option AccountBasic) × RpcStorage Code
  fetch_basic a s =
      let (nonce, t₁) = fetch (λ n. provider.get_transaction_count n a) s.traffic in
      let (balance, t₂) = fetch (λ n. provider.get_balance n a) t₁ in
      let (code, t₃) = fetch (λ n. provider.get_code_at n a) t₂ in
      store a nonce balance code (record s { traffic = t₃ })

  abbrev pub basic_from :
      Address
      → RpcStorage Code
      → Option (EvmAccount Code)
      → Fetched (Option AccountBasic) × RpcStorage Code
  basic_from a s (some account) = (ok (some (basic_of account)), s)
  basic_from a s none = fetch_basic a s

  unfoldable pub basic : Address → RpcStorage Code → Fetched (Option AccountBasic) × RpcStorage Code
  unfolding fetch insert
  basic a s = basic_from a s (lookup s.cache_accounts a)

  abbrev pub code_hash_after :
      Address
      → Fetched (Option AccountBasic) × RpcStorage Code
      → Fetched (Option B256) × RpcStorage Code
  code_hash_after a (failed e, s) = (failed e, s)
  code_hash_after a (ok found, s) =
      (ok (and_then (lookup s.cache_accounts a) (λ account. account.code_hash)), s)

  unfoldable pub code_hash : Address → RpcStorage Code → Fetched (Option B256) × RpcStorage Code
  unfolding basic
  code_hash a s = code_hash_after a (basic a s)

  unfoldable pub code_by_hash : B256 → RpcStorage Code → Fetched (Option Code) × RpcStorage Code
  code_by_hash h s = (ok (lookup s.cache_bytecodes h), s)

  abbrev pub differs : Fetched B256 → Fetched Bool
  differs (failed e) = failed e
  differs (ok h) = ok (not (h == empty_root_hash))

  unfoldable pub has_storage : Address → RpcStorage Code → Fetched Bool × RpcStorage Code
  unfolding fetch
  has_storage a s =
      let (proof, t) = fetch (λ n. provider.get_proof n a) s.traffic in
      (differs proof, record s { traffic = t })

  -- The slot is kept with its account, if the account is kept.
  abbrev pub cache_slot_of :
      Address → U256 → U256 → RpcStorage Code → Option (EvmAccount Code) → RpcStorage Code
  cache_slot_of a index value s none = s
  cache_slot_of a index value s (some account) =
      cache_account a (record account { slots = insert index value account.slots }) s

  abbrev pub cache_slot : Address → U256 → U256 → RpcStorage Code → RpcStorage Code
  cache_slot a index value s = cache_slot_of a index value s (lookup s.cache_accounts a)

  abbrev pub store_slot :
      Address
      → U256
      → U256
      → Fetched (Option AccountBasic) × RpcStorage Code
      → Fetched U256 × RpcStorage Code
  store_slot a index value (failed e, s) = (failed e, s)
  store_slot a index value (ok found, s) = (ok value, cache_slot a index value s)

  abbrev pub fetch_slot :
      Address → U256 → Fetched U256 → RpcStorage Code → Fetched U256 × RpcStorage Code
  fetch_slot a index (failed e) s = (failed e, s)
  fetch_slot a index (ok value) s = store_slot a index value (basic a s)

  abbrev pub storage_from :
      Address → U256 → RpcStorage Code → Option U256 → Fetched U256 × RpcStorage Code
  storage_from a index s (some value) = (ok value, s)
  storage_from a index s none =
      let (value, t) = fetch (λ n. provider.get_storage_at n a index) s.traffic in
      fetch_slot a index value (record s { traffic = t })

  unfoldable pub storage : Address → U256 → RpcStorage Code → Fetched U256 × RpcStorage Code
  unfolding basic insert fetch
  storage a index s =
      storage_from a index s
        (and_then (lookup s.cache_accounts a) (λ account. lookup account.slots index))

  -- `none` is `unwrap` of no block.
  abbrev pub store_block_hash :
      ℕ → Fetched (Option B256) → RpcStorage Code → Option (Fetched B256 × RpcStorage Code)
  store_block_hash number (failed e) s = some (failed e, s)
  store_block_hash number (ok none) s = none
  store_block_hash number (ok (some h)) s =
      some (ok h, record s { cache_block_hashes = insert number h s.cache_block_hashes })

  abbrev pub block_hash_from :
      ℕ → RpcStorage Code → Option B256 → Option (Fetched B256 × RpcStorage Code)
  block_hash_from number s (some h) = some (ok h, s)
  block_hash_from number s none =
      let (answer, t) = fetch (λ n. provider.get_block_by_number n number) s.traffic in
      store_block_hash number answer (record s { traffic = t })

  unfoldable pub block_hash : ℕ → RpcStorage Code → Option (Fetched B256 × RpcStorage Code)
  unfolding insert fetch
  block_hash number s = block_hash_from number s (lookup s.cache_block_hashes number)
