-- ===== src/MvMemory.antt =====
-- crates/pevm/src/mv_memory.rs: the multi-version memory that all transactions share.
-- A `DashMap` or a `BTreeMap` is a map into options, and a `HashSet` a list without repetition.
-- Code of the EVM library (`Bytecode`) is a parameter. `none` is an index past the block.
use mathlib.Core.Option
pub mod Reads
pub mod Record
pub mod Coherence
pub mod Estimates
pub mod Initial
mod Tests
use pevm.Base.{
  ℕ, zero, suc, ◌≡◌, Bool, true, false, ◌&&◌, ◌||◌, not, Option, none, some, List, [], ◌∷◌, ◌++◌,
  ◌==◌, ltb, if◌then◌else◌, update, contains, length,
}
use pevm.Types.{
  TxIdx, TxVersion, Address, B256, MemoryLocationHash, MemoryValue, MemoryEntry, data_entry,
  estimate, ReadOrigin, from_mv_memory, from_storage, ReadOrigins, ReadSet, WriteSet,
}

pub record LastLocations : Type 0 where
  pub read : ReadSet
  pub write : List MemoryLocationHash

-- `BTreeMap<TxIdx, MemoryEntry>`
abbrev pub Written : Type 0
Written = TxIdx → Option MemoryEntry

abbrev pub Entries : Type 0
Entries = MemoryLocationHash → Option Written

pub record MvMemory (Bytecode : Type 0) : Type 0 where
  pub entries : Entries  -- the field `data`
  pub block_size : ℕ  -- the length of `last_locations`
  pub last_locations : TxIdx → LastLocations
  pub lazy_addresses : List Address
  pub new_bytecodes : B256 → Option Bytecode

-- The entries below `n`, from the highest down: `range(..n)` read by `next_back`.
unfoldable pub range_back : ℕ → Written → List (TxIdx × MemoryEntry)
range_back zero m = []
range_back (suc n) m = elim (m n) [ none ↦ range_back n m | some e ↦ (n, e) ∷ range_back n m ]

abbrev empty : Written
empty i = none

unfoldable pub estimates : List TxIdx → Written
estimates [] = empty
estimates (i ∷ more) = update (estimates more) i (some estimate)

unfoldable pub insert_estimates : List (MemoryLocationHash × List TxIdx) → Entries → Entries
unfolding estimates
insert_estimates [] d = d
insert_estimates ((l, more) ∷ rest) d = insert_estimates rest (update d l (some (estimates more)))

abbrev insert_address : Address → List Address → List Address
insert_address a set = if contains set a then set else a ∷ set

pub insert_addresses : List Address → List Address → List Address
insert_addresses [] set = set
insert_addresses (a ∷ rest) set = insert_addresses rest (insert_address a set)

unfoldable pub new :
    {Bytecode : Type 0}
    → ℕ
    → List (MemoryLocationHash × List TxIdx)
    → List Address
    → MvMemory Bytecode
unfolding insert_estimates insert_addresses
new block_size estimated_locations lazy_addresses = record {
  entries = insert_estimates estimated_locations (λ _. none);
  block_size = block_size;
  last_locations = λ _. record { read = []; write = [] };
  lazy_addresses = insert_addresses lazy_addresses [];
  new_bytecodes = λ _. none;
}

-- `write_set.iter().any(|(l, _)| l == location)`
abbrev pub writes : WriteSet → MemoryLocationHash → Bool
writes [] l = false
writes ((k, v) ∷ ws) l = (k == l) || writes ws l

-- `get_mut(location)`, then a change of the map found, if there is one.
abbrev pub change_at : MemoryLocationHash → (Written → Written) → Entries → Entries
change_at l f d = update d l (Option.map f (d l))

-- The last element is moved to the front: what `swap_remove` does behind the index removed.
pub last_to_front : List MemoryLocationHash → List MemoryLocationHash
last_to_front [] = []
last_to_front (x ∷ xs) = elim (last_to_front xs) [ [] ↦ x ∷ [] | y ∷ ys ↦ y ∷ x ∷ ys ]

-- The `while` over the last written locations. Those below the index are `kept`, `rest` are the
-- others. A location that is not written any more loses the transaction's entry.
pub prune :
    ℕ
    → TxIdx
    → WriteSet
    → List MemoryLocationHash
    → List MemoryLocationHash
    → Entries
    → List MemoryLocationHash × Entries
unfolding last_to_front
prune zero i ws kept rest d = (kept ++ rest, d)
prune (suc f) i ws kept [] d = (kept, d)
prune (suc f) i ws kept (l ∷ rest) d = elim (writes ws l) [
  | true ↦ prune f i ws (kept ++ l ∷ []) rest d
  | false ↦ prune f i ws kept (last_to_front rest) (change_at l (λ m. update m i none) d)
]

abbrev pub or_default : Option Written → Written
or_default none = empty
or_default (some m) = m

-- `entry(location).or_default().insert(tx_idx, Data(tx_incarnation, value))`
abbrev pub insert_entry : MemoryLocationHash → TxIdx → MemoryEntry → Entries → Entries
insert_entry l i e d = update d l (some (update (or_default (d l)) i (some e)))

-- The `for` over the write set, with the locations written and whether one is new.
pub register :
    TxVersion
    → WriteSet
    → List MemoryLocationHash
    → Bool
    → Entries
    → (List MemoryLocationHash × Bool) × Entries
register v [] written wrote_new d = ((written, wrote_new), d)
register v ((l, value) ∷ ws) written wrote_new d =
    register v ws (if contains written l then written else written ++ l ∷ [])
      (if contains written l then wrote_new else true)
      (insert_entry l v.tx_idx (data_entry v.tx_incarnation value) d)

module _ {Bytecode : Type 0} where
  pub add_lazy_addresses : List Address → MvMemory Bytecode → MvMemory Bytecode
  unfolding insert_addresses
  add_lazy_addresses new mem = record mem {
    lazy_addresses = insert_addresses new mem.lazy_addresses;
  }

  abbrev recorded :
      TxVersion
      → ReadSet
      → (List MemoryLocationHash × Bool) × Entries
      → MvMemory Bytecode
      → Bool × MvMemory Bytecode
  recorded v read_set r mem = (
    r.0.1,
    record mem {
      entries = r.1;
      last_locations =
          update mem.last_locations v.tx_idx (record { read = read_set; write = r.0.0 });
    },
  )

  -- `MvMemory::record`: whether a new location was written, and the memory behind it.
  pub record_sets :
      TxVersion → ReadSet → WriteSet → MvMemory Bytecode → Option (Bool × MvMemory Bytecode)
  unfolding prune register
  record_sets v read_set write_set mem =
      let last = (mem.last_locations v.tx_idx).write in
      let pruned = prune (length last) v.tx_idx write_set [] last mem.entries in
      if ltb v.tx_idx mem.block_size
      then some (recorded v read_set (register v write_set pruned.0 false pruned.1) mem)
      else none

-- The origins of one location against the entries below the reader, from the highest down.
pub check_origins : ReadOrigins → List (TxIdx × MemoryEntry) → Bool
check_origins [] iter = true
check_origins (from_mv_memory v ∷ os) [] = false
check_origins (from_mv_memory v ∷ os) ((i, estimate) ∷ iter) = false
check_origins (from_mv_memory v ∷ os) ((i, data_entry k value) ∷ iter) =
    (i == v.tx_idx) && (v.tx_incarnation == k) && check_origins os iter
check_origins (from_storage ∷ os) [] = check_origins os []
check_origins (from_storage ∷ os) (e ∷ iter) = false

-- `prior_origins.len() == 1 && prior_origins.last() == Some(&ReadOrigin::Storage)`
abbrev pub is_only_storage : ReadOrigins → Bool
is_only_storage (from_storage ∷ []) = true
is_only_storage _ = false

abbrev pub check_found : TxIdx → ReadOrigins → Option Written → Bool
check_found n os (some m) = check_origins os (range_back n m)
check_found n os none = is_only_storage os

pub check_location : TxIdx → Entries → MemoryLocationHash × ReadOrigins → Bool
unfolding check_origins range_back
check_location n d (l, os) = check_found n os (d l)

pub check_read_set : TxIdx → Entries → ReadSet → Bool
unfolding check_location
check_read_set n d [] = true
check_read_set n d (r ∷ rs) = check_location n d r && check_read_set n d rs

pub mark_estimates : TxIdx → List MemoryLocationHash → Entries → Entries
mark_estimates i [] d = d
mark_estimates i (l ∷ ls) d = mark_estimates i ls (change_at l (λ m. update m i (some estimate)) d)

module _ {Bytecode : Type 0} where
  unfoldable pub validate_read_locations : TxIdx → MvMemory Bytecode → Option Bool
  unfolding check_read_set
  validate_read_locations n mem =
      if ltb n mem.block_size
      then some (check_read_set n mem.entries (mem.last_locations n).read)
      else none

  unfoldable pub convert_writes_to_estimates :
      TxIdx → MvMemory Bytecode → Option (MvMemory Bytecode)
  unfolding mark_estimates
  convert_writes_to_estimates n mem =
      if ltb n mem.block_size
      then some (record mem { entries = mark_estimates n (mem.last_locations n).write mem.entries })
      else none

  -- `std::mem::take` leaves the set empty.
  pub consume_lazy_addresses : MvMemory Bytecode → List Address × MvMemory Bytecode
  consume_lazy_addresses mem = (mem.lazy_addresses, record mem { lazy_addresses = [] })
