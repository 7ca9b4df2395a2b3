-- ===== src/VmDb/Programs.antt =====
-- Transactions that read slots: what revm asks of `VmDb` in crates/pevm/src/vm.rs, one slot after
-- another, depends on the slots read before.

use pevm.Base.{ℕ, suc, List, [], ◌∷◌}
use pevm.Types.{
  Address, U256, MemoryLocation, storage_location, MemoryLocationHash, storage, WriteSet,
}
use pevm.MvMemory.{MvMemory}
use pevm.VmDb.{VmDb, Read, got, refused, read_storage}

abbrev pub SlotWrites : Type 0
SlotWrites = List ((Address × U256) × U256)

-- The next slot to read with what follows its value, or the slots written at the end.
pub data Program : Type 0 where
  get : Address → U256 → (U256 → Program) → Program
  finish : SlotWrites → Program

abbrev pub write_set : (MemoryLocation → MemoryLocationHash) → SlotWrites → WriteSet
write_set hash [] = []
write_set hash (((a, index), v) ∷ ws) =
    (hash (storage_location a index), storage v) ∷ write_set hash ws

-- What follows a read, unless it is refused.
abbrev pub after_read :
    {Db : Type 0} → Read U256 × Db → (U256 → Db → Read SlotWrites × Db) → Read SlotWrites × Db
after_read (got v, db) next = next v db
after_read (refused e, db) next = (refused e, db)

module _ {Code Bytecode : Type 0} (hash : MemoryLocation → MemoryLocationHash) where
  -- The memory is shared with the other threads: a read finds what it is at that time.
  abbrev pub move_to : MvMemory Bytecode → VmDb Code Bytecode → VmDb Code Bytecode
  move_to m db = record db { mv_memory = m }

  -- `memories` has the memory at the time of each read.
  unfoldable pub run :
      Program → (ℕ → MvMemory Bytecode) → VmDb Code Bytecode → Read SlotWrites × VmDb Code Bytecode
  run (finish ws) memories db = (got ws, db)
  run (get a index next) memories db =
      after_read (read_storage hash a index (move_to (memories 0) db))
        (λ v db'. run (next v) (λ n. memories (suc n)) db')

-- The slots written from a state of the slots.
unfoldable pub run_on : Program → (Address → U256 → U256) → SlotWrites
run_on (finish ws) state = ws
run_on (get a index next) state = run_on (next (state a index)) state
