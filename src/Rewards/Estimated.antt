-- ===== src/Rewards/Estimated.antt =====
-- The memory that crates/pevm/src/chain/ethereum.rs builds for a block: the beneficiary is
-- estimated to be written by every transaction.
use pevm.Base.{
  ℕ, zero, suc, ◌≡◌, refl, ◌∙◌, ◌&&◌, none, some, [], ◌∷◌, arith, if◌then◌else◌, ◌==◌, ltb,
  contains, contains-append,
}
use pevm.Types.{TxIdx, Address, MemoryLocationHash, estimate}
use pevm.MvMemory.Record.{entry_at}
use pevm.MvMemory.Initial.{new-entries}
use pevm.Rewards.{ethereum_memory, indices}

indices-contains : (n i : ℕ) → contains (indices n) i ≡ ltb i n
indices-contains zero i = ground arith
indices-contains (suc n) i =
    ground (arith, contains-append (indices n) (n ∷ []) i, indices-contains n i)

-- The memory of a block holds, at the beneficiary's location, an estimate of each transaction of
-- the block, and no other entry.
pub ethereum_memory-entries :
    (Bytecode : Type 0) (beneficiary : Address) (l : MemoryLocationHash) (size : ℕ)
    (k : MemoryLocationHash) (i : TxIdx)
    → entry_at (ethereum_memory {Bytecode = Bytecode} beneficiary l size).entries k i
      ≡ (if (l == k) && ltb i size then some estimate else none)
unfolding ethereum_memory
ethereum_memory-entries Bytecode beneficiary l size k i =
    new-entries Bytecode size l (indices size) (beneficiary ∷ []) k i
    ∙ rw (indices-contains size i) refl
