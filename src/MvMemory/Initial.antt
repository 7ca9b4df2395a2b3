-- ===== src/MvMemory/Initial.antt =====
-- The entries that `MvMemory::new` of crates/pevm/src/mv_memory.rs starts with.
use pevm.Base.{
  ℕ, ◌≡◌, refl, ◌&&◌, none, some, List, [], ◌∷◌, arith, if◌then◌else◌, ◌==◌, contains, Bool-cases,
  inl, inr,
}
use pevm.Types.{TxIdx, Address, MemoryLocationHash, estimate}
use pevm.MvMemory.{MvMemory, estimates, insert_estimates, new, add_lazy_addresses}
use pevm.MvMemory.Record.{entry_at}

pub estimates-entry :
    (is' : List TxIdx) (i : TxIdx)
    → estimates is' i ≡ (if contains is' i then some estimate else none)
unfolding estimates
estimates-entry [] i = refl
estimates-entry (j ∷ is') i = ground (arith, estimates-entry is' i)

-- One estimated location.
pub new-entries :
    (Bytecode : Type 0) (size : ℕ) (l : MemoryLocationHash) (is' : List TxIdx) (lazy : List Address)
    (k : MemoryLocationHash) (i : TxIdx)
    → entry_at (new {Bytecode = Bytecode} size ((l, is') ∷ []) lazy).entries k i
      ≡ (if (l == k) && contains is' i then some estimate else none)
unfolding new insert_estimates
new-entries Bytecode size l is' lazy k i = elim (Bool-cases (l == k)) [
  | inl q ↦ rw q (estimates-entry is' i)
  | inr q ↦ rw q refl
]

-- Adding lazy addresses changes no entry.
pub add_lazy_addresses-same :
    {Bytecode : Type 0} (more : List Address) (mem : MvMemory Bytecode)
    → ((add_lazy_addresses more mem).entries ≡ mem.entries)
      × ((add_lazy_addresses more mem).last_locations ≡ mem.last_locations)
      × ((add_lazy_addresses more mem).block_size ≡ mem.block_size)
unfolding add_lazy_addresses
add_lazy_addresses-same more mem = (refl, refl, refl)

pub new-size :
    (Bytecode : Type 0) (size : ℕ) (ls : List (MemoryLocationHash × List TxIdx))
    (lazy : List Address)
    → (new {Bytecode = Bytecode} size ls lazy).block_size ≡ size
unfolding new
new-size Bytecode size ls lazy = refl
