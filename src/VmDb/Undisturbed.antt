-- ===== src/VmDb/Undisturbed.antt =====
-- Reads of `VmDb` in crates/pevm/src/vm.rs, `MvMemory::record` and
-- `MvMemory::validate_read_locations` of crates/pevm/src/mv_memory.rs together.
use pevm.Base.{
  zero, suc, ◌<◌, ◌≡◌, refl, sym, subst, Bool, true, Option, none, some, [], ◌∷◌, arith, All,
}
use pevm.Types.{TxIdx, TxVersion, MemoryLocationHash, ReadSet, WriteSet}
use pevm.MvMemory.{MvMemory, Entries, Written, range_back, record_sets, validate_read_locations}
use pevm.MvMemory.Reads.{reread, reread_found, Agrees, IsRead, validate_read_locations_iff}
use pevm.MvMemory.Record.{entry_of}
use pevm.MvMemory.Coherence.{record_sets-Recorded}
use pevm.VmDb.Slots.{Fresh}

-- Only entries below the reader are seen.
range_back-below :
    (n : TxIdx) (m m' : Written)
    → ((j : TxIdx) → j < n → m' j ≡ m j)
    → range_back n m' ≡ range_back n m
unfolding range_back
range_back-below zero m m' h = refl
range_back-below (suc n) m m' h =
    ground (arith, h n, range_back-below n m m' (λ j lt. h j (omega arith)))

range_back-none :
    (n : TxIdx) (m : Written) → ((j : TxIdx) → j < n → m j ≡ none) → range_back n m ≡ []
unfolding range_back
range_back-none zero m h = refl
range_back-none (suc n) m h = ground (arith, h n, range_back-none n m (λ j lt. h j (omega arith)))

reread-below :
    (n : TxIdx) (o o' : Option Written)
    → ((j : TxIdx) → j < n → entry_of o' j ≡ entry_of o j)
    → reread_found n o' ≡ reread_found n o
reread-below n none none h = refl
reread-below n none (some m') h = rw (range_back-none n m' h)
reread-below n (some m) none h = rw (range_back-none n m (λ j lt. sym (h j lt)))
reread-below n (some m) (some m') h = rw (range_back-below n m m' h)

Fresh-IsRead : (n : TxIdx) (d : Entries) (rs : ReadSet) → Fresh n d rs → All (λ r. IsRead r.1) rs
Fresh-IsRead n d [] f = tt
Fresh-IsRead n d ((l, os) ∷ rs) f = (f.0.0, Fresh-IsRead n d rs f.1)

Fresh-Agrees :
    (n : TxIdx) (d d' : Entries) (rs : ReadSet)
    → ((l : MemoryLocationHash) → reread n d' l ≡ reread n d l)
    → Fresh n d rs
    → All (λ r. Agrees r.1 (reread n d' r.0)) rs
Fresh-Agrees n d d' [] h f = tt
Fresh-Agrees n d d' ((l, os) ∷ rs) h f =
    (subst (Agrees os) (sym (h l)) f.0.1, Fresh-Agrees n d d' rs h f.1)

module _ {Bytecode : Type 0} where
  -- An incarnation of a transaction of the block whose read set has, at each location, origins
  -- that reading again would find, is recorded, whatever it writes, and validation passes behind
  -- that.
  pub undisturbed_validates :
      (v : TxVersion) (rs : ReadSet) (ws : WriteSet) (mem : MvMemory Bytecode)
      → v.tx_idx < mem.block_size
      → Fresh v.tx_idx mem.entries rs
      → (wrote_new : Bool) × (mem' : MvMemory Bytecode) × (record_sets v rs ws mem
          ≡ some (wrote_new, mem'))
        × (validate_read_locations v.tx_idx mem' ≡ some true)
  undisturbed_validates v rs ws mem lt f =
      let (b, mem', q, r) = record_sets-Recorded v rs ws mem lt in
      let n = v.tx_idx in
      let same : (l : MemoryLocationHash) → reread n mem'.entries l ≡ reread n mem.entries l = λ l.
        reread-below n (mem.entries l) (mem'.entries l) (λ j k. ground (arith, r.entries l j)) in
      (
        b,
        mem',
        q,
        (validate_read_locations_iff n mem' (omega (arith, r.size))
              (subst (All (λ x. IsRead x.1)) (sym r.reads) (Fresh-IsRead n mem.entries rs f))).1
            (subst (All (λ x. Agrees x.1 (reread n mem'.entries x.0))) (sym r.reads)
              (Fresh-Agrees n mem.entries mem'.entries rs same f)),
      )
