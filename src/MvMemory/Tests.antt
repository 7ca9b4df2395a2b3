-- ===== src/MvMemory/Tests.antt =====
-- Small runs of the multi-version memory, and its theorems at concrete inputs.

use pevm.Base.{ℕ, ◌≡◌, ◌↔◌, refl, Bool, true, some, [], ◌∷◌, arith, All}
use pevm.Types.{
  TxIdx, TxVersion, MemoryLocationHash, MemoryValue, storage, lazy_recipient, data_entry,
  from_mv_memory, from_storage, ReadSet, WriteSet,
}
use pevm.MvMemory.{MvMemory, new, record_sets, validate_read_locations, convert_writes_to_estimates}
use pevm.MvMemory.Reads.{reread, Agrees, validate_read_locations_iff}
use pevm.MvMemory.Record.{entry_at, last_value}
use pevm.MvMemory.Coherence.{Recorded, record_sets-Recorded, Coherent, Converted}
use pevm.MvMemory.Estimates.{
  convert_writes_to_estimates-Converted, Run, start, records, Run-Coherent, record_sets_exact,
}

abbrev version : TxIdx → ℕ → TxVersion
version i k = record { tx_idx = i; tx_incarnation = k }

-- The first incarnation of transaction 0 writes locations 7 and 8.
abbrev two_writes : WriteSet
two_writes = (7, storage 41) ∷ (8, lazy_recipient 5) ∷ []

-- Its second incarnation writes location 8 alone.
abbrev one_write : WriteSet
one_write = (8, lazy_recipient 6) ∷ []

-- Transaction 1 reads location 8, through the lazy update down to the storage, and location 9.
abbrev two_reads : ReadSet
two_reads = (8, from_mv_memory (version 0 0) ∷ from_storage ∷ []) ∷ (9, from_storage ∷ []) ∷ []

abbrev empty_memory : MvMemory ℕ
unfolding new
empty_memory = new 2 ((3, 0 ∷ 1 ∷ []) ∷ []) []

abbrev after_first :
    (new_location : Bool) × (mem : MvMemory ℕ) × (record_sets
        (version 0 0)
        []
        two_writes
        empty_memory
      ≡ some (new_location, mem))
unfolding record_sets new
after_first = (_, _, refl)

abbrev after_second :
    (new_location : Bool) × (mem : MvMemory ℕ) × (record_sets
        (version 1 0)
        two_reads
        []
        after_first.1
      ≡ some (new_location, mem))
unfolding record_sets new
after_second = (_, _, refl)

abbrev run_of_first : Run 2 after_first.1
unfolding record_sets new
run_of_first =
    records (version 0 0) [] two_writes (omega arith) (start ((3, 0 ∷ 1 ∷ []) ∷ []) [])
      after_first.2

abbrev run_of_second : Run 2 after_second.1
unfolding record_sets new
run_of_second = records (version 1 0) two_reads [] (omega arith) run_of_first after_second.2

validate_read_locations_iff_example :
    (validate_read_locations 1 after_second.1 ≡ some true)
    ↔ All (λ r. Agrees r.1 (reread 1 after_second.1.entries r.0)) two_reads
unfolding record_sets new
validate_read_locations_iff_example =
    validate_read_locations_iff 1 after_second.1 (omega arith) (tt, (tt, tt))

record_sets-Recorded_example :
    (wrote_new : Bool) × (mem' : MvMemory ℕ) × (record_sets
        (version 0 1)
        []
        one_write
        after_second.1
      ≡ some (wrote_new, mem'))
    × Recorded (version 0 1) [] one_write after_second.1 wrote_new mem'
unfolding record_sets new
record_sets-Recorded_example =
    record_sets-Recorded (version 0 1) [] one_write after_second.1 (omega arith)

Run-Coherent_example : Coherent after_second.1
Run-Coherent_example = Run-Coherent run_of_second

convert_writes_to_estimates-Converted_example :
    (mem' : MvMemory ℕ) × (convert_writes_to_estimates 0 after_second.1 ≡ some mem')
    × Converted 0 after_second.1 mem'
unfolding record_sets new
convert_writes_to_estimates-Converted_example =
    convert_writes_to_estimates-Converted 0 after_second.1 (omega arith)
      (Run-Coherent run_of_second)

record_sets_exact_example :
    (wrote_new : Bool) × (mem' : MvMemory ℕ) × (record_sets
        (version 0 1)
        []
        one_write
        after_second.1
      ≡ some (wrote_new, mem'))
    × ((l : MemoryLocationHash) (k : ℕ) (value : MemoryValue)
        → (entry_at mem'.entries l 0 ≡ some (data_entry k value))
          ↔ ((k ≡ 1) × (last_value one_write l ≡ some value)))
unfolding record_sets new
record_sets_exact_example = record_sets_exact (version 0 1) [] one_write run_of_second (omega arith)
