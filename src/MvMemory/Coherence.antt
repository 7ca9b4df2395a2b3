-- ===== src/MvMemory/Coherence.antt =====
-- The entries of the multi-version memory of crates/pevm/src/mv_memory.rs against the write set
-- last recorded, and the locations kept for each transaction.

use pevm.Base.{
  ℕ, ◌<◌, ◌≡◌, ◌≢◌, refl, Bool, true, false, ◌&&◌, Option, none, some, List, [], ◌∷◌, arith, lt→ltb,
  if◌then◌else◌, ◌==◌, ==_refl, Bool-cases, inl, inr, contains, length,
}
use pevm.Types.{
  TxIdx, TxVersion, MemoryLocationHash, MemoryValue, data_entry, estimate, ReadSet, WriteSet,
}
use pevm.MvMemory.{MvMemory, writes, prune, register, record_sets, recorded}
use pevm.MvMemory.Record.{
  entry_at, Pruned, prune-Pruned, Registered, register-Registered, last_value, writes_outside,
  entry_written,
}

abbrev is_some : Option MemoryValue → Bool
is_some none = false
is_some (some v) = true

last_value-writes :
    (ws : WriteSet) (l : MemoryLocationHash) → writes ws l ≡ is_some (last_value ws l)
last_value-writes [] l = refl
last_value-writes ((k, v) ∷ ws) l = ground (arith, last_value-writes ws l)

-- Locations that the pruned list has lost are not in the write set.
writes_outside-pruned :
    (last out : List MemoryLocationHash) (all ws : WriteSet)
    → ((l : MemoryLocationHash) → contains out l ≡ (contains last l && writes all l))
    → ((l : MemoryLocationHash) → writes ws l ≡ true → writes all l ≡ true)
    → writes_outside out ws ≡ writes_outside last ws
writes_outside-pruned last out all [] h sub = refl
writes_outside-pruned last out all ((k, v) ∷ ws) h sub = ground (
  arith,
  h k,
  sub k,
  ==_refl k,
  writes_outside-pruned last out all ws h (λ l w. sub l (ground arith)),
)

module _ {Bytecode : Type 0} where
  -- What `record` makes of the memory.
  pub record Recorded (v : TxVersion) (rs : ReadSet) (ws : WriteSet) (mem : MvMemory Bytecode)
      (wrote_new : Bool) (mem' : MvMemory Bytecode) : Type 0 where
    pub entries :
        (l : MemoryLocationHash) (j : TxIdx)
        → entry_at mem'.entries l j ≡ (
            if v.tx_idx == j
            then entry_written v.tx_incarnation
                (last_value ws l)
                (if contains (mem.last_locations j).write l then none else entry_at mem.entries l j)
            else entry_at mem.entries l j)
    pub places :
        (l : MemoryLocationHash) → contains (mem'.last_locations v.tx_idx).write l ≡ writes ws l
    pub reads : (mem'.last_locations v.tx_idx).read ≡ rs
    pub others : (j : TxIdx) → v.tx_idx ≢ j → mem'.last_locations j ≡ mem.last_locations j
    pub new_location : wrote_new ≡ writes_outside (mem.last_locations v.tx_idx).write ws
    pub size : mem'.block_size ≡ mem.block_size
    pub addresses : mem'.lazy_addresses ≡ mem.lazy_addresses
    pub bytecodes : mem'.new_bytecodes ≡ mem.new_bytecodes

  -- Recording an incarnation of a transaction of the block succeeds. The transaction's entries are
  -- then the last values that the write set has, with the incarnation; its entries at locations
  -- that it wrote before and does not write now are gone; those of other transactions stay. The
  -- locations written are those of the write set, the read set is the one given, and the answer is
  -- whether some location of the write set was not among the last written ones.
  pub record_sets-Recorded :
      (v : TxVersion) (rs : ReadSet) (ws : WriteSet) (mem : MvMemory Bytecode)
      → v.tx_idx < mem.block_size
      → (wrote_new : Bool) × (mem' : MvMemory Bytecode) × (record_sets v rs ws mem
          ≡ some (wrote_new, mem'))
        × Recorded v rs ws mem wrote_new mem'
  unfolding record_sets
  record_sets-Recorded v rs ws mem lt =
      let last = (mem.last_locations v.tx_idx).write in
      let p = prune (length last) v.tx_idx ws [] last mem.entries in
      let r = register v ws p.0 false p.1 in
      let hp : Pruned v.tx_idx ws [] last mem.entries p =
        prune-Pruned (length last) v.tx_idx ws [] last mem.entries (omega arith) in
      let hr : Registered v ws p.0 false p.1 r = register-Registered v ws p.0 false p.1 in
      (
        r.0.1,
        (recorded v rs r mem).1,
        rw (lt→ltb _ _ lt),
        record {
          entries = λ l j. ground (arith, hr.entries l j, hp.entries l j, last_value-writes ws l);
          places = λ l. ground (arith, hr.places l, hp.places l);
          reads = ground arith;
          others = λ j ne. ground arith;
          new_location = ground (
            arith,
            hr.wrote_new,
            writes_outside-pruned last p.0 ws ws (λ l. hp.places l) (λ l w. w),
          );
          size = refl;
          addresses = refl;
          bytecodes = refl;
        },
      )

  -- A data entry of a transaction stands at a location that it wrote last, and at each location
  -- that it wrote last it has an entry.
  pub record Coherent (mem : MvMemory Bytecode) : Type 0 where
    pub written :
        (l : MemoryLocationHash) (j : TxIdx) (k : ℕ) (value : MemoryValue)
        → entry_at mem.entries l j ≡ some (data_entry k value)
        → contains (mem.last_locations j).write l ≡ true
    pub present :
        (l : MemoryLocationHash) (j : TxIdx)
        → contains (mem.last_locations j).write l ≡ true
        → entry_at mem.entries l j ≢ none

  pub Recorded-Coherent :
      {v : TxVersion} {rs : ReadSet} {ws : WriteSet} {mem mem' : MvMemory Bytecode} {new : Bool}
      → Recorded v rs ws mem new mem'
      → Coherent mem
      → Coherent mem'
  Recorded-Coherent {v} {ws} {mem} m c = record {
    written = λ l j k value e. elim (Bool-cases (v.tx_idx == j)) [
      | inl same ↦
          ground (arith, m.entries l j, m.places l, last_value-writes ws l, c.written l j k value)
      | inr other ↦ ground (arith, m.entries l j, m.others j (ground arith), c.written l j k value)
    ];
    present = λ l j e. elim (Bool-cases (v.tx_idx == j)) [
      | inl same ↦ λ n. ground (arith, m.entries l j, m.places l, last_value-writes ws l)
      | inr other ↦ λ n. ground (arith, m.entries l j, m.others j (ground arith), c.present l j)
    ];
  }

  -- What `convert_writes_to_estimates` makes of the memory.
  pub record Converted (n : TxIdx) (mem mem' : MvMemory Bytecode) : Type 0 where
    pub entries :
        (l : MemoryLocationHash) (j : TxIdx)
        → entry_at mem'.entries l j ≡ (
            if (n == j) && contains (mem.last_locations n).write l
            then some estimate
            else entry_at mem.entries l j)
    pub locations : mem'.last_locations ≡ mem.last_locations
    pub size : mem'.block_size ≡ mem.block_size
