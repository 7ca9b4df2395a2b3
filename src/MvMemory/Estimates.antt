-- ===== src/MvMemory/Estimates.antt =====
-- Estimates in crates/pevm/src/mv_memory.rs: those that a new memory starts with, and those that
-- replace the writes of an aborted incarnation.
use mathlib.Core.Option
use mathlib.Core.Option.{some-injective}
use pevm.Base.{
  ℕ, ◌<◌, ◌≡◌, ◌≢◌, ◌↔◌, refl, sym, ◌∙◌, subst, Bool, true, ◌&&◌, Option, none, some, List, [], ◌∷◌,
  arith, lt→ltb, if◌then◌else◌, ◌==◌, ==_iff, Bool-cases, inl, inr, contains, update,
}
use pevm.Types.{
  TxIdx, TxVersion, MemoryLocationHash, MemoryValue, data_entry, estimate, ReadSet, WriteSet,
  Address,
}
use pevm.MvMemory.{
  MvMemory, Entries, Written, change_at, record_sets, insert_estimates, estimates, mark_estimates,
  convert_writes_to_estimates, new,
}
use pevm.MvMemory.Record.{entry_of, entry_at, is_present, last_value, estimate_at-entry}
use pevm.MvMemory.Coherence.{Coherent, Recorded, Recorded-Coherent, Converted, record_sets-Recorded}

is_present-map :
    (f : Written → Written) (o : Option Written) → is_present (Option.map f o) ≡ is_present o
is_present-map f none = refl
is_present-map f (some m) = refl

is_present-change_at :
    (f : Written → Written) (d : Entries) (l l' : MemoryLocationHash)
    → is_present (change_at l f d l') ≡ is_present (d l')
is_present-change_at f d l l' = elim (Bool-cases (l == l')) [
  | inl e ↦ rw e (rw (← (==_iff l l').0 e) (is_present-map f (d l)))
  | inr e ↦ rw e
]

is_present-entry_of : (o : Option Written) (i : TxIdx) → entry_of o i ≢ none → is_present o ≡ true
is_present-entry_of none i h = absurd (h refl)
is_present-entry_of (some m) i h = refl

mark_estimates-entry :
    (i : TxIdx) (ls : List MemoryLocationHash) (d : Entries)
    → ((l : MemoryLocationHash) → contains ls l ≡ true → is_present (d l) ≡ true)
    → (l : MemoryLocationHash) (j : TxIdx)
    → entry_at (mark_estimates i ls d) l j
      ≡ (if (i == j) && contains ls l then some estimate else entry_at d l j)
unfolding mark_estimates
mark_estimates-entry i [] d h l j = ground arith
mark_estimates-entry i (x ∷ ls) d h l j = ground (
  arith,
  mark_estimates-entry i ls (change_at x (λ m. update m i (some estimate)) d)
      (λ k c. is_present-change_at (λ m. update m i (some estimate)) d x k ∙ h k (ground arith)) l
      j,
  estimate_at-entry d x l i j,
  h x,
)

-- No data entry is in the memory that a block starts with.
estimates-ne-data :
    (is' : List TxIdx) (j : TxIdx) (k : ℕ) (value : MemoryValue)
    → estimates is' j ≢ some (data_entry k value)
unfolding estimates
estimates-ne-data [] j k value e = cc
estimates-ne-data (i ∷ is') j k value e = ground (arith, estimates-ne-data is' j k value)

insert_estimates-ne-data :
    (ls : List (MemoryLocationHash × List TxIdx)) (d : Entries)
    → ((l : MemoryLocationHash) (j k : ℕ) (value : MemoryValue)
        → entry_at d l j ≢ some (data_entry k value))
    → (l : MemoryLocationHash) (j k : ℕ) (value : MemoryValue)
    → entry_at (insert_estimates ls d) l j ≢ some (data_entry k value)
unfolding insert_estimates
insert_estimates-ne-data [] d h = h
insert_estimates-ne-data ((x, is') ∷ ls) d h =
    insert_estimates-ne-data ls (update d x (some (estimates is'))) λ l j k value e.
      elim (Bool-cases (x == l)) [
        | inl q ↦ estimates-ne-data is' j k value (rw q at e)
        | inr q ↦ h l j k value (rw q at e)
      ]

-- A new memory has estimates alone.
pub new-ne-data :
    (Bytecode : Type 0) (size : ℕ) (ls : List (MemoryLocationHash × List TxIdx))
    (as' : List Address) (l : MemoryLocationHash) (j k : ℕ) (value : MemoryValue)
    → entry_at (new {Bytecode = Bytecode} size ls as').entries l j ≢ some (data_entry k value)
unfolding new
new-ne-data Bytecode size ls as' =
    insert_estimates-ne-data ls (λ _. none) (λ l' j' k' value' e'. cc)

module _ {Bytecode : Type 0} where
  -- Behind `convert_writes_to_estimates` for a transaction of the block, a coherent memory holds an
  -- estimate of it at each location that it wrote last; no other entry, no location and no size
  -- changes.
  pub convert_writes_to_estimates-Converted :
      (n : TxIdx) (mem : MvMemory Bytecode)
      → n < mem.block_size
      → Coherent mem
      → (mem' : MvMemory Bytecode) × (convert_writes_to_estimates n mem ≡ some mem')
        × Converted n mem mem'
  unfolding convert_writes_to_estimates
  convert_writes_to_estimates-Converted n mem lt c = (
    record mem { entries = mark_estimates n (mem.last_locations n).write mem.entries },
    rw (lt→ltb _ _ lt),
    record {
      entries =
          mark_estimates-entry n (mem.last_locations n).write mem.entries
            (λ l w. is_present-entry_of (mem.entries l) n (c.present l n w));
      locations = refl;
      size = refl;
    },
  )

  pub Converted-Coherent :
      {n : TxIdx} {mem mem' : MvMemory Bytecode}
      → Converted n mem mem'
      → Coherent mem
      → Coherent mem'
  Converted-Coherent {n} {mem} m c = record {
    written = λ l j k value e. ground (arith, m.entries l j, m.locations, c.written l j k value);
    present = λ l j e. λ x. ground (arith, m.entries l j, m.locations, c.present l j);
  }

  pub new-Coherent :
      (size : ℕ) (ls : List (MemoryLocationHash × List TxIdx)) (as' : List Address)
      → Coherent (new {Bytecode = Bytecode} size ls as')
  unfolding new
  new-Coherent size ls as' = record {
    written = λ l j k value e.
        absurd (insert_estimates-ne-data ls (λ _. none) (λ l' j' k' value' e'. cc) l j k value e);
    present = λ l j e. cc;
  }

  -- The memories that a block's run goes through: one step for each call that changes entries.
  pub data Run (size : ℕ) : MvMemory Bytecode → Type 0 where
    start :
        (ls : List (MemoryLocationHash × List TxIdx)) (lazy : List Address)
        → Run size (new size ls lazy)
    records :
        {mem mem' : MvMemory Bytecode} {new_location : Bool} (v : TxVersion) (rs : ReadSet)
        (ws : WriteSet)
        → v.tx_idx < mem.block_size
        → Run size mem
        → record_sets v rs ws mem ≡ some (new_location, mem')
        → Run size mem'
    converts :
        {mem mem' : MvMemory Bytecode} (n : TxIdx)
        → n < mem.block_size
        → Run size mem
        → convert_writes_to_estimates n mem ≡ some mem'
        → Run size mem'

  records-Recorded :
      {mem mem' : MvMemory Bytecode} {new_location : Bool} (v : TxVersion) (rs : ReadSet)
      (ws : WriteSet)
      → v.tx_idx < mem.block_size
      → record_sets v rs ws mem ≡ some (new_location, mem')
      → Recorded v rs ws mem new_location mem'
  records-Recorded {mem} {mem'} {new_location} v rs ws lt e =
      let (b, m, q, r) = record_sets-Recorded v rs ws mem lt in
      subst (λ (x : Bool × MvMemory Bytecode). Recorded v rs ws mem x.0 x.1)
        (some-injective (b, m) (new_location, mem') (sym q ∙ e)) r

  -- The memory is coherent throughout a block's run.
  pub Run-Coherent : {size : ℕ} {mem : MvMemory Bytecode} → Run size mem → Coherent mem
  Run-Coherent {size} (start ls lazy) = new-Coherent size ls lazy
  Run-Coherent (records v rs ws lt run e) =
      Recorded-Coherent (records-Recorded v rs ws lt e) (Run-Coherent run)
  Run-Coherent (converts {mem} {mem'} n lt run e) =
      let (m, q, c) = convert_writes_to_estimates-Converted n mem lt (Run-Coherent run) in
      Converted-Coherent (subst (Converted n mem) (some-injective m mem' (sym q ∙ e)) c)
        (Run-Coherent run)

  -- In any memory of a block's run, recording an incarnation of a transaction of the block leaves
  -- the transaction with exactly the data entries that its write set has: at each location the last
  -- value written there, under this incarnation, and no data entry of an earlier one.
  pub record_sets_exact :
      {size : ℕ} {mem : MvMemory Bytecode} (v : TxVersion) (rs : ReadSet) (ws : WriteSet)
      → Run size mem
      → v.tx_idx < mem.block_size
      → (wrote_new : Bool) × (mem' : MvMemory Bytecode) × (record_sets v rs ws mem
          ≡ some (wrote_new, mem'))
        × ((l : MemoryLocationHash) (k : ℕ) (value : MemoryValue)
            → (entry_at mem'.entries l v.tx_idx ≡ some (data_entry k value))
              ↔ ((k ≡ v.tx_incarnation) × (last_value ws l ≡ some value)))
  record_sets_exact {mem} v rs ws run lt =
      let (b, m, q, r) = record_sets-Recorded v rs ws mem lt in
      (
        b,
        m,
        q,
        λ l k value. (
          λ e. ground (arith, r.entries l v.tx_idx, (Run-Coherent run).written l v.tx_idx k value),
          λ e. ground (arith, r.entries l v.tx_idx),
        ),
      )
