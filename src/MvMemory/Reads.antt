-- ===== src/MvMemory/Reads.antt =====
-- `MvMemory::validate_read_locations` of crates/pevm/src/mv_memory.rs against re-reading.
use pevm.Base.{
  suc, ℕ, ◌<◌, ◌≡◌, ◌↔◌, refl, true, ◌&&◌, Option, none, some, List, [], ◌∷◌, ◌++◌, map, arith, All,
  ◌==◌,
}
use pevm.Types.{
  TxIdx, TxVersion, MemoryLocationHash, MemoryEntry, data_entry, estimate, ReadOrigin,
  from_mv_memory, from_storage, ReadOrigins, ReadSet,
}
use pevm.MvMemory.{
  MvMemory, Entries, Written, range_back, check_origins, check_found, check_location,
  check_read_set, validate_read_locations, is_only_storage,
}

-- The origin that a reader finds in an entry: an estimate has none.
abbrev pub seen : TxIdx × MemoryEntry → Option ReadOrigin
seen (i, estimate) = none
seen (i, data_entry k value) = some (from_mv_memory (record { tx_idx = i; tx_incarnation = k }))

pub range_back-some :
    (n : ℕ) (m : Written) (e : MemoryEntry)
    → m n ≡ some e
    → range_back (suc n) m ≡ (n, e) ∷ range_back n m
unfolding range_back
range_back-some n m e q = rw (q, range_back) refl

pub range_back-none : (n : ℕ) (m : Written) → m n ≡ none → range_back (suc n) m ≡ range_back n m
unfolding range_back
range_back-none n m q = rw (q, range_back) refl

-- What transaction `n` finds at a location now, from the closest lower write down to the storage.
abbrev pub reread_found : TxIdx → Option Written → List (Option ReadOrigin)
reread_found n none = some from_storage ∷ []
reread_found n (some m) = map seen (range_back n m) ++ some from_storage ∷ []

abbrev pub reread : TxIdx → Entries → MemoryLocationHash → List (Option ReadOrigin)
reread n d l = reread_found n (d l)

-- The origins are the first ones found.
abbrev pub Agrees : ReadOrigins → List (Option ReadOrigin) → Type 0
Agrees [] ts = Unit
Agrees (o ∷ os) [] = ⊥
Agrees (o ∷ os) (t ∷ ts) = (t ≡ some o) × Agrees os ts

-- Origins as a read leaves them: lazy updates by transactions, and one last origin of any kind.
abbrev pub IsRead : ReadOrigins → Type 0
IsRead [] = ⊥
IsRead (o ∷ []) = Unit
IsRead (from_mv_memory v ∷ o ∷ os) = IsRead (o ∷ os)
IsRead (from_storage ∷ o ∷ os) = ⊥

abbrev found_in : List (TxIdx × MemoryEntry) → List (Option ReadOrigin)
found_in iter = map seen iter ++ some from_storage ∷ []

check-head :
    (v : TxVersion) (i k : ℕ)
    → (((i == v.tx_idx) && (v.tx_incarnation == k)) ≡ true) ↔ (
        some (from_mv_memory (record { tx_idx = i; tx_incarnation = k })) ≡ some (from_mv_memory v))
check-head v i k = ground arith

check_origins_sound :
    (os : ReadOrigins) (iter : List (TxIdx × MemoryEntry))
    → IsRead os
    → check_origins os iter ≡ true
    → Agrees os (found_in iter)
unfolding check_origins
check_origins_sound [] iter w e = tt
check_origins_sound (from_mv_memory v ∷ os) [] w e = cc
check_origins_sound (from_mv_memory v ∷ os) ((i, estimate) ∷ iter) w e = cc
check_origins_sound (from_mv_memory v ∷ []) ((i, data_entry k value) ∷ iter) w e =
    (ground (arith, check-head v i k), tt)
check_origins_sound (from_mv_memory v ∷ o ∷ os) ((i, data_entry k value) ∷ iter) w e =
    (ground (arith, check-head v i k), check_origins_sound (o ∷ os) iter w (ground arith))
check_origins_sound (from_storage ∷ []) [] w e = (refl, tt)
check_origins_sound (from_storage ∷ o ∷ os) [] w e = absurd w
check_origins_sound (from_storage ∷ os) (x ∷ iter) w e = cc

check_origins_complete :
    (os : ReadOrigins) (iter : List (TxIdx × MemoryEntry))
    → IsRead os
    → Agrees os (found_in iter)
    → check_origins os iter ≡ true
unfolding check_origins
check_origins_complete [] iter w e = refl
check_origins_complete (from_mv_memory v ∷ os) [] w e = absurd (ground arith)
check_origins_complete (from_mv_memory v ∷ os) ((i, estimate) ∷ iter) w e = absurd (ground arith)
check_origins_complete (from_mv_memory v ∷ []) ((i, data_entry k value) ∷ iter) w e =
    ground (arith, check-head v i k)
check_origins_complete (from_mv_memory v ∷ o ∷ os) ((i, data_entry k value) ∷ iter) w e =
    ground (arith, check-head v i k, check_origins_complete (o ∷ os) iter w e.1)
check_origins_complete (from_storage ∷ []) [] w e = refl
check_origins_complete (from_storage ∷ o ∷ os) [] w e = absurd w
check_origins_complete (from_storage ∷ os) ((i, estimate) ∷ iter) w e = absurd (ground arith)
check_origins_complete (from_storage ∷ os) ((i, data_entry k value) ∷ iter) w e =
    absurd (ground arith)

only_storage_sound :
    (os : ReadOrigins) → is_only_storage os ≡ true → Agrees os (some from_storage ∷ [])
only_storage_sound (from_storage ∷ []) e = (refl, tt)
only_storage_sound (from_storage ∷ o ∷ os) e = cc
only_storage_sound (from_mv_memory v ∷ os) e = cc
only_storage_sound [] e = tt

only_storage_complete :
    (os : ReadOrigins) → IsRead os → Agrees os (some from_storage ∷ []) → is_only_storage os ≡ true
only_storage_complete [] w e = absurd w
only_storage_complete (from_storage ∷ []) w e = refl
only_storage_complete (from_storage ∷ o ∷ os) w e = absurd w
only_storage_complete (from_mv_memory v ∷ os) w e = absurd (ground arith)

check_found_iff :
    (n : TxIdx) (os : ReadOrigins)
    → IsRead os
    → (m : Option Written) → (check_found n os m ≡ true) ↔ Agrees os (reread_found n m)
check_found_iff n os w none = (only_storage_sound os, only_storage_complete os w)
check_found_iff n os w (some m) =
    (check_origins_sound os (range_back n m) w, check_origins_complete os (range_back n m) w)

check_location_iff :
    (n : TxIdx) (d : Entries) (l : MemoryLocationHash) (os : ReadOrigins)
    → IsRead os
    → (check_location n d (l, os) ≡ true) ↔ Agrees os (reread n d l)
unfolding check_location
check_location_iff n d l os w = check_found_iff n os w (d l)

pub check_read_set_iff :
    (n : TxIdx) (d : Entries) (rs : ReadSet)
    → All (λ r. IsRead r.1) rs
    → (check_read_set n d rs ≡ true) ↔ All (λ r. Agrees r.1 (reread n d r.0)) rs
unfolding check_read_set
check_read_set_iff n d [] w = (λ e. tt, λ e. refl)
check_read_set_iff n d ((l, os) ∷ rs) w =
    let h = check_location_iff n d l os w.0 in
    let t = check_read_set_iff n d rs w.1 in
    (λ e. (h.0 (ground arith), t.0 (ground arith)), λ e. ground (arith, h.1 e.0, t.1 e.1))

-- A transaction of the block whose last read set is as reads leave it passes validation exactly
-- when re-reading each location now finds the recorded origins first, in their order, and no
-- estimate or other origin among them.
pub validate_read_locations_iff :
    {Bytecode : Type 0} (n : TxIdx) (mem : MvMemory Bytecode)
    → n < mem.block_size
    → All (λ r. IsRead r.1) (mem.last_locations n).read
    → (validate_read_locations n mem ≡ some true)
      ↔ All (λ r. Agrees r.1 (reread n mem.entries r.0)) (mem.last_locations n).read
unfolding validate_read_locations
validate_read_locations_iff n mem lt w =
    let t = check_read_set_iff n mem.entries (mem.last_locations n).read w in
    (λ e. t.0 (ground arith), λ e. ground (arith, t.1 e))
