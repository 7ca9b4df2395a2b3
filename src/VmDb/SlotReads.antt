-- ===== src/VmDb/SlotReads.antt =====
-- What `Database::storage` of `VmDb` in crates/pevm/src/vm.rs answers.

use pevm.Base.{
  zero, suc, ◌≡◌, ◌≢◌, refl, sym, ap, ◌∙◌, subst, true, Option, none, some, [], ◌∷◌, arith, ltb,
  ◌⊎◌, inl, inr, Bool-cases, if◌then◌else◌,
}
use pevm.Types.{
  TxIdx, Address, U256, MemoryLocation, storage_location, MemoryLocationHash, basic, code_hash,
  storage, lazy_recipient, lazy_sender, self_destructed, MemoryEntry, data_entry, estimate,
  ReadOrigin, ReadOrigins, from_storage, from_mv_memory,
}
use pevm.MvMemory.{Entries, Written, range_back}
use pevm.MvMemory.Reads.{seen}
use pevm.Storage.{Fetched, ok, failed}
use pevm.VmDb.{
  VmDb, Read, got, refused, ReadError, blocking, inconsistent_read, invalid_memory_value_type,
  touch, version_of, closest, closest_of, slot_from, read_storage, from_fetched, last_origin,
  origin_eq, origins_at, push_then, push_origin, set_origins,
}
use pevm.VmDb.Slots.{
  after_push-got, set_origins_twice, origins_at-set, origin_eq_sound, last_origin-cons,
}

-- The slot's value, given the closest lower entry and what the storage answers.
abbrev pub SlotSays : Option (TxIdx × MemoryEntry) → Fetched U256 → U256 → Type 0
SlotSays none f v = f ≡ ok v
SlotSays (some (i, data_entry k (storage w))) f v = w ≡ v
SlotSays _ f v = ⊥

-- What a reader finds first.
abbrev pub first_seen : Option (TxIdx × MemoryEntry) → Option ReadOrigin
first_seen none = some from_storage
first_seen (some e) = seen e

-- The answer is `x` where no origin was kept or the last one kept is `o`; any other last one makes
-- the read inconsistent.
abbrev pub IsChecked : ReadOrigins → ReadOrigin → Read U256 → Read U256 → Type 0
IsChecked os o x r =
    (((os ≡ []) ⊎ (last_origin os ≡ some o)) × (r ≡ x))
    ⊎ ((p : ReadOrigin) × (last_origin os ≡ some p) × (p ≢ o) × (r ≡ refused inconsistent_read))

-- The answer of a slot's read by the closest lower entry, the origins kept before, and what the
-- storage has.
abbrev pub IsAnswer : Option (TxIdx × MemoryEntry) → ReadOrigins → Fetched U256 → Read U256 → Type 0
IsAnswer none os f r = IsChecked os from_storage (from_fetched f) r
IsAnswer (some (i, data_entry k (storage w))) os f r = IsChecked os (version_of i k) (got w) r
IsAnswer (some (i, estimate)) os f r = r ≡ refused (blocking i)
IsAnswer (some (i, data_entry k _)) os f r = r ≡ refused invalid_memory_value_type

pub closest-zero : (o : Option Written) → closest_of 0 o ≡ none
unfolding range_back
closest-zero none = refl
closest-zero (some m) = refl

-- The test `tx_idx > 0` changes nothing: no entry is below the first transaction.
pub closest_guarded :
    (n : TxIdx) (d : Entries) (l : MemoryLocationHash)
    → (if ltb 0 n then closest n d l else none) ≡ closest n d l
closest_guarded zero d l = sym (closest-zero (d l))
closest_guarded (suc n) d l = ground arith

fetched-got : (f : Fetched U256) (v : U256) → from_fetched f ≡ got v → f ≡ ok v
fetched-got (ok w) v e = ground arith
fetched-got (failed x) v e = cc

empty_or_last : (os : ReadOrigins) → (os ≡ []) ⊎ ((p : ReadOrigin) × (last_origin os ≡ some p))
empty_or_last [] = inl refl
empty_or_last (o ∷ os) = inr (last_origin-cons o os)

origin_eq_refl : (o : ReadOrigin) → origin_eq o o ≡ true
origin_eq_refl from_storage = refl
origin_eq_refl (from_mv_memory v) = ground arith

module _ {Code Bytecode : Type 0} where
  ne-got :
      {A : Type 0} {x : ReadError} {a : A} (db db' : VmDb Code Bytecode)
      → ◌≡◌ {A = Read A × VmDb Code Bytecode} (refused x, db) (got a, db')
      → ⊥
  ne-got {A} {x} {a} db db' e =
      let clash : refused x ≡ got a = ap (λ (t : Read A × VmDb Code Bytecode). t.0) e in cc

  push_then-IsChecked :
      (l : MemoryLocationHash) (o : ReadOrigin) (x : Read U256) (db : VmDb Code Bytecode)
      → IsChecked (origins_at db.read_set l) o x (push_then l o x (touch l db)).0
  unfolding push_origin
  push_then-IsChecked l o x db =
      let os = origins_at db.read_set l in
      rw (origins_at-set db.read_set l os) (elim (empty_or_last os) [
        | inl e ↦ rw e (inl (inl refl, refl))
        | inr (p, e) ↦ elim (Bool-cases (origin_eq p o)) [
          | inl q ↦ rw (e, q) (inl (inr (ap some (origin_eq_sound p o q)), refl))
          | inr q ↦
              rw (e, q)
                (inr (
                  p,
                  refl,
                  λ same.
                      ground (arith, q, subst (λ y. origin_eq p y ≡ true) same (origin_eq_refl p)),
                  refl,
                ))
        ]
      ])

  slot_from-IsAnswer :
      (l : MemoryLocationHash) (a : Address) (index : U256) (db : VmDb Code Bytecode)
      (c : Option (TxIdx × MemoryEntry))
      → IsAnswer c
          (origins_at db.read_set l)
          (db.storage.storage a index)
          (slot_from l a index (touch l db) c).0
  slot_from-IsAnswer l a index db none = push_then-IsChecked l _ _ db
  slot_from-IsAnswer l a index db (some (i, data_entry k (storage w))) =
      push_then-IsChecked l _ _ db
  slot_from-IsAnswer l a index db (some (i, estimate)) = refl
  slot_from-IsAnswer l a index db (some (i, data_entry k (basic w))) = refl
  slot_from-IsAnswer l a index db (some (i, data_entry k (code_hash w))) = refl
  slot_from-IsAnswer l a index db (some (i, data_entry k (lazy_recipient w))) = refl
  slot_from-IsAnswer l a index db (some (i, data_entry k (lazy_sender w))) = refl
  slot_from-IsAnswer l a index db (some (i, data_entry k self_destructed)) = refl

  -- A slot that is read has the value of the closest lower write, or what the storage answers if
  -- there is none, where no origin of the location was kept before or the last one kept is where the
  -- value comes from; where the last one is another, the read is inconsistent. An estimate blocks the
  -- reader, and an entry that is no slot is refused.
  pub read_storage-IsAnswer :
      (hash : MemoryLocation → MemoryLocationHash) (a : Address) (index : U256)
      (db : VmDb Code Bytecode)
      → IsAnswer
          (closest db.tx_idx db.mv_memory.entries (hash (storage_location a index)))
          (origins_at db.read_set (hash (storage_location a index)))
          (db.storage.storage a index)
          (read_storage hash a index db).0
  unfolding read_storage
  read_storage-IsAnswer hash a index db =
      let l = hash (storage_location a index) in
      rw (closest_guarded db.tx_idx db.mv_memory.entries l)
        (slot_from-IsAnswer l a index db (closest db.tx_idx db.mv_memory.entries l))

  -- A successful read has its value from the closest entry `c`, and pushed that origin.
  pub record Taken (l : MemoryLocationHash) (c : Option (TxIdx × MemoryEntry)) (f : Fetched U256)
      (v : U256) (db db' : VmDb Code Bytecode) : Type 0 where
    pub origin : ReadOrigin
    pub kept : ReadOrigins
    pub first : first_seen c ≡ some origin
    pub says : SlotSays c f v
    pub pushed : push_origin (origins_at db.read_set l) origin ≡ some kept
    pub after : db' ≡ record db { read_set = set_origins db.read_set l kept }

  push_then-got :
      (l : MemoryLocationHash) (o : ReadOrigin) (r : Read U256) (v : U256)
      (db db' : VmDb Code Bytecode)
      → push_then l o r (touch l db) ≡ (got v, db')
      → (r ≡ got v)
        × (qs : ReadOrigins) × (push_origin (origins_at db.read_set l) o ≡ some qs)
        × (db' ≡ record db { read_set = set_origins db.read_set l qs })
  push_then-got l o r v db db' e =
      let (qs, q, same, after) =
        after_push-got l r v (touch l db) db' (push_origin (origins_at (touch l db).read_set l) o)
          e in
      (
        same,
        qs,
        ap (λ x. push_origin x o) (sym (origins_at-set db.read_set l (origins_at db.read_set l)))
            ∙ q,
        after
            ∙ ap (λ x. record db { read_set = x })
                (set_origins_twice db.read_set l (origins_at db.read_set l) qs),
      )

  slot_from-Taken :
      (l : MemoryLocationHash) (a : Address) (index v : U256) (c : Option (TxIdx × MemoryEntry))
      (db db' : VmDb Code Bytecode)
      → slot_from l a index (touch l db) c ≡ (got v, db')
      → Taken l c (db.storage.storage a index) v db db'
  slot_from-Taken l a index v none db db' e =
      let (r, qs, q, after) = push_then-got l _ _ v db db' e in
      record {
        origin = from_storage;
        kept = qs;
        first = refl;
        says = fetched-got _ v r;
        pushed = q;
        after = after;
      }
  slot_from-Taken l a index v (some (i, data_entry k (storage w))) db db' e =
      let (r, qs, q, after) = push_then-got l _ _ v db db' e in
      record {
        origin = version_of i k;
        kept = qs;
        first = refl;
        says = ground (arith, r);
        pushed = q;
        after = after;
      }
  slot_from-Taken l a index v (some (i, estimate)) db db' e = absurd (ne-got _ _ e)
  slot_from-Taken l a index v (some (i, data_entry k (basic w))) db db' e = absurd (ne-got _ _ e)
  slot_from-Taken l a index v (some (i, data_entry k (code_hash w))) db db' e =
      absurd (ne-got _ _ e)
  slot_from-Taken l a index v (some (i, data_entry k (lazy_recipient w))) db db' e =
      absurd (ne-got _ _ e)
  slot_from-Taken l a index v (some (i, data_entry k (lazy_sender w))) db db' e =
      absurd (ne-got _ _ e)
  slot_from-Taken l a index v (some (i, data_entry k self_destructed)) db db' e =
      absurd (ne-got _ _ e)

  pub read_storage-Taken :
      (hash : MemoryLocation → MemoryLocationHash) (a : Address) (index v : U256)
      (db db' : VmDb Code Bytecode)
      → read_storage hash a index db ≡ (got v, db')
      → Taken
          (hash (storage_location a index))
          (closest db.tx_idx db.mv_memory.entries (hash (storage_location a index)))
          (db.storage.storage a index)
          v
          db
          db'
  unfolding read_storage
  read_storage-Taken hash a index v db db' e =
      let l = hash (storage_location a index) in
      slot_from-Taken l a index v (closest db.tx_idx db.mv_memory.entries l) db db' (
        ap (slot_from l a index (touch l db))
          (sym (closest_guarded db.tx_idx db.mv_memory.entries l))
        ∙ e)
