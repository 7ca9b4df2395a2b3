-- ===== src/VmDb/Basic/Blocking.antt =====
-- The transactions that a read of `VmDb` in crates/pevm/src/vm.rs is blocked by: the premise under
-- which crates/pevm/src/pevm.rs calls `add_dependency`.
use mathlib.Core.Option
use pevm.Base.{
  zero, suc, ◌-◌, ◌<◌, ◌≡◌, subst, Bool, true, false, Option, none, some, List, [], ◌∷◌, arith, ltb,
  lt→ltb, ◌==◌, not, ◌&&◌, if◌then◌else◌, All,
}
use pevm.Types.{
  TxIdx, Address, U256, B256, MemoryLocation, storage_location, MemoryLocationHash, basic,
  code_hash, storage, lazy_recipient, lazy_sender, self_destructed, MemoryEntry, data_entry,
  estimate, ReadOrigins, from_storage, AccountBasic,
}
use pevm.MvMemory.{Written, range_back}
use pevm.Storage.{Fetched, ok, failed}
use pevm.VmDb.{
  VmDb, Read, got, refused, ReadError, blocking, after_push, push_origin, touch, version_of,
  closest, closest_of, head_of, slot_from, read_storage, from_fetched, origins_at,
}
use pevm.VmDb.{inconsistent_read, invalid_nonce, get_code_hash, hash_basic, code_hash_from}
use pevm.VmDb.Basic.{
  Lazy, Evaluated, stuck, absolute, relative, evaluate, is_consistent, push_new, add_recipient,
  add_sender, start_lazy, storage_origins, read_basic, at_location, entries_below, answer, stored,
  finished, checked, with_code, registered, code_at, keep_origins, is_to, Answer, or_stored,
  from_storage_with, map_read, apply_lazy,
}

abbrev Below : TxIdx → List (TxIdx × MemoryEntry) → Type 0
Below n = All (λ e. e.0 < n)

Below-suc : (n : TxIdx) (es : List (TxIdx × MemoryEntry)) → Below n es → Below (suc n) es
Below-suc n [] h = tt
Below-suc n (e ∷ es) h = (omega (arith, h.0), Below-suc n es h.1)

range_back-Below : (n : TxIdx) (m : Written) → Below n (range_back n m)
unfolding range_back
range_back-Below zero m = tt
range_back-Below (suc n) m =
    let lower = Below-suc n (range_back n m) (range_back-Below n m) in
    elim (m n)
      as (λ o.
        Below (suc n) (elim o [ none ↦ range_back n m | some e ↦ (n, e) ∷ range_back n m ])) [
          | none ↦ lower
          | some e ↦ (omega arith, lower)
        ]

-- The transaction that an error names as blocking is below `n`.
abbrev pub LowerError : TxIdx → ReadError → Type 0
LowerError n (blocking i) = i < n
LowerError n _ = Unit

abbrev pub Lower {ℓ} : {A : Type ℓ} → TxIdx → Read A → Type 0
Lower n (got a) = Unit
Lower n (refused e) = LowerError n e

Lower-fetched {ℓ} : {A : Type ℓ} (n : TxIdx) (f : Fetched A) → Lower n (from_fetched f)
Lower-fetched n (ok a) = tt
Lower-fetched n (failed e) = tt

abbrev BelowHead : TxIdx → Option (TxIdx × MemoryEntry) → Type 0
BelowHead n none = Unit
BelowHead n (some e) = e.0 < n

closest-Below : (n : TxIdx) (o : Option Written) → BelowHead n (closest_of n o)
closest-Below n none = tt
closest-Below n (some m) = head_of-Below (range_back n m) (range_back-Below n m)
  where
    head_of-Below : (es : List (TxIdx × MemoryEntry)) → Below n es → BelowHead n (head_of es)
    head_of-Below [] h = tt
    head_of-Below (e ∷ es) h = h.0

abbrev LowerEnd : TxIdx → Evaluated → Type 0
LowerEnd n (stuck e) = LowerError n e
LowerEnd n _ = Unit

guarded-Lower :
    (n : TxIdx) (b : Bool) (r : Evaluated)
    → LowerEnd n r
    → LowerEnd n (elim b as (λ _. Evaluated) [ false ↦ stuck inconsistent_read | true ↦ r ])
guarded-Lower n true r h = h
guarded-Lower n false r h = tt

evaluate-Lower :
    (n : TxIdx) (prev : ReadOrigins) (z : Lazy) (es : List (TxIdx × MemoryEntry))
    → Below n es
    → LowerEnd n (evaluate prev z es)
unfolding evaluate
evaluate-Lower n prev z [] h = tt
evaluate-Lower n prev z ((i, estimate) ∷ es) h = h.0
evaluate-Lower n prev z ((i, data_entry k (lazy_recipient a)) ∷ es) h =
    guarded-Lower n (is_consistent prev z (version_of i k)) _
      (evaluate-Lower n prev (add_recipient a (push_new (version_of i k) z)) es h.1)
evaluate-Lower n prev z ((i, data_entry k (lazy_sender s)) ∷ es) h =
    guarded-Lower n (is_consistent prev z (version_of i k)) _
      (evaluate-Lower n prev (add_sender s (push_new (version_of i k) z)) es h.1)
evaluate-Lower n prev z ((i, data_entry k (basic a)) ∷ es) h =
    guarded-Lower n (is_consistent prev z (version_of i k)) _ tt
evaluate-Lower n prev z ((i, data_entry k _) ∷ es) h =
    guarded-Lower n (is_consistent prev z (version_of i k)) _ tt

BelowHead-if :
    (n : TxIdx) (b : Bool) (c : Option (TxIdx × MemoryEntry))
    → BelowHead n c
    → BelowHead n (if b then c else none)
BelowHead-if n true c h = h
BelowHead-if n false c h = tt

Lower-if {ℓ} :
    {A B : Type ℓ} (n : TxIdx) (b : Bool) (x y : Read A × B)
    → Lower n x.0
    → Lower n y.0
    → Lower n (if b then x else y).0
Lower-if n true x y h k = h
Lower-if n false x y h k = k

module _ {Code Bytecode : Type 0} where
  after_push-Lower {ℓ} :
      {A : Type ℓ} (n : TxIdx) (l : MemoryLocationHash) (r : Read A) (db : VmDb Code Bytecode)
      (x : Option ReadOrigins)
      → Lower n r
      → Lower n (after_push l db r x).0
  after_push-Lower n l r db none h = tt
  after_push-Lower n l r db (some os) h = h

  slot_from-Lower :
      (l : MemoryLocationHash) (a : Address) (index : U256) (n : TxIdx) (db : VmDb Code Bytecode)
      (c : Option (TxIdx × MemoryEntry))
      → BelowHead n c
      → Lower n (slot_from l a index db c).0
  slot_from-Lower l a index n db none h =
      after_push-Lower n l _ db (push_origin (origins_at db.read_set l) from_storage)
        (Lower-fetched n (db.storage.storage a index))
  slot_from-Lower l a index n db (some (i, data_entry k (storage v))) h =
      after_push-Lower n l _ db (push_origin (origins_at db.read_set l) (version_of i k)) tt
  slot_from-Lower l a index n db (some (i, estimate)) h = h
  slot_from-Lower l a index n db (some (i, data_entry k (basic v))) h = tt
  slot_from-Lower l a index n db (some (i, data_entry k (code_hash v))) h = tt
  slot_from-Lower l a index n db (some (i, data_entry k (lazy_recipient v))) h = tt
  slot_from-Lower l a index n db (some (i, data_entry k (lazy_sender v))) h = tt
  slot_from-Lower l a index n db (some (i, data_entry k self_destructed)) h = tt

  code_hash_from-Lower :
      (l : MemoryLocationHash) (a : Address) (n : TxIdx) (db : VmDb Code Bytecode)
      (c : Option (TxIdx × MemoryEntry))
      → Lower n (code_hash_from l a db c).0
  code_hash_from-Lower l a n db none =
      after_push-Lower n l _ db (push_origin (origins_at db.read_set l) from_storage)
        (Lower-fetched n (db.storage.code_hash a))
  code_hash_from-Lower l a n db (some (i, data_entry k (code_hash v))) =
      after_push-Lower n l _ db (push_origin (origins_at db.read_set l) (version_of i k)) tt
  code_hash_from-Lower l a n db (some (i, data_entry k self_destructed)) = tt
  code_hash_from-Lower l a n db (some (i, e)) =
      after_push-Lower n l _ db (push_origin (origins_at db.read_set l) from_storage)
        (Lower-fetched n (db.storage.code_hash a))

  read_storage-Lower :
      (hash : MemoryLocation → MemoryLocationHash) (a : Address) (index : U256)
      (db : VmDb Code Bytecode)
      → Lower db.tx_idx (read_storage hash a index db).0
  unfolding read_storage
  read_storage-Lower hash a index db =
      let l = hash (storage_location a index) in
      let c = closest db.tx_idx db.mv_memory.entries l in
      slot_from-Lower l a index db.tx_idx (touch l db) (if ltb 0 db.tx_idx then c else none) (
        BelowHead-if db.tx_idx (ltb 0 db.tx_idx) c
          (closest-Below db.tx_idx (db.mv_memory.entries l)))

module _ {Code Bytecode : Type 0} (hash : MemoryLocation → MemoryLocationHash) (keccak_empty : B256)
    (from_code : Code → Bytecode) where
  entries_below-Below :
      (l : MemoryLocationHash) (db : VmDb Code Bytecode)
      → Below db.tx_idx (entries_below hash keccak_empty from_code db l)
  entries_below-Below l db =
      elim (db.mv_memory.entries l)
        as (λ o. Below db.tx_idx (elim o [ none ↦ [] | some m ↦ range_back db.tx_idx m ])) [
          | none ↦ tt
          | some m ↦ range_back-Below db.tx_idx m
        ]

  code_at-Lower :
      (n : TxIdx) (db : VmDb Code Bytecode) (h : Option B256)
      → Lower n (code_at hash keccak_empty from_code db h)
  code_at-Lower n db none = tt
  code_at-Lower n db (some h) = stored_code-Lower (db.mv_memory.new_bytecodes h)
    where
      fetched-Lower :
          (f : Fetched (Option Code)) → Lower n (map_read (Option.map from_code) (from_fetched f))
      fetched-Lower (ok c) = tt
      fetched-Lower (failed e) = tt

      stored_code-Lower :
          (c : Option Bytecode) → Lower n (or_stored hash keccak_empty from_code db h c)
      stored_code-Lower (some c) = tt
      stored_code-Lower none = fetched-Lower (db.storage.code_by_hash h)

  with_code-Lower :
      (n : TxIdx) (l : MemoryLocationHash) (account : AccountBasic)
      (r : Read (Option B256) × VmDb Code Bytecode)
      → Lower n r.0
      → Lower n (with_code hash keccak_empty from_code l account r).0
  with_code-Lower n l account (refused e, db) h = h
  with_code-Lower n l account (got c, db) h =
      registered-Lower (code_at hash keccak_empty from_code db c) (code_at-Lower n db c)
    where
      registered-Lower :
          (r : Read (Option Bytecode))
          → Lower n r
          → Lower n (registered hash keccak_empty from_code l account c r db).0
      registered-Lower (got code) q = tt
      registered-Lower (refused e) q = q

  get_code_hash-Lower :
      (n : TxIdx) (a : Address) (db : VmDb Code Bytecode) → Lower n (get_code_hash hash a db).0
  unfolding get_code_hash
  get_code_hash-Lower n a db =
      let l = hash (MemoryLocation.code_hash_location a) in
      code_hash_from-Lower l a n (touch l db) (closest db.tx_idx db.mv_memory.entries l)

  nonce_error-Lower :
      (n : TxIdx) → LowerError n (if ltb 0 n then blocking (n - 1) else invalid_nonce n)
  nonce_error-Lower zero = tt
  nonce_error-Lower (suc n) = rw (lt→ltb 0 (suc n) (omega arith)) (omega arith)

  checked-Lower :
      (a : Address) (l : MemoryLocationHash) (account : AccountBasic) (db : VmDb Code Bytecode)
      → Lower db.tx_idx (checked hash keccak_empty from_code a l account db).0
  checked-Lower a l account db =
      let n = db.tx_idx in
      Lower-if n (db.has_nonce && (l == db.from_hash) && not (db.tx.nonce == account.nonce)) _ _
        (nonce_error-Lower n)
        (with_code-Lower n l account _ (
          Lower-if n (is_to hash keccak_empty from_code l db.to_hash) (got db.to_code_hash, db)
            (get_code_hash hash a db) tt (get_code_hash-Lower n a db)))

  finished-Lower :
      (a : Address) (l : MemoryLocationHash) (z : Lazy) (o : Option AccountBasic)
      (db : VmDb Code Bytecode)
      → Lower db.tx_idx (finished hash keccak_empty from_code a l z o db).0
  finished-Lower a l z none db = tt
  finished-Lower a l z (some account) db = checked-Lower a l (apply_lazy z account) db

  keep_origins-tx_idx :
      (l : MemoryLocationHash) (os : ReadOrigins) (db : VmDb Code Bytecode)
      → (keep_origins hash keccak_empty from_code l os db).tx_idx ≡ db.tx_idx
  keep_origins-tx_idx l os db = ground arith

  kept-Lower :
      (a : Address) (l : MemoryLocationHash) (z : Lazy) (o : Option AccountBasic) (os : ReadOrigins)
      (db : VmDb Code Bytecode)
      → Lower db.tx_idx
          (finished hash keccak_empty from_code a l z o
            (keep_origins hash keccak_empty from_code l os db)).0
  kept-Lower a l z o os db =
      let db' = keep_origins hash keccak_empty from_code l os db in
      subst (λ n. Lower n (finished hash keccak_empty from_code a l z o db').0)
        (keep_origins-tx_idx l os db) (finished-Lower a l z o db')

  answer-Lower :
      (a : Address) (l : MemoryLocationHash) (r : Evaluated) (db : VmDb Code Bytecode)
      → LowerEnd db.tx_idx r
      → Lower db.tx_idx (answer hash keccak_empty from_code a l r db).0
  answer-Lower a l (stuck e) db h = h
  answer-Lower a l (absolute account z) db h = kept-Lower a l z (some account) z.new_origins db
  answer-Lower a l (relative z) db h =
      from_storage-Lower (storage_origins (origins_at db.read_set l) z)
    where
      stored-Lower :
          (os : ReadOrigins) (f : Fetched (Option AccountBasic))
          → Lower db.tx_idx (stored hash keccak_empty from_code a l z os f db).0
      stored-Lower os (ok account) = kept-Lower a l z _ os db
      stored-Lower os (failed e) = tt

      from_storage-Lower :
          (x : Option ReadOrigins)
          → Lower db.tx_idx (from_storage_with hash keccak_empty from_code a l z x db).0
      from_storage-Lower none = tt
      from_storage-Lower (some os) = stored-Lower os (db.storage.basic a)

  abbrev pub LowerAnswer :
      TxIdx
      → Option (Answer {Code = Code} {Bytecode = Bytecode} hash keccak_empty from_code)
      → Type 0
  LowerAnswer n none = Unit
  LowerAnswer n (some r) = Lower n r.0

  at_location-Lower :
      (a : Address) (l : MemoryLocationHash) (db : VmDb Code Bytecode)
      → Lower db.tx_idx (at_location hash keccak_empty from_code a l db).0
  at_location-Lower a l db =
      let n = db.tx_idx in
      Lower-if n (db.is_lazy && (l == db.from_hash)) _ _ tt (
        Lower-if n (db.is_lazy && is_to hash keccak_empty from_code l db.to_hash) _ _ tt (
          answer-Lower a l
            (evaluate (origins_at db.read_set l) start_lazy
              (entries_below hash keccak_empty from_code db l))
            (touch l db)
            (evaluate-Lower n (origins_at db.read_set l) start_lazy _ (entries_below-Below l db))))

  -- A slot read or an account read that is blocked names a transaction below the reader.
  pub blocked_by-Lower :
      (a : Address) (index : U256) (db : VmDb Code Bytecode)
      → Lower db.tx_idx (read_storage hash a index db).0
        × LowerAnswer db.tx_idx (read_basic hash keccak_empty from_code a db)
  unfolding read_basic
  blocked_by-Lower a index db = (read_storage-Lower hash a index db, at_any (hash_basic hash a db))
    where
      at_any :
          (x : Option MemoryLocationHash)
          → LowerAnswer db.tx_idx
              (Option.map (λ l. at_location hash keccak_empty from_code a l db) x)
      at_any none = tt
      at_any (some l) = at_location-Lower a l db
