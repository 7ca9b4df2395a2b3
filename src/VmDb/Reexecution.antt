-- ===== src/VmDb/Reexecution.antt =====
-- What a program read from the memories of its time, when its recorded reads are valid in another
-- memory: `VmDb` of crates/pevm/src/vm.rs with the validation of crates/pevm/src/mv_memory.rs.
use pevm.Base.{
  ℕ, suc, ◌≡◌, refl, sym, ap, ◌∙◌, subst, some, [], ◌∷◌, arith, ◌==◌, ==_iff, Bool-cases, inl, inr,
}
use pevm.Types.{
  TxIdx, Address, U256, MemoryLocation, storage_location, MemoryLocationHash, ReadOrigin,
  ReadOrigins, MemoryEntry,
}
use pevm.Base.{Option}
use pevm.MvMemory.{MvMemory, Entries}
use pevm.Storage.{lookup, Storage}
use pevm.VmDb.{VmDb, Read, got, refused, closest, read_storage, set_origins}
use pevm.VmDb.Programs.{Program, get, finish, SlotWrites, after_read, run, run_on, move_to}
use pevm.VmDb.Slots.{AllSingle, AllSingle-set, push_origin-Single, lookup-set, lookup-set_other}
use pevm.VmDb.SlotReads.{SlotSays, first_seen, read_storage-Taken}
use pevm.VmDb.Agreeing.{Agrees-first, SameVersions, same_closest, AllAgree, AllAgree-lookup}

-- Reading slots below transaction `n` in `d` gives the values of a state.
abbrev pub Sees :
    {Code : Type 0}
    → (MemoryLocation → MemoryLocationHash)
    → TxIdx
    → Entries
    → Storage Code
    → (Address → U256 → U256)
    → Type 0
Sees hash n d chain state =
    (a : Address) (index v : U256)
    → SlotSays (closest n d (hash (storage_location a index))) (chain.storage a index) v
    → v ≡ state a index

module _ {Code Bytecode : Type 0} where
  -- A read of slot location `l`, where each location has one origin, that found entry `c`.
  pub record Slot (l : MemoryLocationHash) (db db' : VmDb Code Bytecode)
      (c : Option (TxIdx × MemoryEntry)) : Type 0 where
    pub origin : ReadOrigin
    pub first : first_seen c ≡ some origin
    pub single : AllSingle db'.read_set
    pub there : lookup db'.read_set l ≡ some (origin ∷ [])
    pub keeps :
        (k : MemoryLocationHash) (os : ReadOrigins)
        → lookup db.read_set k ≡ some os
        → lookup db'.read_set k ≡ some os
    pub index : db'.tx_idx ≡ db.tx_idx
    pub chain : db'.storage ≡ db.storage

  read_storage-Slot :
      (hash : MemoryLocation → MemoryLocationHash) (a : Address) (index v : U256)
      (db db' : VmDb Code Bytecode)
      → AllSingle db.read_set
      → read_storage hash a index db ≡ (got v, db')
      → SlotSays
          (closest db.tx_idx db.mv_memory.entries (hash (storage_location a index)))
          (db.storage.storage a index)
          v
        × Slot
            (hash (storage_location a index))
            db
            db'
            (closest db.tx_idx db.mv_memory.entries (hash (storage_location a index)))
  read_storage-Slot hash a index v db db' f e =
      let l = hash (storage_location a index) in
      let t = read_storage-Taken hash a index v db db' e in
      let (one, old) = push_origin-Single db.read_set l t.origin t.kept f t.pushed in
      let reads : db'.read_set ≡ set_origins db.read_set l (t.origin ∷ []) =
        ap (λ (x : VmDb Code Bytecode). x.read_set) t.after ∙ ap (set_origins db.read_set l) one in
      (
        t.says,
        record {
          origin = t.origin;
          first = t.first;
          single =
              subst AllSingle (sym reads)
                (AllSingle-set db.read_set l (t.origin ∷ []) f (t.origin, refl));
          there = ap (λ x. lookup x l) reads ∙ lookup-set db.read_set l (t.origin ∷ []);
          keeps = λ k os h. ap (λ x. lookup x k) reads ∙ elim (Bool-cases (l == k)) [
            | inl q ↦
                let same : l ≡ k = (==_iff l k).0 q in
                subst (λ x. lookup (set_origins db.read_set l (t.origin ∷ [])) x ≡ some os) same
                  (lookup-set db.read_set l (t.origin ∷ [])
                    ∙ ap some
                        (sym (old os (subst (λ x. lookup db.read_set x ≡ some os) (sym same) h))))
            | inr q ↦
                lookup-set_other db.read_set l k (t.origin ∷ []) (λ s. ground (arith, q, s)) ∙ h
          ];
          index = ap (λ (x : VmDb Code Bytecode). x.tx_idx) t.after;
          chain = ap (λ (x : VmDb Code Bytecode). x.storage) t.after;
        },
      )

  after_read-got :
      (r : Read U256 × VmDb Code Bytecode)
      (next : U256 → VmDb Code Bytecode → Read SlotWrites × VmDb Code Bytecode) (ws : SlotWrites)
      (db' : VmDb Code Bytecode)
      → after_read r next ≡ (got ws, db')
      → (v : U256) × (mid : VmDb Code Bytecode) × (r ≡ (got v, mid)) × (next v mid ≡ (got ws, db'))
  after_read-got (got v, db) next ws db' e = (v, db, refl, e)
  after_read-got (refused x, db) next ws db' e =
      let clash : refused x ≡ got ws = ap (λ (t : Read SlotWrites × VmDb Code Bytecode). t.0) e in
      absurd (cc)

  -- What a program has read stays in its read set, one origin for each location.
  pub run-keeps :
      (hash : MemoryLocation → MemoryLocationHash) (p : Program) (memories : ℕ → MvMemory Bytecode)
      (db db' : VmDb Code Bytecode) (ws : SlotWrites)
      → AllSingle db.read_set
      → run hash p memories db ≡ (got ws, db')
      → AllSingle db'.read_set
        × ((k : MemoryLocationHash) (os : ReadOrigins)
            → lookup db.read_set k ≡ some os
            → lookup db'.read_set k ≡ some os)
  unfolding run
  run-keeps hash (finish us) memories db db' ws f e =
      let same : db ≡ db' = ap (λ (t : Read SlotWrites × VmDb Code Bytecode). t.1) e in
      (
        subst (λ (x : VmDb Code Bytecode). AllSingle x.read_set) same f,
        λ k os h. subst (λ (x : VmDb Code Bytecode). lookup x.read_set k ≡ some os) same h,
      )
  run-keeps hash (get a index next) memories db db' ws f e =
      let (v, mid, r, rest) =
        after_read-got (read_storage hash a index (move_to hash (memories 0) db)) _ ws db' e in
      let (_, s) = read_storage-Slot hash a index v (move_to hash (memories 0) db) mid f r in
      let (g, k) = run-keeps hash (next v) (λ n. memories (suc n)) mid db' ws s.single rest in
      (g, λ l os h. k l os (s.keeps l os h))

  -- A program whose origins agree with memory `d` wrote what it writes from what `d` shows.
  pub run-run_on :
      (hash : MemoryLocation → MemoryLocationHash) (p : Program) (memories : ℕ → MvMemory Bytecode)
      (db db' : VmDb Code Bytecode) (ws : SlotWrites) (d : Entries) (state : Address → U256 → U256)
      → AllSingle db.read_set
      → ((n : ℕ) → SameVersions (memories n).entries d)
      → run hash p memories db ≡ (got ws, db')
      → AllAgree db.tx_idx d db'.read_set
      → Sees hash db.tx_idx d db.storage state
      → ws ≡ run_on p state
  unfolding run run_on
  run-run_on hash (finish us) memories db db' ws d state f s e agree sees =
      let same : got us ≡ got ws = ap (λ (t : Read SlotWrites × VmDb Code Bytecode). t.0) e in
      ground (arith, same)
  run-run_on hash (get a index next) memories db db' ws d state f s e agree sees =
      let l = hash (storage_location a index) in
      let n = db.tx_idx in
      let (v, mid, r, rest) =
        after_read-got (read_storage hash a index (move_to hash (memories 0) db)) _ ws db' e in
      let (says, t) = read_storage-Slot hash a index v (move_to hash (memories 0) db) mid f r in
      let (_, keeps) = run-keeps hash (next v) (λ k. memories (suc k)) mid db' ws t.single rest in
      let now : first_seen (closest n d l) ≡ some t.origin = Agrees-first t.origin [] n (d l) (
        AllAgree-lookup n d db'.read_set l (t.origin ∷ []) agree
          (keeps l (t.origin ∷ []) t.there)) in
      let same : closest n d l ≡ closest n (memories 0).entries l =
        same_closest n (memories 0).entries d l t.origin (s 0) (closest n (memories 0).entries l)
          (closest n d l) refl refl t.first now in
      let value : v ≡ state a index =
        sees a index v (subst (λ c. SlotSays c (db.storage.storage a index) v) (sym same) says) in
      run-run_on hash (next v) (λ k. memories (suc k)) mid db' ws d state t.single (λ k. s (suc k))
        rest (subst (λ i. AllAgree i d db'.read_set) (sym t.index) agree)
        (subst (λ (x : TxIdx × Storage Code). Sees hash x.0 d x.1 state)
          (sym (ap (λ i. (i, mid.storage)) t.index ∙ ap (λ x. (n, x)) t.chain)) sees)
      ∙ ap (λ x. run_on (next x) state) value
