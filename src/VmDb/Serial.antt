-- ===== src/VmDb/Serial.antt =====
-- A block of transactions that read and write slots, executed in any order over the multi-version
-- memory, against their execution one after another: `VmDb` of crates/pevm/src/vm.rs with
-- `validate_read_locations` of crates/pevm/src/mv_memory.rs.
use mathlib.Core.Option
use mathlib.Core.Option.{some-injective}
use pevm.Base.{
  ℕ, zero, suc, ◌<◌, ◌≤◌, ◌≡◌, refl, sym, ap, ◌∙◌, subst, Bool, true, false, ◌&&◌, Option, none,
  some, [], ◌∷◌, arith, All, ◌==◌, ==_iff, Option-cases, Bool-cases, inl, inr, if◌then◌else◌,
}
use pevm.Types.{
  TxIdx, ReadSet, Address, U256, MemoryLocation, storage_location, MemoryLocationHash, MemoryValue,
  basic, code_hash, storage, lazy_recipient, lazy_sender, self_destructed, estimate, MemoryEntry,
  data_entry,
}
use pevm.MvMemory.{MvMemory, Written, check_read_set}
use pevm.MvMemory.Reads.{range_back-some, range_back-none, IsRead, check_read_set_iff}
use pevm.MvMemory.Record.{entry_at, entry_of, last_value}
use pevm.Storage.{Storage, ok, Fetched}
use pevm.VmDb.{VmDb, got, closest, closest_of, head_of}
use pevm.VmDb.Programs.{Program, SlotWrites, write_set, run, run_on}
use pevm.VmDb.Agreeing.{SameVersions, AllAgree}
use pevm.VmDb.Reexecution.{Sees, run-keeps, run-run_on}
use pevm.VmDb.Slots.{AllSingle}
use pevm.VmDb.SlotReads.{SlotSays, closest-zero}

-- A state of the slots.
abbrev pub Slots : Type 0
Slots = Address → U256 → U256

-- The last value written to a slot.
abbrev last_slot : SlotWrites → Address → U256 → Option U256
last_slot [] a index = none
last_slot (((b, y), v) ∷ ws) a index = elim (last_slot ws a index) [
  | some w ↦ some w
  | none ↦ if (b == a) && (y == index) then some v else none
]

abbrev value_or : U256 → Option U256 → U256
value_or v none = v
value_or v (some w) = w

abbrev pub overlay : SlotWrites → Slots → Slots
overlay ws state a index = value_or (state a index) (last_slot ws a index)

-- The state before transaction `n`, when the transactions are executed one after another.
pub sequential : (TxIdx → Program) → Slots → TxIdx → Slots
sequential programs base zero = base
sequential programs base (suc n) =
    let before = sequential programs base n in overlay (run_on (programs n) before) before

-- Distinct slots have distinct hashes.
abbrev pub SlotInjective : (MemoryLocation → MemoryLocationHash) → Type 0
SlotInjective hash =
    (a b : Address) (x y : U256)
    → hash (storage_location a x) ≡ hash (storage_location b y)
    → (a ≡ b) × (x ≡ y)

same_slot :
    (hash : MemoryLocation → MemoryLocationHash)
    → SlotInjective hash
    → (a b : Address) (x y : U256)
    → (hash (storage_location a x) == hash (storage_location b y)) ≡ ((a == b) && (x == y))
same_slot hash inj a b x y =
    elim (Bool-cases (hash (storage_location a x) == hash (storage_location b y))) [
      | inl q ↦ let (e, f) = inj a b x y ((==_iff _ _).0 q) in ground (arith, q, e, f)
      | inr q ↦ elim (Bool-cases ((a == b) && (x == y))) [
        | inl w ↦
            let e : a ≡ b = ground arith in
            let f : x ≡ y = ground arith in
            let g : hash (storage_location a x) ≡ hash (storage_location b y) =
              ap (λ z. hash (storage_location z x)) e ∙ ap (λ z. hash (storage_location b z)) f in
            ground (arith, q, g)
        | inr w ↦ q ∙ sym w
      ]
    ]

last_value-write_set :
    (hash : MemoryLocation → MemoryLocationHash)
    → SlotInjective hash
    → (ws : SlotWrites) (a : Address) (index : U256)
    → last_value (write_set hash ws) (hash (storage_location a index))
      ≡ Option.map storage (last_slot ws a index)
last_value-write_set hash inj [] a index = refl
last_value-write_set hash inj (((b, y), v) ∷ ws) a index =
    let later = last_value-write_set hash inj ws a index in
    let same = same_slot hash inj b a y index in
    elim (Option-cases (last_slot ws a index)) [
      | inl q ↦ rw (later, q, same) (if_some ((b == a) && (y == index)) v)
      | inr (w, q) ↦ rw (later, q) refl
    ]
  where
    if_some :
        (c : Bool) (v : U256)
        → (if c then some (storage v) else none) ≡ Option.map storage (if c then some v else none)
    if_some true v = refl
    if_some false v = refl

closest-written :
    (n : TxIdx) (o : Option Written) (k : ℕ) (value : MemoryValue)
    → entry_of o n ≡ some (data_entry k value)
    → closest_of (suc n) o ≡ some (n, data_entry k value)
closest-written n none k value e = cc
closest-written n (some m) k value e = ap head_of (range_back-some n m (data_entry k value) e)

closest-unwritten :
    (n : TxIdx) (o : Option Written) → entry_of o n ≡ none → closest_of (suc n) o ≡ closest_of n o
closest-unwritten n none e = refl
closest-unwritten n (some m) e = ap head_of (range_back-none n m e)

AllSingle-IsRead : (rs : ReadSet) → AllSingle rs → All (λ r. IsRead r.1) rs
AllSingle-IsRead [] f = tt
AllSingle-IsRead (r ∷ rs) f = (subst IsRead (sym f.0.1) tt, AllSingle-IsRead rs f.1)

abbrev entry_for : ℕ → Option U256 → Option MemoryEntry
entry_for k o = Option.map (data_entry k) (Option.map storage o)

SlotSays-transport :
    {c c' : Option (TxIdx × MemoryEntry)} {v w : U256} (f : Fetched U256)
    → c ≡ c'
    → v ≡ w
    → SlotSays c f v
    → SlotSays c' f w
SlotSays-transport {c'} {v} f p q s = subst (SlotSays c' f) q (subst (λ x. SlotSays x f v) p s)

ok_injective : (v w : U256) → ok v ≡ ok w → v ≡ w
ok_injective v w e = ground (arith, e)

SlotSays-unique :
    (c : Option (TxIdx × MemoryEntry)) (f : Fetched U256) (v w : U256)
    → SlotSays c f w
    → SlotSays c f v
    → v ≡ w
SlotSays-unique none f v w s t = ok_injective v w (sym t ∙ s)
SlotSays-unique (some (i, data_entry k (storage x))) f v w s t = sym t ∙ s
SlotSays-unique (some (i, data_entry k (basic x))) f v w s t = absurd s
SlotSays-unique (some (i, data_entry k (code_hash x))) f v w s t = absurd s
SlotSays-unique (some (i, data_entry k (lazy_recipient x))) f v w s t = absurd s
SlotSays-unique (some (i, data_entry k (lazy_sender x))) f v w s t = absurd s
SlotSays-unique (some (i, data_entry k self_destructed)) f v w s t = absurd s
SlotSays-unique (some (i, estimate)) f v w s t = absurd s

module _ {Code Bytecode : Type 0} (hash : MemoryLocation → MemoryLocationHash)
    (chain : Storage Code) (final : MvMemory Bytecode) where
  -- An execution of transaction `i`, each read over the memory of its time: it read and wrote slots,
  -- its origins pass the test of the validation on the final memory, and the final memory has what
  -- it wrote.
  pub record Validated (i : TxIdx) (p : Program) : Type 0 where
    pub memories : ℕ → MvMemory Bytecode
    pub before : VmDb Code Bytecode
    pub after : VmDb Code Bytecode
    pub writes : SlotWrites
    pub incarnation : ℕ
    pub index : before.tx_idx ≡ i
    pub on_chain : before.storage ≡ chain
    pub unread : before.read_set ≡ []
    pub ran : run hash p memories before ≡ (got writes, after)
    pub versions : (k : ℕ) → SameVersions (memories k).entries final.entries
    pub valid : check_read_set i final.entries after.read_set ≡ true
    pub recorded :
        (l : MemoryLocationHash)
        → entry_at final.entries l i
          ≡ Option.map (data_entry incarnation) (last_value (write_set hash writes) l)

  Validated-run_on :
      (i : TxIdx) (p : Program) (x : Validated i p) (state : Slots)
      → ((a : Address) (index : U256)
          → SlotSays
              (closest i final.entries (hash (storage_location a index)))
              (chain.storage a index)
              (state a index))
      → x.writes ≡ run_on p state
  Validated-run_on i p x state sees =
      let none_read : AllSingle x.before.read_set = subst AllSingle (sym x.unread) tt in
      let (single, _) = run-keeps hash p x.memories x.before x.after x.writes none_read x.ran in
      let agree : AllAgree i final.entries x.after.read_set =
        (check_read_set_iff i final.entries x.after.read_set
            (AllSingle-IsRead x.after.read_set single)).0
          x.valid in
      run-run_on hash p x.memories x.before x.after x.writes final.entries state none_read
        x.versions x.ran
        (subst (λ j. AllAgree j final.entries x.after.read_set) (sym x.index) agree)
        (subst (λ (y : TxIdx × Storage Code). Sees hash y.0 final.entries y.1 state)
          (sym (ap (λ j. (j, x.before.storage)) x.index ∙ ap (λ c. (i, c)) x.on_chain))
          (λ a index v says. SlotSays-unique _ _ v (state a index) (sees a index) says))

  module _ (inj : SlotInjective hash) (base : Slots)
      (stored : (a : Address) (index : U256) → chain.storage a index ≡ ok (base a index))
      (programs : TxIdx → Program) (n : ℕ)
      (validated : (i : TxIdx) → i < n → Validated i (programs i)) where
    sees_sequential :
        (i : TxIdx)
        → i ≤ n
        → (a : Address) (index : U256)
        → SlotSays
            (closest i final.entries (hash (storage_location a index)))
            (chain.storage a index)
            (sequential programs base i a index)
    unfolding sequential
    sees_sequential zero le a index =
        subst (λ c. SlotSays c (chain.storage a index) (base a index))
          (sym (closest-zero (final.entries (hash (storage_location a index))))) (stored a index)
    sees_sequential (suc i) le a index =
        let x = validated i (omega arith) in
        let same : x.writes ≡ run_on (programs i) (sequential programs base i) =
          Validated-run_on i (programs i) x (sequential programs base i)
            (sees_sequential i (omega arith)) in
        let l = hash (storage_location a index) in
        let here : entry_at final.entries l i
            ≡ Option.map (data_entry x.incarnation)
                (Option.map storage (last_slot x.writes a index)) =
          x.recorded l
          ∙ ap (Option.map (data_entry x.incarnation))
              (last_value-write_set hash inj x.writes a index) in
        let kept : value_or (sequential programs base i a index) (last_slot x.writes a index)
            ≡ sequential programs base (suc i) a index =
          ap (λ ws. value_or (sequential programs base i a index) (last_slot ws a index)) same in
        elim (Option-cases (last_slot x.writes a index)) [
          | inl q ↦
              SlotSays-transport (chain.storage a index)
                (sym
                  (closest-unwritten i (final.entries l) (here ∙ ap (entry_for x.incarnation) q)))
                (sym (ap (value_or _) q) ∙ kept) (sees_sequential i (omega arith) a index)
          | inr (w, q) ↦
              SlotSays-transport (chain.storage a index)
                (sym (
                  closest-written i (final.entries l) x.incarnation (storage w)
                    (here ∙ ap (entry_for x.incarnation) q)))
                (sym (ap (value_or _) q) ∙ kept) refl
        ]

    -- Let distinct slots have distinct hashes, let the storage answer every slot, and let each of
    -- the transactions of a block have been executed, each of its reads on whatever the memory was at
    -- that time, so that its origins pass the validation's test on the final memory, that memory has
    -- its writes, and it has for the versions read the values they had. Then each transaction's
    -- writes are those it has when the block is executed one transaction after another, and a read
    -- behind the whole block, from the final memory or else the storage, gives each slot as that
    -- execution leaves it.
    pub validated_is_serial :
        (i : TxIdx) (lt : i < n) (a : Address) (index : U256)
        → ((validated i lt).writes ≡ run_on (programs i) (sequential programs base i))
          × SlotSays
              (closest n final.entries (hash (storage_location a index)))
              (chain.storage a index)
              (sequential programs base n a index)
    validated_is_serial i lt a index = (
      Validated-run_on i (programs i) (validated i lt) (sequential programs base i)
          (sees_sequential i (omega arith)),
      sees_sequential n (omega arith) a index,
    )
