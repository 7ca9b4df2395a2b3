-- ===== src/Chains/Estimates.antt =====
-- The memory that crates/pevm/src/chain/rise.rs builds for a block: every transaction that is no
-- deposit is estimated to write to the beneficiary and to the fee recipients.

use pevm.Base.{
  suc, ◌≡◌, refl, sym, ap, ◌∙◌, Bool, true, false, ◌&&◌, ◌||◌, not, none, some, List, [], ◌∷◌, map,
  arith, contains, contains-append, Nodup, Bool-cases, inl, inr, ◌==◌, ==_iff, if◌then◌else◌,
  update,
}
use pevm.Types.{TxIdx, Address, MemoryLocationHash, estimate}
use pevm.MvMemory.{Entries, estimates, insert_estimates, new}
use pevm.MvMemory.Initial.{estimates-entry}
use pevm.MvMemory.Record.{entry_at}
use pevm.Rewards.{FeeRecipients}
use pevm.Chains.{push_index, estimated_locations, rise_memory}

abbrev Table : Type 0
Table = List (MemoryLocationHash × List TxIdx)

-- Whether the table has an index at a location.
abbrev listed : Table → MemoryLocationHash → TxIdx → Bool
listed [] k j = false
listed ((l, js) ∷ m) k j = ((l == k) && contains js j) || listed m k j

abbrev keys : Table → List MemoryLocationHash
keys = map (λ e. e.0)

listed-absent :
    (m : Table) (k : MemoryLocationHash) (j : TxIdx)
    → contains (keys m) k ≡ false
    → listed m k j ≡ false
listed-absent [] k j h = refl
listed-absent ((l, js) ∷ m) k j h = ground (arith, listed-absent m k j (ground arith))

insert_estimates-entry :
    (m : Table) (d : Entries) (k : MemoryLocationHash) (j : TxIdx)
    → Nodup (keys m)
    → entry_at (insert_estimates m d) k j ≡ (
        if listed m k j
        then some estimate
        else (if contains (keys m) k then none else entry_at d k j))
unfolding insert_estimates
insert_estimates-entry [] d k j h = refl
insert_estimates-entry ((l, js) ∷ m) d k j h = elim (Bool-cases (l == k)) [
  | inl q ↦
      let same : l ≡ k = (==_iff l k).0 q in
      let absent : contains (keys m) k ≡ false = ap (contains (keys m)) (sym same) ∙ h.0 in
      insert_estimates-entry m (update d l (some (estimates js))) k j h.1
      ∙ rw (listed-absent m k j absent, absent, q) (estimates-entry js j ∙ ground arith)
  | inr q ↦ insert_estimates-entry m (update d l (some (estimates js))) k j h.1 ∙ rw q refl
]

push_index-keys :
    (i : TxIdx) (l : MemoryLocationHash) (m : Table) (k : MemoryLocationHash)
    → contains (keys (push_index i l m)) k ≡ contains (keys m) k || (l == k)
unfolding push_index
push_index-keys i l [] k = ground arith
push_index-keys i l ((a, js) ∷ m) k = ground (arith, push_index-keys i l m k)

push_index-Nodup :
    (i : TxIdx) (l : MemoryLocationHash) (m : Table)
    → Nodup (keys m)
    → Nodup (keys (push_index i l m))
unfolding push_index
push_index-Nodup i l [] h = (refl, tt)
push_index-Nodup i l ((a, js) ∷ m) h = elim (Bool-cases (a == l)) [
  | inl q ↦ rw (q, push_index) h
  | inr q ↦
      rw (q, push_index) (ground (arith, push_index-keys i l m a, h.0), push_index-Nodup i l m h.1)
]

push_index-listed :
    (i : TxIdx) (l : MemoryLocationHash) (m : Table) (k : MemoryLocationHash) (j : TxIdx)
    → listed (push_index i l m) k j ≡ listed m k j || ((l == k) && (i == j))
unfolding push_index
push_index-listed i l [] k j = ground arith
push_index-listed i l ((a, js) ∷ m) k j =
    ground (arith, push_index-listed i l m k j, contains-append js (i ∷ []) j)

-- Whether transaction `j` of those from `i` on is no deposit.
abbrev pub pays : TxIdx → List Bool → TxIdx → Bool
pays i [] j = false
pays i (is_deposit ∷ txs) j = (not is_deposit && (i == j)) || pays (suc i) txs j

module _ (fees : FeeRecipients) (beneficiary : MemoryLocationHash) where
  -- A location that takes fees.
  abbrev pub takes_fees : MemoryLocationHash → Bool
  takes_fees k =
      (beneficiary == k)
      || ((fees.base_fee == k) || ((fees.l1_fee == k) || (fees.operator_fee == k)))

  abbrev push_all : TxIdx → Table → Table
  push_all i m =
      push_index i fees.operator_fee
        (push_index i fees.l1_fee (push_index i fees.base_fee (push_index i beneficiary m)))

  push_all-listed :
      (i : TxIdx) (m : Table) (k : MemoryLocationHash) (j : TxIdx)
      → listed (push_all i m) k j ≡ listed m k j || (takes_fees k && (i == j))
  push_all-listed i m k j =
      let m₁ = push_index i beneficiary m in
      let m₂ = push_index i fees.base_fee m₁ in
      let m₃ = push_index i fees.l1_fee m₂ in
      ground (
        arith,
        push_index-listed i beneficiary m k j,
        push_index-listed i fees.base_fee m₁ k j,
        push_index-listed i fees.l1_fee m₂ k j,
        push_index-listed i fees.operator_fee m₃ k j,
      )

  push_all-Nodup : (i : TxIdx) (m : Table) → Nodup (keys m) → Nodup (keys (push_all i m))
  push_all-Nodup i m h = push_index-Nodup i fees.operator_fee _ (
      push_index-Nodup i fees.l1_fee _
        (push_index-Nodup i fees.base_fee _ (push_index-Nodup i beneficiary m h)))

  estimated_locations-listed :
      (i : TxIdx) (txs : List Bool) (m : Table) (k : MemoryLocationHash) (j : TxIdx)
      → listed (estimated_locations fees beneficiary i txs m) k j
        ≡ listed m k j || (takes_fees k && pays i txs j)
  unfolding estimated_locations
  estimated_locations-listed i [] m k j = ground arith
  estimated_locations-listed i (true ∷ txs) m k j = estimated_locations-listed (suc i) txs m k j
  estimated_locations-listed i (false ∷ txs) m k j =
      estimated_locations-listed (suc i) txs (push_all i m) k j
      ∙ rw (push_all-listed i m k j)
          (distributed (listed m k j) (takes_fees k) (i == j) (pays (suc i) txs j))
    where
      distributed : (a t b c : Bool) → (a || (t && b)) || (t && c) ≡ a || (t && (b || c))
      distributed true t b c = refl
      distributed false true b c = refl
      distributed false false b c = refl

  estimated_locations-Nodup :
      (i : TxIdx) (txs : List Bool) (m : Table)
      → Nodup (keys m)
      → Nodup (keys (estimated_locations fees beneficiary i txs m))
  unfolding estimated_locations
  estimated_locations-Nodup i [] m h = h
  estimated_locations-Nodup i (true ∷ txs) m h = estimated_locations-Nodup (suc i) txs m h
  estimated_locations-Nodup i (false ∷ txs) m h =
      estimated_locations-Nodup (suc i) txs (push_all i m) (push_all-Nodup i m h)

  -- The memory of a RISE block holds, at the beneficiary's location and at those of the three fee
  -- recipients, an estimate of each transaction of the block that is no deposit, and no other entry,
  -- also where some of these locations are the same.
  pub rise_memory-entries :
      (Bytecode : Type 0) (addresses : List Address) (txs : List Bool) (k : MemoryLocationHash)
      (j : TxIdx)
      → entry_at (rise_memory fees beneficiary {Bytecode = Bytecode} addresses txs).entries k j
        ≡ (if takes_fees k && pays 0 txs j then some estimate else none)
  unfolding rise_memory new
  rise_memory-entries Bytecode addresses txs k j =
      let m = estimated_locations fees beneficiary 0 txs [] in
      insert_estimates-entry m (λ _. none) k j (estimated_locations-Nodup 0 txs [] tt)
      ∙ by_listed (listed m k j) (contains (keys m) k) (takes_fees k && pays 0 txs j)
          (estimated_locations-listed 0 txs [] k j)
    where
      by_listed :
          (a b c : Bool)
          → a ≡ c
          → (if a then some estimate else (if b then none else none))
            ≡ (if c then some estimate else none)
      by_listed a true c e = ground (arith, e)
      by_listed a false c e = ground (arith, e)
