-- ===== src/MvMemory/Record.antt =====
-- `MvMemory::record` and `convert_writes_to_estimates` of crates/pevm/src/mv_memory.rs: the memory
-- as a map from a location and a transaction to an entry.
use mathlib.Core.Option
use pevm.Base.{
  ℕ, zero, suc, ◌≤◌, ◌≡◌, refl, ap, Bool, true, false, ◌&&◌, ◌||◌, not, Option, none, some, List,
  [], ◌∷◌, ◌++◌, arith, if◌then◌else◌, ◌==◌, ==_iff, Bool-cases, inl, inr, contains,
  contains-append, length, update,
}
use pevm.Types.{
  TxIdx, TxVersion, MemoryLocationHash, MemoryValue, MemoryEntry, data_entry, estimate, WriteSet,
}
use pevm.MvMemory.{
  Entries, Written, writes, change_at, last_to_front, prune, or_default, insert_entry, register,
}

abbrev pub entry_of : Option Written → TxIdx → Option MemoryEntry
entry_of none i = none
entry_of (some m) i = m i

abbrev pub is_present : Option Written → Bool
is_present none = false
is_present (some m) = true

-- The entry of transaction `i` at a location.
abbrev pub entry_at : Entries → MemoryLocationHash → TxIdx → Option MemoryEntry
entry_at d l i = entry_of (d l) i

remove_of :
    (o : Option Written) (i j : TxIdx)
    → entry_of (Option.map (λ m. update m i none) o) j ≡ (if i == j then none else entry_of o j)
remove_of none i j = ground arith
remove_of (some m) i j = refl

-- Removing the entry of `i` at a location.
remove_at-entry :
    (d : Entries) (l l' : MemoryLocationHash) (i j : TxIdx)
    → entry_at (change_at l (λ m. update m i none) d) l' j
      ≡ (if (l == l') && (i == j) then none else entry_at d l' j)
remove_at-entry d l l' i j = elim (Bool-cases (l == l')) [
  | inl e ↦ rw e (rw (← (==_iff l l').0 e) (remove_of (d l) i j))
  | inr e ↦ rw e
]

estimate_of :
    (o : Option Written) (i j : TxIdx)
    → entry_of (Option.map (λ m. update m i (some estimate)) o) j
      ≡ (if (i == j) && is_present o then some estimate else entry_of o j)
estimate_of none i j = ground arith
estimate_of (some m) i j = ground arith

pub estimate_at-entry :
    (d : Entries) (l l' : MemoryLocationHash) (i j : TxIdx)
    → entry_at (change_at l (λ m. update m i (some estimate)) d) l' j
      ≡ (if (l == l') && ((i == j) && is_present (d l)) then some estimate else entry_at d l' j)
estimate_at-entry d l l' i j = elim (Bool-cases (l == l')) [
  | inl e ↦ rw e (rw (← (==_iff l l').0 e) (estimate_of (d l) i j))
  | inr e ↦ rw e
]

insert_of :
    (o : Option Written) (i j : TxIdx) (e : MemoryEntry)
    → update (or_default o) i (some e) j ≡ (if i == j then some e else entry_of o j)
insert_of none i j e = refl
insert_of (some m) i j e = refl

insert_entry-entry :
    (d : Entries) (l l' : MemoryLocationHash) (i j : TxIdx) (e : MemoryEntry)
    → entry_at (insert_entry l i e d) l' j
      ≡ (if (l == l') && (i == j) then some e else entry_at d l' j)
insert_entry-entry d l l' i j e = elim (Bool-cases (l == l')) [
  | inl q ↦ rw q (rw (← (==_iff l l').0 q) (insert_of (d l) i j e))
  | inr q ↦ rw q
]

length-last_to_front : (ls : List MemoryLocationHash) → length (last_to_front ls) ≡ length ls
unfolding last_to_front
length-last_to_front [] = refl
length-last_to_front (x ∷ xs) = ground (arith, length-last_to_front xs)

contains-last_to_front :
    (ls : List MemoryLocationHash) (l : MemoryLocationHash)
    → contains (last_to_front ls) l ≡ contains ls l
unfolding last_to_front
contains-last_to_front [] l = refl
contains-last_to_front (x ∷ xs) l = ground (arith, contains-last_to_front xs l)

-- What the loop over the last written locations leaves: of the locations, those still written; of
-- the entries, all but the transaction's own at locations no longer written.
pub record Pruned (i : TxIdx) (ws : WriteSet) (kept rest : List MemoryLocationHash) (d : Entries)
    (out : List MemoryLocationHash × Entries) : Type 0 where
  pub places :
      (l : MemoryLocationHash)
      → contains out.0 l ≡ contains kept l || (contains rest l && writes ws l)
  pub entries :
      (l : MemoryLocationHash) (j : TxIdx)
      → entry_at out.1 l j
        ≡ (if contains rest l && not (writes ws l) && (i == j) then none else entry_at d l j)

writes_of_eq :
    (ws : WriteSet) (l l' : MemoryLocationHash) → (l == l') ≡ true → writes ws l ≡ writes ws l'
writes_of_eq ws l l' e = ap (writes ws) ((==_iff l l').0 e)

pub prune-Pruned :
    (f : ℕ) (i : TxIdx) (ws : WriteSet) (kept rest : List MemoryLocationHash) (d : Entries)
    → length rest ≤ f
    → Pruned i ws kept rest d (prune f i ws kept rest d)
unfolding prune
prune-Pruned zero i ws kept [] d h = record {
  places = λ l. ground (arith, contains-append kept [] l);
  entries = λ l j. refl;
}
prune-Pruned zero i ws kept (x ∷ rest) d h = absurd (omega arith)
prune-Pruned (suc f) i ws kept [] d h = record { places = λ l. ground arith; entries = λ l j. refl }
prune-Pruned (suc f) i ws kept (x ∷ rest) d h = elim (Bool-cases (writes ws x)) [
  | inl w ↦
      let p = prune-Pruned f i ws (kept ++ x ∷ []) rest d (omega arith) in
      rw (w, prune)
        (record {
          places =
              λ l. ground (arith, p.places l, contains-append kept (x ∷ []) l, writes_of_eq ws x l);
          entries = λ l j. ground (arith, p.entries l j, writes_of_eq ws x l);
        })
  | inr w ↦
      let p =
        prune-Pruned f i ws kept (last_to_front rest) (change_at x (λ m. update m i none) d)
          (omega (arith, length-last_to_front rest)) in
      rw (w, prune)
        (record {
          places =
              λ l. ground (arith, p.places l, contains-last_to_front rest l, writes_of_eq ws x l);
          entries = λ l j. ground (
            arith,
            p.entries l j,
            contains-last_to_front rest l,
            writes_of_eq ws x l,
            remove_at-entry d x l i j,
          );
        })
]

-- The last value that a write set has for a location.
abbrev pub last_value : WriteSet → MemoryLocationHash → Option MemoryValue
last_value [] l = none
last_value ((k, v) ∷ ws) l = elim (last_value ws l) [
  | some w ↦ some w
  | none ↦ if k == l then some v else none
]

-- Whether some location of the write set is not in the list.
abbrev pub writes_outside : List MemoryLocationHash → WriteSet → Bool
writes_outside last [] = false
writes_outside last ((k, v) ∷ ws) = not (contains last k) || writes_outside last ws

abbrev pub entry_written : ℕ → Option MemoryValue → Option MemoryEntry → Option MemoryEntry
entry_written k none old = old
entry_written k (some v) old = some (data_entry k v)

pub record Registered (v : TxVersion) (ws : WriteSet) (written : List MemoryLocationHash)
    (new : Bool) (d : Entries) (out : (List MemoryLocationHash × Bool) × Entries) : Type 0 where
  pub places : (l : MemoryLocationHash) → contains out.0.0 l ≡ contains written l || writes ws l
  pub wrote_new : out.0.1 ≡ new || writes_outside written ws
  pub entries :
      (l : MemoryLocationHash) (j : TxIdx)
      → entry_at out.1 l j ≡ (
          if v.tx_idx == j
          then entry_written v.tx_incarnation (last_value ws l) (entry_at d l j)
          else entry_at d l j)

pub register-Registered :
    (v : TxVersion) (ws : WriteSet) (written : List MemoryLocationHash) (new : Bool) (d : Entries)
    → Registered v ws written new d (register v ws written new d)
unfolding register
register-Registered v [] written new d = record {
  places = λ l. ground arith;
  wrote_new = ground arith;
  entries = λ l j. ground arith;
}
register-Registered v ((k, value) ∷ ws) written new d =
    let d' = insert_entry k v.tx_idx (data_entry v.tx_incarnation value) d in
    elim (Bool-cases (contains written k)) [
      | inl c ↦
          let p = register-Registered v ws written new d' in
          rw c (record {
            places = λ l. ground (arith, p.places l, ==_iff k l);
            wrote_new = ground (arith, p.wrote_new);
            entries = λ l j. ground (
              arith,
              p.entries l j,
              insert_entry-entry d k l v.tx_idx j (data_entry v.tx_incarnation value),
            );
          })
      | inr c ↦
          let p = register-Registered v ws (written ++ k ∷ []) true d' in
          rw c (record {
            places = λ l. ground (arith, p.places l, contains-append written (k ∷ []) l);
            wrote_new = ground (arith, p.wrote_new);
            entries = λ l j. ground (
              arith,
              p.entries l j,
              insert_entry-entry d k l v.tx_idx j (data_entry v.tx_incarnation value),
            );
          })
    ]
