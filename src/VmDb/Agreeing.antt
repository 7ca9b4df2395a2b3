-- ===== src/VmDb/Agreeing.antt =====
-- The origins of slot reads over two memories that agree on them: `VmDb` of crates/pevm/src/vm.rs
-- with the validation of crates/pevm/src/mv_memory.rs.
use mathlib.Core.Option.{some-injective}
use pevm.Base.{
  ℕ, zero, suc, ◌≡◌, refl, sym, ap, ◌∙◌, subst, Option, none, some, List, [], ◌∷◌, map, ◌++◌, arith,
  All, ◌==◌, ==_iff, Option-cases, Bool-cases, inl, inr,
}
use pevm.Types.{
  TxIdx, MemoryLocationHash, MemoryValue, MemoryEntry, data_entry, estimate, ReadOrigin,
  from_storage, ReadOrigins, ReadSet,
}
use pevm.MvMemory.{Entries, Written, range_back}
use pevm.MvMemory.Reads.{range_back-some, range_back-none, seen, reread, reread_found, Agrees}
use pevm.MvMemory.Record.{entry_at, entry_of}
use pevm.Storage.{lookup}
use pevm.VmDb.{version_of, closest, closest_of, head_of}
use pevm.VmDb.SlotReads.{first_seen}

reread-first :
    (n : TxIdx) (o : Option Written)
    → (rest : List (Option ReadOrigin)) × (reread_found n o ≡ first_seen (closest_of n o) ∷ rest)
reread-first n none = ([], refl)
reread-first n (some m) = at (range_back n m)
  where
    at :
        (es : List (TxIdx × MemoryEntry))
        → (rest : List (Option ReadOrigin)) × (map seen es ++ some from_storage ∷ []
            ≡ first_seen (head_of es) ∷ rest)
    at [] = ([], refl)
    at (e ∷ es) = (_, refl)

pub Agrees-first :
    (o : ReadOrigin) (os : ReadOrigins) (n : TxIdx) (w : Option Written)
    → Agrees (o ∷ os) (reread_found n w)
    → first_seen (closest_of n w) ≡ some o
Agrees-first o os n w h = let (rest, e) = reread-first n w in (subst (Agrees (o ∷ os)) e h).0

head_of-entry :
    (n : ℕ) (m : Written) (j : TxIdx) (e : MemoryEntry)
    → head_of (range_back n m) ≡ some (j, e)
    → m j ≡ some e
unfolding range_back
head_of-entry zero m j e h = cc
head_of-entry (suc n) m j e h = elim (Option-cases (m n)) [
  | inl q ↦ head_of-entry n m j e (ap head_of (sym (range_back-none n m q)) ∙ h)
  | inr (x, q) ↦
      let first : some (n, x) ≡ some (j, e) = ap head_of (sym (range_back-some n m x q)) ∙ h in
      ground arith
]

closest-entry :
    (n : ℕ) (o : Option Written) (j : TxIdx) (e : MemoryEntry)
    → closest_of n o ≡ some (j, e)
    → entry_of o j ≡ some e
closest-entry n none j e h = cc
closest-entry n (some m) j e h = head_of-entry n m j e h

-- Where two memories hold a value of one version, it is the same value.
abbrev pub SameVersions : Entries → Entries → Type 0
SameVersions d d' =
    (l : MemoryLocationHash) (j : TxIdx) (k : ℕ) (v w : MemoryValue)
    → entry_at d l j ≡ some (data_entry k v)
    → entry_at d' l j ≡ some (data_entry k w)
    → v ≡ w

version_injective : (i j x k : ℕ) → version_of i x ≡ version_of j k → (i ≡ j) × (x ≡ k)
version_injective i j x k e = ground arith

-- The closest entries are the same where the first origins are.
pub same_closest :
    (n : TxIdx) (d d' : Entries) (l : MemoryLocationHash) (o : ReadOrigin)
    → SameVersions d d'
    → (c c' : Option (TxIdx × MemoryEntry)) → closest n d l ≡ c
    → closest n d' l ≡ c'
    → first_seen c ≡ some o
    → first_seen c' ≡ some o
    → c' ≡ c
same_closest n d d' l o s none none e e' p p' = refl
same_closest n d d' l o s none (some (j, estimate)) e e' p p' = cc
same_closest n d d' l o s none (some (j, data_entry k v)) e e' p p' = cc
same_closest n d d' l o s (some (j, estimate)) c' e e' p p' = cc
same_closest n d d' l o s (some (j, data_entry k v)) none e e' p p' = cc
same_closest n d d' l o s (some (j, data_entry k v)) (some (i, estimate)) e e' p p' = cc
same_closest n d d' l o s (some (j, data_entry k v)) (some (i, data_entry x w)) e e' p p' =
    let (q, r) = version_injective i j x k (some-injective _ _ (p' ∙ sym p)) in
    let there : entry_at d' l i ≡ some (data_entry x w) =
      closest-entry n (d' l) i (data_entry x w) e' in
    let value : v ≡ w = s l j k v w (closest-entry n (d l) j (data_entry k v) e) (
      subst (λ y. entry_at d' l y ≡ some (data_entry k w)) q
        (subst (λ y. entry_at d' l i ≡ some (data_entry y w)) r there)) in
    ground (arith, q, r, value)

-- Each location read has origins that reading again in these entries would find.
abbrev pub AllAgree : TxIdx → Entries → ReadSet → Type 0
AllAgree n d = All (λ r. Agrees r.1 (reread n d r.0))

pub AllAgree-lookup :
    (n : TxIdx) (d : Entries) (rs : ReadSet) (l : MemoryLocationHash) (os : ReadOrigins)
    → AllAgree n d rs
    → lookup rs l ≡ some os
    → Agrees os (reread n d l)
AllAgree-lookup n d [] l os f e = cc
AllAgree-lookup n d ((k, ps) ∷ rs) l os f e = elim (Bool-cases (k == l)) [
  | inl q ↦
      let same : ps ≡ os = some-injective ps os (rw q at e) in
      subst (λ x. Agrees x (reread n d l)) same
        (subst (λ x. Agrees ps (reread n d x)) ((==_iff k l).0 q) f.0)
  | inr q ↦ AllAgree-lookup n d rs l os f.1 (rw q at e)
]
