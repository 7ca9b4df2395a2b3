-- ===== src/VmDb/Slots.antt =====
-- The origins that a read of a slot keeps: `push_origin` of `VmDb` in crates/pevm/src/vm.rs and the
-- read set that it stands in.
use mathlib.Core.Option.{some-injective}
use pevm.Base.{
  ◌≡◌, ◌≢◌, refl, sym, ap, ◌∙◌, subst, true, Option, none, some, [], ◌∷◌, arith, All, ◌==◌,
  Option-cases, Bool-cases, inl, inr,
}
use pevm.Types.{
  TxIdx, MemoryLocationHash, ReadOrigin, from_mv_memory, from_storage, ReadOrigins, ReadSet,
}
use pevm.MvMemory.{Entries}
use pevm.MvMemory.Reads.{reread, Agrees, IsRead}
use pevm.Storage.{lookup}
use pevm.VmDb.{
  VmDb, Read, got, refused, inconsistent_read, after_push, push_origin, origins_at, set_origins,
  origin_eq, last_origin, or_empty,
}

-- Each location read has origins as a read leaves them, which reading again now would find.
abbrev pub Fresh : TxIdx → Entries → ReadSet → Type 0
Fresh n d = All (λ r. IsRead r.1 × Agrees r.1 (reread n d r.0))

-- Each location read has one origin, as reads of slots leave it.
abbrev pub Single : ReadOrigins → Type 0
Single os = (o : ReadOrigin) × (os ≡ o ∷ [])

abbrev pub AllSingle : ReadSet → Type 0
AllSingle = All (λ r. Single r.1)

pub origin_eq_sound : (o p : ReadOrigin) → origin_eq o p ≡ true → o ≡ p
origin_eq_sound from_storage from_storage e = refl
origin_eq_sound from_storage (from_mv_memory w) e = cc
origin_eq_sound (from_mv_memory v) from_storage e = cc
origin_eq_sound (from_mv_memory v) (from_mv_memory w) e = ground arith

pub set_origins_twice :
    (rs : ReadSet) (l : MemoryLocationHash) (os ps : ReadOrigins)
    → set_origins (set_origins rs l os) l ps ≡ set_origins rs l ps
unfolding set_origins
set_origins_twice [] l os ps = ground arith
set_origins_twice ((k, qs) ∷ rs) l os ps = ground (arith, set_origins_twice rs l os ps)

pub lookup-set :
    (rs : ReadSet) (l : MemoryLocationHash) (os : ReadOrigins)
    → lookup (set_origins rs l os) l ≡ some os
unfolding set_origins
lookup-set [] l os = ground arith
lookup-set ((k, qs) ∷ rs) l os = ground (arith, lookup-set rs l os)

pub lookup-set_other :
    (rs : ReadSet) (l k : MemoryLocationHash) (os : ReadOrigins)
    → l ≢ k
    → lookup (set_origins rs l os) k ≡ lookup rs k
unfolding set_origins
lookup-set_other [] l k os h = ground arith
lookup-set_other ((j, qs) ∷ rs) l k os h = ground (arith, lookup-set_other rs l k os h)

pub origins_at-set :
    (rs : ReadSet) (l : MemoryLocationHash) (os : ReadOrigins)
    → origins_at (set_origins rs l os) l ≡ os
origins_at-set rs l os = ap or_empty (lookup-set rs l os)

pub last_origin-cons :
    (o : ReadOrigin) (os : ReadOrigins) → (p : ReadOrigin) × (last_origin (o ∷ os) ≡ some p)
last_origin-cons o [] = (o, refl)
last_origin-cons o (p ∷ os) = last_origin-cons p os

pub AllSingle-lookup :
    (rs : ReadSet) (l : MemoryLocationHash) (os : ReadOrigins)
    → AllSingle rs
    → lookup rs l ≡ some os
    → Single os
AllSingle-lookup [] l os f e = cc
AllSingle-lookup ((k, ps) ∷ rs) l os f e = elim (Bool-cases (k == l)) [
  | inl q ↦ subst Single (some-injective ps os (rw q at e)) f.0
  | inr q ↦ AllSingle-lookup rs l os f.1 (rw q at e)
]

pub AllSingle-set :
    (rs : ReadSet) (l : MemoryLocationHash) (os : ReadOrigins)
    → AllSingle rs
    → Single os
    → AllSingle (set_origins rs l os)
unfolding set_origins
AllSingle-set [] l os f h = (h, tt)
AllSingle-set ((k, ps) ∷ rs) l os f h = elim (Bool-cases (k == l)) [
  | inl q ↦ rw (q, set_origins) (h, f.1)
  | inr q ↦ rw (q, set_origins) (f.0, AllSingle-set rs l os f.1 h)
]

-- A push onto one origin leaves it, and it is the pushed one.
push_origin-one :
    (p o : ReadOrigin) (qs : ReadOrigins)
    → push_origin (p ∷ []) o ≡ some qs
    → (p ≡ o) × (qs ≡ o ∷ [])
unfolding push_origin
push_origin-one p o qs e = elim (Bool-cases (origin_eq p o)) [
  | inl q ↦
      let same : p ≡ o = origin_eq_sound p o q in
      (same, sym (some-injective (p ∷ []) qs (rw q at e)) ∙ ap (λ x. x ∷ []) same)
  | inr q ↦ absurd (ground (arith, q))
]

-- What is kept of a location when an origin was pushed.
pub push_origin-Single :
    (rs : ReadSet) (l : MemoryLocationHash) (o : ReadOrigin) (qs : ReadOrigins)
    → AllSingle rs
    → push_origin (origins_at rs l) o ≡ some qs
    → (qs ≡ o ∷ []) × ((os : ReadOrigins) → lookup rs l ≡ some os → os ≡ o ∷ [])
unfolding push_origin
push_origin-Single rs l o qs f e = elim (Option-cases (lookup rs l)) [
  | inl q ↦ (ground arith, λ os x. cc)
  | inr (ps, q) ↦
      let (p, one) = AllSingle-lookup rs l ps f q in
      let (same, kept) = push_origin-one p o qs (
        subst (λ x. push_origin x o ≡ some qs) one
          (subst (λ x. push_origin (or_empty x) o ≡ some qs) q e)) in
      (kept, λ os x. some-injective os ps (sym x ∙ q) ∙ one ∙ ap (λ y. y ∷ []) same)
]

module _ {Code Bytecode : Type 0} where
  pub after_push-got {ℓ} :
      {A : Type ℓ} (l : MemoryLocationHash) (r : Read A) (a : A) (db db' : VmDb Code Bytecode)
      (x : Option ReadOrigins)
      → after_push l db r x ≡ (got a, db')
      → (qs : ReadOrigins) × (x ≡ some qs)
        × (r ≡ got a)
        × (db' ≡ record db { read_set = set_origins db.read_set l qs })
  after_push-got {A} l r a db db' none e =
      let clash : refused inconsistent_read ≡ got a =
        ap (λ (t : Read A × VmDb Code Bytecode). t.0) e in
      absurd (cc)
  after_push-got {A} l r a db db' (some qs) e = (
    qs,
    refl,
    ap (λ (t : Read A × VmDb Code Bytecode). t.0) e,
    sym (ap (λ (t : Read A × VmDb Code Bytecode). t.1) e),
  )
