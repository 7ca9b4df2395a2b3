-- ===== src/Execution/Reached.antt =====
-- The write set of `Vm::execute` and the state transitions of crates/pevm/src/vm.rs, over the whole
-- final state of a run.

use pevm.Base.{
  ℕ, ◌≡◌, refl, sym, ap, ◌∙◌, false, Option, none, some, List, [], ◌∷◌, map, arith, Nodup, contains,
  Bool-cases, inl, inr, ◌==◌, ==_iff, if◌then◌else◌,
}
use pevm.Types.{Address, MemoryLocation, basic_location, MemoryLocationHash, MemoryValue}
use pevm.MvMemory.Record.{last_value}
use pevm.Storage.{lookup}
use pevm.Execution.{Account, Env, account_writes, state_writes}
use pevm.Execution.Writes.{
  IsInjective, address_of, written_at, account_writes-at, or_earlier, last_value-append,
}

-- revm's state has each address once.
abbrev pub IsMap : {Bytecode : Type 0} → List (Address × Account Bytecode) → Type 0
IsMap state = Nodup (map (λ e. e.0) state)

pub lookup-absent {ℓ} :
    {V : Type ℓ} (m : List (ℕ × V)) (k : ℕ)
    → contains (map (λ e. e.0) m) k ≡ false
    → lookup m k ≡ none
lookup-absent [] k h = refl
lookup-absent ((j, v) ∷ m) k h = ground (arith, lookup-absent m k (ground arith))

or_earlier-none : (o : Option MemoryValue) → or_earlier o none ≡ o
or_earlier-none none = refl
or_earlier-none (some v) = refl

module _ {Bytecode : Type 0} where
  abbrev written_of :
      (MemoryLocation → MemoryLocationHash)
      → Env
      → Option (Account Bytecode)
      → MemoryLocation
      → Option MemoryValue
  written_of hash env none l = none
  written_of hash env (some account) l =
      written_at env (env.read_accounts (hash (basic_location (address_of l)))) account l

  -- What is written at a location, by the account of its address, if the state has it.
  abbrev pub written_in :
      (MemoryLocation → MemoryLocationHash)
      → Env
      → List (Address × Account Bytecode)
      → MemoryLocation
      → Option MemoryValue
  written_in hash env state l = written_of hash env (lookup state (address_of l)) l

module _ {Bytecode : Type 0} (hash : MemoryLocation → MemoryLocationHash) (inj : IsInjective hash)
    (env : Env) (lz : env.is_lazy ≡ false) where
  first-written :
      (a : Address) (account : Account Bytecode) (state : List (Address × Account Bytecode))
      (l : MemoryLocation)
      → contains (map (λ e. e.0) state) a ≡ false
      → or_earlier (written_in hash env state l) (
          if a == address_of l
          then written_at env (env.read_accounts (hash (basic_location a))) account l
          else none)
        ≡ written_in hash env ((a, account) ∷ state) l
  first-written a account state l h = elim (Bool-cases (a == address_of l)) [
    | inl q ↦
        let same : a ≡ address_of l = (==_iff a (address_of l)).0 q in
        let none_later : lookup state (address_of l) ≡ none =
          ap (lookup state) (sym same) ∙ lookup-absent state a h in
        rw (q, none_later)
          (ap (λ x. written_at env (env.read_accounts (hash (basic_location x))) account l) same)
    | inr q ↦ rw q (or_earlier-none (written_in hash env state l))
  ]

  -- The write set of a non-lazy execution holds, at the hash of each location, exactly what the
  -- account of its address writes there, where distinct locations have distinct hashes and the state
  -- has each address once: nothing at locations of other addresses.
  pub state_writes-at :
      (state : List (Address × Account Bytecode)) (l : MemoryLocation)
      → IsMap state
      → last_value (state_writes hash env state) (hash l) ≡ written_in hash env state l
  unfolding state_writes
  state_writes-at [] l m = refl
  state_writes-at ((a, account) ∷ state) l m =
      last_value-append (account_writes hash env a account) (state_writes hash env state) (hash l)
      ∙ ap (λ x. or_earlier x (last_value (account_writes hash env a account) (hash l)))
          (state_writes-at state l m.1)
      ∙ ap (or_earlier (written_in hash env state l))
          (account_writes-at hash inj env lz a account l)
      ∙ first-written a account state l m.0
