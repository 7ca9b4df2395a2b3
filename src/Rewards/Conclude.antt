-- ===== src/Rewards/Conclude.antt =====
-- How an execution ends in `Vm::execute` of crates/pevm/src/vm.rs: the flags for the scheduler and
-- the memory.
use mathlib.Core.Option.{some-injective, none-ne-some}
use pevm.Base.{
  ◌<◌, ◌≡◌, ◌≢◌, refl, sym, subst, ap, ◌∙◌, Bool, true, false, ◌&&◌, not, Option, none, some, [],
  ◌∷◌, ◌==◌, arith,
}
use pevm.Types.{TxVersion, Address, ReadSet, WriteSet, FinishExecFlags}
use pevm.MvMemory.{MvMemory}
use pevm.MvMemory.Record.{writes_outside}
use pevm.MvMemory.Coherence.{Recorded, record_sets-Recorded}
use pevm.MvMemory.Initial.{add_lazy_addresses-same}
use pevm.Rewards.{conclude_execution, register_lazy, need_validation}

-- Only a call is lazy.
abbrev pub HasTarget : Bool → Option Address → Type 0
HasTarget true none = ⊥
HasTarget _ _ = Unit {0}

module _ {Bytecode : Type 0} where
  -- What the end of an execution makes of the memory and answers: `registered` is the memory with
  -- the lazy addresses added.
  pub record Concluded (v : TxVersion) (is_lazy : Bool) (rs : ReadSet) (ws : WriteSet)
      (mem registered mem' : MvMemory Bytecode) (flags : FinishExecFlags) : Type 0 where
    pub validated : flags.need_validation ≡ not (v.tx_idx == 0) && not is_lazy
    pub wrote_new : flags.wrote_new_location ≡ writes_outside (mem.last_locations v.tx_idx).write ws
    pub memory : Recorded v rs ws registered flags.wrote_new_location mem'
    pub entries : registered.entries ≡ mem.entries
    pub locations : registered.last_locations ≡ mem.last_locations
    pub size : registered.block_size ≡ mem.block_size

  register_lazy-HasTarget :
      (is_lazy : Bool) (caller : Address) (to : Option Address) (mem : MvMemory Bytecode)
      → HasTarget is_lazy to
      → (registered : MvMemory Bytecode) × (register_lazy is_lazy caller to mem ≡ some registered)
        × (registered.entries ≡ mem.entries)
        × (registered.last_locations ≡ mem.last_locations)
        × (registered.block_size ≡ mem.block_size)
  register_lazy-HasTarget false caller to mem h = (mem, refl, refl, refl, refl)
  register_lazy-HasTarget true caller none mem h = absurd h
  register_lazy-HasTarget true caller (some to) mem h =
      let (e, l, b) = add_lazy_addresses-same (caller ∷ to ∷ []) mem in (_, refl, e, l, b)

  pub conclude_execution-Concluded :
      (v : TxVersion) (is_lazy : Bool) (caller : Address) (to : Option Address) (rs : ReadSet)
      (ws : WriteSet) (mem : MvMemory Bytecode)
      → v.tx_idx < mem.block_size
      → HasTarget is_lazy to
      → (registered mem' : MvMemory Bytecode) × (flags : FinishExecFlags) × (conclude_execution v
            is_lazy caller to rs ws mem
          ≡ some (flags, mem'))
        × Concluded v is_lazy rs ws mem registered mem' flags
  unfolding conclude_execution
  conclude_execution-Concluded v is_lazy caller to rs ws mem lt h =
      let (registered, p, entries, locations, size) =
        register_lazy-HasTarget is_lazy caller to mem h in
      let (wrote, mem', q, r) = record_sets-Recorded v rs ws registered (omega (arith, size)) in
      (
        registered,
        mem',
        record { need_validation = need_validation v.tx_idx is_lazy; wrote_new_location = wrote },
        rw (p, q) refl,
        record {
          validated = refl;
          wrote_new = r.new_location ∙ ap (λ l. writes_outside (l v.tx_idx).write ws) locations;
          memory = r;
          entries = entries;
          locations = locations;
          size = size;
        },
      )

  HasTarget-of :
      (v : TxVersion) (is_lazy : Bool) (caller : Address) (to : Option Address) (rs : ReadSet)
      (ws : WriteSet) (mem : MvMemory Bytecode)
      → conclude_execution v is_lazy caller to rs ws mem ≢ none
      → HasTarget is_lazy to
  unfolding conclude_execution
  HasTarget-of v true caller none rs ws mem h = absurd (h refl)
  HasTarget-of v true caller (some to) rs ws mem h = tt
  HasTarget-of v false caller none rs ws mem h = tt
  HasTarget-of v false caller (some to) rs ws mem h = tt

  -- What a call that returns has done.
  pub conclude_execution_sound :
      (v : TxVersion) (is_lazy : Bool) (caller : Address) (to : Option Address) (rs : ReadSet)
      (ws : WriteSet) (mem mem' : MvMemory Bytecode) (flags : FinishExecFlags)
      → v.tx_idx < mem.block_size
      → conclude_execution v is_lazy caller to rs ws mem ≡ some (flags, mem')
      → (registered : MvMemory Bytecode) × Concluded v is_lazy rs ws mem registered mem' flags
  conclude_execution_sound v is_lazy caller to rs ws mem mem' flags lt e =
      let (registered, m, f, q, c) =
        conclude_execution-Concluded v is_lazy caller to rs ws mem lt
          (HasTarget-of v is_lazy caller to rs ws mem (λ n. none-ne-some _ (sym n ∙ e))) in
      (
        registered,
        subst
            (λ (x : FinishExecFlags × MvMemory Bytecode).
              Concluded v is_lazy rs ws mem registered x.1 x.0)
            (some-injective (f, m) (flags, mem') (sym q ∙ e)) c,
      )
