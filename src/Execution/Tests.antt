-- ===== src/Execution/Tests.antt =====
-- A transfer's final state, and the theorems at it.

use pevm.Base.{ℕ, ◌+◌, ◌*◌, ◌≡◌, refl, ap, ◌∙◌, arith, true, false, none, some, List, [], ◌∷◌}
use pevm.Base.Pairing.{paired, paired_injective}
use pevm.Types.{
  Address, U256, MemoryLocation, basic_location, code_hash_location, storage_location,
  MemoryLocationHash, storage,
}
use pevm.MvMemory.Record.{last_value}
use pevm.Storage.{EvmAccount}
use pevm.Execution.{Account, Env, state_writes, state_transitions}
use pevm.Execution.Writes.{IsInjective}
use pevm.Execution.Reached.{state_writes-at}
use pevm.Execution.Transitions.{value_after, writes_match_transitions}

abbrev hash : MemoryLocation → MemoryLocationHash
hash (basic_location a) = 4 * a
hash (code_hash_location a) = 4 * a + 2
hash (storage_location a s) = 2 * paired a s + 1

hash-IsInjective : IsInjective hash
hash-IsInjective (basic_location a) (basic_location b) e = ap basic_location (omega arith)
hash-IsInjective (basic_location a) (code_hash_location b) e = absurd (omega arith)
hash-IsInjective (basic_location a) (storage_location b t) e = absurd (omega arith)
hash-IsInjective (code_hash_location a) (basic_location b) e = absurd (omega arith)
hash-IsInjective (code_hash_location a) (code_hash_location b) e =
    ap code_hash_location (omega arith)
hash-IsInjective (code_hash_location a) (storage_location b t) e = absurd (omega arith)
hash-IsInjective (storage_location a s) (basic_location b) e = absurd (omega arith)
hash-IsInjective (storage_location a s) (code_hash_location b) e = absurd (omega arith)
hash-IsInjective (storage_location a s) (storage_location b t) e =
    let (p, q) = paired_injective a b s t (omega arith) in
    ap (λ x. storage_location x s) p ∙ ap (storage_location b) q

-- Account 1 had 60 at nonce 2; account 5 was not read.
abbrev env : Env
env = record {
  is_eip_161_enabled = true;
  is_lazy = false;
  from_hash = 4;
  to_hash = some 20;
  value = 10;
  read_accounts = λ l. none;
}

abbrev user : ℕ → ℕ → List (U256 × U256) → Account ℕ
user balance nonce slots = record {
  balance = balance;
  nonce = nonce;
  code_hash = 0;
  code = none;
  is_empty_code_hash = true;
  is_empty = false;
  is_touched = true;
  is_selfdestructed = false;
  slots = slots;
  changed_storage_slots = slots;
}

abbrev final_state : List (Address × Account ℕ)
final_state = (1, user 50 3 []) ∷ (5, user 10 0 ((4, 41) ∷ [])) ∷ []

state_writes-at_example :
    last_value (state_writes hash env final_state) (hash (storage_location 5 4)) ≡ some (storage 41)
state_writes-at_example =
    state_writes-at hash hash-IsInjective env refl final_state (storage_location 5 4)
      (refl, (refl, tt))

abbrev evm_user : ℕ → ℕ → List (U256 × U256) → EvmAccount ℕ
evm_user balance nonce slots = record {
  balance = balance;
  nonce = nonce;
  code_hash = none;
  code = none;
  slots = slots;
}

writes_match_transitions_example :
    value_after (last_value (state_writes hash env final_state) 4) none
    ≡ some (record { balance = 50; nonce = 3 })
unfolding state_transitions
writes_match_transitions_example =
    writes_match_transitions (λ c. c) hash hash-IsInjective env refl final_state
      ((1, some (evm_user 50 3 [])) ∷ (5, some (evm_user 10 0 ((4, 41) ∷ []))) ∷ []) 1
      (evm_user 50 3 []) (refl, (refl, tt)) refl refl
