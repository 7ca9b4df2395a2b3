-- ===== src/VmDb/Tests.antt =====
-- Reads of a small transaction, and the theorems on reads at concrete inputs.

use pevm.Base.{
  ℕ, zero, suc, ◌*◌, ◌<◌, ◌≡◌, Option, refl, Bool, true, false, none, some, List, [], ◌∷◌, arith,
  ◌==◌, if◌then◌else◌,
}
use pevm.Types.{
  TxIdx, TxVersion, AccountBasic, MemoryLocation, storage_location, MemoryLocationHash, storage,
  lazy_recipient, lazy_sender, MemoryEntry, data_entry, estimate, from_mv_memory, from_storage,
  ReadSet,
}
use mathlib.Core.Option
use pevm.Base.Pairing.{paired, paired_injective}
use pevm.VmDb.Programs.{Program, get, finish, write_set, run, run_on}
use pevm.VmDb.Agreeing.{SameVersions}
use pevm.MvMemory.Reads.{check_read_set_iff}
use pevm.MvMemory.Record.{entry_at, last_value}
use pevm.VmDb.Serial.{Validated, sequential, validated_is_serial}
use pevm.MvMemory.{Written, MvMemory, range_back, record_sets, validate_read_locations}
use pevm.Storage.{Storage, ok}
use pevm.VmDb.{VmDb, read_storage, closest}
use pevm.VmDb.Basic.{evaluate, read_basic}
use pevm.VmDb.Basic.Blocking.{Lower, LowerAnswer, blocked_by-Lower}
use pevm.VmDb.Lazy.{replay, evaluate_replays}
use pevm.VmDb.SlotReads.{SlotSays, IsAnswer, read_storage-IsAnswer}
use pevm.VmDb.Undisturbed.{undisturbed_validates}

-- Slot 4 of account 1 is location 40; nothing else has a location of its own.
abbrev hash : MemoryLocation → MemoryLocationHash
hash (storage_location a index) = 10 * index
hash _ = 0

-- Every slot of the chain holds 100.
abbrev chain : Storage ℕ
chain = record {
  basic = λ a. ok none;
  code_hash = λ a. ok none;
  code_by_hash = λ h. ok none;
  has_storage = λ a. ok true;
  storage = λ a index. ok 100;
  block_hash = λ n. ok 0;
}

-- Transaction 0, at incarnation 1, wrote 41 to location 40.
abbrev memory : MvMemory ℕ
memory = record {
  entries = λ l.
      if l == 40
      then some (λ i. if i == 0 then some (data_entry 1 (storage 41)) else none)
      else none;
  block_size = 3;
  last_locations = λ i. record { read = []; write = [] };
  lazy_addresses = [];
  new_bytecodes = λ h. none;
}

-- Transaction 2 is executing and has read nothing.
abbrev reader : VmDb ℕ ℕ
reader = record {
  storage = chain;
  mv_memory = memory;
  tx_idx = 2;
  tx = record { caller = 5; to = some 6; nonce = 0; value = 1 };
  from_hash = 5;
  to_hash = some 6;
  to_code_hash = none;
  is_lazy = false;
  has_nonce = true;
  read_set = [];
  read_accounts = λ l. none;
}

-- Transaction 2 has read the slot from the storage, before transaction 0 wrote it.
abbrev reader_again : VmDb ℕ ℕ
reader_again = record reader { read_set = (40, from_storage ∷ []) ∷ [] }

read_storage-IsAnswer_example :
    IsAnswer
      (closest 2 memory.entries 40)
      (from_storage ∷ [])
      (ok 100)
      (read_storage hash 1 4 reader_again).0
read_storage-IsAnswer_example = read_storage-IsAnswer hash 1 4 reader_again

abbrev third : TxVersion
third = record { tx_idx = 2; tx_incarnation = 0 }

-- Location 40 was read from transaction 0, and location 9 from the storage.
abbrev reads : ReadSet
reads =
    (40, from_mv_memory (record { tx_idx = 0; tx_incarnation = 1 }) ∷ [])
    ∷ (9, from_storage ∷ [])
    ∷ []

undisturbed_validates_example :
    (wrote_new : Bool) × (mem' : MvMemory ℕ) × (record_sets third reads
        ((40, storage 7) ∷ [])
        memory
      ≡ some (wrote_new, mem'))
    × (validate_read_locations 2 mem' ≡ some true)
unfolding range_back
undisturbed_validates_example =
    undisturbed_validates third reads ((40, storage 7) ∷ []) memory (omega arith)
      ((tt, (refl, tt)), ((tt, (refl, tt)), tt))

-- Below transaction 3 an account sends 30 at transaction 2 and receives 20 at transaction 0.
abbrev updates : List (TxIdx × MemoryEntry)
updates = (2, data_entry 0 (lazy_sender 30)) ∷ (0, data_entry 0 (lazy_recipient 20)) ∷ []

abbrev stored : AccountBasic
stored = record { balance = 15; nonce = 8 }

-- 15 + 20 - 30 is 5, and one nonce is used.
evaluate_replays_example : record { balance = 5; nonce = 9 } ≡ replay updates stored
unfolding evaluate
evaluate_replays_example =
    evaluate_replays [] updates stored (record { balance = 5; nonce = 9 }) (omega arith, tt)
      (omega arith) (omega arith) (omega arith) refl

-- Slot 4 is an estimate of transaction 0.
abbrev estimated : VmDb ℕ ℕ
estimated = record reader {
  mv_memory = record memory { entries = λ l. some (λ i. if i == 0 then some estimate else none) };
}

blocked_by-Lower_example :
    Lower 2 (read_storage hash 1 4 estimated).0
    × LowerAnswer hash 0 (λ c. c) 2 (read_basic hash 0 (λ c. c) 1 estimated)
blocked_by-Lower_example = blocked_by-Lower hash 0 (λ c. c) 1 4 estimated

abbrev slot_hash : MemoryLocation → MemoryLocationHash
slot_hash (storage_location a index) = paired a index
slot_hash _ = 0

-- Transaction 0 writes 41 to slot 4 of account 1; the next reads that slot, and writes its double to
-- slot 5.
abbrev programs : TxIdx → Program
programs zero = finish (((1, 4), 41) ∷ [])
programs (suc i) = get 1 4 (λ v. finish (((1, 5), 2 * v) ∷ []))

abbrev with_entries : (MemoryLocationHash → Option Written) → MvMemory ℕ
with_entries d = record memory { entries = d }

abbrev empty_memory : MvMemory ℕ
empty_memory = with_entries (λ l. none)

abbrev first_memory : MvMemory ℕ
first_memory = with_entries (λ l.
    if l == 18 then some (λ i. if i == 0 then some (data_entry 0 (storage 41)) else none) else none)

abbrev final_memory : MvMemory ℕ
final_memory = with_entries (λ l.
    if l == 18
    then some (λ i. if i == 0 then some (data_entry 0 (storage 41)) else none)
    else if l == 22
    then some (λ i. if i == 1 then some (data_entry 1 (storage 82)) else none)
    else none)

abbrev reader_of : TxIdx → MvMemory ℕ → VmDb ℕ ℕ
reader_of i m = record reader { tx_idx = i; mv_memory = m }

first_recorded :
    (l : MemoryLocationHash)
    → entry_at final_memory.entries l 0
      ≡ Option.map (data_entry 0) (last_value (write_set slot_hash (((1, 4), 41) ∷ [])) l)
first_recorded l = ground arith

second_recorded :
    (l : MemoryLocationHash)
    → entry_at final_memory.entries l 1
      ≡ Option.map (data_entry 1) (last_value (write_set slot_hash (((1, 5), 82) ∷ [])) l)
second_recorded l = ground arith

first_versions : SameVersions empty_memory.entries final_memory.entries
first_versions l j k v w e e' = cc

-- Transaction 0 has written when the second transaction reads.
abbrev then_first : ℕ → MvMemory ℕ
then_first k = first_memory

second_versions : (n : ℕ) → SameVersions (then_first n).entries final_memory.entries
second_versions n l j k v w e e' = ground arith

abbrev first_Validated : Validated slot_hash chain final_memory 0 (programs 0)
unfolding run
first_Validated = record {
  memories = λ k. empty_memory;
  before = reader_of 0 empty_memory;
  after = reader_of 0 empty_memory;
  writes = ((1, 4), 41) ∷ [];
  incarnation = 0;
  index = refl;
  on_chain = refl;
  unread = refl;
  ran = refl;
  versions = λ k. first_versions;
  valid = (check_read_set_iff 0 final_memory.entries [] tt).1 tt;
  recorded = first_recorded;
}

abbrev second_Validated : Validated slot_hash chain final_memory 1 (programs 1)
unfolding run read_storage range_back
second_Validated = record {
  memories = then_first;
  before = reader_of 1 empty_memory;
  after = record (reader_of 1 first_memory) {
    read_set = (18, from_mv_memory (record { tx_idx = 0; tx_incarnation = 0 }) ∷ []) ∷ [];
  };
  writes = ((1, 5), 82) ∷ [];
  incarnation = 1;
  index = refl;
  on_chain = refl;
  unread = refl;
  ran = refl;
  versions = second_versions;
  valid =
      (check_read_set_iff 1 final_memory.entries
          ((18, from_mv_memory (record { tx_idx = 0; tx_incarnation = 0 }) ∷ []) ∷ []) (tt, tt)).1
        ((refl, tt), tt);
  recorded = second_recorded;
}

abbrev both_validated : (i : TxIdx) → i < 2 → Validated slot_hash chain final_memory i (programs i)
both_validated zero lt = first_Validated
both_validated (suc zero) lt = second_Validated
both_validated (suc (suc i)) lt = absurd (omega arith)

-- Transaction 1 has the writes of the sequential execution, and slot 5 ends with 82.
validated_is_serial_example :
    (((1, 5), 82) ∷ [] ≡ run_on (programs 1) (sequential programs (λ a x. 100) 1))
    × SlotSays (closest 2 final_memory.entries 22) (ok 100) (sequential programs (λ a x. 100) 2 1 5)
unfolding second_Validated
validated_is_serial_example =
    validated_is_serial slot_hash chain final_memory paired_injective (λ a x. 100) (λ a x. refl)
      programs 2 both_validated 1 (omega arith) 1 5
