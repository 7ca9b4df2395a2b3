-- ===== src/Scheduler.antt =====
-- crates/pevm/src/scheduler.rs: the collaborative scheduler's state and its operations.
-- A `Vec` of the block's size is a map from indices, and reading it at or past the size is a fault.
-- A fault (`none`) is an index past the end, a failing debug assertion or a lock taken twice.
pub mod Workers
pub mod Effects
pub mod Exclusion
pub mod Protocol
pub mod Steps
pub mod Safety
pub mod Progress
pub mod Counters
pub mod Statuses
pub mod Reexecution
pub mod Alone
mod Tests
use pevm.Base.{
  ℕ, zero, suc, ◌+◌, ◌-◌, ◌%◌, min, Bool, true, false, not, ◌&&◌, Option, none, some, List, [], ◌∷◌,
  ◌++◌, ltb, leb, ◌==◌, if◌then◌else◌, update,
}
use pevm.Types.{
  TxIdx, IncarnationStatus, ready_to_execute, executing, executed, validated, aborting, TxStatus,
  TxVersion, Task, execution, validation, FinishExecFlags, is_ready_to_execute,
  is_executed_or_validated, is_executing, is_executed, is_validated, is_aborting, usize_mod,
  wrapping_inc,
}

pub record Scheduler : Type 0 where
  pub block_size : ℕ
  pub transactions_status : TxIdx → TxStatus
  pub transactions_dependents : TxIdx → List TxIdx
  pub execution_idx : ℕ
  pub validation_idx : ℕ
  pub min_validation_idx : ℕ
  pub num_validated : ℕ
  pub aborted : Bool

infixl 5 ◌>>=◌ ◌>>◌
abbrev pub ◌>>=◌ {ℓ κ} : {A : Type ℓ} {B : Type κ} → Option A → (A → Option B) → Option B
none >>= f = none
some a >>= f = f a

abbrev pub ◌>>◌ {ℓ} : {B : Type ℓ} → Option (Unit {0}) → Option B → Option B
m >> k = m >>= λ _. k

-- `debug_assert!`, and the bound of `index_mutex!`.
abbrev pub assert : Bool → Option (Unit {0})
assert true = some tt
assert false = none

unfoldable pub new : ℕ → Scheduler
new block_size = record {
  block_size = block_size;
  transactions_status = λ _. record { incarnation = 0; status = ready_to_execute };
  transactions_dependents = λ _. [];
  execution_idx = 0;
  validation_idx = block_size;
  min_validation_idx = block_size;
  num_validated = 0;
  aborted = false;
}

pub abort : Scheduler → Scheduler
abort s = record s { aborted = true }

abbrev pub set_status : TxIdx → TxStatus → Scheduler → Scheduler
set_status i t s = record s { transactions_status = update s.transactions_status i t }

-- The version that a transaction's status names.
abbrev pub version_at : TxIdx → Scheduler → TxVersion
version_at i s = record { tx_idx = i; tx_incarnation = (s.transactions_status i).incarnation }

-- `tx.status = …`: the incarnation stays.
abbrev pub set_to : TxIdx → IncarnationStatus → Scheduler → Scheduler
set_to i status s =
    set_status i (record { incarnation = (s.transactions_status i).incarnation; status = status }) s

unfoldable pub try_execute : TxIdx → Scheduler → Option TxVersion × Scheduler
try_execute tx_idx s =
    if ltb tx_idx s.block_size && is_ready_to_execute (s.transactions_status tx_idx).status
    then (some (version_at tx_idx s), set_to tx_idx executing s)
    else (none, s)

-- How the critical section on the fetched validation index ends.
pub data Claim : Type 0 where
  claimed : Task → Claim
  refetch : Claim
  fall_back : Claim

-- `next_task` behind `validation_idx.fetch_add`, under the lock of `tx_idx`.
pub claim_validation : TxIdx → Scheduler → Claim × Scheduler
claim_validation tx_idx s =
    if ltb tx_idx s.block_size
    then elim (s.transactions_status tx_idx).status [
      | ready_to_execute ↦ (claimed (execution (version_at tx_idx s)), set_to tx_idx executing s)
      | executing ↦ (fall_back, s)
      | executed ↦ (claimed (validation (version_at tx_idx s)), s)
      | validated ↦ (claimed (validation (version_at tx_idx s)), s)
      | aborting ↦ (refetch, s)
    ]
    else (fall_back, s)

pub fetch_validation : Scheduler → Scheduler
fetch_validation s = record s { validation_idx = wrapping_inc s.validation_idx }

unfoldable pub fetch_execution : Scheduler → Scheduler
fetch_execution s = record s { execution_idx = wrapping_inc s.execution_idx }

-- The counters are past the block: `break` if enough is validated, else `yield_now`.
abbrev pub is_enough : ℕ → Scheduler → Bool
is_enough num_validated s = leb (s.block_size - s.min_validation_idx) num_validated

pub is_done : Scheduler → Bool
is_done s = is_enough s.num_validated s

abbrev pub is_exhausted : ℕ → ℕ → Scheduler → Bool
is_exhausted execution_idx validation_idx s =
    leb s.block_size execution_idx && leb s.block_size validation_idx

-- How one turn of the loop of `next_task` ends.
pub data Turn : Type 0 where
  finished : Turn
  again : Turn
  found : Task → Turn

abbrev pub found_execution : Option TxVersion × Scheduler → Turn × Scheduler
found_execution (none, s) = (again, s)
found_execution (some v, s) = (found (execution v), s)

abbrev pub execution_turn : Scheduler → Turn × Scheduler
execution_turn s = found_execution (try_execute s.execution_idx (fetch_execution s))

abbrev pub after_claim : Claim × Scheduler → Turn × Scheduler
after_claim (claimed t, s) = (found t, s)
after_claim (refetch, s) = (again, s)
after_claim (fall_back, s) = execution_turn s

-- One turn of the loop of `next_task` when no other thread runs during it.
pub turn : Scheduler → Turn × Scheduler
unfolding claim_validation try_execute fetch_validation fetch_execution is_done
turn s =
    if s.aborted
    then (finished, s)
    else if is_exhausted s.execution_idx s.validation_idx s
    then (if is_done s then finished else again, s)
    else if ltb s.validation_idx s.execution_idx
    then after_claim (claim_validation s.validation_idx (fetch_validation s))
    else execution_turn s

-- What the loop does behind a turn, where `rest` is the loop itself.
abbrev pub run_turn :
    (Scheduler → Option (Option Task × Scheduler))
    → Turn × Scheduler
    → Option (Option Task × Scheduler)
run_turn rest (finished, s) = some (none, s)
run_turn rest (again, s) = rest s
run_turn rest (found t, s) = some (some t, s)

-- `next_task`, on fuel: the outer `none` is a loop that is still running.
pub next_task : ℕ → Scheduler → Option (Option Task × Scheduler)
next_task zero s = none
next_task (suc fuel) s = run_turn (next_task fuel) (turn s)

-- A lock on `transactions_status[i]`, in range or a fault.
abbrev in_block : TxIdx → Scheduler → Option (Unit {0})
in_block i s = assert (ltb i s.block_size)

abbrev park : TxIdx → TxIdx → Scheduler → Scheduler
park tx_idx blocking_tx_idx s = record (set_to tx_idx aborting s) {
  transactions_dependents =
      update s.transactions_dependents blocking_tx_idx
        (s.transactions_dependents blocking_tx_idx ++ tx_idx ∷ []);
}

-- The lock of the blocking transaction is held, so the two indices must differ.
pub add_dependency : TxIdx → TxIdx → Scheduler → Option (Bool × Scheduler)
add_dependency tx_idx blocking_tx_idx s = do
  in_block blocking_tx_idx s
  if is_executed_or_validated (s.transactions_status blocking_tx_idx).status
      then some (false, s)
      else do
        assert (not (tx_idx == blocking_tx_idx))
        in_block tx_idx s
        assert (is_executing (s.transactions_status tx_idx).status)
        some (true, park tx_idx blocking_tx_idx s)

abbrev pub next_incarnation : TxStatus → TxStatus
next_incarnation t = record { incarnation = wrapping_inc t.incarnation; status = ready_to_execute }

pub set_ready_status : TxIdx → Scheduler → Option Scheduler
set_ready_status tx_idx s = do
  in_block tx_idx s
  assert (is_aborting (s.transactions_status tx_idx).status)
  some (set_status tx_idx (next_incarnation (s.transactions_status tx_idx)) s)

-- `execution_idx.fetch_min(i)`
abbrev pub lower_execution_idx : ℕ → Scheduler → Scheduler
lower_execution_idx i s = record s { execution_idx = min s.execution_idx i }

abbrev pub set_dependents : TxIdx → List TxIdx → Scheduler → Scheduler
set_dependents tx_idx dependents s = record s {
  transactions_dependents = update s.transactions_dependents tx_idx dependents;
}

-- The loop over `dependents.drain(..)`.
pub resume_dependents : List TxIdx → Scheduler → Option Scheduler
resume_dependents [] s = some s
resume_dependents (tx_idx ∷ rest) s = do
  s' ← set_ready_status tx_idx s
  resume_dependents rest (lower_execution_idx tx_idx s')

abbrev lower_min_validation : TxVersion → FinishExecFlags → Scheduler → Scheduler
lower_min_validation v flags s =
    if flags.need_validation
    then record s { min_validation_idx = min s.min_validation_idx v.tx_idx }
    else s

abbrev lower_validation : Bool → ℕ → Scheduler → Scheduler
lower_validation wrote i s =
    if wrote then record s { validation_idx = min s.validation_idx i } else s

-- `tx.status = Validated; num_validated.fetch_add(1)`
abbrev pub count_validated : TxIdx → Scheduler → Scheduler
count_validated i s = record (set_to i validated s) { num_validated = wrapping_inc s.num_validated }

-- The last lines of `finish_execution`.
abbrev settle : TxVersion → FinishExecFlags → Scheduler → Option Task × Scheduler
settle v flags s =
    if flags.need_validation
    then (none, set_to v.tx_idx executed s)
    else (none, count_validated v.tx_idx s)

-- Where to validate from. In the branch in the middle a transaction that needs no validation is
-- marked and counted, and the code goes on to `settle`.
pub decide_validation : TxVersion → FinishExecFlags → Scheduler → Option Task × Scheduler
decide_validation v flags s =
    if ltb s.min_validation_idx s.block_size
    then (if ltb v.tx_idx s.min_validation_idx
        then settle v flags (lower_validation flags.wrote_new_location s.min_validation_idx s)
        else if ltb v.tx_idx s.validation_idx
        then (let s' = lower_validation flags.wrote_new_location (v.tx_idx + 1) s in
            if flags.need_validation
            then (some (validation v), set_to v.tx_idx executed s')
            else settle v flags (count_validated v.tx_idx s'))
        else settle v flags s)
    else settle v flags s

-- The lock and the assertions with which `finish_execution` starts.
abbrev pub begin_finish : TxVersion → Scheduler → Option (Unit {0})
begin_finish v s = do
  in_block v.tx_idx s
  assert (is_executing (s.transactions_status v.tx_idx).status)
  assert ((s.transactions_status v.tx_idx).incarnation == v.tx_incarnation)

-- `finish_execution` behind the loop over the dependents.
abbrev pub end_finish : TxVersion → FinishExecFlags → Scheduler → Option Task × Scheduler
end_finish v flags s = decide_validation v flags (lower_min_validation v flags s)

pub finish_execution : TxVersion → FinishExecFlags → Scheduler → Option (Option Task × Scheduler)
unfolding decide_validation
finish_execution v flags s = do
  begin_finish v s
  s' ← resume_dependents (s.transactions_dependents v.tx_idx) (set_dependents v.tx_idx [] s)
  some (end_finish v flags s')

-- `fetch_sub(1)` on a `usize`.
abbrev wrapping_dec : ℕ → ℕ
wrapping_dec n = (n + (usize_mod - 1)) % usize_mod

abbrev uncount : TxIdx → Scheduler → Scheduler
uncount i s =
    if is_validated (s.transactions_status i).status
    then record s { num_validated = wrapping_dec s.num_validated }
    else s

pub try_validation_abort : TxVersion → Scheduler → Option (Bool × Scheduler)
try_validation_abort v s = do
  in_block v.tx_idx s
  some (
      if is_executed_or_validated (s.transactions_status v.tx_idx).status
      then (true, set_to v.tx_idx aborting (uncount v.tx_idx s))
      else (false, s))

abbrev pub execution_task : Option TxVersion × Scheduler → Option Task × Scheduler
execution_task (none, s) = (none, s)
execution_task (some v, s) = (some (execution v), s)

-- `validation_idx.fetch_min(i)`
abbrev pub lower_validation_idx : ℕ → Scheduler → Scheduler
lower_validation_idx i s = record s { validation_idx = min s.validation_idx i }

-- The execution index has passed the transaction, so nobody else may come to it.
abbrev pub is_passed : TxVersion → Scheduler → Bool
is_passed v s = ltb v.tx_idx s.execution_idx

-- The last line for an aborted validation, which takes the lock anew.
abbrev pub retry_execution : TxVersion → Scheduler → Option Task × Scheduler
retry_execution v s = execution_task (try_execute v.tx_idx s)

abbrev reschedule : TxVersion → Scheduler → Option Task × Scheduler
reschedule v s = if is_passed v s then retry_execution v s else (none, s)

pub finish_validation : TxVersion → Bool → Scheduler → Option (Option Task × Scheduler)
unfolding try_execute set_ready_status
finish_validation v true s = do
  s' ← set_ready_status v.tx_idx s
  some (reschedule v (lower_validation_idx (v.tx_idx + 1) s'))
finish_validation v false s = do
  in_block v.tx_idx s
  some (
    none,
    (if is_executed (s.transactions_status v.tx_idx).status then count_validated v.tx_idx s else s),
  )
