-- ===== src/Scheduler/Workers.antt =====
-- The worker threads of crates/pevm/src/pevm.rs over one scheduler, interleaved in any order.
-- A thread is a program counter with its live locals. Each atomic access outside the locks, in
-- `next_task` and in `finish_validation`, is a step of its own, and so is each locked section, but
-- for `finish_execution`: it keeps the lock of its transaction while it makes each dependent ready
-- under that one's lock and lowers the execution index, which are steps of their own; its accesses of
-- other counters behind that are one step. The lock keeps nobody out here, who finds the transaction
-- executing until its status is set: there are more runs than in the code. Memory is sequentially
-- consistent.
use pevm.Base.{
  ℕ, List, [], ◌∷◌, ◌+◌, ◌<◌, ◌≡◌, Bool, true, false, Option, none, some, ltb, if◌then◌else◌,
  update,
}
use pevm.Types.{TxIdx, TxVersion, Task, execution, validation, FinishExecFlags}
use pevm.Scheduler.{
  Scheduler, new, abort, try_execute, Claim, claimed, refetch, fall_back, claim_validation,
  fetch_validation, fetch_execution, is_enough, is_exhausted, add_dependency, begin_finish,
  end_finish, set_dependents, lower_execution_idx, try_validation_abort, finish_validation,
  set_ready_status, lower_validation_idx, is_passed, retry_execution,
}

pub data Worker : Type 0 where
  polling : Worker  -- head of the loop of `next_task`
  entered : Worker  -- `aborted` loaded
  loaded : (execution_idx : ℕ) → Worker
  compared : (execution_idx validation_idx : ℕ) → Worker
  counted : (num_validated : ℕ) → Worker  -- indices past the block
  claiming : TxIdx → Worker  -- `validation_idx` fetched
  fetching : Worker  -- before `execution_idx.fetch_add`
  trying : TxIdx → Worker  -- `execution_idx` fetched
  executes : TxVersion → Worker  -- in `vm.execute` of `Pevm::try_execute`
  resumes : TxVersion → FinishExecFlags → Worker  -- in the loop of `finish_execution`
  resumed : TxVersion → FinishExecFlags → TxIdx → Worker  -- a dependent made ready
  validates : TxVersion → Worker  -- in `try_validate`
  aborts : TxVersion → Worker  -- `try_validate` behind a successful abort
  confirms : TxVersion → Worker  -- `try_validate` with nothing aborted
  readied : TxVersion → Worker  -- `finish_validation` behind `set_ready_status`
  lowered : TxVersion → Worker  -- `validation_idx` lowered
  retrying : TxVersion → Worker  -- before the `try_execute` of `finish_validation`
  stopped : Worker

abbrev pub start_task : Task → Worker
start_task (execution v) = executes v
start_task (validation v) = validates v

-- A task that an operation returns is the thread's next one.
abbrev pub next_worker : Option Task → Worker
next_worker none = polling
next_worker (some t) = start_task t

abbrev pub claim_worker : Claim → Worker
claim_worker (claimed t) = start_task t
claim_worker refetch = polling
claim_worker fall_back = fetching

abbrev pub tried_worker : Option TxVersion → Worker
tried_worker none = polling
tried_worker (some v) = executes v

-- One step of one thread. What `vm.execute` and `validate_read_locations` answer is left open,
-- but a blocking transaction is a lower one.
pub data Move (s : Scheduler) : Worker → Scheduler → Worker → Type 0 where
  enter : s.aborted ≡ false → Move s polling s entered
  poll : Move s entered s (loaded s.execution_idx)
  load : {e : ℕ} → Move s (loaded e) s (compared e s.validation_idx)
  count : {e v : ℕ} → is_exhausted e v s ≡ true → Move s (compared e v) s (counted s.num_validated)
  break : {n : ℕ} → is_enough n s ≡ true → Move s (counted n) s stopped
  yield_now : {n : ℕ} → is_enough n s ≡ false → Move s (counted n) s polling
  prefer_validation :
      {e v : ℕ}
      → is_exhausted e v s ≡ false
      → ltb v e ≡ true
      → Move s (compared e v) (fetch_validation s) (claiming s.validation_idx)
  prefer_execution :
      {e v : ℕ} → is_exhausted e v s ≡ false → ltb v e ≡ false → Move s (compared e v) s fetching
  claim :
      {i : TxIdx}
      → Move s (claiming i) (claim_validation i s).1 (claim_worker (claim_validation i s).0)
  fetch : Move s fetching (fetch_execution s) (trying s.execution_idx)
  attempt : {i : TxIdx} → Move s (trying i) (try_execute i s).1 (tried_worker (try_execute i s).0)
  executed_ok :
      {v : TxVersion} (flags : FinishExecFlags)
      → begin_finish v s ≡ some tt
      → Move s (executes v) s (resumes v flags)
  resume_dependent :
      {v : TxVersion} {flags : FinishExecFlags} {t : TxIdx} {rest : List TxIdx} {s' : Scheduler}
      → s.transactions_dependents v.tx_idx ≡ t ∷ rest
      → set_ready_status t (set_dependents v.tx_idx rest s) ≡ some s'
      → Move s (resumes v flags) s' (resumed v flags t)
  lower_execution :
      {v : TxVersion} {flags : FinishExecFlags} {t : TxIdx}
      → Move s (resumed v flags t) (lower_execution_idx t s) (resumes v flags)
  finish_all :
      {v : TxVersion} {flags : FinishExecFlags}
      → s.transactions_dependents v.tx_idx ≡ []
      → Move s (resumes v flags) (end_finish v flags s).1 (next_worker (end_finish v flags s).0)
  retry : {v : TxVersion} → Move s (executes v) s (executes v)
  blocked :
      {v : TxVersion} {r : Bool} {s' : Scheduler} (blocking_tx_idx : TxIdx)
      → blocking_tx_idx < v.tx_idx
      → add_dependency v.tx_idx blocking_tx_idx s ≡ some (r, s')
      → Move s (executes v) s' (if r then polling else executes v)
  failed : {v : TxVersion} → Move s (executes v) (abort s) stopped
  valid : {v : TxVersion} → Move s (validates v) s (confirms v)
  invalid :
      {v : TxVersion} {r : Bool} {s' : Scheduler}
      → try_validation_abort v s ≡ some (r, s')
      → Move s (validates v) s' (if r then aborts v else confirms v)
  confirm :
      {v : TxVersion} {r : Option Task} {s' : Scheduler}
      → finish_validation v false s ≡ some (r, s')
      → Move s (confirms v) s' (next_worker r)
  make_ready :
      {v : TxVersion} {s' : Scheduler}
      → set_ready_status v.tx_idx s ≡ some s'
      → Move s (aborts v) s' (readied v)
  lower : {v : TxVersion} → Move s (readied v) (lower_validation_idx (v.tx_idx + 1) s) (lowered v)
  leave : {v : TxVersion} → is_passed v s ≡ false → Move s (lowered v) s polling
  pass : {v : TxVersion} → is_passed v s ≡ true → Move s (lowered v) s (retrying v)
  reexecute :
      {v : TxVersion}
      → Move s (retrying v) (retry_execution v s).1 (next_worker (retry_execution v s).0)
  quit : {p : Worker} → s.aborted ≡ true → Move s p s stopped

pub record System : Type 0 where
  pub scheduler : Scheduler
  pub workers : ℕ → Worker

pub data Step (y : System) : System → Type 0 where
  pick :
      (i : ℕ) {s : Scheduler} {p : Worker}
      → Move y.scheduler (y.workers i) s p
      → Step y (record { scheduler = s; workers = update y.workers i p })

-- `execute_revm_parallel` before its threads take their first step.
abbrev pub init : ℕ → System
init block_size = record { scheduler = new block_size; workers = λ _. polling }

pub data Reach (block_size : ℕ) : System → Type 0 where
  start : Reach block_size (init block_size)
  later : {y z : System} → Reach block_size y → Step y z → Reach block_size z
