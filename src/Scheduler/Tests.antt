-- ===== src/Scheduler/Tests.antt =====
-- Runs of the scheduler on small blocks, and the theorems at concrete inputs.
use pevm.Base.{
  ◌≢◌, contains, Nodup, true, ℕ, ◌≡◌, refl, false, Option, none, some, [], ◌∷◌, arith, ◌<◌, ◌==◌,
  if◌then◌else◌,
}
use pevm.MvMemory.{MvMemory, validate_read_locations, convert_writes_to_estimates}
use pevm.Types.{
  TxIdx, execution, aborting, estimate, from_storage, TxVersion, Task, FinishExecFlags, executing,
  executed, validated,
}
use pevm.Scheduler.{
  turn, add_dependency, finish_validation, Scheduler, new, try_execute, fetch_execution, next_task,
  finish_execution, is_done, resume_dependents,
}
use pevm.Scheduler.Alone.{Alone}
use pevm.Scheduler.Workers.{
  blocked, System, pick, Reach, start, later, enter, poll, load, prefer_execution, fetch, attempt,
}
use pevm.Scheduler.Effects.{holds, status_of, incarnation_of}
use pevm.Scheduler.Safety.{dependents_wait, exclusive_execution, executes_current, calls_Safe, Safe}
use pevm.Scheduler.Progress.{next_task_total, Fits}
use pevm.Scheduler.Counters.{finish_execution-Settled, Settled}
use pevm.Scheduler.Statuses.{Step-Moves, Moves}
use pevm.Scheduler.Reexecution.{try_validate, try_validate-Rescheduled, Rescheduled, following}

abbrev first : TxVersion
first = record { tx_idx = 0; tx_incarnation = 0 }

abbrev no_flags : FinishExecFlags
no_flags = record { need_validation = false; wrote_new_location = false }

-- A block of two transactions; worker 0 is about to try the first.
abbrev trying_first : (y : System) × Reach 2 y
unfolding new fetch_execution
trying_first = (
  _,
  later
      (later (later (later (later start (pick 0 (enter refl))) (pick 0 poll)) (pick 0 load))
        (pick 0 (prefer_execution refl refl)))
      (pick 0 fetch),
)

-- Worker 0 executes it.
abbrev executing_first : (y : System) × Reach 2 y
unfolding new fetch_execution try_execute
executing_first = (_, later trying_first.1 (pick 0 attempt))

exclusive_execution_example : ◌≡◌ {A = ℕ} 0 0
unfolding new fetch_execution try_execute
exclusive_execution_example = exclusive_execution executing_first.1 0 0 0 refl refl

executes_current_example :
    (0 < executing_first.0.scheduler.block_size)
    × (status_of executing_first.0.scheduler 0 ≡ executing)
    × (incarnation_of executing_first.0.scheduler 0 ≡ 0)
unfolding new fetch_execution try_execute
executes_current_example = executes_current executing_first.1 0 first refl

calls_Safe_example : Safe executing_first.0.scheduler (executing_first.0.workers 0)
unfolding new fetch_execution try_execute
calls_Safe_example = calls_Safe executing_first.1 0

Step-Moves_example : Moves trying_first.0.scheduler executing_first.0.scheduler 0
unfolding new fetch_execution try_execute
Step-Moves_example = Step-Moves trying_first.1 (pick 0 attempt) 0

next_task_total_example :
    (r : Option Task) × (s' : Scheduler) × (next_task 5 (new 2) ≡ some (r, s')) × Fits (new 2) s' r
unfolding new is_done
next_task_total_example = next_task_total 5 (new 2) (omega arith) (omega arith, omega arith) refl

-- Worker 1 executes the second transaction, which waits for the first.
abbrev second : TxVersion
second = record { tx_idx = 1; tx_incarnation = 0 }

abbrev waiting_second : (y : System) × Reach 2 y
unfolding new fetch_execution try_execute add_dependency
waiting_second = (
  _,
  later
      (later
        (later
          (later
            (later (later (later executing_first.1 (pick 1 (enter refl))) (pick 1 poll))
              (pick 1 load))
            (pick 1 (prefer_execution refl refl)))
          (pick 1 fetch))
        (pick 1 attempt))
      (pick 1 (blocked {v = second} {r = true} 0 (omega arith) refl)),
)

dependents_wait_example :
    (0 < 1)
    × (1 < waiting_second.0.scheduler.block_size)
    × (status_of waiting_second.0.scheduler 1 ≡ aborting)
    × Nodup (waiting_second.0.scheduler.transactions_dependents 0)
    × ((c : TxIdx)
        → contains (waiting_second.0.scheduler.transactions_dependents c) 1 ≡ true
        → 0 ≡ c)
    × ((i : ℕ) → holds (waiting_second.0.workers i) ≢ some 1)
unfolding new fetch_execution try_execute add_dependency
dependents_wait_example = dependents_wait waiting_second.1 0 1 refl

-- One worker takes its first task.
abbrev first_task : (s' : Scheduler) × (next_task 1 (new 2) ≡ some (some (execution first), s'))
unfolding new fetch_execution try_execute next_task turn
first_task = (_, refl)

-- Transaction 1 of four is executing, between the first validated one and the validation index.
abbrev between : Scheduler
between = record {
  block_size = 4;
  transactions_status = λ _. record { incarnation = 0; status = executing };
  transactions_dependents = λ _. [];
  execution_idx = 4;
  validation_idx = 3;
  min_validation_idx = 0;
  num_validated = 0;
  aborted = false;
}

-- One transaction is validated, and two are counted.
counted_twice :
    (s' : Scheduler) × (finish_execution second no_flags between ≡ some (none, s'))
    × (s'.num_validated ≡ 2)
    × (status_of s' 1 ≡ validated)
unfolding finish_execution resume_dependents
counted_twice = (_, refl, refl, refl)

finish_execution-Settled_example : Settled second no_flags between counted_twice.0 none
unfolding finish_execution resume_dependents counted_twice
finish_execution-Settled_example =
    finish_execution-Settled second no_flags between counted_twice.0 none refl

-- Transaction 1 is executed at incarnation 5, and a validation of incarnation 0 fails.
abbrev stale : Scheduler
stale = record between { transactions_status = λ _. record { incarnation = 5; status = executed } }

-- Its validation was aborted.
abbrev aborted : Scheduler
aborted = record between {
  transactions_status = λ _. record { incarnation = 0; status = aborting };
}

abbrev reexecuted :
    (s' : Scheduler) × (finish_validation second true aborted
      ≡ some (some (execution (record { tx_idx = 1; tx_incarnation = 1 })), s'))
unfolding finish_validation
reexecuted = (_, refl)

-- Transaction 1 read location 40 from the storage, where transaction 0 has an estimate now.
abbrev outdated : MvMemory ℕ
outdated = record {
  entries = λ l. some (λ i. if i == 0 then some estimate else none);
  block_size = 4;
  last_locations = λ i. record { read = (40, from_storage ∷ []) ∷ []; write = [] };
  lazy_addresses = [];
  new_bytecodes = λ h. none;
}

try_validate-Rescheduled_example :
    (r : Option Task) × (s' : Scheduler) × (try_validate second outdated stale
      ≡ some (r, outdated, s'))
    × Rescheduled (following second stale) stale s' r
unfolding validate_read_locations convert_writes_to_estimates
try_validate-Rescheduled_example =
    try_validate-Rescheduled second outdated outdated stale (omega arith) refl refl refl
