-- ===== src/Scheduler/Alone.antt =====
-- `next_task` and `finish_validation` of crates/pevm/src/scheduler.rs, run by one thread while the
-- others wait, as steps of a worker.
use pevm.Base.{Option, none, some}
use pevm.Types.{Task}
use pevm.Scheduler.{Scheduler, Turn, finished, again, found}
use pevm.Scheduler.Workers.{Worker, polling, stopped, start_task, Move}

-- Steps of one worker, one after another.
pub data Alone (s : Scheduler) (p : Worker) : Scheduler → Worker → Type 0 where
  begin : Alone s p s p
  next : {s₁ s₂ : Scheduler} {p₁ p₂ : Worker} → Alone s p s₁ p₁ → Move s₁ p₁ s₂ p₂ → Alone s p s₂ p₂

-- Where a turn of the loop leaves the worker.
abbrev turn_worker : Turn → Worker
turn_worker finished = stopped
turn_worker again = polling
turn_worker (found t) = start_task t

-- Where `next_task` leaves the worker.
abbrev pub returned_worker : Option Task → Worker
returned_worker none = stopped
returned_worker (some t) = start_task t
