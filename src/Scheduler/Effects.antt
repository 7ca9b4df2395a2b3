-- ===== src/Scheduler/Effects.antt =====
-- What a step of a worker does to the statuses and the dependents: an abstract view of
-- crates/pevm/src/scheduler.rs in which counters and the choice of the next task are forgotten.
use pevm.Base.{
  ℕ, ◌<◌, ◌≡◌, true, Option, none, some, ◌⊎◌, List, [], ◌∷◌, ◌++◌, contains, if◌then◌else◌, ◌==◌,
}
use pevm.Types.{
  TxIdx, TxVersion, FinishExecFlags, IncarnationStatus, ready_to_execute, executing, executed,
  validated, aborting, is_executed_or_validated, wrapping_inc,
}
use pevm.Scheduler.{Scheduler}
use pevm.Scheduler.Workers.{
  Worker, polling, executes, validates, aborts, confirms, readied, resumes, resumed,
}

-- The transaction that a worker has to itself.
abbrev pub holds : Worker → Option TxIdx
holds (executes v) = some v.tx_idx
holds (resumes v _) = some v.tx_idx
holds (resumed v _ _) = some v.tx_idx
holds (aborts v) = some v.tx_idx
holds _ = none

abbrev pub status_of : Scheduler → TxIdx → IncarnationStatus
status_of s t = (s.transactions_status t).status

abbrev pub incarnation_of : Scheduler → TxIdx → ℕ
incarnation_of s t = (s.transactions_status t).incarnation

abbrev pub IsExecuting : Scheduler → TxVersion → Type 0
IsExecuting s v =
    (v.tx_idx < s.block_size)
    × (status_of s v.tx_idx ≡ executing)
    × (incarnation_of s v.tx_idx ≡ v.tx_incarnation)

-- What a worker's version says of the scheduler's state.
abbrev pub Held : Scheduler → Worker → Type 0
Held s (executes v) = IsExecuting s v
Held s (resumes v _) = IsExecuting s v
Held s (resumed v _ _) = IsExecuting s v
Held s (aborts v) = (v.tx_idx < s.block_size) × (status_of s v.tx_idx ≡ aborting)
Held s (validates v) = v.tx_idx < s.block_size
Held s (confirms v) = v.tx_idx < s.block_size
Held s _ = Unit

-- `s'` has the statuses and dependents of `s`, but for status `st` and incarnation `k` at `t`.
pub record Sets (s s' : Scheduler) (t : TxIdx) (st : IncarnationStatus) (k : ℕ) : Type 0 where
  pub size : s'.block_size ≡ s.block_size
  pub status : (x : TxIdx) → status_of s' x ≡ (if t == x then st else status_of s x)
  pub incarnation : (x : TxIdx) → incarnation_of s' x ≡ (if t == x then k else incarnation_of s x)
  pub dependents : (b : TxIdx) → s'.transactions_dependents b ≡ s.transactions_dependents b

pub record Keeps (s s' : Scheduler) : Type 0 where
  pub size : s'.block_size ≡ s.block_size
  pub status : (x : TxIdx) → status_of s' x ≡ status_of s x
  pub incarnation : (x : TxIdx) → incarnation_of s' x ≡ incarnation_of s x
  pub dependents : (b : TxIdx) → s'.transactions_dependents b ≡ s.transactions_dependents b

-- `t` waits for `v`, and is put among its dependents.
pub record Parks (s s' : Scheduler) (t b : TxIdx) : Type 0 where
  pub size : s'.block_size ≡ s.block_size
  pub status : (x : TxIdx) → status_of s' x ≡ (if t == x then aborting else status_of s x)
  pub incarnation : (x : TxIdx) → incarnation_of s' x ≡ incarnation_of s x
  pub dependents :
      (x : TxIdx)
      → s'.transactions_dependents x
        ≡ (if b == x then s.transactions_dependents b ++ t ∷ [] else s.transactions_dependents x)

-- `t` is executed, and its dependents are ready for their next incarnation.
pub record Finishes (s s' : Scheduler) (t : TxIdx) (st : IncarnationStatus) : Type 0 where
  pub size : s'.block_size ≡ s.block_size
  pub done : is_executed_or_validated st ≡ true
  pub status :
      (x : TxIdx)
      → status_of s' x ≡ (
          if t == x
          then st
          else if contains (s.transactions_dependents t) x
          then ready_to_execute
          else status_of s x)
  pub incarnation :
      (x : TxIdx)
      → incarnation_of s' x ≡ (
          if contains (s.transactions_dependents t) x
          then wrapping_inc (incarnation_of s x)
          else incarnation_of s x)
  pub dependents :
      (x : TxIdx)
      → s'.transactions_dependents x ≡ (if t == x then [] else s.transactions_dependents x)

-- The dependent `t` of `v` is ready for its next incarnation, and `rest` are left.
pub record Revives (s s' : Scheduler) (v t : TxIdx) (rest : List TxIdx) : Type 0 where
  pub size : s'.block_size ≡ s.block_size
  pub status : (x : TxIdx) → status_of s' x ≡ (if t == x then ready_to_execute else status_of s x)
  pub incarnation :
      (x : TxIdx)
      → incarnation_of s' x
        ≡ (if t == x then wrapping_inc (incarnation_of s x) else incarnation_of s x)
  pub dependents :
      (x : TxIdx)
      → s'.transactions_dependents x ≡ (if v == x then rest else s.transactions_dependents x)

-- The protocol that the comment on `IncarnationStatus` draws, with who takes part in each move.
pub data Effect (s : Scheduler) (p : Worker) (s' : Scheduler) (p' : Worker) : Type 0 where
  quiet : Keeps s s' → holds p' ≡ none → Held s' p' → Effect s p s' p'
  stay : Keeps s s' → holds p' ≡ holds p → (Held s p → Held s p') → Effect s p s' p'
  incarnate :
      (v : TxVersion)
      → v.tx_idx < s.block_size
      → status_of s v.tx_idx ≡ ready_to_execute
      → Sets s s' v.tx_idx executing v.tx_incarnation
      → incarnation_of s v.tx_idx ≡ v.tx_incarnation
      → p' ≡ executes v
      → Effect s p s' p'
  wait :
      (v : TxVersion) (b : TxIdx)
      → p ≡ executes v
      → b < v.tx_idx
      → Parks s s' v.tx_idx b
      → p' ≡ polling
      → Effect s p s' p'
  revive :
      (v : TxVersion) (flags : FinishExecFlags) (t : TxIdx) (rest : List TxIdx)
      → p ≡ resumes v flags
      → s.transactions_dependents v.tx_idx ≡ t ∷ rest
      → Revives s s' v.tx_idx t rest
      → p' ≡ resumed v flags t
      → Effect s p s' p'
  finish :
      (v : TxVersion) (flags : FinishExecFlags) (st : IncarnationStatus)
      → p ≡ resumes v flags
      → is_executed_or_validated st ≡ true
      → Sets s s' v.tx_idx st (incarnation_of s v.tx_idx)
      → (p' ≡ polling) ⊎ (p' ≡ validates v)
      → Effect s p s' p'
  settle :
      (v : TxVersion)
      → p ≡ confirms v
      → status_of s v.tx_idx ≡ executed
      → Sets s s' v.tx_idx validated (incarnation_of s v.tx_idx)
      → p' ≡ polling
      → Effect s p s' p'
  abandon :
      (v : TxVersion)
      → v.tx_idx < s.block_size
      → is_executed_or_validated (status_of s v.tx_idx) ≡ true
      → Sets s s' v.tx_idx aborting (incarnation_of s v.tx_idx)
      → p' ≡ aborts v
      → Effect s p s' p'
  resume :
      (v : TxVersion)
      → p ≡ aborts v
      → Sets s s' v.tx_idx ready_to_execute (wrapping_inc (incarnation_of s v.tx_idx))
      → p' ≡ readied v
      → Effect s p s' p'
