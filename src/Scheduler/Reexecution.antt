-- ===== src/Scheduler/Reexecution.antt =====
-- `try_validate` of crates/pevm/src/pevm.rs when no other thread runs meanwhile, and what a failing
-- validation does to the scheduler of crates/pevm/src/scheduler.rs: abort, then reschedule.
use pevm.Base.{
  ◌+◌, ◌<◌, ◌≡◌, ◌≢◌, inl, inr, Option-cases, Bool, true, false, Option, none, some, arith,
  if◌then◌else◌, ltb, min,
}
use pevm.Types.{
  TxIdx, TxVersion, Task, execution, ready_to_execute, executing, is_executed_or_validated,
  wrapping_inc,
}
use pevm.MvMemory.{MvMemory, validate_read_locations, convert_writes_to_estimates}
use pevm.Scheduler.{Scheduler, try_validation_abort, finish_validation, ◌>>=◌}
use pevm.Scheduler.Effects.{status_of, incarnation_of}

abbrev abort_unless : Bool → TxVersion → Scheduler → Option (Bool × Scheduler)
abort_unless valid v s = if valid then some (false, s) else try_validation_abort v s

abbrev estimate_if :
    {Bytecode : Type 0} → Bool → TxVersion → MvMemory Bytecode → Option (MvMemory Bytecode)
estimate_if aborted v mem = if aborted then convert_writes_to_estimates v.tx_idx mem else some mem

pub try_validate :
    {Bytecode : Type 0}
    → TxVersion
    → MvMemory Bytecode
    → Scheduler
    → Option (Option Task × MvMemory Bytecode × Scheduler)
unfolding try_validation_abort finish_validation
try_validate v mem s = do
  valid ← validate_read_locations v.tx_idx mem
  (aborted, s') ← abort_unless valid v s
  mem' ← estimate_if aborted v mem
  (r, s'') ← finish_validation v aborted s'
  some (r, mem', s'')

-- The calls of the scheduler when the read set is not valid.
validate_invalid : TxVersion → Scheduler → Option (Option Task × Scheduler)
unfolding try_validation_abort finish_validation
validate_invalid v s = do (aborted, s') ← try_validation_abort v s; finish_validation v aborted s'

-- The version that a rescheduled transaction has next.
abbrev pub following : TxVersion → Scheduler → TxVersion
following v s = record {
  tx_idx = v.tx_idx;
  tx_incarnation = wrapping_inc (incarnation_of s v.tx_idx);
}

-- What a successful abort leaves for transaction `i` whose next version is `w`.
pub record Rescheduled (w : TxVersion) (s s' : Scheduler) (r : Option Task) : Type 0 where
  pub task : r ≡ (if ltb w.tx_idx s.execution_idx then some (execution w) else none)
  pub status :
      status_of s' w.tx_idx ≡ (if ltb w.tx_idx s.execution_idx then executing else ready_to_execute)
  pub incarnation : incarnation_of s' w.tx_idx ≡ w.tx_incarnation
  pub validation : s'.validation_idx ≡ min s.validation_idx (w.tx_idx + 1)
  pub others : (x : TxIdx) → (w.tx_idx ≡ x → ⊥) → s'.transactions_status x ≡ s.transactions_status x

validate_invalid-ne-none :
    (v : TxVersion) (s : Scheduler)
    → v.tx_idx < s.block_size
    → is_executed_or_validated (status_of s v.tx_idx) ≡ true
    → validate_invalid v s ≢ none
unfolding validate_invalid
validate_invalid-ne-none v s lt e n = ground arith

Rescheduled-at :
    (v : TxVersion) (s s' : Scheduler) (r : Option Task)
    → v.tx_idx < s.block_size
    → is_executed_or_validated (status_of s v.tx_idx) ≡ true
    → validate_invalid v s ≡ some (r, s')
    → Rescheduled (following v s) s s' r
unfolding validate_invalid
Rescheduled-at v s s' r lt e q = record {
  task = ground arith;
  status = ground arith;
  incarnation = ground arith;
  validation = ground arith;
  others = λ x ne. ground arith;
}

validate_invalid-Rescheduled :
    (v : TxVersion) (s : Scheduler)
    → v.tx_idx < s.block_size
    → is_executed_or_validated (status_of s v.tx_idx) ≡ true
    → (r : Option Task) × (s' : Scheduler) × (validate_invalid v s ≡ some (r, s'))
      × Rescheduled (following v s) s s' r
validate_invalid-Rescheduled v s lt e = elim (Option-cases (validate_invalid v s)) [
  | inl n ↦ absurd (validate_invalid-ne-none v s lt e n)
  | inr ((r, s'), q) ↦ (r, s', q, Rescheduled-at v s s' r lt e q)
]

-- Behind a read set that is not valid, what `try_validate` does to the scheduler.
try_validate-invalid :
    {Bytecode : Type 0} (v : TxVersion) (mem mem' : MvMemory Bytecode) (s s' : Scheduler)
    (r : Option Task)
    → is_executed_or_validated (status_of s v.tx_idx) ≡ true
    → validate_read_locations v.tx_idx mem ≡ some false
    → convert_writes_to_estimates v.tx_idx mem ≡ some mem'
    → validate_invalid v s ≡ some (r, s')
    → try_validate v mem s ≡ some (r, mem', s')
unfolding try_validate validate_invalid
try_validate-invalid v mem mem' s s' r x e c q = rw (e, c, x) (ground (arith, q, x))

-- A failing validation of a transaction that is executed or validated reschedules it at the next
-- incarnation of its status, whatever incarnation the validated version has: it is executed at once
-- in the same thread if the execution index has passed it, and is ready otherwise. The transactions
-- behind it are to be validated again, no other status changes, and the memory has its writes as
-- estimates.
pub try_validate-Rescheduled :
    {Bytecode : Type 0} (v : TxVersion) (mem mem' : MvMemory Bytecode) (s : Scheduler)
    → v.tx_idx < s.block_size
    → is_executed_or_validated (status_of s v.tx_idx) ≡ true
    → validate_read_locations v.tx_idx mem ≡ some false
    → convert_writes_to_estimates v.tx_idx mem ≡ some mem'
    → (r : Option Task) × (s' : Scheduler) × (try_validate v mem s ≡ some (r, mem', s'))
      × Rescheduled (following v s) s s' r
try_validate-Rescheduled v mem mem' s lt x e c =
    let (r, s', q, h) = validate_invalid-Rescheduled v s lt x in
    (r, s', try_validate-invalid v mem mem' s s' r x e c q, h)
