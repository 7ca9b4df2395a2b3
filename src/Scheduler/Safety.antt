-- ===== src/Scheduler/Safety.antt =====
-- The scheduler of crates/pevm/src/scheduler.rs and its workers in the reachable states.
use pevm.Base.{
  true, contains, Nodup, some, ℕ, ◌<◌, ◌≡◌, ◌≢◌, refl, ◌∙◌, subst, false, none, List, ◌∷◌, arith,
}
use pevm.Types.{aborting, TxIdx, TxVersion, FinishExecFlags, executing}
use pevm.Scheduler.{
  Scheduler, new, add_dependency, finish_execution, try_validation_abort, finish_validation,
  set_ready_status, set_dependents,
}
use pevm.Scheduler.Workers.{
  Worker, executes, resumes, validates, aborts, confirms, polling, System, Step, pick, Reach, start,
  later, Move,
}
use pevm.Scheduler.Effects.{holds, status_of, incarnation_of, Held, Effect}
use pevm.Scheduler.Exclusion.{Waits, Inv, Effect-Inv, Effect-size}
use pevm.Scheduler.Protocol.{finish_execution-Finishes}
use pevm.Scheduler.Steps.{Move-Effect}

Inv-init : (n : ℕ) → Inv (new n) (λ _. polling)
unfolding new
Inv-init n = record {
  held = λ i. tt;
  once = λ i j t x y. cc;
  parked = λ b t c. cc;
  apart = λ b t i c. cc;
  one_list = λ b c t x y. cc;
  nodup = λ b. tt;
}

pub Step-Effect :
    {y : System} {s : Scheduler} {p : Worker} (i : ℕ)
    → Inv y.scheduler y.workers
    → Move y.scheduler (y.workers i) s p
    → Effect y.scheduler (y.workers i) s p
Step-Effect i inv m = Move-Effect inv i m refl (inv.held i)

-- Every step of any worker keeps the invariant.
pub Step-Inv : {y z : System} → Step y z → Inv y.scheduler y.workers → Inv z.scheduler z.workers
Step-Inv {y} (pick i m) inv = Effect-Inv inv i (Step-Effect {y = y} i inv m)

pub Reach-Inv : {n : ℕ} {y : System} → Reach n y → Inv y.scheduler y.workers
Reach-Inv {n} start = Inv-init n
Reach-Inv (later r st) = Step-Inv st (Reach-Inv r)

new-size : (n : ℕ) → (new n).block_size ≡ n
unfolding new
new-size n = refl

-- The block's size never changes.
pub Reach-size : {n : ℕ} {y : System} → Reach n y → y.scheduler.block_size ≡ n
Reach-size {n} start = new-size n
Reach-size (later {y} r (pick i m)) =
    Effect-size (Step-Effect {y = y} i (Reach-Inv r) m) ∙ Reach-size r

-- In every reachable state two workers of which each executes a transaction, is in
-- `finish_execution` with it, or has aborted it and not yet made it ready, are the same worker if it
-- is the same transaction.
pub exclusive_execution :
    {n : ℕ} {y : System}
    → Reach n y
    → (i j : ℕ) (t : TxIdx) → holds (y.workers i) ≡ some t
    → holds (y.workers j) ≡ some t
    → i ≡ j
exclusive_execution r i j t a b = (Reach-Inv r).once i j t a b

-- In every reachable state a worker executes a version of a transaction of the block, whose status
-- is executing with the version's incarnation.
pub executes_current :
    {n : ℕ} {y : System}
    → Reach n y
    → (i : ℕ) (v : TxVersion) → y.workers i ≡ executes v
    → (v.tx_idx < y.scheduler.block_size)
      × (status_of y.scheduler v.tx_idx ≡ executing)
      × (incarnation_of y.scheduler v.tx_idx ≡ v.tx_incarnation)
executes_current {y} r i v e = subst (Held y.scheduler) e ((Reach-Inv r).held i)

-- The calls of the scheduler that a worker may make next are defined: no index is out of range, no
-- debug assertion fails, no lock is taken twice.
abbrev pub Safe : Scheduler → Worker → Type 0
Safe s (executes v) =
    ((flags : FinishExecFlags) → finish_execution v flags s ≢ none)
    × ((b : TxIdx) → b < v.tx_idx → add_dependency v.tx_idx b s ≢ none)
Safe s (resumes v flags) =
    (t : TxIdx) (rest : List TxIdx)
    → s.transactions_dependents v.tx_idx ≡ t ∷ rest
    → set_ready_status t (set_dependents v.tx_idx rest s) ≢ none
Safe s (validates v) = try_validation_abort v s ≢ none
Safe s (confirms v) = finish_validation v false s ≢ none
Safe s (aborts v) = set_ready_status v.tx_idx s ≢ none
Safe s _ = Unit

add_dependency-ne-none :
    (v : TxVersion) (b : TxIdx) (s : Scheduler)
    → Held s (executes v)
    → b < v.tx_idx
    → add_dependency v.tx_idx b s ≢ none
unfolding add_dependency
add_dependency-ne-none v b s h lt e = ground arith

validation-ne-none :
    (v : TxVersion) (s : Scheduler) → v.tx_idx < s.block_size → try_validation_abort v s ≢ none
unfolding try_validation_abort
validation-ne-none v s lt e = ground arith

confirm-ne-none :
    (v : TxVersion) (s : Scheduler) → v.tx_idx < s.block_size → finish_validation v false s ≢ none
unfolding finish_validation
confirm-ne-none v s lt e = ground arith

set_ready_status-ne-none :
    (v : TxVersion) (s : Scheduler) → Held s (aborts v) → set_ready_status v.tx_idx s ≢ none
unfolding set_ready_status
set_ready_status-ne-none v s h e = ground arith

revive-ne-none :
    (v : TxVersion) (t : TxIdx) (rest : List TxIdx) (s : Scheduler)
    → Waits s v.tx_idx t
    → set_ready_status t (set_dependents v.tx_idx rest s) ≢ none
unfolding set_ready_status
revive-ne-none v t rest s w e = ground (arith, w.inside, w.status)

Safe-at :
    {s : Scheduler} {ws : ℕ → Worker} (inv : Inv s ws) (i : ℕ) (w : Worker)
    → ws i ≡ w
    → Held s w
    → Safe s w
Safe-at {s} inv i (executes v) e h = (
  λ flags n. let (r, s', e₁, m, t) = finish_execution-Finishes inv i v flags e in ground arith,
  λ b lt. add_dependency-ne-none v b s h lt,
)
Safe-at {s} inv i (resumes v flags) e h =
    λ t rest u. revive-ne-none v t rest s (inv.parked v.tx_idx t (ground arith))
Safe-at {s} inv i (validates v) e h = validation-ne-none v s h
Safe-at {s} inv i (confirms v) e h = confirm-ne-none v s h
Safe-at {s} inv i (aborts v) e h = set_ready_status-ne-none v s h
Safe-at inv i _ e h = tt

-- In every reachable state no call of the scheduler that a worker may make next faults.
pub calls_Safe : {n : ℕ} {y : System} → Reach n y → (i : ℕ) → Safe y.scheduler (y.workers i)
calls_Safe {y} r i = Safe-at (Reach-Inv r) i (y.workers i) refl ((Reach-Inv r).held i)

-- In every reachable state a transaction among the dependents of another is higher than it, in the
-- block and aborting; it is among those of no other, once, and no worker has it.
pub dependents_wait :
    {n : ℕ} {y : System}
    → Reach n y
    → (b t : TxIdx) → contains (y.scheduler.transactions_dependents b) t ≡ true
    → (b < t)
      × (t < y.scheduler.block_size)
      × (status_of y.scheduler t ≡ aborting)
      × Nodup (y.scheduler.transactions_dependents b)
      × ((c : TxIdx) → contains (y.scheduler.transactions_dependents c) t ≡ true → b ≡ c)
      × ((i : ℕ) → holds (y.workers i) ≢ some t)
dependents_wait r b t c =
    let inv = Reach-Inv r in
    let w = inv.parked b t c in
    (
      w.higher,
      w.inside,
      w.status,
      inv.nodup b,
      λ d e. inv.one_list b d t c e,
      λ i. inv.apart b t i c,
    )
