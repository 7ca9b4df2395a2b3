-- ===== src/Scheduler/Protocol.antt =====
-- The operations of crates/pevm/src/scheduler.rs against the protocol of Scheduler.Effects.
use pevm.Base.{
  ℕ, ◌<◌, ◌≡◌, refl, subst, ◌∙◌, true, false, Option, none, some, List, [], ◌∷◌, arith, contains,
  Nodup, if◌then◌else◌, ◌==◌, update, inl, inr, ◌⊎◌, Bool-cases, min, ltb, lt→ltb, ◌&&◌,
}
use pevm.Types.{
  TxIdx, TxVersion, Task, validation, FinishExecFlags, IncarnationStatus, ready_to_execute,
  executing, executed, validated, aborting, is_ready_to_execute, is_executed_or_validated,
  wrapping_inc,
}
use pevm.Scheduler.{
  Scheduler, try_execute, claim_validation, set_ready_status, resume_dependents, decide_validation,
  finish_execution, add_dependency, try_validation_abort, version_at,
}
use pevm.Scheduler.Workers
use pevm.Scheduler.Workers.{
  Worker, executes, aborts, validates, confirms, polling, Move, next_worker,
}
use pevm.Scheduler.Effects.{
  status_of, incarnation_of, Held, Sets, Keeps, Parks, Finishes, Effect, quiet, incarnate,
}
use pevm.Scheduler.Exclusion.{Inv}

-- What the loop over the drained dependents has done.
record Resumed (s s' : Scheduler) (ts : List TxIdx) : Type 0 where
  size : s'.block_size ≡ s.block_size
  status :
      (x : TxIdx) → status_of s' x ≡ (if contains ts x then ready_to_execute else status_of s x)
  incarnation :
      (x : TxIdx)
      → incarnation_of s' x
        ≡ (if contains ts x then wrapping_inc (incarnation_of s x) else incarnation_of s x)
  dependents : (b : TxIdx) → s'.transactions_dependents b ≡ s.transactions_dependents b

abbrev ready : Scheduler → TxIdx → Scheduler
ready s t = record s {
  transactions_status =
      update s.transactions_status t
        (record { incarnation = wrapping_inc (incarnation_of s t); status = ready_to_execute });
  execution_idx = min s.execution_idx t;
}

resume_one :
    (t : TxIdx) (ts : List TxIdx) (s : Scheduler)
    → t < s.block_size
    → status_of s t ≡ aborting
    → resume_dependents (t ∷ ts) s ≡ resume_dependents ts (ready s t)
unfolding resume_dependents set_ready_status
resume_one t ts s lt e = ground arith

resume_dependents-Resumed :
    (ts : List TxIdx) (s : Scheduler)
    → Nodup ts
    → ((t : TxIdx) → contains ts t ≡ true → (t < s.block_size) × (status_of s t ≡ aborting))
    → (s' : Scheduler) × (resume_dependents ts s ≡ some s') × Resumed s s' ts
unfolding resume_dependents
resume_dependents-Resumed [] s d h = (
  s,
  refl,
  record { size = refl; status = λ x. refl; incarnation = λ x. refl; dependents = λ b. refl },
)
resume_dependents-Resumed (t ∷ ts) s d h =
    let (s', e, r) = resume_dependents-Resumed ts (ready s t) d.1 (λ x c. ground (arith, h x)) in
    let ht : (t < s.block_size) × (status_of s t ≡ aborting) = h t (ground arith) in
    (
      s',
      resume_one t ts s ht.0 ht.1 ∙ e,
      record {
        size = r.size;
        status = λ x. ground (arith, r.status x);
        incarnation = λ x. ground (arith, r.incarnation x);
        dependents = λ b. r.dependents b;
      },
    )

-- What `finish_execution` does behind the loop over the dependents.
pub record Decided (v : TxVersion) (s s' : Scheduler) (r : Option Task) : Type 0 where
  pub size : s'.block_size ≡ s.block_size
  pub done : is_executed_or_validated (status_of s' v.tx_idx) ≡ true
  pub status :
      (x : TxIdx)
      → status_of s' x ≡ (if v.tx_idx == x then status_of s' v.tx_idx else status_of s x)
  pub incarnation : (x : TxIdx) → incarnation_of s' x ≡ incarnation_of s x
  pub dependents : (b : TxIdx) → s'.transactions_dependents b ≡ s.transactions_dependents b
  pub task : (r ≡ none) ⊎ (r ≡ some (validation v))

pub decide_validation-Decided :
    (v : TxVersion) (flags : FinishExecFlags) (s : Scheduler)
    → Decided v s (decide_validation v flags s).1 (decide_validation v flags s).0
unfolding decide_validation
decide_validation-Decided v flags s = record {
  size = ground arith;
  done = ground arith;
  status = λ x. ground arith;
  incarnation = λ x. ground arith;
  dependents = λ b. ground arith;
  task = ground arith;
}

abbrev drained : TxIdx → Scheduler → Scheduler
drained i s = record s { transactions_dependents = update s.transactions_dependents i [] }

finish_execution-step :
    (v : TxVersion) (flags : FinishExecFlags) (s s' : Scheduler)
    → Held s (executes v)
    → resume_dependents (s.transactions_dependents v.tx_idx) (drained v.tx_idx s) ≡ some s'
    → finish_execution v flags s
      ≡ some (
          decide_validation v flags (
            if flags.need_validation
            then record s' { min_validation_idx = min s'.min_validation_idx v.tx_idx }
            else s'))
unfolding finish_execution
finish_execution-step v flags s s' h e = ground arith

module _ {s : Scheduler} {ws : ℕ → Worker} (inv : Inv s ws) (i : ℕ) where
  open inv use {held, parked, apart, nodup}

  -- The worker that executes a version can finish it: nothing faults.
  pub finish_execution-Finishes :
      (v : TxVersion) (flags : FinishExecFlags)
      → ws i ≡ executes v
      → (r : Option Task) × (s' : Scheduler) × (finish_execution v flags s ≡ some (r, s'))
        × Finishes s s' v.tx_idx (status_of s' v.tx_idx)
        × ((r ≡ none) ⊎ (r ≡ some (validation v)))
  finish_execution-Finishes v flags e =
      let h : Held s (executes v) = subst (Held s) e (held i) in
      let (s₁, e₁, m) =
        resume_dependents-Resumed (s.transactions_dependents v.tx_idx) (drained v.tx_idx s)
          (nodup v.tx_idx) (λ t c. ((parked v.tx_idx t c).inside, (parked v.tx_idx t c).status)) in
      let s₂ : Scheduler =
        if flags.need_validation
        then record s₁ { min_validation_idx = min s₁.min_validation_idx v.tx_idx }
        else s₁ in
      let d : Decided v s₂ (decide_validation v flags s₂).1 (decide_validation v flags s₂).0 =
        decide_validation-Decided v flags s₂ in
      (
        (decide_validation v flags s₂).0,
        (decide_validation v flags s₂).1,
        finish_execution-step v flags s s₁ h e₁,
        record {
          size = ground (arith, d.size, m.size);
          done = d.done;
          status = λ x. ground (arith, d.status x, m.status x);
          incarnation = λ x. ground (arith, d.incarnation x, m.incarnation x);
          dependents = λ b. ground (arith, d.dependents b, m.dependents b);
        },
        d.task,
      )

pub keeps : (s : Scheduler) → Keeps s s
keeps s = record {
  size = refl;
  status = λ x. refl;
  incarnation = λ x. refl;
  dependents = λ b. refl;
}

pub try_execute-Effect :
    (p : Worker) (t : TxIdx) (s : Scheduler)
    → Effect s p (try_execute t s).1 (Workers.tried_worker (try_execute t s).0)
unfolding try_execute
try_execute-Effect p t s =
    elim (Bool-cases (ltb t s.block_size && is_ready_to_execute (status_of s t))) [
      | inl e ↦ rw e (
          incarnate (version_at t s) (ground arith) (ground arith)
            (record {
              size = refl;
              status = λ x. ground arith;
              incarnation = λ x. ground arith;
              dependents = λ b. refl;
            })
            refl refl)
      | inr e ↦ rw e (quiet (keeps s) refl tt)
    ]

pub claim_validation-Effect :
    (p : Worker) (t : TxIdx) (s : Scheduler) (st : IncarnationStatus)
    → status_of s t ≡ st
    → t < s.block_size
    → Effect s p (claim_validation t s).1 (Workers.claim_worker (claim_validation t s).0)
unfolding claim_validation
claim_validation-Effect p t s ready_to_execute e lt =
    rw (lt→ltb t s.block_size lt, e)
      (incarnate (version_at t s) lt e
        (record {
          size = refl;
          status = λ x. ground arith;
          incarnation = λ x. ground arith;
          dependents = λ b. refl;
        })
        refl refl)
claim_validation-Effect p t s executing e lt =
    rw (lt→ltb t s.block_size lt, e) (quiet (keeps s) refl tt)
claim_validation-Effect p t s executed e lt =
    rw (lt→ltb t s.block_size lt, e) (quiet (keeps s) refl lt)
claim_validation-Effect p t s validated e lt =
    rw (lt→ltb t s.block_size lt, e) (quiet (keeps s) refl lt)
claim_validation-Effect p t s aborting e lt =
    rw (lt→ltb t s.block_size lt, e) (quiet (keeps s) refl tt)

pub claim_validation-outside :
    (p : Worker) (t : TxIdx) (s : Scheduler)
    → ltb t s.block_size ≡ false
    → Effect s p (claim_validation t s).1 (Workers.claim_worker (claim_validation t s).0)
unfolding claim_validation
claim_validation-outside p t s e = rw e (quiet (keeps s) refl tt)

pub add_dependency-Parks :
    (v : TxVersion) (b : TxIdx) (s s' : Scheduler)
    → add_dependency v.tx_idx b s ≡ some (true, s')
    → Parks s s' v.tx_idx b
unfolding add_dependency
add_dependency-Parks v b s s' e = record {
  size = ground arith;
  status = λ x. ground arith;
  incarnation = λ x. ground arith;
  dependents = λ x. ground arith;
}

pub add_dependency-Keeps :
    (v : TxVersion) (b : TxIdx) (s s' : Scheduler)
    → add_dependency v.tx_idx b s ≡ some (false, s')
    → Keeps s s'
unfolding add_dependency
add_dependency-Keeps v b s s' e = record {
  size = ground arith;
  status = λ x. ground arith;
  incarnation = λ x. ground arith;
  dependents = λ x. ground arith;
}

pub try_validation_abort-Keeps :
    (v : TxVersion) (s s' : Scheduler) → try_validation_abort v s ≡ some (false, s') → Keeps s s'
unfolding try_validation_abort
try_validation_abort-Keeps v s s' e = record {
  size = ground arith;
  status = λ x. ground arith;
  incarnation = λ x. ground arith;
  dependents = λ x. ground arith;
}

pub try_validation_abort-Sets :
    (v : TxVersion) (s s' : Scheduler)
    → try_validation_abort v s ≡ some (true, s')
    → (is_executed_or_validated (status_of s v.tx_idx) ≡ true)
      × Sets s s' v.tx_idx aborting (incarnation_of s v.tx_idx)
unfolding try_validation_abort
try_validation_abort-Sets v s s' e = (
  ground arith,
  record {
    size = ground arith;
    status = λ x. ground arith;
    incarnation = λ x. ground arith;
    dependents = λ x. ground arith;
  },
)
