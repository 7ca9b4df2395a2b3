-- ===== src/Scheduler/Steps.antt =====
-- The workers' steps of crates/pevm/src/pevm.rs against the protocol of Scheduler.Effects.
use pevm.Base.{
  ℕ, ◌≡◌, refl, ap, true, false, Option, none, some, List, arith, inl, inr, Bool-cases, ltb, min,
  if◌then◌else◌,
}
use pevm.Types.{
  TxIdx, TxVersion, FinishExecFlags, Task, ready_to_execute, is_executed, wrapping_inc,
}
use pevm.Scheduler.{
  Scheduler, abort, fetch_validation, fetch_execution, finish_validation, set_ready_status,
  retry_execution, try_execute, execution_task, set_dependents, decide_validation, end_finish,
}
use pevm.Scheduler.Workers.{
  Worker, resumes, confirms, Move, enter, poll, load, count, break, yield_now, prefer_validation,
  prefer_execution, claim, fetch, attempt, executed_ok, resume_dependent, lower_execution,
  finish_all, retry, blocked, failed, valid, invalid, confirm, make_ready, lower, leave, pass,
  reexecute, quit, next_worker, tried_worker, claiming, retrying,
}
use pevm.Scheduler.Effects.{
  status_of, incarnation_of, Held, Sets, Revives, Effect, quiet, stay, wait, revive, finish, settle,
  abandon, resume,
}
use pevm.Scheduler.Exclusion.{Inv}
use pevm.Scheduler.Protocol.{
  keeps, try_execute-Effect, claim_validation-Effect, claim_validation-outside,
  add_dependency-Parks, add_dependency-Keeps, try_validation_abort-Keeps, try_validation_abort-Sets,
  Decided, decide_validation-Decided,
}

-- The two outcomes of a confirmed validation: the status moves on, or nothing changes.
confirm-Effect :
    (v : TxVersion) (s s' : Scheduler) (r : Option Task)
    → finish_validation v false s ≡ some (r, s')
    → Effect s (confirms v) s' (next_worker r)
unfolding finish_validation
confirm-Effect v s s' (some t) e = absurd (ground arith)
confirm-Effect v s s' none e = elim (Bool-cases (is_executed (status_of s v.tx_idx))) [
  | inl c ↦
      settle v refl (ground arith)
        (record {
          size = ground arith;
          status = λ x. ground arith;
          incarnation = λ x. ground arith;
          dependents = λ x. ground arith;
        })
        refl
  | inr c ↦
      quiet
        (record {
          size = ground arith;
          status = λ x. ground arith;
          incarnation = λ x. ground arith;
          dependents = λ x. ground arith;
        })
        refl tt
]

set_ready_status-Sets :
    (v : TxVersion) (s s' : Scheduler)
    → set_ready_status v.tx_idx s ≡ some s'
    → Sets s s' v.tx_idx ready_to_execute (wrapping_inc (incarnation_of s v.tx_idx))
unfolding set_ready_status
set_ready_status-Sets v s s' e = record {
  size = ground arith;
  status = λ x. ground arith;
  incarnation = λ x. ground arith;
  dependents = λ x. ground arith;
}

-- A worker goes on alike from `try_execute` in `next_task` and in `finish_validation`.
task_worker :
    (o : Option TxVersion × Scheduler) → next_worker (execution_task o).0 ≡ tried_worker o.0
task_worker (none, s) = refl
task_worker (some v, s) = refl

task_scheduler : (o : Option TxVersion × Scheduler) → (execution_task o).1 ≡ o.1
task_scheduler (none, s) = refl
task_scheduler (some v, s) = refl

retry-Effect :
    (p : Worker) (v : TxVersion) (s : Scheduler)
    → Effect s p (retry_execution v s).1 (next_worker (retry_execution v s).0)
retry-Effect p v s =
    rw (task_scheduler (try_execute v.tx_idx s), task_worker (try_execute v.tx_idx s))
      (try_execute-Effect p v.tx_idx s)

-- The loop over the dependents takes the first.
resume-Revives :
    (v : TxVersion) (t : TxIdx) (rest : List TxIdx) (s s' : Scheduler)
    → set_ready_status t (set_dependents v.tx_idx rest s) ≡ some s'
    → Revives s s' v.tx_idx t rest
unfolding set_ready_status
resume-Revives v t rest s s' e = record {
  size = ground arith;
  status = λ x. ground arith;
  incarnation = λ x. ground arith;
  dependents = λ x. ground arith;
}

finish-Effect :
    (v : TxVersion) (flags : FinishExecFlags) (s : Scheduler)
    → Effect s (resumes v flags) (end_finish v flags s).1 (next_worker (end_finish v flags s).0)
finish-Effect v flags s =
    let s₁ : Scheduler =
      if flags.need_validation
      then record s { min_validation_idx = min s.min_validation_idx v.tx_idx }
      else s in
    let d : Decided v s₁ (decide_validation v flags s₁).1 (decide_validation v flags s₁).0 =
      decide_validation-Decided v flags s₁ in
    finish v flags (status_of (decide_validation v flags s₁).1 v.tx_idx) refl d.done
      (record {
        size = ground (arith, d.size);
        status = λ x. ground (arith, d.status x);
        incarnation = λ x. ground (arith, d.incarnation x);
        dependents = λ b. ground (arith, d.dependents b);
      })
      (elim d.task [ inl e ↦ inl (ap next_worker e) | inr e ↦ inr (ap next_worker e) ])

module _ {s : Scheduler} {ws : ℕ → Worker} (inv : Inv s ws) (i : ℕ) where
  -- Each step of worker `i` is a move of the protocol.
  pub Move-Effect :
      {p p' : Worker} {s' : Scheduler} → Move s p s' p' → ws i ≡ p → Held s p → Effect s p s' p'
  unfolding fetch_validation fetch_execution abort
  Move-Effect (enter a) e h = quiet (keeps s) refl tt
  Move-Effect poll e h = quiet (keeps s) refl tt
  Move-Effect load e h = quiet (keeps s) refl tt
  Move-Effect (count a) e h = quiet (keeps s) refl tt
  Move-Effect (break a) e h = quiet (keeps s) refl tt
  Move-Effect (yield_now a) e h = quiet (keeps s) refl tt
  Move-Effect (prefer_validation a b) e h =
      quiet
        (record {
          size = refl;
          status = λ x. refl;
          incarnation = λ x. refl;
          dependents = λ b. refl;
        })
        refl tt
  Move-Effect (prefer_execution a b) e h = quiet (keeps s) refl tt
  Move-Effect (claim {i = t}) e h = elim (Bool-cases (ltb t s.block_size)) [
    | inl lt ↦ claim_validation-Effect (claiming t) t s (status_of s t) refl (ground arith)
    | inr ge ↦ claim_validation-outside (claiming t) t s ge
  ]
  Move-Effect fetch e h =
      quiet
        (record {
          size = refl;
          status = λ x. refl;
          incarnation = λ x. refl;
          dependents = λ b. refl;
        })
        refl tt
  Move-Effect (attempt {i = t}) e h = try_execute-Effect _ t s
  Move-Effect (executed_ok flags q) e h = stay (keeps s) refl (λ k. k)
  Move-Effect (resume_dependent {v} {flags} {t} {rest} {s'} u q) e h =
      revive v flags t rest refl u (resume-Revives v t rest s s' q) refl
  Move-Effect lower_execution e h =
      stay
        (record {
          size = refl;
          status = λ x. refl;
          incarnation = λ x. refl;
          dependents = λ b. refl;
        })
        refl (λ k. k)
  Move-Effect (finish_all {v} {flags} u) e h = finish-Effect v flags s
  Move-Effect retry e h = stay (keeps s) refl (λ k. k)
  Move-Effect (blocked {v} {r = true} {s'} b lt q) e h =
      wait v b refl lt (add_dependency-Parks v b s s' q) refl
  Move-Effect (blocked {v} {r = false} {s'} b lt q) e h =
      let k = add_dependency-Keeps v b s s' q in
      stay k refl (λ f. ground (arith, k.size, k.status v.tx_idx, k.incarnation v.tx_idx))
  Move-Effect failed e h =
      quiet
        (record {
          size = refl;
          status = λ x. refl;
          incarnation = λ x. refl;
          dependents = λ b. refl;
        })
        refl tt
  Move-Effect valid e h = quiet (keeps s) refl h
  Move-Effect (invalid {v} {r = true} {s'} q) e h =
      let (c, m) = try_validation_abort-Sets v s s' q in abandon v h c m refl
  Move-Effect (invalid {v} {r = false} {s'} q) e h =
      let k = try_validation_abort-Keeps v s s' q in quiet k refl (omega (arith, k.size))
  Move-Effect (confirm {v} {r} {s'} q) e h = confirm-Effect v s s' r q
  Move-Effect (make_ready {v} {s'} q) e h = resume v refl (set_ready_status-Sets v s s' q) refl
  Move-Effect lower e h =
      quiet
        (record {
          size = refl;
          status = λ x. refl;
          incarnation = λ x. refl;
          dependents = λ b. refl;
        })
        refl tt
  Move-Effect (leave a) e h = quiet (keeps s) refl tt
  Move-Effect (pass a) e h = quiet (keeps s) refl tt
  Move-Effect (reexecute {v}) e h = retry-Effect (retrying v) v s
  Move-Effect (quit a) e h = quiet (keeps s) refl tt
