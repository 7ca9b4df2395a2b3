-- ===== src/Scheduler/Progress.antt =====
-- `Scheduler::next_task` of crates/pevm/src/scheduler.rs run by one thread alone: its end and its
-- tasks.
use mathlib.Core.Option.{some-injective, none-ne-some}
use pevm.Base.{
  ℕ, zero, suc, ◌+◌, ◌-◌, ◌<◌, ◌≡◌, refl, sym, ◌∙◌, subst, true, false, ◌&&◌, Option, none, some,
  arith, inl, inr, ◌⊎◌, Bool-cases, if◌then◌else◌, ltb, lt→ltb,
}
use pevm.Types.{
  Task, execution, validation, IncarnationStatus, ready_to_execute, executing, executed, validated,
  aborting, is_executed_or_validated, usize_mod, is_ready_to_execute,
}
use pevm.Scheduler.{
  Scheduler, try_execute, claim_validation, fetch_validation, fetch_execution, turn, run_turn, Turn,
  finished, again, found, next_task, is_done, is_exhausted, execution_turn, after_claim,
}
use pevm.Scheduler.Effects.{status_of, incarnation_of}

-- Indices that the two counters have still to pass.
abbrev pub remaining : Scheduler → ℕ
remaining s = (s.block_size - s.execution_idx) + (s.block_size - s.validation_idx)

-- The counters do not wrap around before they have passed the block.
abbrev pub Room : Scheduler → Type 0
Room s = (s.block_size < usize_mod) × (s.execution_idx + remaining s < usize_mod)

-- A task fits the state in which it is handed out, and the state behind it.
abbrev pub Fits : Scheduler → Scheduler → Option Task → Type 0
Fits s s' none =
    (s.aborted ≡ true)
    ⊎ ((is_exhausted s'.execution_idx s'.validation_idx s' ≡ true) × (is_done s ≡ true))
Fits s s' (some (execution v)) =
    (v.tx_idx < s.block_size)
    × (s.transactions_status v.tx_idx
        ≡ record { incarnation = v.tx_incarnation; status = ready_to_execute })
    × (s'.transactions_status v.tx_idx
        ≡ record { incarnation = v.tx_incarnation; status = executing })
Fits s s' (some (validation v)) =
    (v.tx_idx < s.block_size)
    × (is_executed_or_validated (status_of s v.tx_idx) ≡ true)
    × (incarnation_of s v.tx_idx ≡ v.tx_incarnation)
    × (s'.transactions_status ≡ s.transactions_status)

-- How one turn ends, given what it leaves.
record Again (s s' : Scheduler) : Type 0 where
  size : s'.block_size ≡ s.block_size
  status : s'.transactions_status ≡ s.transactions_status
  aborted : s'.aborted ≡ s.aborted
  done : is_done s' ≡ is_done s
  fewer : is_done s ≡ true → Room s → (remaining s' < remaining s) × Room s'

abbrev Ends : Scheduler → Turn × Scheduler → Type 0
Ends s (finished, s') = Fits s s' none
Ends s (again, s') = Again s s'
Ends s (found t, s') = Fits s s' (some t)

execution_turn-Ends : (s : Scheduler) → s.execution_idx < s.block_size → Ends s (execution_turn s)
unfolding try_execute fetch_execution is_done
execution_turn-Ends s lt =
    elim (Bool-cases
      (ltb s.execution_idx s.block_size && is_ready_to_execute (status_of s s.execution_idx))) [
        | inl e ↦ rw e (lt, ground arith, ground arith)
        | inr e ↦ rw e (record {
          size = refl;
          status = refl;
          aborted = refl;
          done = refl;
          fewer = λ d r. (omega arith, (omega arith, omega arith));
        })
      ]

-- The turn that fell back to execution has moved the validation index already.
fall_back-Ends :
    (s : Scheduler) → s.validation_idx < s.block_size → Ends s (execution_turn (fetch_validation s))
unfolding try_execute fetch_execution fetch_validation is_done
fall_back-Ends s lt =
    elim (Bool-cases
      (ltb s.execution_idx s.block_size && is_ready_to_execute (status_of s s.execution_idx))) [
        | inl e ↦ rw e (ground arith, ground arith, ground arith)
        | inr e ↦ rw e (record {
          size = refl;
          status = refl;
          aborted = refl;
          done = refl;
          fewer = λ d r. (omega arith, (omega arith, omega arith));
        })
      ]

claim-Ends :
    (s : Scheduler) (st : IncarnationStatus)
    → status_of s s.validation_idx ≡ st
    → s.validation_idx < s.block_size
    → Ends s (after_claim (claim_validation s.validation_idx (fetch_validation s)))
unfolding claim_validation fetch_validation is_done
claim-Ends s ready_to_execute e lt = rw (lt→ltb _ _ lt, e) (lt, ground arith, ground arith)
claim-Ends s executing e lt = rw (lt→ltb _ _ lt, e) (fall_back-Ends s lt)
claim-Ends s executed e lt = rw (lt→ltb _ _ lt, e) (lt, ground arith, refl, refl)
claim-Ends s validated e lt = rw (lt→ltb _ _ lt, e) (lt, ground arith, refl, refl)
claim-Ends s aborting e lt =
    rw (lt→ltb _ _ lt, e)
      (record {
        size = refl;
        status = refl;
        aborted = refl;
        done = refl;
        fewer = λ d r. (omega arith, (omega arith, omega arith));
      })

waiting : (s : Scheduler) → is_done s ≡ false → Again s s
waiting s e = record {
  size = refl;
  status = refl;
  aborted = refl;
  done = refl;
  fewer = λ d r. absurd (ground arith);
}

exhausted_turn :
    (s : Scheduler)
    → s.aborted ≡ false
    → is_exhausted s.execution_idx s.validation_idx s ≡ true
    → turn s ≡ ((if is_done s then finished else again), s)
unfolding turn
exhausted_turn s a x = simp (a, x)

claim_turn :
    (s : Scheduler)
    → s.aborted ≡ false
    → is_exhausted s.execution_idx s.validation_idx s ≡ false
    → ltb s.validation_idx s.execution_idx ≡ true
    → turn s ≡ after_claim (claim_validation s.validation_idx (fetch_validation s))
unfolding turn
claim_turn s a x v = simp (a, x, v)

plain_turn :
    (s : Scheduler)
    → s.aborted ≡ false
    → is_exhausted s.execution_idx s.validation_idx s ≡ false
    → ltb s.validation_idx s.execution_idx ≡ false
    → turn s ≡ execution_turn s
unfolding turn
plain_turn s a x v = simp (a, x, v)

aborted_turn : (s : Scheduler) → s.aborted ≡ true → turn s ≡ (finished, s)
unfolding turn
aborted_turn s a = simp a

-- Every turn of the loop, on every branch.
turn-Ends : (s : Scheduler) → Ends s (turn s)
turn-Ends s = elim (Bool-cases s.aborted) [
  | inl a ↦ subst (Ends s) (sym (aborted_turn s a)) (inl a)
  | inr a ↦ elim (Bool-cases (is_exhausted s.execution_idx s.validation_idx s)) [
    | inl x ↦ elim (Bool-cases (is_done s)) [
      | inl d ↦ subst (Ends s) (sym (exhausted_turn s a x)) (rw d (inr (x, d)))
      | inr d ↦ subst (Ends s) (sym (exhausted_turn s a x)) (rw d (waiting s d))
    ]
    | inr x ↦ elim (Bool-cases (ltb s.validation_idx s.execution_idx)) [
      | inl v ↦
          subst (Ends s) (sym (claim_turn s a x v))
            (claim-Ends s (status_of s s.validation_idx) refl (ground arith))
      | inr v ↦ subst (Ends s) (sym (plain_turn s a x v)) (execution_turn-Ends s (ground arith))
    ]
  ]
]

-- What a task fits, it fits from any earlier turn.
Again-Fits : (s s' s'' : Scheduler) (r : Option Task) → Again s s' → Fits s' s'' r → Fits s s'' r
Again-Fits s s' s'' none m (inl e) = inl (sym m.aborted ∙ e)
Again-Fits s s' s'' none m (inr e) = inr (e.0, sym m.done ∙ e.1)
Again-Fits s s' s'' (some (execution v)) m f =
    (ground (arith, m.size), ground (arith, m.status), f.2)
Again-Fits s s' s'' (some (validation v)) m f =
    (ground (arith, m.size), ground (arith, m.status), ground (arith, m.status), f.3 ∙ m.status)

run_turn_sound :
    (rest : Scheduler → Option (Option Task × Scheduler)) (s s' : Scheduler) (r : Option Task)
    → ((s₁ : Scheduler) → rest s₁ ≡ some (r, s') → Fits s₁ s' r)
    → (t : Turn × Scheduler) → Ends s t
    → run_turn rest t ≡ some (r, s')
    → Fits s s' r
run_turn_sound rest s s' r ih (finished, s₁) m e =
    subst (λ (x : Option Task × Scheduler). Fits s x.1 x.0) (some-injective _ _ e) m
run_turn_sound rest s s' r ih (again, s₁) m e = Again-Fits s s₁ s' r m (ih s₁ e)
run_turn_sound rest s s' r ih (found t, s₁) m e =
    subst (λ (x : Option Task × Scheduler). Fits s x.1 x.0) (some-injective _ _ e) m

next_task_sound :
    (f : ℕ) (s s' : Scheduler) (r : Option Task) → next_task f s ≡ some (r, s') → Fits s s' r
unfolding next_task
next_task_sound zero s s' r e = absurd (none-ne-some _ e)
next_task_sound (suc f) s s' r e =
    run_turn_sound (next_task f) s s' r (λ s₁. next_task_sound f s₁ s' r) (turn s) (turn-Ends s) e

run_turn-returns :
    (rest : Scheduler → Option (Option Task × Scheduler)) (f : ℕ) (s : Scheduler)
    → remaining s < suc f
    → Room s
    → is_done s ≡ true
    → ((s₁ : Scheduler)
        → remaining s₁ < f
        → Room s₁
        → is_done s₁ ≡ true
        → (r : Option Task) × (s' : Scheduler) × (rest s₁ ≡ some (r, s')))
    → (t : Turn × Scheduler) → Ends s t
    → (r : Option Task) × (s' : Scheduler) × (run_turn rest t ≡ some (r, s'))
run_turn-returns rest f s lt room d ih (finished, s₁) m = (none, s₁, refl)
run_turn-returns rest f s lt room d ih (again, s₁) m =
    let (fewer, room₁) = m.fewer d room in ih s₁ (omega arith) room₁ (m.done ∙ d)
run_turn-returns rest f s lt room d ih (found t, s₁) m = (some t, s₁, refl)

next_task-returns :
    (f : ℕ) (s : Scheduler)
    → remaining s < f
    → Room s
    → is_done s ≡ true
    → (r : Option Task) × (s' : Scheduler) × (next_task f s ≡ some (r, s'))
unfolding next_task
next_task-returns zero s lt room d = elim lt [ ]
next_task-returns (suc f) s lt room d =
    run_turn-returns (next_task f) f s lt room d (next_task-returns f) (turn s) (turn-Ends s)

-- Where enough transactions are validated and the counters do not wrap around, `next_task` returns
-- within one turn more than there are indices to pass, and what it returns fits: an execution task
-- is for a ready transaction of the block, which is executing from then on with its incarnation; a
-- validation task is for an executed or validated one, whose status stays; no task is returned only
-- by a scheduler that is aborted, or that has passed the block with both counters.
pub next_task_total :
    (f : ℕ) (s : Scheduler)
    → remaining s < f
    → Room s
    → is_done s ≡ true
    → (r : Option Task) × (s' : Scheduler) × (next_task f s ≡ some (r, s')) × Fits s s' r
next_task_total f s lt room d =
    let (r, s', e) = next_task-returns f s lt room d in (r, s', e, next_task_sound f s s' r e)
