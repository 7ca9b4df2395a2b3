-- ===== src/Scheduler/Counters.antt =====
-- `num_validated` and the two task indices of crates/pevm/src/scheduler.rs under `finish_execution`.
use mathlib.Core.Option.{some-injective, none-ne-some}
use pevm.Base.{
  ℕ, ◌+◌, ◌≤◌, ◌≡◌, refl, ◌∙◌, subst, Bool, ◌&&◌, not, Option, none, some, arith, inl, inr, List,
  [], ◌∷◌, Option-cases, if◌then◌else◌, update, ltb, min,
}
use pevm.Types.{TxIdx, TxVersion, Task, validation, FinishExecFlags, wrapping_inc}
use pevm.Scheduler.{
  Scheduler, set_ready_status, resume_dependents, decide_validation, finish_execution,
}

-- The counters that the loop over the dependents leaves alone, and the one that it lowers.
record Counts (s s' : Scheduler) : Type 0 where
  size : s'.block_size ≡ s.block_size
  num : s'.num_validated ≡ s.num_validated
  minimum : s'.min_validation_idx ≡ s.min_validation_idx
  validation : s'.validation_idx ≡ s.validation_idx
  execution : s'.execution_idx ≤ s.execution_idx

Counts-trans : {a b c : Scheduler} → Counts a b → Counts b c → Counts a c
Counts-trans x y = record {
  size = y.size ∙ x.size;
  num = y.num ∙ x.num;
  minimum = y.minimum ∙ x.minimum;
  validation = y.validation ∙ x.validation;
  execution = omega (arith, x.execution, y.execution);
}

ready-Counts :
    (t : TxIdx) (s s' : Scheduler)
    → set_ready_status t s ≡ some s'
    → Counts s (record s' { execution_idx = min s'.execution_idx t })
unfolding set_ready_status
ready-Counts t s s' e = ground arith

resume_dependents-Counts :
    (ts : List TxIdx) (s s' : Scheduler) → resume_dependents ts s ≡ some s' → Counts s s'
unfolding resume_dependents
resume_dependents-Counts [] s s' e =
    subst (Counts s) (some-injective s s' e) (record {
      size = refl;
      num = refl;
      minimum = refl;
      validation = refl;
      execution = omega arith;
    })
resume_dependents-Counts (t ∷ ts) s s' e = elim (Option-cases (set_ready_status t s)) [
  | inl n ↦ absurd (none-ne-some s' (rw n at e))
  | inr (s₁, q) ↦
      let s₂ : Scheduler = record s₁ { execution_idx = min s₁.execution_idx t } in
      Counts-trans (ready-Counts t s s₁ q) (resume_dependents-Counts ts s₂ s' (rw q at e))
]

-- The index from which transactions are validated, with this execution's own wish.
abbrev pub first_validated : TxVersion → FinishExecFlags → Scheduler → ℕ
first_validated v flags s =
    if flags.need_validation then min s.min_validation_idx v.tx_idx else s.min_validation_idx

-- The branch between the first validated transaction and the validation index.
abbrev pub is_between : TxVersion → FinishExecFlags → Scheduler → Bool
is_between v flags s =
    ltb (first_validated v flags s) s.block_size
    && not (ltb v.tx_idx (first_validated v flags s))
    && ltb v.tx_idx s.validation_idx

-- What `finish_execution` leaves in the counters.
abbrev pub counted : TxVersion → FinishExecFlags → Scheduler → ℕ
counted v flags s =
    if flags.need_validation
    then s.num_validated
    else if is_between v flags s
    then wrapping_inc (wrapping_inc s.num_validated)
    else wrapping_inc s.num_validated

abbrev pub lowered : TxVersion → FinishExecFlags → Scheduler → ℕ
lowered v flags s =
    if flags.wrote_new_location && ltb (first_validated v flags s) s.block_size
    then (if ltb v.tx_idx (first_validated v flags s)
        then min s.validation_idx (first_validated v flags s)
        else min s.validation_idx (v.tx_idx + 1))
    else s.validation_idx

abbrev pub handed_out : TxVersion → FinishExecFlags → Scheduler → Option Task
handed_out v flags s =
    if flags.need_validation && is_between v flags s then some (validation v) else none

-- The counters, and the task handed out, behind `finish_execution`.
pub record Settled (v : TxVersion) (flags : FinishExecFlags) (s s' : Scheduler) (r : Option Task)
    : Type 0 where
  pub num : s'.num_validated ≡ counted v flags s
  pub task : r ≡ handed_out v flags s
  pub minimum : s'.min_validation_idx ≡ first_validated v flags s
  pub validation : s'.validation_idx ≡ lowered v flags s

decide-Settled :
    (v : TxVersion) (flags : FinishExecFlags) (s₀ s : Scheduler)
    → Counts s₀ s
    → let s₂ =
        (if flags.need_validation
          then record s { min_validation_idx = min s.min_validation_idx v.tx_idx }
          else s) in
      Settled v flags s₀ (decide_validation v flags s₂).1 (decide_validation v flags s₂).0
unfolding decide_validation
decide-Settled v flags s₀ s c = record {
  num = ground (arith, c.size, c.num, c.minimum, c.validation);
  task = ground (arith, c.size, c.num, c.minimum, c.validation);
  minimum = ground (arith, c.size, c.num, c.minimum, c.validation);
  validation = ground (arith, c.size, c.num, c.minimum, c.validation);
}

abbrev drain : TxVersion → Scheduler → Option Scheduler
drain v s =
    resume_dependents (s.transactions_dependents v.tx_idx)
      (record s { transactions_dependents = update s.transactions_dependents v.tx_idx [] })

abbrev lower_min : TxVersion → FinishExecFlags → Scheduler → Scheduler
lower_min v flags s =
    if flags.need_validation
    then record s { min_validation_idx = min s.min_validation_idx v.tx_idx }
    else s

finish_execution-drained :
    (v : TxVersion) (flags : FinishExecFlags) (s : Scheduler) {x : Option Task × Scheduler}
    → finish_execution v flags s ≡ some x
    → (s₁ : Scheduler) × (drain v s ≡ some s₁)
      × (decide_validation v flags (lower_min v flags s₁) ≡ x)
unfolding finish_execution
finish_execution-drained v flags s e = elim (Option-cases (drain v s)) [
  | inl n ↦ absurd (ground arith)
  | inr (s₁, q) ↦ (s₁, q, ground arith)
]

-- The counters behind every call of `finish_execution` that returns: how many validations were
-- counted (none if one is needed, two in the branch between the first validated transaction and the
-- validation index, else one), the task handed out, the lowest index to validate and the validation
-- index.
pub finish_execution-Settled :
    (v : TxVersion) (flags : FinishExecFlags) (s s' : Scheduler) (r : Option Task)
    → finish_execution v flags s ≡ some (r, s')
    → Settled v flags s s' r
finish_execution-Settled v flags s s' r e =
    let (s₁, q, d) = finish_execution-drained v flags s e in
    let m = resume_dependents-Counts _ _ s₁ q in
    let c : Counts s s₁ = record {
      size = m.size;
      num = m.num;
      minimum = m.minimum;
      validation = m.validation;
      execution = m.execution;
    } in
    subst (λ (x : Option Task × Scheduler). Settled v flags s x.1 x.0) d
      (decide-Settled v flags s s₁ c)
