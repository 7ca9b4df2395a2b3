-- ===== src/Scheduler/Statuses.antt =====
-- The state machine of a transaction's status, drawn in the comment on `IncarnationStatus` in
-- crates/pevm/src/lib.rs, against what the steps of the workers do.
use pevm.Base.{ℕ, ◌≡◌, subst, arith, true, inl, inr, Bool-cases, ◌==◌}
use pevm.Types.{
  TxIdx, IncarnationStatus, ready_to_execute, executing, executed, validated, aborting,
  is_executed_or_validated, wrapping_inc,
}
use pevm.Scheduler.{Scheduler}
use pevm.Scheduler.Workers.{Worker, System, Step, pick, Reach, executes, resumes, aborts}
use pevm.Scheduler.Effects.{
  Held, status_of, incarnation_of, Effect, quiet, stay, incarnate, wait, revive, finish, settle,
  abandon, resume,
}
use pevm.Scheduler.Exclusion.{Inv}
use pevm.Scheduler.Safety.{Step-Effect, Reach-Inv}

-- From status `a` at incarnation `k` to status `b` at incarnation `l`.
pub data Transition (a b : IncarnationStatus) (k l : ℕ) : Type 0 where
  unchanged : b ≡ a → l ≡ k → Transition a b k l
  try_incarnate : a ≡ ready_to_execute → b ≡ executing → l ≡ k → Transition a b k l
  finish_execution : a ≡ executing → is_executed_or_validated b ≡ true → l ≡ k → Transition a b k l
  finish_validation : a ≡ executed → b ≡ validated → l ≡ k → Transition a b k l
  validation_abort : is_executed_or_validated a ≡ true → b ≡ aborting → l ≡ k → Transition a b k l
  add_dependency : a ≡ executing → b ≡ aborting → l ≡ k → Transition a b k l
  make_ready : a ≡ aborting → b ≡ ready_to_execute → l ≡ wrapping_inc k → Transition a b k l

abbrev pub Moves : Scheduler → Scheduler → TxIdx → Type 0
Moves s s' t =
    Transition (status_of s t) (status_of s' t) (incarnation_of s t) (incarnation_of s' t)

Effect-Moves :
    {s s' : Scheduler} {ws : ℕ → Worker} {p p' : Worker}
    → Inv s ws
    → Held s p
    → Effect s p s' p'
    → (t : TxIdx) → Moves s s' t
Effect-Moves inv h (quiet k a b) t = unchanged (k.status t) (k.incarnation t)
Effect-Moves inv h (stay k a b) t = unchanged (k.status t) (k.incarnation t)
Effect-Moves inv h (incarnate v lt r m k q) t = elim (Bool-cases (v.tx_idx == t)) [
  | inl c ↦
      try_incarnate (ground arith) (ground (arith, m.status t)) (ground (arith, m.incarnation t))
  | inr c ↦ unchanged (ground (arith, m.status t)) (ground (arith, m.incarnation t))
]
Effect-Moves {s} inv h (wait v b q lt m e) t =
    let g : Held s (executes v) = subst (Held s) q h in
    elim (Bool-cases (v.tx_idx == t)) [
      | inl c ↦
          add_dependency (ground arith) (ground (arith, m.status t))
            (ground (arith, m.incarnation t))
      | inr c ↦ unchanged (ground (arith, m.status t)) (ground (arith, m.incarnation t))
    ]
Effect-Moves {s} inv h (finish v f st q dn m e) t = elim (Bool-cases (v.tx_idx == t)) [
  | inl c ↦
      let g : Held s (resumes v f) = subst (Held s) q h in
      finish_execution (ground arith) (ground (arith, m.status t)) (ground (arith, m.incarnation t))
  | inr c ↦ unchanged (ground (arith, m.status t)) (ground (arith, m.incarnation t))
]
Effect-Moves inv h (revive v f d rest q u m e) t = elim (Bool-cases (d == t)) [
  | inl c ↦
      let w = inv.parked v.tx_idx d (ground arith) in
      make_ready (ground (arith, w.status)) (ground (arith, m.status t))
        (ground (arith, m.incarnation t))
  | inr c ↦ unchanged (ground (arith, m.status t)) (ground (arith, m.incarnation t))
]
Effect-Moves inv h (settle v q r m e) t = elim (Bool-cases (v.tx_idx == t)) [
  | inl c ↦
      finish_validation (ground arith) (ground (arith, m.status t))
        (ground (arith, m.incarnation t))
  | inr c ↦ unchanged (ground (arith, m.status t)) (ground (arith, m.incarnation t))
]
Effect-Moves inv h (abandon v lt r m q) t = elim (Bool-cases (v.tx_idx == t)) [
  | inl c ↦
      validation_abort (ground arith) (ground (arith, m.status t)) (ground (arith, m.incarnation t))
  | inr c ↦ unchanged (ground (arith, m.status t)) (ground (arith, m.incarnation t))
]
Effect-Moves {s} inv h (resume v q m e) t =
    let g : Held s (aborts v) = subst (Held s) q h in
    elim (Bool-cases (v.tx_idx == t)) [
      | inl c ↦
          make_ready (ground arith) (ground (arith, m.status t)) (ground (arith, m.incarnation t))
      | inr c ↦ unchanged (ground (arith, m.status t)) (ground (arith, m.incarnation t))
    ]

-- A step of any worker, in any reachable state, takes the status of each transaction along one of
-- the transitions above or leaves it, and raises the incarnation exactly when it makes ready.
pub Step-Moves :
    {n : ℕ} {y z : System} → Reach n y → Step y z → (t : TxIdx) → Moves y.scheduler z.scheduler t
Step-Moves {y} r (pick i m) t =
    Effect-Moves (Reach-Inv r) ((Reach-Inv r).held i) (Step-Effect {y = y} i (Reach-Inv r) m) t
