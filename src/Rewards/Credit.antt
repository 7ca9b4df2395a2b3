-- ===== src/Rewards/Credit.antt =====
-- A reward merged into a write set by `Vm::execute` in crates/pevm/src/vm.rs, against the balances
-- that the write set leaves.

use pevm.Base.{
  ℕ, ◌+◌, ◌-◌, ◌≤◌, ◌≡◌, ◌≢◌, refl, Option, none, some, [], ◌∷◌, arith, inl, inr, Bool-cases,
  if◌then◌else◌, ◌==◌,
}
use pevm.Types.{
  U256, MemoryLocationHash, MemoryValue, basic, code_hash, storage, lazy_recipient, lazy_sender,
  self_destructed, WriteSet,
}
use pevm.VmDb.Basic.{u256_max}
use pevm.Rewards.{credit, apply_reward}

-- The first value that a write set has for a location.
abbrev pub value_at : WriteSet → MemoryLocationHash → Option MemoryValue
value_at [] l = none
value_at ((k, v) ∷ ws) l = if k == l then some v else value_at ws l

-- The balance that a value leaves, by the balance before the transaction.
abbrev pub balance_after : Option MemoryValue → ℕ → ℕ
balance_after (some (basic account)) before = account.balance
balance_after (some (lazy_recipient addition)) before = before + addition
balance_after (some (lazy_sender subtraction)) before = before - subtraction
balance_after _ before = before

-- The value is a balance, the reward fits, and a sender is not paid back more than it spends.
abbrev pub Creditable : U256 → ℕ → Option MemoryValue → Type 0
Creditable amount before none = Unit {0}
Creditable amount before (some (basic account)) = account.balance + amount ≤ u256_max
Creditable amount before (some (lazy_recipient addition)) = addition + amount ≤ u256_max
Creditable amount before (some (lazy_sender subtraction)) =
    (amount ≤ subtraction) × (subtraction ≤ before)
Creditable amount before (some _) = ⊥

credit-Creditable :
    (amount : U256) (before : ℕ) (v : MemoryValue)
    → Creditable amount before (some v)
    → (v' : MemoryValue) × (credit amount v ≡ some v')
      × (balance_after (some v') before ≡ balance_after (some v) before + amount)
unfolding credit
credit-Creditable amount before (basic account) h = (_, refl, ground arith)
credit-Creditable amount before (lazy_recipient addition) h = (_, refl, ground arith)
credit-Creditable amount before (lazy_sender subtraction) h = (_, refl, omega (arith, h.0, h.1))
credit-Creditable amount before (code_hash x) h = absurd h
credit-Creditable amount before (storage x) h = absurd h
credit-Creditable amount before self_destructed h = absurd h

-- A reward at a location whose value is a balance or that is not written yet is merged. It raises
-- the balance that the write set leaves at the location by its amount, and changes the value of no
-- other location, provided that the new balance or sum fits in 256 bits and a lazy sender has
-- spent at least the amount and had what it spent.
pub apply_reward_pays :
    (l : MemoryLocationHash) (amount : U256) (ws : WriteSet) (before : ℕ)
    → Creditable amount before (value_at ws l)
    → (ws' : WriteSet) × (apply_reward (l, amount) ws ≡ some ws')
      × (balance_after (value_at ws' l) before ≡ balance_after (value_at ws l) before + amount)
      × ((k : MemoryLocationHash) → l ≢ k → value_at ws' k ≡ value_at ws k)
unfolding apply_reward
apply_reward_pays l amount [] before h = (_, refl, ground arith, λ k ne. ground arith)
apply_reward_pays l amount ((j, v) ∷ ws) before h = elim (Bool-cases (j == l)) [
  | inl q ↦
      let (v', p, b) = credit-Creditable amount before v (rw q at h) in
      ((j, v') ∷ ws, rw (q, p) refl, rw q b, λ k ne. ground arith)
  | inr q ↦
      let (ws', p, b, o) = apply_reward_pays l amount ws before (rw q at h) in
      ((j, v) ∷ ws', rw (q, p) refl, rw q b, λ k ne. ground (arith, o k ne))
]
