-- ===== src/Block/Tests.antt =====
-- A small lazily updated account, and the theorems on the end of a block at concrete inputs.
use mathlib.Core.Option.{some-injective}
use pevm.Base.{
  ℕ, ◌≡◌, ◌<◌, ◌≤◌, ◌⊎◌, inl, inr, ==_iff, Bool-cases, ap, ◌∙◌, subst, refl, true, none, some, [],
  ◌∷◌, arith, map, min, ◌==◌, if◌then◌else◌,
}
use pevm.Types.{TxIdx, AccountBasic, basic, lazy_recipient, lazy_sender, MemoryEntry, data_entry}
use pevm.MvMemory.{Written, range_back}
use pevm.Storage.{ok}
use pevm.VmDb.Basic.{evaluate}
use pevm.VmDb.Lazy.{replay}
use pevm.Block.{
  TxFees, max_fee, done, TxState, Evaluation, evaluate_entry, evaluate_history, cumulative_gas,
  u64_max, start_account,
}
use pevm.Block.Gas.{running_sums, cumulative_gas-sums}
use pevm.Block.History.{Bounded}
use pevm.Block.Agreement.{Accepted, Replayed, evaluates_in_order, evaluation_agrees_with_read}
use pevm.Block.Start.{IsBalance, start_account-replay}

cumulative_gas-sums_example :
    cumulative_gas 0 (21000 ∷ 50000 ∷ [])
    ≡ map (λ sum. min sum u64_max) (running_sums 0 (21000 ∷ 50000 ∷ []))
cumulative_gas-sums_example = cumulative_gas-sums (21000 ∷ 50000 ∷ [])

-- Account 7 receives 20 in transaction 0 and sends 30 in transaction 1, with nonce 8.
abbrev writes : Written
writes i =
    if i == 0
    then some (data_entry 0 (lazy_recipient 20))
    else if i == 1
    then some (data_entry 0 (lazy_sender 30))
    else none

abbrev fees : TxIdx → TxFees
fees i = record {
  caller = if i == 1 then 7 else 9;
  nonce = 8;
  value = 10;
  gas_limit = 4;
  gas_price = 5;
  blob_gas = 0;
  max_fee_per_blob_gas = 0;
}

abbrev evaluation : Evaluation ℕ
evaluation = record { txs = fees; address = 7; eip_161 = true; code_hash = none; code = none }

abbrev stored : AccountBasic
stored = record { balance = 15; nonce = 8 }

abbrev no_results : TxIdx → TxState ℕ
no_results i a = none

upto_two : (j : ℕ) → j ≤ 2 → (0 ≡ j) ⊎ ((1 ≡ j) ⊎ (2 ≡ j))
upto_two j le = elim (Bool-cases (0 == j)) [
  | inl a ↦ inl ((==_iff 0 j).0 a)
  | inr a ↦ elim (Bool-cases (1 == j)) [
    | inl b ↦ inr (inl ((==_iff 1 j).0 b))
    | inr b ↦ inr (inr (ground arith))
  ]
]

small : (j : ℕ) → j ≤ 2 → Bounded (range_back j writes) stored
unfolding range_back
small j le = elim (upto_two j le) [
  | inl a ↦
      subst (λ x. Bounded (range_back x writes) stored) a
        (record { balance = omega arith; nonce = omega arith })
  | inr (inl a) ↦
      subst (λ x. Bounded (range_back x writes) stored) a
        (record { balance = omega arith; nonce = omega arith })
  | inr (inr a) ↦
      subst (λ x. Bounded (range_back x writes) stored) a
        (record { balance = omega arith; nonce = omega arith })
]

accepted :
    (i : TxIdx) (e : MemoryEntry)
    → i < 2
    → writes i ≡ some e
    → Accepted evaluation i writes stored e
unfolding range_back max_fee
accepted i e lt q = elim (upto_two i (omega (arith, lt))) [
  | inl a ↦
      subst (λ x. Accepted evaluation x writes stored e) a
        (subst (Accepted evaluation 0 writes stored) (some-injective _ e (ap writes a ∙ q))
          (record { payable = tt; nonce = λ c. absurd (omega (arith, c)) }))
  | inr (inl a) ↦
      subst (λ x. Accepted evaluation x writes stored e) a
        (subst (Accepted evaluation 1 writes stored) (some-injective _ e (ap writes a ∙ q))
          (record { payable = omega arith; nonce = λ c. refl }))
  | inr (inr a) ↦ absurd (omega (arith, lt, a))
]

evaluates_in_order_example :
    (account : AccountBasic) × (results' : TxIdx → TxState ℕ) × (evaluate_history evaluation 2
        writes
        (stored, no_results)
      ≡ done (account, results'))
    × Replayed evaluation 2 writes stored account no_results results'
evaluates_in_order_example = evaluates_in_order evaluation 2 writes stored no_results small accepted

abbrev result :
    (results' : TxIdx → TxState ℕ) × (evaluate_history evaluation 2 writes (stored, no_results)
      ≡ done (record { balance = 5; nonce = 9 }, results'))
unfolding evaluate_history evaluate_entry range_back max_fee
result = (_, refl)

-- The account of 5 with nonce 9 is what transaction 2 reads.
evaluation_agrees_with_read_example :
    ◌≡◌ {A = AccountBasic} (record { balance = 5; nonce = 9 }) (record { balance = 5; nonce = 9 })
unfolding evaluate_history evaluate_entry range_back max_fee evaluate
evaluation_agrees_with_read_example =
    evaluation_agrees_with_read evaluation 2 writes stored (record { balance = 5; nonce = 9 })
      (record { balance = 5; nonce = 9 }) no_results result.0 small result.1 (omega arith, tt)
      (omega arith) refl

-- Transaction 0 wrote an absolute balance.
abbrev absolute_first : Written
absolute_first i =
    if i == 0 then some (data_entry 0 (basic (record { balance = 3; nonce = 1 }))) else none

start_account-replay_example :
    replay (range_back 1 absolute_first) (start_account 1 absolute_first (ok (some stored)))
    ≡ replay (range_back 1 absolute_first) stored
start_account-replay_example = start_account-replay 1 absolute_first stored balance
  where
    balance : (i : TxIdx) (e : MemoryEntry) → i < 1 → absolute_first i ≡ some e → IsBalance e
    balance i e lt q =
        let first : 0 ≡ i = omega (arith, lt) in
        subst IsBalance (some-injective _ e (ap absolute_first first ∙ q)) tt
