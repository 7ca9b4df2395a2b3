-- ===== src/Chains/Tests.antt =====
-- A block of RISE with a deposit, and the theorems at it.
use pevm.Base.{ℕ, ◌≡◌, ◌↔◌, refl, true, false, none, some, List, [], ◌∷◌}
use pevm.Types.{B256, estimate}
use pevm.MvMemory.Record.{entry_at}
use pevm.Storage.{EvmAccount}
use pevm.Rewards.{FeeRecipients}
use pevm.Execution.{Receipt}
use pevm.Driver.{PevmTxExecutionResult}
use pevm.Chains.{eip1559, deposit, get_gas_price, ok, zip, rise_memory, rise_receipt_root}
use pevm.Chains.Estimates.{rise_memory-entries}
use pevm.Chains.Specs.{london, Header, get_block_spec, IsBlockOf, get_block_spec_iff}
use pevm.Chains.Roots.{have_senders, rise_receipt_root_iff}

-- The L1 fee goes to the beneficiary.
abbrev fees : FeeRecipients
fees = record { base_fee = 11; l1_fee = 7; operator_fee = 12 }

-- The first transaction is a deposit, the second is not.
rise_memory-entries_example :
    entry_at (rise_memory fees 7 {Bytecode = ℕ} (1 ∷ 2 ∷ []) (true ∷ false ∷ [])).entries 7 1
    ≡ some estimate
rise_memory-entries_example = rise_memory-entries fees 7 ℕ (1 ∷ 2 ∷ []) (true ∷ false ∷ []) 7 1

abbrev sender : EvmAccount ℕ
sender = record { balance = 9; nonce = 4; code_hash = none; code = none; slots = [] }

abbrev result : PevmTxExecutionResult ℕ ℕ
result = record {
  receipt = record { status = true; cumulative_gas_used = 21; logs = [] };
  state = (5, some sender) ∷ [];
}

abbrev first_key : List (ℕ × ℕ) → B256
first_key [] = 0
first_key (e ∷ es) = e.1

rise_receipt_root_iff_example :
    ((h : B256) × (rise_receipt_root
          (λ i. i)
          (λ t (r : Receipt ℕ). 1)
          (λ r n. n)
          (λ es. es)
          first_key
          ((deposit, 5) ∷ [])
          (result ∷ [])
        ≡ ok h))
    ↔ (have_senders (zip ((deposit, 5) ∷ []) (result ∷ [])) ≡ true)
rise_receipt_root_iff_example =
    rise_receipt_root_iff (λ i. i) (λ t (r : Receipt ℕ). 1) (λ r n. n) (λ es. es) first_key
      ((deposit, 5) ∷ []) (result ∷ [])

priced :
    get_gas_price (record { tx_type = eip1559; gas_price = none; max_fee_per_gas = 30 }) ≡ some 30
unfolding get_gas_price
priced = refl

-- The last block before the Merge.
abbrev last_of_london : Header
last_of_london = record { number = 15537393; timestamp = 1663224162 }

get_block_spec_iff_example :
    (get_block_spec last_of_london ≡ london) ↔ IsBlockOf london last_of_london
get_block_spec_iff_example = get_block_spec_iff london last_of_london
