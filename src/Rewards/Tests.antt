-- ===== src/Rewards/Tests.antt =====
-- Small write sets, and the theorems on rewards at concrete inputs.

use pevm.Base.{ℕ, ◌+◌, ◌≡◌, ◌≢◌, some, [], ◌∷◌, arith}
use pevm.Types.{MemoryLocationHash, lazy_sender, lazy_recipient, estimate, WriteSet}
use pevm.MvMemory.{MvMemory}
use pevm.MvMemory.Record.{entry_at}
use pevm.Rewards.{apply_reward, ethereum_memory}
use pevm.Rewards.Credit.{value_at, balance_after, apply_reward_pays}
use pevm.Rewards.Estimated.{ethereum_memory-entries}

-- The sender at location 5 spends 30, the recipient at location 6 gets 20.
abbrev transfer : WriteSet
transfer = (5, lazy_sender 30) ∷ (6, lazy_recipient 20) ∷ []

-- The sender is the beneficiary and is rewarded with 3; it had 100.
apply_reward_pays_example :
    (ws' : WriteSet) × (apply_reward (5, 3) transfer ≡ some ws')
    × (balance_after (value_at ws' 5) 100 ≡ 70 + 3)
    × ((k : MemoryLocationHash) → 5 ≢ k → value_at ws' k ≡ value_at transfer k)
apply_reward_pays_example = apply_reward_pays 5 3 transfer 100 (omega arith, omega arith)

ethereum_memory-entries_example :
    entry_at (ethereum_memory {Bytecode = ℕ} 1 8 3).entries 8 2 ≡ some estimate
ethereum_memory-entries_example = ethereum_memory-entries ℕ 1 8 3 8 2
