-- ===== src/Rpc/Tests.antt =====
-- A node that fails at first, and the theorems about the storage over it.
use pevm.Base.{ℕ, ◌+◌, ◌≤◌, ◌<◌, ◌≡◌, refl, Bool, true, false, none, some, ltb, ◌==◌, if◌then◌else◌}
use pevm.Storage.{Fetched, ok, failed}
use pevm.Rpc.{
  Provider, Codes, Traffic, RpcStorage, fetch, basic, code_hash, code_by_hash, has_storage, storage,
  block_hash, retry_limit, initial_delay_millis,
}
use pevm.Rpc.Fetch.{Tried, fetch-Tried}
use pevm.Rpc.Refines.{
  Right, ChainAt, IsFaithful, BlockHash, chain_basic, chain_code_hash, CodeAnswer, IsServed,
}
use pevm.Rpc.Answers.{Used, fresh, storage_called, rpc_refines}

-- The first two requests fail.
abbrev answer : {A : Type 0} → A → ℕ → Fetched A
answer a n = if ltb n 2 then failed "429" else ok a

abbrev chain : ChainAt ℕ
chain = record {
  nonce = λ a. 1;
  balance = λ a. 50;
  code = λ a. a;
  slot = λ a index. 100;
  storage_hash = λ a. 3;
  hash = λ number. if ltb number 9 then some (number + 1000) else none;
}

abbrev node : Provider ℕ
node = record {
  get_transaction_count = λ n a. answer 1 n;
  get_balance = λ n a. answer 50 n;
  get_code_at = λ n a. answer a n;
  get_storage_at = λ n a index. answer 100 n;
  get_proof = λ n a. answer 3 n;
  get_block_by_number = λ n number. answer (if ltb number 9 then some (number + 1000) else none) n;
}

answer-Right : {A : Type 0} (a : A) (n : ℕ) → Right (answer a n) a
answer-Right a n = by_test (ltb n 2)
  where
    by_test : (b : Bool) → Right (if b then failed "429" else ok a) a
    by_test true = tt
    by_test false = refl

abbrev node-IsFaithful : IsFaithful node chain
node-IsFaithful = record {
  nonce = λ n a. answer-Right 1 n;
  balance = λ n a. answer-Right 50 n;
  code = λ n a. answer-Right a n;
  slot = λ n a index. answer-Right 100 n;
  storage_hash = λ n a. answer-Right 3 n;
  hash = λ n number. answer-Right (if ltb number 9 then some (number + 1000) else none) n;
}

abbrev codes : Codes ℕ ℕ
codes = record {
  is_empty = λ code. code == 0;
  raw_is_empty = λ code. code == 0;
  hash_slow = λ code. code + 7;
  into_code = λ code. code;
}

abbrev silent : Traffic
silent = record { requests = 0; slept = 0 }

abbrev fifty : ℕ → Fetched ℕ
fifty = answer 50

-- Two errors: the third request is answered, behind 375 milliseconds.
fetched : fetch fifty silent ≡ (ok 50, record { requests = 3; slept = 375 })
unfolding fetch
fetched = refl

fetch-Tried_example :
    Tried retry_limit initial_delay_millis fifty silent (fetch fifty silent)
    × (0 < (fetch fifty silent).1.requests)
    × ((fetch fifty silent).1.requests ≤ 9)
    × ((fetch fifty silent).1.slept ≤ 31875)
fetch-Tried_example = fetch-Tried fifty silent

-- Slot 4 of account 5 was read.
abbrev used : (s : RpcStorage ℕ) × Used node codes (λ a. false) 0 s
used = (_, storage_called 5 4 fresh)

rpc_refines_example :
    Right
      (basic node codes (λ a. false) 0 5 used.0).0
      (chain_basic node codes (λ a. false) 0 chain node-IsFaithful 5)
    × Right
        (code_hash node codes (λ a. false) 0 5 used.0).0
        (chain_code_hash node codes (λ a. false) 0 chain node-IsFaithful 5)
    × Right (has_storage node codes (λ a. false) 0 5 used.0).0 true
    × Right (storage node codes (λ a. false) 0 5 4 used.0).0 100
    × BlockHash node codes
        (λ a. false)
        0
        chain
        node-IsFaithful
        8
        (block_hash node codes (λ a. false) 0 8 used.0)
    × CodeAnswer node codes
        (λ a. false)
        0
        chain
        node-IsFaithful
        12
        (code_by_hash node codes (λ a. false) 0 12 used.0).0
    × IsServed node codes
        (λ a. false)
        0
        chain
        node-IsFaithful
        (code_hash node codes (λ a. false) 0 5 used.0)
rpc_refines_example = rpc_refines node codes (λ a. false) 0 chain node-IsFaithful used.1 5 4 8 12
