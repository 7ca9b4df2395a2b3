-- ===== src/Block/Start.antt =====
-- The account that the evaluation of a lazy address starts from in crates/pevm/src/pevm.rs.

use pevm.Base.{
  ℕ, zero, suc, ◌<◌, ◌≡◌, refl, sym, ap, ◌∙◌, true, some, List, ◌∷◌, arith, inl, inr, Bool-cases,
  Option-cases,
}
use pevm.Types.{
  TxIdx, AccountBasic, basic, lazy_recipient, lazy_sender, storage, code_hash, self_destructed,
  MemoryEntry, data_entry, estimate,
}
use pevm.MvMemory.{Written, range_back}
use pevm.MvMemory.Reads.{range_back-some, range_back-none}
use pevm.Storage.{ok}
use pevm.VmDb.Lazy.{replay}
use pevm.Block.{first_entry, start_account, starts_absolute}

-- An absolute balance or a lazy update of one.
abbrev pub IsBalance : MemoryEntry → Type 0
IsBalance (data_entry k (basic a)) = Unit {0}
IsBalance (data_entry k (lazy_recipient a)) = Unit {0}
IsBalance (data_entry k (lazy_sender a)) = Unit {0}
IsBalance _ = ⊥

replay-head :
    (i : TxIdx) (e : MemoryEntry) (es : List (TxIdx × MemoryEntry)) (x y : AccountBasic)
    → IsBalance e
    → replay es x ≡ replay es y
    → replay ((i, e) ∷ es) x ≡ replay ((i, e) ∷ es) y
replay-head i (data_entry k (basic a)) es x y b h = refl
replay-head i (data_entry k (lazy_recipient a)) es x y b h = ground (arith, h)
replay-head i (data_entry k (lazy_sender a)) es x y b h = ground (arith, h)
replay-head i (data_entry k (code_hash a)) es x y b h = absurd b
replay-head i (data_entry k (storage a)) es x y b h = absurd b
replay-head i (data_entry k self_destructed) es x y b h = absurd b
replay-head i estimate es x y b h = absurd b

replay_absolute :
    (i : TxIdx) (e : MemoryEntry) (es : List (TxIdx × MemoryEntry)) (x y : AccountBasic)
    → starts_absolute (some e) ≡ true
    → replay ((i, e) ∷ es) x ≡ replay ((i, e) ∷ es) y
replay_absolute i (data_entry k (basic a)) es x y h = refl
replay_absolute i (data_entry k (lazy_recipient a)) es x y h = cc
replay_absolute i (data_entry k (lazy_sender a)) es x y h = cc
replay_absolute i (data_entry k (code_hash a)) es x y h = cc
replay_absolute i (data_entry k (storage a)) es x y h = cc
replay_absolute i (data_entry k self_destructed) es x y h = cc
replay_absolute i estimate es x y h = cc

first_entry-replay :
    (n : ℕ) (m : Written) (x y : AccountBasic)
    → ((i : TxIdx) (e : MemoryEntry) → i < n → m i ≡ some e → IsBalance e)
    → starts_absolute (first_entry n m) ≡ true
    → replay (range_back n m) x ≡ replay (range_back n m) y
unfolding first_entry
first_entry-replay zero m x y b h = cc
first_entry-replay (suc n) m x y b h = elim (Option-cases (m n)) [
  | inl q ↦
      ap (λ es. replay es x) (range_back-none n m q)
      ∙ first_entry-replay n m x y (λ i e lt. b i e (omega (arith, lt))) (ground arith)
      ∙ sym (ap (λ es. replay es y) (range_back-none n m q))
  | inr (e, q) ↦
      ap (λ es. replay es x) (range_back-some n m e q)
      ∙ elim (Option-cases (first_entry n m)) [
        | inl p ↦ replay_absolute n e (range_back n m) x y (ground arith)
        | inr (e', p) ↦
            replay-head n e (range_back n m) x y (b n e (omega arith) q)
              (first_entry-replay n m x y (λ i e lt. b i e (omega (arith, lt))) (ground arith))
      ]
      ∙ sym (ap (λ es. replay es y) (range_back-some n m e q))
]

-- Where all entries below `n` are balances, the account that the evaluation starts from leads to
-- the same replay as the account of the storage, though it is empty when the lowest entry is
-- absolute.
pub start_account-replay :
    (n : ℕ) (m : Written) (stored : AccountBasic)
    → ((i : TxIdx) (e : MemoryEntry) → i < n → m i ≡ some e → IsBalance e)
    → replay (range_back n m) (start_account n m (ok (some stored)))
      ≡ replay (range_back n m) stored
unfolding start_account
start_account-replay n m stored b = elim (Bool-cases (starts_absolute (first_entry n m))) [
  | inl h ↦ first_entry-replay n m _ stored b h
  | inr h ↦ rw h refl
]
