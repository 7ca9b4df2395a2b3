-- ===== src/Block/Agreement.antt =====
-- The evaluation of lazy addresses in crates/pevm/src/pevm.rs: its success, and its account against
-- the account reads of crates/pevm/src/vm.rs.

use pevm.Base.{
  ℕ, zero, suc, ◌+◌, ◌-◌, ◌%◌, ◌≤◌, ◌<◌, ◌≡◌, ◌^◌, refl, sym, ap, ◌∙◌, subst, true, false, Option,
  none, some, [], ◌⊎◌, Bool-cases, arith, inl, inr, Option-cases, ◌==◌, ◌&&◌,
}
use pevm.Types.{
  TxIdx, Address, AccountBasic, basic, lazy_recipient, lazy_sender, storage, code_hash,
  self_destructed, MemoryEntry, data_entry, estimate,
}
use pevm.MvMemory.{Written, range_back}
use pevm.MvMemory.Reads.{range_back-some}
use pevm.VmDb.Basic.{u256_max, evaluate, start_lazy}
use pevm.VmDb.Lazy.{subs, replay, Solvent, Yields, evaluate_replays}
use pevm.Block.{
  TxFees, max_fee, Outcome, done, ◌>>=◌, apply_entry, check_nonce, TxState, Evaluation,
  evaluate_entry, evaluate_history, settle_account, is_none, or_none,
}
use pevm.Storage.{EvmAccount}
use pevm.Block.History.{Bounded, Aside, evaluate_history-Evaluated, apply_entry-replay}

-- The entry is a balance, not of an empty account, and a lazy sender can pay its greatest fee.
abbrev pub Payable : TxFees → AccountBasic → MemoryEntry → Type 0
Payable tx account (data_entry k (basic a)) = ((a.balance == 0) && (a.nonce == 0)) ≡ false
Payable tx account (data_entry k (lazy_recipient a)) = Unit {0}
Payable tx account (data_entry k (lazy_sender a)) = max_fee tx ≤ account.balance
Payable tx account _ = ⊥

-- What lets the evaluation of one entry succeed.
pub record Accepted {Code : Type 0} (ev : Evaluation Code) (i : TxIdx) (m : Written)
    (start : AccountBasic) (e : MemoryEntry) : Type 0 where
  pub payable : Payable (ev.txs i) (replay (range_back i m) start) e
  pub nonce :
      (ev.txs i).caller ≡ ev.address
      → (ev.txs i).nonce + 1 ≡ (replay (range_back (suc i) m) start).nonce

apply_entry-Payable :
    (tx : TxFees) (account : AccountBasic) (e : MemoryEntry)
    → Payable tx account e
    → (account' : AccountBasic) × (apply_entry tx e account ≡ done account')
unfolding apply_entry
apply_entry-Payable tx account (data_entry k (basic a)) h = (a, rw h refl)
apply_entry-Payable tx account (data_entry k (lazy_recipient a)) h = (_, refl)
apply_entry-Payable tx account (data_entry k (lazy_sender a)) h =
    (record { balance = account.balance - a; nonce = (account.nonce + 1) % 2 ^ 64 }, ground arith)
apply_entry-Payable tx account (data_entry k (code_hash a)) h = absurd h
apply_entry-Payable tx account (data_entry k (storage a)) h = absurd h
apply_entry-Payable tx account (data_entry k self_destructed) h = absurd h
apply_entry-Payable tx account estimate h = absurd h

check_nonce-done :
    (a : Address) (i : TxIdx) (tx : TxFees) (account : AccountBasic)
    → (tx.caller ≡ a → tx.nonce + 1 ≡ account.nonce)
    → check_nonce a i tx account ≡ done tt
unfolding check_nonce
check_nonce-done a i tx account h = ground arith

bind-at {ℓ κ} :
    {A : Type ℓ} {B : Type κ} (x : Outcome A) (f : A → Outcome B) (a : A) (b : B)
    → x ≡ done a
    → f a ≡ done b
    → (x >>= f) ≡ done b
bind-at x f a b e h = ap (λ y. y >>= f) e ∙ h

module _ {Code : Type 0} where
  -- An account that EIP-161 clears.
  abbrev pub IsCleared : Evaluation Code → AccountBasic → Type 0
  IsCleared ev account =
      (ev.eip_161 ≡ true) × (ev.code_hash ≡ none) × (account.nonce ≡ 0) × (account.balance ≡ 0)

  -- What a result does not take from the evaluation: it keeps what it has, or starts without slots.
  abbrev pub LeavesRest : Evaluation Code → Option (EvmAccount Code) → EvmAccount Code → Type 0
  LeavesRest ev (some o) a = (a.code_hash ≡ o.code_hash) × (a.code ≡ o.code) × (a.slots ≡ o.slots)
  LeavesRest ev none a = (a.code_hash ≡ ev.code_hash) × (a.code ≡ ev.code) × (a.slots ≡ [])

  -- What a writer's result has for the address, which had `old`, when `account` is its account.
  pub data Shows (ev : Evaluation Code) (old : Option (EvmAccount Code)) (account : AccountBasic)
      : Option (EvmAccount Code) → Type 0 where
    cleared :
        ev.eip_161 ≡ true
        → ev.code_hash ≡ none
        → account.nonce ≡ 0
        → account.balance ≡ 0
        → Shows ev old account none
    kept :
        {a : EvmAccount Code}
        → (IsCleared ev account → ⊥)
        → a.balance ≡ account.balance
        → a.nonce ≡ account.nonce
        → LeavesRest ev old a
        → Shows ev old account (some a)

  IsCleared-cases :
      (ev : Evaluation Code) (account : AccountBasic)
      → (IsCleared ev account
          × ((ev.eip_161 && is_none ev.code_hash && (account.nonce == 0) && (account.balance == 0))
              ≡ true))
        ⊎ ((ev.eip_161 && is_none ev.code_hash && (account.nonce == 0) && (account.balance == 0))
            ≡ false)
  IsCleared-cases ev account = elim (Option-cases ev.code_hash) [
    | inl q ↦ elim (Bool-cases (ev.eip_161 && (account.nonce == 0) && (account.balance == 0))) [
      | inl c ↦ inl ((ground arith, q, ground arith, ground arith), rw q (ground arith))
      | inr c ↦ inr (rw q (ground arith))
    ]
    | inr (h, q) ↦ inr (rw q (ground arith))
  ]

  not_cleared :
      (ev : Evaluation Code) (account : AccountBasic)
      → (ev.eip_161 && is_none ev.code_hash && (account.nonce == 0) && (account.balance == 0))
        ≡ false
      → IsCleared ev account
      → ⊥
  not_cleared ev account q c =
      let e : is_none ev.code_hash ≡ true = ap is_none c.1 in ground (arith, q, e)

  evaluate_entry-Accepted :
      (ev : Evaluation Code) (i : TxIdx) (m : Written) (start account : AccountBasic)
      (e : MemoryEntry) (results : TxIdx → TxState Code)
      → m i ≡ some e
      → Bounded (range_back (suc i) m) start
      → account ≡ replay (range_back i m) start
      → Accepted ev i m start e
      → (t : AccountBasic × (TxIdx → TxState Code)) × (evaluate_entry ev (i, e) (account, results)
          ≡ done t)
  unfolding evaluate_entry
  evaluate_entry-Accepted ev i m start account e results q b h k =
      let (account', p) =
        apply_entry-Payable (ev.txs i) account e
          (subst (λ x. Payable (ev.txs i) x e) (sym h) k.payable) in
      let list = range_back-some i m e q in
      let after : account' ≡ replay (range_back (suc i) m) start =
        apply_entry-replay (ev.txs i) i e (range_back i m) start account account'
          (subst (λ es. Bounded es start) list b) h p
        ∙ ap (λ es. replay es start) (sym list) in
      (
        _,
        bind-at (apply_entry (ev.txs i) e account) _ account' _ p (
            bind-at (check_nonce ev.address i (ev.txs i) account') _ tt _
              (check_nonce-done ev.address i (ev.txs i) account'
                (λ c. k.nonce c ∙ ap (λ (x : AccountBasic). x.nonce) (sym after)))
              refl),
      )

  evaluate_history-Accepted :
      (ev : Evaluation Code) (n : ℕ) (m : Written) (start : AccountBasic)
      (results : TxIdx → TxState Code)
      → ((j : ℕ) → j ≤ n → Bounded (range_back j m) start)
      → ((i : TxIdx) (e : MemoryEntry) → i < n → m i ≡ some e → Accepted ev i m start e)
      → (t : AccountBasic × (TxIdx → TxState Code)) × (evaluate_history ev n m (start, results)
          ≡ done t)
  unfolding evaluate_history
  evaluate_history-Accepted ev zero m start results b k = ((start, results), refl)
  evaluate_history-Accepted ev (suc n) m start results b k =
      let ((a, r), p) =
        evaluate_history-Accepted ev n m start results (λ j le. b j (omega (arith, le)))
          (λ i e lt. k i e (omega (arith, lt))) in
      let h =
        evaluate_history-Evaluated ev n m start a results r (λ j le. b j (omega (arith, le))) p in
      elim (Option-cases (m n)) [
        | inl q ↦
            ((a, r), bind-at (evaluate_history ev n m (start, results)) _ (a, r) _ p (rw q refl))
        | inr (e, q) ↦
            let (t, w) =
              evaluate_entry-Accepted ev n m start a e r q (b (suc n) (omega arith)) h.final
                (k n e (omega arith) q) in
            (t, bind-at (evaluate_history ev n m (start, results)) _ (a, r) _ p (rw q w))
      ]

  pub settle_account-Shows :
      (ev : Evaluation Code) (old : Option (EvmAccount Code)) (account : AccountBasic)
      → Shows ev old account (settle_account ev.eip_161 ev.code_hash ev.code account old)
  unfolding settle_account
  settle_account-Shows ev (some o) account = elim (IsCleared-cases ev account) [
    | inl ((h, k, m, z), c) ↦ rw c (cleared h k m z)
    | inr q ↦ rw q (kept (not_cleared ev account q) refl refl (refl, refl, refl))
  ]
  settle_account-Shows ev none account = elim (IsCleared-cases ev account) [
    | inl ((h, k, m, z), c) ↦ rw c (cleared h k m z)
    | inr q ↦ rw q (kept (not_cleared ev account q) refl refl (refl, refl, refl))
  ]

  -- The results behind the evaluation of the writes below `n`.
  pub record Replayed (ev : Evaluation Code) (n : ℕ) (m : Written) (start account : AccountBasic)
      (results results' : TxIdx → TxState Code) : Type 0 where
    pub final : account ≡ replay (range_back n m) start
    pub written :
        (i : TxIdx) (e : MemoryEntry)
        → i < n
        → m i ≡ some e
        → (x : Option (EvmAccount Code)) × (results' i ev.address ≡ some x)
          × Shows ev (or_none (results i ev.address)) (replay (range_back (suc i) m) start) x
    pub others : (i : TxIdx) (a : Address) → Aside ev n m i a → results' i a ≡ results i a

  -- The evaluation of the writes below `n` succeeds where each is a balance, none of an empty
  -- account, each lazy sender has its greatest fee at its turn, the nonces of the address's own
  -- transactions are those of the replay and nothing overflows. The account is then the replay of
  -- all writes from the lowest up; the result of each writer has, for the address, the replay up to
  -- and with its write, or nothing if that account is empty, without code, and cleared by EIP-161;
  -- no other result changes.
  pub evaluates_in_order :
      (ev : Evaluation Code) (n : ℕ) (m : Written) (start : AccountBasic)
      (results : TxIdx → TxState Code)
      → ((j : ℕ) → j ≤ n → Bounded (range_back j m) start)
      → ((i : TxIdx) (e : MemoryEntry) → i < n → m i ≡ some e → Accepted ev i m start e)
      → (account : AccountBasic) × (results' : TxIdx → TxState Code) × (evaluate_history ev n m
            (start, results)
          ≡ done (account, results'))
        × Replayed ev n m start account results results'
  evaluates_in_order ev n m start results b k =
      let ((a, r), p) = evaluate_history-Accepted ev n m start results b k in
      let h = evaluate_history-Evaluated ev n m start a results r b p in
      (
        a,
        r,
        p,
        record {
          final = h.final;
          written = λ i e lt q. (_, h.written i e lt q, settle_account-Shows ev _ _);
          others = h.others;
        },
      )

  -- Where the evaluation of the writes below `n` succeeds without overflow, an account read by
  -- transaction `n` that is not stuck and reads from the same start gives the same account, if
  -- every sender has what it sends at its turn and what is subtracted fits in 256 bits.
  pub evaluation_agrees_with_read :
      (ev : Evaluation Code) (n : ℕ) (m : Written) (start account read : AccountBasic)
      (results results' : TxIdx → TxState Code)
      → ((j : ℕ) → j ≤ n → Bounded (range_back j m) start)
      → evaluate_history ev n m (start, results) ≡ done (account, results')
      → Solvent (range_back n m) start
      → subs (range_back n m) ≤ u256_max
      → Yields start (evaluate [] start_lazy (range_back n m)) read
      → account ≡ read
  evaluation_agrees_with_read ev n m start account read results results' b h s c y =
      let last = b n (omega arith) in
      (evaluate_history-Evaluated ev n m start account results results' b h).final
      ∙ sym (evaluate_replays [] (range_back n m) start read s last.balance c last.nonce y)
