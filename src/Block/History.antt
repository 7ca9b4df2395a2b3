-- ===== src/Block/History.antt =====
-- The evaluation of lazy addresses at the end of a block in crates/pevm/src/pevm.rs, against
-- replaying the writes one after another.

use pevm.Base.{
  ℕ, zero, suc, ◌+◌, ◌^◌, ◌≤◌, ◌<◌, ◌≡◌, ◌≢◌, refl, sym, ap, ◌∙◌, subst, false, Option, none, some,
  List, [], ◌∷◌, arith, ◌⊎◌, inl, inr, Bool-cases, Option-cases, ==_iff, ==_refl, update, ◌==◌,
}
use pevm.Types.{
  TxIdx, Address, AccountBasic, basic, lazy_recipient, lazy_sender, storage, code_hash,
  self_destructed, MemoryEntry, data_entry, estimate,
}
use pevm.MvMemory.{Written, range_back}
use pevm.MvMemory.Reads.{range_back-some, range_back-none}
use pevm.VmDb.Basic.{u256_max}
use pevm.VmDb.Lazy.{adds, senders, replay, base}
use pevm.Storage.{EvmAccount}
use pevm.Block.{
  TxFees, Outcome, done, error, ◌>>=◌, apply_entry, check_nonce, TxState, or_none, settle_account,
  Evaluation, evaluate_entry, evaluate_history,
}

-- The account that the writes below `n` start from, what they add and the nonces that they use
-- stay within 256 and 64 bits.
pub record Bounded (es : List (TxIdx × MemoryEntry)) (start : AccountBasic) : Type 0 where
  pub balance : (base es start).balance + adds es ≤ u256_max
  pub nonce : (base es start).nonce + senders es < 2 ^ 64

replay_bound :
    (es : List (TxIdx × MemoryEntry)) (start : AccountBasic)
    → ((replay es start).balance ≤ (base es start).balance + adds es)
      × ((replay es start).nonce ≡ (base es start).nonce + senders es)
replay_bound [] start = (omega arith, omega arith)
replay_bound ((i, estimate) ∷ es) start = (omega arith, omega arith)
replay_bound ((i, data_entry k (basic a)) ∷ es) start = (omega arith, omega arith)
replay_bound ((i, data_entry k (lazy_recipient a)) ∷ es) start =
    let h = replay_bound es start in (omega (arith, h.0), omega (arith, h.1))
replay_bound ((i, data_entry k (lazy_sender a)) ∷ es) start =
    let h = replay_bound es start in (omega (arith, h.0), omega (arith, h.1))
replay_bound ((i, data_entry k (code_hash a)) ∷ es) start = (omega arith, omega arith)
replay_bound ((i, data_entry k (storage a)) ∷ es) start = (omega arith, omega arith)
replay_bound ((i, data_entry k self_destructed) ∷ es) start = (omega arith, omega arith)

-- One entry applied is one more write replayed.
pub apply_entry-replay :
    (tx : TxFees) (i : TxIdx) (e : MemoryEntry) (es : List (TxIdx × MemoryEntry))
    (start account account' : AccountBasic)
    → Bounded ((i, e) ∷ es) start
    → account ≡ replay es start
    → apply_entry tx e account ≡ done account'
    → account' ≡ replay ((i, e) ∷ es) start
unfolding apply_entry
apply_entry-replay tx i estimate es start account account' b h e = ground arith
apply_entry-replay tx i (data_entry k (basic a)) es start account account' b h e = ground arith
apply_entry-replay tx i (data_entry k (lazy_recipient a)) es start account account' b h e =
    let r = replay_bound es start in ground (arith, b.balance, r.0)
apply_entry-replay tx i (data_entry k (lazy_sender a)) es start account account' b h e =
    let r = replay_bound es start in ground (arith, b.nonce, r.1)
apply_entry-replay tx i (data_entry k (code_hash a)) es start account account' b h e = ground arith
apply_entry-replay tx i (data_entry k (storage a)) es start account account' b h e = ground arith
apply_entry-replay tx i (data_entry k self_destructed) es start account account' b h e =
    ground arith

bind-done {ℓ κ} :
    {A : Type ℓ} {B : Type κ} (x : Outcome A) (f : A → Outcome B) (b : B)
    → (x >>= f) ≡ done b
    → (a : A) × (x ≡ done a) × (f a ≡ done b)
bind-done (done a) f b e = (a, refl, e)
bind-done (error x) f b e = cc

done_injective {ℓ} : {A : Type ℓ} (a b : A) → done a ≡ done b → a ≡ b
done_injective {A} a b e = ap (λ (o : Outcome A). elim o [ done x ↦ x | error x ↦ a ]) e

==_ne : (a b : ℕ) → b ≢ a → (a == b) ≡ false
==_ne a b h = ground arith

module _ {Code : Type 0} where
  -- What a transaction's result has for the address, by the account behind the transaction.
  abbrev pub shown :
      Evaluation Code → TxState Code → AccountBasic → Option (Option (EvmAccount Code))
  shown ev old account =
      some (settle_account ev.eip_161 ev.code_hash ev.code account (or_none (old ev.address)))

  evaluate_entry-done :
      (ev : Evaluation Code) (i : TxIdx) (e : MemoryEntry) (account account' : AccountBasic)
      (results results' : TxIdx → TxState Code)
      → evaluate_entry ev (i, e) (account, results) ≡ done (account', results')
      → (apply_entry (ev.txs i) e account ≡ done account')
        × (results'
            ≡ update results i (update (results i) ev.address (shown ev (results i) account')))
  unfolding evaluate_entry
  evaluate_entry-done ev i e account account' results results' h =
      let (a, p, q) = bind-done (apply_entry (ev.txs i) e account) _ _ h in
      let (u, r, t) = bind-done (check_nonce ev.address i (ev.txs i) a) _ _ q in
      let d = done_injective _ _ t in
      let same : a ≡ account' = ap (λ (x : AccountBasic × (TxIdx → TxState Code)). x.0) d in
      (
        p ∙ ap done same,
        sym (ap (λ (x : AccountBasic × (TxIdx → TxState Code)). x.1) d)
            ∙ ap (λ x. update results i (update (results i) ev.address (shown ev (results i) x)))
                same,
      )

  -- No entry below `n` is of transaction `i` for the address.
  abbrev pub Aside : Evaluation Code → ℕ → Written → TxIdx → Address → Type 0
  Aside ev n m i a = (a ≢ ev.address) ⊎ ((n ≤ i) ⊎ (m i ≡ none))

  Aside-pred :
      (ev : Evaluation Code) (n : ℕ) (m : Written) (i : TxIdx) (a : Address)
      → Aside ev (suc n) m i a
      → Aside ev n m i a
  Aside-pred ev n m i a (inl h) = inl h
  Aside-pred ev n m i a (inr (inl h)) = inr (inl (omega (arith, h)))
  Aside-pred ev n m i a (inr (inr h)) = inr (inr h)

  Aside-last :
      (ev : Evaluation Code) (n : ℕ) (m : Written) (i : TxIdx) (a : Address) (e : MemoryEntry)
      → n ≡ i
      → m n ≡ some e
      → Aside ev (suc n) m i a
      → a ≢ ev.address
  Aside-last ev n m i a e c q (inl h) = h
  Aside-last ev n m i a e c q (inr (inl h)) = absurd (omega (arith, h, c))
  Aside-last ev n m i a e c q (inr (inr h)) = absurd (ground (arith, c))

  -- The results behind the evaluation of the writes below `n`.
  pub record Evaluated (ev : Evaluation Code) (n : ℕ) (m : Written) (start account : AccountBasic)
      (results results' : TxIdx → TxState Code) : Type 0 where
    pub final : account ≡ replay (range_back n m) start
    pub written :
        (i : TxIdx) (e : MemoryEntry)
        → i < n
        → m i ≡ some e
        → results' i ev.address ≡ shown ev (results i) (replay (range_back (suc i) m) start)
    pub others : (i : TxIdx) (a : Address) → Aside ev n m i a → results' i a ≡ results i a

  Evaluated-none :
      (ev : Evaluation Code) (n : ℕ) (m : Written) (start account : AccountBasic)
      (results results' : TxIdx → TxState Code)
      → m n ≡ none
      → Evaluated ev n m start account results results'
      → Evaluated ev (suc n) m start account results results'
  Evaluated-none ev n m start account results results' q h = record {
    final = h.final ∙ ap (λ es. replay es start) (sym (range_back-none n m q));
    written = λ i e lt w. elim (Bool-cases (n == i)) [
      | inl c ↦ absurd (ground (arith, (==_iff n i).0 c))
      | inr c ↦ h.written i e (ground arith) w
    ];
    others = λ i a o. h.others i a (Aside-pred ev n m i a o);
  }

  Evaluated-some :
      (ev : Evaluation Code) (n : ℕ) (m : Written) (start account account' : AccountBasic)
      (results r results' : TxIdx → TxState Code) (e : MemoryEntry)
      → m n ≡ some e
      → Bounded (range_back (suc n) m) start
      → Evaluated ev n m start account results r
      → evaluate_entry ev (n, e) (account, r) ≡ done (account', results')
      → Evaluated ev (suc n) m start account' results results'
  Evaluated-some ev n m start account account' results r results' e q b h t =
      let (p, s) = evaluate_entry-done ev n e account account' r results' t in
      let list = range_back-some n m e q in
      let last : account' ≡ replay (range_back (suc n) m) start =
        apply_entry-replay (ev.txs n) n e (range_back n m) start account account'
          (subst (λ es. Bounded es start) list b) h.final p
        ∙ ap (λ es. replay es start) (sym list) in
      let at : (i : TxIdx) (a : Address)
          → results' i a ≡ update r n (update (r n) ev.address (shown ev (r n) account')) i a =
        λ i a. ap (λ f. f i a) s in
      let kept = h.others n ev.address (inr (inl (omega arith))) in
      let here : results' n ev.address
          ≡ shown ev (results n) (replay (range_back (suc n) m) start) =
        at n ev.address
        ∙ rw (==_refl n, ==_refl ev.address)
            (ap (λ x. some (settle_account ev.eip_161 ev.code_hash ev.code account' (or_none x)))
                kept
              ∙ ap (shown ev (results n)) last) in
      record {
        final = last;
        written = λ i e' lt w. elim (Bool-cases (n == i)) [
          | inl c ↦
              subst
                (λ j.
                  results' j ev.address
                  ≡ shown ev (results j) (replay (range_back (suc j) m) start))
                ((==_iff n i).0 c) here
          | inr c ↦ at i ev.address ∙ rw c (h.written i e' (ground arith) w)
        ];
        others = λ i a o. elim (Bool-cases (n == i)) [
          | inl c ↦
              let same = (==_iff n i).0 c in
              let ne = Aside-last ev n m i a e same q o in
              at i a
              ∙ rw (c, ==_ne ev.address a ne) (h.others n a (inl ne) ∙ ap (λ j. results j a) same)
          | inr c ↦ at i a ∙ rw c (h.others i a (Aside-pred ev n m i a o))
        ];
      }

  pub evaluate_history-Evaluated :
      (ev : Evaluation Code) (n : ℕ) (m : Written) (start account : AccountBasic)
      (results results' : TxIdx → TxState Code)
      → ((j : ℕ) → j ≤ n → Bounded (range_back j m) start)
      → evaluate_history ev n m (start, results) ≡ done (account, results')
      → Evaluated ev n m start account results results'
  unfolding evaluate_history range_back
  evaluate_history-Evaluated ev zero m start account results results' b h =
      let d = done_injective _ _ h in
      record {
        final = sym (ap (λ (x : AccountBasic × (TxIdx → TxState Code)). x.0) d);
        written = λ i e lt q. absurd (omega (arith, lt));
        others = λ i a o. ap (λ (x : AccountBasic × (TxIdx → TxState Code)). x.1 i a) (sym d);
      }
  evaluate_history-Evaluated ev (suc n) m start account results results' b h =
      let ((a, r), p, q) = bind-done (evaluate_history ev n m (start, results)) _ _ h in
      let lower =
        evaluate_history-Evaluated ev n m start a results r (λ j lt. b j (omega (arith, lt))) p in
      elim (Option-cases (m n)) [
        | inl none_here ↦
            subst
              (λ (x : AccountBasic × (TxIdx → TxState Code)).
                Evaluated ev (suc n) m start x.0 results x.1)
              (done_injective _ _ (rw none_here at q))
              (Evaluated-none ev n m start a results r none_here lower)
        | inr (e, some_here) ↦
            Evaluated-some ev n m start a account results r results' e some_here
              (b (suc n) (omega arith)) lower (rw some_here at q)
      ]
