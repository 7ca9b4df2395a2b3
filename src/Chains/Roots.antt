-- ===== src/Chains/Roots.antt =====
-- When the root of the receipts of a RISE block can be calculated (crates/pevm/src/chain/rise.rs).

use pevm.Base.{
  ℕ, zero, suc, ◌≡◌, ◌↔◌, refl, sym, ◌∙◌, subst, arith, not, ◌==◌, Bool, true, false, Option, none,
  some, List, [], ◌∷◌, if◌then◌else◌,
}
use pevm.Types.{Address, B256}
use pevm.Storage.{EvmAccount, lookup}
use pevm.Execution.{Receipt}
use pevm.Driver.{PevmTxExecutionResult}
use pevm.Chains.{
  TxType, legacy, eip2930, eip1559, eip4844, eip7702, deposit, post_exec, Rooted, ok, failed, ◌>>=◌,
  panicked, checked_dec, zip, sender_of, rise_receipt, rise_entries, rise_receipt_root,
}

module _ {Code : Type 0} where
  abbrev has_account : Option (Option (EvmAccount Code)) → Bool
  has_account (some (some account)) = not (account.nonce == 0)
  has_account _ = false

module _ {Log Code : Type 0} where
  -- No deposit, or one whose result has its sender's account, with a nonce above zero.
  abbrev pub has_sender : TxType × Address → PevmTxExecutionResult Log Code → Bool
  has_sender (deposit, signer) result = has_account (lookup result.state signer)
  has_sender _ result = true

  abbrev pub have_senders : List ((TxType × Address) × PevmTxExecutionResult Log Code) → Bool
  have_senders [] = true
  have_senders ((tx, result) ∷ rest) = if has_sender tx result then have_senders rest else false

-- What is answered: a result exactly if the test holds.
abbrev Answers : {A : Type 0} → Rooted A → Bool → Type 0
Answers (ok a) b = b ≡ true
Answers (failed e) b = b ≡ false
Answers panicked b = b ≡ false

bind-Answers :
    {A B : Type 0} (r : Rooted A) (f : A → Rooted B) (b c : Bool)
    → Answers r b
    → ((a : A) → Answers (f a) c)
    → Answers (r >>= f) (if b then c else false)
bind-Answers (ok a) f b c h g = rw h (g a)
bind-Answers (failed e) f b c h g = rw h refl
bind-Answers panicked f b c h g = rw h refl

bind_ok-Answers :
    {A B : Type 0} (r : Rooted A) (f : A → B) (b : Bool)
    → Answers r b
    → Answers (r >>= λ a. ok (f a)) b
bind_ok-Answers (ok a) f b h = h
bind_ok-Answers (failed e) f b h = h
bind_ok-Answers panicked f b h = h

Answers-iff :
    {A : Type 0} (r : Rooted A) (b : Bool) → Answers r b → ((a : A) × (r ≡ ok a)) ↔ (b ≡ true)
Answers-iff (ok a) b h = (λ e. h, λ e. (a, refl))
Answers-iff (failed x) b h = (λ e. absurd (failed-ne-ok e.1), λ e. absurd (clash (sym h ∙ e)))
  where
    failed-ne-ok : {A : Type 0} {a : A} → ◌≡◌ {A = Rooted A} (failed x) (ok a) → ⊥
    failed-ne-ok e = cc

    clash : false ≡ true → ⊥
    clash e = cc
Answers-iff panicked b h = (λ e. absurd (panicked-ne-ok e.1), λ e. absurd (clash (sym h ∙ e)))
  where
    panicked-ne-ok : {A : Type 0} {a : A} → ◌≡◌ {A = Rooted A} panicked (ok a) → ⊥
    panicked-ne-ok e = cc

    clash : false ≡ true → ⊥
    clash e = cc

checked_dec-Answers : (n : ℕ) → Answers (checked_dec n) (not (n == 0))
checked_dec-Answers zero = refl
checked_dec-Answers (suc n) = ground arith

bind_twice :
    {A B C : Type 0} (r : Rooted A) (f : A → Rooted B) (g : B → Rooted C)
    → ((r >>= f) >>= g) ≡ (r >>= λ a. f a >>= g)
bind_twice (ok a) f g = refl
bind_twice (failed e) f g = refl
bind_twice panicked f g = refl

module _ {Log Code Key Bytes : Type 0} (encode_index : ℕ → Key)
    (encode : TxType → Receipt Log → Bytes) (encode_deposit : Receipt Log → ℕ → Bytes)
    (sort : List (Key × Bytes) → List (Key × Bytes)) (root : List (Key × Bytes) → B256) where
  sender_of-Answers :
      (o : Option (Option (EvmAccount Code)))
      → Answers
          (sender_of {Log = Log} {Code = Code} encode_index encode encode_deposit sort root o
            >>= λ account. checked_dec account.nonce)
          (has_account o)
  sender_of-Answers none = refl
  sender_of-Answers (some none) = refl
  sender_of-Answers (some (some account)) = checked_dec-Answers account.nonce

  rise_receipt-Answers :
      (tx : TxType × Address) (result : PevmTxExecutionResult Log Code)
      → Answers
          (rise_receipt encode_index encode encode_deposit sort root tx result)
          (has_sender tx result)
  rise_receipt-Answers (deposit, signer) result =
      let sender =
        sender_of encode_index encode encode_deposit sort root (lookup result.state signer) in
      subst (λ r. Answers r (has_account (lookup result.state signer)))
        (bind_twice sender (λ account. checked_dec account.nonce)
          (λ n. ok (encode_deposit result.receipt n)))
        (bind_ok-Answers _ (encode_deposit result.receipt) _
          (sender_of-Answers (lookup result.state signer)))
  rise_receipt-Answers (legacy, signer) result = refl
  rise_receipt-Answers (eip2930, signer) result = refl
  rise_receipt-Answers (eip1559, signer) result = refl
  rise_receipt-Answers (eip4844, signer) result = refl
  rise_receipt-Answers (eip7702, signer) result = refl
  rise_receipt-Answers (post_exec, signer) result = refl

  rise_entries-Answers :
      (i : ℕ) (rs : List ((TxType × Address) × PevmTxExecutionResult Log Code))
      → Answers (rise_entries encode_index encode encode_deposit sort root i rs) (have_senders rs)
  unfolding rise_entries
  rise_entries-Answers i [] = refl
  rise_entries-Answers i ((tx, result) ∷ rest) =
      bind-Answers (rise_receipt encode_index encode encode_deposit sort root tx result) _
        (has_sender tx result) (have_senders rest) (rise_receipt-Answers tx result)
        (λ bytes. bind_ok-Answers _ _ (have_senders rest) (rise_entries-Answers (suc i) rest))

  -- RISE's root of the receipts is calculated exactly if the result of every deposit has an account
  -- of the deposit's sender that is not cleared and has a nonce above zero.
  pub rise_receipt_root_iff :
      (txs : List (TxType × Address)) (results : List (PevmTxExecutionResult Log Code))
      → ((h : B256) × (rise_receipt_root encode_index encode encode_deposit sort root txs results
            ≡ ok h))
        ↔ (have_senders (zip txs results) ≡ true)
  unfolding rise_receipt_root
  rise_receipt_root_iff txs results =
      Answers-iff (rise_receipt_root encode_index encode encode_deposit sort root txs results)
        (have_senders (zip txs results))
        (bind_ok-Answers _ (λ es. root (sort es)) (have_senders (zip txs results))
          (rise_entries-Answers 0 (zip txs results)))
