-- ===== src/VmDb/Lazy.antt =====
-- Lazy balance updates in `Database::basic` of crates/pevm/src/vm.rs: the signed sum that the loop
-- accumulates from the highest write down, against replaying the writes from the lowest up.
use pevm.Base.{
  ℕ, ◌+◌, ◌-◌, ◌≤◌, ◌≡◌, refl, ◌∙◌, subst, true, false, List, [], ◌∷◌, arith, ◌⊎◌, inl, inr,
  Bool-cases, ◌^◌, ◌<◌,
}
use pevm.Types.{
  TxIdx, AccountBasic, basic, lazy_recipient, lazy_sender, storage, code_hash, self_destructed,
  MemoryEntry, data_entry, estimate, ReadOrigin, ReadOrigins,
}
use pevm.VmDb.{version_of}
use pevm.VmDb.Basic.{
  u256_max, Lazy, start_lazy, add_recipient, add_sender, is_consistent, push_new, Evaluated, stuck,
  absolute, relative, evaluate, apply_lazy,
}

-- What the lower writes add and take away, and how many nonces they use, down to the closest
-- absolute value.
abbrev pub adds : List (TxIdx × MemoryEntry) → ℕ
adds ((i, data_entry k (lazy_recipient a)) ∷ es) = a + adds es
adds ((i, data_entry k (lazy_sender s)) ∷ es) = adds es
adds _ = 0

abbrev pub subs : List (TxIdx × MemoryEntry) → ℕ
subs ((i, data_entry k (lazy_recipient a)) ∷ es) = subs es
subs ((i, data_entry k (lazy_sender s)) ∷ es) = s + subs es
subs _ = 0

abbrev pub senders : List (TxIdx × MemoryEntry) → ℕ
senders ((i, data_entry k (lazy_recipient a)) ∷ es) = senders es
senders ((i, data_entry k (lazy_sender s)) ∷ es) = senders es + 1
senders _ = 0

-- The account that the writes leave when they are applied one after another, the lowest first, to
-- an account of the storage.
abbrev pub replay : List (TxIdx × MemoryEntry) → AccountBasic → AccountBasic
replay ((i, data_entry k (basic account)) ∷ es) stored = account
replay ((i, data_entry k (lazy_recipient a)) ∷ es) stored = record (replay es stored) {
  balance = (replay es stored).balance + a;
}
replay ((i, data_entry k (lazy_sender s)) ∷ es) stored = record {
  balance = (replay es stored).balance - s;
  nonce = (replay es stored).nonce + 1;
}
replay _ stored = stored

-- Every sender has what it sends at its turn.
abbrev pub Solvent : List (TxIdx × MemoryEntry) → AccountBasic → Type 0
Solvent ((i, data_entry k (lazy_recipient a)) ∷ es) stored = Solvent es stored
Solvent ((i, data_entry k (lazy_sender s)) ∷ es) stored =
    (s ≤ (replay es stored).balance) × Solvent es stored
Solvent _ stored = Unit

-- The account that the replay starts from.
abbrev pub base : List (TxIdx × MemoryEntry) → AccountBasic → AccountBasic
base ((i, data_entry k (basic account)) ∷ es) stored = account
base ((i, data_entry k (lazy_recipient a)) ∷ es) stored = base es stored
base ((i, data_entry k (lazy_sender s)) ∷ es) stored = base es stored
base _ stored = stored

-- `z` stands for `p - m`.
abbrev Stands : Lazy → ℕ → ℕ → Type 0
Stands z p m =
    ((z.positive_addition ≡ true) × (z.balance_addition + m ≡ p))
    ⊎ ((z.positive_addition ≡ false) × (z.balance_addition + p ≡ m))

add_recipient-Stands :
    (z : Lazy) (p m a : ℕ) → p + a ≤ u256_max → Stands z p m → Stands (add_recipient a z) (p + a) m
add_recipient-Stands z p m a b (inl (e, q)) = ground arith
add_recipient-Stands z p m a b (inr (e, q)) = ground arith

add_sender-Stands :
    (z : Lazy) (p m s : ℕ) → m + s ≤ u256_max → Stands z p m → Stands (add_sender s z) p (m + s)
add_sender-Stands z p m s b (inl (e, q)) = ground arith
add_sender-Stands z p m s b (inr (e, q)) = ground arith

replay-base :
    (es : List (TxIdx × MemoryEntry)) (stored : AccountBasic)
    → Solvent es stored
    → ((replay es stored).balance + subs es ≡ (base es stored).balance + adds es)
      × ((replay es stored).nonce ≡ (base es stored).nonce + senders es)
replay-base [] stored h = (refl, omega arith)
replay-base ((i, estimate) ∷ es) stored h = (refl, omega arith)
replay-base ((i, data_entry k (basic account)) ∷ es) stored h = (refl, omega arith)
replay-base ((i, data_entry k (lazy_recipient a)) ∷ es) stored h =
    let r = replay-base es stored h in (omega (arith, r.0), omega (arith, r.1))
replay-base ((i, data_entry k (lazy_sender s)) ∷ es) stored h =
    let r = replay-base es stored h.1 in (omega (arith, r.0), omega (arith, r.1))
replay-base ((i, data_entry k (code_hash c)) ∷ es) stored h = (refl, omega arith)
replay-base ((i, data_entry k (storage c)) ∷ es) stored h = (refl, omega arith)
replay-base ((i, data_entry k self_destructed) ∷ es) stored h = (refl, omega arith)

-- What an evaluation that started at `z`, standing for `p - m`, ends with.
abbrev Sums : List (TxIdx × MemoryEntry) → AccountBasic → Lazy → ℕ → ℕ → Lazy → Type 0
Sums es stored z p m z' =
    Stands z' (p + adds es) (m + subs es) × (z'.nonce_addition ≡ z.nonce_addition + senders es)

abbrev Evaluates : List (TxIdx × MemoryEntry) → AccountBasic → Lazy → ℕ → ℕ → Evaluated → Type 0
Evaluates es stored z p m (stuck e) = Unit
Evaluates es stored z p m (absolute account z') =
    Sums es stored z p m z' × (base es stored ≡ account)
Evaluates es stored z p m (relative z') = Sums es stored z p m z' × (base es stored ≡ stored)

Evaluates-recipient :
    (i k a : ℕ) (es : List (TxIdx × MemoryEntry)) (stored : AccountBasic) (z : Lazy) (p m : ℕ)
    (r : Evaluated) (o : ReadOrigin)
    → Evaluates es stored (add_recipient a (push_new o z)) (p + a) m r
    → Evaluates ((i, data_entry k (lazy_recipient a)) ∷ es) stored z p m r
Evaluates-recipient i k a es stored z p m (stuck e) o h = tt
Evaluates-recipient i k a es stored z p m (absolute c z') o h = ground arith
Evaluates-recipient i k a es stored z p m (relative z') o h = ground arith

Evaluates-sender :
    (i k s : ℕ) (es : List (TxIdx × MemoryEntry)) (stored : AccountBasic) (z : Lazy) (p m : ℕ)
    (r : Evaluated) (o : ReadOrigin)
    → Evaluates es stored (add_sender s (push_new o z)) p (m + s) r
    → Evaluates ((i, data_entry k (lazy_sender s)) ∷ es) stored z p m r
Evaluates-sender i k s es stored z p m (stuck e) o h = tt
Evaluates-sender i k s es stored z p m (absolute c z') o h = ground arith
Evaluates-sender i k s es stored z p m (relative z') o h = ground arith

evaluate-Evaluates :
    (prev : ReadOrigins) (z : Lazy) (p m : ℕ) (es : List (TxIdx × MemoryEntry))
    (stored : AccountBasic)
    → p + adds es ≤ u256_max
    → m + subs es ≤ u256_max
    → Stands z p m
    → Evaluates es stored z p m (evaluate prev z es)
unfolding evaluate
evaluate-Evaluates prev z p m [] stored a b h = ((ground arith, omega arith), refl)
evaluate-Evaluates prev z p m ((i, estimate) ∷ es) stored a b h = tt
evaluate-Evaluates prev z p m ((i, data_entry k (basic account)) ∷ es) stored a b h =
    elim (Bool-cases (is_consistent prev z (version_of i k))) [
      | inl c ↦ rw (c, evaluate) ((ground arith, omega arith), refl)
      | inr c ↦ rw (c, evaluate) tt
    ]
evaluate-Evaluates prev z p m ((i, data_entry k (lazy_recipient v)) ∷ es) stored a b h =
    let z' = push_new (version_of i k) z in
    elim (Bool-cases (is_consistent prev z (version_of i k))) [
      | inl c ↦
          rw (c, evaluate)
            (Evaluates-recipient i k v es stored z p m _ (version_of i k) (
              evaluate-Evaluates prev (add_recipient v z') (p + v) m es stored (omega arith) b
                (add_recipient-Stands z' p m v (omega arith) h)))
      | inr c ↦ rw (c, evaluate) tt
    ]
evaluate-Evaluates prev z p m ((i, data_entry k (lazy_sender v)) ∷ es) stored a b h =
    let z' = push_new (version_of i k) z in
    elim (Bool-cases (is_consistent prev z (version_of i k))) [
      | inl c ↦
          rw (c, evaluate)
            (Evaluates-sender i k v es stored z p m _ (version_of i k) (
              evaluate-Evaluates prev (add_sender v z') p (m + v) es stored a (omega arith)
                (add_sender-Stands z' p m v (omega arith) h)))
      | inr c ↦ rw (c, evaluate) tt
    ]
evaluate-Evaluates prev z p m ((i, data_entry k (code_hash v)) ∷ es) stored a b h =
    elim (Bool-cases (is_consistent prev z (version_of i k))) [
      | inl c ↦ rw (c, evaluate) tt
      | inr c ↦ rw (c, evaluate) tt
    ]
evaluate-Evaluates prev z p m ((i, data_entry k (storage v)) ∷ es) stored a b h =
    elim (Bool-cases (is_consistent prev z (version_of i k))) [
      | inl c ↦ rw (c, evaluate) tt
      | inr c ↦ rw (c, evaluate) tt
    ]
evaluate-Evaluates prev z p m ((i, data_entry k self_destructed) ∷ es) stored a b h =
    elim (Bool-cases (is_consistent prev z (version_of i k))) [
      | inl c ↦ rw (c, evaluate) tt
      | inr c ↦ rw (c, evaluate) tt
    ]

apply-balance :
    (z : Lazy) (account : AccountBasic) (p m : ℕ)
    → Stands z p m
    → account.balance + p ≤ u256_max
    → m ≤ account.balance + p
    → (apply_lazy z account).balance + m ≡ account.balance + p
apply-balance z account p m (inl (e, q)) b c = ground arith
apply-balance z account p m (inr (e, q)) b c = ground arith

-- The account that the loop's result and the storage's account give.
abbrev pub Yields : AccountBasic → Evaluated → AccountBasic → Type 0
Yields stored (stuck e) r = ⊥
Yields stored (absolute account z) r = r ≡ apply_lazy z account
Yields stored (relative z) r = r ≡ apply_lazy z stored

apply-replay :
    (z : Lazy) (es : List (TxIdx × MemoryEntry)) (stored : AccountBasic)
    → Sums es stored start_lazy 0 0 z
    → Solvent es stored
    → (base es stored).balance + adds es ≤ u256_max
    → (base es stored).nonce + senders es < 2 ^ 64
    → apply_lazy z (base es stored) ≡ replay es stored
apply-replay z es stored s h b n =
    let r = replay-base es stored h in
    let q =
      apply-balance z (base es stored) (0 + adds es) (0 + subs es) s.0 (omega arith)
        (omega (arith, r.0)) in
    ground (arith, r.0, r.1, q, s.1)

-- A first or repeated read whose loop is not stuck gives the account that replaying the lower
-- writes from the lowest up gives, the closest absolute value or else the storage's account being
-- the start, provided that every sender has what it sends at its turn, and that what is added
-- fits in 256 bits, what is subtracted too, and the nonces in 64.
pub evaluate_replays :
    (prev : ReadOrigins) (es : List (TxIdx × MemoryEntry)) (stored account : AccountBasic)
    → Solvent es stored
    → (base es stored).balance + adds es ≤ u256_max
    → subs es ≤ u256_max
    → (base es stored).nonce + senders es < 2 ^ 64
    → Yields stored (evaluate prev start_lazy es) account
    → account ≡ replay es stored
evaluate_replays prev es stored account h b c n e =
    go (evaluate prev start_lazy es)
      (evaluate-Evaluates prev start_lazy 0 0 es stored (omega arith) (omega arith)
        (inl (refl, refl)))
      e
  where
    go :
        (r : Evaluated)
        → Evaluates es stored start_lazy 0 0 r
        → Yields stored r account
        → account ≡ replay es stored
    go (stuck x) s q = absurd q
    go (absolute a z) s q =
        q ∙ subst (λ t. apply_lazy z t ≡ replay es stored) s.1 (apply-replay z es stored s.0 h b n)
    go (relative z) s q =
        q ∙ subst (λ t. apply_lazy z t ≡ replay es stored) s.1 (apply-replay z es stored s.0 h b n)
