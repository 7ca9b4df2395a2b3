-- ===== src/Execution/Transitions.antt =====
-- The write set of `Vm::execute` against `state_transitions_from_revm` and `EvmAccount::from` of
-- crates/pevm/src/vm.rs and storage.rs.
use mathlib.Core.Option
use mathlib.Core.Option.{some-injective, none-ne-some}
use pevm.Base.{
  ◌≡◌, refl, sym, ap, ◌∙◌, Bool, true, false, ◌&&◌, ◌||◌, not, Option, none, some, List, [], ◌∷◌,
  map, arith, contains, Bool-cases, inl, inr, ◌==◌, ==_iff,
}
use pevm.Types.{
  Address, B256, MemoryLocation, basic_location, MemoryLocationHash, AccountBasic, MemoryValue,
  basic,
}
use pevm.MvMemory.Record.{last_value}
use pevm.Storage.{EvmAccount, lookup}
use pevm.Execution.{
  Account, Env, state_writes, from_account, with_code, transition, cons_transition,
  state_transitions, is_new_code, differs,
}
use pevm.Execution.Writes.{IsInjective, written_at}
use pevm.Execution.Reached.{IsMap, lookup-absent, written_in, state_writes-at}

-- The balance and nonce behind a write, by what was read below.
abbrev pub value_after :
    Option MemoryValue → Option (AccountBasic × Option B256) → Option AccountBasic
value_after (some (basic b)) read = some b
value_after (some v) read = none
value_after none (some (b, h)) = some b
value_after none none = none

module _ {Bytecode Code : Type 0} (into_code : Bytecode → Code) (eip : Bool) where
  -- The touched account that a transition is of.
  abbrev IsOf : List (Address × Account Bytecode) → Address → Option (EvmAccount Code) → Type 0
  IsOf state a t =
      (account : Account Bytecode) × (lookup state a ≡ some account)
      × (account.is_touched ≡ true)
      × (transition into_code eip account ≡ some t)

  IsOf-later :
      (b : Address) (account : Account Bytecode) (state : List (Address × Account Bytecode))
      (a : Address) (t : Option (EvmAccount Code))
      → contains (map (λ e. e.0) state) b ≡ false
      → IsOf state a t
      → IsOf ((b, account) ∷ state) a t
  IsOf-later b account state a t h (found, e, u, t') = elim (Bool-cases (b == a)) [
    | inl q ↦
        let same : b ≡ a = (==_iff b a).0 q in
        absurd (none-ne-some found (sym (lookup-absent state b h) ∙ ap (lookup state) same ∙ e))
    | inr q ↦ (found, rw q e, u, t')
  ]

  cons_transition-some :
      (b : Address) (o : Option (Option (EvmAccount Code)))
      (r : Option (List (Address × Option (EvmAccount Code))))
      (ts : List (Address × Option (EvmAccount Code)))
      → cons_transition into_code b o r ≡ some ts
      → (t : Option (EvmAccount Code)) × (rest : List (Address × Option (EvmAccount Code))) × (o
          ≡ some t)
        × (r ≡ some rest)
        × ((b, t) ∷ rest ≡ ts)
  cons_transition-some b (some t) (some rest) ts e = (t, rest, refl, refl, some-injective _ _ e)
  cons_transition-some b (some t) none ts e = cc
  cons_transition-some b none r ts e = cc

  -- A transition is of a touched account of the state.
  transitions-lookup :
      (state : List (Address × Account Bytecode)) (ts : List (Address × Option (EvmAccount Code)))
      (a : Address) (t : Option (EvmAccount Code))
      → IsMap state
      → state_transitions into_code eip state ≡ some ts
      → lookup ts a ≡ some t
      → IsOf state a t
  unfolding state_transitions
  transitions-lookup [] ts a t m e q =
      let empty : [] ≡ ts = some-injective [] ts e in
      absurd (none-ne-some t (ap (λ x. lookup x a) empty ∙ q))
  transitions-lookup ((b, account) ∷ state) ts a t m e q = elim (Bool-cases account.is_touched) [
    | inr u ↦ IsOf-later b account state a t m.0 (transitions-lookup state ts a t m.1 (rw u at e) q)
    | inl u ↦
        let (t₀, rest, o, r, same) =
          cons_transition-some b (transition into_code eip account)
            (state_transitions into_code eip state) ts (rw u at e) in
        let here : lookup ((b, t₀) ∷ rest) a ≡ some t = ap (λ x. lookup x a) same ∙ q in
        elim (Bool-cases (b == a)) [
          | inl w ↦
              let value : t₀ ≡ t = some-injective t₀ t (rw w at here) in
              (account, rw w refl, u, o ∙ ap some value)
          | inr w ↦
              IsOf-later b account state a t m.0
                (transitions-lookup state rest a t m.1 r (rw w at here))
        ]
  ]

  with_code-same :
      (account : Account Bytecode) (o : Option Bytecode) (evm : EvmAccount Code)
      → with_code into_code account o ≡ some evm
      → (evm.balance ≡ account.balance) × (evm.nonce ≡ account.nonce)
  with_code-same account none evm e = cc
  with_code-same account (some code) evm e =
      let same = some-injective _ _ e in
      (
        sym (ap (λ (x : EvmAccount Code). x.balance) same),
        sym (ap (λ (x : EvmAccount Code). x.nonce) same),
      )

  -- An account that stays is not self-destructed, nor empty where empty accounts are cleared.
  abbrev Stays : Account Bytecode → EvmAccount Code → Type 0
  Stays account evm =
      (account.is_selfdestructed ≡ false)
      × ((not eip || not account.is_empty) ≡ true)
      × (evm.balance ≡ account.balance)
      × (evm.nonce ≡ account.nonce)

  from_account-same :
      (account : Account Bytecode) (evm : EvmAccount Code)
      → from_account into_code account ≡ some evm
      → (evm.balance ≡ account.balance) × (evm.nonce ≡ account.nonce)
  unfolding from_account
  from_account-same account evm e = elim (Bool-cases account.is_empty_code_hash) [
    | inl q ↦
        let same = some-injective _ _ (rw q at e) in
        (
          sym (ap (λ (x : EvmAccount Code). x.balance) same),
          sym (ap (λ (x : EvmAccount Code). x.nonce) same),
        )
    | inr q ↦ with_code-same account account.code evm (rw q at e)
  ]

  map-some :
      (o : Option (EvmAccount Code)) (evm : EvmAccount Code)
      → Option.map some o ≡ some (some evm)
      → o ≡ some evm
  map-some none evm e = cc
  map-some (some x) evm e = some-injective _ _ e

  transition-Stays :
      (account : Account Bytecode) (evm : EvmAccount Code)
      → transition into_code eip account ≡ some (some evm)
      → Stays account evm
  unfolding transition
  transition-Stays account evm e =
      elim (Bool-cases (account.is_selfdestructed || (account.is_empty && eip))) [
        | inl q ↦
            let cleared : none ≡ some evm = some-injective _ _ (rw q at e) in
            absurd (none-ne-some evm cleared)
        | inr q ↦
            let (b, n) = from_account-same account evm (map-some _ evm (rw q at e)) in
            (ground arith, ground arith, b, n)
      ]

unread :
    {Bytecode : Type 0} (read : Option (AccountBasic × Option B256)) (account : Account Bytecode)
    → (is_new_code read account || differs read account) ≡ false
    → value_after none read ≡ some (record { balance = account.balance; nonce = account.nonce })
unread none account e = ground arith
unread (some (b, none)) account e = ground arith
unread (some (b, some h)) account e = ground arith

module _ {Bytecode Code : Type 0} (into_code : Bytecode → Code)
    (hash : MemoryLocation → MemoryLocationHash) (inj : IsInjective hash) (env : Env)
    (lz : env.is_lazy ≡ false) where
  written-value :
      (a : Address) (account : Account Bytecode)
      → account.is_touched ≡ true
      → account.is_selfdestructed ≡ false
      → (not env.is_eip_161_enabled || not account.is_empty) ≡ true
      → (read : Option (AccountBasic × Option B256))
      → value_after (written_at env read account (basic_location a)) read
        ≡ some (record { balance = account.balance; nonce = account.nonce })
  written-value a account t d e read =
      elim (Bool-cases (is_new_code read account || differs read account)) [
        | inl q ↦ rw (q, t, d, e) refl
        | inr q ↦ rw (q, t, d) (unread read account q)
      ]

  -- Where the state transitions of a non-lazy execution keep an account, the write set has its
  -- balance and nonce at the account's location, or has nothing there and they are what was read:
  -- a later transaction that reads the location finds what the transition tells.
  pub writes_match_transitions :
      (state : List (Address × Account Bytecode)) (ts : List (Address × Option (EvmAccount Code)))
      (a : Address) (evm : EvmAccount Code)
      → IsMap state
      → state_transitions into_code env.is_eip_161_enabled state ≡ some ts
      → lookup ts a ≡ some (some evm)
      → value_after
          (last_value (state_writes hash env state) (hash (basic_location a)))
          (env.read_accounts (hash (basic_location a)))
        ≡ some (record { balance = evm.balance; nonce = evm.nonce })
  writes_match_transitions state ts a evm m e q =
      let eip = env.is_eip_161_enabled in
      let read = env.read_accounts (hash (basic_location a)) in
      let (account, there, touched, t) =
        transitions-lookup into_code eip state ts a (some evm) m e q in
      let (d, kept, b, n) = transition-Stays into_code eip account evm t in
      ap (λ x. value_after x read)
        (state_writes-at hash inj env lz state (basic_location a) m ∙ written_there account there)
      ∙ written-value a account touched d kept read
      ∙ ap (λ x. some (record { balance = x; nonce = account.nonce })) (sym b)
      ∙ ap (λ x. some (record { balance = evm.balance; nonce = x })) (sym n)
    where
      written_there :
          (account : Account Bytecode)
          → lookup state a ≡ some account
          → written_in hash env state (basic_location a)
            ≡ written_at env
                (env.read_accounts (hash (basic_location a)))
                account
                (basic_location a)
      written_there account e = rw e refl
