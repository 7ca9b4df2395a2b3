-- ===== src/Rpc/Refines.antt =====
-- The caches of `RpcStorage` in crates/pevm/src/storage/rpc.rs against the state of the chain at the
-- block that the node is asked about.

use mathlib.Core.Option.{none-ne-some, some-injective}
use pevm.Base.{
  ℕ, ◌≡◌, refl, sym, ap, ◌∙◌, subst, Bool, true, false, not, ◌&&◌, Option, none, some, arith,
  Option-cases, Bool-cases, inl, inr, ◌==◌, if◌then◌else◌,
}
use pevm.Types.{Address, U256, B256, AccountBasic}
use pevm.Storage.{Fetched, ok, failed, EvmAccount, lookup}
use pevm.Rpc.{
  Provider, Codes, Traffic, RpcStorage, fetch, insert, cache_code, basic, code_hash, code_by_hash,
  has_storage, storage, block_hash, store, and_then, basic_from, code_hash_after, cache_slot_of,
  store_slot, fetch_slot, storage_from, block_hash_from, store_block_hash, differs,
}
use pevm.Rpc.Caches.{lookup-insert, lookup-insert_kept, insert-all}
use pevm.Rpc.Fetch.{fetch-answer}

-- A good answer is the given one.
abbrev pub Right {ℓ} : {A : Type ℓ} → Fetched A → A → Type ℓ
Right (ok a) x = a ≡ x
Right (failed e) x = Unit

-- The state of the chain at the block.
pub record ChainAt (Bytes : Type 0) : Type 0 where
  pub nonce : Address → ℕ
  pub balance : Address → U256
  pub code : Address → Bytes
  pub slot : Address → U256 → U256
  pub storage_hash : Address → B256
  pub hash : ℕ → Option B256

-- Whenever the node answers, it answers what the chain has.
pub record IsFaithful {Bytes : Type 0} (provider : Provider Bytes) (chain : ChainAt Bytes)
    : Type 0 where
  pub nonce : (n : ℕ) (a : Address) → Right (provider.get_transaction_count n a) (chain.nonce a)
  pub balance : (n : ℕ) (a : Address) → Right (provider.get_balance n a) (chain.balance a)
  pub code : (n : ℕ) (a : Address) → Right (provider.get_code_at n a) (chain.code a)
  pub slot :
      (n : ℕ) (a : Address) (index : U256)
      → Right (provider.get_storage_at n a index) (chain.slot a index)
  pub storage_hash : (n : ℕ) (a : Address) → Right (provider.get_proof n a) (chain.storage_hash a)
  pub hash : (n number : ℕ) → Right (provider.get_block_by_number n number) (chain.hash number)

fetch-Right {ℓ} :
    {A : Type ℓ} (request : ℕ → Fetched A) (x : A) (t : Traffic)
    → ((n : ℕ) → Right (request n) x)
    → Right (fetch request t).0 x
fetch-Right request x t h =
    let (n, e) = fetch-answer request t in subst (λ r. Right r x) (sym e) (h n)

abbrev pub as_found : Fetched B256 → Fetched (Option B256)
as_found (ok h) = ok (some h)
as_found (failed e) = failed e

module _ {Bytes Code : Type 0} (provider : Provider Bytes) (codes : Codes Bytes Code)
    (is_precompile : Address → Bool) (empty_root_hash : B256) (chain : ChainAt Bytes)
    (faithful : IsFaithful provider chain) where
  abbrev pub absent_at : Address → Bool
  absent_at a =
      not (is_precompile a)
      && (chain.balance a == 0)
      && (chain.nonce a == 0)
      && codes.is_empty (chain.code a)

  -- The account's basic information and code hash, as `Storage` promises them.
  abbrev pub chain_basic : Address → Option AccountBasic
  chain_basic a =
      if absent_at a
      then none
      else some (record { balance = chain.balance a; nonce = chain.nonce a })

  abbrev the_hash : Address → Option B256
  the_hash a =
      if codes.raw_is_empty (chain.code a) then none else some (codes.hash_slow (chain.code a))

  abbrev pub chain_code_hash : Address → Option B256
  chain_code_hash a = if absent_at a then none else the_hash a

  pub record IsAccount (a : Address) (account : EvmAccount Code) : Type 0 where
    pub present : absent_at a ≡ false
    pub balance : account.balance ≡ chain.balance a
    pub nonce : account.nonce ≡ chain.nonce a
    pub code_hash : account.code_hash ≡ the_hash a
    pub slots :
        (index value : U256) → lookup account.slots index ≡ some value → value ≡ chain.slot a index

  abbrev pub IsCodeOf : B256 → Code → Type 0
  IsCodeOf h code =
      (a : Address) × (h ≡ codes.hash_slow (chain.code a)) × (code ≡ codes.into_code (chain.code a))

  -- The code that an account's hash names is kept.
  abbrev pub IsCoded : RpcStorage Code → EvmAccount Code → Type 0
  IsCoded s account =
      (h : B256)
      → account.code_hash ≡ some h
      → (code : Code) × (lookup s.cache_bytecodes h ≡ some code)

  -- All that is kept is what the chain has.
  pub record Sound (s : RpcStorage Code) : Type 0 where
    pub accounts :
        (a : Address) (account : EvmAccount Code)
        → lookup s.cache_accounts a ≡ some account
        → IsAccount a account
    pub coded :
        (a : Address) (account : EvmAccount Code)
        → lookup s.cache_accounts a ≡ some account
        → IsCoded s account
    pub bytecodes :
        (h : B256) (code : Code) → lookup s.cache_bytecodes h ≡ some code → IsCodeOf h code
    pub hashes :
        (number : ℕ) (h : B256)
        → lookup s.cache_block_hashes number ≡ some h
        → chain.hash number ≡ some h

  -- A code that is answered for a hash.
  abbrev pub CodeAnswer : B256 → Fetched (Option Code) → Type 0
  CodeAnswer h (ok (some code)) = IsCodeOf h code
  CodeAnswer h (ok none) = Unit
  CodeAnswer h (failed e) = ⊥

  -- Behind a call of `code_hash`: the code of the hash that it answered is answered too.
  abbrev pub IsServed : Fetched (Option B256) × RpcStorage Code → Type 0
  IsServed (ok (some h), s) =
      (code : Code) × ((code_by_hash provider codes is_precompile empty_root_hash h s).0
        ≡ ok (some code))
      × IsCodeOf h code
  IsServed (ok none, s) = Unit
  IsServed (failed e, s) = Unit

  pub code_by_hash-CodeAnswer :
      (h : B256) (s : RpcStorage Code)
      → Sound s
      → CodeAnswer h (code_by_hash provider codes is_precompile empty_root_hash h s).0
  unfolding code_by_hash
  code_by_hash-CodeAnswer h s x = elim (Option-cases (lookup s.cache_bytecodes h)) [
    | inl q ↦ rw q tt
    | inr (code, q) ↦ rw q (x.bytecodes h code q)
  ]

  abbrev with_traffic : Traffic → RpcStorage Code → RpcStorage Code
  with_traffic t s = record s { traffic = t }

  with_traffic-Sound : (t : Traffic) (s : RpcStorage Code) → Sound s → Sound (with_traffic t s)
  with_traffic-Sound t s h = record {
    accounts = h.accounts;
    coded = h.coded;
    bytecodes = h.bytecodes;
    hashes = h.hashes;
  }

  abbrev with_account : Address → EvmAccount Code → RpcStorage Code → RpcStorage Code
  with_account a account s = record s { cache_accounts = insert a account s.cache_accounts }

  with_account-Sound :
      (a : Address) (account : EvmAccount Code) (s : RpcStorage Code)
      → Sound s
      → IsAccount a account
      → IsCoded s account
      → Sound (with_account a account s)
  with_account-Sound a account s h i c = record {
    accounts = insert-all IsAccount s.cache_accounts a account i h.accounts;
    coded = insert-all (λ _ w. IsCoded s w) s.cache_accounts a account c h.coded;
    bytecodes = h.bytecodes;
    hashes = h.hashes;
  }

  -- An account that is not kept behind a good answer is absent.
  abbrev pub Known : Address → Fetched (Option AccountBasic) × RpcStorage Code → Type 0
  Known a (ok found, s) = lookup s.cache_accounts a ≡ none → absent_at a ≡ true
  Known a (failed e, s) = Unit

  abbrev pub Basic : Address → Fetched (Option AccountBasic) × RpcStorage Code → Type 0
  Basic a out = Right out.0 (chain_basic a) × Sound out.1 × Known a out

  cache_code-Sound :
      (a : Address) (s : RpcStorage Code)
      → Sound s
      → Sound (
          if codes.raw_is_empty (chain.code a) then s else record s {
            cache_bytecodes =
                insert
                  (codes.hash_slow (chain.code a))
                  (codes.into_code (chain.code a))
                  s.cache_bytecodes;
          })
  cache_code-Sound a s h = elim (Bool-cases (codes.raw_is_empty (chain.code a))) [
    | inl q ↦ rw q h
    | inr q ↦ rw q (record {
      accounts = h.accounts;
      coded = λ b account e k same.
          let (code, there) = h.coded b account e k same in
          lookup-insert_kept s.cache_bytecodes (codes.hash_slow (chain.code a)) k
            (codes.into_code (chain.code a)) code there;
      bytecodes =
          insert-all IsCodeOf s.cache_bytecodes (codes.hash_slow (chain.code a))
            (codes.into_code (chain.code a)) (a, refl, refl) h.bytecodes;
      hashes = h.hashes;
    })
  ]

  -- The hash of the chain's code leads to it behind `cache_code`.
  cache_code-IsCoded :
      (a : Address) (s : RpcStorage Code) (k : B256)
      → the_hash a ≡ some k
      → (code : Code) × (lookup
            (cache_code provider codes is_precompile empty_root_hash
              (chain.code a)
              s).cache_bytecodes
            k
          ≡ some code)
  cache_code-IsCoded a s k e = elim (Bool-cases (codes.raw_is_empty (chain.code a))) [
    | inl q ↦ absurd (none-ne-some k (rw q at e))
    | inr q ↦
        let same : codes.hash_slow (chain.code a) ≡ k =
          some-injective (codes.hash_slow (chain.code a)) k (rw q at e) in
        rw q (
          codes.into_code (chain.code a),
          ap
                (lookup (
                  insert (codes.hash_slow (chain.code a)) (codes.into_code (chain.code a))
                    s.cache_bytecodes))
                (sym same)
              ∙ lookup-insert s.cache_bytecodes _ _,
        )
  ]

  store-Basic :
      (a : Address) (nonce : Fetched ℕ) (balance : Fetched U256) (code : Fetched Bytes)
      (s : RpcStorage Code)
      → Right nonce (chain.nonce a)
      → Right balance (chain.balance a)
      → Right code (chain.code a)
      → lookup s.cache_accounts a ≡ none
      → Sound s
      → Basic a (store provider codes is_precompile empty_root_hash a nonce balance code s)
  store-Basic a (failed e) balance code s n b c u h = (tt, h, tt)
  store-Basic a (ok nonce) (failed e) code s n b c u h = (tt, h, tt)
  store-Basic a (ok nonce) (ok balance) (failed e) s n b c u h = (tt, h, tt)
  store-Basic a (ok nonce) (ok balance) (ok code) s n b c u h =
      subst
        (λ x.
          Basic a
            (store provider codes is_precompile empty_root_hash a (ok x) (ok balance) (ok code) s))
        (sym n)
        (subst
          (λ x. Basic a (
            store provider codes is_precompile empty_root_hash a (ok (chain.nonce a)) (ok x)
              (ok code) s))
          (sym b)
          (subst
            (λ x. Basic a (
              store provider codes is_precompile empty_root_hash a (ok (chain.nonce a))
                (ok (chain.balance a)) (ok x) s))
            (sym c)
            (elim (Bool-cases (absent_at a)) [
              | inl q ↦ rw q (refl, h, λ _. q)
              | inr q ↦ rw q (
                refl,
                with_account-Sound a _ _ (cache_code-Sound a s h)
                    (record {
                      present = q;
                      balance = refl;
                      nonce = refl;
                      code_hash = refl;
                      slots = λ index value e. cc;
                    })
                    (cache_code-IsCoded a s),
                λ e. absurd (none-ne-some _ (sym e ∙ lookup-insert _ a _)),
              )
            ])))

  -- Behind a faithful node, `basic` answers what the chain has, and keeps only that.
  pub basic-Basic :
      (a : Address) (s : RpcStorage Code)
      → Sound s
      → Basic a (basic provider codes is_precompile empty_root_hash a s)
  unfolding basic
  basic-Basic a s h = by_kept (lookup s.cache_accounts a) refl
    where
      by_kept :
          (o : Option (EvmAccount Code))
          → lookup s.cache_accounts a ≡ o
          → Basic a (basic_from provider codes is_precompile empty_root_hash a s o)
      by_kept none e =
          let r₁ = λ (n : ℕ). provider.get_transaction_count n a in
          let r₂ = λ (n : ℕ). provider.get_balance n a in
          let r₃ = λ (n : ℕ). provider.get_code_at n a in
          let t₁ = (fetch r₁ s.traffic).1 in
          let t₂ = (fetch r₂ t₁).1 in
          store-Basic a (fetch r₁ s.traffic).0 (fetch r₂ t₁).0 (fetch r₃ t₂).0
            (with_traffic (fetch r₃ t₂).1 s)
            (fetch-Right r₁ (chain.nonce a) s.traffic (λ n. faithful.nonce n a))
            (fetch-Right r₂ (chain.balance a) t₁ (λ n. faithful.balance n a))
            (fetch-Right r₃ (chain.code a) t₂ (λ n. faithful.code n a)) e
            (with_traffic-Sound (fetch r₃ t₂).1 s h)
      by_kept (some account) e =
          let i = h.accounts a account e in
          (
            ground (arith, i.present, i.balance, i.nonce),
            h,
            λ n. absurd (none-ne-some _ (sym n ∙ e)),
          )

  pub code_hash-Right :
      (a : Address) (s : RpcStorage Code)
      → Sound s
      → Right (code_hash provider codes is_precompile empty_root_hash a s).0 (chain_code_hash a)
        × Sound (code_hash provider codes is_precompile empty_root_hash a s).1
  unfolding code_hash
  code_hash-Right a s h =
      after (basic provider codes is_precompile empty_root_hash a s) (basic-Basic a s h)
    where
      after :
          (out : Fetched (Option AccountBasic) × RpcStorage Code)
          → Basic a out
          → Right
              (code_hash_after provider codes is_precompile empty_root_hash a out).0
              (chain_code_hash a)
            × Sound (code_hash_after provider codes is_precompile empty_root_hash a out).1
      after (failed e, s') b = (tt, b.1)
      after (ok found, s') b = elim (Option-cases (lookup s'.cache_accounts a)) [
        | inl q ↦ (rw (q, b.2 q) refl, b.1)
        | inr (account, q) ↦
            let i = b.1.accounts a account q in (rw (q, i.present) i.code_hash, b.1)
      ]

  pub code_hash-IsServed :
      (a : Address) (s : RpcStorage Code)
      → Sound s
      → IsServed (code_hash provider codes is_precompile empty_root_hash a s)
  unfolding code_hash code_by_hash
  code_hash-IsServed a s h =
      after (basic provider codes is_precompile empty_root_hash a s) (basic-Basic a s h)
    where
      served :
          (s' : RpcStorage Code) (account : EvmAccount Code) (o : Option B256)
          → Sound s'
          → lookup s'.cache_accounts a ≡ some account
          → account.code_hash ≡ o
          → IsServed (ok o, s')
      served s' account none b e q = tt
      served s' account (some k) b e q =
          let (code, there) = b.coded a account e k q in
          (code, ap ok there, b.bytecodes k code there)

      after :
          (out : Fetched (Option AccountBasic) × RpcStorage Code)
          → Basic a out
          → IsServed (code_hash_after provider codes is_precompile empty_root_hash a out)
      after (failed e, s') b = tt
      after (ok found, s') b = elim (Option-cases (lookup s'.cache_accounts a)) [
        | inl q ↦ rw q tt
        | inr (account, q) ↦ rw q (served s' account account.code_hash b.1 q refl)
      ]

  cache_slot_of-Sound :
      (a : Address) (index value : U256) (s : RpcStorage Code) (o : Option (EvmAccount Code))
      → lookup s.cache_accounts a ≡ o
      → value ≡ chain.slot a index
      → Sound s
      → Sound (cache_slot_of provider codes is_precompile empty_root_hash a index value s o)
  cache_slot_of-Sound a index value s none e v h = h
  cache_slot_of-Sound a index value s (some account) e v h =
      let i = h.accounts a account e in
      with_account-Sound a _ s h
        (record {
          present = i.present;
          balance = i.balance;
          nonce = i.nonce;
          code_hash = i.code_hash;
          slots = insert-all (λ j w. w ≡ chain.slot a j) account.slots index value v i.slots;
        })
        (h.coded a account e)

  pub storage-Right :
      (a : Address) (index : U256) (s : RpcStorage Code)
      → Sound s
      → Right
          (storage provider codes is_precompile empty_root_hash a index s).0
          (chain.slot a index)
        × Sound (storage provider codes is_precompile empty_root_hash a index s).1
  unfolding storage
  storage-Right a index s h = by_kept (lookup s.cache_accounts a) refl
    where
      stored :
          (value : U256) (out : Fetched (Option AccountBasic) × RpcStorage Code)
          → value ≡ chain.slot a index
          → Sound out.1
          → Right
              (store_slot provider codes is_precompile empty_root_hash a index value out).0
              (chain.slot a index)
            × Sound (store_slot provider codes is_precompile empty_root_hash a index value out).1
      stored value (failed e, s') v b = (tt, b)
      stored value (ok found, s') v b =
          (v, cache_slot_of-Sound a index value s' (lookup s'.cache_accounts a) refl v b)

      fetched :
          (value : Fetched U256) (s' : RpcStorage Code)
          → Right value (chain.slot a index)
          → Sound s'
          → Right
              (fetch_slot provider codes is_precompile empty_root_hash a index value s').0
              (chain.slot a index)
            × Sound (fetch_slot provider codes is_precompile empty_root_hash a index value s').1
      fetched (failed e) s' v b = (tt, b)
      fetched (ok value) s' v b = stored value _ v (basic-Basic a s' b).1

      missing :
          Right
            (storage_from provider codes is_precompile empty_root_hash a index s none).0
            (chain.slot a index)
          × Sound (storage_from provider codes is_precompile empty_root_hash a index s none).1
      missing =
          let r = λ (n : ℕ). provider.get_storage_at n a index in
          fetched (fetch r s.traffic).0 (with_traffic (fetch r s.traffic).1 s)
            (fetch-Right r (chain.slot a index) s.traffic (λ n. faithful.slot n a index))
            (with_traffic-Sound (fetch r s.traffic).1 s h)

      by_slot :
          (account : EvmAccount Code)
          → lookup s.cache_accounts a ≡ some account
          → (o : Option U256) → lookup account.slots index ≡ o
          → Right
              (storage_from provider codes is_precompile empty_root_hash a index s o).0
              (chain.slot a index)
            × Sound (storage_from provider codes is_precompile empty_root_hash a index s o).1
      by_slot account e none q = missing
      by_slot account e (some value) q = ((h.accounts a account e).slots index value q, h)

      by_kept :
          (o : Option (EvmAccount Code))
          → lookup s.cache_accounts a ≡ o
          → Right
              (storage_from provider codes is_precompile empty_root_hash a index s
                (and_then o (λ account. lookup account.slots index))).0
              (chain.slot a index)
            × Sound
                (storage_from provider codes is_precompile empty_root_hash a index s
                  (and_then o (λ account. lookup account.slots index))).1
      by_kept none e = missing
      by_kept (some account) e = by_slot account e (lookup account.slots index) refl

  pub has_storage-Right :
      (a : Address) (s : RpcStorage Code)
      → Sound s
      → Right
          (has_storage provider codes is_precompile empty_root_hash a s).0
          (not (chain.storage_hash a == empty_root_hash))
        × Sound (has_storage provider codes is_precompile empty_root_hash a s).1
  unfolding has_storage
  has_storage-Right a s h =
      let r = λ (n : ℕ). provider.get_proof n a in
      (
        compared (fetch r s.traffic).0
            (fetch-Right r (chain.storage_hash a) s.traffic (λ n. faithful.storage_hash n a)),
        with_traffic-Sound (fetch r s.traffic).1 s h,
      )
    where
      compared :
          (f : Fetched B256)
          → Right f (chain.storage_hash a)
          → Right
              (differs provider codes is_precompile empty_root_hash f)
              (not (chain.storage_hash a == empty_root_hash))
      compared (failed e) q = tt
      compared (ok x) q = ap (λ y. not (y == empty_root_hash)) q

  abbrev pub BlockHash : ℕ → Option (Fetched B256 × RpcStorage Code) → Type 0
  BlockHash number none = chain.hash number ≡ none
  BlockHash number (some (f, s)) = Right (as_found f) (chain.hash number) × Sound s

  pub block_hash-BlockHash :
      (number : ℕ) (s : RpcStorage Code)
      → Sound s
      → BlockHash number (block_hash provider codes is_precompile empty_root_hash number s)
  unfolding block_hash
  block_hash-BlockHash number s h = by_kept (lookup s.cache_block_hashes number) refl
    where
      stored :
          (f : Fetched (Option B256)) (s' : RpcStorage Code)
          → Right f (chain.hash number)
          → Sound s'
          → BlockHash number
              (store_block_hash provider codes is_precompile empty_root_hash number f s')
      stored (failed e) s' q b = (tt, b)
      stored (ok none) s' q b = sym q
      stored (ok (some x)) s' q b = (
        q,
        record {
          accounts = b.accounts;
          coded = b.coded;
          bytecodes = b.bytecodes;
          hashes =
              insert-all (λ j w. chain.hash j ≡ some w) s'.cache_block_hashes number x (sym q)
                b.hashes;
        },
      )

      by_kept :
          (o : Option B256)
          → lookup s.cache_block_hashes number ≡ o
          → BlockHash number
              (block_hash_from provider codes is_precompile empty_root_hash number s o)
      by_kept none e =
          let r = λ (n : ℕ). provider.get_block_by_number n number in
          stored (fetch r s.traffic).0 (with_traffic (fetch r s.traffic).1 s)
            (fetch-Right r (chain.hash number) s.traffic (λ n. faithful.hash n number))
            (with_traffic-Sound (fetch r s.traffic).1 s h)
      by_kept (some x) e = (sym (h.hashes number x e), h)
