-- ===== src/Execution/Writes.antt =====
-- The write set that `Vm::execute` of crates/pevm/src/vm.rs makes of revm's final state, location by
-- location.
use mathlib.Core.Option
use pevm.Base.{
  ◌≡◌, refl, sym, ap, ◌∙◌, Bool, true, false, ◌&&◌, ◌||◌, not, Option, none, some, List, [], ◌∷◌,
  ◌++◌, arith, Bool-cases, inl, inr, ◌==◌, ==_iff, if◌then◌else◌,
}
use pevm.Types.{
  Address, U256, B256, MemoryLocation, basic_location, code_hash_location, storage_location,
  MemoryLocationHash, AccountBasic, MemoryValue, basic, storage, self_destructed, WriteSet,
}
use pevm.MvMemory.Record.{last_value}
use pevm.Execution.{Account, Env, is_new_code, differs, slot_writes, touched_writes, account_writes}

abbrev pub or_earlier : Option MemoryValue → Option MemoryValue → Option MemoryValue
or_earlier (some w) earlier = some w
or_earlier none earlier = earlier

pub last_value-append :
    (xs ys : WriteSet) (l : MemoryLocationHash)
    → last_value (xs ++ ys) l ≡ or_earlier (last_value ys l) (last_value xs l)
last_value-append [] ys l = by_value (last_value ys l)
  where
    by_value : (o : Option MemoryValue) → o ≡ or_earlier o none
    by_value none = refl
    by_value (some w) = refl
last_value-append ((k, v) ∷ xs) ys l =
    rw (last_value-append xs ys l) (by_value (last_value ys l) (last_value xs l))
  where
    by_value :
        (o p : Option MemoryValue)
        → (elim (or_earlier o p) [ some w ↦ some w | none ↦ if k == l then some v else none ])
          ≡ or_earlier o (elim p [ some w ↦ some w | none ↦ if k == l then some v else none ])
    by_value none p = refl
    by_value (some w) p = refl

last_value-if :
    (b : Bool) (xs ys : WriteSet) (l : MemoryLocationHash)
    → last_value (if b then xs else ys) l ≡ (if b then last_value xs l else last_value ys l)
last_value-if true xs ys l = refl
last_value-if false xs ys l = refl

-- The last value given to a slot.
abbrev pub last_slot : List (U256 × U256) → U256 → Option U256
last_slot [] s = none
last_slot ((k, v) ∷ slots) s = elim (last_slot slots s) [
  | some w ↦ some w
  | none ↦ if k == s then some v else none
]

-- Distinct locations have distinct hashes.
abbrev pub IsInjective : (MemoryLocation → MemoryLocationHash) → Type 0
IsInjective hash = (k l : MemoryLocation) → hash k ≡ hash l → k ≡ l

abbrev pub address_of : MemoryLocation → Address
address_of (basic_location a) = a
address_of (code_hash_location a) = a
address_of (storage_location a s) = a

abbrev is_same : MemoryLocation → MemoryLocation → Bool
is_same (basic_location a) (basic_location b) = a == b
is_same (code_hash_location a) (code_hash_location b) = a == b
is_same (storage_location a s) (storage_location b t) = (a == b) && (s == t)
is_same _ _ = false

is_same_sound : (k l : MemoryLocation) → is_same k l ≡ true → k ≡ l
is_same_sound (basic_location a) (basic_location b) e = ap basic_location ((==_iff a b).0 e)
is_same_sound (code_hash_location a) (code_hash_location b) e =
    ap code_hash_location ((==_iff a b).0 e)
is_same_sound (storage_location a s) (storage_location b t) e =
    ap (λ x. storage_location x s) (ground arith) ∙ ap (storage_location b) (ground arith)
is_same_sound (basic_location a) (code_hash_location b) e = cc
is_same_sound (basic_location a) (storage_location b t) e = cc
is_same_sound (code_hash_location a) (basic_location b) e = cc
is_same_sound (code_hash_location a) (storage_location b t) e = cc
is_same_sound (storage_location a s) (basic_location b) e = cc
is_same_sound (storage_location a s) (code_hash_location b) e = cc

is_same_refl : (k : MemoryLocation) → is_same k k ≡ true
is_same_refl (basic_location a) = ground arith
is_same_refl (code_hash_location a) = ground arith
is_same_refl (storage_location a s) = ground arith

-- The last value of what a touched account writes besides its slots.
touched-at :
    (t n d lazy e : Bool) (ls : WriteSet) (k₁ k₂ h : MemoryLocationHash) (v₁ v₂ : MemoryValue)
    → lazy ≡ false
    → last_value
        (if t
          then (if n || d then (if lazy then ls else if e then (k₁, v₁) ∷ [] else []) else [])
            ++ (if n then (k₂, v₂) ∷ [] else [])
          else [])
        h
      ≡ or_earlier
          (if t && (n && (k₂ == h)) then some v₂ else none)
          (if t && ((n || d) && (e && (k₁ == h))) then some v₁ else none)
touched-at t n d true e ls k₁ k₂ h v₁ v₂ q = cc
touched-at false n d false e ls k₁ k₂ h v₁ v₂ q = refl
touched-at true false false false e ls k₁ k₂ h v₁ v₂ q = refl
touched-at true false true false false ls k₁ k₂ h v₁ v₂ q = refl
touched-at true false true false true ls k₁ k₂ h v₁ v₂ q = refl
touched-at true true d false false ls k₁ k₂ h v₁ v₂ q = ground arith
touched-at true true d false true ls k₁ k₂ h v₁ v₂ q = ground arith

-- What a non-lazy execution writes at a location, by the account of its address: the balance and
-- nonce that differ from what was read, unless an empty account is cleared; the hash of a new code;
-- each slot that changed; of a self-destructed account, that it is.
abbrev pub written_at :
    {Bytecode : Type 0}
    → Env
    → Option (AccountBasic × Option B256)
    → Account Bytecode
    → MemoryLocation
    → Option MemoryValue
written_at env read account (basic_location a) =
    if not account.is_selfdestructed
      && account.is_touched
      && (is_new_code read account || differs read account)
      && (not env.is_eip_161_enabled || not account.is_empty)
    then some (basic (record { balance = account.balance; nonce = account.nonce }))
    else none
written_at env read account (code_hash_location a) =
    if account.is_selfdestructed
    then some self_destructed
    else if account.is_touched && is_new_code read account
    then some (MemoryValue.code_hash account.code_hash)
    else none
written_at env read account (storage_location a s) =
    if account.is_selfdestructed
    then none
    else Option.map storage (last_slot account.changed_storage_slots s)

module _ (hash : MemoryLocation → MemoryLocationHash) (inj : IsInjective hash) where
  same_hash : (k l : MemoryLocation) → (hash k == hash l) ≡ is_same k l
  same_hash k l = elim (Bool-cases (is_same k l)) [
    | inl q ↦ let same : hash k ≡ hash l = ap hash (is_same_sound k l q) in ground (arith, q, same)
    | inr q ↦ elim (Bool-cases (hash k == hash l)) [
      | inl w ↦
          let same : k ≡ l = inj k l ((==_iff (hash k) (hash l)).0 w) in
          let clash : is_same k l ≡ true = ap (is_same k) (sym same) ∙ is_same_refl k in
          ground (arith, q, clash)
      | inr w ↦ w ∙ sym q
    ]
  ]

  slot_writes-basic :
      (a b : Address) (slots : List (U256 × U256))
      → last_value (slot_writes hash a slots) (hash (basic_location b)) ≡ none
  slot_writes-basic a b [] = refl
  slot_writes-basic a b ((s, v) ∷ slots) =
      rw (slot_writes-basic a b slots, same_hash (storage_location a s) (basic_location b)) refl

  slot_writes-code :
      (a b : Address) (slots : List (U256 × U256))
      → last_value (slot_writes hash a slots) (hash (code_hash_location b)) ≡ none
  slot_writes-code a b [] = refl
  slot_writes-code a b ((s, v) ∷ slots) =
      rw (slot_writes-code a b slots, same_hash (storage_location a s) (code_hash_location b)) refl

  slot_writes-storage :
      (a b : Address) (t : U256) (slots : List (U256 × U256))
      → last_value (slot_writes hash a slots) (hash (storage_location b t))
        ≡ (if a == b then Option.map storage (last_slot slots t) else none)
  slot_writes-storage a b t [] = by_test (a == b)
    where
      by_test :
          (c : Bool)
          → ◌≡◌ {A = Option MemoryValue} none (if c then Option.map storage none else none)
      by_test true = refl
      by_test false = refl
  slot_writes-storage a b t ((s, v) ∷ slots) = rw (slot_writes-storage a b t slots) (
      by_tests (hash (storage_location a s) == hash (storage_location b t)) (a == b) (s == t)
        (last_slot slots t) (same_hash (storage_location a s) (storage_location b t)))
    where
      by_tests :
          (g c d : Bool) (o : Option U256)
          → g ≡ c && d
          → (elim (if c then Option.map storage o else none) [
            | some w ↦ some w
            | none ↦ if g then some (storage v) else none
          ])
            ≡ (if c
                then Option.map storage
                    (elim o [ some w ↦ some w | none ↦ if d then some v else none ])
                else none)
      by_tests g true true none e = rw e refl
      by_tests g true false none e = rw e refl
      by_tests g true d (some w) e = refl
      by_tests g false d o e = rw e refl

  module _ {Bytecode : Type 0} (env : Env) (lz : env.is_lazy ≡ false) (a : Address)
      (account : Account Bytecode) where
    abbrev pub read : Option (AccountBasic × Option B256)
    read = env.read_accounts (hash (basic_location a))

    abbrev found : MemoryLocation → Option MemoryValue
    found l =
        or_earlier
          (if account.is_touched && (is_new_code read account && is_same (code_hash_location a) l)
            then some (MemoryValue.code_hash account.code_hash)
            else none)
          (if account.is_touched
              && ((is_new_code read account || differs read account)
                  && ((not env.is_eip_161_enabled || not account.is_empty)
                      && is_same (basic_location a) l))
            then some (basic (record { balance = account.balance; nonce = account.nonce }))
            else none)

    kept-at :
        (l : MemoryLocation)
        → last_value
            (touched_writes hash env a account ++ slot_writes hash a account.changed_storage_slots)
            (hash l)
          ≡ or_earlier
              (last_value (slot_writes hash a account.changed_storage_slots) (hash l))
              (found l)
    kept-at l =
        last_value-append (touched_writes hash env a account) _ (hash l)
        ∙ ap (or_earlier _) (
            touched-at account.is_touched (is_new_code read account) (differs read account)
              env.is_lazy (not env.is_eip_161_enabled || not account.is_empty) _
              (hash (basic_location a)) (hash (code_hash_location a)) (hash l) _ _ lz
            ∙ rw (same_hash (code_hash_location a) l, same_hash (basic_location a) l) refl)

    -- The values of the slots at a location.
    abbrev of_slots : MemoryLocation → Option MemoryValue
    of_slots (storage_location b t) =
        if a == b then Option.map storage (last_slot account.changed_storage_slots t) else none
    of_slots _ = none

    slot_writes-at :
        (l : MemoryLocation)
        → last_value (slot_writes hash a account.changed_storage_slots) (hash l) ≡ of_slots l
    slot_writes-at (basic_location b) = slot_writes-basic a b account.changed_storage_slots
    slot_writes-at (code_hash_location b) = slot_writes-code a b account.changed_storage_slots
    slot_writes-at (storage_location b t) = slot_writes-storage a b t account.changed_storage_slots

    assembled :
        (l : MemoryLocation)
        → (if account.is_selfdestructed
            then (if is_same (code_hash_location a) l then some self_destructed else none)
            else or_earlier (of_slots l) (found l))
          ≡ (if a == address_of l then written_at env read account l else none)
    assembled (basic_location b) = ground arith
    assembled (code_hash_location b) = ground arith
    assembled (storage_location b t) = ground arith

    pub account_writes-at :
        (l : MemoryLocation)
        → last_value (account_writes hash env a account) (hash l)
          ≡ (if a == address_of l then written_at env read account l else none)
    account_writes-at l =
        last_value-if account.is_selfdestructed _ _ (hash l)
        ∙ ap
            (λ x.
              if account.is_selfdestructed
              then (if x then some self_destructed else none)
              else last_value
                  (touched_writes hash env a account
                    ++ slot_writes hash a account.changed_storage_slots)
                  (hash l))
            (same_hash (code_hash_location a) l)
        ∙ ap
            (λ x.
              if account.is_selfdestructed
              then (if is_same (code_hash_location a) l then some self_destructed else none)
              else x)
            (kept-at l ∙ ap (λ x. or_earlier x (found l)) (slot_writes-at l))
        ∙ assembled l
