-- ===== src/Base/Lists.antt =====
-- Lists of native numbers: length, membership as a test, no repetition.
use Prim.Native.Nat.{ℕ, suc, ◌+◌}
use mathlib.Core.Path.{◌≡◌, refl}
use mathlib.Core.Bool.{Bool, false, ◌||◌}
use mathlib.Core.List.{List, [], ◌∷◌, ◌++◌}
use native.Mathlib.Omega.{arith}
use pevm.Base.Tests.{◌==◌}

module _ {ℓ} {A : Type ℓ} where
  abbrev pub length : List A → ℕ
  length [] = 0
  length (x ∷ xs) = suc (length xs)

  pub length-append : (xs ys : List A) → length (xs ++ ys) ≡ length xs + length ys
  length-append [] ys = omega arith
  length-append (x ∷ xs) ys = omega (arith, length-append xs ys)

-- `all P xs`: every element satisfies `P`.
abbrev pub All {ℓ κ} : {A : Type ℓ} → (A → Type κ) → List A → Type κ
All P [] = Unit
All P (x ∷ xs) = P x × All P xs

abbrev pub contains : List ℕ → ℕ → Bool
contains [] y = false
contains (x ∷ xs) y = (x == y) || contains xs y

pub contains-append :
    (xs ys : List ℕ) (y : ℕ) → contains (xs ++ ys) y ≡ contains xs y || contains ys y
contains-append [] ys y = refl
contains-append (x ∷ xs) ys y = ground (arith, contains-append xs ys y)

-- No number occurs twice.
abbrev pub Nodup : List ℕ → Type 0
Nodup [] = Unit {0}
Nodup (x ∷ xs) = (contains xs x ≡ false) × Nodup xs

pub Nodup-snoc : (xs : List ℕ) (y : ℕ) → Nodup xs → contains xs y ≡ false → Nodup (xs ++ y ∷ [])
Nodup-snoc [] y d h = (refl, tt)
Nodup-snoc (x ∷ xs) y d h =
    (ground (arith, contains-append xs (y ∷ []) x), Nodup-snoc xs y d.1 (ground arith))
