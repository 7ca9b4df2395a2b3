-- ===== src/Base/Pairing.antt =====
-- A pairing of numbers, distinct for distinct pairs: hashes of locations are made of it in examples.
use Prim.Native.Nat.{ℕ, zero, suc, ◌+◌, ◌*◌}
use mathlib.Core.Path.{◌≡◌, refl, ap}
use native.Mathlib.Omega.{arith}

-- 2 ^ a * (2 * x + 1)
abbrev pub paired : ℕ → ℕ → ℕ
paired zero x = 2 * x + 1
paired (suc a) x = 2 * paired a x

pub paired_injective : (a b x y : ℕ) → paired a x ≡ paired b y → (a ≡ b) × (x ≡ y)
paired_injective zero zero x y e = (refl, omega arith)
paired_injective zero (suc b) x y e = absurd (omega arith)
paired_injective (suc a) zero x y e = absurd (omega arith)
paired_injective (suc a) (suc b) x y e =
    let (p, q) = paired_injective a b x y (omega arith) in (ap suc p, q)
