-- ===== src/Block/Gas.antt =====
-- Cumulative gas in crates/pevm/src/pevm.rs against exact sums.
use pevm.Base.{ℕ, ◌+◌, ◌≡◌, refl, ap, min, List, [], ◌∷◌, map, arith}
use pevm.Block.{cumulative_gas, u64_max}

-- The exact sums of `gases` behind `total`.
abbrev pub running_sums : ℕ → List ℕ → List ℕ
running_sums total [] = []
running_sums total (gas ∷ rest) = (total + gas) ∷ running_sums (total + gas) rest

min_add : (a b : ℕ) → min (min a u64_max + b) u64_max ≡ min (a + b) u64_max
min_add a b = ground arith

cumulative_gas-min :
    (total : ℕ) (gases : List ℕ)
    → cumulative_gas (min total u64_max) gases
      ≡ map (λ sum. min sum u64_max) (running_sums total gases)
unfolding cumulative_gas
cumulative_gas-min total [] = refl
cumulative_gas-min total (gas ∷ rest) =
    rw (min_add total gas)
      (ap (λ r. (min (total + gas) u64_max) ∷ r) (cumulative_gas-min (total + gas) rest))

-- The cumulative gas behind each receipt is the exact sum of the gas up to it, capped at the
-- greatest 64-bit number.
pub cumulative_gas-sums :
    (gases : List ℕ) → cumulative_gas 0 gases ≡ map (λ sum. min sum u64_max) (running_sums 0 gases)
cumulative_gas-sums gases = cumulative_gas-min 0 gases
