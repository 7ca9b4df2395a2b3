-- ===== src/Chains/Specs.antt =====
-- The choice of a fork by `PevmEthereum::get_block_spec` in crates/pevm/src/chain/ethereum.rs. The
-- order of the forks is revm's: a parameter.
use pevm.Base.{ℕ, ◌≤◌, ◌<◌, ◌≡◌, ◌↔◌, subst, Bool, arith, leb, if◌then◌else◌}

-- The forks of revm's `SpecId` that are chosen.
pub data SpecId : Type 0 where
  frontier homestead tangerine spurious_dragon byzantium petersburg istanbul : SpecId
  berlin london merge shanghai cancun : SpecId

pub record Header : Type 0 where
  pub number : ℕ
  pub timestamp : ℕ

unfoldable pub get_block_spec : Header → SpecId
get_block_spec header =
    if leb 1710338135 header.timestamp
    then cancun
    else if leb 1681338455 header.timestamp
    then shanghai
    else if leb 15537394 header.number
    then merge
    else if leb 12965000 header.number
    then london
    else if leb 12244000 header.number
    then berlin
    else if leb 9069000 header.number
    then istanbul
    else if leb 7280000 header.number
    then petersburg
    else if leb 4370000 header.number
    then byzantium
    else if leb 2675000 header.number
    then spurious_dragon
    else if leb 2463000 header.number
    then tangerine
    else if leb 1150000 header.number
    then homestead
    else frontier

-- `spec_id >= SpecId::LONDON` and `spec_id >= SpecId::SPURIOUS_DRAGON`, in revm's order.
module _ (rank : SpecId → ℕ) where
  abbrev pub is_eip_1559_enabled : SpecId → Bool
  is_eip_1559_enabled spec_id = leb (rank london) (rank spec_id)

  abbrev pub is_eip_161_enabled : SpecId → Bool
  is_eip_161_enabled spec_id = leb (rank spurious_dragon) (rank spec_id)

-- The blocks of each fork: by number up to Merge, among those before Shanghai's time, then by time.
abbrev pub IsBlockOf : SpecId → Header → Type 0
IsBlockOf cancun h = 1710338135 ≤ h.timestamp
IsBlockOf shanghai h = (1681338455 ≤ h.timestamp) × (h.timestamp < 1710338135)
IsBlockOf merge h = (15537394 ≤ h.number) × (h.timestamp < 1681338455)
IsBlockOf london h = (12965000 ≤ h.number) × (h.number < 15537394) × (h.timestamp < 1681338455)
IsBlockOf berlin h = (12244000 ≤ h.number) × (h.number < 12965000) × (h.timestamp < 1681338455)
IsBlockOf istanbul h = (9069000 ≤ h.number) × (h.number < 12244000) × (h.timestamp < 1681338455)
IsBlockOf petersburg h = (7280000 ≤ h.number) × (h.number < 9069000) × (h.timestamp < 1681338455)
IsBlockOf byzantium h = (4370000 ≤ h.number) × (h.number < 7280000) × (h.timestamp < 1681338455)
IsBlockOf spurious_dragon h =
    (2675000 ≤ h.number) × (h.number < 4370000) × (h.timestamp < 1681338455)
IsBlockOf tangerine h = (2463000 ≤ h.number) × (h.number < 2675000) × (h.timestamp < 1681338455)
IsBlockOf homestead h = (1150000 ≤ h.number) × (h.number < 2463000) × (h.timestamp < 1681338455)
IsBlockOf frontier h = (h.number < 1150000) × (h.timestamp < 1681338455)

in_its_range : (h : Header) → IsBlockOf (get_block_spec h) h
unfolding get_block_spec
in_its_range h = ground arith

only_range : (f : SpecId) (h : Header) → IsBlockOf f h → get_block_spec h ≡ f
unfolding get_block_spec
only_range cancun h b = ground arith
only_range shanghai h b = ground arith
only_range merge h b = ground arith
only_range london h b = ground arith
only_range berlin h b = ground arith
only_range istanbul h b = ground arith
only_range petersburg h b = ground arith
only_range byzantium h b = ground arith
only_range spurious_dragon h b = ground arith
only_range tangerine h b = ground arith
only_range homestead h b = ground arith
only_range frontier h b = ground arith

-- The fork that is chosen for a block is the one in whose range of numbers and times it is: no two
-- ranges have a block in common, and each block is in one.
pub get_block_spec_iff : (f : SpecId) (h : Header) → (get_block_spec h ≡ f) ↔ IsBlockOf f h
get_block_spec_iff f h = (λ e. subst (λ s. IsBlockOf s h) e (in_its_range h), only_range f h)
