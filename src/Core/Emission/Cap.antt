-- ===== src/Core/Emission/Cap.antt =====
-- What all blocks together emit.
use augecoin.Base.{ℕ, zero, suc, ◌+◌, ◌*◌, ◌≤◌, ◌<◌, ◌≡◌, arith, ltb, if◌then◌else◌}
use augecoin.Core.Emission.{
  block_reward, ct_block_reward_augesat, total_emission_blocks, hard_cap_augesat, one_auge,
  total_supply_auge,
}

-- the rewards of the blocks 0 to n - 1
pub emitted_before : ℕ → ℕ
emitted_before zero = 0
emitted_before (suc n) = emitted_before n + block_reward n

emitted_before_lem :
    (n : ℕ)
    → emitted_before n
      ≡ (if ltb n total_emission_blocks then n * ct_block_reward_augesat else hard_cap_augesat)
unfolding emitted_before block_reward
emitted_before_lem zero = omega arith
emitted_before_lem (suc n) = ground (arith, emitted_before_lem n)

-- the supply that docs/SPEC.md gives: 762,120,000 AUGE, in augesat
abbrev pub spec_supply_augesat : ℕ
spec_supply_augesat = 76_212_000_000_000_000

-- However many blocks there are, their rewards never pass the hard cap of constants.rs, which is
-- 788,940,000 AUGE, and they reach it exactly when the 315,576,000 blocks of the emission period of
-- constants.rs are over. They pass the 762,120,000 AUGE that docs/SPEC.md gives as the hard cap with
-- the 304,848,001st block.
pub emission_cap :
    (n : ℕ)
    → (emitted_before n ≤ hard_cap_augesat)
      × (total_emission_blocks ≤ n → emitted_before n ≡ hard_cap_augesat)
      × (n < total_emission_blocks → emitted_before n < hard_cap_augesat)
      × (total_supply_auge * one_auge ≡ hard_cap_augesat)
      × (n ≤ 304_848_000 → emitted_before n ≤ spec_supply_augesat)
      × (304_848_000 < n → spec_supply_augesat < emitted_before n)
emission_cap n = ground (arith, emitted_before_lem n)
