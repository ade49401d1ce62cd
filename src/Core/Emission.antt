-- ===== src/Core/Emission.antt =====
-- crates/augecoin-core/src/emission.rs and constants.rs: the reward of a block and the hard cap.
pub mod Cap
use augecoin.Base.{ℕ, ltb, if◌then◌else◌}

abbrev pub ct_block_reward_augesat : ℕ
ct_block_reward_augesat = 250_000_000

abbrev pub one_auge : ℕ
one_auge = 100_000_000

abbrev pub total_supply_auge : ℕ
total_supply_auge = 788_940_000

abbrev pub total_supply_augesat : ℕ
total_supply_augesat = 78_894_000_000_000_000

abbrev pub total_emission_blocks : ℕ
total_emission_blocks = 315_576_000

abbrev pub hard_cap_augesat : ℕ
hard_cap_augesat = total_supply_augesat

unfoldable pub block_reward : ℕ → ℕ
block_reward block_number =
    if ltb block_number total_emission_blocks then ct_block_reward_augesat else 0
