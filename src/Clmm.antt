-- ===== src/Clmm.antt =====
-- crates/raydium-clmm: Raydium's concentrated liquidity pools, whose price moves from tick to tick. This
-- module has the account types of src/lib.rs, without the padding, and the words that the quotes share.
pub mod TickMath
pub mod Step
pub mod Arrays
pub mod Bitmap
pub mod Traversal
pub mod ClmmMarket
use solana_dex_aggregator.Prelude.{
  ℕ, ◌+◌, ◌-◌, ◌*◌, ◌%◌, ◌/◌, ◌^◌, Option, none, some, List, [], ◌∷◌, ltb, ◌==◌, if◌then◌else◌,
  fits, u256_mod, div_ceil,
}
use solana_dex_aggregator.Prelude.Signed.{ℤ, pos, negsuc}
use solana_dex_aggregator.Core.{Pubkey, Bytes}

pub record RewardInfo : Type 0 where
  pub reward_state : ℕ
  pub open_time : ℕ
  pub end_time : ℕ
  pub last_update_time : ℕ
  pub emissions_per_second_x64 : ℕ
  pub reward_total_emissioned : ℕ
  pub reward_claimed : ℕ
  pub token_mint : Pubkey
  pub token_vault : Pubkey
  pub authority : Pubkey
  pub reward_growth_global_x64 : ℕ

pub record RaydiumClmmPool : Type 0 where
  pub bump : ℕ
  pub amm_config : Pubkey
  pub owner : Pubkey
  pub token_mint_0 : Pubkey
  pub token_mint_1 : Pubkey
  pub token_vault_0 : Pubkey
  pub token_vault_1 : Pubkey
  pub observation_key : Pubkey
  pub mint_decimals_0 : ℕ
  pub mint_decimals_1 : ℕ
  pub tick_spacing : ℕ
  pub liquidity : ℕ
  pub sqrt_price_x64 : ℕ
  pub tick_current : ℤ
  pub fee_growth_global_0_x64 : ℕ
  pub fee_growth_global_1_x64 : ℕ
  pub protocol_fees_token_0 : ℕ
  pub protocol_fees_token_1 : ℕ
  pub swap_in_amount_token_0 : ℕ
  pub swap_out_amount_token_1 : ℕ
  pub swap_in_amount_token_1 : ℕ
  pub swap_out_amount_token_0 : ℕ
  pub status : ℕ
  pub reward_infos : List RewardInfo
  pub tick_array_bitmap : List ℕ
  pub total_fees_token_0 : ℕ
  pub total_fees_claimed_token_0 : ℕ
  pub total_fees_token_1 : ℕ
  pub total_fees_claimed_token_1 : ℕ
  pub fund_fees_token_0 : ℕ
  pub fund_fees_token_1 : ℕ
  pub open_time : ℕ
  pub recent_epoch : ℕ

pub data Rounding : Type 0 where
  up down : Rounding

-- `checked_add(1)` on 512 bits does not fail.
abbrev pub divided : Rounding → ℕ → ℕ → ℕ
divided up a b = div_ceil a b
divided down a b = a / b

-- The product of two 256-bit numbers fits 512 bits.
unfoldable pub mul_div_u256 : ℕ → ℕ → ℕ → Rounding → Option ℕ
unfolding div_ceil
mul_div_u256 a b c rounding = if c == 0 then none else fits u256_mod (divided rounding (a * b) c)

-- Little-endian numbers.
abbrev pub le_number : Bytes → ℕ
le_number [] = 0
le_number (b ∷ bs) = b + 256 * le_number bs

-- A signed number of `w` bits from its bit pattern.
abbrev pub signed : ℕ → ℕ → ℤ
signed w m = if ltb m (2 ^ (w - 1)) then pos m else negsuc (2 ^ w - 1 - m)
