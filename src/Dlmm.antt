-- ===== src/Dlmm.antt =====
-- crates/meteora-dlmm: Meteora's dynamic liquidity market maker, whose liquidity lies in bins of one
-- price each. This module has the account types of src/lib.rs and src/quote.rs, without the padding,
-- and the arithmetic of bin ids.
pub mod Ranges
pub mod Math
pub mod Bitmap
pub mod Fees
pub mod Fill
pub mod Quote
pub mod DlmmMarket
use solana_dex_aggregator.Prelude.{
  ℕ, ◌+◌, ◌-◌, ◌*◌, ◌/◌, ◌^◌, Bool, false, ◌&&◌, Option, none, some, List, leb, ltb, length,
  get_elem?, drop, if◌then◌else◌,
}
use solana_dex_aggregator.Prelude.Signed.{
  ℤ, pos, negsuc, pos_part, neg_part, ◌+ℤ◌, ◌-ℤ◌, leb_ℤ, as_i32, scale, div_euclid,
}
use solana_dex_aggregator.Core.{Pubkey, Bytes}

pub record StaticParameters : Type 0 where
  pub base_factor : ℕ
  pub filter_period : ℕ
  pub decay_period : ℕ
  pub reduction_factor : ℕ
  pub variable_fee_control : ℕ
  pub max_volatility_accumulator : ℕ
  pub min_bin_id : ℤ
  pub max_bin_id : ℤ
  pub protocol_share : ℕ
  pub base_fee_power_factor : ℕ
  pub function_type : ℕ
  pub collect_fee_mode : ℕ

pub record VariableParameters : Type 0 where
  pub volatility_accumulator : ℕ
  pub volatility_reference : ℕ
  pub index_reference : ℤ
  pub last_update_timestamp : ℤ

pub record ProtocolFee : Type 0 where
  pub amount_x : ℕ
  pub amount_y : ℕ

pub record RewardInfo : Type 0 where
  pub mint : Pubkey
  pub vault : Pubkey
  pub funder : Pubkey
  pub reward_duration : ℕ
  pub reward_duration_end : ℕ
  pub reward_rate : ℕ
  pub last_update_time : ℕ
  pub cumulative_seconds_with_empty_liquidity_reward : ℕ

pub record MeteoraDlmmPool : Type 0 where
  pub parameters : StaticParameters
  pub v_parameters : VariableParameters
  pub bump_seed : ℕ
  pub bin_step_seed : Bytes
  pub pair_type : ℕ
  pub active_id : ℤ
  pub bin_step : ℕ
  pub status : ℕ
  pub require_base_factor_seed : ℕ
  pub base_factor_seed : Bytes
  pub activation_type : ℕ
  pub creator_pool_on_off_control : ℕ
  pub token_x_mint : Pubkey
  pub token_y_mint : Pubkey
  pub reserve_x : Pubkey
  pub reserve_y : Pubkey
  pub protocol_fee : ProtocolFee
  pub reward_infos : List RewardInfo
  pub oracle : Pubkey
  pub bin_array_bitmap : List ℕ
  pub last_updated_at : ℤ
  pub pre_activation_swap_address : Pubkey
  pub base_key : Pubkey
  pub activation_point : ℕ
  pub pre_activation_duration : ℕ
  pub creator : Pubkey
  pub token_mint_x_program_flag : ℕ
  pub token_mint_y_program_flag : ℕ

pub record Bin : Type 0 where
  pub amount_x : ℕ
  pub amount_y : ℕ
  pub price : ℕ
  pub liquidity_supply : ℕ
  pub fulfilled_order_amount_x : ℕ
  pub fulfilled_order_amount_y : ℕ
  pub limit_order_fee_ask_side : ℕ
  pub limit_order_fee_bid_side : ℕ
  pub fee_amount_x_per_token_stored : ℕ
  pub fee_amount_y_per_token_stored : ℕ
  pub open_order_amount : ℕ
  pub total_processing_order_amount : ℕ
  pub processed_order_remaining_amount : ℕ
  pub order_age : ℕ
  pub limit_order_ask_side : ℕ

pub record BinArray : Type 0 where
  pub index : ℤ
  pub version : ℕ
  pub lb_pair : Pubkey
  pub bins : List Bin

abbrev pub max_bin_per_array : ℕ
max_bin_per_array = 70

abbrev pub min_bin_id : ℤ
min_bin_id = negsuc 443_635

abbrev pub max_bin_id : ℤ
max_bin_id = pos 443_636

-- The decoder of borsh takes the bytes after the discriminator.
unfoldable pub from_account_bytes : (Bytes → Option BinArray) → Bytes → Option BinArray
from_account_bytes try_from_slice bytes =
    if ltb (length bytes) 8 then none else try_from_slice (drop 8 bytes)

unfoldable pub bin_id_to_bin_array_index : ℤ → ℤ
bin_id_to_bin_array_index bin_id = div_euclid bin_id max_bin_per_array

unfoldable pub lower_upper_bin_id : ℤ → ℤ × ℤ
lower_upper_bin_id index =
    let lower = as_i32 (scale max_bin_per_array index) in (lower, as_i32 (lower +ℤ pos 69))

unfoldable pub is_bin_id_within_range : BinArray → ℤ → Bool
unfolding lower_upper_bin_id
is_bin_id_within_range array bin_id =
    let (lower, upper) = lower_upper_bin_id (as_i32 array.index) in
    leb_ℤ lower bin_id && leb_ℤ bin_id upper

-- In range the difference is at least 0.
unfoldable pub get_bin : BinArray → ℤ → Option Bin
unfolding is_bin_id_within_range lower_upper_bin_id
get_bin array bin_id =
    let (lower, upper) = lower_upper_bin_id (as_i32 array.index) in
    if is_bin_id_within_range array bin_id
    then get_elem? array.bins (pos_part (bin_id -ℤ lower))
    else none
