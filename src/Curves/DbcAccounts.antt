-- ===== src/Curves/DbcAccounts.antt =====
-- crates/meteora-dbc/src/lib.rs: the accounts of Meteora's dynamic bonding curve. Padding is left out.
use solana_dex_aggregator.Prelude.{ℕ, List}
use solana_dex_aggregator.Core.{Pubkey}

pub record VolatilityTracker : Type 0 where
  pub last_update_timestamp : ℕ
  pub sqrt_price_reference : ℕ
  pub volatility_accumulator : ℕ
  pub volatility_reference : ℕ

pub record PoolMetrics : Type 0 where
  pub total_protocol_base_fee : ℕ
  pub total_protocol_quote_fee : ℕ
  pub total_trading_base_fee : ℕ
  pub total_trading_quote_fee : ℕ

pub record BaseFeeConfig : Type 0 where
  pub cliff_fee_numerator : ℕ
  pub second_factor : ℕ
  pub third_factor : ℕ
  pub first_factor : ℕ
  pub base_fee_mode : ℕ

pub record DynamicFeeConfig : Type 0 where
  pub initialized : ℕ
  pub max_volatility_accumulator : ℕ
  pub variable_fee_control : ℕ
  pub bin_step : ℕ
  pub filter_period : ℕ
  pub decay_period : ℕ
  pub reduction_factor : ℕ
  pub bin_step_u128 : ℕ

pub record PoolFeesConfig : Type 0 where
  pub base_fee : BaseFeeConfig
  pub dynamic_fee : DynamicFeeConfig
  pub protocol_fee_percent : ℕ
  pub referral_fee_percent : ℕ

pub record LockedVestingConfig : Type 0 where
  pub amount_per_period : ℕ
  pub cliff_duration_from_migration_time : ℕ
  pub frequency : ℕ
  pub number_of_period : ℕ
  pub cliff_unlock_amount : ℕ

-- A segment reaches up to `sqrt_price`.
pub record LiquidityDistributionConfig : Type 0 where
  pub sqrt_price : ℕ
  pub liquidity : ℕ

pub record VirtualPool : Type 0 where
  pub volatility_tracker : VolatilityTracker
  pub config : Pubkey
  pub creator : Pubkey
  pub base_mint : Pubkey
  pub base_vault : Pubkey
  pub quote_vault : Pubkey
  pub base_reserve : ℕ
  pub quote_reserve : ℕ
  pub protocol_base_fee : ℕ
  pub protocol_quote_fee : ℕ
  pub partner_base_fee : ℕ
  pub partner_quote_fee : ℕ
  pub sqrt_price : ℕ
  pub activation_point : ℕ
  pub pool_type : ℕ
  pub is_migrated : ℕ
  pub is_partner_withdraw_surplus : ℕ
  pub is_protocol_withdraw_surplus : ℕ
  pub migration_progress : ℕ
  pub is_withdraw_leftover : ℕ
  pub is_creator_withdraw_surplus : ℕ
  pub migration_fee_withdraw_status : ℕ
  pub metrics : PoolMetrics
  pub finish_curve_timestamp : ℕ
  pub creator_base_fee : ℕ
  pub creator_quote_fee : ℕ

pub record PoolConfig : Type 0 where
  pub quote_mint : Pubkey
  pub fee_claimer : Pubkey
  pub leftover_receiver : Pubkey
  pub pool_fees : PoolFeesConfig
  pub collect_fee_mode : ℕ
  pub migration_option : ℕ
  pub activation_type : ℕ
  pub token_decimal : ℕ
  pub version : ℕ
  pub token_type : ℕ
  pub quote_token_flag : ℕ
  pub partner_locked_lp_percentage : ℕ
  pub partner_lp_percentage : ℕ
  pub creator_locked_lp_percentage : ℕ
  pub creator_lp_percentage : ℕ
  pub migration_fee_option : ℕ
  pub fixed_token_supply_flag : ℕ
  pub creator_trading_fee_percentage : ℕ
  pub token_update_authority : ℕ
  pub migration_fee_percentage : ℕ
  pub creator_migration_fee_percentage : ℕ
  pub swap_base_amount : ℕ
  pub migration_quote_threshold : ℕ
  pub migration_base_threshold : ℕ
  pub migration_sqrt_price : ℕ
  pub locked_vesting_config : LockedVestingConfig
  pub pre_migration_token_supply : ℕ
  pub post_migration_token_supply : ℕ
  pub migrated_collect_fee_mode : ℕ
  pub migrated_dynamic_fee : ℕ
  pub migrated_pool_fee_bps : ℕ
  pub sqrt_start_price : ℕ
  pub curve : List LiquidityDistributionConfig
