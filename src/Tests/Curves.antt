-- ===== src/Tests/Curves.antt =====
-- Tests of the bonding curves, on a fresh curve.
use solana_dex_aggregator.Prelude.{
  ℕ, ◌+◌, ◌-◌, ◌*◌, ◌≤◌, ◌<◌, ◌≡◌, refl, true, false, none, some, [], ◌∷◌, arith, Option, as_u128,
}
use solana_dex_aggregator.Prelude.Results.{ok}
use solana_dex_aggregator.Core.{Bytes, buy}
use solana_dex_aggregator.Curves.Pumpfun.{
  PumpfunBondingCurve, PumpfunBondingCurveMarket, bc_compute_fee, bc_total_fee_bps,
  bc_buy_tokens_out, bc_sell_sol_out, calculate_output,
}
use solana_dex_aggregator.Curves.Pumpfun.Fee.{bc_compute_fee_lem}
use solana_dex_aggregator.Curves.Pumpfun.Output.{bc_buy_tokens_out_safe, bc_sell_sol_out_safe}
use solana_dex_aggregator.Prelude.{◌^◌, fits, checked_sub, div_ceil, sat_mul128, sat_add64}
use solana_dex_aggregator.Curves.DbcAccounts.{VirtualPool, PoolConfig}
use solana_dex_aggregator.Curves.MeteoraDbc.{
  max_fee_numerator, fee_denominator, total_fee_numerator, fee_on_amount, is_tradeable,
  quote_exact_in, quote_to_base, base_fee_numerator, variable_fee_numerator, delta_base,
  delta_quote, next_sqrt_from_quote_in, mul_div,
}
use solana_dex_aggregator.Curves.MeteoraDbc.Fees.{fee_on_amount_lem}
use solana_dex_aggregator.Curves.Bonk.{buy_base_out, sell_quote_out}
use solana_dex_aggregator.Curves.Bonk.Bounds.{buy_then_sell, net_of_fees}

bc_compute_fee_lem_example :
    (12_345 * 125 ≤ bc_compute_fee 12_345 125 * 10000)
    × (bc_compute_fee 12_345 125 * 10000 < 12_345 * 125 + 10000)
bc_compute_fee_lem_example = bc_compute_fee_lem 12_345 125 (omega arith) (omega arith)

bc_buy_tokens_out_safe_example :
    let out = bc_buy_tokens_out 1_073_000 30_000 793_100 7 1_000 in
    (out ≤ 793_100)
    × (out < 1_073_000)
    × (30_000 * 1_073_000 ≤ (30_000 + 1_000) * (1_073_000 - out))
bc_buy_tokens_out_safe_example =
    bc_buy_tokens_out_safe 1_073_000 30_000 793_100 7 1_000 (omega arith) (omega arith)
      (omega arith) (omega arith) (omega arith) (omega arith)

bc_sell_sol_out_safe_example :
    let out = bc_sell_sol_out 1_073_000 30_000 7 50_000 in
    (out < 30_000) × (30_000 * 1_073_000 ≤ (1_073_000 + 50_000) * (30_000 - out))
bc_sell_sol_out_safe_example =
    bc_sell_sol_out_safe 1_073_000 30_000 7 50_000 (omega arith) (omega arith) (omega arith)
      (omega arith) (omega arith) (omega arith)

abbrev curve : PumpfunBondingCurve
curve = record {
  virtual_token_reserves = 1_073_000;
  virtual_sol_reserves = 30_000;
  real_token_reserves = 793_100;
  real_sol_reserves = 0;
  token_total_supply = 1_000_000;
  complete = false;
  creator = 7;
}

abbrev pump : PumpfunBondingCurveMarket
pump = record { pool = record { mint = 2; bonding_curve = 40; curve = curve }; pool_address = 40 }

-- A decoder that reads nothing of the data but that they are there.
abbrev decode : Bytes → Option PumpfunBondingCurve
decode [] = none
decode (b ∷ bs) = some (record curve { complete = true })

abbrev streamed : Bytes
streamed = 23 ∷ 183 ∷ 248 ∷ 55 ∷ 96 ∷ 216 ∷ 172 ∷ 96 ∷ 1 ∷ []

quoted : calculate_output pump 1_000 buy ≡ ok 34_177
unfolding calculate_output bc_buy_tokens_out bc_total_fee_bps as_u128
quoted = refl

buy_then_sell_example :
    (out back : ℕ) × (buy_base_out 1_073_000 30_000 10 20 1_000 ≡ some out)
    × (sell_quote_out 1_073_000 30_000 (10 + out) (20 + net_of_fees 1_000) out ≡ some back)
    × (back ≤ 1_000)
buy_then_sell_example =
    buy_then_sell 1_073_000 30_000 10 20 1_000 (omega arith) (omega arith) (omega arith)
      (omega arith)

abbrev dbc_pool : VirtualPool
dbc_pool = record {
  volatility_tracker = record {
    last_update_timestamp = 0;
    sqrt_price_reference = 0;
    volatility_accumulator = 0;
    volatility_reference = 0;
  };
  config = 0;
  creator = 0;
  base_mint = 0;
  base_vault = 0;
  quote_vault = 0;
  base_reserve = 0;
  quote_reserve = 0;
  protocol_base_fee = 0;
  protocol_quote_fee = 0;
  partner_base_fee = 0;
  partner_quote_fee = 0;
  sqrt_price = 2 ^ 64;
  activation_point = 0;
  pool_type = 0;
  is_migrated = 0;
  is_partner_withdraw_surplus = 0;
  is_protocol_withdraw_surplus = 0;
  migration_progress = 0;
  is_withdraw_leftover = 0;
  is_creator_withdraw_surplus = 0;
  migration_fee_withdraw_status = 0;
  metrics = record {
    total_protocol_base_fee = 0;
    total_protocol_quote_fee = 0;
    total_trading_base_fee = 0;
    total_trading_quote_fee = 0;
  };
  finish_curve_timestamp = 0;
  creator_base_fee = 0;
  creator_quote_fee = 0;
}

abbrev dbc_config : PoolConfig
dbc_config = record {
  quote_mint = 0;
  fee_claimer = 0;
  leftover_receiver = 0;
  pool_fees = record {
    base_fee = record {
      cliff_fee_numerator = 10_000_000;
      second_factor = 0;
      third_factor = 0;
      first_factor = 0;
      base_fee_mode = 0;
    };
    dynamic_fee = record {
      initialized = 0;
      max_volatility_accumulator = 0;
      variable_fee_control = 0;
      bin_step = 0;
      filter_period = 0;
      decay_period = 0;
      reduction_factor = 0;
      bin_step_u128 = 0;
    };
    protocol_fee_percent = 0;
    referral_fee_percent = 0;
  };
  collect_fee_mode = 0;
  migration_option = 0;
  activation_type = 0;
  token_decimal = 0;
  version = 0;
  token_type = 0;
  quote_token_flag = 0;
  partner_locked_lp_percentage = 0;
  partner_lp_percentage = 0;
  creator_locked_lp_percentage = 0;
  creator_lp_percentage = 0;
  migration_fee_option = 0;
  fixed_token_supply_flag = 0;
  creator_trading_fee_percentage = 0;
  token_update_authority = 0;
  migration_fee_percentage = 0;
  creator_migration_fee_percentage = 0;
  swap_base_amount = 0;
  migration_quote_threshold = 1_000_000;
  migration_base_threshold = 0;
  migration_sqrt_price = 2 ^ 65;
  locked_vesting_config = record {
    amount_per_period = 0;
    cliff_duration_from_migration_time = 0;
    frequency = 0;
    number_of_period = 0;
    cliff_unlock_amount = 0;
  };
  pre_migration_token_supply = 0;
  post_migration_token_supply = 0;
  migrated_collect_fee_mode = 0;
  migrated_dynamic_fee = 0;
  migrated_pool_fee_bps = 0;
  sqrt_start_price = 2 ^ 64;
  curve = record { sqrt_price = 2 ^ 65; liquidity = 2 ^ 90 } ∷ [];
}

fee_on_amount_lem_example :
    let rate = total_fee_numerator dbc_pool dbc_config 0 in
    let fee = fee_on_amount 1_000 rate in
    (rate ≤ max_fee_numerator)
    × (1_000 * rate ≤ fee * fee_denominator)
    × (fee * fee_denominator < 1_000 * rate + fee_denominator)
    × (fee ≤ 1_000)
fee_on_amount_lem_example = fee_on_amount_lem dbc_pool dbc_config 0 1_000 (omega arith)

dbc_quoted : quote_exact_in dbc_pool dbc_config 1_000 true 0 ≡ some 989
unfolding quote_exact_in total_fee_numerator fee_on_amount is_tradeable quote_to_base
    base_fee_numerator variable_fee_numerator delta_base delta_quote next_sqrt_from_quote_in mul_div
    fits checked_sub div_ceil sat_mul128 sat_add64
dbc_quoted = refl
