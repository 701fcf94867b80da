-- ===== src/Tests/Reserves.antt =====
-- Tests of the constant product pools of Raydium, on a pool whose sides are relabelled.
use solana_dex_aggregator.Prelude.{as_u64, as_u128, sub64, ℕ, ◌*◌, ◌≡◌, refl, true, some, [], ◌∷◌}
use solana_dex_aggregator.Prelude.{◌/◌}
use solana_dex_aggregator.Prelude.Results.{ok}
use solana_dex_aggregator.Core.{buy}
use solana_dex_aggregator.Core.ConstantProduct.{constant_product_swap}
use solana_dex_aggregator.AmmV4.{
  RaydiumAmmV4, RaydiumAmmV4Market, financials, calculate_output, calculate_output_live,
}
use solana_dex_aggregator.AmmV4.Orientation.{relabelled, calculate_output-orientation}

abbrev pool : RaydiumAmmV4
pool = record {
  status = 6;
  nonce = 0;
  max_order = 0;
  depth = 0;
  base_decimal = 6;
  quote_decimal = 9;
  state = 0;
  reset_flag = 0;
  min_size = 0;
  vol_max_cut_ratio = 0;
  amount_wave = 0;
  base_lot_size = 0;
  quote_lot_size = 0;
  min_price_multiplier = 0;
  max_price_multiplier = 0;
  system_decimal_value = 0;
  min_separate_numerator = 0;
  min_separate_denominator = 0;
  trade_fee_numerator = 25;
  trade_fee_denominator = 10_000;
  pnl_numerator = 0;
  pnl_denominator = 0;
  swap_fee_numerator = 0;
  swap_fee_denominator = 0;
  base_need_take_pnl = 0;
  quote_need_take_pnl = 0;
  quote_total_pnl = 0;
  base_total_pnl = 0;
  pool_open_time = 0;
  punish_pc_amount = 0;
  punish_coin_amount = 0;
  orderbook_to_init_time = 0;
  swap_base_in_amount = 0;
  swap_quote_out_amount = 0;
  swap_base_2_quote_fee = 0;
  swap_quote_in_amount = 0;
  swap_base_out_amount = 0;
  swap_quote_2_base_fee = 0;
  base_vault = 11;
  quote_vault = 12;
  base_mint = 1;
  quote_mint = 2;
  lp_mint = 0;
  open_orders = 0;
  market_id = 0;
  market_program_id = 0;
  target_oders = 0;
  withdraw_queue = 0;
  lp_vault = 0;
  owner = 0;
  lp_reserve = 0;
}

abbrev flipped_market : RaydiumAmmV4Market
flipped_market = record {
  pool = pool;
  pool_address = 40;
  quote_balance = 500_000;
  base_balance = 2_000_000;
  flipped = true;
}

abbrev to_bps : ℕ → ℕ → ℕ
to_bps numerator denominator = numerator * 10_000 / denominator

reported :
    financials flipped_market
    ≡ ok (record {
      quote_balance = 2_000_000;
      base_balance = 500_000;
      quote_decimals = 6;
      base_decimals = 9;
    })
unfolding financials
reported = refl

calculate_output-orientation_example :
    (calculate_output_live to_bps flipped_market 10_000 buy (some (0 ∷ [])) 2_000_000 500_000
      ≡ calculate_output to_bps flipped_market 10_000 buy)
    × (calculate_output to_bps (relabelled to_bps flipped_market) 10_000 buy
        ≡ calculate_output to_bps flipped_market 10_000 buy)
calculate_output-orientation_example =
    calculate_output-orientation to_bps flipped_market 10_000 buy (some (0 ∷ [])) reported

quoted_flipped : calculate_output to_bps flipped_market 10_000 buy ≡ ok 2_481
unfolding calculate_output constant_product_swap as_u64 as_u128 sub64
quoted_flipped = refl
