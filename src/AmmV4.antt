-- ===== src/AmmV4.antt =====
-- crates/raydium-amm-v4/src/lib.rs: the constant product pools of Raydium. A parameter turns the fee's
-- numerator and denominator into basis points, which the code does in f64. Price impacts and prices
-- are floating point numbers and are not modelled.
pub mod Orientation
use Prim.Native.String.{String}
use solana_dex_aggregator.Prelude.{
  ℕ, ◌%◌, Bool, true, false, Option, none, some, ltb, ◌==◌, if◌then◌else◌, u64_max,
}
use solana_dex_aggregator.Prelude.Maps.{or_else}
use solana_dex_aggregator.Prelude.Results.{Result, ok}
use solana_dex_aggregator.Core.{
  Pubkey, Address, Bytes, SwapDirection, buy, sell, PoolMetadata, PoolFinancials, Market,
  default_output_live_ex,
}
use solana_dex_aggregator.Core.Mints.{quote_priority}
use solana_dex_aggregator.Core.ConstantProduct.{constant_product_swap}

pub record RaydiumAmmV4 : Type 0 where
  pub status : ℕ
  pub nonce : ℕ
  pub max_order : ℕ
  pub depth : ℕ
  pub base_decimal : ℕ
  pub quote_decimal : ℕ
  pub state : ℕ
  pub reset_flag : ℕ
  pub min_size : ℕ
  pub vol_max_cut_ratio : ℕ
  pub amount_wave : ℕ
  pub base_lot_size : ℕ
  pub quote_lot_size : ℕ
  pub min_price_multiplier : ℕ
  pub max_price_multiplier : ℕ
  pub system_decimal_value : ℕ
  pub min_separate_numerator : ℕ
  pub min_separate_denominator : ℕ
  pub trade_fee_numerator : ℕ
  pub trade_fee_denominator : ℕ
  pub pnl_numerator : ℕ
  pub pnl_denominator : ℕ
  pub swap_fee_numerator : ℕ
  pub swap_fee_denominator : ℕ
  pub base_need_take_pnl : ℕ
  pub quote_need_take_pnl : ℕ
  pub quote_total_pnl : ℕ
  pub base_total_pnl : ℕ
  pub pool_open_time : ℕ
  pub punish_pc_amount : ℕ
  pub punish_coin_amount : ℕ
  pub orderbook_to_init_time : ℕ
  pub swap_base_in_amount : ℕ
  pub swap_quote_out_amount : ℕ
  pub swap_base_2_quote_fee : ℕ
  pub swap_quote_in_amount : ℕ
  pub swap_base_out_amount : ℕ
  pub swap_quote_2_base_fee : ℕ
  pub base_vault : Pubkey
  pub quote_vault : Pubkey
  pub base_mint : Pubkey
  pub quote_mint : Pubkey
  pub lp_mint : Pubkey
  pub open_orders : Pubkey
  pub market_id : Pubkey
  pub market_program_id : Pubkey
  pub target_oders : Pubkey
  pub withdraw_queue : Pubkey
  pub lp_vault : Pubkey
  pub owner : Pubkey
  pub lp_reserve : ℕ

pub record RaydiumAmmV4Market : Type 0 where
  pub pool : RaydiumAmmV4
  pub pool_address : Address
  pub quote_balance : ℕ
  pub base_balance : ℕ
  pub flipped : Bool

unfoldable pub new : (String → Pubkey) → RaydiumAmmV4 → Address → ℕ → ℕ → RaydiumAmmV4Market
unfolding quote_priority
new from_str_const pool pool_address quote_balance base_balance = record {
  pool = pool;
  pool_address = pool_address;
  quote_balance = quote_balance;
  base_balance = base_balance;
  flipped =
      ltb (or_else u64_max (quote_priority from_str_const pool.base_mint))
        (or_else u64_max (quote_priority from_str_const pool.quote_mint));
}

-- The side that the market calls quote, and the one that it calls base.
abbrev pub as_quote {ℓ} : {A : Type ℓ} → RaydiumAmmV4Market → A → A → A
as_quote market quote base = if market.flipped then base else quote

abbrev pub as_base {ℓ} : {A : Type ℓ} → RaydiumAmmV4Market → A → A → A
as_base market quote base = if market.flipped then quote else base

unfoldable pub financials : RaydiumAmmV4Market → Result PoolFinancials
financials market =
    let p = market.pool in
    ok (record {
      quote_balance = as_quote market market.quote_balance market.base_balance;
      base_balance = as_base market market.quote_balance market.base_balance;
      quote_decimals = as_quote market (p.quote_decimal % 256) (p.base_decimal % 256);
      base_decimals = as_base market (p.quote_decimal % 256) (p.base_decimal % 256);
    })

unfoldable pub is_active : RaydiumAmmV4Market → Bool
is_active market = market.pool.status == 6

module _ (to_bps : ℕ → ℕ → ℕ) where
  abbrev pub fee_bps : RaydiumAmmV4Market → ℕ
  fee_bps market = to_bps market.pool.trade_fee_numerator market.pool.trade_fee_denominator

  unfoldable pub metadata : RaydiumAmmV4Market → Result PoolMetadata
  metadata market =
      let p = market.pool in
      ok (record {
        address = market.pool_address;
        dex_name = "Raydium AMM V4";
        quote_mint = as_quote market p.quote_mint p.base_mint;
        base_mint = as_base market p.quote_mint p.base_mint;
        quote_vault = as_quote market p.quote_vault p.base_vault;
        base_vault = as_base market p.quote_vault p.base_vault;
        fees = record { trade_fee_bps = fee_bps market; protocol_fee_bps = none };
      })

  abbrev pub swap_between : RaydiumAmmV4Market → ℕ → ℕ → ℕ → SwapDirection → Result ℕ
  swap_between market quote_bal base_bal amount_in buy =
      constant_product_swap quote_bal base_bal amount_in (fee_bps market)
  swap_between market quote_bal base_bal amount_in sell =
      constant_product_swap base_bal quote_bal amount_in (fee_bps market)

  unfoldable pub calculate_output : RaydiumAmmV4Market → ℕ → SwapDirection → Result ℕ
  unfolding constant_product_swap
  calculate_output market amount_in direction =
      swap_between market (as_quote market market.quote_balance market.base_balance)
        (as_base market market.quote_balance market.base_balance) amount_in direction

  unfoldable pub calculate_output_live :
      RaydiumAmmV4Market → ℕ → SwapDirection → Option Bytes → ℕ → ℕ → Result ℕ
  unfolding calculate_output
  calculate_output_live market amount_in direction none quote_balance base_balance =
      calculate_output market amount_in direction
  calculate_output_live market amount_in direction (some bytes) quote_balance base_balance =
      swap_between market quote_balance base_balance amount_in direction

  -- The trait object.
  unfoldable pub market_of : RaydiumAmmV4Market → Market
  unfolding calculate_output calculate_output_live metadata financials is_active
  market_of market = record {
    is_active = is_active market;
    metadata = metadata market;
    financials = financials market;
    calculate_output = calculate_output market;
    calculate_output_live = calculate_output_live market;
    calculate_output_live_ex = default_output_live_ex (calculate_output_live market);
  }
