-- ===== src/Curves/Pumpfun/AmmMarket.antt =====
-- crates/pumpfun-amm/src/lib.rs: the PumpSwap market, which quotes on the curve that is fetched apart from
-- the pool's account. Price impacts and prices are not modelled.
use Prim.Native.String.{String}
use solana_dex_aggregator.Prelude.{ℕ, Bool, Option, none, some, List}
use solana_dex_aggregator.Prelude.Results.{Result, ok, err}
use solana_dex_aggregator.Core.{Pubkey, Address, Bytes, SwapDirection, PoolMetadata, PoolFinancials}
use solana_dex_aggregator.Core.Mints.{infer_mint_decimals}
use solana_dex_aggregator.Curves.Pumpfun.{PumpfunBondingCurve, calculate_bonding_curve_output}

pub record PumpfunAmmPool : Type 0 where
  pub pool_bump : ℕ
  pub index : ℕ
  pub creator : Pubkey
  pub base_mint : Pubkey
  pub quote_mint : Pubkey
  pub lp_mint : Pubkey
  pub pool_base_token_account : Pubkey
  pub pool_quote_token_account : Pubkey
  pub lp_supply : ℕ
  pub coin_creator : Pubkey
  pub is_mayhem_mode : Bool
  pub is_cashback_coin : Bool
  pub bonding_curve : Option PumpfunBondingCurve

pub record PumpfunAmmMarket : Type 0 where
  pub pool : PumpfunAmmPool
  pub pool_address : Address
  pub base_decimals : ℕ

unfoldable pub new :
    (String → Pubkey) → (Pubkey → List ℕ) → PumpfunAmmPool → Address → PumpfunAmmMarket
unfolding infer_mint_decimals
new from_str_const to_string pool pool_address = record {
  pool = pool;
  pool_address = pool_address;
  base_decimals = infer_mint_decimals from_str_const to_string pool.base_mint;
}

unfoldable pub metadata : PumpfunAmmMarket → Result PoolMetadata
metadata market = ok (record {
  address = market.pool_address;
  dex_name = "Pumpfun AMM";
  quote_mint = market.pool.quote_mint;
  base_mint = market.pool.base_mint;
  quote_vault = market.pool.pool_quote_token_account;
  base_vault = market.pool.pool_base_token_account;
  fees = record { trade_fee_bps = 100; protocol_fee_bps = none };
})

abbrev pub real_reserves : PumpfunAmmMarket → Option PumpfunBondingCurve → Result PoolFinancials
real_reserves market none = err "Bonding curve data not available"
real_reserves market (some curve) = ok (record {
  quote_balance = curve.real_sol_reserves;
  base_balance = curve.real_token_reserves;
  quote_decimals = 9;
  base_decimals = market.base_decimals;
})

unfoldable pub financials : PumpfunAmmMarket → Result PoolFinancials
financials market = real_reserves market market.pool.bonding_curve

unfoldable pub calculate_output : PumpfunAmmMarket → ℕ → SwapDirection → Result ℕ
unfolding calculate_bonding_curve_output
calculate_output market amount_in direction =
    calculate_bonding_curve_output market.pool.bonding_curve amount_in direction

-- The curve's account is not the pool's, so that the live data of the pool are of no use.
unfoldable pub calculate_output_live :
    PumpfunAmmMarket → ℕ → SwapDirection → Option Bytes → ℕ → ℕ → Result ℕ
unfolding calculate_bonding_curve_output
calculate_output_live market amount_in direction pool_data quote_balance base_balance =
    calculate_bonding_curve_output market.pool.bonding_curve amount_in direction
