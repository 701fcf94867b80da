-- ===== src/Curves/Pumpfun.antt =====
-- crates/pumpfun-amm/src/lib.rs: the curve of pump.fun before graduation, and the older quote on the
-- curve in the PumpSwap market. The decoder of borsh is a parameter; prices are not modelled.
pub mod Fee
pub mod Output
pub mod Live
pub mod AmmMarket
use Prim.Native.String.{String}
use solana_dex_aggregator.Prelude.{
  ℕ, ◌+◌, ◌-◌, ◌*◌, ◌/◌, ◌%◌, min, Bool, true, false, Option, none, some, List, [], ◌∷◌, ◌||◌, ◌==◌,
  if◌then◌else◌, as_u64, as_u128, sat_mul128, sat_add128, div_ceil, u64_max,
}
use solana_dex_aggregator.Prelude.Results.{Result, ok, err}
use solana_dex_aggregator.Core.{
  Pubkey, Address, Bytes, SwapDirection, buy, sell, PoolMetadata, PoolFinancials, Market,
  default_output_live_ex,
}
use solana_dex_aggregator.Core.Mints.{wsol}
use solana_dex_aggregator.Curves.{parse_account}

pub record PumpfunBondingCurve : Type 0 where
  pub virtual_token_reserves : ℕ
  pub virtual_sol_reserves : ℕ
  pub real_token_reserves : ℕ
  pub real_sol_reserves : ℕ
  pub token_total_supply : ℕ
  pub complete : Bool
  pub creator : Pubkey

abbrev pub disc_bonding_curve : Bytes
disc_bonding_curve = 23 ∷ 183 ∷ 248 ∷ 55 ∷ 96 ∷ 216 ∷ 172 ∷ 96 ∷ []

abbrev pub pumpfun_bc_fee_basis_points : ℕ
pumpfun_bc_fee_basis_points = 95

abbrev pub pumpfun_bc_creator_fee : ℕ
pumpfun_bc_creator_fee = 30

abbrev pub pumpfun_token_decimals : ℕ
pumpfun_token_decimals = 6

-- `Pubkey::default()` is 32 zero bytes.
unfoldable pub bc_total_fee_bps : Pubkey → ℕ
bc_total_fee_bps creator =
    pumpfun_bc_fee_basis_points + (if creator == 0 then 0 else pumpfun_bc_creator_fee)

unfoldable pub bc_compute_fee : ℕ → ℕ → ℕ
bc_compute_fee amount fee_basis_points =
    let whole = sat_mul128 (amount / 10000) fee_basis_points in
    let remainder_product = sat_mul128 (amount % 10000) fee_basis_points in
    sat_add128 whole (div_ceil remainder_product 10000)

unfoldable pub bc_buy_tokens_out : ℕ → ℕ → ℕ → Pubkey → ℕ → ℕ
unfolding bc_total_fee_bps
bc_buy_tokens_out virtual_token virtual_sol real_token creator sol_in =
    if sol_in == 0 || virtual_token == 0
    then 0
    else let input = sol_in * 10000 / (bc_total_fee_bps creator + 10000) in
      let denominator = as_u128 (virtual_sol + input) in
      if denominator == 0
      then 0
      else min (min (as_u128 (input * virtual_token) / denominator) real_token) u64_max

unfoldable pub bc_sell_sol_out : ℕ → ℕ → Pubkey → ℕ → ℕ
unfolding bc_compute_fee bc_total_fee_bps
bc_sell_sol_out virtual_token virtual_sol creator token_in =
    if token_in == 0 || virtual_token == 0
    then 0
    else let numerator = as_u128 (token_in * virtual_sol) in
      let denominator = as_u128 (virtual_token + token_in) in
      let sol_cost = numerator / denominator in
      let fee = bc_compute_fee sol_cost (bc_total_fee_bps creator) in min (sol_cost - fee) u64_max

pub record PumpfunBondingCurvePool : Type 0 where
  pub mint : Pubkey
  pub bonding_curve : Pubkey
  pub curve : PumpfunBondingCurve

pub record PumpfunBondingCurveMarket : Type 0 where
  pub pool : PumpfunBondingCurvePool
  pub pool_address : Address

-- The quote on a curve that is not complete, before the test for zero.
abbrev pub quote_on : PumpfunBondingCurve → ℕ → SwapDirection → ℕ
quote_on c amount_in buy =
    bc_buy_tokens_out c.virtual_token_reserves c.virtual_sol_reserves c.real_token_reserves
      c.creator amount_in
quote_on c amount_in sell =
    bc_sell_sol_out c.virtual_token_reserves c.virtual_sol_reserves c.creator amount_in

abbrev pub positive_or_err : ℕ → Result ℕ
positive_or_err out = if out == 0 then err "bonding curve produced zero output" else ok out

unfoldable pub calculate_output : PumpfunBondingCurveMarket → ℕ → SwapDirection → Result ℕ
unfolding bc_buy_tokens_out bc_sell_sol_out
calculate_output market amount_in direction =
    if market.pool.curve.complete
    then err "bonding curve complete (migrated to PumpSwap AMM)"
    else positive_or_err (quote_on market.pool.curve amount_in direction)

-- What follows a parse in `calculate_output_live`.
abbrev pub live_or_baked :
    PumpfunBondingCurveMarket → Option PumpfunBondingCurve → ℕ → SwapDirection → Result ℕ
live_or_baked market none amount_in direction = calculate_output market amount_in direction
live_or_baked market (some curve) amount_in direction =
    if curve.complete
    then err "bonding curve complete (migrated to PumpSwap AMM)"
    else positive_or_err (quote_on curve amount_in direction)

abbrev pub parse_data : {A : Type 0} → (Bytes → Option A) → Option Bytes → Option A
parse_data parse none = none
parse_data parse (some bytes) = parse bytes

module _ (deserialize : Bytes → Option PumpfunBondingCurve) where
  unfoldable pub parse_bonding_curve : Bytes → Option PumpfunBondingCurve
  parse_bonding_curve = parse_account disc_bonding_curve deserialize

  unfoldable pub calculate_output_live :
      PumpfunBondingCurveMarket → ℕ → SwapDirection → Option Bytes → ℕ → ℕ → Result ℕ
  unfolding calculate_output parse_bonding_curve
  calculate_output_live market amount_in direction pool_data quote_balance base_balance =
      live_or_baked market (parse_data parse_bonding_curve pool_data) amount_in direction

abbrev pub financials : PumpfunBondingCurveMarket → Result PoolFinancials
financials market = ok (record {
  quote_balance = market.pool.curve.real_sol_reserves;
  base_balance = market.pool.curve.real_token_reserves;
  quote_decimals = 9;
  base_decimals = pumpfun_token_decimals;
})

module _ (from_str_const : String → Pubkey) where
  unfoldable pub metadata : PumpfunBondingCurveMarket → Result PoolMetadata
  unfolding bc_total_fee_bps
  metadata market = ok (record {
    address = market.pool_address;
    dex_name = "Pumpfun BC";
    quote_mint = from_str_const wsol;
    base_mint = market.pool.mint;
    quote_vault = market.pool.bonding_curve;
    base_vault = market.pool.bonding_curve;
    fees = record {
      trade_fee_bps = bc_total_fee_bps market.pool.curve.creator;
      protocol_fee_bps = none;
    };
  })

-- `PumpfunAmmMarket::calculate_bonding_curve_output`, from the amount after the fee on.
abbrev pub amm_swap : PumpfunBondingCurve → ℕ → SwapDirection → ℕ
amm_swap c amount_in_with_fee buy =
    let k = as_u128 (c.virtual_sol_reserves * c.virtual_token_reserves) in
    as_u64 (c.virtual_token_reserves - k / (c.virtual_sol_reserves + amount_in_with_fee))
amm_swap c amount_in_with_fee sell =
    let k = as_u128 (c.virtual_sol_reserves * c.virtual_token_reserves) in
    as_u64 (c.virtual_sol_reserves - k / (c.virtual_token_reserves + amount_in_with_fee))

unfoldable pub calculate_bonding_curve_output :
    Option PumpfunBondingCurve → ℕ → SwapDirection → Result ℕ
calculate_bonding_curve_output none amount_in direction = err "Bonding curve data not available"
calculate_bonding_curve_output (some c) amount_in direction =
    let amount_in_with_fee = amount_in * (10000 - 100) / 10000 in
    if c.virtual_sol_reserves == 0 || c.virtual_token_reserves == 0
    then err "Bonding curve has zero virtual reserves"
    else ok (amm_swap c amount_in_with_fee direction)
