-- ===== src/Curves/Bonk.antt =====
-- crates/bonk/src/lib.rs: the LaunchLab curve before graduation. A division by zero, on which the
-- program panics, is `none`; the decoder of borsh is a parameter; prices are not modelled.
pub mod Bounds
use solana_dex_aggregator.Prelude.{
  ℕ, ◌+◌, ◌-◌, ◌*◌, ◌/◌, min, Bool, true, false, not, Option, none, some, List, [], ◌∷◌, ◌==◌,
  if◌then◌else◌, as_u128, u64_max,
}
use solana_dex_aggregator.Prelude.Results.{Result, ok, err}
use solana_dex_aggregator.Core.{
  Pubkey, Address, Bytes, SwapDirection, buy, sell, PoolMetadata, PoolFinancials,
}
use solana_dex_aggregator.Curves.{parse_account}

abbrev pub disc_pool_state : Bytes
disc_pool_state = 247 ∷ 237 ∷ 227 ∷ 245 ∷ 215 ∷ 195 ∷ 222 ∷ 70 ∷ []

abbrev pub protocol_fee_rate : ℕ
protocol_fee_rate = 25

abbrev pub platform_fee_rate : ℕ
platform_fee_rate = 100

abbrev pub share_fee_rate : ℕ
share_fee_rate = 0

abbrev pub pool_status_fund : ℕ
pool_status_fund = 0

pub record VestingSchedule : Type 0 where
  pub total_locked_amount : ℕ
  pub cliff_period : ℕ
  pub unlock_period : ℕ
  pub start_time : ℕ
  pub allocated_share_amount : ℕ

pub record BonkPoolState : Type 0 where
  pub epoch : ℕ
  pub auth_bump : ℕ
  pub status : ℕ
  pub base_decimals : ℕ
  pub quote_decimals : ℕ
  pub migrate_type : ℕ
  pub supply : ℕ
  pub total_base_sell : ℕ
  pub virtual_base : ℕ
  pub virtual_quote : ℕ
  pub real_base : ℕ
  pub real_quote : ℕ
  pub total_quote_fund_raising : ℕ
  pub quote_protocol_fee : ℕ
  pub platform_fee : ℕ
  pub migrate_fee : ℕ
  pub vesting_schedule : VestingSchedule
  pub global_config : Pubkey
  pub platform_config : Pubkey
  pub base_mint : Pubkey
  pub quote_mint : Pubkey
  pub base_vault : Pubkey
  pub quote_vault : Pubkey
  pub creator : Pubkey

pub record BonkMarket : Type 0 where
  pub pool : BonkPoolState
  pub pool_address : Address

unfoldable pub total_fee : ℕ → ℕ
total_fee amount =
    as_u128 (amount * protocol_fee_rate) / 10000
    + as_u128 (amount * platform_fee_rate) / 10000
    + as_u128 (amount * share_fee_rate) / 10000

-- The division of the code.
abbrev pub quotient : ℕ → ℕ → Option ℕ
quotient a b = if b == 0 then none else some (a / b)

abbrev pub clamp : Option ℕ → Option ℕ
clamp none = none
clamp (some a) = some (min a u64_max)

unfoldable pub buy_base_out : ℕ → ℕ → ℕ → ℕ → ℕ → Option ℕ
unfolding total_fee
buy_base_out virtual_base virtual_quote real_base real_quote amount =
    let net = amount - total_fee amount in
    let input_reserve = as_u128 (virtual_quote + real_quote) in
    let output_reserve = virtual_base - real_base in
    if output_reserve == 0
    then some 0
    else clamp (quotient (as_u128 (net * output_reserve)) (as_u128 (input_reserve + net)))

-- The fees come off what the sale is worth.
abbrev pub after_fee : Option ℕ → Option ℕ
after_fee none = none
after_fee (some gross) = some (min (gross - total_fee gross) u64_max)

unfoldable pub sell_quote_out : ℕ → ℕ → ℕ → ℕ → ℕ → Option ℕ
unfolding total_fee
sell_quote_out virtual_base virtual_quote real_base real_quote amount =
    let input_reserve = virtual_base - real_base in
    let output_reserve = as_u128 (virtual_quote + real_quote) in
    after_fee (quotient (as_u128 (amount * output_reserve)) (as_u128 (input_reserve + amount)))

abbrev pub quote_on : BonkPoolState → ℕ → SwapDirection → Option ℕ
quote_on p amount_in buy =
    buy_base_out p.virtual_base p.virtual_quote p.real_base p.real_quote amount_in
quote_on p amount_in sell =
    sell_quote_out p.virtual_base p.virtual_quote p.real_base p.real_quote amount_in

abbrev pub positive_or_err : Option ℕ → Option (Result ℕ)
positive_or_err none = none
positive_or_err (some out) = some (if out == 0 then err "bonk produced zero output" else ok out)

unfoldable pub calculate_output : BonkMarket → ℕ → SwapDirection → Option (Result ℕ)
unfolding buy_base_out sell_quote_out
calculate_output market amount_in direction =
    if not (market.pool.status == pool_status_fund)
    then some (err "bonk pool not in fundraising phase (migrated)")
    else positive_or_err (quote_on market.pool amount_in direction)

abbrev pub live_or_baked : BonkMarket → Option BonkPoolState → ℕ → SwapDirection → Option (Result ℕ)
live_or_baked market none amount_in direction = calculate_output market amount_in direction
live_or_baked market (some p) amount_in direction =
    calculate_output (record { pool = p; pool_address = market.pool_address }) amount_in direction

abbrev pub parse_data : {A : Type 0} → (Bytes → Option A) → Option Bytes → Option A
parse_data parse none = none
parse_data parse (some bytes) = parse bytes

module _ (deserialize : Bytes → Option BonkPoolState) where
  unfoldable pub parse_pool_state : Bytes → Option BonkPoolState
  parse_pool_state = parse_account disc_pool_state deserialize

  unfoldable pub calculate_output_live :
      BonkMarket → ℕ → SwapDirection → Option Bytes → ℕ → ℕ → Option (Result ℕ)
  unfolding calculate_output parse_pool_state
  calculate_output_live market amount_in direction pool_data quote_balance base_balance =
      live_or_baked market (parse_data parse_pool_state pool_data) amount_in direction

abbrev pub metadata : BonkMarket → Result PoolMetadata
metadata market = ok (record {
  address = market.pool_address;
  dex_name = "Bonk";
  quote_mint = market.pool.quote_mint;
  base_mint = market.pool.base_mint;
  quote_vault = market.pool.quote_vault;
  base_vault = market.pool.base_vault;
  fees = record {
    trade_fee_bps = protocol_fee_rate + platform_fee_rate + share_fee_rate;
    protocol_fee_bps = some protocol_fee_rate;
  };
})

abbrev pub financials : BonkMarket → Result PoolFinancials
financials market = ok (record {
  quote_balance = market.pool.real_quote;
  base_balance = market.pool.virtual_base - market.pool.real_base;
  quote_decimals = market.pool.quote_decimals;
  base_decimals = market.pool.base_decimals;
})
