-- ===== src/Damm/V2.antt =====
-- crates/meteora-damm/src/models.rs and lib.rs: the pools and the market of the second version of
-- Meteora's dynamic AMM. Padding is left out. Parameters are the f64 computations that divide an amount
-- by the price, or multiply it with it, on the square root price and the decimals of the two tokens.
use Prim.Native.String.{String}
use solana_dex_aggregator.Prelude.{
  ℕ, ◌*◌, ◌/◌, Bool, Option, none, some, List, min, ltb, leb, ◌==◌, if◌then◌else◌, u64_max, take,
  drop, length, as_u64, as_u128, sub64,
}
use solana_dex_aggregator.Prelude.Maps.{or_else}
use solana_dex_aggregator.Prelude.Results.{Result, ok}
use solana_dex_aggregator.Core.{
  Pubkey, Address, Bytes, SwapDirection, buy, sell, PoolMetadata, PoolFinancials,
}
use solana_dex_aggregator.Core.Mints.{quote_priority, infer_mint_decimals}
use solana_dex_aggregator.Engine.Store.{from_le_bytes}
use solana_dex_aggregator.Damm.DammMarket.{turned}

pub record BaseFee : Type 0 where
  pub cliff_fee_numerator : ℕ
  pub fee_scheduler_mode : ℕ
  pub number_of_period : ℕ
  pub period_frequency : ℕ
  pub reduction_factor : ℕ

pub record PoolMetrics : Type 0 where
  pub total_lp_a_fee : ℕ
  pub total_lp_b_fee : ℕ
  pub total_protocol_a_fee : ℕ
  pub total_protocol_b_fee : ℕ
  pub total_partner_a_fee : ℕ
  pub total_partner_b_fee : ℕ
  pub total_position : ℕ

pub record DynamicFee : Type 0 where
  pub initialized : ℕ
  pub max_volatility_accumulator : ℕ
  pub variable_fee_control : ℕ
  pub bin_step : ℕ
  pub filter_period : ℕ
  pub decay_period : ℕ
  pub reduction_factor : ℕ
  pub last_update_timestamp : ℕ
  pub bin_step_u128 : ℕ
  pub sqrt_price_reference : ℕ
  pub volatility_accumulator : ℕ
  pub volatility_reference : ℕ

pub record V2PoolFees : Type 0 where
  pub base_fee : BaseFee
  pub protocol_fee_percent : ℕ
  pub partner_fee_percent : ℕ
  pub referral_fee_percent : ℕ
  pub dynamic_fee : DynamicFee

pub record RewardInfo : Type 0 where
  pub initialized : ℕ
  pub reward_token_flag : ℕ
  pub mint : Pubkey
  pub vault : Pubkey
  pub funder : Pubkey
  pub reward_duration : ℕ
  pub reward_duration_end : ℕ
  pub reward_rate : ℕ
  pub reward_per_token_stored : Bytes
  pub last_update_time : ℕ
  pub cumulative_seconds_with_empty_liquidity_reward : ℕ

pub record MeteoraDammV2Pool : Type 0 where
  pub pool_fees : V2PoolFees
  pub token_a_mint : Pubkey
  pub token_b_mint : Pubkey
  pub token_a_vault : Pubkey
  pub token_b_vault : Pubkey
  pub whitelisted_vault : Pubkey
  pub partner : Pubkey
  pub liquidity : ℕ
  pub protocol_a_fee : ℕ
  pub protocol_b_fee : ℕ
  pub partner_a_fee : ℕ
  pub partner_b_fee : ℕ
  pub sqrt_min_price : ℕ
  pub sqrt_max_price : ℕ
  pub sqrt_price : ℕ
  pub activation_point : ℕ
  pub activation_type : ℕ
  pub pool_status : ℕ
  pub token_a_flag : ℕ
  pub token_b_flag : ℕ
  pub collect_fee_mode : ℕ
  pub pool_type : ℕ
  pub fee_a_per_liquidity : Bytes
  pub fee_b_per_liquidity : Bytes
  pub permanent_lock_liquidity : ℕ
  pub metrics : PoolMetrics
  pub creator : Pubkey
  pub token_a_amount : ℕ
  pub token_b_amount : ℕ
  pub layout_version : ℕ
  pub reward_infos : List RewardInfo

pub record MeteoraDammV2Market : Type 0 where
  pub pool : MeteoraDammV2Pool
  pub pool_address : Address
  pub a_vault_balance : ℕ
  pub b_vault_balance : ℕ
  pub token_a_decimals : ℕ
  pub token_b_decimals : ℕ
  pub flipped : Bool

unfoldable pub new :
    (String → Pubkey) → (Pubkey → List ℕ) → MeteoraDammV2Pool → Address → MeteoraDammV2Market
unfolding quote_priority infer_mint_decimals
new from_str_const to_string pool pool_address = record {
  pool = pool;
  pool_address = pool_address;
  a_vault_balance = 0;
  b_vault_balance = 0;
  token_a_decimals = infer_mint_decimals from_str_const to_string pool.token_a_mint;
  token_b_decimals = infer_mint_decimals from_str_const to_string pool.token_b_mint;
  flipped =
      ltb (or_else u64_max (quote_priority from_str_const pool.token_a_mint))
        (or_else u64_max (quote_priority from_str_const pool.token_b_mint));
}

abbrev pub calculate_base_fee_bps : MeteoraDammV2Market → ℕ
calculate_base_fee_bps market = market.pool.pool_fees.base_fee.cliff_fee_numerator / 100_000

-- The side that the market calls quote, and the one that it calls base.
abbrev pub as_quote {ℓ} : {A : Type ℓ} → MeteoraDammV2Market → A → A → A
as_quote market a b = if market.flipped then a else b

abbrev pub as_base {ℓ} : {A : Type ℓ} → MeteoraDammV2Market → A → A → A
as_base market a b = if market.flipped then b else a

unfoldable pub is_active : MeteoraDammV2Market → Bool
is_active market = market.pool.pool_status == 0

unfoldable pub metadata : MeteoraDammV2Market → Result PoolMetadata
metadata market =
    let p = market.pool in
    let fee_bps = calculate_base_fee_bps market in
    ok (record {
      address = market.pool_address;
      dex_name = "Meteora DAMM V2";
      quote_mint = as_quote market p.token_a_mint p.token_b_mint;
      base_mint = as_base market p.token_a_mint p.token_b_mint;
      quote_vault = as_quote market p.token_a_vault p.token_b_vault;
      base_vault = as_base market p.token_a_vault p.token_b_vault;
      fees = record {
        trade_fee_bps = fee_bps;
        protocol_fee_bps = some (as_u64 (p.pool_fees.protocol_fee_percent * fee_bps) / 100);
      };
    })

unfoldable pub financials : MeteoraDammV2Market → Result PoolFinancials
financials market = ok (record {
  quote_balance = as_quote market market.a_vault_balance market.b_vault_balance;
  base_balance = as_base market market.a_vault_balance market.b_vault_balance;
  quote_decimals = as_quote market market.token_a_decimals market.token_b_decimals;
  base_decimals = as_base market market.token_a_decimals market.token_b_decimals;
})

-- The input after the fee. The multiplier wraps around where the fee is above 10000 basis points.
abbrev pub less_fee : MeteoraDammV2Market → ℕ → ℕ
less_fee market amount_in =
    as_u128 (amount_in * sub64 10000 (calculate_base_fee_bps market)) / 10000

-- The square root price in the bytes of a pool account, if they reach past it.
abbrev pub live_sqrt_price : MeteoraDammV2Market → Option Bytes → ℕ
live_sqrt_price market none = market.pool.sqrt_price
live_sqrt_price market (some bytes) =
    if leb 472 (length bytes)
    then from_le_bytes (take 16 (drop 456 bytes))
    else market.pool.sqrt_price

module _ (div_price mul_price : ℕ → ℕ → ℕ → ℕ → ℕ) where
  -- At most the reserve of the token that goes out.
  abbrev pub at_price : MeteoraDammV2Market → ℕ → ℕ → ℕ → ℕ → SwapDirection → ℕ
  at_price market sqrt_price a b amount_in buy =
      min (div_price sqrt_price market.token_a_decimals market.token_b_decimals amount_in) a
  at_price market sqrt_price a b amount_in sell =
      min (mul_price sqrt_price market.token_a_decimals market.token_b_decimals amount_in) b

  unfoldable pub calculate_v2_output : MeteoraDammV2Market → ℕ → SwapDirection → Result ℕ
  calculate_v2_output market amount_in direction = ok (
      at_price market market.pool.sqrt_price market.a_vault_balance market.b_vault_balance
        (less_fee market amount_in) (turned market.flipped direction))

  unfoldable pub calculate_output_live :
      MeteoraDammV2Market → ℕ → SwapDirection → Option Bytes → ℕ → ℕ → Result ℕ
  calculate_output_live market amount_in direction pool_data quote_balance base_balance = ok (
      at_price market (live_sqrt_price market pool_data)
        (as_quote market quote_balance base_balance) (as_base market quote_balance base_balance)
        (less_fee market amount_in) (turned market.flipped direction))
