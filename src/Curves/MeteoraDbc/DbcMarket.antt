-- ===== src/Curves/MeteoraDbc/DbcMarket.antt =====
-- crates/meteora-dbc/src/lib.rs: the market of Meteora's dynamic bonding curve. The decoders of borsh are
-- parameters. Price impacts and prices are not modelled.
use solana_dex_aggregator.Prelude.{ℕ, ◌/◌, Bool, true, false, Option, none, some, [], ◌∷◌}
use solana_dex_aggregator.Prelude.Results.{Result, ok, err, ◌>>=◌}
use solana_dex_aggregator.Core.{
  Address, Bytes, SwapDirection, buy, sell, PoolMetadata, PoolFinancials,
}
use solana_dex_aggregator.Curves.{parse_account}
use solana_dex_aggregator.Curves.DbcAccounts.{VirtualPool, PoolConfig}
use solana_dex_aggregator.Curves.MeteoraDbc.{total_fee_numerator, quote_exact_in}

abbrev pub disc_virtual_pool : Bytes
disc_virtual_pool = 213 ∷ 224 ∷ 5 ∷ 209 ∷ 98 ∷ 69 ∷ 119 ∷ 92 ∷ []

abbrev pub disc_pool_config : Bytes
disc_pool_config = 26 ∷ 108 ∷ 14 ∷ 123 ∷ 116 ∷ 230 ∷ 129 ∷ 43 ∷ []

-- A `current_point` of 0 is not known.
pub record DbcMarket : Type 0 where
  pub pool : VirtualPool
  pub config : PoolConfig
  pub pool_address : Address
  pub current_point : ℕ

abbrev pub new : VirtualPool → PoolConfig → Address → DbcMarket
new pool config pool_address = record {
  pool = pool;
  config = config;
  pool_address = pool_address;
  current_point = 0;
}

abbrev pub with_current_point : DbcMarket → ℕ → DbcMarket
with_current_point market current_point = record market { current_point = current_point }

abbrev pub quote_decimals : ℕ
quote_decimals = 9

unfoldable pub fee_numerator : VirtualPool → PoolConfig → ℕ → ℕ
unfolding total_fee_numerator
fee_numerator pool config current_point = total_fee_numerator pool config current_point

unfoldable pub metadata : DbcMarket → Result PoolMetadata
unfolding fee_numerator
metadata market = ok (record {
  address = market.pool_address;
  dex_name = "Meteora DBC";
  quote_mint = market.config.quote_mint;
  base_mint = market.pool.base_mint;
  quote_vault = market.pool.quote_vault;
  base_vault = market.pool.base_vault;
  fees = record {
    trade_fee_bps = fee_numerator market.pool market.config market.current_point / 100_000;
    protocol_fee_bps = none;
  };
})

unfoldable pub financials : DbcMarket → Result PoolFinancials
financials market = ok (record {
  quote_balance = market.pool.quote_reserve;
  base_balance = market.pool.base_reserve;
  quote_decimals = quote_decimals;
  base_decimals = market.config.token_decimal;
})

abbrev pub is_buy : SwapDirection → Bool
is_buy buy = true
is_buy sell = false

abbrev pub quote_or_err : Option ℕ → Result ℕ
quote_or_err none = err "dbc quote failed (not tradeable / overflow / zero)"
quote_or_err (some out) = ok out

unfoldable pub calculate_output : DbcMarket → ℕ → SwapDirection → Result ℕ
unfolding quote_exact_in
calculate_output market amount_in direction =
    quote_or_err
      (quote_exact_in market.pool market.config amount_in (is_buy direction) market.current_point)

module _ (deserialize_pool : Bytes → Option VirtualPool)
    (deserialize_config : Bytes → Option PoolConfig) where
  abbrev pub parse_virtual_pool : Bytes → Option VirtualPool
  parse_virtual_pool = parse_account disc_virtual_pool deserialize_pool

  abbrev pub parse_pool_config : Bytes → Option PoolConfig
  parse_pool_config = parse_account disc_pool_config deserialize_config

  -- The market on the live pool, where there is one, with the configuration and the point as they were.
  abbrev pub live_or_baked : DbcMarket → Option VirtualPool → DbcMarket
  live_or_baked market none = market
  live_or_baked market (some live) =
      with_current_point (new live market.config market.pool_address) market.current_point

  unfoldable pub calculate_output_live :
      DbcMarket → ℕ → SwapDirection → Option Bytes → ℕ → ℕ → Result ℕ
  unfolding calculate_output
  calculate_output_live market amount_in direction pool_data quote_balance base_balance =
      calculate_output (live_or_baked market (pool_data >>= parse_virtual_pool)) amount_in direction
