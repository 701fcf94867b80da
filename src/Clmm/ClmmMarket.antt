-- ===== src/Clmm/ClmmMarket.antt =====
-- crates/raydium-clmm/src/lib.rs: the market of a pool. Parameters are the f64 arithmetic of the
-- single-price approximation, which multiplies or divides an amount by the square of a Q64.64 root and
-- rounds to a u64, and the platform's keys and decoders.
use Prim.Native.String.{String}
use solana_dex_aggregator.Prelude.{
  ℕ, ◌-◌, ◌*◌, ◌/◌, ◌%◌, min, Bool, true, false, Option, none, some, ltb, leb, ◌==◌, if◌then◌else◌,
  length, take, drop, u64_max,
}
use solana_dex_aggregator.Prelude.Maps.{or_else}
use solana_dex_aggregator.Prelude.Results.{Result, ok, err, ◌>>=◌}
use solana_dex_aggregator.Prelude.Signed.{ℤ}
use solana_dex_aggregator.Core.{
  Pubkey, Address, Bytes, SwapDirection, buy, sell, PoolMetadata, PoolFinancials,
  AccountDataProvider,
}
use solana_dex_aggregator.Core.Mints.{quote_priority}
use solana_dex_aggregator.Clmm.{RaydiumClmmPool, le_number}
use solana_dex_aggregator.Clmm.Arrays.{ClmmTickArray, from_account_bytes}
use solana_dex_aggregator.Clmm.Traversal.{Outcome, done, failed, out_of_fuel, quote_exact_in}

pub record RaydiumClmmMarket : Type 0 where
  pub pool : RaydiumClmmPool
  pub pool_address : Address
  pub vault_0_balance : ℕ
  pub vault_1_balance : ℕ
  pub flipped : Bool

unfoldable pub new : (String → Pubkey) → RaydiumClmmPool → Address → RaydiumClmmMarket
unfolding quote_priority
new from_str_const pool pool_address = record {
  pool = pool;
  pool_address = pool_address;
  vault_0_balance = 0;
  vault_1_balance = 0;
  flipped =
      ltb (or_else u64_max (quote_priority from_str_const pool.token_mint_1))
        (or_else u64_max (quote_priority from_str_const pool.token_mint_0));
}

-- Buy takes token 0 to token 1 unless the pool's sides are swapped.
abbrev pub physical_direction : Bool → SwapDirection → SwapDirection
physical_direction false direction = direction
physical_direction true buy = sell
physical_direction true sell = buy

abbrev pub less_fee : ℕ → ℕ
less_fee amount_in = amount_in * (10000 - 25) / 10000

module _ (mul_price div_price : ℕ → ℕ → ℕ) (is_zero_price : ℕ → Bool) where
  -- At a root price, with the balances of the vaults as caps.
  abbrev pub at_price : ℕ → ℕ → ℕ → ℕ → SwapDirection → Result ℕ
  at_price sqrt_price amount vault_0 vault_1 buy = ok (min (mul_price sqrt_price amount) vault_1)
  at_price sqrt_price amount vault_0 vault_1 sell =
      if is_zero_price sqrt_price
      then err "Zero price"
      else ok (min (div_price sqrt_price amount) vault_0)

  unfoldable pub calculate_clmm_output : RaydiumClmmMarket → ℕ → SwapDirection → Result ℕ
  calculate_clmm_output market amount_in direction =
      if market.pool.liquidity == 0
      then err "Pool has zero liquidity"
      else at_price market.pool.sqrt_price_x64 (less_fee amount_in) market.vault_0_balance
          market.vault_1_balance (physical_direction market.flipped direction)

  abbrev pub live_liquidity : Bytes → ℕ
  live_liquidity bytes = le_number (take 16 (drop 237 bytes))

  abbrev pub live_sqrt_price : Bytes → ℕ
  live_sqrt_price bytes = le_number (take 16 (drop 253 bytes))

  abbrev pub on_live_data : RaydiumClmmMarket → ℕ → SwapDirection → Bytes → ℕ → ℕ → Result ℕ
  on_live_data market amount_in direction bytes quote_balance base_balance =
      if live_liquidity bytes == 0
      then err "Pool has zero liquidity"
      else at_price (live_sqrt_price bytes) (less_fee amount_in)
          (if market.flipped then base_balance else quote_balance)
          (if market.flipped then quote_balance else base_balance)
          (physical_direction market.flipped direction)

  unfoldable pub calculate_output_live :
      RaydiumClmmMarket → ℕ → SwapDirection → Option Bytes → ℕ → ℕ → Result ℕ
  unfolding calculate_clmm_output
  calculate_output_live market amount_in direction none quote_balance base_balance =
      calculate_clmm_output market amount_in direction
  calculate_output_live market amount_in direction (some bytes) quote_balance base_balance =
      if ltb (length bytes) 269
      then calculate_clmm_output market amount_in direction
      else on_live_data market amount_in direction bytes quote_balance base_balance

-- Bytes 47 to 50, if they are there.
unfoldable pub parse_amm_config_trade_fee_rate : Bytes → Option ℕ
parse_amm_config_trade_fee_rate bytes =
    if leb 51 (length bytes) then some (le_number (take 4 (drop 47 bytes))) else none

abbrev pub is_zero_for_one : Bool → SwapDirection → Bool
is_zero_for_one false buy = true
is_zero_for_one true sell = true
is_zero_for_one false sell = false
is_zero_for_one true buy = false

abbrev pub traversed : Outcome × Bool → Result ℕ
traversed (done out, true) = ok out
traversed (done out, false) = err "CLMM tick arrays unavailable"
traversed (failed, found_any) = err "CLMM tick arrays unavailable"
traversed (out_of_fuel, found_any) = err "CLMM tick arrays unavailable"

module _ (pda_tick_array_address : Pubkey → ℤ → Result Pubkey) (parse_key : Address → Option Pubkey)
    (deserialize_pool : Bytes → Option RaydiumClmmPool) (provider : AccountDataProvider) where
  -- The callback, which notes that it found an array.
  abbrev pub found : Bool → Option ClmmTickArray → Option ClmmTickArray × Bool
  found found_any none = (none, found_any)
  found found_any (some array) = (some array, true)

  abbrev pub account_at : Result Pubkey → Option Bytes
  account_at (err e) = none
  account_at (ok pda) = provider.pool_account_data pda

  unfoldable pub get_array : Pubkey → ℤ → Bool → Option ClmmTickArray × Bool
  unfolding from_account_bytes
  get_array pool_key start_index found_any =
      found found_any
        (account_at (pda_tick_array_address pool_key start_index) >>= from_account_bytes)

  abbrev pub parse_pool : Bytes → Option RaydiumClmmPool
  parse_pool bytes = if ltb 8 (length bytes) then deserialize_pool (drop 8 bytes) else none

  abbrev pub live_pool : RaydiumClmmMarket → Option Bytes → RaydiumClmmPool
  live_pool market pool_data = or_else market.pool (pool_data >>= parse_pool)

  abbrev pub at_rate : ℕ → RaydiumClmmPool → Pubkey → ℕ → Bool → Option ℕ → Result ℕ
  at_rate fuel pool pool_key amount_in zero_for_one none = err "CLMM amm config unavailable"
  at_rate fuel pool pool_key amount_in zero_for_one (some fee_rate) =
      traversed
        (quote_exact_in (get_array pool_key) pool fee_rate zero_for_one fuel amount_in false)

  abbrev pub live_with_key : Result ℕ → ℕ → RaydiumClmmPool → ℕ → Bool → Option Pubkey → Result ℕ
  live_with_key fallback fuel pool amount_in zero_for_one none = fallback
  live_with_key fallback fuel pool amount_in zero_for_one (some pool_key) =
      at_rate fuel pool pool_key amount_in zero_for_one
        (provider.pool_account_data pool.amm_config >>= parse_amm_config_trade_fee_rate)

  module _ (mul_price div_price : ℕ → ℕ → ℕ) (is_zero_price : ℕ → Bool) where
    unfoldable pub calculate_output_live_ex :
        ℕ → RaydiumClmmMarket → ℕ → SwapDirection → Option Bytes → ℕ → ℕ → Result ℕ
    unfolding calculate_output_live get_array quote_exact_in parse_amm_config_trade_fee_rate
    calculate_output_live_ex fuel market amount_in direction pool_data quote_balance base_balance =
        live_with_key
          (calculate_output_live mul_price div_price is_zero_price market amount_in direction
            pool_data quote_balance base_balance)
          fuel (live_pool market pool_data) amount_in (is_zero_for_one market.flipped direction)
          (parse_key market.pool_address)

-- Bit 4 of the status disables swaps.
unfoldable pub is_active : RaydiumClmmMarket → Bool
is_active market = market.pool.status / 16 % 2 == 0

unfoldable pub metadata : RaydiumClmmMarket → Result PoolMetadata
metadata market =
    let p = market.pool in
    ok (record {
      address = market.pool_address;
      dex_name = "Raydium CLMM";
      quote_mint = if market.flipped then p.token_mint_1 else p.token_mint_0;
      base_mint = if market.flipped then p.token_mint_0 else p.token_mint_1;
      quote_vault = if market.flipped then p.token_vault_1 else p.token_vault_0;
      base_vault = if market.flipped then p.token_vault_0 else p.token_vault_1;
      fees = record { trade_fee_bps = 25; protocol_fee_bps = none };
    })

unfoldable pub financials : RaydiumClmmMarket → Result PoolFinancials
financials market =
    let p = market.pool in
    ok (record {
      quote_balance = if market.flipped then market.vault_1_balance else market.vault_0_balance;
      base_balance = if market.flipped then market.vault_0_balance else market.vault_1_balance;
      quote_decimals = if market.flipped then p.mint_decimals_1 else p.mint_decimals_0;
      base_decimals = if market.flipped then p.mint_decimals_0 else p.mint_decimals_1;
    })

unfoldable pub calculate_price_impact : RaydiumClmmMarket → ℕ → SwapDirection → Result ℕ
calculate_price_impact market amount_in direction = ok 0
