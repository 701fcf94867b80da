-- ===== src/Orca/OrcaMarket.antt =====
-- crates/orca-whirlpool/src/lib.rs: the market. Parameters are the f64 arithmetic of the approximation,
-- the decoders, the address of a tick array, the clock, and the quote of the library
-- orca_whirlpools_core without an oracle, its error as a message. Prices are not modelled.
use Prim.Native.String.{String}
use solana_dex_aggregator.Prelude.{
  ℕ, ◌-◌, ◌*◌, ◌/◌, Bool, true, false, Option, none, some, List, [], ◌∷◌, min, ltb, leb, ◌==◌,
  if◌then◌else◌, u64_max, take, drop, length, as_u128,
}
use solana_dex_aggregator.Prelude.Signed.{ℤ, ◌+ℤ◌, scale, as_i32}
use solana_dex_aggregator.Prelude.Maps.{or_else}
use solana_dex_aggregator.Prelude.Results.{Result, ok, err, ◌>>=◌}
use solana_dex_aggregator.Core.{
  Pubkey, Address, Bytes, SwapDirection, buy, sell, PoolMetadata, PoolFinancials,
  AccountDataProvider,
}
use solana_dex_aggregator.Core.Mints.{quote_priority, infer_mint_decimals}
use solana_dex_aggregator.Engine.Store.{from_le_bytes}
use solana_dex_aggregator.Orca.{
  WhirlpoolPool, TickArray, from_account_bytes, tick_array_start_index, array_step, WhirlpoolFacade,
  TickArrayFacade, TickArrays, one, two, three, pool_to_facade, tick_array_to_facade,
}

pub record OrcaWhirlpoolMarket : Type 0 where
  pub pool : WhirlpoolPool
  pub pool_address : Address
  pub vault_a_balance : ℕ
  pub vault_b_balance : ℕ
  pub token_a_decimals : ℕ
  pub token_b_decimals : ℕ
  pub flipped : Bool

unfoldable pub new :
    (String → Pubkey) → (Pubkey → List ℕ) → WhirlpoolPool → Address → OrcaWhirlpoolMarket
unfolding quote_priority infer_mint_decimals
new from_str_const to_string pool pool_address = record {
  pool = pool;
  pool_address = pool_address;
  vault_a_balance = 0;
  vault_b_balance = 0;
  token_a_decimals = infer_mint_decimals from_str_const to_string pool.token_mint_a;
  token_b_decimals = infer_mint_decimals from_str_const to_string pool.token_mint_b;
  flipped =
      ltb (or_else u64_max (quote_priority from_str_const pool.token_mint_b))
        (or_else u64_max (quote_priority from_str_const pool.token_mint_a));
}

abbrev pub trade_fee_bps : OrcaWhirlpoolMarket → ℕ
trade_fee_bps market = market.pool.fee_rate / 100

-- The side that the market calls quote, and the one that it calls base.
abbrev pub as_quote {ℓ} : {A : Type ℓ} → OrcaWhirlpoolMarket → A → A → A
as_quote market a b = if market.flipped then b else a

abbrev pub as_base {ℓ} : {A : Type ℓ} → OrcaWhirlpoolMarket → A → A → A
as_base market a b = if market.flipped then a else b

unfoldable pub metadata : OrcaWhirlpoolMarket → Result PoolMetadata
metadata market =
    let p = market.pool in
    ok (record {
      address = market.pool_address;
      dex_name = "Orca Whirlpool";
      quote_mint = as_quote market p.token_mint_a p.token_mint_b;
      base_mint = as_base market p.token_mint_a p.token_mint_b;
      quote_vault = as_quote market p.token_vault_a p.token_vault_b;
      base_vault = as_base market p.token_vault_a p.token_vault_b;
      fees = record {
        trade_fee_bps = trade_fee_bps market;
        protocol_fee_bps = some p.protocol_fee_rate;
      };
    })

unfoldable pub financials : OrcaWhirlpoolMarket → Result PoolFinancials
financials market = ok (record {
  quote_balance = as_quote market market.vault_a_balance market.vault_b_balance;
  base_balance = as_base market market.vault_a_balance market.vault_b_balance;
  quote_decimals = as_quote market market.token_a_decimals market.token_b_decimals;
  base_decimals = as_base market market.token_a_decimals market.token_b_decimals;
})

abbrev pub physical_direction : Bool → SwapDirection → SwapDirection
physical_direction false direction = direction
physical_direction true buy = sell
physical_direction true sell = buy

-- The input after the fee. A fee rate is a u16 of hundredths of a basis point, so that the fee is at
-- most 655 basis points and the subtraction does not wrap.
abbrev pub less_fee : OrcaWhirlpoolMarket → ℕ → ℕ
less_fee market amount_in = as_u128 (amount_in * (10_000 - trade_fee_bps market)) / 10_000

-- The square root price in the bytes of a pool account, if they reach past it.
abbrev pub live_sqrt_price : OrcaWhirlpoolMarket → Option Bytes → ℕ
live_sqrt_price market none = market.pool.sqrt_price
live_sqrt_price market (some bytes) =
    if leb 81 (length bytes)
    then from_le_bytes (take 16 (drop 65 bytes))
    else market.pool.sqrt_price

module _ (mul_price div_price : ℕ → ℕ → ℕ) (is_zero_price : ℕ → Bool) where
  abbrev pub at_price : OrcaWhirlpoolMarket → ℕ → ℕ → SwapDirection → Result ℕ
  at_price market sqrt_price amount_in buy =
      ok (min (mul_price sqrt_price amount_in) market.vault_b_balance)
  at_price market sqrt_price amount_in sell =
      if is_zero_price sqrt_price
      then err "Zero price"
      else ok (min (div_price sqrt_price amount_in) market.vault_a_balance)

  unfoldable pub approximate_output : OrcaWhirlpoolMarket → ℕ → SwapDirection → ℕ → Result ℕ
  approximate_output market amount_in direction sqrt_price =
      if market.pool.liquidity == 0
      then err "Pool has zero liquidity"
      else at_price market sqrt_price (less_fee market amount_in)
          (physical_direction market.flipped direction)

  unfoldable pub calculate_output : OrcaWhirlpoolMarket → ℕ → SwapDirection → Result ℕ
  unfolding approximate_output
  calculate_output market amount_in direction =
      approximate_output market amount_in direction market.pool.sqrt_price

  unfoldable pub calculate_output_live :
      OrcaWhirlpoolMarket → ℕ → SwapDirection → Option Bytes → ℕ → ℕ → Result ℕ
  unfolding approximate_output
  calculate_output_live market amount_in direction pool_data quote_balance base_balance =
      approximate_output market amount_in direction (live_sqrt_price market pool_data)

abbrev pub spends_a : Bool → SwapDirection → Bool
spends_a false buy = true
spends_a true sell = true
spends_a false sell = false
spends_a true buy = false

-- At most three arrays are collected.
abbrev pub grouped : List TickArrayFacade → Option TickArrays
grouped [] = none
grouped (a ∷ []) = some (one a)
grouped (a ∷ b ∷ []) = some (two a b)
grouped (a ∷ b ∷ c ∷ rest) = some (three a b c)

module _ (pda : Pubkey → ℤ → Pubkey) (parse_key : Address → Option Pubkey)
    (deserialize_pool : Bytes → Option WhirlpoolPool) (deserialize_array : Bytes → Option TickArray)
    (timestamp : ℕ)
    (swap_quote_by_input_token : ℕ → Bool → ℕ → WhirlpoolFacade → TickArrays → ℕ → Result ℕ)
    (provider : AccountDataProvider) where
  abbrev pub parse_pool : Bytes → Option WhirlpoolPool
  parse_pool bytes = if ltb 8 (length bytes) then deserialize_pool (drop 8 bytes) else none

  abbrev pub live_pool : OrcaWhirlpoolMarket → Option Bytes → WhirlpoolPool
  live_pool market pool_data = or_else market.pool (pool_data >>= parse_pool)

  abbrev pub stored_array : Pubkey → ℤ → Option TickArray
  stored_array pool_key index =
      provider.pool_account_data (pda pool_key index) >>= from_account_bytes deserialize_array

  -- A round of the loop: the first array that is missing ends it.
  abbrev pub add_array : Option TickArray → List TickArrayFacade → List TickArrayFacade
  unfolding tick_array_to_facade
  add_array none facades = []
  add_array (some array) facades = tick_array_to_facade array ∷ facades

  abbrev pub facades_from : Pubkey → ℤ → ℤ → List ℕ → List TickArrayFacade
  unfolding add_array
  facades_from pool_key start step [] = []
  facades_from pool_key start step (i ∷ rounds) =
      add_array (stored_array pool_key (as_i32 (start +ℤ scale i step)))
        (facades_from pool_key start step rounds)

  abbrev pub quote_on : WhirlpoolPool → ℕ → Bool → Option TickArrays → Result ℕ
  unfolding pool_to_facade
  quote_on pool amount_in token_a none = err "Whirlpool tick arrays unavailable"
  quote_on pool amount_in token_a (some arrays) =
      swap_quote_by_input_token amount_in token_a 0 (pool_to_facade pool) arrays timestamp

  abbrev pub with_key : WhirlpoolPool → ℕ → Bool → Option Pubkey → Result ℕ
  unfolding tick_array_start_index facades_from quote_on
  with_key pool amount_in token_a none = err "bad pool address"
  with_key pool amount_in token_a (some pool_key) =
      let start = tick_array_start_index pool.tick_current_index pool.tick_spacing in
      let step = array_step pool.tick_spacing token_a in
      quote_on pool amount_in token_a (grouped (facades_from pool_key start step (0 ∷ 1 ∷ 2 ∷ [])))

  unfoldable pub calculate_output_live_ex :
      OrcaWhirlpoolMarket → ℕ → SwapDirection → Option Bytes → ℕ → ℕ → Result ℕ
  unfolding with_key
  calculate_output_live_ex market amount_in direction pool_data quote_balance base_balance =
      with_key (live_pool market pool_data) amount_in (spends_a market.flipped direction)
        (parse_key market.pool_address)
