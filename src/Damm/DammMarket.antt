-- ===== src/Damm/DammMarket.antt =====
-- The first version's market in crates/meteora-damm/src/lib.rs. Parameters are the f64 computations of
-- basis points and of the boost of a stable pool, the decoders of accounts, the derivation of a vault's
-- token account, and the clock. Price impacts and prices are not modelled.
use Prim.Native.String.{String}
use solana_dex_aggregator.Prelude.{
  ℕ, List, ◌+◌, Bool, true, false, Option, none, some, min, ltb, leb, if◌then◌else◌, u64_max, take,
  drop, length,
}
use solana_dex_aggregator.Prelude.Maps.{or_else}
use solana_dex_aggregator.Prelude.Results.{Result, ok, err, ◌>>=◌}
use solana_dex_aggregator.Core.{
  Pubkey, Address, Bytes, SwapDirection, buy, sell, PoolMetadata, PoolFinancials,
  AccountDataProvider,
}
use solana_dex_aggregator.Core.Mints.{quote_priority, infer_mint_decimals}
use solana_dex_aggregator.Core.ConstantProduct.{constant_product_swap}
use solana_dex_aggregator.Engine.Store.{from_le_bytes}
use solana_dex_aggregator.Damm.{
  MeteoraDammPool, CurveType, constant_product, stable, VaultSide, VaultAuthority,
}
use solana_dex_aggregator.Damm.Quote.{quote_exact_in}

pub record MeteoraDammMarket : Type 0 where
  pub pool : MeteoraDammPool
  pub pool_address : Address
  pub a_vault_balance : ℕ
  pub b_vault_balance : ℕ
  pub token_a_decimals : ℕ
  pub token_b_decimals : ℕ
  pub flipped : Bool

unfoldable pub new :
    (String → Pubkey) → (Pubkey → List ℕ) → MeteoraDammPool → Address → MeteoraDammMarket
unfolding quote_priority infer_mint_decimals
new from_str_const to_string pool pool_address = record {
  pool = pool;
  pool_address = pool_address;
  a_vault_balance = 0;
  b_vault_balance = 0;
  token_a_decimals = infer_mint_decimals from_str_const to_string pool.token_a_mint;
  token_b_decimals = infer_mint_decimals from_str_const to_string pool.token_b_mint;
  flipped =
      ltb (or_else u64_max (quote_priority from_str_const pool.token_a_mint))
        (or_else u64_max (quote_priority from_str_const pool.token_b_mint));
}

-- `?` on a result, and `ok_or`.
abbrev pub and_then {ℓ κ} : {A : Type ℓ} {B : Type κ} → Result A → (A → Result B) → Result B
and_then (ok a) f = f a
and_then (err e) f = err e

abbrev pub ok_or {ℓ} : {A : Type ℓ} → String → Option A → Result A
ok_or message none = err message
ok_or message (some a) = ok a

-- The side that the market calls quote, and the one that it calls base.
abbrev pub as_quote {ℓ} : {A : Type ℓ} → MeteoraDammMarket → A → A → A
as_quote market a b = if market.flipped then a else b

abbrev pub as_base {ℓ} : {A : Type ℓ} → MeteoraDammMarket → A → A → A
as_base market a b = if market.flipped then b else a

abbrev pub turned : Bool → SwapDirection → SwapDirection
turned false direction = direction
turned true buy = sell
turned true sell = buy

abbrev pub physical_direction : MeteoraDammMarket → SwapDirection → SwapDirection
physical_direction market direction = turned market.flipped direction

abbrev pub physical_swap : ℕ → ℕ → ℕ → ℕ → SwapDirection → Result ℕ
unfolding constant_product_swap
physical_swap a b amount_in fee_bps buy = constant_product_swap b a amount_in fee_bps
physical_swap a b amount_in fee_bps sell = constant_product_swap a b amount_in fee_bps

abbrev pub physical_output : ℕ → ℕ → SwapDirection → ℕ
physical_output a b buy = a
physical_output a b sell = b

unfoldable pub is_active : MeteoraDammMarket → Bool
is_active market = market.pool.enabled

unfoldable pub financials : MeteoraDammMarket → Result PoolFinancials
financials market = ok (record {
  quote_balance = as_quote market market.a_vault_balance market.b_vault_balance;
  base_balance = as_base market market.a_vault_balance market.b_vault_balance;
  quote_decimals = as_quote market market.token_a_decimals market.token_b_decimals;
  base_decimals = as_base market market.token_a_decimals market.token_b_decimals;
})

abbrev pub dex_name : CurveType → String
dex_name constant_product = "Meteora DAMM (Constant Product)"
dex_name (stable amp token_multiplier depeg updated) = "Meteora DAMM (Stable)"

unfoldable pub metadata : (ℕ → ℕ → ℕ) → (Pubkey → Pubkey) → MeteoraDammMarket → Result PoolMetadata
metadata to_bps derive_token_vault_address market =
    let p = market.pool in
    let a_vault = derive_token_vault_address p.a_vault in
    let b_vault = derive_token_vault_address p.b_vault in
    ok (record {
      address = market.pool_address;
      dex_name = dex_name p.curve_type;
      quote_mint = as_quote market p.token_a_mint p.token_b_mint;
      base_mint = as_base market p.token_a_mint p.token_b_mint;
      quote_vault = as_quote market a_vault b_vault;
      base_vault = as_base market a_vault b_vault;
      fees = record {
        trade_fee_bps = to_bps p.fees.trade_fee_numerator p.fees.trade_fee_denominator;
        protocol_fee_bps =
            some (to_bps p.fees.protocol_trade_fee_numerator p.fees.protocol_trade_fee_denominator);
      };
    })

-- The output on the balances of the two vaults.
module _ (to_bps : ℕ → ℕ → ℕ) (boosted : ℕ → ℕ → ℕ) where
  abbrev pub curve_swap : CurveType → ℕ → ℕ → ℕ → ℕ → SwapDirection → Result ℕ
  unfolding physical_swap
  curve_swap constant_product a b amount_in fee_bps direction =
      physical_swap a b amount_in fee_bps direction
  curve_swap (stable amp token_multiplier depeg updated) a b amount_in fee_bps direction =
      and_then (physical_swap a b amount_in fee_bps direction)
        λ base_output. ok (min (boosted amp base_output) (physical_output a b direction))

  abbrev pub output_on : MeteoraDammMarket → ℕ → ℕ → ℕ → SwapDirection → Result ℕ
  unfolding curve_swap
  output_on market a b amount_in direction =
      curve_swap market.pool.curve_type a b amount_in
        (to_bps market.pool.fees.trade_fee_numerator market.pool.fees.trade_fee_denominator)
        (physical_direction market direction)

  unfoldable pub calculate_damm_output : MeteoraDammMarket → ℕ → SwapDirection → Result ℕ
  unfolding output_on
  calculate_damm_output market amount_in direction =
      output_on market market.a_vault_balance market.b_vault_balance amount_in direction

  unfoldable pub calculate_output_live :
      MeteoraDammMarket → ℕ → SwapDirection → Option Bytes → ℕ → ℕ → Result ℕ
  unfolding output_on calculate_damm_output
  calculate_output_live market amount_in direction none quote_balance base_balance =
      calculate_damm_output market amount_in direction
  calculate_output_live market amount_in direction (some bytes) quote_balance base_balance =
      output_on market (as_quote market quote_balance base_balance)
        (as_base market quote_balance base_balance) amount_in direction

-- The little-endian u64 at an offset, if the bytes reach past it.
abbrev pub u64_at : ℕ → Bytes → Option ℕ
u64_at offset bytes =
    if leb (offset + 8) (length bytes)
    then some (from_le_bytes (take 8 (drop offset bytes)))
    else none

abbrev pub parse_token_amount : Bytes → Option ℕ
parse_token_amount = u64_at 64

abbrev pub parse_mint_supply : Bytes → Option ℕ
parse_mint_supply = u64_at 36

module _ (deserialize_pool : Bytes → Option MeteoraDammPool)
    (deserialize_vault : Bytes → Option VaultAuthority) (current_time : ℕ)
    (provider : AccountDataProvider) where
  abbrev pub parse_pool : Bytes → Option MeteoraDammPool
  parse_pool bytes = if ltb 8 (length bytes) then deserialize_pool (drop 8 bytes) else none

  abbrev pub live_pool : MeteoraDammMarket → Option Bytes → MeteoraDammPool
  live_pool market pool_data = or_else market.pool (pool_data >>= parse_pool)

  abbrev pub parse_vault : Bytes → Option VaultAuthority
  parse_vault bytes = if ltb (length bytes) 8 then none else deserialize_vault (drop 8 bytes)

  abbrev pub need : Pubkey → Result Bytes
  need key = ok_or "DAMM V1 account not in store" (provider.pool_account_data key)

  -- An account that is needed, read by a parser.
  abbrev pub read {ℓ} : {A : Type ℓ} → Pubkey → (Bytes → Option A) → String → Result A
  read key parse message = and_then (need key) λ bytes. ok_or message (parse bytes)

  abbrev pub swaps_a : MeteoraDammMarket → SwapDirection → Bool
  swaps_a market buy = market.flipped
  swaps_a market sell = if market.flipped then false else true

  unfoldable pub calculate_output_live_ex :
      MeteoraDammMarket → ℕ → SwapDirection → Option Bytes → ℕ → ℕ → Result ℕ
  unfolding quote_exact_in
  calculate_output_live_ex market amount_in direction pool_data quote_balance base_balance =
      let pool = live_pool market pool_data in
      and_then (read pool.a_vault parse_vault "bad vault A state") λ vault_a.
        and_then (read pool.b_vault parse_vault "bad vault B state") λ vault_b.
          and_then (read pool.a_vault_lp parse_token_amount "bad vault A lp account") λ a_lp.
            and_then (read pool.b_vault_lp parse_token_amount "bad vault B lp account") λ b_lp.
              and_then (read vault_a.lp_mint parse_mint_supply "bad vault A lp mint") λ a_supply.
                and_then (read vault_b.lp_mint parse_mint_supply "bad vault B lp mint") λ b_supply.
                  and_then (read vault_a.token_vault parse_token_amount "bad vault A token account")
                    λ a_amount.
                      and_then
                        (read vault_b.token_vault parse_token_amount "bad vault B token account")
                        λ b_amount.
                          let side_a : VaultSide = record {
                            vault = vault_a;
                            pool_lp_amount = a_lp;
                            lp_supply = a_supply;
                            vault_token_amount = a_amount;
                          } in
                          let side_b : VaultSide = record {
                            vault = vault_b;
                            pool_lp_amount = b_lp;
                            lp_supply = b_supply;
                            vault_token_amount = b_amount;
                          } in
                          ok_or "DAMM V1 quote failed" (
                            quote_exact_in pool amount_in (swaps_a market direction) side_a side_b
                              current_time)
