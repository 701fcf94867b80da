-- ===== src/Dlmm/DlmmMarket.antt =====
-- crates/meteora-dlmm/src/lib.rs: the market of a pool. Parameters are the f64 arithmetic of the
-- single-bin approximation, which divides or multiplies an amount by the price at an id and a bin step
-- and rounds to a u64, and the platform's keys and decoders.
pub mod Live
pub mod Approximation
use Prim.Native.String.{String}
use mathlib.Core.List.{reverse}
use solana_dex_aggregator.Prelude.{
  as_u64, ℕ, zero, suc, ◌+◌, ◌-◌, ◌*◌, ◌/◌, ◌%◌, ◌^◌, min, Bool, true, false, not, Option, none,
  some, List, [], ◌∷◌, ltb, leb, ◌==◌, ◌&&◌, if◌then◌else◌, length, take, drop, sub64, as_u128,
}
use solana_dex_aggregator.Prelude.Maps.{or_else}
use solana_dex_aggregator.Prelude.Results.{Result, ok, err, ◌>>=◌, ◌>>◌}
use solana_dex_aggregator.Prelude.Signed.{ℤ, pos, negsuc, of_bits32}
use solana_dex_aggregator.Core.{
  Pubkey, Address, Bytes, SwapDirection, buy, sell, PoolMetadata, PoolFinancials,
  AccountDataProvider, Market,
}
use solana_dex_aggregator.Core.Mints.{quote_priority, infer_mint_decimals}
use solana_dex_aggregator.Dlmm.{
  MeteoraDlmmPool, BinArray, from_account_bytes, bin_id_to_bin_array_index,
}
use solana_dex_aggregator.Dlmm.Quote.{quote_exact_in}

pub record MeteoraDlmmMarket : Type 0 where
  pub pool : MeteoraDlmmPool
  pub pool_address : Address
  pub reserve_x_balance : ℕ
  pub reserve_y_balance : ℕ
  pub token_x_decimals : ℕ
  pub token_y_decimals : ℕ
  pub flipped : Bool
  pub bitmap_extension : Option Pubkey

abbrev pub usize_max : ℕ
usize_max = 2 ^ 64 - 1

module _ (from_str_const : String → Pubkey) (to_string : Pubkey → List ℕ) where
  unfoldable pub new : MeteoraDlmmPool → Address → MeteoraDlmmMarket
  unfolding quote_priority infer_mint_decimals
  new pool pool_address = record {
    pool = pool;
    pool_address = pool_address;
    reserve_x_balance = 0;
    reserve_y_balance = 0;
    token_x_decimals = infer_mint_decimals from_str_const to_string pool.token_x_mint;
    token_y_decimals = infer_mint_decimals from_str_const to_string pool.token_y_mint;
    flipped =
        ltb (or_else usize_max (quote_priority from_str_const pool.token_x_mint))
          (or_else usize_max (quote_priority from_str_const pool.token_y_mint));
    bitmap_extension = none;
  }

-- Buy takes Y to X unless the pool's sides are swapped.
abbrev pub effective_direction : Bool → SwapDirection → SwapDirection
effective_direction false direction = direction
effective_direction true buy = sell
effective_direction true sell = buy

abbrev pub trade_fee_bps : MeteoraDlmmPool → ℕ
trade_fee_bps pool = pool.parameters.base_factor * pool.bin_step / 10_000

abbrev pub less_fee : MeteoraDlmmPool → ℕ → ℕ
less_fee pool amount_in = as_u128 (amount_in * sub64 10_000 (trade_fee_bps pool)) / 10_000

module _ (div_price mul_price : ℤ → ℕ → ℕ → ℕ) where
  abbrev pub single_bin : ℤ → ℕ → ℕ → ℕ → ℕ → SwapDirection → ℕ
  single_bin active_id bin_step amount reserve_x reserve_y buy =
      min (div_price active_id bin_step amount) reserve_x
  single_bin active_id bin_step amount reserve_x reserve_y sell =
      min (mul_price active_id bin_step amount) reserve_y

  unfoldable pub calculate_dlmm_output : MeteoraDlmmMarket → ℕ → SwapDirection → Result ℕ
  calculate_dlmm_output market amount_in direction = ok (
      single_bin market.pool.active_id market.pool.bin_step (less_fee market.pool amount_in)
        market.reserve_x_balance market.reserve_y_balance
        (effective_direction market.flipped direction))

  -- The little-endian i32 at offset 76.
  abbrev pub le_number : Bytes → ℕ
  le_number [] = 0
  le_number (b ∷ bs) = b + 256 * le_number bs

  abbrev pub live_active_id : Bytes → ℤ
  live_active_id bytes = of_bits32 (le_number (take 4 (drop 76 bytes)))

  abbrev pub on_live_data : MeteoraDlmmMarket → ℕ → SwapDirection → Bytes → ℕ → ℕ → Result ℕ
  on_live_data market amount_in direction bytes quote_vault_balance base_vault_balance =
      let reserve_x = if market.flipped then quote_vault_balance else base_vault_balance in
      let reserve_y = if market.flipped then base_vault_balance else quote_vault_balance in
      ok (
        single_bin (live_active_id bytes) market.pool.bin_step (less_fee market.pool amount_in)
          reserve_x reserve_y (effective_direction market.flipped direction))

  unfoldable pub calculate_output_live :
      MeteoraDlmmMarket → ℕ → SwapDirection → Option Bytes → ℕ → ℕ → Result ℕ
  unfolding calculate_dlmm_output
  calculate_output_live market amount_in direction none quote_balance base_balance =
      calculate_dlmm_output market amount_in direction
  calculate_output_live market amount_in direction (some bytes) quote_balance base_balance =
      if leb 80 (length bytes)
      then on_live_data market amount_in direction bytes quote_balance base_balance
      else calculate_dlmm_output market amount_in direction

abbrev pub meteora_dynamic_lmm : String
meteora_dynamic_lmm = "LBUZKhRxPF3XUpBCjp4YzTKgLccjZhTSDM9YuVaPwxo"

abbrev pub bin_array_seed : Bytes
bin_array_seed = b'b' ∷ b'i' ∷ b'n' ∷ b'_' ∷ b'a' ∷ b'r' ∷ b'r' ∷ b'a' ∷ b'y' ∷ []

abbrev pub le_bytes : ℕ → ℕ → Bytes
le_bytes zero v = []
le_bytes (suc n) v = v % 256 ∷ le_bytes n (v / 256)

-- The bits of an i64.
abbrev pub bits64 : ℤ → ℕ
bits64 (pos n) = n % 2 ^ 64
bits64 (negsuc n) = 2 ^ 64 - 1 - n % 2 ^ 64

module _ (from_str_const : String → Pubkey)
    (find_program_address : List Bytes → Pubkey → Pubkey × ℕ) where
  unfoldable pub derive_bin_array_pda : Pubkey → ℤ → Pubkey
  derive_bin_array_pda lb_pair index =
      let seeds = bin_array_seed ∷ reverse (le_bytes 32 lb_pair) ∷ le_bytes 8 (bits64 index) ∷ [] in
      (find_program_address seeds (from_str_const meteora_dynamic_lmm)).0

abbrev pub stale_slot_tolerance : ℕ
stale_slot_tolerance = 300

abbrev pub slot_of : Option (Bytes × ℕ) → ℕ
slot_of none = 0
slot_of (some (bytes, slot)) = slot

-- A missing active array passes, like one of slot 0. The sum of u64 slots wraps around.
unfoldable pub is_stale : ℕ → ℕ → Bool
is_stale pool_slot array_slot =
    ltb 0 pool_slot
    && ltb 0 array_slot
    && ltb (as_u64 (array_slot + stale_slot_tolerance)) pool_slot

abbrev pub swaps_for_y : Bool → SwapDirection → Bool
swaps_for_y false sell = true
swaps_for_y true buy = true
swaps_for_y false buy = false
swaps_for_y true sell = false

abbrev pub traversed : Option ℕ × Bool → Result ℕ
traversed (some out, true) = ok out
traversed (some out, false) = err "DLMM bin arrays unavailable"
traversed (none, found_any) = err "DLMM bin arrays unavailable"

module _ (pda : Pubkey → ℤ → Pubkey) (parse_key : Address → Option Pubkey)
    (deserialize_pool : Bytes → Option MeteoraDlmmPool)
    (deserialize_array : Bytes → Option BinArray) (provider : AccountDataProvider) where
  -- The callback, which notes that it found an array.
  abbrev pub found : Bool → Option BinArray → Option BinArray × Bool
  found found_any none = (none, found_any)
  found found_any (some array) = (some array, true)

  unfoldable pub get_array : Pubkey → ℤ → Bool → Option BinArray × Bool
  unfolding from_account_bytes
  get_array pool_key idx found_any =
      found found_any
        (provider.pool_account_data (pda pool_key idx) >>= from_account_bytes deserialize_array)

  abbrev pub parse_pool : Bytes → Option MeteoraDlmmPool
  parse_pool bytes = if ltb 8 (length bytes) then deserialize_pool (drop 8 bytes) else none

  abbrev pub live_pool : MeteoraDlmmMarket → Option Bytes → MeteoraDlmmPool
  live_pool market pool_data = or_else market.pool (pool_data >>= parse_pool)

  -- The doc comment of the code speaks of a fallback to the single-bin approximation where no bin array is
  -- stored; the code refuses the pool there, as `traversed` does.
  unfoldable pub traverse : MeteoraDlmmPool → Pubkey → ℕ → Bool → Result ℕ
  unfolding get_array quote_exact_in is_stale bin_id_to_bin_array_index
  traverse pool pool_key amount_in swap_for_y =
      let active_pda = pda pool_key (bin_id_to_bin_array_index pool.active_id) in
      let pool_slot = slot_of (provider.account_data_with_slot pool_key) in
      let array_slot = slot_of (provider.account_data_with_slot active_pda) in
      if is_stale pool_slot array_slot
      then err "stale bin arrays (active array predates pool state)"
      else traversed (quote_exact_in (get_array pool_key) pool swap_for_y amount_in false)

  abbrev pub live_with_key : Result ℕ → MeteoraDlmmPool → ℕ → Bool → Option Pubkey → Result ℕ
  live_with_key fallback pool amount_in swap_for_y none = fallback
  live_with_key fallback pool amount_in swap_for_y (some pool_key) =
      traverse pool pool_key amount_in swap_for_y

  module _ (div_price mul_price : ℤ → ℕ → ℕ → ℕ) where
    unfoldable pub calculate_output_live_ex :
        MeteoraDlmmMarket → ℕ → SwapDirection → Option Bytes → ℕ → ℕ → Result ℕ
    unfolding calculate_output_live traverse
    calculate_output_live_ex market amount_in direction pool_data quote_balance base_balance =
        live_with_key
          (calculate_output_live div_price mul_price market amount_in direction pool_data
            quote_balance base_balance)
          (live_pool market pool_data) amount_in (swaps_for_y market.flipped direction)
          (parse_key market.pool_address)

unfoldable pub is_active : MeteoraDlmmMarket → Bool
is_active market = market.pool.status == 0

unfoldable pub metadata : MeteoraDlmmMarket → Result PoolMetadata
metadata market =
    let p = market.pool in
    ok (record {
      address = market.pool_address;
      dex_name = "Meteora DLMM";
      quote_mint = if market.flipped then p.token_x_mint else p.token_y_mint;
      base_mint = if market.flipped then p.token_y_mint else p.token_x_mint;
      quote_vault = if market.flipped then p.reserve_x else p.reserve_y;
      base_vault = if market.flipped then p.reserve_y else p.reserve_x;
      fees = record {
        trade_fee_bps = trade_fee_bps p;
        protocol_fee_bps = some p.parameters.protocol_share;
      };
    })

unfoldable pub financials : MeteoraDlmmMarket → Result PoolFinancials
financials market = ok (record {
  quote_balance = if market.flipped then market.reserve_x_balance else market.reserve_y_balance;
  base_balance = if market.flipped then market.reserve_y_balance else market.reserve_x_balance;
  quote_decimals = if market.flipped then market.token_x_decimals else market.token_y_decimals;
  base_decimals = if market.flipped then market.token_y_decimals else market.token_x_decimals;
})

unfoldable pub calculate_price_impact : MeteoraDlmmMarket → ℕ → SwapDirection → Result ℕ
calculate_price_impact market amount_in direction = ok 0
