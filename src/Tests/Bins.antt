-- ===== src/Tests/Bins.antt =====
-- Tests of the bin market on a pool with two bins, the active bin 0 at the price 1 and bin -1.
use solana_dex_aggregator.Prelude.{
  ℕ, zero, suc, ◌+◌, ◌*◌, ◌^◌, ◌<◌, ◌≡◌, ◌≢◌, ◌↔◌, refl, true, false, none, some, List, [], ◌∷◌,
  arith, Option, Bool, All,
}
use solana_dex_aggregator.Prelude.{
  ap, subst, inl, inr, Bool-cases, as_u64, fits, checked_sub, sat_add64, sat_mul64, u64_mod, ltb,
  ◌==◌, if◌then◌else◌, length, drop,
}
use solana_dex_aggregator.Prelude.Results.{ok, some_inj}
use solana_dex_aggregator.Prelude.Signed.{ℤ, pos, negsuc, ◌+ℤ◌, ◌-ℤ◌, as_i32, scale, div_euclid}
use solana_dex_aggregator.Core.{Bytes, Pubkey, AccountDataProvider, sell}
use solana_dex_aggregator.Dlmm.{
  MeteoraDlmmPool, Bin, BinArray, RewardInfo, is_bin_id_within_range, bin_id_to_bin_array_index,
  from_account_bytes,
}
use solana_dex_aggregator.Dlmm.Ranges.{is_bin_id_within_range_iff}
use solana_dex_aggregator.Dlmm.Math.{up, mul_shr64_u64, pow, one}
use solana_dex_aggregator.Dlmm.Math.Exact.{rounded, mul_shr64_u64_lem}
use solana_dex_aggregator.Dlmm.Bitmap.{next_bin_array_index_with_liquidity}
use solana_dex_aggregator.Dlmm.Quote.{walk_bins, bins_fuel, out_of_fuel, quote_exact_in}
use solana_dex_aggregator.Dlmm.Fees.{FeeState}
use solana_dex_aggregator.Dlmm.Fill.{quote_at_bin}
use solana_dex_aggregator.Dlmm.Fill.Charge.{BinFits, IsBinFill, quote_at_bin-IsBinFill}
use solana_dex_aggregator.Dlmm.Quote.Trades.{ArrayFits, Trades}
use solana_dex_aggregator.Dlmm.Quote.Traversal.{quote_exact_in-Trades}
use solana_dex_aggregator.Dlmm.DlmmMarket.{MeteoraDlmmMarket, calculate_output_live_ex}
use solana_dex_aggregator.Dlmm.DlmmMarket.Live.{IsLive, IsRecent, calculate_output_live_ex-Trades}
use solana_dex_aggregator.Dlmm.Quote.Fuel.{walk_bins-ends}

abbrev bin_of : ℕ → ℕ → ℕ → Bin
bin_of x y price = record {
  amount_x = x;
  amount_y = y;
  price = price;
  liquidity_supply = 0;
  fulfilled_order_amount_x = 0;
  fulfilled_order_amount_y = 0;
  limit_order_fee_ask_side = 0;
  limit_order_fee_bid_side = 0;
  fee_amount_x_per_token_stored = 0;
  fee_amount_y_per_token_stored = 0;
  open_order_amount = 0;
  total_processing_order_amount = 0;
  processed_order_remaining_amount = 0;
  order_age = 0;
  limit_order_ask_side = 0;
}

abbrev empties : ℕ → List Bin
empties zero = []
empties (suc n) = bin_of 0 0 0 ∷ empties n

abbrev upper_array : BinArray
upper_array = record {
  index = pos 0;
  version = 1;
  lb_pair = 7;
  bins = bin_of 500 500 (2 ^ 64) ∷ empties 69;
}

abbrev ends_with : ℕ → Bin → List Bin
ends_with zero b = b ∷ []
ends_with (suc n) b = bin_of 0 0 0 ∷ ends_with n b

abbrev lower_array : BinArray
lower_array = record {
  index = negsuc 0;
  version = 1;
  lb_pair = 7;
  bins = ends_with 69 (bin_of 0 1_000 (2 ^ 63));
}

abbrev bitmap : List ℕ
bitmap = 0 ∷ 0 ∷ 0 ∷ 0 ∷ 0 ∷ 0 ∷ 0 ∷ 2 ^ 63 ∷ 1 ∷ 0 ∷ 0 ∷ 0 ∷ 0 ∷ 0 ∷ 0 ∷ 0 ∷ []

abbrev reward : RewardInfo
reward = record {
  mint = 0;
  vault = 0;
  funder = 0;
  reward_duration = 0;
  reward_duration_end = 0;
  reward_rate = 0;
  last_update_time = 0;
  cumulative_seconds_with_empty_liquidity_reward = 0;
}

abbrev bins_pool : MeteoraDlmmPool
bins_pool = record {
  parameters = record {
    base_factor = 10_000;
    filter_period = 30;
    decay_period = 600;
    reduction_factor = 5_000;
    variable_fee_control = 0;
    max_volatility_accumulator = 350_000;
    min_bin_id = negsuc 443_635;
    max_bin_id = pos 443_636;
    protocol_share = 500;
    base_fee_power_factor = 0;
    function_type = 0;
    collect_fee_mode = 0;
  };
  v_parameters = record {
    volatility_accumulator = 0;
    volatility_reference = 0;
    index_reference = pos 0;
    last_update_timestamp = pos 0;
  };
  bump_seed = 0;
  bin_step_seed = [];
  pair_type = 0;
  active_id = pos 0;
  bin_step = 10;
  status = 0;
  require_base_factor_seed = 0;
  base_factor_seed = [];
  activation_type = 0;
  creator_pool_on_off_control = 0;
  token_x_mint = 1;
  token_y_mint = 2;
  reserve_x = 11;
  reserve_y = 12;
  protocol_fee = record { amount_x = 0; amount_y = 0 };
  reward_infos = reward ∷ reward ∷ [];
  oracle = 0;
  bin_array_bitmap = bitmap;
  last_updated_at = pos 0;
  pre_activation_swap_address = 0;
  base_key = 0;
  activation_point = 0;
  pre_activation_duration = 0;
  creator = 0;
  token_mint_x_program_flag = 0;
  token_mint_y_program_flag = 0;
}

-- The callback knows the two arrays.
abbrev two_arrays : ℤ → Bool → Option BinArray × Bool
two_arrays (pos zero) b = (some upper_array, true)
two_arrays (pos (suc n)) b = (none, b)
two_arrays (negsuc zero) b = (some lower_array, true)
two_arrays (negsuc (suc n)) b = (none, b)

below_zero : next_bin_array_index_with_liquidity bitmap true (pos 0) ≡ (pos 0, true)
unfolding next_bin_array_index_with_liquidity ◌+ℤ◌ ◌-ℤ◌ as_u64
below_zero = refl

next_below : next_bin_array_index_with_liquidity bitmap true (negsuc 0) ≡ (negsuc 0, true)
unfolding next_bin_array_index_with_liquidity ◌+ℤ◌ ◌-ℤ◌ as_u64
next_below = refl

nothing_above : (next_bin_array_index_with_liquidity bitmap false (pos 1)).1 ≡ false
unfolding next_bin_array_index_with_liquidity ◌+ℤ◌ as_u64
nothing_above = refl

identity_power : pow (one + 123456) (pos 0) ≡ some one
unfolding pow
identity_power = refl

across_both : quote_exact_in two_arrays bins_pool true 1_000 false ≡ (some 749, true)
unfolding quote_exact_in ◌+ℤ◌ ◌-ℤ◌ as_u64 as_i32 scale div_euclid fits checked_sub sat_add64
    sat_mul64
across_both = refl

mul_shr64_u64_lem_example :
    mul_shr64_u64 (3 * 2 ^ 63) 5 up ≡ fits u64_mod (rounded up (3 * 2 ^ 63 * 5) (2 ^ 64))
mul_shr64_u64_lem_example = mul_shr64_u64_lem (3 * 2 ^ 63) 5 up (omega arith) (omega arith)

is_bin_id_within_range_iff_example :
    (is_bin_id_within_range lower_array (negsuc 69) ≡ true)
    ↔ (bin_id_to_bin_array_index (negsuc 69) ≡ negsuc 0)
is_bin_id_within_range_iff_example =
    is_bin_id_within_range_iff lower_array (negsuc 69) (omega arith, omega arith)

walk_bins-ends_example :
    walk_bins bins_fuel bins_pool true upper_array (pos 3) (1_000, 0) ≢ out_of_fuel
walk_bins-ends_example = walk_bins-ends bins_pool true upper_array (pos 3) (1_000, 0)

bin_fits : (x y price : ℕ) → x < 2 ^ 64 → y < 2 ^ 64 → price < 2 ^ 128 → BinFits (bin_of x y price)
bin_fits x y price h k l = record {
  x = h;
  y = k;
  price = l;
  open_amount = omega arith;
  processed = omega arith;
}

empties-fit : (n : ℕ) → All BinFits (empties n)
empties-fit zero = tt
empties-fit (suc n) = (bin_fits 0 0 0 (omega arith) (omega arith) (omega arith), empties-fit n)

ends-fit : (n : ℕ) (b : Bin) → BinFits b → All BinFits (ends_with n b)
ends-fit zero b h = (h, tt)
ends-fit (suc n) b h = (bin_fits 0 0 0 (omega arith) (omega arith) (omega arith), ends-fit n b h)

upper-fits : ArrayFits upper_array
upper-fits = (bin_fits 500 500 (2 ^ 64) (omega arith) (omega arith) (omega arith), empties-fit 69)

lower-fits : ArrayFits lower_array
lower-fits = ends-fit 69 _ (bin_fits 0 1_000 (2 ^ 63) (omega arith) (omega arith) (omega arith))

abbrev tenth_percent : FeeState
tenth_percent = record { total_fee_rate = 1_000_000; protocol_share = 500 }

quote_at_bin-IsBinFill_example :
    IsBinFill
      (bin_of 500 500 (2 ^ 64))
      1_000
      true
      true
      (record { amount_in_consumed = 501; amount_out = 500 })
unfolding quote_at_bin fits checked_sub
quote_at_bin-IsBinFill_example =
    quote_at_bin-IsBinFill (bin_of 500 500 (2 ^ 64)) tenth_percent 1_000 true true true upper-fits.0
      (omega arith) (omega arith) filled
  where
    filled :
        quote_at_bin (bin_of 500 500 (2 ^ 64)) tenth_percent 1_000 true true true
        ≡ some (record { amount_in_consumed = 501; amount_out = 500 })
    filled = refl

two_arrays-fit : (i : ℤ) (b : Bool) (a : BinArray) → (two_arrays i b).0 ≡ some a → ArrayFits a
two_arrays-fit (pos zero) b a e = subst ArrayFits (some_inj e) upper-fits
two_arrays-fit (pos (suc n)) b a e = cc
two_arrays-fit (negsuc zero) b a e = subst ArrayFits (some_inj e) lower-fits
two_arrays-fit (negsuc (suc n)) b a e = cc

quote_exact_in-Trades_example : (left : ℕ) × Trades bins_pool true ArrayFits 1_000 left 749
quote_exact_in-Trades_example =
    quote_exact_in-Trades two_arrays bins_pool true ArrayFits two_arrays-fit (λ a h. h) 1_000
      (omega arith) false (ap (λ r. r.0) across_both)

abbrev bins_market : MeteoraDlmmMarket
bins_market = record {
  pool = bins_pool;
  pool_address = 7;
  reserve_x_balance = 500;
  reserve_y_balance = 1_500;
  token_x_decimals = 6;
  token_y_decimals = 6;
  flipped = false;
  bitmap_extension = none;
}

-- The approximation at the price 1.
abbrev at_one : ℤ → ℕ → ℕ → ℕ
at_one id bin_step amount = amount

abbrev array_key : Pubkey → ℤ → Pubkey
array_key pool_key (pos n) = 100 + n
array_key pool_key (negsuc n) = 50 + n

-- Eight bytes of discriminator, and one that says which array.
abbrev account : ℕ → Bytes
account kind = 0 ∷ 0 ∷ 0 ∷ 0 ∷ 0 ∷ 0 ∷ 0 ∷ 0 ∷ kind ∷ []

abbrev decode_array : Bytes → Option BinArray
decode_array [] = none
decode_array (zero ∷ bs) = some upper_array
decode_array (suc n ∷ bs) = some lower_array

abbrev no_pool : Bytes → Option MeteoraDlmmPool
no_pool bytes = none

decode_array-fit : (bs : Bytes) (a : BinArray) → decode_array bs ≡ some a → ArrayFits a
decode_array-fit [] a e = cc
decode_array-fit (zero ∷ bs) a e = subst ArrayFits (some_inj e) upper-fits
decode_array-fit (suc n ∷ bs) a e = subst ArrayFits (some_inj e) lower-fits

account-fit :
    (bs : Bytes) (a : BinArray) → from_account_bytes decode_array bs ≡ some a → ArrayFits a
unfolding from_account_bytes
account-fit bs a e = elim (Bool-cases (ltb (length bs) 8)) [
  | inl short ↦ cc (rw short at e)
  | inr long ↦ decode_array-fit (drop 8 bs) a (rw long at e)
]

abbrev stored : Pubkey → Option Bytes
stored key = if key == 100 then some (account 0) else if key == 50 then some (account 1) else none

abbrev live_accounts : AccountDataProvider
live_accounts = record {
  pool_account_data = stored;
  token_balance = λ key. 0;
  account_data_with_slot = λ key. some ([], if key == 7 then 1_000 else 900);
}

calculate_output_live_ex-Trades_example :
    IsRecent 1_000 900
    × ((left : ℕ) × Trades bins_pool true
          (IsLive array_key some no_pool decode_array account-fit live_accounts 7)
          1_000
          left
          749)
unfolding calculate_output_live_ex from_account_bytes ◌+ℤ◌ ◌-ℤ◌ as_u64 as_i32 scale div_euclid fits
    checked_sub sat_add64 sat_mul64
calculate_output_live_ex-Trades_example =
    calculate_output_live_ex-Trades array_key some no_pool decode_array account-fit live_accounts
      at_one at_one bins_market 1_000 sell none 0 0 refl (omega arith) quoted
  where
    quoted :
        calculate_output_live_ex array_key some no_pool decode_array live_accounts at_one at_one
          bins_market 1_000 sell none 0 0
        ≡ ok 749
    quoted = refl
