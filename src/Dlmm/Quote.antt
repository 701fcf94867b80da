-- ===== src/Dlmm/Quote.antt =====
-- The traversal of crates/meteora-dlmm/src/quote.rs: from bin to bin within an array, and from array to
-- array by the bitmap. The callback that fetches an array is a parameter, with its state.
pub mod Fuel
pub mod Trades
pub mod Traversal
use solana_dex_aggregator.Prelude.{
  ℕ, zero, suc, ◌+◌, ◌-◌, Bool, true, false, not, Option, none, some, ltb, ◌==◌, ◌&&◌, ◌||◌,
  if◌then◌else◌, fits, checked_sub, u64_mod,
}
use solana_dex_aggregator.Prelude.Results.{◌>>=◌, ◌>>◌}
use solana_dex_aggregator.Prelude.Signed.{ℤ, pos, negsuc, ◌+ℤ◌, ◌-ℤ◌, leb_ℤ, ltb_ℤ, eq_ℤ, as_i32}
use solana_dex_aggregator.Dlmm.{
  MeteoraDlmmPool, Bin, BinArray, min_bin_id, max_bin_id, bin_id_to_bin_array_index,
  lower_upper_bin_id, is_bin_id_within_range, get_bin,
}
use solana_dex_aggregator.Dlmm.Math.{get_price_from_id}
use solana_dex_aggregator.Dlmm.Bitmap.{next_bin_array_index_with_liquidity}
use solana_dex_aggregator.Dlmm.Fees.{
  FeeState, total_fee_rate, volatility_accumulator_for_bin, is_support_limit_order, fee_on_input,
}
use solana_dex_aggregator.Dlmm.Fill.{max_amount_out_with_limit_orders, quote_at_bin}

-- A bin without a stored price has that of its id.
unfoldable pub priced : MeteoraDlmmPool → ℤ → Bin → Option Bin
unfolding get_price_from_id
priced pool active_id bin =
    let computed : Option Bin = do
      price ← get_price_from_id active_id pool.bin_step
      some (record bin { price = price })
    in if bin.price == 0 then computed else some bin

-- What is left of the input, and the output so far.
abbrev pub Progress : Type 0
Progress = ℕ × ℕ

abbrev pub take_fill : ℕ → ℕ → ℕ → ℕ → Option Progress
take_fill consumed out amount_left total_out =
    let taken : Option Progress = do
      left ← checked_sub amount_left consumed
      total ← fits u64_mod (total_out + out)
      some (left, total)
    in if ltb 0 consumed then taken else some (amount_left, total_out)

-- The exchange at a bin that holds something.
unfoldable pub fill_bin : MeteoraDlmmPool → Bool → ℤ → Bin → Progress → Option Progress
unfolding total_fee_rate volatility_accumulator_for_bin is_support_limit_order fee_on_input
    quote_at_bin max_amount_out_with_limit_orders
fill_bin pool swap_for_y active_id bin (amount_left, total_out) =
    let support_lo = is_support_limit_order pool in
    let filled : Option Progress = do
      rate ← total_fee_rate pool (volatility_accumulator_for_bin pool active_id)
      let fee : FeeState = record {
        total_fee_rate = rate;
        protocol_share = pool.parameters.protocol_share;
      }
      fill ← quote_at_bin bin fee amount_left swap_for_y support_lo (fee_on_input pool swap_for_y)
      take_fill fill.amount_in_consumed fill.amount_out amount_left total_out
    in if ltb 0 (max_amount_out_with_limit_orders bin swap_for_y support_lo)
      then filled
      else some (amount_left, total_out)

unfoldable pub visit_bin : MeteoraDlmmPool → Bool → ℤ → Bin → Progress → Option Progress
unfolding priced fill_bin
visit_bin pool swap_for_y active_id bin progress = do
  bin' ← priced pool active_id bin
  fill_bin pool swap_for_y active_id bin' progress

-- How the loop over an array's bins ends: by a `?`, by the early return, or by its test.
pub data BinsWalk : Type 0 where
  failed : BinsWalk
  returned : ℕ → BinsWalk
  walked : ℤ → Progress → BinsWalk
  out_of_fuel : BinsWalk

abbrev pub next_id : Bool → ℤ → ℤ
next_id swap_for_y active_id =
    as_i32 (if swap_for_y then active_id -ℤ pos 1 else active_id +ℤ pos 1)

abbrev pub in_bounds : ℤ → Bool
in_bounds id = leb_ℤ min_bin_id id && leb_ℤ id max_bin_id

-- On to the next bin, while input is left.
abbrev pub move_on : Bool → ℤ → (ℤ → Progress → BinsWalk) → Option Progress → BinsWalk
move_on swap_for_y active_id rest none = failed
move_on swap_for_y active_id rest (some (amount_left, total_out)) =
    let next = next_id swap_for_y active_id in
    if ltb 0 amount_left
    then if in_bounds next then rest next (amount_left, total_out) else returned total_out
    else rest active_id (amount_left, total_out)

abbrev pub at_bin :
    MeteoraDlmmPool → Bool → ℤ → (ℤ → Progress → BinsWalk) → Option Bin → Progress → BinsWalk
at_bin pool swap_for_y active_id rest none progress = walked active_id progress
at_bin pool swap_for_y active_id rest (some bin) progress =
    move_on swap_for_y active_id rest (visit_bin pool swap_for_y active_id bin progress)

unfoldable pub walk_bins : ℕ → MeteoraDlmmPool → Bool → BinArray → ℤ → Progress → BinsWalk
unfolding visit_bin is_bin_id_within_range get_bin
walk_bins zero pool swap_for_y array active_id progress = out_of_fuel
walk_bins (suc n) pool swap_for_y array active_id progress =
    let onward =
      at_bin pool swap_for_y active_id (walk_bins n pool swap_for_y array) (get_bin array active_id)
        progress in
    if ltb 0 progress.0 && is_bin_id_within_range array active_id
    then onward
    else walked active_id progress

-- An array has seventy bins, and the loop's test is made once more.
abbrev pub bins_fuel : ℕ
bins_fuel = 71

abbrev pub max_arrays : ℕ
max_arrays = 8

abbrev pub in_bitmap : ℤ → Bool
in_bitmap start_idx = not (ltb_ℤ (pos 511) start_idx || ltb_ℤ start_idx (negsuc 511))

-- The near edge of an array that the bitmap jumped to.
unfoldable pub snapped : Bool → ℤ → ℤ → ℤ
unfolding bin_id_to_bin_array_index lower_upper_bin_id
snapped swap_for_y next_idx active_id =
    let (lower, upper) = lower_upper_bin_id next_idx in
    if eq_ℤ next_idx (bin_id_to_bin_array_index active_id)
    then active_id
    else if swap_for_y
    then upper
    else lower

module _ {S : Type 0} (get_bin_array : ℤ → S → Option BinArray × S) (pool : MeteoraDlmmPool)
    (swap_for_y : Bool) where
  abbrev pub Rest : Type 0
  Rest = ℤ → Progress → S → Option ℕ × S

  abbrev pub after_bins : Rest → BinsWalk → S → Option ℕ × S
  after_bins rest failed s = (none, s)
  after_bins rest (returned total_out) s = (some total_out, s)
  after_bins rest (walked active_id progress) s = rest active_id progress s
  after_bins rest out_of_fuel s = (none, s)

  abbrev pub in_array : Rest → ℤ → ℤ → Progress → Option BinArray × S → Option ℕ × S
  in_array rest next_idx active_id progress (none, s) = (some (progress.1), s)
  in_array rest next_idx active_id progress (some array, s) =
      after_bins rest
        (walk_bins bins_fuel pool swap_for_y array (snapped swap_for_y next_idx active_id) progress)
        s

  abbrev pub to_array : Rest → ℤ → Progress → S → ℤ × Bool → Option ℕ × S
  to_array rest active_id progress s (next_idx, false) = (some (progress.1), s)
  to_array rest active_id progress s (next_idx, true) =
      in_array rest next_idx active_id progress (get_bin_array next_idx s)

  unfoldable pub walk_arrays : ℕ → Rest
  unfolding walk_bins snapped bin_id_to_bin_array_index next_bin_array_index_with_liquidity
  walk_arrays zero active_id progress s = (some (progress.1), s)
  walk_arrays (suc n) active_id progress s =
      let start_idx = bin_id_to_bin_array_index active_id in
      let onward =
        to_array (walk_arrays n) active_id progress s
          (next_bin_array_index_with_liquidity pool.bin_array_bitmap swap_for_y start_idx) in
      if ltb 0 progress.0 && in_bitmap start_idx then onward else (some (progress.1), s)

  unfoldable pub quote_exact_in : ℕ → S → Option ℕ × S
  unfolding walk_arrays
  quote_exact_in amount_in s =
      if pool.status == 0 then walk_arrays max_arrays pool.active_id (amount_in, 0) s else (none, s)
