-- ===== src/Tests/Ticks.antt =====
-- Tests of the tick market: the tick prices of the program's own tests, and a step below the price 1.
use solana_dex_aggregator.Prelude.{
  ℕ, ◌^◌, ◌≡◌, refl, true, some, List, [], ◌∷◌, arith, Option, as_u128, fits, checked_sub, div_ceil,
}
use solana_dex_aggregator.Prelude.Signed.{pos, negsuc, ◌+ℤ◌, ◌-ℤ◌, scale, div_euclid, as_i32}
use solana_dex_aggregator.Clmm.TickMath.{
  q64, min_tick, max_tick, min_sqrt_price_x64, max_sqrt_price_x64, get_sqrt_price_at_tick,
  get_tick_at_sqrt_price,
}
use solana_dex_aggregator.Clmm.Step.{StepResult, compute_swap_step}
use solana_dex_aggregator.Clmm.Step.Budget.{IsStep, compute_swap_step-IsStep}
use solana_dex_aggregator.Clmm.Bitmap.{next_bitmap_array_start, start_of}
use solana_dex_aggregator.Clmm.Bitmap.Nearest.{Nearest, next_bitmap_array_start-Nearest}

lowest_price : get_sqrt_price_at_tick min_tick ≡ some min_sqrt_price_x64
unfolding get_sqrt_price_at_tick as_u128
lowest_price = refl

highest_price : get_sqrt_price_at_tick max_tick ≡ some max_sqrt_price_x64
unfolding get_sqrt_price_at_tick as_u128
highest_price = refl

price_one : get_sqrt_price_at_tick (pos 0) ≡ some q64
unfolding get_sqrt_price_at_tick as_u128
price_one = refl

hundred_below : get_sqrt_price_at_tick (negsuc 99) ≡ some 18354745142194513203
unfolding get_sqrt_price_at_tick as_u128
hundred_below = refl

tick_of_price : get_tick_at_sqrt_price 18354745142194513203 ≡ some (negsuc 99)
unfolding get_tick_at_sqrt_price ◌+ℤ◌ ◌-ℤ◌ scale div_euclid as_i32 as_u128
tick_of_price = refl

abbrev a_step : StepResult
a_step = record {
  sqrt_price_next = 18446725673100692699;
  amount_in = 997_500;
  amount_out = 997_499;
  fee_amount = 2_500;
}

compute_swap_step-IsStep_example : IsStep true q64 18354745142194513203 1_000_000 a_step
unfolding compute_swap_step fits checked_sub div_ceil as_u128
compute_swap_step-IsStep_example =
    compute_swap_step-IsStep q64 18354745142194513203 1_000_000_000_000 1_000_000 2_500 true
      (omega arith) (omega arith) (omega arith) (omega arith) (omega arith, omega arith) stepped
  where
    stepped :
        compute_swap_step q64 18354745142194513203 1_000_000_000_000 1_000_000 2_500 true
        ≡ some a_step
    stepped = refl

-- The arrays at 0 and at -1.
abbrev two_bits : List ℕ
two_bits = 0 ∷ 0 ∷ 0 ∷ 0 ∷ 0 ∷ 0 ∷ 0 ∷ 2 ^ 63 ∷ 1 ∷ 0 ∷ 0 ∷ 0 ∷ 0 ∷ 0 ∷ 0 ∷ 0 ∷ []

next_bitmap_array_start-Nearest_example :
    (found : Option ℕ) × Nearest true two_bits 515 found
    × (next_bitmap_array_start two_bits (pos 180) 60 true ≡ start_of 60 found)
unfolding div_euclid ◌+ℤ◌
next_bitmap_array_start-Nearest_example =
    next_bitmap_array_start-Nearest two_bits (pos 180) 60 515 true refl (omega arith)

array_below : next_bitmap_array_start two_bits (pos 180) 60 true ≡ some (pos 0)
unfolding next_bitmap_array_start div_euclid ◌+ℤ◌ scale as_i32
array_below = refl
