-- ===== src/Clmm/Traversal.antt =====
-- The swap loop of crates/raydium-clmm/src/quote.rs, from tick to tick and from array to array. The
-- callback that fetches an array is a parameter, with its state.
use solana_dex_aggregator.Prelude.{
  ℕ, zero, suc, ◌+◌, ◌-◌, ◌*◌, ◌^◌, min, max, Bool, true, false, not, Option, none, some, ltb, leb,
  ◌==◌, ◌&&◌, if◌then◌else◌, fits, checked_sub, u64_mod, u128_mod,
}
use solana_dex_aggregator.Prelude.Results.{◌>>=◌}
use solana_dex_aggregator.Prelude.Signed.{ℤ, pos, negsuc, neg_part, ◌+ℤ◌, ◌-ℤ◌, eq_ℤ, as_i32}
use solana_dex_aggregator.Clmm.{RaydiumClmmPool}
use solana_dex_aggregator.Clmm.TickMath.{
  min_sqrt_price_x64, max_sqrt_price_x64, get_sqrt_price_at_tick, get_tick_at_sqrt_price,
}
use solana_dex_aggregator.Clmm.Step.{compute_swap_step}
use solana_dex_aggregator.Clmm.Arrays.{
  TickInfo, ClmmTickArray, tick_array_size, array_start_index, next_initialized_tick,
  first_initialized_tick,
}
use solana_dex_aggregator.Clmm.Bitmap.{next_bitmap_array_start}

abbrev pub max_arrays : ℕ
max_arrays = 10

-- The variables of the loop over prices, and those of the walk over arrays.
pub record Swap : Type 0 where
  pub sqrt_price : ℕ
  pub tick : ℤ
  pub liquidity : ℕ
  pub remaining : ℕ
  pub total_out : ℕ

pub record Place : Type 0 where
  pub array_start : ℤ
  pub array : ClmmTickArray
  pub contains_tick : Bool
  pub walked : ℕ

abbrev pub price_limit : Bool → ℕ
price_limit true = min_sqrt_price_x64 + 1
price_limit false = max_sqrt_price_x64 - 1

-- `checked_neg` on an i128.
abbrev pub checked_neg : ℤ → Option ℤ
checked_neg z = if leb (2 ^ 127) (neg_part z) then none else some (pos 0 -ℤ z)

abbrev pub net_change : Bool → ℤ → Option ℤ
net_change true net = checked_neg net
net_change false net = some net

abbrev pub add_signed : ℕ → ℤ → Option ℕ
add_signed liquidity (pos n) = fits u128_mod (liquidity + n)
add_signed liquidity (negsuc n) = checked_sub liquidity (suc n)

-- Up to the target, where there is liquidity and some way to go.
unfoldable pub exchange : ℕ → Bool → ℕ → Swap → Option Swap
unfolding compute_swap_step
exchange fee_rate zero_for_one target s =
    let stepped : Option Swap = do
      step ← compute_swap_step s.sqrt_price target s.liquidity s.remaining fee_rate zero_for_one
      used ← fits u64_mod (step.amount_in + step.fee_amount)
      left ← checked_sub s.remaining used
      out ← fits u64_mod (s.total_out + step.amount_out)
      some (record s { sqrt_price = step.sqrt_price_next; remaining = left; total_out = out })
    in if ltb 0 s.liquidity && not (s.sqrt_price == target)
      then stepped
      else some (record s { sqrt_price = target })

-- Over the tick, or to the tick of the price that was reached.
unfoldable pub settle : Bool → TickInfo → ℕ → Swap → Option Swap
unfolding get_tick_at_sqrt_price
settle zero_for_one next_tick tick_price s =
    let crossed : Option Swap = do
      net ← net_change zero_for_one next_tick.liquidity_net
      liquidity ← add_signed s.liquidity net
      some (record s {
        liquidity = liquidity;
        tick = if zero_for_one then as_i32 (next_tick.tick -ℤ pos 1) else next_tick.tick;
      })
    in let within : Option Swap = do
      tick ← get_tick_at_sqrt_price s.sqrt_price
      some (record s { tick = tick })
      in if s.sqrt_price == tick_price then crossed else within

unfoldable pub swap_to_tick : ℕ → Bool → TickInfo → Swap → Option Swap
unfolding exchange settle get_sqrt_price_at_tick
swap_to_tick fee_rate zero_for_one next_tick s = do
  tick_price ← get_sqrt_price_at_tick next_tick.tick
  let limit = price_limit zero_for_one
  s' ←
      exchange fee_rate zero_for_one
        (if zero_for_one then max tick_price limit else min tick_price limit) s
  settle zero_for_one next_tick tick_price s'

-- The next initialized tick: there is one, the loop breaks, or a `?` returns.
pub data Located (S : Type 0) : Type 0 where
  at : TickInfo → Place → S → Located S
  stop : S → Located S
  fail : S → Located S

-- How the loop ends.
pub data Outcome : Type 0 where
  done : ℕ → Outcome
  failed : Outcome
  out_of_fuel : Outcome

module _ {S : Type 0} (get_tick_array : ℤ → S → Option ClmmTickArray × S) (pool : RaydiumClmmPool)
    (fee_rate : ℕ) (zero_for_one : Bool) where
  abbrev pub ticks_in_array : ℕ
  ticks_in_array = tick_array_size * pool.tick_spacing

  abbrev pub first_in : Place → S → Option TickInfo → Located S
  first_in place s none = stop s
  first_in place s (some t) = at t place s

  abbrev pub enter_array : Place → ℤ → Option ClmmTickArray × S → Located S
  enter_array place next_start (none, s) = stop s
  enter_array place next_start (some array, s) =
      first_in (record place { array_start = next_start; array = array; walked = place.walked + 1 })
        s (first_initialized_tick array zero_for_one)

  abbrev pub to_start : Place → S → Option ℤ → Located S
  to_start place s none = stop s
  to_start place s (some next_start) =
      let entered = enter_array place next_start (get_tick_array next_start s) in
      if leb max_arrays place.walked then stop s else entered

  abbrev pub onward : Place → S → Located S
  onward place s =
      let probe = as_i32 (
        if zero_for_one
        then place.array_start -ℤ pos ticks_in_array
        else place.array_start +ℤ pos ticks_in_array) in
      to_start place s
        (next_bitmap_array_start pool.tick_array_bitmap probe ticks_in_array zero_for_one)

  abbrev pub first_here : Place → S → Option TickInfo → Located S
  first_here place s none = fail s
  first_here place s (some t) = at t place s

  abbrev pub beyond : Place → S → Option TickInfo → Located S
  beyond place s (some t) = at t place s
  beyond place s none =
      if not place.contains_tick
      then first_here (record place { contains_tick = true }) s
          (first_initialized_tick place.array zero_for_one)
      else onward place s

  unfoldable pub locate : ℤ → Place → S → Located S
  unfolding next_initialized_tick first_initialized_tick next_bitmap_array_start
  locate tick place s =
      beyond place s (next_initialized_tick place.array tick pool.tick_spacing zero_for_one)

  abbrev pub Loop : Type 0
  Loop = Swap → Place → S → Outcome × S

  abbrev pub after_swap : Loop → Place → S → Option Swap → Outcome × S
  after_swap rest place s none = (failed, s)
  after_swap rest place s (some swap) = rest swap place s

  abbrev pub at_located : Loop → Swap → Located S → Outcome × S
  at_located rest swap (fail s) = (failed, s)
  at_located rest swap (stop s) = (done swap.total_out, s)
  at_located rest swap (at t place s) =
      after_swap rest place s (swap_to_tick fee_rate zero_for_one t swap)

  unfoldable pub swap_loop : ℕ → Loop
  unfolding swap_to_tick locate
  swap_loop zero swap place s = (out_of_fuel, s)
  swap_loop (suc n) swap place s =
      let round = at_located (swap_loop n) swap (locate swap.tick place s) in
      if not (swap.remaining == 0) && not (swap.sqrt_price == price_limit zero_for_one)
      then round
      else (done swap.total_out, s)

  abbrev pub from_array : ℕ → ℕ → ℤ → ℤ → Option ClmmTickArray × S → Outcome × S
  from_array fuel amount_in start array_start (none, s) = (failed, s)
  from_array fuel amount_in start array_start (some array, s) =
      swap_loop fuel
        (record {
          sqrt_price = pool.sqrt_price_x64;
          tick = pool.tick_current;
          liquidity = pool.liquidity;
          remaining = amount_in;
          total_out = 0;
        })
        (record {
          array_start = array_start;
          array = array;
          contains_tick = eq_ℤ array_start start;
          walked = 1;
        })
        s

  abbrev pub from_start : ℕ → ℕ → ℤ → S → Option ℤ → Outcome × S
  from_start fuel amount_in start s none = (done 0, s)
  from_start fuel amount_in start s (some array_start) =
      from_array fuel amount_in start array_start (get_tick_array array_start s)

  unfoldable pub quote_exact_in : ℕ → ℕ → S → Outcome × S
  unfolding swap_loop array_start_index next_bitmap_array_start
  quote_exact_in fuel amount_in s =
      let start = array_start_index pool.tick_current pool.tick_spacing in
      if pool.liquidity == 0 && amount_in == 0
      then (done 0, s)
      else from_start fuel amount_in start s
          (next_bitmap_array_start pool.tick_array_bitmap start ticks_in_array zero_for_one)
