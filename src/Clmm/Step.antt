-- ===== src/Clmm/Step.antt =====
-- One step of a swap within constant liquidity, of crates/raydium-clmm/src/quote.rs.
pub mod Budget
pub mod Towards
use solana_dex_aggregator.Prelude.{
  ℕ, zero, suc, ◌+◌, ◌-◌, ◌*◌, ◌/◌, ◌%◌, ◌^◌, Bool, true, false, not, Option, none, some, ltb, leb,
  ◌==◌, ◌&&◌, ◌||◌, if◌then◌else◌, fits, checked_sub, as_u128, div_ceil, u64_mod, u128_mod,
  u256_mod, min, max,
}
use solana_dex_aggregator.Prelude.Results.{◌>>=◌, ◌>>◌}
use solana_dex_aggregator.Clmm.{Rounding, up, down, divided, mul_div_u256}

abbrev pub fee_rate_denominator : ℕ
fee_rate_denominator = 1_000_000

-- The prices may come in either order. A result above u64 is refused.
unfoldable pub get_delta_amount_0 : ℕ → ℕ → ℕ → Bool → Option ℕ
unfolding mul_div_u256 div_ceil
get_delta_amount_0 sqrt_a sqrt_b liquidity round_up =
    let lower = min sqrt_a sqrt_b in
    let upper = max sqrt_a sqrt_b in
    let rounding = if round_up then up else down in
    let delta : Option ℕ = do
      scaled ← mul_div_u256 (liquidity * 2 ^ 64) (upper - lower) upper rounding
      fits u64_mod (divided rounding scaled lower)
    in if lower == 0 then none else delta

unfoldable pub get_delta_amount_1 : ℕ → ℕ → ℕ → Bool → Option ℕ
unfolding mul_div_u256
get_delta_amount_1 sqrt_a sqrt_b liquidity round_up =
    let lower = min sqrt_a sqrt_b in
    let upper = max sqrt_a sqrt_b in
    mul_div_u256 liquidity (upper - lower) (2 ^ 64) (if round_up then up else down) >>= fits u64_mod

-- Where the product of the amount and the price does not fit.
abbrev pub by_quotient : ℕ → ℕ → ℕ → Option ℕ
by_quotient numerator sqrt_price amount = do
  denominator ← fits u256_mod (numerator / sqrt_price + amount)
  some (as_u128 (div_ceil numerator denominator))

abbrev pub by_product : ℕ → ℕ → ℕ → Option ℕ → Option ℕ
by_product numerator sqrt_price amount none = by_quotient numerator sqrt_price amount
by_product numerator sqrt_price amount (some product) =
    let raised : ℕ → Option ℕ =
      λ denominator. do r ← mul_div_u256 numerator sqrt_price denominator up; some (as_u128 r)
    in do
      denominator ← fits u256_mod (numerator + product)
      (if leb numerator denominator
          then raised denominator
          else by_quotient numerator sqrt_price amount)

unfoldable pub next_sqrt_price_from_amount_0_up : ℕ → ℕ → ℕ → Option ℕ
unfolding mul_div_u256
next_sqrt_price_from_amount_0_up sqrt_price liquidity amount =
    if amount == 0
    then some sqrt_price
    else by_product (liquidity * 2 ^ 64) sqrt_price amount (fits u256_mod (amount * sqrt_price))

unfoldable pub next_sqrt_price_from_amount_1_down : ℕ → ℕ → ℕ → Option ℕ
next_sqrt_price_from_amount_1_down sqrt_price liquidity amount =
    if amount == 0
    then some sqrt_price
    else fits u128_mod (sqrt_price + as_u128 (amount * 2 ^ 64 / liquidity))

unfoldable pub next_sqrt_price_from_input : ℕ → ℕ → ℕ → Bool → Option ℕ
unfolding next_sqrt_price_from_amount_0_up next_sqrt_price_from_amount_1_down
next_sqrt_price_from_input sqrt_price liquidity amount_in zero_for_one =
    if sqrt_price == 0 || liquidity == 0
    then none
    else if zero_for_one
    then next_sqrt_price_from_amount_0_up sqrt_price liquidity amount_in
    else next_sqrt_price_from_amount_1_down sqrt_price liquidity amount_in

pub record StepResult : Type 0 where
  pub sqrt_price_next : ℕ
  pub amount_in : ℕ
  pub amount_out : ℕ
  pub fee_amount : ℕ

-- `FEE_RATE_DENOMINATOR - fee_rate` on u32.
abbrev pub kept_rate : ℕ → ℕ
kept_rate fee_rate = (fee_rate_denominator + 2 ^ 32 - fee_rate) % 2 ^ 32

-- What is paid in and out between two prices.
abbrev pub input_between : Bool → ℕ → ℕ → ℕ → Option ℕ
input_between true current next liquidity = get_delta_amount_0 next current liquidity true
input_between false current next liquidity = get_delta_amount_1 current next liquidity true

abbrev pub output_between : Bool → ℕ → ℕ → ℕ → Option ℕ
output_between true current next liquidity = get_delta_amount_1 next current liquidity false
output_between false current next liquidity = get_delta_amount_0 current next liquidity false

unfoldable pub amount_for_price : ℕ → ℕ → Option ℕ
amount_for_price amount_remaining fee_rate = do
  product ← fits u128_mod (amount_remaining * kept_rate fee_rate)
  fits u64_mod (product / fee_rate_denominator)

-- The target, if the input reaches it. An input to the target that does not fit is out of reach.
unfoldable pub price_after : Option ℕ → ℕ → ℕ → ℕ → ℕ → Bool → Option ℕ
unfolding next_sqrt_price_from_input
price_after none available current target liquidity zero_for_one =
    next_sqrt_price_from_input current liquidity available zero_for_one
price_after (some to_target) available current target liquidity zero_for_one =
    if leb to_target available
    then some target
    else next_sqrt_price_from_input current liquidity available zero_for_one

-- The division by zero at a rate of exactly 1 000 000 is left out.
unfoldable pub fee_for : ℕ → ℕ → ℕ → Bool → Option ℕ
fee_for amount_remaining amount_in fee_rate reached =
    let on_top : Option ℕ = do
      product ← fits u128_mod (amount_in * fee_rate)
      sum ← fits u128_mod (product + (kept_rate fee_rate - 1))
      fits u64_mod (sum / kept_rate fee_rate)
    in if reached then on_top else checked_sub amount_remaining amount_in

abbrev pub input_of : Option ℕ → ℕ
input_of none = 0
input_of (some a) = a

unfoldable pub compute_swap_step : ℕ → ℕ → ℕ → ℕ → ℕ → Bool → Option StepResult
unfolding get_delta_amount_0 get_delta_amount_1 amount_for_price price_after fee_for
compute_swap_step current target liquidity amount_remaining fee_rate zero_for_one = do
  available ← amount_for_price amount_remaining fee_rate
  let to_target = input_between zero_for_one current target liquidity
  next ← price_after to_target available current target liquidity zero_for_one
  amount_in ←
      if next == target
      then some (input_of to_target)
      else input_between zero_for_one current next liquidity
  amount_out ← output_between zero_for_one current next liquidity
  fee ← fee_for amount_remaining amount_in fee_rate (next == target)
  some (record {
    sqrt_price_next = next;
    amount_in = amount_in;
    amount_out = amount_out;
    fee_amount = fee;
  })
