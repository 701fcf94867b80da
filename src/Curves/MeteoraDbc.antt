-- ===== src/Curves/MeteoraDbc.antt =====
-- crates/meteora-dbc/src/quote.rs: the quotes of Meteora's dynamic bonding curve, a ladder of segments
-- in Q64.64 square root prices. `none` is the code's `None`. A product of two 256-bit numbers has 512
-- bits and does not overflow.
pub mod Fees
pub mod DbcMarket
use solana_dex_aggregator.Prelude.{
  ℕ, zero, suc, ◌+◌, ◌-◌, ◌*◌, ◌/◌, ◌%◌, ◌^◌, ◌<◌, min, Bool, true, false, not, ◌&&◌, ◌||◌, Option,
  none, some, List, [], ◌∷◌, ltb, leb, ◌==◌, if◌then◌else◌, fits, checked_sub, div_ceil, sat_mul128,
  sat_mul64, sat_add64, as_u64, u64_max, u128_mod, u256_mod,
}
use solana_dex_aggregator.Prelude.Results.{◌>>=◌, ◌>>◌}
use solana_dex_aggregator.Curves.DbcAccounts.{LiquidityDistributionConfig, VirtualPool, PoolConfig}

abbrev pub fee_denominator : ℕ
fee_denominator = 1_000_000_000

abbrev pub max_fee_numerator : ℕ
max_fee_numerator = 990_000_000

pub data Rounding : Type 0 where
  up down : Rounding

abbrev pub round_up_if : Rounding → ℕ → ℕ → ℕ
round_up_if up remainder q = if remainder == 0 then q else q + 1
round_up_if down remainder q = q

unfoldable pub mul_div : ℕ → ℕ → ℕ → Rounding → Option ℕ
mul_div a b c rounding =
    if c == 0 then none else fits u256_mod (round_up_if rounding (a * b % c) (a * b / c))

unfoldable pub delta_base : ℕ → ℕ → ℕ → Rounding → Option ℕ
unfolding mul_div
delta_base lower upper liquidity rounding =
    let spread : Option ℕ = do
      denom ← fits u256_mod (lower * upper)
      res ← mul_div liquidity (upper - lower) denom rounding
      fits u128_mod res
    in if leb upper lower || liquidity == 0 then some 0 else spread

unfoldable pub delta_quote : ℕ → ℕ → ℕ → Rounding → Option ℕ
delta_quote lower upper liquidity rounding =
    let spread : Option ℕ = do
      prod ← fits u256_mod (liquidity * (upper - lower))
      q ← fits u256_mod (round_up_if rounding (prod % 2 ^ 128) (prod / 2 ^ 128))
      fits u128_mod q
    in if leb upper lower || liquidity == 0 then some 0 else spread

unfoldable pub next_sqrt_from_quote_in : ℕ → ℕ → ℕ → Option ℕ
next_sqrt_from_quote_in sqrt_price liquidity amount =
    let next : Option ℕ = do
      res ← fits u256_mod (sqrt_price + amount * 2 ^ 128 % u256_mod / liquidity)
      fits u128_mod res
    in if liquidity == 0 then none else next

unfoldable pub next_sqrt_from_base_in : ℕ → ℕ → ℕ → Option ℕ
unfolding mul_div
next_sqrt_from_base_in sqrt_price liquidity amount = do
  prod ← fits u256_mod (amount * sqrt_price)
  denom ← fits u256_mod (liquidity + prod)
  res ← mul_div sqrt_price liquidity denom up
  fits u128_mod res

-- The rest of the loop, on the price, the amount left and the total so far.
abbrev pub Walk : Type 0
Walk = ℕ → ℕ → ℕ → Option ℕ

abbrev pub buy_within : LiquidityDistributionConfig → Walk
buy_within seg current left total = do
  next ← next_sqrt_from_quote_in current seg.liquidity left
  out ← delta_base current next seg.liquidity down
  fits u128_mod (total + out)

abbrev pub buy_across : ℕ → LiquidityDistributionConfig → ℕ → ℕ → Walk → Walk
buy_across stop seg ref_price max_in rest current left total = do
  out ← delta_base current ref_price seg.liquidity down
  sum ← fits u128_mod (total + out)
  if ref_price == stop then some sum else rest ref_price (left - max_in) sum

abbrev pub buy_step : ℕ → LiquidityDistributionConfig → Walk → Walk
buy_step stop seg rest current left total =
    let ref_price = min stop seg.sqrt_price in
    let trade : Option ℕ = do
      max_in ← delta_quote current ref_price seg.liquidity up
      (if ltb left max_in
          then buy_within seg current left total
          else buy_across stop seg ref_price max_in rest current left total)
    in if ltb current ref_price then trade else rest current left total

abbrev pub buy_loop : ℕ → List LiquidityDistributionConfig → Walk
buy_loop stop [] current left total = some total
buy_loop stop (seg ∷ segs) current left total =
    let onward = buy_step stop seg (buy_loop stop segs) current left total in
    if seg.sqrt_price == 0 || seg.liquidity == 0 then some total else onward

unfoldable pub quote_to_base : VirtualPool → PoolConfig → ℕ → Option ℕ
unfolding delta_base delta_quote next_sqrt_from_quote_in
quote_to_base pool config amount_in =
    buy_loop config.migration_sqrt_price config.curve pool.sqrt_price amount_in 0

-- The segments from the last but one down to the first, each with the liquidity of the one above.
abbrev pub downward :
    List (LiquidityDistributionConfig × ℕ)
    → List LiquidityDistributionConfig
    → List (LiquidityDistributionConfig × ℕ)
downward done [] = done
downward done (seg ∷ []) = done
downward done (seg ∷ above ∷ segs) = downward ((seg, above.liquidity) ∷ done) (above ∷ segs)

-- The state after the loop: price, amount left and total.
abbrev pub Descent : Type 0
Descent = ℕ → ℕ → ℕ → Option (ℕ × ℕ × ℕ)

abbrev pub sell_within : ℕ → Descent
sell_within l current left total = do
  next ← next_sqrt_from_base_in current l left
  out ← delta_quote next current l down
  sum ← fits u128_mod (total + out)
  some (next, 0, sum)

abbrev pub sell_across : LiquidityDistributionConfig → ℕ → ℕ → Descent → Descent
sell_across seg l max_in rest current left total = do
  out ← delta_quote seg.sqrt_price current l down
  sum ← fits u128_mod (total + out)
  rest seg.sqrt_price (left - max_in) sum

abbrev pub sell_step : LiquidityDistributionConfig → ℕ → Descent → Descent
sell_step seg l rest current left total =
    let trade : Option (ℕ × ℕ × ℕ) = do
      max_in ← delta_base seg.sqrt_price current l up
      (if ltb left max_in
          then sell_within l current left total
          else sell_across seg l max_in rest current left total)
    in let skip = rest current left total in
      if seg.sqrt_price == 0 || seg.liquidity == 0
      then skip
      else if ltb seg.sqrt_price current
      then trade
      else skip

abbrev pub sell_loop : List (LiquidityDistributionConfig × ℕ) → Descent
sell_loop [] current left total = some (current, left, total)
sell_loop ((seg, l) ∷ segs) current left total = sell_step seg l (sell_loop segs) current left total

abbrev pub sell_tail : ℕ → ℕ → ℕ × ℕ × ℕ → Option ℕ
sell_tail start l (current, left, total) =
    let below : Option ℕ = do
      next ← next_sqrt_from_base_in current l left
      out ← delta_quote (if ltb next start then start else next) current l down
      fits u128_mod (total + out)
    in if left == 0 then some total else below

-- A curve has twenty segments, so the first is always there.
abbrev pub first_liquidity : List LiquidityDistributionConfig → ℕ
first_liquidity [] = 0
first_liquidity (seg ∷ segs) = seg.liquidity

unfoldable pub base_to_quote : VirtualPool → PoolConfig → ℕ → Option ℕ
unfolding delta_base delta_quote next_sqrt_from_base_in
base_to_quote pool config amount_in = do
  state ← sell_loop (downward [] config.curve) pool.sqrt_price amount_in 0
  sell_tail config.sqrt_start_price (first_liquidity config.curve) state

abbrev pub one_q64 : ℕ
one_q64 = 2 ^ 64

-- The rounds of the loop of `pow_q64`. An exponent has 32 bits; once it is 0 a round changes the
-- result no more, which is where the code stops.
abbrev pub pow_rounds : ℕ → ℕ → ℕ → ℕ → ℕ
pow_rounds zero result b e = result
pow_rounds (suc n) result b e =
    pow_rounds n (if e % 2 == 1 then sat_mul128 result b / 2 ^ 64 else result)
      (sat_mul128 b b / 2 ^ 64) (e / 2)

unfoldable pub pow_q64 : ℕ → ℕ → ℕ
pow_q64 base exp = pow_rounds 32 one_q64 base exp

unfoldable pub get_fee_in_period : ℕ → ℕ → ℕ → ℕ
unfolding pow_q64
get_fee_in_period cliff reduction_factor period =
    let base = one_q64 - reduction_factor * 2 ^ 64 / 10_000 in
    if period == 0 then cliff else as_u64 (sat_mul128 (pow_q64 base period) cliff / 2 ^ 64)

-- The scheduler, linear in mode 0 and exponential in mode 1, and the cliff in every other mode.
unfoldable pub base_fee_numerator : PoolConfig → VirtualPool → ℕ → ℕ
unfolding get_fee_in_period
base_fee_numerator config pool current_point =
    let bf = config.pool_fees.base_fee in
    let cliff = bf.cliff_fee_numerator in
    let period = min ((current_point - pool.activation_point) / bf.second_factor) bf.first_factor in
    if bf.base_fee_mode == 0 || bf.base_fee_mode == 1
    then if bf.second_factor == 0 || current_point == 0 || ltb current_point pool.activation_point
      then cliff
      else if bf.base_fee_mode == 0
      then cliff - sat_mul64 bf.third_factor period
      else get_fee_in_period cliff bf.third_factor (min period 65_535)
    else cliff

-- On the product of the square and the control, rounded up by 10^11. The sum's panic, for a product
-- within 10^11 of 2^256, is left out.
abbrev pub capped_fee : Option ℕ → ℕ
capped_fee none = max_fee_numerator
capped_fee (some v_fee) = min ((v_fee + 100_000_000_000 - 1) / 100_000_000_000) max_fee_numerator

abbrev pub squared_fee : ℕ → Option ℕ → ℕ
squared_fee control none = 0
squared_fee control (some vfa) =
    capped_fee (fits u256_mod (vfa * vfa) >>= λ square. fits u256_mod (square * control))

unfoldable pub variable_fee_numerator : VirtualPool → PoolConfig → ℕ
variable_fee_numerator pool config =
    let df = config.pool_fees.dynamic_fee in
    if df.initialized == 0
    then 0
    else squared_fee df.variable_fee_control
        (fits u256_mod (pool.volatility_tracker.volatility_accumulator * df.bin_step))

unfoldable pub total_fee_numerator : VirtualPool → PoolConfig → ℕ → ℕ
unfolding base_fee_numerator variable_fee_numerator
total_fee_numerator pool config current_point =
    min
      (sat_add64 (base_fee_numerator config pool current_point)
        (variable_fee_numerator pool config))
      max_fee_numerator

unfoldable pub fee_on_amount : ℕ → ℕ → ℕ
fee_on_amount amount fee_numerator = div_ceil (sat_mul128 amount fee_numerator) fee_denominator

unfoldable pub is_tradeable : VirtualPool → PoolConfig → Bool
is_tradeable pool config =
    pool.is_migrated == 0
    && pool.migration_progress == 0
    && ltb pool.quote_reserve config.migration_quote_threshold

-- The fee comes off the output.
abbrev pub less_fee : ℕ → Option ℕ → Option ℕ
less_fee fee_num gross = gross >>= λ g. checked_sub g (fee_on_amount g fee_num)

-- The quote before the test of the output; `buys` spends quote.
abbrev pub curve_output : VirtualPool → PoolConfig → ℕ → ℕ → Bool → Option ℕ
curve_output pool config fee_num amount_in false =
    less_fee fee_num (base_to_quote pool config amount_in)
curve_output pool config fee_num amount_in true =
    let on_input =
      checked_sub amount_in (fee_on_amount amount_in fee_num) >>= quote_to_base pool config in
    if config.collect_fee_mode == 0
    then on_input
    else less_fee fee_num (quote_to_base pool config amount_in)

abbrev pub u64_output : Option ℕ → Option ℕ
u64_output none = none
u64_output (some out) = if ltb 0 out && leb out u64_max then some out else none

unfoldable pub quote_exact_in : VirtualPool → PoolConfig → ℕ → Bool → ℕ → Option ℕ
unfolding total_fee_numerator fee_on_amount is_tradeable quote_to_base base_to_quote
quote_exact_in pool config amount_in buys current_point =
    let fee_num = total_fee_numerator pool config current_point in
    if amount_in == 0 || not (is_tradeable pool config)
    then none
    else u64_output (curve_output pool config fee_num amount_in buys)
