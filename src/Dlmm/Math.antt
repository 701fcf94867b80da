-- ===== src/Dlmm/Math.antt =====
-- The fixed-point arithmetic of crates/meteora-dlmm/src/quote.rs, in Q64.64.
pub mod Exact
pub mod Words
use solana_dex_aggregator.Prelude.{
  ℕ, zero, suc, ◌+◌, ◌-◌, ◌*◌, ◌/◌, ◌%◌, ◌^◌, Bool, true, false, not, Option, none, some, ltb, leb,
  ◌==◌, if◌then◌else◌, fits, u64_mod, u128_mod,
}
use solana_dex_aggregator.Prelude.Results.{◌>>=◌, ◌>>◌}
use solana_dex_aggregator.Prelude.Signed.{ℤ, pos, negsuc, unsigned_abs}

pub data Rounding : Type 0 where
  up down : Rounding

abbrev pub one : ℕ
one = 2 ^ 64

abbrev pub basis_point_max : ℕ
basis_point_max = 10_000

abbrev pub max_exponential : ℕ
max_exponential = 0x80000

-- `checked_add(1)` where a remainder is rounded up.
abbrev pub bump_if : Rounding → ℕ → ℕ → Option ℕ
bump_if up rem result = if ltb 0 rem then fits u128_mod (result + 1) else some result
bump_if down rem result = some result

unfoldable pub mul_shr64_u64 : ℕ → ℕ → Rounding → Option ℕ
mul_shr64_u64 x y rounding = do
  high ← fits u128_mod (x / 2 ^ 64 * y)
  low ← fits u128_mod (x % 2 ^ 64 * y)
  result ← fits u128_mod (high + low / 2 ^ 64)
  rounded ← bump_if rounding (low % 2 ^ 64) result
  fits u64_mod rounded

unfoldable pub shl64_div_u64 : ℕ → ℕ → Rounding → Option ℕ
shl64_div_u64 x y rounding =
    let shifted = x * 2 ^ 64 in
    let divided : Option ℕ = do q ← bump_if rounding (shifted % y) (shifted / y); fits u64_mod q
    in if y == 0 then none else divided

-- `checked_mul(..)? >> SCALE_OFFSET`
abbrev pub mul_shr : ℕ → ℕ → Option ℕ
mul_shr a b = do product ← fits u128_mod (a * b); some (product / 2 ^ 64)

-- The 19 rounds of the loop of `pow`, on the exponent's bits that are left, the squared base and the
-- result. The last round does not square.
abbrev pub pow_rounds : ℕ → ℕ → ℕ → ℕ → Option ℕ
pow_rounds zero e squared_base result = some result
pow_rounds (suc n) e squared_base result = do
  result' ← if e % 2 == 1 then mul_shr result squared_base else some result
  squared' ← if n == 0 then some squared_base else mul_shr squared_base squared_base
  pow_rounds n (e / 2) squared' result'

abbrev pub is_negative : ℤ → Bool
is_negative (pos n) = false
is_negative (negsuc n) = true

-- `u128::MAX.checked_div`
abbrev pub invert_q : ℕ → Option ℕ
invert_q b = if b == 0 then none else some ((2 ^ 128 - 1) / b)

-- Bases of at least one are inverted first.
unfoldable pub pow : ℕ → ℤ → Option ℕ
pow base exp =
    let inverted = leb one base in
    let invert = if inverted then not (is_negative exp) else is_negative exp in
    let powered : Option ℕ = do
      squared_base ← if inverted then invert_q base else some base
      result ← pow_rounds 19 (unsigned_abs exp) squared_base one
      (if result == 0 then none else if invert then invert_q result else some result)
    in if unsigned_abs exp == 0
      then some one
      else if leb max_exponential (unsigned_abs exp)
      then none
      else powered

unfoldable pub get_price_from_id : ℤ → ℕ → Option ℕ
unfolding pow
get_price_from_id active_id bin_step = do
  base ← fits u128_mod (one + bin_step * 2 ^ 64 / basis_point_max)
  pow base active_id

unfoldable pub get_amount_out : ℕ → ℕ → Bool → Rounding → Option ℕ
unfolding mul_shr64_u64 shl64_div_u64
get_amount_out amount_in price swap_for_y rounding =
    if swap_for_y
    then mul_shr64_u64 price amount_in rounding
    else shl64_div_u64 amount_in price rounding

unfoldable pub get_amount_in : ℕ → ℕ → Bool → Rounding → Option ℕ
unfolding mul_shr64_u64 shl64_div_u64
get_amount_in amount_out price swap_for_y rounding =
    if swap_for_y
    then shl64_div_u64 amount_out price rounding
    else mul_shr64_u64 price amount_out rounding
