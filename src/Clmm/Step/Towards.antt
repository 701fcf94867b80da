-- ===== src/Clmm/Step/Towards.antt =====
-- Where a step of crates/raydium-clmm/src/quote.rs moves the price: the formulas without the checks.
use native.Mathlib.Nat.{
  mul_comm, mul-le-mul_left, mul-le-mul_right, div-le_self, div-lt_iff_lt-mul,
  lt_of_mul-lt-mul_right, min-eq_left, max-eq_right, zero-div, mul-mod_right, mul-div_cancel_left,
}
use solana_dex_aggregator.Prelude.{
  ℕ, zero, suc, ◌+◌, ◌-◌, ◌*◌, ◌/◌, ◌^◌, ◌≤◌, ◌<◌, ◌≡◌, ap, refl, sym, Bool, true, false, some,
  arith, le→leb, ◌==◌, fits, fits_small, as_u128, as_u128_small, div_ceil, u64_mod, u128_mod,
  u256_mod, ◌≢◌,
}
use solana_dex_aggregator.Prelude.Ceil.{le-div_ceil, lt-div_ceil, div_ceil-le}
use solana_dex_aggregator.Clmm.{up, mul_div_u256}
use solana_dex_aggregator.Clmm.Step.{
  get_delta_amount_0, get_delta_amount_1, by_product, next_sqrt_price_from_input, input_between,
}

-- What moving the price costs, rounded up, where token 0 is paid in and where token 1 is.
pub cost : Bool → ℕ → ℕ → ℕ → ℕ
cost true current target liquidity =
    div_ceil (div_ceil (liquidity * 2 ^ 64 * (current - target)) current) target
cost false current target liquidity = div_ceil (liquidity * (target - current)) (2 ^ 64)

-- The price that an input moves to, rounded against the trader.
pub moved : Bool → ℕ → ℕ → ℕ → ℕ
moved true current liquidity amount =
    div_ceil (liquidity * 2 ^ 64 * current) (liquidity * 2 ^ 64 + amount * current)
moved false current liquidity amount = current + amount * 2 ^ 64 / liquidity

-- The target lies in the direction of the swap.
abbrev pub IsAhead : Bool → ℕ → ℕ → Type 0
IsAhead true current target = (0 < target) × (target ≤ current)
IsAhead false current target = current ≤ target

mul_div_lem :
    (a b c : ℕ) → a < 2 ^ 192 → b ≤ c → 0 < c → mul_div_u256 a b c up ≡ some (div_ceil (a * b) c)
unfolding mul_div_u256
mul_div_lem a b c h k p = rw (not_zero p) (fits_small u256_mod _ small)
  where
    not_zero : {m : ℕ} → 0 < m → (m == 0) ≡ false
    not_zero q = ground arith

    small : div_ceil (a * b) c < u256_mod
    small =
        let bound : a * b ≤ a * c = mul-le-mul_left a k in
        omega (arith, div_ceil-le (a * b) c a p bound, h)

not_zero : {m : ℕ} → 0 < m → (m == 0) ≡ false
not_zero q = ground arith

q128_product : (a b : ℕ) → a < 2 ^ 128 → b < 2 ^ 128 → a * b ≤ (2 ^ 128 - 1) * (2 ^ 128 - 1)
q128_product a b h k =
    let first : a * b ≤ (2 ^ 128 - 1) * b = mul-le-mul_right b (omega arith) in
    omega (arith, first, k)

-- The input to a target ahead is refused exactly where its cost does not fit a u64.
pub input_between_lem :
    (zero_for_one : Bool) (current target liquidity : ℕ)
    → current < 2 ^ 128
    → target < 2 ^ 128
    → liquidity < 2 ^ 128
    → IsAhead zero_for_one current target
    → input_between zero_for_one current target liquidity
      ≡ fits u64_mod (cost zero_for_one current target liquidity)
unfolding get_delta_amount_0 get_delta_amount_1 cost
input_between_lem true current target liquidity h k l (p, q) =
    rw
      (
        min-eq_left q,
        max-eq_right q,
        not_zero p,
        mul_div_lem (liquidity * 2 ^ 64) (current - target) current (omega arith) (omega arith)
            (omega arith),
      )
      refl
input_between_lem false current target liquidity h k l p =
    let bound = q128_product liquidity (target - current) l (omega arith) in
    let small : div_ceil (liquidity * (target - current)) (2 ^ 64) < u256_mod = omega (
      arith,
      bound,
      div_ceil-le (liquidity * (target - current)) (2 ^ 64) (2 ^ 192) (omega arith)
          (omega (arith, bound)),
    ) in
    rw (min-eq_left p, max-eq_right p, fits_small u256_mod _ small) refl

ceil_exact : (d q : ℕ) → 0 < d → div_ceil (d * q) d ≡ q
unfolding div_ceil
ceil_exact d q p = rw (mul-mod_right d q, mul-div_cancel_left q p) refl

-- Where the input is not zero, with N for the liquidity at the scale 2^64.
by_product_lem :
    (n current amount : ℕ)
    → n < 2 ^ 192
    → current < 2 ^ 128
    → 0 < amount
    → 0 < n
    → amount < 2 ^ 64
    → div_ceil (n * current) (n + amount * current) < 2 ^ 128
    → by_product n current amount (fits u256_mod (amount * current))
      ≡ some (div_ceil (n * current) (n + amount * current))
by_product_lem n current amount h k p np a m =
    let product_small : amount * current ≤ (2 ^ 128 - 1) * (2 ^ 128 - 1) =
      q128_product amount current (omega arith) k in
    let product_tight : amount * current ≤ (2 ^ 64 - 1) * current =
      mul-le-mul_right current (omega arith) in
    let at_least : 1 * current ≤ amount * current = mul-le-mul_right current p in
    rw
      (
        fits_small u256_mod (amount * current) (omega (arith, product_small)),
        fits_small u256_mod (n + amount * current) (omega (arith, product_tight, k, h)),
        le→leb n (n + amount * current) (omega arith),
        mul_div_lem n current (n + amount * current) h (omega (arith, at_least)) (omega arith),
      )
      (ap some (as_u128_small _ m))

-- The next price is the exact one, rounded.
pub next_sqrt_price_lem :
    (zero_for_one : Bool) (current liquidity amount : ℕ)
    → current < 2 ^ 128
    → 0 < current
    → liquidity < 2 ^ 128
    → 0 < liquidity
    → amount < 2 ^ 64
    → moved zero_for_one current liquidity amount < 2 ^ 128
    → next_sqrt_price_from_input current liquidity amount zero_for_one
      ≡ some (moved zero_for_one current liquidity amount)
unfolding next_sqrt_price_from_input moved
next_sqrt_price_lem true current liquidity zero h hp l lp a m =
    rw (not_zero hp, not_zero lp)
      (ap some (sym (unmoved (liquidity * 2 ^ 64) current (omega arith))))
  where
    unmoved : (n q : ℕ) → 0 < n → div_ceil (n * q) (n + 0 * q) ≡ q
    unmoved n q p = let same : n + 0 * q ≡ n = omega arith in rw same (ceil_exact n q p)
next_sqrt_price_lem true current liquidity (suc amount) h hp l lp a m =
    rw (not_zero hp, not_zero lp, not_zero {m = suc amount} (omega arith))
      (by_product_lem (liquidity * 2 ^ 64) current (suc amount) (omega arith) h (omega arith)
        (omega arith) a m)
next_sqrt_price_lem false current liquidity zero h hp l lp a m =
    let same : current + 0 * 2 ^ 64 / liquidity ≡ current = rw (zero-div liquidity) (omega arith) in
    rw (not_zero hp, not_zero lp) (ap some (sym same))
next_sqrt_price_lem false current liquidity (suc amount) h hp l lp a m =
    let small = div-le_self (suc amount * 2 ^ 64) liquidity in
    let kept : as_u128 (suc amount * 2 ^ 64 / liquidity) ≡ suc amount * 2 ^ 64 / liquidity =
      as_u128_small _ (omega (arith, small, a)) in
    rw (not_zero hp, not_zero lp, not_zero {m = suc amount} (omega arith), kept)
      (fits_small u128_mod _ m)

-- On token 0, with N for the liquidity at the scale 2^64.
moved_strictly :
    (n current target amount : ℕ)
    → 0 < n
    → 0 < target
    → target ≤ current
    → amount < div_ceil (div_ceil (n * (current - target)) current) target
    → (target < div_ceil (n * current) (n + amount * current))
      × (div_ceil (n * current) (n + amount * current) ≤ current)
moved_strictly n current target amount np p q less =
    let first = lt-div_ceil amount (div_ceil (n * (current - target)) current) target p less in
    let second =
      lt-div_ceil (amount * target) (n * (current - target)) current (omega arith) first in
    let whole : target + (current - target) ≡ current = omega arith in
    let spread : n * target + n * (current - target) ≡ n * current =
      grind (arith, ap (λ (t : ℕ). n * t) whole) in
    let regroup : target * (n + amount * current) ≡ n * target + amount * target * current =
      grind arith in
    let below : target * (n + amount * current) < n * current =
      omega (arith, second, spread, regroup) in
    let above = le-div_ceil (n * current) (n + amount * current) (omega arith) in
    let upper : n * current ≤ current * (n + amount * current) = grind arith in
    (
      lt_of_mul-lt-mul_right (n + amount * current) (omega (arith, below, above)),
      div_ceil-le (n * current) (n + amount * current) current (omega arith) upper,
    )

-- An input below the cost of the target moves the price towards it, and not so far.
pub moved-short :
    (zero_for_one : Bool) (current target liquidity amount : ℕ)
    → IsAhead zero_for_one current target
    → 0 < liquidity
    → amount < cost zero_for_one current target liquidity
    → IsAhead zero_for_one current (moved zero_for_one current liquidity amount)
      × IsAhead zero_for_one (moved zero_for_one current liquidity amount) target
      × (moved zero_for_one current liquidity amount ≢ target)
unfolding cost moved
moved-short true current target liquidity amount (p, q) lp less =
    let (above, below) =
      moved_strictly (liquidity * 2 ^ 64) current target amount (omega arith) p q less in
    ((omega (arith, above), below), (p, omega (arith, above)), λ e. omega (arith, above, e))
moved-short false current target liquidity amount p lp less =
    let first = lt-div_ceil amount (liquidity * (target - current)) (2 ^ 64) (omega arith) less in
    let swapped = mul_comm liquidity (target - current) in
    let below : amount * 2 ^ 64 / liquidity < target - current =
      (div-lt_iff_lt-mul lp).1 (omega (arith, first, swapped)) in
    (omega arith, omega (arith, below), λ e. omega (arith, below, e))
