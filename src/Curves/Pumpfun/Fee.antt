-- ===== src/Curves/Pumpfun/Fee.antt =====
-- `bc_compute_fee` of crates/pumpfun-amm/src/lib.rs against the exact fee, rounded up.
use native.Mathlib.Nat.{mul-le-mul, mul-le-mul_left}
use solana_dex_aggregator.Prelude.{
  ℕ, ◌+◌, ◌*◌, ◌/◌, ◌%◌, ◌^◌, ◌≤◌, ◌<◌, ◌≡◌, ap, ◌∙◌, ◌-◌, min, arith, div_ceil, sat_mul128,
  sat_add128,
}
use solana_dex_aggregator.Curves.Pumpfun.{bc_compute_fee}

div_ceil_bounds : (a : ℕ) → (a ≤ div_ceil a 10000 * 10000) × (div_ceil a 10000 * 10000 < a + 10000)
unfolding div_ceil
div_ceil_bounds a = ground arith

distribute : (q r f : ℕ) → (q * 10000 + r) * f ≡ q * f * 10000 + r * f
distribute q r f = omega arith

-- The split of the amount is exact on the product.
split_product : (amount f : ℕ) → amount * f ≡ amount / 10000 * f * 10000 + amount % 10000 * f
split_product amount f =
    let e : amount ≡ amount / 10000 * 10000 + amount % 10000 = omega arith in
    ap (λ a. a * f) e ∙ distribute (amount / 10000) (amount % 10000) f

rem_le : (a : ℕ) → a % 10000 ≤ 10000
rem_le a = omega arith

sat_small : (a : ℕ) → a < 2 ^ 128 → min a (2 ^ 128 - 1) ≡ a
sat_small a h = omega (arith, h)

-- No step saturates.
fee_exact :
    (amount f : ℕ)
    → amount < 2 ^ 64
    → f ≤ 10000
    → bc_compute_fee amount f ≡ amount / 10000 * f + div_ceil (amount % 10000 * f) 10000
unfolding bc_compute_fee sat_mul128 sat_add128
fee_exact amount f h k =
    let whole : amount / 10000 * f ≤ amount / 10000 * 10000 = mul-le-mul_left (amount / 10000) k in
    let rest : amount % 10000 * f ≤ 10000 * 10000 = mul-le-mul (rem_le amount) k in
    let whole_small : amount / 10000 * f < 2 ^ 64 = omega (arith, whole, h) in
    let ceil = div_ceil_bounds (amount % 10000 * f) in
    rw
      (
        sat_small (amount / 10000 * f) (omega (arith, whole_small)),
        sat_small (amount % 10000 * f) (omega (arith, rest)),
      )
      (sat_small _ (omega (arith, whole_small, rest, ceil.1)))

-- For a u64 amount and at most 10000 basis points, the fee is the exact share of the amount rounded
-- up: the least number of units that is not below the share.
pub bc_compute_fee_lem :
    (amount fee_bps : ℕ)
    → amount < 2 ^ 64
    → fee_bps ≤ 10000
    → (amount * fee_bps ≤ bc_compute_fee amount fee_bps * 10000)
      × (bc_compute_fee amount fee_bps * 10000 < amount * fee_bps + 10000)
bc_compute_fee_lem amount f h k =
    let ceil = div_ceil_bounds (amount % 10000 * f) in
    rw (fee_exact amount f h k, split_product amount f)
      (omega (arith, ceil.0), omega (arith, ceil.1))
