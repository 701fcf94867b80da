-- ===== src/Core/ConstantProduct/Bounds.antt =====
-- What the code's constant product swap returns on u64 arguments.
use native.Mathlib.Nat.{mul-le-mul, mul-le-mul_left, mul-le-mul_right, div-le_of_le-mul, sub-le}
use solana_dex_aggregator.Prelude.{
  ℕ, ◌+◌, ◌-◌, ◌*◌, ◌/◌, ◌^◌, ◌≤◌, ◌<◌, ◌≡◌, arith, ◌==◌, as_u64_small, as_u128_small, sub64,
}
use solana_dex_aggregator.Prelude.Results.{ok}
use solana_dex_aggregator.Core.ConstantProduct.Floor.{
  swap_floor, swap_floor-lt, swap_floor_mono, swap_floor_product,
}
use solana_dex_aggregator.Prelude.{◌||◌, false, as_u64, as_u128}
use native.Mathlib.Nat.{le_trans}
use solana_dex_aggregator.Core.ConstantProduct.{constant_product_swap}

-- The input after the fee.
abbrev pub net_of_fee : ℕ → ℕ → ℕ
net_of_fee amount_in fee_bps = amount_in * (10000 - fee_bps) / 10000

pub net_of_fee-le : (amount_in fee_bps : ℕ) → net_of_fee amount_in fee_bps ≤ amount_in
net_of_fee-le a f =
    div-le_of_le-mul 10000
      (omega (arith, mul-le-mul_left {m = 10000 - f} {n = 10000} a (sub-le _ f)))

pub net_of_fee_mono : (a b fee_bps : ℕ) → a ≤ b → net_of_fee a fee_bps ≤ net_of_fee b fee_bps
net_of_fee_mono a b f h = omega (arith, mul-le-mul_right (10000 - f) h)

-- A product of two u64 values fits u128.
pub u64_product-lt : (a b : ℕ) → a < 2 ^ 64 → b < 2 ^ 64 → a * b < 2 ^ 128
u64_product-lt a b h k =
    let p : a ≤ 2 ^ 64 - 1 = omega arith in
    let q : b ≤ 2 ^ 64 - 1 = omega arith in omega (arith, mul-le-mul p q)

module _ (reserve_in reserve_out amount_in fee_bps : ℕ) (hr : 0 < reserve_in) (hR : 0 < reserve_out)
    (br : reserve_in < 2 ^ 64) (bR : reserve_out < 2 ^ 64) (ba : amount_in < 2 ^ 64)
    (hf : fee_bps ≤ 10000) where
  abbrev net : ℕ
  net = net_of_fee amount_in fee_bps

  net-lt : net < 2 ^ 64
  net-lt = omega (arith, net_of_fee-le amount_in fee_bps)

  multiplier : sub64 10000 fee_bps ≡ 10000 - fee_bps
  unfolding sub64
  multiplier = omega arith

  taxed : as_u128 (amount_in * (10000 - fee_bps)) ≡ amount_in * (10000 - fee_bps)
  taxed = as_u128_small _ (u64_product-lt amount_in (10000 - fee_bps) ba (omega arith))

  out_small : as_u64 (swap_floor reserve_in reserve_out net) ≡ swap_floor reserve_in reserve_out net
  out_small = as_u64_small _ (omega (arith, swap_floor-lt reserve_in reserve_out net hr hR))

  -- No operation wraps, and the result is the exact quotient.
  pub constant_product_swap_lem :
      constant_product_swap reserve_in reserve_out amount_in fee_bps
      ≡ ok (swap_floor reserve_in reserve_out net)
  unfolding constant_product_swap swap_floor
  constant_product_swap_lem = rw (
    liquid,
    multiplier,
    taxed,
    as_u128_small (net * reserve_out) (u64_product-lt net reserve_out net-lt bR),
    as_u128_small (reserve_in + net) (omega (arith, net-lt)),
    out_small,
  )
    where
      liquid : (reserve_in == 0 || reserve_out == 0) ≡ false
      liquid = ground arith

-- On u64 reserves that are not zero, a u64 amount and a fee of at most 10000 basis points, the swap
-- succeeds, pays out less than the whole output reserve, and the product of the reserves after the
-- trade, the whole input added, is not below the product before it.
pub constant_product_swap_safe :
    (reserve_in reserve_out amount_in fee_bps : ℕ)
    → 0 < reserve_in
    → 0 < reserve_out
    → reserve_in < 2 ^ 64
    → reserve_out < 2 ^ 64
    → amount_in < 2 ^ 64
    → fee_bps ≤ 10000
    → (out : ℕ) × (constant_product_swap reserve_in reserve_out amount_in fee_bps ≡ ok out)
      × (out < reserve_out)
      × (reserve_in * reserve_out ≤ (reserve_in + amount_in) * (reserve_out - out))
constant_product_swap_safe r R a f hr hR br bR ba hf =
    let n = net_of_fee a f in
    let out = swap_floor r R n in
    let grow : r + n ≤ r + a = omega (arith, net_of_fee-le a f) in
    (
      out,
      constant_product_swap_lem r R a f hr hR br bR ba hf,
      swap_floor-lt r R n hr hR,
      le_trans (swap_floor_product r R n hr hR) (mul-le-mul_right (R - out) grow),
    )

-- Under the same conditions a larger input never gives a smaller output.
pub constant_product_swap_mono :
    (reserve_in reserve_out a b fee_bps : ℕ)
    → 0 < reserve_in
    → 0 < reserve_out
    → reserve_in < 2 ^ 64
    → reserve_out < 2 ^ 64
    → a ≤ b
    → b < 2 ^ 64
    → fee_bps ≤ 10000
    → (x y : ℕ) × (constant_product_swap reserve_in reserve_out a fee_bps ≡ ok x)
      × (constant_product_swap reserve_in reserve_out b fee_bps ≡ ok y)
      × (x ≤ y)
constant_product_swap_mono r R a b f hr hR br bR ab bb hf = (
  swap_floor r R (net_of_fee a f),
  swap_floor r R (net_of_fee b f),
  constant_product_swap_lem r R a f hr hR br bR (omega arith) hf,
  constant_product_swap_lem r R b f hr hR br bR bb hf,
  swap_floor_mono r R (net_of_fee a f) (net_of_fee b f) hr hR (net_of_fee_mono a b f ab),
)
