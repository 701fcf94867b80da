-- ===== src/Core/ConstantProduct/Floor.antt =====
-- The exact output n * R / (r + n) for n units into reserves r and R, rounded down.
use native.Mathlib.Nat.{div-lt_iff_lt-mul, le-div_iff_mul-le, div-mul-le_self, mul-le-mul_right}
use solana_dex_aggregator.Prelude.{ℕ, ◌+◌, ◌-◌, ◌*◌, ◌/◌, ◌≤◌, ◌<◌, ◌≡◌, subst, arith}

unfoldable pub swap_floor : ℕ → ℕ → ℕ → ℕ
swap_floor r R n = n * R / (r + n)

pub swap_floor-lt : (r R n : ℕ) → 0 < r → 0 < R → swap_floor r R n < R
unfolding swap_floor
swap_floor-lt r R n hr hR = (div-lt_iff_lt-mul {k = r + n} (omega arith)).1 (grind arith)

pub swap_floor-mul-le : (r R n : ℕ) → swap_floor r R n * (r + n) ≤ n * R
unfolding swap_floor
swap_floor-mul-le r R n = div-mul-le_self (n * R) (r + n)

step_mono : (q r n d R : ℕ) → q * (r + n) ≤ n * R → q ≤ R → q * (r + (n + d)) ≤ (n + d) * R
step_mono q r n d R h k = omega (arith, mul-le-mul_right d k)

pub swap_floor_mono : (r R n m : ℕ) → 0 < r → 0 < R → n ≤ m → swap_floor r R n ≤ swap_floor r R m
swap_floor_mono r R n m hr hR h =
    let e : n + (m - n) ≡ m = omega arith in
    let q = swap_floor r R n in
    let below : q ≤ R = omega (arith, swap_floor-lt r R n hr hR) in
    unfold swap_floor in
    (le-div_iff_mul-le {k = r + m} (omega arith)).1 (
      subst (λ k. q * (r + k) ≤ k * R) e
        (step_mono q r n (m - n) R (swap_floor-mul-le r R n) below))

step_sum : (q r n d : ℕ) → q * (r + n) ≤ n * (q + d) → r * (q + d) ≤ (r + n) * d
step_sum q r n d h = omega arith

step_product : (q r n R : ℕ) → q * (r + n) ≤ n * R → q ≤ R → r * R ≤ (r + n) * (R - q)
step_product q r n R h k =
    let e : q + (R - q) ≡ R = omega arith in
    subst (λ S. q * (r + n) ≤ n * S → r * S ≤ (r + n) * (R - q)) e (step_sum q r n (R - q)) h

-- The product of the reserves does not fall.
pub swap_floor_product : (r R n : ℕ) → 0 < r → 0 < R → r * R ≤ (r + n) * (R - swap_floor r R n)
swap_floor_product r R n hr hR =
    step_product (swap_floor r R n) r n R (swap_floor-mul-le r R n)
      (omega (arith, swap_floor-lt r R n hr hR))
