-- ===== src/Dlmm/Math/Exact.antt =====
-- The fixed-point products and quotients of crates/meteora-dlmm/src/quote.rs against exact ones.
use native.Mathlib.Nat.{mul-le-mul_right, div-le_self}
use solana_dex_aggregator.Prelude.{
  ℕ, ◌+◌, ◌-◌, ◌*◌, ◌/◌, ◌%◌, ◌^◌, ◌≤◌, ◌<◌, ◌≡◌, ap, refl, inl, inr, Bool-cases, false, arith, ltb,
  ◌==◌, if◌then◌else◌, fits, fits_small, u64_mod, u128_mod,
}
use solana_dex_aggregator.Prelude.Results.{◌>>=◌}
use solana_dex_aggregator.Dlmm.Math.{Rounding, up, down, bump_if, mul_shr64_u64, shl64_div_u64}

-- The quotient by `d`, rounded.
abbrev pub rounded : Rounding → ℕ → ℕ → ℕ
rounded up n d = if n % d == 0 then n / d else n / d + 1
rounded down n d = n / d

-- The product by limbs: its high part and its low part at the scale 2^64.
limbs : (x y : ℕ) → x * y ≡ x / 2 ^ 64 * y * 2 ^ 64 + x % 2 ^ 64 * y
limbs x y =
    let split : x ≡ x / 2 ^ 64 * 2 ^ 64 + x % 2 ^ 64 = omega arith in
    grind (arith, ap (λ (t : ℕ). t * y) split)

limb-le : (a y : ℕ) → a < 2 ^ 64 → y < 2 ^ 64 → a * y ≤ (2 ^ 64 - 1) * (2 ^ 64 - 1)
limb-le a y h k =
    let first : a * y ≤ (2 ^ 64 - 1) * y = mul-le-mul_right y (omega arith) in
    omega (arith, first, k)

-- `checked_add(1)` does not fail below the largest u128.
raised :
    (q rem n : ℕ)
    → q + 1 < 2 ^ 128
    → (if rem == 0 then q else q + 1) ≡ n
    → (do r ← bump_if up rem q; fits u64_mod r) ≡ fits u64_mod n
raised q rem n h e = elim (Bool-cases (ltb 0 rem)) [
  | inl some_left ↦ rw (some_left, fits_small u128_mod (q + 1) h) (ap (fits u64_mod) (ground arith))
  | inr exact ↦ rw exact (ap (fits u64_mod) (ground arith))
]

-- On the product's high and low parts.
joined :
    (h l : ℕ) (rounding : Rounding)
    → h ≤ (2 ^ 64 - 1) * (2 ^ 64 - 1)
    → l ≤ (2 ^ 64 - 1) * (2 ^ 64 - 1)
    → (do
      high ← fits u128_mod h
      low ← fits u128_mod l
      result ← fits u128_mod (high + low / 2 ^ 64)
      r ← bump_if rounding (low % 2 ^ 64) result
      fits u64_mod r)
      ≡ fits u64_mod (rounded rounding (h * 2 ^ 64 + l) (2 ^ 64))
joined h l up p q =
    rw
      (
        fits_small u128_mod h (omega arith),
        fits_small u128_mod l (omega arith),
        fits_small u128_mod (h + l / 2 ^ 64) (omega arith),
      )
      (raised (h + l / 2 ^ 64) (l % 2 ^ 64) _ (omega arith) (ground arith))
joined h l down p q =
    rw
      (
        fits_small u128_mod h (omega arith),
        fits_small u128_mod l (omega arith),
        fits_small u128_mod (h + l / 2 ^ 64) (omega arith),
      )
      (ap (fits u64_mod) (omega arith))

-- The product shifted by 64 bits is the exact one, rounded as asked, where it fits a u64.
pub mul_shr64_u64_lem :
    (x y : ℕ) (rounding : Rounding)
    → x < 2 ^ 128
    → y < 2 ^ 64
    → mul_shr64_u64 x y rounding ≡ fits u64_mod (rounded rounding (x * y) (2 ^ 64))
unfolding mul_shr64_u64
mul_shr64_u64_lem x y rounding h k = rw (limbs x y) (
    joined (x / 2 ^ 64 * y) (x % 2 ^ 64 * y) rounding (limb-le _ y (omega arith) k)
      (limb-le _ y (omega arith) k))

not_zero : (y : ℕ) → 0 < y → (y == 0) ≡ false
not_zero y p = ground arith

quotient_small : (x y : ℕ) → x < 2 ^ 64 → 0 < y → x * 2 ^ 64 / y + 1 < 2 ^ 128
quotient_small x y h p = omega (arith, div-le_self (x * 2 ^ 64) y)

pub shl64_div_u64_lem :
    (x y : ℕ) (rounding : Rounding)
    → x < 2 ^ 64
    → 0 < y
    → shl64_div_u64 x y rounding ≡ fits u64_mod (rounded rounding (x * 2 ^ 64) y)
unfolding shl64_div_u64
shl64_div_u64_lem x y up h p =
    rw (not_zero y p) (raised (x * 2 ^ 64 / y) (x * 2 ^ 64 % y) _ (quotient_small x y h p) refl)
shl64_div_u64_lem x y down h p = rw (not_zero y p) refl
