-- ===== src/Curves/MeteoraDbc/Fees.antt =====
-- The fees of crates/meteora-dbc/src/quote.rs and what a quote that is given satisfies.
use native.Mathlib.Nat.{mul-le-mul_left}
use solana_dex_aggregator.Prelude.{
  ℕ, zero, suc, ◌+◌, ◌*◌, ◌/◌, ◌^◌, ◌≤◌, ◌<◌, ◌≡◌, refl, inl, inr, Bool, true, false, not, ◌||◌,
  Bool-cases, Option, none, some, arith, ◌==◌, div_ceil, sat_mul128, u64_max,
}
use solana_dex_aggregator.Curves.DbcAccounts.{VirtualPool, PoolConfig}
use solana_dex_aggregator.Curves.MeteoraDbc.{
  pow_rounds, fee_denominator, max_fee_numerator, total_fee_numerator, fee_on_amount, is_tradeable,
  curve_output, u64_output, quote_exact_in,
}

div_ceil_bounds :
    (a : ℕ)
    → (a ≤ div_ceil a 1_000_000_000 * 1_000_000_000)
      × (div_ceil a 1_000_000_000 * 1_000_000_000 < a + 1_000_000_000)
unfolding div_ceil
div_ceil_bounds a = ground arith

total_fee_numerator-le :
    (pool : VirtualPool) (config : PoolConfig) (point : ℕ)
    → total_fee_numerator pool config point ≤ max_fee_numerator
unfolding total_fee_numerator
total_fee_numerator-le pool config point = omega arith

unsaturated : (a f : ℕ) → a < 2 ^ 64 → f ≤ max_fee_numerator → sat_mul128 a f ≡ a * f
unfolding sat_mul128
unsaturated a f h k =
    let small : a * f ≤ a * 990_000_000 = mul-le-mul_left a k in omega (arith, small, h)

-- For every pool and configuration the fee on a u64 amount is the exact share rounded up, for a
-- rate of at most 99 percent, and so never more than the amount.
pub fee_on_amount_lem :
    (pool : VirtualPool) (config : PoolConfig) (current_point amount : ℕ)
    → amount < 2 ^ 64
    → let rate = total_fee_numerator pool config current_point in
      let fee = fee_on_amount amount rate in
      (rate ≤ max_fee_numerator)
      × (amount * rate ≤ fee * fee_denominator)
      × (fee * fee_denominator < amount * rate + fee_denominator)
      × (fee ≤ amount)
unfolding fee_on_amount
fee_on_amount_lem pool config point a h =
    let f = total_fee_numerator pool config point in
    let k = total_fee_numerator-le pool config point in
    let small : a * f ≤ a * 990_000_000 = mul-le-mul_left a k in
    let ceil = div_ceil_bounds (a * f) in
    rw (unsaturated a f h k) (k, ceil.0, ceil.1, omega (arith, ceil.1, small))

u64_output-eq-some :
    (o : Option ℕ) {out : ℕ}
    → u64_output o ≡ some out
    → (o ≡ some out) × (0 < out) × (out ≤ u64_max)
u64_output-eq-some none e = cc
u64_output-eq-some (some n) e = ground arith

-- A quote is given only for a positive amount on a pool that still trades on its curve; it is the
-- curve's output after the fee, positive and a u64 value.
pub quote_exact_in-eq-some :
    (pool : VirtualPool) (config : PoolConfig) (amount : ℕ) (buys : Bool) (current_point : ℕ)
    {out : ℕ}
    → quote_exact_in pool config amount buys current_point ≡ some out
    → ((amount == 0) ≡ false)
      × (is_tradeable pool config ≡ true)
      × (curve_output pool config (total_fee_numerator pool config current_point) amount buys
          ≡ some out)
      × (0 < out)
      × (out ≤ u64_max)
unfolding quote_exact_in
quote_exact_in-eq-some pool config amount buys point {out} e =
    elim (Bool-cases (amount == 0 || not (is_tradeable pool config))) [
      | inl refused ↦ absurd (nothing (rw refused at e))
      | inr given ↦
          let (z, t) = both (amount == 0) (is_tradeable pool config) given in
          let (o, p, q) = u64_output-eq-some _ (rw given at e) in (z, t, o, p, q)
    ]
  where
    nothing : {n : ℕ} → none ≡ some n → ⊥
    nothing h = cc

    both : (a b : Bool) → (a || not b) ≡ false → (a ≡ false) × (b ≡ true)
    both true b h = cc
    both false true h = (refl, refl)
    both false false h = cc

-- Once the exponent is used up, further rounds leave the result as it is.
pow_rounds-zero : (n result b : ℕ) → pow_rounds n result b 0 ≡ result
pow_rounds-zero zero result b = refl
pow_rounds-zero (suc n) result b = pow_rounds-zero n result (sat_mul128 b b / 2 ^ 64)
