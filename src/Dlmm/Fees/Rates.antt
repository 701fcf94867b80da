-- ===== src/Dlmm/Fees/Rates.antt =====
-- The fee rates of crates/meteora-dlmm/src/quote.rs are at most a tenth, and a fee never exceeds the
-- amount that it is taken from.
use solana_dex_aggregator.Prelude.Ceil.{added_fee}
use native.Mathlib.Nat.{mul-le-mul_left}
use solana_dex_aggregator.Prelude.{
  ℕ, ◌+◌, ◌-◌, ◌*◌, ◌/◌, ◌^◌, ◌≤◌, ◌<◌, ◌≡◌, min, some, arith, fits, fits_small, checked_sub,
  checked_sub_small, u64_mod, u128_mod,
}
use solana_dex_aggregator.Prelude.Results.{>>=-eq-some, some_inj}
use solana_dex_aggregator.Dlmm.{MeteoraDlmmPool}
use solana_dex_aggregator.Dlmm.Fees.{
  FeeState, max_fee_rate, fee_precision, base_fee, variable_fee, total_fee_rate, compute_fee,
  compute_fee_from_amount,
}

pub total_fee_rate-le :
    (pool : MeteoraDlmmPool) (acc : ℕ) {rate : ℕ}
    → total_fee_rate pool acc ≡ some rate
    → rate ≤ max_fee_rate
unfolding total_fee_rate
total_fee_rate-le pool acc {rate} e =
    let (base, _, e1) = >>=-eq-some (base_fee pool) _ e in
    let (variable, _, e2) = >>=-eq-some (variable_fee pool acc) _ e1 in
    let (total, _, e3) = >>=-eq-some (fits u128_mod (base + variable)) _ e2 in
    let capped : min total max_fee_rate ≡ rate = some_inj e3 in omega (arith, capped)

-- The fee within an amount: the exact share rounded up.
pub ceil_fee : ℕ → ℕ → ℕ
ceil_fee rate amount = (amount * rate + (fee_precision - 1)) / fee_precision

-- Taken from a u64 amount, the fee is never refused: it is the exact share rounded up.
pub compute_fee_from_amount_lem :
    (fee : FeeState) (amount : ℕ)
    → fee.total_fee_rate ≤ max_fee_rate
    → amount < 2 ^ 64
    → compute_fee_from_amount fee amount ≡ some (ceil_fee fee.total_fee_rate amount)
unfolding compute_fee_from_amount ceil_fee
compute_fee_from_amount_lem fee amount h k =
    let small : amount * fee.total_fee_rate ≤ amount * 100_000_000 = mul-le-mul_left amount h in
    rw
      (
        fits_small u128_mod (amount * fee.total_fee_rate) (omega (arith, small)),
        fits_small u128_mod (amount * fee.total_fee_rate + (fee_precision - 1))
            (omega (arith, small)),
      )
      (fits_small u64_mod _ (omega (arith, small)))

-- The share is rounded up, by less than one.
pub ceil_fee_bounds :
    (rate amount : ℕ)
    → (amount * rate ≤ ceil_fee rate amount * fee_precision)
      × (ceil_fee rate amount * fee_precision < amount * rate + fee_precision)
unfolding ceil_fee
ceil_fee_bounds rate amount = (omega arith, omega arith)

pub ceil_fee-le : (rate amount : ℕ) → rate ≤ max_fee_rate → ceil_fee rate amount ≤ amount
ceil_fee-le rate amount h =
    let small : amount * rate ≤ amount * 100_000_000 = mul-le-mul_left amount h in
    omega (arith, small, (ceil_fee_bounds rate amount).1)

-- What is added to the net part of a gross amount gives at most the gross amount back.
pub compute_fee_back :
    (fee : FeeState) (gross net : ℕ)
    → fee.total_fee_rate ≤ max_fee_rate
    → gross < 2 ^ 64
    → net + ceil_fee fee.total_fee_rate gross ≤ gross
    → (f : ℕ) × (compute_fee fee net ≡ some f) × (net + f ≤ gross)
unfolding compute_fee
compute_fee_back fee gross net h k e =
    let r = fee.total_fee_rate in
    let d = fee_precision - r in
    let small : net * r ≤ net * 100_000_000 = mul-le-mul_left net h in
    let back : (net * r + d - 1) / d ≤ gross - net =
      added_fee fee_precision r d gross net (omega arith) (omega arith)
        (omega (arith, (ceil_fee_bounds r gross).0)) (omega arith) in
    let kept : checked_sub fee_precision r ≡ some d = checked_sub_small _ r (omega arith) in
    let above : checked_sub (net * r + d) 1 ≡ some (net * r + d - 1) =
      checked_sub_small _ 1 (omega arith) in
    (
      (net * r + d - 1) / d,
      rw
          (
            kept,
            fits_small u128_mod (net * r) (omega (arith, small)),
            fits_small u128_mod (net * r + d) (omega (arith, small)),
            above,
          )
          (fits_small u64_mod _ (omega (arith, back))),
      omega (arith, back),
    )
