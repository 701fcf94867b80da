-- ===== src/Dlmm/Fill/Fair.antt =====
-- What the exchange at one price in crates/meteora-dlmm/src/quote.rs takes and gives: never more than
-- it is given, never more than the layer offers, and never more than the price is worth.
use native.Mathlib.Nat.{
  mul_comm, div-mul-le_self, mul-le-mul_left, mul-le-mul_right, lt_of_mul-lt-mul_right,
}
use solana_dex_aggregator.Prelude.{
  ℕ, ◌+◌, ◌*◌, ◌^◌, ◌≤◌, ◌<◌, ◌≡◌, inl, inr, Bool-cases, Bool, true, false, none, some, arith, ◌==◌,
  fits-eq-some, u64_mod,
}
use solana_dex_aggregator.Prelude.{div_ceil}
use solana_dex_aggregator.Prelude.Ceil.{le-div_ceil, lt-div_ceil}
use solana_dex_aggregator.Dlmm.Math.{
  Rounding, up, down, mul_shr64_u64, shl64_div_u64, get_amount_in, get_amount_out,
}
use solana_dex_aggregator.Dlmm.Math.Exact.{rounded, mul_shr64_u64_lem, shl64_div_u64_lem}

-- The output is worth at most the input: X is worth `price` times Y, over 2^64.
abbrev pub IsFair : Bool → ℕ → ℕ → ℕ → Type 0
IsFair true price amount_in amount_out = amount_out * 2 ^ 64 ≤ price * amount_in
IsFair false price amount_in amount_out = amount_out * price ≤ amount_in * 2 ^ 64

pub IsFair-more :
    (swap_for_y : Bool) (price a b c d : ℕ)
    → IsFair swap_for_y price a b
    → a ≤ c
    → d ≤ b
    → IsFair swap_for_y price c d
IsFair-more true price a b c d h p q = omega (arith, h, mul-le-mul_left price p, q)
IsFair-more false price a b c d h p q = omega (arith, h, mul-le-mul_right price q, p)

pub IsFair-add :
    (swap_for_y : Bool) (price a b c d : ℕ)
    → IsFair swap_for_y price a b
    → IsFair swap_for_y price c d
    → IsFair swap_for_y price (a + c) (b + d)
IsFair-add true price a b c d h k = grind arith
IsFair-add false price a b c d h k = grind arith

rounded-le : (n d : ℕ) → rounded down n d * d ≤ n
rounded-le n d = div-mul-le_self n d

le-rounded : (n d : ℕ) → 0 < d → n ≤ rounded up n d * d
unfolding div_ceil
le-rounded = le-div_ceil

below_rounded : (a n d : ℕ) → 0 < d → a < rounded up n d → a * d < n
unfolding div_ceil
below_rounded = lt-div_ceil

no_value : {n : ℕ} → none ≡ some n → ⊥
no_value e = cc

module _ (x y : ℕ) (rounding : Rounding) {out : ℕ} where
  shr_exact :
      x < 2 ^ 128
      → y < 2 ^ 64
      → mul_shr64_u64 x y rounding ≡ some out
      → rounded rounding (x * y) (2 ^ 64) ≡ out
  shr_exact h k e = (fits-eq-some u64_mod _ (rw (mul_shr64_u64_lem x y rounding h k) at e)).0

  shl_exact :
      x < 2 ^ 64
      → shl64_div_u64 x y rounding ≡ some out
      → (0 < y) × (rounded rounding (x * 2 ^ 64) y ≡ out)
  unfolding shl64_div_u64
  shl_exact h e = elim (Bool-cases (y == 0)) [
    | inl nothing ↦ absurd (no_value (rw nothing at e))
    | inr some_left ↦
        let positive : 0 < y = ground arith in
        (positive, (fits-eq-some u64_mod _ (rw (shl64_div_u64_lem x y rounding h positive) at e)).0)
  ]

-- What is asked for an output is worth the output.
pub amount_in-IsFair :
    (amount_out price : ℕ) (swap_for_y : Bool) {amount_in : ℕ}
    → amount_out < 2 ^ 64
    → price < 2 ^ 128
    → get_amount_in amount_out price swap_for_y up ≡ some amount_in
    → IsFair swap_for_y price amount_in amount_out
unfolding get_amount_in
amount_in-IsFair amount_out price true h k e =
    let (positive, exact) = shl_exact amount_out price up h e in
    rw (← exact) (
      omega (
        arith,
        le-rounded (amount_out * 2 ^ 64) price positive,
        mul_comm price (rounded up (amount_out * 2 ^ 64) price),
      ))
amount_in-IsFair amount_out price false h k e = rw (← shr_exact price amount_out up k h e) (
    omega
      (arith, le-rounded (price * amount_out) (2 ^ 64) (omega arith), mul_comm price amount_out))

-- What an input buys is worth at most the input.
pub amount_out-IsFair :
    (amount_in price : ℕ) (swap_for_y : Bool) {amount_out : ℕ}
    → amount_in < 2 ^ 64
    → price < 2 ^ 128
    → get_amount_out amount_in price swap_for_y down ≡ some amount_out
    → IsFair swap_for_y price amount_in amount_out
unfolding get_amount_out
amount_out-IsFair amount_in price true h k e =
    rw (← shr_exact price amount_in down k h e) (rounded-le (price * amount_in) (2 ^ 64))
amount_out-IsFair amount_in price false h k e =
    rw (← (shl_exact amount_in price down h e).1) (rounded-le (amount_in * 2 ^ 64) price)

-- Less than what the whole costs buys less than the whole.
pub part-lt-whole :
    (amount max_out max_in out price : ℕ) (swap_for_y : Bool)
    → amount < 2 ^ 64
    → max_out < 2 ^ 64
    → price < 2 ^ 128
    → get_amount_in max_out price swap_for_y up ≡ some max_in
    → get_amount_out amount price swap_for_y down ≡ some out
    → amount < max_in
    → out < max_out
unfolding get_amount_in get_amount_out
part-lt-whole amount max_out max_in out price true h k l cost bought less =
    let (positive, exact) = shl_exact max_out price up k cost in
    let short : amount * price < max_out * 2 ^ 64 =
      below_rounded amount _ price positive (rw exact less) in
    omega (arith, short, amount_out-IsFair amount price true h l bought, mul_comm price amount)
part-lt-whole amount max_out max_in out price false h k l cost bought less =
    let (positive, exact) = shl_exact amount price down h bought in
    let short : amount * 2 ^ 64 < price * max_out =
      below_rounded amount _ (2 ^ 64) (omega arith)
        (rw (shr_exact price max_out up l k cost) less) in
    let worth : out * price ≤ amount * 2 ^ 64 = amount_out-IsFair amount price false h l bought in
    lt_of_mul-lt-mul_right price (omega (arith, short, worth, mul_comm price max_out))
