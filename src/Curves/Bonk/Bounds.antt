-- ===== src/Curves/Bonk/Bounds.antt =====
-- The quotes of crates/bonk/src/lib.rs: they return without a panic, cannot drain the curve, and
-- buying and selling back brings no profit.
use mathlib.Core.Path.{ap₂, sym}
use native.Mathlib.Nat.{le_trans, mul-le-mul_right, mul-le-mul_left, div-le_of_le-mul}
use solana_dex_aggregator.Prelude.{
  ℕ, ◌+◌, ◌-◌, ◌*◌, ◌/◌, ◌^◌, ◌≤◌, ◌<◌, ◌≡◌, ap, subst, false, min, arith, ◌==◌, as_u128,
  as_u128_small, some,
}
use solana_dex_aggregator.Core.ConstantProduct.{
  swap_floor, swap_floor-lt, swap_floor_product, swap_floor-mul-le,
}
use solana_dex_aggregator.Core.ConstantProduct.Bounds.{u64_product-lt}
use solana_dex_aggregator.Curves.Bonk.{total_fee, buy_base_out, sell_quote_out}

total_fee-le : (a : ℕ) → a < 2 ^ 66 → total_fee a ≤ a
unfolding total_fee as_u128
total_fee-le a h = omega (arith, h)

-- The input of a purchase after the fees.
abbrev pub net_of_fees : ℕ → ℕ
net_of_fees amount = amount - total_fee amount

nonzero : (n : ℕ) → 0 < n → (n == 0) ≡ false
nonzero n h = ground arith

clamped : (n : ℕ) → n < 2 ^ 64 → min n (2 ^ 64 - 1) ≡ n
clamped n h = omega (arith, h)

module _ (virtual_base virtual_quote real_base real_quote amount : ℕ)
    (sold : real_base < virtual_base) (pq : 0 < virtual_quote) (bb : virtual_base < 2 ^ 64)
    (bq : virtual_quote + real_quote < 2 ^ 64) (ba : amount < 2 ^ 64) where
  -- No operation wraps.
  buy_exact :
      buy_base_out virtual_base virtual_quote real_base real_quote amount
      ≡ some
          (swap_floor (virtual_quote + real_quote) (virtual_base - real_base) (net_of_fees amount))
  unfolding buy_base_out swap_floor
  buy_exact =
      let n = net_of_fees amount in
      let q = virtual_quote + real_quote in
      let b = virtual_base - real_base in
      let small : n < 2 ^ 64 = omega (arith, ba) in
      let below : n * b / (q + n) < b =
        swap_floor-lt q b n (omega (arith, pq)) (omega (arith, sold)) in
      rw
        (
          as_u128_small q (omega (arith, bq)),
          nonzero b (omega (arith, sold)),
          as_u128_small (n * b) (u64_product-lt n b small (omega (arith, bb))),
          as_u128_small (q + n) (omega (arith, bq, small)),
          nonzero (q + n) (omega (arith, pq)),
        )
        (ap some (clamped (n * b / (q + n)) (omega (arith, below, bb))))

  -- What a sale is worth before the fees.
  abbrev gross : ℕ
  gross = swap_floor (virtual_base - real_base) (virtual_quote + real_quote) amount

  sell_exact :
      sell_quote_out virtual_base virtual_quote real_base real_quote amount
      ≡ some (gross - total_fee gross)
  unfolding sell_quote_out swap_floor
  sell_exact =
      let q = virtual_quote + real_quote in
      let b = virtual_base - real_base in
      let below : amount * q / (b + amount) < q =
        swap_floor-lt b q amount (omega (arith, sold)) (omega (arith, pq)) in
      rw
        (
          as_u128_small q (omega (arith, bq)),
          as_u128_small (amount * q) (u64_product-lt amount q ba bq),
          as_u128_small (b + amount) (omega (arith, bb, ba)),
          nonzero (b + amount) (omega (arith, sold)),
        )
        (ap some (clamped _ (omega (arith, below, bq))))

-- On a curve that has tokens left and a positive virtual quote reserve, with u64 reserves and a u64
-- payment, a purchase returns without a panic, pays out fewer tokens than are left, and the
-- product of the reserves, the whole payment added, is not below the product before.
pub buy_base_out_safe :
    (virtual_base virtual_quote real_base real_quote amount : ℕ)
    → real_base < virtual_base
    → 0 < virtual_quote
    → virtual_base < 2 ^ 64
    → virtual_quote + real_quote < 2 ^ 64
    → amount < 2 ^ 64
    → (out : ℕ) × (buy_base_out virtual_base virtual_quote real_base real_quote amount ≡ some out)
      × (out < virtual_base - real_base)
      × ((virtual_quote + real_quote) * (virtual_base - real_base)
          ≤ (virtual_quote + real_quote + amount) * (virtual_base - real_base - out))
buy_base_out_safe vb vq rb rq amount sold pq bb bq ba =
    let n = net_of_fees amount in
    let q = vq + rq in
    let b = vb - rb in
    let paid : q + n ≤ q + amount = omega arith in
    (
      swap_floor q b n,
      buy_exact vb vq rb rq amount sold pq bb bq ba,
      swap_floor-lt q b n (omega (arith, pq)) (omega (arith, sold)),
      le_trans (swap_floor_product q b n (omega (arith, pq)) (omega (arith, sold)))
          (mul-le-mul_right _ paid),
    )

-- Under the same conditions a sale returns without a panic and pays out less than the quote
-- reserve, and the product of the reserves is not below the product before.
pub sell_quote_out_safe :
    (virtual_base virtual_quote real_base real_quote amount : ℕ)
    → real_base < virtual_base
    → 0 < virtual_quote
    → virtual_base < 2 ^ 64
    → virtual_quote + real_quote < 2 ^ 64
    → amount < 2 ^ 64
    → (out : ℕ) × (sell_quote_out virtual_base virtual_quote real_base real_quote amount ≡ some out)
      × (out < virtual_quote + real_quote)
      × ((virtual_base - real_base) * (virtual_quote + real_quote)
          ≤ (virtual_base - real_base + amount) * (virtual_quote + real_quote - out))
sell_quote_out_safe vb vq rb rq amount sold pq bb bq ba =
    let q = vq + rq in
    let b = vb - rb in
    let g = swap_floor b q amount in
    let below : g < q = swap_floor-lt b q amount (omega (arith, sold)) (omega (arith, pq)) in
    let more : q - g ≤ q - (g - total_fee g) = omega arith in
    (
      g - total_fee g,
      sell_exact vb vq rb rq amount sold pq bb bq ba,
      omega (arith, below),
      le_trans (swap_floor_product b q amount (omega (arith, sold)) (omega (arith, pq)))
          (mul-le-mul_left (b + amount) more),
    )

-- A trade against the floor and back is worth no more than what was put in.
round_trip :
    (q b n : ℕ) → 0 < b → 0 < q → swap_floor (b - swap_floor q b n) (q + n) (swap_floor q b n) ≤ n
unfolding swap_floor
round_trip q b n hb hq =
    let x = n * b / (q + n) in
    let below : x < b = swap_floor-lt q b n hq hb in
    let whole : b - x + x ≡ b = omega (arith, below) in
    subst (λ d. x * (q + n) / d ≤ n) (sym whole)
      (div-le_of_le-mul b (le_trans (swap_floor-mul-le q b n) (omega arith)))

-- On a curve that is not sold out (fewer real than virtual base tokens) and has a positive virtual
-- quote reserve, where the virtual base and the sum of the virtual quote, the real quote and the
-- payment are below 2^64: a purchase returns, and so does selling its tokens straight back, on the
-- reserves that the purchase leaves (the net payment added, the tokens gone), which pays at most the
-- payment.
pub buy_then_sell :
    (virtual_base virtual_quote real_base real_quote amount : ℕ)
    → real_base < virtual_base
    → 0 < virtual_quote
    → virtual_base < 2 ^ 64
    → virtual_quote + (real_quote + amount) < 2 ^ 64
    → (out back : ℕ) × (buy_base_out virtual_base virtual_quote real_base real_quote amount
        ≡ some out)
      × (sell_quote_out virtual_base virtual_quote
            (real_base + out)
            (real_quote + net_of_fees amount)
            out
          ≡ some back)
      × (back ≤ amount)
buy_then_sell vb vq rb rq amount sold pq bb bq =
    let n = net_of_fees amount in
    let q = vq + rq in
    let b = vb - rb in
    let x = swap_floor q b n in
    let below : x < b = swap_floor-lt q b n (omega (arith, pq)) (omega (arith, sold)) in
    let trip : swap_floor (b - x) (q + n) x ≤ n =
      round_trip q b n (omega (arith, sold)) (omega (arith, pq)) in
    let left : vb - (rb + x) ≡ b - x = omega arith in
    let funded : vq + (rq + n) ≡ q + n = omega arith in
    let g = swap_floor (vb - (rb + x)) (vq + (rq + n)) x in
    let same : g ≡ swap_floor (b - x) (q + n) x = ap₂ (λ c d. swap_floor c d x) left funded in
    (
      x,
      g - total_fee g,
      buy_exact vb vq rb rq amount sold pq bb (omega (arith, bq)) (omega (arith, bq)),
      sell_exact vb vq (rb + x) (rq + n) x (omega (arith, below)) pq bb (omega (arith, bq))
          (omega (arith, below, bb)),
      omega (arith, trip, same),
    )
