-- ===== src/Prelude/Ceil.antt =====
-- The laws of a division that rounds up.
use native.Mathlib.Nat.{div-add-mod', mod-lt, mul-le-mul_right, div-lt_iff_lt-mul}
use Prim.Native.Nat.{ℕ, ◌+◌, ◌-◌, ◌*◌, ◌/◌, ◌%◌, ◌≤◌, ◌<◌}
use mathlib.Core.Path.{◌≡◌, ap}
use mathlib.Core.Logic.{inl, inr}
use mathlib.Core.Bool.{true, false}
use native.Mathlib.Omega.{arith}
use native.Mathlib.Decide.{dec_lt}
use solana_dex_aggregator.Prelude.Tests.{◌==◌, Bool-cases}
use solana_dex_aggregator.Prelude.Words.{div_ceil}

==_zero : {n : ℕ} → (n == 0) ≡ true → n ≡ 0
==_zero e = ground arith

pub le-div_ceil : (n d : ℕ) → 0 < d → n ≤ div_ceil n d * d
unfolding div_ceil
le-div_ceil n d p = elim (Bool-cases (n % d == 0)) [
  | inl exact ↦ rw exact (omega (arith, div-add-mod' n d, ==_zero exact))
  | inr inexact ↦
      let up_one : (n / d + 1) * d ≡ n / d * d + d = grind arith in
      rw inexact (omega (arith, div-add-mod' n d, mod-lt n p, up_one))
]

pub lt-div_ceil : (a n d : ℕ) → 0 < d → a < div_ceil n d → a * d < n
unfolding div_ceil
lt-div_ceil a n d p h = elim (Bool-cases (n % d == 0)) [
  | inl exact ↦
      let strict : a < n / d = rw exact at h in
      let below : a + 1 ≤ n / d = omega arith in
      let scaled : (a + 1) * d ≤ n / d * d = mul-le-mul_right d below in
      let up_one : (a + 1) * d ≡ a * d + d = grind arith in
      omega (arith, div-add-mod' n d, scaled, up_one, p)
  | inr inexact ↦
      let below : a ≤ n / d = le_of_lt_succ (rw inexact at h) in
      let scaled : a * d ≤ n / d * d = mul-le-mul_right d below in
      omega (arith, div-add-mod' n d, scaled, not_zero inexact)
]
  where
    not_zero : {m : ℕ} → (m == 0) ≡ false → 0 < m
    not_zero e = ground arith

    le_of_lt_succ : {m k : ℕ} → m < k + 1 → m ≤ k
    le_of_lt_succ e = omega arith

pub div_ceil-le : (n d q : ℕ) → 0 < d → n ≤ q * d → div_ceil n d ≤ q
div_ceil-le n d q p h = elim (dec_lt q (div_ceil n d)) [
  | yes more ↦ absurd (omega (arith, lt-div_ceil q n d p more, h))
  | no within ↦ omega arith
]

pub over_whole : (whole n r d : ℕ) → r + d ≡ whole → n * r + n * d ≡ n * whole
over_whole whole n r d e = grind (arith, ap (λ (t : ℕ). n * t) e)

-- A fee on top, rounded up. With `d` the share that is kept, the fee on top of the net amount fits
-- into the gross amount.
pub added_fee :
    (whole r d gross net : ℕ)
    → r + d ≡ whole
    → 0 < d
    → net * whole + gross * r ≤ gross * whole
    → net ≤ gross
    → (net * r + d - 1) / d ≤ gross - net
added_fee whole r d gross net e p h le =
    let y = gross - net + 1 in
    let same : net + (gross - net) ≡ gross = omega arith in
    let spread : net * d + (gross - net) * d ≡ gross * d =
      grind (arith, ap (λ (t : ℕ). t * d) same) in
    let one_more : y * d ≡ (gross - net) * d + d = grind arith in
    let enough : net * r + d - 1 < y * d =
      omega (arith, over_whole whole net r d e, over_whole whole gross r d e, spread, one_more) in
    let below : (net * r + d - 1) / d < y = (div-lt_iff_lt-mul p).1 enough in omega (arith, below)
