-- ===== src/Clmm/TickMath.antt =====
-- The tick arithmetic of crates/raydium-clmm/src/quote.rs. A shift of an i128 to the right rounds down.
use solana_dex_aggregator.Prelude.{
  ℕ, zero, suc, ◌+◌, ◌-◌, ◌*◌, ◌/◌, ◌%◌, ◌^◌, Option, none, some, List, [], ◌∷◌, ltb, leb, ◌==◌,
  ◌&&◌, if◌then◌else◌, as_u128,
}
use solana_dex_aggregator.Prelude.Results.{◌>>=◌}
use solana_dex_aggregator.Prelude.Signed.{
  ℤ, pos, negsuc, ◌+ℤ◌, ◌-ℤ◌, leb_ℤ, ltb_ℤ, eq_ℤ, unsigned_abs, scale, div_euclid, as_i32, sub_ℕ,
}

abbrev pub min_tick : ℤ
min_tick = negsuc 443_635

abbrev pub max_tick : ℤ
max_tick = pos 443_636

abbrev pub min_sqrt_price_x64 : ℕ
min_sqrt_price_x64 = 4295048016

abbrev pub max_sqrt_price_x64 : ℕ
max_sqrt_price_x64 = 79226673521066979257578248091

abbrev pub q64 : ℕ
q64 = 2 ^ 64

unfoldable pub mul_shr64_u128 : ℕ → ℕ → ℕ
mul_shr64_u128 a b = as_u128 (a * b / 2 ^ 64)

-- The factors of the bits of a tick, the lowest first; that of bit 0 starts the product.
abbrev pub first_factor : ℕ
first_factor = 0xfffcb933bd6fb800

abbrev pub factors : List ℕ
factors =
    0xfff97272373d4000 ∷ 0xfff2e50f5f657000 ∷ 0xffe5caca7e10f000 ∷ 0xffcb9843d60f7000
    ∷ 0xff973b41fa98e800 ∷ 0xff2ea16466c9b000 ∷ 0xfe5dee046a9a3800 ∷ 0xfcbe86c7900bb000
    ∷ 0xf987a7253ac65800 ∷ 0xf3392b0822bb6000 ∷ 0xe7159475a2caf000 ∷ 0xd097f3bdfd2f2000
    ∷ 0xa9f746462d9f8000 ∷ 0x70d869a156f31c00 ∷ 0x31be135f97ed3200 ∷ 0x9aa508b5b85a500
    ∷ 0x5d6af8dedc582c ∷ 0x2216e584f5fa ∷ []

-- The loop over the factors, on the bits of the tick that are left.
abbrev pub multiply : List ℕ → ℕ → ℕ → ℕ
multiply [] bits ratio = ratio
multiply (f ∷ fs) bits ratio =
    multiply fs (bits / 2) (if bits % 2 == 1 then mul_shr64_u128 ratio f else ratio)

unfoldable pub get_sqrt_price_at_tick : ℤ → Option ℕ
unfolding mul_shr64_u128
get_sqrt_price_at_tick tick =
    let abs_tick = unsigned_abs tick in
    let ratio = multiply factors (abs_tick / 2) (if abs_tick % 2 == 1 then first_factor else q64) in
    if leb_ℤ min_tick tick && leb_ℤ tick max_tick
    then some (if ltb_ℤ (pos 0) tick then (2 ^ 128 - 1) / ratio else ratio)
    else none

-- The position of the highest bit among the lowest `n`.
abbrev pub msb_below : ℕ → ℕ → ℕ
msb_below zero x = 0
msb_below (suc n) x = let rest = msb_below n x in if x / 2 ^ n % 2 == 1 then n else rest

-- The sixteen rounds of the logarithm's fraction, from the bit 2^63 down.
abbrev pub log_rounds : ℕ → ℕ → ℕ → ℕ → ℕ
log_rounds zero bit r fraction = fraction
log_rounds (suc n) bit r fraction =
    let square = as_u128 (r * r) in
    let two = square / 2 ^ 127 in
    log_rounds n (bit / 2) (square / 2 ^ (63 + two)) (fraction + bit * two)

unfoldable pub log_sqrt_10001 : ℕ → ℤ
log_sqrt_10001 sqrt_price =
    let msb = msb_below 128 sqrt_price in
    let r = if leb 64 msb then sqrt_price / 2 ^ (msb - 63) else sqrt_price * 2 ^ (63 - msb) in
    let fraction = log_rounds 16 (2 ^ 63) r 0 / 2 ^ 32 in
    scale 59543866431248 (scale (2 ^ 32) (sub_ℕ msb 64) +ℤ pos fraction)

abbrev pub higher_or : ℤ → ℤ → ℕ → ℕ → ℤ
higher_or tick_low tick_high sqrt_price price = if leb price sqrt_price then tick_high else tick_low

unfoldable pub get_tick_at_sqrt_price : ℕ → Option ℤ
unfolding log_sqrt_10001 get_sqrt_price_at_tick
get_tick_at_sqrt_price sqrt_price =
    let log = log_sqrt_10001 sqrt_price in
    let tick_low = as_i32 (div_euclid (log -ℤ pos 184467440737095516) (2 ^ 64)) in
    let tick_high = as_i32 (div_euclid (log +ℤ pos 15793534762490258745) (2 ^ 64)) in
    let chosen : Option ℤ = do
      price ← get_sqrt_price_at_tick tick_high
      some (higher_or tick_low tick_high sqrt_price price)
    in if leb min_sqrt_price_x64 sqrt_price && ltb sqrt_price max_sqrt_price_x64
      then if eq_ℤ tick_low tick_high then some tick_low else chosen
      else none
