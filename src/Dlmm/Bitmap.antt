-- ===== src/Dlmm/Bitmap.antt =====
-- The liquidity bitmap of crates/meteora-dlmm/src/quote.rs: 1024 bits in sixteen u64 limbs, the lowest
-- first, one for each bin array from -512 up.
use Prim.Native.Nat.{bit_or}
use solana_dex_aggregator.Prelude.{
  ℕ, zero, suc, ◌+◌, ◌-◌, ◌*◌, ◌/◌, ◌%◌, ◌^◌, Bool, true, false, Option, none, some, List, [], ◌∷◌,
  ltb, ◌==◌, ◌&&◌, if◌then◌else◌, get_elem?, as_u64,
}
use solana_dex_aggregator.Prelude.Maps.{or_else}
use solana_dex_aggregator.Prelude.Signed.{ℤ, pos, negsuc, pos_part, ◌+ℤ◌, ◌-ℤ◌}

abbrev pub bin_array_bitmap_size : ℕ
bin_array_bitmap_size = 512

-- Out of range a limb is 0, which the code does not read.
abbrev pub limb : List ℕ → ℕ → ℕ
limb bitmap i = or_else 0 (get_elem? bitmap i)

abbrev pub each_limb : ℕ → ℕ → (ℕ → ℕ) → List ℕ
each_limb zero i f = []
each_limb (suc n) i f = f i ∷ each_limb n (i + 1) f

-- The limb at the source `src`, shifted up, with what comes over from the limb below.
abbrev pub shl_limb : List ℕ → ℕ → ℕ → ℕ
shl_limb bitmap bit_shift src =
    let shifted = as_u64 (limb bitmap src * 2 ^ bit_shift) in
    if ltb 0 bit_shift && ltb 0 src
    then bit_or shifted (limb bitmap (src - 1) / 2 ^ (64 - bit_shift))
    else shifted

unfoldable pub bitmap_shl : List ℕ → ℕ → List ℕ
bitmap_shl bitmap shift =
    let limb_shift = shift / 64 in
    each_limb 16 0
      (λ i. if ltb i limb_shift then 0 else shl_limb bitmap (shift % 64) (i - limb_shift))

-- The limb at the source `src`, shifted down, with what comes over from the limb above.
abbrev pub shr_limb : List ℕ → ℕ → ℕ → ℕ
shr_limb bitmap bit_shift src =
    let shifted = limb bitmap src / 2 ^ bit_shift in
    if ltb 0 bit_shift && ltb (src + 1) 16
    then bit_or shifted (as_u64 (limb bitmap (src + 1) * 2 ^ (64 - bit_shift)))
    else shifted

unfoldable pub bitmap_shr : List ℕ → ℕ → List ℕ
bitmap_shr bitmap shift =
    let limb_shift = shift / 64 in
    each_limb 16 0
      (λ i. if ltb i (16 - limb_shift) then shr_limb bitmap (shift % 64) (i + limb_shift) else 0)

-- `u64::leading_zeros` and `u64::trailing_zeros` on the lowest `w` bits.
abbrev pub leading_zeros : ℕ → ℕ → ℕ
leading_zeros zero x = 0
leading_zeros (suc w) x = let rest = leading_zeros w x in if x / 2 ^ w % 2 == 1 then 0 else rest + 1

abbrev pub trailing_zeros : ℕ → ℕ → ℕ
trailing_zeros zero x = 0
trailing_zeros (suc w) x = let rest = trailing_zeros w (x / 2) in if x % 2 == 1 then 0 else rest + 1

-- The limbs from `n - 1` down.
abbrev pub leading_from : ℕ → List ℕ → Option ℕ
leading_from zero bitmap = none
leading_from (suc i) bitmap =
    let rest = leading_from i bitmap in
    if limb bitmap i == 0 then rest else some ((15 - i) * 64 + leading_zeros 64 (limb bitmap i))

unfoldable pub bitmap_leading_zeros : List ℕ → Option ℕ
bitmap_leading_zeros bitmap = leading_from 16 bitmap

abbrev pub trailing_from : ℕ → List ℕ → Option ℕ
trailing_from i [] = none
trailing_from i (x ∷ xs) =
    if x == 0 then trailing_from (i + 1) xs else some (i * 64 + trailing_zeros 64 x)

unfoldable pub bitmap_trailing_zeros : List ℕ → Option ℕ
bitmap_trailing_zeros bitmap = trailing_from 0 bitmap

abbrev pub below_start : ℤ → Option ℕ → ℤ × Bool
below_start start_index none = (negsuc 512, false)
below_start start_index (some lz) = (start_index -ℤ pos lz, true)

abbrev pub above_start : ℤ → Option ℕ → ℤ × Bool
above_start start_index none = (pos bin_array_bitmap_size, false)
above_start start_index (some tz) = (start_index +ℤ pos tz, true)

-- For a start between -512 and 511, as the caller checks.
unfoldable pub next_bin_array_index_with_liquidity : List ℕ → Bool → ℤ → ℤ × Bool
unfolding bitmap_shl bitmap_shr bitmap_leading_zeros bitmap_trailing_zeros
next_bin_array_index_with_liquidity bitmap swap_for_y start_index =
    let offset = pos_part (start_index +ℤ pos bin_array_bitmap_size) in
    if swap_for_y
    then below_start start_index (bitmap_leading_zeros (bitmap_shl bitmap (1023 - offset)))
    else above_start start_index (bitmap_trailing_zeros (bitmap_shr bitmap offset))
