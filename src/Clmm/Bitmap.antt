-- ===== src/Clmm/Bitmap.antt =====
-- The bitmap of tick arrays of crates/raydium-clmm/src/quote.rs: sixteen u64 limbs, one bit for each array
-- from the one at -512 up.
pub mod Nearest
use solana_dex_aggregator.Prelude.{
  ℕ, zero, suc, ◌+◌, ◌-◌, ◌*◌, ◌/◌, ◌%◌, ◌^◌, Bool, true, false, Option, none, some, List, ltb,
  ◌==◌, ◌&&◌, if◌then◌else◌, get_elem?,
}
use solana_dex_aggregator.Prelude.Maps.{or_else}
use solana_dex_aggregator.Prelude.Signed.{
  ℤ, pos, pos_part, ◌+ℤ◌, leb_ℤ, ltb_ℤ, scale, sub_ℕ, div_euclid, as_i32,
}

-- `bitmap[off / 64] & (1 << (off % 64)) != 0`
abbrev pub is_set : List ℕ → ℕ → Bool
is_set bitmap off = or_else 0 (get_elem? bitmap (off / 64)) / 2 ^ (off % 64) % 2 == 1

-- The loop down from the offset below `n`.
unfoldable pub search_down : List ℕ → ℕ → Option ℕ
search_down bitmap zero = none
search_down bitmap (suc off) =
    let rest = search_down bitmap off in if is_set bitmap off then some off else rest

-- The loop up from the offset, with the offsets that are left.
unfoldable pub search_up : List ℕ → ℕ → ℕ → Option ℕ
search_up bitmap zero off = none
search_up bitmap (suc n) off =
    let rest = search_up bitmap n (off + 1) in if is_set bitmap off then some off else rest

abbrev pub start_of : ℕ → Option ℕ → Option ℤ
start_of ticks_in_array none = none
start_of ticks_in_array (some off) = some (as_i32 (scale ticks_in_array (sub_ℕ off 512)))

unfoldable pub next_bitmap_array_start : List ℕ → ℤ → ℕ → Bool → Option ℤ
unfolding search_down search_up
next_bitmap_array_start bitmap start_index ticks_in_array zero_for_one =
    let offset = div_euclid start_index ticks_in_array +ℤ pos 512 in
    let off = pos_part offset in
    if leb_ℤ (pos 0) offset && ltb_ℤ offset (pos 1024)
    then start_of ticks_in_array
        (if zero_for_one then search_down bitmap (off + 1) else search_up bitmap (1024 - off) off)
    else none
