-- ===== src/Dlmm/Ranges.antt =====
-- Bin ids and bin arrays in crates/meteora-dlmm/src/quote.rs: an id is in the range of exactly the
-- array of its index.
use solana_dex_aggregator.Prelude.{◌≤◌, ◌≡◌, sym, ◌∙◌, subst, refl, ◌↔◌, Bool, true, arith, ◌&&◌}
use solana_dex_aggregator.Prelude.Signed.{
  ℤ, pos, negsuc, pos_part, neg_part, ◌+ℤ◌, leb_ℤ, scale, div_euclid, as_i32, as_i32_small,
}
use solana_dex_aggregator.Dlmm.{
  BinArray, bin_id_to_bin_array_index, lower_upper_bin_id, is_bin_id_within_range,
}

-- The indices whose range an i32 can hold.
abbrev pub IsIndex : ℤ → Type 0
IsIndex index = (pos_part index ≤ 30_000_000) × (neg_part index ≤ 30_000_000)

as_i32_index : (index : ℤ) → IsIndex index → as_i32 index ≡ index
as_i32_index index h = as_i32_small index (omega arith, omega arith)

lower_fits : (index : ℤ) → IsIndex index → as_i32 (scale 70 index) ≡ scale 70 index
unfolding scale
lower_fits (pos n) h = as_i32_small _ (ground arith)
lower_fits (negsuc n) h = as_i32_small _ (ground arith)

upper_fits :
    (index : ℤ) → IsIndex index → as_i32 (scale 70 index +ℤ pos 69) ≡ scale 70 index +ℤ pos 69
unfolding scale ◌+ℤ◌
upper_fits (pos n) h = as_i32_small _ (ground arith)
upper_fits (negsuc n) h = as_i32_small _ (ground arith)

-- Of such an index the range is the seventy ids from 70 times the index up.
pub lower_upper_bin_id_lem :
    (index : ℤ)
    → IsIndex index
    → lower_upper_bin_id index ≡ (scale 70 index, scale 70 index +ℤ pos 69)
unfolding lower_upper_bin_id
lower_upper_bin_id_lem index h = rw (lower_fits index h, upper_fits index h) refl

abbrev in_seventy : ℤ → ℤ → Bool
in_seventy index bin_id = leb_ℤ (scale 70 index) bin_id && leb_ℤ bin_id (scale 70 index +ℤ pos 69)

in_seventy_sound :
    (index bin_id : ℤ) → in_seventy index bin_id ≡ true → div_euclid bin_id 70 ≡ index
unfolding scale ◌+ℤ◌ div_euclid
in_seventy_sound (pos n) (pos m) h = ground arith
in_seventy_sound (pos n) (negsuc m) h = ground arith
in_seventy_sound (negsuc n) (pos m) h = ground arith
in_seventy_sound (negsuc n) (negsuc m) h = ground arith

in_seventy_complete : (bin_id : ℤ) → in_seventy (div_euclid bin_id 70) bin_id ≡ true
unfolding scale ◌+ℤ◌ div_euclid
in_seventy_complete (pos m) = ground arith
in_seventy_complete (negsuc m) = ground arith

within_lem :
    (array : BinArray) (bin_id : ℤ)
    → IsIndex array.index
    → is_bin_id_within_range array bin_id ≡ in_seventy array.index bin_id
unfolding is_bin_id_within_range
within_lem array bin_id h =
    rw (as_i32_index array.index h, lower_fits array.index h, upper_fits array.index h) refl

-- For an array with an index between -30 000 000 and 30 000 000, an id is in the array's range
-- exactly when the array's index is the id's.
pub is_bin_id_within_range_iff :
    (array : BinArray) (bin_id : ℤ)
    → IsIndex array.index
    → (is_bin_id_within_range array bin_id ≡ true)
      ↔ (bin_id_to_bin_array_index bin_id ≡ array.index)
unfolding bin_id_to_bin_array_index
is_bin_id_within_range_iff array bin_id h = (
  λ e. in_seventy_sound array.index bin_id (sym (within_lem array bin_id h) ∙ e),
  λ e.
      within_lem array bin_id h
      ∙ subst (λ i. in_seventy i bin_id ≡ true) e (in_seventy_complete bin_id),
)
