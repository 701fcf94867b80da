-- ===== src/Dlmm/Quote/Fuel.antt =====
-- The loop over the bins of an array in crates/meteora-dlmm/src/quote.rs ends within 71 rounds.
use solana_dex_aggregator.Prelude.{
  ℕ, zero, suc, ◌+◌, ◌≤◌, ◌<◌, ◌≡◌, ◌≢◌, sym, refl, inl, inr, Bool-cases, Bool, true, false, Option,
  none, some, arith, ltb, leb→le, ◌&&◌,
}
use solana_dex_aggregator.Prelude.Signed.{
  ℤ, pos, negsuc, pos_part, neg_part, ◌+ℤ◌, ◌-ℤ◌, ◌≤ℤ◌, as_i32, FitsI32, as_i32-FitsI32, -ℤ_parts,
  +ℤ_parts, one_part, scale,
}
use solana_dex_aggregator.Dlmm.{
  MeteoraDlmmPool, Bin, BinArray, lower_upper_bin_id, is_bin_id_within_range, get_bin,
  max_bin_per_array,
}
use solana_dex_aggregator.Dlmm.Quote.{
  Progress, BinsWalk, out_of_fuel, next_id, in_bounds, move_on, at_bin, visit_bin, walk_bins,
  bins_fuel,
}

bounds : BinArray → ℤ × ℤ
bounds array = lower_upper_bin_id (as_i32 array.index)

-- The bins that lie ahead within the range.
room : BinArray → Bool → ℤ → ℕ
room array true id = pos_part (id -ℤ (bounds array).0)
room array false id = pos_part ((bounds array).1 -ℤ id)

upper-le : (a : ℤ) → FitsI32 a → as_i32 (a +ℤ pos 69) ≤ℤ a +ℤ pos 69
unfolding as_i32 ◌+ℤ◌
upper-le (pos n) h = ground arith
upper-le (negsuc n) h = ground arith

bounds_lem :
    (array : BinArray)
    → FitsI32 (bounds array).0
      × FitsI32 (bounds array).1
      × ((bounds array).1 ≤ℤ (bounds array).0 +ℤ pos 69)
unfolding bounds lower_upper_bin_id
bounds_lem array =
    let lower = as_i32-FitsI32 (scale max_bin_per_array (as_i32 array.index)) in
    (lower, as_i32-FitsI32 _, upper-le _ lower)

both_true : (a b : Bool) → (a && b) ≡ true → (a ≡ true) × (b ≡ true)
both_true true true h = (refl, refl)
both_true true false h = cc
both_true false b h = cc

in_range :
    (array : BinArray) (id : ℤ)
    → is_bin_id_within_range array id ≡ true
    → ((bounds array).0 ≤ℤ id) × (id ≤ℤ (bounds array).1)
unfolding is_bin_id_within_range bounds
in_range array id h = let (l, u) = both_true _ _ h in (leb→le _ _ l, leb→le _ _ u)

-- Within an i32 a step that stays in bounds does not wrap.
step_down :
    (a : ℤ) → FitsI32 a → in_bounds (as_i32 (a -ℤ pos 1)) ≡ true → as_i32 (a -ℤ pos 1) ≡ a -ℤ pos 1
unfolding as_i32 ◌-ℤ◌
step_down (pos n) h b = ground arith
step_down (negsuc n) h b = ground arith

step_up :
    (a : ℤ) → FitsI32 a → in_bounds (as_i32 (a +ℤ pos 1)) ≡ true → as_i32 (a +ℤ pos 1) ≡ a +ℤ pos 1
unfolding as_i32 ◌+ℤ◌
step_up (pos n) h b = ground arith
step_up (negsuc n) h b = ground arith

difference : (a b : ℤ) → b ≤ℤ a → neg_part (a -ℤ b) ≡ 0
unfolding ◌-ℤ◌
difference a b h = ground arith

between : (a l u : ℤ) → FitsI32 l → FitsI32 u → l ≤ℤ a → a ≤ℤ u → FitsI32 a
between (pos n) l u hl hu p q = ground (arith, one_part u)
between (negsuc n) l u hl hu p q = ground (arith, one_part l)

in_range-FitsI32 : (array : BinArray) (id : ℤ) → is_bin_id_within_range array id ≡ true → FitsI32 id
in_range-FitsI32 array id h =
    let (l, u) = in_range array id h in let b = bounds_lem array in between id _ _ b.0 b.1 l u

room-le :
    (array : BinArray) (swap_for_y : Bool) (id : ℤ)
    → is_bin_id_within_range array id ≡ true
    → room array swap_for_y id ≤ 69
unfolding room
room-le array true id h =
    let (l, u) = in_range array id h in
    let b = (bounds_lem array).2 in
    omega (
      arith,
      difference id _ l,
      -ℤ_parts id (bounds array).0,
      +ℤ_parts (bounds array).0 (pos 69),
      u,
      b,
    )
room-le array false id h =
    let (l, u) = in_range array id h in
    let b = (bounds_lem array).2 in
    omega (
      arith,
      difference _ id u,
      -ℤ_parts (bounds array).1 id,
      +ℤ_parts (bounds array).0 (pos 69),
      l,
      b,
    )

-- One step on within the range leaves less room.
room-next :
    (array : BinArray) (swap_for_y : Bool) (id : ℤ)
    → is_bin_id_within_range array id ≡ true
    → in_bounds (next_id swap_for_y id) ≡ true
    → is_bin_id_within_range array (next_id swap_for_y id) ≡ true
    → room array swap_for_y (next_id swap_for_y id) < room array swap_for_y id
unfolding room
room-next array true id h b k =
    let exact = step_down id (in_range-FitsI32 array id h) b in
    let (l, u) = in_range array id h in
    let (l', u') = in_range array (id -ℤ pos 1) (rw (sym exact) k) in
    rw exact (
      omega (
        arith,
        -ℤ_parts id (bounds array).0,
        -ℤ_parts (id -ℤ pos 1) (bounds array).0,
        -ℤ_parts id (pos 1),
        difference id _ l,
        difference (id -ℤ pos 1) _ l',
      ))
room-next array false id h b k =
    let exact = step_up id (in_range-FitsI32 array id h) b in
    let (l, u) = in_range array id h in
    let (l', u') = in_range array (id +ℤ pos 1) (rw (sym exact) k) in
    rw exact (
      omega (
        arith,
        -ℤ_parts (bounds array).1 id,
        -ℤ_parts (bounds array).1 (id +ℤ pos 1),
        +ℤ_parts id (pos 1),
        difference _ id u,
        difference _ (id +ℤ pos 1) u',
      ))

abbrev Ends : BinsWalk → Type 0
Ends w = w ≢ out_of_fuel

move_on-Ends :
    (swap_for_y : Bool) (id : ℤ) (rest : ℤ → Progress → BinsWalk) (o : Option Progress)
    → ((p : Progress) → ltb 0 p.0 ≡ false → Ends (rest id p))
    → ((p : Progress)
        → in_bounds (next_id swap_for_y id) ≡ true
        → Ends (rest (next_id swap_for_y id) p))
    → Ends (move_on swap_for_y id rest o)
move_on-Ends swap_for_y id rest none stop go = λ e. cc
move_on-Ends swap_for_y id rest (some (left, total)) stop go = elim (Bool-cases (ltb 0 left)) [
  | inr used_up ↦ rw used_up (stop (left, total) used_up)
  | inl some_left ↦ elim (Bool-cases (in_bounds (next_id swap_for_y id))) [
    | inl inside ↦ rw (some_left, inside) (go (left, total) inside)
    | inr outside ↦ rw (some_left, outside) (λ e. cc)
  ]
]

at_bin-Ends :
    (pool : MeteoraDlmmPool) (swap_for_y : Bool) (id : ℤ) (rest : ℤ → Progress → BinsWalk)
    (bin : Option Bin) (p : Progress)
    → ((p : Progress) → ltb 0 p.0 ≡ false → Ends (rest id p))
    → ((p : Progress)
        → in_bounds (next_id swap_for_y id) ≡ true
        → Ends (rest (next_id swap_for_y id) p))
    → Ends (at_bin pool swap_for_y id rest bin p)
at_bin-Ends pool swap_for_y id rest none p stop go = λ e. cc
at_bin-Ends pool swap_for_y id rest (some bin) p stop go =
    move_on-Ends swap_for_y id rest (visit_bin pool swap_for_y id bin p) stop go

-- The loop ends at once when its test fails.
stopped :
    (n : ℕ) (pool : MeteoraDlmmPool) (swap_for_y : Bool) (array : BinArray) (id : ℤ) (p : Progress)
    → (ltb 0 p.0 && is_bin_id_within_range array id) ≡ false
    → Ends (walk_bins (suc n) pool swap_for_y array id p)
unfolding walk_bins
stopped n pool swap_for_y array id p h = rw h (λ e. cc)

no_input : (a b : Bool) → a ≡ false → (a && b) ≡ false
no_input true b h = cc
no_input false b h = refl

no_range : (a b : Bool) → b ≡ false → (a && b) ≡ false
no_range true b h = h
no_range false b h = refl

module _ (pool : MeteoraDlmmPool) (swap_for_y : Bool) (array : BinArray) where
  -- The measure is the room that is left.
  walk_bins-Ends :
      (n : ℕ) (id : ℤ) (p : Progress)
      → (is_bin_id_within_range array id ≡ true → room array swap_for_y id + 1 ≤ n)
      → Ends (walk_bins (suc n) pool swap_for_y array id p)
  unfolding walk_bins
  walk_bins-Ends zero id p enough = elim (Bool-cases (is_bin_id_within_range array id)) [
    | inl inside ↦ absurd (omega (arith, enough inside))
    | inr outside ↦ stopped zero pool swap_for_y array id p (no_range _ _ outside)
  ]
  walk_bins-Ends (suc n) id p enough =
      elim (Bool-cases (ltb 0 p.0 && is_bin_id_within_range array id)) [
        | inr ended ↦ stopped (suc n) pool swap_for_y array id p ended
        | inl going ↦
            let inside : is_bin_id_within_range array id ≡ true =
              (both_true (ltb 0 p.0) _ going).1 in
            rw going (
              at_bin-Ends pool swap_for_y id (walk_bins (suc n) pool swap_for_y array)
                (get_bin array id) p
                (λ q used_up. stopped n pool swap_for_y array id q (no_input _ _ used_up))
                (λ q b.
                  walk_bins-Ends n (next_id swap_for_y id) q
                    (λ k. omega (arith, enough inside, room-next array swap_for_y id inside b k))))
      ]

-- Within 71 rounds the walk over the bins of any array ends, from every id and with every input.
pub walk_bins-ends :
    (pool : MeteoraDlmmPool) (swap_for_y : Bool) (array : BinArray) (active_id : ℤ) (p : Progress)
    → walk_bins bins_fuel pool swap_for_y array active_id p ≢ out_of_fuel
walk_bins-ends pool swap_for_y array active_id p =
    walk_bins-Ends pool swap_for_y array 70 active_id p
      (λ h. omega (arith, room-le array swap_for_y active_id h))
