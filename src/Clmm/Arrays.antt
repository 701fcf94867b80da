-- ===== src/Clmm/Arrays.antt =====
-- The tick arrays of crates/raydium-clmm/src/quote.rs: their accounts and the search for an initialized
-- tick. A tick spacing of 0, at which the code divides by zero, is left out.
use solana_dex_aggregator.Prelude.{
  ℕ, zero, suc, ◌+◌, ◌*◌, ◌/◌, Bool, not, Option, none, some, List, [], ◌∷◌, ltb, ◌==◌,
  if◌then◌else◌, length, take, drop, get_elem?,
}
use solana_dex_aggregator.Prelude.Signed.{ℤ, pos_part, ◌-ℤ◌, eq_ℤ, scale, div_euclid, as_i32}
use solana_dex_aggregator.Core.{Bytes}
use solana_dex_aggregator.Clmm.{le_number, signed}

abbrev pub tick_array_size : ℕ
tick_array_size = 60

abbrev pub tick_len : ℕ
tick_len = 168

pub record TickInfo : Type 0 where
  pub tick : ℤ
  pub liquidity_net : ℤ
  pub liquidity_gross : ℕ

pub record ClmmTickArray : Type 0 where
  pub start_tick_index : ℤ
  pub ticks : List TickInfo

abbrev pub field : Bytes → ℕ → ℕ → ℕ
field bytes offset len = le_number (take len (drop offset bytes))

abbrev pub parse_tick : Bytes → ℕ → TickInfo
parse_tick bytes offset = record {
  tick = signed 32 (field bytes offset 4);
  liquidity_net = signed 128 (field bytes (offset + 4) 16);
  liquidity_gross = field bytes (offset + 20) 16;
}

-- The ticks from the `i`-th on, `n` of them.
abbrev pub parse_ticks : ℕ → ℕ → Bytes → List TickInfo
parse_ticks zero i bytes = []
parse_ticks (suc n) i bytes = parse_tick bytes (44 + i * tick_len) ∷ parse_ticks n (i + 1) bytes

unfoldable pub from_account_bytes : Bytes → Option ClmmTickArray
from_account_bytes bytes =
    if ltb (length bytes) (8 + 32 + 4 + 60 * tick_len)
    then none
    else some
        (record { start_tick_index = signed 32 (field bytes 40 4); ticks = parse_ticks 60 0 bytes })

unfoldable pub array_start_index : ℤ → ℕ → ℤ
array_start_index tick_index tick_spacing =
    let ticks_in_array = tick_array_size * tick_spacing in
    as_i32 (scale ticks_in_array (div_euclid tick_index ticks_in_array))

-- The last initialized tick among the first `n`.
abbrev pub last_initialized : ℕ → List TickInfo → Option TickInfo
last_initialized zero ticks = none
last_initialized (suc n) ticks =
    let rest = last_initialized n ticks in
    elim (get_elem? ticks n) [
      | none ↦ none
      | some t ↦ if t.liquidity_gross == 0 then rest else some t
    ]

abbrev pub first_initialized : List TickInfo → Option TickInfo
first_initialized [] = none
first_initialized (t ∷ ts) = if t.liquidity_gross == 0 then first_initialized ts else some t

unfoldable pub next_initialized_tick : ClmmTickArray → ℤ → ℕ → Bool → Option TickInfo
unfolding array_start_index
next_initialized_tick array current_tick tick_spacing zero_for_one =
    let offset = pos_part (current_tick -ℤ array.start_tick_index) / tick_spacing in
    if not (eq_ℤ (array_start_index current_tick tick_spacing) array.start_tick_index)
    then none
    else if zero_for_one
    then last_initialized (offset + 1) array.ticks
    else first_initialized (drop (offset + 1) array.ticks)

unfoldable pub first_initialized_tick : ClmmTickArray → Bool → Option TickInfo
first_initialized_tick array zero_for_one =
    if zero_for_one
    then last_initialized (length array.ticks) array.ticks
    else first_initialized array.ticks
