-- ===== src/Dlmm/Fill.antt =====
-- The exchange at one bin's price in crates/meteora-dlmm/src/quote.rs: what the market makers hold,
-- then the limit orders that are processed, then those that are open.
pub mod Fair
pub mod Layers
pub mod Charge
use solana_dex_aggregator.Prelude.{
  ℕ, ◌+◌, ◌-◌, Bool, true, false, not, Option, none, some, ltb, leb, ◌==◌, ◌&&◌, ◌||◌,
  if◌then◌else◌, fits, checked_sub, sat_add64, u64_mod,
}
use solana_dex_aggregator.Prelude.Results.{◌>>=◌, ◌>>◌}
use solana_dex_aggregator.Dlmm.{Bin}
use solana_dex_aggregator.Dlmm.Math.{up, down, get_amount_in, get_amount_out}
use solana_dex_aggregator.Dlmm.Fees.{FeeState, compute_fee, compute_fee_from_amount}

-- The open and the processed amount, in the direction that the orders serve.
unfoldable pub limit_order_amounts : Bin → Bool → ℕ × ℕ
limit_order_amounts bin swap_for_y =
    let is_ask_side = not (bin.limit_order_ask_side == 0) in
    if (swap_for_y && not is_ask_side) || (not swap_for_y && is_ask_side)
    then (bin.open_order_amount, bin.processed_order_remaining_amount)
    else (0, 0)

abbrev pub mm_amount : Bin → Bool → ℕ
mm_amount bin swap_for_y = if swap_for_y then bin.amount_y else bin.amount_x

unfoldable pub max_amount_out_with_limit_orders : Bin → Bool → Bool → ℕ
unfolding limit_order_amounts
max_amount_out_with_limit_orders bin swap_for_y support_lo =
    let mm = mm_amount bin swap_for_y in
    let (open_amount, processed) = limit_order_amounts bin swap_for_y in
    if support_lo then sat_add64 (sat_add64 mm open_amount) processed else mm

pub record FillResult : Type 0 where
  pub amount_in : ℕ
  pub amount_left : ℕ
  pub out_amount : ℕ

-- The whole of what is offered, or what the amount buys.
abbrev pub fill_whole : ℕ → ℕ → ℕ → Option FillResult
fill_whole amount max_amount_in max_amount_out = do
  left ← checked_sub amount max_amount_in
  some (record { amount_in = max_amount_in; amount_left = left; out_amount = max_amount_out })

abbrev pub fill_part : Bin → ℕ → Bool → Option FillResult
fill_part bin amount swap_for_y = do
  out ← get_amount_out amount bin.price swap_for_y down
  some (record { amount_in = amount; amount_left = 0; out_amount = out })

unfoldable pub fill_at_price : Bin → ℕ → ℕ → Bool → Option FillResult
unfolding get_amount_in get_amount_out
fill_at_price bin amount max_amount_out swap_for_y =
    let filled : Option FillResult = do
      max_in ← get_amount_in max_amount_out bin.price swap_for_y up
      (if leb max_in amount
          then fill_whole amount max_in max_amount_out
          else fill_part bin amount swap_for_y)
    in if max_amount_out == 0
      then some (record { amount_in = 0; amount_left = amount; out_amount = 0 })
      else filled

pub record BinFill : Type 0 where
  pub amount_in_consumed : ℕ
  pub amount_out : ℕ

-- The input and the output so far, and what is left of the input.
abbrev pub Totals : Type 0
Totals = ℕ × ℕ × ℕ

-- One more layer, where something is left.
unfoldable pub add_layer : Bin → Bool → ℕ → Totals → Option Totals
unfolding fill_at_price
add_layer bin swap_for_y offered (total_in, total_out, left) =
    let layered : Option Totals = do
      fill ← fill_at_price bin left offered swap_for_y
      in' ← fits u64_mod (total_in + fill.amount_in)
      out' ← fits u64_mod (total_out + fill.out_amount)
      some (in', out', fill.amount_left)
    in if ltb 0 left then layered else some (total_in, total_out, left)

unfoldable pub limit_order_layers : Bin → Bool → Bool → Totals → Option Totals
unfolding add_layer limit_order_amounts
limit_order_layers bin swap_for_y support_lo totals =
    let (open_amount, processed) = limit_order_amounts bin swap_for_y in
    let layers : Option Totals = do
      totals' ← add_layer bin swap_for_y processed totals
      add_layer bin swap_for_y open_amount totals'
    in if support_lo then layers else some totals

-- The input before the exchange, without the fee where it is taken from the input.
unfoldable pub net_input : FeeState → ℕ → Bool → Option ℕ
unfolding compute_fee_from_amount
net_input fee in_amount fee_input =
    let less_fee : Option ℕ = do f ← compute_fee_from_amount fee in_amount; checked_sub in_amount f
    in if fee_input then less_fee else some in_amount

-- The gross input that is used up.
unfoldable pub consumed_input : FeeState → ℕ → ℕ → ℕ → Bool → Option ℕ
unfolding compute_fee
consumed_input fee in_amount total_in amount_left fee_input =
    let with_fee : Option ℕ = do f ← compute_fee fee total_in; fits u64_mod (total_in + f)
    in if ltb 0 amount_left then if fee_input then with_fee else some total_in else some in_amount

-- The output, without the fee where it is taken from the output.
unfoldable pub net_output : FeeState → ℕ → Bool → Option ℕ
unfolding compute_fee_from_amount
net_output fee total_out fee_input =
    let less_fee : Option ℕ = do f ← compute_fee_from_amount fee total_out; checked_sub total_out f
    in if fee_input then some total_out else less_fee

-- The pool that the code passes is not read.
unfoldable pub quote_at_bin : Bin → FeeState → ℕ → Bool → Bool → Bool → Option BinFill
unfolding net_input fill_at_price limit_order_layers consumed_input net_output
quote_at_bin bin fee in_amount swap_for_y support_lo fee_input = do
  excluded_fee_amount_in ← net_input fee in_amount fee_input
  mm_fill ← fill_at_price bin excluded_fee_amount_in (mm_amount bin swap_for_y) swap_for_y
  totals ←
      limit_order_layers bin swap_for_y support_lo
        (mm_fill.amount_in, mm_fill.out_amount, mm_fill.amount_left)
  amount_left ← checked_sub excluded_fee_amount_in totals.0
  consumed ← consumed_input fee in_amount totals.0 amount_left fee_input
  out ← net_output fee totals.1 fee_input
  some (record { amount_in_consumed = consumed; amount_out = out })
