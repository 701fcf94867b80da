-- ===== src/Dlmm/Fill/Charge.antt =====
-- A quote at one bin in crates/meteora-dlmm/src/quote.rs, fees included: what it uses up of its input
-- and what it gives.
use native.Mathlib.Nat.{le_trans}
use solana_dex_aggregator.Prelude.{
  ℕ, ◌+◌, ◌^◌, ◌≤◌, ◌<◌, ◌≡◌, sym, ◌∙◌, subst, inl, inr, Bool-cases, Bool, true, false, some, arith,
  ltb, if◌then◌else◌, fits_small, checked_sub, checked_sub-eq-some, u64_mod, sat_add64,
}
use solana_dex_aggregator.Prelude.Results.{>>=-eq-some, some_inj}
use solana_dex_aggregator.Dlmm.{Bin}
use solana_dex_aggregator.Dlmm.Fees.{FeeState, max_fee_rate, compute_fee_from_amount}
use solana_dex_aggregator.Dlmm.Fees.Rates.{ceil_fee, compute_fee_from_amount_lem, compute_fee_back}
use solana_dex_aggregator.Dlmm.Fill.{
  BinFill, fill_at_price, limit_order_amounts, limit_order_layers, mm_amount,
  max_amount_out_with_limit_orders, net_input, consumed_input, net_output, quote_at_bin,
}
use solana_dex_aggregator.Dlmm.Fill.Fair.{IsFair, IsFair-more}
use solana_dex_aggregator.Dlmm.Fill.Layers.{
  IsFill-IsLayered, fill_at_price-IsFill, limit_order_layers-IsLayered,
}

-- The amounts of a bin are u64 values and its price is a u128.
pub record BinFits (bin : Bin) : Type 0 where
  pub x : bin.amount_x < 2 ^ 64
  pub y : bin.amount_y < 2 ^ 64
  pub price : bin.price < 2 ^ 128
  pub open_amount : bin.open_order_amount < 2 ^ 64
  pub processed : bin.processed_order_remaining_amount < 2 ^ 64

mm_fits : (bin : Bin) (swap_for_y : Bool) → BinFits bin → mm_amount bin swap_for_y < 2 ^ 64
mm_fits bin true h = h.y
mm_fits bin false h = h.x

orders_fit :
    (bin : Bin) (swap_for_y : Bool)
    → BinFits bin
    → ((limit_order_amounts bin swap_for_y).0 < 2 ^ 64)
      × ((limit_order_amounts bin swap_for_y).1 < 2 ^ 64)
unfolding limit_order_amounts
orders_fit bin true h = ground (arith, h.open_amount, h.processed)
orders_fit bin false h = ground (arith, h.open_amount, h.processed)

-- A u64 that is at most the sum of the offers is at most the saturating sum.
capped :
    (bin : Bin) (swap_for_y support_lo : Bool) (out : ℕ)
    → out < 2 ^ 64
    → out ≤ (
        if support_lo
        then mm_amount bin swap_for_y
          + (limit_order_amounts bin swap_for_y).1
          + (limit_order_amounts bin swap_for_y).0
        else mm_amount bin swap_for_y)
    → out ≤ max_amount_out_with_limit_orders bin swap_for_y support_lo
unfolding max_amount_out_with_limit_orders sat_add64
capped bin swap_for_y true out h k = omega arith
capped bin swap_for_y false out h k = k

-- The net input and the fee make up the gross input.
net_input-eq-some :
    (fee : FeeState) (in_amount : ℕ) (fee_input : Bool) {net : ℕ}
    → fee.total_fee_rate ≤ max_fee_rate
    → in_amount < 2 ^ 64
    → net_input fee in_amount fee_input ≡ some net
    → net + (if fee_input then ceil_fee fee.total_fee_rate in_amount else 0) ≡ in_amount
unfolding net_input
net_input-eq-some fee in_amount true h k e =
    let taken =
      checked_sub-eq-some in_amount (ceil_fee fee.total_fee_rate in_amount)
        (rw (compute_fee_from_amount_lem fee in_amount h k) at e) in
    omega (arith, taken.0)
net_input-eq-some fee in_amount false h k e = omega (arith, some_inj e)

consumed_input-le :
    (fee : FeeState) (in_amount net total_in left : ℕ) (fee_input : Bool) {consumed : ℕ}
    → fee.total_fee_rate ≤ max_fee_rate
    → in_amount < 2 ^ 64
    → net + (if fee_input then ceil_fee fee.total_fee_rate in_amount else 0) ≡ in_amount
    → total_in ≤ net
    → consumed_input fee in_amount total_in left fee_input ≡ some consumed
    → (total_in ≤ consumed) × (consumed ≤ in_amount)
unfolding consumed_input
consumed_input-le fee in_amount net total_in left true {consumed} h k n le e =
    elim (Bool-cases (ltb 0 left)) [
      | inl some_left ↦
          let (f, added, back) =
            compute_fee_back fee in_amount total_in h k (omega (arith, n, le)) in
          let same : some (total_in + f) ≡ some consumed =
            sym (fits_small u64_mod (total_in + f) (omega (arith, back, k)))
            ∙ rw (some_left, added) at e in
          omega (arith, some_inj same, back)
      | inr used_up ↦ omega (arith, some_inj (rw used_up at e), n, le)
    ]
consumed_input-le fee in_amount net total_in left false h k n le e =
    elim (Bool-cases (ltb 0 left)) [
      | inl some_left ↦ omega (arith, some_inj (rw some_left at e), n, le)
      | inr used_up ↦ omega (arith, some_inj (rw used_up at e), n, le)
    ]

net_output-le :
    (fee : FeeState) (total_out : ℕ) (fee_input : Bool) {out : ℕ}
    → net_output fee total_out fee_input ≡ some out
    → out ≤ total_out
unfolding net_output
net_output-le fee total_out true e = omega (arith, some_inj e)
net_output-le fee total_out false e =
    let (f, _, e1) = >>=-eq-some (compute_fee_from_amount fee total_out) _ e in
    omega (arith, checked_sub-eq-some total_out f e1)

-- What a quote at a bin keeps to.
pub record IsBinFill (bin : Bin) (in_amount : ℕ) (swap_for_y support_lo : Bool) (fill : BinFill)
    : Type 0 where
  pub affordable : fill.amount_in_consumed ≤ in_amount
  pub available : fill.amount_out ≤ max_amount_out_with_limit_orders bin swap_for_y support_lo
  pub fair : IsFair swap_for_y bin.price fill.amount_in_consumed fill.amount_out

-- At a fee rate of at most a tenth, a quote for a u64 input at one bin uses up at most the input,
-- gives at most what the bin holds with its limit orders, and gives at most what the used input is
-- worth at the bin's price, on whichever side the fee is taken.
pub quote_at_bin-IsBinFill :
    (bin : Bin) (fee : FeeState) (in_amount : ℕ) (swap_for_y support_lo fee_input : Bool)
    {fill : BinFill}
    → BinFits bin
    → fee.total_fee_rate ≤ max_fee_rate
    → in_amount < 2 ^ 64
    → quote_at_bin bin fee in_amount swap_for_y support_lo fee_input ≡ some fill
    → IsBinFill bin in_amount swap_for_y support_lo fill
unfolding quote_at_bin
quote_at_bin-IsBinFill bin fee in_amount swap_for_y support_lo fee_input {fill} b h k e =
    let (net, e_net, e1) = >>=-eq-some (net_input fee in_amount fee_input) _ e in
    let offered = mm_amount bin swap_for_y in
    let (mm, e_mm, e2) = >>=-eq-some (fill_at_price bin net offered swap_for_y) _ e1 in
    let (totals, e_totals, e3) =
      >>=-eq-some
        (limit_order_layers bin swap_for_y support_lo (mm.amount_in, mm.out_amount, mm.amount_left))
        _ e2 in
    let (left, e_left, e4) = >>=-eq-some (checked_sub net totals.0) _ e3 in
    let (consumed, e_consumed, e5) =
      >>=-eq-some (consumed_input fee in_amount totals.0 left fee_input) _ e4 in
    let (out, e_out, e6) = >>=-eq-some (net_output fee totals.1 fee_input) _ e5 in
    let whole = net_input-eq-some fee in_amount fee_input h k e_net in
    let net_fits : net < 2 ^ 64 = omega (arith, whole, k) in
    let small = mm_fits bin swap_for_y b in
    let orders = orders_fit bin swap_for_y b in
    let first =
      IsFill-IsLayered bin swap_for_y net offered mm small
        (fill_at_price-IsFill bin net offered swap_for_y b.price net_fits small e_mm) in
    let all =
      limit_order_layers-IsLayered bin swap_for_y net b.price net_fits support_lo offered
        (mm.amount_in, mm.out_amount, mm.amount_left) orders.0 orders.1 first e_totals in
    let used =
      consumed_input-le fee in_amount net totals.0 left fee_input h k whole
        (omega (arith, all.split)) e_consumed in
    let given = net_output-le fee totals.1 fee_input e_out in
    subst (IsBinFill bin in_amount swap_for_y support_lo) (some_inj e6) (record {
      affordable = used.1;
      available =
          capped bin swap_for_y support_lo out (omega (arith, given, all.word))
            (le_trans given all.within);
      fair = IsFair-more swap_for_y bin.price totals.0 totals.1 consumed out all.fair used.0 given;
    })
