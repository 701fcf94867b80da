-- ===== src/Dlmm/Quote/Trades.antt =====
-- A quote of crates/meteora-dlmm/src/quote.rs as a sequence of trades, each at one bin of an array that
-- the callback supplied, and each within what is left of the input.
use solana_dex_aggregator.Prelude.{
  ℕ, zero, suc, ◌+◌, ◌^◌, ◌≤◌, ◌<◌, ◌≡◌, sym, subst, refl, inl, inr, Bool-cases, Bool, Option, none,
  some, List, [], ◌∷◌, All, arith, ltb, ◌==◌, ◌&&◌, fits, fits-eq-some, checked_sub,
  checked_sub-eq-some, get_elem?, u64_mod,
}
use solana_dex_aggregator.Prelude.Results.{>>=-eq-some, some_inj}
use solana_dex_aggregator.Prelude.Signed.{ℤ}
use solana_dex_aggregator.Dlmm.{MeteoraDlmmPool, Bin, BinArray, get_bin, is_bin_id_within_range}
use solana_dex_aggregator.Dlmm.Math.{get_price_from_id}
use solana_dex_aggregator.Dlmm.Fees.{
  FeeState, total_fee_rate, volatility_accumulator_for_bin, is_support_limit_order, fee_on_input,
}
use solana_dex_aggregator.Dlmm.Math.Words.{get_price_from_id-lt}
use solana_dex_aggregator.Dlmm.Fees.Rates.{total_fee_rate-le}
use solana_dex_aggregator.Dlmm.Fill.{BinFill, quote_at_bin, max_amount_out_with_limit_orders}
use solana_dex_aggregator.Dlmm.Fill.Charge.{BinFits, IsBinFill, quote_at_bin-IsBinFill}
use solana_dex_aggregator.Dlmm.Quote.{
  Progress, BinsWalk, failed, returned, walked, out_of_fuel, priced, take_fill, fill_bin, visit_bin,
  move_on, at_bin, walk_bins, next_id, in_bounds,
}

-- Every bin of the array holds machine words.
abbrev pub ArrayFits : BinArray → Type 0
ArrayFits array = All BinFits array.bins

module _ (pool : MeteoraDlmmPool) (swap_for_y : Bool) (Supplied : BinArray → Type 0) where
  -- The bin with its id, as an array that was supplied has it, at its price.
  pub record Offer (id : ℤ) (bin : Bin) : Type 0 where
    pub array : BinArray
    pub raw : Bin
    pub supplied : Supplied array
    pub held : get_bin array id ≡ some raw
    pub at_price : priced pool id raw ≡ some bin

  -- From the input `amount`: what is left of it and the output, after any number of trades.
  pub data Trades (amount : ℕ) : ℕ → ℕ → Type 0 where
    start : {left total : ℕ} → left ≡ amount → total ≡ 0 → Trades amount left total
    trade :
        {left total left' total' : ℕ} (id : ℤ) (bin : Bin) (fill : BinFill)
        → Trades amount left total
        → Offer id bin
        → IsBinFill bin left swap_for_y (is_support_limit_order pool) fill
        → left' + fill.amount_in_consumed ≡ left
        → total' ≡ total + fill.amount_out
        → Trades amount left' total'

  pub Trades-le : {amount left total : ℕ} → Trades amount left total → left ≤ amount
  Trades-le (start e _) = omega arith
  Trades-le (trade id bin fill t _ _ e _) = omega (arith, Trades-le t)

get_elem?-All :
    (bins : List Bin) (i : ℕ) {bin : Bin}
    → All BinFits bins
    → get_elem? bins i ≡ some bin
    → BinFits bin
get_elem?-All [] i h e = cc
get_elem?-All (b ∷ bs) zero h e = subst BinFits (some_inj e) h.0
get_elem?-All (b ∷ bs) (suc i) h e = get_elem?-All bs i h.1 e

get_bin-BinFits :
    (array : BinArray) (id : ℤ) {bin : Bin}
    → ArrayFits array
    → get_bin array id ≡ some bin
    → BinFits bin
unfolding get_bin
get_bin-BinFits array id {bin} h e = elim (Bool-cases (is_bin_id_within_range array id)) [
  | inl inside ↦ get_elem?-All array.bins _ h (rw inside at e)
  | inr outside ↦ cc (rw outside at e)
]

priced-BinFits :
    (pool : MeteoraDlmmPool) (id : ℤ) (raw : Bin) {bin : Bin}
    → BinFits raw
    → priced pool id raw ≡ some bin
    → BinFits bin
unfolding priced
priced-BinFits pool id raw h e = elim (Bool-cases (raw.price == 0)) [
  | inr stored ↦ subst BinFits (some_inj (rw stored at e)) h
  | inl missing ↦
      let (price, known, e1) =
        >>=-eq-some (get_price_from_id id pool.bin_step) _ (rw missing at e) in
      subst BinFits (some_inj e1) (record {
        x = h.x;
        y = h.y;
        price = get_price_from_id-lt id pool.bin_step known;
        open_amount = h.open_amount;
        processed = h.processed;
      })
]

module _ (pool : MeteoraDlmmPool) (swap_for_y : Bool) (Supplied : BinArray → Type 0)
    (supplied_fit : (array : BinArray) → Supplied array → ArrayFits array) (amount : ℕ)
    (amount_fits : amount < 2 ^ 64) where
  abbrev pub Traded : Progress → Type 0
  Traded p = Trades pool swap_for_y Supplied amount p.0 p.1

  -- A fill that is taken is one more trade.
  take_fill-Traded :
      (id : ℤ) (bin : Bin) (fill : BinFill) (p : Progress) {q : Progress}
      → Traded p
      → Offer pool swap_for_y Supplied id bin
      → IsBinFill bin p.0 swap_for_y (is_support_limit_order pool) fill
      → take_fill fill.amount_in_consumed fill.amount_out p.0 p.1 ≡ some q
      → Traded q
  take_fill-Traded id bin fill p t o f e = elim (Bool-cases (ltb 0 fill.amount_in_consumed)) [
    | inr unused ↦ subst Traded (some_inj (rw unused at e)) t
    | inl used ↦
        let (left, taken, e1) =
          >>=-eq-some (checked_sub p.0 fill.amount_in_consumed) _ (rw used at e) in
        let (total, given, e2) = >>=-eq-some (fits u64_mod (p.1 + fill.amount_out)) _ e1 in
        let parts = checked_sub-eq-some p.0 fill.amount_in_consumed taken in
        let sum = fits-eq-some u64_mod _ given in
        subst Traded (some_inj e2) (trade id bin fill t o f (omega (arith, parts.0)) (sym sum.0))
  ]

  fill_bin-Traded :
      (id : ℤ) (bin : Bin) (p : Progress) {q : Progress}
      → Traded p
      → Offer pool swap_for_y Supplied id bin
      → BinFits bin
      → fill_bin pool swap_for_y id bin p ≡ some q
      → Traded q
  unfolding fill_bin
  fill_bin-Traded id bin p t o b e =
      let support_lo = is_support_limit_order pool in
      elim (Bool-cases (ltb 0 (max_amount_out_with_limit_orders bin swap_for_y support_lo))) [
        | inr nothing ↦ subst Traded (some_inj (rw nothing at e)) t
        | inl something ↦
            let (rate, e_rate, e1) =
              >>=-eq-some (total_fee_rate pool (volatility_accumulator_for_bin pool id)) _
                (rw something at e) in
            let fee : FeeState = record {
              total_fee_rate = rate;
              protocol_share = pool.parameters.protocol_share;
            } in
            let (fill, filled, e2) =
              >>=-eq-some
                (quote_at_bin bin fee p.0 swap_for_y support_lo (fee_on_input pool swap_for_y)) _
                e1 in
            take_fill-Traded id bin fill p t o
              (quote_at_bin-IsBinFill bin fee p.0 swap_for_y support_lo
                (fee_on_input pool swap_for_y) b (total_fee_rate-le pool _ e_rate)
                (omega (arith, Trades-le pool swap_for_y Supplied t)) filled)
              e2
      ]

  visit_bin-Traded :
      (array : BinArray) (id : ℤ) (raw : Bin) (p : Progress) {q : Progress}
      → Traded p
      → Supplied array
      → get_bin array id ≡ some raw
      → visit_bin pool swap_for_y id raw p ≡ some q
      → Traded q
  unfolding visit_bin
  visit_bin-Traded array id raw p t s held e =
      let (bin, at_price, e1) = >>=-eq-some (priced pool id raw) _ e in
      let fit = get_bin-BinFits array id (supplied_fit array s) held in
      fill_bin-Traded id bin p t
        (record { array = array; raw = raw; supplied = s; held = held; at_price = at_price })
        (priced-BinFits pool id raw fit at_price) e1

  -- What the loop over an array's bins ends with.
  abbrev pub Walked : BinsWalk → Type 0
  Walked failed = Unit
  Walked (returned total) = (left : ℕ) × Traded (left, total)
  Walked (walked id p) = Traded p
  Walked out_of_fuel = Unit

  move_on-Walked :
      (id : ℤ) (rest : ℤ → Progress → BinsWalk) (o : Option Progress)
      → ((i : ℤ) (q : Progress) → Traded q → Walked (rest i q))
      → ((q : Progress) → o ≡ some q → Traded q)
      → Walked (move_on swap_for_y id rest o)
  move_on-Walked id rest none go h = tt
  move_on-Walked id rest (some (left, total)) go h = elim (Bool-cases (ltb 0 left)) [
    | inr used_up ↦ rw used_up (go id (left, total) (h (left, total) refl))
    | inl some_left ↦ elim (Bool-cases (in_bounds (next_id swap_for_y id))) [
      | inl inside ↦ rw (some_left, inside) (go _ (left, total) (h (left, total) refl))
      | inr outside ↦ rw (some_left, outside) (left, h (left, total) refl)
    ]
  ]

  at_bin-Walked :
      (array : BinArray) (id : ℤ) (rest : ℤ → Progress → BinsWalk) (bin : Option Bin) (p : Progress)
      → ((i : ℤ) (q : Progress) → Traded q → Walked (rest i q))
      → Traded p
      → Supplied array
      → get_bin array id ≡ bin
      → Walked (at_bin pool swap_for_y id rest bin p)
  at_bin-Walked array id rest none p go t s held = t
  at_bin-Walked array id rest (some raw) p go t s held =
      move_on-Walked id rest (visit_bin pool swap_for_y id raw p) go
        (λ q e. visit_bin-Traded array id raw p t s held e)

  pub walk_bins-Walked :
      (n : ℕ) (array : BinArray) (id : ℤ) (p : Progress)
      → Traded p
      → Supplied array
      → Walked (walk_bins n pool swap_for_y array id p)
  unfolding walk_bins
  walk_bins-Walked zero array id p t s = tt
  walk_bins-Walked (suc n) array id p t s =
      elim (Bool-cases (ltb 0 p.0 && is_bin_id_within_range array id)) [
        | inr ended ↦ rw ended t
        | inl going ↦ rw going (
            at_bin-Walked array id (walk_bins n pool swap_for_y array) (get_bin array id) p
              (λ i q u. walk_bins-Walked n array i q u s) t s refl)
      ]
