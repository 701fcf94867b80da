-- ===== src/Dlmm/DlmmMarket/Approximation.antt =====
-- The single-bin approximation of crates/meteora-dlmm/src/lib.rs, plain and on live data.
use solana_dex_aggregator.Prelude.{
  ℕ, ◌≤◌, ◌≡◌, refl, subst, inl, inr, Bool-cases, Bool, true, false, Option, none, some, arith, leb,
  if◌then◌else◌, length,
}
use solana_dex_aggregator.Prelude.Results.{ok}
use solana_dex_aggregator.Prelude.Signed.{ℤ}
use solana_dex_aggregator.Core.{Bytes, SwapDirection, buy, sell, PoolFinancials}
use solana_dex_aggregator.Dlmm.DlmmMarket.{
  MeteoraDlmmMarket, effective_direction, less_fee, single_bin, calculate_dlmm_output,
  live_active_id, calculate_output_live, financials,
}

module _ (div_price mul_price : ℤ → ℕ → ℕ → ℕ) where
  -- The market with the active id of the live data and the given balances, in its own orientation.
  abbrev pub refreshed : MeteoraDlmmMarket → Bytes → ℕ → ℕ → MeteoraDlmmMarket
  refreshed market bytes quote_balance base_balance = record market {
    pool = record market.pool { active_id = live_active_id div_price mul_price bytes };
    reserve_x_balance = if market.flipped then quote_balance else base_balance;
    reserve_y_balance = if market.flipped then base_balance else quote_balance;
  }

  abbrev pub refreshed_by : MeteoraDlmmMarket → Option Bytes → ℕ → ℕ → MeteoraDlmmMarket
  refreshed_by market none quote_balance base_balance = market
  refreshed_by market (some bytes) quote_balance base_balance =
      if leb 80 (length bytes) then refreshed market bytes quote_balance base_balance else market

  -- The live approximation is the plain one of the market with the active id and the balances
  -- replaced, or of the market itself where the live data are shorter than 80 bytes or missing.
  pub calculate_output_live_lem :
      (market : MeteoraDlmmMarket) (amount : ℕ) (direction : SwapDirection)
      (pool_data : Option Bytes) (quote_balance base_balance : ℕ)
      → calculate_output_live div_price mul_price market amount direction pool_data quote_balance
          base_balance
        ≡ calculate_dlmm_output div_price mul_price
            (refreshed_by market pool_data quote_balance base_balance)
            amount
            direction
  unfolding calculate_output_live
  calculate_output_live_lem market amount direction none qb bb = refl
  calculate_output_live_lem market amount direction (some bytes) qb bb =
      elim (Bool-cases (leb 80 (length bytes))) [
        | inl long ↦ rw long refl
        | inr short ↦ rw short refl
      ]

  abbrev pub bought_from : PoolFinancials → SwapDirection → ℕ
  bought_from f buy = f.base_balance
  bought_from f sell = f.quote_balance

  paid-le :
      (flipped : Bool) (direction : SwapDirection) (id : ℤ) (step amount x y dx dy : ℕ)
      → single_bin div_price mul_price id step amount x y (effective_direction flipped direction)
        ≤ bought_from
            (record {
              quote_balance = if flipped then x else y;
              base_balance = if flipped then y else x;
              quote_decimals = dx;
              base_decimals = dy;
            })
            direction
  paid-le false buy id step amount x y dx dy = omega arith
  paid-le false sell id step amount x y dx dy = omega arith
  paid-le true buy id step amount x y dx dy = omega arith
  paid-le true sell id step amount x y dx dy = omega arith

  -- In both orientations a buy gives at most the base balance that the market reports, and a sell at
  -- most the quote balance.
  pub calculate_dlmm_output-le :
      (market : MeteoraDlmmMarket) (amount : ℕ) (direction : SwapDirection) {out : ℕ}
      {f : PoolFinancials}
      → calculate_dlmm_output div_price mul_price market amount direction ≡ ok out
      → financials market ≡ ok f
      → out ≤ bought_from f direction
  unfolding calculate_dlmm_output financials
  calculate_dlmm_output-le market amount direction {out} {f} e k =
      subst (λ n. n ≤ bought_from f direction) (ok_inj e)
        (subst (λ g. paid ≤ bought_from g direction) (ok_inj k)
          (paid-le market.flipped direction market.pool.active_id market.pool.bin_step
            (less_fee market.pool amount) market.reserve_x_balance market.reserve_y_balance
            (if market.flipped then market.token_x_decimals else market.token_y_decimals)
            (if market.flipped then market.token_y_decimals else market.token_x_decimals)))
    where
      ok_inj : {A : Type 0} {a b : A} → ok a ≡ ok b → a ≡ b
      ok_inj e = cc

      paid : ℕ
      paid =
          single_bin div_price mul_price market.pool.active_id market.pool.bin_step
            (less_fee market.pool amount) market.reserve_x_balance market.reserve_y_balance
            (effective_direction market.flipped direction)
