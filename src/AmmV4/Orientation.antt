-- ===== src/AmmV4/Orientation.antt =====
-- The two orientations of a market in crates/raydium-amm-v4/src/lib.rs.
use solana_dex_aggregator.Prelude.{
  ℕ, ◌≡◌, refl, Bool, true, false, Option, none, some, if◌then◌else◌, subst,
}
use solana_dex_aggregator.Prelude.Results.{ok}
use solana_dex_aggregator.Core.{Bytes, SwapDirection, PoolFinancials}
use solana_dex_aggregator.AmmV4.{
  RaydiumAmmV4Market, financials, calculate_output, calculate_output_live, as_quote, as_base,
}

module _ (to_bps : ℕ → ℕ → ℕ) where
  -- The market with its sides relabelled: the pool's base and quote exchanged, and their balances.
  abbrev pub relabelled : RaydiumAmmV4Market → RaydiumAmmV4Market
  relabelled market = record market {
    quote_balance = market.base_balance;
    base_balance = market.quote_balance;
    flipped = if market.flipped then false else true;
  }

  relabelled_sides :
      (flipped : Bool) (quote base : ℕ)
      → (if if flipped then false else true then quote else base)
        ≡ (if flipped then base else quote)
  relabelled_sides true quote base = refl
  relabelled_sides false quote base = refl

  relabelled_output :
      (market : RaydiumAmmV4Market) (amount : ℕ) (direction : SwapDirection)
      → calculate_output to_bps (relabelled market) amount direction
        ≡ calculate_output to_bps market amount direction
  unfolding calculate_output
  relabelled_output market amount direction =
      rw
        (
          relabelled_sides market.flipped market.quote_balance market.base_balance,
          relabelled_sides market.flipped market.base_balance market.quote_balance,
        )
        refl

  reported_output :
      (market : RaydiumAmmV4Market) (amount : ℕ) (direction : SwapDirection)
      (pool_data : Option Bytes)
      → calculate_output_live to_bps market amount direction pool_data
          (as_quote market market.quote_balance market.base_balance)
          (as_base market market.quote_balance market.base_balance)
        ≡ calculate_output to_bps market amount direction
  unfolding calculate_output calculate_output_live
  reported_output market amount direction none = refl
  reported_output market amount direction (some bytes) = refl

  ok_inj : {A : Type 0} {a b : A} → ok a ≡ ok b → a ≡ b
  ok_inj e = cc

  -- Given the balances that the market reports, the live quote is the plain quote, in either
  -- orientation and direction and whether or not there are live data; and the plain quote does not
  -- depend on how the pool labels its two sides.
  pub calculate_output-orientation :
      (market : RaydiumAmmV4Market) (amount : ℕ) (direction : SwapDirection)
      (pool_data : Option Bytes) {f : PoolFinancials}
      → financials market ≡ ok f
      → (calculate_output_live to_bps market amount direction pool_data f.quote_balance
            f.base_balance
          ≡ calculate_output to_bps market amount direction)
        × (calculate_output to_bps (relabelled market) amount direction
            ≡ calculate_output to_bps market amount direction)
  unfolding financials
  calculate_output-orientation market amount direction pool_data e = (
    subst
        (λ g.
          calculate_output_live to_bps market amount direction pool_data g.quote_balance
            g.base_balance
          ≡ calculate_output to_bps market amount direction)
        (ok_inj e) (reported_output market amount direction pool_data),
    relabelled_output market amount direction,
  )
