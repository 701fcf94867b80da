-- ===== src/Curves/Pumpfun/Live.antt =====
-- The quotes of the pump.fun market in crates/pumpfun-amm/src/lib.rs on live account data.
use Prim.Native.String.{String}
use solana_dex_aggregator.Prelude.{
  ℕ, ◌<◌, ◌≡◌, refl, inl, inr, false, Bool-cases, Option, none, some, arith,
}
use solana_dex_aggregator.Prelude.Results.{ok, err}
use solana_dex_aggregator.Core.{Bytes, SwapDirection}
use solana_dex_aggregator.Curves.Pumpfun.{
  PumpfunBondingCurve, PumpfunBondingCurveMarket, quote_on, positive_or_err, calculate_output,
  live_or_baked, parse_data, parse_bonding_curve, calculate_output_live,
}

-- The market with its curve replaced.
abbrev pub with_curve : PumpfunBondingCurveMarket → PumpfunBondingCurve → PumpfunBondingCurveMarket
with_curve market curve = record market { pool = record market.pool { curve = curve } }

-- The market that the live data describe: that of the parsed curve, and the market itself where
-- there is nothing that parses.
abbrev pub refreshed :
    PumpfunBondingCurveMarket → Option PumpfunBondingCurve → PumpfunBondingCurveMarket
refreshed market none = market
refreshed market (some curve) = with_curve market curve

-- The live quote is the plain quote of the market with its curve replaced by the one parsed from
-- the live data, or of the market itself if there are no data or they do not parse.
pub calculate_output_live_lem :
    (deserialize : Bytes → Option PumpfunBondingCurve) (market : PumpfunBondingCurveMarket)
    (amount : ℕ) (direction : SwapDirection) (pool_data : Option Bytes)
    (quote_balance base_balance : ℕ)
    → calculate_output_live deserialize market amount direction pool_data quote_balance base_balance
      ≡ calculate_output
          (refreshed market (parse_data (parse_bonding_curve deserialize) pool_data))
          amount
          direction
unfolding calculate_output_live calculate_output
calculate_output_live_lem deserialize market amount direction pool_data quote_balance base_balance =
    go (parse_data (parse_bonding_curve deserialize) pool_data)
  where
    go :
        (curve : Option PumpfunBondingCurve)
        → live_or_baked market curve amount direction
          ≡ calculate_output (refreshed market curve) amount direction
    go none = refl
    go (some curve) = refl

-- A curve quotes only while it is not complete, and only a positive output: that of the formula.
pub calculate_output-eq-ok :
    (market : PumpfunBondingCurveMarket) (amount : ℕ) (direction : SwapDirection) {out : ℕ}
    → calculate_output market amount direction ≡ ok out
    → (market.pool.curve.complete ≡ false)
      × (out ≡ quote_on market.pool.curve amount direction)
      × (0 < out)
unfolding calculate_output
calculate_output-eq-ok market amount direction {out} e =
    elim (Bool-cases market.pool.curve.complete) [
      | inl done ↦ absurd (refused (rw done at e))
      | inr trading ↦
          let (same, positive) =
            go (quote_on market.pool.curve amount direction) (rw trading at e) in
          (trading, same, positive)
    ]
  where
    refused : {s : String} {n : ℕ} → err s ≡ ok n → ⊥
    refused h = cc

    go : (n : ℕ) → positive_or_err n ≡ ok out → (out ≡ n) × (0 < out)
    go n h = ground arith
