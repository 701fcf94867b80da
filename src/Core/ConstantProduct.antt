-- ===== src/Core/ConstantProduct.antt =====
-- The constant product formula x * y = k of crates/core/src/traits.rs.
mod Floor
pub mod Bounds
unfoldable pub use Floor.*
use solana_dex_aggregator.Prelude.{
  ℕ, ◌+◌, ◌*◌, ◌/◌, ◌||◌, ◌==◌, if◌then◌else◌, as_u64, as_u128, sub64,
}
use solana_dex_aggregator.Prelude.Results.{Result, ok, err}

-- On u64 arguments, with u128 products.
unfoldable pub constant_product_swap : ℕ → ℕ → ℕ → ℕ → Result ℕ
constant_product_swap reserve_in reserve_out amount_in fee_bps =
    if reserve_in == 0 || reserve_out == 0
    then err "Pool has zero liquidity"
    else let fee_multiplier = sub64 10000 fee_bps in
      let amount_in_with_fee = as_u128 (amount_in * fee_multiplier) / 10000 in
      let numerator = as_u128 (amount_in_with_fee * reserve_out) in
      let denominator = as_u128 (reserve_in + amount_in_with_fee) in
      ok (as_u64 (numerator / denominator))
