-- ===== src/Damm/Quote.antt =====
-- crates/meteora-damm/src/quote.rs: the exact-in quote, through the deposit to one vault, the curve and
-- the withdrawal from the other vault.
pub mod Payout
use solana_dex_aggregator.Prelude.{
  ℕ, ◌+◌, ◌-◌, max, Bool, true, false, Option, none, some, leb, if◌then◌else◌, fits, checked_sub,
  u64_mod,
}
use solana_dex_aggregator.Prelude.Results.{◌>>=◌, ◌>>◌}
use solana_dex_aggregator.Damm.{
  MeteoraDammPool, CurveType, constant_product, stable, VaultSide, VaultAuthority,
}
use solana_dex_aggregator.Damm.Vaults.{
  get_amount_by_share, get_unmint_amount, calculate_fee, constant_product_swap_exact,
}
use solana_dex_aggregator.Damm.Stable.{
  StableScaler, stable_swap_exact, upscale_a, upscale_b, downscale_a, downscale_b,
}

-- A pool's share of a vault.
abbrev pub reserve : VaultSide → ℕ → Option ℕ
unfolding get_amount_by_share
reserve side current_time =
    get_amount_by_share side.vault current_time side.pool_lp_amount side.lp_supply

-- What a deposit adds to the pool's share.
unfoldable pub deposited : VaultSide → ℕ → ℕ → ℕ → Option ℕ
unfolding get_amount_by_share get_unmint_amount
deposited side in_token_total amount current_time = do
  in_lp ← get_unmint_amount side.vault current_time amount side.lp_supply
  total ← fits u64_mod (side.vault.total_amount + amount)
  share ← fits u64_mod (in_lp + side.pool_lp_amount)
  supply ← fits u64_mod (side.lp_supply + in_lp)
  after ← get_amount_by_share (record side.vault { total_amount = total }) current_time share supply
  checked_sub after in_token_total

-- The swap of scaled amounts, on the scalings of the two sides.
abbrev pub scaled_swap : (ℕ → Option ℕ) → (ℕ → Option ℕ) → (ℕ → Option ℕ) → ℕ → ℕ → ℕ → ℕ → Option ℕ
unfolding stable_swap_exact
scaled_swap up_in up_out down_out amp amount in_total out_total = do
  up_src ← up_in amount
  up_src_res ← up_in in_total
  up_dst_res ← up_out out_total
  out ← stable_swap_exact amp up_src up_src_res up_dst_res
  down_out out

unfoldable pub curve_output : CurveType → Bool → ℕ → ℕ → ℕ → Option ℕ
unfolding constant_product_swap_exact scaled_swap upscale_a upscale_b downscale_a downscale_b
curve_output constant_product in_is_a amount in_total out_total =
    constant_product_swap_exact amount in_total out_total
curve_output (stable amp token_multiplier depeg updated) in_is_a amount in_total out_total =
    let scaler : StableScaler = record {
      token_a_multiplier = token_multiplier.token_a_multiplier;
      token_b_multiplier = token_multiplier.token_b_multiplier;
      depeg_type = depeg.depeg_type;
      base_virtual_price = max depeg.base_virtual_price 1;
    } in
    if in_is_a
    then scaled_swap (upscale_a scaler) (upscale_b scaler) (downscale_b scaler) amp amount in_total
        out_total
    else scaled_swap (upscale_b scaler) (upscale_a scaler) (downscale_a scaler) amp amount in_total
        out_total

unfoldable pub withdrawn : VaultSide → ℕ → ℕ → Option ℕ
unfolding get_amount_by_share get_unmint_amount
withdrawn side destination_amount current_time = do
  amount ← fits u64_mod destination_amount
  out_lp ← get_unmint_amount side.vault current_time amount side.lp_supply
  out_amount ← get_amount_by_share side.vault current_time out_lp side.lp_supply
  (if leb side.vault_token_amount out_amount then none else some out_amount)

-- The quote on a deposit side and a withdrawal side, with the reserves of the two.
unfoldable pub quote_sides :
    MeteoraDammPool → ℕ → Bool → VaultSide → VaultSide → ℕ → ℕ → ℕ → Option ℕ
unfolding calculate_fee deposited curve_output withdrawn
quote_sides pool in_amount in_is_a in_vault out_vault in_total out_total current_time = do
  gross_fee ← calculate_fee in_amount pool.fees.trade_fee_numerator pool.fees.trade_fee_denominator
  protocol_fee ←
      calculate_fee gross_fee pool.fees.protocol_trade_fee_numerator
        pool.fees.protocol_trade_fee_denominator
  trade_fee ← checked_sub gross_fee protocol_fee
  protocol_fee64 ← fits u64_mod protocol_fee
  net_of_protocol_fee ← checked_sub in_amount protocol_fee64
  actual_in ← deposited in_vault in_total net_of_protocol_fee current_time
  trade_fee64 ← fits u64_mod trade_fee
  net ← checked_sub actual_in trade_fee64
  destination_amount ← curve_output pool.curve_type in_is_a net in_total out_total
  withdrawn out_vault destination_amount current_time

unfoldable pub quote_exact_in : MeteoraDammPool → ℕ → Bool → VaultSide → VaultSide → ℕ → Option ℕ
unfolding reserve quote_sides
quote_exact_in pool in_amount in_is_a vault_a vault_b current_time =
    let quoted : Option ℕ = do
      a ← reserve vault_a current_time
      b ← reserve vault_b current_time
      (if in_is_a
          then quote_sides pool in_amount true vault_a vault_b a b current_time
          else quote_sides pool in_amount false vault_b vault_a b a current_time)
    in if pool.enabled then quoted else none
