-- ===== src/Damm/Vaults.antt =====
-- crates/meteora-damm/src/quote.rs: the shares of a vault, the fees, and the constant product swap.
-- `none` is the code's `None`; in a chain of checks the order of two that fail does not show.
pub mod Shares
use solana_dex_aggregator.Prelude.{
  ℕ, ◌+◌, ◌-◌, ◌*◌, ◌/◌, ◌%◌, Bool, ◌||◌, Option, none, some, ltb, leb, ◌==◌, if◌then◌else◌, fits,
  checked_sub, u64_mod, u128_mod,
}
use solana_dex_aggregator.Prelude.Results.{◌>>=◌, ◌>>◌}
use solana_dex_aggregator.Damm.{VaultAuthority, VaultSide}

abbrev pub locked_profit_degradation_denominator : ℕ
locked_profit_degradation_denominator = 1_000_000_000_000

-- `checked_div` and `checked_rem`.
unfoldable pub checked_div : ℕ → ℕ → Option ℕ
checked_div a b = if b == 0 then none else some (a / b)

unfoldable pub checked_rem : ℕ → ℕ → Option ℕ
checked_rem a b = if b == 0 then none else some (a % b)

-- What is locked of the last reported profit, after `ratio` of it has been released.
abbrev pub still_locked : ℕ → ℕ → Option ℕ
unfolding checked_div
still_locked profit ratio = do
  kept ← checked_sub locked_profit_degradation_denominator ratio
  product ← fits u128_mod (profit * kept)
  locked ← checked_div product locked_profit_degradation_denominator
  fits u64_mod locked

unfoldable pub calculate_locked_profit : VaultAuthority → ℕ → Option ℕ
unfolding still_locked
calculate_locked_profit vault current_time =
    let t = vault.locked_profit_tracker in
    do
      duration ← checked_sub current_time t.last_report
      ratio ← fits u128_mod (duration * t.locked_profit_degradation)
      (if ltb locked_profit_degradation_denominator ratio
          then some 0
          else still_locked t.last_updated_locked_profit ratio)

unfoldable pub get_unlocked_amount : VaultAuthority → ℕ → Option ℕ
unfolding calculate_locked_profit
get_unlocked_amount vault current_time = do
  locked ← calculate_locked_profit vault current_time
  checked_sub vault.total_amount locked

unfoldable pub get_amount_by_share : VaultAuthority → ℕ → ℕ → ℕ → Option ℕ
unfolding get_unlocked_amount checked_div
get_amount_by_share vault current_time share total_supply =
    let amount : Option ℕ = do
      total ← get_unlocked_amount vault current_time
      product ← fits u128_mod (share * total)
      quotient ← checked_div product total_supply
      fits u64_mod quotient
    in if total_supply == 0 then none else amount

unfoldable pub get_unmint_amount : VaultAuthority → ℕ → ℕ → ℕ → Option ℕ
unfolding get_unlocked_amount checked_div
get_unmint_amount vault current_time out_token total_supply = do
  total ← get_unlocked_amount vault current_time
  let minted : Option ℕ = do
    product ← fits u128_mod (out_token * total_supply)
    quotient ← checked_div product total
    fits u64_mod quotient
  (if total == 0 then none else minted)

unfoldable pub calculate_fee : ℕ → ℕ → ℕ → Option ℕ
unfolding checked_div
calculate_fee token_amount numerator denominator =
    let charged : Option ℕ = do
      product ← fits u128_mod (token_amount * numerator)
      fee ← checked_div product denominator
      some (if fee == 0 then 1 else fee)
    in if numerator == 0 || token_amount == 0 then some 0 else charged

-- Where the divisor does not divide, the quotient goes up by one, and the divisor becomes the dividend
-- over it, rounded up.
abbrev pub round_back : ℕ → ℕ → Option (ℕ × ℕ)
unfolding checked_div checked_rem
round_back dividend quotient = do
  up ← fits u128_mod (quotient + 1)
  lower ← checked_div dividend up
  rest ← checked_rem dividend up
  divisor ← (if ltb 0 rest then fits u128_mod (lower + 1) else some lower)
  some (up, divisor)

unfoldable pub checked_ceil_div : ℕ → ℕ → Option (ℕ × ℕ)
unfolding checked_div checked_rem
checked_ceil_div dividend divisor = do
  quotient ← checked_div dividend divisor
  let rounded : Option (ℕ × ℕ) = do
    remainder ← checked_rem dividend divisor
    (if ltb 0 remainder then round_back dividend quotient else some (quotient, divisor))
  (if quotient == 0 then none else rounded)

unfoldable pub constant_product_swap_exact : ℕ → ℕ → ℕ → Option ℕ
unfolding checked_ceil_div
constant_product_swap_exact source_amount swap_source_amount swap_destination_amount = do
  invariant ← fits u128_mod (swap_source_amount * swap_destination_amount)
  new_source ← fits u128_mod (swap_source_amount + source_amount)
  new_destination ← checked_ceil_div invariant new_source
  swapped ← checked_sub swap_destination_amount new_destination.0
  (if swapped == 0 then none else some swapped)
