-- ===== src/Dlmm/Fees.antt =====
-- The fees of crates/meteora-dlmm/src/quote.rs.
pub mod Rates
use solana_dex_aggregator.Prelude.{
  ℕ, ◌+◌, ◌-◌, ◌*◌, ◌/◌, ◌^◌, min, Bool, true, false, not, Option, none, some, List, [], ◌∷◌, ◌==◌,
  ◌&&◌, if◌then◌else◌, fits, checked_sub, sat_add64, sat_mul64, u64_mod, u128_mod,
}
use solana_dex_aggregator.Prelude.Results.{◌>>=◌, ◌>>◌}
use solana_dex_aggregator.Prelude.Signed.{ℤ, ◌-ℤ◌, unsigned_abs}
use solana_dex_aggregator.Dlmm.{MeteoraDlmmPool, RewardInfo}
use solana_dex_aggregator.Dlmm.Math.{basis_point_max}

abbrev pub max_fee_rate : ℕ
max_fee_rate = 100_000_000

abbrev pub fee_precision : ℕ
fee_precision = 1_000_000_000

pub record FeeState : Type 0 where
  pub total_fee_rate : ℕ
  pub protocol_share : ℕ

unfoldable pub base_fee : MeteoraDlmmPool → Option ℕ
base_fee pool = do
  scaled ← fits u128_mod (pool.parameters.base_factor * pool.bin_step)
  tenfold ← fits u128_mod (scaled * 10)
  power ← fits u128_mod (10 ^ pool.parameters.base_fee_power_factor)
  fits u128_mod (tenfold * power)

unfoldable pub variable_fee : MeteoraDlmmPool → ℕ → Option ℕ
variable_fee pool volatility_accumulator =
    let varied : Option ℕ = do
      vfa_bin ← fits u128_mod (volatility_accumulator * pool.bin_step)
      square_vfa_bin ← fits u128_mod (vfa_bin * vfa_bin)
      v_fee ← fits u128_mod (pool.parameters.variable_fee_control * square_vfa_bin)
      raised ← fits u128_mod (v_fee + 99_999_999_999)
      some (raised / 100_000_000_000)
    in if pool.parameters.variable_fee_control == 0 then some 0 else varied

unfoldable pub total_fee_rate : MeteoraDlmmPool → ℕ → Option ℕ
unfolding base_fee variable_fee
total_fee_rate pool volatility_accumulator = do
  base ← base_fee pool
  variable ← variable_fee pool volatility_accumulator
  total ← fits u128_mod (base + variable)
  some (min total max_fee_rate)

-- The fee on top of a net amount.
unfoldable pub compute_fee : FeeState → ℕ → Option ℕ
compute_fee fee amount = do
  denominator ← checked_sub fee_precision fee.total_fee_rate
  product ← fits u128_mod (amount * fee.total_fee_rate)
  sum ← fits u128_mod (product + denominator)
  above ← checked_sub sum 1
  fits u64_mod (above / denominator)

-- The fee within a gross amount.
unfoldable pub compute_fee_from_amount : FeeState → ℕ → Option ℕ
compute_fee_from_amount fee amount_with_fees = do
  product ← fits u128_mod (amount_with_fees * fee.total_fee_rate)
  sum ← fits u128_mod (product + (fee_precision - 1))
  fits u64_mod (sum / fee_precision)

-- The difference of two i32 values does not saturate an i64, and the result fits a u32 like the
-- maximum.
unfoldable pub volatility_accumulator_for_bin : MeteoraDlmmPool → ℤ → ℕ
volatility_accumulator_for_bin pool active_id =
    let delta_id = unsigned_abs (pool.v_parameters.index_reference -ℤ active_id) in
    let acc =
      sat_add64 pool.v_parameters.volatility_reference (sat_mul64 delta_id basis_point_max) in
    min acc pool.parameters.max_volatility_accumulator

abbrev pub all_default : List RewardInfo → Bool
all_default [] = true
all_default (r ∷ rs) = r.mint == 0 && all_default rs

unfoldable pub is_support_limit_order : MeteoraDlmmPool → Bool
is_support_limit_order pool =
    let kind = pool.parameters.function_type in
    if kind == 2
    then true
    else if kind == 1
    then false
    else if kind == 0
    then all_default pool.reward_infos
    else false

unfoldable pub fee_on_input : MeteoraDlmmPool → Bool → Bool
fee_on_input pool swap_for_y =
    if pool.parameters.collect_fee_mode == 1 then not swap_for_y else true
