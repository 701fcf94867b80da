-- ===== src/Damm/Stable.antt =====
-- crates/meteora-damm/src/quote.rs: the stable swap on a fixed amplification, in 192-bit arithmetic, and
-- the scaling of the two tokens to a common unit.
use solana_dex_aggregator.Prelude.{
  ℕ, zero, suc, ◌+◌, ◌-◌, ◌*◌, ◌^◌, Bool, true, false, Option, some, ltb, leb, ◌==◌, if◌then◌else◌,
  fits, checked_sub, u64_mod, u128_mod,
}
use solana_dex_aggregator.Prelude.Results.{◌>>=◌}
use solana_dex_aggregator.Damm.{DepegType, no_depeg, marinade, lido, spl_stake}
use solana_dex_aggregator.Damm.Vaults.{checked_div}

abbrev pub depeg_precision : ℕ
depeg_precision = 1_000_000

abbrev pub n_coins : ℕ
n_coins = 2

abbrev pub u192_mod : ℕ
u192_mod = 2 ^ 192

unfoldable pub compute_next_d : ℕ → ℕ → ℕ → ℕ → Option ℕ
unfolding checked_div
compute_next_d amp d_init d_prod sum_x = do
  ann ← fits u64_mod (amp * n_coins)
  leverage ← fits u128_mod (sum_x * ann)
  doubled ← fits u192_mod (d_prod * n_coins)
  sum ← fits u192_mod (doubled + leverage)
  numerator ← fits u192_mod (d_init * sum)
  ann_less ← checked_sub ann 1
  scaled ← fits u192_mod (d_init * ann_less)
  tripled ← fits u192_mod (d_prod * (n_coins + 1))
  denominator ← fits u192_mod (scaled + tripled)
  checked_div numerator denominator

-- Two rounds at most one apart end an iteration.
abbrev pub is_close : ℕ → ℕ → Bool
is_close d d_prev = if ltb d_prev d then leb (d - d_prev) 1 else leb (d_prev - d) 1

-- The loop, on the rounds left.
abbrev pub newton : (ℕ → Option ℕ) → ℕ → ℕ → Option ℕ
newton step zero d = some d
newton step (suc rounds) d = do
  next ← step d
  let rest = newton step rounds next
  (if is_close next d then some next else rest)

abbrev pub d_step : ℕ → ℕ → ℕ → ℕ → ℕ → Option ℕ
unfolding checked_div compute_next_d
d_step amp sum_x amount_a_times_coins amount_b_times_coins d = do
  square ← fits u192_mod (d * d)
  over_a ← checked_div square amount_a_times_coins
  cube ← fits u192_mod (over_a * d)
  d_prod ← checked_div cube amount_b_times_coins
  compute_next_d amp d d_prod sum_x

unfoldable pub compute_d : ℕ → ℕ → ℕ → Option ℕ
unfolding d_step
compute_d amp amount_a amount_b = do
  sum_x ← fits u128_mod (amount_a + amount_b)
  let invariant : Option ℕ = do
    amount_a_times_coins ← fits u128_mod (amount_a * n_coins)
    amount_b_times_coins ← fits u128_mod (amount_b * n_coins)
    newton (d_step amp sum_x amount_a_times_coins amount_b_times_coins) 256 sum_x
  (if sum_x == 0 then some 0 else invariant)

abbrev pub y_step : ℕ → ℕ → ℕ → ℕ → Option ℕ
unfolding checked_div
y_step c b d y = do
  square ← fits u192_mod (y * y)
  numerator ← fits u192_mod (square + c)
  doubled ← fits u192_mod (y * 2)
  sum ← fits u192_mod (doubled + b)
  denominator ← checked_sub sum d
  checked_div numerator denominator

unfoldable pub compute_y : ℕ → ℕ → ℕ → Option ℕ
unfolding checked_div y_step
compute_y amp x d = do
  ann ← fits u64_mod (amp * n_coins)
  square ← fits u192_mod (d * d)
  x_times_coins ← fits u128_mod (x * n_coins)
  over_x ← checked_div square x_times_coins
  cube ← fits u192_mod (over_x * d)
  ann_times_coins ← fits u64_mod (ann * n_coins)
  c ← checked_div cube ann_times_coins
  d_over_ann ← checked_div d ann
  b ← fits u192_mod (d_over_ann + x)
  y ← newton (y_step c b d) 256 d
  fits u128_mod y

unfoldable pub stable_swap_exact : ℕ → ℕ → ℕ → ℕ → Option ℕ
unfolding compute_d compute_y
stable_swap_exact amp source_amount swap_source_amount swap_destination_amount = do
  d ← compute_d amp swap_source_amount swap_destination_amount
  new_source ← fits u128_mod (swap_source_amount + source_amount)
  y ← compute_y amp new_source d
  out ← checked_sub swap_destination_amount y
  checked_sub out 1

pub record StableScaler : Type 0 where
  pub token_a_multiplier : ℕ
  pub token_b_multiplier : ℕ
  pub depeg_type : DepegType
  pub base_virtual_price : ℕ

abbrev pub is_depeg : DepegType → Bool
is_depeg no_depeg = false
is_depeg marinade = true
is_depeg lido = true
is_depeg spl_stake = true

abbrev pub upscale : ℕ → ℕ → DepegType → ℕ → Option ℕ
upscale multiplier price depeg_type amount = do
  n ← fits u128_mod (amount * multiplier)
  (if is_depeg depeg_type then fits u128_mod (n * price) else some n)

abbrev pub downscale : ℕ → ℕ → DepegType → ℕ → Option ℕ
unfolding checked_div
downscale multiplier price depeg_type amount = do
  n ← checked_div amount multiplier
  (if is_depeg depeg_type then checked_div n price else some n)

unfoldable pub upscale_a : StableScaler → ℕ → Option ℕ
upscale_a scaler = upscale scaler.token_a_multiplier depeg_precision scaler.depeg_type

unfoldable pub downscale_a : StableScaler → ℕ → Option ℕ
unfolding downscale
downscale_a scaler = downscale scaler.token_a_multiplier depeg_precision scaler.depeg_type

unfoldable pub upscale_b : StableScaler → ℕ → Option ℕ
upscale_b scaler = upscale scaler.token_b_multiplier scaler.base_virtual_price scaler.depeg_type

unfoldable pub downscale_b : StableScaler → ℕ → Option ℕ
unfolding downscale
downscale_b scaler = downscale scaler.token_b_multiplier scaler.base_virtual_price scaler.depeg_type
