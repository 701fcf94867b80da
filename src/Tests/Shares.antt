-- ===== src/Tests/Shares.antt =====
-- Tests of the pools on shared vaults, on two equal vaults of which the pool owns a half.
use solana_dex_aggregator.Prelude.{
  ℕ, ◌+◌, ◌-◌, ◌*◌, ◌≤◌, ◌<◌, ◌≡◌, refl, true, some, [], fits, checked_sub,
}
use solana_dex_aggregator.Damm.{
  MeteoraDammPool, VaultAuthority, VaultSide, constant_product, permissionless,
}
use solana_dex_aggregator.Damm.Vaults.{
  get_unlocked_amount, checked_ceil_div, checked_div, checked_rem, calculate_locked_profit,
}
use solana_dex_aggregator.Damm.Stable.{stable_swap_exact, compute_d, compute_y}
use solana_dex_aggregator.Damm.Quote.{reserve, quote_exact_in, quote_sides}
use solana_dex_aggregator.Damm.Quote.Payout.{
  IsPaid, quote_exact_in-IsPaid, quote_exact_in-IsInvariant,
}

abbrev vault : VaultAuthority
vault = record {
  enabled = 1;
  bumps = record { vault_bump = 0; token_vault_bump = 0 };
  total_amount = 1_000_000;
  token_vault = 0;
  fee_vault = 0;
  token_mint = 0;
  lp_mint = 0;
  strategies = [];
  base = 0;
  admin = 0;
  operator = 0;
  locked_profit_tracker = record {
    last_updated_locked_profit = 100_000;
    last_report = 1_000;
    locked_profit_degradation = 10_000_000_000;
  };
}

abbrev side : VaultSide
side = record {
  vault = vault;
  pool_lp_amount = 500_000;
  lp_supply = 1_000_000;
  vault_token_amount = 800_000;
}

abbrev damm_pool : MeteoraDammPool
damm_pool = record {
  lp_mint = 0;
  token_a_mint = 1;
  token_b_mint = 2;
  a_vault = 3;
  b_vault = 4;
  a_vault_lp = 5;
  b_vault_lp = 6;
  a_vault_lp_bump = 0;
  enabled = true;
  protocol_token_a_fee = 7;
  protocol_token_b_fee = 8;
  fee_last_updated_at = 0;
  fees = record {
    trade_fee_numerator = 250;
    trade_fee_denominator = 100_000;
    protocol_trade_fee_numerator = 20_000;
    protocol_trade_fee_denominator = 100_000;
  };
  pool_type = permissionless;
  stake = 0;
  total_locked_lp = 0;
  bootstrapping = record {
    activation_point = 0;
    whitelisted_vault = 0;
    pool_creator = 0;
    activation_type = 0;
  };
  partner_info = record {
    fee_numerator = 0;
    partner_authority = 0;
    pending_fee_a = 0;
    pending_fee_b = 0;
  };
  curve_type = constant_product;
}

-- The profit is released over a hundred seconds.
unlocked_at_once : get_unlocked_amount vault 1_000 ≡ some 900_000
unfolding get_unlocked_amount calculate_locked_profit checked_div checked_sub fits
unlocked_at_once = refl

unlocked_halfway : get_unlocked_amount vault 1_050 ≡ some 950_000
unfolding get_unlocked_amount calculate_locked_profit checked_div checked_sub fits
unlocked_halfway = refl

unlocked_later : get_unlocked_amount vault 1_200 ≡ some 1_000_000
unfolding get_unlocked_amount calculate_locked_profit checked_div checked_sub fits
unlocked_later = refl

rounded_back : checked_ceil_div 10 3 ≡ some (4, 3)
unfolding checked_ceil_div checked_div checked_rem fits
rounded_back = refl

near_parity : stable_swap_exact 100 10_000 10_000_000 10_000_000 ≡ some 9_999
unfolding stable_swap_exact compute_d compute_y checked_div checked_sub fits
near_parity = refl

quoted_half : quote_exact_in damm_pool 10_000 true side side 1_200 ≡ some 9_779
unfolding quote_exact_in quote_sides checked_sub fits
quoted_half = refl

quote_exact_in-IsPaid_example :
    (damm_pool.enabled ≡ true)
    × (a : ℕ) × (b : ℕ) × (reserve side 1_200 ≡ some a)
    × (reserve side 1_200 ≡ some b)
    × IsPaid damm_pool 10_000 true side side a b 1_200 9_779
quote_exact_in-IsPaid_example =
    quote_exact_in-IsPaid damm_pool 10_000 true side side 1_200 quoted_half

quote_exact_in-IsInvariant_example :
    (x : ℕ) × (y : ℕ) × (reserve side 1_200 ≡ some x)
    × (reserve side 1_200 ≡ some y)
    × (paid : IsPaid damm_pool 10_000 true side side x y 1_200 9_779) × (9_779 < y)
    × (x * y ≤ (x + (paid.actual_in - paid.trade_fee)) * (y - 9_779))
quote_exact_in-IsInvariant_example =
    quote_exact_in-IsInvariant damm_pool 10_000 true side side 1_200 refl quoted_half
