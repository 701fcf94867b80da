-- ===== src/Damm.antt =====
-- crates/meteora-damm/src/models.rs: the accounts of the first version of Meteora's dynamic AMM, and
-- the side of a vault in quote.rs. Padding is left out.
pub mod Vaults
pub mod Stable
pub mod Quote
pub mod DammMarket
pub mod V2
use solana_dex_aggregator.Prelude.{ℕ, Bool, List}
use solana_dex_aggregator.Core.{Pubkey}

pub record PoolFees : Type 0 where
  pub trade_fee_numerator : ℕ
  pub trade_fee_denominator : ℕ
  pub protocol_trade_fee_numerator : ℕ
  pub protocol_trade_fee_denominator : ℕ

pub data PoolType : Type 0 where
  permissioned permissionless : PoolType

pub record Bootstrapping : Type 0 where
  pub activation_point : ℕ
  pub whitelisted_vault : Pubkey
  pub pool_creator : Pubkey
  pub activation_type : ℕ

pub record PartnerInfo : Type 0 where
  pub fee_numerator : ℕ
  pub partner_authority : Pubkey
  pub pending_fee_a : ℕ
  pub pending_fee_b : ℕ

pub record TokenMultiplier : Type 0 where
  pub token_a_multiplier : ℕ
  pub token_b_multiplier : ℕ
  pub precision_factor : ℕ

-- `no_depeg` is the code's `None`.
pub data DepegType : Type 0 where
  no_depeg marinade lido spl_stake : DepegType

pub record Depeg : Type 0 where
  pub base_virtual_price : ℕ
  pub base_cache_updated : ℕ
  pub depeg_type : DepegType

-- The last field of `stable` is `last_amp_updated_timestamp`.
pub data CurveType : Type 0 where
  constant_product : CurveType
  stable : ℕ → TokenMultiplier → Depeg → ℕ → CurveType

pub record MeteoraDammPool : Type 0 where
  pub lp_mint : Pubkey
  pub token_a_mint : Pubkey
  pub token_b_mint : Pubkey
  pub a_vault : Pubkey
  pub b_vault : Pubkey
  pub a_vault_lp : Pubkey
  pub b_vault_lp : Pubkey
  pub a_vault_lp_bump : ℕ
  pub enabled : Bool
  pub protocol_token_a_fee : Pubkey
  pub protocol_token_b_fee : Pubkey
  pub fee_last_updated_at : ℕ
  pub fees : PoolFees
  pub pool_type : PoolType
  pub stake : Pubkey
  pub total_locked_lp : ℕ
  pub bootstrapping : Bootstrapping
  pub partner_info : PartnerInfo
  pub curve_type : CurveType

pub record VaultBumps : Type 0 where
  pub vault_bump : ℕ
  pub token_vault_bump : ℕ

pub record LockedProfitTracker : Type 0 where
  pub last_updated_locked_profit : ℕ
  pub last_report : ℕ
  pub locked_profit_degradation : ℕ

pub record VaultAuthority : Type 0 where
  pub enabled : ℕ
  pub bumps : VaultBumps
  pub total_amount : ℕ
  pub token_vault : Pubkey
  pub fee_vault : Pubkey
  pub token_mint : Pubkey
  pub lp_mint : Pubkey
  pub strategies : List Pubkey
  pub base : Pubkey
  pub admin : Pubkey
  pub operator : Pubkey
  pub locked_profit_tracker : LockedProfitTracker

pub record VaultSide : Type 0 where
  pub vault : VaultAuthority
  pub pool_lp_amount : ℕ
  pub lp_supply : ℕ
  pub vault_token_amount : ℕ
