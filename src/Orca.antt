-- ===== src/Orca.antt =====
-- crates/orca-whirlpool/src/lib.rs: the accounts of Orca's whirlpools, the addresses of their tick
-- arrays, and what is handed to the arithmetic of the library orca_whirlpools_core.
pub mod OrcaMarket
use Prim.Native.String.{String}
use solana_dex_aggregator.Prelude.{
  ℕ, ◌*◌, Bool, Option, none, some, List, [], ◌∷◌, map, ltb, if◌then◌else◌, length, drop,
}
use solana_dex_aggregator.Prelude.Signed.{ℤ, pos, ◌+ℤ◌, ◌-ℤ◌, scale, div_euclid, as_i32}
use solana_dex_aggregator.Core.{Pubkey, Bytes}

abbrev pub orca_whirlpool_program : String
orca_whirlpool_program = "whirLbMiicVdio4qvUfM5KAg6Ct8VwpYzGff3uctyCc"

abbrev pub tick_array_size : ℕ
tick_array_size = 88

pub record WhirlpoolRewardInfo : Type 0 where
  pub mint : Pubkey
  pub vault : Pubkey
  pub authority : Pubkey
  pub emissions_per_second_x64 : ℕ
  pub growth_global_x64 : ℕ

pub record WhirlpoolPool : Type 0 where
  pub whirlpools_config : Pubkey
  pub whirlpool_bump : ℕ
  pub tick_spacing : ℕ
  pub fee_tier_index_seed : Bytes
  pub fee_rate : ℕ
  pub protocol_fee_rate : ℕ
  pub liquidity : ℕ
  pub sqrt_price : ℕ
  pub tick_current_index : ℤ
  pub protocol_fee_owed_a : ℕ
  pub protocol_fee_owed_b : ℕ
  pub token_mint_a : Pubkey
  pub token_vault_a : Pubkey
  pub fee_growth_global_a : ℕ
  pub token_mint_b : Pubkey
  pub token_vault_b : Pubkey
  pub fee_growth_global_b : ℕ
  pub reward_last_updated_timestamp : ℕ
  pub reward_infos : List WhirlpoolRewardInfo

pub record Tick : Type 0 where
  pub initialized : Bool
  pub liquidity_net : ℤ
  pub liquidity_gross : ℕ
  pub fee_growth_outside_a : ℕ
  pub fee_growth_outside_b : ℕ
  pub reward_growths_outside : List ℕ

pub record TickArray : Type 0 where
  pub start_tick_index : ℤ
  pub ticks : List Tick
  pub whirlpool : Pubkey

-- The decoder of borsh is a parameter.
abbrev pub from_account_bytes : (Bytes → Option TickArray) → Bytes → Option TickArray
from_account_bytes deserialize bytes =
    if ltb (length bytes) 8 then none else deserialize (drop 8 bytes)

-- A tick spacing of 0, at which the code divides by zero, is left out.
unfoldable pub tick_array_start_index : ℤ → ℕ → ℤ
tick_array_start_index tick_index tick_spacing =
    let ticks_per_array = tick_array_size * tick_spacing in
    as_i32 (scale ticks_per_array (div_euclid tick_index ticks_per_array))

-- From one tick array to the next in the direction of the swap.
abbrev pub array_step : ℕ → Bool → ℤ
array_step tick_spacing a_to_b =
    let ticks_per_array = pos (tick_array_size * tick_spacing) in
    if a_to_b then pos 0 -ℤ ticks_per_array else ticks_per_array

-- `to_string` is the decimal text of a number, as bytes, and `key_bytes` are the bytes of a key.
module _ (from_str_const : String → Pubkey)
    (find_program_address : List Bytes → Pubkey → Pubkey × ℕ) (to_string : ℤ → Bytes)
    (key_bytes : Pubkey → Bytes) where
  unfoldable pub derive_tick_array_pda : Pubkey → ℤ → Pubkey
  derive_tick_array_pda whirlpool start_tick_index =
      let prefix = b't' ∷ b'i' ∷ b'c' ∷ b'k' ∷ b'_' ∷ b'a' ∷ b'r' ∷ b'r' ∷ b'a' ∷ b'y' ∷ [] in
      (find_program_address (prefix ∷ key_bytes whirlpool ∷ to_string start_tick_index ∷ [])
        (from_str_const orca_whirlpool_program)).0

  unfoldable pub derive_oracle_pda : Pubkey → Pubkey
  derive_oracle_pda whirlpool =
      let prefix = b'o' ∷ b'r' ∷ b'a' ∷ b'c' ∷ b'l' ∷ b'e' ∷ [] in
      (find_program_address (prefix ∷ key_bytes whirlpool ∷ [])
        (from_str_const orca_whirlpool_program)).0

  unfoldable pub swap_tick_array_pdas : Pubkey → ℤ → ℕ → Bool → List Pubkey
  unfolding derive_tick_array_pda tick_array_start_index
  swap_tick_array_pdas whirlpool tick_current_index tick_spacing a_to_b =
      let start = tick_array_start_index tick_current_index tick_spacing in
      let step = array_step tick_spacing a_to_b in
      derive_tick_array_pda whirlpool start
      ∷ derive_tick_array_pda whirlpool (as_i32 (start +ℤ step))
      ∷ derive_tick_array_pda whirlpool (as_i32 (start +ℤ scale 2 step))
      ∷ []

-- The structures of the library, with the fields that the code fills.
pub record WhirlpoolRewardInfoFacade : Type 0 where
  pub emissions_per_second_x64 : ℕ
  pub growth_global_x64 : ℕ

pub record WhirlpoolFacade : Type 0 where
  pub fee_tier_index_seed : Bytes
  pub tick_spacing : ℕ
  pub fee_rate : ℕ
  pub protocol_fee_rate : ℕ
  pub liquidity : ℕ
  pub sqrt_price : ℕ
  pub tick_current_index : ℤ
  pub fee_growth_global_a : ℕ
  pub fee_growth_global_b : ℕ
  pub reward_last_updated_timestamp : ℕ
  pub reward_infos : List WhirlpoolRewardInfoFacade

pub record TickFacade : Type 0 where
  pub initialized : Bool
  pub liquidity_net : ℤ
  pub liquidity_gross : ℕ
  pub fee_growth_outside_a : ℕ
  pub fee_growth_outside_b : ℕ
  pub reward_growths_outside : List ℕ

pub record TickArrayFacade : Type 0 where
  pub start_tick_index : ℤ
  pub ticks : List TickFacade

pub data TickArrays : Type 0 where
  one : TickArrayFacade → TickArrays
  two : TickArrayFacade → TickArrayFacade → TickArrays
  three : TickArrayFacade → TickArrayFacade → TickArrayFacade → TickArrays

abbrev pub reward_facade : WhirlpoolRewardInfo → WhirlpoolRewardInfoFacade
reward_facade r = record {
  emissions_per_second_x64 = r.emissions_per_second_x64;
  growth_global_x64 = r.growth_global_x64;
}

unfoldable pub pool_to_facade : WhirlpoolPool → WhirlpoolFacade
pool_to_facade pool = record {
  fee_tier_index_seed = pool.fee_tier_index_seed;
  tick_spacing = pool.tick_spacing;
  fee_rate = pool.fee_rate;
  protocol_fee_rate = pool.protocol_fee_rate;
  liquidity = pool.liquidity;
  sqrt_price = pool.sqrt_price;
  tick_current_index = pool.tick_current_index;
  fee_growth_global_a = pool.fee_growth_global_a;
  fee_growth_global_b = pool.fee_growth_global_b;
  reward_last_updated_timestamp = pool.reward_last_updated_timestamp;
  reward_infos = map reward_facade pool.reward_infos;
}

abbrev pub tick_facade : Tick → TickFacade
tick_facade t = record {
  initialized = t.initialized;
  liquidity_net = t.liquidity_net;
  liquidity_gross = t.liquidity_gross;
  fee_growth_outside_a = t.fee_growth_outside_a;
  fee_growth_outside_b = t.fee_growth_outside_b;
  reward_growths_outside = t.reward_growths_outside;
}

unfoldable pub tick_array_to_facade : TickArray → TickArrayFacade
tick_array_to_facade arr = record {
  start_tick_index = arr.start_tick_index;
  ticks = map tick_facade arr.ticks;
}
