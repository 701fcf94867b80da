-- ===== src/Router/Types.antt =====
-- The routes of crates/aggregator/src/types.rs.
use Prim.Native.String.{String}
use solana_dex_aggregator.Prelude.{ℕ, List, Option, none, some, [], ◌∷◌}
use solana_dex_aggregator.Core.{Pubkey, Address}

pub record RouteHop : Type 0 where
  pub pool_address : Address
  pub dex_name : String
  pub input_mint : Pubkey
  pub output_mint : Pubkey
  pub input_amount : ℕ
  pub output_amount : ℕ
  pub price_impact_bps : ℕ

pub record Route : Type 0 where
  pub hops : List RouteHop
  pub input_mint : Pubkey
  pub output_mint : Pubkey
  pub input_amount : ℕ
  pub output_amount : ℕ
  pub price_impact_bps : ℕ

pub record Quote : Type 0 where
  pub routes : List Route

-- `first` and `last` of a vector.
abbrev pub first {ℓ} : {A : Type ℓ} → List A → Option A
first [] = none
first (x ∷ xs) = some x

abbrev pub last {ℓ} : {A : Type ℓ} → List A → Option A
last [] = none
last (x ∷ []) = some x
last (x ∷ y ∷ xs) = last (y ∷ xs)

abbrev pub best : Quote → Option Route
best quote = first quote.routes
