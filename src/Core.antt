-- ===== src/Core.antt =====
-- crates/core: the types that every DEX crate shares (crates/core/src/traits.rs), with the
-- well-known mints in Core/Mints and the constant product formula in Core/ConstantProduct.
pub mod Mints
pub mod ConstantProduct
use Prim.Native.String.{String}
use solana_dex_aggregator.Prelude.{ℕ, Bool, Option, none, some, List}
use solana_dex_aggregator.Prelude.Results.{Result}

-- A public key is the number that its 32 bytes spell, the first byte highest, so that the order of
-- byte arrays is the order of numbers.
abbrev pub Pubkey : Type 0
Pubkey = ℕ

-- The text of a pool address, which the program only stores and compares.
abbrev pub Address : Type 0
Address = ℕ

-- Raw account data.
abbrev pub Bytes : Type 0
Bytes = List ℕ

-- Buy takes quote to base, sell takes base to quote.
pub data SwapDirection : Type 0 where
  buy sell : SwapDirection

pub record PoolFinancials : Type 0 where
  pub quote_balance : ℕ
  pub base_balance : ℕ
  pub quote_decimals : ℕ
  pub base_decimals : ℕ

pub record PoolFees : Type 0 where
  pub trade_fee_bps : ℕ
  pub protocol_fee_bps : Option ℕ

pub record PoolMetadata : Type 0 where
  pub address : Address
  pub dex_name : String
  pub quote_mint : Pubkey
  pub base_mint : Pubkey
  pub quote_vault : Pubkey
  pub base_vault : Pubkey
  pub fees : PoolFees

-- The live account data that a quote may read.
pub record AccountDataProvider : Type 0 where
  pub pool_account_data : Pubkey → Option Bytes
  pub token_balance : Pubkey → ℕ
  pub account_data_with_slot : Pubkey → Option (Bytes × ℕ)

-- The default of `account_data_with_slot`: slot 0 means that the age is unknown.
abbrev pub default_data_with_slot : (Pubkey → Option Bytes) → Pubkey → Option (Bytes × ℕ)
default_data_with_slot get key = elim (get key) [ none ↦ none | some d ↦ some (d, 0) ]

-- The trait object `dyn Market`, without the two methods on floating point prices.
pub record Market : Type 0 where
  pub is_active : Bool
  pub metadata : Result PoolMetadata
  pub financials : Result PoolFinancials
  pub calculate_output : ℕ → SwapDirection → Result ℕ
  pub calculate_output_live : ℕ → SwapDirection → Option Bytes → ℕ → ℕ → Result ℕ
  pub calculate_output_live_ex :
      ℕ → SwapDirection → Option Bytes → ℕ → ℕ → AccountDataProvider → Result ℕ

-- The trait's defaults: the live quote ignores the live data, and the extended one the provider.
abbrev pub default_output_live :
    (ℕ → SwapDirection → Result ℕ) → ℕ → SwapDirection → Option Bytes → ℕ → ℕ → Result ℕ
default_output_live output amount_in direction pool_data quote_balance base_balance =
    output amount_in direction

abbrev pub default_output_live_ex :
    (ℕ → SwapDirection → Option Bytes → ℕ → ℕ → Result ℕ)
    → ℕ
    → SwapDirection
    → Option Bytes
    → ℕ
    → ℕ
    → AccountDataProvider
    → Result ℕ
default_output_live_ex live amount_in direction pool_data quote_balance base_balance provider =
    live amount_in direction pool_data quote_balance base_balance
