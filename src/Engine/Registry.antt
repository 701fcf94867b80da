-- ===== src/Engine/Registry.antt =====
-- crates/engine/src/pool_registry.rs: the pools with their swappable flags, the counter of the flags
-- that are set, and the cached set of swappable addresses that the router receives.
pub mod Counts
pub mod Updates
pub mod Reach
pub mod Fresh
pub mod Rebuilt
pub mod Validate
use Prim.Native.String.{String}
use text.Mathlib.Text.{◌==◌ as str_eq}
use solana_dex_aggregator.Prelude.{
  ℕ, ◌+◌, Bool, true, false, not, ◌&&◌, Option, none, some, List, [], ◌∷◌, ◌++◌, map, ltb, ◌==◌,
  if◌then◌else◌, filter, foldl, length, contains, sub64, as_u64,
}
use solana_dex_aggregator.Prelude.Maps.{Dict, lookup, lookup_or, insert, update_or}
use solana_dex_aggregator.Prelude.Results.{Result, ok, err}
use solana_dex_aggregator.Core.{Pubkey, Address, Bytes, Market, PoolFinancials}
use solana_dex_aggregator.Index.{count_dex}
use solana_dex_aggregator.Engine.Store.{AccountStore, read_token_balance}

-- The market holds the metadata and the quotes of the pool.
pub record PoolInfo : Type 0 where
  pub address : Address
  pub dex_name : String
  pub market : Market
  pub swappable : Bool
  pub quote_mint : Pubkey
  pub base_mint : Pubkey
  pub quote_vault : Pubkey
  pub base_vault : Pubkey
  pub tick_arrays : List Pubkey
  pub bitmap_ext : Option Pubkey
  pub bin_array : Option Pubkey
  pub cached_data : Bytes

pub record PoolRegistry : Type 0 where
  pub pools : Dict PoolInfo
  pub edges : Dict (List (Pubkey × Address))
  pub dex_counts : List (String × ℕ)
  pub swappable_count : ℕ
  pub cached_swappable : List Address
  pub vault_to_pool : Dict (List Address)

abbrev pub new : PoolRegistry
new = record {
  pools = [];
  edges = [];
  dex_counts = [];
  swappable_count = 0;
  cached_swappable = [];
  vault_to_pool = [];
}

-- `fetch_add(1)` and `fetch_sub(1)`, which wrap around.
abbrev pub count_up : ℕ → ℕ
count_up n = as_u64 (n + 1)

abbrev pub count_down : ℕ → ℕ
count_down n = sub64 n 1

abbrev pub push_to : {V : Type 0} → ℕ → V → Dict (List V) → Dict (List V)
push_to key v = update_or key [] (λ vs. vs ++ v ∷ [])

unfoldable pub add_pool : Address → PoolInfo → PoolRegistry → PoolRegistry
add_pool address info registry = record registry {
  edges =
      push_to info.base_mint (info.quote_mint, address)
        (push_to info.quote_mint (info.base_mint, address) registry.edges);
  vault_to_pool =
      push_to info.base_vault address (push_to info.quote_vault address registry.vault_to_pool);
  dex_counts = count_dex info.dex_name registry.dex_counts;
  swappable_count =
      if info.swappable then count_up registry.swappable_count else registry.swappable_count;
  pools = insert address info registry.pools;
}

abbrev pub get_pool : PoolRegistry → Address → Option PoolInfo
get_pool registry address = lookup address registry.pools

unfoldable pub direct_pools : PoolRegistry → Pubkey → Pubkey → List Address
direct_pools registry a b = map (λ e. e.1) (filter (λ e. e.0 == b) (lookup_or a [] registry.edges))

unfoldable pub neighbors : PoolRegistry → Pubkey → List (Pubkey × Address)
neighbors registry mint = lookup_or mint [] registry.edges

abbrev pub pool_count : PoolRegistry → ℕ
pool_count registry = length registry.pools

abbrev pub unique_mints : PoolRegistry → ℕ
unique_mints registry = length registry.edges

-- Both vaults hold something in the store.
abbrev pub vaults_funded : PoolInfo → AccountStore → Bool
vaults_funded info store =
    ltb 0 (read_token_balance store info.quote_vault)
    && ltb 0 (read_token_balance store info.base_vault)

unfoldable pub check_swappable : PoolInfo → AccountStore → Bool
check_swappable info store =
    if str_eq info.dex_name "Pumpfun AMM"
    then true
    else if str_eq info.dex_name "Raydium AMM V4"
    then vaults_funded info store
    else info.market.is_active && vaults_funded info store

-- `financials().is_ok_and(..)`
abbrev pub is_funded : Result PoolFinancials → Bool
is_funded (err _) = false
is_funded (ok f) = ltb 0 f.quote_balance && ltb 0 f.base_balance

unfoldable pub check_swappable_cached : PoolInfo → Bool
check_swappable_cached info =
    if str_eq info.dex_name "Pumpfun AMM"
    then true
    else if str_eq info.dex_name "Raydium AMM V4"
    then is_funded info.market.financials
    else info.market.is_active && is_funded info.market.financials

-- The flag of a pool is set to `now`, and the counter follows if it changes.
abbrev pub set_swappable : Address → PoolInfo → Bool → PoolRegistry → PoolRegistry
set_swappable address info now registry = record registry {
  pools = insert address (record info { swappable = now }) registry.pools;
  swappable_count =
      if now then count_up registry.swappable_count else count_down registry.swappable_count;
}

abbrev pub differ : Bool → Bool → Bool
differ true now = not now
differ false now = now

-- `match self.pools.get_mut(address)`, and the rest of `validate_pool`.
abbrev pub validate_found : Address → AccountStore → Option PoolInfo → PoolRegistry → PoolRegistry
validate_found address store none registry = registry
validate_found address store (some info) registry =
    let now = check_swappable info store in
    if differ info.swappable now then set_swappable address info now registry else registry

unfoldable pub validate_pool : Address → AccountStore → PoolRegistry → PoolRegistry
unfolding check_swappable
validate_pool address store registry =
    validate_found address store (lookup address registry.pools) registry

abbrev pub swappable_addresses : Dict PoolInfo → List Address
swappable_addresses [] = []
swappable_addresses ((address, info) ∷ pools) =
    if info.swappable then address ∷ swappable_addresses pools else swappable_addresses pools

abbrev pub rebuild_swappable_set : PoolRegistry → PoolRegistry
rebuild_swappable_set registry = record registry {
  cached_swappable = swappable_addresses registry.pools;
}

-- One round of the loop of `on_vault_update`, on what is found at the address.
abbrev pub revalidate_found :
    AccountStore → Address → Option PoolInfo → PoolRegistry × Bool → PoolRegistry × Bool
revalidate_found store address none state = state
revalidate_found store address (some info) (registry, changed) =
    let now = check_swappable info store in
    if differ info.swappable now
    then (set_swappable address info now registry, true)
    else (registry, changed)

unfoldable pub revalidate : AccountStore → PoolRegistry × Bool → Address → PoolRegistry × Bool
unfolding check_swappable
revalidate store state address = revalidate_found store address (lookup address state.0.pools) state

abbrev pub finish_update : PoolRegistry × Bool → PoolRegistry
finish_update (registry, changed) = if changed then rebuild_swappable_set registry else registry

abbrev pub update_pools : AccountStore → Option (List Address) → PoolRegistry → PoolRegistry
update_pools store none registry = registry
update_pools store (some addresses) registry =
    finish_update (foldl (revalidate store) (registry, false) addresses)

unfoldable pub on_vault_update : Pubkey → AccountStore → PoolRegistry → PoolRegistry
unfolding revalidate
on_vault_update vault store registry =
    update_pools store (lookup vault registry.vault_to_pool) registry

-- `HashSet::insert`.
abbrev pub insert_address : Address → List Address → List Address
insert_address address set = if contains set address then set else set ++ address ∷ []

-- The counter, which wraps around, and the set after a pool whose flag is `now`.
abbrev pub note_swappable : Bool → Address → ℕ × List Address → ℕ × List Address
note_swappable true address (count, set) = (count_up count, insert_address address set)
note_swappable false address noted = noted

-- The loop of the two functions below over the pools: it sets each flag, and counts and collects
-- those that are set.
abbrev pub validate_loop :
    (PoolInfo → Bool) → Dict PoolInfo → ℕ × List Address → Dict PoolInfo × (ℕ × List Address)
validate_loop check [] noted = ([], noted)
validate_loop check ((address, info) ∷ pools) noted =
    let now = check info in
    let (rest, all) = validate_loop check pools (note_swappable now address noted) in
    ((address, record info { swappable = now }) ∷ rest, all)

abbrev pub validate_with : (PoolInfo → Bool) → PoolRegistry → PoolRegistry
validate_with check registry =
    let (pools, (count, set)) = validate_loop check registry.pools (0, []) in
    record registry { pools = pools; swappable_count = count; cached_swappable = set }

unfoldable pub validate_all : AccountStore → PoolRegistry → PoolRegistry
unfolding check_swappable
validate_all store registry = validate_with (λ info. check_swappable info store) registry

unfoldable pub validate_from_cache : PoolRegistry → PoolRegistry
unfolding check_swappable_cached
validate_from_cache registry = validate_with check_swappable_cached registry
