-- ===== src/Engine/Registry/Fresh.antt =====
-- What an update of a vault leaves in a registry that crates/engine/src/pool_registry.rs can reach.
use solana_dex_aggregator.Prelude.{◌≡◌, ◌⊎◌, some}
use solana_dex_aggregator.Prelude.Maps.{lookup}
use solana_dex_aggregator.Core.{Address, Pubkey}
use solana_dex_aggregator.Engine.Store.{AccountStore}
use solana_dex_aggregator.Engine.Registry.{PoolInfo, PoolRegistry, on_vault_update}
use solana_dex_aggregator.Engine.Registry.Updates.{IsFresh, linked-IsFresh}
use solana_dex_aggregator.Engine.Registry.Reach.{Reach, Reach-IsSound}

-- In a registry that is reached from the empty one by adding pools at new addresses, validating pools
-- and updating vaults: after an update of a vault every pool that has this vault, as its quote or as
-- its base vault, has the flag that the check gives on the store.
pub on_vault_update-IsFresh :
    (vault : Pubkey) (store : AccountStore) {registry : PoolRegistry} (address : Address)
    (info : PoolInfo)
    → Reach registry
    → lookup address (on_vault_update vault store registry).pools ≡ some info
    → (info.quote_vault ≡ vault) ⊎ (info.base_vault ≡ vault)
    → IsFresh store info
on_vault_update-IsFresh vault store {registry} address info reached found uses =
    linked-IsFresh vault store registry address info (Reach-IsSound reached).linked found uses
