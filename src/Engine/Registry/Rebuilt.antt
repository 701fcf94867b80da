-- ===== src/Engine/Registry/Rebuilt.antt =====
-- When an update of a vault rebuilds the cached set of crates/engine/src/pool_registry.rs.
use solana_dex_aggregator.Prelude.{
  ◌≡◌, ◌≢◌, ◌⊎◌, refl, inl, inr, subst, sym, Bool, true, false, Option, none, some, List, [], Memᴰ,
  foldl_inv,
}
use solana_dex_aggregator.Prelude.Maps.{lookup, lookup_or}
use solana_dex_aggregator.Core.{Address, Pubkey}
use solana_dex_aggregator.Engine.Store.{AccountStore}
use solana_dex_aggregator.Engine.Registry.{
  PoolInfo, PoolRegistry, check_swappable, differ, revalidate, finish_update, update_pools,
  on_vault_update,
}
use solana_dex_aggregator.Engine.Registry.Counts.{IsCurrent, revalidate_cases}

-- A pool of the list whose flag is not what the check says.
pub record IsOutdated (store : AccountStore) (registry : PoolRegistry) (addresses : List Address)
    : Type 0 where
  pub address : Address
  pub info : PoolInfo
  pub listed : Memᴰ address addresses
  pub found : lookup address registry.pools ≡ some info
  pub outdated : info.swappable ≢ check_swappable info store

differ-ne : (was now : Bool) → differ was now ≡ true → was ≢ now
differ-ne true true d = cc
differ-ne true false d = λ e. cc
differ-ne false true d = λ e. cc
differ-ne false false d = cc

module _ (store : AccountStore) (registry : PoolRegistry) (addresses : List Address) where
  -- The rounds so far changed nothing, or came across a pool that is outdated.
  abbrev Told : PoolRegistry × Bool → Type 0
  Told state =
      (state ≡ (registry, false)) ⊎ ((state.1 ≡ true) × IsOutdated store registry addresses)

  revalidate-Told :
      (state : PoolRegistry × Bool) (address : Address)
      → Memᴰ address addresses
      → Told state
      → Told (revalidate store state address)
  revalidate-Told state address listed (inl same) =
      subst (λ s. Told (revalidate store s address)) (sym same)
        (revalidate_cases Told store address (registry, false) (inl refl)
          (λ info found changes. inr (
            refl,
            record {
              address = address;
              info = info;
              listed = listed;
              found = found;
              outdated = differ-ne _ _ changes;
            },
          )))
  revalidate-Told state address listed (inr told) =
      revalidate_cases Told store address state (inr told)
        (λ info found changes. inr (refl, told.1))

  finish-Told :
      (state : PoolRegistry × Bool)
      → Told state
      → (finish_update state ≡ registry)
        ⊎ (IsCurrent (finish_update state) × IsOutdated store registry addresses)
  finish-Told state (inl same) = inl (subst (λ s. finish_update s ≡ registry) (sym same) refl)
  finish-Told (after, true) (inr (told, outdated)) = inr (refl, outdated)
  finish-Told (after, false) (inr (told, outdated)) = cc

-- From whatever state, an update of a vault leaves the whole registry as it is, or else some pool that
-- the reverse index lists for the vault had a flag that differs from the check on the store, and the
-- cached set is afterwards that of the pools whose flag is set.
pub on_vault_update-rebuild_swappable_set :
    (vault : Pubkey) (store : AccountStore) (registry : PoolRegistry)
    → (on_vault_update vault store registry ≡ registry)
      ⊎ (IsCurrent (on_vault_update vault store registry)
          × IsOutdated store registry (lookup_or vault [] registry.vault_to_pool))
unfolding on_vault_update
on_vault_update-rebuild_swappable_set vault store registry =
    go (lookup vault registry.vault_to_pool) refl
  where
    go :
        (found : Option (List Address))
        → lookup vault registry.vault_to_pool ≡ found
        → (update_pools store found registry ≡ registry)
          ⊎ (IsCurrent (update_pools store found registry)
              × IsOutdated store registry (lookup_or vault [] registry.vault_to_pool))
    go none e = inl refl
    go (some addresses) e = rw e (
        finish-Told store registry addresses _ (
          foldl_inv (Told store registry addresses) (revalidate store) addresses (registry, false)
            (λ state address listed told.
              revalidate-Told store registry addresses state address listed told)
            (inl refl)))
