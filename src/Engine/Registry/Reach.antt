-- ===== src/Engine/Registry/Reach.antt =====
-- The registry of crates/engine/src/pool_registry.rs as a state machine: what holds of every registry
-- that pool additions, validations and vault updates can reach, in any order.
use solana_dex_aggregator.Prelude.{
  ◌≡◌, refl, sym, subst, Bool, true, false, inl, inr, Bool-cases, Option, none, some, List, [], ◌∷◌,
  foldl_inv, All, as_u64, ◌==◌,
}
use solana_dex_aggregator.Prelude.Maps.{Dict, lookup, IsMap, insert-IsMap, All-insert, All-lookup}
use solana_dex_aggregator.Core.{Address, Pubkey}
use solana_dex_aggregator.Engine.Store.{AccountStore}
use solana_dex_aggregator.Engine.Registry.{
  PoolInfo, PoolRegistry, new, add_pool, check_swappable, check_swappable_cached, set_swappable,
  differ, validate_found, validate_pool, revalidate, finish_update, update_pools, on_vault_update,
  validate_with, validate_all, validate_from_cache,
}
use solana_dex_aggregator.Engine.Registry.Counts.{
  IsCounted, add_pool-IsCounted, set_swappable-IsCounted, revalidate_cases,
}
use solana_dex_aggregator.Engine.Registry.Updates.{ListedIn, IsLinked, add_pool-IsLinked}
use solana_dex_aggregator.Engine.Registry.Validate.{set_flags, loop_pools, validate_with-IsCounted}

-- No address is listed twice, the counter is the number of flags that are set, as a machine word, and
-- every pool is listed under both of its vaults.
pub record IsSound (registry : PoolRegistry) : Type 0 where
  pub distinct : IsMap registry.pools
  pub counted : IsCounted registry
  pub linked : IsLinked registry

-- What the engine does to its registry. A pool is added at a new address.
pub data Step : PoolRegistry → PoolRegistry → Type 0 where
  add :
      (address : Address) (info : PoolInfo) (r : PoolRegistry)
      → lookup address r.pools ≡ none
      → Step r (add_pool address info r)
  validate :
      (address : Address) (store : AccountStore) (r : PoolRegistry)
      → Step r (validate_pool address store r)
  vault :
      (key : Pubkey) (store : AccountStore) (r : PoolRegistry)
      → Step r (on_vault_update key store r)
  all : (store : AccountStore) (r : PoolRegistry) → Step r (validate_all store r)
  from_cache : (r : PoolRegistry) → Step r (validate_from_cache r)

pub data Reach : PoolRegistry → Type 0 where
  here : Reach new
  next : {r r' : PoolRegistry} → Reach r → Step r r' → Reach r'

new-IsSound : IsSound new
unfolding as_u64
new-IsSound = record { distinct = tt; counted = refl; linked = tt }

add_pool-IsSound :
    (address : Address) (info : PoolInfo) (r : PoolRegistry)
    → lookup address r.pools ≡ none
    → IsSound r
    → IsSound (add_pool address info r)
unfolding add_pool
add_pool-IsSound address info r fresh s = record {
  distinct = insert-IsMap address info r.pools s.distinct;
  counted = add_pool-IsCounted address info r fresh s.counted;
  linked = add_pool-IsLinked address info r s.linked;
}

set_swappable-IsSound :
    (address : Address) (info : PoolInfo) (now : Bool) (r : PoolRegistry)
    → lookup address r.pools ≡ some info
    → differ info.swappable now ≡ true
    → IsSound r
    → IsSound (set_swappable address info now r)
set_swappable-IsSound address info now r found changes s = record {
  distinct = insert-IsMap address _ r.pools s.distinct;
  counted = set_swappable-IsCounted address info now r found changes s.counted;
  linked =
      All-insert (ListedIn r.vault_to_pool) address _ r.pools s.linked
        (All-lookup (ListedIn r.vault_to_pool) address r.pools s.linked found);
}

validate_pool-IsSound :
    (address : Address) (store : AccountStore) (r : PoolRegistry)
    → IsSound r
    → IsSound (validate_pool address store r)
unfolding validate_pool
validate_pool-IsSound address store r s = go (lookup address r.pools) refl
  where
    go :
        (found : Option PoolInfo)
        → lookup address r.pools ≡ found
        → IsSound (validate_found address store found r)
    go none e = s
    go (some info) e = elim (Bool-cases (differ info.swappable (check_swappable info store))) [
      | inl changes ↦ rw changes (set_swappable-IsSound address info _ r e changes s)
      | inr same ↦ rw same s
    ]

finish-IsSound : (state : PoolRegistry × Bool) → IsSound state.0 → IsSound (finish_update state)
finish-IsSound (r, true) s = record {
  distinct = s.distinct;
  counted = s.counted;
  linked = s.linked;
}
finish-IsSound (r, false) s = s

abbrev SoundRound : PoolRegistry × Bool → Type 0
SoundRound state = IsSound state.0

on_vault_update-IsSound :
    (key : Pubkey) (store : AccountStore) (r : PoolRegistry)
    → IsSound r
    → IsSound (on_vault_update key store r)
unfolding on_vault_update
on_vault_update-IsSound key store r s = go (lookup key r.vault_to_pool)
  where
    go : (found : Option (List Address)) → IsSound (update_pools store found r)
    go none = s
    go (some addresses) = finish-IsSound _ (
        foldl_inv SoundRound (revalidate store) addresses (r, false)
          (λ state address _ k.
            revalidate_cases SoundRound store address state k
              (λ info found changes. set_swappable-IsSound address info _ state.0 found changes k))
          s)

module _ (check : PoolInfo → Bool) where
  set_flags-none :
      (k : Address) (pools : Dict PoolInfo)
      → lookup k pools ≡ none
      → lookup k (set_flags check pools) ≡ none
  set_flags-none k [] h = h
  set_flags-none k ((j, info) ∷ pools) h = elim (Bool-cases (k == j)) [
    | inl same ↦ cc (rw same at h)
    | inr other ↦ rw other (set_flags-none k pools (rw other at h))
  ]

  set_flags-IsMap : (pools : Dict PoolInfo) → IsMap pools → IsMap (set_flags check pools)
  set_flags-IsMap [] h = tt
  set_flags-IsMap ((j, info) ∷ pools) h = (set_flags-none j pools h.0, set_flags-IsMap pools h.1)

  set_flags-ListedIn :
      (vaults : Dict (List Address)) (pools : Dict PoolInfo)
      → All (ListedIn vaults) pools
      → All (ListedIn vaults) (set_flags check pools)
  set_flags-ListedIn vaults [] h = tt
  set_flags-ListedIn vaults ((j, info) ∷ pools) h = (h.0, set_flags-ListedIn vaults pools h.1)

  validate_with-IsSound : (r : PoolRegistry) → IsSound r → IsSound (validate_with check r)
  validate_with-IsSound r s =
      let flags = sym (loop_pools check r.pools (0, [])) in
      record {
        distinct = subst IsMap flags (set_flags-IsMap r.pools s.distinct);
        counted = validate_with-IsCounted check r;
        linked =
            subst (All (ListedIn r.vault_to_pool)) flags
              (set_flags-ListedIn r.vault_to_pool r.pools s.linked);
      }

Step-IsSound : {r r' : PoolRegistry} → Step r r' → IsSound r → IsSound r'
unfolding validate_all validate_from_cache
Step-IsSound (add address info r fresh) s = add_pool-IsSound address info r fresh s
Step-IsSound (validate address store r) s = validate_pool-IsSound address store r s
Step-IsSound (vault key store r) s = on_vault_update-IsSound key store r s
Step-IsSound (all store r) s = validate_with-IsSound (λ info. check_swappable info store) r s
Step-IsSound (from_cache r) s = validate_with-IsSound check_swappable_cached r s

-- In every registry that is reached from the empty one by adding pools at new addresses, validating
-- pools, one or all, from the store or from the cache, and updating vaults, in any order: no address
-- is listed twice, the counter is the number of swappable pools as a machine word, and every pool is
-- listed under both of its vaults.
pub Reach-IsSound : {r : PoolRegistry} → Reach r → IsSound r
Reach-IsSound here = new-IsSound
Reach-IsSound (next reached step) = Step-IsSound step (Reach-IsSound reached)
