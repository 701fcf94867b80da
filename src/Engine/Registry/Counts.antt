-- ===== src/Engine/Registry/Counts.antt =====
-- The counter of swappable pools and the cached set of crates/engine/src/pool_registry.rs.
use solana_dex_aggregator.Prelude.{
  ℕ, ◌+◌, ◌≡◌, refl, ap, ◌∙◌, inl, inr, Bool, true, false, Bool-cases, Option, none, some, List, [],
  ◌∷◌, arith, ◌==◌, if◌then◌else◌, foldl_inv, sub64, as_u64,
}
use solana_dex_aggregator.Prelude.Maps.{Dict, lookup, insert}
use solana_dex_aggregator.Prelude.Results.{some_inj}
use solana_dex_aggregator.Core.{Pubkey, Address}
use solana_dex_aggregator.Engine.Store.{AccountStore}
use solana_dex_aggregator.Engine.Registry.{
  PoolInfo, PoolRegistry, add_pool, check_swappable, set_swappable, differ, validate_found,
  validate_pool, swappable_addresses, revalidate, revalidate_found, finish_update, update_pools,
  on_vault_update, count_up, count_down,
}

-- How many pools have their flag set.
abbrev pub count_swappable : Dict PoolInfo → ℕ
count_swappable [] = 0
count_swappable ((_, info) ∷ pools) = (if info.swappable then 1 else 0) + count_swappable pools

-- The counter is the number of flags that are set, as a machine word.
abbrev pub IsCounted : PoolRegistry → Type 0
IsCounted registry = registry.swappable_count ≡ as_u64 (count_swappable registry.pools)

-- The cached set holds the addresses of the swappable pools.
abbrev pub IsCurrent : PoolRegistry → Type 0
IsCurrent registry = registry.cached_swappable ≡ swappable_addresses registry.pools

abbrev flag : PoolInfo → ℕ
flag info = if info.swappable then 1 else 0

count-insert_fresh :
    (address : Address) (info : PoolInfo) (pools : Dict PoolInfo)
    → lookup address pools ≡ none
    → count_swappable (insert address info pools) ≡ flag info + count_swappable pools
count-insert_fresh address info [] h = refl
count-insert_fresh address info ((j, other) ∷ pools) h = elim (Bool-cases (address == j)) [
  | inl same ↦ absurd (ground (arith, rw same at h))
  | inr different ↦
      rw different (omega (arith, count-insert_fresh address info pools (rw different at h)))
]

count-insert_known :
    (address : Address) (info : PoolInfo) {old : PoolInfo} (pools : Dict PoolInfo)
    → lookup address pools ≡ some old
    → flag old + count_swappable (insert address info pools) ≡ flag info + count_swappable pools
count-insert_known address info [] h = cc
count-insert_known address info {old} ((j, other) ∷ pools) h = elim (Bool-cases (address == j)) [
  | inl same ↦ rw same (omega (arith, ap flag (some_inj (rw same at h))))
  | inr different ↦
      rw different
        (omega (arith, count-insert_known address info {old = old} pools (rw different at h)))
]

pub up_lem : (n m k : ℕ) → n ≡ as_u64 m → k ≡ m + 1 → count_up n ≡ as_u64 k
unfolding as_u64
up_lem n m k h e = omega (arith, h, e)

down_lem : (n m k : ℕ) → n ≡ as_u64 m → k + 1 ≡ m → count_down n ≡ as_u64 k
unfolding as_u64 sub64
down_lem n m k h e = omega (arith, h, e)

up_if :
    (b : Bool) (n m k : ℕ)
    → n ≡ as_u64 m
    → k ≡ (if b then 1 else 0) + m
    → (if b then count_up n else n) ≡ as_u64 k
up_if true n m k h e = up_lem n m k h (omega (arith, e))
up_if false n m k h e = h ∙ ap as_u64 (omega (arith, e))

switch :
    (was now : Bool) (n m k : ℕ)
    → differ was now ≡ true
    → n ≡ as_u64 m
    → (if was then 1 else 0) + k ≡ (if now then 1 else 0) + m
    → (if now then count_up n else count_down n) ≡ as_u64 k
switch true true n m k d h e = cc
switch true false n m k d h e = down_lem n m k h (omega (arith, e))
switch false true n m k d h e = up_lem n m k h (omega (arith, e))
switch false false n m k d h e = cc

-- Adding a pool at a new address keeps the counter right.
pub add_pool-IsCounted :
    (address : Address) (info : PoolInfo) (registry : PoolRegistry)
    → lookup address registry.pools ≡ none
    → IsCounted registry
    → IsCounted (add_pool address info registry)
unfolding add_pool
add_pool-IsCounted address info registry fresh h =
    up_if info.swappable _ _ _ h (count-insert_fresh address info registry.pools fresh)

pub set_swappable-IsCounted :
    (address : Address) (info : PoolInfo) (now : Bool) (registry : PoolRegistry)
    → lookup address registry.pools ≡ some info
    → differ info.swappable now ≡ true
    → IsCounted registry
    → IsCounted (set_swappable address info now registry)
set_swappable-IsCounted address info now registry found changes h =
    switch info.swappable now _ _ _ changes h
      (count-insert_known address (record info { swappable = now }) registry.pools found)

-- Validating a pool keeps the counter right, whether or not the flag changes.
pub validate_pool-IsCounted :
    (address : Address) (store : AccountStore) (registry : PoolRegistry)
    → IsCounted registry
    → IsCounted (validate_pool address store registry)
unfolding validate_pool
validate_pool-IsCounted address store registry h = go (lookup address registry.pools) refl
  where
    go :
        (found : Option PoolInfo)
        → lookup address registry.pools ≡ found
        → IsCounted (validate_found address store found registry)
    go none e = h
    go (some info) e = elim (Bool-cases (differ info.swappable (check_swappable info store))) [
      | inl changes ↦ rw changes (set_swappable-IsCounted address info _ registry e changes h)
      | inr same ↦ rw same h
    ]

-- What holds of the registry and of `changed` after a round, by the two ways in which it ends.
module _ (P : PoolRegistry × Bool → Type 0) (store : AccountStore) (address : Address) where
  pub revalidate_cases :
      (state : PoolRegistry × Bool)
      → P state
      → ((info : PoolInfo)
          → lookup address state.0.pools ≡ some info
          → differ info.swappable (check_swappable info store) ≡ true
          → P (set_swappable address info (check_swappable info store) state.0, true))
      → P (revalidate store state address)
  unfolding revalidate
  revalidate_cases state h k = go (lookup address state.0.pools) refl
    where
      go :
          (found : Option PoolInfo)
          → lookup address state.0.pools ≡ found
          → P (revalidate_found store address found state)
      go none e = h
      go (some info) e = elim (Bool-cases (differ info.swappable (check_swappable info store))) [
        | inl changes ↦ rw changes (k info e changes)
        | inr same ↦ rw same h
      ]

finish-IsCounted :
    (state : PoolRegistry × Bool) → IsCounted state.0 → IsCounted (finish_update state)
finish-IsCounted (registry, true) h = h
finish-IsCounted (registry, false) h = h

-- So does an update of a vault, over all the pools that use it.
pub on_vault_update-IsCounted :
    (vault : Pubkey) (store : AccountStore) (registry : PoolRegistry)
    → IsCounted registry
    → IsCounted (on_vault_update vault store registry)
unfolding on_vault_update
on_vault_update-IsCounted vault store registry h = go (lookup vault registry.vault_to_pool)
  where
    go : (found : Option (List Address)) → IsCounted (update_pools store found registry)
    go none = h
    go (some addresses) = finish-IsCounted _ (
        foldl_inv (λ (state : PoolRegistry × Bool). IsCounted state.0) (revalidate store) addresses
          (registry, false)
          (λ state address _ k.
            revalidate_cases (λ (state : PoolRegistry × Bool). IsCounted state.0) store address
              state k
              (λ info found changes.
                set_swappable-IsCounted address info _ state.0 found changes k))
          h)

finish-IsCurrent :
    (state : PoolRegistry × Bool)
    → (state.1 ≡ false → IsCurrent state.0)
    → IsCurrent (finish_update state)
finish-IsCurrent (registry, true) h = refl
finish-IsCurrent (registry, false) h = h refl

-- An update of a vault leaves the cached set equal to the swappable pools if it was so before.
pub on_vault_update-IsCurrent :
    (vault : Pubkey) (store : AccountStore) (registry : PoolRegistry)
    → IsCurrent registry
    → IsCurrent (on_vault_update vault store registry)
unfolding on_vault_update
on_vault_update-IsCurrent vault store registry h = go (lookup vault registry.vault_to_pool)
  where
    go : (found : Option (List Address)) → IsCurrent (update_pools store found registry)
    go none = h
    go (some addresses) = finish-IsCurrent _ (
        foldl_inv (λ (state : PoolRegistry × Bool). state.1 ≡ false → IsCurrent state.0)
          (revalidate store) addresses (registry, false)
          (λ state address _ k.
            revalidate_cases (λ (state : PoolRegistry × Bool). state.1 ≡ false → IsCurrent state.0)
              store address state k (λ info found changes e. cc))
          (λ _. h))
