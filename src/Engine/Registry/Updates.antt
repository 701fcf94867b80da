-- ===== src/Engine/Registry/Updates.antt =====
-- The reverse index from vaults to pools in crates/engine/src/pool_registry.rs, and what an update
-- of a vault reaches through it.
use solana_dex_aggregator.Prelude.{
  ℕ, ◌≡◌, ◌⊎◌, refl, inl, inr, Bool, true, false, Bool-cases, Option, none, some, List, [], ◌∷◌,
  ◌++◌, arith, ◌==◌, foldl, foldl_inv, subst, All, All-imp, Memᴰ, mem_snoc_old, mem_snoc_new,
}
use solana_dex_aggregator.Prelude.Results.{OnSome, OnSome_value}
use solana_dex_aggregator.Prelude.Maps.{
  Dict, lookup, lookup_or, lookup-insert, lookup-update_or, All-insert, All-lookup,
}
use solana_dex_aggregator.Core.{Pubkey, Address}
use solana_dex_aggregator.Engine.Store.{AccountStore}
use solana_dex_aggregator.Engine.Registry.Counts.{revalidate_cases}
use solana_dex_aggregator.Engine.Registry.{
  PoolInfo, PoolRegistry, add_pool, push_to, check_swappable, set_swappable, differ, revalidate,
  revalidate_found, finish_update, update_pools, on_vault_update,
}

-- The pool is listed under both of its vaults.
abbrev pub ListedIn : Dict (List Address) → Address × PoolInfo → Type 0
ListedIn vaults (address, info) =
    Memᴰ address (lookup_or info.quote_vault [] vaults)
    × Memᴰ address (lookup_or info.base_vault [] vaults)

abbrev pub IsLinked : PoolRegistry → Type 0
IsLinked registry = All (ListedIn registry.vault_to_pool) registry.pools

mem-push_to_old :
    (key vault : Pubkey) (address other : Address) (vaults : Dict (List Address))
    → Memᴰ address (lookup_or vault [] vaults)
    → Memᴰ address (lookup_or vault [] (push_to key other vaults))
mem-push_to_old key vault address other vaults m = elim (Bool-cases (vault == key)) [
  | inl same ↦
      rw (lookup-update_or key vault [] (λ vs. vs ++ other ∷ []) vaults, same)
        (mem_snoc_old address other _
          (subst (λ k. Memᴰ address (lookup_or k [] vaults)) (same_key vault key same) m))
  | inr different ↦ rw (lookup-update_or key vault [] (λ vs. vs ++ other ∷ []) vaults, different) m
]
  where
    same_key : (a b : ℕ) → (a == b) ≡ true → a ≡ b
    same_key a b h = ground arith

mem-push_to_new :
    (key : Pubkey) (address : Address) (vaults : Dict (List Address))
    → Memᴰ address (lookup_or key [] (push_to key address vaults))
mem-push_to_new key address vaults =
    rw (lookup-update_or key key [] (λ vs. vs ++ address ∷ []) vaults, self key)
      (mem_snoc_new address (lookup_or key [] vaults))
  where
    self : (a : ℕ) → (a == a) ≡ true
    self a = ground arith

-- Adding a pool, at a new or at a known address, keeps every pool listed under both of its vaults.
pub add_pool-IsLinked :
    (address : Address) (info : PoolInfo) (registry : PoolRegistry)
    → IsLinked registry
    → IsLinked (add_pool address info registry)
unfolding add_pool
add_pool-IsLinked address info registry h =
    All-insert (ListedIn (add_pool address info registry).vault_to_pool) address info registry.pools
      (All-imp registry.pools
        (λ x listed. (
          mem-push_to_old info.base_vault x.1.quote_vault x.0 address _
              (mem-push_to_old info.quote_vault x.1.quote_vault x.0 address _ listed.0),
          mem-push_to_old info.base_vault x.1.base_vault x.0 address _
              (mem-push_to_old info.quote_vault x.1.base_vault x.0 address _ listed.1),
        ))
        h)
      (
        mem-push_to_old info.base_vault info.quote_vault address address _
            (mem-push_to_new info.quote_vault address registry.vault_to_pool),
        mem-push_to_new info.base_vault address _,
      )

-- A pool whose flag is what the check says now.
abbrev pub IsFresh : AccountStore → PoolInfo → Type 0
IsFresh store info = info.swappable ≡ check_swappable info store

-- What holds of every pool stays with the flag that the check gives.
set_swappable-OnSome :
    (P : PoolInfo → Type 0) (address other : Address) (info : PoolInfo) (now : Bool)
    (registry : PoolRegistry)
    → P (record info { swappable = now })
    → OnSome P (lookup other registry.pools)
    → OnSome P (lookup other (set_swappable address info now registry).pools)
set_swappable-OnSome P address other info now registry p h = elim (Bool-cases (other == address)) [
  | inl same ↦
      rw (lookup-insert address other (record info { swappable = now }) registry.pools, same) p
  | inr different ↦
      rw (lookup-insert address other (record info { swappable = now }) registry.pools, different) h
]

module _ (store : AccountStore) where
  abbrev FreshAt : Address → PoolRegistry × Bool → Type 0
  FreshAt address state = OnSome (IsFresh store) (lookup address state.0.pools)

  IsFresh-now :
      (info : PoolInfo) → IsFresh store (record info { swappable = check_swappable info store })
  unfolding check_swappable
  IsFresh-now info = refl

  no_change : (was now : Bool) → differ was now ≡ false → was ≡ now
  no_change true true h = refl
  no_change true false h = cc
  no_change false true h = cc
  no_change false false h = refl

  revalidate-keeps :
      (address other : Address) (state : PoolRegistry × Bool)
      → FreshAt address state
      → FreshAt address (revalidate store state other)
  revalidate-keeps address other state h =
      revalidate_cases (FreshAt address) store other state h (λ info found changes.
        set_swappable-OnSome (IsFresh store) other address info _ state.0 (IsFresh-now info) h)

  revalidate-FreshAt :
      (address : Address) (state : PoolRegistry × Bool)
      → FreshAt address (revalidate store state address)
  unfolding revalidate
  revalidate-FreshAt address (registry, changed) = go (lookup address registry.pools) refl
    where
      go :
          (found : Option PoolInfo)
          → lookup address registry.pools ≡ found
          → FreshAt address (revalidate_found store address found (registry, changed))
      go none e = rw e tt
      go (some info) e = elim (Bool-cases (differ info.swappable (check_swappable info store))) [
        | inl changes ↦ rw changes (
            rw
              (
                lookup-insert address address
                    (record info { swappable = check_swappable info store }) registry.pools,
                self address,
              )
              (IsFresh-now info))
        | inr same ↦ rw same (rw e (no_change _ _ same))
      ]
        where
          self : (a : ℕ) → (a == a) ≡ true
          self a = ground arith

  all_fresh_after :
      (address : Address) (addresses : List Address) (state : PoolRegistry × Bool)
      → Memᴰ address addresses
      → FreshAt address (foldl (revalidate store) state addresses)
  all_fresh_after address [] state m = elim m [ ]
  all_fresh_after address (other ∷ rest) state (Memᴰ.head e) =
      foldl_inv (FreshAt address) (revalidate store) rest _
        (λ s a _ k. revalidate-keeps address a s k)
        (subst (λ a. FreshAt address (revalidate store state a)) e
          (revalidate-FreshAt address state))
  all_fresh_after address (other ∷ rest) state (Memᴰ.tail m) = all_fresh_after address rest _ m

-- The pools come out of the loop listed as before, and the reverse index is untouched.
abbrev Kept : Dict (List Address) → PoolRegistry × Bool → Type 0
Kept vaults state = (state.0.vault_to_pool ≡ vaults) × All (ListedIn vaults) state.0.pools

revalidate-Kept :
    (store : AccountStore) (vaults : Dict (List Address)) (address : Address)
    (state : PoolRegistry × Bool)
    → Kept vaults state
    → Kept vaults (revalidate store state address)
revalidate-Kept store vaults address state h =
    revalidate_cases (Kept vaults) store address state h λ info found changes. (
      h.0,
      All-insert (ListedIn vaults) address _ state.0.pools h.1
          (All-lookup (ListedIn vaults) address state.0.pools h.1 found),
    )

finish_pools : (state : PoolRegistry × Bool) → (finish_update state).pools ≡ state.0.pools
finish_pools (registry, true) = refl
finish_pools (registry, false) = refl

-- Where the reverse index lists every pool, every pool that has the vault is fresh after an update.
pub linked-IsFresh :
    (vault : Pubkey) (store : AccountStore) (registry : PoolRegistry) (address : Address)
    (info : PoolInfo)
    → IsLinked registry
    → lookup address (on_vault_update vault store registry).pools ≡ some info
    → (info.quote_vault ≡ vault) ⊎ (info.base_vault ≡ vault)
    → IsFresh store info
unfolding on_vault_update
linked-IsFresh vault store registry address info linked found uses =
    go (lookup vault registry.vault_to_pool) refl found
  where
    listed :
        ListedIn registry.vault_to_pool (address, info)
        → (info.quote_vault ≡ vault) ⊎ (info.base_vault ≡ vault)
        → Memᴰ address (lookup_or vault [] registry.vault_to_pool)
    listed l (inl e) = subst (λ v. Memᴰ address (lookup_or v [] registry.vault_to_pool)) e l.0
    listed l (inr e) = subst (λ v. Memᴰ address (lookup_or v [] registry.vault_to_pool)) e l.1

    go :
        (o : Option (List Address))
        → lookup vault registry.vault_to_pool ≡ o
        → lookup address (update_pools store o registry).pools ≡ some info
        → IsFresh store info
    go none e f = absurd (
        elim (rw e at listed
          (All-lookup (ListedIn registry.vault_to_pool) address registry.pools linked f) uses) [ ])
    go (some addresses) e f =
        let state = foldl (revalidate store) (registry, false) addresses in
        let f' = rw (finish_pools state) at f in
        let kept =
          foldl_inv (Kept registry.vault_to_pool) (revalidate store) addresses (registry, false)
            (λ s a _ k. revalidate-Kept store registry.vault_to_pool a s k) (refl, linked) in
        let m =
          rw e at listed (All-lookup (ListedIn registry.vault_to_pool) address _ kept.1 f') uses in
        OnSome_value (IsFresh store) (lookup address state.0.pools)
          (all_fresh_after store address addresses (registry, false) m) f'
