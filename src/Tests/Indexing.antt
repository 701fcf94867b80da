-- ===== src/Tests/Indexing.antt =====
-- Tests of the pool index and of the constant product formula.
use solana_dex_aggregator.Prelude.{
  ℕ, ◌+◌, ◌-◌, ◌*◌, ◌≤◌, ◌<◌, ◌≡◌, refl, none, List, All, Memᴰ, map, min, arith,
}
use solana_dex_aggregator.Prelude.Results.{ok}
use solana_dex_aggregator.Prelude.Sort.{Descending, IsTop}
use solana_dex_aggregator.Core.{Pubkey, Address}
use solana_dex_aggregator.Core.ConstantProduct.{constant_product_swap}
use solana_dex_aggregator.Core.ConstantProduct.Bounds.{
  constant_product_swap_safe, constant_product_swap_mono,
}
use solana_dex_aggregator.Index.{
  add_pool, get_pool, direct_pools, neighbors, top_hubs, degree, degrees, cap,
}
use solana_dex_aggregator.Index.Graph.{
  Connects, IsConsistent, add_pool-IsConsistent, direct_pools_sound,
}
use solana_dex_aggregator.Index.Lookup.{Deepest, canonical_pool-Deepest}
use solana_dex_aggregator.Index.Hubs.{top_hubs-IsTop}
use solana_dex_aggregator.Tests.{index, index-IsConsistent, ext, first_pool, balances, entry}

fourth_is_new : get_pool index 13 ≡ none
unfolding get_pool add_pool
fourth_is_new = refl

add_pool-IsConsistent_example : IsConsistent (add_pool 13 (entry 1 2 50_000_000 90_000_000) index)
add_pool-IsConsistent_example =
    add_pool-IsConsistent 13 (entry 1 2 50_000_000 90_000_000) index fourth_is_new
      index-IsConsistent

direct_pools_sound_example :
    All (Connects index.pools 1 2) (direct_pools index 1 2)
    × All (λ (n : Pubkey × Address). Connects index.pools 1 n.0 n.1) (neighbors index 1)
direct_pools_sound_example = direct_pools_sound index 1 2 index-IsConsistent

cold : index.canonical ≡ none
unfolding add_pool
cold = refl

listed : Memᴰ (10, first_pool) index.pools
unfolding add_pool
listed = Memᴰ.head refl

canonical_pool-Deepest_example : Deepest index first_pool (balances 1_000_000_000 2_000_000_000)
canonical_pool-Deepest_example =
    canonical_pool-Deepest index 10 first_pool (balances 1_000_000_000 2_000_000_000) cold listed
      (omega arith, refl)

no_ranking : index.hub_ranking ≡ none
unfolding add_pool
no_ranking = refl

top_hubs-IsTop_example :
    (top : List (ℕ × Pubkey)) × (top_hubs ext.hub_sorts index 2 ≡ map (λ (_, mint). mint) top)
    × IsTop (Descending degree) (min 2 cap) (degrees ext.hub_sorts index) top
top_hubs-IsTop_example = top_hubs-IsTop ext.hub_sorts index 2 no_ranking

constant_product_swap_safe_example :
    (out : ℕ) × (constant_product_swap 1_000 3_000 100 25 ≡ ok out)
    × (out < 3_000)
    × (1_000 * 3_000 ≤ (1_000 + 100) * (3_000 - out))
constant_product_swap_safe_example =
    constant_product_swap_safe 1_000 3_000 100 25 (omega arith) (omega arith) (omega arith)
      (omega arith) (omega arith) (omega arith)

constant_product_swap_mono_example :
    (x y : ℕ) × (constant_product_swap 1_000 3_000 100 25 ≡ ok x)
    × (constant_product_swap 1_000 3_000 200 25 ≡ ok y)
    × (x ≤ y)
constant_product_swap_mono_example =
    constant_product_swap_mono 1_000 3_000 100 200 25 (omega arith) (omega arith) (omega arith)
      (omega arith) (omega arith) (omega arith) (omega arith)
