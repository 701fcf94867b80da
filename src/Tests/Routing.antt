-- ===== src/Tests/Routing.antt =====
-- Tests of the router on the sample index.
use solana_dex_aggregator.Prelude.{
  ◌≡◌, refl, none, some, [], ◌∷◌, All, Memᴰ, ◌≤◌, as_u64, as_u128, sub64, sat_mul64, sat_add64,
  arith, inl,
}
use solana_dex_aggregator.Prelude.Results.{OnSome}
use solana_dex_aggregator.Prelude.Sort.{IsTop}
use solana_dex_aggregator.Core.ConstantProduct.{constant_product_swap}
use solana_dex_aggregator.Index.{
  add_pool, get_pool, direct_pools, canonical_pool, build_canonical, consider,
}
use solana_dex_aggregator.Index.Entry.{pair_key}
use solana_dex_aggregator.Index.Graph.{Connects}
use solana_dex_aggregator.Router.Types.{Route, RouteHop, first}
use solana_dex_aggregator.Router.Simulate.{simulate_hop, simulate_path, best_pool, canonical_leg}
use solana_dex_aggregator.Router.Search.{direct_route}
use solana_dex_aggregator.Router.{find_routes, survivors, candidates}
use solana_dex_aggregator.Router.Hops.{IsHop, simulate_hop-IsHop}
use solana_dex_aggregator.Router.Paths.{IsRoute, Follows, simulate_path-IsRoute}
use solana_dex_aggregator.Router.Best.{
  IsQuote, NonePaysMore, best_pool-eq-some, best_pool-eq-none, IsLeg, canonical_leg-IsLeg,
}
use solana_dex_aggregator.Router.Gated.{Judged, IsAllowed, survivors_gated}
use solana_dex_aggregator.Router.Ranked.{PaysMost, find_routes-IsTop}
use solana_dex_aggregator.Router.Direct.{find_routes_beats_direct}
use solana_dex_aggregator.Router.Sound.{returned, find_routes_sound}
use solana_dex_aggregator.Router.Hubs.{IsHubSet, hub_set-IsHubSet}
use solana_dex_aggregator.Router.{seed_hubs, hub_set}
use solana_dex_aggregator.Index.{top_hubs}
use solana_dex_aggregator.Prelude.{map, ◌++◌}
use solana_dex_aggregator.Tests.{index, index-IsConsistent, ext, router, first_pool}

find_routes_sound_example :
    All
      (IsRoute index none none 1 2 1_000_000 3)
      (returned (find_routes ext router 1 2 1_000_000 5))
find_routes_sound_example = find_routes_sound ext router 1 2 1_000_000 5 index-IsConsistent

find_routes-IsTop_example :
    IsTop PaysMost 5
      (survivors ext router 1 2 1_000_000)
      (returned (find_routes ext router 1 2 1_000_000 5))
find_routes-IsTop_example = find_routes-IsTop ext router 1 2 1_000_000 5 refl

survivors_gated_example :
    All (Judged (survivors ext router 1 2 1_000_000)) (candidates ext router 1 2 1_000_000)
    × All (IsAllowed (survivors ext router 1 2 1_000_000)) (survivors ext router 1 2 1_000_000)
survivors_gated_example = survivors_gated ext router 1 2 1_000_000

abbrev hop : RouteHop
hop = record {
  pool_address = 10;
  dex_name = "Raydium AMM V4";
  input_mint = 1;
  output_mint = 2;
  input_amount = 1_000_000;
  output_amount = 1_993_011;
  price_impact_bps = 0;
}

abbrev route : Route
route = record {
  hops = hop ∷ [];
  input_mint = 1;
  output_mint = 2;
  input_amount = 1_000_000;
  output_amount = 1_993_011;
  price_impact_bps = 0;
}

simulated : simulate_hop index none none 10 1 1_000_000 ≡ some hop
unfolding simulate_hop get_pool add_pool constant_product_swap as_u64 as_u128 sub64 sat_mul64
simulated = refl

simulate_hop-IsHop_example :
    IsHop index none none hop
    × (hop.pool_address ≡ 10)
    × (hop.input_mint ≡ 1)
    × (hop.input_amount ≡ 1_000_000)
simulate_hop-IsHop_example = simulate_hop-IsHop index none none 10 1 1_000_000 simulated

linked : Connects index.pools 1 2 10
unfolding add_pool
linked = (first_pool, refl, inl (refl, refl))

simulate_path-IsRoute_example :
    OnSome
      (λ route.
        IsRoute index none none 1 2 1_000_000 1 route × Follows ((10, 1, 2) ∷ []) route.hops)
      (simulate_path index none none ((10, 1, 2) ∷ []) 1_000_000)
simulate_path-IsRoute_example =
    simulate_path-IsRoute index none none ((10, 1, 2) ∷ []) 1 2 1_000_000 (refl, linked, refl)

listed : Memᴰ 10 (direct_pools index 1 2)
unfolding direct_pools add_pool
listed = Memᴰ.head refl

direct : direct_route index none none 1 2 1_000_000 10 ≡ some route
unfolding simulate_path simulate_hop get_pool add_pool constant_product_swap as_u64 as_u128 sub64
    sat_mul64 sat_add64
direct = refl

find_routes_beats_direct_example :
    (x : Route) × (first (returned (find_routes ext router 1 2 1_000_000 3)) ≡ some x)
    × (1_993_011 ≤ x.output_amount)
find_routes_beats_direct_example =
    find_routes_beats_direct ext router 1 2 1_000_000 2 10 route refl index-IsConsistent
      (omega arith) listed direct

best : best_pool index none none (10 ∷ 11 ∷ []) 1 1_000_000 ≡ some (10, 1_993_011)
unfolding best_pool simulate_hop get_pool add_pool constant_product_swap as_u64 as_u128 sub64
    sat_mul64
best = refl

best_pool-eq-some_example :
    IsQuote index none none 1 1_000_000 (10 ∷ 11 ∷ []) (10, 1_993_011)
    × NonePaysMore index none none 1 1_000_000 (10 ∷ 11 ∷ []) 1_993_011
best_pool-eq-some_example = best_pool-eq-some index none none 1 1_000_000 (10 ∷ 11 ∷ []) best

no_pool : best_pool index none none (12 ∷ 99 ∷ []) 1 1_000_000 ≡ none
unfolding best_pool simulate_hop get_pool add_pool
no_pool = refl

best_pool-eq-none_example :
    All (λ a. simulate_hop index none none a 1 1_000_000 ≡ none) (12 ∷ 99 ∷ [])
best_pool-eq-none_example = best_pool-eq-none index none none 1 1_000_000 (12 ∷ 99 ∷ []) no_pool

leg : canonical_leg index none none 1 2 1_000_000 ≡ some (10, 1_993_011)
unfolding canonical_leg canonical_pool best_pool simulate_hop get_pool add_pool
    constant_product_swap as_u64 as_u128 sub64 sat_mul64 build_canonical consider pair_key
leg = refl

canonical_leg-IsLeg_example : IsLeg index none none 1 2 1_000_000 (10, 1_993_011)
canonical_leg-IsLeg_example =
    canonical_leg-IsLeg index none none 1 2 1_000_000 index-IsConsistent leg

hub_set-IsHubSet_example :
    IsHubSet 1 2
      (map ext.from_str_const seed_hubs ++ top_hubs ext.hub_sorts index 4)
      (hub_set ext router 4 1 2)
hub_set-IsHubSet_example = hub_set-IsHubSet ext router 4 1 2
