-- ===== src/Router.antt =====
-- crates/aggregator/src/router.rs: the router and `find_routes`. The helpers of one hop and one
-- path stand in Router/Simulate, the strategies in Router/Search, the gate in Router/Rank.
pub mod Types
pub mod Simulate
pub mod Search
pub mod Rank
pub mod Hops
pub mod Paths
pub mod Best
pub mod Keeps
pub mod Routed
pub mod Sound
pub mod Gated
pub mod Hubs
pub mod Ranked
pub mod Direct
use Prim.Native.String.{String}
use solana_dex_aggregator.Prelude.{
  ℕ, Bool, true, false, not, ◌&&◌, ◌||◌, Option, none, some, List, [], ◌∷◌, ◌++◌, map, ltb, leb,
  ◌==◌, if◌then◌else◌, contains, take, foldl,
}
use solana_dex_aggregator.Prelude.Results.{Result, ok}
use solana_dex_aggregator.Prelude.Sort.{UnstableSort, Ascending, Descending}
use solana_dex_aggregator.Core.{Pubkey, Address, AccountDataProvider}
use solana_dex_aggregator.Core.Mints.{wsol, usdc, usdt}
use solana_dex_aggregator.Index.{PoolIndex, HubSorts, top_hubs}
use solana_dex_aggregator.Router.Types.{Route, Quote}
use solana_dex_aggregator.Router.Search.{
  find_direct, try_2hop, neighbor_2hop_forward, neighbor_2hop_reverse, try_3hop, neighbor_3hop,
  neighbor_4hop,
}
use solana_dex_aggregator.Router.Rank.{hop_count, retain, open_gate}

-- The settlement mints, which are hubs whatever their degree.
abbrev pub seed_hubs : List String
seed_hubs = wsol ∷ usdc ∷ usdt ∷ []

abbrev pub hub_count : ℕ
hub_count = 8

abbrev pub core_hub_count : ℕ
core_hub_count = 4

pub record Router : Type 0 where
  pub index : PoolIndex
  pub max_hops : ℕ
  pub swappable_set : Option (List Address)
  pub live_data : Option AccountDataProvider

abbrev pub new : PoolIndex → ℕ → Router
new index max_hops = record {
  index = index;
  max_hops = max_hops;
  swappable_set = none;
  live_data = none;
}

abbrev pub with_swappable_set : List Address → Router → Router
with_swappable_set set router = record router { swappable_set = some set }

abbrev pub with_live_data : AccountDataProvider → Router → Router
with_live_data provider router = record router { live_data = some provider }

-- What the router takes from outside: the decoding of a mint's text and the sorts of the standard
-- library.
pub record Externals : Type 0 where
  pub from_str_const : String → Pubkey
  pub hub_sorts : HubSorts
  pub by_hop_count : UnstableSort (Ascending hop_count)
  pub by_output : UnstableSort (Descending (λ (r : Route). r.output_amount))

abbrev pub add_hub : Pubkey → Pubkey → List Pubkey → Pubkey → List Pubkey
add_hub input output hubs h =
    if not (h == input) && not (h == output) && not (contains hubs h) then hubs ++ h ∷ [] else hubs

module _ (ext : Externals) (router : Router) where
  -- The set `seen` of the code holds exactly the hubs so far.
  unfoldable pub hub_set : ℕ → Pubkey → Pubkey → List Pubkey
  hub_set k input output =
      foldl (add_hub input output)
        (foldl (add_hub input output) [] (map ext.from_str_const seed_hubs))
        (top_hubs ext.hub_sorts router.index k)

  module _ (input output : Pubkey) (amount_in : ℕ) where
    -- The two orders of each pair of core hubs.
    abbrev pub try_pair : Pubkey → List Route → Pubkey → List Route
    try_pair h1 out h2 =
        try_3hop router.index router.swappable_set router.live_data input output amount_in h2 h1 (
          try_3hop router.index router.swappable_set router.live_data input output amount_in h1 h2
            out)

    abbrev pub try_pairs : List Pubkey → List Route → List Route
    try_pairs [] out = out
    try_pairs (h1 ∷ later) out = try_pairs later (foldl (try_pair h1) out later)

    unfoldable pub search_1hop : List Route → List Route
    search_1hop out =
        if leb 1 router.max_hops
        then find_direct router.index router.swappable_set router.live_data input output amount_in
            out
        else out

    unfoldable pub search_2hop : List Pubkey → List Route → List Route
    search_2hop hubs out =
        if leb 2 router.max_hops
        then neighbor_2hop_reverse router.index router.swappable_set router.live_data input output
            amount_in hubs
            (neighbor_2hop_forward router.index router.swappable_set router.live_data input output
              amount_in hubs
              (foldl
                (λ out hub.
                  try_2hop router.index router.swappable_set router.live_data input output amount_in
                    hub out)
                out hubs))
        else out

    unfoldable pub search_3hop : List Pubkey → List Route → List Route
    search_3hop core_hubs out =
        if leb 3 router.max_hops
        then neighbor_3hop router.index router.swappable_set router.live_data input output amount_in
            core_hubs (try_pairs core_hubs out)
        else out

    unfoldable pub search_4hop : List Pubkey → List Route → List Route
    search_4hop core_hubs out =
        if leb 4 router.max_hops
        then neighbor_4hop router.index router.swappable_set router.live_data input output amount_in
            core_hubs out
        else out

    -- All candidates, before the gate.
    unfoldable pub candidates : List Route
    candidates =
        let hubs = hub_set hub_count input output in
        let core_hubs = hub_set core_hub_count input output in
        search_4hop core_hubs (search_3hop core_hubs (search_2hop hubs (search_1hop [])))

    -- The candidates that pass the gate.
    unfoldable pub survivors : List Route
    survivors = retain open_gate (ext.by_hop_count.sort candidates)

    unfoldable pub find_routes : ℕ → Result Quote
    find_routes max_routes =
        if input == output || amount_in == 0
        then ok (record { routes = [] })
        else ok (record { routes = take max_routes (ext.by_output.sort survivors) })
