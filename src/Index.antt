-- ===== src/Index.antt =====
-- crates/aggregator/src/pool_index.rs: the pools by address, the token graph, the canonical pool of
-- each pair and the ranking of hubs. Both caches are `OnceLock`s: empty, or filled once.
pub mod Entry
pub mod Graph
pub mod Canonical
pub mod Lookup
pub mod Hubs
use Prim.Native.String.{String}
use text.Mathlib.Text.{◌==◌ as str_eq}
use mathlib.Core.List.{foldl}
use solana_dex_aggregator.Prelude.{
  ℕ, ◌+◌, ◌-◌, Bool, true, false, Option, none, some, List, [], ◌∷◌, ◌++◌, map, ltb, leb, ◌==◌,
  if◌then◌else◌, length, take, filter,
}
use solana_dex_aggregator.Prelude.Maps.{Dict, lookup, lookup_or, insert, update_or}
use solana_dex_aggregator.Prelude.Results.{Result, ok, err}
use solana_dex_aggregator.Prelude.Sort.{UnstableSort, SelectNth, Descending}
use solana_dex_aggregator.Core.{Pubkey, Address, PoolFinancials, Market}
use solana_dex_aggregator.Index.Entry.{
  PoolEntry, Edge, Pair, pair_key, pair_eq, lookup_pair, insert_pair,
}

pub record PoolIndex : Type 0 where
  pub pools : Dict PoolEntry
  pub edges : Dict (List Edge)
  pub dex_counts : List (String × ℕ)
  pub canonical : Option (List (Pair × Address))
  pub hub_ranking : Option (List Pubkey)

abbrev pub new : PoolIndex
new = record { pools = []; edges = []; dex_counts = []; canonical = none; hub_ranking = none }

-- `*dex_counts.entry(name).or_insert(0) += 1`
pub count_dex : String → List (String × ℕ) → List (String × ℕ)
count_dex name [] = (name, 1) ∷ []
count_dex name ((other, n) ∷ counts) =
    if str_eq name other then (other, n + 1) ∷ counts else (other, n) ∷ count_dex name counts

abbrev push_edge : Pubkey → Pubkey → Address → Dict (List Edge) → Dict (List Edge)
push_edge from other address =
    update_or from [] (λ es. es ++ record { other_mint = other; pool_address = address } ∷ [])

unfoldable pub add_pool : Address → PoolEntry → PoolIndex → PoolIndex
unfolding count_dex
add_pool address entry index = record index {
  edges =
      push_edge entry.base_mint entry.quote_mint address
        (push_edge entry.quote_mint entry.base_mint address index.edges);
  dex_counts = count_dex entry.dex_name index.dex_counts;
  pools = insert address entry index.pools;
}

unfoldable pub get_pool : PoolIndex → Address → Option PoolEntry
get_pool index address = lookup address index.pools

unfoldable pub neighbors : PoolIndex → Pubkey → List (Pubkey × Address)
neighbors index mint = map (λ e. (e.other_mint, e.pool_address)) (lookup_or mint [] index.edges)

unfoldable pub direct_pools : PoolIndex → Pubkey → Pubkey → List Address
direct_pools index a b =
    map (λ e. e.pool_address) (filter (λ e. e.other_mint == b) (lookup_or a [] index.edges))

unfoldable pub pool_count : PoolIndex → ℕ
pool_count index = length index.pools

unfoldable pub unique_mints : PoolIndex → ℕ
unique_mints index = length index.edges

unfoldable pub all_mints : PoolIndex → List Pubkey
all_mints index = map (λ e. e.0) index.edges

-- The balance of the pair's reference mint, the first of its key.
abbrev pub score : PoolEntry → PoolFinancials → ℕ
score entry fin =
    if entry.quote_mint == (pair_key entry.quote_mint entry.base_mint).0
    then fin.quote_balance
    else fin.base_balance

abbrev pub Best : Type 0
Best = List (Pair × (ℕ × Address))

-- `match best.get(&key)`, on what is found there.
abbrev pub keep_deepest : Pair → ℕ → Address → Best → Option (ℕ × Address) → Best
keep_deepest key depth address best none = insert_pair key (depth, address) best
keep_deepest key depth address best (some (existing, _)) =
    if leb depth existing then best else insert_pair key (depth, address) best

-- The rest of a round, on what `financials()` returns.
abbrev pub consider_funded : Best → Address → PoolEntry → Result PoolFinancials → Best
consider_funded best address entry (err _) = best
consider_funded best address entry (ok fin) =
    let key = pair_key entry.quote_mint entry.base_mint in
    keep_deepest key (score entry fin) address best (lookup_pair key best)

-- One round of the loop of `build_canonical`.
unfoldable pub consider : Best → Address × PoolEntry → Best
consider best (address, entry) =
    if entry.quote_mint == entry.base_mint
    then best
    else consider_funded best address entry entry.market.financials

unfoldable pub build_canonical : PoolIndex → List (Pair × Address)
unfolding consider
build_canonical index = map (λ (k, (_, address)). (k, address)) (foldl consider [] index.pools)

-- `OnceLock::get_or_init`: the value that is there, or the one to put there.
abbrev pub get_or_init {ℓ} : {A : Type ℓ} → Option A → A → A
get_or_init none fill = fill
get_or_init (some built) fill = built

abbrev pub canonical_map : PoolIndex → List (Pair × Address)
canonical_map index = get_or_init index.canonical (build_canonical index)

unfoldable pub canonical_pool : PoolIndex → Pubkey → Pubkey → Option Address
unfolding build_canonical pair_key
canonical_pool index a b = lookup_pair (pair_key a b) (canonical_map index)

unfoldable pub warm_canonical : PoolIndex → PoolIndex × ℕ
unfolding build_canonical
warm_canonical index =
    let built = canonical_map index in (record index { canonical = some built }, length built)

-- How many hubs are kept.
abbrev pub cap : ℕ
cap = 32

abbrev pub degree : ℕ × Pubkey → ℕ
degree d = d.0

-- The standard library's routines that the ranking calls.
pub record HubSorts : Type 0 where
  pub select_nth : SelectNth (Descending degree)
  pub sort_unstable : UnstableSort (Descending degree)

module _ (sorts : HubSorts) where
  abbrev pub degrees : PoolIndex → List (ℕ × Pubkey)
  degrees index = map (λ (mint, es). (length es, mint)) index.edges

  -- The partition and the cut to CAP.
  abbrev pub largest : List (ℕ × Pubkey) → List (ℕ × Pubkey)
  largest ds = if ltb cap (length ds) then take cap (sorts.select_nth.select cap ds) else ds

  unfoldable pub build_hub_ranking : PoolIndex → List Pubkey
  build_hub_ranking index =
      map (λ (_, mint). mint) (sorts.sort_unstable.sort (largest (degrees index)))

  abbrev pub hub_list : PoolIndex → List Pubkey
  hub_list index = get_or_init index.hub_ranking (build_hub_ranking index)

  unfoldable pub top_hubs : PoolIndex → ℕ → List Pubkey
  unfolding build_hub_ranking
  top_hubs index k = take k (hub_list index)

  unfoldable pub warm_hubs : PoolIndex → PoolIndex × ℕ
  unfolding build_hub_ranking
  warm_hubs index =
      let built = hub_list index in (record index { hub_ranking = some built }, length built)
