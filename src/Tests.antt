-- ===== src/Tests.antt =====
-- Sample data for the tests: three constant product pools over the mints 1, 2 and 3, the index that
-- holds them, and a router over it. Each test applies one theorem to these data.
mod Routing
mod Indexing
mod Engine
mod Curves
mod Bins
mod Ticks
mod Reserves
mod Shares
use Prim.Native.String.{String}
use solana_dex_aggregator.Prelude.{ℕ, true, ◌≡◌, refl, none, some, List, [], ◌∷◌, Option}
use solana_dex_aggregator.Prelude.Results.{Result, ok, err}
use solana_dex_aggregator.Prelude.Sort.{ascending_sort, descending_sort, descending_select}
use solana_dex_aggregator.Core.{
  Market, Address, Pubkey, SwapDirection, buy, sell, default_output_live, default_output_live_ex,
  PoolFinancials,
}
use solana_dex_aggregator.Core.ConstantProduct.{constant_product_swap}
use solana_dex_aggregator.Index.Entry.{PoolEntry}
use solana_dex_aggregator.Index.{PoolIndex, add_pool, HubSorts, degree}
use solana_dex_aggregator.Index.Graph.{IsConsistent, new-IsConsistent, add_pool-IsConsistent}
use solana_dex_aggregator.Index as Pools
use solana_dex_aggregator.Router.Types.{Route}
use solana_dex_aggregator.Router.Rank.{hop_count}
use solana_dex_aggregator.Router.{Router, Externals}

-- A pool that swaps by the constant product formula at 25 basis points.
abbrev pub swap : ℕ → ℕ → ℕ → SwapDirection → Result ℕ
swap quote_balance base_balance amount_in buy =
    constant_product_swap quote_balance base_balance amount_in 25
swap quote_balance base_balance amount_in sell =
    constant_product_swap base_balance quote_balance amount_in 25

abbrev pub balances : ℕ → ℕ → PoolFinancials
balances quote_balance base_balance = record {
  quote_balance = quote_balance;
  base_balance = base_balance;
  quote_decimals = 9;
  base_decimals = 6;
}

abbrev pub market : ℕ → ℕ → Market
market quote_balance base_balance = record {
  is_active = true;
  metadata = err "no metadata";
  financials = ok (balances quote_balance base_balance);
  calculate_output = swap quote_balance base_balance;
  calculate_output_live = default_output_live (swap quote_balance base_balance);
  calculate_output_live_ex =
      default_output_live_ex (default_output_live (swap quote_balance base_balance));
}

abbrev pub entry : ℕ → ℕ → ℕ → ℕ → PoolEntry
entry quote_mint base_mint quote_balance base_balance = record {
  market = market quote_balance base_balance;
  dex_name = "Raydium AMM V4";
  quote_mint = quote_mint;
  base_mint = base_mint;
  pool_pubkey = 100;
  quote_vault = 101;
  base_vault = 102;
  cached_data = [];
}

abbrev pub first_pool : PoolEntry
first_pool = entry 1 2 1_000_000_000 2_000_000_000

abbrev pub index1 : PoolIndex
index1 = add_pool 10 first_pool Pools.new

abbrev pub index2 : PoolIndex
index2 = add_pool 11 (entry 1 3 500_000_000 500_000_000) index1

abbrev pub index : PoolIndex
index = add_pool 12 (entry 3 2 800_000_000 1_700_000_000) index2

pub index-IsConsistent : IsConsistent index
unfolding add_pool Pools.get_pool
index-IsConsistent = add_pool-IsConsistent 12 _ index2 refl (
    add_pool-IsConsistent 11 _ index1 refl
      (add_pool-IsConsistent 10 first_pool Pools.new refl new-IsConsistent))

-- Every text decodes to the mint 3, which makes it the only seed hub.
abbrev pub ext : Externals
ext = record {
  from_str_const = λ _. 3;
  hub_sorts = record {
    select_nth = descending_select degree;
    sort_unstable = descending_sort degree;
  };
  by_hop_count = ascending_sort hop_count;
  by_output = descending_sort (λ (r : Route). r.output_amount);
}

abbrev pub router : Router
router = record { index = index; max_hops = 3; swappable_set = none; live_data = none }
