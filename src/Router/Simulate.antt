-- ===== src/Router/Simulate.antt =====
-- The simulation helpers of crates/aggregator/src/router.rs: one hop, a path, the best of several
-- pools, and the leg through the canonical pool.
use solana_dex_aggregator.Prelude.{
  ℕ, ◌*◌, Bool, true, false, not, ◌&&◌, Option, none, some, List, [], ◌∷◌, ltb, leb, ◌==◌,
  if◌then◌else◌, contains, sat_add64, sat_mul64, u64_max,
}
use solana_dex_aggregator.Prelude.Results.{Result, ok, err, to_option, ◌>>=◌, ◌>>◌}
use solana_dex_aggregator.Core.{
  Pubkey, Address, SwapDirection, buy, sell, PoolFinancials, AccountDataProvider, Market,
}
use solana_dex_aggregator.Index.{PoolIndex, get_pool, direct_pools, canonical_pool}
use solana_dex_aggregator.Index.Entry.{PoolEntry}
use solana_dex_aggregator.Router.Types.{RouteHop, Route, first, last}

-- The least vault balance of a routable pool.
abbrev pub min_vault_balance : ℕ
min_vault_balance = 10_000_000

-- A hop takes at most one part in this many of the output reserve.
abbrev pub max_output_reserve_divisor : ℕ
max_output_reserve_divisor = 4

-- A leg of a path: its pool, the mint that goes in and the mint that comes out.
abbrev pub Leg : Type 0
Leg = Address × Pubkey × Pubkey

abbrev pub guard : Bool → Option (Unit {0})
guard true = some tt
guard false = none

abbrev pub in_swappable : Option (List Address) → Address → Bool
in_swappable none address = true
in_swappable (some set) address = contains set address

abbrev pub not_dusty : Result PoolFinancials → Bool
not_dusty (err _) = true
not_dusty (ok fin) =
    not (ltb fin.quote_balance min_vault_balance && ltb fin.base_balance min_vault_balance)

-- The checks that are made only where no swappable set is given.
abbrev pub passes_checks : Option (List Address) → Market → Bool
passes_checks none market = market.is_active && not_dusty market.financials
passes_checks (some set) market = true

abbrev pub hop_side : PoolEntry → Pubkey → Option (SwapDirection × Pubkey)
hop_side entry input_mint =
    if input_mint == entry.quote_mint
    then some (buy, entry.base_mint)
    else if input_mint == entry.base_mint
    then some (sell, entry.quote_mint)
    else none

-- Buy yields base, sell yields quote.
abbrev pub output_side : SwapDirection → ℕ → ℕ → ℕ
output_side buy quote_balance base_balance = base_balance
output_side sell quote_balance base_balance = quote_balance

abbrev pub offline_reserve : SwapDirection → Result PoolFinancials → ℕ
offline_reserve direction (ok fin) = output_side direction fin.quote_balance fin.base_balance
offline_reserve direction (err _) = u64_max

-- The output amount and the output-side reserve, from live data where there is a provider.
abbrev pub quote_hop : Option AccountDataProvider → PoolEntry → ℕ → SwapDirection → Option (ℕ × ℕ)
quote_hop (some provider) entry amount_in direction = do
  let quote_bal = provider.token_balance entry.quote_vault
  let base_bal = provider.token_balance entry.base_vault
  let pool_data = provider.pool_account_data entry.pool_pubkey
  out ← to_option (
      entry.market.calculate_output_live_ex amount_in direction pool_data quote_bal base_bal
        provider)
  some (out, output_side direction quote_bal base_bal)
quote_hop none entry amount_in direction = do
  out ← to_option (entry.market.calculate_output amount_in direction)
  some (out, offline_reserve direction entry.market.financials)

-- The trade would take more than its share of a reserve that is known.
abbrev pub too_deep : ℕ → ℕ → Bool
too_deep output_amount reserve =
    not (reserve == 0)
    && not (reserve == u64_max)
    && ltb reserve (output_amount * max_output_reserve_divisor)

abbrev pub is_plausible : ℕ → ℕ → ℕ → Bool
is_plausible amount_in output_amount reserve =
    not (output_amount == 0)
    && not (ltb (sat_mul64 amount_in 1_000_000) output_amount)
    && not (too_deep output_amount reserve)

-- No mint comes out that was seen before.
abbrev pub all_fresh : List Pubkey → List Leg → Bool
all_fresh visited [] = true
all_fresh visited ((_, _, out_mint) ∷ legs) =
    if contains visited out_mint then false else all_fresh (out_mint ∷ visited) legs

-- `max_by_key`, which keeps the last of several maxima.
abbrev pub later_max : Address × ℕ → Address × ℕ → Address × ℕ
later_max kept next = if leb kept.1 next.1 then next else kept

abbrev pub max_from : Address × ℕ → List (Address × ℕ) → Address × ℕ
max_from kept [] = kept
max_from kept (q ∷ qs) = max_from (later_max kept q) qs

abbrev pub max_by_output : List (Address × ℕ) → Option (Address × ℕ)
max_by_output [] = none
max_by_output (q ∷ qs) = some (max_from q qs)

abbrev pub or_scan : Option (Address × ℕ) → Option (Address × ℕ) → Option (Address × ℕ)
or_scan (some leg) scan = some leg
or_scan none scan = scan

abbrev pub add_quote : Address → Option RouteHop → List (Address × ℕ) → List (Address × ℕ)
add_quote address none quotes = quotes
add_quote address (some hop) quotes = (address, hop.output_amount) ∷ quotes

module _ (index : PoolIndex) (swappable : Option (List Address))
    (live : Option AccountDataProvider) where
  unfoldable pub simulate_hop : Address → Pubkey → ℕ → Option RouteHop
  simulate_hop address input_mint amount_in = do
    guard (in_swappable swappable address)
    entry ← get_pool index address
    guard (passes_checks swappable entry.market)
    (direction, output_mint) ← hop_side entry input_mint
    (output_amount, reserve) ← quote_hop live entry amount_in direction
    guard (is_plausible amount_in output_amount reserve)
    some (record {
      pool_address = address;
      dex_name = entry.dex_name;
      input_mint = input_mint;
      output_mint = output_mint;
      input_amount = amount_in;
      output_amount = output_amount;
      price_impact_bps = 0;
    })

  -- The loop over the legs: the hops, the amount that comes out, and the impact so far.
  unfoldable pub run_legs : List Leg → ℕ → ℕ → Option (List RouteHop × ℕ × ℕ)
  unfolding simulate_hop
  run_legs [] amount impact = some ([], amount, impact)
  run_legs ((address, input_mint, _) ∷ legs) amount impact = do
    hop ← simulate_hop address input_mint amount
    (hops, out, total) ← run_legs legs hop.output_amount (sat_add64 impact hop.price_impact_bps)
    some (hop ∷ hops, out, total)

  unfoldable pub simulate_path : List Leg → ℕ → Option Route
  unfolding run_legs
  simulate_path [] initial_amount = none
  simulate_path ((address, input_mint, out_mint) ∷ legs) initial_amount = do
    let path = (address, input_mint, out_mint) ∷ legs
    guard (all_fresh (input_mint ∷ []) path)
    (result_hops, current_amount, total_impact) ← run_legs path initial_amount 0
    first_hop ← first result_hops
    last_hop ← last result_hops
    some (record {
      hops = result_hops;
      input_mint = first_hop.input_mint;
      output_mint = last_hop.output_mint;
      input_amount = initial_amount;
      output_amount = current_amount;
      price_impact_bps = total_impact;
    })

  -- `filter_map` with the simulated output.
  abbrev pub quotes : List Address → Pubkey → ℕ → List (Address × ℕ)
  quotes [] input_mint amount_in = []
  quotes (address ∷ addresses) input_mint amount_in =
      add_quote address (simulate_hop address input_mint amount_in)
        (quotes addresses input_mint amount_in)

  unfoldable pub best_pool : List Address → Pubkey → ℕ → Option (Address × ℕ)
  unfolding simulate_hop
  best_pool addresses input_mint amount_in = max_by_output (quotes addresses input_mint amount_in)

  abbrev pub through_canonical : Pubkey → Pubkey → ℕ → Option (Address × ℕ)
  through_canonical from to amount_in = do
    address ← canonical_pool index from to
    hop ← simulate_hop address from amount_in
    guard (ltb 0 hop.output_amount)
    some (address, hop.output_amount)

  -- The canonical pool where it can be used, or else the best of all pools of the pair.
  unfoldable pub canonical_leg : Pubkey → Pubkey → ℕ → Option (Address × ℕ)
  unfolding best_pool
  canonical_leg from to amount_in =
      or_scan (through_canonical from to amount_in)
        (best_pool (direct_pools index from to) from amount_in)
