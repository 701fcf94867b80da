-- ===== src/Router/Ranked.antt =====
-- What `find_routes` of crates/aggregator/src/router.rs returns, out of the routes that passed.
use solana_dex_aggregator.Prelude.{ℕ, ◌≡◌, false, ◌||◌, ◌==◌}
use solana_dex_aggregator.Prelude.Sort.{Descending, IsTop, cut-IsTop}
use solana_dex_aggregator.Core.{Pubkey}
use solana_dex_aggregator.Router.Types.{Route}
use solana_dex_aggregator.Router.Sound.{returned}
use solana_dex_aggregator.Router.{Router, Externals, survivors, find_routes}

abbrev pub PaysMost : Route → Route → Type 0
PaysMost = Descending (λ (r : Route). r.output_amount)

-- For two different mints and a positive amount, the routes returned are the `max_routes` that pay
-- most among the routes that passed the gate, or all of these if they are fewer, the best first;
-- no route left out pays more than one returned.
pub find_routes-IsTop :
    (ext : Externals) (router : Router) (input output : Pubkey) (amount max_routes : ℕ)
    → (input == output || amount == 0) ≡ false
    → IsTop PaysMost max_routes
        (survivors ext router input output amount)
        (returned (find_routes ext router input output amount max_routes))
unfolding find_routes
find_routes-IsTop ext router input output amount max_routes proper =
    let all = survivors ext router input output amount in
    let ranked = ext.by_output.sort all in
    let perm = ext.by_output.sort-perm all in
    let sorted = ext.by_output.sort-Sorted all in
    rw proper (cut-IsTop PaysMost max_routes all ranked perm sorted)
