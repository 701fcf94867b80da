-- ===== src/Lib.antt =====
-- A swap aggregator for Solana: it quotes a swap of one token into another over the pools of many
-- exchanges, through up to four pools in a row. This library models the parts that decide what a
-- quote is, and shows that they are correct.
--
-- How the program hangs together. The loader fills a `PoolIndex` (crates/aggregator/src/
-- pool_index.rs) with entries, each of which holds a `Market`, the interface of every exchange
-- (crates/core/src/traits.rs). The engine keeps an `AccountStore` (crates/engine/src/
-- account_store.rs) of streamed accounts, and a `PoolRegistry` (pool_registry.rs beside it) that
-- says which pools can be swapped on. A `Router` (crates/aggregator/src/router.rs) reads the index,
-- the set of swappable pools and the store through `AccountDataProvider`, and `find_routes` returns
-- the best routes.
--
-- The files:
-- - Prelude: names that are shared, Boolean tests, lists, machine words, maps, results and sorts.
-- - Core, with Core/Mints and Core/ConstantProduct: crates/core/src/traits.rs, constants.rs. `Market`
--   is a record of functions, so that what is shown of the router holds for any exchange.
-- - Index: crates/aggregator/src/pool_index.rs, an operation for each of its methods. Index/Graph,
--   Index/Canonical, Index/Lookup and Index/Hubs hold proofs.
-- - Router: crates/aggregator/src/router.rs. Router/Types has the routes, Router/Simulate one hop, a
--   path and the choice of a pool, Router/Search the strategies, each with the list of candidates
--   passed through, Router/Rank the gate on longer routes; the other files hold proofs.
-- - Engine/Store and Engine/Registry: crates/engine/src/account_store.rs and pool_registry.rs, each
--   method a function on the state that it changes.
-- - Curves/Pumpfun, Curves/Bonk and Curves/MeteoraDbc: crates/pumpfun-amm/src/lib.rs,
--   crates/bonk/src/lib.rs and crates/meteora-dbc/src/quote.rs. Curves/Pumpfun/AmmMarket is the
--   PumpSwap market, Curves/DbcAccounts and Curves/MeteoraDbc/DbcMarket are crates/meteora-dbc/src/lib.rs.
-- - Dlmm: crates/meteora-dlmm. Dlmm/Math, Dlmm/Bitmap, Dlmm/Fees, Dlmm/Fill and Dlmm/Quote are
--   src/quote.rs from the fixed-point arithmetic up to the traversal, and Dlmm/DlmmMarket is
--   src/lib.rs; Dlmm/Ranges and the files below the others hold proofs.
-- - Clmm: crates/raydium-clmm. Clmm/TickMath, Clmm/Step, Clmm/Arrays, Clmm/Bitmap and Clmm/Traversal are
--   src/quote.rs, and Clmm/ClmmMarket is src/lib.rs; the files below them hold proofs.
-- - AmmV4: crates/raydium-amm-v4/src/lib.rs; AmmV4/Orientation holds proofs.
-- - Damm: crates/meteora-damm/src/models.rs. Damm/Vaults, Damm/Stable and Damm/Quote are quote.rs from the
--   shares of a vault up to the exact quote, and Damm/DammMarket and Damm/V2 are the two markets of
--   lib.rs; the files below them hold proofs.
-- - Orca: crates/orca-whirlpool/src/lib.rs, with its market in Orca/OrcaMarket.
-- - Tests: sample data, and each theorem applied to them.
--
-- The conventions. Numbers are natural numbers; where the code works on u64, u128 or usize, the wrap
-- around, the saturation or the check is written out, as in a release build. A public key is the
-- number that its bytes spell, and the text of an address is a number too. A hash map is a list of
-- its entries in the order in which it would be iterated; that order is open in the program, and the
-- theorems hold for every list. Loops run over a list or a count of rounds that the code has: the
-- powers take a round for each bit of their exponent, and the traversal of Dlmm at most eight arrays.
-- The walk over the bins of an array (Dlmm/Quote) takes 71 rounds of fuel, which is enough, and the
-- swap loop of Clmm/Traversal takes the fuel that it is given. A `break` is a round that changes
-- nothing, or a branch that ends the loop. An i32, i64 or i128 is an integer of Prelude/Signed. What the
-- standard library sorts is a parameter with the documented laws (Prelude/Sort, which also has a sort
-- that meets them), and so are the decoding of a base58 text and the decoders of borsh. A
-- write to the account store is one atomic step.
--
-- The f64 arithmetic of the approximate quotes, the decoders of accounts and the derivation of
-- addresses are parameters too, as are the clock and the callback of a traversal, which passes its
-- state along.
--
-- Not modelled: floating point prices and price impacts; tick_arrays.rs of crates/raydium-clmm; the
-- arithmetic of whirlpools, which is a library's; loading, caching, streaming and the command line,
-- which are input and output; the executor, which lays out instructions; `from_pool_index` of the
-- registry.
pub mod Prelude
pub mod Core
pub mod Index
pub mod Router
pub mod Engine
pub mod Curves
pub mod Dlmm
pub mod Clmm
pub mod AmmV4
pub mod Damm
pub mod Orca
pub mod Tests
