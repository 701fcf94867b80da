-- ===== src/Router/Rank.antt =====
-- The end of `find_routes` in crates/aggregator/src/router.rs: the gate on longer routes.
use solana_dex_aggregator.Prelude.{
  ℕ, Bool, ◌&&◌, List, [], ◌∷◌, ltb, ◌==◌, if◌then◌else◌, max, length, sat_mul64,
}
use solana_dex_aggregator.Router.Types.{Route}

-- How much more than the best shorter route a longer one may pay.
abbrev pub max_extra_hop_gain : ℕ
max_extra_hop_gain = 3

abbrev pub hop_count : Route → ℕ
hop_count route = length route.hops

-- What the closure of `retain` captures.
pub record Gate : Type 0 where
  pub shorter_best : ℕ
  pub level_best : ℕ
  pub current_len : ℕ

-- A change of length closes the level.
unfoldable pub enter_level : Gate → ℕ → Gate
enter_level gate len = if len == gate.current_len then gate else record {
  shorter_best = max gate.shorter_best gate.level_best;
  level_best = 0;
  current_len = len;
}

-- A kept route may raise the best of its level.
abbrev pub keep_in : Gate → Route → Gate
keep_in gate route = record gate { level_best = max gate.level_best route.output_amount }

abbrev pub is_phantom : ℕ → Route → Bool
is_phantom shorter_best route =
    ltb 0 shorter_best && ltb (sat_mul64 shorter_best max_extra_hop_gain) route.output_amount

unfoldable pub retain : Gate → List Route → List Route
unfolding enter_level
retain gate [] = []
retain gate (route ∷ routes) =
    let gate' = enter_level gate (hop_count route) in
    let dropped = retain gate' routes in
    let kept = retain (keep_in gate' route) routes in
    if is_phantom gate'.shorter_best route then dropped else route ∷ kept

abbrev pub open_gate : Gate
open_gate = record { shorter_best = 0; level_best = 0; current_len = 0 }
