-- ===== src/Router/Search.antt =====
-- The search strategies of crates/aggregator/src/router.rs. Each takes the candidate list `out` and
-- returns it with the routes that it found pushed at the end.
use solana_dex_aggregator.Prelude.{
  ℕ, ◌+◌, Bool, not, ◌||◌, Option, none, some, List, [], ◌∷◌, ◌++◌, leb, ◌==◌, if◌then◌else◌,
  contains, is_empty, any, filter, take, foldl,
}
use solana_dex_aggregator.Prelude.Results.{◌>>=◌}
use solana_dex_aggregator.Core.{Pubkey, Address, AccountDataProvider}
use solana_dex_aggregator.Index.{PoolIndex, neighbors, direct_pools}
use solana_dex_aggregator.Router.Types.{Route}
use solana_dex_aggregator.Router.Simulate.{simulate_path, best_pool, canonical_leg}

-- Neighbors explored on each side.
abbrev pub max_neighbor_candidates : ℕ
max_neighbor_candidates = 50

-- `if let Some(route) = .. { out.push(route) }`
abbrev pub push : Option Route → List Route → List Route
push none out = out
push (some route) out = out ++ route ∷ []

-- What the loops over neighbors carry; a `break` is a round that changes nothing.
pub record Walk : Type 0 where
  pub seen : List Pubkey
  pub tried : ℕ
  pub out : List Route

module _ (index : PoolIndex) (swappable : Option (List Address))
    (live : Option AccountDataProvider) where
  abbrev simulate : List (Address × Pubkey × Pubkey) → ℕ → Option Route
  simulate = simulate_path index swappable live

  abbrev leg : Pubkey → Pubkey → ℕ → Option (Address × ℕ)
  leg = canonical_leg index swappable live

  -- The best of the pools of two mints.
  abbrev scan : Pubkey → Pubkey → ℕ → Option (Address × ℕ)
  scan from to = best_pool index swappable live (direct_pools index from to) from

  abbrev pub joined : Pubkey → Pubkey → Bool
  joined a b = not (is_empty (direct_pools index a b))

  module _ (input output : Pubkey) (amount_in : ℕ) where
    abbrev pub direct_route : Address → Option Route
    direct_route address = simulate ((address, input, output) ∷ []) amount_in

    unfoldable pub find_direct : List Route → List Route
    find_direct out =
        foldl (λ routes address. push (direct_route address) routes) out
          (direct_pools index input output)

    -- input → mid → output: a canonical leg, then a scan.
    abbrev pub two_hops : Pubkey → Option Route
    two_hops mid = do
      (a1, mid_amount) ← leg input mid amount_in
      (a2, _) ← scan mid output mid_amount
      simulate ((a1, input, mid) ∷ (a2, mid, output) ∷ []) amount_in

    unfoldable pub try_2hop : Pubkey → List Route → List Route
    try_2hop mid out = if joined mid output then push (two_hops mid) out else out

    abbrev pub is_skipped : List Pubkey → Pubkey → Bool
    is_skipped skip mid = mid == input || mid == output || contains skip mid

    abbrev pub forward_round : List Pubkey → Walk → Pubkey × Address → Walk
    forward_round skip walk (mid, _) =
        if leb max_neighbor_candidates walk.tried
        then walk
        else if is_skipped skip mid
        then walk
        else if contains walk.seen mid
        then walk
        else record {
          seen = mid ∷ walk.seen;
          tried = walk.tried + 1;
          out = if joined mid output then push (two_hops mid) walk.out else walk.out;
        }

    unfoldable pub neighbor_2hop_forward : List Pubkey → List Route → List Route
    neighbor_2hop_forward skip out =
        let start : Walk = record { seen = []; tried = 0; out = out } in
        (foldl (forward_round skip) start (neighbors index input)).out

    abbrev pub reverse_round : List Pubkey → Walk → Pubkey × Address → Walk
    reverse_round skip walk (mid, _) =
        if leb max_neighbor_candidates walk.tried
        then walk
        else if is_skipped skip mid
        then walk
        else record walk {
          tried = walk.tried + 1;
          out = if joined input mid then push (two_hops mid) walk.out else walk.out;
        }

    unfoldable pub neighbor_2hop_reverse : List Pubkey → List Route → List Route
    neighbor_2hop_reverse skip out =
        let start : Walk = record { seen = []; tried = 0; out = out } in
        (foldl (reverse_round skip) start (neighbors index output)).out

    abbrev pub three_hops : Pubkey → Pubkey → Option Route
    three_hops h1 h2 = do
      (a1, amt1) ← leg input h1 amount_in
      (a2, amt2) ← leg h1 h2 amt1
      (a3, _) ← scan h2 output amt2
      simulate ((a1, input, h1) ∷ (a2, h1, h2) ∷ (a3, h2, output) ∷ []) amount_in

    unfoldable pub try_3hop : Pubkey → Pubkey → List Route → List Route
    try_3hop h1 h2 out = if joined h2 output then push (three_hops h1 h2) out else out

    -- Half of the neighbors that the 2-hop search tries.
    abbrev pub half_candidates : ℕ
    half_candidates = 25

    abbrev pub hub_then_neighbor : List Pubkey → Walk → Pubkey × Address → Walk
    hub_then_neighbor hubs walk (mid, _) =
        if leb half_candidates walk.tried
        then walk
        else if is_skipped hubs mid
        then walk
        else record walk {
          tried = walk.tried + 1;
          out = foldl (λ out hub. try_3hop hub mid out) walk.out hubs;
        }

    unfoldable pub neighbor_3hop_reverse : List Pubkey → List Route → List Route
    unfolding try_3hop
    neighbor_3hop_reverse hubs out =
        let start : Walk = record { seen = []; tried = 0; out = out } in
        (foldl (hub_then_neighbor hubs) start (neighbors index output)).out

    abbrev pub neighbor_then_hub : List Pubkey → List Pubkey → Walk → Pubkey × Address → Walk
    neighbor_then_hub hubs target_hubs walk (mid, _) =
        if leb half_candidates walk.tried
        then walk
        else if is_skipped hubs mid
        then walk
        else record walk {
          tried = walk.tried + 1;
          out =
              if any (λ h. joined mid h) target_hubs
              then foldl (λ out hub. try_3hop mid hub out) walk.out target_hubs
              else walk.out;
        }

    abbrev pub forward_3hop : List Pubkey → List Pubkey → List Route → List Route
    forward_3hop hubs target_hubs out =
        let start : Walk = record { seen = []; tried = 0; out = out } in
        (foldl (neighbor_then_hub hubs target_hubs) start (neighbors index input)).out

    unfoldable pub neighbor_3hop : List Pubkey → List Route → List Route
    unfolding try_3hop neighbor_3hop_reverse
    neighbor_3hop hubs out =
        let target_hubs = filter (λ h. joined h output) hubs in
        if is_empty target_hubs
        then neighbor_3hop_reverse hubs out
        else neighbor_3hop_reverse hubs (forward_3hop hubs target_hubs out)

    -- A quarter of the neighbors, rounded down.
    abbrev pub quarter_candidates : ℕ
    quarter_candidates = 12

    abbrev pub some_neighbors : List Pubkey → Pubkey → List (Pubkey × Address)
    some_neighbors hubs mint =
        take quarter_candidates (filter (λ n. not (is_skipped hubs n.0)) (neighbors index mint))

    abbrev pub four_hops : Pubkey → Pubkey → Pubkey → Option Route
    four_hops n_in hub n_out = do
      (a1, amt1) ← leg input n_in amount_in
      (a2, amt2) ← leg n_in hub amt1
      (a3, amt3) ← leg hub n_out amt2
      (a4, _) ← scan n_out output amt3
      simulate ((a1, input, n_in) ∷ (a2, n_in, hub) ∷ (a3, hub, n_out) ∷ (a4, n_out, output) ∷ [])
          amount_in

    -- The innermost body, with its three `continue`s.
    unfoldable pub try_4hop : Pubkey → Pubkey → List Route → Pubkey × Address → List Route
    try_4hop hub n_in out (n_out, _) =
        if n_in == n_out
        then out
        else if not (joined hub n_out)
        then out
        else if not (joined n_out output)
        then out
        else push (four_hops n_in hub n_out) out

    abbrev pub through_hub :
        List (Pubkey × Address) → Pubkey → List Route → Pubkey × Address → List Route
    through_hub out_neighbors hub out (n_in, _) =
        if joined n_in hub then foldl (try_4hop hub n_in) out out_neighbors else out

    abbrev pub reaching_hubs : List Pubkey → List Pubkey
    reaching_hubs hubs = filter (λ h. any (λ n. joined h n.0) (some_neighbors hubs output)) hubs

    abbrev pub reaching_neighbors : List Pubkey → List (Pubkey × Address)
    reaching_neighbors hubs =
        filter (λ n. any (λ h. joined n.0 h) (reaching_hubs hubs)) (some_neighbors hubs input)

    abbrev pub meet_at : List Pubkey → List Route → Pubkey → List Route
    meet_at hubs out hub =
        foldl (through_hub (some_neighbors hubs output) hub) out (reaching_neighbors hubs)

    unfoldable pub neighbor_4hop : List Pubkey → List Route → List Route
    unfolding try_4hop
    neighbor_4hop hubs out =
        if is_empty (reaching_hubs hubs) then out else foldl (meet_at hubs) out (reaching_hubs hubs)
