-- ===== src/Router/Sound.antt =====
-- Every route that `find_routes` of crates/aggregator/src/router.rs returns is a route: a chain of
-- simulated hops from the input mint to the output mint.
use solana_dex_aggregator.Router.Routed.{
  widen, direct-IsRoute, two_hops-IsRoute, three_hops-IsRoute, four_hops-IsRoute, when_keeps,
  retain_keeps,
}
use solana_dex_aggregator.Prelude.{
  ℕ, ◌≤◌, inl, inr, Option, List, [], ◌∷◌, leb, ◌==◌, ◌||◌, All, All-perm, All-take, foldl_inv,
  Bool-cases,
}
use solana_dex_aggregator.Prelude.Results.{ok, OnSome}
use solana_dex_aggregator.Core.{Pubkey}
use solana_dex_aggregator.Index.Graph.{IsConsistent}
use solana_dex_aggregator.Router.Types.{Route, Quote}
use solana_dex_aggregator.Router.Paths.{IsRoute}
use solana_dex_aggregator.Router.Search.{push, two_hops, three_hops}
use solana_dex_aggregator.Router.Keeps.{
  push_keeps, find_direct_keeps, try_2hop_keeps, neighbor_2hop_forward_keeps,
  neighbor_2hop_reverse_keeps, try_3hop_keeps, neighbor_3hop_keeps, neighbor_4hop_keeps,
}
use solana_dex_aggregator.Router.Rank.{open_gate}
use solana_dex_aggregator.Prelude.{leb→le}
use solana_dex_aggregator.Prelude.{take}
use solana_dex_aggregator.Prelude.Results.{Result, err}
use solana_dex_aggregator.Router.Search.{try_3hop}
use solana_dex_aggregator.Router.{
  Router, Externals, try_pair, try_pairs, search_1hop, search_2hop, search_3hop, search_4hop,
  candidates, survivors, find_routes,
}

module _ (ext : Externals) (router : Router) (consistent : IsConsistent router.index)
    (input output : Pubkey) (amount : ℕ) where
  -- A route of the router: at most `max_hops` hops, over the router's own pools and data.
  abbrev pub RoutesOf : Route → Type 0
  RoutesOf =
      IsRoute router.index router.swappable_set router.live_data input output amount router.max_hops

  abbrev Pushed : ℕ → Option Route → Type 0
  Pushed n =
      OnSome (IsRoute router.index router.swappable_set router.live_data input output amount n)

  push_bounded :
      (n : ℕ)
      → n ≤ router.max_hops
      → (o : Option Route) (out : List Route) → Pushed n o
      → All RoutesOf out
      → All RoutesOf (push o out)
  push_bounded n h o out r k =
      push_keeps RoutesOf o out
        (widen router.index router.swappable_set router.live_data consistent input output amount n
          router.max_hops h o r)
        k

  search_1hop_keeps :
      (out : List Route)
      → All RoutesOf out
      → All RoutesOf (search_1hop ext router input output amount out)
  unfolding search_1hop
  search_1hop_keeps out h =
      when_keeps (All RoutesOf) (leb 1 router.max_hops)
        (λ e.
          find_direct_keeps (All RoutesOf) router.index router.swappable_set router.live_data input
            output amount
            (λ a m out k.
              push_bounded 1 (leb→le 1 _ e) _ out
                (direct-IsRoute router.index router.swappable_set router.live_data consistent input
                  output amount a m)
                k)
            out h)
        h

  two_kept :
      2 ≤ router.max_hops
      → (mid : Pubkey) (out : List Route) → All RoutesOf out
      → All RoutesOf (
          push
            (two_hops router.index router.swappable_set router.live_data input output amount mid)
            out)
  two_kept h mid out k =
      push_bounded 2 h _ out
        (two_hops-IsRoute router.index router.swappable_set router.live_data consistent input output
          amount mid)
        k

  search_2hop_keeps :
      (hubs : List Pubkey) (out : List Route)
      → All RoutesOf out
      → All RoutesOf (search_2hop ext router input output amount hubs out)
  unfolding search_2hop
  search_2hop_keeps hubs out h =
      when_keeps (All RoutesOf) (leb 2 router.max_hops)
        (λ e.
          let two = two_kept (leb→le 2 _ e) in
          neighbor_2hop_reverse_keeps (All RoutesOf) router.index router.swappable_set
            router.live_data input output amount two hubs _
            (neighbor_2hop_forward_keeps (All RoutesOf) router.index router.swappable_set
              router.live_data input output amount two hubs _
              (foldl_inv (All RoutesOf) _ hubs out
                (λ rs hub m k.
                  try_2hop_keeps (All RoutesOf) router.index router.swappable_set router.live_data
                    input output amount two hub rs k)
                h)))
        h

  three_kept :
      3 ≤ router.max_hops
      → (h1 h2 : Pubkey) (out : List Route) → All RoutesOf out
      → All RoutesOf (
          push
            (three_hops router.index router.swappable_set router.live_data input output amount h1
              h2)
            out)
  three_kept h h1 h2 out k =
      push_bounded 3 h _ out
        (three_hops-IsRoute router.index router.swappable_set router.live_data consistent input
          output amount h1 h2)
        k

  try_pairs_keeps :
      3 ≤ router.max_hops
      → (hubs : List Pubkey) (out : List Route) → All RoutesOf out
      → All RoutesOf (try_pairs ext router input output amount hubs out)
  try_pairs_keeps b [] out h = h
  try_pairs_keeps b (h1 ∷ later) out h = try_pairs_keeps b later _ (
      foldl_inv (All RoutesOf) (try_pair ext router input output amount h1) later out
        (λ rs h2 m k. both h2 rs k) h)
    where
      try :
          (x y : Pubkey) (rs : List Route)
          → All RoutesOf rs
          → All RoutesOf (
              try_3hop router.index router.swappable_set router.live_data input output amount x y
                rs)
      try x y rs k =
          try_3hop_keeps (All RoutesOf) router.index router.swappable_set router.live_data input
            output amount (three_kept b) x y rs k

      both :
          (h2 : Pubkey) (rs : List Route)
          → All RoutesOf rs
          → All RoutesOf (try_pair ext router input output amount h1 rs h2)
      both h2 rs k =
          try h2 h1
            (try_3hop router.index router.swappable_set router.live_data input output amount h1 h2
              rs)
            (try h1 h2 rs k)

  search_3hop_keeps :
      (hubs : List Pubkey) (out : List Route)
      → All RoutesOf out
      → All RoutesOf (search_3hop ext router input output amount hubs out)
  unfolding search_3hop
  search_3hop_keeps hubs out h =
      when_keeps (All RoutesOf) (leb 3 router.max_hops)
        (λ e.
          neighbor_3hop_keeps (All RoutesOf) router.index router.swappable_set router.live_data
            input output amount (three_kept (leb→le 3 _ e)) hubs _
            (try_pairs_keeps (leb→le 3 _ e) hubs out h))
        h

  search_4hop_keeps :
      (hubs : List Pubkey) (out : List Route)
      → All RoutesOf out
      → All RoutesOf (search_4hop ext router input output amount hubs out)
  unfolding search_4hop
  search_4hop_keeps hubs out h =
      when_keeps (All RoutesOf) (leb 4 router.max_hops)
        (λ e.
          neighbor_4hop_keeps (All RoutesOf) router.index router.swappable_set router.live_data
            input output amount
            (λ a b c rs k.
              push_bounded 4 (leb→le 4 _ e) _ rs
                (four_hops-IsRoute router.index router.swappable_set router.live_data consistent
                  input output amount a b c)
                k)
            hubs out h)
        h

  candidates-RoutesOf : All RoutesOf (candidates ext router input output amount)
  unfolding candidates
  candidates-RoutesOf =
      search_4hop_keeps _ _
        (search_3hop_keeps _ _ (search_2hop_keeps _ _ (search_1hop_keeps [] tt)))

  pub survivors-RoutesOf : All RoutesOf (survivors ext router input output amount)
  unfolding survivors
  survivors-RoutesOf =
      retain_keeps RoutesOf _ open_gate
        (All-perm RoutesOf (ext.by_hop_count.sort-perm _) candidates-RoutesOf)

  routes-RoutesOf :
      (max_routes : ℕ)
      → All RoutesOf
          (take max_routes (ext.by_output.sort (survivors ext router input output amount)))
  routes-RoutesOf max_routes =
      All-take RoutesOf max_routes _
        (All-perm RoutesOf (ext.by_output.sort-perm _) survivors-RoutesOf)

-- The routes that a call returned.
abbrev pub returned : Result Quote → List Route
returned (ok quote) = quote.routes
returned (err _) = []

-- Over a consistent index every route that `find_routes` returns is a chain of simulated hops that
-- starts at the input mint with the given amount and ends at the output mint with the route's output
-- amount, each hop taking in what the one before paid; it has at least one hop and at most
-- `max_hops`, and passes through no mint twice.
pub find_routes_sound :
    (ext : Externals) (router : Router) (input output : Pubkey) (amount max_routes : ℕ)
    → IsConsistent router.index
    → All
        (IsRoute router.index router.swappable_set router.live_data input output amount
          router.max_hops)
        (returned (find_routes ext router input output amount max_routes))
unfolding find_routes
find_routes_sound ext router input output amount max_routes consistent =
    elim (Bool-cases (input == output || amount == 0)) [
      | inl trivial ↦ rw trivial tt
      | inr proper ↦
          rw proper (routes-RoutesOf ext router consistent input output amount max_routes)
    ]
