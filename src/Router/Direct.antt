-- ===== src/Router/Direct.antt =====
-- `find_routes` of crates/aggregator/src/router.rs against the direct routes: a longer search
-- never returns less than the best single pool.
use mathlib.Core.List.Permᴰ
use native.Mathlib.Nat.{le_trans}
use solana_dex_aggregator.Prelude.{
  ℕ, suc, ◌≤◌, ◌≡◌, refl, subst, true, false, inl, inr, Option, none, some, List, [], ◌∷◌, arith,
  ◌||◌, ◌==◌, leb, All, All-mem, All-imp, mem_snoc_old, mem_snoc_new, All-append, All-perm, Memᴰ,
  foldl, foldl_inv, length,
}
use solana_dex_aggregator.Prelude.Results.{OnSome_value}
use solana_dex_aggregator.Prelude.Sort.{IsTop}
use solana_dex_aggregator.Core.{Pubkey, Address}
use solana_dex_aggregator.Index.{direct_pools}
use solana_dex_aggregator.Index.Graph.{IsConsistent}
use solana_dex_aggregator.Router.Types.{first, Route}
use solana_dex_aggregator.Router.Search.{push, direct_route, find_direct, try_3hop}
use solana_dex_aggregator.Router.Rank.{hop_count}
use solana_dex_aggregator.Router.Keeps.{
  if_keeps, try_2hop_keeps, neighbor_2hop_forward_keeps, neighbor_2hop_reverse_keeps,
  try_3hop_keeps, neighbor_3hop_keeps, neighbor_4hop_keeps,
}
use solana_dex_aggregator.Router.Gated.{best_shorter_none, survivors_gated, Judged, best_shorter}
use solana_dex_aggregator.Router.Ranked.{find_routes-IsTop, PaysMost}
use solana_dex_aggregator.Router.Routed.{direct-IsRoute}
use solana_dex_aggregator.Router.Sound.{returned, survivors-RoutesOf}
use solana_dex_aggregator.Router.Paths.{IsRoute}
use solana_dex_aggregator.Router.{
  Router, Externals, try_pair, try_pairs, search_1hop, search_2hop, search_3hop, search_4hop,
  candidates, survivors, find_routes,
}

-- A route that was found stays.
push-mem : (r : Route) (o : Option Route) (out : List Route) → Memᴰ r out → Memᴰ r (push o out)
push-mem r none out m = m
push-mem r (some route) out m = mem_snoc_old r route out m

push-here : (r : Route) (o : Option Route) (out : List Route) → o ≡ some r → Memᴰ r (push o out)
push-here r o out e = rw e (mem_snoc_new r out)

pushed_by_loop :
    {A : Type 0} (f : A → Option Route) (r : Route) (a : A) (xs : List A) (out : List Route)
    → Memᴰ a xs
    → f a ≡ some r
    → Memᴰ r (foldl (λ routes x. push (f x) routes) out xs)
pushed_by_loop f r a [] out m e = elim m [ ]
pushed_by_loop f r a (x ∷ xs) out (Memᴰ.head h) e =
    foldl_inv (Memᴰ r) (λ routes y. push (f y) routes) xs _
      (λ routes y _ k. push-mem r (f y) routes k)
      (push-here r (f x) out (subst (λ y. f y ≡ some r) h e))
pushed_by_loop f r a (x ∷ xs) out (Memᴰ.tail m) e = pushed_by_loop f r a xs _ m e

module _ (ext : Externals) (router : Router) (input output : Pubkey) (amount : ℕ) (r : Route) where
  search_1hop-mem :
      (a : Address) (out : List Route)
      → 1 ≤ router.max_hops
      → Memᴰ a (direct_pools router.index input output)
      → direct_route router.index router.swappable_set router.live_data input output amount a
        ≡ some r
      → Memᴰ r (search_1hop ext router input output amount out)
  unfolding search_1hop find_direct
  search_1hop-mem a out h m e = rw (one_le router.max_hops h) (
      pushed_by_loop
        (direct_route router.index router.swappable_set router.live_data input output amount) r a
        (direct_pools router.index input output) out m e)
    where
      one_le : (n : ℕ) → 1 ≤ n → leb 1 n ≡ true
      one_le n h = ground arith

  search_2hop-mem :
      (hubs : List Pubkey) (out : List Route)
      → Memᴰ r out
      → Memᴰ r (search_2hop ext router input output amount hubs out)
  unfolding search_2hop
  search_2hop-mem hubs out h =
      if_keeps (Memᴰ r) (leb 2 router.max_hops)
        (neighbor_2hop_reverse_keeps (Memᴰ r) router.index router.swappable_set router.live_data
          input output amount (λ mid rs k. push-mem r _ rs k) hubs _
          (neighbor_2hop_forward_keeps (Memᴰ r) router.index router.swappable_set router.live_data
            input output amount (λ mid rs k. push-mem r _ rs k) hubs _
            (foldl_inv (Memᴰ r) _ hubs out
              (λ rs hub _ k.
                try_2hop_keeps (Memᴰ r) router.index router.swappable_set router.live_data input
                  output amount (λ mid rs k. push-mem r _ rs k) hub rs k)
              h)))
        h

  try_pairs-mem :
      (hubs : List Pubkey) (out : List Route)
      → Memᴰ r out
      → Memᴰ r (try_pairs ext router input output amount hubs out)
  try_pairs-mem [] out h = h
  try_pairs-mem (h1 ∷ later) out h = try_pairs-mem later _ (
      foldl_inv (Memᴰ r) (try_pair ext router input output amount h1) later out
        (λ rs h2 _ k. try h2 h1 _ (try h1 h2 rs k)) h)
    where
      try :
          (x y : Pubkey) (rs : List Route)
          → Memᴰ r rs
          → Memᴰ r (
              try_3hop router.index router.swappable_set router.live_data input output amount x y
                rs)
      try x y rs k =
          try_3hop_keeps (Memᴰ r) router.index router.swappable_set router.live_data input output
            amount (λ a b rs k. push-mem r _ rs k) x y rs k

  search_3hop-mem :
      (hubs : List Pubkey) (out : List Route)
      → Memᴰ r out
      → Memᴰ r (search_3hop ext router input output amount hubs out)
  unfolding search_3hop
  search_3hop-mem hubs out h =
      if_keeps (Memᴰ r) (leb 3 router.max_hops)
        (neighbor_3hop_keeps (Memᴰ r) router.index router.swappable_set router.live_data input
          output amount (λ a b rs k. push-mem r _ rs k) hubs _ (try_pairs-mem hubs out h))
        h

  search_4hop-mem :
      (hubs : List Pubkey) (out : List Route)
      → Memᴰ r out
      → Memᴰ r (search_4hop ext router input output amount hubs out)
  unfolding search_4hop
  search_4hop-mem hubs out h =
      if_keeps (Memᴰ r) (leb 4 router.max_hops)
        (neighbor_4hop_keeps (Memᴰ r) router.index router.swappable_set router.live_data input
          output amount (λ a b c rs k. push-mem r _ rs k) hubs out h)
        h

  -- A direct route is a candidate.
  candidates-mem :
      (a : Address)
      → 1 ≤ router.max_hops
      → Memᴰ a (direct_pools router.index input output)
      → direct_route router.index router.swappable_set router.live_data input output amount a
        ≡ some r
      → Memᴰ r (candidates ext router input output amount)
  unfolding candidates
  candidates-mem a h m e =
      search_4hop-mem _ _ (search_3hop-mem _ _ (search_2hop-mem _ _ (search_1hop-mem a [] h m e)))

length-mem : (r : Route) (rs : List Route) → Memᴰ r rs → 1 ≤ length rs
length-mem r [] m = elim m [ ]
length-mem r (x ∷ xs) m = omega arith

-- The first of the best routes pays at least as much as any.
abbrev Leads : List Route → List Route → Type 0
Leads all top =
    (x : Route) × (first top ≡ some x) × All (λ (r : Route). r.output_amount ≤ x.output_amount) all

IsTop-Leads :
    (m : ℕ) (all top : List Route) → IsTop PaysMost (suc m) all top → 1 ≤ length all → Leads all top
IsTop-Leads m all [] t h = absurd (omega (arith, t.count, h))
IsTop-Leads m all (x ∷ top) t h = (
  x,
  refl,
  All-perm (λ (r : Route). r.output_amount ≤ x.output_amount) (Permᴰ.symm t.splits)
      (
        omega arith,
        All-append (λ (r : Route). r.output_amount ≤ x.output_amount) top t.rest t.sorted.0
            t.others.0,
      ),
)

module _ (ext : Externals) (router : Router) (input output : Pubkey) (amount : ℕ)
    (consistent : IsConsistent router.index) (max_hops : 1 ≤ router.max_hops) (a : Address)
    (r : Route) (listed : Memᴰ a (direct_pools router.index input output))
    (found : direct_route router.index router.swappable_set router.live_data input output amount a
      ≡ some r) where
  -- No route is shorter than a direct one, so the gate lets it pass.
  no_shorter : best_shorter (hop_count r) (survivors ext router input output amount) ≡ 0
  no_shorter =
      let direct =
        OnSome_value
          (IsRoute router.index router.swappable_set router.live_data input output amount 1)
          (direct_route router.index router.swappable_set router.live_data input output amount a)
          (direct-IsRoute router.index router.swappable_set router.live_data consistent input output
            amount a listed)
          found in
      best_shorter_none (hop_count r) _ (
        All-imp _ (λ x route. le_trans direct.at_most route.at_least)
          (survivors-RoutesOf ext router consistent input output amount))

  survivors-mem : Memᴰ r (survivors ext router input output amount)
  survivors-mem =
      elim (All-mem (Judged (survivors ext router input output amount)) _
        (survivors_gated ext router input output amount).0
        (candidates-mem ext router input output amount r a max_hops listed found)) [
          | inl (_, passed) ↦ passed
          | inr (positive, _) ↦ absurd (omega (arith, positive, no_shorter))
        ]

-- Over a consistent index, with at least one hop and one route allowed, the best route returned for
-- two different mints and a positive amount pays at least as much as any direct pool of the two
-- mints through which a path can be simulated: neither the gate nor the cut loses the best pool.
pub find_routes_beats_direct :
    (ext : Externals) (router : Router) (input output : Pubkey) (amount more : ℕ) (a : Address)
    (r : Route)
    → (input == output || amount == 0) ≡ false
    → IsConsistent router.index
    → 1 ≤ router.max_hops
    → Memᴰ a (direct_pools router.index input output)
    → direct_route router.index router.swappable_set router.live_data input output amount a ≡ some r
    → (x : Route) × (first (returned (find_routes ext router input output amount (suc more)))
        ≡ some x)
      × (r.output_amount ≤ x.output_amount)
find_routes_beats_direct ext router input output amount more a r proper consistent max_hops listed
      found =
    let passed =
      survivors-mem ext router input output amount consistent max_hops a r listed found in
    let (x, leads, bound) =
      IsTop-Leads more _ _ (find_routes-IsTop ext router input output amount (suc more) proper)
        (length-mem r _ passed) in
    (x, leads, All-mem (λ (r : Route). r.output_amount ≤ x.output_amount) _ bound passed)
