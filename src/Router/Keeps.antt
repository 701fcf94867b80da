-- ===== src/Router/Keeps.antt =====
-- The search strategies push nothing but the routes that they simulate: what holds of every
-- simulated route holds of every candidate.
use solana_dex_aggregator.Prelude.{
  ℕ, Bool, true, false, Option, none, some, List, leb, ◌==◌, if◌then◌else◌, contains, is_empty, All,
  All-snoc, Memᴰ, foldl_inv,
}
use solana_dex_aggregator.Prelude.Results.{OnSome}
use solana_dex_aggregator.Core.{Pubkey, Address, AccountDataProvider}
use solana_dex_aggregator.Index.{PoolIndex, neighbors, direct_pools}
use solana_dex_aggregator.Router.Types.{Route}
use solana_dex_aggregator.Prelude.{not}
use solana_dex_aggregator.Router.Search.{
  some_neighbors, reaching_hubs, reaching_neighbors, meet_at, joined, is_skipped,
  max_neighbor_candidates, push, direct_route, find_direct, two_hops, try_2hop, Walk, forward_round,
  neighbor_2hop_forward, reverse_round, neighbor_2hop_reverse, three_hops, try_3hop,
  hub_then_neighbor, neighbor_3hop_reverse, neighbor_then_hub, forward_3hop, neighbor_3hop,
  four_hops, try_4hop, through_hub, neighbor_4hop,
}

pub if_keeps {ℓ κ} :
    {A : Type ℓ} (P : A → Type κ) (b : Bool) {x y : A} → P x → P y → P (if b then x else y)
if_keeps P true h k = h
if_keeps P false h k = k

pub push_keeps :
    (P : Route → Type 0) (o : Option Route) (out : List Route)
    → OnSome P o
    → All P out
    → All P (push o out)
push_keeps P none out h k = k
push_keeps P (some route) out h k = All-snoc P out route k h

if_walk :
    (Q : List Route → Type 0) (b : Bool) (x y : Walk)
    → Q x.out
    → Q y.out
    → Q (if b then x else y).out
if_walk Q true x y h k = h
if_walk Q false x y h k = k

module _ (Q : List Route → Type 0) (index : PoolIndex) (swappable : Option (List Address))
    (live : Option AccountDataProvider) (input output : Pubkey) (amount : ℕ) where
  pub find_direct_keeps :
      ((a : Address)
        → Memᴰ a (direct_pools index input output)
        → (out : List Route) → Q out
        → Q (push (direct_route index swappable live input output amount a) out))
      → (out : List Route) → Q out
      → Q (find_direct index swappable live input output amount out)
  unfolding find_direct
  find_direct_keeps one out h =
      foldl_inv Q _ (direct_pools index input output) out (λ routes a m k. one a m routes k) h

  module _
      (two : (mid : Pubkey) (out : List Route)
        → Q out
        → Q (push (two_hops index swappable live input output amount mid) out)) where
    pub try_2hop_keeps :
        (mid : Pubkey) (out : List Route)
        → Q out
        → Q (try_2hop index swappable live input output amount mid out)
    unfolding try_2hop
    try_2hop_keeps mid out h = if_keeps Q _ (two mid out h) h

    forward_round_keeps :
        (skip : List Pubkey) (walk : Walk) (n : Pubkey × Address)
        → Q walk.out
        → Q (forward_round index swappable live input output amount skip walk n).out
    forward_round_keeps skip walk (mid, _) k =
        if_walk Q (leb max_neighbor_candidates walk.tried) walk _ k (
          if_walk Q (is_skipped index swappable live input output amount skip mid) walk _ k
            (if_walk Q (contains walk.seen mid) walk _ k (if_keeps Q _ (two mid walk.out k) k)))

    pub neighbor_2hop_forward_keeps :
        (skip : List Pubkey) (out : List Route)
        → Q out
        → Q (neighbor_2hop_forward index swappable live input output amount skip out)
    unfolding neighbor_2hop_forward
    neighbor_2hop_forward_keeps skip out h =
        foldl_inv (λ (walk : Walk). Q walk.out)
          (forward_round index swappable live input output amount skip) (neighbors index input) _
          (λ walk n m k. forward_round_keeps skip walk n k) h

    reverse_round_keeps :
        (skip : List Pubkey) (walk : Walk) (n : Pubkey × Address)
        → Q walk.out
        → Q (reverse_round index swappable live input output amount skip walk n).out
    reverse_round_keeps skip walk (mid, _) k =
        if_walk Q (leb max_neighbor_candidates walk.tried) walk _ k (
          if_walk Q (is_skipped index swappable live input output amount skip mid) walk _ k
            (if_keeps Q _ (two mid walk.out k) k))

    pub neighbor_2hop_reverse_keeps :
        (skip : List Pubkey) (out : List Route)
        → Q out
        → Q (neighbor_2hop_reverse index swappable live input output amount skip out)
    unfolding neighbor_2hop_reverse
    neighbor_2hop_reverse_keeps skip out h =
        foldl_inv (λ (walk : Walk). Q walk.out)
          (reverse_round index swappable live input output amount skip) (neighbors index output) _
          (λ walk n m k. reverse_round_keeps skip walk n k) h

  module _
      (three : (h1 h2 : Pubkey) (out : List Route)
        → Q out
        → Q (push (three_hops index swappable live input output amount h1 h2) out)) where
    pub try_3hop_keeps :
        (h1 h2 : Pubkey) (out : List Route)
        → Q out
        → Q (try_3hop index swappable live input output amount h1 h2 out)
    unfolding try_3hop
    try_3hop_keeps h1 h2 out h = if_keeps Q _ (three h1 h2 out h) h

    hub_then_neighbor_keeps :
        (hubs : List Pubkey) (walk : Walk) (n : Pubkey × Address)
        → Q walk.out
        → Q (hub_then_neighbor index swappable live input output amount hubs walk n).out
    hub_then_neighbor_keeps hubs walk (mid, _) k = if_walk Q (leb 25 walk.tried) walk _ k (
        if_walk Q (is_skipped index swappable live input output amount hubs mid) walk _ k
          (foldl_inv Q _ hubs walk.out (λ out hub m j. try_3hop_keeps hub mid out j) k))

    neighbor_3hop_reverse_keeps :
        (hubs : List Pubkey) (out : List Route)
        → Q out
        → Q (neighbor_3hop_reverse index swappable live input output amount hubs out)
    unfolding neighbor_3hop_reverse
    neighbor_3hop_reverse_keeps hubs out h =
        foldl_inv (λ (walk : Walk). Q walk.out)
          (hub_then_neighbor index swappable live input output amount hubs) (neighbors index output)
          _ (λ walk n m k. hub_then_neighbor_keeps hubs walk n k) h

    neighbor_then_hub_keeps :
        (hubs target_hubs : List Pubkey) (walk : Walk) (n : Pubkey × Address)
        → Q walk.out
        → Q (neighbor_then_hub index swappable live input output amount hubs target_hubs walk n).out
    neighbor_then_hub_keeps hubs target_hubs walk (mid, _) k =
        if_walk Q (leb 25 walk.tried) walk _ k (
          if_walk Q (is_skipped index swappable live input output amount hubs mid) walk _ k (
            if_keeps Q _
              (foldl_inv Q _ target_hubs walk.out (λ out hub m j. try_3hop_keeps mid hub out j) k)
              k))

    forward_3hop_keeps :
        (hubs target_hubs : List Pubkey) (out : List Route)
        → Q out
        → Q (forward_3hop index swappable live input output amount hubs target_hubs out)
    forward_3hop_keeps hubs target_hubs out h =
        foldl_inv (λ (walk : Walk). Q walk.out)
          (neighbor_then_hub index swappable live input output amount hubs target_hubs)
          (neighbors index input) _
          (λ walk n m k. neighbor_then_hub_keeps hubs target_hubs walk n k) h

    pub neighbor_3hop_keeps :
        (hubs : List Pubkey) (out : List Route)
        → Q out
        → Q (neighbor_3hop index swappable live input output amount hubs out)
    unfolding neighbor_3hop
    neighbor_3hop_keeps hubs out h =
        if_keeps Q _ (neighbor_3hop_reverse_keeps hubs out h)
          (neighbor_3hop_reverse_keeps hubs _ (forward_3hop_keeps hubs _ out h))

  module _
      (four : (a b c : Pubkey) (out : List Route)
        → Q out
        → Q (push (four_hops index swappable live input output amount a b c) out)) where
    try_4hop_keeps :
        (hub n_in : Pubkey) (out : List Route) (n : Pubkey × Address)
        → Q out
        → Q (try_4hop index swappable live input output amount hub n_in out n)
    unfolding try_4hop
    try_4hop_keeps hub n_in out (n_out, _) h = if_keeps Q (n_in == n_out) h (
        if_keeps Q (not (joined index swappable live hub n_out)) h (
          if_keeps Q (not (joined index swappable live n_out output)) h
            (four n_in hub n_out out h)))

    through_hub_keeps :
        (outs : List (Pubkey × Address)) (hub : Pubkey) (out : List Route) (n : Pubkey × Address)
        → Q out
        → Q (through_hub index swappable live input output amount outs hub out n)
    through_hub_keeps outs hub out (n_in, _) h =
        if_keeps Q _ (foldl_inv Q _ outs out (λ routes n m k. try_4hop_keeps hub n_in routes n k) h)
          h

    meet_at_keeps :
        (hubs : List Pubkey) (out : List Route) (hub : Pubkey)
        → Q out
        → Q (meet_at index swappable live input output amount hubs out hub)
    meet_at_keeps hubs out hub h =
        let outs = some_neighbors index swappable live input output amount hubs output in
        foldl_inv Q (through_hub index swappable live input output amount outs hub)
          (reaching_neighbors index swappable live input output amount hubs) out
          (λ routes n m k. through_hub_keeps outs hub routes n k) h

    pub neighbor_4hop_keeps :
        (hubs : List Pubkey) (out : List Route)
        → Q out
        → Q (neighbor_4hop index swappable live input output amount hubs out)
    unfolding neighbor_4hop
    neighbor_4hop_keeps hubs out h =
        let reaching = reaching_hubs index swappable live input output amount hubs in
        if_keeps Q (is_empty reaching) h (
          foldl_inv Q (meet_at index swappable live input output amount hubs) reaching out
            (λ routes hub m k. meet_at_keeps hubs routes hub k) h)
