-- ===== src/Index/Graph.antt =====
-- The token graph stays consistent with the pools: every edge leads through a pool that is in the
-- index and joins the edge's two mints.
use solana_dex_aggregator.Prelude.{
  ◌≡◌, refl, ◌⊎◌, inl, inr, none, some, List, [], ◌∷◌, map, arith, ◌==◌, All, All-snoc, All-imp,
  filter, Bool-cases,
}
use solana_dex_aggregator.Prelude.Maps.{
  Dict, lookup, or_else, lookup_or, insert, lookup-insert, All-lookup, All-update_or,
}
use solana_dex_aggregator.Core.{Pubkey, Address}
use solana_dex_aggregator.Index.Entry.{PoolEntry, Edge, Pair}
use solana_dex_aggregator.Prelude.{==_iff, subst}
use solana_dex_aggregator.Prelude.{Option}
use solana_dex_aggregator.Prelude.Maps.{IsMap, insert-IsMap}
use solana_dex_aggregator.Index.{
  PoolIndex, new, add_pool, get_pool, neighbors, direct_pools, push_edge,
}

-- The entry trades mint `a` against mint `b`.
abbrev pub Trades : PoolEntry → Pubkey → Pubkey → Type 0
Trades entry a b =
    (entry.quote_mint ≡ a) × (entry.base_mint ≡ b) ⊎ (entry.base_mint ≡ a) × (entry.quote_mint ≡ b)

-- Some pool of the map stands at this address and trades `a` against `b`.
abbrev pub Connects : Dict PoolEntry → Pubkey → Pubkey → Address → Type 0
Connects pools a b address =
    (entry : PoolEntry) × (lookup address pools ≡ some entry) × Trades entry a b

abbrev pub EdgesFrom : Dict PoolEntry → Pubkey × List Edge → Type 0
EdgesFrom pools (mint, es) = All (λ e. Connects pools mint e.other_mint e.pool_address) es

-- No address stands twice, and every edge has its pool, and so has every canonical pool that is
-- already chosen.
pub record IsConsistent (index : PoolIndex) : Type 0 where
  pub pools_ok : IsMap index.pools
  pub edges_ok : All (EdgesFrom index.pools) index.edges
  pub canonical_ok :
      (built : List (Pair × Address))
      → index.canonical ≡ some built
      → All (λ (k, address). Connects index.pools k.0 k.1 address) built

module _ (address : Address) (entry : PoolEntry) (pools : Dict PoolEntry)
    (fresh : lookup address pools ≡ none) where
  Connects-insert :
      (a b : Pubkey) (other : Address)
      → Connects pools a b other
      → Connects (insert address entry pools) a b other
  Connects-insert a b other (e, found, trades) =
      (e, ground (arith, lookup-insert address other entry pools), trades)

  EdgesFrom-insert :
      (x : Pubkey × List Edge) → EdgesFrom pools x → EdgesFrom (insert address entry pools) x
  EdgesFrom-insert (mint, es) h =
      All-imp es (λ e. Connects-insert mint e.other_mint e.pool_address) h

EdgesFrom-push :
    (pools : Dict PoolEntry) (from other : Pubkey) (address : Address) (edges : Dict (List Edge))
    → Connects pools from other address
    → All (EdgesFrom pools) edges
    → All (EdgesFrom pools) (push_edge from other address edges)
EdgesFrom-push pools from other address edges c h =
    All-update_or (EdgesFrom pools) from [] _ edges tt (λ es k. All-snoc _ es _ k c) h

pub new-IsConsistent : IsConsistent new
new-IsConsistent = record { pools_ok = tt; edges_ok = tt; canonical_ok = λ built e. cc }

-- Adding a pool at a new address keeps the index consistent.
pub add_pool-IsConsistent :
    (address : Address) (entry : PoolEntry) (index : PoolIndex)
    → get_pool index address ≡ none
    → IsConsistent index
    → IsConsistent (add_pool address entry index)
unfolding add_pool get_pool
add_pool-IsConsistent address entry index fresh h = record {
  pools_ok = insert-IsMap address entry index.pools h.pools_ok;
  edges_ok =
      EdgesFrom-push _ entry.base_mint entry.quote_mint address _ (entry, placed, inr (refl, refl))
        (EdgesFrom-push _ entry.quote_mint entry.base_mint address _
          (entry, placed, inl (refl, refl))
          (All-imp index.edges (EdgesFrom-insert address entry index.pools fresh) h.edges_ok));
  canonical_ok = λ built e.
      All-imp built (λ x. Connects-insert address entry index.pools fresh x.0.0 x.0.1 x.1)
        (h.canonical_ok built e);
}
  where
    placed : lookup address (insert address entry index.pools) ≡ some entry
    placed = ground (arith, lookup-insert address address entry index.pools)

edges_of :
    (index : PoolIndex) (mint : Pubkey)
    → IsConsistent index
    → EdgesFrom index.pools (mint, lookup_or mint [] index.edges)
edges_of index mint h = go (lookup mint index.edges) refl
  where
    go :
        (o : Option (List Edge))
        → lookup mint index.edges ≡ o
        → EdgesFrom index.pools (mint, or_else [] o)
    go none _ = tt
    go (some es) found = All-lookup (EdgesFrom index.pools) mint index.edges h.edges_ok found

direct_of :
    (pools : Dict PoolEntry) (a b : Pubkey) (es : List Edge)
    → EdgesFrom pools (a, es)
    → All (Connects pools a b) (map (λ e. e.pool_address) (filter (λ e. e.other_mint == b) es))
direct_of pools a b [] h = tt
direct_of pools a b (e ∷ es) h = elim (Bool-cases (e.other_mint == b)) [
  | inl same ↦ rw same (
    subst (λ m. Connects pools a m e.pool_address) ((==_iff e.other_mint b).0 same) h.0,
    direct_of pools a b es h.1,
  )
  | inr other ↦ rw other (direct_of pools a b es h.1)
]

pub direct_pools-Connects :
    (index : PoolIndex) (a b : Pubkey)
    → IsConsistent index
    → All (Connects index.pools a b) (direct_pools index a b)
unfolding direct_pools
direct_pools-Connects index a b h = direct_of index.pools a b _ (edges_of index a h)

neighbors_of :
    (pools : Dict PoolEntry) (a : Pubkey) (es : List Edge)
    → EdgesFrom pools (a, es)
    → All
        (λ (n : Pubkey × Address). Connects pools a n.0 n.1)
        (map (λ e. (e.other_mint, e.pool_address)) es)
neighbors_of pools a [] h = tt
neighbors_of pools a (e ∷ es) h = (h.0, neighbors_of pools a es h.1)

-- In a consistent index every address that `direct_pools` lists for two mints is a pool of the
-- index that trades them, and every neighbor of a mint is reached through such a pool.
pub direct_pools_sound :
    (index : PoolIndex) (a b : Pubkey)
    → IsConsistent index
    → All (Connects index.pools a b) (direct_pools index a b)
      × All (λ (n : Pubkey × Address). Connects index.pools a n.0 n.1) (neighbors index a)
unfolding neighbors
direct_pools_sound index a b h =
    (direct_pools-Connects index a b h, neighbors_of index.pools a _ (edges_of index a h))
