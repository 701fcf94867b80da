-- ===== src/Index/Lookup.antt =====
-- What `canonical_pool` returns: a pool of the index that trades the pair, and the deepest one.
use solana_dex_aggregator.Prelude.{
  ℕ, ◌≤◌, ◌≡◌, refl, sym, ap, inl, inr, Option, none, some, List, [], ◌∷◌, map, arith, All,
  Bool-cases, Memᴰ, subst,
}
use mathlib.Core.List.{foldl}
use solana_dex_aggregator.Prelude.Maps.{Dict, lookup, IsMap}
use solana_dex_aggregator.Core.{Pubkey, Address, PoolFinancials}
use solana_dex_aggregator.Index.Entry.{
  PoolEntry, Pair, pair_key, pair_eq, lookup_pair, pair_eq_iff, pair_key_comm,
}
use solana_dex_aggregator.Index.{
  PoolIndex, Best, score, consider, build_canonical, get_or_init, canonical_map, canonical_pool,
}
use solana_dex_aggregator.Index.Graph.{Trades, Connects, IsConsistent}
use solana_dex_aggregator.Prelude.{true}
use solana_dex_aggregator.Index.Canonical.{
  AtLeast, IsCandidate, key_of, Chosen, fold_covers, fold-AllChosen,
}

abbrev strip : Pair × (ℕ × Address) → Pair × Address
strip (k, (_, address)) = (k, address)

lookup_pair-strip :
    (k : Pair) (best : Best) (o : Option (ℕ × Address))
    → lookup_pair k best ≡ o
    → lookup_pair k (map strip best) ≡ elim o [ none ↦ none | some (_, address) ↦ some address ]
lookup_pair-strip k [] o e = ground arith
lookup_pair-strip k ((j, (d, a)) ∷ best) o e = ground (arith, lookup_pair-strip k best o)

lookup_pair-strip-some :
    (k : Pair) (best : Best) {address : Address}
    → lookup_pair k (map strip best) ≡ some address
    → (depth : ℕ) × (lookup_pair k best ≡ some (depth, address))
lookup_pair-strip-some k [] e = cc
lookup_pair-strip-some k ((j, (d, a)) ∷ best) e = elim (Bool-cases (pair_eq k j)) [
  | inl same ↦ (d, rw same (ground arith))
  | inr other ↦ rw other (lookup_pair-strip-some k best (rw other at e))
]

module _ {ℓ κ} {V : Type ℓ} (P : Pair → V → Type κ) where
  All-lookup_pair :
      (k : Pair) {v : V} (m : List (Pair × V))
      → All (λ (x : Pair × V). P x.0 x.1) m
      → lookup_pair k m ≡ some v
      → P k v
  All-lookup_pair k [] h e = cc
  All-lookup_pair k {v} ((j, w) ∷ m) h e = elim (Bool-cases (pair_eq k j)) [
    | inl same ↦ subst (P k) (value same) (subst (λ i. P i w) (sym (pair_eq_iff k j same)) h.0)
    | inr other ↦ All-lookup_pair k m h.1 (rw other at e)
  ]
    where
      value : pair_eq k j ≡ true → w ≡ v
      value same = ground arith

-- The deepest pool of a pair, as found.
pub record Deepest (index : PoolIndex) (entry : PoolEntry) (fin : PoolFinancials) : Type 0 where
  pub winner : Address
  pub depth : ℕ
  pub found : canonical_pool index entry.quote_mint entry.base_mint ≡ some winner
  pub chosen : Chosen index.pools (key_of entry) depth winner
  pub deep : score entry fin ≤ depth

-- Before the cache is filled, each pool whose balances can be read and whose two mints differ has a
-- canonical pool: one of the pools of the same pair, at least as deep in the reference mint.
pub canonical_pool-Deepest :
    (index : PoolIndex) (address : Address) (entry : PoolEntry) (fin : PoolFinancials)
    → index.canonical ≡ none
    → Memᴰ (address, entry) index.pools
    → IsCandidate entry fin
    → Deepest index entry fin
unfolding canonical_pool
canonical_pool-Deepest index address entry fin empty m c =
    go (lookup_pair (key_of entry) (foldl consider [] index.pools)) refl
      (fold_covers index.pools [] address entry fin c m)
  where
    best : Best
    best = foldl consider [] index.pools

    go :
        (o : Option (ℕ × Address))
        → lookup_pair (key_of entry) best ≡ o
        → AtLeast (score entry fin) o
        → Deepest index entry fin
    go none e h = absurd h
    go (some (d, a)) e h = record {
      winner = a;
      depth = d;
      found = rw (empty, canonical_map) (lookup_pair-strip (key_of entry) best (some (d, a)) e);
      chosen =
          All-lookup_pair (λ k x. Chosen index.pools k x.0 x.1) (key_of entry) _
            (fold-AllChosen index.pools index.pools [] (λ x k. k) tt) e;
      deep = h;
    }

lookup_of_mem :
    (pools : Dict PoolEntry) (address : Address) (entry : PoolEntry)
    → IsMap pools
    → Memᴰ (address, entry) pools
    → lookup address pools ≡ some entry
lookup_of_mem [] address entry h m = elim m [ ]
lookup_of_mem ((a, e) ∷ pools) address entry h (Memᴰ.head same) = ground arith
lookup_of_mem ((a, e) ∷ pools) address entry h (Memᴰ.tail m) =
    ground (arith, lookup_of_mem pools address entry h.1 m)

Trades-of_key : (entry : PoolEntry) (a b : Pubkey) → key_of entry ≡ pair_key a b → Trades entry a b
unfolding pair_key
Trades-of_key entry a b e = ground arith

Connects-pair_key :
    (pools : Dict PoolEntry) (a b : Pubkey) (address : Address)
    → Connects pools (pair_key a b).0 (pair_key a b).1 address
    → Connects pools a b address
unfolding pair_key
Connects-pair_key pools a b address (entry, found, trades) = (entry, found, ground arith)

-- In a consistent index, whether the cache is filled or not, the canonical pool of two mints is a
-- pool of the index that trades them, and the answer does not depend on the order of the mints.
pub canonical_pool_sound :
    (index : PoolIndex) (a b : Pubkey)
    → IsConsistent index
    → (canonical_pool index a b ≡ canonical_pool index b a)
      × ((address : Address)
          → canonical_pool index a b ≡ some address
          → Connects index.pools a b address)
unfolding canonical_pool
canonical_pool_sound index a b h = (
  ap (λ k. lookup_pair k (canonical_map index)) (pair_key_comm a b),
  λ address. go index.canonical refl address,
)
  where
    key : Pair
    key = pair_key a b

    best : Best
    best = foldl consider [] index.pools

    from_chosen :
        (depth : ℕ) (address : Address)
        → Chosen index.pools key depth address
        → Connects index.pools a b address
    from_chosen depth address c = (
      c.entry,
      lookup_of_mem index.pools address c.entry h.pools_ok c.listed,
      Trades-of_key c.entry a b c.same_key,
    )

    go :
        (o : Option (List (Pair × Address)))
        → index.canonical ≡ o
        → (address : Address)
        → lookup_pair key (get_or_init o (build_canonical index)) ≡ some address
        → Connects index.pools a b address
    go (some built) e address found = Connects-pair_key index.pools a b address (
        All-lookup_pair (λ k x. Connects index.pools k.0 k.1 x) key built (h.canonical_ok built e)
          found)
    go none e address found =
        let (depth, kept) = lookup_pair-strip-some key best found in
        from_chosen depth address (
          All-lookup_pair (λ k x. Chosen index.pools k x.0 x.1) key best
            (fold-AllChosen index.pools index.pools [] (λ x m. m) tt) kept)
