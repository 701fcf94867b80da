-- ===== src/Index/Hubs.antt =====
-- The ranking of hubs in crates/aggregator/src/pool_index.rs: `top_hubs` partitions, sorts only the
-- CAP highest degrees and cuts; and the warm-up of the two caches, which no answer shows.
use solana_dex_aggregator.Prelude.{
  false, ℕ, zero, suc, ◌≡◌, refl, inl, inr, none, List, [], ◌∷◌, map, arith, ltb, length, min, take,
  Bool-cases, ap, ◌∙◌,
}
use solana_dex_aggregator.Prelude.Sort.{Descending, IsTop, cut-IsTop, select-IsTop}
use solana_dex_aggregator.Core.{Pubkey}
use solana_dex_aggregator.Index.{
  build_canonical, PoolIndex, HubSorts, cap, degree, degrees, largest, build_hub_ranking, top_hubs,
  warm_hubs, canonical_pool, warm_canonical,
}

map-take : {A B : Type 0} (f : A → B) (n : ℕ) (xs : List A) → take n (map f xs) ≡ map f (take n xs)
map-take f zero xs = refl
map-take f (suc n) [] = refl
map-take f (suc n) (x ∷ xs) = ap (λ ys. f x ∷ ys) (map-take f n xs)

widen_count :
    {A : Type 0} {R : A → A → Type 0} {n m : ℕ} {all top : List A}
    → min n (length all) ≡ min m (length all)
    → IsTop R n all top
    → IsTop R m all top
widen_count e t = record {
  rest = t.rest;
  splits = t.splits;
  sorted = t.sorted;
  others = t.others;
  count = t.count ∙ e;
}

-- What the ranking keeps of the degrees.
module _ (sorts : HubSorts) (ds : List (ℕ × Pubkey)) (k : ℕ) where
  ranked : List (ℕ × Pubkey)
  ranked = sorts.sort_unstable.sort (largest sorts ds)

  few_all : ltb cap (length ds) ≡ false → min k (length ds) ≡ min (min k cap) (length ds)
  few_all few = ground arith

  ranked-IsTop : IsTop (Descending degree) (min k cap) ds (take k ranked)
  unfolding ranked
  ranked-IsTop = elim (Bool-cases (ltb cap (length ds))) [
    | inl many ↦
        rw (many, ranked)
          (select-IsTop (Descending degree) cap k ds (sorts.select_nth.select cap ds) _
            (sorts.select_nth.select-perm cap ds) (sorts.select_nth.select_splits cap ds)
            (sorts.sort_unstable.sort-perm _) (sorts.sort_unstable.sort-Sorted _))
    | inr few ↦
        rw (few, ranked)
          (widen_count (few_all few) (
            cut-IsTop (Descending degree) k ds _ (sorts.sort_unstable.sort-perm ds)
              (sorts.sort_unstable.sort-Sorted ds)))
  ]

-- With an empty cache `top_hubs` returns the mints of the `k` highest degrees, or of the CAP highest
-- if `k` is larger, or all mints if they are fewer, the highest degree first: the partition and the
-- cut before the sort lose none of them.
pub top_hubs-IsTop :
    (sorts : HubSorts) (index : PoolIndex) (k : ℕ)
    → index.hub_ranking ≡ none
    → (top : List (ℕ × Pubkey)) × (top_hubs sorts index k ≡ map (λ (_, mint). mint) top)
      × IsTop (Descending degree) (min k cap) (degrees sorts index) top
unfolding top_hubs build_hub_ranking ranked
top_hubs-IsTop sorts index k cold = (
  take k (ranked sorts (degrees sorts index) k),
  rw cold (map-take (λ ((_, mint) : ℕ × Pubkey). mint) k (ranked sorts (degrees sorts index) k)),
  ranked-IsTop sorts (degrees sorts index) k,
)

-- The two warm-ups show in no answer: after them every pair has the same canonical pool and every
-- ranking the same hubs as before, each whichever of the caches was warm.
pub warm_transparent :
    (sorts : HubSorts) (index : PoolIndex) (a b : Pubkey) (k : ℕ)
    → let warmed = (warm_hubs sorts (warm_canonical index).0).0 in
      (canonical_pool warmed a b ≡ canonical_pool index a b)
      × (top_hubs sorts warmed k ≡ top_hubs sorts index k)
unfolding canonical_pool top_hubs warm_hubs warm_canonical build_canonical build_hub_ranking
warm_transparent sorts index a b k = (refl, refl)
