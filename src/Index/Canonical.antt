-- ===== src/Index/Canonical.antt =====
-- The canonical pool of a pair is the deepest: the loop of `build_canonical` in pool_index.rs.
use mathlib.Core.List.{foldl}
use solana_dex_aggregator.Prelude.{
  ℕ, ◌≤◌, ◌≡◌, ◌≢◌, refl, inl, inr, true, false, Option, none, some, [], ◌∷◌, arith, leb, ◌==◌, All,
  Bool-cases, Memᴰ, subst,
}
use solana_dex_aggregator.Prelude.Results.{Result, ok, err}
use solana_dex_aggregator.Core.{Address, PoolFinancials}
use solana_dex_aggregator.Index.Entry.{
  PoolEntry, Pair, pair_key, pair_eq, lookup_pair, insert_pair, lookup_pair-insert_pair,
  pair_eq_iff,
}
use solana_dex_aggregator.Prelude.Maps.{Dict}
use solana_dex_aggregator.Index.{consider_funded, Best, score, keep_deepest, consider}

-- The depth found is at least `s`.
abbrev pub AtLeast : ℕ → Option (ℕ × Address) → Type 0
AtLeast s none = ⊥
AtLeast s (some (depth, _)) = s ≤ depth

AtLeast-trans : (s t : ℕ) (o : Option (ℕ × Address)) → s ≤ t → AtLeast t o → AtLeast s o
AtLeast-trans s t none h k = k
AtLeast-trans s t (some (depth, _)) h k = omega arith

pair_eq_refl : (k : Pair) → pair_eq k k ≡ true
pair_eq_refl (a, b) = ground arith

module _ (key : Pair) (depth : ℕ) (address : Address) (best : Best) where
  insert_self : AtLeast depth (lookup_pair key (insert_pair key (depth, address) best))
  insert_self = rw (lookup_pair-insert_pair, pair_eq_refl) (omega arith)

  insert_other :
      (k : Pair) (s : ℕ)
      → AtLeast s (lookup_pair k best)
      → (k ≡ key → s ≤ depth)
      → AtLeast s (lookup_pair k (insert_pair key (depth, address) best))
  insert_other k s h le = rw lookup_pair-insert_pair (elim (Bool-cases (pair_eq k key)) [
    | inl same ↦ rw same (le (pair_eq_iff k key same))
    | inr other ↦ rw other h
  ])

  -- Keeping the deepest of a pair loses no depth of any pair.
  keep_deepest_keeps :
      (o : Option (ℕ × Address))
      → lookup_pair key best ≡ o
      → (k : Pair) (s : ℕ) → AtLeast s (lookup_pair k best)
      → AtLeast s (lookup_pair k (keep_deepest key depth address best o))
  keep_deepest_keeps none e k s h =
      insert_other k s h
        λ same. absurd (subst (AtLeast s) e (subst (λ j. AtLeast s (lookup_pair j best)) same h))
  keep_deepest_keeps (some (existing, other)) e k s h = elim (Bool-cases (leb depth existing)) [
    | inl shallower ↦ rw shallower h
    | inr deeper ↦ rw deeper (
        insert_other k s h λ same.
          bound deeper (subst (AtLeast s) e (subst (λ j. AtLeast s (lookup_pair j best)) same h)))
  ]
    where
      bound : leb depth existing ≡ false → s ≤ existing → s ≤ depth
      bound deeper le = ground arith

  keep_deepest_self :
      (o : Option (ℕ × Address))
      → lookup_pair key best ≡ o
      → AtLeast depth (lookup_pair key (keep_deepest key depth address best o))
  keep_deepest_self none e = insert_self
  keep_deepest_self (some (existing, other)) e = elim (Bool-cases (leb depth existing)) [
    | inl shallower ↦ rw (shallower, e) (ground arith)
    | inr deeper ↦ rw deeper insert_self
  ]

-- One round loses no depth.
consider_keeps :
    (x : Address × PoolEntry) (best : Best) (k : Pair) (s : ℕ)
    → AtLeast s (lookup_pair k best)
    → AtLeast s (lookup_pair k (consider best x))
unfolding consider
consider_keeps (address, entry) best k s h =
    elim (Bool-cases (entry.quote_mint == entry.base_mint)) [
      | inl degenerate ↦ rw degenerate h
      | inr proper ↦ rw proper (go entry.market.financials)
    ]
  where
    go :
        (r : Result PoolFinancials)
        → AtLeast s (lookup_pair k (consider_funded best address entry r))
    go (err _) = h
    go (ok fin) = keep_deepest_keeps _ (score entry fin) address best _ refl k s h

-- What makes a pool a candidate: two mints, and balances that can be read.
abbrev pub IsCandidate : PoolEntry → PoolFinancials → Type 0
IsCandidate entry fin = (entry.quote_mint ≢ entry.base_mint) × (entry.market.financials ≡ ok fin)

abbrev pub key_of : PoolEntry → Pair
key_of entry = pair_key entry.quote_mint entry.base_mint

consider_self :
    (address : Address) (entry : PoolEntry) (fin : PoolFinancials) (best : Best)
    → IsCandidate entry fin
    → AtLeast (score entry fin) (lookup_pair (key_of entry) (consider best (address, entry)))
unfolding consider
consider_self address entry fin best (two, readable) =
    rw (proper, readable) (keep_deepest_self _ (score entry fin) address best _ refl)
  where
    proper : (entry.quote_mint == entry.base_mint) ≡ false
    proper = ground arith

fold_keeps :
    (xs : Dict PoolEntry) (best : Best) (k : Pair) (s : ℕ)
    → AtLeast s (lookup_pair k best)
    → AtLeast s (lookup_pair k (foldl consider best xs))
fold_keeps [] best k s h = h
fold_keeps (x ∷ xs) best k s h = fold_keeps xs (consider best x) k s (consider_keeps x best k s h)

pub fold_covers :
    (xs : Dict PoolEntry) (best : Best) (address : Address) (entry : PoolEntry)
    (fin : PoolFinancials)
    → IsCandidate entry fin
    → Memᴰ (address, entry) xs
    → AtLeast (score entry fin) (lookup_pair (key_of entry) (foldl consider best xs))
fold_covers [] best address entry fin c m = elim m [ ]
fold_covers (x ∷ xs) best address entry fin c (Memᴰ.head e) = fold_keeps xs (consider best x) _ _ (
    subst (λ y. AtLeast (score entry fin) (lookup_pair (key_of entry) (consider best y))) e
      (consider_self address entry fin best c))
fold_covers (x ∷ xs) best address entry fin c (Memᴰ.tail m) =
    fold_covers xs (consider best x) address entry fin c m

-- Where a kept depth comes from: a pool of the pair with that depth.
pub record Chosen (pools : Dict PoolEntry) (k : Pair) (depth : ℕ) (address : Address) : Type 0 where
  pub entry : PoolEntry
  pub fin : PoolFinancials
  pub listed : Memᴰ (address, entry) pools
  pub candidate : IsCandidate entry fin
  pub same_key : key_of entry ≡ k
  pub same_depth : score entry fin ≡ depth

module _ (pools : Dict PoolEntry) where
  abbrev pub AllChosen : Best → Type 0
  AllChosen best = All (λ (x : Pair × (ℕ × Address)). Chosen pools x.0 x.1.0 x.1.1) best

  insert_pair-AllChosen :
      (k : Pair) (depth : ℕ) (address : Address) (best : Best)
      → Chosen pools k depth address
      → AllChosen best
      → AllChosen (insert_pair k (depth, address) best)
  insert_pair-AllChosen k depth address [] c h = (c, tt)
  insert_pair-AllChosen k depth address ((j, w) ∷ best) c h = elim (Bool-cases (pair_eq k j)) [
    | inl same ↦ rw same (c, h.1)
    | inr other ↦ rw other (h.0, insert_pair-AllChosen k depth address best c h.1)
  ]

  keep_deepest-AllChosen :
      (k : Pair) (depth : ℕ) (address : Address) (best : Best) (o : Option (ℕ × Address))
      → Chosen pools k depth address
      → AllChosen best
      → AllChosen (keep_deepest k depth address best o)
  keep_deepest-AllChosen k depth address best none c h =
      insert_pair-AllChosen k depth address best c h
  keep_deepest-AllChosen k depth address best (some (existing, _)) c h =
      elim (Bool-cases (leb depth existing)) [
        | inl shallower ↦ rw shallower h
        | inr deeper ↦ rw deeper (insert_pair-AllChosen k depth address best c h)
      ]

  consider-AllChosen :
      (address : Address) (entry : PoolEntry) (best : Best)
      → Memᴰ (address, entry) pools
      → AllChosen best
      → AllChosen (consider best (address, entry))
  unfolding consider
  consider-AllChosen address entry best m h =
      elim (Bool-cases (entry.quote_mint == entry.base_mint)) [
        | inl degenerate ↦ rw degenerate h
        | inr proper ↦ rw proper (go (two proper) entry.market.financials refl)
      ]
    where
      two : (entry.quote_mint == entry.base_mint) ≡ false → entry.quote_mint ≢ entry.base_mint
      two proper = ground arith

      go :
          entry.quote_mint ≢ entry.base_mint
          → (r : Result PoolFinancials) → entry.market.financials ≡ r
          → AllChosen (consider_funded best address entry r)
      go ne (err _) e = h
      go ne (ok fin) e =
          keep_deepest-AllChosen _ _ address best _
            (record {
              entry = entry;
              fin = fin;
              listed = m;
              candidate = (ne, e);
              same_key = refl;
              same_depth = refl;
            })
            h

  pub fold-AllChosen :
      (xs : Dict PoolEntry) (best : Best)
      → ((x : Address × PoolEntry) → Memᴰ x xs → Memᴰ x pools)
      → AllChosen best
      → AllChosen (foldl consider best xs)
  fold-AllChosen [] best sub h = h
  fold-AllChosen (x ∷ xs) best sub h =
      fold-AllChosen xs (consider best x) (λ y m. sub y (Memᴰ.tail m))
        (consider-AllChosen x.0 x.1 best (sub x (Memᴰ.head refl)) h)
