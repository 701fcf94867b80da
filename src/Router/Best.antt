-- ===== src/Router/Best.antt =====
-- The choice of a pool: `best_pool` and `canonical_leg` of crates/aggregator/src/router.rs.
use native.Mathlib.Nat.{le_trans}
use solana_dex_aggregator.Prelude.{
  ℕ, ◌≤◌, ◌≡◌, refl, inl, inr, Option, none, some, List, [], ◌∷◌, arith, leb, All, All-mem, Memᴰ,
  Bool-cases,
}
use solana_dex_aggregator.Prelude.Results.{some_inj, OnSome}
use solana_dex_aggregator.Core.{Pubkey, Address, AccountDataProvider}
use solana_dex_aggregator.Index.{PoolIndex, direct_pools, canonical_pool}
use solana_dex_aggregator.Index.Graph.{Connects, IsConsistent, direct_pools-Connects}
use solana_dex_aggregator.Index.Lookup.{canonical_pool_sound}
use solana_dex_aggregator.Router.Types.{RouteHop}
use solana_dex_aggregator.Router.Simulate.{guard, add_quote}
use solana_dex_aggregator.Prelude.{subst, ltb}
use solana_dex_aggregator.Prelude.Results.{OnSome->>=}
use solana_dex_aggregator.Router.Simulate.{
  simulate_hop, quotes, later_max, max_from, max_by_output, best_pool, through_canonical, or_scan,
  canonical_leg,
}

later_max_upper :
    (a b : Address) (n m : ℕ)
    → (n ≤ (later_max (a, n) (b, m)).1) × (m ≤ (later_max (a, n) (b, m)).1)
later_max_upper a b n m = ground arith

max_from_upper :
    (kept : Address × ℕ) (qs : List (Address × ℕ))
    → (kept.1 ≤ (max_from kept qs).1) × All (λ (q : Address × ℕ). q.1 ≤ (max_from kept qs).1) qs
max_from_upper kept [] = (omega arith, tt)
max_from_upper (a, n) ((b, m) ∷ qs) =
    let (low, rest) = max_from_upper (later_max (a, n) (b, m)) qs in
    let (first_low, next_low) = later_max_upper a b n m in
    (le_trans first_low low, (le_trans next_low low, rest))

max_from_keeps {κ} :
    (P : Address × ℕ → Type κ) (kept : Address × ℕ) (qs : List (Address × ℕ))
    → P kept
    → All P qs
    → P (max_from kept qs)
max_from_keeps P kept [] h k = h
max_from_keeps P kept (q ∷ qs) h k = elim (Bool-cases (leb kept.1 q.1)) [
  | inl later ↦ rw (later, max_from) (max_from_keeps P q qs k.0 k.1)
  | inr earlier ↦ rw (earlier, max_from) (max_from_keeps P kept qs h k.1)
]

module _ (index : PoolIndex) (swappable : Option (List Address))
    (live : Option AccountDataProvider) where
  abbrev hop_of : Address → Pubkey → ℕ → Option RouteHop
  hop_of = simulate_hop index swappable live

  module _ (input : Pubkey) (amount : ℕ) where
    -- The pool is one of those asked, and this is what it pays.
    pub record IsQuote (addresses : List Address) (quote : Address × ℕ) : Type 0 where
      pub hop : RouteHop
      pub listed : Memᴰ quote.0 addresses
      pub simulated : hop_of quote.0 input amount ≡ some hop
      pub pays : hop.output_amount ≡ quote.1

    -- No pool of the list pays more.
    abbrev pub NonePaysMore : List Address → ℕ → Type 0
    NonePaysMore addresses amount_out =
        All (λ a. OnSome (λ hop. hop.output_amount ≤ amount_out) (hop_of a input amount)) addresses

    widen_quotes :
        (address : Address) (addresses : List Address) (qs : List (Address × ℕ))
        → All (IsQuote addresses) qs
        → All (IsQuote (address ∷ addresses)) qs
    widen_quotes address addresses [] h = tt
    widen_quotes address addresses (q ∷ qs) h = (
      record {
        hop = h.0.hop;
        listed = Memᴰ.tail h.0.listed;
        simulated = h.0.simulated;
        pays = h.0.pays;
      },
      widen_quotes address addresses qs h.1,
    )

    quotes-IsQuote :
        (addresses : List Address)
        → All (IsQuote addresses) (quotes index swappable live addresses input amount)
    quotes-IsQuote [] = tt
    quotes-IsQuote (address ∷ addresses) =
        go _ (widen_quotes address addresses _ (quotes-IsQuote addresses))
          (hop_of address input amount) refl
      where
        go :
            (qs : List (Address × ℕ))
            → All (IsQuote (address ∷ addresses)) qs
            → (o : Option RouteHop) → hop_of address input amount ≡ o
            → All (IsQuote (address ∷ addresses)) (add_quote address o qs)
        go qs h none e = h
        go qs h (some hop) e =
            (record { hop = hop; listed = Memᴰ.head refl; simulated = e; pays = refl }, h)

    quotes_bound :
        (addresses : List Address) (bound : ℕ)
        → All
            (λ (q : Address × ℕ). q.1 ≤ bound)
            (quotes index swappable live addresses input amount)
        → NonePaysMore addresses bound
    quotes_bound [] bound h = tt
    quotes_bound (address ∷ addresses) bound h =
        let (here, rest) = go (hop_of address input amount) _ h in
        (here, quotes_bound addresses bound rest)
      where
        go :
            (o : Option RouteHop) (qs : List (Address × ℕ))
            → All (λ (q : Address × ℕ). q.1 ≤ bound) (add_quote address o qs)
            → OnSome (λ hop. hop.output_amount ≤ bound) o
              × All (λ (q : Address × ℕ). q.1 ≤ bound) qs
        go none qs h = (tt, h)
        go (some hop) qs h = (h.0, h.1)

    max_by_output-eq-some :
        (addresses : List Address) (qs : List (Address × ℕ)) {best : Address × ℕ}
        → All (IsQuote addresses) qs
        → max_by_output qs ≡ some best
        → IsQuote addresses best × All (λ (q : Address × ℕ). q.1 ≤ best.1) qs
    max_by_output-eq-some addresses [] h e = cc
    max_by_output-eq-some addresses (q ∷ qs) {best} h e =
        subst (λ b. IsQuote addresses b × All (λ (q : Address × ℕ). q.1 ≤ b.1) (q ∷ qs))
          (some_inj e) (max_from_keeps (IsQuote addresses) q qs h.0 h.1, max_from_upper q qs)

    -- The pool that `best_pool` picks is one of those asked, it pays what is said, and no pool of
    -- the list that can be used pays more.
    pub best_pool-eq-some :
        (addresses : List Address) {best : Address × ℕ}
        → best_pool index swappable live addresses input amount ≡ some best
        → IsQuote addresses best × NonePaysMore addresses best.1
    unfolding best_pool
    best_pool-eq-some addresses {best} e =
        let (quote, upper) = max_by_output-eq-some addresses _ (quotes-IsQuote addresses) e in
        (quote, quotes_bound addresses best.1 upper)

    -- `best_pool` finds no pool only where no pool of the list can be used.
    pub best_pool-eq-none :
        (addresses : List Address)
        → best_pool index swappable live addresses input amount ≡ none
        → All (λ a. hop_of a input amount ≡ none) addresses
    unfolding best_pool
    best_pool-eq-none [] e = tt
    best_pool-eq-none (address ∷ addresses) e =
        go (best_pool-eq-none addresses) (hop_of address input amount) refl e
      where
        go :
            (max_by_output (quotes index swappable live addresses input amount) ≡ none
              → All (λ a. hop_of a input amount ≡ none) addresses)
            → (o : Option RouteHop) → hop_of address input amount ≡ o
            → max_by_output
                (add_quote address o (quotes index swappable live addresses input amount))
              ≡ none
            → All (λ a. hop_of a input amount ≡ none) (address ∷ addresses)
        go rest none missing e = (missing, rest e)
        go rest (some hop) found e = cc

  -- The leg that `canonical_leg` chooses pays a positive amount through a pool of the index that
  -- trades the two mints, by a simulated hop.
  pub record IsLeg (from to : Pubkey) (amount : ℕ) (leg : Address × ℕ) : Type 0 where
    pub pool : Connects index.pools from to leg.0
    pub hop : RouteHop
    pub simulated : hop_of leg.0 from amount ≡ some hop
    pub pays : hop.output_amount ≡ leg.1

  pub scan-IsLeg :
      (from to : Pubkey) (amount : ℕ) {leg : Address × ℕ}
      → IsConsistent index
      → best_pool index swappable live (direct_pools index from to) from amount ≡ some leg
      → IsLeg from to amount leg
  scan-IsLeg from to amount {leg} c e =
      let (quote, _) = best_pool-eq-some from amount (direct_pools index from to) e in
      record {
        pool =
            All-mem (Connects index.pools from to) _ (direct_pools-Connects index from to c)
              quote.listed;
        hop = quote.hop;
        simulated = quote.simulated;
        pays = quote.pays;
      }

  through_canonical-IsLeg :
      (from to : Pubkey) (amount : ℕ)
      → IsConsistent index
      → OnSome (IsLeg from to amount) (through_canonical index swappable live from to amount)
  through_canonical-IsLeg from to amount c =
      OnSome->>= (IsLeg from to amount) (canonical_pool index from to) _ λ address found.
        OnSome->>= (IsLeg from to amount) (hop_of address from amount) _ λ hop simulated.
          OnSome->>= (IsLeg from to amount) (guard (ltb 0 hop.output_amount)) _ λ _ _. record {
            pool = (canonical_pool_sound index from to c).1 address found;
            hop = hop;
            simulated = simulated;
            pays = refl;
          }

  -- Over a consistent index, the leg that `canonical_leg` finds is a simulated hop that pays what is
  -- said, through a pool of the index that trades the two mints, the canonical one or another.
  pub canonical_leg-IsLeg :
      (from to : Pubkey) (amount : ℕ) {leg : Address × ℕ}
      → IsConsistent index
      → canonical_leg index swappable live from to amount ≡ some leg
      → IsLeg from to amount leg
  unfolding canonical_leg
  canonical_leg-IsLeg from to amount {leg} c e =
      go (through_canonical index swappable live from to amount)
        (through_canonical-IsLeg from to amount c) e
    where
      go :
          (o : Option (Address × ℕ))
          → OnSome (IsLeg from to amount) o
          → or_scan o (best_pool index swappable live (direct_pools index from to) from amount)
            ≡ some leg
          → IsLeg from to amount leg
      go none h e = scan-IsLeg from to amount c e
      go (some found) h e = subst (IsLeg from to amount) (some_inj e) h
