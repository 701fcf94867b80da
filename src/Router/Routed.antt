-- ===== src/Router/Routed.antt =====
-- The routes that the strategies of crates/aggregator/src/router.rs push, one lemma for each number
-- of hops, and the gate, which adds none.
use solana_dex_aggregator.Prelude.{
  ℕ, ◌≤◌, ◌≡◌, refl, inl, inr, Bool, true, false, Option, none, some, List, [], ◌∷◌, if◌then◌else◌,
  All, All-mem, Memᴰ, Bool-cases,
}
use solana_dex_aggregator.Prelude.Results.{OnSome, OnSome->>=}
use solana_dex_aggregator.Core.{Pubkey, Address, AccountDataProvider}
use solana_dex_aggregator.Index.{PoolIndex, direct_pools}
use solana_dex_aggregator.Index.Graph.{Connects, IsConsistent, direct_pools-Connects}
use solana_dex_aggregator.Router.Types.{Route}
use solana_dex_aggregator.Router.Simulate.{best_pool, canonical_leg}
use solana_dex_aggregator.Router.Paths.{IsRoute, path-IsRoute}
use solana_dex_aggregator.Router.Best.{scan-IsLeg, canonical_leg-IsLeg}
use solana_dex_aggregator.Router.Search.{direct_route, two_hops, three_hops, four_hops}
use solana_dex_aggregator.Router.Keeps.{}
use solana_dex_aggregator.Router.Rank.{Gate, retain, enter_level, is_phantom, hop_count, keep_in}
use native.Mathlib.Nat.{le_trans}
use solana_dex_aggregator.Router.{}

module _ (index : PoolIndex) (swappable : Option (List Address)) (live : Option AccountDataProvider)
    (consistent : IsConsistent index) (input output : Pubkey) (amount : ℕ) where
  abbrev Routed : ℕ → Route → Type 0
  Routed = IsRoute index swappable live input output amount

  pub widen : (n k : ℕ) → n ≤ k → (o : Option Route) → OnSome (Routed n) o → OnSome (Routed k) o
  widen n k h none r = tt
  widen n k h (some route) r = record {
    chain = r.chain;
    starts = r.starts;
    ends = r.ends;
    carries = r.carries;
    at_least = r.at_least;
    at_most = le_trans r.at_most h;
    acyclic = r.acyclic;
  }

  pub direct-IsRoute :
      (a : Address)
      → Memᴰ a (direct_pools index input output)
      → OnSome (Routed 1) (direct_route index swappable live input output amount a)
  direct-IsRoute a m =
      let pool =
        All-mem (Connects index.pools input output) _
          (direct_pools-Connects index input output consistent) m in
      path-IsRoute index swappable live ((a, input, output) ∷ []) input output amount
        (refl, pool, refl)

  pub two_hops-IsRoute :
      (mid : Pubkey) → OnSome (Routed 2) (two_hops index swappable live input output amount mid)
  two_hops-IsRoute mid =
      OnSome->>= (Routed 2) (canonical_leg index swappable live input mid amount) _ λ leg1 e1.
        let (a1, n1) = leg1 in
        OnSome->>= (Routed 2)
          (best_pool index swappable live (direct_pools index mid output) mid n1) _
          λ leg2 e2.
            let first = canonical_leg-IsLeg index swappable live input mid amount consistent e1 in
            let second = scan-IsLeg index swappable live mid output n1 consistent e2 in
            path-IsRoute index swappable live ((leg1.0, input, mid) ∷ (leg2.0, mid, output) ∷ [])
              input output amount (refl, first.pool, (refl, second.pool, refl))

  pub three_hops-IsRoute :
      (h1 h2 : Pubkey)
      → OnSome (Routed 3) (three_hops index swappable live input output amount h1 h2)
  three_hops-IsRoute h1 h2 =
      OnSome->>= (Routed 3) (canonical_leg index swappable live input h1 amount) _ λ leg1 e1.
        OnSome->>= (Routed 3) (canonical_leg index swappable live h1 h2 leg1.1) _ λ leg2 e2.
          OnSome->>= (Routed 3)
            (best_pool index swappable live (direct_pools index h2 output) h2 leg2.1) _
            λ leg3 e3.
              let first = canonical_leg-IsLeg index swappable live input h1 amount consistent e1 in
              let second = canonical_leg-IsLeg index swappable live h1 h2 leg1.1 consistent e2 in
              let third = scan-IsLeg index swappable live h2 output leg2.1 consistent e3 in
              path-IsRoute index swappable live
                ((leg1.0, input, h1) ∷ (leg2.0, h1, h2) ∷ (leg3.0, h2, output) ∷ []) input output
                amount (refl, first.pool, (refl, second.pool, (refl, third.pool, refl)))

  pub four_hops-IsRoute :
      (a b c : Pubkey)
      → OnSome (Routed 4) (four_hops index swappable live input output amount a b c)
  four_hops-IsRoute a b c =
      OnSome->>= (Routed 4) (canonical_leg index swappable live input a amount) _ λ leg1 e1.
        OnSome->>= (Routed 4) (canonical_leg index swappable live a b leg1.1) _ λ leg2 e2.
          OnSome->>= (Routed 4) (canonical_leg index swappable live b c leg2.1) _ λ leg3 e3.
            OnSome->>= (Routed 4)
              (best_pool index swappable live (direct_pools index c output) c leg3.1) _
              λ leg4 e4.
                let first = canonical_leg-IsLeg index swappable live input a amount consistent e1 in
                let second = canonical_leg-IsLeg index swappable live a b leg1.1 consistent e2 in
                let third = canonical_leg-IsLeg index swappable live b c leg2.1 consistent e3 in
                let fourth = scan-IsLeg index swappable live c output leg3.1 consistent e4 in
                path-IsRoute index swappable live
                  ((leg1.0, input, a) ∷ (leg2.0, a, b) ∷ (leg3.0, b, c) ∷ (leg4.0, c, output) ∷ [])
                  input output amount
                  (
                    refl,
                    first.pool,
                    (refl, second.pool, (refl, third.pool, (refl, fourth.pool, refl))),
                  )

pub when_keeps {ℓ κ} :
    {A : Type ℓ} (P : A → Type κ) (b : Bool) {x y : A}
    → (b ≡ true → P x)
    → P y
    → P (if b then x else y)
when_keeps P true h k = h refl
when_keeps P false h k = k

pub retain_keeps :
    (P : Route → Type 0) (routes : List Route) (gate : Gate)
    → All P routes
    → All P (retain gate routes)
unfolding retain
retain_keeps P [] gate h = tt
retain_keeps P (route ∷ routes) gate h =
    elim (Bool-cases (is_phantom (enter_level gate (hop_count route)).shorter_best route)) [
      | inl phantom ↦ rw phantom (retain_keeps P routes (enter_level gate (hop_count route)) h.1)
      | inr fine ↦
          rw fine
            (h.0, retain_keeps P routes (keep_in (enter_level gate (hop_count route)) route) h.1)
    ]
