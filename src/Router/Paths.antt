-- ===== src/Router/Paths.antt =====
-- What a simulated path is: `simulate_path` in crates/aggregator/src/router.rs over linked legs.
use solana_dex_aggregator.Prelude.{
  ℕ, suc, ◌≤◌, ◌≡◌, refl, sym, ap, ◌∙◌, inl, inr, true, false, Option, none, some, List, [], ◌∷◌,
  arith, ◌==◌, contains, length, All, Distinct, sat_add64, Bool-cases, subst,
}
use solana_dex_aggregator.Prelude.Results.{◌>>=◌, some_inj, OnSome, OnSome->>=, OnSome_value}
use solana_dex_aggregator.Prelude.Maps.{Dict}
use solana_dex_aggregator.Core.{Pubkey, Address, AccountDataProvider, buy, sell, SwapDirection}
use solana_dex_aggregator.Index.{PoolIndex, get_pool}
use solana_dex_aggregator.Index.Entry.{PoolEntry}
use solana_dex_aggregator.Index.Graph.{Trades, Connects}
use solana_dex_aggregator.Router.Types.{RouteHop, Route, first, last}
use solana_dex_aggregator.Router.Simulate.{
  Leg, guard, simulate_hop, all_fresh, run_legs, simulate_path,
}
use mathlib.Core.Path.{ap₂}
use solana_dex_aggregator.Router.Hops.{Side, simulate_hop-IsHop, guard-eq-some}

-- The legs lead from one mint to another, each through a pool that trades its two mints.
abbrev pub Linked : Dict PoolEntry → Pubkey → List Leg → Pubkey → Type 0
Linked pools from [] to = from ≡ to
Linked pools from ((address, input, output) ∷ legs) to =
    (input ≡ from) × Connects pools input output address × Linked pools output legs to

Side-Trades :
    (entry : PoolEntry) (direction : SwapDirection) (a b c : Pubkey)
    → Side entry direction a b
    → Trades entry a c
    → b ≡ c
Side-Trades entry buy a b c h k = ground arith
Side-Trades entry sell a b c h k = ground arith

-- The hops go through the pools of the legs in turn, from and to their mints, one hop for each leg.
abbrev pub Follows : List Leg → List RouteHop → Type 0
Follows [] [] = Unit
Follows [] (hop ∷ hops) = ⊥
Follows (leg ∷ legs) [] = ⊥
Follows ((address, input, output) ∷ legs) (hop ∷ hops) =
    (hop.pool_address ≡ address)
    × (hop.input_mint ≡ input)
    × (hop.output_mint ≡ output)
    × Follows legs hops

Follows-length :
    (legs : List Leg) (hops : List RouteHop) → Follows legs hops → length hops ≡ length legs
Follows-length [] [] f = refl
Follows-length (leg ∷ legs) [] f = elim f [ ]
Follows-length [] (hop ∷ hops) f = elim f [ ]
Follows-length (leg ∷ legs) (hop ∷ hops) (_, _, _, f) = ap suc (Follows-length legs hops f)

abbrev pub outputs : List RouteHop → List Pubkey
outputs [] = []
outputs (hop ∷ hops) = hop.output_mint ∷ outputs hops

abbrev leg_outputs : List Leg → List Pubkey
leg_outputs [] = []
leg_outputs ((_, _, output) ∷ legs) = output ∷ leg_outputs legs

-- No mint that `visited` holds is left over, and none repeats.
contains-ne : (k : ℕ) (xs : List ℕ) → All (λ x. (x == k) ≡ false) xs → contains xs k ≡ false
contains-ne k [] h = refl
contains-ne k (x ∷ xs) h = ground (arith, contains-ne k xs h.1)

split_fresh :
    (x : ℕ) (visited xs : List ℕ)
    → All (λ k. contains (x ∷ visited) k ≡ false) xs
    → All (λ k. (k == x) ≡ false) xs × All (λ k. contains visited k ≡ false) xs
split_fresh x visited [] h = (tt, tt)
split_fresh x visited (y ∷ ys) h =
    let (a, b) = split_fresh x visited ys h.1 in ((ground arith, a), (ground arith, b))

all_fresh-Distinct :
    (visited : List Pubkey) (legs : List Leg)
    → all_fresh visited legs ≡ true
    → Distinct (leg_outputs legs) × All (λ k. contains visited k ≡ false) (leg_outputs legs)
all_fresh-Distinct visited [] h = (tt, tt)
all_fresh-Distinct visited ((_, _, o) ∷ legs) h = elim (Bool-cases (contains visited o)) [
  | inl seen ↦ absurd (false_true (rw seen at h))
  | inr fresh ↦
      let (d, a) = all_fresh-Distinct (o ∷ visited) legs (rw fresh at h) in
      let (ne, old) = split_fresh o visited (leg_outputs legs) a in
      ((contains-ne o (leg_outputs legs) ne, d), (fresh, old))
]
  where
    false_true : false ≡ true → ⊥
    false_true e = cc

module _ (index : PoolIndex) (swappable : Option (List Address))
    (live : Option AccountDataProvider) where
  -- Each hop is a simulated hop that starts where the one before ended, in mint and in amount.
  abbrev pub Chain : Pubkey → ℕ → List RouteHop → Pubkey → ℕ → Type 0
  Chain mint amount [] mint' amount' = (mint ≡ mint') × (amount ≡ amount')
  Chain mint amount (hop ∷ hops) mint' amount' =
      (simulate_hop index swappable live hop.pool_address mint amount ≡ some hop)
      × (hop.input_mint ≡ mint)
      × (hop.input_amount ≡ amount)
      × Chain hop.output_mint hop.output_amount hops mint' amount'

  -- A route from `input` to `output` for `amount` with at most `bound` hops.
  pub record IsRoute (input output : Pubkey) (amount bound : ℕ) (route : Route) : Type 0 where
    pub chain : Chain input amount route.hops output route.output_amount
    pub starts : route.input_mint ≡ input
    pub ends : route.output_mint ≡ output
    pub carries : route.input_amount ≡ amount
    pub at_least : 1 ≤ length route.hops
    pub at_most : length route.hops ≤ bound
    pub acyclic : Distinct (input ∷ outputs route.hops)

  -- The legs' declared output mints are the mints that come out.
  hop_output :
      (address : Address) (input output : Pubkey) (amount : ℕ) {hop : RouteHop}
      → Connects index.pools input output address
      → simulate_hop index swappable live address input amount ≡ some hop
      → hop.output_mint ≡ output
  unfolding get_pool
  hop_output address input output amount {hop} (entry, placed, trades) e =
      let (h, same, mint, _) = simulate_hop-IsHop index swappable live address input amount e in
      let there : get_pool index address ≡ some h.entry =
        subst (λ a. get_pool index a ≡ some h.entry) same h.found in
      let one : h.entry ≡ entry = some_inj (sym there ∙ placed) in
      Side-Trades entry h.direction input hop.output_mint output
        (subst (λ x. Side x h.direction input hop.output_mint) one
          (subst (λ m. Side h.entry h.direction m hop.output_mint) mint h.side))
        trades

  -- What the loop over linked legs returns.
  abbrev Ran : Pubkey → Pubkey → ℕ → List Leg → List RouteHop × ℕ × ℕ → Type 0
  Ran from to amount legs (hops, out, _) =
      Chain from amount hops to out × (outputs hops ≡ leg_outputs legs) × Follows legs hops

  run_legs-Ran :
      (legs : List Leg) (from to : Pubkey) (amount impact : ℕ)
      → Linked index.pools from legs to
      → OnSome (Ran from to amount legs) (run_legs index swappable live legs amount impact)
  unfolding run_legs
  run_legs-Ran [] from to amount impact l = ((l, refl), refl, tt)
  run_legs-Ran ((address, input, output) ∷ legs) from to amount impact (here, pool, next) =
      OnSome->>= P (simulate_hop index swappable live address input amount) _ λ hop e.
        let (_, same, mint, carried) =
          simulate_hop-IsHop index swappable live address input amount e in
        let out : hop.output_mint ≡ output = hop_output address input output amount pool e in
        let onward : Linked index.pools hop.output_mint legs to =
          subst (λ m. Linked index.pools m legs to) (sym out) next in
        let replay : simulate_hop index swappable live hop.pool_address from amount ≡ some hop =
          subst (λ a. simulate_hop index swappable live a from amount ≡ some hop) (sym same)
            (subst (λ m. simulate_hop index swappable live address m amount ≡ some hop) here e) in
        step hop replay (mint ∙ here) carried out same mint _ (
          run_legs-Ran legs hop.output_mint to hop.output_amount
            (sat_add64 impact hop.price_impact_bps) onward)
    where
      P : List RouteHop × ℕ × ℕ → Type 0
      P = Ran from to amount ((address, input, output) ∷ legs)

      step :
          (hop : RouteHop)
          → simulate_hop index swappable live hop.pool_address from amount ≡ some hop
          → hop.input_mint ≡ from
          → hop.input_amount ≡ amount
          → hop.output_mint ≡ output
          → hop.pool_address ≡ address
          → hop.input_mint ≡ input
          → (o : Option (List RouteHop × ℕ × ℕ))
          → OnSome (Ran hop.output_mint to hop.output_amount legs) o
          → OnSome P (o >>= λ (hops, out, total). some (hop ∷ hops, out, total))
      step hop replay mint carried out through source none ih = tt
      step hop replay mint carried out through source (some (hops, left, total)) (chain, outs, f) =
          ((replay, mint, carried, chain), ap₂ ◌∷◌ out outs, (through, source, out, f))

  -- A chain that is not empty starts at its first hop and ends at its last.
  Chain-last :
      (hops : List RouteHop) (from to : Pubkey) (amount out : ℕ)
      → Chain from amount hops to out
      → OnSome (λ hop. hop.output_mint ≡ to) (last hops)
  Chain-last [] from to amount out c = tt
  Chain-last (hop ∷ []) from to amount out (_, _, _, c) = c.0
  Chain-last (hop ∷ next ∷ hops) from to amount out (_, _, _, c) =
      Chain-last (next ∷ hops) hop.output_mint to hop.output_amount out c

  Chain-first :
      (hops : List RouteHop) (from to : Pubkey) (amount out : ℕ)
      → Chain from amount hops to out
      → OnSome (λ hop. hop.input_mint ≡ from) (first hops)
  Chain-first [] from to amount out c = tt
  Chain-first (hop ∷ hops) from to amount out c = c.1

  -- Over linked legs a simulated path is a route whose hops follow the legs: one hop for each leg,
  -- through its pool, from its input mint to its output mint.
  pub simulate_path-IsRoute :
      (legs : List Leg) (input output : Pubkey) (amount : ℕ)
      → Linked index.pools input legs output
      → OnSome
          (λ route. IsRoute input output amount (length legs) route × Follows legs route.hops)
          (simulate_path index swappable live legs amount)
  unfolding simulate_path
  simulate_path-IsRoute [] input output amount l = tt
  simulate_path-IsRoute ((address, input', out_mint) ∷ legs) input output amount l =
      OnSome->>= P (guard (all_fresh (input' ∷ []) path)) _ λ _ fresh.
        OnSome->>= P (run_legs index swappable live path amount 0) _ λ ran ran_eq.
          let (hops, out, total) = ran in
          OnSome->>= P (first hops) _ λ first_hop first_eq.
            OnSome->>= P (last hops) _ λ last_hop last_eq.
              let (chain, outs, follows) =
                OnSome_value (Ran input output amount path) _
                  (run_legs-Ran path input output amount 0 l) ran_eq in
              let len = Follows-length path hops follows in
              (
                record {
                  chain = chain;
                  starts =
                      OnSome_value (λ hop. hop.input_mint ≡ input) (first hops)
                        (Chain-first hops input output amount out chain) first_eq;
                  ends =
                      OnSome_value (λ hop. hop.output_mint ≡ output) (last hops)
                        (Chain-last hops input output amount out chain) last_eq;
                  carries = refl;
                  at_least = omega (arith, len);
                  at_most = omega (arith, len);
                  acyclic =
                      subst (λ ms. Distinct (input ∷ ms)) (sym outs)
                        (distinct (guard-eq-some _ fresh));
                },
                follows,
              )
    where
      path : List Leg
      path = (address, input', out_mint) ∷ legs

      P : Route → Type 0
      P route = IsRoute input output amount (length path) route × Follows path route.hops

      distinct : all_fresh (input' ∷ []) path ≡ true → Distinct (input ∷ leg_outputs path)
      distinct fresh =
          let (d, a) = all_fresh-Distinct (input' ∷ []) path fresh in
          let (ne, _) = split_fresh input' [] (leg_outputs path) a in
          (
            subst (λ m. contains (leg_outputs path) m ≡ false) l.0
                (contains-ne input' (leg_outputs path) ne),
            d,
          )

  -- The route alone.
  pub path-IsRoute :
      (legs : List Leg) (input output : Pubkey) (amount : ℕ)
      → Linked index.pools input legs output
      → OnSome
          (IsRoute input output amount (length legs))
          (simulate_path index swappable live legs amount)
  path-IsRoute legs input output amount l =
      route_of (simulate_path index swappable live legs amount)
        (simulate_path-IsRoute legs input output amount l)
    where
      route_of :
          (o : Option Route)
          → OnSome
              (λ route. IsRoute input output amount (length legs) route × Follows legs route.hops)
              o
          → OnSome (IsRoute input output amount (length legs)) o
      route_of none h = tt
      route_of (some route) h = h.0
