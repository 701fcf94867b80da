-- ===== src/Router/Gated.antt =====
-- The gate at the end of `find_routes` of crates/aggregator/src/router.rs, against its rule: a route
-- is dropped exactly if it pays more than three times the best surviving route with fewer hops.
use mathlib.Core.List.{append_assoc}
use mathlib.Core.List.Permᴰ
use native.Mathlib.Nat.{le_trans}
use solana_dex_aggregator.Prelude.{
  ℕ, suc, ◌≤◌, ◌<◌, ◌≡◌, refl, sym, ◌⊎◌, inl, inr, true, false, List, [], ◌∷◌, ◌++◌, arith, ltb,
  ◌==◌, if◌then◌else◌, max, sat_mul64, All, All-snoc, All-imp, All-perm, Memᴰ, Bool-cases, subst,
  ap, ◌∙◌,
}
use solana_dex_aggregator.Prelude.Sort.{Ascending, Sorted}
use solana_dex_aggregator.Core.{Pubkey}
use solana_dex_aggregator.Router.Types.{Route}
use solana_dex_aggregator.Router.Rank.{
  max_extra_hop_gain, hop_count, Gate, enter_level, is_phantom, keep_in, retain, open_gate,
}
use solana_dex_aggregator.Router.Routed.{retain_keeps}
use solana_dex_aggregator.Router.{Router, Externals, candidates, survivors}

-- The best output among the routes with fewer than `n` hops, and 0 if there is none.
abbrev pub best_shorter : ℕ → List Route → ℕ
best_shorter n [] = 0
best_shorter n (route ∷ routes) =
    if ltb (hop_count route) n
    then max route.output_amount (best_shorter n routes)
    else best_shorter n routes

best_shorter-append :
    (n : ℕ) (xs ys : List Route)
    → best_shorter n (xs ++ ys) ≡ max (best_shorter n xs) (best_shorter n ys)
best_shorter-append n [] ys = omega arith
best_shorter-append n (x ∷ xs) ys = ground (arith, best_shorter-append n xs ys)

abbrev pub AtLeastHops : ℕ → Route → Type 0
AtLeastHops n route = n ≤ hop_count route

abbrev AtMostHops : ℕ → Route → Type 0
AtMostHops n route = hop_count route ≤ n

pub best_shorter_none : (n : ℕ) (ys : List Route) → All (AtLeastHops n) ys → best_shorter n ys ≡ 0
best_shorter_none n [] h = refl
best_shorter_none n (y ∷ ys) h = ground (arith, best_shorter_none n ys h.1)

-- Above the longest route every bound gives the same.
best_shorter_above :
    (c n : ℕ) (xs : List Route)
    → All (AtMostHops c) xs
    → c < n
    → best_shorter n xs ≡ best_shorter (suc c) xs
best_shorter_above c n [] h k = refl
best_shorter_above c n (x ∷ xs) h k = ground (arith, best_shorter_above c n xs h.1 k)

-- What the gate knows of the routes kept so far.
record Tracks (gate : Gate) (kept : List Route) : Type 0 where
  bounded : All (AtMostHops gate.current_len) kept
  shorter : gate.shorter_best ≡ best_shorter gate.current_len kept
  level : max gate.shorter_best gate.level_best ≡ best_shorter (suc gate.current_len) kept

raise_bound : (c n : ℕ) (xs : List Route) → c ≤ n → All (AtMostHops c) xs → All (AtMostHops n) xs
raise_bound c n xs h k = All-imp xs (λ x j. le_trans j h) k

enter_same :
    (gate : Gate) (len : ℕ) → (len == gate.current_len) ≡ true → enter_level gate len ≡ gate
unfolding enter_level
enter_same gate len h = rw h refl

enter_next :
    (gate : Gate) (len : ℕ)
    → (len == gate.current_len) ≡ false
    → enter_level gate len ≡ record {
      shorter_best = max gate.shorter_best gate.level_best;
      level_best = 0;
      current_len = len;
    }
unfolding enter_level
enter_next gate len h = rw h refl

==_reads : (a b : ℕ) → (a == b) ≡ true → b ≡ a
==_reads a b h = ground arith

later : (a b : ℕ) → a ≤ b → (b == a) ≡ false → a < b
later a b h k = ground arith

enter_level-Tracks :
    (gate : Gate) (kept : List Route) (len : ℕ)
    → gate.current_len ≤ len
    → Tracks gate kept
    → Tracks (enter_level gate len) kept × ((enter_level gate len).current_len ≡ len)
enter_level-Tracks gate kept len h t = elim (Bool-cases (len == gate.current_len)) [
  | inl same ↦ let e = enter_same gate len same in rw e (t, ==_reads len gate.current_len same)
  | inr next ↦ rw (enter_next gate len next) (
    record {
      bounded = raise_bound gate.current_len len kept h t.bounded;
      shorter = omega (
        arith,
        t.level,
        best_shorter_above gate.current_len len kept t.bounded (later gate.current_len len h next),
      );
      level = omega (
        arith,
        t.level,
        best_shorter_above gate.current_len len kept t.bounded (later gate.current_len len h next),
        best_shorter_above gate.current_len (suc len) kept t.bounded (omega (arith, h)),
      );
    },
    refl,
  )
]

module _ (gate : Gate) (kept : List Route) (route : Route) (t : Tracks gate kept)
    (here : gate.current_len ≡ hop_count route) where
  keep_in-Tracks : Tracks (keep_in gate route) (kept ++ route ∷ [])
  keep_in-Tracks = record {
    bounded = All-snoc (AtMostHops gate.current_len) kept route t.bounded (omega (arith, here));
    shorter =
        rw (best_shorter-append gate.current_len kept (route ∷ []))
          (ground (arith, t.shorter, here));
    level =
        rw (best_shorter-append (suc gate.current_len) kept (route ∷ []))
          (ground (arith, t.level, here));
  }

-- What the gate's rule says of a route, by the best among the shorter of `all`.
abbrev pub IsAllowed : List Route → Route → Type 0
IsAllowed all route =
    (best_shorter (hop_count route) all ≡ 0)
    ⊎ (route.output_amount ≤ sat_mul64 (best_shorter (hop_count route) all) max_extra_hop_gain)

abbrev pub IsPhantom : List Route → Route → Type 0
IsPhantom all route =
    (0 < best_shorter (hop_count route) all)
    × (sat_mul64 (best_shorter (hop_count route) all) max_extra_hop_gain < route.output_amount)

phantom_true :
    (best : ℕ) (route : Route)
    → is_phantom best route ≡ true
    → (0 < best) × (sat_mul64 best max_extra_hop_gain < route.output_amount)
phantom_true best route h = ground arith

phantom_false :
    (best : ℕ) (route : Route)
    → is_phantom best route ≡ false
    → (best ≡ 0) ⊎ (route.output_amount ≤ sat_mul64 best max_extra_hop_gain)
phantom_false best route h = ground arith

-- A route either passes and is among all that did, or is a phantom.
abbrev pub Judged : List Route → Route → Type 0
Judged all route = (IsAllowed all route × Memᴰ route all) ⊎ IsPhantom all route

retain_shorter :
    (n : ℕ) (gate : Gate) (kept routes : List Route)
    → All (AtLeastHops n) routes
    → best_shorter n (kept ++ retain gate routes) ≡ best_shorter n kept
retain_shorter n gate kept routes h = omega (
  arith,
  best_shorter-append n kept (retain gate routes),
  best_shorter_none n (retain gate routes) (retain_keeps (AtLeastHops n) routes gate h),
)

mem_middle : (x : Route) (xs ys : List Route) → Memᴰ x (xs ++ x ∷ ys)
mem_middle x [] ys = Memᴰ.head refl
mem_middle x (z ∷ zs) ys = Memᴰ.tail (mem_middle x zs ys)

-- The best of the shorter routes that passed is what the gate holds when it reaches a route.
shorter_seen :
    (gate : Gate) (kept routes : List Route) (route : Route) {all : List Route}
    → Tracks gate kept
    → gate.current_len ≡ hop_count route
    → All (AtLeastHops (hop_count route)) routes
    → all ≡ kept ++ retain gate routes
    → gate.shorter_best ≡ best_shorter (hop_count route) all
shorter_seen gate kept routes route t here rest e = rw e (
    omega (
      arith,
      t.shorter,
      retain_shorter (hop_count route) gate kept routes rest,
      ap (λ n. best_shorter n kept) here,
    ))

-- What the rest of the loop shows of the routes that it reads and of those that it keeps.
abbrev Outcome : List Route → Gate → List Route → Type 0
Outcome all gate routes = All (Judged all) routes × All (IsAllowed all) (retain gate routes)

retain-Judged :
    (gate : Gate) (kept routes : List Route) (all : List Route)
    → Tracks gate kept
    → All (AtLeastHops gate.current_len) routes
    → Sorted (Ascending hop_count) routes
    → all ≡ kept ++ retain gate routes
    → Outcome all gate routes
unfolding retain
retain-Judged gate kept [] all t h s e = (tt, tt)
retain-Judged gate kept (route ∷ routes) all t h s e =
    let gate' = enter_level gate (hop_count route) in
    let (t', here) = enter_level-Tracks gate kept (hop_count route) h.0 t in
    let above = All-imp routes (λ x k. omega (arith, k, here)) s.0 in
    elim (Bool-cases (is_phantom gate'.shorter_best route)) [
      | inl phantom ↦
          let e' = rw phantom at e in
          let seen = shorter_seen gate' kept routes route t' here s.0 e' in
          let (judged, allowed) = retain-Judged gate' kept routes all t' above s.1 e' in
          let gone = phantom_true gate'.shorter_best route phantom in
          rw phantom (
            (
              inr (
                  subst (λ b. (0 < b) × (sat_mul64 b max_extra_hop_gain < route.output_amount)) seen
                    gone),
              judged,
            ),
            allowed,
          )
      | inr fine ↦
          let e' = rw fine at e in
          let next = keep_in gate' route in
          let t'' = keep_in-Tracks gate' kept route t' here in
          let snoc = e' ∙ sym (append_assoc kept (route ∷ []) (retain next routes)) in
          let seen = shorter_seen next (kept ++ route ∷ []) routes route t'' here s.0 snoc in
          let (judged, allowed) =
            retain-Judged next (kept ++ route ∷ []) routes all t'' above s.1 snoc in
          let passes =
            subst (λ b. (b ≡ 0) ⊎ (route.output_amount ≤ sat_mul64 b max_extra_hop_gain)) seen
              (phantom_false gate'.shorter_best route fine) in
          let listed = subst (Memᴰ route) (sym e') (mem_middle route kept (retain next routes)) in
          rw fine ((inl (passes, listed), judged), (passes, allowed))
    ]

any_length : (routes : List Route) → All (AtLeastHops 0) routes
any_length [] = tt
any_length (route ∷ routes) = (omega arith, any_length routes)

-- The gate of `find_routes`, for any router and any candidates: a candidate is dropped exactly if
-- some surviving route with fewer hops pays something and the candidate pays more than three times
-- the best of these; the others survive, and no survivor is a route to drop.
pub survivors_gated :
    (ext : Externals) (router : Router) (input output : Pubkey) (amount : ℕ)
    → let all = survivors ext router input output amount in
      All (Judged all) (candidates ext router input output amount) × All (IsAllowed all) all
unfolding survivors
survivors_gated ext router input output amount =
    let found = candidates ext router input output amount in
    let sorted = ext.by_hop_count.sort found in
    let (judged, allowed) =
      retain-Judged open_gate [] sorted (retain open_gate sorted)
        (record { bounded = tt; shorter = refl; level = refl }) (any_length sorted)
        (ext.by_hop_count.sort-Sorted found) refl in
    (All-perm _ (Permᴰ.symm (ext.by_hop_count.sort-perm found)) judged, allowed)
