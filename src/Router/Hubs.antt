-- ===== src/Router/Hubs.antt =====
-- `hub_set` of crates/aggregator/src/router.rs: the mints through which longer routes lead.
use mathlib.Core.List.{append_assoc, append-nil}
use solana_dex_aggregator.Prelude.{
  sym, ℕ, ◌≡◌, ◌⊎◌, refl, inl, inr, Bool, true, false, not, ◌&&◌, List, [], ◌∷◌, ◌++◌, map, arith,
  ◌==◌, contains, contains-append, foldl, All, All-imp, All-snoc, Distinct, Bool-cases, subst,
}
use solana_dex_aggregator.Core.{Pubkey}
use solana_dex_aggregator.Index.{top_hubs}
use solana_dex_aggregator.Router.{Router, Externals, seed_hubs, add_hub, hub_set}

Distinct-snoc :
    (hs : List ℕ) (h : ℕ) → contains hs h ≡ false → Distinct hs → Distinct (hs ++ h ∷ [])
Distinct-snoc [] h new d = (refl, tt)
Distinct-snoc (k ∷ ks) h new d = (
  ground (arith, contains-append ks (h ∷ []) k, d.0, new),
  Distinct-snoc ks h (ground (arith, new)) d.1,
)

some_true :
    (a b c : Bool) → (not a && not b && not c) ≡ false → (a ≡ true) ⊎ (b ≡ true) ⊎ (c ≡ true)
some_true true b c h = inl refl
some_true false true c h = inr (inl refl)
some_true false false true h = inr (inr refl)
some_true false false false h = cc

module _ (input output : Pubkey) where
  abbrev IsBetween : Pubkey → Type 0
  IsBetween h = ((h == input) ≡ false) × ((h == output) ≡ false)

  -- The mint is an endpoint or among the hubs.
  abbrev IsCovered : List Pubkey → Pubkey → Type 0
  IsCovered hubs h = ((h == input) ≡ true) ⊎ ((h == output) ≡ true) ⊎ (contains hubs h ≡ true)

  -- What a set of hubs is, for the mints that were offered.
  pub record IsHubSet (offered hubs : List Pubkey) : Type 0 where
    pub between : All IsBetween hubs
    pub distinct : Distinct hubs
    pub covered : All (IsCovered hubs) offered

  IsCovered-more :
      (hubs : List Pubkey) (h k : Pubkey) → IsCovered hubs k → IsCovered (hubs ++ h ∷ []) k
  IsCovered-more hubs h k (inl a) = inl a
  IsCovered-more hubs h k (inr (inl b)) = inr (inl b)
  IsCovered-more hubs h k (inr (inr c)) =
      inr (inr (ground (arith, contains-append hubs (h ∷ []) k, c)))

  IsCovered-new : (hubs : List Pubkey) (h : Pubkey) → IsCovered (hubs ++ h ∷ []) h
  IsCovered-new hubs h = inr (inr (ground (arith, contains-append hubs (h ∷ []) h)))

  add_hub-IsHubSet :
      (offered hubs : List Pubkey) (h : Pubkey)
      → IsHubSet offered hubs
      → IsHubSet (offered ++ h ∷ []) (add_hub input output hubs h)
  add_hub-IsHubSet offered hubs h s =
      elim (Bool-cases (not (h == input) && not (h == output) && not (contains hubs h))) [
        | inl new ↦ rw new (record {
          between = All-snoc IsBetween hubs h s.between (ground (arith, new));
          distinct = Distinct-snoc hubs h (ground (arith, new)) s.distinct;
          covered =
              All-snoc (IsCovered (hubs ++ h ∷ [])) offered h
                (All-imp offered (IsCovered-more hubs h) s.covered) (IsCovered-new hubs h);
        })
        | inr old ↦ rw old (record {
          between = s.between;
          distinct = s.distinct;
          covered =
              All-snoc (IsCovered hubs) offered h s.covered
                (some_true (h == input) (h == output) (contains hubs h) old);
        })
      ]

  fold-IsHubSet :
      (xs offered hubs : List Pubkey)
      → IsHubSet offered hubs
      → IsHubSet (offered ++ xs) (foldl (add_hub input output) hubs xs)
  fold-IsHubSet [] offered hubs s = subst (λ o. IsHubSet o hubs) (sym (append-nil offered)) s
  fold-IsHubSet (x ∷ xs) offered hubs s =
      subst (λ o. IsHubSet o (foldl (add_hub input output) (add_hub input output hubs x) xs))
        (append_assoc offered (x ∷ []) xs)
        (fold-IsHubSet xs (offered ++ x ∷ []) (add_hub input output hubs x)
          (add_hub-IsHubSet offered hubs x s))

-- The hubs of a trade are distinct, none of them is an endpoint of the trade, and each seed mint and
-- each of the `k` top hubs of the index that is not an endpoint is among them.
pub hub_set-IsHubSet :
    (ext : Externals) (router : Router) (k : ℕ) (input output : Pubkey)
    → IsHubSet input output
        (map ext.from_str_const seed_hubs ++ top_hubs ext.hub_sorts router.index k)
        (hub_set ext router k input output)
unfolding hub_set
hub_set-IsHubSet ext router k input output =
    fold-IsHubSet input output (top_hubs ext.hub_sorts router.index k)
      (map ext.from_str_const seed_hubs) _
      (fold-IsHubSet input output (map ext.from_str_const seed_hubs) [] []
        (record { between = tt; distinct = tt; covered = tt }))
