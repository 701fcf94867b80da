-- ===== src/Index/Entry.antt =====
-- The entries of the pool index, the edges of its graph, and maps keyed by a pair of mints.
use Prim.Native.String.{String}
use solana_dex_aggregator.Prelude.{
  ◌≡◌, refl, Bool, true, ◌&&◌, Option, none, some, List, [], ◌∷◌, leb, ◌==◌, if◌then◌else◌, arith,
}
use solana_dex_aggregator.Core.{Pubkey, Address, Bytes, Market}

pub record PoolEntry : Type 0 where
  pub market : Market
  pub dex_name : String
  pub quote_mint : Pubkey
  pub base_mint : Pubkey
  pub pool_pubkey : Pubkey
  pub quote_vault : Pubkey
  pub base_vault : Pubkey
  pub cached_data : Bytes

-- To `other_mint` through `pool_address`.
pub record Edge : Type 0 where
  pub other_mint : Pubkey
  pub pool_address : Address

abbrev pub Pair : Type 0
Pair = Pubkey × Pubkey

unfoldable pub pair_key : Pubkey → Pubkey → Pair
pair_key a b = if leb a b then (a, b) else (b, a)

abbrev pub pair_eq : Pair → Pair → Bool
pair_eq p q = (p.0 == q.0) && (p.1 == q.1)

abbrev pub lookup_pair {ℓ} : {V : Type ℓ} → Pair → List (Pair × V) → Option V
lookup_pair k [] = none
lookup_pair k ((j, v) ∷ m) = if pair_eq k j then some v else lookup_pair k m

abbrev pub insert_pair {ℓ} : {V : Type ℓ} → Pair → V → List (Pair × V) → List (Pair × V)
insert_pair k v [] = (k, v) ∷ []
insert_pair k v ((j, w) ∷ m) = if pair_eq k j then (k, v) ∷ m else (j, w) ∷ insert_pair k v m

pub pair_eq_iff : (p q : Pair) → pair_eq p q ≡ true → p ≡ q
pair_eq_iff (a, b) (c, d) h = ground arith

pub lookup_pair-insert_pair {ℓ} :
    {V : Type ℓ} (k j : Pair) (v : V) (m : List (Pair × V))
    → lookup_pair j (insert_pair k v m) ≡ (if pair_eq j k then some v else lookup_pair j m)
lookup_pair-insert_pair k j v [] = refl
lookup_pair-insert_pair (a, b) (c, d) v (((x, y), w) ∷ m) =
    ground (arith, lookup_pair-insert_pair (a, b) (c, d) v m)

-- The key of a pair does not depend on its order.
pub pair_key_comm : (a b : Pubkey) → pair_key a b ≡ pair_key b a
unfolding pair_key
pair_key_comm a b = ground arith
