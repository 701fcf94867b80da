-- ===== src/Curves.antt =====
-- The bonding curves, which quote on virtual reserves: pump.fun (crates/pumpfun-amm) bonk.fun
-- (crates/bonk), and Meteora DBC (crates/meteora-dbc).
pub mod Pumpfun
pub mod Bonk
pub mod MeteoraDbc
pub mod DbcAccounts
use solana_dex_aggregator.Prelude.{
  ℕ, Bool, true, false, List, [], ◌∷◌, ◌==◌, ◌&&◌, leb, if◌then◌else◌, length, take, drop, Option,
  none, some,
}
use solana_dex_aggregator.Core.{Bytes}

abbrev same_bytes : Bytes → Bytes → Bool
same_bytes [] [] = true
same_bytes [] (y ∷ ys) = false
same_bytes (x ∷ xs) [] = false
same_bytes (x ∷ xs) (y ∷ ys) = x == y && same_bytes xs ys

-- What `parse_bonding_curve` and `parse_pool_state` have in common: the test of the eight bytes of
-- the discriminator, then the decoder of the rest.
abbrev pub parse_account : {A : Type 0} → Bytes → (Bytes → Option A) → Bytes → Option A
parse_account disc deserialize bytes =
    if leb 8 (length bytes) && same_bytes (take 8 bytes) disc
    then deserialize (drop 8 bytes)
    else none
