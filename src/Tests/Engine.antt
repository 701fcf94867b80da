-- ===== src/Tests/Engine.antt =====
-- Tests of the account store and of the pool registry.

use solana_dex_aggregator.Engine.Registry.Reach.{
  IsSound, Reach, Reach-IsSound, here, next, add, all, vault,
}
use solana_dex_aggregator.Prelude.{
  ℕ, ◌≡◌, ◌≢◌, refl, true, false, none, some, List, [], ◌∷◌, ◌++◌, All, arith, inr, ◌==◌,
  if◌then◌else◌, as_u64, contains, ◌⊎◌,
}
use solana_dex_aggregator.Prelude.Maps.{lookup, lookup_or}
use solana_dex_aggregator.Core.{Address}
use solana_dex_aggregator.Engine.Store as Store
use solana_dex_aggregator.Engine.Store.{AccountData, AccountStore, upsert, get, read_token_balance}
use solana_dex_aggregator.Engine.Store.Slots.{IsStore, upsert-IsStore}
use solana_dex_aggregator.Engine.Store.Replay.{
  Write, Newest, replay, replay-Newest, upsert_comm, fresher, get-upsert,
}
use solana_dex_aggregator.Engine.Store.Balance.{to_le_bytes, read_token_balance_lem}
use solana_dex_aggregator.Engine.Registry as Registry
use solana_dex_aggregator.Engine.Registry.{
  PoolInfo, PoolRegistry, add_pool, validate_pool, validate_all, on_vault_update, check_swappable,
  swappable_addresses,
}
use solana_dex_aggregator.Engine.Registry.Counts.{IsCounted, IsCurrent}
use solana_dex_aggregator.Engine.Registry.Updates.{IsFresh}
use solana_dex_aggregator.Engine.Registry.Fresh.{on_vault_update-IsFresh}
use solana_dex_aggregator.Engine.Registry.Rebuilt.{
  IsOutdated, on_vault_update-rebuild_swappable_set,
}
use solana_dex_aggregator.Engine.Registry.Validate.{set_flags, validate_all_lem}
use solana_dex_aggregator.Tests.{market}

-- 64 bytes that are not read.
abbrev eight : List ℕ
eight = 7 ∷ 7 ∷ 7 ∷ 7 ∷ 7 ∷ 7 ∷ 7 ∷ 7 ∷ []

abbrev header : List ℕ
header = eight ++ (eight ++ (eight ++ (eight ++ (eight ++ (eight ++ (eight ++ eight))))))

abbrev account : ℕ → ℕ → AccountData
account amount slot = record {
  bytes = header ++ (to_le_bytes 8 amount ++ 1 ∷ []);
  owner = 5;
  lamports = 2_039_280;
  slot = slot;
}

-- The stream delivers slot 120, then the cold start delivers slot 100.
abbrev writes : List Write
writes = (101, account 900 120) ∷ (102, account 500 110) ∷ (101, account 800 100) ∷ []

empty-IsStore : IsStore Store.new
unfolding as_u64
empty-IsStore = record { accounts_ok = tt; count_ok = refl; last_slot_ok = refl }

upsert-IsStore_example : IsStore (upsert 101 (account 900 120) Store.new)
upsert-IsStore_example = upsert-IsStore 101 (account 900 120) Store.new empty-IsStore

get-upsert_example : get (upsert 101 (account 900 120) Store.new) 101 ≡ (
    if 101 == 101 then some (fresher (get Store.new 101) (account 900 120)) else get Store.new 101)
get-upsert_example = get-upsert 101 101 (account 900 120) Store.new

replay-Newest_example : Newest writes 101 (get (replay Store.new writes) 101)
replay-Newest_example = replay-Newest writes 101

slots_differ : (account 900 120).slot ≢ (account 800 100).slot
slots_differ = omega arith

upsert_comm_example :
    get (upsert 101 (account 800 100) (upsert 101 (account 900 120) Store.new)) 101
    ≡ get (upsert 101 (account 900 120) (upsert 101 (account 800 100) Store.new)) 101
upsert_comm_example =
    upsert_comm 101 101 (account 900 120) (account 800 100) Store.new 101 (inr slots_differ)

abbrev store : AccountStore
store = replay Store.new writes

stored : get store 101 ≡ some (account 900 120)
unfolding get replay upsert
stored = refl

read_token_balance_lem_example : read_token_balance store 101 ≡ 900
read_token_balance_lem_example =
    read_token_balance_lem store 101 (account 900 120) header (1 ∷ []) 900 stored refl refl
      (omega arith)

abbrev info : PoolInfo
info = record {
  address = 10;
  dex_name = "Raydium CLMM";
  market = market 1_000_000_000 2_000_000_000;
  swappable = false;
  quote_mint = 1;
  base_mint = 2;
  quote_vault = 101;
  base_vault = 102;
  tick_arrays = [];
  bitmap_ext = none;
  bin_array = none;
  cached_data = [];
}

abbrev registry : PoolRegistry
registry = add_pool 10 info Registry.new

reached : Reach registry
reached = next here (add 10 info Registry.new refl)

on_vault_update-rebuild_swappable_set_example :
    (on_vault_update 102 store registry ≡ registry)
    ⊎ (IsCurrent (on_vault_update 102 store registry)
        × IsOutdated store registry (lookup_or 102 [] registry.vault_to_pool))
on_vault_update-rebuild_swappable_set_example =
    on_vault_update-rebuild_swappable_set 102 store registry

updated :
    lookup 10 (on_vault_update 102 store registry).pools ≡ some (record info { swappable = true })
unfolding on_vault_update add_pool check_swappable read_token_balance replay upsert
updated = refl

on_vault_update-IsFresh_example : IsFresh store (record info { swappable = true })
on_vault_update-IsFresh_example =
    on_vault_update-IsFresh 102 store 10 (record info { swappable = true }) reached updated
      (inr refl)

validate_all_lem_example :
    All (λ (x : Address × PoolInfo). IsFresh store x.1) (validate_all store registry).pools
    × ((validate_all store registry).pools
        ≡ set_flags (λ info. check_swappable info store) registry.pools)
    × IsCounted (validate_all store registry)
    × (contains (validate_all store registry).cached_swappable 10
        ≡ contains (swappable_addresses (validate_all store registry).pools) 10)
validate_all_lem_example = validate_all_lem store registry 10

Reach-IsSound_example : IsSound (on_vault_update 102 store (validate_all store registry))
Reach-IsSound_example = Reach-IsSound (
    next (next (next here (add 10 info Registry.new refl)) (all store registry))
      (vault 102 store (validate_all store registry)))
