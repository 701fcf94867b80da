-- ===== src/Engine/Registry/Validate.antt =====
-- The validation of all pools in crates/engine/src/pool_registry.rs.
use solana_dex_aggregator.Prelude.{
  ℕ, ◌+◌, ◌≡◌, ◌⊎◌, refl, ap, sym, ◌∙◌, inl, inr, Bool, true, false, Bool-cases, List, [], ◌∷◌,
  arith, ◌==◌, ==_iff, contains, contains-append, if◌then◌else◌, as_u64, subst, All,
}
use solana_dex_aggregator.Prelude.Maps.{Dict}
use solana_dex_aggregator.Core.{Address}
use solana_dex_aggregator.Engine.Store.{AccountStore}
use solana_dex_aggregator.Engine.Registry.{
  PoolInfo, PoolRegistry, check_swappable, swappable_addresses, insert_address, note_swappable,
  validate_loop, validate_with, validate_all,
}
use solana_dex_aggregator.Engine.Registry.Counts.{count_swappable, up_lem, IsCounted}
use solana_dex_aggregator.Engine.Registry.Updates.{IsFresh}

-- The pools with the flags that a check gives, and nothing else changed.
abbrev pub set_flags : (PoolInfo → Bool) → Dict PoolInfo → Dict PoolInfo
set_flags check [] = []
set_flags check ((address, info) ∷ pools) =
    (address, record info { swappable = check info }) ∷ set_flags check pools

set_flags-IsFresh :
    (store : AccountStore) (pools : Dict PoolInfo)
    → All
        (λ (x : Address × PoolInfo). IsFresh store x.1)
        (set_flags (λ info. check_swappable info store) pools)
unfolding check_swappable
set_flags-IsFresh store [] = tt
set_flags-IsFresh store ((address, info) ∷ pools) = (refl, set_flags-IsFresh store pools)

contains-insert_address :
    (address k : Address) (set : List Address)
    → contains (insert_address address set) k ≡ (if k == address then true else contains set k)
contains-insert_address address k set = elim (Bool-cases (contains set address)) [
  | inl known ↦ rw known (already (Bool-cases (k == address)) known)
  | inr fresh ↦
      rw (fresh, contains-append set (address ∷ []) k) (either (contains set k) (k == address))
]
  where
    already :
        ((k == address) ≡ true) ⊎ ((k == address) ≡ false)
        → contains set address ≡ true
        → contains set k ≡ (if k == address then true else contains set k)
    already (inl same) known =
        rw same (subst (λ x. contains set x ≡ true) (sym ((==_iff k address).0 same)) known)
    already (inr other) known = rw other refl

    either :
        (b e : Bool) → (if b then true else if e then true else false) ≡ (if e then true else b)
    either true true = refl
    either true false = refl
    either false true = refl
    either false false = refl

merge :
    (now : Bool) (address k : Address) (known : Bool) (rest : List Address)
    → (if (if now then if k == address then true else known else known)
        then true
        else contains rest k)
      ≡ (if known then true else contains (if now then address ∷ rest else rest) k)
merge true address k known rest = either (k == address) known
  where
    either :
        (e b : Bool)
        → (if (if e then true else b) then true else contains rest k)
          ≡ (if b then true else if e then true else contains rest k)
    either true true = refl
    either true false = refl
    either false true = refl
    either false false = refl
merge false address k known rest = refl

module _ (check : PoolInfo → Bool) where
  pub loop_pools :
      (pools : Dict PoolInfo) (noted : ℕ × List Address)
      → (validate_loop check pools noted).0 ≡ set_flags check pools
  loop_pools [] noted = refl
  loop_pools ((address, info) ∷ pools) noted =
      ap (λ rest. (address, record info { swappable = check info }) ∷ rest) (loop_pools pools _)

  note-count :
      (now : Bool) (address : Address) (noted : ℕ × List Address) (n : ℕ)
      → noted.0 ≡ as_u64 n
      → (note_swappable now address noted).0 ≡ as_u64 (n + (if now then 1 else 0))
  note-count true address (count, set) n h = up_lem count n (n + 1) h refl
  note-count false address (count, set) n h = h ∙ ap as_u64 (omega arith)

  loop_count :
      (pools : Dict PoolInfo) (noted : ℕ × List Address) (n : ℕ)
      → noted.0 ≡ as_u64 n
      → (validate_loop check pools noted).1.0 ≡ as_u64 (n + count_swappable (set_flags check pools))
  loop_count [] noted n h = h ∙ ap as_u64 (omega arith)
  loop_count ((address, info) ∷ pools) noted n h =
      loop_count pools _ _ (note-count (check info) address noted n h) ∙ ap as_u64 (omega arith)

  note-set :
      (now : Bool) (address k : Address) (noted : ℕ × List Address)
      → contains (note_swappable now address noted).1 k
        ≡ (if now then (if k == address then true else contains noted.1 k) else contains noted.1 k)
  note-set true address k (count, set) = contains-insert_address address k set
  note-set false address k (count, set) = refl

  loop_set :
      (pools : Dict PoolInfo) (noted : ℕ × List Address) (k : Address)
      → contains (validate_loop check pools noted).1.1 k ≡ (
          if contains noted.1 k
          then true
          else contains (swappable_addresses (set_flags check pools)) k)
  loop_set [] noted k = same_bool (contains noted.1 k)
    where
      same_bool : (b : Bool) → b ≡ (if b then true else false)
      same_bool true = refl
      same_bool false = refl
  loop_set ((address, info) ∷ pools) noted k =
      loop_set pools (note_swappable (check info) address noted) k
      ∙ ap (λ b. if b then true else contains (swappable_addresses (set_flags check pools)) k)
          (note-set (check info) address k noted)
      ∙ merge (check info) address k (contains noted.1 k)
          (swappable_addresses (set_flags check pools))

  pub validate_with-IsCounted : (registry : PoolRegistry) → IsCounted (validate_with check registry)
  unfolding as_u64
  validate_with-IsCounted registry =
      loop_count registry.pools (0, []) 0 refl
      ∙ ap as_u64 (omega arith)
      ∙ ap (λ pools. as_u64 (count_swappable pools)) (sym (loop_pools registry.pools (0, [])))

-- `validate_all`, from whatever state, gives every pool the flag that the check gives on the store
-- and changes nothing else of it; the counter is the number of flags that are set, as a machine
-- word, and the cached set holds an address exactly if it is that of a pool whose flag is set.
pub validate_all_lem :
    (store : AccountStore) (registry : PoolRegistry) (address : Address)
    → All (λ (x : Address × PoolInfo). IsFresh store x.1) (validate_all store registry).pools
      × ((validate_all store registry).pools
          ≡ set_flags (λ info. check_swappable info store) registry.pools)
      × IsCounted (validate_all store registry)
      × (contains (validate_all store registry).cached_swappable address
          ≡ contains (swappable_addresses (validate_all store registry).pools) address)
unfolding validate_all
validate_all_lem store registry address =
    let check = λ (info : PoolInfo). check_swappable info store in
    let pools = loop_pools check registry.pools (0, []) in
    (
      subst (All (λ (x : Address × PoolInfo). IsFresh store x.1)) (sym pools)
          (set_flags-IsFresh store registry.pools),
      pools,
      validate_with-IsCounted check registry,
      loop_set check registry.pools (0, []) address
          ∙ ap (λ ps. contains (swappable_addresses ps) address) (sym pools),
    )
