-- ===== src/Engine/Store/Slots.antt =====
-- `upsert` of crates/engine/src/account_store.rs: what the store keeps, and the guard on slots.
use solana_dex_aggregator.Prelude.{
  ℕ, ◌+◌, ◌≤◌, ◌≡◌, refl, sym, ap, ◌∙◌, inl, inr, false, Bool-cases, Option, none, some, [], ◌∷◌,
  arith, ltb, ◌==◌, max, length, as_u64,
}
use solana_dex_aggregator.Prelude.Maps.{
  Dict, lookup, insert, IsMap, insert-IsMap, length-insert_fresh, length-insert_known,
}
use solana_dex_aggregator.Prelude.Results.{some_inj}
use solana_dex_aggregator.Core.{Pubkey}
use solana_dex_aggregator.Engine.Store.{
  AccountData, AccountStore, upsert, upsert_entry, raise_last_slot,
}

-- The newest slot of the stored accounts.
abbrev pub newest_slot : Dict AccountData → ℕ
newest_slot [] = 0
newest_slot ((_, account) ∷ accounts) = max account.slot (newest_slot accounts)

-- No key is stored twice, the counter is the number of accounts, and `last_slot` the newest slot.
pub record IsStore (store : AccountStore) : Type 0 where
  pub accounts_ok : IsMap store.accounts
  pub count_ok : store.account_count ≡ as_u64 (length store.accounts)
  pub last_slot_ok : store.last_slot ≡ newest_slot store.accounts

newest_slot-insert_fresh :
    (k : Pubkey) (a : AccountData) (m : Dict AccountData)
    → lookup k m ≡ none
    → newest_slot (insert k a m) ≡ max a.slot (newest_slot m)
newest_slot-insert_fresh k a [] h = refl
newest_slot-insert_fresh k a ((j, b) ∷ m) h = ground (arith, newest_slot-insert_fresh k a m)

newest_slot-insert_known :
    (k : Pubkey) (a : AccountData) {b : AccountData} (m : Dict AccountData)
    → lookup k m ≡ some b
    → b.slot ≤ a.slot
    → newest_slot (insert k a m) ≡ max a.slot (newest_slot m)
newest_slot-insert_known k a [] h k' = cc
newest_slot-insert_known k a {b} ((j, c) ∷ m) h le = elim (Bool-cases (k == j)) [
  | inl same ↦ rw same (omega (arith, le, ap (λ x. x.slot) (some_inj (rw same at h))))
  | inr other ↦ rw other (omega (arith, newest_slot-insert_known k a {b = b} m (rw other at h) le))
]

raised :
    (slot : ℕ) (store : AccountStore)
    → (raise_last_slot slot store).last_slot ≡ max slot store.last_slot
raised slot store = ground arith

raised-IsStore :
    (slot : ℕ) (store : AccountStore)
    → IsMap store.accounts
    → store.account_count ≡ as_u64 (length store.accounts)
    → max slot store.last_slot ≡ newest_slot store.accounts
    → IsStore (raise_last_slot slot store)
raised-IsStore slot store m c l = elim (Bool-cases (ltb store.last_slot slot)) [
  | inl newer ↦ rw newer (record { accounts_ok = m; count_ok = c; last_slot_ok = ground arith })
  | inr older ↦ rw older (record { accounts_ok = m; count_ok = c; last_slot_ok = ground arith })
]

not_stale : (a b : ℕ) → ltb a b ≡ false → b ≤ a
not_stale a b h = ground arith

count_next : (n m : ℕ) → n ≡ as_u64 m → as_u64 (n + 1) ≡ as_u64 (m + 1)
unfolding as_u64
count_next n m h = omega (arith, h)

-- Every write keeps the store well-formed: one account per key, the counter equal to their number
-- (modulo 2^64), and `last_slot` equal to the newest slot stored.
pub upsert-IsStore :
    (pubkey : Pubkey) (account : AccountData) (store : AccountStore)
    → IsStore store
    → IsStore (upsert pubkey account store)
unfolding upsert
upsert-IsStore pubkey account store h = go (lookup pubkey store.accounts) refl
  where
    go :
        (found : Option AccountData)
        → lookup pubkey store.accounts ≡ found
        → IsStore (upsert_entry pubkey account found store)
    go none e =
        raised-IsStore account.slot _ (insert-IsMap pubkey account store.accounts h.accounts_ok)
          (count_next _ _ h.count_ok
            ∙ ap as_u64 (sym (length-insert_fresh pubkey account store.accounts e)))
          (omega (arith, h.last_slot_ok, newest_slot-insert_fresh pubkey account store.accounts e))
    go (some stored) e = elim (Bool-cases (ltb account.slot stored.slot)) [
      | inl stale ↦ rw stale h
      | inr fresh ↦ rw fresh (
          raised-IsStore account.slot _ (insert-IsMap pubkey account store.accounts h.accounts_ok)
            (h.count_ok ∙ ap as_u64 (sym (length-insert_known pubkey account store.accounts e)))
            (omega (
              arith,
              h.last_slot_ok,
              newest_slot-insert_known pubkey account store.accounts e
                  (not_stale account.slot stored.slot fresh),
            )))
    ]
