-- ===== src/Engine/Store.antt =====
-- crates/engine/src/account_store.rs: accounts by key, guarded by slot. Each operation is one
-- atomic step here; the code's map and its two counters are separate atomics.
pub mod Balance
pub mod Slots
pub mod Replay
use solana_dex_aggregator.Prelude.{
  ℕ, zero, suc, ◌+◌, ◌*◌, Bool, true, false, Option, none, some, List, [], ◌∷◌, ltb, leb,
  if◌then◌else◌, length, take, drop, as_u64,
}
use solana_dex_aggregator.Prelude.Maps.{Dict, lookup, insert}
use solana_dex_aggregator.Core.{Pubkey, Bytes, AccountDataProvider}

-- The field `data` of the code is `bytes`.
pub record AccountData : Type 0 where
  pub bytes : Bytes
  pub owner : Pubkey
  pub lamports : ℕ
  pub slot : ℕ

pub record AccountStore : Type 0 where
  pub accounts : Dict AccountData
  pub last_slot : ℕ
  pub account_count : ℕ

abbrev pub new : AccountStore
new = record { accounts = []; last_slot = 0; account_count = 0 }

-- The end of `upsert`: the load, the test and the store of `last_slot`.
abbrev pub raise_last_slot : ℕ → AccountStore → AccountStore
raise_last_slot slot store =
    if ltb store.last_slot slot then record store { last_slot = slot } else store

-- `match self.accounts.entry(pubkey)`, on what is found there.
abbrev pub upsert_entry : Pubkey → AccountData → Option AccountData → AccountStore → AccountStore
upsert_entry pubkey account (some stored) store =
    if ltb account.slot stored.slot
    then store
    else raise_last_slot account.slot
        (record store { accounts = insert pubkey account store.accounts })
upsert_entry pubkey account none store = raise_last_slot account.slot (record store {
  accounts = insert pubkey account store.accounts;
  account_count = as_u64 (store.account_count + 1);
})

-- The arguments `data`, `owner`, `lamports` and `slot` are the fields of `account`.
unfoldable pub upsert : Pubkey → AccountData → AccountStore → AccountStore
upsert pubkey account store = upsert_entry pubkey account (lookup pubkey store.accounts) store

abbrev pub data_with_slot : Option AccountData → Option (Bytes × ℕ)
data_with_slot none = none
data_with_slot (some v) = some (v.bytes, v.slot)

abbrev pub data_of : Option AccountData → Option Bytes
data_of none = none
data_of (some v) = some v.bytes

unfoldable pub get : AccountStore → Pubkey → Option AccountData
get store pubkey = lookup pubkey store.accounts

unfoldable pub get_data_with_slot : AccountStore → Pubkey → Option (Bytes × ℕ)
get_data_with_slot store pubkey = data_with_slot (lookup pubkey store.accounts)

unfoldable pub get_data : AccountStore → Pubkey → Option Bytes
get_data store pubkey = data_of (lookup pubkey store.accounts)

abbrev pub is_some {ℓ} : {A : Type ℓ} → Option A → Bool
is_some none = false
is_some (some a) = true

abbrev pub contains : AccountStore → Pubkey → Bool
contains store pubkey = is_some (lookup pubkey store.accounts)

-- `u64::from_le_bytes`
abbrev pub from_le_bytes : Bytes → ℕ
from_le_bytes [] = 0
from_le_bytes (b ∷ bs) = b + 256 * from_le_bytes bs

-- The amount field of a token account, if the data is long enough to have it.
abbrev pub balance_of : Option AccountData → ℕ
balance_of none = 0
balance_of (some v) =
    if leb 72 (length v.bytes) then from_le_bytes (take 8 (drop 64 v.bytes)) else 0

unfoldable pub read_token_balance : AccountStore → Pubkey → ℕ
read_token_balance store pubkey = balance_of (lookup pubkey store.accounts)

abbrev pub last_slot : AccountStore → ℕ
last_slot store = store.last_slot

abbrev pub len : AccountStore → ℕ
len store = store.account_count

-- `impl AccountDataProvider for AccountStore`
abbrev pub provider : AccountStore → AccountDataProvider
provider store = record {
  pool_account_data = get_data store;
  token_balance = read_token_balance store;
  account_data_with_slot = get_data_with_slot store;
}
