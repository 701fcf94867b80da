-- ===== src/Engine/Store/Replay.antt =====
-- The slot guard of crates/engine/src/account_store.rs over many writes: whatever the order in which
-- a cold start and a stream deliver them, the newest write to a key wins.
use solana_dex_aggregator.Prelude.{
  ℕ, ◌≤◌, ◌≡◌, ◌≢◌, ◌⊎◌, refl, sym, ap, ◌∙◌, inl, inr, true, false, Bool-cases, Option, none, some,
  List, [], ◌∷◌, arith, ltb, ◌==◌, if◌then◌else◌, All, Memᴰ, foldl, All-imp, All-snoc, mem_snoc_old,
  mem_snoc_new, ◌++◌, subst,
}
use solana_dex_aggregator.Prelude.Maps.{lookup, lookup-insert}
use mathlib.Core.List.{append_assoc, append-nil}
use native.Mathlib.Nat.{le_trans}
use solana_dex_aggregator.Core.{Pubkey}
use solana_dex_aggregator.Engine.Store.{
  AccountData, AccountStore, upsert, upsert_entry, raise_last_slot, get, new,
}

-- The account that a write leaves behind.
abbrev pub fresher : Option AccountData → AccountData → AccountData
fresher none account = account
fresher (some stored) account = if ltb account.slot stored.slot then stored else account

same_key : (a b : ℕ) → (a == b) ≡ true → a ≡ b
same_key a b h = ground arith

not_stale : (a b : ℕ) → ltb a b ≡ false → b ≤ a
not_stale a b h = ground arith

raised_accounts :
    (slot : ℕ) (store : AccountStore) → (raise_last_slot slot store).accounts ≡ store.accounts
raised_accounts slot store = ground arith

-- A write leaves at its key the stored account if its slot is newer, and the new one otherwise;
-- every other key keeps its account.
pub get-upsert :
    (pubkey other : Pubkey) (account : AccountData) (store : AccountStore)
    → get (upsert pubkey account store) other
      ≡ (if other == pubkey then some (fresher (get store pubkey) account) else get store other)
unfolding get upsert
get-upsert pubkey other account store = go (lookup pubkey store.accounts) refl
  where
    stays :
        (stored : AccountData)
        → lookup pubkey store.accounts ≡ some stored
        → lookup other store.accounts
          ≡ (if other == pubkey then some stored else lookup other store.accounts)
    stays stored e = elim (Bool-cases (other == pubkey)) [
      | inl same ↦ rw same (ap (λ k. lookup k store.accounts) (same_key other pubkey same) ∙ e)
      | inr different ↦ rw different refl
    ]

    go :
        (found : Option AccountData)
        → lookup pubkey store.accounts ≡ found
        → lookup other (upsert_entry pubkey account found store).accounts
          ≡ (if other == pubkey then some (fresher found account) else lookup other store.accounts)
    go none e =
        rw (raised_accounts account.slot _) (lookup-insert pubkey other account store.accounts)
    go (some stored) e = elim (Bool-cases (ltb account.slot stored.slot)) [
      | inl stale ↦ rw stale (stays stored e)
      | inr fresh ↦
          rw fresh (
            rw (raised_accounts account.slot _) (lookup-insert pubkey other account store.accounts))
    ]

-- Writes, in the order in which they arrive.
abbrev pub Write : Type 0
Write = Pubkey × AccountData

unfoldable pub replay : AccountStore → List Write → AccountStore
replay = foldl (λ store (pubkey, account). upsert pubkey account store)

-- Nothing older than `account` is missing: it is a write of the list, to this key, and no write of
-- the list to this key is newer.
abbrev pub Newest : List Write → Pubkey → Option AccountData → Type 0
Newest writes key none = All (λ (w : Write). (key == w.0) ≡ false) writes
Newest writes key (some account) =
    Memᴰ (key, account) writes × All (λ (w : Write). key ≡ w.0 → w.1.slot ≤ account.slot) writes

absent-All :
    (key : Pubkey) (bound : ℕ) (writes : List Write)
    → All (λ (w : Write). (key == w.0) ≡ false) writes
    → All (λ (w : Write). key ≡ w.0 → w.1.slot ≤ bound) writes
absent-All key bound writes h = All-imp writes (λ w other e. absurd (ground (arith, other, e))) h

Newest-same :
    (writes : List Write) (key : Pubkey) (account : AccountData) (found : Option AccountData)
    → Newest writes key found
    → Newest (writes ++ (key, account) ∷ []) key (some (fresher found account))
Newest-same writes key account none h = (
  mem_snoc_new (key, account) writes,
  All-snoc _ writes (key, account) (absent-All key account.slot writes h) (λ _. omega arith),
)
Newest-same writes key account (some stored) h = elim (Bool-cases (ltb account.slot stored.slot)) [
  | inl stale ↦ rw stale (
    mem_snoc_old (key, stored) (key, account) writes h.0,
    All-snoc _ writes (key, account) h.1 (λ _. ground (arith, stale)),
  )
  | inr fresh ↦ rw fresh (
    mem_snoc_new (key, account) writes,
    All-snoc _ writes (key, account)
        (All-imp writes (λ w old e. le_trans (old e) (not_stale account.slot stored.slot fresh))
          h.1)
        (λ _. omega arith),
  )
]

Newest-other :
    (writes : List Write) (key other : Pubkey) (account : AccountData) (found : Option AccountData)
    → (key == other) ≡ false
    → Newest writes key found
    → Newest (writes ++ (other, account) ∷ []) key found
Newest-other writes key other account none ne h = All-snoc _ writes (other, account) h ne
Newest-other writes key other account (some stored) ne h = (
  mem_snoc_old (key, stored) (other, account) writes h.0,
  All-snoc _ writes (other, account) h.1 (λ e. absurd (ground (arith, ne, e))),
)

Newest-upsert :
    (writes : List Write) (key other : Pubkey) (account : AccountData) (store : AccountStore)
    → Newest writes key (get store key)
    → Newest (writes ++ (other, account) ∷ []) key (get (upsert other account store) key)
Newest-upsert writes key other account store h = elim (Bool-cases (key == other)) [
  | inl same ↦
      let e = same_key key other same in
      rw (get-upsert other key account store, same)
        (subst
          (λ k. Newest (writes ++ (k, account) ∷ []) key (some (fresher (get store k) account))) e
          (Newest-same writes key account (get store key) h))
  | inr different ↦
      rw (get-upsert other key account store, different)
        (Newest-other writes key other account (get store key) different h)
]

replay_from :
    (writes before : List Write) (store : AccountStore) (key : Pubkey)
    → Newest before key (get store key)
    → Newest (before ++ writes) key (get (replay store writes) key)
unfolding replay
replay_from [] before store key h =
    subst (λ ws. Newest ws key (get store key)) (sym (append-nil before)) h
replay_from ((other, account) ∷ writes) before store key h =
    subst (λ ws. Newest ws key (get (replay (upsert other account store) writes) key))
      (append_assoc before ((other, account) ∷ []) writes)
      (replay_from writes (before ++ (other, account) ∷ []) (upsert other account store) key
        (Newest-upsert before key other account store h))

-- After any sequence of writes to an empty store, a key that was never written is absent, and a key
-- that was holds the account of one of its writes, none of which has a newer slot: a slow
-- cold-start fetch never replaces fresher streamed data.
pub replay-Newest :
    (writes : List Write) (key : Pubkey) → Newest writes key (get (replay new writes) key)
unfolding get
replay-Newest writes key = replay_from writes [] new key tt

fresher_comm :
    (found : Option AccountData) (a b : AccountData)
    → a.slot ≢ b.slot
    → fresher (some (fresher found a)) b ≡ fresher (some (fresher found b)) a
fresher_comm none a b h = ground (arith, h)
fresher_comm (some stored) a b h = ground (arith, h)

eq_sym : (a b : ℕ) → (b == a) ≡ (a == b)
eq_sym a b = ground arith

-- Which key is asked only selects the account.
pick_comm :
    {A : Type 0} (key k j : ℕ) (x y z : A)
    → (j == k) ≡ false
    → (if key == j then x else (if key == k then y else z))
      ≡ (if key == k then y else (if key == j then x else z))
pick_comm key k j x y z h = ground (arith, h)

-- Writes to different keys, or with different slots, commute: every key holds the same account
-- whichever of the two arrives first.
pub upsert_comm :
    (k j : Pubkey) (a b : AccountData) (store : AccountStore) (key : Pubkey)
    → (k ≢ j) ⊎ (a.slot ≢ b.slot)
    → get (upsert j b (upsert k a store)) key ≡ get (upsert k a (upsert j b store)) key
upsert_comm k j a b store key h =
    rw
      (
        get-upsert j key b (upsert k a store),
        get-upsert k key a (upsert j b store),
        get-upsert k j a store,
        get-upsert j k b store,
        get-upsert k key a store,
        get-upsert j key b store,
        eq_sym j k,
      )
      (elim (Bool-cases (j == k)) [
        | inl same ↦ rw same (together (same_key j k same) h)
        | inr different ↦ rw different (pick_comm key k j _ _ _ different)
      ])
  where
    together :
        j ≡ k
        → (k ≢ j) ⊎ (a.slot ≢ b.slot)
        → (if key == j
            then some (fresher (some (fresher (get store k) a)) b)
            else if key == k
            then some (fresher (get store k) a)
            else get store key)
          ≡ (if key == k
              then some (fresher (some (fresher (get store j) b)) a)
              else if key == j
              then some (fresher (get store j) b)
              else get store key)
    together e (inl ne) = absurd (ne (sym e))
    together e (inr ne) = rw e (elim (Bool-cases (key == k)) [
      | inl here ↦ rw here (ap some (fresher_comm (get store k) a b ne))
      | inr there ↦ rw there refl
    ])
