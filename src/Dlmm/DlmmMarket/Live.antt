-- ===== src/Dlmm/DlmmMarket/Live.antt =====
-- The traversal quote on live accounts in crates/meteora-dlmm/src/lib.rs.

use solana_dex_aggregator.Prelude.{
  ℕ, ◌+◌, ◌^◌, ◌<◌, ◌≤◌, ◌⊎◌, zero, suc, ◌≡◌, as_u64, ap, refl, inl, inr, Bool-cases, Bool, true,
  false, Option, none, some, arith,
}
use solana_dex_aggregator.Prelude.Results.{ok, >>=-eq-some}
use solana_dex_aggregator.Prelude.Signed.{ℤ}
use solana_dex_aggregator.Core.{Pubkey, Address, Bytes, SwapDirection, AccountDataProvider}
use solana_dex_aggregator.Dlmm.{
  MeteoraDlmmPool, BinArray, from_account_bytes, bin_id_to_bin_array_index,
}
use solana_dex_aggregator.Dlmm.Quote.Trades.{ArrayFits, Trades}
use solana_dex_aggregator.Dlmm.Quote.Traversal.{quote_exact_in-Trades}
use solana_dex_aggregator.Dlmm.DlmmMarket.{
  MeteoraDlmmMarket, swaps_for_y, slot_of, is_stale, traversed, found, get_array, live_pool,
  traverse, calculate_output_live_ex,
}

ok_inj : {a b : ℕ} → ok a ≡ ok b → a ≡ b
ok_inj e = cc

traversed-eq-ok : (r : Option ℕ × Bool) {out : ℕ} → traversed r ≡ ok out → r ≡ (some out, true)
traversed-eq-ok (some a, true) e = cc
traversed-eq-ok (some a, false) e = cc
traversed-eq-ok (none, b) e = cc

-- Of two known slots that of the active array is at most 300 before that of the pool.
abbrev pub IsRecent : ℕ → ℕ → Type 0
IsRecent pool_slot array_slot =
    (pool_slot ≡ 0) ⊎ ((array_slot ≡ 0) ⊎ (pool_slot ≤ array_slot + 300))

as_u64-le : (n : ℕ) → as_u64 n ≤ n
unfolding as_u64
as_u64-le n = omega arith

is_stale-IsRecent :
    (pool_slot array_slot : ℕ)
    → is_stale pool_slot array_slot ≡ false
    → IsRecent pool_slot array_slot
unfolding is_stale
is_stale-IsRecent zero a h = inl refl
is_stale-IsRecent (suc p) zero h = inr (inl refl)
is_stale-IsRecent (suc p) (suc a) h =
    let wrapped : suc p ≤ as_u64 (suc a + 300) = ground arith in
    inr (inr (omega (arith, wrapped, as_u64-le (suc a + 300))))

module _ (pda : Pubkey → ℤ → Pubkey) (parse_key : Address → Option Pubkey)
    (deserialize_pool : Bytes → Option MeteoraDlmmPool)
    (deserialize_array : Bytes → Option BinArray)
    (decoded_fits : (bytes : Bytes) (array : BinArray)
      → from_account_bytes deserialize_array bytes ≡ some array
      → ArrayFits array)
    (provider : AccountDataProvider) where
  -- The array decodes from an account that the provider holds, at the address of some index.
  pub record IsLive (pool_key : Pubkey) (array : BinArray) : Type 0 where
    pub idx : ℤ
    pub bytes : Bytes
    pub stored : provider.pool_account_data (pda pool_key idx) ≡ some bytes
    pub decoded : from_account_bytes deserialize_array bytes ≡ some array

  found-eq-some :
      (b : Bool) (o : Option BinArray) {array : BinArray}
      → (found pda parse_key deserialize_pool deserialize_array provider b o).0 ≡ some array
      → o ≡ some array
  found-eq-some b none e = e
  found-eq-some b (some a) e = e

  get_array-IsLive :
      (pool_key : Pubkey) (idx : ℤ) (b : Bool) (array : BinArray)
      → (get_array pda parse_key deserialize_pool deserialize_array provider pool_key idx b).0
        ≡ some array
      → IsLive pool_key array
  unfolding get_array
  get_array-IsLive pool_key idx b array e =
      let (bytes, stored, decoded) =
        >>=-eq-some (provider.pool_account_data (pda pool_key idx))
          (from_account_bytes deserialize_array) (found-eq-some b _ e) in
      record { idx = idx; bytes = bytes; stored = stored; decoded = decoded }

  traverse-Trades :
      (pool : MeteoraDlmmPool) (pool_key : Pubkey) (amount : ℕ) (swap_for_y : Bool) {out : ℕ}
      → amount < 2 ^ 64
      → traverse pda parse_key deserialize_pool deserialize_array provider pool pool_key amount
          swap_for_y
        ≡ ok out
      → IsRecent (slot_of (provider.account_data_with_slot pool_key)) (
          slot_of (
            provider.account_data_with_slot
              (pda pool_key (bin_id_to_bin_array_index pool.active_id))))
        × ((left : ℕ) × Trades pool swap_for_y (IsLive pool_key) amount left out)
  unfolding traverse
  traverse-Trades pool pool_key amount swap_for_y {out} small e =
      elim (Bool-cases (is_stale pool_slot array_slot)) [
        | inl stale ↦ cc (rw stale at e)
        | inr recent ↦
            let quoted = traversed-eq-ok _ (rw recent at e) in
            (
              is_stale-IsRecent pool_slot array_slot recent,
              quote_exact_in-Trades
                  (get_array pda parse_key deserialize_pool deserialize_array provider pool_key)
                  pool swap_for_y (IsLive pool_key) (get_array-IsLive pool_key)
                  (λ array l. decoded_fits l.bytes array l.decoded) amount small false
                  (ap (λ r. r.0) quoted),
            )
      ]
    where
      pool_slot : ℕ
      pool_slot = slot_of (provider.account_data_with_slot pool_key)

      array_slot : ℕ
      array_slot = slot_of (
          provider.account_data_with_slot (pda pool_key (bin_id_to_bin_array_index pool.active_id)))

  -- Where the pool's address parses and the decoder of bin arrays gives machine words: a live quote
  -- for a u64 input is given only if the active array's account is not known to be more than 300
  -- slots older than the pool's, and it is the output of a sequence of trades at bins of arrays that
  -- decode from accounts of the provider, on the pool state of the live data if these decode.
  pub calculate_output_live_ex-Trades :
      (div_price mul_price : ℤ → ℕ → ℕ → ℕ) (market : MeteoraDlmmMarket) (amount : ℕ)
      (direction : SwapDirection) (pool_data : Option Bytes) (quote_balance base_balance : ℕ)
      {pool_key : Pubkey} {out : ℕ}
      → parse_key market.pool_address ≡ some pool_key
      → amount < 2 ^ 64
      → calculate_output_live_ex pda parse_key deserialize_pool deserialize_array provider div_price
          mul_price market amount direction pool_data quote_balance base_balance
        ≡ ok out
      → let pool =
          live_pool pda parse_key deserialize_pool deserialize_array provider market pool_data in
        IsRecent (slot_of (provider.account_data_with_slot pool_key)) (
          slot_of (
            provider.account_data_with_slot
              (pda pool_key (bin_id_to_bin_array_index pool.active_id))))
        × ((left : ℕ) × Trades pool
              (swaps_for_y market.flipped direction)
              (IsLive pool_key)
              amount
              left
              out)
  unfolding calculate_output_live_ex
  calculate_output_live_ex-Trades div_price mul_price market amount direction pool_data qb bb
        {pool_key} parsed small e =
      traverse-Trades
        (live_pool pda parse_key deserialize_pool deserialize_array provider market pool_data)
        pool_key amount (swaps_for_y market.flipped direction) small (rw parsed at e)
