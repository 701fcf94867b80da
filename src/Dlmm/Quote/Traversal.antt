-- ===== src/Dlmm/Quote/Traversal.antt =====
-- The traversal from array to array in crates/meteora-dlmm/src/quote.rs, as the trades it consists of.
use solana_dex_aggregator.Prelude.{
  ℕ, zero, suc, ◌^◌, ◌<◌, ◌≡◌, refl, inl, inr, Bool-cases, Bool, true, false, Option, none, some,
  ltb, ◌==◌, ◌&&◌,
}
use solana_dex_aggregator.Prelude.Results.{OnSome, OnSome_value}
use solana_dex_aggregator.Prelude.Signed.{ℤ}
use solana_dex_aggregator.Dlmm.{MeteoraDlmmPool, BinArray, bin_id_to_bin_array_index}
use solana_dex_aggregator.Dlmm.Quote.{
  Progress, BinsWalk, failed, returned, walked, out_of_fuel, bins_fuel, max_arrays, in_bitmap,
  snapped, after_bins, in_array, to_array, walk_arrays, quote_exact_in,
}
use solana_dex_aggregator.Dlmm.Quote.Trades.{
  ArrayFits, Trades, start, Traded, Walked, walk_bins-Walked,
}

module _ {S : Type 0} (get_bin_array : ℤ → S → Option BinArray × S) (pool : MeteoraDlmmPool)
    (swap_for_y : Bool) (Supplied : BinArray → Type 0)
    (supplies : (i : ℤ) (s : S) (array : BinArray)
      → (get_bin_array i s).0 ≡ some array
      → Supplied array)
    (supplied_fit : (array : BinArray) → Supplied array → ArrayFits array) (amount : ℕ)
    (amount_fits : amount < 2 ^ 64) where
  abbrev Quoted : Option ℕ × S → Type 0
  Quoted r = OnSome (λ out. (left : ℕ) × Trades pool swap_for_y Supplied amount left out) r.0

  abbrev Done : Progress → Type 0
  Done p = Traded pool swap_for_y Supplied supplied_fit amount amount_fits p

  after_bins-Quoted :
      (rest : ℤ → Progress → S → Option ℕ × S) (w : BinsWalk) (s : S)
      → ((i : ℤ) (p : Progress) (s : S) → Done p → Quoted (rest i p s))
      → Walked pool swap_for_y Supplied supplied_fit amount amount_fits w
      → Quoted (after_bins get_bin_array pool swap_for_y rest w s)
  after_bins-Quoted rest failed s go h = tt
  after_bins-Quoted rest (returned total) s go h = h
  after_bins-Quoted rest (walked id p) s go h = go id p s h
  after_bins-Quoted rest out_of_fuel s go h = tt

  in_array-Quoted :
      (rest : ℤ → Progress → S → Option ℕ × S) (next_idx id : ℤ) (p : Progress)
      (got : Option BinArray × S)
      → ((i : ℤ) (p : Progress) (s : S) → Done p → Quoted (rest i p s))
      → Done p
      → ((array : BinArray) → got.0 ≡ some array → Supplied array)
      → Quoted (in_array get_bin_array pool swap_for_y rest next_idx id p got)
  in_array-Quoted rest next_idx id p (none, s) go t h = (p.0, t)
  in_array-Quoted rest next_idx id p (some array, s) go t h = after_bins-Quoted rest _ s go (
      walk_bins-Walked pool swap_for_y Supplied supplied_fit amount amount_fits bins_fuel array
        (snapped swap_for_y next_idx id) p t (h array refl))

  to_array-Quoted :
      (rest : ℤ → Progress → S → Option ℕ × S) (id : ℤ) (p : Progress) (s : S) (found : ℤ × Bool)
      → ((i : ℤ) (p : Progress) (s : S) → Done p → Quoted (rest i p s))
      → Done p
      → Quoted (to_array get_bin_array pool swap_for_y rest id p s found)
  to_array-Quoted rest id p s (idx, false) go t = (p.0, t)
  to_array-Quoted rest id p s (idx, true) go t =
      in_array-Quoted rest idx id p (get_bin_array idx s) go t (supplies idx s)

  walk_arrays-Quoted :
      (n : ℕ) (id : ℤ) (p : Progress) (s : S)
      → Done p
      → Quoted (walk_arrays get_bin_array pool swap_for_y n id p s)
  unfolding walk_arrays
  walk_arrays-Quoted zero id p s t = (p.0, t)
  walk_arrays-Quoted (suc n) id p s t =
      elim (Bool-cases (ltb 0 p.0 && in_bitmap (bin_id_to_bin_array_index id))) [
        | inr ended ↦ rw ended (p.0, t)
        | inl going ↦ rw going (
            to_array-Quoted (walk_arrays get_bin_array pool swap_for_y n) id p s _
              (walk_arrays-Quoted n) t)
      ]

  -- A quote for a u64 input is the output of a sequence of trades that starts with that input. Each
  -- trade is at a bin of an array that the callback supplied, at the bin's price; it uses up at most
  -- what is left of the input, gives at most what the bin holds, and gives at most what the used input
  -- is worth at that price.
  pub quote_exact_in-Trades :
      (s : S) {out : ℕ}
      → (quote_exact_in get_bin_array pool swap_for_y amount s).0 ≡ some out
      → (left : ℕ) × Trades pool swap_for_y Supplied amount left out
  unfolding quote_exact_in
  quote_exact_in-Trades s {out} e = elim (Bool-cases (pool.status == 0)) [
    | inr disabled ↦ cc (rw disabled at e)
    | inl enabled ↦
        OnSome_value (λ out. (left : ℕ) × Trades pool swap_for_y Supplied amount left out) _
          (walk_arrays-Quoted max_arrays pool.active_id (amount, 0) s (start refl refl))
          (rw enabled at e)
  ]
