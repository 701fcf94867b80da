-- ===== src/Dlmm/Fill/Layers.antt =====
-- The layers of a bin in crates/meteora-dlmm/src/quote.rs, one after the other: what each takes and
-- gives, and what they take and give together.
use solana_dex_aggregator.Prelude.{
  ℕ, ◌+◌, ◌^◌, ◌≤◌, ◌<◌, ◌≡◌, refl, subst, inl, inr, Bool-cases, Bool, true, false, some, arith,
  ltb, leb, ◌==◌, if◌then◌else◌, fits, fits-eq-some, checked_sub, checked_sub-eq-some, u64_mod,
}
use solana_dex_aggregator.Prelude.Results.{>>=-eq-some, some_inj}
use solana_dex_aggregator.Dlmm.{Bin}
use solana_dex_aggregator.Dlmm.Math.{up, down, get_amount_in, get_amount_out}
use solana_dex_aggregator.Dlmm.Fill.{
  FillResult, fill_whole, fill_part, fill_at_price, Totals, add_layer, limit_order_amounts,
  limit_order_layers,
}
use solana_dex_aggregator.Dlmm.Fill.Fair.{
  IsFair, IsFair-add, amount_in-IsFair, amount_out-IsFair, part-lt-whole,
}

-- Of the amount a part is taken and the rest is left; at most what is offered is given, and it is
-- worth at most what is taken.
pub record IsFill (bin : Bin) (swap_for_y : Bool) (amount offered : ℕ) (r : FillResult)
    : Type 0 where
  pub split : r.amount_in + r.amount_left ≡ amount
  pub within : r.out_amount ≤ offered
  pub fair : IsFair swap_for_y bin.price r.amount_in r.out_amount

nothing-IsFair : (swap_for_y : Bool) (price : ℕ) → IsFair swap_for_y price 0 0
nothing-IsFair true price = omega arith
nothing-IsFair false price = omega arith

module _ (bin : Bin) (amount offered : ℕ) (swap_for_y : Bool) (price_fits : bin.price < 2 ^ 128)
    (amount_fits : amount < 2 ^ 64) (offered_fits : offered < 2 ^ 64) where
  whole-IsFill :
      (max_in : ℕ) {r : FillResult}
      → get_amount_in offered bin.price swap_for_y up ≡ some max_in
      → fill_whole amount max_in offered ≡ some r
      → IsFill bin swap_for_y amount offered r
  whole-IsFill max_in {r} cost e =
      let (left, taken, e1) = >>=-eq-some (checked_sub amount max_in) _ e in
      let (parts, _) = checked_sub-eq-some amount max_in taken in
      subst (IsFill bin swap_for_y amount offered) (some_inj e1) (record {
        split = parts;
        within = omega arith;
        fair = amount_in-IsFair offered bin.price swap_for_y offered_fits price_fits cost;
      })

  part-IsFill :
      (max_in : ℕ) {r : FillResult}
      → get_amount_in offered bin.price swap_for_y up ≡ some max_in
      → amount < max_in
      → fill_part bin amount swap_for_y ≡ some r
      → IsFill bin swap_for_y amount offered r
  part-IsFill max_in {r} cost less e =
      let (out, bought, e1) = >>=-eq-some (get_amount_out amount bin.price swap_for_y down) _ e in
      let below =
        part-lt-whole amount offered max_in out bin.price swap_for_y amount_fits offered_fits
          price_fits cost bought less in
      subst (IsFill bin swap_for_y amount offered) (some_inj e1) (record {
        split = omega arith;
        within = omega (arith, below);
        fair = amount_out-IsFair amount bin.price swap_for_y amount_fits price_fits bought;
      })

  pub fill_at_price-IsFill :
      {r : FillResult}
      → fill_at_price bin amount offered swap_for_y ≡ some r
      → IsFill bin swap_for_y amount offered r
  unfolding fill_at_price
  fill_at_price-IsFill {r} e = elim (Bool-cases (offered == 0)) [
    | inl empty ↦ subst (IsFill bin swap_for_y amount offered) (some_inj (rw empty at e)) (record {
      split = omega arith;
      within = omega arith;
      fair = nothing-IsFair swap_for_y bin.price;
    })
    | inr some_left ↦
        let (max_in, cost, e1) =
          >>=-eq-some (get_amount_in offered bin.price swap_for_y up) _ (rw some_left at e) in
        by_size max_in cost (leb max_in amount) refl e1
  ]
    where
      by_size :
          (max_in : ℕ)
          → get_amount_in offered bin.price swap_for_y up ≡ some max_in
          → (whole : Bool) → leb max_in amount ≡ whole
          → (if whole then fill_whole amount max_in offered else fill_part bin amount swap_for_y)
            ≡ some r
          → IsFill bin swap_for_y amount offered r
      by_size max_in cost true h e1 = whole-IsFill max_in cost e1
      by_size max_in cost false h e1 = part-IsFill max_in cost (ground arith) e1

-- What the layers so far have taken and given, of an input `net` and for an offer `offered`.
pub record IsLayered (bin : Bin) (swap_for_y : Bool) (net offered : ℕ) (t : Totals) : Type 0 where
  pub split : t.0 + t.2 ≡ net
  pub within : t.1 ≤ offered
  pub word : t.1 < 2 ^ 64
  pub fair : IsFair swap_for_y bin.price t.0 t.1

pub IsFill-IsLayered :
    (bin : Bin) (swap_for_y : Bool) (net offered : ℕ) (r : FillResult)
    → offered < 2 ^ 64
    → IsFill bin swap_for_y net offered r
    → IsLayered bin swap_for_y net offered (r.amount_in, r.out_amount, r.amount_left)
IsFill-IsLayered bin swap_for_y net offered r small f = record {
  split = f.split;
  within = f.within;
  word = omega (arith, f.within);
  fair = f.fair;
}

module _ (bin : Bin) (swap_for_y : Bool) (net : ℕ) (price_fits : bin.price < 2 ^ 128)
    (net_fits : net < 2 ^ 64) where
  pub add_layer-IsLayered :
      (offered more : ℕ) (t : Totals) {t' : Totals}
      → more < 2 ^ 64
      → IsLayered bin swap_for_y net offered t
      → add_layer bin swap_for_y more t ≡ some t'
      → IsLayered bin swap_for_y net (offered + more) t'
  unfolding add_layer
  add_layer-IsLayered offered more (total_in, total_out, left) {t'} small l e =
      elim (Bool-cases (ltb 0 left)) [
        | inr done ↦
            subst (IsLayered bin swap_for_y net (offered + more)) (some_inj (rw done at e))
              (record {
                split = l.split;
                within = omega (arith, l.within);
                word = l.word;
                fair = l.fair;
              })
        | inl going ↦
            let (fill, filled, e1) =
              >>=-eq-some (fill_at_price bin left more swap_for_y) _ (rw going at e) in
            let (in', taken, e2) = >>=-eq-some (fits u64_mod (total_in + fill.amount_in)) _ e1 in
            let (out', given, e3) = >>=-eq-some (fits u64_mod (total_out + fill.out_amount)) _ e2 in
            let f =
              fill_at_price-IsFill bin left more swap_for_y price_fits (omega (arith, l.split))
                small filled in
            let (same_in, _) = fits-eq-some u64_mod _ taken in
            let (same_out, below) = fits-eq-some u64_mod _ given in
            subst (IsLayered bin swap_for_y net (offered + more)) (some_inj e3) (record {
              split = omega (arith, l.split, f.split, same_in);
              within = omega (arith, l.within, f.within, same_out);
              word = omega (arith, same_out, below);
              fair =
                  subst (λ i. IsFair swap_for_y bin.price i out') same_in
                    (subst (λ o. IsFair swap_for_y bin.price (total_in + fill.amount_in) o) same_out
                      (IsFair-add swap_for_y bin.price total_in total_out fill.amount_in
                        fill.out_amount l.fair f.fair));
            })
      ]

  pub limit_order_layers-IsLayered :
      (support_lo : Bool) (offered : ℕ) (t : Totals) {t' : Totals}
      → (limit_order_amounts bin swap_for_y).0 < 2 ^ 64
      → (limit_order_amounts bin swap_for_y).1 < 2 ^ 64
      → IsLayered bin swap_for_y net offered t
      → limit_order_layers bin swap_for_y support_lo t ≡ some t'
      → IsLayered bin swap_for_y net
          (if support_lo
            then offered
              + (limit_order_amounts bin swap_for_y).1
              + (limit_order_amounts bin swap_for_y).0
            else offered)
          t'
  unfolding limit_order_layers
  limit_order_layers-IsLayered false offered t h k l e =
      subst (IsLayered bin swap_for_y net offered) (some_inj e) l
  limit_order_layers-IsLayered true offered t h k l e =
      let (mid, first, second) =
        >>=-eq-some (add_layer bin swap_for_y (limit_order_amounts bin swap_for_y).1 t) _ e in
      add_layer-IsLayered _ _ mid h (add_layer-IsLayered offered _ t k l first) second
