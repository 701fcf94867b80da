-- ===== src/Clmm/Step/Budget.antt =====
-- A step of crates/raydium-clmm/src/quote.rs keeps within its input and its target.

use solana_dex_aggregator.Prelude.{
  ℕ, ◌+◌, ◌-◌, ◌*◌, ◌/◌, ◌^◌, ◌≤◌, ◌<◌, ◌≡◌, ◌≢◌, ap, sym, subst, ◌∙◌, ◌⊎◌, inl, inr, Bool-cases,
  Bool, true, false, none, some, arith, leb, ◌==◌, ◌||◌, ==_iff, if◌then◌else◌, fits, fits_small,
  fits-eq-some, checked_sub-eq-some, u64_mod, u128_mod, Option-cases, leb→le,
}
use solana_dex_aggregator.Prelude.Ceil.{added_fee, over_whole}
use solana_dex_aggregator.Prelude.Results.{>>=-eq-some, some_inj}
use solana_dex_aggregator.Clmm.Step.{
  StepResult, fee_rate_denominator, kept_rate, input_between, output_between, amount_for_price,
  price_after, next_sqrt_price_from_input, fee_for, input_of, compute_swap_step,
}
use solana_dex_aggregator.Clmm.Step.Towards.{
  cost, moved, IsAhead, input_between_lem, next_sqrt_price_lem, moved-short,
}

kept_rate_lem :
    (rate : ℕ) → rate < 1_000_000 → (rate + kept_rate rate ≡ 1_000_000) × (0 < kept_rate rate)
kept_rate_lem rate h = (omega arith, omega arith)

-- What is left for the price after the fee.
available-le :
    (remaining rate : ℕ) {available : ℕ}
    → amount_for_price remaining rate ≡ some available
    → (available * fee_rate_denominator ≤ remaining * kept_rate rate) × (available < 2 ^ 64)
unfolding amount_for_price
available-le remaining rate e =
    let (product, e_product, e1) = >>=-eq-some (fits u128_mod (remaining * kept_rate rate)) _ e in
    let (same, _) = fits-eq-some u128_mod _ e_product in
    let (quotient, small) = fits-eq-some u64_mod _ e1 in
    (omega (arith, same, quotient), omega (arith, quotient, small))

-- The price reaches the target exactly if its cost is available.
price_after-cases :
    (c available current target liquidity : ℕ) (zero_for_one : Bool) {next : ℕ}
    → available < 2 ^ 64
    → price_after (fits u64_mod c) available current target liquidity zero_for_one ≡ some next
    → ((c ≤ available) × (next ≡ target) × (fits u64_mod c ≡ some c))
      ⊎ ((available < c)
          × (next_sqrt_price_from_input current liquidity available zero_for_one ≡ some next))
unfolding price_after
price_after-cases c available current target liquidity zero_for_one {next} h e =
    elim (Bool-cases (leb c available)) [
      | inl reached ↦
          let whole : c ≤ available = leb→le c available reached in
          let fitted : fits u64_mod c ≡ some c = fits_small u64_mod c (omega (arith, whole, h)) in
          inl (whole, sym (some_inj (rw (fitted, reached) at e)), fitted)
      | inr short ↦ inr (not_le short, beyond short (Option-cases (fits u64_mod c)))
    ]
  where
    not_le : leb c available ≡ false → available < c
    not_le s = ground arith

    beyond :
        leb c available ≡ false
        → (fits u64_mod c ≡ none) ⊎ ((a : ℕ) × (fits u64_mod c ≡ some a))
        → next_sqrt_price_from_input current liquidity available zero_for_one ≡ some next
    beyond s (inl refused) = rw refused at e
    beyond s (inr (a, fitted)) =
        let same : c ≡ a = (fits-eq-some u64_mod c fitted).0 in
        let s' : leb a available ≡ false = subst (λ x. leb x available ≡ false) same s in
        rw (fitted, s') at e

-- What a step keeps to.
pub record IsStep (zero_for_one : Bool) (current target remaining : ℕ) (s : StepResult)
    : Type 0 where
  pub onward : IsAhead zero_for_one current s.sqrt_price_next
  pub not_past : IsAhead zero_for_one s.sqrt_price_next target
  pub affordable : s.amount_in + s.fee_amount ≤ remaining
  pub used_up : s.sqrt_price_next ≢ target → s.amount_in + s.fee_amount ≡ remaining

fee_reached :
    (remaining amount_in rate : ℕ) {fee : ℕ}
    → rate < 1_000_000
    → amount_in * fee_rate_denominator ≤ remaining * kept_rate rate
    → fee_for remaining amount_in rate true ≡ some fee
    → amount_in + fee ≤ remaining
unfolding fee_for
fee_reached remaining amount_in rate {fee} h le e =
    let k = kept_rate_lem rate h in
    let (product, e_product, e1) = >>=-eq-some (fits u128_mod (amount_in * rate)) _ e in
    let (sum, e_sum, e2) = >>=-eq-some (fits u128_mod (product + (kept_rate rate - 1))) _ e1 in
    let same_product = (fits-eq-some u128_mod _ e_product).0 in
    let same_sum = (fits-eq-some u128_mod _ e_sum).0 in
    let same_fee = (fits-eq-some u64_mod _ e2).0 in
    let whole = over_whole 1_000_000 remaining rate (kept_rate rate) k.0 in
    let small : amount_in ≤ remaining = omega (arith, le, whole) in
    let top =
      added_fee 1_000_000 rate (kept_rate rate) remaining amount_in k.0 k.1
        (omega (arith, le, whole)) small in
    let sum_is : sum ≡ amount_in * rate + kept_rate rate - 1 =
      omega (arith, same_product, same_sum, k.1) in
    let fee_is : (amount_in * rate + kept_rate rate - 1) / kept_rate rate ≡ fee =
      ap (λ (t : ℕ). t / kept_rate rate) (sym sum_is) ∙ same_fee in
    omega (arith, top, fee_is, small)

fee_short :
    (remaining amount_in rate : ℕ) {fee : ℕ}
    → fee_for remaining amount_in rate false ≡ some fee
    → amount_in + fee ≡ remaining
unfolding fee_for
fee_short remaining amount_in rate e = (checked_sub-eq-some remaining amount_in e).0

ahead-lt :
    (zero_for_one : Bool) (current target m : ℕ)
    → current < 2 ^ 128
    → target < 2 ^ 128
    → IsAhead zero_for_one current m
    → IsAhead zero_for_one m target
    → m < 2 ^ 128
ahead-lt true current target m h k a b = omega (arith, a.1, h)
ahead-lt false current target m h k a b = omega (arith, b, k)

ahead-refl :
    (zero_for_one : Bool) (current target : ℕ)
    → IsAhead zero_for_one current target
    → IsAhead zero_for_one target target
ahead-refl true current target a = (a.0, omega arith)
ahead-refl false current target a = omega arith

different : (a b : ℕ) → a ≢ b → (a == b) ≡ false
different a b h = elim (Bool-cases (a == b)) [
  | inl same ↦ absurd (h ((==_iff a b).0 same))
  | inr apart ↦ apart
]

-- A price that is moved to is moved to from a positive price within a positive liquidity.
next_sqrt_price-positive :
    (current liquidity amount : ℕ) (zero_for_one : Bool) {next : ℕ}
    → next_sqrt_price_from_input current liquidity amount zero_for_one ≡ some next
    → (0 < current) × (0 < liquidity)
unfolding next_sqrt_price_from_input
next_sqrt_price-positive current liquidity amount zero_for_one e =
    elim (Bool-cases (current == 0 || liquidity == 0)) [
      | inl empty ↦ cc (rw empty at e)
      | inr full ↦ (ground arith, ground arith)
    ]

module _ (current target liquidity remaining rate : ℕ) (zero_for_one : Bool)
    (current_fits : current < 2 ^ 128) (target_fits : target < 2 ^ 128)
    (liquidity_fits : liquidity < 2 ^ 128) (rate_fits : rate < 1_000_000)
    (ahead : IsAhead zero_for_one current target) where
  -- The price after the step: the target at its cost, or short of it.
  next_cases :
      (available : ℕ) {next : ℕ}
      → available < 2 ^ 64
      → price_after
          (input_between zero_for_one current target liquidity)
          available
          current
          target
          liquidity
          zero_for_one
        ≡ some next
      → ((next ≡ target)
          × (cost zero_for_one current target liquidity ≤ available)
          × (input_between zero_for_one current target liquidity
              ≡ some (cost zero_for_one current target liquidity)))
        ⊎ (IsAhead zero_for_one current next × IsAhead zero_for_one next target × (next ≢ target))
  next_cases available {next} h e = by_cost (
      price_after-cases (cost zero_for_one current target liquidity) available current target
        liquidity zero_for_one h (rw fitted at e))
    where
      fitted :
          input_between zero_for_one current target liquidity
          ≡ fits u64_mod (cost zero_for_one current target liquidity)
      fitted =
          input_between_lem zero_for_one current target liquidity current_fits target_fits
            liquidity_fits ahead

      by_cost :
          ((cost zero_for_one current target liquidity ≤ available)
              × (next ≡ target)
              × (fits u64_mod (cost zero_for_one current target liquidity)
                  ≡ some (cost zero_for_one current target liquidity)))
            ⊎ ((available < cost zero_for_one current target liquidity)
                × (next_sqrt_price_from_input current liquidity available zero_for_one ≡ some next))
          → ((next ≡ target)
              × (cost zero_for_one current target liquidity ≤ available)
              × (input_between zero_for_one current target liquidity
                  ≡ some (cost zero_for_one current target liquidity)))
            ⊎ (IsAhead zero_for_one current next
                × IsAhead zero_for_one next target
                × (next ≢ target))
      by_cost (inl (within, same, fit)) = inl (same, within, fitted ∙ fit)
      by_cost (inr (short, n)) =
          let m = moved zero_for_one current liquidity available in
          let (current_positive, some_liquidity) =
            next_sqrt_price-positive current liquidity available zero_for_one n in
          let (onward, not_past, apart) =
            moved-short zero_for_one current target liquidity available ahead some_liquidity
              short in
          let is_next : m ≡ next = some_inj (
            sym (
              next_sqrt_price_lem zero_for_one current liquidity available current_fits
                current_positive liquidity_fits some_liquidity h
                (ahead-lt zero_for_one current target m current_fits target_fits onward not_past))
            ∙ n) in
          inr (
            subst
              (λ x. IsAhead zero_for_one current x × IsAhead zero_for_one x target × (x ≢ target))
              is_next (onward, not_past, apart))

  -- For a fee rate below one, prices and a liquidity that are u128 values, zero liquidity included, and
  -- a target ahead of the current price in the direction of the swap (a positive one, where the price
  -- goes down): a step that returns moves the price towards the target and not past it, and takes at
  -- most the input that remains, fee included; short of the target it uses up all of it.
  pub compute_swap_step-IsStep :
      {s : StepResult}
      → compute_swap_step current target liquidity remaining rate zero_for_one ≡ some s
      → IsStep zero_for_one current target remaining s
  unfolding compute_swap_step
  compute_swap_step-IsStep {s} e =
      let (available, e_available, e1) = >>=-eq-some (amount_for_price remaining rate) _ e in
      let to_target = input_between zero_for_one current target liquidity in
      let (next, e_next, e2) =
        >>=-eq-some (price_after to_target available current target liquidity zero_for_one) _ e1 in
      let (amount_in, e_in, e3) =
        >>=-eq-some
          (if next == target
            then some (input_of to_target)
            else input_between zero_for_one current next liquidity)
          _ e2 in
      let (amount_out, e_out, e4) =
        >>=-eq-some (output_between zero_for_one current next liquidity) _ e3 in
      let (fee, e_fee, e5) = >>=-eq-some (fee_for remaining amount_in rate (next == target)) _ e4 in
      subst (IsStep zero_for_one current target remaining) (some_inj e5) (
        by_case available next amount_in amount_out fee e_available e_in e_fee
          (next_cases available (available-le remaining rate e_available).1 e_next))
    where
      by_case :
          (available next amount_in amount_out fee : ℕ)
          → amount_for_price remaining rate ≡ some available
          → (if next == target
              then some (input_of (input_between zero_for_one current target liquidity))
              else input_between zero_for_one current next liquidity)
            ≡ some amount_in
          → fee_for remaining amount_in rate (next == target) ≡ some fee
          → ((next ≡ target)
              × (cost zero_for_one current target liquidity ≤ available)
              × (input_between zero_for_one current target liquidity
                  ≡ some (cost zero_for_one current target liquidity)))
            ⊎ (IsAhead zero_for_one current next
                × IsAhead zero_for_one next target
                × (next ≢ target))
          → IsStep zero_for_one current target remaining (record {
            sqrt_price_next = next;
            amount_in = amount_in;
            amount_out = amount_out;
            fee_amount = fee;
          })
      by_case available next amount_in amount_out fee e_available e_in e_fee
            (inl (same, within, to_target)) =
          let hit : (next == target) ≡ true = (==_iff next target).1 same in
          let paid : cost zero_for_one current target liquidity ≡ amount_in =
            some_inj (rw (hit, to_target) at e_in) in
          let kept = (available-le remaining rate e_available).0 in
          record {
            onward = subst (IsAhead zero_for_one current) (sym same) ahead;
            not_past =
                subst (λ x. IsAhead zero_for_one x target) (sym same)
                  (ahead-refl zero_for_one current target ahead);
            affordable =
                fee_reached remaining amount_in rate rate_fits (omega (arith, kept, paid, within))
                  (rw hit at e_fee);
            used_up = λ apart. absurd (apart same);
          }
      by_case available next amount_in amount_out fee e_available e_in e_fee
            (inr (onward, not_past, apart)) =
          let miss : (next == target) ≡ false = different next target apart in
          let all = fee_short remaining amount_in rate (rw miss at e_fee) in
          record {
            onward = onward;
            not_past = not_past;
            affordable = omega (arith, all);
            used_up = λ a. all;
          }
