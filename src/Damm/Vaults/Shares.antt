-- ===== src/Damm/Vaults/Shares.antt =====
-- The shares of a vault and the constant product swap of crates/meteora-damm/src/quote.rs.
use native.Mathlib.Nat.{div-mul-le_self, div-add-mod', mod-lt, div-le_of_le-mul}
use solana_dex_aggregator.Prelude.{
  ℕ, ◌+◌, ◌-◌, ◌*◌, ◌/◌, ◌%◌, ◌≤◌, ◌<◌, ◌≡◌, arith, Option, none, some, subst, ap, refl, inl, inr,
  Bool-cases, fits-eq-some, checked_sub-eq-some, fits, checked_sub, ltb, Bool, true, false,
  if◌then◌else◌, ◌==◌, u64_mod, u128_mod,
}
use solana_dex_aggregator.Prelude.Results.{◌>>=◌, >>=-eq-some, some_inj}
use solana_dex_aggregator.Damm.{VaultAuthority}
use solana_dex_aggregator.Damm.Vaults.{
  get_unlocked_amount, get_amount_by_share, get_unmint_amount, checked_div, checked_rem, round_back,
  checked_ceil_div, constant_product_swap_exact,
}

checked_div-eq-some : (a b : ℕ) {q : ℕ} → checked_div a b ≡ some q → (q ≡ a / b) × (0 < b)
unfolding checked_div
checked_div-eq-some a b e = ground arith

checked_rem-eq-some : (a b : ℕ) {r : ℕ} → checked_rem a b ≡ some r → r ≡ a % b
unfolding checked_rem
checked_rem-eq-some a b e = ground arith

quotient_of :
    (m w a b : ℕ) {q : ℕ}
    → (fits m a >>= λ p. checked_div p b >>= λ r. fits w r) ≡ some q
    → (q ≡ a / b) × (0 < b)
unfolding checked_div fits
quotient_of m w a b e = ground arith

pub past_guard :
    {A : Type 0} (b : Bool) (o : Option A) {a : A} → (if b then none else o) ≡ some a → o ≡ some a
past_guard true o e = cc
past_guard false o e = e

share_value :
    (vault : VaultAuthority) (now share supply : ℕ) {out : ℕ}
    → get_amount_by_share vault now share supply ≡ some out
    → (total : ℕ) × (get_unlocked_amount vault now ≡ some total)
      × (out ≡ share * total / supply)
      × (0 < supply)
unfolding get_amount_by_share
share_value vault now share supply e =
    let (total, unlocked, e1) =
      >>=-eq-some (get_unlocked_amount vault now) _ (past_guard (supply == 0) _ e) in
    let (value, positive) = quotient_of u128_mod u64_mod (share * total) supply e1 in
    (total, unlocked, value, positive)

unmint_value :
    (vault : VaultAuthority) (now amount supply : ℕ) {lp : ℕ}
    → get_unmint_amount vault now amount supply ≡ some lp
    → (total : ℕ) × (get_unlocked_amount vault now ≡ some total)
      × (lp ≡ amount * supply / total)
      × (0 < total)
unfolding get_unmint_amount
unmint_value vault now amount supply e =
    let (total, unlocked, e1) = >>=-eq-some (get_unlocked_amount vault now) _ e in
    let (value, positive) =
      quotient_of u128_mod u64_mod (amount * supply) total (past_guard (total == 0) _ e1) in
    (total, unlocked, value, positive)

-- Turning tokens into shares of a vault and these back into tokens never gains tokens.
pub get_amount_by_share-get_unmint_amount :
    (vault : VaultAuthority) (now amount supply : ℕ) {lp out : ℕ}
    → get_unmint_amount vault now amount supply ≡ some lp
    → get_amount_by_share vault now lp supply ≡ some out
    → out ≤ amount
get_amount_by_share-get_unmint_amount vault now amount supply {lp} {out} minted paid =
    let (total, u1, lp_is, _) = unmint_value vault now amount supply minted in
    let (total2, u2, out_is, _) = share_value vault now lp supply paid in
    let same : total ≡ total2 = cc in
    let back : lp * total ≤ amount * supply = rw lp_is (div-mul-le_self (amount * supply) total) in
    let within : lp * total2 ≤ supply * amount =
      subst (λ n. lp * n ≤ supply * amount) same (omega (arith, back)) in
    rw out_is (div-le_of_le-mul supply within)

pub guard_false :
    {A : Type 0} (b : Bool) (o : Option A) {a : A} → (if b then none else o) ≡ some a → b ≡ false
guard_false true o e = cc
guard_false false o e = refl

round_back-up : (n quotient : ℕ) {q : ℕ × ℕ} → round_back n quotient ≡ some q → q.0 ≡ quotient + 1
unfolding round_back
round_back-up n quotient {q} e =
    let (up, k, e1) = >>=-eq-some (fits u128_mod (quotient + 1)) _ e in
    let (lower, _, e2) = >>=-eq-some (checked_div n up) _ e1 in
    let (rest, _, e3) = >>=-eq-some (checked_rem n up) _ e2 in
    let (divisor, _, e4) =
      >>=-eq-some (if ltb 0 rest then fits u128_mod (lower + 1) else some lower) _ e3 in
    let (same, _) = fits-eq-some u128_mod (quotient + 1) k in
    let pair : (up, divisor) ≡ q = some_inj e4 in
    let first : up ≡ q.0 = ap (λ x. x.0) pair in omega arith

rounded-up :
    (n d quotient r : ℕ) {q : ℕ × ℕ}
    → quotient ≡ n / d
    → r ≡ n % d
    → 0 < d
    → (if ltb 0 r then round_back n quotient else some (quotient, d)) ≡ some q
    → (n ≤ q.0 * d) × (quotient ≤ q.0)
rounded-up n d quotient r {q} is_quotient is_rest positive e = elim (Bool-cases (ltb 0 r)) [
  | inl more ↦
      let up : q.0 ≡ quotient + 1 = round_back-up n quotient (rw more at e) in
      let product : q.0 * d ≡ n / d * d + d = rw (up, is_quotient) (grind arith) in
      (omega (arith, product, div-add-mod' n d, mod-lt n positive), omega arith)
  | inr exact ↦
      let pair : (quotient, d) ≡ q = some_inj (rw exact at e) in
      let first : quotient ≡ q.0 = ap (λ x. x.0) pair in
      let none_left : r ≡ 0 = ground arith in
      let product : q.0 * d ≡ n / d * d = ap (λ x. x * d) (cc) in
      (omega (arith, product, div-add-mod' n d), omega arith)
]

ceil_div-covers :
    (dividend divisor : ℕ) {q : ℕ × ℕ}
    → checked_ceil_div dividend divisor ≡ some q
    → (dividend ≤ q.0 * divisor) × (0 < q.0)
unfolding checked_ceil_div
ceil_div-covers n d {q} e =
    let (quotient, divided, e1) = >>=-eq-some (checked_div n d) _ e in
    let (is_quotient, positive) = checked_div-eq-some n d divided in
    let (r, rest, e2) = >>=-eq-some (checked_rem n d) _ (past_guard (quotient == 0) _ e1) in
    let some_quotient : (quotient == 0) ≡ false = guard_false (quotient == 0) _ e1 in
    let (covers, above) =
      rounded-up n d quotient r is_quotient (checked_rem-eq-some n d rest) positive e2 in
    let nonzero : 0 < quotient = ground arith in (covers, omega arith)

-- Where the swap gives an amount, this is positive and less than the whole destination reserve, and the
-- product of the reserves after the trade is not below the product before it.
pub constant_product_swap_exact_safe :
    (source_amount swap_source_amount swap_destination_amount : ℕ) {out : ℕ}
    → constant_product_swap_exact source_amount swap_source_amount swap_destination_amount
      ≡ some out
    → (0 < out)
      × (out < swap_destination_amount)
      × (swap_source_amount * swap_destination_amount
          ≤ (swap_source_amount + source_amount) * (swap_destination_amount - out))
unfolding constant_product_swap_exact
constant_product_swap_exact_safe a x y {out} e =
    let (invariant, k, e1) = >>=-eq-some (fits u128_mod (x * y)) _ e in
    let (new_x, n, e2) = >>=-eq-some (fits u128_mod (x + a)) _ e1 in
    let (q, divided, e3) = >>=-eq-some (checked_ceil_div invariant new_x) _ e2 in
    let (swapped, s, e4) = >>=-eq-some (checked_sub y (q.0)) _ e3 in
    let nonzero : 0 < swapped = ground arith in
    let is_swapped : swapped ≡ out = some_inj (past_guard (swapped == 0) _ e4) in
    let (covers, positive) = ceil_div-covers invariant new_x divided in
    let (is_product, _) = fits-eq-some u128_mod (x * y) k in
    let (is_sum, _) = fits-eq-some u128_mod (x + a) n in
    let (split, _) = checked_sub-eq-some y (q.0) s in
    let kept : y - out ≡ q.0 = omega arith in
    (omega arith, omega arith, rw (is_product, is_sum, kept) (omega (arith, covers)))
