-- ===== src/Dlmm/Math/Words.antt =====
-- The prices of crates/meteora-dlmm/src/quote.rs are u128 values.
use native.Mathlib.Nat.{div-le_self}
use solana_dex_aggregator.Prelude.{
  ℕ, zero, suc, ◌+◌, ◌-◌, ◌*◌, ◌/◌, ◌%◌, ◌^◌, ◌<◌, ◌≡◌, inl, inr, Bool-cases, Bool, true, false,
  none, some, arith, leb, ◌==◌, if◌then◌else◌, fits, fits-eq-some, u128_mod,
}
use solana_dex_aggregator.Prelude.Results.{>>=-eq-some, some_inj}
use solana_dex_aggregator.Prelude.Signed.{ℤ, unsigned_abs}
use solana_dex_aggregator.Dlmm.Math.{
  one, basis_point_max, max_exponential, mul_shr, pow_rounds, invert_q, pow, get_price_from_id,
}

mul_shr-lt : (a b : ℕ) {c : ℕ} → mul_shr a b ≡ some c → c < 2 ^ 128
mul_shr-lt a b e =
    let (product, fitted, e1) = >>=-eq-some (fits u128_mod (a * b)) _ e in
    omega (arith, fits-eq-some u128_mod _ fitted, some_inj e1)

invert_q-lt : (b : ℕ) {c : ℕ} → invert_q b ≡ some c → c < 2 ^ 128
invert_q-lt b {c} e = ground (arith, div-le_self (2 ^ 128 - 1) b)

pow_rounds-lt :
    (n e squared result : ℕ) {c : ℕ}
    → result < 2 ^ 128
    → pow_rounds n e squared result ≡ some c
    → c < 2 ^ 128
pow_rounds-lt zero e squared result h p = omega (arith, some_inj p)
pow_rounds-lt (suc n) e squared result h p =
    let (result', e1, p1) =
      >>=-eq-some (if e % 2 == 1 then mul_shr result squared else some result) _ p in
    let (squared', _, p2) =
      >>=-eq-some (if n == 0 then some squared else mul_shr squared squared) _ p1 in
    pow_rounds-lt n (e / 2) squared' result' (kept (e % 2 == 1) e1) p2
  where
    kept :
        {r : ℕ}
        → (b : Bool) → (if b then mul_shr result squared else some result) ≡ some r
        → r < 2 ^ 128
    kept true q = mul_shr-lt result squared q
    kept false q = omega (arith, some_inj q)

pub pow-lt : (base : ℕ) (exp : ℤ) {price : ℕ} → pow base exp ≡ some price → price < 2 ^ 128
unfolding pow
pow-lt base exp {price} e = elim (Bool-cases (unsigned_abs exp == 0)) [
  | inl none_at_all ↦ omega (arith, some_inj (rw none_at_all at e))
  | inr powered ↦ elim (Bool-cases (leb max_exponential (unsigned_abs exp))) [
    | inl refused ↦ absurd (no_value (rw (powered, refused) at e))
    | inr allowed ↦
        let (squared, _, e1) =
          >>=-eq-some (if leb one base then invert_q base else some base) _
            (rw (powered, allowed) at e) in
        let (result, rounds, e2) =
          >>=-eq-some (pow_rounds 19 (unsigned_abs exp) squared one) _ e1 in
        last result _ _ (pow_rounds-lt 19 (unsigned_abs exp) squared one (omega arith) rounds) e2
  ]
]
  where
    no_value : {n : ℕ} → none ≡ some n → ⊥
    no_value h = cc

    last :
        (result : ℕ) (is_zero invert : Bool)
        → result < 2 ^ 128
        → (if is_zero then none else if invert then invert_q result else some result) ≡ some price
        → price < 2 ^ 128
    last result true invert h q = cc
    last result false true h q = invert_q-lt result q
    last result false false h q = omega (arith, some_inj q)

pub get_price_from_id-lt :
    (active_id : ℤ) (bin_step : ℕ) {price : ℕ}
    → get_price_from_id active_id bin_step ≡ some price
    → price < 2 ^ 128
unfolding get_price_from_id
get_price_from_id-lt active_id bin_step e =
    let (base, _, e1) =
      >>=-eq-some (fits u128_mod (one + bin_step * 2 ^ 64 / basis_point_max)) _ e in
    pow-lt base active_id e1
