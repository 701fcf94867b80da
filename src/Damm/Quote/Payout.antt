-- ===== src/Damm/Quote/Payout.antt =====
-- What a quote of crates/meteora-damm/src/quote.rs charges, trades and pays out.
use native.Mathlib.Nat.{mul-le-mul_left}
use solana_dex_aggregator.Prelude.{
  ℕ, ◌+◌, ◌-◌, ◌*◌, ◌≤◌, ◌<◌, ◌≡◌, arith, Bool, true, false, Option, none, some, subst, refl, fits,
  checked_sub, u64_mod, if◌then◌else◌, leb, fits-eq-some, checked_sub-eq-some,
}
use solana_dex_aggregator.Prelude.Results.{>>=-eq-some, some_inj}
use solana_dex_aggregator.Damm.{MeteoraDammPool, constant_product, VaultSide}
use solana_dex_aggregator.Damm.Vaults.{
  get_amount_by_share, get_unmint_amount, calculate_fee, constant_product_swap_exact,
}
use solana_dex_aggregator.Damm.Vaults.Shares.{
  past_guard, guard_false, get_amount_by_share-get_unmint_amount, constant_product_swap_exact_safe,
}
use solana_dex_aggregator.Damm.Quote.{
  reserve, deposited, curve_output, withdrawn, quote_sides, quote_exact_in,
}

-- How a quote comes about. The fee is split in the protocol's part, which does not reach the vault,
-- and the rest, which is not traded; what is paid is at most what the curve gives, and less than what
-- the vault holds.
pub record IsPaid (pool : MeteoraDammPool) (amount : ℕ) (in_is_a : Bool) (in_vault : VaultSide)
    (out_vault : VaultSide) (in_total : ℕ) (out_total : ℕ) (now : ℕ) (out : ℕ) : Type 0 where
  pub protocol_fee : ℕ
  pub trade_fee : ℕ
  pub actual_in : ℕ
  pub destination : ℕ
  pub charged :
      calculate_fee amount pool.fees.trade_fee_numerator pool.fees.trade_fee_denominator
      ≡ some (protocol_fee + trade_fee)
  pub protocol_share :
      calculate_fee
        (protocol_fee + trade_fee)
        pool.fees.protocol_trade_fee_numerator
        pool.fees.protocol_trade_fee_denominator
      ≡ some protocol_fee
  pub affordable : protocol_fee ≤ amount
  pub credited : deposited in_vault in_total (amount - protocol_fee) now ≡ some actual_in
  pub covered : trade_fee ≤ actual_in
  pub traded :
      curve_output pool.curve_type in_is_a (actual_in - trade_fee) in_total out_total
      ≡ some destination
  pub rounded_down : out ≤ destination
  pub liquid : out < out_vault.vault_token_amount

withdrawn-le :
    (side : VaultSide) (destination now : ℕ) {out : ℕ}
    → withdrawn side destination now ≡ some out
    → (out ≤ destination) × (out < side.vault_token_amount)
unfolding withdrawn
withdrawn-le side destination now {out} e =
    let (amount, k, e1) = >>=-eq-some (fits u64_mod destination) _ e in
    let (lp, minted, e2) =
      >>=-eq-some (get_unmint_amount side.vault now amount side.lp_supply) _ e1 in
    let (paid, value, e3) =
      >>=-eq-some (get_amount_by_share side.vault now lp side.lp_supply) _ e2 in
    let liquid : leb side.vault_token_amount paid ≡ false =
      guard_false (leb side.vault_token_amount paid) _ e3 in
    let is_out : paid ≡ out = some_inj (past_guard (leb side.vault_token_amount paid) _ e3) in
    let (same, _) = fits-eq-some u64_mod destination k in
    let no_gain : paid ≤ amount =
      get_amount_by_share-get_unmint_amount side.vault now amount side.lp_supply minted value in
    let below : paid < side.vault_token_amount = ground arith in (omega arith, omega arith)

enabled_of : (b : Bool) (o : Option ℕ) {a : ℕ} → (if b then o else none) ≡ some a → b ≡ true
enabled_of true o e = refl
enabled_of false o e = cc

past_enabled : (b : Bool) (o : Option ℕ) {a : ℕ} → (if b then o else none) ≡ some a → o ≡ some a
past_enabled true o e = e
past_enabled false o e = cc

quote_sides-IsPaid :
    (pool : MeteoraDammPool) (amount : ℕ) (in_is_a : Bool) (in_vault out_vault : VaultSide)
    (in_total out_total now : ℕ) {out : ℕ}
    → quote_sides pool amount in_is_a in_vault out_vault in_total out_total now ≡ some out
    → IsPaid pool amount in_is_a in_vault out_vault in_total out_total now out
unfolding quote_sides
quote_sides-IsPaid pool amount in_is_a in_vault out_vault in_total out_total now {out} e =
    let (gross, charged, e1) =
      >>=-eq-some
        (calculate_fee amount pool.fees.trade_fee_numerator pool.fees.trade_fee_denominator) _ e in
    let (protocol, share, e2) =
      >>=-eq-some
        (calculate_fee gross pool.fees.protocol_trade_fee_numerator
          pool.fees.protocol_trade_fee_denominator)
        _ e1 in
    let (trade, split, e3) = >>=-eq-some (checked_sub gross protocol) _ e2 in
    let (protocol64, k, e4) = >>=-eq-some (fits u64_mod protocol) _ e3 in
    let (net_in, s, e5) = >>=-eq-some (checked_sub amount protocol64) _ e4 in
    let (actual, credited, e6) = >>=-eq-some (deposited in_vault in_total net_in now) _ e5 in
    let (trade64, l, e7) = >>=-eq-some (fits u64_mod trade) _ e6 in
    let (net, t, e8) = >>=-eq-some (checked_sub actual trade64) _ e7 in
    let (destination, traded, e9) =
      >>=-eq-some (curve_output pool.curve_type in_is_a net in_total out_total) _ e8 in
    let (le, liquid) = withdrawn-le out_vault destination now e9 in
    let (sum, _) = checked_sub-eq-some gross protocol split in
    let (same_protocol, _) = fits-eq-some u64_mod protocol k in
    let (same_trade, _) = fits-eq-some u64_mod trade l in
    let (in_split, in_le) = checked_sub-eq-some amount protocol64 s in
    let (net_split, net_le) = checked_sub-eq-some actual trade64 t in
    let is_net_in : net_in ≡ amount - protocol = omega arith in
    let is_net : net ≡ actual - trade = omega arith in
    record {
      protocol_fee = protocol;
      trade_fee = trade;
      actual_in = actual;
      destination = destination;
      charged = rw sum charged;
      protocol_share = rw sum share;
      affordable = omega arith;
      credited = subst (λ n. deposited in_vault in_total n now ≡ some actual) is_net_in credited;
      covered = omega arith;
      traded =
          subst (λ n. curve_output pool.curve_type in_is_a n in_total out_total ≡ some destination)
            is_net traded;
      rounded_down = le;
      liquid = liquid;
    }

-- A quote is only given on a pool that is enabled, from the reserves that are the pool's shares of the
-- two vaults. The fee on the input is split into the protocol's part, which is not deposited, and the
-- rest, which is deposited but not traded; the quote is at most what the curve gives for what is
-- traded, and less than what the vault holds of the output.
pub quote_exact_in-IsPaid :
    (pool : MeteoraDammPool) (amount : ℕ) (in_is_a : Bool) (vault_a vault_b : VaultSide) (now : ℕ)
    {out : ℕ}
    → quote_exact_in pool amount in_is_a vault_a vault_b now ≡ some out
    → (pool.enabled ≡ true)
      × (a : ℕ) × (b : ℕ) × (reserve vault_a now ≡ some a)
      × (reserve vault_b now ≡ some b)
      × IsPaid pool amount in_is_a
          (if in_is_a then vault_a else vault_b)
          (if in_is_a then vault_b else vault_a)
          (if in_is_a then a else b)
          (if in_is_a then b else a)
          now
          out
unfolding quote_exact_in
quote_exact_in-IsPaid pool amount true va vb now e =
    let (a, ra, e1) = >>=-eq-some (reserve va now) _ (past_enabled pool.enabled _ e) in
    let (b, rb, e2) = >>=-eq-some (reserve vb now) _ e1 in
    (
      enabled_of pool.enabled _ e,
      a,
      b,
      ra,
      rb,
      quote_sides-IsPaid pool amount true va vb a b now e2,
    )
quote_exact_in-IsPaid pool amount false va vb now e =
    let (a, ra, e1) = >>=-eq-some (reserve va now) _ (past_enabled pool.enabled _ e) in
    let (b, rb, e2) = >>=-eq-some (reserve vb now) _ e1 in
    (
      enabled_of pool.enabled _ e,
      a,
      b,
      ra,
      rb,
      quote_sides-IsPaid pool amount false vb va b a now e2,
    )

IsPaid-keeps :
    (pool : MeteoraDammPool) (amount : ℕ) (in_is_a : Bool) (in_vault out_vault : VaultSide)
    (x y now : ℕ) {out : ℕ}
    → pool.curve_type ≡ constant_product
    → (paid : IsPaid pool amount in_is_a in_vault out_vault x y now out)
    → (out < y) × (x * y ≤ (x + (paid.actual_in - paid.trade_fee)) * (y - out))
unfolding curve_output
IsPaid-keeps pool amount in_is_a in_vault out_vault x y now {out} curve paid =
    let net = paid.actual_in - paid.trade_fee in
    let swapped : constant_product_swap_exact net x y ≡ some paid.destination =
      subst (λ c. curve_output c in_is_a net x y ≡ some paid.destination) curve paid.traded in
    let (_, below, keeps) = constant_product_swap_exact_safe net x y swapped in
    let more_left : y - paid.destination ≤ y - out = omega (arith, paid.rounded_down) in
    (omega (arith, paid.rounded_down), omega (arith, keeps, mul-le-mul_left (x + net) more_left))

-- On an enabled constant product pool, a quote is less than the whole reserve of the output, and the
-- product of the pool's two reserves, with what is traded added and the quote taken away, is not below
-- the product before it.
pub quote_exact_in-IsInvariant :
    (pool : MeteoraDammPool) (amount : ℕ) (in_is_a : Bool) (vault_a vault_b : VaultSide) (now : ℕ)
    {out : ℕ}
    → pool.curve_type ≡ constant_product
    → quote_exact_in pool amount in_is_a vault_a vault_b now ≡ some out
    → (x : ℕ) × (y : ℕ) × (reserve (if in_is_a then vault_a else vault_b) now ≡ some x)
      × (reserve (if in_is_a then vault_b else vault_a) now ≡ some y)
      × (paid : IsPaid pool amount in_is_a
          (if in_is_a then vault_a else vault_b)
          (if in_is_a then vault_b else vault_a)
          x
          y
          now
          out)
      × (out < y)
      × (x * y ≤ (x + (paid.actual_in - paid.trade_fee)) * (y - out))
quote_exact_in-IsInvariant pool amount true va vb now curve e =
    let (_, a, b, ra, rb, paid) = quote_exact_in-IsPaid pool amount true va vb now e in
    let (below, keeps) = IsPaid-keeps pool amount true va vb a b now curve paid in
    (a, b, ra, rb, paid, below, keeps)
quote_exact_in-IsInvariant pool amount false va vb now curve e =
    let (_, a, b, ra, rb, paid) = quote_exact_in-IsPaid pool amount false va vb now e in
    let (below, keeps) = IsPaid-keeps pool amount false vb va b a now curve paid in
    (b, a, rb, ra, paid, below, keeps)
