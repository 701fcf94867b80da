-- ===== src/Router/Hops.antt =====
-- What a simulated hop is: the gates of `simulate_hop` in crates/aggregator/src/router.rs.
use solana_dex_aggregator.Prelude.{
  ℕ, ◌*◌, ◌≤◌, ◌<◌, ◌≡◌, ◌≢◌, refl, ◌⊎◌, Bool, true, false, Option, none, some, List, arith,
  sat_mul64, sat_mul64-le, u64_max, subst, ap, contains, ◌&&◌,
}
use solana_dex_aggregator.Prelude.Results.{>>=-eq-some, some_inj, Result, ok, err, to_option}
use solana_dex_aggregator.Core.{
  Pubkey, Address, SwapDirection, buy, sell, AccountDataProvider, Market, PoolFinancials,
}
use solana_dex_aggregator.Index.{PoolIndex, get_pool}
use solana_dex_aggregator.Index.Entry.{PoolEntry}
use solana_dex_aggregator.Router.Types.{RouteHop}
use solana_dex_aggregator.Router.Simulate.{
  guard, in_swappable, passes_checks, hop_side, quote_hop, is_plausible, simulate_hop, not_dusty,
  output_side, offline_reserve,
}

pub guard-eq-some : (b : Bool) {u : Unit {0}} → guard b ≡ some u → b ≡ true
guard-eq-some true e = refl
guard-eq-some false e = cc

-- The side that the code chooses: the direction and the output mint.
abbrev pub Side : PoolEntry → SwapDirection → Pubkey → Pubkey → Type 0
Side entry buy a b = (a ≡ entry.quote_mint) × (b ≡ entry.base_mint)
Side entry sell a b = (a ≢ entry.quote_mint) × (a ≡ entry.base_mint) × (b ≡ entry.quote_mint)

hop_side-eq-some :
    (entry : PoolEntry) (input : Pubkey) {direction : SwapDirection} {output : Pubkey}
    → hop_side entry input ≡ some (direction, output)
    → Side entry direction input output
hop_side-eq-some entry input {direction = buy} e = ground arith
hop_side-eq-some entry input {direction = sell} e = ground arith

-- The swappable set, where there is one, has the pool.
abbrev pub Allowed : Option (List Address) → Address → Type 0
Allowed none address = Unit
Allowed (some set) address = contains set address ≡ true

-- One of the two balances is at least the least balance of a routable pool, if they are known.
abbrev pub NotDusty : Result PoolFinancials → Type 0
NotDusty (err _) = Unit
NotDusty (ok fin) = (10_000_000 ≤ fin.quote_balance) ⊎ (10_000_000 ≤ fin.base_balance)

-- What is asked of a market where there is no swappable set.
abbrev pub Routable : Option (List Address) → Market → Type 0
Routable none market = (market.is_active ≡ true) × NotDusty market.financials
Routable (some set) market = Unit

-- The market's own quote, on the accounts of the provider where there is one.
abbrev pub Quoted : Option AccountDataProvider → PoolEntry → ℕ → SwapDirection → ℕ → Type 0
Quoted none entry amount direction out = entry.market.calculate_output amount direction ≡ ok out
Quoted (some provider) entry amount direction out =
    entry.market.calculate_output_live_ex amount direction
      (provider.pool_account_data entry.pool_pubkey) (provider.token_balance entry.quote_vault)
      (provider.token_balance entry.base_vault) provider
    ≡ ok out

-- The reserve of the mint that comes out: the base mint's for a purchase, the quote mint's for a sale.
-- The greatest u64 value stands for one that is not known.
abbrev pub OfflineReserve : Result PoolFinancials → SwapDirection → ℕ → Type 0
OfflineReserve (err _) direction reserve = reserve ≡ u64_max
OfflineReserve (ok fin) buy reserve = reserve ≡ fin.base_balance
OfflineReserve (ok fin) sell reserve = reserve ≡ fin.quote_balance

abbrev pub OutputReserve : Option AccountDataProvider → PoolEntry → SwapDirection → ℕ → Type 0
OutputReserve none entry direction reserve =
    OfflineReserve entry.market.financials direction reserve
OutputReserve (some provider) entry buy reserve = reserve ≡ provider.token_balance entry.base_vault
OutputReserve (some provider) entry sell reserve =
    reserve ≡ provider.token_balance entry.quote_vault

-- A hop that passed every gate.
pub record IsHop (index : PoolIndex) (swappable : Option (List Address))
    (live : Option AccountDataProvider) (hop : RouteHop) : Type 0 where
  pub entry : PoolEntry
  pub direction : SwapDirection
  pub reserve : ℕ
  pub found : get_pool index hop.pool_address ≡ some entry
  pub named : hop.dex_name ≡ entry.dex_name
  pub allowed : Allowed swappable hop.pool_address
  pub checked : Routable swappable entry.market
  pub side : Side entry direction hop.input_mint hop.output_mint
  pub quoted : Quoted live entry hop.input_amount direction hop.output_amount
  pub output_reserve : OutputReserve live entry direction reserve
  pub positive : 0 < hop.output_amount
  pub capped : hop.output_amount ≤ hop.input_amount * 1_000_000
  pub shallow : (reserve ≡ 0) ⊎ (reserve ≡ u64_max) ⊎ (hop.output_amount * 4 ≤ reserve)

in_swappable-Allowed :
    (swappable : Option (List Address)) (address : Address)
    → in_swappable swappable address ≡ true
    → Allowed swappable address
in_swappable-Allowed none address e = tt
in_swappable-Allowed (some set) address e = e

not_dusty-NotDusty : (fin : Result PoolFinancials) → not_dusty fin ≡ true → NotDusty fin
not_dusty-NotDusty (err _) e = tt
not_dusty-NotDusty (ok fin) e = ground arith

passes_checks-Routable :
    (swappable : Option (List Address)) (market : Market)
    → passes_checks swappable market ≡ true
    → Routable swappable market
passes_checks-Routable none market e =
    let (active, funded) = both market.is_active (not_dusty market.financials) e in
    (active, not_dusty-NotDusty market.financials funded)
  where
    both : (a b : Bool) → (a && b) ≡ true → (a ≡ true) × (b ≡ true)
    both true true h = (refl, refl)
    both true false h = cc
    both false b h = cc
passes_checks-Routable (some set) market e = tt

to_option-eq-some : (r : Result ℕ) {out : ℕ} → to_option r ≡ some out → r ≡ ok out
to_option-eq-some (ok a) e = ap ok (some_inj e)
to_option-eq-some (err _) e = cc

offline_reserve-OfflineReserve :
    (direction : SwapDirection) (fin : Result PoolFinancials)
    → OfflineReserve fin direction (offline_reserve direction fin)
offline_reserve-OfflineReserve direction (err _) = refl
offline_reserve-OfflineReserve buy (ok fin) = refl
offline_reserve-OfflineReserve sell (ok fin) = refl

-- What a quote says, and the reserve that it is measured against.
quote_hop-eq-some :
    (live : Option AccountDataProvider) (entry : PoolEntry) (amount : ℕ) (direction : SwapDirection)
    {q : ℕ × ℕ}
    → quote_hop live entry amount direction ≡ some q
    → Quoted live entry amount direction q.0 × OutputReserve live entry direction q.1
quote_hop-eq-some none entry amount direction {q} e =
    let (out, quoted, e1) =
      >>=-eq-some (to_option (entry.market.calculate_output amount direction)) _ e in
    subst
      (λ (p : ℕ × ℕ).
        Quoted none entry amount direction p.0 × OutputReserve none entry direction p.1)
      (some_inj e1)
      (to_option-eq-some _ quoted, offline_reserve-OfflineReserve direction entry.market.financials)
quote_hop-eq-some (some provider) entry amount direction {q} e =
    let (out, quoted, e1) = >>=-eq-some (to_option live_quote) _ e in
    subst
      (λ (p : ℕ × ℕ).
        Quoted (some provider) entry amount direction p.0
        × OutputReserve (some provider) entry direction p.1)
      (some_inj e1) (to_option-eq-some live_quote quoted, side direction)
  where
    live_quote : Result ℕ
    live_quote =
        entry.market.calculate_output_live_ex amount direction
          (provider.pool_account_data entry.pool_pubkey) (provider.token_balance entry.quote_vault)
          (provider.token_balance entry.base_vault) provider

    side :
        (d : SwapDirection)
        → OutputReserve (some provider) entry d (
            output_side d
              (provider.token_balance entry.quote_vault)
              (provider.token_balance entry.base_vault))
    side buy = refl
    side sell = refl

plausible-positive : (a o r : ℕ) → is_plausible a o r ≡ true → 0 < o
plausible-positive a o r h = ground arith

plausible-capped : (a o r : ℕ) → is_plausible a o r ≡ true → o ≤ a * 1_000_000
plausible-capped a o r h =
    let below : o ≤ sat_mul64 a 1_000_000 = ground arith in omega (arith, sat_mul64-le a 1_000_000)

plausible-shallow : (a o r : ℕ) → is_plausible a o r ≡ true → (r ≡ 0) ⊎ (r ≡ u64_max) ⊎ (o * 4 ≤ r)
plausible-shallow a o r h = ground arith

module _ (index : PoolIndex) (swappable : Option (List Address)) (live : Option AccountDataProvider)
    (address : Address) (input : Pubkey) (amount : ℕ) where
  -- A simulated hop names the pool, the mint and the amount that it was asked for, and its pool is in
  -- the index and has the hop's name. With a swappable set the pool is in it; without one the market is
  -- active, and one of its balances is at least 10 000 000 if these are known. The input mint is one of
  -- the pool's two mints and the output mint the other. The output is the market's own quote, on the
  -- provider's accounts where there is one; it is positive, at most a million times the input, and at
  -- most a quarter of the reserve of the output mint, which is the vault's balance with a provider and
  -- the market's without, unless this is 0 or the greatest u64 value (not known).
  pub simulate_hop-IsHop :
      {hop : RouteHop}
      → simulate_hop index swappable live address input amount ≡ some hop
      → IsHop index swappable live hop
        × (hop.pool_address ≡ address)
        × (hop.input_mint ≡ input)
        × (hop.input_amount ≡ amount)
  unfolding simulate_hop
  simulate_hop-IsHop {hop} h =
      let (_, allow, h1) = >>=-eq-some (guard (in_swappable swappable address)) _ h in
      let (entry, found, h2) = >>=-eq-some (get_pool index address) _ h1 in
      let (_, check, h3) = >>=-eq-some (guard (passes_checks swappable entry.market)) _ h2 in
      let (side, chosen, h4) = >>=-eq-some (hop_side entry input) _ h3 in
      let (quote, quoted, h5) = >>=-eq-some (quote_hop live entry amount side.0) _ h4 in
      let measured = quote_hop-eq-some live entry amount side.0 quoted in
      let (_, plausible, h6) = >>=-eq-some (guard (is_plausible amount quote.0 quote.1)) _ h5 in
      let ok_plausible : is_plausible amount quote.0 quote.1 ≡ true = guard-eq-some _ plausible in
      subst
        (λ o. elim o [
          | none ↦ Unit {0}
          | some x ↦
              IsHop index swappable live x
              × (x.pool_address ≡ address)
              × (x.input_mint ≡ input)
              × (x.input_amount ≡ amount)
        ])
        h6
        (
          record {
            entry = entry;
            direction = side.0;
            reserve = quote.1;
            found = found;
            named = refl;
            allowed = in_swappable-Allowed swappable address (guard-eq-some _ allow);
            checked = passes_checks-Routable swappable entry.market (guard-eq-some _ check);
            side = hop_side-eq-some entry input chosen;
            quoted = measured.0;
            output_reserve = measured.1;
            positive = plausible-positive amount quote.0 quote.1 ok_plausible;
            capped = plausible-capped amount quote.0 quote.1 ok_plausible;
            shallow = plausible-shallow amount quote.0 quote.1 ok_plausible;
          },
          refl,
          refl,
          refl,
        )
