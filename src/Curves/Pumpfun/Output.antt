-- ===== src/Curves/Pumpfun/Output.antt =====
-- The quotes on the curve in crates/pumpfun-amm/src/lib.rs: they cannot drain it, and a trade never
-- lowers the product of the virtual reserves.
use native.Mathlib.Nat.{le_trans, mul-le-mul, mul-le-mul_left}
use solana_dex_aggregator.Prelude.{
  ℕ, ◌+◌, ◌-◌, ◌*◌, ◌/◌, ◌^◌, ◌≤◌, ◌<◌, ◌≡◌, false, ◌||◌, min, arith, ◌==◌, as_u128_small,
}
use solana_dex_aggregator.Core.{Pubkey}
use solana_dex_aggregator.Core.ConstantProduct.{
  swap_floor, swap_floor-lt, swap_floor_mono, swap_floor_product,
}
use solana_dex_aggregator.Core.ConstantProduct.Bounds.{u64_product-lt}
use solana_dex_aggregator.Curves.Pumpfun.{
  bc_total_fee_bps, bc_compute_fee, bc_buy_tokens_out, bc_sell_sol_out,
}

-- The input of a purchase after the fee.
abbrev pub net_input : Pubkey → ℕ → ℕ
net_input creator sol_in = sol_in * 10000 / (bc_total_fee_bps creator + 10000)

net_input-le : (creator : Pubkey) (sol_in : ℕ) → net_input creator sol_in ≤ sol_in
unfolding bc_total_fee_bps
net_input-le creator sol_in = ground arith

net_input_mono : (creator : Pubkey) (a b : ℕ) → a ≤ b → net_input creator a ≤ net_input creator b
unfolding bc_total_fee_bps
net_input_mono creator a b h = ground arith

-- No operation of a purchase wraps.
buy_exact :
    (virtual_token virtual_sol real_token : ℕ) (creator : Pubkey) (sol_in : ℕ)
    → 0 < virtual_token
    → 0 < virtual_sol
    → virtual_token < 2 ^ 64
    → virtual_sol < 2 ^ 64
    → 0 < sol_in
    → sol_in < 2 ^ 64
    → bc_buy_tokens_out virtual_token virtual_sol real_token creator sol_in
      ≡ min (swap_floor virtual_sol virtual_token (net_input creator sol_in)) real_token
unfolding bc_buy_tokens_out swap_floor
buy_exact vt vs rt creator sol_in ht hs bt bs hi bi =
    let n = net_input creator sol_in in
    let le = net_input-le creator sol_in in
    let floor_lt : n * vt / (vs + n) < vt = swap_floor-lt vs vt n hs ht in
    rw
      (
        proper,
        as_u128_small (vs + n) (omega (arith, le)),
        nonzero n,
        as_u128_small (n * vt) (u64_product-lt n vt (omega (arith, le)) bt),
      )
      (omega (arith, floor_lt))
  where
    proper : (sol_in == 0 || vt == 0) ≡ false
    proper = ground arith

    nonzero : (n : ℕ) → (vs + n == 0) ≡ false
    nonzero n = ground arith

-- On a curve with positive u64 reserves and for a positive u64 payment, a purchase pays out at most
-- the real tokens and less than the virtual ones, and the product of the virtual reserves, the
-- whole payment added, is not below the product before.
pub bc_buy_tokens_out_safe :
    (virtual_token virtual_sol real_token : ℕ) (creator : Pubkey) (sol_in : ℕ)
    → 0 < virtual_token
    → 0 < virtual_sol
    → virtual_token < 2 ^ 64
    → virtual_sol < 2 ^ 64
    → 0 < sol_in
    → sol_in < 2 ^ 64
    → let out = bc_buy_tokens_out virtual_token virtual_sol real_token creator sol_in in
      (out ≤ real_token)
      × (out < virtual_token)
      × (virtual_sol * virtual_token ≤ (virtual_sol + sol_in) * (virtual_token - out))
bc_buy_tokens_out_safe vt vs rt creator sol_in ht hs bt bs hi bi =
    let n = net_input creator sol_in in
    let q = swap_floor vs vt n in
    let out = bc_buy_tokens_out vt vs rt creator sol_in in
    let e : out ≡ min q rt = buy_exact vt vs rt creator sol_in ht hs bt bs hi bi in
    let below : q < vt = swap_floor-lt vs vt n hs ht in
    let more : vt - q ≤ vt - out = omega (arith, e) in
    let paid : vs + n ≤ vs + sol_in = omega (arith, net_input-le creator sol_in) in
    (
      omega (arith, e),
      omega (arith, e, below),
      le_trans (swap_floor_product vs vt n hs ht) (mul-le-mul paid more),
    )

-- Under the same conditions a larger payment never buys fewer tokens.
pub bc_buy_tokens_out_mono :
    (virtual_token virtual_sol real_token : ℕ) (creator : Pubkey) (a b : ℕ)
    → 0 < virtual_token
    → 0 < virtual_sol
    → virtual_token < 2 ^ 64
    → virtual_sol < 2 ^ 64
    → 0 < a
    → a ≤ b
    → b < 2 ^ 64
    → bc_buy_tokens_out virtual_token virtual_sol real_token creator a
      ≤ bc_buy_tokens_out virtual_token virtual_sol real_token creator b
bc_buy_tokens_out_mono vt vs rt creator a b ht hs bt bs ha ab bb = omega (
  arith,
  buy_exact vt vs rt creator a ht hs bt bs ha (omega (arith, ab, bb)),
  buy_exact vt vs rt creator b ht hs bt bs (omega (arith, ha, ab)) bb,
  swap_floor_mono vs vt (net_input creator a) (net_input creator b) hs ht
      (net_input_mono creator a b ab),
)

-- What a sale pays before the fee, and no operation of a sale wraps.
sell_exact :
    (virtual_token virtual_sol : ℕ) (creator : Pubkey) (token_in : ℕ)
    → 0 < virtual_token
    → 0 < virtual_sol
    → virtual_token < 2 ^ 64
    → virtual_sol < 2 ^ 64
    → 0 < token_in
    → token_in < 2 ^ 64
    → bc_sell_sol_out virtual_token virtual_sol creator token_in
      ≡ swap_floor virtual_token virtual_sol token_in
        - bc_compute_fee (swap_floor virtual_token virtual_sol token_in) (bc_total_fee_bps creator)
unfolding bc_sell_sol_out swap_floor
sell_exact vt vs creator token_in ht hs bt bs hi bi =
    let floor_lt : token_in * vs / (vt + token_in) < vs = swap_floor-lt vt vs token_in ht hs in
    rw
      (
        proper,
        as_u128_small (token_in * vs) (u64_product-lt token_in vs bi bs),
        as_u128_small (vt + token_in) (omega arith),
      )
      (omega (arith, floor_lt))
  where
    proper : (token_in == 0 || vt == 0) ≡ false
    proper = ground arith

-- Under the same conditions on a sale, it pays out less than the virtual reserve of lamports, and
-- the product of the virtual reserves is not below the product before.
pub bc_sell_sol_out_safe :
    (virtual_token virtual_sol : ℕ) (creator : Pubkey) (token_in : ℕ)
    → 0 < virtual_token
    → 0 < virtual_sol
    → virtual_token < 2 ^ 64
    → virtual_sol < 2 ^ 64
    → 0 < token_in
    → token_in < 2 ^ 64
    → let out = bc_sell_sol_out virtual_token virtual_sol creator token_in in
      (out < virtual_sol)
      × (virtual_sol * virtual_token ≤ (virtual_token + token_in) * (virtual_sol - out))
bc_sell_sol_out_safe vt vs creator token_in ht hs bt bs hi bi =
    let q = swap_floor vt vs token_in in
    let out = bc_sell_sol_out vt vs creator token_in in
    let e = sell_exact vt vs creator token_in ht hs bt bs hi bi in
    let below : q < vs = swap_floor-lt vt vs token_in ht hs in
    let less : out ≤ q = omega (arith, e) in
    let more : vs - q ≤ vs - out = omega (arith, less) in
    (
      omega (arith, less, below),
      le_trans (product_comm vt vs) (
          le_trans (swap_floor_product vt vs token_in ht hs)
            (mul-le-mul_left (vt + token_in) more)),
    )
  where
    product_comm : (a b : ℕ) → b * a ≤ a * b
    product_comm a b = omega arith
