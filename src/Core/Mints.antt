-- ===== src/Core/Mints.antt =====
-- crates/core/src/constants.rs: the well-known mints, their rank, and the guess of a mint's
-- decimals. The decoding of a base58 text is a parameter.
use Prim.Native.String.{String}
use solana_dex_aggregator.Prelude.{
  ℕ, suc, Bool, true, false, Option, none, some, List, [], ◌∷◌, ◌==◌, if◌then◌else◌,
}

abbrev pub wsol : String
wsol = "So11111111111111111111111111111111111111112"

abbrev pub usdc : String
usdc = "EPjFWdd5AufqSSqeM2qN1xzybapC8G4wEGGkZwyTDt1v"

abbrev pub usdt : String
usdt = "Es9vMFrzaCERmJfrF4H2FYD4KCoNkY11McCe8BenwNYB"

abbrev pub pyusd : String
pyusd = "2b1kV6DkPAnxd5ixfnxCpjxmKwqjjaYmCZfHsFu24GXo"

abbrev pub jitosol : String
jitosol = "J1toso1uCk3RLmjorhTtrVwY9HJ7X8V9yYac6Y7kGCPn"

abbrev pub msol : String
msol = "mSoLzYCxHdYgdzU16g5QSh3i5K3z3KZK7ytfqcJm7So"

abbrev pub bsol : String
bsol = "bSo13r4TkiE4KumL71LsHTPpL2euBYLFx6h9HP3piy1"

abbrev pub jupsol : String
jupsol = "jupSoLaHXQiZZTSfEWMTRRgpnyFm8f6sZdosWBjx93v"

-- Earlier entries are preferred when both sides qualify.
abbrev pub quote_mints : List String
quote_mints = wsol ∷ usdc ∷ usdt ∷ pyusd ∷ jitosol ∷ msol ∷ bsol ∷ jupsol ∷ []

-- The well-known tokens whose decimals are not 9.
abbrev pub known_mints : List (String × ℕ)
known_mints =
    (usdc, 6)
    ∷ (usdt, 6)
    ∷ (pyusd, 6)
    ∷ ("USD1ttGY1N17NEEHLmELoaybftRBUSErhqYiQzvEmuB", 6)
    ∷ ("7vfCXTUXx5WJV5JADk17DUJ4ksgau7utNKj4b963voxs", 8)
    ∷ ("3NZ9JMVBmGAqocybic2c7LQCJScmgsAZ6vQqTDzcqmJh", 8)
    ∷ ("HzwqbKZw8HxMN6bF2yFZNrht3c2iXXzpKcFu7uBEDKtr", 8)
    ∷ ("EKpQGSJtjMFqKZ9KQanSqYXRcF8fBopzLHYxdM65zcjm", 6)
    ∷ ("DezXAZ8z7PnrnRJjz3wXBoRgixCa6xjnB7YaB1pPB263", 5)
    ∷ []

-- `str::ends_with` on the bytes of a text.
abbrev starts_same : List ℕ → List ℕ → Bool
starts_same [] [] = true
starts_same (c ∷ cs) (d ∷ ds) = if c == d then starts_same cs ds else false
starts_same _ _ = false

abbrev ends_with : List ℕ → List ℕ → Bool
ends_with suffix [] = starts_same suffix []
ends_with suffix (c ∷ cs) = if starts_same suffix (c ∷ cs) then true else ends_with suffix cs

abbrev pump : List ℕ
pump = b'p' ∷ b'u' ∷ b'm' ∷ b'p' ∷ []

module _ (from_str_const : String → ℕ) where
  -- `iter().any` and `iter().position` over the listed texts.
  any_mint : List String → ℕ → Bool
  any_mint [] mint = false
  any_mint (q ∷ qs) mint = if mint == from_str_const q then true else any_mint qs mint

  position : List String → ℕ → Option ℕ
  position [] mint = none
  position (q ∷ qs) mint =
      let later : Option ℕ = elim (position qs mint) [ none ↦ none | some i ↦ some (suc i) ] in
      if mint == from_str_const q then some 0 else later

  unfoldable pub is_quote_mint : ℕ → Bool
  unfolding any_mint
  is_quote_mint = any_mint quote_mints

  unfoldable pub quote_priority : ℕ → Option ℕ
  unfolding position
  quote_priority = position quote_mints

  known_decimals : List (String × ℕ) → ℕ → Option ℕ
  known_decimals [] mint = none
  known_decimals ((addr, dec) ∷ known) mint =
      if mint == from_str_const addr then some dec else known_decimals known mint

  -- `to_string` is the base58 text of a key, as bytes.
  unfoldable pub infer_mint_decimals : (to_string : ℕ → List ℕ) → ℕ → ℕ
  unfolding known_decimals
  infer_mint_decimals to_string mint = elim (known_decimals known_mints mint) [
    | some dec ↦ dec
    | none ↦ if ends_with pump (to_string mint) then 6 else 9
  ]
