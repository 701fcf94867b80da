-- ===== src/Engine/Store/Balance.antt =====
-- `read_token_balance` of crates/engine/src/account_store.rs against the layout of a token account:
-- mint (32 bytes), owner (32 bytes), then the amount as eight bytes, the lowest first.
use solana_dex_aggregator.Prelude.{
  ℕ, zero, suc, ◌*◌, ◌/◌, ◌%◌, ◌^◌, ◌≤◌, ◌<◌, ◌≡◌, refl, ap, ◌∙◌, true, some, [], ◌∷◌, ◌++◌, arith,
  leb, length, length-append, take, drop, All,
}
use solana_dex_aggregator.Core.{Pubkey, Bytes}
use solana_dex_aggregator.Engine.Store.{
  AccountData, AccountStore, get, from_le_bytes, read_token_balance,
}

-- How many values `n` bytes have.
abbrev pub span : ℕ → ℕ
span zero = 1
span (suc n) = 256 * span n

abbrev pub to_le_bytes : ℕ → ℕ → Bytes
to_le_bytes zero a = []
to_le_bytes (suc n) a = a % 256 ∷ to_le_bytes n (a / 256)

from_le_bytes-to_le_bytes : (n a : ℕ) → a < span n → from_le_bytes (to_le_bytes n a) ≡ a
from_le_bytes-to_le_bytes zero a h = omega (arith, h)
from_le_bytes-to_le_bytes (suc n) a h =
    omega (arith, h, from_le_bytes-to_le_bytes n (a / 256) (omega (arith, h)))

length-to_le_bytes : (n a : ℕ) → length (to_le_bytes n a) ≡ n
length-to_le_bytes zero a = refl
length-to_le_bytes (suc n) a = ap suc (length-to_le_bytes n (a / 256))

-- A byte is less than 256.
abbrev pub IsBytes : Bytes → Type 0
IsBytes = All (λ b. b < 256)

from_le_bytes-lt : (n : ℕ) (bs : Bytes) → IsBytes bs → from_le_bytes (take n bs) < span n
from_le_bytes-lt zero bs h = omega arith
from_le_bytes-lt (suc n) [] h = omega (arith, from_le_bytes-lt n [] tt)
from_le_bytes-lt (suc n) (b ∷ bs) h = omega (arith, h.0, from_le_bytes-lt n bs h.1)

drop_prefix : (xs ys : Bytes) (n : ℕ) → length xs ≡ n → drop n (xs ++ ys) ≡ ys
drop_prefix [] ys zero h = refl
drop_prefix [] ys (suc n) h = absurd (omega (arith, h))
drop_prefix (x ∷ xs) ys zero h = absurd (omega (arith, h))
drop_prefix (x ∷ xs) ys (suc n) h = drop_prefix xs ys n (omega (arith, h))

take_prefix : (xs ys : Bytes) (n : ℕ) → length xs ≡ n → take n (xs ++ ys) ≡ xs
take_prefix [] ys zero h = refl
take_prefix [] ys (suc n) h = absurd (omega (arith, h))
take_prefix (x ∷ xs) ys zero h = absurd (omega (arith, h))
take_prefix (x ∷ xs) ys (suc n) h = ap (λ zs. x ∷ zs) (take_prefix xs ys n (omega (arith, h)))

long : (n : ℕ) → 72 ≤ n → leb 72 n ≡ true
long n h = ground arith

-- The balance read back from the data of a token account is the amount written at its place, for
-- every amount of 64 bits, whatever stands before and after it.
pub read_token_balance_lem :
    (store : AccountStore) (vault : Pubkey) (account : AccountData) (header rest : Bytes)
    (amount : ℕ)
    → get store vault ≡ some account
    → account.bytes ≡ header ++ (to_le_bytes 8 amount ++ rest)
    → length header ≡ 64
    → amount < 2 ^ 64
    → read_token_balance store vault ≡ amount
unfolding get read_token_balance
read_token_balance_lem store vault account header rest amount found layout size small =
    rw found (rw (long (length account.bytes) enough) value)
  where
    enough : 72 ≤ length account.bytes
    enough = omega (
      arith,
      ap (λ bs. length bs) layout,
      length-append header (to_le_bytes 8 amount ++ rest),
      length-append (to_le_bytes 8 amount) rest,
      length-to_le_bytes 8 amount,
      size,
    )

    value : from_le_bytes (take 8 (drop 64 account.bytes)) ≡ amount
    value =
        ap (λ bs. from_le_bytes (take 8 (drop 64 bs))) layout
        ∙ ap (λ bs. from_le_bytes (take 8 bs))
            (drop_prefix header (to_le_bytes 8 amount ++ rest) 64 size)
        ∙ ap (λ bs. from_le_bytes bs)
            (take_prefix (to_le_bytes 8 amount) rest 8 (length-to_le_bytes 8 amount))
        ∙ from_le_bytes-to_le_bytes 8 amount small
