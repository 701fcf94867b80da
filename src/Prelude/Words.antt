-- ===== src/Prelude/Words.antt =====
-- Machine words: u64, u128 and u256 values are natural numbers with the wrap-around, the
-- saturation or the check of the operation written out.
use Prim.Native.Nat.{ℕ, ◌+◌, ◌-◌, ◌*◌, ◌/◌, ◌%◌, ◌^◌, ◌≤◌, ◌<◌, min}
use mathlib.Core.Path.{◌≡◌}
use mathlib.Core.Option.{Option, none, some}
use native.Mathlib.Nat.{mod-eq_of_lt}
use native.Mathlib.Omega.{arith}
use solana_dex_aggregator.Prelude.Tests.{ltb, leb, ◌==◌, if◌then◌else◌}

abbrev pub u64_mod : ℕ
u64_mod = 2 ^ 64

abbrev pub u64_max : ℕ
u64_max = 2 ^ 64 - 1

abbrev pub u128_mod : ℕ
u128_mod = 2 ^ 128

abbrev pub u256_mod : ℕ
u256_mod = 2 ^ 256

-- `a as u64`, and the u64 and u128 operators of a release build, which wrap around.
unfoldable pub as_u64 : ℕ → ℕ
as_u64 a = a % 2 ^ 64

unfoldable pub as_u128 : ℕ → ℕ
as_u128 a = a % 2 ^ 128

-- `u64::wrapping_sub`, which is `-` in a release build.
unfoldable pub sub64 : ℕ → ℕ → ℕ
sub64 a b = (a + 2 ^ 64 - b) % 2 ^ 64

-- `u64::saturating_add` and `u64::saturating_mul`; `saturating_sub` is the `-` of ℕ.
unfoldable pub sat_add64 : ℕ → ℕ → ℕ
sat_add64 a b = min (a + b) (2 ^ 64 - 1)

unfoldable pub sat_mul64 : ℕ → ℕ → ℕ
sat_mul64 a b = min (a * b) (2 ^ 64 - 1)

unfoldable pub sat_mul128 : ℕ → ℕ → ℕ
sat_mul128 a b = min (a * b) (2 ^ 128 - 1)

unfoldable pub sat_add128 : ℕ → ℕ → ℕ
sat_add128 a b = min (a + b) (2 ^ 128 - 1)

-- `checked_add`, `checked_mul` and the conversions that fail, at the width `2 ^ w ≡ modulus`.
unfoldable pub fits : ℕ → ℕ → Option ℕ
fits modulus a = if ltb a modulus then some a else none

-- `checked_sub`.
unfoldable pub checked_sub : ℕ → ℕ → Option ℕ
checked_sub a b = if leb b a then some (a - b) else none

-- `a.div_ceil(b)`.
unfoldable pub div_ceil : ℕ → ℕ → ℕ
div_ceil a b = if a % b == 0 then a / b else a / b + 1

pub as_u64_small : (a : ℕ) → a < 2 ^ 64 → as_u64 a ≡ a
unfolding as_u64
as_u64_small a h = mod-eq_of_lt h

pub as_u128_small : (a : ℕ) → a < 2 ^ 128 → as_u128 a ≡ a
unfolding as_u128
as_u128_small a h = mod-eq_of_lt h

pub as_u64-lt : (a : ℕ) → as_u64 a < 2 ^ 64
unfolding as_u64
as_u64-lt a = omega arith

pub sat_mul64-le : (a b : ℕ) → sat_mul64 a b ≤ a * b
unfolding sat_mul64
sat_mul64-le a b = omega arith

pub fits-eq-some : (m a : ℕ) {b : ℕ} → fits m a ≡ some b → (a ≡ b) × (a < m)
unfolding fits
fits-eq-some m a h = ground arith

pub fits_small : (m a : ℕ) → a < m → fits m a ≡ some a
unfolding fits
fits_small m a h = ground arith

pub checked_sub-eq-some : (a b : ℕ) {c : ℕ} → checked_sub a b ≡ some c → (b + c ≡ a) × (b ≤ a)
unfolding checked_sub
checked_sub-eq-some a b h = ground arith

pub checked_sub_small : (a b : ℕ) → b ≤ a → checked_sub a b ≡ some (a - b)
unfolding checked_sub
checked_sub_small a b h = ground arith
