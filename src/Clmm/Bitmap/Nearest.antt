-- ===== src/Clmm/Bitmap/Nearest.antt =====
-- The search of the bitmap in crates/raydium-clmm/src/quote.rs finds the nearest array.
use solana_dex_aggregator.Prelude.Signed.{ℤ, pos, ◌+ℤ◌, div_euclid, leb_ℤ, ltb_ℤ}
use native.Mathlib.Decide.{dec_lt}
use solana_dex_aggregator.Prelude.{
  ℕ, zero, suc, ◌+◌, ◌≤◌, ◌<◌, ◌≡◌, refl, inl, inr, Bool-cases, Bool, true, false, Option, none,
  some, List, arith, subst, sym, ◌-◌, ◌&&◌,
}
use solana_dex_aggregator.Clmm.Bitmap.{
  is_set, search_down, search_up, start_of, next_bitmap_array_start,
}

-- What a search between two offsets gives: the bit it finds, with none set before it, or none at all.
abbrev pub NearestBelow : List ℕ → ℕ → Option ℕ → Type 0
NearestBelow bitmap n none = (j : ℕ) → j < n → is_set bitmap j ≡ false
NearestBelow bitmap n (some k) =
    (k < n) × (is_set bitmap k ≡ true) × ((j : ℕ) → k < j → j < n → is_set bitmap j ≡ false)

abbrev pub NearestAbove : List ℕ → ℕ → ℕ → Option ℕ → Type 0
NearestAbove bitmap off end none = (j : ℕ) → off ≤ j → j < end → is_set bitmap j ≡ false
NearestAbove bitmap off end (some k) =
    (off ≤ k)
    × (k < end)
    × (is_set bitmap k ≡ true)
    × ((j : ℕ) → off ≤ j → j < k → is_set bitmap j ≡ false)

clear_at :
    (bitmap : List ℕ) (off j : ℕ) → is_set bitmap off ≡ false → j ≡ off → is_set bitmap j ≡ false
clear_at bitmap off j h e = subst (λ i. is_set bitmap i ≡ false) (sym e) h

extend_below :
    (bitmap : List ℕ) (n : ℕ) (o : Option ℕ)
    → is_set bitmap n ≡ false
    → NearestBelow bitmap n o
    → NearestBelow bitmap (suc n) o
extend_below bitmap n none clear h =
    λ j l. elim (dec_lt j n) [ yes p ↦ h j p | no p ↦ clear_at bitmap n j clear (omega arith) ]
extend_below bitmap n (some k) clear (l, s, c) = (
  omega arith,
  s,
  λ j p q. elim (dec_lt j n) [ yes r ↦ c j p r | no r ↦ clear_at bitmap n j clear (omega arith) ],
)

extend_above :
    (bitmap : List ℕ) (off end : ℕ) (o : Option ℕ)
    → is_set bitmap off ≡ false
    → NearestAbove bitmap (off + 1) end o
    → NearestAbove bitmap off end o
extend_above bitmap off end none clear h = λ j l q. elim (dec_lt off j) [
  | yes p ↦ h j (omega arith) q
  | no p ↦ clear_at bitmap off j clear (omega arith)
]
extend_above bitmap off end (some k) clear (l, q, s, c) = (
  omega arith,
  q,
  s,
  λ j p r. elim (dec_lt off j) [
    | yes t ↦ c j (omega arith) r
    | no t ↦ clear_at bitmap off j clear (omega arith)
  ],
)

-- The loop down finds the highest array with liquidity below the bound.
pub search_down-Nearest : (bitmap : List ℕ) (n : ℕ) → NearestBelow bitmap n (search_down bitmap n)
unfolding search_down
search_down-Nearest bitmap zero = λ j l. absurd (omega arith)
search_down-Nearest bitmap (suc n) = elim (Bool-cases (is_set bitmap n)) [
  | inl found ↦ rw found (omega arith, found, λ j p q. absurd (omega arith))
  | inr clear ↦
      rw clear (extend_below bitmap n (search_down bitmap n) clear (search_down-Nearest bitmap n))
]

pub search_up-Nearest :
    (bitmap : List ℕ) (n off end : ℕ)
    → off + n ≡ end
    → NearestAbove bitmap off end (search_up bitmap n off)
unfolding search_up
search_up-Nearest bitmap zero off end e = λ j l q. absurd (omega arith)
search_up-Nearest bitmap (suc n) off end e = elim (Bool-cases (is_set bitmap off)) [
  | inl found ↦ rw found (omega arith, omega arith, found, λ j p q. absurd (omega arith))
  | inr clear ↦ rw clear (
      extend_above bitmap off end (search_up bitmap n (off + 1)) clear
        (search_up-Nearest bitmap n (off + 1) end (omega arith)))
]

inside : (off : ℕ) → off < 1024 → (leb_ℤ (pos 0) (pos off) && ltb_ℤ (pos off) (pos 1024)) ≡ true
inside off h = ground arith

-- What the search in a direction gives from the offset on, the offset included.
abbrev pub Nearest : Bool → List ℕ → ℕ → Option ℕ → Type 0
Nearest true bitmap off found = NearestBelow bitmap (off + 1) found
Nearest false bitmap off found = NearestAbove bitmap off 1024 found

-- For a start whose array has an offset in the bitmap, the search gives the start of the nearest array
-- with liquidity, at the offset or beyond it in the swap's direction, and nothing if there is none.
pub next_bitmap_array_start-Nearest :
    (bitmap : List ℕ) (start_index : ℤ) (ticks_in_array off : ℕ) (zero_for_one : Bool)
    → div_euclid start_index ticks_in_array +ℤ pos 512 ≡ pos off
    → off < 1024
    → (found : Option ℕ) × Nearest zero_for_one bitmap off found
      × (next_bitmap_array_start bitmap start_index ticks_in_array zero_for_one
          ≡ start_of ticks_in_array found)
unfolding next_bitmap_array_start
next_bitmap_array_start-Nearest bitmap start_index ticks off true e h =
    let one_more : suc off ≡ off + 1 = omega arith in
    let shifted : Nearest true bitmap off (search_down bitmap (off + 1)) =
      subst (λ n. NearestBelow bitmap n (search_down bitmap n)) one_more
        (search_down-Nearest bitmap (suc off)) in
    (search_down bitmap (off + 1), shifted, rw (e, inside off h) refl)
next_bitmap_array_start-Nearest bitmap start_index ticks off false e h = (
  search_up bitmap (1024 - off) off,
  search_up-Nearest bitmap (1024 - off) off 1024 (omega arith),
  rw (e, inside off h) refl,
)
