-- ===== src/Prelude/Maps.antt =====
-- A hash map keyed by numbers, as an association list. The list's order is the map's iteration
-- order, which the program leaves open, so what holds of every list holds of every order.
use Prim.Native.Nat.{ℕ, ◌+◌}
use mathlib.Core.Path.{◌≡◌, refl, subst}
use mathlib.Core.Logic.{inl, inr}
use mathlib.Core.Option.{Option, none, some}
use mathlib.Core.List.{List, [], ◌∷◌}
use mathlib.Core.Bool.{true}
use native.Mathlib.Omega.{arith}
use solana_dex_aggregator.Prelude.Tests.{◌==◌, if◌then◌else◌, Bool-cases}
use solana_dex_aggregator.Prelude.Lists.{length, All}

abbrev pub Dict {ℓ} : Type ℓ → Type ℓ
Dict V = List (ℕ × V)

module _ {ℓ} {V : Type ℓ} where
  -- `get`
  abbrev pub lookup : ℕ → Dict V → Option V
  lookup k [] = none
  lookup k ((j, v) ∷ m) = if k == j then some v else lookup k m

  -- `insert`, which overwrites
  abbrev pub insert : ℕ → V → Dict V → Dict V
  insert k v [] = (k, v) ∷ []
  insert k v ((j, w) ∷ m) = if k == j then (k, v) ∷ m else (j, w) ∷ insert k v m

  -- `*entry(k).or_insert(d) = f(..)`: the entry is created at the default, then updated
  abbrev pub update_or : ℕ → V → (V → V) → Dict V → Dict V
  update_or k d f [] = (k, f d) ∷ []
  update_or k d f ((j, w) ∷ m) = if k == j then (j, f w) ∷ m else (j, w) ∷ update_or k d f m

  abbrev pub or_else : V → Option V → V
  or_else d none = d
  or_else d (some v) = v

  abbrev pub lookup_or : ℕ → V → Dict V → V
  lookup_or k d m = or_else d (lookup k m)

  pub lookup-insert :
      (k j : ℕ) (v : V) (m : Dict V)
      → lookup j (insert k v m) ≡ (if j == k then some v else lookup j m)
  lookup-insert k j v [] = refl
  lookup-insert k j v (e ∷ m) = ground (arith, lookup-insert k j v m)

  pub lookup-update_or :
      (k j : ℕ) (d : V) (f : V → V) (m : Dict V)
      → lookup j (update_or k d f m) ≡ (if j == k then some (f (lookup_or k d m)) else lookup j m)
  lookup-update_or k j d f [] = refl
  lookup-update_or k j d f (e ∷ m) = ground (arith, lookup-update_or k j d f m)

  -- No key is listed twice.
  abbrev pub IsMap : Dict V → Type ℓ
  IsMap [] = Unit
  IsMap ((k, v) ∷ m) = (lookup k m ≡ none) × IsMap m

  pub insert-IsMap : (k : ℕ) (v : V) (m : Dict V) → IsMap m → IsMap (insert k v m)
  insert-IsMap k v [] h = (refl, tt)
  insert-IsMap k v ((j, w) ∷ m) h = ground (arith, insert-IsMap k v m h.1, lookup-insert k j v m)

  pub length-insert_fresh :
      (k : ℕ) (v : V) (m : Dict V) → lookup k m ≡ none → length (insert k v m) ≡ length m + 1
  length-insert_fresh k v [] h = omega arith
  length-insert_fresh k v ((j, w) ∷ m) h = ground (arith, length-insert_fresh k v m)

  pub length-insert_known :
      (k : ℕ) (v : V) {w : V} (m : Dict V) → lookup k m ≡ some w → length (insert k v m) ≡ length m
  length-insert_known k v [] h = cc
  length-insert_known k v {w} ((j, u) ∷ m) h = ground (arith, length-insert_known k v {w = w} m)

module _ {ℓ κ} {V : Type ℓ} (P : ℕ × V → Type κ) where
  -- What holds of every entry holds of an entry that is found.
  pub All-lookup : (k : ℕ) {v : V} (m : Dict V) → All P m → lookup k m ≡ some v → P (k, v)
  All-lookup k [] h e = cc
  All-lookup k {v} ((j, w) ∷ m) h e = elim (Bool-cases (k == j)) [
    | inl same ↦ subst P (λ i. (key same i, value same i)) h.0
    | inr other ↦ All-lookup k m h.1 (rw other at e)
  ]
    where
      key : (k == j) ≡ true → j ≡ k
      key same = ground arith

      value : (k == j) ≡ true → w ≡ v
      value same = ground arith

  -- Overwriting keeps what the new entry satisfies.
  pub All-insert : (k : ℕ) (v : V) (m : Dict V) → All P m → P (k, v) → All P (insert k v m)
  All-insert k v [] h p = (p, tt)
  All-insert k v ((j, w) ∷ m) h p = elim (Bool-cases (k == j)) [
    | inl same ↦ rw same (p, h.1)
    | inr other ↦ rw other (h.0, All-insert k v m h.1 p)
  ]

  -- An entry's update keeps what the old value, or the default, hands over to the new one.
  pub All-update_or :
      (k : ℕ) (d : V) (f : V → V) (m : Dict V)
      → P (k, d)
      → ((v : V) → P (k, v) → P (k, f v))
      → All P m
      → All P (update_or k d f m)
  All-update_or k d f [] hd hf h = (hf d hd, tt)
  All-update_or k d f ((j, w) ∷ m) hd hf h = elim (Bool-cases (k == j)) [
    | inl same ↦ rw same (moved (key same) h.0, h.1)
    | inr other ↦ rw other (h.0, All-update_or k d f m hd hf h.1)
  ]
    where
      key : (k == j) ≡ true → k ≡ j
      key same = ground arith

      moved : k ≡ j → P (j, w) → P (j, f w)
      moved e p = subst (λ i. P (i, w) → P (i, f w)) e (hf w) p
