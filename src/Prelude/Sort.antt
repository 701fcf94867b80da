-- ===== src/Prelude/Sort.antt =====
-- The standard library's unstable sorts and selection, which fix no order among equal keys: a
-- routine with its documented laws, and insertion sort to show that they can be met.
use solana_dex_aggregator.Prelude.{
  ℕ, suc, ◌≤◌, ◌≡◌, ◌++◌, refl, sym, ap, subst, min, length, All-append, inl, inr, List, [], ◌∷◌,
  Permᴰ, arith, All, All-drop, All-take, ◌⊎◌, zero, take, drop, All-perm,
}
use mathlib.Core.List.Permᴰ
use mathlib.Core.List.{append_assoc}
use native.Mathlib.Decide.{dec_le}
use native.Mathlib.Nat.{le_trans}

-- No element comes after one that it should precede.
abbrev pub Sorted : {A : Type 0} → (A → A → Type 0) → List A → Type 0
Sorted R [] = Unit
Sorted R (x ∷ xs) = All (R x) xs × Sorted R xs

pub Sorted-take :
    {A : Type 0} (R : A → A → Type 0) (n : ℕ) (xs : List A) → Sorted R xs → Sorted R (take n xs)
Sorted-take R zero xs h = tt
Sorted-take R (suc n) [] h = tt
Sorted-take R (suc n) (x ∷ xs) h = (All-take (R x) n xs h.0, Sorted-take R n xs h.1)

-- A cut of a sorted list puts what should come first before the cut.
pub Sorted-splits :
    {A : Type 0} (R : A → A → Type 0) (n : ℕ) (xs : List A)
    → Sorted R xs
    → All (λ x. All (R x) (drop n xs)) (take n xs)
Sorted-splits R zero xs h = tt
Sorted-splits R (suc n) [] h = tt
Sorted-splits R (suc n) (x ∷ xs) h = (All-drop (R x) n xs h.0, Sorted-splits R n xs h.1)

take-drop : {A : Type 0} (n : ℕ) (xs : List A) → xs ≡ take n xs ++ drop n xs
take-drop zero xs = refl
take-drop (suc n) [] = refl
take-drop (suc n) (x ∷ xs) = ap (λ ys. x ∷ ys) (take-drop n xs)

length-take-min : {A : Type 0} (n : ℕ) (xs : List A) → length (take n xs) ≡ min n (length xs)
length-take-min zero xs = omega arith
length-take-min (suc n) [] = omega arith
length-take-min (suc n) (x ∷ xs) = omega (arith, length-take-min n xs)

length-perm : {A : Type 0} {xs ys : List A} → Permᴰ xs ys → length xs ≡ length ys
length-perm Permᴰ.nil = refl
length-perm (Permᴰ.cons e p) = ap suc (length-perm p)
length-perm (Permᴰ.swap e f) = refl
length-perm (Permᴰ.trans p q) = omega (arith, length-perm p, length-perm q)

-- The first `n` of `all` by the order `R`, in order.
pub record IsTop {A : Type 0} (R : A → A → Type 0) (n : ℕ) (all top : List A) : Type 0 where
  pub rest : List A
  pub splits : Permᴰ all (top ++ rest)
  pub sorted : Sorted R top
  pub others : All (λ r. All (R r) rest) top
  pub count : length top ≡ min n (length all)

-- The cut of a sorted copy is the top.
pub cut-IsTop :
    {A : Type 0} (R : A → A → Type 0) (n : ℕ) (all ranked : List A)
    → Permᴰ all ranked
    → Sorted R ranked
    → IsTop R n all (take n ranked)
cut-IsTop R n all ranked perm sorted = record {
  rest = drop n ranked;
  splits = subst (Permᴰ all) (take-drop n ranked) perm;
  sorted = Sorted-take R n ranked sorted;
  others = Sorted-splits R n ranked sorted;
  count = omega (arith, length-take-min n ranked, length-perm perm);
}

perm_prefix :
    {A : Type 0} {xs ys : List A} (zs : List A) → Permᴰ xs ys → Permᴰ (xs ++ zs) (ys ++ zs)
perm_prefix zs Permᴰ.nil = Permᴰ.refl zs
perm_prefix zs (Permᴰ.cons e p) = Permᴰ.cons e (perm_prefix zs p)
perm_prefix zs (Permᴰ.swap e f) = Permᴰ.trans (Permᴰ.swap e f) (Permᴰ.refl _)
perm_prefix zs (Permᴰ.trans p q) = Permᴰ.trans (perm_prefix zs p) (perm_prefix zs q)

All-both :
    {A : Type 0} (R : A → A → Type 0) (xs ys zs : List A)
    → All (λ x. All (R x) ys) xs
    → All (λ x. All (R x) zs) xs
    → All (λ x. All (R x) (ys ++ zs)) xs
All-both R [] ys zs h k = tt
All-both R (x ∷ xs) ys zs h k = (All-append (R x) ys zs h.0 k.0, All-both R xs ys zs h.1 k.1)

-- Select the first `m`, sort only these, and cut at `n`: the top at the lesser of the two.
pub select-IsTop :
    {A : Type 0} (R : A → A → Type 0) (m n : ℕ) (all chosen ranked : List A)
    → Permᴰ all chosen
    → All (λ x. All (R x) (drop m chosen)) (take m chosen)
    → Permᴰ (take m chosen) ranked
    → Sorted R ranked
    → IsTop R (min n m) all (take n ranked)
select-IsTop R m n all chosen ranked selected split perm sorted = record {
  rest = drop n ranked ++ drop m chosen;
  splits = Permᴰ.trans selected (
      subst (λ xs. Permᴰ xs (take n ranked ++ (drop n ranked ++ drop m chosen)))
        (sym (take-drop m chosen))
        (subst (Permᴰ (take m chosen ++ drop m chosen))
          (append_assoc (take n ranked) (drop n ranked) (drop m chosen))
          (perm_prefix (drop m chosen) (subst (Permᴰ (take m chosen)) (take-drop n ranked) perm))));
  sorted = Sorted-take R n ranked sorted;
  others =
      All-both R (take n ranked) (drop n ranked) (drop m chosen) (Sorted-splits R n ranked sorted) (
        All-take (λ x. All (R x) (drop m chosen)) n ranked
          (All-perm (λ x. All (R x) (drop m chosen)) perm split));
  count = omega (
    arith,
    length-take-min n ranked,
    length-perm perm,
    length-take-min m chosen,
    length-perm selected,
  );
}

-- `sort_unstable_by` with the order `R`.
pub record UnstableSort {A : Type 0} (R : A → A → Type 0) : Type 0 where
  pub sort : List A → List A
  pub sort-perm : (xs : List A) → Permᴰ xs (sort xs)
  pub sort-Sorted : (xs : List A) → Sorted R (sort xs)

-- `select_nth_unstable_by(n - 1)` with the order `R`: the first `n` elements precede the others.
pub record SelectNth {A : Type 0} (R : A → A → Type 0) : Type 0 where
  pub select : ℕ → List A → List A
  pub select-perm : (n : ℕ) (xs : List A) → Permᴰ xs (select n xs)
  pub select_splits :
      (n : ℕ) (xs : List A) → All (λ x. All (R x) (drop n (select n xs))) (take n (select n xs))

-- Orders by a numeric key.
abbrev pub Ascending : {A : Type 0} → (A → ℕ) → A → A → Type 0
Ascending key x y = key x ≤ key y

abbrev pub Descending : {A : Type 0} → (A → ℕ) → A → A → Type 0
Descending key x y = key y ≤ key x

le_total : (a b : ℕ) → (a ≤ b) ⊎ (b ≤ a)
unfolding dec_le
le_total a b = elim (dec_le a b) [ yes h ↦ inl h | no h ↦ inr (omega arith) ]

-- Insertion sort by an order that is total and transitive.
module _ {A : Type 0} (R : A → A → Type 0) (total : (x y : A) → R x y ⊎ R y x)
    (trans : (x y z : A) → R x y → R y z → R x z) where
  insert_sorted : A → List A → List A
  insert_sorted a [] = a ∷ []
  insert_sorted a (x ∷ xs) = elim (total a x) [
    | inl _ ↦ a ∷ x ∷ xs
    | inr _ ↦ x ∷ insert_sorted a xs
  ]

  pub insertion_sort : List A → List A
  insertion_sort [] = []
  insertion_sort (x ∷ xs) = insert_sorted x (insertion_sort xs)

  insert_sorted-perm : (a : A) (xs : List A) → Permᴰ (a ∷ xs) (insert_sorted a xs)
  unfolding insert_sorted
  insert_sorted-perm a [] = Permᴰ.refl (a ∷ [])
  insert_sorted-perm a (x ∷ xs) = go (insert_sorted-perm a xs) (total a x)
    where
      go :
          Permᴰ (a ∷ xs) (insert_sorted a xs)
          → (t : R a x ⊎ R x a)
          → Permᴰ (a ∷ x ∷ xs) (elim t [ inl _ ↦ a ∷ x ∷ xs | inr _ ↦ x ∷ insert_sorted a xs ])
      go ih (inl _) = Permᴰ.refl (a ∷ x ∷ xs)
      go ih (inr _) = Permᴰ.trans (Permᴰ.swap refl refl) (Permᴰ.cons refl ih)

  pub insertion_sort-perm : (xs : List A) → Permᴰ xs (insertion_sort xs)
  unfolding insertion_sort
  insertion_sort-perm [] = Permᴰ.nil
  insertion_sort-perm (x ∷ xs) =
      Permᴰ.trans (Permᴰ.cons refl (insertion_sort-perm xs))
        (insert_sorted-perm x (insertion_sort xs))

  All-before : (a x : A) (xs : List A) → R a x → All (R x) xs → All (R a) xs
  All-before a x [] h k = tt
  All-before a x (y ∷ ys) h k = (trans a x y h k.0, All-before a x ys h k.1)

  insert_sorted-Sorted : (a : A) (xs : List A) → Sorted R xs → Sorted R (insert_sorted a xs)
  unfolding insert_sorted
  insert_sorted-Sorted a [] h = (tt, tt)
  insert_sorted-Sorted a (x ∷ xs) h = go (insert_sorted-Sorted a xs h.1) (total a x)
    where
      go :
          Sorted R (insert_sorted a xs)
          → (t : R a x ⊎ R x a)
          → Sorted R (elim t [ inl _ ↦ a ∷ x ∷ xs | inr _ ↦ x ∷ insert_sorted a xs ])
      go ih (inl first) = ((first, All-before a x xs first h.0), h)
      go ih (inr later) = (All-perm (R x) (insert_sorted-perm a xs) (later, h.0), ih)

  pub insertion_sort-Sorted : (xs : List A) → Sorted R (insertion_sort xs)
  unfolding insertion_sort
  insertion_sort-Sorted [] = tt
  insertion_sort-Sorted (x ∷ xs) = insert_sorted-Sorted x _ (insertion_sort-Sorted xs)

  -- A routine that meets the laws.
  by_insertion : UnstableSort R
  unfolding insertion_sort insert_sorted
  by_insertion = record {
    sort = insertion_sort;
    sort-perm = insertion_sort-perm;
    sort-Sorted = insertion_sort-Sorted;
  }

  by_sorting : SelectNth R
  unfolding insertion_sort insert_sorted
  by_sorting = record {
    select = λ n xs. insertion_sort xs;
    select-perm = λ n xs. insertion_sort-perm xs;
    select_splits = λ n xs. Sorted-splits R n (insertion_sort xs) (insertion_sort-Sorted xs);
  }

-- The two orders by a key are total and transitive.
module _ {A : Type 0} (key : A → ℕ) where
  unfoldable pub ascending_sort : UnstableSort (Ascending key)
  unfolding by_insertion le_total
  ascending_sort =
      by_insertion (Ascending key) (λ x y. le_total (key x) (key y)) (λ x y z h k. le_trans h k)

  unfoldable pub descending_sort : UnstableSort (Descending key)
  unfolding by_insertion le_total
  descending_sort =
      by_insertion (Descending key) (λ x y. le_total (key y) (key x)) (λ x y z h k. le_trans k h)

  unfoldable pub descending_select : SelectNth (Descending key)
  unfolding by_sorting le_total
  descending_select =
      by_sorting (Descending key) (λ x y. le_total (key y) (key x)) (λ x y z h k. le_trans k h)
