-- ===== src/Common/Sorting.antt =====
-- `slices.SortStableFunc` as an insertion sort, for a test "comes strictly before".
use Prim.Native.Nat.{suc}
use mathlib.Core.Path.{◌≡◌, refl}
use mathlib.Core.Logic.{◌⊎◌, inl, inr}
use mathlib.Core.Bool.{Bool, ◌&&◌, ◌||◌}
use mathlib.Core.List.{List, [], ◌∷◌}
use native.Mathlib.Omega.{arith}
use kahuna_k8s_operator.Common.Tests.{if◌then◌else◌, Bool-cases}
use kahuna_k8s_operator.Common.Lists.{In, here, there, In-cons, any, all, count_if}

module _ {ℓ} {A : Type ℓ} (less : A → A → Bool) where
  abbrev pub insert_sorted : A → List A → List A
  insert_sorted x [] = x ∷ []
  insert_sorted x (y ∷ ys) =
      let rest = insert_sorted x ys in if less y x then y ∷ rest else x ∷ y ∷ ys

  unfoldable pub sort_stable : List A → List A
  sort_stable [] = []
  sort_stable (x ∷ xs) = insert_sorted x (sort_stable xs)

  any-insert_sorted :
      (q : A → Bool) (x : A) (ys : List A) → any q (insert_sorted x ys) ≡ (q x || any q ys)
  any-insert_sorted q x [] = refl
  any-insert_sorted q x (y ∷ ys) = ground (arith, any-insert_sorted q x ys)

  pub any-sort_stable : (q : A → Bool) (xs : List A) → any q (sort_stable xs) ≡ any q xs
  unfolding sort_stable
  any-sort_stable q [] = refl
  any-sort_stable q (x ∷ xs) =
      ground (arith, any-insert_sorted q x (sort_stable xs), any-sort_stable q xs)

  pub all-insert_sorted :
      (q : A → Bool) (x : A) (ys : List A) → all q (insert_sorted x ys) ≡ (q x && all q ys)
  all-insert_sorted q x [] = refl
  all-insert_sorted q x (y ∷ ys) = ground (arith, all-insert_sorted q x ys)

  count_if-insert_sorted :
      (q : A → Bool) (x : A) (ys : List A)
      → count_if q (insert_sorted x ys) ≡ (if q x then suc (count_if q ys) else count_if q ys)
  count_if-insert_sorted q x [] = refl
  count_if-insert_sorted q x (y ∷ ys) = ground (arith, count_if-insert_sorted q x ys)

  pub count_if-sort_stable :
      (q : A → Bool) (xs : List A) → count_if q (sort_stable xs) ≡ count_if q xs
  unfolding sort_stable
  count_if-sort_stable q [] = refl
  count_if-sort_stable q (x ∷ xs) =
      ground (arith, count_if-insert_sorted q x (sort_stable xs), count_if-sort_stable q xs)

  In-insert_sorted : {a : A} (x : A) (ys : List A) → In a (insert_sorted x ys) → (a ≡ x) ⊎ In a ys
  In-insert_sorted x [] m = In-cons m
  In-insert_sorted x (y ∷ ys) m = elim (Bool-cases (less y x)) [
    | inl before ↦ elim (In-cons (rw before at m)) [
      | inl e ↦ inr (rw e here)
      | inr k ↦ elim (In-insert_sorted x ys k) [ inl e ↦ inl e | inr l ↦ inr (there l) ]
    ]
    | inr after ↦ In-cons (rw after at m)
  ]

  pub In-sort_stable : {a : A} (xs : List A) → In a (sort_stable xs) → In a xs
  unfolding sort_stable
  In-sort_stable [] m = elim m [ ]
  In-sort_stable (x ∷ xs) m = elim (In-insert_sorted x (sort_stable xs) m) [
    | inl e ↦ rw e here
    | inr k ↦ there (In-sort_stable xs k)
  ]
