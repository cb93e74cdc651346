-- ===== src/Common/Lists.antt =====
-- Lists measured by native numbers, and Boolean quantifiers over lists.
use Prim.Native.Nat.{ℕ, zero, suc, ◌+◌, ◌≤◌, ◌<◌}
use mathlib.Core.Path.{◌≡◌, refl}
use mathlib.Core.Logic.{◌⊎◌, inl, inr}
use mathlib.Core.Bool.{Bool, true, false, ◌&&◌, ◌||◌}
use mathlib.Core.List.{List, [], ◌∷◌}
use mathlib.Core.Option.{Option, none, some, some-injective}
use native.Mathlib.Omega.{arith}
use kahuna_k8s_operator.Common.Tests.{if◌then◌else◌, Bool-cases}

module _ {ℓ} {A : Type ℓ} where
  abbrev pub length : List A → ℕ
  length [] = 0
  length (x ∷ xs) = suc (length xs)

  abbrev pub all : (A → Bool) → List A → Bool
  all p [] = true
  all p (x ∷ xs) = p x && all p xs

  abbrev pub any : (A → Bool) → List A → Bool
  any p [] = false
  any p (x ∷ xs) = p x || any p xs

  -- The entries that pass a test.
  abbrev pub keep : (A → Bool) → List A → List A
  keep p [] = []
  keep p (x ∷ xs) = let rest = keep p xs in if p x then x ∷ rest else rest

  abbrev pub count_if : (A → Bool) → List A → ℕ
  count_if p [] = 0
  count_if p (x ∷ xs) = let rest = count_if p xs in if p x then suc rest else rest

  -- The entry at the head of the list of those that pass a test: a loop with `break`.
  abbrev pub find : (A → Bool) → List A → Option A
  find p [] = none
  find p (x ∷ xs) = if p x then some x else find p xs

  count_if-le-length : (p : A → Bool) (xs : List A) → count_if p xs ≤ length xs
  count_if-le-length p [] = omega arith
  count_if-le-length p (x ∷ xs) = ground (arith, count_if-le-length p xs)

  pub all-keep : (p : A → Bool) (xs : List A) → all p (keep p xs) ≡ true
  all-keep p [] = refl
  all-keep p (x ∷ xs) = ground (arith, all-keep p xs)

  -- A member, with its place.
  pub data In (a : A) : List A → Type ℓ where
    here : {xs : List A} → In a (a ∷ xs)
    there : {x : A} {xs : List A} → In a xs → In a (x ∷ xs)

  pub In-cons : {a x : A} {xs : List A} → In a (x ∷ xs) → (a ≡ x) ⊎ In a xs
  In-cons here = inl refl
  In-cons (there m) = inr m

  pub find-In : (p : A → Bool) (xs : List A) (x : A) → find p xs ≡ some x → In x xs × (p x ≡ true)
  find-In p [] x e = cc
  find-In p (y ∷ ys) x e = elim (Bool-cases (p y)) [
    | inl taken ↦
        let same : y ≡ x = some-injective y x (rw taken at e) in
        (rw (← same) here, rw (← same) taken)
    | inr other ↦ let (m, h) = find-In p ys x (rw other at e) in (there m, h)
  ]

  pub find-none : (p : A → Bool) (xs : List A) (x : A) → find p xs ≡ none → In x xs → p x ≡ false
  find-none p [] x e m = elim m [ ]
  find-none p (y ∷ ys) x e m = elim (Bool-cases (p y)) [
    | inl taken ↦ cc (rw taken at e)
    | inr other ↦ elim (In-cons m) [
      | inl same ↦ rw same other
      | inr m ↦ find-none p ys x (rw other at e) m
    ]
  ]

  pub In-keep : {a : A} (p : A → Bool) (xs : List A) → In a (keep p xs) → In a xs
  In-keep p [] m = elim m [ ]
  In-keep p (x ∷ xs) m = elim (Bool-cases (p x)) [
    | inl taken ↦ elim (In-cons (rw taken at m)) [
      | inl e ↦ rw e here
      | inr k ↦ there (In-keep p xs k)
    ]
    | inr left ↦ there (In-keep p xs (rw left at m))
  ]

  all-In : (p : A → Bool) {a : A} {xs : List A} → In a xs → all p xs ≡ true → p a ≡ true
  all-In p (here {xs = xs}) h = ground arith
  all-In p (there m) h = all-In p m (ground arith)

-- `for i := range n` as a list: 0, 1, …, n - 1.
abbrev pub range_from : ℕ → ℕ → List ℕ
range_from i zero = []
range_from i (suc n) = i ∷ range_from (suc i) n

abbrev pub range : ℕ → List ℕ
range n = range_from 0 n

module _ (p : ℕ → Bool) where
  all-range_from : (i n k : ℕ) → all p (range_from i n) ≡ true → i ≤ k → k < i + n → p k ≡ true
  all-range_from i zero k h lo hi = absurd (omega arith)
  all-range_from i (suc n) k h lo hi = grind (arith, all-range_from (suc i) n k)

  pub all-range : (n k : ℕ) → all p (range n) ≡ true → k < n → p k ≡ true
  all-range n k h lt = all-range_from 0 n k h (omega arith) (omega arith)
