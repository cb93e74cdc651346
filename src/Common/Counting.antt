-- ===== src/Common/Counting.antt =====
-- The pigeonhole principle: a list of `n` entries that holds an entry for each of `n` indices, with
-- no entry for two of them, holds nothing else.
use kahuna_k8s_operator.Common.Lists.{length, In, here, there, any}
use Prim.Native.Nat.{ℕ, zero, suc, ◌<◌}
use mathlib.Core.Path.{◌≡◌, refl, ap, sym, subst}
use mathlib.Core.Logic.{◌⊎◌, inl, inr}
use mathlib.Core.Bool.{Bool, true}
use mathlib.Core.List.{List, [], ◌∷◌}
use native.Mathlib.Omega.{arith}
use kahuna_k8s_operator.Common.Tests.{Bool-cases}

module _ {ℓ} {A : Type ℓ} where
  -- The list without the entry at a place.
  abbrev remove : {a : A} {xs : List A} → In a xs → List A
  remove (here {xs = xs}) = xs
  remove (there {x = x} m) = x ∷ remove m

  length-remove : {a : A} {xs : List A} (m : In a xs) → suc (length (remove m)) ≡ length xs
  length-remove (here {xs = xs}) = refl
  length-remove (there m) = ap suc (length-remove m)

  -- An entry is the one removed, or is still there.
  In-remove : {a b : A} {xs : List A} (m : In a xs) → In b xs → (b ≡ a) ⊎ In b (remove m)
  In-remove here here = inl refl
  In-remove here (there k) = inr k
  In-remove (there m) here = inr here
  In-remove (there m) (there k) = elim (In-remove m k) [ inl e ↦ inl e | inr r ↦ inr (there r) ]

  -- A list for which `any` holds has an entry that passes the test.
  pub any-In : (p : A → Bool) (xs : List A) → any p xs ≡ true → (a : A) × In a xs × (p a ≡ true)
  any-In p [] h = cc
  any-In p (x ∷ xs) h = elim (Bool-cases (p x)) [
    | inl yes_x ↦ (x, here, yes_x)
    | inr no_x ↦ let r = any-In p xs (ground arith) in (r.0, there r.1, r.2)
  ]

module _ {ℓ κ} {A : Type ℓ} (Good : ℕ → A → Type κ)
    (apart : (i j : ℕ) (a : A) → Good i a → Good j a → i ≡ j) where
  pub pigeonhole :
      (n : ℕ) (xs : List A)
      → length xs ≡ n
      → ((i : ℕ) → i < n → (a : A) × In a xs × Good i a)
      → (b : A) → In b xs
      → (i : ℕ) × (i < n) × Good i b
  pigeonhole zero [] e held b m = elim m [ ]
  pigeonhole zero (x ∷ xs) e held b m = absurd (omega arith)
  pigeonhole (suc n) xs e held b m =
      let top = held n (omega arith) in
      let held' : (i : ℕ) → i < n → (a : A) × In a (remove top.1) × Good i a = λ i lt.
        let entry = held i (omega arith) in
        elim (In-remove top.1 entry.1) [
          | inl same ↦
              absurd (omega (arith, apart i n entry.0 entry.2 (subst (Good n) (sym same) top.2)))
          | inr left ↦ (entry.0, left, entry.2)
        ] in
      elim (In-remove top.1 m) [
        | inl same ↦ (n, omega arith, subst (Good n) (sym same) top.2)
        | inr left ↦
            let r = pigeonhole n (remove top.1) (omega (arith, length-remove top.1)) held' b left in
            (r.0, omega (arith, r.1), r.2)
      ]
