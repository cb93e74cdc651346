-- ===== src/Common/Dict.antt =====
-- A `map[string]string` (and a map of any keys with decidable equality) as an association list.
use mathlib.Core.Logic.{ite, ◌≢◌}
use mathlib.Core.Path.{◌≡◌, refl, ◌∙◌}
use Prim.Native.Nat.{ℕ, zero, suc, ◌+◌, ◌≤◌, ◌<◌}
use native.Mathlib.Decide.{ℕ_discrete}
use mathlib.Core.Option.{Option, none, some}
use mathlib.Core.List.{List, [], ◌∷◌}
use native.Mathlib.Omega.{arith}

abbrev pub Dict {ℓ} : Type ℓ → Type ℓ → Type ℓ
Dict K V = List (K × V)

module _ {ℓ} {K V : Type ℓ} (dec : Discrete K) where
  unfoldable pub lookup : K → Dict K V → Option V
  lookup k [] = none
  lookup k ((j, v) ∷ m) = ite (dec j k) (some v) (lookup k m)

  -- `m[k] = v`
  unfoldable pub insert : K → V → Dict K V → Dict K V
  insert k v [] = (k, v) ∷ []
  insert k v ((j, w) ∷ m) = ite (dec j k) ((k, v) ∷ m) ((j, w) ∷ insert k v m)

  -- `delete(m, k)`
  unfoldable pub erase : K → Dict K V → Dict K V
  erase k [] = []
  erase k ((j, w) ∷ m) = let rest = erase k m in ite (dec j k) rest ((j, w) ∷ rest)

  -- `maps.Copy(dst, src)`: every entry of the second is written into the first, in order.
  unfoldable pub copy : Dict K V → Dict K V → Dict K V
  unfolding insert
  copy dst [] = dst
  copy dst ((k, v) ∷ src) = copy (insert k v dst) src

  pub lookup-insert :
      (j k : K) (v : V) (m : Dict K V)
      → lookup j (insert k v m) ≡ ite (dec k j) (some v) (lookup j m)
  unfolding lookup insert
  lookup-insert j k v [] = refl
  lookup-insert j k v ((i, w) ∷ m) = ground (arith, lookup-insert j k v m)

  pub lookup-insert_same : (k : K) (v : V) (m : Dict K V) → lookup k (insert k v m) ≡ some v
  lookup-insert_same k v m = ground (arith, lookup-insert k k v m)

  pub lookup-insert_other :
      (j k : K) (v : V) (m : Dict K V) → k ≢ j → lookup j (insert k v m) ≡ lookup j m
  lookup-insert_other j k v m differ = ground (arith, lookup-insert j k v m)

  pub lookup-erase :
      (j k : K) (m : Dict K V) → lookup j (erase k m) ≡ ite (dec k j) none (lookup j m)
  unfolding lookup erase
  lookup-erase j k [] = ground arith
  lookup-erase j k ((i, w) ∷ m) = ground (arith, lookup-erase j k m)

  -- A key that the source does not hold keeps its value.
  lookup-copy_of_absent :
      (j : K) (dst src : Dict K V) → lookup j src ≡ none → lookup j (copy dst src) ≡ lookup j dst
  unfolding copy lookup
  lookup-copy_of_absent j dst [] h = refl
  lookup-copy_of_absent j dst ((k, v) ∷ src) h =
      ground (arith, lookup-copy_of_absent j (insert k v dst) src, lookup-insert j k v dst)

-- A map filled by a loop over ordinals, with a key and a value for each.
module _ {V : Type 0} {K : Type 0} (dec : Discrete K) (key : ℕ → K) (value : ℕ → V) where
  abbrev pub entries : ℕ → ℕ → Dict K V
  entries i zero = []
  entries i (suc n) = (key i, value i) ∷ entries (suc i) n

  module _ (key_inj : (i j : ℕ) → key i ≡ key j → i ≡ j) where
    lookup-entries_below : (k i n : ℕ) → k < i → lookup dec (key k) (entries i n) ≡ none
    unfolding lookup
    lookup-entries_below k i zero h = refl
    lookup-entries_below k i (suc n) h =
        ground (arith, key_inj i k, lookup-entries_below k (suc i) n)

    -- Each ordinal of the loop finds its own value.
    pub lookup-copy-entries :
        (dst : Dict K V) (k i n : ℕ)
        → i ≤ k
        → k < i + n
        → lookup dec (key k) (copy dec dst (entries i n)) ≡ some (value k)
    unfolding copy
    lookup-copy-entries dst k i zero lo hi = absurd (omega arith)
    lookup-copy-entries dst k i (suc n) lo hi = elim (ℕ_discrete i k) [
      | yes same ↦ rw (← same) (
          lookup-copy_of_absent dec (key i) (insert dec (key i) (value i) dst) (entries (suc i) n)
            (lookup-entries_below i (suc i) n (omega arith))
          ∙ ground (arith, lookup-insert dec (key i) (key i) (value i) dst))
      | no differ ↦
          lookup-copy-entries (insert dec (key i) (value i) dst) k (suc i) n (omega arith)
            (omega arith)
    ]
