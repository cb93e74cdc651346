-- ===== src/Backup/Modes.antt =====
-- Access modes as sets (internal/controller/backup.go, `sameAccessModes`).
use kahuna_k8s_operator.Common.{
  ◌≡◌, refl, sym, ◌∙◌, ◌↔◌, String, Bool, true, false, List, [], ◌∷◌, all, contains, str_eq,
  str_eq_refl, str_eq→eq, Bool-cases, inl, inr, arith,
}
use kahuna_k8s_operator.Backup.Claims.{same_access_modes}

contains-all :
    (a b : List String) (m : String)
    → all (contains b) a ≡ true
    → contains a m ≡ true
    → contains b m ≡ true
contains-all [] b m h in_a = cc
contains-all (x ∷ a) b m h in_a = elim (Bool-cases (str_eq x m)) [
  | inl same ↦ rw (← str_eq→eq x m same) (ground arith)
  | inr differ ↦ contains-all a b m (ground arith) (ground arith)
]

all-contains :
    (a b : List String)
    → ((m : String) → contains a m ≡ true → contains b m ≡ true)
    → all (contains b) a ≡ true
all-contains [] b h = refl
all-contains (x ∷ a) b h =
    let first = h x (ground (arith, str_eq_refl x)) in
    let rest = all-contains a b (λ m in_a. h m (ground arith)) in ground arith

equal_tests : (p q : Bool) → (p ≡ true → q ≡ true) → (q ≡ true → p ≡ true) → p ≡ q
equal_tests true q there back = sym (there refl)
equal_tests false true there back = back refl
equal_tests false false there back = refl

-- Two lists of access modes count as the same exactly when they hold the same modes, whatever
-- their order and repetitions.
pub same_access_modes_iff :
    (a b : List String)
    → (same_access_modes a b ≡ true) ↔ ((m : String) → contains a m ≡ contains b m)
unfolding same_access_modes
same_access_modes_iff a b = (
  λ same m.
      equal_tests (contains a m) (contains b m) (contains-all a b m (ground arith))
        (contains-all b a m (ground arith)),
  λ h.
      let there = all-contains a b (λ m in_a. sym (h m) ∙ in_a) in
      let back = all-contains b a (λ m in_b. h m ∙ in_b) in ground arith,
)
