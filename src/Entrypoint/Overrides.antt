-- ===== src/Entrypoint/Overrides.antt =====
-- Which generated arguments stay (internal/controller/entrypoint.go, `withoutOverridden`), against
-- a description by options: a flag with the values that follow it.
use kahuna_k8s_operator.Common.{
  String, ◌≡◌, refl, ap, sym, Bool, true, false, not, some, List, [], ◌∷◌, ◌++◌, contains, keep,
  all, In, here, there, Option-cases, inl, inr, if◌then◌else◌, is_some, arith,
}
use kahuna_k8s_operator.Entrypoint.{
  flag_name, overridden, drop_overridden, without_names, without_overridden,
}

pub record Choice : Type 0 where
  pub flag : String
  pub name : String
  pub values : List String

abbrev is_value : String → Bool
is_value token = not (is_some (flag_name token))

abbrev pub IsChoice : Choice → Type 0
IsChoice g = (flag_name g.flag ≡ some g.name) × (all is_value g.values ≡ true)

abbrev pub flatten : List Choice → List String
flatten [] = []
flatten (g ∷ gs) = g.flag ∷ (g.values ++ flatten gs)

abbrev pub stays : List String → Choice → Bool
stays names g = not (contains names g.name)

-- Values go the way of the flag before them.
drop_overridden-values :
    (names : List String) (skipping : Bool) (values rest : List String)
    → all is_value values ≡ true
    → drop_overridden names skipping (values ++ rest) ≡ (
        if skipping
        then drop_overridden names skipping rest
        else values ++ drop_overridden names skipping rest)
unfolding drop_overridden
drop_overridden-values names true [] rest h = refl
drop_overridden-values names false [] rest h = refl
drop_overridden-values names skipping (v ∷ values) rest h = elim (Option-cases (flag_name v)) [
  | inl plain ↦ rw plain (ground (arith, drop_overridden-values names skipping values rest))
  | inr (name, e) ↦ absurd (ground arith)
]

keep-all : (gs : List Choice) → keep (stays []) gs ≡ gs
keep-all [] = refl
keep-all (g ∷ gs) = ap (◌∷◌ g) (keep-all gs)

drop_overridden-flatten :
    (names : List String) (skipping : Bool) (gs : List Choice)
    → ((g : Choice) → In g gs → IsChoice g)
    → drop_overridden names skipping (flatten gs) ≡ flatten (keep (stays names) gs)
unfolding drop_overridden
drop_overridden-flatten names skipping [] h = refl
drop_overridden-flatten names skipping (g ∷ gs) h =
    let (flag, plain) = h g here in
    let rest = drop_overridden-flatten names (contains names g.name) gs (λ k i. h k (there i)) in
    rw
      (flag, drop_overridden-values names (contains names g.name) g.values (flatten gs) plain, rest)
      (ground arith)

-- The generated arguments, of options whose values are no flags, keep exactly the options whose
-- flag the extra arguments do not give, each with its values and in order.
pub without_overridden_lem :
    (extra : List String) (gs : List Choice)
    → ((g : Choice) → In g gs → IsChoice g)
    → without_overridden (flatten gs) extra ≡ flatten (keep (stays (overridden extra)) gs)
unfolding without_overridden
without_overridden_lem extra gs h = by_names (overridden extra)
  where
    by_names :
        (names : List String) → without_names names (flatten gs) ≡ flatten (keep (stays names) gs)
    by_names [] = ap flatten (sym (keep-all gs))
    by_names (name ∷ names) = drop_overridden-flatten (name ∷ names) false gs h
