-- ===== src/Entrypoint/Once.antt =====
-- How often a flag stands among the arguments that the operator makes
-- (internal/controller/entrypoint.go, `staticArgs`).
use kahuna_k8s_operator.Common.{
  ◌≤◌, ◌<◌, ◌⊎◌, inr, ◌≡◌, refl, String, List, [], ◌∷◌, ◌++◌, false, true, if◌then◌else◌, contains,
  arith,
}
use native.Mathlib.Nat.{le_trans}
use kahuna_k8s_operator.Api.{Cluster}
use kahuna_k8s_operator.Entrypoint.{overridden, without_overridden, without_names}
use kahuna_k8s_operator.Entrypoint.Arguments.{generated_args, static_args}
use kahuna_k8s_operator.Entrypoint.Distinct.{
  overridden-append, HasPlainValues, times, times-distinct, times-append, times-drop_overridden,
}
use kahuna_k8s_operator.Entrypoint.Flags.{
  generated_flags, generated_args-Within, generated_flags-distinct,
}

pub times-without_names :
    (f : String) (names generated : List String)
    → times f (overridden (without_names names generated))
      ≡ (if contains names f then 0 else times f (overridden generated))
times-without_names f [] generated = refl
times-without_names f (name ∷ names) generated =
    times-drop_overridden f (name ∷ names) false generated

times-given :
    (f : String) (names : List String)
    → ((contains names f ≡ true) × (0 < times f names))
      ⊎ ((contains names f ≡ false) × (times f names ≡ 0))
times-given f [] = inr (refl, refl)
times-given f (name ∷ names) = ground (arith, times-given f names)

merged_distinct :
    (generated extra : List String) (f : String)
    → times f (overridden generated) ≤ 1
    → ((0 < times f (overridden extra))
        × (times f (overridden (without_overridden generated extra ++ extra))
            ≡ times f (overridden extra)))
      ⊎ ((times f (overridden extra) ≡ 0)
          × (times f (overridden (without_overridden generated extra ++ extra)) ≤ 1))
unfolding without_overridden
merged_distinct generated extra f few =
    rw
      (
        overridden-append (without_overridden generated extra) extra,
        times-append f (overridden (without_overridden generated extra)) (overridden extra),
        times-without_names f (overridden extra) generated,
      )
      (ground (arith, times-given f (overridden extra)))

-- Of the arguments that the operator makes for a cluster whose values are no flags, each flag that
-- the extra arguments give stands there as often as they give it, and any other at most once.
pub static_args-distinct :
    (cluster : Cluster)
    → HasPlainValues cluster
    → (f : String)
    → ((0 < times f (overridden cluster.spec.extra_args))
        × (times f (overridden (static_args cluster))
            ≡ times f (overridden cluster.spec.extra_args)))
      ⊎ ((times f (overridden cluster.spec.extra_args) ≡ 0)
          × (times f (overridden (static_args cluster)) ≤ 1))
unfolding static_args
static_args-distinct cluster plain f =
    let few = (generated_args-Within cluster plain).bound f in
    merged_distinct (generated_args cluster) cluster.spec.extra_args f
      (le_trans few (times-distinct f generated_flags generated_flags-distinct))
