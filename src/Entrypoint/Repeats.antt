-- ===== src/Entrypoint/Repeats.antt =====
-- How often a flag stands on the whole command line (the script and `withoutOverridden` in
-- internal/controller/entrypoint.go), the flags that the script itself gives among them.
use native.Mathlib.Nat.{zero-add}
use kahuna_k8s_operator.Common.{
  ℕ, ◌+◌, ◌≤◌, ◌<◌, leb, ltb, ◌⊎◌, inl, inr, ◌≡◌, refl, sym, String, Bool, true, false, not, ◌&&◌,
  Option, some, List, [], ◌∷◌, ◌++◌, contains, string_dec, str_eq, str_eq→eq, Bool-cases, arith,
}
use kahuna_k8s_operator.Api.{Cluster}
use kahuna_k8s_operator.Entrypoint.{overridden, without_overridden}
use kahuna_k8s_operator.Entrypoint.Arguments.{generated_args, static_args}
use kahuna_k8s_operator.Entrypoint.Startup.{Topology, command}
use kahuna_k8s_operator.Entrypoint.Distinct.{
  overridden-append, HasPlainValues, IsPlain, times, times-append, times-contains,
}
use kahuna_k8s_operator.Entrypoint.Flags.{generated_flags, generated_args-Within}
use kahuna_k8s_operator.Entrypoint.Once.{static_args-distinct, times-without_names}
use kahuna_k8s_operator.Entrypoint.Own.{
  begins_plainly, script_flags, own_flags, when, has_password, times-command,
}

-- No text is in both lists.
abbrev apart : List String → List String → Bool
apart [] gs = true
apart (x ∷ xs) gs = not (contains gs x) && apart xs gs

times-apart :
    (f : String) (xs gs : List String) → apart xs gs ≡ true → contains xs f ≡ true → times f gs ≡ 0
times-apart f [] gs h m = ground arith
times-apart f (x ∷ xs) gs h m = elim (Bool-cases (str_eq x f)) [
  | inl same ↦ times-contains f gs (rw (sym (str_eq→eq x f same)) (ground arith))
  | inr other ↦ times-apart f xs gs (ground arith) (ground arith)
]

script_flags-generated : (f : String) → contains script_flags f ≡ true → times f generated_flags ≡ 0
unfolding string_dec
script_flags-generated f h = times-apart f script_flags generated_flags refl h

times-when : (f token : String) (b : Bool) → str_eq token f ≡ false → times f (when b token) ≡ 0
times-when f token true h = rw h refl
times-when f token false h = refl

own_flags-others :
    (t : Topology) (ordinal : ℕ) (is_empty : Bool) (password : Option String) (f : String)
    → contains script_flags f ≡ false
    → times f (own_flags t ordinal is_empty password) ≡ 0
own_flags-others t ordinal is_empty password f h = ground (
  arith,
  times-append f (when (ltb 1 t.replicas) "--initial-cluster") (
      when (leb t.bootstrap_size ordinal && is_empty) "--join-existing"
      ++ when (has_password password) "--https-certificate-password"),
  times-append f (when (leb t.bootstrap_size ordinal && is_empty) "--join-existing")
      (when (has_password password) "--https-certificate-password"),
  times-when f "--initial-cluster" (ltb 1 t.replicas),
  times-when f "--join-existing" (leb t.bootstrap_size ordinal && is_empty),
  times-when f "--https-certificate-password" (has_password password),
)

-- What the extra arguments give replaces no flag of the script.
static_args-script :
    (cluster : Cluster)
    → HasPlainValues cluster
    → (f : String) → contains script_flags f ≡ true
    → times f (overridden (static_args cluster)) ≡ times f (overridden cluster.spec.extra_args)
unfolding static_args without_overridden
static_args-script cluster plain f h =
    let few = (generated_args-Within cluster plain).bound f in
    rw
      (
        overridden-append (without_overridden (generated_args cluster) cluster.spec.extra_args)
            cluster.spec.extra_args,
        times-append f
            (overridden (without_overridden (generated_args cluster) cluster.spec.extra_args))
            (overridden cluster.spec.extra_args),
        times-without_names f (overridden cluster.spec.extra_args) (generated_args cluster),
      )
      (ground (arith, few, script_flags-generated f h))

-- A node of the StatefulSet has a command line, whatever flags the extra arguments give, if the name
-- begins with a character past the dash and no value of the cluster, nor the keystore's password, is a
-- flag. An option of the script's own (identity, peers, join, password) stands on it once more than the
-- extra arguments give it, if the script gives it on that node, so an extra argument repeats it; any
-- other flag stands as often as they give it, and at most once if they do not.
pub command-times :
    (cluster : Cluster) (t : Topology) (ordinal : ℕ) (is_empty : Bool) (password : Option String)
    → HasPlainValues cluster
    → begins_plainly cluster.name ≡ true
    → ((pw : String) → password ≡ some pw → IsPlain pw)
    → ordinal < t.replicas
    → (args : List String) × (command cluster t ordinal is_empty password ≡ some args)
      × ((f : String)
          → ((contains script_flags f ≡ true)
              × (times f (overridden args)
                  ≡ times f (own_flags t ordinal is_empty password)
                    + times f (overridden cluster.spec.extra_args)))
            ⊎ ((contains script_flags f ≡ false)
                × (((0 < times f (overridden cluster.spec.extra_args))
                      × (times f (overridden args) ≡ times f (overridden cluster.spec.extra_args)))
                    ⊎ ((times f (overridden cluster.spec.extra_args) ≡ 0)
                        × (times f (overridden args) ≤ 1)))))
command-times cluster t ordinal is_empty password values begins plain lt =
    let (args, starts, counts) =
      times-command cluster t ordinal is_empty password begins plain lt in
    (
      args,
      starts,
      λ f. elim (Bool-cases (contains script_flags f)) [
        | inl own ↦ inl (own, rw (counts f) (rw (static_args-script cluster values f own) refl))
        | inr other ↦ inr (
          other,
          rw (counts f) (
              rw
                (
                  own_flags-others t ordinal is_empty password f other,
                  zero-add (times f (overridden (static_args cluster))),
                )
                (static_args-distinct cluster values f)),
        )
      ],
    )
