-- ===== src/Entrypoint/Distinct.antt =====
-- How often a flag stands in a list of arguments (internal/controller/entrypoint.go, `staticArgs`).
use Prim.Native.Char.{Char, code}
use text.Mathlib.TextLemmas.{cons-append}
use kahuna_k8s_operator.Api.{Cluster, BackupSpec}
use kahuna_k8s_operator.Naming.{backup_cluster_id}
use kahuna_k8s_operator.Common.{
  ℕ, ◌+◌, ◌≤◌, ◌<◌, ◌≡◌, refl, ap, String, ◌<>◌, Bool, true, false, Option, none, some, List, [],
  ◌∷◌, ◌++◌, contains, str_eq, Option-cases, Bool-cases, inl, inr, if◌then◌else◌, arith,
}
use kahuna_k8s_operator.Common.Decimal.{decimal, decimal-all_digits, all_digits}
use kahuna_k8s_operator.Entrypoint.{flag_name, overridden, drop_overridden}
use kahuna_k8s_operator.Entrypoint.Arguments.{flag_args, bool_flag, or_else}

-- How often a flag is given.
abbrev pub times : String → List String → ℕ
times f [] = 0
times f (g ∷ gs) = (if str_eq g f then 1 else 0) + times f gs

unfoldable pub distinct : List String → Bool
distinct [] = true
distinct (g ∷ gs) = if contains gs g then false else distinct gs

pub times-contains : (f : String) (gs : List String) → contains gs f ≡ false → times f gs ≡ 0
times-contains f [] h = refl
times-contains f (g ∷ gs) h = ground (arith, times-contains f gs)

pub times-distinct : (f : String) (gs : List String) → distinct gs ≡ true → times f gs ≤ 1
unfolding distinct
times-distinct f [] h = omega arith
times-distinct f (g ∷ gs) h = ground (arith, times-distinct f gs, times-contains f gs)

pub overridden-append :
    (xs ys : List String) → overridden (xs ++ ys) ≡ overridden xs ++ overridden ys
unfolding overridden
overridden-append [] ys = refl
overridden-append (x ∷ xs) ys = elim (Option-cases (flag_name x)) [
  | inl plain ↦ rw plain (overridden-append xs ys)
  | inr (name, e) ↦ rw e (ap (◌∷◌ name) (overridden-append xs ys))
]

pub times-append : (f : String) (xs ys : List String) → times f (xs ++ ys) ≡ times f xs + times f ys
times-append f [] ys = omega arith
times-append f (x ∷ xs) ys = omega (arith, times-append f xs ys)

-- A flag that the extra arguments give is not generated, and any other as often as before.
pub times-drop_overridden :
    (f : String) (names : List String) (skipping : Bool) (xs : List String)
    → times f (overridden (drop_overridden names skipping xs))
      ≡ (if contains names f then 0 else times f (overridden xs))
unfolding drop_overridden overridden
times-drop_overridden f names skipping [] = ground arith
times-drop_overridden f names skipping (x ∷ xs) = elim (Option-cases (flag_name x)) [
  | inl plain ↦ elim (Bool-cases skipping) [
    | inl on ↦ rw (plain, on) (times-drop_overridden f names true xs)
    | inr off ↦ rw (plain, off) (rw plain (times-drop_overridden f names false xs))
  ]
  | inr (name, e) ↦ elim (Bool-cases (contains names name)) [
    | inl on ↦ rw (e, on) (ground (arith, times-drop_overridden f names true xs))
    | inr off ↦ rw (e, off) (rw e (ground (arith, times-drop_overridden f names false xs)))
  ]
]

-- The flags of these arguments are among those of the table, none more often.
pub record Within (args table : List String) : Type 0 where
  pub bound : (f : String) → times f (overridden args) ≤ times f table

-- The text is no flag.
abbrev pub IsPlain : String → Type 0
IsPlain token = flag_name token ≡ none

flag_name-digits : (s : String) → all_digits s ≡ true → IsPlain s
unfolding flag_name
flag_name-digits String.[] h = refl
flag_name-digits (String.◌∷◌ c String.[]) h = refl
flag_name-digits (String.◌∷◌ c (String.◌∷◌ d s)) h = ground arith

pub flag_name-decimal : (n : ℕ) → IsPlain (decimal n)
flag_name-decimal n = flag_name-digits (decimal n) (decimal-all_digits n)

-- Tokens with the flags among them.
pub data Gives : List String → List String → Type 0 where
  done : Gives [] []
  flag :
      {token : String} {ys gs : List String}
      → flag_name token ≡ some token
      → Gives ys gs
      → Gives (token ∷ ys) (token ∷ gs)
  value :
      {token : String} {ys gs : List String} → IsPlain token → Gives ys gs → Gives (token ∷ ys) gs

pub overridden-Gives : {ys gs : List String} → Gives ys gs → overridden ys ≡ gs
unfolding overridden
overridden-Gives done = refl
overridden-Gives (flag e rest) = rw (e, overridden-Gives rest)
overridden-Gives (value plain rest) = rw (plain, overridden-Gives rest)

module _ {args table : List String} (within : Within args table) where
  pub added-Within : (ys gs : List String) → Gives ys gs → Within (args ++ ys) (gs ++ table)
  added-Within ys gs gives = record {
    bound = λ f.
        rw
          (
            overridden-append args ys,
            times-append f (overridden args) (overridden ys),
            times-append f gs table,
            overridden-Gives gives,
          )
          (omega (arith, within.bound f));
  }

  unused-Within : (token : String) → Within args (token ∷ table)
  unused-Within token = record { bound = λ f. omega (arith, within.bound f) }

  module _ (token : String) (is_flag : flag_name token ≡ some token) where
    pub flag_args-Within : (v : Option ℕ) → Within (flag_args args token v) (token ∷ table)
    unfolding flag_args
    flag_args-Within none = unused-Within token
    flag_args-Within (some n) =
        added-Within (token ∷ decimal n ∷ []) (token ∷ [])
          (flag is_flag (value (flag_name-decimal n) done))

    pub bool_flag-Within :
        (v : Option Bool) (want : Bool) → Within (bool_flag args token v want) (token ∷ table)
    unfolding bool_flag
    bool_flag-Within none want = unused-Within token
    bool_flag-Within (some true) true = added-Within (token ∷ []) (token ∷ []) (flag is_flag done)
    bool_flag-Within (some true) false = unused-Within token
    bool_flag-Within (some false) true = unused-Within token
    bool_flag-Within (some false) false = added-Within (token ∷ []) (token ∷ []) (flag is_flag done)

-- What follows the flags that take it as it is.
pub record HasPlainValues (cluster : Cluster) : Type 0 where
  pub backend : IsPlain (or_else cluster.spec.storage.backend "rocksdb")
  pub revision : IsPlain (or_else cluster.spec.storage.revision "v1")
  pub wal_backend : IsPlain (or_else cluster.spec.storage.wal_backend "rocksdb")
  pub wal_revision : IsPlain (or_else cluster.spec.storage.wal_revision "v1")
  pub cluster_id :
      (b : BackupSpec) → cluster.spec.backup ≡ some b → IsPlain (backup_cluster_id cluster b)

-- A text with such a beginning is no flag.
pub flag_name-append :
    (c d : Char) (s t : String) → 45 < code c → IsPlain (String.◌∷◌ c (String.◌∷◌ d s) <> t)
unfolding flag_name
flag_name-append c d s t h = rw (cons-append c (String.◌∷◌ d s) t, cons-append d s t) (ground arith)
