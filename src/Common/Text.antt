-- ===== src/Common/Text.antt =====
-- Go's `==` on strings, as a decision that splits into the equation and its negation.
use Prim.Native.String.{String, ◌++◌}
use mathlib.Core.Path.{◌≡◌}
use mathlib.Core.Logic.{ite, dite}
use mathlib.Core.Bool.{Bool, true, false, ◌||◌, Bool-discrete}
use mathlib.Core.List.{List, [], ◌∷◌}
use native.Mathlib.Omega.{arith}
use text.Mathlib.Text
use text.Mathlib.TextEquality.{eq_iff}

unfoldable pub string_dec : Discrete String
string_dec s t =
    dite (Bool-discrete (Text.◌==◌ s t) true) (λ same. yes ((eq_iff s t).0 same))
      (λ differ. no (λ p. differ ((eq_iff s t).1 p)))

abbrev pub str_eq : String → String → Bool
str_eq s t = ite (string_dec s t) true false

pub str_eq_refl : (s : String) → str_eq s s ≡ true
str_eq_refl s = ground arith

pub str_eq→eq : (s t : String) → str_eq s t ≡ true → s ≡ t
str_eq→eq s t h = ground arith

-- `slices.Contains` on a list of strings.
abbrev pub contains : List String → String → Bool
contains [] a = false
contains (x ∷ xs) a = str_eq x a || contains xs a

-- `strings.Join`.
unfoldable pub join : String → List String → String
join sep [] = ""
join sep (x ∷ []) = x
join sep (x ∷ y ∷ r) = x ++ (sep ++ join sep (y ∷ r))

-- What `%v` prints of a list of strings.
unfoldable pub show_list : List String → String
unfolding join
show_list xs = "[" ++ (join " " xs ++ "]")
