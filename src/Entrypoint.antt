-- ===== src/Entrypoint.antt =====
-- The node's command line (internal/controller/entrypoint.go).
pub mod Topology
pub mod Flags
pub mod Quoting
pub mod Overrides
pub mod Script
pub mod Startup
pub mod Peers
pub mod Once
pub mod Repeats
pub mod Words
pub mod Own
pub mod Distinct
pub mod Arguments
use Prim.Native.Char.{code}
use kahuna_k8s_operator.Common.{
  ℕ, ◌==◌, ◌&&◌, String, ◌<>◌, Bool, true, false, not, Option, none, some, List, [], ◌∷◌, ◌++◌,
  contains, if◌then◌else◌,
}

-- `strings.ReplaceAll(s, "'", "'\\''")`
unfoldable pub escape : String → String
escape String.[] = ""
escape (String.◌∷◌ c s) =
    let rest = escape s in if code c == 39 then "'\\''" <> rest else String.◌∷◌ c rest

unfoldable pub shell_quote : String → String
unfolding escape
shell_quote s = "'" <> (escape s <> "'")

-- What stands before the first `=`.
unfoldable pub before_equals : String → String
before_equals String.[] = ""
before_equals (String.◌∷◌ c s) =
    let rest = before_equals s in if code c == 61 then "" else String.◌∷◌ c rest

abbrev starts_with_dashes : String → Bool
starts_with_dashes (String.◌∷◌ c (String.◌∷◌ d s)) = (code c == 45) && (code d == 45)
starts_with_dashes _ = false

unfoldable pub flag_name : String → Option String
unfolding before_equals
flag_name token = if starts_with_dashes token then some (before_equals token) else none

abbrev with_flag : Option String → List String → List String
with_flag none names = names
with_flag (some name) names = name ∷ names

-- The set of the flags that the extra arguments give.
unfoldable pub overridden : List String → List String
overridden [] = []
overridden (a ∷ extra) = with_flag (flag_name a) (overridden extra)

abbrev skips : List String → Bool → Option String → Bool
skips names skipping none = skipping
skips names skipping (some name) = contains names name

-- The loop over the generated arguments.
unfoldable pub drop_overridden : List String → Bool → List String → List String
drop_overridden names skipping [] = []
drop_overridden names skipping (a ∷ generated) =
    let now_skipping = skips names skipping (flag_name a) in
    let rest = drop_overridden names now_skipping generated in
    if now_skipping then rest else a ∷ rest

abbrev pub without_names : List String → List String → List String
without_names [] generated = generated
without_names (name ∷ names) generated = drop_overridden (name ∷ names) false generated

unfoldable pub without_overridden : List String → List String → List String
unfolding drop_overridden overridden
without_overridden generated extra = without_names (overridden extra) generated
