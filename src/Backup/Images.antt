-- ===== src/Backup/Images.antt =====
-- Whether the image can take a backup that covers every partition (internal/controller/backup.go,
-- `imageVersion` and `backupUnsupported`).
use Prim.Native.Char.{Char, code}
use kahuna_k8s_operator.Common.{
  ℕ, ◌==◌, ltb, leb, String, ◌<>◌, Bool, true, false, not, ◌&&◌, ◌||◌, Option, none, some,
  if◌then◌else◌,
}
use kahuna_k8s_operator.Common.Decimal.{decimal, atoi, is_digit}
use kahuna_k8s_operator.Common.Int.{ℤ, pos, negsuc}
use kahuna_k8s_operator.Api.{Cluster, ReplicationSpec, AutoscalingSpec}
use kahuna_k8s_operator.Naming.{spec_replicas}

infixl 5 ◌>>=◌
abbrev pub ◌>>=◌ : {A B : Type 0} → Option A → (A → Option B) → Option B
none >>= f = none
some a >>= f = f a

-- `image[:i]` for the first `@`
unfoldable pub before_at : String → String
before_at String.[] = ""
before_at (String.◌∷◌ c s) =
    let rest = before_at s in if code c == 64 then "" else String.◌∷◌ c rest

abbrev pub or_after : Bool → String → Option String → Option String
or_after here s (some tag) = some tag
or_after true s none = some s
or_after false s none = none

-- What stands behind the last colon.
unfoldable pub after_colon : String → Option String
after_colon String.[] = none
after_colon (String.◌∷◌ c s) = or_after (code c == 58) s (after_colon s)

abbrev pub holds_code : ℕ → String → Bool
holds_code k String.[] = false
holds_code k (String.◌∷◌ c s) = (code c == k) || holds_code k s

-- A digit in front of what was read, or the end of the digits.
abbrev pub read_digit : Char → String → String × String → String × String
read_digit c s (digits, rest) =
    if is_digit c then (String.◌∷◌ c digits, rest) else ("", String.◌∷◌ c s)

unfoldable pub span_digits : String → String × String
span_digits String.[] = ("", "")
span_digits (String.◌∷◌ c s) = read_digit c s (span_digits s)

-- `(\d+)`
abbrev pub some_digits : String × String → Option (String × String)
some_digits (String.[], rest) = none
some_digits (String.◌∷◌ c digits, rest) = some (String.◌∷◌ c digits, rest)

-- `\.`
abbrev pub dot : String → Option String
dot String.[] = none
dot (String.◌∷◌ c s) = if code c == 46 then some s else none

-- `v?`
abbrev pub drop_v : String → String
drop_v String.[] = ""
drop_v (String.◌∷◌ c s) = if code c == 118 then s else String.◌∷◌ c s

-- `(?:[-+].*)?$`
abbrev pub is_suffix : String → Bool
is_suffix String.[] = true
is_suffix (String.◌∷◌ c s) = (code c == 45 || (code c == 43)) && not (holds_code 10 s)

abbrev pub Version : Type 0
Version = ℕ × ℕ × ℕ

abbrev pub from_int : ℤ → Option ℕ
from_int (pos n) = some n
from_int (negsuc n) = none

abbrev pub number : String → Option ℕ
number digits = atoi digits >>= from_int

abbrev pub numbers : String → String → String → Option Version
numbers a b c = do major ← number a; minor ← number b; patch ← number c; some (major, minor, patch)

unfoldable pub read_version : String → Option Version
unfolding span_digits
read_version tag = do
  a ← some_digits (span_digits (drop_v tag))
  r ← dot a.1
  b ← some_digits (span_digits r)
  t ← dot b.1
  c ← some_digits (span_digits t)
  if is_suffix c.1 then numbers a.0 b.0 c.0 else none

abbrev pub of_tag : Option String → Option Version
of_tag none = none
of_tag (some tag) = if holds_code 47 tag then none else read_version tag

unfoldable pub image_version : String → Option Version
unfolding before_at after_colon read_version
image_version image = of_tag (after_colon (before_at image))

-- `slices.Compare(v, w) >= 0`
abbrev pub at_least : Version → Version → Bool
at_least (a, b, c) (x, y, z) = ltb x a || ((a == x) && (ltb y b || ((b == y) && leb z c)))

abbrev pub composed_backup_version : Version
composed_backup_version = (1, 12, 5)

abbrev pub most_nodes : Cluster → Option AutoscalingSpec → ℕ
most_nodes cluster none = spec_replicas cluster
most_nodes cluster (some a) = a.max_replicas

abbrev pub unsupported_text : Cluster → ReplicationSpec → ℕ → String
unsupported_text cluster r most =
    "image "
    <> (cluster.spec.image
        <> (" is older than Kahuna 1.12.5, and the cluster can have "
            <> (decimal most
                <> (" nodes with replication.factor "
                    <> (decimal r.factor
                        <> (": a backup from that server holds only the partitions that the node taking it "
                            <> "hosts, and restore and seeding refuse such a backup. Use Kahuna 1.12.5 or later"))))))

abbrev pub unsupported_by : Cluster → ReplicationSpec → ℕ → Option Version → String
unsupported_by cluster r most none = ""
unsupported_by cluster r most (some v) =
    if at_least v composed_backup_version then "" else unsupported_text cluster r most

abbrev pub unsupported_for : Cluster → ℕ → Option ReplicationSpec → String
unsupported_for cluster most none = ""
unsupported_for cluster most (some r) =
    if leb most r.factor
    then ""
    else unsupported_by cluster r most (image_version cluster.spec.image)

unfoldable pub backup_unsupported : Cluster → String
unfolding image_version
backup_unsupported cluster =
    unsupported_for cluster (most_nodes cluster cluster.spec.autoscaling) cluster.spec.replication
