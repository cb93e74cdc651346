-- ===== src/Backup/Claims.antt =====
-- When the backup claim is created again (internal/controller/backup.go, `claimNeedsReplacing` and
-- `sameAccessModes`).
use kahuna_k8s_operator.Common.{
  ℕ, ◌==◌, String, Bool, true, false, not, ◌&&◌, ◌||◌, Option, none, some, List, all, contains,
  str_eq, if◌then◌else◌,
}

-- What is read of a claim: `storage` is the requested size, a missing request being 0.
pub record Claim : Type 0 where
  pub deleting : Bool
  pub volume_name : String
  pub phase : String
  pub access_modes : List String
  pub storage_class_name : Option String
  pub storage : ℕ

unfoldable pub same_access_modes : List String → List String → Bool
same_access_modes a b = all (contains b) a && all (contains a) b

-- `want != nil && !ptr.Equal(have, want)`
abbrev differs : Option String → Option String → Bool
differs have none = false
differs none (some want) = true
differs (some have) (some want) = not (str_eq have want)

-- The claim has, or had, a volume, or is on its way out.
abbrev pub is_kept : Claim → Bool
is_kept c =
    c.deleting
    || (not (str_eq c.volume_name "")
        || (not (str_eq c.phase "") && not (str_eq c.phase "Pending")))

unfoldable pub claim_needs_replacing : Claim → Claim → Bool
unfolding same_access_modes
claim_needs_replacing existing desired =
    if is_kept existing
    then false
    else if not (same_access_modes existing.access_modes desired.access_modes)
    then true
    else if differs existing.storage_class_name desired.storage_class_name
    then true
    else not (existing.storage == desired.storage)
