-- ===== src/Backup/Volume.antt =====
-- The claim that holds the backups (internal/controller/backup.go, `readBackupVolume`,
-- `latestClaimWarning` and `eventTime`). The claim and its Warning events are arguments, as read.
use Prim.Native.Char.{Char, code}
use kahuna_k8s_operator.Common.{
  ℕ, ◌==◌, ltb, leb, String, ◌<>◌, Bool, true, false, not, ◌&&◌, ◌||◌, Option, none, some, List, [],
  ◌∷◌, contains, show_list, str_eq, if◌then◌else◌,
}
use kahuna_k8s_operator.Api.{Cluster, BackupSpec}
use kahuna_k8s_operator.Naming.{backup_claim_name, single_node}
use kahuna_k8s_operator.ApiServer.{Reply, found, missing, failed}
use kahuna_k8s_operator.Kahuna.Errors.{error_text, Result, ok, err}
use kahuna_k8s_operator.Backup.Claims.{Claim}

-- A claim with the access modes that its volume has.
pub record BoundClaim : Type 0 where
  pub claim : Claim
  pub granted : List String

pub record Event : Type 0 where
  pub created_at : ℕ
  pub last_timestamp : ℕ
  pub event_time : ℕ
  pub last_observed : Option ℕ
  pub reason : String
  pub message : String

-- The later one, by `After`.
abbrev pub later_time : ℕ → ℕ → ℕ
later_time t c = if ltb t c then c else t

unfoldable pub seen_at : Event → ℕ
seen_at e =
    let t = later_time (later_time e.created_at e.last_timestamp) e.event_time in
    elim e.last_observed [ none ↦ t | some c ↦ later_time t c ]

abbrev pub newer : Option Event → Event → Option Event
newer none e = some e
newer (some latest) e = if ltb (seen_at latest) (seen_at e) then some e else some latest

-- The loop over the events.
unfoldable pub latest_of : Option Event → List Event → Option Event
latest_of latest [] = latest
latest_of latest (e ∷ es) = latest_of (newer latest e) es

unfoldable pub latest_claim_warning : List Event → Option Event
unfolding latest_of
latest_claim_warning events = latest_of none events

abbrev is_letter : ℕ → Bool
is_letter c = (leb 65 c && leb c 90) || (leb 97 c && leb c 122)

-- `[A-Za-z0-9_]`
abbrev is_word : ℕ → Bool
is_word c = is_letter c || ((leb 48 c && leb c 57) || (c == 95))

-- `([A-Za-z0-9_,:]*[A-Za-z0-9_])?$`
abbrev reason_rest : String → Bool
reason_rest String.[] = true
reason_rest (String.◌∷◌ c String.[]) = is_word (code c)
reason_rest (String.◌∷◌ c (String.◌∷◌ d s)) =
    (is_word (code c) || ((code c == 44) || (code c == 58))) && reason_rest (String.◌∷◌ d s)

-- `conditionReason`
unfoldable pub is_condition_reason : String → Bool
is_condition_reason String.[] = false
is_condition_reason (String.◌∷◌ c s) = is_letter (code c) && reason_rest s

abbrev is_one_of : List ℕ → ℕ → Bool
is_one_of [] c = false
is_one_of (k ∷ ks) c = (c == k) || is_one_of ks c

-- `unicode.IsSpace`
abbrev is_space : ℕ → Bool
is_space c =
    (leb 9 c && leb c 13)
    || (is_one_of (32 ∷ 0x85 ∷ 0xA0 ∷ 0x1680 ∷ 0x2028 ∷ 0x2029 ∷ 0x202F ∷ 0x205F ∷ 0x3000 ∷ []) c
        || (leb 0x2000 c && leb c 0x200A))

abbrev drop_if : Bool → Char → String → String
drop_if at_end c rest = if at_end && str_eq rest "" then "" else String.◌∷◌ c rest

-- Trimming at the end, of the characters that pass a test.
unfoldable pub trim_right : (ℕ → Bool) → String → String
trim_right p String.[] = ""
trim_right p (String.◌∷◌ c s) = drop_if (p (code c)) c (trim_right p s)

unfoldable pub trim_left : (ℕ → Bool) → String → String
trim_left p String.[] = ""
trim_left p (String.◌∷◌ c s) = if p (code c) then trim_left p s else String.◌∷◌ c s

pub record BackupVolume : Type 0 where
  pub bound : Bool
  pub ready : Bool
  pub reason : String
  pub message : String

abbrev pub unbound : String → String → BackupVolume
unbound reason message = record { bound = false; ready = false; reason = reason; message = message }

abbrev claim_text : String → String → String
claim_text name rest = "PersistentVolumeClaim \"" <> (name <> ("\"" <> rest))

abbrev stuck : String
stuck = ". Every node mounts it, so no pod can start until it is bound"

abbrev mode_advice : Claim → String
mode_advice c =
    if contains c.access_modes "ReadWriteMany"
    then ". The claim asks for ReadWriteMany, so its StorageClass must support that access mode. "
      <> ("Set spec.backup.volume.claim.storageClassName to a class that does, or name a ReadWriteMany "
          <> "claim in spec.backup.volume.claimName")
    else ""

abbrev warning_message : Event → String
warning_message e = trim_right (λ c. c == 46) (trim_right is_space (trim_left is_space e.message))

abbrev pub warned : String → Claim → Option Event → BackupVolume
warned name c none = unbound "ClaimPending" (claim_text name (" is not bound yet" <> stuck))
warned name c (some e) =
    unbound (if is_condition_reason e.reason then e.reason else "ClaimPending") (
      claim_text name (
        " is not bound: "
        <> (e.reason <> (": " <> (warning_message e <> (stuck <> mode_advice c))))))

-- An unreadable list of events counts as none.
abbrev pub warning_of : Result (List Event) → Option Event
warning_of (err e) = none
warning_of (ok events) = latest_claim_warning events

unfoldable pub volume_of : Cluster → String → Result (List Event) → BoundClaim → BackupVolume
unfolding latest_claim_warning is_condition_reason
volume_of cluster name events pvc =
    if str_eq pvc.claim.phase "Bound"
    then if not (single_node cluster) && not (contains pvc.granted "ReadWriteMany")
      then record {
        bound = true;
        ready = false;
        reason = "NotReadWriteMany";
        message = claim_text name (
            " is bound with access modes "
            <> (show_list pvc.granted
                <> (", not ReadWriteMany. Every node mounts it, "
                    <> "so a pod that runs on a different Kubernetes node than the volume cannot start")));
      }
      else record {
        bound = true;
        ready = true;
        reason = "ClaimBound";
        message = claim_text name " is bound";
      }
    else if str_eq pvc.claim.phase "Lost"
    then unbound "ClaimLost"
        (claim_text name (" lost its PersistentVolume \"" <> (pvc.claim.volume_name <> "\"")))
    else warned name pvc.claim (warning_of events)

abbrev pub volume_in : Cluster → String → Result (List Event) → Reply BoundClaim → BackupVolume
volume_in cluster name events (found pvc) = volume_of cluster name events pvc
volume_in cluster name events missing =
    unbound "ClaimNotFound"
      (claim_text name " does not exist. Every node mounts it, so no pod can start until it exists")
volume_in cluster name events (failed e) =
    unbound "ClaimUnreadable" ("reading " <> claim_text name (": " <> error_text e))

unfoldable pub read_backup_volume :
    Cluster → BackupSpec → Reply BoundClaim → Result (List Event) → BackupVolume
unfolding volume_of backup_claim_name
read_backup_volume cluster b reply events =
    volume_in cluster (backup_claim_name cluster b) events reply
