-- ===== src/Backup/Warnings.antt =====
-- What the BackupVolumeReady condition says (internal/controller/backup.go, `readBackupVolume` and
-- `latestClaimWarning`).
use kahuna_k8s_operator.Common.{
  ◌≤◌, ltb, ◌≡◌, ◌⊎◌, inl, inr, refl, String, true, not, ◌&&◌, Option, none, some, List, [], ◌∷◌,
  In, In-cons, here, there, contains, str_eq, Bool-cases, arith,
}
use kahuna_k8s_operator.Api.{Cluster, BackupSpec}
use kahuna_k8s_operator.Naming.{single_node, backup_claim_name}
use kahuna_k8s_operator.ApiServer.{Reply, found, missing, failed}
use kahuna_k8s_operator.Kahuna.Errors.{Result}
use kahuna_k8s_operator.Backup.Claims.{Claim}
use kahuna_k8s_operator.Backup.Volume.{
  BoundClaim, Event, seen_at, newer, latest_of, latest_claim_warning, is_condition_reason,
  read_backup_volume, volume_of, warned, warning_of,
}

-- The warning is among those and none is newer.
abbrev pub IsNewest : Event → List Event → Type 0
IsNewest latest events = In latest events × ((e : Event) → In e events → seen_at e ≤ seen_at latest)

IsBelow-cons :
    (top e : Event) (es : List Event)
    → seen_at e ≤ seen_at top
    → ((k : Event) → In k es → seen_at k ≤ seen_at top)
    → (k : Event) → In k (e ∷ es)
    → seen_at k ≤ seen_at top
IsBelow-cons top e es first rest k m = elim (In-cons m) [
  | inl same ↦ rw same first
  | inr later ↦ rest k later
]

-- Where the loop ends that has kept an event.
abbrev IsLatest : Event → List Event → Event → Type 0
IsLatest kept es latest =
    (latest_of (some kept) es ≡ some latest)
    × ((latest ≡ kept) ⊎ In latest es)
    × (seen_at kept ≤ seen_at latest)
    × ((e : Event) → In e es → seen_at e ≤ seen_at latest)

walk-IsLatest : (kept : Event) (es : List Event) → (latest : Event) × IsLatest kept es latest
unfolding latest_of
walk-IsLatest kept [] = (kept, (refl, inl refl, omega arith, λ e m. elim m [ ]))
walk-IsLatest kept (e ∷ es) = elim (Bool-cases (ltb (seen_at kept) (seen_at e))) [
  | inl newer ↦
      let (latest, (ends, from, above, all_below)) = walk-IsLatest e es in
      (
        latest,
        (
          rw newer ends,
          elim from [ inl same ↦ inr (rw same here) | inr m ↦ inr (there m) ],
          ground arith,
          IsBelow-cons latest e es above all_below,
        ),
      )
  | inr older ↦
      let (latest, (ends, from, above, all_below)) = walk-IsLatest kept es in
      (
        latest,
        (
          rw older ends,
          elim from [ inl same ↦ inl same | inr m ↦ inr (there m) ],
          above,
          IsBelow-cons latest e es (ground arith) all_below,
        ),
      )
]

-- Of the Warning events on the claim, if there are any, one is taken that no other is newer than.
pub latest_claim_warning-IsNewest :
    (e : Event) (es : List Event)
    → (latest : Event) × (latest_claim_warning (e ∷ es) ≡ some latest) × IsNewest latest (e ∷ es)
unfolding latest_claim_warning latest_of
latest_claim_warning-IsNewest e es =
    let (latest, (ends, from, above, all_below)) = walk-IsLatest e es in
    (
      latest,
      ends,
      (
        elim from [ inl same ↦ rw same here | inr m ↦ there m ],
        IsBelow-cons latest e es above all_below,
      ),
    )

warned-reason :
    (name : String) (c : Claim) (o : Option Event)
    → is_condition_reason (warned name c o).reason ≡ true
unfolding is_condition_reason
warned-reason name c none = refl
warned-reason name c (some e) = elim (Bool-cases (is_condition_reason e.reason)) [
  | inl fits ↦ rw fits fits
  | inr unfit ↦ rw unfit refl
]

volume_of-reason :
    (cluster : Cluster) (name : String) (events : Result (List Event)) (pvc : BoundClaim)
    → is_condition_reason (volume_of cluster name events pvc).reason ≡ true
unfolding volume_of
volume_of-reason cluster name events pvc = elim (Bool-cases (str_eq pvc.claim.phase "Bound")) [
  | inl bound ↦
      elim (Bool-cases (not (single_node cluster) && not (contains pvc.granted "ReadWriteMany"))) [
        | inl shared ↦ rw (bound, shared) refl
        | inr fine ↦ rw (bound, fine) refl
      ]
  | inr waiting ↦ elim (Bool-cases (str_eq pvc.claim.phase "Lost")) [
    | inl lost ↦ rw (waiting, lost) refl
    | inr pending ↦ rw (waiting, pending) (warned-reason name pvc.claim (warning_of events))
  ]
]

-- Whatever the claim and its events say, the reason has the form that the API server accepts of a
-- condition, so that no event can keep the status from being written.
pub read_backup_volume_reason :
    (cluster : Cluster) (b : BackupSpec) (reply : Reply BoundClaim) (events : Result (List Event))
    → is_condition_reason (read_backup_volume cluster b reply events).reason ≡ true
unfolding read_backup_volume is_condition_reason
read_backup_volume_reason cluster b (found pvc) events =
    volume_of-reason cluster (backup_claim_name cluster b) events pvc
read_backup_volume_reason cluster b missing events = refl
read_backup_volume_reason cluster b (failed e) events = refl
