-- ===== src/Backup/Ready.antt =====
-- When a backup may start, by what a pass has read (internal/controller/backup.go,
-- `reconcileBackup`).
use mathlib.Core.Option.{some-injective}
use text.Mathlib.TextLemmas.{cons-append}
use kahuna_k8s_operator.Common.{
  ℕ, ◌==◌, ◌&&◌, ◌≡◌, ◌≢◌, refl, sym, ap, ◌∙◌, String, ◌<>◌, true, false, not, Option, none, some,
  List, contains, string_dec, str_eq, str_eq→eq, Bool-cases, inl, inr,
}
use kahuna_k8s_operator.Api.{Cluster, BackupSpec, BackupStatus, Pod}
use kahuna_k8s_operator.Naming.{single_node, backup_claim_name}
use kahuna_k8s_operator.Backup.Claims.{Claim}
use kahuna_k8s_operator.ApiServer.{Reply, found, missing, failed}
use kahuna_k8s_operator.Kahuna.{Membership}
use kahuna_k8s_operator.Kahuna.Errors.{Result, ok, err}
use kahuna_k8s_operator.Backup.{
  Schedule, BackupKind, no_backup, full, incremental, BackupInput, BackupDecision, decide_backup,
}
use kahuna_k8s_operator.Backup.Results.{BackupJob}
use kahuna_k8s_operator.Backup.Images.{backup_unsupported}
use kahuna_k8s_operator.Backup.Volume.{
  BackupVolume, BoundClaim, Event, read_backup_volume, volume_of, warned, warning_of,
}
use kahuna_k8s_operator.Backup.Verdict.{
  Started, is_suspended, waiting_reason, starts, when_due, by_kind, unless_running, scheduled,
  waits_unclaimed, failing,
}

abbrev pub input : BackupStatus → ℕ → Schedule → Option Schedule → BackupInput
input st now full_schedule incremental_schedule = record {
  full_schedule = full_schedule;
  incremental_schedule = incremental_schedule;
  status = st;
  now = now;
}

module _ (show_time : ℕ → String) (cluster : Cluster) (st : BackupStatus) (now : ℕ)
    (config_hash : String) (volume : BackupVolume) (membership : Option Membership)
    (pods : List Pod) (spec : BackupSpec) (s : Started) where
  abbrev waiting : String
  waiting = waiting_reason cluster config_hash volume membership pods

  -- What holds when a backup of this decision starts.
  abbrev Goes : BackupDecision → Type 0
  Goes d =
      (d.kind ≢ no_backup)
      × (is_suspended spec.suspend ≡ false)
      × (waiting ≡ "")
      × (s ≡ starts cluster st pods spec d.kind d.scheduled)

  Goes-when_due :
      (d : BackupDecision)
      → d.kind ≢ no_backup
      → (when_due show_time cluster st now config_hash volume membership pods spec d).started
        ≡ some s
      → Goes d
  Goes-when_due d due h = elim (Bool-cases (is_suspended spec.suspend)) [
    | inl suspended ↦ cc (rw suspended at h)
    | inr active ↦ elim (Bool-cases (str_eq waiting "")) [
      | inl free ↦ (due, active, str_eq→eq waiting "" free, started s (rw (active, free) at h))
      | inr held ↦ cc (rw (active, held) at h)
    ]
  ]
    where
      started :
          (t : Started)
          → some (starts cluster st pods spec d.kind d.scheduled) ≡ some t
          → t ≡ starts cluster st pods spec d.kind d.scheduled
      started t e = sym (some-injective _ t e)

  when_due-Goes :
      (d : BackupDecision)
      → Goes d
      → (when_due show_time cluster st now config_hash volume membership pods spec d).started
        ≡ some s
  unfolding string_dec
  when_due-Goes d (due, active, free, same) = rw (active, free) (ap some (sym same))

  waits_not_started :
      (d : BackupDecision) (o : Option ℕ)
      → (waits_unclaimed show_time cluster st now d o).started ≡ none
  waits_not_started d none = refl
  waits_not_started d (some since) =
      elim (Bool-cases (not (d.retry_at == 0) && not (failing show_time cluster st now))) [
        | inl waits ↦ rw waits refl
        | inr scheduled ↦ rw scheduled refl
      ]

  Goes-by_kind :
      (d : BackupDecision) (k : BackupKind)
      → d.kind ≡ k
      → (by_kind show_time cluster st now config_hash volume membership pods spec d k).started
        ≡ some s
      → Goes d
  Goes-by_kind d no_backup e h = cc (sym (waits_not_started d st.unclaimed_since) ∙ h)
  Goes-by_kind d full e h = Goes-when_due d (λ n. cc (sym e ∙ n)) h
  Goes-by_kind d incremental e h = Goes-when_due d (λ n. cc (sym e ∙ n)) h

  by_kind-Goes :
      (d : BackupDecision) (k : BackupKind)
      → d.kind ≡ k
      → Goes d
      → (by_kind show_time cluster st now config_hash volume membership pods spec d k).started
        ≡ some s
  by_kind-Goes d no_backup e goes = absurd (goes.0 e)
  by_kind-Goes d full e goes = when_due-Goes d goes
  by_kind-Goes d incremental e goes = when_due-Goes d goes

  -- What holds when a backup starts, with the parsed schedules and the job that still runs.
  abbrev Ready : Result Schedule → Result (Option Schedule) → Option BackupJob → Type 0
  Ready f i job =
      (full_schedule : Schedule) × (incremental_schedule : Option Schedule) × (f ≡ ok full_schedule)
      × (i ≡ ok incremental_schedule)
      × (backup_unsupported cluster ≡ "")
      × (job ≡ none)
      × Goes (decide_backup (input st now full_schedule incremental_schedule))

  pub started-Ready :
      (f : Result Schedule) (i : Result (Option Schedule)) (job : Option BackupJob)
      → (scheduled show_time cluster st now config_hash volume membership pods spec f i job).started
        ≡ some s
      → Ready f i job
  started-Ready (err e) i job h = cc
  started-Ready (ok f) (err e) job h = cc
  started-Ready (ok f) (ok i) job h = elim (Bool-cases (str_eq (backup_unsupported cluster) "")) [
    | inl fine ↦ of_job job (rw fine at h) fine
    | inr old ↦ cc (rw old at h)
  ]
    where
      of_job :
          (j : Option BackupJob)
          → (unless_running show_time cluster st now config_hash volume membership pods spec f i
              j).started
            ≡ some s
          → str_eq (backup_unsupported cluster) "" ≡ true
          → Ready (ok f) (ok i) j
      of_job (some j) h fine = cc
      of_job none h fine = (
        f,
        i,
        refl,
        refl,
        str_eq→eq (backup_unsupported cluster) "" fine,
        refl,
        Goes-by_kind (decide_backup (input st now f i)) (decide_backup (input st now f i)).kind refl
            h,
      )

  pub Ready-started :
      (f : Result Schedule) (i : Result (Option Schedule)) (job : Option BackupJob)
      → Ready f i job
      → (scheduled show_time cluster st now config_hash volume membership pods spec f i job).started
        ≡ some s
  unfolding string_dec
  Ready-started f i job (fs, is, ef, ei, fine, idle, goes) =
      rw (ef, ei, fine, idle)
        (by_kind-Goes (decide_backup (input st now fs is)) (decide_backup (input st now fs is)).kind
          refl goes)

claim_text-ne-empty : (t : String) → ("PersistentVolumeClaim \"" <> t) ≢ ""
claim_text-ne-empty t n = cc (sym (cons-append "P" "ersistentVolumeClaim \"" t) ∙ n)

warned-message : (name : String) (c : Claim) (o : Option Event) → (warned name c o).message ≢ ""
warned-message name c none = claim_text-ne-empty _
warned-message name c (some e) = claim_text-ne-empty _

volume_of-message :
    (cluster : Cluster) (name : String) (events : Result (List Event)) (pvc : BoundClaim)
    → (volume_of cluster name events pvc).message ≢ ""
unfolding volume_of
volume_of-message cluster name events pvc = elim (Bool-cases (str_eq pvc.claim.phase "Bound")) [
  | inl bound ↦
      elim (Bool-cases (not (single_node cluster) && not (contains pvc.granted "ReadWriteMany"))) [
        | inl shared ↦ rw (bound, shared) (claim_text-ne-empty _)
        | inr fine ↦ rw (bound, fine) (claim_text-ne-empty _)
      ]
  | inr waiting ↦ elim (Bool-cases (str_eq pvc.claim.phase "Lost")) [
    | inl lost ↦ rw (waiting, lost) (claim_text-ne-empty _)
    | inr pending ↦ rw (waiting, pending) (warned-message name pvc.claim (warning_of events))
  ]
]

pub read_backup_volume-message :
    (cluster : Cluster) (b : BackupSpec) (reply : Reply BoundClaim) (events : Result (List Event))
    → (read_backup_volume cluster b reply events).message ≢ ""
unfolding read_backup_volume
read_backup_volume-message cluster b missing events = claim_text-ne-empty _
read_backup_volume-message cluster b (failed e) events =
    λ n. cc (sym (cons-append "r" "eading " _) ∙ n)
read_backup_volume-message cluster b (found pvc) events =
    volume_of-message cluster (backup_claim_name cluster b) events pvc
