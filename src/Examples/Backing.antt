-- ===== src/Examples/Backing.antt =====
-- The theorems on the backup pass and on the runner behind it.
use native.Mathlib.Decide.{ℕ_discrete}
use kahuna_k8s_operator.Common.{
  List, Option, String, [], arith, false, none, refl, some, string_dec, true, ◌+◌, ◌<◌, ◌↔◌, ◌∷◌,
  ◌≡◌, ◌≢◌,
}
use kahuna_k8s_operator.Api.{BackupSpec, Cluster, Condition, ReplicationSpec}
use kahuna_k8s_operator.ApiServer.{found}
use kahuna_k8s_operator.Backup.{Schedule, full}
use kahuna_k8s_operator.Backup.Images.{Version, backup_unsupported, image_version, most_nodes}
use kahuna_k8s_operator.Backup.Known.{IsKnown, Runs, reconcile_backup-IsKnown, two_backups_run}
use kahuna_k8s_operator.Backup.Results.{BackupJob}
use kahuna_k8s_operator.Backup.Runner.{
  Runner, Step, at_first, ends, finish, forget, idle, later, poll, start, starts,
}
use kahuna_k8s_operator.Backup.Starts.{IsStart, pass, started_iff}
use kahuna_k8s_operator.Backup.Table.{after_step, runner_refines, table_of, without_ticket}
use kahuna_k8s_operator.Backup.Unsupported.{IsOlder, backup_unsupported_iff}
use kahuna_k8s_operator.Backup.Verdict.{Started, targets_of, timeout_of}
use kahuna_k8s_operator.Backup.Versions.{image_text, image_version-image_text, release_tag}
use kahuna_k8s_operator.Backup.Volume.{BoundClaim}
use kahuna_k8s_operator.Common.Decimal.{decimal}
use kahuna_k8s_operator.Common.Dict.{insert, lookup}
use kahuna_k8s_operator.Examples.{info, nightly, pods, three}
use kahuna_k8s_operator.Kahuna.Errors.{Result, ok}

abbrev set : List Condition → Condition → List Condition
set conditions c = c ∷ conditions

abbrev unset : List Condition → String → List Condition
unset conditions kind = []

-- A schedule that fires every ten units of time.
abbrev every_ten : String → Result Schedule
every_ten text = ok (λ t. t + 10)

abbrev saved : Cluster
saved = record three { spec = record three.spec { backup = some nightly } }

abbrev bound : BoundClaim
bound = record {
  claim = record {
    deleting = false;
    volume_name = "pv";
    phase = "Bound";
    access_modes = "ReadWriteMany" ∷ [];
    storage_class_name = none;
    storage = 1;
  };
  granted = "ReadWriteMany" ∷ [];
}

abbrev first_start : Started
first_start = record {
  job = record { kind = full; scheduled = 100; parent = ""; result = none };
  targets = targets_of saved pods;
  timeout = timeout_of none;
}

started_iff_example :
    (pass set unset every_ten decimal saved 100 "hash" none pods idle (found bound) (ok [])).started
      ≡ some first_start
    ↔ ((spec : BackupSpec) × (f : Schedule) × (i : Option Schedule) × IsStart set unset every_ten
          decimal saved 100 "hash" none pods idle
          (found bound)
          (ok [])
          first_start
          spec
          f
          i)
started_iff_example =
    started_iff set unset every_ten decimal saved 100 "hash" none pods idle (found bound) (ok [])
      first_start

nothing_runs : IsKnown idle
unfolding lookup
nothing_runs id (job, held, runs) = cc

reconcile_backup-IsKnown_example :
    IsKnown
      (pass set unset every_ten decimal saved 100 "hash" none pods idle
        (found bound)
        (ok [])).runner
reconcile_backup-IsKnown_example =
    reconcile_backup-IsKnown set unset every_ten decimal saved 100 "hash" none pods idle
      (found bound) (ok []) refl nothing_runs

abbrev new_job : BackupJob
new_job = record { kind = full; scheduled = 10; parent = ""; result = none }

abbrev one_runs : Runner
one_runs = start "data/kahuna" new_job idle

two_backups_run_example :
    Runs (start "data/kahuna" new_job (forget "data/kahuna" one_runs)) 0
    × Runs (start "data/kahuna" new_job (forget "data/kahuna" one_runs)) one_runs.fresh
    × (0 ≢ one_runs.fresh)
unfolding start lookup insert string_dec ℕ_discrete
two_backups_run_example =
    two_backups_run one_runs (later at_first (starts "data/kahuna" new_job idle)) "data/kahuna" 0
      refl (new_job, refl, refl) new_job refl

-- The goroutine of the running job gives its result.
abbrev ending : Step one_runs (finish 0 (ok info) one_runs)
ending = ends 0 (ok info) one_runs

runner_refines_example :
    (table_of (finish 0 (ok info) one_runs) "data/kahuna"
      ≡ after_step ending one_runs.fresh (table_of one_runs) "data/kahuna")
    × ((poll "data/kahuna" (finish 0 (ok info) one_runs)).0
        ≡ without_ticket (table_of (finish 0 (ok info) one_runs) "data/kahuna"))
runner_refines_example =
    runner_refines (later at_first (starts "data/kahuna" new_job idle)) ending "data/kahuna"

image_version-image_text_example :
    image_version (image_text "registry:5000/kahuna" (release_tag true 1 12 6) (some "sha256:0f"))
    ≡ some (1, 12, 6)
image_version-image_text_example =
    image_version-image_text "registry:5000/kahuna" true 1 12 6 (some "sha256:0f") refl
      (omega arith) (omega arith) (omega arith)

-- Three nodes with fewer replicas, by an image that is too old.
abbrev held_back : Cluster
held_back = record saved {
  spec = record saved.spec { image = "kahuna:1.12.4"; replication = some (record { factor = 1 }) };
}

backup_unsupported_iff_example : (backup_unsupported held_back ≢ "") ↔ (
    (r : ReplicationSpec) × (v : Version) × (held_back.spec.replication ≡ some r)
    × (r.factor < most_nodes held_back held_back.spec.autoscaling)
    × (image_version held_back.spec.image ≡ some v)
    × IsOlder v)
backup_unsupported_iff_example = backup_unsupported_iff held_back
