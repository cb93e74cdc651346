-- ===== src/Examples/Reconciling.antt =====
-- The theorems on a whole pass.
use kahuna_k8s_operator.Common.{
  List, String, [], false, none, refl, some, string_dec, ℕ, ◌+◌, ◌∷◌, ◌≡◌,
}
use kahuna_k8s_operator.Api.{Cluster, Condition}
use kahuna_k8s_operator.ApiServer.{missing}
use kahuna_k8s_operator.ApiServer.Environment.{Environment, World}
use kahuna_k8s_operator.Autoscaler.Fractions.{Fraction, fractions}
use kahuna_k8s_operator.Autoscaling.{reconcile_autoscaling}
use kahuna_k8s_operator.Backup.Claims.{Claim}
use kahuna_k8s_operator.Backup.Keep.{reconcile_backup_resources}
use kahuna_k8s_operator.Backup.Pass.{reconcile_backup}
use kahuna_k8s_operator.Backup.Runner.{Runner, forget, idle}
use kahuna_k8s_operator.Certificate.{Secret, no_match, tls_secret_name}
use kahuna_k8s_operator.Certificate.Keystore.{reconcile_certificate, reconcile_keystore_password}
use kahuna_k8s_operator.Common.Decimal.{decimal}
use kahuna_k8s_operator.Common.Dict.{erase, lookup}
use kahuna_k8s_operator.Examples.{info, nightly, spread, three}
use kahuna_k8s_operator.Examples.Server.{store}
use kahuna_k8s_operator.Kahuna.Client.{Client}
use kahuna_k8s_operator.Kahuna.Errors.{err, ok, other}
use kahuna_k8s_operator.Naming.{desired_replicas}
use kahuna_k8s_operator.Plan.Roster.{full_roster}
use kahuna_k8s_operator.Reconcile.{Ending, panicked, reconcile, returned, sooner}
use kahuna_k8s_operator.Reconcile.Pinned.{AllPinned, founding_size_stays}
use kahuna_k8s_operator.Reconcile.Requeue.{IsSoon}
use kahuna_k8s_operator.Reconcile.Whole.{reconcile-IsSoon, reconcile_keeps, world_of}
use kahuna_k8s_operator.Reporting.{reconcile_status}
use kahuna_k8s_operator.Resources.{wants_pdb}
use kahuna_k8s_operator.Scaling.{not_found, reconcile_stateful_set}
use kahuna_k8s_operator.Traffic.{Sampler, forget_samples}

-- A condition is put in front, and taken out by dropping all.
abbrev set : List Condition → Condition → List Condition
set conditions c = c ∷ conditions

abbrev unset : List Condition → String → List Condition
unset conditions kind = []

abbrev nodes : Client Fraction
nodes = record {
  membership = λ url. ok (full_roster three 3);
  health = λ url. err (other "health");
  leave = λ url. err (other "leave");
  placement = λ url. ok spread;
  metrics = λ url. err (other "metrics");
  take_coordinated_backup = λ url. ok info;
  take_incremental_backup = λ url parent. ok info;
}

-- Every write succeeds, and the StatefulSet is not there yet.
abbrev fresh_env : Environment
fresh_env = record {
  write_status = λ status. none;
  apply_certificate = λ c. no_match (other "no such kind");
  apply_service = λ name f. none;
  apply_config_map = λ c. none;
  apply_pdb = λ p. none;
  delete_pdb = none;
  set_owner = λ s. ok s;
  random = ok "random";
  random_key = ok "key";
  list_pods = ok [];
  existing = not_found;
  write_sts = λ a.
      ok (record { spec_replicas = some 3; replicas = 0; ready_replicas = 0; partition = none });
  read_claim = λ b. missing;
  claim_events = ok [];
  parse_schedule = λ text. ok (λ t. t + 10);
  show_time = decimal;
  config_hash = λ text. text;
  refuses = λ keystore password. false;
  equal_status = λ a b. false;
  set_status_condition = set;
  remove_status_condition = unset;
}

abbrev saved : Cluster
saved = record three { spec = record three.spec { backup = some nightly } }

abbrev old_claim : Claim
old_claim = record {
  deleting = false;
  volume_name = "pv";
  phase = "Bound";
  access_modes = "ReadWriteOnce" ∷ [];
  storage_class_name = none;
  storage = 1;
}

abbrev mac_key : Secret
mac_key = record { labels = []; annotations = []; entries = ("key", "k") ∷ [] }

-- A claim of other access modes is bound, and the key is there.
abbrev world : World store store
world = record {
  secret_state = ("kahuna-backup-mac", mac_key) ∷ [];
  claim_state = ("kahuna-backups", old_claim) ∷ [];
  writes = [];
}

abbrev final : Ending fractions store store fresh_env 5
final = reconcile fractions store store fresh_env 5 nodes saved idle [] world

reconcile_keeps_example :
    (lookup string_dec "kahuna-backups"
        (world_of fractions store store fresh_env 5 final).claim_state
      ≡ some old_claim)
    × (lookup string_dec "kahuna-backup-mac"
          (world_of fractions store store fresh_env 5 final).secret_state
        ≡ some mac_key)
unfolding lookup string_dec tls_secret_name
reconcile_keeps_example =
    reconcile_keeps fractions store store fresh_env 5 nodes saved idle [] world "kahuna-backups"
      "kahuna-backup-mac" old_claim mac_key refl refl refl (λ e. cc)

abbrev begun : Ending fractions store store fresh_env 5
begun = reconcile fractions store store fresh_env 5 nodes three idle [] world

abbrev delay_of : Ending fractions store store fresh_env 5 → ℕ
delay_of (returned (ok d) w r s) = d
delay_of (returned (err e) w r s) = 0
delay_of (panicked w r s) = 0

abbrev runner_of : Ending fractions store store fresh_env 5 → Runner
runner_of (returned result w r s) = r
runner_of (panicked w r s) = r

abbrev sampler_of : Ending fractions store store fresh_env 5 → Sampler fractions
sampler_of (returned result w r s) = s
sampler_of (panicked w r s) = s

reconcile-IsSoon_example : IsSoon (delay_of begun)
unfolding reconcile reconcile_keystore_password reconcile_certificate wants_pdb desired_replicas
    reconcile_backup_resources lookup string_dec reconcile_autoscaling reconcile_stateful_set
    reconcile_status reconcile_backup forget_samples erase forget sooner
reconcile-IsSoon_example =
    reconcile-IsSoon fractions store store fresh_env 5 nodes three idle (runner_of begun) []
      (sampler_of begun) world (world_of fractions store store fresh_env 5 begun) (delay_of begun)
      refl

-- Founded with three nodes, and asked for five since.
abbrev grown : Cluster
grown = record saved { spec = record saved.spec { replicas = some 5 } }

founding_size_stays_example :
    AllPinned 3
      (world_of fractions store store fresh_env 5
        (reconcile fractions store store fresh_env 5 nodes grown idle [] world)).writes
founding_size_stays_example =
    founding_size_stays fractions store store fresh_env 5 nodes grown idle [] world refl
