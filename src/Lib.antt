-- ===== src/Lib.antt =====
-- A model of kahuna-operator, the Kubernetes operator for Kahuna clusters, and what it is proved to
-- do.
--
-- The operator runs a pass for each KahunaCluster object: it keeps the keystore and its password
-- (certificate.go), the Services, the ConfigMap with the startup script, the disruption budget
-- (resources.go, entrypoint.go) and the backup volume (backup.go), reads the committed Raft roster
-- and the replica placement from the nodes (internal/kahuna/client.go), decides the size of the
-- cluster (autoscaler.go), moves the StatefulSet toward it one safe step at a time (plan.go,
-- membership.go, kahunacluster_controller.go), takes the backups that are due (backup.go), and
-- reports what it saw (kahunacluster_controller.go). The files without a path are those of
-- internal/controller.
--
-- Which module models which code:
--   Common: Boolean tests, lists, maps, int32, decimal numbers and sorting that the code uses.
--   Api: the spec and the status (api/v1alpha1/kahunacluster_types.go) and a pod as it is read.
--   Naming: names, ports, endpoints and the desired size (internal/controller/naming.go).
--   Kahuna: the data and predicates of internal/kahuna/client.go. Kahuna.Errors has its errors,
--     Kahuna.Client the `Client` interface and Kahuna.Http the `HTTPClient`.
--   Settled: `growthCeiling`, `placementSettled` and `placementConverged`
--     (internal/controller/autoscaler.go).
--   Plan: `buildPlan`, `rosterMatches` and `rosterHoldReason` (internal/controller/plan.go).
--   Membership: `ordinalOf`, `readMembership`, `buildMemberStatus`, `countRoles` and `decommission`
--     (internal/controller/membership.go).
--   Scaling: `readPlacement` and `reconcileStatefulSet`, and Reporting: `reconcileStatus`
--     (internal/controller/kahunacluster_controller.go).
--   Autoscaler: `decideAutoscale` (internal/controller/autoscaler.go).
--   Traffic: `observeSample`, `measure` and `forget`, with `CounterTotal` and `GaugeSum` of the client,
--     and Autoscaling: `reconcileAutoscaling` (internal/controller/autoscaler.go).
--   Sizing: the part of `Reconcile` that decides the size, and Reconcile: the whole pass in its
--     order, `Reconcile` with `reconcileServices`, `reconcileConfigMap` and `reconcilePDB`
--     (internal/controller/kahunacluster_controller.go).
--   Backup: `decideBackup`, `latestDue` and the backoff; Backup.Run: `runBackup`; Backup.Results:
--     `applyBackupResult`; Backup.Runner: `backupRunner`; Backup.Gate: `backupBlocked`;
--     Backup.Claims: `claimNeedsReplacing`; Backup.Images: `imageVersion` and `backupUnsupported`;
--     Backup.Volume: `readBackupVolume`; Backup.Verdict and Backup.Pass: `reconcileBackup`;
--     Backup.Keep: `reconcileBackupResources` (internal/controller/backup.go).
--   Entrypoint: `shellQuote`, `flagName` and `withoutOverridden`; Entrypoint.Arguments:
--     `staticArgs`; Entrypoint.Script: `entrypointScript` and `topologyEnv` as text, and
--     Entrypoint.Startup: what that script does with its ordinal and the topology, which
--     Entrypoint.Topology reads from its file
--     (internal/controller/entrypoint.go).
--   Certificate: the cert-manager `Certificate` and the names of its Secrets; Certificate.Keystore: the
--     keystore's password, the replacement of a stale keystore and `certificateReady`
--     (internal/controller/certificate.go).
--   Resources: the Services, the ConfigMap, the disruption budget, the claims, the volumes and mounts,
--     and Resources.Workload: `desiredStatefulSet` (internal/controller/resources.go).
--   ApiServer: what the handlers use of the Kubernetes API for one kind of object, and
--     ApiServer.Environment: the answers that the reads and writes of a pass get.
--   Examples: concrete clusters, and an API server, that the theorems are applied to.
--
-- A definition has the name of its function in another spelling (`roster_matches` for
-- `rosterMatches`), and a loop of it is a function of its own beside it. A pointer is an Option, a
-- Go error an `err` of a result type, and a call that changes something outside is given back as a
-- value: the write to the StatefulSet, the leave requests sent, the status to store. A panic of the
-- autoscaler's pass is an outcome of its own.
--
-- What is a parameter: the answers of the nodes (a `Client`, or for `HTTPClient` a transport and a
-- JSON decoder), the floats of the autoscaler (`Autoscaler.Arithmetic`, with exact fractions as an
-- instance), the cron parser and a schedule (its `Next`, which `Backup.Walk.IsCron` describes), when
-- the context of a backup ends, the digest of the startup script, the PKCS#12 decoder's verdict on a
-- password, random keys, the printing of times, and how the API machinery sets and removes a
-- condition. The API server is one too: for Secrets and claims, of which the handlers delete some, it
-- is a state with the documented laws of create and of a delete with preconditions (`Objects` of
-- ApiServer), where a read may come from a stale cache; the other reads and writes of a pass are the
-- answers that ApiServer.Environment names.
--
-- Numbers are the natural ones. A pod's ordinal is an int32 with its wrap-around; the counts and
-- sizes of the spec and the status are taken to be at least 0 and below 2^31, as the API's
-- validation has it. Times are nanoseconds since Go's zero time. The one loop with a bound, the
-- walk over missed schedules, has the bound of the code; every other loop is over a list or, like
-- the doubling of the backoff, over the count that the code counts to. A failure's message is cut
-- at 1024 characters, where the code cuts bytes.
--
-- What is not modelled: `defaultAffinity` and the fields of the pod template that the spec only hands
-- on; `SetupWithManager`, the manager (cmd/main.go) and generated code, which hold no logic of the
-- operator; and log messages. The model of the script is of the text that the operator writes and,
-- beside it, of what bash makes of that text; that bash reads the text so is not proved. The readers of
-- Entrypoint.Quoting, Entrypoint.Words and Entrypoint.Topology take a word of it, the list of the
-- arguments and the topology file.
pub mod Common
pub mod Api
pub mod Naming
pub mod Kahuna
pub mod Settled
pub mod Plan
pub mod Membership
pub mod Scaling
pub mod Reporting
pub mod Autoscaler
pub mod Traffic
pub mod Autoscaling
pub mod Sizing
pub mod Entrypoint
pub mod ApiServer
pub mod Certificate
pub mod Backup
pub mod Resources
pub mod Reconcile
pub mod Examples
