-- ===== src/Backup/Delay.antt =====
-- The backoff after failed backups (internal/controller/backup.go, `backupRetryDelay`).
use kahuna_k8s_operator.Common.{
  ℕ, zero, suc, ◌*◌, ◌^◌, ◌≤◌, min, ◌≡◌, ◌∙◌, ap, ltb, Bool-cases, arith, inl, inr,
}
use kahuna_k8s_operator.Backup.{doubled, backup_retry_delay, backup_retry_initial, backup_retry_max}

power_shift : (n d : ℕ) → d * 2 * 2 ^ n ≡ d * 2 ^ suc n
power_shift n d = grind arith

power_grows : (n d : ℕ) → d ≤ d * 2 ^ n
power_grows zero d = omega arith
power_grows (suc n) d = grind (arith, power_grows n d)

min-doubled :
    (rounds d : ℕ) → min (doubled rounds d) backup_retry_max ≡ min (d * 2 ^ rounds) backup_retry_max
unfolding doubled
min-doubled zero d = ground arith
min-doubled (suc rounds) d = elim (Bool-cases (ltb d backup_retry_max)) [
  | inl below ↦
      rw below
        (min-doubled rounds (d * 2) ∙ ap (λ x. min x backup_retry_max) (power_shift rounds d))
  | inr reached ↦ rw reached (let grows = power_grows (suc rounds) d in ground arith)
]

-- The delay is one minute, doubled for every failure after the first, and at most half an hour.
pub backup_retry_delay_lem :
    (failures : ℕ)
    → backup_retry_delay (suc failures) ≡ min (backup_retry_initial * 2 ^ failures) backup_retry_max
unfolding backup_retry_delay
backup_retry_delay_lem failures =
    ap (λ n. min (doubled n backup_retry_initial) backup_retry_max) (omega arith)
    ∙ min-doubled failures backup_retry_initial
