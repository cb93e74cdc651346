-- ===== src/Backup/Walk.antt =====
-- The walk over missed schedule times (internal/controller/backup.go, `latestDue`), against what a
-- cron schedule is: the first time after another that is in a set of times.
use native.Mathlib.Decide.{ℕ_discrete}
use kahuna_k8s_operator.Common.{
  ℕ, zero, suc, ◌+◌, ◌≤◌, ◌<◌, ◌≡◌, refl, ◌⊎◌, inl, inr, true, Bool-cases, arith,
}
use kahuna_k8s_operator.Backup.{Schedule, is_over, walk_due, latest_due, max_missed_schedules}

-- `Next` gives the first scheduled time after another, and the zero time when there is none.
pub record IsCron (At : ℕ → Type 0) (s : Schedule) : Type 0 where
  pub lands : (t : ℕ) → 1 ≤ s t → At (s t) × (t < s t)
  pub first : (t u : ℕ) → At u → t < u → (1 ≤ s t) × (s t ≤ u)

lt_of_lt_le : {a b c : ℕ} → a < b → b ≤ c → a < c
lt_of_lt_le h k = omega arith

from_base :
    {base t due next u : ℕ} (rounds : ℕ)
    → base < t
    → (u ≤ due) ⊎ ((t + rounds ≤ due) × (next ≡ 0))
    → (u ≤ due) ⊎ ((base + rounds < due) × (next ≡ 0))
from_base rounds h (inl le) = inl le
from_base rounds h (inr (far, none_left)) = inr (omega arith, none_left)

module _ {At : ℕ → Type 0} {s : Schedule} (cron : IsCron At s) (now : ℕ) where
  open cron use {lands, first}

  -- What a walk from a due time comes to.
  abbrev Reaches : ℕ → ℕ → ℕ × ℕ → Type 0
  Reaches rounds t (due, next) =
      At due
      × (t ≤ due)
      × (due ≤ now)
      × ((next ≡ 0) ⊎ (At next × (now < next)))
      × ((u : ℕ) → At u → u ≤ now → (u ≤ due) ⊎ ((t + rounds ≤ due) × (next ≡ 0)))

  next_of : (t : ℕ) → is_over (s t) now ≡ true → (s t ≡ 0) ⊎ (At (s t) × (now < s t))
  next_of t over = elim (ℕ_discrete (s t) 0) [
    | yes z ↦ inl z
    | no nz ↦ inr ((lands t (ground arith)).0, ground arith)
  ]

  walk_due-Reaches : (rounds t : ℕ) → At t → t ≤ now → Reaches rounds t (walk_due s now rounds t)
  unfolding walk_due
  walk_due-Reaches zero t at_t le =
      (at_t, omega arith, le, inl refl, λ u at_u h. inr (omega arith, refl))
  walk_due-Reaches (suc rounds) t at_t le = elim (Bool-cases (is_over (s t) now)) [
    | inl over ↦
        rw (over, walk_due)
          (at_t, ground arith, le, next_of t over, λ u at_u h. ground (arith, first t u at_u))
    | inr more ↦
        rw (more, walk_due)
          (let (at_next, before, le_due, next, all_before) =
              walk_due-Reaches rounds (s t) (lands t (ground arith)).0 (ground arith) in
            (
              at_next,
              omega (arith, before, (lands t (ground arith)).1),
              le_due,
              next,
              λ u at_u h. ground (arith, all_before u at_u, (lands t (ground arith)).1),
            ))
  ]

  latest_due-Covers :
      (base : ℕ)
      → let (due, next) = latest_due s base now in
        ((due ≡ 0) ⊎ (At due × (base < due) × (due ≤ now)))
        × ((next ≡ 0) ⊎ (At next × (now < next)))
        × ((u : ℕ)
            → At u
            → base < u
            → u ≤ now
            → (u ≤ due) ⊎ ((base + max_missed_schedules < due) × (next ≡ 0)))
  unfolding latest_due
  latest_due-Covers base = elim (Bool-cases (is_over (s base) now)) [
    | inl over ↦
        rw (over, latest_due)
          (inl refl, next_of base over, λ u at_u lt h. ground (arith, first base u at_u))
    | inr more ↦
        rw (more, latest_due)
          (let (at_first, after) = lands base (ground arith) in
            let (at_due, far, le_due, next, covered) =
              walk_due-Reaches max_missed_schedules (s base) at_first (ground arith) in
            (
              inr (at_due, lt_of_lt_le after far, le_due),
              next,
              λ u at_u lt h. from_base max_missed_schedules after (covered u at_u h),
            ))
  ]

  -- By a cron schedule, the time that is due, if one is, is a schedule time after the base and not
  -- in the future, and the next one, if there is one, is a schedule time in the future.
  latest_due_lem :
      (base : ℕ)
      → let (due, next) = latest_due s base now in
        ((due ≡ 0) ⊎ (At due × (base < due) × (due ≤ now)))
        × ((next ≡ 0) ⊎ (At next × (now < next)))
  latest_due_lem base = ((latest_due-Covers base).0, (latest_due-Covers base).1)

  -- By a cron schedule, the time that is due is the latest: no schedule time after the base that is
  -- not in the future is after it, unless the bound on missed schedules was met, and then the time
  -- due is further from the base than the bound, and there is no next time.
  pub latest_due_covers :
      (base u : ℕ)
      → At u
      → base < u
      → u ≤ now
      → (u ≤ (latest_due s base now).0)
        ⊎ ((base + max_missed_schedules < (latest_due s base now).0)
            × ((latest_due s base now).1 ≡ 0))
  latest_due_covers base = (latest_due-Covers base).2
