-- ===== src/Web/Durations.antt =====
-- How far the labels of times and durations are from what they stand for.
use quire.Prelude.{
  ℕ, ◌+◌, ◌*◌, ◌/◌, ◌%◌, ◌≤◌, ◌<◌, ◌≡◌, refl, inl, inr, eqb, leb, ltb, arith, Bool-cases,
}
use quire.Prelude.Int.{ℤ}
use quire.Web.{
  RelativeLabel, years, months, weeks, days, hours, minutes, just_now, relative_label,
  DurationLabel, millis, seconds, minutes_seconds, hours_minutes, days_hours, duration_label,
  format_ms_duration, max_zero,
}

-- The label's numbers are in their ranges, and the time in milliseconds is the label's, rounded
-- down to its last unit.
abbrev pub Measures : ℕ → DurationLabel → Type 0
Measures ms (millis n) = (n ≡ ms) × (n < 1000)
Measures ms (seconds s) = (1 ≤ s) × (s < 60) × (s * 1000 ≤ ms) × (ms < (s + 1) * 1000)
Measures ms (minutes_seconds m s) =
    (1 ≤ m) × (m < 60) × (s < 60) × ((m * 60 + s) * 1000 ≤ ms) × (ms < (m * 60 + s + 1) * 1000)
Measures ms (hours_minutes h m) =
    (1 ≤ h) × (h < 24) × (m < 60) × ((h * 60 + m) * 60000 ≤ ms) × (ms < (h * 60 + m + 1) * 60000)
Measures ms (days_hours d h) =
    (1 ≤ d) × (h < 24) × ((d * 24 + h) * 3600000 ≤ ms) × (ms < (d * 24 + h + 1) * 3600000)

duration_label-Measures : (ms : ℕ) → Measures ms (duration_label ms)
unfolding duration_label
duration_label-Measures ms = elim (Bool-cases (eqb (ms / 1000) 0)) [
  | inl e ↦ rw e (refl, ground arith)
  | inr e ↦ rw e (elim (Bool-cases (ltb 0 (ms / 1000 / 3600))) [
    | inl h ↦ rw h (elim (Bool-cases (ltb 0 (ms / 1000 / 3600 / 24))) [
      | inl d ↦ rw d (ground arith, ground arith, ground arith, ground arith)
      | inr d ↦ rw d (ground arith, ground arith, ground arith, ground arith, ground arith)
    ])
    | inr h ↦ rw h (elim (Bool-cases (ltb 0 (ms / 1000 % 3600 / 60))) [
      | inl m ↦ rw m (ground arith, ground arith, ground arith, ground arith, ground arith)
      | inr m ↦ rw m (ground arith, ground arith, ground arith, ground arith)
    ])
  ])
]

-- The label of a duration has its numbers in their ranges, below a thousand for milliseconds, 60 for
-- minutes and seconds and 24 for hours, and the duration is the label's, rounded down to its last
-- unit; a negative duration is labelled as 0.
pub format_ms_duration-Measures : (ms : ℤ) → Measures (max_zero ms) (format_ms_duration ms)
unfolding format_ms_duration
format_ms_duration-Measures ms = duration_label-Measures (max_zero ms)

-- The label has a number of its unit, no more than the next larger unit allows, and the seconds
-- are that many of the unit, rounded down.
abbrev pub IsAgo : ℕ → RelativeLabel → Type 0
IsAgo secs (years n) = (1 ≤ n) × (n * 31536000 ≤ secs) × (secs < (n + 1) * 31536000)
IsAgo secs (months n) = (1 ≤ n) × (n ≤ 12) × (n * 2592000 ≤ secs) × (secs < (n + 1) * 2592000)
IsAgo secs (weeks n) = (1 ≤ n) × (n ≤ 4) × (n * 604800 ≤ secs) × (secs < (n + 1) * 604800)
IsAgo secs (days n) = (1 ≤ n) × (n < 7) × (n * 86400 ≤ secs) × (secs < (n + 1) * 86400)
IsAgo secs (hours n) = (1 ≤ n) × (n < 24) × (n * 3600 ≤ secs) × (secs < (n + 1) * 3600)
IsAgo secs (minutes n) = (1 ≤ n) × (n < 60) × (n * 60 ≤ secs) × (secs < (n + 1) * 60)
IsAgo secs just_now = secs < 60

-- The label of a time that lies some seconds back has at least one of its unit, at most 12 months, 4
-- weeks, 6 days, 23 hours or 59 minutes, and the seconds are that many of the unit, of 365 days for
-- a year and 30 for a month, rounded down; it says just now within the first minute.
pub relative_label-IsAgo : (secs : ℕ) → IsAgo secs (relative_label secs)
unfolding relative_label
relative_label-IsAgo secs = elim (Bool-cases (leb 365 (secs / 60 / 60 / 24))) [
  | inl e ↦ rw e (ground arith, ground arith, ground arith)
  | inr y ↦ rw y (elim (Bool-cases (leb 30 (secs / 60 / 60 / 24))) [
    | inl e ↦ rw e (ground arith, ground arith, ground arith, ground arith)
    | inr mo ↦ rw mo (elim (Bool-cases (leb 7 (secs / 60 / 60 / 24))) [
      | inl e ↦ rw e (ground arith, ground arith, ground arith, ground arith)
      | inr w ↦ rw w (elim (Bool-cases (leb 1 (secs / 60 / 60 / 24))) [
        | inl e ↦ rw e (ground arith, ground arith, ground arith, ground arith)
        | inr d ↦ rw d (elim (Bool-cases (leb 1 (secs / 60 / 60))) [
          | inl e ↦ rw e (ground arith, ground arith, ground arith, ground arith)
          | inr h ↦ rw h (elim (Bool-cases (leb 1 (secs / 60))) [
            | inl e ↦ rw e (ground arith, ground arith, ground arith, ground arith)
            | inr m ↦ rw m (ground arith)
          ])
        ])
      ])
    ])
  ])
]
