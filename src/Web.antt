-- ===== src/Web.antt =====
-- The web pages of quire-server/src/quire/web. Here: format.rs. Texts are lists of code points. A
-- number in a text is written by `decimal`, an argument; the clock is one too. The pages' helpers
-- are in `Pages`, what they read of git in `Git` and `Tree`.
pub mod Durations
pub mod Pages
pub mod States
pub mod Escape
pub mod Git
pub mod Tree
pub mod Commit
pub mod Ci
pub mod Home
pub mod Routes
pub mod Repos
mod Tests
use quire.Prelude.{
  ℕ, zero, suc, ◌-◌, ◌/◌, ◌%◌, String, Bool, Option, none, some, List, [], ◌∷◌, ◌++◌, eqb, leb, ltb,
  ◌==◌, string_eq, is_some, if◌then◌else◌,
}
use quire.Prelude.Bytes.{Bytes, bytes}
use quire.Prelude.Int.{ℤ, pos, negsuc, sub_ℕ}

-- The texts of `relative_label`, with their numbers.
pub data RelativeLabel : Type 0 where
  years months weeks days hours minutes : ℕ → RelativeLabel
  just_now : RelativeLabel

-- `secs` is not negative, as the caller has `.max(0)`.
unfoldable pub relative_label : ℕ → RelativeLabel
relative_label secs =
    let mins = secs / 60 in
    let hrs = mins / 60 in
    let ds = hrs / 24 in
    if leb 365 ds
    then years (ds / 365)
    else if leb 30 ds
    then months (ds / 30)
    else if leb 7 ds
    then weeks (ds / 7)
    else if leb 1 ds
    then days ds
    else if leb 1 hrs
    then hours hrs
    else if leb 1 mins
    then minutes mins
    else just_now

-- The texts of `format_ms_duration`.
pub data DurationLabel : Type 0 where
  millis seconds : ℕ → DurationLabel
  minutes_seconds hours_minutes days_hours : ℕ → ℕ → DurationLabel

-- `.max(0)`
abbrev pub max_zero : ℤ → ℕ
max_zero (pos n) = n
max_zero (negsuc n) = 0

duration_label : ℕ → DurationLabel
duration_label ms =
    let total_secs = ms / 1000 in
    let hrs = total_secs / 3600 in
    let mins = (total_secs % 3600) / 60 in
    let secs = total_secs % 60 in
    if eqb total_secs 0
    then millis ms
    else if ltb 0 hrs
    then if ltb 0 (hrs / 24) then days_hours (hrs / 24) (hrs % 24) else hours_minutes hrs mins
    else if ltb 0 mins
    then minutes_seconds mins secs
    else seconds secs

unfoldable pub format_ms_duration : ℤ → DurationLabel
unfolding duration_label
format_ms_duration ms = duration_label (max_zero ms)

-- `none` is the dash that stands for no duration.
unfoldable pub format_duration : Option ℕ → Option ℕ → Option DurationLabel
format_duration (some s) (some e) = some (format_ms_duration (sub_ℕ e s))
format_duration _ _ = none

module _ (decimal : ℕ → Bytes) where
  abbrev pub relative_text : RelativeLabel → Bytes
  relative_text (years n) = decimal n ++ bytes "y ago"
  relative_text (months n) = decimal n ++ bytes "mo ago"
  relative_text (weeks n) = decimal n ++ bytes "w ago"
  relative_text (days n) = decimal n ++ bytes "d ago"
  relative_text (hours n) = decimal n ++ bytes "h ago"
  relative_text (minutes n) = decimal n ++ bytes "m ago"
  relative_text just_now = bytes "just now"

  abbrev pub duration_text : DurationLabel → Bytes
  duration_text (millis n) = decimal n ++ bytes "ms"
  duration_text (seconds s) = decimal s ++ bytes "s"
  duration_text (minutes_seconds m s) = decimal m ++ bytes "m " ++ decimal s ++ bytes "s"
  duration_text (hours_minutes h m) = decimal h ++ bytes "h " ++ decimal m ++ bytes "m"
  duration_text (days_hours d h) = decimal d ++ bytes "d " ++ decimal h ++ bytes "h"

state_of : Option String → Bool → String
state_of (some o) dispatched =
    if o == "succeeded" then "succeeded" else if o == "superseded" then "superseded" else "failed"
state_of none dispatched = if dispatched then "active" else "queued"

unfoldable pub derive_run_state : Option String → Option ℕ → String
unfolding state_of
derive_run_state outcome dispatched_at = state_of outcome (is_some dispatched_at)

unfoldable pub state_class : String → String
state_class state =
    if state == "succeeded" then "c-ok" else if state == "failed" then "c-bad" else "c-muted"
