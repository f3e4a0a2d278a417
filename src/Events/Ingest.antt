-- ===== src/Events/Ingest.antt =====
-- `Run::ingest_events` of quire-server/src/ci/run.rs: two passes over the events of a run. `jobs`
-- rows come first, since `sh` rows refer to them.
pub mod Kept
use quire.Prelude.{ℕ, String, Option, none, some, List, [], ◌∷◌, lookup, insert, remove, string_eq}
use quire.Prelude.Int.{ℤ}
use quire.Database.{JobRow, ShRow, Action, io, event_stream_parse, return, fail, ◌>>=◌, ◌>>◌}
use quire.Database.Statement.{exec, insert_job, insert_sh}
use quire.Events.{
  JobOutcome, succeeded, failed, RunOutcome, EventKind, job_started, job_finished, sh_started,
  sh_finished, run_finished, Event,
}

-- The variables of the first pass.
pub record JobPass : Type 0 where
  pub inflight_jobs : List (String × ℕ)
  pub run_outcome : Option RunOutcome

pub record ShStart : Type 0 where
  pub started_at : ℕ
  pub cmd : String

-- The variable of the second pass: when a sh process of the job began, and its command.
abbrev pub ShPass : Type 0
ShPass = List (String × ShStart)

abbrev pub job_state : JobOutcome → String
job_state succeeded = "succeeded"
job_state failed = "failed"

abbrev pub unwrap_or : Option ℕ → ℕ → ℕ
unwrap_or none d = d
unwrap_or (some t) d = t

abbrev pub job_row : String → String → ℕ → ℕ → JobOutcome → JobRow
job_row run_id job_id started_at at_ms outcome = record {
  run_id = run_id;
  job_id = job_id;
  state = job_state outcome;
  exit_code = none;
  started_at_ms = some started_at;
  finished_at_ms = some at_ms;
}

unfoldable pub job_pass_step : String → ℕ → EventKind → JobPass → Action JobPass
job_pass_step run_id at_ms (job_started job_id) s =
    return (record s { inflight_jobs = insert job_id at_ms s.inflight_jobs })
job_pass_step run_id at_ms (job_finished job_id outcome) s = do
  let started_at = unwrap_or (lookup job_id s.inflight_jobs) at_ms
  exec (insert_job (job_row run_id job_id started_at at_ms outcome))
  return (record s { inflight_jobs = remove job_id s.inflight_jobs })
job_pass_step run_id at_ms (run_finished outcome) s =
    return (record s { run_outcome = some outcome })
job_pass_step run_id at_ms (sh_started job_id cmd) s = return s
job_pass_step run_id at_ms (sh_finished job_id exit_code) s = return s

unfoldable pub job_pass : String → JobPass → List Event → Action JobPass
job_pass run_id s [] = return s
job_pass run_id s (e ∷ es) = do s' ← job_pass_step run_id e.at_ms e.kind s; job_pass run_id s' es

abbrev pub sh_row : String → String → ℕ → ℕ → ℤ → String → ShRow
sh_row run_id job_id started_at at_ms exit_code cmd = record {
  run_id = run_id;
  job_id = job_id;
  started_at_ms = started_at;
  finished_at_ms = at_ms;
  exit_code = exit_code;
  cmd = cmd;
}

-- `let Some(…) = inflight_sh.remove(…) else { continue }`
abbrev pub finish_sh : String → ℕ → String → ℤ → Option ShStart → ShPass → Action ShPass
finish_sh run_id at_ms job_id exit_code none s = return s
finish_sh run_id at_ms job_id exit_code (some start) s = do
  exec (insert_sh (sh_row run_id job_id start.started_at at_ms exit_code start.cmd))
  return (remove job_id s)

unfoldable pub sh_pass_step : String → ℕ → EventKind → ShPass → Action ShPass
sh_pass_step run_id at_ms (sh_started job_id cmd) s =
    return (insert job_id (record { started_at = at_ms; cmd = cmd }) s)
sh_pass_step run_id at_ms (sh_finished job_id exit_code) s =
    finish_sh run_id at_ms job_id exit_code (lookup job_id s) s
sh_pass_step run_id at_ms (job_started job_id) s = return s
sh_pass_step run_id at_ms (job_finished job_id outcome) s = return s
sh_pass_step run_id at_ms (run_finished outcome) s = return s

unfoldable pub sh_pass : String → ShPass → List Event → Action ShPass
sh_pass run_id s [] = return s
sh_pass run_id s (e ∷ es) = do s' ← sh_pass_step run_id e.at_ms e.kind s; sh_pass run_id s' es

-- What reading `events.jsonl` gives.
pub data EventsFile : Type 0 where
  missing unreadable unparsable : EventsFile
  events : List Event → EventsFile

abbrev pub start_jobs : JobPass
start_jobs = record { inflight_jobs = []; run_outcome = none }

unfoldable pub ingest_events : String → EventsFile → Action (Option RunOutcome)
ingest_events run_id missing = return none
ingest_events run_id unreadable = fail io
ingest_events run_id unparsable = fail event_stream_parse
ingest_events run_id (events es) = do
  jobs ← job_pass run_id start_jobs es
  sh_pass run_id [] es
  return jobs.run_outcome
