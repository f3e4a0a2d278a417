-- ===== src/Runs/Execute.antt =====
-- `Run::execute` of quire-server/src/ci/run.rs. The subprocess `quire-ci` is outside: what it does
-- to the database while it runs, how it exits and which events file it leaves are a `Child`.
pub mod Finished
pub mod Kept
pub mod Ended
use quire.Prelude.{ℕ, String, Bool, true, false, Option, none, some, if◌then◌else◌}
use quire.Prelude.Int.{ℤ}
use quire.Database.{
  Db, Action, Result, ok, err, io, command_spawn_failed, process_failed, return, fail, ◌>>=◌, ◌>>◌,
}
use quire.Database.Statement.{exec, set_traceparent}
use quire.Events.{RunOutcome, run_succeeded, pipeline_failure}
use quire.Events.Ingest.{EventsFile, ingest_events}
use quire.Runs.{ApiSession, Run, dispatch, resolve}

pub record Child : Type 0 where
  -- the database as the subprocess, and others, leave it
  pub work : Db → Db
  pub success : Bool
  pub code : Option ℤ
  pub events : EventsFile

-- The outside of one call: whether the log file opens, what becomes of the spawn (`none` if it
-- fails), and two readings of the clock.
pub record ExecuteWorld : Type 0 where
  pub log_opens : Bool
  pub child : Option Child
  pub dispatch_now : ℕ
  pub resolve_now : ℕ

-- A session makes the handle dispatched, and leaves the row to the bootstrap request.
enter : Run → ExecuteWorld → Option ApiSession → Action Run
enter run w (some session) = return (record run { dispatched = true })
enter run w none = dispatch run w.dispatch_now

store_bootstrap_data : Run → Option ApiSession → Option String → Action (Unit {0})
store_bootstrap_data run none traceparent = return tt
store_bootstrap_data run (some session) traceparent = exec (set_traceparent traceparent run.id)

spawn : Option Child → Action Child
spawn none db = (err command_spawn_failed, db)
spawn (some child) db = (ok child, child.work db)

open_log : Bool → Action (Unit {0})
open_log true = return tt
open_log false = fail io

-- A failed ingestion is logged, and its outcome is `None`; what it wrote stays.
or_none : Result (Option RunOutcome) × Db → Result (Option RunOutcome) × Db
or_none (ok outcome, db) = (ok outcome, db)
or_none (err e, db) = (ok none, db)

unfoldable pub ingest_or_none : String → EventsFile → Action (Option RunOutcome)
unfolding or_none
ingest_or_none run_id file db = or_none (ingest_events run_id file db)

-- The `match run_outcome`.
conclude_by : Run → ℕ → Option ℤ → Option RunOutcome → Action (Unit {0})
conclude_by run now code (some run_succeeded) = resolve run now "succeeded" >> return tt
conclude_by run now code (some pipeline_failure) = resolve run now "failed-pipeline" >> return tt
conclude_by run now code none = resolve run now "failed-internal" >> fail (process_failed code)

conclude : Run → ℕ → Child → Option RunOutcome → Action (Unit {0})
unfolding conclude_by
conclude run now child outcome =
    if child.success
    then conclude_by run now child.code outcome
    else resolve run now "failed-internal" >> fail (process_failed child.code)

unfoldable pub execute : Run → ExecuteWorld → Option String → Option ApiSession → Action (Unit {0})
unfolding enter store_bootstrap_data spawn open_log conclude
execute run w traceparent session = do
  run' ← enter run w session
  open_log w.log_opens
  store_bootstrap_data run' session traceparent
  child ← spawn w.child
  outcome ← ingest_or_none run'.id child.events
  conclude run' w.resolve_now child outcome
