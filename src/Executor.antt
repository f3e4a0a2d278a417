-- ===== src/Executor.antt =====
-- `run_pipeline` of quire-ci/src/main.rs with the events that `Runtime::sh` of
-- quire-core/src/ci/runtime.rs fires: which events a run emits, in order. The clock is a function
-- of the number of events before. What a job's run-fn does is outside: a `JobRun`.
pub mod Round
pub mod Replay
pub mod Shes
pub mod Ingested
pub mod Collision
pub mod Dump
mod Tests
use quire.Prelude.{
  ℕ, suc, String, Bool, true, false, Option, none, some, List, [], ◌∷◌, ◌++◌, if◌then◌else◌,
}
use quire.Prelude.Int.{ℤ}
use quire.Events.{
  Event, EventKind, job_started, job_finished, sh_started, sh_finished, run_finished, JobOutcome,
  succeeded, failed, RunOutcome, run_succeeded, pipeline_failure,
}

-- A `(sh …)` call, by how it ends: an exit code, or no process.
pub data ShCall : Type 0 where
  exited : String → ℤ → ShCall
  not_spawned : String → ShCall

-- The calls of a run-fn, with their redacted commands, and whether it returns `Ok`.
pub record JobRun : Type 0 where
  pub calls : List ShCall
  pub is_ok : Bool

-- Events, the number of the next event, and whether every job succeeded.
pub record Emitted : Type 0 where
  pub events : List Event
  pub next : ℕ
  pub all_ok : Bool

abbrev pub event : ℕ → EventKind → Event
event at_ms kind = record { at_ms = at_ms; kind = kind }

-- The number of the next event, behind those of some calls.
unfoldable pub after_calls : ℕ → List ShCall → ℕ
after_calls n [] = n
after_calls n (exited cmd exit ∷ calls) = after_calls (suc (suc n)) calls
after_calls n (not_spawned cmd ∷ calls) = after_calls (suc n) calls

abbrev pub outcome_of : Bool → JobOutcome
outcome_of true = succeeded
outcome_of false = failed

abbrev pub run_outcome : Bool → RunOutcome
run_outcome true = run_succeeded
run_outcome false = pipeline_failure

module _ (clock : ℕ → ℕ) where
  -- the callback's `ShStarted` and, after the process, `ShFinished`
  unfoldable pub sh_events : ℕ → String → List ShCall → List Event
  sh_events n job_id [] = []
  sh_events n job_id (exited cmd exit ∷ calls) =
      event (clock n) (sh_started job_id cmd)
      ∷ event (clock (suc n)) (sh_finished job_id exit)
      ∷ sh_events (suc (suc n)) job_id calls
  sh_events n job_id (not_spawned cmd ∷ calls) =
      event (clock n) (sh_started job_id cmd) ∷ sh_events (suc n) job_id calls

  -- one round of the loop over the jobs
  unfoldable pub run_job : ℕ → String → JobRun → Emitted
  run_job n job_id run =
      let m = after_calls (suc n) run.calls in
      record {
        events =
            event (clock n) (job_started job_id)
            ∷ (sh_events (suc n) job_id run.calls
                ++ event (clock m) (job_finished job_id (outcome_of run.is_ok)) ∷ []);
        next = suc m;
        all_ok = run.is_ok;
      }

  -- the loop, which a failed job breaks
  unfoldable pub run_jobs : ℕ → (String → JobRun) → List String → Emitted
  unfolding run_job
  run_jobs n run_fn [] = record { events = []; next = n; all_ok = true }
  run_jobs n run_fn (job_id ∷ job_ids) =
      let job = run_job n job_id (run_fn job_id) in
      let rest = run_jobs job.next run_fn job_ids in
      if job.all_ok then record rest { events = job.events ++ rest.events } else job

  -- The argument is the jobs of the compiled pipeline in topological order, if it compiles.
  unfoldable pub run_pipeline : (String → JobRun) → Option (List String) → List Event
  unfolding run_jobs
  run_pipeline run_fn none = event (clock 0) (run_finished pipeline_failure) ∷ []
  run_pipeline run_fn (some []) = event (clock 0) (run_finished run_succeeded) ∷ []
  run_pipeline run_fn (some (job_id ∷ job_ids)) =
      let ran = run_jobs 0 run_fn (job_id ∷ job_ids) in
      ran.events ++ event (clock ran.next) (run_finished (run_outcome ran.all_ok)) ∷ []
