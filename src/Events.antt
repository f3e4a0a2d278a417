-- ===== src/Events.antt =====
-- The event stream of a pipeline run: quire-core/src/ci/event.rs. How the server replays it into
-- the database is in `Ingest`.
pub mod Ingest
pub mod Stream
use quire.Prelude.{ℕ, String}
use quire.Prelude.Int.{ℤ}

pub data JobOutcome : Type 0 where
  succeeded failed : JobOutcome

pub data RunOutcome : Type 0 where
  run_succeeded pipeline_failure : RunOutcome

pub data EventKind : Type 0 where
  job_started : String → EventKind
  job_finished : String → JobOutcome → EventKind
  sh_started : String → String → EventKind
  sh_finished : String → ℤ → EventKind
  run_finished : RunOutcome → EventKind

pub record Event : Type 0 where
  pub at_ms : ℕ
  pub kind : EventKind
