-- ===== src/Events/Ingest/Kept.antt =====
-- What the ingestion of events keeps: a property that is kept by the two statements that it runs.
use quire.Prelude.{ℕ, String, Option, none, some, List, [], ◌∷◌}
use quire.Prelude.Int.{ℤ}
use quire.Database.{Db, JobRow, ShRow}
use quire.Database.Statement.{exec, insert_job, insert_sh}
use quire.Database.Keeps.{Keeps, Keeps-bind, keeps_rules}
use quire.Events.{Event, EventKind, job_finished, sh_finished}
use quire.Events.Ingest.{
  EventsFile, events, JobPass, ShPass, ShStart, job_pass, job_pass_step, sh_pass, sh_pass_step,
  ingest_events, finish_sh,
}

module _ (P : Db → Type 0) (keep_job : (row : JobRow) → Keeps P (exec (insert_job row)))
    (keep_sh : (row : ShRow) → Keeps P (exec (insert_sh row))) where
  Keeps-job_pass_step :
      (id : String) (at : ℕ) (k : EventKind) (s : JobPass) → Keeps P (job_pass_step id at k s)
  unfolding job_pass_step
  Keeps-job_pass_step id at (job_finished j o) s = search (keeps_rules, keep_job)
  Keeps-job_pass_step id at _ s = search keeps_rules

  Keeps-job_pass : (id : String) (s : JobPass) (es : List Event) → Keeps P (job_pass id s es)
  unfolding job_pass
  Keeps-job_pass id s [] = search keeps_rules
  Keeps-job_pass id s (e ∷ es) =
      Keeps-bind _ _ (Keeps-job_pass_step id e.at_ms e.kind s) (λ s'. Keeps-job_pass id s' es)

  Keeps-finish_sh :
      (id : String) (at : ℕ) (j : String) (x : ℤ) (o : Option ShStart) (s : ShPass)
      → Keeps P (finish_sh id at j x o s)
  Keeps-finish_sh id at j x none s = search keeps_rules
  Keeps-finish_sh id at j x (some start) s = search (keeps_rules, keep_sh)

  Keeps-sh_pass_step :
      (id : String) (at : ℕ) (k : EventKind) (s : ShPass) → Keeps P (sh_pass_step id at k s)
  unfolding sh_pass_step
  Keeps-sh_pass_step id at (sh_finished j x) s = Keeps-finish_sh id at j x _ s
  Keeps-sh_pass_step id at _ s = search keeps_rules

  Keeps-sh_pass : (id : String) (s : ShPass) (es : List Event) → Keeps P (sh_pass id s es)
  unfolding sh_pass
  Keeps-sh_pass id s [] = search keeps_rules
  Keeps-sh_pass id s (e ∷ es) =
      Keeps-bind _ _ (Keeps-sh_pass_step id e.at_ms e.kind s) (λ s'. Keeps-sh_pass id s' es)

  pub Keeps-ingest_events : (id : String) (file : EventsFile) → Keeps P (ingest_events id file)
  unfolding ingest_events
  Keeps-ingest_events id (events es) = search (keeps_rules, Keeps-job_pass, Keeps-sh_pass)
  Keeps-ingest_events id _ = search keeps_rules
