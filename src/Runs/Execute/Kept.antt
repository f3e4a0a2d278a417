-- ===== src/Runs/Execute/Kept.antt =====
-- What `execute` keeps: a property that every statement keeps, and that the subprocess keeps.
use quire.Prelude.{ℕ, String, Bool, true, false, Option, none, some}
use quire.Prelude.Int.{ℤ}
use quire.Database.{Db, Result, ok, err}
use quire.Database.Statement.{Statement, exec}
use quire.Database.Keeps.{Keeps, Keeps-bind, keeps_rules}
use quire.Events.{RunOutcome, run_succeeded, pipeline_failure}
use quire.Events.Ingest.{EventsFile, ingest_events}
use quire.Runs.{ApiSession, Run}
use quire.Runs.History.{Keeps-dispatch, Keeps-resolve, Keeps-ingest_events}
use quire.Runs.Execute.{
  Child, ExecuteWorld, enter, store_bootstrap_data, spawn, open_log, or_none, ingest_or_none,
  conclude_by, conclude, execute,
}

-- The subprocess, if there is one, keeps the property.
abbrev pub IsKeptBy : (Db → Type 0) → Option Child → Type 0
IsKeptBy P none = Unit
IsKeptBy P (some child) = (db : Db) → P db → P (child.work db)

module _ (P : Db → Type 0) (keep : (st : Statement) → Keeps P (exec st)) where
  Keeps-spawn : (o : Option Child) → IsKeptBy P o → Keeps P (spawn o)
  unfolding spawn
  Keeps-spawn none h = record { holds = λ _ p. p }
  Keeps-spawn (some child) h = record { holds = h }

  Keeps-open_log : (b : Bool) → Keeps P (open_log b)
  unfolding open_log
  Keeps-open_log true = search keeps_rules
  Keeps-open_log false = search keeps_rules

  Keeps-enter : (run : Run) (w : ExecuteWorld) (s : Option ApiSession) → Keeps P (enter run w s)
  unfolding enter
  Keeps-enter run w none = Keeps-dispatch P (λ st _. keep st) run w.dispatch_now
  Keeps-enter run w (some s) = search keeps_rules

  Keeps-store :
      (run : Run) (s : Option ApiSession) (t : Option String)
      → Keeps P (store_bootstrap_data run s t)
  unfolding store_bootstrap_data
  Keeps-store run none t = search keeps_rules
  Keeps-store run (some s) t = keep _

  or_none-db : (r : Result (Option RunOutcome) × Db) → P r.1 → P (or_none r).1
  unfolding or_none
  or_none-db (ok o, db) h = h
  or_none-db (err e, db) h = h

  Keeps-ingest_or_none : (id : String) (f : EventsFile) → Keeps P (ingest_or_none id f)
  unfolding ingest_or_none
  Keeps-ingest_or_none id f = record {
    holds = λ db h.
        or_none-db (ingest_events id f db)
          ((Keeps-ingest_events P (λ st _. keep st) id f).holds db h);
  }

  Keeps-conclude_by :
      (run : Run) (now : ℕ) (code : Option ℤ) (o : Option RunOutcome)
      → Keeps P (conclude_by run now code o)
  unfolding conclude_by
  Keeps-conclude_by run now code (some run_succeeded) =
      search (keeps_rules, Keeps-resolve P (λ st _. keep st))
  Keeps-conclude_by run now code (some pipeline_failure) =
      search (keeps_rules, Keeps-resolve P (λ st _. keep st))
  Keeps-conclude_by run now code none = search (keeps_rules, Keeps-resolve P (λ st _. keep st))

  Keeps-conclude :
      (run : Run) (now : ℕ) (child : Child) (o : Option RunOutcome)
      → Keeps P (conclude run now child o)
  unfolding conclude
  Keeps-conclude run now child o =
      search (keeps_rules, Keeps-conclude_by, Keeps-resolve P (λ st _. keep st))

  pub Keeps-execute :
      (run : Run) (w : ExecuteWorld) (t : Option String) (s : Option ApiSession)
      → IsKeptBy P w.child
      → Keeps P (execute run w t s)
  unfolding execute
  Keeps-execute run w t s h = Keeps-bind _ _ (Keeps-enter run w s) (λ run'.
      Keeps-bind _ _ (Keeps-open_log w.log_opens) (λ _. Keeps-bind _ _ (Keeps-store run' s t) (λ _.
        Keeps-bind _ _ (Keeps-spawn w.child h) (λ child.
          Keeps-bind _ _ (Keeps-ingest_or_none run'.id child.events)
            (λ o. Keeps-conclude run' w.resolve_now child o)))))
