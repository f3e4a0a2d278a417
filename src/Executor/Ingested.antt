-- ===== src/Executor/Ingested.antt =====
-- `Run::ingest_events` on what `run_pipeline` emits: both passes, and the file between them.
use quire.Prelude.{
  ℕ, suc, ◌<◌, String, ◌≡◌, ◌∙◌, refl, ap, sym, true, false, Option, some, List, [], ◌∷◌, ◌++◌,
  arith, if_true, all, any, ◌==◌, ==_refl, string_eq, append_assoc, append-nil, any-append, All,
}
use mathlib.Core.Path.{subst}
use quire.Prelude.Bytes.{Bytes}
use quire.Database.{JobRow, ShRow, Db, ok, return, ◌>>=◌}
use quire.Database.Keeps.{>>=-ok}
use quire.Database.Statement.{is_job, has_id}
use quire.Events.{Event, RunOutcome, run_finished}
use quire.Events.Ingest.{
  JobPass, ShPass, sh_pass, sh_pass_step, job_pass, start_jobs, job_row, events, EventsFile,
  ingest_events,
}
use quire.Events.Stream.{jsonl_sink, emit_all, holding, read_events}
use quire.Events.Stream.Torn.{IsWire, held, all_whole, read_events-emit_all}
use quire.Executor.{JobRun, event, outcome_of, run_outcome, run_pipeline, after_calls}
use quire.Executor.Round.{with_jobs}
use quire.Executor.Replay.{expected_jobs, AreDistinct, AreNew, replay_pipeline}
use quire.Executor.Shes.{with_sh, HasJobs, expected_sh, Before, Paired-run_jobs, clock-le}

-- No row of an sh process is of the run.
abbrev pub NoSh : String → List ShRow → Type 0
NoSh run_id rows = any (λ r. r.run_id == run_id) rows ≡ false

module _ (clock : ℕ → ℕ) (run_id : String) where
  pub Before-NoSh : (t : ℕ) (rows : List ShRow) → NoSh run_id rows → Before clock run_id t rows
  Before-NoSh t [] h = refl
  Before-NoSh t (r ∷ rows) h = ground (arith, h, Before-NoSh t rows)

  pub HasJobs-expected_jobs :
      (n : ℕ) (run_fn : String → JobRun) (js : List String) (rows : List JobRow)
      → HasJobs run_id run_fn js (rows ++ expected_jobs clock run_id n run_fn js)
  HasJobs-expected_jobs n run_fn [] rows = tt
  HasJobs-expected_jobs n run_fn (j ∷ js) rows =
      let run = run_fn j in
      let m = after_calls (suc n) run.calls in
      let row = job_row run_id j (clock n) (clock m) (outcome_of run.is_ok) in
      (
        any-append (is_job run_id j) rows _ ∙ ground (arith, ==_refl run_id, ==_refl j),
        λ e.
            subst (HasJobs run_id run_fn js)
              (append_assoc rows (row ∷ []) _
                ∙ ap (λ (x : List JobRow). rows ++ row ∷ x) (sym (if_true _ _ _ e)))
              (HasJobs-expected_jobs (suc m) run_fn js (rows ++ row ∷ [])),
      )

  sh_pass-run_finished :
      (s : ShPass) (t : ℕ) (o : RunOutcome) (db : Db)
      → sh_pass run_id s (event t (run_finished o) ∷ []) db ≡ (ok s, db)
  unfolding sh_pass sh_pass_step ◌>>=◌ return
  sh_pass-run_finished s t o db = refl

  ingest_events-passes :
      (es : List Event) (jobs : JobPass) (shes : ShPass) (db db1 db2 : Db)
      → job_pass run_id start_jobs es db ≡ (ok jobs, db1)
      → sh_pass run_id [] es db1 ≡ (ok shes, db2)
      → ingest_events run_id (events es) db ≡ (ok jobs.run_outcome, db2)
  unfolding ingest_events
  ingest_events-passes es jobs shes db db1 db2 a b =
      >>=-ok _ _ db db1 jobs a ∙ >>=-ok _ _ db1 db2 shes b ∙ unfold return in refl

  module _ (rising : (a b : ℕ) → a < b → clock a < clock b) where
    sh_pass-run_pipeline :
        (run_fn : String → JobRun) (job_ids : List String) (db : Db)
        → HasJobs run_id run_fn job_ids db.jobs
        → NoSh run_id db.sh
        → (s : ShPass) × (sh_pass run_id [] (run_pipeline clock run_fn (some job_ids)) db
            ≡ (ok s, with_sh db (expected_sh clock run_id 0 run_fn job_ids)))
    unfolding run_pipeline
    sh_pass-run_pipeline run_fn [] db has new = (
      [],
      sh_pass-run_finished [] (clock 0) _ db
          ∙ ap (λ (x : List ShRow). (ok [], record db { sh = x })) (sym (append-nil db.sh)),
    )
    sh_pass-run_pipeline run_fn (j ∷ js) db has new =
        let ran =
          Paired-run_jobs clock run_id rising 0 run_fn (j ∷ js) [] _ db has
            (Before-NoSh (clock 0) db.sh new) in
        (ran.pass, ran.pairs ∙ sh_pass-run_finished ran.pass _ _ _)

    ingest_events-run_pipeline :
        (run_fn : String → JobRun) (job_ids : List String) (db : Db)
        → any (has_id run_id) db.runs ≡ true
        → AreDistinct job_ids
        → AreNew run_id db.jobs job_ids
        → NoSh run_id db.sh
        → ingest_events run_id (events (run_pipeline clock run_fn (some job_ids))) db ≡ (
          ok (some (run_outcome (all (λ j. (run_fn j).is_ok) job_ids))),
          record db {
            jobs = db.jobs ++ expected_jobs clock run_id 0 run_fn job_ids;
            sh = db.sh ++ expected_sh clock run_id 0 run_fn job_ids;
          },
        )
    ingest_events-run_pipeline run_fn job_ids db known distinct new no_sh =
        let (jobs, replayed, outcome) =
          replay_pipeline clock run_id (clock-le clock run_id rising) run_fn job_ids db known
            distinct new in
        let db1 = with_jobs db (expected_jobs clock run_id 0 run_fn job_ids) in
        let (shes, paired) =
          sh_pass-run_pipeline run_fn job_ids db1 (HasJobs-expected_jobs 0 run_fn job_ids db.jobs)
            no_sh in
        ingest_events-passes _ jobs shes db db1 _ replayed paired
        ∙ ap
            (λ (o : Option RunOutcome).
              (ok o, with_sh db1 (expected_sh clock run_id 0 run_fn job_ids)))
            outcome

-- On a clock that rises with each event, when serde reads back the one line of each event's text, the
-- file to which `run_pipeline` writes its events is ingested whole, for a run that is in the table
-- and has no rows of jobs or sh processes yet, and jobs with distinct ids: a row is added for each
-- job up to the first that fails, and one for each process of these jobs that exited, with its
-- command, its exit code and the times of its two events; and the outcome found is a success exactly
-- if every job is one.
pub ingest_events-written :
    (clock : ℕ → ℕ) (run_id : String) (to_json : Event → Bytes) (from_json : Bytes → Option Event)
    → ((a b : ℕ) → a < b → clock a < clock b)
    → (run_fn : String → JobRun) (job_ids : List String) (db : Db)
    → All (IsWire to_json from_json) (run_pipeline clock run_fn (some job_ids))
    → any (has_id run_id) db.runs ≡ true
    → AreDistinct job_ids
    → AreNew run_id db.jobs job_ids
    → NoSh run_id db.sh
    → ingest_events run_id
        (read_events from_json (
          holding (
            held
              (emit_all to_json
                (all_whole (run_pipeline clock run_fn (some job_ids)))
                (jsonl_sink [])).1)))
        db
      ≡ (
        ok (some (run_outcome (all (λ j. (run_fn j).is_ok) job_ids))),
        record db {
          jobs = db.jobs ++ expected_jobs clock run_id 0 run_fn job_ids;
          sh = db.sh ++ expected_sh clock run_id 0 run_fn job_ids;
        },
      )
ingest_events-written clock run_id to_json from_json rising run_fn job_ids db wire known distinct
      new no_sh =
    ap (λ (f : EventsFile). ingest_events run_id f db)
      (read_events-emit_all to_json from_json (run_pipeline clock run_fn (some job_ids)) wire)
    ∙ ingest_events-run_pipeline clock run_id rising run_fn job_ids db known distinct new no_sh
