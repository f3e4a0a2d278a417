-- ===== src/Executor/Replay.antt =====
-- The server's replay of what `run_pipeline` emits: the first pass, that for the jobs.
use quire.Prelude.{
  ℕ, suc, ◌≤◌, String, ◌≡◌, ◌∙◌, refl, ap, sym, Bool, true, false, some, List, [], ◌∷◌, ◌++◌, arith,
  All, if◌then◌else◌, if_true, if_false, all, any, ◌==◌, string_eq, append_assoc, append-nil,
  Bool-cases, inl, inr, ◌&&◌, any-append, or_false,
}
use mathlib.Core.Path.{subst}
use quire.Database.{JobRow, Db, ok, return, ◌>>=◌}
use quire.Database.Statement.{add_job, is_job, has_id}
use quire.Events.{Event, run_finished, RunOutcome}
use quire.Events.Ingest.{JobPass, job_pass, job_pass_step, job_row, start_jobs}
use quire.Executor.{
  JobRun, event, after_calls, outcome_of, run_outcome, run_job, run_jobs, run_pipeline,
}
use quire.Executor.Round.{
  with_jobs, row_of, after_job, job_pass-run_job, add_job-ok, check_job-job_row, le-after_calls,
}

-- The rows that the jobs which run are to have.
abbrev pub expected_jobs : (ℕ → ℕ) → String → ℕ → (String → JobRun) → List String → List JobRow
expected_jobs clock run_id n run_fn [] = []
expected_jobs clock run_id n run_fn (job_id ∷ job_ids) =
    let run = run_fn job_id in
    let m = after_calls (suc n) run.calls in
    let rest = expected_jobs clock run_id (suc m) run_fn job_ids in
    job_row run_id job_id (clock n) (clock m) (outcome_of run.is_ok)
    ∷ (if run.is_ok then rest else [])

-- The job ids differ from each other.
abbrev pub AreDistinct : List String → Type 0
AreDistinct [] = Unit
AreDistinct (j ∷ js) = (any (λ k. j == k) js ≡ false) × AreDistinct js

-- No row of the run has one of the ids.
abbrev pub AreNew : String → List JobRow → List String → Type 0
AreNew run_id rows = All (λ j. any (is_job run_id j) rows ≡ false)

module _ (clock : ℕ → ℕ) (run_id : String) where
  -- What the first pass makes of the events, with the rest of them still to do.
  record Replayed (s : JobPass) (evs es : List Event) (db db' : Db) : Type 0 where
    pass : JobPass
    replays : job_pass run_id s (evs ++ es) db ≡ job_pass run_id pass es db'
    outcome : pass.run_outcome ≡ s.run_outcome

  abbrev pub next : ℕ → JobRun → ℕ
  next n run = suc (after_calls (suc n) run.calls)

  pub events-run_jobs :
      (n : ℕ) (run_fn : String → JobRun) (j : String) (js : List String)
      → (run_fn j).is_ok ≡ true
      → (run_jobs clock n run_fn (j ∷ js)).events
        ≡ (run_job clock n j (run_fn j)).events
          ++ (run_jobs clock (next n (run_fn j)) run_fn js).events
  unfolding run_jobs
  events-run_jobs n run_fn j js h = rw h refl

  pub events-run_jobs_failed :
      (n : ℕ) (run_fn : String → JobRun) (j : String) (js : List String)
      → (run_fn j).is_ok ≡ false
      → (run_jobs clock n run_fn (j ∷ js)).events ≡ (run_job clock n j (run_fn j)).events
  unfolding run_jobs
  events-run_jobs_failed n run_fn j js h = rw h refl

  AreNew-with_jobs :
      (rows : List JobRow) (j : String) (row : JobRow) (js : List String)
      → row.job_id ≡ j
      → any (λ k. j == k) js ≡ false
      → AreNew run_id rows js
      → AreNew run_id (rows ++ row ∷ []) js
  AreNew-with_jobs rows j row [] e d h = tt
  AreNew-with_jobs rows j row (k ∷ js) e d h = (
    any-append (is_job run_id k) rows (row ∷ [])
        ∙ ground (arith, h.0, subst (λ x. (x == k) ≡ false) (sym e) (or_false _ _ d).0),
    AreNew-with_jobs rows j row js e (or_false _ _ d).1 h.1,
  )

  module _ (s : JobPass) (es : List Event) (db : Db) where
    no_jobs :
        (n : ℕ) (run_fn : String → JobRun)
        → Replayed s (run_jobs clock n run_fn []).events es db (with_jobs db [])
    unfolding run_jobs
    no_jobs n run_fn = record {
      pass = s;
      replays =
          ap (λ (x : List JobRow). job_pass run_id s es (record db { jobs = x }))
            (sym (append-nil db.jobs));
      outcome = refl;
    }

    went_on :
        (n : ℕ) (run_fn : String → JobRun) (j : String) (js : List String)
        → (run_fn j).is_ok ≡ true
        → add_job (row_of clock run_id n j (run_fn j)) db
          ≡ (ok tt, with_jobs db (row_of clock run_id n j (run_fn j) ∷ []))
        → Replayed
            (after_job clock run_id s n j)
            (run_jobs clock (next n (run_fn j)) run_fn js).events
            es
            (with_jobs db (row_of clock run_id n j (run_fn j) ∷ []))
            (with_jobs
              (with_jobs db (row_of clock run_id n j (run_fn j) ∷ []))
              (expected_jobs clock run_id (next n (run_fn j)) run_fn js))
        → Replayed s
            (run_jobs clock n run_fn (j ∷ js)).events
            es
            db
            (with_jobs db (expected_jobs clock run_id n run_fn (j ∷ js)))
    went_on n run_fn j js e added ih = record {
      pass = ih.pass;
      replays =
          ap (λ (x : List Event). job_pass run_id s (x ++ es) db) (events-run_jobs n run_fn j js e)
          ∙ ap (λ (x : List Event). job_pass run_id s x db)
              (append_assoc (run_job clock n j (run_fn j)).events _ es)
          ∙ job_pass-run_job clock run_id n j (run_fn j) s _ db added
          ∙ ih.replays
          ∙ ap (λ (x : List JobRow). job_pass run_id ih.pass es (record db { jobs = x }))
              (append_assoc db.jobs (row_of clock run_id n j (run_fn j) ∷ []) _
                ∙ ap (λ (x : List JobRow). db.jobs ++ row_of clock run_id n j (run_fn j) ∷ x)
                    (sym (if_true _ _ _ e)));
      outcome = ih.outcome;
    }

    broke_off :
        (n : ℕ) (run_fn : String → JobRun) (j : String) (js : List String)
        → (run_fn j).is_ok ≡ false
        → add_job (row_of clock run_id n j (run_fn j)) db
          ≡ (ok tt, with_jobs db (row_of clock run_id n j (run_fn j) ∷ []))
        → Replayed s
            (run_jobs clock n run_fn (j ∷ js)).events
            es
            db
            (with_jobs db (expected_jobs clock run_id n run_fn (j ∷ js)))
    broke_off n run_fn j js e added = record {
      pass = after_job clock run_id s n j;
      replays =
          ap (λ (x : List Event). job_pass run_id s (x ++ es) db)
            (events-run_jobs_failed n run_fn j js e)
          ∙ job_pass-run_job clock run_id n j (run_fn j) s es db added
          ∙ ap
              (λ (x : List JobRow).
                job_pass run_id (after_job clock run_id s n j) es (record db { jobs = x }))
              (ap (λ (x : List JobRow). db.jobs ++ row_of clock run_id n j (run_fn j) ∷ x)
                (sym (if_false _ _ _ e)));
      outcome = refl;
    }

  module _ (monotone : (a b : ℕ) → a ≤ b → clock a ≤ clock b) where
    add_job-row_of :
        (n : ℕ) (j : String) (run : JobRun) (db : Db)
        → any (has_id run_id) db.runs ≡ true
        → any (is_job run_id j) db.jobs ≡ false
        → add_job (row_of clock run_id n j run) db
          ≡ (ok tt, with_jobs db (row_of clock run_id n j run ∷ []))
    add_job-row_of n j run db known new = add_job-ok (row_of clock run_id n j run) db new known (
        check_job-job_row run_id j (clock n) _ (outcome_of run.is_ok)
          (monotone n _ (omega (arith, le-after_calls (suc n) run.calls))))

    Replayed-run_jobs :
        (n : ℕ) (run_fn : String → JobRun) (js : List String) (s : JobPass) (es : List Event)
        (db : Db)
        → any (has_id run_id) db.runs ≡ true
        → AreDistinct js
        → AreNew run_id db.jobs js
        → Replayed s
            (run_jobs clock n run_fn js).events
            es
            db
            (with_jobs db (expected_jobs clock run_id n run_fn js))
    Replayed-run_jobs n run_fn [] s es db known d h = no_jobs s es db n run_fn
    Replayed-run_jobs n run_fn (j ∷ js) s es db known d h = elim (Bool-cases (run_fn j).is_ok) [
      | inl e ↦ went_on s es db n run_fn j js e (add_job-row_of n j (run_fn j) db known h.0) (
          Replayed-run_jobs (next n (run_fn j)) run_fn js (after_job clock run_id s n j) es
            (with_jobs db (row_of clock run_id n j (run_fn j) ∷ [])) known d.1
            (AreNew-with_jobs db.jobs j (row_of clock run_id n j (run_fn j)) js refl d.0 h.1))
      | inr e ↦ broke_off s es db n run_fn j js e (add_job-row_of n j (run_fn j) db known h.0)
    ]

  -- the end of the stream
  job_pass-run_finished :
      (s : JobPass) (t : ℕ) (o : RunOutcome) (db : Db)
      → job_pass run_id s (event t (run_finished o) ∷ []) db
        ≡ (ok (record s { run_outcome = some o }), db)
  unfolding job_pass job_pass_step ◌>>=◌ return
  job_pass-run_finished s t o db = refl

  all_ok-run_jobs :
      (n : ℕ) (run_fn : String → JobRun) (js : List String)
      → (run_jobs clock n run_fn js).all_ok ≡ all (λ j. (run_fn j).is_ok) js
  unfolding run_jobs run_job
  all_ok-run_jobs n run_fn [] = refl
  all_ok-run_jobs n run_fn (j ∷ js) =
      one (run_fn j).is_ok refl (all_ok-run_jobs (next n (run_fn j)) run_fn js)
    where
      one :
          (b : Bool)
          → (run_fn j).is_ok ≡ b
          → (run_jobs clock (next n (run_fn j)) run_fn js).all_ok ≡ all (λ j. (run_fn j).is_ok) js
          → (if (run_fn j).is_ok
              then record (run_jobs clock (next n (run_fn j)) run_fn js) {
                events =
                    (run_job clock n j (run_fn j)).events
                    ++ (run_jobs clock (next n (run_fn j)) run_fn js).events;
              }
              else run_job clock n j (run_fn j)).all_ok
            ≡ ((run_fn j).is_ok && all (λ j. (run_fn j).is_ok) js)
      one true e ih = rw e ih
      one false e ih = rw e refl

-- On a clock that does not go back, for a run that is in the table and a pipeline of jobs with
-- distinct ids none of which has a row, the first pass over the events of `run_pipeline` succeeds:
-- it adds a row for each job up to the first that fails, with its times and its outcome, and finds
-- the outcome of the run, a success if every job is one.
pub replay_pipeline :
    (clock : ℕ → ℕ) (run_id : String)
    → ((a b : ℕ) → a ≤ b → clock a ≤ clock b)
    → (run_fn : String → JobRun) (job_ids : List String) (db : Db)
    → any (has_id run_id) db.runs ≡ true
    → AreDistinct job_ids
    → AreNew run_id db.jobs job_ids
    → (pass : JobPass) × (job_pass run_id start_jobs (run_pipeline clock run_fn (some job_ids)) db
        ≡ (ok pass, record db { jobs = db.jobs ++ expected_jobs clock run_id 0 run_fn job_ids }))
      × (pass.run_outcome ≡ some (run_outcome (all (λ j. (run_fn j).is_ok) job_ids)))
unfolding run_pipeline
replay_pipeline clock run_id monotone run_fn [] db known d new = (
  _,
  job_pass-run_finished clock run_id start_jobs (clock 0) (run_outcome true) db
      ∙ ap
          (λ (x : List JobRow). (
            ok (record start_jobs { run_outcome = some (run_outcome true) }),
            record db { jobs = x },
          ))
          (sym (append-nil db.jobs)),
  refl,
)
replay_pipeline clock run_id monotone run_fn (j ∷ js) db known d new =
    let ran =
      Replayed-run_jobs clock run_id monotone 0 run_fn (j ∷ js) start_jobs
        (event (clock (run_jobs clock 0 run_fn (j ∷ js)).next)
            (run_finished (run_outcome (run_jobs clock 0 run_fn (j ∷ js)).all_ok))
          ∷ [])
        db known d new in
    (
      _,
      ran.replays ∙ job_pass-run_finished clock run_id ran.pass _ _ _,
      ap (λ (b : Bool). some (run_outcome b)) (all_ok-run_jobs clock run_id 0 run_fn (j ∷ js)),
    )
