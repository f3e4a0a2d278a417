-- ===== src/Executor/Collision.antt =====
-- Two sh processes of a job that start in one millisecond have one key in the table `sh`.
use quire.Prelude.{
  ℕ, suc, ◌≤◌, String, ◌≡◌, ◌∙◌, refl, ap, sym, true, some, List, [], ◌∷◌, ◌++◌, arith, if_true,
  any, ==_refl, string_eq, nat_eq, any-append, append_assoc, append-nil, eqb_iff, Bool-cases, inl,
  inr,
}
use quire.Prelude.Int.{ℤ}
use mathlib.Core.Path.{subst}
use quire.Database.{ShRow, Db, ok, err, sql_constraint, return, ◌>>=◌}
use quire.Database.Keeps.{>>=-ok, >>=-err}
use quire.Database.Statement.{exec, add_sh, is_sh, is_job, has_id}
use quire.Events.{Event, succeeded, job_started, job_finished, sh_finished, run_finished}
use quire.Events.Ingest.{
  ShPass, JobPass, sh_pass, sh_pass_step, finish_sh, sh_row, job_pass, start_jobs, events,
  ingest_events,
}
use quire.Executor.{
  ShCall, exited, JobRun, event, sh_events, run_job, run_jobs, run_pipeline, run_outcome,
  after_calls, outcome_of,
}
use quire.Executor.Round.{with_jobs}
use quire.Executor.Replay.{
  expected_jobs, AreDistinct, AreNew, next, replay_pipeline, events-run_jobs,
  events-run_jobs_failed,
}
use quire.Executor.Shes.{
  with_sh, add_sh-ok, row_of_call, started_sh, sh_pass-started, sh_pass-finished, lookup-started,
}
use quire.Executor.Ingested.{NoSh, Before-NoSh, HasJobs-expected_jobs}

-- A job that runs no process and succeeds, as the built-in `quire/push` does.
abbrev pub idle : JobRun
idle = record { calls = []; is_ok = true }

module _ (clock : ℕ → ℕ) (run_id j : String) where
  add_sh-taken :
      (row row' : ShRow) (db : Db)
      → is_sh row row' ≡ true
      → add_sh row (with_sh db (row' ∷ [])) ≡ (err sql_constraint, with_sh db (row' ∷ []))
  unfolding add_sh
  add_sh-taken row row' db e =
      if_true _ _ _ (any-append (is_sh row) db.sh (row' ∷ []) ∙ ground (arith, e))

  finish_sh-taken :
      (n : ℕ) (cmd : String) (exit : ℤ) (s : ShPass) (db : Db)
      → add_sh (row_of_call clock run_id n j cmd exit) db ≡ (err sql_constraint, db)
      → finish_sh run_id
          (clock (suc n))
          j
          exit
          (some (record { started_at = clock n; cmd = cmd }))
          s
          db
        ≡ (err sql_constraint, db)
  unfolding row_of_call exec
  finish_sh-taken n cmd exit s db taken = >>=-err _ _ db db sql_constraint taken

  sh_pass-taken :
      (n : ℕ) (cmd : String) (exit : ℤ) (s : ShPass) (es : List Event) (db : Db)
      → add_sh (row_of_call clock run_id n j cmd exit) db ≡ (err sql_constraint, db)
      → sh_pass run_id
          (started_sh clock run_id n j cmd s)
          (event (clock (suc n)) (sh_finished j exit) ∷ es)
          db
        ≡ (err sql_constraint, db)
  unfolding sh_pass sh_pass_step
  sh_pass-taken n cmd exit s es db taken = >>=-err _ _ db db sql_constraint (
      ap (λ o. finish_sh run_id (clock (suc n)) j exit o (started_sh clock run_id n j cmd s) db)
        (lookup-started clock run_id n j cmd s)
      ∙ finish_sh-taken n cmd exit (started_sh clock run_id n j cmd s) db taken)

  same_key :
      (n : ℕ) (a b : String) (x y : ℤ)
      → clock n ≡ clock (suc (suc n))
      → is_sh (row_of_call clock run_id (suc (suc n)) j b y) (row_of_call clock run_id n j a x)
        ≡ true
  unfolding row_of_call
  same_key n a b x y same =
      ground (arith, ==_refl run_id, ==_refl j, (eqb_iff (clock n) (clock (suc (suc n)))).1 same)

  sh_pass-same_ms :
      (n : ℕ) (a b : String) (x y : ℤ) (calls : List ShCall) (s : ShPass) (es : List Event)
      (db : Db)
      → clock n ≡ clock (suc (suc n))
      → any (is_job run_id j) db.jobs ≡ true
      → NoSh run_id db.sh
      → sh_pass run_id s (sh_events clock n j (exited a x ∷ exited b y ∷ calls) ++ es) db
        ≡ (err sql_constraint, with_sh db (row_of_call clock run_id n j a x ∷ []))
  unfolding sh_events
  sh_pass-same_ms n a b x y calls s es db same known new =
      let row = row_of_call clock run_id n j a x in
      sh_pass-started clock run_id n j a s _ db
      ∙ sh_pass-finished clock run_id n j a x s _ db (
          unfold row_of_call in
          add_sh-ok clock run_id row db refl (Before-NoSh clock run_id (clock n) db.sh new) known)
      ∙ sh_pass-started clock run_id (suc (suc n)) j b _ _ (with_sh db (row ∷ []))
      ∙ sh_pass-taken (suc (suc n)) b y _ _ (with_sh db (row ∷ [])) (
          add_sh-taken (row_of_call clock run_id (suc (suc n)) j b y) row db
            (same_key n a b x y same))

  abbrev idle_events : String → List Event
  idle_events p = event (clock 0) (job_started p) ∷ event (clock 1) (job_finished p succeeded) ∷ []

  -- the events of the jobs behind the first
  events_from_second :
      (run_fn : String → JobRun) (js : List String)
      → (more : List Event) × ((run_jobs clock 2 run_fn (j ∷ js)).events
          ≡ (run_job clock 2 j (run_fn j)).events ++ more)
  events_from_second run_fn js = elim (Bool-cases (run_fn j).is_ok) [
    | inl e ↦ (_, events-run_jobs clock run_id 2 run_fn j js e)
    | inr e ↦ ([], events-run_jobs_failed clock run_id 2 run_fn j js e ∙ sym (append-nil _))
  ]

  -- the events begin with those of the first two jobs, the first of which runs no process
  run_pipeline-first_two :
      (run_fn : String → JobRun) (p : String) (js : List String)
      → run_fn p ≡ idle
      → (rest : List Event) × (run_pipeline clock run_fn (some (p ∷ j ∷ js))
          ≡ idle_events p ++ (run_job clock 2 j (run_fn j)).events ++ rest)
  unfolding run_pipeline run_job sh_events after_calls
  run_pipeline-first_two run_fn p js quiet =
      let ran = run_jobs clock 0 run_fn (p ∷ j ∷ js) in
      let last = event (clock ran.next) (run_finished (run_outcome ran.all_ok)) ∷ [] in
      let (more, second) = events_from_second run_fn js in
      (
        more ++ last,
        ap (λ (x : List Event). x ++ last)
              (events-run_jobs clock run_id 0 run_fn p (j ∷ js) (ap (λ (x : JobRun). x.is_ok) quiet)
                ∙ ap
                    (λ (x : JobRun).
                      (run_job clock 0 p x).events
                      ++ (run_jobs clock (next clock run_id 0 x) run_fn (j ∷ js)).events)
                    quiet
                ∙ ap (λ (x : List Event). idle_events p ++ x) second)
            ∙ ap (λ (x : List Event). idle_events p ++ x)
                (append_assoc (run_job clock 2 j (run_fn j)).events more last),
      )

  sh_pass-run_job :
      (n : ℕ) (run : JobRun) (a b : String) (x y : ℤ) (calls : List ShCall) (es : List Event)
      (db : Db)
      → run.calls ≡ exited a x ∷ exited b y ∷ calls
      → clock (suc n) ≡ clock (suc (suc (suc n)))
      → any (is_job run_id j) db.jobs ≡ true
      → NoSh run_id db.sh
      → sh_pass run_id [] ((run_job clock n j run).events ++ es) db
        ≡ (err sql_constraint, with_sh db (row_of_call clock run_id (suc n) j a x ∷ []))
  unfolding run_job sh_pass sh_pass_step ◌>>=◌ return
  sh_pass-run_job n run a b x y calls es db shape same known new =
      let last =
        event (clock (after_calls (suc n) run.calls)) (job_finished j (outcome_of run.is_ok))
        ∷ es in
      ap (λ (z : List Event). sh_pass run_id [] z db)
        (append_assoc (sh_events clock (suc n) j run.calls) _ es)
      ∙ subst
          (λ (z : List ShCall).
            sh_pass run_id [] (sh_events clock (suc n) j z ++ last) db
            ≡ (err sql_constraint, with_sh db (row_of_call clock run_id (suc n) j a x ∷ [])))
          (sym shape) (sh_pass-same_ms (suc n) a b x y calls [] last db same known new)

  sh_pass-idle :
      (p : String) (es : List Event) (db : Db)
      → sh_pass run_id [] (idle_events p ++ es) db ≡ sh_pass run_id [] es db
  unfolding sh_pass sh_pass_step ◌>>=◌ return
  sh_pass-idle p es db = refl

  ingest_events-second_pass :
      (es : List Event) (jobs : JobPass) (db db1 db2 : Db)
      → job_pass run_id start_jobs es db ≡ (ok jobs, db1)
      → sh_pass run_id [] es db1 ≡ (err sql_constraint, db2)
      → ingest_events run_id (events es) db ≡ (err sql_constraint, db2)
  unfolding ingest_events
  ingest_events-second_pass es jobs db db1 db2 a b =
      >>=-ok _ _ db db1 jobs a ∙ >>=-err _ _ db1 db2 sql_constraint b

-- When the first job of a pipeline runs no process and succeeds, as the built-in `quire/push` does, the
-- first two processes of the second job exit, and both start in one millisecond, the ingestion of the
-- run's events fails at the key of the second process, however the jobs end: every row of a job is
-- there, but of the processes only the first.
pub ingest_events-same_ms :
    (clock : ℕ → ℕ) (run_id p j : String)
    → ((a b : ℕ) → a ≤ b → clock a ≤ clock b)
    → (run_fn : String → JobRun) (js : List String) (a b : String) (x y : ℤ) (calls : List ShCall)
      (db : Db)
    → run_fn p ≡ idle
    → (run_fn j).calls ≡ exited a x ∷ exited b y ∷ calls
    → clock 3 ≡ clock 5
    → any (has_id run_id) db.runs ≡ true
    → AreDistinct (p ∷ j ∷ js)
    → AreNew run_id db.jobs (p ∷ j ∷ js)
    → NoSh run_id db.sh
    → ingest_events run_id (events (run_pipeline clock run_fn (some (p ∷ j ∷ js)))) db ≡ (
      err sql_constraint,
      record db {
        jobs = db.jobs ++ expected_jobs clock run_id 0 run_fn (p ∷ j ∷ js);
        sh = db.sh ++ sh_row run_id j (clock 3) (clock 4) x a ∷ [];
      },
    )
unfolding row_of_call
ingest_events-same_ms clock run_id p j monotone run_fn js a b x y calls db quiet shape same known
      distinct new no_sh =
    let (jobs, replayed, _) =
      replay_pipeline clock run_id monotone run_fn (p ∷ j ∷ js) db known distinct new in
    let db1 = with_jobs db (expected_jobs clock run_id 0 run_fn (p ∷ j ∷ js)) in
    let (rest, first) = run_pipeline-first_two clock run_id j run_fn p js quiet in
    let here = HasJobs-expected_jobs clock run_id 0 run_fn (p ∷ j ∷ js) db.jobs in
    ingest_events-second_pass clock run_id j _ jobs db db1 _ replayed (
      ap (λ (z : List Event). sh_pass run_id [] z db1) first
      ∙ sh_pass-idle clock run_id j p _ db1
      ∙ sh_pass-run_job clock run_id j 2 (run_fn j) a b x y calls rest db1 shape same
          (here.1 (ap (λ (z : JobRun). z.is_ok) quiet)).0 no_sh)
