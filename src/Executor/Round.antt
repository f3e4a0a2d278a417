-- ===== src/Executor/Round.antt =====
-- The first pass of the server over the events of one job of `run_pipeline`.
use quire.Prelude.{
  ℕ, suc, ◌≤◌, String, ◌≡◌, ◌∙◌, refl, ap, sym, true, false, some, List, [], ◌∷◌, ◌++◌, arith, any,
  string_eq, ==_refl, lookup, insert, remove, lookup-insert, append_assoc,
}
use mathlib.Core.Path.{subst}
use quire.Database.{JobRow, Db, ok, return, ◌>>=◌, check_job}
use quire.Database.Keeps.{>>=-ok}
use quire.Database.Statement.{exec, add_job, is_job, has_id}
use quire.Events.{Event, job_started, job_finished, JobOutcome, succeeded, failed}
use quire.Events.Ingest.{JobPass, job_pass, job_pass_step, job_row, unwrap_or}
use quire.Executor.{
  ShCall, exited, not_spawned, JobRun, event, sh_events, after_calls, outcome_of, run_job,
}

pub le-after_calls : (n : ℕ) (calls : List ShCall) → n ≤ after_calls n calls
unfolding after_calls
le-after_calls n [] = omega arith
le-after_calls n (exited cmd exit ∷ calls) = omega (arith, le-after_calls (suc (suc n)) calls)
le-after_calls n (not_spawned cmd ∷ calls) = omega (arith, le-after_calls (suc n) calls)

pub check_job-job_row :
    (run_id job_id : String) (t at : ℕ) (o : JobOutcome)
    → t ≤ at
    → check_job (job_row run_id job_id t at o) ≡ true
unfolding check_job
check_job-job_row run_id job_id t at succeeded h = ground arith
check_job-job_row run_id job_id t at failed h = ground arith

-- the database with one more job
abbrev pub with_jobs : Db → List JobRow → Db
with_jobs db rows = record db { jobs = db.jobs ++ rows }

pub add_job-ok :
    (row : JobRow) (db : Db)
    → any (is_job row.run_id row.job_id) db.jobs ≡ false
    → any (has_id row.run_id) db.runs ≡ true
    → check_job row ≡ true
    → add_job row db ≡ (ok tt, with_jobs db (row ∷ []))
unfolding add_job
add_job-ok row db a b c = rw (a, b, c) refl

module _ (clock : ℕ → ℕ) (run_id : String) where
  -- the first pass has nothing to do at sh events
  job_pass-sh_events :
      (n : ℕ) (job_id : String) (calls : List ShCall) (s : JobPass) (es : List Event) (db : Db)
      → job_pass run_id s (sh_events clock n job_id calls ++ es) db ≡ job_pass run_id s es db
  unfolding sh_events job_pass job_pass_step ◌>>=◌
  job_pass-sh_events n job_id [] s es db = refl
  job_pass-sh_events n job_id (exited cmd exit ∷ calls) s es db =
      job_pass-sh_events (suc (suc n)) job_id calls s es db
  job_pass-sh_events n job_id (not_spawned cmd ∷ calls) s es db =
      job_pass-sh_events (suc n) job_id calls s es db

  step-finished :
      (job_id : String) (s : JobPass) (t at : ℕ) (o : JobOutcome) (db db' : Db)
      → lookup job_id s.inflight_jobs ≡ some t
      → add_job (job_row run_id job_id t at o) db ≡ (ok tt, db')
      → job_pass_step run_id at (job_finished job_id o) s db
        ≡ (ok (record s { inflight_jobs = remove job_id s.inflight_jobs }), db')
  unfolding job_pass_step exec
  step-finished job_id s t at o db db' l h =
      >>=-ok _ _ db db' tt (
        subst (λ x. add_job (job_row run_id job_id (unwrap_or x at) at o) db ≡ (ok tt, db')) (sym l)
          h)
      ∙ unfold return in refl

  job_pass-finished :
      (job_id : String) (s : JobPass) (t at : ℕ) (o : JobOutcome) (es : List Event) (db db' : Db)
      → lookup job_id s.inflight_jobs ≡ some t
      → add_job (job_row run_id job_id t at o) db ≡ (ok tt, db')
      → job_pass run_id s (event at (job_finished job_id o) ∷ es) db
        ≡ job_pass run_id (record s { inflight_jobs = remove job_id s.inflight_jobs }) es db'
  unfolding job_pass
  job_pass-finished job_id s t at o es db db' l h =
      >>=-ok _ _ db db' _ (step-finished job_id s t at o db db' l h)

  abbrev started : JobPass → String → ℕ → JobPass
  started s job_id t = record s { inflight_jobs = insert job_id t s.inflight_jobs }

  job_pass-started :
      (job_id : String) (s : JobPass) (t : ℕ) (es : List Event) (db : Db)
      → job_pass run_id s (event t (job_started job_id) ∷ es) db
        ≡ job_pass run_id (started s job_id t) es db
  unfolding job_pass job_pass_step ◌>>=◌
  job_pass-started job_id s t es db = refl

  abbrev pub row_of : ℕ → String → JobRun → JobRow
  row_of n job_id run =
      job_row run_id job_id (clock n) (clock (after_calls (suc n) run.calls)) (outcome_of run.is_ok)

  abbrev pub after_job : JobPass → ℕ → String → JobPass
  after_job s n job_id = record s {
    inflight_jobs = remove job_id (insert job_id (clock n) s.inflight_jobs);
  }

  -- all the events of one job
  pub job_pass-run_job :
      (n : ℕ) (job_id : String) (run : JobRun) (s : JobPass) (es : List Event) (db : Db)
      → add_job (row_of n job_id run) db ≡ (ok tt, with_jobs db (row_of n job_id run ∷ []))
      → job_pass run_id s ((run_job clock n job_id run).events ++ es) db
        ≡ job_pass run_id (after_job s n job_id) es (with_jobs db (row_of n job_id run ∷ []))
  unfolding run_job
  job_pass-run_job n job_id run s es db h =
      job_pass-started job_id s (clock n) _ db
      ∙ ap (λ (x : List Event). job_pass run_id (started s job_id (clock n)) x db)
          (append_assoc (sh_events clock (suc n) job_id run.calls) (last ∷ []) es)
      ∙ job_pass-sh_events (suc n) job_id run.calls (started s job_id (clock n)) (last ∷ es) db
      ∙ job_pass-finished job_id (started s job_id (clock n)) (clock n) _ _ es db _
          (lookup-insert job_id job_id (clock n) s.inflight_jobs ∙ rw (==_refl job_id) refl) h
    where
      last : Event
      last =
          event (clock (after_calls (suc n) run.calls)) (job_finished job_id (outcome_of run.is_ok))
