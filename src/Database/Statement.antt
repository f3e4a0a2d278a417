-- ===== src/Database/Statement.antt =====
-- The statements that write to the database, in the order in which the program's files have them:
-- quire-server/src/ci/run.rs and quire-server/src/quire/web/api.rs.
use quire.Prelude.{
  ℕ, String, Bool, true, ◌&&◌, Option, none, some, List, [], ◌∷◌, ◌++◌, any, is_some, is_none, ◌==◌,
  string_eq, nat_eq, if◌then◌else◌,
}
use quire.Database.{RunRow, JobRow, ShRow, Action, ok, err, sql_constraint, check_run, check_job}

pub data Statement : Type 0 where
  -- `cancel_existing`, at one active run
  supersede_active : ℕ → String → Statement
  -- `cancel_existing`, at the queued runs of a repository and a ref
  supersede_queued : ℕ → String → String → Statement
  -- `Runs::create`
  insert_run : RunRow → Statement
  -- `reconcile_orphans`
  orphan : ℕ → Statement
  -- `Run::dispatch`
  mark_dispatched : ℕ → String → Statement
  -- `Run::resolve`
  mark_resolved : ℕ → String → String → Statement
  -- `Run::store_bootstrap_data`
  set_traceparent : Option String → String → Statement
  -- `get_bootstrap`
  mark_bootstrapped : ℕ → String → Statement
  -- `Run::ingest_events`
  insert_job : JobRow → Statement
  insert_sh : ShRow → Statement

-- SQL's COALESCE(x, d), at a `d` that is not NULL.
abbrev pub coalesce {ℓ} : {A : Type ℓ} → Option A → A → Option A
coalesce none d = some d
coalesce (some a) d = some a

abbrev pub is_queued : RunRow → Bool
is_queued r = is_none r.dispatched_at && is_none r.resolved_at

abbrev pub is_active : RunRow → Bool
is_active r = is_some r.dispatched_at && is_none r.resolved_at

abbrev pub is_for : String → String → RunRow → Bool
is_for repo ref_name r = r.repo == repo && r.ref_name == ref_name

-- The SET clause shared by three statements.
abbrev pub resolved_row : ℕ → String → RunRow → RunRow
resolved_row now outcome r = record r {
  dispatched_at = coalesce r.dispatched_at now;
  resolved_at = coalesce r.resolved_at now;
  outcome = coalesce r.outcome outcome;
}

abbrev pub superseded_row : ℕ → RunRow → RunRow
superseded_row now r = record r {
  resolved_at = coalesce r.resolved_at now;
  outcome = coalesce r.outcome "superseded";
}

-- UPDATE runs SET f WHERE p, at the rows of the table.
unfoldable pub set_where : (RunRow → Bool) → (RunRow → RunRow) → List RunRow → List RunRow
set_where p f [] = []
set_where p f (r ∷ rs) = (if p r then f r else r) ∷ set_where p f rs

-- Whether every changed row meets the CHECK constraints.
unfoldable pub checks_where : (RunRow → Bool) → (RunRow → RunRow) → List RunRow → Bool
checks_where p f [] = true
checks_where p f (r ∷ rs) = (if p r then check_run (f r) else true) && checks_where p f rs

-- A statement takes effect whole or not at all.
unfoldable pub update_runs : (RunRow → Bool) → (RunRow → RunRow) → Action (Unit {0})
update_runs p f db =
    if checks_where p f db.runs
    then (ok tt, record db { runs = set_where p f db.runs })
    else (err sql_constraint, db)

abbrev pub has_id : String → RunRow → Bool
has_id id r = r.id == id

abbrev pub is_job : String → String → JobRow → Bool
is_job run_id job_id j = j.run_id == run_id && j.job_id == job_id

abbrev pub is_sh : ShRow → ShRow → Bool
is_sh a b = b.run_id == a.run_id && b.job_id == a.job_id && b.started_at_ms == a.started_at_ms

unfoldable pub add_run : RunRow → Action (Unit {0})
add_run row db =
    if any (has_id row.id) db.runs
    then (err sql_constraint, db)
    else if check_run row
    then (ok tt, record db { runs = db.runs ++ row ∷ [] })
    else (err sql_constraint, db)

-- PRIMARY KEY (run_id, job_id), and the foreign key into `runs`.
unfoldable pub add_job : JobRow → Action (Unit {0})
add_job row db =
    if any (is_job row.run_id row.job_id) db.jobs
    then (err sql_constraint, db)
    else if any (has_id row.run_id) db.runs && check_job row
    then (ok tt, record db { jobs = db.jobs ++ row ∷ [] })
    else (err sql_constraint, db)

-- PRIMARY KEY (run_id, job_id, started_at_ms), and the foreign key into `jobs`.
unfoldable pub add_sh : ShRow → Action (Unit {0})
add_sh row db =
    if any (is_sh row) db.sh
    then (err sql_constraint, db)
    else if any (is_job row.run_id row.job_id) db.jobs
    then (ok tt, record db { sh = db.sh ++ row ∷ [] })
    else (err sql_constraint, db)

unfoldable pub exec : Statement → Action (Unit {0})
exec (supersede_active now id) = update_runs (has_id id) (resolved_row now "superseded")
exec (supersede_queued now repo ref_name) =
    update_runs (λ r. is_for repo ref_name r && is_queued r) (superseded_row now)
exec (insert_run row) = add_run row
exec (orphan now) = update_runs (λ r. is_none r.resolved_at) (resolved_row now "failed-orphaned")
exec (mark_dispatched now id) =
    update_runs (has_id id) (λ r. record r { dispatched_at = coalesce r.dispatched_at now })
exec (mark_resolved now outcome id) = update_runs (has_id id) (resolved_row now outcome)
exec (set_traceparent traceparent id) =
    update_runs (has_id id) (λ r. record r { traceparent = traceparent })
exec (mark_bootstrapped now id) =
    update_runs (has_id id) (λ r. record r { dispatched_at = some now })
exec (insert_job row) = add_job row
exec (insert_sh row) = add_sh row
