-- ===== src/Runs.antt =====
-- The life of a CI run: quire-server/src/ci/run.rs, the `runs` part of it, and the run API of
-- quire-server/src/quire/web/api.rs in the child `Api`. Each method takes the times that it reads
-- from the clock, the id that `uuid` mints and the outcome of its file system calls as arguments.
-- The connection is open already.
use quire.Prelude.{
  ℕ, String, Bool, true, false, ◌&&◌, ◌||◌, Option, none, some, List, [], ◌∷◌, map, select, is_some,
  ◌==◌, string_eq, if◌then◌else◌,
}
pub mod Api
pub mod Execute
pub mod History
pub mod Pending
pub mod Unique
pub mod Created
pub mod Orphans
pub mod Race
pub mod Settled
pub mod Machine
mod Tests
use Prim.Native.String.{◌++◌ as str_append}
use quire.Database.{
  RunRow, Db, Action, Result, ok, err, Error, sql_no_rows, io, already_dispatched, already_resolved,
  return, fail, query, find_run, ◌>>=◌, ◌>>◌,
}
use quire.Database.Statement.{
  Statement, exec, supersede_active, supersede_queued, insert_run, orphan, mark_dispatched,
  mark_resolved, is_active, is_for,
}

pub record RunMeta : Type 0 where
  pub sha : String
  pub ref_name : String
  pub pushed_at : ℕ

pub record ApiSession : Type 0 where
  pub server_url : String
  pub run_token : String

pub record Runs : Type 0 where
  pub db_path : String
  pub repo : String
  pub base_dir : String

-- A handle on a row, with what it remembers of the row's state.
pub record Run : Type 0 where
  pub db_path : String
  pub id : String
  pub dispatched : Bool
  pub resolved : Bool
  pub base_dir : String

-- What `create` gets from outside: the new id, two readings of the clock, and whether the run's
-- directory can be made.
pub record CreateWorld : Type 0 where
  pub id : String
  pub cancel_now : ℕ
  pub insert_now : ℕ
  pub mkdir : Bool

-- SELECT id FROM runs WHERE … dispatched_at IS NOT NULL AND resolved_at IS NULL
unfoldable pub active_ids : String → String → List RunRow → List String
active_ids repo ref_name rows =
    map (λ (r : RunRow). r.id) (select (λ r. is_for repo ref_name r && is_active r) rows)

unfoldable pub cancel_each : ℕ → List String → Action (Unit {0})
cancel_each now [] = return tt
cancel_each now (id ∷ ids) = exec (supersede_active now id) >> cancel_each now ids

unfoldable pub cancel_existing : Runs → ℕ → String → Action (Unit {0})
cancel_existing runs now ref_name = do
  ids ← query (λ db. active_ids runs.repo ref_name db.runs)
  cancel_each now ids
  exec (supersede_queued now runs.repo ref_name)

abbrev session_token : Option ApiSession → Option String
session_token none = none
session_token (some s) = some s.run_token

abbrev pub new_row : Runs → CreateWorld → RunMeta → Option ApiSession → RunRow
new_row runs w meta session = record {
  id = w.id;
  repo = runs.repo;
  ref_name = meta.ref_name;
  sha = meta.sha;
  pushed_at_ms = meta.pushed_at;
  created_at = w.insert_now;
  dispatched_at = none;
  resolved_at = none;
  outcome = none;
  run_token = session_token session;
  traceparent = none;
}

create_dir_all : Bool → Action (Unit {0})
create_dir_all true = return tt
create_dir_all false = fail io

abbrev pub new_handle : Runs → CreateWorld → Run
new_handle runs w = record {
  db_path = runs.db_path;
  id = w.id;
  dispatched = false;
  resolved = false;
  base_dir = runs.base_dir;
}

-- The part of `create` behind `cancel_existing`.
unfoldable pub record_run : Runs → CreateWorld → RunMeta → Option ApiSession → Action Run
unfolding create_dir_all
record_run runs w meta session = do
  exec (insert_run (new_row runs w meta session))
  create_dir_all w.mkdir
  return (new_handle runs w)

unfoldable pub create : Runs → CreateWorld → RunMeta → Option ApiSession → Action Run
unfolding record_run
create runs w meta session = do
  cancel_existing runs w.cancel_now meta.ref_name
  record_run runs w meta session

unfoldable pub reconcile_orphans : ℕ → Action (Unit {0})
reconcile_orphans now = exec (orphan now)

-- `query_row` fails where no row is found.
one_row : Option RunRow → Action RunRow
one_row none = fail sql_no_rows
one_row (some r) = return r

unfoldable pub select_run : String → Action RunRow
unfolding one_row
select_run id = do row ← query (λ db. find_run id db.runs); one_row row

unfoldable pub open_run : String → String → String → Action Run
open_run db_path id base_dir = do
  row ← select_run id
  return (record {
    db_path = db_path;
    id = id;
    dispatched = is_some row.dispatched_at;
    resolved = is_some row.resolved_at;
    base_dir = base_dir;
  })

-- The handle comes back as the method leaves it; an error leaves it as it was.
unfoldable pub dispatch : Run → ℕ → Action Run
dispatch run now =
    if run.dispatched || run.resolved
    then fail already_dispatched
    else exec (mark_dispatched now run.id) >> return (record run { dispatched = true })

unfoldable pub resolve : Run → ℕ → String → Action Run
resolve run now outcome =
    if run.resolved
    then fail already_resolved
    else exec (mark_resolved now outcome run.id)
      >> return (record run { dispatched = true; resolved = true })

unfoldable pub read_meta : Run → Action RunMeta
read_meta run = do
  row ← select_run run.id
  return (record { sha = row.sha; ref_name = row.ref_name; pushed_at = row.pushed_at_ms })

unfoldable pub read_dispatched_at : Run → Action (Option ℕ)
read_dispatched_at run = do row ← select_run run.id; return row.dispatched_at

unfoldable pub read_resolved_at : Run → Action (Option ℕ)
read_resolved_at run = do row ← select_run run.id; return row.resolved_at

unfoldable pub read_outcome : Run → Action (Option String)
read_outcome run = do row ← select_run run.id; return row.outcome

-- PathBuf::join of a relative component
unfoldable pub path : Run → String
path run = str_append run.base_dir (str_append "/" run.id)
