-- ===== src/Push/Trigger.antt =====
-- The server's part of CI at a push: `trigger`, `run_ref` and `run_ref_inner` of
-- quire-server/src/ci/mod.rs, and `handle_event_connection` of quire-server/src/bin/quire/server.rs
-- up to it. What git, the clock, `uuid` and the subprocess do at a ref is a `RefWorld`, one for each
-- ref that is run, and how a text or a directory is stored as a column is a parameter.
pub mod Outcome
pub mod Each
use quire.Prelude.{
  ℕ, String, Bool, true, false, Option, none, some, List, [], ◌∷◌, ◌==◌, bytes_eq, if◌then◌else◌,
}
use quire.Prelude.Bytes.{Bytes, bytes}
use quire.Database.{
  Db, Action, Result, ok, err, git, workspace_materialization_failed, return, fail, ◌>>=◌, ◌>>◌,
}
use quire.Repo.{Directory, Repo, FoundRepo, found, bad_name, repo_not_found, repo, runs_base}
use quire.Runs.{Runs, Run, RunMeta, ApiSession, CreateWorld, create}
use quire.Runs.Execute.{ExecuteWorld, execute}
use quire.Push.{PushRef, PushEvent, updated_refs}

-- `git show <sha>:.quire/ci.fnl`
pub data Source : Type 0 where
  no_file unreadable : Source
  source : Source

-- The session is minted for the ref.
pub record RefWorld : Type 0 where
  pub ci_source : Source
  pub session : ApiSession
  pub traceparent : Option String
  pub create_world : CreateWorld
  pub materializes : Bool
  pub execute_world : ExecuteWorld

unfoldable pub materialize_workspace : Bool → Action (Unit {0})
materialize_workspace true = return tt
materialize_workspace false = fail workspace_materialization_failed

unfoldable pub start_run : Runs → RefWorld → RunMeta → Action (Unit {0})
start_run runs w meta = do
  run ← create runs w.create_world meta (some w.session)
  materialize_workspace w.materializes
  execute run w.execute_world w.traceparent (some w.session)

unfoldable pub run_by_source : Source → Runs → RefWorld → RunMeta → Action (Unit {0})
run_by_source no_file runs w meta = return tt
run_by_source unreadable runs w meta = fail git
run_by_source source runs w meta = start_run runs w meta

module _ (text : Bytes → String) (stored : Directory → String) where
  abbrev pub meta_of : ℕ → PushRef → RunMeta
  meta_of pushed_at r = record {
    sha = text r.new_sha;
    ref_name = text r.ref_name;
    pushed_at = pushed_at;
  }

  -- Repo::runs
  abbrev pub runs_of : String → Repo → Runs
  runs_of db_path r = record {
    db_path = db_path;
    repo = text r.name;
    base_dir = stored (runs_base r);
  }

  unfoldable pub run_ref_inner : Runs → ℕ → RefWorld → PushRef → Action (Unit {0})
  unfolding run_by_source
  run_ref_inner runs pushed_at w push_ref =
      run_by_source w.ci_source runs w (meta_of pushed_at push_ref)

  -- An error is logged.
  unfoldable pub run_ref : Runs → ℕ → RefWorld → PushRef → Db → Db
  run_ref runs pushed_at w push_ref db = (run_ref_inner runs pushed_at w push_ref db).1

  -- The loop; the world of the n-th ref that is updated.
  unfoldable pub run_refs : Runs → ℕ → List RefWorld → List PushRef → Db → Db
  run_refs runs pushed_at (w ∷ ws) (r ∷ rs) db =
      run_refs runs pushed_at ws rs (run_ref runs pushed_at w r db)
  run_refs runs pushed_at _ _ db = db

  trigger_at : String → List RefWorld → PushEvent → FoundRepo → Db → Db
  trigger_at db_path ws event (found r) db =
      run_refs (runs_of db_path r) event.pushed_at ws (updated_refs event) db
  trigger_at db_path ws event (bad_name e) db = db
  trigger_at db_path ws event (repo_not_found name) db = db

  unfoldable pub trigger :
      (Directory → Bool) → Directory → String → List RefWorld → PushEvent → Db → Db
  unfolding trigger_at
  trigger is_dir base_dir db_path ws event db =
      trigger_at db_path ws event (repo is_dir base_dir event.repo) db

  -- The line that came, parsed, if there was one; the mirrors have no part in the database.
  handle_event : (Directory → Bool) → Directory → String → List RefWorld → PushEvent → Db → Db
  handle_event is_dir base_dir db_path ws event db =
      if event.event_type == bytes "push" then trigger is_dir base_dir db_path ws event db else db

  unfoldable pub handle_event_connection :
      (Directory → Bool) → Directory → String → List RefWorld → Option PushEvent → Db → Db
  unfolding handle_event
  handle_event_connection is_dir base_dir db_path ws none db = db
  handle_event_connection is_dir base_dir db_path ws (some event) db =
      handle_event is_dir base_dir db_path ws event db
