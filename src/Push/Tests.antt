-- ===== src/Push/Tests.antt =====
-- A push at concrete inputs: a repository `app.git` with a main branch, and two mirrors.
use quire.Prelude.{
  ◌+◌, String, ◌≡◌, refl, Bool, true, false, if◌then◌else◌, none, some, List, [], ◌∷◌, ◌++◌, length,
  ◌==◌, bytes_eq,
}
use quire.Prelude.Int.{pos}
use quire.Prelude.Bytes.{Bytes, bytes}
use quire.Database.{
  RunRow, Db, err, workspace_materialization_failed, check_run, known_outcome, ◌>>=◌,
}
use quire.Database.Statement.{exec, update_runs, checks_where, set_where, add_run}
use quire.Database.History.{Extends}
use quire.Events.{run_finished, run_succeeded}
use quire.Events.Ingest.{events, ingest_events, job_pass, job_pass_step, sh_pass, sh_pass_step}
use quire.Secret.{ReadResult, contents, file}
use quire.Repo.{
  Directory, new, path, look_up, repo, from_str, is_empty, split, is_bad_segment, join, walk,
}
use quire.Runs.{
  Runs, ApiSession, CreateWorld, new_row, create, cancel_existing, cancel_each, active_ids,
  new_handle, record_run, dispatch, resolve,
}
use quire.Runs.Pending.{NonePending}
use quire.Runs.Execute.{Child, execute, ingest_or_none}
use quire.Runs.Execute.Finished.{IsSettled}
use quire.Push.{PushRef, new_event}
use quire.Push.Hook.{parse_line, post_receive}
use quire.Push.Hook.Lines.{ref_line, written, parse_line-spaced, post_receive-written}
use quire.Push.Trigger.{
  start_run, materialize_workspace, source, RefWorld, run_ref_inner, run_refs, trigger, meta_of,
}
use quire.Push.Trigger.Outcome.{
  Grows, trigger-Extends, run_ref_inner-IsSettled, run_ref_inner-unresolved,
}
use quire.Push.Trigger.Each.{trigger_created}
use quire.Push.Mirror.{GitRun, exited, Mirrors, Secrets, push_ref, done, resolve_ref}
use quire.Push.Mirror.Partition.{accepting, failures_of, push_ref-verdicts}

abbrev main_ref : PushRef
main_ref = record {
  ref_name = bytes "refs/heads/main";
  old_sha = bytes "abc";
  new_sha = bytes "def";
}

post_receive-written_example :
    post_receive (bytes "app.git") 7 (written (main_ref ∷ []))
    ≡ some (new_event (bytes "app.git") 7 (main_ref ∷ []))
post_receive-written_example =
    post_receive-written (bytes "app.git") 7 (main_ref ∷ []) ((refl, refl, refl), tt)

spaced_ref_dropped :
    parse_line (
      ref_line (record {
        ref_name = bytes "refs/heads/a" ++ 160 ∷ bytes "b";
        old_sha = bytes "abc";
        new_sha = bytes "def";
      }))
    ≡ none
spaced_ref_dropped =
    parse_line-spaced (bytes "abc") (bytes "def") (bytes "refs/heads/a") (bytes "b") 160 refl refl
      refl refl refl

abbrev text : Bytes → String
text s =
    if s == bytes "refs/heads/main"
    then "refs/heads/main"
    else if s == bytes "app.git"
    then "app.git"
    else "def"

abbrev stored : Directory → String
stored d = "runs/app.git"

abbrev runs : Runs
runs = record { db_path = "quire.db"; repo = "app.git"; base_dir = "runs/app.git" }

abbrev session : ApiSession
session = record { server_url = "http://127.0.0.1:3000"; run_token = "token" }

abbrev child : Child
child = record {
  work = λ db. db;
  success = true;
  code = some (pos 0);
  events = events (record { at_ms = 14; kind = run_finished run_succeeded } ∷ []);
}

abbrev create_world : CreateWorld
create_world = record { id = "one"; cancel_now = 10; insert_now = 10; mkdir = true }

abbrev world : Bool → RefWorld
world materializes = record {
  ci_source = source;
  session = session;
  traceparent = none;
  create_world = create_world;
  materializes = materializes;
  execute_world = record {
    log_opens = true;
    child = some child;
    dispatch_now = 11;
    resolve_now = 12;
  };
}

abbrev no_runs : Db
no_runs = record { runs = []; jobs = []; sh = [] }

world-Grows : (b : Bool) → Grows (world b)
world-Grows b rs db h = h

trigger_extends :
    Extends no_runs.runs
      (trigger text stored
        (λ _. true)
        (bytes "quire" ∷ [])
        "quire.db"
        (world true ∷ [])
        (new_event (bytes "app.git") 7 (main_ref ∷ []))
        no_runs).runs
trigger_extends =
    trigger-Extends text stored (λ _. true) (bytes "quire" ∷ []) "quire.db" (world true ∷ [])
      (new_event (bytes "app.git") 7 (main_ref ∷ [])) (world-Grows true, tt) no_runs

abbrev other_ref : PushRef
other_ref = record main_ref { ref_name = bytes "refs/heads/other" }

-- A run that waits for the ref `refs/heads/main`, and one that is resolved.
abbrev waiting_row : RunRow
waiting_row = record {
  id = "zero";
  repo = "app.git";
  ref_name = "refs/heads/main";
  sha = "abc";
  pushed_at_ms = 1;
  created_at = 2;
  dispatched_at = none;
  resolved_at = none;
  outcome = none;
  run_token = none;
  traceparent = none;
}

abbrev two_runs : Db
two_runs = record {
  runs =
      record waiting_row { id = "old"; resolved_at = some 5; outcome = some "succeeded" }
      ∷ waiting_row
      ∷ [];
  jobs = [];
  sh = [];
}

abbrev second_world : RefWorld
second_world = record (world true) {
  create_world = record { id = "two"; cancel_now = 20; insert_now = 20; mkdir = true };
}

trigger_created_example :
    (rows : List RunRow) × Extends two_runs.runs rows
    × NonePending "app.git" "refs/heads/main" rows
    × Extends
        (rows ++ new_row runs create_world (meta_of text stored 7 main_ref) (some session) ∷ [])
        (trigger text stored
          (λ _. true)
          (bytes "quire" ∷ [])
          "quire.db"
          (world false ∷ second_world ∷ [])
          (new_event (bytes "app.git") 7 (main_ref ∷ other_ref ∷ []))
          two_runs).runs
unfolding repo look_up from_str is_empty split is_bad_segment new path join walk create
    cancel_existing exec ◌>>=◌ cancel_each active_ids update_runs checks_where check_run
    known_outcome set_where record_run add_run run_refs
trigger_created_example =
    trigger_created text stored (λ _. true) (bytes "quire" ∷ []) "quire.db"
      (new_event (bytes "app.git") 7 (main_ref ∷ other_ref ∷ []))
      (record { name = bytes "app.git"; quire_root = bytes "quire" ∷ [] }) [] (second_world ∷ [])
      (world false) [] (other_ref ∷ []) main_ref two_runs _ (new_handle runs create_world) refl refl
      refl tt (λ rs db h. h, tt) (world-Grows false) refl refl

abbrev created : Db
created = (create runs create_world (meta_of text stored 7 main_ref) (some session) no_runs).1

run_ref_inner-unresolved_example :
    (run_ref_inner text stored runs 7 (world false) main_ref no_runs
      ≡ (err workspace_materialization_failed, created))
    × ((rows : List RunRow) × (row : RunRow) × (created.runs ≡ rows ++ row ∷ [])
        × (row.id ≡ "one")
        × (row.dispatched_at ≡ none)
        × (row.resolved_at ≡ none)
        × (row.outcome ≡ none))
unfolding create cancel_existing exec ◌>>=◌ cancel_each active_ids update_runs checks_where
    check_run known_outcome set_where add_run
run_ref_inner-unresolved_example =
    run_ref_inner-unresolved text stored runs 7 (world false) main_ref no_runs created
      (new_handle runs create_world) refl refl refl

abbrev run_db : Db
run_db = (run_ref_inner text stored runs 7 (world true) main_ref no_runs).1

run_ref_inner-IsSettled_example :
    IsSettled "one" run_db.runs
    × ((rows : List RunRow) × Extends
          (rows ++ new_row runs create_world (meta_of text stored 7 main_ref) (some session) ∷ [])
          run_db.runs
        × NonePending "app.git" "refs/heads/main" rows
        × Extends [] rows)
unfolding run_ref_inner create execute dispatch resolve ingest_events ingest_or_none job_pass
    job_pass_step sh_pass sh_pass_step cancel_existing exec ◌>>=◌ cancel_each active_ids start_run
    materialize_workspace update_runs checks_where check_run known_outcome set_where add_run
run_ref_inner-IsSettled_example =
    run_ref_inner-IsSettled text stored runs 7 (world true) main_ref no_runs run_db refl
      (world-Grows true) refl

abbrev mirrors : Mirrors
mirrors =
    (bytes "https://a", bytes "token")
    ∷ (bytes "https://b", bytes "token")
    ∷ (bytes "https://c", bytes "other")
    ∷ []

abbrev secrets : Secrets
secrets = (bytes "token", file "/run/token" none) ∷ []

-- The second of the mirrors has moved on.
abbrev git_push : Bytes → Bytes → Bytes → GitRun
git_push url refspec header =
    if url == bytes "https://b" then exited false (bytes "stale") else exited true []

abbrev disk : String → ReadResult
disk path = contents (bytes "secret")

push_ref-verdicts_example :
    ((push_ref disk git_push
        (λ s. s)
        (λ sha. some mirrors)
        (λ d. true)
        (bytes "quire" ∷ [])
        (bytes "app.git")
        (bytes "refs/heads/main")
        (exited true (bytes "def\n"))
        secrets).0
      ≡ done (record {
        pushed = accepting disk git_push (λ s. s) (bytes "refs/heads/main") secrets mirrors;
        failed = failures_of disk git_push (λ s. s) (bytes "refs/heads/main") secrets mirrors;
      }))
    × (length (accepting disk git_push (λ s. s) (bytes "refs/heads/main") secrets mirrors)
          + length (failures_of disk git_push (λ s. s) (bytes "refs/heads/main") secrets mirrors)
        ≡ 3)
unfolding repo from_str is_empty split is_bad_segment join walk resolve_ref
push_ref-verdicts_example =
    push_ref-verdicts disk git_push (λ s. s) (λ sha. some mirrors) (λ d. true) (bytes "quire" ∷ [])
      (bytes "app.git") (bytes "refs/heads/main") (bytes "def") (exited true (bytes "def\n"))
      secrets (new (bytes "repos" ∷ bytes "quire" ∷ []) (bytes "app.git")) mirrors refl refl refl
      (refl, (refl, (refl, tt)))
