-- ===== src/Runs/Tests.antt =====
-- Runs at concrete inputs: a queued run, an active one and a finished one.
use quire.Prelude.{
  ℕ, String, ◌≡◌, refl, true, false, Option, none, some, List, [], ◌∷◌, ◌++◌, arith, bytes_eq,
}
use quire.Prelude.Int.{pos}
use quire.Database.{RunRow, Db, ok, sql_constraint, find_run, check_run, known_outcome, ◌>>=◌}
use quire.Database.Statement.{exec, update_runs, checks_where, set_where, add_run}
use quire.Database.History.{Extends}
use quire.Events.{run_finished, run_succeeded}
use quire.Prelude.Bytes.{Bytes, bytes}
use quire.Secret.{
  Outcome, value, ReadResult, io_error, SecretSource, plain, clone, reveal,
  resolve as resolve_secret, new as new_registry,
}
use quire.Runs.Api.{find_token, verify_run_token}
use quire.Runs.Api.Secrets.{fetch_secret, secret_request, resolve-get_secret}
use quire.Events.Ingest.{
  events, missing, ingest_events, job_pass, job_pass_step, sh_pass, sh_pass_step,
}
use quire.Runs.{
  Runs, Run, RunMeta, ApiSession, CreateWorld, create, cancel_existing, record_run,
  reconcile_orphans, new_row, new_handle, dispatch, resolve, cancel_each, active_ids,
}
use quire.Runs.Api.{get_bootstrap, refuse, gone, db_error, payload}
use quire.Runs.Api.Handover.{get_bootstrap-late}
use quire.Runs.Execute.{Child, ExecuteWorld, execute, ingest_or_none}
use quire.Runs.Execute.Ended.{execute-settles}
use quire.Runs.Execute.Finished.{IsSettled, execute-IsSettled}
use quire.Runs.History.{Op, do_create, do_reconcile, do_resolve, do_bootstrap, apply_all}
use quire.Runs.Settled.{apply_all-Extends, outcome_stands, bootstrap_once}
use quire.Runs.Machine.{Moves, run_state, apply_all-Moves}
use quire.Runs.Pending.{NonePending, cancel_existing-NonePending}
use quire.Runs.Unique.{PendingUnique, apply_all-PendingUnique}
use quire.Runs.Created.{create_supersedes}
use quire.Runs.Race.{IsPending, interleaved_creates}
use quire.Runs.Orphans.{reconcile_orphans_total, AllReconciled}

abbrev runs : Runs
runs = record { db_path = "quire.db"; repo = "app.git"; base_dir = "runs/app.git" }

abbrev meta : RunMeta
meta = record { sha = "abc123"; ref_name = "refs/heads/main"; pushed_at = 5 }

abbrev session : ApiSession
session = record { server_url = "http://127.0.0.1:3000"; run_token = "token" }

abbrev world : String → ℕ → CreateWorld
world id now = record { id = id; cancel_now = now; insert_now = now; mkdir = true }

abbrev queued_row : RunRow
queued_row = new_row runs (world "one" 10) meta (some session)

abbrev finished_row : RunRow
finished_row = record queued_row {
  id = "two";
  dispatched_at = some 11;
  resolved_at = some 12;
  outcome = some "succeeded";
}

abbrev before : Db
before = record { runs = finished_row ∷ queued_row ∷ []; jobs = []; sh = [] }

abbrev handle : Run
handle = new_handle runs (world "one" 10)

abbrev ops : List Op
ops =
    do_resolve (record handle { id = "two" }) 20 "failed-internal"
    ∷ do_create runs (world "three" 30) meta none
    ∷ do_bootstrap (some "token") 35
    ∷ do_reconcile 40
    ∷ []

apply_all-Extends_example : Extends before.runs (apply_all ops before).runs
apply_all-Extends_example = apply_all-Extends ops before

outcome_kept :
    (s : RunRow) × (find_run "two" (apply_all ops before).runs ≡ some s)
    × (s.outcome ≡ some "succeeded")
    × (s.resolved_at ≡ some 12)
    × (s.sha ≡ "abc123")
unfolding find_run
outcome_kept = outcome_stands ops before "two" "succeeded" finished_row refl refl refl

bootstrap_once_example :
    get_bootstrap "one" 16 (apply_all ops (get_bootstrap "one" 15 before).1)
    ≡ (refuse gone, apply_all ops (get_bootstrap "one" 15 before).1)
unfolding find_run exec get_bootstrap update_runs checks_where check_run known_outcome payload
bootstrap_once_example =
    bootstrap_once ops before "one" 15 16
      (record { meta = meta; repo = "app.git"; run_id = "one"; traceparent = none }) refl

create_supersedes_example :
    (rows : List RunRow) × ((create runs (world "three" 30) meta none before).1.runs
      ≡ rows ++ new_row runs (world "three" 30) meta none ∷ [])
    × NonePending "app.git" "refs/heads/main" rows
    × Extends before.runs rows
    × (new_handle runs (world "three" 30) ≡ new_handle runs (world "three" 30))
unfolding create cancel_existing exec ◌>>=◌ cancel_each active_ids update_runs checks_where
    check_run known_outcome set_where add_run
create_supersedes_example =
    create_supersedes runs (world "three" 30) meta none before
      (create runs (world "three" 30) meta none before).1 (new_handle runs (world "three" 30)) refl

none_pending_left :
    NonePending "app.git" "refs/heads/main"
      (cancel_existing runs 30 "refs/heads/main" before).1.runs
unfolding cancel_existing exec ◌>>=◌ cancel_each active_ids update_runs checks_where check_run
    known_outcome set_where add_run
none_pending_left =
    cancel_existing-NonePending runs 30 "refs/heads/main" before
      (cancel_existing runs 30 "refs/heads/main" before).1 refl

apply_all-PendingUnique_example : PendingUnique (apply_all ops before).runs
apply_all-PendingUnique_example =
    apply_all-PendingUnique ops before (tt, (tt, (tt, (tt, tt)))) ((refl, tt), (tt, tt))

abbrev cleared : Db
unfolding cancel_existing exec ◌>>=◌ cancel_each active_ids update_runs checks_where check_run
    known_outcome set_where add_run
cleared = (cancel_existing runs 30 "refs/heads/main" before).1

abbrev with_three : Db
unfolding record_run exec ◌>>=◌ cancel_each active_ids update_runs checks_where check_run
    known_outcome set_where add_run
with_three = (record_run runs (world "three" 30) meta none cleared).1

interleaved_creates_example :
    ((record_run runs (world "four" 30) meta none with_three).1.runs
      ≡ cleared.runs
        ++ new_row runs (world "three" 30) meta none
          ∷ new_row runs (world "four" 30) meta none
          ∷ [])
    × IsPending "app.git" "refs/heads/main" (new_row runs (world "three" 30) meta none)
    × IsPending "app.git" "refs/heads/main" (new_row runs (world "four" 30) meta none)
unfolding cancel_existing record_run exec ◌>>=◌ cancel_each active_ids update_runs checks_where
    check_run known_outcome set_where add_run
interleaved_creates_example =
    interleaved_creates runs (world "three" 30) (world "four" 30) meta meta none none before cleared
      cleared with_three (record_run runs (world "four" 30) meta none with_three).1 _ _ refl refl
      refl refl refl

reconcile_orphans_total_example :
    ((reconcile_orphans 50 before).0 ≡ ok tt)
    × AllReconciled 50 before.runs (reconcile_orphans 50 before).1.runs
unfolding check_run known_outcome
reconcile_orphans_total_example =
    reconcile_orphans_total 50 before (refl, (refl, tt))
      ((ground arith, ground arith), ((ground arith, tt), tt))

abbrev superseded_row_ : RunRow
superseded_row_ = record queued_row { resolved_at = some 12; outcome = some "superseded" }

abbrev superseded_db : Db
superseded_db = record { runs = superseded_row_ ∷ []; jobs = []; sh = [] }

get_bootstrap-late_example :
    get_bootstrap "one" 13 superseded_db ≡ (refuse (db_error sql_constraint), superseded_db)
unfolding find_run
get_bootstrap-late_example =
    get_bootstrap-late "one" 13 12 superseded_db superseded_row_ refl refl refl (ground arith)

abbrev child : Child
child = record {
  work = λ db. db;
  success = true;
  code = some (pos 0);
  events = events (record { at_ms = 14; kind = run_finished run_succeeded } ∷ []);
}

abbrev execute_world : ExecuteWorld
execute_world = record { log_opens = true; child = some child; dispatch_now = 13; resolve_now = 15 }

success_settled :
    (c : Child) × (some child ≡ some c)
    × (c.success ≡ true)
    × IsSettled "one" (execute handle execute_world none none before).1.runs
unfolding execute dispatch resolve ingest_events ingest_or_none job_pass job_pass_step sh_pass
    sh_pass_step exec ◌>>=◌ cancel_each active_ids update_runs checks_where check_run known_outcome
    set_where add_run
success_settled =
    execute-IsSettled handle execute_world none none before
      (execute handle execute_world none none before).1 refl

apply_all-Moves_example :
    (s : RunRow) × (find_run "one" (apply_all ops before).runs ≡ some s)
    × Moves (run_state queued_row) (run_state s)
unfolding find_run
apply_all-Moves_example = apply_all-Moves ops before "one" queued_row refl

-- A subprocess that is killed and leaves no events.
abbrev killed : Child
killed = record { work = λ db. db; success = false; code = none; events = missing }

abbrev killed_world : ExecuteWorld
killed_world = record { log_opens = true; child = some killed; dispatch_now = 13; resolve_now = 50 }

execute-settles_example :
    IsSettled "one" (execute handle killed_world (some "00-trace") (some session) before).1.runs
unfolding check_run known_outcome set_where
execute-settles_example =
    execute-settles handle killed_world (some "00-trace") session killed before refl refl refl
      (refl, (refl, tt))
      (record {
        valid = (refl, (refl, tt));
        past = ((ground arith, ground arith), ((ground arith, tt), tt));
        unique = (λ h. absurd (ground (arith, h)), (λ _. refl, tt));
      })

-- The token is that of the first run, and one of two secrets is declared.
abbrev declared : List (Bytes × SecretSource)
declared = (bytes "token", plain (bytes "s3cret-value")) ∷ []

abbrev disk : String → ReadResult
disk path = io_error "no such file"

abbrev fetched_secret : Option String → Bytes → Outcome
fetched_secret bearer name =
    (resolve_secret disk
      (λ n.
        fetch_secret (λ b. some b) "failed" n
          (some (secret_request (λ b. b) bearer before disk declared (some n))))
      name new_registry).0

resolve-get_secret_example :
    fetched_secret (some "token") (bytes "token") ≡ value (bytes "s3cret-value")
unfolding verify_run_token find_token new_registry clone reveal
resolve-get_secret_example =
    resolve-get_secret (λ b. b) (λ b. some b) (λ n. some n) "failed" (some "token") before disk disk
      declared new_registry (bytes "token") (λ v. refl) refl refl
