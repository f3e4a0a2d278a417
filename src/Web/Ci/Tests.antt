-- ===== src/Web/Ci/Tests.antt =====
-- The page of a run at a concrete database.
use quire.Prelude.{
  ℕ, String, ◌≡◌, refl, true, some, none, List, [], ◌∷◌, is_some, ◌==◌, bytes_eq, path_eq,
  if◌then◌else◌,
}
use quire.Prelude.Bytes.{Bytes, bytes}
use quire.Prelude.Int.{pos}
use quire.Database.{RunRow, JobRow, ShRow, Db}
use quire.Repo.{
  Directory, repo, from_str, is_empty, split, is_bad_segment, join, walk, resolve_repo_name,
  is_safe_path_segment,
}
use quire.Prelude.Sorting.{order_by}
use quire.Web.Ci.{
  load_run_detail, find_in_repo, detail_jobs, detail_events, DetailJob, run_detail, require_auth,
}
use quire.Web.Ci.Own.{IsOwn, run_detail-IsOwn}

abbrev row : RunRow
row = record {
  id = "one";
  repo = "app.git";
  ref_name = "refs/heads/main";
  sha = "abc";
  pushed_at_ms = 5;
  created_at = 10;
  dispatched_at = some 11;
  resolved_at = some 14;
  outcome = some "succeeded";
  run_token = none;
  traceparent = none;
}

abbrev job : JobRow
job = record {
  run_id = "one";
  job_id = "build";
  state = "succeeded";
  exit_code = none;
  started_at_ms = some 12;
  finished_at_ms = some 13;
}

abbrev sh_row : ShRow
sh_row = record {
  run_id = "one";
  job_id = "build";
  started_at_ms = 12;
  finished_at_ms = 13;
  exit_code = pos 0;
  cmd = "make";
}

abbrev db : Db
db = record {
  runs = row ∷ [];
  jobs = job ∷ [];
  sh = sh_row ∷ record sh_row { run_id = "two" } ∷ [];
}

abbrev text : Bytes → String
text s = if s == bytes "one" then "one" else "app.git"

abbrev read_log : Directory → ℕ → Bytes
read_log d n = bytes "made"

abbrev read_ci_log : Directory → Bytes
read_ci_log d =
    if d == bytes "one" ∷ bytes "app.git" ∷ bytes "runs" ∷ bytes "quire" ∷ []
    then bytes "fetched"
    else []

abbrev shown : List DetailJob
shown =
    record { job = job; sh_events = record { event = sh_row; log_content = bytes "made" } ∷ [] }
    ∷ []

run_detail-IsOwn_example :
    (is_some (some (bytes "me")) ≡ true)
    × IsOwn
        (λ d. true)
        (bytes "quire" ∷ [])
        read_log
        read_ci_log
        text
        (bytes "app.git")
        (bytes "one")
        row
        shown
        (bytes "fetched")
unfolding require_auth run_detail resolve_repo_name repo from_str is_empty split is_bad_segment join
    walk load_run_detail find_in_repo order_by detail_jobs detail_events is_safe_path_segment
run_detail-IsOwn_example =
    run_detail-IsOwn (λ d. true) (bytes "quire" ∷ []) read_log read_ci_log text (some (bytes "me"))
      (bytes "app") (bytes "one") db row shown (bytes "fetched") refl
