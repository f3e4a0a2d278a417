-- ===== src/Web/Ci.antt =====
-- The pages of runs: quire-server/src/quire/web/handlers/ci.rs, with the queries of
-- quire-server/src/quire/web/db.rs, the middleware of quire-server/src/quire/web/auth.rs and the
-- statuses of quire-server/src/quire/web/error.rs. The reading of a log file is an argument.
pub mod Own
mod Tests
use quire.Prelude.{
  ℕ, zero, suc, String, Bool, true, false, not, ◌&&◌, ◌||◌, Option, none, some, List, [], ◌∷◌, map,
  select, eqb, leb, ltb, is_some, is_none, ◌==◌, string_eq, if◌then◌else◌,
}
use quire.Prelude.Bytes.{Bytes, bytes}
use quire.Prelude.Int.{ℤ}
use quire.Database.{RunRow, JobRow, ShRow, Db}
use quire.Secret.{bytes_le}
use quire.Repo.{
  Directory, FoundRepo, found, bad_name, repo_not_found, join, resolve_repo_name,
  is_safe_path_segment, repo,
}
use quire.Prelude.Sorting.{order_by}
use quire.Web.Pages.{RunListRow}

abbrev pub limit : {A : Type 0} → ℕ → List A → List A
limit zero xs = []
limit (suc n) [] = []
limit (suc n) (x ∷ xs) = x ∷ limit n xs

abbrev newest_first : RunRow → RunRow → Bool
newest_first a b = leb b.created_at a.created_at

abbrev list_row : RunRow → RunListRow
list_row r = record {
  id = r.id;
  outcome = r.outcome;
  sha = bytes r.sha;
  ref_name = bytes r.ref_name;
  created_at = r.created_at;
  dispatched_at = r.dispatched_at;
  resolved_at = r.resolved_at;
}

unfoldable pub load_runs : String → Db → List RunListRow
load_runs repo_name db =
    map list_row
      (limit 50 (order_by newest_first (select (λ (r : RunRow). r.repo == repo_name) db.runs)))

-- started_at_ms IS NULL ASC, started_at_ms ASC, job_id ASC
abbrev job_order : JobRow → JobRow → Bool
job_order a b = earlier a.started_at_ms b.started_at_ms
  where
    earlier : Option ℕ → Option ℕ → Bool
    earlier (some s) none = true
    earlier none (some t) = false
    earlier none none = bytes_le (bytes a.job_id) (bytes b.job_id)
    earlier (some s) (some t) = ltb s t || (eqb s t && bytes_le (bytes a.job_id) (bytes b.job_id))

-- job_id, started_at_ms
abbrev sh_order : ShRow → ShRow → Bool
sh_order a b =
    if a.job_id == b.job_id
    then leb a.started_at_ms b.started_at_ms
    else bytes_le (bytes a.job_id) (bytes b.job_id)

pub record RunDetail : Type 0 where
  pub run : RunRow
  pub jobs : List JobRow
  pub sh_events : List ShRow

-- SELECT … WHERE id = ?1 AND repo = ?2
unfoldable pub find_in_repo : String → String → List RunRow → Option RunRow
find_in_repo repo_name id [] = none
find_in_repo repo_name id (r ∷ rs) =
    let rest = find_in_repo repo_name id rs in
    if r.id == id && r.repo == repo_name then some r else rest

detail_of : String → Db → Option RunRow → Option RunDetail
detail_of id db none = none
detail_of id db (some r) = some (record {
  run = r;
  jobs = order_by job_order (select (λ (j : JobRow). j.run_id == id) db.jobs);
  sh_events = order_by sh_order (select (λ (s : ShRow). s.run_id == id) db.sh);
})

-- `none` is `QueryReturnedNoRows`.
unfoldable pub load_run_detail : String → String → Db → Option RunDetail
unfolding detail_of
load_run_detail repo_name id db = detail_of id db (find_in_repo repo_name id db.runs)

pub record DetailShEvent : Type 0 where
  pub event : ShRow
  pub log_content : Bytes

pub record DetailJob : Type 0 where
  pub job : JobRow
  pub sh_events : List DetailShEvent

-- `read_log d n` is what the file `sh-<n>.log` of the directory holds, or nothing.
module _ (read_log : Directory → ℕ → Bytes) where
  log_in : Directory → String → ℕ → Bytes
  log_in jobs_dir job_id n =
      if is_safe_path_segment (bytes job_id) then read_log (join jobs_dir (bytes job_id)) n else []

  -- The job's events, the first of which has the number `n`.
  unfoldable pub detail_events : Directory → String → ℕ → List ShRow → List DetailShEvent
  unfolding log_in
  detail_events jobs_dir job_id n [] = []
  detail_events jobs_dir job_id n (e ∷ es) =
      record { event = e; log_content = log_in jobs_dir job_id n }
      ∷ detail_events jobs_dir job_id (suc n) es

  unfoldable pub detail_jobs : Directory → List ShRow → List JobRow → List DetailJob
  detail_jobs jobs_dir events [] = []
  detail_jobs jobs_dir events (j ∷ js) =
      record {
        job = j;
        sh_events =
            detail_events jobs_dir j.job_id 1 (select (λ (e : ShRow). e.job_id == j.job_id) events);
      }
      ∷ detail_jobs jobs_dir events js

-- The statuses of errors, and what is shown.
pub data CiAnswer : Type 0 where
  unauthorized not_found internal_error : CiAnswer
  run_list_page : List RunListRow → CiAnswer
  -- with what `quire-ci.log` holds
  run_detail_page : RunRow → List DetailJob → Bytes → CiAnswer

-- WebError::into_response at an error of `quire.repo`
abbrev pub repo_status : FoundRepo → CiAnswer
repo_status (repo_not_found name) = not_found
repo_status (bad_name e) = internal_error
repo_status (found r) = internal_error

-- `read_ci_log d` is what the file `quire-ci.log` of the directory holds, or nothing.
module _ (is_dir : Directory → Bool) (base_dir : Directory) (read_log : Directory → ℕ → Bytes)
    (read_ci_log : Directory → Bytes) (text : Bytes → String) where
  abbrev pub run_dir : Bytes → Bytes → Directory
  run_dir repo_name run_id = join (join (join base_dir (bytes "runs")) repo_name) run_id

  detail_answer : Bytes → Bytes → Option RunDetail → CiAnswer
  detail_answer repo_name run_id none = not_found
  detail_answer repo_name run_id (some d) =
      run_detail_page d.run
        (detail_jobs read_log (join (run_dir repo_name run_id) (bytes "jobs")) d.sh_events d.jobs)
        (read_ci_log (run_dir repo_name run_id))

  detail_in : Bytes → Bytes → Db → FoundRepo → CiAnswer
  detail_in repo_name run_id db (found r) =
      detail_answer repo_name run_id (load_run_detail (text repo_name) (text run_id) db)
  detail_in repo_name run_id db (bad_name e) = repo_status (bad_name e)
  detail_in repo_name run_id db (repo_not_found n) = repo_status (repo_not_found n)

  unfoldable pub run_detail : Bytes → Bytes → Db → CiAnswer
  unfolding detail_in detail_answer
  run_detail name run_id db =
      detail_in (resolve_repo_name name) run_id db (repo is_dir base_dir (resolve_repo_name name))

  list_in : Bytes → Db → FoundRepo → CiAnswer
  list_in repo_name db (found r) = run_list_page (load_runs (text repo_name) db)
  list_in repo_name db (bad_name e) = repo_status (bad_name e)
  list_in repo_name db (repo_not_found n) = repo_status (repo_not_found n)

  unfoldable pub run_list : Bytes → Db → CiAnswer
  unfolding list_in
  run_list name db =
      list_in (resolve_repo_name name) db (repo is_dir base_dir (resolve_repo_name name))

-- The middleware; `none` is a request without a `Remote-User` that is a text.
unfoldable pub require_auth : Option Bytes → CiAnswer → CiAnswer
require_auth none next = unauthorized
require_auth (some user) next = next
