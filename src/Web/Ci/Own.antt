-- ===== src/Web/Ci/Own.antt =====
-- What the page of a run shows, and to whom.
use quire.Prelude.{
  ℕ, suc, String, ◌≡◌, ◌∙◌, refl, sym, ap, Bool, true, ◌&&◌, ◌⊎◌, inl, inr, Option, none, some,
  List, [], ◌∷◌, select, All, is_some, ◌==◌, string_eq, ==_iff, and_true, arith, Bool-cases,
  if_true, if_false,
}
use mathlib.Core.Path.{subst}
use quire.Prelude.Bytes.{Bytes, bytes}
use quire.Database.{RunRow, JobRow, ShRow, Db}
use quire.Repo.{
  Directory, FoundRepo, found, bad_name, repo_not_found, join, resolve_repo_name,
  is_safe_path_segment,
}
use quire.Repo.Names.{join-is_safe_path_segment}
use quire.Prelude.Sorting.{All-order_by}
use quire.Web.Ci.{
  RunDetail, find_in_repo, detail_of, load_run_detail, DetailShEvent, DetailJob, log_in,
  detail_events, detail_jobs, run_detail_page, detail_answer, detail_in, run_dir, run_detail,
  require_auth, job_order, sh_order,
}

module _ {A : Type 0} (P : A → Type 0) where
  All-select : (q : A → Bool) (xs : List A) → ((a : A) → q a ≡ true → P a) → All P (select q xs)
  All-select q [] h = tt
  All-select q (x ∷ xs) h = elim (Bool-cases (q x)) [
    | inl e ↦ subst (All P) (sym (if_true _ _ _ e)) (h x e, All-select q xs h)
    | inr e ↦ subst (All P) (sym (if_false _ _ _ e)) (All-select q xs h)
  ]

  -- Of elements that have the property already.
  All-select-of : (q : A → Bool) (xs : List A) → All P xs → All P (select q xs)
  All-select-of q [] h = tt
  All-select-of q (x ∷ xs) h = elim (Bool-cases (q x)) [
    | inl e ↦ subst (All P) (sym (if_true _ _ _ e)) (h.0, All-select-of q xs h.1)
    | inr e ↦ subst (All P) (sym (if_false _ _ _ e)) (All-select-of q xs h.1)
  ]

find_in_repo-row :
    (repo_name id : String) (rs : List RunRow) (r : RunRow)
    → find_in_repo repo_name id rs ≡ some r
    → (r.id ≡ id) × (r.repo ≡ repo_name)
unfolding find_in_repo
find_in_repo-row repo_name id [] r h = absurd (ground arith)
find_in_repo-row repo_name id (q ∷ rs) r h = elim (Bool-cases (q.id == id && q.repo == repo_name)) [
  | inl e ↦
      let (a, b) = and_true (q.id == id) _ e in
      let same = some-injective (sym (if_true _ _ _ e) ∙ h) in
      (
        ap (λ (x : RunRow). x.id) (sym same) ∙ (==_iff q.id id).0 a,
        ap (λ (x : RunRow). x.repo) (sym same) ∙ (==_iff q.repo repo_name).0 b,
      )
  | inr e ↦ find_in_repo-row repo_name id rs r (sym (if_false _ _ _ e) ∙ h)
]
  where
    some-injective : {a b : RunRow} → some a ≡ some b → a ≡ b
    some-injective e = cc

-- The detail is of a run with the id and the repository, with jobs and events of that id.
abbrev pub IsDetail : String → String → RunDetail → Type 0
IsDetail repo_name id d =
    (d.run.id ≡ id)
    × (d.run.repo ≡ repo_name)
    × All (λ (j : JobRow). j.run_id ≡ id) d.jobs
    × All (λ (e : ShRow). e.run_id ≡ id) d.sh_events

detail_of-IsDetail :
    (repo_name id : String) (db : Db) (o : Option RunRow) (d : RunDetail)
    → find_in_repo repo_name id db.runs ≡ o
    → detail_of id db o ≡ some d
    → IsDetail repo_name id d
unfolding detail_of
detail_of-IsDetail repo_name id db none d e h = absurd (ground arith)
detail_of-IsDetail repo_name id db (some r) d e h =
    let (a, b) = find_in_repo-row repo_name id db.runs r e in
    subst (IsDetail repo_name id) (some-injective h) (
      a,
      b,
      All-order_by _ job_order _ (All-select _ _ db.jobs (λ j q. (==_iff j.run_id id).0 q)),
      All-order_by _ sh_order _ (All-select _ _ db.sh (λ s q. (==_iff s.run_id id).0 q)),
    )
  where
    some-injective : {a b : RunDetail} → some a ≡ some b → a ≡ b
    some-injective e = cc

module _ (read_log : Directory → ℕ → Bytes) where
  -- An event of the run and the job, with no log, or the text of a file of the job's own directory.
  abbrev pub IsOwnEvent : Directory → String → String → DetailShEvent → Type 0
  IsOwnEvent jobs_dir id job_id e =
      (e.event.run_id ≡ id)
      × (e.event.job_id ≡ job_id)
      × ((e.log_content ≡ []) ⊎ ((n : ℕ) × (e.log_content ≡ read_log (bytes job_id ∷ jobs_dir) n)))

  abbrev pub IsOwnJob : Directory → String → DetailJob → Type 0
  IsOwnJob jobs_dir id j =
      (j.job.run_id ≡ id) × All (IsOwnEvent jobs_dir id j.job.job_id) j.sh_events

  log_in-own :
      (jobs_dir : Directory) (job_id : String) (n : ℕ)
      → (log_in read_log jobs_dir job_id n ≡ [])
        ⊎ ((m : ℕ) × (log_in read_log jobs_dir job_id n ≡ read_log (bytes job_id ∷ jobs_dir) m))
  unfolding log_in
  log_in-own jobs_dir job_id n = elim (Bool-cases (is_safe_path_segment (bytes job_id))) [
    | inl e ↦ inr (
      n,
      if_true _ _ _ e
          ∙ ap (λ d. read_log d n) (join-is_safe_path_segment jobs_dir (bytes job_id) e),
    )
    | inr e ↦ inl (if_false _ _ _ e)
  ]

  detail_events-own :
      (jobs_dir : Directory) (id job_id : String) (n : ℕ) (es : List ShRow)
      → All (λ (e : ShRow). e.run_id ≡ id) es
      → All (λ (e : ShRow). e.job_id ≡ job_id) es
      → All (IsOwnEvent jobs_dir id job_id) (detail_events read_log jobs_dir job_id n es)
  unfolding detail_events
  detail_events-own jobs_dir id job_id n [] h k = tt
  detail_events-own jobs_dir id job_id n (e ∷ es) h k = (
    (h.0, k.0, log_in-own jobs_dir job_id n),
    detail_events-own jobs_dir id job_id (suc n) es h.1 k.1,
  )

  detail_jobs-own :
      (jobs_dir : Directory) (id : String) (events : List ShRow) (js : List JobRow)
      → All (λ (e : ShRow). e.run_id ≡ id) events
      → All (λ (j : JobRow). j.run_id ≡ id) js
      → All (IsOwnJob jobs_dir id) (detail_jobs read_log jobs_dir events js)
  unfolding detail_jobs
  detail_jobs-own jobs_dir id events [] h k = tt
  detail_jobs-own jobs_dir id events (j ∷ js) h k = (
    (
      k.0,
      detail_events-own jobs_dir id j.job_id 1 _ (All-select-of _ _ events h)
          (All-select _ _ events (λ e q. (==_iff e.job_id j.job_id).0 q)),
    ),
    detail_jobs-own jobs_dir id events js h k.1,
  )

module _ (is_dir : Directory → Bool) (base_dir : Directory) (read_log : Directory → ℕ → Bytes)
    (read_ci_log : Directory → Bytes) (text : Bytes → String) where
  -- What a page of a run may show, for the name and the id of its URL.
  abbrev pub IsOwn : Bytes → Bytes → RunRow → List DetailJob → Bytes → Type 0
  IsOwn repo_name run_id r js ci_log =
      (r.id ≡ text run_id)
      × (r.repo ≡ text repo_name)
      × All
          (IsOwnJob read_log
            (join (run_dir is_dir base_dir read_log read_ci_log text repo_name run_id)
              (bytes "jobs"))
            (text run_id))
          js
      × (ci_log ≡ read_ci_log (run_dir is_dir base_dir read_log read_ci_log text repo_name run_id))

  detail_answer-IsOwn :
      (repo_name run_id : Bytes) (db : Db) (o : Option RunDetail) (r : RunRow) (js : List DetailJob)
      (ci_log : Bytes)
      → load_run_detail (text repo_name) (text run_id) db ≡ o
      → detail_answer is_dir base_dir read_log read_ci_log text repo_name run_id o
        ≡ run_detail_page r js ci_log
      → IsOwn repo_name run_id r js ci_log
  unfolding detail_answer load_run_detail
  detail_answer-IsOwn repo_name run_id db none r js ci_log e h = absurd (ground arith)
  detail_answer-IsOwn repo_name run_id db (some d) r js ci_log e h =
      let (a, b, c, s) = detail_of-IsDetail (text repo_name) (text run_id) db _ d refl e in
      let own =
        detail_jobs-own read_log
          (join (run_dir is_dir base_dir read_log read_ci_log text repo_name run_id) (bytes "jobs"))
          (text run_id) d.sh_events d.jobs s c in
      let (same_run, same_jobs, same_log) = page-injective h in
      (
        ap (λ (x : RunRow). x.id) (sym same_run) ∙ a,
        ap (λ (x : RunRow). x.repo) (sym same_run) ∙ b,
        subst (All _) same_jobs own,
        sym same_log,
      )
    where
      page-injective :
          {p q : RunRow} {xs ys : List DetailJob} {a b : Bytes}
          → run_detail_page p xs a ≡ run_detail_page q ys b
          → (p ≡ q) × (xs ≡ ys) × (a ≡ b)
      page-injective e = (cc, cc, cc)

  detail_in-IsOwn :
      (repo_name run_id : Bytes) (db : Db) (f : FoundRepo) (r : RunRow) (js : List DetailJob)
      (ci_log : Bytes)
      → detail_in is_dir base_dir read_log read_ci_log text repo_name run_id db f
        ≡ run_detail_page r js ci_log
      → IsOwn repo_name run_id r js ci_log
  unfolding detail_in
  detail_in-IsOwn repo_name run_id db (found x) r js ci_log h =
      detail_answer-IsOwn repo_name run_id db _ r js ci_log refl h
  detail_in-IsOwn repo_name run_id db (bad_name x) r js ci_log h = absurd (ground arith)
  detail_in-IsOwn repo_name run_id db (repo_not_found x) r js ci_log h = absurd (ground arith)

  -- If the page of a run is answered, the request has a user; the run has the id and the repository
  -- of the URL, and each job and event shown is of this run; the log of each event is empty, or the
  -- text of a log file right in the directory of its job below the run's directory; and the log of
  -- `quire-ci` is the one in the run's directory.
  pub run_detail-IsOwn :
      (user : Option Bytes) (name run_id : Bytes) (db : Db) (r : RunRow) (js : List DetailJob)
      (ci_log : Bytes)
      → require_auth user (run_detail is_dir base_dir read_log read_ci_log text name run_id db)
        ≡ run_detail_page r js ci_log
      → (is_some user ≡ true) × IsOwn (resolve_repo_name name) run_id r js ci_log
  unfolding require_auth run_detail
  run_detail-IsOwn none name run_id db r js ci_log h = absurd (ground arith)
  run_detail-IsOwn (some u) name run_id db r js ci_log h =
      (refl, detail_in-IsOwn (resolve_repo_name name) run_id db _ r js ci_log h)
