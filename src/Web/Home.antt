-- ===== src/Web/Home.antt =====
-- The pages of a repository and of its log: quire-server/src/quire/web/handlers/repo.rs and
-- log_view.rs there, with `RepoView::mirrors`. The reading of Markdown and of the configuration at a
-- commit are arguments, as git is; `load_runs` is that of `Ci`.
use quire.Prelude.{String, Bool, true, false, Option, none, some, List, [], ◌∷◌, map}
use quire.Prelude.Bytes.{Bytes, bytes}
use quire.Database.{Db}
use quire.Secret.{bytes_le}
use quire.Repo.{Directory, FoundRepo, found, resolve_repo_name, repo}
use quire.Web.Pages.{
  CommitId, SectionLink, nav_sections, RunListRow, MirrorLink, mirror_link, or_else, trim_end,
}
use quire.Web.Git.{
  HeadInfo, ChangeRow, run_git, commit_id, bookmark, head_info, readme, recent_changes,
}
use quire.Prelude.Sorting.{order_by}
use quire.Web.Ci.{limit, load_runs}

abbrev by_label : MirrorLink → MirrorLink → Bool
by_label a b = bytes_le a.label b.label

-- The urls of the configuration at the head, which may be unreadable; their order is the map's.
abbrev links_of : Option (List Bytes) → List MirrorLink
links_of none = []
links_of (some urls) = order_by by_label (map mirror_link urls)

unfoldable pub mirrors : (Bytes → Option (List Bytes)) → Option HeadInfo → List MirrorLink
mirrors repo_config none = []
mirrors repo_config (some head) = links_of (repo_config head.id.sha)

pub record HomePage : Type 0 where
  pub sections : List SectionLink
  pub repo : Bytes
  pub head : Option HeadInfo
  pub readme_html : Option Bytes
  pub recent_runs : List RunListRow
  pub recent_changes : List ChangeRow
  pub clone_host : Bytes
  pub mirrors : List MirrorLink

pub record LogPage : Type 0 where
  pub sections : List SectionLink
  pub repo : Bytes
  pub changes : List ChangeRow
  pub bookmark : Bytes
  pub head : CommitId

pub data HomeAnswer (A : Type 0) : Type 0 where
  page : A → HomeAnswer A
  no_repo : FoundRepo → HomeAnswer A

-- Runs are for those who are authenticated.
unfoldable pub recent_runs : Bool → String → Db → List RunListRow
recent_runs true repo_name db = limit 5 (load_runs repo_name db)
recent_runs false repo_name db = []

abbrev rendered : (Bytes → Bytes) → Option Bytes → Option Bytes
rendered render_markdown none = none
rendered render_markdown (some raw) = some (render_markdown raw)

module _ (git : List Bytes → Option Bytes) where
  unfoldable pub home_page :
      (Bytes → Option (List Bytes))
      → (Bytes → Bytes)
      → Bytes
      → Bytes
      → List RunListRow
      → Bool
      → HomePage
  home_page repo_config render_markdown host repo_display runs authed = record {
    sections = nav_sections repo_display (bytes "overview") authed;
    repo = repo_display;
    head = head_info git;
    readme_html = rendered render_markdown (readme git);
    recent_runs = runs;
    recent_changes = recent_changes git repo_display;
    clone_host = host;
    mirrors = mirrors repo_config (head_info git);
  }

  unfoldable pub log_page : Bytes → Bool → LogPage
  log_page repo_display authed = record {
    sections = nav_sections repo_display (bytes "log") authed;
    repo = repo_display;
    changes = recent_changes git repo_display;
    bookmark = bookmark git;
    head = commit_id git (or_else (run_git git (bytes "rev-parse" ∷ bytes "HEAD" ∷ [])) []);
  }

module _ (is_dir : Directory → Bool) (base_dir : Directory) (git : List Bytes → Option Bytes)
    (repo_config : Bytes → Option (List Bytes)) (render_markdown : Bytes → Bytes) (host : Bytes)
    (text : Bytes → String) where
  home_in : Bytes → Bool → Db → FoundRepo → HomeAnswer HomePage
  home_in name authed db (found r) = page (
      home_page git repo_config render_markdown host (trim_end (bytes ".git") name)
        (recent_runs authed (text (resolve_repo_name name)) db) authed)
  home_in name authed db o = no_repo o

  unfoldable pub repo_home : Bytes → Bool → Db → HomeAnswer HomePage
  unfolding home_in
  repo_home name authed db = home_in name authed db (repo is_dir base_dir (resolve_repo_name name))

  log_view_in : Bytes → Bool → FoundRepo → HomeAnswer LogPage
  log_view_in name authed (found r) = page (log_page git (trim_end (bytes ".git") name) authed)
  log_view_in name authed o = no_repo o

  unfoldable pub log_view : Bytes → Bool → HomeAnswer LogPage
  unfolding log_view_in
  log_view name authed = log_view_in name authed (repo is_dir base_dir (resolve_repo_name name))
