-- ===== src/Web/Repos/Tests.antt =====
-- The links to a repository in a group, to one outside and to one whose name ends in `.git` twice.
use quire.Prelude.{◌≡◌, refl, false, Option, none, [], ◌∷◌}
use quire.Prelude.Bytes.{Bytes, bytes}
use quire.Repo.{
  Repo, new, Directory, found, repo_not_found, repo, resolve_repo_name, look_up, from_str, split,
  is_empty, is_bad_segment, join, walk, path,
}
use quire.Repo.Store.{FileSystem, is_dir}
use quire.Web.Pages.{trim_end}
use quire.Web.Routes.{
  Request, no_user, no_route, unauthorized, served, repo_home, serve, through, route_at,
  server_routes, web_routes, public_router, ci_router, api_router,
}
use quire.Web.Repos.{listed_repo, item_href, first_fit, fits, path_segments}
use quire.Web.Repos.Grouped.{serve-grouped, first_fit-fits}
use quire.Web.Repos.Linked.{repo-listed_repo}

abbrev top : Directory
top = bytes "repos" ∷ bytes "quire" ∷ []

abbrev disk : FileSystem
disk =
    (bytes "app.git" ∷ top)
    ∷ (bytes "foo.git" ∷ bytes "work" ∷ top)
    ∷ (bytes "a.git.git" ∷ top)
    ∷ top
    ∷ []

abbrev no_subject : Repo → Option Bytes
no_subject r = none

abbrev foo : Repo
foo = record { name = bytes "work/foo.git"; quire_root = bytes "quire" ∷ [] }

abbrev app : Repo
app = record { name = bytes "app.git"; quire_root = bytes "quire" ∷ [] }

abbrev at : Bytes → Request
at p = record { path = p; remote_user = no_user; has_token = false }

serve-grouped_example : serve first_fit false (at (bytes "/work/foo")) ≡ no_route
unfolding item_href listed_repo trim_end is_empty
serve-grouped_example =
    serve-grouped first_fit false disk no_subject foo (bytes "work") (bytes "foo")
      (at (bytes "/work/foo")) first_fit-fits refl refl refl refl refl

repo-listed_repo_example :
    repo
      (is_dir disk)
      (bytes "quire" ∷ [])
      (resolve_repo_name (listed_repo disk no_subject app).name)
    ≡ found app
unfolding repo look_up from_str is_empty split is_bad_segment is_dir path join walk new
repo-listed_repo_example =
    repo-listed_repo disk no_subject (bytes "quire" ∷ []) app (bytes "app") refl refl refl

abbrev twice : Repo
twice = record { name = bytes "a.git.git"; quire_root = bytes "quire" ∷ [] }

-- The list links this repository by the name of another, which need not be there.
git_twice :
    (repo (is_dir disk) (bytes "quire" ∷ []) twice.name ≡ found twice)
    × (repo
          (is_dir disk)
          (bytes "quire" ∷ [])
          (resolve_repo_name (listed_repo disk no_subject twice).name)
        ≡ repo_not_found (bytes "a.git"))
unfolding repo look_up from_str is_empty split is_bad_segment is_dir path join walk new listed_repo
    trim_end resolve_repo_name
git_twice = (refl, refl)

-- The link of `work/ci.git` leads to the runs of a repository `work`, and that of `app.git` to its
-- page.
ci_in_group :
    (serve first_fit false (at (bytes "/work/ci")) ≡ unauthorized)
    × (serve first_fit false (at (bytes "/app")) ≡ served repo_home no_user)
unfolding serve first_fit route_at server_routes web_routes public_router ci_router api_router
    through fits path_segments split is_empty
ci_in_group = (refl, refl)
