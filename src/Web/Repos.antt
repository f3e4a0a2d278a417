-- ===== src/Web/Repos.antt =====
-- The list of the repositories, quire-server/src/quire/web/handlers/repo_list.rs with its template
-- repo_list.html, and where its links lead.
pub mod Grouped
pub mod Linked
mod Tests
use quire.Prelude.{
  ℕ, zero, suc, Bool, true, false, ◌&&◌, ◌==◌, bytes_eq, path_eq, ◌||◌, Option, none, some, List,
  [], ◌∷◌, map, if◌then◌else◌, not,
}
use quire.Prelude.Bytes.{Bytes, bytes}
use quire.Repo.{Repo, path, split, Directory, is_empty}
use quire.Repo.Store.{FileSystem, is_dir, repos}
use quire.Web.Pages.{trim_end}
use quire.Web.Routes.{Segment, literal, capture, rest_of_path, Route}

pub record ListedRepo : Type 0 where
  pub name : Bytes
  pub description : Option Bytes

-- `subject` is what `git log -1 --format=%s` gives.
unfoldable pub listed_repo : FileSystem → (Repo → Option Bytes) → Repo → ListedRepo
listed_repo fs subject repo = record {
  name = trim_end (bytes ".git") repo.name;
  description = if is_dir fs (path repo) then subject repo else none;
}

unfoldable pub repo_list :
    (Bytes → Bytes) → FileSystem → (Repo → Option Bytes) → Directory → List ListedRepo
repo_list lossy fs subject base_dir = map (listed_repo fs subject) (repos lossy fs base_dir)

unfoldable pub item_href : ListedRepo → Bytes
item_href r = b'/' ∷ r.name

-- The segments of a path: none for `/`.
abbrev pub behind_first : List Bytes → List Bytes
behind_first [] = []
behind_first (first ∷ []) = []
behind_first (first ∷ [] ∷ []) = []
behind_first (first ∷ s ∷ ss) = s ∷ ss

unfoldable pub path_segments : Bytes → List Bytes
path_segments p = behind_first (split b'/' p)

-- Whether a route is for a path, as axum documents it: a capture is a segment that is not empty, and
-- `{*path}` is what remains, if it is not empty.
unfoldable pub fits : List Segment → List Bytes → Bool
unfolding is_empty
fits [] [] = true
fits [] (s ∷ ss) = false
fits (literal t ∷ rs) [] = false
fits (literal t ∷ rs) (s ∷ ss) = (s == t) && fits rs ss
fits (capture ∷ rs) [] = false
fits (capture ∷ rs) (s ∷ ss) = not (is_empty s) && fits rs ss
fits (rest_of_path ∷ rs) [] = false
fits (rest_of_path ∷ rs) (s ∷ ss) = not (is_empty s) || not (ss == [])

unfoldable pub fits_path : Bytes → Option Route → Bool
fits_path p none = true
fits_path p (some r) = fits r.segments (path_segments p)

-- The number of the first route that is for a path.
unfoldable pub first_fit : List Route → Bytes → ℕ
first_fit [] p = zero
first_fit (r ∷ rs) p =
    let later = first_fit rs p in if fits r.segments (path_segments p) then zero else suc later
