-- ===== src/Repo.antt =====
-- Names of repositories and where they lie: `RepoName`, `Repo` and `Quire::repo` of
-- quire-server/src/quire/mod.rs, and the names that the web layer lets into paths,
-- quire-server/src/quire/web/db.rs. Texts are their bytes. Which directories exist is an argument.
pub mod Names
pub mod Command
pub mod Store
mod Tests
use quire.Prelude.{
  ℕ, Bool, true, false, not, ◌&&◌, ◌||◌, List, [], ◌∷◌, ◌++◌, any, length, leb, eqb, ◌==◌, bytes_eq,
  if◌then◌else◌,
}
use quire.Prelude.Bytes.{Bytes, bytes, starts_with, occurs, contains}

pub data RepoNameError : Type 0 where
  empty : RepoNameError
  invalid : Bytes → RepoNameError
  missing_git_suffix : Bytes → RepoNameError
  too_many_segments : Bytes → RepoNameError
  path_outside_base : Bytes → RepoNameError

pub data ParsedName : Type 0 where
  accepted : Bytes → ParsedName
  refused : RepoNameError → ParsedName

-- str::ends_with
abbrev pub ends_with : Bytes → Bytes → Bool
ends_with p [] = p == []
ends_with p (c ∷ s) = (p == c ∷ s) || ends_with p s

abbrev pub push_byte : ℕ → List Bytes → List Bytes
push_byte c [] = (c ∷ []) ∷ []
push_byte c (x ∷ xs) = (c ∷ x) ∷ xs

-- str::split at one byte: a list of at least one piece
unfoldable pub split : ℕ → Bytes → List Bytes
split sep [] = [] ∷ []
split sep (c ∷ s) = let rest = split sep s in if eqb c sep then [] ∷ rest else push_byte c rest

unfoldable pub is_empty : Bytes → Bool
is_empty [] = true
is_empty (c ∷ s) = false

unfoldable pub is_bad_segment : Bytes → Bool
is_bad_segment seg = is_empty seg || seg == bytes "." || seg == bytes ".." || seg == bytes ".git"

-- RepoName::from_str
unfoldable pub from_str : Bytes → ParsedName
from_str s =
    if is_empty s
    then refused empty
    else if occurs (bytes "..") s
    then refused (invalid s)
    else if not (ends_with (bytes ".git") s)
    then refused (missing_git_suffix s)
    else if occurs (bytes "//") s
    then refused (invalid s)
    else if leb 3 (length (split b'/' s))
    then refused (too_many_segments s)
    else if any is_bad_segment (split b'/' s)
    then refused (invalid s)
    else accepted s

-- A directory as the components on the way to it, the last first, without symbolic links.
abbrev pub Directory : Type 0
Directory = List Bytes

abbrev pub parent : Directory → Directory
parent [] = []
parent (c ∷ d) = d

-- What the components of a path lead to.
unfoldable pub walk : Directory → List Bytes → Directory
walk d [] = d
walk d (seg ∷ segs) =
    let skip = walk d segs in
    let up = walk (parent d) segs in
    let down = walk (seg ∷ d) segs in
    if is_empty seg || seg == bytes "." then skip else if seg == bytes ".." then up else down

-- Path::join: an absolute path takes the place of the directory.
unfoldable pub join : Directory → Bytes → Directory
join d path = walk (if starts_with (bytes "/") path then [] else d) (split b'/' path)

pub record Repo : Type 0 where
  pub quire_root : Directory
  pub name : Bytes

unfoldable pub new : Directory → Bytes → Repo
new repos_base name = record { quire_root = parent repos_base; name = name }

unfoldable pub path : Repo → Directory
path r = join (join r.quire_root (bytes "repos")) r.name

unfoldable pub runs_base : Repo → Directory
runs_base r = join (join r.quire_root (bytes "runs")) r.name

pub data FoundRepo : Type 0 where
  found : Repo → FoundRepo
  bad_name : RepoNameError → FoundRepo
  repo_not_found : Bytes → FoundRepo

unfoldable pub look_up : (Directory → Bool) → Directory → ParsedName → FoundRepo
look_up is_dir base_dir (refused e) = bad_name e
look_up is_dir base_dir (accepted name) =
    let r = new (join base_dir (bytes "repos")) name in
    if is_dir (path r) then found r else repo_not_found name

-- Quire::repo
unfoldable pub repo : (Directory → Bool) → Directory → Bytes → FoundRepo
unfolding look_up
repo is_dir base_dir name = look_up is_dir base_dir (from_str name)

unfoldable pub resolve_repo_name : Bytes → Bytes
resolve_repo_name slug = if ends_with (bytes ".git") slug then slug else slug ++ bytes ".git"

unfoldable pub is_safe_path_segment : Bytes → Bool
is_safe_path_segment s =
    not (is_empty s)
    && not (contains b'/' s)
    && not (contains b'\\' s)
    && not (contains 0 s)
    && not (s == bytes ".")
    && not (s == bytes "..")
