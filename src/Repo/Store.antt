-- ===== src/Repo/Store.antt =====
-- The repositories on disk: `Quire::repos` and `Repo::from_path` of quire-server/src/quire/mod.rs,
-- and the commands of quire-server/src/bin/quire/commands/repo.rs. A file system is the list of its
-- directories, without links; `git init` is outside, and so is what makes a call of the system fail.
pub mod Listed
pub mod Removed
pub mod FromPath
mod Tests
use quire.Prelude.{
  ℕ, Bool, true, false, not, ◌&&◌, ◌||◌, Option, none, some, List, [], ◌∷◌, ◌++◌, any, length, map,
  select, leb, ◌==◌, bytes_eq, path_eq, if◌then◌else◌,
}
use quire.Prelude.Bytes.{Bytes, bytes}
use quire.Prelude.Sorting.{order_by}
use quire.Secret.{bytes_le}
use quire.Repo.{
  RepoNameError, path_outside_base, ParsedName, accepted, refused, ends_with, from_str, Directory,
  parent, join, Repo, new, path, FoundRepo, found, bad_name, repo_not_found, repo,
}

abbrev pub FileSystem : Type 0
FileSystem = List Directory

unfoldable pub is_dir : FileSystem → Directory → Bool
is_dir fs d = any (λ e. e == d) fs

-- Whether a directory is the first or below it.
unfoldable pub at_or_below : Directory → Directory → Bool
at_or_below top [] = [] == top
at_or_below top (c ∷ d) = (c ∷ d) == top || at_or_below top d

-- Path::strip_prefix, in front of some components
unfoldable pub strip_prefix : Directory → Directory → List Bytes → Option (List Bytes)
strip_prefix top [] rest = if [] == top then some rest else none
strip_prefix top (c ∷ d) rest =
    let further = strip_prefix top d (c ∷ rest) in if (c ∷ d) == top then some rest else further

-- The text of a relative path.
unfoldable pub slashed : List Bytes → Bytes
slashed [] = []
slashed (c ∷ []) = c
slashed (c ∷ d ∷ cs) = c ++ b'/' ∷ slashed (d ∷ cs)

abbrev pub parsed_name : ParsedName → Option Bytes
parsed_name (accepted n) = some n
parsed_name (refused e) = none

abbrev pub add_name : Option Bytes → List Bytes → List Bytes
add_name none ns = ns
add_name (some n) ns = n ∷ ns

-- `lossy` is `to_string_lossy`, which replaces what is not UTF-8.
module _ (lossy : Bytes → Bytes) where
  abbrev pub name_below : Option (List Bytes) → Option Bytes
  name_below none = none
  name_below (some cs) =
      if leb (length cs) 2 then parsed_name (from_str (lossy (slashed cs))) else none

  -- What `repos` makes of a directory that it meets, at most two levels down.
  abbrev pub entry_name : Directory → Directory → Option Bytes
  entry_name repos_dir d = name_below (strip_prefix repos_dir d [])

  abbrev pub entry_names : Directory → FileSystem → List Bytes
  entry_names repos_dir [] = []
  entry_names repos_dir (d ∷ fs) = add_name (entry_name repos_dir d) (entry_names repos_dir fs)

abbrev pub by_name : Repo → Repo → Bool
by_name a b = bytes_le a.name b.name

-- Quire::repos
unfoldable pub repos : (Bytes → Bytes) → FileSystem → Directory → List Repo
repos lossy fs base_dir = order_by by_name (
    map (new (join base_dir (bytes "repos")))
      (entry_names lossy (join base_dir (bytes "repos")) fs))

-- `quire repo list`, as the lines that it prints
unfoldable pub list : (Bytes → Bytes) → FileSystem → Directory → List Bytes
list lossy fs base_dir = map (λ (r : Repo). r.name) (repos lossy fs base_dir)

-- Repo::from_path
pub data PathRepo : Type 0 where
  at_path : Repo → PathRepo
  no_repo : RepoNameError → PathRepo

unfoldable pub named : Directory → ParsedName → PathRepo
named repos_base (refused e) = no_repo e
named repos_base (accepted n) = at_path (new repos_base n)

unfoldable pub from_relative : (Bytes → Bytes) → Directory → Bytes → Option (List Bytes) → PathRepo
from_relative lossy repos_base display none = no_repo (path_outside_base display)
from_relative lossy repos_base display (some cs) = named repos_base (from_str (lossy (slashed cs)))

-- The last argument is the text of the path.
unfoldable pub from_path : (Bytes → Bytes) → Directory → Directory → Bytes → PathRepo
unfolding from_relative named
from_path lossy repos_base d display =
    from_relative lossy repos_base display (strip_prefix repos_base d [])

-- How a call that changes the file system goes; when it fails, it may have done a part.
pub data Outside : Type 0 where
  succeeds : Outside
  fails : FileSystem → Outside

abbrev pub put_dir : Directory → FileSystem → FileSystem
put_dir d fs = if is_dir fs d then fs else d ∷ fs

-- fs::create_dir_all
unfoldable pub create_dir_all : Directory → FileSystem → FileSystem
create_dir_all [] fs = put_dir [] fs
create_dir_all (c ∷ d) fs = put_dir (c ∷ d) (create_dir_all d fs)

-- What a call of git in the directory `repos` does: the directories that it makes, and whether it
-- succeeds.
pub record GitInit : Type 0 where
  pub made : List Directory
  pub success : Bool

abbrev pub Git : Type 0
Git = List Bytes → GitInit

pub data NewRepo : Type 0 where
  name_refused : RepoNameError → NewRepo
  already_exists : Bytes → NewRepo
  no_parent init_failed : NewRepo
  created : Bytes → NewRepo

-- `quire repo new`
unfoldable pub normalized : Bytes → Bytes
normalized raw = if ends_with (bytes ".git") raw then raw else raw ++ bytes ".git"

abbrev pub init_result : Bytes → GitInit → NewRepo
init_result name git = if git.success then created name else init_failed

abbrev pub init_args : Bytes → List Bytes
init_args name = bytes "init" ∷ bytes "--bare" ∷ bytes "--initial-branch=main" ∷ name ∷ []

create_at : Repo → Outside → Git → FileSystem → NewRepo × FileSystem
create_at r (fails fs') git fs = (no_parent, fs')
create_at r succeeds git fs = (
  init_result r.name (git (init_args r.name)),
  (git (init_args r.name)).made ++ create_dir_all (parent (path r)) fs,
)

create_named : Directory → Outside → Git → ParsedName → FileSystem → NewRepo × FileSystem
create_named repos_dir mkdir git (refused e) fs = (name_refused e, fs)
create_named repos_dir mkdir git (accepted name) fs =
    let r = new repos_dir name in
    if is_dir fs (path r) then (already_exists name, fs) else create_at r mkdir git fs

unfoldable pub new_command : Directory → Outside → Git → Bytes → FileSystem → NewRepo × FileSystem
unfolding create_named create_at
new_command base_dir mkdir git raw fs =
    create_named (join base_dir (bytes "repos")) mkdir git (from_str (normalized raw)) fs

-- fs::remove_dir_all
unfoldable pub remove_dir_all : Directory → FileSystem → FileSystem
remove_dir_all d fs = select (λ e. not (at_or_below d e)) fs

-- fs::remove_dir, whose failure is ignored: at a directory that holds anything it does nothing.
unfoldable pub remove_dir : (Directory → Bool) → Directory → FileSystem → FileSystem
remove_dir has_files d fs =
    if has_files d || any (λ e. at_or_below d e && not (e == d)) fs
    then fs
    else select (λ e. not (e == d)) fs

pub data RmRepo : Type 0 where
  not_there : FoundRepo → RmRepo
  remove_failed : RmRepo
  removed : RmRepo

unfoldable pub clean_up : (Directory → Bool) → Directory → Directory → FileSystem → FileSystem
clean_up has_files repos_dir group fs =
    if group == repos_dir then fs else remove_dir has_files group fs

rm_repo : (Directory → Bool) → Directory → Outside → FoundRepo → FileSystem → RmRepo × FileSystem
rm_repo has_files repos_dir rmdir (found r) fs = elim rmdir [
  | fails fs' ↦ (remove_failed, fs')
  | succeeds ↦
      (removed, clean_up has_files repos_dir (parent (path r)) (remove_dir_all (path r) fs))
]
rm_repo has_files repos_dir rmdir o fs = (not_there o, fs)

-- `quire repo rm`
unfoldable pub rm :
    (Directory → Bool) → Directory → Outside → Bytes → FileSystem → RmRepo × FileSystem
unfolding rm_repo clean_up
rm has_files base_dir rmdir name fs =
    rm_repo has_files (join base_dir (bytes "repos")) rmdir (repo (is_dir fs) base_dir name) fs
