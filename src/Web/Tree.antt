-- ===== src/Web/Tree.antt =====
-- The pages of directories and files: quire-server/src/quire/web/handlers/tree.rs, up to the
-- templates. Git is an argument, as in `Git`.
pub mod Sorted
pub mod File
use quire.Prelude.{
  ℕ, zero, suc, ◌+◌, ◌*◌, ◌-◌, Bool, true, false, not, ◌&&◌, ◌||◌, Option, none, some, List, [],
  ◌∷◌, ◌++◌, map, length, all, lookup, eqb, leb, ltb, ◌==◌, bytes_eq, if◌then◌else◌,
}
use quire.Prelude.Bytes.{Bytes, bytes, occurs}
use quire.Secret.{bytes_le}
use quire.Repo.{Repo, FoundRepo, found, bad_name, repo_not_found, RepoNameError, resolve_repo_name}
use quire.Push.Hook.{split_whitespace}
use quire.Web.Pages.{
  or_else, CommitId, Crumb, SectionLink, nav_sections, build_tree_crumbs, TreeEntryKind, up, dir,
  file, submodule, TreeEntry, trim_end,
}
use quire.Web.Escape.{html_escape}
use quire.Web.Git.{
  ChangeRow, split_once, splitn, first_or_empty, rest_of, str_lines, run_git, commit_id, bookmark,
  recent_changes_for,
}

kind_of : Bytes → Bytes → TreeEntryKind
kind_of mode obj_type =
    if mode == bytes "160000" || obj_type == bytes "commit"
    then submodule
    else if obj_type == bytes "tree"
    then dir
    else file

abbrev pub Raw : Type 0
Raw = TreeEntryKind × Bytes

-- A line of `git ls-tree`, if it has a tab.
entry_of : Option (Bytes × Bytes) → List Raw → List Raw
unfolding kind_of
entry_of none rest = rest
entry_of (some (meta, name)) rest =
    let parts = split_whitespace meta in
    (kind_of (first_or_empty parts) (first_or_empty (rest_of parts)), name) ∷ rest

unfoldable pub raw_entries : List Bytes → List Raw
unfolding entry_of
raw_entries [] = []
raw_entries (line ∷ lines) = entry_of (split_once 9 line) (raw_entries lines)

abbrev pub dir_first : TreeEntryKind → ℕ
dir_first dir = 1
dir_first submodule = 1
dir_first up = 0
dir_first file = 0

-- `bo.cmp(&ao).then(an.cmp(bn))` is not greater.
abbrev pub comes_before : Raw → Raw → Bool
comes_before a b =
    ltb (dir_first b.0) (dir_first a.0) || (eqb (dir_first a.0) (dir_first b.0) && bytes_le a.1 b.1)

-- slice::sort_by, which keeps the order of elements that compare as equal
insert_entry : Raw → List Raw → List Raw
insert_entry e [] = e ∷ []
insert_entry e (x ∷ xs) =
    let rest = insert_entry e xs in if comes_before e x then e ∷ x ∷ xs else x ∷ rest

unfoldable pub sort_entries : List Raw → List Raw
unfolding insert_entry
sort_entries [] = []
sort_entries (e ∷ es) = insert_entry e (sort_entries es)

abbrev entry_path : Bytes → Bytes → Bytes
entry_path [] name = name
entry_path (c ∷ path) name = (c ∷ path) ++ b'/' ∷ name

-- Both fields, or two empty ones.
unfoldable pub two_fields : Option Bytes → Bytes × Bytes
two_fields none = ([], [])
two_fields (some s) = elim (splitn 2 b'|' s) [ msg ∷ age ∷ xs ↦ (msg, age) | _ ↦ ([], []) ]

abbrev pub up_entry : Bytes → List TreeEntry
up_entry [] = []
up_entry (c ∷ path) = record { kind = up; name = bytes ".."; last_msg = []; age = [] } ∷ []

pub record TreeData : Type 0 where
  pub bookmark : Bytes
  pub head : CommitId
  pub entries : List TreeEntry

abbrev pub ls_target : Bytes → Bytes
ls_target [] = bytes "HEAD"
ls_target (c ∷ path) = bytes "HEAD:" ++ c ∷ path

module _ (git : List Bytes → Option Bytes) where
  info_args : Bytes → List Bytes
  info_args path =
      bytes "log" ∷ bytes "-1" ∷ bytes "--format=%s|%cr" ∷ bytes "HEAD" ∷ bytes "--" ∷ path ∷ []

  unfoldable pub tree_entries : Bytes → List Raw → List TreeEntry
  unfolding info_args
  tree_entries path [] = []
  tree_entries path ((kind, name) ∷ raw) =
      let info = two_fields (run_git git (info_args (entry_path path name))) in
      record { kind = kind; name = name; last_msg = info.0; age = info.1 } ∷ tree_entries path raw

  listed : Bytes → Bytes → TreeData
  listed path ls_out = record {
    bookmark = bookmark git;
    head = commit_id git (or_else (run_git git (bytes "rev-parse" ∷ bytes "HEAD" ∷ [])) []);
    entries = up_entry path ++ tree_entries path (sort_entries (raw_entries (str_lines ls_out)));
  }

  tree_data : Bytes → Option Bytes → Option TreeData
  unfolding listed
  tree_data path none = none
  tree_data path (some ls_out) = some (listed path ls_out)

  unfoldable pub read_tree_data : Bytes → Option TreeData
  unfolding tree_data
  read_tree_data path = tree_data path (run_git git (bytes "ls-tree" ∷ ls_target path ∷ []))
