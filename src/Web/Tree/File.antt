-- ===== src/Web/Tree/File.antt =====
-- The page of a file, and the choice between it and the page of a directory:
-- quire-server/src/quire/web/handlers/tree.rs.
pub mod Blank
pub mod Fields
use quire.Prelude.{
  ℕ, ◌+◌, ◌*◌, ◌-◌, Bool, true, false, ◌&&◌, Option, none, some, List, [], ◌∷◌, ◌++◌, map, length,
  all, lookup, eqb, leb, ltb, bytes_eq, if◌then◌else◌,
}
use quire.Prelude.Bytes.{Bytes, bytes, occurs}
use quire.Repo.{
  Directory, FoundRepo, found, bad_name, repo_not_found, RepoNameError, resolve_repo_name, repo,
}
use quire.Web.Pages.{or_else, CommitId, trim_end}
use quire.Web.Escape.{html_escape}
use quire.Web.Git.{
  ChangeRow, splitn, first_or_empty, rest_of, str_lines, run_git, commit_id, bookmark,
  recent_changes_for,
}
use quire.Web.Tree.{TreeData, read_tree_data}

-- The size in bytes; the quotients of the larger units are computed as `f64`.
pub data FileSize : Type 0 where
  in_bytes in_kb in_mb : ℕ → FileSize

unfoldable pub format_file_size : ℕ → FileSize
format_file_size n = if ltb n 1024 then in_bytes n else if ltb n 1048576 then in_kb n else in_mb n

pub record FileData : Type 0 where
  pub bookmark : Bytes
  pub head : CommitId
  pub last_change : CommitId
  pub last_change_msg : Bytes
  pub last_change_author : Bytes
  pub last_change_age : Bytes
  pub line_count : ℕ
  pub file_size : FileSize
  pub language : Bytes
  pub mode : Bytes
  pub encoding : Bytes
  pub line_ending : Bytes
  pub lines : List Bytes

-- `rsplit('.').next()`: the text behind the last dot, or all of it
abbrev pub extension : Bytes → Bytes
extension s = elim (after_last s) [ some e ↦ e | none ↦ s ]
  where
    after_last : Bytes → Option Bytes
    after_last [] = none
    after_last (c ∷ t) = elim (after_last t) [
      | some e ↦ some e
      | none ↦ if eqb c b'.' then some t else none
    ]

-- The table of extensions; the rest of them, and any other text, are `text`.
abbrev languages : List (Bytes × Bytes)
languages =
    (bytes "rs", bytes "rust")
    ∷ (bytes "toml", bytes "toml")
    ∷ (bytes "md", bytes "markdown")
    ∷ (bytes "js", bytes "javascript")
    ∷ (bytes "ts", bytes "typescript")
    ∷ (bytes "tsx", bytes "tsx")
    ∷ (bytes "jsx", bytes "jsx")
    ∷ (bytes "py", bytes "python")
    ∷ (bytes "go", bytes "go")
    ∷ (bytes "c", bytes "c")
    ∷ (bytes "h", bytes "c")
    ∷ (bytes "cpp", bytes "cpp")
    ∷ (bytes "hpp", bytes "cpp")
    ∷ (bytes "java", bytes "java")
    ∷ (bytes "rb", bytes "ruby")
    ∷ (bytes "sh", bytes "shell")
    ∷ (bytes "bash", bytes "shell")
    ∷ (bytes "zsh", bytes "shell")
    ∷ (bytes "fish", bytes "shell")
    ∷ (bytes "html", bytes "html")
    ∷ (bytes "css", bytes "css")
    ∷ (bytes "scss", bytes "scss")
    ∷ (bytes "json", bytes "json")
    ∷ (bytes "yaml", bytes "yaml")
    ∷ (bytes "yml", bytes "yaml")
    ∷ (bytes "xml", bytes "xml")
    ∷ (bytes "sql", bytes "sql")
    ∷ (bytes "fnl", bytes "fennel")
    ∷ (bytes "lua", bytes "lua")
    ∷ (bytes "el", bytes "elisp")
    ∷ (bytes "dockerfile", bytes "dockerfile")
    ∷ (bytes "makefile", bytes "makefile")
    ∷ (bytes "lock", bytes "toml")
    ∷ (bytes "txt", bytes "text")
    ∷ (bytes "gitignore", bytes "gitignore")
    ∷ (bytes "gitattributes", bytes "gitignore")
    ∷ (bytes "editorconfig", bytes "ini")
    ∷ (bytes "justfile", bytes "just")
    ∷ (bytes "nix", bytes "nix")
    ∷ []

unfoldable pub detect_language : Bytes → Bytes
detect_language path = or_else (lookup (extension path) languages) (bytes "text")

-- The digits of a `u64`, after what was read of them; `str::parse` fails at any other text, at none
-- and above the largest number.
abbrev digits : ℕ → Bytes → Option ℕ
digits n [] = if ltb n 18446744073709551616 then some n else none
digits n (c ∷ s) =
    let rest = digits (n * 10 + (c - b'0')) s in if leb b'0' c && leb c b'9' then rest else none

unfoldable pub parse_u64 : Bytes → Option ℕ
parse_u64 [] = none
parse_u64 (c ∷ []) = digits 0 (c ∷ [])
parse_u64 (c ∷ d ∷ s) = if eqb c b'+' then digits 0 (d ∷ s) else digits 0 (c ∷ d ∷ s)

abbrev or_zero : Option ℕ → ℕ
or_zero none = 0
or_zero (some n) = n

abbrev is_ascii : Bytes → Bool
is_ascii s = all (λ c. ltb c 128) s

-- What the log line of `%H|%s|%an|%cr` is split into.
pub record LogFields : Type 0 where
  pub sha : Bytes
  pub subject : Bytes
  pub author : Bytes
  pub age : Bytes

unfoldable pub log_fields : Bytes → LogFields
log_fields log =
    let parts = splitn 4 b'|' log in
    record {
      sha = first_or_empty parts;
      subject = first_or_empty (rest_of parts);
      author = first_or_empty (rest_of (rest_of parts));
      age = first_or_empty (rest_of (rest_of (rest_of parts)));
    }

at_head : Bytes → Bytes
at_head path = bytes "HEAD:" ++ path

module _ (git : List Bytes → Option Bytes) where
  -- The file's data, from its text, its log line and its text again.
  file_data : Bytes → Bytes → LogFields → Bytes → FileData
  unfolding at_head
  file_data path blob log raw =
      let lines = map (λ l. html_escape l ++ 10 ∷ []) (str_lines blob) in
      record {
        bookmark = bookmark git;
        head = commit_id git (or_else (run_git git (bytes "rev-parse" ∷ bytes "HEAD" ∷ [])) []);
        last_change = commit_id git log.sha;
        last_change_msg = log.subject;
        last_change_author = log.author;
        last_change_age = log.age;
        line_count = length lines;
        file_size = format_file_size (
            or_zero (
              parse_u64
                (or_else (run_git git (bytes "cat-file" ∷ bytes "-s" ∷ at_head path ∷ [])) [])));
        language = detect_language path;
        mode =
            or_else
              (run_git git
                (bytes "ls-tree" ∷ bytes "--format=%(objectmode)" ∷ bytes "HEAD" ∷ path ∷ []))
              (bytes "100644");
        encoding = if is_ascii raw then bytes "ascii" else bytes "utf-8";
        line_ending = if occurs (13 ∷ 10 ∷ []) raw then bytes "crlf" else bytes "lf";
        lines = lines;
      }

  file_log : Bytes → List Bytes
  file_log path =
      bytes "log"
      ∷ bytes "-1"
      ∷ bytes "--format=%H|%s|%an|%cr"
      ∷ bytes "HEAD"
      ∷ bytes "--"
      ∷ path
      ∷ []

  from_outputs : Bytes → Option Bytes → Option Bytes → Option Bytes → Option FileData
  unfolding file_data
  from_outputs path (some blob) (some log) (some raw) =
      some (file_data path blob (log_fields log) raw)
  from_outputs path _ _ _ = none

  unfoldable pub read_file_data : Bytes → Option FileData
  unfolding from_outputs file_log at_head
  read_file_data path =
      from_outputs path (run_git git (bytes "show" ∷ at_head path ∷ []))
        (run_git git (file_log path))
        (run_git git (bytes "cat-file" ∷ bytes "-p" ∷ at_head path ∷ []))

-- What is answered: a page's data, 404, or an error.
pub data Page : Type 0 where
  tree_page : Bytes → TreeData → List ChangeRow → Page
  file_page : Bytes → FileData → Page
  not_found : Page
  repo_error : FoundRepo → Page

file_or_404 : Bytes → Option FileData → Page
file_or_404 repo_display none = not_found
file_or_404 repo_display (some data_) = file_page repo_display data_

page_of : (List Bytes → Option Bytes) → Bytes → Bytes → Option TreeData → Page
unfolding file_or_404
page_of git repo_display path (some data_) =
    tree_page repo_display data_ (recent_changes_for git (some path) repo_display)
page_of git repo_display path none = file_or_404 repo_display (read_file_data git path)

unfoldable pub tree_or_file : (List Bytes → Option Bytes) → Bytes → Bytes → Page
unfolding page_of
tree_or_file git repo_display path = page_of git repo_display path (read_tree_data git path)

module _ (is_dir : Directory → Bool) (base_dir : Directory) (git : List Bytes → Option Bytes) where
  page_in : Bytes → Bytes → FoundRepo → Page
  page_in repo_display path (found r) = tree_or_file git repo_display path
  page_in repo_display path o = repo_error o

  -- Git runs in the repository that is found.
  unfoldable pub tree_or_file_at_path : Bytes → Bytes → Page
  unfolding page_in
  tree_or_file_at_path name path =
      page_in (trim_end (bytes ".git") name) path (repo is_dir base_dir (resolve_repo_name name))
