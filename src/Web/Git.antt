-- ===== src/Web/Git.antt =====
-- `RepoView` of quire-server/src/quire/web/handlers/git.rs, whose `run` is `run_git`. Git is an
-- argument: what it writes to its output, for its arguments, if it succeeds and writes UTF-8. The
-- configuration of mirrors and the reading of Markdown are outside.
pub mod Outputs
use quire.Prelude.{
  ℕ, zero, suc, Bool, true, false, Option, none, some, List, [], ◌∷◌, ◌++◌, eqb, if◌then◌else◌,
}
use quire.Prelude.Bytes.{Bytes, bytes}
use quire.Push.Hook.{stdin_lines}
use quire.Push.Mirror.{trim}
use quire.Web.Pages.{CommitId, or_else, strip_prefix}

pub record HeadInfo : Type 0 where
  pub id : CommitId
  pub description : Bytes
  pub age : Bytes
  pub bookmark : Bytes

pub record ChangeRow : Type 0 where
  pub id : CommitId
  pub description : Bytes
  pub age : Bytes
  pub commit_url : Bytes

-- str::split_once at a character
abbrev pub split_once : ℕ → Bytes → Option (Bytes × Bytes)
split_once sep [] = none
split_once sep (c ∷ s) =
    let rest = split_once sep s in
    if eqb c sep then some ([], s) else elim rest [ none ↦ none | some (a, b) ↦ some (c ∷ a, b) ]

-- str::splitn at a character
unfoldable pub splitn : ℕ → ℕ → Bytes → List Bytes
splitn zero sep s = []
splitn (suc zero) sep s = s ∷ []
splitn (suc (suc n)) sep s = elim (split_once sep s) [
  | none ↦ s ∷ []
  | some (a, b) ↦ a ∷ splitn (suc n) sep b
]

-- `next().unwrap_or("")`
abbrev pub first_or_empty : List Bytes → Bytes
first_or_empty [] = []
first_or_empty (x ∷ xs) = x

abbrev pub rest_of : List Bytes → List Bytes
rest_of [] = []
rest_of (x ∷ xs) = xs

-- `str::lines` ends its pieces as `Stdin::lines` does.
abbrev pub str_lines : Bytes → List Bytes
str_lines s = stdin_lines s

abbrev pub unless_empty : Bytes → Option Bytes
unless_empty [] = none
unless_empty (c ∷ s) = some (c ∷ s)

trimmed : Option Bytes → Option Bytes
trimmed none = none
trimmed (some out) = unless_empty (trim out)

-- The loop of `change_id`.
header_id : List Bytes → Option Bytes
header_id [] = none
header_id ([] ∷ ls) = none
header_id ((c ∷ l) ∷ ls) = elim (strip_prefix (bytes "change-id ") (c ∷ l)) [
  | some id ↦ some (trim id)
  | none ↦ header_id ls
]

module _ (git : List Bytes → Option Bytes) where
  unfoldable pub run_git : List Bytes → Option Bytes
  unfolding trimmed
  run_git args = trimmed (git args)

  unfoldable pub change_id : Bytes → Option Bytes
  unfolding header_id
  change_id sha = elim (run_git (bytes "cat-file" ∷ bytes "-p" ∷ sha ∷ [])) [
    | none ↦ none
    | some raw ↦ header_id (str_lines raw)
  ]

  abbrev pub commit_id : Bytes → CommitId
  commit_id sha = record { sha = sha; change_id = change_id sha }

  abbrev pub bookmark : Bytes
  bookmark =
      or_else (run_git (bytes "symbolic-ref" ∷ bytes "--short" ∷ bytes "HEAD" ∷ [])) (bytes "main")

  head_of : List Bytes → Option HeadInfo
  head_of [] = none
  head_of (sha ∷ ls) = some (record {
    id = commit_id sha;
    description = first_or_empty ls;
    age = first_or_empty (rest_of ls);
    bookmark = bookmark;
  })

  unfoldable pub head_info : Option HeadInfo
  unfolding head_of
  head_info = elim (run_git (bytes "log" ∷ bytes "-1" ∷ bytes "--format=%H%n%s%n%cr" ∷ [])) [
    | none ↦ none
    | some log ↦ head_of (str_lines log)
  ]

  -- The `filter_map`; no line has no field.
  unfoldable pub change_rows : Bytes → List Bytes → List ChangeRow
  change_rows repo [] = []
  change_rows repo (line ∷ lines) =
      let parts = splitn 3 b'|' line in
      let sha = first_or_empty parts in
      record {
        id = commit_id sha;
        description = first_or_empty (rest_of parts);
        age = first_or_empty (rest_of (rest_of parts));
        commit_url = b'/' ∷ (repo ++ bytes "/commits/" ++ sha);
      }
      ∷ change_rows repo lines

  path_args : Option Bytes → List Bytes
  path_args none = []
  path_args (some []) = []
  path_args (some (c ∷ p)) = bytes "--" ∷ (c ∷ p) ∷ []

  unfoldable pub recent_changes_for : Option Bytes → Bytes → List ChangeRow
  unfolding path_args
  recent_changes_for path repo = change_rows repo (
      str_lines (
        or_else (run_git (bytes "log" ∷ bytes "-12" ∷ bytes "--format=%H|%s|%cr" ∷ path_args path))
          []))

  abbrev pub recent_changes : Bytes → List ChangeRow
  recent_changes repo = recent_changes_for none repo

  -- The first of the names that git shows, before Markdown is read.
  first_shown : List Bytes → Option Bytes
  first_shown [] = none
  first_shown (candidate ∷ cs) = elim (run_git (bytes "show" ∷ candidate ∷ [])) [
    | some raw ↦ some raw
    | none ↦ first_shown cs
  ]

  unfoldable pub readme : Option Bytes
  unfolding first_shown
  readme = first_shown (bytes "HEAD:README.md" ∷ bytes "HEAD:readme.md" ∷ bytes "HEAD:README" ∷ [])
