-- ===== src/Web/Pages.antt =====
-- The helpers of the page structs: quire-server/src/quire/web/templates.rs. The templates
-- themselves (askama) are outside. An id of a commit is of ASCII letters and digits, so that a byte
-- of it is a character.
pub mod Links
use quire.Prelude.{
  ℕ, zero, suc, ◌-◌, String, Bool, true, false, not, ◌||◌, Option, none, some, List, [], ◌∷◌, ◌++◌,
  length, select, map, is_some, eqb, ◌==◌, bytes_eq, if◌then◌else◌,
}
use quire.Prelude.Bytes.{Bytes, bytes, starts_with}
use quire.Prelude.Int.{ℤ, pos}
use quire.Secret.{bytes_le}
use quire.Repo.{split}
use quire.Push.Mirror.{reverse}
use quire.Web.{derive_run_state, state_class, format_duration, DurationLabel}

pub record CommitId : Type 0 where
  pub sha : Bytes
  pub change_id : Option Bytes

abbrev pub or_else : Option Bytes → Bytes → Bytes
or_else none d = d
or_else (some s) d = s

-- `&s[..s.len().min(n)]` and `&s[s.len().min(n)..]`
abbrev pub take_min : ℕ → Bytes → Bytes
take_min zero s = []
take_min (suc n) [] = []
take_min (suc n) (c ∷ s) = c ∷ take_min n s

abbrev pub skip_min : ℕ → Bytes → Bytes
skip_min zero s = s
skip_min (suc n) [] = []
skip_min (suc n) (c ∷ s) = skip_min n s

abbrev pub display : CommitId → Bytes
display id = or_else id.change_id id.sha

abbrev pub head : CommitId → Bytes
head id = take_min 4 (display id)

-- `&s[start..end]`
abbrev pub tail : CommitId → Bytes
tail id = skip_min 4 (take_min 8 (display id))

abbrev pub sha_short : Bytes → Bytes
sha_short sha = take_min 8 sha

abbrev pub change_id_head : Bytes → Bytes
change_id_head id = take_min 12 id

abbrev pub change_id_tail : Bytes → Bytes
change_id_tail id = skip_min 12 id

pub record SectionLink : Type 0 where
  pub label : Bytes
  pub href : Bytes
  pub active : Bool

link : Bytes → Bytes → Bytes → Bytes → SectionLink
link repo active label suffix = record {
  label = label;
  href = b'/' ∷ (repo ++ suffix);
  active = active == label;
}

unfoldable pub nav_sections : Bytes → Bytes → Bool → List SectionLink
unfolding link
nav_sections repo active authed =
    link repo active (bytes "overview") []
    ∷ link repo active (bytes "tree") (bytes "/tree")
    ∷ link repo active (bytes "log") (bytes "/log")
    ∷ (if authed then link repo active (bytes "ci") (bytes "/ci") ∷ [] else [])

pub record Crumb : Type 0 where
  pub label : Bytes
  pub href : Option Bytes

abbrev pub with_href : Bytes → Bytes → Crumb
with_href label href = record { label = label; href = some href }

-- The row of the list of runs, and the run of its own page, which has the same fields but the id.
pub record RunListRow : Type 0 where
  pub id : String
  pub outcome : Option String
  pub sha : Bytes
  pub ref_name : Bytes
  pub created_at : ℕ
  pub dispatched_at : Option ℕ
  pub resolved_at : Option ℕ

abbrev pub state : RunListRow → String
state r = derive_run_state r.outcome r.dispatched_at

abbrev pub state_class_of : RunListRow → String
state_class_of r = state_class (state r)

-- str::trim_start_matches: behind the first `skip` characters, which belong to a match
unfoldable pub trim_start_matches : Bytes → ℕ → Bytes → Bytes
trim_start_matches p skip [] = []
trim_start_matches p (suc skip) (c ∷ s) = trim_start_matches p skip s
trim_start_matches p zero (c ∷ s) =
    let rest = trim_start_matches p (length p - 1) s in
    if starts_with p (c ∷ s) then rest else c ∷ s

unfoldable pub branch_short : Bytes → Bytes
unfolding trim_start_matches
branch_short ref_name = trim_start_matches (bytes "refs/heads/") 0 ref_name

abbrev pub has_started : RunListRow → Bool
has_started r = is_some r.dispatched_at

abbrev pub has_finished : RunListRow → Bool
has_finished r = is_some r.resolved_at

abbrev pub is_resolved : RunListRow → Bool
is_resolved r = is_some r.outcome

abbrev pub is_terminal : RunListRow → Bool
is_terminal r = is_resolved r

abbrev pub duration_display : RunListRow → Option DurationLabel
duration_display r = format_duration r.dispatched_at r.resolved_at

unfoldable pub exit_code_filter_nonzero : Option ℤ → Option ℤ
exit_code_filter_nonzero none = none
exit_code_filter_nonzero (some (pos zero)) = none
exit_code_filter_nonzero (some c) = some c

abbrev pub latest_ci_state : List RunListRow → String
latest_ci_state [] = "none"
latest_ci_state (r ∷ rs) = state r

abbrev pub latest_ci_state_class : List RunListRow → String
latest_ci_state_class [] = ""
latest_ci_state_class (r ∷ rs) = state_class_of r

abbrev pub clone_url : Bytes → Bytes → Bytes
clone_url clone_host repo = bytes "https://" ++ clone_host ++ b'/' ∷ (repo ++ bytes ".git")

pub data TreeEntryKind : Type 0 where
  up dir file submodule : TreeEntryKind

pub record TreeEntry : Type 0 where
  pub kind : TreeEntryKind
  pub name : Bytes
  pub last_msg : Bytes
  pub age : Bytes

abbrev pub is_dir : TreeEntry → Bool
is_dir e = elim e.kind [ dir ↦ true | _ ↦ false ]

abbrev pub is_file : TreeEntry → Bool
is_file e = elim e.kind [ file ↦ true | _ ↦ false ]

abbrev pub is_submodule : TreeEntry → Bool
is_submodule e = elim e.kind [ submodule ↦ true | _ ↦ false ]

abbrev pub is_up : TreeEntry → Bool
is_up e = elim e.kind [ up ↦ true | _ ↦ false ]

abbrev pub dir_count : List TreeEntry → ℕ
dir_count entries = length (select is_dir entries)

abbrev pub submodule_count : List TreeEntry → ℕ
submodule_count entries = length (select is_submodule entries)

abbrev pub file_count : List TreeEntry → ℕ
file_count entries = length (select is_file entries)

-- The text before the last slash, if there is one.
abbrev pub before_last_slash : Bytes → Option Bytes
before_last_slash [] = none
before_last_slash (c ∷ s) = elim (before_last_slash s) [
  | some t ↦ some (c ∷ t)
  | none ↦ if eqb c b'/' then some [] else none
]

parent_of : Bytes → Option Bytes → Bytes
parent_of repo none = b'/' ∷ (repo ++ bytes "/tree")
parent_of repo (some up_to) = b'/' ∷ (repo ++ bytes "/tree/" ++ up_to)

unfoldable pub parent_url : Bytes → Bytes → Bytes
unfolding parent_of
parent_url repo [] = b'/' ∷ repo
parent_url repo (c ∷ path) = parent_of repo (before_last_slash (c ∷ path))

unfoldable pub dir_entry_url : Bytes → Bytes → Bytes → Bytes
dir_entry_url repo [] name = b'/' ∷ (repo ++ bytes "/tree/" ++ name)
dir_entry_url repo (c ∷ path) name = b'/' ∷ (repo ++ bytes "/tree/" ++ (c ∷ path) ++ b'/' ∷ name)

-- slice::join with a slash
abbrev pub join_slash : List Bytes → Bytes
join_slash [] = []
join_slash (s ∷ []) = s
join_slash (s ∷ t ∷ ss) = s ++ b'/' ∷ join_slash (t ∷ ss)

-- The loop: the segments already passed, and those to come.
crumbs_from : Bytes → List Bytes → List Bytes → List Crumb
crumbs_from repo before [] = []
crumbs_from repo before (seg ∷ segs) =
    with_href seg (b'/' ∷ (repo ++ bytes "/tree/" ++ join_slash (before ++ seg ∷ [])))
    ∷ crumbs_from repo (before ++ seg ∷ []) segs

-- The same in `build_file_crumbs`.
unfoldable pub build_tree_crumbs : Bytes → Bytes → List Crumb
unfolding crumbs_from
build_tree_crumbs repo [] = []
build_tree_crumbs repo (c ∷ path) = crumbs_from repo [] (split b'/' (c ∷ path))

pub record MirrorLink : Type 0 where
  pub url : Bytes
  pub label : Bytes

-- str::trim_end_matches
unfoldable pub trim_end : Bytes → Bytes → Bytes
unfolding trim_start_matches
trim_end p s = reverse (trim_start_matches (reverse p) 0 (reverse s))

abbrev pub strip_prefix : Bytes → Bytes → Option Bytes
strip_prefix [] s = some s
strip_prefix (p ∷ ps) [] = none
strip_prefix (p ∷ ps) (c ∷ s) = let rest = strip_prefix ps s in if eqb p c then rest else none

without_scheme : Option Bytes → Option Bytes → Bytes → Bytes
without_scheme (some s) o url = s
without_scheme none (some s) url = s
without_scheme none none url = url

-- MirrorLink::new
unfoldable pub mirror_link : Bytes → MirrorLink
unfolding without_scheme trim_end
mirror_link url =
    let stripped =
      without_scheme (strip_prefix (bytes "https://") url) (strip_prefix (bytes "http://") url)
        url in
    record { url = url; label = trim_end (bytes "/") (trim_end (bytes ".git") stripped) }
