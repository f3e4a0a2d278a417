-- ===== src/Web/Tests.antt =====
-- The pages at concrete inputs.
use quire.Prelude.{
  ◌≡◌, refl, true, false, ◌&&◌, Option, none, some, List, [], ◌∷◌, ◌++◌, all, ◌==◌, bytes_eq,
  string_eq, if◌then◌else◌,
}
use quire.Prelude.Bytes.{Bytes, bytes}
use quire.Prelude.Int.{pos}
use quire.Push.Hook.{stdin_lines}
use quire.Database.{RunRow, check_run, known_outcome}
use quire.Web.{
  derive_run_state, state_class, format_ms_duration, format_duration, minutes_seconds, days_hours,
  relative_label, weeks,
}
use quire.Web.Durations.{Measures, format_ms_duration-Measures}
use quire.Web.States.{is_waiting, derive_run_state-row}
use quire.Web.Escape.{
  html_escape, flat_map, entity, is_plain, html_text, html_escape-flat_map, html_text-html_escape,
}
use quire.Web.Git.{run_git, change_id}
use quire.Web.Commit.{
  CommitFields, CommitAnswer, shown, panicked, cut, commit_fields, commit_page, parse_secs,
  from_rest,
}
use quire.Web.Tree.File.{log_fields, tree_or_file, not_found}
use quire.Web.Tree.File.Fields.{log_fields-barred}
use quire.Web.Tree.File.Blank.{tree_or_file-blank}

format_ms_duration-Measures_example : Measures 125000 (format_ms_duration (pos 125000))
format_ms_duration-Measures_example = format_ms_duration-Measures (pos 125000)

-- The labels themselves.
labels_of :
    (format_ms_duration (pos 125000) ≡ minutes_seconds 2 5)
    × (format_duration (some 1000) (some 100000000) ≡ some (days_hours 1 3))
    × (relative_label 2000000 ≡ weeks 3)
unfolding format_ms_duration format_duration relative_label
labels_of = (refl, refl, refl)

abbrev row : RunRow
row = record {
  id = "one";
  repo = "app.git";
  ref_name = "refs/heads/main";
  sha = "abc";
  pushed_at_ms = 5;
  created_at = 10;
  dispatched_at = some 11;
  resolved_at = some 12;
  outcome = some "succeeded";
  run_token = none;
  traceparent = none;
}

state_of_row :
    (is_waiting (derive_run_state (some "succeeded") (some 11)) ≡ false)
    × ((state_class (derive_run_state (some "succeeded") (some 11)) == "c-ok") ≡ true)
unfolding check_run known_outcome
state_of_row = derive_run_state-row row refl

escaped_in_one_pass : html_escape (bytes "a<b && \"c\"") ≡ flat_map entity (bytes "a<b && \"c\"")
escaped_in_one_pass = html_escape-flat_map (bytes "a<b && \"c\"")

html_text-html_escape_example :
    (all is_plain (html_escape (bytes "a<b &lt; \"c\"")) ≡ true)
    × (html_text 0 (html_escape (bytes "a<b &lt; \"c\"")) ≡ bytes "a<b &lt; \"c\"")
html_text-html_escape_example = html_text-html_escape (bytes "a<b &lt; \"c\"")

-- A directory with a file and a directory, and a file that is empty.
abbrev git : List Bytes → Option Bytes
git (cmd ∷ arg ∷ []) =
    if cmd == bytes "ls-tree" && arg == bytes "HEAD:src"
    then some (bytes "100644 blob abc\tb.rs\n040000 tree def\tlib\n")
    else if cmd == bytes "show" && arg == bytes "HEAD:empty"
    then some []
    else none
git _ = none

barred_subject :
    log_fields (bytes "abc|a|b|c|me|now")
    ≡ record { sha = bytes "abc"; subject = bytes "a"; author = bytes "b"; age = bytes "c|me|now" }
barred_subject =
    log_fields-barred (bytes "abc") (bytes "a") (bytes "b") (bytes "c") (bytes "me") (bytes "now")
      refl refl refl

blank_file_missing : tree_or_file git (bytes "app") (bytes "empty") ≡ not_found
blank_file_missing = tree_or_file-blank git (bytes "app") (bytes "mpty") b'e' [] refl refl refl

abbrev commit : CommitFields
commit = record {
  sha = bytes "abc";
  parents = bytes "def";
  subject = bytes "fix";
  body = bytes "so\nit works";
  author = bytes "me";
  email = bytes "me@quire";
  timestamp_ms = pos 7000;
}

-- What git writes for an option in place of a commit: the text of the option, and the newest commit.
abbrev option_git : List Bytes → Option Bytes
option_git (a ∷ b ∷ []) = some (b ++ 10 ∷ [])
option_git (a ∷ b ∷ c ∷ d ∷ []) = some (bytes "abc\ndef\nfix\nso\nit works\nme\nme@quire\n7\n")
option_git _ = none

abbrev fields_shown : CommitAnswer → Option CommitFields
fields_shown (shown page) = some page.fields
fields_shown _ = none

option_as_commit :
    fields_shown (commit_page option_git (bytes "app") (bytes "--output=x") false) ≡ some commit
unfolding commit_page run_git stdin_lines commit_fields from_rest parse_secs cut change_id
option_as_commit = refl

-- With an option that gives a format of its own, the first line is any text, and one whose fourth byte is
-- within a character makes the handler panic.
abbrev format_git : List Bytes → Option Bytes
format_git (a ∷ b ∷ c ∷ d ∷ []) =
    some ((b'a' ∷ 128512 ∷ b'b' ∷ 128512 ∷ []) ++ bytes "\ndef\nfix\nme\nme@quire\n7\n")
format_git _ = none

format_panics : commit_page format_git (bytes "app") (bytes "--format=x") false ≡ panicked
unfolding commit_page run_git stdin_lines commit_fields from_rest parse_secs cut change_id
format_panics = refl
