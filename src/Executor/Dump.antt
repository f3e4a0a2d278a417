-- ===== src/Executor/Dump.antt =====
-- `DumpLogsOnDrop` of quire-ci/src/main.rs: what is printed of the logs of a run that was given no
-- directory for them. What the directories hold is an argument.
pub mod Printed
mod Tests
use quire.Prelude.{
  ℕ, Bool, true, false, Option, none, some, List, [], ◌∷◌, ◌++◌, map, if◌then◌else◌,
}
use quire.Prelude.Bytes.{Bytes, bytes}
use quire.Prelude.Sorting.{order_by}
use quire.Secret.{bytes_le}
use quire.Push.Hook.{stdin_lines}
use quire.Web.Git.{splitn}

-- A file with its text, if it can be read.
pub record LogEntry : Type 0 where
  pub file_name : Bytes
  pub contents : Option Bytes

-- The directory of a job, with its files if it can be read.
pub record JobEntry : Type 0 where
  pub file_name : Bytes
  pub files : Option (List LogEntry)

-- `parts.nth(3).unwrap_or(line)`
abbrev pub nth_three : List Bytes → Bytes → Bytes
nth_three (a ∷ b ∷ c ∷ d ∷ rest) line = d
nth_three _ line = line

unfoldable pub stripped : Bytes → Bytes
stripped line = nth_three (splitn 4 b' ' line) line

abbrev pub header : Bytes → Bytes → Bytes
header job file = bytes "==> " ++ (job ++ b'/' ∷ file)

-- The lines printed, and whether all went well so far.
abbrev pub Printed : Type 0
Printed = List Bytes × Bool

abbrev pub and_then : Printed → Printed → Printed
and_then (lines, true) (more, ok) = (lines ++ more, ok)
and_then (lines, false) rest = (lines, false)

unfoldable pub dump_contents : Option Bytes → Printed
dump_contents none = ([], false)
dump_contents (some s) = (map stripped (stdin_lines s), true)

unfoldable pub dump_file : Bytes → LogEntry → Printed
unfolding dump_contents
dump_file job e = and_then (header job e.file_name ∷ [], true) (dump_contents e.contents)

dump_files : Bytes → List LogEntry → Printed
dump_files job [] = ([], true)
dump_files job (e ∷ es) = and_then (dump_file job e) (dump_files job es)

abbrev pub by_file_name : LogEntry → LogEntry → Bool
by_file_name a b = bytes_le a.file_name b.file_name

dump_job : Bytes → Option (List LogEntry) → Printed
dump_job job none = ([], false)
dump_job job (some es) = dump_files job (order_by by_file_name es)

dump_jobs : List JobEntry → Printed
unfolding dump_job
dump_jobs [] = ([], true)
dump_jobs (j ∷ js) = and_then (dump_job j.file_name j.files) (dump_jobs js)

abbrev pub by_job_name : JobEntry → JobEntry → Bool
by_job_name a b = bytes_le a.file_name b.file_name

-- The argument is what the directory `jobs` holds, if it can be read.
unfoldable pub dump : Option (List JobEntry) → Printed
unfolding dump_jobs dump_files
dump none = ([], false)
dump (some jobs) = dump_jobs (order_by by_job_name jobs)
