-- ===== src/Executor/Dump/Tests.antt =====
-- The logs of a run, printed.
use quire.Prelude.{◌≡◌, refl, true, some, [], ◌∷◌}
use quire.Prelude.Bytes.{Bytes, bytes}
use quire.Prelude.Int.{pos}
use quire.Prelude.Sorting.{order_by}
use quire.Push.Hook.{stdin_lines}
use quire.Runtime.{ShOutput, cri_log}
use quire.Web.Git.{splitn}
use quire.Executor.Dump.{LogEntry, dump, dump_file, stripped, dump_contents}
use quire.Executor.Dump.Printed.{dump_file-cri_log}

abbrev output : ShOutput
output = record {
  exit = pos 0;
  stdout = bytes "one two three four\nfive\n";
  stderr = bytes "oops";
  cmd = bytes "make";
}

dump_file-cri_log_example :
    dump_file
      (bytes "build")
      (record { file_name = bytes "sh-1.log"; contents = some (cri_log (bytes "10:00Z") output) })
    ≡ (
      bytes "==> build/sh-1.log" ∷ bytes "one two three four" ∷ bytes "five" ∷ bytes "oops" ∷ [],
      true,
    )
unfolding stdin_lines
dump_file-cri_log_example =
    dump_file-cri_log (bytes "10:00Z") (bytes "build") (bytes "sh-1.log") output refl refl refl refl

-- The order of the names puts the tenth file before the second.
abbrev log_entry : Bytes → LogEntry
log_entry name = record { file_name = name; contents = some (bytes "t stdout F x\n") }

tenth_first :
    dump (
      some (
        record {
          file_name = bytes "build";
          files = some (log_entry (bytes "sh-2.log") ∷ log_entry (bytes "sh-10.log") ∷ []);
        }
        ∷ []))
    ≡ (bytes "==> build/sh-10.log" ∷ bytes "x" ∷ bytes "==> build/sh-2.log" ∷ bytes "x" ∷ [], true)
unfolding dump order_by dump_file dump_contents stdin_lines stripped splitn
tenth_first = refl
