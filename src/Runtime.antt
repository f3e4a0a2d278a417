-- ===== src/Runtime.antt =====
-- The runtime of a run's jobs: quire-core/src/ci/runtime.rs and quire-core/src/ci/logs.rs. The Lua
-- machine and its values, the subprocess and the clock are outside: `V` is the type of its values,
-- and a `ShWorld` has what the outside does at one call of `sh`. The text of a number (`Display`)
-- is an argument. A log file below `log_dir` is named by its job and its number.
pub mod Hidden
pub mod Logs
pub mod Views
mod Tests
use quire.Prelude.{
  ℕ, zero, suc, ◌+◌, String, Bool, true, false, ◌&&◌, Option, none, some, List, [], ◌∷◌, ◌++◌,
  length, lookup, insert, map, eqb, bytes_eq, ◌==◌, is_some, if◌then◌else◌,
}
use quire.Prelude.Bytes.{Bytes, bytes}
use quire.Prelude.Int.{ℤ, pos, negsuc}
use quire.Secret.{SecretRegistry, Outcome, value, error, SecretError, ReadResult, redact, resolve}
use quire.Push.Hook.{stdin_lines}

pub data Cmd : Type 0 where
  shell : Bytes → Cmd
  argv : Bytes → List Bytes → Cmd

pub record ShOutput : Type 0 where
  pub exit : ℤ
  pub stdout : Bytes
  pub stderr : Bytes
  pub cmd : Bytes

pub data RuntimeEvent : Type 0 where
  sh_started : Bytes → RuntimeEvent
  sh_finished : ℤ → RuntimeEvent

pub record LogFile : Type 0 where
  pub job_id : Bytes
  pub n : ℕ
  pub text : Bytes

display_args : List Bytes → Bytes
display_args [] = []
display_args (a ∷ rest) = bytes ", \"" ++ a ++ b'"' ∷ display_args rest

-- Display for Cmd
unfoldable pub display_cmd : Cmd → Bytes
unfolding display_args
display_cmd (shell s) = s
display_cmd (argv program args) = bytes "[\"" ++ program ++ b'"' ∷ (display_args args ++ bytes "]")

unfoldable pub program : Cmd → Bytes
program (shell s) = bytes "sh"
program (argv p args) = p

-- What the process gives: its code, if it has one, and its outputs as texts.
pub record Exited : Type 0 where
  pub code : Option ℤ
  pub out : Bytes
  pub errors : Bytes

abbrev pub code_or : Option ℤ → ℤ
code_or none = negsuc 0
code_or (some c) = c

-- Cmd::run, where the process has run
abbrev pub run_output : Cmd → Exited → ShOutput
run_output c x = record {
  exit = code_or x.code;
  stdout = x.out;
  stderr = x.errors;
  cmd = display_cmd c;
}

-- How the writing of a log file goes: `cut k` fails with the first bytes written.
pub data LogWrite : Type 0 where
  written not_created : LogWrite
  cut : ℕ → LogWrite

pub record ShWorld : Type 0 where
  pub started_at : Bytes
  pub finished_at : Bytes
  pub exited : Option Exited
  pub mkdir : Bool
  pub log : LogWrite

pub data RuntimeError : Type 0 where
  secret_error : SecretError → RuntimeError
  command_spawn_failed : Bytes → RuntimeError
  log_write_failed : RuntimeError
  lua git : Bytes → RuntimeError

pub record Runtime (V : Type 0) : Type 0 where
  pub inputs : List (Bytes × List (Bytes × Option V))
  pub registry : SecretRegistry
  pub current_job : Option Bytes
  pub outputs : List (Bytes × List ShOutput)
  pub sh_timings : List (Bytes × List (Bytes × Bytes))
  -- what the callback was given
  pub events : List RuntimeEvent
  pub files : List LogFile

pub data RuntimeResult (A : Type 0) : Type 0 where
  done : A → RuntimeResult A
  failed : RuntimeError → RuntimeResult A

-- One line of the format; `writeln!`
unfoldable pub cri_lines : Bytes → Bytes → List Bytes → Bytes
cri_lines ts stream [] = []
cri_lines ts stream (line ∷ lines) =
    ts ++ b' ' ∷ (stream ++ bytes " F " ++ line ++ 10 ∷ cri_lines ts stream lines)

-- The text that `write_cri_log` writes.
unfoldable pub cri_log : Bytes → ShOutput → Bytes
unfolding cri_lines
cri_log ts o =
    cri_lines ts (bytes "stdout") (stdin_lines o.stdout)
    ++ cri_lines ts (bytes "stderr") (stdin_lines o.stderr)

abbrev pub take_bytes : ℕ → Bytes → Bytes
take_bytes zero s = []
take_bytes (suc k) [] = []
take_bytes (suc k) (c ∷ s) = c ∷ take_bytes k s

-- What the newest file of the job and the number holds; files are kept with the newest first.
abbrev pub log_at : Bytes → ℕ → List LogFile → Option Bytes
log_at job n [] = none
log_at job n (f ∷ fs) = if f.job_id == job && eqb f.n n then some f.text else log_at job n fs

abbrev pub redacted : SecretRegistry → ShOutput → ShOutput
redacted reg o = record {
  exit = o.exit;
  stdout = redact o.stdout reg;
  stderr = redact o.stderr reg;
  cmd = redact o.cmd reg;
}

abbrev pub or_nil {ℓ} : {A : Type ℓ} → Option (List A) → List A
or_nil none = []
or_nil (some xs) = xs

secret_result : Outcome → RuntimeResult Bytes
secret_result (value v) = done v
secret_result (error e) = failed (secret_error e)

module _ {V : Type 0} where
  abbrev pub outputs_of : Bytes → Runtime V → List ShOutput
  outputs_of job rt = or_nil (lookup job rt.outputs)

  abbrev pub timings_of : Bytes → Runtime V → List (Bytes × Bytes)
  timings_of job rt = or_nil (lookup job rt.sh_timings)

  -- `none` is the panic at an id without a view.
  unfoldable pub enter_job : Bytes → Runtime V → Option (Runtime V)
  enter_job id rt =
      if is_some (lookup id rt.inputs) then some (record rt { current_job = some id }) else none

  unfoldable pub leave_job : Runtime V → Runtime V
  leave_job rt = record rt { current_job = none }

  abbrev pub take_outputs : Runtime V → List (Bytes × List ShOutput) × Runtime V
  take_outputs rt = (rt.outputs, record rt { outputs = [] })

  abbrev pub take_sh_timings : Runtime V → List (Bytes × List (Bytes × Bytes)) × Runtime V
  take_sh_timings rt = (rt.sh_timings, record rt { sh_timings = [] })

  unfoldable pub secret :
      (String → ReadResult)
      → (Bytes → Outcome)
      → Bytes
      → Runtime V
      → RuntimeResult Bytes × Runtime V
  unfolding secret_result
  secret disk fetcher name rt =
      let (o, registry) = resolve disk fetcher name rt.registry in
      (secret_result o, record rt { registry = registry })

  abbrev pub fire : RuntimeEvent → Runtime V → Runtime V
  fire e rt = record rt { events = rt.events ++ e ∷ [] }

  announce : Option Bytes → Cmd → Runtime V → Runtime V
  announce none c rt = rt
  announce (some job) c rt = fire (sh_started (redact (display_cmd c) rt.registry)) rt

  abbrev pub put_file : Bytes → ℕ → Bytes → Runtime V → Runtime V
  put_file job n text rt = record rt {
    files = record { job_id = job; n = n; text = text } ∷ rt.files;
  }

  abbrev pub push_output : Bytes → ShOutput → Bytes × Bytes → Runtime V → Runtime V
  push_output job o times rt = record rt {
    outputs = insert job (outputs_of job rt ++ o ∷ []) rt.outputs;
    sh_timings = insert job (timings_of job rt ++ times ∷ []) rt.sh_timings;
  }

  write_log : Bytes → ShWorld → ShOutput → LogWrite → Runtime V → RuntimeResult ShOutput × Runtime V
  write_log job w out not_created rt = (failed log_write_failed, rt)
  write_log job w out (cut k) rt = (
    failed log_write_failed,
    put_file job (suc (length (outputs_of job rt)))
        (take_bytes k (cri_log w.started_at (redacted rt.registry out))) rt,
  )
  write_log job w out written rt =
      let recorded = redacted rt.registry out in
      (
        done out,
        push_output job recorded (w.started_at, w.finished_at)
            (put_file job (suc (length (outputs_of job rt))) (cri_log w.started_at recorded) rt),
      )

  -- The part behind the run of the process.
  after_run : Option Bytes → ShWorld → ShOutput → Runtime V → RuntimeResult ShOutput × Runtime V
  unfolding write_log
  after_run none w out rt = (done out, rt)
  after_run (some job) w out rt =
      let rt1 = fire (sh_finished out.exit) rt in
      if w.mkdir then write_log job w out w.log rt1 else (failed log_write_failed, rt1)

  run_cmd : Cmd → ShWorld → Option Exited → Runtime V → RuntimeResult ShOutput × Runtime V
  unfolding after_run
  run_cmd c w none rt = (failed (command_spawn_failed (program c)), rt)
  run_cmd c w (some x) rt = after_run rt.current_job w (run_output c x) rt

  unfoldable pub sh : Cmd → ShWorld → Runtime V → RuntimeResult ShOutput × Runtime V
  unfolding announce run_cmd
  sh c w rt = run_cmd c w w.exited (announce rt.current_job c rt)
