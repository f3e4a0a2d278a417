-- ===== src/Runtime/Logs.antt =====
-- The log files and the recorded outputs that they are of.
use quire.Prelude.{ℕ, suc, ◌≡◌, String, Option, none, some, List, [], ◌∷◌, bytes_eq}
use quire.Prelude.Bytes.{Bytes}
use quire.Secret.{Outcome, ReadResult}
use quire.Runtime.{
  Cmd, ShOutput, LogFile, ShWorld, Runtime, cri_log, log_at, outputs_of, timings_of, enter_job,
  leave_job, secret, sh,
}

-- The files from a number on hold the texts of the outputs, each with its time.
abbrev pub LogsFrom : Bytes → ℕ → List ShOutput → List (Bytes × Bytes) → List LogFile → Type 0
LogsFrom job k [] [] files = Unit
LogsFrom job k (o ∷ os) (t ∷ ts) files =
    (log_at job k files ≡ some (cri_log t.0 o)) × LogsFrom job (suc k) os ts files
LogsFrom job k [] (t ∷ ts) files = ⊥
LogsFrom job k (o ∷ os) [] files = ⊥

-- The n-th output of each job is in its file of the number n.
abbrev pub AllLogged : {V : Type 0} → Runtime V → Type 0
AllLogged rt = (job : Bytes) → LogsFrom job 1 (outputs_of job rt) (timings_of job rt) rt.files

-- What the executor and the run-fns do with a runtime, with what each call gets from outside.
pub data Step : Type 0 where
  do_sh : Cmd → ShWorld → Step
  do_secret : (String → ReadResult) → (Bytes → Outcome) → Bytes → Step
  do_enter : Bytes → Step
  do_leave : Step

module _ {V : Type 0} where
  or_same : Runtime V → Option (Runtime V) → Runtime V
  or_same rt none = rt
  or_same rt (some rt') = rt'

  unfoldable pub step : Step → Runtime V → Runtime V
  unfolding or_same
  step (do_sh c w) rt = (sh c w rt).1
  step (do_secret disk fetcher name) rt = (secret disk fetcher name rt).1
  step (do_enter id) rt = or_same rt (enter_job id rt)
  step do_leave rt = leave_job rt

  unfoldable pub steps : List Step → Runtime V → Runtime V
  unfolding step
  steps [] rt = rt
  steps (s ∷ ss) rt = steps ss (step s rt)
