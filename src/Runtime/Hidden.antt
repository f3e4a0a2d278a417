-- ===== src/Runtime/Hidden.antt =====
-- What `sh` records and reports of a registered secret.
use quire.Prelude.{
  suc, ◌≤◌, ◌≡◌, ◌∙◌, refl, ap, true, false, some, [], ◌∷◌, ◌++◌, length, lookup, lookup-insert,
  bytes_eq, ==_refl, append_assoc, if_true,
}
use quire.Prelude.Bytes.{Bytes, occurs}
use quire.Secret.{redact}
use quire.Secret.Hidden.{IsPlain}
use quire.Secret.Redaction.{redact_hides, IsUnnamed}
use quire.Runtime.{
  Cmd, ShOutput, sh_started, sh_finished, ShWorld, Exited, written, Runtime, RuntimeResult, done,
  display_cmd, cri_log, redacted, code_or, or_nil, outputs_of, announce, fire, put_file,
  push_output, write_log, after_run, run_cmd, run_output, sh,
}

-- The text is without the value in all of its parts.
abbrev pub IsFree : Bytes → ShOutput → Type 0
IsFree v o = (occurs v o.stdout ≡ false) × (occurs v o.stderr ≡ false) × (occurs v o.cmd ≡ false)

module _ {V : Type 0} where
  -- The runtime behind the two events of a run.
  abbrev observed : Cmd → ShOutput → Runtime V → Runtime V
  observed c out rt =
      fire (sh_finished out.exit) (fire (sh_started (redact (display_cmd c) rt.registry)) rt)

  abbrev recorded_in : Bytes → Cmd → ShWorld → ShOutput → Runtime V → Runtime V
  recorded_in job c w out rt =
      push_output job (redacted rt.registry out) (w.started_at, w.finished_at)
        (put_file job (suc (length (outputs_of job rt)))
          (cri_log w.started_at (redacted rt.registry out)) (observed c out rt))

  sh-done :
      (c : Cmd) (w : ShWorld) (x : Exited) (job : Bytes) (rt : Runtime V)
      → rt.current_job ≡ some job
      → w.exited ≡ some x
      → w.mkdir ≡ true
      → w.log ≡ written
      → sh c w rt ≡ (done (run_output c x), recorded_in job c w (run_output c x) rt)
  unfolding sh announce run_cmd after_run write_log
  sh-done c w x job rt j e m l =
      ap (λ o. run_cmd c w w.exited (announce o c rt)) j
      ∙ ap (λ o. run_cmd c w o (announce (some job) c rt)) e
      ∙ ap (λ o. after_run o w (run_output c x) (announce (some job) c rt)) j
      ∙ if_true _ _ _ m
      ∙ ap (λ k. write_log job w (run_output c x) k (observed c (run_output c x) rt)) l

  -- When a job is current, and a process runs and its log is written, `sh` returns what the process
  -- gave as it is, but records one more output of the job, with the exit code, and reports one start
  -- and one end, and neither the recorded texts nor the reported command has the value of a name
  -- that is registered, if the value has a byte, no brace, and does not occur in what is written for
  -- a registered name.
  pub sh-IsFree :
      (c : Cmd) (w : ShWorld) (x : Exited) (job name v : Bytes) (rt : Runtime V)
      → rt.current_job ≡ some job
      → w.exited ≡ some x
      → w.mkdir ≡ true
      → w.log ≡ written
      → lookup name rt.registry.revealed ≡ some v
      → 1 ≤ length v
      → IsPlain v
      → IsUnnamed v rt.registry.revealed
      → ((sh c w rt).0 ≡ done (run_output c x))
        × ((o : ShOutput) × (outputs_of job (sh c w rt).1 ≡ outputs_of job rt ++ o ∷ [])
            × (o.exit ≡ code_or x.code)
            × IsFree v o)
        × ((s : Bytes) × ((sh c w rt).1.events
              ≡ rt.events ++ sh_started s ∷ sh_finished (code_or x.code) ∷ [])
            × (occurs v s ≡ false))
  sh-IsFree c w x job name v rt j e m l n long plain unnamed =
      let d = sh-done c w x job rt j e m l in
      let out = run_output c x in
      let hide : ((t : Bytes) → occurs v (redact t rt.registry) ≡ false) =
        λ t. redact_hides rt.registry name v t n long plain unnamed in
      (
        ap (λ (r : RuntimeResult ShOutput × Runtime V). r.0) d,
        (
          redacted rt.registry out,
          ap (λ (r : RuntimeResult ShOutput × Runtime V). outputs_of job r.1) d
              ∙ ap or_nil (lookup-insert job job _ rt.outputs ∙ if_true _ _ _ (==_refl job)),
          refl,
          (hide _, hide _, hide _),
        ),
        (
          redact (display_cmd c) rt.registry,
          ap (λ (r : RuntimeResult ShOutput × Runtime V). r.1.events) d
              ∙ append_assoc rt.events (sh_started (redact (display_cmd c) rt.registry) ∷ []) _,
          hide _,
        ),
      )
