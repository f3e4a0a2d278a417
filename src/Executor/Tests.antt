-- ===== src/Executor/Tests.antt =====
-- A pipeline of two jobs, the second of which fails, and what its events leave.
use quire.Prelude.{
  ℕ, zero, suc, ◌+◌, ◌-◌, ◌<◌, String, ◌≡◌, refl, true, false, Option, none, some, List, [], ◌∷◌,
  arith, if◌then◌else◌, ◌==◌, string_eq,
}
use quire.Prelude.Bytes.{Bytes, contains}
use quire.Prelude.Int.{pos}
use quire.Database.{RunRow, Db, ok, err, sql_constraint}
use quire.Events.Ingest.{
  JobPass, job_pass, job_row, sh_row, start_jobs, ingest_events, events, unparsable,
}
use quire.Events.{
  Event, job_started, job_finished, run_finished, succeeded, failed, pipeline_failure,
}
use quire.Events.Stream.{whole, breaks, jsonl_sink, emit_all, holding, read_events}
use quire.Events.Stream.Torn.{IsWire, held, all_whole, read_events-torn}
use quire.Repo.{is_empty}
use quire.Runtime.{take_bytes}
use quire.Executor.{JobRun, event, exited, run_pipeline, run_jobs, run_job, sh_events, after_calls}
use quire.Executor.Replay.{replay_pipeline}
use quire.Executor.Ingested.{ingest_events-written}
use quire.Executor.Collision.{idle, ingest_events-same_ms}

abbrev run_row : RunRow
run_row = record {
  id = "r";
  repo = "app.git";
  ref_name = "refs/heads/main";
  sha = "abc";
  pushed_at_ms = 1;
  created_at = 2;
  dispatched_at = some 3;
  resolved_at = none;
  outcome = none;
  run_token = none;
  traceparent = none;
}

abbrev db : Db
db = record { runs = run_row ∷ []; jobs = []; sh = [] }

abbrev run_fn : String → JobRun
run_fn job_id =
    if job_id == "test"
    then record { calls = exited "make test" (pos 2) ∷ []; is_ok = false }
    else record { calls = []; is_ok = true }

replay_two_jobs :
    (pass : JobPass) × (job_pass "r" start_jobs
        (run_pipeline (λ n. n) run_fn (some ("quire/push" ∷ "test" ∷ "deploy" ∷ [])))
        db
      ≡ (
        ok pass,
        record db {
          jobs = job_row "r" "quire/push" 0 1 succeeded ∷ job_row "r" "test" 2 5 failed ∷ [];
        },
      ))
    × (pass.run_outcome ≡ some pipeline_failure)
unfolding after_calls
replay_two_jobs =
    replay_pipeline (λ n. n) "r" (λ a b h. h) run_fn ("quire/push" ∷ "test" ∷ "deploy" ∷ []) db refl
      (refl, (refl, (refl, tt))) (refl, (refl, (refl, tt)))

-- A text for each of some events: a brace, and a letter for its time.
abbrev nth : ℕ → List Event → Option Event
nth n [] = none
nth zero (e ∷ es) = some e
nth (suc n) (e ∷ es) = nth n es

abbrev to_json : Event → Bytes
to_json e = b'{' ∷ (b'a' + e.at_ms) ∷ []

abbrev from_json : List Event → Bytes → Option Event
from_json es (b ∷ c ∷ []) = nth (c - b'a') es
from_json es _ = none

no_prefix-two :
    (es : List Event) (b c k : ℕ) → k < 2 → from_json es (take_bytes k (b ∷ c ∷ [])) ≡ none
no_prefix-two es b c zero h = refl
no_prefix-two es b c (suc zero) h = refl
no_prefix-two es b c (suc (suc k)) h = absurd (omega (arith, h))

wire :
    (es : List Event) (e : Event)
    → contains 10 (to_json e) ≡ false
    → from_json es (to_json e) ≡ some e
    → IsWire to_json (from_json es) e
unfolding is_empty
wire es e one back = record {
  one_line = one;
  some_text = refl;
  read_back = back;
  no_prefix = λ k h. no_prefix-two es _ _ k h;
}

abbrev two_jobs : List String
two_jobs = "quire/push" ∷ "test" ∷ "deploy" ∷ []

abbrev emitted : List Event
emitted = run_pipeline (λ n. n) run_fn (some two_jobs)

ingest_events-written_example :
    ingest_events "r"
      (read_events
        (from_json emitted)
        (holding (held (emit_all to_json (all_whole emitted) (jsonl_sink [])).1)))
      db
    ≡ (
      ok (some pipeline_failure),
      record db {
        jobs = job_row "r" "quire/push" 0 1 succeeded ∷ job_row "r" "test" 2 5 failed ∷ [];
        sh = sh_row "r" "test" 3 4 (pos 2) "make test" ∷ [];
      },
    )
unfolding run_pipeline run_jobs run_job sh_events after_calls
ingest_events-written_example =
    ingest_events-written (λ n. n) "r" to_json (from_json emitted) (λ a b h. h) run_fn two_jobs db
      (
        wire emitted _ refl refl,
        (
          wire emitted _ refl refl,
          (
            wire emitted _ refl refl,
            (
              wire emitted _ refl refl,
              (
                wire emitted _ refl refl,
                (wire emitted _ refl refl, (wire emitted _ refl refl, tt)),
              ),
            ),
          ),
        ),
      )
      refl (refl, (refl, (refl, tt))) (refl, (refl, (refl, tt))) refl

-- The file ends within the line of the second event.
abbrev two_events : List Event
two_events = event 0 (job_started "a") ∷ event 1 (job_finished "a" succeeded) ∷ []

read_events-torn_example :
    let (is_ok, sink) =
      emit_all to_json
        ((whole, event 0 (job_started "a"))
          ∷ (breaks 1, event 1 (job_finished "a" succeeded))
          ∷ (whole, event 2 (run_finished pipeline_failure))
          ∷ [])
        (jsonl_sink []) in
    (is_ok ≡ false) × (read_events (from_json two_events) (holding (held sink)) ≡ unparsable)
read_events-torn_example =
    read_events-torn to_json (from_json two_events) (event 0 (job_started "a") ∷ [])
      (event 1 (job_finished "a" succeeded)) 1
      ((whole, event 2 (run_finished pipeline_failure)) ∷ []) (wire two_events _ refl refl, tt)
      (wire two_events _ refl refl)

abbrev quick : String → JobRun
quick job_id =
    if job_id == "build"
    then record { calls = exited "true" (pos 0) ∷ exited "make" (pos 0) ∷ []; is_ok = true }
    else idle

ingest_events-same_ms_example :
    ingest_events "r" (events (run_pipeline (λ n. 7) quick (some ("quire/push" ∷ "build" ∷ [])))) db
    ≡ (
      err sql_constraint,
      record db {
        jobs = job_row "r" "quire/push" 7 7 succeeded ∷ job_row "r" "build" 7 7 succeeded ∷ [];
        sh = sh_row "r" "build" 7 7 (pos 0) "true" ∷ [];
      },
    )
ingest_events-same_ms_example =
    ingest_events-same_ms (λ n. 7) "r" "quire/push" "build" (λ a b h. omega arith) quick [] "true"
      "make" (pos 0) (pos 0) [] db refl refl refl refl (refl, (refl, tt)) (refl, (refl, tt)) refl
