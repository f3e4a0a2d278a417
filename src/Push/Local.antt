-- ===== src/Push/Local.antt =====
-- Checking and running a pipeline by hand: quire-server/src/bin/quire/commands/ci.rs, with
-- `Ci::pipeline` of quire-server/src/ci/mod.rs. The working copy (jj), the temporary directory and
-- the topological order of petgraph are outside.
use quire.Prelude.{ℕ, String, Bool, Option, none, some, List, [], ◌∷◌, length, eqb, if◌then◌else◌}
use quire.Prelude.Bytes.{Bytes}
use quire.Database.{Db, Action, Result, ◌>>=◌, ◌>>◌}
use quire.Pipeline.{Job}
use quire.Pipeline.Graph.{JobGraph, node_at, Compiled, pipeline}
use quire.Runs.{Runs, RunMeta, CreateWorld, create}
use quire.Runs.Execute.{ExecuteWorld, execute}
use quire.Push.Trigger.{Source, no_file, unreadable, source, materialize_workspace}

-- What `Ci::pipeline` gives.
pub data FoundPipeline (F : Type 0) : Type 0 where
  no_pipeline not_read : FoundPipeline F
  compiled : Compiled F → FoundPipeline F

unfoldable pub pipeline_at : {F : Type 0} → Source → Compiled F → FoundPipeline F
pipeline_at no_file c = no_pipeline
pipeline_at unreadable c = not_read
pipeline_at source c = compiled c

-- What `validate` prints, or the error that it fails with.
pub data Validation (F : Type 0) : Type 0 where
  nothing_found no_jobs read_failed : Validation F
  all_passed : List (Bytes × List Bytes) → Validation F
  invalid : Compiled F → Validation F

module _ {F : Type 0} (toposort : JobGraph F → List ℕ) where
  abbrev add_line : Option (Job F) → List (Bytes × List Bytes) → List (Bytes × List Bytes)
  add_line none ls = ls
  add_line (some j) ls = (j.id, j.inputs) ∷ ls

  abbrev job_lines : JobGraph F → List ℕ → List (Bytes × List Bytes)
  job_lines g [] = []
  job_lines g (n ∷ ns) = add_line (node_at n g.nodes) (job_lines g ns)

  -- Pipeline::job_count is the number of nodes.
  validated : Compiled F → Validation F
  validated (pipeline g image) =
      if eqb (length g.nodes) 0 then no_jobs else all_passed (job_lines g (toposort g))
  validated c = invalid c

  validate_found : FoundPipeline F → Validation F
  validate_found no_pipeline = nothing_found
  validate_found not_read = read_failed
  validate_found (compiled c) = validated c

  unfoldable pub validate : Source → Compiled F → Validation F
  unfolding validate_found validated
  validate s c = validate_found (pipeline_at s c)

pub record LocalWorld : Type 0 where
  pub create_world : CreateWorld
  pub materializes : Bool
  pub execute_world : ExecuteWorld

-- A run without a session: the bootstrap API has no part in it.
unfoldable pub run_locally : Runs → LocalWorld → RunMeta → Action (Unit {0})
run_locally runs w meta = do
  run ← create runs w.create_world meta none
  materialize_workspace w.materializes
  execute run w.execute_world none none

pub data LocalRun (F : Type 0) : Type 0 where
  nothing_to_run source_failed : LocalRun F
  not_compiled : Compiled F → LocalRun F
  ran : Result (Unit {0}) × Db → LocalRun F

abbrev local_runs : String → String → Runs
local_runs db_path tmp = record { db_path = db_path; repo = "local"; base_dir = tmp }

abbrev local_meta : String → ℕ → RunMeta
local_meta sha now = record { sha = sha; ref_name = "@"; pushed_at = now }

module _ {F : Type 0} (db_path tmp sha : String) (now : ℕ) (w : LocalWorld) (db : Db) where
  run_compiled : Compiled F → LocalRun F
  run_compiled (pipeline g image) =
      ran (run_locally (local_runs db_path tmp) w (local_meta sha now) db)
  run_compiled c = not_compiled c

  run_found : FoundPipeline F → LocalRun F
  unfolding run_compiled
  run_found no_pipeline = nothing_to_run
  run_found not_read = source_failed
  run_found (compiled c) = run_compiled c

  unfoldable pub run_command : Source → Compiled F → LocalRun F
  unfolding run_found
  run_command s c = run_found (pipeline_at s c)
