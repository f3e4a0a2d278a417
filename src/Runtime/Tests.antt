-- ===== src/Runtime/Tests.antt =====
-- The runtime at concrete inputs: a pipeline with one job, and a registered secret.
use quire.Prelude.{ℕ, zero, suc, ◌≡◌, refl, true, false, none, some, List, [], ◌∷◌, ◌++◌, arith}
use quire.Prelude.Bytes.{Bytes, bytes, occurs}
use quire.Prelude.Int.{pos}
use quire.Secret.{SecretRegistry, value, contents}
use quire.Pipeline.{
  Call, call_job, Job, register, call_all, call, register_job, new, add_job, span_for_line,
  find_line,
}
use quire.Pipeline.Graph.{
  JobGraph, compile, graph_of, validate_post_graph, is_cycle, build_graph, check_all, check_reach,
  all_edges, edges_into, index,
}
use quire.Runtime.{
  shell, ShOutput, sh_started, sh_finished, ShWorld, Exited, written, not_created, Runtime, done,
  run_output, outputs_of, sh, enter_job,
}
use quire.Runtime.Logs.{Step, do_sh, do_secret, do_enter, do_leave}
use quire.Runtime.Hidden.{IsFree, sh-IsFree}
use quire.Runtime.Views.{transitive_inputs, new_runtime, jobs_lookup, answered}
use quire.Runtime.Views.Push.{jobs_lookup-push}

abbrev calls : List (Call ℕ)
calls = call_job (bytes "build") (bytes "quire/push" ∷ []) 1 1 ∷ []

abbrev sccs : JobGraph ℕ → List (List ℕ)
sccs g = (0 ∷ []) ∷ (1 ∷ []) ∷ []

abbrev bfs : JobGraph ℕ → ℕ → List ℕ
bfs g zero = 0 ∷ 1 ∷ []
bfs g (suc n) = suc n ∷ []

abbrev build_job : Job ℕ
build_job = record {
  id = bytes "build";
  inputs = bytes "quire/push" ∷ [];
  span = some (record { offset = 0; length = 2 });
  run_fn = 1;
}

abbrev graph : JobGraph ℕ
graph = graph_of 0 (build_job ∷ [])

abbrev registry : SecretRegistry
registry = record { cache = []; revealed = (bytes "token", bytes "hunter22") ∷ [] }

-- Entered at its only job; the value of the push is a number here.
abbrev runtime : Runtime ℕ
runtime = record (new_runtime 7 graph (bfs graph) registry) { current_job = some (bytes "build") }

jobs_lookup-push_example : jobs_lookup (bytes "quire/push") runtime ≡ answered 7
unfolding compile register call_all call register_job new add_job validate_post_graph is_cycle
    graph_of build_graph check_all check_reach span_for_line find_line enter_job new_runtime
    all_edges edges_into index transitive_inputs
jobs_lookup-push_example =
    jobs_lookup-push 0 sccs bfs 7 (bytes "ci") calls graph none registry (bytes "build") runtime
      refl refl refl

abbrev exited : Exited
exited = record { code = some (pos 0); out = bytes "is hunter22\n"; errors = [] }

abbrev world : ShWorld
world = record {
  started_at = bytes "now";
  finished_at = bytes "then";
  exited = some exited;
  mkdir = true;
  log = written;
}

sh-IsFree_example :
    ((sh (shell (bytes "echo hunter22")) world runtime).0
      ≡ done (run_output (shell (bytes "echo hunter22")) exited))
    × ((o : ShOutput) × (outputs_of
            (bytes "build")
            (sh (shell (bytes "echo hunter22")) world runtime).1
          ≡ outputs_of (bytes "build") runtime ++ o ∷ [])
        × (o.exit ≡ pos 0)
        × IsFree (bytes "hunter22") o)
    × ((s : Bytes) × ((sh (shell (bytes "echo hunter22")) world runtime).1.events
          ≡ [] ++ sh_started s ∷ sh_finished (pos 0) ∷ [])
        × (occurs (bytes "hunter22") s ≡ false))
unfolding new_runtime
sh-IsFree_example =
    sh-IsFree (shell (bytes "echo hunter22")) world exited (bytes "build") (bytes "token")
      (bytes "hunter22") runtime refl refl refl refl refl (ground arith) (refl, refl) (refl, tt)

abbrev some_steps : List Step
some_steps =
    do_enter (bytes "build")
    ∷ do_sh (shell (bytes "make")) world
    ∷ do_sh (shell (bytes "fails")) (record world { log = not_created })
    ∷ do_secret (λ path. contents []) (λ name. value (bytes "swordfish")) (bytes "other")
    ∷ do_sh (shell (bytes "make")) world
    ∷ do_leave
    ∷ []

abbrev fresh : Runtime ℕ
fresh = new_runtime 7 graph (bfs graph) registry
