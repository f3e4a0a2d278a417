-- ===== src/Pipeline/Graph/Accepted.antt =====
-- The parts of a pipeline that `compile` accepts.
use quire.Prelude.{ℕ, ◌≡◌, refl, Option, some, List, [], ◌∷◌, ◌++◌, All, bytes_eq, arith}
use mathlib.Core.Path.{subst}
use quire.Prelude.Bytes.{Bytes}
use quire.Pipeline.{Job, Call, Registrations, registered, pipeline_error, fennel_error, register}
use quire.Pipeline.Registered.{IsGood, register_faithful}
use quire.Pipeline.Graph.{
  JobGraph, StructureError, validate_post_graph, builtin_push_job, build_graph, graph_of, pipeline,
  accept, compile_from, compile,
}

module _ {F : Type 0} where
  -- What is known of an accepted graph: registered jobs, the source job behind them, and no error.
  pub record Accepted (run_fn : F) (sccs : JobGraph F → List (List ℕ))
      (bfs : JobGraph F → ℕ → List ℕ) (g : JobGraph F) : Type 0 where
    pub jobs : List (Job F)
    pub good : All IsGood jobs
    pub nodes : g.nodes ≡ jobs ++ builtin_push_job run_fn ∷ []
    pub clean : validate_post_graph g (sccs g) (bfs g) ≡ []

  accept-pipeline :
      (g h : JobGraph F) (image image' : Option Bytes) (es : List StructureError)
      → accept g image es ≡ pipeline h image'
      → (es ≡ []) × (g ≡ h)
  unfolding accept
  accept-pipeline g h image image' [] e = (refl, pipeline-injective e)
    where
      pipeline-injective :
          {a b : JobGraph F} {i k : Option Bytes} → pipeline a i ≡ pipeline b k → a ≡ b
      pipeline-injective e = cc
  accept-pipeline g h image image' (x ∷ es) e = absurd (ground arith)

  module _ (sccs : JobGraph F → List (List ℕ)) (bfs : JobGraph F → ℕ → List ℕ) (run_fn : F)
      (source : Bytes) (cs : List (Call F)) where
    compile_from-Accepted :
        (rs : Registrations F) (g : JobGraph F) (image : Option Bytes)
        → register source (some cs) ≡ rs
        → compile_from sccs bfs run_fn rs ≡ pipeline g image
        → Accepted run_fn sccs bfs g
    unfolding compile_from graph_of build_graph
    compile_from-Accepted fennel_error g image r h = absurd (ground arith)
    compile_from-Accepted (pipeline_error es) g image r h = absurd (ground arith)
    compile_from-Accepted (registered jobs i) g image r h =
        let (clean, same) = accept-pipeline (graph_of run_fn jobs) g i image _ h in
        let (_, _, good, _) = register_faithful source cs jobs i r in
        subst (Accepted run_fn sccs bfs) same
          (record { jobs = jobs; good = good; nodes = refl; clean = clean })

    pub compile-Accepted :
        (g : JobGraph F) (image : Option Bytes)
        → compile sccs bfs run_fn source (some cs) ≡ pipeline g image
        → Accepted run_fn sccs bfs g
    unfolding compile
    compile-Accepted g image h = compile_from-Accepted _ g image refl h
