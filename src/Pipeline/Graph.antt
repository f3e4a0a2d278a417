-- ===== src/Pipeline/Graph.antt =====
-- The job graph and its validation: `build_graph` and `validate_post_graph` of
-- quire-core/src/ci/pipeline.rs. A graph is the nodes and edges that the program adds, in order;
-- what petgraph's algorithms answer is an argument: the strongly connected components, and the
-- nodes that a breadth-first search over the reversed edges visits.
pub mod Validated
pub mod Reached
pub mod Accepted
mod Tests
use quire.Prelude.{
  ℕ, zero, suc, Bool, true, false, ◌&&◌, ◌||◌, Option, none, some, List, [], ◌∷◌, ◌++◌, any, map,
  select, eqb, leb, length, lookup, insert, bytes_eq, ◌==◌, if◌then◌else◌,
}
use quire.Prelude.Bytes.{Bytes, bytes}
use quire.Pipeline.{
  SourceSpan, Job, DefinitionError, Call, Registrations, registered, pipeline_error, fennel_error,
  register,
}
use quire.Secret.{bytes_le}

pub record Edge : Type 0 where
  pub dependency : ℕ
  pub dependent : ℕ

pub record JobGraph (F : Type 0) : Type 0 where
  pub nodes : List (Job F)
  pub edges : List Edge

pub data StructureError : Type 0 where
  cycle : List Bytes → List SourceSpan → StructureError
  unreachable : Bytes → Option SourceSpan → StructureError

unfoldable pub edges_into : List (Bytes × ℕ) → ℕ → List Bytes → List Edge
edges_into by_id n [] = []
edges_into by_id n (i ∷ is) = elim (lookup i by_id) [
  | none ↦ edges_into by_id n is
  | some dependency ↦ record { dependency = dependency; dependent = n } ∷ edges_into by_id n is
]

abbrev pub contains_edge : ℕ → ℕ → List Edge → Bool
contains_edge a b = any (λ (e : Edge). eqb e.dependency a && eqb e.dependent b)

abbrev pub add_span : Option SourceSpan → List SourceSpan → List SourceSpan
add_span none ss = ss
add_span (some s) ss = s ∷ ss

abbrev pub has_no_inputs : List Bytes → Bool
has_no_inputs [] = true
has_no_inputs (i ∷ is) = false

module _ {F : Type 0} where
  -- The job of a node.
  abbrev pub node_at : ℕ → List (Job F) → Option (Job F)
  node_at n [] = none
  node_at zero (j ∷ js) = some j
  node_at (suc n) (j ∷ js) = node_at n js

  -- The map from ids to nodes, from the node `n` on.
  unfoldable pub index : ℕ → List (Job F) → List (Bytes × ℕ) → List (Bytes × ℕ)
  index n [] by_id = by_id
  index n (j ∷ js) by_id = index (suc n) js (insert j.id n by_id)

  unfoldable pub all_edges : List (Bytes × ℕ) → ℕ → List (Job F) → List Edge
  unfolding edges_into
  all_edges by_id n [] = []
  all_edges by_id n (j ∷ js) = edges_into by_id n j.inputs ++ all_edges by_id (suc n) js

  unfoldable pub build_graph : List (Job F) → JobGraph F
  unfolding index all_edges
  build_graph jobs = record { nodes = jobs; edges = all_edges (index 0 jobs []) 0 jobs }

  unfoldable pub is_cycle : JobGraph F → List ℕ → Bool
  is_cycle g [] = false
  is_cycle g (n ∷ []) = contains_edge n n g.edges
  is_cycle g (n ∷ m ∷ ns) = true

  abbrev pub add_member : Option (Job F) → List (Job F) → List (Job F)
  add_member none js = js
  add_member (some j) js = j ∷ js

  abbrev pub members : JobGraph F → List ℕ → List (Job F)
  members g [] = []
  members g (n ∷ ns) = add_member (node_at n g.nodes) (members g ns)

  abbrev pub insert_by_id : Job F → List (Job F) → List (Job F)
  insert_by_id j [] = j ∷ []
  insert_by_id j (k ∷ ks) =
      let rest = insert_by_id j ks in if bytes_le j.id k.id then j ∷ k ∷ ks else k ∷ rest

  abbrev pub sort_by_id : List (Job F) → List (Job F)
  sort_by_id [] = []
  sort_by_id (j ∷ js) = insert_by_id j (sort_by_id js)

  abbrev pub spans : List (Job F) → List SourceSpan
  spans [] = []
  spans (j ∷ js) = add_span j.span (spans js)

  abbrev pub ids : List (Job F) → List Bytes
  ids = map (λ (j : Job F). j.id)

  unfoldable pub cycle_error : JobGraph F → List ℕ → StructureError
  cycle_error g scc = let ms = sort_by_id (members g scc) in cycle (ids ms) (spans ms)

  abbrev pub is_trigger : Option (Job F) → Bool
  is_trigger none = false
  is_trigger (some j) = has_no_inputs j.inputs

  -- One round of the loop over the nodes.
  unfoldable pub check_reach :
      JobGraph F → (ℕ → List ℕ) → List Bytes → ℕ → Job F → List StructureError
  check_reach g bfs cycle_members n j =
      if any (λ id. id == j.id) cycle_members
      then []
      else if has_no_inputs j.inputs
      then []
      else if any (λ m. is_trigger (node_at m g.nodes)) (bfs n)
      then []
      else unreachable j.id j.span ∷ []

  unfoldable pub check_all :
      JobGraph F → (ℕ → List ℕ) → List Bytes → ℕ → List (Job F) → List StructureError
  check_all g bfs cycle_members n [] = []
  check_all g bfs cycle_members n (j ∷ js) =
      check_reach g bfs cycle_members n j ++ check_all g bfs cycle_members (suc n) js

  abbrev pub concat_members : JobGraph F → List (List ℕ) → List Bytes
  concat_members g [] = []
  concat_members g (c ∷ cs) = ids (members g c) ++ concat_members g cs

  -- The errors; with none, the graph is accepted.
  unfoldable pub validate_post_graph :
      JobGraph F → List (List ℕ) → (ℕ → List ℕ) → List StructureError
  validate_post_graph g sccs bfs =
      let cycles = select (is_cycle g) sccs in
      map (cycle_error g) cycles ++ check_all g bfs (concat_members g cycles) 0 g.nodes

  -- The source job of every graph.
  abbrev pub builtin_push_job : F → Job F
  builtin_push_job run_fn = record {
    id = bytes "quire/push";
    inputs = [];
    span = none;
    run_fn = run_fn;
  }

  unfoldable pub graph_of : F → List (Job F) → JobGraph F
  graph_of run_fn jobs = build_graph (jobs ++ builtin_push_job run_fn ∷ [])

-- What `compile` makes of a script: the graph and the image, or errors.
pub data Compiled (F : Type 0) : Type 0 where
  pipeline : JobGraph F → Option Bytes → Compiled F
  definition_errors : List DefinitionError → Compiled F
  structure_errors : List StructureError → Compiled F
  not_evaluated : Compiled F

module _ {F : Type 0} where
  accept : JobGraph F → Option Bytes → List StructureError → Compiled F
  accept g image [] = pipeline g image
  accept g image (e ∷ es) = structure_errors (e ∷ es)

  compile_from :
      (JobGraph F → List (List ℕ)) → (JobGraph F → ℕ → List ℕ) → F → Registrations F → Compiled F
  unfolding accept
  compile_from sccs bfs run_fn fennel_error = not_evaluated
  compile_from sccs bfs run_fn (pipeline_error es) = definition_errors es
  compile_from sccs bfs run_fn (registered jobs image) =
      let g = graph_of run_fn jobs in accept g image (validate_post_graph g (sccs g) (bfs g))

  unfoldable pub compile :
      (JobGraph F → List (List ℕ))
      → (JobGraph F → ℕ → List ℕ)
      → F
      → Bytes
      → Option (List (Call F))
      → Compiled F
  unfolding compile_from
  compile sccs bfs run_fn source calls = compile_from sccs bfs run_fn (register source calls)
