-- ===== src/Runtime/Views.antt =====
-- What a job may read: `Pipeline::transitive_inputs`, the views of `Runtime::new` and the `jobs`
-- primitive of `RuntimeHandle::install`. The nodes that a breadth-first search over the reversed
-- edges visits, the start among them, are an argument, as in the validation of the graph.
pub mod Push
use quire.Prelude.{
  ℕ, suc, eqb, Bool, true, false, Option, none, some, List, [], ◌∷◌, ◌++◌, map, lookup, bytes_eq,
  ◌==◌, if◌then◌else◌,
}
use quire.Prelude.Bytes.{Bytes, bytes}
use quire.Secret.{SecretRegistry}
use quire.Pipeline.{Job}
use quire.Pipeline.Graph.{JobGraph, node_at, index}
use quire.Runtime.{Runtime}

module _ {F : Type 0} (g : JobGraph F) (bfs : ℕ → List ℕ) where
  abbrev pub add_id : Option (Job F) → List Bytes → List Bytes
  add_id none ids = ids
  add_id (some j) ids = j.id ∷ ids

  -- The loop over the visited nodes.
  abbrev pub reachable_of : ℕ → List ℕ → List Bytes
  reachable_of start [] = []
  reachable_of start (n ∷ ns) =
      let rest = reachable_of start ns in
      if eqb n start then rest else add_id (node_at n g.nodes) rest

  abbrev pub inputs_of : List (Bytes × ℕ) → List (Bytes × List Bytes)
  inputs_of [] = []
  inputs_of ((id, start) ∷ rest) = (id, reachable_of start (bfs start)) ∷ inputs_of rest

  unfoldable pub transitive_inputs : List (Bytes × List Bytes)
  transitive_inputs = inputs_of (index 0 g.nodes [])

module _ {V : Type 0} (push_value : V) where
  abbrev pub value_of : Bytes → Option V
  value_of name = if name == bytes "quire/push" then some push_value else none

  abbrev pub view_of : List Bytes → List (Bytes × Option V)
  view_of [] = []
  view_of (name ∷ names) = (name, value_of name) ∷ view_of names

  abbrev pub views : List (Bytes × List Bytes) → List (Bytes × List (Bytes × Option V))
  views [] = []
  views ((id, names) ∷ rest) = (id, view_of names) ∷ views rest

  -- Runtime::new
  unfoldable pub new_runtime : {F : Type 0} → JobGraph F → (ℕ → List ℕ) → SecretRegistry → Runtime V
  new_runtime g bfs registry = record {
    inputs = views (transitive_inputs g bfs);
    registry = registry;
    current_job = none;
    outputs = [];
    sh_timings = [];
    events = [];
    files = [];
  }

-- What `(jobs name)` answers; `no_view` is the panic.
pub data Answer (V : Type 0) : Type 0 where
  answered : V → Answer V
  nil_value outside_job own_outputs not_in_inputs no_view : Answer V

module _ {V : Type 0} where
  answer_in : Bytes → Bytes → Option (Option V) → Answer V
  answer_in calling name (some (some v)) = answered v
  answer_in calling name (some none) = nil_value
  answer_in calling name none = if name == calling then own_outputs else not_in_inputs

  answer_from : Bytes → Bytes → Option (List (Bytes × Option V)) → Answer V
  unfolding answer_in
  answer_from calling name none = no_view
  answer_from calling name (some view) = answer_in calling name (lookup name view)

  answer_for : Option Bytes → Bytes → Runtime V → Answer V
  unfolding answer_from
  answer_for none name rt = outside_job
  answer_for (some calling) name rt = answer_from calling name (lookup calling rt.inputs)

  unfoldable pub jobs_lookup : Bytes → Runtime V → Answer V
  unfolding answer_for
  jobs_lookup name rt = answer_for rt.current_job name rt
