-- ===== src/Pipeline/Graph/Tests.antt =====
-- A graph of one job behind the trigger, with the answers of the algorithms at it.
use quire.Prelude.{
  ℕ, zero, suc, ◌≡◌, refl, true, false, none, List, [], ◌∷◌, any, arith, inl, inr, eqb, Bool-cases,
}
use mathlib.Core.Path.{subst}
use quire.Prelude.Bytes.{bytes}
use quire.Pipeline.{Job}
use quire.Pipeline.Graph.{
  JobGraph, build_graph, graph_of, index, all_edges, validate_post_graph, is_cycle, check_all,
  check_reach,
}
use quire.Pipeline.Graph.Validated.{
  Reaches, IsSound, IsComplete, IsFired, validate_post_graph-IsFired, validated_acyclic,
}

abbrev build : Job ℕ
build = record { id = bytes "build"; inputs = bytes "quire/push" ∷ []; span = none; run_fn = 1 }

abbrev push : Job ℕ
push = record { id = bytes "quire/push"; inputs = []; span = none; run_fn = 0 }

abbrev graph : JobGraph ℕ
graph = record { nodes = build ∷ push ∷ []; edges = record { dependency = 1; dependent = 0 } ∷ [] }

built : graph_of 0 (build ∷ []) ≡ graph
unfolding graph_of build_graph index all_edges
built = refl

abbrev sccs : List (List ℕ)
sccs = (0 ∷ []) ∷ (1 ∷ []) ∷ []

abbrev bfs : ℕ → List ℕ
bfs zero = 0 ∷ 1 ∷ []
bfs (suc zero) = 1 ∷ []
bfs (suc (suc n)) = []

sound : IsSound graph bfs
sound zero m h = elim (Bool-cases (eqb 1 m)) [
  | inl e ↦ inl (subst (λ k. Reaches graph k 0) (one m e) (Reaches.edge refl))
  | inr e ↦ inr (nought m e h)
]
  where
    one : (m : ℕ) → eqb 1 m ≡ true → 1 ≡ m
    one m e = ground arith

    nought : (m : ℕ) → eqb 1 m ≡ false → any (λ k. eqb k m) (0 ∷ 1 ∷ []) ≡ true → m ≡ 0
    nought m e h = ground arith
sound (suc zero) m h = inr (ground arith)
sound (suc (suc n)) m h = absurd (ground arith)

only : (a b : ℕ) → Reaches graph a b → (a ≡ 1) × (b ≡ 0)
only a b (Reaches.edge e) = (ground arith, ground arith)
only a c (Reaches.then_edge {b = b} p e) = let (x, y) = only a b p in (x, ground arith)

complete : IsComplete graph sccs
complete a b p q = absurd (differ (only a b p).0 (only b a q).1)
  where
    differ : a ≡ 1 → a ≡ 0 → ⊥
    differ x y = ground arith

validate_post_graph-IsFired_example : IsFired graph 0 build
unfolding validate_post_graph is_cycle check_all check_reach
validate_post_graph-IsFired_example =
    validate_post_graph-IsFired graph sccs bfs 0 build sound refl refl

validated_acyclic_example : ¬ Reaches graph 0 0
unfolding validate_post_graph is_cycle check_all check_reach
validated_acyclic_example = validated_acyclic graph sccs bfs 0 complete refl
