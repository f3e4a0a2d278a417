-- ===== src/Pipeline/Graph/Validated.antt =====
-- What an accepted graph is.
use quire.Prelude.{
  ℕ, ◌≡◌, ◌∙◌, sym, Bool, true, false, ◌&&◌, ◌||◌, some, List, [], ◌∷◌, any, select, eqb, arith,
  ◌⊎◌, inl, inr, Bool-cases, if_true, if_false, bytes_eq,
}
use mathlib.Core.Bool.{false≢true}
use mathlib.Core.Path.{subst}
use quire.Pipeline.{Job}
use quire.Pipeline.Graph.{
  JobGraph, node_at, contains_edge, is_cycle, has_no_inputs, is_trigger, validate_post_graph,
}
use quire.Pipeline.Graph.Reached.{validated-IsReached, append-nil-parts, map-nil}

module _ {F : Type 0} (g : JobGraph F) where
  -- A way along edges, with at least one of them.
  pub data Reaches : ℕ → ℕ → Type 0 where
    edge : {a b : ℕ} → contains_edge a b g.edges ≡ true → Reaches a b
    then_edge : {a b c : ℕ} → Reaches a b → contains_edge b c g.edges ≡ true → Reaches a c

  -- Every node that the search from `n` visits has a way to `n`, or is `n`.
  abbrev pub IsSound : (ℕ → List ℕ) → Type 0
  IsSound bfs = (n m : ℕ) → any (λ k. eqb k m) (bfs n) ≡ true → Reaches m n ⊎ (m ≡ n)

  -- A job is a trigger, or a trigger has a way to it.
  abbrev pub IsFired : ℕ → Job F → Type 0
  IsFired n j =
      (has_no_inputs j.inputs ≡ true)
      ⊎ ((m : ℕ) × (is_trigger (node_at m g.nodes) ≡ true) × (Reaches m n ⊎ (m ≡ n)))

  find_member :
      (q : ℕ → Bool) (ns : List ℕ)
      → any q ns ≡ true
      → (m : ℕ) × (q m ≡ true) × (any (λ k. eqb k m) ns ≡ true)
  find_member q [] h = absurd (ground arith)
  find_member q (n ∷ ns) h = elim (Bool-cases (q n)) [
    | inl e ↦ (n, e, ground arith)
    | inr e ↦ deeper e (find_member q ns (rest (q n) _ e h))
  ]
    where
      rest : (a b : Bool) → a ≡ false → (a || b) ≡ true → b ≡ true
      rest a b e h = ground arith

      deeper :
          q n ≡ false
          → (m : ℕ) × (q m ≡ true) × (any (λ k. eqb k m) ns ≡ true)
          → (m : ℕ) × (q m ≡ true) × (any (λ k. eqb k m) (n ∷ ns) ≡ true)
      deeper e (m, a, b) = (m, a, ground (arith, b))

  -- Two nodes with ways to each other are in one component.
  abbrev pub IsComplete : List (List ℕ) → Type 0
  IsComplete sccs =
      (a b : ℕ)
      → Reaches a b
      → Reaches b a
      → any (λ c. any (λ k. eqb k a) c && any (λ k. eqb k b) c) sccs ≡ true

  not_cycle :
      (c : List ℕ) (a b : ℕ)
      → is_cycle g c ≡ false
      → (any (λ k. eqb k a) c && any (λ k. eqb k b) c) ≡ true
      → (a ≡ b) × (contains_edge a a g.edges ≡ false)
  unfolding is_cycle
  not_cycle [] a b h t = absurd (ground arith)
  not_cycle (x ∷ y ∷ c) a b h t = absurd (ground arith)
  not_cycle (x ∷ []) a b h t = (same, subst (λ k. contains_edge k k g.edges ≡ false) first h)
    where
      same : a ≡ b
      same = ground arith

      first : x ≡ a
      first = ground arith

  no_cycle :
      (sccs : List (List ℕ)) (a b : ℕ)
      → select (is_cycle g) sccs ≡ []
      → any (λ c. any (λ k. eqb k a) c && any (λ k. eqb k b) c) sccs ≡ true
      → (a ≡ b) × (contains_edge a a g.edges ≡ false)
  no_cycle [] a b h t = absurd (ground arith)
  no_cycle (c ∷ sccs) a b h t = elim (Bool-cases (is_cycle g c)) [
    | inl e ↦ absurd (cons_nil (sym (if_true _ _ _ e) ∙ h))
    | inr e ↦ elim (Bool-cases (any (λ k. eqb k a) c && any (λ k. eqb k b) c)) [
      | inl f ↦ not_cycle c a b e f
      | inr f ↦ no_cycle sccs a b (sym (if_false _ _ _ e) ∙ h) (rest _ _ f t)
    ]
  ]
    where
      cons_nil : {x : List ℕ} {xs : List (List ℕ)} → x ∷ xs ≡ [] → ⊥
      cons_nil h = ground arith

      rest : (a b : Bool) → a ≡ false → (a || b) ≡ true → b ≡ true
      rest a b e h = ground arith

  acyclic :
      (sccs : List (List ℕ)) (n : ℕ)
      → IsComplete sccs
      → select (is_cycle g) sccs ≡ []
      → ¬ Reaches n n
  acyclic sccs n complete h (edge e) =
      false≢true (sym (no_cycle sccs n n h (complete n n (edge e) (edge e))).1 ∙ e)
  acyclic sccs n complete h (then_edge {b = m} p e) =
      let (same, none_there) = no_cycle sccs n m h (complete n m p (edge e)) in
      false≢true (sym none_there ∙ subst (λ k. contains_edge k n g.edges ≡ true) (sym same) e)

-- If a graph is accepted, and what the search visits has a way to where it starts, then every job
-- of the graph is a trigger, or a trigger has a way to it.
pub validate_post_graph-IsFired :
    {F : Type 0} (g : JobGraph F) (sccs : List (List ℕ)) (bfs : ℕ → List ℕ) (n : ℕ) (j : Job F)
    → IsSound g bfs
    → validate_post_graph g sccs bfs ≡ []
    → node_at n g.nodes ≡ some j
    → IsFired g n j
unfolding validate_post_graph
validate_post_graph-IsFired g sccs bfs n j sound h e =
    elim (validated-IsReached g sccs bfs n j h e) [
      | inl t ↦ inl t
      | inr t ↦ inr (reached (find_member g _ (bfs n) t))
    ]
  where
    reached :
        (m : ℕ) × (is_trigger (node_at m g.nodes) ≡ true) × (any (λ k. eqb k m) (bfs n) ≡ true)
        → (m : ℕ) × (is_trigger (node_at m g.nodes) ≡ true) × (Reaches g m n ⊎ (m ≡ n))
    reached (m, t, visited) = (m, t, sound n m visited)

-- If a graph is accepted, and two nodes with ways to each other are in one of the components, then
-- no node has a way to itself.
pub validated_acyclic :
    {F : Type 0} (g : JobGraph F) (sccs : List (List ℕ)) (bfs : ℕ → List ℕ) (n : ℕ)
    → IsComplete g sccs
    → validate_post_graph g sccs bfs ≡ []
    → ¬ Reaches g n n
unfolding validate_post_graph
validated_acyclic g sccs bfs n complete h =
    acyclic g sccs n complete (map-nil g _ (append-nil-parts _ _ h).0)
