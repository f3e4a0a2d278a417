-- ===== src/Pipeline/Graph/Reached.antt =====
-- The jobs that the validation finds reached.
use quire.Prelude.{
  ℕ, zero, suc, ◌+◌, ◌≡◌, ◌∙◌, refl, sym, ap, true, ◌⊎◌, inl, inr, some, List, [], ◌∷◌, ◌++◌, any,
  map, bytes_eq, arith, Bool-cases, if_false,
}
use mathlib.Core.Path.{subst}
use quire.Pipeline.{Job}
use quire.Pipeline.Graph.{
  JobGraph, StructureError, node_at, is_trigger, has_no_inputs, check_reach, check_all,
  concat_members, cycle_error, validate_post_graph,
}

cons_nil : {x : StructureError} → x ∷ [] ≡ [] → ⊥
cons_nil h = ground arith

pub append-nil-parts : {A : Type 0} (xs ys : List A) → xs ++ ys ≡ [] → (xs ≡ []) × (ys ≡ [])
append-nil-parts [] ys h = (refl, h)
append-nil-parts (x ∷ xs) ys h = absurd (ground arith)

module _ {F : Type 0} where
  pub map-nil : (g : JobGraph F) (xs : List (List ℕ)) → map (cycle_error g) xs ≡ [] → xs ≡ []
  map-nil g [] h = refl
  map-nil g (x ∷ xs) h = absurd (ground arith)

  -- A job is a trigger, or the search from its node visits one.
  abbrev pub IsReached : JobGraph F → (ℕ → List ℕ) → ℕ → Job F → Type 0
  IsReached g bfs n j =
      (has_no_inputs j.inputs ≡ true) ⊎ (any (λ m. is_trigger (node_at m g.nodes)) (bfs n) ≡ true)

  check_reach-IsReached :
      (g : JobGraph F) (bfs : ℕ → List ℕ) (n : ℕ) (j : Job F)
      → check_reach g bfs [] n j ≡ []
      → IsReached g bfs n j
  unfolding check_reach
  check_reach-IsReached g bfs n j h = elim (Bool-cases (has_no_inputs j.inputs)) [
    | inl e ↦ inl e
    | inr e ↦ elim (Bool-cases (any (λ m. is_trigger (node_at m g.nodes)) (bfs n))) [
      | inl f ↦ inr f
      | inr f ↦ absurd (cons_nil (sym (if_false _ _ _ e ∙ if_false _ _ _ f) ∙ h))
    ]
  ]

  check_all-IsReached :
      (g : JobGraph F) (bfs : ℕ → List ℕ) (k : ℕ) (js : List (Job F)) (n : ℕ) (j : Job F)
      → check_all g bfs [] k js ≡ []
      → node_at n js ≡ some j
      → IsReached g bfs (k + n) j
  unfolding check_all
  check_all-IsReached g bfs k [] n j h e = absurd (ground arith)
  check_all-IsReached g bfs k (i ∷ js) zero j h e =
      subst (λ x. IsReached g bfs x j) (at_start k)
        (check_reach-IsReached g bfs k j (
          ap (λ x. check_reach g bfs [] k x) (sym (some-injective e)) ∙ (append-nil-parts _ _ h).0))
    where
      at_start : (k : ℕ) → k ≡ k + 0
      at_start k = omega arith

      some-injective : {a b : Job F} → some a ≡ some b → a ≡ b
      some-injective h = cc
  check_all-IsReached g bfs k (i ∷ js) (suc n) j h e =
      subst (λ x. IsReached g bfs x j) (shift k n)
        (check_all-IsReached g bfs (suc k) js n j (append-nil-parts _ _ h).1 e)
    where
      shift : (k n : ℕ) → suc k + n ≡ k + suc n
      shift k n = omega arith

  pub validated-IsReached :
      (g : JobGraph F) (sccs : List (List ℕ)) (bfs : ℕ → List ℕ) (n : ℕ) (j : Job F)
      → validate_post_graph g sccs bfs ≡ []
      → node_at n g.nodes ≡ some j
      → IsReached g bfs n j
  unfolding validate_post_graph
  validated-IsReached g sccs bfs n j h e =
      let (cycles, unreached) = append-nil-parts _ _ h in
      subst (λ x. IsReached g bfs x j) (zero_add n)
        (check_all-IsReached g bfs 0 g.nodes n j
          (subst (λ x. check_all g bfs (concat_members g x) 0 g.nodes ≡ []) (map-nil g _ cycles)
            unreached)
          e)
    where
      zero_add : (n : ℕ) → 0 + n ≡ n
      zero_add n = omega arith
