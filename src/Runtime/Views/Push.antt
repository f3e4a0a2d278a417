-- ===== src/Runtime/Views/Push.antt =====
-- The push is in the view of every job.
use quire.Prelude.{
  ℕ, zero, suc, ◌+◌, ◌≡◌, ◌∙◌, refl, sym, ap, Bool, true, false, ◌||◌, ◌⊎◌, inl, inr, Option, none,
  some, List, [], ◌∷◌, ◌++◌, any, lookup, lookup-insert, All, is_some, eqb, eqb_iff, bytes_eq, ◌==◌,
  ==_iff, arith, Bool-cases, Option-cases, if_true, if_false,
}
use mathlib.Core.Bool.{false≢true}
use quire.Prelude.Bytes.{Bytes, bytes}
use quire.Secret.{SecretRegistry}
use quire.Pipeline.{Job, Call}
use quire.Pipeline.Registered.{IsGood}
use quire.Pipeline.Graph.{
  JobGraph, node_at, index, is_trigger, has_no_inputs, builtin_push_job, pipeline, compile,
}
use quire.Pipeline.Graph.Reached.{validated-IsReached}
use quire.Pipeline.Graph.Accepted.{Accepted, compile-Accepted}
use quire.Runtime.{Runtime, enter_job}
use quire.Runtime.Views.{
  add_id, reachable_of, inputs_of, transitive_inputs, view_of, views, new_runtime, answered,
  answer_in, answer_from, answer_for, jobs_lookup,
}

abbrev push_id : Bytes
push_id = bytes "quire/push"

some-injective : {A : Type 0} {a b : A} → some a ≡ some b → a ≡ b
some-injective h = cc

module _ {F : Type 0} where
  -- A node that the index has for an id is the node of a job with the id.
  abbrev HasId : Bytes → List (Job F) → ℕ → Type 0
  HasId id js n = (j : Job F) × (node_at n js ≡ some j) × (j.id ≡ id)

  index-HasId :
      (id : Bytes) (k : ℕ) (js : List (Job F)) (by_id : List (Bytes × ℕ)) (n : ℕ)
      → lookup id (index k js by_id) ≡ some n
      → (lookup id by_id ≡ some n) ⊎ ((i : ℕ) × (n ≡ k + i) × HasId id js i)
  unfolding index
  index-HasId id k [] by_id n h = inl h
  index-HasId id k (j ∷ js) by_id n h = elim (index-HasId id (suc k) js _ n h) [
    | inl e ↦ elim (Bool-cases (j.id == id)) [
      | inl s ↦ inr (
        0,
        (sym (some-injective (sym (if_true _ _ _ s) ∙ sym (lookup-insert j.id id k by_id) ∙ e))
            ∙ add_zero k),
        (j, refl, (==_iff j.id id).0 s),
      )
      | inr s ↦ inl (sym (if_false _ _ _ s) ∙ sym (lookup-insert j.id id k by_id) ∙ e)
    ]
    | inr (i, e, has) ↦ inr (suc i, e ∙ shift k i, has)
  ]
    where
      add_zero : (a : ℕ) → a ≡ a + 0
      add_zero a = omega arith

      shift : (a b : ℕ) → suc a + b ≡ a + suc b
      shift a b = omega arith

  -- A trigger among accepted jobs is the source job.
  trigger-push :
      (run_fn : F) (js : List (Job F)) (n : ℕ)
      → All IsGood js
      → is_trigger (node_at n (js ++ builtin_push_job run_fn ∷ [])) ≡ true
      → node_at n (js ++ builtin_push_job run_fn ∷ []) ≡ some (builtin_push_job run_fn)
  trigger-push run_fn [] zero g h = refl
  trigger-push run_fn [] (suc n) g h = absurd (ground arith)
  trigger-push run_fn (j ∷ js) zero g h = absurd (g.0.1 (no_inputs j.inputs h))
    where
      no_inputs : (is : List Bytes) → has_no_inputs is ≡ true → is ≡ []
      no_inputs [] h = refl
      no_inputs (i ∷ is) h = absurd (ground arith)
  trigger-push run_fn (j ∷ js) (suc n) g h = trigger-push run_fn js n g.1 h

or_rest : (a b : Bool) → a ≡ false → (a || b) ≡ true → b ≡ true
or_rest a b e h = ground arith

or_parts : (a b : Bool) → (a || b) ≡ true → (a ≡ true) ⊎ (b ≡ true)
or_parts a b h = ground arith

module _ {F V : Type 0} (push_value : V) (g : JobGraph F) (bfs : ℕ → List ℕ) where
  -- Only the source job has no inputs.
  abbrev OnlyPush : Type 0
  OnlyPush =
      (m : ℕ) (j : Job F)
      → node_at m g.nodes ≡ some j
      → has_no_inputs j.inputs ≡ true
      → j.id ≡ push_id

  view_of-job :
      (o : Option (Job F)) (m : ℕ) (rest : List Bytes) (b : Bool)
      → OnlyPush
      → node_at m g.nodes ≡ o
      → (is_trigger o || b) ≡ true
      → (b ≡ true → lookup push_id (view_of push_value rest) ≡ some (some push_value))
      → lookup push_id (view_of push_value (add_id g bfs o rest)) ≡ some (some push_value)
  view_of-job none m rest b p e h k = k h
  view_of-job (some j) m rest b p e h k = elim (Bool-cases (j.id == push_id)) [
    | inl s ↦ if_true _ _ _ s ∙ ap some (if_true _ _ _ s)
    | inr s ↦ if_false _ _ _ s ∙ elim (or_parts (has_no_inputs j.inputs) b h) [
      | inl t ↦ absurd (false≢true (sym s ∙ (==_iff j.id push_id).1 (p m j e t)))
      | inr t ↦ k t
    ]
  ]

  -- A trigger that is visited puts the push into the view.
  view_of-push :
      (start : ℕ) (ns : List ℕ)
      → OnlyPush
      → is_trigger (node_at start g.nodes) ≡ false
      → any (λ m. is_trigger (node_at m g.nodes)) ns ≡ true
      → lookup push_id (view_of push_value (reachable_of g bfs start ns)) ≡ some (some push_value)
  view_of-push start [] p s h = absurd (ground arith)
  view_of-push start (m ∷ ns) p s h = elim (Bool-cases (eqb m start)) [
    | inl e ↦
        ap (λ l. lookup push_id (view_of push_value l)) (if_true _ _ _ e)
        ∙ view_of-push start ns p s (
            or_rest (is_trigger (node_at m g.nodes)) _
              (ap (λ n. is_trigger (node_at n g.nodes)) ((eqb_iff m start).0 e) ∙ s) h)
    | inr e ↦
        ap (λ l. lookup push_id (view_of push_value l)) (if_false _ _ _ e)
        ∙ view_of-job (node_at m g.nodes) m (reachable_of g bfs start ns)
            (any (λ n. is_trigger (node_at n g.nodes)) ns) p refl h (view_of-push start ns p s)
  ]

  abbrev view_at : Option ℕ → Option (List (Bytes × Option V))
  view_at none = none
  view_at (some n) = some (view_of push_value (reachable_of g bfs n (bfs n)))

  lookup-views :
      (id : Bytes) (by_id : List (Bytes × ℕ))
      → lookup id (views push_value (inputs_of g bfs by_id)) ≡ view_at (lookup id by_id)
  lookup-views id [] = refl
  lookup-views id ((i, n) ∷ rest) = elim (Bool-cases (i == id)) [
    | inl e ↦ if_true _ _ _ e ∙ sym (ap view_at (if_true _ _ _ e))
    | inr e ↦ if_false _ _ _ e ∙ lookup-views id rest ∙ sym (ap view_at (if_false _ _ _ e))
  ]

  enter_job-some :
      (id : Bytes) (rt0 rt : Runtime V)
      → enter_job id rt0 ≡ some rt
      → (is_some (lookup id rt0.inputs) ≡ true) × (record rt0 { current_job = some id } ≡ rt)
  unfolding enter_job
  enter_job-some id rt0 rt h = elim (Bool-cases (is_some (lookup id rt0.inputs))) [
    | inl e ↦ (e, some-injective (sym (if_true _ _ _ e) ∙ h))
    | inr e ↦ absurd (none-some (sym (if_false _ _ _ e) ∙ h))
  ]
    where
      none-some : none ≡ some rt → ⊥
      none-some h = ground arith

module _ {F : Type 0} (run_fn : F) (sccs : JobGraph F → List (List ℕ))
    (bfs : JobGraph F → ℕ → List ℕ) where
  Accepted-OnlyPush :
      (g : JobGraph F)
      → Accepted run_fn sccs bfs g
      → (m : ℕ) (j : Job F) → node_at m g.nodes ≡ some j
      → has_no_inputs j.inputs ≡ true
      → j.id ≡ push_id
  Accepted-OnlyPush g acc m j e t =
      let there : node_at m (acc.jobs ++ builtin_push_job run_fn ∷ []) ≡ some j =
        ap (node_at m) (sym acc.nodes) ∙ e in
      let source_job = trigger-push run_fn acc.jobs m acc.good (ap is_trigger there ∙ t) in
      ap (λ (k : Job F). k.id) (some-injective (sym there ∙ source_job))

  -- The node of a known id other than the push's: the search from it visits the source job.
  found :
      {V : Type 0} (push_value : V) (g : JobGraph F) (id : Bytes) (n : ℕ)
      → Accepted run_fn sccs bfs g
      → (id == push_id) ≡ false
      → lookup id (index 0 g.nodes []) ≡ some n
      → lookup push_id (view_of push_value (reachable_of g (bfs g) n (bfs g n)))
        ≡ some (some push_value)
  found push_value g id n acc other h = elim (index-HasId id 0 g.nodes [] n h) [
    | inl e ↦ absurd (none-some e)
    | inr (i, same, (j, e, named)) ↦
        at_job j (ap (λ k. node_at k g.nodes) (same ∙ zero_add i) ∙ e) named
  ]
    where
      none-some : none ≡ some n → ⊥
      none-some e = ground arith

      zero_add : (a : ℕ) → 0 + a ≡ a
      zero_add a = omega arith

      at_job :
          (j : Job F)
          → node_at n g.nodes ≡ some j
          → j.id ≡ id
          → lookup push_id (view_of push_value (reachable_of g (bfs g) n (bfs g n)))
            ≡ some (some push_value)
      at_job j e named = elim (Bool-cases (has_no_inputs j.inputs)) [
        | inl t ↦ absurd (
            false≢true
              (sym other ∙ (==_iff id push_id).1 (sym named ∙ Accepted-OnlyPush g acc n j e t)))
        | inr t ↦ elim (validated-IsReached g (sccs g) (bfs g) n j acc.clean e) [
          | inl u ↦ absurd (false≢true (sym t ∙ u))
          | inr u ↦
              view_of-push push_value g (bfs g) n (bfs g n) (Accepted-OnlyPush g acc)
                (ap is_trigger e ∙ t) u
        ]
      ]

  -- In a runtime of a pipeline that `compile` accepts, once any job but the source job itself is
  -- entered, whose id the pipeline must know for that, `(jobs "quire/push")` answers with the push.
  pub jobs_lookup-push :
      {V : Type 0} (push_value : V) (source : Bytes) (cs : List (Call F)) (g : JobGraph F)
      (image : Option Bytes) (registry : SecretRegistry) (id : Bytes) (rt : Runtime V)
      → compile sccs bfs run_fn source (some cs) ≡ pipeline g image
      → (id == push_id) ≡ false
      → enter_job id (new_runtime push_value g (bfs g) registry) ≡ some rt
      → jobs_lookup push_id rt ≡ answered push_value
  unfolding new_runtime transitive_inputs jobs_lookup answer_for answer_from answer_in
  jobs_lookup-push push_value source cs g image registry id rt h other entered =
      let acc = compile-Accepted sccs bfs run_fn source cs g image h in
      let (known, same) = enter_job-some push_value g (bfs g) id _ rt entered in
      let seen = lookup-views push_value g (bfs g) id (index 0 g.nodes []) in
      ap (jobs_lookup push_id) (sym same)
      ∙ ap (answer_from id push_id) seen
      ∙ elim (Option-cases (lookup id (index 0 g.nodes []))) [
        | inl e ↦ absurd (
            unknown
              (sym known ∙ ap is_some seen ∙ ap (λ o. is_some (view_at push_value g (bfs g) o)) e))
        | inr (n, e) ↦
            ap (λ o. answer_from id push_id (view_at push_value g (bfs g) o)) e
            ∙ ap (answer_in id push_id) (found push_value g id n acc other e)
      ]
    where
      unknown : true ≡ false → ⊥
      unknown e = false≢true (sym e)
