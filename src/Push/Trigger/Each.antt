-- ===== src/Push/Trigger/Each.antt =====
-- The run of each ref that is pushed, after all of `trigger`.
use quire.Prelude.{
  ℕ, String, ◌≡◌, ◌∙◌, sym, refl, ap, Bool, some, List, [], ◌∷◌, ◌++◌, All, length, arith,
}
use mathlib.Core.Path.{subst}
use quire.Database.{RunRow, ◌>>=◌, Db, ok, Result}
use quire.Database.Keeps.{Keeps, Keeps-bind, >>=-ok}
use quire.Database.History.{Extends, Extends-refl, Extends-trans}
use quire.Repo.{Directory, Repo, FoundRepo, found, repo}
use quire.Runs.{Runs, Run, RunMeta, create, new_row}
use quire.Runs.Pending.{NonePending}
use quire.Runs.Created.{create_supersedes}
use quire.Runs.Settled.{Keeps-Extends}
use quire.Runs.Execute.{execute}
use quire.Runs.Execute.Kept.{Keeps-execute}
use quire.Prelude.Bytes.{Bytes}
use quire.Push.{PushRef, PushEvent, updated_refs}
use quire.Push.Trigger.{
  source, RefWorld, materialize_workspace, start_run, run_by_source, meta_of, runs_of,
  run_ref_inner, run_ref, run_refs, trigger_at, trigger,
}
use quire.Push.Trigger.Outcome.{Grows, Keeps-materialize, run_refs-Extends}

Keeps-started :
    (rs : List RunRow) (w : RefWorld) (run : Run)
    → Grows w
    → Keeps
        (λ db. Extends rs db.runs)
        (materialize_workspace w.materializes >>= λ _.
          execute run w.execute_world w.traceparent (some w.session))
Keeps-started rs w run g = Keeps-bind _ _ (Keeps-materialize rs w.materializes) (λ _.
    Keeps-execute _ (Keeps-Extends rs) run w.execute_world w.traceparent (some w.session) (g rs))

-- What is there once the run is created is there when its execution has ended, however it ends.
start_run-Extends :
    (runs : Runs) (w : RefWorld) (meta : RunMeta) (db db1 : Db) (run : Run)
    → Grows w
    → create runs w.create_world meta (some w.session) db ≡ (ok run, db1)
    → Extends db1.runs (start_run runs w meta db).1.runs
unfolding start_run
start_run-Extends runs w meta db db1 run g h =
    subst (λ (x : Result (Unit {0}) × Db). Extends db1.runs x.1.runs)
      (sym (>>=-ok _ _ db db1 run h))
      ((Keeps-started db1.runs w run g).holds db1 (Extends-refl db1.runs))

module _ (text : Bytes → String) (stored : Directory → String) where
  run_refs-append :
      (runs : Runs) (at : ℕ) (ws ws' : List RefWorld) (rs rs' : List PushRef) (db : Db)
      → length ws ≡ length rs
      → run_refs text stored runs at (ws ++ ws') (rs ++ rs') db
        ≡ run_refs text stored runs at ws' rs' (run_refs text stored runs at ws rs db)
  unfolding run_refs
  run_refs-append runs at [] ws' [] rs' db h = refl
  run_refs-append runs at [] ws' (r ∷ rs) rs' db h = absurd (omega (arith, h))
  run_refs-append runs at (w ∷ ws) ws' [] rs' db h = absurd (omega (arith, h))
  run_refs-append runs at (w ∷ ws) ws' (r ∷ rs) rs' db h =
      run_refs-append runs at ws ws' rs rs' _ (omega (arith, h))

  run_ref-Extends :
      (runs : Runs) (at : ℕ) (w : RefWorld) (p : PushRef) (db db1 : Db) (run : Run)
      → w.ci_source ≡ source
      → Grows w
      → create runs w.create_world (meta_of text stored at p) (some w.session) db ≡ (ok run, db1)
      → Extends db1.runs (run_ref text stored runs at w p db).runs
  unfolding run_ref run_ref_inner run_by_source
  run_ref-Extends runs at w p db db1 run s g h =
      subst
        (λ (x : _). Extends db1.runs (run_by_source x runs w (meta_of text stored at p) db).1.runs)
        (sym s) (start_run-Extends runs w (meta_of text stored at p) db db1 run g h)

  -- When every subprocess only adds rows and moves rows to later states, then for each updated ref of
  -- a push whose commit has a `.quire/ci.fnl`, if its run is created, the row of the run is there in a
  -- later state after all of `trigger`, however its execution and the other refs go. Before it stand
  -- the rows that were there at first, in later states, and when it was inserted, no other run for its
  -- repository and ref was pending.
  pub trigger_created :
      (is_dir : Directory → Bool) (base_dir : Directory) (db_path : String) (event : PushEvent)
      (r : Repo) (ws ws' : List RefWorld) (w : RefWorld) (rs rs' : List PushRef) (p : PushRef)
      (db db1 : Db) (run : Run)
      → repo is_dir base_dir event.repo ≡ found r
      → updated_refs event ≡ rs ++ p ∷ rs'
      → length ws ≡ length rs
      → All Grows ws
      → All Grows ws'
      → Grows w
      → w.ci_source ≡ source
      → create
          (runs_of text stored db_path r)
          w.create_world
          (meta_of text stored event.pushed_at p)
          (some w.session)
          (run_refs text stored (runs_of text stored db_path r) event.pushed_at ws rs db)
        ≡ (ok run, db1)
      → (rows : List RunRow) × Extends db.runs rows
        × NonePending
            (runs_of text stored db_path r).repo
            (meta_of text stored event.pushed_at p).ref_name
            rows
        × Extends
            (rows
              ++ new_row
                  (runs_of text stored db_path r)
                  w.create_world
                  (meta_of text stored event.pushed_at p)
                  (some w.session)
                ∷ [])
            (trigger text stored is_dir base_dir db_path (ws ++ w ∷ ws') event db).runs
  unfolding trigger trigger_at run_refs
  trigger_created is_dir base_dir db_path event r ws ws' w rs rs' p db db1 run there refs same gs
        gs' g s h =
      let runs = runs_of text stored db_path r in
      let at = event.pushed_at in
      let before = run_refs text stored runs at ws rs db in
      let (rows, last, none_pending, old, _) =
        create_supersedes runs w.create_world (meta_of text stored at p) (some w.session) before db1
          run h in
      let row = new_row runs w.create_world (meta_of text stored at p) (some w.session) in
      let first = run_ref-Extends runs at w p before db1 run s g h in
      let after = run_refs-Extends text stored (rows ++ row ∷ []) runs at ws' rs' gs' _ (
        subst (λ (x : List RunRow). Extends x (run_ref text stored runs at w p before).runs) last
          first) in
      let whole : trigger text stored is_dir base_dir db_path (ws ++ w ∷ ws') event db
          ≡ run_refs text stored runs at (w ∷ ws') (p ∷ rs') before =
        ap (λ (o : FoundRepo). trigger_at text stored db_path (ws ++ w ∷ ws') event o db) there
        ∙ ap (λ (x : List PushRef). run_refs text stored runs at (ws ++ w ∷ ws') x db) refs
        ∙ run_refs-append runs at ws (w ∷ ws') rs (p ∷ rs') db same in
      (
        rows,
        Extends-trans _ _ _
            (run_refs-Extends text stored db.runs runs at ws rs gs db (Extends-refl db.runs)) old,
        none_pending,
        subst (λ (x : Db). Extends (rows ++ row ∷ []) x.runs) (sym whole) after,
      )
