-- ===== src/Push/Trigger/Outcome.antt =====
-- What `trigger` and `run_ref_inner` leave in the table of runs.
use quire.Prelude.{
  ℕ, String, ◌≡◌, ◌∙◌, sym, refl, Bool, true, false, none, some, List, [], ◌∷◌, ◌++◌, All,
}
use mathlib.Core.Path.{subst}
use quire.Database.{
  RunRow, Action, ◌>>=◌, Db, ok, err, workspace_materialization_failed, fail, Result,
}
use quire.Database.Keeps.{Keeps, Keeps-bind, keeps_rules, >>=-ok, >>=-eq-ok}
use quire.Database.History.{Extends, Extends-refl}
use quire.Repo.{Directory, FoundRepo, found, bad_name, repo_not_found}
use quire.Runs.{Runs, Run, RunMeta, create, new_row}
use quire.Runs.History.{Keeps-create}
use quire.Runs.Pending.{NonePending}
use quire.Runs.Created.{create_supersedes}
use quire.Runs.Settled.{Keeps-Extends}
use quire.Runs.Execute.{execute}
use quire.Runs.Execute.Finished.{IsSettled, execute-IsSettled}
use quire.Runs.Execute.Kept.{IsKeptBy, Keeps-execute}
use quire.Prelude.Bytes.{Bytes}
use quire.Push.{PushRef, PushEvent, updated_refs}
use quire.Push.Trigger.{
  Source, no_file, unreadable, source, RefWorld, materialize_workspace, start_run, run_by_source,
  meta_of, run_ref_inner, run_ref, run_refs, trigger_at, trigger,
}

-- A subprocess only adds rows and moves the rows there are to later states.
abbrev pub Grows : RefWorld → Type 0
Grows w = (rs : List RunRow) → IsKeptBy (λ db. Extends rs db.runs) w.execute_world.child

module _ (rs : List RunRow) where
  pub Keeps-materialize : (b : Bool) → Keeps (λ db. Extends rs db.runs) (materialize_workspace b)
  unfolding materialize_workspace
  Keeps-materialize true = search keeps_rules
  Keeps-materialize false = search keeps_rules

  Keeps-start_run :
      (runs : Runs) (w : RefWorld) (meta : RunMeta)
      → Grows w
      → Keeps (λ db. Extends rs db.runs) (start_run runs w meta)
  unfolding start_run
  Keeps-start_run runs w meta g =
      Keeps-bind _ _ (Keeps-create _ (Keeps-Extends rs) runs w.create_world meta (some w.session))
        (λ run. Keeps-bind _ _ (Keeps-materialize w.materializes) (λ _.
          Keeps-execute _ (Keeps-Extends rs) run w.execute_world w.traceparent (some w.session)
            (g rs)))

  Keeps-run_by_source :
      (s : Source) (runs : Runs) (w : RefWorld) (meta : RunMeta)
      → Grows w
      → Keeps (λ db. Extends rs db.runs) (run_by_source s runs w meta)
  unfolding run_by_source
  Keeps-run_by_source no_file runs w meta g = search keeps_rules
  Keeps-run_by_source unreadable runs w meta g = search keeps_rules
  Keeps-run_by_source source runs w meta g = Keeps-start_run runs w meta g

started :
    (runs : Runs) (w : RefWorld) (meta : RunMeta) (db db' : Db)
    → Grows w
    → start_run runs w meta db ≡ (ok tt, db')
    → IsSettled w.create_world.id db'.runs
      × ((rows : List RunRow) × Extends
            (rows ++ new_row runs w.create_world meta (some w.session) ∷ [])
            db'.runs
          × NonePending runs.repo meta.ref_name rows
          × Extends db.runs rows)
unfolding start_run
started runs w meta db db' g h =
    let (run, db1, created, rest) = >>=-eq-ok _ _ db db' tt h in
    let (_, db2, made, executed) = >>=-eq-ok _ _ db1 db' tt rest in
    let (rows, last, none_pending, old, handle) =
      create_supersedes runs w.create_world meta (some w.session) db db1 run created in
    let (child, _, _, settled) =
      execute-IsSettled run w.execute_world w.traceparent (some w.session) db2 db' executed in
    let new = rows ++ new_row runs w.create_world meta (some w.session) ∷ [] in
    let at1 : Extends new db1.runs = subst (Extends new) (sym last) (Extends-refl new) in
    let at2 : Extends new db2.runs =
      subst (λ (x : Result (Unit {0}) × Db). Extends new x.1.runs) made
        ((Keeps-materialize new w.materializes).holds db1 at1) in
    let at3 : Extends new db'.runs =
      subst (λ (x : Result (Unit {0}) × Db). Extends new x.1.runs) executed
        ((Keeps-execute _ (Keeps-Extends new) run w.execute_world w.traceparent (some w.session)
            (g new)).holds
          db2 at2) in
    (
      subst (λ (r : Run). IsSettled r.id db'.runs) (sym handle) settled,
      (rows, at3, none_pending, old),
    )

refuses :
    (f : Unit {0} → Action (Unit {0})) (db : Db)
    → (materialize_workspace false >>= f) db ≡ (err workspace_materialization_failed, db)
unfolding materialize_workspace fail ◌>>=◌
refuses f db = refl

stopped :
    (runs : Runs) (w : RefWorld) (meta : RunMeta) (db db1 : Db) (run : Run)
    → w.materializes ≡ false
    → create runs w.create_world meta (some w.session) db ≡ (ok run, db1)
    → start_run runs w meta db ≡ (err workspace_materialization_failed, db1)
unfolding start_run
stopped runs w meta db db1 run m h =
    >>=-ok _ _ db db1 run h
    ∙ (rw m (refuses (λ _. execute run w.execute_world w.traceparent (some w.session)) db1))

module _ (text : Bytes → String) (stored : Directory → String) where
  pub run_refs-Extends :
      (rs : List RunRow) (runs : Runs) (at : ℕ) (ws : List RefWorld) (refs : List PushRef)
      → All Grows ws
      → (db : Db) → Extends rs db.runs
      → Extends rs (run_refs text stored runs at ws refs db).runs
  unfolding run_refs run_ref run_ref_inner
  run_refs-Extends rs runs at [] refs g db h = h
  run_refs-Extends rs runs at (w ∷ ws) [] g db h = h
  run_refs-Extends rs runs at (w ∷ ws) (r ∷ refs) g db h =
      run_refs-Extends rs runs at ws refs g.1 _
        ((Keeps-run_by_source rs w.ci_source runs w _ g.0).holds db h)

  trigger_at-Extends :
      (db_path : String) (ws : List RefWorld) (event : PushEvent) (o : FoundRepo)
      → All Grows ws
      → (db : Db) → Extends db.runs (trigger_at text stored db_path ws event o db).runs
  unfolding trigger_at
  trigger_at-Extends db_path ws event (found r) g db =
      run_refs-Extends db.runs _ event.pushed_at ws (updated_refs event) g db (Extends-refl db.runs)
  trigger_at-Extends db_path ws event (bad_name e) g db = Extends-refl db.runs
  trigger_at-Extends db_path ws event (repo_not_found e) g db = Extends-refl db.runs

  -- When every subprocess only adds rows and moves rows to later states, so does `trigger`: whatever
  -- refs are pushed, and however its calls fail, no row is lost, what a run was created with stays,
  -- and a run that has an outcome keeps it.
  pub trigger-Extends :
      (is_dir : Directory → Bool) (base_dir : Directory) (db_path : String) (ws : List RefWorld)
      (event : PushEvent)
      → All Grows ws
      → (db : Db) → Extends db.runs (trigger text stored is_dir base_dir db_path ws event db).runs
  unfolding trigger
  trigger-Extends is_dir base_dir db_path ws event g db = trigger_at-Extends db_path ws event _ g db

  -- When `run_ref_inner` succeeds at a commit that has a `.quire/ci.fnl`, and the subprocess only
  -- adds rows and moves rows to later states: every row of the new run's id has a time of resolution
  -- and an outcome; the row that was inserted, last of all then, is there in a later state; and before
  -- it, no run of the repository and the ref was left pending, and no row was lost.
  pub run_ref_inner-IsSettled :
      (runs : Runs) (at : ℕ) (w : RefWorld) (r : PushRef) (db db' : Db)
      → w.ci_source ≡ source
      → Grows w
      → run_ref_inner text stored runs at w r db ≡ (ok tt, db')
      → IsSettled w.create_world.id db'.runs
        × ((rows : List RunRow) × Extends
              (rows ++ new_row runs w.create_world (meta_of text stored at r) (some w.session) ∷ [])
              db'.runs
            × NonePending runs.repo (text r.ref_name) rows
            × Extends db.runs rows)
  unfolding run_ref_inner run_by_source start_run
  run_ref_inner-IsSettled runs at w r db db' e g h =
      started runs w (meta_of text stored at r) db db' g (rw e at h)

  -- When a commit has a `.quire/ci.fnl`, its run is created, and its workspace cannot be
  -- materialized, the error ends `run_ref_inner` there: the database is the one that `create` left, in
  -- which the last row is the new run, still with no time of dispatch, of resolution and no outcome.
  pub run_ref_inner-unresolved :
      (runs : Runs) (at : ℕ) (w : RefWorld) (r : PushRef) (db db1 : Db) (run : Run)
      → w.ci_source ≡ source
      → w.materializes ≡ false
      → create runs w.create_world (meta_of text stored at r) (some w.session) db ≡ (ok run, db1)
      → (run_ref_inner text stored runs at w r db ≡ (err workspace_materialization_failed, db1))
        × ((rows : List RunRow) × (row : RunRow) × (db1.runs ≡ rows ++ row ∷ [])
            × (row.id ≡ w.create_world.id)
            × (row.dispatched_at ≡ none)
            × (row.resolved_at ≡ none)
            × (row.outcome ≡ none))
  unfolding run_ref_inner run_by_source start_run
  run_ref_inner-unresolved runs at w r db db1 run e m h =
      let (rows, last, _, _, _) =
        create_supersedes runs w.create_world (meta_of text stored at r) (some w.session) db db1 run
          h in
      (
        simp e (stopped runs w (meta_of text stored at r) db db1 run m h),
        (
          rows,
          new_row runs w.create_world (meta_of text stored at r) (some w.session),
          last,
          refl,
          refl,
          refl,
          refl,
        ),
      )
