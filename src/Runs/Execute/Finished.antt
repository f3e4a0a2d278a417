-- ===== src/Runs/Execute/Finished.antt =====
-- How `execute` ends.
use quire.Prelude.{
  ℕ, String, ◌≡◌, sym, ap, true, false, Option, none, some, List, [], ◌∷◌, arith, All, Bool-cases,
  inl, inr, is_some, ◌==◌, string_eq, if◌then◌else◌, ◌||◌,
}
use quire.Prelude.Int.{ℤ}
use mathlib.Core.Path.{subst}
use quire.Database.{
  RunRow, Db, Error, already_dispatched, already_resolved, process_failed, ok, ◌>>◌, return, fail,
}
use quire.Database.Keeps.{>>=-eq-ok, return-eq-ok}
use quire.Database.Find.{runs-update_runs}
use quire.Database.Statement.{exec, mark_resolved, mark_dispatched, resolved_row, set_where, has_id}
use quire.Events.{RunOutcome, run_succeeded, pipeline_failure}
use quire.Runs.{Run, ApiSession, resolve, dispatch}
use quire.Runs.Execute.{Child, ExecuteWorld, enter, spawn, conclude, conclude_by, execute}

-- Every row of the id has a time of resolution and an outcome.
abbrev pub IsSettled : String → List RunRow → Type 0
IsSettled id =
    All (λ r. (r.id == id) ≡ true → (is_some r.resolved_at ≡ true) × (is_some r.outcome ≡ true))

pub IsSettled-set_where :
    (now : ℕ) (o id : String) (rs : List RunRow)
    → IsSettled id (set_where (has_id id) (resolved_row now o) rs)
unfolding set_where
IsSettled-set_where now o id [] = tt
IsSettled-set_where now o id (r ∷ rs) = (one, IsSettled-set_where now o id rs)
  where
    one :
        let s = if has_id id r then resolved_row now o r else r in
        (s.id == id) ≡ true → (is_some s.resolved_at ≡ true) × (is_some s.outcome ≡ true)
    one = elim (Bool-cases (r.id == id)) [
      | inl e ↦ rw e (λ _. (ground arith, ground arith))
      | inr e ↦ rw e (λ k. absurd (unsame e k))
    ]
      where
        unsame : (r.id == id) ≡ false → (r.id == id) ≡ true → ⊥
        unsame e k = cc

fail-ne-ok : {A : Type 0} {a : A} (e : Error) (db db' : Db) → fail e db ≡ (ok a, db') → ⊥
unfolding fail
fail-ne-ok e db db' h = ground arith

runs-mark_resolved :
    (now : ℕ) (o id : String) (db db' : Db)
    → exec (mark_resolved now o id) db ≡ (ok tt, db')
    → db'.runs ≡ set_where (has_id id) (resolved_row now o) db.runs
unfolding exec
runs-mark_resolved now o id db db' h = runs-update_runs _ _ db db' h

-- A successful `resolve` settles its run.
pub resolve-IsSettled :
    (run run' : Run) (now : ℕ) (o : String) (db db' : Db)
    → resolve run now o db ≡ (ok run', db')
    → IsSettled run.id db'.runs
unfolding resolve
resolve-IsSettled run run' now o db db' h = elim (Bool-cases run.resolved) [
  | inl e ↦ absurd (refused e)
  | inr e ↦ settled (rw e at h)
]
  where
    refused : run.resolved ≡ true → ⊥
    refused e = fail-ne-ok already_resolved db db' (rw e at h)

    settled :
        (exec (mark_resolved now o run.id)
              >> return (record run { dispatched = true; resolved = true }))
            db
          ≡ (ok run', db')
        → IsSettled run.id db'.runs
    settled k =
        let (_, db1, marked, last) = >>=-eq-ok _ _ db db' run' k in
        let same = (return-eq-ok _ run' db1 db' last).1 in
        subst (λ (d : Db). IsSettled run.id d.runs) same
          (subst (IsSettled run.id) (sym (runs-mark_resolved now o run.id db db1 marked))
            (IsSettled-set_where now o run.id db.runs))

resolve-then :
    (run : Run) (now : ℕ) (o : String) (db db' : Db)
    → (resolve run now o >> return tt) db ≡ (ok tt, db')
    → IsSettled run.id db'.runs
resolve-then run now o db db' h =
    let (run', db1, resolved, last) = >>=-eq-ok _ _ db db' tt h in
    subst (λ (d : Db). IsSettled run.id d.runs) (return-eq-ok tt tt db1 db' last).1
      (resolve-IsSettled run run' now o db db1 resolved)

never_ok :
    (run : Run) (now : ℕ) (o : String) (code : Option ℤ) (db db' : Db)
    → (resolve run now o >> fail (process_failed code)) db ≡ (ok tt, db')
    → ⊥
never_ok run now o code db db' h =
    let (run', db1, resolved, last) = >>=-eq-ok _ _ db db' tt h in
    fail-ne-ok (process_failed code) db1 db' last

conclude-IsSettled :
    (run : Run) (now : ℕ) (child : Child) (outcome : Option RunOutcome) (db db' : Db)
    → conclude run now child outcome db ≡ (ok tt, db')
    → (child.success ≡ true) × IsSettled run.id db'.runs
unfolding conclude
conclude-IsSettled run now child outcome db db' h = elim (Bool-cases child.success) [
  | inl e ↦ (e, by outcome (rw e at h))
  | inr e ↦ absurd (never_ok run now "failed-internal" child.code db db' (rw e at h))
]
  where
    by :
        (o : Option RunOutcome)
        → conclude_by run now child.code o db ≡ (ok tt, db')
        → IsSettled run.id db'.runs
    by (some run_succeeded) k = resolve-then run now "succeeded" db db' k
    by (some pipeline_failure) k = resolve-then run now "failed-pipeline" db db' k
    by none k = absurd (never_ok run now "failed-internal" child.code db db' k)

id-dispatch :
    (run run' : Run) (now : ℕ) (db db' : Db)
    → dispatch run now db ≡ (ok run', db')
    → run'.id ≡ run.id
unfolding dispatch
id-dispatch run run' now db db' h = elim (Bool-cases (run.dispatched || run.resolved)) [
  | inl e ↦ absurd (fail-ne-ok already_dispatched db db' (rw e at h))
  | inr e ↦ marked (rw e at h)
]
  where
    marked :
        (exec (mark_dispatched now run.id) >> return (record run { dispatched = true })) db
          ≡ (ok run', db')
        → run'.id ≡ run.id
    marked k =
        let (_, db1, done, last) = >>=-eq-ok _ _ db db' run' k in
        sym (ap (λ (r : Run). r.id) (return-eq-ok _ run' db1 db' last).0)

spawn-child :
    (o : Option Child) (child : Child) (db db' : Db) → spawn o db ≡ (ok child, db') → o ≡ some child
unfolding spawn
spawn-child none child db db' h = ground arith
spawn-child (some c) child db db' h = ground arith

id-enter :
    (run run' : Run) (w : ExecuteWorld) (session : Option ApiSession) (db db' : Db)
    → enter run w session db ≡ (ok run', db')
    → run'.id ≡ run.id
unfolding enter
id-enter run run' w (some s) db db' h =
    sym (ap (λ (r : Run). r.id) (return-eq-ok _ run' db db' h).0)
id-enter run run' w none db db' h = id-dispatch run run' w.dispatch_now db db' h

-- If `execute` succeeds, the subprocess ran and exited with success, and every row of the run's id
-- has a time of resolution and an outcome.
pub execute-IsSettled :
    (run : Run) (w : ExecuteWorld) (traceparent : Option String) (session : Option ApiSession)
    (db db' : Db)
    → execute run w traceparent session db ≡ (ok tt, db')
    → (child : Child) × (w.child ≡ some child) × (child.success ≡ true) × IsSettled run.id db'.runs
unfolding execute
execute-IsSettled run w traceparent session db db' h =
    let (run', db1, entered, rest1) = >>=-eq-ok _ _ db db' tt h in
    let (_, db2, opened, rest2) = >>=-eq-ok _ _ db1 db' tt rest1 in
    let (_, db3, stored, rest3) = >>=-eq-ok _ _ db2 db' tt rest2 in
    let (child, db4, spawned, rest4) = >>=-eq-ok _ _ db3 db' tt rest3 in
    let (outcome, db5, ingested, rest5) = >>=-eq-ok _ _ db4 db' tt rest4 in
    let (success, settled) = conclude-IsSettled run' w.resolve_now child outcome db5 db' rest5 in
    (
      child,
      spawn-child w.child child db3 db4 spawned,
      success,
      subst (λ (id : String). IsSettled id db'.runs) (id-enter run run' w session db db1 entered)
          settled,
    )
