-- ===== src/Runs/Execute/Ended.antt =====
-- That `execute` leaves no run open once its subprocess was there, whatever that did.
use quire.Prelude.{
  ℕ, String, ◌≡◌, ◌≤◌, ◌∙◌, refl, ap, sym, Bool, true, false, Option, none, some, List, [], ◌∷◌,
  arith, any, Bool-cases, Option-cases, inl, inr, is_some, string_eq, if_true, if_false, or_false,
}
use mathlib.Core.Path.{subst}
use quire.Database.{
  RunRow, Db, Action, Result, ok, err, continue, ◌>>=◌, return, fail, check_run, known_outcome,
}
use quire.Database.Statement.{
  exec, mark_resolved, update_runs, checks_where, set_where, resolved_row, has_id,
}
use quire.Prelude.Int.{ℤ}
use quire.Database.{JobRow, ShRow, process_failed}
use quire.Database.Keeps.{Keeps, >>=-ok}
use quire.Database.Statement.{insert_job, insert_sh, add_job, add_sh}
use quire.Events.{RunOutcome, run_succeeded, pipeline_failure}
use quire.Events.Ingest.{EventsFile, ingest_events}
use quire.Events.Ingest.Kept.{Keeps-ingest_events}
use quire.Runs.{ApiSession, Run, resolve}
use quire.Runs.Execute.{
  Child, ExecuteWorld, enter, store_bootstrap_data, spawn, open_log, or_none, ingest_or_none,
  conclude_by, conclude, execute,
}
use quire.Runs.Orphans.{ValidRows, IsPast, AllPast, outcome_none, times}
use quire.Runs.Execute.Finished.{IsSettled, IsSettled-set_where}

-- At most one row has the id, which is the table's primary key.
abbrev pub UniqueId : String → List RunRow → Type 0
UniqueId id [] = Unit
UniqueId id (r ∷ rs) = (has_id id r ≡ true → any (has_id id) rs ≡ false) × UniqueId id rs

check_resolved :
    (now : ℕ) (o : String) (r : RunRow)
    → known_outcome (some o) ≡ true
    → check_run r ≡ true
    → r.created_at ≤ now
    → IsPast now r.dispatched_at
    → r.resolved_at ≡ none
    → check_run (resolved_row now o r) ≡ true
unfolding check_run
check_resolved now o r k v c d e =
    rw (e, outcome_none r v e, k) (times r.created_at now r.dispatched_at (ground arith) c d)

-- No row has the id: nothing is checked or changed.
checks-absent :
    (id : String) (f : RunRow → RunRow) (rs : List RunRow)
    → any (has_id id) rs ≡ false
    → (checks_where (has_id id) f rs ≡ true) × (set_where (has_id id) f rs ≡ rs)
unfolding checks_where set_where
checks-absent id f [] h = (refl, refl)
checks-absent id f (r ∷ rs) h =
    let (other, rest) = or_false (has_id id r) _ h in
    let (a, b) = checks-absent id f rs rest in
    (
      simp (if_false (has_id id r) (check_run (f r)) true other, a),
      simp (if_false (has_id id r) (f r) r other, b),
    )

IsSettled-absent : (id : String) (rs : List RunRow) → any (has_id id) rs ≡ false → IsSettled id rs
IsSettled-absent id [] h = tt
IsSettled-absent id (r ∷ rs) h =
    let (other, rest) = or_false (has_id id r) _ h in
    (λ e. absurd (ground (arith, e, other)), IsSettled-absent id rs rest)

outcome_some :
    (r : RunRow) → check_run r ≡ true → is_some r.resolved_at ≡ true → is_some r.outcome ≡ true
unfolding check_run
outcome_some r v e = ground arith

-- What the update refuses was resolved.
refused-resolved :
    (now : ℕ) (o : String) (r : RunRow)
    → known_outcome (some o) ≡ true
    → check_run r ≡ true
    → r.created_at ≤ now
    → IsPast now r.dispatched_at
    → check_run (resolved_row now o r) ≡ false
    → is_some r.resolved_at ≡ true
refused-resolved now o r k v c d e = elim (Option-cases r.resolved_at) [
  | inl pending ↦ absurd (ground (arith, check_resolved now o r k v c d pending, e))
  | inr (t, done) ↦ ap is_some done
]

-- An update that is refused finds its run settled.
refused-IsSettled :
    (now : ℕ) (o id : String) (rs : List RunRow)
    → known_outcome (some o) ≡ true
    → ValidRows rs
    → AllPast now rs
    → UniqueId id rs
    → checks_where (has_id id) (resolved_row now o) rs ≡ false
    → IsSettled id rs
unfolding checks_where
refused-IsSettled now o id [] k v p u e = tt
refused-IsSettled now o id (r ∷ rs) k v p u e = elim (Bool-cases (has_id id r)) [
  | inl here ↦ (λ _. settled (refusal here), IsSettled-absent id rs (u.0 here))
  | inr other ↦ (
    λ same. absurd (ground (arith, same, other)),
    refused-IsSettled now o id rs k v.1 p.1 u.1
        (ground (arith, e, if_false (has_id id r) (check_run (resolved_row now o r)) true other)),
  )
]
  where
    settled :
        is_some r.resolved_at ≡ true → (is_some r.resolved_at ≡ true) × (is_some r.outcome ≡ true)
    settled h = (h, outcome_some r v.0 h)

    refusal : has_id id r ≡ true → is_some r.resolved_at ≡ true
    refusal here = refused-resolved now o r k v.0 p.0.0 p.0.1 (
        ground (
          arith,
          e,
          if_true (has_id id r) (check_run (resolved_row now o r)) true here,
          (checks-absent id (resolved_row now o) rs (u.0 here)).0,
        ))

-- A clock that is not behind the rows, which meet the table's constraints.
pub record IsSound (now : ℕ) (id : String) (rs : List RunRow) : Type 0 where
  pub valid : ValidRows rs
  pub past : AllPast now rs
  pub unique : UniqueId id rs

update_runs-IsSettled :
    (now : ℕ) (o id : String) (db : Db)
    → known_outcome (some o) ≡ true
    → IsSound now id db.runs
    → IsSettled id (update_runs (has_id id) (resolved_row now o) db).1.runs
unfolding update_runs
update_runs-IsSettled now o id db k h =
    elim (Bool-cases (checks_where (has_id id) (resolved_row now o) db.runs)) [
      | inl passes ↦ rw passes (IsSettled-set_where now o id db.runs)
      | inr refused ↦
          rw refused (refused-IsSettled now o id db.runs k h.valid h.past h.unique refused)
    ]

-- What stands behind an action only adds to it.
db-then :
    {A B : Type 0} (m : Action A) (r : A → Result B) (db : Db)
    → ((m >>= (λ a d. (r a, d))) db).1 ≡ (m db).1
unfolding ◌>>=◌
db-then {A} {B} m r db = go (m db).0
  where
    go : (x : Result A) → (continue x (λ a d. (r a, d)) (m db).1).1 ≡ (m db).1
    go (ok a) = refl
    go (err e) = refl

resolve-db :
    (run : Run) (now : ℕ) (o : String) (db : Db)
    → run.resolved ≡ false
    → (resolve run now o db).1 ≡ (update_runs (has_id run.id) (resolved_row now o) db).1
unfolding resolve return exec
resolve-db run now o db h =
    ap (λ (x : Result Run × Db). x.1) (ap (λ (m : Action Run). m db) (if_false run.resolved _ _ h))
    ∙ db-then (exec (mark_resolved now o run.id))
        (λ _. ok (record run { dispatched = true; resolved = true })) db

resolve-settles :
    (run : Run) (now : ℕ) (o : String) (db : Db)
    → run.resolved ≡ false
    → known_outcome (some o) ≡ true
    → IsSound now run.id db.runs
    → IsSettled run.id (resolve run now o db).1.runs
resolve-settles run now o db h k s =
    subst (λ (d : Db). IsSettled run.id d.runs) (sym (resolve-db run now o db h))
      (update_runs-IsSettled now o run.id db k s)

conclude_by-settles :
    (run : Run) (now : ℕ) (code : Option ℤ) (o : Option RunOutcome) (db : Db)
    → run.resolved ≡ false
    → IsSound now run.id db.runs
    → IsSettled run.id (conclude_by run now code o db).1.runs
unfolding conclude_by return fail known_outcome
conclude_by-settles run now code (some run_succeeded) db h s =
    subst (λ (d : Db). IsSettled run.id d.runs)
      (sym (db-then (resolve run now "succeeded") (λ _. ok tt) db))
      (resolve-settles run now "succeeded" db h refl s)
conclude_by-settles run now code (some pipeline_failure) db h s =
    subst (λ (d : Db). IsSettled run.id d.runs)
      (sym (db-then (resolve run now "failed-pipeline") (λ _. ok tt) db))
      (resolve-settles run now "failed-pipeline" db h refl s)
conclude_by-settles run now code none db h s =
    subst (λ (d : Db). IsSettled run.id d.runs)
      (sym (
        db-then {B = Unit {0}} (resolve run now "failed-internal") (λ _. err (process_failed code))
          db))
      (resolve-settles run now "failed-internal" db h refl s)

conclude-settles :
    (run : Run) (now : ℕ) (child : Child) (o : Option RunOutcome) (db : Db)
    → run.resolved ≡ false
    → IsSound now run.id db.runs
    → IsSettled run.id (conclude run now child o db).1.runs
unfolding conclude conclude_by
conclude-settles run now child o db h s = elim (Bool-cases child.success) [
  | inl e ↦ rw e (conclude_by-settles run now child.code o db h s)
  | inr e ↦ rw e (conclude_by-settles run now child.code none db h s)
]

-- The ingestion changes no run.
Keeps-add_job : (rs : List RunRow) (row : JobRow) → Keeps (λ d. d.runs ≡ rs) (exec (insert_job row))
unfolding exec add_job
Keeps-add_job rs row = record { holds = λ db h. ground (arith, h) }

Keeps-add_sh : (rs : List RunRow) (row : ShRow) → Keeps (λ d. d.runs ≡ rs) (exec (insert_sh row))
unfolding exec add_sh
Keeps-add_sh rs row = record { holds = λ db h. ground (arith, h) }

runs-ingest_or_none :
    (id : String) (f : EventsFile) (db : Db) → (ingest_or_none id f db).1.runs ≡ db.runs
unfolding ingest_or_none or_none
runs-ingest_or_none id f db =
    db-or_none (ingest_events id f db)
    ∙ (Keeps-ingest_events (λ d. d.runs ≡ db.runs) (Keeps-add_job db.runs) (Keeps-add_sh db.runs) id
          f).holds
        db refl
  where
    db-or_none : (r : Result (Option RunOutcome) × Db) → (or_none r).1.runs ≡ r.1.runs
    db-or_none (ok o, d) = refl
    db-or_none (err e, d) = refl

-- The ingestion never fails `execute`.
ok-ingest_or_none :
    (id : String) (f : EventsFile) (db : Db)
    → (o : Option RunOutcome) × ((ingest_or_none id f db).0 ≡ ok o)
unfolding ingest_or_none or_none
ok-ingest_or_none id f db = go (ingest_events id f db)
  where
    go : (r : Result (Option RunOutcome) × Db) → (o : Option RunOutcome) × ((or_none r).0 ≡ ok o)
    go (ok o, d) = (o, refl)
    go (err e, d) = (none, refl)

-- The database as the subprocess finds it: the run has its traceparent.
abbrev pub stored : Option String → String → Db → Db
stored traceparent id db = record db {
  runs = set_where (has_id id) (λ (r : RunRow). record r { traceparent = traceparent }) db.runs;
}

checks-traceparent :
    (t : Option String) (id : String) (rs : List RunRow)
    → ValidRows rs
    → checks_where (has_id id) (λ (r : RunRow). record r { traceparent = t }) rs ≡ true
unfolding checks_where check_run
checks-traceparent t id [] v = refl
checks-traceparent t id (r ∷ rs) v = ground (arith, v.0, checks-traceparent t id rs v.1)

store-ok :
    (run : Run) (s : ApiSession) (t : Option String) (db : Db)
    → ValidRows db.runs
    → store_bootstrap_data run (some s) t db ≡ (ok tt, stored t run.id db)
unfolding store_bootstrap_data exec update_runs
store-ok run s t db v = if_true _ _ _ (checks-traceparent t run.id db.runs v)

open_log-ok : (b : Bool) (db : Db) → b ≡ true → open_log b db ≡ (ok tt, db)
unfolding open_log return
open_log-ok true db h = refl
open_log-ok false db h = absurd (ground (arith, h))

spawn-ok :
    (o : Option Child) (child : Child) (db : Db)
    → o ≡ some child
    → spawn o db ≡ (ok child, child.work db)
unfolding spawn
spawn-ok o child db h = rw h refl

-- Once the subprocess of an open run with a session is spawned, `execute` leaves every row of the
-- run's id with a time of resolution and an outcome, however the subprocess exits, whatever events
-- file it leaves, readable or not, and also if the run was superseded meanwhile. The condition is
-- that ids are unique and rows meet the table's constraints, before the call and behind the
-- subprocess, and that the clock is then not behind the rows' times.
pub execute-settles :
    (run : Run) (w : ExecuteWorld) (t : Option String) (s : ApiSession) (child : Child) (db : Db)
    → run.resolved ≡ false
    → w.log_opens ≡ true
    → w.child ≡ some child
    → ValidRows db.runs
    → IsSound w.resolve_now run.id (child.work (stored t run.id db)).runs
    → IsSettled run.id (execute run w t (some s) db).1.runs
unfolding execute enter
execute-settles run w t s child db fresh opens spawned valid sound =
    let run' = record run { dispatched = true } in
    let db4 = child.work (stored t run.id db) in
    let (o, read) = ok-ingest_or_none run.id child.events db4 in
    let db5 = (ingest_or_none run.id child.events db4).1 in
    let ran =
      >>=-ok (return run') _ db db run' (unfold return in refl)
      ∙ >>=-ok _ _ db db tt (open_log-ok w.log_opens db opens)
      ∙ >>=-ok _ _ db (stored t run.id db) tt (store-ok run' s t db valid)
      ∙ >>=-ok _ _ (stored t run.id db) db4 child (spawn-ok w.child child _ spawned)
      ∙ >>=-ok _ _ db4 db5 o (ap (λ (x : Result (Option RunOutcome)). (x, db5)) read) in
    subst (λ (x : Result (Unit {0}) × Db). IsSettled run.id x.1.runs) (sym ran)
      (conclude-settles run' w.resolve_now child o db5 fresh (
        subst (IsSound w.resolve_now run.id) (sym (runs-ingest_or_none run.id child.events db4))
          sound))
