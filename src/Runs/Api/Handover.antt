-- ===== src/Runs/Api/Handover.antt =====
-- What one bootstrap request does to the database and answers.
use quire.Prelude.{
  ℕ, String, ◌≡◌, refl, ap, true, false, Option, none, some, arith, Bool-cases, inl, inr, ◌⊎◌, ◌<◌,
  is_some,
}
use quire.Database.{RunRow, Db, Result, ok, err, sql_constraint, check_run, find_run}
use quire.Database.Statement.{exec, mark_bootstrapped, update_runs}
use quire.Database.Find.{update_runs-ok, find_run-set_where, checks_where-false}
use quire.Runs.Api.{
  Reply, reply, refuse, gone, db_error, Bootstrap, payload, answer, bootstrap_row, get_bootstrap,
  then_bootstrap, bootstrap_request, verify_run_token,
}

db-answer : (b : Bootstrap) (x : Result (Unit {0}) × Db) → (answer b x).1 ≡ x.1
unfolding answer
db-answer b (ok _, db) = refl
db-answer b (err e, db) = refl

db-bootstrap_row :
    (id : String) (now : ℕ) (o : Option RunRow) (db : Db)
    → ((bootstrap_row id now o db).1 ≡ db)
      ⊎ ((bootstrap_row id now o db).1 ≡ (exec (mark_bootstrapped now id) db).1)
unfolding bootstrap_row
db-bootstrap_row id now none db = inl refl
db-bootstrap_row id now (some row) db = elim (Bool-cases (is_some row.dispatched_at)) [
  | inl e ↦ inl (rw e)
  | inr e ↦ inr (rw e (db-answer _ _))
]

-- It leaves the database alone, or runs the one statement.
pub db-get_bootstrap :
    (id : String) (now : ℕ) (db : Db)
    → ((get_bootstrap id now db).1 ≡ db)
      ⊎ ((get_bootstrap id now db).1 ≡ (exec (mark_bootstrapped now id) db).1)
unfolding get_bootstrap
db-get_bootstrap id now db = db-bootstrap_row id now (find_run id db.runs) db

db-then_bootstrap :
    (r : Reply String) (now : ℕ) (db : Db)
    → ((then_bootstrap r now db).1 ≡ db)
      ⊎ ((id : String) × ((then_bootstrap r now db).1 ≡ (get_bootstrap id now db).1))
unfolding then_bootstrap
db-then_bootstrap (reply id) now db = inr (id, refl)
db-then_bootstrap (refuse e) now db = inl refl

pub db-bootstrap_request :
    (bearer : Option String) (now : ℕ) (db : Db)
    → ((bootstrap_request bearer now db).1 ≡ db)
      ⊎ ((id : String) × ((bootstrap_request bearer now db).1 ≡ (get_bootstrap id now db).1))
unfolding bootstrap_request
db-bootstrap_request bearer now db = db-then_bootstrap (verify_run_token bearer db) now db

-- The answer at a row that was dispatched.
pub get_bootstrap-gone :
    (id : String) (now : ℕ) (db : Db) (r : RunRow)
    → find_run id db.runs ≡ some r
    → is_some r.dispatched_at ≡ true
    → get_bootstrap id now db ≡ (refuse gone, db)
unfolding get_bootstrap
get_bootstrap-gone id now db r h d = rw h (rw d)

answer-reply :
    (b c : Bootstrap) (x : Result (Unit {0}) × Db)
    → (answer b x).0 ≡ reply c
    → (x.0 ≡ ok tt) × (c ≡ b)
unfolding answer
answer-reply b c (ok tt, db) h = ground arith
answer-reply b c (err e, db) h = ground arith

abbrev dispatched_row : ℕ → RunRow → RunRow
dispatched_row now r = record r { dispatched_at = some now }

-- What a granted request found and wrote.
pub record Granted (id : String) (now : ℕ) (b : Bootstrap) (before after : Db) : Type 0 where
  pub row : RunRow
  pub found : find_run id before.runs ≡ some row
  pub undispatched : row.dispatched_at ≡ none
  pub answered : b ≡ payload id row
  pub written : find_run id after.runs ≡ some (dispatched_row now row)

is_some-false {ℓ} : {A : Type ℓ} (o : Option A) → is_some o ≡ false → o ≡ none
is_some-false none h = refl
is_some-false (some a) h = ground arith

exec-written :
    (id : String) (now : ℕ) (db : Db) (r : RunRow)
    → find_run id db.runs ≡ some r
    → (exec (mark_bootstrapped now id) db).0 ≡ ok tt
    → find_run id (exec (mark_bootstrapped now id) db).1.runs ≡ some (dispatched_row now r)
unfolding exec
exec-written id now db r f h =
    rw (update_runs-ok _ _ db h) (find_run-set_where id (dispatched_row now) db.runs r f refl)

bootstrap_row-reply :
    (id : String) (now : ℕ) (db : Db) (o : Option RunRow) (b : Bootstrap)
    → find_run id db.runs ≡ o
    → (bootstrap_row id now o db).0 ≡ reply b
    → Granted id now b db (bootstrap_row id now o db).1
unfolding bootstrap_row
bootstrap_row-reply id now db none b f h = absurd (ground arith)
bootstrap_row-reply id now db (some r) b f h = elim (Bool-cases (is_some r.dispatched_at)) [
  | inl e ↦ absurd (refused e)
  | inr e ↦ rw e (granted e (answer-reply _ b _ (rw e at h)))
]
  where
    refused : is_some r.dispatched_at ≡ true → ⊥
    refused e = let k = rw e at h in cc k

    granted :
        is_some r.dispatched_at ≡ false
        → ((exec (mark_bootstrapped now id) db).0 ≡ ok tt) × (b ≡ payload id r)
        → Granted id now b db (answer (payload id r) (exec (mark_bootstrapped now id) db)).1
    granted e (done, answered) = record {
      row = r;
      found = f;
      undispatched = is_some-false r.dispatched_at e;
      answered = answered;
      written =
          rw (db-answer (payload id r) (exec (mark_bootstrapped now id) db))
            (exec-written id now db r f done);
    }

pub get_bootstrap-Granted :
    (id : String) (now : ℕ) (db : Db) (b : Bootstrap)
    → (get_bootstrap id now db).0 ≡ reply b
    → Granted id now b db (get_bootstrap id now db).1
unfolding get_bootstrap
get_bootstrap-Granted id now db b h = bootstrap_row-reply id now db (find_run id db.runs) b refl h

-- The bootstrap request of a run that was resolved before the time of the request, while it was
-- queued, is answered with the error of the database, since the CHECK constraint on the two times
-- refuses the statement, and changes nothing.
pub get_bootstrap-late :
    (id : String) (now t : ℕ) (db : Db) (r : RunRow)
    → find_run id db.runs ≡ some r
    → r.dispatched_at ≡ none
    → r.resolved_at ≡ some t
    → t < now
    → get_bootstrap id now db ≡ (refuse (db_error sql_constraint), db)
unfolding get_bootstrap exec update_runs
get_bootstrap-late id now t db r f d s h =
    rw (f, ap (λ (o : Option ℕ). is_some o) d)
      (rw (checks_where-false id (dispatched_row now) db.runs r f late))
  where
    late : check_run (dispatched_row now r) ≡ false
    late = unfold check_run in rw s (ground arith)
