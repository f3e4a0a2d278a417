-- ===== src/Database/History.antt =====
-- Later states of rows and of tables, and how each statement relates a table to its later state.
use quire.Prelude.{
  ℕ, String, ◌≡◌, Bool, true, false, List, [], ◌∷◌, ◌++◌, arith, is_some, if◌then◌else◌, any,
}
use quire.Database.{RunRow, JobRow, ShRow, Db, Result, check_run}
use quire.Database.Statement.{
  Statement, supersede_active, supersede_queued, insert_run, orphan, mark_dispatched, mark_resolved,
  set_traceparent, mark_bootstrapped, insert_job, insert_sh, exec, set_where, checks_where, add_run,
  add_job, add_sh, resolved_row, superseded_row, has_id, update_runs,
}

-- `s` is a later state of the row `r`.
pub record RowExtends (r s : RunRow) : Type 0 where
  pub id : s.id ≡ r.id
  pub repo : s.repo ≡ r.repo
  pub ref_name : s.ref_name ≡ r.ref_name
  pub sha : s.sha ≡ r.sha
  pub pushed_at_ms : s.pushed_at_ms ≡ r.pushed_at_ms
  pub created_at : s.created_at ≡ r.created_at
  pub run_token : s.run_token ≡ r.run_token
  pub dispatched : is_some r.dispatched_at ≡ true → is_some s.dispatched_at ≡ true
  pub resolved : is_some r.resolved_at ≡ true → s.resolved_at ≡ r.resolved_at
  pub outcome : is_some r.outcome ≡ true → s.outcome ≡ r.outcome

-- The rows of a table at a later time; new rows stand at its end.
abbrev pub Extends : List RunRow → List RunRow → Type 0
Extends [] ss = Unit
Extends (r ∷ rs) [] = ⊥
Extends (r ∷ rs) (s ∷ ss) = RowExtends r s × Extends rs ss

pub RowExtends-refl : (r : RunRow) → RowExtends r r
RowExtends-refl r = ground arith

RowExtends-trans : (r s t : RunRow) → RowExtends r s → RowExtends s t → RowExtends r t
RowExtends-trans r s t h k = ground arith

pub Extends-refl : (rs : List RunRow) → Extends rs rs
Extends-refl [] = tt
Extends-refl (r ∷ rs) = (RowExtends-refl r, Extends-refl rs)

pub Extends-trans : (rs ss ts : List RunRow) → Extends rs ss → Extends ss ts → Extends rs ts
Extends-trans [] ss ts h k = tt
Extends-trans (r ∷ rs) (s ∷ ss) (t ∷ ts) h k =
    (RowExtends-trans r s t h.0 k.0, Extends-trans rs ss ts h.1 k.1)
Extends-trans (r ∷ rs) (s ∷ ss) [] h k = elim k [ ]
Extends-trans (r ∷ rs) [] ts h k = elim h [ ]

Extends-append : (rs ss : List RunRow) → Extends rs (rs ++ ss)
Extends-append [] ss = tt
Extends-append (r ∷ rs) ss = (RowExtends-refl r, Extends-append rs ss)

Extends-set_where :
    (p : RunRow → Bool) (f : RunRow → RunRow) (grows : (r : RunRow) → RowExtends r (f r))
    (rs : List RunRow)
    → Extends rs (set_where p f rs)
unfolding set_where
Extends-set_where p f grows [] = tt
Extends-set_where p f grows (r ∷ rs) = (one (p r), Extends-set_where p f grows rs)
  where
    one : (b : Bool) → RowExtends r (if b then f r else r)
    one true = grows r
    one false = RowExtends-refl r

-- Both branches of a test extend the table.
if-Extends :
    (rs : List RunRow) (b : Bool) (x y : Result (Unit {0}) × Db)
    → Extends rs x.1.runs
    → Extends rs y.1.runs
    → Extends rs (if b then x else y).1.runs
if-Extends rs true x y h k = h
if-Extends rs false x y h k = k

Extends-update_runs :
    (p : RunRow → Bool) (f : RunRow → RunRow) (grows : (r : RunRow) → RowExtends r (f r)) (db : Db)
    → Extends db.runs (update_runs p f db).1.runs
unfolding update_runs
Extends-update_runs p f grows db =
    if-Extends db.runs (checks_where p f db.runs) _ _ (Extends-set_where p f grows db.runs)
      (Extends-refl db.runs)

pub resolved_row-extends : (now : ℕ) (o : String) (r : RunRow) → RowExtends r (resolved_row now o r)
resolved_row-extends now o r = ground arith

pub superseded_row-extends : (now : ℕ) (r : RunRow) → RowExtends r (superseded_row now r)
superseded_row-extends now r = ground arith

Extends-add_run : (row : RunRow) (db : Db) → Extends db.runs (add_run row db).1.runs
unfolding add_run
Extends-add_run row db =
    if-Extends db.runs (any (has_id row.id) db.runs) _ _ (Extends-refl db.runs) (
      if-Extends db.runs (check_run row) _ _ (Extends-append db.runs (row ∷ []))
        (Extends-refl db.runs))

pub runs-add_job : (row : JobRow) (db : Db) → (add_job row db).1.runs ≡ db.runs
unfolding add_job
runs-add_job row db = ground arith

pub runs-add_sh : (row : ShRow) (db : Db) → (add_sh row db).1.runs ≡ db.runs
unfolding add_sh
runs-add_sh row db = ground arith

pub Extends-exec : (st : Statement) (db : Db) → Extends db.runs (exec st db).1.runs
unfolding exec
Extends-exec (supersede_active now id) db = Extends-update_runs _ _ (resolved_row-extends now _) db
Extends-exec (supersede_queued now repo ref_name) db =
    Extends-update_runs _ _ (superseded_row-extends now) db
Extends-exec (insert_run row) db = Extends-add_run row db
Extends-exec (orphan now) db = Extends-update_runs _ _ (resolved_row-extends now _) db
Extends-exec (mark_dispatched now id) db = Extends-update_runs _ _ (λ r. ground arith) db
Extends-exec (mark_resolved now outcome id) db =
    Extends-update_runs _ _ (resolved_row-extends now outcome) db
Extends-exec (set_traceparent traceparent id) db = Extends-update_runs _ _ (λ r. ground arith) db
Extends-exec (mark_bootstrapped now id) db = Extends-update_runs _ _ (λ r. ground arith) db
Extends-exec (insert_job row) db = rw runs-add_job (Extends-refl db.runs)
Extends-exec (insert_sh row) db = rw runs-add_sh (Extends-refl db.runs)
