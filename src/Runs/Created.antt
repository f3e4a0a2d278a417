-- ===== src/Runs/Created.antt =====
-- What a successful `create` leaves.
use quire.Prelude.{◌≡◌, ◌∙◌, Bool, true, false, Option, List, [], ◌∷◌, ◌++◌, arith}
use mathlib.Core.Path.{subst}
use quire.Database.{RunRow, Db, Result, ok, fail}
use quire.Database.Keeps.{>>=-eq-ok, return-eq-ok}
use quire.Database.History.{Extends, Extends-refl}
use quire.Database.Statement.{exec, insert_run, add_run}
use quire.Runs.{
  Runs, Run, RunMeta, ApiSession, CreateWorld, create, cancel_existing, new_row, new_handle,
  create_dir_all, record_run,
}
use quire.Runs.History.{Keeps-cancel_existing}
use quire.Runs.Pending.{NonePending, cancel_existing-NonePending}
use quire.Runs.Settled.{Keeps-Extends}

runs-add_run :
    (row : RunRow) (db db' : Db) → add_run row db ≡ (ok tt, db') → db'.runs ≡ db.runs ++ row ∷ []
unfolding add_run
runs-add_run row db db' h = ground arith

runs-insert_run :
    (row : RunRow) (db db' : Db)
    → exec (insert_run row) db ≡ (ok tt, db')
    → db'.runs ≡ db.runs ++ row ∷ []
unfolding exec
runs-insert_run row db db' h = runs-add_run row db db' h

db-create_dir_all : (b : Bool) (db db' : Db) → create_dir_all b db ≡ (ok tt, db') → db ≡ db'
unfolding create_dir_all
db-create_dir_all true db db' h = (return-eq-ok tt tt db db' h).1
db-create_dir_all false db db' h = unfold fail in ground arith

pub record_run-ok :
    (runs : Runs) (w : CreateWorld) (meta : RunMeta) (session : Option ApiSession) (db db' : Db)
    (run : Run)
    → record_run runs w meta session db ≡ (ok run, db')
    → (db'.runs ≡ db.runs ++ new_row runs w meta session ∷ []) × (new_handle runs w ≡ run)
unfolding record_run
record_run-ok runs w meta session db db' run h =
    let (_, db1, inserted, rest) = >>=-eq-ok _ _ db db' run h in
    let (_, db2, made, last) = >>=-eq-ok _ _ db1 db' run rest in
    let (same_run, same_db) = return-eq-ok (new_handle runs w) run db2 db' last in
    let unchanged : db1 ≡ db' = db-create_dir_all w.mkdir db1 db2 made ∙ same_db in
    (
      subst (λ (d : Db). d.runs ≡ db.runs ++ new_row runs w meta session ∷ []) unchanged
          (runs-insert_run (new_row runs w meta session) db db1 inserted),
      same_run,
    )

-- When `create` succeeds, the new run is the last row, queued, and no other row for its repository
-- and ref is pending; the other rows are those there were, in later states.
pub create_supersedes :
    (runs : Runs) (w : CreateWorld) (meta : RunMeta) (session : Option ApiSession) (db db' : Db)
    (run : Run)
    → create runs w meta session db ≡ (ok run, db')
    → (rows : List RunRow) × (db'.runs ≡ rows ++ new_row runs w meta session ∷ [])
      × NonePending runs.repo meta.ref_name rows
      × Extends db.runs rows
      × (new_handle runs w ≡ run)
unfolding create
create_supersedes runs w meta session db db' run h =
    let (_, db1, cancelled, rest) = >>=-eq-ok _ _ db db' run h in
    let (appended, handle) = record_run-ok runs w meta session db1 db' run rest in
    let kept : Extends db.runs (cancel_existing runs w.cancel_now meta.ref_name db).1.runs =
      (Keeps-cancel_existing (λ d. Extends db.runs d.runs) (λ st _. Keeps-Extends db.runs st) runs
          w.cancel_now meta.ref_name).holds
        db (Extends-refl db.runs) in
    (
      db1.runs,
      appended,
      cancel_existing-NonePending runs w.cancel_now meta.ref_name db db1 cancelled,
      subst (λ (x : Result (Unit {0}) × Db). Extends db.runs x.1.runs) cancelled kept,
      handle,
    )
