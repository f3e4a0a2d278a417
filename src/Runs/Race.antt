-- ===== src/Runs/Race.antt =====
-- Two calls of `create` for one repository and ref whose statements interleave.
use quire.Prelude.{◌≡◌, refl, sym, none, String, Option, List, [], ◌∷◌, ◌++◌, append_assoc, ◌∙◌, ap}
use quire.Database.{RunRow, Db, ok}
use quire.Runs.{Runs, Run, RunMeta, ApiSession, CreateWorld, cancel_existing, record_run, new_row}
use quire.Runs.Created.{record_run-ok}

-- A row of the repository and the ref that waits or runs.
abbrev pub IsPending : String → String → RunRow → Type 0
IsPending repo ref_name r =
    (r.repo ≡ repo) × (r.ref_name ≡ ref_name) × (r.resolved_at ≡ none) × (r.outcome ≡ none)

-- If two calls of `create` for one repository and ref have both superseded what was pending before
-- either inserts its row, and both succeed, then the last two rows of the table are those of the two
-- new runs, both for the repository and the ref, and both pending.
pub interleaved_creates :
    (runs : Runs) (w v : CreateWorld) (m n : RunMeta) (s t : Option ApiSession)
    (db db1 db2 db3 db4 : Db) (run run' : Run)
    → m.ref_name ≡ n.ref_name
    → cancel_existing runs w.cancel_now m.ref_name db ≡ (ok tt, db1)
    → cancel_existing runs v.cancel_now n.ref_name db1 ≡ (ok tt, db2)
    → record_run runs w m s db2 ≡ (ok run, db3)
    → record_run runs v n t db3 ≡ (ok run', db4)
    → (db4.runs ≡ db2.runs ++ new_row runs w m s ∷ new_row runs v n t ∷ [])
      × IsPending runs.repo m.ref_name (new_row runs w m s)
      × IsPending runs.repo m.ref_name (new_row runs v n t)
interleaved_creates runs w v m n s t db db1 db2 db3 db4 run run' same c d e f = (
  (record_run-ok runs v n t db3 db4 run' f).0
      ∙ ap (λ (x : List RunRow). x ++ new_row runs v n t ∷ [])
          (record_run-ok runs w m s db2 db3 run e).0
      ∙ append_assoc db2.runs (new_row runs w m s ∷ []) (new_row runs v n t ∷ []),
  (refl, refl, refl, refl),
  (refl, sym same, refl, refl),
)
