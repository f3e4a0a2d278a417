-- ===== src/Runs/Settled.antt =====
-- Rows, outcomes and bootstrap requests over any operations, however they interleave.
use quire.Prelude.{ℕ, String, ◌≡◌, ◌∙◌, true, Option, some, List, is_some, ap, refl}
use quire.Database.{RunRow, Db, find_run}
use quire.Database.Statement.{Statement, exec}
use quire.Database.Keeps.{Keeps}
use quire.Database.History.{Extends, Extends-refl, Extends-trans, Extends-exec}
use quire.Database.Find.{find_run-Extends}
use quire.Runs.History.{Op, apply_all, kept-apply_all, Permitted-All, Keeps-create}
use quire.Runs.Api.{reply, refuse, gone, Bootstrap, get_bootstrap}
use quire.Runs.Api.Handover.{get_bootstrap-Granted, get_bootstrap-gone}

pub Keeps-Extends : (rs : List RunRow) (st : Statement) → Keeps (λ db. Extends rs db.runs) (exec st)
Keeps-Extends rs st = record {
  holds = λ db h. Extends-trans rs db.runs (exec st db).1.runs h (Extends-exec st db);
}

-- After any operations, the rows of the table are there in their places, in later states, and all
-- else stands behind them: no run is lost, what a run was created with never changes, and a run
-- that has an outcome keeps it, with the time at which it was resolved.
pub apply_all-Extends : (os : List Op) (db : Db) → Extends db.runs (apply_all os db).runs
apply_all-Extends os db =
    kept-apply_all (λ d. Extends db.runs d.runs) (Unit {0}) (λ st _. Keeps-Extends db.runs st)
      (Keeps-create (λ d. Extends db.runs d.runs) (Keeps-Extends db.runs)) os db (Permitted-All os)
      (Extends-refl db.runs)

-- A run that has an outcome is found after any operations with the same outcome, the same time of
-- resolution and the commit that it was created for.
pub outcome_stands :
    (os : List Op) (db : Db) (id o : String) (r : RunRow)
    → find_run id db.runs ≡ some r
    → r.outcome ≡ some o
    → is_some r.resolved_at ≡ true
    → (s : RunRow) × (find_run id (apply_all os db).runs ≡ some s)
      × (s.outcome ≡ some o)
      × (s.resolved_at ≡ r.resolved_at)
      × (s.sha ≡ r.sha)
outcome_stands os db id o r f h t =
    let (s, found, ext) = find_run-Extends id _ _ r f (apply_all-Extends os db) in
    (s, found, ext.outcome (ap (λ (x : Option String). is_some x) h) ∙ h, ext.resolved t, ext.sha)

-- Once a bootstrap request was granted for a run, every later one is answered 410 and changes
-- nothing, whatever operations come between.
pub bootstrap_once :
    (os : List Op) (db : Db) (id : String) (now now' : ℕ) (b : Bootstrap)
    → (get_bootstrap id now db).0 ≡ reply b
    → get_bootstrap id now' (apply_all os (get_bootstrap id now db).1)
      ≡ (refuse gone, apply_all os (get_bootstrap id now db).1)
bootstrap_once os db id now now' b h =
    let g = get_bootstrap-Granted id now db b h in
    let (s, found, ext) =
      find_run-Extends id _ _ _ g.written (apply_all-Extends os (get_bootstrap id now db).1) in
    get_bootstrap-gone id now' _ s found (ext.dispatched refl)
