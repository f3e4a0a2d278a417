-- ===== src/Runs/Orphans.antt =====
-- `reconcile_orphans` at the start of the server.
use quire.Prelude.{
  ℕ, ◌≡◌, ◌≤◌, refl, true, Option, none, some, List, [], ◌∷◌, arith, All, is_some, is_none, ◌&&◌,
  if◌then◌else◌,
}
use quire.Database.{RunRow, Db, ok, check_run, known_outcome, null_or_ge, null_or_ordered}
use quire.Database.Statement.{exec, update_runs, resolved_row, set_where, checks_where, coalesce}
use quire.Runs.{reconcile_orphans}

abbrev pub ValidRows : List RunRow → Type 0
ValidRows = All (λ r. check_run r ≡ true)

abbrev pub IsPast : ℕ → Option ℕ → Type 0
IsPast now none = Unit
IsPast now (some t) = t ≤ now

-- The clock has not gone back behind the times in the table.
abbrev pub AllPast : ℕ → List RunRow → Type 0
AllPast now = All (λ r. (r.created_at ≤ now) × IsPast now r.dispatched_at)

-- What becomes of one row.
pub record Reconciled (now : ℕ) (r s : RunRow) : Type 0 where
  pub resolved : is_some r.resolved_at ≡ true → s ≡ r
  pub orphaned : r.resolved_at ≡ none → s.outcome ≡ some "failed-orphaned"
  pub at_now : r.resolved_at ≡ none → s.resolved_at ≡ some now

abbrev pub AllReconciled : ℕ → List RunRow → List RunRow → Type 0
AllReconciled now [] [] = Unit
AllReconciled now (r ∷ rs) (s ∷ ss) = Reconciled now r s × AllReconciled now rs ss
AllReconciled now _ _ = ⊥

pub outcome_none : (r : RunRow) → check_run r ≡ true → r.resolved_at ≡ none → r.outcome ≡ none
unfolding check_run
outcome_none r v e = ground arith

pub times :
    (t now : ℕ) (o : Option ℕ)
    → null_or_ge o t ≡ true
    → t ≤ now
    → IsPast now o
    → (null_or_ge (coalesce o now) t
        && null_or_ge (some now) t
        && null_or_ordered (coalesce o now) (some now)
        && true
        && true)
      ≡ true
times t now none a b c = ground arith
times t now (some d) a b c = ground arith

check_orphan :
    (now : ℕ) (r : RunRow)
    → check_run r ≡ true
    → r.created_at ≤ now
    → IsPast now r.dispatched_at
    → r.resolved_at ≡ none
    → check_run (resolved_row now "failed-orphaned" r) ≡ true
unfolding check_run known_outcome
check_orphan now r v c d e =
    rw (e, outcome_none r v e) (times r.created_at now r.dispatched_at (ground arith) c d)

Reconciled-row :
    (now : ℕ) (r : RunRow)
    → check_run r ≡ true
    → Reconciled now r (if is_none r.resolved_at then resolved_row now "failed-orphaned" r else r)
Reconciled-row now r v = ground (arith, outcome_none r v)

checks_orphans :
    (now : ℕ) (rs : List RunRow)
    → ValidRows rs
    → AllPast now rs
    → checks_where (λ r. is_none r.resolved_at) (resolved_row now "failed-orphaned") rs ≡ true
unfolding checks_where
checks_orphans now [] v p = refl
checks_orphans now (r ∷ rs) v p =
    ground (arith, checks_orphans now rs v.1 p.1, check_orphan now r v.0 p.0.0 p.0.1)

AllReconciled-set_where :
    (now : ℕ) (rs : List RunRow)
    → ValidRows rs
    → AllReconciled now rs
        (set_where (λ r. is_none r.resolved_at) (resolved_row now "failed-orphaned") rs)
unfolding set_where
AllReconciled-set_where now [] v = tt
AllReconciled-set_where now (r ∷ rs) v =
    (Reconciled-row now r v.0, AllReconciled-set_where now rs v.1)

-- On rows that meet the table's constraints, with a clock that is not behind their times,
-- `reconcile_orphans` succeeds: resolved runs stay as they are, and every other run becomes
-- `failed-orphaned`, resolved now.
pub reconcile_orphans_total :
    (now : ℕ) (db : Db)
    → ValidRows db.runs
    → AllPast now db.runs
    → ((reconcile_orphans now db).0 ≡ ok tt)
      × AllReconciled now db.runs (reconcile_orphans now db).1.runs
unfolding reconcile_orphans exec update_runs
reconcile_orphans_total now db v p =
    rw (checks_orphans now db.runs v p) (refl, AllReconciled-set_where now db.runs v)
