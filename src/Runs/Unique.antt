-- ===== src/Runs/Unique.antt =====
-- How many pending runs a repository and a ref have, over the operations of the server, each run
-- to its end before the next.
use quire.Prelude.{
  ◌≡◌, sym, ◌∙◌, refl, Bool, true, false, Option, List, [], ◌∷◌, ◌++◌, is_none, arith, inl, inr,
  ◌⊎◌, eq_iff, ◌&&◌, any, All, All-append, Bool-cases, if◌then◌else◌,
}
use mathlib.Core.Path.{subst}
use quire.Database.{
  RunRow, Db, Action, Result, ok, err, check_run, continue, ◌>>=◌, ◌>>◌, return, fail,
}
use quire.Database.Keeps.{Keeps}
use quire.Database.History.{
  RowExtends, RowExtends-refl, resolved_row-extends, superseded_row-extends, runs-add_job,
  runs-add_sh,
}
use quire.Database.Statement.{
  Statement, exec, supersede_active, supersede_queued, insert_run, orphan, mark_dispatched,
  mark_resolved, mark_bootstrapped, set_traceparent, insert_job, insert_sh, update_runs, set_where,
  checks_where, add_run, is_for, has_id,
}
use quire.Runs.{
  Runs, RunMeta, ApiSession, CreateWorld, create, cancel_existing, new_row, new_handle,
  create_dir_all, record_run,
}
use quire.Runs.History.{
  Op, apply_all, kept-apply_all, Permitted, inserts_run, Keeps-cancel_existing,
}
use quire.Runs.Pending.{NonePending, is_pending_for, cancel_existing-NonePending}

-- Two pending runs for the same repository and ref.
abbrev pub are_rivals : RunRow → RunRow → Bool
are_rivals r s = is_for r.repo r.ref_name s && is_none r.resolved_at && is_none s.resolved_at

abbrev pub PendingUnique : List RunRow → Type 0
PendingUnique [] = Unit
PendingUnique (r ∷ rs) = All (λ s. are_rivals r s ≡ false) rs × PendingUnique rs

are_rivals-RowExtends :
    (r r' s s' : RunRow)
    → RowExtends r r'
    → RowExtends s s'
    → are_rivals r s ≡ false
    → are_rivals r' s' ≡ false
are_rivals-RowExtends r r' s s' h k e = ground arith

module _ (p : RunRow → Bool) (f : RunRow → RunRow) (grows : (r : RunRow) → RowExtends r (f r)) where
  changed : RunRow → RunRow
  changed r = if p r then f r else r

  RowExtends-changed : (r : RunRow) → RowExtends r (changed r)
  unfolding changed
  RowExtends-changed r = elim (Bool-cases (p r)) [
    | inl e ↦ rw e (grows r)
    | inr e ↦ rw e (RowExtends-refl r)
  ]

  no_rivals-set_where :
      (r : RunRow) (rs : List RunRow)
      → All (λ s. are_rivals r s ≡ false) rs
      → All (λ s. are_rivals (changed r) s ≡ false) (set_where p f rs)
  unfolding set_where changed
  no_rivals-set_where r [] h = tt
  no_rivals-set_where r (s ∷ rs) h = (
    are_rivals-RowExtends r _ s _ (RowExtends-changed r) (RowExtends-changed s) h.0,
    no_rivals-set_where r rs h.1,
  )

  PendingUnique-set_where : (rs : List RunRow) → PendingUnique rs → PendingUnique (set_where p f rs)
  unfolding set_where changed
  PendingUnique-set_where [] h = tt
  PendingUnique-set_where (r ∷ rs) h =
      (no_rivals-set_where r rs h.0, PendingUnique-set_where rs h.1)

  PendingUnique-update_runs : Keeps (λ db. PendingUnique db.runs) (update_runs p f)
  unfolding update_runs
  PendingUnique-update_runs = record {
    holds = λ db h. elim (Bool-cases (checks_where p f db.runs)) [
      | inl e ↦ rw e (PendingUnique-set_where db.runs h)
      | inr e ↦ rw e h
    ];
  }

abbrev Unique : Db → Type 0
Unique db = PendingUnique db.runs

-- Every statement but the INSERT of a new run keeps it.
exec-Unique : (st : Statement) → inserts_run st ≡ false → Keeps Unique (exec st)
unfolding exec
exec-Unique (supersede_active now id) e = PendingUnique-update_runs _ _ (resolved_row-extends now _)
exec-Unique (supersede_queued now repo ref_name) e =
    PendingUnique-update_runs _ _ (superseded_row-extends now)
exec-Unique (insert_run row) e = absurd (ground arith)
exec-Unique (orphan now) e = PendingUnique-update_runs _ _ (resolved_row-extends now _)
exec-Unique (mark_dispatched now id) e = PendingUnique-update_runs _ _ (λ r. ground arith)
exec-Unique (mark_resolved now outcome id) e =
    PendingUnique-update_runs _ _ (resolved_row-extends now outcome)
exec-Unique (set_traceparent traceparent id) e = PendingUnique-update_runs _ _ (λ r. ground arith)
exec-Unique (mark_bootstrapped now id) e = PendingUnique-update_runs _ _ (λ r. ground arith)
exec-Unique (insert_job row) e = record {
  holds = λ db h. subst PendingUnique (sym (runs-add_job row db)) h;
}
exec-Unique (insert_sh row) e = record {
  holds = λ db h. subst PendingUnique (sym (runs-add_sh row db)) h;
}

not_rival :
    (r row : RunRow) → is_pending_for row.repo row.ref_name r ≡ false → are_rivals r row ≡ false
not_rival r row h = ground (
  arith,
  eq_iff r.repo row.repo,
  eq_iff row.repo r.repo,
  eq_iff r.ref_name row.ref_name,
  eq_iff row.ref_name r.ref_name,
)

PendingUnique-append :
    (row : RunRow) (rs : List RunRow)
    → NonePending row.repo row.ref_name rs
    → PendingUnique rs
    → PendingUnique (rs ++ row ∷ [])
PendingUnique-append row [] n h = (tt, tt)
PendingUnique-append row (r ∷ rs) n h =
    (All-append _ rs (row ∷ []) h.0 (not_rival r row n.0, tt), PendingUnique-append row rs n.1 h.1)

-- The insertion where no run for the new one's repository and ref is pending.
add_run-Unique :
    (row : RunRow) (db : Db)
    → NonePending row.repo row.ref_name db.runs
    → Unique db
    → Unique (add_run row db).1
unfolding add_run
add_run-Unique row db n h = elim (Bool-cases (any (has_id row.id) db.runs)) [
  | inl e ↦ rw e h
  | inr e ↦ rw e (elim (Bool-cases (check_run row)) [
    | inl c ↦ rw c (PendingUnique-append row db.runs n h)
    | inr c ↦ rw c h
  ])
]

db-create_dir_all : (b : Bool) (db : Db) → (create_dir_all b db).1 ≡ db
unfolding create_dir_all return fail
db-create_dir_all true db = refl
db-create_dir_all false db = refl

module _ {A B : Type 0} (f : A → Action B) (reads : (a : A) (db : Db) → (f a db).1 ≡ db) where
  db-continue : (r : Result A) (db : Db) → (continue r f db).1 ≡ db
  db-continue (ok a) db = reads a db
  db-continue (err e) db = refl

  db->>= : (m : Action A) (db : Db) → ((m >>= f) db).1 ≡ (m db).1
  unfolding ◌>>=◌
  db->>= m db = db-continue (m db).0 (m db).1

record_run-Unique :
    (runs : Runs) (w : CreateWorld) (meta : RunMeta) (session : Option ApiSession) (db : Db)
    → NonePending runs.repo meta.ref_name db.runs
    → Unique db
    → Unique (record_run runs w meta session db).1
unfolding record_run
record_run-Unique runs w meta session db n h =
    subst Unique (sym (db->>= _ reads (exec (insert_run (new_row runs w meta session))) db))
      (unfold exec in add_run-Unique (new_row runs w meta session) db n h)
  where
    done : (a : Unit {0}) (d : Db) → (return (new_handle runs w) d).1 ≡ d
    done a d = unfold return in refl

    reads :
        (a : Unit {0}) (d : Db) → ((create_dir_all w.mkdir >> return (new_handle runs w)) d).1 ≡ d
    reads a d = db->>= _ done (create_dir_all w.mkdir) d ∙ db-create_dir_all w.mkdir d

-- `create` keeps it on every path: superseding alone, where it stops, makes no run pending.
create-Unique :
    (runs : Runs) (w : CreateWorld) (meta : RunMeta) (session : Option ApiSession)
    → Keeps Unique (create runs w meta session)
unfolding create ◌>>=◌
create-Unique runs w meta session = record {
  holds = λ db h.
      let m = cancel_existing runs w.cancel_now meta.ref_name in
      onwards db (m db).0 (m db).1 refl
        ((Keeps-cancel_existing Unique exec-Unique runs w.cancel_now meta.ref_name).holds db h);
}
  where
    onwards :
        (db : Db) (r : Result (Unit {0})) (db1 : Db)
        → cancel_existing runs w.cancel_now meta.ref_name db ≡ (r, db1)
        → Unique db1
        → Unique (continue r (λ _. record_run runs w meta session) db1).1
    onwards db (ok _) db1 e h =
        record_run-Unique runs w meta session db1
          (cancel_existing-NonePending runs w.cancel_now meta.ref_name db db1 e) h
    onwards db (err x) db1 e h = h

-- From a database with at most one pending run for each repository and ref, any operations, each
-- run to its end before the next, with any interruption by other statements than the INSERT of a
-- run, lead to one.
pub apply_all-PendingUnique :
    (os : List Op) (db : Db)
    → All (Permitted ⊥) os
    → PendingUnique db.runs
    → PendingUnique (apply_all os db).runs
apply_all-PendingUnique os db a h = kept-apply_all Unique ⊥ keep create-Unique os db a h
  where
    keep : (st : Statement) → (inserts_run st ≡ false) ⊎ ⊥ → Keeps Unique (exec st)
    keep st (inl e) = exec-Unique st e
    keep st (inr x) = absurd x
