-- ===== src/Runs/History.antt =====
-- The operations on runs, in any order and by any number of connections, and the rule by which a
-- property is carried over them.
use quire.Prelude.{
  ℕ, String, ◌≡◌, refl, sym, Bool, true, false, Option, List, [], ◌∷◌, inl, inr, ◌⊎◌, All,
  string_eq,
}
use quire.Database.{Db}
use quire.Database.Statement.{
  Statement, supersede_active, insert_run, insert_job, insert_sh, orphan, mark_bootstrapped, exec,
}
use quire.Database.Keeps.{Keeps, Keeps-bind, keeps_rules}
use quire.Events.Ingest.{EventsFile, ingest_events}
use quire.Events.Ingest.Kept
use quire.Runs.Api.{get_bootstrap, bootstrap_request}
use quire.Runs.Api.Handover.{db-get_bootstrap, db-bootstrap_request}
use mathlib.Core.Path.{subst}
use quire.Runs.{
  RunMeta, ApiSession, Runs, Run, CreateWorld, create, cancel_each, cancel_existing, create_dir_all,
  reconcile_orphans, dispatch, resolve,
}

abbrev pub inserts_run : Statement → Bool
inserts_run (insert_run row) = true
inserts_run _ = false

-- A property that every statement keeps but for a new run is kept by every operation but `create`.
module _ (P : Db → Type 0)
    (keep : (st : Statement) → inserts_run st ≡ false → Keeps P (exec st)) where
  Keeps-cancel_each : (now : ℕ) (ids : List String) → Keeps P (cancel_each now ids)
  unfolding cancel_each
  Keeps-cancel_each now [] = search keeps_rules
  Keeps-cancel_each now (id ∷ ids) =
      Keeps-bind _ _ (keep (supersede_active now id) refl) (λ _. Keeps-cancel_each now ids)

  pub Keeps-cancel_existing :
      (runs : Runs) (now : ℕ) (ref_name : String) → Keeps P (cancel_existing runs now ref_name)
  unfolding cancel_existing
  Keeps-cancel_existing runs now ref_name = search (keeps_rules, keep, Keeps-cancel_each)

  pub Keeps-dispatch : (run : Run) (now : ℕ) → Keeps P (dispatch run now)
  unfolding dispatch
  Keeps-dispatch run now = search (keeps_rules, keep)

  pub Keeps-resolve : (run : Run) (now : ℕ) (outcome : String) → Keeps P (resolve run now outcome)
  unfolding resolve
  Keeps-resolve run now outcome = search (keeps_rules, keep)

  pub Keeps-ingest_events : (id : String) (file : EventsFile) → Keeps P (ingest_events id file)
  Keeps-ingest_events id file =
      Kept.Keeps-ingest_events P (λ row. keep (insert_job row) refl)
        (λ row. keep (insert_sh row) refl) id file

  kept-get_bootstrap : (id : String) (now : ℕ) (db : Db) → P db → P (get_bootstrap id now db).1
  kept-get_bootstrap id now db h = elim (db-get_bootstrap id now db) [
    | inl e ↦ subst P (sym e) h
    | inr e ↦ subst P (sym e) ((keep (mark_bootstrapped now id) refl).holds db h)
  ]

  kept-bootstrap_request :
      (bearer : Option String) (now : ℕ) (db : Db) → P db → P (bootstrap_request bearer now db).1
  kept-bootstrap_request bearer now db h = elim (db-bootstrap_request bearer now db) [
    | inl e ↦ subst P (sym e) h
    | inr (id, e) ↦ subst P (sym e) (kept-get_bootstrap id now db h)
  ]

Keeps-create_dir_all : (P : Db → Type 0) (b : Bool) → Keeps P (create_dir_all b)
unfolding create_dir_all
Keeps-create_dir_all P true = search keeps_rules
Keeps-create_dir_all P false = search keeps_rules

module _ (P : Db → Type 0) (keep : (st : Statement) → Keeps P (exec st)) where
  pub Keeps-create :
      (runs : Runs) (w : CreateWorld) (meta : RunMeta) (session : Option ApiSession)
      → Keeps P (create runs w meta session)
  unfolding create
  Keeps-create runs w meta session =
      search (keeps_rules, keep, Keeps-cancel_existing P (λ st _. keep st), Keeps-create_dir_all)

-- The operations of the server, with what each gets from outside. What a subprocess does to the
-- database is among them: its requests.
pub data Op : Type 0 where
  do_create : Runs → CreateWorld → RunMeta → Option ApiSession → Op
  do_reconcile : ℕ → Op
  do_dispatch : Run → ℕ → Op
  do_resolve : Run → ℕ → String → Op
  do_bootstrap : Option String → ℕ → Op
  do_ingest : String → EventsFile → Op
  -- one statement of an operation that others interrupt
  do_statement : Statement → Op

unfoldable pub apply : Op → Db → Db
apply (do_create runs w meta session) db = (create runs w meta session db).1
apply (do_reconcile now) db = (reconcile_orphans now db).1
apply (do_dispatch run now) db = (dispatch run now db).1
apply (do_resolve run now outcome) db = (resolve run now outcome db).1
apply (do_bootstrap bearer now) db = (bootstrap_request bearer now db).1
apply (do_ingest id file) db = (ingest_events id file db).1
apply (do_statement st) db = (exec st db).1

unfoldable pub apply_all : List Op → Db → Db
unfolding apply
apply_all [] db = db
apply_all (o ∷ os) db = apply_all os (apply o db)

-- `Allowed` is what it takes to run the INSERT of a new run apart from its `create`.
abbrev pub Permitted : Type 0 → Op → Type 0
Permitted Allowed (do_statement st) = (inserts_run st ≡ false) ⊎ Allowed
Permitted Allowed _ = Unit

module _ (P : Db → Type 0) (Allowed : Type 0)
    (keep : (st : Statement) → (inserts_run st ≡ false) ⊎ Allowed → Keeps P (exec st))
    (keep_create : (runs : Runs) (w : CreateWorld) (meta : RunMeta) (session : Option ApiSession)
      → Keeps P (create runs w meta session)) where
  old : (st : Statement) → inserts_run st ≡ false → Keeps P (exec st)
  old st e = keep st (inl e)

  kept-apply : (o : Op) (db : Db) → Permitted Allowed o → P db → P (apply o db)
  unfolding apply
  kept-apply (do_create runs w meta session) db a h = (keep_create runs w meta session).holds db h
  kept-apply (do_reconcile now) db a h =
      unfold reconcile_orphans in (old (orphan now) refl).holds db h
  kept-apply (do_dispatch run now) db a h = (Keeps-dispatch P old run now).holds db h
  kept-apply (do_resolve run now outcome) db a h = (Keeps-resolve P old run now outcome).holds db h
  kept-apply (do_bootstrap bearer now) db a h = kept-bootstrap_request P old bearer now db h
  kept-apply (do_ingest id file) db a h = (Keeps-ingest_events P old id file).holds db h
  kept-apply (do_statement st) db a h = (keep st a).holds db h

  pub kept-apply_all :
      (os : List Op) (db : Db) → All (Permitted Allowed) os → P db → P (apply_all os db)
  unfolding apply_all
  kept-apply_all [] db a h = h
  kept-apply_all (o ∷ os) db a h = kept-apply_all os (apply o db) a.1 (kept-apply o db a.0 h)

pub Permitted-All : (os : List Op) → All (Permitted (Unit {0})) os
Permitted-All [] = tt
Permitted-All (o ∷ os) = (one o, Permitted-All os)
  where
    one : (o : Op) → Permitted (Unit {0}) o
    one (do_statement st) = inr tt
    one (do_create runs w meta session) = tt
    one (do_reconcile now) = tt
    one (do_dispatch run now) = tt
    one (do_resolve run now outcome) = tt
    one (do_bootstrap bearer now) = tt
    one (do_ingest id file) = tt
