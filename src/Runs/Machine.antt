-- ===== src/Runs/Machine.antt =====
-- The life of a run as an abstract machine, and the rows that follow it.
use quire.Prelude.{String, ◌≡◌, refl, sym, Bool, true, false, Option, none, some, List, is_some}
use mathlib.Core.Path.{subst}
use quire.Database.{RunRow, Db, find_run}
use quire.Database.Find.{find_run-Extends}
use quire.Runs.History.{Op, apply_all}
use quire.Runs.Settled.{apply_all-Extends}

pub data RunState : Type 0 where
  queued active : RunState
  resolved : String → RunState

-- The moves of the machine: a run may stay, start, or end with an outcome, from where none is left.
pub data Moves : RunState → RunState → Type 0 where
  stay : {s : RunState} → Moves s s
  start : Moves queued active
  end_active : {o : String} → Moves active (resolved o)
  end_queued : {o : String} → Moves queued (resolved o)

abbrev by_times : Bool → Option String → RunState
by_times dispatched (some o) = resolved o
by_times true none = active
by_times false none = queued

-- The state that a row stands for.
abbrev pub run_state : RunRow → RunState
run_state r = by_times (is_some r.dispatched_at) r.outcome

by_times-Moves :
    (d d' : Bool) (o o' : Option String)
    → (d ≡ true → d' ≡ true)
    → (is_some o ≡ true → o' ≡ o)
    → Moves (by_times d o) (by_times d' o')
by_times-Moves d d' (some o) o' h k =
    subst (λ x. Moves (resolved o) (by_times d' x)) (sym (k refl)) Moves.stay
by_times-Moves true d' none (some o') h k = Moves.end_active
by_times-Moves true d' none none h k =
    subst (λ x. Moves active (by_times x none)) (sym (h refl)) Moves.stay
by_times-Moves false d' none (some o') h k = Moves.end_queued
by_times-Moves false true none none h k = Moves.start
by_times-Moves false false none none h k = Moves.stay

-- Whatever operations and statements run, and however they interleave, a run that is in the table
-- stays in it, and its row moves as the machine of queued, active and resolved runs does: it never
-- goes back, and it keeps the outcome that it has.
pub apply_all-Moves :
    (os : List Op) (db : Db) (id : String) (r : RunRow)
    → find_run id db.runs ≡ some r
    → (s : RunRow) × (find_run id (apply_all os db).runs ≡ some s)
      × Moves (run_state r) (run_state s)
apply_all-Moves os db id r f =
    let (s, found, ext) = find_run-Extends id _ _ r f (apply_all-Extends os db) in
    (s, found, by_times-Moves _ _ r.outcome s.outcome ext.dispatched ext.outcome)
