-- ===== src/Runs/Pending.antt =====
-- The pending runs of a repository and a ref, and `cancel_existing`. What two interleaved calls of
-- `create` do is in `Race`.
use quire.Prelude.{
  ℕ, String, ◌≡◌, sym, ◌∙◌, Bool, true, false, List, [], ◌∷◌, is_none, arith, ap, inl, inr, ◌==◌,
  string_eq, eq_iff, ◌&&◌, any, All, Bool-cases, if◌then◌else◌,
}
use mathlib.Core.Path.{subst}
use mathlib.Core.Bool.{false≢true}
use quire.Database.{RunRow, Db, Result, ok, return}
use quire.Database.Keeps.{>>=-eq-ok, query-eq-ok}
use quire.Database.Find.{runs-update_runs}
use quire.Database.Statement.{
  exec, supersede_queued, set_where, is_for, is_active, is_queued, has_id, resolved_row,
  superseded_row,
}
use quire.Runs.{Runs, cancel_each, cancel_existing, active_ids}

abbrev pub is_pending_for : String → String → RunRow → Bool
is_pending_for repo ref_name r = is_for repo ref_name r && is_none r.resolved_at

-- No pending run for the repository and the ref.
abbrev pub NonePending : String → String → List RunRow → Type 0
NonePending repo ref_name = All (λ r. is_pending_for repo ref_name r ≡ false)

-- Every active run for them has one of these ids.
abbrev Listed : String → String → List String → List RunRow → Type 0
Listed repo ref_name ids =
    All (λ r. (is_for repo ref_name r && is_active r) ≡ true → any (λ id. id == r.id) ids ≡ true)

module _ (repo ref_name : String) where
  Listed-more :
      (id : String) (ids : List String) (rs : List RunRow)
      → Listed repo ref_name ids rs
      → Listed repo ref_name (id ∷ ids) rs
  Listed-more id ids [] h = tt
  Listed-more id ids (r ∷ rs) h = (λ e. ground (arith, h.0 e), Listed-more id ids rs h.1)

  active_ids-hit :
      (r : RunRow) (rs : List RunRow)
      → (is_for repo ref_name r && is_active r) ≡ true
      → active_ids repo ref_name (r ∷ rs) ≡ r.id ∷ active_ids repo ref_name rs
  unfolding active_ids
  active_ids-hit r rs e = rw e

  active_ids-miss :
      (r : RunRow) (rs : List RunRow)
      → (is_for repo ref_name r && is_active r) ≡ false
      → active_ids repo ref_name (r ∷ rs) ≡ active_ids repo ref_name rs
  unfolding active_ids
  active_ids-miss r rs e = rw e

  Listed-active_ids : (rs : List RunRow) → Listed repo ref_name (active_ids repo ref_name rs) rs
  Listed-active_ids [] = tt
  Listed-active_ids (r ∷ rs) = elim (Bool-cases (is_for repo ref_name r && is_active r)) [
    | inl e ↦
        subst (λ ids. Listed repo ref_name ids (r ∷ rs)) (sym (active_ids-hit r rs e))
          (λ _. ground (arith, eq_iff r.id r.id), Listed-more r.id _ rs (Listed-active_ids rs))
    | inr e ↦
        subst (λ ids. Listed repo ref_name ids (r ∷ rs)) (sym (active_ids-miss r rs e))
          (λ k. absurd (false≢true (sym e ∙ k)), Listed-active_ids rs)
  ]

  -- What superseding the run `id` leaves to do at one row.
  Listed-row :
      (now : ℕ) (id : String) (ids : List String) (r : RunRow)
      → ((is_for repo ref_name r && is_active r) ≡ true → any (λ j. j == r.id) (id ∷ ids) ≡ true)
      → let s = if has_id id r then resolved_row now "superseded" r else r in
        (is_for repo ref_name s && is_active s) ≡ true → any (λ j. j == s.id) ids ≡ true
  Listed-row now id ids r h = elim (Bool-cases (r.id == id)) [
    | inl e ↦ rw e (λ k. absurd (inactive k))
    | inr e ↦ rw e (λ k. ground (arith, h k, eq_iff r.id id, eq_iff id r.id))
  ]
    where
      inactive :
          (is_for repo ref_name (resolved_row now "superseded" r)
              && is_active (resolved_row now "superseded" r))
            ≡ true
          → ⊥
      inactive k = ground arith

  Listed-set_where :
      (now : ℕ) (id : String) (ids : List String) (rs : List RunRow)
      → Listed repo ref_name (id ∷ ids) rs
      → Listed repo ref_name ids (set_where (has_id id) (resolved_row now "superseded") rs)
  unfolding set_where
  Listed-set_where now id ids [] h = tt
  Listed-set_where now id ids (r ∷ rs) h =
      (Listed-row now id ids r h.0, Listed-set_where now id ids rs h.1)

  -- When no run is active, the last statement leaves none pending.
  NonePending-set_where :
      (now : ℕ) (rs : List RunRow)
      → Listed repo ref_name [] rs
      → NonePending repo ref_name
          (set_where (λ r. is_for repo ref_name r && is_queued r) (superseded_row now) rs)
  unfolding set_where
  NonePending-set_where now [] h = tt
  NonePending-set_where now (r ∷ rs) h = (one, NonePending-set_where now rs h.1)
    where
      one :
          is_pending_for repo ref_name
            (if is_for repo ref_name r && is_queued r then superseded_row now r else r)
          ≡ false
      one = ground (arith, h.0)

-- A successful loop has superseded every run of its list.
cancel_each-Listed :
    (repo ref_name : String) (now : ℕ) (ids : List String) (db db' : Db)
    → cancel_each now ids db ≡ (ok tt, db')
    → Listed repo ref_name ids db.runs
    → Listed repo ref_name [] db'.runs
unfolding cancel_each
cancel_each-Listed repo ref_name now [] db db' h l =
    let same : db.runs ≡ db'.runs =
      unfold return in ap (λ (x : Result (Unit {0}) × Db). x.1.runs) h in
    subst (Listed repo ref_name []) same l
cancel_each-Listed repo ref_name now (id ∷ ids) db db' h l =
    let (_, db1, first, rest) = >>=-eq-ok _ _ db db' tt h in
    let left : db1.runs ≡ set_where (has_id id) (resolved_row now "superseded") db.runs =
      unfold exec in runs-update_runs _ _ db db1 first in
    cancel_each-Listed repo ref_name now ids db1 db' rest (
      subst (Listed repo ref_name ids) (sym left)
        (Listed-set_where repo ref_name now id ids db.runs l))

runs-supersede_queued :
    (now : ℕ) (repo ref_name : String) (db db' : Db)
    → exec (supersede_queued now repo ref_name) db ≡ (ok tt, db')
    → db'.runs ≡ set_where (λ r. is_for repo ref_name r && is_queued r) (superseded_row now) db.runs
unfolding exec
runs-supersede_queued now repo ref_name db db' h = runs-update_runs _ _ db db' h

-- When `cancel_existing` succeeds, no run for its repository and ref is pending.
pub cancel_existing-NonePending :
    (runs : Runs) (now : ℕ) (ref_name : String) (db db' : Db)
    → cancel_existing runs now ref_name db ≡ (ok tt, db')
    → NonePending runs.repo ref_name db'.runs
unfolding cancel_existing
cancel_existing-NonePending runs now ref_name db db' h =
    let (ids, db0, selected, rest) = >>=-eq-ok _ _ db db' tt h in
    let (_, db1, looped, last) = >>=-eq-ok _ _ db0 db' tt rest in
    let (eq_ids, eq_db) = query-eq-ok _ db db0 ids selected in
    let listed : Listed runs.repo ref_name ids db0.runs =
      subst (λ (j : List String). Listed runs.repo ref_name j db0.runs) eq_ids
        (subst
          (λ (x : Db). Listed runs.repo ref_name (active_ids runs.repo ref_name db.runs) x.runs)
          eq_db (Listed-active_ids runs.repo ref_name db.runs)) in
    subst (NonePending runs.repo ref_name)
      (sym (runs-supersede_queued now runs.repo ref_name db1 db' last))
      (NonePending-set_where runs.repo ref_name now db1.runs
        (cancel_each-Listed runs.repo ref_name now ids db0 db1 looped listed))
