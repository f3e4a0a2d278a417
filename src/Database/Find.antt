-- ===== src/Database/Find.antt =====
-- The row of an id, in a table and in its later states.
use quire.Prelude.{
  String, ◌≡◌, ap, sym, Bool, true, false, some, ◌∙◌, List, [], ◌∷◌, arith, Bool-cases, inl, inr,
  ◌==◌, string_eq, eq_iff,
}
use mathlib.Core.Path.{subst}
use quire.Database.{RunRow, Db, Result, ok, check_run, find_run}
use quire.Database.Statement.{set_where, checks_where, update_runs, has_id}
use quire.Database.History.{RowExtends, Extends}

-- The row that an id finds has that id.
pub id-find_run :
    (id : String) (rs : List RunRow) (r : RunRow) → find_run id rs ≡ some r → r.id ≡ id
unfolding find_run
id-find_run id [] r h = ground arith
id-find_run id (q ∷ rs) r h = ground (arith, eq_iff q.id id, id-find_run id rs r)

find_run-hit :
    (id : String) (q r : RunRow) (rs : List RunRow)
    → (q.id == id) ≡ true
    → find_run id (q ∷ rs) ≡ some r
    → q ≡ r
unfolding find_run
find_run-hit id q r rs e h = ground arith

find_run-here :
    (id : String) (q : RunRow) (rs : List RunRow) → q.id ≡ id → find_run id (q ∷ rs) ≡ some q
unfolding find_run
find_run-here id q rs e = rw ((eq_iff q.id id).1 e)

find_run-miss :
    (id : String) (q : RunRow) (rs : List RunRow)
    → (q.id == id) ≡ false
    → find_run id (q ∷ rs) ≡ find_run id rs
unfolding find_run
find_run-miss id q rs e = rw e

-- A row that an id finds is found later too, in its later state.
pub find_run-Extends :
    (id : String) (rs ss : List RunRow) (r : RunRow)
    → find_run id rs ≡ some r
    → Extends rs ss
    → (s : RunRow) × (find_run id ss ≡ some s) × RowExtends r s
unfolding find_run
find_run-Extends id [] ss r h k = absurd (ground arith)
find_run-Extends id (q ∷ rs) [] r h k = elim k [ ]
find_run-Extends id (q ∷ rs) (s ∷ ss) r h k =
    let same : (s.id == id) ≡ (q.id == id) = ap (λ (x : String). x == id) (k.0).id in
    elim (Bool-cases (q.id == id)) [
      | inl e ↦ (
        s,
        rw (same ∙ e),
        subst (λ (x : RunRow). RowExtends x s) (find_run-hit id q r rs e h) k.0,
      )
      | inr e ↦ later e same (find_run-Extends id rs ss r (rw (find_run-miss id q rs e) at h) k.1)
    ]
  where
    later :
        (q.id == id) ≡ false
        → (s.id == id) ≡ (q.id == id)
        → (t : RunRow) × (find_run id ss ≡ some t) × RowExtends r t
        → (t : RunRow) × (find_run id (s ∷ ss) ≡ some t) × RowExtends r t
    later e same (t, found, ext) = (t, rw (same ∙ e) found, ext)

-- A changed row that fails a CHECK constraint fails the statement.
pub checks_where-false :
    (id : String) (f : RunRow → RunRow) (rs : List RunRow) (r : RunRow)
    → find_run id rs ≡ some r
    → check_run (f r) ≡ false
    → checks_where (has_id id) f rs ≡ false
unfolding checks_where
checks_where-false id f [] r h c = absurd (unfold find_run in ground arith)
checks_where-false id f (q ∷ rs) r h c = elim (Bool-cases (q.id == id)) [
  | inl e ↦ rw (e, ap (λ (x : RunRow). check_run (f x)) (find_run-hit id q r rs e h), c)
  | inr e ↦ rw (e, checks_where-false id f rs r (rw (find_run-miss id q rs e) at h) c)
]

-- An update by id changes the row that the id finds.
pub find_run-set_where :
    (id : String) (f : RunRow → RunRow) (rs : List RunRow) (r : RunRow)
    → find_run id rs ≡ some r
    → (f r).id ≡ r.id
    → find_run id (set_where (has_id id) f rs) ≡ some (f r)
unfolding set_where
find_run-set_where id f [] r h c = absurd (unfold find_run in ground arith)
find_run-set_where id f (q ∷ rs) r h c = elim (Bool-cases (q.id == id)) [
  | inl e ↦
      let q-r : q ≡ r = find_run-hit id q r rs e h in
      rw (e, q-r)
        (rw (find_run-here id (f r) (set_where (has_id id) f rs) (c ∙ id-find_run id (q ∷ rs) r h)))
  | inr e ↦ rw e (
      rw (find_run-miss id q (set_where (has_id id) f rs) e)
        (find_run-set_where id f rs r (rw (find_run-miss id q rs e) at h) c))
]

-- What a successful update leaves.
pub update_runs-ok :
    (p : RunRow → Bool) (f : RunRow → RunRow) (db : Db)
    → (update_runs p f db).0 ≡ ok tt
    → (update_runs p f db).1.runs ≡ set_where p f db.runs
unfolding update_runs
update_runs-ok p f db h = ground arith

pub runs-update_runs :
    (p : RunRow → Bool) (f : RunRow → RunRow) (db db' : Db)
    → update_runs p f db ≡ (ok tt, db')
    → db'.runs ≡ set_where p f db.runs
runs-update_runs p f db db' h =
    ap (λ (x : Result (Unit {0}) × Db). x.1.runs) (sym h)
    ∙ update_runs-ok p f db (ap (λ (x : Result (Unit {0}) × Db). x.0) h)
