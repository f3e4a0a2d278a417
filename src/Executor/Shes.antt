-- ===== src/Executor/Shes.antt =====
-- The server's replay of what `run_pipeline` emits: the second pass, that for the sh processes.
use quire.Prelude.{
  ℕ, suc, ◌≤◌, ◌<◌, String, ◌≡◌, ◌∙◌, refl, ap, sym, Bool, true, false, not, ◌||◌, some, List, [],
  ◌∷◌, ◌++◌, arith, if◌then◌else◌, if_true, if_false, all, any, ◌==◌, ==_iff, ==_refl, string_eq,
  nat_eq, append_assoc, append-nil, all-append, Bool-cases, inl, inr, ltb, lookup, insert, remove,
  lookup-insert,
}
use quire.Prelude.Int.{ℤ}
use quire.Database.{JobRow, ShRow, Db, ok, return, ◌>>=◌}
use quire.Database.Keeps.{>>=-ok}
use quire.Database.Statement.{exec, add_sh, is_sh, is_job}
use quire.Events.{Event, sh_started, sh_finished}
use quire.Events.Ingest.{ShPass, sh_pass, sh_pass_step, finish_sh, sh_row}
use quire.Executor.{
  ShCall, exited, not_spawned, JobRun, event, after_calls, sh_events, run_job, run_jobs,
}
use quire.Executor.Round.{le-after_calls}
use quire.Executor.Replay.{next, events-run_jobs, events-run_jobs_failed}

-- the database with more rows of sh processes
abbrev pub with_sh : Db → List ShRow → Db
with_sh db rows = record db { sh = db.sh ++ rows }

-- The jobs up to the first that fails have rows.
abbrev pub HasJobs : String → (String → JobRun) → List String → List JobRow → Type 0
HasJobs run_id run_fn [] rows = Unit
HasJobs run_id run_fn (j ∷ js) rows =
    (any (is_job run_id j) rows ≡ true) × ((run_fn j).is_ok ≡ true → HasJobs run_id run_fn js rows)

module _ (clock : ℕ → ℕ) (run_id : String) where
  -- The rows that the sh processes of a job are to have.
  abbrev pub sh_rows : ℕ → String → List ShCall → List ShRow
  sh_rows n job_id [] = []
  sh_rows n job_id (exited cmd exit ∷ calls) =
      sh_row run_id job_id (clock n) (clock (suc n)) exit cmd ∷ sh_rows (suc (suc n)) job_id calls
  sh_rows n job_id (not_spawned cmd ∷ calls) = sh_rows (suc n) job_id calls

  -- The rows of the jobs up to the first that fails.
  abbrev pub expected_sh : ℕ → (String → JobRun) → List String → List ShRow
  expected_sh n run_fn [] = []
  expected_sh n run_fn (j ∷ js) =
      let rest = expected_sh (next clock run_id n (run_fn j)) run_fn js in
      sh_rows (suc n) j (run_fn j).calls ++ (if (run_fn j).is_ok then rest else [])

  abbrev is_before : ℕ → ShRow → Bool
  is_before t r = not (r.run_id == run_id) || ltb r.started_at_ms t

  -- Every row of the run has started before the time.
  abbrev pub Before : ℕ → List ShRow → Type 0
  Before t rows = all (is_before t) rows ≡ true

  Before-le : (t u : ℕ) (rows : List ShRow) → t ≤ u → Before t rows → Before u rows
  Before-le t u [] le h = refl
  Before-le t u (r ∷ rows) le h = ground (arith, le, Before-le t u rows le)

  is_sh-Before :
      (row : ShRow) (rows : List ShRow)
      → row.run_id ≡ run_id
      → Before row.started_at_ms rows
      → any (is_sh row) rows ≡ false
  is_sh-Before row [] e h = refl
  is_sh-Before row (r ∷ rows) e h =
      ground (arith, e, is_sh-Before row rows e, ==_iff r.started_at_ms row.started_at_ms)

  pub add_sh-ok :
      (row : ShRow) (db : Db)
      → row.run_id ≡ run_id
      → Before row.started_at_ms db.sh
      → any (is_job run_id row.job_id) db.jobs ≡ true
      → add_sh row db ≡ (ok tt, with_sh db (row ∷ []))
  unfolding add_sh
  add_sh-ok row db e h j = simp (is_sh-Before row db.sh e h, e, j)

  Before-append : (t : ℕ) (xs ys : List ShRow) → Before t xs → Before t ys → Before t (xs ++ ys)
  Before-append t xs ys a b = all-append (is_before t) xs ys ∙ ground (arith, a, b)

  unfoldable pub row_of_call : ℕ → String → String → ℤ → ShRow
  row_of_call n j cmd exit = sh_row run_id j (clock n) (clock (suc n)) exit cmd

  abbrev pub started_sh : ℕ → String → String → ShPass → ShPass
  started_sh n j cmd s = insert j (record { started_at = clock n; cmd = cmd }) s

  -- the steps of the pass at the events of a call
  pub sh_pass-started :
      (n : ℕ) (j cmd : String) (s : ShPass) (es : List Event) (db : Db)
      → sh_pass run_id s (event (clock n) (sh_started j cmd) ∷ es) db
        ≡ sh_pass run_id (started_sh n j cmd s) es db
  unfolding sh_pass sh_pass_step ◌>>=◌ return
  sh_pass-started n j cmd s es db = refl

  finish_sh-added :
      (n : ℕ) (j cmd : String) (exit : ℤ) (s : ShPass) (db : Db)
      → add_sh (row_of_call n j cmd exit) db ≡ (ok tt, with_sh db (row_of_call n j cmd exit ∷ []))
      → finish_sh run_id
          (clock (suc n))
          j
          exit
          (some (record { started_at = clock n; cmd = cmd }))
          s
          db
        ≡ (ok (remove j s), with_sh db (row_of_call n j cmd exit ∷ []))
  unfolding row_of_call exec
  finish_sh-added n j cmd exit s db added =
      >>=-ok _ _ db (with_sh db (row_of_call n j cmd exit ∷ [])) tt added ∙ unfold return in refl

  pub lookup-started :
      (n : ℕ) (j cmd : String) (s : ShPass)
      → lookup j (started_sh n j cmd s) ≡ some (record { started_at = clock n; cmd = cmd })
  lookup-started n j cmd s = lookup-insert j j _ s ∙ if_true _ _ _ (==_refl j)

  pub sh_pass-finished :
      (n : ℕ) (j cmd : String) (exit : ℤ) (s : ShPass) (es : List Event) (db : Db)
      → add_sh (row_of_call n j cmd exit) db ≡ (ok tt, with_sh db (row_of_call n j cmd exit ∷ []))
      → sh_pass run_id (started_sh n j cmd s) (event (clock (suc n)) (sh_finished j exit) ∷ es) db
        ≡ sh_pass run_id
            (remove j (started_sh n j cmd s))
            es
            (with_sh db (row_of_call n j cmd exit ∷ []))
  unfolding sh_pass sh_pass_step
  sh_pass-finished n j cmd exit s es db added =
      >>=-ok _ _ db (with_sh db (row_of_call n j cmd exit ∷ [])) _ (
        ap (λ o. finish_sh run_id (clock (suc n)) j exit o (started_sh n j cmd s) db)
          (lookup-started n j cmd s)
        ∙ finish_sh-added n j cmd exit (started_sh n j cmd s) db added)

  -- What the second pass makes of the events, with the rest of them still to do.
  pub record Paired (s : ShPass) (evs es : List Event) (db db' : Db) : Type 0 where
    pub pass : ShPass
    pub pairs : sh_pass run_id s (evs ++ es) db ≡ sh_pass run_id pass es db'

  module _ (rising : (a b : ℕ) → a < b → clock a < clock b) where
    Before-row :
        (n : ℕ) (j cmd : String) (exit : ℤ) (m : ℕ)
        → n < m
        → Before (clock m) (row_of_call n j cmd exit ∷ [])
    unfolding row_of_call
    Before-row n j cmd exit m h = ground (arith, rising n m h)

    pub clock-le : (a b : ℕ) → a ≤ b → clock a ≤ clock b
    clock-le a b h = elim (Bool-cases (ltb a b)) [
      | inl less ↦ omega (arith, rising a b (ground (arith, less)))
      | inr same ↦ let e : a ≡ b = ground (arith, h, same) in ground (arith, ap clock e)
    ]

    Before-later :
        (a b : ℕ) (rows : List ShRow) → a ≤ b → Before (clock a) rows → Before (clock b) rows
    Before-later a b rows h = Before-le (clock a) (clock b) rows (clock-le a b h)

    Before-sh_rows :
        (n : ℕ) (j : String) (calls : List ShCall)
        → Before (clock (after_calls n calls)) (sh_rows n j calls)
    unfolding after_calls row_of_call
    Before-sh_rows n j [] = refl
    Before-sh_rows n j (exited cmd exit ∷ calls) =
        Before-append _ (row_of_call n j cmd exit ∷ []) (sh_rows (suc (suc n)) j calls)
          (Before-row n j cmd exit _ (omega (arith, le-after_calls (suc (suc n)) calls)))
          (Before-sh_rows (suc (suc n)) j calls)
    Before-sh_rows n j (not_spawned cmd ∷ calls) = Before-sh_rows (suc n) j calls

    module _ (es : List Event) where
      Paired-sh_events :
          (n : ℕ) (j : String) (calls : List ShCall) (s : ShPass) (db : Db)
          → any (is_job run_id j) db.jobs ≡ true
          → Before (clock n) db.sh
          → Paired s (sh_events clock n j calls) es db (with_sh db (sh_rows n j calls))
      unfolding sh_events row_of_call
      Paired-sh_events n j [] s db known h = record {
        pass = s;
        pairs =
            ap (λ (x : List ShRow). sh_pass run_id s es (record db { sh = x }))
              (sym (append-nil db.sh));
      }
      Paired-sh_events n j (exited cmd exit ∷ calls) s db known h =
          let row = row_of_call n j cmd exit in
          let ih =
            Paired-sh_events (suc (suc n)) j calls (remove j (started_sh n j cmd s))
              (with_sh db (row ∷ [])) known
              (Before-append _ db.sh (row ∷ []) (Before-later n _ db.sh (omega arith) h)
                (Before-row n j cmd exit _ (omega arith))) in
          record {
            pass = ih.pass;
            pairs =
                sh_pass-started n j cmd s _ db
                ∙ sh_pass-finished n j cmd exit s _ db (add_sh-ok row db refl h known)
                ∙ ih.pairs
                ∙ ap (λ (x : List ShRow). sh_pass run_id ih.pass es (record db { sh = x }))
                    (append_assoc db.sh (row ∷ []) (sh_rows (suc (suc n)) j calls));
          }
      Paired-sh_events n j (not_spawned cmd ∷ calls) s db known h =
          let ih =
            Paired-sh_events (suc n) j calls (started_sh n j cmd s) db known
              (Before-later n _ db.sh (omega arith) h) in
          record { pass = ih.pass; pairs = sh_pass-started n j cmd s _ db ∙ ih.pairs }

    Paired-run_job :
        (n : ℕ) (j : String) (run : JobRun) (s : ShPass) (es : List Event) (db : Db)
        → any (is_job run_id j) db.jobs ≡ true
        → Before (clock n) db.sh
        → Paired s (run_job clock n j run).events es db (with_sh db (sh_rows (suc n) j run.calls))
    unfolding run_job sh_pass sh_pass_step ◌>>=◌ return
    Paired-run_job n j run s es db known h =
        let ih =
          Paired-sh_events (_ ∷ es) (suc n) j run.calls s db known
            (Before-later n _ db.sh (omega arith) h) in
        record {
          pass = ih.pass;
          pairs =
              ap (λ (x : List Event). sh_pass run_id s x db)
                (append_assoc (sh_events clock (suc n) j run.calls) _ es)
              ∙ ih.pairs;
        }

    pub Paired-run_jobs :
        (n : ℕ) (run_fn : String → JobRun) (js : List String) (s : ShPass) (es : List Event)
        (db : Db)
        → HasJobs run_id run_fn js db.jobs
        → Before (clock n) db.sh
        → Paired s (run_jobs clock n run_fn js).events es db (with_sh db (expected_sh n run_fn js))
    unfolding run_jobs
    Paired-run_jobs n run_fn [] s es db has h = record {
      pass = s;
      pairs =
          ap (λ (x : List ShRow). sh_pass run_id s es (record db { sh = x }))
            (sym (append-nil db.sh));
    }
    Paired-run_jobs n run_fn (j ∷ js) s es db has h = elim (Bool-cases (run_fn j).is_ok) [
      | inl e ↦
          let run = run_fn j in
          let m = next clock run_id n run in
          let rows = sh_rows (suc n) j run.calls in
          let head =
            Paired-run_job n j run s ((run_jobs clock m run_fn js).events ++ es) db has.0 h in
          let tail = Paired-run_jobs m run_fn js head.pass es (with_sh db rows) (has.1 e) (
            Before-append _ db.sh rows
              (Before-later n m db.sh (omega (arith, le-after_calls (suc n) run.calls)) h)
              (Before-later (after_calls (suc n) run.calls) m rows (omega arith)
                (Before-sh_rows (suc n) j run.calls))) in
          record {
            pass = tail.pass;
            pairs =
                ap (λ (x : List Event). sh_pass run_id s (x ++ es) db)
                  (events-run_jobs clock run_id n run_fn j js e)
                ∙ ap (λ (x : List Event). sh_pass run_id s x db)
                    (append_assoc (run_job clock n j run).events _ es)
                ∙ head.pairs
                ∙ tail.pairs
                ∙ ap (λ (x : List ShRow). sh_pass run_id tail.pass es (record db { sh = x }))
                    (append_assoc db.sh rows _
                      ∙ ap (λ (x : List ShRow). db.sh ++ (rows ++ x)) (sym (if_true _ _ _ e)));
          }
      | inr e ↦
          let run = run_fn j in
          let rows = sh_rows (suc n) j run.calls in
          let head = Paired-run_job n j run s es db has.0 h in
          record {
            pass = head.pass;
            pairs =
                ap (λ (x : List Event). sh_pass run_id s (x ++ es) db)
                  (events-run_jobs_failed clock run_id n run_fn j js e)
                ∙ head.pairs
                ∙ ap
                    (λ (x : List ShRow).
                      sh_pass run_id head.pass es (record db { sh = db.sh ++ x }))
                    (sym (append-nil rows)
                      ∙ ap (λ (x : List ShRow). rows ++ x) (sym (if_false _ _ _ e)));
          }
    ]
