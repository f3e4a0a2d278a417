-- ===== src/Database.antt =====
-- The SQLite database of quire-server/src/db.rs: its tables as of the last migration
-- (quire-server/migrations), the statements that change them, and actions that run statements.
-- A column of type INTEGER that holds a timestamp is a number of milliseconds since the epoch.
pub mod Statement
pub mod Keeps
pub mod History
pub mod Find
use quire.Prelude.{
  ℕ, String, Bool, true, false, not, ◌&&◌, ◌||◌, Option, none, some, List, [], ◌∷◌, ◌++◌, leb, any,
  is_some, is_none, ◌==◌, string_eq, if◌then◌else◌,
}
use quire.Prelude.Int.{ℤ}

-- A row of `runs`.
pub record RunRow : Type 0 where
  pub id : String
  pub repo : String
  pub ref_name : String
  pub sha : String
  pub pushed_at_ms : ℕ
  pub created_at : ℕ
  pub dispatched_at : Option ℕ
  pub resolved_at : Option ℕ
  pub outcome : Option String
  pub run_token : Option String
  pub traceparent : Option String

-- A row of `jobs`; the program leaves `exit_code` NULL.
pub record JobRow : Type 0 where
  pub run_id : String
  pub job_id : String
  pub state : String
  pub exit_code : Option ℤ
  pub started_at_ms : Option ℕ
  pub finished_at_ms : Option ℕ

-- A row of `sh`.
pub record ShRow : Type 0 where
  pub run_id : String
  pub job_id : String
  pub started_at_ms : ℕ
  pub finished_at_ms : ℕ
  pub exit_code : ℤ
  pub cmd : String

pub record Db : Type 0 where
  pub runs : List RunRow
  pub jobs : List JobRow
  pub sh : List ShRow

-- `x IS NULL OR x >= t`
abbrev pub null_or_ge : Option ℕ → ℕ → Bool
null_or_ge none t = true
null_or_ge (some x) t = leb t x

-- `b IS NULL OR a IS NULL OR b >= a`
abbrev pub null_or_ordered : Option ℕ → Option ℕ → Bool
null_or_ordered none b = true
null_or_ordered (some a) b = null_or_ge b a

unfoldable pub known_outcome : Option String → Bool
known_outcome none = true
known_outcome (some o) =
    o == "succeeded"
    || o == "failed-pipeline"
    || o == "failed-orphaned"
    || o == "failed-internal"
    || o == "superseded"

-- `(a IS NULL) = (b IS NULL)`
abbrev pub both_null_or_neither {ℓ κ} : {A : Type ℓ} {B : Type κ} → Option A → Option B → Bool
both_null_or_neither none b = is_none b
both_null_or_neither (some a) b = is_some b

-- The CHECK constraints of `runs`.
unfoldable pub check_run : RunRow → Bool
check_run r =
    null_or_ge r.dispatched_at r.created_at
    && null_or_ge r.resolved_at r.created_at
    && null_or_ordered r.dispatched_at r.resolved_at
    && both_null_or_neither r.resolved_at r.outcome
    && known_outcome r.outcome

-- The CHECK constraints of `jobs`, at a row with a finished state.
unfoldable pub check_job : JobRow → Bool
check_job j =
    null_or_ordered j.started_at_ms j.finished_at_ms
    && (if j.state == "active"
        then is_some j.started_at_ms && is_none j.finished_at_ms
        else (j.state == "succeeded" || j.state == "failed")
          && is_some j.started_at_ms
          && is_some j.finished_at_ms)

-- The errors of quire-server/src/ci/error.rs that the modelled operations return.
pub data Error : Type 0 where
  sql_constraint : Error
  sql_no_rows : Error
  io : Error
  already_dispatched : Error
  already_resolved : Error
  command_spawn_failed : Error
  process_failed : Option ℤ → Error
  git : Error
  workspace_materialization_failed : Error
  event_stream_parse : Error

pub data Result {ℓ} (A : Type ℓ) : Type ℓ where
  ok : A → Result A
  err : Error → Result A

-- An operation on the database. Every statement commits by itself, so what was written before an
-- error stays written.
abbrev pub Action : Type 0 → Type 0
Action A = Db → Result A × Db

module _ {A : Type 0} where
  unfoldable pub return : A → Action A
  return a db = (ok a, db)

  unfoldable pub fail : Error → Action A
  fail e db = (err e, db)

  -- A SELECT.
  unfoldable pub query : (Db → A) → Action A
  query f db = (ok (f db), db)

module _ {A B : Type 0} where
  abbrev pub continue : Result A → (A → Action B) → Action B
  continue (ok a) f db = f a db
  continue (err e) f db = (err e, db)

  -- Opening this opens `return`, `fail` and `query` too.
  infixl 10 ◌>>=◌ ◌>>◌
  unfoldable pub ◌>>=◌ : Action A → (A → Action B) → Action B
  unfolding return fail query
  ◌>>=◌ m f db = let (r, db') = m db in continue r f db'

  abbrev pub ◌>>◌ : Action A → Action B → Action B
  m >> n = m >>= λ _. n

unfoldable pub find_run : String → List RunRow → Option RunRow
find_run id [] = none
find_run id (r ∷ rs) = if r.id == id then some r else find_run id rs
