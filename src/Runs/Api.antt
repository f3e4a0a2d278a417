-- ===== src/Runs/Api.antt =====
-- The run API that quire-ci calls: quire-server/src/quire/web/api.rs, `verify_run_token` and
-- `get_bootstrap`, with the payload of quire-core/src/ci/bootstrap.rs.
pub mod Handover
pub mod Secrets
use quire.Prelude.{
  ℕ, String, Bool, true, false, Option, none, some, List, [], ◌∷◌, is_some, ◌==◌, string_eq,
  if◌then◌else◌,
}
use quire.Database.{RunRow, Db, Result, ok, err, Error, find_run}
use quire.Database.Statement.{exec, mark_bootstrapped}
use quire.Runs.{RunMeta}

-- The error variants that these handlers return.
pub data ApiError : Type 0 where
  not_found : ApiError
  unauthorized : ApiError
  gone : ApiError
  db_error : Error → ApiError

pub data Reply (A : Type 0) : Type 0 where
  reply : A → Reply A
  refuse : ApiError → Reply A

pub record Bootstrap : Type 0 where
  pub meta : RunMeta
  pub repo : String
  pub run_id : String
  pub traceparent : Option String

-- ApiError::into_response; an internal error is a 500.
pub status : ApiError → ℕ
status not_found = 404
status unauthorized = 401
status gone = 410
status (db_error e) = 500

holds_token : String → RunRow → Bool
holds_token token r = elim r.run_token [ none ↦ false | some t ↦ t == token ]

-- SELECT id FROM runs WHERE run_token = ?1: NULL equals nothing.
unfoldable pub find_token : String → List RunRow → Option String
unfolding holds_token
find_token token [] = none
find_token token (r ∷ rs) = if holds_token token r then some r.id else find_token token rs

or_unauthorized : Option String → Reply String
or_unauthorized none = refuse unauthorized
or_unauthorized (some id) = reply id

-- The argument is the bearer token of the request, if its header has one.
unfoldable pub verify_run_token : Option String → Db → Reply String
unfolding or_unauthorized
verify_run_token none db = refuse unauthorized
verify_run_token (some token) db = or_unauthorized (find_token token db.runs)

unfoldable pub payload : String → RunRow → Bootstrap
payload run_id row = record {
  meta = record { sha = row.sha; ref_name = row.ref_name; pushed_at = row.pushed_at_ms };
  repo = row.repo;
  run_id = run_id;
  traceparent = row.traceparent;
}

-- After the UPDATE.
answer : Bootstrap → Result (Unit {0}) × Db → Reply Bootstrap × Db
answer bootstrap (ok _, db) = (reply bootstrap, db)
answer bootstrap (err e, db) = (refuse (db_error e), db)

bootstrap_row : String → ℕ → Option RunRow → Db → Reply Bootstrap × Db
bootstrap_row run_id now none db = (refuse not_found, db)
bootstrap_row run_id now (some row) db =
    if is_some row.dispatched_at
    then (refuse gone, db)
    else answer (payload run_id row) (exec (mark_bootstrapped now run_id) db)

unfoldable pub get_bootstrap : String → ℕ → Db → Reply Bootstrap × Db
unfolding bootstrap_row answer
get_bootstrap run_id now db = bootstrap_row run_id now (find_run run_id db.runs) db

-- The middleware and the handler behind it.
then_bootstrap : Reply String → ℕ → Db → Reply Bootstrap × Db
then_bootstrap (refuse e) now db = (refuse e, db)
then_bootstrap (reply run_id) now db = get_bootstrap run_id now db

unfoldable pub bootstrap_request : Option String → ℕ → Db → Reply Bootstrap × Db
unfolding then_bootstrap
bootstrap_request bearer now db = then_bootstrap (verify_run_token bearer db) now db
