-- ===== src/Lib.antt =====
-- quire: a personal source forge, whose server runs a CI pipeline for each push.
--
-- The program has three crates. quire-server keeps the repositories and the database of runs; on
-- a push it creates a run (quire-server/src/ci/run.rs), spawns quire-ci (quire-ci/src/main.rs),
-- which asks the run API (quire-server/src/quire/web/api.rs) for what to run and leaves a file of
-- events, and replays that file into its tables. quire-core has what both share.
--
-- `Prelude`: tests, lists, association maps, strings as bytes, integers.
-- `Database`: the rows and the CHECK constraints of quire-server/migrations, `Action`s on them,
-- and in `Database.Statement` each SQL statement of the program that writes.
-- `Runs`: quire-server/src/ci/run.rs. `create`, `cancel_existing`, `dispatch`, `resolve` and the
-- others are the methods of `Runs` and `Run`; `Runs.Api` is the run API, with the
-- secrets and the client that asks for them in `Runs.Api.Secrets`, `Runs.Execute` is
-- `Run::execute`; `Runs.History` has sequences of operations and statements, by which the
-- invariants are stated.
-- `Events`: quire-core/src/ci/event.rs, with `Run::ingest_events` in `Events.Ingest`.
-- `Events.Stream` is the file between the two, by quire-ci/src/sink.rs and the lines that read it.
-- `Executor`: `run_pipeline` of quire-ci/src/main.rs; `Executor.Ingested` and `Executor.Collision`
-- are about what the server makes of its events, and `Executor.Dump` prints the logs of a run.
-- `Secret`: quire-core/src/secret.rs, on bytes; `Secret.resolve` is `SecretRegistry::resolve`,
-- `redact` is the function of that name, whose `str::replace` is `replace_from`.
-- `Repo`: names and places of repositories, quire-server/src/quire/mod.rs and
-- quire-server/src/quire/web/db.rs, with the SSH command of
-- quire-server/src/bin/quire/commands/exec.rs in `Repo.Command`, and in `Repo.Store` the listing of
-- the repositories, `Repo::from_path` and the commands of
-- quire-server/src/bin/quire/commands/repo.rs.
-- `Pipeline`: quire-core/src/ci/registration.rs, with the jobs and spans of
-- quire-core/src/ci/pipeline.rs; `Pipeline.Graph` is the graph, its validation and `compile` there;
-- `Pipeline.Offsets` finds the place of a Lua error, as quire-core/src/fennel.rs does.
-- `Runtime`: quire-core/src/ci/runtime.rs and quire-core/src/ci/logs.rs: the state that `sh`,
-- `secret` and `jobs` share, and in `Runtime.Views` what each job may read of the others, by
-- `Pipeline::transitive_inputs`. The primitives call `Secret.resolve` and `Secret.redact`.
-- `Push`: what a push sets off. `Push` is quire-core/src/event.rs, `Push.Hook` the hook of
-- quire-server/src/bin/quire/commands/hook.rs that sends the event, `Push.Trigger` the server's
-- `trigger` of quire-server/src/ci/mod.rs, which calls `Runs.create` and `Runs.Execute.execute`,
-- `Push.Mirror` is quire-server/src/mirror.rs, and `Push.Local` has the two commands of
-- quire-server/src/bin/quire/commands/ci.rs, which check and run a pipeline by hand.
-- `Config`: `Quire::load` and `Repo::repo_config` of quire-server/src/quire/mod.rs, whose mirrors
-- `Push.Mirror` has as an argument.
-- `Telemetry`: quire-core/src/telemetry.rs, which diagnostic goes with an event sent to Sentry.
-- `Web`: what the pages of quire-server/src/quire/web show: `Web` is format.rs, `Web.Pages` the
-- helpers of templates.rs, `Web.Git` is handlers/git.rs, and `Web.Tree`, `Web.Tree.File` and
-- `Web.Escape` are handlers/tree.rs, `Web.Commit` is handlers/commit.rs, and
-- `Web.Ci` has handlers/ci.rs, db.rs and auth.rs; `Web.Home` is handlers/repo.rs and
-- handlers/log_view.rs; `Web.Routes` has the routers of mod.rs and api.rs with the middleware of
-- auth.rs, as main.rs and server.rs of quire-server/src/bin/quire put them together, and `Web.Repos` the
-- list of handlers/repo_list.rs with where its links lead.
--
-- A statement is atomic, and an operation is the sequence of its statements; times and ids are
-- arguments. The integers of the tables are numbers without a bound, since SQLite's 64 bits hold
-- any time in milliseconds. No definition has fuel: all recursion is on lists. The subprocess, the
-- file system, git, the clock, `to_string_lossy`, serde and petgraph's algorithms are outside and
-- appear as arguments; of SQLite, the effect of each statement of the program on the tables is
-- written out.
--
-- Not modelled, as they are calls of other programs and libraries or pages of text: the web
-- templates, the match of a path by axum, the Lua host but for the place of an error, the
-- set-up of tracing, and the parsing of the command line.
mod Prelude
pub mod Database
pub mod Runs
pub mod Events
pub mod Executor
pub mod Secret
pub mod Repo
pub mod Pipeline
pub mod Push
pub mod Runtime
pub mod Web
pub mod Telemetry
pub mod Config
