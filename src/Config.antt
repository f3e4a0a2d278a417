-- ===== src/Config.antt =====
-- What the server reads from `config.fnl`: `Quire::load` and `Repo::repo_config` of
-- quire-server/src/quire/mod.rs with the loading of quire-core/src/fennel.rs. The evaluation of a
-- script and the reading of the table it gives are an argument, as are the calls of git; the
-- warnings on unknown fields are left out.
pub mod Absent
mod Tests
use quire.Prelude.{ℕ, Bool, true, false, Option, none, some, List, [], ◌∷◌, ◌++◌}
use quire.Prelude.Bytes.{Bytes, bytes}
use quire.Secret.{SecretSource}
use quire.Push.Mirror.{GitRun, not_run, exited, Mirrors, Secrets}

pub data FennelError : Type 0 where
  io_not_found io_error other : FennelError

pub data Loaded (T : Type 0) : Type 0 where
  loaded : T → Loaded T
  refused : FennelError → Loaded T

-- std::fs::read_to_string
pub data ReadText : Type 0 where
  text : Bytes → ReadText
  not_there unreadable : ReadText

-- `load_string` has the source and its name.
module _ {T : Type 0} (load_string : Bytes → Bytes → Loaded T) where
  unfoldable pub load_config_str : Bytes → Bytes → Loaded T
  load_config_str source name = load_string source name

  unfoldable pub load_config : Bytes → ReadText → Loaded T
  unfolding load_config_str
  load_config path (text source) = load_config_str source path
  load_config path not_there = refused io_not_found
  load_config path unreadable = refused io_error

pub data Executor : Type 0 where
  process : Executor

pub record GlobalConfig : Type 0 where
  pub sentry : Option SecretSource
  pub secrets : Secrets
  pub port : ℕ
  pub host : Bytes
  pub executor : Executor

-- The keys that a table has.
pub record GlobalTable : Type 0 where
  pub sentry : Option SecretSource
  pub secrets : Option Secrets
  pub port : Option ℕ
  pub host : Option Bytes
  pub executor : Option Executor

abbrev pub default_port : ℕ
default_port = 3000

abbrev pub default_host : Bytes
default_host = bytes "quire"

-- GlobalConfig::default
unfoldable pub default : GlobalConfig
default = record {
  sentry = none;
  secrets = [];
  port = default_port;
  host = default_host;
  executor = process;
}

abbrev or_default {ℓ} : {A : Type ℓ} → Option A → A → A
or_default none d = d
or_default (some a) d = a

-- What serde makes of a table, by the defaults of the fields.
unfoldable pub deserialized : GlobalTable → GlobalConfig
deserialized t = record {
  sentry = t.sentry;
  secrets = or_default t.secrets [];
  port = or_default t.port default_port;
  host = or_default t.host default_host;
  executor = or_default t.executor process;
}

abbrev as_config : Loaded GlobalTable → Loaded GlobalConfig
as_config (loaded t) = loaded (deserialized t)
as_config (refused e) = refused e

abbrev unless_absent : Loaded GlobalConfig → Loaded GlobalConfig
unless_absent (loaded c) = loaded c
unless_absent (refused io_not_found) = loaded default
unless_absent (refused io_error) = refused io_error
unless_absent (refused other) = refused other

-- Quire::load, as the configuration
unfoldable pub load : (Bytes → Bytes → Loaded GlobalTable) → Bytes → ReadText → Loaded GlobalConfig
load load_string path file = unless_absent (as_config (load_config load_string path file))

pub data RepoConfigError : Type 0 where
  io not_utf8 : RepoConfigError
  fennel : FennelError → RepoConfigError

pub data RepoConfig : Type 0 where
  mirrors : Mirrors → RepoConfig
  failed : RepoConfigError → RepoConfig

-- The field `mirrors` has a default.
abbrev repo_table : Loaded (Option Mirrors) → RepoConfig
repo_table (loaded t) = mirrors (or_default t [])
repo_table (refused e) = failed (fennel e)

-- `cat_file` and `show` run git with the name of an object; the status of `git show` is not read.
module _ (cat_file show : Bytes → GitRun) (from_utf8 : Bytes → Option Bytes)
    (load_string : Bytes → Bytes → Loaded (Option Mirrors)) where
  parsed_config : Option Bytes → RepoConfig
  parsed_config none = failed not_utf8
  parsed_config (some source) =
      repo_table (load_config_str load_string source (bytes ".quire/config.fnl"))

  shown_config : GitRun → RepoConfig
  unfolding parsed_config
  shown_config not_run = failed io
  shown_config (exited success stdout) = parsed_config (from_utf8 stdout)

  if_there : GitRun → Bytes → RepoConfig
  unfolding shown_config
  if_there not_run path = failed io
  if_there (exited true out) path = shown_config (show path)
  if_there (exited false out) path = mirrors []

  unfoldable pub repo_config : Bytes → RepoConfig
  unfolding if_there
  repo_config sha = let path = sha ++ bytes ":.quire/config.fnl" in if_there (cat_file path) path

-- What `Mirror::new` has of it.
unfoldable pub mirrors_of : RepoConfig → Option Mirrors
mirrors_of (mirrors ms) = some ms
mirrors_of (failed e) = none
