-- ===== src/Config/Absent.antt =====
-- What the server does without a configuration.
use quire.Prelude.{
  String, ◌≡◌, refl, Bool, false, Option, none, some, List, [], ◌∷◌, ◌++◌, map, All,
}
use quire.Prelude.Bytes.{Bytes, bytes}
use quire.Secret.{ReadResult}
use quire.Repo.{Directory, found, Repo, repo}
use quire.Push.{PushRef}
use quire.Push.Mirror.{
  GitRun, exited, Mirrors, Secrets, PushOutcome, done, resolved, resolve_ref, push, no_mirrors,
  push_ref, mirror_refs, push_all, report_all,
}
use quire.Config.{
  Loaded, loaded, GlobalTable, load_config, load_config_str, text, not_there, load, default,
  deserialized, repo_config, mirrors_of,
}

abbrev pub empty_table : GlobalTable
empty_table = record { sentry = none; secrets = none; port = none; host = none; executor = none }

-- Without a file, the configuration is that of a file with an empty table.
load-not_there :
    (load_string : Bytes → Bytes → Loaded GlobalTable) (path source : Bytes)
    → load_string source path ≡ loaded empty_table
    → load load_string path (text source) ≡ load load_string path not_there
unfolding load load_config load_config_str default deserialized
load-not_there load_string path source h = rw h refl

abbrev pub object_of : Bytes → Bytes
object_of sha = sha ++ bytes ":.quire/config.fnl"

abbrev pub nothing_pushed : PushOutcome
nothing_pushed = record { pushed = []; failed = [] }

module _ (disk : String → ReadResult) (git_push : Bytes → Bytes → Bytes → GitRun)
    (base64 : Bytes → Bytes) (cat_file show : Bytes → GitRun) (from_utf8 : Bytes → Option Bytes)
    (load_string : Bytes → Bytes → Loaded (Option Mirrors)) where
  abbrev configured : Bytes → Option Mirrors
  configured sha = mirrors_of (repo_config cat_file show from_utf8 load_string sha)

  configured-absent :
      (sha out : Bytes) → cat_file (object_of sha) ≡ exited false out → configured sha ≡ some []
  unfolding repo_config mirrors_of
  configured-absent sha out h = rw h refl

  -- For a repository and a ref that are there, whose commit has no configuration, `quire mirror push` says
  -- that there are no mirrors, and reads no secret.
  push_ref-absent :
      (is_dir : Directory → Bool) (base : Directory) (name ref_name sha out : Bytes) (r : Repo)
      (rev_parse : GitRun) (secrets : Secrets)
      → repo is_dir base name ≡ found r
      → resolve_ref rev_parse ≡ resolved sha
      → cat_file (object_of sha) ≡ exited false out
      → (push_ref disk git_push base64 configured is_dir base name ref_name rev_parse secrets
          ≡ (done nothing_pushed, secrets))
        × (push nothing_pushed ≡ no_mirrors)
  unfolding push_ref push push_all report_all
  push_ref-absent is_dir base name ref_name sha out r rev_parse secrets there at absent =
      (rw (there, at, configured-absent sha out absent) refl, refl)

  abbrev Bare : PushRef → Type 0
  Bare r = (out : Bytes) × (cat_file (object_of r.new_sha) ≡ exited false out)

  -- A push of commits without a configuration mirrors nothing, fails nowhere and reads no secret.
  mirror_refs-absent :
      (rs : List PushRef) (secrets : Secrets)
      → All Bare rs
      → mirror_refs disk git_push base64 configured rs secrets ≡ (map (λ r. (r, [])) rs, secrets)
  unfolding mirror_refs push_all
  mirror_refs-absent [] secrets h = refl
  mirror_refs-absent (r ∷ rs) secrets h =
      rw (configured-absent r.new_sha h.0.0 h.0.1, mirror_refs-absent rs secrets h.1) refl
