-- ===== src/Config/Tests.antt =====
-- A configuration with a host, and a repository whose configuration is no text.
use quire.Prelude.{◌≡◌, refl, true, none, some, []}
use quire.Prelude.Bytes.{Bytes, bytes}
use quire.Push.Mirror.{GitRun, exited}
use quire.Config.{
  Loaded, loaded, refused, other, GlobalTable, load, load_config, load_config_str, text, unreadable,
  default, deserialized, io_error, repo_config, failed, not_utf8, fennel, mirrors,
}
use quire.Config.Absent.{empty_table}

abbrev with_host : Bytes → Bytes → Loaded GlobalTable
with_host source name = loaded (record empty_table { host = some source })

host_given :
    load with_host (bytes "config.fnl") (text (bytes "git.example"))
    ≡ loaded (record default { host = bytes "git.example" })
unfolding load load_config load_config_str default deserialized
host_given = refl

-- Only a file that is not there is replaced by the defaults.
not_readable : load with_host (bytes "config.fnl") unreadable ≡ refused io_error
unfolding load load_config
not_readable = refl

abbrev there : Bytes → GitRun
there object = exited true []

no_text :
    repo_config there there (λ out. none) (λ source name. loaded none) (bytes "a1")
    ≡ failed not_utf8
unfolding repo_config
no_text = refl

-- A file without the field configures no mirrors, and one that fails to evaluate is an error.
no_field :
    (repo_config there there (λ out. some out) (λ source name. loaded none) (bytes "a1")
      ≡ mirrors [])
    × (repo_config there there (λ out. some out) (λ source name. refused other) (bytes "a1")
        ≡ failed (fennel other))
unfolding repo_config load_config_str
no_field = (refl, refl)
