-- ===== src/Secret/Tests.antt =====
-- Secrets at concrete inputs.
use quire.Prelude.{◌≡◌, refl, false, none, List, [], ◌∷◌, ◌++◌, arith, bytes_eq}
use quire.Prelude.Bytes.{Bytes, bytes, occurs}
use quire.Secret.{
  unknown_secret, Outcome, value, error, ReadResult, contents, io_error, SecretRegistry, plain,
  file, resolve, redact, reveal, strip_newline, register, entries, redact_all, replace_from,
}
use quire.Secret.Resolved.{Call, resolve_all, resolve_pinned, resolved_hides}
use Prim.Native.String.{String}

abbrev token : Bytes
token = bytes "hunter2hunter2"

abbrev disk : String → ReadResult
disk path = contents (token ++ 10 ∷ [])

abbrev no_disk : String → ReadResult
no_disk path = io_error path

abbrev fetcher : Bytes → Outcome
fetcher name = error (unknown_secret name)

abbrev registry : SecretRegistry
registry = record {
  cache = (bytes "db", file "/run/db" none) ∷ (bytes "s", plain (bytes "longersecret")) ∷ [];
  revealed = [];
}

abbrev calls : List Call
calls =
    record { disk = no_disk; fetcher = fetcher; name = bytes "s" }
    ∷ record { disk = no_disk; fetcher = fetcher; name = bytes "db" }
    ∷ []

second_value_ignored :
    (resolve no_disk fetcher
      (bytes "db")
      (resolve_all calls (resolve disk fetcher (bytes "db") registry).1)).0
    ≡ value token
unfolding resolve reveal strip_newline
second_value_ignored =
    resolve_pinned disk no_disk fetcher fetcher calls (bytes "db") token registry refl

resolved_hides_example :
    occurs token (
      redact
        (bytes "pw=hunter2hunter2;")
        (resolve_all calls (resolve disk fetcher (bytes "db") registry).1))
    ≡ false
unfolding resolve reveal strip_newline resolve_all register
resolved_hides_example =
    resolved_hides disk fetcher calls (bytes "db") token (bytes "pw=hunter2hunter2;") registry refl
      (ground arith) (refl, refl) (refl, (refl, tt))

redacted :
    redact
      (bytes "a longersecret b")
      (record { cache = []; revealed = (bytes "s", bytes "longersecret") ∷ [] })
    ≡ bytes "a {{ s }} b"
unfolding redact entries redact_all replace_from
redacted = refl
