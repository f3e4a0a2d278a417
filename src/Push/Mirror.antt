-- ===== src/Push/Mirror.antt =====
-- Mirroring: quire-server/src/mirror.rs, and the command of
-- quire-server/src/bin/quire/commands/mirror.rs. The disk, git, base64 and the configuration at a
-- commit are parameters. The cells of the secrets of `quire.config`, which `reveal` fills behind a
-- shared reference, are passed on from call to call. The entries of a `HashMap` are walked in one
-- order as long as it does not change.
pub mod Partition
use quire.Prelude.{
  ℕ, ◌+◌, String, Bool, true, false, not, Option, none, some, List, [], ◌∷◌, ◌++◌, map, select, any,
  length, lookup, insert, ◌==◌, bytes_eq, is_none, if◌then◌else◌,
}
use quire.Prelude.Bytes.{Bytes, bytes}
use quire.Secret.{
  SecretError, unknown_secret, Outcome, value, error, ReadResult, SecretSource, reveal,
}
use quire.Repo.{Directory, Repo, FoundRepo, found, bad_name, repo_not_found, RepoNameError, repo}
use quire.Push.{PushRef, PushEvent, updated_refs}
use quire.Push.Hook.{is_whitespace}

pub data PushError : Type 0 where
  rejected : Bytes → PushError
  secret : SecretError → PushError
  spawn : PushError

pub record PushFailure : Type 0 where
  pub url : Bytes
  pub cause : PushError

pub record PushOutcome : Type 0 where
  pub pushed : List Bytes
  pub failed : List PushFailure

-- What becomes of a call of git: its status and one of its outputs, if it runs at all.
pub data GitRun : Type 0 where
  not_run : GitRun
  exited : Bool → Bytes → GitRun

abbrev pub Secrets : Type 0
Secrets = List (Bytes × SecretSource)

-- The urls, each with the name of its secret.
abbrev pub Mirrors : Type 0
Mirrors = List (Bytes × Bytes)

abbrev pub refspec : Bytes → Bytes
refspec r = r ++ b':' ∷ r

abbrev add_failure : Bytes → Option PushError → List PushFailure → List PushFailure
add_failure url none fs = fs
add_failure url (some cause) fs = record { url = url; cause = cause } ∷ fs

-- The two arms of the `match` in `push_ref`.
unfoldable pub report_all : Mirrors → List PushFailure → PushOutcome
report_all mirrors [] = record { pushed = map (λ (m : Bytes × Bytes). m.0) mirrors; failed = [] }
report_all mirrors (f ∷ fs) = record {
  pushed =
      select (λ url. not (any (λ (g : PushFailure). g.url == url) (f ∷ fs)))
        (map (λ (m : Bytes × Bytes). m.0) mirrors);
  failed = f ∷ fs;
}

abbrev pub drop_whitespace : Bytes → Bytes
drop_whitespace [] = []
drop_whitespace (c ∷ s) = if is_whitespace c then drop_whitespace s else c ∷ s

abbrev pub reverse : Bytes → Bytes
reverse [] = []
reverse (c ∷ s) = reverse s ++ c ∷ []

-- str::trim
abbrev pub trim : Bytes → Bytes
trim s = reverse (drop_whitespace (reverse (drop_whitespace s)))

pub data ResolvedRef : Type 0 where
  git_failed no_ref : ResolvedRef
  resolved : Bytes → ResolvedRef

nonempty : Bytes → ResolvedRef
nonempty [] = no_ref
nonempty (c ∷ s) = resolved (c ∷ s)

-- What `git rev-parse --verify --quiet` wrote to its output.
unfoldable pub resolve_ref : GitRun → ResolvedRef
unfolding nonempty
resolve_ref not_run = git_failed
resolve_ref (exited false out) = no_ref
resolve_ref (exited true out) = nonempty (trim out)

pub data PushRefError : Type 0 where
  repo_name : RepoNameError → PushRefError
  no_repo ref_not_found : Bytes → PushRefError
  io config : PushRefError

pub data PushResult : Type 0 where
  done : PushOutcome → PushResult
  failure : PushRefError → PushResult

-- What `quire mirror push` writes of an outcome; the counts are those of its error.
pub data Report : Type 0 where
  no_mirrors : Report
  lines : List Bytes → List PushFailure → Option (ℕ × ℕ) → Report

bailed : List Bytes → List PushFailure → Option (ℕ × ℕ)
bailed pushed [] = none
bailed pushed (f ∷ fs) = some (length (f ∷ fs), length pushed + length (f ∷ fs))

unfoldable pub push : PushOutcome → Report
unfolding bailed
push o = elim o.pushed [
  | [] ↦ elim o.failed [ [] ↦ no_mirrors | f ∷ fs ↦ lines [] (f ∷ fs) (bailed [] (f ∷ fs)) ]
  | url ∷ urls ↦ lines (url ∷ urls) o.failed (bailed (url ∷ urls) o.failed)
]

-- `git_push` runs `git push --porcelain` with a url, a refspec and the header in its environment.
module _ (disk : String → ReadResult) (git_push : Bytes → Bytes → Bytes → GitRun)
    (base64 : Bytes → Bytes) where
  abbrev pub auth_header : Bytes → Bytes
  auth_header token = bytes "Authorization: Basic " ++ base64 (token ++ bytes ":x-oauth-basic")

  abbrev pushed_by : GitRun → Option PushError
  pushed_by not_run = some spawn
  pushed_by (exited true stderr) = none
  pushed_by (exited false stderr) = some (rejected stderr)

  push_with : Bytes → Bytes → Outcome → Option PushError
  push_with ref_name url (error e) = some (secret e)
  push_with ref_name url (value token) =
      pushed_by (git_push url (refspec ref_name) (auth_header token))

  push_remote_at :
      Bytes → Bytes → Bytes → Option SecretSource → Secrets → Option PushError × Secrets
  unfolding push_with
  push_remote_at ref_name url name none secrets = (some (secret (unknown_secret name)), secrets)
  push_remote_at ref_name url name (some source) secrets =
      let (o, source') = reveal disk source in
      (push_with ref_name url o, insert name source' secrets)

  -- The cause of the failure, or `none`.
  unfoldable pub push_remote : Bytes → Bytes → Bytes → Secrets → Option PushError × Secrets
  unfolding push_remote_at
  push_remote ref_name url name secrets =
      push_remote_at ref_name url name (lookup name secrets) secrets

  unfoldable pub push_all : Bytes → Mirrors → Secrets → List PushFailure × Secrets
  push_all ref_name [] secrets = ([], secrets)
  push_all ref_name ((url, name) ∷ ms) secrets =
      let (cause, secrets1) = push_remote ref_name url name secrets in
      let (failures, secrets2) = push_all ref_name ms secrets1 in
      (add_failure url cause failures, secrets2)

  -- Mirror::new, with the mirrors of the configuration at the commit, if it can be read
  module _ (repo_config : Bytes → Option Mirrors) where
    push_all_at : Bytes → Option Mirrors → Secrets → PushResult × Secrets
    push_all_at ref_name none secrets = (failure config, secrets)
    push_all_at ref_name (some mirrors) secrets =
        let (failures, secrets1) = push_all ref_name mirrors secrets in
        (done (report_all mirrors failures), secrets1)

    push_sha : Bytes → ResolvedRef → Secrets → PushResult × Secrets
    unfolding push_all_at
    push_sha ref_name git_failed secrets = (failure io, secrets)
    push_sha ref_name no_ref secrets = (failure (ref_not_found ref_name), secrets)
    push_sha ref_name (resolved sha) secrets = push_all_at ref_name (repo_config sha) secrets

    push_in : Bytes → GitRun → FoundRepo → Secrets → PushResult × Secrets
    unfolding push_sha
    push_in ref_name rev_parse (bad_name e) secrets = (failure (repo_name e), secrets)
    push_in ref_name rev_parse (repo_not_found n) secrets = (failure (no_repo n), secrets)
    push_in ref_name rev_parse (found r) secrets = push_sha ref_name (resolve_ref rev_parse) secrets

    unfoldable pub push_ref :
        (Directory → Bool) → Directory → Bytes → Bytes → GitRun → Secrets → PushResult × Secrets
    unfolding push_in
    push_ref is_dir base_dir name ref_name rev_parse secrets =
        push_in ref_name rev_parse (repo is_dir base_dir name) secrets

    mirror_one : PushRef → Option Mirrors → Secrets → List PushFailure × Secrets
    mirror_one r none secrets = ([], secrets)
    mirror_one r (some mirrors) secrets = push_all r.ref_name mirrors secrets

    -- The loop; the result is the failures that are logged, each with its ref.
    unfoldable pub mirror_refs :
        List PushRef → Secrets → List (PushRef × List PushFailure) × Secrets
    unfolding mirror_one
    mirror_refs [] secrets = ([], secrets)
    mirror_refs (r ∷ rs) secrets =
        let (failures, secrets1) = mirror_one r (repo_config r.new_sha) secrets in
        let (logged, secrets2) = mirror_refs rs secrets1 in ((r, failures) ∷ logged, secrets2)

    mirror_in : PushEvent → FoundRepo → Secrets → List (PushRef × List PushFailure) × Secrets
    mirror_in event (found r) secrets = mirror_refs (updated_refs event) secrets
    mirror_in event (bad_name e) secrets = ([], secrets)
    mirror_in event (repo_not_found n) secrets = ([], secrets)

    unfoldable pub trigger :
        (Directory → Bool)
        → Directory
        → PushEvent
        → Secrets
        → List (PushRef × List PushFailure) × Secrets
    unfolding mirror_in
    trigger is_dir base_dir event secrets =
        mirror_in event (repo is_dir base_dir event.repo) secrets
