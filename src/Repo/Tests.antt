-- ===== src/Repo/Tests.antt =====
-- Names and commands at concrete inputs.
use quire.Prelude.{◌≡◌, refl, ◌≤◌, true, false, Option, some, List, [], ◌∷◌, any, length}
use quire.Prelude.Bytes.{Bytes, bytes}
use quire.Repo.{
  from_str, refused, invalid, path, runs_base, new, split, is_empty, is_bad_segment, ends_with,
  join, walk, is_safe_path_segment, Directory, repo,
}
use quire.Repo.Names.{path-below, join-is_safe_path_segment}
use quire.Repo.Command.{
  run, IsPermitted, run-IsPermitted, run_git, run_quire, failed, dispatch_quire, dispatch_words,
  dispatch_git,
}

abbrev base : Directory
base = bytes "quire" ∷ bytes "var" ∷ []

path-below_example :
    (path (new (bytes "repos" ∷ base) (bytes "work/app.git"))
      ≡ bytes "app.git" ∷ bytes "work" ∷ bytes "repos" ∷ base)
    × (runs_base (new (bytes "repos" ∷ base) (bytes "work/app.git"))
        ≡ bytes "app.git" ∷ bytes "work" ∷ bytes "runs" ∷ base)
    × (length (split b'/' (bytes "work/app.git")) ≤ 2)
    × (any is_bad_segment (split b'/' (bytes "work/app.git")) ≡ false)
    × (ends_with (bytes ".git") (bytes "work/app.git") ≡ true)
unfolding from_str split is_bad_segment is_empty
path-below_example = path-below base (bytes "work/app.git") (bytes "work/app.git") refl

safe_segment_joined : join base (bytes "build") ≡ bytes "build" ∷ base
unfolding is_safe_path_segment is_empty
safe_segment_joined = join-is_safe_path_segment base (bytes "build") refl

climbing : from_str (bytes "../app.git") ≡ refused (invalid (bytes "../app.git"))
unfolding from_str is_empty
climbing = refl

abbrev words : Bytes → Option (List Bytes)
words line = some (split b' ' line)

run-IsPermitted_example :
    IsPermitted
      (λ d. true)
      base
      (run words (λ d. true) base (bytes "quire mirror push app.git refs/heads/main" ∷ []))
run-IsPermitted_example =
    run-IsPermitted words (λ d. true) base (bytes "quire mirror push app.git refs/heads/main" ∷ [])

upload_allowed :
    IsPermitted
      (λ d. true)
      base
      (run words (λ d. true) base (bytes "git-upload-pack /app.git" ∷ []))
upload_allowed = run-IsPermitted words (λ d. true) base (bytes "git-upload-pack /app.git" ∷ [])

quire_permitted :
    run words (λ d. true) base (bytes "quire mirror push app.git refs/heads/main" ∷ [])
    ≡ run_quire (bytes "mirror" ∷ bytes "push" ∷ bytes "app.git" ∷ bytes "refs/heads/main" ∷ [])
unfolding run dispatch_words dispatch_quire split
quire_permitted = refl

-- A command of the server that is not for SSH.
serve_refused : run words (λ d. true) base (bytes "quire serve" ∷ []) ≡ failed
unfolding run dispatch_words dispatch_quire split
serve_refused = refl

upload :
    run words (λ d. true) base (bytes "git-upload-pack /app.git" ∷ [])
    ≡ run_git (bytes "upload-pack") (bytes "app.git" ∷ bytes "repos" ∷ base)
unfolding run dispatch_words dispatch_git split repo from_str is_empty is_bad_segment new path join
    walk
upload = refl
