-- ===== src/Repo/Command.antt =====
-- The commands that come over SSH: quire-server/src/bin/quire/commands/exec.rs. How a line is
-- split into words is an argument, and a process that replaces this one is a result.
use quire.Prelude.{
  ℕ, ◌≤◌, ◌≡◌, ◌∙◌, refl, sym, ap, Bool, true, false, ◌&&◌, ◌||◌, Option, none, some, List, [], ◌∷◌,
  ◌++◌, any, length, eqb, arith, inl, inr, ◌⊎◌, Bool-cases, and_true, if_true, if_false, ◌==◌,
  ==_iff, bytes_eq, if◌then◌else◌,
}
use mathlib.Core.Path.{subst}
use quire.Prelude.Bytes.{Bytes, bytes}
use quire.Repo.{
  ParsedName, accepted, refused, split, is_bad_segment, from_str, Directory, join, path, new,
  FoundRepo, found, bad_name, repo_not_found, repo, look_up, walk, is_empty,
}
use quire.Repo.Names.{below, path-below}

pub data Dispatched : Type 0 where
  -- `git <subcommand> .` in a directory
  run_git : Bytes → Directory → Dispatched
  -- `quire <args>`
  run_quire : List Bytes → Dispatched
  failed : Dispatched

-- shell_words::split gets the words joined by spaces.
abbrev pub join_words : List Bytes → Bytes
join_words [] = []
join_words (w ∷ []) = w
join_words (w ∷ v ∷ ws) = w ++ b' ' ∷ join_words (v ∷ ws)

-- str::trim_start_matches
abbrev pub trim_start : ℕ → Bytes → Bytes
trim_start b [] = []
trim_start b (c ∷ s) = let rest = trim_start b s in if eqb c b then rest else c ∷ s

abbrev pub git_commands : List Bytes
git_commands = bytes "git-receive-pack" ∷ bytes "git-upload-pack" ∷ bytes "git-upload-archive" ∷ []

-- str::strip_prefix of `git-`
abbrev pub strip_git : Bytes → Option Bytes
strip_git (a ∷ b ∷ c ∷ d ∷ s) = if a ∷ b ∷ c ∷ d ∷ [] == bytes "git-" then some s else none
strip_git _ = none

in_repo : Option Bytes → FoundRepo → Dispatched
in_repo none r = failed
in_repo (some sub) (found r) = run_git sub (path r)
in_repo (some sub) (bad_name e) = failed
in_repo (some sub) (repo_not_found name) = failed

unfoldable pub dispatch_git : (Directory → Bool) → Directory → Bytes → List Bytes → Dispatched
unfolding in_repo
dispatch_git is_dir base_dir git_cmd (arg ∷ []) = elim (trim_start b'/' arg) [
  | [] ↦ failed
  | c ∷ s ↦ in_repo (strip_git git_cmd) (repo is_dir base_dir (c ∷ s))
]
dispatch_git is_dir base_dir git_cmd _ = failed

abbrev pub is_allowed : List Bytes → Bool
is_allowed [] = false
is_allowed (w ∷ []) = w == bytes "repo"
is_allowed (w ∷ v ∷ ws) = w == bytes "repo" || (w == bytes "mirror" && v == bytes "push")

unfoldable pub dispatch_quire : List Bytes → Dispatched
dispatch_quire args = if is_allowed args then run_quire args else failed

unfoldable pub dispatch_words : (Directory → Bool) → Directory → List Bytes → Dispatched
unfolding dispatch_git dispatch_quire
dispatch_words is_dir base_dir [] = failed
dispatch_words is_dir base_dir (cmd ∷ args) =
    if any (λ g. g == cmd) git_commands
    then dispatch_git is_dir base_dir cmd args
    else if cmd == bytes "quire"
    then dispatch_quire args
    else failed

run_split : (Directory → Bool) → Directory → Option (List Bytes) → Dispatched
run_split is_dir base_dir none = failed
run_split is_dir base_dir (some words) = dispatch_words is_dir base_dir words

unfoldable pub run :
    (Bytes → Option (List Bytes)) → (Directory → Bool) → Directory → List Bytes → Dispatched
unfolding run_split
run shell_split is_dir base_dir command =
    run_split is_dir base_dir (shell_split (join_words command))

-- What a command over SSH may do.
abbrev pub IsPermitted : (Directory → Bool) → Directory → Dispatched → Type 0
IsPermitted is_dir base_dir failed = Unit
IsPermitted is_dir base_dir (run_quire args) =
    ((rest : List Bytes) × (args ≡ bytes "repo" ∷ rest))
    ⊎ ((rest : List Bytes) × (args ≡ bytes "mirror" ∷ bytes "push" ∷ rest))
IsPermitted is_dir base_dir (run_git sub dir) =
    (s : Bytes) × (dir ≡ below (bytes "repos" ∷ base_dir) (split b'/' s))
    × (any is_bad_segment (split b'/' s) ≡ false)
    × (length (split b'/' s) ≤ 2)
    × (is_dir dir ≡ true)
    × (any (λ g. g == sub)
          (bytes "receive-pack" ∷ bytes "upload-pack" ∷ bytes "upload-archive" ∷ [])
        ≡ true)

abbrev pub subcommands : List Bytes
subcommands = bytes "receive-pack" ∷ bytes "upload-pack" ∷ bytes "upload-archive" ∷ []

one_of_three :
    (a b c x : Bytes) → any (λ g. g == x) (a ∷ b ∷ c ∷ []) ≡ true → (a ≡ x) ⊎ ((b ≡ x) ⊎ (c ≡ x))
one_of_three a b c x h = elim (Bool-cases (a == x)) [
  | inl e ↦ inl ((==_iff a x).0 e)
  | inr e ↦ elim (Bool-cases (b == x)) [
    | inl f ↦ inr (inl ((==_iff b x).0 f))
    | inr f ↦ inr (inr ((==_iff c x).0 (last (a == x) (b == x) (c == x) e f h)))
  ]
]
  where
    last : (p q r : Bool) → p ≡ false → q ≡ false → (p || (q || (r || false))) ≡ true → r ≡ true
    last p q r e f h = ground arith

some-injective : (a b : Bytes) → some a ≡ some b → a ≡ b
some-injective a b h = cc

is_subcommand :
    (known sub : Bytes)
    → any (λ g. g == known) subcommands ≡ true
    → some known ≡ some sub
    → any (λ g. g == sub) subcommands ≡ true
is_subcommand known sub h e =
    subst (λ x. any (λ g. g == x) subcommands ≡ true) (some-injective known sub e) h

strip_git-known :
    (cmd sub : Bytes)
    → any (λ g. g == cmd) git_commands ≡ true
    → strip_git cmd ≡ some sub
    → any (λ g. g == sub) subcommands ≡ true
strip_git-known cmd sub h k =
    elim (one_of_three (bytes "git-receive-pack") (bytes "git-upload-pack")
      (bytes "git-upload-archive") cmd h) [
        | inl e ↦ is_subcommand (bytes "receive-pack") sub refl (ap (λ x. strip_git x) e ∙ k)
        | inr (inl e) ↦ is_subcommand (bytes "upload-pack") sub refl (ap (λ x. strip_git x) e ∙ k)
        | inr (inr e) ↦
            is_subcommand (bytes "upload-archive") sub refl (ap (λ x. strip_git x) e ∙ k)
      ]

module _ (is_dir : Directory → Bool) (base_dir : Directory) where
  found-IsPermitted :
      (b : Bool) (sub n name : Bytes)
      → from_str n ≡ accepted name
      → any (λ g. g == sub) subcommands ≡ true
      → is_dir (path (new (bytes "repos" ∷ base_dir) name)) ≡ b
      → IsPermitted is_dir base_dir (
          in_repo
            (some sub)
            (if b then found (new (bytes "repos" ∷ base_dir) name) else repo_not_found name))
  unfolding in_repo
  found-IsPermitted true sub n name e g d =
      let (at, _, few, good, _) = path-below base_dir n name e in (n, at, good, few, d, g)
  found-IsPermitted false sub n name e g d = tt

  look_up-IsPermitted :
      (sub n : Bytes) (p : ParsedName)
      → from_str n ≡ p
      → any (λ g. g == sub) subcommands ≡ true
      → IsPermitted is_dir base_dir (in_repo (some sub) (look_up is_dir base_dir p))
  unfolding in_repo look_up join walk split is_empty
  look_up-IsPermitted sub n (refused x) e g = tt
  look_up-IsPermitted sub n (accepted name) e g =
      found-IsPermitted (is_dir (path (new (bytes "repos" ∷ base_dir) name))) sub n name e g refl

  in_repo-IsPermitted :
      (o : Option Bytes) (n : Bytes)
      → ((sub : Bytes) → o ≡ some sub → any (λ g. g == sub) subcommands ≡ true)
      → IsPermitted is_dir base_dir (in_repo o (repo is_dir base_dir n))
  unfolding repo
  in_repo-IsPermitted none n h = unfold in_repo in tt
  in_repo-IsPermitted (some sub) n h = look_up-IsPermitted sub n (from_str n) refl (h sub refl)

  dispatch_git-IsPermitted :
      (cmd : Bytes) (args : List Bytes)
      → any (λ g. g == cmd) git_commands ≡ true
      → IsPermitted is_dir base_dir (dispatch_git is_dir base_dir cmd args)
  unfolding dispatch_git
  dispatch_git-IsPermitted cmd [] h = tt
  dispatch_git-IsPermitted cmd (a ∷ b ∷ args) h = tt
  dispatch_git-IsPermitted cmd (arg ∷ []) h = trimmed (trim_start b'/' arg)
    where
      trimmed :
          (t : Bytes)
          → IsPermitted is_dir base_dir (elim t [
            | [] ↦ failed
            | c ∷ s ↦ in_repo (strip_git cmd) (repo is_dir base_dir (c ∷ s))
          ])
      trimmed [] = tt
      trimmed (c ∷ s) =
          in_repo-IsPermitted (strip_git cmd) (c ∷ s) (λ sub e. strip_git-known cmd sub h e)

  run_quire-IsPermitted :
      (args : List Bytes) → is_allowed args ≡ true → IsPermitted is_dir base_dir (run_quire args)
  run_quire-IsPermitted [] h = absurd (ground (arith, h))
  run_quire-IsPermitted (w ∷ []) h =
      inl ([], ap (λ (x : Bytes). x ∷ []) ((==_iff w (bytes "repo")).0 h))
  run_quire-IsPermitted (w ∷ v ∷ ws) h = elim (Bool-cases (w == bytes "repo")) [
    | inl e ↦ inl (v ∷ ws, ap (λ (x : Bytes). x ∷ v ∷ ws) ((==_iff w (bytes "repo")).0 e))
    | inr e ↦
        let (a, b) = and_true (w == bytes "mirror") (v == bytes "push") (second _ _ e h) in
        inr (
          ws,
          ap (λ (x : Bytes). x ∷ v ∷ ws) ((==_iff w (bytes "mirror")).0 a)
              ∙ ap (λ (x : Bytes). bytes "mirror" ∷ x ∷ ws) ((==_iff v (bytes "push")).0 b),
        )
  ]
    where
      second : (p q : Bool) → p ≡ false → (p || q) ≡ true → q ≡ true
      second p q e k = ground arith

  dispatch_quire-IsPermitted :
      (args : List Bytes) → IsPermitted is_dir base_dir (dispatch_quire args)
  unfolding dispatch_quire
  dispatch_quire-IsPermitted args = elim (Bool-cases (is_allowed args)) [
    | inl e ↦
        subst (IsPermitted is_dir base_dir) (sym (if_true _ _ _ e)) (run_quire-IsPermitted args e)
    | inr e ↦ rw e tt
  ]

  dispatch_words-IsPermitted :
      (words : List Bytes) → IsPermitted is_dir base_dir (dispatch_words is_dir base_dir words)
  unfolding dispatch_words
  dispatch_words-IsPermitted [] = tt
  dispatch_words-IsPermitted (cmd ∷ args) = elim (Bool-cases (any (λ g. g == cmd) git_commands)) [
    | inl e ↦
        subst (IsPermitted is_dir base_dir) (sym (if_true _ _ _ e))
          (dispatch_git-IsPermitted cmd args e)
    | inr e ↦
        subst (IsPermitted is_dir base_dir) (sym (if_false _ _ _ e))
          (quire_or_not (cmd == bytes "quire"))
  ]
    where
      quire_or_not :
          (b : Bool) → IsPermitted is_dir base_dir (if b then dispatch_quire args else failed)
      quire_or_not true = dispatch_quire-IsPermitted args
      quire_or_not false = tt

-- Whatever comes over SSH and however it is split into words, it is refused, or runs `quire repo …`
-- or `quire mirror push …`, or one of the three git commands in an existing directory that lies one
-- or two components below `repos`, none of them empty, a dot, two dots or `.git`.
pub run-IsPermitted :
    (shell_split : Bytes → Option (List Bytes)) (is_dir : Directory → Bool) (base_dir : Directory)
    (command : List Bytes)
    → IsPermitted is_dir base_dir (run shell_split is_dir base_dir command)
unfolding run
run-IsPermitted shell_split is_dir base_dir command = split_words (shell_split (join_words command))
  where
    split_words :
        (o : Option (List Bytes)) → IsPermitted is_dir base_dir (run_split is_dir base_dir o)
    split_words none = unfold run_split in tt
    split_words (some words) = unfold run_split in dispatch_words-IsPermitted is_dir base_dir words
