-- ===== src/Web/Git/Outputs.antt =====
-- What `run_git` gives for a given output of git.
use quire.Prelude.{
  ◌≡◌, ◌∙◌, refl, ap, true, Option, none, some, List, [], ◌∷◌, all, and_true, if_true,
}
use quire.Prelude.Bytes.{Bytes}
use quire.Push.Hook.{is_whitespace}
use quire.Push.Mirror.{drop_whitespace, reverse}
use quire.Web.Git.{run_git, trimmed, unless_empty}

drop_whitespace-all : (s : Bytes) → all is_whitespace s ≡ true → drop_whitespace s ≡ []
drop_whitespace-all [] h = refl
drop_whitespace-all (c ∷ s) h =
    let (here, later) = and_true (is_whitespace c) _ h in
    if_true _ _ _ here ∙ drop_whitespace-all s later

pub run_git-blank :
    (git : List Bytes → Option Bytes) (args : List Bytes) (out : Bytes)
    → git args ≡ some out
    → all is_whitespace out ≡ true
    → run_git git args ≡ none
unfolding run_git trimmed
run_git-blank git args out h b =
    ap trimmed h
    ∙ ap (λ s. unless_empty (reverse (drop_whitespace (reverse s)))) (drop_whitespace-all out b)

pub run_git-none :
    (git : List Bytes → Option Bytes) (args : List Bytes)
    → git args ≡ none
    → run_git git args ≡ none
unfolding run_git trimmed
run_git-none git args h = ap trimmed h
