-- ===== src/Repo/Store/Tests.antt =====
-- Repositories made, listed and removed.
use mathlib.Core.Path.{subst}
use quire.Prelude.{
  ◌≡◌, refl, true, false, Option, none, some, List, eqb, arith, map, ◌++◌, if◌then◌else◌, if_false,
  path_eq, [], ◌∷◌, any, ◌==◌, bytes_eq,
}
use quire.Prelude.Bytes.{Bytes, bytes, starts_with}
use quire.Prelude.Sorting.{order_by}
use quire.Repo.{
  from_str, split, is_empty, is_bad_segment, new, path, join, walk, Directory, repo, look_up,
}
use quire.Repo.Store.{
  from_path, from_relative, named, at_or_below, FileSystem, list, is_dir, succeeds, Git,
  new_command, created, removed, rm, normalized, at_or_below, create_dir_all, repos, strip_prefix,
  slashed,
}
use quire.Repo.Store.FromPath.{IsAt, from_path-IsAt}
use quire.Repo.Store.Listed.{list-repo, is_found}
use quire.Repo.Store.Removed.{MakesRepository, rm-new_command}

abbrev base : Directory
base = bytes "quire" ∷ bytes "var" ∷ []

abbrev no_repos : FileSystem
no_repos = (bytes "repos" ∷ base) ∷ base ∷ (bytes "var" ∷ []) ∷ [] ∷ []

abbrev one_repo : FileSystem
one_repo =
    (bytes "hooks" ∷ bytes "app.git" ∷ bytes "repos" ∷ base)
    ∷ (bytes "app.git" ∷ bytes "repos" ∷ base)
    ∷ no_repos

-- `to_string_lossy` at a byte that is in no UTF-8: U+FFFD takes its place.
abbrev lossy : Bytes → Bytes
lossy [] = []
lossy (c ∷ s) = if eqb c 255 then 239 ∷ 191 ∷ 189 ∷ lossy s else c ∷ lossy s

abbrev IsLegible : Option (List Bytes) → Type 0
IsLegible none = Unit
IsLegible (some cs) = lossy (slashed cs) ≡ slashed cs

some-injective : (x y : List Bytes) → some x ≡ some y → x ≡ y
some-injective x y e = cc

utf8 :
    (o : Option (List Bytes))
    → IsLegible o
    → (cs : List Bytes) → o ≡ some cs
    → lossy (slashed cs) ≡ slashed cs
utf8 none h cs e = absurd (ground (arith, e))
utf8 (some x) h cs e =
    subst (λ (y : List Bytes). lossy (slashed y) ≡ slashed y) (some-injective x cs e) h

list-repo_example :
    any (λ m. m == bytes "app.git") (list lossy one_repo base)
    ≡ is_found (repo (is_dir one_repo) base (bytes "app.git"))
unfolding strip_prefix slashed
list-repo_example =
    list-repo lossy one_repo base (bytes "app.git")
      (
        (refl, (refl, (refl, (refl, (refl, tt))))),
        (
          (refl, (refl, (refl, (refl, tt)))),
          ((refl, (refl, (refl, tt))), ((refl, (refl, tt)), ((refl, tt), (tt, tt)))),
        ),
      )
      (utf8 _ refl, (utf8 _ refl, (utf8 _ refl, (utf8 _ tt, (utf8 _ tt, (utf8 _ tt, tt))))))

-- A directory whose name is not UTF-8 is listed by a name that finds nothing.
abbrev not_utf8 : FileSystem
not_utf8 = ((255 ∷ bytes ".git") ∷ bytes "repos" ∷ base) ∷ no_repos

listed_not_found :
    (list lossy not_utf8 base ≡ (239 ∷ 191 ∷ 189 ∷ bytes ".git") ∷ [])
    × (is_found (repo (is_dir not_utf8) base (239 ∷ 191 ∷ 189 ∷ bytes ".git")) ≡ false)
unfolding list repos order_by repo look_up from_str is_empty split is_bad_segment is_dir path join
    walk new strip_prefix slashed
listed_not_found = (refl, refl)

-- Git that takes a name with a hyphen for an option, and makes a repository where it is.
abbrev git : Git
git (a ∷ b ∷ c ∷ n ∷ []) = record {
  made =
      if starts_with (bytes "-") n
      then (bytes "hooks" ∷ join base (bytes "repos")) ∷ []
      else map (λ x. x ++ path (new (join base (bytes "repos")) n))
          ([] ∷ (bytes "hooks" ∷ []) ∷ []);
  success = true;
}
git _ = record { made = []; success = false }

git-MakesRepository : MakesRepository base git
git-MakesRepository n good plain ok = ([] ∷ (bytes "hooks" ∷ []) ∷ [], if_false _ _ _ plain, refl)

-- A name that is accepted, and an option to git: no repository is made of it.
option_name :
    let (made, fs) = new_command base succeeds git (bytes "--template=") no_repos in
    (made ≡ created (bytes "--template=.git"))
    × (is_found (repo (is_dir fs) base (bytes "--template=.git")) ≡ false)
unfolding new_command repo look_up from_str is_empty normalized split is_bad_segment is_dir path
    join walk new create_dir_all
option_name = (refl, refl)

abbrev the_repo : Directory
the_repo = bytes "app.git" ∷ bytes "work" ∷ bytes "repos" ∷ base

abbrev made : FileSystem
made = (new_command base succeeds git (bytes "work/app") no_repos).1

abbrev rest : FileSystem
rest = (rm (λ d. false) base succeeds (bytes "work/app.git") made).1

rm-new_command_example :
    ((new_command base succeeds git (bytes "work/app") no_repos).0 ≡ created (bytes "work/app.git"))
    × (is_found (repo (is_dir made) base (bytes "work/app.git")) ≡ true)
    × ((rm (λ d. false) base succeeds (bytes "work/app.git") made).0 ≡ removed)
    × (is_found (repo (is_dir rest) base (bytes "work/app.git")) ≡ false)
    × (is_dir rest (bytes "other.git" ∷ bytes "repos" ∷ base) ≡ false)
unfolding at_or_below is_dir normalized from_str is_empty is_bad_segment split path new join walk
rm-new_command_example =
    rm-new_command base (bytes "work/app.git") git (λ d. false) (bytes "work/app") no_repos
      (bytes "other.git" ∷ bytes "repos" ∷ base) (refl, (refl, (refl, (refl, tt)))) refl refl refl
      refl git-MakesRepository refl

-- The group of a repository is listed as a repository if its name ends with `.git`.
group_listed :
    list lossy (new_command base succeeds git (bytes "work.git/app") no_repos).1 base
    ≡ bytes "work.git" ∷ bytes "work.git/app.git" ∷ []
unfolding list repos order_by new_command from_str is_empty normalized split is_bad_segment is_dir
    path join walk new strip_prefix slashed create_dir_all
group_listed = refl

from_path-IsAt_example :
    IsAt base
      (bytes "app.git" ∷ bytes "repos" ∷ base)
      (new (bytes "repos" ∷ base) (bytes "app.git"))
unfolding from_path from_relative named strip_prefix slashed from_str is_empty is_bad_segment split
from_path-IsAt_example =
    from_path-IsAt lossy base (bytes "app.git" ∷ bytes "repos" ∷ base) (bytes "app.git")
      (new (bytes "repos" ∷ base) (bytes "app.git")) (refl, (refl, (refl, (refl, tt))))
      (utf8 _ refl) refl
