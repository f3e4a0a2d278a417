-- ===== src/Repo/Store/Removed.antt =====
-- `quire repo rm` takes away what `quire repo new` makes.
use quire.Prelude.{
  ◌≡◌, ◌∙◌, refl, sym, ap, Bool, true, false, not, ◌&&◌, ◌||◌, List, [], ◌∷◌, ◌++◌, All, any, map,
  select, arith, ◌==◌, ==_iff, ==_refl, bytes_eq, path_eq, if◌then◌else◌, if_true, if_false,
  Bool-cases, inl, inr, any-append,
}
use mathlib.Core.Path.{subst}
use quire.Prelude.Bytes.{Bytes, bytes, starts_with}
use quire.Repo.{
  accepted, ParsedName, Directory, parent, join, path, new, Repo, FoundRepo, found, repo_not_found,
  look_up, repo, from_str,
}
use quire.Repo.Names.{from_str-accepted}
use quire.Repo.Store.{
  FileSystem, is_dir, at_or_below, put_dir, create_dir_all, remove_dir_all, remove_dir, clean_up,
  succeeds, Git, init_args, NewRepo, created, init_failed, create_named, create_at, normalized,
  new_command, RmRepo, removed, rm_repo, rm,
}
use quire.Repo.Store.Listed.{is_found}

-- Every directory stands in one that is there.
abbrev pub IsClosed : FileSystem → Type 0
IsClosed fs = All (λ e. is_dir fs (parent e) ≡ true) fs

is_dir-parent :
    (fs es : FileSystem) (d : Directory)
    → All (λ e. is_dir fs (parent e) ≡ true) es
    → is_dir es d ≡ true
    → is_dir fs (parent d) ≡ true
unfolding is_dir
is_dir-parent fs [] d h k = absurd (ground (arith, k))
is_dir-parent fs (e ∷ es) d h k = elim (Bool-cases (e == d)) [
  | inl same ↦ subst (λ (x : Directory). is_dir fs (parent x) ≡ true) ((==_iff e d).0 same) h.0
  | inr other ↦ is_dir-parent fs es d h.1 (ground (arith, k, other))
]

is_dir-above :
    (fs : FileSystem) (top d : Directory)
    → IsClosed fs
    → is_dir fs d ≡ true
    → at_or_below top d ≡ true
    → is_dir fs top ≡ true
unfolding at_or_below
is_dir-above fs top [] closed h b =
    subst (λ (x : Directory). is_dir fs x ≡ true) ((==_iff [] top).0 b) h
is_dir-above fs top (c ∷ d) closed h b = elim (Bool-cases ((c ∷ d) == top)) [
  | inl same ↦ subst (λ (x : Directory). is_dir fs x ≡ true) ((==_iff (c ∷ d) top).0 same) h
  | inr other ↦
      is_dir-above fs top d closed (is_dir-parent fs fs (c ∷ d) closed h)
        (sym (ap (λ x. x || at_or_below top d) other) ∙ b)
]

at_or_below_refl : (d : Directory) → at_or_below d d ≡ true
unfolding at_or_below
at_or_below_refl [] = refl
at_or_below_refl (c ∷ d) = ap (λ b. b || at_or_below (c ∷ d) d) (==_refl (c ∷ d))

at_or_below-parent : (d : Directory) → at_or_below (parent d) d ≡ true
unfolding at_or_below
at_or_below-parent [] = refl
at_or_below-parent (c ∷ d) = ground (arith, at_or_below_refl d)

at_or_below-up : (d p : Directory) → at_or_below d p ≡ false → at_or_below d (parent p) ≡ false
unfolding at_or_below
at_or_below-up d [] h = h
at_or_below-up d (c ∷ p) h = ground (arith, h)

at_or_below-append : (x p : Directory) → at_or_below p (x ++ p) ≡ true
unfolding at_or_below
at_or_below-append [] p = at_or_below_refl p
at_or_below-append (c ∷ x) p = ground (arith, at_or_below-append x p)

is_dir-put_dir :
    (e d : Directory) (fs : FileSystem) → is_dir (put_dir e fs) d ≡ (is_dir fs d || e == d)
unfolding is_dir
is_dir-put_dir e d fs = elim (Bool-cases (is_dir fs e)) [
  | inl there ↦ ap (λ (x : FileSystem). is_dir x d) (if_true _ _ _ there) ∙ absorbed there
  | inr new ↦ ap (λ (x : FileSystem). is_dir x d) (if_false _ _ _ new) ∙ swap (e == d) (is_dir fs d)
]
  where
    swap : (a b : Bool) → (a || b) ≡ (b || a)
    swap a b = ground arith

    absorbed : is_dir fs e ≡ true → is_dir fs d ≡ (is_dir fs d || e == d)
    absorbed there = elim (Bool-cases (e == d)) [
      | inl same ↦
          let t = subst (λ (x : Directory). is_dir fs x ≡ true) ((==_iff e d).0 same) there in
          t ∙ sym (ap (λ b. b || e == d) t)
      | inr other ↦ sym (ap (λ b. is_dir fs d || b) other ∙ swap (is_dir fs d) false)
    ]

is_dir-create_dir_all :
    (p d : Directory) (fs : FileSystem)
    → is_dir (create_dir_all p fs) d ≡ (is_dir fs d || at_or_below d p)
unfolding create_dir_all at_or_below
is_dir-create_dir_all [] d fs = is_dir-put_dir [] d fs
is_dir-create_dir_all (c ∷ p) d fs =
    is_dir-put_dir (c ∷ p) d (create_dir_all p fs) ∙ ground (arith, is_dir-create_dir_all p d fs)

is_dir-select :
    (q : Directory → Bool) (d : Directory) (fs : FileSystem)
    → is_dir (select q fs) d ≡ (is_dir fs d && q d)
unfolding is_dir
is_dir-select q d [] = refl
is_dir-select q d (e ∷ fs) = elim (Bool-cases (e == d)) [
  | inl same ↦ at_d (q e) (ap q ((==_iff e d).0 same)) same (is_dir-select q d fs)
  | inr other ↦ off_d (q e) other (is_dir-select q d fs)
]
  where
    at_d :
        (b : Bool)
        → b ≡ q d
        → (e == d) ≡ true
        → any (λ x. x == d) (select q fs) ≡ (any (λ x. x == d) fs && q d)
        → any (λ x. x == d) (if b then e ∷ select q fs else select q fs)
          ≡ ((e == d || any (λ x. x == d) fs) && q d)
    at_d true h same ih = ground (arith, h, same, ih)
    at_d false h same ih = ground (arith, h, same, ih)

    off_d :
        (b : Bool)
        → (e == d) ≡ false
        → any (λ x. x == d) (select q fs) ≡ (any (λ x. x == d) fs && q d)
        → any (λ x. x == d) (if b then e ∷ select q fs else select q fs)
          ≡ ((e == d || any (λ x. x == d) fs) && q d)
    off_d true other ih = ground (arith, other, ih)
    off_d false other ih = ground (arith, other, ih)

-- A directory that is no group of the repository keeps its place when groups are cleaned up.
is_dir-clean_up :
    (has_files : Directory → Bool) (repos_dir group d : Directory) (fs : FileSystem)
    → (d == group) ≡ false
    → is_dir (clean_up has_files repos_dir group fs) d ≡ is_dir fs d
unfolding clean_up remove_dir
is_dir-clean_up has_files repos_dir group d fs other =
    by (group == repos_dir)
      (has_files group || any (λ e. at_or_below group e && not (e == group)) fs)
  where
    by :
        (a b : Bool)
        → is_dir (if a then fs else if b then fs else select (λ e. not (e == group)) fs) d
          ≡ is_dir fs d
    by true b = refl
    by false true = refl
    by false false = is_dir-select _ d fs ∙ ground (arith, other)

-- What `git init` makes is below the repository.
is_dir-made :
    (p d : Directory) (made : List Directory)
    → at_or_below p d ≡ false
    → any (λ e. e == d) (map (λ x. x ++ p) made) ≡ false
is_dir-made p d [] h = refl
is_dir-made p d (x ∷ made) h =
    ap (λ b. b || any (λ e. e == d) (map (λ x. x ++ p) made)) not_here ∙ is_dir-made p d made h
  where
    not_here : ((x ++ p) == d) ≡ false
    not_here = elim (Bool-cases ((x ++ p) == d)) [
      | inl same ↦ absurd (
          ground (
            arith,
            h,
            subst (λ (y : Directory). at_or_below p y ≡ true) ((==_iff (x ++ p) d).0 same)
                (at_or_below-append x p),
          ))
      | inr other ↦ other
    ]

is_dir-repository :
    (p : Directory) (made : List Directory)
    → any (λ d. d == []) made ≡ true
    → any (λ e. e == p) (map (λ x. x ++ p) made) ≡ true
is_dir-repository p [] h = absurd (ground (arith, h))
is_dir-repository p (x ∷ made) h = elim (Bool-cases (x == [])) [
  | inl here ↦
      ap (λ b. b || any (λ e. e == p) (map (λ x. x ++ p) made))
        (ap (λ (y : Directory). (y ++ p) == p) ((==_iff x []).0 here) ∙ ==_refl p)
  | inr other ↦
      ap (λ b. ((x ++ p) == p) || b) (is_dir-repository p made (ground (arith, h, other)))
      ∙ any_true ((x ++ p) == p)
]
  where
    any_true : (b : Bool) → (b || true) ≡ true
    any_true b = ground arith

-- When git succeeds to make a repository of an accepted name that is no option, it makes the directory of the name, and
-- all else that it makes is below.
abbrev pub MakesRepository : Directory → Git → Type 0
MakesRepository base git =
    (n : Bytes)
    → from_str n ≡ accepted n
    → starts_with (bytes "-") n ≡ false
    → (git (init_args n)).success ≡ true
    → (ways : List Directory) × ((git (init_args n)).made
        ≡ map (λ x. x ++ path (new (join base (bytes "repos")) n)) ways)
      × (any (λ d. d == []) ways ≡ true)

module _ (base : Directory) (name : Bytes) (ways : List Directory) where
  abbrev the_repo : Repo
  the_repo = new (join base (bytes "repos")) name

  abbrev made_in : FileSystem → FileSystem
  made_in fs = map (λ x. x ++ path the_repo) ways ++ create_dir_all (parent (path the_repo)) fs

  new_command-created :
      (git : Git) (raw : Bytes) (fs : FileSystem)
      → from_str (normalized raw) ≡ accepted name
      → is_dir fs (path the_repo) ≡ false
      → (git (init_args name)).success ≡ true
      → (git (init_args name)).made ≡ map (λ x. x ++ path the_repo) ways
      → new_command base succeeds git raw fs ≡ (created name, made_in fs)
  unfolding new_command create_named create_at new
  new_command-created git raw fs good absent success made =
      ap (λ (p : ParsedName). create_named (join base (bytes "repos")) succeeds git p fs) good
      ∙ if_false _ _ _ absent
      ∙ ap
          (λ (b : Bool). (
            if b then created name else init_failed,
            (git (init_args name)).made ++ create_dir_all (parent (path the_repo)) fs,
          ))
          success
      ∙ ap (λ (x : List Directory). (created name, x ++ create_dir_all (parent (path the_repo)) fs))
          made

  abbrev removed_in : (Directory → Bool) → FileSystem → FileSystem
  removed_in has_files fs =
      clean_up has_files (join base (bytes "repos")) (parent (path the_repo))
        (remove_dir_all (path the_repo) fs)

  repo-found :
      (fs : FileSystem)
      → from_str name ≡ accepted name
      → is_dir fs (path the_repo) ≡ true
      → repo (is_dir fs) base name ≡ found the_repo
  unfolding repo look_up
  repo-found fs good there =
      ap (λ (p : ParsedName). look_up (is_dir fs) base p) good ∙ if_true _ _ _ there

  repo-gone :
      (fs : FileSystem)
      → from_str name ≡ accepted name
      → is_dir fs (path the_repo) ≡ false
      → is_found (repo (is_dir fs) base name) ≡ false
  unfolding repo look_up
  repo-gone fs good gone =
      ap (λ (p : ParsedName). is_found (look_up (is_dir fs) base p)) good
      ∙ ap is_found
          (if_false (is_dir fs (path the_repo)) (found the_repo) (repo_not_found name) gone)

  rm-removed :
      (has_files : Directory → Bool) (fs : FileSystem)
      → from_str name ≡ accepted name
      → is_dir fs (path the_repo) ≡ true
      → rm has_files base succeeds name fs ≡ (removed, removed_in has_files fs)
  unfolding rm rm_repo
  rm-removed has_files fs good there =
      ap (λ (o : FoundRepo). rm_repo has_files (join base (bytes "repos")) succeeds o fs)
        (repo-found fs good there)

  is_dir-made_in :
      (fs : FileSystem) (d : Directory)
      → at_or_below d (path the_repo) ≡ false
      → at_or_below (path the_repo) d ≡ false
      → is_dir (made_in fs) d ≡ is_dir fs d
  unfolding is_dir
  is_dir-made_in fs d off out =
      any-append (λ e. e == d) (map (λ x. x ++ path the_repo) ways) _
      ∙ ap (λ b. b || is_dir (create_dir_all (parent (path the_repo)) fs) d)
          (is_dir-made (path the_repo) d ways out)
      ∙ is_dir-create_dir_all (parent (path the_repo)) d fs
      ∙ ap (λ b. is_dir fs d || b) (at_or_below-up d (path the_repo) off)
      ∙ or_nothing (is_dir fs d)
    where
      or_nothing : (b : Bool) → (b || false) ≡ b
      or_nothing b = ground arith

  there-made_in :
      (fs : FileSystem)
      → any (λ d. d == []) ways ≡ true
      → is_dir (made_in fs) (path the_repo) ≡ true
  unfolding is_dir
  there-made_in fs h =
      any-append (λ e. e == path the_repo) (map (λ x. x ++ path the_repo) ways) _
      ∙ ap (λ b. b || is_dir (create_dir_all (parent (path the_repo)) fs) (path the_repo))
          (is_dir-repository (path the_repo) ways h)

  group_apart :
      (d : Directory)
      → at_or_below d (path the_repo) ≡ false
      → (d == parent (path the_repo)) ≡ false
  group_apart d off = elim (Bool-cases (d == parent (path the_repo))) [
    | inl same ↦ absurd (
        ground (
          arith,
          off,
          subst (λ (x : Directory). at_or_below x (path the_repo) ≡ true)
              (sym ((==_iff d (parent (path the_repo))).0 same))
              (at_or_below-parent (path the_repo)),
        ))
    | inr other ↦ other
  ]

  is_dir-removed_in :
      (has_files : Directory → Bool) (fs : FileSystem) (d : Directory)
      → IsClosed fs
      → is_dir fs (path the_repo) ≡ false
      → at_or_below d (path the_repo) ≡ false
      → is_dir (removed_in has_files (made_in fs)) d ≡ is_dir fs d
  unfolding remove_dir_all
  is_dir-removed_in has_files fs d closed absent off =
      is_dir-clean_up has_files (join base (bytes "repos")) _ d _ (group_apart d off)
      ∙ is_dir-select (λ e. not (at_or_below (path the_repo) e)) d (made_in fs)
      ∙ elim (Bool-cases (at_or_below (path the_repo) d)) [
        | inl inside ↦ ground (arith, inside, nothing_inside inside)
        | inr out ↦ ground (arith, out, is_dir-made_in fs d off out)
      ]
    where
      nothing_inside : at_or_below (path the_repo) d ≡ true → is_dir fs d ≡ false
      nothing_inside inside = elim (Bool-cases (is_dir fs d)) [
        | inl there ↦
            absurd (ground (arith, absent, is_dir-above fs (path the_repo) d closed there inside))
        | inr not_there ↦ not_there
      ]

  -- the group is no deeper than the repository, and its clean-up brings nothing back
  gone-removed_in :
      (has_files : Directory → Bool) (fs : FileSystem)
      → is_dir (removed_in has_files fs) (path the_repo) ≡ false
  unfolding clean_up remove_dir remove_dir_all
  gone-removed_in has_files fs = by (parent (path the_repo) == join base (bytes "repos")) (
      has_files (parent (path the_repo))
      || any (λ e. at_or_below (parent (path the_repo)) e && not (e == parent (path the_repo)))
          (select (λ e. not (at_or_below (path the_repo) e)) fs))
    where
      gone : is_dir (select (λ e. not (at_or_below (path the_repo) e)) fs) (path the_repo) ≡ false
      gone =
          is_dir-select (λ e. not (at_or_below (path the_repo) e)) (path the_repo) fs
          ∙ ground (arith, at_or_below_refl (path the_repo))

      by :
          (a b : Bool)
          → is_dir
              (if a
                then select (λ e. not (at_or_below (path the_repo) e)) fs
                else if b
                then select (λ e. not (at_or_below (path the_repo) e)) fs
                else select
                    (λ e. not (e == parent (path the_repo)))
                    (select (λ e. not (at_or_below (path the_repo) e)) fs))
              (path the_repo)
            ≡ false
      by true b = gone
      by false true = gone
      by false false =
          is_dir-select (λ e. not (e == parent (path the_repo))) (path the_repo)
            (select (λ e. not (at_or_below (path the_repo) e)) fs)
          ∙ ground (arith, gone)

-- When each directory stands in one that is there, no repository has the name, the name does not begin
-- with a hyphen, and neither the making of its group nor `git init` fails, which then makes the
-- directory that its last argument names and nothing outside it: `quire repo new` makes a repository
-- that `Quire::repo` finds by its name, `.git` added if it was missing; then `quire repo rm` by this
-- name succeeds if its removal of the directory does: the repository is not found any more, and every
-- directory but its own and those that it stands in is there exactly if it was at first.
pub rm-new_command :
    (base : Directory) (name : Bytes) (git : Git) (has_files : Directory → Bool) (raw : Bytes)
    (fs : FileSystem) (d : Directory)
    → IsClosed fs
    → from_str (normalized raw) ≡ accepted name
    → is_dir fs (path (new (join base (bytes "repos")) name)) ≡ false
    → starts_with (bytes "-") name ≡ false
    → (git (init_args name)).success ≡ true
    → MakesRepository base git
    → at_or_below d (path (new (join base (bytes "repos")) name)) ≡ false
    → let (made, fs1) = new_command base succeeds git raw fs in
      let (result, fs2) = rm has_files base succeeds name fs1 in
      (made ≡ created name)
      × (is_found (repo (is_dir fs1) base name) ≡ true)
      × (result ≡ removed)
      × (is_found (repo (is_dir fs2) base name) ≡ false)
      × (is_dir fs2 d ≡ is_dir fs d)
rm-new_command base name git has_files raw fs d closed good absent plain success makes off =
    let named = ap from_str (sym (from_str-accepted (normalized raw) name good).0) ∙ good in
    let (ways, all_made, inside) = makes name named plain success in
    let made = new_command-created base name ways git raw fs good absent success all_made in
    let fs1 = made_in base name ways fs in
    let there = there-made_in base name ways fs inside in
    let gone =
      ap (λ (x : NewRepo × FileSystem). rm has_files base succeeds name x.1) made
      ∙ rm-removed base name ways has_files fs1 named there in
    (
      ap (λ (x : NewRepo × FileSystem). x.0) made,
      ap (λ (x : NewRepo × FileSystem). is_found (repo (is_dir x.1) base name)) made
          ∙ ap is_found (repo-found base name ways fs1 named there),
      ap (λ (x : RmRepo × FileSystem). x.0) gone,
      ap (λ (x : RmRepo × FileSystem). is_found (repo (is_dir x.1) base name)) gone
          ∙ repo-gone base name ways _ named (gone-removed_in base name ways has_files fs1),
      ap (λ (x : RmRepo × FileSystem). is_dir x.1 d) gone
          ∙ is_dir-removed_in base name ways has_files fs d closed absent off,
    )
