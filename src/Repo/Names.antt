-- ===== src/Repo/Names.antt =====
-- What an accepted name is, and where it leads from the directory that it is joined to.
use quire.Prelude.{
  ℕ, ◌≤◌, ◌≡◌, ◌∙◌, refl, sym, ap, Bool, true, false, not, ◌&&◌, ◌||◌, List, [], ◌∷◌, any, length,
  leb, eqb, arith, inl, inr, Bool-cases, or_false, if_false, ◌==◌, bytes_eq, if◌then◌else◌,
}
use mathlib.Core.Path.{subst}
use quire.Prelude.Bytes.{Bytes, bytes, starts_with, occurs, contains}
use quire.Repo.{
  RepoNameError, ParsedName, accepted, refused, ends_with, push_byte, split, is_empty,
  is_bad_segment, from_str, Directory, walk, join, path, runs_base, new, is_safe_path_segment,
}

-- The pieces of a path on top of a directory.
abbrev pub below : Directory → List Bytes → Directory
below d [] = d
below d (seg ∷ segs) = below (seg ∷ d) segs

-- What `from_str` finds of a name that it accepts.
pub record IsAccepted (s : Bytes) : Type 0 where
  pub no_dots : occurs (bytes "..") s ≡ false
  pub suffix : ends_with (bytes ".git") s ≡ true
  pub few : length (split b'/' s) ≤ 2
  pub good : any is_bad_segment (split b'/' s) ≡ false

passed :
    (b : Bool) (e : RepoNameError) (p : ParsedName) (n : Bytes)
    → (if b then refused e else p) ≡ accepted n
    → (b ≡ false) × (p ≡ accepted n)
passed true e p n h = absurd (ground arith)
passed false e p n h = (refl, h)

not-false : (b : Bool) → not b ≡ false → b ≡ true
not-false true h = refl
not-false false h = sym h

accepted-injective : (s n : Bytes) → accepted s ≡ accepted n → s ≡ n
accepted-injective s n h = cc

pub from_str-accepted : (s n : Bytes) → from_str s ≡ accepted n → (s ≡ n) × IsAccepted s
unfolding from_str
from_str-accepted s n h =
    let (a, h1) = passed _ _ _ n h in
    let (b, h2) = passed _ _ _ n h1 in
    let (c, h3) = passed _ _ _ n h2 in
    let (d, h4) = passed _ _ _ n h3 in
    let (e, h5) = passed _ _ _ n h4 in
    let (f, h6) = passed _ _ _ n h5 in
    (
      accepted-injective s n h6,
      record { no_dots = b; suffix = not-false _ c; few = at_most e; good = f },
    )
  where
    at_most : {k : ℕ} → leb 3 k ≡ false → k ≤ 2
    at_most e = ground arith

good_segment :
    (seg : Bytes)
    → is_bad_segment seg ≡ false
    → ((is_empty seg || seg == bytes ".") ≡ false) × ((seg == bytes "..") ≡ false)
unfolding is_bad_segment
good_segment seg h = parts (is_empty seg) (seg == bytes ".") (seg == bytes "..") _ h
  where
    parts : (a b c e : Bool) → (a || b || c || e) ≡ false → ((a || b) ≡ false) × (c ≡ false)
    parts a b c e h = ground arith

walk-below :
    (d : Directory) (segs : List Bytes)
    → any is_bad_segment segs ≡ false
    → walk d segs ≡ below d segs
unfolding walk
walk-below d [] h = refl
walk-below d (seg ∷ segs) h =
    let (a, b) = good_segment seg (or_false _ _ h).0 in
    if_false _ _ _ a ∙ if_false _ _ _ b ∙ walk-below (seg ∷ d) segs (or_false _ _ h).1

slash_first :
    (b : Bool) (xs ys : List Bytes)
    → b ≡ true
    → any is_bad_segment (if b then [] ∷ xs else ys) ≡ false
    → ⊥
unfolding is_bad_segment is_empty
slash_first true xs ys e h = ground arith
slash_first false xs ys e h = ground arith

-- an absolute path has an empty first piece
relative :
    (s : Bytes) → any is_bad_segment (split b'/' s) ≡ false → starts_with (bytes "/") s ≡ false
unfolding split
relative [] h = refl
relative (c ∷ s) h = elim (Bool-cases (eqb c b'/')) [
  | inl e ↦ absurd (slash_first (eqb c b'/') (split b'/' s) _ e h)
  | inr e ↦ ground (arith, e)
]

join-below :
    (d : Directory) (s : Bytes)
    → any is_bad_segment (split b'/' s) ≡ false
    → join d s ≡ below d (split b'/' s)
unfolding join
join-below d s h =
    ap (λ x. walk x (split b'/' s)) (if_false _ [] d (relative s h)) ∙ walk-below d (split b'/' s) h

-- The repository of an accepted name, and its runs, lie one or two components below the directory
-- for them, and on the way down there is no step up: the components are the pieces of the name
-- between slashes, none is empty, a dot, two dots or `.git`, and the name ends with `.git`.
pub path-below :
    (base : Directory) (s n : Bytes)
    → from_str s ≡ accepted n
    → (path (new (bytes "repos" ∷ base) n) ≡ below (bytes "repos" ∷ base) (split b'/' s))
      × (runs_base (new (bytes "repos" ∷ base) n) ≡ below (bytes "runs" ∷ base) (split b'/' s))
      × (length (split b'/' s) ≤ 2)
      × (any is_bad_segment (split b'/' s) ≡ false)
      × (ends_with (bytes ".git") n ≡ true)
unfolding path runs_base new join walk split is_empty
path-below base s n h =
    let (same, ok) = from_str-accepted s n h in
    (
      subst (λ x. join (join base (bytes "repos")) x ≡ below (bytes "repos" ∷ base) (split b'/' s))
          same (join-below (bytes "repos" ∷ base) s ok.good),
      subst (λ x. join (join base (bytes "runs")) x ≡ below (bytes "runs" ∷ base) (split b'/' s))
          same (join-below (bytes "runs" ∷ base) s ok.good),
      ok.few,
      ok.good,
      subst (λ x. ends_with (bytes ".git") x ≡ true) same ok.suffix,
    )

pub split-one : (sep : ℕ) (s : Bytes) → contains sep s ≡ false → split sep s ≡ s ∷ []
unfolding split
split-one sep [] h = refl
split-one sep (c ∷ s) h =
    let (other, rest) = or_false (eqb c sep) (contains sep s) h in
    if_false (eqb c sep) ([] ∷ split sep s) _ other ∙ ap (λ x. push_byte c x) (split-one sep s rest)

starts_with-contains : (s : Bytes) → contains b'/' s ≡ false → starts_with (bytes "/") s ≡ false
starts_with-contains [] h = refl
starts_with-contains (c ∷ s) h = ground arith

walk-one :
    (d : Directory) (s : Bytes)
    → (is_empty s || s == bytes ".") ≡ false
    → (s == bytes "..") ≡ false
    → walk d (s ∷ []) ≡ s ∷ d
unfolding walk
walk-one d s a b = if_false _ _ _ a ∙ if_false _ _ _ b

-- A safe path segment, joined to a directory, is one component on top of it.
pub join-is_safe_path_segment :
    (d : Directory) (s : Bytes) → is_safe_path_segment s ≡ true → join d s ≡ s ∷ d
unfolding is_safe_path_segment join
join-is_safe_path_segment d s h =
    let (slash, a, b) =
      parts (is_empty s) (contains b'/' s) _ _ (s == bytes ".") (s == bytes "..") h in
    ap (λ x. walk x (split b'/' s)) (if_false _ [] d (starts_with-contains s slash))
    ∙ ap (λ x. walk d x) (split-one b'/' s slash)
    ∙ walk-one d s a b
  where
    parts :
        (a b c d e f : Bool)
        → (not a && not b && not c && not d && not e && not f) ≡ true
        → (b ≡ false) × ((a || e) ≡ false) × (f ≡ false)
    parts a b c d e f h = ground arith
