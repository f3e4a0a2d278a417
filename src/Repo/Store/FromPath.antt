-- ===== src/Repo/Store/FromPath.antt =====
-- `Repo::from_path` turns back what `Repo::path` does.
use quire.Prelude.{
  ◌≡◌, ◌∙◌, refl, sym, ap, Option, none, some, List, [], ◌∷◌, ◌++◌, arith, append-nil,
}
use quire.Prelude.Bytes.{Bytes, bytes}
use quire.Repo.{
  ParsedName, accepted, refused, split, from_str, is_empty, Directory, path, Repo, new,
}
use quire.Repo.Names.{below, path-below, from_str-accepted}
use quire.Repo.Store.{strip_prefix, slashed, at_path, named, from_relative, from_path}
use quire.Repo.Store.Listed.{
  IsPlain, IsUtf8, strip_prefix-below, strip_prefix-IsPlain, strip_prefix-down, strip_prefix-top,
  split-slashed, slashed-split,
}

-- What a path's repository is to be.
pub record IsAt (base d : Directory) (r : Repo) : Type 0 where
  pub root : r.quire_root ≡ base
  pub valid : from_str r.name ≡ accepted r.name
  pub place : path r ≡ d

at_path-injective : (r s : Repo) → at_path r ≡ at_path s → r ≡ s
at_path-injective r s h = cc

module _ (base d : Directory) (r : Repo) where
  IsAt-named :
      (c : Bytes) (cs : List Bytes) (p : ParsedName)
      → strip_prefix (bytes "repos" ∷ base) d [] ≡ some (c ∷ cs)
      → IsPlain (c ∷ cs)
      → from_str (slashed (c ∷ cs)) ≡ p
      → named (bytes "repos" ∷ base) p ≡ at_path r
      → IsAt base d r
  unfolding named new
  IsAt-named c cs (refused e) way plain parsed h = absurd (ground (arith, h))
  IsAt-named c cs (accepted n) way plain parsed h =
      let is_text = (from_str-accepted (slashed (c ∷ cs)) n parsed).0 in
      let valid = ap from_str (sym is_text) ∙ parsed in
      let same = at_path-injective (new (bytes "repos" ∷ base) n) r h in
      record {
        root = ap (λ (x : Repo). x.quire_root) (sym same);
        valid =
            ap (λ (x : Repo). from_str x.name) (sym same)
            ∙ valid
            ∙ ap (λ (x : Repo). accepted x.name) same;
        place =
            ap path (sym same)
            ∙ (path-below base n n valid).0
            ∙ ap (λ (x : Bytes). below (bytes "repos" ∷ base) (split b'/' x)) (sym is_text)
            ∙ ap (below (bytes "repos" ∷ base)) (split-slashed c cs plain)
            ∙ strip_prefix-below (bytes "repos" ∷ base) d [] (c ∷ cs) way;
      }

  IsAt-relative :
      (lossy : Bytes → Bytes) (o : Option (List Bytes)) (display : Bytes)
      → IsPlain d
      → ((cs : List Bytes) → o ≡ some cs → lossy (slashed cs) ≡ slashed cs)
      → strip_prefix (bytes "repos" ∷ base) d [] ≡ o
      → from_relative lossy (bytes "repos" ∷ base) display o ≡ at_path r
      → IsAt base d r
  unfolding from_relative named slashed from_str is_empty
  IsAt-relative lossy none display plain utf8 way h = absurd (ground (arith, h))
  IsAt-relative lossy (some []) display plain utf8 way h = absurd (
      ground (
        arith,
        sym (ap (λ (x : Bytes). named (bytes "repos" ∷ base) (from_str x)) (utf8 [] refl)) ∙ h,
      ))
  IsAt-relative lossy (some (c ∷ cs)) display plain utf8 way h =
      IsAt-named c cs (from_str (slashed (c ∷ cs))) way
        (strip_prefix-IsPlain (bytes "repos" ∷ base) d [] (c ∷ cs) plain tt way) refl
        (sym (ap (λ (x : Bytes). named (bytes "repos" ∷ base) (from_str x)) (utf8 (c ∷ cs) refl))
          ∙ h)

-- When no component of a directory has a slash, and its path below `repos` is UTF-8, a repository that
-- `Repo::from_path` makes of it has an accepted name, the server's directory as its root, and lies
-- exactly in that directory.
pub from_path-IsAt :
    (lossy : Bytes → Bytes) (base d : Directory) (display : Bytes) (r : Repo)
    → IsPlain d
    → IsUtf8 lossy (bytes "repos" ∷ base) d
    → from_path lossy (bytes "repos" ∷ base) d display ≡ at_path r
    → IsAt base d r
unfolding from_path
from_path-IsAt lossy base d display r plain utf8 h =
    IsAt-relative base d r lossy _ display plain utf8 refl h

-- Of the place of a repository with an accepted name that is UTF-8, `Repo::from_path` makes this
-- repository again.
from_path-path :
    (lossy : Bytes → Bytes) (base : Directory) (n display : Bytes)
    → from_str n ≡ accepted n
    → lossy n ≡ n
    → from_path lossy (bytes "repos" ∷ base) (path (new (bytes "repos" ∷ base) n)) display
      ≡ at_path (new (bytes "repos" ∷ base) n)
unfolding from_path from_relative named
from_path-path lossy base n display good utf8 =
    let top = bytes "repos" ∷ base in
    ap (from_relative lossy top display) (
      ap (λ (d : Directory). strip_prefix top d []) (path-below base n n good).0
      ∙ strip_prefix-down top top (split b'/' n) [] (omega arith)
      ∙ strip_prefix-top top (split b'/' n ++ [])
      ∙ ap some (append-nil (split b'/' n)))
    ∙ ap (named top)
        (ap (λ (x : Bytes). from_str (lossy x)) (slashed-split n) ∙ ap from_str utf8 ∙ good)
