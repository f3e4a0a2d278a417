-- ===== src/Web/Repos/Linked.antt =====
-- The name that the list shows of a repository, and what the pages make of it.
use quire.Prelude.{
  ℕ, ◌≡◌, ◌∙◌, refl, ap, sym, Bool, true, false, Option, [], ◌∷◌, ◌++◌, bytes_eq, ==_iff, eqb_iff,
  Bool-cases, inl, inr, arith, append_assoc, append-nil, and_true, ◌||◌, if_false,
}
use quire.Prelude.Bytes.{Bytes, bytes, starts_with}
use quire.Repo.{Repo, found, repo, ends_with, Directory, resolve_repo_name}
use quire.Repo.Store.{FileSystem, is_dir}
use quire.Push.Mirror.{reverse}
use quire.Web.Pages.{trim_end, trim_start_matches}
use quire.Web.Repos.{listed_repo}

reverse-append : (s t : Bytes) → reverse (s ++ t) ≡ reverse t ++ reverse s
reverse-append [] t = sym (append-nil (reverse t))
reverse-append (c ∷ s) t =
    ap (λ (x : Bytes). x ++ c ∷ []) (reverse-append s t)
    ∙ append_assoc (reverse t) (reverse s) (c ∷ [])

reverse-reverse : (s : Bytes) → reverse (reverse s) ≡ s
reverse-reverse [] = refl
reverse-reverse (c ∷ s) =
    reverse-append (reverse s) (c ∷ []) ∙ ap (λ (x : Bytes). c ∷ x) (reverse-reverse s)

-- What is behind a text.
starts_with-parts : (v s : Bytes) → starts_with v s ≡ true → (k : Bytes) × (s ≡ v ++ k)
starts_with-parts [] s h = (s, refl)
starts_with-parts (c ∷ v) [] h = absurd (ground (arith, h))
starts_with-parts (c ∷ v) (d ∷ s) h =
    let (a, b) = and_true _ _ h in
    let (k, e) = starts_with-parts v s b in
    (k, ap (λ (x : ℕ). x ∷ s) (sym ((eqb_iff c d).0 a)) ∙ ap (λ (x : Bytes). c ∷ x) e)

ends_with_self : (p : Bytes) → ends_with p p ≡ true
ends_with_self [] = refl
ends_with_self (c ∷ p) = rw ((==_iff (c ∷ p) (c ∷ p)).1 refl)

ends_with-append : (k p : Bytes) → ends_with p (k ++ p) ≡ true
ends_with-append [] p = ends_with_self p
ends_with-append (c ∷ k) p = rw (ends_with-append k p) (or_true _)
  where
    or_true : (b : Bool) → (b || true) ≡ true
    or_true true = refl
    or_true false = refl

starts_with-reverse :
    (p m : Bytes) → ends_with p m ≡ false → starts_with (reverse p) (reverse m) ≡ false
starts_with-reverse p m h = elim (Bool-cases (starts_with (reverse p) (reverse m))) [
  | inl e ↦
      let (k, parts) = starts_with-parts (reverse p) (reverse m) e in
      let same : m ≡ reverse k ++ p =
        sym (reverse-reverse m)
        ∙ ap reverse parts
        ∙ reverse-append (reverse p) k
        ∙ ap (λ (x : Bytes). reverse k ++ x) (reverse-reverse p) in
      absurd
        (ground (arith, sym (ends_with-append (reverse k) p) ∙ ap (ends_with p) (sym same) ∙ h))
  | inr e ↦ e
]

trim_start_matches-none : (p s : Bytes) → starts_with p s ≡ false → trim_start_matches p 0 s ≡ s
unfolding trim_start_matches
trim_start_matches-none p [] h = refl
trim_start_matches-none p (c ∷ s) h = if_false _ _ _ h

trim_end-git :
    (m : Bytes)
    → ends_with (bytes ".git") m ≡ false
    → trim_end (bytes ".git") (m ++ bytes ".git") ≡ m
unfolding trim_end trim_start_matches
trim_end-git m h =
    ap (λ (x : Bytes). reverse (trim_start_matches (reverse (bytes ".git")) 0 x))
      (reverse-append m (bytes ".git"))
    ∙ ap reverse (
        trim_start_matches-none (reverse (bytes ".git")) (reverse m)
          (starts_with-reverse (bytes ".git") m h))
    ∙ reverse-reverse m

-- If the name of a repository that is there does not end in `.git.git`, the pages find that repository
-- by the name that the list shows of it.
pub repo-listed_repo :
    (fs : FileSystem) (subject : Repo → Option Bytes) (base : Directory) (r : Repo) (m : Bytes)
    → repo (is_dir fs) base r.name ≡ found r
    → r.name ≡ m ++ bytes ".git"
    → ends_with (bytes ".git") m ≡ false
    → repo (is_dir fs) base (resolve_repo_name (listed_repo fs subject r).name) ≡ found r
unfolding listed_repo resolve_repo_name
repo-listed_repo fs subject base r m here name once =
    ap (λ (x : Bytes). repo (is_dir fs) base (resolve_repo_name x))
      (ap (trim_end (bytes ".git")) name ∙ trim_end-git m once)
    ∙ ap (repo (is_dir fs) base) (if_false _ _ _ once ∙ sym name)
    ∙ here
