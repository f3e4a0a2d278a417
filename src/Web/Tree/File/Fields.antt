-- ===== src/Web/Tree/File/Fields.antt =====
-- The fields of the log line of a file's last commit.
use quire.Prelude.{
  ℕ, suc, append_assoc, ◌≡◌, ◌∙◌, refl, ap, false, Option, none, some, List, [], ◌∷◌, ◌++◌, eqb,
  eqb_iff, if_true, if_false, or_false,
}
use quire.Prelude.Bytes.{Bytes, contains}
use quire.Web.Git.{split_once, splitn, first_or_empty, rest_of}
use quire.Web.Tree.File.{LogFields, log_fields}

split_once-found :
    (c : ℕ) (a b : Bytes) → contains c a ≡ false → split_once c (a ++ c ∷ b) ≡ some (a, b)
split_once-found c [] b h = if_true _ _ _ ((eqb_iff c c).1 refl)
split_once-found c (d ∷ a) b h =
    let (here, later) = or_false (eqb d c) _ h in
    if_false _ _ _ here
    ∙ ap (λ (o : Option (Bytes × Bytes)). elim o [ none ↦ none | some (x, y) ↦ some (d ∷ x, y) ])
        (split_once-found c a b later)

pub splitn-found :
    (sep n : ℕ) (a b : Bytes)
    → contains sep a ≡ false
    → splitn (suc (suc n)) sep (a ++ sep ∷ b) ≡ a ∷ splitn (suc n) sep b
unfolding splitn
splitn-found sep n a b h =
    ap
      (λ (o : Option (Bytes × Bytes)). elim o [
        | none ↦ (a ++ sep ∷ b) ∷ []
        | some (x, y) ↦ x ∷ splitn (suc n) sep y
      ])
      (split_once-found sep a b h)

-- The line that git writes for the format `%H|%s|%an|%cr`.
abbrev pub log_line : LogFields → Bytes
log_line f = f.sha ++ b'|' ∷ (f.subject ++ b'|' ∷ (f.author ++ b'|' ∷ f.age))

pub splitn-three :
    (sep : ℕ) (a b c d : Bytes)
    → contains sep a ≡ false
    → contains sep b ≡ false
    → contains sep c ≡ false
    → splitn 4 sep (a ++ sep ∷ (b ++ sep ∷ (c ++ sep ∷ d))) ≡ a ∷ b ∷ c ∷ d ∷ []
splitn-three sep a b c d h k l =
    splitn-found sep 2 a _ h
    ∙ ap (λ x. a ∷ x)
        (splitn-found sep 1 b _ k
          ∙ ap (λ x. b ∷ x) (splitn-found sep 0 c d l ∙ ap (λ x. c ∷ x) (unfold splitn in refl)))

abbrev of_parts : List Bytes → LogFields
of_parts parts = record {
  sha = first_or_empty parts;
  subject = first_or_empty (rest_of parts);
  author = first_or_empty (rest_of (rest_of parts));
  age = first_or_empty (rest_of (rest_of (rest_of parts)));
}

-- The fields are read back from git's line if the id, the subject and the author have no bar.
pub log_fields-log_line :
    (f : LogFields)
    → contains b'|' f.sha ≡ false
    → contains b'|' f.subject ≡ false
    → contains b'|' f.author ≡ false
    → log_fields (log_line f) ≡ f
unfolding log_fields
log_fields-log_line f h k l = ap of_parts (splitn-three b'|' f.sha f.subject f.author f.age h k l)

-- If the subject has at least two bars, and the id has none, the page shows the part up to the first
-- bar as the subject, the part from there to the second bar as the author, and all the rest of the
-- line, the author's name among it, as the age.
pub log_fields-barred :
    (sha a b c author age : Bytes)
    → contains b'|' sha ≡ false
    → contains b'|' a ≡ false
    → contains b'|' b ≡ false
    → log_fields (
        log_line
          (record { sha = sha; subject = a ++ b'|' ∷ (b ++ b'|' ∷ c); author = author; age = age }))
      ≡ record { sha = sha; subject = a; author = b; age = c ++ b'|' ∷ (author ++ b'|' ∷ age) }
unfolding log_fields
log_fields-barred sha a b c author age h k l =
    let t = b'|' ∷ (author ++ b'|' ∷ age) in
    ap (λ s. of_parts (splitn 4 b'|' (sha ++ b'|' ∷ s)))
      (append_assoc a (b'|' ∷ (b ++ b'|' ∷ c)) t
        ∙ ap (λ s. a ++ b'|' ∷ s) (append_assoc b (b'|' ∷ c) t))
    ∙ ap of_parts (splitn-three b'|' sha a b (c ++ t) h k l)
