-- ===== src/Web/Pages/Links.antt =====
-- Where the links of a page lead.
use quire.Prelude.{
  ℕ, ◌≡◌, refl, sym, ap, ◌∙◌, List, [], ◌∷◌, ◌++◌, map, eqb, eqb_iff, Bool-cases, inl, inr,
  append_assoc, if_true, if_false,
}
use quire.Prelude.Bytes.{Bytes, bytes}
use quire.Repo.{split, push_byte}
use quire.Web.Pages.{Crumb, with_href, join_slash, crumbs_from, build_tree_crumbs}

-- A list that is not empty, as its first element and the rest.
split-parts : (s : Bytes) → (x : Bytes) × (xs : List Bytes) × (split b'/' s ≡ x ∷ xs)
unfolding split
split-parts [] = ([], [], refl)
split-parts (c ∷ s) =
    let (x, xs, e) = split-parts s in
    elim (Bool-cases (eqb c b'/')) [
      | inl h ↦ ([], split b'/' s, if_true _ _ _ h)
      | inr h ↦ (c ∷ x, xs, if_false _ _ _ h ∙ ap (push_byte c) e)
    ]

join-push_byte :
    (c : ℕ) (x : Bytes) (xs : List Bytes) → join_slash ((c ∷ x) ∷ xs) ≡ c ∷ join_slash (x ∷ xs)
join-push_byte c x [] = refl
join-push_byte c x (y ∷ ys) = refl

join_slash-split : (s : Bytes) → join_slash (split b'/' s) ≡ s
unfolding split
join_slash-split [] = refl
join_slash-split (c ∷ s) =
    let (x, xs, e) = split-parts s in
    let back : join_slash (x ∷ xs) ≡ s = ap join_slash (sym e) ∙ join_slash-split s in
    elim (Bool-cases (eqb c b'/')) [
      | inl h ↦
          ap join_slash (if_true _ _ _ h ∙ ap (λ l. [] ∷ l) e)
          ∙ ap (λ l. b'/' ∷ l) back
          ∙ ap (λ d. d ∷ s) (sym ((eqb_iff c b'/').0 h))
      | inr h ↦
          ap join_slash (if_false _ _ _ h ∙ ap (push_byte c) e)
          ∙ join-push_byte c x xs
          ∙ ap (λ l. c ∷ l) back
    ]

abbrev pub labels : List Crumb → List Bytes
labels cs = map (λ (c : Crumb). c.label) cs

labels-crumbs_from :
    (repo : Bytes) (before segs : List Bytes) → labels (crumbs_from repo before segs) ≡ segs
unfolding crumbs_from
labels-crumbs_from repo before [] = refl
labels-crumbs_from repo before (seg ∷ segs) =
    ap (λ l. seg ∷ l) (labels-crumbs_from repo (before ++ seg ∷ []) segs)

last-crumbs_from :
    (repo : Bytes) (before : List Bytes) (seg : Bytes) (segs : List Bytes)
    → (first : List Crumb) × (label : Bytes) × (crumbs_from repo before (seg ∷ segs)
        ≡ first
          ++ with_href label (b'/' ∷ (repo ++ bytes "/tree/" ++ join_slash (before ++ seg ∷ segs)))
            ∷ [])
unfolding crumbs_from
last-crumbs_from repo before seg [] = ([], seg, refl)
last-crumbs_from repo before seg (t ∷ segs) =
    let (first, label, e) = last-crumbs_from repo (before ++ seg ∷ []) t segs in
    (
      with_href seg (b'/' ∷ (repo ++ bytes "/tree/" ++ join_slash (before ++ seg ∷ []))) ∷ first,
      label,
      ap
          (λ l.
            with_href seg (b'/' ∷ (repo ++ bytes "/tree/" ++ join_slash (before ++ seg ∷ []))) ∷ l)
          (e
            ∙ ap
                (λ l.
                  first ++ with_href label (b'/' ∷ (repo ++ bytes "/tree/" ++ join_slash l)) ∷ [])
                (append_assoc before (seg ∷ []) (t ∷ segs))),
    )

-- The labels of the crumbs of a path that is not empty, joined with slashes, are the path, and the
-- last of the crumbs leads to the page of the path.
pub build_tree_crumbs-path :
    (repo : Bytes) (c : ℕ) (path : Bytes)
    → (join_slash (labels (build_tree_crumbs repo (c ∷ path))) ≡ c ∷ path)
      × ((first : List Crumb) × (label : Bytes) × (build_tree_crumbs repo (c ∷ path)
            ≡ first ++ with_href label (b'/' ∷ (repo ++ bytes "/tree/" ++ c ∷ path)) ∷ []))
unfolding build_tree_crumbs
build_tree_crumbs-path repo c path =
    let (x, xs, e) = split-parts (c ∷ path) in
    let (first, label, l) = last-crumbs_from repo [] x xs in
    (
      ap join_slash (labels-crumbs_from repo [] (split b'/' (c ∷ path)))
          ∙ join_slash-split (c ∷ path),
      (
        first,
        label,
        ap (crumbs_from repo []) e
            ∙ l
            ∙ ap (λ p. first ++ with_href label (b'/' ∷ (repo ++ bytes "/tree/" ++ p)) ∷ [])
                (ap join_slash (sym e) ∙ join_slash-split (c ∷ path)),
      ),
    )
