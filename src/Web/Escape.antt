-- ===== src/Web/Escape.antt =====
-- `html_escape` of quire-server/src/quire/web/handlers/tree.rs.
use quire.Prelude.{
  ℕ, zero, suc, ◌≡◌, ◌∙◌, refl, sym, ap, Bool, true, false, not, ◌&&◌, [], ◌∷◌, ◌++◌, eqb, eqb_iff,
  all, all-append, arith, append_assoc, Bool-cases, inl, inr, if◌then◌else◌, if_false,
}
use quire.Prelude.Bytes.{Bytes, bytes, starts_with}
use quire.Secret.{replace_from}

unfoldable pub html_escape : Bytes → Bytes
html_escape s = replace_from (bytes "\"") (bytes "&quot;") 0 (
    replace_from (bytes ">") (bytes "&gt;") 0
      (replace_from (bytes "<") (bytes "&lt;") 0 (replace_from (bytes "&") (bytes "&amp;") 0 s)))

-- Each character in its place, by one pass.
abbrev pub flat_map : (ℕ → Bytes) → Bytes → Bytes
flat_map f [] = []
flat_map f (c ∷ s) = f c ++ flat_map f s

abbrev subst_char : ℕ → Bytes → ℕ → Bytes
subst_char p to c = if eqb p c then to else c ∷ []

abbrev pub entity : ℕ → Bytes
entity c =
    if eqb b'&' c
    then bytes "&amp;"
    else if eqb b'<' c
    then bytes "&lt;"
    else if eqb b'>' c
    then bytes "&gt;"
    else if eqb b'"' c
    then bytes "&quot;"
    else c ∷ []

starts-one : (p c : ℕ) (s : Bytes) → starts_with (p ∷ []) (c ∷ s) ≡ eqb p c
starts-one p c s = and-true (eqb p c)
  where
    and-true : (b : Bool) → (b && true) ≡ b
    and-true true = refl
    and-true false = refl

replace-char : (p : ℕ) (to s : Bytes) → replace_from (p ∷ []) to 0 s ≡ flat_map (subst_char p to) s
unfolding replace_from
replace-char p to [] = refl
replace-char p to (c ∷ s) =
    let after = replace_from (p ∷ []) to 0 s in
    ap (λ (b : Bool). elim b [ true ↦ to ++ after | false ↦ c ∷ after ]) (starts-one p c s)
    ∙ one (eqb p c)
    ∙ ap (λ r. subst_char p to c ++ r) (replace-char p to s)
  where
    one :
        (b : Bool)
        → elim b [
          | true ↦ to ++ replace_from (p ∷ []) to 0 s
          | false ↦ c ∷ replace_from (p ∷ []) to 0 s
        ]
          ≡ (if b then to else c ∷ []) ++ replace_from (p ∷ []) to 0 s
    one true = refl
    one false = refl

flat_map-append : (f : ℕ → Bytes) (s t : Bytes) → flat_map f (s ++ t) ≡ flat_map f s ++ flat_map f t
flat_map-append f [] t = refl
flat_map-append f (c ∷ s) t =
    ap (λ r. f c ++ r) (flat_map-append f s t)
    ∙ sym (append_assoc (f c) (flat_map f s) (flat_map f t))

flat_map-flat_map :
    (g f : ℕ → Bytes) (s : Bytes) → flat_map g (flat_map f s) ≡ flat_map (λ c. flat_map g (f c)) s
flat_map-flat_map g f [] = refl
flat_map-flat_map g f (c ∷ s) =
    flat_map-append g (f c) (flat_map f s)
    ∙ ap (λ r. flat_map g (f c) ++ r) (flat_map-flat_map g f s)

flat_map-eq :
    (g f : ℕ → Bytes) (same : (c : ℕ) → g c ≡ f c) (s : Bytes) → flat_map g s ≡ flat_map f s
flat_map-eq g f same [] = refl
flat_map-eq g f same (c ∷ s) =
    ap (λ r. r ++ flat_map g s) (same c) ∙ ap (λ r. f c ++ r) (flat_map-eq g f same s)

-- A pass over what another left.
fused :
    (p : ℕ) (to : Bytes) (f : ℕ → Bytes) (s : Bytes)
    → replace_from (p ∷ []) to 0 (flat_map f s) ≡ flat_map (λ c. flat_map (subst_char p to) (f c)) s
fused p to f s = replace-char p to (flat_map f s) ∙ flat_map-flat_map (subst_char p to) f s

abbrev passes : ℕ → Bytes
passes c = flat_map (subst_char b'"' (bytes "&quot;")) (
    flat_map (subst_char b'>' (bytes "&gt;"))
      (flat_map (subst_char b'<' (bytes "&lt;")) (subst_char b'&' (bytes "&amp;") c)))

passes-entity : (c : ℕ) → passes c ≡ entity c
passes-entity c = elim (Bool-cases (eqb b'&' c)) [
  | inl e ↦ rw e refl
  | inr e ↦ rw e (elim (Bool-cases (eqb b'<' c)) [
    | inl f ↦ rw f refl
    | inr f ↦ rw f (elim (Bool-cases (eqb b'>' c)) [
      | inl g ↦ rw g refl
      | inr g ↦ rw g (elim (Bool-cases (eqb b'"' c)) [ inl h ↦ rw h refl | inr h ↦ rw h refl ])
    ])
  ])
]

-- The four passes over the text do what one pass does that puts the entity of each character in its
-- place: no pass takes an earlier one's entities apart.
pub html_escape-flat_map : (s : Bytes) → html_escape s ≡ flat_map entity s
unfolding html_escape
html_escape-flat_map s =
    ap (replace_from (bytes "\"") (bytes "&quot;") 0) (
      ap (replace_from (bytes ">") (bytes "&gt;") 0) (
        ap (replace_from (bytes "<") (bytes "&lt;") 0) (replace-char b'&' (bytes "&amp;") s)
        ∙ fused b'<' (bytes "&lt;") _ s)
      ∙ fused b'>' (bytes "&gt;") _ s)
    ∙ fused b'"' (bytes "&quot;") _ s
    ∙ flat_map-eq _ entity passes-entity s

-- The reading of a text of HTML: the four entities, and each other character for itself; the number
-- counts the characters that belong to an entity already read.
abbrev decoded : Bytes → ℕ × ℕ
decoded (c ∷ s) =
    if starts_with (bytes "&amp;") (c ∷ s)
    then (b'&', 4)
    else if starts_with (bytes "&lt;") (c ∷ s)
    then (b'<', 3)
    else if starts_with (bytes "&gt;") (c ∷ s)
    then (b'>', 3)
    else if starts_with (bytes "&quot;") (c ∷ s)
    then (b'"', 5)
    else (c, 0)
decoded [] = (0, 0)

unfoldable pub html_text : ℕ → Bytes → Bytes
html_text k [] = []
html_text (suc k) (c ∷ s) = html_text k s
html_text zero (c ∷ s) = let (d, k) = decoded (c ∷ s) in d ∷ html_text k s

-- No character that opens or closes a tag or an attribute.
abbrev pub is_plain : ℕ → Bool
is_plain c = not (eqb b'<' c) && not (eqb b'>' c) && not (eqb b'"' c)

entity-is_plain : (c : ℕ) → all is_plain (entity c) ≡ true
entity-is_plain c = elim (Bool-cases (eqb b'&' c)) [
  | inl e ↦ rw e refl
  | inr e ↦ rw e (elim (Bool-cases (eqb b'<' c)) [
    | inl f ↦ rw f refl
    | inr f ↦ rw f (elim (Bool-cases (eqb b'>' c)) [
      | inl g ↦ rw g refl
      | inr g ↦
          rw g (elim (Bool-cases (eqb b'"' c)) [ inl h ↦ rw h refl | inr h ↦ rw h (ground arith) ])
    ])
  ])
]

no_entity : (c : ℕ) (w s : Bytes) → eqb b'&' c ≡ false → starts_with (b'&' ∷ w) (c ∷ s) ≡ false
no_entity c w s e = rw e refl

decoded-other : (c : ℕ) (s : Bytes) → eqb b'&' c ≡ false → decoded (c ∷ s) ≡ (c, 0)
decoded-other c s e =
    if_false _ _ _ (no_entity c (bytes "amp;") s e)
    ∙ if_false _ _ _ (no_entity c (bytes "lt;") s e)
    ∙ if_false _ _ _ (no_entity c (bytes "gt;") s e)
    ∙ if_false _ _ _ (no_entity c (bytes "quot;") s e)

html_text-entity : (c : ℕ) (s : Bytes) → html_text 0 (entity c ++ s) ≡ c ∷ html_text 0 s
unfolding html_text
html_text-entity c s = elim (Bool-cases (eqb b'&' c)) [
  | inl e ↦ rw e (ap (λ d. d ∷ html_text 0 s) ((eqb_iff b'&' c).0 e))
  | inr e ↦ rw e (elim (Bool-cases (eqb b'<' c)) [
    | inl f ↦ rw f (ap (λ d. d ∷ html_text 0 s) ((eqb_iff b'<' c).0 f))
    | inr f ↦ rw f (elim (Bool-cases (eqb b'>' c)) [
      | inl g ↦ rw g (ap (λ d. d ∷ html_text 0 s) ((eqb_iff b'>' c).0 g))
      | inr g ↦ rw g (elim (Bool-cases (eqb b'"' c)) [
        | inl h ↦ rw h (ap (λ d. d ∷ html_text 0 s) ((eqb_iff b'"' c).0 h))
        | inr h ↦ rw h (ap (λ (x : ℕ × ℕ). x.0 ∷ html_text x.1 s) (decoded-other c s e))
      ])
    ])
  ])
]

html_text-flat_map : (s : Bytes) → html_text 0 (flat_map entity s) ≡ s
html_text-flat_map [] = unfold html_text in refl
html_text-flat_map (c ∷ s) =
    html_text-entity c (flat_map entity s) ∙ ap (λ t. c ∷ t) (html_text-flat_map s)

is_plain-flat_map : (s : Bytes) → all is_plain (flat_map entity s) ≡ true
is_plain-flat_map [] = refl
is_plain-flat_map (c ∷ s) =
    all-append is_plain (entity c) (flat_map entity s)
    ∙ ap (λ b. b && all is_plain (flat_map entity s)) (entity-is_plain c)
    ∙ is_plain-flat_map s

-- An escaped text has none of the characters `<`, `>` and `"`, and reading its entities back gives
-- the text that was escaped.
pub html_text-html_escape :
    (s : Bytes) → (all is_plain (html_escape s) ≡ true) × (html_text 0 (html_escape s) ≡ s)
html_text-html_escape s = (
  ap (all is_plain) (html_escape-flat_map s) ∙ is_plain-flat_map s,
  ap (html_text 0) (html_escape-flat_map s) ∙ html_text-flat_map s,
)
