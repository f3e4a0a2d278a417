-- ===== src/Push/Hook/Lines.antt =====
-- What the hook reads of what git writes.
use quire.Prelude.{
  ℕ, ◌≡◌, ◌∙◌, refl, sym, ap, Bool, true, false, not, ◌&&◌, none, some, List, [], ◌∷◌, ◌++◌, All,
  all, any, eqb, arith, append-nil, all-append, and_true, if_true, if_false, if◌then◌else◌,
}
use quire.Prelude.Bytes.{Bytes}
use quire.Push.{PushRef, is_update, new_event}
use quire.Push.Hook.{
  is_whitespace, onto_word, starts_word, split_whitespace, parse_parts, parse_line, add_ref,
  parse_lines, onto_line, stdin_lines, has_updates, post_receive,
}

-- One or more characters, none of them white space.
abbrev pub is_word : Bytes → Bool
is_word [] = false
is_word (c ∷ s) = not (is_whitespace c) && all (λ d. not (is_whitespace d)) s

not-true : (b : Bool) → not b ≡ true → b ≡ false
not-true true h = sym h
not-true false h = refl

split_whitespace-word :
    (w s : Bytes)
    → is_word w ≡ true
    → starts_word s ≡ false
    → split_whitespace (w ++ s) ≡ w ∷ split_whitespace s
unfolding split_whitespace
split_whitespace-word [] s h e = absurd (ground arith)
split_whitespace-word (c ∷ []) s h e =
    if_false _ _ _ (not-true _ (and_true (not (is_whitespace c)) true h).0)
    ∙ ap (λ b. onto_word b c (split_whitespace s)) e
split_whitespace-word (c ∷ d ∷ w) s h e =
    let (first, rest) = and_true (not (is_whitespace c)) _ h in
    if_false _ _ _ (not-true _ first)
    ∙ ap (λ b. onto_word b c (split_whitespace (d ∷ w ++ s)))
        (and_true (not (is_whitespace d)) _ rest).0
    ∙ ap (λ x. onto_word true c x) (split_whitespace-word (d ∷ w) s rest e)

split_whitespace-space :
    (c : ℕ) (s : Bytes) → is_whitespace c ≡ true → split_whitespace (c ∷ s) ≡ split_whitespace s
unfolding split_whitespace
split_whitespace-space c s h = if_true _ _ _ h

-- a word with a white space behind it
split_whitespace-next :
    (w : Bytes) (c : ℕ) (s : Bytes)
    → is_word w ≡ true
    → is_whitespace c ≡ true
    → split_whitespace (w ++ c ∷ s) ≡ w ∷ split_whitespace s
split_whitespace-next w c s h e =
    split_whitespace-word w (c ∷ s) h (ap not e) ∙ ap (λ x. w ∷ x) (split_whitespace-space c s e)

split_whitespace-last : (w : Bytes) → is_word w ≡ true → split_whitespace w ≡ w ∷ []
split_whitespace-last w h =
    ap split_whitespace (sym (append-nil w))
    ∙ split_whitespace-word w [] h refl
    ∙ unfold split_whitespace in refl

-- What git writes for a ref.
abbrev pub ref_line : PushRef → Bytes
ref_line r = r.old_sha ++ 32 ∷ (r.new_sha ++ 32 ∷ r.ref_name)

abbrev pub IsWritable : PushRef → Type 0
IsWritable r = (is_word r.old_sha ≡ true) × (is_word r.new_sha ≡ true) × (is_word r.ref_name ≡ true)

parse_line-ref_line : (r : PushRef) → IsWritable r → parse_line (ref_line r) ≡ some r
unfolding parse_line parse_parts
parse_line-ref_line r (a, b, c) = ap parse_parts (
    split_whitespace-next r.old_sha 32 _ a refl
    ∙ ap (λ x. r.old_sha ∷ x)
        (split_whitespace-next r.new_sha 32 _ b refl
          ∙ ap (λ x. r.new_sha ∷ x) (split_whitespace-last r.ref_name c)))

-- A ref whose name has a white space that git allows, such as U+00A0, in its middle is dropped.
pub parse_line-spaced :
    (old_sha new_sha a b : Bytes) (c : ℕ)
    → is_word old_sha ≡ true
    → is_word new_sha ≡ true
    → is_word a ≡ true
    → is_word b ≡ true
    → is_whitespace c ≡ true
    → parse_line (ref_line (record { ref_name = a ++ c ∷ b; old_sha = old_sha; new_sha = new_sha }))
      ≡ none
unfolding parse_line parse_parts
parse_line-spaced old_sha new_sha a b c o n h k e = ap parse_parts (
    split_whitespace-next old_sha 32 _ o refl
    ∙ ap (λ x. old_sha ∷ x)
        (split_whitespace-next new_sha 32 _ n refl
          ∙ ap (λ x. new_sha ∷ x)
              (split_whitespace-next a c b h e ∙ ap (λ x. a ∷ x) (split_whitespace-last b k))))

-- No character that ends a line.
abbrev pub stays : ℕ → Bool
stays c = not (eqb c 10) && not (eqb c 13)

stays-parts : (c : ℕ) → stays c ≡ true → (eqb c 10 ≡ false) × (eqb c 13 ≡ false)
stays-parts c h = let (a, b) = and_true (not (eqb c 10)) _ h in (not-true _ a, not-true _ b)

and-false : (a b : Bool) → a ≡ false → (a && b) ≡ false
and-false true b h = absurd (ground arith)
and-false false b h = refl

pub stdin_lines-line :
    (l s : Bytes) → all stays l ≡ true → stdin_lines (l ++ 10 ∷ s) ≡ l ∷ stdin_lines s
unfolding stdin_lines
stdin_lines-line [] s h = refl
stdin_lines-line (c ∷ l) s h =
    let (first, rest) = and_true (stays c) (all stays l) h in
    let (newline, return) = stays-parts c first in
    if_false _ _ _ newline
    ∙ if_false _ _ _ (and-false (eqb c 13) _ return)
    ∙ ap (λ x. onto_line c x) (stdin_lines-line l s rest)

all-implies :
    (p q : ℕ → Bool)
    → ((c : ℕ) → p c ≡ true → q c ≡ true)
    → (s : Bytes) → all p s ≡ true
    → all q s ≡ true
all-implies p q f [] h = refl
all-implies p q f (c ∷ s) h =
    let (a, b) = and_true (p c) _ h in both (q c) _ (f c a) (all-implies p q f s b)
  where
    both : (a b : Bool) → a ≡ true → b ≡ true → (a && b) ≡ true
    both a b h k = ground arith

unspaced-stays : (c : ℕ) → not (is_whitespace c) ≡ true → stays c ≡ true
unspaced-stays c h = ground arith

all-is_word : (w : Bytes) → is_word w ≡ true → all (λ d. not (is_whitespace d)) w ≡ true
all-is_word [] h = refl
all-is_word (c ∷ w) h = h

all-stays-word : (w : Bytes) → is_word w ≡ true → all stays w ≡ true
all-stays-word w h =
    all-implies (λ d. not (is_whitespace d)) stays unspaced-stays w (all-is_word w h)

all-stays-ref_line : (r : PushRef) → IsWritable r → all stays (ref_line r) ≡ true
all-stays-ref_line r (a, b, c) =
    all-append stays r.old_sha _
    ∙ simp
        (
          all-stays-word r.old_sha a,
          all-append stays r.new_sha (32 ∷ r.ref_name),
          all-stays-word r.new_sha b,
          all-stays-word r.ref_name c,
        )
        refl

-- What git writes to the hook.
abbrev pub written : List PushRef → Bytes
written [] = []
written (r ∷ rs) = ref_line r ++ 10 ∷ written rs

-- The hook reads back the refs that git wrote, in their order, if each of their fields has a
-- character and no white space.
pub parse_lines-written :
    (refs : List PushRef) → All IsWritable refs → parse_lines (stdin_lines (written refs)) ≡ refs
unfolding parse_lines
parse_lines-written [] h = unfold stdin_lines in refl
parse_lines-written (r ∷ rs) h =
    ap parse_lines (stdin_lines-line (ref_line r) (written rs) (all-stays-ref_line r h.0))
    ∙ ap (λ x. add_ref x (parse_lines (stdin_lines (written rs)))) (parse_line-ref_line r h.0)
    ∙ ap (λ x. r ∷ x) (parse_lines-written rs h.1)

-- For refs whose fields have a character each and no white space, what git writes to the hook
-- makes it send the event with these refs, in their order, if one of them is not a deletion, and
-- nothing otherwise.
pub post_receive-written :
    (repo : Bytes) (now : ℕ) (refs : List PushRef)
    → All IsWritable refs
    → post_receive repo now (written refs)
      ≡ (if any is_update refs then some (new_event repo now refs) else none)
unfolding post_receive
post_receive-written repo now refs h =
    ap (λ (x : List PushRef). if has_updates x then some (new_event repo now x) else none)
      (parse_lines-written refs h)
