-- ===== src/Pipeline/Span.antt =====
-- `span_for_line` against the lines of the source.
use quire.Prelude.{
  ℕ, zero, suc, ◌+◌, ◌≡◌, ◌∙◌, refl, sym, ap, true, false, [], ◌∷◌, eqb, arith, inl, inr,
  Bool-cases, if_true, if_false, if◌then◌else◌,
}
use mathlib.Core.Path.{subst}
use quire.Prelude.Bytes.{Bytes}
use quire.Pipeline.{SourceSpan, line_length, find_line, span_for_line}

-- The bytes of a span.
abbrev pub slice : ℕ → ℕ → Bytes → Bytes
slice (suc i) n (c ∷ s) = slice i n s
slice zero (suc n) (c ∷ s) = c ∷ slice zero n s
slice zero zero s = []
slice _ _ [] = []

-- What stands behind the next newline.
abbrev next_line : Bytes → Bytes
next_line [] = []
next_line (c ∷ s) = if eqb c 10 then s else next_line s

-- What stands before it.
abbrev take_line : Bytes → Bytes
take_line [] = []
take_line (c ∷ s) = let rest = take_line s in if eqb c 10 then [] else c ∷ rest

-- The line by its number, the first being 0; a text without that many has empty ones.
abbrev pub nth_line : ℕ → Bytes → Bytes
nth_line zero s = take_line s
nth_line (suc n) s = nth_line n (next_line s)

slice-line_length : (s : Bytes) → slice 0 (line_length s) s ≡ take_line s
slice-line_length [] = refl
slice-line_length (c ∷ s) = elim (Bool-cases (eqb c 10)) [
  | inl e ↦ rw e refl
  | inr e ↦ rw e (ap (λ (x : Bytes). c ∷ x) (slice-line_length s))
]

nth_line-nil : (k : ℕ) → nth_line k [] ≡ []
nth_line-nil zero = refl
nth_line-nil (suc k) = nth_line-nil k

-- The span lies `j` bytes on, and holds the line that is `k` newlines on.
abbrev Finds : ℕ → ℕ → Bytes → SourceSpan → Type 0
Finds i k s r = (j : ℕ) × (r.offset ≡ i + j) × (slice j r.length s ≡ nth_line k s)

Finds-here : (i : ℕ) (s : Bytes) → Finds i 0 s (record { offset = i; length = line_length s })
Finds-here i s = (0, omega arith, slice-line_length s)

Finds-find_line :
    (target i current k : ℕ) (s : Bytes)
    → target ≡ current + k
    → Finds i k s (find_line target i current s)
unfolding find_line
Finds-find_line target i current k [] h = (0, omega arith, sym (nth_line-nil k))
Finds-find_line target i current zero (c ∷ s) h =
    subst (Finds i 0 (c ∷ s)) (sym (if_true _ _ _ here)) (Finds-here i (c ∷ s))
  where
    here : eqb current target ≡ true
    here = ground (arith, h)
Finds-find_line target i current (suc k) (c ∷ s) h =
    subst (Finds i (suc k) (c ∷ s)) (sym (if_false _ _ _ away)) (elim (Bool-cases (eqb c 10)) [
      | inl e ↦
          subst (λ x. Finds i (suc k) (c ∷ s) (find_line target (suc i) x s))
            (sym (if_true _ _ _ e))
            (newline e (Finds-find_line target (suc i) (suc current) k s (omega (arith, h))))
      | inr e ↦
          subst (λ x. Finds i (suc k) (c ∷ s) (find_line target (suc i) x s))
            (sym (if_false _ _ _ e))
            (same_line e (Finds-find_line target (suc i) current (suc k) s h))
    ])
  where
    away : eqb current target ≡ false
    away = ground (arith, h)

    newline : {r : SourceSpan} → eqb c 10 ≡ true → Finds (suc i) k s r → Finds i (suc k) (c ∷ s) r
    newline e (j, o, x) =
        (suc j, omega (arith, o), x ∙ ap (λ y. nth_line k y) (sym (if_true _ _ _ e)))

    same_line :
        {r : SourceSpan} → eqb c 10 ≡ false → Finds (suc i) (suc k) s r → Finds i (suc k) (c ∷ s) r
    same_line e (j, o, x) =
        (suc j, omega (arith, o), x ∙ ap (λ y. nth_line k y) (sym (if_false _ _ _ e)))

from_start : (a j : ℕ) → a ≡ 0 + j → j ≡ a
from_start a j h = omega (arith, h)

-- The span of a line, counted from 1, holds the text of that line without its newline; behind the
-- last line it is empty.
pub slice-span_for_line :
    (source : Bytes) (line : ℕ)
    → slice (span_for_line source (suc line)).offset (span_for_line source (suc line)).length source
      ≡ nth_line line source
unfolding span_for_line
slice-span_for_line source line =
    let (j, o, e) = Finds-find_line (suc line) 0 1 line source (omega arith) in
    subst (λ x. slice x (find_line (suc line) 0 1 source).length source ≡ nth_line line source)
      (from_start _ j o) e
