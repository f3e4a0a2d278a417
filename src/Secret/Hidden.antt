-- ===== src/Secret/Hidden.antt =====
-- `replace_from` and the occurrences of a value: lemmas for one replacement.
use quire.Prelude.{
  ℕ, zero, suc, ◌-◌, ◌≡◌, refl, sym, ap, ◌∙◌, true, false, ◌⊎◌, inl, inr, [], ◌∷◌, ◌++◌, arith,
  length, Bool-cases, or_false, append_assoc,
}
use mathlib.Core.Path.{subst}
use mathlib.Core.Bool.{false≢true}
use quire.Prelude.Bytes.{Bytes, starts_with, occurs, contains}
use quire.Secret.{replace_from}

-- The value has no brace.
abbrev pub IsPlain : Bytes → Type 0
IsPlain v = (contains b'{' v ≡ false) × (contains b'}' v ≡ false)

-- A match in `x ++ } ∷ t` of a value without the brace is a match in `x`.
starts_with-brace :
    (v x t : Bytes)
    → contains b'}' v ≡ false
    → starts_with v (x ++ b'}' ∷ t) ≡ true
    → starts_with v x ≡ true
starts_with-brace [] x t h e = refl
starts_with-brace (c ∷ v) [] t h e = absurd (ground arith)
starts_with-brace (c ∷ v) (d ∷ x) t h e = ground (arith, starts_with-brace v x t)

occurs-brace :
    (c : ℕ) (v x t : Bytes)
    → contains b'}' (c ∷ v) ≡ false
    → occurs (c ∷ v) x ≡ false
    → occurs (c ∷ v) t ≡ false
    → occurs (c ∷ v) (x ++ b'}' ∷ t) ≡ false
occurs-brace c v [] t h a b = ground arith
occurs-brace c v (d ∷ x) t h a b =
    ground (arith, occurs-brace c v x t h, starts_with-brace (c ∷ v) (d ∷ x) t h)

module _ (p to : Bytes) (d : ℕ) (s : Bytes) where
  replace_from-skip : (k : ℕ) → replace_from p to (suc k) (d ∷ s) ≡ replace_from p to k s
  unfolding replace_from
  replace_from-skip k = refl

  replace_from-match :
      starts_with p (d ∷ s) ≡ true
      → replace_from p to 0 (d ∷ s) ≡ to ++ replace_from p to (length p - 1) s
  unfolding replace_from
  replace_from-match m = rw (replace_from, m) refl

  replace_from-mismatch :
      starts_with p (d ∷ s) ≡ false → replace_from p to 0 (d ∷ s) ≡ d ∷ replace_from p to 0 s
  unfolding replace_from
  replace_from-mismatch m = rw (replace_from, m) refl

module _ (p to tail : Bytes) (brace : to ≡ b'{' ∷ tail) where
  -- the front of a text after replacement is the text's own, up to a brace
  starts_with-replace_from :
      (v s : Bytes)
      → contains b'{' v ≡ false
      → starts_with v (replace_from p to 0 s) ≡ true
      → starts_with v s ≡ true
  starts_with-replace_from [] s h e = refl
  starts_with-replace_from (c ∷ v) [] h e = unfold replace_from in e
  starts_with-replace_from (c ∷ v) (d ∷ s) h e = elim (Bool-cases (starts_with p (d ∷ s))) [
    | inl m ↦ absurd (
        at_brace _ (
          subst (λ x. starts_with (c ∷ v) x ≡ true)
            (replace_from-match p to d s m
              ∙ ap (λ (x : Bytes). x ++ replace_from p to (length p - 1) s) brace)
            e))
    | inr m ↦
        onwards (starts_with-replace_from v s)
          (subst (λ x. starts_with (c ∷ v) x ≡ true) (replace_from-mismatch p to d s m) e)
  ]
    where
      at_brace : (t : Bytes) → starts_with (c ∷ v) (b'{' ∷ t) ≡ true → ⊥
      at_brace t k = ground arith

      onwards :
          (contains b'{' v ≡ false
            → starts_with v (replace_from p to 0 s) ≡ true
            → starts_with v s ≡ true)
          → starts_with (c ∷ v) (d ∷ replace_from p to 0 s) ≡ true
          → starts_with (c ∷ v) (d ∷ s) ≡ true
      onwards f k = ground (arith, f)

module _ (p front : Bytes) (c : ℕ) (v : Bytes) (h : IsPlain (c ∷ v))
    (f : occurs (c ∷ v) (b'{' ∷ front) ≡ false) where
  abbrev to : Bytes
  to = b'{' ∷ (front ++ b'}' ∷ [])

  occurs-to : (t : Bytes) → occurs (c ∷ v) t ≡ false → occurs (c ∷ v) (to ++ t) ≡ false
  occurs-to t e =
      subst (λ x. occurs (c ∷ v) x ≡ false) (sym (append_assoc (b'{' ∷ front) (b'}' ∷ []) t))
        (occurs-brace c v (b'{' ∷ front) t h.1 f e)

  -- the value is what is replaced, or occurs nowhere
  abbrev Absent : Bytes → Type 0
  Absent s = (p ≡ c ∷ v) ⊎ (occurs (c ∷ v) s ≡ false)

  starts_with-Absent :
      (d : ℕ) (s : Bytes)
      → Absent (d ∷ s)
      → starts_with p (d ∷ s) ≡ false
      → starts_with (c ∷ v) (d ∷ s) ≡ false
  starts_with-Absent d s (inl e) m = subst (λ x. starts_with x (d ∷ s) ≡ false) e m
  starts_with-Absent d s (inr e) m = (or_false _ _ e).0

  Absent-tail : (d : ℕ) (s : Bytes) → Absent (d ∷ s) → Absent s
  Absent-tail d s (inl e) = inl e
  Absent-tail d s (inr e) = inr (or_false _ _ e).1

  occurs-mismatch :
      (d : ℕ) (s : Bytes)
      → Absent (d ∷ s)
      → starts_with p (d ∷ s) ≡ false
      → occurs (c ∷ v) (replace_from p to 0 s) ≡ false
      → occurs (c ∷ v) (d ∷ replace_from p to 0 s) ≡ false
  occurs-mismatch d s o m e = elim (Bool-cases (starts_with (c ∷ v) (d ∷ replace_from p to 0 s))) [
    | inl k ↦ absurd (
        false≢true (
          sym (starts_with-Absent d s o m)
          ∙ starts_with-replace_from p to (front ++ b'}' ∷ []) refl (c ∷ v) (d ∷ s) h.0 (
              subst (λ x. starts_with (c ∷ v) x ≡ true) (sym (replace_from-mismatch p to d s m))
                k)))
    | inr k ↦ ground (arith, k, e)
  ]

  -- A value without braces that does not occur in the text, unless it is what is replaced, and not
  -- in the replacement, is not in the result.
  pub occurs-replace_from :
      (k : ℕ) (s : Bytes) → Absent s → occurs (c ∷ v) (replace_from p to k s) ≡ false
  occurs-replace_from k [] o = unfold replace_from in refl
  occurs-replace_from (suc k) (d ∷ s) o =
      subst (λ x. occurs (c ∷ v) x ≡ false) (sym (replace_from-skip p to d s k))
        (occurs-replace_from k s (Absent-tail d s o))
  occurs-replace_from zero (d ∷ s) o = elim (Bool-cases (starts_with p (d ∷ s))) [
    | inl m ↦
        subst (λ x. occurs (c ∷ v) x ≡ false) (sym (replace_from-match p to d s m))
          (occurs-to _ (occurs-replace_from (length p - 1) s (Absent-tail d s o)))
    | inr m ↦
        subst (λ x. occurs (c ∷ v) x ≡ false) (sym (replace_from-mismatch p to d s m))
          (occurs-mismatch d s o m (occurs-replace_from 0 s (Absent-tail d s o)))
  ]
