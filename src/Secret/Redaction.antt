-- ===== src/Secret/Redaction.antt =====
-- `redact` over all the entries of a registry.
use quire.Prelude.{
  ℕ, ◌≤◌, ◌≡◌, refl, sym, ap, ◌∙◌, Bool, true, false, ◌||◌, ◌⊎◌, inl, inr, List, [], ◌∷◌, ◌++◌,
  arith, length, any, Bool-cases, All, append_assoc, lookup, Option, some, ◌==◌, bytes_eq, ==_iff,
  if◌then◌else◌,
}
use mathlib.Core.Path.{subst}
use quire.Prelude.Bytes.{Bytes, starts_with, occurs}
use quire.Secret.{
  SecretRegistry, replace_from, replacement, redact_all, redact, entries, insert_sorted, precedes,
}
use quire.Secret.Hidden.{IsPlain, occurs-replace_from}

starts_with-append : (v x t : Bytes) → starts_with v x ≡ true → starts_with v (x ++ t) ≡ true
starts_with-append [] x t h = refl
starts_with-append (c ∷ v) [] t h = absurd (ground arith)
starts_with-append (c ∷ v) (d ∷ x) t h = ground (arith, starts_with-append v x t)

or-right : (a b : Bool) → a ≡ false → (a || b) ≡ true → b ≡ true
or-right true b h e = absurd (ground arith)
or-right false b h e = e

or-left : (a b : Bool) → a ≡ true → (a || b) ≡ true
or-left true b h = refl
or-left false b h = absurd (ground arith)

or-any : (a b : Bool) → b ≡ true → (a || b) ≡ true
or-any true b h = refl
or-any false b h = h

occurs-front : (c : ℕ) (v x t : Bytes) → occurs (c ∷ v) (x ++ t) ≡ false → occurs (c ∷ v) x ≡ false
occurs-front c v [] t h = refl
occurs-front c v (d ∷ x) t h =
    ground (arith, occurs-front c v x t, starts_with-append (c ∷ v) (d ∷ x) t)

abbrev front : Bytes → Bytes
front name = b'{' ∷ b' ' ∷ (name ++ b' ' ∷ b'}' ∷ [])

replacement-front : (name : Bytes) → b'{' ∷ (front name ++ b'}' ∷ []) ≡ replacement name
replacement-front name =
    ap (λ (x : Bytes). b'{' ∷ b'{' ∷ b' ' ∷ x) (append_assoc name (b' ' ∷ b'}' ∷ []) (b'}' ∷ []))

-- The value is not in the texts that stand for the names.
abbrev pub IsUnnamed : Bytes → List (Bytes × Bytes) → Type 0
IsUnnamed v = All (λ (e : Bytes × Bytes). occurs v (replacement e.0) ≡ false)

abbrev pub has_value : Bytes → List (Bytes × Bytes) → Bool
has_value v = any (λ (e : Bytes × Bytes). e.1 == v)

module _ (c : ℕ) (v : Bytes) (h : IsPlain (c ∷ v)) where
  occurs-entry :
      (name w text : Bytes)
      → occurs (c ∷ v) (replacement name) ≡ false
      → (w ≡ c ∷ v) ⊎ (occurs (c ∷ v) text ≡ false)
      → occurs (c ∷ v) (replace_from w (replacement name) 0 text) ≡ false
  occurs-entry name w text f o =
      subst (λ x. occurs (c ∷ v) (replace_from w x 0 text) ≡ false) (replacement-front name)
        (occurs-replace_from w (front name) c v h
          (occurs-front c v (b'{' ∷ front name) (b'}' ∷ [])
            (subst (λ x. occurs (c ∷ v) x ≡ false) (sym (replacement-front name)) f))
          0 text o)

  occurs-redact_all :
      (es : List (Bytes × Bytes)) (text : Bytes)
      → IsUnnamed (c ∷ v) es
      → (has_value (c ∷ v) es ≡ true) ⊎ (occurs (c ∷ v) text ≡ false)
      → occurs (c ∷ v) (redact_all es text) ≡ false
  unfolding redact_all
  occurs-redact_all [] text f (inl e) = absurd (ground arith)
  occurs-redact_all [] text f (inr e) = e
  occurs-redact_all ((name, w) ∷ es) text f (inr e) =
      occurs-redact_all es _ f.1 (inr (occurs-entry name w text f.0 (inr e)))
  occurs-redact_all ((name, w) ∷ es) text f (inl e) = elim (Bool-cases (w == c ∷ v)) [
    | inl k ↦
        occurs-redact_all es _ f.1
          (inr (occurs-entry name w text f.0 (inl ((==_iff w (c ∷ v)).0 k))))
    | inr k ↦ occurs-redact_all es _ f.1 (inl (or-right _ _ k e))
  ]

any-insert_sorted :
    (q : Bytes × Bytes → Bool) (name v : Bytes) (es : List (Bytes × Bytes))
    → any q (insert_sorted name v es) ≡ (q (name, v) || any q es)
unfolding insert_sorted
any-insert_sorted q name v [] = refl
any-insert_sorted q name v ((name', v') ∷ es) = ground (arith, any-insert_sorted q name v es)

any-entries : (q : Bytes × Bytes → Bool) (es : List (Bytes × Bytes)) → any q (entries es) ≡ any q es
unfolding entries
any-entries q [] = refl
any-entries q ((name, v) ∷ es) =
    any-insert_sorted q name v (entries es) ∙ ap (λ (b : Bool). q (name, v) || b) (any-entries q es)

All-insert_sorted :
    (P : Bytes × Bytes → Type 0) (name v : Bytes) (es : List (Bytes × Bytes))
    → P (name, v)
    → All P es
    → All P (insert_sorted name v es)
unfolding insert_sorted
All-insert_sorted P name v [] p h = (p, tt)
All-insert_sorted P name v ((name', v') ∷ es) p h = elim (Bool-cases (precedes name v name' v')) [
  | inl e ↦ rw e (p, h)
  | inr e ↦ rw e (h.0, All-insert_sorted P name v es p h.1)
]

All-entries :
    (P : Bytes × Bytes → Type 0) (es : List (Bytes × Bytes)) → All P es → All P (entries es)
unfolding entries
All-entries P [] h = tt
All-entries P ((name, v) ∷ es) h =
    All-insert_sorted P name v (entries es) h.0 (All-entries P es h.1)

found_at :
    (b : Bool) (w v : Bytes) (o : Option Bytes)
    → (if b then some w else o) ≡ some v
    → (w ≡ v) ⊎ (o ≡ some v)
found_at true w v o h = inl (ground arith)
found_at false w v o h = inr h

has_value-lookup :
    (name v : Bytes) (es : List (Bytes × Bytes)) → lookup name es ≡ some v → has_value v es ≡ true
has_value-lookup name v [] h = absurd (ground arith)
has_value-lookup name v ((n, w) ∷ es) h = elim (found_at (n == name) w v (lookup name es) h) [
  | inl e ↦ or-left _ _ ((==_iff w v).1 e)
  | inr e ↦ or-any _ _ (has_value-lookup name v es e)
]

-- A value registered under a name is nowhere in a redacted text, if it has a byte, no brace, and
-- does not occur in what is written for a registered name.
pub redact_hides :
    (r : SecretRegistry) (name v text : Bytes)
    → lookup name r.revealed ≡ some v
    → 1 ≤ length v
    → IsPlain v
    → IsUnnamed v r.revealed
    → occurs v (redact text r) ≡ false
redact_hides r name [] text h l p u = absurd (ground arith)
redact_hides r name (c ∷ v) text h l p u =
    unfold redact in
    occurs-redact_all c v p (entries r.revealed) text
      (All-entries (λ (e : Bytes × Bytes). occurs (c ∷ v) (replacement e.0) ≡ false) r.revealed u)
      (inl (
        any-entries (λ (e : Bytes × Bytes). e.1 == c ∷ v) r.revealed
        ∙ has_value-lookup name (c ∷ v) r.revealed h))
