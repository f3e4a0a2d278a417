-- ===== src/Prelude/Sorting.antt =====
-- A stable insertion sort, for the `sort_by` of the program and the `ORDER BY` of its queries; SQL
-- leaves the order of equal rows open, here it is the table's.
use quire.Prelude.{
  ◌≡◌, refl, sym, Bool, ◌||◌, List, [], ◌∷◌, All, any, Bool-cases, inl, inr, if_true, if_false,
  arith, if◌then◌else◌,
}
use mathlib.Core.Path.{subst}

module _ {A : Type 0} (le : A → A → Bool) where
  unfoldable pub insert_by : A → List A → List A
  insert_by a [] = a ∷ []
  insert_by a (x ∷ xs) = let rest = insert_by a xs in if le a x then a ∷ x ∷ xs else x ∷ rest

  unfoldable pub order_by : List A → List A
  unfolding insert_by
  order_by [] = []
  order_by (a ∷ as_) = insert_by a (order_by as_)

module _ {A : Type 0} (P : A → Type 0) where
  All-insert_by :
      (le : A → A → Bool) (a : A) (xs : List A) → P a → All P xs → All P (insert_by le a xs)
  unfolding insert_by
  All-insert_by le a [] p h = (p, tt)
  All-insert_by le a (x ∷ xs) p h = elim (Bool-cases (le a x)) [
    | inl e ↦ subst (All P) (sym (if_true _ _ _ e)) (p, h)
    | inr e ↦ subst (All P) (sym (if_false _ _ _ e)) (h.0, All-insert_by le a xs p h.1)
  ]

  pub All-order_by : (le : A → A → Bool) (xs : List A) → All P xs → All P (order_by le xs)
  unfolding order_by
  All-order_by le [] h = tt
  All-order_by le (x ∷ xs) h = All-insert_by le x (order_by le xs) h.0 (All-order_by le xs h.1)

module _ {A : Type 0} (p : A → Bool) (le : A → A → Bool) where
  any-insert_by : (a : A) (xs : List A) → any p (insert_by le a xs) ≡ (p a || any p xs)
  unfolding insert_by
  any-insert_by a [] = refl
  any-insert_by a (x ∷ xs) = ground (arith, any-insert_by a xs)

  pub any-order_by : (xs : List A) → any p (order_by le xs) ≡ any p xs
  unfolding order_by
  any-order_by [] = refl
  any-order_by (x ∷ xs) = ground (arith, any-insert_by x (order_by le xs), any-order_by xs)
