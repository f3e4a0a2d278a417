-- ===== src/Prelude/Eq.antt =====
-- Decidable equality as an instance: numbers, texts and lists of them.
use Prim.Native.Nat.{ℕ}
use Prim.Native.String.{String}
use mathlib.Core.Path.{subst, ◌≡◌, refl}
use mathlib.Core.Logic.{◌↔◌}
use mathlib.Core.Bool.{Bool, true, false, ◌&&◌}
use mathlib.Core.List.{List, [], ◌∷◌}
use native.Mathlib.Omega.{arith}
use text.Mathlib.Text.{◌==◌ as str_eq}
use text.Mathlib.TextEquality.{eq_iff}
use quire.Prelude.Tests.{eqb, eqb_iff}

-- An exact Boolean test for equality.
pub record Eq {ℓ} (A : Type ℓ) : Type ℓ where
  pub same : A → A → Bool
  pub same_refl : (a : A) → same a a ≡ true
  pub same_eq : (a b : A) → same a b ≡ true → a ≡ b

module _ {ℓ} {A : Type ℓ} ⦃e : Eq A⦄ where
  infix 50 ◌==◌
  abbrev pub ◌==◌ : A → A → Bool
  ◌==◌ = e.same

  pub ==_refl : (a : A) → (a == a) ≡ true
  ==_refl a = e.same_refl a

  pub ==_iff : (a b : A) → (a == b ≡ true) ↔ (a ≡ b)
  ==_iff a b = (e.same_eq a b, λ h. subst (λ x. (a == x) ≡ true) h (e.same_refl a))

abbrev pub list_same : List ℕ → List ℕ → Bool
list_same [] [] = true
list_same (a ∷ xs) (b ∷ ys) = eqb a b && list_same xs ys
list_same _ _ = false

pub list_same_refl : (a : List ℕ) → list_same a a ≡ true
list_same_refl [] = refl
list_same_refl (a ∷ xs) = ground (arith, list_same_refl xs, eqb_iff a a)

pub list_same_eq : (a b : List ℕ) → list_same a b ≡ true → a ≡ b
list_same_eq [] [] h = refl
list_same_eq [] (b ∷ ys) h = ground arith
list_same_eq (a ∷ xs) [] h = ground arith
list_same_eq (a ∷ xs) (b ∷ ys) h = ground (arith, list_same_eq xs ys, eqb_iff a b)

-- Instances for numbers, texts and bytes.
instance abbrev pub bytes_eq : Eq (List ℕ)
bytes_eq = record { same = list_same; same_refl = list_same_refl; same_eq = list_same_eq }

instance abbrev pub nat_eq : Eq ℕ
nat_eq = record {
  same = eqb;
  same_refl = λ a. (eqb_iff a a).1 refl;
  same_eq = λ a b. (eqb_iff a b).0;
}

instance abbrev pub string_eq : Eq String
string_eq = record {
  same = str_eq;
  same_refl = λ a. (eq_iff a a).1 refl;
  same_eq = λ a b. (eq_iff a b).0;
}

abbrev pub lists_same : List (List ℕ) → List (List ℕ) → Bool
lists_same [] [] = true
lists_same (a ∷ xs) (b ∷ ys) = list_same a b && lists_same xs ys
lists_same _ _ = false

pub lists_same_refl : (a : List (List ℕ)) → lists_same a a ≡ true
lists_same_refl [] = refl
lists_same_refl (a ∷ xs) = ground (arith, lists_same_refl xs, list_same_refl a)

pub lists_same_eq : (a b : List (List ℕ)) → lists_same a b ≡ true → a ≡ b
lists_same_eq [] [] h = refl
lists_same_eq [] (b ∷ ys) h = ground arith
lists_same_eq (a ∷ xs) [] h = ground arith
lists_same_eq (a ∷ xs) (b ∷ ys) h = ground (arith, lists_same_eq xs ys, list_same_eq a b)

instance abbrev pub path_eq : Eq (List (List ℕ))
path_eq = record { same = lists_same; same_refl = lists_same_refl; same_eq = lists_same_eq }
