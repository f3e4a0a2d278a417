-- ===== src/Web/Tree/Sorted.antt =====
-- The order of a directory's entries.
use quire.Prelude.{ℕ, ◌≡◌, Bool, true, List, [], ◌∷◌, length, select}
use quire.Prelude.Bytes.{Bytes}
use quire.Web.Tree.{Raw, comes_before}

-- Each entry may come before the next: directories and submodules before files, and names in their
-- order among either.
abbrev pub IsSorted : List Raw → Type 0
IsSorted [] = Unit
IsSorted (a ∷ []) = Unit
IsSorted (a ∷ b ∷ xs) = (comes_before a b ≡ true) × IsSorted (b ∷ xs)

-- How many entries pass a test.
abbrev pub count : (Raw → Bool) → List Raw → ℕ
count p xs = length (select p xs)
