-- ===== src/Web/Commit/Parsed.antt =====
-- The fields of a commit, read from git's lines.
use quire.Prelude.{◌≡◌, List, ◌∷◌}
use quire.Prelude.Bytes.{Bytes}

-- Three lines and more.
abbrev Long : List Bytes → Type 0
Long ls = (m : Bytes) × (n : Bytes) × (o : Bytes) × (rest : List Bytes) × (ls ≡ m ∷ n ∷ o ∷ rest)
