-- ===== src/Prelude/Bytes.antt =====
-- Texts that the program walks, as the list of their UTF-8 bytes.
use Prim.Native.Nat.{ℕ}
use Prim.Native.Char.{code}
use Prim.Native.String.{String}
use mathlib.Core.Bool.{Bool, true, false, ◌&&◌, ◌||◌}
use mathlib.Core.List.{List, [], ◌∷◌}
use quire.Prelude.Tests.{eqb}

abbrev pub Bytes : Type 0
Bytes = List ℕ

-- The bytes of a literal: its code points, as every literal here is ASCII.
abbrev pub bytes : String → Bytes
bytes String.[] = []
bytes (String.◌∷◌ ch rest) = code ch ∷ bytes rest

-- str::starts_with
abbrev pub starts_with : Bytes → Bytes → Bool
starts_with [] s = true
starts_with (p ∷ ps) [] = false
starts_with (p ∷ ps) (c ∷ s) = eqb p c && starts_with ps s

-- str::contains with a string needle
abbrev pub occurs : Bytes → Bytes → Bool
occurs p [] = starts_with p []
occurs p (c ∷ s) = starts_with p (c ∷ s) || occurs p s

-- str::contains with a one-byte needle
abbrev pub contains : ℕ → Bytes → Bool
contains b [] = false
contains b (c ∷ s) = eqb c b || contains b s
