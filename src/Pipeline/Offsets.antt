-- ===== src/Pipeline/Offsets.antt =====
-- Where a Lua error points in the script: `extract_line_col` and `line_col_offset` of
-- quire-core/src/fennel.rs. A text is a list of characters, each with the number of bytes that it
-- takes in UTF-8 as an argument; `\d` is a digit of any script, here one of ASCII.
use quire.Prelude.{
  ℕ, zero, suc, ◌+◌, ◌*◌, ◌-◌, Bool, false, ◌&&◌, Option, none, some, [], ◌∷◌, eqb, leb, ltb,
  if◌then◌else◌,
}
use quire.Prelude.Bytes.{Bytes}

abbrev is_digit : ℕ → Bool
is_digit c = leb b'0' c && leb c b'9'

-- The longest run of digits, as its characters and the rest.
abbrev digits_of : Bytes → Bytes × Bytes
digits_of [] = ([], [])
digits_of (c ∷ s) = let (d, rest) = digits_of s in if is_digit c then (c ∷ d, rest) else ([], c ∷ s)

-- str::parse of a `usize`, after what was read
abbrev usize_from : ℕ → Bytes → Option ℕ
usize_from n [] = if ltb n 18446744073709551616 then some n else none
usize_from n (c ∷ s) = usize_from (n * 10 + (c - b'0')) s

abbrev closes : Bytes → Bool
closes (c ∷ d ∷ s) = eqb c b':' && eqb d b' '
closes _ = false

-- `:(\d+): ` behind the first number: the digits of the second.
second_number : Bytes → Option Bytes
second_number (c ∷ s) =
    let (d, rest) = digits_of s in
    if eqb c b':'
    then elim d [ [] ↦ none | x ∷ xs ↦ if closes rest then some (x ∷ xs) else none ]
    else none
second_number [] = none

-- The captures of a match that starts here.
unfoldable pub match_here : Bytes → Option (Bytes × Option Bytes)
unfolding second_number
match_here [] = none
match_here (c ∷ s) =
    let (d, rest) = digits_of s in
    if eqb c b':'
    then elim d [
      | [] ↦ none
      | x ∷ xs ↦ elim (second_number rest) [
        | some col ↦ some (x ∷ xs, some col)
        | none ↦ if closes rest then some (x ∷ xs, none) else none
      ]
    ]
    else none

-- Regex::captures: the first place where it matches
abbrev captures : Bytes → Option (Bytes × Option Bytes)
captures [] = none
captures (c ∷ s) = elim (match_here (c ∷ s)) [ some m ↦ some m | none ↦ captures s ]

abbrev positive : Option ℕ → Option ℕ
positive none = none
positive (some zero) = none
positive (some (suc n)) = some (suc n)

abbrev column_of : Option Bytes → Option ℕ
column_of none = none
column_of (some d) = usize_from 0 d

unfoldable pub extract_line_col : Bytes → Option (ℕ × Option ℕ)
extract_line_col msg = elim (captures msg) [
  | none ↦ none
  | some (line, col) ↦ elim (positive (usize_from 0 line)) [
    | none ↦ none
    | some n ↦ some (n, column_of col)
  ]
]

module _ (len_utf8 : ℕ → ℕ) where
  -- The loop over the line's text, at the byte `idx` of it, with `byte_pos` as it stands.
  column_offset : ℕ → ℕ → ℕ → Bytes → ℕ
  column_offset col idx byte_pos [] = byte_pos
  column_offset col idx byte_pos (c ∷ s) =
      let rest = column_offset col (idx + len_utf8 c) (idx + len_utf8 c) s in
      if eqb c 10 then byte_pos else if eqb (idx + 1) col then idx else rest

  at_column : ℕ → Option ℕ → Bytes → ℕ
  at_column i none s = i
  at_column i (some col) s = i + column_offset col 0 0 s

  -- The loop over the source, at the byte `i` of it and in the line `current`.
  offset_from : ℕ → Option ℕ → ℕ → ℕ → Bytes → Option ℕ
  unfolding at_column column_offset
  offset_from line col i current [] = none
  offset_from line col i current (c ∷ s) =
      let rest =
        offset_from line col (i + len_utf8 c) (if eqb c 10 then suc current else current) s in
      if eqb current line then some (at_column i col (c ∷ s)) else rest

  unfoldable pub line_col_offset : Bytes → ℕ → Option ℕ → Option ℕ
  unfolding offset_from
  line_col_offset source line col = offset_from line col 0 1 source
