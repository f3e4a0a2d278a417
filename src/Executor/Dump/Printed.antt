-- ===== src/Executor/Dump/Printed.antt =====
-- What `dump` prints of a file that `write_cri_log` wrote.
use quire.Prelude.{
  ℕ, ◌≡◌, ◌∙◌, refl, sym, ap, true, false, ◌&&◌, some, List, [], ◌∷◌, ◌++◌, All, all, map, eqb,
  arith, append_assoc, append-nil, all-append, or_false, Bool-cases, inl, inr, if◌then◌else◌,
}
use mathlib.Core.List.{map-append}
use quire.Prelude.Bytes.{Bytes, bytes, contains}
use quire.Push.Hook.{stdin_lines, onto_line, at_newline}
use quire.Push.Hook.Lines.{stays, stdin_lines-line}
use quire.Runtime.{ShOutput, cri_lines, cri_log}
use quire.Web.Tree.File.Fields.{splitn-three}
use quire.Executor.Dump.{nth_three, stripped, header, dump_file, dump_contents}

-- A line of the file.
abbrev cri_line : Bytes → Bytes → Bytes → Bytes
cri_line ts stream line = ts ++ b' ' ∷ (stream ++ b' ' ∷ (b'F' ∷ b' ' ∷ line))

stripped-cri_line :
    (ts stream line : Bytes)
    → contains b' ' ts ≡ false
    → contains b' ' stream ≡ false
    → stripped (cri_line ts stream line) ≡ line
unfolding stripped
stripped-cri_line ts stream line h k =
    ap (λ (x : List Bytes). nth_three x (cri_line ts stream line))
      (splitn-three b' ' ts stream (b'F' ∷ []) line h k refl)

stays-line :
    (ts stream line : Bytes)
    → all stays ts ≡ true
    → all stays stream ≡ true
    → all stays line ≡ true
    → all stays (cri_line ts stream line) ≡ true
stays-line ts stream line h k l =
    all-append stays ts _
    ∙ ground (arith, h, all-append stays stream (b' ' ∷ b'F' ∷ b' ' ∷ line), k, l)

-- Lines without carriage returns.
stdin_lines-stays :
    (s : Bytes) → contains 13 s ≡ false → All (λ l. all stays l ≡ true) (stdin_lines s)
unfolding stdin_lines
stdin_lines-stays [] h = tt
stdin_lines-stays (c ∷ s) h =
    let (no_return, rest) = or_false (eqb c 13) (contains 13 s) h in
    one c no_return (stdin_lines s) (stdin_lines-stays s rest)
  where
    onto :
        (c : ℕ) (ls : List Bytes)
        → eqb c 10 ≡ false
        → eqb c 13 ≡ false
        → All (λ l. all stays l ≡ true) ls
        → All (λ l. all stays l ≡ true) (onto_line c ls)
    onto c [] a b q = (ground (arith, a, b), tt)
    onto c (l ∷ ls) a b q = (ground (arith, a, b, q.0), q.1)

    one :
        (c : ℕ)
        → eqb c 13 ≡ false
        → (ls : List Bytes) → All (λ l. all stays l ≡ true) ls
        → All
            (λ l. all stays l ≡ true)
            (if eqb c 10 then [] ∷ ls else if eqb c 13 && at_newline s then ls else onto_line c ls)
    one c b ls q = elim (Bool-cases (eqb c 10)) [
      | inl e ↦ rw e (refl, q)
      | inr e ↦ rw (e, b) (onto c ls e b q)
    ]

cri_lines-line :
    (ts stream line : Bytes) (ls : List Bytes) (rest : Bytes)
    → cri_lines ts stream (line ∷ ls) ++ rest
      ≡ cri_line ts stream line ++ 10 ∷ (cri_lines ts stream ls ++ rest)
unfolding cri_lines
cri_lines-line ts stream line ls rest = simp (append_assoc)

module _ (ts : Bytes) (no_space : contains b' ' ts ≡ false) (one_line : all stays ts ≡ true) where
  lines-cri_lines :
      (stream : Bytes) (ls : List Bytes) (rest : Bytes)
      → all stays stream ≡ true
      → All (λ l. all stays l ≡ true) ls
      → stdin_lines (cri_lines ts stream ls ++ rest)
        ≡ map (cri_line ts stream) ls ++ stdin_lines rest
  unfolding cri_lines
  lines-cri_lines stream [] rest k h = refl
  lines-cri_lines stream (l ∷ ls) rest k h =
      ap stdin_lines (cri_lines-line ts stream l ls rest)
      ∙ stdin_lines-line (cri_line ts stream l) _ (stays-line ts stream l one_line k h.0)
      ∙ ap (λ (x : List Bytes). cri_line ts stream l ∷ x) (lines-cri_lines stream ls rest k h.1)

  stripped-lines :
      (stream : Bytes) (ls : List Bytes)
      → contains b' ' stream ≡ false
      → map stripped (map (cri_line ts stream) ls) ≡ ls
  stripped-lines stream [] k = refl
  stripped-lines stream (l ∷ ls) k =
      ap (λ (x : Bytes). x ∷ map stripped (map (cri_line ts stream) ls))
        (stripped-cri_line ts stream l no_space k)
      ∙ ap (λ (x : List Bytes). l ∷ x) (stripped-lines stream ls k)

  stripped-cri_log :
      (o : ShOutput)
      → contains 13 o.stdout ≡ false
      → contains 13 o.stderr ≡ false
      → map stripped (stdin_lines (cri_log ts o)) ≡ stdin_lines o.stdout ++ stdin_lines o.stderr
  unfolding cri_log
  stripped-cri_log o a b =
      let out = stdin_lines o.stdout in
      let errors = stdin_lines o.stderr in
      ap (map stripped) (
        lines-cri_lines (bytes "stdout") out _ refl (stdin_lines-stays o.stdout a)
        ∙ ap (λ (x : List Bytes). map (cri_line ts (bytes "stdout")) out ++ x)
            (ap stdin_lines (sym (append-nil (cri_lines ts (bytes "stderr") errors)))
              ∙ lines-cri_lines (bytes "stderr") errors [] refl (stdin_lines-stays o.stderr b)
              ∙ append_no_lines errors))
      ∙ map-append stripped (map (cri_line ts (bytes "stdout")) out) _
      ∙ ap (λ (x : List Bytes). x ++ map stripped (map (cri_line ts (bytes "stderr")) errors))
          (stripped-lines (bytes "stdout") out refl)
      ∙ ap (λ (x : List Bytes). out ++ x) (stripped-lines (bytes "stderr") errors refl)
    where
      append_no_lines :
          (ls : List Bytes)
          → map (cri_line ts (bytes "stderr")) ls ++ stdin_lines []
            ≡ map (cri_line ts (bytes "stderr")) ls
      append_no_lines ls = unfold stdin_lines in append-nil _

-- Of a log file that `write_cri_log` wrote of an output without carriage returns, at a time whose text
-- has no space and no line break, `quire-ci` prints below the name of the file the lines of standard
-- output and then those of standard error, as the process wrote them.
pub dump_file-cri_log :
    (ts job file_name : Bytes) (o : ShOutput)
    → contains b' ' ts ≡ false
    → all stays ts ≡ true
    → contains 13 o.stdout ≡ false
    → contains 13 o.stderr ≡ false
    → dump_file job (record { file_name = file_name; contents = some (cri_log ts o) })
      ≡ (header job file_name ∷ (stdin_lines o.stdout ++ stdin_lines o.stderr), true)
unfolding dump_file dump_contents
dump_file-cri_log ts job file_name o h k a b =
    ap (λ (x : List Bytes). (header job file_name ∷ x, true)) (stripped-cri_log ts h k o a b)
