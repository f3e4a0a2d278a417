-- ===== src/Push/Hook.antt =====
-- `post_receive` of quire-server/src/bin/quire/commands/hook.rs: what it makes of the lines that git
-- writes to it. The repository that the hook runs in, the socket and the text of the event (serde)
-- are outside.
pub mod Lines
use quire.Prelude.{
  ℕ, Bool, true, false, not, ◌&&◌, ◌||◌, Option, none, some, List, [], ◌∷◌, ◌++◌, any, eqb, leb,
  ltb, if◌then◌else◌,
}
use quire.Prelude.Bytes.{Bytes}
use quire.Push.{PushRef, PushEvent, new_event, is_update}

-- char::is_whitespace: the code points with the property White_Space
abbrev pub is_whitespace : ℕ → Bool
is_whitespace c =
    (leb 9 c && leb c 13)
    || eqb c 32
    || eqb c 133
    || eqb c 160
    || eqb c 5760
    || (leb 8192 c && leb c 8202)
    || eqb c 8232
    || eqb c 8233
    || eqb c 8239
    || eqb c 8287
    || eqb c 12288

-- A character in front of the words behind it; the flag says whether it touches the first of them.
abbrev pub onto_word : Bool → ℕ → List Bytes → List Bytes
onto_word true c (w ∷ ws) = (c ∷ w) ∷ ws
onto_word true c [] = (c ∷ []) ∷ []
onto_word false c ws = (c ∷ []) ∷ ws

abbrev pub starts_word : Bytes → Bool
starts_word [] = false
starts_word (c ∷ s) = not (is_whitespace c)

-- str::split_whitespace
unfoldable pub split_whitespace : Bytes → List Bytes
split_whitespace [] = []
split_whitespace (c ∷ s) =
    let rest = split_whitespace s in
    if is_whitespace c then rest else onto_word (starts_word s) c rest

-- The line's ref, if it has three words.
unfoldable pub parse_parts : List Bytes → Option PushRef
parse_parts (old_sha ∷ new_sha ∷ ref_name ∷ []) =
    some (record { ref_name = ref_name; old_sha = old_sha; new_sha = new_sha })
parse_parts _ = none

unfoldable pub parse_line : Bytes → Option PushRef
unfolding parse_parts split_whitespace
parse_line line = parse_parts (split_whitespace line)

abbrev pub add_ref : Option PushRef → List PushRef → List PushRef
add_ref none refs = refs
add_ref (some r) refs = r ∷ refs

-- The loop over the lines.
unfoldable pub parse_lines : List Bytes → List PushRef
unfolding parse_line
parse_lines [] = []
parse_lines (line ∷ lines) = add_ref (parse_line line) (parse_lines lines)

abbrev pub onto_line : ℕ → List Bytes → List Bytes
onto_line c [] = (c ∷ []) ∷ []
onto_line c (l ∷ ls) = (c ∷ l) ∷ ls

abbrev pub at_newline : Bytes → Bool
at_newline [] = false
at_newline (c ∷ s) = eqb c 10

-- Stdin::lines: pieces that a newline, or a carriage return with a newline, ends
unfoldable pub stdin_lines : Bytes → List Bytes
stdin_lines [] = []
stdin_lines (c ∷ s) =
    let rest = stdin_lines s in
    if eqb c 10 then [] ∷ rest else if eqb c 13 && at_newline s then rest else onto_line c rest

abbrev pub has_updates : List PushRef → Bool
has_updates refs = any is_update refs

-- The event that is sent, if any ref is updated.
unfoldable pub post_receive : Bytes → ℕ → Bytes → Option PushEvent
unfolding parse_lines stdin_lines
post_receive repo now stdin =
    let refs = parse_lines (stdin_lines stdin) in
    if has_updates refs then some (new_event repo now refs) else none
