-- ===== src/Secret.antt =====
-- Secrets and their redaction: quire-core/src/secret.rs. Names and texts are their bytes. The disk
-- and the fetcher are arguments of each call, so that they may change between calls.
pub mod Pinned
pub mod Hidden
pub mod Redaction
pub mod Resolved
mod Tests
use quire.Prelude.{
  ℕ, zero, suc, ◌+◌, ◌-◌, String, Bool, true, false, ◌&&◌, ◌||◌, Option, none, some, List, [], ◌∷◌,
  ◌++◌, length, leb, ltb, eqb, lookup, insert, bytes_eq, if◌then◌else◌,
}
use quire.Prelude.Bytes.{Bytes, starts_with}

pub data SecretError : Type 0 where
  resolve_failed : String → SecretError
  unknown_secret : Bytes → SecretError

pub data Outcome : Type 0 where
  value : Bytes → Outcome
  error : SecretError → Outcome

-- What `read_to_string` gives at a path: the text, or the error.
pub data ReadResult : Type 0 where
  contents : Bytes → ReadResult
  io_error : String → ReadResult

-- The cell of a file is empty until its first `reveal`.
pub data SecretSource : Type 0 where
  plain : Bytes → SecretSource
  file : String → Option Outcome → SecretSource

-- str::strip_suffix('\n'), or the text as it is
unfoldable pub strip_newline : Bytes → Bytes
strip_newline [] = []
strip_newline (c ∷ []) = if eqb c 10 then [] else c ∷ []
strip_newline (c ∷ d ∷ s) = c ∷ strip_newline (d ∷ s)

unfoldable pub read_file : ReadResult → Outcome
read_file (contents s) = value (strip_newline s)
read_file (io_error e) = error (resolve_failed e)

-- SecretSource::clone
unfoldable pub clone : SecretSource → SecretSource
clone (plain s) = plain s
clone (file path resolved) = file path none

-- The value, and the source with its cell filled.
unfoldable pub reveal : (String → ReadResult) → SecretSource → Outcome × SecretSource
unfolding read_file
reveal disk (plain s) = (value s, plain s)
reveal disk (file path (some o)) = (o, file path (some o))
reveal disk (file path none) = let o = read_file (disk path) in (o, file path (some o))

pub record SecretRegistry : Type 0 where
  pub cache : List (Bytes × SecretSource)
  pub revealed : List (Bytes × Bytes)

unfoldable pub new : SecretRegistry
new = record { cache = []; revealed = [] }

unfoldable pub seed : List (Bytes × SecretSource) → SecretRegistry → SecretRegistry
seed secrets r = record r { cache = secrets }

-- `value.len() >= 8`
unfoldable pub register : Bytes → Bytes → SecretRegistry → SecretRegistry
register name v r = if leb 8 (length v) then record r { revealed = insert name v r.revealed } else r

unfoldable pub finish : Bytes → Outcome → SecretRegistry → Outcome × SecretRegistry
finish name (error e) r = (error e, r)
finish name (value v) r = (value v, register name v r)

unfoldable pub fetched : Bytes → Outcome → SecretRegistry → SecretRegistry
fetched name (error e) r = r
fetched name (value v) r = record r { cache = insert name (plain v) r.cache }

unfoldable pub resolve_at :
    (String → ReadResult)
    → (Bytes → Outcome)
    → Bytes
    → Option SecretSource
    → SecretRegistry
    → Outcome × SecretRegistry
unfolding finish fetched
resolve_at disk fetcher name none r = finish name (fetcher name) (fetched name (fetcher name) r)
resolve_at disk fetcher name (some source) r =
    let (o, source') = reveal disk source in
    finish name o (record r { cache = insert name source' r.cache })

unfoldable pub resolve :
    (String → ReadResult) → (Bytes → Outcome) → Bytes → SecretRegistry → Outcome × SecretRegistry
unfolding resolve_at
resolve disk fetcher name r = resolve_at disk fetcher name (lookup name r.cache) r

-- str::cmp, as `<=`
abbrev pub bytes_le : Bytes → Bytes → Bool
bytes_le [] t = true
bytes_le (c ∷ s) [] = false
bytes_le (c ∷ s) (d ∷ t) = ltb c d || (eqb c d && bytes_le s t)

-- The order of `entries`: the longer value first, then the lesser name.
abbrev pub precedes : Bytes → Bytes → Bytes → Bytes → Bool
precedes name v name' v' =
    ltb (length v') (length v) || (eqb (length v) (length v') && bytes_le name name')

insert_sorted : Bytes → Bytes → List (Bytes × Bytes) → List (Bytes × Bytes)
insert_sorted name v [] = (name, v) ∷ []
insert_sorted name v ((name', v') ∷ es) =
    let rest = insert_sorted name v es in
    if precedes name v name' v' then (name, v) ∷ (name', v') ∷ es else (name', v') ∷ rest

unfoldable pub entries : List (Bytes × Bytes) → List (Bytes × Bytes)
unfolding insert_sorted
entries [] = []
entries ((name, v) ∷ es) = insert_sorted name v (entries es)

-- str::replace behind the first bytes, which belong to a match already. The pattern is not empty,
-- as a registered value has eight bytes.
unfoldable pub replace_from : Bytes → Bytes → ℕ → Bytes → Bytes
replace_from p to k [] = []
replace_from p to (suc k) (c ∷ s) = replace_from p to k s
replace_from p to zero (c ∷ s) = elim (starts_with p (c ∷ s)) [
  | true ↦ to ++ replace_from p to (length p - 1) s
  | false ↦ c ∷ replace_from p to zero s
]

-- `{{ name }}`
abbrev pub replacement : Bytes → Bytes
replacement name = b'{' ∷ b'{' ∷ b' ' ∷ (name ++ b' ' ∷ b'}' ∷ b'}' ∷ [])

unfoldable pub redact_all : List (Bytes × Bytes) → Bytes → Bytes
redact_all [] text = text
redact_all ((name, v) ∷ es) text = redact_all es (replace_from v (replacement name) 0 text)

-- With nothing revealed, the text comes back as it is.
unfoldable pub redact : Bytes → SecretRegistry → Bytes
unfolding redact_all
redact text r = redact_all (entries r.revealed) text
