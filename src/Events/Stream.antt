-- ===== src/Events/Stream.antt =====
-- The file of events between the two programs: the sinks of quire-ci/src/sink.rs that write it, and
-- the first lines of `Run::ingest_events` of quire-server/src/ci/run.rs, which read it. The JSON text
-- of an event (serde) is an argument; so is how far each write gets.
pub mod Torn
use quire.Prelude.{
  ℕ, Bool, true, false, not, Option, none, some, List, [], ◌∷◌, ◌++◌, select, ◌==◌, bytes_eq,
  if◌then◌else◌,
}
use quire.Prelude.Bytes.{Bytes, bytes}
use quire.Repo.{split, is_empty}
use quire.Runtime.{take_bytes}
use quire.Events.{Event}
use quire.Events.Ingest.{EventsFile, missing, unreadable, unparsable, events}

-- `--events` of `quire-ci run`
pub data EventsTarget : Type 0 where
  null_target stdout_target : EventsTarget
  file_target : Bytes → EventsTarget

-- A sink with what its writer holds.
pub data EventSink : Type 0 where
  null_sink : EventSink
  jsonl_sink : Bytes → EventSink

-- How a line with its newline is written and flushed: whole, or no more than its first bytes.
pub data Write : Type 0 where
  whole : Write
  breaks : ℕ → Write

-- EventsTarget::from_str
unfoldable pub events_target : Bytes → EventsTarget
events_target s =
    if s == bytes "null"
    then null_target
    else if s == bytes "stdout"
    then stdout_target
    else file_target s

-- The sink that `main` makes; a file is created empty, if it can be.
unfoldable pub new_sink : Bool → EventsTarget → Option EventSink
new_sink created null_target = some null_sink
new_sink created stdout_target = some (jsonl_sink [])
new_sink created (file_target path) = if created then some (jsonl_sink []) else none

abbrev pub collect : Option Event → Option (List Event) → Option (List Event)
collect none es = none
collect (some e) none = none
collect (some e) (some es) = some (e ∷ es)

abbrev pub or_unparsable : Option (List Event) → EventsFile
or_unparsable none = unparsable
or_unparsable (some es) = events es

-- What `fs_err::read` gives.
pub data ReadFile : Type 0 where
  absent unread : ReadFile
  holding : Bytes → ReadFile

module _ (to_json : Event → Bytes) where
  -- EventSink::emit: whether it succeeds, and the sink after it
  unfoldable pub emit : Write → Event → EventSink → Bool × EventSink
  emit w e null_sink = (true, null_sink)
  emit whole e (jsonl_sink out) = (true, jsonl_sink (out ++ to_json e ++ 10 ∷ []))
  emit (breaks k) e (jsonl_sink out) =
      (false, jsonl_sink (out ++ take_bytes k (to_json e ++ 10 ∷ [])))

  -- A write that fails is a panic, behind which nothing is written.
  unfoldable pub emit_all : List (Write × Event) → EventSink → Bool × EventSink
  emit_all [] sink = (true, sink)
  emit_all ((w, e) ∷ es) sink =
      let (is_ok, sink') = emit w e sink in
      let rest = emit_all es sink' in if is_ok then rest else (false, sink')

module _ (from_json : Bytes → Option Event) where
  unfoldable pub parse_events : List Bytes → Option (List Event)
  parse_events [] = some []
  parse_events (line ∷ lines) = collect (from_json line) (parse_events lines)

  unfoldable pub read_events : ReadFile → EventsFile
  read_events absent = missing
  read_events unread = unreadable
  read_events (holding s) =
      or_unparsable (parse_events (select (λ line. not (is_empty line)) (split 10 s)))
