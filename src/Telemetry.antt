-- ===== src/Telemetry.antt =====
-- The diagnostics that go with the events sent to Sentry: quire-core/src/telemetry.rs, `MietteLayer`
-- and `before_send`. An error is the chain of its sources, the outermost first; whether a link of it
-- has a registered type, and how miette renders it, is an argument. The set-up of the subscribers is
-- outside; that this layer comes before Sentry's is what `happen` says.
pub mod Own
mod Tests
use quire.Prelude.{Bool, true, false, Option, none, some, List, [], ◌∷◌, ◌++◌, all, if◌then◌else◌}
use quire.Prelude.Bytes.{Bytes}
use quire.Push.Hook.{is_whitespace}

pub data Level : Type 0 where
  error_level warn_level info_level debug_level trace_level : Level

-- `*event.metadata().level() > tracing::Level::WARN`
abbrev pub above_warn : Level → Bool
above_warn error_level = false
above_warn warn_level = false
above_warn _ = true

-- A field of an event: an error, or anything else.
pub data Field (E : Type 0) : Type 0 where
  error_field : List E → Field E
  other_field : Field E

pub record LogEvent (E : Type 0) : Type 0 where
  pub level : Level
  pub fields : List (Field E)

pub record MietteLayer (T : Type 0) : Type 0 where
  pub renderers : List T

abbrev pub new_layer : {T : Type 0} → MietteLayer T
new_layer = record { renderers = [] }

abbrev pub with_type : {T : Type 0} → T → MietteLayer T → MietteLayer T
with_type t layer = record { renderers = layer.renderers ++ t ∷ [] }

-- `!buf.trim().is_empty()`
abbrev pub unless_blank : Bytes → Option Bytes → Option Bytes
unless_blank buf rest = if all is_whitespace buf then rest else some buf

abbrev pub or_sources : Option Bytes → Option Bytes → Option Bytes
or_sources none rest = rest
or_sources (some buf) rest = unless_blank buf rest

module _ {T E : Type 0} (render : T → E → Option Bytes) where
  -- A renderer: down the chain, to the first link that has its type and renders.
  abbrev pub renderer : T → List E → Option Bytes
  renderer t [] = none
  renderer t (e ∷ sources) = or_sources (render t e) (renderer t sources)

  abbrev pub or_next : Option Bytes → Option Bytes → Option Bytes
  or_next none next = next
  or_next (some r) next = some r

  abbrev pub find_map : List T → List E → Option Bytes
  find_map [] chain = none
  find_map (t ∷ ts) chain = or_next (renderer t chain) (find_map ts chain)

  unfoldable pub try_render : MietteLayer T → List E → Option Bytes
  try_render layer chain = find_map layer.renderers chain

  -- ErrorVisitor, over the fields in their order; the last argument is the thread's cell.
  abbrev pub record_error : MietteLayer T → List E → Option Bytes → Option Bytes
  record_error layer chain cell = or_next (try_render layer chain) cell

  unfoldable pub visit : MietteLayer T → List (Field E) → Option Bytes → Option Bytes
  visit layer [] cell = cell
  visit layer (error_field chain ∷ fields) cell = visit layer fields (record_error layer chain cell)
  visit layer (other_field ∷ fields) cell = visit layer fields cell

  unfoldable pub on_event : MietteLayer T → LogEvent E → Option Bytes → Option Bytes
  on_event layer event cell = if above_warn event.level then none else visit layer event.fields none

-- What is sent of an event: the diagnostic that it carries.
unfoldable pub before_send : Option Bytes → Option Bytes × Option Bytes
before_send cell = (cell, none)

-- What happens on a thread: an event is logged, and Sentry captures it or not; or Sentry captures
-- something that was not logged, as it does with a panic.
pub data Happening (E : Type 0) : Type 0 where
  logged : LogEvent E → Bool → Happening E
  unlogged : Happening E

module _ {T E : Type 0} (render : T → E → Option Bytes) where
  send_if : Bool → Option Bytes → List (Option Bytes) × Option Bytes
  send_if false cell = ([], cell)
  send_if true cell = let (sent, rest) = before_send cell in (sent ∷ [], rest)

  unfoldable pub happen :
      MietteLayer T → Happening E → Option Bytes → List (Option Bytes) × Option Bytes
  unfolding send_if
  happen layer (logged event captured) cell = send_if captured (on_event render layer event cell)
  happen layer unlogged cell = send_if true cell

  -- The diagnostics of the events that are sent, in order.
  unfoldable pub sent : MietteLayer T → List (Happening E) → Option Bytes → List (Option Bytes)
  sent layer [] cell = []
  sent layer (s ∷ happenings) cell =
      let (out, cell') = happen layer s cell in out ++ sent layer happenings cell'
