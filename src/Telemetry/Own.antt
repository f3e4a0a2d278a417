-- ===== src/Telemetry/Own.antt =====
-- Which diagnostic goes with which event.
use quire.Prelude.{
  ◌≡◌, ◌∙◌, refl, ap, true, false, Option, none, some, List, [], ◌∷◌, if◌then◌else◌,
}
use quire.Prelude.Bytes.{Bytes}
use quire.Telemetry.{
  above_warn, Field, error_field, other_field, LogEvent, MietteLayer, or_next, try_render,
  record_error, visit, on_event, before_send, Happening, logged, unlogged, send_if, happen, sent,
}

module _ {T E : Type 0} (render : T → E → Option Bytes) (layer : MietteLayer T) where
  -- The rendering of the last error of an event that renders.
  abbrev pub last_rendering : List (Field E) → Option Bytes
  last_rendering [] = none
  last_rendering (error_field chain ∷ fields) =
      or_next render (last_rendering fields) (try_render render layer chain)
  last_rendering (other_field ∷ fields) = last_rendering fields

  abbrev pub own : LogEvent E → Option Bytes
  own event = if above_warn event.level then none else last_rendering event.fields

  -- What is to be sent, when the first argument is what an event that was not sent left behind.
  abbrev pub expected_sent : Option Bytes → List (Happening E) → List (Option Bytes)
  expected_sent left [] = []
  expected_sent left (logged event true ∷ happenings) = own event ∷ expected_sent none happenings
  expected_sent left (logged event false ∷ happenings) = expected_sent (own event) happenings
  expected_sent left (unlogged ∷ happenings) = left ∷ expected_sent none happenings

  or_next_assoc :
      (a b c : Option Bytes)
      → or_next render a (or_next render b c) ≡ or_next render (or_next render a b) c
  or_next_assoc none b c = refl
  or_next_assoc (some x) b c = refl

  visit-last_rendering :
      (fields : List (Field E)) (cell : Option Bytes)
      → visit render layer fields cell ≡ or_next render (last_rendering fields) cell
  unfolding visit
  visit-last_rendering [] cell = refl
  visit-last_rendering (error_field chain ∷ fields) cell =
      visit-last_rendering fields (record_error render layer chain cell)
      ∙ or_next_assoc (last_rendering fields) (try_render render layer chain) cell
  visit-last_rendering (other_field ∷ fields) cell = visit-last_rendering fields cell

  or_none : (o : Option Bytes) → or_next render o none ≡ o
  or_none none = refl
  or_none (some x) = refl

  on_event-own :
      (event : LogEvent E) (cell : Option Bytes) → on_event render layer event cell ≡ own event
  unfolding on_event
  on_event-own event cell =
      ap (λ (x : Option Bytes). if above_warn event.level then none else x)
        (visit-last_rendering event.fields none ∙ or_none (last_rendering event.fields))

  -- Each logged event that Sentry captures is sent with the rendering of its own errors, of the last
  -- that renders, and with none if it is less severe than a warning: never with that of another
  -- event. What is captured without being logged, such as a panic, is sent with what the last logged
  -- event of the thread left behind, if nothing was sent since.
  pub sent-expected_sent :
      (happenings : List (Happening E)) (cell : Option Bytes)
      → sent render layer happenings cell ≡ expected_sent cell happenings
  unfolding sent happen send_if before_send
  sent-expected_sent [] cell = refl
  sent-expected_sent (logged event true ∷ happenings) cell =
      ap (λ (x : Option Bytes). x ∷ sent render layer happenings none) (on_event-own event cell)
      ∙ ap (λ (x : List (Option Bytes)). own event ∷ x) (sent-expected_sent happenings none)
  sent-expected_sent (logged event false ∷ happenings) cell =
      ap (sent render layer happenings) (on_event-own event cell)
      ∙ sent-expected_sent happenings (own event)
  sent-expected_sent (unlogged ∷ happenings) cell =
      ap (λ (x : List (Option Bytes)). cell ∷ x) (sent-expected_sent happenings none)
