-- ===== src/Telemetry/Tests.antt =====
-- A warning, and then a panic on the same thread.
use quire.Prelude.{ℕ, ◌≡◌, true, false, Option, none, some, List, [], ◌∷◌, eqb, if◌then◌else◌}
use quire.Prelude.Bytes.{Bytes, bytes}
use quire.Telemetry.{
  MietteLayer, new_layer, with_type, error_field, other_field, error_level, warn_level, Happening,
  logged, unlogged, sent, try_render,
}
use quire.Telemetry.Own.{sent-expected_sent}

-- An error of type 1 renders.
abbrev render : ℕ → ℕ → Option Bytes
render t e = if eqb t e then some (bytes "job failed") else none

abbrev layer : MietteLayer ℕ
layer = with_type 2 (with_type 1 new_layer)

abbrev happenings : List (Happening ℕ)
happenings =
    logged (record { level = warn_level; fields = error_field (7 ∷ 1 ∷ []) ∷ [] }) false
    ∷ unlogged
    ∷ logged (record { level = error_level; fields = other_field ∷ [] }) true
    ∷ []

sent-expected_sent_example :
    sent render layer happenings none ≡ some (bytes "job failed") ∷ none ∷ []
unfolding try_render
sent-expected_sent_example = sent-expected_sent render layer happenings none
