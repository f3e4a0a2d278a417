-- ===== src/Pipeline/Tests.antt =====
-- Registration at a concrete script.
use quire.Prelude.{ℕ, ◌≡◌, refl, none, some, List, [], ◌∷◌, All, eqb, if◌then◌else◌}
use quire.Prelude.Bytes.{Bytes, bytes}
use quire.Pipeline.{
  Call, call_job, call_image, register, pipeline_error, duplicate_job, span_for_line, find_line,
  call, call_all, register_job, register_image, add_job, new,
}
use quire.Pipeline.Offsets.{extract_line_col, match_here, line_col_offset}
use quire.Pipeline.Span.{slice, slice-span_for_line}
use quire.Pipeline.Registered.{IsGood, AreDistinct, jobs_of, images_of, register_faithful}

abbrev source : Bytes
source = bytes "(a)\n(bc)\n(d)"

second_line :
    slice (span_for_line source 2).offset (span_for_line source 2).length source ≡ bytes "(bc)"
second_line = slice-span_for_line source 1

abbrev calls : List (Call ℕ)
calls =
    call_job (bytes "build") (bytes "quire/push" ∷ []) 0 1
    ∷ call_image (bytes "rust") 2
    ∷ call_job (bytes "test") (bytes "build" ∷ []) 1 3
    ∷ []

register_faithful_example :
    (jobs_of source calls ≡ jobs_of source calls)
    × (bytes "rust" ∷ [] ≡ images_of source calls)
    × All IsGood (jobs_of source calls)
    × AreDistinct (jobs_of source calls)
unfolding register call_all call register_job register_image add_job new
register_faithful_example =
    register_faithful source calls (jobs_of source calls) (some (bytes "rust")) refl

twice :
    register {F = ℕ} source (
      some (
        call_job (bytes "a") (bytes "b" ∷ []) 0 1 ∷ call_job (bytes "a") (bytes "b" ∷ []) 0 3 ∷ []))
    ≡ pipeline_error (duplicate_job (bytes "a") (record { offset = 9; length = 3 }) ∷ [])
unfolding register call_all call register_job add_job new span_for_line find_line
twice = refl

parse_error_place : extract_line_col (bytes "HEAD:.quire/config.fnl:3:1: oops") ≡ some (3, some 1)
unfolding extract_line_col match_here
parse_error_place = refl

runtime_error_place : extract_line_col (bytes "name.fnl:7: runtime error") ≡ some (7, none)
unfolding extract_line_col match_here
runtime_error_place = refl

no_place : extract_line_col (bytes "no location info") ≡ none
unfolding extract_line_col match_here
no_place = refl

-- The letter y takes two bytes.
abbrev two_for_y : ℕ → ℕ
two_for_y c = if eqb c b'y' then 2 else 1

beyond_source : line_col_offset two_for_y source 10 none ≡ none
unfolding line_col_offset
beyond_source = refl

-- Behind y, column 3 is its end, and column 2 is no place in the line.
column_of_bytes : line_col_offset two_for_y (bytes "x\nyzw") 2 (some 3) ≡ some 4
unfolding line_col_offset
column_of_bytes = refl

column_inside : line_col_offset two_for_y (bytes "x\nyzw") 2 (some 2) ≡ some 6
unfolding line_col_offset
column_inside = refl
