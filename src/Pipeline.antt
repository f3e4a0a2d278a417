-- ===== src/Pipeline.antt =====
-- Registration of a pipeline's jobs: quire-core/src/ci/registration.rs, with `Job`, its errors and
-- `span_for_line` of quire-core/src/ci/pipeline.rs. Evaluating the script is outside: it makes a
-- sequence of `(ci.job …)` and `(ci.image …)` calls, or fails. Texts are their bytes, and a run-fn
-- is of any type.
pub mod Span
pub mod Registered
pub mod Graph
pub mod Offsets
mod Tests
use quire.Prelude.{
  ℕ, zero, suc, ◌+◌, Bool, true, false, Option, none, some, List, [], ◌∷◌, ◌++◌, any, eqb, ◌==◌,
  bytes_eq, if◌then◌else◌,
}
use quire.Prelude.Bytes.{Bytes, contains}

pub record SourceSpan : Type 0 where
  pub offset : ℕ
  pub length : ℕ

-- The bytes before the first newline.
abbrev pub line_length : Bytes → ℕ
line_length [] = 0
line_length (c ∷ s) = let rest = line_length s in if eqb c 10 then 0 else suc rest

-- The loop, behind `i` bytes and in the line `current`. A newline is one byte, so that a walk over
-- bytes and one over characters stop at the same places.
unfoldable pub find_line : ℕ → ℕ → ℕ → Bytes → SourceSpan
find_line target i current [] = record { offset = i; length = 0 }
find_line target i current (c ∷ s) =
    let rest = find_line target (suc i) (if eqb c 10 then suc current else current) s in
    if eqb current target then record { offset = i; length = line_length (c ∷ s) } else rest

unfoldable pub span_for_line : Bytes → ℕ → SourceSpan
span_for_line source zero = record { offset = 0; length = 0 }
span_for_line source (suc line) = find_line (suc line) 0 1 source

pub record Job (F : Type 0) : Type 0 where
  pub id : Bytes
  pub inputs : List Bytes
  pub span : Option SourceSpan
  pub run_fn : F

pub data DefinitionError : Type 0 where
  empty_inputs : Bytes → SourceSpan → DefinitionError
  reserved_slash : Bytes → SourceSpan → DefinitionError
  duplicate_image : SourceSpan → DefinitionError
  duplicate_job : Bytes → SourceSpan → DefinitionError

-- A call that the script makes, and the line of its call site (0 if it is not known).
pub data Call (F : Type 0) : Type 0 where
  call_job : Bytes → List Bytes → F → ℕ → Call F
  call_image : Bytes → ℕ → Call F

-- The cells that the calls write to.
pub record Registration (F : Type 0) : Type 0 where
  pub jobs : List (Job F)
  pub errors : List DefinitionError
  pub image : Option Bytes

pub data NewJob (F : Type 0) : Type 0 where
  made : Job F → NewJob F
  refused : DefinitionError → NewJob F

pub data Registrations (F : Type 0) : Type 0 where
  registered : List (Job F) → Option Bytes → Registrations F
  pipeline_error : List DefinitionError → Registrations F
  fennel_error : Registrations F

module _ {F : Type 0} where
  abbrev pub push_error : DefinitionError → Registration F → Registration F
  push_error e r = record r { errors = r.errors ++ e ∷ [] }

  abbrev pub has_job : Bytes → List (Job F) → Bool
  has_job id = any (λ (j : Job F). j.id == id)

module _ {F : Type 0} (source : Bytes) where
  -- Job::new
  unfoldable pub new : Bytes → List Bytes → F → ℕ → NewJob F
  new id [] run_fn line = refused (empty_inputs id (span_for_line source line))
  new id (i ∷ is) run_fn line = made (record {
    id = id;
    inputs = i ∷ is;
    span = some (span_for_line source line);
    run_fn = run_fn;
  })

  unfoldable pub add_job : Job F → ℕ → Registration F → Registration F
  add_job job line r =
      if has_job job.id r.jobs
      then push_error (duplicate_job job.id (span_for_line source line)) r
      else record r { jobs = r.jobs ++ job ∷ [] }

  add_new : NewJob F → ℕ → Registration F → Registration F
  add_new (made job) line r = add_job job line r
  add_new (refused e) line r = push_error e r

  unfoldable pub register_job : Bytes → List Bytes → F → ℕ → Registration F → Registration F
  unfolding add_new
  register_job id inputs run_fn line r =
      if contains b'/' id
      then push_error (reserved_slash id (span_for_line source line)) r
      else add_new (new id inputs run_fn line) line r

  set_image : Bytes → ℕ → Option Bytes → Registration F → Registration F
  set_image name line none r = record r { image = some name }
  set_image name line (some _) r = push_error (duplicate_image (span_for_line source line)) r

  unfoldable pub register_image : Bytes → ℕ → Registration F → Registration F
  unfolding set_image
  register_image name line r = set_image name line r.image r

  unfoldable pub call : Call F → Registration F → Registration F
  call (call_job id inputs run_fn line) r = register_job id inputs run_fn line r
  call (call_image name line) r = register_image name line r

  unfoldable pub call_all : List (Call F) → Registration F → Registration F
  call_all [] r = r
  call_all (c ∷ cs) r = call_all cs (call c r)

  outcome : List DefinitionError → Registration F → Registrations F
  outcome [] r = registered r.jobs r.image
  outcome (e ∷ es) r = pipeline_error (e ∷ es)

  -- The argument is the calls of the script, if its evaluation does not fail.
  unfoldable pub register : Option (List (Call F)) → Registrations F
  unfolding outcome
  register none = fennel_error
  register (some cs) =
      let r = call_all cs (record { jobs = []; errors = []; image = none }) in outcome r.errors r
