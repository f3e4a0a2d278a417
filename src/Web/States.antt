-- ===== src/Web/States.antt =====
-- The state that a run's row is shown with.
use quire.Prelude.{
  ℕ, String, ◌≡◌, ◌∙◌, refl, Bool, true, false, ◌||◌, Option, none, some, is_some, is_none, ◌==◌,
  string_eq, arith, and_true, Bool-cases, inl, inr,
}
use quire.Database.{RunRow, check_run, known_outcome, both_null_or_neither}
use quire.Web.{derive_run_state, state_of, state_class}

both_null-same :
    (r : Option ℕ) (o : Option String) → both_null_or_neither r o ≡ true → is_some o ≡ is_some r
both_null-same none none h = refl
both_null-same none (some o) h = ground arith
both_null-same (some r) none h = ground arith
both_null-same (some r) (some o) h = refl

check_run-both : (r : RunRow) → check_run r ≡ true → is_some r.outcome ≡ is_some r.resolved_at
unfolding check_run
check_run-both r h =
    let (a, _) = and_true _ (known_outcome r.outcome) h in
    let (_, b) = and_true _ (both_null_or_neither r.resolved_at r.outcome) a in
    both_null-same r.resolved_at r.outcome b

abbrev pub is_waiting : String → Bool
is_waiting s = s == "queued" || s == "active"

is_waiting-state_of : (o : Option String) (d : Bool) → is_waiting (state_of o d) ≡ is_none o
unfolding state_of
is_waiting-state_of none true = refl
is_waiting-state_of none false = refl
is_waiting-state_of (some o) d = elim (Bool-cases (o == "succeeded")) [
  | inl e ↦ rw e refl
  | inr e ↦ rw e (elim (Bool-cases (o == "superseded")) [ inl f ↦ rw f refl | inr f ↦ rw f refl ])
]

abbrev pub succeeded : Option String → Bool
succeeded none = false
succeeded (some o) = o == "succeeded"

class-state_of :
    (o : Option String) (d : Bool) → (state_class (state_of o d) == "c-ok") ≡ succeeded o
unfolding state_of state_class
class-state_of none true = refl
class-state_of none false = refl
class-state_of (some o) d = elim (Bool-cases (o == "succeeded")) [
  | inl e ↦ rw e refl
  | inr e ↦ rw e (elim (Bool-cases (o == "superseded")) [ inl f ↦ rw f refl | inr f ↦ rw f refl ])
]

is_none-not : (o : Option String) (r : Option ℕ) → is_some o ≡ is_some r → is_none o ≡ is_none r
is_none-not none none h = refl
is_none-not none (some r) h = ground arith
is_none-not (some o) none h = ground arith
is_none-not (some o) (some r) h = refl

-- A row that meets the CHECK constraints of its table is shown as queued or active exactly if it has
-- no time of resolution, and in the colour of success exactly if its outcome is `succeeded`.
pub derive_run_state-row :
    (r : RunRow)
    → check_run r ≡ true
    → (is_waiting (derive_run_state r.outcome r.dispatched_at) ≡ is_none r.resolved_at)
      × ((state_class (derive_run_state r.outcome r.dispatched_at) == "c-ok") ≡ succeeded r.outcome)
unfolding derive_run_state
derive_run_state-row r h = (
  is_waiting-state_of r.outcome _ ∙ is_none-not r.outcome r.resolved_at (check_run-both r h),
  class-state_of r.outcome _,
)
