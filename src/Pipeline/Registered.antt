-- ===== src/Pipeline/Registered.antt =====
-- What a registration without errors holds.
use quire.Prelude.{
  ℕ, ◌≡◌, ◌≢◌, ◌∙◌, refl, sym, ap, false, Option, none, some, List, [], ◌∷◌, ◌++◌, arith, ◌⊎◌, inl,
  inr, Bool-cases, All, All-append, append_assoc, any-append, append-nil, or_false, ◌==◌, ==_iff,
  bytes_eq, if_true, if_false,
}
use mathlib.Core.Bool.{false≢true}
use mathlib.Core.Path.{subst}
use quire.Prelude.Bytes.{Bytes, contains}
use quire.Pipeline.{
  span_for_line, Job, DefinitionError, Call, call_job, call_image, Registration, registered, new,
  push_error, has_job, add_job, add_new, register_job, set_image, register_image, call, call_all,
  outcome, register,
}

is_nil {ℓ} : {A : Type ℓ} (xs : List A) (x : A) → xs ++ x ∷ [] ≡ [] → ⊥
is_nil [] x h = ground arith
is_nil (y ∷ xs) x h = ground arith

abbrev pub listed : Option Bytes → List Bytes
listed none = []
listed (some i) = i ∷ []

unlike : (a b : Bytes) → (a == b) ≡ false → (b == a) ≡ false
unlike a b h = elim (Bool-cases (b == a)) [
  | inl e ↦ absurd (false≢true (sym h ∙ (==_iff a b).1 (sym ((==_iff b a).0 e))))
  | inr e ↦ e
]

module _ {F : Type 0} where
  -- The inputs of a job are not none, and its id has no slash.
  abbrev pub IsGood : Job F → Type 0
  IsGood j = (contains b'/' j.id ≡ false) × (j.inputs ≢ [])

  abbrev pub AreDistinct : List (Job F) → Type 0
  AreDistinct [] = Unit
  AreDistinct (j ∷ js) = (has_job j.id js ≡ false) × AreDistinct js

  record Valid (js : List (Job F)) : Type 0 where
    good : All IsGood js
    distinct : AreDistinct js

  AreDistinct-append :
      (js : List (Job F)) (k : Job F)
      → AreDistinct js
      → has_job k.id js ≡ false
      → AreDistinct (js ++ k ∷ [])
  AreDistinct-append [] k d h = (refl, tt)
  AreDistinct-append (j ∷ js) k d h = (
    has_job-append js (unlike j.id k.id (or_false (j.id == k.id) (has_job k.id js) h).0) d.0,
    AreDistinct-append js k d.1 (or_false (j.id == k.id) (has_job k.id js) h).1,
  )
    where
      has_job-append :
          (js : List (Job F))
          → (k.id == j.id) ≡ false
          → has_job j.id js ≡ false
          → has_job j.id (js ++ k ∷ []) ≡ false
      has_job-append js e f =
          any-append (λ (i : Job F). i.id == j.id) js (k ∷ []) ∙ ground (arith, e, f)

  module _ (source : Bytes) where
    -- The jobs that calls ask for, each with the span of its line, and the first image.
    abbrev pub jobs_of : List (Call F) → List (Job F)
    jobs_of [] = []
    jobs_of (call_job id inputs run_fn line ∷ cs) =
        record {
          id = id;
          inputs = inputs;
          span = some (span_for_line source line);
          run_fn = run_fn;
        }
        ∷ jobs_of cs
    jobs_of (call_image name line ∷ cs) = jobs_of cs

    abbrev pub images_of : List (Call F) → List Bytes
    images_of [] = []
    images_of (call_job id inputs run_fn line ∷ cs) = images_of cs
    images_of (call_image name line ∷ cs) = name ∷ images_of cs

    -- What a call does that leaves no error.
    record Effect (c : Call F) (r : Registration F) : Type 0 where
      clean : r.errors ≡ []
      jobs : (call source c r).jobs ≡ r.jobs ++ jobs_of (c ∷ [])
      images : listed (call source c r).image ≡ listed r.image ++ images_of (c ∷ [])
      valid : Valid r.jobs → Valid (call source c r).jobs

    abbrev job_of : Bytes → List Bytes → F → ℕ → Job F
    job_of id inputs run_fn line = record {
      id = id;
      inputs = inputs;
      span = some (span_for_line source line);
      run_fn = run_fn;
    }

    -- A call that is refused, and one that is accepted.
    Refused : Call F → Registration F → Type 0
    Refused c r = (e : DefinitionError) × (call source c r ≡ push_error e r)

    AcceptedJob : Bytes → List Bytes → F → ℕ → Registration F → Type 0
    AcceptedJob id inputs run_fn line r =
        (contains b'/' id ≡ false)
        × (inputs ≢ [])
        × (has_job id r.jobs ≡ false)
        × (call source (call_job id inputs run_fn line) r
            ≡ record r { jobs = r.jobs ++ job_of id inputs run_fn line ∷ [] })

    job_cases :
        (id : Bytes) (inputs : List Bytes) (run_fn : F) (line : ℕ) (r : Registration F)
        → Refused (call_job id inputs run_fn line) r ⊎ AcceptedJob id inputs run_fn line r
    unfolding call register_job add_new new add_job Refused AcceptedJob
    job_cases id inputs run_fn line r = elim (Bool-cases (contains b'/' id)) [
      | inl e ↦ inl (_, if_true _ _ _ e)
      | inr e ↦ by_inputs inputs e
    ]
      where
        by_inputs :
            (inputs : List Bytes)
            → contains b'/' id ≡ false
            → Refused (call_job id inputs run_fn line) r ⊎ AcceptedJob id inputs run_fn line r
        by_inputs [] e = inl (_, if_false _ _ _ e)
        by_inputs (i ∷ is) e = elim (Bool-cases (has_job id r.jobs)) [
          | inl d ↦ inl (_, if_false _ _ _ e ∙ if_true _ _ _ d)
          | inr d ↦ inr (e, (λ n. absurd (ground arith)), d, if_false _ _ _ e ∙ if_false _ _ _ d)
        ]

    Refused-errors :
        (c : Call F) (r : Registration F) → Refused c r → (call source c r).errors ≡ [] → ⊥
    unfolding Refused
    Refused-errors c r (e, q) h =
        is_nil r.errors e (sym (ap (λ (x : Registration F). x.errors) q) ∙ h)

    Effect-accepted :
        (id : Bytes) (inputs : List Bytes) (run_fn : F) (line : ℕ) (r : Registration F)
        → AcceptedJob id inputs run_fn line r
        → (call source (call_job id inputs run_fn line) r).errors ≡ []
        → Effect (call_job id inputs run_fn line) r
    unfolding AcceptedJob
    Effect-accepted id inputs run_fn line r (slash, some_inputs, fresh, q) h = record {
      clean = sym (ap (λ (x : Registration F). x.errors) q) ∙ h;
      jobs = ap (λ (x : Registration F). x.jobs) q;
      images = ap (λ (x : Registration F). listed x.image) q ∙ sym (append-nil (listed r.image));
      valid = λ v. subst Valid (sym (ap (λ (x : Registration F). x.jobs) q)) (record {
        good = All-append IsGood r.jobs _ v.good ((slash, some_inputs), tt);
        distinct = AreDistinct-append r.jobs (job_of id inputs run_fn line) v.distinct fresh;
      });
    }

    call_image-eq :
        (name : Bytes) (line : ℕ) (o : Option Bytes) (r : Registration F)
        → r.image ≡ o
        → call source (call_image name line) r ≡ set_image source name line o r
    unfolding call register_image
    call_image-eq name line o r e = ap (λ x. set_image source name line x r) e

    Effect-image :
        (name : Bytes) (line : ℕ) (o : Option Bytes) (r : Registration F)
        → r.image ≡ o
        → (call source (call_image name line) r).errors ≡ []
        → Effect (call_image name line) r
    unfolding set_image
    Effect-image name line (some i) r e h = absurd (
        is_nil r.errors _
          (sym (ap (λ (x : Registration F). x.errors) (call_image-eq name line (some i) r e)) ∙ h))
    Effect-image name line none r e h = record {
      clean = sym (ap (λ (x : Registration F). x.errors) (call_image-eq name line none r e)) ∙ h;
      jobs =
          ap (λ (x : Registration F). x.jobs) (call_image-eq name line none r e)
          ∙ sym (append-nil r.jobs);
      images =
          ap (λ (x : Registration F). listed x.image) (call_image-eq name line none r e)
          ∙ ap (λ (x : Option Bytes). listed x ++ name ∷ []) (sym e);
      valid = λ v.
          subst Valid (sym (ap (λ (x : Registration F). x.jobs) (call_image-eq name line none r e)))
            v;
    }

    Effect-call : (c : Call F) (r : Registration F) → (call source c r).errors ≡ [] → Effect c r
    Effect-call (call_image name line) r h = Effect-image name line r.image r refl h
    Effect-call (call_job id inputs run_fn line) r h = elim (job_cases id inputs run_fn line r) [
      | inl x ↦ absurd (Refused-errors _ r x h)
      | inr a ↦ Effect-accepted id inputs run_fn line r a h
    ]

    jobs_of-append :
        (c : Call F) (cs : List (Call F)) → jobs_of (c ∷ []) ++ jobs_of cs ≡ jobs_of (c ∷ cs)
    jobs_of-append (call_job id inputs run_fn line) cs = refl
    jobs_of-append (call_image name line) cs = refl

    images_of-append :
        (c : Call F) (cs : List (Call F)) → images_of (c ∷ []) ++ images_of cs ≡ images_of (c ∷ cs)
    images_of-append (call_job id inputs run_fn line) cs = refl
    images_of-append (call_image name line) cs = refl

    -- What calls do that leave no error.
    record Effects (cs : List (Call F)) (r : Registration F) : Type 0 where
      clean : r.errors ≡ []
      jobs : (call_all source cs r).jobs ≡ r.jobs ++ jobs_of cs
      images : listed (call_all source cs r).image ≡ listed r.image ++ images_of cs
      valid : Valid r.jobs → Valid (call_all source cs r).jobs

    Effects-call_all :
        (cs : List (Call F)) (r : Registration F)
        → (call_all source cs r).errors ≡ []
        → Effects cs r
    unfolding call_all
    Effects-call_all [] r h = record {
      clean = h;
      jobs = sym (append-nil r.jobs);
      images = sym (append-nil (listed r.image));
      valid = λ v. v;
    }
    Effects-call_all (c ∷ cs) r h =
        let later = Effects-call_all cs (call source c r) h in
        let now = Effect-call c r later.clean in
        record {
          clean = now.clean;
          jobs =
              later.jobs
              ∙ ap (λ (x : List (Job F)). x ++ jobs_of cs) now.jobs
              ∙ append_assoc r.jobs (jobs_of (c ∷ [])) (jobs_of cs)
              ∙ ap (λ (x : List (Job F)). r.jobs ++ x) (jobs_of-append c cs);
          images =
              later.images
              ∙ ap (λ (x : List Bytes). x ++ images_of cs) now.images
              ∙ append_assoc (listed r.image) (images_of (c ∷ [])) (images_of cs)
              ∙ ap (λ (x : List Bytes). listed r.image ++ x) (images_of-append c cs);
          valid = λ v. later.valid (now.valid v);
        }

    outcome-registered :
        (es : List DefinitionError) (r : Registration F) (jobs : List (Job F))
        (image : Option Bytes)
        → outcome source es r ≡ registered jobs image
        → (es ≡ []) × (r.jobs ≡ jobs) × (r.image ≡ image)
    unfolding outcome
    outcome-registered [] r jobs image h = let (a, b) = injective h in (refl, a, b)
      where
        injective :
            {j k : List (Job F)} {a b : Option Bytes}
            → registered j a ≡ registered k b
            → (j ≡ k) × (a ≡ b)
        injective h = (cc, cc)
    outcome-registered (e ∷ es) r jobs image h = absurd (ground arith)

    -- When registration succeeds, its jobs are those that the calls ask for, in their order and
    -- with the spans of their lines, its image is the only one asked for, if there is one, no id
    -- has a slash, no job is without inputs, and no two jobs have the same id.
    pub register_faithful :
        (cs : List (Call F)) (jobs : List (Job F)) (image : Option Bytes)
        → register source (some cs) ≡ registered jobs image
        → (jobs ≡ jobs_of cs) × (listed image ≡ images_of cs) × All IsGood jobs × AreDistinct jobs
    unfolding register
    register_faithful cs jobs image h =
        let start : Registration F = record { jobs = []; errors = []; image = none } in
        let (clean, js, im) = outcome-registered _ _ jobs image h in
        let all = Effects-call_all cs start clean in
        let v = all.valid (record { good = tt; distinct = tt }) in
        (
          sym js ∙ all.jobs,
          ap listed (sym im) ∙ all.images,
          subst (All IsGood) js v.good,
          subst AreDistinct js v.distinct,
        )
