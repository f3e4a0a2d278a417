-- ===== src/Push/Mirror/Partition.antt =====
-- Which mirrors took a ref and which did not.
use quire.Prelude.{
  suc, ◌+◌, String, ◌≡◌, ◌∙◌, refl, sym, ap, Bool, false, not, Option, none, some, List, [], ◌∷◌,
  map, select, any, length, lookup, insert, lookup-insert, ◌==◌, ==_iff, ==_refl, bytes_eq, is_none,
  arith, Bool-cases, inl, inr, if◌then◌else◌, if_true, if_false, or_false,
}
use quire.Prelude.Bytes.{Bytes}
use quire.Secret.{Outcome, unknown_secret, ReadResult, SecretSource, plain, file, reveal}
use quire.Repo.{Directory, Repo, found, repo}
use quire.Push.Mirror.{
  resolved, resolve_ref, done, push_ref, push_in, push_sha, push_all_at, PushError, secret,
  PushFailure, PushOutcome, GitRun, Secrets, Mirrors, add_failure, report_all, push_with,
  push_remote_at, push_remote, push_all,
}

abbrev has_url : List PushFailure → Bytes → Bool
has_url fs url = any (λ (g : PushFailure). g.url == url) fs

abbrev urls : Mirrors → List Bytes
urls ms = map (λ (m : Bytes × Bytes). m.0) ms

-- A failure at a url is seen at no other.
has_url-add_failure :
    (url other : Bytes) (c : Option PushError) (fs : List PushFailure)
    → (other == url) ≡ false
    → has_url (add_failure url c fs) other ≡ has_url fs other
has_url-add_failure url other none fs h = refl
has_url-add_failure url other (some c) fs h = ground (arith, h, ==_iff url other, ==_iff other url)

keep_others :
    (url : Bytes) (c : Option PushError) (fs : List PushFailure) (ms : Mirrors)
    → any (λ (m : Bytes × Bytes). m.0 == url) ms ≡ false
    → select (λ u. not (has_url (add_failure url c fs) u)) (urls ms)
      ≡ select (λ u. not (has_url fs u)) (urls ms)
keep_others url c fs [] h = refl
keep_others url c fs (m ∷ ms) h =
    let (here, later) = or_false (m.0 == url) _ h in
    ap
      (λ b.
        if not b
        then m.0 ∷ select (λ u. not (has_url (add_failure url c fs) u)) (urls ms)
        else select (λ u. not (has_url (add_failure url c fs) u)) (urls ms))
      (has_url-add_failure url m.0 c fs here)
    ∙ ap (λ rest. if not (has_url fs m.0) then m.0 ∷ rest else rest) (keep_others url c fs ms later)

keep_all : (us : List Bytes) → select (λ u. not (has_url [] u)) us ≡ us
keep_all [] = refl
keep_all (u ∷ us) = ap (λ rest. u ∷ rest) (keep_all us)

abbrev outcome_with : List Bytes → List PushFailure → PushOutcome
outcome_with us fs = record { pushed = us; failed = fs }

pair :
    {us vs : List Bytes} {fs gs : List PushFailure}
    → us ≡ vs
    → fs ≡ gs
    → outcome_with us fs ≡ outcome_with vs gs
pair h k = cc

-- No two mirrors have the same url.
abbrev pub Distinct : Mirrors → Type 0
Distinct [] = Unit
Distinct ((url, name) ∷ ms) = (any (λ (m : Bytes × Bytes). m.0 == url) ms ≡ false) × Distinct ms

module _ (disk : String → ReadResult) where
  -- What a secret is worth, if there is one.
  abbrev worth : Option SecretSource → Option Outcome
  worth none = none
  worth (some source) = some (reveal disk source).0

  reveal-again : (s : SecretSource) → (reveal disk (reveal disk s).1).0 ≡ (reveal disk s).0
  unfolding reveal
  reveal-again (plain s) = refl
  reveal-again (file path none) = refl
  reveal-again (file path (some o)) = refl

  worth-insert :
      (secrets : Secrets) (name : Bytes) (source : SecretSource) (other : Bytes)
      → lookup name secrets ≡ some source
      → worth (lookup other (insert name (reveal disk source).1 secrets))
        ≡ worth (lookup other secrets)
  worth-insert secrets name source other h =
      ap worth (lookup-insert name other (reveal disk source).1 secrets)
      ∙ elim (Bool-cases (name == other)) [
        | inl e ↦
            ap worth (if_true _ _ _ e)
            ∙ ap some (reveal-again source)
            ∙ sym (ap worth (ap (λ n. lookup n secrets) (sym ((==_iff name other).0 e)) ∙ h))
        | inr e ↦ ap worth (if_false _ _ _ e)
      ]

module _ (disk : String → ReadResult) (git_push : Bytes → Bytes → Bytes → GitRun)
    (base64 : Bytes → Bytes) where
  cause_of : Bytes → Bytes → Bytes → Option Outcome → Option PushError
  cause_of ref_name url name none = some (secret (unknown_secret name))
  cause_of ref_name url name (some o) = push_with disk git_push base64 ref_name url o

  push_remote_at-cause :
      (ref_name url name : Bytes) (o : Option SecretSource) (secrets : Secrets)
      → (push_remote_at disk git_push base64 ref_name url name o secrets).0
        ≡ cause_of ref_name url name (worth disk o)
  unfolding push_remote_at cause_of
  push_remote_at-cause ref_name url name none secrets = refl
  push_remote_at-cause ref_name url name (some s) secrets = refl

  push_remote_at-worth :
      (ref_name url name other : Bytes) (o : Option SecretSource) (secrets : Secrets)
      → lookup name secrets ≡ o
      → worth disk
          (lookup other (push_remote_at disk git_push base64 ref_name url name o secrets).1)
        ≡ worth disk (lookup other secrets)
  unfolding push_remote_at
  push_remote_at-worth ref_name url name other none secrets h = refl
  push_remote_at-worth ref_name url name other (some s) secrets h =
      worth-insert disk secrets name s other h

  -- The cause of a failed push, had it come first.
  abbrev pub verdict : Bytes → Secrets → Bytes × Bytes → Option PushError
  verdict ref_name secrets m = (push_remote disk git_push base64 ref_name m.0 m.1 secrets).0

  verdict-worth :
      (ref_name : Bytes) (s t : Secrets) (m : Bytes × Bytes)
      → worth disk (lookup m.1 s) ≡ worth disk (lookup m.1 t)
      → verdict ref_name s m ≡ verdict ref_name t m
  unfolding push_remote
  verdict-worth ref_name s t m h =
      push_remote_at-cause ref_name m.0 m.1 _ s
      ∙ ap (cause_of ref_name m.0 m.1) h
      ∙ sym (push_remote_at-cause ref_name m.0 m.1 _ t)

  -- The failures of pushes that are each the first.
  abbrev pub failures_of : Bytes → Secrets → Mirrors → List PushFailure
  failures_of ref_name secrets [] = []
  failures_of ref_name secrets (m ∷ ms) =
      add_failure m.0 (verdict ref_name secrets m) (failures_of ref_name secrets ms)

  failures_of-worth :
      (ref_name : Bytes) (s t : Secrets) (ms : Mirrors)
      → ((name : Bytes) → worth disk (lookup name s) ≡ worth disk (lookup name t))
      → failures_of ref_name s ms ≡ failures_of ref_name t ms
  failures_of-worth ref_name s t [] h = refl
  failures_of-worth ref_name s t (m ∷ ms) h =
      ap (λ c. add_failure m.0 c (failures_of ref_name s ms)) (verdict-worth ref_name s t m (h m.1))
      ∙ ap (add_failure m.0 (verdict ref_name t m)) (failures_of-worth ref_name s t ms h)

  pub push_all-failures_of :
      (ref_name : Bytes) (ms : Mirrors) (secrets : Secrets)
      → (push_all disk git_push base64 ref_name ms secrets).0 ≡ failures_of ref_name secrets ms
  unfolding push_all
  push_all-failures_of ref_name [] secrets = refl
  push_all-failures_of ref_name ((url, name) ∷ ms) secrets =
      let s1 = (push_remote disk git_push base64 ref_name url name secrets).1 in
      ap (add_failure url (verdict ref_name secrets (url, name))) (
        push_all-failures_of ref_name ms s1
        ∙ failures_of-worth ref_name s1 secrets ms (λ other.
          unfold push_remote in push_remote_at-worth ref_name url name other _ secrets refl))

  -- The urls of the mirrors whose push, as the first of all, would succeed.
  abbrev pub accepting : Bytes → Secrets → Mirrors → List Bytes
  accepting ref_name secrets ms =
      map (λ (m : Bytes × Bytes). m.0) (select (λ m. is_none (verdict ref_name secrets m)) ms)

  none_at :
      (ref_name : Bytes) (secrets : Secrets) (url : Bytes) (ms : Mirrors)
      → any (λ (m : Bytes × Bytes). m.0 == url) ms ≡ false
      → has_url (failures_of ref_name secrets ms) url ≡ false
  none_at ref_name secrets url [] h = refl
  none_at ref_name secrets url (m ∷ ms) h =
      let (here, later) = or_false (m.0 == url) _ h in
      one (verdict ref_name secrets m) here (none_at ref_name secrets url ms later)
    where
      one :
          (c : Option PushError)
          → (m.0 == url) ≡ false
          → has_url (failures_of ref_name secrets ms) url ≡ false
          → has_url (add_failure m.0 c (failures_of ref_name secrets ms)) url ≡ false
      one none e k = k
      one (some x) e k = rw e k

  one :
      (ref_name : Bytes) (secrets : Secrets) (m : Bytes × Bytes) (ms : Mirrors)
      (c : Option PushError)
      → has_url (failures_of ref_name secrets ms) m.0 ≡ false
      → (if not (has_url (add_failure m.0 c (failures_of ref_name secrets ms)) m.0)
          then m.0 ∷ accepting ref_name secrets ms
          else accepting ref_name secrets ms)
        ≡ map
            (λ (x : Bytes × Bytes). x.0)
            (if is_none c
              then m ∷ select (λ x. is_none (verdict ref_name secrets x)) ms
              else select (λ x. is_none (verdict ref_name secrets x)) ms)
  one ref_name secrets m ms none k = rw k refl
  one ref_name secrets m ms (some x) k = rw (==_refl m.0) refl

  filtered :
      (ref_name : Bytes) (secrets : Secrets) (ms : Mirrors)
      → Distinct ms
      → select (λ u. not (has_url (failures_of ref_name secrets ms) u)) (urls ms)
        ≡ accepting ref_name secrets ms
  filtered ref_name secrets [] h = refl
  filtered ref_name secrets (m ∷ ms) h =
      let c = verdict ref_name secrets m in
      let fs = failures_of ref_name secrets ms in
      ap (λ rest. if not (has_url (add_failure m.0 c fs) m.0) then m.0 ∷ rest else rest)
        (keep_others m.0 c fs ms h.0 ∙ filtered ref_name secrets ms h.1)
      ∙ one ref_name secrets m ms c (none_at ref_name secrets m.0 ms h.0)

  all_accept :
      (ref_name : Bytes) (secrets : Secrets) (ms : Mirrors) (fs : List PushFailure)
      → failures_of ref_name secrets ms ≡ fs
      → Distinct ms
      → report_all ms fs ≡ record {
        pushed = accepting ref_name secrets ms;
        failed = failures_of ref_name secrets ms;
      }
  unfolding report_all
  all_accept ref_name secrets ms [] e h =
      pair
        (sym (keep_all (urls ms))
          ∙ ap (λ gs. select (λ u. not (has_url gs u)) (urls ms)) (sym e)
          ∙ filtered ref_name secrets ms h)
        (sym e)
  all_accept ref_name secrets ms (f ∷ fs) e h =
      pair
        (ap (λ gs. select (λ u. not (has_url gs u)) (urls ms)) (sym e)
          ∙ filtered ref_name secrets ms h)
        (sym e)

  -- The pushes that would succeed and those that would not are all of them.
  counted :
      (ref_name : Bytes) (secrets : Secrets) (ms : Mirrors)
      → length (accepting ref_name secrets ms) + length (failures_of ref_name secrets ms)
        ≡ length ms
  counted ref_name secrets [] = refl
  counted ref_name secrets (m ∷ ms) =
      tally (verdict ref_name secrets m) (counted ref_name secrets ms)
    where
      tally :
          (c : Option PushError)
          → length (accepting ref_name secrets ms) + length (failures_of ref_name secrets ms)
            ≡ length ms
          → length (
                map
                  (λ (x : Bytes × Bytes). x.0)
                  (if is_none c
                    then m ∷ select (λ x. is_none (verdict ref_name secrets x)) ms
                    else select (λ x. is_none (verdict ref_name secrets x)) ms))
              + length (add_failure m.0 c (failures_of ref_name secrets ms))
            ≡ suc (length ms)
      tally none h = omega (arith, h)
      tally (some x) h = omega (arith, h)

  -- When the repository is there, the ref resolves to a commit, its configuration can be read and no
  -- two of its mirrors have the same url, `push_ref` reports as pushed the urls, in their order, of
  -- the mirrors whose push would succeed if it came first, and as failed each other mirror, with the
  -- cause that it would have then: the cells that earlier pushes filled make no difference. Each
  -- mirror is reported once.
  pub push_ref-verdicts :
      (repo_config : Bytes → Option Mirrors) (is_dir : Directory → Bool) (base_dir : Directory)
      (name ref_name sha : Bytes) (rev_parse : GitRun) (secrets : Secrets) (r : Repo) (ms : Mirrors)
      → repo is_dir base_dir name ≡ found r
      → resolve_ref rev_parse ≡ resolved sha
      → repo_config sha ≡ some ms
      → Distinct ms
      → ((push_ref disk git_push base64 repo_config is_dir base_dir name ref_name rev_parse
            secrets).0
          ≡ done (record {
            pushed = accepting ref_name secrets ms;
            failed = failures_of ref_name secrets ms;
          }))
        × (length (accepting ref_name secrets ms) + length (failures_of ref_name secrets ms)
            ≡ length ms)
  unfolding push_ref push_in push_sha push_all_at
  push_ref-verdicts repo_config is_dir base_dir name ref_name sha rev_parse secrets r ms h k c d = (
    rw h (
        rw k (
          rw c (
            ap (λ fs. done (report_all ms fs)) (push_all-failures_of ref_name ms secrets)
            ∙ ap done (all_accept ref_name secrets ms _ refl d)))),
    counted ref_name secrets ms,
  )
