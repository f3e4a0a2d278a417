-- ===== src/Secret/Pinned.antt =====
-- One call of `resolve`: what it leaves of a name that was resolved before, and of its own.
use quire.Prelude.{
  String, ◌≡◌, refl, sym, ap, ◌∙◌, true, false, Option, none, some, arith, length, leb, Bool-cases,
  inl, inr, lookup, insert, lookup-insert, ◌==◌, bytes_eq, ==_iff, ==_refl,
}
use mathlib.Core.Path.{subst}
use quire.Prelude.Bytes.{Bytes}
use quire.Secret.{
  Outcome, value, error, ReadResult, SecretSource, plain, file, SecretRegistry, reveal, register,
  finish, fetched, resolve, resolve_at,
}

-- The source gives the value without the disk.
abbrev pub Reveals : Bytes → SecretSource → Type 0
Reveals v (plain w) = w ≡ v
Reveals v (file path none) = ⊥
Reveals v (file path (some (value w))) = w ≡ v
Reveals v (file path (some (error e))) = ⊥

-- The name stands for the value, which is registered if it is long enough.
pub record Held (name v : Bytes) (r : SecretRegistry) : Type 0 where
  pub source : SecretSource
  pub cached : lookup name r.cache ≡ some source
  pub reveals : Reveals v source
  pub registered : leb 8 (length v) ≡ true → lookup name r.revealed ≡ some v

reveal-Reveals :
    (disk : String → ReadResult) (v : Bytes) (s : SecretSource)
    → Reveals v s
    → ((reveal disk s).0 ≡ value v) × Reveals v (reveal disk s).1
unfolding reveal
reveal-Reveals disk v (plain w) h = (ap value h, h)
reveal-Reveals disk v (file path (some (value w))) h = (ap value h, h)
reveal-Reveals disk v (file path (some (error e))) h = absurd h
reveal-Reveals disk v (file path none) h = absurd h

Reveals-file :
    (path : String) (v : Bytes) (o : Outcome) → o ≡ value v → Reveals v (file path (some o))
Reveals-file path v (value w) h = ground arith
Reveals-file path v (error e) h = ground arith

Reveals-reveal :
    (disk : String → ReadResult) (v : Bytes) (s : SecretSource)
    → (reveal disk s).0 ≡ value v
    → Reveals v (reveal disk s).1
unfolding reveal
Reveals-reveal disk v (plain w) h = ground arith
Reveals-reveal disk v (file path (some o)) h = Reveals-file path v o h
Reveals-reveal disk v (file path none) h = Reveals-file path v _ h

-- `finish` at the name itself
cache-finish :
    (name : Bytes) (o : Outcome) (r : SecretRegistry) → (finish name o r).1.cache ≡ r.cache
unfolding finish register
cache-finish name (error e) r = refl
cache-finish name (value w) r = ground arith

revealed-finish :
    (name v : Bytes) (r : SecretRegistry)
    → leb 8 (length v) ≡ true
    → lookup name (finish name (value v) r).1.revealed ≡ some v
unfolding finish register
revealed-finish name v r h = rw h (rw (==_refl name) refl)

revealed-finish-other :
    (name name' : Bytes) (o : Outcome) (r : SecretRegistry)
    → (name' == name) ≡ false
    → lookup name (finish name' o r).1.revealed ≡ lookup name r.revealed
unfolding finish register
revealed-finish-other name name' (error e) r h = refl
revealed-finish-other name name' (value w) r h =
    ground (arith, h, lookup-insert name' name w r.revealed)

-- A later `finish` at a name that has the value of this one, if it is the same.
Held-finish :
    (name v name' : Bytes) (o : Outcome) (r : SecretRegistry)
    → Held name v r
    → ((name' == name) ≡ true → o ≡ value v)
    → Held name v (finish name' o r).1
Held-finish name v name' o r h same = record {
  source = h.source;
  cached = ap (λ m. lookup name m) (cache-finish name' o r) ∙ h.cached;
  reveals = h.reveals;
  registered = λ long. elim (Bool-cases (name' == name)) [
    | inl e ↦
        subst (λ n. lookup name (finish n o r).1.revealed ≡ some v) (sym ((==_iff name' name).0 e))
          (subst (λ x. lookup name (finish name x r).1.revealed ≡ some v) (sym (same e))
            (revealed-finish name v r long))
    | inr e ↦ revealed-finish-other name name' o r e ∙ h.registered long
  ];
}

-- A change of the cache that leaves the value where it is.
Held-insert :
    (name v name' : Bytes) (s : SecretSource) (r : SecretRegistry)
    → Held name v r
    → ((name' == name) ≡ true → Reveals v s)
    → Held name v (record r { cache = insert name' s r.cache })
Held-insert name v name' s r h same = elim (Bool-cases (name' == name)) [
  | inl e ↦ record {
    source = s;
    cached = lookup-insert name' name s r.cache ∙ rw e refl;
    reveals = same e;
    registered = h.registered;
  }
  | inr e ↦ record {
    source = h.source;
    cached = lookup-insert name' name s r.cache ∙ rw e h.cached;
    reveals = h.reveals;
    registered = h.registered;
  }
]

some-injective : {A : Type 0} {a b : A} → some a ≡ some b → a ≡ b
some-injective h = cc

none≢some : {A : Type 0} {a : A} → none ≡ some a → ⊥
none≢some h = ground arith

Held-resolve_at :
    (disk : String → ReadResult) (fetcher : Bytes → Outcome) (name v name' : Bytes)
    (o : Option SecretSource) (r : SecretRegistry)
    → lookup name' r.cache ≡ o
    → Held name v r
    → Held name v (resolve_at disk fetcher name' o r).1
unfolding resolve_at
Held-resolve_at disk fetcher name v name' none r e h =
    Held-finish name v name' (fetcher name') _ (kept (fetcher name')) (λ k. absurd (missed k))
  where
    missed : (name' == name) ≡ true → ⊥
    missed k = none≢some (sym e ∙ ap (λ n. lookup n r.cache) ((==_iff name' name).0 k) ∙ h.cached)

    kept : (o : Outcome) → Held name v (fetched name' o r)
    kept (error x) = unfold fetched in h
    kept (value w) =
        unfold fetched in Held-insert name v name' (plain w) r h (λ k. absurd (missed k))
Held-resolve_at disk fetcher name v name' (some s) r e h =
    Held-finish name v name' (reveal disk s).0 _
      (Held-insert name v name' (reveal disk s).1 r h (λ k. (same k).1)) (λ k. (same k).0)
  where
    same : (name' == name) ≡ true → ((reveal disk s).0 ≡ value v) × Reveals v (reveal disk s).1
    same k = reveal-Reveals disk v s (
        subst (Reveals v)
          (some-injective
            (sym h.cached ∙ ap (λ n. lookup n r.cache) (sym ((==_iff name' name).0 k)) ∙ e))
          h.reveals)

result-finish : (name : Bytes) (o : Outcome) (r : SecretRegistry) → (finish name o r).0 ≡ o
unfolding finish
result-finish name (error e) r = refl
result-finish name (value w) r = refl

finish-Held :
    (name v : Bytes) (s : SecretSource) (o : Outcome) (r : SecretRegistry)
    → o ≡ value v
    → lookup name r.cache ≡ some s
    → Reveals v s
    → Held name v (finish name o r).1
finish-Held name v s o r e c h = record {
  source = s;
  cached = ap (λ m. lookup name m) (cache-finish name o r) ∙ c;
  reveals = h;
  registered = λ long.
      subst (λ x. lookup name (finish name x r).1.revealed ≡ some v) (sym e)
        (revealed-finish name v r long);
}

resolve_at-Held :
    (disk : String → ReadResult) (fetcher : Bytes → Outcome) (name v : Bytes)
    (o : Option SecretSource) (r : SecretRegistry)
    → (resolve_at disk fetcher name o r).0 ≡ value v
    → Held name v (resolve_at disk fetcher name o r).1
unfolding resolve_at
resolve_at-Held disk fetcher name v none r h =
    let e = sym (result-finish name (fetcher name) (fetched name (fetcher name) r)) ∙ h in
    finish-Held name v (plain v) (fetcher name) _ e
      (subst (λ x. lookup name (fetched name x r).cache ≡ some (plain v)) (sym e)
        (unfold fetched in rw (==_refl name) refl))
      refl
resolve_at-Held disk fetcher name v (some s) r h =
    let e = sym (result-finish name (reveal disk s).0 _) ∙ h in
    finish-Held name v (reveal disk s).1 (reveal disk s).0 _ e
      (lookup-insert name name (reveal disk s).1 r.cache ∙ rw (==_refl name) refl)
      (Reveals-reveal disk v s e)

pub Held-value :
    (disk : String → ReadResult) (fetcher : Bytes → Outcome) (name v : Bytes) (r : SecretRegistry)
    → Held name v r
    → (resolve disk fetcher name r).0 ≡ value v
unfolding resolve resolve_at
Held-value disk fetcher name v r h =
    rw h.cached
      (result-finish name (reveal disk h.source).0 _ ∙ (reveal-Reveals disk v h.source h.reveals).0)

pub resolve-Held :
    (disk : String → ReadResult) (fetcher : Bytes → Outcome) (name v : Bytes) (r : SecretRegistry)
    → (resolve disk fetcher name r).0 ≡ value v
    → Held name v (resolve disk fetcher name r).1
unfolding resolve
resolve-Held disk fetcher name v r h = resolve_at-Held disk fetcher name v _ r h

pub Held-resolve :
    (disk : String → ReadResult) (fetcher : Bytes → Outcome) (name v name' : Bytes)
    (r : SecretRegistry)
    → Held name v r
    → Held name v (resolve disk fetcher name' r).1
unfolding resolve
Held-resolve disk fetcher name v name' r h = Held-resolve_at disk fetcher name v name' _ r refl h
