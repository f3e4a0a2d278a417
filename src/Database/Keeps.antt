-- ===== src/Database/Keeps.antt =====
-- What an action keeps, whether it succeeds or fails: one rule for each way to build an action.
use quire.Prelude.{Bool, true, false, if◌then◌else◌, ◌≡◌, refl, ap, arith}
use quire.Database.{Db, Action, Result, ok, err, Error, continue, return, fail, query, ◌>>=◌}

pub record Keeps {A : Type 0} (P : Db → Type 0) (m : Action A) : Type 0 where
  pub holds : (db : Db) → P db → P (m db).1

ok-injective : {A : Type 0} {a b : A} → ok a ≡ ok b → a ≡ b
ok-injective h = cc

module _ {A B : Type 0} {P : Db → Type 0} where
  after :
      (r : Result A) (f : A → Action B)
      → ((a : A) → Keeps P (f a))
      → (db : Db) → P db
      → P (continue r f db).1
  after (ok a) f kf db h = (kf a).holds db h
  after (err e) f kf db h = h

  pub Keeps-bind :
      (m : Action A) (f : A → Action B) → Keeps P m → ((a : A) → Keeps P (f a)) → Keeps P (m >>= f)
  unfolding ◌>>=◌
  Keeps-bind m f km kf = record { holds = λ db h. after (m db).0 f kf (m db).1 (km.holds db h) }

module _ {A : Type 0} {P : Db → Type 0} where
  pub Keeps-query : (f : Db → A) → Keeps P (query f)
  unfolding query
  Keeps-query f = record { holds = λ _ p. p }

  pub if-Keeps : (b : Bool) (m n : Action A) → Keeps P m → Keeps P n → Keeps P (if b then m else n)
  if-Keeps true m n km kn = km
  if-Keeps false m n km kn = kn

  pub Keeps-fail : (e : Error) → Keeps P (fail {A = A} e)
  unfolding fail
  Keeps-fail e = record { holds = λ _ p. p }

  pub Keeps-return : (a : A) → Keeps P (return a)
  unfolding return
  Keeps-return a = record { holds = λ _ p. p }

pub ruleset keeps_rules = (Keeps-bind, if-Keeps, Keeps-return, Keeps-query, Keeps-fail)

-- An action behind one that succeeds.
pub >>=-ok :
    {A B : Type 0} (m : Action A) (f : A → Action B) (db db' : Db) (a : A)
    → m db ≡ (ok a, db')
    → (m >>= f) db ≡ f a db'
unfolding ◌>>=◌
>>=-ok {A} {B} m f db db' a h = ap (λ (x : Result A × Db). continue x.0 f x.1) h

-- An action behind one that fails.
pub >>=-err :
    {A B : Type 0} (m : Action A) (f : A → Action B) (db db' : Db) (e : Error)
    → m db ≡ (err e, db')
    → (m >>= f) db ≡ (err e, db')
unfolding ◌>>=◌
>>=-err {A} {B} m f db db' e h = ap (λ (x : Result A × Db). continue x.0 f x.1) h

-- The parts of an action that succeeded.
pub >>=-eq-ok :
    {A B : Type 0} (m : Action A) (f : A → Action B) (db db' : Db) (b : B)
    → (m >>= f) db ≡ (ok b, db')
    → (a : A) × (db1 : Db) × (m db ≡ (ok a, db1)) × (f a db1 ≡ (ok b, db'))
unfolding ◌>>=◌
>>=-eq-ok {A} {B} m f db db' b h = parts (m db).0 (m db).1 refl h
  where
    parts :
        (r : Result A) (db1 : Db)
        → m db ≡ (r, db1)
        → continue r f db1 ≡ (ok b, db')
        → (a : A) × (db1 : Db) × (m db ≡ (ok a, db1)) × (f a db1 ≡ (ok b, db'))
    parts (ok a) db1 e k = (a, db1, e, k)
    parts (err x) db1 e k = absurd (ground arith)

pub query-eq-ok :
    {A : Type 0} (f : Db → A) (db db' : Db) (a : A)
    → query f db ≡ (ok a, db')
    → (f db ≡ a) × (db ≡ db')
unfolding query
query-eq-ok f db db' a h =
    (ok-injective (ap (λ (x : Result _ × Db). x.0) h), ap (λ (x : Result _ × Db). x.1) h)

pub return-eq-ok :
    {A : Type 0} (a b : A) (db db' : Db) → return a db ≡ (ok b, db') → (a ≡ b) × (db ≡ db')
unfolding return
return-eq-ok a b db db' h =
    (ok-injective (ap (λ (x : Result _ × Db). x.0) h), ap (λ (x : Result _ × Db). x.1) h)
