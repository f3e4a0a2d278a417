-- ===== src/Runs/Api/Secrets.antt =====
-- Secrets over the run API: `get_secret` of quire-server/src/quire/web/api.rs, and what asks it,
-- `RunClient::fetch_secret` of quire-ci/src/main.rs. Transport, the texts of errors, the name that
-- the router finds in the URL and the JSON of the answer are arguments.
use quire.Prelude.{
  ℕ, ◌≡◌, ◌∙◌, refl, ap, inl, inr, String, ◌&&◌, Option, none, some, List, [], ◌∷◌, lookup, any,
  Bool, true, false, ◌==◌, string_eq, Bool-cases, leb, ltb, eqb, bytes_eq, if◌then◌else◌,
}
use quire.Prelude.Bytes.{Bytes}
use quire.Database.{Db, RunRow}
use quire.Secret.{
  SecretError, resolve_failed, unknown_secret, Outcome, value, error, ReadResult, SecretSource,
  clone, reveal, SecretRegistry, resolve, resolve_at, finish,
}
use quire.Runs.Api.{
  Reply, reply, refuse, ApiError, not_found, unauthorized, status, verify_run_token,
  or_unauthorized, find_token, holds_token,
}

-- What a request gets: a status and, if it succeeds, the value.
pub data SecretReply : Type 0 where
  revealed : Bytes → SecretReply
  refused : ApiError → SecretReply
  secret_error : SecretError → SecretReply

secret_reply : Outcome → SecretReply
secret_reply (value v) = revealed v
secret_reply (error e) = secret_error e

revealed_source : (String → ReadResult) → Option SecretSource → SecretReply
revealed_source disk none = refused not_found
revealed_source disk (some source) = secret_reply (reveal disk (clone source)).0

-- The state of a handler is a clone of the server's, so that no cell of a file is filled.
unfoldable pub get_secret :
    (String → ReadResult) → List (Bytes × SecretSource) → Bytes → SecretReply
unfolding revealed_source secret_reply
get_secret disk secrets name = revealed_source disk (lookup name secrets)

-- An answer as it comes over the wire; `none` when there is none.
pub record HttpAnswer : Type 0 where
  pub status : ℕ
  pub body : Bytes

routed : (String → ReadResult) → List (Bytes × SecretSource) → Option Bytes → SecretReply
unfolding get_secret
routed disk secrets none = refused not_found
routed disk secrets (some name) = get_secret disk secrets name

behind_token :
    Reply String → (String → ReadResult) → List (Bytes × SecretSource) → Option Bytes → SecretReply
unfolding routed
behind_token (refuse e) disk secrets name = refused e
behind_token (reply run_id) disk secrets name = routed disk secrets name

module _ (encode : Bytes → Bytes) where
  unfoldable pub http_answer : SecretReply → HttpAnswer
  http_answer (revealed v) = record { status = 200; body = encode v }
  http_answer (refused e) = record { status = status e; body = [] }
  http_answer (secret_error e) = record { status = 500; body = [] }

  -- The middleware, and the handler behind it if the router finds a name.
  unfoldable pub secret_request :
      Option String
      → Db
      → (String → ReadResult)
      → List (Bytes × SecretSource)
      → Option Bytes
      → HttpAnswer
  unfolding behind_token http_answer
  secret_request bearer db disk secrets name =
      http_answer (behind_token (verify_run_token bearer db) disk secrets name)

-- The tokens of the runs that have one.
abbrev pub tokens : List RunRow → List String
tokens [] = []
tokens (r ∷ rs) = elim r.run_token [ none ↦ tokens rs | some t ↦ t ∷ tokens rs ]

-- Whether a request has a bearer token, and it is that of a run.
abbrev pub is_run_token : Option String → Db → Bool
is_run_token none db = false
is_run_token (some token) db = any (λ t. t == token) (tokens db.runs)

abbrev IsVerified : Bool → Reply String → Type 0
IsVerified true t = (id : String) × (t ≡ reply id)
IsVerified false t = t ≡ refuse unauthorized

module _ (decode : Bytes → Option Bytes) (failure : String) where
  read_value : Option Bytes → Outcome
  read_value none = error (resolve_failed failure)
  read_value (some v) = value v

  -- RunClient::fetch_secret
  unfoldable pub fetch_secret : Bytes → Option HttpAnswer → Outcome
  unfolding read_value
  fetch_secret name none = error (resolve_failed failure)
  fetch_secret name (some a) =
      if leb 200 a.status && ltb a.status 300
      then read_value (decode a.body)
      else if eqb a.status 404
      then error (unknown_secret name)
      else error (resolve_failed failure)

  -- What reaches a job of a secret on the server's side.
  abbrev pub over_http : Bytes → Option Outcome → Outcome
  over_http name none = error (unknown_secret name)
  over_http name (some (value v)) = value v
  over_http name (some (error e)) = error (resolve_failed failure)

  abbrev pub revealed_by : (String → ReadResult) → Option SecretSource → Option Outcome
  revealed_by disk none = none
  revealed_by disk (some source) = some (reveal disk (clone source)).0

  fetch_source :
      (encode : Bytes → Bytes) (disk : String → ReadResult) (name : Bytes) (o : Option SecretSource)
      → ((v : Bytes) → decode (encode v) ≡ some v)
      → fetch_secret name (some (http_answer encode (revealed_source disk o)))
        ≡ over_http name (revealed_by disk o)
  unfolding fetch_secret http_answer revealed_source status secret_reply
  fetch_source encode disk name none back = refl
  fetch_source encode disk name (some source) back = one (reveal disk (clone source)).0
    where
      one :
          (o : Outcome)
          → fetch_secret name (some (http_answer encode (secret_reply o))) ≡ over_http name (some o)
      one (value v) = ap read_value (back v)
      one (error e) = refl

  -- What a name comes to, by whether the token is that of a run.
  abbrev pub expected : (String → ReadResult) → List (Bytes × SecretSource) → Bytes → Bool → Outcome
  expected disk secrets name false = error (resolve_failed failure)
  expected disk secrets name true = over_http name (revealed_by disk (lookup name secrets))

  fetch_secret-behind_token :
      (encode : Bytes → Bytes) (t : Reply String) (disk : String → ReadResult)
      (secrets : List (Bytes × SecretSource)) (name : Bytes) (b : Bool)
      → ((v : Bytes) → decode (encode v) ≡ some v)
      → IsVerified b t
      → fetch_secret name (some (http_answer encode (behind_token t disk secrets (some name))))
        ≡ expected disk secrets name b
  unfolding fetch_secret http_answer status behind_token
  fetch_secret-behind_token encode t disk secrets name true back (id, e) =
      rw e (fetch_source encode disk name (lookup name secrets) back)
  fetch_secret-behind_token encode t disk secrets name false back e = rw e refl

find_token-IsVerified :
    (token : String) (rs : List RunRow)
    → IsVerified (any (λ t. t == token) (tokens rs)) (or_unauthorized (find_token token rs))
unfolding find_token or_unauthorized holds_token
find_token-IsVerified token [] = refl
find_token-IsVerified token (r ∷ rs) = by (find_token-IsVerified token rs) r.run_token
  where
    by :
        IsVerified (any (λ t. t == token) (tokens rs)) (or_unauthorized (find_token token rs))
        → (o : Option String)
        → IsVerified
            (any (λ t. t == token) (elim o [ none ↦ tokens rs | some t ↦ t ∷ tokens rs ]))
            (or_unauthorized (
              if elim o [ none ↦ false | some t ↦ t == token ]
              then some r.id
              else find_token token rs))
    by rest none = rest
    by rest (some t) = elim (Bool-cases (t == token)) [
      | inl e ↦ rw e (r.id, refl)
      | inr e ↦ rw e rest
    ]

verify_run_token-IsVerified :
    (bearer : Option String) (db : Db)
    → IsVerified (is_run_token bearer db) (verify_run_token bearer db)
unfolding verify_run_token or_unauthorized
verify_run_token-IsVerified none db = refl
verify_run_token-IsVerified (some token) db = find_token-IsVerified token db.runs

-- When the client reads back the value that the server writes, and the router finds in the URL the name
-- that was asked for, a job that resolves a name for the first time gets by the run API exactly what
-- the server's own configuration reveals, if the token is a run's: the value; that the secret is
-- unknown, if it is not declared; and a failure, if it cannot be read. Without the token of a run it
-- gets a failure, and no value.
pub resolve-get_secret :
    (encode : Bytes → Bytes) (decode : Bytes → Option Bytes) (route : Bytes → Option Bytes)
    (failure : String) (bearer : Option String) (db : Db) (disk disk' : String → ReadResult)
    (secrets : List (Bytes × SecretSource)) (registry : SecretRegistry) (name : Bytes)
    → ((v : Bytes) → decode (encode v) ≡ some v)
    → route name ≡ some name
    → lookup name registry.cache ≡ none
    → (resolve disk'
        (λ n.
          fetch_secret decode failure n
            (some (secret_request encode bearer db disk secrets (route n))))
        name
        registry).0
      ≡ expected decode failure disk secrets name (is_run_token bearer db)
unfolding resolve resolve_at secret_request
resolve-get_secret encode decode route failure bearer db disk disk' secrets registry name back
      routes new =
    ap (λ (o : Option SecretSource). (resolve_at disk' fetcher name o registry).0) new
    ∙ same (fetcher name) _
    ∙ ap
        (λ (o : Option Bytes).
          fetch_secret decode failure name
            (some (http_answer encode (behind_token (verify_run_token bearer db) disk secrets o))))
        routes
    ∙ fetch_secret-behind_token decode failure encode (verify_run_token bearer db) disk secrets name
        (is_run_token bearer db) back (verify_run_token-IsVerified bearer db)
  where
    fetcher : Bytes → Outcome
    fetcher n =
        fetch_secret decode failure n
          (some (secret_request encode bearer db disk secrets (route n)))

    same : (o : Outcome) (r : SecretRegistry) → (finish name o r).0 ≡ o
    same (value v) r = refl
    same (error e) r = refl
