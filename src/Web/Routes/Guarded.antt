-- ===== src/Web/Routes/Guarded.antt =====
-- What a request must have for each handler.
use quire.Prelude.{
  ℕ, zero, suc, ◌≡◌, ◌∙◌, refl, ap, Bool, true, false, Option, none, some, List, [], ◌∷◌, All,
  if◌then◌else◌,
}
use quire.Prelude.Bytes.{Bytes, bytes}
use quire.Web.Routes.{
  Handler, health, run_list, run_detail, get_bootstrap, get_secret, Guard, require_user,
  inject_user, verify_token, Route, public_router, ci_router, api_router, web_routes, server_routes,
  Request, RemoteUser, no_user, user, no_text, Served, no_route, unauthorized, served, unless_none,
  through, route_at, serve_route, serve,
}

pub data Need : Type 0 where
  nothing_needed user_needed token_needed : Need

abbrev pub need : Handler → Need
need run_list = user_needed
need run_detail = user_needed
need get_bootstrap = token_needed
need get_secret = token_needed
need _ = nothing_needed

-- The user that a page is served to: for development it is always one, but for the parts that are
-- no web pages.
abbrev pub is_web : Handler → Bool
is_web health = false
is_web get_bootstrap = false
is_web get_secret = false
is_web _ = true

abbrev pub user_of : Bool → Handler → Request → RemoteUser
user_of dev h q =
    if dev then (if is_web h then user (bytes "dev") else q.remote_user) else q.remote_user

abbrev pub verdict : Need → Handler → RemoteUser → Bool → Served
verdict nothing_needed h u token = served h u
verdict user_needed h no_user token = unauthorized
verdict user_needed h (user name) token = served h (user name)
verdict user_needed h (no_text name) token = unauthorized
verdict token_needed h u true = served h u
verdict token_needed h u false = unauthorized

-- The middleware that stands before a handler.
abbrev guards_by : Need → List Guard
guards_by nothing_needed = []
guards_by user_needed = require_user ∷ []
guards_by token_needed = verify_token ∷ []

abbrev guards_for : Bool → Bool → Need → List Guard
guards_for true true n = inject_user ∷ guards_by n
guards_for true false n = guards_by n
guards_for false web n = guards_by n

through-guards_by :
    (n : Need) (h : Handler) (q : Request)
    → through (guards_by n) h q ≡ verdict n h q.remote_user q.has_token
unfolding through
through-guards_by nothing_needed h q = refl
through-guards_by user_needed h q = by q.remote_user
  where
    by : (u : RemoteUser) → unless_none u (served h u) ≡ verdict user_needed h u q.has_token
    by no_user = refl
    by (user name) = refl
    by (no_text name) = refl
through-guards_by token_needed h q = by q.has_token
  where
    by :
        (b : Bool)
        → (if b then served h q.remote_user else unauthorized)
          ≡ verdict token_needed h q.remote_user b
    by true = refl
    by false = refl

through-guards_for :
    (dev web : Bool) (n : Need) (h : Handler) (q : Request)
    → through (guards_for dev web n) h q
      ≡ verdict n h
          (if dev then (if web then user (bytes "dev") else q.remote_user) else q.remote_user)
          q.has_token
unfolding through
through-guards_for true true n h q =
    through-guards_by n h (record q { remote_user = user (bytes "dev") })
through-guards_for true false n h q = through-guards_by n h q
through-guards_for false web n h q = through-guards_by n h q

abbrev IsGuarded : Bool → Route → Type 0
IsGuarded dev r = r.guards ≡ guards_for dev (is_web r.handler) (need r.handler)

server_routes-IsGuarded : (dev : Bool) → All (IsGuarded dev) (server_routes dev)
unfolding server_routes web_routes public_router ci_router api_router
server_routes-IsGuarded true = (
  refl,
  (
    refl,
    (
      refl,
      (
        refl,
        (refl, (refl, (refl, (refl, (refl, (refl, (refl, (refl, (refl, (refl, (refl, tt))))))))))),
      ),
    ),
  ),
)
server_routes-IsGuarded false = (
  refl,
  (
    refl,
    (
      refl,
      (
        refl,
        (refl, (refl, (refl, (refl, (refl, (refl, (refl, (refl, (refl, (refl, (refl, tt))))))))))),
      ),
    ),
  ),
)

-- What a request gets: the route's handler, if it has what that handler needs.
abbrev pub answer : Bool → Option Route → Request → Served
answer dev none q = no_route
answer dev (some r) q = verdict (need r.handler) r.handler (user_of dev r.handler q) q.has_token

serve_route-answer :
    (dev : Bool) (q : Request) (n : ℕ) (rs : List Route)
    → All (IsGuarded dev) rs
    → serve_route (route_at n rs) q ≡ answer dev (route_at n rs) q
unfolding route_at
serve_route-answer dev q n [] h = refl
serve_route-answer dev q zero (r ∷ rs) h =
    ap (λ gs. through gs r.handler q) h.0
    ∙ through-guards_for dev (is_web r.handler) (need r.handler) r.handler q
serve_route-answer dev q (suc n) (r ∷ rs) h = serve_route-answer dev q n rs h.1

-- Whatever route is picked for a request, the pages of runs are served to those with a `Remote-User`
-- that is a text and to nobody else, the run API to those with the token of a run, and all else to
-- everybody; with `--dev`, every web page is served as to the user `dev`, and the run API still
-- needs its token.
pub serve-answer :
    (pick : List Route → Bytes → ℕ) (dev : Bool) (q : Request)
    → serve pick dev q
      ≡ answer dev (route_at (pick (server_routes dev) q.path) (server_routes dev)) q
unfolding serve
serve-answer pick dev q =
    serve_route-answer dev q (pick (server_routes dev) q.path) (server_routes dev)
      (server_routes-IsGuarded dev)
