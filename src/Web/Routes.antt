-- ===== src/Web/Routes.antt =====
-- Which handler serves a request, and what stands before it: the routers of
-- quire-server/src/quire/web/mod.rs and of quire-server/src/quire/web/api.rs, what
-- quire-server/src/bin/quire/main.rs and server.rs there make of them, and the middleware of
-- quire-server/src/quire/web/auth.rs. How axum picks a route for a path is an argument.
pub mod Guarded
mod Tests
use quire.Prelude.{
  ℕ, zero, suc, Bool, true, false, Option, none, some, List, [], ◌∷◌, ◌++◌, map, if◌then◌else◌,
}
use quire.Prelude.Bytes.{Bytes, bytes}

pub data Handler : Type 0 where
  stylesheet file_view_script repo_home repo_home_slash tree_view tree_view_path : Handler
  log_view commit_view config repo_list run_list run_detail : Handler
  health get_bootstrap get_secret : Handler

-- A segment of a route's path: a text, one that may be anything, or all the rest.
pub data Segment : Type 0 where
  literal : Bytes → Segment
  capture rest_of_path : Segment

pub data Guard : Type 0 where
  require_user inject_user verify_token : Guard

-- A route with its middleware, the outermost first.
pub record Route : Type 0 where
  pub segments : List Segment
  pub guards : List Guard
  pub handler : Handler

abbrev pub route : List Segment → Handler → Route
route segments handler = record { segments = segments; guards = []; handler = handler }

-- Router::layer
abbrev pub layer : Guard → List Route → List Route
layer g routes = map (λ (r : Route). record r { guards = g ∷ r.guards }) routes

-- Router::nest
abbrev pub nest : List Segment → List Route → List Route
nest prefix routes = map (λ (r : Route). record r { segments = prefix ++ r.segments }) routes

unfoldable pub public_router : List Route
public_router =
    route (literal (bytes "style.css") ∷ []) stylesheet
    ∷ route (literal (bytes "file-view.js") ∷ []) file_view_script
    ∷ route (capture ∷ []) repo_home
    ∷ route (capture ∷ literal [] ∷ []) repo_home_slash
    ∷ route (capture ∷ literal (bytes "tree") ∷ []) tree_view
    ∷ route (capture ∷ literal (bytes "tree") ∷ rest_of_path ∷ []) tree_view_path
    ∷ route (capture ∷ literal (bytes "log") ∷ []) log_view
    ∷ route (capture ∷ literal (bytes "commits") ∷ capture ∷ []) commit_view
    ∷ route (literal (bytes "config") ∷ []) config
    ∷ route [] repo_list
    ∷ []

unfoldable pub ci_router : List Route
ci_router =
    route (capture ∷ literal (bytes "ci") ∷ []) run_list
    ∷ route (capture ∷ literal (bytes "ci") ∷ capture ∷ []) run_detail
    ∷ []

unfoldable pub api_router : List Route
api_router = nest (literal (bytes "run") ∷ []) (
    layer verify_token (
      route (literal (bytes "bootstrap") ∷ []) get_bootstrap
      ∷ route (literal (bytes "secrets") ∷ capture ∷ []) get_secret
      ∷ []))

-- The routes of `main`; the flag is `--dev`.
unfoldable pub web_routes : Bool → List Route
web_routes dev =
    let merged = public_router ++ layer require_user ci_router in
    if dev then layer inject_user merged else merged

-- The routes of `serve`.
unfoldable pub server_routes : Bool → List Route
server_routes dev =
    route (literal (bytes "health") ∷ []) health
    ∷ (web_routes dev ++ nest (literal (bytes "api") ∷ []) api_router)

-- The header `Remote-User`: none, a text, or bytes of which `to_str` makes no text.
pub data RemoteUser : Type 0 where
  no_user : RemoteUser
  user no_text : Bytes → RemoteUser

-- The extractor `Auth` of the pages: whether the header is there.
unfoldable pub is_authenticated : RemoteUser → Bool
is_authenticated no_user = false
is_authenticated (user name) = true
is_authenticated (no_text name) = true

-- What the middleware asks of a request: its `Remote-User`, and whether its bearer token is that of a
-- run.
pub record Request : Type 0 where
  pub path : Bytes
  pub remote_user : RemoteUser
  pub has_token : Bool

pub data Served : Type 0 where
  no_route unauthorized : Served
  served : Handler → RemoteUser → Served

abbrev pub unless_none : RemoteUser → Served → Served
unless_none no_user next = unauthorized
unless_none (user name) next = next
unless_none (no_text name) next = unauthorized

unfoldable pub through : List Guard → Handler → Request → Served
through [] h q = served h q.remote_user
through (require_user ∷ gs) h q = unless_none q.remote_user (through gs h q)
through (inject_user ∷ gs) h q = through gs h (record q { remote_user = user (bytes "dev") })
through (verify_token ∷ gs) h q =
    let next = through gs h q in if q.has_token then next else unauthorized

unfoldable pub route_at : ℕ → List Route → Option Route
route_at n [] = none
route_at zero (r ∷ rs) = some r
route_at (suc n) (r ∷ rs) = route_at n rs

abbrev pub serve_route : Option Route → Request → Served
serve_route none q = no_route
serve_route (some r) q = through r.guards r.handler q

-- `pick` is the number of the route that axum finds for a path.
unfoldable pub serve : (List Route → Bytes → ℕ) → Bool → Request → Served
serve pick dev q = serve_route (route_at (pick (server_routes dev) q.path) (server_routes dev)) q
