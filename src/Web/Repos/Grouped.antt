-- ===== src/Web/Repos/Grouped.antt =====
-- Where the link of a repository in a group leads.
use quire.Prelude.{
  ℕ, zero, suc, ◌≡◌, ◌∙◌, refl, ap, sym, Bool, true, false, Option, List, [], ◌∷◌, ◌++◌, All,
  All-append, ◌==◌, bytes_eq, path_eq, Bool-cases, inl, inr, arith, or_false, ◌&&◌, ◌||◌,
}
use quire.Prelude.Bytes.{Bytes, bytes, contains}
use quire.Repo.{Repo, is_empty}
use quire.Repo.Store.{FileSystem, slashed}
use quire.Repo.Store.Listed.{split-slashed}
use quire.Web.Routes.{
  Route, literal, nest, layer, require_user, inject_user, Guard, public_router, ci_router,
  api_router, web_routes, server_routes, Request, no_route, route_at, serve_route, serve,
}
use quire.Web.Repos.{
  listed_repo, item_href, behind_first, path_segments, fits, fits_path, first_fit,
}

abbrev Misses : List Bytes → Route → Type 0
Misses ss r = fits r.segments ss ≡ false

and_false : (b : Bool) → (b && false) ≡ false
and_false true = refl
and_false false = refl

two_segments : (b c : Bool) → (b && (c && false)) ≡ false
two_segments b c = ap (λ (x : Bool). b && x) (and_false c) ∙ and_false b

-- What may stand behind `/{repo}/`.
abbrev pub is_page : Bytes → Bool
is_page n = is_empty n || n == bytes "tree" || n == bytes "log" || n == bytes "ci"

page_misses : (b c : Bool) → c ≡ false → (b && (c && true)) ≡ false
page_misses b c h = rw h (and_false b)

empty-== : (n : Bytes) → is_empty n ≡ false → (n == []) ≡ false
unfolding is_empty
empty-== [] h = absurd (ground (arith, h))
empty-== (c ∷ n) h = refl

module _ (g n : Bytes) (h : is_page n ≡ false) where
  public-Misses : All (Misses (g ∷ n ∷ [])) public_router
  unfolding public_router fits
  public-Misses =
      let (a, no_ci) = or_false _ _ h in
      let (b, no_log) = or_false _ _ a in
      let (c, no_tree) = or_false _ _ b in
      (
        and_false _,
        (
          and_false _,
          (
            and_false _,
            (
              page_misses _ _ (empty-== n c),
              (
                page_misses _ _ no_tree,
                (
                  two_segments _ _,
                  (page_misses _ _ no_log, (two_segments _ _, (and_false _, (refl, tt)))),
                ),
              ),
            ),
          ),
        ),
      )

  ci-Misses : All (Misses (g ∷ n ∷ [])) ci_router
  unfolding ci_router fits
  ci-Misses = let (a, no_ci) = or_false _ _ h in (page_misses _ _ no_ci, (two_segments _ _, tt))

  api-Misses : All (Misses (g ∷ n ∷ [])) (nest (literal (bytes "api") ∷ []) api_router)
  unfolding api_router fits
  api-Misses = (two_segments _ _, (two_segments _ _, tt))

  All-layer :
      (m : Guard) (rs : List Route)
      → All (Misses (g ∷ n ∷ [])) rs
      → All (Misses (g ∷ n ∷ [])) (layer m rs)
  All-layer m [] k = tt
  All-layer m (r ∷ rs) k = (k.0, All-layer m rs k.1)

  merged-Misses : All (Misses (g ∷ n ∷ [])) (public_router ++ layer require_user ci_router)
  merged-Misses =
      All-append _ public_router (layer require_user ci_router) public-Misses
        (All-layer require_user ci_router ci-Misses)

  web-Misses : (dev : Bool) → All (Misses (g ∷ n ∷ [])) (web_routes dev)
  unfolding web_routes
  web-Misses true = All-layer inject_user _ merged-Misses
  web-Misses false = merged-Misses

  server_routes-Misses : (dev : Bool) → All (Misses (g ∷ n ∷ [])) (server_routes dev)
  unfolding server_routes fits
  server_routes-Misses dev =
      (and_false _, All-append _ (web_routes dev) _ (web-Misses dev) api-Misses)

path_segments-grouped :
    (g n : Bytes)
    → contains b'/' g ≡ false
    → contains b'/' n ≡ false
    → path_segments (b'/' ∷ g ++ b'/' ∷ n) ≡ g ∷ n ∷ []
unfolding path_segments slashed
path_segments-grouped g n h k =
    ap behind_first (split-slashed [] (g ∷ n ∷ []) (refl, (h, (k, tt)))) ∙ by g
  where
    by : (g : Bytes) → behind_first ([] ∷ g ∷ n ∷ []) ≡ g ∷ n ∷ []
    by [] = refl
    by (c ∷ g) = refl

-- A route that is for a path, among routes of which none is, is no route.
serve_route-missed :
    (ss : List Bytes) (k : ℕ) (rs : List Route) (q : Request)
    → path_segments q.path ≡ ss
    → All (Misses ss) rs
    → fits_path q.path (route_at k rs) ≡ true
    → serve_route (route_at k rs) q ≡ no_route
unfolding route_at fits_path
serve_route-missed ss k [] q e misses h = refl
serve_route-missed ss zero (r ∷ rs) q e misses h =
    absurd (ground (arith, sym misses.0 ∙ ap (fits r.segments) (sym e) ∙ h))
serve_route-missed ss (suc k) (r ∷ rs) q e misses h = serve_route-missed ss k rs q e misses.1 h

-- The link of a listed repository in a group, whose name in the group is none of `tree`, `log` and `ci` nor
-- empty, leads to no page: whatever route axum picks by its rules, there is none for it.
pub serve-grouped :
    (pick : List Route → Bytes → ℕ) (dev : Bool) (fs : FileSystem) (subject : Repo → Option Bytes)
    (r : Repo) (g n : Bytes) (q : Request)
    → ((rs : List Route) (p : Bytes) → fits_path p (route_at (pick rs p) rs) ≡ true)
    → contains b'/' g ≡ false
    → contains b'/' n ≡ false
    → (listed_repo fs subject r).name ≡ g ++ b'/' ∷ n
    → is_page n ≡ false
    → q.path ≡ item_href (listed_repo fs subject r)
    → serve pick dev q ≡ no_route
unfolding serve item_href
serve-grouped pick dev fs subject r g n q axum plain_g plain_n named no_page at =
    serve_route-missed (g ∷ n ∷ []) (pick (server_routes dev) q.path) (server_routes dev) q
      (ap path_segments (at ∙ ap (λ (x : Bytes). b'/' ∷ x) named)
        ∙ path_segments-grouped g n plain_g plain_n)
      (server_routes-Misses g n no_page dev) (axum (server_routes dev) q.path)

pub first_fit-fits :
    (rs : List Route) (p : Bytes) → fits_path p (route_at (first_fit rs p) rs) ≡ true
unfolding first_fit route_at fits_path
first_fit-fits [] p = refl
first_fit-fits (r ∷ rs) p = elim (Bool-cases (fits r.segments (path_segments p))) [
  | inl e ↦ rw e e
  | inr e ↦ rw e (first_fit-fits rs p)
]
