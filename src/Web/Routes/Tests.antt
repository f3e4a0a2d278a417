-- ===== src/Web/Routes/Tests.antt =====
-- A request for the runs of a repository, without a user.
use quire.Prelude.{◌≡◌, refl, true, false, [], ◌∷◌}
use quire.Prelude.Bytes.{bytes}
use quire.Web.Routes.{
  Request, no_user, no_text, is_authenticated, through, unauthorized, serve, server_routes,
  web_routes, public_router, ci_router, api_router, route_at,
}
use quire.Web.Routes.Guarded.{serve-answer}

abbrev nobody : Request
nobody = record { path = bytes "/app/ci"; remote_user = no_user; has_token = false }

serve-answer_example : serve (λ rs p. 11) false nobody ≡ unauthorized
unfolding server_routes web_routes public_router ci_router api_router route_at
serve-answer_example = serve-answer (λ rs p. 11) false nobody

-- A user whose name is no text is shown what `Auth` shows of runs, but not their pages.
no_text_user :
    (is_authenticated (no_text (b'j' ∷ b'o' ∷ b's' ∷ 233 ∷ [])) ≡ true)
    × (serve
          (λ rs p. 11)
          false
          (record nobody { remote_user = no_text (b'j' ∷ b'o' ∷ b's' ∷ 233 ∷ []) })
        ≡ unauthorized)
unfolding is_authenticated serve server_routes web_routes public_router ci_router api_router
    route_at through
no_text_user = (refl, refl)
