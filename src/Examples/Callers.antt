-- ===== src/Examples/Callers.antt =====
-- Callers of the example: a back end with a fresh service token, an admin, and a stranger.
use licensing_master.Base.{◌≡◌, refl, ◌==◌, string_eq, true, none, some, if◌then◌else◌}
use licensing_master.Exec.{Env}
use licensing_master.Exec.Succeeds.{Succeeds}
use licensing_master.Service.Lifecycle.{admin_mint_service_token}
use licensing_master.AdminAuth.{AuthEnv}
use licensing_master.Limiter.{retry_after, retry_until}
use licensing_master.Identity.{Headers, is_bearer}
use licensing_master.Identity.Tokens.{next_token}
use licensing_master.Identity.Admins.{admitted}
use licensing_master.Routers.{App}
use licensing_master.Routers.Routes.{AdminRoute, CpRoute}
use licensing_master.Routers.Serve.{with_world, serve_admin, serve_deletion, serve_cp}
use licensing_master.Routers.Scopes.{serve_for, minted_token-scoped}
use licensing_master.Routers.Access.{IsRefusal, serve_admin-stranger}
use licensing_master.Examples.{live_env, world, shop, product}
use licensing_master.Examples.Logins.{auth, office}
use licensing_master.Examples.Requests.{app, mono}

abbrev lower_env : Env
lower_env = record live_env {
  lower = λ s. if s == "Bearer svc_random" then "bearer svc_random" else s;
}

abbrev lower_auth : AuthEnv
lower_auth = record auth { env = lower_env }

abbrev back_end : Headers
back_end = record {
  client_host = some "10.0.0.9";
  session_cookie = none;
  requested_with = none;
  authorization = some "Bearer svc_random";
  user_agent = none;
}

abbrev portal : Headers
portal = record back_end {
  session_cookie = some "cookie";
  requested_with = some "lm-portal";
  authorization = none;
}

abbrev world_app : App
world_app = record app { world = world }

ip_free : (retry_after "10.0.0.9" (mono 0) app.service_auth_limiter).0 ≡ 0
unfolding retry_after retry_until
ip_free = refl

bears : is_bearer mono lower_env (some "Bearer svc_random") ≡ true
unfolding is_bearer
bears = refl

minted_token-scoped_example :
    Succeeds
      (λ raw v.
        (raw ≡ next_token lower_env world)
        × (serve_cp mono lower_auth back_end CpRoute.seat_limit (with_world world_app v)
            ≡ serve_for mono lower_auth back_end CpRoute.seat_limit
                (some 2)
                (with_world world_app v)))
      (admin_mint_service_token lower_env "admin" 2 "till server" world)
minted_token-scoped_example =
    minted_token-scoped mono lower_auth back_end CpRoute.seat_limit "admin" 2 "till server"
      world_app {t = shop} {p = product} refl refl refl refl refl ip_free refl bears refl

stranger_comes : admitted auth back_end office ≡ none
stranger_comes = refl

serve_admin-stranger_example :
    IsRefusal mono auth back_end app (serve_admin mono auth back_end (AdminRoute.suspend 2) app)
    × IsRefusal mono auth back_end app
        (serve_deletion mono auth back_end 2 (some "secret password") app)
serve_admin-stranger_example =
    serve_admin-stranger mono auth back_end (AdminRoute.suspend 2) 2 (some "secret password") app
      stranger_comes
