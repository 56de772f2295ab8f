-- ===== src/Routers/Serve.antt =====
-- A request on licensing-master/src/routers.py from its headers to its reply: the guard against
-- cross-site requests, the identity, the connection, the use case, and the reply.
use licensing_master.Base.{
  ℕ, String, ◌==◌, nat_eq, string_eq, true, false, Option, none, some, if◌then◌else◌,
}
use licensing_master.Exec.{Exec, World, Result, ok, err, unauthorized, transaction, pure, ◌>>=◌}
use licensing_master.Service.Rows.{audit}
use licensing_master.Service.Activation.{ActivationResult}
use licensing_master.AdminAuth.{AuthEnv, revoke_session}
use licensing_master.Identity.{
  Headers, ServiceIdentity, client_ip, admin_identity, csrf_guard, service_identity,
}
use licensing_master.Routers.{App, activate, login, delete_tenant}
use licensing_master.Routers.Replies.{Answer, Cookie, Reply, answered, failed, respond}
use licensing_master.Routers.Routes.{
  Route, AdminRoute, CpRoute, admin_method, admin_status, cp_code, admin_reads, cp_reads,
  on_connection, run_admin, run_cp,
}

-- `revoke_session` for the cookie, `if raw`
abbrev pub revoke_cookie : AuthEnv → Option String → Exec (Option String)
revoke_cookie auth none = pure none
revoke_cookie auth (some raw) = if raw == "" then pure none else revoke_session auth raw

abbrev pub audit_logout : AuthEnv → Option String → Exec (Unit {0})
audit_logout auth none = pure tt
audit_logout auth (some email) =
    if email == "" then pure tt else audit auth.env email "admin.logout" "admin_user" email none

-- `logout`
unfoldable pub logout : AuthEnv → Option String → Exec (Unit {0})
logout auth cookie = do email ← revoke_cookie auth cookie; audit_logout auth email

-- `_no_store`
abbrev pub no_store : Reply → Reply
no_store r = record r { no_store = true }

-- the reply to a logout; the cookie goes
abbrev pub logged_out : Result (Unit {0}) → Reply
logged_out (ok _) = record (no_store (answered 200 Answer.logged_out)) { cookie = Cookie.delete }
logged_out (err e) = failed e

-- the reply to a login; a refusal is returned, anything else was raised
unfoldable pub logged_in : AuthEnv → Result (String × String) → Reply
logged_in auth (ok (raw, email)) = record (no_store (answered 200 (Answer.email email))) {
  cookie =
      Cookie.set raw auth.absolute_seconds (elim auth.env.is_dev [ true ↦ false | false ↦ true ]);
}
logged_in auth (err unauthorized) = no_store (failed unauthorized)
logged_in auth (err e) = failed e

abbrev pub with_world : App → World → App
with_world app w = record app { world = w }

abbrev activated : Result ActivationResult → Reply
activated (ok a) = answered 201 (Answer.activation a)
activated (err e) = failed e

abbrev deleted : Result ℕ → Reply
deleted (ok k) = answered 200 (Answer.deleted k)
deleted (err e) = failed e

module _ (mono : ℕ → ℕ) (auth : AuthEnv) (h : Headers) where
  -- what follows `csrf_guard`, by what it came to
  abbrev pub guarded : App → Result (Unit {0}) → (App → Reply × App) → Reply × App
  guarded app (ok _) k = k app
  guarded app (err e) k = (failed e, app)

  -- what follows `admin_identity`, by what it came to; its commit keeps what it wrote
  abbrev pub as_admin : App → Result String × World → (String → App → Reply × App) → Reply × App
  as_admin app (ok email, w) k = k email (with_world app w)
  as_admin app (err e, w) k = (failed e, with_world app w)

  abbrev pub answer_on : ℕ → App → Result Answer × World → Reply × App
  answer_on code app (r, w) = (respond code r, with_world app w)

  -- a route of `admin`
  unfoldable pub serve_admin : AdminRoute → App → Reply × App
  serve_admin route app = guarded app (csrf_guard (admin_method route) h app.world).0 λ app.
      as_admin app (admin_identity auth h app.world) λ email app.
        answer_on (admin_status route) app
          (on_connection (admin_reads route) (run_admin auth.env email route) app.world)

  -- the deletion of a tenant
  unfoldable pub serve_deletion : ℕ → Option String → App → Reply × App
  serve_deletion k password app = guarded app (csrf_guard "DELETE" h app.world).0 λ app.
      as_admin app (admin_identity auth h app.world) λ email app.
        let (r, app') = delete_tenant mono auth (client_ip h) email k password app in
        (deleted r, app')

  -- what follows `service_identity`, by what it came to
  abbrev pub as_service :
      App → Result ServiceIdentity → (ServiceIdentity → Reply × App) → Reply × App
  as_service app (ok ident) k = k ident
  as_service app (err e) k = (failed e, app)

  -- a route of `cp`, for the tenant of the service token
  unfoldable pub serve_cp : CpRoute → App → Reply × App
  serve_cp route app =
      let (who, limiter) = service_identity mono auth.env h app.world app.service_auth_limiter in
      let counted : App = record app { service_auth_limiter = limiter } in
      as_service counted who λ ident.
        answer_on (cp_code route) counted
          (on_connection (cp_reads route) (run_cp auth.env ident.tenant_id route) counted.world)

  -- the login and the logout, which need no session
  unfoldable pub serve_login : String → String → String → App → Reply × App
  serve_login email password code app = guarded app (csrf_guard "POST" h app.world).0 λ app.
      let (r, app') = login mono auth (client_ip h) h.user_agent email password code app in
      (logged_in auth r, app')

  unfoldable pub serve_logout : App → Reply × App
  serve_logout app = guarded app (csrf_guard "POST" h app.world).0 λ app.
      let (r, w) = transaction (logout auth h.session_cookie) app.world in
      (logged_out r, with_world app w)

  -- a request on `router`
  unfoldable pub serve : Route → App → Reply × App
  serve Route.health app = (answered 200 Answer.healthy, app)
  serve (Route.activate body) app =
      let (r, app') = activate mono auth.env (client_ip h) body app in (activated r, app')
  serve (Route.login email password code) app = serve_login email password code app
  serve Route.logout app = serve_logout app
  serve (Route.delete_tenant k password) app = serve_deletion k password app
  serve (Route.admin route) app = serve_admin route app
  serve (Route.cp route) app = serve_cp route app
