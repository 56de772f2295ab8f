-- ===== src/Routers/Soundness/Sequences.antt =====
-- Requests to licensing-master/src/routers.py one after another.
use licensing_master.Base.{
  ℕ, ◌≡◌, String, ◌==◌, nat_eq, Option, none, some, is_some, Bool-cases, inl, inr, take_text, arith,
}
use licensing_master.Exec.{World, Result, ok, err, transaction}
use licensing_master.Exec.Keeps.{Keeps-transaction}
use licensing_master.Service.Activation.{ActivationBody, ActivationResult, public_activate}
use licensing_master.Service.Soundness.{IsSound}
use licensing_master.Service.Soundness.UseCases.{public_activate-IsSound}
use licensing_master.Service.Soundness.Admin.{admin_delete_tenant-IsSound}
use licensing_master.Service.Lifecycle.{admin_delete_tenant}
use licensing_master.AdminAuth.{AuthEnv, normalize_email}
use licensing_master.AdminAuth as AdminAuth
use licensing_master.Identity.{
  Headers, ServiceIdentity, client_ip, admin_identity, csrf_guard, service_identity,
}
use licensing_master.Identity.Admins.{admitted, admin_identity-admitted}
use licensing_master.Limiter.{retry_after}
use licensing_master.Routers as Routers
use licensing_master.Routers.{
  App, confirms, after_activation, after_login, login_gate, count_login_failure,
}
use licensing_master.Routers.Replies.{Reply}
use licensing_master.Routers.Routes.{
  Route, AdminRoute, CpRoute, admin_method, admin_reads, cp_reads,
}
use licensing_master.Routers.Serve.{
  with_world, guarded, as_admin, as_service, serve_admin, serve_deletion, serve_cp, serve_login,
  serve_logout, serve,
}
use licensing_master.Routers.Soundness.UseCases.{admin_route-IsSound, cp_route-IsSound}
use licensing_master.Routers.Soundness.Logins.{login-IsSound, logout-IsSound}

module _ (mono : ℕ → ℕ) (auth : AuthEnv) (h : Headers) where
  guarded-IsSound :
      (app : App) (r : Result (Unit {0})) (k : App → Reply × App)
      → IsSound app.world.db
      → IsSound (k app).1.world.db
      → IsSound (guarded mono auth h app r k).1.world.db
  guarded-IsSound app (ok _) k before after = after
  guarded-IsSound app (err e) k before after = before

  as_admin-IsSound :
      (app : App) (p : Result String × World) (k : String → App → Reply × App)
      → IsSound p.1.db
      → ((email : String) → IsSound (k email (with_world app p.1)).1.world.db)
      → IsSound (as_admin mono auth h app p k).1.world.db
  as_admin-IsSound app (ok email, w) k before after = after email
  as_admin-IsSound app (err e, w) k before after = before

  as_service-IsSound :
      (app : App) (r : Result ServiceIdentity) (k : ServiceIdentity → Reply × App)
      → IsSound app.world.db
      → ((ident : ServiceIdentity) → IsSound (k ident).1.world.db)
      → IsSound (as_service mono auth h app r k).1.world.db
  as_service-IsSound app (ok ident) k before after = after ident
  as_service-IsSound app (err e) k before after = before

  admin_identity-IsSound : (w : World) → IsSound w.db → IsSound (admin_identity auth h w).1.db
  admin_identity-IsSound w before =
      let (_, kept) = admin_identity-admitted auth h w in
      elim (Bool-cases (is_some (admitted auth h w))) [
        | inl some_ ↦ let same = rw some_ at kept in rw same before
        | inr none_ ↦ let same = rw none_ at kept in rw same before
      ]

  serve_admin-IsSound :
      (route : AdminRoute) (app : App)
      → IsSound app.world.db
      → IsSound (serve_admin mono auth h route app).1.world.db
  unfolding serve_admin
  serve_admin-IsSound route app before =
      guarded-IsSound app (csrf_guard (admin_method route) h app.world).0 _ before (
        as_admin-IsSound app (admin_identity auth h app.world) _
          (admin_identity-IsSound app.world before)
          (λ email.
            admin_route-IsSound auth.env _ (admin_identity-IsSound app.world before) email
              (admin_reads route) route))

  serve_cp-IsSound :
      (route : CpRoute) (app : App)
      → IsSound app.world.db
      → IsSound (serve_cp mono auth h route app).1.world.db
  unfolding serve_cp
  serve_cp-IsSound route app before =
      as_service-IsSound _ (service_identity mono auth.env h app.world app.service_auth_limiter).0 _
        before
        (λ ident. cp_route-IsSound auth.env app.world before ident.tenant_id (cp_reads route) route)

  after_login-IsSound :
      (email ip : String) (app : App) (p : Result (Option (String × String)) × World)
      → IsSound p.1.db
      → IsSound (after_login mono email ip app p).1.world.db
  unfolding after_login count_login_failure
  after_login-IsSound email ip app (ok none, w) kept = kept
  after_login-IsSound email ip app (ok (some (raw, owner)), w) kept = kept
  after_login-IsSound email ip app (err e, w) kept = kept

  serve_login-IsSound :
      (email password code : String) (app : App)
      → IsSound app.world.db
      → IsSound (serve_login mono auth h email password code app).1.world.db
  unfolding serve_login Routers.login login_gate
  serve_login-IsSound email password code app before =
      guarded-IsSound app (csrf_guard "POST" h app.world).0 _ before
        (elim (Bool-cases (
          (login_gate mono (take_text 180 (normalize_email auth email)) (client_ip h) app).0
          == 0)) [
            | inl free ↦ rw free (
                after_login-IsSound _ _ _
                  (transaction (AdminAuth.login auth _ password code _ h.user_agent) app.world)
                  (Keeps-transaction _ (login-IsSound auth _ password code _ h.user_agent) app.world
                    before))
            | inr locked ↦ rw locked before
          ])

  after_activation-world :
      (ip : String) (app : App) (p : Result ActivationResult × World)
      → (after_activation mono ip app p).1.world ≡ p.1
  unfolding after_activation
  after_activation-world ip app (r, w) = ground arith

  after_activation-IsSound :
      (ip : String) (app : App) (p : Result ActivationResult × World)
      → IsSound p.1.db
      → IsSound (after_activation mono ip app p).1.world.db
  after_activation-IsSound ip app p kept = rw (after_activation-world ip app p) kept

  activate-IsSound :
      (body : ActivationBody) (app : App)
      → IsSound app.world.db
      → IsSound (Routers.activate mono auth.env (client_ip h) body app).1.world.db
  unfolding Routers.activate
  activate-IsSound body app before =
      elim (Bool-cases ((retry_after (client_ip h) (mono 0) app.activation_limiter).0 == 0)) [
        | inl free ↦ rw free (
            after_activation-IsSound _ _ (transaction (public_activate auth.env body) app.world) (
              Keeps-transaction (public_activate auth.env body)
                (public_activate-IsSound auth.env body) app.world before))
        | inr locked ↦ rw locked before
      ]

  delete_tenant-IsSound :
      (email : String) (k : ℕ) (password : Option String) (app : App)
      → IsSound app.world.db
      → IsSound (Routers.delete_tenant mono auth (client_ip h) email k password app).1.world.db
  unfolding Routers.delete_tenant login_gate count_login_failure
  delete_tenant-IsSound email k password app before =
      elim (Bool-cases ((login_gate mono email (client_ip h) app).0 == 0)) [
        | inl free ↦ rw free (elim (Bool-cases (confirms mono auth email password app.world)) [
          | inl own ↦ rw own (
              Keeps-transaction (admin_delete_tenant auth.env email k)
                (admin_delete_tenant-IsSound auth.env email k) app.world before)
          | inr other ↦ rw other before
        ])
        | inr locked ↦ rw locked before
      ]

  serve_deletion-IsSound :
      (k : ℕ) (password : Option String) (app : App)
      → IsSound app.world.db
      → IsSound (serve_deletion mono auth h k password app).1.world.db
  unfolding serve_deletion
  serve_deletion-IsSound k password app before =
      guarded-IsSound app (csrf_guard "DELETE" h app.world).0 _ before (
        as_admin-IsSound app (admin_identity auth h app.world) _
          (admin_identity-IsSound app.world before)
          (λ email.
            delete_tenant-IsSound email k password _ (admin_identity-IsSound app.world before)))

  serve-IsSound :
      (route : Route) (app : App)
      → IsSound app.world.db
      → IsSound (serve mono auth h route app).1.world.db
  unfolding serve serve_logout
  serve-IsSound Route.health app before = before
  serve-IsSound (Route.activate body) app before = activate-IsSound body app before
  serve-IsSound (Route.login email password code) app before =
      serve_login-IsSound email password code app before
  serve-IsSound Route.logout app before =
      guarded-IsSound app (csrf_guard "POST" h app.world).0 _ before
        (Keeps-transaction _ (logout-IsSound auth h.session_cookie) app.world before)
  serve-IsSound (Route.delete_tenant k password) app before =
      serve_deletion-IsSound k password app before
  serve-IsSound (Route.admin route) app before = serve_admin-IsSound route app before
  serve-IsSound (Route.cp route) app before = serve_cp-IsSound route app before

-- Requests one after another, each with the clocks, the randomness and the headers of its own.
pub data Serves : App → App → Type 0 where
  start : (app : App) → Serves app app
  then :
      {before app : App}
      → Serves before app
      → (mono : ℕ → ℕ) (auth : AuthEnv) (h : Headers) (route : Route)
      → Serves before (serve mono auth h route app).1

-- From a database in which every batch token has counted the live devices booked against it, within its
-- quota, and is of a subscription that is there, and every device that refers to a token stands under the
-- tenant of the token's subscription, every sequence of HTTP requests leads to such a database:
-- activations, logins, deletions of tenants, admin and service requests, those that are refused or fail
-- included. The rows' keys are unique and below the sequence's next value before and after.
pub Serves-IsSound :
    {before after : App} → Serves before after → IsSound before.world.db → IsSound after.world.db
Serves-IsSound (Serves.start app) h = h
Serves-IsSound (Serves.then earlier mono auth h route) k =
    serve-IsSound mono auth h route _ (Serves-IsSound earlier k)
