-- ===== src/Routers/Scopes.antt =====
-- For whom a route of `cp` in licensing-master/src/routers.py runs its use case.
use Prim.Native.String.{◌++◌ as ◌++ˢ◌}
use text.Mathlib.TextLemmas.{cons-append, nil-append}
use licensing_master.Base.{
  ℕ, ◌≡◌, refl, String, ◌==◌, nat_eq, string_eq, true, Option, none, some, fits,
}
use licensing_master.Base.Rows.{first}
use licensing_master.Tables.{Tenant, Product, ServiceToken}
use licensing_master.Exec.Succeeds.{Succeeds, Succeeds-weaken}
use licensing_master.Service.Lifecycle.{admin_mint_service_token, token_name}
use licensing_master.Limiter.{retry_after}
use licensing_master.AdminAuth.{AuthEnv}
use licensing_master.Identity.{Headers, client_ip, is_token, is_bearer, after_blank}
use licensing_master.Identity.Tokens.{
  service_identity-known, next_token, IsMinted, admin_mint_service_token-Minted,
}
use licensing_master.Routers.{App}
use licensing_master.Routers.Replies.{Reply}
use licensing_master.Routers.Routes.{CpRoute, cp_code, cp_reads, on_connection, run_cp}
use licensing_master.Routers.Serve.{with_world, answer_on, serve_cp}

module _ (mono : ℕ → ℕ) (auth : AuthEnv) (h : Headers) (route : CpRoute) where
  -- the route's use case for the tenant `k`, and the limiter as the check of the IP leaves it
  abbrev pub serve_for : Option ℕ → App → Reply × App
  serve_for k app =
      let counted : App = record app {
        service_auth_limiter = (retry_after (client_ip h) (mono 0) app.service_auth_limiter).1;
      } in
      answer_on mono auth h (cp_code route) counted
        (on_connection (cp_reads route) (run_cp auth.env k route) app.world)

  -- A request with the token of a row that is not revoked runs the use case for the row's tenant.
  pub serve_cp-scoped :
      (app : App) (header raw : String) (s : ServiceToken)
      → (retry_after (client_ip h) (mono 0) app.service_auth_limiter).0 ≡ 0
      → h.authorization ≡ some header
      → is_bearer mono auth.env (some header) ≡ true
      → after_blank header ≡ some raw
      → first (is_token auth.env (auth.env.strip raw)) app.world.service_tokens ≡ some s
      → serve_cp mono auth h route app ≡ serve_for s.tenant_id app
  unfolding serve_cp
  serve_cp-scoped app header raw s free shown bearer split found =
      rw
        (service_identity-known mono auth.env h app.world app.service_auth_limiter header raw s free
          shown bearer split found)
        refl

  after_bearer : (raw : String) → after_blank ("Bearer " ++ˢ raw) ≡ some raw
  unfolding after_blank
  after_bearer raw =
      rw
        (
          cons-append, cons-append, cons-append, cons-append, cons-append, cons-append, cons-append,
          nil-append,
        )
        refl

  -- A service token is minted for a tenant that is there, with a hash that no token has yet and a name
  -- of at most 120 characters. A request
  -- that bears it then runs its use case for that tenant, on the database that the mint has left.
  -- The IP is not locked out, and the token is text that `strip` and `lower` treat as they do ASCII.
  pub minted_token-scoped :
      (actor : String) (k : ℕ) (name : String) (app : App) {t : Tenant} {p : Product}
      → first (λ (t : Tenant). t.tenant_id == k) app.world.tenants ≡ some t
      → first (λ (p : Product). p.product_id == t.product_id) app.world.products ≡ some p
      → first
          (λ (s : ServiceToken). s.token_hash == auth.env.sha256 (next_token auth.env app.world))
          app.world.service_tokens
        ≡ none
      → fits 120 (token_name auth.env name) ≡ true
      → fits 80 (auth.env.show k) ≡ true
      → (retry_after (client_ip h) (mono 0) app.service_auth_limiter).0 ≡ 0
      → h.authorization ≡ some ("Bearer " ++ˢ next_token auth.env app.world)
      → is_bearer mono auth.env (some ("Bearer " ++ˢ next_token auth.env app.world)) ≡ true
      → auth.env.strip (next_token auth.env app.world) ≡ next_token auth.env app.world
      → Succeeds
          (λ raw v.
            (raw ≡ next_token auth.env app.world)
            × (serve_cp mono auth h route (with_world app v)
                ≡ serve_for (some k) (with_world app v)))
          (admin_mint_service_token auth.env actor k name app.world)
  minted_token-scoped actor k name app {t} {p} found owner fresh narrow short free shown bearer
        plain =
      Succeeds-weaken (λ raw v. (raw ≡ next_token auth.env app.world) × IsMinted auth.env k raw v) _
        _
        (admin_mint_service_token-Minted auth.env actor k name app.world {t = t} {p = p} found owner
          fresh narrow short)
        (λ raw v (same, (s, row, own)). (
          same,
          let row' : first (is_token auth.env (auth.env.strip (next_token auth.env app.world)))
                    v.service_tokens
                  ≡ some s =
                rw plain (rw same at row) in
              rw
                (
                  serve_cp-scoped (with_world app v) _ _ s free shown bearer
                      (after_bearer (next_token auth.env app.world)) row',
                  own,
                )
                refl,
        ))
