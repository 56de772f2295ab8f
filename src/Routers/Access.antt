-- ===== src/Routers/Access.antt =====
-- What the guards of the `admin` routes of licensing-master/src/routers.py let through.
use licensing_master.Base.{
  ℕ, ◌≡◌, refl, ◌⊎◌, inl, inr, String, nat_eq, string_eq, Bool, true, false, ◌||◌, Option, none,
  arith, Bool-cases,
}
use licensing_master.Exec.{World, Result, ok, err, unauthorized, forbidden}
use licensing_master.AdminAuth.{AuthEnv}
use licensing_master.Identity.{Headers, is_safe, is_portal, admin_identity, csrf_guard}
use licensing_master.Identity.Admins.{admitted, admin_identity-admitted}
use licensing_master.Routers.{App}
use licensing_master.Routers.Replies.{Reply, status_code, failed}
use licensing_master.Routers.Routes.{AdminRoute, admin_method}
use licensing_master.Routers.Serve.{guarded, as_admin, serve_admin, serve_deletion}

module _ (mono : ℕ → ℕ) (auth : AuthEnv) (h : Headers) where
  -- the guard against cross-site requests lets the method through
  abbrev pub passes : String → Bool
  passes method = is_safe method || is_portal h

  csrf_guard-passes :
      (method : String) (w : World) → passes method ≡ true → (csrf_guard method h w).0 ≡ ok tt
  unfolding csrf_guard
  csrf_guard-passes method w pass = ground arith

  csrf_guard-blocks :
      (method : String) (w : World)
      → passes method ≡ false
      → (csrf_guard method h w).0 ≡ err forbidden
  unfolding csrf_guard
  csrf_guard-blocks method w block = ground arith

  -- a refusal with 401 or 403 that leaves the app's database alone
  abbrev pub IsRefusal : App → Reply × App → Type 0
  IsRefusal app p = ((p.0.status ≡ 401) ⊎ (p.0.status ≡ 403)) × (p.1.world.db ≡ app.world.db)

  guarded-stranger :
      (method : String) (app : App) (k : String → App → Reply × App)
      → admitted auth h app.world ≡ none
      → IsRefusal app (
          guarded mono auth h app
            (csrf_guard method h app.world).0
            λ app. as_admin mono auth h app (admin_identity auth h app.world) k)
  unfolding failed status_code
  guarded-stranger method app k nobody = elim (Bool-cases (passes method)) [
    | inl pass ↦
        let (who, kept) = admin_identity-admitted auth h app.world in
        rw (csrf_guard-passes method app.world pass, guarded)
          (refused (admin_identity auth h app.world) (rw nobody at who) (rw nobody at kept))
    | inr block ↦ rw (csrf_guard-blocks method app.world block, guarded) (inr refl, refl)
  ]
    where
      refused :
          (p : Result String × World)
          → p.0 ≡ err unauthorized
          → p.1.db ≡ app.world.db
          → IsRefusal app (as_admin mono auth h app p k)
      refused (ok email, v) e kept = absurd (cc)
      refused (err x, v) e kept = (inl (ground arith), kept)

  -- Without a good session of an active admin every route of `admin` and the deletion of a tenant are
  -- refused, and the database is as it was.
  pub serve_admin-stranger :
      (route : AdminRoute) (k : ℕ) (password : Option String) (app : App)
      → admitted auth h app.world ≡ none
      → IsRefusal app (serve_admin mono auth h route app)
        × IsRefusal app (serve_deletion mono auth h k password app)
  unfolding serve_admin serve_deletion
  serve_admin-stranger route k password app nobody =
      (guarded-stranger (admin_method route) app _ nobody, guarded-stranger "DELETE" app _ nobody)
