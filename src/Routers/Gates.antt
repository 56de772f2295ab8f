-- ===== src/Routers/Gates.antt =====
-- What the gates of licensing-master/src/routers.py keep out.
use licensing_master.Base.{
  ℕ, ◌+◌, ◌*◌, ◌≤◌, ◌<◌, ◌≡◌, refl, String, ◌==◌, nat_eq, false, Option, some, arith, Bool-cases,
  inl, inr, true, none, ◌⊎◌, ◌&&◌, string_eq, Bool,
}
use licensing_master.Exec.{Env, World, err, Error, too_many_attempts, forbidden, Exec}
use licensing_master.Service.Activation.{ActivationBody}
use licensing_master.AdminAuth.{AuthEnv, normalize_email, verify_password, verify_admin_password}
use licensing_master.Limiter.{lookup, retry_after, us_per_second}
use licensing_master.Limiter.Lockouts.{retry_after-locked}
use licensing_master.Tables.{BatchToken, AdminUser}
use licensing_master.Routers.{
  App, activate, login_gate, count_login_failure, confirms, delete_tenant,
}
use licensing_master.Base.Rows.{first, All, All-first, first-sat}

module _ (mono : ℕ → ℕ) where
  -- An IP that is locked out is told to wait until the lockout has ended, and no activation is tried for
  -- it: the database and the limiter are as they were.
  pub activate-gated :
      (env : Env) (ip : String) (body : ActivationBody) (app : App) (until : ℕ)
      → lookup ip app.activation_limiter.locked_until ≡ some until
      → mono 0 < until
      → (wait : ℕ) × ((activate mono env ip body app).0 ≡ err (too_many_attempts wait))
        × (until ≤ mono 0 + wait * us_per_second)
        × ((activate mono env ip body app).1.world ≡ app.world)
        × ((activate mono env ip body app).1.activation_limiter ≡ app.activation_limiter)
  unfolding activate
  activate-gated env ip body app until locked early =
      let (same, enough, _) =
        retry_after-locked app.activation_limiter ip until (mono 0) locked early in
      let no_way : ((retry_after ip (mono 0) app.activation_limiter).0 == 0) ≡ false =
        waits _ enough in
      (
        (retry_after ip (mono 0) app.activation_limiter).0,
        rw no_way refl,
        enough,
        rw no_way refl,
        rw no_way same,
      )
    where
      contradiction : (wait : ℕ) → wait ≡ 0 → until ≤ mono 0 + wait * us_per_second → ⊥
      contradiction wait z enough =
          let e : until ≤ mono 0 + 0 * us_per_second = rw z at enough in omega arith

      waits : (wait : ℕ) → until ≤ mono 0 + wait * us_per_second → (wait == 0) ≡ false
      waits wait enough = elim (Bool-cases (wait == 0)) [
        | inl none_ ↦ absurd (let z : wait ≡ 0 = ground arith in contradiction wait z enough)
        | inr some_ ↦ some_
      ]

  -- no token, or one that is revoked or whose end has come
  abbrev pub IsBad : ℕ → Option BatchToken → Type 0
  IsBad at none = Unit
  IsBad at (some t) = (t.is_revoked ≡ true) ⊎ ((end : ℕ) × (t.expires_at ≡ some end) × (end ≤ at))

  -- no password, or one that no active account of the e-mail has
  abbrev pub IsForeign : AuthEnv → String → Option String → World → Type 0
  IsForeign auth email none w = Unit
  IsForeign auth email (some password) w =
      All
        (λ (u : AdminUser).
          (u.email == normalize_email auth email
            && u.is_active
            && auth.argon2_verify u.password_hash password)
          ≡ false)
        w.admin_users

  confirms-IsForeign :
      (auth : AuthEnv) (email : String) (password : Option String) (w : World)
      → IsForeign auth email password w
      → confirms mono auth email password w ≡ false
  unfolding confirms verify_admin_password verify_password
  confirms-IsForeign auth email none w foreign = refl
  confirms-IsForeign auth email (some password) w foreign =
      by_account (first active_of w.admin_users) refl
    where
      active_of : AdminUser → Bool
      active_of u = u.email == normalize_email auth email && u.is_active

      by_account :
          (o : Option AdminUser)
          → first active_of w.admin_users ≡ o
          → elim o [ none ↦ false | some u ↦ verify_password auth u.password_hash password ] ≡ false
      by_account none e = refl
      by_account (some u) e =
          unfold verify_password in
          (let on : active_of u ≡ true = first-sat active_of w.admin_users e in
            let off = All-first _ active_of w.admin_users foreign e in ground arith)

  -- Without a password that is the admin's own, an active account's of the e-mail, no tenant is deleted:
  -- the request is refused, locked out or not, and the database is as it was.
  pub delete_tenant-guarded :
      (auth : AuthEnv) (ip email : String) (tenant_id : ℕ) (password : Option String) (app : App)
      → IsForeign auth email password app.world
      → ((e : Error) × ((delete_tenant mono auth ip email tenant_id password app).0 ≡ err e))
        × ((delete_tenant mono auth ip email tenant_id password app).1.world ≡ app.world)
  unfolding delete_tenant login_gate count_login_failure
  delete_tenant-guarded auth ip email tenant_id password app foreign =
      let wrong = confirms-IsForeign auth email password app.world foreign in
      elim (Bool-cases ((login_gate mono email ip app).0 == 0)) [
        | inl free ↦ rw (free, wrong) ((forbidden, refl), refl)
        | inr locked ↦ rw locked ((too_many_attempts _, refl), refl)
      ]
