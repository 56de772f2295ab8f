-- ===== src/Routers.antt =====
-- The routes of licensing-master/src/routers.py that gate a use case by a failure limiter. `mono n` is
-- what the monotonic clock answers at the n-th call of a limiter within the request.
pub mod Replies
pub mod Routes
pub mod Serve
pub mod Gates
pub mod Soundness
pub mod Access
pub mod Scopes
use licensing_master.Base.{
  ℕ, String, ◌==◌, nat_eq, string_eq, Bool, true, false, Option, none, some, max, take_text,
  if◌then◌else◌,
}
use licensing_master.Exec.{
  Env, World, Result, ok, err, Error, too_many_attempts, activation_token_invalid, unauthorized,
  forbidden, transaction, Exec, pure, ◌>>=◌,
}
use licensing_master.Service.Rows.{audit}
use licensing_master.Service.Activation.{ActivationBody, ActivationResult, public_activate}
use licensing_master.Service.Lifecycle.{admin_delete_tenant}
use licensing_master.Limiter.{Limiter, retry_after, record_failure, clear}
use licensing_master.AdminAuth.{AuthEnv, normalize_email, verify_admin_password}
use licensing_master.AdminAuth as AdminAuth

-- The process: its limiters and the database it works on.
pub record App : Type 0 where
  pub activation_limiter : Limiter
  pub service_auth_limiter : Limiter
  pub login_email_limiter : Limiter
  pub login_ip_limiter : Limiter
  pub world : World

module _ (mono : ℕ → ℕ) where
  -- `activate`, by what the transaction came to
  unfoldable pub after_activation :
      String → App → Result ActivationResult × World → Result ActivationResult × App
  after_activation ip app (err activation_token_invalid, w) = (
    err activation_token_invalid,
    record app {
      activation_limiter = record_failure ip (mono 1) app.activation_limiter;
      world = w;
    },
  )
  after_activation ip app (r, w) = (r, record app { world = w })

  -- `activate` behind `_activation_gate`
  unfoldable pub activate : Env → String → ActivationBody → App → Result ActivationResult × App
  activate env ip body app =
      let (wait, limiter) = retry_after ip (mono 0) app.activation_limiter in
      let gated : App = record app { activation_limiter = limiter } in
      if wait == 0
      then after_activation ip gated (transaction (public_activate env body) app.world)
      else (err (too_many_attempts wait), gated)

  -- `_login_gate`
  unfoldable pub login_gate : String → String → App → ℕ × App
  login_gate email ip app =
      let (email_wait, by_email) = retry_after email (mono 0) app.login_email_limiter in
      let (ip_wait, by_ip) = retry_after ip (mono 1) app.login_ip_limiter in
      (
        max email_wait ip_wait,
        record app { login_email_limiter = by_email; login_ip_limiter = by_ip },
      )

  -- a failure counted for the e-mail and for the IP
  unfoldable pub count_login_failure : String → String → App → App
  count_login_failure email ip app = record app {
    login_email_limiter = record_failure email (mono 2) app.login_email_limiter;
    login_ip_limiter = record_failure ip (mono 3) app.login_ip_limiter;
  }

  -- `login`, by what the transaction came to; a refusal is returned, so that it is committed
  unfoldable pub after_login :
      String
      → String
      → App
      → Result (Option (String × String)) × World
      → Result (String × String) × App
  after_login email ip app (ok none, w) =
      (err unauthorized, count_login_failure email ip (record app { world = w }))
  after_login email ip app (ok (some (raw, owner)), w) = (
    ok (raw, owner),
    record app { login_email_limiter = clear owner app.login_email_limiter; world = w },
  )
  after_login email ip app (err e, w) = (err e, record app { world = w })

  -- `login`
  unfoldable pub login :
      AuthEnv
      → String
      → Option String
      → String
      → String
      → String
      → App
      → Result (String × String) × App
  login auth ip user_agent typed_email password code app =
      let email = take_text 180 (normalize_email auth typed_email) in
      let (wait, gated) = login_gate email ip app in
      if wait == 0
      then after_login email ip gated
          (transaction (AdminAuth.login auth email password code (some ip) user_agent) app.world)
      else (err (too_many_attempts wait), gated)

  -- whether the body holds the admin's own password
  unfoldable pub confirms : AuthEnv → String → Option String → World → Bool
  confirms auth email none w = false
  confirms auth email (some password) w = elim (verify_admin_password auth email password w).0 [
    | ok b ↦ b
    | err _ ↦ false
  ]

  abbrev pub carry {ℓ} : {A : Type ℓ} → App → Result A × World → Result A × App
  carry app (r, w) = (r, record app { world = w })

  -- `delete_tenant`, for the admin who is logged in
  unfoldable pub delete_tenant :
      AuthEnv → String → String → ℕ → Option String → App → Result ℕ × App
  delete_tenant auth ip email tenant_id password app =
      let (wait, gated) = login_gate email ip app in
      if wait == 0
      then (if confirms auth email password app.world
          then carry gated (transaction (admin_delete_tenant auth.env email tenant_id) app.world)
          else (err forbidden, count_login_failure email ip gated))
      else (err (too_many_attempts wait), gated)
