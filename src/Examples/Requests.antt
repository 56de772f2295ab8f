-- ===== src/Examples/Requests.antt =====
-- Requests to the gated routes.
use licensing_master.Base.{ℕ, ◌+◌, ◌*◌, ◌≤◌, ◌≡◌, refl, some, [], ◌∷◌, arith}
use licensing_master.Exec.{Error, err, too_many_attempts}
use licensing_master.Service.Activation.{ActivationBody}
use licensing_master.Limiter.{Limiter, us_per_second}
use licensing_master.AdminAuth.{normalize_email}
use licensing_master.Routers.{App, activate, delete_tenant}
use licensing_master.Routers.Gates.{IsForeign, activate-gated, delete_tenant-guarded}
use licensing_master.Examples.{live_env, body_of}
use licensing_master.Examples.Logins.{auth, office}

abbrev pub limiter : Limiter
limiter = record {
  max_failures = 3;
  window_seconds = 60;
  lockout_seconds = 300;
  max_keys = 10;
  failures = [];
  locked_until = ("10.0.0.3", 9_500_000) ∷ [];
}

abbrev pub app : App
app = record {
  activation_limiter = limiter;
  service_auth_limiter = limiter;
  login_email_limiter = limiter;
  login_ip_limiter = limiter;
  world = office;
}

abbrev pub mono : ℕ → ℕ
mono n = 3_000_000 + n

abbrev bad_body : ActivationBody
bad_body = record (body_of "NEW") { token = some "BATCH-GUESS" }

activate-gated_example :
    (wait : ℕ) × ((activate mono live_env "10.0.0.3" (body_of "NEW") app).0
      ≡ err (too_many_attempts wait))
    × (9_500_000 ≤ mono 0 + wait * us_per_second)
    × ((activate mono live_env "10.0.0.3" (body_of "NEW") app).1.world ≡ app.world)
    × ((activate mono live_env "10.0.0.3" (body_of "NEW") app).1.activation_limiter ≡ limiter)
activate-gated_example =
    activate-gated mono live_env "10.0.0.3" (body_of "NEW") app 9_500_000 refl (omega arith)

guess-IsForeign : IsForeign mono auth "a@b.c" (some "guess") office
unfolding normalize_email
guess-IsForeign = (refl, tt)

delete_tenant-guarded_example :
    ((e : Error) × ((delete_tenant mono auth "10.0.0.9" "a@b.c" 2 (some "guess") app).0 ≡ err e))
    × ((delete_tenant mono auth "10.0.0.9" "a@b.c" 2 (some "guess") app).1.world ≡ office)
delete_tenant-guarded_example =
    delete_tenant-guarded mono auth "10.0.0.9" "a@b.c" 2 (some "guess") app guess-IsForeign
