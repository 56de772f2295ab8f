-- ===== src/Config.antt =====
-- The settings of licensing-master/src/config.py, what they are checked for at the start, and what the
-- rest of the program takes from them. Reading them from the environment is pydantic's; base64 and the
-- keys of `cryptography` are fields of `KeyLibrary`. Integers are natural numbers: a limit below zero is
-- refused as zero is, and the three LM_DEFAULT figures, which the code does not bound, are taken to be
-- zero or above.
pub mod Startup
use licensing_master.Base.{
  ℕ, String, ◌==◌, nat_eq, string_eq, Bool, true, false, not, ◌&&◌, ◌||◌, Option, none, some,
  is_some, List, [], ltb, leb, if◌then◌else◌,
}
use licensing_master.Exec.{Env, World}
use licensing_master.Limiter.{Limiter}
use licensing_master.Routers.{App}

pub record KeyLibrary (Key : Type 0) : Type 0 where
  pub b64decode : String → Option (List ℕ)
  pub from_private_bytes : List ℕ → Option Key
  pub sign : Key → String → String

-- the thresholds of one limiter
pub record Thresholds : Type 0 where
  pub max_failures : ℕ
  pub window_seconds : ℕ
  pub lockout_seconds : ℕ

pub record Settings : Type 0 where
  pub app_env : String
  pub ed25519_private_key_b64 : String
  pub admin_session_idle_seconds : ℕ
  pub admin_session_absolute_seconds : ℕ
  pub default_window_days : ℕ
  pub default_grace_days : ℕ
  pub default_seat_limit : ℕ
  pub activate : Thresholds
  pub cp_auth : Thresholds
  pub admin_login_email : Thresholds
  pub admin_login_ip : Thresholds

-- `ge=1` on the three figures
abbrev pub are_positive : Thresholds → Bool
are_positive t = leb 1 t.max_failures && leb 1 t.window_seconds && leb 1 t.lockout_seconds

-- the bounds of the fields
unfoldable pub in_bounds : Settings → Bool
in_bounds s =
    leb 60 s.admin_session_idle_seconds
    && leb 60 s.admin_session_absolute_seconds
    && are_positive s.activate
    && are_positive s.cp_auth
    && are_positive s.admin_login_email
    && are_positive s.admin_login_ip

-- `FailureLimiter(…)`; it raises on a figure below 1
unfoldable pub new_limiter : Thresholds → Option Limiter
new_limiter t =
    if ltb t.max_failures 1 || ltb t.window_seconds 1 || ltb t.lockout_seconds 1
    then none
    else some (record {
      max_failures = t.max_failures;
      window_seconds = t.window_seconds;
      lockout_seconds = t.lockout_seconds;
      max_keys = 10_000;
      failures = [];
      locked_until = [];
    })

infixl 5 ◌>>=◌
abbrev pub ◌>>=◌ {ℓ κ} : {A : Type ℓ} {B : Type κ} → Option A → (A → Option B) → Option B
none >>= f = none
some a >>= f = f a

-- the four limiters of ratelimit.py, as the module is loaded
unfoldable pub load_limiters : Settings → World → Option App
load_limiters s w = do
  activation ← new_limiter s.activate
  service ← new_limiter s.cp_auth
  by_email ← new_limiter s.admin_login_email
  by_ip ← new_limiter s.admin_login_ip
  some (record {
    activation_limiter = activation;
    service_auth_limiter = service;
    login_email_limiter = by_email;
    login_ip_limiter = by_ip;
    world = w;
  })

module _ {Key : Type 0} (keys : KeyLibrary Key) (env : Env) where
  -- `parse_ed25519_private_key`
  unfoldable pub parse_ed25519_private_key : String → Option Key
  parse_ed25519_private_key key_b64 = do
    raw ← keys.b64decode (env.strip key_b64)
    keys.from_private_bytes raw

  -- `is_dev`
  unfoldable pub is_dev : Settings → Bool
  is_dev s =
      let name = env.lower (env.strip s.app_env) in
      name == "development"
      || name == "dev"
      || name == "local"
      || name == "test"
      || name == "testing"
      || name == "ci"

  -- `_signing_key_required_outside_dev` does not raise
  unfoldable pub signing_key_required_outside_dev : Settings → Bool
  signing_key_required_outside_dev s =
      if env.strip s.ed25519_private_key_b64 == ""
      then is_dev s
      else is_some (parse_ed25519_private_key s.ed25519_private_key_b64)

  -- `Settings()` does not raise
  unfoldable pub is_accepted : Settings → Bool
  is_accepted s = in_bounds s && signing_key_required_outside_dev s

  -- the signature by the key of the settings, as `sign_payload` asks for it
  unfoldable pub sign_with : String → String → Option String
  sign_with key_b64 text = do key ← parse_ed25519_private_key key_b64; some (keys.sign key text)

  -- the environment of the use cases under the settings
  abbrev pub env_of : Settings → Env
  env_of s = record env {
    ed25519 = sign_with;
    signing_key = s.ed25519_private_key_b64;
    is_dev = is_dev s;
    default_window_days = s.default_window_days;
    default_grace_days = s.default_grace_days;
    default_seat_limit = s.default_seat_limit;
  }
