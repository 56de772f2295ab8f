-- ===== src/Identity.antt =====
-- Who calls, in licensing-master/src/auth.py: an admin by the session cookie, a product's back end by its
-- service token, and the guard against cross-site requests. `client_ip` is in ratelimit.py.
pub mod Admins
pub mod Tokens
use text.Mathlib.Text.{starts_with}
use Prim.Native.Char.{code}
use licensing_master.Base.{
  ℕ, String, ◌==◌, nat_eq, string_eq, Bool, true, false, not, ◌&&◌, ◌||◌, Option, none, some,
  if◌then◌else◌,
}
use licensing_master.Base.Rows.{first}
use licensing_master.Tables.{ServiceToken}
use licensing_master.Exec.{
  Exec, Env, World, Result, ok, err, Error, unauthorized, forbidden, index_error, too_many_attempts,
  or_raise, raise, raise_if, pure, ◌>>=◌,
}
use licensing_master.Limiter.{Limiter, retry_after, record_failure}
use licensing_master.AdminAuth.{AuthEnv, resolve_session}

-- What a request carries besides its body.
pub record Headers : Type 0 where
  pub client_host : Option String
  pub session_cookie : Option String
  pub requested_with : Option String
  pub authorization : Option String
  pub user_agent : Option String

-- `client_ip`
abbrev pub client_ip : Headers → String
client_ip h = elim h.client_host [ none ↦ "unknown" | some host ↦ host ]

-- `if raw`
abbrev pub resolve_cookie : AuthEnv → Option String → Exec (Option String)
resolve_cookie auth none = pure none
resolve_cookie auth (some raw) = if raw == "" then pure none else resolve_session auth raw

-- `admin_identity`, without its commit
unfoldable pub admin_identity : AuthEnv → Headers → Exec String
admin_identity auth h = do email ← resolve_cookie auth h.session_cookie; or_raise email unauthorized

-- `_SAFE_METHODS`
abbrev pub is_safe : String → Bool
is_safe method = method == "GET" || method == "HEAD" || method == "OPTIONS"

-- the header that only the portal's own fetch wrapper sends
abbrev pub is_portal : Headers → Bool
is_portal h = elim h.requested_with [ none ↦ false | some v ↦ v == "lm-portal" ]

-- `csrf_guard`
unfoldable pub csrf_guard : String → Headers → Exec (Unit {0})
csrf_guard method h = raise_if (not (is_safe method) && not (is_portal h)) forbidden

pub record ServiceIdentity : Type 0 where
  pub service_token_id : ℕ
  pub product_id : ℕ
  pub tenant_id : Option ℕ

-- `s.split(" ", 1)[1]`, where there is a blank
unfoldable pub after_blank : String → Option String
after_blank String.[] = none
after_blank (String.◌∷◌ c s) = let rest = after_blank s in if code c == 32 then some s else rest

-- a token by its hash that is not revoked
abbrev pub is_token : Env → String → ServiceToken → Bool
is_token env raw s = s.token_hash == env.sha256 raw && not s.is_revoked

abbrev pub identify : ServiceToken → ServiceIdentity
identify s = record {
  service_token_id = s.service_token_id;
  product_id = s.product_id;
  tenant_id = s.tenant_id;
}

module _ (mono : ℕ → ℕ) (env : Env) where
  -- `not authorization or not authorization.lower().startswith("bearer ")`
  unfoldable pub is_bearer : Option String → Bool
  is_bearer none = false
  is_bearer (some a) = not (a == "") && starts_with (env.lower a) "bearer "

  -- the row of the token of an `Authorization` header
  unfoldable pub token_row : Option String → World → Result (Option ServiceToken)
  token_row none w = err index_error
  token_row (some raw) w = ok (first (is_token env (env.strip raw)) w.service_tokens)

  -- `service_identity`, by the row that it found
  unfoldable pub identity_of_row :
      String → Result (Option ServiceToken) → Limiter → Result ServiceIdentity × Limiter
  identity_of_row ip (err e) l = (err e, l)
  identity_of_row ip (ok none) l = (err forbidden, record_failure ip (mono 1) l)
  identity_of_row ip (ok (some s)) l = (ok (identify s), l)

  -- the text behind the first blank of the header
  abbrev pub header_token : Option String → Option String
  header_token none = none
  header_token (some a) = after_blank a

  -- `service_identity`; `mono n` is what the monotonic clock answers at the limiter's n-th call
  unfoldable pub service_identity : Headers → World → Limiter → Result ServiceIdentity × Limiter
  service_identity h w l =
      let (wait, gated) = retry_after (client_ip h) (mono 0) l in
      if wait == 0
      then (if is_bearer h.authorization
          then identity_of_row (client_ip h) (token_row (header_token h.authorization) w) gated
          else (err unauthorized, record_failure (client_ip h) (mono 1) gated))
      else (err (too_many_attempts wait), gated)
