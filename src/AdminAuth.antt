-- ===== src/AdminAuth.antt =====
-- The admins' passwords, one-time codes and sessions in licensing-master/src/admin_auth.py. Hashing,
-- the codes of a secret and Python's `isdigit` are fields of `AuthEnv`.
pub mod Accounts
pub mod Codes
pub mod Logins
pub mod Sessions
use Prim.Native.Char.{Char, code}
use licensing_master.Base.{
  ℕ, suc, ◌+◌, ◌-◌, ◌*◌, ◌/◌, String, ◌==◌, nat_eq, string_eq, Bool, true, false, not, ◌&&◌, ◌||◌,
  Option, none, some, is_some, List, [], ◌∷◌, ◌++◌, ltb, leb, take_text, text_length, if◌then◌else◌,
}
use licensing_master.Base.Rows.{first, count, update, delete}
use licensing_master.Tables.{AdminUser, AdminSession, Value, Payload}
use licensing_master.Exec.{
  Exec, Env, World, ok, pure, gets, raise_if, modify, next_serial, now, random_token,
  integrity_error, ◌>>=◌, ◌>>◌, type_error,
}
use licensing_master.Service.Rows.{audit}
use licensing_master.Service.Activation.{or_none, us_per_day}
use licensing_master.Limiter.{us_per_second}

pub record AuthEnv : Type 0 where
  pub env : Env
  pub open env use {token_urlsafe, sha256, lower, strip}
  pub argon2_verify : String → String → Bool
  pub dummy_hash : String
  pub random_base32 : ℕ → String
  pub totp_at : String → ℕ → String
  pub is_digits : String → Bool
  pub idle_seconds : ℕ
  pub absolute_seconds : ℕ

-- `s.replace(" ", "")`
unfoldable pub drop_blanks : String → String
drop_blanks String.[] = String.[]
drop_blanks (String.◌∷◌ c s) =
    let rest = drop_blanks s in if code c == 32 then rest else String.◌∷◌ c rest

-- `hmac.compare_digest` takes texts of ASCII only
unfoldable pub is_ascii : String → Bool
is_ascii String.[] = true
is_ascii (String.◌∷◌ c s) = ltb (code c) 128 && is_ascii s

-- a session joined with its user
pub record SessionRow : Type 0 where
  pub session : AdminSession
  pub user : AdminUser

-- the session's row joined with its user's
abbrev pub with_user : List AdminUser → Option AdminSession → Option SessionRow
with_user users none = none
with_user users (some s) = elim (first (λ u. u.admin_user_id == s.admin_user_id) users) [
  | none ↦ none
  | some u ↦ some (record { session = s; user = u })
]

-- `SELECT … FROM admin_sessions JOIN admin_users … WHERE …`
unfoldable pub find_session : (AdminSession → Bool) → Exec (Option SessionRow)
find_session p = gets (λ w. with_user w.admin_users (first p w.admin_sessions))

module _ (auth : AuthEnv) where
  -- `normalize_email`
  unfoldable pub normalize_email : String → String
  normalize_email email = auth.lower (auth.strip email)

  -- `verify_password`
  unfoldable pub verify_password : String → String → Bool
  verify_password hash password =
      if ltb 1_024 (text_length password) then false else auth.argon2_verify hash password

  -- the steps around the time: the one before, the current one and the one after
  abbrev pub near_steps : ℕ → List ℕ
  near_steps current = (current - 1) ∷ current ∷ (current + 1) ∷ []

  -- `match_totp_step`: all three steps are compared in the code, and the first match is kept;
  -- the comparison raises for digits that are no ASCII
  unfoldable pub match_totp_step : String → String → Exec (Option ℕ)
  match_totp_step secret typed = do
    let digits = drop_blanks (auth.strip typed)
    if not (text_length digits == 6) || not (auth.is_digits digits) then pure none else (do
      at ← now auth.env
      raise_if (not (is_ascii digits)) type_error
      pure (
          first (λ step. auth.totp_at secret step == digits)
            (near_steps (at / (30 * us_per_second)))))

  -- `token_hash`
  unfoldable pub token_hash : String → String
  token_hash raw = auth.sha256 raw

  -- `(s or "")[:n] or None`
  abbrev cut : ℕ → Option String → Option String
  cut n none = none
  cut n (some s) = or_none (some (take_text n s))

  -- the `INSERT` of `create_session`; `token_hash` is UNIQUE
  unfoldable pub insert_session : ℕ → String → ℕ → Option String → Option String → Exec (Unit {0})
  insert_session user_id raw at ip user_agent = do
    id ← next_serial
    clash ← gets (λ w. first (λ s. s.token_hash == token_hash raw) w.admin_sessions)
    raise_if (is_some clash) integrity_error
    modify λ db. record db {
      admin_sessions =
          db.admin_sessions
          ++ record {
            admin_session_id = id;
            admin_user_id = user_id;
            token_hash = token_hash raw;
            created_at = at;
            last_seen_at = at;
            expires_at = at + auth.absolute_seconds * us_per_second;
            revoked_at = none;
            ip = cut 64 ip;
            user_agent = cut 300 user_agent;
          }
            ∷ [];
    }

  -- `create_session`
  unfoldable pub create_session : ℕ → Option String → Option String → Exec String
  create_session user_id ip user_agent = do
    raw ← random_token auth.env
    at ← now auth.env
    modify λ db. record db {
      admin_sessions = delete (λ s. ltb (s.expires_at + us_per_day) at) db.admin_sessions;
    }
    insert_session user_id raw at ip user_agent
    pure raw

  -- a session that a cookie may still stand for
  abbrev pub is_open : ℕ → SessionRow → Bool
  is_open at r =
      not (leb r.session.expires_at at)
      && leb at (r.session.last_seen_at + auth.idle_seconds * us_per_second)

  unfoldable pub slide : ℕ → SessionRow → Exec (Option String)
  slide at r =
      if is_open at r
      then (do
        modify λ db. record db {
          admin_sessions =
              update (λ s. s.admin_session_id == r.session.admin_session_id)
                (λ s. record s { last_seen_at = at }) db.admin_sessions;
        }
        pure (some r.user.email))
      else pure none

  -- `resolve_session`, by the row that it found
  unfoldable pub resolve_row : Option SessionRow → Exec (Option String)
  resolve_row none = pure none
  resolve_row (some r) =
      if is_some r.session.revoked_at || not r.user.is_active
      then pure none
      else (do at ← now auth.env; slide at r)

  -- `resolve_session`
  unfoldable pub resolve_session : String → Exec (Option String)
  resolve_session raw = do row ← find_session (λ s. s.token_hash == token_hash raw); resolve_row row

  -- `revoke_session`, by the row that it found
  unfoldable pub revoke_row : Option SessionRow → Exec (Option String)
  revoke_row none = pure none
  revoke_row (some r) = do
    at ← now auth.env
    modify λ db. record db {
      admin_sessions =
          update (λ s. s.admin_session_id == r.session.admin_session_id)
            (λ s. record s { revoked_at = some at }) db.admin_sessions;
    }
    pure (some r.user.email)

  -- `revoke_session`
  unfoldable pub revoke_session : String → Exec (Option String)
  revoke_session raw = do
    row ← find_session (λ s. s.token_hash == token_hash raw && not (is_some s.revoked_at))
    revoke_row row

  abbrev pub hash_of : Option AdminUser → String
  hash_of none = auth.dummy_hash
  hash_of (some u) = u.password_hash

  -- the user's secret, or a random one for nobody's
  unfoldable pub secret_of : Option AdminUser → Exec String
  secret_of none w = (ok (auth.random_base32 w.asked), record w { asked = suc w.asked })
  secret_of (some u) w = pure u.totp_secret w

  -- `admin_user_id = id AND (totp_last_step IS NULL OR totp_last_step < step)`
  abbrev pub is_unused : ℕ → ℕ → AdminUser → Bool
  is_unused id step u =
      u.admin_user_id == id && elim u.totp_last_step [ none ↦ true | some last ↦ ltb last step ]

  -- the end of a login that fails
  unfoldable pub login_failed : String → Option String → Exec (Option (String × String))
  login_failed email ip = do
    audit auth.env email "admin.login_failed" "admin_user" email
        (some (("ip", elim ip [ none ↦ Value.null | some s ↦ Value.text s ]) ∷ []))
    pure none

  -- the `UPDATE` that uses up the step, and its rowcount
  unfoldable pub use_step : ℕ → ℕ → Exec ℕ
  use_step id step = do
    at ← now auth.env
    used ← gets (λ w. count (is_unused id step) w.admin_users)
    modify λ db. record db {
      admin_users =
          update (is_unused id step)
            (λ u. record u { totp_last_step = some step; last_login_at = some at }) db.admin_users;
    }
    pure used

  unfoldable pub open_session :
      String → Option String → Option String → ℕ → Exec (Option (String × String))
  open_session email ip user_agent user_id = do
    raw ← create_session user_id ip user_agent
    audit auth.env email "admin.login" "admin_user" email
        (some (("ip", elim ip [ none ↦ Value.null | some s ↦ Value.text s ]) ∷ []))
    pure (some (raw, email))

  -- what follows on the checks of both factors
  unfoldable pub enter :
      String
      → Option String
      → Option String
      → Bool
      → Option AdminUser
      → Option ℕ
      → Exec (Option (String × String))
  enter email ip user_agent password_ok (some u) (some step) =
      if u.is_active && password_ok
      then (do
        used ← use_step u.admin_user_id step
        if used == 1
            then open_session email ip user_agent u.admin_user_id
            else login_failed email ip)
      else login_failed email ip
  enter email ip user_agent password_ok _ _ = login_failed email ip

  -- `login`
  unfoldable pub login :
      String → String → String → Option String → Option String → Exec (Option (String × String))
  login typed_email password typed ip user_agent = do
    let email = take_text 180 (normalize_email typed_email)
    user ← gets (λ w. first (λ u. u.email == email) w.admin_users)
    let password_ok = verify_password (hash_of user) password
    secret ← secret_of user
    step ← match_totp_step secret typed
    enter email ip user_agent password_ok user step

  -- `verify_admin_password`
  unfoldable pub verify_admin_password : String → String → Exec Bool
  verify_admin_password email password = gets λ w.
      elim (first (λ u. u.email == normalize_email email && u.is_active) w.admin_users) [
        | none ↦ false
        | some u ↦ verify_password u.password_hash password
      ]
