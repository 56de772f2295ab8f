-- ===== src/AdminAuth/Accounts.antt =====
-- The operator's commands on admin accounts in licensing-master/src/admin_auth.py. `argon2_hash` is the
-- hash of a password with the salt drawn at the given question. A CreatedAdmin is the e-mail and the
-- secret: its otpauth URI is built from these two.
pub mod Expulsions
pub mod Creation
pub mod Enrolment
use Prim.Native.Char.{code}
use Prim.Native.String.{◌++◌ as ◌++ˢ◌}
use licensing_master.Base.{
  ℕ, suc, String, ◌==◌, nat_eq, string_eq, Bool, true, false, not, ◌&&◌, ◌||◌, Option, none, some,
  is_some, List, [], ◌∷◌, ◌++◌, ltb, leb, text_length, if◌then◌else◌,
}
use licensing_master.Base.Int.{pos}
use licensing_master.Base.Rows.{first, count, update, order_asc}
use licensing_master.Tables.{Value, AdminUser, AdminSession}
use licensing_master.Exec.{
  Exec, ok, pure, gets, raise_if, or_raise, modify, next_serial, now, admin_user_error, ◌>>=◌, ◌>>◌,
}
use licensing_master.Service.Rows.{audit}
use licensing_master.AdminAuth.{AuthEnv, normalize_email}

-- the blanks of `\s`
abbrev pub is_blank : ℕ → Bool
is_blank c =
    (leb 9 c && leb c 13)
    || (leb 28 c && leb c 32)
    || c == 133
    || c == 160
    || c == 5_760
    || (leb 8_192 c && leb c 8_202)
    || c == 8_232
    || c == 8_233
    || c == 8_239
    || c == 8_287
    || c == 12_288

-- `[^@\s]+\.[^@\s]+$`: no character yet, one or more, the full stop, and one or more after it
pub data Domain : Type 0 where
  empty host stop whole : Domain

abbrev pub step_domain : ℕ → Domain → Domain
step_domain c empty = host
step_domain c host = if c == 46 then stop else host
step_domain c stop = whole
step_domain c whole = whole

abbrev pub is_whole : Domain → Bool
is_whole whole = true
is_whole _ = false

-- the rest of the address after the `@`; `$` also matches before a last line feed
unfoldable pub is_domain : Domain → String → Bool
is_domain d String.[] = is_whole d
is_domain d (String.◌∷◌ c s) =
    let rest = is_domain (step_domain (code c) d) s in
    if is_blank (code c) || code c == 64
    then code c == 10 && text_length s == 0 && is_whole d
    else rest

-- `[^@\s]+@…` with the characters before the `@` that are read
unfoldable pub is_local : Bool → String → Bool
is_local seen String.[] = false
is_local seen (String.◌∷◌ c s) =
    let rest = is_local true s in
    if code c == 64 then seen && is_domain empty s else if is_blank (code c) then false else rest

-- `_EMAIL_RE.match`
unfoldable pub is_email : String → Bool
is_email s = is_local false s

-- `validate_password_strength`
unfoldable pub validate_password_strength : String → Exec (Unit {0})
validate_password_strength password = do
  raise_if (ltb (text_length password) 12)
      (admin_user_error "Password must be at least 12 characters long")
  raise_if (ltb 1_024 (text_length password))
      (admin_user_error "Password must be at most 1024 characters long")

-- an unrevoked session of the account
abbrev pub is_unrevoked_of : ℕ → AdminSession → Bool
is_unrevoked_of id s = s.admin_user_id == id && not (is_some s.revoked_at)

module _ (auth : AuthEnv) (argon2_hash : ℕ → String → String) where
  -- the row of a new account, with the defaults of the columns
  abbrev pub new_admin : ℕ → String → String → String → AdminUser
  new_admin id email hash secret = record {
    admin_user_id = id;
    email = email;
    password_hash = hash;
    totp_secret = secret;
    totp_last_step = none;
    is_active = true;
    created_at = auth.env.started;
    last_login_at = none;
  }

  -- `_user_row`
  unfoldable pub user_row : String → Exec AdminUser
  user_row email = do
    row ← gets (λ w. first (λ (u : AdminUser). u.email == normalize_email auth email) w.admin_users)
    or_raise row (admin_user_error ("Admin " ++ˢ normalize_email auth email ++ˢ " not found"))

  -- `hash_password`
  abbrev pub hash_password : String → Exec String
  hash_password password w = (ok (argon2_hash w.asked password), record w { asked = suc w.asked })

  -- `new_totp_secret`
  abbrev pub new_totp_secret : Exec String
  new_totp_secret w = (ok (auth.random_base32 w.asked), record w { asked = suc w.asked })

  -- `UPDATE admin_users SET … WHERE admin_user_id = id`
  abbrev pub update_user : ℕ → (AdminUser → AdminUser) → Exec (Unit {0})
  update_user id f =
      modify λ db. record db { admin_users = update (λ u. u.admin_user_id == id) f db.admin_users }

  -- `revoke_user_sessions`
  unfoldable pub revoke_user_sessions : ℕ → Exec ℕ
  revoke_user_sessions id = do
    at ← now auth.env
    n ← gets (λ w. count (is_unrevoked_of id) w.admin_sessions)
    modify λ db. record db {
      admin_sessions =
          update (is_unrevoked_of id) (λ s. record s { revoked_at = some at }) db.admin_sessions;
    }
    pure n

  -- `reset_password`
  unfoldable pub reset_password : String → String → String → Exec (Unit {0})
  reset_password actor email new_password = do
    row ← user_row email
    validate_password_strength new_password
    hash ← hash_password new_password
    update_user row.admin_user_id (λ u. record u { password_hash = hash })
    _ ← revoke_user_sessions row.admin_user_id
    audit auth.env actor "admin.reset_password" "admin_user" row.email none

  -- `reset_totp`: the e-mail and the new secret, of which the code also builds an otpauth URI
  unfoldable pub reset_totp : String → String → Exec (String × String)
  reset_totp actor email = do
    row ← user_row email
    secret ← new_totp_secret
    update_user row.admin_user_id (λ u. record u { totp_secret = secret; totp_last_step = none })
    _ ← revoke_user_sessions row.admin_user_id
    audit auth.env actor "admin.reset_totp" "admin_user" row.email none
    pure (row.email, secret)

  -- `set_active`
  unfoldable pub set_active : String → String → Bool → Exec (Unit {0})
  set_active actor email active = do
    row ← user_row email
    update_user row.admin_user_id (λ u. record u { is_active = active })
    _ ← if active then pure 0 else revoke_user_sessions row.admin_user_id
    audit auth.env actor (if active then "admin.enable" else "admin.disable") "admin_user" row.email
        none

  -- `revoke_sessions`
  unfoldable pub revoke_sessions : String → String → Exec ℕ
  revoke_sessions actor email = do
    row ← user_row email
    n ← revoke_user_sessions row.admin_user_id
    audit auth.env actor "admin.revoke_sessions" "admin_user" row.email
        (some (("count", Value.int (pos n)) ∷ []))
    pure n

  -- `create_admin`; `email` is UNIQUE, and the code looks for it first
  unfoldable pub create_admin : String → String → String → Exec (String × String)
  create_admin actor typed_email password = do
    let email = normalize_email auth typed_email
    raise_if (not (is_email email) || ltb 180 (text_length email))
        (admin_user_error "A valid e-mail address is required")
    validate_password_strength password
    clash ← gets (λ w. first (λ (u : AdminUser). u.email == email) w.admin_users)
    raise_if (is_some clash) (admin_user_error ("Admin " ++ˢ email ++ˢ " already exists"))
    secret ← new_totp_secret
    hash ← hash_password password
    id ← next_serial
    modify λ db. record db { admin_users = db.admin_users ++ new_admin id email hash secret ∷ [] }
    audit auth.env actor "admin.create" "admin_user" email none
    pure (email, secret)

-- a row of `list_admins`, which holds no secret
pub record AdminEntry : Type 0 where
  pub email : String
  pub is_active : Bool
  pub created_at : ℕ
  pub last_login_at : Option ℕ

unfoldable pub entries : List AdminUser → List AdminEntry
entries [] = []
entries (u ∷ us) =
    record {
      email = u.email;
      is_active = u.is_active;
      created_at = u.created_at;
      last_login_at = u.last_login_at;
    }
    ∷ entries us

-- `list_admins`
unfoldable pub list_admins : Exec (List AdminEntry)
list_admins = gets (λ w. entries (order_asc (λ u. u.admin_user_id) w.admin_users))
