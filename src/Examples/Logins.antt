-- ===== src/Examples/Logins.antt =====
-- An admin of the example, with a session and a used code.
use licensing_master.Base.{
  ◌≡◌, refl, ◌==◌, nat_eq, string_eq, true, some, none, [], ◌∷◌, arith, if◌then◌else◌, take_text,
  fits,
}
use licensing_master.Base.Rows.{first}
use licensing_master.Limiter.{us_per_second}
use licensing_master.Tables.{AdminUser, AdminSession}
use licensing_master.Exec.{World, ok, ◌>>=◌, transaction}
use licensing_master.Exec.Succeeds.{Succeeds}
use licensing_master.AdminAuth.{
  AuthEnv, match_totp_step, normalize_email, login, resolve_session, revoke_session, token_hash,
  drop_blanks, verify_password, is_ascii,
}
use licensing_master.AdminAuth.Codes.{IsShut, login-replayed}
use licensing_master.AdminAuth.Logins.{IsEntered, login-Entered}
use licensing_master.AdminAuth.Sessions.{
  IsResolved, IsLoggedOut, resolve_session-good, revoke_session-out,
}
use licensing_master.Examples.{live_env, world}

abbrev pub auth : AuthEnv
auth = record {
  env = live_env;
  argon2_verify = λ hash password. hash == password;
  dummy_hash = "dummy";
  random_base32 = λ _. "RANDOM";
  totp_at = λ secret step. if step == 0 then "123456" else "000000";
  is_digits = λ _. true;
  idle_seconds = 1_800;
  absolute_seconds = 28_800;
}

abbrev pub admin : AdminUser
admin = record {
  admin_user_id = 1;
  email = "a@b.c";
  password_hash = "secret password";
  totp_secret = "SECRET";
  totp_last_step = some 0;
  is_active = true;
  created_at = 0;
  last_login_at = none;
}

abbrev session : AdminSession
session = record {
  admin_session_id = 2;
  admin_user_id = 1;
  token_hash = "sha256:cookie";
  created_at = 0;
  last_seen_at = 500;
  expires_at = 9_000;
  revoked_at = none;
  ip = none;
  user_agent = none;
}

abbrev pub office : World
office = record world {
  db = record world.db { admin_users = admin ∷ []; admin_sessions = session ∷ [] };
}

code_matches :
    match_totp_step auth "SECRET" "123 456" office ≡ (ok (some 0), record office { asked = 1 })
unfolding match_totp_step drop_blanks us_per_second is_ascii ◌>>=◌
code_matches = refl

admin_found :
    first
      (λ (u : AdminUser). u.email == take_text 180 (normalize_email auth "a@b.c"))
      office.admin_users
    ≡ some admin
unfolding normalize_email
admin_found = refl

pub admin_known :
    first (λ (u : AdminUser). u.email == normalize_email auth "a@b.c") office.admin_users
    ≡ some admin
unfolding normalize_email
admin_known = refl

cookie_found :
    first (λ (s : AdminSession). s.token_hash == token_hash auth "cookie") office.admin_sessions
    ≡ some session
unfolding token_hash
cookie_found = refl

short_email : fits 80 (take_text 180 (normalize_email auth "a@b.c")) ≡ true
unfolding normalize_email
short_email = refl

login-replayed_example :
    IsShut
      (take_text 180 (normalize_email auth "a@b.c"))
      office
      (transaction (login auth "a@b.c" "secret password" "123 456" none none) office)
login-replayed_example =
    login-replayed auth "a@b.c" "secret password" "123 456" none none office admin 0 0 (tt, tt)
      admin_found code_matches refl (omega arith)

resolve_session-good_example :
    Succeeds
      (λ o _. IsResolved auth (auth.env.clock office.asked) session admin o)
      (resolve_session auth "cookie" office)
resolve_session-good_example =
    resolve_session-good auth "cookie" office session admin cookie_found refl

revoke_session-out_example :
    Succeeds (IsLoggedOut auth "cookie") (revoke_session auth "cookie" office)
revoke_session-out_example = revoke_session-out auth "cookie" office (tt, tt)

abbrev late_admin : AdminUser
late_admin = record admin { totp_last_step = none }

-- the office before the admin has used a code, on an empty table of sessions
abbrev quiet_office : World
quiet_office = record office {
  db = record office.db { admin_users = late_admin ∷ []; admin_sessions = [] };
}

quiet_code_matches :
    match_totp_step auth "SECRET" "123 456" quiet_office
    ≡ (ok (some 0), record quiet_office { asked = 1 })
unfolding match_totp_step drop_blanks us_per_second is_ascii ◌>>=◌
quiet_code_matches = refl

late_admin_found :
    first
      (λ (u : AdminUser). u.email == take_text 180 (normalize_email auth "a@b.c"))
      quiet_office.admin_users
    ≡ some late_admin
unfolding normalize_email
late_admin_found = refl

quiet_password_known : verify_password auth late_admin.password_hash "secret password" ≡ true
unfolding verify_password
quiet_password_known = refl

login-Entered_example :
    Succeeds
      (IsEntered auth
        (take_text 180 (normalize_email auth "a@b.c"))
        (record quiet_office { asked = 1 })
        late_admin
        0)
      (login auth "a@b.c" "secret password" "123 456" none none quiet_office)
login-Entered_example =
    login-Entered auth "a@b.c" "secret password" "123 456" none none quiet_office late_admin 0
      (tt, tt) late_admin_found quiet_code_matches refl quiet_password_known refl refl short_email
