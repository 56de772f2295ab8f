-- ===== src/Routers/Soundness/Logins.antt =====
-- A login and a logout, in licensing-master/src/admin_auth.py and routers.py, keep the database sound.
use licensing_master.Base.{ℕ, String, nat_eq, string_eq, Bool, Option, none, some}
use licensing_master.Tables.{AdminUser}
use licensing_master.Exec.Keeps.{Keeps, Keeps-pure, keeps_rules}
use licensing_master.Service.Soundness.{IsSound}
use licensing_master.Service.Soundness.Admin.{admin_rules}
use licensing_master.AdminAuth.{
  AuthEnv, SessionRow, match_totp_step, insert_session, create_session, find_session, revoke_row,
  revoke_session, secret_of, use_step, login_failed, open_session, enter, login,
}
use licensing_master.Routers.Serve.{logout, revoke_cookie, audit_logout}

module _ (auth : AuthEnv) where
  keep_match : (secret typed : String) → Keeps IsSound (match_totp_step auth secret typed)
  unfolding match_totp_step
  keep_match secret typed = search admin_rules

  keep_secret : (u : Option AdminUser) → Keeps IsSound (secret_of auth u)
  unfolding secret_of
  keep_secret none = record { kept = λ w h. h }
  keep_secret (some u) = record { kept = λ w h. h }

  keep_insert_session :
      (id : ℕ) (raw : String) (at : ℕ) (ip agent : Option String)
      → Keeps IsSound (insert_session auth id raw at ip agent)
  unfolding insert_session
  keep_insert_session id raw at ip agent = search admin_rules

  keep_create_session :
      (id : ℕ) (ip agent : Option String) → Keeps IsSound (create_session auth id ip agent)
  unfolding create_session
  keep_create_session id ip agent = search (admin_rules, keep_insert_session)

  keep_open_session :
      (email : String) (ip agent : Option String) (id : ℕ)
      → Keeps IsSound (open_session auth email ip agent id)
  unfolding open_session
  keep_open_session email ip agent id = search (admin_rules, keep_create_session)

  keep_failed : (email : String) (ip : Option String) → Keeps IsSound (login_failed auth email ip)
  unfolding login_failed
  keep_failed email ip = search admin_rules

  keep_use_step : (id step : ℕ) → Keeps IsSound (use_step auth id step)
  unfolding use_step
  keep_use_step id step = search admin_rules

  keep_enter :
      (email : String) (ip agent : Option String) (good : Bool) (u : Option AdminUser)
      (step : Option ℕ)
      → Keeps IsSound (enter auth email ip agent good u step)
  unfolding enter
  keep_enter email ip agent good none step = keep_failed email ip
  keep_enter email ip agent good (some u) none = keep_failed email ip
  keep_enter email ip agent good (some u) (some step) =
      search (admin_rules, keep_use_step, keep_open_session, keep_failed)

  pub login-IsSound :
      (email password typed : String) (ip agent : Option String)
      → Keeps IsSound (login auth email password typed ip agent)
  unfolding login
  login-IsSound email password typed ip agent =
      search (admin_rules, keep_secret, keep_match, keep_enter)

  keep_revoke_row : (r : Option SessionRow) → Keeps IsSound (revoke_row auth r)
  unfolding revoke_row
  keep_revoke_row none = Keeps-pure none
  keep_revoke_row (some r) = search admin_rules

  keep_revoke_session : (raw : String) → Keeps IsSound (revoke_session auth raw)
  unfolding revoke_session find_session
  keep_revoke_session raw = search (admin_rules, keep_revoke_row)

  keep_revoke_cookie : (c : Option String) → Keeps IsSound (revoke_cookie auth c)
  keep_revoke_cookie none = Keeps-pure none
  keep_revoke_cookie (some raw) = search (admin_rules, keep_revoke_session)

  keep_audit_logout : (o : Option String) → Keeps IsSound (audit_logout auth o)
  keep_audit_logout none = Keeps-pure tt
  keep_audit_logout (some email) = search admin_rules

  pub logout-IsSound : (c : Option String) → Keeps IsSound (logout auth c)
  unfolding logout
  logout-IsSound c = search (keeps_rules, keep_revoke_cookie, keep_audit_logout)
