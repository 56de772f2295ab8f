-- ===== src/Examples/Operators.antt =====
-- The operator's commands on the admin of the example.
use licensing_master.Base.{
  ℕ, suc, ◌≡◌, refl, String, ◌==◌, string_eq, true, false, ◌&&◌, none, fits,
}
use licensing_master.Base.Rows.{first, count}
use licensing_master.Tables.{AdminUser, AdminSession}
use licensing_master.Exec.Succeeds.{Succeeds}
use licensing_master.Limiter.{us_per_second}
use licensing_master.AdminAuth.{normalize_email, token_hash, drop_blanks, login, is_ascii}
use licensing_master.AdminAuth.Logins.{IsEntered}
use licensing_master.AdminAuth.Accounts.Enrolment.{IsCode, row_of, create_admin-login}
use licensing_master.CommandLine.{Command, main}
use licensing_master.CommandLine.Exits.{IsAtomic, main-IsAtomic}
use licensing_master.AdminAuth.Accounts.{
  is_email, is_local, is_domain, reset_password, set_active, create_admin,
}
use licensing_master.AdminAuth.Accounts.Expulsions.{
  IsExpelled, reset_password-Expelled, set_active-Expelled,
}
use licensing_master.AdminAuth.Accounts.Creation.{IsCreated, create_admin-Created}
use licensing_master.Examples.Logins.{auth, admin, office, admin_known}

abbrev salted : ℕ → String → String
salted _ password = password

no_clash :
    first (λ (u : AdminUser). u.email == normalize_email auth "new@b.c") office.admin_users ≡ none
unfolding normalize_email
no_clash = refl

new_valid :
    (is_email (normalize_email auth "new@b.c") && fits 80 (normalize_email auth "new@b.c")) ≡ true
unfolding normalize_email is_email is_local is_domain
new_valid = refl

no_email : is_email "a@b" ≡ false
unfolding is_email is_local is_domain
no_email = refl

reset_password-Expelled_example :
    Succeeds
      (λ _ v. IsExpelled auth salted "a@b.c" (record admin { password_hash = "a new password" }) v)
      (reset_password auth salted "cli" "a@b.c" "a new password" office)
reset_password-Expelled_example =
    reset_password-Expelled auth salted "cli" "a@b.c" "a new password" office admin admin_known refl
      refl

set_active-Expelled_example :
    Succeeds
      (λ _ v. IsExpelled auth salted "a@b.c" (record admin { is_active = false }) v)
      (set_active auth salted "cli" "a@b.c" false office)
set_active-Expelled_example =
    set_active-Expelled auth salted "cli" "a@b.c" office admin admin_known refl

create_admin-Created_example :
    Succeeds
      (IsCreated auth salted (normalize_email auth "new@b.c") "a new password" office)
      (create_admin auth salted "cli" "new@b.c" "a new password" office)
create_admin-Created_example =
    create_admin-Created auth salted "cli" "new@b.c" "a new password" office (tt, tt) no_clash
      new_valid refl

no_session :
    count (λ (s : AdminSession). s.token_hash == token_hash auth "random") office.admin_sessions ≡ 0
unfolding token_hash
no_session = refl

typed_in_time :
    IsCode auth (auth.random_base32 0) "123 456" (auth.env.clock (suc (suc office.asked))) 0
unfolding drop_blanks us_per_second is_ascii
typed_in_time = (refl, refl)

create_admin-login_example :
    Succeeds
      (λ r v.
        (r ≡ (normalize_email auth "new@b.c", auth.random_base32 0))
        × Succeeds
            (IsEntered auth
              (normalize_email auth "new@b.c")
              (record v { asked = suc v.asked })
              (row_of auth salted (normalize_email auth "new@b.c") "a new password" office)
              0)
            (login auth "new@b.c" "a new password" "123 456" none none v))
      (create_admin auth salted "cli" "new@b.c" "a new password" office)
create_admin-login_example =
    create_admin-login auth salted "cli" "new@b.c" "a new password" "123 456" none none office 0
      (tt, tt) refl no_clash new_valid refl refl typed_in_time no_session

-- The password is repeated wrongly.
main-IsAtomic_example :
    IsAtomic office
      (main auth salted (Command.create_admin "new@b.c" "a new password" "a new passwort") office)
main-IsAtomic_example =
    main-IsAtomic auth salted (Command.create_admin "new@b.c" "a new password" "a new passwort")
      office
