-- ===== src/AdminAuth/Accounts/Creation.antt =====
-- A new admin account in licensing-master/src/admin_auth.py.
use licensing_master.Base.{
  ℕ, suc, ◌≡◌, refl, String, ◌==◌, string_eq, ==_refl, true, not, ◌&&◌, ◌||◌, none, some, is_some,
  arith, ltb, leb, text_length, fits,
}
use licensing_master.Base.Rows.{first, first-append}
use licensing_master.Base.Keys.{Unique, Unique-append, Absent-of_first}
use licensing_master.Tables.{AdminUser}
use licensing_master.Exec.{World, gets, modify, next_serial}
use licensing_master.Exec.Succeeds.{Succeeds, Succeeds-then, raise_if-ok}
use licensing_master.Service.Outcomes.{audit-ok}
use licensing_master.AdminAuth.{AuthEnv, normalize_email}
use licensing_master.AdminAuth.Accounts.{
  is_email, new_totp_secret, hash_password, new_admin, create_admin,
}
use licensing_master.AdminAuth.Accounts.Expulsions.{validate_password_strength-ok}

module _ (auth : AuthEnv) (argon2_hash : ℕ → String → String) where
  -- the account is there under its e-mail with its secret and the hash of its password, and the
  -- e-mails are unique
  abbrev pub IsCreated : String → String → World → String × String → World → Type 0
  IsCreated email password w r v =
      (r ≡ (email, auth.random_base32 w.asked))
      × Unique (λ (u : AdminUser). u.email) v.admin_users
      × (first (λ (u : AdminUser). u.email == email) v.admin_users
          ≡ some (
              new_admin auth argon2_hash w.serial email (argon2_hash (suc w.asked) password)
                (auth.random_base32 w.asked)))

  -- With a valid e-mail of at most 80 characters that no account has, and a password of 12 to 1024
  -- characters, a new account is created under its e-mail, and the e-mails stay unique.
  pub create_admin-Created :
      (actor typed_email password : String) (w : World)
      → Unique (λ (u : AdminUser). u.email) w.admin_users
      → first (λ (u : AdminUser). u.email == normalize_email auth typed_email) w.admin_users ≡ none
      → (is_email (normalize_email auth typed_email) && fits 80 (normalize_email auth typed_email))
        ≡ true
      → (leb 12 (text_length password) && leb (text_length password) 1_024) ≡ true
      → Succeeds
          (IsCreated (normalize_email auth typed_email) password w)
          (create_admin auth argon2_hash actor typed_email password w)
  unfolding create_admin
  create_admin-Created actor typed_email password w unique free valid good =
      let email : String = normalize_email auth typed_email in
      Succeeds-then _ _ w _
        (raise_if-ok {b = not (is_email email) || ltb 180 (text_length email)} _ w (ground arith))
        (Succeeds-then _ _ w _ (validate_password_strength-ok password w good) (
          Succeeds-then (gets _) _ w _ refl (
            Succeeds-then _ _ w _
              (raise_if-ok {b = is_some (first (λ (u : AdminUser). u.email == email) w.admin_users)}
                _ w (rw free refl))
              (Succeeds-then (new_totp_secret auth argon2_hash) _ w _ refl (
                Succeeds-then (hash_password auth argon2_hash password) _ _ _ refl (
                  Succeeds-then next_serial _ _ _ refl (
                    Succeeds-then (modify _) _ _ _ refl (
                      Succeeds-then _ _ _ _ (audit-ok auth.env _ _ _ _ _ _ refl (ground arith)) (
                        refl,
                        Unique-append (λ (u : AdminUser). u.email) w.admin_users _ unique
                            (Absent-of_first (λ (u : AdminUser). u.email) email w.admin_users free),
                        first-append _ w.admin_users _ free (==_refl email),
                      )))))))))
