-- ===== src/AdminAuth/Accounts/Expulsions.antt =====
-- Resetting a password and disabling an account in licensing-master/src/admin_auth.py.
use licensing_master.Base.{
  ℕ, suc, ◌≡◌, refl, ◌∙◌, String, ◌==◌, nat_eq, string_eq, ==_refl, true, false, ◌&&◌, none, some,
  List, arith, ltb, leb, text_length, fits,
}
use licensing_master.Base.Rows.{first, count, update, first-update, count-update_off}
use licensing_master.Tables.{AdminUser, AdminSession}
use licensing_master.Exec.{World, ok, ◌>>=◌}
use licensing_master.Exec.Succeeds.{Succeeds, Succeeds-then, or_raise-ok}
use licensing_master.Service.Rows.{audit}
use licensing_master.Service.Outcomes.{audit-ok}
use licensing_master.AdminAuth.{AuthEnv, normalize_email}
use licensing_master.AdminAuth.Accounts.{
  is_unrevoked_of, user_row, update_user, revoke_user_sessions, validate_password_strength,
  hash_password, reset_password, set_active,
}

pub validate_password_strength-ok :
    (password : String) (w : World)
    → (leb 12 (text_length password) && leb (text_length password) 1_024) ≡ true
    → validate_password_strength password w ≡ (ok tt, w)
unfolding validate_password_strength ◌>>=◌
validate_password_strength-ok password w good =
    let short : ltb (text_length password) 12 ≡ false = ground arith in
    let long : ltb 1_024 (text_length password) ≡ false = ground arith in rw (short, long) refl

module _ (auth : AuthEnv) (argon2_hash : ℕ → String → String) where
  -- no session of the account is unrevoked, and the account of the email is `u`
  abbrev pub IsExpelled : String → AdminUser → World → Type 0
  IsExpelled email u v =
      (count (is_unrevoked_of u.admin_user_id) v.admin_sessions ≡ 0)
      × (first (λ (x : AdminUser). x.email == normalize_email auth email) v.admin_users ≡ some u)

  user_row-ok :
      (email : String) (w : World) (u : AdminUser)
      → first (λ (x : AdminUser). x.email == normalize_email auth email) w.admin_users ≡ some u
      → user_row auth argon2_hash email w ≡ (ok u, w)
  unfolding user_row ◌>>=◌
  user_row-ok email w u found = or_raise-ok _ w found

  revoked :
      (id at : ℕ) (sessions : List AdminSession)
      → count
          (is_unrevoked_of id)
          (update (is_unrevoked_of id) (λ s. record s { revoked_at = some at }) sessions)
        ≡ 0
  revoked id at sessions = count-update_off (is_unrevoked_of id) _ sessions (λ s on. ground arith)

  changed :
      (email : String) (f : AdminUser → AdminUser) (users : List AdminUser) (u : AdminUser)
      → ((x : AdminUser) → (f x).email ≡ x.email)
      → first (λ (x : AdminUser). x.email == normalize_email auth email) users ≡ some u
      → first
          (λ (x : AdminUser). x.email == normalize_email auth email)
          (update (λ x. x.admin_user_id == u.admin_user_id) f users)
        ≡ some (f u)
  changed email f users u same found =
      first-update (λ (x : AdminUser). x.email == normalize_email auth email)
        (λ x. x.admin_user_id == u.admin_user_id) f users {x = u} (λ y. rw (same y) refl) found
      ∙ rw (==_refl u.admin_user_id) refl

  -- the world after `revoke_user_sessions`
  abbrev expelled : ℕ → World → World
  expelled id w = record w {
    asked = suc w.asked;
    db = record w.db {
      admin_sessions =
          update (is_unrevoked_of id) (λ s. record s { revoked_at = some (auth.env.clock w.asked) })
            w.admin_sessions;
    };
  }

  revoke_user_sessions-ok :
      (id : ℕ) (w : World)
      → revoke_user_sessions auth argon2_hash id w
        ≡ (ok (count (is_unrevoked_of id) w.admin_sessions), expelled id w)
  unfolding revoke_user_sessions ◌>>=◌
  revoke_user_sessions-ok id w = refl

  -- A command that changes the account, ends its sessions and writes the audit log.
  expel-Expelled :
      (actor action email : String) (f : AdminUser → AdminUser) (w : World) (u : AdminUser)
      → ((x : AdminUser) → (f x).email ≡ x.email)
      → (f u).admin_user_id ≡ u.admin_user_id
      → first (λ (x : AdminUser). x.email == normalize_email auth email) w.admin_users ≡ some u
      → fits 80 u.email ≡ true
      → Succeeds
          (λ _ v. IsExpelled email (f u) v)
          ((update_user auth argon2_hash u.admin_user_id f >>= λ _.
              revoke_user_sessions auth argon2_hash u.admin_user_id >>= λ _.
              audit auth.env actor action "admin_user" u.email none)
            w)
  expel-Expelled actor action email f w u same own found short =
      Succeeds-then (update_user auth argon2_hash u.admin_user_id f) _ w
        (λ _ v. IsExpelled email (f u) v) refl
        (Succeeds-then (revoke_user_sessions auth argon2_hash u.admin_user_id) _ _
          (λ _ v. IsExpelled email (f u) v) (revoke_user_sessions-ok u.admin_user_id _)
          (rw (audit-ok auth.env actor action "admin_user" u.email none _ refl short) (
            rw own (revoked u.admin_user_id _ w.admin_sessions),
            changed email f w.admin_users u same found,
          )))

  -- A new password of 12 to 1024 characters for an account that is there, with an e-mail of at most 80
  -- characters, the width of the audit log's target, is stored under a new salt, and no session of the account is left unrevoked.
  pub reset_password-Expelled :
      (actor email new_password : String) (w : World) (u : AdminUser)
      → first (λ (x : AdminUser). x.email == normalize_email auth email) w.admin_users ≡ some u
      → (leb 12 (text_length new_password) && leb (text_length new_password) 1_024) ≡ true
      → fits 80 u.email ≡ true
      → Succeeds
          (λ _ v.
            IsExpelled email (record u { password_hash = argon2_hash w.asked new_password }) v)
          (reset_password auth argon2_hash actor email new_password w)
  unfolding reset_password
  reset_password-Expelled actor email new_password w u found good short =
      Succeeds-then (user_row auth argon2_hash email) _ w _ (user_row-ok email w u found) (
        Succeeds-then (validate_password_strength new_password) _ w _
          (validate_password_strength-ok new_password w good)
          (Succeeds-then (hash_password auth argon2_hash new_password) _ w _ refl
            (expel-Expelled actor "admin.reset_password" email _ _ u (λ _. refl) refl found short)))

  -- An account that is there, with an e-mail of at most 80 characters, and is disabled is inactive, and no session of it is left unrevoked.
  pub set_active-Expelled :
      (actor email : String) (w : World) (u : AdminUser)
      → first (λ (x : AdminUser). x.email == normalize_email auth email) w.admin_users ≡ some u
      → fits 80 u.email ≡ true
      → Succeeds
          (λ _ v. IsExpelled email (record u { is_active = false }) v)
          (set_active auth argon2_hash actor email false w)
  unfolding set_active
  set_active-Expelled actor email w u found short =
      Succeeds-then (user_row auth argon2_hash email) _ w _ (user_row-ok email w u found)
        (expel-Expelled actor "admin.disable" email _ w u (λ _. refl) refl found short)
