-- ===== src/AdminAuth/Accounts/Enrolment.antt =====
-- From the creation of an account to its first login, in licensing-master/src/admin_auth.py.
use licensing_master.Base.{
  ℕ, suc, ◌*◌, ◌/◌, ◌≡◌, refl, ap, String, ◌==◌, nat_eq, string_eq, ==_refl, true, false, not, ◌&&◌,
  ◌||◌, Option, none, some, is_some, [], ◌∷◌, ◌++◌, arith, ltb, leb, text_length, take_text, fits,
}
use mathlib.Core.Path.{subst}
use licensing_master.Base.Rows.{first, first-append, count}
use licensing_master.Base.Keys.{Unique, Unique-append, Absent-of_first}
use licensing_master.Tables.{AdminUser, AdminSession}
use licensing_master.Limiter.{us_per_second}
use licensing_master.Exec.{World, ok, gets, modify, next_serial, ◌>>=◌}
use licensing_master.Exec.Succeeds.{Succeeds, Succeeds-then, Succeeds-weaken, raise_if-ok}
use licensing_master.Service.Outcomes.{audit-ok}
use licensing_master.AdminAuth.{
  AuthEnv, normalize_email, drop_blanks, near_steps, match_totp_step, verify_password, token_hash,
  login, is_ascii,
}
use licensing_master.AdminAuth.Logins.{IsEntered, login-Entered}
use licensing_master.AdminAuth.Accounts.{
  is_email, new_totp_secret, hash_password, new_admin, create_admin,
}
use licensing_master.AdminAuth.Accounts.Expulsions.{validate_password_strength-ok}

-- a text that is short enough is not cut
take_text-all : (n : ℕ) (s : String) → leb (text_length s) n ≡ true → take_text n s ≡ s
take_text-all ℕ.zero String.[] h = refl
take_text-all ℕ.zero (String.◌∷◌ c s) h = absurd (ground arith)
take_text-all (suc n) String.[] h = refl
take_text-all (suc n) (String.◌∷◌ c s) h =
    ap (λ t. String.◌∷◌ c t) (take_text-all n s (ground arith))

module _ (auth : AuthEnv) where
  -- the text of a typed code
  abbrev pub typed_code : String → String
  typed_code typed = drop_blanks (auth.strip typed)

  -- Six ASCII digits are the code of `secret` for `step`, the first of the three steps around the time.
  abbrev pub IsCode : String → String → ℕ → ℕ → Type 0
  IsCode secret typed at step =
      ((text_length (typed_code typed) == 6
          && auth.is_digits (typed_code typed)
          && is_ascii (typed_code typed))
        ≡ true)
      × (first (λ step. auth.totp_at secret step == typed_code typed)
            (near_steps auth (at / (30 * us_per_second)))
          ≡ some step)

  match_totp_step-ok :
      (secret typed : String) (step : ℕ) (w : World)
      → IsCode secret typed (auth.env.clock w.asked) step
      → match_totp_step auth secret typed w ≡ (ok (some step), record w { asked = suc w.asked })
  unfolding match_totp_step ◌>>=◌
  match_totp_step-ok secret typed step w (six, found) =
      let well : (not (text_length (typed_code typed) == 6)
            || not (auth.is_digits (typed_code typed)))
          ≡ false =
        ground arith in
      let plain : is_ascii (typed_code typed) ≡ true = ground arith in rw (well, plain, found) refl

module _ (auth : AuthEnv) (argon2_hash : ℕ → String → String) where
  -- the new row of an account that is created now
  abbrev pub row_of : String → String → World → AdminUser
  row_of email password w =
      new_admin auth argon2_hash w.serial email (argon2_hash (suc w.asked) password)
        (auth.random_base32 w.asked)

  -- what a creation leaves: the new row at the end of the accounts, and the sessions
  abbrev pub IsLeft : String → String → World → String × String → World → Type 0
  IsLeft email password w r v =
      (r ≡ (email, auth.random_base32 w.asked))
      × (v.asked ≡ suc (suc w.asked))
      × (v.admin_sessions ≡ w.admin_sessions)
      × (v.admin_users ≡ w.admin_users ++ row_of email password w ∷ [])

  create_admin-leaves :
      (actor typed_email password : String) (w : World)
      → first (λ (u : AdminUser). u.email == normalize_email auth typed_email) w.admin_users ≡ none
      → (is_email (normalize_email auth typed_email) && fits 80 (normalize_email auth typed_email))
        ≡ true
      → (leb 12 (text_length password) && leb (text_length password) 1_024) ≡ true
      → Succeeds
          (IsLeft (normalize_email auth typed_email) password w)
          (create_admin auth argon2_hash actor typed_email password w)
  unfolding create_admin
  create_admin-leaves actor typed_email password w free valid good =
      let email : String = normalize_email auth typed_email in
      Succeeds-then _ _ w _
        (raise_if-ok {b = not (is_email email) || ltb 180 (text_length email)} _ w (ground arith))
        (Succeeds-then _ _ w _ (validate_password_strength-ok password w good) (
          Succeeds-then (gets _) _ w _ refl (
            Succeeds-then _ _ w _
              (raise_if-ok {b = is_some (first (λ (u : AdminUser). u.email == email) w.admin_users)}
                _ w (rw free refl))
              (Succeeds-then (new_totp_secret auth argon2_hash) _ w _ refl (
                Succeeds-then (hash_password auth argon2_hash password) _ _ _ refl (
                  Succeeds-then next_serial _ _ _ refl (
                    Succeeds-then (modify _) _ _ _ refl (
                      Succeeds-then _ _ _ _ (audit-ok auth.env _ _ _ _ _ _ refl (ground arith))
                        (refl, refl, refl, refl)))))))))

module _ (auth : AuthEnv) (argon2_hash : ℕ → String → String)
    (actor typed_email password typed : String) (ip user_agent : Option String) (w : World)
    (step : ℕ) (unique : Unique (λ (u : AdminUser). u.admin_user_id) w.admin_users)
    (new_id : first (λ (u : AdminUser). u.admin_user_id == w.serial) w.admin_users ≡ none)
    (free : first (λ (u : AdminUser). u.email == normalize_email auth typed_email) w.admin_users
      ≡ none)
    (valid : (is_email (normalize_email auth typed_email)
        && fits 80 (normalize_email auth typed_email))
      ≡ true)
    (good : (leb 12 (text_length password) && leb (text_length password) 1_024) ≡ true)
    (verifies : auth.argon2_verify (argon2_hash (suc w.asked) password) password ≡ true)
    (code : IsCode auth
      (auth.random_base32 w.asked)
      typed
      (auth.env.clock (suc (suc w.asked)))
      step)
    (fresh : count
        (λ (s : AdminSession).
          s.token_hash == token_hash auth (auth.env.token_urlsafe (suc (suc (suc (suc w.asked))))))
        w.admin_sessions
      ≡ 0) where
  enrolled-login :
      (v : World)
      → v.asked ≡ suc (suc w.asked)
      → v.admin_sessions ≡ w.admin_sessions
      → v.admin_users
        ≡ w.admin_users
          ++ row_of auth argon2_hash (normalize_email auth typed_email) password w ∷ []
      → Succeeds
          (IsEntered auth
            (normalize_email auth typed_email)
            (record v { asked = suc v.asked })
            (row_of auth argon2_hash (normalize_email auth typed_email) password w)
            step)
          (login auth typed_email password typed ip user_agent v)
  unfolding verify_password
  enrolled-login v asked sessions users =
      let email : String = normalize_email auth typed_email in
      let whole : take_text 180 email ≡ email = take_text-all 180 email (ground arith) in
      let row : AdminUser = row_of auth argon2_hash email password w in
      subst
        (λ e.
          Succeeds (IsEntered auth e (record v { asked = suc v.asked }) row step)
            (login auth typed_email password typed ip user_agent v))
        whole
        (login-Entered auth typed_email password typed ip user_agent v row step
          (rw users (
            Unique-append (λ (u : AdminUser). u.admin_user_id) w.admin_users row unique
              (Absent-of_first (λ (u : AdminUser). u.admin_user_id) w.serial w.admin_users new_id)))
          (rw (users, whole) (first-append _ w.admin_users row free (==_refl email)))
          (match_totp_step-ok auth _ typed step v (rw asked code)) refl (ground arith)
          (rw (==_refl w.serial) refl) (rw (asked, sessions) fresh) (rw whole (ground arith)))

  -- An account that the operator creates can log in: with the password that was typed and the six digits
  -- of the secret that was shown, a login on the database after the creation opens a session whose
  -- row names the new account. The e-mail is valid, new and of at most 80 characters, the password has 12 to 1024 characters and is verified against its
  -- hash, no account has the id that is next, and no session has the token that is drawn.
  pub create_admin-login :
      Succeeds
        (λ r v.
          (r ≡ (normalize_email auth typed_email, auth.random_base32 w.asked))
          × Succeeds
              (IsEntered auth
                (normalize_email auth typed_email)
                (record v { asked = suc v.asked })
                (row_of auth argon2_hash (normalize_email auth typed_email) password w)
                step)
              (login auth typed_email password typed ip user_agent v))
        (create_admin auth argon2_hash actor typed_email password w)
  create_admin-login =
      Succeeds-weaken (IsLeft auth argon2_hash (normalize_email auth typed_email) password w) _ _
        (create_admin-leaves auth argon2_hash actor typed_email password w free valid good)
        (λ r v (shown, asked, sessions, users). (shown, enrolled-login v asked sessions users))
