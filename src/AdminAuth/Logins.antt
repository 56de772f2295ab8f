-- ===== src/AdminAuth/Logins.antt =====
-- A login of licensing-master/src/admin_auth.py with both factors right.
use licensing_master.Base.{
  ℕ, suc, ◌≡◌, refl, ap, ◌∙◌, String, ◌==◌, nat_eq, string_eq, ==_refl, true, ◌&&◌, Option, none,
  some, is_some, List, [], ◌∷◌, arith, take_text, fits,
}
use licensing_master.Base.Rows.{
  first, count, update, first-update, count-append, first-uncounted, count-delete_zero,
  first-append,
}
use licensing_master.Base.Keys.{Unique, count-on}
use licensing_master.Tables.{Value, AdminUser, AdminSession}
use licensing_master.Exec.{
  World, ok, now, gets, modify, next_serial, random_token, integrity_error, pure, ◌>>=◌,
}
use licensing_master.Exec.Succeeds.{
  Succeeds, Succeeds-then, Succeeds-bind, Succeeds-weaken, Succeeds-if_true, raise_if-ok,
}
use licensing_master.Service.Rows.{audit}
use licensing_master.Service.Outcomes.{audit-ok}
use licensing_master.AdminAuth.{
  AuthEnv, normalize_email, secret_of, match_totp_step, is_unused, use_step, insert_session,
  create_session, open_session, enter, login, verify_password, token_hash,
}

module _ (auth : AuthEnv) where
  -- an account after a login by the code of `step`
  abbrev pub stepped : ℕ → ℕ → AdminUser → AdminUser
  stepped step at u = record u { totp_last_step = some step; last_login_at = some at }

  use_step-ok :
      (id step : ℕ) (w : World)
      → count (is_unused auth id step) w.admin_users ≡ 1
      → use_step auth id step w ≡ (
        ok 1,
        record w {
          asked = suc w.asked;
          db = record w.db {
            admin_users =
                update
                  (is_unused auth id step)
                  (stepped step (auth.env.clock w.asked))
                  w.admin_users;
          };
        },
      )
  unfolding use_step ◌>>=◌
  use_step-ok id step w one = rw one refl

  -- the row of the token's session is the account's
  abbrev pub IsSessionOf : String → ℕ → World → Type 0
  IsSessionOf raw id v =
      (s : AdminSession) × (first (λ (s : AdminSession). s.token_hash == token_hash auth raw)
          v.admin_sessions
        ≡ some s)
      × (s.admin_user_id ≡ id)
      × (s.revoked_at ≡ none)

  -- the session of the token is there, once, and the accounts are as they were
  abbrev IsOpened : String → ℕ → World → World → Type 0
  IsOpened raw id w v =
      (count (λ (s : AdminSession). s.token_hash == token_hash auth raw) v.admin_sessions ≡ 1)
      × IsSessionOf raw id v
      × (v.admin_users ≡ w.admin_users)

  insert_session-opens :
      (id : ℕ) (raw : String) (at : ℕ) (ip user_agent : Option String) (w : World)
      → count (λ (s : AdminSession). s.token_hash == token_hash auth raw) w.admin_sessions ≡ 0
      → Succeeds (λ _ v. IsOpened raw id w v) (insert_session auth id raw at ip user_agent w)
  unfolding insert_session
  insert_session-opens id raw at ip user_agent w fresh =
      let free : first (λ (s : AdminSession). s.token_hash == token_hash auth raw) w.admin_sessions
          ≡ none =
        first-uncounted _ w.admin_sessions fresh in
      let same : (token_hash auth raw == token_hash auth raw) ≡ true =
        ==_refl (token_hash auth raw) in
      Succeeds-then next_serial _ w _ refl (
        Succeeds-then (gets _) _ _ _ refl (
          Succeeds-then _ _ _ _
            (raise_if-ok
              {b = is_some (
                first (λ (s : AdminSession). s.token_hash == token_hash auth raw) w.admin_sessions)}
              integrity_error _ (rw free refl))
            (
              count-append (λ (s : AdminSession). s.token_hash == token_hash auth raw)
                    w.admin_sessions (_ ∷ [])
                  ∙ ground arith,
              (
                _,
                first-append (λ (s : AdminSession). s.token_hash == token_hash auth raw)
                    w.admin_sessions _ free same,
                refl,
                refl,
              ),
              refl,
            )))

  open_session-opens :
      (email : String) (ip user_agent : Option String) (id : ℕ) (w : World)
      → count
          (λ (s : AdminSession). s.token_hash == token_hash auth (auth.env.token_urlsafe w.asked))
          w.admin_sessions
        ≡ 0
      → fits 80 email ≡ true
      → Succeeds
          (λ r v.
            (r ≡ some (auth.env.token_urlsafe w.asked, email))
            × IsOpened (auth.env.token_urlsafe w.asked) id w v)
          (open_session auth email ip user_agent id w)
  unfolding open_session create_session
  open_session-opens email ip user_agent id w fresh short =
      Succeeds-bind (λ raw v. (raw ≡ auth.env.token_urlsafe w.asked) × IsOpened raw id w v) _ _ _ w
        (Succeeds-then (random_token auth.env) _ w _ refl (
          Succeeds-then (now auth.env) _ _ _ refl (
            Succeeds-then (modify _) _ _ _ refl (
              Succeeds-bind (λ _ v. IsOpened (auth.env.token_urlsafe w.asked) id w v) _ _ _ _
                (insert_session-opens id _ _ ip user_agent _
                  (count-delete_zero _ _ w.admin_sessions fresh))
                (λ _ v h. (refl, h))))))
        (λ raw v (same, h). audited raw v same h ip)
    where
      audited :
          (raw : String) (v : World)
          → raw ≡ auth.env.token_urlsafe w.asked
          → IsOpened raw id w v
          → (a : Option String)
          → Succeeds
              (λ (r : Option (String × String)) u.
                (r ≡ some (auth.env.token_urlsafe w.asked, email))
                × IsOpened (auth.env.token_urlsafe w.asked) id w u)
              ((audit auth.env email "admin.login" "admin_user" email
                    (some (("ip", elim a [ none ↦ Value.null | some s ↦ Value.text s ]) ∷ []))
                  >>= λ _. pure (some (raw, email)))
                v)
      audited raw v same h none =
          Succeeds-then _ _ v _ (audit-ok auth.env _ _ _ _ _ _ refl short)
            (ap (λ x. some (x, email)) same, rw same at h)
      audited raw v same h (some a) =
          Succeeds-then _ _ v _ (audit-ok auth.env _ _ _ _ _ _ refl short)
            (ap (λ x. some (x, email)) same, rw same at h)

  -- one session for the new token, and the account of the email has used up the step
  abbrev pub IsEntered : String → World → AdminUser → ℕ → Option (String × String) → World → Type 0
  IsEntered email w u step r v =
      (r ≡ some (auth.env.token_urlsafe (suc w.asked), email))
      × (count
            (λ (s : AdminSession).
              s.token_hash == token_hash auth (auth.env.token_urlsafe (suc w.asked)))
            v.admin_sessions
          ≡ 1)
      × IsSessionOf (auth.env.token_urlsafe (suc w.asked)) u.admin_user_id v
      × (first (λ (x : AdminUser). x.email == email) v.admin_users
          ≡ some (stepped step (auth.env.clock w.asked) u))

  -- the account that a login by `step` leaves under the email
  stepped_found :
      (email : String) (step at : ℕ) (users : List AdminUser) (u : AdminUser)
      → first (λ (x : AdminUser). x.email == email) users ≡ some u
      → is_unused auth u.admin_user_id step u ≡ true
      → first
          (λ (x : AdminUser). x.email == email)
          (update (is_unused auth u.admin_user_id step) (stepped step at) users)
        ≡ some (stepped step at u)
  stepped_found email step at users u found unused =
      first-update (λ (x : AdminUser). x.email == email) (is_unused auth u.admin_user_id step)
        (stepped step at) users {x = u} (λ _. refl) found
      ∙ rw unused refl

  enter-Entered :
      (email : String) (ip user_agent : Option String) (w : World) (u : AdminUser) (step : ℕ)
      → count (is_unused auth u.admin_user_id step) w.admin_users ≡ 1
      → first (λ (x : AdminUser). x.email == email) w.admin_users ≡ some u
      → is_unused auth u.admin_user_id step u ≡ true
      → u.is_active ≡ true
      → count
          (λ (s : AdminSession).
            s.token_hash == token_hash auth (auth.env.token_urlsafe (suc w.asked)))
          w.admin_sessions
        ≡ 0
      → fits 80 email ≡ true
      → Succeeds
          (IsEntered email w u step)
          (enter auth email ip user_agent true (some u) (some step) w)
  unfolding enter
  enter-Entered email ip user_agent w u step one found unused active fresh short =
      Succeeds-if_true _ (u.is_active && true) _ _ _ (rw active refl) (
        Succeeds-then _ _ w _ (use_step-ok u.admin_user_id step w one) (
          Succeeds-weaken
            (λ r v.
              (r ≡ some (auth.env.token_urlsafe (suc w.asked), email))
              × IsOpened (auth.env.token_urlsafe (suc w.asked)) u.admin_user_id after v)
            (IsEntered email w u step) (open_session auth email ip user_agent u.admin_user_id after)
            (open_session-opens email ip user_agent u.admin_user_id after fresh short)
            (λ r v (same, (opened, owned, users)). (
              same,
              opened,
              owned,
              ap (first (λ (x : AdminUser). x.email == email)) users
                  ∙ stepped_found email step (auth.env.clock w.asked) w.admin_users u found unused,
            ))))
    where
      after : World
      after = record w {
        asked = suc w.asked;
        db = record w.db {
          admin_users =
              update (is_unused auth u.admin_user_id step) (stepped step (auth.env.clock w.asked))
                w.admin_users;
        };
      }

module _ (auth : AuthEnv) (typed_email password typed : String) (ip user_agent : Option String)
    (w : World) (u : AdminUser) (step : ℕ)
    (unique : Unique (λ (x : AdminUser). x.admin_user_id) w.admin_users)
    (found : first
        (λ (x : AdminUser). x.email == take_text 180 (normalize_email auth typed_email))
        w.admin_users
      ≡ some u)
    (matched : match_totp_step auth u.totp_secret typed w
      ≡ (ok (some step), record w { asked = suc w.asked }))
    (active : u.is_active ≡ true) (known : verify_password auth u.password_hash password ≡ true)
    (unused : is_unused auth u.admin_user_id step u ≡ true)
    (fresh : count
        (λ (s : AdminSession).
          s.token_hash == token_hash auth (auth.env.token_urlsafe (suc (suc w.asked))))
        w.admin_sessions
      ≡ 0)
    (short : fits 80 (take_text 180 (normalize_email auth typed_email)) ≡ true) where
  -- A login with the password of an active account and a code whose step is later than the last one
  -- used returns a new token, for which there is one session, that of the account, and the account has
  -- used up the step. The keys of the accounts are unique, no session has the new token yet, and the
  -- e-mail has at most 80 characters, the width of the audit log's target.
  pub login-Entered :
      Succeeds
        (IsEntered auth
          (take_text 180 (normalize_email auth typed_email))
          (record w { asked = suc w.asked })
          u
          step)
        (login auth typed_email password typed ip user_agent w)
  unfolding login secret_of
  login-Entered = Succeeds-then (gets _) _ w _ refl (
      rw found (
        Succeeds-then (secret_of auth (some u)) _ w _ refl (
          Succeeds-then _ _ w _ matched (
            rw known (
              enter-Entered auth _ ip user_agent (record w { asked = suc w.asked }) u step one found
                unused active fresh short)))))
    where
      one : count (is_unused auth u.admin_user_id step) w.admin_users ≡ 1
      one =
          count-on (λ (x : AdminUser). x.admin_user_id) (is_unused auth u.admin_user_id step) _
            w.admin_users {r = u} (λ x on. ground arith) unique found unused
