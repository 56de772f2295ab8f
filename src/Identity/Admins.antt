-- ===== src/Identity/Admins.antt =====
-- Whom the session cookie stands for, in licensing-master/src/auth.py.
use licensing_master.Base.{
  ◌≡◌, refl, String, ◌==◌, nat_eq, string_eq, Bool, true, false, not, ◌||◌, Option, none, some,
  is_some, arith, Bool-cases, inl, inr, if◌then◌else◌,
}
use licensing_master.Base.Rows.{first}
use licensing_master.Exec.{World, Result, ok, err, unauthorized, now, modify, or_raise, ◌>>=◌}
use licensing_master.Exec.Succeeds.{Succeeds, Succeeds-then, Succeeds-if_true, Succeeds-if_false}
use licensing_master.AdminAuth.{
  AuthEnv, SessionRow, with_user, token_hash, find_session, is_open, slide, resolve_row,
  resolve_session,
}
use licensing_master.AdminAuth.Sessions.{is_good}
use licensing_master.Identity.{Headers, resolve_cookie, admin_identity}

module _ (auth : AuthEnv) where
  -- the session of the cookie with its user
  abbrev pub session_of : Headers → World → Option SessionRow
  session_of h w = elim h.session_cookie [
    | none ↦ none
    | some raw ↦
        if raw == ""
        then none
        else with_user w.admin_users
            (first (λ s. s.token_hash == token_hash auth raw) w.admin_sessions)
  ]

  -- the e-mail of the row's user, if the session is good now
  abbrev pub good_email : World → Option SessionRow → Option String
  good_email w none = none
  good_email w (some r) =
      if is_good auth (auth.env.clock w.asked) r then some r.user.email else none

  -- the admin whom a request comes from: the cookie has a session that is neither revoked nor expired
  -- nor idle for too long, of a user who is active
  abbrev pub admitted : Headers → World → Option String
  admitted h w = good_email w (session_of h w)

  -- the database after the check of a session: only a session that is good is written to
  abbrev pub IsSlid : Bool → World → World → Type 0
  IsSlid good w v =
      v.db ≡ (if good then record w.db { admin_sessions = v.admin_sessions } else w.db)

  abbrev Decides : Option SessionRow → World → Option String → World → Type 0
  Decides o w e v = (e ≡ good_email w o) × IsSlid (is_some e) w v

  resolve_row-Decides :
      (o : Option SessionRow) (w : World) → Succeeds (Decides o w) (resolve_row auth o w)
  unfolding resolve_row slide
  resolve_row-Decides none w = (refl, refl)
  resolve_row-Decides (some r) w =
      elim (Bool-cases (is_some r.session.revoked_at || not r.user.is_active)) [
        | inl shut ↦
            Succeeds-if_true _ (is_some r.session.revoked_at || not r.user.is_active) _ _ w shut
              (ground arith, refl)
        | inr live ↦
            Succeeds-if_false _ (is_some r.session.revoked_at || not r.user.is_active) _ _ w live (
              Succeeds-then (now auth.env) _ w _ refl
                (elim (Bool-cases (is_open auth (auth.env.clock w.asked) r)) [
                  | inl on ↦
                      Succeeds-if_true _ (is_open auth (auth.env.clock w.asked) r) _ _ _ on
                        (Succeeds-then (modify _) _ _ _ refl (ground arith, refl))
                  | inr off ↦
                      Succeeds-if_false _ (is_open auth (auth.env.clock w.asked) r) _ _ _ off
                        (ground arith, refl)
                ]))
      ]

  resolve_cookie-Decides :
      (h : Headers) (w : World)
      → Succeeds (Decides (session_of h w) w) (resolve_cookie auth h.session_cookie w)
  resolve_cookie-Decides h w = cookie h.session_cookie
    where
      text :
          (b : Bool) (raw : String)
          → Succeeds
              (Decides
                (if b
                  then none
                  else with_user w.admin_users
                      (first (λ s. s.token_hash == token_hash auth raw) w.admin_sessions))
                w)
              ((if b then (λ v. (ok none, v)) else resolve_session auth raw) w)
      text true raw = (refl, refl)
      text false raw =
          unfold resolve_session find_session in
          Succeeds-then _ _ w _ refl (resolve_row-Decides _ w)

      cookie :
          (c : Option String)
          → Succeeds
              (Decides
                (elim c [
                  | none ↦ none
                  | some raw ↦
                      if raw == ""
                      then none
                      else with_user w.admin_users
                          (first (λ s. s.token_hash == token_hash auth raw) w.admin_sessions)
                ])
                w)
              (resolve_cookie auth c w)
      cookie none = (refl, refl)
      cookie (some raw) = text (raw == "") raw

  -- what `admin_identity` comes to
  abbrev pub identified : Option String → Result String
  identified none = err unauthorized
  identified (some email) = ok email

  settle :
      (o : Option SessionRow) (w : World) (p : Result (Option String) × World)
      → Succeeds (Decides o w) p
      → ((((λ _. p) >>= λ e. or_raise e unauthorized) w).0 ≡ identified (good_email w o))
        × IsSlid (is_some (good_email w o)) w (((λ _. p) >>= λ e. or_raise e unauthorized) w).1
  unfolding ◌>>=◌
  settle o w (ok none, v) (same, kept) = rw (← same) (refl, kept)
  settle o w (ok (some email), v) (same, kept) = rw (← same) (refl, kept)
  settle o w (err e, v) h = elim h [ ]

  -- The identity of a request is the admin who is admitted; the check writes to sessions only, and
  -- writes nothing where nobody is admitted.
  pub admin_identity-admitted :
      (h : Headers) (w : World)
      → ((admin_identity auth h w).0 ≡ identified (admitted h w))
        × IsSlid (is_some (admitted h w)) w (admin_identity auth h w).1
  unfolding admin_identity ◌>>=◌
  admin_identity-admitted h w =
      settle (session_of h w) w (resolve_cookie auth h.session_cookie w)
        (resolve_cookie-Decides h w)
