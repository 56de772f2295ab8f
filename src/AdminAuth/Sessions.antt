-- ===== src/AdminAuth/Sessions.antt =====
-- The sessions of licensing-master/src/admin_auth.py: for whom a cookie stands, and logging out.
use licensing_master.Base.{
  ℕ, ◌≡◌, refl, sym, ◌∙◌, String, ◌==◌, nat_eq, string_eq, Bool, true, not, ◌&&◌, ◌||◌, Option,
  none, some, is_some, List, arith, Bool-cases, inl, inr, if◌then◌else◌, ==_refl, ltb, leb, ◌+◌,
  ◌*◌, ◌<◌, ◌≤◌, ◌⊎◌, ap, false,
}
use licensing_master.Base.Rows.{first, update, first-update, first-unmet}
use licensing_master.Base.Keys.{Unique, first-Unique}
use licensing_master.Tables.{AdminUser, AdminSession}
use licensing_master.Exec.{World, now, modify}
use licensing_master.Exec.Succeeds.{
  Succeeds, Succeeds-then, Succeeds-if_true, Succeeds-if_false, Succeeds-weaken,
}
use licensing_master.AdminAuth.{
  AuthEnv, SessionRow, with_user, token_hash, find_session, is_open, slide, resolve_row,
  resolve_session, revoke_row, revoke_session,
}
use licensing_master.Limiter.{us_per_second}

with_user-some :
    (users : List AdminUser) (s : AdminSession) {u : AdminUser}
    → first (λ (u : AdminUser). u.admin_user_id == s.admin_user_id) users ≡ some u
    → with_user users (some s) ≡ some (record { session = s; user = u })
with_user-some users s e = rw (e, with_user) refl

with_user-none :
    (users : List AdminUser) (s : AdminSession)
    → first (λ (u : AdminUser). u.admin_user_id == s.admin_user_id) users ≡ none
    → with_user users (some s) ≡ none
with_user-none users s e = rw (e, with_user) refl

module _ (auth : AuthEnv) where
  -- the cookie stands for the admin: neither revoked nor disabled nor expired nor idle for too long
  abbrev pub is_good : ℕ → SessionRow → Bool
  is_good at r =
      not (is_some r.session.revoked_at)
      && r.user.is_active
      && ltb at r.session.expires_at
      && leb at (r.session.last_seen_at + auth.idle_seconds * us_per_second)

  resolve_row-good :
      (r : SessionRow) (w : World)
      → Succeeds
          (λ o v. o ≡ (if is_good (auth.env.clock w.asked) r then some r.user.email else none))
          (resolve_row auth (some r) w)
  unfolding resolve_row slide
  resolve_row-good r w = elim (Bool-cases (is_some r.session.revoked_at || not r.user.is_active)) [
    | inl shut ↦
        Succeeds-if_true _ (is_some r.session.revoked_at || not r.user.is_active) _ _ w shut
          (ground arith)
    | inr live ↦
        Succeeds-if_false _ (is_some r.session.revoked_at || not r.user.is_active) _ _ w live (
          Succeeds-then (now auth.env) _ w _ refl
            (elim (Bool-cases (is_open auth (auth.env.clock w.asked) r)) [
              | inl on ↦
                  Succeeds-if_true _ (is_open auth (auth.env.clock w.asked) r) _ _ _ on
                    (Succeeds-then (modify _) _ _ _ refl (ground arith))
              | inr off ↦
                  Succeeds-if_false _ (is_open auth (auth.env.clock w.asked) r) _ _ _ off
                    (ground arith)
            ]))
  ]

  abbrev by_cookie : String → AdminSession → Bool
  by_cookie raw s = s.token_hash == token_hash auth raw

  -- the session is not revoked, its user is active, its end is to come, and it was seen within the idle
  -- time
  abbrev pub IsGood : ℕ → AdminSession → AdminUser → Type 0
  IsGood at s u =
      (s.revoked_at ≡ none)
      × (u.is_active ≡ true)
      × (at < s.expires_at)
      × (at ≤ s.last_seen_at + auth.idle_seconds * us_per_second)

  -- what a cookie stands for at a time, its session and its user being there
  abbrev pub IsResolved : ℕ → AdminSession → AdminUser → Option String → Type 0
  IsResolved at s u o = ((o ≡ some u.email) × IsGood at s u) ⊎ ((o ≡ none) × (IsGood at s u → ⊥))

  is_good-IsResolved :
      (at : ℕ) (s : AdminSession) (u : AdminUser)
      → IsResolved at s u
          (if is_good at (record { session = s; user = u }) then some u.email else none)
  is_good-IsResolved at s u = elim (Bool-cases (is_good at (record { session = s; user = u }))) [
    | inl good ↦ rw good (
        inl
          (refl, (unrevoked s.revoked_at (ground arith), ground arith, ground arith, ground arith)))
    | inr bad ↦ rw bad (
        inr (
          refl,
          λ (a, b, c, d).
              let off : is_some s.revoked_at ≡ false = ap is_some a in absurd (ground arith),
        ))
  ]
    where
      unrevoked : (o : Option ℕ) → is_some o ≡ false → o ≡ none
      unrevoked none h = refl
      unrevoked (some t) h = absurd (cc)

  -- A cookie whose session is there with its user stands for the user where the session is not revoked,
  -- the user is active, and now is before the session's end and within the idle time since it was last
  -- seen, and for nobody where one of these fails.
  pub resolve_session-good :
      (raw : String) (w : World) (s : AdminSession) (u : AdminUser)
      → first (λ (s : AdminSession). s.token_hash == token_hash auth raw) w.admin_sessions ≡ some s
      → first (λ (u : AdminUser). u.admin_user_id == s.admin_user_id) w.admin_users ≡ some u
      → Succeeds (λ o _. IsResolved (auth.env.clock w.asked) s u o) (resolve_session auth raw w)
  unfolding resolve_session find_session
  resolve_session-good raw w s u found owner = Succeeds-then _ _ w _ refl (
      rw (found, with_user-some w.admin_users s owner)
        (Succeeds-weaken _ _ (resolve_row auth (some (record { session = s; user = u })) w)
          (resolve_row-good (record { session = s; user = u }) w)
          (λ o v e. rw e (is_good-IsResolved (auth.env.clock w.asked) s u))))

  resolve_session-shut :
      (raw : String) (w : World)
      → ((s : AdminSession)
          → first (by_cookie raw) w.admin_sessions ≡ some s
          → is_some s.revoked_at ≡ true)
      → Succeeds (λ o _. o ≡ none) (resolve_session auth raw w)
  unfolding resolve_session find_session
  resolve_session-shut raw w shut =
      Succeeds-then _ _ w _ refl (session (first (by_cookie raw) w.admin_sessions) shut)
    where
      joined :
          (s : AdminSession) (o : Option AdminUser)
          → is_some s.revoked_at ≡ true
          → Succeeds
              (λ o _. o ≡ none)
              (resolve_row auth
                (elim o [ none ↦ none | some u ↦ some (record { session = s; user = u }) ])
                w)
      joined s none dead = unfold resolve_row in refl
      joined s (some u) dead =
          unfold resolve_row in
          Succeeds-if_true (λ o _. o ≡ none) (is_some s.revoked_at || not u.is_active) _ _ w
            (ground arith) refl

      session :
          (o : Option AdminSession)
          → ((s : AdminSession) → o ≡ some s → is_some s.revoked_at ≡ true)
          → Succeeds (λ o _. o ≡ none) (resolve_row auth (with_user w.admin_users o) w)
      session none h = unfold resolve_row in refl
      session (some s) h =
          joined s (first (λ u. u.admin_user_id == s.admin_user_id) w.admin_users) (h s refl)

  resolve_session-lost :
      (raw : String) (w : World) (s : AdminSession)
      → first (by_cookie raw) w.admin_sessions ≡ some s
      → first (λ (u : AdminUser). u.admin_user_id == s.admin_user_id) w.admin_users ≡ none
      → Succeeds (λ o _. o ≡ none) (resolve_session auth raw w)
  unfolding resolve_session find_session resolve_row
  resolve_session-lost raw w s found lost =
      Succeeds-then _ _ w _ refl (rw (found, with_user-none w.admin_users s lost) refl)

  -- the world in which the cookie stands for nobody
  abbrev pub IsLoggedOut : String → Option String → World → Type 0
  IsLoggedOut raw _ v = Succeeds (λ o _. o ≡ none) (resolve_session auth raw v)

  revoke_row-out :
      (raw : String) (w : World) (s : AdminSession)
      → first (by_cookie raw) w.admin_sessions ≡ some s
      → (o : Option AdminUser)
      → first (λ (u : AdminUser). u.admin_user_id == s.admin_user_id) w.admin_users ≡ o
      → Succeeds (IsLoggedOut raw) (revoke_row auth (with_user w.admin_users (some s)) w)
  unfolding revoke_row
  revoke_row-out raw w s found none lost =
      rw (with_user-none w.admin_users s lost) (resolve_session-lost raw w s found lost)
  revoke_row-out raw w s found (some u) owner = rw (with_user-some w.admin_users s owner) (
      Succeeds-then (now auth.env) _ w (IsLoggedOut raw) refl (
        Succeeds-then (modify _) _ _ (IsLoggedOut raw) refl
          (resolve_session-shut raw _ (λ s' e. dead s' (sym e ∙ kept)))))
    where
      kept :
          first (by_cookie raw) (
            update
              (λ x. x.admin_session_id == s.admin_session_id)
              (λ x. record x { revoked_at = some (auth.env.clock w.asked) })
              w.admin_sessions)
          ≡ some (record s { revoked_at = some (auth.env.clock w.asked) })
      kept =
          let found' : first (by_cookie raw) (
                update (λ x. x.admin_session_id == s.admin_session_id)
                  (λ x. record x { revoked_at = some (auth.env.clock w.asked) }) w.admin_sessions)
              ≡ some (
                  if s.admin_session_id == s.admin_session_id
                  then record s { revoked_at = some (auth.env.clock w.asked) }
                  else s) =
            first-update (by_cookie raw) (λ x. x.admin_session_id == s.admin_session_id) _
              w.admin_sessions (λ _. refl) found in
          rw (==_refl s.admin_session_id) at found'

      dead :
          (s' : AdminSession)
          → some s' ≡ some (record s { revoked_at = some (auth.env.clock w.asked) })
          → is_some s'.revoked_at ≡ true
      dead s' e = ground arith

  -- After a logout the cookie stands for nobody, whether or not it stood for someone before.
  pub revoke_session-out :
      (raw : String) (w : World)
      → Unique (λ (s : AdminSession). s.token_hash) w.admin_sessions
      → Succeeds (IsLoggedOut raw) (revoke_session auth raw w)
  unfolding revoke_session find_session
  revoke_session-out raw w unique = Succeeds-then _ _ w (IsLoggedOut raw) refl (split _ refl)
    where
      split :
          (o : Option AdminSession)
          → first
              (λ (s : AdminSession).
                s.token_hash == token_hash auth raw && not (is_some s.revoked_at))
              w.admin_sessions
            ≡ o
          → Succeeds (IsLoggedOut raw) (revoke_row auth (with_user w.admin_users o) w)
      split none missing =
          unfold revoke_row in
          resolve_session-shut raw w (λ s e.
            let unmet =
              first-unmet (by_cookie raw) (λ (s : AdminSession). not (is_some s.revoked_at))
                w.admin_sessions missing e in
            ground arith)
      split (some s) found =
          revoke_row-out raw w s
            (first-Unique (λ (s : AdminSession). s.token_hash)
              (λ (s : AdminSession). not (is_some s.revoked_at)) (token_hash auth raw)
              w.admin_sessions unique found)
            _ refl
