-- ===== src/AdminAuth/Codes.antt =====
-- A one-time code is good once: what `login` of licensing-master/src/admin_auth.py does with a code
-- whose step is used.
use licensing_master.Base.{
  ℕ, suc, ◌≤◌, ◌≡◌, refl, String, ◌==◌, nat_eq, string_eq, Bool, false, Option, none, some, ◌&&◌,
  arith, take_text, Bool-cases, inl, inr, fits, true, ◌⊎◌, ap, [], ◌∷◌,
}
use licensing_master.Base.Rows.{first, count, update-unmatched}
use licensing_master.Base.Keys.{Unique, count-off}
use licensing_master.Tables.{AdminUser, Value}
use licensing_master.Exec.{World, ok, gets, ◌>>=◌, Result, err, Exec, data_error, transaction}
use licensing_master.Exec.Succeeds.{Succeeds, Succeeds-then, bind-ok, Fails, Fails-first}
use licensing_master.Service.Outcomes.{audit-ok, audit-wide}
use licensing_master.AdminAuth.{
  AuthEnv, normalize_email, secret_of, match_totp_step, is_unused, use_step, login_failed, enter,
  login,
}
use licensing_master.Service.Rows.{is_json}

-- nobody is let in, and the accounts and the sessions are as they were; the audit entry of a refusal raises
-- where its target is too wide for the column
abbrev pub IsShut : String → World → Result (Option (String × String)) × World → Type 0
IsShut email w (r, v) =
    ((r ≡ ok none) ⊎ ((r ≡ err data_error) × (fits 80 email ≡ false)))
    × (v.admin_users ≡ w.admin_users)
    × (v.admin_sessions ≡ w.admin_sessions)

module _ (auth : AuthEnv) where
  -- a login that is refused, or raises
  abbrev IsFailed : String → World → Result (Option (String × String)) × World → Type 0
  IsFailed email w p =
      Succeeds
        (λ r v.
          (r ≡ none) × (v.admin_users ≡ w.admin_users) × (v.admin_sessions ≡ w.admin_sessions))
        p
      ⊎ (Fails data_error p × (fits 80 email ≡ false))

  IsFailed-then :
      {B : Type 0} (email : String) (w : World) (m : Exec B)
      (f : B → Exec (Option (String × String))) (u : World) {a : B} {v : World}
      → m u ≡ (ok a, v)
      → IsFailed email w (f a v)
      → IsFailed email w ((m >>= f) u)
  IsFailed-then email w m f u e h = rw (bind-ok m f u e) h

  login_failed-IsFailed :
      (email : String) (ip : Option String) (w : World)
      → IsFailed email w (login_failed auth email ip w)
  unfolding login_failed
  login_failed-IsFailed email ip w = elim (Bool-cases (fits 80 email)) [
    | inl short ↦ inl (refused ip short)
    | inr wide ↦
        inr (Fails-first _ _ w data_error (audit-wide auth.env _ _ _ _ _ w (written ip) wide), wide)
  ]
    where
      written :
          (ip : Option String)
          → is_json (some (("ip", elim ip [ none ↦ Value.null | some s ↦ Value.text s ]) ∷ []))
            ≡ true
      written none = refl
      written (some a) = refl

      refused :
          (ip : Option String)
          → fits 80 email ≡ true
          → Succeeds
              (λ r v.
                (r ≡ none)
                × (v.admin_users ≡ w.admin_users)
                × (v.admin_sessions ≡ w.admin_sessions))
              (login_failed auth email ip w)
      refused none short =
          Succeeds-then _ _ w _ (audit-ok auth.env _ _ _ _ _ _ refl short) (refl, refl, refl)
      refused (some a) short =
          Succeeds-then _ _ w _ (audit-ok auth.env _ _ _ _ _ _ refl short) (refl, refl, refl)

  use_step-used :
      (id step : ℕ) (w : World)
      → count (is_unused auth id step) w.admin_users ≡ 0
      → use_step auth id step w ≡ (ok 0, record w { asked = suc w.asked })
  unfolding use_step ◌>>=◌
  use_step-used id step w none_left =
      rw (none_left, update-unmatched (is_unused auth id step) _ w.admin_users none_left) refl

  enter-used :
      (email : String) (ip user_agent : Option String) (password_ok : Bool) (u : AdminUser)
      (step : ℕ) (w : World)
      → count (is_unused auth u.admin_user_id step) w.admin_users ≡ 0
      → IsFailed email w (enter auth email ip user_agent password_ok (some u) (some step) w)
  unfolding enter
  enter-used email ip user_agent password_ok u step w none_left =
      elim (Bool-cases (u.is_active && password_ok)) [
        | inl on ↦ rw on (
            IsFailed-then email w _ _ w (use_step-used u.admin_user_id step w none_left)
              (login_failed-IsFailed email ip (record w { asked = suc w.asked })))
        | inr off ↦ rw off (login_failed-IsFailed email ip w)
      ]

  settle-IsShut :
      (email : String) (w : World) (r : Result (Option (String × String))) (v : World)
      → IsFailed email w (r, v)
      → IsShut email w (transaction (λ _. (r, v)) w)
  unfolding transaction
  settle-IsShut email w (ok o) v (inl (same, users, sessions)) = (inl (ap ok same), users, sessions)
  settle-IsShut email w (ok o) v (inr (e, wide)) = absurd (cc)
  settle-IsShut email w (err e) v (inl h) = absurd h
  settle-IsShut email w (err e) v (inr (same, wide)) = (inr (same, wide), refl, refl)

  transaction-IsShut :
      (email : String) (w : World) (m : Exec (Option (String × String)))
      → IsFailed email w (m w)
      → IsShut email w (transaction m w)
  unfolding transaction
  transaction-IsShut email w m h = let (r, v) = m w in settle-IsShut email w r v h

  -- A code is of no more use once its step, or a later one, is the last that the account has used: the
  -- login returns nobody, whatever the password, or raises where the e-mail is too wide for the audit
  -- log, and its transaction leaves the accounts and the sessions as they were.
  pub login-replayed :
      (typed_email password typed : String) (ip user_agent : Option String) (w : World)
      (u : AdminUser) (step last : ℕ)
      → Unique (λ (u : AdminUser). u.admin_user_id) w.admin_users
      → first
          (λ (u : AdminUser). u.email == take_text 180 (normalize_email auth typed_email))
          w.admin_users
        ≡ some u
      → match_totp_step auth u.totp_secret typed w
        ≡ (ok (some step), record w { asked = suc w.asked })
      → u.totp_last_step ≡ some last
      → step ≤ last
      → IsShut
          (take_text 180 (normalize_email auth typed_email))
          w
          (transaction (login auth typed_email password typed ip user_agent) w)
  login-replayed typed_email password typed ip user_agent w u step last unique found matched used
        le =
      let spent : is_unused auth u.admin_user_id step u ≡ false = rw used (ground arith) in
      let none_left : count (is_unused auth u.admin_user_id step) w.admin_users ≡ 0 =
        count-off (λ (u : AdminUser). u.admin_user_id) (is_unused auth u.admin_user_id step) _
          w.admin_users {r = u} (λ x on. ground arith) unique found spent in
      transaction-IsShut _ w _ (
        unfold login secret_of in
        IsFailed-then _ w (gets _) _ w refl (
          rw found (
            IsFailed-then _ w (secret_of auth (some u)) _ w refl (
              IsFailed-then _ w _ _ w matched (
                enter-used _ ip user_agent _ u step (record w { asked = suc w.asked })
                  none_left)))))
