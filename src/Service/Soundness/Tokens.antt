-- ===== src/Service/Soundness/Tokens.antt =====
-- Issuing and revoking batch tokens, in licensing-master/src/service.py.
use licensing_master.Base.{suc, ◌≡◌, refl, ◌==◌, nat_eq, string_eq, String, ℕ, true, false, is_some}
use licensing_master.Base.Int.{ℤ, pos, negsuc}
use licensing_master.Base.Rows.{first, update}
use licensing_master.Tables.{BatchToken}
use licensing_master.Exec.{Env, World, Returns, integrity_error, modify, next_serial, raise_if}
use licensing_master.Exec.Returns.{
  Returns-bind, Returns-then, Returns-gets, Returns-raise_if, Returns-random_token,
}
use licensing_master.Exec.Keeps.{Keeps, Keeps-bind, Keeps-gets, Keeps-modify}
use licensing_master.Service.Tenants.{check_nonneg}
use licensing_master.Service.Billing.{
  TokenBody, positive_quota, insert_token, admin_generate_batch_token, admin_revoke_batch_token,
}
use licensing_master.Service.Accounting.Activation.{tenant_row-Returns, subscription_row-Returns}
use licensing_master.Service.Ownership.{owner}
use licensing_master.Service.Ownership.UseCases.{owner-sub}
use licensing_master.Service.Soundness.{IsSound, Sound-issue, Sound-mark}
use licensing_master.Service.Soundness.Admin.{admin_rules, keep_audit}

check_nonneg-Returns : (z : ℤ) (w : World) → Returns (λ _ v. Unit {0} × (v ≡ w)) (check_nonneg z w)
check_nonneg-Returns (pos n) w = (tt, refl)
check_nonneg-Returns (negsuc n) w = tt

module _ (env : Env) (actor : String) where
  insert_token-Returns :
      (k : ℕ) (token : String) (quota : ℕ) (body : TokenBody) (w : World)
      → IsSound w.db
      → is_some (owner k w.subscriptions) ≡ true
      → Returns (λ _ v. IsSound v.db) (insert_token env k token quota body w)
  unfolding insert_token
  insert_token-Returns k token quota body w h has =
      Returns-then (λ _ v. IsSound v.db) (λ id. id ≡ w.serial) next_serial _ w
        (record w { db = record w.db { serial = suc w.serial } }) (refl, refl)
        (λ id e.
          Returns-gets (λ _ v. IsSound v.db) _ _ _
            (Returns-then (λ _ v. IsSound v.db)
              (λ _. is_some (first (λ (t : BatchToken). t.token == token) w.batch_tokens) ≡ false)
              (raise_if _ integrity_error) _ _
              (record w { db = record w.db { serial = suc w.serial } })
              (Returns-raise_if _ integrity_error _)
              (λ _ _.
                Returns-bind (λ _ v. IsSound v.db) (λ _ v. IsSound v.db) (modify _) _ _
                  (Sound-issue _ w.batch_tokens _ _ h _ e refl has) (λ _ _ k. k))))

  positive_quota-Returns :
      (z : ℤ) (w : World) → Returns (λ _ v. Unit {0} × (v ≡ w)) (positive_quota z w)
  unfolding positive_quota
  positive_quota-Returns z w =
      Returns-then _ _ _ _ w w (Returns-raise_if _ _ w) λ _ _. check_nonneg-Returns z w

  pub admin_generate_batch_token-IsSound :
      (k : ℕ) (body : TokenBody) → Keeps IsSound (admin_generate_batch_token env actor k body)
  unfolding admin_generate_batch_token
  admin_generate_batch_token-IsSound k body = record {
    kept = λ w h. Returns-then _ _ _ _ w w (tenant_row-Returns k w) λ t _.
        Returns-then _ _ _ _ w w (subscription_row-Returns k w) λ sub found.
          Returns-then _ (λ _. Unit {0}) _ _ w w (positive_quota-Returns _ w)
            λ quota _. Returns-random_token _ env _ w (
              Returns-bind _ (λ _ v. IsSound v.db) _ _ _
                (insert_token-Returns sub.subscription_id _ quota body _ h
                  (rw (owner-sub w k sub h.owned found sub.subscription_id refl) refl))
                λ row v hv.
                  Returns-bind _ (λ _ u. IsSound u.db) _ _ v ((keep_audit env _ _ _ _ _).kept v hv)
                    λ _ _ hu. hu);
  }

  pub admin_revoke_batch_token-IsSound :
      (id : ℕ) → Keeps IsSound (admin_revoke_batch_token env actor id)
  unfolding admin_revoke_batch_token
  admin_revoke_batch_token-IsSound id =
      Keeps-bind _ _ (Keeps-gets _)
        (λ found. Keeps-bind _ _ keep_revoke (λ _. search admin_rules depth 20))
    where
      keep_revoke : Keeps IsSound (
          modify (λ db. record db {
            batch_tokens =
                update
                  (λ t. t.batch_token_id == id)
                  (λ t. record t { is_revoked = true })
                  db.batch_tokens;
          }))
      keep_revoke =
          Keeps-modify _
            (λ db h. Sound-mark _ _ _ _ h _ _ (λ _. refl) (λ _. refl) (λ _. refl) (λ _. refl))
