-- ===== src/Service/Billing/Unpatchable.antt =====
-- What `admin_patch_subscription` of licensing-master/src/service.py comes to.
use licensing_master.Base.{ℕ, String, ◌≡◌, refl, some, ◌∷◌}
use licensing_master.Exec.{Env, World, Returns, Result, ok, err, Error, transaction, now, ◌>>=◌}
use licensing_master.Exec.Returns.{Returns-bind}
use licensing_master.Exec.Succeeds.{transaction-Fails}
use licensing_master.Service.Rows.{audit}
use licensing_master.Service.Billing.Patch.{
  SubscriptionPatch, patched_values, admin_patch_subscription,
}
use licensing_master.Tables.{Payload, Value}

refused : {A : Type 0} (r : Result A × World) → Returns (λ _ _. ⊥) r → (e : Error) × (r.0 ≡ err e)
refused (ok a, w) h = absurd h
refused (err e, w) h = (e, refl)

-- A payload that holds a timestamp is no JSON.
audit-datetime :
    (env : Env) (actor action kind target key : String) (at : ℕ) (rest : Payload) (w : World)
    → Returns
        (λ _ _. ⊥)
        (audit env actor action kind target (some ((key, Value.datetime at) ∷ rest)) w)
unfolding audit ◌>>=◌
audit-datetime env actor action kind target key at rest w = tt

anything : {A : Type 0} (r : Result A × World) → Returns (λ _ _. Unit {0}) r
anything (ok a, w) = tt
anything (err e, w) = tt

audit-patched_values :
    (env : Env) (actor action kind target : String) (at : ℕ) (body : SubscriptionPatch) (w : World)
    → Returns (λ _ _. ⊥) (audit env actor action kind target (some (patched_values at body)) w)
unfolding patched_values
audit-patched_values env actor action kind target at body w =
    audit-datetime env actor action kind target _ at _ w

patch-never :
    (env : Env) (actor : String) (tenant_id : ℕ) (body : SubscriptionPatch) (w : World)
    → Returns (λ _ _. ⊥) (admin_patch_subscription env actor tenant_id body w)
unfolding admin_patch_subscription
patch-never env actor tenant_id body w =
    Returns-bind _ (λ _ _. Unit {0}) _ _ w (anything _)
      λ sub v _.
        Returns-bind _ (λ _ _. Unit {0}) _ _ v (anything (now env v))
          λ at v _.
            Returns-bind _ (λ _ _. Unit {0}) _ _ v (anything _)
              λ _ v _.
                Returns-bind _ (λ _ _. ⊥) _ _ v
                  (audit-patched_values env actor "subscription.patch" "subscription"
                    (env.show sub.subscription_id) at body v)
                  λ _ v h. absurd h

-- No patch of a subscription ever succeeds, whatever the body: the new values carry the time of the
-- update, the audit entry of them is no JSON, and the transaction is rolled back.
pub admin_patch_subscription-never :
    (env : Env) (actor : String) (tenant_id : ℕ) (body : SubscriptionPatch) (w : World)
    → ((e : Error) × ((transaction (admin_patch_subscription env actor tenant_id body) w).0
          ≡ err e))
      × ((transaction (admin_patch_subscription env actor tenant_id body) w).1.db ≡ w.db)
admin_patch_subscription-never env actor tenant_id body w =
    let (e, failed) =
      refused (admin_patch_subscription env actor tenant_id body w)
        (patch-never env actor tenant_id body w) in
    let (raised, kept) =
      transaction-Fails e (admin_patch_subscription env actor tenant_id body) w failed in
    ((e, raised), kept)
