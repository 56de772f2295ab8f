-- ===== src/Service/Soundness/Queries.antt =====
-- The heartbeat and the use cases of licensing-master/src/service.py that only read keep the database sound.
use licensing_master.Base.{ℕ, String, Bool, true, false, Option, none, some, refl, nat_eq}
use licensing_master.Tables.{BatchToken, Device, Subscription}
use licensing_master.Exec.{Env, World, Returns, not_found, or_raise, ◌>>=◌}
use licensing_master.Exec.Keeps.{
  Keeps, Keeps-bind, Keeps-gets, Keeps-modify, Keeps-pure, keeps_rules,
}
use licensing_master.Service.Rows.{
  tenant_for_service, batch_token_row, update_devices, subscription_row,
}
use licensing_master.Service.Activation.{ActivationBody}
use licensing_master.Service.Status.{
  status_of, cp_status, beat, beaten, cp_heartbeat, verify_found, cp_verify_device, cp_subscription,
  own_token, verify_row, cp_verify_token, cp_seat_limit, subscription_or_none, forgive,
}
use licensing_master.Service.Soundness.{IsSound, Sound-edit}
use licensing_master.Service.Accounting.Steps.{at_uuid}
use licensing_master.Service.Soundness.Admin.{admin_rules}

pub keep_tenant_for_service : (k : Option ℕ) → Keeps IsSound (tenant_for_service k)
unfolding tenant_for_service
keep_tenant_for_service none = search admin_rules
keep_tenant_for_service (some k) = search admin_rules

keep_batch_token_row : (token : String) → Keeps IsSound (batch_token_row token)
unfolding batch_token_row
keep_batch_token_row token = search keeps_rules

keep_subscription_or_none : (k : ℕ) → Keeps IsSound (subscription_or_none k)
unfolding subscription_or_none subscription_row ◌>>=◌
keep_subscription_or_none k = record { kept = λ w h. settle w h _ }
  where
    settle :
        (w : World)
        → IsSound w.db
        → (o : Option Subscription)
        → Returns (λ _ v. IsSound v.db) (forgive (or_raise o not_found w))
    settle w h none = h
    settle w h (some s) = h

ruleset query_rules =
    (admin_rules, keep_tenant_for_service, keep_batch_token_row, keep_subscription_or_none)

module _ (env : Env) where
  keep_status_of :
      (hw : String) (at : ℕ) (o : Option Device) → Keeps IsSound (status_of env hw at o)
  unfolding status_of
  keep_status_of hw at none = search query_rules
  keep_status_of hw at (some dev) = search query_rules

  pub cp_status-IsSound : (k : Option ℕ) (hw : String) → Keeps IsSound (cp_status env k hw)
  unfolding cp_status
  cp_status-IsSound k hw = search (query_rules, keep_status_of)

  keep_beat :
      (hw : String) (sub : Subscription) (paid : Bool) (at : ℕ)
      → Keeps IsSound (beat hw sub paid at)
  unfolding beat update_devices
  keep_beat hw sub paid at = Keeps-bind _ _ (Keeps-gets _) (λ found.
      Keeps-bind _ _
        (Keeps-modify _ (λ db h.
          Sound-edit _ _ _ _ h (at_uuid hw) (beaten sub paid at) (λ _. refl) (λ _. refl) (λ _. refl)
            (λ _. refl)))
        (λ _. Keeps-pure _))

  pub cp_heartbeat-IsSound :
      (k : Option ℕ) (body : ActivationBody) → Keeps IsSound (cp_heartbeat env k body)
  unfolding cp_heartbeat
  cp_heartbeat-IsSound k body = search (query_rules, keep_beat, cp_status-IsSound) depth 30

  keep_verify_found :
      (key : String) (at : ℕ) (o : Option Device) → Keeps IsSound (verify_found env key at o)
  unfolding verify_found
  keep_verify_found key at none = search query_rules
  keep_verify_found key at (some dev) = search query_rules

  pub cp_verify_device-IsSound :
      (k : Option ℕ) (body : ActivationBody) → Keeps IsSound (cp_verify_device env k body)
  unfolding cp_verify_device
  cp_verify_device-IsSound k body = search (query_rules, keep_verify_found) depth 20

  pub cp_subscription-IsSound : (k : Option ℕ) → Keeps IsSound (cp_subscription env k)
  unfolding cp_subscription
  cp_subscription-IsSound k = search query_rules depth 20

  keep_own_token :
      (valid : Bool) (k : Option ℕ) (row : BatchToken) → Keeps IsSound (own_token env valid k row)
  unfolding own_token
  keep_own_token true (some k) row = search query_rules
  keep_own_token true none row = search query_rules
  keep_own_token false k row = search query_rules

  keep_verify_row :
      (k : Option ℕ) (at : ℕ) (o : Option BatchToken) → Keeps IsSound (verify_row env k at o)
  unfolding verify_row
  keep_verify_row k at none = search query_rules
  keep_verify_row k at (some row) = search (query_rules, keep_own_token)

  pub cp_verify_token-IsSound :
      (k : Option ℕ) (token : String) → Keeps IsSound (cp_verify_token env k token)
  unfolding cp_verify_token
  cp_verify_token-IsSound k token = search (query_rules, keep_verify_row) depth 20

pub cp_seat_limit-IsSound : (k : Option ℕ) → Keeps IsSound (cp_seat_limit k)
unfolding cp_seat_limit
cp_seat_limit-IsSound k = search query_rules depth 20
