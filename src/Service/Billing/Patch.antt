-- ===== src/Service/Billing/Patch.antt =====
-- `admin_patch_subscription` of licensing-master/src/service.py. Its audit payload is the very
-- `dict` of new column values, the `datetime` of `updated_at` with them.
use licensing_master.Base.{
  ℕ, String, ◌==◌, nat_eq, string_eq, Bool, Option, none, some, [], ◌∷◌, ◌++◌, if◌then◌else◌,
}
use licensing_master.Base.Int.{ℤ}
use licensing_master.Base.Rows.{update}
use licensing_master.Tables.{Subscription, SubscriptionStatus, Value, Payload}
use licensing_master.Exec.{Exec, Env, pure, modify, now, ◌>>=◌, ◌>>◌}
use licensing_master.Service.Rows.{audit, subscription_row}
use licensing_master.Service.Activation.{or_none}
use licensing_master.Service.Tenants.{check_nonneg, check_pos}
use licensing_master.Service.Detail.{TenantDetail, admin_tenant_detail}

pub record SubscriptionPatch : Type 0 where
  pub seat_limit : Option ℤ
  pub window_days : Option ℤ
  pub grace_days : Option ℤ
  pub is_paid : Option Bool
  pub status : Option String
  pub plan_name : Option String

-- `body.get("status") in ("ACTIVE", "PAST_DUE", "SUSPENDED")`
abbrev pub read_subscription_status : Option String → Option SubscriptionStatus
read_subscription_status none = none
read_subscription_status (some s) =
    if s == "ACTIVE"
    then some SubscriptionStatus.active
    else if s == "PAST_DUE"
    then some SubscriptionStatus.past_due
    else if s == "SUSPENDED"
    then some SubscriptionStatus.suspended
    else none

abbrev pub subscription_status_name : SubscriptionStatus → String
subscription_status_name SubscriptionStatus.active = "ACTIVE"
subscription_status_name SubscriptionStatus.past_due = "PAST_DUE"
subscription_status_name SubscriptionStatus.suspended = "SUSPENDED"

-- a member of `values`, if the body has it
abbrev entry {ℓ} : {A : Type ℓ} → String → (A → Value) → Option A → Payload
entry key f none = []
entry key f (some a) = (key, f a) ∷ []

-- `values`
unfoldable pub patched_values : ℕ → SubscriptionPatch → Payload
patched_values at body =
    ("updated_at", Value.datetime at)
    ∷ (entry "seat_limit" Value.int body.seat_limit
        ++ entry "window_days" Value.int body.window_days
        ++ entry "grace_days" Value.int body.grace_days
        ++ entry "is_paid" Value.bool body.is_paid
        ++ entry "status" (λ s. Value.text (subscription_status_name s))
            (read_subscription_status body.status)
        ++ entry "plan_name" Value.text (or_none body.plan_name))

-- a figure of the body under its CHECK, or the old one
abbrev pub checked : (ℤ → Exec ℕ) → Option ℤ → ℕ → Exec ℕ
checked check none old = pure old
checked check (some z) old = check z

-- the `UPDATE` with `values`
unfoldable pub write_subscription : Subscription → ℕ → SubscriptionPatch → Exec (Unit {0})
write_subscription sub at body = do
  seat_limit ← checked check_nonneg body.seat_limit sub.seat_limit
  window_days ← checked check_pos body.window_days sub.window_days
  grace_days ← checked check_nonneg body.grace_days sub.grace_days
  modify λ db. record db {
    subscriptions =
        update (λ s. s.subscription_id == sub.subscription_id)
          (λ s. record s {
            seat_limit = seat_limit;
            window_days = window_days;
            grace_days = grace_days;
            is_paid = elim body.is_paid [ none ↦ s.is_paid | some b ↦ b ];
            status = elim (read_subscription_status body.status) [ none ↦ s.status | some st ↦ st ];
            plan_name = elim (or_none body.plan_name) [ none ↦ s.plan_name | some p ↦ p ];
            updated_at = at;
          })
          db.subscriptions;
  }

-- `admin_patch_subscription`
unfoldable pub admin_patch_subscription : Env → String → ℕ → SubscriptionPatch → Exec TenantDetail
admin_patch_subscription env actor tenant_id body = do
  sub ← subscription_row tenant_id
  at ← now env
  write_subscription sub at body
  audit env actor "subscription.patch" "subscription" (env.show sub.subscription_id)
      (some (patched_values at body))
  admin_tenant_detail env tenant_id
