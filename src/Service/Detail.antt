-- ===== src/Service/Detail.antt =====
-- `admin_tenant_detail`, which most admin use cases of licensing-master/src/service.py answer
-- with, and the lists.
use licensing_master.Base.{
  ℕ, ◌-◌, String, ◌==◌, nat_eq, string_eq, Bool, not, ◌&&◌, Option, none, some, List, [], ◌∷◌, min,
  if◌then◌else◌,
}
use licensing_master.Base.Int.{ℤ}
use licensing_master.Base.Rows.{first, select, count, order_asc, order_desc, take}
use licensing_master.Tables.{Product, Tenant, Subscription, BatchToken, Device, Payment, AuditEntry}
use licensing_master.Exec.{Exec, Env, World, pure, gets, now, ◌>>=◌}
use licensing_master.Service.Rows.{TenantRow, tenant_row, subscription_row}
use licensing_master.Service.Seats.{is_live_of}
use licensing_master.Service.Status.{State, device_state, days_remaining}

pub record DeviceDetail : Type 0 where
  pub device : Device
  pub state : State
  pub days_remaining : ℤ

pub record TenantDetail : Type 0 where
  pub tenant : TenantRow
  pub subscription : Subscription
  pub seats_used : ℕ
  pub seats_available : ℕ
  pub batch_tokens : List BatchToken
  pub devices : List DeviceDetail
  pub payments : List Payment

pub record TenantSummary : Type 0 where
  pub tenant : Tenant
  pub product_code : String
  pub subscription : Option Subscription
  pub seats_used : ℕ

-- `sum(1 for d in devs if not d["is_revoked"])`
unfoldable pub live_count : List Device → ℕ
live_count devs = count (λ d. not d.is_revoked) devs

module _ (env : Env) where
  unfoldable pub device_details : Subscription → ℕ → List Device → List DeviceDetail
  device_details sub at [] = []
  device_details sub at (d ∷ ds) =
      record {
        device = d;
        state = device_state env d (some sub) at;
        days_remaining = days_remaining (some d.valid_until) at;
      }
      ∷ device_details sub at ds

  -- `admin_tenant_detail`
  unfoldable pub admin_tenant_detail : ℕ → Exec TenantDetail
  admin_tenant_detail tenant_id = do
    t ← tenant_row tenant_id
    sub ← subscription_row tenant_id
    toks ← gets (λ w.
        order_desc (λ b. b.batch_token_id)
          (select (λ b. b.subscription_id == sub.subscription_id) w.batch_tokens))
    devs ← gets (λ w.
        order_desc (λ d. d.device_activation_id)
          (select (λ d. d.tenant_id == tenant_id) w.device_activations))
    pays ← gets (λ w. take 50 (
        order_desc (λ p. p.recorded_at)
          (select (λ p. p.subscription_id == sub.subscription_id) w.payments)))
    at ← now env
    pure (record {
      tenant = t;
      subscription = sub;
      seats_used = live_count devs;
      seats_available = sub.seat_limit - live_count devs;
      batch_tokens = toks;
      devices = device_details sub at devs;
      payments = pays;
    })

-- a row of `admin_list_tenants`; a tenant whose product is missing falls out of the join
unfoldable pub summarize : World → Option String → Tenant → List TenantSummary → List TenantSummary
summarize w code t rest =
    elim (first
      (λ p. p.product_id == t.product_id && elim code [ none ↦ Bool.true | some c ↦ p.code == c ])
      w.products) [
        | none ↦ rest
        | some p ↦
            record {
              tenant = t;
              product_code = p.code;
              subscription = first (λ s. s.tenant_id == t.tenant_id) w.subscriptions;
              seats_used = count (is_live_of t.tenant_id) w.device_activations;
            }
            ∷ rest
      ]

unfoldable pub summaries : World → Option String → List Tenant → List TenantSummary
summaries w code [] = []
summaries w code (t ∷ ts) = summarize w code t (summaries w code ts)

-- `if product_code:`
abbrev truthy_text : Option String → Option String
truthy_text none = none
truthy_text (some s) = if s == "" then none else some s

-- `admin_list_products`
unfoldable pub admin_list_products : Exec (List Product)
admin_list_products = gets (λ w. order_asc (λ p. p.product_id) w.products)

-- `admin_list_tenants`
unfoldable pub admin_list_tenants : Option String → Exec (List TenantSummary)
admin_list_tenants code =
    gets (λ w. summaries w (truthy_text code) (order_desc (λ t. t.tenant_id) w.tenants))

-- `admin_list_audit`
unfoldable pub admin_list_audit : ℕ → Exec (List AuditEntry)
admin_list_audit limit = gets (λ w. take (min limit 500) (order_desc (λ a. a.at) w.audit_log))
