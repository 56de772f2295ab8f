-- ===== src/Service/Rows.antt =====
-- The row lookups of licensing-master/src/service.py, the statements on one table that its use
-- cases share, and `_audit`.
use mathlib.Core.Option
use licensing_master.Base.{
  ℕ, String, ◌==◌, nat_eq, string_eq, Bool, true, false, not, Option, none, some, [], ◌∷◌, ◌++◌,
  fits,
}
use licensing_master.Base.Rows.{first, count, update}
use licensing_master.Tables.{Tenant, Subscription, BatchToken, Device, Payload, Value}
use licensing_master.Exec.{
  Exec, Env, not_found, type_error, forbidden, raise, pure, gets, or_raise, raise_if, modify,
  next_serial, ◌>>=◌, ◌>>◌, data_error,
}

-- what `json.dumps` refuses
abbrev pub has_datetime : Payload → Bool
has_datetime [] = false
has_datetime ((_, Value.datetime _) ∷ _) = true
has_datetime (_ ∷ rest) = has_datetime rest

abbrev pub is_json : Option Payload → Bool
is_json none = true
is_json (some p) = not (has_datetime p)

-- `_audit`: what is no JSON raises, and so does a target that the column is too narrow for
unfoldable pub audit : Env → String → String → String → String → Option Payload → Exec (Unit {0})
audit env actor action target_type target_id payload = do
  raise_if (not (is_json payload)) type_error
  raise_if (not (fits 80 target_id)) data_error
  id ← next_serial
  modify λ db. record db {
    audit_log =
        db.audit_log
        ++ record {
          audit_log_id = id;
          actor_email = actor;
          action = action;
          target_type = target_type;
          target_id = target_id;
          payload = payload;
          at = env.started;
        }
          ∷ [];
  }

-- a tenant joined with its product's code
pub record TenantRow : Type 0 where
  pub tenant : Tenant
  pub open tenant use *
  pub product_code : String

-- `_tenant_row`
unfoldable pub tenant_row : ℕ → Exec TenantRow
tenant_row tenant_id = do
  found ← gets (λ w. first (λ t. t.tenant_id == tenant_id) w.tenants)
  t ← or_raise found not_found
  joined ← gets (λ w. first (λ p. p.product_id == t.product_id) w.products)
  p ← or_raise joined not_found
  pure (record { tenant = t; product_code = p.code })

-- `_tenant_for_service`
unfoldable pub tenant_for_service : Option ℕ → Exec TenantRow
tenant_for_service none = raise forbidden
tenant_for_service (some tenant_id) = tenant_row tenant_id

-- `_subscription_row`
unfoldable pub subscription_row : ℕ → Exec Subscription
subscription_row tenant_id = do
  found ← gets (λ w. first (λ s. s.tenant_id == tenant_id) w.subscriptions)
  or_raise found not_found

-- `SELECT … FROM device_activations WHERE hardware_uuid = …`
unfoldable pub find_device : String → Exec (Option Device)
find_device hardware_uuid =
    gets (λ w. first (λ d. d.hardware_uuid == hardware_uuid) w.device_activations)

-- `_device_row`; `FOR UPDATE` takes a lock and reads the same row
unfoldable pub device_row : String → Exec Device
device_row hardware_uuid = do found ← find_device hardware_uuid; or_raise found not_found

-- `_batch_token_row`
unfoldable pub batch_token_row : String → Exec (Option BatchToken)
batch_token_row token = gets (λ w. first (λ t. t.token == token) w.batch_tokens)

-- `UPDATE device_activations … RETURNING`, and `.first()` of it
unfoldable pub update_devices : (Device → Bool) → (Device → Device) → Exec (Option Device)
update_devices p f = do
  found ← gets (λ w. first p w.device_activations)
  modify (λ db. record db { device_activations = update p f db.device_activations })
  pure (Option.map f found)

-- `UPDATE batch_tokens …`, and its rowcount
unfoldable pub update_tokens : (BatchToken → Bool) → (BatchToken → BatchToken) → Exec ℕ
update_tokens p f = do
  matched ← gets (λ w. count p w.batch_tokens)
  modify (λ db. record db { batch_tokens = update p f db.batch_tokens })
  pure matched
