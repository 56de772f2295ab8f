-- ===== src/Service/Activation.antt =====
-- Activation in licensing-master/src/service.py: `_do_activate` and its two callers, and
-- `_activation_result`.
mod Body
pub mod Outcomes
pub mod Writes
pub mod Bookings
pub mod Rotations
pub mod Refusals
pub use Body.{ActivationBody, required, or_none}
unfoldable pub use Body.{us_per_day, latest}
use Prim.Native.String.{◌++◌ as ◌++ˢ◌}
use licensing_master.Base.{
  ℕ, ◌+◌, ◌*◌, String, ◌==◌, nat_eq, string_eq, Bool, true, false, not, ◌&&◌, ◌||◌, Option, none,
  some, List, [], ◌∷◌, ◌++◌, ltb, leb, if◌then◌else◌, fits, fits_opt,
}
use licensing_master.Base.Int.{pos}
use licensing_master.Base.Rows.{first}
use licensing_master.Tables.{
  Subscription, BatchToken, Device, Payload, Value, TenantStatus, tenant_status_beq,
}
use licensing_master.Exec.{
  Exec, Env, World, activation_token_invalid, device_bound_to_other_tenant, forbidden, no_result,
  integrity_error, pure, raise, gets, or_raise, raise_if, modify, next_serial, now, random_token,
  ◌>>=◌, ◌>>◌, data_error, value_error,
}
use licensing_master.Signer.{sign_payload, device_config}
use licensing_master.Service.Rows.{
  TenantRow, audit, tenant_row, tenant_for_service, subscription_row, find_device, batch_token_row,
  update_devices,
}
use licensing_master.Service.Seats.{consume_seat, ensure_tenant_seat}

pub record ActivationResult : Type 0 where
  pub device : Device
  pub valid_from : String
  pub valid_until : String
  pub tenant_slug : String
  pub tenant_base_url : Option String
  pub license_key : String
  pub device_config : String
  pub reactivated : Bool

abbrev or_null : Option String → Value
or_null none = Value.null
or_null (some s) = Value.text s

-- `expires_at` is unset, or later than `now`
abbrev pub unexpired : ℕ → BatchToken → Bool
unexpired at tok = elim tok.expires_at [ none ↦ true | some end ↦ ltb at end ]

-- `_token_ok`
unfoldable pub token_ok : Option BatchToken → ℕ → ℕ → Bool
token_ok none _ _ = false
token_ok (some tok) subscription_id now =
    not tok.is_revoked && tok.subscription_id == subscription_id && unexpired now tok

-- the text columns of `device_activations` take the row
abbrev pub row_fits : Device → Bool
row_fits d = fits 150 d.hardware_uuid && fits 100 d.device_name && fits_opt 60 d.branch_ref

module _ (env : Env) where
  -- the `payload` of `_activation_result`
  unfoldable pub config_payload : Device → TenantRow → ℕ → Bool → Payload
  config_payload dev tenant now reactivated =
      ("schema", Value.text "device_config.dat/v1")
      ∷ ("product_code", Value.text tenant.product_code)
      ∷ ("tenant_slug", Value.text tenant.slug)
      ∷ ("tenant_base_url", or_null tenant.base_url)
      ∷ ("device_name", Value.text dev.device_name)
      ∷ ("hardware_uuid", Value.text dev.hardware_uuid)
      ∷ ("license_key", Value.text dev.license_key)
      ∷ ("valid_from", Value.text (env.isoformat dev.valid_from))
      ∷ ("valid_until", Value.text (env.isoformat dev.valid_until))
      ∷ ("issued_at", Value.text (env.isoformat now))
      ∷ (if reactivated then ("reactivated", Value.bool true) ∷ [] else [])

  -- `_activation_result`
  unfoldable pub activation_result : Device → TenantRow → ℕ → Bool → Exec ActivationResult
  activation_result dev tenant now reactivated = do
    let payload = config_payload dev tenant now reactivated
    signature ← sign_payload env payload
    pure (record {
      device = dev;
      valid_from = env.isoformat dev.valid_from;
      valid_until = env.isoformat dev.valid_until;
      tenant_slug = tenant.slug;
      tenant_base_url = tenant.base_url;
      license_key = dev.license_key;
      device_config = device_config env payload signature;
      reactivated = reactivated;
    })

  -- the live device's branch of `_do_activate`: a new key and a new window, no new seat
  unfoldable pub reactivate :
      TenantRow → Subscription → BatchToken → String → Device → ℕ → Exec ActivationResult
  reactivate t sub tok hw existing now = do
    raise_if (not (existing.tenant_id == t.tenant_id)) device_bound_to_other_tenant
    secret ← random_token env
    raise_if (ltb latest (now + sub.window_days * us_per_day)) value_error
    found ←
        update_devices (λ d. d.hardware_uuid == hw)
          (λ d. record d {
            license_key = "LIC-" ++ˢ secret;
            valid_until = now + sub.window_days * us_per_day;
            last_seen_at = some now;
          })
    row ← or_raise found no_result
    audit env ("activate:" ++ˢ t.slug) "device.license_rotate" "device_activation" hw
        (some (("activated_via", Value.int (pos tok.batch_token_id)) ∷ []))
    activation_result row t now true

  -- the row that a booking writes, over the old row or a new one
  unfoldable pub booked_row :
      TenantRow → Subscription → BatchToken → String → Option String → String → ℕ → Device → Device
  booked_row t sub tok name branch key now d = record d {
    tenant_id = t.tenant_id;
    device_name = name;
    branch_ref = branch;
    license_key = key;
    valid_from = now;
    valid_until = now + sub.window_days * us_per_day;
    activated_via = some tok.batch_token_id;
  }

  -- the column defaults of a new device row
  abbrev pub new_device : ℕ → String → Device
  new_device id hw = record {
    device_activation_id = id;
    tenant_id = 0;
    hardware_uuid = hw;
    device_name = "";
    branch_ref = none;
    license_key = "";
    valid_from = env.started;
    valid_until = 0;
    is_revoked = false;
    last_seen_at = none;
    activated_via = none;
    created_at = env.started;
  }

  -- `INSERT INTO device_activations … RETURNING`; `hardware_uuid` is UNIQUE
  unfoldable pub insert_device : String → (Device → Device) → Exec Device
  insert_device hw fill = do
    clash ← find_device hw
    id ← next_serial
    let row = fill (new_device id hw)
    raise_if (not (row_fits row)) data_error
    raise_if (elim clash [ none ↦ false | some _ ↦ true ]) integrity_error
    modify λ db. record db { device_activations = db.device_activations ++ row ∷ [] }
    pure row

  -- the `UPDATE` of a revoked row, or the `INSERT`
  unfoldable pub write_booking :
      String → Option Device → (Device → Device) → (Device → Device) → Exec Device
  write_booking hw none fill _ = insert_device hw fill
  write_booking hw (some _) fill revive = do
    found ← update_devices (λ d. d.hardware_uuid == hw) (λ d. revive (fill d))
    row ← or_raise found no_result
    raise_if (not (row_fits row)) data_error
    pure row

  -- the booking branch of `_do_activate`
  unfoldable pub book :
      TenantRow
      → Subscription
      → BatchToken
      → ActivationBody
      → String
      → Option Device
      → ℕ
      → Exec ActivationResult
  book t sub tok body hw existing now = do
    ensure_tenant_seat t.tenant_id sub
    consume_seat tok
    name ← required body.device_name
    secret ← random_token env
    raise_if (ltb latest (now + sub.window_days * us_per_day)) value_error
    row ←
        write_booking hw existing
          (booked_row t sub tok (env.strip name) (or_none body.branch_ref) ("LIC-" ++ˢ secret) now)
          (λ d. record d { is_revoked = false; last_seen_at = some now })
    activation_result row t now false

  -- the branch on `existing`
  unfoldable pub activate_existing :
      TenantRow
      → Subscription
      → BatchToken
      → ActivationBody
      → String
      → ℕ
      → Option Device
      → Exec ActivationResult
  activate_existing t sub tok body hw now none = book t sub tok body hw none now
  activate_existing t sub tok body hw now (some existing) =
      if existing.is_revoked
      then book t sub tok body hw (some existing) now
      else reactivate t sub tok hw existing now

  -- `_do_activate`
  unfoldable pub do_activate :
      TenantRow → Subscription → BatchToken → ActivationBody → ℕ → Exec ActivationResult
  do_activate t sub tok body now = do
    hw ← required body.hardware_uuid
    existing ← find_device hw
    activate_existing t sub tok body hw now existing

  -- `cp_activate`
  unfoldable pub cp_activate : Option ℕ → ActivationBody → Exec ActivationResult
  cp_activate tenant_id body = do
    t ← tenant_for_service tenant_id
    sub ← subscription_row t.tenant_id
    at ← now env
    token ← required body.token
    found ← batch_token_row token
    raise_if (not (token_ok found sub.subscription_id at)) activation_token_invalid
    tok ← or_raise found activation_token_invalid
    do_activate t sub tok body at

  -- `public_activate`
  unfoldable pub public_activate : ActivationBody → Exec ActivationResult
  public_activate body = do
    at ← now env
    token ← required body.token
    found ← batch_token_row token
    tok ← or_raise found activation_token_invalid
    raise_if (tok.is_revoked || not (unexpired at tok)) activation_token_invalid
    subs ← gets (λ w. first (λ s. s.subscription_id == tok.subscription_id) w.subscriptions)
    sub ← or_raise subs activation_token_invalid
    t ← tenant_row sub.tenant_id
    raise_if (not (tenant_status_beq t.status TenantStatus.active)) forbidden
    do_activate t sub tok body at
