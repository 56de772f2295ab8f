-- ===== src/Service/Status.antt =====
-- What licensing-master/src/service.py answers about a device: its state, the days that are left,
-- `cp_status`, `cp_heartbeat`, `cp_verify_device`, and the subscription's figures.
pub mod Windows
pub mod Heartbeats
pub mod Verdicts
use Prim.Native.String.{◌++◌ as ◌++ˢ◌}
use licensing_master.Base.{
  ℕ, ◌+◌, ◌-◌, ◌*◌, ◌/◌, String, ◌==◌, nat_eq, string_eq, Bool, true, false, not, ◌&&◌, ◌||◌,
  Option, none, some, leb, ltb, if◌then◌else◌,
}
use licensing_master.Base.Int.{ℤ, pos, negsuc, neg, leb_ℤ}
use licensing_master.Base.Rows.{first}
use licensing_master.Tables.{
  Subscription, SubscriptionStatus, BatchToken, Device, TenantStatus, tenant_status_beq,
}
use licensing_master.Exec.{
  Exec, Env, World, Result, ok, err, not_found, forbidden, pure, gets, or_raise, raise, raise_if,
  now, ◌>>=◌, ◌>>◌,
}
use licensing_master.Service.Rows.{
  TenantRow, tenant_row, tenant_for_service, subscription_row, find_device, batch_token_row,
  update_devices,
}
use licensing_master.Service.Activation.{ActivationBody, required, us_per_day, unexpired}

pub data State : Type 0 where
  active grace expired revoked unknown : State

-- floor((valid_until - now) / 1 day)
unfoldable pub floor_days : ℕ → ℕ → ℤ
floor_days valid_until at =
    if leb at valid_until
    then pos ((valid_until - at) / us_per_day)
    else negsuc ((at - valid_until - 1) / us_per_day)

-- `_days_remaining`
unfoldable pub days_remaining : Option ℕ → ℕ → ℤ
days_remaining none at = pos 0
days_remaining (some valid_until) at = floor_days valid_until at

-- the tests of `_device_state` on the days that are left
unfoldable pub state_of_days : ℤ → ℕ → State
state_of_days dr grace_days =
    if leb_ℤ (pos 0) dr
    then State.active
    else if leb_ℤ (neg grace_days) dr
    then State.grace
    else State.expired

-- the answer of `cp_status`
pub record Status : Type 0 where
  pub hardware_uuid : String
  pub state : State
  pub days_remaining : ℤ
  pub valid_until : Option String
  pub last_heartbeat_at : Option String
  pub is_revoked : Bool

-- the answer of `cp_verify_device`
pub record Verdict : Type 0 where
  pub valid : Bool
  pub state : State
  pub valid_until : Option String
  pub days_remaining : Option ℤ
  pub reason : Option String

-- the answer of `cp_subscription`
pub record Entitlement : Type 0 where
  pub state : SubscriptionStatus
  pub is_paid : Bool
  pub window_days : ℕ
  pub grace_days : ℕ
  pub seat_limit : ℕ
  pub valid_until : String

-- the answer of `cp_verify_token`
pub record TokenVerdict : Type 0 where
  pub valid : Bool
  pub subscription_id : Option ℕ

abbrev pub state_name : State → String
state_name State.active = "ACTIVE"
state_name State.grace = "GRACE"
state_name State.expired = "EXPIRED"
state_name State.revoked = "REVOKED"
state_name State.unknown = "UNKNOWN"

-- `state in (_STATE_ACTIVE, _STATE_GRACE)`
abbrev pub may_run : State → Bool
may_run State.active = true
may_run State.grace = true
may_run _ = false

-- `bool(sub["is_paid"]) and t["status"] == "ACTIVE"`
abbrev pub is_paid_up : Subscription → TenantRow → Bool
is_paid_up sub t = sub.is_paid && tenant_status_beq t.status TenantStatus.active

-- `try: … except NotFoundError: pass`
abbrev pub forgive {ℓ} : {A : Type ℓ} → Result A × World → Result (Option A) × World
forgive (ok a, w) = (ok (some a), w)
forgive (err not_found, w) = (ok none, w)
forgive (err e, w) = (err e, w)

-- `_subscription_row`, or nothing
unfoldable pub subscription_or_none : ℕ → Exec (Option Subscription)
subscription_or_none tenant_id w = forgive (subscription_row tenant_id w)

-- a device's row after a heartbeat
abbrev pub beaten : Subscription → Bool → ℕ → Device → Device
beaten sub paid at d = record d {
  valid_until = if paid then at + sub.window_days * us_per_day else d.valid_until;
  last_seen_at = some at;
}

-- the `UPDATE` of a heartbeat
unfoldable pub beat : String → Subscription → Bool → ℕ → Exec (Option Device)
beat hw sub paid at = update_devices (λ d. d.hardware_uuid == hw) (beaten sub paid at)

-- `body.get("license_key", "")`
abbrev pub key_or_empty : Option String → String
key_or_empty none = ""
key_or_empty (some k) = k

module _ (env : Env) where
  abbrev pub grace_of : Option Subscription → ℕ
  grace_of none = env.default_grace_days
  grace_of (some sub) = sub.grace_days

  -- `_device_state`
  unfoldable pub device_state : Device → Option Subscription → ℕ → State
  device_state dev sub at =
      if dev.is_revoked
      then State.revoked
      else state_of_days (days_remaining (some dev.valid_until) at) (grace_of sub)

  abbrev iso_option : Option ℕ → Option String
  iso_option none = none
  iso_option (some t) = some (env.isoformat t)

  -- `cp_status`, by the row that it found
  unfoldable pub status_of : String → ℕ → Option Device → Exec Status
  status_of hw at none = pure (record {
    hardware_uuid = hw;
    state = State.unknown;
    days_remaining = pos 0;
    valid_until = none;
    last_heartbeat_at = none;
    is_revoked = false;
  })
  status_of hw at (some dev) = do
    sub ← subscription_or_none dev.tenant_id
    pure (record {
      hardware_uuid = hw;
      state = device_state dev sub at;
      days_remaining = days_remaining (some dev.valid_until) at;
      valid_until = some (env.isoformat dev.valid_until);
      last_heartbeat_at = iso_option dev.last_seen_at;
      is_revoked = dev.is_revoked;
    })

  -- `cp_status`: the tenant of the service token is not looked at
  unfoldable pub cp_status : Option ℕ → String → Exec Status
  cp_status tenant_id hw = do at ← now env; dev ← find_device hw; status_of hw at dev

  -- `cp_heartbeat`
  unfoldable pub cp_heartbeat : Option ℕ → ActivationBody → Exec Status
  cp_heartbeat tenant_id body = do
    t ← tenant_for_service tenant_id
    sub ← subscription_row t.tenant_id
    hw ← required body.hardware_uuid
    found ← find_device hw
    dev ← or_raise found not_found
    raise_if dev.is_revoked forbidden
    raise_if (not (dev.license_key == key_or_empty body.license_key)) forbidden
    at ← now env
    _ ← beat hw sub (is_paid_up sub t) at
    cp_status tenant_id hw

  -- the last part of `cp_verify_device`
  unfoldable pub verdict_of : Device → Option Subscription → ℕ → Verdict
  verdict_of dev sub at =
      let state = device_state dev sub at in
      record {
        valid = may_run state;
        state = state;
        valid_until = some (env.isoformat dev.valid_until);
        days_remaining = some (days_remaining (some dev.valid_until) at);
        reason = if may_run state then none else some ("device is " ++ˢ state_name state);
      }

  -- `cp_verify_device`, by the row of the service token's tenant
  unfoldable pub verify_found : String → ℕ → Option Device → Exec Verdict
  verify_found key at none = pure (record {
    valid = false;
    state = State.unknown;
    valid_until = none;
    days_remaining = none;
    reason = some "device not activated";
  })
  verify_found key at (some dev) =
      if key == "" || not (key == dev.license_key)
      then pure (record {
        valid = false;
        state = device_state dev none at;
        valid_until = none;
        days_remaining = none;
        reason = some "license key mismatch";
      })
      else (do sub ← subscription_or_none dev.tenant_id; pure (verdict_of dev sub at))

  -- `cp_verify_device`
  unfoldable pub cp_verify_device : Option ℕ → ActivationBody → Exec Verdict
  cp_verify_device tenant_id body = do
    t ← tenant_for_service tenant_id
    hw ← required body.hardware_uuid
    at ← now env
    dev ←
        gets (λ w.
          first (λ d. d.hardware_uuid == hw && d.tenant_id == t.tenant_id) w.device_activations)
    verify_found (key_or_empty body.license_key) at dev

  -- `cp_subscription`
  unfoldable pub cp_subscription : Option ℕ → Exec Entitlement
  cp_subscription tenant_id = do
    t ← tenant_for_service tenant_id
    sub ← subscription_row t.tenant_id
    pure (record {
      state = sub.status;
      is_paid = is_paid_up sub t;
      window_days = sub.window_days;
      grace_days = sub.grace_days;
      seat_limit = sub.seat_limit;
      valid_until = env.isoformat sub.valid_until;
    })

  -- the subscription test of `cp_verify_token`, made only for a token that is valid so far
  unfoldable pub own_token : Bool → Option ℕ → BatchToken → Exec Bool
  own_token true (some tenant_id) row = do
    sub ← subscription_row tenant_id
    pure (row.subscription_id == sub.subscription_id)
  own_token valid _ row = pure valid

  unfoldable pub verify_row : Option ℕ → ℕ → Option BatchToken → Exec TokenVerdict
  verify_row tenant_id at none = pure (record { valid = false; subscription_id = none })
  verify_row tenant_id at (some row) = do
    valid ←
        own_token (not row.is_revoked && ltb row.seats_consumed row.quota && unexpired at row)
          tenant_id row
    pure (record { valid = valid; subscription_id = some row.subscription_id })

  -- `cp_verify_token`
  unfoldable pub cp_verify_token : Option ℕ → String → Exec TokenVerdict
  cp_verify_token tenant_id token = do
    row ← batch_token_row token
    at ← now env
    verify_row tenant_id at row

-- `cp_seat_limit`
unfoldable pub cp_seat_limit : Option ℕ → Exec ℕ
cp_seat_limit tenant_id = do
  t ← tenant_for_service tenant_id
  sub ← subscription_row t.tenant_id
  pure sub.seat_limit
