-- ===== src/Service/Devices.antt =====
-- The use cases of licensing-master/src/service.py that book and free a seat without a
-- `device_config`: revoking and reinstating a device, and `/cp/seats/*`.
use Prim.Native.String.{◌++◌ as ◌++ˢ◌}
use licensing_master.Base.{
  ℕ, ◌+◌, ◌*◌, String, ◌==◌, nat_eq, string_eq, Bool, true, false, not, ◌&&◌, Option, none, some,
  [], ◌∷◌, ltb, take_text, if◌then◌else◌,
}
use licensing_master.Base.Rows.{first}
use licensing_master.Tables.{
  Subscription, BatchToken, Device, Value, TenantStatus, tenant_status_beq,
}
use licensing_master.Exec.{
  Exec, Env, activation_token_invalid, no_result, pure, gets, or_raise, raise_if, now, ◌>>=◌, ◌>>◌,
}
use licensing_master.Service.Rows.{
  TenantRow, audit, tenant_row, tenant_for_service, subscription_row, find_device, device_row,
  batch_token_row, update_devices,
}
use licensing_master.Service.Seats.{consume_seat, ensure_tenant_seat, release_seat, truthy_id}
use licensing_master.Service.Activation.{
  ActivationBody, required, or_none, us_per_day, token_ok, write_booking,
}

-- `consume_seat` on the token that a revoked device was booked against, if its row is there
unfoldable pub consume_again : Option BatchToken → Exec (Unit {0})
consume_again none = pure tt
consume_again (some tok) = consume_seat tok

-- `if dev["activated_via"]:`
unfoldable pub rebook : Option ℕ → Exec (Unit {0})
rebook none = pure tt
rebook (some id) = do
  tok ← gets (λ w. first (λ t. t.batch_token_id == id) w.batch_tokens)
  consume_again tok

-- what a control-plane booking answers
pub record Consumed : Type 0 where
  pub consumed : Bool
  pub reactivated : Bool
  pub hardware_uuid : String

module _ (env : Env) where
  -- `admin_revoke_device`, by what `_release_seat` returned
  unfoldable pub after_release : String → String → Option Device → Exec Device
  after_release actor hw none = device_row hw
  after_release actor hw (some row) = do audit env actor "device.revoke" "device" hw none; pure row

  -- `admin_revoke_device`
  unfoldable pub admin_revoke_device : String → String → Exec Device
  admin_revoke_device actor hw = do row ← release_seat hw; after_release actor hw row

  -- the `UPDATE` that lifts the revocation
  unfoldable pub revive_only : String → Exec (Option Device)
  revive_only hw =
      update_devices (λ d. d.hardware_uuid == hw) (λ d. record d { is_revoked = false })

  -- the same with a fresh window, if that is later than the one that the device has
  unfoldable pub revive_fresh : String → Subscription → Device → Exec (Option Device)
  revive_fresh hw sub dev = do
    at ← now env
    let fresh = at + sub.window_days * us_per_day
    update_devices (λ d. d.hardware_uuid == hw)
        (λ d. record d {
          is_revoked = false;
          valid_until = if ltb dev.valid_until fresh then fresh else d.valid_until;
        })

  -- the fresh window is for a paid subscription of an active tenant
  unfoldable pub revive : String → Subscription → TenantRow → Device → Exec (Option Device)
  revive hw sub t dev =
      if sub.is_paid && tenant_status_beq t.status TenantStatus.active
      then revive_fresh hw sub dev
      else revive_only hw

  -- the path of `admin_reinstate_device` for a revoked device
  unfoldable pub reinstate : String → String → Device → Exec Device
  reinstate actor hw dev = do
    sub ← subscription_row dev.tenant_id
    ensure_tenant_seat dev.tenant_id sub
    rebook (truthy_id dev.activated_via)
    t ← tenant_row dev.tenant_id
    found ← revive hw sub t dev
    row ← or_raise found no_result
    audit env actor "device.reinstate" "device" hw none
    pure row

  -- `admin_reinstate_device`
  unfoldable pub admin_reinstate_device : String → String → Exec Device
  admin_reinstate_device actor hw = do
    dev ← device_row hw
    if dev.is_revoked then reinstate actor hw dev else pure dev

  -- `cp_release_seat`: the tenant of the service token is not looked at
  unfoldable pub cp_release_seat : Option ℕ → String → Exec Bool
  cp_release_seat tenant_id hw = do _ ← release_seat hw; pure true

  -- the row that `cp_consume_seat` writes
  unfoldable pub external_row :
      TenantRow → Subscription → BatchToken → ActivationBody → String → ℕ → Device → Device
  external_row t sub tok body hw at d = record d {
    tenant_id = t.tenant_id;
    device_name = take_text 100 (elim (or_none body.device_name) [ none ↦ hw | some n ↦ n ]);
    branch_ref = or_none body.branch_ref;
    license_key = "EXT-" ++ˢ hw;
    valid_from = at;
    valid_until = at + sub.window_days * us_per_day;
    activated_via = some tok.batch_token_id;
    is_revoked = false;
    last_seen_at = some at;
  }

  unfoldable pub consume_new :
      TenantRow
      → Subscription
      → BatchToken
      → ActivationBody
      → String
      → String
      → Option Device
      → ℕ
      → Exec Consumed
  consume_new t sub tok body token hw existing at = do
    ensure_tenant_seat t.tenant_id sub
    consume_seat tok
    _ ← write_booking env hw existing (external_row t sub tok body hw at) (λ d. d)
    audit env ("cp:" ++ˢ t.slug) "cp_consume_seat" "device_activation" hw
        (some (("token", Value.text token) ∷ []))
    pure (record { consumed = true; reactivated = false; hardware_uuid = hw })

  unfoldable pub touch_live : String → ℕ → Exec Consumed
  touch_live hw at = do
    _ ← update_devices (λ d. d.hardware_uuid == hw) (λ d. record d { last_seen_at = some at })
    pure (record { consumed = false; reactivated = true; hardware_uuid = hw })

  unfoldable pub consume_existing :
      TenantRow
      → Subscription
      → BatchToken
      → ActivationBody
      → String
      → String
      → ℕ
      → Option Device
      → Exec Consumed
  consume_existing t sub tok body token hw at none = consume_new t sub tok body token hw none at
  consume_existing t sub tok body token hw at (some d) =
      if d.is_revoked then consume_new t sub tok body token hw (some d) at else touch_live hw at

  -- `cp_consume_seat`
  unfoldable pub cp_consume_seat : Option ℕ → ActivationBody → Exec Consumed
  cp_consume_seat tenant_id body = do
    t ← tenant_for_service tenant_id
    sub ← subscription_row t.tenant_id
    token ← required body.token
    found ← batch_token_row token
    at ← now env
    raise_if (not (token_ok found sub.subscription_id at)) activation_token_invalid
    tok ← or_raise found activation_token_invalid
    hw ← required body.hardware_uuid
    existing ← find_device hw
    consume_existing t sub tok body token hw at existing
