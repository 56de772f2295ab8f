-- ===== src/Service/Activation/Rotations.antt =====
-- `_do_activate` of licensing-master/src/service.py on a device that is live, and its refusals.
use Prim.Native.String.{◌++◌ as ◌++ˢ◌}
use licensing_master.Base.{
  ℕ, ◌+◌, ◌*◌, ◌≡◌, refl, String, ◌==◌, nat_eq, string_eq, true, false, not, some,
}
use licensing_master.Base.Rows.{first, count}
use licensing_master.Tables.{Subscription, BatchToken, Device}
use licensing_master.Exec.{Env, World, err, transaction, device_bound_to_other_tenant}
use licensing_master.Exec.Succeeds.{
  Succeeds, raise_if-err, Fails-then, Fails-first, Fails-if_false, transaction-Fails,
}
use licensing_master.Service.Rows.{TenantRow, find_device}
use licensing_master.Service.Seats.{is_live_of}
use licensing_master.Service.Activation.{
  ActivationBody, ActivationResult, us_per_day, reactivate, activate_existing, do_activate,
}
use licensing_master.Service.Activation.Outcomes.{required-ok}

module _ (env : Env) (sub : Subscription) (hw : String) (at : ℕ) (w : World) (dev : Device) where
  -- the device keeps its seat and has a new key
  abbrev pub IsRotated : ActivationResult → World → Type 0
  IsRotated r v =
      (r.reactivated ≡ true)
      × (r.license_key ≡ "LIC-" ++ˢ env.token_urlsafe w.asked)
      × (r.device.valid_until ≡ at + sub.window_days * us_per_day)
      × (r.device.device_activation_id ≡ dev.device_activation_id)
      × (first (λ (d : Device). d.hardware_uuid == hw) v.device_activations ≡ some r.device)
      × (v.batch_tokens ≡ w.batch_tokens)
      × ((k : ℕ)
          → count (is_live_of k) v.device_activations ≡ count (is_live_of k) w.device_activations)

module _ (env : Env) (t : TenantRow) (sub : Subscription) (tok : BatchToken) (body : ActivationBody)
    (hw : String) (at : ℕ) (w : World) (dev : Device) (has_uuid : body.hardware_uuid ≡ some hw)
    (found : first (λ (d : Device). d.hardware_uuid == hw) w.device_activations ≡ some dev)
    (live : dev.is_revoked ≡ false) where
  -- the row of the device afterwards
  abbrev rotated : Device → Device
  rotated d = record d {
    license_key = "LIC-" ++ˢ env.token_urlsafe w.asked;
    valid_until = at + sub.window_days * us_per_day;
    last_seen_at = some at;
  }

  -- A device that is live for another tenant is refused, and nothing is written.
  pub do_activate-bound :
      (dev.tenant_id == t.tenant_id) ≡ false
      → ((transaction (do_activate env t sub tok body at) w).0 ≡ err device_bound_to_other_tenant)
        × ((transaction (do_activate env t sub tok body at) w).1.db ≡ w.db)
  unfolding do_activate find_device activate_existing reactivate
  do_activate-bound foreign =
      transaction-Fails device_bound_to_other_tenant (do_activate env t sub tok body at) w (
        Fails-then _ _ w _ (required-ok w has_uuid) (
          Fails-then _ _ w _ refl (
            rw found (
              Fails-if_false device_bound_to_other_tenant dev.is_revoked _ _ w live (
                Fails-first _ _ w _
                  (raise_if-err {b = not (dev.tenant_id == t.tenant_id)} _ w (rw foreign refl)))))))
