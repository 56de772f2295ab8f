-- ===== src/Service/Status/Heartbeats.antt =====
-- `cp_heartbeat` of licensing-master/src/service.py: who gets a new window.
use licensing_master.Base.{
  ℕ, suc, ◌≡◌, refl, String, ◌==◌, nat_eq, string_eq, false, not, ◌&&◌, Option, none, some, arith,
  ==_refl, Bool-cases, inl, inr, if◌then◌else◌, ◌+◌, ◌*◌,
}
use licensing_master.Base.Rows.{first, update}
use licensing_master.Tables.{TenantStatus, tenant_status_beq, Tenant, Product, Subscription, Device}
use licensing_master.Exec.{
  Env, World, err, ok, now, transaction, or_raise, not_found, forbidden, ◌>>=◌,
}
use licensing_master.Exec.Succeeds.{
  Succeeds, Succeeds-then, Succeeds-weaken, raise_if-ok, raise_if-err, or_raise-ok, Fails-then,
  Fails-first, transaction-Fails,
}
use licensing_master.Service.Rows.{tenant_for_service, find_device, subscription_row}
use licensing_master.Service.Outcomes.{tenant_row-ok, subscription_row-ok, update_devices-ok}
use licensing_master.Service.Activation.{ActivationBody, us_per_day}
use licensing_master.Service.Activation.Outcomes.{required-ok}
use licensing_master.Service.Status.{
  Status, cp_heartbeat, cp_status, status_of, beat, key_or_empty, forgive, subscription_or_none,
}

-- A subscription that is looked for, found or not.
pub subscription_or_none-ok :
    (k : ℕ) (w : World)
    → subscription_or_none k w
      ≡ (ok (first (λ (s : Subscription). s.tenant_id == k) w.subscriptions), w)
unfolding subscription_or_none subscription_row ◌>>=◌
subscription_or_none-ok k w =
    settle (first (λ (s : Subscription). s.tenant_id == k) w.subscriptions)
  where
    settle : (o : Option Subscription) → forgive (or_raise o not_found w) ≡ (ok o, w)
    settle none = refl
    settle (some s) = refl

-- The status is read without a write.
cp_status-reads :
    (env : Env) (k : Option ℕ) (hw : String) (w : World)
    → Succeeds (λ r v. (r.hardware_uuid ≡ hw) × (v.db ≡ w.db)) (cp_status env k hw w)
unfolding cp_status find_device
cp_status-reads env k hw w =
    Succeeds-then (now env) _ w _ refl (Succeeds-then _ _ _ _ refl (answer _))
  where
    answer :
        (o : Option Device)
        → Succeeds
            (λ r v. (r.hardware_uuid ≡ hw) × (v.db ≡ w.db))
            (status_of env hw (env.clock w.asked) o (record w { asked = suc w.asked }))
    answer none = unfold status_of in (refl, refl)
    answer (some d) =
        unfold status_of in
        Succeeds-then _ _ _ _ (subscription_or_none-ok d.tenant_id _) (refl, refl)

module _ (env : Env) (w : World) (t : Tenant) (p : Product) (sub : Subscription) (hw : String) where
  -- the database after a heartbeat
  abbrev pub IsBeaten : Status → World → Type 0
  IsBeaten _ v = v.db ≡ record w.db {
    device_activations =
        update (λ d. d.hardware_uuid == hw)
          (λ d. record d {
            valid_until =
                if sub.is_paid && tenant_status_beq t.status TenantStatus.active
                then env.clock w.asked + sub.window_days * us_per_day
                else d.valid_until;
            last_seen_at = some (env.clock w.asked);
          })
          w.device_activations;
  }

module _ (env : Env) (k : ℕ) (body : ActivationBody) (w : World) (t : Tenant) (p : Product)
    (sub : Subscription) (hw : String) (dev : Device)
    (tenant : first (λ (t : Tenant). t.tenant_id == k) w.tenants ≡ some t)
    (product : first (λ (p : Product). p.product_id == t.product_id) w.products ≡ some p)
    (subscription : first (λ (s : Subscription). s.tenant_id == t.tenant_id) w.subscriptions
      ≡ some sub)
    (has_uuid : body.hardware_uuid ≡ some hw)
    (found : first (λ (d : Device). d.hardware_uuid == hw) w.device_activations ≡ some dev) where
  -- A heartbeat of a live device with its key returns and touches the device's row alone: the row is
  -- marked as seen now, and its window is a whole window from now where the subscription is paid and
  -- the tenant active, and as it was where not.
  pub cp_heartbeat-Beaten :
      dev.is_revoked ≡ false
      → dev.license_key ≡ key_or_empty body.license_key
      → Succeeds (IsBeaten env w t p sub hw) (cp_heartbeat env (some k) body w)
  unfolding cp_heartbeat tenant_for_service find_device beat
  cp_heartbeat-Beaten live key = Succeeds-then _ _ w _ (tenant_row-ok k w tenant product) (
      Succeeds-then _ _ w _ (subscription_row-ok t.tenant_id w subscription) (
        Succeeds-then _ _ w _ (required-ok w has_uuid) (
          Succeeds-then _ _ w _ refl (
            Succeeds-then _ _ w _ (or_raise-ok not_found w found) (
              Succeeds-then _ _ w _ (raise_if-ok forbidden w live) (
                Succeeds-then _ _ w _
                  (raise_if-ok {b = not (dev.license_key == key_or_empty body.license_key)}
                    forbidden w (rw (key, ==_refl (key_or_empty body.license_key)) refl))
                  (Succeeds-then (now env) _ w _ refl (
                    Succeeds-then _ _ _ _ (update_devices-ok (λ d. d.hardware_uuid == hw) _ _ found)
                      (Succeeds-weaken _ (IsBeaten env w t p sub hw) _
                        (cp_status-reads env (some k) hw _) (λ r v q. q.1))))))))))

  -- A revoked device, or one with another key, is refused, and its window stays.
  pub cp_heartbeat-refused :
      (not dev.is_revoked && (dev.license_key == key_or_empty body.license_key)) ≡ false
      → ((transaction (cp_heartbeat env (some k) body) w).0 ≡ err forbidden)
        × ((transaction (cp_heartbeat env (some k) body) w).1.db ≡ w.db)
  unfolding cp_heartbeat tenant_for_service find_device
  cp_heartbeat-refused bad = transaction-Fails forbidden (cp_heartbeat env (some k) body) w (
      Fails-then _ _ w _ (tenant_row-ok k w tenant product) (
        Fails-then _ _ w _ (subscription_row-ok t.tenant_id w subscription) (
          Fails-then _ _ w _ (required-ok w has_uuid) (
            Fails-then _ _ w _ refl (
              Fails-then _ _ w _ (or_raise-ok not_found w found) (elim (Bool-cases dev.is_revoked) [
                | inl dead ↦ Fails-first _ _ w _ (raise_if-err forbidden w dead)
                | inr live ↦ Fails-then _ _ w _ (raise_if-ok forbidden w live) (
                    Fails-first _ _ w _ (
                      raise_if-err {b = not (dev.license_key == key_or_empty body.license_key)}
                        forbidden w (ground arith)))
              ]))))))
