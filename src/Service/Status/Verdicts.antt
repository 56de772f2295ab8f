-- ===== src/Service/Status/Verdicts.antt =====
-- `cp_verify_device` of licensing-master/src/service.py: which devices may run.
use licensing_master.Base.{
  ℕ, ◌+◌, ◌*◌, ◌≡◌, refl, ap, String, ◌==◌, nat_eq, string_eq, Bool, false, not, ◌&&◌, ◌||◌, Option,
  some, none, arith, Bool-cases, inl, inr, leb,
}
use licensing_master.Base.Rows.{first}
use licensing_master.Tables.{Tenant, Product, Subscription, Device}
use licensing_master.Exec.{Env, World, now}
use licensing_master.Exec.Succeeds.{
  Succeeds, Succeeds-then, Succeeds-weaken, Succeeds-if_true, Succeeds-if_false,
}
use licensing_master.Service.Rows.{tenant_for_service}
use licensing_master.Service.Outcomes.{tenant_row-ok}
use licensing_master.Service.Activation.{ActivationBody, us_per_day}
use licensing_master.Service.Activation.Outcomes.{required-ok}
use licensing_master.Service.Status.{
  Verdict, State, may_run, device_state, grace_of, cp_verify_device, verify_found, verdict_of,
  key_or_empty,
}
use licensing_master.Service.Status.Windows.{device_state-window_state}
use licensing_master.Service.Status.Heartbeats.{subscription_or_none-ok}

module _ (env : Env) where
  -- the device may run: the right key, no revocation, and a time within the window and its grace
  abbrev pub runs : String → ℕ → ℕ → Device → Bool
  runs key grace_days at dev =
      not (key == "")
      && key == dev.license_key
      && not dev.is_revoked
      && leb at (dev.valid_until + grace_days * us_per_day)

  may_run_lem :
      (dev : Device) (sub : Option Subscription) (at : ℕ)
      → may_run (device_state env dev sub at)
        ≡ (not dev.is_revoked && leb at (dev.valid_until + grace_of env sub * us_per_day))
  may_run_lem dev sub at = rw (device_state-window_state env dev sub at) (ground arith)

  verify_found-runs :
      (key : String) (at : ℕ) (dev : Device) (w : World)
      → Succeeds
          (λ r v.
            (r.valid
              ≡ runs key
                  (grace_of env
                    (first (λ (s : Subscription). s.tenant_id == dev.tenant_id) w.subscriptions))
                  at
                  dev)
            × (v ≡ w))
          (verify_found env key at (some dev) w)
  unfolding verify_found verdict_of
  verify_found-runs key at dev w = elim (Bool-cases (key == "" || not (key == dev.license_key))) [
    | inl bad ↦ Succeeds-if_true _ _ _ _ w bad (ground arith, refl)
    | inr good ↦ Succeeds-if_false _ _ _ _ w good (
        Succeeds-then _ _ w _ (subscription_or_none-ok dev.tenant_id w) (
          ground (
            arith,
            may_run_lem dev
                (first (λ (s : Subscription). s.tenant_id == dev.tenant_id) w.subscriptions) at,
          ),
          refl,
        ))
  ]

  -- the verdict, and the database as it was
  abbrev pub IsVerdict : ActivationBody → World → Device → Verdict → World → Type 0
  IsVerdict body w dev r v =
      (r.valid
        ≡ runs (key_or_empty body.license_key)
            (grace_of env
              (first (λ (s : Subscription). s.tenant_id == dev.tenant_id) w.subscriptions))
            (env.clock w.asked) dev)
      × (v.db ≡ w.db)

  module _ (k : ℕ) (body : ActivationBody) (w : World) (t : Tenant) (p : Product) (hw : String)
      (tenant : first (λ (t : Tenant). t.tenant_id == k) w.tenants ≡ some t)
      (product : first (λ (p : Product). p.product_id == t.product_id) w.products ≡ some p)
      (has_uuid : body.hardware_uuid ≡ some hw) where
    -- For a device of the tenant the verification returns, and says valid exactly when the key given is
    -- the device's and not empty, the device is not revoked, and now is no later than the end of its
    -- window and the grace days of its tenant's subscription, or the default ones. It writes nothing.
    pub cp_verify_device-runs :
        (dev : Device)
        → first
            (λ (d : Device). d.hardware_uuid == hw && d.tenant_id == t.tenant_id)
            w.device_activations
          ≡ some dev
        → Succeeds (IsVerdict body w dev) (cp_verify_device env (some k) body w)
    unfolding cp_verify_device tenant_for_service
    cp_verify_device-runs dev found = Succeeds-then _ _ w _ (tenant_row-ok k w tenant product) (
        Succeeds-then _ _ w _ (required-ok w has_uuid) (
          Succeeds-then (now env) _ w _ refl (
            Succeeds-then _ _ _ _ refl (
              rw found (
                Succeeds-weaken _ (IsVerdict body w dev) _
                  (verify_found-runs (key_or_empty body.license_key) (env.clock w.asked) dev _)
                  (λ r v q. (q.0, ap (λ (u : World). u.db) q.1)))))))

    -- For a device that has no row of the tenant it returns that the device is unknown.
    cp_verify_device-unknown :
        first
            (λ (d : Device). d.hardware_uuid == hw && d.tenant_id == t.tenant_id)
            w.device_activations
          ≡ none
        → Succeeds
            (λ r v. (r.valid ≡ false) × (r.state ≡ State.unknown) × (v.db ≡ w.db))
            (cp_verify_device env (some k) body w)
    unfolding cp_verify_device tenant_for_service verify_found
    cp_verify_device-unknown missing = Succeeds-then _ _ w _ (tenant_row-ok k w tenant product) (
        Succeeds-then _ _ w _ (required-ok w has_uuid) (
          Succeeds-then (now env) _ w _ refl
            (Succeeds-then _ _ _ _ refl (rw missing (refl, refl, refl)))))
