-- ===== src/Service/Accounting/Reinstate.antt =====
-- `admin_reinstate_device` keeps the accounting: the seat that it books is the one that the
-- revocation gave back.
use licensing_master.Base.{
  ℕ, zero, suc, ◌≡◌, refl, ◌∙◌, ap, sym, ◌==◌, nat_eq, string_eq, String, true, false, ◌&&◌, Option,
  none, some, arith,
}
use licensing_master.Base.Rows.{first, update, All-first, first-sat}
use licensing_master.Tables.{BatchToken, Device, Subscription, TenantStatus, tenant_status_beq}
use licensing_master.Exec.{Env, World, Returns, not_found, or_raise}
use licensing_master.Exec.Returns.{
  Returns-bind, Returns-then, Returns-weaken, Returns-now, Returns-if, Returns-or_raise,
}
use licensing_master.Service.Rows.{TenantRow, device_row}
use licensing_master.Service.Seats.{consume_seat, truthy_id}
use licensing_master.Service.Devices.{
  consume_again, rebook, revive, revive_fresh, revive_only, reinstate, admin_reinstate_device,
}
use licensing_master.Service.Accounting.{Accounted, IsAccounted, IsKnown}
use licensing_master.Service.Accounting.Steps.{at_uuid}
use licensing_master.Service.Accounting.Revocations.{
  Accounted-revive, Accounted-revive_none, Accounted-revive_gone,
}
use licensing_master.Service.Accounting.Booking.{
  audit-Accounted, consume_seat-Returns, ensure_tenant_seat-Returns,
}
use licensing_master.Service.Accounting.Activation.{
  tenant_row-Returns, subscription_row-Returns, find_device-Returns, update_devices-Returns,
}

-- The revoked device may be made live: its seat is booked.
abbrev IsRevivable : String → World → Type 0
IsRevivable hw w =
    (f : Device → Device)
    → ((x : Device) → (f x).hardware_uuid ≡ x.hardware_uuid)
    → ((x : Device) → (f x).is_revoked ≡ false)
    → ((x : Device) → (f x).activated_via ≡ x.activated_via)
    → Accounted w.batch_tokens (update (at_uuid hw) f w.device_activations) w.serial

pub device_row-Returns :
    (hw : String) (w : World)
    → Returns
        (λ d v. (first (at_uuid hw) w.device_activations ≡ some d) × (v ≡ w))
        (device_row hw w)
unfolding device_row
device_row-Returns hw w = Returns-then _ _ _ _ w w (find_device-Returns hw w) λ o e.
    Returns-weaken _ _ (or_raise o not_found w) (Returns-or_raise o not_found w)
      (λ d v (e', same). (e ∙ e', same))

module _ (hw : String) (d : Device) (w : World) (h : IsAccounted w.db)
    (found : first (at_uuid hw) w.device_activations ≡ some d) (dead : d.is_revoked ≡ true) where
  again :
      (k : ℕ) (o : Option BatchToken)
      → d.activated_via ≡ some k
      → first (λ (t : BatchToken). t.batch_token_id == k) w.batch_tokens ≡ o
      → Returns (λ _ v. IsRevivable hw v) (consume_again o w)
  unfolding consume_again
  again k none via row = λ f same live keep.
      Accounted-revive_gone w.batch_tokens w.device_activations w.serial h hw f d found dead same
        live keep k via row
  again k (some tok) via row =
      let id : tok.batch_token_id ≡ k =
        ground (arith, first-sat (λ (t : BatchToken). t.batch_token_id == k) w.batch_tokens row) in
      Returns-weaken _ (λ _ v. IsRevivable hw v) (consume_seat tok w) (consume_seat-Returns tok w)
        λ _ v (room, e). rw e λ f same live keep.
          Accounted-revive w.batch_tokens w.device_activations w.serial h hw f d found dead same
            live keep tok.batch_token_id (via ∙ ap some (sym id)) room

  rebook-Returns :
      (via : Option ℕ)
      → d.activated_via ≡ via
      → IsKnown w.serial via
      → Returns (λ _ v. IsRevivable hw v) (rebook (truthy_id via) w)
  unfolding rebook
  rebook-Returns none of_none known = λ f same live keep.
      Accounted-revive_none w.batch_tokens w.device_activations w.serial h hw f d found dead same
        live keep of_none
  rebook-Returns (some zero) via known = absurd (omega arith)
  rebook-Returns (some (suc k)) via known =
      Returns-then _ (λ o. first (λ (t : BatchToken). t.batch_token_id == suc k) w.batch_tokens ≡ o)
        _ _ w w (refl, refl) λ o row. again (suc k) o via row

revive-Accounted :
    (env : Env) (hw : String) (sub : Subscription) (t : TenantRow) (dev : Device) (w : World)
    → IsRevivable hw w
    → Returns (λ _ v. IsAccounted v.db) (revive env hw sub t dev w)
unfolding revive revive_fresh revive_only
revive-Accounted env hw sub t dev w ready =
    Returns-if _ (sub.is_paid && tenant_status_beq t.status TenantStatus.active)
      (revive_fresh env hw sub dev) (revive_only env hw) w
      (λ _. Returns-now _ env _ w (
        update_devices-Returns (at_uuid hw) _ (record w { asked = suc w.asked })
          (ready _ (λ _. refl) (λ _. refl) (λ _. refl))))
      (λ _. update_devices-Returns (at_uuid hw) _ w (ready _ (λ _. refl) (λ _. refl) (λ _. refl)))

module _ (env : Env) (actor hw : String) where
  reinstate-Accounted :
      (d : Device) (w : World)
      → IsAccounted w.db
      → first (at_uuid hw) w.device_activations ≡ some d
      → d.is_revoked ≡ true
      → Returns (λ _ v. IsAccounted v.db) (reinstate env actor hw d w)
  unfolding reinstate
  reinstate-Accounted d w h found dead =
      Returns-then _ _ _ _ w w (subscription_row-Returns d.tenant_id w) λ sub _.
        Returns-then _ _ _ _ w w (ensure_tenant_seat-Returns d.tenant_id sub w) λ _ _.
          Returns-bind _ (λ _ v. IsRevivable hw v) _ _ w
            (rebook-Returns hw d w h found dead d.activated_via refl (
              All-first (λ (d : Device). IsKnown w.serial d.activated_via) (at_uuid hw)
                w.device_activations h.devices_known found))
            λ _ v ready. Returns-then _ _ _ _ v v (tenant_row-Returns d.tenant_id v) λ t _.
              Returns-bind _ (λ _ u. IsAccounted u.db) _ _ v
                (revive-Accounted env hw sub t d v ready)
                λ o u hu. Returns-then _ _ _ _ u u (Returns-or_raise o _ u) λ row _.
                  Returns-bind _ _ _ _ u (audit-Accounted env _ _ _ _ _ u hu) (λ _ _ hx. hx)

  -- Reinstating a device keeps the accounting.
  pub admin_reinstate_device-Accounted :
      (w : World)
      → IsAccounted w.db
      → Returns (λ _ v. IsAccounted v.db) (admin_reinstate_device env actor hw w)
  unfolding admin_reinstate_device
  admin_reinstate_device-Accounted w h =
      Returns-then _ _ _ _ w w (device_row-Returns hw w) λ d found.
        Returns-if _ d.is_revoked _ _ w (λ dead. reinstate-Accounted d w h found dead) (λ live. h)
