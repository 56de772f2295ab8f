-- ===== src/Service/Ownership/Devices.antt =====
-- Releasing, revoking and reinstating a device, in licensing-master/src/service.py, leave its tenant and its
-- token.
use licensing_master.Base.{
  ℕ, suc, ◌≡◌, refl, String, string_eq, Bool, false, Option, none, some, arith, ltb, if◌then◌else◌,
  nat_eq,
}
use licensing_master.Tables.{BatchToken, Device, Subscription, Payload}
use licensing_master.Exec.{Env, next_serial}
use licensing_master.Exec.Keeps.{
  Keeps, Keeps-modify, Keeps-next_serial, Keeps-bind, Keeps-pure, Keeps-gets,
}
use licensing_master.Service.Rows.{TenantRow, audit, update_devices, update_tokens}
use licensing_master.Service.Reads.{read_rules}
use licensing_master.Service.Seats.{
  consume_seat, release_seat, hand_back, hand_back_of, has_room, has_seat, take_seat, give_seat,
  is_live_at,
}
use licensing_master.Service.Devices.{
  cp_release_seat, after_release, admin_revoke_device, consume_again, rebook, revive_only,
  revive_fresh, revive, reinstate, admin_reinstate_device,
}
use licensing_master.Service.Accounting.Steps.{revoke, at_uuid}
use licensing_master.Service.Ownership.{IsOwned, Owned-later, Owned-tokens, Owned-devices}

pub keep_serial : Keeps IsOwned next_serial
keep_serial =
    Keeps-next_serial (λ db h. Owned-later _ _ _ db.serial h (suc db.serial) (omega arith))

pub keep_audit :
    (env : Env) (actor action kind target : String) (payload : Option Payload)
    → Keeps IsOwned (audit env actor action kind target payload)
unfolding audit
keep_audit env actor action kind target payload = search (read_rules, keep_serial, Keeps-modify)

pub keep_tokens :
    (p : BatchToken → Bool) (f : BatchToken → BatchToken)
    → ((b : BatchToken) → (f b).batch_token_id ≡ b.batch_token_id)
    → ((b : BatchToken) → (f b).subscription_id ≡ b.subscription_id)
    → Keeps IsOwned (update_tokens p f)
unfolding update_tokens
keep_tokens p f id of = Keeps-bind _ _ (Keeps-gets _) (λ matched.
    Keeps-bind _ _ (Keeps-modify _ (λ db h. Owned-tokens _ _ _ _ h p f id of)) (λ _. Keeps-pure _))

pub keep_devices :
    (p : Device → Bool) (f : Device → Device)
    → ((d : Device) → (f d).tenant_id ≡ d.tenant_id)
    → ((d : Device) → (f d).activated_via ≡ d.activated_via)
    → Keeps IsOwned (update_devices p f)
unfolding update_devices
keep_devices p f tenant via = Keeps-bind _ _ (Keeps-gets _) (λ found.
    Keeps-bind _ _ (Keeps-modify _ (λ db h. Owned-devices _ _ _ _ h p f tenant via))
      (λ _. Keeps-pure _))

keep_hand_back : (o : Option ℕ) → Keeps IsOwned (hand_back o)
unfolding hand_back
keep_hand_back none = Keeps-pure tt
keep_hand_back (some k) =
    Keeps-bind _ _ (keep_tokens (has_seat k) give_seat (λ _. refl) (λ _. refl)) (λ _. Keeps-pure tt)

keep_hand_back_of : (o : Option Device) → Keeps IsOwned (hand_back_of o)
unfolding hand_back_of
keep_hand_back_of none = Keeps-pure none
keep_hand_back_of (some d) = search (read_rules, keep_hand_back)

keep_release : (hw : String) → Keeps IsOwned (release_seat hw)
unfolding release_seat
keep_release hw =
    Keeps-bind _ _ (keep_devices (is_live_at hw) revoke (λ _. refl) (λ _. refl)) keep_hand_back_of

keep_consume : (tok : BatchToken) → Keeps IsOwned (consume_seat tok)
unfolding consume_seat
keep_consume tok =
    Keeps-bind _ _ (keep_tokens (has_room tok.batch_token_id) take_seat (λ _. refl) (λ _. refl))
      (λ updated. search read_rules)

keep_again : (o : Option BatchToken) → Keeps IsOwned (consume_again o)
unfolding consume_again
keep_again none = Keeps-pure tt
keep_again (some tok) = keep_consume tok

keep_rebook : (o : Option ℕ) → Keeps IsOwned (rebook o)
unfolding rebook
keep_rebook none = Keeps-pure tt
keep_rebook (some k) = search (read_rules, keep_again)

module _ (env : Env) where
  pub cp_release_seat-IsOwned :
      (k : Option ℕ) (hw : String) → Keeps IsOwned (cp_release_seat env k hw)
  unfolding cp_release_seat
  cp_release_seat-IsOwned k hw = search (read_rules, keep_release)

  keep_after_release :
      (actor hw : String) (o : Option Device) → Keeps IsOwned (after_release env actor hw o)
  unfolding after_release
  keep_after_release actor hw none = search read_rules
  keep_after_release actor hw (some row) = search (read_rules, keep_audit)

  pub admin_revoke_device-IsOwned :
      (actor hw : String) → Keeps IsOwned (admin_revoke_device env actor hw)
  unfolding admin_revoke_device
  admin_revoke_device-IsOwned actor hw = search (read_rules, keep_release, keep_after_release)

  keep_revive_only : (hw : String) → Keeps IsOwned (revive_only env hw)
  unfolding revive_only
  keep_revive_only hw = keep_devices (at_uuid hw) _ (λ _. refl) (λ _. refl)

  keep_revive :
      (hw : String) (sub : Subscription) (t : TenantRow) (dev : Device)
      → Keeps IsOwned (revive env hw sub t dev)
  unfolding revive revive_fresh
  keep_revive hw sub t dev = search (read_rules, keep_revive_only, keep_fresh)
    where
      keep_fresh :
          (fresh : ℕ)
          → Keeps IsOwned (
              update_devices (at_uuid hw) (λ d. record d {
                is_revoked = false;
                valid_until = if ltb dev.valid_until fresh then fresh else d.valid_until;
              }))
      keep_fresh fresh = keep_devices (at_uuid hw) _ (λ _. refl) (λ _. refl)

  keep_reinstate : (actor hw : String) (dev : Device) → Keeps IsOwned (reinstate env actor hw dev)
  unfolding reinstate
  keep_reinstate actor hw dev = search (read_rules, keep_rebook, keep_revive, keep_audit) depth 20

  pub admin_reinstate_device-IsOwned :
      (actor hw : String) → Keeps IsOwned (admin_reinstate_device env actor hw)
  unfolding admin_reinstate_device
  admin_reinstate_device-IsOwned actor hw = search (read_rules, keep_reinstate)
