-- ===== src/Service/Accounting/Release.antt =====
-- `_release_seat` and its callers keep the accounting.
use mathlib.Core.Option
use licensing_master.Base.{ℕ, suc, zero, ◌≡◌, refl, String, Option, none, some, arith}
use licensing_master.Base.Rows.{first, update, All-first, update-none}
use licensing_master.Tables.{Device}
use licensing_master.Exec.{Env, World, Returns, not_found, ◌>>=◌}
use licensing_master.Exec.Returns.{Returns-bind, Returns-then, Returns-weaken, Returns-or_raise}
use licensing_master.Service.Rows.{update_tokens, device_row, find_device}
use licensing_master.Service.Devices.{cp_release_seat, admin_revoke_device, after_release}
use licensing_master.Service.Accounting.Booking.{audit-Accounted, update_devices_lem}
use licensing_master.Service.Seats.{release_seat, hand_back, hand_back_of, is_live_at, truthy_id}
use licensing_master.Service.Accounting.{IsAccounted, IsKnown}
use licensing_master.Service.Accounting.Steps.{revoke}
use licensing_master.Service.Accounting.Revocations.{Accounted-revoke, Accounted-revoke-none}

module _ (hw : String) (w : World) (h : IsAccounted w.db) where
  abbrev freed : World
  freed = record w {
    db = record w.db { device_activations = update (is_live_at hw) revoke w.device_activations };
  }

  hand_back-Accounted :
      (d : Device) (via : Option ℕ)
      → first (is_live_at hw) w.device_activations ≡ some d
      → d.activated_via ≡ via
      → IsKnown w.serial via
      → Returns (λ _ v. IsAccounted v.db) (hand_back (truthy_id via) freed)
  unfolding hand_back update_tokens ◌>>=◌
  hand_back-Accounted d none found via known =
      Accounted-revoke-none w.batch_tokens w.device_activations w.serial h hw d found via
  hand_back-Accounted d (some zero) found via known = absurd (omega arith)
  hand_back-Accounted d (some (suc k)) found via known =
      Accounted-revoke w.batch_tokens w.device_activations w.serial h hw d found (suc k) via

  split :
      (o : Option Device)
      → first (is_live_at hw) w.device_activations ≡ o
      → Returns (λ _ v. IsAccounted v.db) (hand_back_of (Option.map revoke o) freed)
  unfolding hand_back_of
  split none missing =
      let same : update (is_live_at hw) revoke w.device_activations ≡ w.device_activations =
        update-none (is_live_at hw) revoke w.device_activations missing in
      rw same h
  split (some d) found =
      Returns-bind _ (λ _ v. IsAccounted v.db) _ _ _
        (hand_back-Accounted d d.activated_via found refl (
          All-first (λ (d : Device). IsKnown w.serial d.activated_via) (is_live_at hw)
            w.device_activations h.devices_known found))
        (λ _ _ hv. hv)

  -- Freeing a seat keeps the accounting, whether or not there is one.
  pub release_seat-Accounted : Returns (λ _ v. IsAccounted v.db) (release_seat hw w)
  unfolding release_seat
  release_seat-Accounted =
      Returns-then _ (λ o. o ≡ Option.map revoke (first (is_live_at hw) w.device_activations)) _ _ w
        freed (update_devices_lem (is_live_at hw) revoke w) λ o e. rw e (split _ refl)

module _ (env : Env) (hw : String) (w : World) (h : IsAccounted w.db) where
  pub cp_release_seat-Accounted :
      (tenant_id : Option ℕ)
      → Returns (λ _ v. IsAccounted v.db) (cp_release_seat env tenant_id hw w)
  unfolding cp_release_seat
  cp_release_seat-Accounted tenant_id =
      Returns-bind _ _ _ _ w (release_seat-Accounted hw w h) (λ _ _ hv. hv)

  pub admin_revoke_device-Accounted :
      (actor : String) → Returns (λ _ v. IsAccounted v.db) (admin_revoke_device env actor hw w)
  unfolding admin_revoke_device
  admin_revoke_device-Accounted actor = Returns-bind _ _ _ _ w (release_seat-Accounted hw w h) after
    where
      after :
          (o : Option Device) (v : World)
          → IsAccounted v.db
          → Returns (λ _ v. IsAccounted v.db) (after_release env actor hw o v)
      after none v hv =
          unfold after_release device_row find_device in
          (Returns-then _ (λ _. Unit {0}) _ _ v v (tt, refl)
            λ o _.
              Returns-weaken _ (λ _ u. IsAccounted u.db) _ (Returns-or_raise o not_found v)
                (λ _ _ e. rw e.1 hv))
      after (some d) v hv =
          unfold after_release in
          Returns-bind _ _ _ _ v (audit-Accounted env actor "device.revoke" "device" hw none v hv)
            (λ _ _ hu. hu)
