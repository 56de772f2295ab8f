-- ===== src/Service/Seats/Releases.antt =====
-- `_release_seat` of licensing-master/src/service.py, called once and called again.
use licensing_master.Base.{ℕ, ◌≡◌, refl, String, Option, none, some, arith}
use licensing_master.Base.Rows.{first, update, first-update_off, update-none}
use licensing_master.Tables.{Device}
use licensing_master.Exec.{World, ok, ◌>>=◌}
use licensing_master.Exec.Succeeds.{Succeeds, Succeeds-then, Succeeds-bind, Succeeds-weaken}
use licensing_master.Service.Rows.{update_devices, update_tokens}
use licensing_master.Service.Outcomes.{update_devices-does, changed}
use licensing_master.Service.Seats.{release_seat, hand_back, hand_back_of, is_live_at, truthy_id}
use licensing_master.Service.Accounting.Steps.{revoke}

-- Without a live device there is nothing to release.
release_seat-none :
    (hw : String) (w : World)
    → first (is_live_at hw) w.device_activations ≡ none
    → release_seat hw w ≡ (ok none, w)
unfolding release_seat update_devices hand_back_of ◌>>=◌
release_seat-none hw w gone =
    rw (gone, update-none (is_live_at hw) revoke w.device_activations gone) refl

hand_back-keeps :
    (o : Option ℕ) (w : World)
    → Succeeds (λ _ v. v.device_activations ≡ w.device_activations) (hand_back o w)
unfolding hand_back update_tokens ◌>>=◌
hand_back-keeps none w = refl
hand_back-keeps (some id) w = refl

hand_back_of-keeps :
    (o : Option Device) (w : World)
    → Succeeds (λ _ v. v.device_activations ≡ w.device_activations) (hand_back_of o w)
unfolding hand_back_of
hand_back_of-keeps none w = refl
hand_back_of-keeps (some d) w =
    Succeeds-bind (λ _ v. v.device_activations ≡ w.device_activations) _ _ _ w
      (hand_back-keeps (truthy_id d.activated_via) w) (λ _ v e. e)

-- Releasing the seat of a device always returns, and releasing it again at once finds nothing and
-- changes nothing.
pub release_seat-twice :
    (hw : String) (w : World)
    → Succeeds (λ _ v. release_seat hw v ≡ (ok none, v)) (release_seat hw w)
unfolding release_seat
release_seat-twice hw w = Succeeds-then _ _ w _ (update_devices-does (is_live_at hw) revoke w) (
    Succeeds-weaken
      (λ _ v. v.device_activations ≡ update (is_live_at hw) revoke w.device_activations) _ _
      (hand_back_of-keeps _ (changed (is_live_at hw) revoke w))
      (λ r v e. release_seat-none hw v (
        rw e
          (first-update_off (is_live_at hw) revoke w.device_activations (λ x on. ground arith)))))
