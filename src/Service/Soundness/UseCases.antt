-- ===== src/Service/Soundness/UseCases.antt =====
-- The use cases of licensing-master/src/service.py that move seats keep the database sound.
use licensing_master.Base.{ℕ, String, Option}
use licensing_master.Exec.{Env}
use licensing_master.Exec.Keeps.{Keeps}
use licensing_master.Service.Activation.{ActivationBody, cp_activate, public_activate}
use licensing_master.Service.Devices.{
  cp_release_seat, cp_consume_seat, admin_revoke_device, admin_reinstate_device,
}
use licensing_master.Service.Accounting.Activation.{
  cp_activate-Accounted, public_activate-Accounted,
}
use licensing_master.Service.Accounting.Devices.{cp_consume_seat-Accounted}
use licensing_master.Service.Accounting.Release.{
  cp_release_seat-Accounted, admin_revoke_device-Accounted,
}
use licensing_master.Service.Accounting.Reinstate.{admin_reinstate_device-Accounted}
use licensing_master.Service.Ownership.UseCases.{
  public_activate-IsOwned, cp_activate-IsOwned, cp_consume_seat-IsOwned,
}
use licensing_master.Service.Ownership.Devices.{
  cp_release_seat-IsOwned, admin_revoke_device-IsOwned, admin_reinstate_device-IsOwned,
}
use licensing_master.Service.Soundness.{IsSound, Keeps-both}

module _ (env : Env) where
  pub public_activate-IsSound : (body : ActivationBody) → Keeps IsSound (public_activate env body)
  public_activate-IsSound body =
      Keeps-both _ (λ w h. public_activate-Accounted env body w h.accounted)
        (λ w h. public_activate-IsOwned env body w h.accounted h.owned)

  pub cp_activate-IsSound :
      (k : Option ℕ) (body : ActivationBody) → Keeps IsSound (cp_activate env k body)
  cp_activate-IsSound k body =
      Keeps-both _ (λ w h. cp_activate-Accounted env k body w h.accounted)
        (λ w h. cp_activate-IsOwned env body w h.accounted h.owned k)

  pub cp_consume_seat-IsSound :
      (k : Option ℕ) (body : ActivationBody) → Keeps IsSound (cp_consume_seat env k body)
  cp_consume_seat-IsSound k body =
      Keeps-both _ (λ w h. cp_consume_seat-Accounted env k body w h.accounted)
        (λ w h. cp_consume_seat-IsOwned env body w h.accounted h.owned k)

  pub cp_release_seat-IsSound :
      (k : Option ℕ) (hw : String) → Keeps IsSound (cp_release_seat env k hw)
  cp_release_seat-IsSound k hw =
      Keeps-both _ (λ w h. cp_release_seat-Accounted env hw w h.accounted k)
        (λ w h. (cp_release_seat-IsOwned env k hw).kept w h.owned)

  pub admin_revoke_device-IsSound :
      (actor hw : String) → Keeps IsSound (admin_revoke_device env actor hw)
  admin_revoke_device-IsSound actor hw =
      Keeps-both _ (λ w h. admin_revoke_device-Accounted env hw w h.accounted actor)
        (λ w h. (admin_revoke_device-IsOwned env actor hw).kept w h.owned)

  pub admin_reinstate_device-IsSound :
      (actor hw : String) → Keeps IsSound (admin_reinstate_device env actor hw)
  admin_reinstate_device-IsSound actor hw =
      Keeps-both _ (λ w h. admin_reinstate_device-Accounted env actor hw w h.accounted)
        (λ w h. (admin_reinstate_device-IsOwned env actor hw).kept w h.owned)
