-- ===== src/Service/Activation/Writes.antt =====
-- The `INSERT` and the `UPDATE` of a booking in licensing-master/src/service.py, by whether the columns
-- take the row.
use licensing_master.Base.{
  suc, ◌≡◌, refl, String, ◌==◌, string_eq, true, none, some, [], ◌∷◌, ◌++◌, Bool-cases, inl, inr,
}
use licensing_master.Base.Rows.{first}
use licensing_master.Tables.{Device}
use licensing_master.Exec.{Env, World, Returns, ok, ◌>>=◌}
use licensing_master.Service.Rows.{find_device, update_devices}
use licensing_master.Service.Outcomes.{changed}
use licensing_master.Service.Activation.{new_device, row_fits, insert_device, write_booking}

module _ (env : Env) (hw : String) (fill revive : Device → Device) (w : World) where
  -- the world after the `INSERT`
  abbrev pub inserted : World
  inserted = record w {
    db = record w.db {
      device_activations = w.device_activations ++ fill (new_device env w.serial hw) ∷ [];
      serial = suc w.serial;
    };
  }

  -- the world after the `UPDATE`
  abbrev pub rewritten : World
  rewritten = changed (λ d. d.hardware_uuid == hw) (λ d. revive (fill d)) w

  module _
      (absent : first (λ (d : Device). d.hardware_uuid == hw) w.device_activations ≡ none) where
    pub write_new-ok :
        row_fits (fill (new_device env w.serial hw)) ≡ true
        → write_booking env hw none fill revive w
          ≡ (ok (fill (new_device env w.serial hw)), inserted)
    unfolding write_booking insert_device find_device ◌>>=◌
    write_new-ok narrow = rw (narrow, absent) refl

    pub write_new-Returns :
        (P : World → Type 0)
        → P inserted
        → Returns (λ _ v. P v) (write_booking env hw none fill revive w)
    write_new-Returns P h = elim (Bool-cases (row_fits (fill (new_device env w.serial hw)))) [
      | inl narrow ↦ rw (write_new-ok narrow) h
      | inr wide ↦ unfold write_booking insert_device find_device ◌>>=◌ in rw wide tt
    ]

  module _ (d : Device)
      (found : first (λ (d : Device). d.hardware_uuid == hw) w.device_activations ≡ some d)
      (old : Device) where
    pub write_old-ok :
        row_fits (revive (fill d)) ≡ true
        → write_booking env hw (some old) fill revive w ≡ (ok (revive (fill d)), rewritten)
    unfolding write_booking update_devices ◌>>=◌
    write_old-ok narrow = rw found (rw narrow refl)

    pub write_old-Returns :
        (P : World → Type 0)
        → P rewritten
        → Returns (λ _ v. P v) (write_booking env hw (some old) fill revive w)
    write_old-Returns P h = elim (Bool-cases (row_fits (revive (fill d)))) [
      | inl narrow ↦ rw (write_old-ok narrow) h
      | inr wide ↦ unfold write_booking update_devices ◌>>=◌ in rw found (rw wide tt)
    ]
