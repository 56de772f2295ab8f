-- ===== src/Service/Accounting/Devices.antt =====
-- `admin_reinstate_device` and `cp_consume_seat` keep the accounting.
use licensing_master.Base.{
  ℕ, ◌≡◌, ◌≢◌, refl, ◌∙◌, nat_eq, string_eq, String, true, Option, none, some, arith,
}
use licensing_master.Base.Rows.{first, count, update}
use licensing_master.Tables.{BatchToken, Device, Subscription}
use licensing_master.Exec.{Env, World, Returns}
use licensing_master.Exec.Returns.{
  Returns-bind, Returns-then, Returns-now, Returns-if, Returns-raise_if, Returns-or_raise,
}
use licensing_master.Service.Rows.{TenantRow}
use licensing_master.Service.Seats.{has_room, take_seat}
use licensing_master.Service.Activation.{ActivationBody, write_booking}
use licensing_master.Service.Devices.{
  external_row, consume_new, touch_live, consume_existing, cp_consume_seat,
}
use licensing_master.Service.Accounting.{IsAccounted, IsKnown}
use licensing_master.Service.Accounting.Steps.{
  Accounted-book_old, Accounted-book_new, Accounted-edit, at_uuid,
}
use licensing_master.Service.Accounting.Booking.{
  audit-Accounted, consume_seat-Returns, ensure_tenant_seat-Returns, Returns-required,
}
use licensing_master.Service.Accounting.Activation.{
  subscription_row-Returns, tenant_for_service-Returns, batch_token_row-Returns,
  find_device-Returns, token-IsKnown, update_devices-Returns,
}
use licensing_master.Service.Activation.Writes.{write_new-Returns, write_old-Returns}

module _ (env : Env) (t : TenantRow) (sub : Subscription) (tok : BatchToken) (body : ActivationBody)
    (token hw : String) (at : ℕ) (w : World) (h : IsAccounted w.db) where
  consume_new-Accounted :
      (existing : Option Device)
      → IsKnown w.serial (some tok.batch_token_id)
      → first (at_uuid hw) w.device_activations ≡ existing
      → ((d : Device) → existing ≡ some d → d.is_revoked ≡ true)
      → Returns (λ _ v. IsAccounted v.db) (consume_new env t sub tok body token hw existing at w)
  unfolding consume_new
  consume_new-Accounted existing known found gone =
      Returns-then _ _ _ _ w w (ensure_tenant_seat-Returns t.tenant_id sub w) λ _ _.
        Returns-then _ _ _ _ w _ (consume_seat-Returns tok w) λ _ room.
          Returns-bind _ (λ _ v. IsAccounted v.db) _ _ _ (written existing found gone room)
            λ _ v hv. Returns-bind _ _ _ _ v (audit-Accounted env _ _ _ _ _ v hv) λ _ _ hu. hu
    where
      written :
          (existing : Option Device)
          → first (at_uuid hw) w.device_activations ≡ existing
          → ((d : Device) → existing ≡ some d → d.is_revoked ≡ true)
          → count (has_room tok.batch_token_id) w.batch_tokens ≢ 0
          → Returns
              (λ _ v. IsAccounted v.db)
              (write_booking env hw existing
                (external_row env t sub tok body hw at)
                (λ d. d)
                (record w {
                  db = record w.db {
                    batch_tokens = update (has_room tok.batch_token_id) take_seat w.batch_tokens;
                  };
                }))
      written none found gone room =
          unfold external_row in
          write_new-Returns env hw _ _ _ found (λ v. IsAccounted v.db)
            (Accounted-book_new w.batch_tokens w.device_activations w.serial h tok.batch_token_id _
              room known found refl refl)
      written (some d) found gone room =
          unfold external_row in
          write_old-Returns env hw _ _ _ d found d (λ v. IsAccounted v.db)
            (Accounted-book_old w.batch_tokens w.device_activations w.serial h tok.batch_token_id hw
              _ d room known found (gone d refl) (λ _. refl) (λ _. refl) (λ _. refl))

  consume_existing-Accounted :
      (existing : Option Device)
      → IsKnown w.serial (some tok.batch_token_id)
      → first (at_uuid hw) w.device_activations ≡ existing
      → Returns
          (λ _ v. IsAccounted v.db)
          (consume_existing env t sub tok body token hw at existing w)
  unfolding consume_existing
  consume_existing-Accounted none known found =
      consume_new-Accounted none known found (λ d e. absurd (cc))
  consume_existing-Accounted (some d) known found =
      Returns-if _ d.is_revoked _ _ w
        (λ dead. consume_new-Accounted (some d) known found (λ x e. ground arith))
        (λ live.
          unfold touch_live in
          (Returns-bind _ (λ _ v. IsAccounted v.db) _ _ w
            (update_devices-Returns (at_uuid hw) _ w (
              Accounted-edit w.batch_tokens w.device_activations w.serial h (at_uuid hw) _
                (λ _. refl) (λ _. refl) (λ _. refl)))
            (λ _ _ hv. hv)))

-- Booking a seat for a product backend's own device keeps the accounting.
pub cp_consume_seat-Accounted :
    (env : Env) (tenant_id : Option ℕ) (body : ActivationBody) (w : World)
    → IsAccounted w.db
    → Returns (λ _ v. IsAccounted v.db) (cp_consume_seat env tenant_id body w)
unfolding cp_consume_seat
cp_consume_seat-Accounted env tenant_id body w h =
    Returns-then _ _ _ _ w w (tenant_for_service-Returns tenant_id w) λ t _.
      Returns-then _ _ _ _ w w (subscription_row-Returns t.tenant_id w) λ sub _.
        Returns-then _ _ _ _ _ _ (Returns-required body.token _) λ token _.
          Returns-then _ _ _ _ _ _ (batch_token_row-Returns token _) λ found e.
            Returns-now _ env _ w (
              Returns-then _ _ _ _ _ _ (Returns-raise_if _ _ _) λ _ _.
                Returns-then _ _ _ _ _ _ (Returns-or_raise found _ _) λ tok e'.
                  Returns-then _ _ _ _ _ _ (Returns-required body.hardware_uuid _) λ hw _.
                    Returns-then _ _ _ _ _ _ (find_device-Returns hw _) λ existing e''.
                      consume_existing-Accounted env t sub tok body token hw _ _ h existing
                        (token-IsKnown w _ tok h (e ∙ e')) e'')
