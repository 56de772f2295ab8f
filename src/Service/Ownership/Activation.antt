-- ===== src/Service/Ownership/Activation.antt =====
-- `_do_activate` of licensing-master/src/service.py, and the booking of `cp_consume_seat`, with a token of the
-- tenant.
use Prim.Native.String.{◌++◌ as ◌++ˢ◌}
use licensing_master.Base.{
  ℕ, ◌+◌, ◌*◌, ◌≡◌, refl, nat_eq, string_eq, String, Bool, false, Option, none, some,
}
use licensing_master.Tables.{Subscription, BatchToken, Device, Db}
use licensing_master.Exec.{Env}
use licensing_master.Exec.Keeps.{Keeps, Keeps-bind, Keeps-pure}
use licensing_master.Service.Reads.{read_rules}
use licensing_master.Service.Rows.{TenantRow, update_devices}
use licensing_master.Exec.Returns.{Returns-weaken}
use licensing_master.Service.Accounting.Booking.{activation_result-Returns}
use licensing_master.Service.Activation.{
  ActivationBody, or_none, us_per_day, booked_row, write_booking, book, reactivate,
  activate_existing, do_activate, activation_result,
}
use licensing_master.Service.Devices.{external_row, consume_new, touch_live, consume_existing}
use licensing_master.Service.Accounting.Steps.{at_uuid}
use licensing_master.Service.Ownership.Bookings.{
  IsBooking, keep_serial, keep_audit, keep_consume_seat, keep_edit, keep_write,
}

module _ (env : Env) (t : TenantRow) (sub : Subscription) (tok : BatchToken) where
  abbrev pub IsToBook : Db → Type 0
  IsToBook = IsBooking tok.batch_token_id t.tenant_id

  ruleset booking_rules = (read_rules, keep_serial, keep_audit, keep_consume_seat)

  keep_result :
      (dev : Device) (at : ℕ) (again : Bool) → Keeps IsToBook (activation_result env dev t at again)
  keep_result dev at again = record {
    kept = λ w h.
        Returns-weaken (λ _ v. v ≡ w) (λ _ v. IsToBook v.db)
          (activation_result env dev t at again w)
          (activation_result-Returns env t sub tok dev at again w) (λ _ v e. rw e h);
  }

  keep_book :
      (body : ActivationBody) (hw : String) (o : Option Device) (at : ℕ)
      → Keeps IsToBook (book env t sub tok body hw o at)
  unfolding book booked_row
  keep_book body hw o at = search (booking_rules, keep_result, keep_row) depth 20
    where
      keep_row :
          (name key : String)
          → Keeps IsToBook (
              write_booking env hw o
                (booked_row env t sub tok name (or_none body.branch_ref) key at)
                (λ d. record d { is_revoked = false; last_seen_at = some at }))
      keep_row name key =
          keep_write _ _ env hw o _ _ (λ _. refl) (λ _. refl) (λ _. refl) (λ _. refl)

  keep_reactivate :
      (hw : String) (d : Device) (at : ℕ) → Keeps IsToBook (reactivate env t sub tok hw d at)
  unfolding reactivate
  keep_reactivate hw d at = search (booking_rules, keep_result, keep_row) depth 20
    where
      keep_row :
          (key : String)
          → Keeps IsToBook (
              update_devices (at_uuid hw) (λ d. record d {
                license_key = "LIC-" ++ˢ key;
                valid_until = at + sub.window_days * us_per_day;
                last_seen_at = some at;
              }))
      keep_row key = keep_edit _ _ (at_uuid hw) _ (λ _. refl) (λ _. refl)

  keep_existing :
      (body : ActivationBody) (hw : String) (at : ℕ) (o : Option Device)
      → Keeps IsToBook (activate_existing env t sub tok body hw at o)
  unfolding activate_existing
  keep_existing body hw at none = keep_book body hw none at
  keep_existing body hw at (some d) = search (booking_rules, keep_book, keep_reactivate)

  pub do_activate-IsBooking :
      (body : ActivationBody) (at : ℕ) → Keeps IsToBook (do_activate env t sub tok body at)
  unfolding do_activate
  do_activate-IsBooking body at = search (booking_rules, keep_existing)

  keep_external :
      (body : ActivationBody) (hw : String) (o : Option Device) (at : ℕ)
      → Keeps IsToBook (write_booking env hw o (external_row env t sub tok body hw at) (λ d. d))
  unfolding external_row
  keep_external body hw o at =
      keep_write _ _ env hw o _ _ (λ _. refl) (λ _. refl) (λ _. refl) (λ _. refl)

  keep_consume_new :
      (body : ActivationBody) (token hw : String) (o : Option Device) (at : ℕ)
      → Keeps IsToBook (consume_new env t sub tok body token hw o at)
  unfolding consume_new
  keep_consume_new body token hw o at = search (booking_rules, keep_external) depth 20

  keep_touch : (hw : String) (at : ℕ) → Keeps IsToBook (touch_live env hw at)
  unfolding touch_live
  keep_touch hw at =
      Keeps-bind _ _ (keep_edit _ _ (at_uuid hw) _ (λ _. refl) (λ _. refl)) (λ _. Keeps-pure _)

  pub consume_existing-IsBooking :
      (body : ActivationBody) (token hw : String) (at : ℕ) (o : Option Device)
      → Keeps IsToBook (consume_existing env t sub tok body token hw at o)
  unfolding consume_existing
  consume_existing-IsBooking body token hw at none = keep_consume_new body token hw none at
  consume_existing-IsBooking body token hw at (some d) =
      search (booking_rules, keep_consume_new, keep_touch)
