-- ===== src/Service/Activation/Bookings.antt =====
-- The booking branch of `_do_activate` in licensing-master/src/service.py, for a device that is new
-- or revoked.
use Prim.Native.String.{◌++◌ as ◌++ˢ◌}
use licensing_master.Base.{
  ℕ, ◌+◌, ◌*◌, ◌<◌, ◌≡◌, ◌≢◌, refl, ◌∙◌, String, ◌==◌, nat_eq, string_eq, true, false, Option, none,
  some, arith, [], ◌∷◌, fits, fits_opt, ==_refl, ◌&&◌, ltb,
}
use licensing_master.Base.Rows.{
  first, count, update, first-sat, count-append, first-append, first-update,
}
use licensing_master.Base.Keys.{Unique, count-update}
use licensing_master.Tables.{Subscription, BatchToken, Device}
use licensing_master.Exec.{Env, World, random_token, value_error}
use licensing_master.Exec.Succeeds.{
  Succeeds, Succeeds-then, Succeeds-bind, Succeeds-weaken, Succeeds-if_true, raise_if-ok,
}
use licensing_master.Signer.{Signs}
use licensing_master.Service.Rows.{TenantRow, find_device}
use licensing_master.Service.Seats.{has_room, take_seat, is_live_of}
use licensing_master.Service.Seats.Outcomes.{consume_seat-ok, ensure_tenant_seat-ok}
use licensing_master.Service.Activation.{
  ActivationBody, or_none, us_per_day, booked_row, write_booking, book, activate_existing,
  do_activate, activation_result, ActivationResult, latest,
}
use licensing_master.Service.Activation.Outcomes.{required-ok, activation_result-Succeeds}
use licensing_master.Service.Activation.Writes.{write_new-ok, write_old-ok}

module _ (env : Env) (t : TenantRow) (sub : Subscription) (tok : BatchToken) (hw : String)
    (at : ℕ) where
  -- a row of the device for the tenant, with the window and the key of a booking
  pub record IsBooked (key : String) (row : Device) : Type 0 where
    pub device : row.hardware_uuid ≡ hw
    pub tenant : row.tenant_id ≡ t.tenant_id
    pub key_given : row.license_key ≡ key
    pub window : row.valid_until ≡ at + sub.window_days * us_per_day
    pub via : row.activated_via ≡ some tok.batch_token_id
    pub live : row.is_revoked ≡ false

  -- the old row of the device after a booking
  abbrev rebooked : String → String → Option String → Device → Device
  rebooked name key branch d = record (booked_row env t sub tok name branch key at d) {
    is_revoked = false;
    last_seen_at = some at;
  }

  write_booking-Succeeds :
      (name key : String) (branch : Option String) (w : World)
      → Unique (λ (d : Device). d.hardware_uuid) w.device_activations
      → (existing : Option Device)
      → first (λ (d : Device). d.hardware_uuid == hw) w.device_activations ≡ existing
      → ((d : Device) → existing ≡ some d → d.is_revoked ≡ true)
      → (fits 150 hw && fits 100 name && fits_opt 60 branch) ≡ true
      → Succeeds
          (λ row v.
            IsBooked key row
            × (first (λ (d : Device). d.hardware_uuid == hw) v.device_activations ≡ some row)
            × (v.batch_tokens ≡ w.batch_tokens)
            × (count (is_live_of t.tenant_id) v.device_activations
                ≡ count (is_live_of t.tenant_id) w.device_activations + 1))
          (write_booking env hw existing
            (booked_row env t sub tok name branch key at)
            (λ d. record d { is_revoked = false; last_seen_at = some at })
            w)
  unfolding booked_row
  write_booking-Succeeds name key branch w unique none found gone narrow =
      rw
        (write_new-ok env hw (booked_row env t sub tok name branch key at)
          (λ d. record d { is_revoked = false; last_seen_at = some at }) w found narrow)
        (
          record {
            device = refl;
            tenant = refl;
            key_given = refl;
            window = refl;
            via = refl;
            live = refl;
          },
          first-append (λ (d : Device). d.hardware_uuid == hw) w.device_activations _ found
              (==_refl hw),
          refl,
          rw (count-append (is_live_of t.tenant_id) w.device_activations (_ ∷ [])) (ground arith),
        )
  write_booking-Succeeds name key branch w unique (some d) found gone narrow =
      let same : d.hardware_uuid ≡ hw =
        (string_eq.decides d.hardware_uuid hw).0
          (first-sat (λ (d : Device). d.hardware_uuid == hw) w.device_activations found) in
      let dead : d.is_revoked ≡ true = gone d refl in
      let moved =
        count-update (λ (x : Device). x.hardware_uuid) (is_live_of t.tenant_id)
          (λ (d : Device). d.hardware_uuid == hw) (rebooked name key branch) hw w.device_activations
          {r = d} (λ x on. on) unique found in
      let stored =
        first-update (λ (x : Device). x.hardware_uuid == hw) (λ (x : Device). x.hardware_uuid == hw)
          (rebooked name key branch) w.device_activations {x = d} (λ x. refl) found in
      rw
        (write_old-ok env hw (booked_row env t sub tok name branch key at)
          (λ d. record d { is_revoked = false; last_seen_at = some at }) w d found d
          (rw same narrow))
        (
          record {
            device = same;
            tenant = refl;
            key_given = refl;
            window = refl;
            via = refl;
            live = refl;
          },
          stored ∙ rw same (rw (==_refl hw) refl),
          refl,
          ground (arith, dead, moved),
        )

  -- what a booking returns and leaves
  abbrev pub IsNewSeat : World → ActivationResult → World → Type 0
  IsNewSeat w r v =
      IsBooked ("LIC-" ++ˢ env.token_urlsafe w.asked) r.device
      × (r.reactivated ≡ false)
      × (first (λ (d : Device). d.hardware_uuid == hw) v.device_activations ≡ some r.device)
      × (v.batch_tokens ≡ update (has_room tok.batch_token_id) take_seat w.batch_tokens)
      × (count (is_live_of t.tenant_id) v.device_activations
          ≡ count (is_live_of t.tenant_id) w.device_activations + 1)

module _ (env : Env) (t : TenantRow) (sub : Subscription) (tok : BatchToken) (body : ActivationBody)
    (hw name : String) (at : ℕ) (w : World) (signs : Signs env)
    (has_uuid : body.hardware_uuid ≡ some hw) (has_name : body.device_name ≡ some name)
    (unique : Unique (λ (d : Device). d.hardware_uuid) w.device_activations)
    (gone : (d : Device)
      → first (λ (d : Device). d.hardware_uuid == hw) w.device_activations ≡ some d
      → d.is_revoked ≡ true)
    (free : count (is_live_of t.tenant_id) w.device_activations < sub.seat_limit)
    (room : count (has_room tok.batch_token_id) w.batch_tokens ≢ 0)
    (narrow : (fits 150 hw && fits 100 (env.strip name) && fits_opt 60 (or_none body.branch_ref))
      ≡ true)
    (in_time : ltb latest (at + sub.window_days * us_per_day) ≡ false) where
  book-Succeeds :
      (existing : Option Device)
      → first (λ (d : Device). d.hardware_uuid == hw) w.device_activations ≡ existing
      → Succeeds (IsNewSeat env t sub tok hw at w) (book env t sub tok body hw existing at w)
  unfolding book
  book-Succeeds existing found =
      Succeeds-then _ _ w _ (ensure_tenant_seat-ok t.tenant_id sub w free) (
        Succeeds-then _ _ w _ (consume_seat-ok tok w room) (
          Succeeds-then _ _ _ _ (required-ok _ has_name) (
            Succeeds-then (random_token env) _ _ _ refl (
              Succeeds-then _ _ _ _ (raise_if-ok value_error _ in_time) (
                Succeeds-bind _ _ _ _ _
                  (write_booking-Succeeds env t sub tok hw at (env.strip name)
                    ("LIC-" ++ˢ env.token_urlsafe w.asked) (or_none body.branch_ref) _ unique
                    existing found (λ d e. gone d (found ∙ e)) narrow)
                  (λ row v (booked, stored, tokens, live).
                    Succeeds-weaken _ _ (activation_result env row t at false v)
                      (activation_result-Succeeds env t row at false v signs)
                      (λ r u (same, is).
                        rw (same, is.about) (booked, is.flagged, stored, tokens, live))))))))

  -- Let the process be able to sign, the body name a device and its name, every row of the device be
  -- revoked, the tenant have fewer live devices than its seat limit and the token's row a seat left, and
  -- let the columns take the device's identifier, name and branch and the window end before the year 10000. Then the activation returns: the row
  -- that is stored for the device is the one returned, of the tenant, live, booked against the token,
  -- with the new key and a window from now; the token has one seat less to give and the
  -- tenant one live device more.
  pub do_activate-Booked :
      Succeeds (IsNewSeat env t sub tok hw at w) (do_activate env t sub tok body at w)
  unfolding do_activate find_device
  do_activate-Booked =
      Succeeds-then _ _ w _ (required-ok w has_uuid) (Succeeds-then _ _ w _ refl (split _ refl))
    where
      split :
          (existing : Option Device)
          → first (λ (d : Device). d.hardware_uuid == hw) w.device_activations ≡ existing
          → Succeeds
              (IsNewSeat env t sub tok hw at w)
              (activate_existing env t sub tok body hw at existing w)
      split none found = unfold activate_existing in book-Succeeds none found
      split (some d) found =
          unfold activate_existing in
          Succeeds-if_true (IsNewSeat env t sub tok hw at w) d.is_revoked _ _ w (gone d found)
            (book-Succeeds (some d) found)
