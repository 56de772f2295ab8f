-- ===== src/Service/Accounting/Booking.antt =====
-- A booking takes one seat of its token and leaves one more live device: `_do_activate` keeps the
-- accounting.
use mathlib.Core.Option
use licensing_master.Base.{
  ℕ, suc, ◌<◌, ◌≡◌, ◌≢◌, refl, ◌==◌, nat_eq, string_eq, Bool, true, false, Option, none, some,
  String, List, arith, inl, inr, Bool-cases, leb, fits,
}
use licensing_master.Base.Rows.{first, count, update}
use licensing_master.Tables.{BatchToken, Device, Subscription, Payload}
use licensing_master.Exec.{Env, World, Returns, ◌>>=◌, value_error}
use licensing_master.Exec.Returns.{
  Returns-bind, Returns-then, Returns-weaken, Returns-random_token, Returns-raise_if,
}
use licensing_master.Signer.{sign_payload-Returns}
use licensing_master.Service.Rows.{TenantRow, audit, is_json, update_devices, update_tokens}
use licensing_master.Service.Seats.{
  has_room, take_seat, consume_seat, ensure_tenant_seat, is_live_of,
}
use licensing_master.Service.Activation.{
  ActivationBody, required, config_payload, booked_row, write_booking, book, activation_result,
}
use licensing_master.Service.Accounting.{Accounted, IsAccounted, IsKnown, booked}
use licensing_master.Service.Accounting.Steps.{
  Accounted-book_new, Accounted-book_old, Accounted-later, at_uuid,
}
use licensing_master.Service.Activation.Writes.{write_new-Returns, write_old-Returns}

-- The conditional update found a row with room, and moved the tokens alone.
pub consume_seat-Returns :
    (tok : BatchToken) (w : World)
    → Returns
        (λ _ v.
          (count (has_room tok.batch_token_id) w.batch_tokens ≢ 0)
          × (v ≡ record w {
            db = record w.db {
              batch_tokens = update (has_room tok.batch_token_id) take_seat w.batch_tokens;
            };
          }))
        (consume_seat tok w)
unfolding consume_seat update_tokens ◌>>=◌
consume_seat-Returns tok w =
    elim (Bool-cases (count (has_room tok.batch_token_id) w.batch_tokens == 0)) [
      | inl none_left ↦ rw none_left tt
      | inr some_left ↦ rw some_left (ground arith, refl)
    ]

pub ensure_tenant_seat-Returns :
    (tenant_id : ℕ) (sub : Subscription) (w : World)
    → Returns
        (λ _ v. (count (is_live_of tenant_id) w.device_activations < sub.seat_limit) × (v ≡ w))
        (ensure_tenant_seat tenant_id sub w)
unfolding ensure_tenant_seat ◌>>=◌
ensure_tenant_seat-Returns tenant_id sub w =
    elim (Bool-cases (leb sub.seat_limit (count (is_live_of tenant_id) w.device_activations))) [
      | inl full ↦ rw full tt
      | inr free ↦ rw free (ground arith, refl)
    ]

pub Returns-required {ℓ} :
    {A : Type ℓ} (o : Option A) (w : World) → Returns (λ a v. (o ≡ some a) × (v ≡ w)) (required o w)
Returns-required none w = tt
Returns-required (some a) w = (refl, refl)

module _ (env : Env) (t : TenantRow) (sub : Subscription) (tok : BatchToken) (hw name key : String)
    (branch : Option String) (now : ℕ) (ts : List BatchToken) (w : World)
    (before : Accounted ts w.device_activations w.serial)
    (room : count (has_room tok.batch_token_id) ts ≢ 0)
    (known : IsKnown w.serial (some tok.batch_token_id))
    (after : w.batch_tokens ≡ update (has_room tok.batch_token_id) take_seat ts) where
  pub write_booking-Returns :
      (existing : Option Device)
      → first (λ (d : Device). d.hardware_uuid == hw) w.device_activations ≡ existing
      → ((d : Device) → existing ≡ some d → d.is_revoked ≡ true)
      → Returns
          (λ _ v. IsAccounted v.db)
          (write_booking env hw existing
            (booked_row env t sub tok name branch key now)
            (λ d. record d { is_revoked = false; last_seen_at = some now })
            w)
  unfolding booked_row booked
  write_booking-Returns none found gone =
      write_new-Returns env hw _ _ w found (λ v. IsAccounted v.db)
        (rw after (
          Accounted-book_new ts w.device_activations w.serial before tok.batch_token_id _ room known
            found refl refl))
  write_booking-Returns (some d) found gone =
      write_old-Returns env hw _ _ w d found d (λ v. IsAccounted v.db)
        (rw after (
          Accounted-book_old ts w.device_activations w.serial before tok.batch_token_id hw _ d room
            known found (gone d refl) (λ _. refl) (λ _. refl) (λ _. refl)))

pub audit-Accounted :
    (env : Env) (actor action kind target : String) (payload : Option Payload) (w : World)
    → IsAccounted w.db
    → Returns (λ _ v. IsAccounted v.db) (audit env actor action kind target payload w)
unfolding audit ◌>>=◌
audit-Accounted env actor action kind target payload w h = elim (Bool-cases (is_json payload)) [
  | inl json ↦ elim (Bool-cases (fits 80 target)) [
    | inl narrow ↦
        rw (json, narrow)
          (Accounted-later w.batch_tokens w.device_activations w.serial h (suc w.serial)
            (omega arith))
    | inr wide ↦ rw (json, wide) tt
  ]
  | inr other ↦ rw other tt
]

module _ (env : Env) (t : TenantRow) (sub : Subscription) (tok : BatchToken) where
  pub activation_result-Returns :
      (dev : Device) (now : ℕ) (again : Bool) (w : World)
      → Returns (λ _ v. v ≡ w) (activation_result env dev t now again w)
  unfolding activation_result
  activation_result-Returns dev now again w =
      Returns-bind _ (λ _ v. v ≡ w) _ _ w
        (sign_payload-Returns env (config_payload env dev t now again) w) (λ _ v same. same)

  pub keep_result :
      (dev : Device) (now : ℕ) (again : Bool) (w : World)
      → IsAccounted w.db
      → Returns (λ _ v. IsAccounted v.db) (activation_result env dev t now again w)
  keep_result dev now again w h =
      Returns-weaken (λ _ v. v ≡ w) (λ _ v. IsAccounted v.db)
        (activation_result env dev t now again w) (activation_result-Returns dev now again w)
        (λ _ v e. rw e h)

  pub book-Accounted :
      (body : ActivationBody) (hw : String) (existing : Option Device) (now : ℕ) (w : World)
      → IsAccounted w.db
      → IsKnown w.serial (some tok.batch_token_id)
      → first (at_uuid hw) w.device_activations ≡ existing
      → ((d : Device) → existing ≡ some d → d.is_revoked ≡ true)
      → Returns (λ _ v. IsAccounted v.db) (book env t sub tok body hw existing now w)
  unfolding book
  book-Accounted body hw existing now w h known found gone =
      Returns-then _ _ _ _ w w (ensure_tenant_seat-Returns t.tenant_id sub w) λ _ _.
        Returns-then _ _ _ _ w _ (consume_seat-Returns tok w) λ _ room.
          Returns-then _ _ _ _ _ _ (Returns-required body.device_name _) λ name _.
            Returns-random_token _ env _ _ (
              Returns-then _ _ _ _ _ _ (Returns-raise_if _ value_error _) λ _ _.
                Returns-bind _ (λ _ v. IsAccounted v.db) _ _ _
                  (write_booking-Returns env t sub tok hw _ _ _ now w.batch_tokens _ h room known
                    refl existing found gone)
                  λ row v hv. keep_result row now false v hv)

pub update_devices_lem :
    (p : Device → Bool) (f : Device → Device) (w : World)
    → Returns
        (λ o v.
          (o ≡ Option.map f (first p w.device_activations))
          × (v ≡ record w {
            db = record w.db { device_activations = update p f w.device_activations };
          }))
        (update_devices p f w)
unfolding update_devices ◌>>=◌
update_devices_lem p f w = (refl, refl)
