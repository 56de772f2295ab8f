-- ===== src/Service/Seats.antt =====
-- Seat accounting in licensing-master/src/service.py: a batch token counts the live devices that
-- were booked against it, and a subscription caps the live devices of its tenant.
pub mod Outcomes
pub mod Releases
use licensing_master.Base.{
  ℕ, ◌+◌, ◌-◌, String, ◌==◌, nat_eq, string_eq, Bool, true, not, ◌&&◌, Option, none, some, ltb, leb,
}
use licensing_master.Base.Rows.{count}
use licensing_master.Tables.{Subscription, BatchToken, Device}
use licensing_master.Exec.{Exec, seat_limit_reached, pure, gets, raise_if, ◌>>=◌, ◌>>◌}
use licensing_master.Service.Rows.{update_devices, update_tokens}

-- `batch_token_id = id AND seats_consumed < quota`
abbrev pub has_room : ℕ → BatchToken → Bool
has_room id t = t.batch_token_id == id && ltb t.seats_consumed t.quota

-- `batch_token_id = id AND seats_consumed > 0`
abbrev pub has_seat : ℕ → BatchToken → Bool
has_seat id t = t.batch_token_id == id && ltb 0 t.seats_consumed

abbrev pub take_seat : BatchToken → BatchToken
take_seat t = record t { seats_consumed = t.seats_consumed + 1 }

abbrev pub give_seat : BatchToken → BatchToken
give_seat t = record t { seats_consumed = t.seats_consumed - 1 }

-- `_consume_seat`
unfoldable pub consume_seat : BatchToken → Exec (Unit {0})
consume_seat tok = do
  updated ← update_tokens (has_room tok.batch_token_id) take_seat
  raise_if (updated == 0) seat_limit_reached

-- a live device of the tenant
abbrev pub is_live_of : ℕ → Device → Bool
is_live_of tenant_id d = d.tenant_id == tenant_id && not d.is_revoked

-- `_ensure_tenant_seat`
unfoldable pub ensure_tenant_seat : ℕ → Subscription → Exec (Unit {0})
ensure_tenant_seat tenant_id sub = do
  active_seats ← gets (λ w. count (is_live_of tenant_id) w.device_activations)
  raise_if (leb sub.seat_limit active_seats) seat_limit_reached

abbrev pub is_live_at : String → Device → Bool
is_live_at hardware_uuid d = d.hardware_uuid == hardware_uuid && not d.is_revoked

-- `if row["activated_via"]:` with the row's token; zero is false as well
abbrev pub truthy_id : Option ℕ → Option ℕ
truthy_id none = none
truthy_id (some ℕ.zero) = none
truthy_id (some (ℕ.suc k)) = some (ℕ.suc k)

unfoldable pub hand_back : Option ℕ → Exec (Unit {0})
hand_back none = pure tt
hand_back (some id) = do _ ← update_tokens (has_seat id) give_seat; pure tt

unfoldable pub hand_back_of : Option Device → Exec (Option Device)
hand_back_of none = pure none
hand_back_of (some d) = do hand_back (truthy_id d.activated_via); pure (some d)

-- `_release_seat`
unfoldable pub release_seat : String → Exec (Option Device)
release_seat hardware_uuid = do
  row ← update_devices (is_live_at hardware_uuid) (λ d. record d { is_revoked = true })
  hand_back_of row
