-- ===== src/Service/Seats/Outcomes.antt =====
-- `_consume_seat` and `_ensure_tenant_seat` of licensing-master/src/service.py, when they return and
-- when they raise.
use licensing_master.Base.{ℕ, ◌≤◌, ◌<◌, ◌≡◌, ◌≢◌, refl, ◌==◌, nat_eq, arith, leb, true, false}
use licensing_master.Base.Rows.{count, update}
use licensing_master.Tables.{Subscription, BatchToken}
use licensing_master.Exec.{World, ok, seat_limit_reached, ◌>>=◌}
use licensing_master.Exec.Succeeds.{Fails}
use licensing_master.Service.Rows.{update_tokens}
use licensing_master.Service.Seats.{
  consume_seat, ensure_tenant_seat, has_room, take_seat, is_live_of,
}

-- the world after a seat of the token `id` was taken
abbrev pub taken : ℕ → World → World
taken id w = record w {
  db = record w.db { batch_tokens = update (has_room id) take_seat w.batch_tokens };
}

pub consume_seat-ok :
    (tok : BatchToken) (w : World)
    → count (has_room tok.batch_token_id) w.batch_tokens ≢ 0
    → consume_seat tok w ≡ (ok tt, taken tok.batch_token_id w)
unfolding consume_seat update_tokens ◌>>=◌
consume_seat-ok tok w h =
    let some_left : (count (has_room tok.batch_token_id) w.batch_tokens == 0) ≡ false =
      ground arith in
    rw some_left refl

pub consume_seat-err :
    (tok : BatchToken) (w : World)
    → count (has_room tok.batch_token_id) w.batch_tokens ≡ 0
    → Fails seat_limit_reached (consume_seat tok w)
unfolding consume_seat update_tokens ◌>>=◌
consume_seat-err tok w h = rw h refl

module _ (tenant_id : ℕ) (sub : Subscription) (w : World) where
  pub ensure_tenant_seat-ok :
      count (is_live_of tenant_id) w.device_activations < sub.seat_limit
      → ensure_tenant_seat tenant_id sub w ≡ (ok tt, w)
  unfolding ensure_tenant_seat ◌>>=◌
  ensure_tenant_seat-ok h =
      let free : leb sub.seat_limit (count (is_live_of tenant_id) w.device_activations) ≡ false =
        ground arith in
      rw free refl

  pub ensure_tenant_seat-err :
      sub.seat_limit ≤ count (is_live_of tenant_id) w.device_activations
      → Fails seat_limit_reached (ensure_tenant_seat tenant_id sub w)
  unfolding ensure_tenant_seat ◌>>=◌
  ensure_tenant_seat-err h =
      let full : leb sub.seat_limit (count (is_live_of tenant_id) w.device_activations) ≡ true =
        ground arith in
      rw full refl
