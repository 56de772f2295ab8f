-- ===== src/Examples/Activations.antt =====
-- Activations of the example's devices.
use licensing_master.Base.{◌≡◌, refl, arith, nat_eq, string_eq, none, inl, ltb, ◌+◌, ◌*◌, false}
use licensing_master.Exec.{ok, err, transaction, device_bound_to_other_tenant, seat_limit_reached}
use licensing_master.Exec.Succeeds.{Succeeds}
use licensing_master.Service.Activation.{do_activate, latest, us_per_day}
use licensing_master.Service.Activation.Bookings.{IsNewSeat, do_activate-Booked}
use licensing_master.Service.Activation.Rotations.{do_activate-bound}
use licensing_master.Service.Activation.Refusals.{do_activate-full}
use licensing_master.Service.Seats.{release_seat}
use licensing_master.Service.Seats.Releases.{release_seat-twice}
use licensing_master.Examples.{
  live_env, live_env-Signs, shop_row, cafe_row, shop_plan, cafe_plan, shop_token, till, world,
  body_of,
}

pub in_time : ltb latest (1_000 + shop_plan.window_days * us_per_day) ≡ false
unfolding latest us_per_day
in_time = refl

do_activate-Booked_example :
    Succeeds
      (IsNewSeat live_env shop_row shop_plan shop_token "NEW" 1_000 world)
      (do_activate live_env shop_row shop_plan shop_token (body_of "NEW") 1_000 world)
do_activate-Booked_example =
    do_activate-Booked live_env shop_row shop_plan shop_token (body_of "NEW") "NEW" "new till" 1_000
      world live_env-Signs refl refl ((refl, tt), (tt, tt)) (λ d e. absurd (cc)) (omega arith)
      (λ e. absurd (omega arith)) refl in_time

do_activate-bound_example :
    ((transaction
        (do_activate live_env cafe_row cafe_plan shop_token (body_of "TILL") 1_000)
        world).0
      ≡ err device_bound_to_other_tenant)
    × ((transaction
          (do_activate live_env cafe_row cafe_plan shop_token (body_of "TILL") 1_000)
          world).1.db
        ≡ world.db)
do_activate-bound_example =
    do_activate-bound live_env cafe_row cafe_plan shop_token (body_of "TILL") "TILL" 1_000 world
      till refl refl refl refl

do_activate-full_example :
    ((transaction
        (do_activate live_env shop_row
          (record shop_plan { seat_limit = 1 })
          shop_token
          (body_of "OLD")
          1_000)
        world).0
      ≡ err seat_limit_reached)
    × ((transaction
          (do_activate live_env shop_row
            (record shop_plan { seat_limit = 1 })
            shop_token
            (body_of "OLD")
            1_000)
          world).1.db
        ≡ world.db)
do_activate-full_example =
    do_activate-full live_env shop_row (record shop_plan { seat_limit = 1 }) shop_token
      (body_of "OLD") "OLD" 1_000 world refl (λ d e. ground arith) (inl (omega arith))

release_seat-twice_example :
    Succeeds (λ _ v. release_seat "TILL" v ≡ (ok none, v)) (release_seat "TILL" world)
release_seat-twice_example = release_seat-twice "TILL" world
