-- ===== src/Examples/Accounts.antt =====
-- The seat accounting of the example's database.
use licensing_master.Base.{refl, arith, none, some}
use licensing_master.Identity.{Headers}
use licensing_master.Routers.{App}
use licensing_master.Routers.Routes.{Route, CpRoute}
use licensing_master.Routers.Serve.{serve}
use licensing_master.Routers.Soundness.Sequences.{Serves, Serves-IsSound}
use licensing_master.Service.Accounting.{IsAccounted, booked}
use licensing_master.Service.Soundness.{IsSound}
use licensing_master.Examples.{world, db, body_of}
use licensing_master.Examples.Logins.{auth}
use licensing_master.Examples.Requests.{app, mono}

pub db-IsAccounted : IsAccounted db
unfolding booked
db-IsAccounted = record {
  tokens_unique = (tt, tt);
  devices_unique = ((refl, tt), (tt, tt));
  tokens_accounted = (
    record { counted = refl; bounded = omega arith; positive = omega arith; below = omega arith },
    tt,
  );
  devices_known = ((omega arith, omega arith), ((omega arith, omega arith), tt));
  serial_positive = omega arith;
}

db-IsSound : IsSound db
db-IsSound = record {
  accounted = db-IsAccounted;
  owned = record {
    subs_unique = ((refl, tt), (tt, tt));
    subs_below = (omega arith, (omega arith, tt));
    tokens_owned = (refl, tt);
    vias_known = ((omega arith, omega arith), ((omega arith, omega arith), tt));
    devices_owned = (((λ _. refl), tt), (((λ _. refl), tt), tt));
  };
}

-- An activation, and then a request to the control plane with a service token that is not known.
abbrev no_headers : Headers
no_headers = record {
  client_host = some "10.0.0.9";
  session_cookie = none;
  requested_with = none;
  authorization = none;
  user_agent = none;
}

abbrev before : App
before = record app { world = world }

abbrev after : App
after =
    (serve mono auth no_headers (Route.cp (CpRoute.release (some "TILL")))
      (serve mono auth no_headers (Route.activate (body_of "NEW")) before).1).1

Serves-IsSound_example : IsSound after.world.db
Serves-IsSound_example =
    Serves-IsSound
      (Serves.then
        (Serves.then (Serves.start before) mono auth no_headers (Route.activate (body_of "NEW")))
        mono auth no_headers (Route.cp (CpRoute.release (some "TILL"))))
      db-IsSound
