-- ===== src/Examples/Races.antt =====
-- Two activations for the shop at the same time.
use licensing_master.Base.{
  ℕ, ◌≡◌, refl, String, ◌==◌, string_eq, arith, [], ◌∷◌, none, if◌then◌else◌, nat_eq,
}
use licensing_master.Tables.{BatchToken, Db}
use licensing_master.Service.Accounting.{IsAccounted}
use licensing_master.Service.Races.{
  Job, Pc, System, set_pc, row_of, write, check, take, commit, refuse, Reach, here, later, look,
}
use licensing_master.Exec.Succeeds.{Succeeds}
use licensing_master.Service.Activation.{ActivationBody, do_activate}
use licensing_master.Service.Races.Alone.{job, alone, do_activate-Reach}
use licensing_master.Service.Races.Quota.{Reach-IsAccounted}
use licensing_master.Service.Races.SeatLimit.{live, live-exceeded}
use licensing_master.Examples.{
  live_env, live_env-Signs, world, body_of, db, shop_row, shop_plan, shop_token,
}
use licensing_master.Examples.Accounts.{db-IsAccounted}
use licensing_master.Examples.Activations.{in_time}

-- a token with room for two more devices
abbrev wide_token : BatchToken
wide_token = record shop_token { quota = 3 }

abbrev wide_db : Db
wide_db = record db { batch_tokens = wide_token ∷ [] }

abbrev job_of : BatchToken → String → Job
job_of tok hw = record {
  tenant = shop_row;
  sub = shop_plan;
  tok = tok;
  hardware_uuid = hw;
  existing = none;
  device_name = "new till";
  branch_ref = none;
  license_key = "LIC-2";
  now = 1_000;
}

abbrev jobs : BatchToken → ℕ → Job
jobs tok i = job_of tok (if i == 0 then "NEW1" else "NEW2")

live-exceeded_example :
    (s : System) × Reach live_env (jobs wide_token) wide_db s × (live 2 s.db ≡ 3)
live-exceeded_example =
    live-exceeded live_env (jobs wide_token) 2 wide_db 2 refl refl refl refl refl refl refl
      (λ e. cc) (λ e. cc) refl refl refl

-- the first call takes the last seat, and the second is refused
abbrev one_booked : System
one_booked = record {
  db = write live_env (jobs shop_token 0) db;
  pc = set_pc 1 Pc.failed (
      set_pc 0 Pc.done (
        set_pc 0 Pc.holding (
          set_pc 1 Pc.checked
            (set_pc 0 Pc.checked (set_pc 1 Pc.looked (set_pc 0 Pc.looked (λ _. Pc.start)))))));
}

Reach-IsAccounted_example : IsAccounted (write live_env (jobs shop_token 0) db)
Reach-IsAccounted_example =
    Reach-IsAccounted live_env (jobs shop_token) (λ _. refl) {db = db} {s = one_booked}
      db-IsAccounted
      (later
        (later
          (later
            (later
              (later (later (later here (look 0 refl refl tt)) (look 1 refl refl tt))
                (check 0 refl refl))
              (check 1 refl refl))
            (take 0 refl (λ e. cc) (λ j h. ground arith)))
          (commit 0 refl refl refl))
        (refuse 1 (λ e. cc)))

abbrev first_job : ActivationBody → String → Job
first_job body hw = job live_env shop_row shop_plan shop_token body hw "new till" 1_000 world

do_activate-Reach_example :
    Succeeds
      (λ r v.
        (r.device ≡ row_of live_env (first_job (body_of "NEW") "NEW") 9)
        × Reach live_env
            (λ _. first_job (body_of "NEW") "NEW")
            db
            (alone live_env shop_row shop_plan shop_token
              (body_of "NEW")
              "NEW"
              "new till"
              1_000
              world
              v.db))
      (do_activate live_env shop_row shop_plan shop_token (body_of "NEW") 1_000 world)
do_activate-Reach_example =
    do_activate-Reach live_env shop_row shop_plan shop_token (body_of "NEW") "NEW" "new till" 1_000
      world live_env-Signs refl refl refl (omega arith) (λ e. cc) refl in_time
