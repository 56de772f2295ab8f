-- ===== src/Service/Races/Rebookings.antt =====
-- Two activations of one revoked device at the same time, in licensing-master/src/service.py: both have
-- read the row as revoked, and the second overwrites the row of the first.
use licensing_master.Base.{
  ℕ, suc, ◌<◌, ◌≡◌, ◌≢◌, refl, sym, ◌∙◌, ◌==◌, nat_eq, string_eq, ==_refl, Bool, true, some, none,
  Option, arith,
}
use licensing_master.Base.Rows.{first, count, update, first-update, first-sat}
use licensing_master.Base.Keys.{Unique, Unique-update, count-update}
use licensing_master.Tables.{Device, Db}
use licensing_master.Exec.{Env}
use licensing_master.Service.Seats.{has_room, take_seat, is_live_of}
use licensing_master.Service.Activation.{booked_row}
use licensing_master.Service.Races.{
  Job, Pc, System, set_pc, old_row_of, write_over, look, check, take, overwrite, Reach, here, later,
}
use licensing_master.Service.Races.SeatLimit.{live}

abbrev by_uuid : Job → Device → Bool
by_uuid job d = d.hardware_uuid == job.hardware_uuid

-- The row that the call has written is the device's.
write_over-first :
    (env : Env) (job : Job) (db : Db) (old : Device)
    → first (by_uuid job) db.device_activations ≡ some old
    → first (by_uuid job) (write_over env job db).device_activations ≡ some (old_row_of env job old)
unfolding booked_row
write_over-first env job db old found =
    first-update (by_uuid job) (by_uuid job) (old_row_of env job) db.device_activations {x = old}
      (λ d. refl) found
    ∙ rw (first-sat (by_uuid job) db.device_activations found) refl

write_over-Unique :
    (env : Env) (job : Job) (db : Db)
    → Unique (λ (d : Device). d.hardware_uuid) db.device_activations
    → Unique (λ (d : Device). d.hardware_uuid) (write_over env job db).device_activations
unfolding booked_row
write_over-Unique env job db unique =
    Unique-update (λ (d : Device). d.hardware_uuid) (by_uuid job) (old_row_of env job)
      db.device_activations (λ d. refl) unique

-- A device that was revoked is one live device more of the call's tenant.
write_over-live_of_revoked :
    (env : Env) (job : Job) (db : Db) (old : Device)
    → Unique (λ (d : Device). d.hardware_uuid) db.device_activations
    → first (by_uuid job) db.device_activations ≡ some old
    → old.is_revoked ≡ true
    → live job.tenant.tenant_id (write_over env job db) ≡ suc (live job.tenant.tenant_id db)
unfolding booked_row
write_over-live_of_revoked env job db old unique found revoked =
    let moved =
      count-update (λ (d : Device). d.hardware_uuid) (is_live_of job.tenant.tenant_id) (by_uuid job)
        (old_row_of env job) job.hardware_uuid db.device_activations {r = old} (λ d on. on) unique
        found in
    ground (arith, revoked, moved)

-- A device that was live for the call's tenant counts as before.
write_over-live_of_live :
    (env : Env) (job : Job) (db : Db) (old : Device)
    → Unique (λ (d : Device). d.hardware_uuid) db.device_activations
    → first (by_uuid job) db.device_activations ≡ some old
    → is_live_of job.tenant.tenant_id old ≡ true
    → live job.tenant.tenant_id (write_over env job db) ≡ live job.tenant.tenant_id db
unfolding booked_row
write_over-live_of_live env job db old unique found alive =
    let moved =
      count-update (λ (d : Device). d.hardware_uuid) (is_live_of job.tenant.tenant_id) (by_uuid job)
        (old_row_of env job) job.hardware_uuid db.device_activations {r = old} (λ d on. on) unique
        found in
    ground (arith, alive, moved)

-- Two calls of one tenant and one batch token for one device that is revoked, with a seat free under the
-- limit and two under the quota: both may read the row as revoked before either has committed, and then both
-- book. The token has two seats less to give, and the tenant has one live device more.
seats-doubled :
    (env : Env) (job : Job) (db : Db) (old : Device)
    → job.existing ≡ some old
    → Unique (λ (d : Device). d.hardware_uuid) db.device_activations
    → first (by_uuid job) db.device_activations ≡ some old
    → old.is_revoked ≡ true
    → live job.tenant.tenant_id db < job.sub.seat_limit
    → count (has_room job.tok.batch_token_id) db.batch_tokens ≢ 0
    → count
        (has_room job.tok.batch_token_id)
        (update (has_room job.tok.batch_token_id) take_seat db.batch_tokens)
      ≢ 0
    → (s : System) × Reach env (λ _. job) db s
      × (s.db.batch_tokens
          ≡ update
              (has_room job.tok.batch_token_id)
              take_seat
              (update (has_room job.tok.batch_token_id) take_seat db.batch_tokens))
      × (live job.tenant.tenant_id s.db ≡ suc (live job.tenant.tenant_id db))
seats-doubled env job db old known unique found revoked free room room' = (
  record { db = write_over env job first_db; pc = _ },
  later
      (later
        (later
          (later
            (later
              (later
                (later (later here (look 0 refl (found ∙ sym known) (rw known revoked)))
                  (look 1 refl (found ∙ sym known) (rw known revoked)))
                (check 0 refl (ground arith)))
              (check 1 refl (ground arith)))
            (take 0 refl room (λ j h. absurd (nobody j h))))
          (overwrite 0 refl old known (λ e. absurd (there _ found e))))
        (take 1 refl room' (λ j h. absurd (released j h))))
      (overwrite 1 refl old known (λ e. absurd (there _ found' e))),
  refl,
  write_over-live_of_live env job first_db (old_row_of env job old)
        (write_over-Unique env job db unique) found' alive
      ∙ write_over-live_of_revoked env job db old unique found revoked,
)
  where
    first_db : Db
    first_db = write_over env job db

    found' : first (by_uuid job) first_db.device_activations ≡ some (old_row_of env job old)
    found' = write_over-first env job db old found

    alive : is_live_of job.tenant.tenant_id (old_row_of env job old) ≡ true
    alive = unfold booked_row in rw (==_refl job.tenant.tenant_id) refl

    there : (o : Option Device) {d : Device} → o ≡ some d → o ≡ none → ⊥
    there o e f = cc

    nobody :
        (j : ℕ)
        → set_pc 1 Pc.checked
            (set_pc 0 Pc.checked (set_pc 1 Pc.looked (set_pc 0 Pc.looked (λ _. Pc.start))))
            j
          ≡ Pc.holding
        → ⊥
    nobody j h = ground arith

    released :
        (j : ℕ)
        → set_pc 0 Pc.done
            (set_pc 0 Pc.holding (
              set_pc 1 Pc.checked
                (set_pc 0 Pc.checked (set_pc 1 Pc.looked (set_pc 0 Pc.looked (λ _. Pc.start))))))
            j
          ≡ Pc.holding
        → ⊥
    released j h = ground arith
