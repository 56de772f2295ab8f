-- ===== src/Service/Races/Alone.antt =====
-- `_do_activate` of licensing-master/src/service.py, run with no other call beside it, is one schedule of
-- the steps of Service/Races.
use Prim.Native.String.{◌++◌ as ◌++ˢ◌}
use licensing_master.Base.{
  ℕ, ◌<◌, ◌≡◌, ◌≢◌, refl, ap, String, ◌==◌, nat_eq, string_eq, false, none, some, arith, fits,
  fits_opt, ◌&&◌, true, ltb, ◌+◌, ◌*◌,
}
use licensing_master.Base.Rows.{first, count}
use licensing_master.Tables.{Subscription, BatchToken, Device, Db}
use licensing_master.Exec.{Env, World, random_token, value_error}
use licensing_master.Exec.Succeeds.{Succeeds, Succeeds-then, Succeeds-weaken, raise_if-ok}
use licensing_master.Signer.{Signs}
use licensing_master.Service.Rows.{TenantRow, find_device}
use licensing_master.Service.Seats.{has_room, is_live_of}
use licensing_master.Service.Seats.Outcomes.{consume_seat-ok, ensure_tenant_seat-ok}
use licensing_master.Service.Activation.{
  ActivationBody, or_none, book, activate_existing, do_activate, activation_result, booked_row,
  latest, us_per_day,
}
use licensing_master.Service.Activation.Outcomes.{required-ok, activation_result-Succeeds}
use licensing_master.Service.Races.{
  Job, Pc, System, set_pc, row_of, write, check, take, commit, Reach, here, later, look,
}
use licensing_master.Service.Activation.Writes.{write_new-ok}

module _ (env : Env) (t : TenantRow) (sub : Subscription) (tok : BatchToken) (body : ActivationBody)
    (hw name : String) (at : ℕ) (w : World) where
  -- the call, with the key that it will draw
  abbrev pub job : Job
  job = record {
    tenant = t;
    sub = sub;
    tok = tok;
    hardware_uuid = hw;
    existing = none;
    device_name = env.strip name;
    branch_ref = or_none body.branch_ref;
    license_key = "LIC-" ++ˢ env.token_urlsafe w.asked;
    now = at;
  }

  -- after the four steps of the call
  abbrev pub alone : Db → System
  alone db = record {
    db = db;
    pc =
        set_pc 0 Pc.done
          (set_pc 0 Pc.holding (set_pc 0 Pc.checked (set_pc 0 Pc.looked (λ _. Pc.start))));
  }

  alone-Reach :
      count (is_live_of t.tenant_id) w.device_activations < sub.seat_limit
      → count (has_room tok.batch_token_id) w.batch_tokens ≢ 0
      → first (λ (d : Device). d.hardware_uuid == hw) w.device_activations ≡ none
      → Reach env (λ _. job) w.db (alone (write env job w.db))
  alone-Reach free room absent =
      later
        (later (later (later here (look 0 refl absent tt)) (check 0 refl (ground arith)))
          (take 0 refl room (λ j h. ground arith)))
        (commit 0 refl refl absent)

  module _ (signs : Signs env) (has_uuid : body.hardware_uuid ≡ some hw)
      (has_name : body.device_name ≡ some name)
      (absent : first (λ (d : Device). d.hardware_uuid == hw) w.device_activations ≡ none)
      (free : count (is_live_of t.tenant_id) w.device_activations < sub.seat_limit)
      (room : count (has_room tok.batch_token_id) w.batch_tokens ≢ 0)
      (narrow : (fits 150 hw && fits 100 (env.strip name) && fits_opt 60 (or_none body.branch_ref))
        ≡ true)
      (in_time : ltb latest (at + sub.window_days * us_per_day) ≡ false) where
    book-writes :
        Succeeds
          (λ r v. (r.device ≡ row_of env job w.serial) × (v.db ≡ write env job w.db))
          (book env t sub tok body hw none at w)
    unfolding book booked_row
    book-writes = Succeeds-then _ _ w _ (ensure_tenant_seat-ok t.tenant_id sub w free) (
        Succeeds-then _ _ w _ (consume_seat-ok tok w room) (
          Succeeds-then _ _ _ _ (required-ok _ has_name) (
            Succeeds-then (random_token env) _ _ _ refl (
              Succeeds-then _ _ _ _ (raise_if-ok value_error _ in_time) (
                Succeeds-then _ _ _ _ (write_new-ok env hw _ _ _ absent narrow) (
                  Succeeds-weaken _ _ (activation_result env _ t at false _)
                    (activation_result-Succeeds env t _ at false _ signs)
                    (λ r u (same, is). (is.about, ap (λ (x : World). x.db) same))))))))

    -- An activation of a device that has no row, by a process that can sign, with a seat left under both
    -- limits and an identifier, a name and a branch that the columns take, and with a
    -- window that ends before the year 10000, returns, and what it leaves is what its four steps lead to when no other call is
    -- between them.
    pub do_activate-Reach :
        Succeeds
          (λ r v. (r.device ≡ row_of env job w.serial) × Reach env (λ _. job) w.db (alone v.db))
          (do_activate env t sub tok body at w)
    unfolding do_activate find_device activate_existing
    do_activate-Reach = Succeeds-then _ _ w _ (required-ok w has_uuid) (
        Succeeds-then _ _ w _ refl (
          rw absent (
            Succeeds-weaken _ _ (book env t sub tok body hw none at w) book-writes
              (λ r v (row, left). (row, rw left (alone-Reach free room absent))))))
