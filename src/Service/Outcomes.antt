-- ===== src/Service/Outcomes.antt =====
-- The statements and row lookups of licensing-master/src/service.py where they find what they ask for.
use mathlib.Core.Option
use licensing_master.Base.{
  ℕ, suc, String, ◌≡◌, refl, ◌∙◌, ◌==◌, nat_eq, string_eq, Bool, true, Option, some, [], ◌∷◌, ◌++◌,
  fits, false,
}
use licensing_master.Base.Rows.{first, update}
use licensing_master.Tables.{Tenant, Product, Subscription, Device, Payload}
use licensing_master.Exec.{Env, World, ok, not_found, gets, ◌>>=◌, data_error}
use licensing_master.Exec.Succeeds.{bind-ok, or_raise-ok, Fails}
use licensing_master.Service.Rows.{is_json, audit, tenant_row, subscription_row, update_devices}

-- the world after `UPDATE device_activations`
abbrev pub changed : (Device → Bool) → (Device → Device) → World → World
changed p f w = record w {
  db = record w.db { device_activations = update p f w.device_activations };
}

pub update_devices-does :
    (p : Device → Bool) (f : Device → Device) (w : World)
    → update_devices p f w ≡ (ok (Option.map f (first p w.device_activations)), changed p f w)
unfolding update_devices ◌>>=◌
update_devices-does p f w = refl

pub update_devices-ok :
    (p : Device → Bool) (f : Device → Device) (w : World) {d : Device}
    → first p w.device_activations ≡ some d
    → update_devices p f w ≡ (ok (some (f d)), changed p f w)
unfolding update_devices ◌>>=◌
update_devices-ok p f w e = rw e refl

-- the world after `_audit`
abbrev pub logged : Env → String → String → String → String → Option Payload → World → World
logged env actor action target_type target_id payload w = record w {
  db = record w.db {
    serial = suc w.serial;
    audit_log =
        w.audit_log
        ++ record {
          audit_log_id = w.serial;
          actor_email = actor;
          action = action;
          target_type = target_type;
          target_id = target_id;
          payload = payload;
          at = env.started;
        }
          ∷ [];
  };
}

pub audit-ok :
    (env : Env) (actor action kind target : String) (payload : Option Payload) (w : World)
    → is_json payload ≡ true
    → fits 80 target ≡ true
    → audit env actor action kind target payload w
      ≡ (ok tt, logged env actor action kind target payload w)
unfolding audit ◌>>=◌
audit-ok env actor action kind target payload w e narrow = rw (e, narrow) refl

pub audit-wide :
    (env : Env) (actor action kind target : String) (payload : Option Payload) (w : World)
    → is_json payload ≡ true
    → fits 80 target ≡ false
    → Fails data_error (audit env actor action kind target payload w)
unfolding audit ◌>>=◌
audit-wide env actor action kind target payload w e wide = rw (e, wide) refl

pub subscription_row-ok :
    (k : ℕ) (w : World) {s : Subscription}
    → first (λ (s : Subscription). s.tenant_id == k) w.subscriptions ≡ some s
    → subscription_row k w ≡ (ok s, w)
unfolding subscription_row ◌>>=◌
subscription_row-ok k w e = or_raise-ok not_found w e

pub tenant_row-ok :
    (k : ℕ) (w : World) {t : Tenant} {p : Product}
    → first (λ (t : Tenant). t.tenant_id == k) w.tenants ≡ some t
    → first (λ (p : Product). p.product_id == t.product_id) w.products ≡ some p
    → tenant_row k w ≡ (ok (record { tenant = t; product_code = p.code }), w)
unfolding tenant_row
tenant_row-ok k w e e' =
    bind-ok (gets _) _ w refl
    ∙ (bind-ok _ _ w (or_raise-ok not_found w e)
        ∙ (bind-ok (gets _) _ w refl ∙ bind-ok _ _ w (or_raise-ok not_found w e')))
