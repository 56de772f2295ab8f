-- ===== src/Service/Activation/Outcomes.antt =====
-- What `_activation_result` of licensing-master/src/service.py returns, and when.
use licensing_master.Base.{ℕ, String, Bool, ◌≡◌, refl, Option, some}
use licensing_master.Tables.{Device}
use licensing_master.Exec.{Env, World, ok}
use licensing_master.Exec.Succeeds.{Succeeds, Succeeds-then}
use licensing_master.Signer.{Signs, sign_payload, device_config}
use licensing_master.Service.Rows.{TenantRow}
use licensing_master.Service.Activation.{
  required, ActivationResult, activation_result, config_payload,
}

pub required-ok :
    {A : Type 0} {o : Option A} {a : A} (w : World) → o ≡ some a → required o w ≡ (ok a, w)
required-ok w e = rw e refl

-- the result is about the row `dev`, and its configuration is signed
pub record IsResult (env : Env) (t : TenantRow) (dev : Device) (at : ℕ) (again : Bool) (w : World)
    (r : ActivationResult) : Type 0 where
  pub about : r.device ≡ dev
  pub key : r.license_key ≡ dev.license_key
  pub flagged : r.reactivated ≡ again
  pub signature : String
  pub is_signature : sign_payload env (config_payload env dev t at again) w ≡ (ok signature, w)
  pub config : r.device_config ≡ device_config env (config_payload env dev t at again) signature

pub activation_result-Succeeds :
    (env : Env) (t : TenantRow) (dev : Device) (at : ℕ) (again : Bool) (w : World)
    → Signs env
    → Succeeds
        (λ r v. (v ≡ w) × IsResult env t dev at again w r)
        (activation_result env dev t at again w)
unfolding activation_result
activation_result-Succeeds env t dev at again w signs =
    let (s, e) = signs (config_payload env dev t at again) w in
    Succeeds-then _ _ w _ e (
      refl,
      record {
        about = refl;
        key = refl;
        flagged = refl;
        signature = s;
        is_signature = e;
        config = refl;
      },
    )
