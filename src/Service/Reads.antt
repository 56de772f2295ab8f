-- ===== src/Service/Reads.antt =====
-- The lookups and checks of licensing-master/src/service.py write nothing, so they keep whatever holds of the
-- database.
use licensing_master.Base.{ℕ, String, Option, none, some}
use licensing_master.Tables.{Db, Subscription}
use licensing_master.Exec.{key_error}
use licensing_master.Exec.Keeps.{Keeps, Keeps-pure, Keeps-raise, keeps_rules}
use licensing_master.Service.Rows.{tenant_row, subscription_row, find_device, device_row}
use licensing_master.Service.Seats.{ensure_tenant_seat}
use licensing_master.Service.Activation.{required}

module _ {P : Db → Type 0} where
  pub Keeps-tenant_row : (k : ℕ) → Keeps P (tenant_row k)
  unfolding tenant_row
  Keeps-tenant_row k = search keeps_rules

  pub Keeps-subscription_row : (k : ℕ) → Keeps P (subscription_row k)
  unfolding subscription_row
  Keeps-subscription_row k = search keeps_rules

  pub Keeps-find_device : (hw : String) → Keeps P (find_device hw)
  unfolding find_device
  Keeps-find_device hw = search keeps_rules

  pub Keeps-device_row : (hw : String) → Keeps P (device_row hw)
  unfolding device_row
  Keeps-device_row hw = search (keeps_rules, Keeps-find_device)

  pub Keeps-ensure_tenant_seat : (k : ℕ) (sub : Subscription) → Keeps P (ensure_tenant_seat k sub)
  unfolding ensure_tenant_seat
  Keeps-ensure_tenant_seat k sub = search keeps_rules

  pub Keeps-required : {A : Type 0} (o : Option A) → Keeps P (required o)
  Keeps-required none = Keeps-raise key_error
  Keeps-required (some a) = Keeps-pure a

pub ruleset read_rules = (
  keeps_rules, Keeps-tenant_row, Keeps-subscription_row, Keeps-find_device, Keeps-device_row,
  Keeps-ensure_tenant_seat, Keeps-required,
)
