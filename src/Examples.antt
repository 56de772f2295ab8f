-- ===== src/Examples.antt =====
-- A small database with one product, two tenants and two devices, and an environment that signs.
pub mod Activations
pub mod Queries
pub mod Administration
pub mod Accounts
pub mod Limits
pub mod Logins
pub mod Operators
pub mod Requests
pub mod Startup
pub mod Callers
pub mod Races
use Prim.Native.String.{◌++◌ as ◌++ˢ◌}
use licensing_master.Base.{ℕ, ◌+◌, ◌*◌, String, ◌≡◌, refl, true, false, none, some, [], ◌∷◌}
use licensing_master.Tables.{
  Product, Tenant, TenantStatus, Subscription, SubscriptionStatus, BatchToken, Device, Db, Value,
}
use licensing_master.Exec.{Env, World}
use licensing_master.Signer.{Signs, canonical}
use licensing_master.Signer.Envelope.{sign_payload-signs}
use licensing_master.Service.Rows.{TenantRow}
use licensing_master.Service.Activation.{ActivationBody}

abbrev json_value : Value → String
json_value (Value.text s) = s
json_value _ = "?"

abbrev pub live_env : Env
live_env = record {
  clock = λ n. 1_000 + n;
  started = 1_000;
  token_urlsafe = λ _. "random";
  sha256 = λ s. "sha256:" ++ˢ s;
  isoformat = λ _. "2026-01-01T00:00:00Z";
  json_scalar = json_value;
  ed25519 = λ key text. some ("signature by " ++ˢ key);
  signing_key = "key";
  lower = λ s. s;
  upper = λ s. s;
  strip = λ s. s;
  show = λ _. "1";
  show_amount = λ _. "1.00";
  is_dev = false;
  default_window_days = 30;
  default_grace_days = 7;
  default_seat_limit = 1;
}

pub live_env-Signs : Signs live_env
live_env-Signs payload w =
    ("ed25519:signature by key", sign_payload-signs live_env payload "signature by key" w refl refl)

abbrev pub product : Product
product = record { product_id = 1; code = "pos"; name = "POS"; is_active = true; created_at = 0 }

abbrev pub shop : Tenant
shop = record {
  tenant_id = 2;
  product_id = 1;
  slug = "shop";
  name = "Shop";
  contact_email = none;
  base_url = some "https://shop";
  status = TenantStatus.active;
  created_at = 0;
}

abbrev pub cafe : Tenant
cafe = record shop { tenant_id = 3; slug = "cafe" }

abbrev pub shop_row : TenantRow
shop_row = record { tenant = shop; product_code = "pos" }

abbrev pub cafe_row : TenantRow
cafe_row = record { tenant = cafe; product_code = "pos" }

abbrev pub shop_plan : Subscription
shop_plan = record {
  subscription_id = 4;
  tenant_id = 2;
  plan_name = "standard";
  seat_limit = 2;
  window_days = 30;
  grace_days = 7;
  valid_until = 5_000;
  status = SubscriptionStatus.active;
  is_paid = true;
  updated_at = 0;
}

abbrev pub cafe_plan : Subscription
cafe_plan = record shop_plan { subscription_id = 5; tenant_id = 3; is_paid = false }

abbrev pub shop_token : BatchToken
shop_token = record {
  batch_token_id = 6;
  subscription_id = 4;
  token = "BATCH-POS-SHOP-1";
  quota = 2;
  seats_consumed = 1;
  expires_at = some 9_000;
  is_revoked = false;
  note = none;
  created_at = 0;
}

abbrev pub till : Device
till = record {
  device_activation_id = 7;
  tenant_id = 2;
  hardware_uuid = "TILL";
  device_name = "till";
  branch_ref = none;
  license_key = "LIC-1";
  valid_from = 0;
  valid_until = 2_000;
  is_revoked = false;
  last_seen_at = none;
  activated_via = some 6;
  created_at = 0;
}

abbrev pub old_till : Device
old_till = record till { device_activation_id = 8; hardware_uuid = "OLD"; is_revoked = true }

abbrev pub db : Db
db = record {
  products = product ∷ [];
  tenants = shop ∷ cafe ∷ [];
  subscriptions = shop_plan ∷ cafe_plan ∷ [];
  batch_tokens = shop_token ∷ [];
  device_activations = till ∷ old_till ∷ [];
  payments = [];
  service_tokens = [];
  audit_log = [];
  admin_users = [];
  admin_sessions = [];
  serial = 9;
}

abbrev pub world : World
world = record { db = db; asked = 0 }

abbrev pub body_of : String → ActivationBody
body_of hw = record {
  token = some "BATCH-POS-SHOP-1";
  hardware_uuid = some hw;
  device_name = some "new till";
  branch_ref = none;
  license_key = some "LIC-1";
}
