-- ===== src/Examples/Administration.antt =====
-- Payments, patches and deletions of the example's tenants.
use mathlib.Core.Path.{subst}
use licensing_master.Base.{String, ◌≡◌, refl, some, none, ltb, false, max, ◌+◌, ◌*◌}
use licensing_master.Base.Int.{pos}
use licensing_master.Base.Rows.{count}
use licensing_master.Exec.{Error, err, transaction}
use licensing_master.Exec.Succeeds.{Succeeds}
use licensing_master.Service.BaseUrl.Origins.{IsSecureUrl}
use licensing_master.Service.Tenants.{
  TenantBody, TenantPatch, admin_create_tenant, admin_patch_tenant,
}
use licensing_master.Service.Tenants.Origins.{HasSecureUrls, tenants-HasSecureUrls}
use licensing_master.Service.Billing.{PaymentBody, admin_record_payment}
use licensing_master.Service.Billing.Payments.{IsExtended, admin_record_payment-Extended}
use licensing_master.Service.Billing.Patch.{SubscriptionPatch, admin_patch_subscription}
use licensing_master.Service.Billing.Unpatchable.{admin_patch_subscription-never}
use licensing_master.Service.Lifecycle.{cascade, is_dangling, admin_delete_tenant}
use licensing_master.Service.Lifecycle.Deletions.{IsCleared, admin_delete_tenant-Cleared}
use licensing_master.Examples.{live_env, product, shop, shop_plan, world}
use licensing_master.Service.Activation.{us_per_day, latest}

abbrev payment : PaymentBody
payment = record {
  amount = some (pos 100);
  currency = none;
  period_start = none;
  period_end = none;
  note = none;
}

paid_in_time :
    ltb latest
      (max (live_env.clock world.asked) shop_plan.valid_until + shop_plan.window_days * us_per_day)
    ≡ false
unfolding latest us_per_day
paid_in_time = refl

admin_record_payment-Extended_example :
    Succeeds
      (IsExtended live_env "admin" 2 payment 100 world shop_plan)
      (admin_record_payment live_env "admin" 2 payment world)
admin_record_payment-Extended_example =
    admin_record_payment-Extended live_env 2 shop product "admin" payment world shop_plan 100 refl
      refl refl refl refl refl paid_in_time

abbrev patch : SubscriptionPatch
patch = record {
  seat_limit = some (pos 5);
  window_days = none;
  grace_days = none;
  is_paid = none;
  status = none;
  plan_name = none;
}

admin_patch_subscription-never_example :
    ((e : Error) × ((transaction (admin_patch_subscription live_env "admin" 2 patch) world).0
        ≡ err e))
    × ((transaction (admin_patch_subscription live_env "admin" 2 patch) world).1.db ≡ world.db)
admin_patch_subscription-never_example =
    admin_patch_subscription-never live_env "admin" 2 patch world

shop_closed : count (is_dangling (cascade 2 world.db)) (cascade 2 world.db).device_activations ≡ 0
unfolding cascade
shop_closed = refl

admin_delete_tenant-Cleared_example :
    Succeeds (IsCleared 2 3 world) (admin_delete_tenant live_env "admin" 2 world)
admin_delete_tenant-Cleared_example =
    admin_delete_tenant-Cleared live_env "admin" 2 3 world shop product refl refl shop_closed refl
      refl

-- a tenant at an address with a path, and one that is to be reached without TLS
abbrev bar : TenantBody
bar = record {
  product_code = some "pos";
  slug = some "bar";
  name = some "Bar";
  contact_email = none;
  base_url = some "bar/api/v1/";
  plan_name = none;
  seat_limit = none;
  window_days = none;
  grace_days = none;
}

abbrev unsafe_move : TenantPatch
unsafe_move = record { name = none; contact_email = none; base_url = some (some "http://shop") }

shop-HasSecureUrl : (u : String) → some "https://shop" ≡ some u → IsSecureUrl u
shop-HasSecureUrl u e = let same : "https://shop" ≡ u = cc in subst IsSecureUrl same (refl, refl)

tenants-HasSecureUrls_example :
    HasSecureUrls (transaction (admin_create_tenant live_env "admin" bar) world).1.db
    × HasSecureUrls (transaction (admin_patch_tenant live_env "admin" 2 unsafe_move) world).1.db
tenants-HasSecureUrls_example =
    tenants-HasSecureUrls live_env refl "admin" 2 bar unsafe_move world
      (shop-HasSecureUrl, (shop-HasSecureUrl, tt))
