-- ===== src/Service/Tenants.antt =====
-- The tenants' use cases of licensing-master/src/service.py: creating and patching a tenant.
pub mod Bodies
pub mod Origins
pub use Bodies.{TenantBody, TenantPatch, or_default, check_nonneg, check_pos}
use Prim.Native.String.{◌++◌ as ◌++ˢ◌}
use licensing_master.Base.{
  ℕ, ◌+◌, ◌*◌, String, ◌==◌, nat_eq, string_eq, Bool, true, false, not, ◌&&◌, Option, none, some,
  is_some, List, [], ◌∷◌, ◌++◌, if◌then◌else◌,
}
use licensing_master.Base.Int.{pos}
use licensing_master.Base.Rows.{first, count, update, delete}
use licensing_master.Tables.{
  Product, Tenant, TenantStatus, Subscription, SubscriptionStatus, Device, ServiceToken, Value,
  Payload, Db,
}
use licensing_master.Exec.{
  Exec, Env, not_found, validation, conflict, integrity_error, pure, gets, or_raise, raise_if, when,
  modify, next_serial, now, random_token, ◌>>=◌, ◌>>◌,
}
use licensing_master.Service.Rows.{TenantRow, audit, tenant_row}
use licensing_master.Service.Activation.{required, or_none, us_per_day}
use licensing_master.Service.BaseUrl.{norm_base_url}
use licensing_master.Service.Detail.{TenantDetail, admin_tenant_detail}

-- `if not base_url: raise ValidationError`
unfoldable pub required_url : Option String → Exec String
required_url url = do
  u ← or_raise url (validation "base_url")
  raise_if (u == "") (validation "base_url")
  pure u

abbrev is_empty : Payload → Bool
is_empty [] = true
is_empty (_ ∷ _) = false

module _ (env : Env) where
  unfoldable pub insert_tenant : Product → String → String → Option String → String → Exec ℕ
  insert_tenant prod slug name email url = do
    id ← next_serial
    modify λ db. record db {
      tenants =
          db.tenants
          ++ record {
            tenant_id = id;
            product_id = prod.product_id;
            slug = slug;
            name = name;
            contact_email = email;
            base_url = some url;
            status = TenantStatus.active;
            created_at = env.started;
          }
            ∷ [];
    }
    pure id

  -- the `INSERT` of the subscription; the CHECKs refuse negative figures
  unfoldable pub insert_subscription : ℕ → TenantBody → Exec (Unit {0})
  insert_subscription tenant_id body = do
    let window = or_default body.window_days env.default_window_days
    at ← now env
    window_days ← check_pos window
    seat_limit ← check_nonneg (or_default body.seat_limit env.default_seat_limit)
    grace_days ← check_nonneg (or_default body.grace_days env.default_grace_days)
    id ← next_serial
    modify λ db. record db {
      subscriptions =
          db.subscriptions
          ++ record {
            subscription_id = id;
            tenant_id = tenant_id;
            plan_name = elim (or_none body.plan_name) [ none ↦ "standard" | some p ↦ p ];
            seat_limit = seat_limit;
            window_days = window_days;
            grace_days = grace_days;
            valid_until = at + window_days * us_per_day;
            status = SubscriptionStatus.active;
            is_paid = true;
            updated_at = env.started;
          }
            ∷ [];
    }

  -- `admin_create_tenant`
  unfoldable pub admin_create_tenant : String → TenantBody → Exec TenantDetail
  admin_create_tenant actor body = do
    code ← required body.product_code
    found ← gets (λ w. first (λ p. p.code == env.lower code) w.products)
    prod ← or_raise found not_found
    raw ← required body.slug
    let slug = env.lower (env.strip raw)
    raise_if (slug == "") (validation "slug")
    dup ← gets (λ w. first (λ t. t.product_id == prod.product_id && t.slug == slug) w.tenants)
    raise_if (is_some dup) conflict
    url ← norm_base_url env body.base_url
    base_url ← required_url url
    name ← required body.name
    id ← insert_tenant prod slug (env.strip name) (or_none body.contact_email) base_url
    insert_subscription id body
    audit env actor "tenant.create" "tenant" (env.show id)
        (some (("slug", Value.text slug) ∷ ("product", Value.text prod.code) ∷ []))
    admin_tenant_detail env id

  -- the `base_url` of a patch, if the key is there
  unfoldable pub patched_url : Option (Option String) → Exec (Option String)
  patched_url none = pure none
  patched_url (some raw) = do url ← norm_base_url env raw; u ← required_url url; pure (some u)

  -- `str(v)` of a patched value
  abbrev text_or_none : Option String → Value
  text_or_none none = Value.text "None"
  text_or_none (some s) = Value.text s

  abbrev patch_values : Option String → Option (Option String) → Option String → Payload
  patch_values name email url =
      (elim name [ none ↦ [] | some n ↦ ("name", Value.text n) ∷ [] ])
      ++ (elim email [ none ↦ [] | some e ↦ ("contact_email", text_or_none e) ∷ [] ])
      ++ elim url [ none ↦ [] | some u ↦ ("base_url", Value.text u) ∷ [] ]

  -- `tenants.update().values(**values)`, for the values that are there
  unfoldable pub patch_row :
      Option String → Option (Option String) → Option String → Tenant → Tenant
  patch_row name email url t = record t {
    name = elim name [ none ↦ t.name | some n ↦ n ];
    contact_email = elim email [ none ↦ t.contact_email | some e ↦ e ];
    base_url = elim url [ none ↦ t.base_url | some u ↦ some u ];
  }

  -- `if values:` the update and its audit entry
  unfoldable pub write_patch :
      String → ℕ → Option String → Option (Option String) → Option String → Exec (Unit {0})
  write_patch actor tenant_id name email url = do
    modify λ db. record db {
      tenants = update (λ t. t.tenant_id == tenant_id) (patch_row name email url) db.tenants;
    }
    audit env actor "tenant.patch" "tenant" (env.show tenant_id)
        (some (patch_values name email url))

  -- `admin_patch_tenant`
  unfoldable pub admin_patch_tenant : String → ℕ → TenantPatch → Exec TenantDetail
  admin_patch_tenant actor tenant_id body = do
    _ ← tenant_row tenant_id
    let name : Option String = elim (or_none body.name) [
      | none ↦ none
      | some n ↦ some (env.strip n)
    ]
    let email : Option (Option String) = elim body.contact_email [
      | none ↦ none
      | some e ↦ some (or_none e)
    ]
    url ← patched_url body.base_url
    when (not (is_empty (patch_values name email url))) (write_patch actor tenant_id name email url)
    admin_tenant_detail env tenant_id
