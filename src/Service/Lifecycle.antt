-- ===== src/Service/Lifecycle.antt =====
-- Suspending, reactivating and deleting a tenant, and minting its service tokens, in
-- licensing-master/src/service.py.
pub mod Deletions
use Prim.Native.String.{◌++◌ as ◌++ˢ◌}
use licensing_master.Base.{
  ℕ, String, ◌==◌, nat_eq, string_eq, Bool, true, false, not, ◌&&◌, Option, none, some, is_some,
  List, [], ◌∷◌, ◌++◌, if◌then◌else◌, fits,
}
use licensing_master.Base.Rows.{first, count, update, delete}
use licensing_master.Tables.{
  Tenant, TenantStatus, Subscription, SubscriptionStatus, Device, BatchToken, Value, Db,
}
use licensing_master.Exec.{
  Exec, Env, validation, integrity_error, pure, raise, gets, raise_if, modify, next_serial, now,
  random_token, ◌>>=◌, ◌>>◌, data_error,
}
use licensing_master.Service.Rows.{TenantRow, audit, tenant_row}
use licensing_master.Service.Detail.{TenantDetail, admin_tenant_detail}

-- the names of the tenants' states
abbrev pub tenant_status_name : TenantStatus → String
tenant_status_name TenantStatus.active = "ACTIVE"
tenant_status_name TenantStatus.suspended = "SUSPENDED"
tenant_status_name TenantStatus.archived = "ARCHIVED"

abbrev pub read_tenant_status : String → Option TenantStatus
read_tenant_status s =
    if s == "ACTIVE"
    then some TenantStatus.active
    else if s == "SUSPENDED"
    then some TenantStatus.suspended
    else if s == "ARCHIVED"
    then some TenantStatus.archived
    else none

-- the subscription's row on a change of the tenant's status
abbrev pub follow_status : TenantStatus → ℕ → Subscription → Subscription
follow_status TenantStatus.suspended at s = record s {
  status = SubscriptionStatus.suspended;
  is_paid = false;
  updated_at = at;
}
follow_status TenantStatus.active at s = record s {
  status = SubscriptionStatus.active;
  updated_at = at;
}
follow_status TenantStatus.archived at s = s

module _ (env : Env) where
  -- the `UPDATE subscriptions` of `admin_set_tenant_status`; ARCHIVED makes none
  unfoldable pub update_follower : ℕ → TenantStatus → Exec (Unit {0})
  update_follower tenant_id TenantStatus.archived = pure tt
  update_follower tenant_id status = do
    at ← now env
    modify λ db. record db {
      subscriptions =
          update (λ s. s.tenant_id == tenant_id) (follow_status status at) db.subscriptions;
    }

  unfoldable pub set_status : String → ℕ → Option TenantStatus → Exec TenantDetail
  set_status actor tenant_id none = raise (validation "status")
  set_status actor tenant_id (some status) = do
    modify λ db. record db {
      tenants =
          update (λ t. t.tenant_id == tenant_id) (λ t. record t { status = status }) db.tenants;
    }
    update_follower tenant_id status
    audit env actor "tenant.status" "tenant" (env.show tenant_id)
        (some (("status", Value.text (tenant_status_name status)) ∷ []))
    admin_tenant_detail env tenant_id

  -- `admin_set_tenant_status`
  unfoldable pub admin_set_tenant_status : String → ℕ → String → Exec TenantDetail
  admin_set_tenant_status actor tenant_id status =
      set_status actor tenant_id (read_tenant_status status)

  -- the name of a service token
  abbrev pub token_name : String → String
  token_name name = if env.strip name == "" then "service token" else env.strip name

  -- `admin_mint_service_token`: only the hash is stored
  unfoldable pub admin_mint_service_token : String → ℕ → String → Exec String
  admin_mint_service_token actor tenant_id name = do
    t ← tenant_row tenant_id
    secret ← random_token env
    let raw = "svc_" ++ˢ secret
    id ← next_serial
    clash ← gets (λ w. first (λ s. s.token_hash == env.sha256 raw) w.service_tokens)
    raise_if (not (fits 120 (token_name name))) data_error
    raise_if (is_some clash) integrity_error
    modify λ db. record db {
      service_tokens =
          db.service_tokens
          ++ record {
            service_token_id = id;
            product_id = t.product_id;
            tenant_id = some tenant_id;
            token_hash = env.sha256 raw;
            name = token_name name;
            is_revoked = false;
            created_at = env.started;
            last_used_at = none;
          }
            ∷ [];
    }
    audit env actor "service_token.mint" "tenant" (env.show tenant_id)
        (some (("name", Value.text name) ∷ []))
    pure raw

-- a subscription of the tenant, by its id
abbrev pub owns_subscription : ℕ → Db → ℕ → Bool
owns_subscription tenant_id db id =
    is_some (first (λ s. s.tenant_id == tenant_id && s.subscription_id == id) db.subscriptions)

-- `DELETE FROM tenants` with ON DELETE CASCADE
unfoldable pub cascade : ℕ → Db → Db
cascade tenant_id db = record db {
  tenants = delete (λ t. t.tenant_id == tenant_id) db.tenants;
  subscriptions = delete (λ s. s.tenant_id == tenant_id) db.subscriptions;
  batch_tokens = delete (λ b. owns_subscription tenant_id db b.subscription_id) db.batch_tokens;
  payments = delete (λ p. owns_subscription tenant_id db p.subscription_id) db.payments;
  device_activations = delete (λ d. d.tenant_id == tenant_id) db.device_activations;
  service_tokens =
      delete (λ s. elim s.tenant_id [ none ↦ false | some k ↦ k == tenant_id ]) db.service_tokens;
}

-- a device that refers to a token which is not there; that foreign key has no cascade
abbrev pub is_dangling : Db → Device → Bool
is_dangling db d = elim d.activated_via [
  | none ↦ false
  | some k ↦ not (is_some (first (λ b. b.batch_token_id == k) db.batch_tokens))
]

module _ (env : Env) where
  -- `admin_delete_tenant`
  unfoldable pub admin_delete_tenant : String → ℕ → Exec ℕ
  admin_delete_tenant actor tenant_id = do
    _ ← tenant_row tenant_id
    modify (cascade tenant_id)
    dangling ← gets (λ w. count (is_dangling w.db) w.device_activations)
    raise_if (not (dangling == 0)) integrity_error
    audit env actor "tenant.delete" "tenant" (env.show tenant_id) none
    pure tenant_id
