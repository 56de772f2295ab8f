-- ===== src/Routers/Routes.antt =====
-- The routes of licensing-master/src/routers.py with their parameters, and the use case that each calls.
use licensing_master.Base.{
  ℕ, String, nat_eq, Bool, true, false, ◌||◌, Option, none, some, ltb, text_length,
}
use licensing_master.Exec.{Exec, Env, schema_validation, pure, raise_if, transaction, ◌>>=◌, ◌>>◌}
use licensing_master.Service.Activation.{ActivationBody, cp_activate, required}
use licensing_master.Service.Devices.{
  admin_revoke_device, admin_reinstate_device, cp_release_seat, cp_consume_seat,
}
use licensing_master.Service.Status.{
  cp_status, cp_heartbeat, cp_verify_device, cp_subscription, cp_verify_token, cp_seat_limit,
}
use licensing_master.Service.Tenants.{
  TenantBody, TenantPatch, admin_create_tenant, admin_patch_tenant,
}
use licensing_master.Service.Lifecycle.{admin_set_tenant_status, admin_mint_service_token}
use licensing_master.Service.Billing.{
  TokenBody, PaymentBody, admin_generate_batch_token, admin_revoke_batch_token,
  admin_record_payment,
}
use licensing_master.Service.Billing.Patch.{SubscriptionPatch, admin_patch_subscription}
use licensing_master.Service.Detail.{
  admin_list_products, admin_list_tenants, admin_tenant_detail, admin_list_audit,
}
use licensing_master.Routers.Replies.{Answer}

-- the routes of `admin` for an admin who is logged in, the deletion of a tenant aside
pub data AdminRoute : Type 0 where
  whoami products : AdminRoute
  tenants : Option String → AdminRoute
  create_tenant : TenantBody → AdminRoute
  tenant_detail : ℕ → AdminRoute
  patch_tenant : ℕ → TenantPatch → AdminRoute
  patch_subscription : ℕ → SubscriptionPatch → AdminRoute
  gen_batch_token : ℕ → TokenBody → AdminRoute
  revoke_batch_token : ℕ → AdminRoute
  record_payment : ℕ → PaymentBody → AdminRoute
  suspend reactivate : ℕ → AdminRoute
  mint_service_token : ℕ → Option String → AdminRoute
  revoke_device reinstate_device : String → AdminRoute
  audit : ℕ → AdminRoute

-- the routes of `cp`
pub data CpRoute : Type 0 where
  subscription seat_limit : CpRoute
  verify : Option String → CpRoute
  activate heartbeat verify_device consume : ActivationBody → CpRoute
  status : String → CpRoute
  release : Option String → CpRoute

-- the routes of `router`
pub data Route : Type 0 where
  health : Route
  activate : ActivationBody → Route
  login : String → String → String → Route
  logout : Route
  delete_tenant : ℕ → Option String → Route
  admin : AdminRoute → Route
  cp : CpRoute → Route

abbrev pub admin_method : AdminRoute → String
admin_method AdminRoute.whoami = "GET"
admin_method AdminRoute.products = "GET"
admin_method (AdminRoute.tenants _) = "GET"
admin_method (AdminRoute.tenant_detail _) = "GET"
admin_method (AdminRoute.audit _) = "GET"
admin_method (AdminRoute.patch_tenant _ _) = "PATCH"
admin_method (AdminRoute.patch_subscription _ _) = "PATCH"
admin_method _ = "POST"

-- the status of an answer
abbrev pub admin_status : AdminRoute → ℕ
admin_status (AdminRoute.create_tenant _) = 201
admin_status (AdminRoute.gen_batch_token _ _) = 201
admin_status (AdminRoute.record_payment _ _) = 201
admin_status (AdminRoute.mint_service_token _ _) = 201
admin_status _ = 200

abbrev pub cp_code : CpRoute → ℕ
cp_code (CpRoute.activate _) = 201
cp_code (CpRoute.consume _) = 201
cp_code _ = 200

-- a route on `get_read_connection`
abbrev pub admin_reads : AdminRoute → Bool
admin_reads AdminRoute.whoami = true
admin_reads AdminRoute.products = true
admin_reads (AdminRoute.tenants _) = true
admin_reads (AdminRoute.tenant_detail _) = true
admin_reads (AdminRoute.audit _) = true
admin_reads _ = false

abbrev pub cp_reads : CpRoute → Bool
cp_reads (CpRoute.activate _) = false
cp_reads (CpRoute.heartbeat _) = false
cp_reads (CpRoute.consume _) = false
cp_reads (CpRoute.release _) = false
cp_reads _ = true

-- `_connection`: closed without a commit, so nothing that was written stays
unfoldable pub reading {ℓ} : {A : Type ℓ} → Exec A → Exec A
reading m w = let (r, w') = m w in (r, record w' { db = w.db })

-- the connection that a route asks for
unfoldable pub on_connection {ℓ} : {A : Type ℓ} → Bool → Exec A → Exec A
on_connection true m = reading m
on_connection false m = transaction m

abbrev pub to_answer : {A : Type 0} → (A → Answer) → Exec A → Exec Answer
to_answer f m = m >>= λ a. pure (f a)

module _ (env : Env) where
  -- the handlers of `admin`
  unfoldable pub run_admin : String → AdminRoute → Exec Answer
  run_admin ident AdminRoute.whoami = pure (Answer.email ident)
  run_admin ident AdminRoute.products = to_answer Answer.products admin_list_products
  run_admin ident (AdminRoute.tenants product) =
      to_answer Answer.tenants (admin_list_tenants product)
  run_admin ident (AdminRoute.create_tenant body) =
      to_answer Answer.tenant (admin_create_tenant env ident body)
  run_admin ident (AdminRoute.tenant_detail k) = to_answer Answer.tenant (admin_tenant_detail env k)
  run_admin ident (AdminRoute.patch_tenant k body) =
      to_answer Answer.tenant (admin_patch_tenant env ident k body)
  run_admin ident (AdminRoute.patch_subscription k body) =
      to_answer Answer.tenant (admin_patch_subscription env ident k body)
  run_admin ident (AdminRoute.gen_batch_token k body) =
      to_answer Answer.batch_token (admin_generate_batch_token env ident k body)
  run_admin ident (AdminRoute.revoke_batch_token id) =
      to_answer Answer.batch_token (admin_revoke_batch_token env ident id)
  run_admin ident (AdminRoute.record_payment k body) =
      to_answer Answer.tenant (admin_record_payment env ident k body)
  run_admin ident (AdminRoute.suspend k) =
      to_answer Answer.tenant (admin_set_tenant_status env ident k "SUSPENDED")
  run_admin ident (AdminRoute.reactivate k) =
      to_answer Answer.tenant (admin_set_tenant_status env ident k "ACTIVE")
  run_admin ident (AdminRoute.mint_service_token k name) =
      to_answer Answer.service_token
        (admin_mint_service_token env ident k (elim name [ none ↦ "" | some n ↦ n ]))
  run_admin ident (AdminRoute.revoke_device hw) =
      to_answer Answer.device (admin_revoke_device env ident hw)
  run_admin ident (AdminRoute.reinstate_device hw) =
      to_answer Answer.device (admin_reinstate_device env ident hw)
  run_admin ident (AdminRoute.audit limit) = do
    raise_if (ltb limit 1 || ltb 500 limit) schema_validation
    to_answer Answer.audit (admin_list_audit limit)

  -- the handlers of `cp`
  unfoldable pub run_cp : Option ℕ → CpRoute → Exec Answer
  run_cp tenant CpRoute.subscription = to_answer Answer.entitlement (cp_subscription env tenant)
  run_cp tenant CpRoute.seat_limit = to_answer Answer.seat_limit (cp_seat_limit tenant)
  run_cp tenant (CpRoute.verify token) = do
    t ← required token
    to_answer Answer.token_verdict (cp_verify_token env tenant t)
  run_cp tenant (CpRoute.activate body) = to_answer Answer.activation (cp_activate env tenant body)
  run_cp tenant (CpRoute.heartbeat body) = to_answer Answer.status (cp_heartbeat env tenant body)
  run_cp tenant (CpRoute.status hw) = do
    raise_if (ltb (text_length hw) 6) schema_validation
    to_answer Answer.status (cp_status env tenant hw)
  run_cp tenant (CpRoute.verify_device body) =
      to_answer Answer.verdict (cp_verify_device env tenant body)
  run_cp tenant (CpRoute.consume body) = to_answer Answer.consumed (cp_consume_seat env tenant body)
  run_cp tenant (CpRoute.release hw) = do
    uuid ← required hw
    to_answer Answer.released (cp_release_seat env tenant uuid)
