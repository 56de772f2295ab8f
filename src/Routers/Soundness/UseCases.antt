-- ===== src/Routers/Soundness/UseCases.antt =====
-- The use cases behind the `admin` and the `cp` routes of licensing-master/src/routers.py keep the
-- database sound.
use licensing_master.Base.{ℕ, String, Bool, true, false, Option}
use licensing_master.Exec.{Env, World, Exec}
use licensing_master.Exec.Keeps.{
  Keeps, Keeps-bind, Keeps-pure, Keeps-gets, Keeps-raise_if, Keeps-transaction,
}
use licensing_master.Service.Detail.{admin_list_products, admin_list_tenants, admin_list_audit}
use licensing_master.Service.Soundness.{IsSound}
use licensing_master.Service.Soundness.UseCases.{
  cp_activate-IsSound, cp_consume_seat-IsSound, cp_release_seat-IsSound,
  admin_revoke_device-IsSound, admin_reinstate_device-IsSound,
}
use licensing_master.Service.Reads.{Keeps-required}
use licensing_master.Service.Soundness.Admin.{
  admin_create_tenant-IsSound, admin_patch_tenant-IsSound, admin_record_payment-IsSound,
  admin_set_tenant_status-IsSound, admin_mint_service_token-IsSound,
  admin_patch_subscription-IsSound, keep_detail,
}
use licensing_master.Service.Soundness.Tokens.{
  admin_generate_batch_token-IsSound, admin_revoke_batch_token-IsSound,
}
use licensing_master.Service.Soundness.Queries.{
  cp_status-IsSound, cp_heartbeat-IsSound, cp_verify_device-IsSound, cp_subscription-IsSound,
  cp_verify_token-IsSound, cp_seat_limit-IsSound,
}
use licensing_master.Routers.Replies.{Answer}
use licensing_master.Routers.Routes.{
  AdminRoute, CpRoute, to_answer, reading, on_connection, run_admin, run_cp,
}

keep_answer :
    {A : Type 0} (f : A → Answer) (m : Exec A) → Keeps IsSound m → Keeps IsSound (to_answer f m)
keep_answer f m k = Keeps-bind m _ k (λ a. Keeps-pure (f a))

run_admin-IsSound :
    (env : Env) (email : String) (r : AdminRoute) → Keeps IsSound (run_admin env email r)
unfolding run_admin admin_list_products admin_list_tenants admin_list_audit
run_admin-IsSound env email AdminRoute.whoami = Keeps-pure _
run_admin-IsSound env email AdminRoute.products = keep_answer _ _ (Keeps-gets _)
run_admin-IsSound env email (AdminRoute.tenants product) = keep_answer _ _ (Keeps-gets _)
run_admin-IsSound env email (AdminRoute.create_tenant body) =
    keep_answer _ _ (admin_create_tenant-IsSound env email body)
run_admin-IsSound env email (AdminRoute.tenant_detail k) = keep_answer _ _ (keep_detail env k)
run_admin-IsSound env email (AdminRoute.patch_tenant k body) =
    keep_answer _ _ (admin_patch_tenant-IsSound env email k body)
run_admin-IsSound env email (AdminRoute.patch_subscription k body) =
    keep_answer _ _ (admin_patch_subscription-IsSound env email k body)
run_admin-IsSound env email (AdminRoute.gen_batch_token k body) =
    keep_answer _ _ (admin_generate_batch_token-IsSound env email k body)
run_admin-IsSound env email (AdminRoute.revoke_batch_token id) =
    keep_answer _ _ (admin_revoke_batch_token-IsSound env email id)
run_admin-IsSound env email (AdminRoute.record_payment k body) =
    keep_answer _ _ (admin_record_payment-IsSound env email k body)
run_admin-IsSound env email (AdminRoute.suspend k) =
    keep_answer _ _ (admin_set_tenant_status-IsSound env email k "SUSPENDED")
run_admin-IsSound env email (AdminRoute.reactivate k) =
    keep_answer _ _ (admin_set_tenant_status-IsSound env email k "ACTIVE")
run_admin-IsSound env email (AdminRoute.mint_service_token k name) =
    keep_answer _ _ (admin_mint_service_token-IsSound env email k _)
run_admin-IsSound env email (AdminRoute.revoke_device hw) =
    keep_answer _ _ (admin_revoke_device-IsSound env email hw)
run_admin-IsSound env email (AdminRoute.reinstate_device hw) =
    keep_answer _ _ (admin_reinstate_device-IsSound env email hw)
run_admin-IsSound env email (AdminRoute.audit limit) =
    Keeps-bind _ _ (Keeps-raise_if _ _) (λ _. keep_answer _ _ (Keeps-gets _))

run_cp-IsSound : (env : Env) (k : Option ℕ) (r : CpRoute) → Keeps IsSound (run_cp env k r)
unfolding run_cp
run_cp-IsSound env k CpRoute.subscription = keep_answer _ _ (cp_subscription-IsSound env k)
run_cp-IsSound env k CpRoute.seat_limit = keep_answer _ _ (cp_seat_limit-IsSound k)
run_cp-IsSound env k (CpRoute.verify token) =
    Keeps-bind _ _ (Keeps-required token) (λ t. keep_answer _ _ (cp_verify_token-IsSound env k t))
run_cp-IsSound env k (CpRoute.activate body) = keep_answer _ _ (cp_activate-IsSound env k body)
run_cp-IsSound env k (CpRoute.heartbeat body) = keep_answer _ _ (cp_heartbeat-IsSound env k body)
run_cp-IsSound env k (CpRoute.status hw) =
    Keeps-bind _ _ (Keeps-raise_if _ _) (λ _. keep_answer _ _ (cp_status-IsSound env k hw))
run_cp-IsSound env k (CpRoute.verify_device body) =
    keep_answer _ _ (cp_verify_device-IsSound env k body)
run_cp-IsSound env k (CpRoute.consume body) = keep_answer _ _ (cp_consume_seat-IsSound env k body)
run_cp-IsSound env k (CpRoute.release hw) =
    Keeps-bind _ _ (Keeps-required hw)
      (λ uuid. keep_answer _ _ (cp_release_seat-IsSound env k uuid))

on_connection-IsSound :
    {A : Type 0} (reads : Bool) (m : Exec A) (w : World)
    → Keeps IsSound m
    → IsSound w.db
    → IsSound (on_connection reads m w).1.db
unfolding on_connection reading
on_connection-IsSound true m w k h = h
on_connection-IsSound false m w k h = Keeps-transaction m k w h

module _ (env : Env) (w : World) (h : IsSound w.db) where
  pub admin_route-IsSound :
      (email : String) (reads : Bool) (r : AdminRoute)
      → IsSound (on_connection reads (run_admin env email r) w).1.db
  admin_route-IsSound email reads r =
      on_connection-IsSound reads _ w (run_admin-IsSound env email r) h

  pub cp_route-IsSound :
      (k : Option ℕ) (reads : Bool) (r : CpRoute)
      → IsSound (on_connection reads (run_cp env k r) w).1.db
  cp_route-IsSound k reads r = on_connection-IsSound reads _ w (run_cp-IsSound env k r) h
