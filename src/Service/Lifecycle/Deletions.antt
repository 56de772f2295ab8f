-- ===== src/Service/Lifecycle/Deletions.antt =====
-- What `admin_delete_tenant` of licensing-master/src/service.py takes away, and what it leaves.
use licensing_master.Base.{
  ℕ, String, ◌≡◌, refl, ◌==◌, nat_eq, false, not, arith, some, fits, none, Bool, true,
}
use licensing_master.Base.Rows.{first, select, count, count-delete, select-delete}
use licensing_master.Tables.{
  Tenant, Product, Subscription, BatchToken, Device, Payment, ServiceToken,
}
use licensing_master.Exec.{Env, World, integrity_error, modify, gets}
use licensing_master.Exec.Succeeds.{Succeeds, Succeeds-then, raise_if-ok}
use licensing_master.Service.Outcomes.{tenant_row-ok, audit-ok}
use licensing_master.Service.Lifecycle.{
  cascade, owns_subscription, is_dangling, admin_delete_tenant,
}

-- a service token of the tenant
abbrev pub is_token_of : ℕ → ServiceToken → Bool
is_token_of k s = elim s.tenant_id [ none ↦ false | some i ↦ i == k ]

module _ (k j : ℕ) (w : World) where
  -- nothing of the tenant is left, and the tenant `j` has its devices and its subscriptions
  abbrev pub IsCleared : ℕ → World → Type 0
  IsCleared _ v =
      (count (λ (t : Tenant). t.tenant_id == k) v.tenants ≡ 0)
      × (count (λ (s : Subscription). s.tenant_id == k) v.subscriptions ≡ 0)
      × (count (λ (b : BatchToken). owns_subscription k w.db b.subscription_id) v.batch_tokens ≡ 0)
      × (count (λ (p : Payment). owns_subscription k w.db p.subscription_id) v.payments ≡ 0)
      × (count (λ (d : Device). d.tenant_id == k) v.device_activations ≡ 0)
      × (count (is_token_of k) v.service_tokens ≡ 0)
      × (select (λ (d : Device). d.tenant_id == j) v.device_activations
          ≡ select (λ (d : Device). d.tenant_id == j) w.device_activations)
      × (select (λ (s : Subscription). s.tenant_id == j) v.subscriptions
          ≡ select (λ (s : Subscription). s.tenant_id == j) w.subscriptions)

module _ (env : Env) (actor : String) (k j : ℕ) (w : World) (t : Tenant) (p : Product)
    (tenant : first (λ (t : Tenant). t.tenant_id == k) w.tenants ≡ some t)
    (product : first (λ (p : Product). p.product_id == t.product_id) w.products ≡ some p)
    (closed : count (is_dangling (cascade k w.db)) (cascade k w.db).device_activations ≡ 0)
    (other : (j == k) ≡ false) (short : fits 80 (env.show k) ≡ true) where
  -- The deletion of a tenant returns where no device of another tenant would be left with a token that
  -- is gone. It takes the tenant's subscriptions, batch tokens, payments, devices and service tokens with it,
  -- and leaves the devices and the subscriptions of any other tenant as they were. The tenant's number
  -- has at most 80 digits, the width of the audit log's target.
  pub admin_delete_tenant-Cleared : Succeeds (IsCleared k j w) (admin_delete_tenant env actor k w)
  unfolding admin_delete_tenant cascade
  admin_delete_tenant-Cleared = Succeeds-then _ _ w _ (tenant_row-ok k w tenant product) (
      Succeeds-then (modify (cascade k)) _ w _ refl (
        Succeeds-then (gets _) _ _ _ refl (
          Succeeds-then _ _ _ _
            (raise_if-ok
              {b = not
                (count (is_dangling (cascade k w.db)) (cascade k w.db).device_activations == 0)}
              integrity_error _ (rw closed refl))
            (Succeeds-then _ _ _ _ (audit-ok env actor _ _ _ _ _ refl short) (
              count-delete _ w.tenants,
              count-delete _ w.subscriptions,
              count-delete _ w.batch_tokens,
              count-delete _ w.payments,
              count-delete _ w.device_activations,
              count-delete _ w.service_tokens,
              select-delete (λ (d : Device). d.tenant_id == j) _ w.device_activations
                  (λ x on. ground arith),
              select-delete (λ (s : Subscription). s.tenant_id == j) _ w.subscriptions
                  (λ x on. ground arith),
            )))))
