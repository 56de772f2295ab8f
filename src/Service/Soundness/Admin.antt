-- ===== src/Service/Soundness/Admin.antt =====
-- The admin use cases of licensing-master/src/service.py on tenants, subscriptions and payments keep the
-- database sound.
use licensing_master.Base.{
  ℕ, zero, suc, ◌≡◌, refl, ◌==◌, nat_eq, Bool, [], ◌∷◌, ◌++◌, String, arith, Option, none, some,
}
use licensing_master.Base.Rows.{update}
use licensing_master.Tables.{Payload, Product, Subscription, TenantStatus}
use licensing_master.Exec.{Env, Exec, modify, next_serial, ◌>>=◌, integrity_error, validation}
use licensing_master.Exec.Keeps.{
  Keeps, Keeps-modify, Keeps-next_serial, Keeps-bind, Keeps-or_raise, Keeps-gets, Keeps-pure,
  Keeps-raise, Keeps-when, Keeps-now,
}
use licensing_master.Service.Rows.{audit}
use licensing_master.Base.Int.{ℤ, pos, negsuc}
use licensing_master.Service.BaseUrl.{norm_base_url, norm_scheme}
use licensing_master.Service.Tenants.{
  TenantBody, TenantPatch, check_pos, check_nonneg, required_url, insert_tenant,
  insert_subscription, admin_create_tenant, patched_url, write_patch, admin_patch_tenant,
}
use licensing_master.Service.Billing.{
  PaymentBody, nonneg_amount, insert_payment, extended, admin_record_payment,
}
use licensing_master.Service.Lifecycle.{
  read_tenant_status, update_follower, set_status, admin_set_tenant_status,
  admin_mint_service_token, cascade, admin_delete_tenant,
}
use licensing_master.Service.Billing.Patch.{
  SubscriptionPatch, checked, write_subscription, admin_patch_subscription,
}
use licensing_master.Service.Detail.{admin_tenant_detail}
use licensing_master.Service.Soundness.{IsSound}
use licensing_master.Service.Ownership.Deletion.{cascade-IsOwned, cascade-IsAccounted}
use licensing_master.Service.Reads.{read_rules}
use licensing_master.Service.Soundness.{Sound-later, Sound-subs, Sound-subscribe}

pub keep_serial : Keeps IsSound next_serial
keep_serial =
    Keeps-next_serial (λ db h. Sound-later _ _ _ db.serial h (suc db.serial) (omega arith))

pub keep_audit :
    (env : Env) (actor action kind target : String) (payload : Option Payload)
    → Keeps IsSound (audit env actor action kind target payload)
unfolding audit
keep_audit env actor action kind target payload = search (read_rules, keep_serial, Keeps-modify)

-- a change of subscriptions that leaves their tenants
pub keep_subs :
    (p : Subscription → Bool) (f : Subscription → Subscription)
    → ((x : Subscription) → (f x).subscription_id ≡ x.subscription_id)
    → ((x : Subscription) → (f x).tenant_id ≡ x.tenant_id)
    → Keeps IsSound (modify (λ db. record db { subscriptions = update p f db.subscriptions }))
keep_subs p f id tenant = Keeps-modify _ (λ db h. Sound-subs _ _ _ _ h p f id tenant)

-- a new subscription under the id that is drawn for it
keep_subscribed :
    (row : ℕ → Subscription)
    → ((id : ℕ) → (row id).subscription_id ≡ id)
    → Keeps IsSound (
        next_serial >>= λ id.
        modify (λ db. record db { subscriptions = db.subscriptions ++ row id ∷ [] }))
unfolding ◌>>=◌
keep_subscribed row fresh = record {
  kept = λ w h. Sound-subscribe _ _ _ w.serial h (row w.serial) (fresh w.serial);
}

pub keep_detail : (env : Env) (k : ℕ) → Keeps IsSound (admin_tenant_detail env k)
unfolding admin_tenant_detail
keep_detail env k = search read_rules depth 20

pub keep_check_pos : (z : ℤ) → Keeps IsSound (check_pos z)
keep_check_pos (pos zero) = Keeps-raise integrity_error
keep_check_pos (pos (suc n)) = Keeps-pure (suc n)
keep_check_pos (negsuc n) = Keeps-raise integrity_error

pub keep_check_nonneg : (z : ℤ) → Keeps IsSound (check_nonneg z)
keep_check_nonneg (pos n) = Keeps-pure n
keep_check_nonneg (negsuc n) = Keeps-raise integrity_error

pub ruleset admin_rules = (
  read_rules, Keeps-modify, keep_serial, keep_audit, keep_detail, keep_check_pos, keep_check_nonneg,
)

module _ (env : Env) where
  keep_norm_scheme : (u : String) → Keeps IsSound (norm_scheme env u)
  unfolding norm_scheme
  keep_norm_scheme u = search admin_rules

  keep_norm_base_url : (raw : Option String) → Keeps IsSound (norm_base_url env raw)
  unfolding norm_base_url
  keep_norm_base_url none = Keeps-pure none
  keep_norm_base_url (some raw) = search (admin_rules, keep_norm_scheme)

  keep_required_url : (u : Option String) → Keeps IsSound (required_url u)
  unfolding required_url
  keep_required_url u = search admin_rules

  keep_insert_tenant :
      (p : Product) (slug name : String) (email : Option String) (url : String)
      → Keeps IsSound (insert_tenant env p slug name email url)
  unfolding insert_tenant
  keep_insert_tenant p slug name email url = search admin_rules

  keep_insert_subscription :
      (k : ℕ) (body : TenantBody) → Keeps IsSound (insert_subscription env k body)
  unfolding insert_subscription
  keep_insert_subscription k body = Keeps-bind _ _ (Keeps-now env) (λ at.
      Keeps-bind _ _ (keep_check_pos _) (λ window.
        Keeps-bind _ _ (keep_check_nonneg _)
          (λ seats. Keeps-bind _ _ (keep_check_nonneg _) (λ grace. keep_subscribed _ (λ _. refl)))))

  pub admin_create_tenant-IsSound :
      (actor : String) (body : TenantBody) → Keeps IsSound (admin_create_tenant env actor body)
  unfolding admin_create_tenant
  admin_create_tenant-IsSound actor body =
      search
        (
          admin_rules, keep_norm_base_url, keep_required_url, keep_insert_tenant,
          keep_insert_subscription,
        )
        depth 40

  keep_nonneg_amount : (z : ℤ) → Keeps IsSound (nonneg_amount z)
  unfolding nonneg_amount
  keep_nonneg_amount (pos n) = Keeps-pure n
  keep_nonneg_amount (negsuc n) = Keeps-raise (validation "amount")

  keep_extended :
      (id valid_until at : ℕ)
      → Keeps IsSound (
          modify (λ db. record db {
            subscriptions =
                update
                  (λ (s : Subscription). s.subscription_id == id)
                  (extended env valid_until at)
                  db.subscriptions;
          }))
  keep_extended id valid_until at = keep_subs _ _ (λ _. refl) (λ _. refl)

  pub admin_record_payment-IsSound :
      (actor : String) (k : ℕ) (body : PaymentBody)
      → Keeps IsSound (admin_record_payment env actor k body)
  unfolding admin_record_payment insert_payment
  admin_record_payment-IsSound actor k body =
      search (admin_rules, keep_nonneg_amount, keep_extended) depth 40

  keep_patched_url : (raw : Option (Option String)) → Keeps IsSound (patched_url env raw)
  unfolding patched_url
  keep_patched_url none = Keeps-pure none
  keep_patched_url (some raw) = search (admin_rules, keep_norm_base_url, keep_required_url) depth 10

  keep_write_patch :
      (actor : String) (k : ℕ) (name : Option String) (email : Option (Option String))
      (url : Option String)
      → Keeps IsSound (write_patch env actor k name email url)
  unfolding write_patch
  keep_write_patch actor k name email url = search admin_rules

  pub admin_patch_tenant-IsSound :
      (actor : String) (k : ℕ) (body : TenantPatch)
      → Keeps IsSound (admin_patch_tenant env actor k body)
  unfolding admin_patch_tenant
  admin_patch_tenant-IsSound actor k body =
      search (admin_rules, keep_patched_url, keep_write_patch, Keeps-when) depth 20

  keep_update_follower :
      (k : ℕ) (status : TenantStatus) → Keeps IsSound (update_follower env k status)
  unfolding update_follower
  keep_update_follower k TenantStatus.archived = Keeps-pure tt
  keep_update_follower k TenantStatus.active =
      Keeps-bind _ _ (Keeps-now env) (λ at. keep_subs _ _ (λ _. refl) (λ _. refl))
  keep_update_follower k TenantStatus.suspended =
      Keeps-bind _ _ (Keeps-now env) (λ at. keep_subs _ _ (λ _. refl) (λ _. refl))

  keep_set_status :
      (actor : String) (k : ℕ) (status : Option TenantStatus)
      → Keeps IsSound (set_status env actor k status)
  unfolding set_status
  keep_set_status actor k none = Keeps-raise (validation "status")
  keep_set_status actor k (some status) = search (admin_rules, keep_update_follower) depth 10

  pub admin_set_tenant_status-IsSound :
      (actor : String) (k : ℕ) (status : String)
      → Keeps IsSound (admin_set_tenant_status env actor k status)
  unfolding admin_set_tenant_status
  admin_set_tenant_status-IsSound actor k status =
      keep_set_status actor k (read_tenant_status status)

  pub admin_mint_service_token-IsSound :
      (actor : String) (k : ℕ) (name : String)
      → Keeps IsSound (admin_mint_service_token env actor k name)
  unfolding admin_mint_service_token
  admin_mint_service_token-IsSound actor k name = search admin_rules depth 20

  keep_write_subscription :
      (sub : Subscription) (at : ℕ) (body : SubscriptionPatch)
      → Keeps IsSound (write_subscription sub at body)
  unfolding write_subscription
  keep_write_subscription sub at body =
      Keeps-bind _ _ (keep_checked _ _ _ keep_check_nonneg) (λ seats.
        Keeps-bind _ _ (keep_checked _ _ _ keep_check_pos) (λ window.
          Keeps-bind _ _ (keep_checked _ _ _ keep_check_nonneg)
            (λ grace. keep_subs _ _ (λ _. refl) (λ _. refl))))
    where
      keep_checked :
          (check : ℤ → Exec ℕ) (o : Option ℤ) (old : ℕ)
          → ((z : ℤ) → Keeps IsSound (check z))
          → Keeps IsSound (checked check o old)
      keep_checked check none old k = Keeps-pure old
      keep_checked check (some z) old k = k z

  pub admin_patch_subscription-IsSound :
      (actor : String) (k : ℕ) (body : SubscriptionPatch)
      → Keeps IsSound (admin_patch_subscription env actor k body)
  unfolding admin_patch_subscription
  admin_patch_subscription-IsSound actor k body =
      search (admin_rules, keep_write_subscription) depth 10

  keep_cascade : (k : ℕ) → Keeps IsSound (modify (cascade k))
  keep_cascade k = Keeps-modify _ (λ db h. record {
    accounted = cascade-IsAccounted k db h.accounted h.owned;
    owned = cascade-IsOwned k db h.accounted h.owned;
  })

  -- The deletion of a tenant keeps the database sound.
  pub admin_delete_tenant-IsSound :
      (actor : String) (k : ℕ) → Keeps IsSound (admin_delete_tenant env actor k)
  unfolding admin_delete_tenant
  admin_delete_tenant-IsSound actor k = search (read_rules, keep_audit, keep_cascade) depth 20
