-- ===== src/Service/Tenants/Origins.antt =====
-- The base URLs that `admin_create_tenant` and `admin_patch_tenant` of licensing-master/src/service.py store.
use mathlib.Core.Path.{subst}
use licensing_master.Base.{
  ℕ, suc, zero, String, ◌≡◌, refl, ◌==◌, nat_eq, string_eq, false, Option, none, some, [], ◌∷◌,
}
use licensing_master.Base.Int.{ℤ, pos, negsuc}
use licensing_master.Base.Rows.{All, All-append, All-update}
use licensing_master.Tables.{Tenant, Product, Db, Payload}
use licensing_master.Exec.{Env, World, Exec, Returns, transaction, integrity_error, ◌>>=◌}
use licensing_master.Exec.Returns.{Returns-then, Returns-raise_if, Returns-or_raise}
use licensing_master.Exec.Keeps.{
  Keeps, Keeps-modify, Keeps-next_serial, Keeps-bind, Keeps-pure, Keeps-raise, Keeps-when,
  Keeps-transaction,
}
use licensing_master.Service.Rows.{audit}
use licensing_master.Service.Reads.{read_rules}
use licensing_master.Service.BaseUrl.Origins.{IsSecureUrl, norm_base_url-IsSecureUrl}
use licensing_master.Service.Detail.{admin_tenant_detail}
use licensing_master.Service.Tenants.{
  TenantBody, TenantPatch, check_pos, check_nonneg, required_url, insert_tenant,
  insert_subscription, admin_create_tenant, patched_url, patch_row, write_patch, admin_patch_tenant,
}

-- every base URL that a tenant has is an https origin
abbrev pub HasSecureUrl : Tenant → Type 0
HasSecureUrl t = (u : String) → t.base_url ≡ some u → IsSecureUrl u

abbrev pub HasSecureUrls : Db → Type 0
HasSecureUrls db = All HasSecureUrl db.tenants

-- a step that keeps the origins and whose value has a property that the rest needs
Keeps-from {ℓ κ} :
    {A : Type ℓ} {B : Type κ} (Q : A → Type 0) (m : Exec A) (f : A → Exec B)
    → ((w : World) → Returns (λ a v. Q a × (v ≡ w)) (m w))
    → ((a : A) → Q a → Keeps HasSecureUrls (f a))
    → Keeps HasSecureUrls (m >>= f)
Keeps-from Q m f known k = record {
  kept = λ w h. Returns-then _ Q m f w w (known w) (λ a q. (k a q).kept w h);
}

keep_audit :
    (env : Env) (actor action kind target : String) (payload : Option Payload)
    → Keeps HasSecureUrls (audit env actor action kind target payload)
unfolding audit
keep_audit env actor action kind target payload =
    search (read_rules, Keeps-next_serial, Keeps-modify)

keep_detail : (env : Env) (k : ℕ) → Keeps HasSecureUrls (admin_tenant_detail env k)
unfolding admin_tenant_detail
keep_detail env k = search read_rules depth 20

keep_check_pos : (z : ℤ) → Keeps HasSecureUrls (check_pos z)
keep_check_pos (pos zero) = Keeps-raise integrity_error
keep_check_pos (pos (suc n)) = Keeps-pure (suc n)
keep_check_pos (negsuc n) = Keeps-raise integrity_error

keep_check_nonneg : (z : ℤ) → Keeps HasSecureUrls (check_nonneg z)
keep_check_nonneg (pos n) = Keeps-pure n
keep_check_nonneg (negsuc n) = Keeps-raise integrity_error

keep_insert_subscription :
    (env : Env) (k : ℕ) (body : TenantBody) → Keeps HasSecureUrls (insert_subscription env k body)
unfolding insert_subscription
keep_insert_subscription env k body =
    search (read_rules, Keeps-next_serial, Keeps-modify, keep_check_pos, keep_check_nonneg) depth 20

required_url-Returns :
    (o : Option String)
    → ((u : String) → o ≡ some u → IsSecureUrl u)
    → (w : World) → Returns (λ u v. IsSecureUrl u × (v ≡ w)) (required_url o w)
unfolding required_url
required_url-Returns o origin w =
    Returns-then _ _ _ _ w w (Returns-or_raise o _ w)
      λ u e. Returns-then _ _ _ _ w w (Returns-raise_if _ _ w) λ _ _. (origin u e, refl)

module _ (env : Env) (live : env.is_dev ≡ false) where
  keep_insert_tenant :
      (p : Product) (slug name : String) (email : Option String) (url : String)
      → IsSecureUrl url
      → Keeps HasSecureUrls (insert_tenant env p slug name email url)
  unfolding insert_tenant
  keep_insert_tenant p slug name email url origin =
      Keeps-bind _ _ (Keeps-next_serial (λ db h. h)) (λ id.
        Keeps-bind _ _
          (Keeps-modify _ (λ db h.
            All-append HasSecureUrl db.tenants (_ ∷ []) h
              (λ u e. let same : url ≡ u = cc in subst IsSecureUrl same origin, tt)))
          (λ _. Keeps-pure _))

  create-HasSecureUrls :
      (actor : String) (body : TenantBody)
      → Keeps HasSecureUrls (admin_create_tenant env actor body)
  unfolding admin_create_tenant
  create-HasSecureUrls actor body = Keeps-bind _ _ (search read_rules) (λ code.
      Keeps-bind _ _ (search read_rules) (λ found. Keeps-bind _ _ (search read_rules) (λ prod.
        Keeps-bind _ _ (search read_rules) (λ raw. Keeps-bind _ _ (search read_rules) (λ _.
          Keeps-bind _ _ (search read_rules) (λ dup. Keeps-bind _ _ (search read_rules) (λ _.
            Keeps-from _ _ _ (λ w. norm_base_url-IsSecureUrl env body.base_url w live)
              (λ o origin. Keeps-from _ _ _ (required_url-Returns o origin) (λ url is.
                Keeps-bind _ _ (search read_rules) (λ name.
                  Keeps-bind _ _ (keep_insert_tenant _ _ _ _ url is) (λ id.
                    search
                      (read_rules, keep_insert_subscription, keep_audit, keep_detail))))))))))))

  patched_url-Returns :
      (o : Option (Option String)) (w : World)
      → Returns (λ r v. ((u : String) → r ≡ some u → IsSecureUrl u) × (v ≡ w)) (patched_url env o w)
  unfolding patched_url
  patched_url-Returns none w = (λ u e. absurd (cc), refl)
  patched_url-Returns (some raw) w =
      Returns-then _ _ _ _ w w (norm_base_url-IsSecureUrl env raw w live) λ o origin.
        Returns-then _ _ _ _ w w (required_url-Returns o origin w)
          λ url is. (λ u e. let same : url ≡ u = cc in subst IsSecureUrl same is, refl)

  patch_row-HasSecureUrl :
      (name : Option String) (email : Option (Option String)) (url : Option String) (t : Tenant)
      → ((u : String) → url ≡ some u → IsSecureUrl u)
      → HasSecureUrl t
      → HasSecureUrl (patch_row env name email url t)
  unfolding patch_row
  patch_row-HasSecureUrl name email none t origin h = h
  patch_row-HasSecureUrl name email (some url) t origin h = origin

  keep_write_patch :
      (actor : String) (k : ℕ) (name : Option String) (email : Option (Option String))
      (url : Option String)
      → ((u : String) → url ≡ some u → IsSecureUrl u)
      → Keeps HasSecureUrls (write_patch env actor k name email url)
  unfolding write_patch
  keep_write_patch actor k name email url origin =
      Keeps-bind _ _
        (Keeps-modify _ (λ db h.
          All-update HasSecureUrl HasSecureUrl (λ x. x.tenant_id == k)
            (patch_row env name email url) db.tenants
            (λ t q _. patch_row-HasSecureUrl name email url t origin q) (λ t q _. q) h))
        (λ _. keep_audit env _ _ _ _ _)

  patch-HasSecureUrls :
      (actor : String) (k : ℕ) (body : TenantPatch)
      → Keeps HasSecureUrls (admin_patch_tenant env actor k body)
  unfolding admin_patch_tenant
  patch-HasSecureUrls actor k body = Keeps-bind _ _ (search read_rules) (λ t.
      Keeps-from _ _ _ (patched_url-Returns body.base_url) (λ url origin.
        Keeps-bind _ _ (Keeps-when _ _ (keep_write_patch _ _ _ _ url origin))
          (λ _. keep_detail env k)))

  -- Outside development, where every tenant's base URL begins with https: and has no slash at its end, it
  -- still does after the creation and after a patch of a tenant, whatever the bodies and whether or not
  -- they are refused.
  pub tenants-HasSecureUrls :
      (actor : String) (k : ℕ) (body : TenantBody) (patch : TenantPatch) (w : World)
      → HasSecureUrls w.db
      → HasSecureUrls (transaction (admin_create_tenant env actor body) w).1.db
        × HasSecureUrls (transaction (admin_patch_tenant env actor k patch) w).1.db
  tenants-HasSecureUrls actor k body patch w h = (
    Keeps-transaction _ (create-HasSecureUrls actor body) w h,
    Keeps-transaction _ (patch-HasSecureUrls actor k patch) w h,
  )
