-- ===== src/Service/Accounting/Activation.antt =====
-- `cp_activate` and `public_activate` keep the accounting.
use licensing_master.Base.{
  ℕ, ◌≡◌, refl, ◌∙◌, ap, sym, ◌==◌, nat_eq, string_eq, Bool, true, Option, none, some, String,
  arith,
}
use licensing_master.Base.Rows.{first, update, All-first, first-sat}
use licensing_master.Tables.{BatchToken, Device, Tenant, Subscription}
use licensing_master.Exec.{Env, World, Returns, ◌>>=◌, value_error}
use licensing_master.Exec.Returns.{
  Returns-bind, Returns-then, Returns-weaken, Returns-now, Returns-random_token, Returns-raise_if,
  Returns-if, Returns-or_raise,
}
use licensing_master.Service.Rows.{
  TenantRow, tenant_row, tenant_for_service, subscription_row, batch_token_row, find_device,
  update_devices,
}
use licensing_master.Service.Activation.{
  ActivationBody, reactivate, do_activate, activate_existing, cp_activate, public_activate,
}
use licensing_master.Service.Accounting.{Accounted, IsAccounted, IsKnown, TokenAccounted}
use licensing_master.Service.Accounting.Steps.{Accounted-edit, at_uuid}
use licensing_master.Service.Accounting.Booking.{
  audit-Accounted, book-Accounted, keep_result, Returns-required,
}

-- Reads of a tenant and of a subscription.
pub tenant_row-Returns :
    (k : ℕ) (w : World) → Returns (λ t v. (t.tenant_id ≡ k) × (v ≡ w)) (tenant_row k w)
unfolding tenant_row
tenant_row-Returns k w =
    Returns-then _ (λ o. first (λ (t : Tenant). t.tenant_id == k) w.tenants ≡ o) _ _ w w
      (refl, refl)
      λ o e. Returns-then _ _ _ _ w w (Returns-or_raise o _ w) λ t found.
        Returns-then _ (λ _. Unit {0}) _ _ w w (tt, refl)
          λ j _. Returns-then _ _ _ _ w w (Returns-or_raise j _ w) λ p _. (
            ground (arith, first-sat (λ (t : Tenant). t.tenant_id == k) w.tenants (e ∙ found)),
            refl,
          )

pub subscription_row-Returns :
    (k : ℕ) (w : World)
    → Returns
        (λ s v. (first (λ (s : Subscription). s.tenant_id == k) w.subscriptions ≡ some s) × (v ≡ w))
        (subscription_row k w)
unfolding subscription_row ◌>>=◌
subscription_row-Returns k w = Returns-or_raise _ _ w

pub find_device-Returns :
    (hw : String) (w : World)
    → Returns (λ o v. (first (at_uuid hw) w.device_activations ≡ o) × (v ≡ w)) (find_device hw w)
unfolding find_device
find_device-Returns hw w = (refl, refl)

pub batch_token_row-Returns :
    (token : String) (w : World)
    → Returns
        (λ o v. (first (λ (t : BatchToken). t.token == token) w.batch_tokens ≡ o) × (v ≡ w))
        (batch_token_row token w)
unfolding batch_token_row
batch_token_row-Returns token w = (refl, refl)

pub tenant_for_service-Returns :
    (tenant_id : Option ℕ) (w : World)
    → Returns (λ t v. (tenant_id ≡ some t.tenant_id) × (v ≡ w)) (tenant_for_service tenant_id w)
unfolding tenant_for_service
tenant_for_service-Returns none w = tt
tenant_for_service-Returns (some k) w =
    Returns-weaken _ _ (tenant_row k w) (tenant_row-Returns k w)
      λ t v (e, same). (ap some (sym e), same)

pub update_devices-Returns :
    (p : Device → Bool) (f : Device → Device) (w : World)
    → Accounted w.batch_tokens (update p f w.device_activations) w.serial
    → Returns (λ _ v. IsAccounted v.db) (update_devices p f w)
unfolding update_devices ◌>>=◌
update_devices-Returns p f w h = h

pub token-IsKnown :
    (w : World) (p : BatchToken → Bool) (tok : BatchToken)
    → IsAccounted w.db
    → first p w.batch_tokens ≡ some tok
    → IsKnown w.serial (some tok.batch_token_id)
token-IsKnown w p tok h found =
    let r =
      All-first (TokenAccounted w.device_activations w.serial) p w.batch_tokens h.tokens_accounted
        found in
    (r.positive, r.below)

module _ (env : Env) (t : TenantRow) (sub : Subscription) (tok : BatchToken) where
  reactivate-Accounted :
      (hw : String) (existing : Device) (now : ℕ) (w : World)
      → IsAccounted w.db
      → Returns (λ _ v. IsAccounted v.db) (reactivate env t sub tok hw existing now w)
  unfolding reactivate
  reactivate-Accounted hw existing now w h =
      Returns-then _ _ _ _ w w (Returns-raise_if _ _ w) λ _ _. Returns-random_token _ env _ w (
        Returns-then _ _ _ _ _ _ (Returns-raise_if _ value_error _) λ _ _.
          Returns-bind _ (λ _ v. IsAccounted v.db) (update_devices (at_uuid hw) _) _ _
            (update_devices-Returns _ _ _ (
              Accounted-edit w.batch_tokens w.device_activations w.serial h (at_uuid hw) _
                (λ _. refl) (λ _. refl) (λ _. refl)))
            λ found v hv. Returns-then _ _ _ _ v v (Returns-or_raise found _ v) λ row _.
              Returns-bind _ _ _ _ v (audit-Accounted env _ _ _ _ _ v hv)
                λ _ u hu. keep_result env t sub tok row now true u hu)

  pub do_activate-Accounted :
      (body : ActivationBody) (now : ℕ) (w : World)
      → IsAccounted w.db
      → IsKnown w.serial (some tok.batch_token_id)
      → Returns (λ _ v. IsAccounted v.db) (do_activate env t sub tok body now w)
  unfolding do_activate activate_existing
  do_activate-Accounted body now w h known =
      Returns-then _ _ _ _ w w (Returns-required body.hardware_uuid w) λ hw _.
        Returns-then _ _ _ _ w w (find_device-Returns hw w)
          λ existing found. split hw existing found
    where
      split :
          (hw : String) (existing : Option Device)
          → first (at_uuid hw) w.device_activations ≡ existing
          → Returns
              (λ _ v. IsAccounted v.db)
              (activate_existing env t sub tok body hw now existing w)
      split hw none found =
          book-Accounted env t sub tok body hw none now w h known found (λ d e. absurd (cc))
      split hw (some d) found =
          Returns-if _ d.is_revoked _ _ w
            (λ dead.
              book-Accounted env t sub tok body hw (some d) now w h known found
                (λ x e. ground arith))
            (λ live. reactivate-Accounted hw d now w h)

-- An activation through a service token that returns keeps the accounting.
pub cp_activate-Accounted :
    (env : Env) (tenant_id : Option ℕ) (body : ActivationBody) (w : World)
    → IsAccounted w.db
    → Returns (λ _ v. IsAccounted v.db) (cp_activate env tenant_id body w)
unfolding cp_activate
cp_activate-Accounted env tenant_id body w h =
    Returns-then _ _ _ _ w w (tenant_for_service-Returns tenant_id w) λ t _.
      Returns-then _ _ _ _ w w (subscription_row-Returns t.tenant_id w) λ sub _.
        Returns-now _ env _ w (
          Returns-then _ _ _ _ _ _ (Returns-required body.token _) λ token _.
            Returns-then _ _ _ _ _ _ (batch_token_row-Returns token _) λ found e.
              Returns-then _ _ _ _ _ _ (Returns-raise_if _ _ _) λ _ _.
                Returns-then _ _ _ _ _ _ (Returns-or_raise found _ _) λ tok e'.
                  do_activate-Accounted env t sub tok body _ _ h (token-IsKnown w _ tok h (e ∙ e')))

pub public_activate-Accounted :
    (env : Env) (body : ActivationBody) (w : World)
    → IsAccounted w.db
    → Returns (λ _ v. IsAccounted v.db) (public_activate env body w)
unfolding public_activate
public_activate-Accounted env body w h = Returns-now _ env _ w (
    Returns-then _ _ _ _ _ _ (Returns-required body.token _) λ token _.
      Returns-then _ _ _ _ _ _ (batch_token_row-Returns token _) λ found e.
        Returns-then _ _ _ _ _ _ (Returns-or_raise found _ _) λ tok e'.
          Returns-then _ _ _ _ _ _ (Returns-raise_if _ _ _) λ _ _.
            Returns-then _ (λ _. Unit {0}) _ _ _ _ (tt, refl)
              λ subs _. Returns-then _ _ _ _ _ _ (Returns-or_raise subs _ _) λ sub _.
                Returns-then _ _ _ _ _ _ (tenant_row-Returns sub.tenant_id _) λ t _.
                  Returns-then _ _ _ _ _ _ (Returns-raise_if _ _ _) λ _ _.
                    do_activate-Accounted env t sub tok body _ _ h
                      (token-IsKnown w _ tok h (e ∙ e')))
