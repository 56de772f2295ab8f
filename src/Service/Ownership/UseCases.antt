-- ===== src/Service/Ownership/UseCases.antt =====
-- The callers of a booking in licensing-master/src/service.py have looked up the token's own subscription and
-- that subscription's tenant, so that ownership is kept.
use mathlib.Core.Option
use licensing_master.Base.{
  ℕ, ◌≡◌, refl, ◌∙◌, ap, sym, ◌==◌, nat_eq, string_eq, Bool, false, not, Option, some, arith,
}
use licensing_master.Base.Rows.{first, All-map, first-sat}
use licensing_master.Base.Serials.{Unique-only, first-key}
use licensing_master.Tables.{Subscription, BatchToken}
use licensing_master.Exec.{Env, World, Returns}
use licensing_master.Exec.Returns.{
  Returns-then, Returns-weaken, Returns-now, Returns-raise_if, Returns-or_raise,
}
use licensing_master.Service.Rows.{TenantRow}
use licensing_master.Service.Activation.{
  ActivationBody, token_ok, do_activate, cp_activate, public_activate,
}
use licensing_master.Service.Devices.{consume_existing, cp_consume_seat}
use licensing_master.Service.Accounting.{IsAccounted}
use licensing_master.Service.Accounting.Booking.{Returns-required}
use licensing_master.Service.Accounting.Activation.{
  tenant_row-Returns, tenant_for_service-Returns, subscription_row-Returns, batch_token_row-Returns,
  find_device-Returns, token-IsKnown,
}
use licensing_master.Service.Ownership.{IsOwned, owner}
use licensing_master.Service.Ownership.Activation.{
  IsToBook, do_activate-IsBooking, consume_existing-IsBooking,
}

module _ (w : World) (accounted : IsAccounted w.db) (owned : IsOwned w.db) (tok : BatchToken)
    (p : BatchToken → Bool) (found : first p w.batch_tokens ≡ some tok) (t : TenantRow) where
  to_book :
      owner tok.subscription_id w.subscriptions ≡ some t.tenant_id
      → (env : Env) → (sub : Subscription) → IsToBook env t sub tok w.db
  to_book of env sub = record {
    owned = owned;
    known = token-IsKnown w p tok accounted found;
    own =
        All-map _ _ w.batch_tokens (λ b same on. let e : b ≡ tok = same (ground arith) in rw e of)
          (Unique-only (λ (b : BatchToken). b.batch_token_id) p w.batch_tokens
            accounted.tokens_unique found);
  }

-- a token that may be used for a subscription is of it
token_ok-of :
    (tok : BatchToken) (id at : ℕ)
    → not (token_ok (some tok) id at) ≡ false
    → tok.subscription_id ≡ id
unfolding token_ok
token_ok-of tok id at h = ground arith

-- a token of the subscription of a tenant is the tenant's
pub owner-sub :
    (w : World) (k : ℕ) (sub : Subscription)
    → IsOwned w.db
    → first (λ (s : Subscription). s.tenant_id == k) w.subscriptions ≡ some sub
    → (id : ℕ) → id ≡ sub.subscription_id
    → owner id w.subscriptions ≡ some k
owner-sub w k sub h found id same =
    let by_id =
      first-key (λ (s : Subscription). s.subscription_id) _ w.subscriptions h.subs_unique found in
    let mine : sub.tenant_id ≡ k = ground (arith, first-sat _ w.subscriptions found) in
    rw (same, by_id) (ap some mine)

module _ (env : Env) (body : ActivationBody) (w : World) (accounted : IsAccounted w.db)
    (owned : IsOwned w.db) where
  pub public_activate-IsOwned : Returns (λ _ v. IsOwned v.db) (public_activate env body w)
  unfolding public_activate
  public_activate-IsOwned = Returns-now _ env _ w (
      Returns-then _ _ _ _ _ _ (Returns-required body.token _) λ token _.
        Returns-then _ _ _ _ _ _ (batch_token_row-Returns token _) λ found e.
          Returns-then _ _ _ _ _ _ (Returns-or_raise found _ _) λ tok e'.
            Returns-then _ _ _ _ _ _ (Returns-raise_if _ _ _) λ _ _.
              Returns-then _
                (λ o.
                  first (λ (s : Subscription). s.subscription_id == tok.subscription_id)
                    w.subscriptions
                  ≡ o)
                _ _ _ _ (refl, refl)
                λ subs s. Returns-then _ _ _ _ _ _ (Returns-or_raise subs _ _) λ sub s'.
                  Returns-then _ _ _ _ _ _ (tenant_row-Returns sub.tenant_id _) λ t is.
                    Returns-then _ _ _ _ _ _ (Returns-raise_if _ _ _) λ _ _.
                      Returns-weaken _ _ (do_activate env t sub tok body _ _)
                        ((do_activate-IsBooking env t sub tok body _).kept _ (
                          to_book w accounted owned tok _ (e ∙ e') t
                            (ap (Option.map (λ (x : Subscription). x.tenant_id)) (s ∙ s')
                              ∙ ap some (sym is))
                            env sub))
                        (λ _ v b. b.owned))

  module _ (k : Option ℕ) where
    pub cp_activate-IsOwned : Returns (λ _ v. IsOwned v.db) (cp_activate env k body w)
    unfolding cp_activate
    cp_activate-IsOwned = Returns-then _ _ _ _ w w (tenant_for_service-Returns k w) λ t _.
        Returns-then _ _ _ _ w w (subscription_row-Returns t.tenant_id w) λ sub s.
          Returns-now _ env _ w (
            Returns-then _ _ _ _ _ _ (Returns-required body.token _) λ token _.
              Returns-then _ _ _ _ _ _ (batch_token_row-Returns token _) λ found e.
                Returns-then _ _ _ _ _ _ (Returns-raise_if _ _ _) λ _ usable.
                  Returns-then _ _ _ _ _ _ (Returns-or_raise found _ _) λ tok e'.
                    Returns-weaken _ _ (do_activate env t sub tok body _ _)
                      ((do_activate-IsBooking env t sub tok body _).kept _ (
                        to_book w accounted owned tok _ (e ∙ e') t
                          (owner-sub w t.tenant_id sub owned s tok.subscription_id
                            (token_ok-of tok sub.subscription_id _ (rw e' at usable)))
                          env sub))
                      (λ _ v b. b.owned))

    pub cp_consume_seat-IsOwned : Returns (λ _ v. IsOwned v.db) (cp_consume_seat env k body w)
    unfolding cp_consume_seat
    cp_consume_seat-IsOwned = Returns-then _ _ _ _ w w (tenant_for_service-Returns k w) λ t _.
        Returns-then _ _ _ _ w w (subscription_row-Returns t.tenant_id w) λ sub s.
          Returns-then _ _ _ _ _ _ (Returns-required body.token _) λ token _.
            Returns-then _ _ _ _ _ _ (batch_token_row-Returns token _) λ found e.
              Returns-now _ env _ w (
                Returns-then _ _ _ _ _ _ (Returns-raise_if _ _ _) λ _ usable.
                  Returns-then _ _ _ _ _ _ (Returns-or_raise found _ _) λ tok e'.
                    Returns-then _ _ _ _ _ _ (Returns-required body.hardware_uuid _) λ hw _.
                      Returns-then _ _ _ _ _ _ (find_device-Returns hw _) λ existing _.
                        Returns-weaken _ _
                          (consume_existing env t sub tok body token hw _ existing _)
                          ((consume_existing-IsBooking env t sub tok body token hw _ existing).kept
                            _
                            (to_book w accounted owned tok _ (e ∙ e') t
                              (owner-sub w t.tenant_id sub owned s tok.subscription_id
                                (token_ok-of tok sub.subscription_id _ (rw e' at usable)))
                              env sub))
                          (λ _ v b. b.owned))
