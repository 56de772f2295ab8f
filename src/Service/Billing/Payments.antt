-- ===== src/Service/Billing/Payments.antt =====
-- `admin_record_payment` of licensing-master/src/service.py: what a payment is worth.
use licensing_master.Base.{
  ℕ, suc, String, ◌+◌, ◌*◌, ◌≡◌, refl, ◌==◌, nat_eq, ==_refl, true, some, [], ◌∷◌, ◌++◌, max,
  if◌then◌else◌, fits, ltb, false,
}
use licensing_master.Base.Int.{ℤ, pos}
use licensing_master.Base.Rows.{first, update, first-update}
use licensing_master.Tables.{Tenant, Product, Subscription, Payment, SubscriptionStatus}
use licensing_master.Exec.{Env, World, ok, now, modify, gets, ◌>>=◌, value_error}
use licensing_master.Exec.Succeeds.{Succeeds, Succeeds-then, Succeeds-weaken, raise_if-ok}
use licensing_master.Service.Outcomes.{tenant_row-ok, subscription_row-ok, audit-ok}
use licensing_master.Service.Activation.{us_per_day, or_none, latest}
use licensing_master.Service.Tenants.{or_default}
use licensing_master.Service.Detail.{TenantDetail, admin_tenant_detail}
use licensing_master.Service.Billing.{
  PaymentBody, nonneg_amount, insert_payment, extended, admin_record_payment, payment_fits,
  currency_of,
}

nonneg_amount-ok : {z : ℤ} {n : ℕ} (w : World) → z ≡ pos n → nonneg_amount z w ≡ (ok n, w)
unfolding nonneg_amount
nonneg_amount-ok w e = rw e refl

-- the row of a payment
abbrev payment : Env → ℕ → ℕ → ℕ → String → PaymentBody → Payment
payment env id subscription_id amount actor body = record {
  payment_id = id;
  subscription_id = subscription_id;
  amount = amount;
  currency = currency_of env body;
  period_start = body.period_start;
  period_end = body.period_end;
  recorded_at = env.started;
  actor_email = some actor;
  note = or_none body.note;
}

insert_payment-ok :
    (env : Env) (id amount : ℕ) (actor : String) (body : PaymentBody) (w : World)
    → payment_fits env amount actor body ≡ true
    → insert_payment env id amount actor body w ≡ (
      ok tt,
      record w {
        db = record w.db {
          serial = suc w.serial;
          payments = w.payments ++ payment env w.serial id amount actor body ∷ [];
        };
      },
    )
unfolding insert_payment ◌>>=◌
insert_payment-ok env id amount actor body w narrow = rw narrow refl

module _ (env : Env) where
  -- the subscription of a payment: one window more, paid and active
  abbrev pub paid : World → Subscription → Subscription
  paid w sub = record sub {
    valid_until = max (env.clock w.asked) sub.valid_until + sub.window_days * us_per_day;
    is_paid = true;
    status = SubscriptionStatus.active;
    updated_at = env.clock (suc w.asked);
  }

  -- the payment is at the end of the payments, and the tenant's subscription, as it is stored and as it is
  -- answered, has one window more and is paid and active
  abbrev pub IsExtended :
      String → ℕ → PaymentBody → ℕ → World → Subscription → TenantDetail → World → Type 0
  IsExtended actor k body amount w sub d v =
      (v.payments ≡ w.payments ++ payment env w.serial sub.subscription_id amount actor body ∷ [])
      × (first (λ (s : Subscription). s.tenant_id == k) v.subscriptions ≡ some (paid w sub))
      × (d.subscription ≡ paid w sub)

module _ (env : Env) (k : ℕ) (t : Tenant) (p : Product) where
  -- The detail of a tenant with its subscription is read without a write.
  pub admin_tenant_detail-reads :
      (sub : Subscription) (w : World)
      → first (λ (t : Tenant). t.tenant_id == k) w.tenants ≡ some t
      → first (λ (p : Product). p.product_id == t.product_id) w.products ≡ some p
      → first (λ (s : Subscription). s.tenant_id == k) w.subscriptions ≡ some sub
      → Succeeds (λ d v. (d.subscription ≡ sub) × (v.db ≡ w.db)) (admin_tenant_detail env k w)
  unfolding admin_tenant_detail
  admin_tenant_detail-reads sub w tenant product subscription =
      Succeeds-then _ _ w _ (tenant_row-ok k w tenant product) (
        Succeeds-then _ _ w _ (subscription_row-ok k w subscription) (
          Succeeds-then (gets _) _ w _ refl (
            Succeeds-then (gets _) _ w _ refl (
              Succeeds-then (gets _) _ w _ refl
                (Succeeds-then (now env) _ w _ refl (refl, refl))))))

  module _ (actor : String) (body : PaymentBody) (w : World) (sub : Subscription) (n : ℕ)
      (tenant : first (λ (t : Tenant). t.tenant_id == k) w.tenants ≡ some t)
      (product : first (λ (p : Product). p.product_id == t.product_id) w.products ≡ some p)
      (subscription : first (λ (s : Subscription). s.tenant_id == k) w.subscriptions ≡ some sub)
      (amount : or_default body.amount 0 ≡ pos n) (narrow : payment_fits env n actor body ≡ true)
      (short : fits 80 (env.show sub.subscription_id) ≡ true)
      (in_time : ltb latest (max (env.clock w.asked) sub.valid_until + sub.window_days * us_per_day)
        ≡ false) where
    abbrev extend : Subscription → Subscription
    extend =
        extended env (max (env.clock w.asked) sub.valid_until + sub.window_days * us_per_day)
          (env.clock (suc w.asked))

    -- A payment of zero or more for a tenant, of an amount and with texts that the columns take and
    -- with a new end before the year 10000, returns:
    -- the payment with its amount, currency, period and note is added to the payments and nothing else
    -- is, and the subscription is stored paid and active, with one window more than the later of now and
    -- its old end.
    pub admin_record_payment-Extended :
        Succeeds (IsExtended env actor k body n w sub) (admin_record_payment env actor k body w)
    unfolding admin_record_payment
    admin_record_payment-Extended = Succeeds-then _ _ w _ (subscription_row-ok k w subscription) (
        Succeeds-then _ _ w _ (nonneg_amount-ok w amount) (
          Succeeds-then _ _ w _ (insert_payment-ok env sub.subscription_id n actor body w narrow) (
            Succeeds-then (now env) _ _ _ refl (
              Succeeds-then _ _ _ _
                (raise_if-ok
                  {b = ltb latest
                    (max (env.clock w.asked) sub.valid_until + sub.window_days * us_per_day)}
                  value_error _ in_time)
                (Succeeds-then (now env) _ _ _ refl (
                  Succeeds-then (modify _) _ _ _ refl (
                    Succeeds-then _ _ _ _ (audit-ok env actor _ _ _ _ _ refl short) (
                      Succeeds-weaken _ (IsExtended env actor k body n w sub) _
                        (admin_tenant_detail-reads (extend sub) _ tenant product still)
                        (λ d v q. rw (q.0, q.1) (refl, still, refl))))))))))
      where
        still :
            first
              (λ (s : Subscription). s.tenant_id == k)
              (update
                (λ (s : Subscription). s.subscription_id == sub.subscription_id)
                extend
                w.subscriptions)
            ≡ some (extend sub)
        still =
            let found : first (λ (s : Subscription). s.tenant_id == k)
                  (update (λ (s : Subscription). s.subscription_id == sub.subscription_id) extend
                    w.subscriptions)
                ≡ some (if sub.subscription_id == sub.subscription_id then extend sub else sub) =
              first-update (λ (s : Subscription). s.tenant_id == k)
                (λ (s : Subscription). s.subscription_id == sub.subscription_id) extend
                w.subscriptions (λ _. refl) subscription in
            rw (==_refl sub.subscription_id) at found
