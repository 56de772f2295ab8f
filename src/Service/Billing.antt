-- ===== src/Service/Billing.antt =====
-- Subscriptions, payments and batch tokens in licensing-master/src/service.py.
pub mod Patch
pub mod Payments
pub mod Unpatchable
use Prim.Native.String.{◌++◌ as ◌++ˢ◌}
use licensing_master.Base.{
  ℕ, ◌+◌, ◌*◌, String, ◌==◌, nat_eq, string_eq, Bool, true, false, not, ◌&&◌, Option, none, some,
  is_some, List, [], ◌∷◌, ◌++◌, max, if◌then◌else◌, fits, fits_opt, ltb,
}
use licensing_master.Base.Int.{ℤ, pos, negsuc, leb_ℤ}
use licensing_master.Base.Rows.{first, update}
use licensing_master.Tables.{
  Subscription, SubscriptionStatus, BatchToken, Payment, Value, Payload, Db,
}
use licensing_master.Exec.{
  Exec, Env, validation, not_found, integrity_error, pure, raise, gets, or_raise, raise_if, modify,
  next_serial, now, random_token, ◌>>=◌, ◌>>◌, data_error, value_error,
}
use licensing_master.Service.Rows.{TenantRow, audit, tenant_row, subscription_row}
use licensing_master.Service.Activation.{or_none, us_per_day, latest}
use licensing_master.Service.Tenants.{or_default, check_nonneg}
use licensing_master.Service.Detail.{TenantDetail, admin_tenant_detail}

pub record TokenBody : Type 0 where
  pub quota : Option ℤ
  pub expires_at : Option ℕ
  pub note : Option String

pub record PaymentBody : Type 0 where
  pub amount : Option ℤ
  pub currency : Option String
  pub period_start : Option ℕ
  pub period_end : Option ℕ
  pub note : Option String

-- `quota`, once it is known to be above zero
unfoldable pub positive_quota : ℤ → Exec ℕ
positive_quota z = do raise_if (leb_ℤ z (pos 0)) (validation "quota"); check_nonneg z

-- `amount`, once it is known to be zero or above
unfoldable pub nonneg_amount : ℤ → Exec ℕ
nonneg_amount (pos n) = pure n
nonneg_amount (negsuc _) = raise (validation "amount")

module _ (env : Env) where
  -- `INSERT INTO batch_tokens … RETURNING`; `token` is UNIQUE
  unfoldable pub insert_token : ℕ → String → ℕ → TokenBody → Exec BatchToken
  insert_token subscription_id token quota body = do
    id ← next_serial
    clash ← gets (λ w. first (λ t. t.token == token) w.batch_tokens)
    raise_if (is_some clash) integrity_error
    let row : BatchToken = record {
      batch_token_id = id;
      subscription_id = subscription_id;
      token = token;
      quota = quota;
      seats_consumed = 0;
      expires_at = body.expires_at;
      is_revoked = false;
      note = or_none body.note;
      created_at = env.started;
    }
    modify λ db. record db { batch_tokens = db.batch_tokens ++ row ∷ [] }
    pure row

  -- `admin_generate_batch_token`
  unfoldable pub admin_generate_batch_token : String → ℕ → TokenBody → Exec BatchToken
  admin_generate_batch_token actor tenant_id body = do
    t ← tenant_row tenant_id
    sub ← subscription_row tenant_id
    quota ← positive_quota (or_default body.quota 0)
    secret ← random_token env
    let token =
        "BATCH-"
        ++ˢ (env.upper t.product_code ++ˢ ("-" ++ˢ (env.upper t.slug ++ˢ ("-" ++ˢ secret))))
    row ← insert_token sub.subscription_id token quota body
    audit env actor "batch_token.create" "batch_token" (env.show row.batch_token_id)
        (some (("quota", Value.int (pos quota)) ∷ []))
    pure row

  -- `admin_revoke_batch_token`
  unfoldable pub admin_revoke_batch_token : String → ℕ → Exec BatchToken
  admin_revoke_batch_token actor id = do
    found ← gets (λ w. first (λ t. t.batch_token_id == id) w.batch_tokens)
    modify λ db. record db {
      batch_tokens =
          update (λ t. t.batch_token_id == id) (λ t. record t { is_revoked = true })
            db.batch_tokens;
    }
    row ← or_raise found not_found
    audit env actor "batch_token.revoke" "batch_token" (env.show id) none
    pure (record row { is_revoked = true })

  abbrev pub currency_of : PaymentBody → String
  currency_of body = elim (or_none body.currency) [ none ↦ "BOB" | some c ↦ c ]

  -- the columns take the payment: NUMERIC(14,2), in hundredths, and the widths of the texts
  abbrev pub payment_fits : ℕ → String → PaymentBody → Bool
  payment_fits amount actor body =
      ltb amount 100_000_000_000_000
      && fits 10 (currency_of body)
      && fits 180 actor
      && fits_opt 300 (or_none body.note)

  unfoldable pub insert_payment : ℕ → ℕ → String → PaymentBody → Exec (Unit {0})
  insert_payment subscription_id amount actor body = do
    id ← next_serial
    raise_if (not (payment_fits amount actor body)) data_error
    modify λ db. record db {
      payments =
          db.payments
          ++ record {
            payment_id = id;
            subscription_id = subscription_id;
            amount = amount;
            currency = currency_of body;
            period_start = body.period_start;
            period_end = body.period_end;
            recorded_at = env.started;
            actor_email = some actor;
            note = or_none body.note;
          }
            ∷ [];
    }

  -- the subscription's row after a payment
  abbrev pub extended : ℕ → ℕ → Subscription → Subscription
  extended valid_until at s = record s {
    valid_until = valid_until;
    is_paid = true;
    status = SubscriptionStatus.active;
    updated_at = at;
  }

  -- `admin_record_payment`
  unfoldable pub admin_record_payment : String → ℕ → PaymentBody → Exec TenantDetail
  admin_record_payment actor tenant_id body = do
    sub ← subscription_row tenant_id
    amount ← nonneg_amount (or_default body.amount 0)
    insert_payment sub.subscription_id amount actor body
    at ← now env
    let new_valid = max at sub.valid_until + sub.window_days * us_per_day
    raise_if (ltb latest new_valid) value_error
    later ← now env
    modify λ db. record db {
      subscriptions =
          update (λ s. s.subscription_id == sub.subscription_id) (extended new_valid later)
            db.subscriptions;
    }
    audit env actor "payment.record" "subscription" (env.show sub.subscription_id)
        (some (("amount", Value.text (env.show_amount amount)) ∷ []))
    admin_tenant_detail env tenant_id
