-- ===== src/Tables.antt =====
-- The rows of licensing-master/src/tables.py, one record for each table, and the database. A
-- timestamp is a number of microseconds; what a CHECK keeps at zero or above is a natural number.
use licensing_master.Base.{ℕ, String, Bool, Option, List, true, false}
use licensing_master.Base.Int.{ℤ}

pub record Product : Type 0 where
  pub product_id : ℕ
  pub code : String
  pub name : String
  pub is_active : Bool
  pub created_at : ℕ

-- the CHECK on `tenants.status`
pub data TenantStatus : Type 0 where
  active suspended archived : TenantStatus

pub record Tenant : Type 0 where
  pub tenant_id : ℕ
  pub product_id : ℕ
  pub slug : String
  pub name : String
  pub contact_email : Option String
  pub base_url : Option String
  pub status : TenantStatus
  pub created_at : ℕ

-- the CHECK on `subscriptions.status`
pub data SubscriptionStatus : Type 0 where
  active past_due suspended : SubscriptionStatus

pub record Subscription : Type 0 where
  pub subscription_id : ℕ
  pub tenant_id : ℕ
  pub plan_name : String
  pub seat_limit : ℕ
  pub window_days : ℕ
  pub grace_days : ℕ
  pub valid_until : ℕ
  pub status : SubscriptionStatus
  pub is_paid : Bool
  pub updated_at : ℕ

pub record BatchToken : Type 0 where
  pub batch_token_id : ℕ
  pub subscription_id : ℕ
  pub token : String
  pub quota : ℕ
  pub seats_consumed : ℕ
  pub expires_at : Option ℕ
  pub is_revoked : Bool
  pub note : Option String
  pub created_at : ℕ

pub record Device : Type 0 where
  pub device_activation_id : ℕ
  pub tenant_id : ℕ
  pub hardware_uuid : String
  pub device_name : String
  pub branch_ref : Option String
  pub license_key : String
  pub valid_from : ℕ
  pub valid_until : ℕ
  pub is_revoked : Bool
  pub last_seen_at : Option ℕ
  pub activated_via : Option ℕ
  pub created_at : ℕ

-- `amount` in hundredths, as NUMERIC(14, 2) keeps it
pub record Payment : Type 0 where
  pub payment_id : ℕ
  pub subscription_id : ℕ
  pub amount : ℕ
  pub currency : String
  pub period_start : Option ℕ
  pub period_end : Option ℕ
  pub recorded_at : ℕ
  pub actor_email : Option String
  pub note : Option String

pub record ServiceToken : Type 0 where
  pub service_token_id : ℕ
  pub product_id : ℕ
  pub tenant_id : Option ℕ
  pub token_hash : String
  pub name : String
  pub is_revoked : Bool
  pub created_at : ℕ
  pub last_used_at : Option ℕ

-- A value of a payload `dict`, before it is written as JSON.
pub data Value : Type 0 where
  null : Value
  bool : Bool → Value
  int : ℤ → Value
  text : String → Value
  datetime : ℕ → Value

abbrev pub Payload : Type 0
Payload = List (String × Value)

pub record AuditEntry : Type 0 where
  pub audit_log_id : ℕ
  pub actor_email : String
  pub action : String
  pub target_type : String
  pub target_id : String
  pub payload : Option Payload
  pub at : ℕ

pub record AdminUser : Type 0 where
  pub admin_user_id : ℕ
  pub email : String
  pub password_hash : String
  pub totp_secret : String
  pub totp_last_step : Option ℕ
  pub is_active : Bool
  pub created_at : ℕ
  pub last_login_at : Option ℕ

pub record AdminSession : Type 0 where
  pub admin_session_id : ℕ
  pub admin_user_id : ℕ
  pub token_hash : String
  pub created_at : ℕ
  pub last_seen_at : ℕ
  pub expires_at : ℕ
  pub revoked_at : Option ℕ
  pub ip : Option String
  pub user_agent : Option String

-- The database. `serial` is the next value of the tables' BIGSERIAL sequences, one for all.
pub record Db : Type 0 where
  pub products : List Product
  pub tenants : List Tenant
  pub subscriptions : List Subscription
  pub batch_tokens : List BatchToken
  pub device_activations : List Device
  pub payments : List Payment
  pub service_tokens : List ServiceToken
  pub audit_log : List AuditEntry
  pub admin_users : List AdminUser
  pub admin_sessions : List AdminSession
  pub serial : ℕ

abbrev pub tenant_status_beq : TenantStatus → TenantStatus → Bool
tenant_status_beq TenantStatus.active TenantStatus.active = true
tenant_status_beq TenantStatus.suspended TenantStatus.suspended = true
tenant_status_beq TenantStatus.archived TenantStatus.archived = true
tenant_status_beq _ _ = false
