-- ===== src/Routers/Replies.antt =====
-- What a route answers: the envelope of licensing-master/src/envelope.py with the status and the code of
-- licensing-master/src/errors.py, as the handlers of licensing-master/src/main.py write them.
use licensing_master.Base.{ℕ, String, Bool, false, Option, none, some, List}
use licensing_master.Tables.{Product, BatchToken, Device, AuditEntry}
use licensing_master.Exec.{
  Result, ok, err, Error, validation, not_found, unauthorized, forbidden, conflict,
  seat_limit_reached, activation_token_invalid, device_bound_to_other_tenant, too_many_attempts,
  schema_validation,
}
use licensing_master.Service.Detail.{TenantDetail, TenantSummary}
use licensing_master.Service.Devices.{Consumed}
use licensing_master.Service.Activation.{ActivationResult}
use licensing_master.Service.Status.{Status, Verdict, Entitlement, TokenVerdict}

-- the `data` of an envelope
pub data Answer : Type 0 where
  healthy logged_out : Answer
  email : String → Answer
  products : List Product → Answer
  tenants : List TenantSummary → Answer
  tenant : TenantDetail → Answer
  deleted : ℕ → Answer
  batch_token : BatchToken → Answer
  service_token : String → Answer
  device : Device → Answer
  audit : List AuditEntry → Answer
  entitlement : Entitlement → Answer
  seat_limit : ℕ → Answer
  token_verdict : TokenVerdict → Answer
  activation : ActivationResult → Answer
  status : Status → Answer
  verdict : Verdict → Answer
  consumed : Consumed → Answer
  released : Bool → Answer

-- `lm_session`: kept, set for a time in seconds, or deleted
pub data Cookie : Type 0 where
  keep delete : Cookie
  set : String → ℕ → Bool → Cookie

pub record Reply : Type 0 where
  pub status : ℕ
  pub answer : Option Answer
  pub error : Option String
  pub retry_after : Option ℕ
  pub cookie : Cookie
  pub no_store : Bool

-- `status_code` of the class; what is no `AppError` ends as a 500
unfoldable pub status_code : Error → ℕ
status_code (validation _) = 400
status_code unauthorized = 401
status_code forbidden = 403
status_code activation_token_invalid = 403
status_code not_found = 404
status_code conflict = 409
status_code seat_limit_reached = 409
status_code device_bound_to_other_tenant = 409
status_code schema_validation = 422
status_code (too_many_attempts _) = 429
status_code _ = 500

-- `code` of the class
unfoldable pub error_code : Error → Option String
error_code (validation _) = some "VALIDATION_ERROR"
error_code unauthorized = some "UNAUTHORIZED"
error_code forbidden = some "FORBIDDEN"
error_code activation_token_invalid = some "ACTIVATION_TOKEN_INVALID"
error_code not_found = some "NOT_FOUND"
error_code conflict = some "CONFLICT"
error_code seat_limit_reached = some "SEAT_LIMIT_REACHED"
error_code device_bound_to_other_tenant = some "DEVICE_BOUND_TO_OTHER_TENANT"
error_code schema_validation = some "SCHEMA_VALIDATION"
error_code (too_many_attempts _) = some "TOO_MANY_ATTEMPTS"
error_code _ = none

-- the `Retry-After` header
abbrev pub wait_header : Error → Option ℕ
wait_header (too_many_attempts wait) = some wait
wait_header _ = none

-- `_app_error` and `_validation`
unfoldable pub failed : Error → Reply
failed e = record {
  status = status_code e;
  answer = none;
  error = error_code e;
  retry_after = wait_header e;
  cookie = keep;
  no_store = false;
}

-- `ok(…)` under the route's status
unfoldable pub answered : ℕ → Answer → Reply
answered code a = record {
  status = code;
  answer = some a;
  error = none;
  retry_after = none;
  cookie = keep;
  no_store = false;
}

-- the reply to what a use case has come to
unfoldable pub respond : ℕ → Result Answer → Reply
respond code (ok a) = answered code a
respond code (err e) = failed e
