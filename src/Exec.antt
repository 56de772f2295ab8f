-- ===== src/Exec.antt =====
-- A use case runs on one connection inside a transaction, and may raise. What was written before
-- a raise stays in the connection's view until `transaction` (licensing-master/src/db.py) rolls it
-- back. Also the errors of licensing-master/src/errors.py, and what the code takes from outside.
pub mod Returns
pub mod Keeps
pub mod Succeeds
use licensing_master.Base.{ℕ, suc, String, Bool, true, false, Option, none, some}
use licensing_master.Tables.{Db, Value}

-- The subclasses of `AppError`, and what a parameter out of its range raises; below them what is no `AppError` and ends as a 500.
pub data Error : Type 0 where
  validation : String → Error
  not_found unauthorized : Error
  forbidden : Error
  conflict seat_limit_reached activation_token_invalid device_bound_to_other_tenant : Error
  too_many_attempts : ℕ → Error
  schema_validation : Error
  admin_user_error : String → Error
  key_error index_error value_error type_error integrity_error data_error signing_key_error
        no_result :
      Error

pub data Result {ℓ} (A : Type ℓ) : Type ℓ where
  ok : A → Result A
  err : Error → Result A

-- The database as the connection sees it, and how often the outside world was asked.
pub record World : Type 0 where
  pub db : Db
  pub open db use *
  pub asked : ℕ

abbrev pub Exec {ℓ} : Type ℓ → Type ℓ
Exec A = World → Result A × World

module _ {ℓ} {A : Type ℓ} where
  abbrev pub pure : A → Exec A
  pure a w = (ok a, w)

  abbrev pub raise : Error → Exec A
  raise e w = (err e, w)

  abbrev pub gets : (World → A) → Exec A
  gets f w = (ok (f w), w)

  abbrev pub or_raise : Option A → Error → Exec A
  or_raise none e = raise e
  or_raise (some a) _ = pure a

infixl 5 ◌>>=◌ ◌>>◌
unfoldable pub ◌>>=◌ {ℓ κ} : {A : Type ℓ} {B : Type κ} → Exec A → (A → Exec B) → Exec B
◌>>=◌ m f w = let (r, w') = m w in elim r [ ok a ↦ f a w' | err e ↦ (err e, w') ]

abbrev pub ◌>>◌ {ℓ} : {B : Type ℓ} → Exec (Unit {0}) → Exec B → Exec B
m >> k = m >>= λ _. k

abbrev pub raise_if : Bool → Error → Exec (Unit {0})
raise_if true e = raise e
raise_if false e = pure tt

-- `if b: m`
abbrev pub when : Bool → Exec (Unit {0}) → Exec (Unit {0})
when true m = m
when false m = pure tt

abbrev pub modify : (Db → Db) → Exec (Unit {0})
modify f w = (ok tt, record w { db = f w.db })

-- the next value of a sequence
abbrev pub next_serial : Exec ℕ
next_serial w = (ok w.serial, record w { db = record w.db { serial = suc w.serial } })

-- `_transaction`: commit on a normal end, roll back on an exception.
unfoldable pub transaction {ℓ} : {A : Type ℓ} → Exec A → Exec A
transaction m w =
    let (r, w') = m w in elim r [ ok a ↦ (ok a, w') | err e ↦ (err e, record w' { db = w.db }) ]

-- What the code takes from outside: the answers of the clock and of `secrets` by the number of
-- the question, the transaction's start time (`now()` in SQL), hashing, signing, text services.
pub record Env : Type 0 where
  pub clock : ℕ → ℕ
  pub started : ℕ
  pub token_urlsafe : ℕ → String
  pub sha256 : String → String
  pub isoformat : ℕ → String
  pub json_scalar : Value → String
  pub ed25519 : String → String → Option String
  pub signing_key : String
  pub lower : String → String
  pub upper : String → String
  pub strip : String → String
  pub show : ℕ → String
  pub show_amount : ℕ → String
  pub is_dev : Bool
  pub default_window_days : ℕ
  pub default_grace_days : ℕ
  pub default_seat_limit : ℕ

module _ (env : Env) where
  open env use {clock, token_urlsafe}

  -- `_now()`
  abbrev pub now : Exec ℕ
  now w = (ok (clock w.asked), record w { asked = suc w.asked })

  -- `secrets.token_urlsafe(…)`
  abbrev pub random_token : Exec String
  random_token w = (ok (token_urlsafe w.asked), record w { asked = suc w.asked })

-- What holds of the result and the world where a use case returns.
abbrev pub Returns {ℓ κ} : {A : Type ℓ} → (A → World → Type κ) → Result A × World → Type κ
Returns Q (ok a, w) = Q a w
Returns Q (err _, _) = Unit
