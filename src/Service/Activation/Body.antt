-- ===== src/Service/Activation/Body.antt =====
-- The JSON bodies of the device endpoints, and how the code reads them.
use licensing_master.Base.{ℕ, String, ◌==◌, string_eq, Option, none, some, if◌then◌else◌}
use licensing_master.Exec.{Exec, key_error, pure, raise}

pub record ActivationBody : Type 0 where
  pub token : Option String
  pub hardware_uuid : Option String
  pub device_name : Option String
  pub branch_ref : Option String
  pub license_key : Option String

-- `body[key]`
abbrev pub required {ℓ} : {A : Type ℓ} → Option A → Exec A
required none = raise key_error
required (some a) = pure a

-- `body.get(key) or None`
abbrev pub or_none : Option String → Option String
or_none none = none
or_none (some s) = if s == "" then none else some s

-- `timedelta(days=1)`, in microseconds
unfoldable pub us_per_day : ℕ
us_per_day = 86_400_000_000

-- `datetime.max`, in microseconds
unfoldable pub latest : ℕ
latest = 253_402_300_799_999_999
